-- ===== src/Luapi/Json/Parser/RoundTrip.antt =====
-- What `JSONParser` of internal/luapi/lua-json.go makes of the tokens of a tree.
use sinq.Prelude.{
  ℕ, zero, suc, ◌*◌, ◌≤◌, ◌<◌, ◌≡◌, Bool, true, false, List, [], ◌∷◌, Bytes, length, equal,
  equal_iff, Bool-cases, if◌then◌else◌, arith, refl, ap, ◌∙◌, sym, inl, inr,
}
use sinq.Luapi.Json.Tree.{
  Json, jnull, jnumber, jflag, jtext, jarray, jobject, Items, no_items, item, Members, no_members,
  member,
}
use sinq.Luapi.Json.Parser.{
  JsonToken, delim, Parsed, lua_table, Elements, no_elements, element, Rows, no_rows, row, parsed,
  add_element, set_row, after_value, is_array_end, parse_value, parse_object, parse_array,
  parse_json,
}
use sinq.Luapi.Json.Parser.Tokens.{
  first, others, item_tokens, member_tokens, tokens, to_lua, to_elements, to_rows, is_key,
  HasDistinctKeys, HaveDistinctKeys, AreDistinct, cost, cost_items, cost_members, cost-others,
}

append_elements : Elements → Elements → Elements
append_elements no_elements es = es
append_elements (element v es) fs = element v (append_elements es fs)

append_elements-nil : (es : Elements) → append_elements es no_elements ≡ es
unfolding append_elements
append_elements-nil no_elements = refl
append_elements-nil (element v es) = ap (element v) (append_elements-nil es)

append_elements-add :
    (es : Elements) (v : Parsed) (fs : Elements)
    → append_elements (add_element es v) fs ≡ append_elements es (element v fs)
unfolding append_elements add_element
append_elements-add no_elements v fs = refl
append_elements-add (element w es) v fs = ap (element w) (append_elements-add es v fs)

append_rows : Rows → Rows → Rows
append_rows no_rows rs = rs
append_rows (row k v rs) ss = row k v (append_rows rs ss)

append_rows-nil : (rs : Rows) → append_rows rs no_rows ≡ rs
unfolding append_rows
append_rows-nil no_rows = refl
append_rows-nil (row k v rs) = ap (row k v) (append_rows-nil rs)

-- Whether a field is set.
is_set : Bytes → Rows → Bool
is_set k no_rows = false
is_set k (row l v rs) = if equal k l then true else is_set k rs

append_rows-set :
    (k : Bytes) (v : Parsed) (rs ss : Rows)
    → is_set k rs ≡ false
    → append_rows (set_row k v rs) ss ≡ append_rows rs (row k v ss)
unfolding append_rows set_row is_set
append_rows-set k v no_rows ss h = refl
append_rows-set k v (row l w rs) ss h = ground (arith, append_rows-set k v rs ss)

is_set-set_row :
    (k l : Bytes) (v : Parsed) (rs : Rows)
    → equal k l ≡ false
    → is_set k rs ≡ false
    → is_set k (set_row l v rs) ≡ false
unfolding is_set set_row
is_set-set_row k l v no_rows d h = ground arith
is_set-set_row k l v (row m w rs) d h = ground (arith, is_set-set_row k l v rs)

-- No key of the rest is set.
AreUnset : Members → Rows → Type 0
AreUnset no_members rs = Unit
AreUnset (member k j ms) rs = (is_set k rs ≡ false) × AreUnset ms rs

AreUnset-nil : (ms : Members) → AreUnset ms no_rows
unfolding AreUnset is_set
AreUnset-nil no_members = tt
AreUnset-nil (member k j ms) = (refl, AreUnset-nil ms)

equal-flip : (s t : Bytes) → equal s t ≡ false → equal t s ≡ false
equal-flip s t h = elim (Bool-cases (equal t s)) [
  | inl e ↦ (let back = (equal_iff s t).1 (sym ((equal_iff t s).0 e)) in ground arith)
  | inr e ↦ e
]

not_key :
    (k l : Bytes) (j : Json) (ms : Members)
    → is_key k (member l j ms) ≡ false
    → (equal k l ≡ false) × (is_key k ms ≡ false)
not_key k l j ms h = ground arith

AreUnset-set_row :
    (k : Bytes) (v : Parsed) (ms : Members) (rs : Rows)
    → is_key k ms ≡ false
    → AreUnset ms rs
    → AreUnset ms (set_row k v rs)
unfolding AreUnset
AreUnset-set_row k v no_members rs d h = tt
AreUnset-set_row k v (member l j ms) rs d h =
    let (differs, rest) = not_key k l j ms d in
    (is_set-set_row l k v rs (equal-flip k l differs) h.0, AreUnset-set_row k v ms rs rest h.1)

first-not_end : (j : Json) → is_array_end (first j) ≡ false
first-not_end jnull = refl
first-not_end (jnumber n) = refl
first-not_end (jflag b) = refl
first-not_end (jtext t) = refl
first-not_end (jarray js) = refl
first-not_end (jobject ms) = refl

mutual
  unfolding parse_value others cost to_lua HasDistinctKeys AreUnset append_elements append_rows

  parse_value-tokens :
      (j : Json) (fuel : ℕ) (ts : List JsonToken)
      → HasDistinctKeys j
      → cost j ≤ fuel
      → parse_value fuel (first j) (others j ts) ≡ parsed (to_lua j) ts
  parse_value-tokens jnull zero ts d h = ground arith
  parse_value-tokens (jnumber n) zero ts d h = ground arith
  parse_value-tokens (jflag b) zero ts d h = ground arith
  parse_value-tokens (jtext t) zero ts d h = ground arith
  parse_value-tokens (jarray js) zero ts d h = ground arith
  parse_value-tokens (jobject ms) zero ts d h = ground arith
  parse_value-tokens jnull (suc fuel) ts d h = refl
  parse_value-tokens (jnumber n) (suc fuel) ts d h = refl
  parse_value-tokens (jflag b) (suc fuel) ts d h = refl
  parse_value-tokens (jtext t) (suc fuel) ts d h = refl
  parse_value-tokens (jarray js) (suc fuel) ts d h =
      parse_array-tokens js fuel no_elements ts d (omega arith)
  parse_value-tokens (jobject ms) (suc fuel) ts d h =
      parse_object-tokens ms fuel no_rows ts d (AreUnset-nil ms) (omega arith)

  parse_array-tokens :
      (js : Items) (fuel : ℕ) (es : Elements) (ts : List JsonToken)
      → HaveDistinctKeys js
      → cost_items js < fuel
      → parse_array fuel es (item_tokens js (delim b']' ∷ ts))
        ≡ parsed (lua_table (append_elements es (to_elements js)) no_rows) ts
  parse_array-tokens js zero es ts d h = ground arith
  parse_array-tokens no_items (suc fuel) es ts d h =
      ap (λ fs. parsed (lua_table fs no_rows) ts) (sym (append_elements-nil es))
  parse_array-tokens (item j js) (suc fuel) es ts d h =
      rw
        (
          first-not_end j,
          parse_value-tokens j fuel (item_tokens js (delim b']' ∷ ts)) d.0 (omega arith),
          after_value,
        )
        (parse_array-tokens js fuel (add_element es (to_lua j)) ts d.1 (omega arith)
          ∙ ap (λ fs. parsed (lua_table fs no_rows) ts)
              (append_elements-add es (to_lua j) (to_elements js)))

  parse_object-tokens :
      (ms : Members) (fuel : ℕ) (rs : Rows) (ts : List JsonToken)
      → AreDistinct ms
      → AreUnset ms rs
      → cost_members ms < fuel
      → parse_object fuel rs (member_tokens ms (delim b'}' ∷ ts))
        ≡ parsed (lua_table no_elements (append_rows rs (to_rows ms))) ts
  parse_object-tokens ms zero rs ts d u h = ground arith
  parse_object-tokens no_members (suc fuel) rs ts d u h =
      ap (λ ss. parsed (lua_table no_elements ss) ts) (sym (append_rows-nil rs))
  parse_object-tokens (member k j ms) (suc fuel) rs ts d u h =
      rw
        (
          parse_value-tokens j fuel (member_tokens ms (delim b'}' ∷ ts)) d.1 (omega arith),
          after_value,
        )
        (parse_object-tokens ms fuel (set_row k (to_lua j) rs) ts d.2
            (AreUnset-set_row k (to_lua j) ms rs d.0 u.1) (omega arith)
          ∙ ap (λ ss. parsed (lua_table no_elements ss) ts)
              (append_rows-set k (to_lua j) rs (to_rows ms) u.0))

-- The tokens of a tree that has no key twice in an object are parsed, with no error and nothing left
-- over, to the table that stands for the tree.
pub parse_json-tokens :
    (j : Json) → HasDistinctKeys j → parse_json false (tokens j) ≡ parsed (to_lua j) []
unfolding parse_json tokens
parse_json-tokens j d =
    rw
      (
        parse_value-tokens j (2 * suc (length (others j []))) [] d
            (omega (arith, cost-others j [])),
        after_value,
      )
      refl
