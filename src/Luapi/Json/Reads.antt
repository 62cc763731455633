-- ===== src/Luapi/Json/Reads.antt =====
-- A value that stands for a tree is written by the serializer of internal/luapi/lua-json.go: the check
-- for cycles refuses no table that is only shared.
use sinq.Prelude.{
  ℕ, zero, suc, ◌≡◌, ◌≢◌, Bool, true, false, Option, none, some, List, [], ◌∷◌, Bytes, length,
  get_elem?, ==_iff, ◌==◌, Bool-cases, Option-cases, inl, inr, if◌then◌else◌, arith, not, refl,
  subst, ◌∙◌, sym, ap, All,
}
use sinq.Luapi.Json.{
  LuaValue, json_null, number, flag, text, table, other, Table, Heap, Forms, Serializer,
  invalid_number, Written, wrote, failed, out_of_fuel, Again, is_visited, is_finite, is_nil, put,
  serialize_primitive, Shape, invalid, as_array, as_object, empty, shape_of, serialize_table, enter,
  serialize_with, serialize_value, serialize_to_json,
}
use sinq.Luapi.Json.Tree.{
  Json, jnumber, Items, Members, add_item, add_member, to_array, to_object, read_items,
  read_members, read_shape, read_table, read_with, read_value, copies, print,
}
use sinq.Luapi.Json.Outcome.{Good, AllGood, leave-Good, serialize_shape-Good}
use sinq.Luapi.Json.Ends.{serialize_to_json_ends}
use sinq.Luapi.Json.Text.{serialize_value-Prints}
use sinq.Luapi.Json.Layout.{Prints}
use sinq.Luapi.Json.Once.{Below, read_value-more, read_value_unique}

abbrev Fine : List ℕ → Written → Type 0
Fine visited w = Good visited (λ _. ⊥) Unit w

-- Whether there is a tree.
abbrev IsRead : {X : Type 0} → Option X → Type 0
IsRead none = ⊥
IsRead (some x) = Unit

add_item-IsRead : (o : Option Json) (p : Option Items) → IsRead (add_item o p) → IsRead o × IsRead p
unfolding add_item
add_item-IsRead none p h = ground arith
add_item-IsRead (some j) none h = ground arith
add_item-IsRead (some j) (some js) h = (tt, tt)

add_member-IsRead :
    (k : Bytes) (o : Option Json) (p : Option Members)
    → IsRead (add_member k o p)
    → IsRead o × IsRead p
unfolding add_member
add_member-IsRead k none p h = ground arith
add_member-IsRead k (some j) none h = ground arith
add_member-IsRead k (some j) (some ms) h = (tt, tt)

to_array-IsRead : (p : Option Items) → IsRead (to_array p) → IsRead p
unfolding to_array
to_array-IsRead none h = h
to_array-IsRead (some js) h = tt

to_object-IsRead : (p : Option Members) → IsRead (to_object p) → IsRead p
unfolding to_object
to_object-IsRead none h = h
to_object-IsRead (some ms) h = tt

none-less : {X : Type 0} (o p : Option X) → Below o p → p ≡ none → o ≡ none
none-less none p h e = refl
none-less (some x) p h e = cc

all-IsRead :
    (read : LuaValue → Option Json) (vs : List LuaValue)
    → IsRead (read_items read vs)
    → All (λ v. IsRead (read v)) vs
unfolding read_items
all-IsRead read [] h = tt
all-IsRead read (v ∷ vs) h =
    let (first, others) = add_item-IsRead (read v) (read_items read vs) h in
    (first, all-IsRead read vs others)

members-IsRead :
    (read : LuaValue → Option Json) (es : List (Bytes × LuaValue))
    → IsRead (read_members read es)
    → All (λ e. IsRead (read e.1)) es
unfolding read_members
members-IsRead read [] h = tt
members-IsRead read ((k, v) ∷ es) h =
    let (first, others) = add_member-IsRead k (read v) (read_members read es) h in
    (first, members-IsRead read es others)

shape-IsRead :
    (read : LuaValue → Option Json) (shape : Shape)
    → IsRead (read_shape read shape)
    → AllGood (λ _. ⊥) (λ v. IsRead (read v)) shape
unfolding read_shape
shape-IsRead read (invalid errors) h = h
shape-IsRead read (as_array vs) h = all-IsRead read vs (to_array-IsRead (read_items read vs) h)
shape-IsRead read (as_object es) h =
    members-IsRead read es (to_object-IsRead (read_members read es) h)
shape-IsRead read (empty b) h = tt

primitive-Fine :
    (fm : Forms) (n : ℕ) (s : Serializer) (finite : Bool)
    → IsRead (if finite then some (jnumber n) else none)
    → Fine s.visited
        (if finite then wrote (put (fm.format_float n) s) else failed (invalid_number n))
unfolding put
primitive-Fine fm n s true h = refl
primitive-Fine fm n s false h = h

module _ (fm : Forms) (h : Heap) where
  -- The tables that are being visited are nested deeper than the number.
  abbrev Clear : ℕ → List ℕ → Type 0
  Clear n visited = (a : ℕ) → is_visited a visited ≡ true → read_value h n (table a) ≡ none

  Clear-less : (n : ℕ) (visited : List ℕ) → Clear (suc n) visited → Clear n visited
  Clear-less n visited clear a e =
      none-less (read_value h n (table a)) _ (read_value-more h n (table a)) (clear a e)

  Clear-enter :
      (n a : ℕ) (visited : List ℕ)
      → Clear (suc n) visited
      → read_value h n (table a) ≡ none
      → Clear n (a ∷ visited)
  unfolding is_visited
  Clear-enter n a visited clear deep b e = elim (Bool-cases (b == a)) [
    | inl same ↦ rw ((==_iff b a).0 same) deep
    | inr differs ↦ Clear-less n visited clear b (rw differs at e)
  ]

  serialize_table-Fine :
      (n : ℕ) (again : Again) (indent : Bytes) (o : Option Table) (s : Serializer)
      → ((v : LuaValue) (indent : Bytes) (s' : Serializer)
          → IsRead (read_value h n v)
          → s'.visited ≡ s.visited
          → Fine s.visited (again v indent s'))
      → IsRead (read_table (read_value h n) o)
      → Fine s.visited (serialize_table fm again indent o s)
  unfolding serialize_table read_table
  serialize_table-Fine n again indent none s within r = r
  serialize_table-Fine n again indent (some t) s within r =
      serialize_shape-Good fm again s.visited (λ _. ⊥) Unit (λ v. IsRead (read_value h n v))
        (λ v indent s' c same. within v indent s' c same) (λ k e f. f) indent (shape_of t) s
        (shape-IsRead (read_value h n) (shape_of t) r) refl

  enter-Fine :
      (n a : ℕ) (again : Again) (indent : Bytes) (s : Serializer) (seen : Bool)
      → is_visited a s.visited ≡ seen
      → Clear (suc n) s.visited
      → IsRead (read_value h (suc n) (table a))
      → read_value h n (table a) ≡ none
      → ((v : LuaValue) (indent : Bytes) (s' : Serializer)
          → IsRead (read_value h n v)
          → Clear n s'.visited
          → Fine s'.visited (again v indent s'))
      → Fine s.visited (enter fm h again a indent s seen)
  unfolding enter read_value read_with
  enter-Fine n a again indent s true e clear r deep within = subst IsRead (clear a e) r
  enter-Fine n a again indent s false e clear r deep within =
      leave-Good a s.visited (λ _. ⊥) Unit _ e
        (serialize_table-Fine n again indent (get_elem? h a) (record s { visited = a ∷ s.visited })
          (λ v indent' s' c same.
            subst (λ visited. Fine visited (again v indent' s')) same
              (within v indent' s' c
                (subst (Clear n) (sym same) (Clear-enter n a s.visited clear deep))))
          r)

  deep-Fine :
      (n fuel : ℕ) (v : LuaValue) (indent : Bytes) (s : Serializer)
      → IsRead (read_value h (suc n) v)
      → Clear (suc n) s.visited
      → read_value h n v ≡ none
      → ((fuel : ℕ) (v : LuaValue) (indent : Bytes) (s' : Serializer)
          → IsRead (read_value h n v)
          → Clear n s'.visited
          → Fine s'.visited (serialize_value fm h fuel v indent s'))
      → Fine s.visited (serialize_value fm h fuel v indent s)
  unfolding serialize_value serialize_with serialize_primitive read_value read_with put
  deep-Fine n zero v indent s r clear deep within = tt
  deep-Fine n (suc fuel) json_null indent s r clear deep within = refl
  deep-Fine n (suc fuel) (number i) indent s r clear deep within =
      primitive-Fine fm i s (is_finite i) r
  deep-Fine n (suc fuel) (flag true) indent s r clear deep within = refl
  deep-Fine n (suc fuel) (flag false) indent s r clear deep within = refl
  deep-Fine n (suc fuel) (text t) indent s r clear deep within = refl
  deep-Fine n (suc fuel) (other name) indent s r clear deep within = r
  deep-Fine n (suc fuel) (table a) indent s r clear deep within =
      enter-Fine n a (serialize_value fm h fuel) indent s (is_visited a s.visited) refl clear r deep
        (within fuel)

  serialize_value-Fine :
      (n fuel : ℕ) (v : LuaValue) (indent : Bytes) (s : Serializer)
      → IsRead (read_value h n v)
      → Clear n s.visited
      → Fine s.visited (serialize_value fm h fuel v indent s)
  unfolding read_value
  serialize_value-Fine zero fuel v indent s r clear = ground arith
  serialize_value-Fine (suc n) fuel v indent s r clear = elim (Option-cases (read_value h n v)) [
    | inl deep ↦ deep-Fine n fuel v indent s r clear deep (serialize_value-Fine n)
    | inr (j, e) ↦
        serialize_value-Fine n fuel v indent s (subst IsRead (sym e) tt)
          (Clear-less n s.visited clear)
  ]

  abbrev fresh_serializer : Bytes → Serializer
  fresh_serializer indent = record {
    sb = [];
    indent = indent;
    newline = not (is_nil indent);
    visited = [];
  }

  finished :
      (indent : Bytes) (j : Json) (r : Option Json) (w : Written)
      → ((i : Json) → r ≡ some i → i ≡ j)
      → Fine [] w
      → w ≢ out_of_fuel
      → Prints (print fm indent (not (is_nil indent)) 0) r (fresh_serializer indent) w
      → (s : Serializer) × (w ≡ wrote s) × (s.sb ≡ print fm indent (not (is_nil indent)) 0 j)
  unfolding put
  finished indent j r (wrote s) unique fine more (i, e, same) =
      (s, refl, ap (λ s'. s'.sb) same ∙ ap (print fm indent (not (is_nil indent)) 0) (unique i e))
  finished indent j r (failed e) unique fine more h = ground arith
  finished indent j r out_of_fuel unique fine more h = ground arith

  -- A value that stands for a tree when it is read to some depth is written, and the text is that of the
  -- tree.
  pub serialize_to_json-print :
      (indent : Bytes) (v : LuaValue) (depth : ℕ) (j : Json)
      → read_value h depth v ≡ some j
      → (s : Serializer) × (serialize_to_json fm h indent v ≡ wrote s)
        × (s.sb ≡ print fm indent (not (is_nil indent)) 0 j)
  unfolding serialize_to_json is_visited copies
  serialize_to_json-print indent v depth j e =
      finished indent j (read_value h (suc (length h)) v) (serialize_to_json fm h indent v)
        (λ i e'. read_value_unique h (suc (length h)) depth v i j e' e)
        (serialize_value-Fine depth (suc (length h)) v [] (fresh_serializer indent)
          (subst IsRead (sym e) tt) (λ a seen. ground arith))
        (serialize_to_json_ends fm h indent v)
        (serialize_value-Prints fm h (suc (length h)) v 0 (fresh_serializer indent))
