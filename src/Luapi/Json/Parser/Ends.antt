-- ===== src/Luapi/Json/Parser/Ends.antt =====
-- `JSONParser` of internal/luapi/lua-json.go ends, whatever the tokens are.
use sinq.Prelude.{
  ℕ, zero, suc, ◌*◌, ◌≤◌, ◌<◌, ◌≢◌, Bool, true, false, List, [], ◌∷◌, length, ◌==◌, if◌then◌else◌,
  arith, subst,
}
use sinq.Luapi.Json.Parser.{
  JsonToken, delim, string_token, float_token, bool_token, null_token, Parsed, Elements, Rows,
  ParseOutcome, parsed, wrong, no_fuel, no_elements, no_rows, add_element, set_row, after_value,
  is_array_end, parse_value, parse_object, parse_array, at_end, parse_json,
}

-- The call ended, and left no more tokens than the number.
abbrev Leaves : ℕ → ParseOutcome → Type 0
Leaves n (parsed v ts) = length ts ≤ n
Leaves n (wrong e) = Unit
Leaves n no_fuel = ⊥

after_value-Leaves :
    (n m : ℕ) (r : ParseOutcome) (k : Parsed → List JsonToken → ParseOutcome)
    → Leaves n r
    → ((v : Parsed) (ts : List JsonToken) → length ts ≤ n → Leaves m (k v ts))
    → Leaves m (after_value r k)
unfolding after_value
after_value-Leaves n m (parsed v ts) k h next = next v ts h
after_value-Leaves n m (wrong e) k h next = tt
after_value-Leaves n m no_fuel k h next = h

Leaves-more : (n m : ℕ) (r : ParseOutcome) → n ≤ m → Leaves n r → Leaves m r
Leaves-more n m (parsed v ts) le h = omega arith
Leaves-more n m (wrong e) le h = tt
Leaves-more n m no_fuel le h = h

-- Either choice leaves no more.
if-Leaves :
    (n : ℕ) (b : Bool) (x y : ParseOutcome)
    → Leaves n x
    → Leaves n y
    → Leaves n (if b then x else y)
if-Leaves n true x y h k = h
if-Leaves n false x y h k = k

mutual
  unfolding parse_value

  parse_value-Leaves :
      (fuel : ℕ) (token : JsonToken) (ts : List JsonToken)
      → suc (2 * length ts) < fuel
      → Leaves (length ts) (parse_value fuel token ts)
  parse_value-Leaves zero token ts h = ground arith
  parse_value-Leaves (suc fuel) (delim c) ts h =
      if-Leaves _ (c == b'{') _ _ (parse_object-Leaves fuel no_rows ts (omega arith))
        (if-Leaves _ (c == b'[') _ _ (parse_array-Leaves fuel no_elements ts (omega arith)) tt)
  parse_value-Leaves (suc fuel) (string_token t) ts h = omega arith
  parse_value-Leaves (suc fuel) (float_token n) ts h = omega arith
  parse_value-Leaves (suc fuel) (bool_token b) ts h = omega arith
  parse_value-Leaves (suc fuel) null_token ts h = omega arith

  parse_object-Leaves :
      (fuel : ℕ) (rs : Rows) (ts : List JsonToken)
      → 2 * length ts < fuel
      → Leaves (length ts) (parse_object fuel rs ts)
  parse_object-Leaves zero rs ts h = ground arith
  parse_object-Leaves (suc fuel) rs [] h = tt
  parse_object-Leaves (suc fuel) rs (delim c ∷ ts) h = if-Leaves _ (c == b'}') _ _ (omega arith) tt
  parse_object-Leaves (suc fuel) rs (string_token k ∷ []) h = tt
  parse_object-Leaves (suc fuel) rs (string_token k ∷ token ∷ ts) h =
      after_value-Leaves (length ts) _ (parse_value fuel token ts) _
        (parse_value-Leaves fuel token ts (omega arith))
        λ v ts' le.
          Leaves-more (length ts') _ _ (omega arith)
            (parse_object-Leaves fuel (set_row k v rs) ts' (omega arith))
  parse_object-Leaves (suc fuel) rs (float_token n ∷ ts) h = tt
  parse_object-Leaves (suc fuel) rs (bool_token b ∷ ts) h = tt
  parse_object-Leaves (suc fuel) rs (null_token ∷ ts) h = tt

  parse_array-Leaves :
      (fuel : ℕ) (es : Elements) (ts : List JsonToken)
      → 2 * length ts < fuel
      → Leaves (length ts) (parse_array fuel es ts)
  parse_array-Leaves zero es ts h = ground arith
  parse_array-Leaves (suc fuel) es [] h = tt
  parse_array-Leaves (suc fuel) es (token ∷ ts) h =
      if-Leaves _ (is_array_end token) _ _ (omega arith) (
        after_value-Leaves (length ts) _ (parse_value fuel token ts) _
          (parse_value-Leaves fuel token ts (omega arith))
          λ v ts' le.
            Leaves-more (length ts') _ _ (omega arith)
              (parse_array-Leaves fuel (add_element es v) ts' (omega arith)))

at_end-Leaves : (broken : Bool) (v : Parsed) (ts : List JsonToken) → Leaves 0 (at_end broken v ts)
unfolding at_end
at_end-Leaves broken v (token ∷ ts) = tt
at_end-Leaves true v [] = tt
at_end-Leaves false v [] = omega arith

parse_json-Leaves : (broken : Bool) (ts : List JsonToken) → Leaves 0 (parse_json broken ts)
unfolding parse_json
parse_json-Leaves broken [] = tt
parse_json-Leaves broken (token ∷ ts) =
    after_value-Leaves (length ts) 0 (parse_value (2 * suc (length ts)) token ts) (at_end broken)
      (parse_value-Leaves (2 * suc (length ts)) token ts (omega arith))
      λ v ts' le. at_end-Leaves broken v ts'

-- Whatever the tokens are, the parser does not run out of fuel.
pub parse_json_ends : (broken : Bool) (ts : List JsonToken) → parse_json broken ts ≢ no_fuel
parse_json_ends broken ts e = subst (Leaves 0) e (parse_json-Leaves broken ts)
