-- ===== src/Luapi/Json/Ends.antt =====
-- The serializer of internal/luapi/lua-json.go ends: the tables that are not visited get fewer.
use sinq.Prelude.{
  ℕ, zero, suc, ◌≤◌, ◌<◌, ◌≡◌, ◌≢◌, Bool, true, false, Option, none, some, List, [], ◌∷◌, All,
  Bytes, length, get_elem?, get_elem?-some, Bool-cases, inl, inr, if◌then◌else◌, arith, subst, refl,
}
use sinq.Luapi.Json.{
  LuaValue, json_null, number, flag, text, table, other, Table, Heap, Forms, Serializer, Written,
  out_of_fuel, Again, is_visited, is_finite, put, serialize_primitive, Shape, invalid, as_array,
  as_object, empty, shape_of, serialize_table, enter, serialize_with, serialize_value,
  serialize_to_json,
}
use sinq.Luapi.Json.Outcome.{Good, AllGood, leave-Good, serialize_shape-Good}

-- The tables below a number that are not visited.
unvisited : ℕ → List ℕ → ℕ
unvisited zero visited = 0
unvisited (suc n) visited =
    let rest = unvisited n visited in if is_visited n visited then rest else suc rest

unvisited-le : (n : ℕ) (a : ℕ) (visited : List ℕ) → unvisited n (a ∷ visited) ≤ unvisited n visited
unfolding unvisited is_visited
unvisited-le zero a visited = omega arith
unvisited-le (suc n) a visited = ground (arith, unvisited-le n a visited)

unvisited-lt :
    (n : ℕ) (a : ℕ) (visited : List ℕ)
    → a < n
    → is_visited a visited ≡ false
    → unvisited n (a ∷ visited) < unvisited n visited
unfolding unvisited is_visited
unvisited-lt zero a visited h new = omega arith
unvisited-lt (suc n) a visited h new =
    ground (arith, unvisited-lt n a visited, unvisited-le n a visited)

unvisited-blank : (n : ℕ) → unvisited n [] ≡ n
unfolding unvisited is_visited
unvisited-blank zero = refl
unvisited-blank (suc n) = omega (arith, unvisited-blank n)

abbrev Ended : List ℕ → Written → Type 0
Ended visited w = Good visited (λ _. Unit) ⊥ w

module _ (fm : Forms) (h : Heap) where
  serialize_primitive-Ended :
      (v : LuaValue) (s : Serializer) → Ended s.visited (serialize_primitive fm v s)
  unfolding serialize_primitive put
  serialize_primitive-Ended json_null s = refl
  serialize_primitive-Ended (number n) s = elim (Bool-cases (is_finite n)) [
    | inl e ↦ rw (e, serialize_primitive) refl
    | inr e ↦ rw (e, serialize_primitive) tt
  ]
  serialize_primitive-Ended (flag true) s = refl
  serialize_primitive-Ended (flag false) s = refl
  serialize_primitive-Ended (text t) s = refl
  serialize_primitive-Ended (table a) s = tt
  serialize_primitive-Ended (other name) s = tt

  all_end : (vs : List LuaValue) → All (λ _. Unit {0}) vs
  all_end [] = tt
  all_end (v ∷ vs) = (tt, all_end vs)

  all_ends : (es : List (Bytes × LuaValue)) → All (λ _. Unit {0}) es
  all_ends [] = tt
  all_ends (e ∷ es) = (tt, all_ends es)

  shape-AllGood : (shape : Shape) → AllGood (λ _. Unit) (λ _. Unit {0}) shape
  shape-AllGood (invalid errors) = tt
  shape-AllGood (as_array vs) = all_end vs
  shape-AllGood (as_object es) = all_ends es
  shape-AllGood (empty b) = tt

  serialize_table-Ended :
      (again : Again) (indent : Bytes) (o : Option Table) (s : Serializer)
      → ((t : Table)
          → o ≡ some t
          → (v : LuaValue) (indent : Bytes) (s' : Serializer) → s'.visited ≡ s.visited
          → Ended s.visited (again v indent s'))
      → Ended s.visited (serialize_table fm again indent o s)
  unfolding serialize_table
  serialize_table-Ended again indent none s within = tt
  serialize_table-Ended again indent (some t) s within =
      serialize_shape-Good fm again s.visited (λ _. Unit) ⊥ (λ _. Unit {0})
        (λ v indent s' _. within t refl v indent s') (λ k e _. tt) indent (shape_of t) s
        (shape-AllGood (shape_of t)) refl

  enter-Ended :
      (again : Again) (a : ℕ) (indent : Bytes) (s : Serializer) (seen : Bool)
      → is_visited a s.visited ≡ seen
      → ((v : LuaValue) (indent : Bytes) (s' : Serializer)
          → unvisited (length h) s'.visited < unvisited (length h) s.visited
          → Ended s'.visited (again v indent s'))
      → Ended s.visited (enter fm h again a indent s seen)
  unfolding enter
  enter-Ended again a indent s true e within = tt
  enter-Ended again a indent s false e within =
      leave-Good a s.visited (λ _. Unit) ⊥ _ e
        (serialize_table-Ended again indent (get_elem? h a) (record s { visited = a ∷ s.visited })
          λ t there v indent' s' same.
            subst (λ visited. Ended visited (again v indent' s')) same
              (within v indent' s' (fewer t there s' same)))
    where
      fewer :
          (t : Table)
          → get_elem? h a ≡ some t
          → (s' : Serializer) → s'.visited ≡ a ∷ s.visited
          → unvisited (length h) s'.visited < unvisited (length h) s.visited
      fewer t there s' same =
          rw same (unvisited-lt (length h) a s.visited (get_elem?-some h a there) e)

  serialize_value-Ended :
      (fuel : ℕ) (v : LuaValue) (indent : Bytes) (s : Serializer)
      → unvisited (length h) s.visited < fuel
      → Ended s.visited (serialize_value fm h fuel v indent s)
  unfolding serialize_value serialize_with
  serialize_value-Ended zero v indent s enough = ground arith
  serialize_value-Ended (suc fuel) json_null indent s enough = serialize_primitive-Ended json_null s
  serialize_value-Ended (suc fuel) (number n) indent s enough =
      serialize_primitive-Ended (number n) s
  serialize_value-Ended (suc fuel) (flag b) indent s enough = serialize_primitive-Ended (flag b) s
  serialize_value-Ended (suc fuel) (text t) indent s enough = serialize_primitive-Ended (text t) s
  serialize_value-Ended (suc fuel) (other n) indent s enough = serialize_primitive-Ended (other n) s
  serialize_value-Ended (suc fuel) (table a) indent s enough =
      enter-Ended (serialize_value fm h fuel) a indent s (is_visited a s.visited) refl
        λ v indent' s' fewer. serialize_value-Ended fuel v indent' s' (omega arith)

  -- Whatever the tables refer to, `serialize_to_json` does not run out of fuel.
  pub serialize_to_json_ends :
      (indent : Bytes) (v : LuaValue) → serialize_to_json fm h indent v ≢ out_of_fuel
  unfolding serialize_to_json
  serialize_to_json_ends indent v e =
      subst (Ended []) e
        (serialize_value-Ended (suc (length h)) v [] _ (omega (arith, unvisited-blank (length h))))
