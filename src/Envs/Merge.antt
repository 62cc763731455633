-- ===== src/Envs/Merge.antt =====
-- What a merged environment holds under each key, and under each path of keys.
use sinq.Prelude.{
  ◌≡◌, refl, sym, ◌∙◌, ◌⊎◌, inl, inr, Option, none, some, List, [], ◌∷◌, Bytes, equal, equal_iff,
  arith, Bool-cases, if◌then◌else◌,
}
use mathlib.Core.Option.{some-injective}
use sinq.Envs.{
  Value, scalar, list, object, Items, Fields, end, field, lookup, insert, deep_copy, copy_value,
  merge_fields, merge_value,
}

mutual
  unfolding deep_copy

  deep_copy_fields : (m : Fields) → deep_copy m ≡ m
  deep_copy_fields end = refl
  deep_copy_fields (field k v m) = rw (deep_copy_value v, deep_copy_fields m)

  deep_copy_value : (v : Value) → copy_value v ≡ v
  deep_copy_value (object m) = rw (deep_copy_fields m)
  deep_copy_value (list xs) = refl
  deep_copy_value (scalar s) = refl

pub deep_copy_lem : (m : Fields) → deep_copy m ≡ m
deep_copy_lem m = deep_copy_fields m

pub lookup-insert :
    (k j : Bytes) (v : Value) (m : Fields)
    → lookup j (insert k v m) ≡ (if equal k j then some v else lookup j m)
unfolding lookup insert
lookup-insert k j v end = refl
lookup-insert k j v (field i w m) =
    ground (arith, equal_iff k j, equal_iff i k, equal_iff i j, lookup-insert k j v m)

-- The keys of a map are distinct, in the maps inside it too.
abbrev mutual
  pub IsMap : Fields → Type 0
  IsMap end = Unit
  IsMap (field k v m) = (lookup k m ≡ none) × IsMapValue v × IsMap m

  pub IsMapValue : Value → Type 0
  IsMapValue (object m) = IsMap m
  IsMapValue (list xs) = Unit
  IsMapValue (scalar s) = Unit

-- What a merge leaves at a key: `old` is the target's value, `new` the other map's.
abbrev pub merged : Option Value → Option Value → Option Value
merged old none = old
merged old (some v) = some (merge_value old v)

-- Under each key the merged map holds the target's value where the other map has none, and else
-- what `merge_value` makes of both.
pub lookup-merge_fields :
    (m : Fields) (target : Fields) (k : Bytes)
    → IsMap m
    → lookup k (merge_fields target m) ≡ merged (lookup k target) (lookup k m)
unfolding merge_fields lookup
lookup-merge_fields end target k h = refl
lookup-merge_fields (field j v m) target k h =
    lookup-merge_fields m (insert j (merge_value (lookup j target) v) target) k h.2
    ∙ rw lookup-insert (elim (Bool-cases (equal j k)) [
      | inl y ↦ let e = (equal_iff j k).0 y in rw (y, ← e, h.0)
      | inr n ↦ rw n
    ])

-- The value at a path of keys.
abbrev pub get_path : List Bytes → Option Value → Option Value
get_path [] v = v
get_path (k ∷ p) none = none
get_path (k ∷ p) (some (object m)) = get_path p (lookup k m)
get_path (k ∷ p) (some (list xs)) = none
get_path (k ∷ p) (some (scalar s)) = none

abbrev pub IsObject : Value → Type 0
IsObject (object m) = Unit
IsObject _ = ⊥

lookup-IsMap : (m : Fields) (k : Bytes) {v : Value} → IsMap m → lookup k m ≡ some v → IsMapValue v
unfolding lookup
lookup-IsMap end k h e = absurd (cc)
lookup-IsMap (field j w m) k {v} h e = elim (Bool-cases (equal j k)) [
  | inl y ↦ let e' : w ≡ v = some-injective w v (rw y at e) in rw (← e') h.1
  | inr n ↦ lookup-IsMap m k h.2 (rw n at e)
]

get_none : (p : List Bytes) {w : Value} → get_path p none ≡ some w → ⊥
get_none [] e = cc
get_none (k ∷ p) e = cc

get_path-merged_cases :
    (p : List Bytes) (old o : Option Value) {w : Value}
    → get_path p o ≡ some w
    → ((u : Value) → o ≡ some u → get_path p (merged old (some u)) ≡ some w)
    → get_path p (merged old o) ≡ some w
get_path-merged_cases p old none e h = absurd (get_none p e)
get_path-merged_cases p old (some u) e h = h u refl

-- A value at a path, by what the two maps hold at its first key.
get_path-merged :
    (p : List Bytes) (old : Option Value) (v : Value) {w : Value}
    → IsMapValue v
    → ¬ IsObject w
    → get_path p (some v) ≡ some w
    → get_path p (merged old (some v)) ≡ some w
unfolding merge_fields
get_path-merged [] old (object m) h n e = absurd (n (rw (← some-injective _ _ e) tt))
get_path-merged [] old (list xs) h n e = e
get_path-merged [] old (scalar s) h n e = e
get_path-merged (k ∷ p) old (list xs) h n e = absurd (cc)
get_path-merged (k ∷ p) old (scalar s) h n e = absurd (cc)
get_path-merged (k ∷ p) none (object m) h n e = rw deep_copy_lem e
get_path-merged (k ∷ p) (some (list xs)) (object m) h n e = rw deep_copy_lem e
get_path-merged (k ∷ p) (some (scalar s)) (object m) h n e = rw deep_copy_lem e
get_path-merged (k ∷ p) (some (object t)) (object m) {w} h n e = rw (lookup-merge_fields m t k h) (
    get_path-merged_cases p (lookup k t) (lookup k m) e
      λ u x. get_path-merged p (lookup k t) u (lookup-IsMap m k h x) n (rw x at e))

-- Every value of the other map that is no map itself is in the result, under its path.
pub get_path-merge_fields :
    (k : Bytes) (p : List Bytes) (target m : Fields) {w : Value}
    → IsMap m
    → ¬ IsObject w
    → get_path (k ∷ p) (some (object m)) ≡ some w
    → get_path (k ∷ p) (some (object (merge_fields target m))) ≡ some w
unfolding merge_fields
get_path-merge_fields k p target m h n e =
    get_path-merged (k ∷ p) (some (object target)) (object m) h n e

-- The other map leaves a path alone, where it has nothing at one of the path's keys and maps at
-- those before it.
abbrev pub Leaves : List Bytes → Fields → Type 0
Leaves [] m = ⊥
Leaves (k ∷ p) m =
    (lookup k m ≡ none) ⊎ ((j : Fields) × (lookup k m ≡ some (object j)) × Leaves p j)

get_path-none : (p : List Bytes) → get_path p none ≡ none
get_path-none [] = refl
get_path-none (k ∷ p) = refl

below_list :
    (p : List Bytes) (xs : Items) (m : Fields) → Leaves p m → get_path p (some (list xs)) ≡ none
below_list [] xs m h = absurd h
below_list (k ∷ p) xs m h = refl

below_scalar :
    (p : List Bytes) (s : Bytes) (m : Fields) → Leaves p m → get_path p (some (scalar s)) ≡ none
below_scalar [] s m h = absurd h
below_scalar (k ∷ p) s m h = refl

get_path_left : (p : List Bytes) (m : Fields) → Leaves p m → get_path p (some (object m)) ≡ none
get_path_left [] m h = absurd h
get_path_left (k ∷ p) m (inl e) = rw e (get_path-none p)
get_path_left (k ∷ p) m (inr (j, e, h)) = rw e (get_path_left p j h)

-- Where the other map has no key twice: a path at one of whose keys it has nothing, and maps at those
-- before it, keeps what the target has there, also inside the maps that both have.
pub get_path-merge_fields_left :
    (p : List Bytes) (target m : Fields)
    → IsMap m
    → Leaves p m
    → get_path p (some (object (merge_fields target m))) ≡ get_path p (some (object target))
unfolding merge_fields
get_path-merge_fields_left [] target m h l = absurd l
get_path-merge_fields_left (k ∷ p) target m h (inl e) = rw (lookup-merge_fields m target k h, e)
get_path-merge_fields_left (k ∷ p) target m h (inr (j, e, l)) =
    rw (lookup-merge_fields m target k h, e)
      (under (lookup k target) λ t. get_path-merge_fields_left p t j (lookup-IsMap m k h e) l)
  where
    under :
        (old : Option Value)
        → ((t : Fields)
            → get_path p (some (object (merge_fields t j))) ≡ get_path p (some (object t)))
        → get_path p (merged old (some (object j))) ≡ get_path p old
    under none ih = rw (deep_copy_lem j, get_path_left p j l) (sym (get_path-none p))
    under (some (object t)) ih = ih t
    under (some (list xs)) ih = rw deep_copy_lem (get_path_left p j l ∙ sym (below_list p xs j l))
    under (some (scalar s)) ih = rw deep_copy_lem (get_path_left p j l ∙ sym (below_scalar p s j l))
