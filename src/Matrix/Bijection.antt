-- ===== src/Matrix/Bijection.antt =====
-- The numbers below the total stand for the choices of labels, one for each.
use native.Mathlib.Nat.{div-add-mod, mod-lt}
use native.Mathlib.Decide.{dec_lt}
use mathlib.Core.Option.{some-injective}
use sinq.Prelude.{
  ℕ, zero, suc, ◌+◌, ◌*◌, ◌/◌, ◌%◌, ◌<◌, ◌≡◌, refl, sym, ap, ◌∙◌, false, inl, inr, some, List, [],
  ◌∷◌, Bytes, length, get_elem?, equal, equal_iff, arith, All, Option-cases, if◌then◌else◌,
  get_elem?-none, get_elem?-some,
}
use sinq.Matrix.{Axis, labels_of, build_all_paths, choose, take_labels, take_path}

-- Where a label stands in its list.
unfoldable pub index_of : Bytes → List Bytes → ℕ
index_of l [] = 0
index_of l (x ∷ xs) = if equal x l then 0 else suc (index_of l xs)

-- No label stands twice in a list: each is found where it is.
abbrev pub IsDistinct : List Bytes → Type 0
IsDistinct xs = (i : ℕ) (l : Bytes) → get_elem? xs i ≡ some l → index_of l xs ≡ i

abbrev pub product : List (List Bytes) → ℕ
product [] = 1
product (xs ∷ rest) = length xs * product rest

-- The number of a choice: its digits are the places of its labels, the last list's counting one.
unfoldable pub number_of : List Bytes → List (List Bytes) → ℕ
number_of [] all = 0
number_of (l ∷ chosen) [] = 0
number_of (l ∷ chosen) (xs ∷ rest) = index_of l xs * product rest + number_of chosen rest

-- Lists to choose from: none is empty, and each label stands once.
abbrev pub AreAxes : List (List Bytes) → Type 0
AreAxes = All (λ xs. (0 < length xs) × IsDistinct xs)

-- One label from each list.
abbrev pub Picks : List Bytes → List (List Bytes) → Type 0
Picks [] [] = Unit
Picks (l ∷ chosen) (xs ∷ rest) = (get_elem? xs (index_of l xs) ≡ some l) × Picks chosen rest
Picks [] (xs ∷ rest) = ⊥
Picks (l ∷ chosen) [] = ⊥

-- What the loop over the lists has chosen, and what it has left of the number.
record Chosen (path : ℕ) (all : List (List Bytes)) (r : List Bytes × ℕ) : Type 0 where
  picks : Picks r.0 all
  adds_up : number_of r.0 all + product all * r.1 ≡ path
  is_small : number_of r.0 all < product all

digit_step :
    (n c p len q : ℕ) → 0 < len → c + p * q ≡ n → (q % len * p + c) + len * p * (q / len) ≡ n
digit_step n c p len q h e = omega (arith, ap (λ (t : ℕ). t * p) (div-add-mod q len), e)

digit_small : (c p len i : ℕ) → i < len → c < p → i * p + c < len * p
digit_small c p len i h k = grind arith

choose-Chosen :
    (path : ℕ) (xs : List Bytes) (rest : List (List Bytes)) (r : List Bytes × ℕ)
    → 0 < length xs
    → IsDistinct xs
    → Chosen path rest r
    → (t : List Bytes × ℕ) × (choose xs (some r) ≡ some t) × Chosen path (xs ∷ rest) t
unfolding choose number_of
choose-Chosen path xs rest (chosen, q) h d c = elim (Option-cases (get_elem? xs (q % length xs))) [
  | inl e ↦ absurd (omega (arith, get_elem?-none xs _ e, mod-lt q h))
  | inr (l, e) ↦
      let i = d (q % length xs) l e in
      (
        (l ∷ chosen, q / length xs),
        rw (e, choose),
        record {
          picks = (rw i e, c.picks);
          adds_up = rw i (digit_step path _ (product rest) (length xs) q h c.adds_up);
          is_small = rw i (digit_small _ (product rest) (length xs) _ (mod-lt q h) c.is_small);
        },
      )
]

take_labels-Chosen :
    (path : ℕ) (all : List (List Bytes))
    → AreAxes all
    → (r : List Bytes × ℕ) × (take_labels path all ≡ some r) × Chosen path all r
unfolding take_labels number_of
take_labels-Chosen path [] h =
    (([], path), refl, record { picks = tt; adds_up = omega arith; is_small = omega arith })
take_labels-Chosen path (xs ∷ rest) h =
    let (r, e, c) = take_labels-Chosen path rest h.1 in
    rw e (choose-Chosen path xs rest r h.0.0 h.0.1 c)

-- A number below the product of the lists' lengths is taken to one label from each list, without an
-- index out of range, and is the number of that choice: no two numbers give the same choice.
pub take_path-number_of :
    (path : ℕ) (all : List (List Bytes))
    → AreAxes all
    → path < product all
    → (chosen : List Bytes) × (take_path path all ≡ some chosen)
      × Picks chosen all
      × (number_of chosen all ≡ path)
unfolding take_path
take_path-number_of path all h k =
    let (r, e, c) = take_labels-Chosen path all h in
    (
      r.0,
      rw (e, take_path),
      c.picks,
      no_rest (number_of r.0 all) (product all) r.1 path c.adds_up k,
    )
  where
    no_rest : (n p q path : ℕ) → n + p * q ≡ path → path < p → n ≡ path
    no_rest n p zero path e h = omega arith
    no_rest n p (suc q) path e h = absurd (grind arith)

number_of-lt :
    (chosen : List Bytes) (all : List (List Bytes))
    → AreAxes all
    → Picks chosen all
    → number_of chosen all < product all
unfolding number_of
number_of-lt [] [] h p = omega arith
number_of-lt [] (xs ∷ rest) h p = absurd p
number_of-lt (l ∷ chosen) [] h p = absurd p
number_of-lt (l ∷ chosen) (xs ∷ rest) h p =
    digit_small _ (product rest) (length xs) _ (get_elem?-some xs _ p.0)
      (number_of-lt chosen rest h.1 p.1)

lower_digit : (i j c d p : ℕ) → i < j → c < p → i * p + c < j * p + d
lower_digit i j c d p h k = grind arith

same_digit : (i j c d p : ℕ) → c < p → d < p → i * p + c ≡ j * p + d → i ≡ j
same_digit i j c d p h k e = elim (dec_lt i j) [
  | yes l ↦ absurd (omega (arith, lower_digit i j c d p l h))
  | no n ↦ elim (dec_lt j i) [
    | yes l ↦ absurd (omega (arith, lower_digit j i d c p l k))
    | no m ↦ omega arith
  ]
]

number_of_inj :
    (xs ys : List Bytes) (all : List (List Bytes))
    → AreAxes all
    → Picks xs all
    → Picks ys all
    → number_of xs all ≡ number_of ys all
    → xs ≡ ys
unfolding number_of
number_of_inj [] [] all h p q e = refl
number_of_inj [] (y ∷ ys) [] h p q e = absurd q
number_of_inj [] (y ∷ ys) (axis ∷ rest) h p q e = absurd p
number_of_inj (x ∷ xs) ys [] h p q e = absurd p
number_of_inj (x ∷ xs) [] (axis ∷ rest) h p q e = absurd q
number_of_inj (x ∷ xs) (y ∷ ys) (axis ∷ rest) h p q e =
    let i =
      same_digit (index_of x axis) (index_of y axis) _ _ (product rest)
        (number_of-lt xs rest h.1 p.1) (number_of-lt ys rest h.1 q.1) e in
    let heads : x ≡ y = some-injective x y (sym p.0 ∙ (ap (get_elem? axis) i ∙ q.0)) in
    let digits : index_of x axis * product rest ≡ index_of y axis * product rest =
      ap (λ (t : ℕ). t * product rest) i in
    let tails = number_of_inj xs ys rest h.1 p.1 q.1 (omega arith) in rw (heads, tails)

-- Every choice of one label from each list is that of its number, which is below the product.
pub take_path_onto :
    (chosen : List Bytes) (all : List (List Bytes))
    → AreAxes all
    → Picks chosen all
    → (number_of chosen all < product all) × (take_path (number_of chosen all) all ≡ some chosen)
take_path_onto chosen all h p =
    let below = number_of-lt chosen all h p in
    let (found, e, q, n) = take_path-number_of (number_of chosen all) all h below in
    (below, e ∙ ap some (number_of_inj found chosen all h q p n))

length-map : (axis : Axis) → length (labels_of axis) ≡ length axis
length-map [] = refl
length-map (e ∷ axis) = ap suc (length-map axis)

-- The total that goes with the lists of labels is the number of choices from them.
pub product-build_all_paths :
    (axes : List Axis) → product (build_all_paths axes).0 ≡ (build_all_paths axes).1
unfolding build_all_paths
product-build_all_paths [] = refl
product-build_all_paths ([] ∷ axes) = product-build_all_paths axes
product-build_all_paths ((e ∷ axis) ∷ axes) = rw (product-build_all_paths axes, length-map axis)

-- Two labels that differ.
pub pair-IsDistinct : (a b : Bytes) → equal a b ≡ false → IsDistinct (a ∷ b ∷ [])
unfolding index_of
pair-IsDistinct a b h zero l e =
    let e' : a ≡ l = some-injective a l e in rw ((equal_iff a l).1 e') refl
pair-IsDistinct a b h (suc zero) l e =
    let e' : b ≡ l = some-injective b l e in rw (← e', h, (equal_iff b b).1 refl) refl
pair-IsDistinct a b h (suc (suc i)) l e = absurd (cc)
