-- ===== src/Luapi/Generate/Ranges.antt =====
-- The ranges that made-up numbers and choices are drawn from.
use sinq.Prelude.{
  ℕ, ◌+◌, ◌-◌, ◌%◌, ◌^◌, ◌≤◌, ◌<◌, ◌≡◌, refl, true, false, some, List, ◌∷◌, length, get_elem?, leb,
  arith, inl, inr, Option-cases, get_elem?-none,
}
use sinq.Luapi.Generate.{
  Generator, IsGenerator, signed_leb, random_int, random_int64, fake_take_one,
}

abbrev two63 : ℕ
two63 = 9223372036854775808

abbrev two64 : ℕ
two64 = 18446744073709551616

-- A draw from the distance of two numbers, added to the lower one, is between them, also where the sum
-- wraps around.
distance-positive :
    (from to : ℕ)
    → from < two64
    → to < two64
    → (from + two63) % two64 < (to + two63) % two64
    → 0 < (to + two64 - from) % two64
distance-positive from to f t h = omega arith

above_from :
    (from to n : ℕ)
    → from < two64
    → to < two64
    → (from + two63) % two64 < (to + two63) % two64
    → n < (to + two64 - from) % two64
    → (from + two63) % two64 ≤ ((n + from) % two64 + two63) % two64
above_from from to n f t h d = omega arith

below_to :
    (from to n : ℕ)
    → from < two64
    → to < two64
    → (from + two63) % two64 < (to + two63) % two64
    → n < (to + two64 - from) % two64
    → ((n + from) % two64 + two63) % two64 < (to + two63) % two64
below_to from to n f t h d = omega arith

-- Below in the order of the signed numbers.
signed_below :
    (from to : ℕ) → signed_leb to from ≡ false → (from + two63) % two64 < (to + two63) % two64
unfolding signed_leb
signed_below from to h = ground arith

signed_leb-of : (a b : ℕ) → (a + two63) % two64 ≤ (b + two63) % two64 → signed_leb a b ≡ true
unfolding signed_leb
signed_leb-of a b h = ground arith

signed_leb-not : (a b : ℕ) → (b + two63) % two64 < (a + two63) % two64 → signed_leb a b ≡ false
unfolding signed_leb
signed_leb-not a b h = ground arith

module _ (gen : Generator) (good : IsGenerator gen) where
  -- A number drawn between two `int64`, the second of which is the greater one, is an `int64` from the
  -- first on and below the second, also where their distance is more than an `int64` holds.
  pub random_int64-Between :
      (from to : ℕ) (s : gen.State)
      → from < 2 ^ 64
      → to < 2 ^ 64
      → signed_leb to from ≡ false
      → ((random_int64 gen from to s).0 < 2 ^ 64)
        × (signed_leb from (random_int64 gen from to s).0 ≡ true)
        × (signed_leb to (random_int64 gen from to s).0 ≡ false)
  unfolding random_int64
  random_int64-Between from to s f t h =
      let o = signed_below from to h in
      let d = good.in_range ((to + two64 - from) % two64) s (distance-positive from to f t o) in
      rw h (
        omega arith,
        signed_leb-of from _ (above_from from to _ f t o d),
        signed_leb-not to _ (below_to from to _ f t o d),
      )

  pub random_int-Between :
      (from to : ℕ) (s : gen.State)
      → from < to
      → (from ≤ (random_int gen from to s).0) × ((random_int gen from to s).0 < to)
  unfolding random_int
  random_int-Between from to s h =
      let d = good.in_range (to - from) s (omega arith) in
      rw (above from to h) (omega arith, omega arith)
    where
      above : (a b : ℕ) → a < b → leb b a ≡ false
      above a b l = ground arith

  -- From two elements or more one is taken, and never the last.
  pub fake_take_one-NotLast :
      {A : Type 0} (x y : A) (elems : List A) (s : gen.State)
      → (i : ℕ) × (a : A) × (s' : gen.State) × (fake_take_one gen (x ∷ y ∷ elems) s
          ≡ some (some a, s'))
        × (get_elem? (x ∷ y ∷ elems) i ≡ some a)
        × (i + 1 < length (x ∷ y ∷ elems))
  unfolding fake_take_one
  fake_take_one-NotLast x y elems s =
      let n = length (x ∷ y ∷ elems) in
      let r = random_int gen 1 n s in
      let b = random_int-Between 1 n s (omega arith) in
      elim (Option-cases (get_elem? (x ∷ y ∷ elems) (r.0 - 1))) [
        | inl e ↦ absurd (omega (arith, b, get_elem?-none (x ∷ y ∷ elems) (r.0 - 1) e))
        | inr (a, e) ↦ (r.0 - 1, a, r.1, rw e refl, e, omega (arith, b))
      ]
