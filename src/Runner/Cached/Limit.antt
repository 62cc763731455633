-- ===== src/Runner/Cached/Limit.antt =====
-- The part of an answer that is kept.
use sinq.Prelude.{
  ℕ, zero, suc, ◌+◌, ◌-◌, ◌≤◌, ◌<◌, ◌≡◌, refl, ap, true, false, none, [], ◌∷◌, Bytes, length, take,
  ltb, arith,
}
use native.Mathlib.Decide.{dec_lt}
use sinq.Runner.Outcome.{Response, Limits}
use sinq.Runner.Request.{bounded}
use sinq.Runner.Cached.{Answer, Incoming, passes, limit_bits, limited, fresh, make_intermediate}

take_over : (n : ℕ) (bs : Bytes) → n < length bs → length (take (suc n) bs) ≡ suc n
take_over n [] h = absurd (omega arith)
take_over zero (b ∷ bs) h = refl
take_over (suc n) (b ∷ bs) h = ap (λ m. suc m) (take_over n bs (omega arith))

take_within : (n : ℕ) (bs : Bytes) → length bs ≤ n → take n bs ≡ bs
take_within zero [] h = refl
take_within (suc n) [] h = refl
take_within zero (b ∷ bs) h = absurd (omega arith)
take_within (suc n) (b ∷ bs) h = ap (λ l. b ∷ l) (take_within n bs (omega arith))

take-take : (n : ℕ) (bs : Bytes) → take n (take (suc n) bs) ≡ take n bs
take-take zero [] = refl
take-take zero (b ∷ bs) = refl
take-take (suc n) [] = refl
take-take (suc n) (b ∷ bs) = ap (λ l. b ∷ l) (take-take n bs)

length-take_le : (n : ℕ) (bs : Bytes) → length (take n bs) ≤ n
length-take_le zero bs = omega arith
length-take_le (suc n) [] = omega arith
length-take_le (suc n) (b ∷ bs) = omega (arith, length-take_le n bs)

-- What `makeIntermediate` keeps of a body, and whether it says that there was more of it.
pub record IsCut (max : ℕ) (body : Bytes) (limits : Limits) (a : Answer) : Type 0 where
  pub succeeded : a.failed ≡ none
  pub kept : a.response.body ≡ take max body
  pub said : a.response.oversized ≡ ltb max (length body)
  pub settled : bounded limits a.response ≡ a.response

ltb-below : (a b : ℕ) → a < b → ltb a b ≡ true
ltb-below a b h = ground arith

ltb-above : (a b : ℕ) → b ≤ a → ltb a b ≡ false
ltb-above a b h = ground arith

bounded_lem :
    (limits : Limits) (r : Response) → length r.body ≤ limits.max_body_size → bounded limits r ≡ r
unfolding bounded
bounded_lem limits r h = rw (ltb-above limits.max_body_size (length r.body) h) refl

limited-IsCut :
    (max : ℕ) (body : Bytes) (limits : Limits) (r : Response)
    → limits.max_body_size ≡ max
    → IsCut max body limits (limited max (fresh r) (take (suc max) body, none))
unfolding limited fresh
limited-IsCut max body limits r e = elim (dec_lt max (length body)) [
  | yes l ↦
      let q = take_over max body l in
      let t : ltb max (suc max) ≡ true = ltb-below max (suc max) (omega arith) in
      let d : suc max - 1 ≡ max = omega arith in
      rw (q, t, d, take-take max body)
        (record {
          succeeded = refl;
          kept = refl;
          said = rw (ltb-below max (length body) l) refl;
          settled = bounded_lem limits _ (omega (arith, length-take_le max body));
        })
  | no g ↦
      let q = take_within (suc max) body (omega arith) in
      let t : ltb max (length body) ≡ false = ltb-above max (length body) (omega arith) in
      rw (q, t)
        (record {
          succeeded = refl;
          kept = rw (take_within max body (omega arith)) refl;
          said = rw t refl;
          settled = bounded_lem limits _ (omega arith);
        })
]

passes_small : (max : ℕ) → max + 1 < 9223372036854775808 → passes (limit_bits max) ≡ suc max
unfolding passes limit_bits
passes_small max h = ground arith

-- From an answer whose body can be read to its end, with a limit below 2^63 - 1: the body is cut off at
-- the limit, the answer says just then that it is oversized when there was more, and the cut in the loop
-- of `run` with the same limit changes nothing.
pub make_intermediate-IsCut :
    (max : ℕ) (body : Bytes) (limits : Limits) (i : Incoming)
    → max + 1 < 9223372036854775808
    → limits.max_body_size ≡ max
    → ((n : ℕ) → i.read_all n ≡ (take n body, none))
    → IsCut max body limits (make_intermediate max [] i)
unfolding make_intermediate
make_intermediate-IsCut max body limits i h e reads =
    rw (passes_small max h, reads (suc max)) (limited-IsCut max body limits i.head e)
