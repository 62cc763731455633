-- ===== src/Lua/Progress/Quotes.antt =====
-- The pass over a string of a script: from its quote to behind the next such quote that is not escaped.
use sinq.Prelude.{
  ap, ◌∙◌, ==_iff, ℕ, zero, suc, ◌<◌, ◌≡◌, ◌≢◌, ◌⊎◌, inl, inr, Bool, true, false, some, Bytes,
  arith, Option-cases, Bool-cases, ◌==◌,
}
use sinq.Result.{Ends, done, failed, Ends-map, Ends-if}
use sinq.Scanner.{Scanner, newline, read, advance, left}
use sinq.Scanner.Position.{Ahead, advance-Ahead, Ahead-trans, Ahead-left}
use sinq.Lua.{string_loop, parse_lua_simple_string}

-- From behind the quote to behind the next one: a byte behind a backslash counts for nothing, and no line
-- ends but behind one.
pub data InString (q : ℕ) : Scanner → Scanner → Type 0 where
  closing : {s : Scanner} → read s ≡ some q → InString q s (advance s)
  inside :
      {s t : Scanner} {b : ℕ}
      → read s ≡ some b
      → b ≢ q
      → b ≢ 92
      → b ≢ newline
      → InString q (advance s) t
      → InString q s t
  escape :
      {s t : Scanner} {b : ℕ}
      → read s ≡ some 92
      → read (advance s) ≡ some b
      → InString q (advance (advance s)) t
      → InString q s t

pub InString-Ahead : {q : ℕ} {s t : Scanner} → InString q s t → Ahead 1 s t
InString-Ahead (closing r) = advance-Ahead _ r
InString-Ahead (inside r n m l x) =
    Ahead-trans 1 (advance-Ahead _ r) (InString-Ahead x) (omega arith)
InString-Ahead (escape r c x) =
    Ahead-trans 1 (Ahead-trans 1 (advance-Ahead _ r) (advance-Ahead _ c) (omega arith))
      (InString-Ahead x) (omega arith)

-- The same from a state of the loop, which may stand behind a backslash.
Rest : ℕ → Bool → Scanner → Scanner → Type 0
Rest q false s t = InString q s t
Rest q true s t = (b : ℕ) × (read s ≡ some b) × InString q (advance s) t

ne : (a b : ℕ) → (a == b) ≡ false → a ≢ b
ne a b h = ground arith

module _ (script : Bytes) (q line offset : ℕ) (q-ne-backslash : q ≢ 92) where
  string_loop-Rest :
      (f : ℕ) (escaped : Bool) (s : Scanner)
      → left s < f
      → Ends (Rest q escaped s) (string_loop script q line offset f escaped s)
  unfolding string_loop Rest
  string_loop-Rest zero escaped s h = absurd (omega arith)
  string_loop-Rest (suc f) true s h = elim (Option-cases (read s)) [
    | inl e ↦ rw (e, string_loop) failed
    | inr (b, e) ↦
        let a = advance-Ahead s e in
        rw (e, string_loop)
          (Ends-if _ failed (
            Ends-map _ (string_loop-Rest f false (advance s) (omega (arith, Ahead-left a)))
              λ t x. (b, e, x)))
  ]
  string_loop-Rest (suc f) false s h = elim (Option-cases (read s)) [
    | inl e ↦ rw (e, string_loop) failed
    | inr (b, e) ↦
        let step : left (advance s) < f = omega (arith, Ahead-left (advance-Ahead s e)) in
        elim (Bool-cases (b == q)) [
          | inl y ↦
              rw (e, string_loop, y)
                (Ends-if _ failed (done (closing (e ∙ ap some ((==_iff b q).0 y)))))
          | inr n ↦ elim (Bool-cases (b == 92)) [
            | inl z ↦
                rw (e, string_loop, n, z)
                  (Ends-if _ failed (
                    Ends-map _ (string_loop-Rest f true (advance s) step)
                      λ t (c, r, x). escape (e ∙ ap some ((==_iff b 92).0 z)) r x))
            | inr z ↦ elim (Bool-cases (b == newline)) [
              | inl w ↦ rw (e, string_loop, w) failed
              | inr w ↦
                  rw (e, string_loop, w, n, z)
                    (Ends-map _ (string_loop-Rest f false (advance s) step)
                      λ t x. inside e (ne b q n) (ne b 92 z) (ne b newline w) x)
            ]
          ]
        ]
  ]

-- The pass over a string ends with an error, or behind its closing quote.
pub parse_lua_simple_string-InString :
    (script : Bytes) (s : Scanner) {q : ℕ}
    → read s ≡ some q
    → (q ≡ b'"') ⊎ (q ≡ 39)
    → Ends (InString q (advance s)) (parse_lua_simple_string script s)
unfolding parse_lua_simple_string Rest
parse_lua_simple_string-InString script s {q} e k =
    rw (e, parse_lua_simple_string)
      (Ends-if _ failed (
        string_loop-Rest script q _ _ (λ x. ground arith) (suc (left (advance s))) false _
          (omega arith)))
