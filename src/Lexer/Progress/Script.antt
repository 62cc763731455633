-- ===== src/Lexer/Progress/Script.antt =====
-- The passes over a script: its name, and its body up to the closing brace.
use sinq.Prelude.{
  ℕ, zero, suc, ◌+◌, ◌-◌, ◌<◌, ◌≡◌, refl, ◌∙◌, [], inl, inr, some, Bytes, get_elem?, arith,
  Option-cases,
}
use sinq.Result.{Ends, done, failed, Ends-bind, Ends-map, Ends-if}
use sinq.Scanner.{Scanner, read, advance, left}
use sinq.Scanner.Position.{Ahead, advance-Ahead, Ahead-refl, Ahead-trans}
use sinq.Lua.Progress.{match_byte-Ahead, match_byte-Matched}
use sinq.Lexer.{Parser, name_loop, parse_script_name, script_name, script_body, parse_script}
use sinq.Lexer.Progress.{Within, step_on, Ahead-weaken, left_step, Taken}
use sinq.Lua.Progress.Script.{parse_lua_script-AtBrace}

name_loop-Ahead :
    (f : ℕ) (from s : Scanner) → left s < f → Within s → Ends (Ahead 0 s) (name_loop f from s)
unfolding name_loop
name_loop-Ahead zero from s h v = absurd (omega arith)
name_loop-Ahead (suc f) from s h v = elim (Option-cases (read s)) [
  | inl e ↦ rw (e, name_loop) failed
  | inr (b, e) ↦
      rw (e, name_loop)
        (Ends-if _ failed (
          Ends-if _
            (Ends-map _
              (name_loop-Ahead f from (advance s) (omega (arith, left_step s e))
                (advance-Ahead s e).within)
              (λ t a. Ahead-weaken (step_on s e a)))
            (done (Ahead-refl s v))))
]

script_body-Taken :
    (from : Scanner) (p : Parser) (r : Bytes × ℕ) (s : Scanner)
    → Ahead 1 from s
    → Ends (Taken from) (script_body from p r s)
unfolding script_body
script_body-Taken from p (name, idx) s a = Ends-bind _ _ (match_byte-Matched name b'{' s) λ s₁ m.
    Ends-bind _ _ (parse_lua_script-AtBrace name (suc (left s₁)) s₁ (omega arith) m.ahead.within)
      λ s₂ b. Ends-bind _ _ (match_byte-Matched name b'}' s₂) λ s₃ c. done (record {
        ahead =
            Ahead-trans 1
              (Ahead-trans 1 (Ahead-trans 1 a m.ahead (omega arith)) b.ahead (omega arith)) c.ahead
              (omega arith);
        fits = (
          s₁.current,
          s₃.current - 1,
          refl,
          refl,
          omega (arith, a.moved, m.ahead.moved),
          omega (arith, b.ahead.moved, c.one),
          omega (arith, c.one),
          closing from s₂ s₃ (b.ahead.same ∙ (m.ahead.same ∙ a.same)) b.closes c.one,
        );
      })
  where
    closing :
        (from s₂ s₃ : Scanner)
        → s₂.source ≡ from.source
        → read s₂ ≡ some b'}'
        → s₃.current ≡ s₂.current + 1
        → get_elem? from.source (s₃.current - 1) ≡ some b'}'
    closing from s₂ s₃ e r one =
        let i : s₃.current - 1 ≡ s₂.current = omega arith in rw (i, ← e) (unfold read in r)

pub parse_script-Taken : (p : Parser) → Ends (Taken p.scanner) (parse_script p)
unfolding parse_script parse_script_name
parse_script-Taken p = Ends-bind _ _ (match_byte-Ahead [] b'$' p.scanner) λ s a.
    Ends-bind {P = λ r. Ahead 0 s r.1} _ _
      (Ends-bind _ _ (name_loop-Ahead (suc (left s)) s s (omega arith) a.within) λ t b. done b)
      λ r b.
        script_body-Taken p.scanner p (script_name r.0 p.unnamed_script_idx) r.1
          (Ahead-trans 1 a b (omega arith))
