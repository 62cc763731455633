-- ===== src/Lexer/Progress/Text.antt =====
-- The loop of `parseText` ends, behind at least one byte.
use sinq.Prelude.{
  ℕ, zero, suc, ◌+◌, ◌≤◌, ◌<◌, ◌≡◌, ◌≢◌, refl, ap, Bool, true, false, inl, inr, Option, none, some,
  length, arith, Bool-cases, ◌==◌, leb,
}
use sinq.Result.{Result, Ends, done, failed, Ends-bind}
use sinq.Scanner.{Scanner, read, advance, left}
use sinq.Scanner.Position.{Ahead, advance-Ahead, Ahead-refl, Ahead-trans, Ahead-left}
use sinq.Token.{TokenType, incomplete_token, text, script, delimiter, eof, Token}
use sinq.Lexer.{
  Parser, text_token, TextByte, text_eof, escaped, backslash, dollar, hash, plain, text_byte,
  join_delimiter, after_delimiter, text_round, text_loop, parse_text,
}
use sinq.Lexer.Progress.{Within, Ahead-weaken, left_step, parse_delimiter-Ahead, Taken}

-- What a byte's kind says of the byte.
text_byte-hash : (e : Bool) (o : Option ℕ) → text_byte e o ≡ hash → o ≡ some b'#'
unfolding text_byte
text_byte-hash e o h = ground arith

text_byte-some : (e : Bool) (o : Option ℕ) → text_byte e o ≢ text_eof → (b : ℕ) × (o ≡ some b)
unfolding text_byte
text_byte-some e none h = absurd (h refl)
text_byte-some e (some b) h = (b, refl)

-- Either a byte of the text has been taken, or the next one is not where a text ends.
abbrev Begun : Scanner → Parser → TextByte → Type 0
Begun from p text_eof = Ahead 1 from p.scanner
Begun from p dollar = Ahead 1 from p.scanner
Begun from p _ = Unit

module _ (f : ℕ) (from : Scanner) (again : Bool → Bool → Parser → Result (Token × Parser))
    (ih : (e h : Bool) (q : Parser)
      → left q.scanner < f
      → Ahead 1 from q.scanner
      → Ends (Taken from) (again e h q)) where
  ends_text :
      (end : ℕ) (has_escapes : Bool) (p : Parser)
      → Ahead 1 from p.scanner
      → from.current < end
      → end ≤ p.current
      → Taken from (text_token from end has_escapes, p)
  ends_text end has_escapes p a h k = record {
    ahead = a;
    fits = (refl, refl, h, omega (arith, ap length a.same, a.within));
  }

  join_delimiter-Taken :
      (at : Scanner) (has_escapes : Bool) (p : Parser) (r : Token × Scanner) (k : TokenType)
      → r.0.type ≡ k
      → left r.1 < f
      → Ahead 1 from r.1
      → at.current ≤ r.1.current
      → Ends (Taken from) (join_delimiter (λ e. again e has_escapes) from at has_escapes p r k)
  unfolding join_delimiter
  join_delimiter-Taken at has_escapes p (maybe, s) delimiter e h a l =
      elim (Bool-cases (leb at.current (from.current + 1))) [
        | inl y ↦ rw y (done (record { ahead = a; fits = rw e tt }))
        | inr n ↦ rw n (done (ends_text _ _ _ a (ground arith) (omega arith)))
      ]
  join_delimiter-Taken at has_escapes p (maybe, s) incomplete_token e h a l = ih _ _ _ h a
  join_delimiter-Taken at has_escapes p (maybe, s) text e h a l = ih _ _ _ h a
  join_delimiter-Taken at has_escapes p (maybe, s) script e h a l = ih _ _ _ h a
  join_delimiter-Taken at has_escapes p (maybe, s) eof e h a l = ih _ _ _ h a

  advanced :
      (p : Parser) {b : ℕ}
      → read p.scanner ≡ some b
      → Ahead 0 from p.scanner
      → Ahead 1 from (advance p.scanner)
  advanced p e a = Ahead-trans 1 a (advance-Ahead p.scanner e) (omega arith)

  text_round-Taken :
      (is_escaped has_escapes : Bool) (p : Parser) (k : TextByte)
      → text_byte is_escaped (read p.scanner) ≡ k
      → left p.scanner < suc f
      → Ahead 0 from p.scanner
      → Begun from p k
      → Ends (Taken from) (text_round again from is_escaped has_escapes p k)
  unfolding text_round after_delimiter
  text_round-Taken true has_escapes p text_eof e h a g = failed
  text_round-Taken false has_escapes p text_eof e h a g =
      done (ends_text _ _ _ g (omega (arith, g.moved)) (omega arith))
  text_round-Taken is_escaped has_escapes p dollar e h a g =
      done (ends_text _ _ _ g (omega (arith, g.moved)) (omega arith))
  text_round-Taken is_escaped has_escapes p hash e h a g =
      Ends-bind _ _ (parse_delimiter-Ahead p.scanner (text_byte-hash is_escaped _ e)) λ r b.
        join_delimiter-Taken p.scanner has_escapes p r r.0.type refl (omega (arith, Ahead-left b))
          (Ahead-trans 1 a b (omega arith)) (omega (arith, b.moved))
  text_round-Taken is_escaped has_escapes p backslash e h a g =
      let (b, r) = text_byte-some is_escaped (read p.scanner) (λ x. cc) in
      ih _ _ _ (omega (arith, left_step p.scanner r)) (advanced p r a)
  text_round-Taken is_escaped has_escapes p escaped e h a g =
      let (b, r) = text_byte-some is_escaped (read p.scanner) (λ x. cc) in
      ih _ _ _ (omega (arith, left_step p.scanner r)) (advanced p r a)
  text_round-Taken is_escaped has_escapes p plain e h a g =
      let (b, r) = text_byte-some is_escaped (read p.scanner) (λ x. cc) in
      ih _ _ _ (omega (arith, left_step p.scanner r)) (advanced p r a)

Begun-of_ahead :
    (from : Scanner) (p : Parser) (k : TextByte) → Ahead 1 from p.scanner → Begun from p k
Begun-of_ahead from p text_eof a = a
Begun-of_ahead from p dollar a = a
Begun-of_ahead from p _ a = tt

text_loop-Taken :
    (f : ℕ) (from : Scanner) (is_escaped has_escapes : Bool) (p : Parser)
    → left p.scanner < f
    → Ahead 0 from p.scanner
    → Begun from p (text_byte is_escaped (read p.scanner))
    → Ends (Taken from) (text_loop f from is_escaped has_escapes p)
unfolding text_loop
text_loop-Taken zero from is_escaped has_escapes p h a g = absurd (omega arith)
text_loop-Taken (suc f) from is_escaped has_escapes p h a g =
    text_round-Taken f from _
      (λ e x q l b.
        text_loop-Taken f from e x q l (Ahead-weaken b)
          (Begun-of_ahead from q (text_byte e (read q.scanner)) b))
      is_escaped has_escapes p _ refl h a g

pub parse_text-Taken :
    (p : Parser) {b : ℕ}
    → read p.scanner ≡ some b
    → (b == b'$') ≡ false
    → Within p.scanner
    → Ends (Taken p.scanner) (parse_text p)
unfolding parse_text text_byte
parse_text-Taken p {b} e n v =
    text_loop-Taken (suc (left p.scanner)) p.scanner false false p (omega arith) (Ahead-refl _ v)
      begun
  where
    begun : Begun p.scanner p (text_byte false (read p.scanner))
    begun =
        rw (e, n)
          (elim (Bool-cases (b == 92)) [
            | inl y ↦ rw y tt
            | inr n₁ ↦ elim (Bool-cases (b == b'#')) [
              | inl y ↦ rw (n₁, y) tt
              | inr n₂ ↦ rw (n₁, n₂) tt
            ]
          ])
