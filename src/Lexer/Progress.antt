-- ===== src/Lexer/Progress.antt =====
-- The lexer ends on every input, and each token but the last takes a byte or the waiting delimiter.
pub mod Text
pub mod Script
pub mod Tokens
use sinq.Prelude.{
  ℕ, zero, suc, ◌+◌, ◌-◌, ◌*◌, ◌≤◌, ◌<◌, ◌≡◌, ◌≢◌, refl, ap, ◌∙◌, [], Bool, true, false, inl, inr,
  Option, none, some, Bytes, length, get_elem?, arith, Option-cases, Bool-cases, ◌==◌, leb,
  if◌then◌else◌,
}
use sinq.Result.{Result, Ends, done, failed, Ends-bind, Ends-map, Ends-if}
use sinq.Scanner.{Scanner, read, advance, left, previous}
use sinq.Scanner.Position.{Ahead, advance-Ahead, Ahead-refl, Ahead-trans, Ahead-left}
use sinq.Lua.Progress.{match_byte-Ahead, match_byte-Matched}
use sinq.Token.{pos, TokenType, incomplete_token, text, script, delimiter, eof, Token}
use sinq.Lexer.{
  Parser, whitespace_loop, consume_whitespace, hashes, note_payload, delimiter_loop, after_hashes,
  parse_delimiter, text_token, TextByte, text_eof, escaped, backslash, dollar, hash, plain,
  text_byte, join_delimiter, after_delimiter, text_round, text_loop, parse_text, name_loop,
  parse_script_name, script_name, script_body, parse_script, eof_token, lex_byte, lex_waiting,
  lex_token,
}
use sinq.Lua.Progress.Script.{parse_lua_script-AtBrace}
use sinq.Spaces.{is_space}

abbrev Within : Scanner → Type 0
Within s = s.current ≤ length s.source

-- One more byte, and then what follows.
step_on :
    (s : Scanner) {b : ℕ} {t : Scanner} → read s ≡ some b → Ahead 0 (advance s) t → Ahead 1 s t
step_on s e a = Ahead-trans 1 (advance-Ahead s e) a (omega arith)

Ahead-weaken : {n : ℕ} {s t : Scanner} → Ahead n s t → Ahead 0 s t
Ahead-weaken a = Ahead-trans 0 a (Ahead-refl _ a.within) (omega arith)

left_step : (s : Scanner) {b : ℕ} → read s ≡ some b → left (advance s) + 1 ≤ left s
left_step s e = Ahead-left (advance-Ahead s e)

whitespace_loop-Ahead :
    (f : ℕ) (s : Scanner) → left s < f → Within s → Ends (Ahead 0 s) (whitespace_loop f s)
unfolding whitespace_loop
whitespace_loop-Ahead zero s h v = absurd (omega arith)
whitespace_loop-Ahead (suc f) s h v = elim (Option-cases (read s)) [
  | inl e ↦ rw (e, whitespace_loop) (done (Ahead-refl s v))
  | inr (b, e) ↦
      rw (e, whitespace_loop)
        (Ends-if _ (done (Ahead-refl s v)) (
          Ends-map _
            (whitespace_loop-Ahead f (advance s) (omega (arith, left_step s e))
              (advance-Ahead s e).within)
            (λ t a. Ahead-weaken (step_on s e a))))
]

pub consume_whitespace-Ahead :
    (s : Scanner) → s.current ≤ length s.source → Ends (Ahead 0 s) (consume_whitespace s)
unfolding consume_whitespace
consume_whitespace-Ahead s v = whitespace_loop-Ahead (suc (left s)) s (omega arith) v

hashes-Ahead : (n : ℕ) (s : Scanner) → Within s → Ahead 0 s (hashes n s).1
unfolding hashes
hashes-Ahead zero s v = Ahead-refl s v
hashes-Ahead (suc n) s v = elim (Option-cases (read s)) [
  | inl e ↦ rw (e, hashes) (Ahead-refl s v)
  | inr (b, e) ↦
      let step = advance-Ahead s e in
      let rest = Ahead-weaken (step_on s e (hashes-Ahead n (advance s) step.within)) in
      elim (Bool-cases (b == b'#')) [
        | inl y ↦ rw (e, hashes, y) rest
        | inr n ↦ rw (e, hashes, n) (Ahead-refl s v)
      ]
]

delimiter_loop-Ahead :
    (f : ℕ) (t : Token) (s : Scanner)
    → left s < f
    → Within s
    → Ends (λ r. Ahead 0 s r.1) (delimiter_loop f t s)
unfolding delimiter_loop
delimiter_loop-Ahead zero t s h v = absurd (omega arith)
delimiter_loop-Ahead (suc f) t s h v = elim (Option-cases (read s)) [
  | inl e ↦ rw (e, delimiter_loop) (done (Ahead-refl s v))
  | inr (b, e) ↦
      rw (e, delimiter_loop)
        (Ends-if _ (done (Ahead-refl s v)) (
          Ends-map _
            (delimiter_loop-Ahead f (if is_space b then t else note_payload t b s.current)
              (advance s) (omega (arith, left_step s e)) (advance-Ahead s e).within)
            (λ r a. Ahead-weaken (step_on s e a))))
]

after_hashes-Ahead :
    (t : Token) (prev : ℕ) (r : Bool × Scanner)
    → Within r.1
    → Ends (λ u. Ahead 0 r.1 u.1) (after_hashes t prev r)
unfolding after_hashes
after_hashes-Ahead t prev (false, s) v = done (Ahead-refl s v)
after_hashes-Ahead t prev (true, s) v =
    Ends-if _ (done (Ahead-refl s v)) (delimiter_loop-Ahead (suc (left s)) t s (omega arith) v)

parse_delimiter-Ahead :
    (s : Scanner) → read s ≡ some b'#' → Ends (λ r. Ahead 1 s r.1) (parse_delimiter s)
unfolding parse_delimiter hashes
parse_delimiter-Ahead s e =
    rw (e, parse_delimiter, hashes)
      (Ends-map _ (after_hashes-Ahead _ (previous s) (hashes 2 (advance s)) two.within)
        (λ r a. Ahead-trans 1 (step_on s e two) a (omega arith)))
  where
    two : Ahead 0 (advance s) (hashes 2 (advance s)).1
    two = hashes-Ahead 2 (advance s) (advance-Ahead s e).within

-- What the payload of a token is, by its type; no token of the lexer is incomplete.
abbrev pub FitsAs : Bytes → Token → TokenType → Type 0
FitsAs source t incomplete_token = ⊥
FitsAs source t text =
    (t.payload_start ≡ pos t.start)
    × (t.payload_end ≡ pos t.end)
    × (t.start < t.end)
    × (t.end ≤ length source)
FitsAs source t script =
    (a b : ℕ) × (t.payload_start ≡ pos a)
    × (t.payload_end ≡ pos b)
    × (t.start < a)
    × (a ≤ b)
    × (t.end ≡ b + 1)
    × (get_elem? source b ≡ some b'}')
FitsAs source t delimiter = Unit
FitsAs source t eof = Unit

abbrev pub Fits : Bytes → Token → Type 0
Fits source t = FitsAs source t t.type

-- A token that fits, behind which the parser has taken at least a byte.
pub record Taken (s : Scanner) (r : Token × Parser) : Type 0 where
  pub ahead : Ahead 1 s r.1.scanner
  pub fits : Fits s.source r.0
