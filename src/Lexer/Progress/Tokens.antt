-- ===== src/Lexer/Progress/Tokens.antt =====
-- Every token takes a byte of the source, or the delimiter that waits.
use sinq.Prelude.{
  ℕ, ◌+◌, ◌*◌, ◌≤◌, ◌<◌, ◌≡◌, ◌≢◌, refl, inl, inr, Option, none, some, length, arith, Bool-cases,
  ◌==◌,
}
use sinq.Result.{Result, Ends, done, Ends-map}
use sinq.Scanner.{read, left}
use sinq.Scanner.Position.{Ahead, Ahead-refl, Ahead-left}
use sinq.Token.{TokenType, incomplete_token, text, script, delimiter, eof, Token}
use sinq.Lexer.{Parser, eof_token, lex_byte, lex_waiting, lex_token}
use sinq.Lexer.Progress.{Within, Ahead-weaken, Fits, Taken}
use sinq.Lexer.Progress.Text.{parse_text-Taken}
use sinq.Lexer.Progress.Script.{parse_script-Taken}

-- How much the lexer has yet to give: two for each byte left, and one for a delimiter that waits.
abbrev pub waits : TokenType → ℕ
waits delimiter = 1
waits _ = 0

unfoldable pub todo : Parser → ℕ
todo p = 2 * left p.scanner + waits p.delimiter_token.type

-- A token that fits, and a parser in the same source with less to do, unless the file has ended.
pub record Lexed (p : Parser) (r : Token × Parser) : Type 0 where
  pub ahead : Ahead 0 p.scanner r.1.scanner
  pub fits : Fits p.source r.0
  pub less : r.0.type ≢ eof → todo r.1 < todo p

waits_le : (k : TokenType) → waits k ≤ 1
waits_le delimiter = omega arith
waits_le incomplete_token = omega arith
waits_le text = omega arith
waits_le script = omega arith
waits_le eof = omega arith

Taken-Lexed :
    (p : Parser) (m : Result (Token × Parser)) → Ends (Taken p.scanner) m → Ends (Lexed p) m
unfolding todo
Taken-Lexed p m h = Ends-map _ h λ r t. record {
  ahead = Ahead-weaken t.ahead;
  fits = t.fits;
  less = λ _. omega (arith, Ahead-left t.ahead, waits_le r.1.delimiter_token.type);
}

lex_byte-Lexed :
    (p : Parser) (o : Option ℕ)
    → read p.scanner ≡ o
    → Within p.scanner
    → Ends (Lexed p) (lex_byte p o)
unfolding lex_byte eof_token
lex_byte-Lexed p none e v =
    done (record { ahead = Ahead-refl _ v; fits = tt; less = λ n. absurd (n refl) })
lex_byte-Lexed p (some b) e v = elim (Bool-cases (b == b'$')) [
  | inl y ↦ rw y (Taken-Lexed p _ (parse_script-Taken p))
  | inr n ↦ rw n (Taken-Lexed p _ (parse_text-Taken p e n v))
]

lex_waiting-Lexed :
    (p : Parser) (k : TokenType)
    → p.delimiter_token.type ≡ k
    → Within p.scanner
    → Ends (Lexed p) (lex_waiting p k)
unfolding lex_waiting todo
lex_waiting-Lexed p delimiter e v =
    done (record { ahead = Ahead-refl _ v; fits = rw e tt; less = λ _. rw e (omega arith) })
lex_waiting-Lexed p incomplete_token e v = lex_byte-Lexed p _ refl v
lex_waiting-Lexed p text e v = lex_byte-Lexed p _ refl v
lex_waiting-Lexed p script e v = lex_byte-Lexed p _ refl v
lex_waiting-Lexed p eof e v = lex_byte-Lexed p _ refl v

-- From a parser within its source the lexer ends: with an error, or with a token that fits the
-- source, the parser further on with less to do (or at the end of the file).
pub lex_token-Lexed : (p : Parser) → p.current ≤ length p.source → Ends (Lexed p) (lex_token p)
unfolding lex_token
lex_token-Lexed p v = lex_waiting-Lexed p p.delimiter_token.type refl v
