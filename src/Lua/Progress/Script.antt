-- ===== src/Lua/Progress/Script.antt =====
-- The pass over a whole script ends at the brace that closes it.
use sinq.Prelude.{
  ℕ, zero, suc, ◌≤◌, ◌<◌, ◌≡◌, ◌≢◌, ◌⊎◌, inl, inr, refl, subst, Option, none, some, Bytes, length,
  arith,
}
use sinq.Result.{Result, ok, ◌>>=◌, Ends, done, failed, Ends-bind, Ends-map}
use sinq.Scanner.{Scanner, read, advance, left}
use sinq.Scanner.Position.{Ahead, advance-Ahead, Ahead-refl, Ahead-trans, Ahead-left}
use sinq.Lua.{
  parse_lua_simple_string, LuaByte, end_of_file, dash, quote_mark, square, brace_open, brace_close,
  lua_byte, script_round, match_byte, equals, other, parse_lua_script,
}
use sinq.Lua.Progress.Quotes.{InString, InString-Ahead, parse_lua_simple_string-InString}
use sinq.Lua.Progress.{
  Within, match_byte-Matched, bracket_code-Ahead, bracketed-Ahead, lua_byte-dash,
  parse_lua_comment-Ahead,
}

-- The bytes that a script can nest, quote or comment with start with none of these.
pub record IsPlain (b : ℕ) : Type 0 where
  pub no_dash : b ≢ b'-'
  pub no_double_quote : b ≢ b'"'
  pub no_quote : b ≢ 39
  pub no_square : b ≢ b'['
  pub no_open : b ≢ b'{'
  pub no_close : b ≢ b'}'

-- The first byte of a comment or a long bracket.
abbrev pub IsOpener : ℕ → Type 0
IsOpener b = (b ≡ b'-') ⊎ (b ≡ b'[')

-- Each opening brace from the one place to the other has its own closing brace there, and the other
-- way around, but for those in strings, comments and long brackets: the last two are skipped from their
-- first byte to some place further on.
pub data Balanced : Scanner → Scanner → Type 0 where
  nothing : {s : Scanner} → Balanced s s
  plain :
      {s t : Scanner} {b : ℕ} → read s ≡ some b → IsPlain b → Balanced (advance s) t → Balanced s t
  quoted :
      {s u t : Scanner} {q : ℕ}
      → read s ≡ some q
      → (q ≡ b'"') ⊎ (q ≡ 39)
      → InString q (advance s) u
      → Balanced u t
      → Balanced s t
  skipped :
      {s u t : Scanner} {b : ℕ}
      → read s ≡ some b
      → IsOpener b
      → Ahead 1 s u
      → Balanced u t
      → Balanced s t
  nested :
      {s u t : Scanner}
      → read s ≡ some b'{'
      → Balanced (advance s) u
      → read u ≡ some b'}'
      → Balanced (advance u) t
      → Balanced s t

-- What a pass over a script ends with: further on, at the brace that closes it.
pub record AtBrace (s t : Scanner) : Type 0 where
  pub ahead : Ahead 0 s t
  pub braces : Balanced s t
  pub closes : read t ≡ some b'}'

-- A pass that took at least one byte, with which the braces stay balanced.
record Passed (s t : Scanner) : Type 0 where
  ahead : Ahead 1 s t
  before : {u : Scanner} → Balanced t u → Balanced s u

AtBrace-later : {s t u : Scanner} → Passed s t → AtBrace t u → AtBrace s u
AtBrace-later a b = record {
  ahead = Ahead-trans 0 a.ahead b.ahead (omega arith);
  braces = a.before b.braces;
  closes = b.closes;
}

lua_byte-brace_close : (o : Option ℕ) → lua_byte o ≡ brace_close → o ≡ some b'}'
unfolding lua_byte
lua_byte-brace_close o h = ground arith

lua_byte-brace_open : (o : Option ℕ) → lua_byte o ≡ brace_open → o ≡ some b'{'
unfolding lua_byte
lua_byte-brace_open o h = ground arith

lua_byte-IsOpener :
    (b : ℕ) (k : LuaByte) → lua_byte (some b) ≡ k → (k ≡ dash) ⊎ (k ≡ square) → IsOpener b
unfolding lua_byte
lua_byte-IsOpener b k e h = ground arith

lua_byte-quote_mark : (b : ℕ) → lua_byte (some b) ≡ quote_mark → (b ≡ b'"') ⊎ (b ≡ 39)
unfolding lua_byte
lua_byte-quote_mark b h = ground arith

lua_byte-IsPlain :
    (b : ℕ) (k : LuaByte) → lua_byte (some b) ≡ k → (k ≡ equals) ⊎ (k ≡ other) → IsPlain b
unfolding lua_byte
lua_byte-IsPlain b k e h = record {
  no_dash = ground arith;
  no_double_quote = ground arith;
  no_quote = ground arith;
  no_square = ground arith;
  no_open = ground arith;
  no_close = ground arith;
}

lua_byte-some : (o : Option ℕ) → lua_byte o ≢ end_of_file → (b : ℕ) × (o ≡ some b)
unfolding lua_byte
lua_byte-some none h = absurd (h refl)
lua_byte-some (some b) h = (b, refl)

-- A comment or a long bracket is passed.
skipped-Passed :
    (s : Scanner) (k : LuaByte) {m : Result Scanner}
    → lua_byte (read s) ≡ k
    → (k ≡ dash) ⊎ (k ≡ square)
    → Ends (Ahead 1 s) m
    → Ends (Passed s) m
skipped-Passed s k e kinds pass =
    let (b, r) = lua_byte-some (read s) (λ x. ground arith) in
    Ends-map _ pass
      λ t a. record { ahead = a; before = skipped r (lua_byte-IsOpener b k (rw (← r) e) kinds) a }

quoted-Passed :
    (script : Bytes) (s : Scanner)
    → lua_byte (read s) ≡ quote_mark
    → Ends (Passed s) (parse_lua_simple_string script s)
quoted-Passed script s e =
    let (b, r) = lua_byte-some (read s) (λ x. ground arith) in
    let kind = lua_byte-quote_mark b (rw (← r) e) in
    Ends-map _ (parse_lua_simple_string-InString script s r kind) λ t x. record {
      ahead = Ahead-trans 1 (advance-Ahead s r) (InString-Ahead x) (omega arith);
      before = quoted r kind x;
    }

plain-Passed :
    (s : Scanner) (k : LuaByte)
    → lua_byte (read s) ≡ k
    → (k ≡ equals) ⊎ (k ≡ other)
    → Passed s (advance s)
plain-Passed s k e kinds =
    let (b, r) = lua_byte-some (read s) (λ x. ground arith) in
    record { ahead = advance-Ahead s r; before = plain r (lua_byte-IsPlain b k (rw (← r) e) kinds) }

module _ (script : Bytes) (f : ℕ) (again : Scanner → Result Scanner)
    (ih : (t : Scanner) → left t < f → Within t → Ends (AtBrace t) (again t)) where
  -- What follows a pass.
  after_pass :
      (s : Scanner) {m : Result Scanner}
      → left s < suc f
      → Ends (Passed s) m
      → Ends (AtBrace s) (m >>= again)
  after_pass s h pass = Ends-bind _ again pass λ t a.
      Ends-map _ (ih t (omega (arith, Ahead-left a.ahead)) a.ahead.within) λ u b. AtBrace-later a b

  -- A nested script, with the braces around it.
  nested-Passed :
      (s : Scanner)
      → read s ≡ some b'{'
      → left s < suc f
      → Ends (Passed s) (again (advance s) >>= match_byte script b'}')
  nested-Passed s r h =
      let step = advance-Ahead s r in
      Ends-bind _ _ (ih (advance s) (omega (arith, Ahead-left step)) step.within) λ t a.
        Ends-map _ (match_byte-Matched script b'}' t) λ u c. record {
          ahead = Ahead-trans 1 (Ahead-trans 1 step a.ahead (omega arith)) c.ahead (omega arith);
          before = λ {u = w} x. nested r a.braces a.closes (subst (λ v. Balanced v w) c.next x);
        }

  script_round-AtBrace :
      (s : Scanner) (k : LuaByte)
      → left s < suc f
      → Within s
      → lua_byte (read s) ≡ k
      → Ends (AtBrace s) (script_round script again s k)
  unfolding script_round
  script_round-AtBrace s end_of_file h v e = failed
  script_round-AtBrace s dash h v e = after_pass s h (
      skipped-Passed s _ e (inl refl)
        (parse_lua_comment-Ahead script s v (lua_byte-dash script _ e)))
  script_round-AtBrace s quote_mark h v e = after_pass s h (quoted-Passed script s e)
  script_round-AtBrace s square h v e =
      after_pass s h
        (skipped-Passed s _ e (inr refl) (bracketed-Ahead script s _ (bracket_code-Ahead script)))
  script_round-AtBrace s brace_open h v e =
      after_pass s h (nested-Passed s (lua_byte-brace_open _ e) h)
  script_round-AtBrace s brace_close h v e =
      done (record { ahead = Ahead-refl s v; braces = nothing; closes = lua_byte-brace_close _ e })
  script_round-AtBrace s equals h v e =
      after_pass s {m = ok (advance s)} h (done (plain-Passed s _ e (inl refl)))
  script_round-AtBrace s other h v e =
      after_pass s {m = ok (advance s)} h (done (plain-Passed s _ e (inr refl)))

-- With more fuel than bytes left, the pass over a script that starts within the source ends, and a
-- success stands at the brace that closes the script, further on in the source: a closing brace with
-- only balanced braces before it, where those in a string, which ends behind its next quote that is not
-- escaped, do not count. Comments and long brackets are skipped as pieces of one byte or more.
pub parse_lua_script-AtBrace :
    (script : Bytes) (f : ℕ) (s : Scanner)
    → left s < f
    → s.current ≤ length s.source
    → Ends (AtBrace s) (parse_lua_script script f s)
unfolding parse_lua_script
parse_lua_script-AtBrace script zero s h v = absurd (omega arith)
parse_lua_script-AtBrace script (suc f) s h v =
    script_round-AtBrace script f _ (parse_lua_script-AtBrace script f) s _ h v refl
