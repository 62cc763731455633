-- ===== src/Lexer.antt =====
-- internal/scenario/scenario-parser.go: the tokens of a `.sinq` file. A token that the source returns
-- beside an error is left out: `ParseRequestBlueprints`, the one caller, drops it.
-- Each loop's fuel is one more than the bytes left.
pub mod Progress
use sinq.Spaces.{is_space, trim_space, decimal}
use sinq.Prelude.{
  ℕ, zero, suc, ◌+◌, ◌-◌, ◌/◌, ◌%◌, Bool, true, false, not, ◌&&◌, ◌||◌, Option, none, some, List,
  [], ◌∷◌, ◌++◌, Bytes, codes, leb, ltb, ◌==◌, if◌then◌else◌,
}
use sinq.Lua.{script_fail, match_byte, parse_lua_script}
use sinq.Result.{
  unexpected_eof, newline_in_name, eof_after_escape, Result, ok, err, out_of_fuel, ◌>>=◌,
}
use sinq.Scanner.{Scanner, newline, read, advance, previous, slice, left}
use sinq.Token.{
  ℤ, pos, negsuc, TokenType, incomplete_token, text, script, delimiter, eof, Token, zero_token,
}

-- `parser`; `currentScriptName` is an argument of the passes that report it.
pub record Parser : Type 0 where
  pub scanner : Scanner
  pub open scanner use *
  pub unnamed_script_idx : ℕ
  pub delimiter_token : Token

-- `consumeWhitespace`
whitespace_loop : ℕ → Scanner → Result Scanner
unfolding is_space
whitespace_loop zero s = out_of_fuel
whitespace_loop (suc f) s =
    let rest = whitespace_loop f (advance s) in
    elim (read s) [ none ↦ ok s | some b ↦ if not (is_space b) then ok s else rest ]

unfoldable pub consume_whitespace : Scanner → Result Scanner
unfolding whitespace_loop
consume_whitespace s = whitespace_loop (suc (left s)) s

-- `for range 3` of `parseDelimiter`: whether three `#` were there.
hashes : ℕ → Scanner → Bool × Scanner
hashes zero s = (true, s)
hashes (suc n) s =
    let rest = hashes n (advance s) in
    elim (read s) [ none ↦ (false, s) | some b ↦ if not (b == b'#') then (false, s) else rest ]

-- What the payload loop of `parseDelimiter` records at a byte that is no space.
abbrev starts_payload : Token → ℤ → ℤ
starts_payload t at = elim t.payload_start [ pos zero ↦ at | z ↦ z ]

note_payload : Token → ℕ → ℕ → Token
note_payload t b at = record t {
  payload_start = starts_payload t (pos at);
  payload_end = pos (at + 1);
  has_escapes = t.has_escapes || b == 92;
}

-- The payload loop of `parseDelimiter`, up to the end of the line. At the end of the file the token
-- stays incomplete.
delimiter_loop : ℕ → Token → Scanner → Result (Token × Scanner)
unfolding is_space note_payload
delimiter_loop zero t s = out_of_fuel
delimiter_loop (suc f) t s = elim (read s) [
  | none ↦ ok (t, s)
  | some b ↦
      let rest =
        delimiter_loop f (if is_space b then t else note_payload t b s.current) (advance s) in
      if b == newline then ok (record t { end = s.current; type = delimiter }, s) else rest
]

after_hashes : Token → ℕ → Bool × Scanner → Result (Token × Scanner)
unfolding delimiter_loop
after_hashes t prev (false, s) = ok (t, s)
after_hashes t prev (true, s) =
    let body = delimiter_loop (suc (left s)) t s in
    if not (prev == newline) && not (prev == 0) then ok (t, s) else body

-- `parseDelimiter`. The start is `Current - 1`, and no one reads it; at 0 it is 0 here.
parse_delimiter : Scanner → Result (Token × Scanner)
unfolding hashes after_hashes
parse_delimiter s =
    after_hashes
      (record zero_token { start = s.current - 1; line = s.line_number; offset = s.offset_number })
      (previous s) (hashes 3 s)

-- A text token from `start` up to `end`.
abbrev text_token : Scanner → ℕ → Bool → Token
text_token from end has_escapes = record {
  type = text;
  name = [];
  line = from.line_number;
  offset = from.offset_number;
  start = from.current;
  end = end;
  payload_start = pos from.current;
  payload_end = pos end;
  has_escapes = has_escapes;
}

-- What the loop of `parseText` tells apart.
pub data TextByte : Type 0 where
  text_eof escaped backslash dollar hash plain : TextByte

text_byte : Bool → Option ℕ → TextByte
text_byte is_escaped none = text_eof
text_byte is_escaped (some b) =
    if is_escaped
    then escaped
    else if b == 92
    then backslash
    else if b == b'$'
    then dollar
    else if b == b'#'
    then hash
    else plain

-- Behind `parseDelimiter` in `parseText`; `from` is where the text began and `at` the first `#`. The
-- source's assignment to `res.HasEscapes` is written over before `res` is returned.
join_delimiter :
    (again : Bool → Parser → Result (Token × Parser))
    → (from at : Scanner) → Bool
    → Parser
    → Token × Scanner
    → TokenType
    → Result (Token × Parser)
join_delimiter again from at has_escapes p (maybe, s) delimiter =
    if leb at.current (from.current + 1)
    then ok (maybe, record p { scanner = s })
    else ok (
      text_token from (at.current - 1) has_escapes,
      record p { scanner = s; delimiter_token = maybe },
    )
join_delimiter again from at has_escapes p (maybe, s) _ =
    again (previous s == 92) (record p { scanner = s })

after_delimiter :
    (again : Bool → Parser → Result (Token × Parser))
    → (from at : Scanner) → Bool
    → Parser
    → Token × Scanner
    → Result (Token × Parser)
unfolding join_delimiter
after_delimiter again from at has_escapes p r =
    join_delimiter again from at has_escapes p r r.0.type

-- One round of the loop of `parseText`; `again` is the next, with its two flags.
text_round :
    (again : Bool → Bool → Parser → Result (Token × Parser))
    → Scanner
    → (is_escaped has_escapes : Bool) → Parser
    → TextByte
    → Result (Token × Parser)
unfolding after_delimiter parse_delimiter
text_round again from is_escaped has_escapes p text_eof =
    if is_escaped
    then err (eof_after_escape p.line_number p.offset_number)
    else ok (text_token from p.current has_escapes, p)
text_round again from is_escaped has_escapes p dollar =
    ok (text_token from p.current has_escapes, p)
text_round again from is_escaped has_escapes p hash =
    parse_delimiter p.scanner
    >>= after_delimiter (λ e. again e has_escapes) from p.scanner has_escapes p
text_round again from is_escaped has_escapes p backslash =
    again true true (record p { scanner = advance p.scanner })
text_round again from is_escaped has_escapes p _ =
    again false has_escapes (record p { scanner = advance p.scanner })

text_loop :
    (fuel : ℕ) → Scanner → (is_escaped has_escapes : Bool) → Parser → Result (Token × Parser)
unfolding text_round text_byte
text_loop zero from is_escaped has_escapes p = out_of_fuel
text_loop (suc f) from is_escaped has_escapes p =
    text_round (text_loop f from) from is_escaped has_escapes p
      (text_byte is_escaped (read p.scanner))

pub parse_text : Parser → Result (Token × Parser)
unfolding text_loop
parse_text p = text_loop (suc (left p.scanner)) p.scanner false false p

-- The loop of `parseScriptName`: the scanner at the opening brace.
name_loop : ℕ → Scanner → Scanner → Result Scanner
unfolding script_fail
name_loop zero from s = out_of_fuel
name_loop (suc f) from s =
    let rest = name_loop f from (advance s) in
    elim (read s) [
      | none ↦ script_fail [] s unexpected_eof
      | some b ↦
          if b == newline
          then err (newline_in_name from.line_number from.offset_number)
          else if not (b == b'{')
          then rest
          else ok s
    ]

parse_script_name : Scanner → Result (Bytes × Scanner)
unfolding name_loop trim_space slice
parse_script_name from = do
  s ← name_loop (suc (left from)) from from
  ok (trim_space (slice from from.current (some s.current)), s)

-- The name of a script, and the number of unnamed ones so far.
script_name : Bytes → ℕ → Bytes × ℕ
unfolding decimal
script_name [] idx = (codes "Unnamed_" ++ decimal idx, idx + 1)
script_name (b ∷ bs) idx = (b ∷ bs, idx)

-- The script behind its name, from the scanner `from` at the dollar sign.
script_body : Scanner → Parser → Bytes × ℕ → Scanner → Result (Token × Parser)
script_body from p (name, idx) s₀ = do
  s₁ ← match_byte name b'{' s₀
  s₂ ← parse_lua_script name (suc (left s₁)) s₁
  s₃ ← match_byte name b'}' s₂
  ok (
    record {
      type = script;
      name = name;
      line = from.line_number;
      offset = from.offset_number;
      start = from.current;
      end = s₃.current;
      payload_start = pos s₁.current;
      payload_end = pos (s₃.current - 1);
      has_escapes = false;
    },
    record p { scanner = s₃; unnamed_script_idx = idx },
  )

pub parse_script : Parser → Result (Token × Parser)
unfolding match_byte parse_script_name script_name script_body parse_lua_script
parse_script p = do
  s ← match_byte [] b'$' p.scanner
  (name, s') ← parse_script_name s
  script_body p.scanner p (script_name name p.unnamed_script_idx) s'

eof_token : Scanner → Token
eof_token s = record zero_token {
  type = eof;
  line = s.line_number;
  offset = s.offset_number;
  payload_start = negsuc 0;
  payload_end = negsuc 0;
}

-- Without a token that waits: by the next byte.
lex_byte : Parser → Option ℕ → Result (Token × Parser)
unfolding eof_token parse_script parse_text
lex_byte p none = ok (eof_token p.scanner, p)
lex_byte p (some b) =
    let from_text = parse_text p in
    let from_script = parse_script p in if b == b'$' then from_script else from_text

-- `lexToken`, by the type of the token that waits
lex_waiting : Parser → TokenType → Result (Token × Parser)
unfolding lex_byte
lex_waiting p delimiter = ok (p.delimiter_token, record p { delimiter_token = zero_token })
lex_waiting p _ = lex_byte p (read p.scanner)

unfoldable pub lex_token : Parser → Result (Token × Parser)
unfolding lex_waiting
lex_token p = lex_waiting p p.delimiter_token.type
