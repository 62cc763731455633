-- ===== src/Lua.antt =====
-- internal/scenario/scenario-parser.go, parseLuaScript to parseLongBracketClose: the passes over an
-- embedded Lua script up to its closing brace. These methods read `currentScriptName`, for their
-- errors, and change nothing of the parser but its scanner. Levels are `none` for the source's -1.
-- Each loop's fuel is one more than the bytes left.
pub mod Progress
use sinq.Prelude.{
  ℕ, zero, suc, ◌+◌, Bool, true, false, not, ◌&&◌, Option, none, some, Bytes, ◌==◌, if◌then◌else◌,
}
use sinq.Result.{
  Reason, unexpected_eof, unexpected_char, expected_quote, unclosed_string, negative_level, Error,
  script_error, Result, ok, err, out_of_fuel, ◌>>=◌,
}
use sinq.Scanner.{Scanner, newline, read, advance, left}

-- `scriptError`
unfoldable pub script_fail {ℓ} : {A : Type ℓ} → Bytes → Scanner → Reason → Result A
script_fail script s reason = err (script_error s.line_number s.offset_number script reason)

-- `match`
unfoldable pub match_byte : Bytes → ℕ → Scanner → Result Scanner
unfolding script_fail
match_byte script expected s = elim (read s) [
  | none ↦ script_fail script (advance s) unexpected_eof
  | some b ↦
      if b == expected
      then ok (advance s)
      else script_fail script (advance s) (unexpected_char b expected)
]

-- What the switches of the Lua passes tell apart.
pub data LuaByte : Type 0 where
  end_of_file dash quote_mark square brace_open brace_close equals other : LuaByte

lua_byte : Option ℕ → LuaByte
lua_byte none = end_of_file
lua_byte (some b) =
    if b == b'-'
    then dash
    else if b == b'"'
    then quote_mark
    else if b == 39
    then quote_mark
    else if b == b'['
    then square
    else if b == b'{'
    then brace_open
    else if b == b'}'
    then brace_close
    else if b == b'='
    then equals
    else other

module _ (script : Bytes) where
  -- The loop of `parseLongBracketOpen`, for `[`, and of `parseLongBracketClose`, for `]`.
  level_loop : (bracket fuel level : ℕ) → Scanner → Result (Option ℕ × Scanner)
  unfolding script_fail
  level_loop bracket zero level s = out_of_fuel
  level_loop bracket (suc f) level s =
      let deeper = level_loop bracket f (level + 1) (advance s) in
      elim (read s) [
        | none ↦ script_fail script s unexpected_eof
        | some b ↦
            if b == bracket
            then ok (some level, advance s)
            else if b == b'='
            then deeper
            else ok (none, s)
      ]

  parse_long_bracket_open : Scanner → Result (Option ℕ × Scanner)
  unfolding match_byte level_loop
  parse_long_bracket_open s = do s' ← match_byte script b'[' s; level_loop b'[' (suc (left s')) 0 s'

  parse_long_bracket_close : Scanner → Result (Option ℕ × Scanner)
  unfolding level_loop
  parse_long_bracket_close s = level_loop b']' (suc (left s)) 0 s

  multiline_loop : (fuel : ℕ) → Scanner → Result Scanner
  unfolding script_fail
  multiline_loop zero s = out_of_fuel
  multiline_loop (suc f) s =
      let rest = multiline_loop f (advance s) in
      elim (read s) [
        | none ↦ script_fail script s unexpected_eof
        | some b ↦ if b == b']' then ok s else rest
      ]

  parse_lua_multiline_string : Scanner → Result Scanner
  unfolding multiline_loop
  parse_lua_multiline_string s = multiline_loop (suc (left s)) s

  same_level : Option ℕ → ℕ → Bool
  same_level none level = false
  same_level (some closer) level = closer == level

  -- `for closerLevel != level`: the first round is always run, since the level starts at -1.
  closer_loop : (fuel level : ℕ) → Scanner → Result Scanner
  unfolding parse_lua_multiline_string match_byte parse_long_bracket_close same_level
  closer_loop zero level s = out_of_fuel
  closer_loop (suc f) level s = do
    s₁ ← parse_lua_multiline_string s
    s₂ ← match_byte script b']' s₁
    (closer, s₃) ← parse_long_bracket_close s₂
    let rest = closer_loop f level s₃
    if same_level closer level then ok s₃ else rest

  parse_lua_multiline_string_with_closer : Option ℕ → Scanner → Result Scanner
  unfolding closer_loop script_fail
  parse_lua_multiline_string_with_closer none s = script_fail script s negative_level
  parse_lua_multiline_string_with_closer (some level) s = closer_loop (suc (left s)) level s

  string_loop : (quote line offset fuel : ℕ) → Bool → Scanner → Result Scanner
  unfolding script_fail
  string_loop quote line offset zero is_escaped s = out_of_fuel
  string_loop quote line offset (suc f) is_escaped s = elim (read s) [
    | none ↦ script_fail script s (unclosed_string line offset quote)
    | some b ↦
        let rest = string_loop quote line offset f (not is_escaped && b == 92) (advance s) in
        if b == newline && not is_escaped
        then script_fail script s (unclosed_string line offset quote)
        else if not is_escaped && b == quote
        then ok (advance s)
        else rest
  ]

  pub parse_lua_simple_string : Scanner → Result Scanner
  unfolding string_loop script_fail
  parse_lua_simple_string s = elim (read s) [
    | none ↦ script_fail script s unexpected_eof
    | some q ↦
        let s' = advance s in
        let body = string_loop q s'.line_number s'.offset_number (suc (left s')) false s' in
        if not (q == b'"') && not (q == 39) then script_fail script s expected_quote else body
  ]

  comment_loop : (fuel : ℕ) → Scanner → Result Scanner
  unfolding script_fail
  comment_loop zero s = out_of_fuel
  comment_loop (suc f) s =
      let rest = comment_loop f (advance s) in
      elim (read s) [
        | none ↦ script_fail script (advance s) unexpected_eof
        | some b ↦ if b == newline then ok (advance s) else rest
      ]

  parse_lua_simple_comment : Scanner → Result Scanner
  unfolding comment_loop
  parse_lua_simple_comment s = comment_loop (suc (left s)) s

  -- `for range 2`: whether both dashes were there.
  dashes : ℕ → Scanner → Result (Bool × Scanner)
  unfolding script_fail
  dashes zero s = ok (true, s)
  dashes (suc n) s =
      let rest = dashes n (advance s) in
      elim (read s) [
        | none ↦ script_fail script s unexpected_eof
        | some b ↦ if not (b == b'-') then ok (false, s) else rest
      ]

  -- Behind the opening bracket of a comment: a long comment, or a simple one after all.
  bracket_comment : Option ℕ × Scanner → Result Scanner
  unfolding parse_lua_simple_comment parse_lua_multiline_string_with_closer
  bracket_comment (none, s) = parse_lua_simple_comment s
  bracket_comment (some level, s) = parse_lua_multiline_string_with_closer (some level) s

  -- Behind the dashes, by the next byte.
  comment_start : Scanner → LuaByte → Result Scanner
  unfolding parse_long_bracket_open bracket_comment parse_lua_simple_comment script_fail
  comment_start s end_of_file = script_fail script s unexpected_eof
  comment_start s square = parse_long_bracket_open s >>= bracket_comment
  comment_start s _ = parse_lua_simple_comment s

  comment_body : Bool × Scanner → Result Scanner
  unfolding comment_start lua_byte
  comment_body (false, s) = ok s
  comment_body (true, s) = comment_start s (lua_byte (read s))

  parse_lua_comment : Scanner → Result Scanner
  unfolding dashes comment_body
  parse_lua_comment s = dashes 2 s >>= comment_body

  -- Behind the opening bracket in code: a long string, or nothing.
  bracket_code : Option ℕ × Scanner → Result Scanner
  unfolding parse_lua_multiline_string_with_closer
  bracket_code (none, s) = ok s
  bracket_code (some level, s) = parse_lua_multiline_string_with_closer (some level) s

  -- One round of the loop of `parseLuaScript`; `again` is the next round, or a nested script.
  script_round : (again : Scanner → Result Scanner) → Scanner → LuaByte → Result Scanner
  unfolding parse_lua_comment parse_lua_simple_string parse_long_bracket_open bracket_code
      match_byte script_fail
  script_round again s end_of_file = script_fail script s unexpected_eof
  script_round again s dash = parse_lua_comment s >>= again
  script_round again s quote_mark = parse_lua_simple_string s >>= again
  script_round again s square = parse_long_bracket_open s >>= bracket_code >>= again
  script_round again s brace_open = again (advance s) >>= match_byte script b'}' >>= again
  script_round again s brace_close = ok s
  script_round again s _ = again (advance s)

  -- `parseLuaScript`: each round and each nested script takes one unit of fuel.
  unfoldable pub parse_lua_script : (fuel : ℕ) → Scanner → Result Scanner
  unfolding lua_byte script_round
  parse_lua_script zero s = out_of_fuel
  parse_lua_script (suc f) s = script_round (parse_lua_script f) s (lua_byte (read s))
