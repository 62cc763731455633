-- ===== src/Luapi/Json/Parser.antt =====
-- `JSONParser` of internal/luapi/lua-json.go, on the tokens that `json.Decoder` gives.
pub mod Tokens
pub mod RoundTrip
pub mod Ends
use sinq.Prelude.{
  ℕ, zero, suc, ◌+◌, ◌*◌, Bool, true, false, Option, none, some, List, [], ◌∷◌, Bytes, length,
  equal, ◌==◌, if◌then◌else◌,
}

-- `json.Token`; the decoder is not told to give `json.Number`.
pub data JsonToken : Type 0 where
  delim : ℕ → JsonToken
  string_token : Bytes → JsonToken
  float_token : ℕ → JsonToken
  bool_token : Bool → JsonToken
  null_token : JsonToken

-- What is made: a table is new, holds its elements 1, 2 and so on, and the fields that were set.
mutual
  pub data Parsed : Type 0 where
    lua_null : Parsed
    lua_number : ℕ → Parsed
    lua_bool : Bool → Parsed
    lua_string : Bytes → Parsed
    lua_table : Elements → Rows → Parsed

  pub data Elements : Type 0 where
    no_elements : Elements
    element : Parsed → Elements → Elements

  pub data Rows : Type 0 where
    no_rows : Rows
    row : Bytes → Parsed → Rows → Rows

pub data ParseError : Type 0 where
  no_token trailing expected_key : ParseError
  unexpected_delim : ℕ → ParseError

pub data ParseOutcome : Type 0 where
  parsed : Parsed → List JsonToken → ParseOutcome
  wrong : ParseError → ParseOutcome
  no_fuel : ParseOutcome

-- `RawSetInt` at the next index
unfoldable pub add_element : Elements → Parsed → Elements
add_element no_elements v = element v no_elements
add_element (element w es) v = element w (add_element es v)

-- `RawSetString`, which replaces a value that is there
unfoldable pub set_row : Bytes → Parsed → Rows → Rows
set_row k v no_rows = row k v no_rows
set_row k v (row j w rows) =
    let rest = set_row k v rows in if equal k j then row k v rows else row j w rest

unfoldable pub after_value : ParseOutcome → (Parsed → List JsonToken → ParseOutcome) → ParseOutcome
after_value (parsed v ts) k = k v ts
after_value (wrong e) k = wrong e
after_value no_fuel k = no_fuel

-- `parseLiteral`; a delimiter is no literal
unfoldable pub parse_literal : JsonToken → List JsonToken → ParseOutcome
parse_literal (delim c) ts = wrong (unexpected_delim c)
parse_literal (string_token t) ts = parsed (lua_string t) ts
parse_literal (float_token n) ts = parsed (lua_number n) ts
parse_literal (bool_token b) ts = parsed (lua_bool b) ts
parse_literal null_token ts = parsed lua_null ts

abbrev pub is_array_end : JsonToken → Bool
is_array_end (delim c) = c == b']'
is_array_end _ = false

-- `parseValue`, `parseObject` and `parseArray`, whose loops and calls are as deep as the fuel
unfoldable mutual
  unfolding after_value parse_literal add_element set_row equal

  pub parse_value : ℕ → JsonToken → List JsonToken → ParseOutcome
  parse_value zero token ts = no_fuel
  parse_value (suc fuel) (delim c) ts =
      let obj = parse_object fuel no_rows ts in
      let array = parse_array fuel no_elements ts in
      if c == b'{' then obj else (if c == b'[' then array else wrong (unexpected_delim c))
  parse_value (suc fuel) token ts = parse_literal token ts

  pub parse_object : ℕ → Rows → List JsonToken → ParseOutcome
  parse_object zero rows ts = no_fuel
  parse_object (suc fuel) rows [] = wrong no_token
  parse_object (suc fuel) rows (delim c ∷ ts) =
      if c == b'}' then parsed (lua_table no_elements rows) ts else wrong (unexpected_delim c)
  parse_object (suc fuel) rows (string_token k ∷ []) = wrong no_token
  parse_object (suc fuel) rows (string_token k ∷ token ∷ ts) =
      after_value (parse_value fuel token ts) λ v ts'. parse_object fuel (set_row k v rows) ts'
  parse_object (suc fuel) rows (token ∷ ts) = wrong expected_key

  pub parse_array : ℕ → Elements → List JsonToken → ParseOutcome
  parse_array zero es ts = no_fuel
  parse_array (suc fuel) es [] = wrong no_token
  parse_array (suc fuel) es (token ∷ ts) =
      let rest =
        after_value (parse_value fuel token ts) λ v ts'. parse_array fuel (add_element es v) ts' in
      if is_array_end token then parsed (lua_table es no_rows) ts else rest

-- The decoder is asked for one token more, and should be at its end and not at an error.
unfoldable pub at_end : Bool → Parsed → List JsonToken → ParseOutcome
at_end broken v (token ∷ ts) = wrong trailing
at_end true v [] = wrong trailing
at_end false v [] = parsed v []

-- `Parse`: the tokens, and whether the text is broken behind them
unfoldable pub parse_json : Bool → List JsonToken → ParseOutcome
unfolding parse_value after_value at_end
parse_json broken [] = wrong no_token
parse_json broken (token ∷ ts) =
    after_value (parse_value (2 * suc (length ts)) token ts) (at_end broken)
