-- ===== src/Tests/Scenario.antt =====
-- Runs of the scenario parser on small files.
use sinq.Prelude.{◌≡◌, refl, List, [], ◌∷◌, map, some, Option, Bytes, codes, equal, arith}
use sinq.Blueprint.{
  RequestBlueprint, parse_request_blueprints, extract_payload, new_blueprint, set_script,
}
use sinq.Lexer.{Parser, lex_token, consume_whitespace}
use sinq.Lua.{parse_lua_script}
use sinq.Result.{Result, ok, ◌>>=◌, Ends}
use sinq.Scanner.{read, advance, new_byte_scanner, left, previous}
use sinq.Scanner.Position.{IsPlaced, advance-IsPlaced, new_byte_scanner-IsPlaced}
use sinq.Token.{zero_token, is_special_script}
use sinq.Blueprint.Wellformed.Parsed.{IsParsed, parse_request_blueprints-IsParsed}
use sinq.Lexer.Progress.Tokens.{Lexed, lex_token-Lexed}
use sinq.Lua.Progress.Script.{AtBrace, parse_lua_script-AtBrace}

abbrev two_requests : Bytes
two_requests =
    codes
      "$PRE{ a = \"}\" --x\n }GET http://h/${ v }\n\nb\\$\n### second \nPOST http://i\n$POST{ if 1 then {} end }"

abbrev payloads : Result (List RequestBlueprint) → Result (List (List (Option Bytes)))
payloads r = r >>= λ bps. ok (map (λ bp. map (extract_payload bp) bp.content) bps)

two_requests_contents :
    payloads (parse_request_blueprints (some two_requests) [])
    ≡ ok (
        (some (codes "GET http://h/") ∷ some (codes " v ") ∷ some (codes "\n\nb$") ∷ [])
        ∷ (some (codes "POST http://i\n") ∷ [])
        ∷ [])
unfolding parse_request_blueprints lex_token parse_lua_script consume_whitespace read advance
    extract_payload new_byte_scanner left set_script equal new_blueprint is_special_script previous
two_requests_contents = refl

-- The escape of a `$` at the end of a last line of `#` is not undone: the payload keeps its backslash.
escape_behind_hashes :
    payloads (parse_request_blueprints (some (codes "GET http://h/\n### a\\$")) [])
    ≡ ok ((some (codes "GET http://h/\n### a\\$") ∷ []) ∷ [])
unfolding parse_request_blueprints lex_token parse_lua_script consume_whitespace read advance
    extract_payload new_byte_scanner left set_script equal new_blueprint is_special_script previous
escape_behind_hashes = refl

parse_request_blueprints-IsParsed_example :
    Ends (IsParsed two_requests) (parse_request_blueprints (some two_requests) (codes "a.sinq"))
parse_request_blueprints-IsParsed_example =
    parse_request_blueprints-IsParsed two_requests (codes "a.sinq")

abbrev second_parser : Parser
second_parser = record {
  scanner = record { source = two_requests; current = 18; line_number = 2; offset_number = 4 };
  unnamed_script_idx = 0;
  delimiter_token = zero_token;
}

lex_token-Lexed_example : Ends (Lexed second_parser) (lex_token second_parser)
lex_token-Lexed_example = lex_token-Lexed second_parser (omega arith)

abbrev lua_source : Bytes
lua_source = codes "[=[ } ]=] 'a}' --[[ } ]] { } }x"

parse_lua_script-AtBrace_example :
    Ends
      (AtBrace (new_byte_scanner lua_source))
      (parse_lua_script (codes "PRE") 100 (new_byte_scanner lua_source))
unfolding new_byte_scanner
parse_lua_script-AtBrace_example =
    parse_lua_script-AtBrace (codes "PRE") 100 (new_byte_scanner lua_source)
      (unfold left in (omega arith)) (omega arith)

lua_source_end :
    parse_lua_script (codes "PRE") 100 (new_byte_scanner lua_source)
    ≡ ok (record { source = lua_source; current = 29; line_number = 1; offset_number = 30 })
unfolding parse_lua_script new_byte_scanner read advance left
lua_source_end = refl

advance-IsPlaced_example : IsPlaced (advance (new_byte_scanner (codes "\na")))
advance-IsPlaced_example =
    advance-IsPlaced (new_byte_scanner (codes "\na")) (new_byte_scanner-IsPlaced (codes "\na"))
