-- ===== src/Tests/Json.antt =====
-- Runs of the serializer and the reader of JSON on small tables.
use sinq.Prelude.{true, false, some, [], ◌∷◌, ◌++◌, Bytes, codes, ◌≡◌, ◌≢◌, equal, refl}
use sinq.Luapi.Json.{
  json_null, flag, table, number_key, text_key, Heap, Forms, Serializer, wrote, failed, cycle,
  at_key, out_of_fuel, serialize_to_json,
}
use sinq.Luapi.Json.Tree.{
  Json, jnull, jflag, jarray, jobject, item, no_items, member, no_members, read_value, print,
}
use sinq.Luapi.Json.Parser.{
  delim, string_token, bool_token, null_token, parsed, wrong, trailing, lua_bool, lua_table,
  no_elements, row, no_rows, parse_json,
}
use sinq.Luapi.Json.Parser.Tokens.{tokens, to_lua, HasDistinctKeys}
use sinq.Luapi.Json.Parser.RoundTrip.{parse_json-tokens}
use sinq.Luapi.Json.Ends.{serialize_to_json_ends}
use sinq.Luapi.Json.Reads.{serialize_to_json-print}

abbrev quoted : Bytes → Bytes
quoted t = codes "\"" ++ t ++ codes "\""

abbrev plain : Forms
plain = record { format_float = λ n. codes "1"; marshal = quoted }

-- A map whose entries `b` and `a` are one list.
abbrev shared : Heap
shared =
    record {
      entries = (text_key (codes "b"), table 1) ∷ (text_key (codes "a"), table 1) ∷ [];
      len = 0;
      as_empty_array = false;
    }
    ∷ record {
      entries = (number_key 1, flag true) ∷ (number_key 2, json_null) ∷ [];
      len = 2;
      as_empty_array = false;
    }
    ∷ []

-- A map that holds itself.
abbrev looping : Heap
looping =
    record { entries = (text_key (codes "self"), table 0) ∷ []; len = 0; as_empty_array = false }
    ∷ []

abbrev shared_text : Bytes
shared_text = codes "{\"a\":[true,null],\"b\":[true,null]}"

abbrev pair : Json
pair = jarray (item (jflag true) (item jnull no_items))

abbrev shared_tree : Json
shared_tree = jobject (member (codes "a") pair (member (codes "b") pair no_members))

abbrev shared_end : Serializer
shared_end = record { sb = shared_text; indent = []; newline = false; visited = [] }

shared_read : read_value shared 3 (table 0) ≡ some shared_tree
unfolding read_value
shared_read = refl

looping_fails : serialize_to_json plain looping [] (table 0) ≡ failed (at_key (codes "self") cycle)
unfolding serialize_to_json
looping_fails = refl

lines_run :
    serialize_to_json plain shared (codes "  ") (table 1)
    ≡ wrote (record {
      sb = codes "[" ++ 10 ∷ codes "  true," ++ 10 ∷ codes "  null" ++ 10 ∷ codes "]";
      indent = codes "  ";
      newline = true;
      visited = [];
    })
unfolding serialize_to_json
lines_run = refl

serialize_to_json_ends_example : serialize_to_json plain looping [] (table 0) ≢ out_of_fuel
serialize_to_json_ends_example = serialize_to_json_ends plain looping [] (table 0)

serialize_to_json-print_example :
    (s : Serializer) × (serialize_to_json plain shared [] (table 0) ≡ wrote s)
    × (s.sb ≡ print plain [] false 0 shared_tree)
serialize_to_json-print_example =
    serialize_to_json-print plain shared [] (table 0) 3 shared_tree shared_read

-- The tokens of `{"a":[true,null],"b":[true,null]}`.
parse_runs : parse_json false (tokens shared_tree) ≡ parsed (to_lua shared_tree) []
unfolding parse_json tokens to_lua
parse_runs = refl

-- The second value of a key takes the place of the first.
parse_twice :
    parse_json false (
      delim b'{'
      ∷ string_token (codes "a")
      ∷ null_token
      ∷ string_token (codes "a")
      ∷ bool_token true
      ∷ delim b'}'
      ∷ [])
    ≡ parsed (lua_table no_elements (row (codes "a") (lua_bool true) no_rows)) []
unfolding parse_json
parse_twice = refl

parse_trailing : parse_json false (null_token ∷ null_token ∷ []) ≡ wrong trailing
unfolding parse_json
parse_trailing = refl

parse_json-tokens_example : parse_json false (tokens shared_tree) ≡ parsed (to_lua shared_tree) []
unfolding HasDistinctKeys equal
parse_json-tokens_example =
    parse_json-tokens shared_tree (refl, (tt, (tt, tt)), (refl, (tt, (tt, tt)), tt))

-- An empty array and an empty object are parsed to the same table.
empty_alike :
    parse_json false (delim b'[' ∷ delim b']' ∷ [])
    ≡ parse_json false (delim b'{' ∷ delim b'}' ∷ [])
unfolding parse_json
empty_alike = refl
