-- ===== src/Blueprint.antt =====
-- internal/scenario/scenario.go and `setScript` of scenario-parser.go: request blueprints, built from
-- the tokens of a file.
pub mod Wellformed
use sinq.Prelude.{
  ℕ, zero, suc, ◌+◌, ◌-◌, ◌*◌, Bool, true, false, not, ◌&&◌, ◌||◌, Option, none, some, List, [],
  ◌∷◌, ◌++◌, Bytes, codes, equal, length, take, drop, leb, ltb, ◌==◌, if◌then◌else◌,
}
use sinq.Lexer.{Parser, consume_whitespace, lex_token}
use sinq.Result.{
  defined_twice, incomplete, empty_request, read_failed, Result, ok, err, out_of_fuel, ◌>>=◌,
}
use sinq.Scanner.{Scanner, new_byte_scanner}
use sinq.Token.{
  ℤ, pos, negsuc, TokenType, incomplete_token, text, script, delimiter, eof, Token, zero_token,
  is_special_script,
}

pub record RequestBlueprint : Type 0 where
  pub source : Bytes
  pub content : List Token
  pub pre : Token
  pub assert : Token
  pub retry : Token
  pub post : Token
  pub filename : Bytes
  pub name : Bytes

unfoldable pub new_blueprint : Bytes → Bytes → RequestBlueprint
new_blueprint source filename = record {
  source = source;
  content = [];
  pre = zero_token;
  assert = zero_token;
  retry = zero_token;
  post = zero_token;
  filename = filename;
  name = [];
}

unfoldable pub is_unset : TokenType → Bool
is_unset incomplete_token = true
is_unset _ = false

-- `setScript`
unfoldable pub set_script : RequestBlueprint → Token → Result RequestBlueprint
unfolding is_unset
set_script bp t =
    if equal t.name (codes "PRE")
    then (if not (is_unset bp.pre.type)
        then err (defined_twice t.name)
        else ok (record bp { pre = t }))
    else if equal t.name (codes "RETRY")
    then (if not (is_unset bp.retry.type)
        then err (defined_twice t.name)
        else ok (record bp { retry = t }))
    else if equal t.name (codes "ASSERT")
    then (if not (is_unset bp.assert.type)
        then err (defined_twice t.name)
        else ok (record bp { assert = t }))
    else if equal t.name (codes "POST")
    then (if not (is_unset bp.post.type)
        then err (defined_twice t.name)
        else ok (record bp { post = t }))
    else ok (record bp { content = bp.content ++ t ∷ [] })

-- The loop of `escapePayload` over the bytes from an index on, of which the first `n` are the
-- payload's. `none` is a read behind the source, which panics.
unfoldable pub unescape : ℕ → Bytes → Option Bytes
unescape zero bs = some []
unescape (suc n) [] = none
unescape (suc n) (b ∷ []) = if b == 92 then none else (if n == 0 then some (b ∷ []) else none)
unescape (suc n) (b ∷ c ∷ bs) =
    let skipped = unescape (n - 1) bs in
    let next = unescape n (c ∷ bs) in
    if b == 92
    then elim skipped [ none ↦ none | some r ↦ some (c ∷ r) ]
    else elim next [ none ↦ none | some r ↦ some (b ∷ r) ]

abbrev is_text : TokenType → Bool
is_text text = true
is_text _ = false

-- `escapePayload`
escape_payload : Bytes → Token → (from to : ℕ) → Option Bytes
unfolding unescape
escape_payload source t from to =
    if not (is_text t.type) || not t.has_escapes
    then some (take (to - from) (drop from source))
    else unescape (to - from) (drop from source)

payload_between : Bytes → Token → ℤ → ℤ → Option Bytes
unfolding escape_payload
payload_between source t (pos from) (pos to) =
    if leb from to && ltb from (length source) && leb to (length source)
    then escape_payload source t from to
    else some []
payload_between source t (pos from) (negsuc to) = some []
payload_between source t (negsuc from) to = some []

-- `ExtractPayload`
unfoldable pub extract_payload : RequestBlueprint → Token → Option Bytes
unfolding payload_between
extract_payload bp t = payload_between bp.source t t.payload_start t.payload_end

-- The name that a delimiter gives; it is no text, so that its payload is read as it stands.
abbrev payload_or_empty : Option Bytes → Bytes
payload_or_empty none = []
payload_or_empty (some bs) = bs

-- The blueprints before the current one, the current one, and the parser.
pub record Loop : Type 0 where
  pub finished : List RequestBlueprint
  pub request : RequestBlueprint
  pub parser : Parser

skip_whitespace : Loop → Result Loop
skip_whitespace l = do
  s ← consume_whitespace l.parser.scanner
  let p = l.parser
  ok (record l { parser = record p { scanner = s } })

is_nil : List Token → Bool
is_nil [] = true
is_nil (t ∷ ts) = false

-- A delimiter starts the next request, unless the current one is still empty, and names it.
next_request : Loop → Token → Loop
unfolding is_nil
next_request l t =
    let blank = new_blueprint l.request.source l.request.filename in
    let name = payload_or_empty (extract_payload l.request t) in
    if is_nil l.request.content
    then (let r = l.request in record l { request = record r { name = name } })
    else record l {
      finished = l.finished ++ l.request ∷ [];
      request = record blank { name = name };
    }

add_text : Loop → Token → Loop
add_text l t =
    let r = l.request in record l { request = record r { content = r.content ++ t ∷ [] } }

-- One round of `ParsingLoop`, by the token; `again` is the next.
parsing_round : (again : Loop → Result Loop) → Loop → Token → TokenType → Result Loop
unfolding add_text skip_whitespace next_request
parsing_round again l t text = again (add_text l t)
parsing_round again l t script = do
  bp ← set_script l.request t
  let l' = record l { request = bp }
  l'' ← (if is_special_script t.name then skip_whitespace l' else ok l')
  again l''
parsing_round again l t incomplete_token = err incomplete
parsing_round again l t delimiter = skip_whitespace (next_request l t) >>= again
parsing_round again l t eof = ok l

lex_into : Loop → Token × Parser → Token × Loop
lex_into l (t, p) = (t, record l { parser = p })

parsing_loop : ℕ → Loop → Result Loop
unfolding parsing_round lex_into
parsing_loop zero l = out_of_fuel
parsing_loop (suc f) l = do
  r ← lex_token l.parser
  let (t, l') = lex_into l r
  parsing_round (parsing_loop f) l' t t.type

-- Behind the loop. The source returns the blueprints beside the error too, which its callers drop.
finish : Loop → Result (List RequestBlueprint)
unfolding is_nil
finish l = if is_nil l.request.content then err empty_request else ok (l.finished ++ l.request ∷ [])

start_loop : Bytes → Bytes → Loop
start_loop source filename = record {
  finished = [];
  request = new_blueprint source filename;
  parser = record {
    scanner = new_byte_scanner source;
    unnamed_script_idx = 0;
    delimiter_token = zero_token;
  };
}

-- `ParseRequestBlueprints`, on what `io.ReadAll` gave: `none` is its error. Each round but the last
-- advances or takes the delimiter that waits, so that two units of fuel for each byte suffice.
unfoldable pub parse_request_blueprints : Option Bytes → Bytes → Result (List RequestBlueprint)
unfolding start_loop skip_whitespace parsing_loop finish
parse_request_blueprints none filename = err read_failed
parse_request_blueprints (some source) filename =
    skip_whitespace (start_loop source filename) >>= parsing_loop (2 * length source + 2) >>= finish
