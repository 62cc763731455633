-- ===== src/Runner/Parser.antt =====
-- internal/runner/parser.go: the text of a request, as its content and scripts have made it, read as
-- an HTTP request. What net/url and net/http make of a URL and of the name of a header field is an
-- argument. The context is one that does not end on the way.
pub mod Text
pub mod Render
pub mod Fields
pub mod Fuel
use sinq.Prelude.{
  ℕ, zero, suc, ◌+◌, Bool, true, false, not, ◌||◌, Option, none, some, List, [], ◌∷◌, ◌++◌, Bytes,
  codes, equal, length, ltb, ◌==◌, if◌then◌else◌,
}
use sinq.Scanner.{Scanner, newline, new_byte_scanner, read, advance, slice, left}
use sinq.Spaces.{is_space, to_lower}

-- What `parsingError` reports, with the line.
pub data ParseError : Type 0 where
  unexpected_end empty_request_line bad_url not_absolute empty_host malformed_header
        expected_next_line :
      ℕ → ParseError

-- `out_of_fuel` is no behaviour of the program: it is proved not to occur.
pub data Parse (A : Type 0) : Type 0 where
  ok : A → Parse A
  err : ParseError → Parse A
  out_of_fuel : Parse A

infixl 5 ◌>>=◌
abbrev pub ◌>>=◌ : {A B : Type 0} → Parse A → (A → Parse B) → Parse B
ok a >>= f = f a
err e >>= f = err e
out_of_fuel >>= f = out_of_fuel

unfoldable pub is_blank : ℕ → Bool
is_blank b = b == b' ' || b == 9

-- The loop of `skipWhitespace`; the fuel is more than the bytes left, in all these loops.
skip_loop : ℕ → Scanner → Scanner
unfolding is_blank
skip_loop zero s = s
skip_loop (suc f) s =
    let rest = skip_loop f (advance s) in
    elim (read s) [ none ↦ s | some b ↦ if not (is_blank b) then s else rest ]

unfoldable pub skip_whitespace : Scanner → Scanner
unfolding skip_loop
skip_whitespace s = skip_loop (suc (left s)) s

-- The loop of `scanWord`: whether the file ended, and where.
word_loop : ℕ → Scanner → Bool × Scanner
unfolding is_space
word_loop zero s = (true, s)
word_loop (suc f) s =
    let rest = word_loop f (advance s) in
    elim (read s) [ none ↦ (true, s) | some b ↦ if is_space b then (false, s) else rest ]

-- `scanWord`: the word, whether the file ended, and the scanner.
unfoldable pub scan_word : Scanner → Bytes × Bool × Scanner
unfolding word_loop
scan_word s =
    let from = skip_whitespace s in
    let (is_eof, to) = word_loop (suc (left from)) from in
    (slice from from.current (some to.current), is_eof, to)

unfoldable pub is_line_blank : ℕ → Bool
is_line_blank b = b == b' ' || b == 9 || b == b'\r'

-- The loop of `scanLine`: behind the last byte that is no space, unless the file has ended.
line_loop : ℕ → ℕ → Scanner → Option ℕ × Scanner
unfolding is_line_blank
line_loop zero last s = (none, s)
line_loop (suc f) last s = elim (read s) [
  | none ↦ (none, advance s)
  | some b ↦
      let rest = line_loop f (if is_line_blank b then last else (advance s).current) (advance s) in
      if b == newline then (some last, advance s) else rest
]

-- The line from the scanner `from` on.
pub line_from : Scanner → Option ℕ × Scanner → Bytes × Scanner
line_from from (none, to) = (slice from from.current (some to.current), to)
line_from from (some last, to) = (slice from from.current (some last), to)

-- `scanLine`, whose error its caller drops
pub scan_line : Scanner → Bytes × Scanner
unfolding line_loop line_from
scan_line s =
    let from = skip_whitespace s in line_from from (line_loop (suc (left from)) from.current from)

-- What `nextLine` comes back with.
pub data NextLine : Type 0 where
  next : Scanner → NextLine
  at_eof : NextLine
  bad : ParseError → NextLine

-- At the byte that has to end the line.
line_break : Scanner → Option ℕ → NextLine
line_break s none = at_eof
line_break s (some b) =
    if not (b == newline) then bad (expected_next_line s.line_number) else next (advance s)

carriage_return : Scanner → Option ℕ → NextLine
unfolding line_break
carriage_return s none = at_eof
carriage_return s (some b) =
    if b == b'\r' then line_break (advance s) (read (advance s)) else line_break s (some b)

-- `nextLine`
pub next_line : Scanner → NextLine
unfolding carriage_return
next_line s = let s' = skip_whitespace s in carriage_return s' (read s')

unfoldable pub is_empty_text : Bytes → Bool
is_empty_text [] = true
is_empty_text (b ∷ bs) = false

pub ends_in_colon : Bytes → Bool
ends_in_colon [] = false
ends_in_colon (b ∷ []) = b == b':'
ends_in_colon (b ∷ c ∷ bs) = ends_in_colon (c ∷ bs)

pub without_last : Bytes → Bytes
without_last [] = []
without_last (b ∷ []) = []
without_last (b ∷ c ∷ bs) = b ∷ without_last (c ∷ bs)

-- `http.Header`: the values of each field, under its canonical name.
abbrev pub Header : Type 0
Header = List (Bytes × List Bytes)

pub header_add : Bytes → Bytes → Header → Header
header_add k v [] = (k, v ∷ []) ∷ []
header_add k v ((j, vs) ∷ h) =
    if equal j k then (j, vs ++ v ∷ []) ∷ h else (j, vs) ∷ header_add k v h

pub header_set : Bytes → Bytes → Header → Header
header_set k v [] = (k, v ∷ []) ∷ []
header_set k v ((j, vs) ∷ h) = if equal j k then (j, v ∷ []) ∷ h else (j, vs) ∷ header_set k v h

-- `bytes.EqualFold`, at ASCII text
unfoldable pub equal_fold : Bytes → Bytes → Bool
unfolding to_lower
equal_fold a b = equal (to_lower a) (to_lower b)

abbrev pub user_agent : Bytes
user_agent = codes "The Spanish Inquisition/1.0"

-- What the parser sets of an `http.Request`, and the body beside it.
pub record Request (Url : Type 0) : Type 0 where
  pub method : Bytes
  pub url : Url
  pub host : Bytes
  pub header : Header
  pub content_length : ℕ
  pub body : Bytes

-- Behind a word of the request line; `again` scans the others.
words_round :
    (again : Scanner → Parse (List Bytes × Scanner))
    → Bytes × Bool × Scanner
    → Parse (List Bytes × Scanner)
unfolding is_empty_text
words_round again (word, is_eof, s) =
    let rest = again s >>= λ r. ok (word ∷ r.0, r.1) in
    if is_eof
    then err (unexpected_end s.line_number)
    else if is_empty_text word
    then ok ([], s)
    else rest

-- Up to so many words.
pub scan_words : ℕ → Scanner → Parse (List Bytes × Scanner)
unfolding words_round
scan_words zero s = ok ([], s)
scan_words (suc n) s = words_round (scan_words n) (scan_word s)

module _ {Url : Type 0} (parse_url : Bytes → Option Url) (is_abs : Url → Bool)
    (host_of : Url → Bytes) (canonical : Bytes → Bytes) where
  -- `validateURL`, and the fields that the request line sets.
  pub with_url : ℕ → Bytes → Option Url → Parse (Request Url)
  unfolding is_empty_text
  with_url line method none = err (bad_url line)
  with_url line method (some u) =
      if not (is_abs u)
      then err (not_absolute line)
      else if is_empty_text (host_of u)
      then err (empty_host line)
      else ok (record {
        method = method;
        url = u;
        host = host_of u;
        header = [];
        content_length = 0;
        body = [];
      })

  pub request_of_words : ℕ → List Bytes → Parse (Request Url)
  unfolding with_url
  request_of_words line [] = err (empty_request_line line)
  request_of_words line (u ∷ []) = with_url line (codes "GET") (parse_url u)
  request_of_words line (m ∷ u ∷ ws) = with_url line m (parse_url u)

  -- `scanRequestLine`
  pub scan_request_line : Scanner → Parse (Request Url × Scanner)
  unfolding scan_words request_of_words
  scan_request_line s = do
    (words, s') ← scan_words 3 s
    r ← request_of_words s'.line_number words
    ok (r, s')

  -- A header field.
  pub add_field : Request Url → Bytes → Bytes → Request Url
  unfolding equal_fold header_set header_add
  add_field r name value =
      if equal_fold name (codes "host")
      then record r { host = value }
      else if equal_fold name (codes "user-agent")
      then record r { header = header_set (canonical name) value r.header }
      else record r { header = header_add (canonical name) value r.header }

  -- Behind the value of a field; `again` is the next round of the loop.
  header_field :
      (again : Request Url → Scanner → Parse (Request Url × Scanner))
      → Request Url
      → Bytes
      → Bytes × Scanner
      → Parse (Request Url × Scanner)
  unfolding add_field without_last
  header_field again r name (value, s) = again (add_field r (without_last name) value) s

  -- Behind the word at the start of a line.
  header_round :
      (again : Request Url → Scanner → Parse (Request Url × Scanner))
      → Request Url
      → Bytes × Bool × Scanner
      → Parse (Request Url × Scanner)
  unfolding is_empty_text ends_in_colon header_field
  header_round again r (name, is_eof, s) =
      let rest = header_field again r name (scan_line s) in
      if is_empty_text name
      then ok (r, s)
      else if is_eof
      then err (unexpected_end s.line_number)
      else if not (ends_in_colon name)
      then err (malformed_header s.line_number)
      else rest

  header_loop : ℕ → Request Url → Scanner → Parse (Request Url × Scanner)
  unfolding header_round
  header_loop zero r s = out_of_fuel
  header_loop (suc f) r s = header_round (header_loop f) r (scan_word s)

  -- `scanHeaders`
  pub scan_headers : Request Url → Scanner → Parse (Request Url × Scanner)
  unfolding header_loop
  scan_headers r s =
      header_loop (suc (left s))
        (record r { header = (canonical (codes "User-Agent"), user_agent ∷ []) ∷ [] }) s

  -- What is left is the body.
  abbrev with_body : Request Url → Bytes → Request Url
  with_body r bs = record r { content_length = length bs; body = bs }

  after_headers : Request Url → NextLine → Parse (Request Url)
  after_headers r at_eof = ok r
  after_headers r (bad e) = err e
  after_headers r (next s) = ok (with_body r (slice s s.current none))

  after_request_line : Request Url → NextLine → Parse (Request Url)
  unfolding scan_headers after_headers
  after_request_line r at_eof = ok r
  after_request_line r (bad e) = err e
  after_request_line r (next s) = do (r', s') ← scan_headers r s; after_headers r' (next_line s')

  -- `newParser` and `parse`
  unfoldable pub parse_request : Bytes → Parse (Request Url)
  unfolding scan_request_line after_request_line
  parse_request source = do
    (r, s) ← scan_request_line (new_byte_scanner source)
    after_request_line r (next_line s)
