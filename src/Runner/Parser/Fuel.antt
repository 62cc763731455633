-- ===== src/Runner/Parser/Fuel.antt =====
-- The fuel of the request parser is enough, whatever the text is.
pub mod Requests
use sinq.Prelude.{ℕ, ◌≤◌, ◌≡◌, Bool, true, false, none, some, List, ◌∷◌, Bytes, length}
use sinq.Scanner.{Scanner, read, new_byte_scanner}
use sinq.Scanner.Position.{Ahead}
use sinq.Spaces.{is_space}
use sinq.Runner.Parser.{
  NextLine, next, at_eof, bad, line_break, carriage_return, next_line, is_empty_text, ends_in_colon,
  without_last, ParseError, Parse, ok, err, ◌>>=◌, Request, words_round, scan_words, with_url,
  request_of_words, scan_request_line, add_field, header_field, header_round, header_loop,
  scan_headers, after_headers, after_request_line, parse_request,
}

abbrev Within : Scanner → Type 0
Within s = s.current ≤ length s.source

-- Where a word ends: at the end of the file, or at a space.
record WordEnd (s : Scanner) (r : Bool × Scanner) : Type 0 where
  ahead : Ahead 0 s r.1
  ended : r.0 ≡ true → read r.1 ≡ none
  spaced : r.0 ≡ false → (b : ℕ) × (read r.1 ≡ some b) × (is_space b ≡ true)

-- What `scanWord` leaves: a word that ends at a space or with the file, and is no longer than what it took.
pub record Scanned (s : Scanner) (r : Bytes × Bool × Scanner) : Type 0 where
  pub ahead : Ahead 0 s r.2
  pub ended : r.1 ≡ true → read r.2 ≡ none
  pub spaced : r.1 ≡ false → (b : ℕ) × (read r.2 ≡ some b) × (is_space b ≡ true)
  pub shorter : is_empty_text r.0 ≡ false → Ahead 1 s r.2
