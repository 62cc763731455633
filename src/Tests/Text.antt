-- ===== src/Tests/Text.antt =====
-- Requests read from their text, and output behind prefixes, at concrete inputs.
use sinq.Prelude.{
  ℕ, ◌≡◌, refl, Bool, true, false, Option, some, List, [], ◌∷◌, ◌++◌, Bytes, codes, length, equal,
}
use sinq.Runner.Parser.{
  equal_fold, Request, ok, err, unexpected_end, parse_request, is_blank, is_line_blank,
  is_empty_text, scan_word, skip_whitespace,
}
use sinq.Runner.Parser.Render.{Field, render}
use sinq.Runner.Parser.Fields.{IsRead, parse_request-IsRead}
use sinq.Reporter.Prefix.{PrefixedWriter, write_each, at_start}
use sinq.Reporter.Prefix.Lines.{prefixed, concat, write_each-prefixed}
use sinq.Scanner.{new_byte_scanner, read, advance, slice, left}
use sinq.Spaces.{is_space, to_lower}

abbrev any_url : Bytes → Option Bytes
any_url u = some u

abbrev is_absolute : Bytes → Bool
is_absolute u = true

abbrev host_h : Bytes → Bytes
host_h u = codes "h"

abbrev same_name : Bytes → Bytes
same_name n = n

abbrev accept : List Field
accept = record { name = codes "Accept"; value = codes "*/*" } ∷ []

lower_agent :
    (name : Bytes)
    → equal_fold name (codes "user-agent") ≡ equal (to_lower name) (to_lower (codes "User-Agent"))
unfolding equal_fold
lower_agent name = refl

parse_request-IsRead_example :
    (r : Request Bytes) × (parse_request any_url is_absolute host_h to_lower
        (render (codes "PUT") (codes "http://h") accept (codes "x"))
      ≡ ok r)
    × IsRead any_url is_absolute host_h to_lower
        (codes "PUT")
        (codes "http://h")
        accept
        (codes "x")
        r
unfolding is_space is_blank is_line_blank is_empty_text
parse_request-IsRead_example =
    parse_request-IsRead any_url is_absolute host_h to_lower lower_agent (codes "PUT")
      (codes "http://h") accept (codes "x") (codes "http://h") (refl, (refl, (refl, tt)))
      (refl, (refl, (refl, (refl, (refl, (refl, (refl, (refl, tt))))))))
      (
        (
          (refl, (refl, (refl, (refl, (refl, (refl, tt)))))),
          ((refl, (refl, (refl, tt))), refl, refl),
        ),
        tt,
      )
      refl refl refl

-- A request line with nothing behind it is not read.
line_without_end :
    parse_request any_url is_absolute host_h same_name (codes "GET http://h")
    ≡ err (unexpected_end 1)
unfolding parse_request new_byte_scanner read advance slice left is_space scan_word skip_whitespace
    is_blank is_empty_text
line_without_end = refl

abbrev append_all : Bytes → Bytes → Bytes × ℕ × Bool
append_all log bs = (log ++ bs, length bs, false)

abbrev the_log : Bytes → Bytes
the_log log = log

append_all-takes :
    (log bs : Bytes)
    → ((append_all log bs).1 ≡ length bs)
      × ((append_all log bs).2 ≡ false)
      × (the_log (append_all log bs).0 ≡ the_log log ++ bs)
append_all-takes log bs = (refl, refl, refl)

abbrev piped : PrefixedWriter Bytes
piped = record { prefix = codes "| "; underlying = []; last_written = 0 }

write_each-prefixed_example :
    the_log (write_each append_all piped (codes "a\nb" ∷ codes "c\n" ∷ [])).underlying
    ≡ the_log piped.underlying
      ++ prefixed piped.prefix
          (at_start piped.last_written)
          (concat (codes "a\nb" ∷ codes "c\n" ∷ []))
write_each-prefixed_example =
    write_each-prefixed append_all the_log append_all-takes (codes "a\nb" ∷ codes "c\n" ∷ []) piped
      ((refl, (refl, (refl, tt))), ((refl, (refl, tt)), tt))

piped_output :
    (write_each append_all piped (codes "a\nb" ∷ codes "c\n" ∷ [])).underlying ≡ codes "| a\n| bc\n"
unfolding write_each at_start
piped_output = refl

-- Behind a zero byte the prefix is put into the middle of a line.
zero_byte_splits :
    (write_each append_all piped ((b'a' ∷ 0 ∷ []) ∷ codes "b" ∷ [])).underlying
    ≡ codes "| a" ++ 0 ∷ codes "| b"
unfolding write_each at_start
zero_byte_splits = refl
