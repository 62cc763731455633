-- ===== src/Runner/Parser/Fuel/Requests.antt =====
-- Reading a request ends, whatever the text is.
use sinq.Prelude.{◌≡◌, Bool, Option, List, Bytes, length}
use sinq.Scanner.{Scanner}
use sinq.Scanner.Position.{Ahead}
use sinq.Runner.Parser.{NextLine, next, at_eof, bad, ParseError, Parse, ok, err, Request}

-- The result is an error, or a value with the property: the fuel sufficed.
pub data Ends {A : Type 0} (P : A → Type 0) : Parse A → Type 0 where
  done : {a : A} → P a → Ends P (ok a)
  failed : {e : ParseError} → Ends P (err e)

abbrev BehindWords : Scanner → List Bytes × Scanner → Type 0
BehindWords s r = Ahead 0 s r.1

-- The next line is further on.
abbrev Further : Scanner → NextLine → Type 0
Further s (next t) = Ahead 0 s t
Further s at_eof = Unit
Further s (bad e) = Unit

module _ {Url : Type 0} (parse_url : Bytes → Option Url) (is_abs : Url → Bool)
    (host_of : Url → Bytes) (canonical : Bytes → Bytes) where
  -- The length that the request carries is that of its body.
  pub record IsMeasured (r : Request Url) : Type 0 where
    pub counted : r.content_length ≡ length r.body

  abbrev BehindHeaders : Scanner → Request Url × Scanner → Type 0
  BehindHeaders s r = IsMeasured r.0 × Ahead 0 s r.1
