-- ===== src/Scanner.antt =====
-- internal/scanner/byte-scanner.go: a cursor over a byte slice that counts lines and columns.
pub mod Position
use sinq.Prelude.{
  ℕ, zero, suc, ◌+◌, ◌-◌, Bool, true, false, ◌||◌, Option, none, some, List, [], Bytes, length,
  get_elem?, take, drop, leb, ltb, ◌==◌, if◌then◌else◌,
}

pub record Scanner : Type 0 where
  pub source : Bytes
  pub current : ℕ
  pub line_number : ℕ
  pub offset_number : ℕ

-- `NewByteScanner`
unfoldable pub new_byte_scanner : Bytes → Scanner
new_byte_scanner source = record {
  source = source;
  current = 0;
  line_number = 1;
  offset_number = 1;
}

-- `Read`; `none` is `io.EOF`.
unfoldable pub read : Scanner → Option ℕ
read s = get_elem? s.source s.current

abbrev pub newline : ℕ
newline = b'\n'

-- What `Advance` does at a byte.
advance_over : Scanner → ℕ → Scanner
advance_over s b = record s {
  current = s.current + 1;
  line_number = if b == newline then s.line_number + 1 else s.line_number;
  offset_number = if b == newline then 1 else s.offset_number + 1;
}

-- `Advance`
unfoldable pub advance : Scanner → Scanner
unfolding advance_over
advance s = elim (get_elem? s.source s.current) [ none ↦ s | some b ↦ advance_over s b ]

-- The byte before a position; `0b0` in front of the first.
byte_before : Bytes → ℕ → ℕ
byte_before source zero = 0
byte_before source (suc i) = elim (get_elem? source i) [ none ↦ 0 | some b ↦ b ]

-- `Previous`
unfoldable pub previous : Scanner → ℕ
unfolding byte_before
previous s = byte_before s.source s.current

abbrev cut : Bytes → ℕ → ℕ → Bytes
cut source from to =
    if ltb to from || ltb (length source) to then [] else take (to - from) (drop from source)

-- `Slice`; the end `none` is the source's -1. The callers pass no other negative number.
unfoldable pub slice : Scanner → ℕ → Option ℕ → Bytes
slice s from none = cut s.source from (length s.source)
slice s from (some to) = cut s.source from to

-- `Left`
unfoldable pub left : Scanner → ℕ
left s = length s.source - s.current
