-- ===== src/Reporter/Prefix.antt =====
-- internal/reporter/standard/prefixed-writer.go: a writer that puts a prefix in front of every line.
-- The writer below it is an argument: what it makes of some bytes, how many it took, and whether it
-- failed.
pub mod Lines
use sinq.Prelude.{
  ℕ, zero, suc, ◌+◌, ◌-◌, Bool, true, false, ◌&&◌, ◌||◌, Option, none, some, List, [], ◌∷◌, ◌++◌,
  Bytes, length, get_elem?, ltb, leb, ◌==◌, if◌then◌else◌,
}

abbrev pub newline : ℕ
newline = b'\n'

-- The loop of `unsafeSplit`; `line` is what lies between `start` and the index.
unfoldable pub split_loop : Bytes → Bytes → List Bytes
split_loop line [] = line ∷ []
split_loop line (b ∷ bs) =
    let next = (line ++ b ∷ []) ∷ split_loop [] bs in
    let more = split_loop (line ++ b ∷ []) bs in if b == newline then next else more

-- `unsafeSplit`: the lines with their ends, and what is behind the last end.
unfoldable pub unsafe_split : Bytes → List Bytes
unfolding split_loop
unsafe_split data_bytes = split_loop [] data_bytes

is_none {ℓ} : {A : Type ℓ} → List A → Bool
is_none [] = true
is_none (x ∷ xs) = false

-- `prefixedWriter`
pub record PrefixedWriter (U : Type 0) : Type 0 where
  pub prefix : Bytes
  pub underlying : U
  pub last_written : ℕ

-- What `Write` leaves and returns.
pub record Written (U : Type 0) : Type 0 where
  pub writer : PrefixedWriter U
  pub total : ℕ
  pub has_failed : Bool

-- The byte before the `n`-th of a piece, if `n` of its bytes were taken.
last_of : Bytes → ℕ → ℕ → ℕ
last_of piece n old =
    if ltb 0 n && leb n (length piece)
    then elim (get_elem? piece (n - 1)) [ none ↦ old | some b ↦ b ]
    else old

unfoldable pub at_start : ℕ → Bool
at_start last = last == newline || last == 0

module _ {U : Type 0} (write : U → Bytes → U × ℕ × Bool) where
  -- Behind the write of a piece; `again` is the rest of the loop.
  after_piece :
      (again : PrefixedWriter U → ℕ → Written U)
      → PrefixedWriter U
      → ℕ
      → Bytes
      → U × ℕ × Bool
      → Written U
  unfolding last_of
  after_piece again w total piece (u, n, err) =
      let w' = record w { underlying = u; last_written = last_of piece n w.last_written } in
      let rest = again w' (total + n) in
      if err then record { writer = w'; total = total + n; has_failed = true } else rest

  -- Behind the write of the prefix, if there was one.
  after_prefix :
      (again : PrefixedWriter U → ℕ → Written U)
      → PrefixedWriter U
      → ℕ
      → Bytes
      → U × Bool
      → Written U
  unfolding after_piece
  after_prefix again w total piece (u, err) =
      let w' = record w { underlying = u } in
      let rest = after_piece again w' total piece (write u piece) in
      if err then record { writer = w'; total = total; has_failed = true } else rest

  write_prefix : PrefixedWriter U → U × Bool
  unfolding at_start
  write_prefix w =
      let r = write w.underlying w.prefix in
      if at_start w.last_written then (r.0, r.2) else (w.underlying, false)

  -- The loop over the pieces; an empty one is left out if it is the last.
  write_pieces : List Bytes → PrefixedWriter U → ℕ → Written U
  unfolding after_prefix write_prefix is_none
  write_pieces [] w total = record { writer = w; total = total; has_failed = false }
  write_pieces (piece ∷ rest) w total =
      let skipped = write_pieces rest w total in
      let written = after_prefix (write_pieces rest) w total piece (write_prefix w) in
      if is_none piece && is_none rest then skipped else written

  -- `Write`
  unfoldable pub write_data : PrefixedWriter U → Bytes → Written U
  unfolding unsafe_split write_pieces
  write_data w bytes = write_pieces (unsafe_split bytes) w 0

  -- Several calls of `Write`, none of which fails.
  unfoldable pub write_each : PrefixedWriter U → List Bytes → PrefixedWriter U
  unfolding write_data
  write_each w [] = w
  write_each w (c ∷ cs) = write_each (write_data w c).writer cs
