-- ===== src/Runner/FileMatch.antt =====
-- `compareFiles` of internal/runner/lua-utility.go, the assertion that a saved response is the same as a
-- file, read in pieces. The context does not end on the way.
pub mod Pieces
use sinq.Prelude.{
  ℕ, zero, suc, ◌+◌, Bool, true, false, ◌&&◌, Option, none, some, List, [], ◌∷◌, ◌++◌, Bytes, codes,
  length, take, drop, leb, ◌==◌, equal, if◌then◌else◌,
}
use sinq.Runner.{Failure, Worker, Call, fail_assert, call}

-- An open file: what is left of it, and the error with which reading it breaks off there, if any.
pub record Source : Type 0 where
  pub left : Bytes
  pub broken : Option Failure

-- The error of `io.ReadFull`
pub data ReadEnd : Type 0 where
  full unexpected_eof eof : ReadEnd
  failed : Failure → ReadEnd

pub record Piece : Type 0 where
  pub bytes : Bytes
  pub read_end : ReadEnd
  pub behind : Source

short_read : Source → Piece
short_read s = record {
  bytes = s.left;
  read_end = elim s.broken [
    | some e ↦ failed e
    | none ↦ elim s.left [ [] ↦ eof | b ∷ bs ↦ unexpected_eof ]
  ];
  behind = record s { left = [] };
}

-- `io.ReadFull`, into a buffer of a size
pub read_full : ℕ → Source → Piece
unfolding short_read
read_full size s =
    if leb size (length s.left)
    then record {
      bytes = take size s.left;
      read_end = full;
      behind = record s { left = drop size s.left };
    }
    else short_read s

-- What the loop comes to.
pub data Matched : Type 0 where
  matches differs out_of_fuel : Matched
  raises : Failure → Matched

-- Behind the two reads, `rest` is what the next round comes to.
pub after_reads : ReadEnd → ReadEnd → (same : Bool) → (rest : Matched) → Matched
after_reads (failed e) _ same rest = raises e
after_reads eof (failed e) same rest = raises e
after_reads eof eof same rest = matches
after_reads eof full same rest = differs
after_reads eof unexpected_eof same rest = differs
after_reads full (failed e) same rest = raises e
after_reads full eof same rest = differs
after_reads full full same rest = if same then rest else differs
after_reads full unexpected_eof same rest = if same then rest else differs
after_reads unexpected_eof (failed e) same rest = raises e
after_reads unexpected_eof eof same rest = differs
after_reads unexpected_eof full same rest = if same then rest else differs
after_reads unexpected_eof unexpected_eof same rest = if same then rest else differs

-- A round of the loop; `total_req` and `total_file` are what was read before.
pub match_round : (again : Source → Source → ℕ → ℕ → Matched) → Piece → Piece → ℕ → ℕ → Matched
unfolding after_reads
match_round again p q total_req total_file =
    let read_req = total_req + length p.bytes in
    let read_file = total_file + length q.bytes in
    let rest = again p.behind q.behind read_req read_file in
    after_reads p.read_end q.read_end (read_req == read_file && equal p.bytes q.bytes) rest

pub match_loop : (size fuel : ℕ) → Source → Source → ℕ → ℕ → Matched
unfolding match_round read_full
match_loop size zero a b total_req total_file = out_of_fuel
match_loop size (suc f) a b total_req total_file =
    match_round (match_loop size f) (read_full size a) (read_full size b) total_req total_file

-- What `Open` gives.
pub data Opened : Type 0 where
  opened : Source → Opened
  not_opened : Failure → Opened

-- What the call comes back with: the worker, and whether it raised an error.
pub data MatchResult : Type 0 where
  returned : Worker → MatchResult
  not_saved : MatchResult
  raised : Failure → MatchResult
  still_running : MatchResult

matched : Worker → Matched → MatchResult
unfolding call
matched w matches = returned w
matched w differs = returned (call w (fail_assert (codes "Saved response and file did not match")))
matched w (raises e) = raised e
matched w out_of_fuel = still_running

-- Each round but the last two takes a byte of the first file.
pub compare_opened : ℕ → Worker → Opened → Opened → MatchResult
unfolding match_loop matched
compare_opened size w (not_opened e) other = raised e
compare_opened size w (opened a) (not_opened e) = raised e
compare_opened size w (opened a) (opened b) =
    matched w (match_loop size (suc (suc (length a.left))) a b 0 0)

-- `compareFiles`, with a buffer of a size, for the name that the response was saved under, and what
-- opening it and the other file gives.
unfoldable pub compare_files :
    (size : ℕ) → Worker → (save_to : Bytes) → Opened → Opened → MatchResult
unfolding compare_opened
compare_files size w [] saved other = not_saved
compare_files size w (b ∷ name) saved other = compare_opened size w saved other

-- `32*1<<10`
abbrev pub buffer_size : ℕ
buffer_size = 32768
