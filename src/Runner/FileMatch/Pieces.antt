-- ===== src/Runner/FileMatch/Pieces.antt =====
-- Comparing files piece by piece is comparing their contents.
use sinq.Prelude.{
  ℕ, zero, suc, ◌+◌, ◌≤◌, ◌<◌, ◌≡◌, ◌≢◌, refl, ap, Bool, true, false, ◌&&◌, inl, inr, none, [], ◌∷◌,
  Bytes, codes, length, take, drop, leb, equal, equal_iff, if◌then◌else◌, arith, Bool-cases,
}
use native.Mathlib.Decide.{dec_lt}
use sinq.Runner.{Worker, fail_assert, call}
use sinq.Runner.FileMatch.{
  Source, full, unexpected_eof, eof, Piece, short_read, read_full, Matched, matches, differs,
  after_reads, match_round, match_loop, opened, returned, matched, compare_opened, compare_files,
}

abbrev whole : Bytes → Source
whole bs = record { left = bs; broken = none }

abbrev verdict : Bool → Matched
verdict same = if same then matches else differs

length-drop : (n : ℕ) (bs : Bytes) → n ≤ length bs → length (drop n bs) + n ≡ length bs
length-drop zero bs h = omega arith
length-drop (suc n) [] h = absurd (omega arith)
length-drop (suc n) (b ∷ bs) h = omega (arith, length-drop n bs (omega arith))

length-take : (n : ℕ) (bs : Bytes) → n ≤ length bs → length (take n bs) ≡ n
length-take zero bs h = refl
length-take (suc n) [] h = absurd (omega arith)
length-take (suc n) (b ∷ bs) h = ap (λ m. suc m) (length-take n bs (omega arith))

-- Texts are equal just if their first parts and the parts behind are.
equal-parts :
    (n : ℕ) (xs ys : Bytes)
    → n ≤ length xs
    → n ≤ length ys
    → equal xs ys ≡ (equal (take n xs) (take n ys) && equal (drop n xs) (drop n ys))
unfolding equal
equal-parts zero xs ys h k = refl
equal-parts (suc n) [] ys h k = absurd (omega arith)
equal-parts (suc n) (x ∷ xs) [] h k = absurd (omega arith)
equal-parts (suc n) (x ∷ xs) (y ∷ ys) h k =
    ground (arith, equal-parts n xs ys (omega arith) (omega arith))

-- Texts of different lengths are different.
equal-length : (xs ys : Bytes) → equal xs ys ≡ true → length xs ≡ length ys
equal-length xs ys e = ap (λ l. length l) ((equal_iff xs ys).0 e)

leb-yes : (a b : ℕ) → a ≤ b → leb a b ≡ true
leb-yes a b h = ground arith

leb-no : (a b : ℕ) → b < a → leb a b ≡ false
leb-no a b h = ground arith

read_long :
    (size : ℕ) (bs : Bytes)
    → size ≤ length bs
    → read_full size (whole bs)
      ≡ record { bytes = take size bs; read_end = full; behind = whole (drop size bs) }
unfolding read_full
read_long size bs h = rw (leb-yes size (length bs) h) refl

read_short :
    (size b : ℕ) (bs : Bytes)
    → length (b ∷ bs) < size
    → read_full size (whole (b ∷ bs))
      ≡ record { bytes = b ∷ bs; read_end = unexpected_eof; behind = whole [] }
unfolding read_full short_read
read_short size b bs h = rw (leb-no size (length (b ∷ bs)) h) refl

read_none :
    (size : ℕ)
    → 0 < size
    → read_full size (whole []) ≡ record { bytes = []; read_end = eof; behind = whole [] }
unfolding read_full short_read
read_none size h = rw (leb-no size 0 h) refl

-- What is read of a text that is not empty.
data IsRead (size : ℕ) (bs : Bytes) : Piece → Type 0 where
  long :
      size ≤ length bs
      → IsRead size bs
          (record { bytes = take size bs; read_end = full; behind = whole (drop size bs) })
  short :
      length bs < size
      → IsRead size bs (record { bytes = bs; read_end = unexpected_eof; behind = whole [] })

read_full-IsRead :
    (size b : ℕ) (bs : Bytes) → IsRead size (b ∷ bs) (read_full size (whole (b ∷ bs)))
read_full-IsRead size b bs = elim (dec_lt (length (b ∷ bs)) size) [
  | yes l ↦ rw (read_short size b bs l) (short l)
  | no g ↦ rw (read_long size (b ∷ bs) (omega arith)) (long (omega arith))
]

unequal : (xs ys : Bytes) → length xs ≢ length ys → equal xs ys ≡ false
unequal xs ys h = elim (Bool-cases (equal xs ys)) [
  | inl y ↦ absurd (h (equal-length xs ys y))
  | inr n ↦ n
]

nothing_left :
    (size f t u : ℕ) → 0 < size → match_loop size (suc f) (whole []) (whole []) t u ≡ matches
unfolding match_loop match_round after_reads
nothing_left size f t u h = rw (read_none size h) refl

round-verdict :
    (size f t : ℕ) (xs ys : Bytes) (p q : Piece)
    → 0 < size
    → 0 < f
    → IsRead size xs p
    → IsRead size ys q
    → (size ≤ length xs
        → match_loop size f (whole (drop size xs)) (whole (drop size ys)) (t + size) (t + size)
          ≡ verdict (equal (drop size xs) (drop size ys)))
    → match_round (match_loop size f) p q t t ≡ verdict (equal xs ys)
unfolding match_round after_reads
round-verdict size f t xs ys p q z w (long h) (long k) ih =
    rw (length-take size xs h, length-take size ys k, ih h, equal-parts size xs ys h k)
      (ground arith)
round-verdict size f t xs ys p q z w (long h) (short k) ih =
    rw (length-take size xs h, unequal xs ys (λ e. absurd (omega (arith, e)))) (ground arith)
round-verdict size f t xs ys p q z w (short h) (long k) ih =
    rw (length-take size ys k, unequal xs ys (λ e. absurd (omega (arith, e)))) (ground arith)
round-verdict size zero t xs ys p q z w (short h) (short k) ih = absurd (omega arith)
round-verdict size (suc f) t xs ys p q z w (short h) (short k) ih =
    rw (nothing_left size f (t + length xs) (t + length ys) z) (ground (arith, equal-length xs ys))

one_ended :
    (again : Source → Source → ℕ → ℕ → Matched) (size y : ℕ) (ys : Bytes) (t : ℕ)
    → 0 < size
    → match_round again (read_full size (whole [])) (read_full size (whole (y ∷ ys))) t t ≡ differs
unfolding match_round after_reads
one_ended again size y ys t z =
    rw (read_none size z) (ends (read_full size (whole (y ∷ ys))) (read_full-IsRead size y ys))
  where
    ends :
        (q : Piece)
        → IsRead size (y ∷ ys) q
        → match_round again (record { bytes = []; read_end = eof; behind = whole [] }) q t t
          ≡ differs
    ends q (long h) = refl
    ends q (short h) = refl

other_ended :
    (again : Source → Source → ℕ → ℕ → Matched) (size x : ℕ) (xs : Bytes) (t : ℕ)
    → 0 < size
    → match_round again (read_full size (whole (x ∷ xs))) (read_full size (whole [])) t t ≡ differs
unfolding match_round after_reads
other_ended again size x xs t z =
    rw (read_none size z) (ends (read_full size (whole (x ∷ xs))) (read_full-IsRead size x xs))
  where
    ends :
        (p : Piece)
        → IsRead size (x ∷ xs) p
        → match_round again p (record { bytes = []; read_end = eof; behind = whole [] }) t t
          ≡ differs
    ends p (long h) = refl
    ends p (short h) = refl

match_loop-verdict :
    (size f t : ℕ) (xs ys : Bytes)
    → 0 < size
    → length xs < f
    → match_loop size f (whole xs) (whole ys) t t ≡ verdict (equal xs ys)
unfolding match_loop equal
match_loop-verdict size zero t xs ys z h = absurd (omega arith)
match_loop-verdict size (suc f) t [] [] z h = nothing_left size f t t z
match_loop-verdict size (suc f) t [] (y ∷ ys) z h =
    one_ended (λ a b u v. match_loop size f a b u v) size y ys t z
match_loop-verdict size (suc f) t (x ∷ xs) [] z h =
    other_ended (λ a b u v. match_loop size f a b u v) size x xs t z
match_loop-verdict size (suc f) t (x ∷ xs) (y ∷ ys) z h =
    round-verdict size f t (x ∷ xs) (y ∷ ys) _ _ z (omega arith) (read_full-IsRead size x xs)
      (read_full-IsRead size y ys)
      (λ l. match_loop-verdict size f (t + size) _ _ z (omega (arith, length-drop size (x ∷ xs) l)))

-- The call to which a response was saved, and the other file, both of which can be opened and read to
-- their ends: it comes back, and has recorded a failed assertion just if the contents differ, whatever
-- the size of the buffer is.
pub compare_files-equal :
    (size : ℕ) (w : Worker) (b : ℕ) (name : Bytes) (saved other : Bytes)
    → 0 < size
    → compare_files size w
        (b ∷ name)
        (opened (record { left = saved; broken = none }))
        (opened (record { left = other; broken = none }))
      ≡ returned (
          if equal saved other
          then w
          else call w (fail_assert (codes "Saved response and file did not match")))
unfolding compare_files compare_opened
compare_files-equal size w b name saved other z =
    rw (match_loop-verdict size (suc (suc (length saved))) 0 saved other z (omega arith))
      (ends (equal saved other))
  where
    ends :
        (same : Bool)
        → matched w (verdict same)
          ≡ returned (
              if same
              then w
              else call w (fail_assert (codes "Saved response and file did not match")))
    ends true = unfold matched in refl
    ends false = unfold matched in refl
