-- ===== src/Scanner/Position.antt =====
-- What the scanner's position means, and how far each operation moves it.
use sinq.Prelude.{
  ℕ, zero, suc, ◌+◌, ◌≤◌, ◌≡◌, refl, ap, ◌∙◌, none, some, [], ◌∷◌, Bytes, length, get_elem?, take,
  arith, ◌==◌, if◌then◌else◌, get_elem?-some, Option-cases, inl, inr,
}
use sinq.Scanner.{Scanner, newline, new_byte_scanner, read, advance, left}

-- Line and column after a text, counted from those before it.
abbrev pub line_after : ℕ → Bytes → ℕ
line_after n [] = n
line_after n (b ∷ bs) = line_after (if b == newline then n + 1 else n) bs

abbrev pub column_after : ℕ → Bytes → ℕ
column_after n [] = n
column_after n (b ∷ bs) = column_after (if b == newline then 1 else n + 1) bs

-- The cursor lies in the source, and its line and column are those of the text before it.
pub record IsPlaced (s : Scanner) : Type 0 where
  pub within : s.current ≤ length s.source
  pub line : s.line_number ≡ line_after 1 (take s.current s.source)
  pub column : s.offset_number ≡ column_after 1 (take s.current s.source)

pub new_byte_scanner-IsPlaced : (source : Bytes) → IsPlaced (new_byte_scanner source)
unfolding new_byte_scanner
new_byte_scanner-IsPlaced source = record { within = omega arith; line = refl; column = refl }

line_after-take :
    (bs : Bytes) (n i : ℕ) {b : ℕ}
    → get_elem? bs i ≡ some b
    → line_after n (take (suc i) bs)
      ≡ (if b == newline then line_after n (take i bs) + 1 else line_after n (take i bs))
line_after-take [] n i h = cc
line_after-take (x ∷ bs) n zero h = ground arith
line_after-take (x ∷ bs) n (suc i) h = line_after-take bs (if x == newline then n + 1 else n) i h

column_after-take :
    (bs : Bytes) (n i : ℕ) {b : ℕ}
    → get_elem? bs i ≡ some b
    → column_after n (take (suc i) bs)
      ≡ (if b == newline then 1 else column_after n (take i bs) + 1)
column_after-take [] n i h = cc
column_after-take (x ∷ bs) n zero h = ground arith
column_after-take (x ∷ bs) n (suc i) h =
    column_after-take bs (if x == newline then 1 else n + 1) i h

take_step : (s : Scanner) → take (s.current + 1) s.source ≡ take (suc s.current) s.source
take_step s = let e : s.current + 1 ≡ suc s.current = omega arith in rw e

-- Advancing keeps the cursor in the source, at the line and column of the text before it.
pub advance-IsPlaced : (s : Scanner) → IsPlaced s → IsPlaced (advance s)
unfolding advance
advance-IsPlaced s v = elim (Option-cases (get_elem? s.source s.current)) [
  | inl e ↦ rw (e, advance) v
  | inr (b, e) ↦
      rw (e, advance)
        (record {
          within = omega (arith, get_elem?-some s.source s.current e);
          line = rw take_step (ground (arith, line_after-take s.source 1 s.current e, v.line));
          column =
              rw take_step (ground (arith, column_after-take s.source 1 s.current e, v.column));
        })
]

-- `t` is the scanner `s` at least `n` bytes further on.
pub record Ahead (n : ℕ) (s t : Scanner) : Type 0 where
  pub same : t.source ≡ s.source
  pub moved : s.current + n ≤ t.current
  pub within : t.current ≤ length t.source

pub advance-Ahead : (s : Scanner) {b : ℕ} → read s ≡ some b → Ahead 1 s (advance s)
unfolding advance read
advance-Ahead s {b} h =
    rw (h, advance)
      (record {
        same = refl;
        moved = omega arith;
        within = omega (arith, get_elem?-some s.source s.current h);
      })

pub advance-current : (s : Scanner) {b : ℕ} → read s ≡ some b → (advance s).current ≡ s.current + 1
unfolding advance read
advance-current s h = rw (h, advance)

pub Ahead-refl : (s : Scanner) → s.current ≤ length s.source → Ahead 0 s s
Ahead-refl s v = record { same = refl; moved = omega arith; within = v }

pub Ahead-trans :
    (k : ℕ) {n m : ℕ} {s t u : Scanner} → Ahead n s t → Ahead m t u → k ≤ n + m → Ahead k s u
Ahead-trans k a b h = record {
  same = b.same ∙ a.same;
  moved = omega (arith, a.moved, b.moved);
  within = b.within;
}

pub advance_eof : (s : Scanner) → read s ≡ none → advance s ≡ s
unfolding advance read
advance_eof s h = rw (h, advance)

pub Ahead-left : {n : ℕ} {s t : Scanner} → Ahead n s t → left t + n ≤ left s
unfolding left
Ahead-left {s = s} {t = t} a = omega (arith, ap length a.same, a.moved, a.within)
