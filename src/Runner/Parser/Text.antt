-- ===== src/Runner/Parser/Text.antt =====
-- Where a scanner stands in its source, and what the words and lines from there on are.
use sinq.Prelude.{
  ℕ, zero, suc, ◌+◌, ◌-◌, ◌≤◌, ◌<◌, ◌≡◌, refl, sym, ap, ◌∙◌, true, false, ◌||◌, none, some, [], ◌∷◌,
  ◌++◌, append_assoc, append-nil, Bytes, length, length-append, get_elem?, take, drop, ltb, ◌==◌,
  if◌then◌else◌, All, arith,
}
use sinq.Scanner.{Scanner, newline, read, advance, slice, left, new_byte_scanner}
use sinq.Spaces.{is_space}
use sinq.Runner.Parser.{
  is_blank, skip_loop, skip_whitespace, word_loop, scan_word, is_line_blank, line_loop, scan_line,
  next, line_break, carriage_return, line_from, next_line,
}

-- The scanner is behind `pre`, in front of `rest`.
pub record Stands (s : Scanner) (pre rest : Bytes) : Type 0 where
  pub all : s.source ≡ pre ++ rest
  pub at : s.current ≡ length pre

get_elem?-behind : (pre rest : Bytes) → get_elem? (pre ++ rest) (length pre) ≡ get_elem? rest 0
get_elem?-behind [] rest = refl
get_elem?-behind (b ∷ pre) rest = get_elem?-behind pre rest

pub read-Stands : {s : Scanner} {pre rest : Bytes} → Stands s pre rest → read s ≡ get_elem? rest 0
unfolding read
read-Stands {pre = pre} {rest = rest} h = rw (h.all, h.at) (get_elem?-behind pre rest)

pub advance-Stands :
    {s : Scanner} {pre rest : Bytes} {b : ℕ}
    → Stands s pre (b ∷ rest)
    → Stands (advance s) (pre ++ b ∷ []) rest
unfolding advance
advance-Stands {s} {pre} {rest} {b} h =
    let e : get_elem? s.source s.current ≡ some b = unfold read in read-Stands h in
    rw (e, advance)
      (record {
        all = h.all ∙ sym (append_assoc pre (b ∷ []) rest);
        at = omega (arith, h.at, length-append pre (b ∷ []));
      })

pub left-Stands : {s : Scanner} {pre rest : Bytes} → Stands s pre rest → left s ≡ length rest
unfolding left
left-Stands {pre = pre} {rest = rest} h = rw (h.all, h.at) (omega (arith, length-append pre rest))

drop-behind : (pre rest : Bytes) → drop (length pre) (pre ++ rest) ≡ rest
drop-behind [] rest = refl
drop-behind (b ∷ pre) rest = drop-behind pre rest

take-front : (mid post : Bytes) → take (length mid) (mid ++ post) ≡ mid
take-front [] post = refl
take-front (b ∷ mid) post = ap (λ l. b ∷ l) (take-front mid post)

in_bounds : (a b n : ℕ) → a + b ≤ n → (ltb (a + b) a || ltb n (a + b)) ≡ false
in_bounds a b n h = ground arith

pub slice-Stands :
    (s : Scanner) (pre mid post : Bytes)
    → Stands s pre (mid ++ post)
    → slice s s.current (some (length pre + length mid)) ≡ mid
unfolding slice
slice-Stands s pre mid post h =
    let n : length (pre ++ (mid ++ post)) ≡ length pre + (length mid + length post) =
      omega (arith, length-append pre (mid ++ post), length-append mid post) in
    let d : length pre + length mid - length pre ≡ length mid = omega arith in
    rw
      (
        h.all,
        h.at,
        in_bounds (length pre) (length mid) (length (pre ++ (mid ++ post))) (omega (arith, n)),
        d,
        drop-behind pre (mid ++ post),
        take-front mid post,
      )
      refl

-- What is left is the rest.
pub slice_rest-Stands :
    {s : Scanner} {pre rest : Bytes} → Stands s pre rest → slice s s.current none ≡ rest
unfolding slice
slice_rest-Stands {pre = pre} {rest = rest} h =
    let n : length (pre ++ rest) ≡ length pre + length rest = length-append pre rest in
    let d : length (pre ++ rest) - length pre ≡ length rest = omega (arith, n) in
    let ok : (ltb (length (pre ++ rest)) (length pre)
          || ltb (length (pre ++ rest)) (length (pre ++ rest)))
        ≡ false =
      ground (arith, n) in
    rw (h.all, h.at, ok, d, drop-behind pre rest)
      (ap (take (length rest)) (sym (append-nil rest)) ∙ take-front rest [])

pub new-Stands : (source : Bytes) → Stands (new_byte_scanner source) [] source
unfolding new_byte_scanner
new-Stands source = record { all = refl; at = refl }

-- A text that begins with no space or tab.
abbrev pub StartsFull : Bytes → Type 0
StartsFull [] = ⊥
StartsFull (b ∷ bs) = is_blank b ≡ false

skip_loop-Stands :
    (f : ℕ) {s : Scanner} {pre : Bytes} (rest : Bytes)
    → Stands s pre rest
    → StartsFull rest
    → skip_loop f s ≡ s
unfolding skip_loop
skip_loop-Stands zero rest h k = refl
skip_loop-Stands (suc f) [] h k = absurd k
skip_loop-Stands (suc f) (b ∷ bs) h k = rw (read-Stands h, k, skip_loop) refl

pub skip_full :
    {s : Scanner} {pre : Bytes} (rest : Bytes)
    → Stands s pre rest
    → StartsFull rest
    → skip_whitespace s ≡ s
unfolding skip_whitespace
skip_full {s} rest h k = skip_loop-Stands (suc (left s)) rest h k

-- One space in front of a text that begins with none.
pub skip_space :
    {s : Scanner} {pre : Bytes} (rest : Bytes)
    → Stands s pre (b' ' ∷ rest)
    → StartsFull rest
    → skip_whitespace s ≡ advance s
unfolding skip_whitespace skip_loop is_blank
skip_space {s} rest h k =
    rw (read-Stands h, skip_whitespace, skip_loop)
      (skip_loop-Stands (left s) rest (advance-Stands h) k)

-- A word: some bytes, none of which is a space.
abbrev pub NoSpace : Bytes → Type 0
NoSpace = All (λ b. is_space b ≡ false)

word_loop-Stands :
    (f : ℕ) (s : Scanner) (pre word : Bytes) (b : ℕ) (rest : Bytes)
    → Stands s pre (word ++ b ∷ rest)
    → NoSpace word
    → is_space b ≡ true
    → length word < f
    → (s' : Scanner) × (word_loop f s ≡ (false, s')) × Stands s' (pre ++ word) (b ∷ rest)
unfolding word_loop
word_loop-Stands zero s pre word b rest h w e l = absurd (omega arith)
word_loop-Stands (suc f) s pre [] b rest h w e l =
    (s, rw (read-Stands h, e, word_loop) refl, rw append-nil h)
word_loop-Stands (suc f) s pre (c ∷ word) b rest h w e l =
    let (s', q, k) =
      word_loop-Stands f (advance s) (pre ++ c ∷ []) word b rest (advance-Stands h) w.1 e
        (omega arith) in
    (s', rw (read-Stands h, w.0, word_loop) q, rw (← append_assoc pre (c ∷ []) word) k)

-- The word in front of which the scanner comes to stand.
pub scan_word-Stands :
    (s from : Scanner) (pre word : Bytes) (b : ℕ) (rest : Bytes)
    → skip_whitespace s ≡ from
    → Stands from pre (word ++ b ∷ rest)
    → NoSpace word
    → is_space b ≡ true
    → (s' : Scanner) × (scan_word s ≡ (word, false, s')) × Stands s' (pre ++ word) (b ∷ rest)
unfolding scan_word
scan_word-Stands s from pre word b rest q h w e =
    let l : left from ≡ length word + length (b ∷ rest) =
      left-Stands h ∙ length-append word (b ∷ rest) in
    let (s', r, k) =
      word_loop-Stands (suc (left from)) from pre word b rest h w e (omega (arith, l)) in
    let at : s'.current ≡ length pre + length word = k.at ∙ length-append pre word in
    (s', rw (q, r, at, slice-Stands from pre word (b ∷ rest) h) refl, k)

-- A line's value: no end of a line in it, and no space, tab or carriage return at its end.
abbrev pub EndsFull : Bytes → Type 0
EndsFull [] = Unit
EndsFull (b ∷ []) = is_line_blank b ≡ false
EndsFull (b ∷ c ∷ bs) = EndsFull (c ∷ bs)

abbrev pub NoNewline : Bytes → Type 0
NoNewline = All (λ b. (b == newline) ≡ false)

-- Where the loop of `scanLine` has met the last byte that is no space.
last_full : ℕ → ℕ → Bytes → ℕ
last_full last at [] = last
last_full last at (b ∷ bs) = last_full (if is_line_blank b then last else suc at) (suc at) bs

last_full-end :
    (last at b : ℕ) (bs : Bytes)
    → EndsFull (b ∷ bs)
    → last_full last at (b ∷ bs) ≡ suc at + length bs
unfolding last_full
last_full-end last at b [] h = rw h (omega arith)
last_full-end last at b (c ∷ bs) h =
    last_full-end (if is_line_blank b then last else suc at) (suc at) c bs h ∙ omega arith

line_loop-Stands :
    (f last at : ℕ) (s : Scanner) (pre value rest : Bytes)
    → Stands s pre (value ++ newline ∷ rest)
    → NoNewline value
    → length value < f
    → at ≡ length pre
    → (s' : Scanner) × (line_loop f last s ≡ (some (last_full last at value), s'))
      × Stands s' (pre ++ (value ++ newline ∷ [])) rest
unfolding line_loop last_full advance
line_loop-Stands zero last at s pre value rest h n l a = absurd (omega arith)
line_loop-Stands (suc f) last at s pre [] rest h n l a =
    (advance s, rw (read-Stands h, line_loop) refl, advance-Stands h)
line_loop-Stands (suc f) last at s pre (b ∷ value) rest h n l a =
    let h' = advance-Stands h in
    let a' : suc at ≡ length (pre ++ b ∷ []) = omega (arith, a, length-append pre (b ∷ [])) in
    let c : (advance s).current ≡ suc at = h'.at ∙ sym a' in
    let (s', q, k) =
      line_loop-Stands f (if is_line_blank b then last else suc at) (suc at) (advance s)
        (pre ++ b ∷ []) value rest h' n.1 (omega arith) a' in
    (
      s',
      rw (read-Stands h, n.0, c, line_loop) q,
      rw (← append_assoc pre (b ∷ []) (value ++ newline ∷ [])) k,
    )

pub scan_line-Stands :
    (s from : Scanner) (pre value rest : Bytes)
    → skip_whitespace s ≡ from
    → Stands from pre (value ++ newline ∷ rest)
    → NoNewline value
    → EndsFull value
    → (s' : Scanner) × (scan_line s ≡ (value, s')) × Stands s' (pre ++ (value ++ newline ∷ [])) rest
unfolding scan_line line_from
scan_line-Stands s from pre value rest q h n e =
    let l : left from ≡ length value + length (newline ∷ rest) =
      left-Stands h ∙ length-append value (newline ∷ rest) in
    let (s', r, k) =
      line_loop-Stands (suc (left from)) from.current (length pre) from pre value rest h n
        (omega (arith, l)) refl in
    (
      s',
      rw q (
          ap (line_from from) r
          ∙ rw (end value e, slice-Stands from pre value (newline ∷ rest) h, line_from) refl),
      k,
    )
  where
    end : (v : Bytes) → EndsFull v → last_full from.current (length pre) v ≡ length pre + length v
    end [] e' = unfold last_full in (h.at ∙ omega arith)
    end (b ∷ bs) e' = last_full-end from.current (length pre) b bs e' ∙ omega arith

-- At the end of a line.
pub next_line-Stands :
    (s : Scanner) (pre rest : Bytes)
    → Stands s pre (newline ∷ rest)
    → next_line s ≡ next (advance s)
unfolding next_line carriage_return line_break is_blank
next_line-Stands s pre rest h =
    rw (next_line, skip_full (newline ∷ rest) h refl) (ap (carriage_return s) (read-Stands h))
