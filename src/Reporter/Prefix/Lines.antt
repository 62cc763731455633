-- ===== src/Reporter/Prefix/Lines.antt =====
-- The output of the prefixed writer is the input with a prefix in front of every line, however the
-- input is cut into calls.
use sinq.Prelude.{
  ℕ, suc, ◌+◌, ◌-◌, ◌≡◌, refl, sym, ap, ◌∙◌, Bool, true, false, ◌&&◌, inl, inr, some, List, [], ◌∷◌,
  ◌++◌, append_assoc, append-nil, Bytes, length, length-append, get_elem?, ltb, leb, ◌==◌,
  if◌then◌else◌, All, All-append, subst, arith, Bool-cases,
}
use sinq.Reporter.Prefix.{
  newline, split_loop, unsafe_split, is_none, PrefixedWriter, Written, last_of, at_start,
  after_piece, after_prefix, write_prefix, write_pieces, write_data, write_each,
}

-- The text with the prefix in front of every line, the first of which has begun unless `fresh`.
pub prefixed : Bytes → Bool → Bytes → Bytes
prefixed pre fresh [] = []
prefixed pre fresh (b ∷ bs) = (if fresh then pre else []) ++ b ∷ prefixed pre (b == newline) bs

-- Whether a line begins behind the text.
pub fresh_behind : Bool → Bytes → Bool
fresh_behind fresh [] = fresh
fresh_behind fresh (b ∷ bs) = fresh_behind (b == newline) bs

abbrev NoNewline : Bytes → Type 0
NoNewline = All (λ b. (b == newline) ≡ false)

-- No byte is zero, which the writer takes for the start of the output.
abbrev pub NoZero : Bytes → Type 0
NoZero = All (λ b. (b == 0) ≡ false)

-- The calls' texts, one behind the other.
abbrev pub concat : List Bytes → Bytes
concat [] = []
concat (c ∷ cs) = c ++ concat cs

prefixed-append :
    (pre a b : Bytes) (fresh : Bool)
    → prefixed pre fresh (a ++ b) ≡ prefixed pre fresh a ++ prefixed pre (fresh_behind fresh a) b
unfolding prefixed fresh_behind
prefixed-append pre [] b fresh = refl
prefixed-append pre (x ∷ a) b fresh =
    rw (prefixed-append pre a b (x == newline))
      (sym (append_assoc (if fresh then pre else []) (x ∷ prefixed pre (x == newline) a) _))

All-take : (P : ℕ → Type 0) (xs ys : Bytes) → All P (xs ++ ys) → All P xs
All-take P [] ys h = tt
All-take P (x ∷ xs) ys h = (h.0, All-take P xs ys h.1)

All-drop : (P : ℕ → Type 0) (xs ys : Bytes) → All P (xs ++ ys) → All P ys
All-drop P [] ys h = h
All-drop P (x ∷ xs) ys h = All-drop P xs ys h.1

-- A piece that has no newline before its last byte.
prefixed-line :
    (pre line : Bytes) (b : ℕ) (fresh : Bool) (bs : Bytes)
    → NoNewline line
    → prefixed pre fresh ((line ++ b ∷ []) ++ bs)
      ≡ (if fresh then pre else []) ++ ((line ++ b ∷ []) ++ prefixed pre (b == newline) bs)
unfolding prefixed
prefixed-line pre [] b fresh bs h = refl
prefixed-line pre (c ∷ line) b fresh bs h = rw (h.0, prefixed-line pre line b false bs h.1) refl

fresh_behind-line :
    (line : Bytes) (b : ℕ) (fresh : Bool) (bs : Bytes)
    → fresh_behind fresh ((line ++ b ∷ []) ++ bs) ≡ fresh_behind (b == newline) bs
unfolding fresh_behind
fresh_behind-line [] b fresh bs = refl
fresh_behind-line (c ∷ line) b fresh bs = fresh_behind-line line b (c == newline) bs

get_elem?-last : (line : Bytes) (b : ℕ) → get_elem? (line ++ b ∷ []) (length line) ≡ some b
get_elem?-last [] b = refl
get_elem?-last (c ∷ line) b = get_elem?-last line b

in_range : (n : ℕ) → (ltb 0 (suc n) && leb (suc n) (suc n)) ≡ true
in_range n = ground arith

pred_suc : (n : ℕ) → suc n - 1 ≡ n
pred_suc n = omega arith

last_of-line :
    (line : Bytes) (b old : ℕ) → last_of (line ++ b ∷ []) (length (line ++ b ∷ [])) old ≡ b
unfolding last_of
last_of-line line b old =
    let e : length (line ++ b ∷ []) ≡ suc (length line) =
      omega (arith, length-append line (b ∷ [])) in
    rw (e, in_range (length line), pred_suc (length line), get_elem?-last line b) refl

is_none-line : (line : Bytes) (b : ℕ) → is_none (line ++ b ∷ []) ≡ false
unfolding is_none
is_none-line [] b = refl
is_none-line (c ∷ line) b = refl

at_start-newline : (b : ℕ) → (b == 0) ≡ false → at_start b ≡ (b == newline)
unfolding at_start
at_start-newline b h = elim (Bool-cases (b == newline)) [
  | inl y ↦ rw y refl
  | inr n ↦ rw (n, h) refl
]

-- A text is empty, or ends in a byte.
end_of : (c : ℕ) (line : Bytes) → (init : Bytes) × (b : ℕ) × (c ∷ line ≡ init ++ b ∷ [])
end_of c [] = ([], c, refl)
end_of c (d ∷ line) = let (init, b, e) = end_of d line in (c ∷ init, b, ap (λ l. c ∷ l) e)

-- What a write of the data leaves, on a writer below that takes everything.
module _ {U : Type 0} (write : U → Bytes → U × ℕ × Bool) (content : U → Bytes)
    (takes : (u : U) (bs : Bytes)
      → ((write u bs).1 ≡ length bs)
        × ((write u bs).2 ≡ false)
        × (content (write u bs).0 ≡ content u ++ bs)) where
  pub record Wrote (w : PrefixedWriter U) (total : ℕ) (d : Bytes) (r : Written U) : Type 0 where
    pub text :
        content r.writer.underlying
        ≡ content w.underlying ++ prefixed w.prefix (at_start w.last_written) d
    pub same : r.writer.prefix ≡ w.prefix
    pub fresh : at_start r.writer.last_written ≡ fresh_behind (at_start w.last_written) d
    pub counted : r.total ≡ total + length d
    pub fine : r.has_failed ≡ false

  -- The writer behind a piece.
  behind : PrefixedWriter U → Bytes → ℕ → PrefixedWriter U
  behind w piece b = record {
    prefix = w.prefix;
    underlying = (write (write_prefix write w).0 piece).0;
    last_written = b;
  }

  write_prefix-fine : (w : PrefixedWriter U) → (write_prefix write w).1 ≡ false
  unfolding write_prefix
  write_prefix-fine w = ground (arith, takes w.underlying w.prefix)

  write_prefix-content :
      (w : PrefixedWriter U)
      → content (write_prefix write w).0
        ≡ content w.underlying ++ (if at_start w.last_written then w.prefix else [])
  unfolding write_prefix
  write_prefix-content w = elim (Bool-cases (at_start w.last_written)) [
    | inl y ↦ rw (y, write_prefix) ((takes w.underlying w.prefix).2)
    | inr n ↦ rw (n, write_prefix) (sym (append-nil _))
  ]

  after_piece-fine :
      (again : PrefixedWriter U → ℕ → Written U) (w : PrefixedWriter U) (total : ℕ) (piece : Bytes)
      (r : U × ℕ × Bool)
      → r.1 ≡ length piece
      → r.2 ≡ false
      → after_piece write again w total piece r
        ≡ again
            (record {
              prefix = w.prefix;
              underlying = r.0;
              last_written = last_of piece (length piece) w.last_written;
            })
            (total + length piece)
  unfolding after_piece
  after_piece-fine again w total piece (u, n, err) h k = rw (h, k) refl

  after_prefix-fine :
      (again : PrefixedWriter U → ℕ → Written U) (w : PrefixedWriter U) (total : ℕ) (piece : Bytes)
      (r : U × Bool)
      → r.1 ≡ false
      → after_prefix write again w total piece r
        ≡ after_piece write again (record w { underlying = r.0 }) total piece (write r.0 piece)
  unfolding after_prefix
  after_prefix-fine again w total piece (u, err) h = rw h refl

  piece_step :
      (line : Bytes) (b : ℕ) (rest : List Bytes) (w : PrefixedWriter U) (total : ℕ)
      → write_pieces write ((line ++ b ∷ []) ∷ rest) w total
        ≡ write_pieces write rest (behind w (line ++ b ∷ []) b) (total + length (line ++ b ∷ []))
  unfolding write_pieces behind
  piece_step line b rest w total =
      let p = write_prefix write w in
      let piece = line ++ b ∷ [] in
      let again = λ (w' : PrefixedWriter U) (t : ℕ). write_pieces write rest w' t in
      rw (is_none-line line b) (
        after_prefix-fine again w total piece p (write_prefix-fine w)
        ∙ after_piece-fine again (record w { underlying = p.0 }) total piece (write p.0 piece)
            (takes p.0 piece).0 (takes p.0 piece).1
        ∙ rw (last_of-line line b w.last_written) refl)

  -- A piece, and then what the rest makes of the writer behind it.
  piece-Wrote :
      (line : Bytes) (b : ℕ) (rest : List Bytes) (w : PrefixedWriter U) (total : ℕ) (d : Bytes)
      → NoNewline line
      → (b == 0) ≡ false
      → Wrote
          (behind w (line ++ b ∷ []) b)
          (total + length (line ++ b ∷ []))
          d
          (write_pieces write rest (behind w (line ++ b ∷ []) b) (total + length (line ++ b ∷ [])))
      → Wrote w total ((line ++ b ∷ []) ++ d) (write_pieces write ((line ++ b ∷ []) ∷ rest) w total)
  unfolding behind
  piece-Wrote line b rest w total d h z r =
      let piece = line ++ b ∷ [] in
      let p = write_prefix write w in
      let pre = (if at_start w.last_written then w.prefix else []) in
      let more = prefixed w.prefix (b == newline) d in
      rw (piece_step line b rest w total) (record {
        text =
            r.text
            ∙ rw
                (
                  at_start-newline b z,
                  (takes p.0 piece).2,
                  write_prefix-content w,
                  prefixed-line w.prefix line b (at_start w.last_written) d h,
                )
                (append_assoc (content w.underlying ++ pre) piece more
                  ∙ append_assoc (content w.underlying) pre (piece ++ more));
        same = r.same;
        fresh =
            r.fresh
            ∙ rw (at_start-newline b z, fresh_behind-line line b (at_start w.last_written) d) refl;
        counted = omega (arith, r.counted, length-append piece d);
        fine = r.fine;
      })

  nothing-Wrote :
      (w : PrefixedWriter U) (total : ℕ) → Wrote w total [] (write_pieces write [] w total)
  unfolding write_pieces prefixed fresh_behind
  nothing-Wrote w total = record {
    text = sym (append-nil _);
    same = refl;
    fresh = refl;
    counted = omega arith;
    fine = refl;
  }

  -- What is behind the last end of a line.
  last-Wrote :
      (line : Bytes) (w : PrefixedWriter U) (total : ℕ)
      → NoNewline line
      → NoZero line
      → Wrote w total (line ++ []) (write_pieces write (line ∷ []) w total)
  last-Wrote [] w total h z = unfold write_pieces is_none in nothing-Wrote w total
  last-Wrote (c ∷ line) w total h z =
      let (init, b, e) = end_of c line in
      let h' = All-take _ init (b ∷ []) (subst NoNewline e h) in
      let z' = All-drop _ init (b ∷ []) (subst NoZero e z) in
      subst (λ l. Wrote w total (l ++ []) (write_pieces write (l ∷ []) w total)) (sym e)
        (piece-Wrote init b [] w total [] h' z'.0 (nothing-Wrote _ _))

  write_pieces-Wrote :
      (line bs : Bytes) (w : PrefixedWriter U) (total : ℕ)
      → NoNewline line
      → NoZero line
      → NoZero bs
      → Wrote w total (line ++ bs) (write_pieces write (split_loop line bs) w total)
  unfolding split_loop
  write_pieces-Wrote line [] w total h z k = last-Wrote line w total h z
  write_pieces-Wrote line (b ∷ bs) w total h z k =
      rw (← append_assoc line (b ∷ []) bs) (elim (Bool-cases (b == newline)) [
        | inl y ↦ rw y (
            piece-Wrote line b (split_loop [] bs) w total bs h k.0
              (write_pieces-Wrote [] bs _ _ tt tt k.1))
        | inr n ↦ rw n (
            write_pieces-Wrote (line ++ b ∷ []) bs w total (All-append _ line (b ∷ []) h (n, tt))
              (All-append _ line (b ∷ []) z (k.0, tt)) k.1)
      ])

  write_data-Wrote :
      (w : PrefixedWriter U) (d : Bytes) → NoZero d → Wrote w 0 d (write_data write w d)
  unfolding write_data unsafe_split
  write_data-Wrote w d z = write_pieces-Wrote [] d w 0 tt tt z

  -- However some text without zero bytes is cut into calls of `Write`, on a writer below that takes
  -- all it is given: what comes out is the text with the prefix in front of each of its lines,
  -- the first of which goes on the line that was begun before, if there is one.
  pub write_each-prefixed :
      (cs : List Bytes) (w : PrefixedWriter U)
      → All NoZero cs
      → content (write_each write w cs).underlying
        ≡ content w.underlying ++ prefixed w.prefix (at_start w.last_written) (concat cs)
  unfolding write_each prefixed
  write_each-prefixed [] w z = sym (append-nil _)
  write_each-prefixed (c ∷ cs) w z =
      let v = write_data-Wrote w c z.0 in
      write_each-prefixed cs (write_data write w c).writer z.1
      ∙ rw
          (
            v.text,
            v.same,
            v.fresh,
            prefixed-append w.prefix c (concat cs) (at_start w.last_written),
          )
          (append_assoc (content w.underlying) _ _)
