-- ===== src/Runner/Parser/Render.antt =====
-- A request that is written out is read back.
pub mod Requests
use sinq.Prelude.{
  ℕ, zero, suc, ◌≤◌, ◌<◌, ◌≡◌, refl, ap, ◌∙◌, Bool, true, false, Option, some, List, [], ◌∷◌, ◌++◌,
  Bytes, codes, length, length-append, All, All-append, arith,
}
use sinq.Scanner.{Scanner, newline, advance, left, new_byte_scanner}
use sinq.Spaces.{is_space}
use sinq.Runner.Parser.{
  is_blank, scan_word, is_empty_text, ends_in_colon, without_last, Parse, ok, ◌>>=◌, Request,
  user_agent, scan_words, words_round, with_url, request_of_words, scan_request_line, add_field,
  header_field, header_round, header_loop, scan_headers, after_headers, after_request_line,
  parse_request,
}
use sinq.Runner.Parser.Text.{
  Stands, advance-Stands, left-Stands, slice_rest-Stands, new-Stands, StartsFull, skip_full,
  skip_space, NoSpace, NoNewline, EndsFull, scan_word-Stands, scan_line-Stands, next_line-Stands,
}

-- A word of the request line, and the name of a header field.
abbrev pub IsWord : Bytes → Type 0
IsWord [] = ⊥
IsWord (b ∷ bs) = NoSpace (b ∷ bs)

-- The value of a header field: it begins and ends with no blank, and has no end of a line in it.
abbrev pub IsValue : Bytes → Type 0
IsValue v = NoNewline v × EndsFull v × StartsFull (v ++ newline ∷ [])

pub record Field : Type 0 where
  pub name : Bytes
  pub value : Bytes

abbrev pub IsField : Field → Type 0
IsField f = NoSpace f.name × IsValue f.value

-- The fields, one to a line, and what is behind them.
pub render_fields : List Field → Bytes → Bytes
render_fields [] rest = rest
render_fields (f ∷ fs) rest =
    (f.name ++ b':' ∷ []) ++ (b' ' ∷ (f.value ++ (newline ∷ render_fields fs rest)))

-- A request as it is written.
pub render : (method url : Bytes) → List Field → Bytes → Bytes
unfolding render_fields
render method url fs body =
    method
    ++ (b' '
        ∷ (url ++ (b' ' ∷ (codes "HTTP/1.1" ++ (newline ∷ render_fields fs (newline ∷ body))))))

blank_of_space : (b : ℕ) → is_space b ≡ false → is_blank b ≡ false
unfolding is_space is_blank
blank_of_space b h = ground (arith, h)

word_colon : (name : Bytes) → ends_in_colon (name ++ b':' ∷ []) ≡ true
unfolding ends_in_colon
word_colon [] = refl
word_colon (b ∷ []) = refl
word_colon (b ∷ c ∷ bs) = word_colon (c ∷ bs)

word_before_colon : (name : Bytes) → without_last (name ++ b':' ∷ []) ≡ name
unfolding without_last
word_before_colon [] = refl
word_before_colon (b ∷ []) = refl
word_before_colon (b ∷ c ∷ bs) = ap (λ l. b ∷ l) (word_before_colon (c ∷ bs))

not_empty : (name : Bytes) (b : ℕ) → is_empty_text (name ++ b ∷ []) ≡ false
unfolding is_empty_text
not_empty [] b = refl
not_empty (c ∷ bs) b = refl

word_starts :
    (word : Bytes) (b : ℕ) (rest : Bytes)
    → NoSpace word
    → is_blank b ≡ false
    → StartsFull (word ++ b ∷ rest)
word_starts [] b rest h k = k
word_starts (c ∷ word) b rest h k = blank_of_space c h.0

-- The next word behind one space.
word_behind_space :
    (s : Scanner) (pre word : Bytes) (b : ℕ) (rest : Bytes)
    → Stands s pre (b' ' ∷ (word ++ (b ∷ rest)))
    → IsWord word
    → is_space b ≡ true
    → (s' : Scanner) × (scan_word s ≡ (word, false, s'))
      × Stands s' ((pre ++ b' ' ∷ []) ++ word) (b ∷ rest)
word_behind_space s pre [] b rest h w e = absurd w
word_behind_space s pre (c ∷ word) b rest h w e =
    scan_word-Stands s (advance s) (pre ++ b' ' ∷ []) (c ∷ word) b rest
      (skip_space _ h (blank_of_space c w.0)) (advance-Stands h) w e

-- The word at a place where no space stands.
word_here :
    (s : Scanner) (pre word : Bytes) (b : ℕ) (rest : Bytes)
    → Stands s pre (word ++ (b ∷ rest))
    → NoSpace word
    → is_space b ≡ true
    → StartsFull (word ++ (b ∷ rest))
    → (s' : Scanner) × (scan_word s ≡ (word, false, s')) × Stands s' (pre ++ word) (b ∷ rest)
word_here s pre word b rest h w e k = scan_word-Stands s s pre word b rest (skip_full _ h k) h w e

value_starts :
    (v rest : Bytes) → StartsFull (v ++ newline ∷ []) → StartsFull (v ++ (newline ∷ rest))
value_starts [] rest h = h
value_starts (b ∷ v) rest h = h

NoSpace-colon : (name : Bytes) → NoSpace name → NoSpace (name ++ b':' ∷ [])
unfolding is_space
NoSpace-colon name h = All-append _ name (b':' ∷ []) h (refl, tt)

colon_starts : (name rest : Bytes) → NoSpace name → StartsFull ((name ++ b':' ∷ []) ++ rest)
unfolding is_blank
colon_starts [] rest h = refl
colon_starts (c ∷ name) rest h = blank_of_space c h.0

-- The request line: a method, a URL and the version of the protocol.
request_line-Stands :
    (s : Scanner) (method url rest : Bytes)
    → Stands s [] (method ++ (b' ' ∷ (url ++ (b' ' ∷ (codes "HTTP/1.1" ++ (newline ∷ rest))))))
    → IsWord method
    → IsWord url
    → (s' : Scanner) × (pre : Bytes) × (scan_words 3 s
        ≡ ok (method ∷ url ∷ codes "HTTP/1.1" ∷ [], s'))
      × Stands s' pre (newline ∷ rest)
unfolding scan_words words_round is_empty_text is_space is_blank
request_line-Stands s [] url rest h m u = absurd m
request_line-Stands s (c ∷ method) [] rest h m u = absurd u
request_line-Stands s (c ∷ method) (d ∷ url) rest h m u =
    let (s₁, q₁, k₁) = word_here s [] (c ∷ method) b' ' _ h m refl (blank_of_space c m.0) in
    let (s₂, q₂, k₂) = word_behind_space s₁ _ (d ∷ url) b' ' _ k₁ u refl in
    let (s₃, q₃, k₃) = word_behind_space s₂ _ (codes "HTTP/1.1") newline rest k₂ protocol refl in
    (
      s₃,
      _,
      ap (words_round (scan_words 2)) q₁
          ∙ ap (put (c ∷ method)) (
              ap (words_round (scan_words 1)) q₂
              ∙ ap (put (d ∷ url)) (ap (words_round (scan_words 0)) q₃)),
      k₃,
    )
  where
    put : Bytes → Parse (List Bytes × Scanner) → Parse (List Bytes × Scanner)
    put word m = m >>= λ r. ok (word ∷ r.0, r.1)

    protocol : IsWord (codes "HTTP/1.1")
    protocol = (refl, (refl, (refl, (refl, (refl, (refl, (refl, (refl, tt))))))))

fields-length : (fs : List Field) (rest : Bytes) → length fs ≤ length (render_fields fs rest)
unfolding render_fields
fields-length [] rest = omega arith
fields-length (f ∷ fs) rest =
    let more = newline ∷ render_fields fs rest in
    omega (
      arith,
      length-append (f.name ++ b':' ∷ []) (b' ' ∷ (f.value ++ more)),
      length-append f.value more,
      fields-length fs rest,
    )
