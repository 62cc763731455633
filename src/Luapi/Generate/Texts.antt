-- ===== src/Luapi/Generate/Texts.antt =====
-- The form of made-up identifiers.
use sinq.Prelude.{
  ℕ, zero, suc, ◌+◌, ◌*◌, ◌/◌, ◌%◌, ◌<◌, ◌≡◌, refl, ap, ◌∙◌, Bool, true, false, ◌&&◌, none, some,
  List, [], ◌∷◌, ◌++◌, Bytes, codes, length, get_elem?, leb, ◌==◌, if◌then◌else◌, All, arith, inl,
  inr, Bool-cases,
}
use sinq.Luapi.Generate.{
  Generator, random_entry, at_index, random_bytes, low_bytes, hexadecimal, uuidv4_variant,
  hex_digit, encode_to_string, is_zero, nonzero_id, fake_uuidv4, fake_trace, fake_phone, zeros,
}

-- A digit from 0 to 9 or a to f.
pub is_hex : ℕ → Bool
is_hex b = if leb b'0' b && leb b b'9' then true else leb b'a' b && leb b b'f'

abbrev pub IsHex : Bytes → Type 0
IsHex = All (λ b. is_hex b ≡ true)

mod_below : (n m : ℕ) → 0 < m → n % m < m
mod_below n m h = grind arith

elem-All :
    {A : Type 0} (P : A → Type 0) (blank : A) (list : List A) (i : ℕ)
    → i < length list
    → All P list
    → P (elim (get_elem? list i) [ none ↦ blank | some x ↦ x ])
elem-All P blank [] i l h = absurd (omega arith)
elem-All P blank (x ∷ list) zero l h = h.0
elem-All P blank (x ∷ list) (suc i) l h = elem-All P blank list i (omega arith) h.1

module _ (gen : Generator) where
  at_index-All :
      {A : Type 0} (P : A → Type 0) (blank : A) (list : List A) (d : ℕ × gen.State)
      → 0 < length list
      → All P list
      → P (at_index gen blank list d).0
  unfolding at_index
  at_index-All P blank list (n, s) z h =
      elem-All P blank list (n % length list) (mod_below n (length list) z) h

  random_entry-All :
      {A : Type 0} (P : A → Type 0) (blank : A) (list : List A) (s : gen.State)
      → 0 < length list
      → All P list
      → P (random_entry gen blank list s).0
  unfolding random_entry
  random_entry-All P blank [] s z h = absurd (omega arith)
  random_entry-All P blank (x ∷ []) s z h = h.0
  random_entry-All P blank (x ∷ y ∷ list) s z h =
      at_index-All P blank (x ∷ y ∷ list) (gen.int64 s) z h

  random_bytes-All :
      (P : ℕ → Type 0) (n : ℕ) (list : Bytes) (s : gen.State)
      → 0 < length list
      → All P list
      → (length (random_bytes gen n list s).0 ≡ n) × All P (random_bytes gen n list s).0
  unfolding random_bytes
  random_bytes-All P zero list s z h = (refl, tt)
  random_bytes-All P (suc n) list s z h =
      let r = random_bytes-All P n list _ z h in
      (ap (λ m. suc m) r.0, (random_entry-All P 0 list s z h, r.1))

-- 8, 9, a or b.
pub is_variant : ℕ → Bool
is_variant b = if leb b'8' b && leb b b'9' then true else leb b'a' b && leb b b'b'

-- The form of a version 4 UUID: groups of 8, 4, 4, 4 and 12 hexadecimal digits, of which the third begins
-- with 4 and the fourth with 8, 9, a or b.
pub record IsUuid (text : Bytes) : Type 0 where
  pub p1 : Bytes
  pub p2 : Bytes
  pub p3 : Bytes
  pub variant : ℕ
  pub p4 : Bytes
  pub p5 : Bytes
  pub written :
      text ≡ p1 ++ (b'-' ∷ p2 ++ (b'-' ∷ b'4' ∷ p3 ++ (b'-' ∷ variant ∷ p4 ++ (b'-' ∷ p5))))
  pub p1_hex : (length p1 ≡ 8) × IsHex p1
  pub p2_hex : (length p2 ≡ 4) × IsHex p2
  pub p3_hex : (length p3 ≡ 3) × IsHex p3
  pub p4_hex : (length p4 ≡ 3) × IsHex p4
  pub p5_hex : (length p5 ≡ 12) × IsHex p5
  pub variant_kind : is_variant variant ≡ true

hexadecimal-IsHex : IsHex hexadecimal
unfolding is_hex
hexadecimal-IsHex = (
  refl,
  (
    refl,
    (
      refl,
      (
        refl,
        (
          refl,
          (
            refl,
            (refl, (refl, (refl, (refl, (refl, (refl, (refl, (refl, (refl, (refl, tt)))))))))),
          ),
        ),
      ),
    ),
  ),
)

variants : All (λ b. is_variant b ≡ true) uuidv4_variant
unfolding is_variant
variants = (refl, (refl, (refl, (refl, tt))))

-- A made-up UUID is of version 4.
pub fake_uuidv4-IsUuid : (gen : Generator) (s : gen.State) → IsUuid (fake_uuidv4 gen s).0
unfolding fake_uuidv4
fake_uuidv4-IsUuid gen s =
    let d₁ = random_bytes gen 8 hexadecimal s in
    let d₂ = random_bytes gen 4 hexadecimal d₁.1 in
    let d₃ = random_bytes gen 3 hexadecimal d₂.1 in
    let d₄ = random_bytes gen 3 hexadecimal d₃.1 in
    let d₅ = random_bytes gen 12 hexadecimal d₄.1 in
    record {
      p1 = d₁.0;
      p2 = d₂.0;
      p3 = d₃.0;
      variant = (random_entry gen 0 uuidv4_variant d₅.1).0;
      p4 = d₄.0;
      p5 = d₅.0;
      written = refl;
      p1_hex = hex 8 s;
      p2_hex = hex 4 d₁.1;
      p3_hex = hex 3 d₂.1;
      p4_hex = hex 3 d₃.1;
      p5_hex = hex 12 d₄.1;
      variant_kind =
          random_entry-All gen (λ b. is_variant b ≡ true) 0 uuidv4_variant d₅.1 (omega arith)
            variants;
    }
  where
    hex :
        (n : ℕ) (t : gen.State)
        → (length (random_bytes gen n hexadecimal t).0 ≡ n)
          × IsHex (random_bytes gen n hexadecimal t).0
    hex n t =
        random_bytes-All gen (λ b. is_hex b ≡ true) n hexadecimal t (omega arith) hexadecimal-IsHex

abbrev AreBytes : Bytes → Type 0
AreBytes = All (λ b. b < 256)

low_bytes-AreBytes :
    (gen : Generator) (n : ℕ) (s : gen.State)
    → (length (low_bytes gen n s).0 ≡ n) × AreBytes (low_bytes gen n s).0
unfolding low_bytes
low_bytes-AreBytes gen zero s = (refl, tt)
low_bytes-AreBytes gen (suc n) s =
    let r = low_bytes-AreBytes gen n (gen.int64 s).1 in (ap (λ m. suc m) r.0, (omega arith, r.1))

nonzero_id-AreBytes :
    (bs : Bytes) → AreBytes bs → (length (nonzero_id bs) ≡ length bs) × AreBytes (nonzero_id bs)
unfolding nonzero_id
nonzero_id-AreBytes [] h = (refl, tt)
nonzero_id-AreBytes (b ∷ bs) h = elim (Bool-cases (is_zero (b ∷ bs))) [
  | inl y ↦ rw y (refl, (omega arith, h.1))
  | inr n ↦ rw n (refl, h)
]

is_zero-nonzero_id : (b : ℕ) (bs : Bytes) → is_zero (nonzero_id (b ∷ bs)) ≡ false
unfolding nonzero_id
is_zero-nonzero_id b bs = elim (Bool-cases (is_zero (b ∷ bs))) [
  | inl y ↦ rw y (unfold is_zero in refl)
  | inr n ↦ rw n n
]

hex_digit-IsHex : (n : ℕ) → n < 16 → is_hex (hex_digit n) ≡ true
unfolding hex_digit is_hex
hex_digit-IsHex n h = ground arith

encode-IsHex :
    (bs : Bytes)
    → AreBytes bs
    → (length (encode_to_string bs) ≡ 2 * length bs) × IsHex (encode_to_string bs)
unfolding encode_to_string
encode-IsHex [] h = (refl, tt)
encode-IsHex (b ∷ bs) h =
    let r = encode-IsHex bs h.1 in
    (
      omega (arith, r.0),
      (
        hex_digit-IsHex (b / 16) (omega (arith, h.0)),
        (hex_digit-IsHex (b % 16) (omega arith), r.1),
      ),
    )

-- Whether there is nothing but the digit 0.
pub is_blank_id : Bytes → Bool
is_blank_id [] = true
is_blank_id (b ∷ bs) = if b == b'0' then is_blank_id bs else false

encode-is_zero : (bs : Bytes) → AreBytes bs → is_blank_id (encode_to_string bs) ≡ is_zero bs
unfolding is_blank_id encode_to_string is_zero hex_digit
encode-is_zero [] h = refl
encode-is_zero (b ∷ bs) h = ground (arith, encode-is_zero bs h.1, h.0)

-- An identifier in a `traceparent` field: so many hexadecimal digits, not all of them 0.
pub record IsTraceId (digits : ℕ) (id : Bytes) : Type 0 where
  pub count : length id ≡ digits
  pub hex : IsHex id
  pub not_blank : is_blank_id id ≡ false

encoded-IsTraceId :
    (gen : Generator) (n : ℕ) (s : gen.State)
    → IsTraceId (2 * suc n) (encode_to_string (nonzero_id (low_bytes gen (suc n) s).0))
unfolding low_bytes
encoded-IsTraceId gen n s =
    let r = low_bytes-AreBytes gen (suc n) s in
    let k = nonzero_id-AreBytes _ r.1 in
    let e = encode-IsHex _ k.1 in
    record {
      count = e.0 ∙ ap (λ m. 2 * m) (k.0 ∙ r.0);
      hex = e.1;
      not_blank = encode-is_zero _ k.1 ∙ is_zero-nonzero_id _ _;
    }

-- A made-up `traceparent` field: version 00, two identifiers of 32 and 16 digits that are not all 0, and
-- the flag of a sampled trace.
pub fake_trace-IsTraceId :
    (gen : Generator) (s : gen.State)
    → (trace parent : Bytes) × ((fake_trace gen s).0
        ≡ codes "00-" ++ (trace ++ (b'-' ∷ parent ++ codes "-01")))
      × IsTraceId 32 trace
      × IsTraceId 16 parent
unfolding fake_trace
fake_trace-IsTraceId gen s =
    let d = low_bytes gen 16 s in
    (
      encode_to_string (nonzero_id d.0),
      encode_to_string (nonzero_id (low_bytes gen 8 d.1).0),
      refl,
      encoded-IsTraceId gen 15 s,
      encoded-IsTraceId gen 7 d.1,
    )

-- The ten characters behind the code of a made-up phone number are control characters: each is below 10,
-- where the digits begin at 48.
pub fake_phone-NoDigits :
    (gen : Generator) (phone_codes : List Bytes) (s : gen.State)
    → (code number : Bytes) × ((fake_phone gen phone_codes s).0 ≡ code ++ number)
      × (length number ≡ 10)
      × All (λ b. b < 10) number
unfolding fake_phone zeros
fake_phone-NoDigits gen phone_codes s =
    let d = gen.int64 s in
    (
      (random_entry gen [] phone_codes d.1).0,
      ((d.0 % 9) + 1) ∷ zeros 9,
      refl,
      refl,
      (
        omega arith,
        (
          omega arith,
          (
            omega arith,
            (
              omega arith,
              (
                omega arith,
                (omega arith, (omega arith, (omega arith, (omega arith, (omega arith, tt))))),
              ),
            ),
          ),
        ),
      ),
    )
