-- ===== src/Luapi/Generate.antt =====
-- internal/luapi/lua-generate.go: made-up values. The generator is a parameter, whose draws are those of
-- math/rand: `Int64` is not negative, and `UintN n` and `Uint64N n` are below n.
pub mod Ranges
pub mod Texts
use sinq.Prelude.{
  ℕ, zero, suc, ◌+◌, ◌-◌, ◌*◌, ◌/◌, ◌%◌, ◌^◌, ◌<◌, Bool, true, false, Option, none, some, List, [],
  ◌∷◌, ◌++◌, Bytes, codes, length, get_elem?, ltb, leb, ◌==◌, if◌then◌else◌,
}

pub record Generator : Type 1 where
  pub State : Type 0
  pub int64 : State → ℕ × State
  pub uint_n : ℕ → State → ℕ × State

-- The documented range of a draw.
pub record IsGenerator (gen : Generator) : Type 0 where
  pub in_range : (n : ℕ) (s : gen.State) → 0 < n → (gen.uint_n n s).0 < n

-- An `int64` is its bits; the sign goes into the comparison.
unfoldable pub signed_leb : ℕ → ℕ → Bool
signed_leb a b = leb ((a + 2 ^ 63) % 2 ^ 64) ((b + 2 ^ 63) % 2 ^ 64)

module _ (gen : Generator) where
  open gen use {State, int64, uint_n}

  -- `randomInt`
  pub random_int : (from to : ℕ) → State → ℕ × State
  random_int from to s =
      let (n, s') = uint_n (to - from) s in if leb to from then (from, s) else (n + from, s')

  -- `randomInt64`
  unfoldable pub random_int64 : (from to : ℕ) → State → ℕ × State
  unfolding signed_leb
  random_int64 from to s =
      let (n, s') = uint_n ((to + 2 ^ 64 - from) % 2 ^ 64) s in
      if signed_leb to from then (from, s) else ((n + from) % 2 ^ 64, s')

  at_index : {A : Type 0} → A → List A → ℕ × State → A × State
  at_index blank list (n, s) =
      (elim (get_elem? list (n % length list)) [ none ↦ blank | some x ↦ x ], s)

  -- `randomStringEntry`, `randomSliceEntry` and `randomByteEntry`; `blank` is what they give for no list.
  pub random_entry : {A : Type 0} → A → List A → State → A × State
  unfolding at_index
  random_entry blank [] s = (blank, s)
  random_entry blank (x ∷ []) s = (x, s)
  random_entry blank (x ∷ y ∷ list) s = at_index blank (x ∷ y ∷ list) (int64 s)

  -- `randomMatrixEntry`
  pub random_matrix_entry : List (List Bytes) → State → Bytes × State
  unfolding random_entry
  random_matrix_entry lists s = let (list, s') = random_entry [] lists s in random_entry [] list s'

  -- The loops that fill a slice with entries of a list.
  pub random_bytes : ℕ → Bytes → State → Bytes × State
  unfolding random_entry
  random_bytes zero list s = ([], s)
  random_bytes (suc n) list s =
      let (b, s₁) = random_entry 0 list s in let (bs, s₂) = random_bytes n list s₁ in (b ∷ bs, s₂)

  -- The loops of `FakeTrace`, which take the lowest byte of a draw.
  pub low_bytes : ℕ → State → Bytes × State
  low_bytes zero s = ([], s)
  low_bytes (suc n) s =
      let (d, s₁) = int64 s in let (bs, s₂) = low_bytes n s₁ in ((d % 256) ∷ bs, s₂)

-- `hexadecimal`, `uuidv4variant` and `passwordChars`
abbrev pub hexadecimal : Bytes
hexadecimal = codes "0123456789abcdef"

abbrev pub uuidv4_variant : Bytes
uuidv4_variant = codes "89ab"

abbrev pub password_chars : Bytes
password_chars =
    codes "abcdefghijklmnopqrstuvwxyzABCDEFGHIJKLMNOPQRSTUVWXYZ0123456789!@#$%^&*()_+-=[]{}|;:,.<>?"

-- A hexadecimal digit, and `hex.EncodeToString`.
pub hex_digit : ℕ → ℕ
hex_digit n = if ltb n 10 then n + b'0' else (n - 10) + b'a'

pub encode_to_string : Bytes → Bytes
unfolding hex_digit
encode_to_string [] = []
encode_to_string (b ∷ bs) = hex_digit (b / 16) ∷ hex_digit (b % 16) ∷ encode_to_string bs

-- `isZero`
pub is_zero : Bytes → Bool
is_zero [] = true
is_zero (b ∷ bs) = if b == 0 then is_zero bs else false

-- A first byte of 1, if all are zero.
pub nonzero_id : Bytes → Bytes
unfolding is_zero
nonzero_id [] = []
nonzero_id (b ∷ bs) = if is_zero (b ∷ bs) then 1 ∷ bs else b ∷ bs

-- `capitalizeAt`
pub capitalize_at : Bytes → ℕ → Bytes
capitalize_at [] idx = []
capitalize_at (b ∷ bs) zero =
    if ltb b b'a' then b ∷ bs else if ltb b'z' b then b ∷ bs else (b - 32) ∷ bs
capitalize_at (b ∷ bs) (suc idx) = b ∷ capitalize_at bs idx

-- `capitalizeFirst`
pub capitalize_first : Bytes → Bytes
unfolding capitalize_at
capitalize_first str = capitalize_at str 0

-- Ten bytes, of which the first is drawn: they are not written as digits.
pub zeros : ℕ → Bytes
zeros zero = []
zeros (suc n) = 0 ∷ zeros n

module _ (gen : Generator) where
  open gen use {State, int64, uint_n}

  -- `FakePhone`, for its codes
  unfoldable pub fake_phone : List Bytes → State → Bytes × State
  unfolding random_entry zeros
  fake_phone phone_codes s =
      let (d, s₁) = int64 s in
      let (code, s₂) = random_entry gen [] phone_codes s₁ in (code ++ ((d % 9) + 1) ∷ zeros 9, s₂)

  -- `FakePassword`
  pub fake_password : State → Bytes × State
  unfolding random_int random_bytes
  fake_password s =
      let (size, s') = random_int gen 8 24 s in random_bytes gen size password_chars s'

  -- `FakeUUIDv4`
  pub fake_uuidv4 : State → Bytes × State
  unfolding random_bytes random_entry
  fake_uuidv4 s =
      let (p1, s₁) = random_bytes gen 8 hexadecimal s in
      let (p2, s₂) = random_bytes gen 4 hexadecimal s₁ in
      let (p3, s₃) = random_bytes gen 3 hexadecimal s₂ in
      let (p4, s₄) = random_bytes gen 3 hexadecimal s₃ in
      let (p5, s₅) = random_bytes gen 12 hexadecimal s₄ in
      let (v, s₆) = random_entry gen 0 uuidv4_variant s₅ in
      (p1 ++ (b'-' ∷ p2 ++ (b'-' ∷ b'4' ∷ p3 ++ (b'-' ∷ v ∷ p4 ++ (b'-' ∷ p5)))), s₆)

  -- `FakeTrace`
  pub fake_trace : State → Bytes × State
  unfolding low_bytes nonzero_id encode_to_string
  fake_trace s =
      let (trace_id, s₁) = low_bytes gen 16 s in
      let (parent_id, s₂) = low_bytes gen 8 s₁ in
      (
        codes "00-"
            ++ (encode_to_string (nonzero_id trace_id)
                ++ (b'-' ∷ encode_to_string (nonzero_id parent_id) ++ codes "-01")),
        s₂,
      )

  -- `FakeTakeOne`, on the elements of the table; `none` is the error it raises.
  unfoldable pub fake_take_one : {A : Type 0} → List A → State → Option (Option A × State)
  unfolding random_int
  fake_take_one [] s = none
  fake_take_one (x ∷ elems) s =
      let (idx, s') = random_int gen 1 (length (x ∷ elems)) s in
      some (get_elem? (x ∷ elems) (idx - 1), s')
