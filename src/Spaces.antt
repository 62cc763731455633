-- ===== src/Spaces.antt =====
-- What the code takes from the packages unicode, strings and fmt: white space and case, at bytes.
use sinq.Prelude.{
  ℕ, zero, suc, ◌+◌, ◌/◌, ◌%◌, Bool, ◌&&◌, ◌||◌, [], ◌∷◌, ◌++◌, Bytes, leb, ltb, ◌==◌,
  if◌then◌else◌,
}

-- `unicode.IsSpace` at a byte
unfoldable pub is_space : ℕ → Bool
is_space b = (leb 9 b && leb b 13) || b == b' ' || b == 0x85 || b == 0xA0

-- `strings.TrimSpace`, at ASCII text
abbrev is_ascii_space : ℕ → Bool
is_ascii_space b = (leb 9 b && leb b 13) || b == b' '

pub trim_left : Bytes → Bytes
trim_left [] = []
trim_left (b ∷ bs) = if is_ascii_space b then trim_left bs else b ∷ bs

abbrev trim_cons : ℕ → Bytes → Bytes
trim_cons b [] = if is_ascii_space b then [] else b ∷ []
trim_cons b (c ∷ bs) = b ∷ c ∷ bs

pub trim_right : Bytes → Bytes
trim_right [] = []
trim_right (b ∷ bs) = trim_cons b (trim_right bs)

unfoldable pub trim_space : Bytes → Bytes
unfolding trim_left trim_right
trim_space bs = trim_right (trim_left bs)

-- `%d`; the fuel is more than the number of digits.
decimal_loop : ℕ → ℕ → Bytes
decimal_loop zero n = []
decimal_loop (suc f) n =
    let front = decimal_loop f (n / 10) in
    if ltb n 10 then (b'0' + n) ∷ [] else front ++ (b'0' + n % 10) ∷ []

unfoldable pub decimal : ℕ → Bytes
unfolding decimal_loop
decimal n = decimal_loop (suc n) n

-- `strings.ToLower`, at ASCII text
abbrev lower_byte : ℕ → ℕ
lower_byte b = if leb b'A' b && leb b b'Z' then b + 32 else b

unfoldable pub to_lower : Bytes → Bytes
to_lower [] = []
to_lower (b ∷ bs) = lower_byte b ∷ to_lower bs
