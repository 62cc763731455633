-- ===== src/Token.antt =====
-- internal/scenario/scenario-token.go, and the offsets that a token holds.
use sinq.Prelude.{ℕ, suc, ◌+◌, Bool, false, ◌||◌, [], Bytes, codes, equal, leb}

-- An `int` that may be negative; `negsuc n` is -(n + 1).
pub data ℤ : Type 0 where
  pos : ℕ → ℤ
  negsuc : ℕ → ℤ

abbrev pub pos_part : ℤ → ℕ
pos_part (pos n) = n
pos_part (negsuc n) = 0

abbrev pub neg_part : ℤ → ℕ
neg_part (pos n) = 0
neg_part (negsuc n) = suc n

pub data TokenType : Type 0 where
  incomplete_token text script delimiter eof : TokenType

pub record Token : Type 0 where
  pub type : TokenType
  pub name : Bytes
  pub line : ℕ
  pub offset : ℕ
  pub start : ℕ
  pub end : ℕ
  pub payload_start : ℤ
  pub payload_end : ℤ
  pub has_escapes : Bool

-- `Token{}`
abbrev pub zero_token : Token
zero_token = record {
  type = incomplete_token;
  name = [];
  line = 0;
  offset = 0;
  start = 0;
  end = 0;
  payload_start = pos 0;
  payload_end = pos 0;
  has_escapes = false;
}

-- `specialScripts`, and `IsSpecialScript` on a token's name.
unfoldable pub is_special_script : Bytes → Bool
is_special_script n =
    equal n (codes "PRE")
    || equal n (codes "RETRY")
    || equal n (codes "ASSERT")
    || equal n (codes "POST")

-- `IsEmpty`: `PayloadEnd - PayloadStart <= 1`
unfoldable pub is_empty : Token → Bool
is_empty t =
    leb (pos_part t.payload_end + neg_part t.payload_start)
      (pos_part t.payload_start + neg_part t.payload_end + 1)
