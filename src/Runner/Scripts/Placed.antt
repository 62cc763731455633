-- ===== src/Runner/Scripts/Placed.antt =====
-- Where the compiler sees the bytes of a script: internal/runner/cached-compiler.go beside the positions of
-- internal/scanner/byte-scanner.go.
use sinq.Prelude.{
  ℕ, zero, suc, ◌+◌, ◌-◌, ◌≤◌, ◌≡◌, false, refl, ap, ◌∙◌, sym, [], ◌∷◌, ◌++◌, Bytes, length, All,
  arith, ◌==◌, Bool-cases, inl, inr, if◌then◌else◌,
}
use sinq.Token.{Token}
use sinq.Scanner.{newline}
use sinq.Scanner.Position.{line_after, column_after}
use sinq.Runner.Scripts.{repeat_byte, padded}

line_after-append :
    (xs ys : Bytes) (n : ℕ) → line_after n (xs ++ ys) ≡ line_after (line_after n xs) ys
line_after-append [] ys n = refl
line_after-append (x ∷ xs) ys n = line_after-append xs ys (if x == newline then n + 1 else n)

column_after-append :
    (xs ys : Bytes) (n : ℕ) → column_after n (xs ++ ys) ≡ column_after (column_after n xs) ys
column_after-append [] ys n = refl
column_after-append (x ∷ xs) ys n = column_after-append xs ys (if x == newline then 1 else n + 1)

-- Bytes that end no line.
abbrev pub IsOneLine : Bytes → Type 0
IsOneLine bs = All (λ b. (b == newline) ≡ false) bs

line_after-one : (bs : Bytes) (n : ℕ) → IsOneLine bs → line_after n bs ≡ n
line_after-one [] n h = refl
line_after-one (b ∷ bs) n h = rw h.0 (line_after-one bs n h.1)

column_after-one : (bs : Bytes) (n : ℕ) → IsOneLine bs → column_after n bs ≡ n + length bs
column_after-one [] n h = omega arith
column_after-one (b ∷ bs) n h = rw h.0 (omega (arith, column_after-one bs (n + 1) h.1))

spaces-IsOneLine : (n : ℕ) → IsOneLine (repeat_byte n 32)
unfolding repeat_byte
spaces-IsOneLine zero = tt
spaces-IsOneLine (suc n) = (refl, spaces-IsOneLine n)

length-repeat_byte : (n b : ℕ) → length (repeat_byte n b) ≡ n
unfolding repeat_byte
length-repeat_byte zero b = refl
length-repeat_byte (suc n) b = ap suc (length-repeat_byte n b)

line_after-lines : (k n : ℕ) → line_after n (repeat_byte k 10) ≡ n + k
unfolding repeat_byte
line_after-lines zero n = omega arith
line_after-lines (suc k) n = omega (arith, line_after-lines k (n + 1))

column_after-lines : (k : ℕ) → column_after 1 (repeat_byte k 10) ≡ 1
unfolding repeat_byte
column_after-lines zero = refl
column_after-lines (suc k) = column_after-lines k

line_after-le : (bs : Bytes) (n : ℕ) → n ≤ line_after n bs
line_after-le [] n = omega arith
line_after-le (b ∷ bs) n = elim (Bool-cases (b == newline)) [
  | inl y ↦ rw y (omega (arith, line_after-le bs (n + 1)))
  | inr y ↦ rw y (line_after-le bs n)
]

-- A token that stands where the text before it ends.
abbrev pub StandsBehind : Bytes → Token → Type 0
StandsBehind before t = (t.line ≡ line_after 1 before) × (t.offset ≡ column_after 1 before)

-- The bytes of a script in its file: the dollar sign, the name, the brace, and the code.
abbrev pub script_text : Token → Bytes → Bytes
script_text t code = b'$' ∷ (t.name ++ (b'{' ∷ code))

padded-line :
    (t : Token) (code : Bytes) → line_after 1 (padded t code) ≡ line_after (1 + (t.line - 1)) code
unfolding padded
padded-line t code =
    let spaces = repeat_byte (t.offset + length t.name + 1) 32 in
    line_after-append (repeat_byte (t.line - 1) 10) (spaces ++ code) 1
    ∙ ap (λ n. line_after n (spaces ++ code)) (line_after-lines (t.line - 1) 1)
    ∙ line_after-append spaces code (1 + (t.line - 1))
    ∙ ap (λ n. line_after n code)
        (line_after-one spaces (1 + (t.line - 1)) (spaces-IsOneLine (t.offset + length t.name + 1)))

padded-column :
    (t : Token) (code : Bytes)
    → column_after 1 (padded t code) ≡ column_after (1 + (t.offset + length t.name + 1)) code
unfolding padded
padded-column t code =
    let n = t.offset + length t.name + 1 in
    let spaces = repeat_byte n 32 in
    column_after-append (repeat_byte (t.line - 1) 10) (spaces ++ code) 1
    ∙ ap (λ m. column_after m (spaces ++ code)) (column_after-lines (t.line - 1))
    ∙ column_after-append spaces code 1
    ∙ ap (λ m. column_after m code)
        (column_after-one spaces 1 (spaces-IsOneLine n) ∙ ap (λ k. 1 + k) (length-repeat_byte n 32))

script_text-line :
    (before : Bytes) (t : Token) (code : Bytes)
    → IsOneLine t.name
    → line_after 1 (before ++ script_text t code) ≡ line_after (line_after 1 before) code
script_text-line before t code one =
    line_after-append before (script_text t code) 1
    ∙ line_after-append t.name (b'{' ∷ code) (line_after 1 before)
    ∙ ap (λ n. line_after n code) (line_after-one t.name (line_after 1 before) one)

script_text-column :
    (before : Bytes) (t : Token) (code : Bytes)
    → IsOneLine t.name
    → column_after 1 (before ++ script_text t code)
      ≡ column_after (column_after 1 before + 1 + length t.name + 1) code
script_text-column before t code one =
    column_after-append before (script_text t code) 1
    ∙ column_after-append t.name (b'{' ∷ code) (column_after 1 before + 1)
    ∙ ap (λ n. column_after (n + 1) code) (column_after-one t.name (column_after 1 before + 1) one)

-- A script whose name stands in the file as the token has it, directly between the dollar sign and the
-- brace, and in one line: every piece of its code ends at the same line and column in the text that is
-- compiled as in the file.
pub padded-placed :
    (before : Bytes) (t : Token) (code : Bytes)
    → StandsBehind before t
    → IsOneLine t.name
    → (line_after 1 (padded t code) ≡ line_after 1 (before ++ script_text t code))
      × (column_after 1 (padded t code) ≡ column_after 1 (before ++ script_text t code))
padded-placed before t code h one =
    let lines : 1 + (t.line - 1) ≡ line_after 1 before =
      omega (arith, h.0, line_after-le before 1) in
    let columns : 1 + (t.offset + length t.name + 1)
        ≡ column_after 1 before + 1 + length t.name + 1 =
      omega (arith, h.1) in
    (
      padded-line t code
          ∙ ap (λ n. line_after n code) lines
          ∙ sym (script_text-line before t code one),
      padded-column t code
          ∙ ap (λ n. column_after n code) columns
          ∙ sym (script_text-column before t code one),
    )
