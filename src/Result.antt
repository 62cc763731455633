-- ===== src/Result.antt =====
-- Results of the scenario parser: its errors as values, and loops that may run out of fuel.
use sinq.Prelude.{ℕ, Bytes, Bool, true, false, ◌≡◌, if◌then◌else◌}

-- What `scriptError` reports behind the position and the script's name.
pub data Reason : Type 0 where
  unexpected_eof : Reason
  unexpected_char : (got expected : ℕ) → Reason
  expected_quote : Reason
  unclosed_string : (line offset quote : ℕ) → Reason
  negative_level : Reason

pub data Error : Type 0 where
  script_error : (line offset : ℕ) (name : Bytes) → Reason → Error
  newline_in_name : (line offset : ℕ) → Error
  eof_after_escape : (line offset : ℕ) → Error
  defined_twice : (name : Bytes) → Error
  incomplete : Error
  empty_request : Error
  read_failed : Error

-- `out_of_fuel` is no behaviour of the program: it is proved not to occur.
pub data Result {ℓ} (A : Type ℓ) : Type ℓ where
  ok : A → Result A
  err : Error → Result A
  out_of_fuel : Result A

infixl 5 ◌>>=◌
abbrev pub ◌>>=◌ {ℓ κ} : {A : Type ℓ} {B : Type κ} → Result A → (A → Result B) → Result B
ok a >>= f = f a
err e >>= f = err e
out_of_fuel >>= f = out_of_fuel

-- The result is an error, or a value with the property: the fuel sufficed.
pub data Ends {A : Type 0} (P : A → Type 0) : Result A → Type 0 where
  done : {a : A} → P a → Ends P (ok a)
  failed : {e : Error} → Ends P (err e)

pub Ends-bind :
    {A B : Type 0} {P : A → Type 0} (Q : B → Type 0) {m : Result A} (f : A → Result B)
    → Ends P m
    → ((a : A) → P a → Ends Q (f a))
    → Ends Q (m >>= f)
Ends-bind Q f (done {a = a} h) k = k a h
Ends-bind Q f failed k = failed

pub Ends-map :
    {A : Type 0} {P : A → Type 0} (Q : A → Type 0) {m : Result A}
    → Ends P m
    → ((a : A) → P a → Q a)
    → Ends Q m
Ends-map Q (done {a = a} h) k = done (k a h)
Ends-map Q failed k = failed

pub Ends-if :
    {A : Type 0} {P : A → Type 0} (b : Bool) {m n : Result A}
    → Ends P m
    → Ends P n
    → Ends P (if b then m else n)
Ends-if true h k = h
Ends-if false h k = k

-- The property of a value that came back.
pub Ends-ok : {A : Type 0} (P : A → Type 0) {m : Result A} {a : A} → m ≡ ok a → Ends P m → P a
Ends-ok {A} P {a = a} e h = out (rw e at h)
  where
    out : {b : A} → Ends P (ok b) → P b
    out (done p) = p
