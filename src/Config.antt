-- ===== src/Config.antt =====
-- internal/config: which scenarios the filters keep, sizes with a unit, and the settings that are
-- checked when they are set (config.go, values.go). A compiled expression is the function that says
-- whether it matches; what `regexp`, `strconv` and `time` parse is an argument.
pub mod Kept
pub mod KeyVal
pub mod Values
use sinq.Spaces.{to_lower}
use sinq.Prelude.{
  ℕ, zero, suc, ◌+◌, ◌^◌, ◌<◌, Bool, true, false, not, ◌&&◌, ◌||◌, Option, none, some, List, [],
  ◌∷◌, ◌++◌, Bytes, codes, equal, length, leb, ltb, ◌==◌, if◌then◌else◌,
}
use sinq.Token.{ℤ, pos, negsuc}
use sinq.Spaces.{trim_space}

-- The filters of `Config`.
pub record Filters : Type 0 where
  pub tags_include : List Bytes
  pub names_include : List (Bytes → Bool)
  pub tags_exclude : List Bytes
  pub names_exclude : List (Bytes → Bool)

-- Whether a tag is in the set of a scenario's tags.
unfoldable pub has_tag : List Bytes → Bytes → Bool
has_tag [] tag = false
has_tag (t ∷ tags) tag = if equal t tag then true else has_tag tags tag

-- A loop over tags that returns at the first that is found.
unfoldable pub any_tag : List Bytes → List Bytes → Bool
unfolding has_tag
any_tag [] tags = false
any_tag (t ∷ ts) tags = if has_tag tags t then true else any_tag ts tags

-- A loop over expressions that returns at the first that matches.
unfoldable pub any_match : List (Bytes → Bool) → Bytes → Bool
any_match [] name = false
any_match (r ∷ rs) name = if r name then true else any_match rs name

is_empty_list {ℓ} : {A : Type ℓ} → List A → Bool
is_empty_list [] = true
is_empty_list (x ∷ xs) = false

-- `ShouldInclude`
unfoldable pub should_include : Filters → List Bytes → Bytes → Bool
unfolding any_tag any_match is_empty_list
should_include c tags name =
    if any_tag c.tags_exclude tags
    then false
    else if any_match c.names_exclude name
    then false
    else (let is_in_tags =
          (if any_tag c.tags_include tags then true else is_empty_list c.tags_include) in
        if any_match c.names_include name
        then is_in_tags
        else is_in_tags && is_empty_list c.names_include)

pub data DataUnit : Type 0 where
  byte ki_byte mi_byte gi_byte : DataUnit

-- The number of bytes that a unit stands for.
unfoldable pub unit_size : DataUnit → ℕ
unit_size byte = 1
unit_size ki_byte = 2 ^ 10
unit_size mi_byte = 2 ^ 20
unit_size gi_byte = 2 ^ 30

-- `DataUnit.String`
unfoldable pub unit_string : DataUnit → Bytes
unit_string byte = codes "B"
unit_string ki_byte = codes "KiB"
unit_string mi_byte = codes "MiB"
unit_string gi_byte = codes "GiB"

abbrev is_one_of : Bytes → List Bytes → Bool
is_one_of s [] = false
is_one_of s (n ∷ ns) = if equal s n then true else is_one_of s ns

-- `DataUnitMapping`
unfoldable pub data_unit : Bytes → Option DataUnit
data_unit s =
    if is_one_of s (codes "b" ∷ codes "byte" ∷ [])
    then some byte
    else if is_one_of s (codes "k" ∷ codes "kb" ∷ codes "kib" ∷ codes "kibyte" ∷ [])
    then some ki_byte
    else if is_one_of s (codes "m" ∷ codes "mb" ∷ codes "mib" ∷ codes "mibyte" ∷ [])
    then some mi_byte
    else if is_one_of s (codes "g" ∷ codes "gb" ∷ codes "gib" ∷ codes "gibyte" ∷ [])
    then some gi_byte
    else none

pub record DataSize : Type 0 where
  pub byte_amount : ℕ
  pub unit : DataUnit

-- What a setter reports.
pub data SettingError : Type 0 where
  not_initialized : SettingError
  malformed : SettingError
  out_of_range : SettingError
  empty_size : SettingError
  unknown_unit : Bytes → SettingError

pub data Outcome {ℓ} (A : Type ℓ) : Type ℓ where
  ok : A → Outcome A
  err : SettingError → Outcome A

is_amount_byte : ℕ → Bool
is_amount_byte b = (leb b'0' b && leb b b'9') || b == b'.'

-- The text up to the first byte that is no part of an amount, and the rest.
split_amount : Bytes → Bytes × Bytes
unfolding is_amount_byte
split_amount [] = ([], [])
split_amount (b ∷ bs) =
    let (amount, rest) = split_amount bs in
    if not (is_amount_byte b) then ([], b ∷ bs) else (b ∷ amount, rest)

unit_text : Bytes → Bytes
unfolding trim_space
unit_text [] = codes "B"
unit_text (b ∷ bs) = trim_space (b ∷ bs)

-- Floating point numbers and their text, as `strconv.ParseFloat` reads it.
pub record Floats : Type 1 where
  pub Float : Type 0
  pub parse_float : Bytes → Option Float
  pub is_negative : Float → Bool
  -- `uint64(size * float64(unit))`
  pub times_unit : Float → ℕ → ℕ

module _ (floats : Floats) where
  open floats use {Float, parse_float, is_negative, times_unit}

  -- Behind the unit, on the amount.
  size_of : DataUnit → Option Float → Outcome DataSize
  unfolding unit_size
  size_of unit none = err malformed
  size_of unit (some size) =
      if is_negative size
      then err out_of_range
      else ok (record { byte_amount = times_unit size (unit_size unit); unit = unit })

  size_in : Bytes → Bytes → Option DataUnit → Outcome DataSize
  unfolding size_of
  size_in amount unit_name none = err (unknown_unit unit_name)
  size_in amount unit_name (some unit) = size_of unit (parse_float amount)

  parse_trimmed : Bytes → Outcome DataSize
  unfolding split_amount unit_text data_unit to_lower size_in
  parse_trimmed [] = err empty_size
  parse_trimmed (b ∷ bs) =
      let (amount, rest) = split_amount (b ∷ bs) in
      size_in amount (unit_text rest) (data_unit (to_lower (unit_text rest)))

  -- `ParseSize`
  unfoldable pub parse_size : Bytes → Outcome DataSize
  unfolding trim_space parse_trimmed
  parse_size source = parse_trimmed (trim_space source)
