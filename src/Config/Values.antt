-- ===== src/Config/Values.antt =====
-- internal/config/values.go: the settings that are checked when they are set.
pub mod Stores
use sinq.Prelude.{
  ℕ, zero, suc, ◌+◌, ◌^◌, ◌<◌, Bool, true, false, not, ◌&&◌, ◌||◌, Option, none, some, List, [],
  ◌∷◌, ◌++◌, Bytes, codes, equal, length, leb, ltb, ◌==◌, if◌then◌else◌,
}
use sinq.Token.{ℤ, pos, negsuc}
use sinq.Config.{
  DataSize, SettingError, not_initialized, malformed, out_of_range, Outcome, ok, err, Floats,
  parse_size,
}
use sinq.Spaces.{trim_space, to_lower}

-- A setting behind a pointer: what it holds, or nil.
abbrev pub Setting : Type 0 → Type 0
Setting A = Option A

-- The new value of a setting, and the error.
abbrev pub SetTo : Type 0 → Type 0
SetTo A = Setting A × Option SettingError

-- A setter over a parser of its values: the target is written only where that succeeds.
unfoldable pub set_by : {A : Type 0} → Outcome A → Setting A → SetTo A
set_by o none = (none, some not_initialized)
set_by (err e) (some old) = (some old, some e)
set_by (ok new) (some old) = (some new, none)

-- What `PositiveIntValue.Set` and `PositiveDurationValue.Set` check of the number that was parsed.
unfoldable pub positive : Option ℤ → Outcome ℤ
positive none = err malformed
positive (some (negsuc n)) = err out_of_range
positive (some (pos zero)) = err out_of_range
positive (some (pos (suc n))) = ok (pos (suc n))

-- `PositiveIntValue.Set` and `PositiveDurationValue.Set`, over what `Atoi` or `ParseDuration` gave.
unfoldable pub set_positive : Option ℤ → Setting ℤ → SetTo ℤ
unfolding set_by positive
set_positive parsed target = set_by (positive parsed) target

pub data LogLevel : Type 0 where
  debug info warn error : LogLevel

unfoldable pub log_level_string : LogLevel → Bytes
log_level_string debug = codes "debug"
log_level_string info = codes "info"
log_level_string warn = codes "warn"
log_level_string error = codes "error"

unfoldable pub log_level : Bytes → Outcome LogLevel
log_level s =
    if equal s (codes "debug")
    then ok debug
    else if equal s (codes "info")
    then ok info
    else if equal s (codes "warn")
    then ok warn
    else if equal s (codes "error")
    then ok error
    else err malformed

-- `LogLevelValue.Set`
unfoldable pub set_log_level : Bytes → Setting LogLevel → SetTo LogLevel
unfolding set_by log_level to_lower
set_log_level value target = set_by (log_level (to_lower value)) target

unfoldable pub format : Bytes → Outcome Bytes
format s =
    if equal s (codes "std") then ok s else if equal s (codes "junit") then ok s else err malformed

-- `FormatValue.Set`
unfoldable pub set_format : Bytes → Setting Bytes → SetTo Bytes
unfolding set_by format to_lower
set_format value target = set_by (format (to_lower value)) target

-- `DataSizeValue.Set`
unfoldable pub set_data_size : Floats → Bytes → Setting DataSize → SetTo DataSize
unfolding set_by parse_size
set_data_size floats value target = set_by (parse_size floats value) target

pub data WhenColor : Type 0 where
  never always auto : WhenColor

unfoldable pub when_color_string : WhenColor → Bytes
when_color_string never = codes "never"
when_color_string always = codes "always"
when_color_string auto = codes "auto"

unfoldable pub when_color : Bytes → Outcome WhenColor
when_color s =
    if equal s (codes "never")
    then ok never
    else if equal s (codes "always")
    then ok always
    else if equal s (codes "auto")
    then ok auto
    else err malformed

-- `WhenColorValue.Set`
unfoldable pub set_when_color : Bytes → Setting WhenColor → SetTo WhenColor
unfolding set_by when_color to_lower
set_when_color value target = set_by (when_color (to_lower value)) target

pub data WhatShow : Type 0 where
  all no_skip failed none_shown : WhatShow

unfoldable pub what_show_string : WhatShow → Bytes
what_show_string all = codes "all"
what_show_string no_skip = codes "no-skip"
what_show_string failed = codes "failed"
what_show_string none_shown = codes "none"

unfoldable pub what_show : Bytes → Outcome WhatShow
what_show s =
    if equal s (codes "all")
    then ok all
    else if equal s (codes "no-skip")
    then ok no_skip
    else if equal s (codes "failed")
    then ok failed
    else if equal s (codes "none")
    then ok none_shown
    else err malformed

-- `WhatShowValue.Set`
unfoldable pub set_what_show : Bytes → Setting WhatShow → SetTo WhatShow
unfolding set_by what_show to_lower
set_what_show value target = set_by (what_show (to_lower value)) target

-- `RegexSliceValue.Set`, over what `regexp.Compile` gave: the expression is added behind the others.
unfoldable pub set_regex : {R : Type 0} → Option R → Setting (List R) → SetTo (List R)
set_regex compiled none = (none, some not_initialized)
set_regex none (some rs) = (some rs, some malformed)
set_regex (some r) (some rs) = (some (rs ++ r ∷ []), none)
