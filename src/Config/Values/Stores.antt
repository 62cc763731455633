-- ===== src/Config/Values/Stores.antt =====
-- What the setters store.
use sinq.Prelude.{zero, suc, ◌≡◌, refl, Option, none, some, equal, arith, ◌<◌}
use sinq.Token.{ℤ, pos, negsuc}
use sinq.Config.{SettingError}
use sinq.Config.Values.{
  debug, info, warn, error, never, always, auto, all, no_skip, failed, none_shown, Setting,
  LogLevel, WhenColor, WhatShow, log_level, log_level_string, set_log_level, set_when_color,
  when_color_string, set_what_show, what_show_string, set_positive, set_by, positive, when_color,
  what_show,
}
use sinq.Spaces.{to_lower}

-- What was parsed is a number above zero.
abbrev pub IsPositive : Option ℤ → Type 0
IsPositive none = ⊥
IsPositive (some (pos n)) = 0 < n
IsPositive (some (negsuc n)) = ⊥

-- What `set_positive` leaves: the number that was parsed, which is above zero and comes without an
-- error, or the old one, with an error.
pub data Stored (parsed : Option ℤ) (old : ℤ) : Setting ℤ × Option SettingError → Type 0 where
  stored : (new : ℤ) → parsed ≡ some new → IsPositive parsed → Stored parsed old (some new, none)
  kept : (e : SettingError) → ¬ IsPositive parsed → Stored parsed old (some old, some e)

-- Setting a positive number or duration stores exactly the numbers above zero that were parsed; in
-- every other case the old value stays and an error is reported.
pub set_positive-Stored :
    (parsed : Option ℤ) (old : ℤ) → Stored parsed old (set_positive parsed (some old))
unfolding set_positive set_by positive
set_positive-Stored none old = kept _ (λ h. h)
set_positive-Stored (some (negsuc n)) old = kept _ (λ h. h)
set_positive-Stored (some (pos zero)) old = kept _ (λ h. omega (arith, h))
set_positive-Stored (some (pos (suc n))) old = stored _ refl (omega arith)

set_log_level-read_back :
    (l old : LogLevel) → set_log_level (log_level_string l) (some old) ≡ (some l, none)
unfolding set_log_level set_by log_level to_lower equal log_level_string
set_log_level-read_back debug old = refl
set_log_level-read_back info old = refl
set_log_level-read_back warn old = refl
set_log_level-read_back error old = refl

set_when_color-read_back :
    (c old : WhenColor) → set_when_color (when_color_string c) (some old) ≡ (some c, none)
unfolding set_when_color set_by when_color to_lower equal when_color_string
set_when_color-read_back never old = refl
set_when_color-read_back always old = refl
set_when_color-read_back auto old = refl

set_what_show-read_back :
    (w old : WhatShow) → set_what_show (what_show_string w) (some old) ≡ (some w, none)
unfolding set_what_show set_by what_show to_lower equal what_show_string
set_what_show-read_back all old = refl
set_what_show-read_back no_skip old = refl
set_what_show-read_back failed old = refl
set_what_show-read_back none_shown old = refl

-- Reading back what a level of logging, a choice of colours and a choice of results print as gives
-- the same value and no error, whatever was set before.
pub settings-read_back :
    (l old_l : LogLevel) (c old_c : WhenColor) (w old_w : WhatShow)
    → (set_log_level (log_level_string l) (some old_l) ≡ (some l, none))
      × (set_when_color (when_color_string c) (some old_c) ≡ (some c, none))
      × (set_what_show (what_show_string w) (some old_w) ≡ (some w, none))
settings-read_back l old_l c old_c w old_w = (
  set_log_level-read_back l old_l,
  set_when_color-read_back c old_c,
  set_what_show-read_back w old_w,
)
