-- ===== src/Tests/Settings.antt =====
-- Filters and settings at concrete inputs.
use mathlib.Core.Option.{some-injective}
use sinq.Envs.Merge.{IsMapValue}
use sinq.Prelude.{
  subst, Bytes, Option, ◌++◌, ◌≡◌, ◌↔◌, refl, true, false, [], ◌∷◌, some, none, codes, equal,
}
use sinq.Token.{pos}
use sinq.Envs.{lookup, Value, scalar, object, Fields, end, field}
use sinq.Config.KeyVal.{stored, set_env}
use sinq.Config.KeyVal.Paths.{join_key, IsSetAt, set_env-IsSetAt}
use sinq.Config.{Filters, should_include}
use sinq.Config.Kept.{IsKept, should_include_iff}
use sinq.Config.Values.{
  set_positive, set_log_level, set_when_color, set_what_show, log_level_string, when_color_string,
  what_show_string, warn, debug, never, auto, failed, all,
}
use sinq.Config.Values.Stores.{Stored, set_positive-Stored, settings-read_back}

abbrev smoke : Filters
smoke = record {
  tags_include = codes "smoke" ∷ [];
  names_include = [];
  tags_exclude = codes "slow" ∷ [];
  names_exclude = equal (codes "old") ∷ [];
}

should_include_iff_example :
    (should_include smoke (codes "smoke" ∷ []) (codes "login") ≡ true)
    ↔ IsKept smoke (codes "smoke" ∷ []) (codes "login")
should_include_iff_example = should_include_iff smoke (codes "smoke" ∷ []) (codes "login")

smoke_kept : should_include smoke (codes "smoke" ∷ []) (codes "login") ≡ true
unfolding should_include equal
smoke_kept = refl

slow_left_out : should_include smoke (codes "smoke" ∷ codes "slow" ∷ []) (codes "login") ≡ false
unfolding should_include equal
slow_left_out = refl

set_positive-Stored_example :
    Stored (some (pos 0)) (pos 4) (set_positive (some (pos 0)) (some (pos 4)))
set_positive-Stored_example = set_positive-Stored (some (pos 0)) (pos 4)

settings-read_back_example :
    (set_log_level (log_level_string warn) (some debug) ≡ (some warn, none))
    × (set_when_color (when_color_string auto) (some never) ≡ (some auto, none))
    × (set_what_show (what_show_string failed) (some all) ≡ (some failed, none))
settings-read_back_example = settings-read_back warn debug auto never failed all

abbrev no_json : Bytes → Option Value
no_json text = none

abbrev some_env : Fields
some_env = field (codes "db") (object (field (codes "port") (scalar (codes "1")) end)) end

-- Reads every text as a map with a user.
abbrev user_json : Bytes → Option Value
user_json text = some (object (field (codes "user") (scalar text) end))

set_env-IsSetAt_example :
    (result : Fields) × (set_env user_json
        (some some_env)
        (join_key (codes "db") [] ++ b'=' ∷ codes "x")
      ≡ stored result)
    × IsSetAt (codes "db" ∷ []) (codes "x") (user_json (codes "x")) some_env result
unfolding lookup
set_env-IsSetAt_example =
    set_env-IsSetAt user_json some_env b'd' (codes "b") [] (codes "x")
      (λ v e.
        subst IsMapValue
          (some-injective (object (field (codes "user") (scalar (codes "x")) end)) v e)
          (refl, tt, tt))
      (((refl, refl), ((refl, refl), tt))) tt

host_beside_port :
    set_env no_json (some some_env) (codes "db.host=h")
    ≡ stored (
        field
          (codes "db")
          (object (
            field
              (codes "port")
              (scalar (codes "1"))
              (field (codes "host") (scalar (codes "h")) end)))
          end)
unfolding set_env equal
host_beside_port = refl
