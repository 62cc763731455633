-- ===== src/Tests/Accepting.antt =====
-- Settings of a scenario at concrete inputs.
use sinq.Prelude.{ℕ, ◌≡◌, refl, Bool, false, Option, some, [], ◌∷◌, Bytes, codes, equal}
use sinq.Token.{pos, negsuc}
use sinq.Envs.{end, field, object, scalar}
use sinq.Config.{Floats, byte}
use sinq.ScenarioConfig.{Settings, Helper, negative_retries, non_objects, parse_config}

abbrev whole_numbers : Floats
whole_numbers = record {
  Float = ℕ;
  parse_float = λ text. some 1;
  is_negative = λ n. false;
  times_unit = λ n unit. n;
}

abbrev defaults : Settings Unit
defaults = record {
  max_body = codes "1B";
  max_body_size = record { byte_amount = 1; unit = byte };
  req_timeout = pos 1;
  script_timeout = pos 1;
  timeout = pos 1;
  max_retries = pos 0;
  max_redirects = pos 0;
  tags = [];
  env = end;
  env_matrix = [];
  others = tt;
}

abbrev unchanged : Bytes → Settings Unit → Settings Unit × Bool
unchanged bytes s = (s, false)

abbrev two_users : Helper
two_users = record {
  env = field (codes "a") (scalar (codes "1")) end;
  env_matrix = field (codes "u") (object end) (field (codes "v") (object end) end) ∷ end ∷ [];
  tags = codes "smoke" ∷ [];
}

abbrev users : Bytes → Option Helper
users bytes = some two_users

users_accepted : (parse_config whole_numbers unchanged users (some []) defaults).1 ≡ []
unfolding parse_config equal
users_accepted = refl

abbrev backwards : Bytes → Settings Unit → Settings Unit × Bool
backwards bytes s = (record s { max_retries = negsuc 0 }, false)

abbrev plain_matrix : Bytes → Option Helper
plain_matrix bytes =
    some (record two_users { env_matrix = field (codes "u") (scalar (codes "1")) end ∷ [] })

all_reported :
    (parse_config whole_numbers backwards plain_matrix (some []) defaults).1
    ≡ negative_retries ∷ non_objects ((0, codes "u") ∷ []) ∷ []
unfolding parse_config equal
all_reported = refl
