-- ===== src/ScenarioConfig/Checks/Accepted.antt =====
-- The settings that are accepted, and what they are then.
use sinq.Prelude.{◌≡◌, ◌⊎◌, List, ◌++◌, Bytes, map, All}
use sinq.Envs.{merge_fields}
use sinq.Matrix.{Axis}
use sinq.Config.{DataSize, Floats, ok, parse_size}
use sinq.ScenarioConfig.{Settings, Helper, add_tags, range_errors}
use sinq.ScenarioConfig.Checks.{AllObjects, as_fields, filled, IsPositive, IsNatural}

module _ {Rest : Type 0} where
  pub record IsInRange (s : Settings Rest) : Type 0 where
    pub req_timeout_positive : IsPositive s.req_timeout
    pub script_timeout_positive : IsPositive s.script_timeout
    pub timeout_positive : IsPositive s.timeout
    pub retries_natural : IsNatural s.max_retries
    pub redirects_natural : IsNatural s.max_redirects

  -- What is added to the settings.
  pub record HasAdded (s : Settings Rest) (h : Helper) (r : Settings Rest) : Type 0 where
    pub merged_env : r.env ≡ merge_fields s.env h.env
    pub added_tags : r.tags ≡ add_tags s.tags h.tags
    pub axes : List Axis
    pub added_axes : r.env_matrix ≡ s.env_matrix ++ axes
    pub given_axes : map as_fields axes ≡ filled h.env_matrix

  module _ (floats : Floats) where
    -- The settings with which `ParseConfig` reports no error.
    pub record IsAccepted (old : Bytes) (s : Settings Rest) (h : Helper) : Type 0 where
      pub size_known :
          (s.max_body ≡ old) ⊎ (size : DataSize) × (parse_size floats s.max_body ≡ ok size)
      pub in_range : IsInRange s
      pub objects : All AllObjects h.env_matrix

    -- The settings with another size.
    record Resized (s r : Settings Rest) : Type 0 where
      same_range : range_errors r ≡ range_errors s
      same_env : r.env ≡ s.env
      same_tags : r.tags ≡ s.tags
      same_matrix : r.env_matrix ≡ s.env_matrix
