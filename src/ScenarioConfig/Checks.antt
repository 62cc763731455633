-- ===== src/ScenarioConfig/Checks.antt =====
-- The maps of the matrix, and the range of the numbers.
pub mod Accepted
use sinq.Prelude.{
  zero, suc, ◌⊎◌, sym, ◌∙◌, inl, inr, Bool, true, false, Option, none, some, List, [], ◌∷◌, Bytes,
  equal, equal_iff, append-nil, if◌then◌else◌, arith, Bool-cases,
}
use sinq.Token.{ℤ, pos, negsuc}
use sinq.Envs.{Value, scalar, list, object, Fields, end, field, merge_fields}
use sinq.Matrix.{Axis}
use sinq.Config.{DataSize, Floats, Outcome, ok, err, parse_size}
use sinq.ScenarioConfig.{
  Settings, Helper, bad_size, no_req_timeout, no_script_timeout, no_timeout, negative_retries,
  negative_redirects, non_objects, add_tags, add_helper, parse_additional, range_errors, sized,
  additional, resized, decoded, parse_config,
}

-- Every entry is an object.
pub AllObjects : Fields → Type 0
AllObjects end = Unit
AllObjects (field k (object m) rest) = AllObjects rest
AllObjects (field k (list xs) rest) = ⊥
AllObjects (field k (scalar s) rest) = ⊥

-- A map of the matrix as it was given.
pub as_fields : Axis → Fields
as_fields [] = end
as_fields (e ∷ axis) = field e.0 (object e.1) (as_fields axis)

-- The maps that are not empty.
pub filled : List Fields → List Fields
filled [] = []
filled (end ∷ ms) = filled ms
filled (field k v m ∷ ms) = field k v m ∷ filled ms

pub IsPositive : ℤ → Type 0
IsPositive (pos zero) = ⊥
IsPositive (pos (suc n)) = Unit
IsPositive (negsuc n) = ⊥

pub IsNatural : ℤ → Type 0
IsNatural (pos n) = Unit
IsNatural (negsuc n) = ⊥
