-- ===== src/ScenarioConfig.antt =====
-- internal/scenario/config-parser.go: a scenario's settings, read over those of the directories above.
-- `json.Unmarshal` is given by what it makes of the settings and of `configHelper`.
pub mod Checks
use sinq.Prelude.{
  ℕ, zero, suc, ◌+◌, Bool, true, false, Option, none, some, List, [], ◌∷◌, ◌++◌, Bytes, equal,
  if◌then◌else◌,
}
use sinq.Token.{ℤ, pos, negsuc}
use sinq.Envs.{Value, scalar, list, object, Fields, end, field, merge_fields}
use sinq.Matrix.{Axis}
use sinq.Config.{DataSize, Floats, Outcome, ok, err, parse_size}

-- `ScenarioConfig`, as far as `ParseConfig` looks at it.
pub record Settings (Rest : Type 0) : Type 0 where
  pub max_body : Bytes
  pub max_body_size : DataSize
  pub req_timeout : ℤ
  pub script_timeout : ℤ
  pub timeout : ℤ
  pub max_retries : ℤ
  pub max_redirects : ℤ
  pub tags : List Bytes
  pub env : Fields
  pub env_matrix : List Axis
  pub others : Rest

-- `configHelper`
pub record Helper : Type 0 where
  pub env : Fields
  pub env_matrix : List Fields
  pub tags : List Bytes

pub data ConfigError : Type 0 where
  unreadable bad_json bad_size no_req_timeout no_script_timeout no_timeout : ConfigError
  negative_retries negative_redirects bad_additional : ConfigError
  non_objects : List (ℕ × Bytes) → ConfigError

-- A map of the matrix: its entries that are objects, and the keys of the others with its number.
pub axis_of : ℕ → Fields → Axis × List (ℕ × Bytes)
axis_of i end = ([], [])
axis_of i (field k (object m) rest) = let (axis, bad) = axis_of i rest in ((k, m) ∷ axis, bad)
axis_of i (field k (list xs) rest) = let (axis, bad) = axis_of i rest in (axis, (i, k) ∷ bad)
axis_of i (field k (scalar s) rest) = let (axis, bad) = axis_of i rest in (axis, (i, k) ∷ bad)

pub with_axis :
    Axis × List (ℕ × Bytes) → List Axis × List (ℕ × Bytes) → List Axis × List (ℕ × Bytes)
with_axis (axis, bad) (axes, more) = (axis ∷ axes, bad ++ more)

-- The maps that are not empty.
pub axes_of : ℕ → List Fields → List Axis × List (ℕ × Bytes)
unfolding axis_of with_axis
axes_of i [] = ([], [])
axes_of i (end ∷ ms) = axes_of (i + 1) ms
axes_of i (field k v m ∷ ms) = with_axis (axis_of i (field k v m)) (axes_of (i + 1) ms)

-- `target.Tags[tag] = struct{}{}`
pub add_tag : Bytes → List Bytes → List Bytes
add_tag t [] = t ∷ []
add_tag t (u ∷ ts) = if equal u t then u ∷ ts else u ∷ add_tag t ts

pub add_tags : List Bytes → List Bytes → List Bytes
unfolding add_tag
add_tags tags [] = tags
add_tags tags (t ∷ ts) = add_tags (add_tag t tags) ts

pub positive_or : ConfigError → ℤ → List ConfigError
positive_or e (pos zero) = e ∷ []
positive_or e (pos (suc n)) = []
positive_or e (negsuc n) = e ∷ []

pub natural_or : ConfigError → ℤ → List ConfigError
natural_or e (pos n) = []
natural_or e (negsuc n) = e ∷ []

module _ {Rest : Type 0} where
  -- Behind the matrix.
  pub add_helper :
      Settings Rest → Helper → List Axis × List (ℕ × Bytes) → Settings Rest × List ConfigError
  unfolding add_tags merge_fields
  add_helper s h (axes, b ∷ bad) = (s, non_objects (b ∷ bad) ∷ [])
  add_helper s h (axes, []) = (
    record s {
      env_matrix = s.env_matrix ++ axes;
      tags = add_tags s.tags h.tags;
      env = merge_fields s.env h.env;
    },
    [],
  )

  -- `parseAdditionalData`
  pub parse_additional : Settings Rest → Option Helper → Settings Rest × List ConfigError
  unfolding add_helper axes_of
  parse_additional s none = (s, bad_additional ∷ [])
  parse_additional s (some h) = add_helper s h (axes_of 0 h.env_matrix)

  -- The timeouts and the counts.
  pub range_errors : Settings Rest → List ConfigError
  unfolding positive_or natural_or
  range_errors s =
      positive_or no_req_timeout s.req_timeout
      ++ positive_or no_script_timeout s.script_timeout
      ++ positive_or no_timeout s.timeout
      ++ natural_or negative_retries s.max_retries
      ++ natural_or negative_redirects s.max_redirects

  pub sized : Settings Rest → Outcome DataSize → Settings Rest × List ConfigError
  sized s (ok size) = (record s { max_body_size = size }, [])
  sized s (err e) = (s, bad_size ∷ [])

  pub additional :
      Option Helper → Settings Rest × List ConfigError → Settings Rest × List ConfigError
  unfolding parse_additional range_errors
  additional h (s, errors) =
      let (s', more) = parse_additional s h in (s', errors ++ range_errors s ++ more)

  module _ (floats : Floats) where
    -- The size is read again only if it is another one.
    pub resized : Bytes → Settings Rest → Settings Rest × List ConfigError
    unfolding parse_size sized
    resized old s =
        let parsed = sized s (parse_size floats s.max_body) in
        if equal s.max_body old then (s, []) else parsed

    pub decoded : Bytes → Settings Rest × Bool → Option Helper → Settings Rest × List ConfigError
    unfolding resized additional
    decoded old (s, true) h = (s, bad_json ∷ [])
    decoded old (s, false) h = additional h (resized old s)

    -- `ParseConfig`; `unmarshal` gives the settings, and whether it failed.
    unfoldable pub parse_config :
        (unmarshal : Bytes → Settings Rest → Settings Rest × Bool)
        → (Bytes → Option Helper)
        → Option Bytes
        → Settings Rest
        → Settings Rest × List ConfigError
    unfolding decoded
    parse_config unmarshal helper none target = (target, unreadable ∷ [])
    parse_config unmarshal helper (some bytes) target =
        decoded target.max_body (unmarshal bytes target) (helper bytes)
