-- ===== src/Runner.antt =====
-- internal/runner/result.go, and the calls of lua-utility.go by which a script acts on its worker.
pub mod Outcome
pub mod Cached
pub mod FileMatch
pub mod Modules
pub mod Scripts
pub mod Parser
pub mod Materialize
pub mod Request
pub mod Scenario
use sinq.Prelude.{
  ℕ, zero, suc, ◌+◌, ◌-◌, Bool, true, false, Option, none, List, [], ◌∷◌, ◌++◌, Bytes, leb,
  if◌then◌else◌,
}
use sinq.Token.{ℤ, pos, negsuc}

pub data ResultStatus : Type 0 where
  unset skipped aborted success error failure : ResultStatus

-- `RequestResult`, without its start and durations
pub record RequestResult : Type 0 where
  pub status : ResultStatus
  pub failed_assertions : List Bytes
  pub name : Bytes
  pub error_message : Bytes
  pub request : Bytes
  pub response : Bytes

-- `ScenarioResult`, without its times and its output
pub record ScenarioResult : Type 0 where
  pub scenario_name : Bytes
  pub tags : List Bytes
  pub request_results : List RequestResult
  pub scenario_status : ResultStatus

-- An `error`: whether it is `context.Canceled`, and else its text.
pub data Failure : Type 0 where
  canceled : Failure
  failed_with : Bytes → Failure

-- What a script may call: `setRequestIdx` with the number it was given, `finishScenario`, and
-- `failAssert`.
pub data Call : Type 0 where
  set_request_idx : ℤ → Call
  finish_scenario : Call
  fail_assert : Bytes → Call

-- The worker's part of the state of a scenario.
pub record Worker : Type 0 where
  pub request_idx : ℕ
  pub max_request_idx : ℕ
  pub assertion_failures : List Bytes

-- `setRequestIdx`: numbers count from one, and one that is out of range changes nothing.
jump : Worker → ℤ → Worker
jump w (negsuc n) = w
jump w (pos zero) = w
jump w (pos (suc n)) = if leb n w.max_request_idx then record w { request_idx = n } else w

unfoldable pub call : Worker → Call → Worker
unfolding jump
call w (set_request_idx n) = jump w n
call w finish_scenario = record w { request_idx = w.max_request_idx + 1 }
call w (fail_assert reason) = record w { assertion_failures = w.assertion_failures ++ reason ∷ [] }

unfoldable pub calls : Worker → List Call → Worker
unfolding call
calls w [] = w
calls w (c ∷ cs) = calls (call w c) cs
