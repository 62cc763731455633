-- ===== src/Runner/Scenario.antt =====
-- `processScenario` of internal/runner/worker.go: the requests of one task, from the first on, each
-- followed by the one that its scripts chose. The context, the cookie jar, the Lua state and the
-- recovery from a panic are left out.
pub mod Verdict
use sinq.Prelude.{
  ℕ, zero, suc, ◌+◌, ◌-◌, Bool, true, false, not, Option, none, some, List, [], ◌∷◌, ◌++◌, Bytes,
  codes, map, length, get_elem?, set, if◌then◌else◌,
}
use sinq.Blueprint.{RequestBlueprint}
use sinq.Runner.{ResultStatus, unset, success, error, RequestResult, ScenarioResult, Worker}
use sinq.Runner.Request.{Processor}
use sinq.Runner.Outcome.{Trial, Limits}
use sinq.Runner.Request.Process.{process_request}

-- `taskBundle`, with what it takes from the scenario's configuration.
pub record TaskBundle : Type 0 where
  pub config_name : Bytes
  pub tags_list : List Bytes
  pub labels : List Bytes
  pub requests : List RequestBlueprint
  pub run : Bool

join_labels : List Bytes → Bytes
join_labels [] = []
join_labels (l ∷ ls) = codes "_" ++ l ++ join_labels ls

-- `getFullName`
unfoldable pub get_full_name : TaskBundle → Bytes
unfolding join_labels
get_full_name t = t.config_name ++ join_labels t.labels

name_or_filename : Bytes → Bytes → Bytes
name_or_filename [] filename = filename
name_or_filename (b ∷ bs) filename = b ∷ bs

-- The results before any request has run.
initial_result : RequestBlueprint → RequestResult
unfolding name_or_filename
initial_result bp = record {
  status = unset;
  failed_assertions = [];
  name = name_or_filename bp.name bp.filename;
  error_message = [];
  request = [];
  response = [];
}

-- The variables of the loop.
pub record Progress : Type 0 where
  pub worker : Worker
  pub status : ResultStatus
  pub results : List RequestResult

-- The loop behind one request, if that went on.
record_request : Progress → ℕ → Processor → Progress
record_request s idx p = record {
  worker = p.worker;
  status = p.status;
  results = set s.results idx p.result;
}

-- The request at an index, with its result so far.
request_at :
    List RequestBlueprint → List RequestResult → ℕ → Option (RequestBlueprint × RequestResult)
request_at [] rs i = none
request_at (bp ∷ bps) [] i = none
request_at (bp ∷ bps) (r ∷ rs) zero = some (bp, r)
request_at (bp ∷ bps) (r ∷ rs) (suc i) = request_at bps rs i

-- The worker on its way to the next request.
abbrev step_on : Worker → Worker
step_on w = record w { request_idx = w.request_idx + 1 }

-- Behind `processRequest`; `again` is the rest of the loop.
after_outcome :
    (again : Progress → Option Progress) → Progress → Option (Processor × Bool) → Option Progress
unfolding record_request
after_outcome again s none = none
after_outcome again s (some (p, goes)) =
    let s' = record_request s s.worker.request_idx p in
    let rest = again s' in if goes then rest else some s'

-- One request of the loop of `processScenario`.
after_request :
    Limits
    → (again : Progress → Option Progress) → Progress
    → Option (RequestBlueprint × RequestResult)
    → Trial
    → Option Progress
unfolding after_outcome process_request
after_request limits again s none t = some s
after_request limits again s (some (bp, r)) t =
    after_outcome again s (process_request limits bp t (step_on s.worker) s.status r)

is_over : Option (RequestBlueprint × RequestResult) → Progress → Option Progress
is_over none s = some s
is_over (some _) s = none

-- The loop, over the outcomes of the requests that it runs; `none` says that those are too few.
scenario_loop : Limits → List RequestBlueprint → List Trial → Progress → Option Progress
unfolding request_at after_request is_over
scenario_loop limits bps [] s = is_over (request_at bps s.results s.worker.request_idx) s
scenario_loop limits bps (t ∷ ts) s =
    after_request limits (scenario_loop limits bps ts) s
      (request_at bps s.results s.worker.request_idx) t

start_progress : List RequestBlueprint → Progress
unfolding initial_result
start_progress bps = record {
  worker = record { request_idx = 0; max_request_idx = length bps - 1; assertion_failures = [] };
  status = success;
  results = map initial_result bps;
}

scenario_result : TaskBundle → ResultStatus → List RequestResult → ScenarioResult
unfolding get_full_name
scenario_result t st rs = record {
  scenario_name = get_full_name t;
  tags = t.tags_list;
  request_results = rs;
  scenario_status = st;
}

finish : TaskBundle → Option Progress → Option ScenarioResult
unfolding scenario_result
finish t none = none
finish t (some s) = some (scenario_result t s.status s.results)

-- `processScenario`; a task that is not to be run is reported with nothing set.
unfoldable pub process_scenario : Limits → TaskBundle → List Trial → Option ScenarioResult
unfolding start_progress scenario_loop finish scenario_result initial_result
process_scenario limits t trials =
    let ran = finish t (scenario_loop limits t.requests trials (start_progress t.requests)) in
    if not t.run then some (scenario_result t unset (map initial_result t.requests)) else ran
