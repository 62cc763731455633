-- ===== src/Runner/Scenario/Verdict.antt =====
-- The status that a scenario is reported with, against the statuses of its requests.
use sinq.Prelude.{◌≡◌, Option, none, some, List, All}
use sinq.Runner.{ResultStatus, success, RequestResult}
use sinq.Runner.Scenario.{Progress}
use sinq.Runner.Request.Keeps.{IsBad}
use sinq.Runner.Request.Process.Verdict.{Verdict}

-- No request of a scenario that stands at `Success` has ended badly.
abbrev Honest : ResultStatus → List RequestResult → Type 0
Honest st rs = st ≡ success → All (λ r. ¬ IsBad r.status) rs

abbrev MaybeHonest : Option Progress → Type 0
MaybeHonest none = Unit
MaybeHonest (some s) = Honest s.status s.results
