-- ===== src/Reporter/Tally.antt =====
-- What the counters of the standard report count, and the numbers at its end.
use sinq.Prelude.{ℕ, ◌+◌, ◌-◌, ◌≤◌, ◌≡◌, refl, Bool, true, false, List, [], ◌∷◌, length, arith}
use sinq.Runner.{
  ResultStatus, unset, skipped, aborted, success, error, failure, RequestResult, ScenarioResult,
}
use sinq.Reporter.{
  ReportData, new_report_data, count_scenario, RequestCounts, count_request, count_requests, report,
  report_each, report_end, Summary,
}

-- Which statuses each number is about.
abbrev pub succeeded_with : ResultStatus → Bool
succeeded_with success = true
succeeded_with _ = false

abbrev pub failed_with_it : ResultStatus → Bool
failed_with_it error = true
failed_with_it failure = true
failed_with_it _ = false

abbrev pub aborted_with : ResultStatus → Bool
aborted_with aborted = true
aborted_with _ = false

abbrev pub not_run_with : ResultStatus → Bool
not_run_with unset = true
not_run_with skipped = true
not_run_with _ = false

abbrev pub one_if : Bool → ℕ
one_if true = 1
one_if false = 0

-- How many requests, and how many scenarios, ended with such a status.
abbrev pub requests_with : (ResultStatus → Bool) → List RequestResult → ℕ
requests_with p [] = 0
requests_with p (r ∷ rs) = one_if (p r.status) + requests_with p rs

abbrev pub scenarios_with : (ResultStatus → Bool) → List ScenarioResult → ℕ
scenarios_with p [] = 0
scenarios_with p (r ∷ rs) = one_if (p r.scenario_status) + scenarios_with p rs

-- The same of the requests of all scenarios.
abbrev pub all_requests_with : (ResultStatus → Bool) → List ScenarioResult → ℕ
all_requests_with p [] = 0
all_requests_with p (r ∷ rs) = requests_with p r.request_results + all_requests_with p rs

abbrev pub all_requests : List ScenarioResult → ℕ
all_requests [] = 0
all_requests (r ∷ rs) = length r.request_results + all_requests rs

-- What one status adds to three numbers of those that ran, succeeded and were aborted.
abbrev Adds : ResultStatus → (ran ran' good good' stopped stopped' : ℕ) → Type 0
Adds st ran ran' good good' stopped stopped' =
    (ran' + one_if (not_run_with st) ≡ ran + 1)
    × (good' ≡ good + one_if (succeeded_with st))
    × (stopped' ≡ stopped + one_if (aborted_with st))

count_request-Adds :
    (st : ResultStatus) (c : RequestCounts)
    → let d = count_request c st in
      Adds st c.ran d.ran c.successful d.successful c.stopped d.stopped
unfolding count_request
count_request-Adds unset c = (omega arith, omega arith, omega arith)
count_request-Adds skipped c = (omega arith, omega arith, omega arith)
count_request-Adds aborted c = (omega arith, omega arith, omega arith)
count_request-Adds success c = (omega arith, omega arith, omega arith)
count_request-Adds error c = (omega arith, omega arith, omega arith)
count_request-Adds failure c = (omega arith, omega arith, omega arith)

count_scenario-Adds :
    (rd : ReportData) (st : ResultStatus)
    → let d = count_scenario rd st in
      Adds st rd.ran_scenarios d.ran_scenarios rd.successful_scenarios d.successful_scenarios
        rd.aborted_scenarios d.aborted_scenarios
unfolding count_scenario
count_scenario-Adds rd unset = (omega arith, omega arith, omega arith)
count_scenario-Adds rd skipped = (omega arith, omega arith, omega arith)
count_scenario-Adds rd aborted = (omega arith, omega arith, omega arith)
count_scenario-Adds rd success = (omega arith, omega arith, omega arith)
count_scenario-Adds rd error = (omega arith, omega arith, omega arith)
count_scenario-Adds rd failure = (omega arith, omega arith, omega arith)

-- The status of a scenario touches no other counter.
count_scenario_kept :
    (rd : ReportData) (st : ResultStatus)
    → let d = count_scenario rd st in
      (d.size ≡ rd.size)
      × (d.total_scenarios ≡ rd.total_scenarios)
      × (d.total_requests ≡ rd.total_requests)
      × (d.ran_requests ≡ rd.ran_requests)
      × (d.successful_requests ≡ rd.successful_requests)
      × (d.aborted_requests ≡ rd.aborted_requests)
unfolding count_scenario
count_scenario_kept rd unset = (refl, refl, refl, refl, refl, refl)
count_scenario_kept rd skipped = (refl, refl, refl, refl, refl, refl)
count_scenario_kept rd aborted = (refl, refl, refl, refl, refl, refl)
count_scenario_kept rd success = (refl, refl, refl, refl, refl, refl)
count_scenario_kept rd error = (refl, refl, refl, refl, refl, refl)
count_scenario_kept rd failure = (refl, refl, refl, refl, refl, refl)

-- What the loop over the requests of a scenario adds.
count_requests-adds :
    (rs : List RequestResult) (c : RequestCounts)
    → let d = count_requests c rs in
      (d.ran + requests_with not_run_with rs ≡ c.ran + length rs)
      × (d.successful ≡ c.successful + requests_with succeeded_with rs)
      × (d.stopped ≡ c.stopped + requests_with aborted_with rs)
unfolding count_requests
count_requests-adds [] c = (omega arith, omega arith, omega arith)
count_requests-adds (r ∷ rs) c =
    let one = count_request-Adds r.status c in
    let more = count_requests-adds rs (count_request c r.status) in
    (omega (arith, one.0, more.0), omega (arith, one.1, more.1), omega (arith, one.2, more.2))

-- What the counters say of the scenarios that were reported, in a report that was begun for `size`.
pub record IsTally (size : ℕ) (rs : List ScenarioResult) (rd : ReportData) : Type 0 where
  pub announced : rd.size ≡ size
  pub reported : rd.total_scenarios ≡ length rs
  pub ran : rd.ran_scenarios + scenarios_with not_run_with rs ≡ length rs
  pub good : rd.successful_scenarios ≡ scenarios_with succeeded_with rs
  pub stopped : rd.aborted_scenarios ≡ scenarios_with aborted_with rs
  pub requests : rd.total_requests ≡ all_requests rs
  pub requests_ran : rd.ran_requests + all_requests_with not_run_with rs ≡ all_requests rs
  pub requests_good : rd.successful_requests ≡ all_requests_with succeeded_with rs
  pub requests_stopped : rd.aborted_requests ≡ all_requests_with aborted_with rs

-- The same, from any counters on.
record Grows (rs : List ScenarioResult) (rd d : ReportData) : Type 0 where
  pub announced : d.size ≡ rd.size
  pub reported : d.total_scenarios ≡ rd.total_scenarios + length rs
  pub ran : d.ran_scenarios + scenarios_with not_run_with rs ≡ rd.ran_scenarios + length rs
  pub good : d.successful_scenarios ≡ rd.successful_scenarios + scenarios_with succeeded_with rs
  pub stopped : d.aborted_scenarios ≡ rd.aborted_scenarios + scenarios_with aborted_with rs
  pub requests : d.total_requests ≡ rd.total_requests + all_requests rs
  pub requests_ran :
      d.ran_requests + all_requests_with not_run_with rs ≡ rd.ran_requests + all_requests rs
  pub requests_good :
      d.successful_requests ≡ rd.successful_requests + all_requests_with succeeded_with rs
  pub requests_stopped :
      d.aborted_requests ≡ rd.aborted_requests + all_requests_with aborted_with rs

report_each-Grows : (rs : List ScenarioResult) (rd : ReportData) → Grows rs rd (report_each rd rs)
unfolding report_each report
report_each-Grows [] rd = record {
  announced = refl;
  reported = omega arith;
  ran = omega arith;
  good = omega arith;
  stopped = omega arith;
  requests = omega arith;
  requests_ran = omega arith;
  requests_good = omega arith;
  requests_stopped = omega arith;
}
report_each-Grows (r ∷ rs) rd =
    let more = report_each-Grows rs (report rd r) in
    let more_total = record rd { total_scenarios = rd.total_scenarios + 1 } in
    let st = count_scenario-Adds more_total r.scenario_status in
    let kept = count_scenario_kept more_total r.scenario_status in
    let c =
      count_requests-adds r.request_results (record { ran = 0; successful = 0; stopped = 0 }) in
    record {
      announced = omega (arith, more.announced, kept.0);
      reported = omega (arith, more.reported, kept.1);
      ran = omega (arith, more.ran, st.0);
      good = omega (arith, more.good, st.1);
      stopped = omega (arith, more.stopped, st.2);
      requests = omega (arith, more.requests, kept.2);
      requests_ran = omega (arith, more.requests_ran, kept.3, c.0);
      requests_good = omega (arith, more.requests_good, kept.4, c.1);
      requests_stopped = omega (arith, more.requests_stopped, kept.5, c.2);
    }

report_each-IsTally :
    (rs : List ScenarioResult) (size : ℕ) → IsTally size rs (report_each (new_report_data size) rs)
unfolding new_report_data
report_each-IsTally rs size =
    let g = report_each-Grows rs (new_report_data size) in
    record {
      announced = g.announced;
      reported = omega (arith, g.reported);
      ran = omega (arith, g.ran);
      good = omega (arith, g.good);
      stopped = omega (arith, g.stopped);
      requests = omega (arith, g.requests);
      requests_ran = omega (arith, g.requests_ran);
      requests_good = omega (arith, g.requests_good);
      requests_stopped = omega (arith, g.requests_stopped);
    }

-- Each scenario is in one of the four.
scenarios_with_all :
    (rs : List ScenarioResult)
    → scenarios_with succeeded_with rs
        + scenarios_with failed_with_it rs
        + scenarios_with aborted_with rs
        + scenarios_with not_run_with rs
      ≡ length rs
scenarios_with_all [] = omega arith
scenarios_with_all (r ∷ rs) = omega (arith, one r.scenario_status, scenarios_with_all rs)
  where
    one :
        (st : ResultStatus)
        → one_if (succeeded_with st)
            + one_if (failed_with_it st)
            + one_if (aborted_with st)
            + one_if (not_run_with st)
          ≡ 1
    one unset = omega arith
    one skipped = omega arith
    one aborted = omega arith
    one success = omega arith
    one error = omega arith
    one failure = omega arith

-- The numbers at the end: of those that succeeded, that failed or ended in an error, that were aborted or
-- are missing, and that were not run.
pub record IsSummary (size : ℕ) (rs : List ScenarioResult) (s : Summary) : Type 0 where
  pub succeeded : s.succeeded ≡ scenarios_with succeeded_with rs
  pub failed : s.failed ≡ scenarios_with failed_with_it rs
  pub stopped : s.aborted_or_missing ≡ scenarios_with aborted_with rs + (size - length rs)
  pub not_run : s.not_run ≡ scenarios_with not_run_with rs
  pub adds_up : s.succeeded + s.failed + s.aborted_or_missing + s.not_run ≡ size

-- The counters of a report count the scenarios and their requests by their statuses. Where no more
-- scenarios were reported than announced, the final numbers are those of the scenarios that succeeded, that
-- failed or ended in an error, that were aborted or are missing, and that were not run, and they add up to
-- the announced one.
pub report_end-IsSummary :
    (rs : List ScenarioResult) (size : ℕ)
    → length rs ≤ size
    → let rd = report_each (new_report_data size) rs in
      IsTally size rs rd × IsSummary size rs (report_end rd)
unfolding report_end
report_end-IsSummary rs size h =
    let t = report_each-IsTally rs size in
    let all = scenarios_with_all rs in
    (
      t,
      record {
        succeeded = t.good;
        failed = omega (arith, t.ran, t.good, t.stopped, all);
        stopped = omega (arith, t.announced, t.reported, t.stopped);
        not_run = omega (arith, t.announced, t.reported, t.ran);
        adds_up = omega (arith, t.announced, t.reported, t.ran, t.good, t.stopped, all);
      },
    )
