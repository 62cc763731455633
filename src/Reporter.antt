-- ===== src/Reporter.antt =====
-- internal/reporter/result/result-reporter.go, which decides the exit status, and the counters of
-- internal/reporter/standard/report-data.go. What the latter prints is left out but for its verdict.
pub mod Exit
pub mod Tally
pub mod Prefix
pub mod Junit
use sinq.Prelude.{
  ℕ, ◌+◌, ◌-◌, Bool, true, false, not, ◌&&◌, ◌||◌, List, [], ◌∷◌, length, ◌==◌, if◌then◌else◌,
}
use sinq.Runner.{
  ResultStatus, unset, skipped, aborted, success, error, failure, RequestResult, ScenarioResult,
}

-- `Status == Failure || Status == Error || Status == Aborted`
unfoldable pub is_bad : ResultStatus → Bool
is_bad failure = true
is_bad error = true
is_bad aborted = true
is_bad _ = false

-- `ResultReporter`, with the count of its loop.
pub record ResultReporter : Type 0 where
  pub all_good : Bool
  pub count : ℕ

any_bad : List RequestResult → Bool
unfolding is_bad
any_bad [] = false
any_bad (r ∷ rs) = if is_bad r.status then true else any_bad rs

-- One round of the loop of `Report`.
report_one : ResultReporter → ScenarioResult → ResultReporter
unfolding is_bad any_bad
report_one rr result =
    if not rr.all_good
    then rr
    else if is_bad result.scenario_status
    then record rr { all_good = false }
    else record { all_good = not (any_bad result.request_results); count = rr.count + 1 }

report_all : ResultReporter → List ScenarioResult → ResultReporter
unfolding report_one
report_all rr [] = rr
report_all rr (r ∷ rs) = report_all (report_one rr r) rs

-- `Report` and then `Success`: the results that came, and the number that was announced.
unfoldable pub succeeds : List ScenarioResult → ℕ → Bool
unfolding report_all
succeeds results size =
    let rr = report_all (record { all_good = true; count = 0 }) results in
    rr.all_good && rr.count == size

-- `handleReporting`: the exit code of the program.
unfoldable pub exit_code : List ScenarioResult → ℕ → ℕ
unfolding succeeds
exit_code results size = if succeeds results size then 0 else 1

-- The counters of `reportData`.
pub record ReportData : Type 0 where
  pub size : ℕ
  pub total_scenarios : ℕ
  pub ran_scenarios : ℕ
  pub successful_scenarios : ℕ
  pub aborted_scenarios : ℕ
  pub total_requests : ℕ
  pub ran_requests : ℕ
  pub successful_requests : ℕ
  pub aborted_requests : ℕ

unfoldable pub new_report_data : ℕ → ReportData
new_report_data size = record {
  size = size;
  total_scenarios = 0;
  ran_scenarios = 0;
  successful_scenarios = 0;
  aborted_scenarios = 0;
  total_requests = 0;
  ran_requests = 0;
  successful_requests = 0;
  aborted_requests = 0;
}

-- The switch of `report` on the scenario's status.
count_scenario : ReportData → ResultStatus → ReportData
count_scenario rd unset = rd
count_scenario rd skipped = rd
count_scenario rd aborted = record rd {
  ran_scenarios = rd.ran_scenarios + 1;
  aborted_scenarios = rd.aborted_scenarios + 1;
}
count_scenario rd success = record rd {
  ran_scenarios = rd.ran_scenarios + 1;
  successful_scenarios = rd.successful_scenarios + 1;
}
count_scenario rd error = record rd { ran_scenarios = rd.ran_scenarios + 1 }
count_scenario rd failure = record rd { ran_scenarios = rd.ran_scenarios + 1 }

-- The requests of one scenario, as the loop of `report` counts them.
pub record RequestCounts : Type 0 where
  pub ran : ℕ
  pub successful : ℕ
  pub stopped : ℕ

count_request : RequestCounts → ResultStatus → RequestCounts
count_request c success = record c { ran = c.ran + 1; successful = c.successful + 1 }
count_request c failure = record c { ran = c.ran + 1 }
count_request c error = record c { ran = c.ran + 1 }
count_request c aborted = record c { ran = c.ran + 1; stopped = c.stopped + 1 }
count_request c _ = c

count_requests : RequestCounts → List RequestResult → RequestCounts
unfolding count_request
count_requests c [] = c
count_requests c (r ∷ rs) = count_requests (count_request c r.status) rs

-- The counting of `report`.
unfoldable pub report : ReportData → ScenarioResult → ReportData
unfolding count_scenario count_requests
report rd result =
    let c =
      count_requests (record { ran = 0; successful = 0; stopped = 0 }) result.request_results in
    let counted =
      count_scenario (record rd { total_scenarios = rd.total_scenarios + 1 })
        result.scenario_status in
    record counted {
      total_requests = counted.total_requests + length result.request_results;
      ran_requests = counted.ran_requests + c.ran;
      successful_requests = counted.successful_requests + c.successful;
      aborted_requests = counted.aborted_requests + c.stopped;
    }

unfoldable pub report_each : ReportData → List ScenarioResult → ReportData
unfolding report
report_each rd [] = rd
report_each rd (r ∷ rs) = report_each (report rd r) rs

-- The status text of `reportEnd`.
pub data FinalStatus : Type 0 where
  passed failed_status aborted_status skipped_status : FinalStatus

-- The numbers that `reportEnd` prints.
pub record Summary : Type 0 where
  pub succeeded : ℕ
  pub failed : ℕ
  pub aborted_or_missing : ℕ
  pub not_run : ℕ
  pub final_status : FinalStatus

final_of : (size failed aborted_or_missing not_run : ℕ) → FinalStatus
final_of size failed aborted_or_missing not_run =
    if not_run == size
    then skipped_status
    else if not (aborted_or_missing == 0)
    then aborted_status
    else if not (failed == 0)
    then failed_status
    else passed

-- `reportEnd`, where no more scenarios were reported than announced: the differences are the
-- source's, which are negative otherwise.
unfoldable pub report_end : ReportData → Summary
unfolding final_of
report_end rd =
    let missing = rd.size - rd.total_scenarios in
    let failed = rd.ran_scenarios - rd.successful_scenarios - rd.aborted_scenarios in
    let not_run = rd.size - rd.ran_scenarios - missing in
    let stopped = rd.aborted_scenarios + missing in
    record {
      succeeded = rd.successful_scenarios;
      failed = failed;
      aborted_or_missing = stopped;
      not_run = not_run;
      final_status = final_of rd.size failed stopped not_run;
    }
