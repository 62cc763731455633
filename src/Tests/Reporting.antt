-- ===== src/Tests/Reporting.antt =====
-- The JUnit report at concrete inputs.
use sinq.Prelude.{◌≡◌, refl, true, [], ◌∷◌, codes, List, Bytes}
use sinq.Runner.{ResultStatus, success, error, failure, RequestResult, ScenarioResult}
use sinq.Reporter.{succeeds, exit_code}
use sinq.Reporter.Junit.{junit_report}
use sinq.Reporter.Junit.Counts.{IsReport, junit_report-IsReport, succeeds-errors}

abbrev request_with : ResultStatus → List Bytes → RequestResult
request_with st assertions = record {
  status = st;
  failed_assertions = assertions;
  name = codes "r";
  error_message = codes "e";
  request = [];
  response = [];
}

abbrev scenario_with : ResultStatus → List RequestResult → ScenarioResult
scenario_with st rs = record {
  scenario_name = codes "s";
  tags = [];
  request_results = rs;
  scenario_status = st;
}

abbrev three_results : List ScenarioResult
three_results =
    scenario_with failure
      (request_with failure (codes "a" ∷ codes "b" ∷ []) ∷ request_with success [] ∷ [])
    ∷ scenario_with error (request_with error [] ∷ [])
    ∷ []

junit_report-IsReport_example : IsReport three_results (junit_report three_results)
junit_report-IsReport_example = junit_report-IsReport three_results

three_counted : (junit_report three_results).all_errors ≡ 1
unfolding junit_report
three_counted = refl

abbrev good_results : List ScenarioResult
good_results = scenario_with success (request_with success [] ∷ []) ∷ []

good_results-succeed : succeeds good_results 1 ≡ true
unfolding succeeds
good_results-succeed = refl

succeeds-errors_example : (junit_report good_results).all_errors ≡ 0
succeeds-errors_example = succeeds-errors good_results 1 good_results-succeed

-- A scenario that ended in an error of its own, as behind a panic, is in no number of the report, while
-- the program fails.
abbrev panicked : List ScenarioResult
panicked = scenario_with error (request_with success [] ∷ []) ∷ []

panic_unreported : (junit_report panicked).all_errors ≡ 0
unfolding junit_report
panic_unreported = refl

panic_fails : exit_code panicked 1 ≡ 1
unfolding exit_code
panic_fails = refl
