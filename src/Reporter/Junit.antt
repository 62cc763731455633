-- ===== src/Reporter/Junit.antt =====
-- internal/reporter/junit/junit-reporter.go: the report that is written as XML, without its times and
-- the scripts' output. `encoding/xml`, which writes it, is left out.
pub mod Counts
use sinq.Prelude.{
  ℕ, ◌+◌, Bool, true, false, Option, none, some, List, [], ◌∷◌, ◌++◌, Bytes, codes, length,
  if◌then◌else◌,
}
use sinq.Runner.{
  ResultStatus, unset, skipped, aborted, success, error, failure, RequestResult, ScenarioResult,
}

-- `JUnitTestCase`: the messages of its failure and of its error.
pub record TestCase : Type 0 where
  pub case_name : Bytes
  pub class_name : Bytes
  pub case_failure : Option Bytes
  pub case_error : Option Bytes
  pub is_skipped : Bool

-- `JUnitTestSuite`
pub record TestSuite : Type 0 where
  pub suite_name : Bytes
  pub tests : ℕ
  pub failures : ℕ
  pub errors : ℕ
  pub test_cases : List TestCase
  pub tags_property : Option Bytes

-- `JUnitReport`
pub record JunitReport : Type 0 where
  pub all_tests : ℕ
  pub all_failures : ℕ
  pub all_errors : ℕ
  pub suites : List TestSuite

-- `strings.Join(parts, ", ")`
join : List Bytes → Bytes
join [] = []
join (p ∷ []) = p
join (p ∷ q ∷ ps) = p ++ (codes ", " ++ join (q ∷ ps))

-- Some texts in one, unless there are none.
joined : List Bytes → Option Bytes
unfolding join
joined [] = none
joined (a ∷ more) = some (join (a ∷ more))

error_of : ResultStatus → Bytes → Option Bytes
error_of error message = some message
error_of aborted message = some (codes "Request was interrupted")
error_of unset message = none
error_of skipped message = none
error_of success message = none
error_of failure message = none

skips : ResultStatus → Bool
skips unset = true
skips skipped = true
skips aborted = false
skips success = false
skips error = false
skips failure = false

-- `Failures += 1` and `Errors += 1`, under their conditions.
bump : {A : Type 0} → ℕ → Option A → ℕ
bump n none = n
bump n (some x) = n + 1

-- One round of the loop over the requests.
add_request : TestSuite → RequestResult → TestSuite
unfolding joined error_of skips bump
add_request suite r =
    let f = joined r.failed_assertions in
    let e = error_of r.status r.error_message in
    record suite {
      failures = bump suite.failures f;
      errors = bump suite.errors e;
      test_cases =
          suite.test_cases
          ++ record {
            case_name = r.name;
            class_name = suite.suite_name;
            case_failure = f;
            case_error = e;
            is_skipped = skips r.status;
          }
            ∷ [];
    }

add_requests : TestSuite → List RequestResult → TestSuite
unfolding add_request
add_requests suite [] = suite
add_requests suite (r ∷ rs) = add_requests (add_request suite r) rs

new_suite : ScenarioResult → TestSuite
unfolding joined
new_suite result = record {
  suite_name = result.scenario_name;
  tests = length result.request_results;
  failures = 0;
  errors = 0;
  test_cases = [];
  tags_property = joined result.tags;
}

-- One round of the loop over the scenarios.
add_scenario : JunitReport → ScenarioResult → JunitReport
unfolding add_requests new_suite
add_scenario report result =
    let suite = add_requests (new_suite result) result.request_results in
    record {
      all_tests = report.all_tests + suite.tests;
      all_failures = report.all_failures + suite.failures;
      all_errors = report.all_errors + suite.errors;
      suites = report.suites ++ suite ∷ [];
    }

add_scenarios : JunitReport → List ScenarioResult → JunitReport
unfolding add_scenario
add_scenarios report [] = report
add_scenarios report (r ∷ rs) = add_scenarios (add_scenario report r) rs

-- `Report`, up to its time
unfoldable pub junit_report : List ScenarioResult → JunitReport
unfolding add_scenarios
junit_report results =
    add_scenarios (record { all_tests = 0; all_failures = 0; all_errors = 0; suites = [] }) results
