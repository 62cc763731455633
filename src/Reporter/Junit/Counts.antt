-- ===== src/Reporter/Junit/Counts.antt =====
-- The counters of the JUnit report.
use sinq.Prelude.{
  ℕ, suc, ◌+◌, ◌≡◌, refl, sym, ap, ◌∙◌, Bool, true, false, Option, none, some, List, [], ◌∷◌, ◌++◌,
  Bytes, length, if◌then◌else◌, All, All-append, arith,
}
use sinq.Runner.{
  ResultStatus, unset, skipped, aborted, success, error, failure, RequestResult, ScenarioResult,
}
use sinq.Runner.Request.Keeps.{IsBad}
use sinq.Reporter.{succeeds}
use sinq.Reporter.Exit.{IsGood, succeeds_iff}
use sinq.Reporter.Junit.{
  TestCase, TestSuite, JunitReport, joined, error_of, bump, add_request, add_requests, new_suite,
  add_scenario, add_scenarios, junit_report,
}

-- How many elements have a feature.
pub count {ℓ} : {A : Type ℓ} → (A → Bool) → List A → ℕ
count p [] = 0
count p (x ∷ xs) = let n = count p xs in if p x then suc n else n

pub is_some {ℓ} : {A : Type ℓ} → Option A → Bool
is_some none = false
is_some (some x) = true

abbrev pub has_failure : TestCase → Bool
has_failure c = is_some c.case_failure

abbrev pub has_error : TestCase → Bool
has_error c = is_some c.case_error

is_filled : List Bytes → Bool
is_filled [] = false
is_filled (a ∷ more) = true

-- A request with failed assertions, and one that ended in an error or an abort.
pub has_failed : RequestResult → Bool
unfolding is_filled
has_failed r = is_filled r.failed_assertions

pub is_broken : ResultStatus → Bool
is_broken error = true
is_broken aborted = true
is_broken unset = false
is_broken skipped = false
is_broken success = false
is_broken failure = false

-- All requests with a feature.
pub count_in : (RequestResult → Bool) → List ScenarioResult → ℕ
unfolding count
count_in p [] = 0
count_in p (r ∷ rs) = count p r.request_results + count_in p rs

count-last {ℓ} :
    {A : Type ℓ} (p : A → Bool) (xs : List A) (x : A)
    → count p (xs ++ x ∷ []) ≡ (if p x then suc (count p xs) else count p xs)
unfolding count
count-last p [] x = refl
count-last p (y ∷ xs) x = rw (count-last p xs x) (ground arith)

-- A suite that counts the cases in it.
pub record IsCounted (s : TestSuite) : Type 0 where
  pub failures_counted : s.failures ≡ count has_failure s.test_cases
  pub errors_counted : s.errors ≡ count has_error s.test_cases

bump-is_some : {A : Type 0} (n : ℕ) (o : Option A) → bump n o ≡ (if is_some o then suc n else n)
unfolding bump is_some
bump-is_some n none = refl
bump-is_some n (some x) = omega arith

joined-is_filled : (l : List Bytes) → is_some (joined l) ≡ is_filled l
unfolding joined is_filled is_some
joined-is_filled [] = refl
joined-is_filled (a ∷ more) = refl

error_of-is_broken : (st : ResultStatus) (m : Bytes) → is_some (error_of st m) ≡ is_broken st
unfolding error_of is_broken is_some
error_of-is_broken unset m = refl
error_of-is_broken skipped m = refl
error_of-is_broken aborted m = refl
error_of-is_broken success m = refl
error_of-is_broken error m = refl
error_of-is_broken failure m = refl

-- What the requests add to a suite.
record Adds (s t : TestSuite) (rs : List RequestResult) : Type 0 where
  counted : IsCounted t
  more_failures : t.failures ≡ s.failures + count has_failed rs
  more_errors : t.errors ≡ s.errors + count (λ r. is_broken r.status) rs
  more_cases : length t.test_cases ≡ length s.test_cases + length rs
  same_tests : t.tests ≡ s.tests

length-last {ℓ} : {A : Type ℓ} (xs : List A) (x : A) → length (xs ++ x ∷ []) ≡ length xs + 1
length-last [] x = refl
length-last (y ∷ xs) x = omega (arith, length-last xs x)

add_request-Adds :
    (s : TestSuite) (r : RequestResult) → IsCounted s → Adds s (add_request s r) (r ∷ [])
unfolding add_request count has_failed
add_request-Adds s r h = record {
  counted = record {
    failures_counted =
        bump-is_some s.failures (joined r.failed_assertions)
        ∙ ap (λ n. if is_some (joined r.failed_assertions) then suc n else n) h.failures_counted
        ∙ sym (count-last has_failure s.test_cases _);
    errors_counted =
        bump-is_some s.errors (error_of r.status r.error_message)
        ∙ ap (λ n. if is_some (error_of r.status r.error_message) then suc n else n)
            h.errors_counted
        ∙ sym (count-last has_error s.test_cases _);
  };
  more_failures =
      bump-is_some s.failures (joined r.failed_assertions)
      ∙ rw (joined-is_filled r.failed_assertions) (ground arith);
  more_errors =
      bump-is_some s.errors (error_of r.status r.error_message)
      ∙ rw (error_of-is_broken r.status r.error_message) (ground arith);
  more_cases = length-last s.test_cases _;
  same_tests = refl;
}

add_requests-Adds :
    (rs : List RequestResult) (s : TestSuite) → IsCounted s → Adds s (add_requests s rs) rs
unfolding add_requests count
add_requests-Adds [] s h = record {
  counted = h;
  more_failures = omega arith;
  more_errors = omega arith;
  more_cases = omega arith;
  same_tests = refl;
}
add_requests-Adds (r ∷ rs) s h =
    let a = add_request-Adds s r h in
    let b = add_requests-Adds rs (add_request s r) a.counted in
    record {
      counted = b.counted;
      more_failures = ground (arith, a.more_failures, b.more_failures);
      more_errors = ground (arith, a.more_errors, b.more_errors);
      more_cases = omega (arith, a.more_cases, b.more_cases);
      same_tests = b.same_tests ∙ a.same_tests;
    }

-- A suite whose numbers are those of its cases.
pub record IsSuite (s : TestSuite) : Type 0 where
  pub tests_counted : s.tests ≡ length s.test_cases
  pub cases_counted : IsCounted s

-- A report whose numbers are those of the results.
pub record IsReport (rs : List ScenarioResult) (t : JunitReport) : Type 0 where
  pub suites_counted : All IsSuite t.suites
  pub suite_for_each : length t.suites ≡ length rs
  pub tests_of_all : t.all_tests ≡ count_in (λ r. true) rs
  pub failures_of_all : t.all_failures ≡ count_in has_failed rs
  pub errors_of_all : t.all_errors ≡ count_in (λ r. is_broken r.status) rs

count-all {ℓ} : {A : Type ℓ} (xs : List A) → count (λ x. true) xs ≡ length xs
unfolding count
count-all [] = refl
count-all (x ∷ xs) = ap (λ n. suc n) (count-all xs)

record Grows (s t : JunitReport) (rs : List ScenarioResult) : Type 0 where
  suites_kept : All IsSuite t.suites
  more_suites : length t.suites ≡ length s.suites + length rs
  more_tests : t.all_tests ≡ s.all_tests + count_in (λ r. true) rs
  more_failures : t.all_failures ≡ s.all_failures + count_in has_failed rs
  more_errors : t.all_errors ≡ s.all_errors + count_in (λ r. is_broken r.status) rs

add_scenario-Grows :
    (s : JunitReport) (r : ScenarioResult)
    → All IsSuite s.suites
    → Grows s (add_scenario s r) (r ∷ [])
unfolding add_scenario count_in new_suite
add_scenario-Grows s r h =
    let a =
      add_requests-Adds r.request_results (new_suite r)
        (unfold count in (record { failures_counted = refl; errors_counted = refl })) in
    record {
      suites_kept = All-append IsSuite s.suites _ h (
        record {
          tests_counted = omega (arith, a.same_tests, a.more_cases);
          cases_counted = a.counted;
        },
        tt,
      );
      more_suites = length-last s.suites _;
      more_tests = omega (arith, a.same_tests, count-all r.request_results);
      more_failures = omega (arith, a.more_failures);
      more_errors = omega (arith, a.more_errors);
    }

add_scenarios-Grows :
    (rs : List ScenarioResult) (s : JunitReport)
    → All IsSuite s.suites
    → Grows s (add_scenarios s rs) rs
unfolding add_scenarios count_in
add_scenarios-Grows [] s h = record {
  suites_kept = h;
  more_suites = omega arith;
  more_tests = omega arith;
  more_failures = omega arith;
  more_errors = omega arith;
}
add_scenarios-Grows (r ∷ rs) s h =
    let a = add_scenario-Grows s r h in
    let b = add_scenarios-Grows rs (add_scenario s r) a.suites_kept in
    record {
      suites_kept = b.suites_kept;
      more_suites = omega (arith, a.more_suites, b.more_suites);
      more_tests = omega (arith, a.more_tests, b.more_tests);
      more_failures = omega (arith, a.more_failures, b.more_failures);
      more_errors = omega (arith, a.more_errors, b.more_errors);
    }

-- The report has a suite for each scenario; it counts all requests, those with failed assertions, and
-- those that ended in an error or an abort; and each suite counts the cases in it in the same way.
pub junit_report-IsReport : (rs : List ScenarioResult) → IsReport rs (junit_report rs)
unfolding junit_report
junit_report-IsReport rs =
    let g =
      add_scenarios-Grows rs
        (record { all_tests = 0; all_failures = 0; all_errors = 0; suites = [] }) tt in
    record {
      suites_counted = g.suites_kept;
      suite_for_each = omega (arith, g.more_suites);
      tests_of_all = omega (arith, g.more_tests);
      failures_of_all = omega (arith, g.more_failures);
      errors_of_all = omega (arith, g.more_errors);
    }

not_broken : (st : ResultStatus) → ¬ IsBad st → is_broken st ≡ false
unfolding is_broken
not_broken unset h = refl
not_broken skipped h = refl
not_broken success h = refl
not_broken failure h = refl
not_broken aborted h = absurd (h tt)
not_broken error h = absurd (h tt)

good-count :
    (qs : List RequestResult)
    → All (λ q. ¬ IsBad q.status) qs
    → count (λ r. is_broken r.status) qs ≡ 0
unfolding count
good-count [] h = refl
good-count (q ∷ qs) h = rw (not_broken q.status h.0) (good-count qs h.1)

good-count_in :
    (rs : List ScenarioResult) → All IsGood rs → count_in (λ r. is_broken r.status) rs ≡ 0
unfolding count_in
good-count_in [] h = refl
good-count_in (r ∷ rs) h =
    omega (arith, good-count r.request_results h.0.requests_good, good-count_in rs h.1)

-- Where the program exits with success, the report has no error.
pub succeeds-errors :
    (rs : List ScenarioResult) (size : ℕ)
    → succeeds rs size ≡ true
    → (junit_report rs).all_errors ≡ 0
succeeds-errors rs size h =
    (junit_report-IsReport rs).errors_of_all ∙ good-count_in rs ((succeeds_iff rs size).0 h).0
