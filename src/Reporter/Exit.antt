-- ===== src/Reporter/Exit.antt =====
-- When the program exits with success.
use sinq.Prelude.{
  ℕ, ◌+◌, ◌≡◌, ◌↔◌, refl, ap, ◌∙◌, ◌⊎◌, true, false, inl, inr, List, [], ◌∷◌, length, arith, All,
  Bool-cases, ==_iff,
}
use sinq.Runner.{
  ResultStatus, unset, skipped, aborted, success, error, failure, RequestResult, ScenarioResult,
}
use sinq.Reporter.{is_bad, ResultReporter, any_bad, report_one, report_all, succeeds}
use sinq.Runner.Request.Keeps.{IsBad}

-- Neither the scenario nor a request of it ended in a failure, an error or an abort.
pub record IsGood (r : ScenarioResult) : Type 0 where
  pub scenario_good : ¬ IsBad r.scenario_status
  pub requests_good : All (λ q. ¬ IsBad q.status) r.request_results

is_bad-false : (st : ResultStatus) → (is_bad st ≡ false) ↔ (¬ IsBad st)
unfolding is_bad
is_bad-false unset = ((λ e h. h), λ h. refl)
is_bad-false skipped = ((λ e h. h), λ h. refl)
is_bad-false success = ((λ e h. h), λ h. refl)
is_bad-false aborted = ((λ e h. cc), λ h. absurd (h tt))
is_bad-false error = ((λ e h. cc), λ h. absurd (h tt))
is_bad-false failure = ((λ e h. cc), λ h. absurd (h tt))

any_bad-false : (rs : List RequestResult) → (any_bad rs ≡ false) ↔ All (λ q. ¬ IsBad q.status) rs
unfolding any_bad
any_bad-false [] = ((λ e. tt), λ h. refl)
any_bad-false (r ∷ rs) = elim (Bool-cases (is_bad r.status)) [
  | inl y ↦ rw y ((λ e. absurd (cc)), λ h. absurd (cc ((is_bad-false r.status).1 h.0)))
  | inr n ↦
      rw n (
        (λ e. ((is_bad-false r.status).0 n, (any_bad-false rs).0 e)),
        λ h. (any_bad-false rs).1 h.1,
      )
]

-- A reporter that has seen a bad end stays as it is.
report_all-spent :
    (rs : List ScenarioResult) (n : ℕ)
    → report_all (record { all_good = false; count = n }) rs
      ≡ record { all_good = false; count = n }
unfolding report_all report_one
report_all-spent [] n = refl
report_all-spent (r ∷ rs) n = report_all-spent rs n

abbrev good_at : ℕ → ResultReporter
good_at n = record { all_good = true; count = n }

-- One report to a reporter that has seen no bad end.
report_one-cases :
    (r : ScenarioResult) (n : ℕ)
    → (IsGood r × (report_one (good_at n) r ≡ good_at (n + 1)))
      ⊎ ((¬ IsGood r)
          × ((m : ℕ) × (report_one (good_at n) r ≡ record { all_good = false; count = m })))
unfolding report_one
report_one-cases r n = elim (Bool-cases (is_bad r.scenario_status)) [
  | inl y ↦ inr ((λ g. cc ((is_bad-false r.scenario_status).1 g.scenario_good)), (n, rw y))
  | inr s ↦ elim (Bool-cases (any_bad r.request_results)) [
    | inl y ↦
        inr ((λ g. cc ((any_bad-false r.request_results).1 g.requests_good)), (n + 1, rw (s, y)))
    | inr q ↦ inl (
      record {
        scenario_good = (is_bad-false r.scenario_status).0 s;
        requests_good = (any_bad-false r.request_results).0 q;
      },
      rw (s, q),
    )
  ]
]

report_all-IsGood :
    (rs : List ScenarioResult) (n : ℕ)
    → (All IsGood rs × (report_all (good_at n) rs ≡ good_at (n + length rs)))
      ⊎ ((¬ All IsGood rs)
          × ((m : ℕ) × (report_all (good_at n) rs ≡ record { all_good = false; count = m })))
unfolding report_all
report_all-IsGood [] n = inl (tt, ap good_at (omega arith))
report_all-IsGood (r ∷ rs) n = elim (report_one-cases r n) [
  | inl (g, e) ↦ rw e (elim (report_all-IsGood rs (n + 1)) [
    | inl (h, f) ↦ inl ((g, h), f ∙ ap good_at (omega arith))
    | inr (h, (m, f)) ↦ inr ((λ a. h a.1), (m, f))
  ])
  | inr (g, (m, e)) ↦ rw e (inr ((λ a. g a.0), (m, report_all-spent rs m)))
]

-- The program exits with success exactly if as many scenarios were reported as announced, and none
-- of them, nor a request of them, ended in a failure, an error or an abort.
pub succeeds_iff :
    (rs : List ScenarioResult) (size : ℕ)
    → (succeeds rs size ≡ true) ↔ (All IsGood rs × (length rs ≡ size))
unfolding succeeds
succeeds_iff rs size = elim (report_all-IsGood rs 0) [
  | inl (g, e) ↦ rw e (
    (λ h. (g, omega (arith, (==_iff (0 + length rs) size).0 h))),
    λ h. (==_iff (0 + length rs) size).1 (omega (arith, h.1)),
  )
  | inr (g, (m, e)) ↦ rw e ((λ h. absurd (cc)), λ h. absurd (g h.0))
]
