-- ===== src/Runner/Request/Process/Verdict.antt =====
-- What `processRequest` leaves behind on every path through it.
use sinq.Prelude.{
  ◌≡◌, ◌≢◌, refl, sym, ◌∙◌, Bool, true, false, ◌⊎◌, inl, inr, Option, none, some, List, [], ◌∷◌,
  Bytes, arith, Bool-cases, if◌then◌else◌,
}
use sinq.Blueprint.{RequestBlueprint}
use sinq.Runner.{
  ResultStatus, unset, skipped, aborted, success, error, failure, RequestResult, Failure, canceled,
  failed_with, Worker,
}
use sinq.Runner.Request.{Processor, Step, ◌>>=◌, run_pre, materialize, parse, run_loop}
use sinq.Runner.Outcome.{Run, Trial, Limits}
use sinq.Runner.Request.Process.{
  run_script, finalize, settle_assertions, after_post, after_assert, after_run, after_parse,
  after_pre, new_processor, ended, process_request,
}
use sinq.Runner.Request.Keeps.{
  IsBad, StepKeeps, bind-Keeps, run_pre-Keeps, materialize-Keeps, parse-Keeps, run_script-Keeps,
  LoopKeeps, run_loop-Keeps,
}

-- What a request leaves: its verdict on the scenario that stood at `st`.
pub record Verdict (st : ResultStatus) (r : Processor × Bool) : Type 0 where
  -- A scenario that has left `Success` does not come back to it.
  pub kept : r.0.status ≡ success → st ≡ success
  -- A request with a bad end takes the scenario away from `Success`.
  pub fine : r.0.status ≡ success → ¬ IsBad r.0.result.status
  -- The scenario stops here only with a bad status.
  pub stops : r.1 ≡ false → IsBad r.0.status
  -- The request has been given a status.
  pub settled : r.0.result.status ≢ unset

bad-ne-success : (st : ResultStatus) → IsBad st → st ≢ success
bad-ne-success aborted h e = cc
bad-ne-success error h e = cc
bad-ne-success failure h e = cc
bad-ne-success unset h e = h
bad-ne-success skipped h e = h
bad-ne-success success h e = h

bad-ne-unset : (st : ResultStatus) → IsBad st → st ≢ unset
bad-ne-unset aborted h e = cc
bad-ne-unset error h e = cc
bad-ne-unset failure h e = cc
bad-ne-unset unset h e = h
bad-ne-unset skipped h e = h
bad-ne-unset success h e = h

finalize_bad : (p : Processor) → IsBad p.result.status → finalize p ≡ p
unfolding finalize
finalize_bad p h = ground (arith, bad-ne-unset p.result.status h)

-- A step that failed ends the request.
failed-Verdict :
    (st : ResultStatus) (p : Processor) (b : Bool)
    → IsBad p.status
    → IsBad p.result.status
    → Verdict st (finalize p, b)
failed-Verdict st p b h k = rw (finalize_bad p k) (record {
  kept = λ e. absurd (bad-ne-success p.status h e);
  fine = λ e. absurd (bad-ne-success p.status h e);
  stops = λ _. h;
  settled = bad-ne-unset p.result.status k;
})

-- Behind the assertions the request is either open, or has failed with the scenario.
abbrev Rel : ResultStatus → ResultStatus → ResultStatus → Type 0
Rel st st' rs = ((st' ≡ st) × (rs ≡ unset)) ⊎ ((st' ≡ failure) × (rs ≡ failure))

passed-Verdict :
    (st : ResultStatus) (p : Processor)
    → p.status ≡ st
    → p.result.status ≡ unset
    → Verdict st (finalize p, true)
unfolding finalize
passed-Verdict st p k u =
    rw (u, finalize)
      (record {
        kept = λ e. sym k ∙ e;
        fine = λ e h. h;
        stops = λ e. absurd (cc);
        settled = λ e. cc;
      })

after_post-Verdict :
    (st st' rs : ResultStatus) (m : Step)
    → Rel st st' rs
    → StepKeeps st' rs m
    → Verdict st (after_post m)
unfolding after_post
after_post-Verdict st st' rs (p, some e) d k = failed-Verdict st p false k.0 k.1
after_post-Verdict st st' rs (p, none) (inl (a, b)) k = passed-Verdict st p (k.0 ∙ a) (k.1 ∙ b)
after_post-Verdict st st' rs (p, none) (inr (a, b)) k =
    failed-Verdict st p true (rw (k.0 ∙ a) tt) (rw (k.1 ∙ b) tt)

-- Behind the settled assertions, by whether any failed and whether the scenario goes on.
settled-Verdict :
    (st : ResultStatus) (limits : Limits) (bp : RequestBlueprint) (r : Run) (p : Processor)
    (fs : List Bytes)
    → p.status ≡ st
    → p.result.status ≡ unset
    → Verdict st (
        let (q, goes) = settle_assertions limits p fs in
        if goes then after_post (run_script bp.post r q) else (finalize q, false))
unfolding settle_assertions
settled-Verdict st limits bp r p [] k u =
    after_post-Verdict st st unset _ (inl (refl, refl))
      (run_script-Keeps st unset bp.post r _ (k, u))
settled-Verdict st limits bp r p (f ∷ fs) k u = elim (Bool-cases limits.fail_fast) [
  | inl y ↦ rw y (failed-Verdict st _ false tt tt)
  | inr n ↦ rw n (
      after_post-Verdict st failure failure _ (inr (refl, refl))
        (run_script-Keeps failure failure bp.post r _ (refl, refl)))
]

module _ (st : ResultStatus) (limits : Limits) (bp : RequestBlueprint) (t : Trial) where
  after_assert-Verdict :
      (m : Step) → StepKeeps st unset m → Verdict st (after_assert limits bp t.post_run m)
  unfolding after_assert
  after_assert-Verdict (p, some e) k = failed-Verdict st p false k.0 k.1
  after_assert-Verdict (p, none) k =
      settled-Verdict st limits bp t.post_run p p.worker.assertion_failures k.0 k.1

  -- The verdict, if the outcomes given were enough.
  abbrev Maybe : Option (Processor × Bool) → Type 0
  Maybe none = Unit
  Maybe (some r) = Verdict st r

  if-Maybe :
      (b : Bool) (m n : Option (Processor × Bool)) → Maybe m → Maybe n → Maybe (if b then m else n)
  if-Maybe true m n h k = h
  if-Maybe false m n h k = k

  after_run-Verdict : (o : Option Step) → LoopKeeps st unset o → Maybe (after_run limits bp t o)
  unfolding after_run
  after_run-Verdict none h = tt
  after_run-Verdict (some (p, some e)) h = failed-Verdict st p false h.0 h.1
  after_run-Verdict (some (p, none)) h =
      after_assert-Verdict (run_script bp.assert t.assert_run p)
        (run_script-Keeps st unset bp.assert t.assert_run p h)

  after_parse-Verdict : (m : Step) → StepKeeps st unset m → Maybe (after_parse limits bp t m)
  unfolding after_parse
  after_parse-Verdict (p, some e) k = failed-Verdict st p false k.0 k.1
  after_parse-Verdict (p, none) k =
      after_run-Verdict (run_loop limits bp t.attempts p)
        (run_loop-Keeps st unset limits bp t.attempts p k)

  after_pre-Verdict : (m : Step) → StepKeeps st unset m → Maybe (after_pre limits bp t m)
  unfolding after_pre
  after_pre-Verdict (p, some e) k = failed-Verdict st p false k.0 k.1
  after_pre-Verdict (p, none) k =
      let m = materialize limits bp t.inlines p in
      if-Maybe p.skip _ _
        (record {
          kept = λ e. sym k.0 ∙ e;
          fine = λ e h. h;
          stops = λ e. absurd (cc);
          settled = λ e. cc;
        })
        (after_parse-Verdict (m >>= parse t.parsed) (
          bind-Keeps st unset m (parse t.parsed)
            (materialize-Keeps st unset limits bp t.inlines p k) (parse-Keeps st unset t.parsed)))

  ended-Verdict : (w : Worker) (r : RequestResult) (e : Failure) → Verdict st (ended w st r e)
  unfolding ended
  ended-Verdict w r canceled = record {
    kept = λ x. absurd (bad-ne-success aborted tt x);
    fine = λ x h. bad-ne-success aborted tt x;
    stops = λ x. tt;
    settled = λ x. cc;
  }
  ended-Verdict w r (failed_with m) = record {
    kept = λ x. absurd (bad-ne-success error tt x);
    fine = λ x h. bad-ne-success error tt x;
    stops = λ x. tt;
    settled = λ x. cc;
  }

  process_request-Maybe :
      (w : Worker) (r : RequestResult) → Maybe (process_request limits bp t w st r)
  unfolding process_request
  process_request-Maybe w r = by_context t.context_error
    where
      by_context :
          (c : Option Failure)
          → Maybe (elim c [
            | some e ↦ some (ended w st r e)
            | none ↦ after_pre limits bp t (run_pre bp t.pre_run (new_processor w st r))
          ])
      by_context (some e) = ended-Verdict w r e
      by_context none = after_pre-Verdict (run_pre bp t.pre_run (new_processor w st r)) (
          run_pre-Keeps st unset bp t.pre_run (new_processor w st r)
            (unfold new_processor in (refl, refl)))

-- Whatever scripts, network and files do, an execution of a request that comes back gives the
-- request a status; keeps the scenario from coming back to `Success`; takes it away from there if
-- the request ends badly; and stops the scenario only with a bad status.
pub process_request-Verdict :
    (limits : Limits) (bp : RequestBlueprint) (t : Trial) (w : Worker) (st : ResultStatus)
    (r : RequestResult) {out : Processor × Bool}
    → process_request limits bp t w st r ≡ some out
    → Verdict st out
process_request-Verdict limits bp t w st r e = rw e at (process_request-Maybe st limits bp t w r)
