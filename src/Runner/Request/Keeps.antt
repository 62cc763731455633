-- ===== src/Runner/Request/Keeps.antt =====
-- What a request leaves behind: the statuses of the scenario and of the request, and how often the
-- request was sent.
use sinq.Prelude.{
  ℕ, zero, suc, ◌+◌, ◌≡◌, Bool, true, false, not, ◌&&◌, inl, inr, Option, none, some, List, [], ◌∷◌,
  Bool-cases, if◌then◌else◌, ltb,
}
use sinq.Blueprint.{RequestBlueprint}
use sinq.Token.{ℤ, pos, negsuc, Token, is_empty}
use sinq.Runner.{ResultStatus, aborted, error, failure, Failure, canceled, failed_with}
use sinq.Runner.Request.{
  Processor, Step, ◌>>=◌, handle_error, run_pre, materialize, parse, send, capture, run_retry,
  send_answer, wait, attempt, goes_on, run_loop, is_blank,
}
use sinq.Runner.Outcome.{
  Run, Inline, PreRun, RetryRun, Attempt, Sent, answered, not_sent, Parsed, Limits, parsed_as,
  not_parsed,
}
use sinq.Runner.Request.{run_script}

-- The statuses of what has gone wrong, and the others.
abbrev pub IsBad : ResultStatus → Type 0
IsBad aborted = Unit
IsBad error = Unit
IsBad failure = Unit
IsBad _ = ⊥

-- After a step: with no error both statuses are what they were, and with one both are bad.
abbrev pub StepKeeps : ResultStatus → ResultStatus → Step → Type 0
StepKeeps st rs (p, none) = (p.status ≡ st) × (p.result.status ≡ rs)
StepKeeps st rs (p, some e) = IsBad p.status × IsBad p.result.status

module _ (st rs : ResultStatus) where
  abbrev Keeps : Processor → Type 0
  Keeps p = (p.status ≡ st) × (p.result.status ≡ rs)

  handle_error-Keeps :
      (e : Option Failure) (p : Processor) → Keeps p → StepKeeps st rs (handle_error e p)
  unfolding handle_error
  handle_error-Keeps none p k = k
  handle_error-Keeps (some canceled) p k = (tt, tt)
  handle_error-Keeps (some (failed_with m)) p k = (tt, tt)

  pub bind-Keeps :
      (m : Step) (f : Processor → Step)
      → StepKeeps st rs m
      → ((p : Processor) → Keeps p → StepKeeps st rs (f p))
      → StepKeeps st rs (m >>= f)
  bind-Keeps (p, none) f h k = k p h
  bind-Keeps (p, some e) f h k = h

  pub run_pre-Keeps :
      (bp : RequestBlueprint) (r : PreRun) (p : Processor)
      → Keeps p
      → StepKeeps st rs (run_pre bp r p)
  unfolding run_pre
  run_pre-Keeps bp r p k = elim (Bool-cases (is_empty bp.pre)) [
    | inl y ↦ rw (y, run_pre) k
    | inr n ↦ rw (n, run_pre) (handle_error-Keeps r.run.raised _ k)
  ]

  pub materialize-Keeps :
      (limits : Limits) (bp : RequestBlueprint) (runs : ℕ → Inline) (p : Processor)
      → Keeps p
      → StepKeeps st rs (materialize limits bp runs p)
  unfolding materialize
  materialize-Keeps limits bp runs p k = elim (Bool-cases limits.dump_on_failure) [
    | inl y ↦ rw y (handle_error-Keeps _ _ k)
    | inr n ↦ rw n (handle_error-Keeps _ _ k)
  ]

  if-Keeps :
      (b : Bool) (m n : Step)
      → StepKeeps st rs m
      → StepKeeps st rs n
      → StepKeeps st rs (if b then m else n)
  if-Keeps true m n h k = h
  if-Keeps false m n h k = k

  pub parse-Keeps : (r : Parsed) (p : Processor) → Keeps p → StepKeeps st rs (parse r p)
  unfolding parse
  parse-Keeps (not_parsed e) p k = handle_error-Keeps (some e) p k
  parse-Keeps (parsed_as http) p k =
      if-Keeps (not (is_blank http.request_body) && not (is_blank p.filename_from)) _ _ (tt, tt) k

  send_answer-Keeps : (a : Sent) (p : Processor) → Keeps p → StepKeeps st rs (send_answer a p)
  unfolding send_answer
  send_answer-Keeps (answered r) p k = k
  send_answer-Keeps (not_sent e) p k = handle_error-Keeps (some e) p k

  send-Keeps : (a : Sent) (p : Processor) → Keeps p → StepKeeps st rs (send a p)
  unfolding send
  send-Keeps a p k =
      if-Keeps (not (is_blank p.filename_from) && ltb 0 p.http_request.content_length) _ _ (tt, tt)
        (send_answer-Keeps a p k)

  capture-Keeps :
      (limits : Limits) (a : Sent) (p : Processor) → Keeps p → StepKeeps st rs (capture limits a p)
  unfolding capture
  capture-Keeps limits (answered r) p k = k
  capture-Keeps limits (not_sent e) p k = k

  run_retry-Keeps :
      (bp : RequestBlueprint) (r : RetryRun) (p : Processor)
      → Keeps p
      → StepKeeps st rs (run_retry bp r p)
  unfolding run_retry
  run_retry-Keeps bp r p k =
      if-Keeps (is_empty bp.retry) _ _ k (handle_error-Keeps r.run.raised _ k)

  wait-Keeps : (e : Option Failure) (z : ℤ) (p : Processor) → Keeps p → StepKeeps st rs (wait e z p)
  unfolding wait
  wait-Keeps e (negsuc n) p k = k
  wait-Keeps e (pos zero) p k = k
  wait-Keeps e (pos (suc n)) p k = handle_error-Keeps e p k

  attempt-Keeps :
      (limits : Limits) (bp : RequestBlueprint) (a : Attempt) (p : Processor)
      → Keeps p
      → StepKeeps st rs (attempt limits bp a p)
  unfolding attempt
  attempt-Keeps limits bp a p k =
      let q = record p { retries = p.retries + 1 } in
      let sent = send a.sent q in
      let captured = sent >>= capture limits a.sent in
      let asked = captured >>= run_retry bp a.retry_run in
      bind-Keeps asked (λ r. wait a.interrupted r.retry_in r)
        (bind-Keeps captured (run_retry bp a.retry_run)
          (bind-Keeps sent (capture limits a.sent) (send-Keeps a.sent q k)
            (capture-Keeps limits a.sent))
          (run_retry-Keeps bp a.retry_run))
        (λ r. wait-Keeps a.interrupted r.retry_in r)

  pub run_script-Keeps :
      (t : Token) (r : Run) (p : Processor) → Keeps p → StepKeeps st rs (run_script t r p)
  unfolding run_script
  run_script-Keeps t r p k = if-Keeps (is_empty t) _ _ k (handle_error-Keeps r.raised _ k)

  -- The loop of `run` ends in such a step, if it ends.
  abbrev pub LoopKeeps : Option Step → Type 0
  LoopKeeps none = Unit
  LoopKeeps (some m) = StepKeeps st rs m

  if-LoopKeeps :
      (b : Bool) (m n : Option Step) → LoopKeeps m → LoopKeeps n → LoopKeeps (if b then m else n)
  if-LoopKeeps true m n h k = h
  if-LoopKeeps false m n h k = k

  pub run_loop-Keeps :
      (limits : Limits) (bp : RequestBlueprint) (outcomes : List Attempt) (p : Processor)
      → Keeps p
      → LoopKeeps (run_loop limits bp outcomes p)
  unfolding run_loop
  run_loop-Keeps limits bp [] p k =
      if-LoopKeeps (not (goes_on p.retry_in)) _ _ k
        (if-LoopKeeps (ltb limits.max_retries p.retries) _ _ (tt, tt) tt)
  run_loop-Keeps limits bp (a ∷ rest) p k = if-LoopKeeps (not (goes_on p.retry_in)) _ _ k (
      if-LoopKeeps (ltb limits.max_retries p.retries) _ _ (tt, tt)
        (after (attempt limits bp a p) (attempt-Keeps limits bp a p k)
          (run_loop-Keeps limits bp rest)))
    where
      after :
          (m : Step)
          → StepKeeps st rs m
          → ((q : Processor) → Keeps q → LoopKeeps (run_loop limits bp rest q))
          → LoopKeeps
              (elim m.1 [ some x ↦ some (m.0, some x) | none ↦ run_loop limits bp rest m.0 ])
      after (q, none) h ih = ih q h
      after (q, some x) h ih = h
