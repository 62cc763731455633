-- ===== src/Runner/Request/Process.antt =====
-- `processRequest` of internal/runner/worker.go: one execution of a request, from its pre script to its
-- post script.
pub mod Verdict
use sinq.Runner.Outcome.{Limits, Trial, Run}
use sinq.Prelude.{
  ℕ, zero, suc, ◌+◌, ◌-◌, Bool, true, false, not, ◌&&◌, ◌||◌, Option, none, some, List, [], ◌∷◌,
  ◌++◌, Bytes, codes, length, take, ltb, leb, ◌==◌, if◌then◌else◌,
}
use sinq.Token.{ℤ, pos, negsuc, TokenType, incomplete_token, script, Token, is_empty}
use sinq.Blueprint.{RequestBlueprint}
use sinq.Runner.{
  ResultStatus, unset, skipped, aborted, success, error, failure, RequestResult, Failure, canceled,
  failed_with, Call, Worker, calls,
}
use sinq.Runner.Request.{
  run_script, Processor, Step, ◌>>=◌, with_status, handle_error, ran, run_pre, materialize, parse,
  run_loop,
}
use sinq.Runner.Outcome.{Run, Trial, Limits}

-- `finalize`
finalize : Processor → Processor
finalize p =
    let r = p.result in
    elim r.status [ unset ↦ record p { result = record r { status = success } } | _ ↦ p ]

-- What `processRequest` makes of the failed assertions: the state, and whether it goes on.
settle_assertions : Limits → Processor → List Bytes → Processor × Bool
settle_assertions limits p [] =
    let r = p.result in (record p { result = record r { request = []; response = [] } }, true)
settle_assertions limits p (f ∷ fs) =
    let q = with_status p failure in
    let r = q.result in
    let w = q.worker in
    (
      record q {
        result = record r { failed_assertions = f ∷ fs };
        worker = record w { assertion_failures = [] };
      },
      not limits.fail_fast,
    )

-- An outcome of `processRequest`: the state, and whether the scenario goes on.
after_post : Step → Processor × Bool
unfolding finalize
after_post (p, none) = (finalize p, true)
after_post (p, some e) = (finalize p, false)

after_assert : Limits → RequestBlueprint → Run → Step → Processor × Bool
unfolding settle_assertions run_script after_post finalize
after_assert limits bp post_run (p, some e) = (finalize p, false)
after_assert limits bp post_run (p, none) =
    let (q, goes) = settle_assertions limits p p.worker.assertion_failures in
    if goes then after_post (run_script bp.post post_run q) else (finalize q, false)

after_run : Limits → RequestBlueprint → Trial → Option Step → Option (Processor × Bool)
unfolding after_assert run_script finalize
after_run limits bp t none = none
after_run limits bp t (some (p, some e)) = some (finalize p, false)
after_run limits bp t (some (p, none)) =
    some (after_assert limits bp t.post_run (run_script bp.assert t.assert_run p))

after_parse : Limits → RequestBlueprint → Trial → Step → Option (Processor × Bool)
unfolding run_loop after_run finalize
after_parse limits bp t (p, some e) = some (finalize p, false)
after_parse limits bp t (p, none) = after_run limits bp t (run_loop limits bp t.attempts p)

after_pre : Limits → RequestBlueprint → Trial → Step → Option (Processor × Bool)
unfolding materialize parse after_parse finalize
after_pre limits bp t (p, some e) = some (finalize p, false)
after_pre limits bp t (p, none) =
    let r = p.result in
    if p.skip
    then some (record p { result = record r { status = skipped } }, true)
    else after_parse limits bp t (materialize limits bp t.inlines p >>= parse t.parsed)

-- `processor` as `processRequest` makes it
new_processor : Worker → ResultStatus → RequestResult → Processor
new_processor w st r = record {
  worker = w;
  status = st;
  result = record r { status = unset };
  http_request = record { content_length = 0; request_body = [] };
  retry_in = pos 0;
  retries = 0;
  filename_from = [];
  save_response_to = [];
  cache = false;
  skip = false;
}

-- Under a context that has ended.
ended : Worker → ResultStatus → RequestResult → Failure → Processor × Bool
unfolding new_processor
ended w st r canceled = (with_status (new_processor w st r) aborted, false)
ended w st r (failed_with m) = (with_status (new_processor w st r) error, false)

-- `processRequest`; `none` says that the outcomes given are too few.
unfoldable pub process_request :
    Limits
    → RequestBlueprint
    → Trial
    → Worker
    → ResultStatus
    → RequestResult
    → Option (Processor × Bool)
unfolding ended new_processor run_pre after_pre
process_request limits bp t w st r = elim t.context_error [
  | some e ↦ some (ended w st r e)
  | none ↦ after_pre limits bp t (run_pre bp t.pre_run (new_processor w st r))
]
