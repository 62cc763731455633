-- ===== src/Runner/Request.antt =====
-- internal/runner/request-processor.go and `processRequest` of worker.go: one request of a scenario,
-- from its pre script to its post script. What scripts, the network and the file system do is given
-- as the outcomes of one execution, in the order in which the code asks for them. Timers, the log
-- and the cached way to send are left out.
pub mod Keeps
pub mod Process
pub mod Retries
use sinq.Runner.Outcome.{
  Run, Inline, PreRun, RetryRun, Response, Sent, answered, not_sent, Attempt, HttpRequest, Parsed,
  parsed_as, not_parsed, Trial, Limits,
}
use sinq.Prelude.{
  ℕ, zero, suc, ◌+◌, ◌-◌, Bool, true, false, not, ◌&&◌, ◌||◌, Option, none, some, List, [], ◌∷◌,
  ◌++◌, Bytes, codes, length, take, ltb, leb, ◌==◌, if◌then◌else◌,
}
use sinq.Token.{ℤ, pos, negsuc, TokenType, incomplete_token, script, Token, is_empty}
use sinq.Blueprint.{RequestBlueprint}
use sinq.Runner.Materialize.{materialize_request}
use sinq.Runner.{
  ResultStatus, unset, skipped, aborted, success, error, failure, RequestResult, Failure, canceled,
  failed_with, Call, Worker, calls,
}

-- `RequestProcessor`, with the worker, the scenario's status and the request's result it points to.
pub record Processor : Type 0 where
  pub worker : Worker
  pub status : ResultStatus
  pub result : RequestResult
  pub http_request : HttpRequest
  pub retry_in : ℤ
  pub retries : ℕ
  pub filename_from : Bytes
  pub save_response_to : Bytes
  pub cache : Bool
  pub skip : Bool

-- A step of the processor: the state, and the error that it returned.
abbrev pub Step : Type 0
Step = Processor × Option Failure

-- Go's `if err := step(); err != nil { return err }`.
infixl 5 ◌>>=◌
abbrev ◌>>=◌ : Step → (Processor → Step) → Step
(p, none) >>= f = f p
(p, some e) >>= f = (p, some e)

abbrev with_status : Processor → ResultStatus → Processor
with_status p st = let r = p.result in record p { status = st; result = record r { status = st } }

-- `handleError`
unfoldable pub handle_error : Option Failure → Processor → Step
handle_error none p = (p, none)
handle_error (some canceled) p = (with_status p aborted, some canceled)
handle_error (some (failed_with message)) p =
    let q = with_status p error in
    let r = q.result in
    (record q { result = record r { error_message = message } }, some (failed_with message))

-- A script's calls take effect, whether or not it fails.
abbrev ran : Run → Processor → Processor
ran r p = record p { worker = calls p.worker r.called }

-- `runPre`
pub run_pre : RequestBlueprint → PreRun → Processor → Step
unfolding handle_error is_empty
run_pre bp r p =
    if is_empty bp.pre
    then (p, none)
    else (let q = ran r.run p in
        handle_error r.run.raised (record q {
          filename_from = r.attached;
          save_response_to = r.save_to;
          cache = r.cached;
          skip = r.skips;
        }))

-- The last byte is a newline, or is followed by one.
ends_line : Bytes → Bytes
ends_line [] = []
ends_line (b ∷ []) = if b == b'\n' then b ∷ [] else b ∷ b'\n' ∷ []
ends_line (b ∷ c ∷ bs) = b ∷ ends_line (c ∷ bs)

-- `materialize`
pub materialize : Limits → RequestBlueprint → (ℕ → Inline) → Processor → Step
unfolding handle_error ends_line materialize_request
materialize limits bp runs p =
    let m = materialize_request bp runs p.worker in
    let q = record p { worker = m.worker } in
    let r = p.result in
    let dumped = record q { result = record r { request = ends_line m.content } } in
    handle_error m.err (if limits.dump_on_failure then dumped else q)

is_blank : Bytes → Bool
is_blank [] = true
is_blank (b ∷ bs) = false

-- `parse`: a request with a body cannot have a file attached.
pub parse : Parsed → Processor → Step
unfolding handle_error is_blank
parse (not_parsed e) p = handle_error (some e) p
parse (parsed_as http) p =
    let q = record p { http_request = http } in
    if not (is_blank http.request_body) && not (is_blank p.filename_from)
    then handle_error (some (failed_with (codes "Request has both body and a file source"))) q
    else (q, none)

-- The header lines of the dumped response.
join_values : List Bytes → Bytes
join_values [] = []
join_values (v ∷ []) = v
join_values (v ∷ w ∷ vs) = v ++ codes ", " ++ join_values (w ∷ vs)

header_lines : List (Bytes × List Bytes) → Bytes
unfolding join_values
header_lines [] = []
header_lines ((key, values) ∷ hs) =
    key ++ codes ": " ++ join_values values ++ b'\n' ∷ header_lines hs

-- The text that `requestCompleted` returns; it returns no error.
dump_response : Limits → Response → Bytes
unfolding header_lines ends_line is_blank
dump_response limits r =
    if limits.dump_on_failure
    then r.status_line
      ++ b' ' ∷ r.proto
      ++ b'\n' ∷ header_lines r.headers
      ++ b'\n' ∷ ends_line (if is_blank r.filename_to then r.body else r.filename_to)
    else []

-- The body is cut off at the scenario's limit.
unfoldable pub bounded : Limits → Response → Response
bounded limits r =
    if ltb limits.max_body_size (length r.body)
    then record r { body = take limits.max_body_size r.body; oversized = true }
    else r

-- What the transport gives.
send_answer : Sent → Processor → Step
unfolding handle_error
send_answer (answered r) p = (p, none)
send_answer (not_sent e) p = handle_error (some e) p

-- The guard of `send`, and what the transport gives.
send : Sent → Processor → Step
unfolding handle_error is_blank send_answer
send sent p =
    if not (is_blank p.filename_from) && ltb 0 p.http_request.content_length
    then handle_error
        (some
          (failed_with (codes "Request has both attached body and body content in its .sinq file")))
        p
    else send_answer sent p

-- What is recorded of the answer.
capture : Limits → Sent → Processor → Step
unfolding dump_response bounded
capture limits (not_sent e) p = (p, none)
capture limits (answered r) p =
    let result = p.result in
    (
      record p { result = record result { response = dump_response limits (bounded limits r) } },
      none,
    )

-- A failed retry script returns -1.
returned_delay : RetryRun → ℤ
returned_delay r = elim r.run.raised [ none ↦ r.delay | some e ↦ negsuc 0 ]

-- `runRetry`, with `runRetryScript`
run_retry : RequestBlueprint → RetryRun → Processor → Step
unfolding handle_error is_empty returned_delay
run_retry bp r p =
    if is_empty bp.retry
    then (record p { retry_in = negsuc 0 }, none)
    else (let q = ran r.run p in
        handle_error r.run.raised (record q { retry_in = returned_delay r }))

-- The wait for the next attempt.
wait : Option Failure → ℤ → Processor → Step
unfolding handle_error
wait interrupted (negsuc n) p = (p, none)
wait interrupted (pos zero) p = (p, none)
wait interrupted (pos (suc n)) p = handle_error interrupted p

-- One round of the loop of `run`, behind its check of the number of retries.
attempt : Limits → RequestBlueprint → Attempt → Processor → Step
unfolding send capture run_retry wait handle_error
attempt limits bp a p =
    send a.sent (record p { retries = p.retries + 1 })
    >>= capture limits a.sent
    >>= run_retry bp a.retry_run
    >>= (λ q. wait a.interrupted q.retry_in q)

goes_on : ℤ → Bool
goes_on (pos n) = true
goes_on (negsuc n) = false

-- The loop of `run`; `none` says that the outcomes given are too few.
unfoldable pub run_loop : Limits → RequestBlueprint → List Attempt → Processor → Option Step
unfolding handle_error goes_on attempt
run_loop limits bp [] p =
    if not (goes_on p.retry_in)
    then some (p, none)
    else if ltb limits.max_retries p.retries
    then some (handle_error (some (failed_with (codes "Too many retries"))) p)
    else none
run_loop limits bp (a ∷ rest) p =
    if not (goes_on p.retry_in)
    then some (p, none)
    else if ltb limits.max_retries p.retries
    then some (handle_error (some (failed_with (codes "Too many retries"))) p)
    else (let (q, e) = attempt limits bp a p in
        elim e [ some x ↦ some (q, some x) | none ↦ run_loop limits bp rest q ])

-- `runAssert` and `runPost`
pub run_script : Token → Run → Processor → Step
unfolding handle_error is_empty
run_script t r p = if is_empty t then (p, none) else handle_error r.raised (ran r p)
