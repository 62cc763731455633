-- ===== src/Tests/Running.antt =====
-- Requests, scenarios and reports at concrete inputs.
use sinq.Prelude.{Bool, ◌≡◌, ◌↔◌, refl, true, false, [], ◌∷◌, some, none, codes, length, All, arith}
use sinq.Token.{Token, pos, negsuc, zero_token, script, is_empty}
use sinq.Blueprint.{RequestBlueprint, new_blueprint}
use sinq.Runner.{
  ResultStatus, success, failure, skipped, RequestResult, ScenarioResult, Worker, fail_assert,
  calls, call,
}
use sinq.Runner.Request.{Processor, run_loop, handle_error}
use sinq.Runner.Request.Retries.{Bounded, run_loop-Bounded}
use sinq.Runner.Scenario.{TaskBundle}
use sinq.Reporter.{succeeds, report_end, report_each, new_report_data}
use sinq.Reporter.Exit.{IsGood, succeeds_iff}
use sinq.Reporter.Tally.{IsTally, IsSummary, report_end-IsSummary}
use mathlib.Core.Option
use sinq.Runner.Materialize.{materialize_request}
use sinq.Runner.Outcome.{Run, Attempt, Trial, Limits, answered, parsed_as}
use sinq.Runner.Request.Process.{process_request}
use sinq.Runner.Request.Process.Verdict.{Verdict, process_request-Verdict}

abbrev limits : Limits
limits = record {
  fail_fast = false;
  max_retries = 2;
  max_body_size = 1024;
  dump_on_failure = false;
}

abbrev a_script : Token
a_script = record zero_token { type = script; name = codes "ASSERT"; payload_end = pos 5 }

abbrev blueprint : RequestBlueprint
blueprint = record (new_blueprint [] (codes "a.sinq")) { assert = a_script; retry = a_script }

abbrev no_run : Run
no_run = record { called = []; raised = none }

abbrev one_attempt : Attempt
one_attempt = record {
  sent = answered (record {
    status_line = codes "200 OK";
    proto = codes "HTTP/1.1";
    headers = [];
    filename_to = [];
    oversized = false;
    body = codes "hi";
  });
  retry_run = record { run = no_run; delay = negsuc 0 };
  interrupted = none;
}

abbrev trial_with : Run → Trial
trial_with r = record {
  context_error = none;
  pre_run = record { run = no_run; attached = []; save_to = []; cached = false; skips = false };
  inlines = λ i. record { cancelled = false; run = no_run; value = [] };
  parsed = parsed_as (record { content_length = 0; request_body = [] });
  attempts = one_attempt ∷ [];
  assert_run = r;
  post_run = no_run;
}

abbrev task : TaskBundle
task = record {
  config_name = codes "demo";
  tags_list = [];
  labels = [];
  requests = blueprint ∷ [];
  run = true;
}

abbrev request_result : RequestResult
request_result = record {
  status = success;
  failed_assertions = [];
  name = codes "a.sinq";
  error_message = [];
  request = [];
  response = [];
}

abbrev scenario_result : ScenarioResult
scenario_result = record {
  scenario_name = codes "demo";
  tags = [];
  request_results = request_result ∷ [];
  scenario_status = success;
}

-- An assertion that fails is what both statuses end with, and the failed ones are emptied.
abbrev failed_run : Run
failed_run = record { called = fail_assert (codes "no") ∷ []; raised = none }

abbrev idle : Worker
idle = record { request_idx = 1; max_request_idx = 0; assertion_failures = [] }

abbrev after_failure : Processor
after_failure = record {
  worker = idle;
  status = failure;
  result = record request_result { status = failure; failed_assertions = codes "no" ∷ [] };
  http_request = record { content_length = 0; request_body = [] };
  retry_in = negsuc 0;
  retries = 1;
  filename_from = [];
  save_response_to = [];
  cache = false;
  skip = false;
}

failing_request :
    process_request limits blueprint (trial_with failed_run) idle success request_result
    ≡ some (after_failure, true)
unfolding process_request handle_error calls call is_empty new_blueprint run_loop
failing_request = refl

process_request-Verdict_example : Verdict success (after_failure, true)
process_request-Verdict_example =
    process_request-Verdict limits blueprint (trial_with failed_run) idle success request_result
      failing_request

-- A script inside the text of the request acts on the worker too: its failed assertion is the request's.
abbrev inline_blueprint : RequestBlueprint
inline_blueprint = record blueprint { content = a_script ∷ [] }

abbrev inline_trial : Trial
inline_trial = record (trial_with no_run) {
  inlines = λ i. record { cancelled = false; run = failed_run; value = codes "x" };
}

failing_inline :
    process_request limits inline_blueprint inline_trial idle success request_result
    ≡ some (after_failure, true)
unfolding process_request handle_error calls call is_empty new_blueprint run_loop
    materialize_request
failing_inline = refl

-- A pre script that skips the request leaves it `Skipped`, and the scenario goes on.
abbrev skipping_trial : Trial
skipping_trial = record (trial_with no_run) {
  pre_run = record { run = no_run; attached = []; save_to = []; cached = false; skips = true };
}

abbrev ending : Processor × Bool → ResultStatus × ResultStatus × Bool
ending (p, goes) = (p.status, p.result.status, goes)

skipped_request :
    Option.map ending (
      process_request limits
        (record blueprint { pre = a_script })
        skipping_trial
        idle
        success
        request_result)
    ≡ some (success, skipped, true)
unfolding process_request handle_error calls is_empty new_blueprint
skipped_request = refl

-- A retry script that asks for one more attempt each time.
abbrev again : Attempt
again = record one_attempt { retry_run = record { run = no_run; delay = pos 5 } }

abbrev ready : Processor
ready = record after_failure {
  status = success;
  result = request_result;
  retry_in = pos 0;
  retries = 0;
}

run_loop-Bounded_example :
    Bounded limits ready.retries (run_loop limits blueprint (again ∷ again ∷ again ∷ []) ready)
run_loop-Bounded_example =
    run_loop-Bounded limits blueprint (again ∷ again ∷ again ∷ []) ready (omega arith) (omega arith)

succeeds_iff_example :
    (succeeds (scenario_result ∷ []) 1 ≡ true)
    ↔ (All IsGood (scenario_result ∷ []) × (length (scenario_result ∷ []) ≡ 1))
succeeds_iff_example = succeeds_iff (scenario_result ∷ []) 1

succeeds_once : succeeds (scenario_result ∷ []) 1 ≡ true
unfolding succeeds
succeeds_once = refl

report_end-IsSummary_example :
    let rd = report_each (new_report_data 2) (scenario_result ∷ []) in
    IsTally 2 (scenario_result ∷ []) rd × IsSummary 2 (scenario_result ∷ []) (report_end rd)
report_end-IsSummary_example = report_end-IsSummary (scenario_result ∷ []) 2 (omega arith)
