-- ===== src/Runner/Outcome.antt =====
-- What scripts, the network and the file system do in one execution of a request, in the order in
-- which the code asks for it, and the limits of the configuration.
use sinq.Runner.{Failure, Call}
use sinq.Prelude.{ℕ, Bool, Option, List, Bytes}
use sinq.Token.{ℤ}
use sinq.Runner.{Failure, Call}

-- A script's run: the calls it made, and the error that it ended with.
pub record Run : Type 0 where
  pub called : List Call
  pub raised : Option Failure

-- What happens at a token of the request's text: whether the context has ended before it, and the run of its
-- script, if it is one, with the text of what that returned.
pub record Inline : Type 0 where
  pub cancelled : Bool
  pub run : Run
  pub value : Bytes

-- A pre script's run, with what it set by `attach`, `saveResponseTo`, `cache` and `skip`.
pub record PreRun : Type 0 where
  pub run : Run
  pub attached : Bytes
  pub save_to : Bytes
  pub cached : Bool
  pub skips : Bool

-- A retry script's run, with the delay that it returned.
pub record RetryRun : Type 0 where
  pub run : Run
  pub delay : ℤ

-- `intermediate`
pub record Response : Type 0 where
  pub status_line : Bytes
  pub proto : Bytes
  pub headers : List (Bytes × List Bytes)
  pub filename_to : Bytes
  pub oversized : Bool
  pub body : Bytes

pub data Sent : Type 0 where
  answered : Response → Sent
  not_sent : Failure → Sent

-- One round of sending: the answer, the retry script, and whether the wait behind it was cut short.
pub record Attempt : Type 0 where
  pub sent : Sent
  pub retry_run : RetryRun
  pub interrupted : Option Failure

-- A parsed request: the length that its header field is set to, and its body.
pub record HttpRequest : Type 0 where
  pub content_length : ℕ
  pub request_body : Bytes

pub data Parsed : Type 0 where
  parsed_as : HttpRequest → Parsed
  not_parsed : Failure → Parsed

-- The outcomes of one execution of a request.
pub record Trial : Type 0 where
  pub context_error : Option Failure
  pub pre_run : PreRun
  pub inlines : ℕ → Inline
  pub parsed : Parsed
  pub attempts : List Attempt
  pub assert_run : Run
  pub post_run : Run

-- The part of the configurations that the processor reads.
pub record Limits : Type 0 where
  pub fail_fast : Bool
  pub max_retries : ℕ
  pub max_body_size : ℕ
  pub dump_on_failure : Bool
