-- ===== src/Runner/Materialize.antt =====
-- `materializeRequest` of internal/runner/worker.go: the text of a request, made of the texts of its file
-- and of what the scripts between them give. Such a script can call what every script can, so that it acts on
-- the worker too.
use sinq.Prelude.{ℕ, ◌+◌, Option, none, some, List, [], ◌∷◌, ◌++◌, Bytes, codes, if◌then◌else◌}
use sinq.Spaces.{decimal}
use sinq.Token.{TokenType, incomplete_token, text, script, delimiter, eof, Token}
use sinq.Blueprint.{RequestBlueprint, extract_payload}
use sinq.Runner.{Failure, failed_with, Worker, calls}
use sinq.Runner.Outcome.{Inline}

-- The worker and the text so far, and the error.
pub record Materialized : Type 0 where
  pub worker : Worker
  pub content : Bytes
  pub err : Option Failure

-- `none` is an index out of range, which no token of a parsed request has.
payload_bytes : Option Bytes → Bytes
payload_bytes none = []
payload_bytes (some bs) = bs

-- `%s#%d:%d: Failed to materialize request: `, and the reason
materialize_message : RequestBlueprint → Token → Bytes → Failure
unfolding decimal
materialize_message bp t reason = failed_with (
    bp.filename
    ++ codes "#"
    ++ decimal t.line
    ++ codes ":"
    ++ decimal t.offset
    ++ codes ": Failed to materialize request: "
    ++ reason)

-- Behind a script; what it called has taken effect, also if it failed.
after_inline :
    (again : Bytes → Worker → Materialized)
    → Inline
    → Bytes
    → Worker
    → Option Failure
    → Materialized
after_inline again r out w none = again (out ++ r.value) w
after_inline again r out w (some e) = record { worker = w; content = []; err = some e }

-- One token of the loop, by its type; `again` is the rest of the loop.
materialize_token :
    (again : Bytes → Worker → Materialized)
    → RequestBlueprint
    → Token
    → Inline
    → Bytes
    → Worker
    → TokenType
    → Materialized
unfolding payload_bytes extract_payload after_inline materialize_message
materialize_token again bp t r out w text = again (out ++ payload_bytes (extract_payload bp t)) w
materialize_token again bp t r out w script =
    after_inline again r out (calls w r.run.called) r.run.raised
materialize_token again bp t r out w incomplete_token = record {
  worker = w;
  content = [];
  err = some (materialize_message bp t (codes "incomplete token"));
}
materialize_token again bp t r out w delimiter = record {
  worker = w;
  content = [];
  err = some (materialize_message bp t (codes "found delimiter"));
}
materialize_token again bp t r out w eof = again out w

-- The loop, where `i` is the number of tokens before, and `runs` gives what happens at each token.
unfoldable pub materialize_tokens :
    RequestBlueprint → (ℕ → Inline) → ℕ → List Token → Bytes → Worker → Materialized
unfolding materialize_token
materialize_tokens bp runs i [] out w = record { worker = w; content = out; err = none }
materialize_tokens bp runs i (t ∷ ts) out w =
    let next =
      materialize_token (materialize_tokens bp runs (i + 1) ts) bp t (runs i) out w t.type in
    if (runs i).cancelled
    then record { worker = w; content = out; err = some (failed_with (codes "Context cancelled")) }
    else next

-- `materializeRequest`
unfoldable pub materialize_request : RequestBlueprint → (ℕ → Inline) → Worker → Materialized
unfolding materialize_tokens
materialize_request bp runs w = materialize_tokens bp runs 0 bp.content [] w
