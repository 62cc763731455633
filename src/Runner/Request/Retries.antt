-- ===== src/Runner/Request/Retries.antt =====
-- The loop of `run` ends: a request is sent at most once more than `max_retries`.
use sinq.Prelude.{
  ℕ, ◌+◌, ◌≤◌, ◌<◌, ◌≡◌, refl, Bool, true, false, not, Option, none, some, List, [], ◌∷◌, length,
  arith, if◌then◌else◌, ltb,
}
use sinq.Blueprint.{RequestBlueprint}
use sinq.Runner.{Failure, canceled, failed_with}
use sinq.Runner.Request.{
  Processor, Step, handle_error, send, capture, run_retry, wait, attempt, goes_on, run_loop,
  send_answer,
}
use sinq.Runner.Outcome.{Attempt, Limits}

-- A round of the loop counts one attempt.
attempt-retries :
    (limits : Limits) (bp : RequestBlueprint) (a : Attempt) (p : Processor)
    → (attempt limits bp a p).0.retries ≡ p.retries + 1
unfolding attempt send send_answer handle_error capture run_retry wait
attempt-retries limits bp a p = ground arith

-- What the loop gives back, if the outcomes are enough, and how often it has sent.
abbrev pub Bounded : Limits → ℕ → Option Step → Type 0
Bounded limits n none = ⊥
Bounded limits n (some m) = (n ≤ m.0.retries) × (m.0.retries ≤ limits.max_retries + 1)

handle_error-retries :
    (e : Option Failure) (p : Processor) → (handle_error e p).0.retries ≡ p.retries
unfolding handle_error
handle_error-retries none p = refl
handle_error-retries (some canceled) p = refl
handle_error-retries (some (failed_with m)) p = refl

if-Bounded :
    (limits : Limits) (n : ℕ) (b : Bool) (m k : Option Step)
    → Bounded limits n m
    → (b ≡ false → Bounded limits n k)
    → Bounded limits n (if b then m else k)
if-Bounded limits n true m k h g = h
if-Bounded limits n false m k h g = g refl

-- With more outcomes than retries are left, the loop comes back, and it has then sent the request at
-- most once more than `max_retries`.
pub run_loop-Bounded :
    (limits : Limits) (bp : RequestBlueprint) (outcomes : List Attempt) (p : Processor)
    → limits.max_retries < p.retries + length outcomes
    → p.retries ≤ limits.max_retries + 1
    → Bounded limits p.retries (run_loop limits bp outcomes p)
unfolding run_loop
run_loop-Bounded limits bp [] p h k =
    if-Bounded limits p.retries (not (goes_on p.retry_in)) _ _ (omega arith, k)
      λ _.
        if-Bounded limits p.retries (ltb limits.max_retries p.retries) _ _
          (omega (arith, handle_error-retries _ p), omega (arith, handle_error-retries _ p))
          (λ n. absurd (ground arith))
run_loop-Bounded limits bp (a ∷ rest) p h k =
    if-Bounded limits p.retries (not (goes_on p.retry_in)) _ _ (omega arith, k)
      λ _.
        if-Bounded limits p.retries (ltb limits.max_retries p.retries) _ _
          (omega (arith, handle_error-retries _ p), omega (arith, handle_error-retries _ p))
          λ n.
            let more : p.retries ≤ limits.max_retries = ground arith in
            after (attempt limits bp a p) (attempt-retries limits bp a p) more
              (λ q e. run_loop-Bounded limits bp rest q (omega arith) (omega arith))
  where
    after :
        (m : Step)
        → m.0.retries ≡ p.retries + 1
        → p.retries ≤ limits.max_retries
        → ((q : Processor)
            → q.retries ≡ p.retries + 1
            → Bounded limits q.retries (run_loop limits bp rest q))
        → Bounded limits p.retries
            (elim m.1 [ some x ↦ some (m.0, some x) | none ↦ run_loop limits bp rest m.0 ])
    after (q, some x) e l ih = (omega arith, omega arith)
    after (q, none) e l ih = lower (run_loop limits bp rest q) (ih q e)
      where
        lower : (o : Option Step) → Bounded limits q.retries o → Bounded limits p.retries o
        lower none b = b
        lower (some m) b = (omega (arith, b.0), b.1)
