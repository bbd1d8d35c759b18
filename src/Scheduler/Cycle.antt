-- ===== src/Scheduler/Cycle.antt =====
-- internal/scheduler/scheduler.go: `execute`, `emit` and `executeCycle`. The world answers each
-- attempt with an `Attempt`; the model returns what the scheduler does, in order.
use crowdshield.Prelude.{
  ℕ, zero, suc, ◌+◌, Bool, true, false, List, [], ◌∷◌, ◌++◌, ◌==◌, ◌||◌, not, is_nil, if◌then◌else◌,
}
use crowdshield.Prelude.Int.{pos}
use crowdshield.Ops.Vocabulary.{
  Code, Operation, Outcome, Severity, FailureCategory, no_counts, is_cancelled,
}
use crowdshield.Ops.Event.{Event, Result, validate_event, validate_result}
use crowdshield.Scheduler.Options.{Policy, retry_delay}

-- What an attempt meets: the job's result, whether the context is cancelled by then, the clock's
-- reading at the event that follows, and whether the wait behind it runs to its end.
pub record Attempt : Type 0 where
  pub result : Result
  pub cancelled : Bool
  pub now : ℕ
  pub waited : Bool

-- One call of the job, an event handed to the observer, a wait of so many nanoseconds.
pub data Action : Type 0 where
  run_job : ℕ → Action
  observe : Event → Action
  wait_for : ℕ → Action

pub data CycleError : Type 0 where
  nil invalid_result : CycleError

abbrev pub is_success : Outcome → Bool
is_success Outcome.success = true
is_success _ = false

abbrev pub scheduler_event : Code → Outcome → Severity → FailureCategory → ℕ → ℕ → Event
scheduler_event code outcome severity failure at attempt = record {
  code = code;
  operation = Operation.scheduler;
  feed = [];
  outcome = outcome;
  severity = severity;
  failure = failure;
  at = at;
  duration = pos 0;
  attempt = pos attempt;
  counts = no_counts;
}

abbrev pub recovered_event : ℕ → ℕ → Event
recovered_event at attempt =
    scheduler_event Code.scheduler_recovered Outcome.recovered Severity.info FailureCategory.unset
      at attempt

abbrev pub retry_event : FailureCategory → ℕ → ℕ → Event
retry_event failure at attempt =
    scheduler_event Code.scheduler_retry Outcome.retrying Severity.warning failure at attempt

-- An event that does not validate is dropped.
unfoldable pub emit : Event → List Action
emit e = if is_nil (validate_event e) then observe e ∷ [] else []

-- The tests of one round of `executeCycle`, in their order.
pub data Verdict : Type 0 where
  rejected ended succeeded given_up retried : Verdict

unfoldable pub verdict : Policy → Attempt → ℕ → Verdict
verdict p a attempt =
    if not (is_nil (validate_result a.result))
    then Verdict.rejected
    else if a.cancelled || is_cancelled a.result.outcome
    then Verdict.ended
    else if is_success a.result.outcome
    then Verdict.succeeded
    else if not a.result.retryable || attempt == p.max_attempts
    then Verdict.given_up
    else Verdict.retried

-- What a failed attempt does before the next: the retry event and the wait.
unfoldable pub retry_actions : Policy → Attempt → ℕ → List Action
retry_actions p a attempt =
    emit (retry_event a.result.failure a.now (attempt + 1))
    ++ (wait_for (retry_delay p attempt) ∷ [])

-- One round; `later` is what the rounds behind it do.
unfoldable pub round :
    Policy → Attempt → ℕ → Bool → CycleError × List Action → Verdict → CycleError × List Action
round p a attempt had_failure later Verdict.rejected =
    (CycleError.invalid_result, run_job attempt ∷ [])
round p a attempt had_failure later Verdict.ended = (CycleError.nil, run_job attempt ∷ [])
round p a attempt had_failure later Verdict.succeeded = (
  CycleError.nil,
  run_job attempt ∷ (if had_failure then emit (recovered_event a.now attempt) else []),
)
round p a attempt had_failure later Verdict.given_up = (CycleError.nil, run_job attempt ∷ [])
round p a attempt had_failure later Verdict.retried =
    if a.waited
    then (later.0, run_job attempt ∷ (retry_actions p a attempt ++ later.1))
    else (CycleError.nil, run_job attempt ∷ retry_actions p a attempt)

-- The loop of `executeCycle`, over the attempts that are left.
unfoldable pub attempts : Policy → (ℕ → Attempt) → ℕ → ℕ → Bool → CycleError × List Action
attempts p world zero attempt had_failure = (CycleError.nil, [])
attempts p world (suc left) attempt had_failure =
    let later = attempts p world left (attempt + 1) true in
    round p (world attempt) attempt had_failure later (verdict p (world attempt) attempt)

unfoldable pub execute_cycle : Policy → (ℕ → Attempt) → CycleError × List Action
unfolding attempts
execute_cycle p world = attempts p world p.max_attempts 1 false
