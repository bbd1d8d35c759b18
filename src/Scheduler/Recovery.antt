-- ===== src/Scheduler/Recovery.antt =====
-- What a cycle does, event by event, when its first attempts fail and can be retried.
use crowdshield.Prelude.{
  false, true, Bool, none, ℕ, zero, suc, ◌≡◌, ◌≤◌, ◌<◌, ◌+◌, ◌-◌, arith, [], ◌∷◌, List, refl, ◌++◌,
}
use crowdshield.Ops.Event.{validate_result}
use crowdshield.Scheduler.Options.{Policy, retry_delay}
use crowdshield.Scheduler.Cycle.{
  round, Attempt, Action, run_job, observe, wait_for, CycleError, emit, attempts, execute_cycle,
  recovered_event, retry_event, verdict, Verdict, retry_actions,
}
use crowdshield.Scheduler.Backoff.{IsValidPolicy}
use crowdshield.Scheduler.Retries.{retry_event-valid, recovered_event-valid}
use crowdshield.Ops.Vocabulary.{FailureCategory, valid_failure, Outcome}
use crowdshield.Ops.Results.{validate_result_iff, OutcomeFits}

abbrev pub outcome_fails : Outcome → Bool
outcome_fails Outcome.failed = true
outcome_fails Outcome.degraded = true
outcome_fails _ = false

failure_of_fails :
    (o : Outcome) (f : FailureCategory) (retryable : Bool)
    → outcome_fails o ≡ true
    → OutcomeFits o f retryable
    → valid_failure f ≡ true
failure_of_fails Outcome.failed f retryable h v = v
failure_of_fails Outcome.degraded f retryable h v = v
failure_of_fails _ f retryable h v = ground arith

-- An attempt with a valid result that fails and can be retried, not cancelled, and whose wait ends.
pub record Fails (a : Attempt) : Type 0 where
  pub valid : validate_result a.result ≡ none
  pub running : a.cancelled ≡ false
  pub failed : outcome_fails a.result.outcome ≡ true
  pub retryable : a.result.retryable ≡ true
  pub waited : a.waited ≡ true
  pub has_time : 0 < a.now

-- The attempts i, i + 1, … (k of them) fail.
abbrev pub AllFail : (ℕ → Attempt) → ℕ → ℕ → Type 0
AllFail world zero i = Unit
AllFail world (suc k) i = Fails (world i) × AllFail world k (suc i)

-- Run, retry event, wait: for each of the attempts i, i + 1, … (k of them).
abbrev pub failed_actions : Policy → (ℕ → Attempt) → ℕ → ℕ → List Action
failed_actions p world zero i = []
failed_actions p world (suc k) i =
    run_job i
    ∷ observe (retry_event (world i).result.failure (world i).now (suc i))
    ∷ wait_for (retry_delay p i)
    ∷ failed_actions p world k (suc i)

Fails-failure : (a : Attempt) → Fails a → valid_failure a.result.failure ≡ true
Fails-failure a f =
    failure_of_fails a.result.outcome a.result.failure a.result.retryable f.failed
      ((validate_result_iff a.result).0 f.valid).outcome_fits

Fails-verdict :
    (p : Policy) (a : Attempt) (i : ℕ)
    → Fails a
    → i < p.max_attempts
    → verdict p a i ≡ Verdict.retried
unfolding verdict
Fails-verdict p a i f l = ground arith

retry_actions_lem :
    (p : Policy) (a : Attempt) (i : ℕ)
    → Fails a
    → i < 10
    → retry_actions p a i
      ≡ observe (retry_event a.result.failure a.now (suc i)) ∷ wait_for (retry_delay p i) ∷ []
unfolding retry_actions emit
retry_actions_lem p a i f l =
    let n : i + 1 ≡ suc i = omega arith in
    rw (
      n,
      retry_event-valid a.result.failure a.now (suc i) (Fails-failure a f) f.has_time (omega arith)
          (omega arith),
    )

AllFail-init : (world : ℕ → Attempt) (k i : ℕ) → AllFail world (suc k) i → AllFail world k i
AllFail-init world zero i f = tt
AllFail-init world (suc k) i f = (f.0, AllFail-init world k (suc i) f.1)

AllFail-last :
    (world : ℕ → Attempt) (k j i : ℕ) → j ≡ i + k → AllFail world (suc k) i → Fails (world j)
AllFail-last world zero j i e f = let e' : j ≡ i = omega arith in rw e' f.0
AllFail-last world (suc k) j i e f = AllFail-last world k j (suc i) (omega arith) f.1

-- One failed attempt that is not the last.
attempts-Fails :
    (p : Policy) (world : ℕ → Attempt) (n i : ℕ) (had : Bool)
    → p.max_attempts ≤ 10
    → i < p.max_attempts
    → Fails (world i)
    → attempts p world (suc n) i had ≡ (
      (attempts p world n (suc i) true).0,
      run_job i
          ∷ observe (retry_event (world i).result.failure (world i).now (suc i))
          ∷ wait_for (retry_delay p i)
          ∷ (attempts p world n (suc i) true).1,
    )
unfolding attempts round
attempts-Fails p world n i had h l f =
    let next : i + 1 ≡ suc i = omega arith in
    rw (
      Fails-verdict p (world i) i f l,
      next,
      retry_actions_lem p (world i) i f (omega arith),
      f.waited,
      round,
    )

-- Whether an earlier attempt failed, k attempts later.
abbrev later_had : ℕ → Bool → Bool
later_had zero had = had
later_had (suc k) had = true

later_had-true : (k : ℕ) → later_had k true ≡ true
later_had-true zero = refl
later_had-true (suc k) = refl

-- The first k attempts fail, and at least one more is left.
attempts_prefix :
    (p : Policy) (world : ℕ → Attempt) (k n left i : ℕ) (had : Bool)
    → p.max_attempts ≤ 10
    → n ≡ k + suc left
    → i + k + left ≡ p.max_attempts
    → AllFail world k i
    → attempts p world n i had ≡ (
      (attempts p world (suc left) (i + k) (later_had k had)).0,
      failed_actions p world k i ++ (attempts p world (suc left) (i + k) (later_had k had)).1,
    )
attempts_prefix p world zero n left i had h e m f =
    let e' : n ≡ suc left = omega arith in let i' : i + 0 ≡ i = omega arith in rw (e', i')
attempts_prefix p world (suc k) zero left i had h e m f = absurd (omega arith)
attempts_prefix p world (suc k) (suc n) left i had h e m f =
    let ih = attempts_prefix p world k n left (suc i) true h (omega arith) (omega arith) f.1 in
    let k' : i + suc k ≡ suc i + k = omega arith in
    rw (k', attempts-Fails p world n i had h (omega arith) f.0, ih, later_had-true k)

-- An attempt whose result is a success, not cancelled.
pub record Succeeds (a : Attempt) : Type 0 where
  pub valid : validate_result a.result ≡ none
  pub running : a.cancelled ≡ false
  pub succeeded : a.result.outcome ≡ Outcome.success
  pub has_time : 0 < a.now

Succeeds-verdict :
    (p : Policy) (a : Attempt) (i : ℕ) → Succeeds a → verdict p a i ≡ Verdict.succeeded
unfolding verdict
Succeeds-verdict p a i f = ground arith

-- The recovery event, if an attempt failed before.
abbrev pub recovery : ℕ → ℕ → ℕ → List Action
recovery zero now attempt = []
recovery (suc k) now attempt = observe (recovered_event now attempt) ∷ []

attempts-Succeeds :
    (p : Policy) (world : ℕ → Attempt) (k left i : ℕ)
    → i ≤ 10
    → Succeeds (world i)
    → attempts p world (suc left) i (later_had k false)
      ≡ (CycleError.nil, run_job i ∷ recovery k (world i).now i)
unfolding attempts round emit
attempts-Succeeds p world zero left i h s = rw (Succeeds-verdict p (world i) i s, round)
attempts-Succeeds p world (suc k) left i h s = rw (
  Succeeds-verdict p (world i) i s,
  round,
  emit,
  recovered_event-valid (world i).now i s.has_time h,
)

-- If the first k attempts fail and can be retried, k is below the limit, and the next attempt
-- succeeds, then the cycle reports every failure with a retry event, waits after each, runs the job
-- k + 1 times and, if k is not 0, reports the recovery; none of these events is dropped.
pub cycle_recovers :
    (p : Policy) (world : ℕ → Attempt) (k : ℕ)
    → IsValidPolicy p
    → k < p.max_attempts
    → AllFail world k 1
    → Succeeds (world (suc k))
    → execute_cycle p world ≡ (
      CycleError.nil,
      failed_actions p world k 1 ++ (run_job (suc k) ∷ recovery k (world (suc k)).now (suc k)),
    )
unfolding execute_cycle
cycle_recovers p world k v l f s =
    let left = p.max_attempts - suc k in
    let e : 1 + k ≡ suc k = omega arith in
    let high = v.attempts_high in
    rw (
      attempts_prefix p world k p.max_attempts left 1 false high (omega arith) (omega arith) f,
      e,
      attempts-Succeeds p world k left (suc k) (omega arith) s,
    )

last_verdict :
    (p : Policy) (a : Attempt) (i : ℕ)
    → Fails a
    → i ≡ p.max_attempts
    → verdict p a i ≡ Verdict.given_up
unfolding verdict
last_verdict p a i f e = ground arith

attempts_last :
    (p : Policy) (world : ℕ → Attempt) (left i : ℕ) (had : Bool)
    → i ≡ p.max_attempts
    → Fails (world i)
    → attempts p world (suc left) i had ≡ (CycleError.nil, run_job i ∷ [])
unfolding attempts round
attempts_last p world left i had e f = rw (last_verdict p (world i) i f e, round)

-- If every attempt that the policy allows fails and can be retried, the cycle runs the job exactly
-- that many times and then gives up without error, with no wait and no event behind the last run.
pub cycle_gives_up :
    (p : Policy) (world : ℕ → Attempt) (k : ℕ)
    → IsValidPolicy p
    → suc k ≡ p.max_attempts
    → AllFail world (suc k) 1
    → execute_cycle p world ≡ (CycleError.nil, failed_actions p world k 1 ++ (run_job (suc k) ∷ []))
unfolding execute_cycle
cycle_gives_up p world k v l f =
    let e : 1 + k ≡ suc k = omega arith in
    let high = v.attempts_high in
    rw (
      attempts_prefix p world k p.max_attempts 0 1 false high (omega arith) (omega arith)
          (AllFail-init world k 1 f),
      e,
      attempts_last p world 0 (suc k) (later_had k false) l
          (AllFail-last world k (suc k) 1 (omega arith) f),
    )
