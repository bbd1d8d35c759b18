-- ===== src/Scheduler/Retries.antt =====
-- What one cycle does: how often it runs the job, how long it waits and what it reports.
use crowdshield.Prelude.{
  refl, false, ◌≢◌, inr, inl, zero, Bool, Bool-cases, ◌*◌, ◌++◌, ◌-◌, true, none, ℕ, suc, ◌≡◌, ◌≤◌,
  ◌<◌, ◌+◌, arith, [], ◌∷◌, List,
}
use crowdshield.Ops.Event.{
  Event, check_feed, check_failure, check_fields, wrong_numbers, wrong_labels, validate_event,
}
use crowdshield.Scheduler.Cycle.{
  execute_cycle, Verdict, CycleError, verdict, round, retry_actions, attempts, Attempt, emit,
  Action, run_job, wait_for, recovered_event, retry_event,
}
use crowdshield.Ops.Vocabulary.{
  valid_failure, FailureCategory, outcome_needs_failure, counts_valid, valid_severity,
  valid_outcome, code_operation,
}
use crowdshield.Scheduler.Options.{retry_delay, Policy}
use crowdshield.Scheduler.Backoff.{retry_delay_bounds, IsValidPolicy}

abbrev pub runs : List Action → ℕ
runs [] = 0
runs (run_job n ∷ as') = suc (runs as')
runs (_ ∷ as') = runs as'

-- The time spent in waits.
abbrev pub waiting : List Action → ℕ
waiting [] = 0
waiting (wait_for d ∷ as') = d + waiting as'
waiting (_ ∷ as') = waiting as'

abbrev pub waits : List Action → ℕ
waits [] = 0
waits (wait_for d ∷ as') = suc (waits as')
waits (_ ∷ as') = waits as'

-- A retry event of an attempt that may follow, for a valid failure, at a proper time, is valid.
pub retry_event-valid :
    (f : FailureCategory) (at n : ℕ)
    → valid_failure f ≡ true
    → 0 < at
    → 1 ≤ n
    → n ≤ 10
    → validate_event (retry_event f at n) ≡ none
unfolding validate_event wrong_labels wrong_numbers check_fields check_failure check_feed
    code_operation valid_outcome valid_severity counts_valid outcome_needs_failure
retry_event-valid f at n v a l h = ground arith

pub recovered_event-valid :
    (at n : ℕ) → 0 < at → n ≤ 10 → validate_event (recovered_event at n) ≡ none
unfolding validate_event wrong_labels wrong_numbers check_fields check_failure check_feed
    code_operation valid_outcome valid_severity counts_valid outcome_needs_failure
recovered_event-valid at n a h = ground arith

-- The actions of one event, of one retry.
measures-emit : (e : Event) → (runs (emit e) ≡ 0) × (waits (emit e) ≡ 0) × (waiting (emit e) ≡ 0)
unfolding emit
measures-emit e = ground arith

runs-append : (xs ys : List Action) → runs (xs ++ ys) ≡ runs xs + runs ys
runs-append [] ys = omega arith
runs-append (run_job n ∷ xs) ys = omega (arith, runs-append xs ys)
runs-append (_ ∷ xs) ys = omega (arith, runs-append xs ys)

waits-append : (xs ys : List Action) → waits (xs ++ ys) ≡ waits xs + waits ys
waits-append [] ys = omega arith
waits-append (wait_for d ∷ xs) ys = omega (arith, waits-append xs ys)
waits-append (_ ∷ xs) ys = omega (arith, waits-append xs ys)

waiting-append : (xs ys : List Action) → waiting (xs ++ ys) ≡ waiting xs + waiting ys
waiting-append [] ys = omega arith
waiting-append (wait_for d ∷ xs) ys = omega (arith, waiting-append xs ys)
waiting-append (_ ∷ xs) ys = omega (arith, waiting-append xs ys)

ruleset measures = (arith, runs-append, waits-append, waiting-append, measures-emit)

-- At most `left` runs, and a wait between two of them only.
abbrev pub Bounded : Policy → ℕ → List Action → Type 0
Bounded p left as' =
    (runs as' ≤ left) × (waits as' ≤ left - 1) × (waiting as' ≤ waits as' * p.max_backoff)

retried_last :
    (r w t left m : ℕ)
    → (r ≡ 0) × (w ≡ 1) × (t ≤ m)
    → (suc r ≤ suc (suc left)) × (w ≤ suc (suc left) - 1) × (t ≤ w * m)
retried_last r w t left m (hr, hw, ht) = rw hw (omega arith)

retried_measures :
    (r w t r' w' t' left m : ℕ)
    → (r ≡ 0) × (w ≡ 1) × (t ≤ m)
    → (r' ≤ suc left) × (w' ≤ suc left - 1) × (t' ≤ w' * m)
    → (suc (r + r') ≤ suc (suc left)) × (w + w' ≤ suc (suc left) - 1) × (t + t' ≤ (w + w') * m)
retried_measures r w t r' w' t' left m (hr, hw, ht) b = rw hw (omega arith)

module _ (p : Policy) (v : IsValidPolicy p) where
  retry_actions_measures :
      (a : Attempt) (k : ℕ)
      → (runs (retry_actions p a (suc k)) ≡ 0)
        × (waits (retry_actions p a (suc k)) ≡ 1)
        × (waiting (retry_actions p a (suc k)) ≤ p.max_backoff)
  unfolding retry_actions
  retry_actions_measures a k =
      let e = retry_event a.result.failure a.now (suc k + 1) in
      let w : List Action = wait_for (retry_delay p (suc k)) ∷ [] in
      omega (
        arith,
        measures-emit e,
        runs-append (emit e) w,
        waits-append (emit e) w,
        waiting-append (emit e) w,
        retry_delay_bounds p k v,
      )

  round-Bounded :
      (a : Attempt) (left k : ℕ) (had : Bool) (later : CycleError × List Action) (w : Verdict)
      → (left ≡ 0 → w ≢ Verdict.retried)
      → Bounded p left later.1
      → Bounded p (suc left) (round p a (suc k) had later w).1
  unfolding round retry_actions
  round-Bounded a zero k had later Verdict.retried l b = absurd (l refl refl)
  round-Bounded a (suc left) k had later Verdict.retried l b =
      let m = retry_actions_measures a k in
      let w : List Action = retry_actions p a (suc k) in
      elim (Bool-cases a.waited) [
        | inl y ↦
            rw (y, runs-append, waits-append, waiting-append)
              (retried_measures (runs w) (waits w) (waiting w) (runs later.1) (waits later.1)
                (waiting later.1) left p.max_backoff m b)
        | inr n ↦ rw n (retried_last (runs w) (waits w) (waiting w) left p.max_backoff m)
      ]
  round-Bounded a left k true later Verdict.succeeded l b =
      omega (arith, measures-emit (recovered_event a.now (suc k)))
  round-Bounded a left k false later Verdict.succeeded l b = omega arith
  round-Bounded a left k had later _ l b = omega arith

  last_verdict :
      (a : Attempt) (attempt : ℕ) → attempt ≡ p.max_attempts → verdict p a attempt ≢ Verdict.retried
  unfolding verdict
  last_verdict a attempt e = ground arith

  attempts-Bounded :
      (world : ℕ → Attempt) (left k : ℕ) (had : Bool)
      → k + left ≡ p.max_attempts
      → Bounded p left (attempts p world left (suc k) had).1
  unfolding attempts
  attempts-Bounded world zero k had e = omega arith
  attempts-Bounded world (suc left) k had e =
      round-Bounded (world (suc k)) left k had (attempts p world left (suc k + 1) true)
        (verdict p (world (suc k)) (suc k))
        (λ z. last_verdict (world (suc k)) (suc k) (omega arith))
        (let n : suc k + 1 ≡ suc (suc k) = omega arith in
          rw n (attempts-Bounded world left (suc k) true (omega arith)))

  -- Under a valid policy a cycle runs the job at most `max_attempts` times, waits at most
  -- once fewer, and the waits take at most `max_backoff` each in total.
  pub execute_cycle_bounds :
      (world : ℕ → Attempt) → Bounded p p.max_attempts (execute_cycle p world).1
  unfolding execute_cycle
  execute_cycle_bounds world = attempts-Bounded world p.max_attempts 0 false (omega arith)
