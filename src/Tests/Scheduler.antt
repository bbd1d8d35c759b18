-- ===== src/Tests/Scheduler.antt =====
-- internal/scheduler at concrete inputs.
use crowdshield.Prelude.{
  ℕ, ◌≡◌, ◌≢◌, true, false, none, some, refl, [], ◌∷◌, ◌++◌, List, arith, if◌then◌else◌, ltb,
}
use crowdshield.Prelude.Int.{pos}
use crowdshield.Ops.Event.{feed_result_valid, validate_result}
use crowdshield.Scheduler.Options.{Options, Policy, Scheduler, new}
use crowdshield.Scheduler.Cycle.{Attempt, run_job, CycleError, execute_cycle}
use crowdshield.Scheduler.Run.{Round, RunEnd, run_loop}
use crowdshield.Scheduler.Backoff.{IsValidPolicy}
use crowdshield.Scheduler.Retries.{Bounded, execute_cycle_bounds}
use crowdshield.Scheduler.Recovery.{
  Fails, Succeeds, failed_actions, recovery, cycle_recovers, cycle_gives_up,
}
use crowdshield.Scheduler.Deadlines.{Anchored, run_loop-Anchored}
use crowdshield.Tests.Samples.{good_result, failed_result}
use crowdshield.Ops.FeedName.{valid_feed_name}
use crowdshield.Ops.Vocabulary.{valid_failure, counts_valid}

abbrev policy : Policy
policy = record { max_attempts = 3; initial_backoff = 10; max_backoff = 15 }

abbrev options : Options
options = record {
  interval = pos 60;
  startup_jitter = pos 0;
  run_immediately = true;
  retry = record { max_attempts = pos 3; initial_backoff = pos 10; max_backoff = pos 15 };
  has_job = true;
}

abbrev scheduler : Scheduler
scheduler = record { interval = 60; startup_jitter = 0; run_immediately = true; retry = policy }

new-scheduler : new options ≡ some scheduler
unfolding new
new-scheduler = refl

policy-IsValid : IsValidPolicy policy
policy-IsValid = omega arith

abbrev failing : Attempt
failing = record { result = failed_result; cancelled = false; now = 500; waited = true }

abbrev succeeding : Attempt
succeeding = record { result = good_result; cancelled = false; now = 600; waited = true }

-- The first two attempts fail.
abbrev twice_bad : ℕ → Attempt
twice_bad n = if ltb n 3 then failing else succeeding

good_passes : validate_result good_result ≡ none
unfolding validate_result feed_result_valid valid_feed_name counts_valid
good_passes = refl

failed_passes : validate_result failed_result ≡ none
unfolding validate_result feed_result_valid valid_feed_name counts_valid valid_failure
failed_passes = refl

failing-Fails : Fails failing
failing-Fails = record {
  valid = failed_passes;
  running = refl;
  failed = refl;
  retryable = refl;
  waited = refl;
  has_time = omega arith;
}

succeeding-Succeeds : Succeeds succeeding
succeeding-Succeeds = record {
  valid = good_passes;
  running = refl;
  succeeded = refl;
  has_time = omega arith;
}

execute_cycle_bounds_example : Bounded policy 3 (execute_cycle policy twice_bad).1
execute_cycle_bounds_example = execute_cycle_bounds policy policy-IsValid twice_bad

cycle_recovers_example :
    execute_cycle policy twice_bad
    ≡ (CycleError.nil, failed_actions policy twice_bad 2 1 ++ (run_job 3 ∷ recovery 2 600 3))
cycle_recovers_example =
    cycle_recovers policy twice_bad 2 policy-IsValid (omega arith)
      (failing-Fails, (failing-Fails, tt)) succeeding-Succeeds

cycle_gives_up_example :
    execute_cycle policy (λ n. failing)
    ≡ (CycleError.nil, failed_actions policy (λ n. failing) 2 1 ++ (run_job 3 ∷ []))
cycle_gives_up_example =
    cycle_gives_up policy (λ n. failing) 2 policy-IsValid refl
      (failing-Fails, (failing-Fails, (failing-Fails, tt)))

-- The second round wakes up after three deadlines have passed.
abbrev rounds : List Round
rounds =
    record { now = 1010; waited = true; world = λ n. succeeding }
    ∷ record { now = 1250; waited = true; world = twice_bad }
    ∷ []

run_loop-Anchored_example :
    ((run_loop scheduler rounds 1000).0 ≢ RunEnd.stuck)
    × Anchored 60 1000 (run_loop scheduler rounds 1000).1
run_loop-Anchored_example = run_loop-Anchored scheduler rounds 1000 (omega arith)

abbrev first_round : Round
first_round = record { now = 1000; waited = true; world = λ n. succeeding }
