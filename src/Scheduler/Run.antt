-- ===== src/Scheduler/Run.antt =====
-- internal/scheduler/scheduler.go: `Run`. The world gives, for each regular round, the clock's
-- reading, whether the wait runs to its end, and the attempts of the cycle behind it.
use crowdshield.Prelude.{
  ℕ, zero, suc, ◌+◌, ◌-◌, Bool, true, false, Option, none, some, List, [], ◌∷◌, ◌++◌, ltb,
  if◌then◌else◌,
}
use crowdshield.Ops.Vocabulary.{Code, Outcome, Severity, FailureCategory}
use crowdshield.Scheduler.Options.{Scheduler, jitter}
use crowdshield.Scheduler.Cycle.{Attempt, Action, CycleError, scheduler_event, emit, execute_cycle}

pub record Round : Type 0 where
  pub now : ℕ
  pub waited : Bool
  pub world : ℕ → Attempt

-- What `Run` does: observe an event, sleep from `now` for so long, run a cycle.
pub data Move : Type 0 where
  events : List Action → Move
  sleep : ℕ → ℕ → Move
  cycle : List Action → Move

-- `running` is a loop that is still going when the model's rounds are used up.
pub data RunEnd : Type 0 where
  stopped already_running invalid_result running stuck : RunEnd

-- `for !deadline.After(now) { deadline = deadline.Add(s.interval) }`, on fuel.
unfoldable pub catch_up : ℕ → ℕ → ℕ → ℕ → Option ℕ
catch_up zero interval now deadline = none
catch_up (suc fuel) interval now deadline =
    let rest = catch_up fuel interval now (deadline + interval) in
    if ltb now deadline then some deadline else rest

abbrev pub cycle_end : CycleError → RunEnd → RunEnd
cycle_end CycleError.nil going = going
cycle_end CycleError.invalid_result going = RunEnd.invalid_result

-- A cycle, and what follows it unless it failed.
unfoldable pub after_cycle : CycleError × List Action → RunEnd × List Move → RunEnd × List Move
after_cycle (CycleError.nil, done) later = (later.0, cycle done ∷ later.1)
after_cycle (CycleError.invalid_result, done) later = (RunEnd.invalid_result, cycle done ∷ [])

-- One round behind the loop that moves the deadline: the wait, and the cycle if it was not cut.
unfoldable pub wait_and_run :
    Scheduler → Round → Option ℕ → (ℕ → RunEnd × List Move) → RunEnd × List Move
unfolding after_cycle
wait_and_run s r none later = (RunEnd.stuck, [])
wait_and_run s r (some deadline) later =
    let slept = sleep r.now (deadline - r.now) in
    if r.waited
    then (let rest = after_cycle (execute_cycle s.retry r.world) (later deadline) in
        (rest.0, slept ∷ rest.1))
    else (RunEnd.stopped, slept ∷ [])

-- The `for` loop of `Run`. The fuel exceeds the number of deadlines that can have been missed.
unfoldable pub run_loop : Scheduler → List Round → ℕ → RunEnd × List Move
unfolding catch_up wait_and_run
run_loop s [] deadline = (RunEnd.running, [])
run_loop s (r ∷ rounds) deadline =
    wait_and_run s r (catch_up (r.now + 2) s.interval r.now (deadline + s.interval))
      (run_loop s rounds)

unfoldable pub first_delay : Scheduler → ℕ → ℕ
unfolding jitter
first_delay s random = if s.run_immediately then jitter s random else jitter s random + s.interval

-- `wait` with no delay asks the context only, which `waited` answers too.
unfoldable pub run_from_start : Scheduler → ℕ → ℕ → Round → List Round → RunEnd × List Move
unfolding first_delay run_loop
run_from_start s start random first rounds =
    let delay = first_delay s random in
    let slept = sleep start delay in
    if first.waited
    then (let rest =
          after_cycle (execute_cycle s.retry first.world) (run_loop s rounds (start + delay)) in
        (rest.0, slept ∷ rest.1))
    else (RunEnd.stopped, slept ∷ [])

abbrev pub started_event : ℕ → crowdshield.Ops.Event.Event
started_event at =
    scheduler_event Code.scheduler_started Outcome.started Severity.info FailureCategory.unset at 0

abbrev pub stopped_event : ℕ → crowdshield.Ops.Event.Event
stopped_event at =
    scheduler_event Code.scheduler_stopped Outcome.stopped Severity.info FailureCategory.unset at 0

-- `Run` with its flag: the new flag, the end and the moves. The deferred function runs on every
-- return behind the test of the flag; `finish` is the clock's reading then.
unfoldable pub run :
    Scheduler → Bool → ℕ → ℕ → ℕ → ℕ → Round → List Round → Bool × RunEnd × List Move
unfolding run_from_start
run s true at finish start random first rounds = (true, RunEnd.already_running, [])
run s false at finish start random first rounds =
    let body = run_from_start s start random first rounds in
    (
      false,
      body.0,
      events (emit (started_event at)) ∷ (body.1 ++ events (emit (stopped_event finish)) ∷ []),
    )
