-- ===== src/Scheduler/Deadlines.antt =====
-- The deadlines of the run loop: anchored to the first one, missed ones skipped. (docs/architecture.md
-- says otherwise: that an interval is measured after the job before has finished.)
use crowdshield.Prelude.{
  ◌≢◌, some, ℕ, zero, suc, ◌≡◌, ◌≤◌, ◌<◌, ◌+◌, ◌-◌, ◌*◌, arith, [], ◌∷◌, List, refl, ◌⊎◌, inl, inr,
  Bool-cases, ltb,
}
use crowdshield.Scheduler.Options.{Scheduler}
use crowdshield.Scheduler.Cycle.{Action, CycleError, execute_cycle}
use crowdshield.Scheduler.Run.{
  Round, Move, sleep, RunEnd, catch_up, after_cycle, wait_and_run, run_loop,
}

-- `at` is the first of d, d + interval, d + 2 * interval, … behind `now`.
abbrev pub IsNext : ℕ → ℕ → ℕ → ℕ → Type 0
IsNext interval now d at =
    (k : ℕ) × (at ≡ d + k * interval) × (now < at) × ((at ≡ d) ⊎ (at ≤ now + interval))

catch_up-IsNext :
    (fuel interval now d : ℕ)
    → 0 < interval
    → now + 1 < d + fuel
    → 0 < fuel
    → (at : ℕ) × (catch_up fuel interval now d ≡ some at) × IsNext interval now d at
unfolding catch_up
catch_up-IsNext zero interval now d i f p = absurd (omega arith)
catch_up-IsNext (suc fuel) interval now d i f p = elim (Bool-cases (ltb now d)) [
  | inl y ↦ (d, rw y, (0, omega arith, ground arith, inl refl))
  | inr n ↦
      let (at, e, (k, ek, later, near)) =
        catch_up-IsNext fuel interval now (d + interval) i (ground arith) (ground arith) in
      (at, rw n e, (suc k, omega arith, later, inr (ground arith)))
]

-- Each sleep ends at the next deadline behind the clock's reading, counted from the deadline before.
abbrev pub Anchored : ℕ → ℕ → List Move → Type 0
Anchored interval last [] = Unit
Anchored interval last (sleep now len ∷ ms) =
    IsNext interval now (last + interval) (now + len) × Anchored interval (now + len) ms
Anchored interval last (_ ∷ ms) = Anchored interval last ms

-- The loop is never stuck, and its deadlines are anchored.
abbrev GoodLoop : ℕ → ℕ → RunEnd × List Move → Type 0
GoodLoop interval last r = (r.0 ≢ RunEnd.stuck) × Anchored interval last r.1

after_cycle-GoodLoop :
    (interval last : ℕ) (c : CycleError × List Action) (later : RunEnd × List Move)
    → GoodLoop interval last later
    → GoodLoop interval last (after_cycle c later)
unfolding after_cycle
after_cycle-GoodLoop interval last (CycleError.nil, done) later g = g
after_cycle-GoodLoop interval last (CycleError.invalid_result, done) later g = (λ e. cc, tt)

wait_and_run-GoodLoop :
    (s : Scheduler) (r : Round) (last at : ℕ) (later : ℕ → RunEnd × List Move)
    → IsNext s.interval r.now (last + s.interval) at
    → GoodLoop s.interval at (later at)
    → GoodLoop s.interval last (wait_and_run s r (some at) later)
unfolding wait_and_run
wait_and_run-GoodLoop s r last at later n g =
    let e : r.now + (at - r.now) ≡ at = omega (arith, n.2) in
    elim (Bool-cases r.waited) [
      | inl y ↦
          simp (y, e)
            (
              (after_cycle-GoodLoop s.interval at (execute_cycle s.retry r.world) (later at) g).0,
              (
                n,
                (after_cycle-GoodLoop s.interval at (execute_cycle s.retry r.world) (later at) g).1,
              ),
            )
      | inr y ↦ simp (y, e) (λ c. cc, (n, tt))
    ]

-- With a positive interval the run loop always finds its next deadline: it sleeps until the first
-- time last + k * interval (k ≥ 1) that the clock has not reached, `last` being the deadline before,
-- so that missed deadlines are skipped and none is used twice.
pub run_loop-Anchored :
    (s : Scheduler) (rounds : List Round) (last : ℕ)
    → 0 < s.interval
    → ((run_loop s rounds last).0 ≢ RunEnd.stuck)
      × Anchored s.interval last (run_loop s rounds last).1
unfolding run_loop
run_loop-Anchored s [] last i = (λ e. cc, tt)
run_loop-Anchored s (r ∷ rounds) last i =
    let (at, e, n) =
      catch_up-IsNext (r.now + 2) s.interval r.now (last + s.interval) i (omega arith)
        (omega arith) in
    rw e (wait_and_run-GoodLoop s r last at (run_loop s rounds) n (run_loop-Anchored s rounds at i))
