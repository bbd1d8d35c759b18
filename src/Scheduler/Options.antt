-- ===== src/Scheduler/Options.antt =====
-- internal/scheduler/scheduler.go: `New`, the jitter and the retry delay. Durations are int64
-- nanoseconds in the options, and numbers once `New` has found them in range.
use crowdshield.Prelude.{
  ℕ, zero, suc, ◌+◌, ◌-◌, ◌*◌, ◌/◌, ◌^◌, Bool, Option, none, some, ltb, leb, ◌&&◌, ◌||◌, not,
  if◌then◌else◌,
}
use crowdshield.Prelude.Int.{ℤ, pos, pos_part, ltb_ℤ}

pub record RetryPolicy : Type 0 where
  pub max_attempts : ℤ
  pub initial_backoff : ℤ
  pub max_backoff : ℤ

pub record Options : Type 0 where
  pub interval : ℤ
  pub startup_jitter : ℤ
  pub run_immediately : Bool
  pub retry : RetryPolicy
  pub has_job : Bool

-- A policy that `validRetry` has passed.
pub record Policy : Type 0 where
  pub max_attempts : ℕ
  pub initial_backoff : ℕ
  pub max_backoff : ℕ

pub record Scheduler : Type 0 where
  pub interval : ℕ
  pub startup_jitter : ℕ
  pub run_immediately : Bool
  pub retry : Policy

-- 24*time.Hour, 30*24*time.Hour and the largest int64.
abbrev pub day : ℕ
day = 24 * 3600 * 1000000000

abbrev pub max_interval : ℕ
max_interval = 30 * day

abbrev pub max_int64 : ℕ
max_int64 = 2 ^ 63 - 1

unfoldable pub valid_retry : RetryPolicy → Bool
valid_retry p =
    not (ltb_ℤ p.max_attempts (pos 1))
    && not (ltb_ℤ (pos 10) p.max_attempts)
    && ltb_ℤ (pos 0) p.initial_backoff
    && not (ltb_ℤ p.max_backoff p.initial_backoff)
    && not (ltb_ℤ (pos day) p.max_backoff)

unfoldable pub new : Options → Option Scheduler
unfolding valid_retry
new o =
    if not (ltb_ℤ (pos 0) o.interval)
      || ltb_ℤ (pos max_interval) o.interval
      || ltb_ℤ o.startup_jitter (pos 0)
      || ltb_ℤ o.interval o.startup_jitter
      || not (valid_retry o.retry)
      || not o.has_job
    then none
    else some (record {
      interval = pos_part o.interval;
      startup_jitter = pos_part o.startup_jitter;
      run_immediately = o.run_immediately;
      retry = record {
        max_attempts = pos_part o.retry.max_attempts;
        initial_backoff = pos_part o.retry.initial_backoff;
        max_backoff = pos_part o.retry.max_backoff;
      };
    })

-- The bound that `jitter` hands to the random source.
unfoldable pub jitter_limit : Scheduler → ℕ
jitter_limit s = if ltb s.startup_jitter max_int64 then s.startup_jitter + 1 else s.startup_jitter

-- `random` is what the source returns for that bound.
unfoldable pub jitter : Scheduler → ℕ → ℕ
jitter s random = if leb s.startup_jitter 0 then 0 else random

-- The loop of `retryDelay`, over the rounds that are left.
unfoldable pub double_delay : ℕ → ℕ → ℕ → ℕ
double_delay zero max_backoff delay = delay
double_delay (suc n) max_backoff delay =
    let rest =
      double_delay n max_backoff (if ltb (max_backoff / 2) delay then max_backoff else delay * 2) in
    if ltb delay max_backoff then rest else delay

unfoldable pub retry_delay : Policy → ℕ → ℕ
unfolding double_delay
retry_delay p failed_attempt =
    let delay = double_delay (failed_attempt - 1) p.max_backoff p.initial_backoff in
    if ltb p.max_backoff delay then p.max_backoff else delay
