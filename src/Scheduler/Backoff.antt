-- ===== src/Scheduler/Backoff.antt =====
-- The retry delay in closed form, and what `New` guarantees.
use crowdshield.Prelude.{refl, some, ℕ, zero, suc, ◌≡◌, ◌≤◌, ◌<◌, ◌*◌, ◌^◌, ◌-◌, arith}
use Prim.Native.Nat.{min}
use native.Mathlib.Nat.{pow-suc}
use crowdshield.Scheduler.Options.{
  Options, Policy, Scheduler, day, max_interval, new, double_delay, retry_delay,
}

pub record IsValidPolicy (p : Policy) : Type 0 where
  pub attempts_low : 1 ≤ p.max_attempts
  pub attempts_high : p.max_attempts ≤ 10
  pub backoff_positive : 0 < p.initial_backoff
  pub backoff_ordered : p.initial_backoff ≤ p.max_backoff
  pub backoff_high : p.max_backoff ≤ day

pub record IsValid (s : Scheduler) : Type 0 where
  pub interval_positive : 0 < s.interval
  pub interval_high : s.interval ≤ max_interval
  pub jitter_high : s.startup_jitter ≤ s.interval
  pub policy : IsValidPolicy s.retry

-- A scheduler that `New` returns has a positive interval of at most 30 days, a jitter within it, one
-- to ten attempts, and backoffs that are positive, ordered and at most a day.
pub new-IsValid : (o : Options) (s : Scheduler) → new o ≡ some s → IsValid s
unfolding new
new-IsValid o s h = ground arith

double_delay_max : (n m : ℕ) → double_delay n m m ≡ m
unfolding double_delay
double_delay_max zero m = refl
double_delay_max (suc n) m = ground arith

pow_regroup : (d n : ℕ) → d * 2 ^ suc n ≡ d * 2 * 2 ^ n
pow_regroup d n = rw pow-suc (omega arith)

le_mul_pow : (d n : ℕ) → d ≤ d * 2 ^ n
le_mul_pow d zero = omega arith
le_mul_pow d (suc n) = rw pow-suc (omega (arith, le_mul_pow d n))

double_delay_lem : (n m d : ℕ) → d ≤ m → double_delay n m d ≡ min (d * 2 ^ n) m
unfolding double_delay
double_delay_lem zero m d h = omega arith
double_delay_lem (suc n) m d h = ground (
  arith,
  double_delay_max n m,
  double_delay_lem n m (d * 2),
  pow_regroup d n,
  le_mul_pow (d * 2) n,
)

pub retry_delay_closed :
    (p : Policy) (k : ℕ)
    → p.initial_backoff ≤ p.max_backoff
    → retry_delay p (suc k) ≡ min (p.initial_backoff * 2 ^ k) p.max_backoff
unfolding retry_delay
retry_delay_closed p k h =
    let e : suc k - 1 ≡ k = omega arith in
    rw (e, retry_delay) (ground (arith, double_delay_lem k p.max_backoff p.initial_backoff))

-- A retry delay is positive and never above the policy's maximum.
pub retry_delay_bounds :
    (p : Policy) (k : ℕ)
    → IsValidPolicy p
    → (0 < retry_delay p (suc k)) × (retry_delay p (suc k) ≤ p.max_backoff)
retry_delay_bounds p k v =
    omega (arith, retry_delay_closed p k v.backoff_ordered, le_mul_pow p.initial_backoff k)
