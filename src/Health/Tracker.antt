-- ===== src/Health/Tracker.antt =====
-- internal/health/readiness.go: `Tracker` and the operations that change it. A method returns the
-- new tracker; the clock's reading is an argument `now`, in nanoseconds since the zero time (0).
-- The mutex makes each method one step, and receivers are not nil here.
use crowdshield.Prelude.{
  ℕ, ◌*◌, Bool, true, false, Option, none, some, ◌==◌, ltb, ◌||◌, not, is_nil, if◌then◌else◌,
}
use crowdshield.Prelude.Int.{ℤ, pos, pos_part, ltb_ℤ}
use crowdshield.Ops.Vocabulary.{Code, Outcome, FailureCategory, failure_eq}
use crowdshield.Ops.Event.{Event, Result, validate_event, validate_result}

pub data Component : Type 0 where
  pending valid invalid loaded available unavailable grace current stale : Component
  running fatal stopping : Component

pub data HealthError : Type 0 where
  invalid_options invalid_observation : HealthError

pub record Options : Type 0 where
  pub max_sync_age : ℤ
  pub lapi_outage_grace : ℤ

pub record Tracker : Type 0 where
  pub max_sync_age : ℕ
  pub lapi_outage_grace : ℕ
  pub configuration : Component
  pub credentials : Component
  pub database : Component
  pub lapi : Component
  pub runtime : Component
  pub lapi_ever_ready : Bool
  pub lapi_outage_at : ℕ
  pub last_success : ℕ

-- 30*24*time.Hour
abbrev pub max_age_limit : ℕ
max_age_limit = 30 * 24 * 3600 * 1000000000

-- The durations of a tracker are those that `New` has found positive, as numbers.
unfoldable pub new : Options → Option Tracker
new o =
    if not (ltb_ℤ (pos 0) o.max_sync_age)
      || ltb_ℤ (pos max_age_limit) o.max_sync_age
      || not (ltb_ℤ (pos 0) o.lapi_outage_grace)
      || ltb_ℤ o.max_sync_age o.lapi_outage_grace
    then none
    else some (record {
      max_sync_age = pos_part o.max_sync_age;
      lapi_outage_grace = pos_part o.lapi_outage_grace;
      configuration = Component.pending;
      credentials = Component.pending;
      database = Component.pending;
      lapi = Component.pending;
      runtime = Component.running;
      lapi_ever_ready = false;
      lapi_outage_at = 0;
      last_success = 0;
    })

unfoldable pub mark_configuration : Bool → Tracker → Tracker
mark_configuration ok t = record t {
  configuration = if ok then Component.valid else Component.invalid;
}

unfoldable pub mark_credentials : Bool → Tracker → Tracker
mark_credentials ok t = record t {
  credentials = if ok then Component.loaded else Component.unavailable;
}

unfoldable pub mark_database : Bool → Tracker → Tracker
mark_database ok t = record t {
  database = if ok then Component.available else Component.unavailable;
}

abbrev pub is_unavailable : Component → Bool
is_unavailable Component.unavailable = true
is_unavailable _ = false

abbrev pub is_fatal : Component → Bool
is_fatal Component.fatal = true
is_fatal _ = false

-- An outage begins at the first mark, and further marks do not move its beginning.
unfoldable pub mark_lapi : ℕ → Bool → Tracker → Tracker
mark_lapi now true t = record t {
  lapi = Component.available;
  lapi_ever_ready = true;
  lapi_outage_at = 0;
}
mark_lapi now false t = record t {
  lapi = Component.unavailable;
  lapi_outage_at = if is_unavailable t.lapi then t.lapi_outage_at else now;
}

unfoldable pub mark_runtime_fatal : Tracker → Tracker
mark_runtime_fatal t = record t { runtime = Component.fatal }

unfoldable pub mark_stopping : Tracker → Tracker
mark_stopping t = record t {
  runtime = if is_fatal t.runtime then t.runtime else Component.stopping;
}

-- The same test stands in internal/health/readiness.go and in internal/notify/manager.go.
unfoldable pub safe_outcome : Outcome → FailureCategory → Bool
safe_outcome Outcome.success f = true
safe_outcome Outcome.degraded f =
    failure_eq f FailureCategory.feed_download || failure_eq f FailureCategory.feed_validation
safe_outcome _ f = false

unfoldable pub safe_synchronization : Result → Bool
unfolding safe_outcome
safe_synchronization r = safe_outcome r.outcome r.failure

-- `if at.After(t.lastSuccess) { t.lastSuccess = at }`
unfoldable pub advance_success : ℕ → Tracker → Tracker
advance_success at t = record t {
  last_success = if ltb t.last_success at then at else t.last_success;
}

unfoldable pub record_sync : Result → Tracker → Option HealthError × Tracker
record_sync r t =
    if not (is_nil (validate_result r))
    then (some invalid_observation, t)
    else if not (safe_synchronization r)
    then (none, t)
    else (none, advance_success r.completed_at t)

unfoldable pub record_safe_success : ℕ → Tracker → Tracker
record_safe_success at t = if at == 0 then t else advance_success at t

-- The two `switch event.Outcome` of `ApplyEvent`.
unfoldable pub apply_lapi : ℕ → Outcome → Tracker → Tracker
apply_lapi now Outcome.available t = mark_lapi now true t
apply_lapi now Outcome.recovered t = mark_lapi now true t
apply_lapi now Outcome.unavailable t = mark_lapi now false t
apply_lapi now _ t = t

unfoldable pub apply_database : Outcome → Tracker → Tracker
apply_database Outcome.available t = mark_database true t
apply_database Outcome.recovered t = mark_database true t
apply_database Outcome.unavailable t = mark_database false t
apply_database Outcome.failed t = mark_database false t
apply_database _ t = t

-- The `switch event.Code` of `ApplyEvent`.
unfoldable pub apply_code : ℕ → Code → Event → Tracker → Tracker
unfolding apply_lapi apply_database
apply_code now Code.lapi_state_changed e t = apply_lapi now e.outcome t
apply_code now Code.database_state_change e t = apply_database e.outcome t
apply_code now Code.runtime_fatal e t = mark_runtime_fatal t
apply_code now Code.service_stopping e t = mark_stopping t
apply_code now Code.service_stopped e t = mark_stopping t
apply_code now Code.sync_completed e t =
    if safe_outcome e.outcome e.failure then record_safe_success e.at t else t
apply_code now _ e t = t

unfoldable pub apply_event : ℕ → Event → Tracker → Option HealthError × Tracker
apply_event now e t =
    if not (is_nil (validate_event e))
    then (some invalid_observation, t)
    else (none, apply_code now e.code e t)
