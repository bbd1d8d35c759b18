-- ===== src/Health/Snapshot.antt =====
-- internal/health/readiness.go: `Snapshot`, the response of the readiness endpoint.
use crowdshield.Prelude.{
  ℕ, ◌-◌, Bool, Option, none, some, ◌==◌, ltb, leb, ◌&&◌, not, ◌>>◌, if◌then◌else◌,
}
use crowdshield.Health.Tracker.{Component, Tracker}

pub data Status : Type 0 where
  ready not_ready : Status

-- `unset` is the empty string of `baseResponse`.
pub data Reason : Type 0 where
  unset ready configuration_pending configuration_invalid credentials_pending : Reason
  credentials_unavailable database_pending database_unavailable lapi_pending : Reason
  lapi_unavailable sync_pending sync_stale runtime_fatal stopping : Reason

pub record Response : Type 0 where
  pub status : Status
  pub reason : Reason
  pub configuration : Component
  pub credentials : Component
  pub database : Component
  pub lapi : Component
  pub synchronization : Component
  pub runtime : Component

unfoldable pub base_response : Tracker → Response
base_response t = record {
  status = Status.not_ready;
  reason = Reason.unset;
  configuration = t.configuration;
  credentials = t.credentials;
  database = t.database;
  lapi = t.lapi;
  synchronization = Component.pending;
  runtime = t.runtime;
}

-- Each early return of `Snapshot`: the reason that it reports, if it is taken.
unfoldable pub runtime_reason : Component → Option Reason
runtime_reason Component.fatal = some Reason.runtime_fatal
runtime_reason Component.stopping = some Reason.stopping
runtime_reason _ = none

unfoldable pub configuration_reason : Component → Option Reason
configuration_reason Component.pending = some Reason.configuration_pending
configuration_reason Component.invalid = some Reason.configuration_invalid
configuration_reason _ = none

unfoldable pub credentials_reason : Component → Option Reason
credentials_reason Component.pending = some Reason.credentials_pending
credentials_reason Component.unavailable = some Reason.credentials_unavailable
credentials_reason _ = none

unfoldable pub database_reason : Component → Option Reason
database_reason Component.pending = some Reason.database_pending
database_reason Component.unavailable = some Reason.database_unavailable
database_reason _ = none

-- `now.Sub(at)` is negative before `at`, and so is within the bounds that it is compared with, as
-- 0 is; it saturates far above them.
unfoldable pub within_grace : ℕ → Tracker → Bool
within_grace now t =
    t.lapi_ever_ready
    && not (t.lapi_outage_at == 0)
    && leb (now - t.lapi_outage_at) t.lapi_outage_grace

unfoldable pub lapi_reason : Component → Bool → Option Reason
lapi_reason Component.pending ok = some Reason.lapi_pending
lapi_reason Component.unavailable ok = if ok then none else some Reason.lapi_unavailable
lapi_reason _ ok = none

-- An outage within the grace period is shown as `grace`.
unfoldable pub lapi_shown : Component → Component
lapi_shown Component.unavailable = Component.grace
lapi_shown c = c

unfoldable pub blocked : ℕ → Tracker → Option Reason
unfolding runtime_reason configuration_reason credentials_reason database_reason within_grace
    lapi_reason
blocked now t = do
  runtime_reason t.runtime
  configuration_reason t.configuration
  credentials_reason t.credentials
  database_reason t.database
  lapi_reason t.lapi (within_grace now t)

-- The tests of the last synchronization, behind all others.
unfoldable pub check_sync : ℕ → Tracker → Response → Response
check_sync now t r =
    if t.last_success == 0
    then record r { reason = Reason.sync_pending }
    else if ltb t.max_sync_age (now - t.last_success)
    then record r { synchronization = Component.stale; reason = Reason.sync_stale }
    else record r {
      synchronization = Component.current;
      status = Status.ready;
      reason = Reason.ready;
    }

-- What follows the early returns.
unfoldable pub respond : ℕ → Tracker → Option Reason → Response
unfolding base_response lapi_shown check_sync
respond now t (some why) = record (base_response t) { reason = why }
respond now t none = check_sync now t (record (base_response t) { lapi = lapi_shown t.lapi })

unfoldable pub snapshot : ℕ → Tracker → Response
unfolding blocked respond
snapshot now t = respond now t (blocked now t)

-- The response of a nil tracker.
unfoldable pub snapshot_nil : Response
snapshot_nil = record {
  status = Status.not_ready;
  reason = Reason.runtime_fatal;
  configuration = Component.pending;
  credentials = Component.pending;
  database = Component.pending;
  lapi = Component.pending;
  synchronization = Component.pending;
  runtime = Component.fatal;
}
