-- ===== src/Health/Readiness.antt =====
-- When the readiness endpoint answers "ready", and what can never bring it back.
use crowdshield.Prelude.{
  ◌>>◌, ℕ, ◌+◌, ◌≤◌, ◌<◌, ◌≡◌, refl, ◌≢◌, ◌↔◌, ◌⊎◌, Bool, true, false, Option, none, some, List, [],
  ◌∷◌, arith,
}
use crowdshield.Health.Tracker.{
  Component, Tracker, mark_configuration, mark_credentials, mark_database, mark_lapi,
  mark_runtime_fatal, mark_stopping, advance_success, record_sync, record_safe_success, apply_code,
  apply_event,
}
use crowdshield.Health.Snapshot.{
  runtime_reason, configuration_reason, credentials_reason, database_reason, lapi_reason,
  within_grace, blocked, respond, Status, Reason, blocked, snapshot,
}
use crowdshield.Health.Trace.{lapi, event, Call, call, calls, IsConsistent}

-- LAPI can be reached, or was reached before and its outage has lasted at most the grace period.
abbrev pub LapiUsable : ℕ → Tracker → Type 0
LapiUsable now t =
    (t.lapi ≡ Component.available)
    ⊎ ((t.lapi ≡ Component.unavailable)
        × (t.lapi_ever_ready ≡ true)
        × (0 < t.lapi_outage_at)
        × (now ≤ t.lapi_outage_at + t.lapi_outage_grace))

pub record IsReady (now : ℕ) (t : Tracker) : Type 0 where
  pub running : t.runtime ≡ Component.running
  pub configured : t.configuration ≡ Component.valid
  pub credentialed : t.credentials ≡ Component.loaded
  pub stored : t.database ≡ Component.available
  pub usable : LapiUsable now t
  pub synced : 0 < t.last_success
  pub fresh : now ≤ t.last_success + t.max_sync_age

ready-IsReady :
    (now : ℕ) (t : Tracker)
    → IsConsistent t
    → (snapshot now t).status ≡ Status.ready
    → IsReady now t
unfolding snapshot
ready-IsReady now t c h = ground arith

IsReady-ready : (now : ℕ) (t : Tracker) → IsReady now t → (snapshot now t).status ≡ Status.ready
unfolding snapshot
IsReady-ready now t r = ground arith

-- A consistent tracker is reported ready exactly when the runtime runs, configuration, credentials
-- and database are good, LAPI is available or within the grace period of an outage that followed a
-- good state, and the last safe synchronization is not older than the configured age.
pub snapshot_ready_iff :
    (now : ℕ) (t : Tracker)
    → IsConsistent t
    → ((snapshot now t).status ≡ Status.ready) ↔ IsReady now t
snapshot_ready_iff now t c = (ready-IsReady now t c, IsReady-ready now t)

-- A reason that blocks readiness is a proper one.
abbrev IsProper : Option Reason → Type 0
IsProper none = Unit
IsProper (some why) = (why ≢ Reason.ready) × (why ≢ Reason.unset)

>>-IsProper : (a b : Option Reason) → IsProper a → IsProper b → IsProper (a >> b)
>>-IsProper none b h k = k
>>-IsProper (some why) b h k = h

lapi_reason-IsProper : (c : Component) (ok : Bool) → IsProper (lapi_reason c ok)
unfolding lapi_reason
lapi_reason-IsProper Component.unavailable true = tt
lapi_reason-IsProper Component.unavailable false = grind arith
lapi_reason-IsProper _ ok = grind arith

runtime_reason-IsProper : (c : Component) → IsProper (runtime_reason c)
unfolding runtime_reason
runtime_reason-IsProper Component.fatal = grind arith
runtime_reason-IsProper _ = grind arith

configuration_reason-IsProper : (c : Component) → IsProper (configuration_reason c)
unfolding configuration_reason
configuration_reason-IsProper Component.pending = grind arith
configuration_reason-IsProper _ = grind arith

credentials_reason-IsProper : (c : Component) → IsProper (credentials_reason c)
unfolding credentials_reason
credentials_reason-IsProper Component.pending = grind arith
credentials_reason-IsProper _ = grind arith

database_reason-IsProper : (c : Component) → IsProper (database_reason c)
unfolding database_reason
database_reason-IsProper Component.pending = grind arith
database_reason-IsProper _ = grind arith

blocked-IsProper : (now : ℕ) (t : Tracker) → IsProper (blocked now t)
unfolding blocked
blocked-IsProper now t = >>-IsProper _ _ (runtime_reason-IsProper t.runtime) (
    >>-IsProper _ _ (configuration_reason-IsProper t.configuration) (
      >>-IsProper _ _ (credentials_reason-IsProper t.credentials) (
        >>-IsProper _ _ (database_reason-IsProper t.database)
          (lapi_reason-IsProper t.lapi (within_grace now t)))))

respond_agrees :
    (now : ℕ) (t : Tracker) (o : Option Reason)
    → IsProper o
    → ((respond now t o).status ≡ Status.ready ↔ (respond now t o).reason ≡ Reason.ready)
      × ((respond now t o).reason ≢ Reason.unset)
unfolding respond
respond_agrees now t (some why) h = grind arith
respond_agrees now t none h = ground arith

-- The status and the reason of a response agree, and no response has an empty reason.
pub status_agrees :
    (now : ℕ) (t : Tracker)
    → ((snapshot now t).status ≡ Status.ready ↔ (snapshot now t).reason ≡ Reason.ready)
      × ((snapshot now t).reason ≢ Reason.unset)
unfolding snapshot
status_agrees now t = respond_agrees now t (blocked now t) (blocked-IsProper now t)

abbrev IsDown : Component → Type 0
IsDown c = (c ≡ Component.fatal) ⊎ (c ≡ Component.stopping)

call-IsDown : (c : Call) (t : Tracker) → IsDown t.runtime → IsDown (call c t).runtime
unfolding call mark_configuration mark_credentials mark_database mark_lapi mark_runtime_fatal
    mark_stopping record_sync advance_success apply_event apply_code record_safe_success
call-IsDown (event now e) t h = ground arith
call-IsDown (lapi now true) t h = ground arith
call-IsDown (lapi now false) t h = ground arith
call-IsDown _ t h = ground arith

call_fatal :
    (c : Call) (t : Tracker) → t.runtime ≡ Component.fatal → (call c t).runtime ≡ Component.fatal
unfolding call mark_configuration mark_credentials mark_database mark_lapi mark_runtime_fatal
    mark_stopping record_sync advance_success apply_event apply_code record_safe_success
call_fatal (event now e) t h = ground arith
call_fatal (lapi now true) t h = ground arith
call_fatal (lapi now false) t h = ground arith
call_fatal _ t h = ground arith

calls-IsDown : (cs : List Call) (t : Tracker) → IsDown t.runtime → IsDown (calls cs t).runtime
unfolding calls
calls-IsDown [] t h = h
calls-IsDown (c ∷ cs) t h = calls-IsDown cs (call c t) (call-IsDown c t h)

calls_fatal :
    (cs : List Call) (t : Tracker)
    → t.runtime ≡ Component.fatal
    → (calls cs t).runtime ≡ Component.fatal
unfolding calls
calls_fatal [] t h = h
calls_fatal (c ∷ cs) t h = calls_fatal cs (call c t) (call_fatal c t h)

fatal_reason :
    (now : ℕ) (t : Tracker)
    → t.runtime ≡ Component.fatal
    → (snapshot now t).reason ≡ Reason.runtime_fatal
unfolding snapshot
fatal_reason now t h = ground arith

-- After `MarkRuntimeFatal`, whatever is called later, every snapshot reports `runtime_fatal`.
pub fatal_is_final :
    (cs : List Call) (now : ℕ) (t : Tracker)
    → (snapshot now (calls cs (mark_runtime_fatal t))).reason ≡ Reason.runtime_fatal
unfolding mark_runtime_fatal
fatal_is_final cs now t =
    fatal_reason now (calls cs (record t { runtime = Component.fatal }))
      (calls_fatal cs (record t { runtime = Component.fatal }) refl)

down_not_ready :
    (now : ℕ) (t : Tracker) → IsDown t.runtime → (snapshot now t).status ≡ Status.not_ready
unfolding snapshot
down_not_ready now t h = ground arith

-- After `MarkStopping`, whatever is called later, no snapshot is ready.
pub stopping_is_final :
    (cs : List Call) (now : ℕ) (t : Tracker)
    → (snapshot now (calls cs (mark_stopping t))).status ≡ Status.not_ready
unfolding mark_stopping
stopping_is_final cs now t = down_not_ready now _ (calls-IsDown cs (mark_stopping t) (ground arith))
