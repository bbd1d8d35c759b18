-- ===== src/Health/Trace.antt =====
-- Sequences of tracker operations, and what holds of every tracker that they reach.
use crowdshield.Prelude.{
  is_nil, Bool-cases, ℕ, ◌≤◌, ◌<◌, ◌≡◌, ◌≢◌, ◌⊎◌, inl, inr, Bool, true, false, some, List, [], ◌∷◌,
  arith,
}
use crowdshield.Ops.Event.{validate_event, Event, Result}
use crowdshield.Health.Tracker.{
  Component, Options, Tracker, new, mark_configuration, mark_credentials, mark_database, mark_lapi,
  mark_runtime_fatal, mark_stopping, advance_success, record_sync, record_safe_success, apply_code,
  apply_event,
}

-- One call of a method, with the clock's reading where the method reads it.
pub data Call : Type 0 where
  configuration credentials database : Bool → Call
  lapi : ℕ → Bool → Call
  runtime_fatal stopping : Call
  sync : Result → Call
  event : ℕ → Event → Call

unfoldable pub call : Call → Tracker → Tracker
call (configuration ok) t = mark_configuration ok t
call (credentials ok) t = mark_credentials ok t
call (database ok) t = mark_database ok t
call (lapi now ok) t = mark_lapi now ok t
call runtime_fatal t = mark_runtime_fatal t
call stopping t = mark_stopping t
call (sync r) t = (record_sync r t).1
call (event now e) t = (apply_event now e t).1

unfoldable pub calls : List Call → Tracker → Tracker
calls [] t = t
calls (c ∷ cs) t = calls cs (call c t)

-- Each component holds one of its own statuses, and the outage time goes with the LAPI status.
pub record IsConsistent (t : Tracker) : Type 0 where
  pub age_positive : 0 < t.max_sync_age
  pub grace_fits : t.lapi_outage_grace ≤ t.max_sync_age
  pub configuration_status :
      (t.configuration ≡ Component.pending)
      ⊎ (t.configuration ≡ Component.valid)
      ⊎ (t.configuration ≡ Component.invalid)
  pub credentials_status :
      (t.credentials ≡ Component.pending)
      ⊎ (t.credentials ≡ Component.loaded)
      ⊎ (t.credentials ≡ Component.unavailable)
  pub database_status :
      (t.database ≡ Component.pending)
      ⊎ (t.database ≡ Component.available)
      ⊎ (t.database ≡ Component.unavailable)
  pub lapi_status :
      (t.lapi ≡ Component.pending)
      ⊎ (t.lapi ≡ Component.available)
      ⊎ (t.lapi ≡ Component.unavailable)
  pub runtime_status :
      (t.runtime ≡ Component.running)
      ⊎ (t.runtime ≡ Component.fatal)
      ⊎ (t.runtime ≡ Component.stopping)
  pub no_outage : t.lapi ≢ Component.unavailable → t.lapi_outage_at ≡ 0
  pub was_ready : t.lapi ≡ Component.available → t.lapi_ever_ready ≡ true

new-IsConsistent : (o : Options) (t : Tracker) → new o ≡ some t → IsConsistent t
unfolding new
new-IsConsistent o t h = ground arith

mark_lapi-IsConsistent :
    (now : ℕ) (ok : Bool) (t : Tracker) → IsConsistent t → IsConsistent (mark_lapi now ok t)
unfolding mark_lapi
mark_lapi-IsConsistent now true t c = ground arith
mark_lapi-IsConsistent now false t c = ground arith

apply_code-IsConsistent :
    (now : ℕ) (e : Event) (t : Tracker) → IsConsistent t → IsConsistent (apply_code now e.code e t)
unfolding apply_code mark_lapi mark_database mark_runtime_fatal mark_stopping record_safe_success
    advance_success
apply_code-IsConsistent now e t c = ground arith

call-IsConsistent : (c : Call) (t : Tracker) → IsConsistent t → IsConsistent (call c t)
unfolding call apply_event mark_configuration mark_credentials mark_database mark_runtime_fatal
    mark_stopping record_sync advance_success
call-IsConsistent (configuration ok) t h = ground arith
call-IsConsistent (lapi now ok) t h = mark_lapi-IsConsistent now ok t h
call-IsConsistent (event now e) t h = elim (Bool-cases (is_nil (validate_event e))) [
  | inl v ↦ rw (v, call, apply_event) (apply_code-IsConsistent now e t h)
  | inr v ↦ rw (v, call, apply_event) h
]
call-IsConsistent _ t h = ground arith

pub IsConsistent-calls : (cs : List Call) (t : Tracker) → IsConsistent t → IsConsistent (calls cs t)
unfolding calls
IsConsistent-calls [] t h = h
IsConsistent-calls (c ∷ cs) t h = IsConsistent-calls cs (call c t) (call-IsConsistent c t h)

-- Every tracker that `New` returns is consistent, and stays so under every sequence of calls: each
-- component holds one of its own statuses, an outage time is kept only while LAPI is unavailable,
-- and LAPI is never available without having been marked ready once.
pub calls-IsConsistent :
    (o : Options) (t : Tracker) (cs : List Call) → new o ≡ some t → IsConsistent (calls cs t)
calls-IsConsistent o t cs h = IsConsistent-calls cs t (new-IsConsistent o t h)
