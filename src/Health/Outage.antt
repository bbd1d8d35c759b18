-- ===== src/Health/Outage.antt =====
-- How the outage time and the last success move under sequences of calls.
use crowdshield.Prelude.{
  refl, Option, none, if◌then◌else◌, some, >>-eq-some, [], ◌∷◌, none, ◌&&◌, ◌∙◌, not, false, ◌∷◌,
  true, every, ◌≤◌, ◌<◌, ◌≢◌, ◌+◌, List, Bool, ℕ, ◌≡◌, arith,
}
use crowdshield.Ops.Event.{validate_event, validate_result, Event, Result}
use crowdshield.Health.Tracker.{
  HealthError, safe_outcome, advance_success, mark_stopping, safe_synchronization,
  mark_runtime_fatal, apply_code, mark_lapi, mark_database, record_safe_success, mark_credentials,
  apply_event, record_sync, mark_configuration, Component, Tracker,
}
use crowdshield.Health.Snapshot.{
  runtime_reason, configuration_reason, credentials_reason, database_reason, lapi_reason,
  within_grace, blocked, Status, Reason, snapshot,
}
use crowdshield.Health.Trace.{event, lapi, Call, call, calls}
use crowdshield.Ops.Vocabulary.{Outcome, Code}

success-call : (c : Call) (t : Tracker) → t.last_success ≤ (call c t).last_success
unfolding call mark_configuration mark_credentials mark_database mark_lapi mark_runtime_fatal
    mark_stopping record_sync advance_success apply_event apply_code record_safe_success
success-call (event now e) t = ground arith
success-call (lapi now true) t = ground arith
success-call (lapi now false) t = ground arith
success-call _ t = ground arith

-- The time of the last safe synchronization never moves back, under any sequence of calls.
pub last_success_mono : (cs : List Call) (t : Tracker) → t.last_success ≤ (calls cs t).last_success
unfolding calls
last_success_mono [] t = omega arith
last_success_mono (c ∷ cs) t = omega (arith, success-call c t, last_success_mono cs (call c t))

-- A call that does not report LAPI as available.
abbrev good_news : Outcome → Bool
good_news Outcome.available = true
good_news Outcome.recovered = true
good_news _ = false

abbrev about_lapi : Code → Bool
about_lapi Code.lapi_state_changed = true
about_lapi _ = false

abbrev pub revives : Call → Bool
revives (lapi now ok) = ok
revives (event now e) = about_lapi e.code && good_news e.outcome
revives _ = false

-- LAPI is unavailable, and has been so since `start`.
abbrev pub OutSince : ℕ → Tracker → Type 0
OutSince start t = (t.lapi ≡ Component.unavailable) × (t.lapi_outage_at ≡ start)

out-call :
    (start : ℕ) (c : Call) (t : Tracker)
    → revives c ≡ false
    → OutSince start t
    → OutSince start (call c t) × ((call c t).lapi_outage_grace ≡ t.lapi_outage_grace)
unfolding call mark_configuration mark_credentials mark_database mark_lapi mark_runtime_fatal
    mark_stopping record_sync advance_success apply_event apply_code record_safe_success
out-call start (event now e) t r h = ground arith
out-call start (lapi now true) t r h = ground arith
out-call start (lapi now false) t r h = ground arith
out-call start _ t r h = ground arith

out-calls :
    (start : ℕ) (cs : List Call) (t : Tracker)
    → every (λ c. not (revives c)) cs ≡ true
    → OutSince start t
    → OutSince start (calls cs t) × ((calls cs t).lapi_outage_grace ≡ t.lapi_outage_grace)
unfolding calls
out-calls start [] t r h = (h, refl)
out-calls start (c ∷ cs) t r h =
    let s = out-call start c t (ground arith) h in
    let u = out-calls start cs (call c t) (ground arith) s.0 in (u.0, u.1 ∙ s.1)

out_of_grace :
    (start now : ℕ) (t : Tracker)
    → OutSince start t
    → start + t.lapi_outage_grace < now
    → lapi_reason t.lapi (within_grace now t) ≡ some Reason.lapi_unavailable
unfolding lapi_reason within_grace
out_of_grace start now t h l = ground arith

blocked_out :
    (now : ℕ) (t : Tracker)
    → lapi_reason t.lapi (within_grace now t) ≡ some Reason.lapi_unavailable
    → (why : Reason) × (blocked now t ≡ some why)
unfolding blocked
blocked_out now t h =
    let a = >>-eq-some (database_reason t.database) _ h in
    let b = >>-eq-some (credentials_reason t.credentials) _ a.1 in
    let c = >>-eq-some (configuration_reason t.configuration) _ b.1 in
    >>-eq-some (runtime_reason t.runtime) _ c.1

late_not_ready :
    (start now : ℕ) (t : Tracker)
    → OutSince start t
    → start + t.lapi_outage_grace < now
    → (snapshot now t).status ≡ Status.not_ready
unfolding snapshot
late_not_ready start now t h l = let b = blocked_out now t (out_of_grace start now t h l) in rw b.1

-- An outage that begins at `start` is never prolonged by further reports of it: as long as no call
-- reports LAPI available, once the grace period after `start` is over no snapshot is ready.
pub outage_ends_readiness :
    (start now : ℕ) (cs : List Call) (t : Tracker)
    → t.lapi ≢ Component.unavailable
    → every (λ c. not (revives c)) cs ≡ true
    → start + t.lapi_outage_grace < now
    → (snapshot now (calls cs (mark_lapi start false t))).status ≡ Status.not_ready
outage_ends_readiness start now cs t up r l =
    let begun : OutSince start (mark_lapi start false t)
        × ((mark_lapi start false t).lapi_outage_grace ≡ t.lapi_outage_grace) =
      unfold mark_lapi in ground arith in
    let o = out-calls start cs (mark_lapi start false t) r begun.0 in
    late_not_ready start now (calls cs (mark_lapi start false t)) o.0 (omega (arith, o.1, begun.1))

record_safe_success_lem : (at : ℕ) (t : Tracker) → record_safe_success at t ≡ advance_success at t
unfolding record_safe_success advance_success
record_safe_success_lem at t = ground arith

same_move :
    (safe : Bool) (at : ℕ) (t : Tracker)
    → ◌≡◌ {A = Option HealthError × Tracker}
        (if not safe then (none, t) else (none, advance_success at t))
        (none, if safe then record_safe_success at t else t)
same_move true at t = rw record_safe_success_lem
same_move false at t = refl

-- A synchronization reported as a result and the same one reported as an event move the tracker
-- alike.
pub record_sync-eq-apply_event :
    (now : ℕ) (r : Result) (e : Event) (t : Tracker)
    → validate_result r ≡ none
    → validate_event e ≡ none
    → e.code ≡ Code.sync_completed
    → e.outcome ≡ r.outcome
    → e.failure ≡ r.failure
    → e.at ≡ r.completed_at
    → (record_sync r t) ≡ (apply_event now e t)
unfolding record_sync apply_event record_safe_success apply_code safe_synchronization
record_sync-eq-apply_event now r e t vr ve c o f a =
    let k : safe_outcome e.outcome e.failure ≡ safe_outcome r.outcome r.failure = cc in
    rw (vr, ve, c, apply_code, k, a) (same_move (safe_outcome r.outcome r.failure) r.completed_at t)
