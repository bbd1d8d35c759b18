-- ===== src/Notify/Manager.antt =====
-- internal/notify/manager.go: the manager and its handling of what happens in the service.
use crowdshield.Prelude.{
  ◌&&◌, ◌-◌, true, ltb, ◌||◌, is_nil, false, not, ◌^◌, ◌==◌, [], none, ◌∷◌, suc, ◌*◌, length,
  if◌then◌else◌, leb, List, some, ℕ, ◌++◌, Text, Option, Bool,
}
use crowdshield.Ops.Vocabulary.{
  valid_severity, Operation, no_counts, Code, FailureCategory, Outcome, Severity,
}
use crowdshield.Ops.FeedName.{}
use crowdshield.Ops.Event.{validate_event, Event}
use crowdshield.Notify.Notice.{Kind, Notice}
use crowdshield.Notify.State.{state_valid, fresh, key_eq, PersistentState, StateKey}
use crowdshield.Prelude.Int.{pos_part, pos, ltb_ℤ, ℤ}

-- What the clock, the store and the transport answer; a store or transport call is numbered by how
-- many actions came before it, a clock reading by how many readings did.
pub record Answers : Type 0 where
  pub clock : ℕ → ℕ
  pub load_fails : ℕ → Bool
  pub save_fails : ℕ → Bool
  pub send_fails : ℕ → Bool

-- What the manager does to the store, the transport and the observer.
pub data Action : Type 0 where
  load : StateKey → Action
  save : PersistentState → Bool → Action
  send : Notice → Bool → Action
  observe : Event → Action

-- The store keeps, for each key, the state that was last saved without an error.
pub record Outside : Type 0 where
  pub readings : ℕ
  pub stored : StateKey → Option PersistentState
  pub actions : List Action

pub record Manager : Type 0 where
  pub enabled : Bool
  pub closed : Bool
  pub minimum_severity : Severity
  pub failure_threshold : ℕ
  pub cooldown : ℕ
  pub recovery_notifications : Bool
  pub suspicious_change_notifications : Bool
  pub stale_sync_notifications : Bool
  pub startup_notification : Bool
  pub first_success_notification : Bool
  pub routine_success_notification : Bool

pub record ManagerOptions : Type 0 where
  pub enabled : Bool
  pub has_store : Bool
  pub has_transport : Bool
  pub minimum_severity : Severity
  pub failure_threshold : ℤ
  pub cooldown : ℤ
  pub recovery_notifications : Bool
  pub suspicious_change_notifications : Bool
  pub stale_sync_notifications : Bool
  pub startup_notification : Bool
  pub first_success_notification : Bool
  pub routine_success_notification : Bool

abbrev pub thirty_days : ℕ
thirty_days = 30 * 24 * 3600 * 10 ^ 9

unfoldable pub new_manager : ManagerOptions → Option Manager
new_manager o =
    if not (valid_severity o.minimum_severity)
      || ltb_ℤ o.failure_threshold (pos 1)
      || ltb_ℤ (pos 100) o.failure_threshold
      || not (ltb_ℤ (pos 0) o.cooldown)
      || ltb_ℤ (pos thirty_days) o.cooldown
    then none
    else if o.enabled && (not o.has_store || not o.has_transport)
    then none
    else some (record {
      enabled = o.enabled;
      closed = false;
      minimum_severity = o.minimum_severity;
      failure_threshold = pos_part o.failure_threshold;
      cooldown = pos_part o.cooldown;
      recovery_notifications = o.recovery_notifications;
      suspicious_change_notifications = o.suspicious_change_notifications;
      stale_sync_notifications = o.stale_sync_notifications;
      startup_notification = o.startup_notification;
      first_success_notification = o.first_success_notification;
      routine_success_notification = o.routine_success_notification;
    })

abbrev pub severity_rank : Severity → ℕ
severity_rank Severity.info = 1
severity_rank Severity.warning = 2
severity_rank Severity.error = 3
severity_rank _ = 0

unfoldable pub allowed_severity : Manager → Severity → Bool
allowed_severity m s = leb (severity_rank m.minimum_severity) (severity_rank s)

unfoldable pub within_cooldown : Manager → ℕ → ℕ → Bool
within_cooldown m last now =
    if last == 0 then false else if ltb now last then true else ltb (now - last) m.cooldown

abbrev pub is_failed : Outcome → Bool
is_failed Outcome.failed = true
is_failed _ = false

-- What follows an error, and what follows a value.
abbrev pub either {ℓ κ} : {A : Type ℓ} {B : Type κ} → Option A → B → (A → B) → B
either none e k = e
either (some a) e k = k a

abbrev pub act : Action → Outside → Outside
act a o = record o { actions = o.actions ++ a ∷ [] }

-- The notice of `stateFailure`.
abbrev pub failure_of : Text → ℕ → Notice
failure_of feed at = record {
  kind = Kind.repeated_failure;
  severity = Severity.error;
  feed = feed;
  failure = FailureCategory.database;
  counts = no_counts;
  consecutive_failures = 1;
  at = at;
}

module _ (w : Answers) where
  -- One reading of the clock.
  abbrev pub now : Outside → ℕ × Outside
  now o = (w.clock o.readings, record o { readings = suc o.readings })

  abbrev pub event_of : Notice → Outcome → FailureCategory → ℕ → Event
  event_of n outcome failure at = record {
    code = Code.notification_result;
    operation = Operation.notification;
    feed = n.feed;
    outcome = outcome;
    severity = if is_failed outcome then Severity.error else n.severity;
    failure = failure;
    at = at;
    duration = pos 0;
    attempt = pos 0;
    counts = no_counts;
  }

  unfoldable pub event : Notice → Outcome → FailureCategory → Outside → List Event × Outside
  event n outcome failure o =
      let e = event_of n outcome failure (now o).0 in
      (e ∷ [], if is_nil (validate_event e) then act (observe e) (now o).1 else (now o).1)

  unfoldable pub state_failure : Text → Outside → List Event × Outside
  unfolding event
  state_failure feed o =
      event (failure_of feed (now o).0) Outcome.failed FailureCategory.database (now o).1

  -- The state that `load` returns and whether it was found, or none for an error.
  abbrev pub checked : StateKey → Option PersistentState → Option (PersistentState × Bool)
  checked key none = some (fresh key, false)
  checked key (some s) =
      if not (key_eq s.key key) || not (state_valid s) then none else some (s, true)

  unfoldable pub load_state : StateKey → Outside → Option (PersistentState × Bool) × Outside
  load_state key o = (
    if w.load_fails (length o.actions) then none else checked key (o.stored key),
    act (load key) o,
  )

  abbrev pub put :
      PersistentState → (StateKey → Option PersistentState) → StateKey → Option PersistentState
  put s stored key = if key_eq s.key key then some s else stored key

  -- The saved state, or none for an error.
  unfoldable pub save_state : PersistentState → Outside → Option PersistentState × Outside
  save_state s o =
      let s' = record s { updated_at = (now o).0 } in
      let o' = (now o).1 in
      let failed = w.save_fails (length o'.actions) in
      if not (state_valid s') then (none, o') else (
        if failed then none else some s',
        act (save s' (not failed)) (if failed then o' else record o' { stored = put s' o'.stored }),
      )
