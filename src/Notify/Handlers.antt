-- ===== src/Notify/Handlers.antt =====
-- internal/notify/manager.go: attempts to send a notice, and the operations of the manager.
use crowdshield.Prelude.{
  suc, text_eq, ◌==◌, ltb, is_nil, ◌∷◌, length, not, none, ◌++◌, some, if◌then◌else◌, false, Option,
  ◌&&◌, ℕ, ◌||◌, Bool, true, List, Text, [],
}
use crowdshield.Ops.Vocabulary.{
  counts_valid, no_counts, failure_eq, Counts, FailureCategory, Severity, Outcome,
}
use crowdshield.Ops.FeedName.{valid_feed_name}
use crowdshield.Ops.Event.{validate_result, FeedResult, Event, Result}
use crowdshield.Notify.Notice.{Kind, Notice}
use crowdshield.Notify.State.{fresh, PersistentState, StateKey}
use crowdshield.Notify.Manager.{
  either, send, within_cooldown, allowed_severity, act, now, state_failure, load_state, Outside,
  event, save_state, Answers, Manager,
}

abbrev pub key_of : Kind → StateKey
key_of k = record { kind = k; feed = [] }

-- `failedFeed`
abbrev pub is_feed_failure : Outcome → Bool
is_feed_failure Outcome.failed = true
is_feed_failure Outcome.degraded = true
is_feed_failure _ = false

unfoldable pub failed_feed : FailureCategory → List FeedResult → Text
failed_feed failure [] = []
failed_feed failure (f ∷ fs) =
    let rest = failed_feed failure fs in
    if is_feed_failure f.outcome && failure_eq f.failure failure then f.name else rest

unfoldable pub next_failure : FailureCategory → Text → PersistentState → PersistentState
next_failure failure feed s =
    if not (failure_eq s.failure failure) || not (text_eq s.feed feed) || s.recovery_pending
    then record (fresh (key_of Kind.repeated_failure)) {
      failure = failure;
      feed = feed;
      consecutive_failures = 1;
    }
    else if ltb s.consecutive_failures 100
    then record s { consecutive_failures = suc s.consecutive_failures }
    else s

abbrev pub simple_notice : Kind → Severity → Counts → ℕ → Notice
simple_notice kind severity counts at = record {
  kind = kind;
  severity = severity;
  feed = [];
  failure = FailureCategory.unset;
  counts = counts;
  consecutive_failures = 0;
  at = at;
}

module _ (w : Answers) (m : Manager) where
  -- `onSuccess`, if there is one, and the events of a sent notice.
  unfoldable pub sent : Notice → Option PersistentState → Outside → List Event × Outside
  unfolding save_state event state_failure
  sent n none o = event w n Outcome.success FailureCategory.unset o
  sent n (some s) o =
      let (r, o') = save_state w s o in
      either r (state_failure w n.feed o')
        (λ s'. event w n Outcome.success FailureCategory.unset o')

  -- `Send`, behind the state saved before it.
  unfoldable pub deliver : Notice → Option PersistentState → Outside → List Event × Outside
  unfolding sent event
  deliver n after o =
      let failed = w.send_fails (length o.actions) in
      let o' = act (send n (not failed)) o in
      if failed then event w n Outcome.failed FailureCategory.notification o' else sent n after o'

  -- `attempt`; `after` is what `onSuccess` makes of the saved state.
  unfoldable pub attempt :
      Notice
      → PersistentState
      → (PersistentState → Option PersistentState)
      → Outside
      → List Event × Outside
  unfolding save_state state_failure deliver
  attempt n s after o =
      let at = (now w o).0 in
      if not (allowed_severity m n.severity)
      then ([], o)
      else if within_cooldown m s.last_attempt at
      then ([], (now w o).1)
      else (let (r, o') = save_state w (record s { last_attempt = at }) (now w o).1 in
          either r (state_failure w n.feed o') (λ s'. deliver n (after s') o'))

  abbrev pub keep : PersistentState → Option PersistentState
  keep s = none

  abbrev pub mark_sent : PersistentState → Option PersistentState
  mark_sent s = some (record s { sent = true })

  -- What follows a load: an error ends in a failure event of the feed.
  abbrev pub with_state :
      StateKey
      → Text
      → (PersistentState → Bool → Outside → List Event × Outside)
      → Outside
      → List Event × Outside
  with_state key feed k o =
      let (r, o') = load_state w key o in either r (state_failure w feed o') (λ p. k p.0 p.1 o')

  -- What follows a save.
  abbrev pub with_saved :
      PersistentState
      → Text
      → (PersistentState → Outside → List Event × Outside)
      → Outside
      → List Event × Outside
  with_saved s feed k o =
      let (r, o') = save_state w s o in either r (state_failure w feed o') (λ s'. k s' o')

  abbrev pub failure_notice : PersistentState → FailureCategory → Text → ℕ → Notice
  failure_notice s failure feed at = record {
    kind = Kind.repeated_failure;
    severity = Severity.warning;
    feed = feed;
    failure = failure;
    counts = no_counts;
    consecutive_failures = s.consecutive_failures;
    at = at;
  }

  unfoldable pub notify_failure :
      FailureCategory → Text → PersistentState → Outside → List Event × Outside
  unfolding attempt
  notify_failure failure feed s o =
      if s.notified || ltb s.consecutive_failures m.failure_threshold
      then ([], o)
      else attempt (failure_notice s failure feed (now w o).0) s
          (λ s. some (record s { notified = true })) (now w o).1

  unfoldable pub handle_failure : Result → Outside → List Event × Outside
  unfolding load_state save_state state_failure notify_failure next_failure failed_feed
  handle_failure r o =
      let feed = failed_feed r.failure r.feeds in
      with_state (key_of Kind.repeated_failure) feed
        (λ s found. with_saved (next_failure r.failure feed s) feed (notify_failure r.failure feed))
        o

  abbrev pub recovery_notice : PersistentState → ℕ → Notice
  recovery_notice s at = record (simple_notice Kind.recovery Severity.info no_counts at) {
    feed = s.feed;
    failure = s.failure;
  }

  unfoldable pub notify_recovery : PersistentState → Outside → List Event × Outside
  unfolding attempt
  notify_recovery s o =
      attempt (recovery_notice s (now w o).0) s (λ s. some (fresh (key_of Kind.repeated_failure)))
        (now w o).1

  abbrev pub pending : PersistentState → PersistentState
  pending s = record s {
    recovery_pending = true;
    notified = false;
    consecutive_failures = 0;
    last_attempt = 0;
  }

  abbrev pub silent : PersistentState → Outside → List Event × Outside
  silent s o = ([], o)

  unfoldable pub clear_failure : Outside → List Event × Outside
  unfolding load_state save_state state_failure notify_recovery
  clear_failure o =
      with_state (key_of Kind.repeated_failure) []
        (λ s found o'.
          if not found || (s.consecutive_failures == 0 && not s.notified && not s.recovery_pending)
          then ([], o')
          else if not m.recovery_notifications || (not s.notified && not s.recovery_pending)
          then with_saved (fresh (key_of Kind.repeated_failure)) [] silent o'
          else if not s.recovery_pending
          then with_saved (pending s) s.feed notify_recovery o'
          else notify_recovery s o')
        o

  unfoldable pub clear_stale : Outside → List Event × Outside
  unfolding load_state save_state state_failure
  clear_stale o =
      with_state (key_of Kind.stale_sync) []
        (λ s found o'.
          if not found || (not s.sent && s.last_attempt == 0)
          then ([], o')
          else with_saved (fresh (key_of Kind.stale_sync)) [] silent o')
        o

  abbrev pub attempt_now :
      Kind
      → Severity
      → Counts
      → PersistentState
      → (PersistentState → Option PersistentState)
      → Outside
      → List Event × Outside
  attempt_now kind severity counts s after o =
      attempt (simple_notice kind severity counts (now w o).0) s after (now w o).1

  unfoldable pub success_policy : Result → Outside → List Event × Outside
  unfolding load_state state_failure attempt
  success_policy r o =
      with_state (key_of Kind.first_success) []
        (λ first found o'.
          if m.first_success_notification && (not found || not first.sent)
          then attempt_now Kind.first_success Severity.info no_counts first mark_sent o'
          else if not m.routine_success_notification
          then ([], o')
          else with_state (key_of Kind.routine_success) []
              (λ s found'. attempt_now Kind.routine_success Severity.info r.counts s keep) o')
        o

  -- One step's events before those of the next.
  abbrev pub then_do :
      (Outside → List Event × Outside)
      → (Outside → List Event × Outside)
      → Outside
      → List Event × Outside
  then_do f g o = let (es, o') = f o in let (es', o'') = g o' in (es ++ es', o'')

  abbrev pub only_if : Bool → (Outside → List Event × Outside) → Outside → List Event × Outside
  only_if true f o = f o
  only_if false f o = ([], o)

  abbrev pub is_success : Outcome → Bool
  is_success Outcome.success = true
  is_success _ = false

  abbrev pub is_degraded : Outcome → Bool
  is_degraded Outcome.degraded = true
  is_degraded _ = false

  abbrev pub safe_synchronization : Result → Bool
  safe_synchronization r =
      is_success r.outcome
      || (is_degraded r.outcome
          && (failure_eq r.failure FailureCategory.feed_download
              || failure_eq r.failure FailureCategory.feed_validation))

  abbrev pub active : Bool
  active = m.enabled && not m.closed

  unfoldable pub handle_sync : Result → Outside → List Event × Outside
  unfolding clear_stale handle_failure clear_failure success_policy
  handle_sync r = only_if (is_nil (validate_result r) && active) (
      then_do (only_if (safe_synchronization r) clear_stale) (
        if is_feed_failure r.outcome
        then handle_failure r
        else only_if (is_success r.outcome) (then_do clear_failure (success_policy r))))

  unfoldable pub handle_startup : Outside → List Event × Outside
  unfolding load_state state_failure attempt
  handle_startup = only_if (active && m.startup_notification) (
      with_state (key_of Kind.startup) []
        (λ s found. attempt_now Kind.startup Severity.info no_counts s keep))

  abbrev pub change_notice : Text → Counts → ℕ → Notice
  change_notice feed counts at =
      record (simple_notice Kind.suspicious_change Severity.warning counts at) { feed = feed }

  unfoldable pub handle_suspicious_change : Text → Counts → Outside → List Event × Outside
  unfolding load_state state_failure attempt
  handle_suspicious_change feed counts =
      only_if
        (valid_feed_name feed && counts_valid counts && active && m.suspicious_change_notifications)
        (with_state (record { kind = Kind.suspicious_change; feed = feed }) feed
          (λ s found o. attempt (change_notice feed counts (now w o).0) s keep (now w o).1))

  unfoldable pub handle_stale_sync : Outside → List Event × Outside
  unfolding load_state state_failure attempt
  handle_stale_sync = only_if (active && m.stale_sync_notifications) (
      with_state (key_of Kind.stale_sync) [] (λ s found o.
        if s.sent
        then ([], o)
        else attempt_now Kind.stale_sync Severity.warning no_counts s mark_sent o))

abbrev pub close : Manager → Manager
close m = record m { closed = true }
