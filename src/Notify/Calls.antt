-- ===== src/Notify/Calls.antt =====
-- Sequences of calls of the manager keep every send recorded.
use crowdshield.Prelude.{refl, is_nil, ◌&&◌, [], false, ◌∷◌, if◌then◌else◌, Text, Bool, List, true}
use crowdshield.Ops.Vocabulary.{no_counts, Severity, counts_valid, Counts}
use crowdshield.Ops.FeedName.{valid_feed_name}
use crowdshield.Ops.Event.{validate_result, Event, Result}
use crowdshield.Notify.Notice.{Kind}
use crowdshield.Notify.State.{StateKey}
use crowdshield.Notify.Manager.{now, Outside, Manager, Answers}
use crowdshield.Notify.Handlers.{
  mark_sent, attempt_now, key_of, handle_stale_sync, handle_suspicious_change, handle_startup, keep,
  change_notice, is_success, handle_failure, attempt, with_state, is_feed_failure, success_policy,
  active, clear_failure, then_do, clear_stale, safe_synchronization, only_if, handle_sync,
}
use crowdshield.Notify.Recorded.{IsRecorded}
use crowdshield.Notify.Trace.{
  if_keeps, attempt_now-Recorded, success_policy-Recorded, clear_failure-Recorded,
  handle_failure-Recorded, attempt_later, clear_stale-Recorded, with_state-Recorded,
  then_do-Recorded, next_manager, only_if-Recorded, Keeps, Call, call, calls,
}

module _ (w : Answers) (m : Manager) where
  choose-Keeps :
      (b : Bool) (f g : Outside → List Event × Outside)
      → Keeps w f
      → Keeps w g
      → Keeps w (if b then f else g)
  choose-Keeps true f g hf hg o i = hf o i
  choose-Keeps false f g hf hg o i = hg o i

  handle_sync-Recorded : (r : Result) → Keeps w (handle_sync w m r)
  unfolding handle_sync
  handle_sync-Recorded r =
      let stale = only_if w m (safe_synchronization w m r) (clear_stale w m) in
      let good = then_do w m (clear_failure w m) (success_policy w m r) in
      let rest =
        if is_feed_failure r.outcome
        then handle_failure w m r
        else only_if w m (is_success w m r.outcome) good in
      only_if-Recorded w m (is_nil (validate_result r) && active w m) (then_do w m stale rest) (
        then_do-Recorded w m stale rest
          (only_if-Recorded w m (safe_synchronization w m r) (clear_stale w m)
            (clear_stale-Recorded w m))
          (choose-Keeps (is_feed_failure r.outcome) (handle_failure w m r)
            (only_if w m (is_success w m r.outcome) good) (handle_failure-Recorded w m r)
            (only_if-Recorded w m (is_success w m r.outcome) good (
              then_do-Recorded w m (clear_failure w m) (success_policy w m r)
                (clear_failure-Recorded w m) (success_policy-Recorded w m r)))))

  handle_startup-Recorded : Keeps w (handle_startup w m)
  unfolding handle_startup
  handle_startup-Recorded =
      only_if-Recorded w m (active w m && m.startup_notification)
        (with_state w m (key_of Kind.startup) []
          (λ s found. attempt_now w m Kind.startup Severity.info no_counts s (keep w m)))
        (with_state-Recorded w m (key_of Kind.startup) []
          (λ s found. attempt_now w m Kind.startup Severity.info no_counts s (keep w m))
          (λ s found. attempt_now-Recorded w m Kind.startup Severity.info no_counts s (keep w m)))

  handle_stale_sync-Recorded : Keeps w (handle_stale_sync w m)
  unfolding handle_stale_sync
  handle_stale_sync-Recorded =
      only_if-Recorded w m (active w m && m.stale_sync_notifications)
        (with_state w m (key_of Kind.stale_sync) [] (λ s found o.
          if s.sent
          then ([], o)
          else attempt_now w m Kind.stale_sync Severity.warning no_counts s (mark_sent w m) o))
        (with_state-Recorded w m (key_of Kind.stale_sync) []
          (λ s found o.
            if s.sent
            then ([], o)
            else attempt_now w m Kind.stale_sync Severity.warning no_counts s (mark_sent w m) o)
          (λ s found same o i.
            if_keeps w m s.sent ([], o)
              (attempt_now w m Kind.stale_sync Severity.warning no_counts s (mark_sent w m) o) i
              (attempt_now-Recorded w m Kind.stale_sync Severity.warning no_counts s (mark_sent w m)
                same o i)))

  handle_suspicious_change-Recorded :
      (feed : Text) (counts : Counts) → Keeps w (handle_suspicious_change w m feed counts)
  unfolding handle_suspicious_change
  handle_suspicious_change-Recorded feed counts =
      let key : StateKey = record { kind = Kind.suspicious_change; feed = feed } in
      only_if-Recorded w m
        (valid_feed_name feed
          && counts_valid counts
          && active w m
          && m.suspicious_change_notifications)
        (with_state w m key feed (λ s found o.
          attempt w m (change_notice w m feed counts (now w o).0) s (keep w m) (now w o).1))
        (with_state-Recorded w m key feed
          (λ s found o.
            attempt w m (change_notice w m feed counts (now w o).0) s (keep w m) (now w o).1)
          (λ s found same o i.
            attempt_later w m (change_notice w m feed counts (now w o).0) s (keep w m) o refl same
              i))

  call-IsRecorded : (c : Call) (o : Outside) → IsRecorded w o → IsRecorded w (call w m c o)
  unfolding call
  call-IsRecorded (Call.synced r) o i = handle_sync-Recorded r o i
  call-IsRecorded Call.started o i = handle_startup-Recorded o i
  call-IsRecorded Call.went_stale o i = handle_stale_sync-Recorded o i
  call-IsRecorded Call.closed o i = i
  call-IsRecorded (Call.changed feed counts) o i = handle_suspicious_change-Recorded feed counts o i

-- Whatever is called and whatever the clock, the store and the transport answer: if each notice so far
-- was sent directly after a successful save of a state of its key (for a recovery, that of the repeated
-- failure), with the reading of the clock after the notice's own as the time of the attempt and the
-- reading after that as the time of the save, then so is each notice that the calls send.
pub calls-IsRecorded :
    (w : Answers) (m : Manager)
    → (cs : List Call) (o : Outside) → IsRecorded w o
    → IsRecorded w (calls w m cs o)
unfolding calls
calls-IsRecorded w m [] o i = i
calls-IsRecorded w m (c ∷ cs) o i =
    calls-IsRecorded w (next_manager m c) cs (call w m c o) (call-IsRecorded w m c o i)
