-- ===== src/Notify/Trace.antt =====
-- Sequences of calls of the manager.
use crowdshield.Prelude.{
  none, length, inr, inl, text_eq, Bool-cases, text_eq_refl, ◌∙◌, refl, arith, ap, ◌&&◌, ◌∷◌, false,
  ltb, ◌||◌, some, Option, if◌then◌else◌, Bool, true, ◌≡◌, ◌==◌, [], not, List, Text,
}
use crowdshield.Ops.Vocabulary.{failure_eq, no_counts, Severity, FailureCategory, Counts}
use crowdshield.Ops.Event.{Event, Result}
use crowdshield.Notify.Notice.{Kind, Notice}
use crowdshield.Notify.State.{state_valid, key_eq, fresh, StateKey, PersistentState}
use crowdshield.Notify.Manager.{
  checked, state_failure, now, load_state, save_state, Outside, Manager, Answers,
}
use crowdshield.Notify.Handlers.{
  handle_suspicious_change, handle_stale_sync, handle_startup, handle_sync, close, mark_sent,
  pending, keep, simple_notice, attempt_now, clear_failure, clear_stale, success_policy,
  next_failure, attempt, key_of, failure_notice, failed_feed, only_if, with_state, silent,
  recovery_notice, with_saved, then_do, notify_recovery, notify_failure, handle_failure,
}
use crowdshield.State.Branches.{by_test}
use mathlib.Core.Path.{subst}
use mathlib.Core.Option.{some-injective}
use crowdshield.Notify.Recorded.{
  save_state-LeavesState, key_for, state_failure-IsRecorded, either-Recorded, load_state-IsRecorded,
  save_state-IsRecorded, attempt-Recorded, if-Recorded, Recorded, IsRecorded,
}

pub data Call : Type 0 where
  synced : Result → Call
  started went_stale closed : Call
  changed : Text → Counts → Call

-- A call, and the manager after it.
unfoldable pub call : Answers → Manager → Call → Outside → Outside
call w m (Call.synced r) o = (handle_sync w m r o).1
call w m Call.started o = (handle_startup w m o).1
call w m Call.went_stale o = (handle_stale_sync w m o).1
call w m Call.closed o = o
call w m (Call.changed feed counts) o = (handle_suspicious_change w m feed counts o).1

abbrev pub next_manager : Manager → Call → Manager
next_manager m Call.closed = close m
next_manager m _ = m

unfoldable pub calls : Answers → Manager → List Call → Outside → Outside
unfolding call
calls w m [] o = o
calls w m (c ∷ cs) o = calls w (next_manager m c) cs (call w m c o)

abbrev pub Keeps : Answers → (Outside → List Event × Outside) → Type 0
Keeps w f = (o : Outside) → IsRecorded w o → Recorded w (f o)

own_key : (k : StateKey) → key_eq k k ≡ true
own_key k = ground (arith, text_eq_refl k.feed)

-- A state is loaded for the key that is asked for.
load_state-key :
    (w : Answers) (key : StateKey) (o : Outside) (p : PersistentState × Bool)
    → (load_state w key o).0 ≡ some p
    → key_eq p.0.key key ≡ true
unfolding load_state
load_state-key w key o p e = elim (Bool-cases (w.load_fails (length o.actions))) [
  | inl y ↦ absurd (ground (arith, rw (y, load_state) at e))
  | inr n ↦ of_stored (o.stored key) (rw (n, load_state) at e)
]
  where
    of_stored : (x : Option PersistentState) → checked w key x ≡ some p → key_eq p.0.key key ≡ true
    of_stored none h =
        subst (λ (q : PersistentState × Bool). key_eq q.0.key key ≡ true)
          (some-injective (fresh key, false) p h) (own_key key)
    of_stored (some s) h = elim (Bool-cases (not (key_eq s.key key) || not (state_valid s))) [
      | inl y ↦ absurd (ground (arith, rw y at h))
      | inr n ↦
          subst (λ (q : PersistentState × Bool). key_eq q.0.key key ≡ true)
            (some-injective (s, true) p (rw n at h)) (ground (arith, n))
    ]

module _ (w : Answers) (m : Manager) where
  pub with_state-Recorded :
      (key : StateKey) (feed : Text)
      → (k : PersistentState → Bool → Outside → List Event × Outside)
      → ((s : PersistentState) (found : Bool) → key_eq s.key key ≡ true → Keeps w (k s found))
      → Keeps w (with_state w m key feed k)
  with_state-Recorded key feed k h o i =
      let o' = (load_state w key o).1 in
      let i' = load_state-IsRecorded w key o i in
      either-Recorded w (load_state w key o).0 (state_failure w feed o') (λ p. k p.0 p.1 o')
        (state_failure-IsRecorded w feed o' i')
        (λ p e. h p.0 p.1 (load_state-key w key o p e) o' i')

  with_saved-Recorded :
      (s : PersistentState) (feed : Text)
      → (k : PersistentState → Outside → List Event × Outside)
      → ((s' : PersistentState) → s'.key ≡ s.key → Keeps w (k s'))
      → Keeps w (with_saved w m s feed k)
  with_saved-Recorded s feed k h o i =
      let o' = (save_state w s o).1 in
      let i' = save_state-IsRecorded w s o i in
      either-Recorded w (save_state w s o).0 (state_failure w feed o') (λ s. k s o')
        (state_failure-IsRecorded w feed o' i')
        (λ s' e.
          h s' (ap (λ (x : PersistentState). x.key) (save_state-LeavesState w s o s' e).0) o' i')

  pub only_if-Recorded :
      (b : Bool) (f : Outside → List Event × Outside) → Keeps w f → Keeps w (only_if w m b f)
  only_if-Recorded true f h o i = h o i
  only_if-Recorded false f h o i = i

  pub then_do-Recorded :
      (f g : Outside → List Event × Outside) → Keeps w f → Keeps w g → Keeps w (then_do w m f g)
  then_do-Recorded f g hf hg o i = hg (f o).1 (hf o i)

  -- An attempt behind one reading of the clock, for the notice.
  pub attempt_later :
      (n : Notice) (s : PersistentState) (after : PersistentState → Option PersistentState)
      → (o : Outside) → n.at ≡ (now w o).0
      → key_eq s.key (key_for n.kind n.feed) ≡ true
      → IsRecorded w o
      → Recorded w (attempt w m n s after (now w o).1)
  attempt_later n s after o at same i =
      attempt-Recorded w m n s after o.readings (now w o).1 refl at same i

  notify_failure-Recorded :
      (failure : FailureCategory) (feed : Text) (s : PersistentState)
      → key_eq s.key (key_of Kind.repeated_failure) ≡ true
      → Keeps w (notify_failure w m failure feed s)
  unfolding notify_failure
  notify_failure-Recorded failure feed s same o i =
      let n = failure_notice w m s failure feed (now w o).0 in
      let after : PersistentState → Option PersistentState =
        λ s. some (record s { notified = true }) in
      if-Recorded w (s.notified || ltb s.consecutive_failures m.failure_threshold) ([], o)
        (attempt w m n s after (now w o).1) (λ _. i) (λ _. attempt_later n s after o refl same i)

  next_failure-key :
      (failure : FailureCategory) (feed : Text) (s : PersistentState)
      → key_eq s.key (key_of Kind.repeated_failure) ≡ true
      → key_eq (next_failure failure feed s).key (key_of Kind.repeated_failure) ≡ true
  unfolding next_failure
  next_failure-key failure feed s same =
      by_test (λ (x : PersistentState). key_eq x.key (key_of Kind.repeated_failure) ≡ true)
        (not (failure_eq s.failure failure) || not (text_eq s.feed feed) || s.recovery_pending) _ _
        (λ _. refl)
        (λ _.
          by_test (λ (x : PersistentState). key_eq x.key (key_of Kind.repeated_failure) ≡ true)
            (ltb s.consecutive_failures 100) _ _ (λ _. same) (λ _. same))

  pub handle_failure-Recorded : (r : Result) → Keeps w (handle_failure w m r)
  unfolding handle_failure
  handle_failure-Recorded r =
      let feed = failed_feed r.failure r.feeds in
      with_state-Recorded (key_of Kind.repeated_failure) feed
        (λ s found.
          with_saved w m (next_failure r.failure feed s) feed (notify_failure w m r.failure feed))
        (λ s found same.
          with_saved-Recorded (next_failure r.failure feed s) feed
            (notify_failure w m r.failure feed)
            (λ s' e. notify_failure-Recorded r.failure feed s' (
              ap (λ k. key_eq k (key_of Kind.repeated_failure)) e
              ∙ next_failure-key r.failure feed s same)))

  notify_recovery-Recorded :
      (s : PersistentState)
      → key_eq s.key (key_of Kind.repeated_failure) ≡ true
      → Keeps w (notify_recovery w m s)
  unfolding notify_recovery
  notify_recovery-Recorded s same o i =
      attempt_later (recovery_notice w m s (now w o).0) s
        (λ s. some (fresh (key_of Kind.repeated_failure))) o refl same i

  silent-Recorded : (s : PersistentState) → Keeps w (silent w m s)
  silent-Recorded s o i = i

  -- A choice between steps that keep it.
  pub if_keeps :
      (b : Bool) (x y : List Event × Outside)
      → Recorded w x
      → Recorded w y
      → Recorded w (if b then x else y)
  if_keeps b x y hx hy = if-Recorded w b x y (λ _. hx) (λ _. hy)

  pub clear_failure-Recorded : Keeps w (clear_failure w m)
  unfolding clear_failure
  clear_failure-Recorded =
      let none_left = fresh (key_of Kind.repeated_failure) in
      with_state-Recorded (key_of Kind.repeated_failure) []
        (λ s found o'.
          if not found || (s.consecutive_failures == 0 && not s.notified && not s.recovery_pending)
          then ([], o')
          else if not m.recovery_notifications || (not s.notified && not s.recovery_pending)
          then with_saved w m (fresh (key_of Kind.repeated_failure)) [] (silent w m) o'
          else if not s.recovery_pending
          then with_saved w m (pending w m s) s.feed (notify_recovery w m) o'
          else notify_recovery w m s o')
        (λ s found same o i.
          if_keeps
            (not found || (s.consecutive_failures == 0 && not s.notified && not s.recovery_pending))
            ([], o)
            (if not m.recovery_notifications || (not s.notified && not s.recovery_pending)
              then with_saved w m none_left [] (silent w m) o
              else if not s.recovery_pending
              then with_saved w m (pending w m s) s.feed (notify_recovery w m) o
              else notify_recovery w m s o)
            i
            (if_keeps (not m.recovery_notifications || (not s.notified && not s.recovery_pending))
              (with_saved w m none_left [] (silent w m) o)
              (if not s.recovery_pending
                then with_saved w m (pending w m s) s.feed (notify_recovery w m) o
                else notify_recovery w m s o)
              (with_saved-Recorded none_left [] (silent w m) (λ s' e. silent-Recorded s') o i)
              (if_keeps (not s.recovery_pending)
                (with_saved w m (pending w m s) s.feed (notify_recovery w m) o)
                (notify_recovery w m s o)
                (with_saved-Recorded (pending w m s) s.feed (notify_recovery w m)
                  (λ s' e.
                    notify_recovery-Recorded s'
                      (ap (λ k. key_eq k (key_of Kind.repeated_failure)) e ∙ same))
                  o i)
                (notify_recovery-Recorded s same o i))))

  pub clear_stale-Recorded : Keeps w (clear_stale w m)
  unfolding clear_stale
  clear_stale-Recorded =
      with_state-Recorded (key_of Kind.stale_sync) []
        (λ s found o.
          if not found || (not s.sent && s.last_attempt == 0)
          then ([], o)
          else with_saved w m (fresh (key_of Kind.stale_sync)) [] (silent w m) o)
        (λ s found same o i.
          if_keeps (not found || (not s.sent && s.last_attempt == 0)) ([], o)
            (with_saved w m (fresh (key_of Kind.stale_sync)) [] (silent w m) o) i
            (with_saved-Recorded (fresh (key_of Kind.stale_sync)) [] (silent w m)
              (λ s' e. silent-Recorded s') o i))

  pub attempt_now-Recorded :
      (kind : Kind) (severity : Severity) (counts : Counts) (s : PersistentState)
      → (after : PersistentState → Option PersistentState) → key_eq s.key (key_for kind []) ≡ true
      → Keeps w (attempt_now w m kind severity counts s after)
  attempt_now-Recorded kind severity counts s after same o i =
      attempt_later (simple_notice kind severity counts (now w o).0) s after o refl same i

  pub success_policy-Recorded : (r : Result) → Keeps w (success_policy w m r)
  unfolding success_policy
  success_policy-Recorded r =
      let routine =
        with_state w m (key_of Kind.routine_success) []
          (λ s found. attempt_now w m Kind.routine_success Severity.info r.counts s (keep w m)) in
      let first_try = attempt_now w m Kind.first_success Severity.info no_counts in
      with_state-Recorded (key_of Kind.first_success) []
        (λ first found o.
          if m.first_success_notification && (not found || not first.sent)
          then first_try first (mark_sent w m) o
          else if not m.routine_success_notification
          then ([], o)
          else routine o)
        (λ first found same o i.
          if_keeps (m.first_success_notification && (not found || not first.sent))
            (first_try first (mark_sent w m) o)
            (if not m.routine_success_notification then ([], o) else routine o)
            (attempt_now-Recorded Kind.first_success Severity.info no_counts first (mark_sent w m)
              same o i)
            (if_keeps (not m.routine_success_notification) ([], o) (routine o) i
              (with_state-Recorded (key_of Kind.routine_success) []
                (λ s found.
                  attempt_now w m Kind.routine_success Severity.info r.counts s (keep w m))
                (λ s found.
                  attempt_now-Recorded Kind.routine_success Severity.info r.counts s (keep w m))
                o i)))
