-- ===== src/Notify/Recorded.antt =====
-- No notice goes out before its attempt is recorded.
use crowdshield.Prelude.{
  ap, ◌∙◌, sym, suc, ℕ, if◌then◌else◌, none, Option, some, inr, inl, is_nil, Bool-cases, refl,
  length, [], arith, ◌++◌, ◌≡◌, Text, ◌∷◌, not, true, List, false, Bool,
}
use crowdshield.Ops.Vocabulary.{FailureCategory, Outcome}
use crowdshield.Ops.Event.{Event, validate_event}
use crowdshield.Notify.Notice.{Kind, Notice}
use crowdshield.Notify.State.{PersistentState, StateKey, key_eq, state_valid}
use crowdshield.Notify.Manager.{
  either, within_cooldown, allowed_severity, Manager, failure_of, event_of, now, act, load_state,
  event, state_failure, save_state, Answers, Outside, Action,
}
use crowdshield.Notify.Handlers.{key_of, attempt, deliver, sent}
use mathlib.Core.Option.{some-injective}
use mathlib.Core.Path.{subst}

-- The key under which the attempts for a notice are kept.
abbrev pub key_for : Kind → Text → StateKey
key_for Kind.recovery feed = key_of Kind.repeated_failure
key_for Kind.suspicious_change feed = record { kind = Kind.suspicious_change; feed = feed }
key_for k feed = key_of k

-- The state that an action has saved.
abbrev pub saved_by : Action → Option PersistentState
saved_by (Action.save s ok) = if ok then some s else none
saved_by _ = none

abbrev pub last_saved : Option PersistentState → List Action → Option PersistentState
last_saved x [] = x
last_saved x (a ∷ as') = last_saved (saved_by a) as'

-- A state of the notice's key, whose attempt was made at the reading of the clock after that of the
-- notice, and which was saved at the reading after that.
abbrev pub Backs : Answers → Option PersistentState → Notice → Type 0
Backs w none n = ⊥
Backs w (some s) n =
    (key_eq s.key (key_for n.kind n.feed) ≡ true)
    × (k : ℕ) × (n.at ≡ w.clock k)
    × (s.last_attempt ≡ w.clock (suc k))
    × (s.updated_at ≡ w.clock (suc (suc k)))

abbrev pub MayFollow : Answers → Option PersistentState → Action → Type 0
MayFollow w x (Action.send n ok) = Backs w x n
MayFollow w x _ = Unit

-- Every send comes directly after the save of such a state.
abbrev pub RecordedFrom : Answers → Option PersistentState → List Action → Type 0
RecordedFrom w x [] = Unit
RecordedFrom w x (a ∷ as') = MayFollow w x a × RecordedFrom w (saved_by a) as'

append-RecordedFrom :
    (w : Answers) (x : Option PersistentState) (xs : List Action) (a : Action)
    → RecordedFrom w x xs
    → MayFollow w (last_saved x xs) a
    → RecordedFrom w x (xs ++ a ∷ [])
append-RecordedFrom w x [] a r m = (m, tt)
append-RecordedFrom w x (y ∷ xs) a r m = (r.0, append-RecordedFrom w (saved_by y) xs a r.1 m)

last_saved-append :
    (x : Option PersistentState) (xs : List Action) (a : Action)
    → last_saved x (xs ++ a ∷ []) ≡ saved_by a
last_saved-append x [] a = refl
last_saved-append x (y ∷ xs) a = last_saved-append (saved_by y) xs a

-- Every send of a history is recorded.
abbrev pub IsRecorded : Answers → Outside → Type 0
IsRecorded w o = RecordedFrom w none o.actions

act-IsRecorded :
    (w : Answers) (a : Action) (o : Outside)
    → MayFollow w (last_saved none o.actions) a
    → IsRecorded w o
    → IsRecorded w (act a o)
act-IsRecorded w a o m i = append-RecordedFrom w none o.actions a i m

module _ (w : Answers) where
  event-IsRecorded :
      (n : Notice) (x : Outcome) (f : FailureCategory) (o : Outside)
      → IsRecorded w o
      → IsRecorded w (event w n x f o).1
  unfolding event
  event-IsRecorded n x f o i =
      let e = event_of w n x f (now w o).0 in
      elim (Bool-cases (is_nil (validate_event e))) [
        | inl y ↦ rw y (act-IsRecorded w (Action.observe e) (now w o).1 tt i)
        | inr z ↦ rw z i
      ]

  pub state_failure-IsRecorded :
      (feed : Text) (o : Outside) → IsRecorded w o → IsRecorded w (state_failure w feed o).1
  unfolding state_failure
  state_failure-IsRecorded feed o i =
      event-IsRecorded (failure_of feed (now w o).0) Outcome.failed FailureCategory.database
        (now w o).1 i

  pub load_state-IsRecorded :
      (k : StateKey) (o : Outside) → IsRecorded w o → IsRecorded w (load_state w k o).1
  unfolding load_state
  load_state-IsRecorded k o i = act-IsRecorded w (Action.load k) o tt i

  pub save_state-IsRecorded :
      (s : PersistentState) (o : Outside) → IsRecorded w o → IsRecorded w (save_state w s o).1
  unfolding save_state
  save_state-IsRecorded s o i =
      let s' = record s { updated_at = (now w o).0 } in
      elim (Bool-cases (state_valid s')) [
        | inl y ↦ elim (Bool-cases (w.save_fails (length o.actions))) [
          | inl f ↦ rw (y, f) (act-IsRecorded w (Action.save s' false) o tt i)
          | inr g ↦ rw (y, g) (act-IsRecorded w (Action.save s' true) o tt i)
        ]
        | inr n ↦ rw n i
      ]

  -- What a save that succeeds leaves as the last state saved.
  abbrev LeavesState : PersistentState → Outside → Option PersistentState × Outside → Type 0
  LeavesState s o x =
      (s' : PersistentState)
      → x.0 ≡ some s'
      → (s' ≡ record s { updated_at = (now w o).0 }) × (last_saved none x.1.actions ≡ some s')

  pub save_state-LeavesState :
      (s : PersistentState) (o : Outside) → LeavesState s o (save_state w s o)
  unfolding save_state
  save_state-LeavesState s o s' e =
      let t = record s { updated_at = (now w o).0 } in
      elim (Bool-cases (state_valid t)) [
        | inl y ↦ elim (Bool-cases (w.save_fails (length o.actions))) [
          | inl f ↦ absurd (ground (arith, rw (y, save_state, f) at e))
          | inr g ↦
              let same : t ≡ s' = some-injective t s' (rw (y, save_state, g) at e) in
              (
                sym same,
                rw (y, g) (last_saved-append none o.actions (Action.save t true) ∙ ap some same),
              )
        ]
        | inr n ↦ absurd (ground (arith, rw (n, save_state) at e))
      ]

  abbrev pub Recorded : List Event × Outside → Type 0
  Recorded r = IsRecorded w r.1

  pub if-Recorded :
      (b : Bool) (x y : List Event × Outside)
      → (b ≡ true → Recorded x)
      → (b ≡ false → Recorded y)
      → Recorded (if b then x else y)
  if-Recorded true x y t f = t refl
  if-Recorded false x y t f = f refl

  pub either-Recorded :
      {A : Type 0} (r : Option A) (x : List Event × Outside) (k : A → List Event × Outside)
      → Recorded x
      → ((a : A) → r ≡ some a → Recorded (k a))
      → Recorded (either r x k)
  either-Recorded none x k n y = n
  either-Recorded (some a) x k n y = y a refl

  module _ (m : Manager) where
    sent-Recorded :
        (n : Notice) (after : Option PersistentState) (o : Outside)
        → IsRecorded w o
        → Recorded (sent w m n after o)
    unfolding sent
    sent-Recorded n none o i = event-IsRecorded n Outcome.success FailureCategory.unset o i
    sent-Recorded n (some s) o i =
        let o' = (save_state w s o).1 in
        let i' = save_state-IsRecorded s o i in
        either-Recorded (save_state w s o).0 (state_failure w n.feed o')
          (λ s'. event w n Outcome.success FailureCategory.unset o')
          (state_failure-IsRecorded n.feed o' i')
          (λ s' e. event-IsRecorded n Outcome.success FailureCategory.unset o' i')

    deliver-Recorded :
        (n : Notice) (after : Option PersistentState) (o : Outside)
        → Backs w (last_saved none o.actions) n
        → IsRecorded w o
        → Recorded (deliver w m n after o)
    unfolding deliver
    deliver-Recorded n after o r i =
        let failed = w.send_fails (length o.actions) in
        let o' = act (Action.send n (not failed)) o in
        let i' = act-IsRecorded w (Action.send n (not failed)) o r i in
        if-Recorded failed (event w n Outcome.failed FailureCategory.notification o')
          (sent w m n after o')
          (λ y. event-IsRecorded n Outcome.failed FailureCategory.notification o' i')
          (λ z. sent-Recorded n after o' i')

    pub attempt-Recorded :
        (n : Notice) (s : PersistentState) (after : PersistentState → Option PersistentState)
        → (k : ℕ) (o : Outside) → o.readings ≡ suc k
        → n.at ≡ w.clock k
        → key_eq s.key (key_for n.kind n.feed) ≡ true
        → IsRecorded w o
        → Recorded (attempt w m n s after o)
    unfolding attempt
    attempt-Recorded n s after k o later at same i =
        let s' = record s { last_attempt = (now w o).0 } in
        let (r, o') = save_state w s' (now w o).1 in
        let i' = save_state-IsRecorded s' (now w o).1 i in
        let saved = either r (state_failure w n.feed o') (λ s'. deliver w m n (after s') o') in
        let cool = within_cooldown m s.last_attempt (now w o).0 in
        if-Recorded (not (allowed_severity m n.severity)) ([], o)
          (if cool then ([], (now w o).1) else saved) (λ _. i)
          (λ _.
            if-Recorded cool ([], (now w o).1) saved (λ _. i)
              (λ _.
                either-Recorded r (state_failure w n.feed o') (λ s'. deliver w m n (after s') o')
                  (state_failure-IsRecorded n.feed o' i')
                  (λ s'' e.
                    let (same_state, last) = save_state-LeavesState s' (now w o).1 s'' e in
                    deliver-Recorded n (after s'') o'
                      (subst (λ x. Backs w x n) (ap some (sym same_state) ∙ sym last)
                        (same, k, at, ap w.clock later, ap (λ j. w.clock (suc j)) later))
                      i')))
