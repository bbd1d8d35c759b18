-- ===== src/State/Notifications.antt =====
-- internal/state/notification_repository.go: the states of the notifications, as the store keeps them. A
-- row has the fields of a state, with its times in whole seconds.
use crowdshield.Prelude.{
  text_eq_refl, ◌∙◌, inr, is_empty, inl, ap, arith, Bool-cases, refl, ◌≡◌, ◌&&◌, ◌++◌, exists, true,
  ◌^◌, ◌||◌, ltb, not, ◌*◌, List, false, some, ◌==◌, Option, ℕ, none, Bool, if◌then◌else◌, [], ◌∷◌,
}
use crowdshield.State.Tables.{ErrorCategory, Result, find, update, unix}
use crowdshield.Notify.State.{
  is_repeated_failure, StateKey, PersistentState, key_valid, key_eq, state_valid, fresh,
}
use crowdshield.Notify.Notice.{Kind, has_failure}
use crowdshield.State.Begun.{is_ok}
use crowdshield.State.Branches.{by_test}
use crowdshield.State.Completed.{find_last}

-- None is no time at all.
pub record NotificationRow : Type 0 where
  pub kept : PersistentState
  pub last_attempt_at : Option ℕ
  pub updated_at : ℕ

abbrev pub epoch : ℕ
epoch = 62135596800

-- The state that a row reads as.
abbrev pub read_row : NotificationRow → PersistentState
read_row r = record r.kept {
  last_attempt = elim r.last_attempt_at [ none ↦ 0 | some s ↦ s * 10 ^ 9 ];
  updated_at = r.updated_at * 10 ^ 9;
}

abbrev pub has_row_key : StateKey → NotificationRow → Bool
has_row_key key r = key_eq r.kept.key key

abbrev pub before_epoch : Option ℕ → Bool
before_epoch none = false
before_epoch (some s) = ltb s epoch

-- The state, and whether it was there.
unfoldable pub load_state : Bool → StateKey → List NotificationRow → Result (PersistentState × Bool)
unfolding key_valid find state_valid
load_state works key rows =
    if not (key_valid key)
    then Result.err ErrorCategory.constraint
    else if not works
    then Result.err ErrorCategory.query
    else elim (find (has_row_key key) rows) [
      | none ↦ Result.ok (fresh key, false)
      | some r ↦
          if not (ltb epoch r.updated_at)
            || before_epoch r.last_attempt_at
            || not (state_valid (read_row r))
          then Result.err ErrorCategory.integrity
          else Result.ok (read_row r, true)
    ]

abbrev pub row_of : PersistentState → NotificationRow
row_of s = record {
  kept = record s { last_attempt = 0; updated_at = 0 };
  last_attempt_at = if s.last_attempt == 0 then none else some (unix s.last_attempt);
  updated_at = unix s.updated_at;
}

abbrev pub may_be_sent : Kind → Bool
may_be_sent Kind.first_success = true
may_be_sent Kind.stale_sync = true
may_be_sent _ = false

-- The checks of the table that a valid state may fail.
unfoldable pub table_allows : NotificationRow → Bool
table_allows r =
    ltb epoch r.updated_at
    && not (before_epoch r.last_attempt_at)
    && (is_repeated_failure r.kept.key.kind
        || (not (has_failure r.kept.failure)
            && is_empty r.kept.feed
            && r.kept.consecutive_failures == 0
            && not r.kept.notified
            && not r.kept.recovery_pending))
    && (not r.kept.sent || may_be_sent r.kept.key.kind)

unfoldable pub save_state :
    Bool → PersistentState → List NotificationRow → Result (Unit {0}) × List NotificationRow
unfolding state_valid update table_allows
save_state works s rows =
    if not (state_valid s) || s.updated_at == 0
    then (Result.err ErrorCategory.constraint, rows)
    else if not works || not (table_allows (row_of s))
    then (Result.err ErrorCategory.query, rows)
    else if exists (has_row_key s.key) rows
    then (Result.ok tt, update (has_row_key s.key) (λ r. row_of s) rows)
    else (Result.ok tt, rows ++ row_of s ∷ [])

abbrev pub whole_seconds : ℕ → ℕ
whole_seconds t = unix t * 10 ^ 9

-- A state with its times cut to whole seconds.
abbrev pub in_seconds : PersistentState → PersistentState
in_seconds s = record s {
  last_attempt = whole_seconds s.last_attempt;
  updated_at = whole_seconds s.updated_at;
}

attempt_read :
    (b : Bool) (u : ℕ)
    → (b ≡ true → u ≡ 0)
    → (elim (if b then none else some u) as (λ _. ℕ) [ none ↦ 0 | some s ↦ s * 10 ^ 9 ])
      ≡ u * 10 ^ 9
attempt_read true u h = rw (h refl) (omega arith)
attempt_read false u h = refl

no_attempt : (t : ℕ) → (t == 0) ≡ true → unix t ≡ 0
no_attempt t h = ground (arith, h)

read_row-row_of : (s : PersistentState) → read_row (row_of s) ≡ in_seconds s
read_row-row_of s =
    ap (λ n. record s { last_attempt = n; updated_at = whole_seconds s.updated_at })
      (attempt_read (s.last_attempt == 0) (unix s.last_attempt) (no_attempt s.last_attempt))

later_valid :
    (s : PersistentState) (u a : ℕ)
    → state_valid s ≡ true
    → ltb epoch u ≡ true
    → state_valid (record s { last_attempt = a; updated_at = u * 10 ^ 9 }) ≡ true
unfolding state_valid
later_valid s u a v h = ground (arith, v, h)

update_finds :
    {A : Type 0} (q : A → Bool) (y : A) (xs : List A)
    → q y ≡ true
    → exists q xs ≡ true
    → find q (update q (λ x. y) xs) ≡ some y
unfolding find update
update_finds q y [] c h = absurd (ground (arith, h))
update_finds q y (x ∷ xs) c h = elim (Bool-cases (q x)) [
  | inl w ↦ rw w (rw c refl)
  | inr n ↦ rw n (rw n (update_finds q y xs c (rw n at h)))
]

exists_none : {A : Type 0} (q : A → Bool) (xs : List A) → exists q xs ≡ false → find q xs ≡ none
unfolding find
exists_none q [] h = refl
exists_none q (x ∷ xs) h = elim (Bool-cases (q x)) [
  | inl w ↦ absurd (ground (arith, w, h))
  | inr n ↦ rw n (exists_none q xs (rw n at h))
]

-- What makes a row readable.
load_found :
    (key : StateKey) (rows : List NotificationRow) (r : NotificationRow)
    → key_valid key ≡ true
    → find (has_row_key key) rows ≡ some r
    → (not (ltb epoch r.updated_at)
        || before_epoch r.last_attempt_at
        || not (state_valid (read_row r)))
      ≡ false
    → load_state true key rows ≡ Result.ok (read_row r, true)
unfolding load_state
load_found key rows r k h c = rw k (rw h (rw c refl))

key_of : (s : PersistentState) → state_valid s ≡ true → key_valid s.key ≡ true
unfolding state_valid
key_of s v = ground (arith, v)

times_of :
    (r : NotificationRow)
    → table_allows r ≡ true
    → (ltb epoch r.updated_at ≡ true) × (before_epoch r.last_attempt_at ≡ false)
unfolding table_allows
times_of r h = (ground (arith, h), ground (arith, h))

load_saved :
    (s : PersistentState) (rows : List NotificationRow)
    → state_valid s ≡ true
    → table_allows (row_of s) ≡ true
    → find (has_row_key s.key) rows ≡ some (row_of s)
    → load_state true s.key rows ≡ Result.ok (in_seconds s, true)
load_saved s rows v a h =
    let (updated, attempt) = times_of (row_of s) a in
    let valid = later_valid s (unix s.updated_at) (whole_seconds s.last_attempt) v updated in
    let read : state_valid (read_row (row_of s)) ≡ true =
      ap state_valid (read_row-row_of s) ∙ valid in
    load_found s.key rows (row_of s) (key_of s v) h (ground (arith, updated, attempt, read))
    ∙ ap (λ z. Result.ok (z, true)) (read_row-row_of s)

own_key : (k : StateKey) → key_eq k k ≡ true
own_key k = ground (arith, text_eq_refl k.feed)

first_holds : (a b : Bool) → (not a || b) ≡ false → a ≡ true
first_holds a b h = ground (arith, h)

last_holds : (a b : Bool) → (a || not b) ≡ false → b ≡ true
last_holds a b h = ground (arith, h)

-- Where saving the state of a notification succeeds, loading its key gives that state, with its times
-- cut to whole seconds, and says that it was there.
pub load_state-save_state :
    (works : Bool) (s : PersistentState) (rows : List NotificationRow)
    → is_ok (save_state works s rows).0 ≡ true
    → load_state true s.key (save_state works s rows).1 ≡ Result.ok (in_seconds s, true)
unfolding save_state
load_state-save_state works s rows =
    by_test Loads (not (state_valid s) || s.updated_at == 0) _ _ (λ _ n. absurd (ground (arith, n)))
      (λ v.
        by_test Loads (not works || not (table_allows (row_of s))) _ _
          (λ _ n. absurd (ground (arith, n)))
          (λ a.
            by_test Loads (exists (has_row_key s.key) rows) _ _
              (λ y _.
                load_saved s _ (first_holds (state_valid s) (s.updated_at == 0) v)
                  (last_holds (not works) (table_allows (row_of s)) a)
                  (update_finds (has_row_key s.key) (row_of s) rows (own_key s.key) y))
              (λ n _.
                load_saved s _ (first_holds (state_valid s) (s.updated_at == 0) v)
                  (last_holds (not works) (table_allows (row_of s)) a)
                  (find_last (has_row_key s.key) rows (row_of s)
                    (exists_none (has_row_key s.key) rows n) (own_key s.key)))))
  where
    Loads : Result (Unit {0}) × List NotificationRow → Type 0
    Loads x = is_ok x.0 ≡ true → load_state true s.key x.1 ≡ Result.ok (in_seconds s, true)
