-- ===== src/State/Begun.antt =====
-- What `BeginOperation` leaves when it succeeds.
use crowdshield.State.Tables.{
  valid_hash, valid_token, ItemRow, affected, Tables, Answer, Result, find, status_of, has_token,
  OperationRow,
}
use crowdshield.State.Operations.{
  valid_items, item_row, seven_days, item_fits, is_feed, begin_operation, operation_row,
  valid_operation,
}
use crowdshield.State.Records.{OperationItem, OperationStatus, Operation}
use crowdshield.Prelude.{
  length, ◌+◌, ◌*◌, map, ◌≤◌, inr, ◌^◌, ◌<◌, inl, Bool-cases, text_eq_refl, ◌||◌, ◌==◌, [], every,
  ◌++◌, refl, text_eq, ◌∷◌, some, if◌then◌else◌, arith, not, exists, none, false, true, List, ◌≡◌,
  Bool, Text,
}
use crowdshield.State.Moves.{status_of_miss}
use crowdshield.Prelude.Int.{negsuc, ℤ, pos_part, pos, ltb_ℤ}

abbrev pub is_ok : {A : Type 0} → Result A → Bool
is_ok (Result.ok a) = true
is_ok (Result.err c) = false

by_branch :
    {A : Type 0} (Q : Answer A → Type 0) (b : Bool) (x y : Answer A)
    → (b ≡ true → Q x)
    → (b ≡ false → Q y)
    → Q (if b then x else y)
by_branch Q true x y f g = f refl
by_branch Q false x y f g = g refl

status_of_absent :
    (token : Text) (ops : List OperationRow)
    → exists (has_token token) ops ≡ false
    → status_of token ops ≡ none
unfolding status_of find
status_of_absent token [] h = refl
status_of_absent token (o ∷ ops) h =
    rw (status_of_miss token o ops (ground (arith, h)))
      (status_of_absent token ops (ground (arith, h)))

find_appended :
    (token : Text) (ops : List OperationRow) (o : OperationRow)
    → exists (has_token token) ops ≡ false
    → text_eq o.token token ≡ true
    → find (has_token token) (ops ++ o ∷ []) ≡ some o
unfolding find
find_appended token [] o h e = rw e refl
find_appended token (p ∷ ops) o h e =
    let n : text_eq p.token token ≡ false = ground (arith, h) in
    rw n (find_appended token ops o (ground (arith, h)) e)

-- A row that stands for an operation that has not been carried out yet.
pub record IsPending (op : Operation) (o : OperationRow) : Type 0 where
  pub token : o.token ≡ op.token
  pub kind : o.kind ≡ op.kind
  pub feed_id : o.feed_id ≡ op.feed_id
  pub payload_hash : o.payload_hash ≡ op.payload_hash
  pub status : o.status ≡ OperationStatus.pending
  pub not_completed : o.completed_at ≡ none
  pub no_error : o.error_category ≡ []
  -- A second at least, seven days at most, and within a second of what was asked for.
  pub lasting : 0 < o.duration_seconds
  pub bounded : o.duration_seconds ≤ 7 * 24 * 3600
  pub not_longer : o.duration_seconds * 10 ^ 9 ≤ pos_part op.duration
  pub not_shorter : pos_part op.duration < (o.duration_seconds + 1) * 10 ^ 9
  pub not_later : o.started_at * 10 ^ 9 ≤ op.started_at
  pub not_earlier : op.started_at < (o.started_at + 1) * 10 ^ 9

-- The rows of items after a call: those before it, and one for each item of the operation.
abbrev pub ItemsAdded : Text → List OperationItem → List ItemRow → List ItemRow → Type 0
ItemsAdded token [] [] ys = ys ≡ []
ItemsAdded token (i ∷ is') [] [] = ⊥
ItemsAdded token (i ∷ is') [] (y ∷ ys) =
    (y.operation_token ≡ token)
    × (y.object_id ≡ i.object_id)
    × (y.old_decision_row_id ≡ i.old_decision_row_id)
    × ItemsAdded token is' [] ys
ItemsAdded token is' (x ∷ xs) [] = ⊥
ItemsAdded token is' (x ∷ xs) (y ∷ ys) = (y ≡ x) × ItemsAdded token is' xs ys

-- What is known of a begun operation.
pub record IsBegun (op : Operation) (before after : Tables) : Type 0 where
  pub row : OperationRow
  pub fresh : status_of op.token before.operations ≡ none
  pub stored : find (has_token op.token) after.operations ≡ some row
  pub pending : IsPending op row
  pub items : ItemsAdded op.token op.items before.items after.items
  pub others :
      (token : Text)
      → text_eq op.token token ≡ false
      → find (has_token token) after.operations ≡ find (has_token token) before.operations
  pub kept : after.decisions ≡ before.decisions

guards :
    (a b c d e f g x : Bool)
    → (if a || b || c || d || e || f || g then false else x) ≡ true
    → (c ≡ false) × (d ≡ false)
guards a b c d e f g x h = (ground (arith, h), ground (arith, h))

durations :
    (d : ℤ)
    → ltb_ℤ d (pos (10 ^ 9)) ≡ false
    → ltb_ℤ (pos seven_days) d ≡ false
    → (10 ^ 9 ≤ pos_part d) × (pos_part d ≤ seven_days)
durations (pos n) h k = (ground (arith, h), ground (arith, k))
durations (negsuc n) h k = absurd (ground (arith, h))

operation_row-IsPending :
    (op : Operation) → valid_operation op ≡ true → IsPending op (operation_row op)
unfolding valid_operation
operation_row-IsPending op v =
    let (long, short) =
      guards (not (valid_token op.token)) (not (ltb_ℤ (pos 0) op.feed_id))
        (ltb_ℤ op.duration (pos (10 ^ 9))) (ltb_ℤ (pos seven_days) op.duration)
        (not (valid_hash op.payload_hash)) (length op.items == 0) (op.started_at == 0)
        (valid_items op.kind [] op.items) v in
    let (least, most) = durations op.duration long short in
    record {
      token = refl;
      kind = refl;
      feed_id = refl;
      payload_hash = refl;
      status = refl;
      not_completed = refl;
      no_error = refl;
      lasting = omega (arith, least);
      bounded = omega (arith, most);
      not_longer = omega arith;
      not_shorter = omega arith;
      not_later = omega arith;
      not_earlier = omega arith;
    }

items-ItemsAdded :
    (token : Text) (is' : List OperationItem) (rows : List ItemRow)
    → ItemsAdded token is' rows (rows ++ map (item_row token) is')
items-ItemsAdded token [] [] = refl
items-ItemsAdded token (i ∷ is') [] = (refl, refl, refl, items-ItemsAdded token is' [])
items-ItemsAdded token is' (x ∷ rows) = (refl, items-ItemsAdded token is' rows)

-- Another token is found as before.
find_other :
    (token : Text) (ops : List OperationRow) (o : OperationRow)
    → text_eq o.token token ≡ false
    → find (has_token token) (ops ++ o ∷ []) ≡ find (has_token token) ops
unfolding find
find_other token [] o n = rw n refl
find_other token (p ∷ ops) o n = elim (Bool-cases (text_eq p.token token)) [
  | inl y ↦ rw y refl
  | inr z ↦ rw z (find_other token ops o n)
]

-- Where `BeginOperation` succeeds, the token was not in the table; a row with it is found now, with the
-- operation's kind, feed and hash, pending, not completed and without an error, with the start in whole
-- seconds and a duration of whole seconds, from one second to seven days, that is the operation's cut
-- to seconds; each item of the operation has been appended to the items; and no other operation and
-- no decision has changed.
pub begin_operation-IsBegun :
    (works : Bool) (op : Operation) (t : Tables)
    → is_ok (begin_operation works op t).0 ≡ true
    → IsBegun op t (begin_operation works op t).1
unfolding begin_operation
begin_operation-IsBegun works op t =
    by_branch Q (not (valid_operation op)) _ _ (λ _ e. absurd (ground (arith, e)))
      (λ v.
        by_branch Q (not works) _ _ (λ _ e. absurd (ground (arith, e)))
          (λ _.
            by_branch Q
              (not (affected (is_feed op.feed_id) t.feeds == 1)
                || not (every (item_fits t op.feed_id) op.items))
              _ _ (λ _ e. absurd (ground (arith, e)))
              (λ _.
                by_branch Q (exists (has_token op.token) t.operations) _ _
                  (λ _ e. absurd (ground (arith, e)))
                  (λ f e. record {
                    row = operation_row op;
                    fresh = status_of_absent op.token t.operations f;
                    stored =
                        find_appended op.token t.operations (operation_row op) f
                          (text_eq_refl op.token);
                    pending = operation_row-IsPending op (ground (arith, v));
                    items = items-ItemsAdded op.token op.items t.items;
                    others = λ token n. find_other token t.operations (operation_row op) n;
                    kept = refl;
                  }))))
  where
    Q : Answer (Unit {0}) → Type 0
    Q a = is_ok a.0 ≡ true → IsBegun op t a.1
