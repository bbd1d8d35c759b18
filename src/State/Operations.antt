-- ===== src/State/Operations.antt =====
-- internal/state/enforcement_repository.go: beginning, completing and ending operations, and expiring
-- decisions. `works` tells whether the database does what it is asked for; where it does not, the
-- first statement fails and nothing has been written, since each call is one statement or one
-- transaction.
use crowdshield.Prelude.{
  is_empty, map, length, every, exists, [], ◌^◌, ◌||◌, ◌==◌, ◌/◌, ◌∷◌, false, true, not, ◌++◌, ◌&&◌,
  ◌*◌, if◌then◌else◌, Option, Bool, ℕ, List, Text, none, some,
}
use crowdshield.Prelude.Int.{ltb_ℤ, eq_ℤ, pos_part, ℤ, pos}
use crowdshield.State.Records.{
  is_verified, Operation, OperationItem, OperationKind, OperationStatus, DecisionStatus,
}
use crowdshield.State.Tables.{
  is_ambiguous, is_completed, is_active, is_live, is_failed, is_pending, ObjectRow, has_token, unix,
  DecisionRow, FeedRow, valid_category, Answer, valid_hash, ItemRow, find, affected, update,
  OperationRow, Tables, valid_token, ErrorCategory, Result,
}

abbrev pub is_create : OperationKind → Bool
is_create OperationKind.create = true
is_create _ = false

abbrev pub is_refresh : OperationKind → Bool
is_refresh OperationKind.refresh = true
is_refresh _ = false

abbrev pub is_none : {A : Type 0} → Option A → Bool
is_none none = true
is_none (some a) = false

-- What the loop of `validOperation` refuses of an item.
abbrev pub item_refused : OperationKind → OperationItem → Bool
item_refused kind i =
    not (ltb_ℤ (pos 0) i.object_id)
    || (is_create kind && not (is_none i.old_decision_row_id))
    || (is_refresh kind && is_none i.old_decision_row_id)

unfoldable pub valid_items : OperationKind → List ℤ → List OperationItem → Bool
valid_items kind seen [] = true
valid_items kind seen (i ∷ items) =
    not (item_refused kind i)
    && not (exists (eq_ℤ i.object_id) seen)
    && valid_items kind (i.object_id ∷ seen) items

abbrev pub seven_days : ℕ
seven_days = 7 * 24 * 3600 * 10 ^ 9

unfoldable pub valid_operation : Operation → Bool
unfolding valid_items valid_token valid_hash
valid_operation op =
    if not (valid_token op.token)
      || not (ltb_ℤ (pos 0) op.feed_id)
      || ltb_ℤ op.duration (pos (10 ^ 9))
      || ltb_ℤ (pos seven_days) op.duration
      || not (valid_hash op.payload_hash)
      || length op.items == 0
      || op.started_at == 0
    then false
    else valid_items op.kind [] op.items

abbrev pub is_feed : ℤ → FeedRow → Bool
is_feed id f = eq_ℤ f.id id

abbrev pub is_object : ℤ → ObjectRow → Bool
is_object id o = eq_ℤ o.id id

abbrev pub is_decision : ℤ → DecisionRow → Bool
is_decision id d = eq_ℤ d.id id

abbrev pub has_primary : ℤ → Option ObjectRow → Bool
has_primary feed none = false
has_primary feed (some o) = elim o.primary_feed_id [ none ↦ false | some id ↦ eq_ℤ id feed ]

abbrev pub is_replaceable : ℤ → Option DecisionRow → Bool
is_replaceable object none = false
is_replaceable object (some d) = eq_ℤ d.object_id object && is_active d.status

abbrev pub old_fits : Tables → OperationItem → Option ℤ → Bool
old_fits t i none = true
old_fits t i (some id) = is_replaceable i.object_id (find (is_decision id) t.decisions)

-- The checks of one item in `BeginOperation`.
unfoldable pub item_fits : Tables → ℤ → OperationItem → Bool
unfolding find
item_fits t feed i =
    has_primary feed (find (is_object i.object_id) t.objects) && old_fits t i i.old_decision_row_id

abbrev pub operation_row : Operation → OperationRow
operation_row op = record {
  token = op.token;
  kind = op.kind;
  feed_id = op.feed_id;
  duration_seconds = pos_part op.duration / 10 ^ 9;
  payload_hash = op.payload_hash;
  status = OperationStatus.pending;
  started_at = unix op.started_at;
  completed_at = none;
  error_category = [];
}

abbrev pub item_row : Text → OperationItem → ItemRow
item_row token i = record {
  operation_token = token;
  object_id = i.object_id;
  old_decision_row_id = i.old_decision_row_id;
}

abbrev pub inserted : Operation → Tables → Tables
inserted op t = record t {
  operations = t.operations ++ operation_row op ∷ [];
  items = t.items ++ map (item_row op.token) op.items;
}

unfoldable pub begin_operation : Bool → Operation → Tables → Answer (Unit {0})
unfolding valid_operation affected item_fits
begin_operation works op t =
    if not (valid_operation op)
    then (Result.err ErrorCategory.constraint, t)
    else if not works
    then (Result.err ErrorCategory.transaction, t)
    else if not (affected (is_feed op.feed_id) t.feeds == 1)
        || not (every (item_fits t op.feed_id) op.items)
    then (Result.err ErrorCategory.constraint, t)
    -- the token is the primary key
    else if exists (has_token op.token) t.operations
    then (Result.err ErrorCategory.query, t)
    else (Result.ok tt, inserted op t)

abbrev pub can_complete : Text → OperationRow → Bool
can_complete token o = has_token token o && (is_verified o.status || is_completed o.status)

abbrev pub completed_row : ℕ → OperationRow → OperationRow
completed_row now o = record o {
  status = OperationStatus.completed;
  completed_at = some (unix now);
}

-- `if changed != 1 { return stateError(ErrConstraint, nil) }`, after the statement.
abbrev pub one_changed : ℕ → Tables → Answer (Unit {0})
one_changed n t = (if n == 1 then Result.ok tt else Result.err ErrorCategory.constraint, t)

unfoldable pub complete_operation : Bool → Text → ℕ → Tables → Answer (Unit {0})
unfolding valid_token update affected
complete_operation works token now t =
    if not (valid_token token) || now == 0
    then (Result.err ErrorCategory.constraint, t)
    else if not works
    then (Result.err ErrorCategory.query, t)
    else one_changed (affected (can_complete token) t.operations)
        (record t { operations = update (can_complete token) (completed_row now) t.operations })

abbrev pub can_end : Text → OperationRow → Bool
can_end token o = has_token token o && (is_pending o.status || is_ambiguous o.status)

abbrev pub ended_row : OperationStatus → Text → ℕ → OperationRow → OperationRow
ended_row status category now o = record o {
  status = status;
  completed_at = if is_failed status then some (unix now) else none;
  error_category = category;
}

unfoldable pub set_operation_status :
    Bool → Text → OperationStatus → Text → ℕ → Tables → Answer (Unit {0})
unfolding valid_token valid_category update affected
set_operation_status works token status category now t =
    if not (valid_token token)
      || now == 0
      || not (is_ambiguous status || is_failed status)
      || (not (is_empty category) && not (valid_category category))
    then (Result.err ErrorCategory.constraint, t)
    else if not works
    then (Result.err ErrorCategory.query, t)
    else one_changed (affected (can_end token) t.operations) (record t {
      operations = update (can_end token) (ended_row status category now) t.operations;
    })

abbrev pub can_expire : ℤ → DecisionRow → Bool
can_expire id d = is_decision id d && is_live d.status

abbrev pub expired_row : ℕ → DecisionRow → DecisionRow
expired_row now d = record d { status = DecisionStatus.expired; verified_at = unix now }

unfoldable pub mark_decision_expired : Bool → ℤ → ℕ → Tables → Answer (Unit {0})
unfolding update affected
mark_decision_expired works id now t =
    if not (ltb_ℤ (pos 0) id) || now == 0
    then (Result.err ErrorCategory.constraint, t)
    else if not works
    then (Result.err ErrorCategory.query, t)
    else one_changed (affected (can_expire id) t.decisions)
        (record t { decisions = update (can_expire id) (expired_row now) t.decisions })
