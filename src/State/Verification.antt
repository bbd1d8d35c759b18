-- ===== src/State/Verification.antt =====
-- internal/state/enforcement_repository.go: `RecordVerifiedOperation` in its steps. The
-- records that it returns are left out.
use crowdshield.Prelude.{
  ◌^◌, ◌*◌, ◌+◌, ltb, bytes, map, exists, ◌==◌, ◌||◌, suc, length, ◌&&◌, text_eq, if◌then◌else◌, [],
  false, true, leb, not, ◌++◌, Option, Bool, ◌∷◌, ℕ, List, Text, none, some,
}
use crowdshield.Prelude.Int.{ltb_ℤ, eq_ℤ, pos_part, ℤ, pos}
use crowdshield.Network.Address.{Addr, Prefix}
use crowdshield.Network.Desired.{Scope}
use crowdshield.State.Records.{
  scope_text, is_verified, OperationStatus, DecisionStatus, VerifiedAlert, VerifiedDecision,
}
use crowdshield.State.Tables.{
  is_ambiguous, is_pending, has_token, is_completed, is_active, Answer, affected, unix, Tables,
  ItemRow, filter, ObjectRow, AlertRow, DecisionRow, OperationRow, update, valid_token, find,
  ErrorCategory, Result,
}
use crowdshield.State.Operations.{is_object, is_feed, is_decision}
use crowdshield.Reconcile.Alerts.{has_control, scenario_of}
use Prim.Native.Nat.{max}

-- The `String` methods of net/netip.
pub record Printer : Type 0 where
  pub addr_string : Addr → Text
  pub prefix_string : Prefix → Text

abbrev pub expected_object_value : Printer → Scope → Prefix → Text
expected_object_value print Scope.ip p = print.addr_string p.ip
expected_object_value print Scope.range p = print.prefix_string p

unfoldable pub valid_bounded_text : Text → ℕ → ℕ → Bool
unfolding has_control
valid_bounded_text value low high =
    leb low (length value) && leb (length value) high && not (has_control value)

-- A row of the map `expected`.
pub record ExpectedItem : Type 0 where
  pub object_id : ℤ
  pub prefix : Prefix
  pub scope : Scope
  pub old : Option ℤ

-- The items of the operation, joined with their objects.
unfoldable pub expected_items : Text → List ObjectRow → List ItemRow → List ExpectedItem
unfolding find
expected_items token objects [] = []
expected_items token objects (i ∷ items) =
    let rest = expected_items token objects items in
    if not (text_eq i.operation_token token)
    then rest
    else elim (find (is_object i.object_id) objects) [
      | none ↦ rest
      | some o ↦
          record {
            object_id = i.object_id;
            prefix = o.prefix;
            scope = o.scope;
            old = i.old_decision_row_id;
          }
          ∷ rest
    ]

abbrev pub is_item : ℤ → ExpectedItem → Bool
is_item id i = eq_ℤ i.object_id id

-- The next row id of a table whose key SQLite chooses.
unfoldable pub highest : List ℤ → ℕ
highest [] = 0
highest (id ∷ ids) = max (pos_part id) (highest ids)

module _ (print : Printer) (now : ℕ) where
  -- What the loop refuses of a decision, for the item of its object.
  abbrev pub decision_refused : Text → ℕ → VerifiedDecision → ExpectedItem → Bool
  decision_refused scenario duration_seconds d i =
      not (ltb_ℤ (pos 0) d.decision_id)
      || not (text_eq d.origin (bytes "crowdshield"))
      || not (text_eq d.scenario scenario)
      || not (text_eq d.scope (scope_text i.scope))
      || not (text_eq d.value (expected_object_value print i.scope i.prefix))
      || leb d.expires_at now
      || ltb (now + duration_seconds * 10 ^ 9 + 600 * 10 ^ 9) d.expires_at

  -- The loop over `alert.Decisions`.
  unfoldable pub decisions_fit :
      List ExpectedItem → Text → ℕ → List ℤ → List ℤ → List VerifiedDecision → Bool
  unfolding find
  decisions_fit expected scenario duration objects seen [] = true
  decisions_fit expected scenario duration objects seen (d ∷ ds) =
      let rest =
        decisions_fit expected scenario duration (d.object_id ∷ objects) (d.decision_id ∷ seen)
          ds in
      elim (find (is_item d.object_id) expected) [
        | none ↦ false
        | some i ↦
            not (decision_refused scenario duration d i)
            && not (exists (eq_ℤ d.object_id) objects)
            && not (exists (eq_ℤ d.decision_id) seen)
            && rest
      ]

  abbrev pub decision_row : ℤ → VerifiedDecision → ℤ → DecisionRow
  decision_row alert d id = record {
    id = id;
    object_id = d.object_id;
    alert_row_id = alert;
    decision_id = d.decision_id;
    origin = d.origin;
    scenario = d.scenario;
    scope = d.scope;
    value = d.value;
    created_at = unix now;
    expires_at = unix d.expires_at;
    verified_at = unix now;
    status = DecisionStatus.active;
    replaced_by_id = none;
  }

  abbrev pub row_id : DecisionRow → ℤ
  row_id d = d.id

  -- The loop of insertions; none where a decision's id is taken.
  unfoldable pub insert_decisions :
      ℤ → List VerifiedDecision → List DecisionRow → Option (List DecisionRow)
  unfolding highest
  insert_decisions alert [] rows = some rows
  insert_decisions alert (d ∷ ds) rows =
      let rest =
        insert_decisions alert ds
          (rows ++ decision_row alert d (pos (suc (highest (map row_id rows)))) ∷ []) in
      if exists (λ (r : DecisionRow). eq_ℤ r.decision_id d.decision_id) rows then none else rest

  abbrev pub can_replace : ℤ → ℤ → DecisionRow → Bool
  can_replace id object d = is_decision id d && eq_ℤ d.object_id object && is_active d.status

  abbrev pub replaced_row : Option ℤ → DecisionRow → DecisionRow
  replaced_row by d = record d { status = DecisionStatus.expiring; replaced_by_id = by }

  -- `newRows[objectID]`: the row that was inserted for the object under the alert.
  abbrev pub new_row : ℤ → ℤ → List DecisionRow → Option ℤ
  new_row alert object rows =
      elim (find (λ (r : DecisionRow). eq_ℤ r.alert_row_id alert && eq_ℤ r.object_id object) rows) [
        | none ↦ none
        | some r ↦ some r.id
      ]

  -- The loop that marks the replaced decisions; none where one is no longer active.
  unfoldable pub replace_old : ℤ → List ExpectedItem → List DecisionRow → Option (List DecisionRow)
  unfolding update affected find
  replace_old alert [] rows = some rows
  replace_old alert (i ∷ is') rows = elim i.old [
    | none ↦ replace_old alert is' rows
    | some id ↦
        let rest = replace_old alert is' (
          update (can_replace id i.object_id) (replaced_row (new_row alert i.object_id rows))
            rows) in
        if affected (can_replace id i.object_id) rows == 1 then rest else none
  ]

  abbrev pub alert_row : ℤ → Text → VerifiedAlert → AlertRow
  alert_row id token a = record {
    id = id;
    alert_id = a.alert_id;
    operation_token = token;
    machine_id = a.machine_id;
    origin = a.origin;
    scenario = a.scenario;
    verified_at = unix now;
    created_at = unix now;
  }

  abbrev pub alert_key : AlertRow → ℤ
  alert_key a = a.id

  abbrev pub verified_row : OperationRow → OperationRow
  verified_row o = record o { status = OperationStatus.verified }

  abbrev pub same_alert : Text → VerifiedAlert → AlertRow → Bool
  same_alert token a r = eq_ℤ r.alert_id a.alert_id || text_eq r.operation_token token

  -- The statements that write: the alert, its decisions, the replaced ones, and the status.
  unfoldable pub write_verified :
      Text → VerifiedAlert → List ExpectedItem → Tables → Answer (Unit {0})
  unfolding insert_decisions replace_old update highest
  write_verified token a expected t =
      if exists (same_alert token a) t.alerts
      then (Result.err ErrorCategory.query, t)
      else (let id = pos (suc (highest (map alert_key t.alerts))) in
          elim (insert_decisions id a.decisions t.decisions) [
            | none ↦ (Result.err ErrorCategory.query, t)
            | some rows ↦ elim (replace_old id expected rows) [
              | none ↦ (Result.err ErrorCategory.constraint, t)
              | some rows' ↦ (
                Result.ok tt,
                record t {
                  alerts = t.alerts ++ alert_row id token a ∷ [];
                  decisions = rows';
                  operations = update (has_token token) verified_row t.operations;
                },
              )
            ]
          ])

  -- For an operation that waits to be verified, of a feed with a name.
  unfoldable pub verify_open :
      Text → VerifiedAlert → OperationRow → Text → Tables → Answer (Unit {0})
  unfolding expected_items decisions_fit write_verified
  verify_open token a o feed_name t =
      let expected = expected_items token t.objects t.items in
      if not (text_eq a.scenario (scenario_of feed_name))
        || length a.decisions == 0
        || not (length expected == length a.decisions)
        || not (decisions_fit expected (scenario_of feed_name) o.duration_seconds [] [] a.decisions)
      then (Result.err ErrorCategory.constraint, t)
      else write_verified token a expected t

  -- The decisions of the operation's alert.
  unfoldable pub operation_decisions : Text → Tables → List DecisionRow
  unfolding find filter
  operation_decisions token t =
      elim (find (λ (a : AlertRow). text_eq a.operation_token token) t.alerts) [
        | none ↦ []
        | some a ↦ filter (λ (d : DecisionRow). eq_ℤ d.alert_row_id a.id) t.decisions
      ]

  -- By the status of the operation.
  unfoldable pub verify_row :
      Text → VerifiedAlert → OperationRow → Text → Tables → Answer (Unit {0})
  unfolding operation_decisions verify_open
  verify_row token a o feed_name t =
      if is_verified o.status || is_completed o.status
      then (
        if length (operation_decisions token t) == 0
            then Result.err ErrorCategory.integrity
            else Result.ok tt,
        t,
      )
      else if not (is_pending o.status || is_ambiguous o.status)
      then (Result.err ErrorCategory.constraint, t)
      else verify_open token a o feed_name t

  -- The operation, joined with its feed.
  unfoldable pub verify_found :
      Text → VerifiedAlert → Option OperationRow → Tables → Answer (Unit {0})
  unfolding find verify_row
  verify_found token a none t = (Result.err ErrorCategory.not_found, t)
  verify_found token a (some o) t = elim (find (is_feed o.feed_id) t.feeds) [
    | none ↦ (Result.err ErrorCategory.not_found, t)
    | some f ↦ verify_row token a o f.name t
  ]

  unfoldable pub record_verified_operation :
      Bool → Text → VerifiedAlert → Tables → Answer (Unit {0})
  unfolding valid_token valid_bounded_text find verify_found
  record_verified_operation works token a t =
      if not (valid_token token)
        || now == 0
        || not (ltb_ℤ (pos 0) a.alert_id)
        || not (text_eq a.origin (bytes "crowdshield"))
        || not (valid_bounded_text a.machine_id 1 128)
      then (Result.err ErrorCategory.constraint, t)
      else if not works
      then (Result.err ErrorCategory.transaction, t)
      else verify_found token a (find (has_token token) t.operations) t
