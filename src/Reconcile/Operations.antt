-- ===== src/Reconcile/Operations.antt =====
-- internal/reconcile/reconcile.go: expiring, creating, finishing and recovering. Every call that takes
-- a time is passed the run's one reading of the clock.
use crowdshield.Prelude.{
  leb, length, ◌+◌, [], ◌||◌, bytes, Text, if◌then◌else◌, text_eq, none, some, ℕ, not, ◌∷◌, Bool,
  List, Option,
}
use crowdshield.Prelude.Int.{eq_ℤ, ℤ}
use crowdshield.Lapi.Models.{CreateRequest, Alert, DecisionInput, Decision}
use crowdshield.State.Records.{
  scope_text, is_verified, VerifiedAlert, OperationStatus, EnforcementRecord, OperationItem,
  Operation, DecisionRecord,
}
use crowdshield.Reconcile.World.{
  count_request, Call, Result, ErrorCategory, Reply, Environment, Run, expect, ◌>>=◌, ask, ◌>>◌,
  fail, done, tell,
}
use crowdshield.Reconcile.Alerts.{
  object_value, decision_expiry, record_by_id, verified_alert, Reconciler, Std,
}

-- The loop that looks for the decision: none if there is no match or a second one.
unfoldable pub matched_decision : ℤ → Option Decision → List Decision → Option Decision
matched_decision id matched [] = matched
matched_decision id matched (d ∷ ds) =
    let skip = matched_decision id matched ds in
    let found = matched_decision id (some d) ds in
    if not (eq_ℤ d.id id) then skip else elim matched [ none ↦ found | some _ ↦ none ]

-- What the checks before `ExpireDecision` refuse.
abbrev pub decision_differs : DecisionRecord → Decision → Bool
decision_differs d m =
    not (text_eq m.origin (bytes "crowdshield"))
    || not (text_eq m.kind (bytes "ban"))
    || not (text_eq m.scenario d.scenario)
    || not (text_eq m.scope (scope_text d.scope))
    || not (text_eq m.value d.value)

-- The first decision with the row id.
unfoldable pub decision_by_row : ℤ → List DecisionRecord → Option DecisionRecord
decision_by_row id [] = none
decision_by_row id (d ∷ ds) =
    let rest = decision_by_row id ds in if eq_ℤ d.id id then some d else rest

module _ (std : Std) (env : Environment) (r : Reconciler) (now : ℕ) where
  abbrev pub mark_expired : ℤ → Run (Unit {0})
  mark_expired id =
      ask (λ h. env.mark_decision_expired h id) (Call.mark_decision_expired id)
      >>= expect ErrorCategory.state

  -- After the answer of `ExpireDecision`.
  unfoldable pub after_expire : DecisionRecord → Reply (Unit {0}) → Run (Unit {0})
  after_expire d Reply.failed = fail ErrorCategory.lapi
  after_expire d Reply.not_found = mark_expired d.id
  after_expire d (Reply.ok _) = mark_expired d.id

  unfoldable pub expire_live : DecisionRecord → Run (Unit {0})
  unfolding after_expire
  expire_live d =
      ask (λ h. env.expire_decision h d.decision_id) (Call.expire_decision d.decision_id)
      >>= λ reply. count_request >> after_expire d reply

  unfoldable pub expire_matched : DecisionRecord → Option Decision → Run (Unit {0})
  unfolding decision_expiry expire_live
  expire_matched d none = fail ErrorCategory.ownership
  expire_matched d (some m) =
      if decision_differs d m
      then fail ErrorCategory.ownership
      else elim (decision_expiry std m now r.duration) [
        | none ↦ fail ErrorCategory.ownership
        | some expiry ↦ if leb expiry now then mark_expired d.id else expire_live d
      ]

  -- After the answer of `GetAlert`.
  unfoldable pub expire_read : DecisionRecord → Reply Alert → Run (Unit {0})
  unfolding expire_matched matched_decision
  expire_read d Reply.not_found = mark_expired d.id
  expire_read d Reply.failed = fail ErrorCategory.lapi
  expire_read d (Reply.ok remote) =
      if not (eq_ℤ remote.id d.alert_id)
        || not (text_eq remote.machine_id r.machine_id)
        || not (text_eq remote.scenario d.scenario)
      then fail ErrorCategory.ownership
      else expire_matched d (matched_decision d.decision_id none remote.decisions)

  unfoldable pub expire_owned : DecisionRecord → Run (Unit {0})
  unfolding expire_read
  expire_owned d = ask (λ h. env.get_alert h d.alert_id) (Call.get_alert d.alert_id) >>= λ reply.
      count_request >> expire_read d reply

  abbrev pub expire_if_live : Option DecisionRecord → Run (Unit {0})
  expire_if_live none = done
  expire_if_live (some d) = expire_owned d

  -- One round of the loop of `finishVerified`.
  unfoldable pub expire_old : Option ℤ → Run (Unit {0})
  unfolding expire_owned decision_by_row
  expire_old none = done
  expire_old (some id) = ask env.list_live_decisions Call.list_live_decisions >>= λ reply.
      expect ErrorCategory.state reply >>= λ live. expire_if_live (decision_by_row id live)

  unfoldable pub expire_olds : List OperationItem → Run (Unit {0})
  unfolding expire_old
  expire_olds [] = done
  expire_olds (i ∷ items) = expire_old i.old_decision_row_id >> expire_olds items

  unfoldable pub finish_verified : Operation → Run (Unit {0})
  unfolding expire_olds
  finish_verified op =
      expire_olds op.items
      >> (ask (λ h. env.complete_operation h op.token) (Call.complete_operation op.token)
          >>= expect ErrorCategory.state)

  abbrev pub set_status : Operation → OperationStatus → Text → Run (Reply (Unit {0}))
  set_status op status category =
      ask (λ h. env.set_operation_status h op.token status category)
        (Call.set_operation_status op.token status category)

  -- An error after the operation has been marked ambiguous, whether or not that has worked.
  abbrev pub ambiguous : {A : Type 0} → Operation → Text → ErrorCategory → Run A
  ambiguous op category c = set_status op OperationStatus.ambiguous category >>= λ _. fail c

  -- The decisions to create: none if an item's object is unknown or no longer desired.
  unfoldable pub create_inputs :
      List EnforcementRecord → List OperationItem → Option (List DecisionInput)
  unfolding record_by_id
  create_inputs records [] = some []
  create_inputs records (i ∷ items) = elim (record_by_id i.object_id records) [
    | none ↦ none
    | some e ↦ if not e.desired then none else elim (create_inputs records items) [
      | none ↦ none
      | some rest ↦ some (record { scope = scope_text e.scope; value = object_value std e } ∷ rest)
    ]
  ]

  abbrev pub record_verified : Operation → VerifiedAlert → Run (Unit {0})
  record_verified op v =
      ask (λ h. env.record_verified_operation h op.token v)
        (Call.record_verified_operation op.token v)
      >>= expect ErrorCategory.state

  -- `RecordVerifiedOperation`, then `finishVerified`.
  unfoldable pub record_and_finish : Operation → VerifiedAlert → Run (Unit {0})
  unfolding finish_verified
  record_and_finish op v = record_verified op v >> finish_verified op

  -- After the alert that was created has been read again.
  unfoldable pub verify_created : Operation → List EnforcementRecord → Reply Alert → Run (Unit {0})
  unfolding verified_alert record_and_finish
  verify_created op records Reply.not_found = ambiguous op (bytes "lapi_verify") ErrorCategory.lapi
  verify_created op records Reply.failed = ambiguous op (bytes "lapi_verify") ErrorCategory.lapi
  verify_created op records (Reply.ok remote) = elim (verified_alert std r op remote records now) [
    | Result.err c ↦ ambiguous op (bytes "ownership") c
    | Result.ok v ↦ record_and_finish op v
  ]

  unfoldable pub after_create : Operation → List EnforcementRecord → Reply ℤ → Run (Unit {0})
  unfolding verify_created
  after_create op records Reply.not_found = ambiguous op (bytes "lapi_create") ErrorCategory.lapi
  after_create op records Reply.failed = ambiguous op (bytes "lapi_create") ErrorCategory.lapi
  after_create op records (Reply.ok alert_id) =
      ask (λ h. env.get_alert h alert_id) (Call.get_alert alert_id) >>= λ reply.
      count_request >> verify_created op records reply

  abbrev pub request_of : Operation → List DecisionInput → CreateRequest
  request_of op decisions = record {
    feed_name = op.feed_name;
    operation_token = op.token;
    duration = op.duration;
    decisions = decisions;
  }

  unfoldable pub create_for_operation : Operation → List EnforcementRecord → Run (Unit {0})
  unfolding create_inputs after_create
  create_for_operation op records = elim (create_inputs records op.items) [
    | none ↦
        set_status op OperationStatus.failed (bytes "no_longer_desired")
        >>= expect ErrorCategory.state
    | some decisions ↦
        ask (λ h. env.create_alert h (request_of op decisions))
          (Call.create_alert (request_of op decisions))
        >>= λ reply. count_request >> after_create op records reply
  ]

  -- After the answer of `FindOperation`.
  unfoldable pub recover_found :
      Operation → List EnforcementRecord → Reply (Option Alert) → Run (Unit {0})
  unfolding verified_alert record_and_finish create_for_operation
  recover_found op records Reply.not_found = fail ErrorCategory.lapi
  recover_found op records Reply.failed = fail ErrorCategory.lapi
  recover_found op records (Reply.ok none) = create_for_operation op records
  recover_found op records (Reply.ok (some remote)) =
      elim (verified_alert std r op remote records now) [
        | Result.err c ↦ fail c
        | Result.ok v ↦ record_and_finish op v
      ]

  -- One round of the loop of `recover`, up to the counter.
  unfoldable pub recover_one : Operation → List EnforcementRecord → Run (Unit {0})
  unfolding finish_verified recover_found
  recover_one op records =
      if is_verified op.status
      then finish_verified op
      else ask (λ h. env.find_operation h op.feed_name op.token)
          (Call.find_operation op.feed_name op.token)
        >>= λ reply. count_request >> recover_found op records reply

  abbrev pub count_recovered : Operation → Run (Unit {0})
  count_recovered op =
      tell (λ report. record report { recovered = report.recovered + length op.items })

  unfoldable pub recover_all : List EnforcementRecord → List Operation → Run (Unit {0})
  unfolding recover_one
  recover_all records [] = done
  recover_all records (op ∷ ops) =
      recover_one op records >> (count_recovered op >> recover_all records ops)

  unfoldable pub recover_open : List EnforcementRecord → Run (Unit {0})
  unfolding recover_all
  recover_open records = ask env.open_operations Call.open_operations >>= λ reply.
      expect ErrorCategory.state reply >>= λ ops. recover_all records ops
