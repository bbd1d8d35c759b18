-- ===== src/Reconcile/Creating.antt =====
-- Creating and recovering keep the order of the calls.
use crowdshield.Prelude.{
  none, some, inr, inl, refl, text_eq_refl, Bool-cases, Option, true, bytes, arith, ◌≡◌, ◌∷◌,
  exists, List, Text, ℕ,
}
use crowdshield.Prelude.Int.{ℤ}
use crowdshield.Lapi.Models.{Alert, DecisionInput}
use crowdshield.State.Records.{EnforcementRecord, OperationStatus, VerifiedAlert, Operation}
use crowdshield.Reconcile.World.{
  ◌>>◌, count_request, ask, ◌>>=◌, expect, continue, Call, Result, ErrorCategory, Reply,
  Environment, Run, World, History,
}
use crowdshield.Reconcile.Alerts.{alert_differs, verified_alert, Std, Reconciler}
use crowdshield.Reconcile.Operations.{
  request_of, set_status, create_inputs, after_create, ambiguous, record_and_finish, verify_created,
  finish_verified, create_for_operation,
}
use crowdshield.Reconcile.Discipline.{
  expect-keeps, after_request, attests, may_create, may_record, verifies,
}
use crowdshield.Reconcile.Expiring.{Kept, noted, requested, finish_verified-Kept}

abbrev pub KnownVerified : Text → History → Type 0
KnownVerified token h = exists (verifies token) h ≡ true

-- What the check of an alert has found out.
pub verified_alert-attests :
    (std : Std) (r : Reconciler) (op : Operation) (remote : Alert)
    (records : List EnforcementRecord)
    → (now : ℕ) (v : VerifiedAlert) → verified_alert std r op remote records now ≡ Result.ok v
    → attests r.machine_id op.token remote ≡ true
unfolding verified_alert
verified_alert-attests std r op remote records now v h =
    elim (Bool-cases (alert_differs std r op remote)) [
      | inl y ↦ absurd (ground (arith, rw y at h))
      | inr n ↦ ground (arith, n)
    ]

module _ (std : Std) (env : Environment) (r : Reconciler) (now : ℕ) (K : History → Type 0)
    (grows : (c : Call) (h : History) → K h → K (c ∷ h)) where
  abbrev D : World → Type 0
  D s = Kept std env r now K grows s

  pub still_verified :
      (token : Text) (c : Call) (h : History)
      → K h × KnownVerified token h
      → K (c ∷ h) × KnownVerified token (c ∷ h)
  still_verified token c h k = (grows c h k.0, ground (arith, k.1))

  pub finish_known-Kept :
      (op : Operation) (s : World)
      → KnownVerified op.token s.history
      → D s
      → D (finish_verified std env r now op s).1
  finish_known-Kept op s k d =
      let x =
        finish_verified-Kept std env r now (λ h. K h × KnownVerified op.token h)
          (still_verified op.token) op s (λ t q. q.1) (d.0, (d.1, k)) in
      (x.0, x.1.0)

  -- After the answer of `RecordVerifiedOperation`.
  recorded-Kept :
      (op : Operation) (v : VerifiedAlert) (reply : Reply (Unit {0})) (s : World)
      → let c = Call.record_verified_operation op.token v reply in
        D (record s { history = c ∷ s.history })
        → D
            (continue
              (expect ErrorCategory.state reply (record s { history = c ∷ s.history }))
              (λ _. finish_verified std env r now op)).1
  recorded-Kept op v Reply.not_found s d = d
  recorded-Kept op v Reply.failed s d = d
  recorded-Kept op v (Reply.ok u) s d =
      let c = Call.record_verified_operation op.token v (Reply.ok u) in
      finish_known-Kept op (record s { history = c ∷ s.history })
        (ground (arith, text_eq_refl op.token)) d

  record_and_finish-Kept :
      (op : Operation) (v : VerifiedAlert) (s : World)
      → may_record r.machine_id op.token s.history ≡ true
      → D s
      → D (record_and_finish std env r now op v s).1
  unfolding record_and_finish
  record_and_finish-Kept op v s a d =
      let reply = env.record_verified_operation s.history op.token v in
      recorded-Kept op v reply s
        (noted std env r now K grows (Call.record_verified_operation op.token v reply) s a refl d)

  ambiguous-Kept :
      (op : Operation) (category : Text) (c : ErrorCategory) (s : World)
      → D s
      → D (ambiguous std env r now {A = Unit {0}} op category c s).1
  ambiguous-Kept op category c s d =
      let reply = env.set_operation_status s.history op.token OperationStatus.ambiguous category in
      noted std env r now K grows
        (Call.set_operation_status op.token OperationStatus.ambiguous category reply) s refl refl d

  -- What follows the check of an alert, by its result.
  pub checked-Kept :
      (op : Operation) (x : Result VerifiedAlert) (onerr : ErrorCategory → Run (Unit {0}))
      (s : World)
      → ((v : VerifiedAlert) → x ≡ Result.ok v → may_record r.machine_id op.token s.history ≡ true)
      → ((c : ErrorCategory) → D (onerr c s).1)
      → D s
      → D
          ((elim x as (λ _. Run (Unit {0})) [
            | Result.err c ↦ onerr c
            | Result.ok v ↦ record_and_finish std env r now op v
          ])
            s).1
  checked-Kept op (Result.err c) onerr s a e d = e c
  checked-Kept op (Result.ok v) onerr s a e d = record_and_finish-Kept op v s (a v refl) d

  verify_created-Kept :
      (op : Operation) (records : List EnforcementRecord) (id : ℤ) (reply : Reply Alert) (s : World)
      → let s' = after_request (Call.get_alert id reply) s in
        D s' → D (verify_created std env r now op records reply s').1
  unfolding verify_created
  verify_created-Kept op records id Reply.not_found s d =
      ambiguous-Kept op (bytes "lapi_verify") ErrorCategory.lapi _ d
  verify_created-Kept op records id Reply.failed s d =
      ambiguous-Kept op (bytes "lapi_verify") ErrorCategory.lapi _ d
  verify_created-Kept op records id (Reply.ok remote) s d =
      checked-Kept op (verified_alert std r op remote records now)
        (λ c. ambiguous std env r now op (bytes "ownership") c) _
        (λ v e. verified_alert-attests std r op remote records now v e)
        (λ c. ambiguous-Kept op (bytes "ownership") c _ d) d

  after_create-Kept :
      (op : Operation) (records : List EnforcementRecord) (reply : Reply ℤ) (s : World)
      → D s
      → D (after_create std env r now op records reply s).1
  unfolding after_create
  after_create-Kept op records Reply.not_found s d =
      ambiguous-Kept op (bytes "lapi_create") ErrorCategory.lapi s d
  after_create-Kept op records Reply.failed s d =
      ambiguous-Kept op (bytes "lapi_create") ErrorCategory.lapi s d
  after_create-Kept op records (Reply.ok id) s d =
      let reply = env.get_alert s.history id in
      verify_created-Kept op records id reply s
        (requested std env r now K grows (Call.get_alert id reply) s refl refl d)

  -- After the decisions to create have been listed.
  created-Kept :
      (op : Operation) (records : List EnforcementRecord) (x : Option (List DecisionInput))
      (s : World)
      → may_create op.token s.history ≡ true
      → D s
      → D
          ((elim x as (λ _. Run (Unit {0})) [
            | none ↦
                set_status std env r now op OperationStatus.failed (bytes "no_longer_desired")
                >>= expect ErrorCategory.state
            | some decisions ↦
                ask
                  (λ h. env.create_alert h (request_of std env r now op decisions))
                  (Call.create_alert (request_of std env r now op decisions))
                >>= λ reply. count_request >> after_create std env r now op records reply
          ])
            s).1
  created-Kept op records none s a d =
      let category = bytes "no_longer_desired" in
      let reply = env.set_operation_status s.history op.token OperationStatus.failed category in
      expect-keeps D ErrorCategory.state reply _ (
        noted std env r now K grows
          (Call.set_operation_status op.token OperationStatus.failed category reply) s refl refl d)
  created-Kept op records (some decisions) s a d =
      let request = request_of std env r now op decisions in
      let reply = env.create_alert s.history request in
      after_create-Kept op records reply _
        (requested std env r now K grows (Call.create_alert request reply) s a refl d)

  pub create_for_operation-Kept :
      (op : Operation) (records : List EnforcementRecord) (s : World)
      → may_create op.token s.history ≡ true
      → D s
      → D (create_for_operation std env r now op records s).1
  unfolding create_for_operation
  create_for_operation-Kept op records s a d =
      created-Kept op records (create_inputs std env r now records op.items) s a d
