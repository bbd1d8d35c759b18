-- ===== src/Reconcile/Ordering.antt =====
-- A whole run keeps the order of the calls.
use crowdshield.Prelude.{
  inr, inl, Bool-cases, suc, ◌==◌, text_eq_refl, length, refl, leb, not, [], if◌then◌else◌, true,
  ◌∙◌, Option, List, ◌≡◌, Text, ◌∷◌, ℕ, none, some,
}
use crowdshield.Prelude.Int.{ℤ}
use crowdshield.State.Records.{Operation, EnforcementRecord, DecisionRecord}
use crowdshield.Reconcile.World.{
  pure, ◌>>=◌, fail, expect, ◌>>◌, continue, Call, ErrorCategory, Reply, Environment, Run, World,
  Report, History,
}
use crowdshield.Reconcile.Alerts.{object_value, Std, Reconciler}
use crowdshield.Reconcile.Operations.{mark_expired, create_for_operation}
use crowdshield.Reconcile.Plan.{primary_feed, active_decision, is_outdated, PlannedAction, GroupKey}
use crowdshield.Reconcile.Planning.{Planned, plan_records, plan_record, still_active, plan_desired}
use crowdshield.Reconcile.Execute.{operation_of, begin, start_batch}
use crowdshield.Reconcile.Discipline.{continue-keeps, if-keeps, may_begin}
use crowdshield.Reconcile.Expiring.{mark_expired-Kept, noted, Kept}
use crowdshield.Reconcile.Creating.{create_for_operation-Kept}

-- The counters other than that of the requests are free.
abbrev recounted : Report → World → World
recounted report s = record s { report = report }

module _ (std : Std) (env : Environment) (r : Reconciler) (now : ℕ) where
  abbrev pub Any : History → Type 0
  Any h = Unit {0}

  abbrev pub any : (c : Call) (h : History) → Any h → Any (c ∷ h)
  any c h k = tt

  abbrev pub D : World → Type 0
  D s = Kept std env r now Any any s

  pub told :
      (f : Report → Report) (s : World)
      → (f s.report).lapi_requests ≡ s.report.lapi_requests
      → D s
      → D (record s { report = f s.report })
  told f s e d = (record { orderly = d.0.orderly; counted = e ∙ d.0.counted }, tt)

  plan_desired-Kept :
      (e : EnforcementRecord) (feed : ℤ × Text) (x : Option DecisionRecord) (p : Planned)
      (s : World)
      → D s
      → D (plan_desired std env r now e feed x p s).1
  unfolding plan_desired
  plan_desired-Kept e feed none p s d = d
  plan_desired-Kept e feed (some x) p s d =
      if-keeps D (is_outdated x now r.refresh_before e.scope (object_value std e) feed.1) _ _ s
        (λ _. d) (λ _. told (λ report. record report { skipped = suc report.skipped }) s refl d)

  still_active-Kept :
      (x : Option DecisionRecord) (s : World) → D s → D (still_active std env r now x s).1
  unfolding still_active
  still_active-Kept none s d = d
  still_active-Kept (some x) s d =
      if-keeps D (leb x.expires_at now) (mark_expired std env r now x.id >> pure none)
        (pure (some x)) s
        (λ _.
          continue-keeps D D (mark_expired std env r now x.id s) (λ _. pure none) (λ q. q)
            (λ _ t q. q) (mark_expired-Kept std env r now Any any x.id s d))
        (λ _. d)

  planned-Kept :
      (active : List DecisionRecord) (e : EnforcementRecord) (x : Option (ℤ × Text)) (p : Planned)
      → (s : World) → D s
      → D
          ((elim x as (λ _. Run Planned) [
            | none ↦ fail ErrorCategory.state
            | some feed ↦ still_active std env r now (active_decision e.id active) >>= λ d.
                plan_desired std env r now e feed d p
          ])
            s).1
  planned-Kept active e none p s d = d
  planned-Kept active e (some feed) p s d =
      continue-keeps D D (still_active std env r now (active_decision e.id active) s)
        (λ x. plan_desired std env r now e feed x p) (λ q. q)
        (λ x t q. plan_desired-Kept e feed x p t q)
        (still_active-Kept (active_decision e.id active) s d)

  plan_record-Kept :
      (active : List DecisionRecord) (e : EnforcementRecord) (p : Planned) (s : World)
      → D s
      → D (plan_record std env r now active e p s).1
  unfolding plan_record
  plan_record-Kept active e p s d =
      if-keeps D (not e.desired) _ _ s (λ _. d) (λ _. planned-Kept active e (primary_feed e) p s d)

  pub plan_records-Kept :
      (active : List DecisionRecord) (es : List EnforcementRecord) (p : Planned) (s : World)
      → D s
      → D (plan_records std env r now active es p s).1
  unfolding plan_records
  plan_records-Kept active [] p s d = d
  plan_records-Kept active (e ∷ es) p s d =
      continue-keeps D D (plan_record std env r now active e p s)
        (plan_records std env r now active es) (λ q. q) (λ p t q. plan_records-Kept active es p t q)
        (plan_record-Kept active e p s d)

  -- A new operation has the token that was drawn right before.
  abbrev Drawn : Text → World → Type 0
  Drawn token s = may_begin token s.history ≡ true

  begun-Kept :
      (op : Operation) (records : List EnforcementRecord) (reply : Reply (Unit {0})) (s : World)
      → let s' = record s { history = Call.begin_operation op reply ∷ s.history } in
        D s'
        → D
            (continue
              (expect ErrorCategory.state reply s')
              (λ _. create_for_operation std env r now op records)).1
  begun-Kept op records Reply.not_found s d = d
  begun-Kept op records Reply.failed s d = d
  begun-Kept op records (Reply.ok u) s d =
      create_for_operation-Kept std env r now Any any op records _ (text_eq_refl op.token) d

  begin-Kept :
      (op : Operation) (records : List EnforcementRecord) (s : World)
      → Drawn op.token s
      → D s
      → D ((begin std env r now op >> create_for_operation std env r now op records) s).1
  begin-Kept op records s a d =
      let reply = env.begin_operation s.history op in
      begun-Kept op records reply s
        (noted std env r now Any any (Call.begin_operation op reply) s a refl d)

  -- After the answer of the token source.
  drawn-Kept :
      (key : GroupKey) (batch : List PlannedAction) (records : List EnforcementRecord)
      → (reply : Reply Text) (s : World)
      → let s' = record s { history = Call.draw_token reply ∷ s.history } in
        D s'
        → D
            (continue
              (continue (expect ErrorCategory.token reply s') (λ token.
                if length token == 32
                then pure (operation_of std env r now key batch token)
                else fail ErrorCategory.token))
              (λ op. begin std env r now op >> create_for_operation std env r now op records)).1
  drawn-Kept key batch records Reply.not_found s d = d
  drawn-Kept key batch records Reply.failed s d = d
  drawn-Kept key batch records (Reply.ok token) s d = elim (Bool-cases (length token == 32)) [
    | inl y ↦
        rw y
          (begin-Kept (operation_of std env r now key batch token) records _ (text_eq_refl token) d)
    | inr n ↦ rw n d
  ]

  pub start_batch-Kept :
      (records : List EnforcementRecord) (key : GroupKey) (batch : List PlannedAction) (s : World)
      → D s
      → D (start_batch std env r now records key batch s).1
  unfolding start_batch
  start_batch-Kept records key batch s d =
      let reply = env.draw_token s.history in
      drawn-Kept key batch records reply s
        (noted std env r now Any any (Call.draw_token reply) s refl refl d)
