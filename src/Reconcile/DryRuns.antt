-- ===== src/Reconcile/DryRuns.antt =====
-- What a dry run keeps.
use crowdshield.Prelude.{
  suc, ◌||◌, refl, [], not, is_empty, ◌+◌, Option, List, ◌∷◌, false, ◌≡◌, true, Bool, ℕ, none, some,
}
use crowdshield.Prelude.Int.{ℤ}
use crowdshield.Network.Desired.{Object}
use crowdshield.State.Records.{EnforcementRecord, DecisionRecord}
use crowdshield.Reconcile.World.{
  fail, done, ◌>>=◌, ◌>>◌, expect, Call, ErrorCategory, Environment, Run, World, Report,
}
use crowdshield.Reconcile.Alerts.{value_of, Std, Reconciler}
use crowdshield.Reconcile.Plan.{one_per_object, is_outdated, active_decision}
use crowdshield.Reconcile.DryRun.{
  count_refreshed, undesired, record_by_prefix, count_removed, count_skipped, count_added, unique,
  dry_known, dry_run, dry_objects,
}
use crowdshield.Reconcile.Discipline.{expect-keeps, if-keeps, continue-keeps, is_request, allowed}

-- The calls that only read the store.
abbrev pub is_listing : Call → Bool
is_listing (Call.list_active_entries reply) = true
is_listing (Call.list_enforcement_objects reply) = true
is_listing (Call.list_active_decisions reply) = true
is_listing _ = false

-- Anything that such calls and the counters keep.
module _ (std : Std) (env : Environment) (r : Reconciler) (now : ℕ) (P : World → Type 0)
    (reads : (c : Call) (s : World)
      → is_listing c ≡ true
      → allowed r.machine_id c s.history ≡ true
      → is_request c ≡ false
      → P s
      → P (record s { history = c ∷ s.history }))
    (counts : (f : Report → Report) (s : World)
      → (f s.report).lapi_requests ≡ s.report.lapi_requests
      → P s
      → P (record s { report = f s.report })) where
  dry_known-keeps :
      (o : Object) (x : Option DecisionRecord) (s : World)
      → P s
      → P (dry_known std env r now o x s).1
  unfolding dry_known
  dry_known-keeps o none s p =
      counts (λ report. record report { added = report.added + 1 }) s refl p
  dry_known-keeps o (some d) s p =
      if-keeps P
        (is_empty o.primary.feed_name
          || is_outdated d now r.refresh_before o.scope (value_of std o.scope o.prefix)
              o.primary.feed_name)
        (count_refreshed 1) count_skipped s
        (λ _. counts (λ report. record report { refreshed = report.refreshed + 1 }) s refl p)
        (λ _. counts (λ report. record report { skipped = suc report.skipped }) s refl p)

  dry_object-keeps :
      (existing : List EnforcementRecord) (active : List DecisionRecord) (o : Object)
      (os : List Object)
      → (ids : List ℤ) (x : Option EnforcementRecord) (s : World)
      → ((ids : List ℤ) (t : World)
          → P t
          → P (dry_objects std env r now existing active os ids t).1)
      → P s
      → P
          ((elim x as (λ _. Run (List ℤ)) [
            | none ↦ count_added 1 >> dry_objects std env r now existing active os ids
            | some e ↦
                dry_known std env r now o (active_decision e.id active)
                >> dry_objects std env r now existing active os (e.id ∷ ids)
          ])
            s).1
  dry_object-keeps existing active o os ids none s ih p =
      ih ids _ (counts (λ report. record report { added = report.added + 1 }) s refl p)
  dry_object-keeps existing active o os ids (some e) s ih p =
      continue-keeps P P (dry_known std env r now o (active_decision e.id active) s) _ (λ q. q)
        (λ _ t q. ih (e.id ∷ ids) t q) (dry_known-keeps o (active_decision e.id active) s p)

  dry_objects-keeps :
      (existing : List EnforcementRecord) (active : List DecisionRecord) (os : List Object)
      → (ids : List ℤ) (s : World) → P s
      → P (dry_objects std env r now existing active os ids s).1
  unfolding dry_objects
  dry_objects-keeps existing active [] ids s p = p
  dry_objects-keeps existing active (o ∷ os) ids s p =
      let rest : (ids : List ℤ) (t : World)
          → P t
          → P (dry_objects std env r now existing active os ids t).1 =
        λ ids t q. dry_objects-keeps existing active os ids t q in
      if-keeps P (not o.desired) (count_skipped >> dry_objects std env r now existing active os ids)
        _ s
        (λ _.
          rest ids _ (counts (λ report. record report { skipped = suc report.skipped }) s refl p))
        (λ _.
          dry_object-keeps existing active o os ids (record_by_prefix o.prefix existing) s rest p)

  with_active-keeps :
      (objects : List Object) (existing : List EnforcementRecord) (active : List DecisionRecord)
      → (s : World) → P s
      → P
          ((unique std env r now active
              >> (dry_objects std env r now existing active objects [] >>= λ ids.
                  count_removed (undesired std env r now ids active)))
            s).1
  with_active-keeps objects existing active s p =
      continue-keeps P P (unique std env r now active s) _ (λ q. q)
        (λ _ t q.
          continue-keeps P P (dry_objects std env r now existing active objects [] t) _ (λ q. q)
            (λ ids u q.
              counts
                (λ report. record report {
                  removed = report.removed + undesired std env r now ids active;
                })
                u refl q)
            (dry_objects-keeps existing active objects [] t q))
        (if-keeps P (one_per_object active) done (fail ErrorCategory.state) s (λ _. p) (λ _. p))

  pub dry_run-keeps :
      (objects : List Object) (s : World) → P s → P (dry_run std env r now objects s).1
  unfolding dry_run
  dry_run-keeps objects s p =
      let reply = env.list_enforcement_objects s.history in
      let c = Call.list_enforcement_objects reply in
      let s' = record s { history = c ∷ s.history } in
      continue-keeps P P (expect ErrorCategory.state reply s') _ (λ q. q)
        (λ existing t q.
          let reply' = env.list_active_decisions t.history in
          let c' = Call.list_active_decisions reply' in
          continue-keeps P P
            (expect ErrorCategory.state reply' (record t { history = c' ∷ t.history })) _ (λ q. q)
            (λ active u q. with_active-keeps objects existing active u q)
            (expect-keeps P ErrorCategory.state reply' _ (reads c' t refl refl refl q)))
        (expect-keeps P ErrorCategory.state reply s' (reads c s refl refl refl p))
