-- ===== src/Reconcile/DryCounts.antt =====
-- What a dry run counts.
use crowdshield.Prelude.{
  inr, inl, not, [], Bool-cases, ◌∷◌, ap, length, List, refl, arith, Option, suc, ◌≡◌, ◌+◌, ℕ, none,
  some,
}
use crowdshield.Network.Desired.{Object}
use crowdshield.State.Records.{EnforcementRecord, DecisionRecord}
use crowdshield.Reconcile.World.{
  ◌>>=◌, ◌>>◌, ErrorCategory, Call, expect, Reply, continue, Run, Result, Environment, World,
}
use crowdshield.Reconcile.Alerts.{Std, Reconciler}
use crowdshield.Reconcile.DryRun.{
  record_by_prefix, undesired, count_removed, read_active, unique, count_added, dry_run,
  dry_objects, dry_known,
}
use crowdshield.Prelude.Int.{ℤ}
use crowdshield.Reconcile.Plan.{one_per_object, active_decision}

-- The objects that a report accounts for.
abbrev pub accounted : World → ℕ
accounted s = s.report.added + s.report.refreshed + s.report.skipped

module _ (std : Std) (env : Environment) (r : Reconciler) (now : ℕ) where
  -- A step that always succeeds and accounts for one object.
  abbrev CountsOne : Result (Unit {0}) × World → World → Type 0
  CountsOne x s = (x.0 ≡ Result.ok tt) × (accounted x.1 ≡ suc (accounted s))

  dry_known_one :
      (o : Object) (x : Option DecisionRecord) (s : World)
      → CountsOne (dry_known std env r now o x s) s
  unfolding dry_known
  dry_known_one o none s = (refl, omega arith)
  dry_known_one o (some d) s = ground arith

  continue-ok :
      {A B : Type 0} (x : Result A × World) (f : A → Run B) (a : A)
      → x.0 ≡ Result.ok a
      → continue x f ≡ f a x.1
  continue-ok (Result.ok b, s) f a e = let same : b ≡ a = cc e in ap (λ z. f z s) same
  continue-ok (Result.err c, s) f a e = absurd (ground (arith, e))

  -- A step that always succeeds and accounts for a number of objects.
  abbrev Counts : {A : Type 0} → ℕ → Result A × World → World → Type 0
  Counts {A} n x s = ((a : A) × (x.0 ≡ Result.ok a)) × (accounted x.1 ≡ accounted s + n)

  -- The branch of an object with a record, or without.
  dry_object_counts :
      (existing : List EnforcementRecord) (active : List DecisionRecord) (o : Object)
      (os : List Object)
      → (ids : List ℤ) (x : Option EnforcementRecord) (s : World)
      → ((ids : List ℤ) (t : World)
          → Counts (length os) (dry_objects std env r now existing active os ids t) t)
      → Counts
          (suc (length os))
          ((elim x as (λ _. Run (List ℤ)) [
            | none ↦ count_added 1 >> dry_objects std env r now existing active os ids
            | some e ↦
                dry_known std env r now o (active_decision e.id active)
                >> dry_objects std env r now existing active os (e.id ∷ ids)
          ])
            s)
          s
  dry_object_counts existing active o os ids none s ih =
      let t = record s { report = record s.report { added = s.report.added + 1 } } in
      let (a, e) = ih ids t in (a, omega (arith, e))
  dry_object_counts existing active o os ids (some e) s ih =
      let (k, c) = dry_known_one o (active_decision e.id active) s in
      let x = dry_known std env r now o (active_decision e.id active) s in
      let (a, n) = ih (e.id ∷ ids) x.1 in
      let same =
        continue-ok x (λ _. dry_objects std env r now existing active os (e.id ∷ ids)) tt k in
      rw same (a, omega (arith, n, c))

  dry_objects_counts :
      (existing : List EnforcementRecord) (active : List DecisionRecord) (os : List Object)
      → (ids : List ℤ) (s : World)
      → Counts (length os) (dry_objects std env r now existing active os ids s) s
  unfolding dry_objects
  dry_objects_counts existing active [] ids s = ((ids, refl), omega arith)
  dry_objects_counts existing active (o ∷ os) ids s = elim (Bool-cases (not o.desired)) [
    | inl y ↦
        let t = record s { report = record s.report { skipped = suc s.report.skipped } } in
        let (a, e) = dry_objects_counts existing active os ids t in rw y (a, omega (arith, e))
    | inr n ↦ rw n (
        dry_object_counts existing active o os ids (record_by_prefix o.prefix existing) s
          (λ ids t. dry_objects_counts existing active os ids t))
  ]

  after_active :
      (objects : List Object) (existing : List EnforcementRecord)
      (reply : Reply (List DecisionRecord))
      → (s : World)
      → let x = continue (expect ErrorCategory.state reply s) (λ active.
        unique std env r now active
        >> (dry_objects std env r now existing active objects [] >>= λ ids.
            count_removed (undesired std env r now ids active))) in
        x.0 ≡ Result.ok tt → accounted x.1 ≡ accounted s + length objects
  after_active objects existing Reply.not_found s h = absurd (ground (arith, h))
  after_active objects existing Reply.failed s h = absurd (ground (arith, h))
  after_active objects existing (Reply.ok active) s h = elim (Bool-cases (one_per_object active)) [
    | inr n ↦ absurd (ground (arith, rw n at h))
    | inl y ↦
        let x = dry_objects std env r now existing active objects [] s in
        let ((ids, e), c) = dry_objects_counts existing active objects [] s in
        let same =
          continue-ok x (λ ids. count_removed (undesired std env r now ids active)) ids e in
        rw (y, same) c
  ]

  after_existing :
      (objects : List Object) (reply : Reply (List EnforcementRecord)) (s : World)
      → let x = continue (expect ErrorCategory.state reply s) (λ existing.
        read_active std env r now >>= λ active.
        unique std env r now active
        >> (dry_objects std env r now existing active objects [] >>= λ ids.
            count_removed (undesired std env r now ids active))) in
        x.0 ≡ Result.ok tt → accounted x.1 ≡ accounted s + length objects
  after_existing objects Reply.not_found s h = absurd (ground (arith, h))
  after_existing objects Reply.failed s h = absurd (ground (arith, h))
  after_existing objects (Reply.ok existing) s h =
      let reply = env.list_active_decisions s.history in
      after_active objects existing reply
        (record s { history = Call.list_active_decisions reply ∷ s.history }) h

  -- A dry run that succeeds accounts for every object exactly once, as added, refreshed or skipped.
  pub dry_run_counts :
      (objects : List Object) (s : World)
      → (dry_run std env r now objects s).0 ≡ Result.ok tt
      → accounted (dry_run std env r now objects s).1 ≡ accounted s + length objects
  unfolding dry_run
  dry_run_counts objects s h =
      let reply = env.list_enforcement_objects s.history in
      after_existing objects reply
        (record s { history = Call.list_enforcement_objects reply ∷ s.history }) h
