-- ===== src/Reconcile/Orderly.antt =====
-- Every run of the reconciler keeps the order of the calls.
use crowdshield.Prelude.{
  false, not, true, ◌&&◌, ◌||◌, ◌==◌, Bool, inr, ◌+◌, inl, suc, [], Bool-cases, length, refl, ◌≡◌,
  ◌∷◌, Option, List, ℕ, none, some,
}
use crowdshield.Network.Desired.{Object, Summary}
use crowdshield.State.Records.{EnforcementRecord, DecisionRecord}
use crowdshield.Reconcile.World.{
  ask, pure, fail, done, ◌>>=◌, continue, expect, tell, ◌>>◌, Call, Result, ErrorCategory,
  Environment, World, Report,
}
use crowdshield.Reconcile.Alerts.{Std, Reconciler}
use crowdshield.Reconcile.Operations.{recover_open, expire_owned}
use crowdshield.Reconcile.Plan.{
  build_objects, one_per_object, batches, PlannedAction, sorted_groups, GroupKey, Group,
}
use crowdshield.Reconcile.DryRun.{dry_run, count_removed, count_skipped, unique, read_active}
use crowdshield.Reconcile.Planning.{nothing_planned, plan_records, Planned}
use crowdshield.Reconcile.Execute.{
  is_create, start_batch, settle, count_batch, settled, remove_after, finish, execute, run_groups,
  run_batches, run_removals,
}
use crowdshield.Reconcile.Run.{
  empty_report, run_body, read_entries, objects_known, run, count_undesired, enforce, RunOptions,
}
use crowdshield.Reconcile.Discipline.{Disciplined, continue-keeps, if-keeps, expect-keeps}
use crowdshield.Reconcile.Expiring.{expire_owned-Kept, noted}
use crowdshield.Reconcile.Recovering.{recover_open-Kept}
use crowdshield.Reconcile.Ordering.{plan_records-Kept, start_batch-Kept, told, D, Any, any}
use crowdshield.Reconcile.DryRuns.{dry_run-keeps}

module _ (std : Std) (env : Environment) (r : Reconciler) (now : ℕ) where
  abbrev pub E : World → Type 0
  E s = D std env r now s

  settled-Kept :
      (first : Option ErrorCategory) (f : Report → Report) (x : Result (Unit {0}) × World)
      → ((report : Report) → (f report).lapi_requests ≡ report.lapi_requests)
      → E x.1
      → E (settled std env r now first (tell f) x).1
  settled-Kept first f (Result.err c, s) e d = d
  settled-Kept first f (Result.ok u, s) e d = told std env r now f s (e s.report) d

  count_batch-Kept :
      (first : Option ErrorCategory) (key : GroupKey) (n : ℕ) (x : Result (Unit {0}) × World)
      → E x.1
      → E (settled std env r now first (count_batch std env r now key n) x).1
  count_batch-Kept first key n x d = elim (Bool-cases (is_create std env r now key.kind)) [
    | inl y ↦
        rw y (
          settled-Kept first (λ report. record report { added = report.added + n }) x (λ _. refl) d)
    | inr z ↦ rw z (
        settled-Kept first (λ report. record report { refreshed = report.refreshed + n }) x
          (λ _. refl) d)
  ]

  run_batches-Kept :
      (records : List EnforcementRecord) (key : GroupKey) (bs : List (List PlannedAction))
      → (first : Option ErrorCategory) (s : World) → E s
      → E (run_batches std env r now records key bs first s).1
  unfolding run_batches
  run_batches-Kept records key [] first s d = d
  run_batches-Kept records key (b ∷ bs) first s d =
      continue-keeps E E
        (settle std env r now first (start_batch std env r now records key b)
          (count_batch std env r now key (length b)) s)
        (run_batches std env r now records key bs) (λ q. q)
        (λ f t q. run_batches-Kept records key bs f t q)
        (count_batch-Kept first key (length b) (start_batch std env r now records key b s)
          (start_batch-Kept std env r now records key b s d))

  run_groups-Kept :
      (records : List EnforcementRecord) (gs : List Group) (first : Option ErrorCategory)
      (s : World)
      → E s
      → E (run_groups std env r now records gs first s).1
  unfolding run_groups
  run_groups-Kept records [] first s d = d
  run_groups-Kept records ((key, actions) ∷ gs) first s d =
      let bs = batches (length actions) r.batch_size actions in
      continue-keeps E E (run_batches std env r now records key bs first s)
        (run_groups std env r now records gs) (λ q. q) (λ f t q. run_groups-Kept records gs f t q)
        (run_batches-Kept records key bs first s d)

  run_removals-Kept :
      (ds : List DecisionRecord) (first : Option ErrorCategory) (s : World)
      → E s
      → E (run_removals std env r now ds first s).1
  unfolding run_removals
  run_removals-Kept [] first s d = d
  run_removals-Kept (x ∷ ds) first s d =
      continue-keeps E E
        (settle std env r now first (expire_owned std env r now x) (count_removed 1) s)
        (run_removals std env r now ds) (λ q. q) (λ f t q. run_removals-Kept ds f t q)
        (settled-Kept first (λ report. record report { removed = report.removed + 1 })
          (expire_owned std env r now x s) (λ _. refl)
          (expire_owned-Kept std env r now (Any std env r now) (any std env r now) x s d))

  remove_after-Kept :
      (ds : List DecisionRecord) (first : Option ErrorCategory) (s : World)
      → E s
      → E (remove_after std env r now ds first s).1
  remove_after-Kept ds none s d = run_removals-Kept ds none s d
  remove_after-Kept ds (some c) s d = d

  finish-Kept :
      (first : Option ErrorCategory) (s : World) → E s → E (finish std env r now first s).1
  finish-Kept none s d = d
  finish-Kept (some c) s d = d

  execute-Kept :
      (records : List EnforcementRecord) (p : Planned) (s : World)
      → E s
      → E (execute std env r now records p s).1
  unfolding execute
  execute-Kept records p s d =
      let gs = sorted_groups p.groups in
      continue-keeps E E
        (continue (run_groups std env r now records gs none s)
          (remove_after std env r now p.removals))
        (finish std env r now) (λ q. q) (λ f t q. finish-Kept f t q)
        (continue-keeps E E (run_groups std env r now records gs none s)
          (remove_after std env r now p.removals) (λ q. q)
          (λ f t q. remove_after-Kept p.removals f t q) (run_groups-Kept records gs none s d))

  count_undesired-Kept :
      (es : List EnforcementRecord) (s : World) → E s → E (count_undesired std env r now es s).1
  count_undesired-Kept [] s d = d
  count_undesired-Kept (e ∷ es) s d =
      if-keeps E e.desired (count_undesired std env r now es)
        (count_skipped >> count_undesired std env r now es) s (λ _. count_undesired-Kept es s d)
        (λ _.
          count_undesired-Kept es _ (
            told std env r now (λ report. record report { skipped = suc report.skipped }) s refl d))

  unique-Kept :
      (active : List DecisionRecord) (s : World) → E s → E (unique std env r now active s).1
  unique-Kept active s d =
      if-keeps E (one_per_object active) done (fail ErrorCategory.state) s (λ _. d) (λ _. d)

  -- A list that is read, for a call that is always allowed.
  pub read_active-Kept : (s : World) → E s → E (read_active std env r now s).1
  read_active-Kept s d =
      let reply = env.list_active_decisions s.history in
      expect-keeps E ErrorCategory.state reply _ (
        noted std env r now (Any std env r now) (any std env r now)
          (Call.list_active_decisions reply) s refl refl d)

  after_recovery-Kept :
      (records : List EnforcementRecord) (active : List DecisionRecord) (s : World)
      → E s
      → E
          ((unique std env r now active
              >> (plan_records std env r now active records nothing_planned
                  >>= execute std env r now records))
            s).1
  after_recovery-Kept records active s d =
      continue-keeps E E (unique std env r now active s) _ (λ q. q)
        (λ _ t q.
          continue-keeps E E (plan_records std env r now active records nothing_planned t)
            (execute std env r now records) (λ q. q) (λ p u q. execute-Kept records p u q)
            (plan_records-Kept std env r now active records nothing_planned t q))
        (unique-Kept active s d)

  with_records-Kept :
      (records : List EnforcementRecord) (s : World)
      → E s
      → E
          ((count_undesired std env r now records
              >> (recover_open std env r now records
                  >> (read_active std env r now >>= λ active.
                      unique std env r now active
                      >> (plan_records std env r now active records nothing_planned
                          >>= execute std env r now records))))
            s).1
  with_records-Kept records s d =
      continue-keeps E E (count_undesired std env r now records s) _ (λ q. q)
        (λ _ t q.
          continue-keeps E E (recover_open std env r now records t) _ (λ q. q)
            (λ _ u q.
              continue-keeps E E (read_active std env r now u) _ (λ q. q)
                (λ active v q. after_recovery-Kept records active v q) (read_active-Kept u q))
            (recover_open-Kept std env r now (Any std env r now) (any std env r now) records t q))
        (count_undesired-Kept records s d)

  pub enforce-Kept :
      (objects : List Object) (s : World) → E s → E (enforce std env r now objects s).1
  unfolding enforce
  enforce-Kept objects s d =
      let reply = env.apply_enforcement_plan s.history objects in
      let s' = record s { history = Call.apply_enforcement_plan objects reply ∷ s.history } in
      continue-keeps E E (expect ErrorCategory.state reply s') _ (λ q. q)
        (λ records t q. with_records-Kept records t q)
        (expect-keeps E ErrorCategory.state reply s' (
          noted std env r now (Any std env r now) (any std env r now)
            (Call.apply_enforcement_plan objects reply) s refl refl d))

  dry_run-Kept : (objects : List Object) (s : World) → E s → E (dry_run std env r now objects s).1
  dry_run-Kept objects s d =
      dry_run-keeps std env r now E
        (λ c t _ a n q. noted std env r now (Any std env r now) (any std env r now) c t a n q)
        (λ f t e q. told std env r now f t e q) objects s d

  objects_known-Kept :
      (o : RunOptions) (x : Option (List Object × Summary)) (s : World)
      → E s
      → E (objects_known std env r now o x s).1
  objects_known-Kept o none s d = d
  objects_known-Kept o (some (objects, summary)) s d =
      let f : Report → Report = λ report. record report { rejected = summary.rejected_safety } in
      let d' = told std env r now f s refl d in
      if-keeps E o.dry_run (dry_run std env r now objects) (enforce std env r now objects) _
        (λ _. dry_run-Kept objects _ d') (λ _. enforce-Kept objects _ d')

  read_entries-Kept : (o : RunOptions) (s : World) → E s → E (read_entries std env r now o s).1
  read_entries-Kept o s d =
      let reply = env.list_active_entries s.history in
      if-keeps E o.override_entries (pure o.entries)
        (ask env.list_active_entries Call.list_active_entries >>= expect ErrorCategory.state) s
        (λ _. d)
        (λ _. expect-keeps E ErrorCategory.state reply _ (
          noted std env r now (Any std env r now) (any std env r now)
            (Call.list_active_entries reply) s refl refl d))

  pub run_body-Kept : (o : RunOptions) (s : World) → E s → E (run_body std env r now o s).1
  unfolding run_body
  run_body-Kept o s d =
      if-keeps E (now == 0 || (o.override_entries && not o.dry_run)) (fail ErrorCategory.contract)
        (read_entries std env r now o >>= λ entries.
          objects_known std env r now o (build_objects entries o.allowlists o.feed_order))
        s (λ _. d)
        (λ _.
          continue-keeps E E (read_entries std env r now o s) _ (λ q. q)
            (λ entries t q.
              objects_known-Kept o (build_objects entries o.allowlists o.feed_order) t q)
            (read_entries-Kept o s d))

-- Whatever the store and the local API answer, and whether or not the run succeeds: a decision is
-- expired only right after an alert of this machine was read that holds it as a ban of this program,
-- an alert is created only right after its operation was begun or found to have no alert, an operation
-- is begun only with the token that was just drawn, recorded as verified only right after an alert of
-- this machine for it was read, and completed only after the store has had it as verified; and the
-- report counts every request to the local API.
pub run-Disciplined :
    (std : Std) (env : Environment) (r : Reconciler) (now : ℕ) (running : Bool) (o : RunOptions)
    → Disciplined r.machine_id (run std env r now running o).1
unfolding run
run-Disciplined std env r now true o = record { orderly = refl; counted = refl }
run-Disciplined std env r now false o =
    (run_body-Kept std env r now o (record { report = empty_report; history = [] })
      (record { orderly = refl; counted = refl }, tt)).0
