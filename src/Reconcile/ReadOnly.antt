-- ===== src/Reconcile/ReadOnly.antt =====
-- A dry run only reads, and counts every object.
use crowdshield.Prelude.{
  not, refl, false, ◌&&◌, [], ◌||◌, ◌==◌, arith, true, List, Option, Bool, ◌≡◌, ℕ, every, none,
  some,
}
use crowdshield.Network.Desired.{Object, Summary}
use crowdshield.Reconcile.World.{
  fail, expect, ◌>>=◌, ask, pure, Call, ErrorCategory, Environment, World,
}
use crowdshield.Reconcile.Alerts.{Std, Reconciler}
use crowdshield.Reconcile.Plan.{build_objects}
use crowdshield.Reconcile.DryRun.{dry_run}
use crowdshield.Reconcile.Run.{
  enforce, empty_report, objects_known, read_entries, run_body, run, RunOptions,
}
use crowdshield.Reconcile.Discipline.{continue-keeps, expect-keeps, if-keeps}
use crowdshield.Reconcile.DryRuns.{is_listing, dry_run-keeps}

abbrev OnlyReads : World → Type 0
OnlyReads s = every is_listing s.history ≡ true

module _ (std : Std) (env : Environment) (r : Reconciler) (now : ℕ) where
  dry_run-OnlyReads :
      (objects : List Object) (s : World)
      → OnlyReads s
      → OnlyReads (dry_run std env r now objects s).1
  dry_run-OnlyReads objects s d =
      dry_run-keeps std env r now OnlyReads (λ c t l _ _ q. ground (arith, l, q)) (λ f t _ q. q)
        objects s d

  objects_known-OnlyReads :
      (o : RunOptions) (x : Option (List Object × Summary)) (s : World)
      → o.dry_run ≡ true
      → OnlyReads s
      → OnlyReads (objects_known std env r now o x s).1
  objects_known-OnlyReads o none s dry d = d
  objects_known-OnlyReads o (some (objects, summary)) s dry d =
      if-keeps OnlyReads o.dry_run (dry_run std env r now objects) (enforce std env r now objects) _
        (λ _. dry_run-OnlyReads objects _ d) (λ n. ground (arith, dry, n))

  read_entries-OnlyReads :
      (o : RunOptions) (s : World) → OnlyReads s → OnlyReads (read_entries std env r now o s).1
  read_entries-OnlyReads o s d =
      let reply = env.list_active_entries s.history in
      if-keeps OnlyReads o.override_entries (pure o.entries)
        (ask env.list_active_entries Call.list_active_entries >>= expect ErrorCategory.state) s
        (λ _. d) (λ _. expect-keeps OnlyReads ErrorCategory.state reply _ d)

  run_body-OnlyReads :
      (o : RunOptions) (s : World)
      → o.dry_run ≡ true
      → OnlyReads s
      → OnlyReads (run_body std env r now o s).1
  unfolding run_body
  run_body-OnlyReads o s dry d =
      if-keeps OnlyReads (now == 0 || (o.override_entries && not o.dry_run))
        (fail ErrorCategory.contract)
        (read_entries std env r now o >>= λ entries.
          objects_known std env r now o (build_objects entries o.allowlists o.feed_order))
        s (λ _. d)
        (λ _.
          continue-keeps OnlyReads OnlyReads (read_entries std env r now o s) _ (λ q. q)
            (λ entries t q.
              objects_known-OnlyReads o (build_objects entries o.allowlists o.feed_order) t dry q)
            (read_entries-OnlyReads o s d))

-- Every call of a dry run, also of one that fails, is one that lists entries, enforcement objects or
-- active decisions of the store: none writes to the store, and none goes to the local API.
pub run-OnlyReads :
    (std : Std) (env : Environment) (r : Reconciler) (now : ℕ) (running : Bool) (o : RunOptions)
    → o.dry_run ≡ true
    → every is_listing (run std env r now running o).1.history ≡ true
unfolding run
run-OnlyReads std env r now true o dry = refl
run-OnlyReads std env r now false o dry =
    run_body-OnlyReads std env r now o (record { report = empty_report; history = [] }) dry refl
