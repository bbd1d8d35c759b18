-- ===== src/Reconcile/Run.antt =====
-- internal/reconcile/reconcile.go: `Run`.
use crowdshield.Prelude.{
  not, ◌&&◌, ◌||◌, ◌==◌, none, some, ◌∷◌, if◌then◌else◌, [], Bool, Option, List, ℕ,
}
use crowdshield.Prelude.Int.{ℤ}
use crowdshield.State.Records.{EnforcementRecord, StoredEntry}
use crowdshield.Reconcile.World.{
  expect, ◌>>◌, ◌>>=◌, tell, ask, pure, done, fail, Call, Result, ErrorCategory, Environment, Run,
  World, Report,
}
use crowdshield.Reconcile.Alerts.{Std, Reconciler}
use crowdshield.Reconcile.Operations.{recover_open}
use crowdshield.Reconcile.Plan.{one_per_object, build_objects}
use crowdshield.Network.Address.{Prefix}
use crowdshield.Network.Desired.{Object, Summary}
use crowdshield.Reconcile.DryRun.{unique, read_active, dry_run, count_skipped}
use crowdshield.Reconcile.Planning.{nothing_planned, plan_records}
use crowdshield.Reconcile.Execute.{execute}

pub record RunOptions : Type 0 where
  pub allowlists : List Prefix
  pub feed_order : List (ℤ × ℕ)
  pub dry_run : Bool
  pub override_entries : Bool
  pub entries : List StoredEntry

module _ (std : Std) (env : Environment) (r : Reconciler) (now : ℕ) where
  abbrev pub count_undesired : List EnforcementRecord → Run (Unit {0})
  count_undesired [] = done
  count_undesired (e ∷ es) =
      let rest = count_undesired es in if e.desired then rest else (count_skipped >> rest)

  -- `Run`, once the objects are known.
  unfoldable pub enforce : List Object → Run (Unit {0})
  unfolding recover_open one_per_object plan_records execute
  enforce objects =
      ask (λ h. env.apply_enforcement_plan h objects) (Call.apply_enforcement_plan objects)
      >>= expect ErrorCategory.state
      >>= λ records.
          count_undesired records
          >> (recover_open std env r now records
              >> (read_active std env r now >>= λ active.
                  unique std env r now active
                  >> (plan_records std env r now active records nothing_planned
                      >>= execute std env r now records)))

  abbrev pub read_entries : RunOptions → Run (List StoredEntry)
  read_entries o =
      if o.override_entries
      then pure o.entries
      else (ask env.list_active_entries Call.list_active_entries >>= expect ErrorCategory.state)

  abbrev pub objects_known : RunOptions → Option (List Object × Summary) → Run (Unit {0})
  objects_known o none = fail ErrorCategory.contract
  objects_known o (some (objects, summary)) =
      tell (λ report. record report { rejected = summary.rejected_safety })
      >> (if o.dry_run then dry_run std env r now objects else enforce objects)

  unfoldable pub run_body : RunOptions → Run (Unit {0})
  unfolding build_objects dry_run enforce
  run_body o =
      if now == 0 || (o.override_entries && not o.dry_run)
      then fail ErrorCategory.contract
      else (read_entries o >>= λ entries.
          objects_known o (build_objects entries o.allowlists o.feed_order))

abbrev pub empty_report : Report
empty_report = record {
  added = 0;
  refreshed = 0;
  removed = 0;
  recovered = 0;
  rejected = 0;
  skipped = 0;
  lapi_requests = 0;
}

-- `Run`: the result, the report and the calls. `running` is the flag that another run may have set.
unfoldable pub run :
    Std → Environment → Reconciler → ℕ → Bool → RunOptions → Result (Unit {0}) × World
unfolding run_body
run std env r now running o =
    let start : World = record { report = empty_report; history = [] } in
    if running then (Result.err ErrorCategory.busy, start) else run_body std env r now o start
