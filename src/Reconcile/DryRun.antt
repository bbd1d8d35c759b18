-- ===== src/Reconcile/DryRun.antt =====
-- internal/reconcile/reconcile.go: `dryRun`.
use crowdshield.Prelude.{
  not, ◌||◌, is_empty, [], exists, none, ◌∷◌, some, if◌then◌else◌, Option, ◌+◌, suc, List, ℕ,
}
use crowdshield.Prelude.Int.{eq_ℤ, ℤ}
use crowdshield.State.Records.{DecisionRecord, EnforcementRecord}
use crowdshield.Reconcile.World.{
  expect, fail, ◌>>◌, done, ◌>>=◌, pure, ask, tell, Call, ErrorCategory, Environment, Run,
}
use crowdshield.Reconcile.Alerts.{value_of, Std, Reconciler, or_else}
use crowdshield.Reconcile.Plan.{is_outdated, active_decision, one_per_object}
use crowdshield.Network.Address.{Prefix, prefix_eq}
use crowdshield.Network.Desired.{Object}

abbrev pub count_added : ℕ → Run (Unit {0})
count_added n = tell (λ report. record report { added = report.added + n })

abbrev pub count_refreshed : ℕ → Run (Unit {0})
count_refreshed n = tell (λ report. record report { refreshed = report.refreshed + n })

abbrev pub count_skipped : Run (Unit {0})
count_skipped = tell (λ report. record report { skipped = suc report.skipped })

abbrev pub count_removed : ℕ → Run (Unit {0})
count_removed n = tell (λ report. record report { removed = report.removed + n })

-- `existingByPrefix[prefix]`: the last record with the prefix.
unfoldable pub record_by_prefix : Prefix → List EnforcementRecord → Option EnforcementRecord
record_by_prefix p [] = none
record_by_prefix p (e ∷ es) =
    or_else (record_by_prefix p es) (if prefix_eq e.prefix p then some e else none)

module _ (std : Std) (env : Environment) (r : Reconciler) (now : ℕ) where
  -- What `dryRun` counts for one desired object with a record.
  unfoldable pub dry_known : Object → Option DecisionRecord → Run (Unit {0})
  dry_known o none = count_added 1
  dry_known o (some d) =
      if is_empty o.primary.feed_name
        || is_outdated d now r.refresh_before o.scope (value_of std o.scope o.prefix)
            o.primary.feed_name
      then count_refreshed 1
      else count_skipped

  -- The loop over the objects, with the ids of the records that are desired.
  unfoldable pub dry_objects :
      List EnforcementRecord → List DecisionRecord → List Object → List ℤ → Run (List ℤ)
  unfolding dry_known record_by_prefix active_decision
  dry_objects existing active [] ids = pure ids
  dry_objects existing active (o ∷ os) ids =
      let skip = count_skipped >> dry_objects existing active os ids in
      if not o.desired then skip else elim (record_by_prefix o.prefix existing) [
        | none ↦ count_added 1 >> dry_objects existing active os ids
        | some e ↦
            dry_known o (active_decision e.id active) >> dry_objects existing active os (e.id ∷ ids)
      ]

  -- The last loop: the active decisions of no desired object.
  unfoldable pub undesired : List ℤ → List DecisionRecord → ℕ
  undesired ids [] = 0
  undesired ids (d ∷ ds) = (if exists (eq_ℤ d.object_id) ids then 0 else 1) + undesired ids ds

  -- `activeByObject`, with its error.
  abbrev pub unique : List DecisionRecord → Run (Unit {0})
  unique active = if one_per_object active then done else fail ErrorCategory.state

  abbrev pub read_active : Run (List DecisionRecord)
  read_active =
      ask env.list_active_decisions Call.list_active_decisions >>= expect ErrorCategory.state

  unfoldable pub dry_run : List Object → Run (Unit {0})
  unfolding dry_objects undesired one_per_object
  dry_run objects =
      ask env.list_enforcement_objects Call.list_enforcement_objects
      >>= expect ErrorCategory.state
      >>= λ existing. read_active >>= λ active.
          unique active
          >> (dry_objects existing active objects [] >>= λ ids.
              count_removed (undesired ids active))
