-- ===== src/Reconcile/Planning.antt =====
-- internal/reconcile/reconcile.go: what `Run` plans for the records.
use crowdshield.Prelude.{not, none, Text, leb, ◌++◌, ◌∷◌, if◌then◌else◌, some, Option, List, ℕ, []}
use crowdshield.Prelude.Int.{ℤ}
use crowdshield.State.Records.{OperationKind, EnforcementRecord, DecisionRecord}
use crowdshield.Reconcile.World.{◌>>◌, fail, ◌>>=◌, pure, ErrorCategory, Environment, Run}
use crowdshield.Reconcile.Alerts.{object_value, Std, Reconciler}
use crowdshield.Reconcile.Operations.{mark_expired}
use crowdshield.Reconcile.Plan.{
  is_outdated, GroupKey, active_decision, primary_feed, add_action, Group,
}
use crowdshield.Reconcile.DryRun.{count_skipped}

-- What is left to do for the records, as the loop over them finds it.
pub record Planned : Type 0 where
  pub groups : List Group
  pub removals : List DecisionRecord

abbrev pub nothing_planned : Planned
nothing_planned = record { groups = []; removals = [] }

module _ (std : Std) (env : Environment) (r : Reconciler) (now : ℕ) where
  -- What is planned for a desired record of a feed, with its decision if one is active.
  unfoldable pub plan_desired :
      EnforcementRecord → ℤ × Text → Option DecisionRecord → Planned → Run Planned
  unfolding add_action
  plan_desired e feed none p =
      let key : GroupKey = record {
        kind = OperationKind.create;
        feed_id = feed.0;
        feed_name = feed.1;
      } in
      pure (record p { groups = add_action key (record { object = e; old = none }) p.groups })
  plan_desired e feed (some d) p =
      let key : GroupKey = record {
        kind = OperationKind.refresh;
        feed_id = feed.0;
        feed_name = feed.1;
      } in
      if is_outdated d now r.refresh_before e.scope (object_value std e) feed.1
      then pure
          (record p { groups = add_action key (record { object = e; old = some d }) p.groups })
      else (count_skipped >> pure p)

  -- A decision that has run out is marked and no longer counts.
  unfoldable pub still_active : Option DecisionRecord → Run (Option DecisionRecord)
  still_active none = pure none
  still_active (some d) =
      if leb d.expires_at now then (mark_expired std env r now d.id >> pure none) else pure (some d)

  abbrev pub add_removal : Option DecisionRecord → Planned → Planned
  add_removal none p = p
  add_removal (some d) p = record p { removals = p.removals ++ d ∷ [] }

  -- One round of the loop over the records.
  unfoldable pub plan_record : List DecisionRecord → EnforcementRecord → Planned → Run Planned
  unfolding plan_desired still_active primary_feed active_decision
  plan_record active e p =
      if not e.desired
      then pure (add_removal (active_decision e.id active) p)
      else elim (primary_feed e) [
        | none ↦ fail ErrorCategory.state
        | some feed ↦ still_active (active_decision e.id active) >>= λ d. plan_desired e feed d p
      ]

  unfoldable pub plan_records : List DecisionRecord → List EnforcementRecord → Planned → Run Planned
  unfolding plan_record
  plan_records active [] p = pure p
  plan_records active (e ∷ es) p = plan_record active e p >>= plan_records active es
