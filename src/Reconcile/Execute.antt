-- ===== src/Reconcile/Execute.antt =====
-- internal/reconcile/reconcile.go: the operations and removals of `Run`.
use crowdshield.Prelude.{
  map, ◌==◌, [], length, ◌∷◌, false, Text, none, true, Bool, some, if◌then◌else◌, Option, List, ℕ,
}
use crowdshield.Prelude.Int.{pos}
use crowdshield.State.Records.{
  OperationStatus, DecisionRecord, EnforcementRecord, OperationKind, Operation,
}
use crowdshield.Reconcile.World.{
  ◌>>◌, expect, pure, ◌>>=◌, fail, continue, done, ask, Call, Result, ErrorCategory, Environment,
  Run, World,
}
use crowdshield.Reconcile.Alerts.{Std, Reconciler}
use crowdshield.Reconcile.Operations.{create_for_operation, expire_owned}
use crowdshield.Reconcile.Plan.{
  item_of, Group, PlannedAction, sorted_groups, operation_hash, batches, GroupKey,
}
use crowdshield.Reconcile.DryRun.{count_removed, count_refreshed, count_added}
use crowdshield.Reconcile.Planning.{Planned}

module _ (std : Std) (env : Environment) (r : Reconciler) (now : ℕ) where
  abbrev pub operation_of : GroupKey → List PlannedAction → Text → Operation
  operation_of key actions token = record {
    token = token;
    kind = key.kind;
    feed_id = key.feed_id;
    feed_name = key.feed_name;
    duration = pos r.duration;
    payload_hash = operation_hash std key.kind key.feed_id r.duration actions;
    status = OperationStatus.unset;
    items = map item_of actions;
    started_at = now;
    completed_at = none;
  }

  unfoldable pub new_operation : GroupKey → List PlannedAction → Run Operation
  unfolding operation_hash
  new_operation key actions =
      ask env.draw_token Call.draw_token >>= expect ErrorCategory.token >>= λ token.
      if length token == 32 then pure (operation_of key actions token) else fail ErrorCategory.token

  abbrev pub begin : Operation → Run (Unit {0})
  begin op =
      ask (λ h. env.begin_operation h op) (Call.begin_operation op) >>= expect ErrorCategory.state

  -- The body of the loop over the batches, as far as an error does not cut it short.
  unfoldable pub start_batch :
      List EnforcementRecord → GroupKey → List PlannedAction → Run (Unit {0})
  unfolding new_operation create_for_operation
  start_batch records key batch =
      new_operation key batch >>= λ op. begin op >> create_for_operation std env r now op records

  abbrev pub is_create : OperationKind → Bool
  is_create OperationKind.create = true
  is_create _ = false

  abbrev pub count_batch : GroupKey → ℕ → Run (Unit {0})
  count_batch key n = if is_create key.kind then count_added n else count_refreshed n

  -- `if firstError == nil { firstError = err }`
  abbrev pub keep_first : Option ErrorCategory → ErrorCategory → Option ErrorCategory
  keep_first none c = some c
  keep_first (some first) c = some first

  -- A loop's body: its error does not end the loop, and what follows it is done without an error.
  abbrev pub settled :
      Option ErrorCategory
      → Run (Unit {0})
      → Result (Unit {0}) × World
      → Result (Option ErrorCategory) × World
  settled first after (Result.err c, s) = (Result.ok (keep_first first c), s)
  settled first after (Result.ok _, s) = continue (after s) (λ _. pure first)

  abbrev pub settle :
      Option ErrorCategory → Run (Unit {0}) → Run (Unit {0}) → Run (Option ErrorCategory)
  settle first m after s = settled first after (m s)

  unfoldable pub run_batches :
      List EnforcementRecord
      → GroupKey
      → List (List PlannedAction)
      → Option ErrorCategory
      → Run (Option ErrorCategory)
  unfolding start_batch
  run_batches records key [] first = pure first
  run_batches records key (b ∷ bs) first =
      settle first (start_batch records key b) (count_batch key (length b))
      >>= run_batches records key bs

  unfoldable pub run_groups :
      List EnforcementRecord → List Group → Option ErrorCategory → Run (Option ErrorCategory)
  unfolding run_batches batches
  run_groups records [] first = pure first
  run_groups records ((key, actions) ∷ gs) first =
      run_batches records key (batches (length actions) r.batch_size actions) first
      >>= run_groups records gs

  unfoldable pub run_removals :
      List DecisionRecord → Option ErrorCategory → Run (Option ErrorCategory)
  unfolding expire_owned
  run_removals [] first = pure first
  run_removals (d ∷ ds) first =
      settle first (expire_owned std env r now d) (count_removed 1) >>= run_removals ds

  -- `return report, firstError`
  abbrev pub finish : Option ErrorCategory → Run (Unit {0})
  finish none = done
  finish (some c) = fail c

  -- Nothing is removed unless everything could be added.
  abbrev pub remove_after : List DecisionRecord → Option ErrorCategory → Run (Option ErrorCategory)
  remove_after removals none = run_removals removals none
  remove_after removals (some c) = pure (some c)

  unfoldable pub execute : List EnforcementRecord → Planned → Run (Unit {0})
  unfolding run_groups run_removals sorted_groups
  execute records p =
      run_groups records (sorted_groups p.groups) none >>= remove_after p.removals >>= finish
