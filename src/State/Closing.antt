-- ===== src/State/Closing.antt =====
-- internal/state/sync_repository.go: how a run ends, and the results of its feeds.
use crowdshield.Prelude.{
  ltb, not, ◌||◌, exists, text_eq, false, ◌==◌, ◌&&◌, ◌++◌, none, true, if◌then◌else◌, Text, Option,
  List, ℕ, Bool, some, [], ◌∷◌,
}
use crowdshield.State.Tables.{ErrorCategory, Result, FeedRow, find, update, affected, unix}
use crowdshield.Ops.Vocabulary.{Outcome, FailureCategory, Counts}
use crowdshield.Ops.Event.{feed_result_valid, FeedResult, validate_result}
use crowdshield.Ops.Event
use crowdshield.Prelude.Int.{ℤ, pos, ltb_ℤ, eq_ℤ}
use crowdshield.State.Runs.{
  FeedRunRow, HistoryStatus, RunAnswer, RunRow, RunStatus, RunTables, RuntimeTimestampKey, bad_time,
  feed_history_status, is_running, safe_sync_result, set_runtime_timestamp, status_for_result,
}

abbrev pub has_feed_name : Text → FeedRow → Bool
has_feed_name name f = text_eq f.name name

abbrev pub same_feed_run : ℤ → ℤ → FeedRunRow → Bool
same_feed_run run feed r = eq_ℤ r.sync_run_id run && eq_ℤ r.feed_id feed

abbrev pub feed_run : ℤ → ℤ → HistoryStatus → FeedResult → FeedRunRow
feed_run run feed status f = record {
  sync_run_id = run;
  feed_id = feed;
  status = status;
  accepted = f.accepted;
  rejected = f.rejected;
  failure = f.failure;
}

-- The loop over the feeds of a result. The rows have the run and the feed as their key.
unfoldable pub insert_feed_runs :
    ℤ → List FeedRow → List FeedResult → List FeedRunRow → Result (List FeedRunRow)
unfolding feed_history_status find
insert_feed_runs run feeds [] rows = Result.ok rows
insert_feed_runs run feeds (f ∷ fs) rows = elim (feed_history_status f) [
  | none ↦ Result.err ErrorCategory.constraint
  | some status ↦ elim (find (has_feed_name f.name) feeds) [
    | none ↦ Result.err ErrorCategory.not_found
    | some feed ↦
        let rest = insert_feed_runs run feeds fs (rows ++ feed_run run feed.id status f ∷ []) in
        if exists (same_feed_run run feed.id) rows then Result.err ErrorCategory.query else rest
  ]
]

abbrev pub has_run_id : ℤ → RunRow → Bool
has_run_id id r = eq_ℤ r.id id

abbrev pub is_open_run : ℤ → RunRow → Bool
is_open_run id r = has_run_id id r && is_running r.status

-- The columns of a run for its counts.
abbrev pub stored_counts : Counts → Counts
stored_counts c = record c {
  feeds_unchanged = pos 0;
  feeds_not_due = pos 0;
  active_decisions = pos 0;
}

abbrev pub closed_run : RunStatus → Event.Result → RunRow → RunRow
closed_run status result r = record r {
  completed_at = some (unix result.completed_at);
  status = status;
  counts = stored_counts result.counts;
  failure = result.failure;
}

-- A transaction that fails leaves the tables as they were.
abbrev pub or_rollback : RunTables → RunAnswer (Unit {0}) → RunAnswer (Unit {0})
or_rollback t (Result.ok u, t') = (Result.ok u, t')
or_rollback t (Result.err c, t') = (Result.err c, t)

-- The end of `CompleteSyncRun`, once the results of the feeds are there.
unfoldable pub close_run :
    ℤ → RunStatus → Event.Result → List FeedRunRow → RunTables → RunAnswer (Unit {0})
unfolding update affected safe_sync_result set_runtime_timestamp
close_run id status result rows t =
    let closed : RunTables = record t {
      runs = update (is_open_run id) (closed_run status result) t.runs;
      feed_runs = rows;
    } in
    if not (affected (is_open_run id) t.runs == 1)
    then (Result.err ErrorCategory.constraint, t)
    else if safe_sync_result result.outcome result.failure
    then or_rollback t
        (set_runtime_timestamp true RuntimeTimestampKey.last_safe_sync result.completed_at closed)
    else (Result.ok tt, closed)

-- The transaction, by the run that was found.
unfoldable pub complete_found :
    ℤ → RunStatus → Event.Result → Option RunRow → RunTables → RunAnswer (Unit {0})
unfolding insert_feed_runs close_run
complete_found id status result none t = (Result.err ErrorCategory.not_found, t)
complete_found id status result (some r) t =
    if not (is_running r.status) || ltb (unix result.completed_at) r.started_at
    then (Result.err ErrorCategory.constraint, t)
    else elim (insert_feed_runs id t.feeds result.feeds t.feed_runs) [
      | Result.err c ↦ (Result.err c, t)
      | Result.ok rows ↦ close_run id status result rows t
    ]

abbrev pub is_valid_result : Event.Result → Bool
is_valid_result r = elim (validate_result r) [ none ↦ true | some e ↦ false ]

unfoldable pub complete_sync_run : Bool → ℤ → Event.Result → RunTables → RunAnswer (Unit {0})
unfolding status_for_result find complete_found
complete_sync_run works id result t = elim (status_for_result result.outcome) [
  | none ↦ (Result.err ErrorCategory.constraint, t)
  | some status ↦
      if not (ltb_ℤ (pos 0) id) || not (is_valid_result result)
      then (Result.err ErrorCategory.constraint, t)
      else if not works
      then (Result.err ErrorCategory.transaction, t)
      else complete_found id status result (find (has_run_id id) t.runs) t
]

-- The inverse of `feedHistoryStatus`.
abbrev pub history_outcome : HistoryStatus → Option Outcome
history_outcome HistoryStatus.success = some Outcome.success
history_outcome HistoryStatus.not_modified = some Outcome.not_modified
history_outcome HistoryStatus.not_due = some Outcome.not_due
history_outcome HistoryStatus.failed = some Outcome.failed
history_outcome HistoryStatus.suspicious = some Outcome.degraded
history_outcome (HistoryStatus.other n) = none

unfoldable pub feed_result_from_history :
    Text → HistoryStatus → FailureCategory → ℤ → ℤ → Result FeedResult
unfolding feed_result_valid
feed_result_from_history name status failure accepted rejected = elim (history_outcome status) [
  | none ↦ Result.err ErrorCategory.integrity
  | some o ↦
      let r : FeedResult = record {
        name = name;
        outcome = o;
        failure = failure;
        accepted = accepted;
        rejected = rejected;
      } in
      if not (feed_result_valid r) then Result.err ErrorCategory.integrity else Result.ok r
]

abbrev pub is_running_run : RunRow → Bool
is_running_run r = is_running r.status

abbrev pub interrupted_run : ℕ → RunRow → RunRow
interrupted_run now r = record r {
  completed_at = some (unix now);
  status = RunStatus.failed;
  failure = FailureCategory.runtime;
}

-- The number of runs that were interrupted.
unfoldable pub recover_interrupted_sync_runs : Bool → ℕ → RunTables → RunAnswer ℕ
unfolding update affected
recover_interrupted_sync_runs works now t =
    if bad_time now
    then (Result.err ErrorCategory.constraint, t)
    else if not works
    then (Result.err ErrorCategory.query, t)
    else (
      Result.ok (affected is_running_run t.runs),
      record t { runs = update is_running_run (interrupted_run now) t.runs },
    )
