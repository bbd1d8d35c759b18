-- ===== src/Tests/Runs.antt =====
-- The runs and the notifications of internal/state at concrete inputs.
use crowdshield.Prelude.{false, ◌^◌, ◌*◌, ◌+◌, ℕ, ◌≡◌, bytes, List, true, refl, ap, [], ◌∷◌}
use crowdshield.State.Runs.{SyncMode, RunTables, RunAnswer, RuntimeTimestampKey, begin_sync_run}
use crowdshield.State.Closing.{complete_sync_run}
use crowdshield.State.RunLives.{RunCall, Goes, run_calls, run_calls-Goes}
use crowdshield.State.Completed.{IsCompleted, complete_sync_run-IsCompleted}
use crowdshield.State.History.{IsKept, recorded, feed_result_from_history-feed_history_status}
use crowdshield.State.Tables.{Result}
use crowdshield.Ops.Event.{FeedResult, feed_result_valid}
use crowdshield.Ops.Event
use crowdshield.State.Notifications.{load_state, save_state, in_seconds, load_state-save_state}
use crowdshield.Notify.State.{PersistentState}
use crowdshield.Notify.Notice.{Kind}
use crowdshield.Ops.Vocabulary.{counts_valid, valid_failure, Outcome, FailureCategory, no_counts}
use crowdshield.Prelude.Int.{ℤ, pos}
use crowdshield.State.Begun.{is_ok}
use crowdshield.Ops.FeedName.{valid_feed_name}

-- A second of the year 2021.
abbrev begun : ℕ
begun = 63745056000 * 10 ^ 9

abbrev empty : RunTables
empty = record {
  runs = [];
  feed_runs = [];
  feeds = record { id = pos 4; name = bytes "drop" } ∷ [];
  runtime = [];
}

abbrev started : RunAnswer ℤ
started = begin_sync_run true SyncMode.enforce [] begun empty

abbrev drop : FeedResult
drop = record {
  name = bytes "drop";
  outcome = Outcome.degraded;
  failure = FailureCategory.lapi;
  accepted = pos 2;
  rejected = pos 1;
}

abbrev result : Event.Result
result = record {
  outcome = Outcome.degraded;
  failure = FailureCategory.feed_download;
  retryable = true;
  started_at = begun;
  completed_at = begun + 5 * 10 ^ 9;
  counts = no_counts;
  feeds = drop ∷ [];
}

begins_first : started.0 ≡ Result.ok (pos 1)
unfolding begin_sync_run
begins_first = refl

drop_is_valid : feed_result_valid drop ≡ true
unfolding feed_result_valid valid_feed_name valid_failure
drop_is_valid = refl

completes : (complete_sync_run true (pos 1) result started.1).0 ≡ Result.ok tt
unfolding begin_sync_run complete_sync_run Event.validate_result valid_failure counts_valid
    feed_result_valid valid_feed_name
completes = refl

abbrev calls : List RunCall
calls =
    RunCall.completes true (pos 1) result
    ∷ RunCall.sets true RuntimeTimestampKey.last_safe_sync begun
    ∷ RunCall.recovers true (begun + 9 * 10 ^ 9)
    ∷ []

run_calls-Goes_example : Goes started.1 (run_calls calls started.1)
run_calls-Goes_example = run_calls-Goes calls started.1

feed_result_from_history-feed_history_status_example : IsKept drop (recorded drop)
feed_result_from_history-feed_history_status_example =
    feed_result_from_history-feed_history_status drop drop_is_valid

complete_sync_run-IsCompleted_example :
    IsCompleted (pos 1) result started.1 (complete_sync_run true (pos 1) result started.1).1
complete_sync_run-IsCompleted_example =
    complete_sync_run-IsCompleted true (pos 1) result started.1 (ap is_ok completes)

abbrev notified : PersistentState
notified = record {
  key = record { kind = Kind.repeated_failure; feed = [] };
  failure = FailureCategory.lapi;
  feed = [];
  consecutive_failures = 3;
  notified = true;
  recovery_pending = false;
  sent = false;
  last_attempt = begun + 7;
  updated_at = begun + 8;
}

saves : (save_state true notified []).0 ≡ Result.ok tt
unfolding save_state valid_failure
saves = refl

load_state-save_state_example :
    load_state true notified.key (save_state true notified []).1
    ≡ Result.ok (in_seconds notified, true)
load_state-save_state_example = load_state-save_state true notified [] (ap is_ok saves)
