-- ===== src/State/Runs.antt =====
-- internal/state/sync_repository.go: the runs of the synchronization, their results by feed, and the
-- times that the service keeps. Where a value of runtime_state is not the canonical decimal of a number
-- that is not negative, it is none here; else it is the time that the number stands for.
use crowdshield.Prelude.{
  ◌+◌, ◌^◌, ltb, is_empty, ◌*◌, not, ◌||◌, map, leb, false, suc, ◌==◌, ◌&&◌, ◌++◌, none, true,
  if◌then◌else◌, Text, Option, List, ℕ, Bool, some, [], ◌∷◌,
}
use crowdshield.State.Tables.{ErrorCategory, Result, FeedRow, find, update, unix}
use crowdshield.State.Verification.{highest}
use crowdshield.Ops.Vocabulary.{Outcome, FailureCategory, Counts, failure_eq, no_counts}
use crowdshield.Ops.Event.{FeedResult}
use crowdshield.Ops.FeedName.{valid_feed_name}
use crowdshield.Prelude.Int.{ℤ, pos}

pub data SyncMode : Type 0 where
  enforce dry_run : SyncMode
  other : ℕ → SyncMode

pub data RunStatus : Type 0 where
  running success degraded failed cancelled : RunStatus

-- The column `status` of feed_run_results.
pub data HistoryStatus : Type 0 where
  success not_modified not_due failed suspicious : HistoryStatus
  other : ℕ → HistoryStatus

pub data RuntimeTimestampKey : Type 0 where
  last_safe_sync last_prune : RuntimeTimestampKey
  other : ℕ → RuntimeTimestampKey

pub record RunRow : Type 0 where
  pub id : ℤ
  pub started_at : ℕ
  pub completed_at : Option ℕ
  pub mode : SyncMode
  pub requested_feed : Text
  pub status : RunStatus
  pub counts : Counts
  pub failure : FailureCategory

pub record FeedRunRow : Type 0 where
  pub sync_run_id : ℤ
  pub feed_id : ℤ
  pub status : HistoryStatus
  pub accepted : ℤ
  pub rejected : ℤ
  pub failure : FailureCategory

pub record RuntimeRow : Type 0 where
  pub key : RuntimeTimestampKey
  pub value : Option ℕ
  pub updated_at : ℕ

pub record RunTables : Type 0 where
  pub runs : List RunRow
  pub feed_runs : List FeedRunRow
  pub feeds : List FeedRow
  pub runtime : List RuntimeRow

abbrev pub RunAnswer : Type 0 → Type 0
RunAnswer A = Result A × RunTables

abbrev pub valid_sync_mode : SyncMode → Bool
valid_sync_mode (SyncMode.other n) = false
valid_sync_mode _ = true

abbrev pub valid_runtime_key : RuntimeTimestampKey → Bool
valid_runtime_key (RuntimeTimestampKey.other n) = false
valid_runtime_key _ = true

-- `t.IsZero() || t.Unix() < 0`: no time, or one before 1970.
abbrev pub bad_time : ℕ → Bool
bad_time t = t == 0 || ltb (unix t) 62135596800

abbrev pub is_running : RunStatus → Bool
is_running RunStatus.running = true
is_running _ = false

abbrev pub run_key : RunRow → ℤ
run_key r = r.id

abbrev pub new_run : ℤ → SyncMode → Text → ℕ → RunRow
new_run id mode feed started = record {
  id = id;
  started_at = unix started;
  completed_at = none;
  mode = mode;
  requested_feed = feed;
  status = RunStatus.running;
  counts = no_counts;
  failure = FailureCategory.unset;
}

-- `works` is false where the database fails.
unfoldable pub begin_sync_run : Bool → SyncMode → Text → ℕ → RunTables → RunAnswer ℤ
unfolding highest
begin_sync_run works mode feed started t =
    let id = pos (suc (highest (map run_key t.runs))) in
    if not (valid_sync_mode mode)
      || bad_time started
      || (not (is_empty feed) && not (valid_feed_name feed))
    then (Result.err ErrorCategory.constraint, t)
    else if not works
    then (Result.err ErrorCategory.query, t)
    else (Result.ok id, record t { runs = t.runs ++ new_run id mode feed started ∷ [] })

unfoldable pub status_for_result : Outcome → Option RunStatus
status_for_result Outcome.success = some RunStatus.success
status_for_result Outcome.degraded = some RunStatus.degraded
status_for_result Outcome.failed = some RunStatus.failed
status_for_result Outcome.cancelled = some RunStatus.cancelled
status_for_result _ = none

unfoldable pub feed_history_status : FeedResult → Option HistoryStatus
feed_history_status f = elim f.outcome [
  | Outcome.success ↦ some HistoryStatus.success
  | Outcome.not_modified ↦ some HistoryStatus.not_modified
  | Outcome.not_due ↦ some HistoryStatus.not_due
  | Outcome.failed ↦ some HistoryStatus.failed
  | Outcome.degraded ↦ some (
      if failure_eq f.failure FailureCategory.feed_validation
      then HistoryStatus.suspicious
      else HistoryStatus.failed)
  | _ ↦ none
]

unfoldable pub safe_sync_result : Outcome → FailureCategory → Bool
safe_sync_result Outcome.success f = true
safe_sync_result Outcome.degraded f =
    failure_eq f FailureCategory.feed_download || failure_eq f FailureCategory.feed_validation
safe_sync_result _ f = false

-- Equality of the keys, by a numbering.
abbrev pub key_rank : RuntimeTimestampKey → ℕ
key_rank RuntimeTimestampKey.last_safe_sync = 0
key_rank RuntimeTimestampKey.last_prune = 1
key_rank (RuntimeTimestampKey.other n) = 2 + n

abbrev pub has_key : RuntimeTimestampKey → RuntimeRow → Bool
has_key key r = key_rank r.key == key_rank key

abbrev pub moved_to : ℕ → RuntimeRow → RuntimeRow
moved_to seconds r = record r { value = some seconds; updated_at = seconds }

-- The end of `setRuntimeTimestamp`, by the row that was found.
unfoldable pub put_timestamp :
    RuntimeTimestampKey → ℕ → Option RuntimeRow → RunTables → RunAnswer (Unit {0})
unfolding update
put_timestamp key s none t =
    let row : RuntimeRow = record { key = key; value = some s; updated_at = s } in
    (Result.ok tt, record t { runtime = t.runtime ++ row ∷ [] })
put_timestamp key s (some r) t = elim r.value [
  | none ↦ (Result.err ErrorCategory.integrity, t)
  | some seconds ↦
      if leb s seconds
      then (Result.ok tt, t)
      else (Result.ok tt, record t { runtime = update (has_key key) (moved_to s) t.runtime })
]

unfoldable pub set_runtime_timestamp :
    Bool → RuntimeTimestampKey → ℕ → RunTables → RunAnswer (Unit {0})
unfolding put_timestamp find
set_runtime_timestamp works key at t =
    if not (valid_runtime_key key) || bad_time at
    then (Result.err ErrorCategory.constraint, t)
    else if not works
    then (Result.err ErrorCategory.query, t)
    else put_timestamp key (unix at) (find (has_key key) t.runtime) t

-- None where there is no such time.
unfoldable pub runtime_timestamp : Bool → RuntimeTimestampKey → RunTables → Result (Option ℕ)
unfolding find
runtime_timestamp works key t =
    if not (valid_runtime_key key)
    then Result.err ErrorCategory.constraint
    else if not works
    then Result.err ErrorCategory.query
    else elim (find (has_key key) t.runtime) [
      | none ↦ Result.ok none
      | some r ↦ elim r.value [
        | none ↦ Result.err ErrorCategory.integrity
        | some s ↦ Result.ok (some (s * 10 ^ 9))
      ]
    ]
