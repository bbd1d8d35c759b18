-- ===== src/Ops/Vocabulary.antt =====
-- internal/ops/event.go: the closed vocabularies. A Go string type is its constants and `other`,
-- which numbers the remaining strings; where the empty string has a meaning it is `unset`.
use crowdshield.Prelude.{
  ℕ, ◌+◌, ◌*◌, Bool, true, false, Option, none, some, [], ◌∷◌, ◌==◌, not, every, ◌||◌,
}
use crowdshield.Prelude.Int.{ℤ, pos, ltb_ℤ}

pub data Code : Type 0 where
  service_starting service_started service_stopping service_stopped runtime_fatal : Code
  sync_started sync_completed feed_result lapi_state_changed : Code
  scheduler_started scheduler_retry scheduler_recovered scheduler_stopped : Code
  http_started http_stopped notification_result database_state_change prune_completed : Code
  other : ℕ → Code

pub data Operation : Type 0 where
  service sync feed lapi scheduler http notification database prune : Operation
  other : ℕ → Operation

pub data Outcome : Type 0 where
  started success degraded failed cancelled not_due not_modified retrying recovered : Outcome
  available unavailable stale stopped : Outcome
  other : ℕ → Outcome

pub data Severity : Type 0 where
  info warning error : Severity
  other : ℕ → Severity

pub data FailureCategory : Type 0 where
  unset config credential feed_download feed_validation lapi_auth lapi database : FailureCategory
  notification ownership timeout cancelled runtime internal : FailureCategory
  other : ℕ → FailureCategory

-- Equality of the strings, by a numbering of each vocabulary.
abbrev pub operation_rank : Operation → ℕ
operation_rank Operation.service = 0
operation_rank Operation.sync = 1
operation_rank Operation.feed = 2
operation_rank Operation.lapi = 3
operation_rank Operation.scheduler = 4
operation_rank Operation.http = 5
operation_rank Operation.notification = 6
operation_rank Operation.database = 7
operation_rank Operation.prune = 8
operation_rank (Operation.other n) = 9 + n

abbrev pub failure_rank : FailureCategory → ℕ
failure_rank FailureCategory.unset = 0
failure_rank FailureCategory.config = 1
failure_rank FailureCategory.credential = 2
failure_rank FailureCategory.feed_download = 3
failure_rank FailureCategory.feed_validation = 4
failure_rank FailureCategory.lapi_auth = 5
failure_rank FailureCategory.lapi = 6
failure_rank FailureCategory.database = 7
failure_rank FailureCategory.notification = 8
failure_rank FailureCategory.ownership = 9
failure_rank FailureCategory.timeout = 10
failure_rank FailureCategory.cancelled = 11
failure_rank FailureCategory.runtime = 12
failure_rank FailureCategory.internal = 13
failure_rank (FailureCategory.other n) = 14 + n

abbrev pub operation_eq : Operation → Operation → Bool
operation_eq a b = operation_rank a == operation_rank b

abbrev pub failure_eq : FailureCategory → FailureCategory → Bool
failure_eq a b = failure_rank a == failure_rank b

abbrev pub is_cancelled : Outcome → Bool
is_cancelled Outcome.cancelled = true
is_cancelled _ = false

-- int64 limits of the vocabulary; durations are in nanoseconds.
abbrev pub max_count : ℕ
max_count = 100000000

abbrev pub max_duration : ℕ
max_duration = 7 * 24 * 3600 * 1000000000

abbrev pub max_feed_results : ℕ
max_feed_results = 256

pub record Counts : Type 0 where
  pub feeds_succeeded : ℤ
  pub feeds_failed : ℤ
  pub feeds_unchanged : ℤ
  pub feeds_not_due : ℤ
  pub added : ℤ
  pub refreshed : ℤ
  pub removed : ℤ
  pub rejected : ℤ
  pub skipped : ℤ
  pub lapi_requests : ℤ
  pub active_decisions : ℤ

abbrev pub no_counts : Counts
no_counts = record {
  feeds_succeeded = pos 0;
  feeds_failed = pos 0;
  feeds_unchanged = pos 0;
  feeds_not_due = pos 0;
  added = pos 0;
  refreshed = pos 0;
  removed = pos 0;
  rejected = pos 0;
  skipped = pos 0;
  lapi_requests = pos 0;
  active_decisions = pos 0;
}

-- `value < 0 || value > maxCount`
abbrev pub count_out_of_range : ℤ → Bool
count_out_of_range v = ltb_ℤ v (pos 0) || ltb_ℤ (pos max_count) v

unfoldable pub counts_valid : Counts → Bool
counts_valid c =
    every (λ v. not (count_out_of_range v))
      (c.feeds_succeeded ∷ c.feeds_failed ∷ c.feeds_unchanged ∷ c.feeds_not_due ∷ c.added
        ∷ c.refreshed ∷ c.removed ∷ c.rejected ∷ c.skipped ∷ c.lapi_requests ∷ c.active_decisions
        ∷ [])

unfoldable pub valid_failure : FailureCategory → Bool
valid_failure FailureCategory.unset = false
valid_failure (FailureCategory.other n) = false
valid_failure _ = true

unfoldable pub valid_outcome : Outcome → Bool
valid_outcome (Outcome.other n) = false
valid_outcome _ = true

unfoldable pub valid_severity : Severity → Bool
valid_severity (Severity.other n) = false
valid_severity _ = true

unfoldable pub code_operation : Code → Option Operation
code_operation Code.service_starting = some Operation.service
code_operation Code.service_started = some Operation.service
code_operation Code.service_stopping = some Operation.service
code_operation Code.service_stopped = some Operation.service
code_operation Code.runtime_fatal = some Operation.service
code_operation Code.sync_started = some Operation.sync
code_operation Code.sync_completed = some Operation.sync
code_operation Code.feed_result = some Operation.feed
code_operation Code.lapi_state_changed = some Operation.lapi
code_operation Code.scheduler_started = some Operation.scheduler
code_operation Code.scheduler_retry = some Operation.scheduler
code_operation Code.scheduler_recovered = some Operation.scheduler
code_operation Code.scheduler_stopped = some Operation.scheduler
code_operation Code.http_started = some Operation.http
code_operation Code.http_stopped = some Operation.http
code_operation Code.notification_result = some Operation.notification
code_operation Code.database_state_change = some Operation.database
code_operation Code.prune_completed = some Operation.prune
code_operation (Code.other n) = none

unfoldable pub outcome_needs_failure : Outcome → Bool
outcome_needs_failure Outcome.degraded = true
outcome_needs_failure Outcome.failed = true
outcome_needs_failure Outcome.retrying = true
outcome_needs_failure Outcome.unavailable = true
outcome_needs_failure Outcome.stale = true
outcome_needs_failure Outcome.cancelled = true
outcome_needs_failure _ = false
