-- ===== src/Ops/Event.antt =====
-- internal/ops/event.go: events, per-feed results and run results, with their validation.
-- A time is a number of nanoseconds since the zero time, which is 0; a duration is an int64.
use crowdshield.Prelude.{
  ℕ, ◌-◌, Bool, true, false, Option, none, some, List, [], ◌∷◌, ◌==◌, ltb, ◌&&◌, ◌||◌, not, Text,
  is_empty, length, text_eq, refuse, ◌>>◌, exists, if◌then◌else◌,
}
use crowdshield.Prelude.Int.{ℤ, pos, ltb_ℤ}
use crowdshield.Ops.Vocabulary.{
  Code, Operation, Outcome, Severity, FailureCategory, Counts, operation_eq, failure_eq,
  is_cancelled, max_duration, max_feed_results, count_out_of_range, counts_valid, valid_failure,
  valid_outcome, valid_severity, code_operation, outcome_needs_failure,
}
use crowdshield.Ops.FeedName.{valid_feed_name}

pub data Error : Type 0 where
  invalid_event invalid_result : Error

pub record Event : Type 0 where
  pub code : Code
  pub operation : Operation
  pub feed : Text
  pub outcome : Outcome
  pub severity : Severity
  pub failure : FailureCategory
  pub at : ℕ
  pub duration : ℤ
  pub attempt : ℤ
  pub counts : Counts

-- `expected, known := codeOperation(e.Code)`, then `!known || e.Operation != expected`
abbrev pub wrong_operation : Option Operation → Operation → Bool
wrong_operation none operation = true
wrong_operation (some expected) operation = not (operation_eq operation expected)

abbrev is_retry : Code → Bool
is_retry Code.scheduler_retry = true
is_retry _ = false

abbrev is_feed_result : Code → Bool
is_feed_result Code.feed_result = true
is_feed_result _ = false

-- The three parts of `Event.Validate`: the bounded fields, the failure and the feed label.
unfoldable pub wrong_labels : Event → Bool
wrong_labels e =
    wrong_operation (code_operation e.code) e.operation
    || not (valid_outcome e.outcome)
    || not (valid_severity e.severity)
    || e.at == 0

unfoldable pub wrong_numbers : Event → Bool
wrong_numbers e =
    ltb_ℤ e.duration (pos 0)
    || ltb_ℤ (pos max_duration) e.duration
    || ltb_ℤ e.attempt (pos 0)
    || ltb_ℤ (pos 10) e.attempt
    || not (counts_valid e.counts)

unfoldable pub check_fields : Event → Option Error
unfolding wrong_labels wrong_numbers
check_fields e = do
  refuse (wrong_labels e) invalid_event
  refuse (wrong_numbers e) invalid_event
  refuse (is_retry e.code && ltb_ℤ e.attempt (pos 1)) invalid_event

unfoldable pub check_failure : Event → Option Error
check_failure e =
    if outcome_needs_failure e.outcome
    then (do
      refuse (not (valid_failure e.failure)) invalid_event
      refuse (is_cancelled e.outcome && not (failure_eq e.failure FailureCategory.cancelled))
          invalid_event)
    else refuse (not (failure_eq e.failure FailureCategory.unset)) invalid_event

unfoldable pub check_feed : Event → Option Error
check_feed e =
    if not (is_empty e.feed)
    then refuse
        (not (valid_feed_name e.feed)
          || (not (operation_eq e.operation Operation.feed)
              && not (operation_eq e.operation Operation.notification)))
        invalid_event
    else refuse (is_feed_result e.code) invalid_event

unfoldable pub validate_event : Event → Option Error
unfolding check_fields check_failure check_feed
validate_event e = do check_fields e; check_failure e; check_feed e

pub record FeedResult : Type 0 where
  pub name : Text
  pub outcome : Outcome
  pub failure : FailureCategory
  pub accepted : ℤ
  pub rejected : ℤ

-- The `switch r.Outcome` of `FeedResult.valid`.
abbrev pub feed_failure_fits : Outcome → FailureCategory → Bool
feed_failure_fits Outcome.success f = failure_eq f FailureCategory.unset
feed_failure_fits Outcome.not_due f = failure_eq f FailureCategory.unset
feed_failure_fits Outcome.not_modified f = failure_eq f FailureCategory.unset
feed_failure_fits Outcome.failed f = valid_failure f
feed_failure_fits Outcome.degraded f = valid_failure f
feed_failure_fits _ f = false

unfoldable pub feed_result_valid : FeedResult → Bool
feed_result_valid r =
    if not (valid_feed_name r.name)
      || count_out_of_range r.accepted
      || count_out_of_range r.rejected
    then false
    else feed_failure_fits r.outcome r.failure

pub record Result : Type 0 where
  pub outcome : Outcome
  pub failure : FailureCategory
  pub retryable : Bool
  pub started_at : ℕ
  pub completed_at : ℕ
  pub counts : Counts
  pub feeds : List FeedResult

-- The `switch r.Outcome` of `Result.Validate`.
abbrev pub outcome_check : Outcome → FailureCategory → Bool → Option Error
outcome_check Outcome.success f retryable =
    refuse (not (failure_eq f FailureCategory.unset) || retryable) invalid_result
outcome_check Outcome.degraded f retryable = refuse (not (valid_failure f)) invalid_result
outcome_check Outcome.failed f retryable = refuse (not (valid_failure f)) invalid_result
outcome_check Outcome.cancelled f retryable =
    refuse (not (failure_eq f FailureCategory.cancelled) || retryable) invalid_result
outcome_check _ f retryable = some invalid_result

-- The loop over the feeds; `seen` holds the names met before.
unfoldable pub check_feeds : List Text → List FeedResult → Option Error
check_feeds seen [] = none
check_feeds seen (f ∷ rest) =
    let later = check_feeds (f.name ∷ seen) rest in
    if not (feed_result_valid f)
    then some invalid_result
    else if exists (text_eq f.name) seen
    then some invalid_result
    else later

-- `CompletedAt.Sub(StartedAt)` saturates far above the bound that it is compared with, and is not
-- negative behind the test before it, so the subtraction on ℕ is exact where it matters.
unfoldable pub times_check : Result → Bool
times_check r =
    r.started_at == 0
    || ltb r.completed_at r.started_at
    || ltb max_duration (r.completed_at - r.started_at)
    || not (counts_valid r.counts)
    || ltb max_feed_results (length r.feeds)

unfoldable pub validate_result : Result → Option Error
unfolding check_feeds times_check
validate_result r = do
  outcome_check r.outcome r.failure r.retryable
  refuse (times_check r) invalid_result
  check_feeds [] r.feeds
