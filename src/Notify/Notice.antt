-- ===== src/Notify/Notice.antt =====
-- internal/notify/notice.go: `Notice` and its validation.
use crowdshield.Prelude.{
  ◌&&◌, false, true, is_empty, ltb, ◌||◌, ◌==◌, Text, not, if◌then◌else◌, ℕ, Bool,
}
use crowdshield.Ops.Vocabulary.{
  counts_valid, valid_severity, valid_failure, Counts, failure_eq, Severity, FailureCategory,
}
use crowdshield.Ops.FeedName.{valid_feed_name}

pub data Kind : Type 0 where
  startup first_success routine_success repeated_failure : Kind
  recovery suspicious_change stale_sync : Kind
  other : ℕ → Kind

-- `ConsecutiveFailures` is a number, as the manager never makes a notice with one below 0.
pub record Notice : Type 0 where
  pub kind : Kind
  pub severity : Severity
  pub feed : Text
  pub failure : FailureCategory
  pub counts : Counts
  pub consecutive_failures : ℕ
  pub at : ℕ

abbrev pub has_failure : FailureCategory → Bool
has_failure f = not (failure_eq f FailureCategory.unset)

-- The `switch n.Kind` of `Validate`: what is refused.
unfoldable pub kind_refused : Notice → Kind → Bool
kind_refused n Kind.repeated_failure = not (valid_failure n.failure) || ltb n.consecutive_failures 1
kind_refused n Kind.recovery = not (valid_failure n.failure) || not (n.consecutive_failures == 0)
kind_refused n Kind.suspicious_change =
    is_empty n.feed || has_failure n.failure || not (n.consecutive_failures == 0)
kind_refused n (Kind.other k) = true
kind_refused n _ =
    not (is_empty n.feed) || has_failure n.failure || not (n.consecutive_failures == 0)

-- `Validate() == nil`
unfoldable pub notice_valid : Notice → Bool
unfolding kind_refused
notice_valid n =
    if n.at == 0
      || not (valid_severity n.severity)
      || not (counts_valid n.counts)
      || ltb 100 n.consecutive_failures
    then false
    else if not (is_empty n.feed) && not (valid_feed_name n.feed)
    then false
    else not (kind_refused n n.kind)
