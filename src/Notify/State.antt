-- ===== src/Notify/State.antt =====
-- internal/notify/manager.go: the keys and states that the manager keeps in its store.
use crowdshield.Prelude.{
  is_empty, ltb, text_eq, ◌||◌, false, not, ◌&&◌, [], ◌+◌, true, ◌==◌, if◌then◌else◌, ℕ, Text, Bool,
}
use crowdshield.Ops.Vocabulary.{valid_failure, FailureCategory}
use crowdshield.Ops.FeedName.{valid_feed_name}
use crowdshield.Notify.Notice.{Kind, has_failure}

pub record StateKey : Type 0 where
  pub kind : Kind
  pub feed : Text

-- The `switch k.Kind` of `Validate`.
abbrev pub feed_fits_key : Kind → Text → Bool
feed_fits_key Kind.suspicious_change feed = valid_feed_name feed
feed_fits_key (Kind.other n) feed = false
feed_fits_key _ feed = is_empty feed

unfoldable pub key_valid : StateKey → Bool
key_valid k = feed_fits_key k.kind k.feed

abbrev pub kind_number : Kind → ℕ
kind_number Kind.startup = 0
kind_number Kind.first_success = 1
kind_number Kind.routine_success = 2
kind_number Kind.repeated_failure = 3
kind_number Kind.recovery = 4
kind_number Kind.suspicious_change = 5
kind_number Kind.stale_sync = 6
kind_number (Kind.other n) = 7 + n

abbrev pub key_eq : StateKey → StateKey → Bool
key_eq a b = kind_number a.kind == kind_number b.kind && text_eq a.feed b.feed

-- `ConsecutiveFailures` is a number: the manager writes nothing below 0, and a stored state below 0,
-- which another program would have written, is left out.
pub record PersistentState : Type 0 where
  pub key : StateKey
  pub failure : FailureCategory
  pub feed : Text
  pub consecutive_failures : ℕ
  pub notified : Bool
  pub recovery_pending : Bool
  pub sent : Bool
  pub last_attempt : ℕ
  pub updated_at : ℕ

abbrev pub is_repeated_failure : Kind → Bool
is_repeated_failure Kind.repeated_failure = true
is_repeated_failure _ = false

-- `Validate() == nil`
unfoldable pub state_valid : PersistentState → Bool
unfolding key_valid
state_valid s =
    if not (key_valid s.key) || ltb 100 s.consecutive_failures
    then false
    else if not (is_empty s.feed) && not (valid_feed_name s.feed)
    then false
    else if has_failure s.failure && not (valid_failure s.failure)
    then false
    else if (ltb 0 s.consecutive_failures || s.notified || s.recovery_pending)
        && (not (is_repeated_failure s.key.kind) || not (valid_failure s.failure))
    then false
    else not (not (s.last_attempt == 0) && s.updated_at == 0)

-- `PersistentState{Key: key}`
abbrev pub fresh : StateKey → PersistentState
fresh key = record {
  key = key;
  failure = FailureCategory.unset;
  feed = [];
  consecutive_failures = 0;
  notified = false;
  recovery_pending = false;
  sent = false;
  last_attempt = 0;
  updated_at = 0;
}
