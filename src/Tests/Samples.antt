-- ===== src/Tests/Samples.antt =====
-- Results and events of one synchronization, as the service would report them.
use crowdshield.Prelude.{true, false, [], ◌∷◌, bytes}
use crowdshield.Prelude.Int.{pos}
use crowdshield.Ops.Vocabulary.{Code, Operation, Outcome, Severity, FailureCategory, no_counts}
use crowdshield.Ops.Event.{Event, FeedResult, Result}

abbrev pub drop_feed : FeedResult
drop_feed = record {
  name = bytes "drop-v4";
  outcome = Outcome.success;
  failure = FailureCategory.unset;
  accepted = pos 12;
  rejected = pos 0;
}

abbrev pub good_result : Result
good_result = record {
  outcome = Outcome.success;
  failure = FailureCategory.unset;
  retryable = false;
  started_at = 100;
  completed_at = 200;
  counts = no_counts;
  feeds = drop_feed ∷ [];
}

abbrev pub failed_result : Result
failed_result = record {
  outcome = Outcome.failed;
  failure = FailureCategory.lapi;
  retryable = true;
  started_at = 100;
  completed_at = 200;
  counts = no_counts;
  feeds = [];
}

abbrev pub sync_event : Event
sync_event = record {
  code = Code.sync_completed;
  operation = Operation.sync;
  feed = [];
  outcome = Outcome.success;
  severity = Severity.info;
  failure = FailureCategory.unset;
  at = 200;
  duration = pos 100;
  attempt = pos 0;
  counts = no_counts;
}
