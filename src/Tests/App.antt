-- ===== src/Tests/App.antt =====
-- internal/app/result.go at concrete inputs.
use crowdshield.Prelude.{refl, some, [], ◌≡◌, ◌∷◌, bytes, none}
use crowdshield.Prelude.Int.{◌-ℤ◌, ◌+ℤ◌, pos}
use crowdshield.Ops.Vocabulary.{counts_valid, no_counts}
use crowdshield.Ops.FeedName.{valid_feed_name}
use crowdshield.Ops.Event.{validate_result, feed_result_valid, Result}
use crowdshield.App.Report.{
  operational_feed_result, add_bounded, ErrorClass, FeedStatus, SyncFeed, result_from_sync, Report,
}
use crowdshield.App.Outcome.{result_from_sync-IsFaithful, IsFaithful}
use crowdshield.Tests.Samples.{good_result}

abbrev synced_feed : SyncFeed
synced_feed = record {
  name = bytes "drop-v4";
  status = FeedStatus.succeeded;
  accepted = pos 12;
  rejected = pos 0;
  error_class = ErrorClass.unset;
}

abbrev report : Report
report = record {
  feeds_succeeded = pos 1;
  feeds_failed = pos 0;
  feeds_unchanged = pos 0;
  feeds_not_due = pos 0;
  suspicious_changes = pos 0;
  feeds = synced_feed ∷ [];
  reconciled = record {
    added = pos 2;
    refreshed = pos 0;
    removed = pos 0;
    recovered = pos 0;
    rejected = pos 0;
    skipped = pos 0;
    lapi_requests = pos 3;
  };
}

abbrev converted : Result
converted = record good_result {
  counts = record no_counts {
    feeds_succeeded = pos 1;
    added = pos 2;
    lapi_requests = pos 3;
    active_decisions = pos 2;
  };
}

report-converted : result_from_sync report none 100 200 (pos 2) ≡ some converted
unfolding result_from_sync operational_feed_result feed_result_valid valid_feed_name add_bounded
    ◌-ℤ◌ ◌+ℤ◌ validate_result counts_valid
report-converted = refl

result_from_sync-IsFaithful_example : IsFaithful report none 100 200 (pos 2) converted
result_from_sync-IsFaithful_example =
    result_from_sync-IsFaithful report none 100 200 (pos 2) converted report-converted
