-- ===== src/Tests/Health.antt =====
-- internal/health at concrete inputs.
use crowdshield.Prelude.{◌++◌, ◌≡◌, ◌↔◌, true, false, none, some, refl, [], ◌∷◌, List, arith}
use crowdshield.Prelude.Int.{pos}
use crowdshield.Ops.Event.{
  check_feed, check_failure, check_fields, wrong_numbers, feed_result_valid, wrong_labels,
  validate_event, validate_result,
}
use crowdshield.Health.Tracker.{
  safe_synchronization, advance_success, mark_database, mark_credentials, mark_configuration,
  Options, Tracker, Component, new, mark_lapi, record_sync, apply_event,
}
use crowdshield.Health.Snapshot.{Status, Reason, snapshot}
use crowdshield.Health.Trace.{call, Call, calls, IsConsistent, calls-IsConsistent}
use crowdshield.Health.Readiness.{IsReady, snapshot_ready_iff}
use crowdshield.Health.Outage.{outage_ends_readiness, record_sync-eq-apply_event}
use crowdshield.Tests.Samples.{sync_event, good_result}
use crowdshield.Ops.FeedName.{valid_feed_name}
use crowdshield.Ops.Vocabulary.{
  outcome_needs_failure, valid_severity, valid_outcome, code_operation, counts_valid,
}

abbrev options : Options
options = record { max_sync_age = pos 1000; lapi_outage_grace = pos 100 }

abbrev fresh : Tracker
fresh = record {
  max_sync_age = 1000;
  lapi_outage_grace = 100;
  configuration = Component.pending;
  credentials = Component.pending;
  database = Component.pending;
  lapi = Component.pending;
  runtime = Component.running;
  lapi_ever_ready = false;
  lapi_outage_at = 0;
  last_success = 0;
}

abbrev start_up : List Call
start_up =
    Call.configuration true
    ∷ Call.credentials true
    ∷ Call.database true
    ∷ Call.lapi 150 true
    ∷ Call.sync good_result
    ∷ []

abbrev good_calls : List Call
good_calls = start_up ++ (Call.lapi 300 false ∷ [])

new_fresh : new options ≡ some fresh
unfolding new
new_fresh = refl

-- Within the grace period the service stays ready, and behind it not.
ready_in_grace : (snapshot 400 (calls good_calls fresh)).status ≡ Status.ready
unfolding snapshot calls call mark_configuration mark_credentials mark_database mark_lapi
    record_sync advance_success validate_result feed_result_valid valid_feed_name counts_valid
    safe_synchronization
ready_in_grace = refl

late : (snapshot 401 (calls good_calls fresh)).reason ≡ Reason.lapi_unavailable
unfolding snapshot calls call mark_configuration mark_credentials mark_database mark_lapi
    record_sync advance_success validate_result feed_result_valid valid_feed_name counts_valid
    safe_synchronization
late = refl

calls-IsConsistent_example : IsConsistent (calls good_calls fresh)
calls-IsConsistent_example = calls-IsConsistent options fresh good_calls new_fresh

snapshot_ready_iff_example :
    ((snapshot 400 (calls good_calls fresh)).status ≡ Status.ready)
    ↔ IsReady 400 (calls good_calls fresh)
snapshot_ready_iff_example =
    snapshot_ready_iff 400 (calls good_calls fresh)
      (calls-IsConsistent options fresh good_calls new_fresh)

abbrev bad_news : List Call
bad_news = Call.lapi 310 false ∷ Call.lapi 390 false ∷ []

outage_ends_readiness_example :
    (snapshot 401 (calls bad_news (mark_lapi 300 false fresh))).status ≡ Status.not_ready
outage_ends_readiness_example =
    outage_ends_readiness 300 401 bad_news fresh (ground arith) refl (omega arith)

sync_event_passes : validate_event sync_event ≡ none
unfolding validate_event wrong_labels wrong_numbers check_fields check_failure check_feed
    code_operation valid_outcome valid_severity counts_valid outcome_needs_failure
sync_event_passes = refl

good_result_passes' : validate_result good_result ≡ none
unfolding validate_result feed_result_valid valid_feed_name counts_valid
good_result_passes' = refl

record_sync-eq-apply_event_example :
    record_sync good_result fresh ≡ apply_event 200 sync_event fresh
record_sync-eq-apply_event_example =
    record_sync-eq-apply_event 200 good_result sync_event fresh good_result_passes'
      sync_event_passes refl refl refl refl
