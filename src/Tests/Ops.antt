-- ===== src/Tests/Ops.antt =====
-- internal/ops at concrete inputs.
use crowdshield.Prelude.{false, ◌≡◌, ◌↔◌, true, none, refl, ◌≤◌, bytes, length}
use crowdshield.Prelude.Regex.{Matches}
use crowdshield.Ops.FeedName.{valid_feed_name, feed_name_pattern, valid_feed_name_iff}
use crowdshield.Ops.Event.{feed_result_valid, validate_event, validate_result}
use crowdshield.Ops.Laws.{EventFits, validate_event_iff}
use crowdshield.Ops.Results.{ResultFits, validate_result_iff}
use crowdshield.Tests.Samples.{sync_event, good_result}
use crowdshield.Ops.Vocabulary.{counts_valid}

-- A name may not end in a dash.
dash_at_end : valid_feed_name (bytes "drop-") ≡ false
unfolding valid_feed_name
dash_at_end = refl

good_result_passes : validate_result good_result ≡ none
unfolding validate_result feed_result_valid valid_feed_name counts_valid
good_result_passes = refl

valid_feed_name_iff_example :
    (valid_feed_name (bytes "drop-v4") ≡ true)
    ↔ ((length (bytes "drop-v4") ≤ 64) × Matches feed_name_pattern (bytes "drop-v4"))
valid_feed_name_iff_example = valid_feed_name_iff (bytes "drop-v4")

validate_event_iff_example : (validate_event sync_event ≡ none) ↔ EventFits sync_event
validate_event_iff_example = validate_event_iff sync_event

validate_result_iff_example : (validate_result good_result ≡ none) ↔ ResultFits good_result
validate_result_iff_example = validate_result_iff good_result
