-- ===== src/Tests/Syncer.antt =====
-- internal/syncer at concrete inputs.
use crowdshield.Prelude.{
  ltb, leb, ◌++◌, exists, ◌≡◌, none, if◌then◌else◌, ◌^◌, bytes, length, true, false, List, some,
  every, Bool, refl, [], ◌∷◌,
}
use crowdshield.Syncer.World.{
  ErrorCategory, Call, Environment, State, Result, Reply, Fetched, Cause,
}
use crowdshield.Syncer.Engine.{Engine, FeedConfig, Marshal}
use crowdshield.Syncer.Run.{SyncOptions}
use crowdshield.Syncer.Whole.{run}
use crowdshield.App.Report.{
  add_bounded, feed_failure, operational_feed_result, ErrorClass, Tally, tally, empty_tally,
  counters_agree,
}
use crowdshield.Ops.Vocabulary.{valid_failure, Outcome, FailureCategory}
use crowdshield.Feed.Types.{Family, Format, Std}
use crowdshield.Syncer.Endings.{run-SpeaksTrue, SpeaksOfFeeds}
use crowdshield.Prelude.Int.{◌-ℤ◌, ◌+ℤ◌, pos_part, pos}
use crowdshield.Syncer.DryKeeping.{run-IsReading, is_reading}
use crowdshield.Syncer.Agreeing.{run-counters_agree}
use crowdshield.Network.Safety.{kind_fits, is_safe_prefix, quad}
use crowdshield.Network.Address.{overlaps, is_global_unicast}
use crowdshield.Ops.Event.{feed_result_valid}
use crowdshield.Ops.FeedName.{valid_feed_name}

abbrev std : Std
std = record {
  netip = record { parse_addr = λ raw. none; parse_prefix = λ raw. some (quad 8 8 8 0 24, []) };
  prefix_string = λ p. bytes "8.8.8.0/24";
  record_type = λ line. some [];
  raw_metadata = λ line. none;
  record_cidr = λ line. some line;
  parse_url = λ url. none;
  sha256_hex = λ text. text;
  floats = record {
    of_int = λ n. pos_part n;
    quotient = λ a b. 0;
    le = leb;
    lt = ltb;
    is_nan = λ f. false;
    is_inf = λ f. false;
  };
}

abbrev marshal : Marshal
marshal = record { feed_config = λ c. some (bytes "{}") }

abbrev config : FeedConfig
config = record {
  name = bytes "drop";
  enabled = true;
  url = bytes "https://example.org/drop";
  format = Format.firehol_netset;
  family = Family.ipv4;
  timeout = pos 30;
  max_download_bytes = pos 1000;
  expected_min_entries = pos 1;
  expected_max_entries = pos 10;
  max_growth_ratio = 1;
  max_shrink_ratio = 1;
  attribution = [];
  min_update_interval = pos 60;
  allow_http = false;
  content_types = [];
  require_final_newline = false;
  max_malformed_lines = pos 0;
  max_malformed_ratio = 0;
}

abbrev engine : Engine
engine = record {
  feeds = config ∷ record config { name = bytes "level" } ∷ [];
  initial_backoff = 60;
  max_backoff = 3600;
  max_line_bytes = pos 100;
  missing_grace_runs = pos 2;
  allowlists = [];
}

-- The first fetch of a run fails, later ones return a range; all else succeeds.
abbrev answer_fetch : List Call → Fetched
answer_fetch history =
    if exists (λ c. elim c [ Call.fetch q r ↦ true | _ ↦ false ]) history
    then Fetched.ok (record {
      body = bytes "8.8.8.0/24" ++ 10 ∷ [];
      etag = [];
      last_modified = [];
      not_modified = false;
    })
    else Fetched.failed (Cause.of_feed ErrorClass.http_status 0)

abbrev env : Environment
env = record {
  list_feeds = λ h. Reply.ok [];
  list_active_entries = λ h. Reply.ok [];
  fetch = λ h q. answer_fetch h;
  ensure_feeds = λ h ds. Reply.ok [];
  apply_feed_snapshot = λ h name x grace. Reply.ok tt;
  record_feed_not_modified = λ h name etag modified. Reply.ok tt;
  record_feed_failure = λ h name class next. Reply.ok tt;
  reconcile = λ h o. record {
    report = record {
      added = 1;
      refreshed = 0;
      removed = 0;
      recovered = 0;
      rejected = 0;
      skipped = 0;
      lapi_requests = 2;
    };
    succeeded = true;
  };
}

abbrev every_feed : Bool → SyncOptions
every_feed dry = record { feed_name = []; dry_run = dry }

abbrev outcome : Bool → Result (Unit {0}) × State
outcome dry = run std marshal env engine (10 ^ 18) (every_feed dry)

plain_is_degraded : (outcome false).0 ≡ Result.err ErrorCategory.degraded
unfolding run is_safe_prefix is_global_unicast overlaps kind_fits ◌+ℤ◌
plain_is_degraded = refl

plain_calls : length (outcome false).1.history ≡ 7
unfolding run is_safe_prefix is_global_unicast overlaps kind_fits ◌+ℤ◌
plain_calls = refl

dry_calls : length (outcome true).1.history ≡ 5
unfolding run is_safe_prefix is_global_unicast overlaps kind_fits ◌+ℤ◌
dry_calls = refl

run-IsReading_example : every is_reading (outcome true).1.history ≡ true
run-IsReading_example = run-IsReading std marshal env engine (10 ^ 18) (every_feed true) refl

run-SpeaksTrue_example : SpeaksOfFeeds (outcome false)
run-SpeaksTrue_example = run-SpeaksTrue std marshal env engine (10 ^ 18) (every_feed false)

abbrev tallied : Tally
tallied = record empty_tally {
  feeds =
      record {
        name = bytes "drop";
        outcome = Outcome.failed;
        failure = FailureCategory.feed_download;
        accepted = pos 0;
        rejected = pos 0;
      }
      ∷ record {
        name = bytes "level";
        outcome = Outcome.success;
        failure = FailureCategory.unset;
        accepted = pos 1;
        rejected = pos 0;
      }
      ∷ [];
  succeeded = 1;
  failed = 1;
}

tally-tallied : tally (outcome false).1.report.feeds empty_tally ≡ some tallied
unfolding run tally is_safe_prefix is_global_unicast overlaps kind_fits ◌+ℤ◌ operational_feed_result
    feed_result_valid valid_feed_name valid_failure feed_failure add_bounded ◌-ℤ◌
tally-tallied = refl

run-counters_agree_example : counters_agree (outcome false).1.report tallied ≡ true
run-counters_agree_example =
    run-counters_agree std marshal env engine (10 ^ 18) (every_feed false) tallied tally-tallied
