-- ===== src/Syncer/Engine.antt =====
-- internal/syncer/engine.go: `Engine`, the parts of a run that ask nothing, and how a feed's end is
-- reported. `New` has validated the configuration, so that its backoffs are not negative.
use crowdshield.Syncer.World.{Cause, FetchRequest}
use crowdshield.Feed.Types.{Std, Format, Family, Float64, Snapshot, Checked, ◌>>=◌}
use crowdshield.Feed.Parser.{parse}
use crowdshield.Feed.Validate.{validate}
use crowdshield.App.Report.{Report, ErrorClass, FeedStatus, SyncFeed, is_suspicious}
use crowdshield.State.Feeds.{FeedRecord, FeedDefinition}
use crowdshield.Prelude.{
  zero, ◌/◌, exists, ltb, text_eq, ◌+◌, ◌||◌, suc, not, ◌*◌, none, ◌&&◌, true, ◌^◌, [], ◌∷◌,
  is_empty, some, false, if◌then◌else◌, Option, List, Text, ◌++◌, ℕ, Bool,
}
use crowdshield.Prelude.Int.{ltb_ℤ, ◌+ℤ◌, pos, ℤ}
use crowdshield.Network.Address.{Prefix}

pub record FeedConfig : Type 0 where
  pub name : Text
  pub enabled : Bool
  pub url : Text
  pub format : Format
  pub family : Family
  pub timeout : ℤ
  pub max_download_bytes : ℤ
  pub expected_min_entries : ℤ
  pub expected_max_entries : ℤ
  pub max_growth_ratio : Float64
  pub max_shrink_ratio : Float64
  pub attribution : Text
  pub min_update_interval : ℤ
  pub allow_http : Bool
  pub content_types : List Text
  pub require_final_newline : Bool
  pub max_malformed_lines : ℤ
  pub max_malformed_ratio : Float64

-- The configuration that a run reads.
pub record Engine : Type 0 where
  pub feeds : List FeedConfig
  pub initial_backoff : ℕ
  pub max_backoff : ℕ
  pub max_line_bytes : ℤ
  pub missing_grace_runs : ℤ
  pub allowlists : List Prefix

-- `json.Marshal` of a feed's configuration, or none for an error.
pub record Marshal : Type 0 where
  pub feed_config : FeedConfig → Option Text

abbrev pub seconds : ℕ
seconds = 10 ^ 9

abbrev pub metadata_age : Format → ℤ
metadata_age Format.spamhaus_drop_jsonl = pos (72 * 3600 * seconds)
metadata_age _ = pos 0

abbrev pub feed_failure_category : Cause → ErrorClass
feed_failure_category (Cause.of_feed c delay) = c
feed_failure_category Cause.other = ErrorClass.request

-- `feed.RetryAfter`
abbrev pub retry_after : Cause → ℕ
retry_after (Cause.of_feed c delay) = delay
retry_after Cause.other = 0

-- The loop of `retryDelay`.
unfoldable pub backed_off : ℕ → ℕ → ℕ → ℕ
backed_off maximum zero delay = delay
backed_off maximum (suc failures) delay =
    let rest =
      backed_off maximum failures (if ltb (maximum / 2) delay then maximum else delay * 2) in
    if ltb delay maximum then rest else delay

unfoldable pub retry_delay : Engine → ℕ → ℕ → ℕ
unfolding backed_off
retry_delay e failures requested =
    let delay = backed_off e.max_backoff failures e.initial_backoff in
    let bounded = if ltb e.max_backoff delay then e.max_backoff else delay in
    if ltb bounded requested then requested else bounded

-- An entry of a map by name: the last one written.
unfoldable pub by_name : Text → List FeedRecord → Option FeedRecord
by_name name [] = none
by_name name (r ∷ rs) = elim (by_name name rs) [
  | none ↦ if text_eq r.name name then some r else none
  | some r' ↦ some r'
]

abbrev pub zero_feed : FeedRecord
zero_feed = record {
  id = pos 0;
  name = [];
  url_hash = [];
  definition_hash = [];
  enabled = false;
  etag = [];
  last_modified = [];
  last_attempt = none;
  last_success = none;
  last_good_version = [];
  accepted_entries = 0;
  rejected_entries = 0;
  consecutive_failures = 0;
  next_attempt = none;
  last_error_category = [];
}

abbrev pub or_zero : Option FeedRecord → FeedRecord
or_zero none = zero_feed
or_zero (some r) = r

abbrev pub same_flag : Bool → Bool → Bool
same_flag true b = b
same_flag false b = not b

-- Whether a definition is new or differs from the record.
unfoldable pub differs : FeedDefinition → Option FeedRecord → Bool
differs d none = true
differs d (some r) =
    not (text_eq r.url_hash d.url_hash)
    || not (text_eq r.definition_hash d.definition_hash)
    || not (same_flag r.enabled d.enabled)

unfoldable pub definition_changed : List FeedRecord → List FeedDefinition → Text → Bool
unfolding by_name differs
definition_changed previous [] name = false
definition_changed previous (d ∷ ds) name =
    let rest = definition_changed previous ds name in
    if text_eq d.name name && not (exists (λ (x : FeedDefinition). text_eq x.name name) ds)
    then differs d (by_name name previous)
    else rest

abbrev pub after_success : ℕ → ℤ → Option ℕ → Bool
after_success now interval none = false
after_success now interval (some t) = ltb_ℤ (pos now) (pos t +ℤ interval)

abbrev pub before_attempt : ℕ → Option ℕ → Bool
before_attempt now none = false
before_attempt now (some t) = ltb now t

-- The test for a feed that is not due.
unfoldable pub not_due : ℕ → FeedConfig → FeedRecord → Bool → Bool
not_due now c r changed =
    not changed
    && (after_success now c.min_update_interval r.last_success || before_attempt now r.next_attempt)

abbrev pub is_selected : Text → FeedConfig → Bool
is_selected name c = c.enabled && (is_empty name || text_eq name c.name)

unfoldable pub selected_feed_exists : Text → List FeedConfig → Bool
selected_feed_exists name feeds =
    is_empty name || exists (λ (c : FeedConfig). text_eq c.name name) feeds

-- A feed whose definition changed is fetched without validators, and without a previous size.
abbrev pub request_of : FeedConfig → FeedRecord → Bool → FetchRequest
request_of c r changed = record {
  url = c.url;
  timeout = c.timeout;
  max_bytes = c.max_download_bytes;
  content_types = c.content_types;
  etag = if changed then [] else r.etag;
  last_modified = if changed then [] else r.last_modified;
}

abbrev pub previous_size : FeedRecord → Bool → ℕ
previous_size r changed = if changed then 0 else r.accepted_entries

module _ (std : Std) (marshal : Marshal) (e : Engine) where
  unfoldable pub definition_hash : FeedConfig → Option Text
  definition_hash c = elim (marshal.feed_config c) [
    | none ↦ none
    | some body ↦ some (std.sha256_hex body)
  ]

  unfoldable pub feed_definitions : List FeedConfig → Option (List FeedDefinition)
  unfolding definition_hash
  feed_definitions [] = some []
  feed_definitions (c ∷ cs) =
      let rest = feed_definitions cs in
      elim (definition_hash c) [
        | none ↦ none
        | some hash ↦ elim rest [
          | none ↦ none
          | some ds ↦ some (
              record {
                name = c.name;
                url_hash = std.sha256_hex c.url;
                definition_hash = hash;
                enabled = c.enabled;
              }
              ∷ ds)
        ]
      ]

  -- The snapshot of a body, and how many of its records were rejected.
  unfoldable pub parse_fetched : FeedConfig → ℕ → Text → ℕ → Checked (Snapshot × ℕ)
  unfolding parse validate
  parse_fetched c accepted body now =
      parse std
        (record {
          family = c.family;
          max_line_bytes = e.max_line_bytes;
          max_malformed_lines = c.max_malformed_lines;
          max_malformed_ratio = c.max_malformed_ratio;
          require_final_newline = c.require_final_newline;
        })
        c.format body
      >>= λ parsed.
          validate std parsed (record {
            expected_min_entries = c.expected_min_entries;
            expected_max_entries = c.expected_max_entries;
            max_growth_ratio = c.max_growth_ratio;
            max_shrink_ratio = c.max_shrink_ratio;
            previous_accepted_entries = pos accepted;
            now = now;
            max_metadata_age = metadata_age c.format;
            max_future_skew = pos (600 * seconds);
          })
          >>= λ snapshot.
              Checked.ok
                (snapshot, parsed.malformed + snapshot.rejected_safety + snapshot.duplicates)

-- What the report says of a feed.
abbrev pub feed_line : FeedConfig → FeedStatus → ℕ → ℕ → ErrorClass → SyncFeed
feed_line c status accepted rejected class = record {
  name = c.name;
  status = status;
  accepted = pos accepted;
  rejected = pos rejected;
  error_class = class;
}

abbrev pub one_more : ℤ → ℤ
one_more n = n +ℤ pos 1

unfoldable pub report_not_due : FeedConfig → Report → Report
report_not_due c r = record r {
  feeds_not_due = one_more r.feeds_not_due;
  feeds = r.feeds ++ feed_line c FeedStatus.not_due 0 0 ErrorClass.unset ∷ [];
}

unfoldable pub report_failed : FeedConfig → ErrorClass → Report → Report
report_failed c class r = record r {
  feeds_failed = one_more r.feeds_failed;
  suspicious_changes =
      if is_suspicious class then one_more r.suspicious_changes else r.suspicious_changes;
  feeds = r.feeds ++ feed_line c FeedStatus.failed 0 0 class ∷ [];
}

unfoldable pub report_unchanged : FeedConfig → FeedRecord → Report → Report
report_unchanged c f r = record r {
  feeds_unchanged = one_more r.feeds_unchanged;
  feeds =
      r.feeds
      ++ feed_line c FeedStatus.unchanged f.accepted_entries f.rejected_entries ErrorClass.unset
        ∷ [];
}

unfoldable pub report_succeeded : FeedConfig → ℕ → ℕ → Report → Report
report_succeeded c accepted rejected r = record r {
  feeds_succeeded = one_more r.feeds_succeeded;
  feeds = r.feeds ++ feed_line c FeedStatus.succeeded accepted rejected ErrorClass.unset ∷ [];
}
