-- ===== src/State/Feeds.antt =====
-- internal/state/feed_repository.go: the feeds and what a call writes of them. A row has its times in
-- seconds, a record of the package the same times in nanoseconds. `works` is as in Operations.
use crowdshield.State.Tables.{
  find, update, affected, unix, valid_hash, valid_category, ErrorCategory, Result,
}
use crowdshield.State.Verification.{highest}
use crowdshield.Ops.FeedName.{match_feed_name}
use crowdshield.State.Records.{Entry}
use crowdshield.Prelude.Int.{pos, ℤ}
use crowdshield.Prelude.{
  ltb, ◌^◌, ◌++◌, ◌||◌, not, exists, ◌*◌, is_empty, suc, ◌==◌, none, length, map, if◌then◌else◌,
  some, true, ◌&&◌, text_eq, ◌∷◌, leb, [], Bool, Option, false, List, Text, ℕ,
}

pub record FeedDefinition : Type 0 where
  pub name : Text
  pub url_hash : Text
  pub definition_hash : Text
  pub enabled : Bool

pub record FeedRecord : Type 0 where
  pub id : ℤ
  pub name : Text
  pub url_hash : Text
  pub definition_hash : Text
  pub enabled : Bool
  pub etag : Text
  pub last_modified : Text
  pub last_attempt : Option ℕ
  pub last_success : Option ℕ
  pub last_good_version : Text
  pub accepted_entries : ℕ
  pub rejected_entries : ℕ
  pub consecutive_failures : ℕ
  pub next_attempt : Option ℕ
  pub last_error_category : Text

-- A row of feed_entries, whose key is the feed, the prefix and the kind.
pub record EntryRow : Type 0 where
  pub feed_id : ℤ
  pub entry : Entry
  pub first_seen_at : ℕ
  pub last_seen_at : ℕ
  pub missing_runs : ℕ
  pub active : Bool

pub record FeedTables : Type 0 where
  pub feeds : List FeedRecord
  pub entries : List EntryRow

abbrev pub FeedAnswer : Type 0 → Type 0
FeedAnswer A = Result A × FeedTables

unfoldable pub valid_feed_definition : FeedDefinition → Bool
unfolding valid_hash
valid_feed_definition d =
    leb (length d.name) 64
    && match_feed_name d.name
    && valid_hash d.url_hash
    && valid_hash d.definition_hash

-- The loop over the definitions that `EnsureFeeds` starts with.
unfoldable pub valid_definitions : List Text → List FeedDefinition → Bool
unfolding valid_feed_definition
valid_definitions seen [] = true
valid_definitions seen (d ∷ ds) =
    valid_feed_definition d
    && not (exists (text_eq d.name) seen)
    && valid_definitions (d.name ∷ seen) ds

abbrev pub has_name : Text → FeedRecord → Bool
has_name name f = text_eq f.name name

abbrev pub seconds_time : Option ℕ → Option ℕ
seconds_time none = none
seconds_time (some s) = some (s * 10 ^ 9)

unfoldable pub scan_feed : FeedRecord → FeedRecord
scan_feed row = record row {
  last_attempt = seconds_time row.last_attempt;
  last_success = seconds_time row.last_success;
  next_attempt = seconds_time row.next_attempt;
}

abbrev pub new_feed : ℤ → FeedDefinition → FeedRecord
new_feed id d = record {
  id = id;
  name = d.name;
  url_hash = d.url_hash;
  definition_hash = d.definition_hash;
  enabled = d.enabled;
  etag = [];
  last_modified = [];
  last_attempt = none;
  last_success = none;
  last_good_version = [];
  accepted_entries = 0;
  rejected_entries = 0;
  consecutive_failures = 0;
  next_attempt = none;
  last_error_category = [];
}

abbrev pub feed_key : FeedRecord → ℤ
feed_key f = f.id

abbrev pub redefined : FeedDefinition → FeedRecord → FeedRecord
redefined d f = record f {
  url_hash = d.url_hash;
  definition_hash = d.definition_hash;
  enabled = d.enabled;
}

-- `INSERT ... ON CONFLICT(name) DO UPDATE`
unfoldable pub upsert_feed : FeedDefinition → List FeedRecord → List FeedRecord
unfolding update highest
upsert_feed d rows =
    if exists (has_name d.name) rows
    then update (has_name d.name) (redefined d) rows
    else rows ++ new_feed (pos (suc (highest (map feed_key rows)))) d ∷ []

unfoldable pub upsert_feeds : List FeedDefinition → List FeedRecord → List FeedRecord
unfolding upsert_feed
upsert_feeds [] rows = rows
upsert_feeds (d ∷ ds) rows = upsert_feeds ds (upsert_feed d rows)

abbrev pub disabled : FeedRecord → FeedRecord
disabled f = record f { enabled = false }

abbrev pub prepend : FeedRecord → Option (List FeedRecord) → Option (List FeedRecord)
prepend f none = none
prepend f (some fs) = some (f ∷ fs)

-- The loop that reads the feeds back; none where one is not there.
unfoldable pub read_feeds : List FeedDefinition → List FeedRecord → Option (List FeedRecord)
unfolding find scan_feed
read_feeds [] rows = some []
read_feeds (d ∷ ds) rows =
    let rest = read_feeds ds rows in
    elim (find (has_name d.name) rows) [ none ↦ none | some f ↦ prepend (scan_feed f) rest ]

unfoldable pub ensure_feeds :
    Bool → List FeedDefinition → ℕ → FeedTables → FeedAnswer (List FeedRecord)
unfolding valid_definitions upsert_feeds read_feeds
ensure_feeds works definitions now t =
    let rows = upsert_feeds definitions (map disabled t.feeds) in
    if length definitions == 0 || now == 0 || not (valid_definitions [] definitions)
    then (Result.err ErrorCategory.constraint, t)
    else if not works
    then (Result.err ErrorCategory.transaction, t)
    else elim (read_feeds definitions rows) [
      | none ↦ (Result.err ErrorCategory.query, t)
      | some records ↦ (Result.ok records, record t { feeds = rows })
    ]

unfoldable pub valid_validator : Text → ℕ → Bool
valid_validator value high =
    leb (length value) high && not (exists (λ c. c == 13 || c == 10 || c == 0) value)

-- After an update of the feeds: exactly one row must have changed.
abbrev pub one_feed_changed : ErrorCategory → ℕ → FeedTables → FeedAnswer (Unit {0})
one_feed_changed c n t = (if n == 1 then Result.ok tt else Result.err c, t)

abbrev pub failed_feed : Text → ℕ → ℕ → FeedRecord → FeedRecord
failed_feed category now next f = record f {
  last_attempt = some (unix now);
  consecutive_failures = suc f.consecutive_failures;
  next_attempt = some (unix next);
  last_error_category = category;
}

unfoldable pub record_feed_failure : Bool → Text → Text → ℕ → ℕ → FeedTables → FeedAnswer (Unit {0})
unfolding valid_category update affected
record_feed_failure works name category now next t =
    if not (match_feed_name name) || not (valid_category category) || now == 0 || ltb next now
    then (Result.err ErrorCategory.constraint, t)
    else if not works
    then (Result.err ErrorCategory.query, t)
    else one_feed_changed ErrorCategory.not_found (affected (has_name name) t.feeds)
        (record t { feeds = update (has_name name) (failed_feed category now next) t.feeds })

-- `last_good_version<>''`
abbrev pub has_content : Text → FeedRecord → Bool
has_content name f = has_name name f && not (is_empty f.last_good_version)

abbrev pub not_modified_feed : Text → Text → ℕ → FeedRecord → FeedRecord
not_modified_feed etag last_modified now f = record f {
  etag = if is_empty etag then f.etag else etag;
  last_modified = if is_empty last_modified then f.last_modified else last_modified;
  last_attempt = some (unix now);
  last_success = some (unix now);
  consecutive_failures = 0;
  next_attempt = none;
  last_error_category = [];
}

unfoldable pub record_feed_not_modified :
    Bool → Text → Text → Text → ℕ → FeedTables → FeedAnswer (Unit {0})
unfolding valid_validator update affected
record_feed_not_modified works name etag last_modified now t =
    if not (match_feed_name name)
      || now == 0
      || not (valid_validator etag 256)
      || not (valid_validator last_modified 128)
    then (Result.err ErrorCategory.constraint, t)
    else if not works
    then (Result.err ErrorCategory.query, t)
    else one_feed_changed ErrorCategory.constraint (affected (has_content name) t.feeds) (record t {
      feeds = update (has_content name) (not_modified_feed etag last_modified now) t.feeds;
    })

unfoldable pub feed_by_name : Bool → Text → FeedTables → Result FeedRecord
unfolding find scan_feed
feed_by_name works name t =
    if not (match_feed_name name)
    then Result.err ErrorCategory.constraint
    else if not works
    then Result.err ErrorCategory.query
    else elim (find (has_name name) t.feeds) [
      | none ↦ Result.err ErrorCategory.not_found
      | some f ↦ Result.ok (scan_feed f)
    ]
