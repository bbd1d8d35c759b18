-- ===== src/State/Entries.antt =====
-- internal/state/feed_repository.go: `ApplyFeedSnapshot`.
use crowdshield.State.Tables.{find, update, affected, unix, valid_hash, ErrorCategory, Result}
use crowdshield.State.Feeds.{
  EntryRow, FeedTables, FeedAnswer, FeedRecord, has_name, valid_validator,
}
use crowdshield.Feed.Validate.{masked_entry, admissible, same_entry}
use crowdshield.State.Records.{Entry}
use crowdshield.Prelude.Int.{pos, ltb_ℤ, pos_part, eq_ℤ, ℤ}
use crowdshield.Prelude.{
  ◌==◌, ◌+◌, [], ◌++◌, ◌||◌, not, exists, none, length, ◌∷◌, leb, List, if◌then◌else◌, some, true,
  ◌&&◌, Bool, Option, suc, false, Text, ℕ,
}
use crowdshield.Network.Address.{masked}
use crowdshield.Ops.FeedName.{match_feed_name}

pub record FeedSnapshot : Type 0 where
  pub version : Text
  pub etag : Text
  pub last_modified : Text
  pub entries : List Entry
  pub rejected : ℤ

pub record SnapshotResult : Type 0 where
  pub added : ℕ
  pub reactivated : ℕ
  pub missing : ℕ
  pub deactivated : ℕ

-- The loop of `validateSnapshot`.
unfoldable pub valid_entries : List Entry → List Entry → Bool
unfolding admissible masked
valid_entries seen [] = true
valid_entries seen (e ∷ es) =
    admissible (masked_entry e)
    && not (exists (same_entry (masked_entry e)) seen)
    && valid_entries (masked_entry e ∷ seen) es

-- `validateSnapshot(...) == nil`
unfoldable pub valid_snapshot : FeedSnapshot → ℤ → Bool
unfolding valid_hash valid_validator valid_entries
valid_snapshot s grace =
    if not (valid_hash s.version)
      || ltb_ℤ grace (pos 1)
      || ltb_ℤ (pos 100) grace
      || ltb_ℤ s.rejected (pos 0)
      || not (valid_validator s.etag 256)
      || not (valid_validator s.last_modified 128)
    then false
    else valid_entries [] s.entries

abbrev pub of_feed : ℤ → EntryRow → Bool
of_feed id r = eq_ℤ r.feed_id id

-- The row of an entry of a feed.
abbrev pub is_entry : ℤ → Entry → EntryRow → Bool
is_entry id e r = of_feed id r && same_entry e r.entry

abbrev pub active_of_feed : ℤ → EntryRow → Bool
active_of_feed id r = of_feed id r && r.active

-- `UPDATE feed_entries SET missing_runs=missing_runs+1`
abbrev pub one_more_missing : EntryRow → EntryRow
one_more_missing r = record r { missing_runs = suc r.missing_runs }

abbrev pub new_entry : ℤ → Entry → ℕ → EntryRow
new_entry id e now = record {
  feed_id = id;
  entry = e;
  first_seen_at = unix now;
  last_seen_at = unix now;
  missing_runs = 0;
  active = true;
}

abbrev pub seen_again : ℕ → EntryRow → EntryRow
seen_again now r = record r { last_seen_at = unix now; missing_runs = 0; active = true }

-- `INSERT ... ON CONFLICT(feed_id, prefix, kind) DO UPDATE`
unfoldable pub upsert_entry : ℤ → ℕ → Entry → List EntryRow → List EntryRow
unfolding update
upsert_entry id now e rows =
    if exists (is_entry id e) rows
    then update (is_entry id e) (seen_again now) rows
    else rows ++ new_entry id e now ∷ []

-- The loop over the entries of the snapshot: the rows.
unfoldable pub upsert_entries : ℤ → ℕ → List Entry → List EntryRow → List EntryRow
unfolding upsert_entry masked
upsert_entries id now [] rows = rows
upsert_entries id now (e ∷ es) rows =
    upsert_entries id now es (upsert_entry id now (masked_entry e) rows)

abbrev pub is_inactive : Option EntryRow → Bool
is_inactive none = false
is_inactive (some r) = not r.active

abbrev pub is_new : Option EntryRow → Bool
is_new none = true
is_new (some r) = false

-- The loop: how many entries the rows of before lack, and how many they have as inactive.
unfoldable pub count_added : ℤ → List EntryRow → List Entry → ℕ
unfolding find masked
count_added id existing [] = 0
count_added id existing (e ∷ es) =
    (if is_new (find (is_entry id (masked_entry e)) existing) then 1 else 0)
    + count_added id existing es

unfoldable pub count_reactivated : ℤ → List EntryRow → List Entry → ℕ
unfolding find masked
count_reactivated id existing [] = 0
count_reactivated id existing (e ∷ es) =
    (if is_inactive (find (is_entry id (masked_entry e)) existing) then 1 else 0)
    + count_reactivated id existing es

-- Whether a snapshot has the entry of a row.
unfoldable pub is_present : List Entry → Entry → Bool
unfolding masked
is_present es e = exists (λ x. same_entry (masked_entry x) e) es

abbrev pub is_missing : ℤ → List Entry → EntryRow → Bool
is_missing id es r = active_of_feed id r && not (is_present es r.entry)

abbrev pub is_overdue : ℤ → ℕ → EntryRow → Bool
is_overdue id grace r = active_of_feed id r && leb grace r.missing_runs

abbrev pub deactivated_entry : EntryRow → EntryRow
deactivated_entry r = record r { active = false }

-- The rows when the entries of a snapshot have been written, and when the overdue ones are inactive.
unfoldable pub written_entries : ℤ → ℕ → List Entry → List EntryRow → List EntryRow
unfolding update upsert_entries
written_entries id now es rows =
    upsert_entries id now es (update (active_of_feed id) one_more_missing rows)

unfoldable pub settled_entries : ℤ → ℕ → ℕ → List Entry → List EntryRow → List EntryRow
unfolding written_entries
settled_entries id grace now es rows =
    update (is_overdue id grace) deactivated_entry (written_entries id now es rows)

abbrev pub is_feed_id : ℤ → FeedRecord → Bool
is_feed_id id f = eq_ℤ f.id id

abbrev pub refreshed_feed : FeedSnapshot → ℕ → FeedRecord → FeedRecord
refreshed_feed s now f = record f {
  etag = s.etag;
  last_modified = s.last_modified;
  last_attempt = some (unix now);
  last_success = some (unix now);
  last_good_version = s.version;
  accepted_entries = length s.entries;
  rejected_entries = pos_part s.rejected;
  consecutive_failures = 0;
  next_attempt = none;
  last_error_category = [];
}

-- `ApplyFeedSnapshot` for a feed that was found.
unfoldable pub write_snapshot :
    FeedSnapshot → ℕ → ℕ → FeedTables → FeedRecord → FeedAnswer SnapshotResult
unfolding settled_entries affected is_present count_added count_reactivated
write_snapshot s grace now t f = (
  Result.ok (record {
    added = count_added f.id t.entries s.entries;
    reactivated = count_reactivated f.id t.entries s.entries;
    missing = affected (is_missing f.id s.entries) t.entries;
    deactivated = affected (is_overdue f.id grace) (written_entries f.id now s.entries t.entries);
  }),
  record {
    feeds = update (is_feed_id f.id) (refreshed_feed s now) t.feeds;
    entries = settled_entries f.id grace now s.entries t.entries;
  },
)

unfoldable pub apply_feed_snapshot :
    Bool → Text → FeedSnapshot → ℤ → ℕ → FeedTables → FeedAnswer SnapshotResult
unfolding valid_snapshot write_snapshot find
apply_feed_snapshot works name s grace now t =
    if not (match_feed_name name) || now == 0
    then (Result.err ErrorCategory.constraint, t)
    else if not (valid_snapshot s grace)
    then (Result.err ErrorCategory.constraint, t)
    else if not works
    then (Result.err ErrorCategory.transaction, t)
    else elim (find (has_name name) t.feeds) [
      | none ↦ (Result.err ErrorCategory.not_found, t)
      | some f ↦ write_snapshot s (pos_part grace) now t f
    ]
