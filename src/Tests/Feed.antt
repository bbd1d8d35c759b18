-- ===== src/Tests/Feed.antt =====
-- internal/feed at concrete inputs.
use crowdshield.Prelude.{
  ◌*◌, ℕ, ◌+◌, List, arith, false, ◌||◌, none, Bool, leb, ◌^◌, ◌++◌, ltb, [], true, ◌∷◌, exists,
  Text, some, ◌≡◌, refl, bytes,
}
use crowdshield.Feed.Types.{
  Std, Limits, Family, Format, Result, ValidationPolicy, Snapshot, Checked,
}
use crowdshield.Feed.Parser.{parse}
use crowdshield.Feed.Reading.{parse-IsParsed}
use crowdshield.Feed.Lines.{IsParsed}
use crowdshield.Feed.Validate.{same_entry, validate}
use crowdshield.Feed.Snapshots.{validate-IsSnapshot, validate-unordered, IsSnapshot, admitted}
use crowdshield.Feed.Validate.{compare_entry, snapshot_version}
use crowdshield.Network.Safety.{is_safe_prefix, kind_fits}
use crowdshield.State.Tables.{find, valid_hash}
use crowdshield.State.Begun.{is_ok}
use crowdshield.State.Feeds.{EntryRow, FeedRecord, FeedTables, has_name, valid_validator}
use crowdshield.State.Entries.{
  FeedSnapshot, apply_feed_snapshot, valid_snapshot, is_entry, is_present,
}
use crowdshield.State.Fates.{apply_feed_snapshot-fate, fate, life}
use crowdshield.State.Grace.{absent_entry_expires, AllWithout, apply_snapshots}
use crowdshield.State.Storable.{validate-valid_snapshot}
use crowdshield.Ops.FeedName.{match_feed_name}
use crowdshield.Network.Address.{is_global_unicast, overlaps, masked}
use crowdshield.Network.Address.{v4, Addr, Prefix, bit_len, bits}
use crowdshield.Network.Safety.{Kind, quad}
use crowdshield.State.Records.{Entry}
use crowdshield.App.Report.{ErrorClass}
use crowdshield.Prelude.Int.{pos_part, pos}
use mathlib.Core.Path.{subst}
use mathlib.Core.Option.{some-injective}

abbrev host : Addr
host = v4 0x08080808

-- Every address reads as 8.8.8.8, every prefix as 8.8.8.0/24, and a ratio is 0.
abbrev std : Std
std = record {
  netip = record {
    parse_addr = λ raw. some (host, []);
    parse_prefix = λ raw. some (quad 8 8 8 0 24, []);
  };
  prefix_string = λ p. bytes "8.8.8.8/32";
  record_type = λ line. some [];
  raw_metadata = λ line. none;
  record_cidr = λ line. some line;
  parse_url = λ url. none;
  sha256_hex = λ text. text;
  floats = record {
    of_int = λ n. pos_part n;
    quotient = λ a b. 0;
    le = leb;
    lt = ltb;
    is_nan = λ f. false;
    is_inf = λ f. false;
  };
}

abbrev limits : Limits
limits = record {
  family = Family.ipv4;
  max_line_bytes = pos 100;
  max_malformed_lines = pos 1;
  max_malformed_ratio = 1;
  require_final_newline = true;
}

-- A range, a comment, an empty line, a host and a line with two fields.
abbrev body : Text
body =
    bytes "8.8.8.0/24"
    ++ 10 ∷ bytes "# hosts"
    ++ 10 ∷ 10 ∷ bytes " 8.8.8.8 ; dns"
    ++ 13 ∷ 10 ∷ bytes "a b"
    ++ 10 ∷ []

abbrev parsed : Result
parsed = record {
  entries =
      record { prefix = quad 8 8 8 0 24; kind = Kind.range }
      ∷ record { prefix = record { ip = host; bits_plus_one = 33 }; kind = Kind.ip }
      ∷ [];
  total_records = 3;
  malformed = 1;
  metadata = record { generated_at = 0; declared_records = pos 0; copyright = []; terms_url = [] };
}

body_parses : parse std limits Format.firehol_netset body ≡ Checked.ok parsed
unfolding parse
body_parses = refl

short_lines :
    parse std (record limits { max_line_bytes = pos 10 }) Format.plain body
    ≡ Checked.err ErrorClass.line_too_long
unfolding parse
short_lines = refl

unterminated : parse std limits Format.plain (bytes "8.8.8.8") ≡ Checked.err ErrorClass.truncated
unfolding parse
unterminated = refl

known :
    (raw zone : Text) (a : Addr)
    → std.netip.parse_addr raw ≡ some (a, zone)
    → ltb 0 (bit_len a) ≡ true
known raw zone a h =
    subst (λ (x : Addr × Text). ltb 0 (bit_len x.0) ≡ true) (some-injective (host, []) (a, zone) h)
      refl

proper :
    (raw zone : Text) (p : Prefix)
    → std.netip.parse_prefix raw ≡ some (p, zone)
    → leb (bits p) (bit_len p.ip) ≡ true
proper raw zone p h =
    subst (λ (x : Prefix × Text). leb (bits x.0) (bit_len x.0.ip) ≡ true)
      (some-injective (quad 8 8 8 0 24, []) (p, zone) h) refl

parse-IsParsed_example : IsParsed std limits Format.firehol_netset body parsed
parse-IsParsed_example =
    parse-IsParsed std limits known proper Format.firehol_netset body parsed body_parses

abbrev policy : ValidationPolicy
policy = record {
  expected_min_entries = pos 1;
  expected_max_entries = pos 10;
  max_growth_ratio = 2;
  max_shrink_ratio = 1;
  previous_accepted_entries = pos 0;
  now = 10 ^ 18;
  max_metadata_age = pos 0;
  max_future_skew = pos 0;
}

abbrev sorted : Snapshot
sorted = record {
  entries =
      record { prefix = quad 8 8 8 0 24; kind = Kind.range }
      ∷ record { prefix = quad 8 8 8 8 32; kind = Kind.ip }
      ∷ [];
  version = bytes "2:8.8.8.8/32" ++ 10 ∷ bytes "1:8.8.8.8/32" ++ 10 ∷ [];
  raw_entries = 2;
  rejected_safety = 0;
  duplicates = 0;
  metadata = parsed.metadata;
}

parsed_validates : validate std parsed policy ≡ Checked.ok sorted
unfolding validate is_safe_prefix is_global_unicast overlaps kind_fits compare_entry
    snapshot_version
parsed_validates = refl

validate-IsSnapshot_example : IsSnapshot std policy parsed sorted
validate-IsSnapshot_example = validate-IsSnapshot std parsed policy sorted parsed_validates

-- The same indicators the other way round, one of them twice, and a private network.
abbrev shuffled : Result
shuffled = record parsed {
  entries =
      record { prefix = quad 8 8 8 8 32; kind = Kind.ip }
      ∷ record { prefix = quad 10 0 0 0 8; kind = Kind.range }
      ∷ record { prefix = quad 8 8 8 77 24; kind = Kind.range }
      ∷ record { prefix = quad 8 8 8 8 32; kind = Kind.ip }
      ∷ [];
}

abbrev resorted : Snapshot
resorted = record sorted { raw_entries = 4; rejected_safety = 1; duplicates = 1 }

shuffled_validates : validate std shuffled policy ≡ Checked.ok resorted
unfolding validate is_safe_prefix is_global_unicast overlaps kind_fits compare_entry
    snapshot_version
shuffled_validates = refl

same_members :
    (x : Entry)
    → exists (same_entry x) (admitted parsed.entries)
      ≡ exists (same_entry x) (admitted shuffled.entries)
unfolding admitted is_safe_prefix masked is_global_unicast overlaps kind_fits
same_members x =
    or_twice (same_entry x (record { prefix = quad 8 8 8 0 24; kind = Kind.range }))
      (same_entry x (record { prefix = quad 8 8 8 8 32; kind = Kind.ip }))
  where
    or_twice : (a b : Bool) → (a || (b || false)) ≡ (b || (a || (b || false)))
    or_twice true true = refl
    or_twice true false = refl
    or_twice false true = refl
    or_twice false false = refl

validate-unordered_example :
    (sorted.entries ≡ resorted.entries) × (sorted.version ≡ resorted.version)
validate-unordered_example =
    validate-unordered std parsed shuffled policy policy sorted resorted same_members
      parsed_validates shuffled_validates

-- Every digest is this one.
abbrev digest : Text
digest = bytes "0123456789abcdef0123456789abcdef0123456789abcdef0123456789abcdef"

abbrev hashing : Std
hashing = record std { sha256_hex = λ text. digest }

digest_valid : (text : Text) → valid_hash (hashing.sha256_hex text) ≡ true
unfolding valid_hash
digest_valid text = refl

abbrev hashed : Snapshot
hashed = record sorted { version = digest }

parsed_hashes : validate hashing parsed policy ≡ Checked.ok hashed
unfolding validate is_safe_prefix is_global_unicast overlaps kind_fits compare_entry
    snapshot_version
parsed_hashes = refl

abbrev stored : FeedSnapshot
stored = record {
  version = digest;
  etag = bytes "e1";
  last_modified = [];
  entries = hashed.entries;
  rejected = pos 1;
}

validate-valid_snapshot_example : valid_snapshot stored (pos 3) ≡ true
validate-valid_snapshot_example =
    validate-valid_snapshot hashing parsed policy hashed (bytes "e1") [] 1 3 digest_valid
      parsed_hashes (omega arith) (omega arith) (unfold valid_validator in refl)
      (unfold valid_validator in refl)

-- A feed with an entry that its next three snapshots lack.
abbrev feed : FeedRecord
feed = record {
  id = pos 1;
  name = bytes "drop";
  url_hash = digest;
  definition_hash = digest;
  enabled = true;
  etag = [];
  last_modified = [];
  last_attempt = none;
  last_success = none;
  last_good_version = digest;
  accepted_entries = 1;
  rejected_entries = 0;
  consecutive_failures = 0;
  next_attempt = none;
  last_error_category = [];
}

abbrev gone : Entry
gone = record { prefix = quad 9 9 9 9 32; kind = Kind.ip }

abbrev gone_row : EntryRow
gone_row = record {
  feed_id = pos 1;
  entry = gone;
  first_seen_at = 1;
  last_seen_at = 1;
  missing_runs = 1;
  active = true;
}

abbrev tables : FeedTables
tables = record { feeds = feed ∷ []; entries = gone_row ∷ [] }

stored_applies :
    is_ok (apply_feed_snapshot true (bytes "drop") stored (pos 3) (10 ^ 12) tables).0 ≡ true
unfolding apply_feed_snapshot match_feed_name valid_hash is_safe_prefix masked is_global_unicast
    overlaps kind_fits
stored_applies = refl

apply_feed_snapshot-fate_example :
    ((r' : EntryRow) × (find
          (is_entry feed.id gone)
          (apply_feed_snapshot true (bytes "drop") stored (pos 3) (10 ^ 12) tables).1.entries
        ≡ some r')
      × (life r' ≡ fate 3 (is_present stored.entries gone) gone_row))
    × ((f' : FeedRecord) × (find
            (has_name (bytes "drop"))
            (apply_feed_snapshot true (bytes "drop") stored (pos 3) (10 ^ 12) tables).1.feeds
          ≡ some f')
        × (f'.id ≡ feed.id))
apply_feed_snapshot-fate_example =
    apply_feed_snapshot-fate (bytes "drop") stored (pos 3) (10 ^ 12) tables feed gone gone_row
      (unfold find in refl) (unfold find in refl) stored_applies

abbrev runs : List (FeedSnapshot × ℕ)
runs = (stored, 10 ^ 12) ∷ (stored, 2 * 10 ^ 12) ∷ []

gone_stays_away : AllWithout (bytes "drop") (pos 3) gone runs tables
unfolding apply_feed_snapshot match_feed_name valid_hash is_safe_prefix masked is_global_unicast
    overlaps kind_fits is_present
gone_stays_away = (refl, refl, (refl, refl, tt))

absent_entry_expires_example :
    (r' : EntryRow) × (find
        (is_entry feed.id gone)
        (apply_snapshots (bytes "drop") (pos 3) runs tables).entries
      ≡ some r')
    × (r'.active ≡ ltb (1 + 2) 3)
absent_entry_expires_example =
    absent_entry_expires (bytes "drop") (pos 3) gone runs tables feed gone_row (unfold find in refl)
      (unfold find in refl) refl (omega arith) gone_stays_away
