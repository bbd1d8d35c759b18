-- ===== src/Feed/Parser.antt =====
-- internal/feed/parser.go: the parsers of the two kinds of feeds, and `Parse`.
use crowdshield.Feed.Types.{
  ◌>>=◌, Std, Limits, Family, Format, Result, Metadata, RawMetadata, Checked, refuse_if,
}
use crowdshield.Feed.Scan.{scan}
use crowdshield.App.Report.{ErrorClass}
use crowdshield.Network.Normalize.{parse_value, normalize_prefix}
use crowdshield.Prelude.Spaces.{trim_space, fields}
use crowdshield.Prelude.{
  length, bytes, ltb, ◌^◌, text_eq, ◌*◌, ◌++◌, none, is_empty, ◌==◌, some, if◌then◌else◌, ◌+◌, ◌∷◌,
  true, ◌&&◌, false, not, ◌||◌, Bool, ℕ, Text, suc, [], Option, List,
}
use crowdshield.Network.Address.{is4, Prefix}
use crowdshield.Prelude.Int.{eq_ℤ, ltb_ℤ, pos, pos_part}
use crowdshield.Network.Safety.{Kind}

abbrev pub known_family : Family → Bool
known_family (Family.other n) = false
known_family _ = true

unfoldable pub family_matches : Bool → Family → Bool
family_matches prefix_is4 Family.any = true
family_matches prefix_is4 Family.ipv4 = prefix_is4
family_matches prefix_is4 Family.ipv6 = not prefix_is4
family_matches prefix_is4 (Family.other n) = false

-- The bytes before the first '#' or ';'.
unfoldable pub before_comment : Text → Text
before_comment [] = []
before_comment (c ∷ s) = if c == b'#' || c == b';' then [] else c ∷ before_comment s

unfoldable pub strip_comment : Text → Text
unfolding before_comment trim_space
strip_comment line = trim_space (before_comment line)

abbrev pub empty_result : Result
empty_result = record {
  entries = [];
  total_records = 0;
  malformed = 0;
  metadata = record { generated_at = 0; declared_records = pos 0; copyright = []; terms_url = [] };
}

abbrev pub count_malformed : Result → Result
count_malformed r = record r { total_records = suc r.total_records; malformed = suc r.malformed }

abbrev pub add_entry : Prefix × Kind → Result → Result
add_entry (p, k) r = record r {
  total_records = suc r.total_records;
  entries = r.entries ++ record { prefix = p; kind = k } ∷ [];
}

-- The result so far, and whether the metadata have been seen.
pub record Progress : Type 0 where
  pub result : Result
  pub metadata_seen : Bool

module _ (std : Std) (limits : Limits) where
  unfoldable pub valid_limits : Bool
  valid_limits =
      known_family limits.family
      && ltb_ℤ (pos 0) limits.max_line_bytes
      && not (ltb_ℤ limits.max_malformed_lines (pos 0))
      && not (std.floats.is_nan limits.max_malformed_ratio)
      && std.floats.le (std.floats.of_int (pos 0)) limits.max_malformed_ratio
      && std.floats.le limits.max_malformed_ratio (std.floats.of_int (pos 1))

  unfoldable pub malformed_allowed : Result → Bool
  malformed_allowed r =
      if ltb_ℤ limits.max_malformed_lines (pos r.malformed)
      then false
      else if r.total_records == 0
      then r.malformed == 0
      else std.floats.le
          (std.floats.quotient (std.floats.of_int (pos r.malformed))
            (std.floats.of_int (pos r.total_records)))
          limits.max_malformed_ratio

  -- An indicator that was read, or none for an error.
  unfoldable pub add_value : Option (Prefix × Kind) → Result → Result
  unfolding family_matches
  add_value none r = count_malformed r
  add_value (some (p, k)) r =
      if family_matches (is4 p.ip) limits.family then add_entry (p, k) r else count_malformed r

  -- A line with its fields.
  abbrev pub netset_fields : List Text → Result → Result
  netset_fields (field ∷ []) r = add_value (parse_value std.netip field) r
  netset_fields _ r = count_malformed r

  -- What `parseNetset` does with a line.
  unfoldable pub netset_line : Result → Text → Checked Result
  unfolding strip_comment fields parse_value add_value
  netset_line r line =
      let text = strip_comment line in
      Checked.ok (if is_empty text then r else netset_fields (fields text) r)

  unfoldable pub parse_netset : Text → Checked Result
  unfolding scan netset_line malformed_allowed
  parse_netset body =
      scan (pos_part limits.max_line_bytes) netset_line limits.require_final_newline body
        empty_result
      >>= λ r.
          refuse_if (r.total_records == 0) ErrorClass.empty
            (refuse_if (not (malformed_allowed r)) ErrorClass.malformed_threshold (Checked.ok r))

  -- The seconds from Go's zero time to the Unix epoch.
  abbrev pub unix_epoch : ℕ
  unix_epoch = 62135596800

  -- `time.Unix`: past the end of int64 the seconds wrap around to a time long before Go's zero time,
  -- which is 1 here, the oldest time that is not zero.
  abbrev pub unix_time : ℕ → ℕ
  unix_time seconds =
      if ltb (2 ^ 63) (seconds + unix_epoch + 1) then 1 else (seconds + unix_epoch) * 10 ^ 9

  abbrev pub metadata_of : RawMetadata → Metadata
  metadata_of m = record {
    generated_at = unix_time (pos_part m.timestamp);
    declared_records = m.records;
    copyright = m.copyright;
    terms_url = m.terms;
  }

  abbrev pub bad_terms : Option (Text × Text) → Bool
  bad_terms none = true
  bad_terms (some (scheme, host)) = not (text_eq scheme (bytes "https")) || is_empty host

  unfoldable pub bad_metadata : RawMetadata → Bool
  unfolding trim_space
  bad_metadata m =
      bad_terms (std.parse_url m.terms)
      || not (ltb_ℤ (pos 0) m.timestamp)
      || ltb_ℤ m.records (pos 1)
      || is_empty (trim_space m.copyright)
      || ltb 2048 (length m.copyright)
      || ltb 2048 (length m.terms)

  abbrev pub take_metadata : Progress → Option RawMetadata → Checked Progress
  take_metadata p none = Checked.err ErrorClass.metadata
  take_metadata p (some m) = refuse_if (bad_metadata m) ErrorClass.metadata (
      Checked.ok
        (record { result = record p.result { metadata = metadata_of m }; metadata_seen = true }))

  abbrev pub as_range : Option Prefix → Option (Prefix × Kind)
  as_range none = none
  as_range (some p) = some (p, Kind.range)

  abbrev pub cidr_of : Option Text → Option (Prefix × Kind)
  cidr_of none = none
  cidr_of (some cidr) = as_range (normalize_prefix std.netip cidr)

  -- By the type of a record.
  unfoldable pub take_record : Progress → Text → Option Text → Checked Progress
  unfolding bad_metadata normalize_prefix add_value
  take_record p line none = Checked.ok (record p { result = count_malformed p.result })
  take_record p line (some type) =
      if text_eq type (bytes "metadata")
      then refuse_if p.metadata_seen ErrorClass.metadata (take_metadata p (std.raw_metadata line))
      else refuse_if p.metadata_seen ErrorClass.metadata (
          Checked.ok (record p {
            result =
                if not (is_empty type)
                then count_malformed p.result
                else add_value (cidr_of (std.record_cidr line)) p.result;
          }))

  -- What `parseSpamhaus` does with a line.
  unfoldable pub spamhaus_line : Progress → Text → Checked Progress
  unfolding trim_space take_record
  spamhaus_line p line =
      let text = trim_space line in
      if is_empty text then Checked.ok p else take_record p text (std.record_type text)

  unfoldable pub parse_spamhaus : Text → Checked Result
  unfolding scan spamhaus_line malformed_allowed
  parse_spamhaus body =
      scan (pos_part limits.max_line_bytes) spamhaus_line limits.require_final_newline body
        (record { result = empty_result; metadata_seen = false })
      >>= λ p.
          refuse_if
            (not p.metadata_seen
              || not (eq_ℤ p.result.metadata.declared_records (pos p.result.total_records)))
            ErrorClass.metadata
            (refuse_if (not (malformed_allowed p.result)) ErrorClass.malformed_threshold
              (Checked.ok p.result))

  abbrev pub parse_format : Format → Text → Checked Result
  parse_format Format.spamhaus_drop_jsonl body = parse_spamhaus body
  parse_format Format.firehol_netset body = parse_netset body
  parse_format Format.plain body = parse_netset body
  parse_format (Format.other n) body = Checked.err ErrorClass.format

  unfoldable pub parse : Format → Text → Checked Result
  unfolding valid_limits parse_spamhaus parse_netset
  parse format body = refuse_if (not valid_limits) ErrorClass.policy (parse_format format body)
