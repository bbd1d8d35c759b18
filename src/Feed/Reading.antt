-- ===== src/Feed/Reading.antt =====
-- What a body that was parsed says, line by line.
use crowdshield.Feed.Lines.{
  texts_of, number_of, values_of, is_record, is_metadata, of_family, sole_field, typed_entry,
  entry_at, IsParsed, listed, Adds, IsRead, scan-read,
}
use crowdshield.Prelude.{
  inr, ◌||◌, ◌==◌, inl, Bool-cases, leb, sym, ltb, arith, bytes, text_eq, is_empty, false, not,
  none, if◌then◌else◌, ◌≡◌, some, true, Text, List, Option, Bool, refl, [], ◌∷◌,
}
use mathlib.Core.List.{append-nil}
use crowdshield.Feed.Types.{RawMetadata, Std, Limits, Format, Result, Checked}
use crowdshield.Feed.Scan.{scan}
use crowdshield.Feed.Parser.{
  add_entry, Progress, parse, parse_format, parse_netset, parse_spamhaus, netset_line,
  netset_fields, spamhaus_line, take_record, take_metadata, add_value, cidr_of, strip_comment,
  family_matches, malformed_allowed, count_malformed, empty_result, valid_limits, bad_metadata,
}
use crowdshield.Feed.Parsed.{err-ne-ok, ok-injective, refuse_if-ok, >>=-ok, parse-IsSuited}
use crowdshield.Network.Address.{bits, bit_len, Addr, is4, Prefix}
use crowdshield.Prelude.Spaces.{fields, trim_space}
use crowdshield.Network.Normalize.{parse_value}
use crowdshield.Network.Safety.{Kind}
use crowdshield.App.Report.{ErrorClass}
use mathlib.Core.Path.{subst}
use crowdshield.Prelude.Int.{eq_ℤ, pos_part, pos, ltb_ℤ}

module _ (std : Std) (limits : Limits) where
  nothing-Adds : (r : Result) → Adds 0 [] r r
  nothing-Adds r = (omega arith, sym (append-nil r.entries))

  count_malformed-Adds : (r : Result) → Adds 1 [] r (count_malformed r)
  count_malformed-Adds r = (omega arith, sym (append-nil r.entries))

  add_value-Adds :
      (x : Option (Prefix × Kind)) (r : Result)
      → Adds 1 (listed (of_family std limits x)) r (add_value std limits x r)
  unfolding add_value
  add_value-Adds none r = count_malformed-Adds r
  add_value-Adds (some (p, k)) r = by_test (family_matches (is4 p.ip) limits.family)
    where
      by_test :
          (b : Bool)
          → Adds 1
              (listed (if b then some (record { prefix = p; kind = k }) else none))
              r
              (if b then add_entry (p, k) r else count_malformed r)
      by_test true = (omega arith, refl)
      by_test false = count_malformed-Adds r

  netset_fields-Adds :
      (fs : List Text) (r : Result)
      → Adds 1 (listed (sole_field std limits fs)) r (netset_fields std limits fs r)
  netset_fields-Adds [] r = count_malformed-Adds r
  netset_fields-Adds (f ∷ []) r = add_value-Adds (parse_value std.netip f) r
  netset_fields-Adds (f ∷ g ∷ fs) r = count_malformed-Adds r

  stripped-Adds :
      (t : Text) (r : Result)
      → Adds
          (if not (is_empty t) then 1 else 0)
          (listed (sole_field std limits (fields t)))
          r
          (if is_empty t then r else netset_fields std limits (fields t) r)
  unfolding fields
  stripped-Adds [] r = nothing-Adds r
  stripped-Adds (c ∷ s) r = netset_fields-Adds (fields (c ∷ s)) r

  netset_line-Adds :
      (r r' : Result) (line : Text)
      → netset_line std limits r line ≡ Checked.ok r'
      → Adds
          (if not (is_empty (strip_comment line)) then 1 else 0)
          (listed (sole_field std limits (fields (strip_comment line))))
          r
          r'
  unfolding netset_line
  netset_line-Adds r r' line h =
      subst
        (Adds (if not (is_empty (strip_comment line)) then 1 else 0)
          (listed (sole_field std limits (fields (strip_comment line)))) r)
        (ok-injective _ r' h) (stripped-Adds (strip_comment line) r)

  take_record-Adds :
      (p p' : Progress) (line : Text) (type : Option Text)
      → take_record std limits p line type ≡ Checked.ok p'
      → Adds
          (if not (is_metadata type) then 1 else 0)
          (listed (typed_entry std limits line type))
          p.result
          p'.result
  unfolding take_record
  take_record-Adds p p' line none h =
      subst (λ (q : Progress). Adds 1 [] p.result q.result) (ok-injective _ p' h)
        (count_malformed-Adds p.result)
  take_record-Adds p p' line (some []) h =
      let (_, g) = refuse_if-ok p.metadata_seen ErrorClass.metadata _ p' h in
      subst
        (λ (q : Progress).
          Adds 1 (listed (of_family std limits (cidr_of std limits (std.record_cidr line))))
            p.result q.result)
        (ok-injective _ p' g) (add_value-Adds (cidr_of std limits (std.record_cidr line)) p.result)
  take_record-Adds p p' line (some (c ∷ s)) h =
      elim (Bool-cases (text_eq (c ∷ s) (bytes "metadata"))) [
        | inl y ↦
            let (_, g) =
              refuse_if-ok p.metadata_seen ErrorClass.metadata _ p' (rw (y, take_record) at h) in
            rw y (taken (std.raw_metadata line) g)
        | inr n ↦
            let (_, g) =
              refuse_if-ok p.metadata_seen ErrorClass.metadata _ p' (rw (n, take_record) at h) in
            rw n (
              subst (λ (q : Progress). Adds 1 [] p.result q.result) (ok-injective _ p' g)
                (count_malformed-Adds p.result))
      ]
    where
      taken :
          (x : Option RawMetadata)
          → take_metadata std limits p x ≡ Checked.ok p'
          → Adds 0 [] p.result p'.result
      taken none g = absurd (err-ne-ok ErrorClass.metadata p' g)
      taken (some m) g =
          let (_, k) = refuse_if-ok (bad_metadata std limits m) ErrorClass.metadata _ p' g in
          subst (λ (q : Progress). Adds 0 [] p.result q.result) (ok-injective _ p' k)
            (nothing-Adds p.result)

  spamhaus_line-IsRead :
      (p p' : Progress) (line : Text)
      → spamhaus_line std limits p line ≡ Checked.ok p'
      → IsRead std limits Format.spamhaus_drop_jsonl line p.result p'.result
  unfolding spamhaus_line
  spamhaus_line-IsRead p p' line h = elim (Bool-cases (is_empty (trim_space line))) [
    | inl y ↦ rw y (
        subst (λ (q : Progress). Adds 0 [] p.result q.result)
          (ok-injective p p' (rw (y, spamhaus_line) at h)) (nothing-Adds p.result))
    | inr n ↦ rw n (
        take_record-Adds p p' (trim_space line) (std.record_type (trim_space line))
          (rw (n, spamhaus_line) at h))
  ]

  -- What the two parsers give, over the lines of the body.
  abbrev Reads : Format → Text → Result → Type 0
  Reads format body r =
      (r.total_records ≡ number_of (is_record std format) (texts_of body))
      × (r.entries ≡ values_of (entry_at std limits format) (texts_of body))

  netset-Reads :
      (format : Format)
      → ((r r' : Result) (line : Text)
          → netset_line std limits r line ≡ Checked.ok r'
          → IsRead std limits format line r r')
      → (body : Text) (r : Result) → parse_netset std limits body ≡ Checked.ok r
      → Reads format body r
  unfolding parse_netset
  netset-Reads format step body r h =
      let (m, e, g) =
        >>=-ok
          (scan (pos_part limits.max_line_bytes) (netset_line std limits)
            limits.require_final_newline body empty_result)
          _ r h in
      let (_, k) = refuse_if-ok (m.total_records == 0) ErrorClass.empty _ r g in
      let (_, l) =
        refuse_if-ok (not (malformed_allowed std limits m)) ErrorClass.malformed_threshold
          (Checked.ok m) r k in
      let (total, entries) =
        scan-read std limits format (λ r. r) (pos_part limits.max_line_bytes)
          (netset_line std limits) step limits.require_final_newline body empty_result m e in
      subst (Reads format body) (ok-injective m r l) (omega (arith, total), entries)

  spamhaus-Reads :
      (body : Text) (r : Result)
      → parse_spamhaus std limits body ≡ Checked.ok r
      → Reads Format.spamhaus_drop_jsonl body r
  unfolding parse_spamhaus
  spamhaus-Reads body r h =
      let start : Progress = record { result = empty_result; metadata_seen = false } in
      let (m, e, g) =
        >>=-ok
          (scan (pos_part limits.max_line_bytes) (spamhaus_line std limits)
            limits.require_final_newline body start)
          _ r h in
      let (_, k) =
        refuse_if-ok
          (not m.metadata_seen
            || not (eq_ℤ m.result.metadata.declared_records (pos m.result.total_records)))
          ErrorClass.metadata _ r g in
      let (_, l) =
        refuse_if-ok (not (malformed_allowed std limits m.result)) ErrorClass.malformed_threshold
          (Checked.ok m.result) r k in
      let (total, entries) =
        scan-read std limits Format.spamhaus_drop_jsonl (λ (p : Progress). p.result)
          (pos_part limits.max_line_bytes) (spamhaus_line std limits) spamhaus_line-IsRead
          limits.require_final_newline body start m e in
      subst (Reads Format.spamhaus_drop_jsonl body) (ok-injective m.result r l)
        (omega (arith, total), entries)

  parse-Reads :
      (format : Format) (body : Text) (r : Result)
      → parse std limits format body ≡ Checked.ok r
      → Reads format body r
  unfolding parse
  parse-Reads format body r h =
      by_format format (refuse_if-ok (not (valid_limits std limits)) ErrorClass.policy _ r h).1
    where
      by_format : (f : Format) → parse_format std limits f body ≡ Checked.ok r → Reads f body r
      by_format Format.spamhaus_drop_jsonl g = spamhaus-Reads body r g
      by_format Format.firehol_netset g =
          netset-Reads Format.firehol_netset netset_line-Adds body r g
      by_format Format.plain g = netset-Reads Format.plain netset_line-Adds body r g
      by_format (Format.other n) g = absurd (err-ne-ok ErrorClass.format r g)

  allowed-limits :
      (r : Result)
      → malformed_allowed std limits r ≡ true
      → (ltb_ℤ limits.max_malformed_lines (pos r.malformed) ≡ false)
        × ((r.total_records == 0
              || std.floats.le
                  (std.floats.quotient
                    (std.floats.of_int (pos r.malformed))
                    (std.floats.of_int (pos r.total_records)))
                  limits.max_malformed_ratio)
            ≡ true)
  unfolding malformed_allowed
  allowed-limits r h =
      within (ltb_ℤ limits.max_malformed_lines (pos r.malformed)) (r.total_records == 0) _ _ h
    where
      within :
          (a b c d : Bool)
          → (if a then false else if b then c else d) ≡ true
          → (a ≡ false) × ((b || d) ≡ true)
      within a b c d h = (ground (arith, h), ground (arith, h))

  -- Where net/netip returns known addresses, and prefixes that are not longer than their addresses, of
  -- a body that `Parse` accepts: the records are the lines that are not empty without comment and
  -- space, less those of type "metadata" of a Spamhaus feed; the entries are those that these lines
  -- have, in their order, a line having one where its only field (of a Spamhaus feed, the range of a
  -- record without type) is an indicator of the family that is asked for; the other records are
  -- counted as malformed, and these are within the limits in number and in ratio; every entry passes
  -- `ValidateKind`; and a Spamhaus feed has as many records as its metadata declare, another feed at
  -- least one.
  pub parse-IsParsed :
      (known : (raw zone : Text) (a : Addr)
        → std.netip.parse_addr raw ≡ some (a, zone)
        → ltb 0 (bit_len a) ≡ true)
      (proper : (raw zone : Text) (p : Prefix)
        → std.netip.parse_prefix raw ≡ some (p, zone)
        → leb (bits p) (bit_len p.ip) ≡ true)
      (format : Format) (body : Text) (r : Result)
      → parse std limits format body ≡ Checked.ok r
      → IsParsed std limits format body r
  parse-IsParsed known proper format body r h =
      let (total, entries) = parse-Reads format body r h in
      let suited = parse-IsSuited std limits known proper format body r h in
      let (few, small) = allowed-limits r suited.few_malformed in
      record {
        total = total;
        entries = entries;
        malformed = omega (arith, suited.counted.total);
        few_lines = few;
        small_ratio = small;
        suited = suited;
      }
