-- ===== src/Feed/Parsed.antt =====
-- What a body that was parsed gives.
use crowdshield.Prelude.{
  bytes, text_eq, ◌||◌, ◌==◌, if◌then◌else◌, ltb, ◌<◌, none, inr, All-append, length-append, not,
  leb, ◌∷◌, ◌&&◌, inl, is_empty, All, Bool-cases, ◌+◌, some, List, [], arith, true, false, length,
  Text, Option, ℕ, Bool, ◌≡◌, refl,
}
use crowdshield.Feed.Types.{RawMetadata, Std, Limits, Format, Result, Checked, refuse_if, ◌>>=◌}
use crowdshield.Feed.Scan.{ends_in_newline, scan, scan_lines, lines_from, line_text}
use crowdshield.Feed.Parser.{
  bad_metadata, valid_limits, as_range, take_metadata, parse_format, strip_comment, parse_netset,
  take_record, parse, netset_line, spamhaus_line, netset_fields, cidr_of, Progress, parse_spamhaus,
  empty_result, count_malformed, add_value, family_matches, malformed_allowed,
}
use crowdshield.State.Records.{Entry}
use crowdshield.App.Report.{ErrorClass}
use crowdshield.Network.Safety.{Kind, kind_fits}
use crowdshield.Network.Address.{bits, bit_len, Addr, is4, Prefix}
use crowdshield.Prelude.Int.{eq_ℤ→eq, eq_ℤ, pos_part, pos}
use mathlib.Core.Path.{subst}
use crowdshield.Prelude.Spaces.{fields, trim_space, utf8_valid}
use crowdshield.Network.Normalize.{normalize_prefix, parse_value}
use crowdshield.Network.Masking.{normalize_prefix-fits, parse_value-fits}
use mathlib.Core.Option.{some-injective}

pub ok-injective : {A : Type 0} (a b : A) → Checked.ok a ≡ Checked.ok b → a ≡ b
ok-injective a b h = cc

pub err-ne-ok : {A : Type 0} (c : ErrorClass) (a : A) → ¬ (Checked.err c ≡ Checked.ok a)
err-ne-ok c a h = cc

pub refuse_if-ok :
    {A : Type 0} (t : Bool) (c : ErrorClass) (k : Checked A) (a : A)
    → refuse_if t c k ≡ Checked.ok a
    → (t ≡ false) × (k ≡ Checked.ok a)
refuse_if-ok true c k a h = absurd (err-ne-ok c a h)
refuse_if-ok false c k a h = (refl, h)

pub >>=-ok :
    {A B : Type 0} (m : Checked A) (f : A → Checked B) (b : B)
    → (m >>= f) ≡ Checked.ok b
    → (a : A) × (m ≡ Checked.ok a) × (f a ≡ Checked.ok b)
>>=-ok (Checked.ok a) f b h = (a, refl, h)
>>=-ok (Checked.err c) f b h = absurd (err-ne-ok c b h)

-- What every line keeps, the scan keeps.
module _ {S : Type 0} (P : S → Type 0) (limit : ℕ) (consume : S → Text → Checked S)
    (keeps : (s s' : S) (line : Text) → P s → consume s line ≡ Checked.ok s' → P s') where
  scan_lines-keeps :
      (first : Bool) (lines : List Text) (s s' : S)
      → P s
      → scan_lines limit consume first lines s ≡ Checked.ok s'
      → P s'
  unfolding scan_lines
  scan_lines-keeps first [] s s' p h = subst P (ok-injective s s' h) p
  scan_lines-keeps first (line ∷ lines) s s' p h =
      let text = line_text first line in
      let rest : S → Checked S = scan_lines limit consume false lines in
      let (_, g) = refuse_if-ok (leb limit (length line)) ErrorClass.line_too_long _ s' h in
      let (_, k) =
        refuse_if-ok (not (utf8_valid text)) ErrorClass.format (consume s text >>= rest) s' g in
      let (m, e, l) = >>=-ok (consume s text) rest s' k in
      scan_lines-keeps false lines m s' (keeps s m text p e) l

  scan-keeps :
      (newline : Bool) (body : Text) (s s' : S)
      → P s
      → scan limit consume newline body s ≡ Checked.ok s'
      → P s'
  unfolding scan
  scan-keeps newline body s s' p h =
      let (m, e, g) = >>=-ok (scan_lines limit consume true (lines_from [] body) s) _ s' h in
      let (_, k) = refuse_if-ok (is_empty body) ErrorClass.empty _ s' g in
      let (_, l) =
        refuse_if-ok (newline && not (ends_in_newline body)) ErrorClass.truncated (Checked.ok m) s'
          k in
      subst P (ok-injective m s' l) (scan_lines-keeps true (lines_from [] body) s m p e)

-- An entry of a kind that fits its prefix, and of the family that is asked for.
abbrev pub Expected : Limits → Entry → Type 0
Expected limits e =
    (kind_fits e.prefix e.kind ≡ true) × (family_matches (is4 e.prefix.ip) limits.family ≡ true)

-- The records are the entries and the malformed ones.
pub record IsCounted (limits : Limits) (r : Result) : Type 0 where
  pub total : r.total_records ≡ length r.entries + r.malformed
  pub expected : All (Expected limits) r.entries

-- A Spamhaus feed has as many records as it declares, and the others have one at least.
abbrev pub SuitsFormat : Format → Result → Type 0
SuitsFormat Format.spamhaus_drop_jsonl r = r.metadata.declared_records ≡ pos r.total_records
SuitsFormat Format.firehol_netset r = 0 < r.total_records
SuitsFormat Format.plain r = 0 < r.total_records
SuitsFormat (Format.other n) r = ⊥

-- What a result promises of itself.
pub record IsSuited (std : Std) (limits : Limits) (format : Format) (r : Result) : Type 0 where
  pub counted : IsCounted limits r
  pub few_malformed : malformed_allowed std limits r ≡ true
  pub suits_format : SuitsFormat format r

module _ (limits : Limits) where
  count_malformed-IsCounted :
      (r : Result) → IsCounted limits r → IsCounted limits (count_malformed r)
  count_malformed-IsCounted r c = record { total = omega (arith, c.total); expected = c.expected }

  add_value-IsCounted :
      (std : Std) (x : Option (Prefix × Kind)) (r : Result)
      → ((p : Prefix) (k : Kind) → x ≡ some (p, k) → kind_fits p k ≡ true)
      → IsCounted limits r
      → IsCounted limits (add_value std limits x r)
  unfolding add_value
  add_value-IsCounted std none r fits c = count_malformed-IsCounted r c
  add_value-IsCounted std (some (p, k)) r fits c =
      elim (Bool-cases (family_matches (is4 p.ip) limits.family)) [
        | inl y ↦
            rw (y, add_value)
              (record {
                total = omega (
                  arith,
                  c.total,
                  length-append {0} r.entries (record { prefix = p; kind = k } ∷ []),
                );
                expected =
                    All-append (Expected limits) r.entries (record { prefix = p; kind = k } ∷ [])
                      c.expected ((fits p k refl, y), tt);
              })
        | inr n ↦ rw (n, add_value) (count_malformed-IsCounted r c)
      ]

  empty-IsCounted : IsCounted limits empty_result
  empty-IsCounted = record { total = refl; expected = tt }

module _ (std : Std) (limits : Limits)
    (known : (raw zone : Text) (a : Addr)
      → std.netip.parse_addr raw ≡ some (a, zone)
      → ltb 0 (bit_len a) ≡ true)
    (proper : (raw zone : Text) (p : Prefix)
      → std.netip.parse_prefix raw ≡ some (p, zone)
      → leb (bits p) (bit_len p.ip) ≡ true) where
  netset_fields-IsCounted :
      (fs : List Text) (r : Result)
      → IsCounted limits r
      → IsCounted limits (netset_fields std limits fs r)
  netset_fields-IsCounted [] r c = count_malformed-IsCounted limits r c
  netset_fields-IsCounted (f ∷ []) r c =
      add_value-IsCounted limits std (parse_value std.netip f) r
        (λ p k h. parse_value-fits std.netip known proper f p k h) c
  netset_fields-IsCounted (f ∷ g ∷ fs) r c = count_malformed-IsCounted limits r c

  netset_line-IsCounted :
      (r r' : Result) (line : Text)
      → IsCounted limits r
      → netset_line std limits r line ≡ Checked.ok r'
      → IsCounted limits r'
  unfolding netset_line
  netset_line-IsCounted r r' line c h =
      let text = strip_comment line in
      let after = if is_empty text then r else netset_fields std limits (fields text) r in
      subst (IsCounted limits) (ok-injective after r' h) (elim (Bool-cases (is_empty text)) [
        | inl y ↦ rw y c
        | inr n ↦ rw n (netset_fields-IsCounted (fields text) r c)
      ])

  cidr_of-fits :
      (x : Option Text) (p : Prefix) (k : Kind)
      → cidr_of std limits x ≡ some (p, k)
      → kind_fits p k ≡ true
  cidr_of-fits none p k h = absurd (ground (arith, h))
  cidr_of-fits (some t) p k h = ranged (normalize_prefix std.netip t) refl h
    where
      ranged :
          (x : Option Prefix)
          → normalize_prefix std.netip t ≡ x
          → as_range std limits x ≡ some (p, k)
          → kind_fits p k ≡ true
      ranged none e g = absurd (ground (arith, g))
      ranged (some q) e g =
          subst (λ (u : Prefix × Kind). kind_fits u.0 u.1 ≡ true)
            (some-injective (q, Kind.range) (p, k) g)
            (normalize_prefix-fits std.netip known proper t q e)

  abbrev Counted : Progress → Type 0
  Counted p = IsCounted limits p.result

  take_record-IsCounted :
      (p p' : Progress) (line : Text) (type : Option Text)
      → Counted p
      → take_record std limits p line type ≡ Checked.ok p'
      → Counted p'
  unfolding take_record
  take_record-IsCounted p p' line none c h =
      subst Counted (ok-injective (record p { result = count_malformed p.result }) p' h)
        (count_malformed-IsCounted limits p.result c)
  take_record-IsCounted p p' line (some type) c h =
      elim (Bool-cases (text_eq type (bytes "metadata"))) [
        | inl y ↦
            let (_, g) =
              refuse_if-ok p.metadata_seen ErrorClass.metadata _ p' (rw (y, take_record) at h) in
            taken (std.raw_metadata line) g
        | inr n ↦
            let (_, g) =
              refuse_if-ok p.metadata_seen ErrorClass.metadata _ p' (rw (n, take_record) at h) in
            subst Counted (ok-injective _ p' g) (elim (Bool-cases (is_empty type)) [
              | inl y ↦ rw y (
                  add_value-IsCounted limits std (cidr_of std limits (std.record_cidr line))
                    p.result (cidr_of-fits (std.record_cidr line)) c)
              | inr m ↦ rw m (count_malformed-IsCounted limits p.result c)
            ])
      ]
    where
      taken : (x : Option RawMetadata) → take_metadata std limits p x ≡ Checked.ok p' → Counted p'
      taken none g = absurd (err-ne-ok ErrorClass.metadata p' g)
      taken (some m) g =
          let (_, k) = refuse_if-ok (bad_metadata std limits m) ErrorClass.metadata _ p' g in
          subst Counted (ok-injective _ p' k) (record { total = c.total; expected = c.expected })

  spamhaus_line-IsCounted :
      (p p' : Progress) (line : Text)
      → Counted p
      → spamhaus_line std limits p line ≡ Checked.ok p'
      → Counted p'
  unfolding spamhaus_line
  spamhaus_line-IsCounted p p' line c h =
      let text = trim_space line in
      elim (Bool-cases (is_empty text)) [
        | inl y ↦ subst Counted (ok-injective p p' (rw (y, spamhaus_line) at h)) c
        | inr n ↦
            take_record-IsCounted p p' text (std.record_type text) c (rw (n, spamhaus_line) at h)
      ]

  parse_netset-IsParsed :
      (body : Text) (r : Result)
      → parse_netset std limits body ≡ Checked.ok r
      → IsCounted limits r × (malformed_allowed std limits r ≡ true) × (0 < r.total_records)
  unfolding parse_netset
  parse_netset-IsParsed body r h =
      let (m, e, g) =
        >>=-ok
          (scan (pos_part limits.max_line_bytes) (netset_line std limits)
            limits.require_final_newline body empty_result)
          _ r h in
      let (z, k) = refuse_if-ok (m.total_records == 0) ErrorClass.empty _ r g in
      let (a, l) =
        refuse_if-ok (not (malformed_allowed std limits m)) ErrorClass.malformed_threshold
          (Checked.ok m) r k in
      let s = ok-injective m r l in
      subst
        (λ r. IsCounted limits r × (malformed_allowed std limits r ≡ true) × (0 < r.total_records))
        s
        (
          scan-keeps (IsCounted limits) (pos_part limits.max_line_bytes) (netset_line std limits)
              netset_line-IsCounted limits.require_final_newline body empty_result m
              (empty-IsCounted limits) e,
          ground (arith, a),
          ground (arith, z),
        )

  parse_spamhaus-IsParsed :
      (body : Text) (r : Result)
      → parse_spamhaus std limits body ≡ Checked.ok r
      → IsCounted limits r
        × (malformed_allowed std limits r ≡ true)
        × (r.metadata.declared_records ≡ pos r.total_records)
  unfolding parse_spamhaus
  parse_spamhaus-IsParsed body r h =
      let start : Progress = record { result = empty_result; metadata_seen = false } in
      let (m, e, g) =
        >>=-ok
          (scan (pos_part limits.max_line_bytes) (spamhaus_line std limits)
            limits.require_final_newline body start)
          _ r h in
      let (z, k) =
        refuse_if-ok
          (not m.metadata_seen
            || not (eq_ℤ m.result.metadata.declared_records (pos m.result.total_records)))
          ErrorClass.metadata _ r g in
      let (a, l) =
        refuse_if-ok (not (malformed_allowed std limits m.result)) ErrorClass.malformed_threshold
          (Checked.ok m.result) r k in
      let s = ok-injective m.result r l in
      subst
        (λ r.
          IsCounted limits r
          × (malformed_allowed std limits r ≡ true)
          × (r.metadata.declared_records ≡ pos r.total_records))
        s
        (
          scan-keeps Counted (pos_part limits.max_line_bytes) (spamhaus_line std limits)
              spamhaus_line-IsCounted limits.require_final_newline body start m
              (empty-IsCounted limits) e,
          ground (arith, a),
          eq_ℤ→eq m.result.metadata.declared_records (pos m.result.total_records)
              (ground (arith, z)),
        )
      -- What is kept through the scan.

  pub parse-IsSuited :
      (format : Format) (body : Text) (r : Result)
      → parse std limits format body ≡ Checked.ok r
      → IsSuited std limits format r
  unfolding parse
  parse-IsSuited format body r h =
      by_format format (refuse_if-ok (not (valid_limits std limits)) ErrorClass.policy _ r h).1
    where
      by_format :
          (f : Format) → parse_format std limits f body ≡ Checked.ok r → IsSuited std limits f r
      by_format Format.spamhaus_drop_jsonl g =
          let (c, a, d) = parse_spamhaus-IsParsed body r g in
          record { counted = c; few_malformed = a; suits_format = d }
      by_format Format.firehol_netset g =
          let (c, a, d) = parse_netset-IsParsed body r g in
          record { counted = c; few_malformed = a; suits_format = d }
      by_format Format.plain g =
          let (c, a, d) = parse_netset-IsParsed body r g in
          record { counted = c; few_malformed = a; suits_format = d }
      by_format (Format.other n) g = absurd (err-ne-ok ErrorClass.format r g)
