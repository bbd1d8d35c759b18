-- ===== src/Feed/Validate.antt =====
-- internal/feed/validate.go: `Validate`.
use crowdshield.Feed.Types.{Std, Result, Snapshot, ValidationPolicy, Metadata, Checked, refuse_if}
use crowdshield.App.Report.{ErrorClass}
use crowdshield.State.Records.{Entry}
use crowdshield.Network.Desired.{sort_by, kind_rank}
use crowdshield.Network.Safety.{is_safe_prefix, kind_fits}
use Prim.Native.Nat.{compare, Ordering}
use crowdshield.Prelude.{
  ◌++◌, exists, suc, ◌||◌, ◌+◌, ◌∷◌, ltb, Text, ◌&&◌, [], ◌==◌, if◌then◌else◌, ℕ, List, Bool,
  length, not,
}
use crowdshield.Network.Address.{bits, compare_addr, then_by, is4, prefix_eq, masked}
use crowdshield.Prelude.Int.{pos_part, pos, ltb_ℤ}

unfoldable pub compare_entry : Entry → Entry → Ordering
compare_entry a b =
    if is4 a.prefix.ip && not (is4 b.prefix.ip)
    then Ordering.lt
    else if not (is4 a.prefix.ip) && is4 b.prefix.ip
    then Ordering.gt
    else then_by (compare_addr a.prefix.ip b.prefix.ip) (
        then_by (compare (bits a.prefix) (bits b.prefix))
          (compare (kind_rank a.kind) (kind_rank b.kind)))

-- Equality of `entryKey`s.
abbrev pub same_entry : Entry → Entry → Bool
same_entry a b = prefix_eq a.prefix b.prefix && kind_rank a.kind == kind_rank b.kind

-- What the loop over the entries passes on.
unfoldable pub admissible : Entry → Bool
admissible e = (is_safe_prefix e.prefix).0 && kind_fits e.prefix e.kind

abbrev pub masked_entry : Entry → Entry
masked_entry e = record e { prefix = masked e.prefix }

pub record Filtered : Type 0 where
  pub entries : List Entry
  pub rejected_safety : ℕ
  pub duplicates : ℕ

unfoldable pub filter_entry : Entry → Filtered → Filtered
unfolding admissible masked
filter_entry e f =
    let e' = masked_entry e in
    if not (admissible e')
    then record f { rejected_safety = suc f.rejected_safety }
    else if exists (same_entry e') f.entries
    then record f { duplicates = suc f.duplicates }
    else record f { entries = f.entries ++ e' ∷ [] }

-- The loop over the entries.
unfoldable pub filter_entries : List Entry → Filtered → Filtered
unfolding filter_entry
filter_entries [] f = f
filter_entries (e ∷ es) f = filter_entries es (filter_entry e f)

module _ (std : Std) where
  unfoldable pub valid_validation_policy : ValidationPolicy → Bool
  valid_validation_policy p =
      let one = std.floats.of_int (pos 1) in
      not (ltb_ℤ p.expected_min_entries (pos 1))
      && not (ltb_ℤ p.expected_max_entries p.expected_min_entries)
      && not (ltb_ℤ p.previous_accepted_entries (pos 0))
      && std.floats.le one p.max_growth_ratio
      && std.floats.le p.max_growth_ratio (std.floats.of_int (pos 100))
      && std.floats.lt (std.floats.of_int (pos 0)) p.max_shrink_ratio
      && std.floats.le p.max_shrink_ratio one
      && not (std.floats.is_nan p.max_growth_ratio)
      && not (std.floats.is_nan p.max_shrink_ratio)
      && not (std.floats.is_inf p.max_growth_ratio)
      && not (std.floats.is_inf p.max_shrink_ratio)
      && not (p.now == 0)
      && not (ltb_ℤ p.max_metadata_age (pos 0))
      && not (ltb_ℤ p.max_future_skew (pos 0))

  -- The digits of a `Kind`, which is below 10.
  unfoldable pub version_text : List Entry → Text
  version_text [] = []
  version_text (e ∷ es) =
      (b'0' + kind_rank e.kind) ∷ b':' ∷ std.prefix_string e.prefix ++ 10 ∷ version_text es

  unfoldable pub snapshot_version : List Entry → Text
  unfolding version_text
  snapshot_version es = std.sha256_hex (version_text es)

  -- The age of the metadata, if they have a time.
  unfoldable pub stale_metadata : ValidationPolicy → Metadata → Bool
  stale_metadata p m =
      not (m.generated_at == 0)
      && (ltb (p.now + pos_part p.max_future_skew) m.generated_at
          || (ltb_ℤ (pos 0) p.max_metadata_age
              && ltb (m.generated_at + pos_part p.max_metadata_age) p.now))

  unfoldable pub suspicious_change : ValidationPolicy → ℕ → Bool
  suspicious_change p count =
      let ratio =
        std.floats.quotient (std.floats.of_int (pos count))
          (std.floats.of_int p.previous_accepted_entries) in
      ltb_ℤ (pos 0) p.previous_accepted_entries
      && (std.floats.lt p.max_growth_ratio ratio || std.floats.lt ratio p.max_shrink_ratio)

  abbrev pub snapshot_of : Result → Filtered → Snapshot
  snapshot_of r f =
      let entries = sort_by compare_entry f.entries in
      record {
        entries = entries;
        version = snapshot_version entries;
        raw_entries = length r.entries;
        rejected_safety = f.rejected_safety;
        duplicates = f.duplicates;
        metadata = r.metadata;
      }

  -- `Validate`, after the loop.
  unfoldable pub checked_snapshot : ValidationPolicy → Snapshot → Checked Snapshot
  unfolding suspicious_change
  checked_snapshot p s =
      let count = length s.entries in
      refuse_if
        (ltb_ℤ (pos count) p.expected_min_entries || ltb_ℤ p.expected_max_entries (pos count))
        ErrorClass.entry_count
        (refuse_if (suspicious_change p count) ErrorClass.suspicious_change (Checked.ok s))

  unfoldable pub validate : Result → ValidationPolicy → Checked Snapshot
  unfolding valid_validation_policy stale_metadata filter_entries checked_snapshot sort_by
  validate r p = refuse_if (not (valid_validation_policy p)) ErrorClass.policy (
      refuse_if (stale_metadata p r.metadata) ErrorClass.metadata (
        checked_snapshot p (
          snapshot_of r (
            filter_entries r.entries
              (record { entries = []; rejected_safety = 0; duplicates = 0 })))))
