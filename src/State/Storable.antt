-- ===== src/State/Storable.antt =====
-- The snapshots of internal/feed and what `ApplyFeedSnapshot` asks of a snapshot.
use crowdshield.Prelude.{
  not, ◌&&◌, ◌∙◌, Bool, sym, ◌<◌, inr, arith, inl, false, true, All, ◌≡◌, Bool-cases, exists, ℕ,
  Text, List, refl, ap, [], ◌∷◌,
}
use crowdshield.State.Entries.{valid_snapshot, valid_entries}
use crowdshield.State.Tables.{valid_hash}
use crowdshield.State.Feeds.{valid_validator}
use crowdshield.State.Plans.{safe_masked}
use crowdshield.Feed.Types.{Std, Result, Snapshot, ValidationPolicy, Checked}
use crowdshield.Feed.Validate.{
  version_text, snapshot_version, masked_entry, validate, admissible, same_entry,
}
use crowdshield.Feed.Order.{Ascending, Distinct, head_first, irreflexive, tail_Ascending}
use crowdshield.Feed.Snapshots.{validate-IsSnapshot, Admissible, same_entry_sym}
use crowdshield.State.Records.{Entry}
use crowdshield.Prelude.Int.{pos}
use mathlib.Core.Path.{subst}

Ascending-Distinct : (es : List Entry) → Ascending es → Distinct es
Ascending-Distinct [] a = tt
Ascending-Distinct (e ∷ es) a = (
  elim (Bool-cases (exists (same_entry e) es)) [
    | inl y ↦ absurd (irreflexive e (head_first e e es a y))
    | inr n ↦ n
  ],
  Ascending-Distinct es (tail_Ascending e es a),
)

masked_entry-safe : (e : Entry) → Admissible e → masked_entry e ≡ e
unfolding admissible
masked_entry-safe e h = ap (λ p. record e { prefix = p }) (safe_masked e.prefix (ground (arith, h)))

abbrev Unseen : List Entry → Entry → Type 0
Unseen seen e = exists (same_entry e) seen ≡ false

still-Unseen :
    (e : Entry) (seen es : List Entry)
    → exists (same_entry e) es ≡ false
    → All (Unseen seen) es
    → All (Unseen (e ∷ seen)) es
still-Unseen e seen [] n u = tt
still-Unseen e seen (f ∷ es) n u =
    (ground (arith, n, u.0, same_entry_sym f e), still-Unseen e seen es (ground (arith, n)) u.1)

all_three : {a b c : Bool} → a ≡ true → b ≡ false → c ≡ true → (a && not b && c) ≡ true
all_three h k l = ground (arith, h, k, l)

distinct-valid_entries :
    (seen es : List Entry)
    → Distinct es
    → All Admissible es
    → All (Unseen seen) es
    → valid_entries seen es ≡ true
unfolding valid_entries
distinct-valid_entries seen [] d a u = refl
distinct-valid_entries seen (e ∷ es) d a u =
    let m = masked_entry-safe e a.0 in
    all_three (ap admissible m ∙ a.0) (ap (λ x. exists (same_entry x) seen) m ∙ u.0) (
      ap (λ x. valid_entries (x ∷ seen) es) m
      ∙ distinct-valid_entries (e ∷ seen) es d.1 a.1 (still-Unseen e seen es d.0 u.1))

all-Unseen : (es : List Entry) → All (Unseen []) es
all-Unseen [] = tt
all-Unseen (e ∷ es) = (refl, all-Unseen es)

-- Where digests are 64 hexadecimal digits: a snapshot that `Validate` accepts is one that
-- `ApplyFeedSnapshot` accepts, for grace runs from 1 to 100, a count of rejected entries that is not
-- negative, and validators that are short and on one line.
pub validate-valid_snapshot :
    (std : Std) (r : Result) (p : ValidationPolicy) (s : Snapshot) (etag last_modified : Text)
    (rejected : ℕ) (grace : ℕ)
    → ((text : Text) → valid_hash (std.sha256_hex text) ≡ true)
    → validate std r p ≡ Checked.ok s
    → 0 < grace
    → grace < 101
    → valid_validator etag 256 ≡ true
    → valid_validator last_modified 128 ≡ true
    → valid_snapshot
        (record {
          version = s.version;
          etag = etag;
          last_modified = last_modified;
          entries = s.entries;
          rejected = pos rejected;
        })
        (pos grace)
      ≡ true
unfolding valid_snapshot
validate-valid_snapshot std r p s etag last_modified rejected grace hash h low high e l =
    let i = validate-IsSnapshot std r p s h in
    let d =
      subst (λ v. valid_hash v ≡ true) (sym i.version)
        (unfold snapshot_version in hash (version_text std s.entries)) in
    ground (
      arith,
      d,
      e,
      l,
      low,
      high,
      distinct-valid_entries [] s.entries (Ascending-Distinct s.entries i.ascending) i.safe
          (all-Unseen s.entries),
    )
