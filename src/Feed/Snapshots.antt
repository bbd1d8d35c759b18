-- ===== src/Feed/Snapshots.antt =====
-- What `Validate` accepts.
use crowdshield.Prelude.{
  All-imp, not, ◌∙◌, All-append, inl, sym, [], inr, length-append, if◌then◌else◌, false, ◌||◌,
  arith, length, ◌∷◌, ◌+◌, true, suc, ◌++◌, List, ℕ, exists, ◌≡◌, All, Bool-cases, Bool, refl, ap,
}
use crowdshield.Feed.Types.{Std, Result, Snapshot, ValidationPolicy, Checked}
use crowdshield.Feed.Validate.{
  suspicious_change, stale_metadata, valid_validation_policy, snapshot_of, masked_entry, validate,
  checked_snapshot, filter_entry, filter_entries, admissible, compare_entry, same_entry, Filtered,
  snapshot_version,
}
use crowdshield.Feed.Order.{
  Ascending, Ascending-unique, sort_by-Ascending, sort_by-exists, Distinct, Valid, same_entry→eq,
}
use crowdshield.Feed.Parsed.{ok-injective, refuse_if-ok}
use crowdshield.Network.Counts.{length-sort_by, All-sort_by}
use crowdshield.Network.Safety.{is_safe_prefix}
use crowdshield.State.Records.{Entry}
use crowdshield.App.Report.{ErrorClass}
use mathlib.Core.Path.{subst}
use crowdshield.Prelude.Int.{pos, ltb_ℤ}

-- The entries that pass the safety filter, masked.
unfoldable pub admitted : List Entry → List Entry
unfolding admissible
admitted [] = []
admitted (e ∷ es) =
    let rest = admitted es in if admissible (masked_entry e) then masked_entry e ∷ rest else rest

abbrev pub Admissible : Entry → Type 0
Admissible e = admissible e ≡ true

-- What the loop keeps.
record IsFiltered (f : Filtered) : Type 0 where
  distinct : Distinct f.entries
  safe : All Admissible f.entries

exists-append :
    (q : Entry → Bool) (es fs : List Entry) → exists q (es ++ fs) ≡ (exists q es || exists q fs)
exists-append q [] fs = refl
exists-append q (e ∷ es) fs = ground (arith, exists-append q es fs)

pub same_entry_sym : (a b : Entry) → same_entry a b ≡ same_entry b a
same_entry_sym a b = ground arith

Distinct-append :
    (es : List Entry) (e : Entry)
    → Distinct es
    → exists (same_entry e) es ≡ false
    → Distinct (es ++ e ∷ [])
Distinct-append [] e d n = (refl, tt)
Distinct-append (f ∷ es) e d n = (
  ground (arith, exists-append (same_entry f) es (e ∷ []), d.0, n, same_entry_sym f e),
  Distinct-append es e d.1 (ground (arith, n)),
)

abbrev size : Filtered → ℕ
size f = length f.entries + f.rejected_safety + f.duplicates

filter_entry-IsFiltered : (e : Entry) (f : Filtered) → IsFiltered f → IsFiltered (filter_entry e f)
unfolding filter_entry
filter_entry-IsFiltered e f i = elim (Bool-cases (admissible (masked_entry e))) [
  | inr n ↦ rw (n, filter_entry) (record { distinct = i.distinct; safe = i.safe })
  | inl y ↦ elim (Bool-cases (exists (same_entry (masked_entry e)) f.entries)) [
    | inl m ↦ rw (y, filter_entry, m) (record { distinct = i.distinct; safe = i.safe })
    | inr m ↦
        rw (y, filter_entry, m)
          (record {
            distinct = Distinct-append f.entries (masked_entry e) i.distinct m;
            safe = All-append Admissible f.entries (masked_entry e ∷ []) i.safe (y, tt);
          })
  ]
]

filter_entry-size : (e : Entry) (f : Filtered) → size (filter_entry e f) ≡ suc (size f)
unfolding filter_entry
filter_entry-size e f = ground (arith, length-append {0} f.entries (masked_entry e ∷ []))

filter_entries-IsFiltered :
    (es : List Entry) (f : Filtered) → IsFiltered f → IsFiltered (filter_entries es f)
unfolding filter_entries
filter_entries-IsFiltered [] f i = i
filter_entries-IsFiltered (e ∷ es) f i =
    filter_entries-IsFiltered es (filter_entry e f) (filter_entry-IsFiltered e f i)

filter_entries-size :
    (es : List Entry) (f : Filtered) → size (filter_entries es f) ≡ size f + length es
unfolding filter_entries
filter_entries-size [] f = omega arith
filter_entries-size (e ∷ es) f =
    omega (arith, filter_entries-size es (filter_entry e f), filter_entry-size e f)

-- A member of a list stays one when it is renamed to an equal one.
exists-same :
    (x e : Entry) (es : List Entry)
    → same_entry x e ≡ true
    → exists (same_entry e) es ≡ true
    → exists (same_entry x) es ≡ true
exists-same x e es h k = subst (λ z. exists (same_entry z) es ≡ true) (sym (same_entry→eq x e h)) k

filter_entry-members :
    (x e : Entry) (f : Filtered)
    → exists (same_entry x) (filter_entry e f).entries
      ≡ (exists (same_entry x) f.entries || exists (same_entry x) (admitted (e ∷ [])))
unfolding filter_entry admitted
filter_entry-members x e f = elim (Bool-cases (admissible (masked_entry e))) [
  | inr n ↦ rw (n, filter_entry, admitted) (ground arith)
  | inl y ↦ elim (Bool-cases (exists (same_entry (masked_entry e)) f.entries)) [
    | inl m ↦
        rw (y, filter_entry, m, admitted)
          (elim (Bool-cases (same_entry x (masked_entry e))) [
            | inl s ↦ ground (arith, s, exists-same x (masked_entry e) f.entries s m)
            | inr s ↦ ground (arith, s)
          ])
    | inr m ↦
        rw (y, filter_entry, m, admitted)
          (exists-append (same_entry x) f.entries (masked_entry e ∷ []))
  ]
]

or_regroup : (a b : Bool) → (a || b) ≡ ((a || false) || b)
or_regroup true b = refl
or_regroup false b = refl

admitted-cons :
    (x e : Entry) (es : List Entry)
    → exists (same_entry x) (admitted (e ∷ es))
      ≡ (exists (same_entry x) (admitted (e ∷ [])) || exists (same_entry x) (admitted es))
unfolding admitted
admitted-cons x e es = elim (Bool-cases (admissible (masked_entry e))) [
  | inl y ↦
      rw (y, admitted)
        (or_regroup (same_entry x (masked_entry e)) (exists (same_entry x) (admitted es)))
  | inr n ↦ rw (n, admitted) refl
]

filter_entries-members :
    (x : Entry) (es : List Entry) (f : Filtered)
    → exists (same_entry x) (filter_entries es f).entries
      ≡ (exists (same_entry x) f.entries || exists (same_entry x) (admitted es))
unfolding filter_entries
filter_entries-members x [] f = unfold admitted in ground arith
filter_entries-members x (e ∷ es) f = ground (
  arith,
  filter_entries-members x es (filter_entry e f),
  filter_entry-members x e f,
  admitted-cons x e es,
)

safe-Valid : (e : Entry) → Admissible e → Valid e
unfolding admissible
safe-Valid e h = unfold is_safe_prefix in ground (arith, h)

-- What an accepted snapshot promises about the result that it was made of.
pub record IsSnapshot (std : Std) (p : ValidationPolicy) (r : Result) (s : Snapshot) : Type 0 where
  pub accounted : length r.entries ≡ length s.entries + s.rejected_safety + s.duplicates
  pub raw : s.raw_entries ≡ length r.entries
  pub safe : All Admissible s.entries
  pub ascending : Ascending s.entries
  pub members :
      (x : Entry) → exists (same_entry x) s.entries ≡ exists (same_entry x) (admitted r.entries)
  pub enough : ltb_ℤ (pos (length s.entries)) p.expected_min_entries ≡ false
  pub not_too_many : ltb_ℤ p.expected_max_entries (pos (length s.entries)) ≡ false
  pub version : s.version ≡ snapshot_version std s.entries

module _ (std : Std) where
  -- Where `Validate` accepts a result: every entry of the result is in the snapshot, rejected as
  -- unsafe or counted as a duplicate; the snapshot's entries are safe, strictly ascending, and exactly
  -- the masked entries that pass the safety filter; their number is within the policy's bounds; and
  -- the version is the digest of their text.
  pub validate-IsSnapshot :
      (r : Result) (p : ValidationPolicy) (s : Snapshot)
      → validate std r p ≡ Checked.ok s
      → IsSnapshot std p r s
  unfolding validate checked_snapshot
  validate-IsSnapshot r p s h =
      let start : Filtered = record { entries = []; rejected_safety = 0; duplicates = 0 } in
      let f = filter_entries r.entries start in
      let s' = snapshot_of std r f in
      let (_, g) = refuse_if-ok (not (valid_validation_policy std p)) ErrorClass.policy _ s h in
      let (_, k) = refuse_if-ok (stale_metadata std p r.metadata) ErrorClass.metadata _ s g in
      let (b, l) =
        refuse_if-ok
          (ltb_ℤ (pos (length s'.entries)) p.expected_min_entries
            || ltb_ℤ p.expected_max_entries (pos (length s'.entries)))
          ErrorClass.entry_count _ s k in
      let (_, m) =
        refuse_if-ok (suspicious_change std p (length s'.entries)) ErrorClass.suspicious_change
          (Checked.ok s') s l in
      let i = filter_entries-IsFiltered r.entries start (record { distinct = tt; safe = tt }) in
      subst (IsSnapshot std p r) (ok-injective s' s m) (record {
        accounted = omega (
          arith,
          filter_entries-size r.entries start,
          length-sort_by {0} compare_entry f.entries,
        );
        raw = refl;
        safe = All-sort_by Admissible compare_entry f.entries i.safe;
        ascending =
            sort_by-Ascending f.entries (All-imp Admissible Valid f.entries safe-Valid i.safe)
              i.distinct;
        members =
            λ x. sort_by-exists (same_entry x) f.entries ∙ filter_entries-members x r.entries start;
        enough = ground (arith, b);
        not_too_many = ground (arith, b);
        version = refl;
      })

  -- Two results whose safe masked entries are the same, in any order and any number, give the same
  -- snapshot entries and the same version, where both are accepted, under whatever policies.
  pub validate-unordered :
      (r r' : Result) (p p' : ValidationPolicy) (s s' : Snapshot)
      → ((x : Entry)
          → exists (same_entry x) (admitted r.entries)
            ≡ exists (same_entry x) (admitted r'.entries))
      → validate std r p ≡ Checked.ok s
      → validate std r' p' ≡ Checked.ok s'
      → (s.entries ≡ s'.entries) × (s.version ≡ s'.version)
  validate-unordered r r' p p' s s' same h h' =
      let i = validate-IsSnapshot r p s h in
      let i' = validate-IsSnapshot r' p' s' h' in
      let e : s.entries ≡ s'.entries =
        Ascending-unique s.entries s'.entries i.ascending i'.ascending
          (λ x k. i'.members x ∙ sym (same x) ∙ sym (i.members x) ∙ k)
          (λ x k. i.members x ∙ same x ∙ sym (i'.members x) ∙ k) in
      (e, i.version ∙ ap (snapshot_version std) e ∙ sym i'.version)
