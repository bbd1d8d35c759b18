-- ===== src/State/Grace.antt =====
-- An entry that stays away from its feed.
use crowdshield.Prelude.{
  sym, inr, ◌∙◌, inl, length, Bool-cases, arith, ◌+◌, some, ltb, zero, if◌then◌else◌, suc, List,
  ◌≡◌, true, Bool, ◌<◌, false, ℕ, Text, refl, ap, [], ◌∷◌,
}
use crowdshield.State.Tables.{find}
use crowdshield.State.Feeds.{EntryRow, FeedTables, FeedRecord, has_name}
use crowdshield.State.Entries.{is_entry, apply_feed_snapshot, is_present, FeedSnapshot}
use crowdshield.State.Fates.{apply_feed_snapshot-fate, fate, life}
use crowdshield.State.Begun.{is_ok}
use crowdshield.State.Records.{Entry}
use crowdshield.Prelude.Int.{pos_part, ℤ}
use mathlib.Core.Path.{subst}

-- Snapshots of one feed, each with its time, applied one after the other.
unfoldable pub apply_snapshots : Text → ℤ → List (FeedSnapshot × ℕ) → FeedTables → FeedTables
unfolding apply_feed_snapshot
apply_snapshots name grace [] t = t
apply_snapshots name grace ((s, now) ∷ ss) t =
    apply_snapshots name grace ss (apply_feed_snapshot true name s grace now t).1

-- Each of them succeeds, and none has the entry.
abbrev pub AllWithout : Text → ℤ → Entry → List (FeedSnapshot × ℕ) → FeedTables → Type 0
AllWithout name grace x [] t = Unit
AllWithout name grace x ((s, now) ∷ ss) t =
    (is_ok (apply_feed_snapshot true name s grace now t).0 ≡ true)
    × (is_present s.entries x ≡ false)
    × AllWithout name grace x ss (apply_feed_snapshot true name s grace now t).1

-- The life of an entry that is missing for some runs.
abbrev pub faded : ℕ → ℕ → Bool × ℕ → Bool × ℕ
faded grace zero l = l
faded grace (suc n) (active, missing) =
    faded grace n (if active then (ltb (suc missing) grace, suc missing) else (false, missing))

faded_inactive : (grace n m : ℕ) → (faded grace n (false, m)).0 ≡ false
faded_inactive grace zero m = refl
faded_inactive grace (suc n) m = faded_inactive grace n m

faded_active : (grace n m : ℕ) → m < grace → (faded grace n (true, m)).0 ≡ ltb (m + n) grace
faded_active grace zero m h = ground (arith, h)
faded_active grace (suc n) m h = elim (Bool-cases (ltb (suc m) grace)) [
  | inl y ↦
      ap (λ b. (faded grace n (b, suc m)).0) y
      ∙ faded_active grace n (suc m) (ground (arith, y))
      ∙ ap (λ k. ltb k grace) (omega arith)
  | inr y ↦ ap (λ b. (faded grace n (b, suc m)).0) y ∙ faded_inactive grace n (suc m) ∙ sym (past y)
]
  where
    past : ltb (suc m) grace ≡ false → ltb (m + suc n) grace ≡ false
    past y = ground (arith, y)

module _ (name : Text) (grace : ℤ) (x : Entry) where
  absent-faded :
      (ss : List (FeedSnapshot × ℕ)) (t : FeedTables) (f : FeedRecord) (r : EntryRow)
      → find (has_name name) t.feeds ≡ some f
      → find (is_entry f.id x) t.entries ≡ some r
      → AllWithout name grace x ss t
      → (r' : EntryRow) × (find (is_entry f.id x) (apply_snapshots name grace ss t).entries
          ≡ some r')
        × (life r' ≡ faded (pos_part grace) (length ss) (life r))
  unfolding apply_snapshots
  absent-faded [] t f r found row w = (r, row, refl)
  absent-faded ((s, now) ∷ ss) t f r found row (ok, away, w) =
      let t' = (apply_feed_snapshot true name s grace now t).1 in
      let ((r', row', same), (f', found', id)) =
        apply_feed_snapshot-fate name s grace now t f x r found row ok in
      let (r'', row'', last) =
        absent-faded ss t' f' r' found'
          (subst (λ i. find (is_entry i x) t'.entries ≡ some r') (sym id) row') w in
      let one : life r' ≡ fate (pos_part grace) false r =
        subst (λ b. life r' ≡ fate (pos_part grace) b r) away same in
      (
        r'',
        subst (λ i. find (is_entry i x) (apply_snapshots name grace ss t').entries ≡ some r'') id
            row'',
        last ∙ ap (faded (pos_part grace) (length ss)) one,
      )

  -- An active entry that has been missing for fewer than the grace runs: where snapshots of its feed
  -- are applied one after the other, each with success and none with the entry, it is still in the
  -- table, and active exactly as long as the runs that it has been missing are fewer than the grace
  -- runs. So it becomes inactive in the end, and not before.
  pub absent_entry_expires :
      (ss : List (FeedSnapshot × ℕ)) (t : FeedTables) (f : FeedRecord) (r : EntryRow)
      → find (has_name name) t.feeds ≡ some f
      → find (is_entry f.id x) t.entries ≡ some r
      → r.active ≡ true
      → r.missing_runs < pos_part grace
      → AllWithout name grace x ss t
      → (r' : EntryRow) × (find (is_entry f.id x) (apply_snapshots name grace ss t).entries
          ≡ some r')
        × (r'.active ≡ ltb (r.missing_runs + length ss) (pos_part grace))
  absent_entry_expires ss t f r found row a l w =
      let (r', row', e) = absent-faded ss t f r found row w in
      (
        r',
        row',
        ap (λ (p : Bool × ℕ). p.0) e
            ∙ ap (λ b. (faded (pos_part grace) (length ss) (b, r.missing_runs)).0) a
            ∙ faded_active (pos_part grace) (length ss) r.missing_runs l,
      )
