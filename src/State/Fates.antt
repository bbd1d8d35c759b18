-- ===== src/State/Fates.antt =====
-- What `ApplyFeedSnapshot` does to one entry of the feed.
use crowdshield.Prelude.{
  ◌==◌, not, sym, Text, ◌<◌, ◌∙◌, inr, [], inl, Bool-cases, ◌++◌, arith, false, ◌||◌, suc, ltb,
  some, ◌∷◌, ◌≡◌, exists, true, List, if◌then◌else◌, ℕ, Bool, refl, ap,
}
use crowdshield.State.Tables.{find, update}
use crowdshield.State.Feeds.{FeedAnswer, has_name, FeedRecord, FeedTables, EntryRow}
use crowdshield.State.Entries.{
  refreshed_feed, is_feed_id, write_snapshot, valid_snapshot, SnapshotResult, FeedSnapshot,
  apply_feed_snapshot, written_entries, deactivated_entry, of_feed, one_more_missing,
  active_of_feed, settled_entries, is_overdue, is_present, new_entry, is_entry, seen_again,
  upsert_entries, upsert_entry,
}
use crowdshield.State.Records.{Entry}
use crowdshield.Prelude.Int.{pos_part, ℤ}
use crowdshield.Feed.Validate.{masked_entry}
use mathlib.Core.Path.{subst}
use mathlib.Core.Option.{some-injective}
use crowdshield.State.Begun.{is_ok}
use crowdshield.Feed.Order.{same_entry→eq}
use crowdshield.State.Branches.{by_test}
use crowdshield.Ops.FeedName.{match_feed_name}

module _ {A : Type 0} (q : A → Bool) where
  pub find-update :
      (p : A → Bool) (f : A → A) (xs : List A) (x : A)
      → ((y : A) → q (f y) ≡ q y)
      → find q xs ≡ some x
      → find q (update p f xs) ≡ some (if p x then f x else x)
  unfolding find update
  find-update p f [] x keeps h = absurd (ground (arith, h))
  find-update p f (y ∷ ys) x keeps h = elim (Bool-cases (q y)) [
    | inl c ↦
        let e : y ≡ x = some-injective y x (rw c at h) in
        subst (λ z. find q (update p f (y ∷ ys)) ≡ some (if p z then f z else z)) e
          (elim (Bool-cases (p y)) [
            | inl d ↦ rw (d, find, update, keeps y, c) refl
            | inr d ↦ rw (d, find, update, c) refl
          ])
    | inr c ↦
        let rest = find-update p f ys x keeps (rw c at h) in
        elim (Bool-cases (p y)) [
          | inl d ↦ rw (d, find, update, keeps y, c) rest
          | inr d ↦ rw (d, find, update, c) rest
        ]
  ]

  pub find-append : (xs ys : List A) (x : A) → find q xs ≡ some x → find q (xs ++ ys) ≡ some x
  unfolding find
  find-append [] ys x h = absurd (ground (arith, h))
  find-append (y ∷ xs) ys x h = elim (Bool-cases (q y)) [
    | inl c ↦ rw c (rw c at h)
    | inr c ↦ rw c (find-append xs ys x (rw c at h))
  ]

  pub find-true : (xs : List A) (x : A) → find q xs ≡ some x → q x ≡ true
  unfolding find
  find-true [] x h = absurd (ground (arith, h))
  find-true (y ∷ xs) x h = elim (Bool-cases (q y)) [
    | inl c ↦ subst (λ z. q z ≡ true) (some-injective y x (rw c at h)) c
    | inr c ↦ find-true xs x (rw c at h)
  ]

  find-exists :
      (p : A → Bool) (xs : List A) (x : A) → find q xs ≡ some x → exists p xs ≡ false → p x ≡ false
  unfolding find
  find-exists p [] x h n = absurd (ground (arith, h))
  find-exists p (y ∷ xs) x h n = elim (Bool-cases (q y)) [
    | inl c ↦ subst (λ z. p z ≡ false) (some-injective y x (rw c at h)) (ground (arith, n))
    | inr c ↦ find-exists p xs x (rw c at h) (ground (arith, n))
  ]

-- An entry's life as the feed sees it: whether it is active, and the runs that it has been missing.
abbrev pub fate : ℕ → Bool → EntryRow → Bool × ℕ
fate grace present r =
    if present
    then (true, 0)
    else if r.active
    then (ltb (suc r.missing_runs) grace, suc r.missing_runs)
    else (false, r.missing_runs)

abbrev pub life : EntryRow → Bool × ℕ
life r = (r.active, r.missing_runs)

module _ (id : ℤ) (x : Entry) where
  upsert_entry-find :
      (now : ℕ) (e : Entry) (rows : List EntryRow) (r : EntryRow)
      → find (is_entry id x) rows ≡ some r
      → find (is_entry id x) (upsert_entry id now e rows)
        ≡ some (if is_entry id e r then seen_again now r else r)
  unfolding upsert_entry
  upsert_entry-find now e rows r h = elim (Bool-cases (exists (is_entry id e) rows)) [
    | inl y ↦
        rw (y, upsert_entry)
          (find-update (is_entry id x) (is_entry id e) (seen_again now) rows r (λ z. refl) h)
    | inr n ↦
        rw (n, upsert_entry, find-exists (is_entry id x) (is_entry id e) rows r h n)
          (find-append (is_entry id x) rows (new_entry id e now ∷ []) r h)
  ]

  -- Whether the snapshot has an entry for the row.
  abbrev renewed : List Entry → EntryRow → Bool
  renewed es r = exists (λ e. is_entry id (masked_entry e) r) es

  renewed-seen :
      (now : ℕ) (es : List Entry) (r : EntryRow) → renewed es (seen_again now r) ≡ renewed es r
  renewed-seen now [] r = refl
  renewed-seen now (e ∷ es) r =
      ap (λ b. is_entry id (masked_entry e) r || b) (renewed-seen now es r)

  upsert_entries-find :
      (now : ℕ) (es : List Entry) (rows : List EntryRow) (r : EntryRow)
      → find (is_entry id x) rows ≡ some r
      → find (is_entry id x) (upsert_entries id now es rows)
        ≡ some (if renewed es r then seen_again now r else r)
  unfolding upsert_entries
  upsert_entries-find now [] rows r h = h
  upsert_entries-find now (e ∷ es) rows r h =
      let first = upsert_entry-find now (masked_entry e) rows r h in
      elim (Bool-cases (is_entry id (masked_entry e) r)) [
        | inl y ↦
            let rest =
              upsert_entries-find now es (upsert_entry id now (masked_entry e) rows)
                (seen_again now r) (rw y at first) in
            rw y (rest ∙ ap some (twice (renewed es (seen_again now r))))
        | inr n ↦ rw n (
            upsert_entries-find now es (upsert_entry id now (masked_entry e) rows) r
              (rw n at first))
      ]
    where
      twice :
          (b : Bool)
          → (if b then seen_again now (seen_again now r) else seen_again now r) ≡ seen_again now r
      twice true = refl
      twice false = refl

  renewed-present :
      (es : List Entry) (r : EntryRow) → of_feed id r ≡ true → renewed es r ≡ is_present es r.entry
  unfolding is_present
  renewed-present [] r h = refl
  renewed-present (e ∷ es) r h = ground (arith, h, renewed-present es r h)

  abbrev counted_row : EntryRow → EntryRow
  counted_row r = if active_of_feed id r then one_more_missing r else r

  abbrev written_row : ℕ → List Entry → EntryRow → EntryRow
  written_row now es r = if renewed es r then seen_again now r else r

  abbrev settled_row : ℕ → EntryRow → EntryRow
  settled_row grace r = if is_overdue id grace r then deactivated_entry r else r

  settled_entries-find :
      (grace now : ℕ) (es : List Entry) (rows : List EntryRow) (r : EntryRow)
      → find (is_entry id x) rows ≡ some r
      → find (is_entry id x) (settled_entries id grace now es rows)
        ≡ some (settled_row grace (written_row now es (counted_row r)))
  unfolding settled_entries written_entries
  settled_entries-find grace now es rows r h =
      let counted =
        find-update (is_entry id x) (active_of_feed id) one_more_missing rows r (λ z. refl) h in
      let written =
        upsert_entries-find now es (update (active_of_feed id) one_more_missing rows)
          (counted_row r) counted in
      find-update (is_entry id x) (is_overdue id grace) deactivated_entry
        (upsert_entries id now es (update (active_of_feed id) one_more_missing rows))
        (written_row now es (counted_row r)) (λ z. refl) written

  settled_row-life :
      (grace now : ℕ) (es : List Entry) (r : EntryRow)
      → 0 < grace
      → of_feed id r ≡ true
      → life (settled_row grace (written_row now es (counted_row r)))
        ≡ fate grace (is_present es r.entry) r
  settled_row-life grace now es r g h = elim (Bool-cases r.active) [
    | inl a ↦ elim (Bool-cases (is_present es r.entry)) [
      | inl p ↦ rw (h, a, renewed-present es (one_more_missing r) h, p) (ground (arith, g))
      | inr p ↦ rw (h, a, renewed-present es (one_more_missing r) h, p) (ground (arith, g, h, a))
    ]
    | inr a ↦ elim (Bool-cases (is_present es r.entry)) [
      | inl p ↦ rw (h, a, renewed-present es r h, p) (ground (arith, g))
      | inr p ↦ rw (h, a, renewed-present es r h, p) (ground (arith, g, h, a))
    ]
  ]

-- Where `ApplyFeedSnapshot` succeeds, each entry that the feed had before is still there, and is as
-- follows: active and not missing if the snapshot has it; if not, and it was active, missing for one
-- more run, and active as long as these are fewer than the grace runs; otherwise as it was. The feed
-- keeps its id.
pub apply_feed_snapshot-fate :
    (name : Text) (s : FeedSnapshot) (grace : ℤ) (now : ℕ) (t : FeedTables) (f : FeedRecord)
    (x : Entry) (r : EntryRow)
    → find (has_name name) t.feeds ≡ some f
    → find (is_entry f.id x) t.entries ≡ some r
    → is_ok (apply_feed_snapshot true name s grace now t).0 ≡ true
    → ((r' : EntryRow) × (find
            (is_entry f.id x)
            (apply_feed_snapshot true name s grace now t).1.entries
          ≡ some r')
        × (life r' ≡ fate (pos_part grace) (is_present s.entries x) r))
      × ((f' : FeedRecord) × (find
              (has_name name)
              (apply_feed_snapshot true name s grace now t).1.feeds
            ≡ some f')
          × (f'.id ≡ f.id))
unfolding apply_feed_snapshot
apply_feed_snapshot-fate name s grace now t f x r found row =
    by_test Q (not (match_feed_name name) || now == 0) _ _ (λ _ e. absurd (ground (arith, e)))
      (λ _.
        by_test Q (not (valid_snapshot s grace)) _ _ (λ _ e. absurd (ground (arith, e)))
          (λ v. rw found (λ _. (written v, kept))))
  where
    Q : FeedAnswer SnapshotResult → Type 0
    Q a =
        is_ok a.0 ≡ true
        → ((r' : EntryRow) × (find (is_entry f.id x) a.1.entries ≡ some r')
            × (life r' ≡ fate (pos_part grace) (is_present s.entries x) r))
          × ((f' : FeedRecord) × (find (has_name name) a.1.feeds ≡ some f') × (f'.id ≡ f.id))

    same : r.entry ≡ x
    same =
        sym (same_entry→eq x r.entry (ground (arith, find-true (is_entry f.id x) t.entries r row)))

    mine : of_feed f.id r ≡ true
    mine = ground (arith, find-true (is_entry f.id x) t.entries r row)

    written :
        not (valid_snapshot s grace) ≡ false
        → (r' : EntryRow) × (find
              (is_entry f.id x)
              (write_snapshot s (pos_part grace) now t f).1.entries
            ≡ some r')
          × (life r' ≡ fate (pos_part grace) (is_present s.entries x) r)
    written v = (
      settled_row f.id x (pos_part grace) (written_row f.id x now s.entries (counted_row f.id x r)),
      unfold write_snapshot in
          settled_entries-find f.id x (pos_part grace) now s.entries t.entries r row,
      settled_row-life f.id x (pos_part grace) now s.entries r
            (unfold valid_snapshot in ground (arith, v)) mine
          ∙ ap (λ z. fate (pos_part grace) (is_present s.entries z) r) same,
    )

    kept :
        (f' : FeedRecord) × (find
            (has_name name)
            (write_snapshot s (pos_part grace) now t f).1.feeds
          ≡ some f')
        × (f'.id ≡ f.id)
    kept = (
      if is_feed_id f.id f then refreshed_feed s now f else f,
      unfold write_snapshot in
          find-update (has_name name) (is_feed_id f.id) (refreshed_feed s now) t.feeds f (λ z. refl)
            found,
      ground arith,
    )
