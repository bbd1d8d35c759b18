-- ===== src/Syncer/DryKeeping.antt =====
-- What every step of a dry run keeps, and which calls it makes.
use crowdshield.Prelude.{
  none, arith, some, false, length, not, ◌==◌, Option, ◌&&◌, Text, List, every, true, ◌≡◌, ℕ, Bool,
  refl, [], ◌∷◌,
}
use crowdshield.Syncer.World.{ErrorCategory, Fetched, Call, Environment, State, expect}
use crowdshield.Syncer.Engine.{
  selected_feed_exists, feed_failure_category, Engine, FeedConfig, Marshal, by_name, or_zero,
  not_due, is_selected, request_of, previous_size, parse_fetched,
}
use crowdshield.Syncer.Run.{SyncOptions, finish}
use crowdshield.Syncer.DryRun.{
  dry_options, of_enabled, keep_if, has_changed, Prepared, dry_feed, dry_feeds, use_fetched,
  use_parsed, run_prepared, run_dry,
}
use crowdshield.Syncer.Keeping.{Note, note, continue-keeps, expect-keeps, if-keeps, finish-keeps}
use crowdshield.Syncer.Whole.{run, start}
use crowdshield.Feed.Types.{Std, Snapshot, Checked}
use crowdshield.State.Feeds.{FeedRecord}
use crowdshield.State.Records.{StoredEntry}
use crowdshield.App.Report.{ErrorClass}

-- The calls that leave the store and the local API as they are: lists, fetches, and dry
-- reconciliations of given entries.
abbrev pub is_reading : Call → Bool
is_reading (Call.list_feeds reply) = true
is_reading (Call.list_active_entries reply) = true
is_reading (Call.fetch request reply) = true
is_reading (Call.reconcile o reply) = o.dry_run && o.override_entries
is_reading _ = false

module _ (std : Std) (marshal : Marshal) (env : Environment) (e : Engine) (now : ℕ)
    (P : State → Type 0)
    (notes : (n : Note) (s : State) → P s → P (record s { report = note n s.report }))
    (reads : (c : Call) (s : State)
      → is_reading c ≡ true
      → P s
      → P (record s { history = c ∷ s.history })) where
  use_parsed-keeps :
      (c : FeedConfig) (r : FeedRecord) (x : Checked (Snapshot × ℕ)) (entries : List StoredEntry)
      (s : State)
      → P s
      → P (use_parsed std marshal env e now c r x entries s).1
  unfolding use_parsed
  use_parsed-keeps c r (Checked.err class) entries s p =
      unfold note in notes (Note.failed c class) s p
  use_parsed-keeps c r (Checked.ok (x, rejected)) entries s p =
      unfold note in notes (Note.succeeded c (length x.entries) rejected) s p

  use_fetched-keeps :
      (c : FeedConfig) (r : FeedRecord) (changed : Bool) (entries : List StoredEntry) (x : Fetched)
      (s : State)
      → P s
      → P (use_fetched std marshal env e now c r changed entries x s).1
  unfolding use_fetched
  use_fetched-keeps c r changed entries (Fetched.failed cause) s p =
      unfold note in notes (Note.failed c (feed_failure_category cause)) s p
  use_fetched-keeps c r changed entries (Fetched.ok f) s p =
      if-keeps P (f.not_modified && changed) _ _ s
        (λ _. unfold note in notes (Note.failed c ErrorClass.request) s p)
        (λ _.
          if-keeps P f.not_modified _ _ s (λ _. unfold note in notes (Note.unchanged c r) s p)
            (λ _.
              use_parsed-keeps c r
                (parse_fetched std marshal e c (previous_size r changed) f.body now) entries s p))

  dry_feed-keeps :
      (c : FeedConfig) (r : FeedRecord) (changed : Bool) (entries : List StoredEntry) (s : State)
      → P s
      → P (dry_feed std marshal env e now c r changed entries s).1
  unfolding dry_feed
  dry_feed-keeps c r changed entries s p =
      let q = request_of c r changed in
      let reply = env.fetch s.history q in
      if-keeps P (not_due now c r changed) _ _ s (λ _. unfold note in notes (Note.waiting c) s p)
        (λ _. use_fetched-keeps c r changed entries reply _ (reads (Call.fetch q reply) s refl p))

  dry_feeds-keeps :
      (only : Text) (p : Prepared) (cs : List FeedConfig) (entries : List StoredEntry) (s : State)
      → P s
      → P (dry_feeds std marshal env e now only p cs entries s).1
  unfolding dry_feeds
  dry_feeds-keeps only p [] entries s k = k
  dry_feeds-keeps only p (c ∷ cs) entries s k =
      let r = or_zero (by_name c.name p.records) in
      if-keeps P (not (is_selected only c)) _ _ s (λ _. dry_feeds-keeps only p cs entries s k)
        (λ _.
          continue-keeps P
            (dry_feed std marshal env e now c r (has_changed p.changes c.name) entries s)
            (dry_feeds std marshal env e now only p cs) (λ es u q. dry_feeds-keeps only p cs es u q)
            (dry_feed-keeps c r (has_changed p.changes c.name) entries s k))

  run_prepared-keeps :
      (o : SyncOptions) (entries : List StoredEntry) (x : Option Prepared) (s : State)
      → P s
      → P (run_prepared std marshal env e now o entries x s).1
  unfolding run_prepared
  run_prepared-keeps o entries none s k = k
  run_prepared-keeps o entries (some p) s k =
      let kept = keep_if (of_enabled p.enabled) entries in
      continue-keeps P (dry_feeds std marshal env e now o.feed_name p e.feeds kept s)
        (λ final. finish env (dry_options std marshal env e now p final))
        (λ final u q.
          finish-keeps env P is_reading notes reads (dry_options std marshal env e now p final) u
            (λ _. refl) q)
        (dry_feeds-keeps o.feed_name p e.feeds kept s k)

  pub run_dry-keeps : (o : SyncOptions) (s : State) → P s → P (run_dry std marshal env e now o s).1
  unfolding run_dry
  run_dry-keeps o s p =
      let listed = env.list_feeds s.history in
      continue-keeps P
        (expect ErrorCategory.state listed
          (record s { history = Call.list_feeds listed ∷ s.history }))
        _
        (λ records t q.
          let active = env.list_active_entries t.history in
          continue-keeps P
            (expect ErrorCategory.state active
              (record t { history = Call.list_active_entries active ∷ t.history }))
            _ (λ entries u k. run_prepared-keeps o entries _ u k)
            (expect-keeps P ErrorCategory.state active _
              (reads (Call.list_active_entries active) t refl q)))
        (expect-keeps P ErrorCategory.state listed _ (reads (Call.list_feeds listed) s refl p))

-- Whatever the store, the servers and the reconciler answer, and whether or not the run succeeds, a
-- dry run of the synchronization only lists feeds and entries, fetches feeds, and reconciles dry over
-- entries that it gives: it writes nothing.
pub run-IsReading :
    (std : Std) (marshal : Marshal) (env : Environment) (e : Engine) (now : ℕ) (o : SyncOptions)
    → o.dry_run ≡ true
    → every is_reading (run std marshal env e now o).1.history ≡ true
unfolding run
run-IsReading std marshal env e now o dry =
    if-keeps (λ s. every is_reading s.history ≡ true) (now == 0) _ _ start (λ _. refl)
      (λ _.
        if-keeps (λ s. every is_reading s.history ≡ true)
          (not (selected_feed_exists o.feed_name e.feeds)) _ _ start (λ _. refl)
          (λ _.
            if-keeps (λ s. every is_reading s.history ≡ true) o.dry_run _ _ start
              (λ _.
                run_dry-keeps std marshal env e now (λ s. every is_reading s.history ≡ true)
                  (λ n s h. h) (λ c s r h. ground (arith, r, h)) o start refl)
              (λ n. absurd (ground (arith, dry, n)))))
