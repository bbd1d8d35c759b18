-- ===== src/Syncer/Keeping.antt =====
-- What every step of a run keeps.
use crowdshield.Prelude.{
  none, if◌then◌else◌, not, false, some, true, length, List, Option, Text, ◌&&◌, ◌≡◌, ◌+◌, Bool, ℕ,
  refl, [], ◌∷◌,
}
use crowdshield.Syncer.World.{
  ErrorCategory, Cause, FetchResult, Fetched, Reconciliation, Call, Environment, State, Result,
  Reply, Run, fail, done, tell, expect, continue,
}
use crowdshield.Syncer.Engine.{
  definition_changed, retry_after, retry_delay, feed_definitions, Engine, FeedConfig, Marshal,
  by_name, or_zero, not_due, is_selected, request_of, previous_size, parse_fetched,
  feed_failure_category, report_not_due, report_failed, report_unchanged, report_succeeded,
}
use crowdshield.Syncer.Run.{
  reconciled, plain_options, is_zero, snapshot_of, SyncOptions, finish, record_feed_failure,
  store_parsed, take_fetched, sync_feed, sync_feeds, run_defined, run_plain,
}
use crowdshield.Feed.Types.{Std, Snapshot, Checked}
use crowdshield.App.Report.{Report, ErrorClass, Reconciled}
use crowdshield.State.Feeds.{FeedRecord, FeedDefinition}
use crowdshield.Reconcile.Run.{RunOptions}

-- What a run writes into its report.
pub data Note : Type 0 where
  waiting : FeedConfig → Note
  failed : FeedConfig → ErrorClass → Note
  unchanged : FeedConfig → FeedRecord → Note
  succeeded : FeedConfig → ℕ → ℕ → Note
  settled : Reconciled → Note

unfoldable pub note : Note → Report → Report
unfolding report_not_due report_failed report_unchanged report_succeeded
note (Note.waiting c) r = report_not_due c r
note (Note.failed c class) r = report_failed c class r
note (Note.unchanged c f) r = report_unchanged c f r
note (Note.succeeded c a n) r = report_succeeded c a n r
note (Note.settled x) r = record r { reconciled = x }

module _ {A B : Type 0} (P : State → Type 0) where
  pub continue-keeps :
      (x : Result A × State) (f : A → Run B)
      → ((a : A) (s : State) → P s → P (f a s).1)
      → P x.1
      → P (continue x f).1
  continue-keeps (Result.ok a, s) f step p = step a s p
  continue-keeps (Result.err c, s) f step p = p

module _ {A : Type 0} (P : State → Type 0) where
  pub expect-keeps :
      (c : ErrorCategory) (reply : Reply A) (s : State) → P s → P (expect c reply s).1
  expect-keeps c (Reply.ok a) s p = p
  expect-keeps c Reply.failed s p = p

  pub if-keeps :
      (b : Bool) (m n : Run A) (s : State)
      → (b ≡ true → P (m s).1)
      → (b ≡ false → P (n s).1)
      → P ((if b then m else n) s).1
  if-keeps true m n s x y = x refl
  if-keeps false m n s x y = y refl

-- A state that is kept by every note, and by the calls that are permitted.
module _ (env : Environment) (P : State → Type 0) (permitted : Call → Bool)
    (notes : (n : Note) (s : State) → P s → P (record s { report = note n s.report }))
    (calls : (c : Call) (s : State)
      → permitted c ≡ true
      → P s
      → P (record s { history = c ∷ s.history })) where
  pub finish-keeps :
      (o : RunOptions) (s : State)
      → ((x : Reconciliation) → permitted (Call.reconcile o x) ≡ true)
      → P s
      → P (finish env o s).1
  unfolding finish
  finish-keeps o s ok p =
      let reply = env.reconcile s.history o in
      let t : State = record s { history = Call.reconcile o reply ∷ s.history } in
      let t' : State = record t {
        report = record t.report { reconciled = reconciled reply.report };
      } in
      let q : P t' =
        unfold note in
        notes (Note.settled (reconciled reply.report)) t
          (calls (Call.reconcile o reply) s (ok reply) p) in
      if-keeps P (not reply.succeeded) (fail ErrorCategory.reconcile)
        (λ s. (if is_zero s.report.feeds_failed then done else fail ErrorCategory.degraded) s) t'
        (λ _. q)
        (λ _.
          if-keeps P (is_zero t'.report.feeds_failed) done (fail ErrorCategory.degraded) t' (λ _. q)
            (λ _. q))

-- A state that is kept by every note and every call.
module _ (std : Std) (marshal : Marshal) (env : Environment) (e : Engine) (now : ℕ)
    (P : State → Type 0)
    (notes : (n : Note) (s : State) → P s → P (record s { report = note n s.report }))
    (calls : (c : Call) (s : State) → P s → P (record s { history = c ∷ s.history })) where
  record_feed_failure-keeps :
      (c : FeedConfig) (r : FeedRecord) (cause : Cause) (s : State)
      → P s
      → P (record_feed_failure std marshal env e now c r cause s).1
  unfolding record_feed_failure
  record_feed_failure-keeps c r cause s p =
      let class = feed_failure_category cause in
      let next = now + retry_delay e r.consecutive_failures (retry_after cause) in
      let reply = env.record_feed_failure s.history c.name class next in
      let t : State = record s {
        history = Call.record_feed_failure c.name class next reply ∷ s.history;
      } in
      continue-keeps P (expect ErrorCategory.state reply t) (λ _. tell (report_failed c class))
        (λ _ u q. unfold note in notes (Note.failed c class) u q)
        (expect-keeps P ErrorCategory.state reply t
          (calls (Call.record_feed_failure c.name class next reply) s p))

  store_parsed-keeps :
      (c : FeedConfig) (r : FeedRecord) (f : FetchResult) (x : Checked (Snapshot × ℕ)) (s : State)
      → P s
      → P (store_parsed std marshal env e now c r f x s).1
  unfolding store_parsed
  store_parsed-keeps c r f (Checked.err class) s p =
      record_feed_failure-keeps c r (Cause.of_feed class 0) s p
  store_parsed-keeps c r f (Checked.ok (x, rejected)) s p =
      let snapshot = snapshot_of std marshal env e now x f rejected in
      let reply = env.apply_feed_snapshot s.history c.name snapshot e.missing_grace_runs in
      let call = Call.apply_feed_snapshot c.name snapshot e.missing_grace_runs reply in
      continue-keeps P (expect ErrorCategory.state reply (record s { history = call ∷ s.history }))
        (λ _. tell (report_succeeded c (length x.entries) rejected))
        (λ _ u q. unfold note in notes (Note.succeeded c (length x.entries) rejected) u q)
        (expect-keeps P ErrorCategory.state reply _ (calls call s p))

  take_fetched-keeps :
      (c : FeedConfig) (r : FeedRecord) (changed : Bool) (x : Fetched) (s : State)
      → P s
      → P (take_fetched std marshal env e now c r changed x s).1
  unfolding take_fetched
  take_fetched-keeps c r changed (Fetched.failed cause) s p =
      record_feed_failure-keeps c r cause s p
  take_fetched-keeps c r changed (Fetched.ok f) s p =
      let reply = env.record_feed_not_modified s.history c.name f.etag f.last_modified in
      let call = Call.record_feed_not_modified c.name f.etag f.last_modified reply in
      if-keeps P (f.not_modified && changed) _ _ s
        (λ _. record_feed_failure-keeps c r Cause.other s p)
        (λ _.
          if-keeps P f.not_modified _ _ s
            (λ _.
              continue-keeps P
                (expect ErrorCategory.state reply (record s { history = call ∷ s.history }))
                (λ _. tell (report_unchanged c r))
                (λ _ u q. unfold note in notes (Note.unchanged c r) u q)
                (expect-keeps P ErrorCategory.state reply _ (calls call s p)))
            (λ _.
              store_parsed-keeps c r f
                (parse_fetched std marshal e c (previous_size r changed) f.body now) s p))

  sync_feed-keeps :
      (c : FeedConfig) (r : FeedRecord) (changed : Bool) (s : State)
      → P s
      → P (sync_feed std marshal env e now c r changed s).1
  unfolding sync_feed
  sync_feed-keeps c r changed s p =
      let q = request_of c r changed in
      let reply = env.fetch s.history q in
      if-keeps P (not_due now c r changed) _ _ s (λ _. unfold note in notes (Note.waiting c) s p)
        (λ _. take_fetched-keeps c r changed reply _ (calls (Call.fetch q reply) s p))

  sync_feeds-keeps :
      (only : Text) (records : List FeedRecord) (changed : Text → Bool) (cs : List FeedConfig)
      (s : State)
      → P s
      → P (sync_feeds std marshal env e now only records changed cs s).1
  unfolding sync_feeds
  sync_feeds-keeps only records changed [] s p = p
  sync_feeds-keeps only records changed (c ∷ cs) s p =
      if-keeps P (not (is_selected only c)) _ _ s
        (λ _. sync_feeds-keeps only records changed cs s p)
        (λ _.
          continue-keeps P
            (sync_feed std marshal env e now c (or_zero (by_name c.name records)) (changed c.name)
              s)
            (λ _. sync_feeds std marshal env e now only records changed cs)
            (λ _ u q. sync_feeds-keeps only records changed cs u q)
            (sync_feed-keeps c (or_zero (by_name c.name records)) (changed c.name) s p))

  run_defined-keeps :
      (o : SyncOptions) (x : Option (List FeedDefinition)) (s : State)
      → P s
      → P (run_defined std marshal env e now o x s).1
  unfolding run_defined
  run_defined-keeps o none s p = p
  run_defined-keeps o (some ds) s p =
      let listed = env.list_feeds s.history in
      continue-keeps P
        (expect ErrorCategory.state listed
          (record s { history = Call.list_feeds listed ∷ s.history }))
        _
        (λ previous t q.
          let ensured = env.ensure_feeds t.history ds in
          continue-keeps P
            (expect ErrorCategory.state ensured
              (record t { history = Call.ensure_feeds ds ensured ∷ t.history }))
            _
            (λ records u k.
              continue-keeps P
                (sync_feeds std marshal env e now o.feed_name records
                  (definition_changed previous ds) e.feeds u)
                (λ _. finish env (plain_options std marshal env e now records))
                (λ _ v l.
                  finish-keeps env P (λ _. true) notes (λ c w _ r. calls c w r)
                    (plain_options std marshal env e now records) v (λ _. refl) l)
                (sync_feeds-keeps o.feed_name records (definition_changed previous ds) e.feeds u k))
            (expect-keeps P ErrorCategory.state ensured _
              (calls (Call.ensure_feeds ds ensured) t q)))
        (expect-keeps P ErrorCategory.state listed _ (calls (Call.list_feeds listed) s p))

  pub run_plain-keeps :
      (o : SyncOptions) (s : State) → P s → P (run_plain std marshal env e now o s).1
  unfolding run_plain
  run_plain-keeps o s p = run_defined-keeps o (feed_definitions std marshal e e.feeds) s p
