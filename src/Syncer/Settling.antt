-- ===== src/Syncer/Settling.antt =====
-- How a run ends, by the counter of its failed feeds.
use crowdshield.Prelude.{
  length, ◌+◌, if◌then◌else◌, ◌&&◌, false, none, arith, true, Text, some, ◌≡◌, ◌==◌, List, not,
  Bool, Option, ℕ, refl, ap, [], ◌∷◌,
}
use crowdshield.Syncer.World.{
  Fetched, FetchResult, Cause, ErrorCategory, Call, Environment, State, Result, Reply, Run, History,
  fail, done, tell, expect, continue,
}
use crowdshield.Syncer.Engine.{
  report_failed, report_unchanged, report_succeeded, not_due, previous_size, is_selected, by_name,
  parse_fetched, or_zero, Engine, FeedConfig, Marshal, selected_feed_exists, feed_definitions,
  definition_changed, feed_failure_category, retry_delay, retry_after,
}
use crowdshield.Syncer.Run.{
  plain_options, take_fetched, sync_feed, store_parsed, reconciled, is_zero, SyncOptions, finish,
  run_plain, run_defined, sync_feeds, record_feed_failure, snapshot_of,
}
use crowdshield.Syncer.DryRun.{
  next_id, prepare, has_changed, dry_options, of_enabled, keep_if, use_parsed, dry_feed,
  use_fetched, run_dry, run_prepared, dry_feeds, Prepared,
}
use crowdshield.App.Report.{Report}
use crowdshield.Syncer.Whole.{run, start}
use crowdshield.Feed.Types.{Snapshot, Checked, Std}
use crowdshield.State.Feeds.{FeedRecord, FeedDefinition}
use crowdshield.State.Records.{StoredEntry}
use crowdshield.Reconcile.Run.{RunOptions}
use crowdshield.App.Report.{Report}
use crowdshield.Prelude.Int.{pos}

-- Whether the last call is a reconciliation, and whether that succeeded.
abbrev pub last_reconciled : History → Option Bool
last_reconciled (Call.reconcile o reply ∷ h) = some reply.succeeded
last_reconciled _ = none

-- What a result says of the state in which a run ends.
abbrev pub SpeaksTrue : Result (Unit {0}) × State → Type 0
SpeaksTrue (Result.ok u, s) =
    (is_zero s.report.feeds_failed ≡ true) × (last_reconciled s.history ≡ some true)
SpeaksTrue (Result.err ErrorCategory.degraded, s) =
    (is_zero s.report.feeds_failed ≡ false) × (last_reconciled s.history ≡ some true)
SpeaksTrue (Result.err ErrorCategory.reconcile, s) = last_reconciled s.history ≡ some false
SpeaksTrue (Result.err c, s) = Unit

-- The errors that a part of a run may end with, before it reconciles.
abbrev IsEarly : {A : Type 0} → Result A × State → Type 0
IsEarly (Result.err ErrorCategory.degraded, s) = ⊥
IsEarly (Result.err ErrorCategory.reconcile, s) = ⊥
IsEarly _ = Unit

continue-SpeaksTrue :
    {A : Type 0} (x : Result A × State) (f : A → Run (Unit {0}))
    → IsEarly x
    → ((a : A) (s : State) → SpeaksTrue (f a s))
    → SpeaksTrue (continue x f)
continue-SpeaksTrue (Result.ok a, s) f i g = g a s
continue-SpeaksTrue (Result.err ErrorCategory.config, s) f i g = tt
continue-SpeaksTrue (Result.err ErrorCategory.state, s) f i g = tt
continue-SpeaksTrue (Result.err ErrorCategory.feed, s) f i g = tt
continue-SpeaksTrue (Result.err ErrorCategory.selection, s) f i g = tt
continue-SpeaksTrue (Result.err ErrorCategory.reconcile, s) f i g = absurd i
continue-SpeaksTrue (Result.err ErrorCategory.degraded, s) f i g = absurd i

continue-IsEarly :
    {A B : Type 0} (x : Result A × State) (f : A → Run B)
    → IsEarly x
    → ((a : A) (s : State) → IsEarly (f a s))
    → IsEarly (continue x f)
continue-IsEarly (Result.ok a, s) f i g = g a s
continue-IsEarly (Result.err ErrorCategory.config, s) f i g = tt
continue-IsEarly (Result.err ErrorCategory.state, s) f i g = tt
continue-IsEarly (Result.err ErrorCategory.feed, s) f i g = tt
continue-IsEarly (Result.err ErrorCategory.selection, s) f i g = tt
continue-IsEarly (Result.err ErrorCategory.reconcile, s) f i g = absurd i
continue-IsEarly (Result.err ErrorCategory.degraded, s) f i g = absurd i

-- A call whose error ends the run.
asked-SpeaksTrue :
    {A : Type 0} (reply : Reply A) (t : State) (f : A → Run (Unit {0}))
    → ((a : A) (s : State) → SpeaksTrue (f a s))
    → SpeaksTrue (continue (expect ErrorCategory.state reply t) f)
asked-SpeaksTrue (Reply.ok a) t f g = g a t
asked-SpeaksTrue Reply.failed t f g = tt

asked-IsEarly :
    (reply : Reply (Unit {0})) (t : State) (f : Report → Report)
    → IsEarly (continue (expect ErrorCategory.state reply t) (λ _. tell f))
asked-IsEarly (Reply.ok a) t f = tt
asked-IsEarly Reply.failed t f = tt

module _ {A : Type 0} (Q : Result A × State → Type 0) where
  by_choice :
      (b : Bool) (m n : Run A) (s : State)
      → (b ≡ true → Q (m s))
      → (b ≡ false → Q (n s))
      → Q ((if b then m else n) s)
  by_choice true m n s x y = x refl
  by_choice false m n s x y = y refl

finish-SpeaksTrue : (env : Environment) (o : RunOptions) (s : State) → SpeaksTrue (finish env o s)
unfolding finish
finish-SpeaksTrue env o s =
    let reply = env.reconcile s.history o in
    let t : State = record {
      report = record s.report { reconciled = reconciled reply.report };
      history = Call.reconcile o reply ∷ s.history;
    } in
    by_choice SpeaksTrue (not reply.succeeded) _ _ t (λ y. ap some (ground (arith, y)))
      (λ n.
        let won : last_reconciled t.history ≡ some true = ap some (ground (arith, n)) in
        by_choice SpeaksTrue (is_zero t.report.feeds_failed) done (fail ErrorCategory.degraded) t
          (λ z. (z, won)) (λ z. (z, won)))

module _ (std : Std) (marshal : Marshal) (env : Environment) (e : Engine) (now : ℕ) where
  record_feed_failure-IsEarly :
      (c : FeedConfig) (r : FeedRecord) (cause : Cause) (s : State)
      → IsEarly (record_feed_failure std marshal env e now c r cause s)
  unfolding record_feed_failure
  record_feed_failure-IsEarly c r cause s =
      let class = feed_failure_category cause in
      let next = now + retry_delay e r.consecutive_failures (retry_after cause) in
      let reply = env.record_feed_failure s.history c.name class next in
      asked-IsEarly reply
        (record s { history = Call.record_feed_failure c.name class next reply ∷ s.history })
        (report_failed c class)

  store_parsed-IsEarly :
      (c : FeedConfig) (r : FeedRecord) (f : FetchResult) (x : Checked (Snapshot × ℕ)) (s : State)
      → IsEarly (store_parsed std marshal env e now c r f x s)
  unfolding store_parsed
  store_parsed-IsEarly c r f (Checked.err class) s =
      record_feed_failure-IsEarly c r (Cause.of_feed class 0) s
  store_parsed-IsEarly c r f (Checked.ok (x, rejected)) s =
      let snapshot = snapshot_of std marshal env e now x f rejected in
      let reply = env.apply_feed_snapshot s.history c.name snapshot e.missing_grace_runs in
      let call = Call.apply_feed_snapshot c.name snapshot e.missing_grace_runs reply in
      asked-IsEarly reply (record s { history = call ∷ s.history })
        (report_succeeded c (length x.entries) rejected)

  take_fetched-IsEarly :
      (c : FeedConfig) (r : FeedRecord) (changed : Bool) (x : Fetched) (s : State)
      → IsEarly (take_fetched std marshal env e now c r changed x s)
  unfolding take_fetched
  take_fetched-IsEarly c r changed (Fetched.failed cause) s =
      record_feed_failure-IsEarly c r cause s
  take_fetched-IsEarly c r changed (Fetched.ok f) s =
      by_choice IsEarly (f.not_modified && changed) _ _ s
        (λ _. record_feed_failure-IsEarly c r Cause.other s)
        (λ _.
          by_choice IsEarly f.not_modified _ _ s
            (λ _.
              let reply = env.record_feed_not_modified s.history c.name f.etag f.last_modified in
              let call = Call.record_feed_not_modified c.name f.etag f.last_modified reply in
              asked-IsEarly reply (record s { history = call ∷ s.history }) (report_unchanged c r))
            (λ _.
              store_parsed-IsEarly c r f
                (parse_fetched std marshal e c (previous_size r changed) f.body now) s))

  sync_feeds-IsEarly :
      (only : Text) (records : List FeedRecord) (changed : Text → Bool) (cs : List FeedConfig)
      (s : State)
      → IsEarly (sync_feeds std marshal env e now only records changed cs s)
  unfolding sync_feeds sync_feed
  sync_feeds-IsEarly only records changed [] s = tt
  sync_feeds-IsEarly only records changed (c ∷ cs) s =
      let r = or_zero (by_name c.name records) in
      by_choice IsEarly (not (is_selected only c)) _ _ s
        (λ _. sync_feeds-IsEarly only records changed cs s)
        (λ _.
          continue-IsEarly (sync_feed std marshal env e now c r (changed c.name) s) _
            (by_choice IsEarly (not_due now c r (changed c.name)) _ _ s (λ _. tt)
              (λ _. take_fetched-IsEarly c r (changed c.name) _ _))
            (λ _ t. sync_feeds-IsEarly only records changed cs t))

  run_defined-SpeaksTrue :
      (o : SyncOptions) (x : Option (List FeedDefinition)) (s : State)
      → SpeaksTrue (run_defined std marshal env e now o x s)
  unfolding run_defined
  run_defined-SpeaksTrue o none s = tt
  run_defined-SpeaksTrue o (some ds) s =
      let listed = env.list_feeds s.history in
      asked-SpeaksTrue listed (record s { history = Call.list_feeds listed ∷ s.history }) _
        (λ previous t.
          let ensured = env.ensure_feeds t.history ds in
          asked-SpeaksTrue ensured (record t { history = Call.ensure_feeds ds ensured ∷ t.history })
            _
            (λ records u.
              let changed = definition_changed previous ds in
              continue-SpeaksTrue
                (sync_feeds std marshal env e now o.feed_name records changed e.feeds u)
                (λ _. finish env (plain_options std marshal env e now records))
                (sync_feeds-IsEarly o.feed_name records changed e.feeds u)
                (λ _ v. finish-SpeaksTrue env (plain_options std marshal env e now records) v)))

  use_fetched-IsEarly :
      (c : FeedConfig) (r : FeedRecord) (changed : Bool) (entries : List StoredEntry) (x : Fetched)
      (s : State)
      → IsEarly (use_fetched std marshal env e now c r changed entries x s)
  unfolding use_fetched use_parsed
  use_fetched-IsEarly c r changed entries (Fetched.failed cause) s = tt
  use_fetched-IsEarly c r changed entries (Fetched.ok f) s =
      by_choice IsEarly (f.not_modified && changed) _ _ s (λ _. tt)
        (λ _.
          by_choice IsEarly f.not_modified _ _ s (λ _. tt)
            (λ _. parsed (parse_fetched std marshal e c (previous_size r changed) f.body now)))
    where
      parsed :
          (x : Checked (Snapshot × ℕ)) → IsEarly (use_parsed std marshal env e now c r x entries s)
      parsed (Checked.ok (x, n)) = tt
      parsed (Checked.err class) = tt

  dry_feeds-IsEarly :
      (only : Text) (p : Prepared) (cs : List FeedConfig) (entries : List StoredEntry) (s : State)
      → IsEarly (dry_feeds std marshal env e now only p cs entries s)
  unfolding dry_feeds dry_feed
  dry_feeds-IsEarly only p [] entries s = tt
  dry_feeds-IsEarly only p (c ∷ cs) entries s =
      let r = or_zero (by_name c.name p.records) in
      let changed = has_changed p.changes c.name in
      by_choice IsEarly (not (is_selected only c)) _ _ s
        (λ _. dry_feeds-IsEarly only p cs entries s)
        (λ _.
          continue-IsEarly (dry_feed std marshal env e now c r changed entries s) _
            (by_choice IsEarly (not_due now c r changed) _ _ s (λ _. tt)
              (λ _. use_fetched-IsEarly c r changed entries _ _))
            (λ es t. dry_feeds-IsEarly only p cs es t))

  run_prepared-SpeaksTrue :
      (o : SyncOptions) (entries : List StoredEntry) (x : Option Prepared) (s : State)
      → SpeaksTrue (run_prepared std marshal env e now o entries x s)
  unfolding run_prepared
  run_prepared-SpeaksTrue o entries none s = tt
  run_prepared-SpeaksTrue o entries (some p) s =
      let kept = keep_if (of_enabled p.enabled) entries in
      continue-SpeaksTrue (dry_feeds std marshal env e now o.feed_name p e.feeds kept s) _
        (dry_feeds-IsEarly o.feed_name p e.feeds kept s)
        (λ final t. finish-SpeaksTrue env (dry_options std marshal env e now p final) t)

  run_dry-SpeaksTrue :
      (o : SyncOptions) (s : State) → SpeaksTrue (run_dry std marshal env e now o s)
  unfolding run_dry
  run_dry-SpeaksTrue o s =
      let listed = env.list_feeds s.history in
      asked-SpeaksTrue listed (record s { history = Call.list_feeds listed ∷ s.history }) _
        (λ records t.
          let active = env.list_active_entries t.history in
          asked-SpeaksTrue active
            (record t { history = Call.list_active_entries active ∷ t.history }) _
            (λ entries u.
              run_prepared-SpeaksTrue o entries
                (prepare std marshal env e now 0 e.feeds (record {
                  records = records;
                  next = next_id (pos 1) records;
                  enabled = [];
                  order = [];
                  changes = [];
                }))
                u))

pub run-counted :
    (std : Std) (marshal : Marshal) (env : Environment) (e : Engine) (now : ℕ) (o : SyncOptions)
    → SpeaksTrue (run std marshal env e now o)
unfolding run run_plain
run-counted std marshal env e now o =
    by_choice SpeaksTrue (now == 0) _ _ start (λ _. tt)
      (λ _.
        by_choice SpeaksTrue (not (selected_feed_exists o.feed_name e.feeds)) _ _ start (λ _. tt)
          (λ _.
            by_choice SpeaksTrue o.dry_run _ _ start
              (λ _. run_dry-SpeaksTrue std marshal env e now o start)
              (λ _.
                run_defined-SpeaksTrue std marshal env e now o
                  (feed_definitions std marshal e e.feeds) start)))
