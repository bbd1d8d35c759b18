-- ===== src/Syncer/Run.antt =====
-- internal/syncer/engine.go: `Run`, where it is not dry.
use crowdshield.Syncer.World.{
  ErrorCategory, Cause, FetchResult, Fetched, Call, Environment, Run, fail, done, ◌>>=◌, ◌>>◌, tell,
  ask, expect,
}
use crowdshield.Syncer.Engine.{
  Engine, FeedConfig, Marshal, by_name, or_zero, definition_changed, not_due, is_selected,
  request_of, previous_size, feed_definitions, parse_fetched, feed_failure_category, retry_delay,
  retry_after, report_not_due, report_failed, report_unchanged, report_succeeded,
}
use crowdshield.Feed.Types.{Std, Snapshot, Checked}
use crowdshield.App.Report.{Reconciled}
use crowdshield.State.Feeds.{FeedRecord, FeedDefinition}
use crowdshield.State.Entries.{FeedSnapshot}
use crowdshield.Reconcile.Run.{RunOptions}
use crowdshield.Reconcile.World
use crowdshield.Prelude.{
  ◌++◌, suc, none, [], not, some, ◌∷◌, false, ◌&&◌, List, if◌then◌else◌, Option, ◌+◌, Bool, length,
  ℕ, Text,
}
use crowdshield.Prelude.Int.{ltb_ℤ, pos, ℤ}

-- `RunOptions` of the package.
pub record SyncOptions : Type 0 where
  pub feed_name : Text
  pub dry_run : Bool

abbrev pub reconciled : World.Report → Reconciled
reconciled r = record {
  added = pos r.added;
  refreshed = pos r.refreshed;
  removed = pos r.removed;
  recovered = pos r.recovered;
  rejected = pos r.rejected;
  skipped = pos r.skipped;
  lapi_requests = pos r.lapi_requests;
}

-- The map of the ids to their order: the entry that was written last comes first.
unfoldable pub feed_order : ℕ → List FeedRecord → List (ℤ × ℕ)
feed_order index [] = []
feed_order index (r ∷ rs) = feed_order (suc index) rs ++ (r.id, index) ∷ []

abbrev pub is_zero : ℤ → Bool
is_zero n = not (ltb_ℤ (pos 0) n)

module _ (env : Environment) where
  -- The end of a run: the reconciliation, and whether a feed failed.
  unfoldable pub finish : RunOptions → Run (Unit {0})
  finish o = ask (λ h. env.reconcile h o) (Call.reconcile o) >>= λ reply.
      tell (λ r. record r { reconciled = reconciled reply.report })
      >> (if not reply.succeeded then fail ErrorCategory.reconcile else λ s.
          (if is_zero s.report.feeds_failed then done else fail ErrorCategory.degraded) s)

module _ (std : Std) (marshal : Marshal) (env : Environment) (e : Engine) (now : ℕ) where
  unfoldable pub record_feed_failure : FeedConfig → FeedRecord → Cause → Run (Unit {0})
  unfolding retry_delay report_failed
  record_feed_failure c r cause =
      let class = feed_failure_category cause in
      let next = now + retry_delay e r.consecutive_failures (retry_after cause) in
      ask (λ h. env.record_feed_failure h c.name class next)
        (Call.record_feed_failure c.name class next)
      >>= expect ErrorCategory.state
      >> tell (report_failed c class)

  abbrev pub snapshot_of : Snapshot → FetchResult → ℕ → FeedSnapshot
  snapshot_of s f rejected = record {
    version = s.version;
    etag = f.etag;
    last_modified = f.last_modified;
    entries = s.entries;
    rejected = pos rejected;
  }

  -- A body that was parsed.
  unfoldable pub store_parsed :
      FeedConfig → FeedRecord → FetchResult → Checked (Snapshot × ℕ) → Run (Unit {0})
  unfolding record_feed_failure report_succeeded
  store_parsed c r f (Checked.err class) = record_feed_failure c r (Cause.of_feed class 0)
  store_parsed c r f (Checked.ok (s, rejected)) =
      let snapshot = snapshot_of s f rejected in
      ask (λ h. env.apply_feed_snapshot h c.name snapshot e.missing_grace_runs)
        (Call.apply_feed_snapshot c.name snapshot e.missing_grace_runs)
      >>= expect ErrorCategory.state
      >> tell (report_succeeded c (length s.entries) rejected)

  -- The answer of the feed's server.
  unfoldable pub take_fetched : FeedConfig → FeedRecord → Bool → Fetched → Run (Unit {0})
  unfolding record_feed_failure store_parsed report_unchanged parse_fetched
  take_fetched c r changed (Fetched.failed cause) = record_feed_failure c r cause
  take_fetched c r changed (Fetched.ok f) =
      if f.not_modified && changed
      then record_feed_failure c r Cause.other
      else if f.not_modified
      then (ask (λ h. env.record_feed_not_modified h c.name f.etag f.last_modified)
            (Call.record_feed_not_modified c.name f.etag f.last_modified)
          >>= expect ErrorCategory.state
          >> tell (report_unchanged c r))
      else store_parsed c r f (parse_fetched std marshal e c (previous_size r changed) f.body now)

  -- One feed that is selected.
  unfoldable pub sync_feed : FeedConfig → FeedRecord → Bool → Run (Unit {0})
  unfolding not_due report_not_due take_fetched
  sync_feed c r changed =
      if not_due now c r changed
      then tell (report_not_due c)
      else (ask (λ h. env.fetch h (request_of c r changed)) (Call.fetch (request_of c r changed))
          >>= take_fetched c r changed)

  -- The loop over the configured feeds.
  unfoldable pub sync_feeds :
      Text → List FeedRecord → (Text → Bool) → List FeedConfig → Run (Unit {0})
  unfolding by_name sync_feed
  sync_feeds only records changed [] = done
  sync_feeds only records changed (c ∷ cs) =
      let rest = sync_feeds only records changed cs in
      if not (is_selected only c)
      then rest
      else (sync_feed c (or_zero (by_name c.name records)) (changed c.name) >> rest)

  abbrev pub plain_options : List FeedRecord → RunOptions
  plain_options records = record {
    allowlists = e.allowlists;
    feed_order = feed_order 0 records;
    dry_run = false;
    override_entries = false;
    entries = [];
  }

  -- `Run`, once the definitions of the feeds are known.
  unfoldable pub run_defined : SyncOptions → Option (List FeedDefinition) → Run (Unit {0})
  unfolding definition_changed sync_feeds finish feed_order
  run_defined o none = fail ErrorCategory.config
  run_defined o (some definitions) =
      ask env.list_feeds Call.list_feeds >>= expect ErrorCategory.state >>= λ previous.
      ask (λ h. env.ensure_feeds h definitions) (Call.ensure_feeds definitions)
      >>= expect ErrorCategory.state
      >>= λ records.
          sync_feeds o.feed_name records (definition_changed previous definitions) e.feeds
          >> finish env (plain_options records)

  unfoldable pub run_plain : SyncOptions → Run (Unit {0})
  unfolding feed_definitions run_defined
  run_plain o = run_defined o (feed_definitions std marshal e e.feeds)
