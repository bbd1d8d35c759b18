-- ===== src/Syncer/DryRun.antt =====
-- internal/syncer/dryrun.go: `runDry`.
use crowdshield.Syncer.World.{
  ErrorCategory, Cause, Fetched, Call, Environment, Run, pure, fail, ◌>>=◌, ◌>>◌, tell, ask, expect,
}
use crowdshield.Syncer.Engine.{
  Engine, FeedConfig, Marshal, by_name, or_zero, zero_feed, differs, not_due, is_selected,
  request_of, previous_size, definition_hash, parse_fetched, feed_failure_category, report_not_due,
  report_failed, report_unchanged, report_succeeded,
}
use crowdshield.Syncer.Run.{finish, SyncOptions}
use crowdshield.Feed.Types.{Std, Snapshot, Checked}
use crowdshield.State.Feeds.{FeedRecord, FeedDefinition}
use crowdshield.State.Records.{StoredEntry, Entry}
use crowdshield.Reconcile.Run.{RunOptions}
use crowdshield.Prelude.{
  map, suc, text_eq, [], ◌&&◌, ◌++◌, none, exists, false, if◌then◌else◌, true, some, not, length,
  ◌∷◌, Text, Bool, Option, ℕ, List,
}
use crowdshield.Prelude.Int.{◌+ℤ◌, ltb_ℤ, pos, ℤ}

-- The first id after those of the records, and at least 1.
unfoldable pub next_id : ℤ → List FeedRecord → ℤ
next_id n [] = n
next_id n (r ∷ rs) = next_id (if ltb_ℤ r.id n then n else r.id +ℤ pos 1) rs

-- The maps of the loop over the configured feeds: the records by name, and the enabled feeds' order
-- and changes.
pub record Prepared : Type 0 where
  pub records : List FeedRecord
  pub next : ℤ
  pub enabled : List Text
  pub order : List (ℤ × ℕ)
  pub changes : List (Text × Bool)

abbrev pub provisional : ℤ → FeedConfig → FeedRecord
provisional id c = record zero_feed { id = id; name = c.name; enabled = true }

abbrev pub known_or_new : ℤ → FeedConfig → Option FeedRecord → FeedRecord
known_or_new id c none = provisional id c
known_or_new id c (some r) = r

abbrev pub is_absent : Option FeedRecord → Bool
is_absent none = true
is_absent (some r) = false

abbrev pub remember : FeedConfig → ℕ → FeedDefinition → Option FeedRecord → Prepared → Prepared
remember c index d found p =
    let r = known_or_new p.next c found in
    record {
      records = if is_absent found then p.records ++ r ∷ [] else p.records;
      next = if is_absent found then p.next +ℤ pos 1 else p.next;
      enabled = p.enabled ++ c.name ∷ [];
      order = (r.id, index) ∷ p.order;
      changes = (c.name, differs d found) ∷ p.changes;
    }

-- The last change that was noted for a name.
unfoldable pub has_changed : List (Text × Bool) → Text → Bool
has_changed [] name = false
has_changed ((n, b) ∷ cs) name =
    let rest = has_changed cs name in if text_eq n name then b else rest

abbrev pub of_enabled : List Text → StoredEntry → Bool
of_enabled names x = exists (λ n. text_eq n x.feed_name) names

unfoldable pub keep_if : (StoredEntry → Bool) → List StoredEntry → List StoredEntry
keep_if q [] = []
keep_if q (x ∷ xs) = let rest = keep_if q xs in if q x then x ∷ rest else rest

module _ (std : Std) (marshal : Marshal) (env : Environment) (e : Engine) (now : ℕ) where
  -- None where a configuration cannot be marshalled.
  unfoldable pub prepare : ℕ → List FeedConfig → Prepared → Option Prepared
  unfolding by_name definition_hash differs
  prepare index [] p = some p
  prepare index (c ∷ cs) p =
      if not c.enabled then prepare (suc index) cs p else elim (definition_hash std marshal e c) [
        | none ↦ none
        | some hash ↦ prepare (suc index) cs (
            remember c index
              (record {
                name = c.name;
                url_hash = std.sha256_hex c.url;
                definition_hash = hash;
                enabled = true;
              })
              (by_name c.name p.records) p)
      ]

  abbrev pub ephemeral_entry : FeedConfig → FeedRecord → Entry → StoredEntry
  ephemeral_entry c r x = record {
    feed_id = r.id;
    feed_name = c.name;
    entry = x;
    first_seen = now;
    last_seen = now;
    missing_runs = 0;
    active = true;
  }

  abbrev pub is_other : FeedConfig → StoredEntry → Bool
  is_other c x = not (text_eq x.feed_name c.name)

  unfoldable pub use_parsed :
      FeedConfig → FeedRecord → Checked (Snapshot × ℕ) → List StoredEntry → Run (List StoredEntry)
  unfolding report_failed report_succeeded keep_if
  use_parsed c r (Checked.err class) entries = tell (report_failed c class) >> pure entries
  use_parsed c r (Checked.ok (s, rejected)) entries =
      tell (report_succeeded c (length s.entries) rejected)
      >> pure (keep_if (is_other c) entries ++ map (ephemeral_entry c r) s.entries)

  unfoldable pub use_fetched :
      FeedConfig → FeedRecord → Bool → List StoredEntry → Fetched → Run (List StoredEntry)
  unfolding report_failed report_unchanged use_parsed parse_fetched
  use_fetched c r changed entries (Fetched.failed cause) =
      tell (report_failed c (feed_failure_category cause)) >> pure entries
  use_fetched c r changed entries (Fetched.ok f) =
      if f.not_modified && changed
      then (tell (report_failed c (feed_failure_category Cause.other)) >> pure entries)
      else if f.not_modified
      then (tell (report_unchanged c r) >> pure entries)
      else use_parsed c r (parse_fetched std marshal e c (previous_size r changed) f.body now)
          entries

  unfoldable pub dry_feed :
      FeedConfig → FeedRecord → Bool → List StoredEntry → Run (List StoredEntry)
  unfolding not_due report_not_due use_fetched
  dry_feed c r changed entries =
      if not_due now c r changed
      then (tell (report_not_due c) >> pure entries)
      else (ask (λ h. env.fetch h (request_of c r changed)) (Call.fetch (request_of c r changed))
          >>= use_fetched c r changed entries)

  -- The second loop; it carries the entries.
  unfoldable pub dry_feeds :
      Text → Prepared → List FeedConfig → List StoredEntry → Run (List StoredEntry)
  unfolding by_name has_changed dry_feed
  dry_feeds only p [] entries = pure entries
  dry_feeds only p (c ∷ cs) entries =
      if not (is_selected only c)
      then dry_feeds only p cs entries
      else (dry_feed c (or_zero (by_name c.name p.records)) (has_changed p.changes c.name) entries
          >>= dry_feeds only p cs)

  abbrev pub dry_options : Prepared → List StoredEntry → RunOptions
  dry_options p entries = record {
    allowlists = e.allowlists;
    feed_order = p.order;
    dry_run = true;
    override_entries = true;
    entries = entries;
  }

  unfoldable pub run_prepared : SyncOptions → List StoredEntry → Option Prepared → Run (Unit {0})
  unfolding keep_if dry_feeds finish
  run_prepared o entries none = fail ErrorCategory.config
  run_prepared o entries (some p) =
      dry_feeds o.feed_name p e.feeds (keep_if (of_enabled p.enabled) entries) >>= λ final.
      finish env (dry_options p final)

  unfoldable pub run_dry : SyncOptions → Run (Unit {0})
  unfolding next_id prepare run_prepared
  run_dry o = ask env.list_feeds Call.list_feeds >>= expect ErrorCategory.state >>= λ records.
      ask env.list_active_entries Call.list_active_entries
      >>= expect ErrorCategory.state
      >>= λ entries. run_prepared o entries (
          prepare 0 e.feeds (record {
            records = records;
            next = next_id (pos 1) records;
            enabled = [];
            order = [];
            changes = [];
          }))
