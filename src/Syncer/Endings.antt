-- ===== src/Syncer/Endings.antt =====
-- How a run ends, by the feeds that its report lists.
use crowdshield.Syncer.Settling.{SpeaksTrue, last_reconciled, run-counted}
use crowdshield.Prelude.{
  ◌∙◌, exists, false, arith, true, some, ◌≡◌, List, not, Bool, ℕ, ap, [], ◌∷◌,
}
use crowdshield.Syncer.World.{ErrorCategory, Environment, State, Result}
use crowdshield.Syncer.Engine.{Engine, Marshal}
use crowdshield.Syncer.Run.{is_zero, SyncOptions}
use crowdshield.Syncer.Tallied.{IsTallied, run-IsTallied, number, is_failed}
use crowdshield.App.Report.{Report, SyncFeed}
use crowdshield.Syncer.Whole.{run}
use crowdshield.Feed.Types.{Std}
use crowdshield.App.Report.{Report}
use crowdshield.Prelude.Int.{pos}

-- What a result says of the feeds that the report lists.
abbrev pub SpeaksOfFeeds : Result (Unit {0}) × State → Type 0
SpeaksOfFeeds (Result.ok u, s) =
    (exists is_failed s.report.feeds ≡ false) × (last_reconciled s.history ≡ some true)
SpeaksOfFeeds (Result.err ErrorCategory.degraded, s) =
    (exists is_failed s.report.feeds ≡ true) × (last_reconciled s.history ≡ some true)
SpeaksOfFeeds (Result.err ErrorCategory.reconcile, s) = last_reconciled s.history ≡ some false
SpeaksOfFeeds (Result.err c, s) = Unit

-- A number is 0 exactly where no feed is counted.
number_exists :
    (q : SyncFeed → Bool) (fs : List SyncFeed) → is_zero (pos (number q fs)) ≡ not (exists q fs)
number_exists q [] = ground arith
number_exists q (f ∷ fs) = ground (arith, number_exists q fs)

failed_count : (r : Report) → IsTallied r → is_zero r.feeds_failed ≡ not (exists is_failed r.feeds)
failed_count r t = ap is_zero t.failed ∙ number_exists is_failed r.feeds

SpeaksTrue-feeds :
    (x : Result (Unit {0}) × State) → IsTallied x.1.report → SpeaksTrue x → SpeaksOfFeeds x
SpeaksTrue-feeds (Result.ok u, s) t (z, h) = (ground (arith, z, failed_count s.report t), h)
SpeaksTrue-feeds (Result.err ErrorCategory.degraded, s) t (z, h) =
    (ground (arith, z, failed_count s.report t), h)
SpeaksTrue-feeds (Result.err ErrorCategory.reconcile, s) t h = h
SpeaksTrue-feeds (Result.err ErrorCategory.config, s) t h = tt
SpeaksTrue-feeds (Result.err ErrorCategory.state, s) t h = tt
SpeaksTrue-feeds (Result.err ErrorCategory.feed, s) t h = tt
SpeaksTrue-feeds (Result.err ErrorCategory.selection, s) t h = tt

-- A run, dry or not, ends without an error only if its last call was a reconciliation that succeeded
-- and its report lists no failed feed; with `ErrDegraded` only if such a reconciliation was the last
-- call and the report lists a failed feed; and with `ErrReconcile` only if the last call was a
-- reconciliation that failed.
pub run-SpeaksTrue :
    (std : Std) (marshal : Marshal) (env : Environment) (e : Engine) (now : ℕ) (o : SyncOptions)
    → SpeaksOfFeeds (run std marshal env e now o)
run-SpeaksTrue std marshal env e now o =
    SpeaksTrue-feeds (run std marshal env e now o) (run-IsTallied std marshal env e now o)
      (run-counted std marshal env e now o)
