-- ===== src/Syncer/Whole.antt =====
-- internal/syncer/engine.go: `Run`.
use crowdshield.Syncer.World.{ErrorCategory, Environment, State, Result, Run, fail}
use crowdshield.Syncer.Engine.{Engine, Marshal, selected_feed_exists}
use crowdshield.Syncer.Run.{SyncOptions, run_plain}
use crowdshield.Syncer.DryRun.{run_dry}
use crowdshield.Feed.Types.{Std}
use crowdshield.App.Report.{Report}
use crowdshield.Prelude.{not, ◌==◌, if◌then◌else◌, ℕ, []}
use crowdshield.Prelude.Int.{pos}

abbrev pub empty_report : Report
empty_report = record {
  feeds_succeeded = pos 0;
  feeds_failed = pos 0;
  feeds_unchanged = pos 0;
  feeds_not_due = pos 0;
  suspicious_changes = pos 0;
  feeds = [];
  reconciled = record {
    added = pos 0;
    refreshed = pos 0;
    removed = pos 0;
    recovered = pos 0;
    rejected = pos 0;
    skipped = pos 0;
    lapi_requests = pos 0;
  };
}

abbrev pub start : State
start = record { report = empty_report; history = [] }

module _ (std : Std) (marshal : Marshal) (env : Environment) (e : Engine) (now : ℕ) where
  unfoldable pub run_body : SyncOptions → Run (Unit {0})
  unfolding selected_feed_exists run_dry run_plain
  run_body o =
      if now == 0
      then fail ErrorCategory.config
      else if not (selected_feed_exists o.feed_name e.feeds)
      then fail ErrorCategory.selection
      else if o.dry_run
      then run_dry std marshal env e now o
      else run_plain std marshal env e now o

  -- The result, with the report and the calls.
  unfoldable pub run : SyncOptions → Result (Unit {0}) × State
  unfolding run_body
  run o = run_body o start
