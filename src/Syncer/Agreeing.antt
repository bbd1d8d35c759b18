-- ===== src/Syncer/Agreeing.antt =====
-- The report of a run and the conversion of internal/app/result.go, which counts the feeds again.
use crowdshield.Prelude.{
  ◌∙◌, ◌++◌, ◌&&◌, not, sym, arith, true, some, ◌+◌, ◌≡◌, List, Text, Bool, ℕ, ap, [], ◌∷◌,
}
use crowdshield.App.Report.{
  feed_failure, has_class, feed_of, FeedStatus, SyncFeed, ErrorClass, tally, tally_outcome, Tally,
  empty_tally, counters_agree, operational_feed_result, feed_outcome, add_bounded, bounded_int,
  same_int,
}
use crowdshield.App.Tally.{>>=-some, unless-some}
use crowdshield.Ops.Vocabulary.{Outcome, FailureCategory}
use crowdshield.Ops.Event.{FeedResult, feed_result_valid}
use crowdshield.Syncer.Tallied.{
  number, run-IsTallied, is_succeeded, is_failed, is_unchanged, is_not_due, is_suspect,
}
use crowdshield.Syncer.World.{Environment}
use crowdshield.Syncer.Engine.{Engine, Marshal}
use crowdshield.Syncer.Run.{SyncOptions}
use crowdshield.Syncer.Whole.{run}
use crowdshield.Feed.Types.{Std}
use crowdshield.Prelude.Int.{pos, ℤ}
use mathlib.Core.Path.{subst}
use mathlib.Core.Option.{some-injective}

-- The outcome of a known status.
abbrev outcome_for : FeedStatus → Outcome
outcome_for FeedStatus.succeeded = Outcome.success
outcome_for FeedStatus.unchanged = Outcome.not_modified
outcome_for FeedStatus.not_due = Outcome.not_due
outcome_for FeedStatus.failed = Outcome.failed
outcome_for (FeedStatus.other n) = Outcome.stopped

feed_outcome-for :
    (s : FeedStatus) (c : ErrorClass) (o : Outcome × FailureCategory)
    → feed_outcome s c ≡ some o
    → o.0 ≡ outcome_for s
unfolding feed_outcome
feed_outcome-for FeedStatus.succeeded c o h =
    ap (λ (p : Outcome × FailureCategory). p.0)
      (sym (
        some-injective (Outcome.success, FailureCategory.unset) o
          (unless-some (has_class c) _ o h).1))
feed_outcome-for FeedStatus.unchanged c o h =
    ap (λ (p : Outcome × FailureCategory). p.0)
      (sym (
        some-injective (Outcome.not_modified, FailureCategory.unset) o
          (unless-some (has_class c) _ o h).1))
feed_outcome-for FeedStatus.not_due c o h =
    ap (λ (p : Outcome × FailureCategory). p.0)
      (sym (
        some-injective (Outcome.not_due, FailureCategory.unset) o
          (unless-some (has_class c) _ o h).1))
feed_outcome-for FeedStatus.failed c o h =
    ap (λ (p : Outcome × FailureCategory). p.0)
      (sym (some-injective (Outcome.failed, (feed_failure c).0) o h))
feed_outcome-for (FeedStatus.other n) c o h = absurd (ground (arith, h))

item-outcome :
    (f : SyncFeed) (item : FeedResult)
    → operational_feed_result f ≡ some item
    → item.outcome ≡ outcome_for f.status
unfolding operational_feed_result
item-outcome f item h =
    let (a, _, g) = >>=-some (bounded_int f.accepted) _ item h in
    let (r, _, k) = >>=-some (bounded_int f.rejected) _ item g in
    let (o, e, l) = >>=-some (feed_outcome f.status f.error_class) _ item k in
    let (_, m) =
      unless-some (not (feed_result_valid (feed_of f a r o))) (some (feed_of f a r o)) item l in
    ap (λ (x : FeedResult). x.outcome) (sym (some-injective (feed_of f a r o) item m))
    ∙ feed_outcome-for f.status f.error_class o e

-- The counters of the loop after some feeds.
record IsAdvanced (fs : List SyncFeed) (t t' : Tally) : Type 0 where
  succeeded : t'.succeeded ≡ t.succeeded + number is_succeeded fs
  failed : t'.failed ≡ t.failed + number is_failed fs
  unchanged : t'.unchanged ≡ t.unchanged + number is_unchanged fs
  not_due : t'.not_due ≡ t.not_due + number is_not_due fs
  suspicious : t'.suspicious ≡ t.suspicious + number is_suspect fs

one-IsAdvanced :
    (name : Text) (s : FeedStatus) (a r : ℤ) (c : ErrorClass) (t : Tally)
    → IsAdvanced
        (record { name = name; status = s; accepted = a; rejected = r; error_class = c } ∷ [])
        t
        (tally_outcome (outcome_for s) c t)
unfolding tally_outcome
one-IsAdvanced name FeedStatus.succeeded a r c t = ground arith
one-IsAdvanced name FeedStatus.failed a r c t = ground arith
one-IsAdvanced name FeedStatus.unchanged a r c t = ground arith
one-IsAdvanced name FeedStatus.not_due a r c t = ground arith
one-IsAdvanced name (FeedStatus.other n) a r c t = ground arith

tally-IsAdvanced : (fs : List SyncFeed) (t t' : Tally) → tally fs t ≡ some t' → IsAdvanced fs t t'
unfolding tally
tally-IsAdvanced [] t t' h = subst (IsAdvanced [] t) (some-injective t t' h) (record {
  succeeded = omega arith;
  failed = omega arith;
  unchanged = omega arith;
  not_due = omega arith;
  suspicious = omega arith;
})
tally-IsAdvanced (f ∷ fs) t t' h =
    let (item, e, g) = >>=-some (operational_feed_result f) _ t' h in
    let (rejected, _, k) = >>=-some (add_bounded t.rejected item.rejected) _ t' g in
    let moved : Tally = record (tally_outcome item.outcome f.error_class t) {
      feeds = t.feeds ++ item ∷ [];
      rejected = rejected;
    } in
    let rest = tally-IsAdvanced fs moved t' k in
    let one =
      subst (λ o. IsAdvanced (f ∷ []) t (tally_outcome o f.error_class t))
        (sym (item-outcome f item e))
        (one-IsAdvanced f.name f.status f.accepted f.rejected f.error_class t) in
    record {
      succeeded = omega (arith, rest.succeeded, one.succeeded);
      failed = omega (arith, rest.failed, one.failed);
      unchanged = omega (arith, rest.unchanged, one.unchanged);
      not_due = omega (arith, rest.not_due, one.not_due);
      suspicious = omega (arith, rest.suspicious, one.suspicious);
    }

same_pos : (n m : ℕ) (z : ℤ) → n ≡ 0 + m → z ≡ pos m → same_int (pos n) z ≡ true
same_pos n m z h k = ground (arith, h, k)

all_five :
    {a b c d e : Bool}
    → a ≡ true
    → b ≡ true
    → c ≡ true
    → d ≡ true
    → e ≡ true
    → (a && b && c && d && e) ≡ true
all_five h k l m n = ground (arith, h, k, l, m, n)

-- Where the conversion can read every feed of the report of a run, whatever the run met, it finds the
-- report's counters in agreement with the feeds, so that it does not refuse the report for them.
pub run-counters_agree :
    (std : Std) (marshal : Marshal) (env : Environment) (e : Engine) (now : ℕ) (o : SyncOptions)
    (t : Tally)
    → tally (run std marshal env e now o).1.report.feeds empty_tally ≡ some t
    → counters_agree (run std marshal env e now o).1.report t ≡ true
unfolding counters_agree
run-counters_agree std marshal env e now o t h =
    let r = (run std marshal env e now o).1.report in
    let i = run-IsTallied std marshal env e now o in
    let a = tally-IsAdvanced r.feeds empty_tally t h in
    all_five
      (same_pos t.succeeded (number is_succeeded r.feeds) r.feeds_succeeded a.succeeded i.succeeded)
      (same_pos t.failed (number is_failed r.feeds) r.feeds_failed a.failed i.failed)
      (same_pos t.unchanged (number is_unchanged r.feeds) r.feeds_unchanged a.unchanged i.unchanged)
      (same_pos t.not_due (number is_not_due r.feeds) r.feeds_not_due a.not_due i.not_due)
      (same_pos t.suspicious (number is_suspect r.feeds) r.suspicious_changes a.suspicious
        i.suspicious)
