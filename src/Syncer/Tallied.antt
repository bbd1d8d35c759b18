-- ===== src/Syncer/Tallied.antt =====
-- The counters of a run's report.
use crowdshield.Prelude.{
  not, ◌∙◌, ◌==◌, inr, inl, arith, Bool-cases, if◌then◌else◌, ◌+◌, ℕ, false, ◌++◌, List, ◌&&◌, true,
  Bool, ◌≡◌, refl, ap, [], ◌∷◌,
}
use crowdshield.Syncer.World.{Environment, State}
use crowdshield.Syncer.Engine.{
  selected_feed_exists, feed_line, Engine, Marshal, report_not_due, report_failed, report_unchanged,
  report_succeeded,
}
use crowdshield.Syncer.Run.{SyncOptions}
use crowdshield.Syncer.Keeping.{Note, note, if-keeps, run_plain-keeps}
use crowdshield.Syncer.DryKeeping.{run_dry-keeps}
use crowdshield.Syncer.Whole.{run, start}
use crowdshield.App.Report.{Report, FeedStatus, SyncFeed, ErrorClass, is_suspicious}
use crowdshield.Feed.Types.{Std}
use crowdshield.Prelude.Int.{ℤ, pos, ◌+ℤ◌}

abbrev pub is_succeeded : SyncFeed → Bool
is_succeeded f = elim f.status [ FeedStatus.succeeded ↦ true | _ ↦ false ]

abbrev pub is_failed : SyncFeed → Bool
is_failed f = elim f.status [ FeedStatus.failed ↦ true | _ ↦ false ]

abbrev pub is_unchanged : SyncFeed → Bool
is_unchanged f = elim f.status [ FeedStatus.unchanged ↦ true | _ ↦ false ]

abbrev pub is_not_due : SyncFeed → Bool
is_not_due f = elim f.status [ FeedStatus.not_due ↦ true | _ ↦ false ]

abbrev pub is_suspect : SyncFeed → Bool
is_suspect f = is_failed f && is_suspicious f.error_class

abbrev pub number : (SyncFeed → Bool) → List SyncFeed → ℕ
number q [] = 0
number q (f ∷ fs) = (if q f then 1 else 0) + number q fs

-- The counters count the feeds that are listed.
pub record IsTallied (r : Report) : Type 0 where
  pub succeeded : r.feeds_succeeded ≡ pos (number is_succeeded r.feeds)
  pub failed : r.feeds_failed ≡ pos (number is_failed r.feeds)
  pub unchanged : r.feeds_unchanged ≡ pos (number is_unchanged r.feeds)
  pub not_due : r.feeds_not_due ≡ pos (number is_not_due r.feeds)
  pub suspicious : r.suspicious_changes ≡ pos (number is_suspect r.feeds)

number-append :
    (q : SyncFeed → Bool) (fs gs : List SyncFeed) → number q (fs ++ gs) ≡ number q fs + number q gs
number-append q [] gs = omega arith
number-append q (f ∷ fs) gs = omega (arith, number-append q fs gs)

plus_one : (n : ℕ) → pos n +ℤ pos 1 ≡ pos (n + 1)
unfolding ◌+ℤ◌
plus_one n = ground arith

-- A counter after one more feed, which counts or does not.
counted_one :
    (q : SyncFeed → Bool) (fs : List SyncFeed) (f : SyncFeed) (n : ℤ)
    → n ≡ pos (number q fs)
    → q f ≡ true
    → n +ℤ pos 1 ≡ pos (number q (fs ++ f ∷ []))
counted_one q fs f n h y =
    let one : number q (f ∷ []) ≡ 1 = rw y refl in
    ap (λ m. m +ℤ pos 1) h
    ∙ plus_one (number q fs)
    ∙ ap pos (omega (arith, one, number-append q fs (f ∷ [])))

counted_none :
    (q : SyncFeed → Bool) (fs : List SyncFeed) (f : SyncFeed) (n : ℤ)
    → n ≡ pos (number q fs)
    → q f ≡ false
    → n ≡ pos (number q (fs ++ f ∷ []))
counted_none q fs f n h y =
    let none : number q (f ∷ []) ≡ 0 = rw y refl in
    h ∙ ap pos (omega (arith, none, number-append q fs (f ∷ [])))

note-IsTallied : (n : Note) (r : Report) → IsTallied r → IsTallied (note n r)
unfolding note report_not_due report_failed report_unchanged report_succeeded
note-IsTallied (Note.waiting c) r t =
    let f = feed_line c FeedStatus.not_due 0 0 ErrorClass.unset in
    record {
      succeeded = counted_none is_succeeded r.feeds f r.feeds_succeeded t.succeeded refl;
      failed = counted_none is_failed r.feeds f r.feeds_failed t.failed refl;
      unchanged = counted_none is_unchanged r.feeds f r.feeds_unchanged t.unchanged refl;
      not_due = counted_one is_not_due r.feeds f r.feeds_not_due t.not_due refl;
      suspicious = counted_none is_suspect r.feeds f r.suspicious_changes t.suspicious refl;
    }
note-IsTallied (Note.failed c class) r t =
    let f = feed_line c FeedStatus.failed 0 0 class in
    record {
      succeeded = counted_none is_succeeded r.feeds f r.feeds_succeeded t.succeeded refl;
      failed = counted_one is_failed r.feeds f r.feeds_failed t.failed refl;
      unchanged = counted_none is_unchanged r.feeds f r.feeds_unchanged t.unchanged refl;
      not_due = counted_none is_not_due r.feeds f r.feeds_not_due t.not_due refl;
      suspicious = elim (Bool-cases (is_suspicious class)) [
        | inl y ↦
            ap (λ b. if b then r.suspicious_changes +ℤ pos 1 else r.suspicious_changes) y
            ∙ counted_one is_suspect r.feeds f r.suspicious_changes t.suspicious y
        | inr n ↦
            ap (λ b. if b then r.suspicious_changes +ℤ pos 1 else r.suspicious_changes) n
            ∙ counted_none is_suspect r.feeds f r.suspicious_changes t.suspicious n
      ];
    }
note-IsTallied (Note.unchanged c x) r t =
    let f =
      feed_line c FeedStatus.unchanged x.accepted_entries x.rejected_entries ErrorClass.unset in
    record {
      succeeded = counted_none is_succeeded r.feeds f r.feeds_succeeded t.succeeded refl;
      failed = counted_none is_failed r.feeds f r.feeds_failed t.failed refl;
      unchanged = counted_one is_unchanged r.feeds f r.feeds_unchanged t.unchanged refl;
      not_due = counted_none is_not_due r.feeds f r.feeds_not_due t.not_due refl;
      suspicious = counted_none is_suspect r.feeds f r.suspicious_changes t.suspicious refl;
    }
note-IsTallied (Note.succeeded c a n) r t =
    let f = feed_line c FeedStatus.succeeded a n ErrorClass.unset in
    record {
      succeeded = counted_one is_succeeded r.feeds f r.feeds_succeeded t.succeeded refl;
      failed = counted_none is_failed r.feeds f r.feeds_failed t.failed refl;
      unchanged = counted_none is_unchanged r.feeds f r.feeds_unchanged t.unchanged refl;
      not_due = counted_none is_not_due r.feeds f r.feeds_not_due t.not_due refl;
      suspicious = counted_none is_suspect r.feeds f r.suspicious_changes t.suspicious refl;
    }
note-IsTallied (Note.settled x) r t = record {
  succeeded = t.succeeded;
  failed = t.failed;
  unchanged = t.unchanged;
  not_due = t.not_due;
  suspicious = t.suspicious;
}

abbrev Tallied : State → Type 0
Tallied s = IsTallied s.report

-- Whatever the store, the servers and the reconciler answer, and whether or not the run succeeds:
-- the counters of a run's report are the numbers of feeds that it lists as succeeded, failed,
-- unchanged and not due, and of failures that were suspicious changes.
pub run-IsTallied :
    (std : Std) (marshal : Marshal) (env : Environment) (e : Engine) (now : ℕ) (o : SyncOptions)
    → IsTallied (run std marshal env e now o).1.report
unfolding run
run-IsTallied std marshal env e now o =
    let empty : Tallied start = record {
      succeeded = refl;
      failed = refl;
      unchanged = refl;
      not_due = refl;
      suspicious = refl;
    } in
    if-keeps Tallied (now == 0) _ _ start (λ _. empty)
      (λ _.
        if-keeps Tallied (not (selected_feed_exists o.feed_name e.feeds)) _ _ start (λ _. empty)
          (λ _.
            if-keeps Tallied o.dry_run _ _ start
              (λ _.
                run_dry-keeps std marshal env e now Tallied (λ n s t. note-IsTallied n s.report t)
                  (λ c s _ t. t) o start empty)
              (λ _.
                run_plain-keeps std marshal env e now Tallied (λ n s t. note-IsTallied n s.report t)
                  (λ c s t. t) o start empty)))
