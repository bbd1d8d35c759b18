-- ===== src/App/Outcome.antt =====
-- What a converted synchronization report says.
use crowdshield.Prelude.{
  ap, ◌∙◌, ==_iff, Bool, true, is_nil, List, arith, length, none, sym, ℕ, false, some, ◌≡◌, not,
  refl, Option,
}
use crowdshield.App.Report.{
  outcome_of, result_from_sync, add_bounded, unless, tally, same_int, ◌>>=◌, RunError, bounded_int,
  Tally, empty_tally, counters_agree, Report, report_counts,
}
use crowdshield.App.Tally.{
  add_bounded-some, unless-some, tally-IsCount, number_of, total_rejected, bounded_int-some,
  >>=-some, IsCount,
}
use mathlib.Core.Option.{some-injective}
use mathlib.Core.Path.{subst}
use crowdshield.Prelude.Int.{neg_part, pos_part, eq_of_parts, ◌+ℤ◌, pos, ℤ}
use crowdshield.Ops.Vocabulary.{FailureCategory, Outcome, Counts}
use crowdshield.Ops.Event.{FeedResult, validate_result, Result}

-- The counts are the report's, but for `rejected`.
pub record IsCounts (report : Report) (active_decisions : ℤ) (c : Counts) : Type 0 where
  pub feeds_succeeded : c.feeds_succeeded ≡ report.feeds_succeeded
  pub feeds_failed : c.feeds_failed ≡ report.feeds_failed
  pub feeds_unchanged : c.feeds_unchanged ≡ report.feeds_unchanged
  pub feeds_not_due : c.feeds_not_due ≡ report.feeds_not_due
  pub added : c.added ≡ report.reconciled.added
  pub refreshed : c.refreshed ≡ report.reconciled.refreshed
  pub removed : c.removed ≡ report.reconciled.removed
  pub skipped : c.skipped ≡ report.reconciled.skipped
  pub lapi_requests : c.lapi_requests ≡ report.reconciled.lapi_requests
  pub active : c.active_decisions ≡ active_decisions

abbrev counts_of : Report → ℤ → Counts
counts_of report active_decisions = record {
  feeds_succeeded = report.feeds_succeeded;
  feeds_failed = report.feeds_failed;
  feeds_unchanged = report.feeds_unchanged;
  feeds_not_due = report.feeds_not_due;
  added = report.reconciled.added;
  refreshed = report.reconciled.refreshed;
  removed = report.reconciled.removed;
  rejected = pos 0;
  skipped = report.reconciled.skipped;
  lapi_requests = report.reconciled.lapi_requests;
  active_decisions = active_decisions;
}

-- A bound that is met passes the number on.
bind_bounded {ℓ} :
    {B : Type ℓ} (v : ℤ) (f : ℤ → Option B) (b : B) → (bounded_int v >>= f) ≡ some b → f v ≡ some b
bind_bounded v f b h =
    let (w, e, g) = >>=-some (bounded_int v) f b h in
    subst (λ u. f u ≡ some b) (sym (bounded_int-some v w e)) g

report_counts-some :
    (report : Report) (active : ℤ) (c : Counts)
    → report_counts report active ≡ some c
    → counts_of report active ≡ c
unfolding report_counts bounded_int
report_counts-some report active c h = ground (arith, h)

-- What is true of a result that the conversion returns.
pub record IsFaithful (report : Report) (err : Option RunError) (started_at completed_at : ℕ)
    (active_decisions : ℤ) (r : Result) : Type 0 where
  pub valid : validate_result r ≡ none
  pub started : r.started_at ≡ started_at
  pub completed : r.completed_at ≡ completed_at
  pub counts : IsCounts report active_decisions r.counts
  pub rejected : r.counts.rejected ≡ total_rejected r.feeds +ℤ report.reconciled.rejected
  pub feeds : length r.feeds ≡ length report.feeds
  pub succeeded : report.feeds_succeeded ≡ pos (number_of Outcome.success r.feeds)
  pub failed : report.feeds_failed ≡ pos (number_of Outcome.failed r.feeds)
  pub unchanged : report.feeds_unchanged ≡ pos (number_of Outcome.not_modified r.feeds)
  pub not_due : report.feeds_not_due ≡ pos (number_of Outcome.not_due r.feeds)
  pub clean : err ≡ none → (r.outcome ≡ Outcome.success) × (report.feeds_failed ≡ pos 0)

same_int-true : (a b : ℤ) → same_int a b ≡ true → b ≡ a
same_int-true a b h = eq_of_parts b a (
    omega (
      arith,
      (==_iff (pos_part a) (pos_part b)).0 (ground (arith, h)),
      (==_iff (neg_part a) (neg_part b)).0 (ground (arith, h)),
    ))

counters_agree-true :
    (report : Report) (t : Tally)
    → not (counters_agree report t) ≡ false
    → (report.feeds_succeeded ≡ pos t.succeeded)
      × (report.feeds_failed ≡ pos t.failed)
      × (report.feeds_unchanged ≡ pos t.unchanged)
      × (report.feeds_not_due ≡ pos t.not_due)
unfolding counters_agree
counters_agree-true report t h = (
  same_int-true (pos t.succeeded) report.feeds_succeeded (ground (arith, h)),
  same_int-true (pos t.failed) report.feeds_failed (ground (arith, h)),
  same_int-true (pos t.unchanged) report.feeds_unchanged (ground (arith, h)),
  same_int-true (pos t.not_due) report.feeds_not_due (ground (arith, h)),
)

empty-IsCount : IsCount empty_tally
empty-IsCount = record {
  succeeded = refl;
  failed = refl;
  unchanged = refl;
  not_due = refl;
  rejected = refl;
}

abbrev finish : Counts → ℤ → ℕ → ℕ → List FeedResult → Outcome × FailureCategory × Bool → Result
finish counts rejected started_at completed_at feeds o = record {
  outcome = o.0;
  failure = o.1;
  retryable = o.2;
  started_at = started_at;
  completed_at = completed_at;
  counts = record counts { rejected = rejected };
  feeds = feeds;
}

counts_of-IsCounts :
    (report : Report) (active : ℤ) (c : Counts) (rejected : ℤ)
    → counts_of report active ≡ c
    → IsCounts report active (record c { rejected = rejected })
counts_of-IsCounts report active c rejected e =
    subst (λ c. IsCounts report active (record c { rejected = rejected })) e
      (record {
        feeds_succeeded = refl;
        feeds_failed = refl;
        feeds_unchanged = refl;
        feeds_not_due = refl;
        added = refl;
        refreshed = refl;
        removed = refl;
        skipped = refl;
        lapi_requests = refl;
        active = refl;
      })

outcome_of-none :
    (failed : ℤ) (feeds : List FeedResult) (o : Outcome × FailureCategory × Bool)
    → outcome_of none failed feeds ≡ some o
    → (o.0 ≡ Outcome.success) × (failed ≡ pos 0)
unfolding outcome_of
outcome_of-none failed feeds o h =
    let clean : Outcome × FailureCategory × Bool =
      (Outcome.success, FailureCategory.unset, false) in
    let (z, e) = unless-some (not (same_int failed (pos 0))) (some clean) o h in
    (
      ap (λ p. p.0) (sym (some-injective clean o e)),
      sym (same_int-true failed (pos 0) (ground (arith, z))),
    )

finish-IsFaithful :
    (report : Report) (err : Option RunError) (s e : ℕ) (a : ℤ) (c : Counts) (t : Tally)
    → (rejected q : ℤ) → (o : Outcome × FailureCategory × Bool) → counts_of report a ≡ c
    → bounded_int report.reconciled.rejected ≡ some q
    → tally report.feeds empty_tally ≡ some t
    → unless (not (counters_agree report t)) (add_bounded t.rejected q) ≡ some rejected
    → outcome_of err report.feeds_failed t.feeds ≡ some o
    → validate_result (finish c rejected s e t.feeds o) ≡ none
    → IsFaithful report err s e a (finish c rejected s e t.feeds o)
finish-IsFaithful report err s e a c t rejected q o hc hq ht hr ho hv =
    let (i, l) = tally-IsCount report.feeds empty_tally t empty-IsCount ht in
    let (g, k) =
      unless-some (not (counters_agree report t)) (add_bounded t.rejected q) rejected hr in
    let (g0, g1, g2, g3) = counters_agree-true report t g in
    record {
      valid = hv;
      started = refl;
      completed = refl;
      counts = counts_of-IsCounts report a c rejected hc;
      rejected =
          sym (add_bounded-some t.rejected q rejected k)
          ∙ ap (λ x. x +ℤ q) i.rejected
          ∙ ap (λ x. total_rejected t.feeds +ℤ x)
              (sym (bounded_int-some report.reconciled.rejected q hq));
      feeds = l ∙ omega arith;
      succeeded = g0 ∙ ap pos i.succeeded;
      failed = g1 ∙ ap pos i.failed;
      unchanged = g2 ∙ ap pos i.unchanged;
      not_due = g3 ∙ ap pos i.not_due;
      clean = λ n.
          outcome_of-none report.feeds_failed t.feeds o
            (subst (λ x. outcome_of x report.feeds_failed t.feeds ≡ some o) n ho);
    }

is_nil-none {ℓ} : {A : Type ℓ} (o : Option A) → not (is_nil o) ≡ false → o ≡ none
is_nil-none none h = refl
is_nil-none (some a) h = ground (arith, h)

-- The rest of the conversion, after the counts, the loop and the sum of the rejected entries.
abbrev ending : Report → Option RunError → ℕ → ℕ → Counts → Tally → ℤ → Option Result
ending report err s e c t rejected = outcome_of err report.feeds_failed t.feeds >>= λ o.
    unless (not (is_nil (validate_result (finish c rejected s e t.feeds o))))
      (some (finish c rejected s e t.feeds o))

abbrev after_tally : Report → Option RunError → ℕ → ℕ → Counts → ℤ → Tally → Option Result
after_tally report err s e c q t = bounded_int report.suspicious_changes >>= λ suspicious.
    unless (not (counters_agree report t)) (add_bounded t.rejected q) >>= ending report err s e c t

abbrev after_counts : Report → Option RunError → ℕ → ℕ → Counts → Option Result
after_counts report err s e c = bounded_int report.reconciled.rejected >>= λ q.
    tally report.feeds empty_tally >>= after_tally report err s e c q

-- A result that the conversion of a report returns passes `Result.Validate`, keeps the times, has
-- the report's counts and as many feeds, its rejected entries are those of its feeds and of the
-- reconciliation, the report's feed counters count its feeds by outcome, and without an error the
-- outcome is success and no feed has failed.
pub result_from_sync-IsFaithful :
    (report : Report) (err : Option RunError) (s e : ℕ) (a : ℤ) (r : Result)
    → result_from_sync report err s e a ≡ some r
    → IsFaithful report err s e a r
unfolding result_from_sync
result_from_sync-IsFaithful report err s e a r h =
    let (c, hc, h1) = >>=-some (report_counts report a) (after_counts report err s e) r h in
    let (q, hq, h2) =
      >>=-some (bounded_int report.reconciled.rejected)
        (λ q. tally report.feeds empty_tally >>= after_tally report err s e c q) r h1 in
    let (t, ht, h3) =
      >>=-some (tally report.feeds empty_tally) (after_tally report err s e c q) r h2 in
    let (_, _, h4) =
      >>=-some (bounded_int report.suspicious_changes)
        (λ _.
          unless (not (counters_agree report t)) (add_bounded t.rejected q)
          >>= ending report err s e c t)
        r h3 in
    let (x, hx, h5) =
      >>=-some (unless (not (counters_agree report t)) (add_bounded t.rejected q))
        (ending report err s e c t) r h4 in
    let (o, ho, h6) =
      >>=-some (outcome_of err report.feeds_failed t.feeds)
        (λ o.
          unless (not (is_nil (validate_result (finish c x s e t.feeds o))))
            (some (finish c x s e t.feeds o)))
        r h5 in
    let R = finish c x s e t.feeds o in
    let (v, f) = unless-some (not (is_nil (validate_result R))) (some R) r h6 in
    subst (IsFaithful report err s e a) (some-injective R r f) (
      finish-IsFaithful report err s e a c t x q o (report_counts-some report a c hc) hq ht hx ho
        (is_nil-none (validate_result R) v))
