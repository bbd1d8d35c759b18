-- ===== src/Ops/Results.antt =====
-- internal/ops/event.go: what a validated run result looks like.
use crowdshield.Prelude.{
  sym, ap, ◌∙◌, ◌+◌, ◌≤◌, ◌<◌, ◌≡◌, refl, ◌≢◌, ◌↔◌, inl, inr, Bool, true, false, none, List, [],
  ◌∷◌, arith, Text, All, All-imp, All-zip, length, text_eq, text_eq→eq, text_eq_refl, exists,
  Bool-cases, ◌>>◌, >>-eq-none, refuse, refuse-eq-none,
}
use crowdshield.Ops.Vocabulary.{
  Outcome, FailureCategory, max_duration, max_feed_results, counts_valid, valid_failure,
}
use crowdshield.Ops.Event.{
  invalid_result, FeedResult, Result, feed_result_valid, check_feeds, validate_result,
  outcome_check, times_check,
}

-- The failure and the retry flag that an outcome allows.
abbrev pub OutcomeFits : Outcome → FailureCategory → Bool → Type 0
OutcomeFits Outcome.success f retryable = (f ≡ FailureCategory.unset) × (retryable ≡ false)
OutcomeFits Outcome.degraded f retryable = valid_failure f ≡ true
OutcomeFits Outcome.failed f retryable = valid_failure f ≡ true
OutcomeFits Outcome.cancelled f retryable = (f ≡ FailureCategory.cancelled) × (retryable ≡ false)
OutcomeFits _ f retryable = ⊥

-- No two feeds of a report share a name.
abbrev pub DistinctNames : List FeedResult → Type 0
DistinctNames [] = Unit
DistinctNames (f ∷ fs) = All (λ g. g.name ≢ f.name) fs × DistinctNames fs

pub record ResultFits (r : Result) : Type 0 where
  pub outcome_fits : OutcomeFits r.outcome r.failure r.retryable
  pub started : 0 < r.started_at
  pub ordered : r.started_at ≤ r.completed_at
  pub bounded : r.completed_at ≤ r.started_at + max_duration
  pub bounded_counts : counts_valid r.counts ≡ true
  pub few_feeds : length r.feeds ≤ max_feed_results
  pub valid_feeds : All (λ f. feed_result_valid f ≡ true) r.feeds
  pub distinct_names : DistinctNames r.feeds

outcome_check_iff :
    (o : Outcome) (f : FailureCategory) (retryable : Bool)
    → (outcome_check o f retryable ≡ none) ↔ OutcomeFits o f retryable
outcome_check_iff Outcome.success f retryable = ground arith
outcome_check_iff Outcome.degraded f retryable = ground arith
outcome_check_iff Outcome.failed f retryable = ground arith
outcome_check_iff Outcome.cancelled f retryable = ground arith
outcome_check_iff _ f retryable = ground arith

-- A name that is not among `seen`.
abbrev Fresh : List Text → FeedResult → Type 0
Fresh seen f = exists (text_eq f.name) seen ≡ false

abbrev Checked : List Text → List FeedResult → Type 0
Checked seen fs = All (λ f. feed_result_valid f ≡ true) fs × All (Fresh seen) fs × DistinctNames fs

ne_of_Fresh : (n : Text) (seen : List Text) (g : FeedResult) → Fresh (n ∷ seen) g → g.name ≢ n
ne_of_Fresh n seen g h e =
    let k : text_eq g.name n ≡ true = ap (text_eq g.name) (sym e) ∙ text_eq_refl g.name in
    ground (arith, k)

Fresh-of_ne :
    (n : Text) (seen : List Text) (g : FeedResult)
    → (g.name ≢ n) × Fresh seen g
    → Fresh (n ∷ seen) g
Fresh-of_ne n seen g h = elim (Bool-cases (text_eq g.name n)) [
  | inl e ↦ absurd (h.0 (text_eq→eq g.name n e))
  | inr e ↦ rw e (h.1)
]

check_feeds-Checked :
    (seen : List Text) (fs : List FeedResult) → check_feeds seen fs ≡ none → Checked seen fs
unfolding check_feeds
check_feeds-Checked seen [] h = (tt, tt, tt)
check_feeds-Checked seen (f ∷ fs) h =
    let later = check_feeds-Checked (f.name ∷ seen) fs (ground arith) in
    (
      (ground arith, later.0),
      (
        ground arith,
        All-imp (Fresh (f.name ∷ seen)) (Fresh seen) fs (λ g k. ground (arith, k)) later.1,
      ),
      (
        All-imp (Fresh (f.name ∷ seen)) (λ g. g.name ≢ f.name) fs (ne_of_Fresh f.name seen) later.1,
        later.2,
      ),
    )

Checked-check_feeds :
    (seen : List Text) (fs : List FeedResult) → Checked seen fs → check_feeds seen fs ≡ none
unfolding check_feeds
Checked-check_feeds seen [] h = refl
Checked-check_feeds seen (f ∷ fs) h =
    let fresh =
      All-imp (λ g. (g.name ≢ f.name) × Fresh seen g) (Fresh (f.name ∷ seen)) fs
        (Fresh-of_ne f.name seen) (All-zip (λ g. g.name ≢ f.name) (Fresh seen) fs h.2.0 h.1.1) in
    rw (h.0.0, h.1.0, Checked-check_feeds (f.name ∷ seen) fs (h.0.1, fresh, h.2.1))

times_check-false :
    (r : Result)
    → times_check r ≡ false
    → (0 < r.started_at)
      × (r.started_at ≤ r.completed_at)
      × (r.completed_at ≤ r.started_at + max_duration)
      × (counts_valid r.counts ≡ true)
      × (length r.feeds ≤ max_feed_results)
unfolding times_check
times_check-false r h =
    (ground (arith, h), ground (arith, h), ground (arith, h), ground (arith, h), ground (arith, h))

times_check_pass :
    (r : Result)
    → 0 < r.started_at
    → r.started_at ≤ r.completed_at
    → r.completed_at ≤ r.started_at + max_duration
    → counts_valid r.counts ≡ true
    → length r.feeds ≤ max_feed_results
    → times_check r ≡ false
unfolding times_check
times_check_pass r s o b c l = ground arith

validate_result-ResultFits : (r : Result) → validate_result r ≡ none → ResultFits r
unfolding validate_result
validate_result-ResultFits r h =
    let p =
      (>>-eq-none (outcome_check r.outcome r.failure r.retryable)
          (refuse (times_check r) invalid_result >> check_feeds [] r.feeds)).0
        h in
    let q = (>>-eq-none (refuse (times_check r) invalid_result) (check_feeds [] r.feeds)).0 p.1 in
    let t = times_check-false r ((refuse-eq-none (times_check r) invalid_result).0 q.0) in
    let c = check_feeds-Checked [] r.feeds q.1 in
    record {
      outcome_fits = (outcome_check_iff r.outcome r.failure r.retryable).0 p.0;
      started = t.0;
      ordered = t.1;
      bounded = t.2;
      bounded_counts = t.3;
      few_feeds = t.4;
      valid_feeds = c.0;
      distinct_names = c.2;
    }

nothing_seen : (fs : List FeedResult) → All (Fresh []) fs
nothing_seen [] = tt
nothing_seen (f ∷ fs) = (refl, nothing_seen fs)

ResultFits-validate_result : (r : Result) → ResultFits r → validate_result r ≡ none
unfolding validate_result
ResultFits-validate_result r f =
    let o = (outcome_check_iff r.outcome r.failure r.retryable).1 f.outcome_fits in
    let t = times_check_pass r f.started f.ordered f.bounded f.bounded_counts f.few_feeds in
    let c =
      Checked-check_feeds [] r.feeds (f.valid_feeds, nothing_seen r.feeds, f.distinct_names) in
    rw (o, t, c)

-- A run result passes validation exactly when its outcome allows its failure and retry flag, it ran
-- for at most seven days, its counts are in range, and its at most 256 feeds are valid and have
-- pairwise different names.
pub validate_result_iff : (r : Result) → (validate_result r ≡ none) ↔ ResultFits r
validate_result_iff r = (validate_result-ResultFits r, ResultFits-validate_result r)
