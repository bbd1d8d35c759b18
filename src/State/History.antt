-- ===== src/State/History.antt =====
-- The results of feeds, as they are kept and read back.
use crowdshield.Prelude.{
  inr, ◌∙◌, inl, Bool-cases, Option, Bool, not, Text, sym, arith, some, true, ◌≡◌, if◌then◌else◌,
  refl, ap,
}
use crowdshield.State.Runs.{HistoryStatus, feed_history_status}
use crowdshield.State.Closing.{feed_result_from_history}
use crowdshield.State.Tables.{ErrorCategory, Result}
use crowdshield.Ops.Event.{FeedResult, feed_result_valid, feed_failure_fits}
use crowdshield.Ops.Vocabulary.{Outcome, FailureCategory, failure_eq}
use crowdshield.Prelude.Int.{ℤ}

abbrev result_of : Text → Outcome → FailureCategory → ℤ → ℤ → FeedResult
result_of name o failure a r = record {
  name = name;
  outcome = o;
  failure = failure;
  accepted = a;
  rejected = r;
}

-- What is left of a result: a degraded feed that was not refused by the validation has failed.
abbrev pub recorded : FeedResult → FeedResult
recorded f = elim f.outcome [
  | Outcome.degraded ↦
      if failure_eq f.failure FailureCategory.feed_validation
      then f
      else record f { outcome = Outcome.failed }
  | _ ↦ f
]

-- A result that has been kept, and what reading it back gives.
abbrev pub IsKept : FeedResult → FeedResult → Type 0
IsKept f g =
    (s : HistoryStatus) × (feed_history_status f ≡ some s)
    × (feed_result_from_history f.name s f.failure f.accepted f.rejected ≡ Result.ok g)

-- What is valid is accepted.
accepted_back :
    (g : FeedResult)
    → feed_result_valid g ≡ true
    → (if not (feed_result_valid g) then Result.err ErrorCategory.integrity else Result.ok g)
      ≡ Result.ok g
accepted_back g v = ap (λ b. if not b then Result.err ErrorCategory.integrity else Result.ok g) v

-- A degraded result stays valid as a failed one.
failed_too :
    (name : Text) (failure : FailureCategory) (a r : ℤ)
    → feed_result_valid (result_of name Outcome.degraded failure a r) ≡ true
    → feed_result_valid (result_of name Outcome.failed failure a r) ≡ true
unfolding feed_result_valid
failed_too name failure a r v = v

fits :
    (name : Text) (o : Outcome) (failure : FailureCategory) (a r : ℤ)
    → feed_result_valid (result_of name o failure a r) ≡ true
    → feed_failure_fits o failure ≡ true
unfolding feed_result_valid
fits name o failure a r v = ground (arith, v)

kept :
    (name : Text) (o : Outcome) (failure : FailureCategory) (a r : ℤ)
    → feed_result_valid (result_of name o failure a r) ≡ true
    → IsKept (result_of name o failure a r) (recorded (result_of name o failure a r))
unfolding feed_history_status feed_result_from_history
kept name Outcome.success failure a r v = (HistoryStatus.success, refl, accepted_back _ v)
kept name Outcome.not_modified failure a r v = (HistoryStatus.not_modified, refl, accepted_back _ v)
kept name Outcome.not_due failure a r v = (HistoryStatus.not_due, refl, accepted_back _ v)
kept name Outcome.failed failure a r v = (HistoryStatus.failed, refl, accepted_back _ v)
kept name Outcome.degraded failure a r v =
    elim (Bool-cases (failure_eq failure FailureCategory.feed_validation)) [
      | inl y ↦ (
        HistoryStatus.suspicious,
        ap kept_as y,
        accepted_back (result_of name Outcome.degraded failure a r) v ∙ ap left (sym y),
      )
      | inr n ↦ (
        HistoryStatus.failed,
        ap kept_as n,
        accepted_back (result_of name Outcome.failed failure a r) (failed_too name failure a r v)
            ∙ ap left (sym n),
      )
    ]
  where
    kept_as : Bool → Option HistoryStatus
    kept_as b = some (if b then HistoryStatus.suspicious else HistoryStatus.failed)

    left : Bool → Result FeedResult
    left b = Result.ok (
        if b
        then result_of name Outcome.degraded failure a r
        else result_of name Outcome.failed failure a r)
kept name o failure a r v = absurd (ground (arith, fits name o failure a r v))

-- Every result of a feed that is valid can be kept, and is read back as it was, but for a feed that is
-- degraded for another reason than its validation, which is read back as failed.
pub feed_result_from_history-feed_history_status :
    (f : FeedResult) → feed_result_valid f ≡ true → IsKept f (recorded f)
feed_result_from_history-feed_history_status f v =
    kept f.name f.outcome f.failure f.accepted f.rejected v
