-- ===== src/App/Report.antt =====
-- internal/app/result.go: `ResultFromSync` and its helpers, with the types of internal/syncer,
-- internal/reconcile and internal/feed that it reads.
use crowdshield.Prelude.{
  ℕ, suc, Bool, true, false, Option, none, some, List, [], ◌∷◌, ◌++◌, ◌==◌, ◌&&◌, ◌||◌, not, is_nil,
  if◌then◌else◌, Text,
}
use crowdshield.Prelude.Int.{ℤ, pos, pos_part, neg_part, ltb_ℤ, ◌+ℤ◌, ◌-ℤ◌}
use crowdshield.Ops.Vocabulary.{Outcome, FailureCategory, Counts, max_count}
use crowdshield.Ops.Event.{FeedResult, Result, feed_result_valid, validate_result}

-- `feed.ErrorCategory`; `unset` is the empty string.
pub data ErrorClass : Type 0 where
  unset format policy empty line_too_long truncated metadata malformed_threshold : ErrorClass
  entry_count suspicious_change request ssrf redirect http_status body_size : ErrorClass
  content_type html response_header : ErrorClass
  other : ℕ → ErrorClass

pub data FeedStatus : Type 0 where
  succeeded failed unchanged not_due : FeedStatus
  other : ℕ → FeedStatus

pub record SyncFeed : Type 0 where
  pub name : Text
  pub status : FeedStatus
  pub accepted : ℤ
  pub rejected : ℤ
  pub error_class : ErrorClass

-- `reconcile.Report`.
pub record Reconciled : Type 0 where
  pub added : ℤ
  pub refreshed : ℤ
  pub removed : ℤ
  pub recovered : ℤ
  pub rejected : ℤ
  pub skipped : ℤ
  pub lapi_requests : ℤ

pub record Report : Type 0 where
  pub feeds_succeeded : ℤ
  pub feeds_failed : ℤ
  pub feeds_unchanged : ℤ
  pub feeds_not_due : ℤ
  pub suspicious_changes : ℤ
  pub feeds : List SyncFeed
  pub reconciled : Reconciled

-- An error by the answers of `errors.Is` and of the packages' `IsCategory`, each a walk through the
-- errors that it wraps.
pub record RunError : Type 0 where
  pub canceled : Bool
  pub deadline_exceeded : Bool
  pub sync_config : Bool
  pub sync_selection : Bool
  pub sync_state : Bool
  pub sync_degraded : Bool
  pub lapi_auth : Bool
  pub reconcile_state : Bool
  pub reconcile_ownership : Bool
  pub reconcile_lapi : Bool
  pub lapi_request : Bool
  pub lapi_status : Bool
  pub lapi_response_size : Bool
  pub lapi_content_type : Bool
  pub lapi_decode : Bool
  pub lapi_not_found : Bool
  pub reconcile_busy : Bool

infixl 5 ◌>>=◌
abbrev pub ◌>>=◌ {ℓ κ} : {A : Type ℓ} {B : Type κ} → Option A → (A → Option B) → Option B
none >>= f = none
some a >>= f = f a

-- `if test { return ErrInvalidSyncReport }`, before the rest.
abbrev pub unless {ℓ} : {B : Type ℓ} → Bool → Option B → Option B
unless true k = none
unless false k = k

unfoldable pub bounded_int : ℤ → Option ℤ
bounded_int v = unless (ltb_ℤ v (pos 0) || ltb_ℤ (pos max_count) v) (some v)

unfoldable pub add_bounded : ℤ → ℤ → Option ℤ
add_bounded left right =
    unless (ltb_ℤ left (pos 0) || ltb_ℤ right (pos 0) || ltb_ℤ (pos max_count -ℤ right) left)
      (some (left +ℤ right))

unfoldable pub feed_failure : ErrorClass → FailureCategory × Bool
feed_failure ErrorClass.request = (FailureCategory.feed_download, true)
feed_failure ErrorClass.ssrf = (FailureCategory.feed_download, true)
feed_failure ErrorClass.redirect = (FailureCategory.feed_download, true)
feed_failure ErrorClass.http_status = (FailureCategory.feed_download, true)
feed_failure ErrorClass.body_size = (FailureCategory.feed_download, true)
feed_failure ErrorClass.content_type = (FailureCategory.feed_download, true)
feed_failure ErrorClass.html = (FailureCategory.feed_download, true)
feed_failure ErrorClass.response_header = (FailureCategory.feed_download, true)
feed_failure ErrorClass.unset = (FailureCategory.runtime, false)
feed_failure (ErrorClass.other n) = (FailureCategory.runtime, false)
feed_failure _ = (FailureCategory.feed_validation, false)

abbrev pub has_class : ErrorClass → Bool
has_class ErrorClass.unset = false
has_class _ = true

abbrev pub is_suspicious : ErrorClass → Bool
is_suspicious ErrorClass.suspicious_change = true
is_suspicious _ = false

-- The `switch input.Status`: the outcome and the failure, if the status is known.
unfoldable pub feed_outcome : FeedStatus → ErrorClass → Option (Outcome × FailureCategory)
feed_outcome FeedStatus.succeeded c =
    unless (has_class c) (some (Outcome.success, FailureCategory.unset))
feed_outcome FeedStatus.unchanged c =
    unless (has_class c) (some (Outcome.not_modified, FailureCategory.unset))
feed_outcome FeedStatus.not_due c =
    unless (has_class c) (some (Outcome.not_due, FailureCategory.unset))
feed_outcome FeedStatus.failed c = some (Outcome.failed, (feed_failure c).0)
feed_outcome (FeedStatus.other n) c = none

abbrev pub feed_of : SyncFeed → ℤ → ℤ → Outcome × FailureCategory → FeedResult
feed_of f accepted rejected o = record {
  name = f.name;
  outcome = o.0;
  failure = o.1;
  accepted = accepted;
  rejected = rejected;
}

unfoldable pub operational_feed_result : SyncFeed → Option FeedResult
unfolding bounded_int feed_outcome
operational_feed_result f = do
  accepted ← bounded_int f.accepted
  rejected ← bounded_int f.rejected
  o ← feed_outcome f.status f.error_class
  let r = feed_of f accepted rejected o
  unless (not (feed_result_valid r)) (some r)

-- The counters of the loop over the feeds.
pub record Tally : Type 0 where
  pub feeds : List FeedResult
  pub succeeded : ℕ
  pub failed : ℕ
  pub unchanged : ℕ
  pub not_due : ℕ
  pub suspicious : ℕ
  pub rejected : ℤ

abbrev pub empty_tally : Tally
empty_tally = record {
  feeds = [];
  succeeded = 0;
  failed = 0;
  unchanged = 0;
  not_due = 0;
  suspicious = 0;
  rejected = pos 0;
}

-- The `switch item.Outcome` of the loop.
unfoldable pub tally_outcome : Outcome → ErrorClass → Tally → Tally
tally_outcome Outcome.success c t = record t { succeeded = suc t.succeeded }
tally_outcome Outcome.not_modified c t = record t { unchanged = suc t.unchanged }
tally_outcome Outcome.not_due c t = record t { not_due = suc t.not_due }
tally_outcome Outcome.failed c t = record t {
  failed = suc t.failed;
  suspicious = if is_suspicious c then suc t.suspicious else t.suspicious;
}
tally_outcome _ c t = t

unfoldable pub tally : List SyncFeed → Tally → Option Tally
unfolding tally_outcome
tally [] t = some t
tally (f ∷ fs) t = operational_feed_result f >>= λ item.
    add_bounded t.rejected item.rejected >>= λ rejected.
    tally fs (record (tally_outcome item.outcome f.error_class t) {
      feeds = t.feeds ++ item ∷ [];
      rejected = rejected;
    })

abbrev pub is_feed_failure : Outcome → Bool
is_feed_failure Outcome.failed = true
is_feed_failure Outcome.degraded = true
is_feed_failure _ = false

abbrev pub is_validation : FailureCategory → Bool
is_validation FailureCategory.feed_validation = true
is_validation _ = false

abbrev pub is_download : FailureCategory → Bool
is_download FailureCategory.feed_download = true
is_download _ = false

-- The loop of the degraded branch of `classifyFailure`.
unfoldable pub degraded_failure : List FeedResult → FailureCategory → Bool → FailureCategory × Bool
degraded_failure [] failure retryable = (failure, retryable)
degraded_failure (f ∷ fs) failure retryable =
    degraded_failure fs
      (if not (is_feed_failure f.outcome)
        then failure
        else if is_validation f.failure
        then FailureCategory.feed_validation
        else if not (is_validation failure) && is_download f.failure
        then FailureCategory.feed_download
        else failure)
      (if is_feed_failure f.outcome && is_download f.failure then true else retryable)

unfoldable pub classify_failure : RunError → List FeedResult → FailureCategory × Bool
unfolding degraded_failure
classify_failure e feeds =
    if e.canceled
    then (FailureCategory.cancelled, false)
    else if e.deadline_exceeded
    then (FailureCategory.timeout, true)
    else if e.sync_config || e.sync_selection
    then (FailureCategory.config, false)
    else if e.sync_state
    then (FailureCategory.database, true)
    else if e.sync_degraded
    then degraded_failure feeds FailureCategory.runtime false
    else if e.lapi_auth
    then (FailureCategory.lapi_auth, false)
    else if e.reconcile_state
    then (FailureCategory.database, true)
    else if e.reconcile_ownership
    then (FailureCategory.ownership, false)
    else if e.reconcile_lapi || e.lapi_request || e.lapi_status || e.lapi_response_size
        || e.lapi_content_type || e.lapi_decode || e.lapi_not_found
    then (FailureCategory.lapi, true)
    else if e.reconcile_busy
    then (FailureCategory.runtime, true)
    else (FailureCategory.runtime, false)

-- Every `boundedInt` of the report's counters in turn; `rejected` is filled in later.
unfoldable pub report_counts : Report → ℤ → Option Counts
unfolding bounded_int
report_counts report active_decisions = do
  n_succeeded ← bounded_int report.feeds_succeeded
  n_failed ← bounded_int report.feeds_failed
  n_unchanged ← bounded_int report.feeds_unchanged
  n_not_due ← bounded_int report.feeds_not_due
  added ← bounded_int report.reconciled.added
  refreshed ← bounded_int report.reconciled.refreshed
  removed ← bounded_int report.reconciled.removed
  skipped ← bounded_int report.reconciled.skipped
  lapi_requests ← bounded_int report.reconciled.lapi_requests
  active ← bounded_int active_decisions
  some (record {
    feeds_succeeded = n_succeeded;
    feeds_failed = n_failed;
    feeds_unchanged = n_unchanged;
    feeds_not_due = n_not_due;
    added = added;
    refreshed = refreshed;
    removed = removed;
    rejected = pos 0;
    skipped = skipped;
    lapi_requests = lapi_requests;
    active_decisions = active;
  })

abbrev pub same_int : ℤ → ℤ → Bool
same_int a b = pos_part a == pos_part b && neg_part a == neg_part b

-- The comparison of the counters with what the loop has counted.
unfoldable pub counters_agree : Report → Tally → Bool
counters_agree report t =
    same_int (pos t.succeeded) report.feeds_succeeded
    && same_int (pos t.failed) report.feeds_failed
    && same_int (pos t.unchanged) report.feeds_unchanged
    && same_int (pos t.not_due) report.feeds_not_due
    && same_int (pos t.suspicious) report.suspicious_changes

-- The last `switch`: the outcome, the failure and whether a retry may help.
unfoldable pub outcome_of :
    Option RunError → ℤ → List FeedResult → Option (Outcome × FailureCategory × Bool)
unfolding classify_failure
outcome_of none feeds_failed feeds =
    unless (not (same_int feeds_failed (pos 0)))
      (some (Outcome.success, FailureCategory.unset, false))
outcome_of (some e) feeds_failed feeds =
    if e.canceled
    then some (Outcome.cancelled, FailureCategory.cancelled, false)
    else (let c = classify_failure e feeds in
        some (if e.sync_degraded then Outcome.degraded else Outcome.failed, c.0, c.1))

unfoldable pub result_from_sync : Report → Option RunError → ℕ → ℕ → ℤ → Option Result
unfolding report_counts tally counters_agree outcome_of
result_from_sync report err started_at completed_at active_decisions = do
  counts ← report_counts report active_decisions
  reconcile_rejected ← bounded_int report.reconciled.rejected
  t ← tally report.feeds empty_tally
  suspicious ← bounded_int report.suspicious_changes
  rejected ← unless (not (counters_agree report t)) (add_bounded t.rejected reconcile_rejected)
  o ← outcome_of err report.feeds_failed t.feeds
  let r : Result = record {
    outcome = o.0;
    failure = o.1;
    retryable = o.2;
    started_at = started_at;
    completed_at = completed_at;
    counts = record counts { rejected = rejected };
    feeds = t.feeds;
  }
  unless (not (is_nil (validate_result r))) (some r)
