-- ===== src/State/Records.antt =====
-- internal/state/enforcement_repository.go and feed_repository.go: the records of the store.
use crowdshield.Prelude.{false, List, ℕ, true, bytes, Option, Text, Bool}
use crowdshield.Prelude.Int.{ℤ}
use crowdshield.Network.Address.{Prefix}
use crowdshield.Network.Safety.{Kind}
use crowdshield.Network.Desired.{Scope, Suppression, Contributor}

-- `feed.Entry`
pub record Entry : Type 0 where
  pub prefix : Prefix
  pub kind : Kind

pub record StoredEntry : Type 0 where
  pub feed_id : ℤ
  pub feed_name : Text
  pub entry : Entry
  pub first_seen : ℕ
  pub last_seen : ℕ
  pub missing_runs : ℕ
  pub active : Bool

-- `SuppressionStale` beside the suppressions of `BuildDesired`.
pub data StoredSuppression : Type 0 where
  of_object : Suppression → StoredSuppression
  stale : StoredSuppression

pub record EnforcementRecord : Type 0 where
  pub id : ℤ
  pub prefix : Prefix
  pub scope : Scope
  pub desired : Bool
  pub suppression : StoredSuppression
  pub primary_feed_id : Option ℤ
  pub sources : List Contributor

pub data OperationKind : Type 0 where
  create refresh expire recover : OperationKind

-- `unset` is the empty string, as a new operation has it.
pub data OperationStatus : Type 0 where
  unset pending verified completed failed ambiguous : OperationStatus

pub record OperationItem : Type 0 where
  pub object_id : ℤ
  pub old_decision_row_id : Option ℤ

pub record Operation : Type 0 where
  pub token : Text
  pub kind : OperationKind
  pub feed_id : ℤ
  pub feed_name : Text
  pub duration : ℤ
  pub payload_hash : Text
  pub status : OperationStatus
  pub items : List OperationItem
  pub started_at : ℕ
  pub completed_at : Option ℕ

pub record VerifiedDecision : Type 0 where
  pub object_id : ℤ
  pub decision_id : ℤ
  pub origin : Text
  pub scenario : Text
  pub scope : Text
  pub value : Text
  pub expires_at : ℕ

pub record VerifiedAlert : Type 0 where
  pub alert_id : ℤ
  pub machine_id : Text
  pub origin : Text
  pub scenario : Text
  pub decisions : List VerifiedDecision

pub data DecisionStatus : Type 0 where
  active expiring expired orphaned : DecisionStatus

pub record DecisionRecord : Type 0 where
  pub id : ℤ
  pub object_id : ℤ
  pub alert_id : ℤ
  pub decision_id : ℤ
  pub operation_token : Text
  pub machine_id : Text
  pub origin : Text
  pub scenario : Text
  pub scope : Scope
  pub value : Text
  pub created_at : ℕ
  pub expires_at : ℕ
  pub verified_at : ℕ
  pub status : DecisionStatus
  pub replaced_by_id : Option ℤ

abbrev pub is_verified : OperationStatus → Bool
is_verified OperationStatus.verified = true
is_verified _ = false

-- A `network.Scope` as its string.
abbrev pub scope_text : Scope → Text
scope_text Scope.ip = bytes "Ip"
scope_text Scope.range = bytes "Range"
