-- ===== src/State/Tables.antt =====
-- The tables of migrations/001_initial.sql that internal/state/enforcement_repository.go writes for
-- operations, and what a statement does to them. A row is found by its key, and a time is in seconds.
use crowdshield.Prelude.{
  [], ◌+◌, every, some, ◌^◌, ◌&&◌, if◌then◌else◌, ◌==◌, text_eq, length, true, false, ◌||◌, leb,
  ◌/◌, none, ◌∷◌, Option, Text, Bool, ℕ, List,
}
use crowdshield.Prelude.Int.{ℤ}
use crowdshield.Network.Address.{Prefix}
use crowdshield.Network.Desired.{Scope}
use crowdshield.State.Records.{OperationKind, OperationStatus, DecisionStatus}

pub data ErrorCategory : Type 0 where
  constraint not_found query integrity transaction : ErrorCategory

pub record FeedRow : Type 0 where
  pub id : ℤ
  pub name : Text

pub record ObjectRow : Type 0 where
  pub id : ℤ
  pub prefix : Prefix
  pub scope : Scope
  pub primary_feed_id : Option ℤ

pub record OperationRow : Type 0 where
  pub token : Text
  pub kind : OperationKind
  pub feed_id : ℤ
  pub duration_seconds : ℕ
  pub payload_hash : Text
  pub status : OperationStatus
  pub started_at : ℕ
  pub completed_at : Option ℕ
  pub error_category : Text

pub record ItemRow : Type 0 where
  pub operation_token : Text
  pub object_id : ℤ
  pub old_decision_row_id : Option ℤ

pub record AlertRow : Type 0 where
  pub id : ℤ
  pub alert_id : ℤ
  pub operation_token : Text
  pub machine_id : Text
  pub origin : Text
  pub scenario : Text
  pub verified_at : ℕ
  pub created_at : ℕ

pub record DecisionRow : Type 0 where
  pub id : ℤ
  pub object_id : ℤ
  pub alert_row_id : ℤ
  pub decision_id : ℤ
  pub origin : Text
  pub scenario : Text
  pub scope : Text
  pub value : Text
  pub created_at : ℕ
  pub expires_at : ℕ
  pub verified_at : ℕ
  pub status : DecisionStatus
  pub replaced_by_id : Option ℤ

pub record Tables : Type 0 where
  pub feeds : List FeedRow
  pub objects : List ObjectRow
  pub operations : List OperationRow
  pub items : List ItemRow
  pub alerts : List AlertRow
  pub decisions : List DecisionRow

-- `unix`: whole seconds, counted here from Go's zero time, which differs by a constant.
abbrev pub unix : ℕ → ℕ
unix t = t / 10 ^ 9

-- The first row that passes a test.
unfoldable pub find {ℓ} : {A : Type ℓ} → (A → Bool) → List A → Option A
find q [] = none
find q (x ∷ xs) = let rest = find q xs in if q x then some x else rest

unfoldable pub filter {ℓ} : {A : Type ℓ} → (A → Bool) → List A → List A
filter q [] = []
filter q (x ∷ xs) = let rest = filter q xs in if q x then x ∷ rest else rest

-- `UPDATE ... WHERE`: the rows after it.
unfoldable pub update {ℓ} : {A : Type ℓ} → (A → Bool) → (A → A) → List A → List A
update q f [] = []
update q f (x ∷ xs) = (if q x then f x else x) ∷ update q f xs

-- `RowsAffected`
unfoldable pub affected {ℓ} : {A : Type ℓ} → (A → Bool) → List A → ℕ
affected q [] = 0
affected q (x ∷ xs) = (if q x then 1 else 0) + affected q xs

abbrev pub has_token : Text → OperationRow → Bool
has_token token o = text_eq o.token token

unfoldable pub status_of : Text → List OperationRow → Option OperationStatus
unfolding find
status_of token ops = elim (find (has_token token) ops) [ none ↦ none | some o ↦ some o.status ]

abbrev pub is_pending : OperationStatus → Bool
is_pending OperationStatus.pending = true
is_pending _ = false

abbrev pub is_ambiguous : OperationStatus → Bool
is_ambiguous OperationStatus.ambiguous = true
is_ambiguous _ = false

abbrev pub is_completed : OperationStatus → Bool
is_completed OperationStatus.completed = true
is_completed _ = false

abbrev pub is_failed : OperationStatus → Bool
is_failed OperationStatus.failed = true
is_failed _ = false

abbrev pub is_active : DecisionStatus → Bool
is_active DecisionStatus.active = true
is_active _ = false

abbrev pub is_live : DecisionStatus → Bool
is_live DecisionStatus.active = true
is_live DecisionStatus.expiring = true
is_live _ = false

-- What a call of the store returns, with the tables after it.
pub data Result (A : Type 0) : Type 0 where
  ok : A → Result A
  err : ErrorCategory → Result A

abbrev pub Answer : Type 0 → Type 0
Answer A = Result A × Tables

-- [a-f0-9]{32}
abbrev pub is_hex_digit : ℕ → Bool
is_hex_digit c = (leb b'a' c && leb c b'f') || (leb b'0' c && leb c b'9')

unfoldable pub valid_token : Text → Bool
valid_token t = length t == 32 && every is_hex_digit t

-- `hex.DecodeString` takes both cases.
abbrev pub is_hex_any : ℕ → Bool
is_hex_any c = is_hex_digit c || (leb b'A' c && leb c b'F')

unfoldable pub valid_hash : Text → Bool
valid_hash t = length t == 64 && every is_hex_any t

-- [a-z][a-z0-9_]{0,63}
abbrev pub is_category_byte : ℕ → Bool
is_category_byte c = (leb b'a' c && leb c b'z') || (leb b'0' c && leb c b'9') || c == b'_'

unfoldable pub valid_category : Text → Bool
valid_category [] = false
valid_category (c ∷ s) = (leb b'a' c && leb c b'z') && leb (length s) 63 && every is_category_byte s
