-- ===== src/Lapi/Models.antt =====
-- internal/lapi/models.go: what the client takes and returns.
use crowdshield.Prelude.{List, Text}
use crowdshield.Prelude.Int.{ℤ}

pub record DecisionInput : Type 0 where
  pub scope : Text
  pub value : Text

pub record CreateRequest : Type 0 where
  pub feed_name : Text
  pub operation_token : Text
  pub duration : ℤ
  pub decisions : List DecisionInput

pub record Decision : Type 0 where
  pub id : ℤ
  pub origin : Text
  pub kind : Text
  pub scope : Text
  pub value : Text
  pub duration : Text
  pub until : Text
  pub scenario : Text

pub record Alert : Type 0 where
  pub id : ℤ
  pub machine_id : Text
  pub scenario : Text
  pub scenario_hash : Text
  pub scenario_version : Text
  pub message : Text
  pub decisions : List Decision
