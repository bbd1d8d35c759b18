-- ===== src/Tests/State.antt =====
-- internal/state at concrete inputs.
use crowdshield.Prelude.{
  every, All, map, [], ◌∷◌, true, List, bytes, Text, ◌≡◌, refl, some, none, ◌*◌, ◌^◌,
}
use crowdshield.State.Records.{
  DecisionStatus, Operation, OperationKind, OperationStatus, VerifiedAlert,
}
use crowdshield.State.Tables.{DecisionRow, Tables, status_of}
use crowdshield.State.Verification.{Printer}
use crowdshield.State.Calls.{apply, apply_all, StoreCall, apply_all-Follows}
use crowdshield.State.Moves.{Follows}
use crowdshield.State.Decisions.{Grows, apply_all-Grows}
use crowdshield.Network.Desired.{Candidate, build_desired}
use crowdshield.Ops.FeedName.{match_feed_name}
use crowdshield.State.Begun.{IsBegun, begin_operation-IsBegun}
use crowdshield.State.Operations.{begin_operation}
use crowdshield.Network.Safety.{Kind, quad}
use crowdshield.Prelude.Int.{pos}
use crowdshield.Network.Desired.{Scope}
use crowdshield.State.Plans.{build_desired-validated, Named}
use crowdshield.State.Enforcement.{validate_enforcement_object}

abbrev token : Text
token = bytes "0123456789abcdef0123456789abcdef"

abbrev tables : Tables
tables = record {
  feeds = record { id = pos 1; name = bytes "drop" } ∷ [];
  objects =
      record {
        id = pos 7;
        prefix = quad 8 8 8 8 32;
        scope = Scope.ip;
        primary_feed_id = some (pos 1);
      }
      ∷ [];
  operations = [];
  items = [];
  alerts = [];
  decisions = [];
}

abbrev operation : Operation
operation = record {
  token = token;
  kind = OperationKind.create;
  feed_id = pos 1;
  feed_name = bytes "drop";
  duration = pos (3600 * 10 ^ 9);
  payload_hash = bytes "0123456789abcdef0123456789abcdef0123456789abcdef0123456789abcdef";
  status = OperationStatus.pending;
  items = record { object_id = pos 7; old_decision_row_id = none } ∷ [];
  started_at = 10 ^ 12;
  completed_at = none;
}

abbrev printer : Printer
printer = record { addr_string = λ a. bytes "8.8.8.8"; prefix_string = λ p. bytes "8.8.8.8/32" }

abbrev alert : VerifiedAlert
alert = record {
  alert_id = pos 3;
  machine_id = bytes "m";
  origin = bytes "crowdshield";
  scenario = bytes "crowdshield/drop";
  decisions =
      record {
        object_id = pos 7;
        decision_id = pos 9;
        origin = bytes "crowdshield";
        scenario = bytes "crowdshield/drop";
        scope = bytes "Ip";
        value = bytes "8.8.8.8";
        expires_at = 4600 * 10 ^ 9;
      }
      ∷ [];
}

-- An operation that is recorded and completed.
abbrev good_calls : List StoreCall
good_calls =
    StoreCall.begins true operation
    ∷ StoreCall.records printer true token alert (1001 * 10 ^ 9)
    ∷ StoreCall.completes true token (1002 * 10 ^ 9)
    ∷ []

abbrev begun : Tables
unfolding apply_all apply
begun = apply_all (StoreCall.begins true operation ∷ []) tables

good_calls_complete :
    status_of token (apply_all good_calls tables).operations ≡ some OperationStatus.completed
unfolding apply_all apply status_of
good_calls_complete = refl

apply_all-Follows_example :
    Follows
      (status_of token begun.operations)
      (status_of token (apply_all good_calls begun).operations)
apply_all-Follows_example = apply_all-Follows token good_calls begun

-- One that failed before its alert arrives.
abbrev failed : Tables
unfolding apply_all apply
failed =
    apply_all
      (StoreCall.sets true token OperationStatus.failed (bytes "lapi_rejected") (10 ^ 12) ∷ [])
      begun

-- The decision that the operation's alert brought, when it has expired.
abbrev enforced : Tables
unfolding apply_all apply
enforced = apply_all good_calls tables

abbrev expiry : List StoreCall
expiry = StoreCall.expires true (pos 1) (5000 * 10 ^ 9) ∷ []

expiry_affects :
    map (λ (d : DecisionRow). d.status) (apply_all expiry enforced).decisions
    ≡ DecisionStatus.expired ∷ []
unfolding apply_all apply enforced
expiry_affects = refl

apply_all-Grows_example : Grows enforced.decisions (apply_all expiry enforced).decisions
apply_all-Grows_example = apply_all-Grows expiry enforced

-- A host and a range around it.
abbrev candidates : List Candidate
candidates =
    record {
      prefix = quad 8 8 8 8 32;
      kind = Kind.ip;
      feed_id = pos 1;
      feed_name = bytes "drop";
      feed_order = pos 0;
    }
    ∷ record {
      prefix = quad 8 8 8 0 24;
      kind = Kind.range;
      feed_id = pos 2;
      feed_name = bytes "net-2";
      feed_order = pos 1;
    }
    ∷ []

candidates-Named : All Named candidates
unfolding match_feed_name
candidates-Named = (refl, (refl, tt))

build_desired-validated_example :
    every validate_enforcement_object (build_desired candidates []).0 ≡ true
build_desired-validated_example = build_desired-validated candidates [] candidates-Named

begin_operation-IsBegun_example : IsBegun operation tables (begin_operation true operation tables).1
unfolding begin_operation
begin_operation-IsBegun_example = begin_operation-IsBegun true operation tables refl
