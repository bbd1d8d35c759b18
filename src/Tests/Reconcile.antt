-- ===== src/Tests/Reconcile.antt =====
-- internal/reconcile at concrete inputs.
use crowdshield.Prelude.{
  ◌++◌, ℕ, arith, All, ◌+◌, refl, ◌^◌, ◌≡◌, ◌*◌, true, Text, ◌∷◌, bytes, every, false, [], none,
  some,
}
use crowdshield.Prelude.Int.{pos}
use crowdshield.Network.Safety.{Kind, quad}
use crowdshield.Network.Desired.{build_desired, Scope, Suppression, Contributor, Object}
use crowdshield.Lapi.Models.{Decision, Alert}
use crowdshield.State.Records.{
  Operation, EnforcementRecord, OperationKind, OperationStatus, StoredSuppression, VerifiedAlert,
}
use crowdshield.Reconcile.World.{Result, Reply, Environment, World}
use crowdshield.Reconcile.Alerts.{verified_alert, Std, Reconciler}
use crowdshield.Reconcile.Run.{empty_report, RunOptions, run}
use crowdshield.Reconcile.Plan.{batches}
use crowdshield.Reconcile.Discipline.{Disciplined}
use crowdshield.Reconcile.DryCounts.{dry_run_counts, accounted}
use crowdshield.Reconcile.DryRun.{dry_run}
use crowdshield.Reconcile.Verified.{verified_alert-IsOwned, IsOwned}
use crowdshield.Reconcile.DryRuns.{is_listing}
use crowdshield.Reconcile.Batches.{concat-batches, Fits, concat}
use crowdshield.Reconcile.Orderly.{run-Disciplined}
use crowdshield.Reconcile.ReadOnly.{run-OnlyReads}

abbrev std : Std
std = record {
  parse_time = λ t. none;
  parse_duration = λ t. some (pos 3600000000000);
  addr_string = λ a. bytes "8.8.8.8";
  prefix_string = λ p. bytes "8.8.8.0/24";
  sha256_hex = λ t. [];
}

abbrev reconciler : Reconciler
reconciler = record {
  machine_id = bytes "m";
  duration = 4 * 3600 * 10 ^ 9;
  refresh_before = 3600;
  batch_size = 10;
}

abbrev source : Contributor
source = record { feed_id = pos 1; feed_name = bytes "drop"; feed_order = pos 0; kind = Kind.ip }

abbrev enforcement : EnforcementRecord
enforcement = record {
  id = pos 5;
  prefix = quad 8 8 8 8 32;
  scope = Scope.ip;
  desired = true;
  suppression = StoredSuppression.of_object Suppression.suppressed_none;
  primary_feed_id = some (pos 1);
  sources = source ∷ [];
}

-- 32 characters.
abbrev token : Text
token = bytes "0123456789abcdef0123456789abcdef"

abbrev decision : Decision
decision = record {
  id = pos 9;
  origin = bytes "crowdshield";
  kind = bytes "ban";
  scope = bytes "Ip";
  value = bytes "8.8.8.8";
  duration = bytes "1h";
  until = [];
  scenario = bytes "crowdshield/drop";
}

abbrev alert : Alert
alert = record {
  id = pos 7;
  machine_id = bytes "m";
  scenario = bytes "crowdshield/drop";
  scenario_hash = bytes "crowdshield:" ++ token;
  scenario_version = [];
  message = [];
  decisions = decision ∷ [];
}

-- One desired object, no decision and no open operation; every call succeeds.
abbrev environment : Environment
environment = record {
  list_active_entries = λ h. Reply.ok [];
  list_enforcement_objects = λ h. Reply.ok (enforcement ∷ []);
  list_active_decisions = λ h. Reply.ok [];
  list_live_decisions = λ h. Reply.ok [];
  open_operations = λ h. Reply.ok [];
  draw_token = λ h. Reply.ok token;
  get_alert = λ h id. Reply.ok alert;
  find_operation = λ h name t. Reply.ok none;
  apply_enforcement_plan = λ h objects. Reply.ok (enforcement ∷ []);
  mark_decision_expired = λ h id. Reply.ok tt;
  begin_operation = λ h op. Reply.ok tt;
  record_verified_operation = λ h t v. Reply.ok tt;
  complete_operation = λ h t. Reply.ok tt;
  set_operation_status = λ h t status category. Reply.ok tt;
  create_alert = λ h request. Reply.ok (pos 7);
  expire_decision = λ h id. Reply.ok tt;
}

abbrev enforcing : RunOptions
enforcing = record {
  allowlists = [];
  feed_order = [];
  dry_run = false;
  override_entries = false;
  entries = [];
}

abbrev operation : Operation
operation = record {
  token = token;
  kind = OperationKind.create;
  feed_id = pos 1;
  feed_name = bytes "drop";
  duration = pos (4 * 3600 * 10 ^ 9);
  payload_hash = [];
  status = OperationStatus.pending;
  items = record { object_id = pos 5; old_decision_row_id = none } ∷ [];
  started_at = 1000;
  completed_at = none;
}

-- The object's ban is created, with one request to make the alert and one to read it again.
run-report : (run std environment reconciler 1000 false enforcing).1.report ≡ record {
  added = 1;
  refreshed = 0;
  removed = 0;
  recovered = 0;
  rejected = 0;
  skipped = 0;
  lapi_requests = 2;
}
unfolding run build_desired
run-report = refl

run-Disciplined_example :
    Disciplined (bytes "m") (run std environment reconciler 1000 false enforcing).1
run-Disciplined_example = run-Disciplined std environment reconciler 1000 false enforcing

run-OnlyReads_example :
    every is_listing
      (run std environment reconciler 1000 false (record enforcing { dry_run = true })).1.history
    ≡ true
run-OnlyReads_example =
    run-OnlyReads std environment reconciler 1000 false (record enforcing { dry_run = true }) refl

abbrev verified : VerifiedAlert
verified = record {
  alert_id = pos 7;
  machine_id = bytes "m";
  origin = bytes "crowdshield";
  scenario = bytes "crowdshield/drop";
  decisions =
      record {
        object_id = pos 5;
        decision_id = pos 9;
        origin = bytes "crowdshield";
        scenario = bytes "crowdshield/drop";
        scope = bytes "Ip";
        value = bytes "8.8.8.8";
        expires_at = 3600000001000;
      }
      ∷ [];
}

alert-verified :
    verified_alert std reconciler operation alert (enforcement ∷ []) 1000 ≡ Result.ok verified
unfolding verified_alert
alert-verified = refl

verified_alert-IsOwned_example : IsOwned std reconciler operation (enforcement ∷ []) 1000 verified
verified_alert-IsOwned_example =
    verified_alert-IsOwned std reconciler operation alert (enforcement ∷ []) 1000 verified
      alert-verified

concat-batches_example :
    let bs = batches {A = ℕ} 3 2 (1 ∷ 2 ∷ 3 ∷ []) in
    (concat bs ≡ (1 ∷ 2 ∷ 3 ∷ [])) × All (Fits 2) bs
concat-batches_example = concat-batches {A = ℕ} 2 (1 ∷ 2 ∷ 3 ∷ []) (omega arith)

abbrev started : World
started = record { report = empty_report; history = [] }

abbrev object : Object
object = record {
  prefix = quad 8 8 8 8 32;
  scope = Scope.ip;
  contributors = source ∷ [];
  primary = source;
  desired = true;
  suppression = Suppression.suppressed_none;
  covered_by = none;
}

dry_run-succeeds : (dry_run std environment reconciler 1000 (object ∷ []) started).0 ≡ Result.ok tt
unfolding dry_run
dry_run-succeeds = refl

dry_run_counts_example :
    accounted (dry_run std environment reconciler 1000 (object ∷ []) started).1 ≡ 0 + 1
dry_run_counts_example =
    dry_run_counts std environment reconciler 1000 (object ∷ []) started dry_run-succeeds
