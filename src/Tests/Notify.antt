-- ===== src/Tests/Notify.antt =====
-- internal/notify at concrete inputs.
use crowdshield.Prelude.{[], ◌∷◌, true, false, none, List}
use crowdshield.Ops.Vocabulary.{Severity}
use crowdshield.Notify.Manager.{Outside, Answers, Manager}
use crowdshield.Notify.Recorded.{IsRecorded}
use crowdshield.Notify.Trace.{Call, calls}
use crowdshield.Notify.Calls.{calls-IsRecorded}
use crowdshield.Tests.Samples.{good_result, failed_result}

-- The clock reads 1000 and the transport and the store never fail.
abbrev answers : Answers
answers = record {
  clock = λ i. 1000;
  load_fails = λ i. false;
  save_fails = λ i. false;
  send_fails = λ i. false;
}

abbrev manager : Manager
manager = record {
  enabled = true;
  closed = false;
  minimum_severity = Severity.info;
  failure_threshold = 2;
  cooldown = 60;
  recovery_notifications = true;
  suspicious_change_notifications = true;
  stale_sync_notifications = true;
  startup_notification = true;
  first_success_notification = false;
  routine_success_notification = false;
}

abbrev nothing_yet : Outside
nothing_yet = record { readings = 0; stored = λ k. none; actions = [] }

abbrev history : List Call
history =
    Call.started
    ∷ Call.synced failed_result
    ∷ Call.synced failed_result
    ∷ Call.synced good_result
    ∷ []

calls-IsRecorded_example : IsRecorded answers (calls answers manager history nothing_yet)
calls-IsRecorded_example = calls-IsRecorded answers manager history nothing_yet tt
