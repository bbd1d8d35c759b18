-- ===== src/Reconcile/World.antt =====
-- internal/reconcile/reconcile.go: the interfaces `stateStore` and `lapiClient`, and what a run keeps.
-- The store and the client are any environment: each answer may depend on all calls before it.
use crowdshield.Prelude.{Option, Text, ◌∷◌, ℕ, suc, List}
use crowdshield.Prelude.Int.{ℤ}
use crowdshield.Network.Desired.{Object}
use crowdshield.Lapi.Models.{CreateRequest, Alert}
use crowdshield.State.Records.{
  OperationStatus, VerifiedAlert, Operation, DecisionRecord, EnforcementRecord, StoredEntry,
}

pub data ErrorCategory : Type 0 where
  busy contract state lapi ownership token : ErrorCategory

-- The answer of a call that may fail; of an error the code asks only whether it is `lapi.ErrNotFound`.
pub data Reply (A : Type 0) : Type 0 where
  ok : A → Reply A
  not_found : Reply A
  failed : Reply A

-- The calls that change nothing in the store or the local API, and those that do.
pub data Call : Type 0 where
  list_active_entries : Reply (List StoredEntry) → Call
  list_enforcement_objects : Reply (List EnforcementRecord) → Call
  list_active_decisions : Reply (List DecisionRecord) → Call
  list_live_decisions : Reply (List DecisionRecord) → Call
  open_operations : Reply (List Operation) → Call
  draw_token : Reply Text → Call
  get_alert : ℤ → Reply Alert → Call
  find_operation : Text → Text → Reply (Option Alert) → Call
  apply_enforcement_plan : List Object → Reply (List EnforcementRecord) → Call
  mark_decision_expired : ℤ → Reply (Unit {0}) → Call
  begin_operation : Operation → Reply (Unit {0}) → Call
  record_verified_operation : Text → VerifiedAlert → Reply (Unit {0}) → Call
  complete_operation : Text → Reply (Unit {0}) → Call
  set_operation_status : Text → OperationStatus → Text → Reply (Unit {0}) → Call
  create_alert : CreateRequest → Reply ℤ → Call
  expire_decision : ℤ → Reply (Unit {0}) → Call

-- The calls of a run so far, the latest first.
abbrev pub History : Type 0
History = List Call

pub record Environment : Type 0 where
  pub list_active_entries : History → Reply (List StoredEntry)
  pub list_enforcement_objects : History → Reply (List EnforcementRecord)
  pub list_active_decisions : History → Reply (List DecisionRecord)
  pub list_live_decisions : History → Reply (List DecisionRecord)
  pub open_operations : History → Reply (List Operation)
  pub draw_token : History → Reply Text
  pub get_alert : History → ℤ → Reply Alert
  pub find_operation : History → Text → Text → Reply (Option Alert)
  pub apply_enforcement_plan : History → List Object → Reply (List EnforcementRecord)
  pub mark_decision_expired : History → ℤ → Reply (Unit {0})
  pub begin_operation : History → Operation → Reply (Unit {0})
  pub record_verified_operation : History → Text → VerifiedAlert → Reply (Unit {0})
  pub complete_operation : History → Text → Reply (Unit {0})
  pub set_operation_status : History → Text → OperationStatus → Text → Reply (Unit {0})
  pub create_alert : History → CreateRequest → Reply ℤ
  pub expire_decision : History → ℤ → Reply (Unit {0})

pub record Report : Type 0 where
  pub added : ℕ
  pub refreshed : ℕ
  pub removed : ℕ
  pub recovered : ℕ
  pub rejected : ℕ
  pub skipped : ℕ
  pub lapi_requests : ℕ

-- The report is a variable that every step of a run may write.
pub record World : Type 0 where
  pub report : Report
  pub history : History

pub data Result (A : Type 0) : Type 0 where
  ok : A → Result A
  err : ErrorCategory → Result A

abbrev pub Run : Type 0 → Type 0
Run A = World → Result A × World

module _ {A : Type 0} where
  abbrev pub pure : A → Run A
  pure a s = (Result.ok a, s)

  abbrev pub fail : ErrorCategory → Run A
  fail c s = (Result.err c, s)

-- A return of no error.
abbrev pub done : Run (Unit {0})
done = pure tt

module _ {A B : Type 0} where
  abbrev pub continue : Result A × World → (A → Run B) → Result B × World
  continue (Result.ok a, s) f = f a s
  continue (Result.err c, s) f = (Result.err c, s)

  infixl 5 ◌>>=◌
  abbrev pub ◌>>=◌ : Run A → (A → Run B) → Run B
  ◌>>=◌ m f s = continue (m s) f

infixl 5 ◌>>◌
abbrev pub ◌>>◌ : {B : Type 0} → Run (Unit {0}) → Run B → Run B
m >> k = m >>= λ _. k

-- Write the report.
abbrev pub tell : (Report → Report) → Run (Unit {0})
tell f s = (Result.ok tt, record s { report = f s.report })

abbrev pub count_request : Run (Unit {0})
count_request = tell (λ r. record r { lapi_requests = suc r.lapi_requests })

-- Make a call: the environment answers, and the call joins the history.
abbrev pub ask : {A : Type 0} → (History → Reply A) → (Reply A → Call) → Run (Reply A)
ask answer call s =
    let reply = answer s.history in (Result.ok reply, record s { history = call reply ∷ s.history })

-- `if err != nil { return reconcileError(category, err) }`
abbrev pub expect : {A : Type 0} → ErrorCategory → Reply A → Run A
expect c (Reply.ok a) = pure a
expect c Reply.not_found = fail c
expect c Reply.failed = fail c
