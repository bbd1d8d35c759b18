-- ===== src/Reconcile/Discipline.antt =====
-- The order in which a run of the reconciler may make its calls.
use crowdshield.Prelude.{
  suc, none, some, ◌++◌, bytes, [], refl, ◌+◌, if◌then◌else◌, ◌&&◌, false, exists, ◌∷◌, true, some,
  ◌≡◌, text_eq, Bool, ℕ, Text,
}
use crowdshield.Prelude.Int.{eq_ℤ, ℤ}
use crowdshield.Lapi.Models.{Decision, Alert}
use crowdshield.State.Records.{is_verified, Operation}
use crowdshield.Reconcile.World.{
  expect, continue, Call, Result, ErrorCategory, Reply, Run, World, History,
}

-- A ban of this program with the id.
abbrev pub is_own_ban : ℤ → Decision → Bool
is_own_ban id m =
    eq_ℤ m.id id && (text_eq m.origin (bytes "crowdshield") && text_eq m.kind (bytes "ban"))

-- The last call has read an alert of this machine that holds such a ban.
abbrev pub may_expire : Text → ℤ → History → Bool
may_expire machine id (Call.get_alert a (Reply.ok remote) ∷ h) =
    text_eq remote.machine_id machine && exists (is_own_ban id) remote.decisions
may_expire machine id _ = false

-- The last call has begun the operation, or has found no alert of it.
abbrev pub may_create : Text → History → Bool
may_create token (Call.begin_operation op (Reply.ok _) ∷ h) = text_eq op.token token
may_create token (Call.find_operation name t (Reply.ok none) ∷ h) = text_eq t token
may_create token _ = false

-- An alert of this machine for the operation.
abbrev pub attests : Text → Text → Alert → Bool
attests machine token remote =
    text_eq remote.machine_id machine
    && text_eq remote.scenario_hash (bytes "crowdshield:" ++ token)

-- The last call has read such an alert.
abbrev pub may_record : Text → Text → History → Bool
may_record machine token (Call.get_alert a (Reply.ok remote) ∷ h) = attests machine token remote
may_record machine token (Call.find_operation name t (Reply.ok (some remote)) ∷ h) =
    attests machine token remote
may_record machine token _ = false

-- A call after which the store has the operation as verified.
abbrev pub is_verified_as : Text → Operation → Bool
is_verified_as token op = text_eq op.token token && is_verified op.status

abbrev pub verifies : Text → Call → Bool
verifies token (Call.record_verified_operation t v (Reply.ok _)) = text_eq t token
verifies token (Call.open_operations (Reply.ok ops)) = exists (is_verified_as token) ops
verifies token _ = false

abbrev pub may_begin : Text → History → Bool
may_begin token (Call.draw_token (Reply.ok t) ∷ h) = text_eq t token
may_begin token _ = false

-- Whether a call may follow a history.
abbrev pub allowed : Text → Call → History → Bool
allowed machine (Call.expire_decision id reply) h = may_expire machine id h
allowed machine (Call.create_alert request reply) h = may_create request.operation_token h
allowed machine (Call.record_verified_operation token v reply) h = may_record machine token h
allowed machine (Call.complete_operation token reply) h = exists (verifies token) h
allowed machine (Call.begin_operation op reply) h = may_begin op.token h
allowed machine _ h = true

abbrev pub all_allowed : Text → History → Bool
all_allowed machine [] = true
all_allowed machine (c ∷ h) = allowed machine c h && all_allowed machine h

abbrev pub is_request : Call → Bool
is_request (Call.get_alert id reply) = true
is_request (Call.find_operation name token reply) = true
is_request (Call.create_alert request reply) = true
is_request (Call.expire_decision id reply) = true
is_request _ = false

-- The calls of the local API.
abbrev pub requests : History → ℕ
requests [] = 0
requests (c ∷ h) = (if is_request c then 1 else 0) + requests h

-- Every call was allowed when it was made, and the report counts the requests.
pub record Disciplined (machine : Text) (s : World) : Type 0 where
  pub orderly : all_allowed machine s.history ≡ true
  pub counted : s.report.lapi_requests ≡ requests s.history

-- After a request that the report counts.
abbrev pub after_request : Call → World → World
after_request c s = record {
  report = record s.report { lapi_requests = suc s.report.lapi_requests };
  history = c ∷ s.history;
}

module _ {A B : Type 0} (P Q : World → Type 0) where
  -- What the parts of a chain keep, the chain keeps.
  pub continue-keeps :
      (x : Result A × World) (f : A → Run B)
      → (P x.1 → Q x.1)
      → ((a : A) (s : World) → P s → Q (f a s).1)
      → P x.1
      → Q (continue x f).1
  continue-keeps (Result.ok a, s) f weaker step p = step a s p
  continue-keeps (Result.err c, s) f weaker step p = weaker p

-- `expect` changes nothing.
pub expect-keeps :
    {A : Type 0} (P : World → Type 0) (c : ErrorCategory) (reply : Reply A) (s : World)
    → P s
    → P (expect c reply s).1
expect-keeps P c (Reply.ok a) s p = p
expect-keeps P c Reply.not_found s p = p
expect-keeps P c Reply.failed s p = p

pub if-keeps :
    {A : Type 0} (P : World → Type 0) (b : Bool) (m n : Run A) (s : World)
    → (b ≡ true → P (m s).1)
    → (b ≡ false → P (n s).1)
    → P ((if b then m else n) s).1
if-keeps P true m n s x y = x refl
if-keeps P false m n s x y = y refl
