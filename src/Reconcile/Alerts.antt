-- ===== src/Reconcile/Alerts.antt =====
-- internal/reconcile/reconcile.go: the reconciler's settings, and the checks of an alert that was read.
use crowdshield.Prelude.{
  leb, ◌&&◌, ◌+◌, ◌==◌, text_eq, exists, length, is_empty, [], ◌∷◌, ◌||◌, bytes, not, false, ltb,
  none, some, ◌*◌, if◌then◌else◌, ◌^◌, ◌++◌, Bool, Text, ℕ, Option, List,
}
use crowdshield.Prelude.Int.{pos_part, eq_ℤ, pos, ltb_ℤ, ℤ}
use crowdshield.Network.Address.{Addr, Prefix}
use crowdshield.Network.Desired.{Scope}
use crowdshield.Lapi.Models.{Decision, Alert}
use crowdshield.State.Records.{
  scope_text, VerifiedAlert, VerifiedDecision, OperationItem, EnforcementRecord, Operation,
}
use crowdshield.Reconcile.World.{ErrorCategory, Result}

-- What the code calls of Go's standard library: `time.Parse` with RFC 3339, `time.ParseDuration`,
-- the `String` methods of net/netip, and SHA-256 in hexadecimal.
pub record Std : Type 0 where
  pub parse_time : Text → Option ℕ
  pub parse_duration : Text → Option ℤ
  pub addr_string : Addr → Text
  pub prefix_string : Prefix → Text
  pub sha256_hex : Text → Text

pub record Reconciler : Type 0 where
  pub machine_id : Text
  pub duration : ℕ
  pub refresh_before : ℕ
  pub batch_size : ℕ

pub record Options : Type 0 where
  pub has_store : Bool
  pub has_lapi : Bool
  pub machine_id : Text
  pub duration : ℤ
  pub refresh_before : ℤ
  pub batch_size : ℤ

abbrev pub second : ℕ
second = 10 ^ 9

abbrev pub minute : ℕ
minute = 60 * second

abbrev pub seven_days : ℕ
seven_days = 7 * 24 * 60 * minute

-- `strings.IndexFunc(s, unicode.IsControl) >= 0`: U+0000 to U+001F, U+007F, and U+0080 to U+009F,
-- which are the byte 0xc2 and one of 0x80 to 0x9f.
abbrev pub is_low_control : ℕ → Bool
is_low_control c = ltb c 32 || c == 127

unfoldable pub has_control : Text → Bool
has_control [] = false
has_control (c ∷ []) = is_low_control c
has_control (c ∷ d ∷ s) =
    is_low_control c || (c == 0xc2 && leb 0x80 d && leb d 0x9f) || has_control (d ∷ s)

unfoldable pub new : Options → Option Reconciler
unfolding has_control
new o =
    if not o.has_store
      || not o.has_lapi
      || is_empty o.machine_id
      || ltb 128 (length o.machine_id)
      || has_control o.machine_id
      || ltb_ℤ o.duration (pos minute)
      || ltb_ℤ (pos seven_days) o.duration
      || not (ltb_ℤ (pos 0) o.refresh_before)
      || not (ltb_ℤ o.refresh_before o.duration)
      || ltb_ℤ o.batch_size (pos 1)
      || ltb_ℤ (pos 500) o.batch_size
    then none
    else some (record {
      machine_id = o.machine_id;
      duration = pos_part o.duration;
      refresh_before = pos_part o.refresh_before;
      batch_size = pos_part o.batch_size;
    })

-- `records[id]`, for the map that a loop over the records fills: the last one with the key counts.
abbrev pub or_else : {A : Type 0} → Option A → Option A → Option A
or_else none b = b
or_else (some a) b = some a

unfoldable pub record_by_id : ℤ → List EnforcementRecord → Option EnforcementRecord
record_by_id id [] = none
record_by_id id (e ∷ es) = or_else (record_by_id id es) (if eq_ℤ e.id id then some e else none)

-- `"crowdshield/" + feedName`
abbrev pub scenario_of : Text → Text
scenario_of feed_name = bytes "crowdshield/" ++ feed_name

-- `scope + "\x00" + value`
abbrev pub object_key : Text → Text → Text
object_key scope value = scope ++ 0 ∷ value

abbrev pub value_of : Std → Scope → Prefix → Text
value_of std Scope.ip p = std.addr_string p.ip
value_of std Scope.range p = std.prefix_string p

module _ (std : Std) where
  abbrev pub object_value : EnforcementRecord → Text
  object_value e = value_of std e.scope e.prefix

  -- The map `expected`, the latest entry first; none if an item has no record.
  unfoldable pub expected_keys :
      List EnforcementRecord → List OperationItem → List (Text × ℤ) → Option (List (Text × ℤ))
  unfolding record_by_id
  expected_keys records [] m = some m
  expected_keys records (i ∷ items) m = elim (record_by_id i.object_id records) [
    | none ↦ none
    | some e ↦
        expected_keys records items ((object_key (scope_text e.scope) (object_value e), e.id) ∷ m)
  ]

  -- `decisionExpiry`; none stands for its errors.
  unfoldable pub decision_expiry : Decision → ℕ → ℕ → Option ℕ
  decision_expiry d now max_duration =
      if not (is_empty d.until)
      then std.parse_time d.until
      else if is_empty d.duration
      then none
      else elim (std.parse_duration d.duration) [
        | none ↦ none
        | some remaining ↦
            if ltb_ℤ remaining (pos 0) || ltb_ℤ (pos max_duration) remaining
            then none
            else some (now + pos_part remaining)
      ]

  unfoldable pub expected_id : Text → List (Text × ℤ) → Option ℤ
  expected_id key [] = none
  expected_id key ((k, id) ∷ m) =
      let rest = expected_id key m in if text_eq k key then some id else rest

  -- A decision that no other program can have made.
  abbrev pub is_ours : Text → Decision → Bool
  is_ours scenario d =
      ltb_ℤ (pos 0) d.id
      && text_eq d.origin (bytes "crowdshield")
      && text_eq d.kind (bytes "ban")
      && text_eq d.scenario scenario

  abbrev pub verified_decision : Decision → ℤ → ℕ → VerifiedDecision
  verified_decision d object_id expires = record {
    object_id = object_id;
    decision_id = d.id;
    origin = d.origin;
    scenario = d.scenario;
    scope = d.scope;
    value = d.value;
    expires_at = expires;
  }

  -- The checks of one decision: the object that it is for, and when it expires.
  unfoldable pub verify_one :
      List (Text × ℤ) → Text → ℕ → ℕ → List ℤ → Decision → Option VerifiedDecision
  unfolding expected_id decision_expiry
  verify_one expected scenario now duration seen d =
      elim (expected_id (object_key d.scope d.value) expected) [
        | none ↦ none
        | some id ↦
            if not (is_ours scenario d) || exists (eq_ℤ id) seen
            then none
            else elim (decision_expiry d now duration) [
              | none ↦ none
              | some expires ↦
                  if leb expires now then none else some (verified_decision d id expires)
            ]
      ]

  -- The loop over `remote.Decisions`.
  unfoldable pub verify_decisions :
      List (Text × ℤ) → Text → ℕ → ℕ → List ℤ → List Decision → Option (List VerifiedDecision)
  unfolding verify_one
  verify_decisions expected scenario now duration seen [] = some []
  verify_decisions expected scenario now duration seen (d ∷ ds) =
      elim (verify_one expected scenario now duration seen d) [
        | none ↦ none
        | some v ↦ elim (verify_decisions expected scenario now duration (v.object_id ∷ seen) ds) [
          | none ↦ none
          | some vs ↦ some (v ∷ vs)
        ]
      ]

  abbrev pub alert_differs : Reconciler → Operation → Alert → Bool
  alert_differs r op remote =
      not (ltb_ℤ (pos 0) remote.id)
      || not (text_eq remote.machine_id r.machine_id)
      || not (text_eq remote.scenario (scenario_of op.feed_name))
      || not (text_eq remote.scenario_hash (bytes "crowdshield:" ++ op.token))
      || not (length remote.decisions == length op.items)

  abbrev pub alert_of : Alert → List VerifiedDecision → VerifiedAlert
  alert_of remote vs = record {
    alert_id = remote.id;
    machine_id = remote.machine_id;
    origin = bytes "crowdshield";
    scenario = remote.scenario;
    decisions = vs;
  }

  unfoldable pub verified_alert :
      Reconciler → Operation → Alert → List EnforcementRecord → ℕ → Result VerifiedAlert
  unfolding expected_keys verify_decisions
  verified_alert r op remote records now =
      if alert_differs r op remote
      then Result.err ErrorCategory.ownership
      else elim (expected_keys records op.items []) [
        | none ↦ Result.err ErrorCategory.state
        | some expected ↦
            elim (verify_decisions expected remote.scenario now r.duration [] remote.decisions) [
              | none ↦ Result.err ErrorCategory.ownership
              | some vs ↦ Result.ok (alert_of remote vs)
            ]
      ]
