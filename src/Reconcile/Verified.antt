-- ===== src/Reconcile/Verified.antt =====
-- What the check of an alert guarantees.
use mathlib.Core.Path.{subst}
use crowdshield.Prelude.{
  length, refl, leb, text_eq_refl, sym, text_eq→eq, if◌then◌else◌, none, some, Option, ◌∙◌, ◌||◌,
  inr, inl, Bool-cases, false, All, Option-cases, arith, ◌<◌, [], bytes, text_eq, ◌&&◌, not, ◌∷◌,
  ◌≡◌, ℕ, exists, true, Text, Bool, List, some,
}
use crowdshield.Prelude.Int.{eq_ℤ_refl, eq_ℤ→eq, pos, ltb_ℤ, eq_ℤ, ℤ}
use crowdshield.State.Records.{
  Operation, VerifiedAlert, scope_text, EnforcementRecord, VerifiedDecision, OperationItem,
}
use crowdshield.Reconcile.Alerts.{
  alert_of, alert_differs, scenario_of, verify_decisions, verified_alert, Reconciler,
  decision_expiry, verified_decision, is_ours, expected_keys, verify_one, expected_id, object_value,
  record_by_id, object_key, Std,
}
use crowdshield.Lapi.Models.{Alert, Decision}
use mathlib.Core.Option.{some-injective}
use crowdshield.Reconcile.World.{Result}

-- The ids of the objects that the decisions are for.
abbrev pub has_id : ℤ → VerifiedDecision → Bool
has_id id v = eq_ℤ v.object_id id

abbrev pub distinct : List VerifiedDecision → Bool
distinct [] = true
distinct (v ∷ vs) = not (exists (has_id v.object_id) vs) && distinct vs

module _ (std : Std) (records : List EnforcementRecord) (items : List OperationItem) where
  -- A key of the map `expected`: an item of the operation has a record with the id and the key.
  pub record Expected (key : Text) (id : ℤ) : Type 0 where
    pub of_record : EnforcementRecord
    pub known : exists (λ (i : OperationItem). eq_ℤ i.object_id id) items ≡ true
    pub found : record_by_id id records ≡ some of_record
    pub same_key :
        text_eq (object_key (scope_text of_record.scope) (object_value std of_record)) key ≡ true

-- A decision that was verified at a time.
pub record IsVerified (std : Std) (records : List EnforcementRecord) (items : List OperationItem)
    (scenario : Text) (now : ℕ) (v : VerifiedDecision) : Type 0 where
  pub expected : Expected std records items (object_key v.scope v.value) v.object_id
  pub has_decision : ltb_ℤ (pos 0) v.decision_id ≡ true
  pub own_origin : text_eq v.origin (bytes "crowdshield") ≡ true
  pub own_scenario : text_eq v.scenario scenario ≡ true
  pub still_runs : now < v.expires_at

record_by_id-id :
    (id : ℤ) (records : List EnforcementRecord) (e : EnforcementRecord)
    → record_by_id id records ≡ some e
    → eq_ℤ e.id id ≡ true
unfolding record_by_id
record_by_id-id id [] e h = ground (arith, h)
record_by_id-id id (x ∷ xs) e h = elim (Option-cases (record_by_id id xs)) [
  | inl n ↦ ground (arith, rw n at h)
  | inr (y, s) ↦ record_by_id-id id xs e (s ∙ rw s at h)
]

module _ (std : Std) (records : List EnforcementRecord) (all : List OperationItem) where
  abbrev Entry : Text × ℤ → Type 0
  Entry e = Expected std records all e.0 e.1

  -- The entry that an item makes.
  item_entry :
      (i : OperationItem) (e : EnforcementRecord)
      → exists (λ (j : OperationItem). eq_ℤ j.object_id i.object_id) all ≡ true
      → record_by_id i.object_id records ≡ some e
      → Entry (object_key (scope_text e.scope) (object_value std e), e.id)
  item_entry i e k f =
      let same : e.id ≡ i.object_id =
        eq_ℤ→eq e.id i.object_id (record_by_id-id i.object_id records e f) in
      record {
        of_record = e;
        known =
            subst (λ id. exists (λ (j : OperationItem). eq_ℤ j.object_id id) all ≡ true) (sym same)
              k;
        found = subst (λ id. record_by_id id records ≡ some e) (sym same) f;
        same_key = text_eq_refl (object_key (scope_text e.scope) (object_value std e));
      }

  expected_keys-Entry :
      (items : List OperationItem) (m m' : List (Text × ℤ))
      → ((id : ℤ)
          → exists (λ (j : OperationItem). eq_ℤ j.object_id id) items ≡ true
          → exists (λ (j : OperationItem). eq_ℤ j.object_id id) all ≡ true)
      → All Entry m
      → expected_keys std records items m ≡ some m'
      → All Entry m'
  unfolding expected_keys
  expected_keys-Entry [] m m' w a h = subst (All Entry) (some-injective m m' h) a
  expected_keys-Entry (i ∷ items) m m' w a h =
      elim (Option-cases (record_by_id i.object_id records)) [
        | inl n ↦ absurd (ground (arith, rw (n, expected_keys) at h))
        | inr (e, f) ↦
            expected_keys-Entry items
              ((object_key (scope_text e.scope) (object_value std e), e.id) ∷ m) m'
              (λ id k. w id (ground (arith, k)))
              (item_entry i e (w i.object_id (ground (arith, eq_ℤ_refl i.object_id))) f, a)
              (rw (f, expected_keys) at h)
      ]

  expected_id-Expected :
      (key : Text) (m : List (Text × ℤ)) (id : ℤ)
      → All Entry m
      → expected_id std key m ≡ some id
      → Expected std records all key id
  unfolding expected_id
  expected_id-Expected key [] id a h = absurd (ground (arith, h))
  expected_id-Expected key ((k, j) ∷ m) id a h = elim (Bool-cases (text_eq k key)) [
    | inl y ↦
        subst (λ t. Expected std records all t id) (text_eq→eq k key y)
          (subst (λ t. Expected std records all k t) (some-injective j id (rw y at h)) a.0)
    | inr n ↦ expected_id-Expected key m id a.1 (rw n at h)
  ]

  verify_one-IsVerified :
      (m : List (Text × ℤ)) (scenario : Text) (now duration : ℕ) (seen : List ℤ) (d : Decision)
      → (v : VerifiedDecision) → All Entry m
      → verify_one std m scenario now duration seen d ≡ some v
      → IsVerified std records all scenario now v × (exists (eq_ℤ v.object_id) seen ≡ false)
  unfolding verify_one
  verify_one-IsVerified m scenario now duration seen d v a h =
      elim (Option-cases (expected_id std (object_key d.scope d.value) m)) [
        | inl n ↦ absurd (ground (arith, rw (n, verify_one) at h))
        | inr (id, f) ↦
            checked id (expected_id-Expected (object_key d.scope d.value) m id a f)
              (rw (f, verify_one) at h)
      ]
    where
      finished :
          (id : ℤ)
          → Expected std records all (object_key d.scope d.value) id
          → (not (is_ours std scenario d) || exists (eq_ℤ id) seen) ≡ false
          → (x : Option ℕ)
          → (elim x as (λ _. Option VerifiedDecision) [
            | none ↦ none
            | some expires ↦
                if leb expires now then none else some (verified_decision std d id expires)
          ])
            ≡ some v
          → IsVerified std records all scenario now v × (exists (eq_ℤ v.object_id) seen ≡ false)
      finished id e o none h = absurd (ground (arith, h))
      finished id e o (some expires) h = elim (Bool-cases (leb expires now)) [
        | inl y ↦ absurd (ground (arith, rw y at h))
        | inr z ↦
            subst
              (λ v.
                IsVerified std records all scenario now v
                × (exists (eq_ℤ v.object_id) seen ≡ false))
              (some-injective (verified_decision std d id expires) v (rw z at h))
              (
                record {
                  expected = e;
                  has_decision = ground (arith, o);
                  own_origin = ground (arith, o);
                  own_scenario = ground (arith, o);
                  still_runs = ground (arith, z);
                },
                ground (arith, o),
              )
      ]

      checked :
          (id : ℤ)
          → Expected std records all (object_key d.scope d.value) id
          → (if not (is_ours std scenario d) || exists (eq_ℤ id) seen
              then none
              else elim (decision_expiry std d now duration) as (λ _. Option VerifiedDecision) [
                | none ↦ none
                | some expires ↦
                    if leb expires now then none else some (verified_decision std d id expires)
              ])
            ≡ some v
          → IsVerified std records all scenario now v × (exists (eq_ℤ v.object_id) seen ≡ false)
      checked id e h = elim (Bool-cases (not (is_ours std scenario d) || exists (eq_ℤ id) seen)) [
        | inl y ↦ absurd (ground (arith, rw y at h))
        | inr n ↦ finished id e n (decision_expiry std d now duration) (rw n at h)
      ]

  -- No decision is for an object that was seen before.
  abbrev Unseen : List ℤ → VerifiedDecision → Type 0
  Unseen seen v = exists (eq_ℤ v.object_id) seen ≡ false

  record Loop (scenario : Text) (now : ℕ) (seen : List ℤ) (ds : List Decision)
      (vs : List VerifiedDecision) : Type 0 where
    checked : All (IsVerified std records all scenario now) vs
    unseen : All (Unseen seen) vs
    apart : distinct vs ≡ true
    as_many : length vs ≡ length ds

  Unseen-tail :
      (id : ℤ) (seen : List ℤ) (vs : List VerifiedDecision)
      → All (Unseen (id ∷ seen)) vs
      → All (Unseen seen) vs × (exists (has_id id) vs ≡ false)
  Unseen-tail id seen [] u = (tt, refl)
  Unseen-tail id seen (v ∷ vs) u =
      let (a, b) = Unseen-tail id seen vs u.1 in ((ground (arith, u.0), a), ground (arith, u.0, b))

  verify_decisions-Loop :
      (m : List (Text × ℤ)) (scenario : Text) (now duration : ℕ) (seen : List ℤ)
      (ds : List Decision)
      → (vs : List VerifiedDecision) → All Entry m
      → verify_decisions std m scenario now duration seen ds ≡ some vs
      → Loop scenario now seen ds vs
  unfolding verify_decisions
  verify_decisions-Loop m scenario now duration seen [] vs a h =
      subst (Loop scenario now seen []) (some-injective [] vs h)
        (record { checked = tt; unseen = tt; apart = refl; as_many = refl })
  verify_decisions-Loop m scenario now duration seen (d ∷ ds) vs a h =
      elim (Option-cases (verify_one std m scenario now duration seen d)) [
        | inl n ↦ absurd (ground (arith, rw (n, verify_decisions) at h))
        | inr (v, f) ↦
            elim (Option-cases
              (verify_decisions std m scenario now duration (v.object_id ∷ seen) ds)) [
                | inl n ↦ absurd (ground (arith, rw (f, n, verify_decisions) at h))
                | inr (ws, g) ↦
                    let one = verify_one-IsVerified m scenario now duration seen d v a f in
                    let rest =
                      verify_decisions-Loop m scenario now duration (v.object_id ∷ seen) ds ws a
                        g in
                    let (u, b) = Unseen-tail v.object_id seen ws rest.unseen in
                    subst (Loop scenario now seen (d ∷ ds))
                      (some-injective (v ∷ ws) vs (rw (f, g, verify_decisions) at h))
                      (record {
                        checked = (one.0, rest.checked);
                        unseen = (one.1, u);
                        apart = ground (arith, b, rest.apart);
                        as_many = omega (arith, rest.as_many);
                      })
              ]
      ]

-- What a verified alert is worth.
pub record IsOwned (std : Std) (r : Reconciler) (op : Operation) (records : List EnforcementRecord)
    (now : ℕ) (v : VerifiedAlert) : Type 0 where
  pub own_machine : text_eq v.machine_id r.machine_id ≡ true
  pub own_scenario : text_eq v.scenario (scenario_of op.feed_name) ≡ true
  pub complete : length v.decisions ≡ length op.items
  pub apart : distinct v.decisions ≡ true
  pub checked : All (IsVerified std records op.items v.scenario now) v.decisions

-- A verified alert is of this machine and of the operation's feed, and has as many decisions as the
-- operation has items, all for different objects; each decision is of this program and of the alert's
-- scenario, runs out after the check, and is for the object of an item, with the scope and the value
-- of that object's record.
pub verified_alert-IsOwned :
    (std : Std) (r : Reconciler) (op : Operation) (remote : Alert)
    (records : List EnforcementRecord)
    → (now : ℕ) (v : VerifiedAlert) → verified_alert std r op remote records now ≡ Result.ok v
    → IsOwned std r op records now v
unfolding verified_alert
verified_alert-IsOwned std r op remote records now v h =
    elim (Bool-cases (alert_differs std r op remote)) [
      | inl y ↦ absurd (ground (arith, rw (y, verified_alert) at h))
      | inr n ↦ elim (Option-cases (expected_keys std records op.items [])) [
        | inl k ↦ absurd (ground (arith, rw (n, k, verified_alert) at h))
        | inr (m, f) ↦
            elim (Option-cases
              (verify_decisions std m remote.scenario now r.duration [] remote.decisions)) [
                | inl k ↦ absurd (ground (arith, rw (n, f, k, verified_alert) at h))
                | inr (vs, g) ↦
                    let entries =
                      expected_keys-Entry std records op.items op.items [] m (λ id k. k) tt f in
                    let loop =
                      verify_decisions-Loop std records op.items m remote.scenario now r.duration []
                        remote.decisions vs entries g in
                    let same : alert_of std remote vs ≡ v =
                      cc (rw (n, f, g, verified_alert) at h) in
                    subst (IsOwned std r op records now) same (record {
                      own_machine = ground (arith, n);
                      own_scenario = ground (arith, n);
                      complete = ground (arith, n, loop.as_many);
                      apart = loop.apart;
                      checked = loop.checked;
                    })
              ]
      ]
    ]
