-- ===== src/State/Decisions.antt =====
-- What the calls that move an operation do to the table of decisions.
use crowdshield.State.Tables.{
  valid_category, has_token, is_pending, is_failed, is_completed, is_ambiguous, find, valid_token,
  OperationRow, Tables, is_active, is_live, update, DecisionRow, affected,
}
use crowdshield.State.Records.{
  is_verified, VerifiedAlert, OperationStatus, Operation, DecisionStatus, VerifiedDecision,
}
use crowdshield.Prelude.{
  length, none, ◌&&◌, bytes, is_empty, text_eq, every, ◌||◌, Option, not, Text, exists, ◌==◌, map,
  suc, Option-cases, some, inr, inl, arith, Bool-cases, [], true, ◌∷◌, refl, ◌++◌, ℕ, ◌∙◌, Bool,
  List, ◌≡◌,
}
use crowdshield.State.Verification.{
  decisions_fit, valid_bounded_text, same_alert, expected_items, alert_key, verify_found,
  verify_open, write_verified, verify_row, record_verified_operation, row_id, highest, new_row,
  replaced_row, can_replace, decision_row, ExpectedItem, replace_old, insert_decisions, Printer,
}
use crowdshield.Prelude.Int.{ltb_ℤ, eq_ℤ, pos, ℤ}
use mathlib.Core.Path.{subst}
use mathlib.Core.Option.{some-injective}
use crowdshield.State.Calls.{apply, StoreCall, apply_all}
use crowdshield.State.Operations.{
  item_fits, expired_row, can_expire, is_feed, valid_operation, begin_operation,
  set_operation_status, mark_decision_expired, complete_operation,
}
use crowdshield.State.Branches.{optional, either}
use crowdshield.Reconcile.Alerts.{scenario_of}

-- How a decision's status moves.
pub data Wanes : DecisionStatus → DecisionStatus → Type 0 where
  stays : {a : DecisionStatus} → Wanes a a
  ages : Wanes DecisionStatus.active DecisionStatus.expiring
  ends : Wanes DecisionStatus.active DecisionStatus.expired
  ends_late : Wanes DecisionStatus.expiring DecisionStatus.expired

-- A row later on.
pub record Later (d d' : DecisionRow) : Type 0 where
  pub same_id : d'.id ≡ d.id
  pub same_object : d'.object_id ≡ d.object_id
  pub same_alert : d'.alert_row_id ≡ d.alert_row_id
  pub same_decision : d'.decision_id ≡ d.decision_id
  pub wanes : Wanes d.status d'.status

-- Each row is still in its place, later, and there may be more rows.
abbrev pub Grows : List DecisionRow → List DecisionRow → Type 0
Grows [] ys = Unit
Grows (x ∷ xs) [] = ⊥
Grows (x ∷ xs) (y ∷ ys) = Later x y × Grows xs ys

Wanes-trans : {a b c : DecisionStatus} → Wanes a b → Wanes b c → Wanes a c
Wanes-trans w Wanes.stays = w
Wanes-trans Wanes.stays Wanes.ages = Wanes.ages
Wanes-trans Wanes.stays Wanes.ends = Wanes.ends
Wanes-trans Wanes.stays Wanes.ends_late = Wanes.ends_late
Wanes-trans Wanes.ages Wanes.ends_late = Wanes.ends

unchanged : (d : DecisionRow) → Later d d
unchanged d = record {
  same_id = refl;
  same_object = refl;
  same_alert = refl;
  same_decision = refl;
  wanes = Wanes.stays;
}

Later-trans : (a b c : DecisionRow) → Later a b → Later b c → Later a c
Later-trans a b c x y = record {
  same_id = y.same_id ∙ x.same_id;
  same_object = y.same_object ∙ x.same_object;
  same_alert = y.same_alert ∙ x.same_alert;
  same_decision = y.same_decision ∙ x.same_decision;
  wanes = Wanes-trans x.wanes y.wanes;
}

Grows-refl : (xs : List DecisionRow) → Grows xs xs
Grows-refl [] = tt
Grows-refl (x ∷ xs) = (unchanged x, Grows-refl xs)

Grows-trans : (xs ys zs : List DecisionRow) → Grows xs ys → Grows ys zs → Grows xs zs
Grows-trans [] ys zs f g = tt
Grows-trans (x ∷ xs) [] zs f g = absurd f
Grows-trans (x ∷ xs) (y ∷ ys) [] f g = absurd g
Grows-trans (x ∷ xs) (y ∷ ys) (z ∷ zs) f g =
    (Later-trans x y z f.0 g.0, Grows-trans xs ys zs f.1 g.1)

append-Grows : (xs ys : List DecisionRow) → Grows xs (xs ++ ys)
append-Grows [] ys = tt
append-Grows (x ∷ xs) ys = (unchanged x, append-Grows xs ys)

update-Grows :
    (q : DecisionRow → Bool) (f : DecisionRow → DecisionRow) (xs : List DecisionRow)
    → ((d : DecisionRow) → q d ≡ true → Later d (f d))
    → Grows xs (update q f xs)
unfolding update
update-Grows q f [] legal = tt
update-Grows q f (x ∷ xs) legal = (
  elim (Bool-cases (q x)) [ inl y ↦ rw y (legal x y) | inr n ↦ rw n (unchanged x) ],
  update-Grows q f xs legal,
)

-- What the guards of the two updates admit.
ages-Wanes : (s : DecisionStatus) → is_active s ≡ true → Wanes s DecisionStatus.expiring
ages-Wanes DecisionStatus.active h = Wanes.ages
ages-Wanes DecisionStatus.expiring h = absurd (ground (arith, h))
ages-Wanes DecisionStatus.expired h = absurd (ground (arith, h))
ages-Wanes DecisionStatus.orphaned h = absurd (ground (arith, h))

ends-Wanes : (s : DecisionStatus) → is_live s ≡ true → Wanes s DecisionStatus.expired
ends-Wanes DecisionStatus.active h = Wanes.ends
ends-Wanes DecisionStatus.expiring h = Wanes.ends_late
ends-Wanes DecisionStatus.expired h = absurd (ground (arith, h))
ends-Wanes DecisionStatus.orphaned h = absurd (ground (arith, h))

module _ (print : Printer) (now : ℕ) where
  insert_decisions-Grows :
      (alert : ℤ) (ds : List VerifiedDecision) (rows rows' : List DecisionRow)
      → insert_decisions print now alert ds rows ≡ some rows'
      → Grows rows rows'
  unfolding insert_decisions
  insert_decisions-Grows alert [] rows rows' h =
      subst (Grows rows) (some-injective rows rows' h) (Grows-refl rows)
  insert_decisions-Grows alert (d ∷ ds) rows rows' h =
      let row =
        decision_row print now alert d (pos (suc (highest (map (row_id print now) rows)))) in
      elim (Bool-cases (exists (λ (r : DecisionRow). eq_ℤ r.decision_id d.decision_id) rows)) [
        | inl y ↦ absurd (ground (arith, rw y at h))
        | inr n ↦
            Grows-trans rows (rows ++ row ∷ []) rows' (append-Grows rows (row ∷ []))
              (insert_decisions-Grows alert ds (rows ++ row ∷ []) rows' (rw n at h))
      ]

  replace_old-Grows :
      (alert : ℤ) (is' : List ExpectedItem) (rows rows' : List DecisionRow)
      → replace_old print now alert is' rows ≡ some rows'
      → Grows rows rows'
  unfolding replace_old
  replace_old-Grows alert [] rows rows' h =
      subst (Grows rows) (some-injective rows rows' h) (Grows-refl rows)
  replace_old-Grows alert (i ∷ is') rows rows' h = elim (Option-cases i.old) [
    | inl n ↦ replace_old-Grows alert is' rows rows' (rw (n, replace_old) at h)
    | inr (id, e) ↦
        let q = can_replace print now id i.object_id in
        let next =
          update q (replaced_row print now (new_row print now alert i.object_id rows)) rows in
        elim (Bool-cases (affected q rows == 1)) [
          | inl y ↦
              Grows-trans rows next rows'
                (update-Grows q (replaced_row print now (new_row print now alert i.object_id rows))
                  rows
                  (λ d c. record {
                    same_id = refl;
                    same_object = refl;
                    same_alert = refl;
                    same_decision = refl;
                    wanes = ages-Wanes d.status (ground (arith, c));
                  }))
                (replace_old-Grows alert is' next rows' (rw (e, replace_old, y) at h))
          | inr n ↦ absurd (ground (arith, rw (e, replace_old, n) at h))
        ]
  ]

module _ (t : Tables) where
  abbrev Ages : Tables → Type 0
  Ages t' = Grows t.decisions t'.decisions

  kept : Ages t
  kept = Grows-refl t.decisions

  begins-Ages : (works : Bool) (op : Operation) → Ages (begin_operation works op t).1
  unfolding begin_operation
  begins-Ages works op =
      either Ages (not (valid_operation op)) _ _ (λ _. kept)
        (λ _.
          either Ages (not works) _ _ (λ _. kept)
            (λ _.
              either Ages
                (not (affected (is_feed op.feed_id) t.feeds == 1)
                  || not (every (item_fits t op.feed_id) op.items))
                _ _ (λ _. kept)
                (λ _.
                  either Ages (exists (has_token op.token) t.operations) _ _ (λ _. kept)
                    (λ _. kept))))

  completes-Ages :
      (works : Bool) (tok : Text) (now : ℕ) → Ages (complete_operation works tok now t).1
  unfolding complete_operation
  completes-Ages works tok now =
      either Ages (not (valid_token tok) || now == 0) _ _ (λ _. kept)
        (λ _. either Ages (not works) _ _ (λ _. kept) (λ _. kept))

  sets-Ages :
      (works : Bool) (tok : Text) (status : OperationStatus) (category : Text) (now : ℕ)
      → Ages (set_operation_status works tok status category now t).1
  unfolding set_operation_status
  sets-Ages works tok status category now =
      either Ages
        (not (valid_token tok)
          || now == 0
          || not (is_ambiguous status || is_failed status)
          || (not (is_empty category) && not (valid_category category)))
        _ _ (λ _. kept) (λ _. either Ages (not works) _ _ (λ _. kept) (λ _. kept))

  expires-Ages : (works : Bool) (id : ℤ) (now : ℕ) → Ages (mark_decision_expired works id now t).1
  unfolding mark_decision_expired
  expires-Ages works id now =
      either Ages (not (ltb_ℤ (pos 0) id) || now == 0) _ _ (λ _. kept)
        (λ _.
          either Ages (not works) _ _ (λ _. kept)
            (λ _. update-Grows (can_expire id) (expired_row now) t.decisions (λ d c. record {
              same_id = refl;
              same_object = refl;
              same_alert = refl;
              same_decision = refl;
              wanes = ends-Wanes d.status (ground (arith, c));
            })))

  write_verified-Ages :
      (print : Printer) (now : ℕ) (tok : Text) (a : VerifiedAlert) (expected : List ExpectedItem)
      → Ages (write_verified print now tok a expected t).1
  unfolding write_verified
  write_verified-Ages print now tok a expected =
      let id = pos (suc (highest (map (alert_key print now) t.alerts))) in
      either Ages (exists (same_alert print now tok a) t.alerts) _ _ (λ _. kept)
        (λ _.
          optional Ages (insert_decisions print now id a.decisions t.decisions) _ _ kept (λ rows e.
            optional Ages (replace_old print now id expected rows) _ _ kept (λ rows' e'.
              Grows-trans t.decisions rows rows'
                (insert_decisions-Grows print now id a.decisions t.decisions rows e)
                (replace_old-Grows print now id expected rows rows' e'))))

  verify_row-Ages :
      (print : Printer) (now : ℕ) (tok : Text) (a : VerifiedAlert) (o : OperationRow) (name : Text)
      → Ages (verify_row print now tok a o name t).1
  unfolding verify_row verify_open
  verify_row-Ages print now tok a o name =
      let expected = expected_items tok t.objects t.items in
      either Ages (is_verified o.status || is_completed o.status) _ _ (λ _. kept)
        (λ _.
          either Ages (not (is_pending o.status || is_ambiguous o.status)) _ _ (λ _. kept)
            (λ _.
              either Ages
                (not (text_eq a.scenario (scenario_of name))
                  || length a.decisions == 0
                  || not (length expected == length a.decisions)
                  || not (
                      decisions_fit print now expected (scenario_of name) o.duration_seconds [] []
                        a.decisions))
                _ _ (λ _. kept) (λ _. write_verified-Ages print now tok a expected)))

  records-Ages :
      (print : Printer) (now : ℕ) (works : Bool) (tok : Text) (a : VerifiedAlert)
      → Ages (record_verified_operation print now works tok a t).1
  unfolding record_verified_operation verify_found
  records-Ages print now works tok a =
      either Ages
        (not (valid_token tok)
          || now == 0
          || not (ltb_ℤ (pos 0) a.alert_id)
          || not (text_eq a.origin (bytes "crowdshield"))
          || not (valid_bounded_text a.machine_id 1 128))
        _ _ (λ _. kept)
        (λ _.
          either Ages (not works) _ _ (λ _. kept) (λ _. row (find (has_token tok) t.operations)))
    where
      row : (x : Option OperationRow) → Ages (verify_found print now tok a x t).1
      row none = kept
      row (some o) =
          optional Ages (find (is_feed o.feed_id) t.feeds) _ _ kept
            (λ f _. verify_row-Ages print now tok a o f.name)

  apply-Ages : (c : StoreCall) → Ages (apply c t)
  unfolding apply
  apply-Ages (StoreCall.begins works op) = begins-Ages works op
  apply-Ages (StoreCall.records print works tok a now) = records-Ages print now works tok a
  apply-Ages (StoreCall.completes works tok now) = completes-Ages works tok now
  apply-Ages (StoreCall.sets works tok status category now) =
      sets-Ages works tok status category now
  apply-Ages (StoreCall.expires works id now) = expires-Ages works id now

-- For every sequence of calls of BeginOperation, RecordVerifiedOperation, CompleteOperation,
-- SetOperationStatus and MarkDecisionExpired, each decision of the table is still in its place
-- afterwards, for the same object, alert and decision of the local API, and its status has moved at
-- most from active over expiring to expired, whatever the database does and whether or not the calls
-- succeed. (PruneHistory, which deletes rows, is not among the calls.)
pub apply_all-Grows :
    (cs : List StoreCall) (t : Tables) → Grows t.decisions (apply_all cs t).decisions
unfolding apply_all
apply_all-Grows [] t = Grows-refl t.decisions
apply_all-Grows (c ∷ cs) t =
    Grows-trans t.decisions (apply c t).decisions (apply_all cs (apply c t)).decisions
      (apply-Ages t c) (apply_all-Grows cs (apply c t))
