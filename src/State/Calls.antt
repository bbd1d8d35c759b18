-- ===== src/State/Calls.antt =====
-- The calls of the store that move an operation, one after the other, and the operations they leave;
-- without PruneHistory, which deletes old ones.
use crowdshield.State.Operations.{
  ended_row, can_end, operation_row, completed_row, can_complete, item_fits, is_feed,
  valid_operation, begin_operation, complete_operation, set_operation_status, mark_decision_expired,
}
use crowdshield.State.Tables.{
  is_completed, update, is_pending, find, OperationRow, valid_category, has_token, is_failed,
  is_ambiguous, affected, valid_token, Tables, status_of,
}
use crowdshield.State.Branches.{either, optional}
use crowdshield.State.Records.{is_verified, OperationStatus, VerifiedAlert, Operation}
use crowdshield.State.Verification.{
  replace_old, decisions_fit, insert_decisions, same_alert, alert_key, expected_items, verified_row,
  valid_bounded_text, highest, verify_open, ExpectedItem, write_verified, verify_found, verify_row,
  Printer, record_verified_operation,
}
use crowdshield.Prelude.{
  text_eq→eq, length, ◌∙◌, sym, inr, map, inl, bytes, suc, text_eq, Bool-cases, ap, none, some,
  Option, arith, ◌&&◌, is_empty, exists, refl, every, ◌==◌, true, ◌||◌, ◌≡◌, [], ◌∷◌, not, ℕ, Text,
  List, Bool,
}
use crowdshield.State.Moves.{
  verifies-Reach, Reach-failed, Follows-trans, ends-Reach, insert-Follows, completes-Reach,
  update-Follows, Follows, Follows-refl,
}
use crowdshield.Prelude.Int.{pos, ltb_ℤ, ℤ}
use mathlib.Core.Path.{subst}
use mathlib.Core.Option.{some-injective}
use crowdshield.Reconcile.Alerts.{scenario_of}

-- One of these calls, with what the database does and the time.
pub data StoreCall : Type 0 where
  begins : Bool → Operation → StoreCall
  records : Printer → Bool → Text → VerifiedAlert → ℕ → StoreCall
  completes : Bool → Text → ℕ → StoreCall
  sets : Bool → Text → OperationStatus → Text → ℕ → StoreCall
  expires : Bool → ℤ → ℕ → StoreCall

-- The tables after a call, whether or not it succeeds.
unfoldable pub apply : StoreCall → Tables → Tables
unfolding begin_operation complete_operation set_operation_status mark_decision_expired
    record_verified_operation
apply (StoreCall.begins works op) t = (begin_operation works op t).1
apply (StoreCall.records print works token a now) t =
    (record_verified_operation print now works token a t).1
apply (StoreCall.completes works token now) t = (complete_operation works token now t).1
apply (StoreCall.sets works token status category now) t =
    (set_operation_status works token status category now t).1
apply (StoreCall.expires works id now) t = (mark_decision_expired works id now t).1

unfoldable pub apply_all : List StoreCall → Tables → Tables
unfolding apply
apply_all [] t = t
apply_all (c ∷ cs) t = apply_all cs (apply c t)

find-holds : {A : Type 0} (q : A → Bool) (xs : List A) (x : A) → find q xs ≡ some x → q x ≡ true
unfolding find
find-holds q [] x h = ground (arith, h)
find-holds q (y ∷ xs) x h = elim (Bool-cases (q y)) [
  | inl c ↦ subst (λ z. q z ≡ true) (some-injective y x (rw c at h)) c
  | inr n ↦ find-holds q xs x (rw n at h)
]

-- The operations of some tables follow those of others.
module _ (token : Text) (t : Tables) where
  abbrev Keeps : Tables → Type 0
  Keeps t' = Follows (status_of token t.operations) (status_of token t'.operations)

  same : Keeps t
  same = Follows-refl (status_of token t.operations)

  begins-Keeps : (works : Bool) (op : Operation) → Keeps (begin_operation works op t).1
  unfolding begin_operation
  begins-Keeps works op =
      either Keeps (not (valid_operation op)) _ _ (λ _. same)
        (λ _.
          either Keeps (not works) _ _ (λ _. same)
            (λ _.
              either Keeps
                (not (affected (is_feed op.feed_id) t.feeds == 1)
                  || not (every (item_fits t op.feed_id) op.items))
                _ _ (λ _. same)
                (λ _.
                  either Keeps (exists (has_token op.token) t.operations) _ _ (λ _. same)
                    (λ _. insert-Follows token t.operations (operation_row op ∷ [])))))

  completes-Keeps :
      (works : Bool) (tok : Text) (now : ℕ) → Keeps (complete_operation works tok now t).1
  unfolding complete_operation
  completes-Keeps works tok now =
      either Keeps (not (valid_token tok) || now == 0) _ _ (λ _. same)
        (λ _.
          either Keeps (not works) _ _ (λ _. same)
            (λ _.
              update-Follows (can_complete tok) (completed_row now) (λ o. refl) token t.operations
                (λ o _ c. completes-Reach o.status (ground (arith, c)))))

  sets-Keeps :
      (works : Bool) (tok : Text) (status : OperationStatus) (category : Text) (now : ℕ)
      → Keeps (set_operation_status works tok status category now t).1
  unfolding set_operation_status
  sets-Keeps works tok status category now =
      either Keeps
        (not (valid_token tok)
          || now == 0
          || not (is_ambiguous status || is_failed status)
          || (not (is_empty category) && not (valid_category category)))
        _ _ (λ _. same)
        (λ g.
          either Keeps (not works) _ _ (λ _. same)
            (λ _.
              update-Follows (can_end tok) (ended_row status category now) (λ o. refl) token
                t.operations
                (λ o _ c. ends-Reach o.status status (ground (arith, c)) (ground (arith, g)))))

  expires-Keeps : (works : Bool) (id : ℤ) (now : ℕ) → Keeps (mark_decision_expired works id now t).1
  unfolding mark_decision_expired
  expires-Keeps works id now =
      either Keeps (not (ltb_ℤ (pos 0) id) || now == 0) _ _ (λ _. same)
        (λ _. either Keeps (not works) _ _ (λ _. same) (λ _. same))

  -- The statement that sets the status finds an operation that waits.
  verifies-Keeps :
      (print : Printer) (now : ℕ) (tok : Text) (o : OperationRow)
      → find (has_token tok) t.operations ≡ some o
      → (is_pending o.status || is_ambiguous o.status) ≡ true
      → Follows
          (status_of token t.operations)
          (status_of token (update (has_token tok) (verified_row print now) t.operations))
  verifies-Keeps print now tok o found waits =
      update-Follows (has_token tok) (verified_row print now) (λ o. refl) token t.operations
        (λ o' f h. verifies-Reach o'.status (
          subst (λ (x : OperationRow). (is_pending x.status || is_ambiguous x.status) ≡ true)
            (some-injective o o' (
              sym found
              ∙ ap (λ k. find (has_token k) t.operations)
                  (sym (text_eq→eq o'.token tok h)
                    ∙ text_eq→eq o'.token token (find-holds (has_token token) t.operations o' f))
              ∙ f))
            waits))

  write_verified-Keeps :
      (print : Printer) (now : ℕ) (tok : Text) (a : VerifiedAlert) (expected : List ExpectedItem)
      (o : OperationRow)
      → find (has_token tok) t.operations ≡ some o
      → (is_pending o.status || is_ambiguous o.status) ≡ true
      → Keeps (write_verified print now tok a expected t).1
  unfolding write_verified
  write_verified-Keeps print now tok a expected o found waits =
      let id = pos (suc (highest (map (alert_key print now) t.alerts))) in
      either Keeps (exists (same_alert print now tok a) t.alerts) _ _ (λ _. same)
        (λ _.
          optional Keeps (insert_decisions print now id a.decisions t.decisions) _ _ same (λ rows _.
            optional Keeps (replace_old print now id expected rows) _ _ same
              (λ _ _. verifies-Keeps print now tok o found waits)))

  verify_row-Keeps :
      (print : Printer) (now : ℕ) (tok : Text) (a : VerifiedAlert) (o : OperationRow) (name : Text)
      → find (has_token tok) t.operations ≡ some o
      → Keeps (verify_row print now tok a o name t).1
  unfolding verify_row verify_open
  verify_row-Keeps print now tok a o name found =
      either Keeps (is_verified o.status || is_completed o.status) _ _ (λ _. same)
        (λ _.
          either Keeps (not (is_pending o.status || is_ambiguous o.status)) _ _ (λ _. same)
            (λ w.
              (let expected = expected_items tok t.objects t.items in
                either Keeps
                  (not (text_eq a.scenario (scenario_of name))
                    || length a.decisions == 0
                    || not (length expected == length a.decisions)
                    || not (
                        decisions_fit print now expected (scenario_of name) o.duration_seconds [] []
                          a.decisions))
                  _ _ (λ _. same)
                  (λ _.
                    write_verified-Keeps print now tok a expected o found (ground (arith, w))))))

  records-Keeps :
      (print : Printer) (now : ℕ) (works : Bool) (tok : Text) (a : VerifiedAlert)
      → Keeps (record_verified_operation print now works tok a t).1
  unfolding record_verified_operation verify_found
  records-Keeps print now works tok a =
      either Keeps
        (not (valid_token tok)
          || now == 0
          || not (ltb_ℤ (pos 0) a.alert_id)
          || not (text_eq a.origin (bytes "crowdshield"))
          || not (valid_bounded_text a.machine_id 1 128))
        _ _ (λ _. same)
        (λ _.
          either Keeps (not works) _ _ (λ _. same)
            (λ _. row (find (has_token tok) t.operations) refl))
    where
      row :
          (x : Option OperationRow)
          → find (has_token tok) t.operations ≡ x
          → Keeps (verify_found print now tok a x t).1
      row none e = same
      row (some o) e =
          optional Keeps (find (is_feed o.feed_id) t.feeds) _ _ same
            (λ f _. verify_row-Keeps print now tok a o f.name e)

  -- A call of the store keeps every operation, and its status only moves.
  pub apply-Follows : (c : StoreCall) → Keeps (apply c t)
  unfolding apply
  apply-Follows (StoreCall.begins works op) = begins-Keeps works op
  apply-Follows (StoreCall.records print works tok a now) = records-Keeps print now works tok a
  apply-Follows (StoreCall.completes works tok now) = completes-Keeps works tok now
  apply-Follows (StoreCall.sets works tok status category now) =
      sets-Keeps works tok status category now
  apply-Follows (StoreCall.expires works id now) = expires-Keeps works id now

-- For every sequence of calls of BeginOperation, RecordVerifiedOperation, CompleteOperation,
-- SetOperationStatus and MarkDecisionExpired, an operation that the tables hold is still there
-- afterwards, and its status has only moved along pending, ambiguous, verified and completed, or to
-- failed, whatever the database does and whether or not the calls succeed. (PruneHistory, which deletes
-- rows, is not among the calls.)
pub apply_all-Follows :
    (token : Text) (cs : List StoreCall) (t : Tables)
    → Follows (status_of token t.operations) (status_of token (apply_all cs t).operations)
unfolding apply_all
apply_all-Follows token [] t = Follows-refl (status_of token t.operations)
apply_all-Follows token (c ∷ cs) t =
    Follows-trans (status_of token t.operations) (status_of token (apply c t).operations)
      (status_of token (apply_all cs (apply c t)).operations) (apply-Follows token t c)
      (apply_all-Follows token cs (apply c t))

-- An operation that failed is still failed after any sequence of these calls.
pub failed-stays :
    (token : Text) (cs : List StoreCall) (t : Tables)
    → status_of token t.operations ≡ some OperationStatus.failed
    → status_of token (apply_all cs t).operations ≡ some OperationStatus.failed
failed-stays token cs t h = final (status_of token (apply_all cs t).operations) (
    subst (λ x. Follows x (status_of token (apply_all cs t).operations)) h
      (apply_all-Follows token cs t))
  where
    final :
        (x : Option OperationStatus)
        → Follows (some OperationStatus.failed) x
        → x ≡ some OperationStatus.failed
    final none f = absurd f
    final (some b) f = ap some (Reach-failed f)
