-- ===== src/Reconcile/Expiring.antt =====
-- Expiring and finishing keep the order of the calls.
use crowdshield.Prelude.{
  not, bytes, text_eq, refl, leb, if◌then◌else◌, ℕ, [], ◌∷◌, arith, ◌&&◌, exists, ◌||◌, none, true,
  ◌≡◌, some, List, false, Option, Bool,
}
use crowdshield.Prelude.Int.{eq_ℤ, ℤ}
use crowdshield.Lapi.Models.{Alert, Decision}
use crowdshield.Reconcile.Operations.{
  decision_by_row, expire_old, expire_read, expire_olds, finish_verified, expire_owned,
  expire_if_live, decision_differs, mark_expired, after_expire, expire_live, expire_matched,
  matched_decision,
}
use crowdshield.Reconcile.Alerts.{decision_expiry, Reconciler, Std}
use crowdshield.Reconcile.World.{
  ◌>>=◌, ask, expect, Call, ErrorCategory, fail, Run, Reply, World, History, Environment,
}
use crowdshield.State.Records.{Operation, OperationItem, DecisionRecord}
use crowdshield.Reconcile.Discipline.{
  after_request, verifies, continue-keeps, allowed, expect-keeps, if-keeps, may_expire, is_request,
  Disciplined,
}

abbrev some_passes : (Decision → Bool) → Option Decision → Bool
some_passes q none = false
some_passes q (some m) = q m

-- The decision that is matched is one of the list with the id, or the one that was there before.
matched_decision-exists :
    (q : Decision → Bool) (id : ℤ) (best : Option Decision) (ds : List Decision) (m : Decision)
    → matched_decision id best ds ≡ some m
    → q m ≡ true
    → (some_passes q best || exists (λ d. eq_ℤ d.id id && q d) ds) ≡ true
unfolding matched_decision
matched_decision-exists q id none [] m e h = ground (arith, e)
matched_decision-exists q id (some b) [] m e h = ground (arith, e, h)
matched_decision-exists q id none (d ∷ ds) m e h = ground (
  arith,
  e,
  h,
  matched_decision-exists q id none ds m,
  matched_decision-exists q id (some d) ds m,
)
matched_decision-exists q id (some b) (d ∷ ds) m e h =
    ground (arith, e, h, matched_decision-exists q id (some b) ds m)

-- `K` is what else is known of the calls so far, and stays known.
module _ (std : Std) (env : Environment) (r : Reconciler) (now : ℕ) (K : History → Type 0)
    (grows : (c : Call) (h : History) → K h → K (c ∷ h)) where
  abbrev pub Kept : World → Type 0
  Kept s = Disciplined r.machine_id s × K s.history

  -- A call that is always allowed and is no request.
  pub noted :
      (c : Call) (s : World)
      → allowed r.machine_id c s.history ≡ true
      → is_request c ≡ false
      → Kept s
      → Kept (record s { history = c ∷ s.history })
  noted c s a n (d, k) = (
    record { orderly = ground (arith, a, d.orderly); counted = ground (arith, n, d.counted) },
    grows c s.history k,
  )

  -- A request, with the report's count of it.
  pub requested :
      (c : Call) (s : World)
      → allowed r.machine_id c s.history ≡ true
      → is_request c ≡ true
      → Kept s
      → Kept (after_request c s)
  requested c s a n (d, k) = (
    record { orderly = ground (arith, a, d.orderly); counted = ground (arith, n, d.counted) },
    grows c s.history k,
  )

  pub mark_expired-Kept : (id : ℤ) (s : World) → Kept s → Kept (mark_expired std env r now id s).1
  mark_expired-Kept id s p =
      let reply = env.mark_decision_expired s.history id in
      let c = Call.mark_decision_expired id reply in
      expect-keeps Kept ErrorCategory.state reply (record s { history = c ∷ s.history })
        (noted c s refl refl p)

  after_expire-Kept :
      (d : DecisionRecord) (reply : Reply (Unit {0})) (s : World)
      → Kept s
      → Kept (after_expire std env r now d reply s).1
  unfolding after_expire
  after_expire-Kept d Reply.failed s p = p
  after_expire-Kept d Reply.not_found s p = mark_expired-Kept d.id s p
  after_expire-Kept d (Reply.ok _) s p = mark_expired-Kept d.id s p

  expire_live-Kept :
      (d : DecisionRecord) (s : World)
      → may_expire r.machine_id d.decision_id s.history ≡ true
      → Kept s
      → Kept (expire_live std env r now d s).1
  unfolding expire_live
  expire_live-Kept d s a p =
      let reply = env.expire_decision s.history d.decision_id in
      let c = Call.expire_decision d.decision_id reply in
      after_expire-Kept d reply (after_request c s) (requested c s a refl p)

  expire_matched-Kept :
      (d : DecisionRecord) (matched : Option Decision) (s : World)
      → ((m : Decision)
          → matched ≡ some m
          → decision_differs d m ≡ false
          → may_expire r.machine_id d.decision_id s.history ≡ true)
      → Kept s
      → Kept (expire_matched std env r now d matched s).1
  unfolding expire_matched
  expire_matched-Kept d none s a p = p
  expire_matched-Kept d (some m) s a p =
      if-keeps Kept (decision_differs d m) (fail ErrorCategory.ownership) _ s (λ _. p)
        (λ same. go (decision_expiry std m now r.duration) (a m refl same))
    where
      go :
          (x : Option ℕ)
          → may_expire r.machine_id d.decision_id s.history ≡ true
          → Kept
              ((elim x as (λ _. Run (Unit {0})) [
                | none ↦ fail ErrorCategory.ownership
                | some expiry ↦
                    if leb expiry now
                    then mark_expired std env r now d.id
                    else expire_live std env r now d
              ])
                s).1
      go none b = p
      go (some expiry) b =
          if-keeps Kept (leb expiry now) (mark_expired std env r now d.id)
            (expire_live std env r now d) s (λ _. mark_expired-Kept d.id s p)
            (λ _. expire_live-Kept d s b p)

  abbrev ours : Decision → Bool
  ours m = text_eq m.origin (bytes "crowdshield") && text_eq m.kind (bytes "ban")

  -- Right after an alert has been read.
  expire_read-Kept :
      (d : DecisionRecord) (reply : Reply Alert) (s : World)
      → Kept (after_request (Call.get_alert d.alert_id reply) s)
      → Kept
          (expire_read std env r now d reply (after_request (Call.get_alert d.alert_id reply) s)).1
  unfolding expire_read
  expire_read-Kept d Reply.not_found s p =
      mark_expired-Kept d.id (after_request (Call.get_alert d.alert_id Reply.not_found) s) p
  expire_read-Kept d Reply.failed s p = p
  expire_read-Kept d (Reply.ok remote) s p =
      let s' = after_request (Call.get_alert d.alert_id (Reply.ok remote)) s in
      let differs =
        not (eq_ℤ remote.id d.alert_id)
        || not (text_eq remote.machine_id r.machine_id)
        || not (text_eq remote.scenario d.scenario) in
      let matched = matched_decision d.decision_id none remote.decisions in
      if-keeps Kept differs (fail ErrorCategory.ownership) (expire_matched std env r now d matched)
        s' (λ _. p)
        (λ same.
          expire_matched-Kept d matched s'
            (λ m e fits. ground (
              arith,
              same,
              fits,
              matched_decision-exists ours d.decision_id none remote.decisions m e,
            ))
            p)

  pub expire_owned-Kept :
      (d : DecisionRecord) (s : World) → Kept s → Kept (expire_owned std env r now d s).1
  unfolding expire_owned
  expire_owned-Kept d s p =
      let reply = env.get_alert s.history d.alert_id in
      expire_read-Kept d reply s (requested (Call.get_alert d.alert_id reply) s refl refl p)

  expire_if_live-Kept :
      (d : Option DecisionRecord) (s : World) → Kept s → Kept (expire_if_live std env r now d s).1
  expire_if_live-Kept none s p = p
  expire_if_live-Kept (some d) s p = expire_owned-Kept d s p

  expire_old-Kept : (id : Option ℤ) (s : World) → Kept s → Kept (expire_old std env r now id s).1
  unfolding expire_old
  expire_old-Kept none s p = p
  expire_old-Kept (some id) s p =
      let reply = env.list_live_decisions s.history in
      let s' = record s { history = Call.list_live_decisions reply ∷ s.history } in
      continue-keeps Kept Kept (expect ErrorCategory.state reply s')
        (λ live. expire_if_live std env r now (decision_by_row id live)) (λ q. q)
        (λ live t q. expire_if_live-Kept (decision_by_row id live) t q)
        (expect-keeps Kept ErrorCategory.state reply s'
          (noted (Call.list_live_decisions reply) s refl refl p))

  expire_olds-Kept :
      (items : List OperationItem) (s : World) → Kept s → Kept (expire_olds std env r now items s).1
  unfolding expire_olds
  expire_olds-Kept [] s p = p
  expire_olds-Kept (i ∷ items) s p =
      continue-keeps Kept Kept (expire_old std env r now i.old_decision_row_id s)
        (λ _. expire_olds std env r now items) (λ q. q) (λ _ t q. expire_olds-Kept items t q)
        (expire_old-Kept i.old_decision_row_id s p)

  -- An operation that the store has as verified is finished.
  pub finish_verified-Kept :
      (op : Operation) (s : World)
      → ((t : World) → K t.history → exists (verifies op.token) t.history ≡ true)
      → Kept s
      → Kept (finish_verified std env r now op s).1
  unfolding finish_verified
  finish_verified-Kept op s v p =
      continue-keeps Kept Kept (expire_olds std env r now op.items s)
        (λ _.
          ask (λ h. env.complete_operation h op.token) (Call.complete_operation op.token)
          >>= expect ErrorCategory.state)
        (λ q. q)
        (λ _ t q.
          let reply = env.complete_operation t.history op.token in
          let c = Call.complete_operation op.token reply in
          expect-keeps Kept ErrorCategory.state reply (record t { history = c ∷ t.history })
            (noted c t (v t q.1) refl q))
        (expire_olds-Kept op.items s p)
