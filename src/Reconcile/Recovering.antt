-- ===== src/Reconcile/Recovering.antt =====
-- Recovering open operations keeps the order of the calls.
use crowdshield.Prelude.{
  refl, text_eq_refl, true, ◌≡◌, Option, [], arith, All, ◌∷◌, exists, List, ℕ, none, some,
}
use crowdshield.Lapi.Models.{Alert}
use crowdshield.State.Records.{is_verified, Operation, EnforcementRecord}
use crowdshield.Reconcile.World.{
  count_request, ◌>>=◌, ask, fail, ◌>>◌, expect, continue, Call, ErrorCategory, Reply, Environment,
  World, History,
}
use crowdshield.Reconcile.Alerts.{verified_alert, Std, Reconciler}
use crowdshield.Reconcile.Operations.{
  finish_verified, count_recovered, recover_open, recover_all, recover_found, recover_one,
}
use crowdshield.Reconcile.Discipline.{if-keeps, after_request, continue-keeps, is_verified_as}
use crowdshield.Reconcile.Expiring.{requested, noted, Kept}
use crowdshield.Reconcile.Creating.{
  finish_known-Kept, verified_alert-attests, checked-Kept, KnownVerified, create_for_operation-Kept,
}

-- The operations with the verified status are known to be verified.
abbrev Pending : List Operation → History → Type 0
Pending ops h = All (λ op. is_verified op.status ≡ true → KnownVerified op.token h) ops

Pending-grows :
    (ops : List Operation) (c : Call) (h : History) → Pending ops h → Pending ops (c ∷ h)
Pending-grows [] c h p = tt
Pending-grows (op ∷ ops) c h p = ((λ v. ground (arith, p.0 v)), Pending-grows ops c h p.1)

-- The operations that a call has listed are known as listed.
Pending-listed :
    (ops all : List Operation) (h : History)
    → ((op : Operation)
        → exists (is_verified_as op.token) ops ≡ true
        → exists (is_verified_as op.token) all ≡ true)
    → Pending ops (Call.open_operations (Reply.ok all) ∷ h)
Pending-listed [] all h w = tt
Pending-listed (op ∷ ops) all h w = (
  (λ v. ground (arith, w op (ground (arith, v, text_eq_refl op.token)))),
  Pending-listed ops all h (λ o e. w o (ground (arith, e))),
)

module _ (std : Std) (env : Environment) (r : Reconciler) (now : ℕ) (K : History → Type 0)
    (grows : (c : Call) (h : History) → K h → K (c ∷ h)) where
  abbrev D : World → Type 0
  D s = Kept std env r now K grows s

  recover_found-Kept :
      (op : Operation) (records : List EnforcementRecord) (reply : Reply (Option Alert)) (s : World)
      → let s' = after_request (Call.find_operation op.feed_name op.token reply) s in
        D s' → D (recover_found std env r now op records reply s').1
  unfolding recover_found
  recover_found-Kept op records Reply.not_found s d = d
  recover_found-Kept op records Reply.failed s d = d
  recover_found-Kept op records (Reply.ok none) s d =
      create_for_operation-Kept std env r now K grows op records _ (text_eq_refl op.token) d
  recover_found-Kept op records (Reply.ok (some remote)) s d =
      checked-Kept std env r now K grows op (verified_alert std r op remote records now)
        (λ c. fail c) _ (λ v e. verified_alert-attests std r op remote records now v e) (λ c. d) d

  recover_one-Kept :
      (op : Operation) (records : List EnforcementRecord) (s : World)
      → (is_verified op.status ≡ true → KnownVerified op.token s.history)
      → D s
      → D (recover_one std env r now op records s).1
  unfolding recover_one
  recover_one-Kept op records s v d =
      let reply = env.find_operation s.history op.feed_name op.token in
      let c = Call.find_operation op.feed_name op.token reply in
      if-keeps D (is_verified op.status) (finish_verified std env r now op)
        (ask (λ h. env.find_operation h op.feed_name op.token)
            (Call.find_operation op.feed_name op.token)
          >>= λ reply. count_request >> recover_found std env r now op records reply)
        s (λ y. finish_known-Kept std env r now K grows op s (v y) d)
        (λ n.
          recover_found-Kept op records reply s (requested std env r now K grows c s refl refl d))

  recover_all-Kept :
      (records : List EnforcementRecord) (ops : List Operation) (s : World)
      → ((t : World) → K t.history → Pending ops t.history)
      → D s
      → D (recover_all std env r now records ops s).1
  unfolding recover_all
  recover_all-Kept records [] s v d = d
  recover_all-Kept records (op ∷ ops) s v d =
      continue-keeps D D (recover_one std env r now op records s)
        (λ _. count_recovered std env r now op >> recover_all std env r now records ops) (λ q. q)
        (λ _ t q.
          recover_all-Kept records ops _ (λ u k. (v u k).1)
            (record { orderly = q.0.orderly; counted = q.0.counted }, q.1))
        (recover_one-Kept op records s (v s d.1).0 d)

module _ (std : Std) (env : Environment) (r : Reconciler) (now : ℕ) (K : History → Type 0)
    (grows : (c : Call) (h : History) → K h → K (c ∷ h)) where
  listed-Kept :
      (records : List EnforcementRecord) (reply : Reply (List Operation)) (s : World)
      → let s' = record s { history = Call.open_operations reply ∷ s.history } in
        Kept std env r now K grows s'
        → Kept std env r now K grows
            (continue (expect ErrorCategory.state reply s') (recover_all std env r now records)).1
  listed-Kept records Reply.not_found s d = d
  listed-Kept records Reply.failed s d = d
  listed-Kept records (Reply.ok ops) s d =
      let x =
        recover_all-Kept std env r now (λ h. K h × Pending ops h)
          (λ c h k. (grows c h k.0, Pending-grows ops c h k.1)) records ops _ (λ t k. k.1)
          (d.0, (d.1, Pending-listed ops ops s.history (λ op e. e))) in
      (x.0, x.1.0)

  pub recover_open-Kept :
      (records : List EnforcementRecord) (s : World)
      → Kept std env r now K grows s
      → Kept std env r now K grows (recover_open std env r now records s).1
  unfolding recover_open
  recover_open-Kept records s d =
      let reply = env.open_operations s.history in
      listed-Kept records reply s
        (noted std env r now K grows (Call.open_operations reply) s refl refl d)
