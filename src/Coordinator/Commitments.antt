-- ===== src/Coordinator/Commitments.antt =====
-- What `confirmCoverage` of coverage_coordinator.go guarantees when it reports success.
use route_harbor.Prelude.{
  ◌≡◌, ◌≢◌, refl, ap, subst, ◌∙◌, sym, Bool, true, false, not, ◌||◌, [], ◌∷◌, Option, none, some,
  String, arith, leb, if◌then◌else◌, Bool-cases, inl, inr,
}
use route_harbor.Effects.{disk, World, ok, pure}
use route_harbor.Effects.Results.{
  chained, save-ok, err-not-ok, value_or-ok, taken, skipped, same_world,
}
use route_harbor.Coverage.{State}
use route_harbor.Coverage.Calls.{is_state}
use route_harbor.Coordinator.{
  Participant, Entry, Entries, Reply, Error, applied, confirmed, is_phase, with_error, with_node,
  with_gateway, closed,
}
use route_harbor.Coordinator.World.{Env, Command, Step, Job, store, with_entry, matching}
use route_harbor.Coordinator.Commit.{
  confirm_done, finalize_gateway, confirm_lost, node_confirmed, node_told, node_unconfirmed,
  node_answered, confirm_node, gateway_confirmed, gateway_fate, gateway_unconfirmed,
  gateway_answered, confirm_gateway, confirm_timely, confirm_late, confirm_applied, confirm_open,
  confirm, lost_gateway,
}
use route_harbor.Coordinator.History.{HasGateway}
use route_harbor.Coordinator.History.Quiet.{refuse-ok}
use route_harbor.Coordinator.History.Committed.{matched, among-two, is_state-eq}

module _ {H : Type 0} (env : Env H) where
  -- What a confirmation that reports success leaves.
  pub record IsCommitted (job : Job) (e : Entry) (w : World Entries Command H) : Type 0 where
    pub state : e.transaction.state ≡ confirmed
    pub passphrase : e.transaction.plan.passphrase ≡ ""
    pub node : e.node.state ≡ State.confirmed
    pub gateway : HasGateway e
    pub on_disk : disk w.log ≡ some (with_entry job e)

  confirm_done-ok :
      (job : Job) (e e' : Entry) (w : World Entries Command H)
      → (confirm_done env job e w).1 ≡ ok e'
      → e.node.state ≡ State.confirmed
      → HasGateway e
      → IsCommitted job e' (confirm_done env job e w).0
  unfolding confirm_done store
  confirm_done-ok job e e' w h n g =
      let s = chained _ _ w e' h in
      let q : e' ≡ with_error "" (closed confirmed e) = sym (value_or-ok _ e' e' s.then_is) in
      record {
        state = rw q refl;
        passphrase = rw q refl;
        node = rw q n;
        gateway = rw q g;
        on_disk =
            rw (s.world, q)
              (save-ok _ (with_entry job (with_error "" (closed confirmed e))) s.first w
                s.first_is);
      }

  finalize_gateway-ok :
      (job : Job) (e e' : Entry) (w : World Entries Command H)
      → (finalize_gateway env job e w).1 ≡ ok e'
      → e.node.state ≡ State.confirmed
      → IsCommitted job e' (finalize_gateway env job e w).0
  unfolding finalize_gateway
  finalize_gateway-ok job e e' w h n =
      let s = chained _ _ w e' h in
      let a = chained _ _ _ e' s.then_is in
      let r = chained _ _ _ e' a.then_is in
      let c = chained _ _ _ e' r.then_is in
      let m = matching r.first e.gateway.id (State.confirmed ∷ State.finalized ∷ []) in
      subst (IsCommitted job e') (sym (s.world ∙ a.world ∙ r.world ∙ c.world)) (
        confirm_done-ok job (with_gateway m.0 e) e' _ c.then_is n (
          among-two m.0.state State.confirmed State.finalized (
            matched r.first e.gateway.id (State.confirmed ∷ State.finalized ∷ [])
              (refuse-ok _ m.1 c.first _ c.first_is))))

  confirm_lost-err :
      (job : Job) (e e' : Entry) (code : String) (x : Error) (w : World Entries Command H)
      → (confirm_lost env job e code x w).1 ≢ ok e'
  unfolding confirm_lost
  confirm_lost-err job e e' code x w h = err-not-ok _ e' (chained _ _ w e' h).then_is

  node_confirmed-ok :
      (job : Job) (e e' : Entry) (r : Reply) (w : World Entries Command H)
      → (node_confirmed env job e r w).1 ≡ ok e'
      → IsCommitted job e' (node_confirmed env job e r w).0
  unfolding node_confirmed
  node_confirmed-ok job e e' r w h =
      let m = matching r e.node.id (State.confirmed ∷ []) in
      let s = chained _ _ w e' h in
      subst (IsCommitted job e') (sym s.world) (
        finalize_gateway-ok job (with_node m.0 e) e' _ s.then_is (
          is_state-eq m.0.state State.confirmed (
            ground (
              arith,
              matched r e.node.id (State.confirmed ∷ []) (refuse-ok _ m.1 s.first w s.first_is),
            ))))

  node_told-ok :
      (job : Job) (e e' : Entry) (w : World Entries Command H)
      → (node_told env job e w).1 ≡ ok e'
      → IsCommitted job e' (node_told env job e w).0
  unfolding node_told
  node_told-ok job e e' w h =
      let lost = is_state e.node.state State.rolled_back || is_state e.node.state State.failed in
      let waits = not (is_state e.node.state State.confirmed) in
      elim (Bool-cases lost) [
        | inl q ↦ absurd (confirm_lost-err job e e' _ _ w (taken lost _ _ w e' q h))
        | inr q ↦
            let h' = skipped lost _ _ w e' q h in
            elim (Bool-cases waits) [
              | inl p ↦ absurd (err-not-ok _ e' (taken waits _ _ w e' p h'))
              | inr p ↦
                  rw (same_world lost _ _ w q, same_world waits _ _ w p)
                    (finalize_gateway-ok job e e' w (skipped waits _ _ w e' p h')
                      (is_state-eq e.node.state State.confirmed (ground (arith, p))))
            ]
      ]

  node_answered-ok :
      (o : Option Reply) (job : Job) (e e' : Entry) (w : World Entries Command H)
      → (node_answered env o job e w).1 ≡ ok e'
      → IsCommitted job e' (node_answered env o job e w).0
  unfolding node_unconfirmed
  node_answered-ok none job e e' w h =
      let s = chained _ _ w e' h in
      let r = chained _ _ _ e' s.then_is in
      let c = chained _ _ _ e' r.then_is in
      subst (IsCommitted job e') (sym (s.world ∙ r.world ∙ c.world))
        (node_told-ok job _ e' _ c.then_is)
  node_answered-ok (some x) job e e' w h = node_confirmed-ok job e e' x w h

  gateway_answered-ok :
      (o : Option Reply) (job : Job) (e e' : Entry) (w : World Entries Command H)
      → (gateway_answered env o job e w).1 ≡ ok e'
      → IsCommitted job e' (gateway_answered env o job e w).0
  unfolding gateway_unconfirmed gateway_confirmed confirm_node
  gateway_answered-ok none job e e' w h =
      absurd (
        fate_err (lost_gateway e.gateway (chained _ _ w e' h).first) _ (chained _ _ w e' h).then_is)
    where
      fate_err :
          (o : Option Participant) (v : World Entries Command H)
          → (gateway_fate env o job e v).1 ≢ ok e'
      fate_err none v q = err-not-ok _ e' q
      fate_err (some p) v q = confirm_lost-err job (with_gateway p e) e' _ _ v q
  gateway_answered-ok (some x) job e e' w h =
      let c = chained _ _ w e' h in
      let s = chained _ _ _ e' c.then_is in
      let a = chained _ _ _ e' s.then_is in
      subst (IsCommitted job e') (sym (c.world ∙ s.world ∙ a.world))
        (node_answered-ok a.first job _ e' _ a.then_is)

  confirm_gateway-ok :
      (job : Job) (e e' : Entry) (w : World Entries Command H)
      → (confirm_gateway env job e w).1 ≡ ok e'
      → IsCommitted job e' (confirm_gateway env job e w).0
  unfolding confirm_gateway
  confirm_gateway-ok job e e' w h =
      let s = chained _ _ w e' h in
      subst (IsCommitted job e') (sym s.world) (gateway_answered-ok s.first job e e' _ s.then_is)

  confirm_timely-ok :
      (job : Job) (e e' : Entry) (w : World Entries Command H)
      → (confirm_timely env job e w).1 ≡ ok e'
      → IsCommitted job e' (confirm_timely env job e w).0
  unfolding confirm_timely
  confirm_timely-ok job e e' w h =
      let f = chained _ _ w e' h in
      let v = chained _ _ _ e' f.then_is in
      let s = chained _ _ _ e' v.then_is in
      subst (IsCommitted job e') (sym (f.world ∙ v.world ∙ s.world))
        (confirm_gateway-ok job _ e' _ s.then_is)

  confirm_applied-ok :
      (job : Job) (e e' : Entry) (w : World Entries Command H)
      → (confirm_applied env job e w).1 ≡ ok e'
      → IsCommitted job e' (confirm_applied env job e w).0
  unfolding confirm_applied confirm_late
  confirm_applied-ok job e e' w h =
      let s = chained _ _ w e' h in
      let late = leb e.transaction.deadline s.first in
      elim (Bool-cases late) [
        | inl q ↦ absurd (err-not-ok _ e' (taken late _ _ _ e' q s.then_is))
        | inr q ↦
            rw (s.world, same_world late _ _ _ q)
              (confirm_timely-ok job e e' _ (skipped late _ _ _ e' q s.then_is))
      ]

  confirm_open-ok :
      (job : Job) (e e' : Entry) (w : World Entries Command H)
      → (confirm_open env job e w).1 ≡ ok e'
      → IsCommitted job e' (confirm_open env job e w).0
  unfolding confirm_open
  confirm_open-ok job e e' w h =
      let s = chained _ _ w e' h in
      let b = is_phase e.transaction.state applied in
      elim (Bool-cases b) [
        | inl q ↦
            subst (IsCommitted job e')
              (sym (
                s.world
                ∙ same_choice b (confirm_applied env job e) (confirm_gateway env job e) _ q))
              (confirm_applied-ok job e e' _ (taken b _ _ _ e' q s.then_is))
        | inr q ↦
            subst (IsCommitted job e')
              (sym (
                s.world
                ∙ ap (λ r. r.0)
                    (same_world b (confirm_applied env job e) (confirm_gateway env job e) _ q)))
              (confirm_gateway-ok job e e' _ (skipped b _ _ _ e' q s.then_is))
      ]
    where
      same_choice :
          (b : Bool) (m n : Step H Entry) (v : World Entries Command H)
          → b ≡ true
          → ((if b then m else n) v).0 ≡ (m v).0
      same_choice true m n v q = refl
      same_choice false m n v q = cc

  -- Where `confirmCoverage` of a transaction that is not confirmed yet reports success, whatever was
  -- answered and lost on the way, the node has confirmed, the gateway has confirmed or finalized, the
  -- transaction is confirmed, its passphrase is gone, and the journal on disk holds this entry.
  pub confirm_ok :
      (job : Job) (e e' : Entry) (w : World Entries Command H)
      → is_phase e.transaction.state confirmed ≡ false
      → (confirm env job e w).1 ≡ ok e'
      → IsCommitted job e' (confirm env job e w).0
  unfolding confirm
  confirm_ok job e e' w q h =
      let b = is_phase e.transaction.state confirmed in
      rw (same_world b (pure e) (confirm_open env job e) w q)
        (confirm_open-ok job e e' w (skipped b (pure e) (confirm_open env job e) w e' q h))
