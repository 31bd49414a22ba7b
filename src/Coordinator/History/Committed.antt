-- ===== src/Coordinator/History/Committed.antt =====
-- `confirmCoverage` of coverage_coordinator.go keeps the log in order.
use route_harbor.Prelude.{
  ◌≡◌, ◌⊎◌, refl, true, not, ◌||◌, ◌∷◌, [], List, Option, none, some, String, arith, leb, inl, inr,
  Bool-cases,
}
use route_harbor.Effects.{World, pure, look}
use route_harbor.Effects.Rules.{either-Safe, follow}
use route_harbor.Coverage.{State}
use route_harbor.Coverage.Calls.{is_state}
use route_harbor.Coordinator.{
  Participant, Entry, Entries, Reply, Error, applied, confirming, confirmed, is_phase, with_phase,
  with_error, with_node, with_gateway, closed, status, finalize,
}
use route_harbor.Coordinator.{confirm as ask_confirm}
use route_harbor.Coordinator.World.{Env, Command, Job, matching, among}
use route_harbor.Coordinator.Undo.{rollback}
use route_harbor.Coordinator.Commit.{
  confirm_done, finalize_gateway, confirm_lost, node_confirmed, node_told, node_unconfirmed,
  node_answered, confirm_node, gateway_confirmed, gateway_fate, gateway_unconfirmed,
  gateway_answered, confirm_gateway, confirm_timely, confirm_late, confirm_applied, confirm_open,
  confirm, lost_gateway,
}
use route_harbor.Coordinator.History.{Edge, Kin, HasGateway, IsDue}
use route_harbor.Coordinator.History.Rules.{Ready, Safe, stores, asks_gateway, asks_node}
use route_harbor.Coordinator.History.Quiet.{
  still, goes_on, guard-Quietly, guard-ok, or_raise-Quietly, refuse-Quietly, refuse-ok,
  fresh-Quietly, validate_coverage-Quietly,
}
use route_harbor.Coordinator.History.Undone.{At-Holds, rollback-Safe}
use route_harbor.Coordinator.History.Prepared.{is_phase-eq}
use route_harbor.Coordinator.History.Started.{matching-state}

pub is_state-eq : (s t : State) → is_state s t ≡ true → s ≡ t
is_state-eq s t h = ground arith

pub among-two : (s t u : State) → among s (t ∷ u ∷ []) ≡ true → (s ≡ t) ⊎ (s ≡ u)
among-two s t u h = elim (Bool-cases (is_state s t)) [
  | inl q ↦ inl (is_state-eq s t q)
  | inr q ↦ inr (is_state-eq s u (ground (arith, q, h)))
]

pub matched :
    (r : Reply) (id : String) (states : List State)
    → (matching r id states).1 ≡ none
    → among (matching r id states).0.state states ≡ true
matched r id states h = matching-state r id states (rw h refl)

module _ {H : Type 0} (env : Env H) where
  confirm_done-Safe :
      (w : World Entries Command H) (job : Job) (d e : Entry)
      → Ready w job d
      → d.transaction.state ≡ confirming
      → Kin d e
      → Safe (confirm_done env job e w)
  unfolding confirm_done
  confirm_done-Safe w job d e r s k =
      stores w job d (with_error "" (closed confirmed e)) _ _ r (rw s Edge.settle) k (λ c. refl)
        (λ w' r'. r'.ordered)

  finalize_gateway-Safe :
      (w : World Entries Command H) (job : Job) (d e : Entry)
      → Ready w job d
      → d.transaction.state ≡ confirming
      → e.transaction.state ≡ confirming
      → e.node.state ≡ State.confirmed
      → Kin d e
      → Safe (finalize_gateway env job e w)
  unfolding finalize_gateway
  finalize_gateway-Safe w job d e r s t n k =
      stores w job d e _ _ r (rw (s, t) (Edge.keep confirming refl)) k
        (λ c. absurd (ground (arith, c, t)))
        λ w₁ r₁.
          asks_gateway env w₁ job e (finalize e.gateway.id) _ r₁ (At-Holds _ r₁.at (t, refl, n))
            λ answer w₂ r₂. goes_on _ _ w₂ job e (or_raise-Quietly answer _ w₂) r₂ λ reply w₃ r₃ q₃.
              let m = matching reply e.gateway.id (State.confirmed ∷ State.finalized ∷ []) in
              goes_on _ _ w₃ job e (refuse-Quietly (with_gateway m.0 e) m.1 w₃) r₃ λ u w₄ r₄ q₄.
                confirm_done-Safe w₄ job e (with_gateway m.0 e) r₄ t (refl, refl, refl, refl)

  confirm_lost-Safe :
      (w : World Entries Command H) (job : Job) (d e : Entry) (code : String) (x : Error)
      → Ready w job d
      → d.transaction.state ≡ confirming
      → Kin d e
      → Safe (confirm_lost env job e code x w)
  unfolding confirm_lost
  confirm_lost-Safe w job d e code x r s k =
      follow IsDue (rollback env job (with_error code e)) _ w
        (rollback-Safe env w job d (with_error code e) r (rw s refl) k) (λ a w' h. h)

  node_confirmed-Safe :
      (w : World Entries Command H) (job : Job) (e : Entry) (reply : Reply)
      → Ready w job e
      → e.transaction.state ≡ confirming
      → Safe (node_confirmed env job e reply w)
  unfolding node_confirmed
  node_confirmed-Safe w job e reply r s =
      let m = matching reply e.node.id (State.confirmed ∷ []) in
      goes_on _ _ w job e (refuse-Quietly (with_node m.0 e) m.1 w) r λ u w₁ r₁ q₁.
        finalize_gateway-Safe w₁ job e (with_node m.0 e) r₁ s s
          (is_state-eq m.0.state State.confirmed
            (ground (arith, matched reply e.node.id (State.confirmed ∷ []) (refuse-ok _ _ u w q₁))))
          (refl, refl, refl, refl)

  node_told-Safe :
      (w : World Entries Command H) (job : Job) (d e : Entry)
      → Ready w job d
      → d.transaction.state ≡ confirming
      → e.transaction.state ≡ confirming
      → Kin d e
      → Safe (node_told env job e w)
  unfolding node_told
  node_told-Safe w job d e r s t k =
      either-Safe IsDue
        (is_state e.node.state State.rolled_back || is_state e.node.state State.failed) _ _ w
        (λ q. confirm_lost-Safe w job d e _ _ r s k)
        (λ q.
          either-Safe IsDue (not (is_state e.node.state State.confirmed)) _ _ w (λ p. r.ordered)
            (λ p.
              finalize_gateway-Safe w job d e r s t
                (is_state-eq e.node.state State.confirmed (ground (arith, p))) k))

  node_unconfirmed-Safe :
      (w : World Entries Command H) (job : Job) (e : Entry)
      → Ready w job e
      → e.transaction.state ≡ confirming
      → Safe (node_unconfirmed env job e w)
  unfolding node_unconfirmed
  node_unconfirmed-Safe w job e r s = asks_node env w job e status _ r tt λ answer w₁ r₁.
      goes_on _ _ w₁ job e (or_raise-Quietly answer _ w₁) r₁ λ reply w₂ r₂ q₂.
        goes_on _ _ w₂ job e (refuse-Quietly e _ w₂) r₂
          λ u w₃ r₃ q₃. node_told-Safe w₃ job e _ r₃ s s (refl, refl, refl, refl)

  node_answered-Safe :
      (o : Option Reply) (w : World Entries Command H) (job : Job) (e : Entry)
      → Ready w job e
      → e.transaction.state ≡ confirming
      → Safe (node_answered env o job e w)
  node_answered-Safe none w job e r s = node_unconfirmed-Safe w job e r s
  node_answered-Safe (some x) w job e r s = node_confirmed-Safe w job e x r s

  confirm_node-Safe :
      (w : World Entries Command H) (job : Job) (e : Entry)
      → Ready w job e
      → e.transaction.state ≡ confirming
      → HasGateway e
      → Safe (confirm_node env job e w)
  unfolding confirm_node
  confirm_node-Safe w job e r s g =
      asks_node env w job e (ask_confirm e.node.id) _ r (At-Holds _ r.at (s, g, refl))
        λ answer w₁ r₁. node_answered-Safe answer w₁ job e r₁ s

  gateway_confirmed-Safe :
      (w : World Entries Command H) (job : Job) (e : Entry) (reply : Reply)
      → Ready w job e
      → e.transaction.state ≡ confirming
      → Safe (gateway_confirmed env job e reply w)
  unfolding gateway_confirmed
  gateway_confirmed-Safe w job e reply r s =
      let m = matching reply e.gateway.id (State.confirmed ∷ State.finalized ∷ []) in
      goes_on _ _ w job e (refuse-Quietly (with_gateway m.0 e) m.1 w) r λ u w₁ r₁ q₁.
        stores w₁ job e (with_gateway m.0 e) _ _ r₁ (rw s (Edge.keep confirming refl))
          (refl, refl, refl, refl) (λ c. absurd (ground (arith, c, s)))
          λ w₂ r₂. confirm_node-Safe w₂ job (with_gateway m.0 e) r₂ s (
            among-two m.0.state State.confirmed State.finalized (
              matched reply e.gateway.id (State.confirmed ∷ State.finalized ∷ [])
                (refuse-ok _ _ u w q₁)))

  gateway_fate-Safe :
      (o : Option Participant) (w : World Entries Command H) (job : Job) (e : Entry)
      → Ready w job e
      → e.transaction.state ≡ confirming
      → Safe (gateway_fate env o job e w)
  gateway_fate-Safe none w job e r s = r.ordered
  gateway_fate-Safe (some p) w job e r s =
      confirm_lost-Safe w job e (with_gateway p e) _ _ r s (refl, refl, refl, refl)

  gateway_answered-Safe :
      (o : Option Reply) (w : World Entries Command H) (job : Job) (e : Entry)
      → Ready w job e
      → e.transaction.state ≡ confirming
      → Safe (gateway_answered env o job e w)
  unfolding gateway_unconfirmed
  gateway_answered-Safe none w job e r s =
      asks_gateway env w job e status _ r tt
        λ answer w₁ r₁. gateway_fate-Safe (lost_gateway e.gateway answer) w₁ job e r₁ s
  gateway_answered-Safe (some x) w job e r s = gateway_confirmed-Safe w job e x r s

  confirm_gateway-Safe :
      (w : World Entries Command H) (job : Job) (e : Entry)
      → Ready w job e
      → e.transaction.state ≡ confirming
      → Safe (confirm_gateway env job e w)
  unfolding confirm_gateway
  confirm_gateway-Safe w job e r s =
      asks_gateway env w job e (ask_confirm e.gateway.id) _ r (At-Holds _ r.at (s, refl))
        λ answer w₁ r₁. gateway_answered-Safe answer w₁ job e r₁ s

  confirm_timely-Safe :
      (w : World Entries Command H) (job : Job) (e : Entry)
      → Ready w job e
      → e.transaction.state ≡ applied
      → Safe (confirm_timely env job e w)
  unfolding confirm_timely
  confirm_timely-Safe w job e r s = goes_on _ _ w job e (fresh-Quietly env _ _ w) r λ peer w₁ r₁ q₁.
      goes_on _ _ w₁ job e (validate_coverage-Quietly env _ _ _ _ w₁) r₁ λ plans w₂ r₂ q₂.
        stores w₂ job e (with_phase confirming e) _ _ r₂ (rw s Edge.commit) (refl, refl, refl, refl)
          (λ c. absurd (ground (arith, c)))
          λ w₃ r₃. confirm_gateway-Safe w₃ job (with_phase confirming e) r₃ refl

  confirm_late-Safe :
      (w : World Entries Command H) (job : Job) (e : Entry)
      → Ready w job e
      → e.transaction.state ≡ applied
      → Safe (confirm_late env job e w)
  unfolding confirm_late
  confirm_late-Safe w job e r s = rollback-Safe env w job e e r (rw s refl) (refl, refl, refl, refl)

  confirm_applied-Safe :
      (w : World Entries Command H) (job : Job) (e : Entry)
      → Ready w job e
      → e.transaction.state ≡ applied
      → Safe (confirm_applied env job e w)
  unfolding confirm_applied look
  confirm_applied-Safe w job e r s = goes_on _ _ w job e (still w) r λ now w₁ r₁ q₁.
      either-Safe IsDue (leb e.transaction.deadline now) (confirm_late env job e)
        (confirm_timely env job e) w₁ (λ q. confirm_late-Safe w₁ job e r₁ s)
        (λ q. confirm_timely-Safe w₁ job e r₁ s)

  confirm_open-Safe :
      (w : World Entries Command H) (job : Job) (e : Entry)
      → Ready w job e
      → Safe (confirm_open env job e w)
  unfolding confirm_open
  confirm_open-Safe w job e r = goes_on _ _ w job e (guard-Quietly _ _ w) r λ u w₁ r₁ q₁.
      either-Safe IsDue (is_phase e.transaction.state applied) (confirm_applied env job e)
        (confirm_gateway env job e) w₁
        (λ q. confirm_applied-Safe w₁ job e r₁ (is_phase-eq e.transaction.state applied q))
        (λ q.
          confirm_gateway-Safe w₁ job e r₁
            (is_phase-eq e.transaction.state confirming (ground (arith, q, guard-ok _ _ u w q₁))))

  pub confirm-Safe :
      (w : World Entries Command H) (job : Job) (e : Entry)
      → Ready w job e
      → Safe (confirm env job e w)
  unfolding confirm
  confirm-Safe w job e r =
      either-Safe IsDue (is_phase e.transaction.state confirmed) (pure e) (confirm_open env job e) w
        (λ q. r.ordered) (λ q. confirm_open-Safe w job e r)
