-- ===== src/Coordinator/History/Undone.antt =====
-- `rollbackCoverage` of coverage_coordinator.go keeps the log in order.
use text.Mathlib.Text.{◌==◌ as str_eq}
use text.Mathlib.TextEquality.{eq_iff}
use route_harbor.Prelude.{◌≡◌, refl, subst, Bool, true, ◌||◌, Option, arith, inl, inr, Bool-cases}
use route_harbor.Effects.{call, ok, World, ◌>>=◌}
use route_harbor.Effects.Rules.{either-Safe}
use route_harbor.Coordinator.{
  Participant, Entry, Entries, rolling_back, rolled_back, is_open, is_phase, with_phase, with_error,
  with_node, with_gateway, closed,
}
use route_harbor.Coordinator.{prepare as ask_prepare, rollback as ask_rollback}
use route_harbor.Coordinator.World.{Env, Command, Job, node_key, gateway_key, ask_node, ask_gateway}
use route_harbor.Coordinator.Undo.{
  rollback, rollback_open, rollback_done, rollback_waiting, seek_node, seek_gateway, undo_node,
  undo_gateway, find_node, find_gateway, revert_node, revert_gateway, owes_rollback,
}
use route_harbor.Coordinator.History.{Edge, Kin, Traced, IsDue, Holds}
use route_harbor.Coordinator.History.Rules.{
  At, Ready, Safe, stores, follows, ask_gateway-Ready, ask_node-Ready,
}

-- The entry on disk has a property.
pub At-Holds :
    {o : Option Entries} {job : Job} {d : Entry} (P : Entry → Type 0) → At o job d → P d → Holds o P
At-Holds {job = job} {d = d} P a p = record {
  id = job.id;
  entries = a.entries;
  entry = d;
  on_disk = a.on_disk;
  is = a.is;
  holds = p;
}

-- What is on disk and in memory while a rollback is under way.
record Undoing (d e : Entry) : Type 0 where
  kin : Kin d e
  on_disk : d.transaction.state ≡ rolling_back
  in_memory : e.transaction.state ≡ rolling_back

module _ {H : Type 0} where
  rollback_done-Safe :
      (w : World Entries Command H) (job : Job) (d e : Entry)
      → Ready w job d
      → Undoing d e
      → Safe (rollback_done job e w)
  unfolding rollback_done
  rollback_done-Safe w job d e r u =
      stores w job d (closed rolled_back e) _ _ r (rw u.on_disk Edge.undone) u.kin (λ c. refl)
        (λ w' r'. r'.ordered)

  rollback_waiting-Safe :
      (w : World Entries Command H) (job : Job) (d e : Entry)
      → Ready w job d
      → Undoing d e
      → Safe (rollback_waiting job e w)
  unfolding rollback_waiting
  rollback_waiting-Safe w job d e r u =
      stores w job d (with_error "coverage_rollback_pending" e) _ _ r
        (rw (u.on_disk, u.in_memory) (Edge.keep rolling_back refl)) u.kin
        (λ c. absurd (ground (arith, c, u.in_memory))) (λ w' r'. r'.ordered)

module _ {H : Type 0} (env : Env H) where
  revert_gateway-Ready :
      (w : World Entries Command H) (job : Job) (d e : Entry) (b : Bool)
      → Ready w job d
      → d.transaction.state ≡ rolling_back
      → Traced d.gateway.id e.gateway.id
      → Ready (revert_gateway env e b w).0 job d
  unfolding revert_gateway ◌>>=◌ ask_gateway call
  revert_gateway-Ready w job d e b r s t = elim (Bool-cases (owes_rollback e.gateway)) [
    | inl q ↦
        rw q (ask_gateway-Ready env w job d (ask_rollback e.gateway.id) r (At-Holds _ r.at (s, t)))
    | inr q ↦ rw q r
  ]

  revert_node-Ready :
      (w : World Entries Command H) (job : Job) (d e : Entry) (b : Bool)
      → Ready w job d
      → d.transaction.state ≡ rolling_back
      → Traced d.node.id e.node.id
      → Ready (revert_node env job e b w).0 job d
  unfolding revert_node ◌>>=◌ ask_node call
  revert_node-Ready w job d e b r s t = elim (Bool-cases (owes_rollback e.node)) [
    | inl q ↦ rw q (ask_node-Ready env w job d (ask_rollback e.node.id) r (At-Holds _ r.at (s, t)))
    | inr q ↦ rw q r
  ]

  find_gateway-Ready :
      (w : World Entries Command H) (job : Job) (d e : Entry)
      → Ready w job d
      → d.transaction.state ≡ rolling_back
      → Kin d e
      → Ready (find_gateway env e w).0 job d
  unfolding find_gateway ◌>>=◌ ask_gateway call
  find_gateway-Ready w job d e r s k = elim (Bool-cases (str_eq e.gateway.id "")) [
    | inl q ↦ rw q (
        ask_gateway-Ready env w job d (ask_prepare (gateway_key e) e.transaction.gateway_plan) r
          (At-Holds _ r.at (inr s, rw (k.0) refl)))
    | inr q ↦ rw q r
  ]

  find_node-Ready :
      (w : World Entries Command H) (job : Job) (d e : Entry)
      → Ready w job d
      → d.transaction.state ≡ rolling_back
      → Kin d e
      → Ready (find_node env job e w).0 job d
  unfolding find_node ◌>>=◌ ask_node call
  find_node-Ready w job d e r s k = elim (Bool-cases (str_eq e.node.id "")) [
    | inl q ↦ rw q (
        ask_node-Ready env w job d (ask_prepare (node_key e) e.transaction.plan) r
          (At-Holds _ r.at (inr s, rw (k.0) refl)))
    | inr q ↦ rw q r
  ]

  find_gateway-Traced :
      (w : World Entries Command H) (e : Entry) (p : Participant × Bool)
      → (find_gateway env e w).1 ≡ ok p
      → Traced e.gateway.id p.0.id
  unfolding find_gateway
  find_gateway-Traced w e p h = elim (Bool-cases (str_eq e.gateway.id "")) [
    | inl q ↦ inr ((eq_iff e.gateway.id "").0 q)
    | inr q ↦ inl (ground (arith, q, h))
  ]

  find_node-Traced :
      (w : World Entries Command H) (job : Job) (e : Entry) (p : Participant × Bool)
      → (find_node env job e w).1 ≡ ok p
      → Traced e.node.id p.0.id
  unfolding find_node
  find_node-Traced w job e p h = elim (Bool-cases (str_eq e.node.id "")) [
    | inl q ↦ inr ((eq_iff e.node.id "").0 q)
    | inr q ↦ inl (ground (arith, q, h))
  ]

  undo_gateway-Safe :
      (w : World Entries Command H) (job : Job) (d e : Entry) (a b : Bool)
      → Ready w job d
      → Undoing d e
      → Traced d.gateway.id e.gateway.id
      → Safe (undo_gateway env job e a b w)
  unfolding undo_gateway
  undo_gateway-Safe w job d e a b r u t =
      follows (revert_gateway env e b) _ w job d (revert_gateway-Ready w job d e b r u.on_disk t)
        (λ p w' r' q.
          either-Safe IsDue (a || p.1) (rollback_waiting job (with_gateway p.0 e))
            (rollback_done job (with_gateway p.0 e)) w'
            (λ y.
              rollback_waiting-Safe w' job d (with_gateway p.0 e) r'
                (record { kin = u.kin; on_disk = u.on_disk; in_memory = u.in_memory }))
            (λ y.
              rollback_done-Safe w' job d (with_gateway p.0 e) r'
                (record { kin = u.kin; on_disk = u.on_disk; in_memory = u.in_memory })))

  undo_node-Safe :
      (w : World Entries Command H) (job : Job) (d e : Entry) (a b : Bool)
      → Ready w job d
      → Undoing d e
      → Traced d.node.id e.node.id
      → Traced d.gateway.id e.gateway.id
      → Safe (undo_node env job e a b w)
  unfolding undo_node
  undo_node-Safe w job d e a b r u n t =
      follows (revert_node env job e a) _ w job d (revert_node-Ready w job d e a r u.on_disk n)
        (λ p w' r' q.
          undo_gateway-Safe w' job d (with_node p.0 e) p.1 b r'
            (record { kin = u.kin; on_disk = u.on_disk; in_memory = u.in_memory }) t)

  seek_gateway-Safe :
      (w : World Entries Command H) (job : Job) (d e : Entry) (a : Bool)
      → Ready w job d
      → Undoing d e
      → Traced d.node.id e.node.id
      → e.gateway.id ≡ d.gateway.id
      → Safe (seek_gateway env job e a w)
  unfolding seek_gateway
  seek_gateway-Safe w job d e a r u n same =
      follows (find_gateway env e) _ w job d (find_gateway-Ready w job d e r u.on_disk u.kin)
        (λ p w' r' q.
          undo_node-Safe w' job d (with_gateway p.0 e) a p.1 r'
            (record { kin = u.kin; on_disk = u.on_disk; in_memory = u.in_memory }) n
            (subst (λ i. Traced i p.0.id) same (find_gateway-Traced w e p q)))

  seek_node-Safe :
      (w : World Entries Command H) (job : Job) (d e : Entry)
      → Ready w job d
      → Undoing d e
      → e.node.id ≡ d.node.id
      → e.gateway.id ≡ d.gateway.id
      → Safe (seek_node env job e w)
  unfolding seek_node
  seek_node-Safe w job d e r u same g =
      follows (find_node env job e) _ w job d (find_node-Ready w job d e r u.on_disk u.kin)
        (λ p w' r' q.
          seek_gateway-Safe w' job d (with_node p.0 e) p.1 r'
            (record { kin = u.kin; on_disk = u.on_disk; in_memory = u.in_memory })
            (subst (λ i. Traced i p.0.id) same (find_node-Traced w job e p q)) g)

  pub rollback_open-Safe :
      (w : World Entries Command H) (job : Job) (d e : Entry)
      → Ready w job d
      → is_open d.transaction.state ≡ true
      → Kin d e
      → Safe (rollback_open env job e w)
  unfolding rollback_open
  rollback_open-Safe w job d e r o k =
      stores w job d (with_phase rolling_back e) _ _ r (Edge.undo d.transaction.state o) k
        (λ c. absurd (ground (arith, c)))
        (λ w' r'.
          seek_node-Safe w' job (with_phase rolling_back e) (with_phase rolling_back e) r'
            (record { kin = (refl, refl, refl, refl); on_disk = refl; in_memory = refl }) refl refl)

  pub rollback-Safe :
      (w : World Entries Command H) (job : Job) (d e : Entry)
      → Ready w job d
      → is_open d.transaction.state ≡ true
      → Kin d e
      → Safe (rollback env job e w)
  unfolding rollback
  rollback-Safe w job d e r o k =
      either-Safe IsDue (is_phase e.transaction.state rolled_back) _ _ w (λ q. r.ordered)
        (λ q. rollback_open-Safe w job d e r o k)
