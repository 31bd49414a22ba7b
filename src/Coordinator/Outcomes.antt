-- ===== src/Coordinator/Outcomes.antt =====
-- What `rollbackCoverage` of coverage_coordinator.go guarantees when it reports success.
use text.Mathlib.Text.{◌==◌ as str_eq}
use text.Mathlib.TextEquality.{eq_iff}
use route_harbor.Prelude.{
  ◌≡◌, ◌≢◌, ◌⊎◌, refl, ap, subst, ◌∙◌, sym, Bool, true, false, ◌||◌, Option, none, some, String,
  arith, Bool-cases, Option-cases, inl, inr,
}
use route_harbor.Effects.{disk, World, ok, pure}
use route_harbor.Effects.Results.{
  chained, save-ok, err-not-ok, value_or-ok, taken, skipped, same_world,
}
use route_harbor.Coverage.{State, is_transaction_id}
use route_harbor.Coverage.Calls.{is_state}
use route_harbor.Coordinator.{
  Participant, Entry, Entries, Reply, rolling_back, rolled_back, is_phase, with_phase, with_node,
  with_gateway, closed,
}
use route_harbor.Coordinator.World.{Env, Command, Job, store, with_entry, decode_participant}
use route_harbor.Coordinator.Undo.{
  rollback, rollback_open, rollback_done, rollback_waiting, seek_node, seek_gateway, undo_node,
  undo_gateway, find_node, find_gateway, revert_node, revert_gateway, owes_rollback, found_again,
  reverted,
}
use route_harbor.Coordinator.History.Started.{settle-one}

-- A participant that has nothing left to undo.
abbrev pub IsUndone : Participant → Type 0
IsUndone p = (p.state ≡ State.rolled_back) ⊎ (p.state ≡ State.failed)

is_state-eq : (s t : State) → is_state s t ≡ true → s ≡ t
is_state-eq s t h = ground arith

texts_differ : (s t : String) → s ≢ t → str_eq s t ≡ false
texts_differ s t ne = elim (Bool-cases (str_eq s t)) [
  | inl q ↦ absurd (ne ((eq_iff s t).0 q))
  | inr q ↦ q
]

empty_ne : (s : String) → str_eq s "" ≡ false → s ≢ ""
empty_ne s q e = absurd (ground (arith, q, (eq_iff s "").1 e))

-- A participant with an id owes a rollback or has nothing left to undo.
owes-IsUndone : (p : Participant) → owes_rollback p ≡ false → p.id ≢ "" → IsUndone p
unfolding owes_rollback
owes-IsUndone p h ne = elim (Bool-cases (is_state p.state State.rolled_back)) [
  | inl q ↦ inl (is_state-eq p.state State.rolled_back q)
  | inr q ↦ inr (is_state-eq p.state State.failed (ground (arith, q, h, texts_differ p.id "" ne)))
]

reverted-IsUndone :
    (p : Participant) (r : Option Reply) → (reverted p r).1 ≡ false → IsUndone (reverted p r).0
unfolding reverted
reverted-IsUndone p r h = inl (settle-one p r State.rolled_back h)

decode-id : (r : Reply) (p : Participant) → decode_participant r ≡ some p → p.id ≢ ""
unfolding decode_participant
decode-id r p h e =
    let t : is_transaction_id p.id ≡ true = ground (arith, h) in
    let f : is_transaction_id "" ≡ true = subst (λ i. is_transaction_id i ≡ true) e t in cc

found_again-id :
    (p : Participant) (r : Option Reply) → (found_again p r).1 ≡ false → (found_again p r).0.id ≢ ""
unfolding found_again
found_again-id p none h = cc
found_again-id p (some r) h = elim (Option-cases (decode_participant r)) [
  | inl q ↦ absurd (ground (arith, q, h))
  | inr (x, q) ↦ rw q (decode-id r x q)
]

module _ {H : Type 0} where
  rollback_done-ok :
      (job : Job) (e e' : Entry) (w : World Entries Command H)
      → (rollback_done job e w).1 ≡ ok e'
      → (e' ≡ closed rolled_back e)
        × (disk (rollback_done job e w).0.log ≡ some (with_entry job e'))
  unfolding rollback_done store
  rollback_done-ok job e e' w h =
      let s = chained _ _ w e' h in
      let q : e' ≡ closed rolled_back e = ground (arith, s.then_is) in
      (q, rw (s.world, q) (save-ok _ (with_entry job (closed rolled_back e)) s.first w s.first_is))

  rollback_waiting-err :
      (job : Job) (e e' : Entry) (w : World Entries Command H)
      → (rollback_waiting job e w).1 ≢ ok e'
  unfolding rollback_waiting
  rollback_waiting-err job e e' w h = err-not-ok _ e' (chained _ _ w e' h).then_is

module _ {H : Type 0} (env : Env H) where
  -- An answer without an error, of a participant that is known, means that nothing is left to undo.
  revert_gateway-ok :
      (e : Entry) (b : Bool) (p : Participant × Bool) (w : World Entries Command H)
      → (revert_gateway env e b w).1 ≡ ok p
      → p.1 ≡ false
      → (b ≡ false → e.gateway.id ≢ "")
      → IsUndone p.0
  unfolding revert_gateway
  revert_gateway-ok e b p w h f id = elim (Bool-cases (owes_rollback e.gateway)) [
    | inl q ↦
        let s = chained _ _ w p (taken (owes_rollback e.gateway) _ _ w p q h) in
        subst (λ x. x.1 ≡ false → IsUndone x.0) (value_or-ok _ p p s.then_is)
          (reverted-IsUndone e.gateway s.first) f
    | inr q ↦
        subst (λ x. x.1 ≡ false → IsUndone x.0)
          (value_or-ok _ p p (skipped (owes_rollback e.gateway) _ _ w p q h))
          (λ c. owes-IsUndone e.gateway q (id c)) f
  ]

  revert_node-ok :
      (job : Job) (e : Entry) (b : Bool) (p : Participant × Bool) (w : World Entries Command H)
      → (revert_node env job e b w).1 ≡ ok p
      → p.1 ≡ false
      → (b ≡ false → e.node.id ≢ "")
      → IsUndone p.0
  unfolding revert_node
  revert_node-ok job e b p w h f id = elim (Bool-cases (owes_rollback e.node)) [
    | inl q ↦
        let s = chained _ _ w p (taken (owes_rollback e.node) _ _ w p q h) in
        subst (λ x. x.1 ≡ false → IsUndone x.0) (value_or-ok _ p p s.then_is)
          (reverted-IsUndone e.node s.first) f
    | inr q ↦
        subst (λ x. x.1 ≡ false → IsUndone x.0)
          (value_or-ok _ p p (skipped (owes_rollback e.node) _ _ w p q h))
          (λ c. owes-IsUndone e.node q (id c)) f
  ]

  find_gateway-ok :
      (e : Entry) (p : Participant × Bool) (w : World Entries Command H)
      → (find_gateway env e w).1 ≡ ok p
      → p.1 ≡ false
      → p.0.id ≢ ""
  unfolding find_gateway
  find_gateway-ok e p w h f = elim (Bool-cases (str_eq e.gateway.id "")) [
    | inl q ↦
        let s = chained _ _ w p (taken (str_eq e.gateway.id "") _ _ w p q h) in
        subst (λ x. x.1 ≡ false → x.0.id ≢ "") (value_or-ok _ p p s.then_is)
          (found_again-id e.gateway s.first) f
    | inr q ↦
        subst (λ x. x.0.id ≢ "") (value_or-ok _ p p (skipped (str_eq e.gateway.id "") _ _ w p q h))
          (empty_ne e.gateway.id q)
  ]

  find_node-ok :
      (job : Job) (e : Entry) (p : Participant × Bool) (w : World Entries Command H)
      → (find_node env job e w).1 ≡ ok p
      → p.1 ≡ false
      → p.0.id ≢ ""
  unfolding find_node
  find_node-ok job e p w h f = elim (Bool-cases (str_eq e.node.id "")) [
    | inl q ↦
        let s = chained _ _ w p (taken (str_eq e.node.id "") _ _ w p q h) in
        subst (λ x. x.1 ≡ false → x.0.id ≢ "") (value_or-ok _ p p s.then_is)
          (found_again-id e.node s.first) f
    | inr q ↦
        subst (λ x. x.0.id ≢ "") (value_or-ok _ p p (skipped (str_eq e.node.id "") _ _ w p q h))
          (empty_ne e.node.id q)
  ]

  -- What a rollback that reports success leaves.
  pub record IsRolledBack (job : Job) (e : Entry) (w : World Entries Command H) : Type 0 where
    pub state : e.transaction.state ≡ rolled_back
    pub passphrase : e.transaction.plan.passphrase ≡ ""
    pub node : IsUndone e.node
    pub gateway : IsUndone e.gateway
    pub on_disk : disk w.log ≡ some (with_entry job e)

  undo_gateway-ok :
      (job : Job) (e e' : Entry) (a b : Bool) (w : World Entries Command H)
      → (undo_gateway env job e a b w).1 ≡ ok e'
      → (a ≡ false → IsUndone e.node)
      → (b ≡ false → e.gateway.id ≢ "")
      → IsRolledBack job e' (undo_gateway env job e a b w).0
  unfolding undo_gateway
  undo_gateway-ok job e e' a b w h n id =
      let s = chained (revert_gateway env e b) _ w e' h in
      let p = s.first in
      let v = (revert_gateway env e b w).0 in
      elim (Bool-cases (a || p.1)) [
        | inl q ↦ absurd (
            rollback_waiting-err job (with_gateway p.0 e) e' v
              (taken (a || p.1) _ (rollback_done job (with_gateway p.0 e)) v e' q s.then_is))
        | inr q ↦
            let done =
              rollback_done-ok job (with_gateway p.0 e) e' v (
                skipped (a || p.1) (rollback_waiting job (with_gateway p.0 e)) _ v e' q
                  s.then_is) in
            let same =
              s.world
              ∙ ap (λ r. r.0)
                  (same_world (a || p.1) (rollback_waiting job (with_gateway p.0 e))
                    (rollback_done job (with_gateway p.0 e)) v q) in
            record {
              state = rw done.0 refl;
              passphrase = rw done.0 refl;
              node = rw done.0 (n (ground (arith, q)));
              gateway = rw done.0 (revert_gateway-ok e b p w s.first_is (ground (arith, q)) id);
              on_disk = rw same done.1;
            }
      ]

  undo_node-ok :
      (job : Job) (e e' : Entry) (a b : Bool) (w : World Entries Command H)
      → (undo_node env job e a b w).1 ≡ ok e'
      → (a ≡ false → e.node.id ≢ "")
      → (b ≡ false → e.gateway.id ≢ "")
      → IsRolledBack job e' (undo_node env job e a b w).0
  unfolding undo_node
  undo_node-ok job e e' a b w h n g =
      let s = chained (revert_node env job e a) _ w e' h in
      subst (IsRolledBack job e') (sym s.world) (
        undo_gateway-ok job (with_node s.first.0 e) e' s.first.1 b (revert_node env job e a w).0
          s.then_is (λ q. revert_node-ok job e a s.first w s.first_is q n) g)

  seek_gateway-ok :
      (job : Job) (e e' : Entry) (a : Bool) (w : World Entries Command H)
      → (seek_gateway env job e a w).1 ≡ ok e'
      → (a ≡ false → e.node.id ≢ "")
      → IsRolledBack job e' (seek_gateway env job e a w).0
  unfolding seek_gateway
  seek_gateway-ok job e e' a w h n =
      let s = chained (find_gateway env e) _ w e' h in
      subst (IsRolledBack job e') (sym s.world) (
        undo_node-ok job (with_gateway s.first.0 e) e' a s.first.1 (find_gateway env e w).0
          s.then_is n (find_gateway-ok e s.first w s.first_is))

  seek_node-ok :
      (job : Job) (e e' : Entry) (w : World Entries Command H)
      → (seek_node env job e w).1 ≡ ok e'
      → IsRolledBack job e' (seek_node env job e w).0
  unfolding seek_node
  seek_node-ok job e e' w h =
      let s = chained (find_node env job e) _ w e' h in
      subst (IsRolledBack job e') (sym s.world) (
        seek_gateway-ok job (with_node s.first.0 e) e' s.first.1 (find_node env job e w).0 s.then_is
          (find_node-ok job e s.first w s.first_is))

  rollback_open-ok :
      (job : Job) (e e' : Entry) (w : World Entries Command H)
      → (rollback_open env job e w).1 ≡ ok e'
      → IsRolledBack job e' (rollback_open env job e w).0
  unfolding rollback_open
  rollback_open-ok job e e' w h =
      let s = chained _ _ w e' h in
      subst (IsRolledBack job e') (sym s.world)
        (seek_node-ok job (with_phase rolling_back e) e' _ s.then_is)

  -- Where `rollbackCoverage` of a transaction that is not rolled back yet reports success, whatever the
  -- participants answered, both of them are recorded as rolled back or failed, the transaction is
  -- rolled back, its passphrase is gone, and the journal on disk holds this entry.
  pub rollback_ok :
      (job : Job) (e e' : Entry) (w : World Entries Command H)
      → is_phase e.transaction.state rolled_back ≡ false
      → (rollback env job e w).1 ≡ ok e'
      → IsRolledBack job e' (rollback env job e w).0
  unfolding rollback
  rollback_ok job e e' w q h =
      let b = is_phase e.transaction.state rolled_back in
      rw (same_world b (pure e) (rollback_open env job e) w q)
        (rollback_open-ok job e e' w (skipped b (pure e) (rollback_open env job e) w e' q h))
