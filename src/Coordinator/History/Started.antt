-- ===== src/Coordinator/History/Started.antt =====
-- `applyCoverage` of coverage_coordinator.go keeps the log in order.
use native.Mathlib.Omega.{arith}
use route_harbor.Prelude.{
  ℕ, ◌+◌, ◌*◌, ◌≤◌, ◌<◌, ◌≡◌, refl, true, false, ◌||◌, ◌∷◌, [], List, Option, none, some, String,
  ltb, ltb→lt, Bool-cases, inl, inr,
}
use route_harbor.Prelude.Text.{between}
use route_harbor.Effects.{disk, World, pure, look}
use route_harbor.Effects.Rules.{either-Safe, tries}
use route_harbor.Coverage.{State}
use route_harbor.Coverage.Calls.{second}
use route_harbor.Coordinator.{
  Participant, Entry, Entries, Reply, prepared, applying, applied, confirmed, is_phase, with_phase,
  with_error, with_node, with_gateway,
}
use route_harbor.Coordinator.{apply as ask_apply}
use route_harbor.Coordinator.World.{
  Env, Command, Job, with_entry, try_store, settle, matching, is_some, remaining, among,
}
use route_harbor.Coordinator.Commit.{
  apply_broken, apply_done, apply_within, apply_node, gateway_applied, apply_gateway,
  apply_prepared, apply, started,
}
use route_harbor.Coordinator.History.{Edge, Kin, IsDue, Change}
use route_harbor.Coordinator.History.Rules.{
  Ready, Safe, stores, asks_gateway, asks_node, At-Change, Ready-wrote, Ready-same,
}
use route_harbor.Coordinator.History.Quiet.{
  still, goes_on, guard-Quietly, guard-ok, fresh-Quietly, validate_coverage-Quietly,
}
use route_harbor.Coordinator.History.Undone.{At-Holds, rollback-Safe}
use route_harbor.Coordinator.History.Prepared.{is_phase-eq}

-- Rounding up adds less than a second.
pub remaining-bound :
    (deadline now : ℕ)
    → ltb (remaining deadline now) 30 ≡ false
    → now + remaining deadline now * second < deadline + second
unfolding remaining
remaining-bound deadline now h = elim (Bool-cases (ltb now deadline)) [
  | inl q ↦ ground (arith, q, ltb→lt now deadline q)
  | inr q ↦ absurd (ground (arith, q, h))
]

-- A participant that was matched is in one of the states.
pub matching-state :
    (r : Reply) (id : String) (states : List State)
    → is_some (matching r id states).1 ≡ false
    → among (matching r id states).0.state states ≡ true
unfolding matching
matching-state r id states h = ground (arith, h)

pub settle-state :
    (p : Participant) (r : Option Reply) (states : List State)
    → is_some (settle p r states).1 ≡ false
    → among (settle p r states).0.state states ≡ true
unfolding settle
settle-state p none states h = cc
settle-state p (some r) states h = matching-state r p.id states h

among-one : (s t : State) → among s (t ∷ []) ≡ true → s ≡ t
among-one s t h = ground arith

pub settle-one :
    (p : Participant) (r : Option Reply) (t : State)
    → is_some (settle p r (t ∷ [])).1 ≡ false
    → (settle p r (t ∷ [])).0.state ≡ t
settle-one p r t h = among-one _ t (settle-state p r (t ∷ []) h)

module _ {H : Type 0} (env : Env H) where
  apply_broken-Safe :
      (w : World Entries Command H) (job : Job) (d e : Entry)
      → Ready w job d
      → d.transaction.state ≡ applying
      → Kin d e
      → Safe (apply_broken env job e w)
  unfolding apply_broken
  apply_broken-Safe w job d e r s k =
      rollback-Safe env w job d (with_error "coverage_apply_failed" e) r (rw s refl) k

  apply_done-Safe :
      (w : World Entries Command H) (job : Job) (d e : Entry)
      → Ready w job d
      → d.transaction.state ≡ applying
      → Kin d e
      → Safe (apply_done env job e w)
  unfolding apply_done
  apply_done-Safe w job d e r s k =
      stores w job d (with_phase applied e) _ _ r (rw s Edge.done) k
        (λ c. absurd (ground (arith, c))) (λ w' r'. r'.ordered)

  apply_within-Safe :
      (w : World Entries Command H) (job : Job) (e : Entry) (left : ℕ)
      → Ready w job e
      → e.transaction.state ≡ applying
      → e.gateway.state ≡ State.applied
      → 30 ≤ left
      → env.clock w.hw + left * second < e.transaction.deadline + second
      → Safe (apply_within env job e left w)
  unfolding apply_within
  apply_within-Safe w job e left r s g lo hi =
      asks_node env w job e (ask_apply e.node.id left) _ r (At-Holds _ r.at (s, g, refl, lo, hi))
        λ answer w₁ r₁.
          let p = settle e.node answer (State.applied ∷ []) in
          either-Safe IsDue (is_some p.1) (apply_broken env job (with_node p.0 e))
            (apply_done env job (with_node p.0 e)) w₁
            (λ q. apply_broken-Safe w₁ job e (with_node p.0 e) r₁ s (refl, refl, refl, refl))
            (λ q. apply_done-Safe w₁ job e (with_node p.0 e) r₁ s (refl, refl, refl, refl))

  apply_node-Safe :
      (w : World Entries Command H) (job : Job) (e : Entry)
      → Ready w job e
      → e.transaction.state ≡ applying
      → e.gateway.state ≡ State.applied
      → Safe (apply_node env job e w)
  unfolding apply_node
  apply_node-Safe w job e r s g =
      let now = env.clock w.hw in
      let left = remaining e.transaction.deadline now in
      either-Safe IsDue (ltb left 30) (apply_broken env job e) (apply_within env job e left) w
        (λ q. apply_broken-Safe w job e e r s (refl, refl, refl, refl))
        (λ q.
          apply_within-Safe w job e left r s g (ground (arith, q))
            (remaining-bound e.transaction.deadline now q))

  gateway_applied-Safe :
      (w : World Entries Command H) (job : Job) (d e : Entry)
      → Ready w job d
      → d.transaction.state ≡ applying
      → e.transaction.state ≡ applying
      → e.gateway.state ≡ State.applied
      → Kin d e
      → Safe (gateway_applied env job e w)
  unfolding gateway_applied try_store
  gateway_applied-Safe w job d e r s t g k =
      let c : Change (disk w.log) (with_entry job e) =
        At-Change e r.at (rw (s, t) (Edge.keep applying refl)) k
          (λ y. absurd (ground (arith, y, t))) in
      tries IsDue w.log _ (with_entry job e) _ w r.ordered c refl
        (λ w' l. apply_node-Safe w' job e (Ready-wrote w w' job d e r c l) t g)
        (λ w' l. apply_broken-Safe w' job d e (Ready-same w w' job d r l) s k)
        (λ w' l.
          apply_broken-Safe w' job e e (Ready-wrote w w' job d e r c l) t (refl, refl, refl, refl))

  apply_gateway-Safe :
      (w : World Entries Command H) (job : Job) (e : Entry) (timeout : ℕ)
      → Ready w job e
      → e.transaction.state ≡ applying
      → between 30 180 timeout ≡ true
      → Safe (apply_gateway env job e timeout w)
  unfolding apply_gateway
  apply_gateway-Safe w job e timeout r s b =
      asks_gateway env w job e (ask_apply e.gateway.id timeout) _ r
        (At-Holds _ r.at (s, refl, ground (arith, b), ground (arith, b)))
        λ answer w₁ r₁.
          let p = settle e.gateway answer (State.applied ∷ []) in
          either-Safe IsDue (is_some p.1) (apply_broken env job (with_gateway p.0 e))
            (gateway_applied env job (with_gateway p.0 e)) w₁
            (λ q. apply_broken-Safe w₁ job e (with_gateway p.0 e) r₁ s (refl, refl, refl, refl))
            (λ q.
              gateway_applied-Safe w₁ job e (with_gateway p.0 e) r₁ s s
                (settle-one e.gateway answer State.applied q) (refl, refl, refl, refl))

  apply_prepared-Safe :
      (w : World Entries Command H) (job : Job) (e : Entry) (timeout : ℕ)
      → Ready w job e
      → between 30 180 timeout ≡ true
      → Safe (apply_prepared env job e timeout w)
  unfolding apply_prepared look
  apply_prepared-Safe w job e timeout r b =
      goes_on _ _ w job e (guard-Quietly _ _ w) r λ u w₁ r₁ q₁.
        goes_on _ _ w₁ job e (fresh-Quietly env _ _ w₁) r₁ λ peer w₂ r₂ q₂.
          goes_on _ _ w₂ job e (validate_coverage-Quietly env _ _ _ _ w₂) r₂ λ plans w₃ r₃ q₃.
            goes_on _ _ w₃ job e (guard-Quietly _ _ w₃) r₃ λ u' w₄ r₄ q₄.
              goes_on _ _ w₄ job e (still w₄) r₄ λ now w₅ r₅ q₅.
                let s : e.transaction.state ≡ prepared =
                  is_phase-eq _ prepared (guard-ok _ _ u w q₁) in
                stores w₅ job e (started now timeout e) _ _ r₅ (rw s Edge.start)
                  (refl, refl, refl, refl) (λ c. absurd (ground (arith, c)))
                  λ w₆ r₆. apply_gateway-Safe w₆ job (started now timeout e) timeout r₆ refl b

  pub apply-Safe :
      (w : World Entries Command H) (job : Job) (e : Entry) (timeout : ℕ)
      → Ready w job e
      → Safe (apply env job e timeout w)
  unfolding apply
  apply-Safe w job e timeout r = goes_on _ _ w job e (guard-Quietly _ _ w) r λ u w₁ r₁ q₁.
      either-Safe IsDue
        (is_phase e.transaction.state applied || is_phase e.transaction.state confirmed) (pure e)
        (apply_prepared env job e timeout) w₁ (λ q. r₁.ordered)
        (λ q. apply_prepared-Safe w₁ job e timeout r₁ (guard-ok _ _ u w q₁))
