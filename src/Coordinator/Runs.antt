-- ===== src/Coordinator/Runs.antt =====
-- Whole lives of the gateway service (coverage_coordinator.go): requests, recovery runs, restarts, faults.
pub mod Soundness
use route_harbor.Prelude.{ℕ, ◌+◌, ◌*◌, ◌<◌, ◌≤◌, ◌≡◌, subst, List, [], ◌∷◌, ◌++◌, String, refl}
use route_harbor.Effects.{Event, did, disk, World}
use route_harbor.Effects.Rules.{IsOrdered-tail}
use route_harbor.Coverage.{State}
use route_harbor.Coverage.Calls.{second}
use route_harbor.Node.{Plan}
use route_harbor.Coverage.{Plan as GatewayPlan}
use route_harbor.Prelude.{Option}
use route_harbor.Coordinator.{Entry, Entries, Record, Request, applying, confirming}
use route_harbor.Coordinator.World.{Env, Command, gateway, node}
use route_harbor.Coordinator.Service.{Operation, operate, plan_coverage, recover, check_unpair}
use route_harbor.Coordinator.History.{IsHistory, IsDue, Holds, HasGateway}
use route_harbor.Coordinator.History.Lives.{
  operate-Safe, plan_coverage-Safe, recover-Safe, check_unpair-Safe,
}

-- Between two calls the world may change in every way, but for what has happened. A process that
-- is killed leaves the log at any event, so a world whose log is a tail may also come next.
pub data Reach {H : Type 0} (env : Env H) : World Entries Command H → Type 0 where
  fresh : (w : World Entries Command H) → w.log ≡ [] → Reach env w
  operates :
      {w : World Entries Command H} (id : String) (o : Operation)
      → Reach env w
      → Reach env (operate env id o w).0
  plans :
      {w : World Entries Command H} (id : String) (p : Plan) (g : Option GatewayPlan)
      → Reach env w
      → Reach env (plan_coverage env id p g w).0
  recovers : {w : World Entries Command H} → Reach env w → Reach env (recover env w).0
  checks :
      {w : World Entries Command H} (id : String)
      → Reach env w
      → Reach env (check_unpair env id w).0
  outside :
      {w : World Entries Command H} (w' : World Entries Command H)
      → w'.log ≡ w.log
      → Reach env w
      → Reach env w'
  killed :
      {w : World Entries Command H} (w' : World Entries Command H)
      → (lost : List (Event Entries Command)) → w.log ≡ lost ++ w'.log
      → Reach env w
      → Reach env w'

module _ {H : Type 0} (env : Env H) where
  -- In every life of the service that starts with no journal, over all participants, requests and
  -- recovery runs in every order, with lost answers, failed writes and a kill after any event, the log
  -- is in order: each journal written moves one transaction along the state diagram, begins one
  -- where none is open, or forgets a settled one, and leaves the other entries alone; and every
  -- request that changes a participant is one that the journal on disk allows.
  pub Reach-IsOrdered : (w : World Entries Command H) → Reach env w → IsHistory w.log
  Reach-IsOrdered _ (fresh w e) = rw e tt
  Reach-IsOrdered _ (operates {w = v} id o r) = operate-Safe env v id o (Reach-IsOrdered v r)
  Reach-IsOrdered _ (plans {w = v} id p g r) = plan_coverage-Safe env v id p g (Reach-IsOrdered v r)
  Reach-IsOrdered _ (recovers {w = v} r) = recover-Safe env v (Reach-IsOrdered v r)
  Reach-IsOrdered _ (checks {w = v} id r) = check_unpair-Safe env v id (Reach-IsOrdered v r)
  Reach-IsOrdered _ (outside {w = v} w e r) = rw e (Reach-IsOrdered v r)
  Reach-IsOrdered _ (killed {w = v} w lost e r) =
      IsOrdered-tail IsDue lost w.log (subst IsHistory e (Reach-IsOrdered v r))

  ordered_at :
      (w : World Entries Command H) (later earlier : List (Event Entries Command)) (c : Command)
      → Reach env w
      → w.log ≡ later ++ did c ∷ earlier
      → IsHistory (did c ∷ earlier)
  ordered_at w later earlier c r e =
      IsOrdered-tail IsDue later (did c ∷ earlier) (subst IsHistory e (Reach-IsOrdered w r))

  -- Wherever the node was told to apply its plan, in a life that starts with no journal, with lost
  -- answers, failed writes and kills, the journal on disk held a transaction that is applying, whose
  -- gateway has already applied its part and whose node part has the id that was sent. The window
  -- that was sent is at least 30 seconds long, and counted from the time of sending it ends less than
  -- a second after the recorded deadline. When the node starts to count is up to the node.
  pub node_applies_second :
      (w : World Entries Command H) (later earlier : List (Event Entries Command)) (t n : ℕ)
      → (peer : Record) (i : String) → Reach env w
      → w.log ≡ later ++ did (node t peer (Request.apply i n)) ∷ earlier
      → Holds (disk earlier) (λ e.
        (e.transaction.state ≡ applying)
        × (e.gateway.state ≡ State.applied)
        × (e.node.id ≡ i)
        × (30 ≤ n)
        × (t + n * second < e.transaction.deadline + second))
  node_applies_second w later earlier t n peer i r e =
      (ordered_at w later earlier (node t peer (Request.apply i n)) r e).0

  -- Wherever the node was told to confirm, in a life that starts with no journal, with lost answers,
  -- failed writes and kills, the journal on disk held a transaction that is confirming, whose gateway
  -- part is confirmed or finalized and whose node part has the id that was sent.
  pub node_confirms_second :
      (w : World Entries Command H) (later earlier : List (Event Entries Command)) (t : ℕ)
      → (peer : Record) (i : String) → Reach env w
      → w.log ≡ later ++ did (node t peer (Request.confirm i)) ∷ earlier
      → Holds
          (disk earlier)
          (λ e. (e.transaction.state ≡ confirming) × HasGateway e × (e.node.id ≡ i))
  node_confirms_second w later earlier t peer i r e =
      (ordered_at w later earlier (node t peer (Request.confirm i)) r e).0

  -- Wherever the gateway was told to finalize, which drops what it could be rolled back to, in a life
  -- that starts with no journal, with lost answers, failed writes and kills, the journal on disk held
  -- a transaction that is confirming, whose node part is confirmed and whose gateway part has the id
  -- that was sent.
  pub gateway_finalizes_last :
      (w : World Entries Command H) (later earlier : List (Event Entries Command)) (t : ℕ)
      → (i : String) → Reach env w
      → w.log ≡ later ++ did (gateway t (Request.finalize i)) ∷ earlier
      → Holds (disk earlier) (λ e.
        (e.transaction.state ≡ confirming) × (e.gateway.id ≡ i) × (e.node.state ≡ State.confirmed))
  gateway_finalizes_last w later earlier t i r e =
      (ordered_at w later earlier (gateway t (Request.finalize i)) r e).0
