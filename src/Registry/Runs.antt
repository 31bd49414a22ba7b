-- ===== src/Registry/Runs.antt =====
-- Whole lives of the registry (internal/node/service.go): pairing, unpairing, restarts and kills.
pub mod Steps
pub mod Kept
use route_harbor.Prelude.{
  ◌≡◌, refl, subst, true, List, [], ◌∷◌, ◌++◌, Option, none, some, String, arith,
}
use route_harbor.Effects.{Event, World, ok, disk, ◌>>=◌, guard}
use route_harbor.Effects.Rules.{IsOrdered-tail}
use route_harbor.Registry.{Records, Pairing, Env, Machine, Command, valid_registry}
use route_harbor.Registry.Service.{pair, unpair, new_service, remember, kept_file}
use route_harbor.Registry.Runs.Steps.{IsDue, IsHistory, IsKept, kept_file-valid}
use route_harbor.Registry.Runs.Kept.{pair-IsKept, unpair-IsKept, new_service-IsKept}

-- A process that is killed leaves the log at any event, and its memory is lost. All else may change
-- between two calls.
pub data Reach {H : Type 0} (env : Env H) : World Records Command (Machine H) → Type 0 where
  fresh : (w : World Records Command (Machine H)) → w.log ≡ [] → w.hw.records ≡ [] → Reach env w
  pairs :
      {w : World Records Command (Machine H)} (q : Pairing)
      → Reach env w
      → Reach env (pair env q w).0
  unpairs :
      {w : World Records Command (Machine H)} (id : String)
      → Reach env w
      → Reach env (unpair env id w).0
  starts : {w : World Records Command (Machine H)} → Reach env w → Reach env (new_service env w).0
  outside :
      {w : World Records Command (Machine H)} (w' : World Records Command (Machine H))
      → w'.log ≡ w.log
      → w'.hw.records ≡ w.hw.records
      → Reach env w
      → Reach env w'
  killed :
      {w : World Records Command (Machine H)} (w' : World Records Command (Machine H))
      → (lost : List (Event Records Command)) → w.log ≡ lost ++ w'.log
      → w'.hw.records ≡ []
      → Reach env w
      → Reach env w'

module _ {H : Type 0} (env : Env H) where
  empty-valid : (rs : Records) → rs ≡ [] → valid_registry env rs ≡ true
  unfolding valid_registry
  empty-valid rs e = rw e refl

  pub Reach-IsKept : (w : World Records Command (Machine H)) → Reach env w → IsKept env w
  Reach-IsKept _ (fresh w e m) = (rw e tt, empty-valid w.hw.records m)
  Reach-IsKept _ (pairs {w = v} q r) = pair-IsKept env q v (Reach-IsKept v r)
  Reach-IsKept _ (unpairs {w = v} id r) = unpair-IsKept env id v (Reach-IsKept v r)
  Reach-IsKept _ (starts {w = v} r) = new_service-IsKept env v (Reach-IsKept v r)
  Reach-IsKept _ (outside {w = v} w e m r) = let k = Reach-IsKept v r in (rw e k.0, rw m k.1)
  Reach-IsKept _ (killed {w = v} w lost e m r) = (
    IsOrdered-tail (IsDue env) lost w.log (subst (λ l. IsHistory env l) e (Reach-IsKept v r).0),
    empty-valid w.hw.records m,
  )

  starts-ok :
      (w : World Records Command (Machine H))
      → w.readable ≡ true
      → env.is_decoded (kept_file (disk w.log)) ≡ true
      → valid_registry env (kept_file (disk w.log)) ≡ true
      → ((new_service env w).1 ≡ ok tt)
        × ((new_service env w).0.hw.records ≡ kept_file (disk w.log))
  unfolding new_service ◌>>=◌ guard remember
  starts-ok w r d v = (rw (r, d, v) refl, rw (r, d, v) refl)

  -- In every life of the service that starts with no registry, over all answers of nodes, with failed
  -- writes and a kill after any event, a restart succeeds and remembers what nodes.json holds, if
  -- the file can be read and its text is within the limits of StrictDecode: no operation writes an
  -- entry that NewService refuses.
  pub restart_ok :
      (w : World Records Command (Machine H))
      → Reach env w
      → w.readable ≡ true
      → env.is_decoded (kept_file (disk w.log)) ≡ true
      → ((new_service env w).1 ≡ ok tt)
        × ((new_service env w).0.hw.records ≡ kept_file (disk w.log))
  restart_ok w h r d = starts-ok w r d (kept_file-valid env w.log (Reach-IsKept w h).0)
