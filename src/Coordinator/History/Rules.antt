-- ===== src/Coordinator/History/Rules.antt =====
-- Rules for coverage_coordinator.go: how a save or a call extends a log that is in order.
use text.Mathlib.Text.{◌==◌ as str_eq}
use text.Mathlib.TextEquality.{eq_iff}
use route_harbor.Prelude.{
  ◌≡◌, refl, sym, [], ◌∷◌, Option, some, String, arith, Bool-cases, inl, inr,
}
use route_harbor.Effects.{wrote, did, disk, World, Result, ok, err, call, ◌>>=◌, continue}
use route_harbor.Effects.Rules.{calls, saves}
use route_harbor.Coverage.{Plan as GatewayPlan}
use route_harbor.Node.{Plan}
use route_harbor.Coordinator.{Entry, Entries, Request, Reply, find, put, gateway_operation}
use route_harbor.Coordinator.World.{
  Env, Step, Command, gateway, node, Job, Failure, with_entry, ask_gateway, ask_node, store,
}
use route_harbor.Coordinator.History.{Edge, Kin, IsClean, Change, Allowed, IsDue, IsHistory}

pub find-put : (id : String) (e : Entry) (es : Entries) → find id (put id e es) ≡ some e
find-put id e [] = rw ((eq_iff id id).1 refl) refl
find-put id e ((k, d) ∷ es) = elim (Bool-cases (str_eq k id)) [
  | inl q ↦ ground (arith, q)
  | inr q ↦ ground (arith, q, find-put id e es)
]

pub put-put : (id : String) (x e : Entry) (es : Entries) → put id x (put id e es) ≡ put id x es
put-put id x e [] = rw ((eq_iff id id).1 refl) refl
put-put id x e ((k, d) ∷ es) = elim (Bool-cases (str_eq k id)) [
  | inl q ↦ ground (arith, q)
  | inr q ↦ ground (arith, q, put-put id x e es)
]

-- The journal on disk holds `d` for the job, and the other entries as they were loaded.
pub record At (o : Option Entries) (job : Job) (d : Entry) : Type 0 where
  pub entries : Entries
  pub on_disk : o ≡ some entries
  pub is : find job.id entries ≡ some d
  pub others : (x : Entry) → put job.id x entries ≡ with_entry job x

-- A world whose log is in order, in the middle of a job.
pub record Ready {H : Type 0} (w : World Entries Command H) (job : Job) (d : Entry) : Type 0 where
  pub ordered : IsHistory w.log
  pub at : At (disk w.log) job d

pub At-after :
    {o : Option Entries} {job : Job} {d : Entry} (e : Entry)
    → At o job d
    → At (some (with_entry job e)) job e
At-after {job = job} e a = record {
  entries = with_entry job e;
  on_disk = refl;
  is = find-put job.id e job.entries;
  others = λ x. put-put job.id x e job.entries;
}

pub At-Change :
    {o : Option Entries} {job : Job} {d : Entry} (e : Entry)
    → At o job d
    → Edge d.transaction.state e.transaction.state
    → Kin d e
    → IsClean e
    → Change o (with_entry job e)
At-Change {job = job} {d = d} e a edge kin clean =
    Change.moves job.id a.entries d e a.on_disk a.is edge kin clean (sym (a.others e))

module _ {H : Type 0} where
  -- The same log in another world.
  pub Ready-same :
      (w w' : World Entries Command H) (job : Job) (d : Entry)
      → Ready w job d
      → w'.log ≡ w.log
      → Ready w' job d
  Ready-same w w' job d r l = record { ordered = rw l r.ordered; at = rw l r.at }

  Ready-did :
      (w w' : World Entries Command H) (job : Job) (d : Entry) (c : Command)
      → Ready w job d
      → Allowed c (disk w.log)
      → w'.log ≡ did c ∷ w.log
      → Ready w' job d
  Ready-did w w' job d c r a l = record { ordered = rw l (a, r.ordered); at = rw l r.at }

  pub Ready-wrote :
      (w w' : World Entries Command H) (job : Job) (d e : Entry)
      → Ready w job d
      → Change (disk w.log) (with_entry job e)
      → w'.log ≡ wrote (with_entry job e) ∷ w.log
      → Ready w' job e
  Ready-wrote w w' job d e r c l = record {
    ordered = rw l (c, r.ordered);
    at = rw l (At-after e r.at);
  }

module _ {H A : Type 0} where
  abbrev pub Safe : World Entries Command H × Result Failure A → Type 0
  Safe r = IsHistory r.0.log

  -- The journal moves from `d` to `e`, or the step ends with the file as it was or as it shall be.
  pub stores :
      (w : World Entries Command H) (job : Job) (d e : Entry) (x : Failure)
      → (f : Unit {0} → Step H A) → Ready w job d
      → Edge d.transaction.state e.transaction.state
      → Kin d e
      → IsClean e
      → ((w' : World Entries Command H) → Ready w' job e → Safe (f tt w'))
      → Safe ((store job e x >>= f) w)
  unfolding store
  stores w job d e x f r edge kin clean k =
      let c = At-Change e r.at edge kin clean in
      saves IsDue w.log x (with_entry job e) f w r.ordered c refl
        (λ w' l. k w' (Ready-wrote w w' job d e r c l))

  pub asks_gateway :
      (env : Env H) (w : World Entries Command H) (job : Job) (d : Entry) (q : Request GatewayPlan)
      → (f : Option Reply → Step H A) → Ready w job d
      → Allowed (gateway (env.clock w.hw) q) (disk w.log)
      → ((a : Option Reply) (w' : World Entries Command H) → Ready w' job d → Safe (f a w'))
      → Safe ((ask_gateway env q >>= f) w)
  unfolding ask_gateway ◌>>=◌
  asks_gateway env w job d q f r a k =
      let c = gateway (env.clock w.hw) q in
      let g : H → H × Option Reply = λ h. env.gateway h (gateway_operation q) in
      calls IsDue w.log c g f w r.ordered a refl (λ x w' l. k x w' (Ready-did w w' job d c r a l))

  pub asks_node :
      (env : Env H) (w : World Entries Command H) (job : Job) (d : Entry) (q : Request Plan)
      → (f : Option Reply → Step H A) → Ready w job d
      → Allowed (node (env.clock w.hw) job.peer q) (disk w.log)
      → ((a : Option Reply) (w' : World Entries Command H) → Ready w' job d → Safe (f a w'))
      → Safe ((ask_node env job.peer q >>= f) w)
  unfolding ask_node ◌>>=◌
  asks_node env w job d q f r a k =
      let c = node (env.clock w.hw) job.peer q in
      let g : H → H × Option Reply = λ h. env.node h job.peer q in
      calls IsDue w.log c g f w r.ordered a refl (λ x w' l. k x w' (Ready-did w w' job d c r a l))

module _ {H A B : Type 0} where
  result_follows :
      (r : Result Failure A) (job : Job) (d : Entry) (f : A → Step H B)
      → (w : World Entries Command H) → Ready w job d
      → ((a : A) → r ≡ ok a → Safe (f a w))
      → Safe (continue r f w)
  result_follows (ok a) job d f w r k = k a refl
  result_follows (err e) job d f w r k = r.ordered

  -- A step that leaves the journal as it is.
  pub follows :
      (m : Step H A) (f : A → Step H B) (w : World Entries Command H) (job : Job) (d : Entry)
      → Ready (m w).0 job d
      → ((a : A) (w' : World Entries Command H) → Ready w' job d → (m w).1 ≡ ok a → Safe (f a w'))
      → Safe ((m >>= f) w)
  unfolding ◌>>=◌
  follows m f w job d r k = result_follows (m w).1 job d f (m w).0 r (λ a e. k a (m w).0 r e)

module _ {H : Type 0} (env : Env H) where
  pub ask_gateway-Ready :
      (w : World Entries Command H) (job : Job) (d : Entry) (q : Request GatewayPlan)
      → Ready w job d
      → Allowed (gateway (env.clock w.hw) q) (disk w.log)
      → Ready (ask_gateway env q w).0 job d
  unfolding ask_gateway call
  ask_gateway-Ready w job d q r a = Ready-did w _ job d (gateway (env.clock w.hw) q) r a refl

  pub ask_node-Ready :
      (w : World Entries Command H) (job : Job) (d : Entry) (q : Request Plan)
      → Ready w job d
      → Allowed (node (env.clock w.hw) job.peer q) (disk w.log)
      → Ready (ask_node env job.peer q w).0 job d
  unfolding ask_node call
  ask_node-Ready w job d q r a = Ready-did w _ job d (node (env.clock w.hw) job.peer q) r a refl
