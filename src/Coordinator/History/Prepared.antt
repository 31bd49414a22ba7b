-- ===== src/Coordinator/History/Prepared.antt =====
-- `prepareCoverage` of coverage_coordinator.go keeps the log in order.
use text.Mathlib.Text.{◌==◌ as str_eq}
use route_harbor.Prelude.{◌≡◌, refl, ap, ◌∙◌, true, false, Option, none, some, String, arith, inl}
use route_harbor.Effects.{disk, World, Result, ok, err, continue, ◌>>=◌, ◌>>◌, pure, look}
use route_harbor.Effects.Rules.{either-Safe, saves}
use route_harbor.Coverage.{Plan as GatewayPlan}
use route_harbor.Node.{Plan}
use route_harbor.Coordinator.{
  Phase, Entry, Entries, preparing, prepared, is_phase, any_open, find, put, with_phase, with_error,
  with_node, with_gateway,
}
use route_harbor.Coordinator.{prepare as ask_prepare}
use route_harbor.Coordinator.World.{
  Env, Command, Step, Job, Failure, node_key, gateway_key, with_entry, store,
}
use route_harbor.Coordinator.Prepare.{
  finish_prepare, prepare_node, node_part, prepare_gateway, prepare_parts, prepare_repeated,
  prepare_new, prepare_for, prepare, draw, with_plan, new_entry,
}
use route_harbor.Coordinator.History.{Edge, Kin, Change, IsHistory, IsDue, entries_of}
use route_harbor.Coordinator.History.Rules.{
  At, Ready, Safe, stores, asks_gateway, asks_node, find-put, put-put,
}
use route_harbor.Coordinator.History.Quiet.{
  Quietly, still, goes_on, or_raise-Quietly, guard-Quietly, guard-ok, fresh-Quietly,
  validate_coverage-Quietly,
}
use route_harbor.Coordinator.History.Undone.{At-Holds}

pub is_phase-eq : (s t : Phase) → is_phase s t ≡ true → s ≡ t
is_phase-eq s t h = ground arith

-- The journal on disk is the one that was loaded.
pub record IsLoaded {H : Type 0} (w : World Entries Command H) (es : Entries) : Type 0 where
  pub ordered : IsHistory w.log
  pub same : entries_of (disk w.log) ≡ es

found_on_disk :
    (o : Option Entries) (job : Job) (e : Entry)
    → entries_of o ≡ job.entries
    → find job.id job.entries ≡ some e
    → At o job e
found_on_disk none job e s f = absurd (ground (arith, s, f))
found_on_disk (some es) job e s f = record {
  entries = es;
  on_disk = refl;
  is = rw s f;
  others = λ x. ap (put job.id x) s;
}

module _ {H : Type 0} where
  pub Ready-found :
      (w : World Entries Command H) (job : Job) (e : Entry)
      → IsLoaded w job.entries
      → find job.id job.entries ≡ some e
      → Ready w job e
  Ready-found w job e l f = record {
    ordered = l.ordered;
    at = found_on_disk (disk w.log) job e l.same f;
  }

  pub IsLoaded-quiet :
      (w w' : World Entries Command H) (es : Entries)
      → Quietly w w'
      → IsLoaded w es
      → IsLoaded w' es
  IsLoaded-quiet w w' es q l = record {
    ordered = q.ordered l.ordered;
    same = ap entries_of q.same ∙ l.same;
  }

module _ {H A B : Type 0} where
  pub passes_on :
      (m : Step H A) (f : A → Step H B) (w : World Entries Command H) (es : Entries)
      → Quietly w (m w).0
      → IsLoaded w es
      → ((a : A) (w' : World Entries Command H) → IsLoaded w' es → (m w).1 ≡ ok a → Safe (f a w'))
      → Safe ((m >>= f) w)
  unfolding ◌>>=◌
  passes_on m f w es q l k =
      result-passes (m w).1 (m w).0 (IsLoaded-quiet w (m w).0 es q l) (λ a e v. k a (m w).0 v e)
    where
      result-passes :
          (r : Result Failure A) (v : World Entries Command H)
          → IsLoaded v es
          → ((a : A) → r ≡ ok a → IsLoaded v es → Safe (f a v))
          → Safe (continue r f v)
      result-passes (ok a) v l' k' = k' a refl l'
      result-passes (err e) v l' k' = l'.ordered

module _ {H : Type 0} (env : Env H) where
  finish_prepare-Safe :
      (w : World Entries Command H) (job : Job) (d e : Entry)
      → Ready w job d
      → d.transaction.state ≡ preparing
      → Kin d e
      → Safe (finish_prepare env job e w)
  unfolding finish_prepare
  finish_prepare-Safe w job d e r s k =
      stores w job d (with_error "" (with_phase prepared e)) _ _ r (rw s Edge.ready) k
        (λ c. absurd (ground (arith, c))) (λ w' r'. r'.ordered)

  prepare_node-Safe :
      (w : World Entries Command H) (job : Job) (d e : Entry)
      → Ready w job d
      → d.transaction.state ≡ preparing
      → Kin d e
      → Safe (prepare_node env job e w)
  unfolding prepare_node
  prepare_node-Safe w job d e r s k =
      asks_node env w job d (ask_prepare (node_key e) e.transaction.plan) _ r
        (At-Holds _ r.at (inl s, rw (k.0) refl))
        λ answer w₁ r₁. goes_on _ _ w₁ job d (or_raise-Quietly answer _ w₁) r₁ λ reply w₂ r₂ q₂.
          goes_on _ _ w₂ job d (or_raise-Quietly _ _ w₂) r₂
            λ p w₃ r₃ q₃. finish_prepare-Safe w₃ job d (with_node p e) r₃ s k

  node_part-Safe :
      (w : World Entries Command H) (job : Job) (d e : Entry)
      → Ready w job d
      → d.transaction.state ≡ preparing
      → Kin d e
      → Safe (node_part env job e w)
  unfolding node_part
  node_part-Safe w job d e r s k =
      either-Safe IsDue (str_eq e.node.id "") (prepare_node env job e) (finish_prepare env job e) w
        (λ q. prepare_node-Safe w job d e r s k) (λ q. finish_prepare-Safe w job d e r s k)

  prepare_gateway-Safe :
      (w : World Entries Command H) (job : Job) (d e : Entry)
      → Ready w job d
      → d.transaction.state ≡ preparing
      → e.transaction.state ≡ preparing
      → Kin d e
      → Safe (prepare_gateway env job e w)
  unfolding prepare_gateway
  prepare_gateway-Safe w job d e r s t k =
      asks_gateway env w job d (ask_prepare (gateway_key e) e.transaction.gateway_plan) _ r
        (At-Holds _ r.at (inl s, rw (k.0) refl))
        λ answer w₁ r₁. goes_on _ _ w₁ job d (or_raise-Quietly answer _ w₁) r₁ λ reply w₂ r₂ q₂.
          goes_on _ _ w₂ job d (or_raise-Quietly _ _ w₂) r₂ λ p w₃ r₃ q₃.
            goes_on _ _ w₃ job d (or_raise-Quietly _ _ w₃) r₃ λ plan w₄ r₄ q₄.
              stores w₄ job d (with_plan plan (with_gateway p e)) _ _ r₄
                (rw (s, t) (Edge.keep preparing refl)) k (λ c. absurd (ground (arith, c, t)))
                λ w₅ r₅.
                  node_part-Safe w₅ job (with_plan plan (with_gateway p e))
                    (with_plan plan (with_gateway p e)) r₅ t (refl, refl, refl, refl)

  prepare_parts-Safe :
      (w : World Entries Command H) (job : Job) (e : Entry)
      → Ready w job e
      → e.transaction.state ≡ preparing
      → Safe (prepare_parts env job e w)
  unfolding prepare_parts
  prepare_parts-Safe w job e r s =
      either-Safe IsDue (str_eq e.gateway.id "") (prepare_gateway env job e) (node_part env job e) w
        (λ q. prepare_gateway-Safe w job e e r s s (refl, refl, refl, refl))
        (λ q. node_part-Safe w job e e r s (refl, refl, refl, refl))

  prepare_repeated-Safe :
      (w : World Entries Command H) (job : Job) (e : Entry) (hash : String)
      → Ready w job e
      → Safe (prepare_repeated env job e hash w)
  unfolding prepare_repeated
  prepare_repeated-Safe w job e hash r = goes_on _ _ w job e (guard-Quietly _ _ w) r λ u w₁ r₁ q₁.
      either-Safe IsDue (is_phase e.transaction.state preparing) (prepare_parts env job e) (pure e)
        w₁ (λ q. prepare_parts-Safe w₁ job e r₁ (is_phase-eq e.transaction.state preparing q))
        (λ q. r₁.ordered)

  begun-Safe :
      (w : World Entries Command H) (job : Job) (e : Entry) (x : Failure)
      → IsLoaded w job.entries
      → any_open job.entries ≡ false
      → e.transaction.state ≡ preparing
      → Safe ((store job e x >> prepare_parts env job e) w)
  unfolding store
  begun-Safe w job e x l free s =
      let change : Change (disk w.log) (with_entry job e) =
        Change.begins job.id e (rw l.same free) s (rw l.same refl) in
      saves IsDue w.log x (with_entry job e) (λ u. prepare_parts env job e) w l.ordered change refl
        (λ w' q.
          prepare_parts-Safe w' job e
            (record {
              ordered = rw q (change, l.ordered);
              at = rw q (record {
                entries = with_entry job e;
                on_disk = refl;
                is = find-put job.id e job.entries;
                others = λ y. put-put job.id y e job.entries;
              });
            })
            s)

  prepare_new-Safe :
      (w : World Entries Command H) (job : Job) (key hash : String) (p : Plan)
      → (g : Option GatewayPlan) → IsLoaded w job.entries
      → Safe (prepare_new env job key hash p g w)
  unfolding prepare_new look draw
  prepare_new-Safe w job key hash p g l =
      passes_on _ _ w job.entries (guard-Quietly _ _ w) l λ u w₁ l₁ q₁.
        passes_on _ _ w₁ job.entries (guard-Quietly _ _ w₁) l₁ λ u' w₂ l₂ q₂.
          passes_on _ _ w₂ job.entries (fresh-Quietly env _ _ w₂) l₂ λ peer w₃ l₃ q₃.
            passes_on _ _ w₃ job.entries (validate_coverage-Quietly env _ peer p g w₃) l₃
              λ plans w₄ l₄ q₄.
                passes_on (draw env) _ w₄ job.entries (record { same = refl; ordered = λ h. h }) l₄
                  λ drawn w₅ l₅ q₅.
                    passes_on _ _ w₅ job.entries (or_raise-Quietly drawn _ w₅) l₅ λ id w₆ l₆ q₆.
                      passes_on _ _ w₆ job.entries (still w₆) l₆ λ now w₇ l₇ q₇.
                        begun-Safe w₇ job (new_entry job.id key hash id now plans.0 plans.1) _ l₇
                          (ground (arith, guard-ok _ _ u w q₁)) refl

  prepare_for-Safe :
      (o : Option Entry) (w : World Entries Command H) (job : Job) (key hash : String) (p : Plan)
      → (g : Option GatewayPlan) → IsLoaded w job.entries
      → find job.id job.entries ≡ o
      → Safe (prepare_for env o job key hash p g w)
  prepare_for-Safe none w job key hash p g l f = prepare_new-Safe w job key hash p g l
  prepare_for-Safe (some e) w job key hash p g l f =
      either-Safe IsDue (str_eq e.key key) (prepare_repeated env job e hash)
        (prepare_new env job key hash p g) w
        (λ q. prepare_repeated-Safe w job e hash (Ready-found w job e l f))
        (λ q. prepare_new-Safe w job key hash p g l)

  pub prepare-Safe :
      (w : World Entries Command H) (job : Job) (key : String) (plan : Option Plan)
      → (g : Option GatewayPlan) → IsLoaded w job.entries
      → Safe (prepare env job key plan g w)
  unfolding prepare
  prepare-Safe w job key plan g l =
      passes_on _ _ w job.entries (or_raise-Quietly plan _ w) l λ p w₁ l₁ q₁.
        passes_on _ _ w₁ job.entries (guard-Quietly _ _ w₁) l₁ λ u w₂ l₂ q₂.
          prepare_for-Safe (find job.id job.entries) w₂ job key (env.digest p g) p g l₂ refl
