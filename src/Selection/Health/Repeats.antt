-- ===== src/Selection/Health/Repeats.antt =====
-- Cycles that are repeated or arrive out of order.
use text.Mathlib.TextPositions.{eq_refl}
use route_harbor.Prelude.{
  ◌≤◌, ◌≡◌, ap, ◌∙◌, inl, inr, true, List, [], ◌∷◌, some, String, arith, ltb, Option-cases,
  Bool-cases,
}
use route_harbor.Selection.{Floats, Measurement, Observation, Selector}
use route_harbor.Selection.Tables.{lookup, put}
use route_harbor.Selection.Health.{observe, with_source}
use route_harbor.Selection.Cycles.{acceptable, cycle, unseen}

module _ {F : Type 0} (fl : Floats F) where
  lookup-put :
      (id : String) (o : Observation F) (kvs : List (String × Observation F))
      → lookup id (put id o kvs) ≡ some o
  lookup-put id o [] = ground (arith, eq_refl id)
  lookup-put id o (kv ∷ kvs) = ground (arith, eq_refl id, lookup-put id o kvs)

  cycle-last_at :
      (s : Selector F) (m : Measurement F) (o : Observation F)
      → (cycle fl s m o).health.last_at ≡ m.at
  unfolding cycle
  cycle-last_at s m o = ground arith

  observe_old :
      (s : Selector F) (m : Measurement F) (o : Observation F)
      → lookup m.source_id s.sources ≡ some o
      → m.at ≤ o.health.last_at
      → observe fl s m ≡ s
  unfolding observe
  observe_old s m o e h = ground (arith, e, h)

  observe_put :
      (s : Selector F) (m : Measurement F) (o : Observation F)
      → observe fl s m ≡ with_source fl s m.source_id (cycle fl s m o)
      → (p : Observation F) × (lookup m.source_id (observe fl s m).sources ≡ some p)
        × (m.at ≤ p.health.last_at)
  observe_put s m o e = (
    cycle fl s m o,
    ap (λ t. lookup m.source_id t.sources) e ∙ lookup-put m.source_id (cycle fl s m o) s.sources,
    omega (arith, cycle-last_at s m o),
  )

  observe_latest :
      (s : Selector F) (m : Measurement F)
      → acceptable fl m ≡ true
      → (o : Observation F) × (lookup m.source_id (observe fl s m).sources ≡ some o)
        × (m.at ≤ o.health.last_at)
  unfolding observe
  observe_latest s m a = elim (Option-cases (lookup m.source_id s.sources)) [
    | inl e ↦ observe_put s m (unseen fl m.source_id) (ground (arith, a, e))
    | inr (o, e) ↦ elim (Bool-cases (ltb o.health.last_at m.at)) [
      | inl b ↦ observe_put s m o (ground (arith, a, e, b))
      | inr b ↦ (o, ground (arith, a, e, b), ground (arith, b))
    ]
  ]

  -- After `Observe` of a cycle that passes its checks, a cycle of the same source that is not newer
  -- changes nothing.
  pub observe_twice :
      (s : Selector F) (m n : Measurement F)
      → acceptable fl m ≡ true
      → n.source_id ≡ m.source_id
      → n.at ≤ m.at
      → observe fl (observe fl s m) n ≡ observe fl s m
  observe_twice s m n a e h =
      observe_old (observe fl s m) n o.0 (ap (λ id. lookup id (observe fl s m).sources) e ∙ o.1)
        (omega (arith, h, o.2))
    where
      o :
          (o : Observation F) × (lookup m.source_id (observe fl s m).sources ≡ some o)
          × (m.at ≤ o.health.last_at)
      o = observe_latest s m a
