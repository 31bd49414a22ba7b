-- ===== src/Selection/Choice/Evidence.antt =====
-- The evidence for what `Evaluate` selects.
use route_harbor.Prelude.{
  ℕ, ◌≡◌, ap, ◌∙◌, ◌⊎◌, inl, inr, true, List, [], ◌∷◌, none, some, String, arith, Option-cases,
}
use route_harbor.Selection.{
  Floats, Source, HealthState, unset, healthy, degraded, Observation, Selector,
}
use route_harbor.Selection.Tables.{lookup, has, map_option, lookup-map_values, lookup-keep}
use route_harbor.Selection.Health.{health_at, state_at}
use route_harbor.Selection.Choice.{
  available, is_healthy, is_degraded, prune, view_of, health_of, passes, usable, or_no_health,
  is_enabled,
}

module _ {F : Type 0} (fl : Floats F) where
  -- The name is of a source that is configured and enabled, and its measurements make it healthy at
  -- this moment; the source that is selected already may also be degraded.
  pub record IsVerified (ss : List Source) (s : Selector F) (now : ℕ) (id : String) : Type 0 where
    pub source : Source
    pub observation : Observation F
    pub configured : lookup id (available ss) ≡ some source
    pub enabled : source.enabled ≡ true
    pub observed : lookup id s.sources ≡ some observation
    pub state :
        (state_at fl s.policy observation now ≡ healthy)
        ⊎ ((id ≡ s.selected) × (state_at fl s.policy observation now ≡ degraded))

  lookup-has :
      (id : String) (kvs : List (String × Source)) (x : Source)
      → lookup id kvs ≡ some x
      → has id kvs ≡ true
  lookup-has id [] x h = ground arith
  lookup-has id (kv ∷ kvs) x h = ground (arith, lookup-has id kvs x)

  -- The health that `Evaluate` sees is that of the observation.
  health_of-view_of :
      (ss : List Source) (s : Selector F) (now : ℕ) (id : String) (x : Source)
      → lookup id (available ss) ≡ some x
      → health_of fl (view_of fl ss s now) id
        ≡ or_no_health fl (map_option (λ o. health_at fl s.policy o now) (lookup id s.sources))
  unfolding view_of
  health_of-view_of ss s now id x h = ap (or_no_health fl) (
      lookup-map_values (λ o. health_at fl s.policy o now) id (prune fl (available ss) s).sources
      ∙ ap (map_option (λ o. health_at fl s.policy o now))
          (lookup-keep (λ i. has i (available ss)) id s.sources (lookup-has id (available ss) x h)))

  is_healthy_lem : (h : HealthState) → is_healthy h ≡ true → h ≡ healthy
  is_healthy_lem h e = ground arith

  is_degraded_lem : (h : HealthState) → is_degraded h ≡ true → h ≡ degraded
  is_degraded_lem h e = ground arith

  -- The state that `Evaluate` sees for a name, when the source and the observation are there.
  state_of : List Source → Selector F → ℕ → String → HealthState
  state_of ss s now id = (health_of fl (view_of fl ss s now) id).state

  state_of-observed :
      (ss : List Source) (s : Selector F) (now : ℕ) (id : String) (x : Source) (o : Observation F)
      → lookup id (available ss) ≡ some x
      → lookup id s.sources ≡ some o
      → state_of ss s now id ≡ state_at fl s.policy o now
  unfolding state_of health_at
  state_of-observed ss s now id x o h k =
      ap (λ g. g.state) (health_of-view_of ss s now id x h)
      ∙ ap (λ r. (or_no_health fl (map_option (λ p. health_at fl s.policy p now) r)).state) k

  state_of-unobserved :
      (ss : List Source) (s : Selector F) (now : ℕ) (id : String) (x : Source)
      → lookup id (available ss) ≡ some x
      → lookup id s.sources ≡ none
      → state_of ss s now id ≡ unset
  unfolding state_of
  state_of-unobserved ss s now id x h k =
      ap (λ g. g.state) (health_of-view_of ss s now id x h)
      ∙ ap (λ r. (or_no_health fl (map_option (λ p. health_at fl s.policy p now) r)).state) k

  -- An enabled source with a state that a check of the state tells from the state of no measurement.
  verified :
      (ss : List Source) (s : Selector F) (now : ℕ) (id : String)
      → is_enabled fl (lookup id (available ss)) ≡ true
      → (state_of ss s now id ≡ healthy) ⊎ ((id ≡ s.selected) × (state_of ss s now id ≡ degraded))
      → IsVerified ss s now id
  verified ss s now id e h = elim (Option-cases (lookup id (available ss))) [
    | inl n ↦ ground arith
    | inr (x, n) ↦ elim (Option-cases (lookup id s.sources)) [
      | inl k ↦ ground (arith, state_of-unobserved ss s now id x n k)
      | inr (o, k) ↦ record {
        source = x;
        observation = o;
        configured = n;
        enabled = ground arith;
        observed = k;
        state = ground (arith, state_of-observed ss s now id x o n k);
      }
    ]
  ]

  pub passes-IsVerified :
      (ss : List Source) (s : Selector F) (now : ℕ) (id : String)
      → passes fl (view_of fl ss s now) id ≡ true
      → IsVerified ss s now id
  unfolding view_of state_of
  passes-IsVerified ss s now id h =
      verified ss s now id (ground arith) (ground (arith, is_healthy_lem (state_of ss s now id)))

  pub usable-IsVerified :
      (ss : List Source) (s : Selector F) (now : ℕ)
      → usable fl (view_of fl ss s now) s.selected ≡ true
      → IsVerified ss s now s.selected
  unfolding view_of state_of
  usable-IsVerified ss s now h = verified ss s now s.selected (ground arith) (
      ground (
        arith,
        is_healthy_lem (state_of ss s now s.selected),
        is_degraded_lem (state_of ss s now s.selected),
      ))
