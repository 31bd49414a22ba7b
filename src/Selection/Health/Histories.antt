-- ===== src/Selection/Health/Histories.antt =====
-- The operations of the selector in any order, the bound on what it remembers, and repeated cycles.
use route_harbor.Prelude.{
  ℕ, ◌-◌, ◌≤◌, sym, subst, inl, inr, Bool, List, [], ◌∷◌, ◌++◌, String, arith, length, length-drop,
  All, Option-cases,
}
use route_harbor.Prelude.Int.{ℤ}
use route_harbor.Selection.{Floats, Policy, Source, Target, Measurement, Observation, Selector, new}
use route_harbor.Selection.Tables.{lookup, put, has, keep, map_values}
use route_harbor.Selection.Health.{observe}
use route_harbor.Selection.Cycles.{cycle, unseen}
use route_harbor.Selection.Settings.{
  trim, trim_history, clamp_limit, set_history_limit, set_targets, configure,
}
use route_harbor.Selection.Choice.{evaluate, available, prune}
use route_harbor.Selection.Choice.Kept.{IsKept, evaluate-IsKept}

module _ {F : Type 0} (fl : Floats F) (marshal : List Target → String) where
  -- The selectors that `New` and any calls of the methods lead to.
  pub data Reach : Selector F → Type 0 where
    started : (p : Policy F) → Reach (new fl p)
    configured : (p : Policy F) (s : Selector F) → Reach s → Reach (configure fl p s)
    targeted : (ts : List Target) (s : Selector F) → Reach s → Reach (set_targets marshal ts s)
    limited : (n : ℤ) (s : Selector F) → Reach s → Reach (set_history_limit n s)
    observed : (m : Measurement F) (s : Selector F) → Reach s → Reach (observe fl s m)
    evaluated :
        (ss : List Source) (now : ℕ) (s : Selector F) → Reach s → Reach (evaluate fl ss s now).0

  abbrev Short : ℕ → List (String × Observation F) → Type 0
  Short n kvs = All (λ kv. length kv.1.history ≤ n) kvs

  pub record IsBounded (s : Selector F) : Type 0 where
    pub least : 1 ≤ s.history_limit
    pub most : s.history_limit ≤ 256
    pub short : Short s.history_limit s.sources

  length-trim : (n : ℕ) (ms : List (Measurement F)) → length (trim n ms) ≤ n
  length-trim n ms = ground (arith, length-drop (length ms - n) ms)

  Short-map_values :
      (n : ℕ) (kvs : List (String × Observation F)) → Short n (map_values (trim_history n) kvs)
  Short-map_values n [] = tt
  Short-map_values n (kv ∷ kvs) = (length-trim n kv.1.history, Short-map_values n kvs)

  Short-put :
      (n : ℕ) (id : String) (o : Observation F) (kvs : List (String × Observation F))
      → length o.history ≤ n
      → Short n kvs
      → Short n (put id o kvs)
  Short-put n id o [] h k = (h, tt)
  Short-put n id o (kv ∷ kvs) h k = ground (arith, Short-put n id o kvs h k.1, h, k)

  Short-keep :
      (n : ℕ) (p : String → Bool) (kvs : List (String × Observation F))
      → Short n kvs
      → Short n (keep p kvs)
  Short-keep n p [] k = tt
  Short-keep n p (kv ∷ kvs) k = ground (arith, Short-keep n p kvs k.1, k)

  clamp_limit_lem : (n : ℤ) → (1 ≤ clamp_limit n) × (clamp_limit n ≤ 256)
  clamp_limit_lem n = ground arith

  cycle-short :
      (s : Selector F) (m : Measurement F) (o : Observation F)
      → length (cycle fl s m o).history ≤ s.history_limit
  unfolding cycle
  cycle-short s m o = ground (arith, length-trim s.history_limit (o.history ++ (m ∷ [])))

  observe-IsBounded :
      (m : Measurement F) (s : Selector F) → IsBounded s → IsBounded (observe fl s m)
  unfolding observe
  observe-IsBounded m s b = record {
    least = ground (arith, b.least);
    most = ground (arith, b.most);
    short = elim (Option-cases (lookup m.source_id s.sources)) [
      | inl e ↦ ground (
        arith,
        e,
        b.short,
        Short-put s.history_limit m.source_id (cycle fl s m (unseen fl m.source_id)) s.sources
            (cycle-short s m (unseen fl m.source_id)) b.short,
      )
      | inr (o, e) ↦ ground (
        arith,
        e,
        b.short,
        Short-put s.history_limit m.source_id (cycle fl s m o) s.sources (cycle-short s m o)
            b.short,
      )
    ];
  }

  IsBounded-kept : (s t : Selector F) → IsBounded s → IsKept fl s t → IsBounded t
  unfolding IsKept
  IsBounded-kept s t b k = record {
    least = ground (arith, b.least, k);
    most = ground (arith, b.most, k);
    short =
        subst (λ n. Short n t.sources) (sym k.1) (subst (Short s.history_limit) (sym k.0) b.short);
  }

  prune-IsBounded :
      (table : List (String × Source)) (s : Selector F) → IsBounded s → IsBounded (prune fl table s)
  prune-IsBounded table s b = record {
    least = b.least;
    most = b.most;
    short = Short-keep s.history_limit (λ id. has id table) s.sources b.short;
  }

  evaluate-IsBounded :
      (ss : List Source) (now : ℕ) (s : Selector F)
      → IsBounded s
      → IsBounded (evaluate fl ss s now).0
  evaluate-IsBounded ss now s b = elim (evaluate-IsKept fl ss s now) [
    | inl k ↦ IsBounded-kept s _ b k
    | inr k ↦ IsBounded-kept (prune fl (available ss) s) _ (prune-IsBounded (available ss) s b) k
  ]

  set_targets-IsBounded :
      (ts : List Target) (s : Selector F) → IsBounded s → IsBounded (set_targets marshal ts s)
  unfolding set_targets
  set_targets-IsBounded ts s b = record {
    least = ground (arith, b.least);
    most = ground (arith, b.most);
    short = ground (arith, b.short);
  }

  -- From `New`, after any calls of the methods in any order, the selector keeps at most `history_limit` cycles of each source, and that
  -- limit stays between 1 and 256.
  pub Reach-IsBounded : (s : Selector F) → Reach s → IsBounded s
  unfolding configure set_history_limit
  Reach-IsBounded _ (started p) = record { least = omega arith; most = omega arith; short = tt }
  Reach-IsBounded _ (configured p s r) =
      let b = Reach-IsBounded s r in record { least = b.least; most = b.most; short = b.short }
  Reach-IsBounded _ (targeted ts s r) = set_targets-IsBounded ts s (Reach-IsBounded s r)
  Reach-IsBounded _ (limited n s r) = record {
    least = (clamp_limit_lem n).0;
    most = (clamp_limit_lem n).1;
    short = Short-map_values (clamp_limit n) s.sources;
  }
  Reach-IsBounded _ (observed m s r) = observe-IsBounded m s (Reach-IsBounded s r)
  Reach-IsBounded _ (evaluated ss now s r) = evaluate-IsBounded ss now s (Reach-IsBounded s r)
