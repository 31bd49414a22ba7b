-- ===== src/Selection/Health/Policies.antt =====
-- What a state of health means, and how long a failure is remembered.
use route_harbor.Prelude.{
  ℕ, suc, ◌+◌, ◌≤◌, ◌≡◌, ◌≢◌, refl, ◌∙◌, true, false, List, [], ◌∷◌, String, arith, length, All,
  ◌⊎◌, ◌==◌, ◌++◌, Bool-cases, inl, inr, ap, subst,
}
use route_harbor.Prelude.Int.{pos, ltb_ℤ}
use route_harbor.Selection.{
  Floats, Policy, Measurement, Resource, healthy, Observation, Selector, time_sub, seconds,
}
use route_harbor.Selection.Health.{state_at}
use route_harbor.Selection.Cycles.{
  cycle, Tally, tally, tally_one, no_tally, reaches, count_missing, targets_of,
}
use route_harbor.Selection.Tables.{mem}

module _ {F : Type 0} (fl : Floats F) where
  -- Cycles of one source, the first one first.
  unfoldable pub cycles : Selector F → List (Measurement F) → Observation F → Observation F
  unfolding cycle
  cycles s [] o = o
  cycles s (m ∷ ms) o = cycles s ms (cycle fl s m o)

  -- What the guards of the state leave for a healthy source.
  record IsFresh (p : Policy F) (o : Observation F) (now : ℕ) : Type 0 where
    pub past : o.health.last_at ≤ now
    pub recent : ltb_ℤ (seconds p.stale_after_seconds) (time_sub now o.health.last_at) ≡ false
    pub partial : o.full_failure ≡ false
    pub unconfirmed : reaches fl o.health.consecutive_failures p.failure_confirmations ≡ false
    pub required : o.failed_required ≡ 0
    pub recovered : o.needs_recovery ≡ false

  healthy-IsFresh :
      (p : Policy F) (o : Observation F) (now : ℕ) → state_at fl p o now ≡ healthy → IsFresh p o now
  unfolding state_at
  healthy-IsFresh p o now h = record {
    past = ground arith;
    recent = ground arith;
    partial = ground arith;
    unconfirmed = ground arith;
    required = ground arith;
    recovered = ground arith;
  }

  cycle_lem :
      (s : Selector F) (m : Measurement F) (o : Observation F) (n : ℕ)
      → o.needs_recovery ≡ true
      → ltb_ℤ (pos (o.health.consecutive_successes + suc n)) s.policy.recovery_confirmations ≡ true
      → ((cycle fl s m o).needs_recovery ≡ true)
        × (ltb_ℤ
              (pos ((cycle fl s m o).health.consecutive_successes + n))
              s.policy.recovery_confirmations
            ≡ true)
  unfolding cycle
  cycle_lem s m o n h k = ground arith

  cycles_lem :
      (s : Selector F) (ms : List (Measurement F)) (o : Observation F)
      → o.needs_recovery ≡ true
      → ltb_ℤ (pos (o.health.consecutive_successes + length ms)) s.policy.recovery_confirmations
        ≡ true
      → (cycles s ms o).needs_recovery ≡ true
  unfolding cycles
  cycles_lem s [] o h k = h
  cycles_lem s (m ∷ ms) o h k = cycles_lem s ms (cycle fl s m o) c.0 c.1
    where
      c :
          ((cycle fl s m o).needs_recovery ≡ true)
          × (ltb_ℤ
                (pos ((cycle fl s m o).health.consecutive_successes + length ms))
                s.policy.recovery_confirmations
              ≡ true)
      c = cycle_lem s m o (length ms) h k

  tally_failed :
      (required : List String) (rs : List (Resource F)) (t : Tally fl)
      → All (λ r. r.success ≡ false) rs
      → (tally fl required rs t).succeeded ≡ t.succeeded
  unfolding tally
  tally_failed required [] t h = refl
  tally_failed required (r ∷ rs) t h =
      tally_failed required rs (tally_one fl required r t) h.1 ∙ ground (arith, h.0)

  cycle_failed :
      (s : Selector F) (m : Measurement F) (o : Observation F)
      → All (λ r. r.success ≡ false) m.resources
      → ((cycle fl s m o).needs_recovery ≡ true)
        × ((cycle fl s m o).health.consecutive_successes ≡ 0)
  unfolding cycle
  cycle_failed s m o h = ground (arith, tally_failed s.required m.resources (no_tally fl) h)

  -- After a cycle in which every resource failed, and then any cycles, fewer than the policy asks for
  -- a recovery, the source is not healthy at any time, whatever those cycles report.
  pub cycles_after_failure :
      (s : Selector F) (m : Measurement F) (ms : List (Measurement F)) (o : Observation F) (now : ℕ)
      → All (λ r. r.success ≡ false) m.resources
      → ltb_ℤ (pos (length ms)) s.policy.recovery_confirmations ≡ true
      → state_at fl s.policy (cycles s (m ∷ ms) o) now ≢ healthy
  unfolding cycles
  cycles_after_failure s m ms o now f k h = ground (
    arith,
    (healthy-IsFresh s.policy (cycles s (m ∷ ms) o) now h).recovered,
    cycles_lem s ms (cycle fl s m o) c.0 (ground (arith, c.1, k)),
  )
    where
      c :
          ((cycle fl s m o).needs_recovery ≡ true)
          × ((cycle fl s m o).health.consecutive_successes ≡ 0)
      c = cycle_failed s m o f

  -- The cycle has a resource that passed.
  pub record HasPassed (rs : List (Resource F)) : Type 0 where
    pub before : List (Resource F)
    pub resource : Resource F
    pub after : List (Resource F)
    pub split : rs ≡ before ++ (resource ∷ after)
    pub passed : resource.success ≡ true

  passed_or_none :
      (rs : List (Resource F)) → HasPassed rs ⊎ All (λ (r : Resource F). r.success ≡ false) rs
  passed_or_none [] = inr tt
  passed_or_none (r ∷ rs) = elim (Bool-cases r.success) [
    | inl q ↦ inl (record { before = []; resource = r; after = rs; split = refl; passed = q })
    | inr q ↦ elim (passed_or_none rs) [
      | inl h ↦ inl (record {
        before = r ∷ h.before;
        resource = h.resource;
        after = h.after;
        split = ap (λ xs. r ∷ xs) h.split;
        passed = h.passed;
      })
      | inr h ↦ inr (q, h)
    ]
  ]

  -- Passed, or required neither by itself nor by the targets.
  abbrev pub IsFine : List String → Resource F → Type 0
  IsFine required r =
      (r.success ≡ true) ⊎ ((r.required ≡ false) × (mem r.target_id required ≡ false))

  tally_one-IsFine :
      (required : List String) (r : Resource F) (t : Tally fl)
      → (tally_one fl required r t).failed ≡ 0
      → (t.failed ≡ 0) × IsFine required r
  tally_one-IsFine required r t h = ground (arith, h)

  tally-IsFine :
      (required : List String) (rs : List (Resource F)) (t : Tally fl)
      → (tally fl required rs t).failed ≡ 0
      → (t.failed ≡ 0) × All (IsFine required) rs
  unfolding tally
  tally-IsFine required [] t h = (h, tt)
  tally-IsFine required (r ∷ rs) t h =
      let rest = tally-IsFine required rs (tally_one fl required r t) h in
      let here = tally_one-IsFine required r t rest.0 in (here.0, (here.1, rest.1))

  none_missing :
      (ids seen : List String) → count_missing fl ids seen ≡ 0 → All (λ id. mem id seen ≡ true) ids
  none_missing [] seen h = tt
  none_missing (id ∷ ids) seen h = elim (Bool-cases (mem id seen)) [
    | inl q ↦ (q, none_missing ids seen (ground (arith, h, q)))
    | inr q ↦ absurd (ground (arith, h, q))
  ]

  cycle_counts :
      (s : Selector F) (m : Measurement F) (o : Observation F)
      → ((cycle fl s m o).failed_required
          ≡ (tally fl s.required m.resources (no_tally fl)).failed
            + count_missing fl s.required (targets_of fl m.resources))
        × ((cycle fl s m o).full_failure
            ≡ ((tally fl s.required m.resources (no_tally fl)).succeeded == 0))
        × ((cycle fl s m o).health.last_at ≡ m.at)
  unfolding cycle
  cycle_counts s m o = ground arith

  -- When the last cycle of a source leaves it healthy at some time, that cycle is not later than the time,
  -- some resource passed in it, every resource that did not is required neither by itself nor by
  -- the targets, and it names every required target.
  pub cycle_healthy :
      (s : Selector F) (m : Measurement F) (o : Observation F) (now : ℕ)
      → state_at fl s.policy (cycle fl s m o) now ≡ healthy
      → (m.at ≤ now)
        × HasPassed m.resources
        × All (IsFine s.required) m.resources
        × All (λ id. mem id (targets_of fl m.resources) ≡ true) s.required
  cycle_healthy s m o now h = (
    subst (λ t. t ≤ now) c.2 f.past,
    elim (passed_or_none m.resources) [
      | inl p ↦ p
      | inr p ↦
          absurd
            (ground (arith, f.partial, c.1, tally_failed s.required m.resources (no_tally fl) p))
    ],
    (tally-IsFine s.required m.resources (no_tally fl) (ground (arith, f.required, c.0))).1,
    none_missing s.required (targets_of fl m.resources) (ground (arith, f.required, c.0)),
  )
    where
      f : IsFresh s.policy (cycle fl s m o) now
      f = healthy-IsFresh s.policy (cycle fl s m o) now h

      c :
          ((cycle fl s m o).failed_required
            ≡ (tally fl s.required m.resources (no_tally fl)).failed
              + count_missing fl s.required (targets_of fl m.resources))
          × ((cycle fl s m o).full_failure
              ≡ ((tally fl s.required m.resources (no_tally fl)).succeeded == 0))
          × ((cycle fl s m o).health.last_at ≡ m.at)
      c = cycle_counts s m o
