-- ===== src/Selection/Choice/Streaks.antt =====
-- The confirmations of a candidate in selector.go, against the calls of `Evaluate` that gave them.
use text.Mathlib.Text.{◌==◌ as str_eq}
use text.Mathlib.TextEquality.{eq_iff}
use route_harbor.Prelude.{
  ℕ, ◌+◌, ◌<◌, ◌≡◌, ◌≢◌, ◌⊎◌, refl, sym, ap, subst, ◌∙◌, Bool, true, false, not, ◌&&◌, ◌||◌, List,
  [], ◌∷◌, String, arith, Bool-cases, inl, inr, length, ltb, if◌then◌else◌,
}
use route_harbor.Prelude.Int.{ℤ, pos, ltb_ℤ}
use route_harbor.Selection.{
  Floats, Policy, Target, Measurement, Source, Selector, Reason, new, time_sub, seconds,
  clear_candidate, disabled, pinned_passed, pinned_failed, none_eligible, initial_source,
  replacement, Decision, unconfirmed, dwelling, cooling, sustained, failure_unconfirmed,
  no_superior, direct_passed, direct_unverified, fallback_closed,
}
use route_harbor.Selection.Settings.{configure, set_targets, set_history_limit}
use route_harbor.Selection.Health.{observe}
use route_harbor.Selection.Choice.{
  available, View, prune, view_of, health_of, usable, auto_ids, direct_ids, best_of, better, decide,
  fall_to, fall_back, manual, first_choice, stay, confirm_candidate, challenge, automatic, evaluate,
}
use route_harbor.Selection.Choice.Switches.{evaluate_lem, evaluate_auto, stay_lem}

-- One call of `Evaluate`: the best candidate, the time of its last measurement, whether a selected
-- source was usable in the mode "auto", and whether the candidate was another one and better by
-- the configured margin.
pub record Round : Type 0 where
  pub best : String
  pub at : ℕ
  pub in_use : Bool
  pub superior : Bool

abbrev pub IsNewer : ℕ → List ℕ → Type 0
IsNewer n [] = Unit {0}
IsNewer n (t ∷ ts) = t < n

-- Rounds, the newest first, since the oldest of `times`, which rise strictly: in each of them in
-- which a selected source was usable, `id` was the superior candidate, and each of the times is
-- that of its measurement in one of them.
pub data Streak (id : String) : List ℕ → List Round → Type 0 where
  begins : (rs : List Round) → Streak id [] rs
  counts :
      (r : Round) (ts : List ℕ) (rs : List Round)
      → r.best ≡ id
      → r.superior ≡ true
      → IsNewer r.at ts
      → Streak id ts rs
      → Streak id (r.at ∷ ts) (r ∷ rs)
  repeats :
      (r : Round) (ts : List ℕ) (rs : List Round)
      → r.best ≡ id
      → r.superior ≡ true
      → Streak id ts rs
      → Streak id ts (r ∷ rs)
  passes_by :
      (r : Round) (ts : List ℕ) (rs : List Round)
      → r.in_use ≡ false
      → Streak id ts rs
      → Streak id ts (r ∷ rs)

module _ {F : Type 0} (fl : Floats F) where
  abbrev in_auto : Selector F → Bool
  in_auto s = not (str_eq s.policy.mode "off") && not (str_eq s.policy.mode "manual")

  unfoldable pub is_superior : View fl → Selector F → String → Bool
  is_superior v s best =
      not (str_eq best "" || str_eq best s.selected)
      && better fl (health_of fl v best) (health_of fl v s.selected) s.policy.improvement_percent

  abbrev pub round_of : List Source → Selector F → ℕ → Round
  round_of ss s now =
      let v = view_of fl ss s now in
      let best = best_of fl v (auto_ids fl v) "" in
      record {
        best = best;
        at = (health_of fl v best).last_at;
        in_use = in_auto s && usable fl v s.selected;
        superior = is_superior v s best;
      }

  -- The selectors that `New` and any calls of the methods lead to, with the calls of `Evaluate`.
  pub data Run (marshal : List Target → String) : Selector F → List Round → Type 0 where
    started : (p : Policy F) → Run marshal (new fl p) []
    configured :
        {s : Selector F} {rs : List Round} (p : Policy F)
        → Run marshal s rs
        → Run marshal (configure fl p s) rs
    targeted :
        {s : Selector F} {rs : List Round} (ts : List Target)
        → Run marshal s rs
        → Run marshal (set_targets marshal ts s) rs
    limited :
        {s : Selector F} {rs : List Round} (n : ℤ)
        → Run marshal s rs
        → Run marshal (set_history_limit n s) rs
    observed :
        {s : Selector F} {rs : List Round} (m : Measurement F)
        → Run marshal s rs
        → Run marshal (observe fl s m) rs
    evaluated :
        {s : Selector F} {rs : List Round} (ss : List Source) (now : ℕ)
        → Run marshal s rs
        → Run marshal (evaluate fl ss s now).0 (round_of ss s now ∷ rs)

  abbrev IsLast : List ℕ → ℕ → Type 0
  IsLast [] n = Unit {0}
  IsLast (t ∷ ts) n = t ≡ n

  -- The confirmations that are counted stand for a streak.
  record IsBacked (s : Selector F) (rs : List Round) : Type 0 where
    times : List ℕ
    streak : Streak s.candidate times rs
    count : length times ≡ s.confirmations
    last : IsLast times s.candidate_at

  cleared : (s : Selector F) (rs : List Round) → s.confirmations ≡ 0 → IsBacked s rs
  cleared s rs e = record { times = []; streak = Streak.begins rs; count = sym e; last = tt }

  same_candidate :
      (s t : Selector F) (rs : List Round)
      → t.candidate ≡ s.candidate
      → t.confirmations ≡ s.confirmations
      → t.candidate_at ≡ s.candidate_at
      → IsBacked s rs
      → IsBacked t rs
  same_candidate s t rs c n a b = record {
    times = b.times;
    streak = rw c b.streak;
    count = b.count ∙ sym n;
    last = rw a b.last;
  }

  -- The candidate stands as it was, or no confirmations are left.
  unfoldable IsCarried : Selector F → Selector F → Type 0
  IsCarried s t =
      ((t.candidate ≡ s.candidate)
        × (t.confirmations ≡ s.confirmations)
        × (t.candidate_at ≡ s.candidate_at))
      ⊎ (t.confirmations ≡ 0)

  carried : (s t : Selector F) (rs : List Round) → IsCarried s t → IsBacked s rs → IsBacked t rs
  unfolding IsCarried
  carried s t rs c b = elim c [
    | inl e ↦ same_candidate s t rs e.0 e.1 e.2 b
    | inr e ↦ cleared t rs e
  ]

  decide-IsCarried :
      (s : Selector F) (now : ℕ) (id state : String) (reason : Reason)
      → IsCarried s (decide fl s now id state reason).0
  unfolding decide IsCarried
  decide-IsCarried s now id state reason = elim (Bool-cases (str_eq id s.selected)) [
    | inl q ↦ rw q (inl (refl, refl, refl))
    | inr q ↦ rw q (inr refl)
  ]

  fall_to-IsCarried :
      (ids : List String) (s : Selector F) (now : ℕ) (reason : Reason)
      → IsCarried s (fall_to fl ids s now reason).0
  unfolding fall_to decide
  fall_to-IsCarried [] s now reason =
      decide-IsCarried s now "" "unavailable" (direct_unverified reason)
  fall_to-IsCarried (id ∷ ids) s now reason =
      decide-IsCarried s now id "fallback" (direct_passed reason)

  fall_back-IsCarried :
      (v : View fl) (s : Selector F) (now : ℕ) (reason : Reason)
      → IsCarried s (fall_back fl v s now reason).0
  unfolding fall_back IsCarried
  fall_back-IsCarried v s now reason = ground (
    arith,
    fall_to-IsCarried (direct_ids fl v) s now reason,
    decide-IsCarried s now "" "unavailable" (fallback_closed reason),
  )

  manual-IsCarried : (v : View fl) (s : Selector F) (now : ℕ) → IsCarried s (manual fl v s now).0
  unfolding manual IsCarried
  manual-IsCarried v s now = ground (
    arith,
    fall_back-IsCarried v s now pinned_failed,
    decide-IsCarried s now s.policy.pinned "manual" pinned_passed,
  )

  first_choice-IsCarried :
      (v : View fl) (s : Selector F) (now : ℕ) (best : String)
      → IsCarried s (first_choice fl v s now best).0
  unfolding first_choice IsCarried
  first_choice-IsCarried v s now best = ground (
    arith,
    fall_back-IsCarried v s now none_eligible,
    decide-IsCarried s now best "selected" initial_source,
    decide-IsCarried s now best "selected" replacement,
  )

  stay-IsCarried :
      (v : View fl) (s : Selector F) (now : ℕ) → IsCarried (clear_candidate s) (stay fl v s now).0
  unfolding stay IsCarried
  stay-IsCarried v s now = ground (
    arith,
    decide-IsCarried (clear_candidate s) now s.selected "degraded" failure_unconfirmed,
    decide-IsCarried (clear_candidate s) now s.selected "selected" no_superior,
  )

  challenge-IsCarried :
      (t : Selector F) (now : ℕ) (best : String) → IsCarried t (challenge fl t now best).0
  unfolding challenge IsCarried
  challenge-IsCarried t now best = ground (
    arith,
    decide-IsCarried t now t.selected "selected" unconfirmed,
    decide-IsCarried t now t.selected "selected" dwelling,
    decide-IsCarried t now t.selected "selected" cooling,
    decide-IsCarried t now best "selected" sustained,
  )

  confirm_candidate-candidate :
      (v : View fl) (s : Selector F) (best : String)
      → (confirm_candidate fl v s best).candidate ≡ best
  unfolding confirm_candidate
  confirm_candidate-candidate v s best = elim (Bool-cases (str_eq s.candidate best)) [
    | inl q ↦ ground (arith, q, (eq_iff s.candidate best).0 q)
    | inr q ↦ ground (arith, q)
  ]

  IsNewer-than : (ts : List ℕ) (last at : ℕ) → IsLast ts last → ltb last at ≡ true → IsNewer at ts
  IsNewer-than [] last at e h = tt
  IsNewer-than (t ∷ ts) last at e h = ground (arith, e, h)

  -- One more confirmation when the measurement is newer, over a streak for this candidate.
  confirmed-IsBacked :
      (b s : Selector F) (r : Round) (rs : List Round)
      → IsBacked b rs
      → r.best ≡ b.candidate
      → r.superior ≡ true
      → s ≡ (
          if ltb b.candidate_at r.at
          then record b { confirmations = b.confirmations + 1; candidate_at = r.at }
          else b)
      → IsBacked s (r ∷ rs)
  confirmed-IsBacked b s r rs k e u q = elim (Bool-cases (ltb b.candidate_at r.at)) [
    | inl h ↦
        let at : s ≡ record b { confirmations = b.confirmations + 1; candidate_at = r.at } =
          q ∙ rw h refl in
        subst (λ x. IsBacked x (r ∷ rs)) (sym at)
          (record {
            times = r.at ∷ k.times;
            streak =
                Streak.counts r k.times rs e u (IsNewer-than k.times b.candidate_at r.at k.last h)
                  k.streak;
            count = ground (arith, k.count);
            last = refl;
          })
    | inr h ↦
        let at : s ≡ b = q ∙ rw h refl in
        subst (λ x. IsBacked x (r ∷ rs)) (sym at)
          (record {
            times = k.times;
            streak = Streak.repeats r k.times rs e u k.streak;
            count = k.count;
            last = k.last;
          })
  ]

  confirm_candidate-IsBacked :
      (v : View fl) (s : Selector F) (best : String) (r : Round) (rs : List Round)
      → IsBacked s rs
      → r.best ≡ best
      → r.at ≡ (health_of fl v best).last_at
      → r.superior ≡ true
      → IsBacked (confirm_candidate fl v s best) (r ∷ rs)
  unfolding confirm_candidate
  confirm_candidate-IsBacked v s best r rs b e at u = elim (Bool-cases (str_eq s.candidate best)) [
    | inl q ↦
        confirmed-IsBacked s _ r rs b (e ∙ sym ((eq_iff s.candidate best).0 q)) u (rw (q, at) refl)
    | inr q ↦
        let base = record (clear_candidate s) { candidate = best } in
        confirmed-IsBacked base _ r rs (cleared base rs refl) e u (rw (q, at) refl)
  ]

  unused-IsBacked :
      (s : Selector F) (r : Round) (rs : List Round)
      → r.in_use ≡ false
      → IsBacked s rs
      → IsBacked s (r ∷ rs)
  unused-IsBacked s r rs q b = record {
    times = b.times;
    streak = Streak.passes_by r b.times rs q b.streak;
    count = b.count;
    last = b.last;
  }

  automatic-IsBacked :
      (v : View fl) (s : Selector F) (now : ℕ) (best : String) (r : Round) (rs : List Round)
      → IsBacked s rs
      → r.best ≡ best
      → r.at ≡ (health_of fl v best).last_at
      → r.superior ≡ is_superior v s best
      → r.in_use ≡ usable fl v s.selected
      → IsBacked (automatic fl v s now best).0 (r ∷ rs)
  unfolding automatic is_superior
  automatic-IsBacked v s now best r rs b e at u in_use =
      elim (Bool-cases (usable fl v s.selected)) [
        | inr n ↦ rw n (
            carried s _ (r ∷ rs) (first_choice-IsCarried v s now best)
              (unused-IsBacked s r rs (in_use ∙ n) b))
        | inl y ↦ elim (Bool-cases (is_superior v s best)) [
          | inl c ↦
              let same : automatic fl v s now best
                  ≡ challenge fl (confirm_candidate fl v s best) now best =
                ground (arith, y, c) in
              rw same (
                carried (confirm_candidate fl v s best) _ (r ∷ rs) (challenge-IsCarried _ now best)
                  (confirm_candidate-IsBacked v s best r rs b e at (u ∙ c)))
          | inr c ↦
              let same : automatic fl v s now best ≡ stay fl v s now = ground (arith, y, c) in
              rw same (
                carried (clear_candidate s) _ (r ∷ rs) (stay-IsCarried v s now)
                  (cleared (clear_candidate s) (r ∷ rs) refl))
        ]
      ]

  automatic-superior :
      (v : View fl) (s : Selector F) (now : ℕ) (best : String)
      → usable fl v s.selected ≡ true
      → (automatic fl v s now best).1.selected ≢ s.selected
      → is_superior v s best ≡ true
  unfolding automatic is_superior
  automatic-superior v s now best y ne = elim (Bool-cases (is_superior v s best)) [
    | inl c ↦ c
    | inr c ↦
        let same : automatic fl v s now best ≡ stay fl v s now = ground (arith, y, c) in
        absurd (ne (ap (λ x. x.1.selected) same ∙ stay_lem fl v s now))
  ]

  evaluate-IsBacked :
      (ss : List Source) (s : Selector F) (now : ℕ) (rs : List Round)
      → IsBacked s rs
      → IsBacked (evaluate fl ss s now).0 (round_of ss s now ∷ rs)
  unfolding evaluate is_superior
  evaluate-IsBacked ss s now rs b = elim (Bool-cases (str_eq s.policy.mode "off")) [
    | inl q ↦ by (decide fl s now "" "off" disabled) (rw q refl) (
        carried s _ (r ∷ rs) (decide-IsCarried s now "" "off" disabled)
          (unused-IsBacked s r rs (ground (arith, q)) b))
    | inr q ↦ elim (Bool-cases (str_eq s.policy.mode "manual")) [
      | inl m ↦ by (manual fl v t now) (rw (q, m) refl) (
          carried t _ (r ∷ rs) (manual-IsCarried v t now)
            (unused-IsBacked t r rs (ground (arith, m)) pruned))
      | inr m ↦
          by (automatic fl v t now best) (rw (q, m) refl)
            (automatic-IsBacked v t now best r rs pruned refl refl refl (ground (arith, q, m)))
    ]
  ]
    where
      v : View fl
      v = view_of fl ss s now

      t : Selector F
      t = prune fl (available ss) s

      best : String
      best = best_of fl v (auto_ids fl v) ""

      r : Round
      r = round_of ss s now

      by :
          (x : Selector F × Decision)
          → evaluate fl ss s now ≡ x
          → IsBacked x.0 (r ∷ rs)
          → IsBacked (evaluate fl ss s now).0 (r ∷ rs)
      by x e k = subst (λ y. IsBacked y.0 (r ∷ rs)) (sym e) k

      pruned : IsBacked t rs
      pruned = same_candidate s t rs refl refl refl b

  observe-IsCarried : (s : Selector F) (m : Measurement F) → IsCarried s (observe fl s m)
  unfolding observe IsCarried
  observe-IsCarried s m = ground arith

  set_targets-IsCarried :
      (marshal : List Target → String) (ts : List Target) (s : Selector F)
      → IsCarried s (set_targets marshal ts s)
  unfolding set_targets IsCarried
  set_targets-IsCarried marshal ts s = ground arith

  Run-IsBacked :
      (marshal : List Target → String) (s : Selector F) (rs : List Round)
      → Run marshal s rs
      → IsBacked s rs
  unfolding configure set_history_limit
  Run-IsBacked marshal _ _ (started p) = cleared (new fl p) [] refl
  Run-IsBacked marshal _ rs (configured {s = s} p h) = cleared (configure fl p s) rs refl
  Run-IsBacked marshal _ rs (targeted {s = s} ts h) =
      carried s _ rs (set_targets-IsCarried marshal ts s) (Run-IsBacked marshal s rs h)
  Run-IsBacked marshal _ rs (limited {s = s} n h) =
      same_candidate s (set_history_limit n s) rs refl refl refl (Run-IsBacked marshal s rs h)
  Run-IsBacked marshal _ rs (observed {s = s} m h) =
      carried s _ rs (observe-IsCarried s m) (Run-IsBacked marshal s rs h)
  Run-IsBacked marshal _ _ (evaluated {s = s} {rs = rs} ss now h) =
      evaluate-IsBacked ss s now rs (Run-IsBacked marshal s rs h)

  -- In the mode "auto", after any calls of the methods, while the selected source is usable,
  -- `Evaluate` selects another one only if that one is the best candidate and better by the
  -- configured margin, at least as often as the policy asks for it was so with a strictly newer
  -- measurement, in every call since the first of these that met a usable selected source it
  -- was the superior candidate, and the minimum dwell and the cooldown are over.
  pub evaluate_switch :
      (marshal : List Target → String) (ss : List Source) (s : Selector F) (now : ℕ)
      → (rs : List Round) → Run marshal s rs
      → s.policy.mode ≡ "auto"
      → usable fl (view_of fl ss s now) s.selected ≡ true
      → (evaluate fl ss s now).1.selected ≢ s.selected
      → let v = view_of fl ss s now in
        let id = (evaluate fl ss s now).1.selected in
        (id ≡ best_of fl v (auto_ids fl v) "")
        × (better fl (health_of fl v id) (health_of fl v s.selected) s.policy.improvement_percent
            ≡ true)
        × ((times : List ℕ) × Streak id times (round_of ss s now ∷ rs)
            × (ltb_ℤ (pos (length times)) s.policy.confirmations ≡ false))
        × (ltb_ℤ (time_sub now s.selected_at) (seconds s.policy.min_dwell_seconds) ≡ false)
        × (ltb_ℤ (time_sub now s.last_switch) (seconds s.policy.cooldown_seconds) ≡ false)
  unfolding is_superior
  evaluate_switch marshal ss s now rs h m u ne = (
    l.0,
    l.1,
    (
      k.times,
      subst (λ i. Streak i k.times (round_of ss s now ∷ rs)) (confirm_candidate-candidate v s id)
          k.streak,
      rw k.count l.2,
    ),
    l.3,
    l.4,
  )
    where
      v : View fl
      v = view_of fl ss s now

      id : String
      id = (evaluate fl ss s now).1.selected

      l :
          (id ≡ best_of fl v (auto_ids fl v) "")
          × (better fl (health_of fl v id) (health_of fl v s.selected) s.policy.improvement_percent
              ≡ true)
          × (ltb_ℤ (pos (confirm_candidate fl v s id).confirmations) s.policy.confirmations ≡ false)
          × (ltb_ℤ (time_sub now s.selected_at) (seconds s.policy.min_dwell_seconds) ≡ false)
          × (ltb_ℤ (time_sub now s.last_switch) (seconds s.policy.cooldown_seconds) ≡ false)
      l = evaluate_lem fl ss s now m u ne

      superior : (round_of ss s now).superior ≡ true
      superior =
          automatic-superior v (prune fl (available ss) s) now (best_of fl v (auto_ids fl v) "") u
            (λ e. ne (ap (λ x. x.1.selected) (evaluate_auto fl ss s now m) ∙ e))

      k : IsBacked (confirm_candidate fl v s id) (round_of ss s now ∷ rs)
      k =
          confirm_candidate-IsBacked v s id (round_of ss s now) rs (Run-IsBacked marshal s rs h)
            (sym l.0) (ap (λ i. (health_of fl v i).last_at) (sym l.0)) superior
