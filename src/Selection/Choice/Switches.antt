-- ===== src/Selection/Choice/Switches.antt =====
-- When `Evaluate` leaves a source that is still usable.
use text.Mathlib.Text.{◌==◌ as str_eq}
use text.Mathlib.TextEquality.{eq_iff}
use route_harbor.Prelude.{
  ℕ, ◌≡◌, ◌≢◌, ap, ◌∙◌, true, false, List, String, arith, Bool-cases, inl, inr,
}
use route_harbor.Prelude.Int.{pos, ltb_ℤ}
use route_harbor.Selection.{
  Reason, failure_unconfirmed, no_superior, unconfirmed, dwelling, cooling, sustained, Floats,
  Source, Selector, time_sub, seconds, clear_candidate,
}
use route_harbor.Selection.Choice.{
  available, view_of, health_of, usable, auto_ids, best_of, better, decide, stay, confirm_candidate,
  challenge, automatic, evaluate, prune, View,
}

module _ {F : Type 0} (fl : Floats F) where
  decide_lem :
      (s : Selector F) (now : ℕ) (id state : String) (reason : Reason)
      → (decide fl s now id state reason).1.selected ≡ id
  unfolding decide
  decide_lem s now id state reason = ground (arith, eq_iff id s.selected)

  pub stay_lem :
      (v : View fl) (s : Selector F) (now : ℕ) → (stay fl v s now).1.selected ≡ s.selected
  unfolding stay
  stay_lem v s now = ground (
    arith,
    decide_lem (clear_candidate s) now s.selected "degraded" failure_unconfirmed,
    decide_lem (clear_candidate s) now s.selected "selected" no_superior,
  )

  -- What has to hold when a challenge ends with another source.
  record IsDue (s : Selector F) (now : ℕ) : Type 0 where
    confirmed : ltb_ℤ (pos s.confirmations) s.policy.confirmations ≡ false
    dwelt : ltb_ℤ (time_sub now s.selected_at) (seconds s.policy.min_dwell_seconds) ≡ false
    cooled : ltb_ℤ (time_sub now s.last_switch) (seconds s.policy.cooldown_seconds) ≡ false

  challenge_lem :
      (s : Selector F) (now : ℕ) (best : String)
      → (challenge fl s now best).1.selected ≢ s.selected
      → ((challenge fl s now best).1.selected ≡ best) × IsDue s now
  unfolding challenge
  challenge_lem s now best ne =
      elim (Bool-cases (ltb_ℤ (pos s.confirmations) s.policy.confirmations)) [
        | inl h ↦
            absurd (ne (ground (arith, h, decide_lem s now s.selected "selected" unconfirmed)))
        | inr h ↦
            elim (Bool-cases
              (ltb_ℤ (time_sub now s.selected_at) (seconds s.policy.min_dwell_seconds))) [
                | inl k ↦
                    absurd
                      (ne (ground (arith, h, k, decide_lem s now s.selected "selected" dwelling)))
                | inr k ↦
                    elim (Bool-cases
                      (ltb_ℤ (time_sub now s.last_switch) (seconds s.policy.cooldown_seconds))) [
                        | inl c ↦ absurd (
                            ne (
                              ground
                                (arith, h, k, c, decide_lem s now s.selected "selected" cooling)))
                        | inr c ↦ (
                          ground (arith, h, k, c, decide_lem s now best "selected" sustained),
                          record { confirmed = h; dwelt = k; cooled = c },
                        )
                      ]
              ]
      ]

  -- A cycle for the candidate changes nothing else, and does not read the measurements.
  record IsKept (s t : Selector F) : Type 0 where
    selected : t.selected ≡ s.selected
    selected_at : t.selected_at ≡ s.selected_at
    last_switch : t.last_switch ≡ s.last_switch
    policy : t.policy ≡ s.policy

  confirm_candidate_lem :
      (v : View fl) (s : Selector F) (table : List (String × Source)) (best : String)
      → IsKept s (confirm_candidate fl v (prune fl table s) best)
        × ((confirm_candidate fl v (prune fl table s) best).confirmations
            ≡ (confirm_candidate fl v s best).confirmations)
  unfolding confirm_candidate
  confirm_candidate_lem v s table best = (
    record {
      selected = ground arith;
      selected_at = ground arith;
      last_switch = ground arith;
      policy = ground arith;
    },
    ground arith,
  )

  automatic_lem :
      (v : View fl) (s : Selector F) (now : ℕ) (best : String)
      → usable fl v s.selected ≡ true
      → (automatic fl v s now best).1.selected ≢ s.selected
      → (automatic fl v s now best ≡ challenge fl (confirm_candidate fl v s best) now best)
        × (better fl (health_of fl v best) (health_of fl v s.selected) s.policy.improvement_percent
            ≡ true)
  unfolding automatic
  automatic_lem v s now best u ne = ground (arith, stay_lem v s now)

  pub evaluate_auto :
      (ss : List Source) (s : Selector F) (now : ℕ)
      → s.policy.mode ≡ "auto"
      → evaluate fl ss s now
        ≡ automatic fl
            (view_of fl ss s now)
            (prune fl (available ss) s)
            now
            (best_of fl (view_of fl ss s now) (auto_ids fl (view_of fl ss s now)) "")
  unfolding evaluate
  evaluate_auto ss s now m =
      ground (arith, ap (λ mode. str_eq mode "off") m, ap (λ mode. str_eq mode "manual") m)

  -- Another source is selected by a challenge.
  evaluate-challenge :
      (ss : List Source) (s : Selector F) (now : ℕ)
      → s.policy.mode ≡ "auto"
      → usable fl (view_of fl ss s now) s.selected ≡ true
      → (evaluate fl ss s now).1.selected ≢ s.selected
      → let v = view_of fl ss s now in
        let best = best_of fl v (auto_ids fl v) "" in
        (evaluate fl ss s now
          ≡ challenge fl (confirm_candidate fl v (prune fl (available ss) s) best) now best)
        × (better fl (health_of fl v best) (health_of fl v s.selected) s.policy.improvement_percent
            ≡ true)
  evaluate-challenge ss s now m u ne = (e ∙ a.0, a.1)
    where
      v : View fl
      v = view_of fl ss s now

      best : String
      best = best_of fl v (auto_ids fl v) ""

      e : evaluate fl ss s now ≡ automatic fl v (prune fl (available ss) s) now best
      e = evaluate_auto ss s now m

      a :
          (automatic fl v (prune fl (available ss) s) now best
            ≡ challenge fl (confirm_candidate fl v (prune fl (available ss) s) best) now best)
          × (better fl
                (health_of fl v best)
                (health_of fl v s.selected)
                s.policy.improvement_percent
              ≡ true)
      a =
          automatic_lem v (prune fl (available ss) s) now best u
            (λ k. ne (ap (λ r. r.1.selected) e ∙ k))

  -- What a switch from a usable source says of that one call.
  pub evaluate_lem :
      (ss : List Source) (s : Selector F) (now : ℕ)
      → s.policy.mode ≡ "auto"
      → usable fl (view_of fl ss s now) s.selected ≡ true
      → (evaluate fl ss s now).1.selected ≢ s.selected
      → let v = view_of fl ss s now in
        let id = (evaluate fl ss s now).1.selected in
        (id ≡ best_of fl v (auto_ids fl v) "")
        × (better fl (health_of fl v id) (health_of fl v s.selected) s.policy.improvement_percent
            ≡ true)
        × (ltb_ℤ (pos (confirm_candidate fl v s id).confirmations) s.policy.confirmations ≡ false)
        × (ltb_ℤ (time_sub now s.selected_at) (seconds s.policy.min_dwell_seconds) ≡ false)
        × (ltb_ℤ (time_sub now s.last_switch) (seconds s.policy.cooldown_seconds) ≡ false)
  evaluate_lem ss s now m u ne =
      ground (
        arith,
        e.1,
        ap (λ r. r.1.selected) e.0,
        k.0,
        k.1,
        d.0,
        d.1.confirmed,
        d.1.dwelt,
        d.1.cooled,
      )
    where
      v : View fl
      v = view_of fl ss s now

      best : String
      best = best_of fl v (auto_ids fl v) ""

      t : Selector F
      t = confirm_candidate fl v (prune fl (available ss) s) best

      e :
          (evaluate fl ss s now ≡ challenge fl t now best)
          × (better fl
                (health_of fl v best)
                (health_of fl v s.selected)
                s.policy.improvement_percent
              ≡ true)
      e = evaluate-challenge ss s now m u ne

      k : IsKept s t × (t.confirmations ≡ (confirm_candidate fl v s best).confirmations)
      k = confirm_candidate_lem v s (available ss) best

      d : ((challenge fl t now best).1.selected ≡ best) × IsDue t now
      d = challenge_lem t now best (λ c. ne (ap (λ r. r.1.selected) e.0 ∙ c ∙ k.0.selected))
