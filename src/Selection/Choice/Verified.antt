-- ===== src/Selection/Choice/Verified.antt =====
-- What `Evaluate` may select, in each of its modes.
use text.Mathlib.Text.{◌==◌ as str_eq}
use text.Mathlib.TextEquality.{eq_iff}
use route_harbor.Prelude.{
  ℕ, ◌≡◌, refl, sym, ap, subst, ◌∙◌, ◌⊎◌, inl, inr, true, ◌&&◌, ◌||◌, List, [], ◌∷◌, String, arith,
  if◌then◌else◌, All,
}
use route_harbor.Selection.{
  Floats, Source, Selector, Reason, disabled, pinned_passed, pinned_failed, none_eligible,
  initial_source, replacement, unconfirmed, dwelling, cooling, sustained, failure_unconfirmed,
  no_superior, direct_passed, direct_unverified, fallback_closed, clear_candidate,
}
use route_harbor.Selection.Tables.{names, All-names, All-sort_names}
use route_harbor.Selection.Choice.{
  available, View, prune, view_of, health_of, passes, usable, auto_ids, direct_ids, best_of, decide,
  fall_to, better, fall_back, manual, first_choice, stay, confirm_candidate, challenge, automatic,
  evaluate,
}
use route_harbor.Selection.Choice.Evidence.{IsVerified, passes-IsVerified, usable-IsVerified}

module _ {F : Type 0} (fl : Floats F) where
  decide_lem :
      (s : Selector F) (now : ℕ) (id state : String) (reason : Reason)
      → (decide fl s now id state reason).1.selected ≡ id
  unfolding decide
  decide_lem s now id state reason = ground (arith, eq_iff id s.selected)

  -- What a decision may select in a view, when the source `old` is selected.
  IsGood : View fl → String → String → Type 0
  IsGood v old id = (id ≡ "") ⊎ ((passes fl v id ≡ true) ⊎ ((id ≡ old) × (usable fl v old ≡ true)))

  fall_to-IsGood :
      (v : View fl) (ids : List String) (old : String) (s : Selector F) (now : ℕ) (reason : Reason)
      → All (λ id. passes fl v id ≡ true) ids
      → IsGood v old (fall_to fl ids s now reason).1.selected
  unfolding IsGood fall_to decide
  fall_to-IsGood v [] old s now reason h =
      inl (decide_lem s now "" "unavailable" (direct_unverified reason))
  fall_to-IsGood v (id ∷ ids) old s now reason h =
      inr (inl (ap (passes fl v) (decide_lem s now id "fallback" (direct_passed reason)) ∙ h.0))

  fall_back-IsGood :
      (v : View fl) (old : String) (s : Selector F) (now : ℕ) (reason : Reason)
      → IsGood v old (fall_back fl v s now reason).1.selected
  unfolding fall_back IsGood
  fall_back-IsGood v old s now reason = ground (
    arith,
    fall_to-IsGood v (direct_ids fl v) old s now reason all_pass,
    decide_lem s now "" "unavailable" (fallback_closed reason),
  )
    where
      all_pass : All (λ id. passes fl v id ≡ true) (direct_ids fl v)
      all_pass =
          All-sort_names (passes fl v)
            (names (λ id x. str_eq x.kind "direct" && passes fl v id) v.sources)
            (All-names (λ id x. str_eq x.kind "direct" && passes fl v id) (passes fl v) v.sources
              (λ id x h. ground arith))

  manual-IsGood :
      (v : View fl) (old : String) (s : Selector F) (now : ℕ)
      → IsGood v old (manual fl v s now).1.selected
  unfolding manual IsGood
  manual-IsGood v old s now = ground (
    arith,
    fall_back-IsGood v old s now pinned_failed,
    decide_lem s now s.policy.pinned "manual" pinned_passed,
  )

  -- The best of names that pass is one of them, if there is one.
  best_of_lem :
      (v : View fl) (ids : List String) (best : String)
      → All (λ id. passes fl v id ≡ true) ids
      → (best ≡ "") ⊎ (passes fl v best ≡ true)
      → (best_of fl v ids best ≡ "") ⊎ (passes fl v (best_of fl v ids best) ≡ true)
  unfolding best_of
  best_of_lem v [] best h k = k
  best_of_lem v (id ∷ ids) best h k =
      best_of_lem v ids
        (if str_eq best "" || better fl (health_of fl v id) (health_of fl v best) (fl.ratio 0 1)
          then id
          else best)
        h.1 (ground (arith, h.0, k))

  best_passes :
      (v : View fl)
      → (best_of fl v (auto_ids fl v) "" ≡ "")
        ⊎ (passes fl v (best_of fl v (auto_ids fl v) "") ≡ true)
  best_passes v =
      best_of_lem v (auto_ids fl v) ""
        (All-sort_names (passes fl v) (names (λ id x. x.auto && passes fl v id) v.sources) (
          All-names (λ id x. x.auto && passes fl v id) (passes fl v) v.sources
            (λ id x h. ground arith)))
        (inl refl)

  challenge-IsGood :
      (v : View fl) (s t : Selector F) (now : ℕ) (best : String)
      → t.selected ≡ s.selected
      → usable fl v s.selected ≡ true
      → passes fl v best ≡ true
      → IsGood v s.selected (challenge fl t now best).1.selected
  unfolding challenge IsGood
  challenge-IsGood v s t now best e u h = ground (
    arith,
    decide_lem t now t.selected "selected" unconfirmed,
    decide_lem t now t.selected "selected" dwelling,
    decide_lem t now t.selected "selected" cooling,
    decide_lem t now best "selected" sustained,
  )

  confirm_candidate_lem :
      (v : View fl) (s : Selector F) (best : String)
      → (confirm_candidate fl v s best).selected ≡ s.selected
  unfolding confirm_candidate
  confirm_candidate_lem v s best = ground arith

  stay_lem : (v : View fl) (s : Selector F) (now : ℕ) → (stay fl v s now).1.selected ≡ s.selected
  unfolding stay
  stay_lem v s now = ground (
    arith,
    decide_lem (clear_candidate s) now s.selected "degraded" failure_unconfirmed,
    decide_lem (clear_candidate s) now s.selected "selected" no_superior,
  )

  first_choice-IsGood :
      (v : View fl) (s : Selector F) (now : ℕ) (best : String)
      → (best ≡ "") ⊎ (passes fl v best ≡ true)
      → IsGood v s.selected (first_choice fl v s now best).1.selected
  unfolding first_choice IsGood
  first_choice-IsGood v s now best h = ground (
    arith,
    h,
    eq_iff best "",
    fall_back-IsGood v s.selected s now none_eligible,
    decide_lem s now best "selected" initial_source,
    decide_lem s now best "selected" replacement,
  )

  automatic-IsGood :
      (v : View fl) (s : Selector F) (now : ℕ) (best : String)
      → (best ≡ "") ⊎ (passes fl v best ≡ true)
      → IsGood v s.selected (automatic fl v s now best).1.selected
  unfolding automatic IsGood
  automatic-IsGood v s now best h = ground (
    arith,
    h,
    first_choice-IsGood v s now best h,
    stay_lem v s now,
    confirm_candidate_lem v s best,
    eq_iff best "",
    challenge-IsGood v s (confirm_candidate fl v s best) now best,
  )

  evaluate-IsGood :
      (ss : List Source) (s : Selector F) (now : ℕ)
      → IsGood (view_of fl ss s now) s.selected (evaluate fl ss s now).1.selected
  unfolding evaluate IsGood
  evaluate-IsGood ss s now = ground (
    arith,
    decide_lem s now "" "off" disabled,
    manual-IsGood (view_of fl ss s now) s.selected (prune fl (available ss) s) now,
    automatic-IsGood (view_of fl ss s now) (prune fl (available ss) s) now
        (best_of fl (view_of fl ss s now) (auto_ids fl (view_of fl ss s now)) "")
        (best_passes (view_of fl ss s now)),
  )

  -- Whatever the mode, the policy and the history, what `Evaluate` selects is no source at all, or one
  -- that is configured, is enabled and has measurements whose state is healthy at that moment; the
  -- source that was selected before may also be degraded.
  pub evaluate-IsVerified :
      (ss : List Source) (s : Selector F) (now : ℕ)
      → ((evaluate fl ss s now).1.selected ≡ "")
        ⊎ IsVerified fl ss s now (evaluate fl ss s now).1.selected
  unfolding IsGood
  evaluate-IsVerified ss s now = elim (evaluate-IsGood ss s now) [
    | inl e ↦ inl e
    | inr (inl h) ↦ inr (passes-IsVerified fl ss s now (evaluate fl ss s now).1.selected h)
    | inr (inr (e, h)) ↦
        inr (subst (IsVerified fl ss s now) (sym e) (usable-IsVerified fl ss s now h))
  ]
