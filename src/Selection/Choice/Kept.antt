-- ===== src/Selection/Choice/Kept.antt =====
-- What `Evaluate` leaves alone: the measurements of the sources that are configured.
use route_harbor.Prelude.{ℕ, ◌≡◌, ◌⊎◌, List, [], ◌∷◌, String, arith}
use route_harbor.Selection.{
  Floats, Source, Selector, Reason, disabled, pinned_passed, pinned_failed, none_eligible,
  initial_source, replacement, unconfirmed, dwelling, cooling, sustained, failure_unconfirmed,
  no_superior, direct_passed, direct_unverified, fallback_closed, clear_candidate,
}
use route_harbor.Selection.Choice.{
  available, View, prune, view_of, direct_ids, decide, fall_to, fall_back, manual, first_choice,
  stay, confirm_candidate, challenge, automatic, evaluate, best_of, auto_ids,
}

module _ {F : Type 0} (fl : Floats F) where
  unfoldable pub IsKept : Selector F → Selector F → Type 0
  IsKept s t = (t.sources ≡ s.sources) × (t.history_limit ≡ s.history_limit)

  decide-IsKept :
      (s : Selector F) (now : ℕ) (id state : String) (reason : Reason)
      → IsKept s (decide fl s now id state reason).0
  unfolding decide IsKept
  decide-IsKept s now id state reason = ground arith

  fall_to-IsKept :
      (ids : List String) (s : Selector F) (now : ℕ) (reason : Reason)
      → IsKept s (fall_to fl ids s now reason).0
  unfolding fall_to decide
  fall_to-IsKept [] s now reason = decide-IsKept s now "" "unavailable" (direct_unverified reason)
  fall_to-IsKept (id ∷ ids) s now reason = decide-IsKept s now id "fallback" (direct_passed reason)

  fall_back-IsKept :
      (v : View fl) (s : Selector F) (now : ℕ) (reason : Reason)
      → IsKept s (fall_back fl v s now reason).0
  unfolding fall_back IsKept
  fall_back-IsKept v s now reason = ground (
    arith,
    fall_to-IsKept (direct_ids fl v) s now reason,
    decide-IsKept s now "" "unavailable" (fallback_closed reason),
  )

  manual-IsKept : (v : View fl) (s : Selector F) (now : ℕ) → IsKept s (manual fl v s now).0
  unfolding manual IsKept
  manual-IsKept v s now = ground (
    arith,
    fall_back-IsKept v s now pinned_failed,
    decide-IsKept s now s.policy.pinned "manual" pinned_passed,
  )

  first_choice-IsKept :
      (v : View fl) (s : Selector F) (now : ℕ) (best : String)
      → IsKept s (first_choice fl v s now best).0
  unfolding first_choice IsKept
  first_choice-IsKept v s now best = ground (
    arith,
    fall_back-IsKept v s now none_eligible,
    decide-IsKept s now best "selected" initial_source,
    decide-IsKept s now best "selected" replacement,
  )

  stay-IsKept : (v : View fl) (s : Selector F) (now : ℕ) → IsKept s (stay fl v s now).0
  unfolding stay IsKept
  stay-IsKept v s now = ground (
    arith,
    decide-IsKept (clear_candidate s) now s.selected "degraded" failure_unconfirmed,
    decide-IsKept (clear_candidate s) now s.selected "selected" no_superior,
  )

  challenge-IsKept :
      (s t : Selector F) (now : ℕ) (best : String)
      → IsKept s t
      → IsKept s (challenge fl t now best).0
  unfolding challenge IsKept
  challenge-IsKept s t now best k = ground (
    arith,
    k,
    decide-IsKept t now t.selected "selected" unconfirmed,
    decide-IsKept t now t.selected "selected" dwelling,
    decide-IsKept t now t.selected "selected" cooling,
    decide-IsKept t now best "selected" sustained,
  )

  confirm_candidate-IsKept :
      (v : View fl) (s : Selector F) (best : String) → IsKept s (confirm_candidate fl v s best)
  unfolding confirm_candidate IsKept
  confirm_candidate-IsKept v s best = ground arith

  automatic-IsKept :
      (v : View fl) (s : Selector F) (now : ℕ) (best : String)
      → IsKept s (automatic fl v s now best).0
  unfolding automatic IsKept
  automatic-IsKept v s now best = ground (
    arith,
    first_choice-IsKept v s now best,
    stay-IsKept v s now,
    challenge-IsKept s (confirm_candidate fl v s best) now best (confirm_candidate-IsKept v s best),
  )

  -- `Evaluate` removes the measurements of sources that are not configured, if any.
  pub evaluate-IsKept :
      (ss : List Source) (s : Selector F) (now : ℕ)
      → IsKept s (evaluate fl ss s now).0
        ⊎ IsKept (prune fl (available ss) s) (evaluate fl ss s now).0
  unfolding evaluate IsKept
  evaluate-IsKept ss s now = ground (
    arith,
    decide-IsKept s now "" "off" disabled,
    manual-IsKept (view_of fl ss s now) (prune fl (available ss) s) now,
    automatic-IsKept (view_of fl ss s now) (prune fl (available ss) s) now
        (best_of fl (view_of fl ss s now) (auto_ids fl (view_of fl ss s now)) ""),
  )
