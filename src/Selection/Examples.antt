-- ===== src/Selection/Examples.antt =====
-- Two sources and their measurements, with floats as whole thousandths.
use text.Mathlib.Text.{◌==◌ as str_eq}
use text.Mathlib.TextEquality.{eq_iff}
use route_harbor.Prelude.{
  ℕ, sym, ◌∙◌, length, ◌+◌, ◌*◌, ◌/◌, ◌≡◌, ◌≢◌, ◌≤◌, ◌⊎◌, All, refl, Bool, true, false, List, [],
  ◌∷◌, none, String, arith, ltb, ◌==◌,
}
use route_harbor.Prelude.Int.{pos, ltb_ℤ}
use route_harbor.Selection.{
  Floats, Policy, Source, Target, Resource, Measurement, healthy, Observation, Selector, new,
  safe_policy, safe_improvement, time_sub, seconds,
}
use route_harbor.Selection.Health.{observe, state_at, health_at}
use route_harbor.Selection.Cycles.{acceptable, cycle, unseen, tally, sane_resources}
use route_harbor.Selection.Tables.{mem}
use route_harbor.Selection.Settings.{set_history_limit}
use route_harbor.Selection.Health.Policies.{
  HasPassed, IsFine, cycles, cycle_healthy, cycles_after_failure,
}
use route_harbor.Selection.Health.Histories.{Reach, IsBounded, Reach-IsBounded}
use route_harbor.Selection.Health.Repeats.{observe_twice}
use route_harbor.Selection.Choice.{
  view_of, health_of, usable, best_of, auto_ids, better, quality, confirm_candidate, evaluate,
  automatic, challenge, stay, decide, first_choice,
}
use route_harbor.Selection.Choice.Evidence.{IsVerified}
use route_harbor.Selection.Choice.Verified.{evaluate-IsVerified}
use route_harbor.Selection.Choice.Streaks.{Round, Streak, Run, round_of, evaluate_switch}

-- `over` by zero is 0 here; every number is finite.
abbrev thousandths : Floats ℕ
thousandths = record {
  ratio = λ n d. n * 1000 / d;
  plus = λ a b. a + b;
  times = λ a b. a * b / 1000;
  over = λ a b. a * 1000 / b;
  less = ltb;
  same = λ a b. a == b;
  finite = λ a. true;
}

abbrev quick_policy : Policy ℕ
quick_policy = record {
  mode = "auto";
  pinned = "";
  fallback = "closed";
  improvement_percent = 20000;
  confirmations = pos 1;
  failure_confirmations = pos 2;
  recovery_confirmations = pos 2;
  min_dwell_seconds = pos 1;
  cooldown_seconds = pos 1;
  stale_after_seconds = pos 90;
}

abbrev page : Bool → ℕ → Resource ℕ
page success latency = record {
  target_id = "page";
  required = true;
  success = success;
  latency_ms = latency;
  bytes = pos 10;
  speed_bps = none;
}

abbrev probe : String → ℕ → Bool → ℕ → Measurement ℕ
probe id at success latency = record {
  source_id = id;
  at = at;
  resources = page success latency ∷ [];
  packet_loss = none;
}

abbrev source : String → Source
source id = record { id = id; kind = "direct"; enabled = true; auto = true }

abbrev both : List Source
both = source "far" ∷ source "near" ∷ []

-- Two good cycles of a slow source, and then of a fast one.
abbrev measured : Selector ℕ
measured =
    observe thousandths
      (observe thousandths (new thousandths quick_policy) (probe "far" 1000 true 900000))
      (probe "far" 2000 true 900000)

abbrev chosen : Selector ℕ
chosen = (evaluate thousandths both measured 3000).0

abbrev challenged : Selector ℕ
challenged =
    observe thousandths (observe thousandths chosen (probe "near" 4000 true 10000))
      (probe "near" 5000 true 10000)

evaluate-IsVerified_example :
    ((evaluate thousandths both challenged 3000000000).1.selected ≡ "")
    ⊎ IsVerified thousandths both challenged 3000000000
        (evaluate thousandths both challenged 3000000000).1.selected
evaluate-IsVerified_example = evaluate-IsVerified thousandths both challenged 3000000000

challenged_policy : challenged.policy.mode ≡ "auto"
unfolding evaluate automatic first_choice decide best_of view_of better quality health_at state_at
    observe cycle acceptable tally sane_resources safe_policy safe_improvement time_sub seconds
challenged_policy = refl

challenged-usable :
    usable thousandths (view_of thousandths both challenged 3000000000) challenged.selected ≡ true
unfolding evaluate automatic first_choice decide best_of view_of better quality health_at state_at
    observe cycle acceptable tally sane_resources safe_policy safe_improvement time_sub seconds
challenged-usable = refl

challenged_selected : challenged.selected ≡ "far"
unfolding evaluate automatic first_choice decide best_of view_of better quality health_at state_at
    observe cycle acceptable tally sane_resources safe_policy safe_improvement time_sub seconds
challenged_selected = refl

switched : (evaluate thousandths both challenged 3000000000).1.selected ≡ "near"
unfolding evaluate automatic first_choice stay challenge confirm_candidate decide best_of view_of
    better quality health_at state_at observe cycle acceptable tally sane_resources safe_policy
    safe_improvement time_sub seconds
switched = refl

texts_differ : (a b : String) → str_eq a b ≡ false → a ≢ b
texts_differ a b h e = ground (arith, h, (eq_iff a b).1 e)

abbrev marshal_count : List Target → String
marshal_count [] = "[]"
marshal_count (t ∷ ts) = "[...]"

abbrev past : List Round
past = round_of thousandths both measured 3000 ∷ []

challenged_run : Run thousandths marshal_count challenged past
challenged_run = Run.observed (probe "near" 5000 true 10000) (
    Run.observed (probe "near" 4000 true 10000) (
      Run.evaluated both 3000 (
        Run.observed (probe "far" 2000 true 900000)
          (Run.observed (probe "far" 1000 true 900000) (Run.started quick_policy)))))

evaluate_switch_example :
    let v = view_of thousandths both challenged 3000000000 in
    let id = (evaluate thousandths both challenged 3000000000).1.selected in
    (id ≡ best_of thousandths v (auto_ids thousandths v) "")
    × (better thousandths
          (health_of thousandths v id)
          (health_of thousandths v challenged.selected)
          challenged.policy.improvement_percent
        ≡ true)
    × ((times : List ℕ) × Streak id times (round_of thousandths both challenged 3000000000 ∷ past)
        × (ltb_ℤ (pos (length times)) challenged.policy.confirmations ≡ false))
    × (ltb_ℤ
          (time_sub 3000000000 challenged.selected_at)
          (seconds challenged.policy.min_dwell_seconds)
        ≡ false)
    × (ltb_ℤ
          (time_sub 3000000000 challenged.last_switch)
          (seconds challenged.policy.cooldown_seconds)
        ≡ false)
evaluate_switch_example =
    evaluate_switch thousandths marshal_count both challenged 3000000000 past challenged_run
      challenged_policy challenged-usable
      (λ e. texts_differ "near" "far" refl (sym switched ∙ e ∙ challenged_selected))

abbrev once : Observation ℕ
once = cycle thousandths measured (probe "far" 1000 true 5000) (unseen thousandths "far")

once_healthy : state_at thousandths measured.policy once 2000 ≡ healthy
unfolding observe state_at cycle acceptable tally sane_resources safe_policy safe_improvement
    time_sub seconds
once_healthy = refl

cycle_healthy_example :
    (1000 ≤ 2000)
    × HasPassed thousandths (page true 5000 ∷ [])
    × All (IsFine thousandths measured.required) (page true 5000 ∷ [])
    × All (λ id. mem id ("page" ∷ []) ≡ true) measured.required
cycle_healthy_example =
    cycle_healthy thousandths measured (probe "far" 1000 true 5000) (unseen thousandths "far") 2000
      once_healthy

measured_recovery :
    ltb_ℤ (pos (length (probe "far" 5000 true 9 ∷ []))) measured.policy.recovery_confirmations
    ≡ true
unfolding observe cycle acceptable tally sane_resources safe_policy safe_improvement
measured_recovery = refl

cycles_after_failure_example :
    state_at thousandths measured.policy
      (cycles thousandths measured (probe "far" 4000 false 0 ∷ probe "far" 5000 true 9 ∷ []) once)
      6000
    ≢ healthy
cycles_after_failure_example =
    cycles_after_failure thousandths measured (probe "far" 4000 false 0)
      (probe "far" 5000 true 9 ∷ []) once 6000 (refl, tt) measured_recovery

measured_reach : Reach thousandths marshal_count measured
measured_reach =
    Reach.observed (probe "far" 2000 true 900000) _
      (Reach.observed (probe "far" 1000 true 900000) _ (Reach.started quick_policy))

Reach-IsBounded_example : IsBounded thousandths marshal_count (set_history_limit (pos 1) measured)
Reach-IsBounded_example =
    Reach-IsBounded thousandths marshal_count (set_history_limit (pos 1) measured)
      (Reach.limited (pos 1) measured measured_reach)

probe-acceptable : acceptable thousandths (probe "far" 4000 true 9) ≡ true
unfolding acceptable sane_resources
probe-acceptable = refl

observe_twice_example :
    observe thousandths
      (observe thousandths measured (probe "far" 4000 true 9))
      (probe "far" 3000 false 9)
    ≡ observe thousandths measured (probe "far" 4000 true 9)
observe_twice_example =
    observe_twice thousandths measured (probe "far" 4000 true 9) (probe "far" 3000 false 9)
      probe-acceptable refl (omega arith)
