-- ===== src/Selection/Choice.antt =====
-- `Evaluate` and `better` of selector.go.
pub mod Kept
pub mod Evidence
pub mod Verified
pub mod Switches
pub mod Streaks
use text.Mathlib.Text.{◌==◌ as str_eq}
use route_harbor.Prelude.{
  ℕ, ◌+◌, Bool, true, false, not, ◌&&◌, ◌||◌, List, [], ◌∷◌, Option, none, some, String, ltb,
  if◌then◌else◌,
}
use route_harbor.Prelude.Int.{pos, ltb_ℤ}
use route_harbor.Selection.{
  Floats, Policy, Source, HealthState, unset, unknown, stale, unhealthy, degraded, recovering,
  healthy, SourceHealth, Observation, Selector, Reason, disabled, pinned_passed, pinned_failed,
  none_eligible, initial_source, replacement, failure_unconfirmed, no_superior, unconfirmed,
  dwelling, cooling, sustained, direct_passed, direct_unverified, fallback_closed, Decision,
  time_sub, seconds, clear_candidate,
}
use route_harbor.Selection.Tables.{lookup, put, has, keep, names, map_values, sort_names}
use route_harbor.Selection.Health.{health_at}
use route_harbor.Selection.Cycles.{reaches}

-- `available[source.ID] = source`, for each source in turn.
abbrev fill : List Source → List (String × Source) → List (String × Source)
fill [] kvs = kvs
fill (s ∷ ss) kvs = fill ss (put s.id s kvs)

abbrev pub available : List Source → List (String × Source)
available ss = fill ss []

abbrev pub is_healthy : HealthState → Bool
is_healthy healthy = true
is_healthy _ = false

abbrev pub is_degraded : HealthState → Bool
is_degraded degraded = true
is_degraded _ = false

module _ {F : Type 0} (fl : Floats F) where
  abbrev loss_factor : F → Option F → F
  loss_factor q none = q
  loss_factor q (some v) = fl.over q (fl.plus (fl.ratio 1 1) (fl.times (fl.ratio 4 1) v))

  unfoldable pub quality : SourceHealth F → F
  quality h =
      loss_factor
        (fl.over h.success_rate (fl.plus (fl.ratio 1 1) (fl.over h.latency_ms (fl.ratio 1000 1))))
        h.packet_loss

  abbrev weigh : F → Option F → Option F → F
  weigh q (some mine) (some other) = fl.times q mine
  weigh q _ _ = q

  unfoldable pub better : SourceHealth F → SourceHealth F → F → Bool
  unfolding quality
  better a b improvement =
      fl.less
        (fl.times (weigh (quality b) b.speed_bps a.speed_bps)
          (fl.plus (fl.ratio 1 1) (fl.over improvement (fl.ratio 100 1))))
        (weigh (quality a) a.speed_bps b.speed_bps)

  -- What `Evaluate` reads: the sources by name, and the health of each at this moment.
  pub record View : Type 0 where
    pub sources : List (String × Source)
    pub health : List (String × SourceHealth F)

  -- Sources that are no longer configured lose their measurements.
  abbrev pub prune : List (String × Source) → Selector F → Selector F
  prune table s = record s { sources = keep (λ id. has id table) s.sources }

  unfoldable pub view_of : List Source → Selector F → ℕ → View
  unfolding health_at
  view_of ss s now = record {
    sources = available ss;
    health = map_values (λ o. health_at fl s.policy o now) (prune (available ss) s).sources;
  }

  abbrev no_health : SourceHealth F
  no_health = record {
    source_id = "";
    state = unset;
    last_at = 0;
    success_rate = fl.ratio 0 1;
    latency_ms = fl.ratio 0 1;
    speed_bps = none;
    packet_loss = none;
    consecutive_failures = 0;
    consecutive_successes = 0;
    resources = [];
  }

  abbrev pub or_no_health : Option (SourceHealth F) → SourceHealth F
  or_no_health none = no_health
  or_no_health (some h) = h

  -- `h[id]`
  abbrev pub health_of : View → String → SourceHealth F
  health_of v id = or_no_health (lookup id v.health)

  abbrev pub is_enabled : Option Source → Bool
  is_enabled none = false
  is_enabled (some source) = source.enabled

  abbrev pub is_auto : Option Source → Bool
  is_auto none = false
  is_auto (some source) = source.enabled && source.auto

  -- `healthy`
  abbrev pub passes : View → String → Bool
  passes v id = is_enabled (lookup id v.sources) && is_healthy (health_of v id).state

  abbrev pub auto_ids : View → List String
  auto_ids v = sort_names (names (λ id source. source.auto && passes v id) v.sources)

  abbrev pub direct_ids : View → List String
  direct_ids v =
      sort_names (names (λ id source. str_eq source.kind "direct" && passes v id) v.sources)

  unfoldable pub best_of : View → List String → String → String
  unfolding better quality
  best_of v [] best = best
  best_of v (id ∷ ids) best = best_of v ids (
      if str_eq best "" || better (health_of v id) (health_of v best) (fl.ratio 0 1)
      then id
      else best)

  abbrev pub usable : View → String → Bool
  usable v id =
      is_auto (lookup id v.sources)
      && (is_healthy (health_of v id).state || is_degraded (health_of v id).state)

  -- `decision`, with the state in which it is called.
  unfoldable pub decide : Selector F → ℕ → String → String → Reason → Selector F × Decision
  decide s now id state reason =
      if str_eq id s.selected
      then (
        s,
        record {
          at = now;
          previous = s.selected;
          selected = id;
          changed = false;
          state = state;
          reason = reason;
        },
      )
      else (
        clear_candidate (record s { selected = id; selected_at = now; last_switch = now }),
        record {
          at = now;
          previous = s.selected;
          selected = id;
          changed = true;
          state = state;
          reason = reason;
        },
      )

  abbrev pub fall_to : List String → Selector F → ℕ → Reason → Selector F × Decision
  unfolding decide
  fall_to [] s now reason = decide s now "" "unavailable" (direct_unverified reason)
  fall_to (id ∷ ids) s now reason = decide s now id "fallback" (direct_passed reason)

  -- `fallback`
  unfoldable pub fall_back : View → Selector F → ℕ → Reason → Selector F × Decision
  unfolding decide
  fall_back v s now reason =
      if str_eq s.policy.fallback "direct"
      then fall_to (direct_ids v) s now reason
      else decide s now "" "unavailable" (fallback_closed reason)

  unfoldable pub manual : View → Selector F → ℕ → Selector F × Decision
  unfolding fall_back decide
  manual v s now =
      if passes v s.policy.pinned
      then decide s now s.policy.pinned "manual" pinned_passed
      else fall_back v s now pinned_failed

  unfoldable pub first_choice : View → Selector F → ℕ → String → Selector F × Decision
  unfolding fall_back decide
  first_choice v s now best =
      if str_eq best ""
      then fall_back v s now none_eligible
      else decide s now best "selected"
          (if str_eq s.selected "" then initial_source else replacement)

  unfoldable pub stay : View → Selector F → ℕ → Selector F × Decision
  unfolding decide
  stay v s now =
      if is_degraded (health_of v s.selected).state
      then decide (clear_candidate s) now s.selected "degraded" failure_unconfirmed
      else decide (clear_candidate s) now s.selected "selected" no_superior

  -- The candidate and its confirmations after a cycle in which `best` is better.
  unfoldable pub confirm_candidate : View → Selector F → String → Selector F
  confirm_candidate v s best =
      let base =
        if str_eq s.candidate best then s else record (clear_candidate s) { candidate = best } in
      if ltb base.candidate_at (health_of v best).last_at
      then record base {
        confirmations = base.confirmations + 1;
        candidate_at = (health_of v best).last_at;
      }
      else base

  unfoldable pub challenge : Selector F → ℕ → String → Selector F × Decision
  unfolding decide time_sub seconds
  challenge s now best =
      if ltb_ℤ (pos s.confirmations) s.policy.confirmations
      then decide s now s.selected "selected" unconfirmed
      else if ltb_ℤ (time_sub now s.selected_at) (seconds s.policy.min_dwell_seconds)
      then decide s now s.selected "selected" dwelling
      else if ltb_ℤ (time_sub now s.last_switch) (seconds s.policy.cooldown_seconds)
      then decide s now s.selected "selected" cooling
      else decide s now best "selected" sustained

  -- `Evaluate` in the mode "auto", once the best candidate is known.
  unfoldable pub automatic : View → Selector F → ℕ → String → Selector F × Decision
  unfolding better quality first_choice stay confirm_candidate challenge
  automatic v s now best =
      if not (usable v s.selected)
      then first_choice v s now best
      else if str_eq best ""
          || (str_eq best s.selected
              || not
                  (better (health_of v best) (health_of v s.selected) s.policy.improvement_percent))
      then stay v s now
      else challenge (confirm_candidate v s best) now best

  unfoldable pub evaluate : List Source → Selector F → ℕ → Selector F × Decision
  unfolding decide manual automatic best_of view_of
  evaluate ss s now =
      let v = view_of ss s now in
      let t = prune (available ss) s in
      if str_eq s.policy.mode "off"
      then decide s now "" "off" disabled
      else if str_eq s.policy.mode "manual"
      then manual v t now
      else automatic v t now (best_of v (auto_ids v) "")
