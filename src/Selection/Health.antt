-- ===== src/Selection/Health.antt =====
-- `Observe`, the health of a source and `History` of selector.go.
pub mod Policies
pub mod Histories
pub mod Repeats
use text.Mathlib.Text.{◌==◌ as str_eq}
use route_harbor.Prelude.{
  ℕ, zero, suc, ◌+◌, ◌-◌, ◌*◌, Bool, true, false, not, ◌&&◌, ◌||◌, List, [], ◌∷◌, ◌++◌, Option,
  none, some, String, ltb, leb, ◌==◌, if◌then◌else◌, length, drop,
}
use route_harbor.Prelude.Int.{ℤ, pos, negsuc, ltb_ℤ, int64_of, scale}
use route_harbor.Prelude.Text.{codes, byte_length}
use route_harbor.Selection.{
  Floats, Policy, Target, Resource, Measurement, HealthState, unset, unknown, stale, unhealthy,
  degraded, recovering, healthy, SourceHealth, Observation, Selector, time_sub, seconds,
  safe_policy, clear_candidate,
}
use route_harbor.Selection.Tables.{lookup, put, map_values, mem}
use route_harbor.Selection.Cycles.{acceptable, cycle, unseen, reaches}

module _ {F : Type 0} (fl : Floats F) where
  abbrev with_source : Selector F → String → Observation F → Selector F
  with_source s id o = record s { sources = put id o s.sources }

  abbrev observe_on : Option (Observation F) → Selector F → Measurement F → Selector F
  unfolding cycle
  observe_on none s m = with_source s m.source_id (cycle fl s m (unseen fl m.source_id))
  observe_on (some o) s m =
      if ltb o.health.last_at m.at then with_source s m.source_id (cycle fl s m o) else s

  -- `Observe`
  unfoldable pub observe : Selector F → Measurement F → Selector F
  unfolding acceptable cycle
  observe s m =
      let next = observe_on (lookup m.source_id s.sources) s m in
      if acceptable fl m then next else s

  unfoldable pub state_at : Policy F → Observation F → ℕ → HealthState
  unfolding time_sub seconds
  state_at p o now =
      if ltb now o.health.last_at
      then unknown
      else if ltb_ℤ (seconds p.stale_after_seconds) (time_sub now o.health.last_at)
      then stale
      else if o.full_failure || reaches fl o.health.consecutive_failures p.failure_confirmations
      then unhealthy
      else if ltb 0 o.failed_required
      then degraded
      else if o.needs_recovery
      then recovering
      else healthy

  abbrev longer : ℤ → ℤ → ℤ
  longer a b = if ltb_ℤ a b then b else a

  -- `time.Duration(p.StaleAfterSeconds)*10*time.Second`, at least five minutes.
  abbrev metric_ttl : Policy F → ℤ
  unfolding seconds
  metric_ttl p = longer (seconds (int64_of (scale p.stale_after_seconds 10))) (pos 300000000000)

  abbrev keep_until : ℤ → ℕ → ℕ → Option F → Option F
  unfolding time_sub
  keep_until ttl now at v = if ltb_ℤ ttl (time_sub now at) then none else v

  -- `health`
  unfoldable pub health_at : Policy F → Observation F → ℕ → SourceHealth F
  unfolding state_at time_sub seconds
  health_at p o now = record (o.health) {
    state = state_at p o now;
    speed_bps = keep_until (metric_ttl p) now o.speed_at o.health.speed_bps;
    packet_loss = keep_until (seconds p.stale_after_seconds) now o.loss_at o.health.packet_loss;
  }

  -- `History`
  abbrev pub history_of : String → Selector F → List (Measurement F)
  history_of id s = elim (lookup id s.sources) [ none ↦ [] | some o ↦ o.history ]
