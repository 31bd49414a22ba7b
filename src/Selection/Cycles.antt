-- ===== src/Selection/Cycles.antt =====
-- One cycle of measurements in selector.go: the checks of `Observe`, and what it makes of an observation.
use text.Mathlib.Text.{◌==◌ as str_eq}
use route_harbor.Prelude.{
  ℕ, suc, ◌+◌, Bool, true, false, not, ◌&&◌, ◌||◌, List, [], ◌∷◌, ◌++◌, Option, none, some, String,
  ltb, ◌==◌, if◌then◌else◌, length,
}
use route_harbor.Prelude.Int.{ℤ, pos, ltb_ℤ}
use route_harbor.Prelude.Text.{codes, byte_length}
use route_harbor.Selection.{Floats, Policy, Resource, Measurement, unknown, Observation, Selector}
use route_harbor.Selection.Tables.{mem}
use route_harbor.Selection.Settings.{trim}

module _ {F : Type 0} (fl : Floats F) where
  abbrev pub nought : F
  nought = fl.ratio 0 1

  -- A number that is finite and not negative.
  abbrev pub sane : F → Bool
  sane v = fl.finite v && not (fl.less v nought)

  abbrev pub sane_option : Option F → Bool
  sane_option none = true
  sane_option (some v) = sane v

  abbrev pub sane_loss : Option F → Bool
  sane_loss none = true
  sane_loss (some v) = sane v && not (fl.less (fl.ratio 1 1) v)

  unfoldable pub sane_resources : List String → List (Resource F) → Bool
  sane_resources seen [] = true
  sane_resources seen (r ∷ rs) =
      let rest = sane_resources (r.target_id ∷ seen) rs in
      if str_eq r.target_id ""
        || mem r.target_id seen
        || (not (sane r.latency_ms) || (ltb_ℤ r.bytes (pos 0) || not (sane_option r.speed_bps)))
      then false
      else rest

  -- The checks at the head of `Observe`.
  unfoldable pub acceptable : Measurement F → Bool
  unfolding sane_resources
  acceptable m =
      not (
        str_eq m.source_id ""
        || (ltb 64 (byte_length (codes m.source_id)) || (m.at == 0 || length m.resources == 0)))
      && (sane_resources [] m.resources && sane_loss m.packet_loss)

  pub record Tally : Type 0 where
    pub succeeded : ℕ
    pub failed : ℕ
    pub measured : ℕ
    pub latency : F
    pub speed : F

  abbrev pub no_tally : Tally
  no_tally = record { succeeded = 0; failed = 0; measured = 0; latency = nought; speed = nought }

  abbrev pub tally_speed : Option F → Tally → Tally
  tally_speed none t = t
  tally_speed (some v) t = record t { speed = fl.plus t.speed v; measured = t.measured + 1 }

  abbrev pub tally_one : List String → Resource F → Tally → Tally
  tally_one required r t =
      if r.success
      then tally_speed r.speed_bps
          (record t { succeeded = t.succeeded + 1; latency = fl.plus t.latency r.latency_ms })
      else if r.required || mem r.target_id required
      then record t { failed = t.failed + 1 }
      else t

  unfoldable pub tally : List String → List (Resource F) → Tally → Tally
  tally required [] t = t
  tally required (r ∷ rs) t = tally required rs (tally_one required r t)

  abbrev pub targets_of : List (Resource F) → List String
  targets_of [] = []
  targets_of (r ∷ rs) = r.target_id ∷ targets_of rs

  -- The required resources that the cycle does not name.
  abbrev pub count_missing : List String → List String → ℕ
  count_missing [] seen = 0
  count_missing (id ∷ ids) seen =
      let rest = count_missing ids seen in if mem id seen then rest else suc rest

  abbrev pub smooth : F → F → Bool → F
  smooth old next true = next
  smooth old next false = fl.plus (fl.times (fl.ratio 3 10) next) (fl.times (fl.ratio 7 10) old)

  abbrev pub smooth_option : Option F → F → F
  smooth_option none v = v
  smooth_option (some old) v = smooth old v false

  abbrev pub observe_loss : Option F → ℕ → Observation F → Observation F
  observe_loss none at o = o
  observe_loss (some v) at o = record o {
    health = record (o.health) { packet_loss = some (smooth_option o.health.packet_loss v) };
    loss_at = at;
  }

  abbrev pub observe_speed : Tally → ℕ → Observation F → Observation F
  observe_speed t at o =
      if ltb 0 t.measured
      then record o {
        health = record (o.health) {
          speed_bps =
              some (smooth_option o.health.speed_bps (fl.over t.speed (fl.ratio t.measured 1)));
        };
        speed_at = at;
      }
      else o

  abbrev pub observe_rates : Tally → ℕ → Observation F → Observation F
  observe_rates t total o = record o {
    health = record (o.health) {
      success_rate =
          smooth o.health.success_rate (fl.over (fl.ratio t.succeeded 1) (fl.ratio total 1))
            (o.health.last_at == 0);
      latency_ms =
          if ltb 0 t.succeeded
          then smooth o.health.latency_ms (fl.over t.latency (fl.ratio t.succeeded 1))
              (o.health.last_at == 0 || fl.same o.health.latency_ms nought)
          else o.health.latency_ms;
    };
  }

  -- `n >= c`, of a count and a limit.
  abbrev pub reaches : ℕ → ℤ → Bool
  reaches n c = not (ltb_ℤ (pos n) c)

  abbrev pub observe_failure : Policy F → Observation F → Observation F
  observe_failure p o = record o {
    health = record (o.health) {
      consecutive_failures = o.health.consecutive_failures + 1;
      consecutive_successes = 0;
    };
    needs_recovery =
        o.full_failure
        || reaches (o.health.consecutive_failures + 1) p.failure_confirmations
        || o.needs_recovery;
  }

  abbrev pub observe_success : Policy F → Observation F → Observation F
  observe_success p o = record o {
    health = record (o.health) {
      consecutive_successes = o.health.consecutive_successes + 1;
      consecutive_failures = 0;
    };
    needs_recovery =
        not (reaches (o.health.consecutive_successes + 1) p.recovery_confirmations)
        && o.needs_recovery;
  }

  abbrev pub observe_outcome : Policy F → Observation F → Observation F
  observe_outcome p o =
      if ltb 0 o.failed_required || o.full_failure then observe_failure p o else observe_success p o

  abbrev pub observe_counts : Tally → ℕ → Measurement F → Observation F → Observation F
  observe_counts t missing m o = record o {
    failed_required = t.failed + missing;
    full_failure = t.succeeded == 0;
    health = record (o.health) { last_at = m.at; resources = m.resources };
  }

  abbrev pub unseen : String → Observation F
  unseen id = record {
    health = record {
      source_id = id;
      state = unknown;
      last_at = 0;
      success_rate = nought;
      latency_ms = nought;
      speed_bps = none;
      packet_loss = none;
      consecutive_failures = 0;
      consecutive_successes = 0;
      resources = [];
    };
    history = [];
    failed_required = 0;
    full_failure = false;
    needs_recovery = false;
    speed_at = 0;
    loss_at = 0;
  }

  abbrev pub remember : ℕ → Measurement F → Observation F → Observation F
  remember limit m o = record o { history = trim limit (o.history ++ (m ∷ [])) }

  -- One complete cycle on the observation of its source.
  unfoldable pub cycle : Selector F → Measurement F → Observation F → Observation F
  unfolding tally
  cycle s m o = observe_outcome s.policy (
      observe_counts t (count_missing s.required (targets_of m.resources)) m (
        observe_loss m.packet_loss m.at (
          observe_speed t m.at
            (observe_rates t (length m.resources) (remember s.history_limit m o)))))
    where
      t : Tally
      t = tally s.required m.resources no_tally
