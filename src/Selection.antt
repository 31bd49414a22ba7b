-- ===== src/Selection.antt =====
-- internal/selection/selector.go: the choice of an upstream path from probe measurements, with the
-- types of internal/model/model.go that it reads. This file has the data and the policy.
pub mod Tables
pub mod Settings
pub mod Cycles
pub mod Health
pub mod Choice
mod Examples
use text.Mathlib.Text.{◌==◌ as str_eq}
use route_harbor.Prelude.{
  ℕ, ◌-◌, ◌^◌, min, Bool, true, false, not, ◌&&◌, ◌||◌, List, [], Option, none, some, String, ltb,
  if◌then◌else◌,
}
use route_harbor.Prelude.Int.{ℤ, pos, negsuc, ltb_ℤ, int64_of, scale}

-- What the selector uses of `float64`; `ratio n d` is the float for the constant n/d.
pub record Floats (F : Type 0) : Type 0 where
  pub ratio : ℕ → ℕ → F
  pub plus : F → F → F
  pub times : F → F → F
  pub over : F → F → F
  pub less : F → F → Bool
  pub same : F → F → Bool
  pub finite : F → Bool

pub record Policy (F : Type 0) : Type 0 where
  pub mode : String
  pub pinned : String
  pub fallback : String
  pub improvement_percent : F
  pub confirmations : ℤ
  pub failure_confirmations : ℤ
  pub recovery_confirmations : ℤ
  pub min_dwell_seconds : ℤ
  pub cooldown_seconds : ℤ
  pub stale_after_seconds : ℤ

-- `Type` is `kind` here; `Name` and `Settings` are not read.
pub record Source : Type 0 where
  pub id : String
  pub kind : String
  pub enabled : Bool
  pub auto : Bool

pub record Target : Type 0 where
  pub id : String
  pub url : String
  pub required : Bool
  pub status_codes : List ℤ
  pub max_bytes : ℤ

pub record Resource (F : Type 0) : Type 0 where
  pub target_id : String
  pub required : Bool
  pub success : Bool
  pub latency_ms : F
  pub bytes : ℤ
  pub speed_bps : Option F

-- Times are nanoseconds, and 0 is the zero time.
pub record Measurement (F : Type 0) : Type 0 where
  pub source_id : String
  pub at : ℕ
  pub resources : List (Resource F)
  pub packet_loss : Option F

-- `unset` is the empty text of a zero value.
pub data HealthState : Type 0 where
  unset unknown stale unhealthy degraded recovering healthy : HealthState

pub record SourceHealth (F : Type 0) : Type 0 where
  pub source_id : String
  pub state : HealthState
  pub last_at : ℕ
  pub success_rate : F
  pub latency_ms : F
  pub speed_bps : Option F
  pub packet_loss : Option F
  pub consecutive_failures : ℕ
  pub consecutive_successes : ℕ
  pub resources : List (Resource F)

pub record Observation (F : Type 0) : Type 0 where
  pub health : SourceHealth F
  pub history : List (Measurement F)
  pub failed_required : ℕ
  pub full_failure : Bool
  pub needs_recovery : Bool
  pub speed_at : ℕ
  pub loss_at : ℕ

pub record Selector (F : Type 0) : Type 0 where
  pub policy : Policy F
  pub sources : List (String × Observation F)
  pub required : List String
  pub target_signature : String
  pub history_limit : ℕ
  pub selected : String
  pub selected_at : ℕ
  pub last_switch : ℕ
  pub candidate : String
  pub confirmations : ℕ
  pub candidate_at : ℕ

-- The texts of `Decision.Reason`; the numbers that some of them print are left out.
pub data Reason : Type 0 where
  disabled pinned_passed pinned_failed none_eligible initial_source replacement : Reason
  failure_unconfirmed no_superior unconfirmed dwelling cooling sustained : Reason
  direct_passed direct_unverified fallback_closed : Reason → Reason

pub record Decision : Type 0 where
  pub at : ℕ
  pub previous : String
  pub selected : String
  pub changed : Bool
  pub state : String
  pub reason : Reason

-- `a.Sub(b)`, a duration that stops at the ends of `int64`.
unfoldable pub time_sub : ℕ → ℕ → ℤ
time_sub a b =
    if ltb a b then negsuc (min (b - a - 1) (2 ^ 63 - 1)) else pos (min (a - b) (2 ^ 63 - 1))

-- `time.Duration(n) * time.Second`, which wraps around.
unfoldable pub seconds : ℤ → ℤ
seconds n = int64_of (scale n 1000000000)

abbrev at_least_or : ℤ → ℤ → ℤ → ℤ
at_least_or lo v d = if ltb_ℤ v lo then d else v

module _ {F : Type 0} (fl : Floats F) where
  unfoldable pub safe_improvement : F → F
  safe_improvement v = if not (fl.finite v) || fl.less v (fl.ratio 1 1) then fl.ratio 20 1 else v

  unfoldable pub safe_policy : Policy F → Policy F
  unfolding safe_improvement
  safe_policy p = record {
    mode = if str_eq p.mode "auto" || str_eq p.mode "manual" then p.mode else "off";
    pinned = p.pinned;
    fallback = if str_eq p.fallback "direct" then p.fallback else "closed";
    improvement_percent = safe_improvement p.improvement_percent;
    confirmations = at_least_or (pos 1) p.confirmations (pos 3);
    failure_confirmations = at_least_or (pos 1) p.failure_confirmations (pos 3);
    recovery_confirmations = at_least_or (pos 1) p.recovery_confirmations (pos 3);
    min_dwell_seconds = at_least_or (pos 0) p.min_dwell_seconds (pos 0);
    cooldown_seconds = at_least_or (pos 0) p.cooldown_seconds (pos 0);
    stale_after_seconds = at_least_or (pos 1) p.stale_after_seconds (pos 90);
  }

  -- `New`
  abbrev pub new : Policy F → Selector F
  unfolding safe_policy
  new p = record {
    policy = safe_policy p;
    sources = [];
    required = [];
    target_signature = "";
    history_limit = 32;
    selected = "";
    selected_at = 0;
    last_switch = 0;
    candidate = "";
    confirmations = 0;
    candidate_at = 0;
  }

abbrev pub clear_candidate : {F : Type 0} → Selector F → Selector F
clear_candidate s = record s { candidate = ""; confirmations = 0; candidate_at = 0 }
