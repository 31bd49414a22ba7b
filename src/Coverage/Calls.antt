-- ===== src/Coverage/Calls.antt =====
-- What the methods of `Manager` in transaction.go are made of: changes of a transaction and its journal,
-- the calls of the interfaces, and `checkCurrent`.
use text.Mathlib.Text.{◌==◌ as str_eq}
use route_harbor.Prelude.{
  ℕ, ◌+◌, Bool, true, false, not, ◌&&◌, ◌||◌, [], ◌∷◌, Option, none, some, String, if◌then◌else◌,
  ◌==◌,
}
use route_harbor.Coverage.{
  Plan, WiFi, Transaction, State, prepared, applying, applied, confirmed, finalized, rolling_back,
  rolled_back, failed, Error, backend_failed, no_random, private_plan_missing, settings_changed,
}
use route_harbor.Coverage.Journal.{Snapshot, Journal, active_state}
use route_harbor.Coverage.World.{
  Env, Result, ok, err, Action, ◌>>=◌, guard, or_raise, Event, armed, arm_refused, applied_plan,
  restored,
}

abbrev pub second : ℕ
second = 1000000000

abbrev pub is_state : State → State → Bool
is_state prepared prepared = true
is_state applying applying = true
is_state applied applied = true
is_state confirmed confirmed = true
is_state finalized finalized = true
is_state rolling_back rolling_back = true
is_state rolled_back rolled_back = true
is_state failed failed = true
is_state _ _ = false

abbrev pub with_transaction : Journal → Transaction → Journal
with_transaction j t = record j { transaction = some t }

abbrev pub new_transaction : String → ℕ → Plan → Transaction
new_transaction id now p = record {
  id = id;
  state = prepared;
  created_at = now;
  deadline = 0;
  plan = p;
  error_code = "";
}

abbrev pub new_journal : WiFi → Transaction → Snapshot → String → String → Journal
new_journal wifi t snapshot key hash = record {
  private_wifi = some wifi;
  transaction = some t;
  snapshot = snapshot;
  request_key = key;
  request_hash = hash;
}

-- `!active(t) || t.State == "prepared"`
abbrev pub at_rest : Transaction → Bool
at_rest t = not (active_state t.state) || is_state t.state prepared

-- `t.State = "applying"; t.Deadline = m.now().Add(timeout)`
abbrev pub applying_at : Transaction → ℕ → ℕ → Transaction
applying_at t now timeout = record t { state = applying; deadline = now + timeout }

-- `s.Snapshot = nil; s.PrivateWiFi = nil`
abbrev pub without_material : Journal → Journal
without_material j = record j { snapshot = []; private_wifi = none }

abbrev pub wifi_eq : WiFi → WiFi → Bool
wifi_eq a b = str_eq a.ssid b.ssid && (str_eq a.passphrase b.passphrase && a.channel == b.channel)

-- `t == nil || t.ID != id`
abbrev pub named : String → Option Transaction → Option Transaction
named id none = none
named id (some t) = if str_eq t.id id then some t else none

-- A save on an error path, with the errors to return when it succeeds and when it fails.
abbrev pub answer_of {ℓ} : {A : Type ℓ} → Result (Unit {0}) → Error → Error → Result A
answer_of (ok u) saved unsaved = err saved
answer_of (err e) saved unsaved = err unsaved

module _ {H A : Type 0} where
  abbrev pub answer : Action H (Unit {0}) → Error → Error → Action H A
  answer m saved unsaved w = let r = m w in (r.0, answer_of r.1 saved unsaved)

-- What a call of `Arm` leaves in the log, by whether it failed.
abbrev pub arming : Bool → String → Event
arming true id = arm_refused id
arming false id = armed id

module _ {H : Type 0} (env : Env H) where
  -- The calls of the interfaces, each an event of the log.
  unfoldable pub do_apply : Plan → Action H Bool
  do_apply p w =
      let r = env.apply w.hw p in (record w { hw = r.0; log = applied_plan p ∷ w.log }, ok r.1)

  unfoldable pub do_restore : Snapshot → Action H Bool
  do_restore s w =
      let r = env.restore w.hw s in (record w { hw = r.0; log = restored s ∷ w.log }, ok r.1)

  unfoldable pub do_arm : (H → String → H × Bool) → String → Action H Bool
  do_arm arm id w =
      let r = arm w.hw id in (record w { hw = r.0; log = arming r.1 id ∷ w.log }, ok r.1)

  unfoldable pub do_draw : Action H String
  do_draw w = let r = env.draw w.hw in or_raise r.1 no_random (record w { hw = r.0 })

  unfoldable pub do_check : Plan → Action H WiFi
  do_check p w = or_raise (env.check w.hw p) backend_failed w

  unfoldable pub do_snapshot : Plan → Action H Snapshot
  do_snapshot p w = or_raise (env.snapshot w.hw p) backend_failed w

  -- `checkCurrent`
  unfoldable pub check_current : Journal → Transaction → Action H (Unit {0})
  check_current j t = do
    expected ← or_raise j.private_wifi private_plan_missing
    w ← do_check t.plan
    guard (wifi_eq w expected) settings_changed
