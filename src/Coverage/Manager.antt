-- ===== src/Coverage/Manager.antt =====
-- The methods of `Manager` in internal/coverage/transaction.go.
pub mod Rules
pub mod Histories
pub mod Methods
pub mod Entries
pub mod Requests
use text.Mathlib.Text.{◌==◌ as str_eq}
use route_harbor.Prelude.{
  ℕ, ◌+◌, ◌*◌, Bool, true, false, not, ◌&&◌, ◌||◌, List, [], ◌∷◌, Option, none, some, String, ltb,
  leb, if◌then◌else◌, ◌==◌,
}
use route_harbor.Prelude.Text.{between}
use route_harbor.Coverage.{
  Plan, WiFi, Transaction, State, prepared, applying, applied, confirmed, finalized, rolling_back,
  rolled_back, failed, Error, backend_failed, no_random, conflict, busy, invalid_journal, not_found,
  window_invalid, invalid_state, watchdog_required, watchdog_unavailable,
  watchdog_unavailable_unsaved, rolled_back_after_failure, expired, rollback_failed,
  rollback_failed_unsaved, private_plan_missing, settings_changed, requires_resolution,
  key_required, is_request_key, validate_plan,
}
use route_harbor.Coverage.Journal.{
  Snapshot, Journal, validate_prepared, active_state, holds_material, occupied,
}
use route_harbor.Coverage.World.{
  World, Env, Result, ok, err, Action, pure, raise, ◌>>=◌, ◌>>◌, guard, or_raise, refuse, clock,
  save, load, Event, armed, applied_plan, restored, continue,
}
use route_harbor.Coverage.Calls.{
  answer, applying_at, at_rest, check_current, do_apply, do_arm, do_check, do_draw, do_restore,
  do_snapshot, is_state, named, new_journal, new_transaction, second, with_transaction,
  without_material,
}

module _ {H : Type 0} (env : Env H) where
  -- `rollback`. `t` is the transaction with what the caller changed in memory.
  unfoldable pub rollback_failure : Journal → Transaction → Action H Transaction
  rollback_failure j t =
      answer (save (with_transaction j (record t { error_code = "rollback_failed" })))
        rollback_failed rollback_failed_unsaved

  unfoldable pub rollback_success : Journal → Transaction → Action H Transaction
  rollback_success j t = do
    let t' = record t { state = rolled_back; deadline = 0 }
    save (without_material (with_transaction j t'))
    pure t'

  unfoldable pub rollback : Journal → Transaction → Action H Transaction
  rollback j t = do
    let t' = record t { state = rolling_back }
    save (with_transaction j t')
    broken ← do_restore env j.snapshot
    if broken then rollback_failure j t' else rollback_success j t'

  unfoldable pub replay : Journal → Plan → Action H Transaction
  replay j p = do
    guard (str_eq j.request_hash (env.digest p)) conflict
    or_raise j.transaction invalid_journal

  unfoldable pub begin : Journal → String → Plan → Action H Transaction
  begin j key p = do
    guard (not (occupied j.transaction)) busy
    wifi ← do_check env p
    snapshot ← do_snapshot env p
    refuse (validate_prepared env.decode snapshot p (some wifi))
    id ← do_draw env
    now ← clock
    let t = new_transaction id now p
    save (new_journal wifi t snapshot key (env.digest p))
    pure t

  -- `Prepare`
  unfoldable pub prepare : String → Plan → Action H Transaction
  prepare key p = do
    refuse (validate_plan p)
    guard (is_request_key key) key_required
    j ← load env
    if str_eq j.request_key key then replay j p else begin j key p

  -- `Validate`
  unfoldable pub validate : String → Action H Transaction
  validate id = do
    j ← load env
    t ← or_raise (named id j.transaction) not_found
    check_current env j t
    pure t

  unfoldable pub apply_failure : Journal → Transaction → Action H Transaction
  apply_failure j t = do
    rollback j (record t { error_code = "apply_failed" })
    raise rolled_back_after_failure

  unfoldable pub apply_success : Journal → Transaction → Action H Transaction
  apply_success j t = do
    let t' = record t { state = applied }
    save (with_transaction j t')
    pure t'

  unfoldable pub arm_failure : Journal → Transaction → Action H Transaction
  arm_failure j t =
      answer
        (save (
          without_material (
            with_transaction j (record t { state = failed; error_code = "watchdog_unavailable" }))))
        watchdog_unavailable watchdog_unavailable_unsaved

  unfoldable pub apply_armed : Journal → Transaction → Action H Transaction
  apply_armed j t = do
    broken ← do_apply env t.plan
    if broken then apply_failure j t else apply_success j t

  unfoldable pub apply_prepared : Journal → Transaction → ℕ → Action H Transaction
  apply_prepared j t timeout = do
    guard (is_state t.state prepared) invalid_state
    check_current env j t
    arm ← or_raise env.arm watchdog_required
    now ← clock
    let t' = applying_at t now timeout
    save (with_transaction j t')
    unarmed ← do_arm env arm t'.id
    if unarmed then arm_failure j t' else apply_armed j t'

  -- `Apply`; the window is in nanoseconds.
  unfoldable pub apply : String → ℕ → Action H Transaction
  apply id timeout = do
    guard (between (30 * second) (180 * second) timeout) window_invalid
    j ← load env
    t ← or_raise (named id j.transaction) not_found
    if is_state t.state applied || is_state t.state confirmed
        then pure t
        else apply_prepared j t timeout

  unfoldable pub confirm_late : Journal → Transaction → Action H Transaction
  confirm_late j t = do rollback j t; raise expired

  unfoldable pub confirm_timely : Journal → Transaction → Action H Transaction
  confirm_timely j t = do
    check_current env j t
    let t' = record t { state = confirmed; deadline = 0 }
    save (with_transaction j t')
    pure t'

  unfoldable pub confirm_applied : Journal → Transaction → Action H Transaction
  confirm_applied j t = do
    guard (is_state t.state applied) invalid_state
    now ← clock
    if leb t.deadline now then confirm_late j t else confirm_timely j t

  -- `Confirm`
  unfoldable pub confirm : String → Action H Transaction
  confirm id = do
    j ← load env
    t ← or_raise (named id j.transaction) not_found
    if is_state t.state confirmed || is_state t.state finalized then pure t else confirm_applied j t

  unfoldable pub cancel : Journal → Transaction → Action H Transaction
  cancel j t = do
    let t' = record t { state = rolled_back }
    save (without_material (with_transaction j t'))
    pure t'

  unfoldable pub rollback_open : Journal → Transaction → Action H Transaction
  rollback_open j t = do
    guard (not (is_state t.state finalized || is_state t.state failed)) invalid_state
    if is_state t.state prepared then cancel j t else rollback j t

  -- `Rollback`
  unfoldable pub rollback_named : String → Action H Transaction
  rollback_named id = do
    j ← load env
    t ← or_raise (named id j.transaction) not_found
    if is_state t.state rolled_back then pure t else rollback_open j t

  unfoldable pub recover_late : Journal → Transaction → Action H Bool
  recover_late j t = do rollback j t; pure true

  unfoldable pub recover_due : Journal → Transaction → ℕ → Action H Bool
  recover_due j t now =
      if is_state t.state rolling_back || (not (t.deadline == 0) && leb t.deadline now)
      then recover_late j t
      else pure false

  unfoldable pub recover_transaction : Journal → Transaction → Action H Bool
  recover_transaction j t = do now ← clock; if at_rest t then pure true else recover_due j t now

  unfoldable pub recover_found : Journal → Option Transaction → Action H Bool
  recover_found j none = pure true
  recover_found j (some t) = recover_transaction j t

  -- `Recover`
  unfoldable pub recover : Action H Bool
  recover = do j ← load env; recover_found j j.transaction

  unfoldable pub finalize_confirmed : Journal → Transaction → Action H Transaction
  finalize_confirmed j t = do
    guard (is_state t.state confirmed) invalid_state
    let t' = record t { state = finalized }
    save (without_material (with_transaction j t'))
    pure t'

  -- `Finalize`
  unfoldable pub finalize : String → Action H Transaction
  finalize id = do
    j ← load env
    t ← or_raise (named id j.transaction) not_found
    if is_state t.state finalized then pure t else finalize_confirmed j t

  unfoldable pub arm_again : Transaction → Action H (Unit {0})
  arm_again t = do
    arm ← or_raise env.arm watchdog_required
    unarmed ← do_arm env arm t.id
    guard (not unarmed) watchdog_unavailable

  unfoldable pub resume_found : Option Transaction → Action H (Unit {0})
  resume_found none = pure tt
  resume_found (some t) = if at_rest t then pure tt else arm_again t

  -- `Resume`
  unfoldable pub resume : Action H (Unit {0})
  resume = do j ← load env; resume_found j.transaction

  -- `CanRemove`
  unfoldable pub can_remove : Action H (Unit {0})
  can_remove = do j ← load env; guard (not (occupied j.transaction)) requires_resolution

  -- `Status`
  unfoldable pub status : Action H (Option Transaction)
  status = do j ← load env; pure j.transaction

  -- `material`
  unfoldable pub material : String → Action H WiFi
  material id = do
    j ← load env
    t ← or_raise (named id j.transaction) private_plan_missing
    or_raise j.private_wifi private_plan_missing
