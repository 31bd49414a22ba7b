-- ===== src/Node/Transactions/Manager.antt =====
-- The methods of `Manager` in internal/node/transaction.go, and `LocalOperator` in protocol.go.
use text.Mathlib.Text.{◌==◌ as str_eq}
use route_harbor.Prelude.{
  ℕ, ◌+◌, ◌*◌, Bool, true, false, not, ◌&&◌, ◌||◌, [], Option, none, some, String, leb, ◌==◌,
  if◌then◌else◌,
}
use route_harbor.Prelude.Text.{between}
use route_harbor.Effects.{
  Result, ok, err, pure, or_raise, call, call_noted, look, ◌>>=◌, ◌>>◌, guard, save,
}
use route_harbor.Coverage.{
  State, prepared, applying, applied, confirmed, rolling_back, rolled_back, failed, is_request_key,
}
use route_harbor.Coverage.Journal.{active_state}
use route_harbor.Coverage.Calls.{is_state, second}
use route_harbor.Node.{Plan, redact_plan}
use route_harbor.Node.Transactions.{
  Transaction, Journal, Error, Env, Failure, Step, storage_failed, key_required, conflict,
  invalid_journal, invalid_snapshot, busy, check_failed, snapshot_failed, no_random, not_found,
  window_invalid, invalid_state, watchdog_required, watchdog_unavailable,
  watchdog_unavailable_unsaved, apply_failed_and_rolled_back, confirmation_expired, rollback_failed,
  rollback_failed_unsaved, armed, arm_refused, Command, applied_plan, restored, bare, load,
  is_active, valid_snapshot,
}

abbrev pub with_transaction : Journal → Transaction → Journal
with_transaction j t = record j { transaction = some t }

-- `s.Snapshot = nil`, and `t.Plan.Passphrase = ""`.
abbrev pub settled : Journal → Transaction → Journal
settled j t = record j { transaction = some t; snapshot = [] }

abbrev pub closed : State → Transaction → Transaction
closed s t = record t { state = s; deadline = 0; plan = redact_plan t.plan }

-- `publicTransaction`
abbrev pub public : Transaction → Transaction
public t = record t { plan = redact_plan t.plan }

abbrev pub named : String → Option Transaction → Option Transaction
named id none = none
named id (some t) = if str_eq t.id id then some t else none

abbrev pub new_transaction : String → ℕ → Plan → Transaction
new_transaction id now p = record {
  id = id;
  state = prepared;
  created_at = now;
  deadline = 0;
  plan = p;
  error_code = "";
}

-- A save on an error path, with the errors to return when it succeeds and when it fails.
abbrev pub verdict : Error → Error → Result Failure (Unit {0}) → Result Failure Transaction
verdict saved unsaved (ok u) = err (bare saved)
verdict saved unsaved (err f) = err (bare unsaved)

module _ {H : Type 0} where
  -- `save`
  unfoldable pub store : Journal → Step H (Unit {0})
  store j = save (bare storage_failed) j

  unfoldable pub save_then : Journal → Error → Error → Step H Transaction
  save_then j saved unsaved w =
      let r = save (bare storage_failed) j w in (r.0, verdict saved unsaved r.1)

-- The event of a call of `Arm`, by whether it failed.
abbrev pub arming : String → Bool → Command
arming id true = arm_refused id
arming id false = armed id

-- What `Apply` returns after a rollback.
abbrev pub after_apply : Result Failure Transaction → Result Failure Transaction
after_apply (ok t) = err (record { error = apply_failed_and_rolled_back; shown = some (public t) })
after_apply (err f) = err f

abbrev pub after_deadline : Result Failure Transaction → Result Failure Transaction
after_deadline (ok t) = err (bare confirmation_expired)
after_deadline (err f) = err f

module _ {H : Type 0} (env : Env H) where
  -- `rollback`. `t` is the transaction with what the caller changed in memory.
  unfoldable pub rollback_success : Journal → Transaction → Step H Transaction
  rollback_success j t = do let t' = closed rolled_back t; store (settled j t'); pure t'

  unfoldable pub rollback_failure : Journal → Transaction → Step H Transaction
  rollback_failure j t =
      save_then (with_transaction j (record t { error_code = "rollback_failed" })) rollback_failed
        rollback_failed_unsaved

  unfoldable pub rollback : Journal → Transaction → Step H Transaction
  rollback j t = do
    let t' = record t { state = rolling_back }
    store (with_transaction j t')
    broken ← call (restored j.snapshot t'.plan) (λ h. env.restore h j.snapshot t'.plan)
    if broken then rollback_failure j t' else rollback_success j t'

  unfoldable pub check : Plan → Step H (Unit {0})
  check p = do passed ← look (λ h. env.check h p); guard passed (bare check_failed)

  unfoldable pub replay : Journal → Plan → Step H Transaction
  replay j p = do
    guard (str_eq j.request_hash (env.digest p)) (bare conflict)
    t ← or_raise j.transaction (bare invalid_journal)
    pure (public t)

  unfoldable pub draw : Step H (Option String)
  draw w = let r = env.draw w.hw in pure r.1 (record w { hw = r.0 })

  unfoldable pub begin : Journal → String → Plan → Step H Transaction
  begin j key p = do
    guard (not (is_active j.transaction)) (bare busy)
    check p
    taken ← look env.snapshot
    snapshot ← or_raise taken (bare snapshot_failed)
    guard (valid_snapshot snapshot) (bare invalid_snapshot)
    drawn ← draw
    id ← or_raise drawn (bare no_random)
    now ← look env.clock
    let t = new_transaction id now p
    store (record {
      transaction = some t;
      snapshot = snapshot;
      request_key = key;
      request_hash = env.digest p;
    })
    pure (public t)

  -- `Prepare`
  unfoldable pub prepare : String → Plan → Step H Transaction
  prepare key p = do
    guard (is_request_key key) (bare key_required)
    j ← load
    if str_eq j.request_key key then replay j p else begin j key p

  -- `Validate`
  unfoldable pub validate : String → Step H Transaction
  validate id = do
    j ← load
    t ← or_raise (named id j.transaction) (bare not_found)
    check t.plan
    pure (public t)

  unfoldable pub apply_failure : Journal → Transaction → Step H Transaction
  apply_failure j t w =
      let r = rollback j (record t { error_code = "apply_failed" }) w in (r.0, after_apply r.1)

  unfoldable pub apply_success : Journal → Transaction → Step H Transaction
  apply_success j t = do
    let t' = record t { state = applied }
    store (with_transaction j t')
    pure (public t')

  unfoldable pub arm_failure : Journal → Transaction → Step H Transaction
  arm_failure j t =
      save_then
        (with_transaction j (record t { state = failed; error_code = "watchdog_unavailable" }))
        watchdog_unavailable watchdog_unavailable_unsaved

  unfoldable pub apply_armed : Journal → Transaction → Step H Transaction
  apply_armed j t = do
    broken ← call (applied_plan t.plan) (λ h. env.apply h t.plan)
    if broken then apply_failure j t else apply_success j t

  unfoldable pub apply_prepared : Journal → Transaction → ℕ → Step H Transaction
  apply_prepared j t timeout = do
    guard (is_state t.state prepared) (bare invalid_state)
    check t.plan
    arm ← or_raise env.arm (bare watchdog_required)
    now ← look env.clock
    let t' = record t { state = applying; deadline = now + timeout }
    store (with_transaction j t')
    unarmed ← call_noted (arming t'.id) (λ h. arm h t'.id)
    if unarmed then arm_failure j t' else apply_armed j t'

  -- `Apply`; the window is in nanoseconds.
  unfoldable pub apply : String → ℕ → Step H Transaction
  apply id timeout = do
    guard (between (30 * second) (180 * second) timeout) (bare window_invalid)
    j ← load
    t ← or_raise (named id j.transaction) (bare not_found)
    if is_state t.state applied || is_state t.state confirmed
        then pure (public t)
        else apply_prepared j t timeout

  unfoldable pub confirm_late : Journal → Transaction → Step H Transaction
  confirm_late j t w = let r = rollback j t w in (r.0, after_deadline r.1)

  unfoldable pub confirm_timely : Journal → Transaction → Step H Transaction
  confirm_timely j t = do
    check t.plan
    let t' = closed confirmed t
    store (settled j t')
    pure (public t')

  unfoldable pub confirm_applied : Journal → Transaction → Step H Transaction
  confirm_applied j t = do
    guard (is_state t.state applied) (bare invalid_state)
    now ← look env.clock
    if leb t.deadline now then confirm_late j t else confirm_timely j t

  -- `Confirm`
  unfoldable pub confirm : String → Step H Transaction
  confirm id = do
    j ← load
    t ← or_raise (named id j.transaction) (bare not_found)
    if is_state t.state confirmed then pure (public t) else confirm_applied j t

  unfoldable pub cancel : Journal → Transaction → Step H Transaction
  cancel j t = do
    let t' = record t { state = rolled_back; plan = redact_plan t.plan }
    store (settled j t')
    pure (public t')

  unfoldable pub undo : Journal → Transaction → Step H Transaction
  undo j t = do t' ← rollback j t; pure (public t')

  unfoldable pub rollback_open : Journal → Transaction → Step H Transaction
  rollback_open j t = do
    guard (not (is_state t.state confirmed || is_state t.state failed)) (bare invalid_state)
    if is_state t.state prepared then cancel j t else undo j t

  -- `Rollback`
  unfoldable pub rollback_named : String → Step H Transaction
  rollback_named id = do
    j ← load
    t ← or_raise (named id j.transaction) (bare not_found)
    if is_state t.state rolled_back then pure (public t) else rollback_open j t

  unfoldable pub is_overdue : ℕ → Transaction → Bool
  is_overdue now t = is_state t.state rolling_back || (not (t.deadline == 0) && leb t.deadline now)

  unfoldable pub recover_open : Journal → Transaction → Step H Bool
  recover_open j t = do
    now ← look env.clock
    if is_overdue now t then rollback j t >> pure true else pure false

  abbrev pub recover_found : Journal → Option Transaction → Step H Bool
  recover_found j none = pure true
  recover_found j (some t) =
      if not (active_state t.state) || is_state t.state prepared
      then pure true
      else recover_open j t

  -- `Recover`
  unfoldable pub recover : Step H Bool
  recover = do j ← load; recover_found j j.transaction

  abbrev public_of : Option Transaction → Option Transaction
  public_of none = none
  public_of (some t) = some (public t)

  -- `Status`
  unfoldable pub status : Step H (Option Transaction)
  status = do j ← load; pure (public_of j.transaction)
