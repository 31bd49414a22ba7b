-- ===== src/Coordinator/Commit.antt =====
-- `applyCoverage` and `confirmCoverage` of coverage_coordinator.go.
use text.Mathlib.Text.{◌==◌ as str_eq}
use route_harbor.Prelude.{
  ℕ, ◌+◌, ◌*◌, Bool, not, ◌&&◌, ◌||◌, [], ◌∷◌, Option, none, some, String, ltb, leb, ◌==◌,
  if◌then◌else◌,
}
use route_harbor.Prelude.Text.{between}
use route_harbor.Effects.{Result, ok, err, ◌>>=◌, ◌>>◌, pure, raise, or_raise, guard, look}
use route_harbor.Coverage.{State}
use route_harbor.Coverage.Calls.{is_state, second}
use route_harbor.Node.{Plan}
use route_harbor.Coordinator.{
  Participant, Entry, Reply, Error, prepared, applying, applied, confirming, confirmed,
  storage_failed, window_invalid, invalid_state, prepared_settings_changed,
  apply_failed_rollback_pending, apply_failed_and_rolled_back, confirmation_expired,
  gateway_confirmation_rolled_back, gateway_confirmation_pending, node_confirmation_pending,
  node_confirmation_rolled_back, gateway_finalization_pending, is_phase, with_phase, with_error,
  with_node, with_gateway, closed, status, finalize,
}
use route_harbor.Coordinator.{apply as ask_apply, confirm as ask_confirm}
use route_harbor.Coordinator.World.{
  Env, Step, Job, Failure, ask_gateway, ask_node, store, try_store, refuse, fresh,
  validate_coverage, matching, settle, is_some, beside, remaining,
}
use route_harbor.Coordinator.Undo.{rollback}

abbrev pub same_wifi : Plan → Plan → Bool
same_wifi p q = str_eq p.ssid q.ssid && (str_eq p.passphrase q.passphrase && p.channel == q.channel)

-- `entry.Transaction.State = "applying"`, and the deadline.
abbrev pub started : ℕ → ℕ → Entry → Entry
started now timeout e = record e {
  transaction = record e.transaction { state = applying; deadline = now + timeout * second };
}

-- The answer after a rollback that was tried.
abbrev pub after_apply : Result Failure Entry → Failure
after_apply (ok e) = beside e apply_failed_and_rolled_back
after_apply (err f) = record f { error = apply_failed_rollback_pending }

abbrev pub after_deadline : Result Failure Entry → Failure
after_deadline (ok e) = beside e confirmation_expired
after_deadline (err f) = record f { error = confirmation_expired }

-- What the status of the gateway says of a confirmation that failed.
unfoldable pub lost_gateway : Participant → Option Reply → Option Participant
lost_gateway p none = none
lost_gateway p (some r) =
    let s = matching r p.id (State.rolled_back ∷ State.failed ∷ []) in
    if is_some s.1 then none else some s.0

module _ {H : Type 0} (env : Env H) where
  unfoldable pub apply_broken : Job → Entry → Step H Entry
  apply_broken job e w =
      let r = rollback env job (with_error "coverage_apply_failed" e) w in
      (r.0, err (after_apply r.1))

  unfoldable pub apply_done : Job → Entry → Step H Entry
  apply_done job e = do
    let e' = with_phase applied e
    store job e' (beside e' storage_failed)
    pure e'

  unfoldable pub apply_within : Job → Entry → ℕ → Step H Entry
  apply_within job e left = do
    r ← ask_node env job.peer (ask_apply e.node.id left)
    let s = settle e.node r (State.applied ∷ [])
    if is_some s.1 then apply_broken job (with_node s.0 e) else apply_done job (with_node s.0 e)

  -- The node gets what is left of the window.
  unfoldable pub apply_node : Job → Entry → Step H Entry
  apply_node job e w =
      let left = remaining e.transaction.deadline (env.clock w.hw) in
      (if ltb left 30 then apply_broken job e else apply_within job e left) w

  unfoldable pub gateway_applied : Job → Entry → Step H Entry
  gateway_applied job e = do
    saved ← try_store job e
    if saved then apply_node job e else apply_broken job e

  unfoldable pub apply_gateway : Job → Entry → ℕ → Step H Entry
  apply_gateway job e timeout = do
    r ← ask_gateway env (ask_apply e.gateway.id timeout)
    let s = settle e.gateway r (State.applied ∷ [])
    if is_some s.1
        then apply_broken job (with_gateway s.0 e)
        else gateway_applied job (with_gateway s.0 e)

  unfoldable pub apply_prepared : Job → Entry → ℕ → Step H Entry
  apply_prepared job e timeout = do
    guard (is_phase e.transaction.state prepared) (beside e invalid_state)
    peer ← fresh env (beside e) job.id
    plans ←
        validate_coverage env (beside e) peer e.transaction.plan (some e.transaction.gateway_plan)
    guard (same_wifi plans.0 e.transaction.plan) (beside e prepared_settings_changed)
    now ← look env.clock
    let e' = started now timeout e
    store job e' (beside e' storage_failed)
    apply_gateway job e' timeout

  -- `applyCoverage`
  unfoldable pub apply : Job → Entry → ℕ → Step H Entry
  apply job e timeout = do
    guard (between 30 180 timeout) (beside e window_invalid)
    if is_phase e.transaction.state applied || is_phase e.transaction.state confirmed
        then pure e
        else apply_prepared job e timeout

  unfoldable pub confirm_done : Job → Entry → Step H Entry
  confirm_done job e = do
    let e' = with_error "" (closed confirmed e)
    store job e' (beside e' storage_failed)
    pure e'

  unfoldable pub finalize_gateway : Job → Entry → Step H Entry
  finalize_gateway job e = do
    store job e (beside e storage_failed)
    answer ← ask_gateway env (finalize e.gateway.id)
    r ← or_raise answer (beside e gateway_finalization_pending)
    let s = matching r e.gateway.id (State.confirmed ∷ State.finalized ∷ [])
    refuse (with_gateway s.0 e) s.1
    confirm_done job (with_gateway s.0 e)

  -- A participant lost its part: the other one is rolled back.
  unfoldable pub confirm_lost : Job → Entry → String → Error → Step H Entry
  confirm_lost job e code x = do e' ← rollback env job (with_error code e); raise (beside e' x)

  unfoldable pub node_confirmed : Job → Entry → Reply → Step H Entry
  node_confirmed job e r = do
    let s = matching r e.node.id (State.confirmed ∷ [])
    refuse (with_node s.0 e) s.1
    finalize_gateway job (with_node s.0 e)

  unfoldable pub node_told : Job → Entry → Step H Entry
  node_told job e =
      if is_state e.node.state State.rolled_back || is_state e.node.state State.failed
      then confirm_lost job e "node_confirmation_failed" node_confirmation_rolled_back
      else if not (is_state e.node.state State.confirmed)
      then raise (beside e node_confirmation_pending)
      else finalize_gateway job e

  -- The node may have committed although its answer was lost: it is asked for its state.
  unfoldable pub node_unconfirmed : Job → Entry → Step H Entry
  node_unconfirmed job e = do
    answer ← ask_node env job.peer status
    r ← or_raise answer (beside e node_confirmation_pending)
    let s =
        matching r e.node.id
          (State.confirmed ∷ State.rolled_back ∷ State.failed ∷ State.applied ∷ [])
    refuse e s.1
    node_told job (with_node s.0 e)

  abbrev pub node_answered : Option Reply → Job → Entry → Step H Entry
  node_answered none job e = node_unconfirmed job e
  node_answered (some r) job e = node_confirmed job e r

  unfoldable pub confirm_node : Job → Entry → Step H Entry
  confirm_node job e = do
    answer ← ask_node env job.peer (ask_confirm e.node.id)
    node_answered answer job e

  unfoldable pub gateway_confirmed : Job → Entry → Reply → Step H Entry
  gateway_confirmed job e r = do
    let s = matching r e.gateway.id (State.confirmed ∷ State.finalized ∷ [])
    refuse (with_gateway s.0 e) s.1
    store job (with_gateway s.0 e) (beside (with_gateway s.0 e) storage_failed)
    confirm_node job (with_gateway s.0 e)

  abbrev pub gateway_fate : Option Participant → Job → Entry → Step H Entry
  gateway_fate none job e = raise (beside e gateway_confirmation_pending)
  gateway_fate (some p) job e =
      confirm_lost job (with_gateway p e) "gateway_confirmation_failed"
        gateway_confirmation_rolled_back

  unfoldable pub gateway_unconfirmed : Job → Entry → Step H Entry
  gateway_unconfirmed job e = do
    answer ← ask_gateway env status
    gateway_fate (lost_gateway e.gateway answer) job e

  abbrev pub gateway_answered : Option Reply → Job → Entry → Step H Entry
  gateway_answered none job e = gateway_unconfirmed job e
  gateway_answered (some r) job e = gateway_confirmed job e r

  unfoldable pub confirm_gateway : Job → Entry → Step H Entry
  confirm_gateway job e = do
    answer ← ask_gateway env (ask_confirm e.gateway.id)
    gateway_answered answer job e

  unfoldable pub confirm_timely : Job → Entry → Step H Entry
  confirm_timely job e = do
    peer ← fresh env (beside e) job.id
    plans ←
        validate_coverage env (beside e) peer e.transaction.plan (some e.transaction.gateway_plan)
    let e' = with_phase confirming e
    store job e' (beside e' storage_failed)
    confirm_gateway job e'

  unfoldable pub confirm_late : Job → Entry → Step H Entry
  confirm_late job e w = let r = rollback env job e w in (r.0, err (after_deadline r.1))

  unfoldable pub confirm_applied : Job → Entry → Step H Entry
  confirm_applied job e = do
    now ← look env.clock
    if leb e.transaction.deadline now then confirm_late job e else confirm_timely job e

  unfoldable pub confirm_open : Job → Entry → Step H Entry
  confirm_open job e = do
    guard (is_phase e.transaction.state applied || is_phase e.transaction.state confirming)
        (beside e invalid_state)
    if is_phase e.transaction.state applied then confirm_applied job e else confirm_gateway job e

  -- `confirmCoverage`
  unfoldable pub confirm : Job → Entry → Step H Entry
  confirm job e = if is_phase e.transaction.state confirmed then pure e else confirm_open job e
