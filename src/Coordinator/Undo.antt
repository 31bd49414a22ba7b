-- ===== src/Coordinator/Undo.antt =====
-- `rollbackCoverage` of coverage_coordinator.go: both participants are told to roll back, whatever the
-- other one answers.
use text.Mathlib.Text.{◌==◌ as str_eq}
use route_harbor.Prelude.{
  Bool, true, false, not, ◌&&◌, ◌||◌, [], ◌∷◌, Option, none, some, if◌then◌else◌,
}
use route_harbor.Effects.{◌>>=◌, ◌>>◌, pure, raise}
use route_harbor.Coverage.{State}
use route_harbor.Coverage.Calls.{is_state}
use route_harbor.Coordinator.{
  Participant, no_participant, Entry, Reply, rolling_back, rolled_back, storage_failed, is_phase,
  with_phase, with_error, with_node, with_gateway, closed, rollback_pending,
}
use route_harbor.Coordinator.{prepare as ask_prepare, rollback as ask_rollback}
use route_harbor.Coordinator.World.{
  Env, Step, Job, ask_gateway, ask_node, store, decode_participant, settle, is_some, beside,
  node_key, gateway_key,
}

-- A participant that still has to be rolled back.
unfoldable pub owes_rollback : Participant → Bool
owes_rollback p =
    not (str_eq p.id "")
    && not (is_state p.state State.rolled_back || is_state p.state State.failed)

-- `if e == nil { entry.Node, e = decodeParticipant(result) }`, and whether there was an error.
abbrev pub decoded_of : Option Participant → Participant × Bool
decoded_of none = (no_participant, true)
decoded_of (some p) = (p, false)

unfoldable pub found_again : Participant → Option Reply → Participant × Bool
found_again old none = (old, true)
found_again old (some r) = decoded_of (decode_participant r)

-- The answer to a rollback, and whether there was an error.
unfoldable pub reverted : Participant → Option Reply → Participant × Bool
reverted old r = let s = settle old r (State.rolled_back ∷ []) in (s.0, is_some s.1)

module _ {H : Type 0} where
  unfoldable pub rollback_done : Job → Entry → Step H Entry
  rollback_done job e = do
    let e' = closed rolled_back e
    store job e' (beside e' storage_failed)
    pure e'

  unfoldable pub rollback_waiting : Job → Entry → Step H Entry
  rollback_waiting job e = do
    let e' = with_error "coverage_rollback_pending" e
    store job e' (beside e' storage_failed)
    raise (beside e' rollback_pending)

module _ {H : Type 0} (env : Env H) where
  -- A lost answer can hide the id of a participant: the same request is sent again.
  unfoldable pub find_node : Job → Entry → Step H (Participant × Bool)
  find_node job e =
      if str_eq e.node.id ""
      then (ask_node env job.peer (ask_prepare (node_key e) e.transaction.plan) >>= λ r.
          pure (found_again e.node r))
      else pure (e.node, false)

  unfoldable pub find_gateway : Entry → Step H (Participant × Bool)
  find_gateway e =
      if str_eq e.gateway.id ""
      then (ask_gateway env (ask_prepare (gateway_key e) e.transaction.gateway_plan) >>= λ r.
          pure (found_again e.gateway r))
      else pure (e.gateway, false)

  unfoldable pub revert_node : Job → Entry → Bool → Step H (Participant × Bool)
  revert_node job e node_err =
      if owes_rollback e.node
      then (ask_node env job.peer (ask_rollback e.node.id) >>= λ r. pure (reverted e.node r))
      else pure (e.node, node_err)

  unfoldable pub revert_gateway : Entry → Bool → Step H (Participant × Bool)
  revert_gateway e gateway_err =
      if owes_rollback e.gateway
      then (ask_gateway env (ask_rollback e.gateway.id) >>= λ r. pure (reverted e.gateway r))
      else pure (e.gateway, gateway_err)

  unfoldable pub undo_gateway : Job → Entry → Bool → Bool → Step H Entry
  undo_gateway job e node_err gateway_err = do
    d ← revert_gateway e gateway_err
    let e' = with_gateway d.0 e
    if node_err || d.1 then rollback_waiting job e' else rollback_done job e'

  -- The gateway is told to roll back even when the node cannot answer.
  unfoldable pub undo_node : Job → Entry → Bool → Bool → Step H Entry
  undo_node job e node_err gateway_err = do
    c ← revert_node job e node_err
    undo_gateway job (with_node c.0 e) c.1 gateway_err

  unfoldable pub seek_gateway : Job → Entry → Bool → Step H Entry
  seek_gateway job e node_err = do
    b ← find_gateway e
    undo_node job (with_gateway b.0 e) node_err b.1

  unfoldable pub seek_node : Job → Entry → Step H Entry
  seek_node job e = do a ← find_node job e; seek_gateway job (with_node a.0 e) a.1

  unfoldable pub rollback_open : Job → Entry → Step H Entry
  rollback_open job e = do
    let e' = with_phase rolling_back e
    store job e' (beside e' storage_failed)
    seek_node job e'

  -- `rollbackCoverage`
  unfoldable pub rollback : Job → Entry → Step H Entry
  rollback job e = if is_phase e.transaction.state rolled_back then pure e else rollback_open job e
