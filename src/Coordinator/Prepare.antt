-- ===== src/Coordinator/Prepare.antt =====
-- `prepareCoverage` of coverage_coordinator.go: the gateway is prepared first, then the node.
use text.Mathlib.Text.{◌==◌ as str_eq}
use route_harbor.Prelude.{ℕ, not, ◌||◌, Option, none, some, String, ltb, if◌then◌else◌, length}
use route_harbor.Effects.{◌>>=◌, ◌>>◌, pure, or_raise, guard, look}
use route_harbor.Coverage.{State, is_request_key}
use route_harbor.Coverage.{Plan as GatewayPlan}
use route_harbor.Coverage.Calls.{is_state}
use route_harbor.Node.{Plan}
use route_harbor.Coordinator.{
  Participant, no_participant, Entry, Reply, preparing, prepared, storage_failed, no_random,
  idempotency_conflict, busy, history_limit, wifi_material_unavailable, gateway_prepare_incomplete,
  invalid_gateway_prepare, node_prepare_incomplete, invalid_node_prepare, plan_and_key_required,
  is_phase, any_open, find, with_phase, with_error, with_node, with_gateway,
}
use route_harbor.Coordinator.{prepare as ask_prepare}
use route_harbor.Coordinator.World.{
  Env, Step, Job, ask_gateway, ask_node, store, fresh, validate_coverage, inject_wifi,
  decode_participant, is_some, bare, beside, node_key, gateway_key,
}

abbrev pub with_plan : Plan → Entry → Entry
with_plan p e = record e { transaction = record e.transaction { plan = p } }

abbrev pub new_entry : String → String → String → String → ℕ → Plan → GatewayPlan → Entry
new_entry node_id key hash id now p g = record {
  transaction = record {
    id = id;
    node_id = node_id;
    state = preparing;
    created_at = now;
    deadline = 0;
    plan = p;
    gateway_plan = g;
    error_code = "";
  };
  key = key;
  hash = hash;
  node = no_participant;
  gateway = no_participant;
}

-- `participant, err := decodeParticipant(result); err != nil || participant.State != "prepared"`
unfoldable pub prepared_participant : Reply → Option Participant
prepared_participant r = elim (decode_participant r) [
  | none ↦ none
  | some p ↦ if is_state p.state State.prepared then some p else none
]

module _ {H : Type 0} (env : Env H) where
  unfoldable pub finish_prepare : Job → Entry → Step H Entry
  finish_prepare job e = do
    let e' = with_error "" (with_phase prepared e)
    store job e' (bare storage_failed)
    pure e'

  unfoldable pub prepare_node : Job → Entry → Step H Entry
  prepare_node job e = do
    answer ← ask_node env job.peer (ask_prepare (node_key e) e.transaction.plan)
    r ← or_raise answer (beside e node_prepare_incomplete)
    p ← or_raise (prepared_participant r) (beside e invalid_node_prepare)
    finish_prepare job (with_node p e)

  unfoldable pub node_part : Job → Entry → Step H Entry
  node_part job e = if str_eq e.node.id "" then prepare_node job e else finish_prepare job e

  unfoldable pub prepare_gateway : Job → Entry → Step H Entry
  prepare_gateway job e = do
    answer ← ask_gateway env (ask_prepare (gateway_key e) e.transaction.gateway_plan)
    r ← or_raise answer (beside e gateway_prepare_incomplete)
    p ← or_raise (prepared_participant r) (beside e invalid_gateway_prepare)
    plan ← or_raise (inject_wifi e.transaction.plan r) (beside e wifi_material_unavailable)
    let e' = with_plan plan (with_gateway p e)
    store job e' (bare storage_failed)
    node_part job e'

  unfoldable pub prepare_parts : Job → Entry → Step H Entry
  prepare_parts job e = if str_eq e.gateway.id "" then prepare_gateway job e else node_part job e

  unfoldable pub prepare_repeated : Job → Entry → String → Step H Entry
  prepare_repeated job e hash = do
    guard (str_eq e.hash hash) (bare idempotency_conflict)
    if is_phase e.transaction.state preparing then prepare_parts job e else pure e

  unfoldable pub draw : Step H (Option String)
  draw w = let r = env.draw w.hw in pure r.1 (record w { hw = r.0 })

  unfoldable pub prepare_new : Job → String → String → Plan → Option GatewayPlan → Step H Entry
  prepare_new job key hash p g = do
    guard (not (any_open job.entries)) (bare busy)
    guard (is_some (find job.id job.entries) || ltb (length job.entries) 64) (bare history_limit)
    peer ← fresh env bare job.id
    plans ← validate_coverage env bare peer p g
    drawn ← draw
    id ← or_raise drawn (bare no_random)
    now ← look env.clock
    let e = new_entry job.id key hash id now plans.0 plans.1
    store job e (bare storage_failed)
    prepare_parts job e

  abbrev pub prepare_for :
      Option Entry → Job → String → String → Plan → Option GatewayPlan → Step H Entry
  prepare_for none job key hash p g = prepare_new job key hash p g
  prepare_for (some e) job key hash p g =
      if str_eq e.key key then prepare_repeated job e hash else prepare_new job key hash p g

  -- `prepareCoverage`
  unfoldable pub prepare : Job → String → Option Plan → Option GatewayPlan → Step H Entry
  prepare job key plan g = do
    p ← or_raise plan (bare plan_and_key_required)
    guard (is_request_key key) (bare plan_and_key_required)
    prepare_for (find job.id job.entries) job key (env.digest p g) p g
