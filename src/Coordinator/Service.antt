-- ===== src/Coordinator/Service.antt =====
-- The entry points of coverage_coordinator.go: `operateCoverage`, `recoverCoverage` and
-- `checkCoverageUnpair`.
use text.Mathlib.Text.{◌==◌ as str_eq}
use route_harbor.Prelude.{
  ℕ, Bool, false, not, ◌&&◌, ◌||◌, [], ◌∷◌, Option, none, some, String, leb, if◌then◌else◌,
}
use route_harbor.Effects.{Result, ok, err, ◌>>=◌, ◌>>◌, pure, raise, or_raise, guard, look, save}
use route_harbor.Coverage.{Plan as GatewayPlan}
use route_harbor.Node.{Plan, redact_plan}
use route_harbor.Coordinator.{
  Participant, Entry, Entries, Record, Reply, applying, applied, confirming, confirmed,
  rolling_back, storage_failed, settle_before_changing_uplink, pair_transaction_id_required,
  gateway_helper_unavailable, node_not_found, already_confirmed, must_reconcile_before_rollback,
  validation_failed, unsupported, settle_before_unpairing, is_open, is_phase, find, remove,
  redacted, with_node, with_gateway, inspect, status, validate_id,
}
use route_harbor.Coordinator.World.{
  Failure, Env, Step, Job, ask_gateway, ask_node, decode_participant, load, fresh,
  validate_coverage, is_some, bare, beside,
}
use route_harbor.Coordinator.Undo.{rollback}
use route_harbor.Coordinator.Prepare.{prepare}
use route_harbor.Coordinator.Commit.{apply, confirm}

-- `coverageOperation`
pub record Operation : Type 0 where
  pub action : String
  pub id : String
  pub key : String
  pub plan : Option Plan
  pub timeout_seconds : ℕ
  pub gateway_plan : Option GatewayPlan

-- What the caller gets: the request is none of the coordinator's, or an entry is shown.
pub data Answer : Type 0 where
  unhandled : Answer
  shown : Entry → Answer

abbrev wants_wireless : Option Plan → Bool
wants_wireless none = false
wants_wireless (some p) = not (str_eq p.mode "ethernet")

-- `wirelessPrepare`
unfoldable pub is_wireless_prepare : Operation → Bool
is_wireless_prepare o =
    str_eq o.action "prepare" && (is_some o.gateway_plan || wants_wireless o.plan)

-- The part of an answer that is about this participant.
unfoldable pub current_part : Participant → Option Reply → Participant
current_part p none = p
current_part p (some r) = elim (decode_participant r) [
  | none ↦ p
  | some q ↦ if str_eq q.id p.id then q else p
]

abbrev pub hidden : Option Entry → Option Entry
hidden none = none
hidden (some e) = some (redacted e)

-- Every entry that is shown goes through `coverageOutput`.
abbrev pub output_of : Result Failure Answer → Result Failure Answer
output_of (ok unhandled) = ok unhandled
output_of (ok (shown e)) = ok (shown (redacted e))
output_of (err f) = err (record f { shown = hidden f.shown })

module _ {H : Type 0} (env : Env H) where
  -- The state of both participants, as far as they answer.
  unfoldable pub show_status : Job → Entry → Step H Entry
  show_status job e = do
    setup ← ask_gateway env inspect
    g ← ask_gateway env status
    n ← ask_node env job.peer status
    pure (with_node (current_part e.node n) (with_gateway (current_part e.gateway g) e))

  unfoldable pub rollback_asked : Job → Entry → Step H Entry
  rollback_asked job e =
      if is_phase e.transaction.state confirmed
      then raise (beside e already_confirmed)
      else if is_phase e.transaction.state confirming
      then raise (beside e must_reconcile_before_rollback)
      else rollback env job e

  unfoldable pub validate : Job → Entry → Step H Entry
  validate job e = do
    g ← ask_gateway env (validate_id e.gateway.id)
    gateway_ok ← or_raise g (beside e validation_failed)
    n ← ask_node env job.peer (validate_id e.node.id)
    node_ok ← or_raise n (beside e validation_failed)
    pure e

  unfoldable pub dispatch : Job → Entry → Operation → Step H Entry
  dispatch job e o =
      if str_eq o.action "status"
      then show_status job e
      else if str_eq o.action "apply"
      then apply env job e o.timeout_seconds
      else if str_eq o.action "confirm"
      then confirm env job e
      else if str_eq o.action "rollback"
      then rollback_asked job e
      else if str_eq o.action "validate"
      then validate job e
      else raise (beside e unsupported)

  -- `pairedRecord`
  unfoldable pub paired : String → Step H Record
  paired id = do known ← look (λ h. env.records h id); or_raise known (bare node_not_found)

  abbrev pub job_of : String → Record → Entries → Job
  job_of id peer es = record { id = id; peer = peer; entries = es }

  unfoldable pub operate_known : Entries → String → Entry → Operation → Step H Answer
  operate_known es id e o = do
    guard (str_eq o.action "status" || str_eq o.id e.transaction.id)
        (bare pair_transaction_id_required)
    guard env.managed (bare gateway_helper_unavailable)
    peer ← paired id
    e' ← dispatch (job_of id peer es) e o
    pure (shown e')

  -- A settled transaction makes room for the node's own one.
  unfoldable pub forget : Entries → String → Entry → Step H Answer
  forget es id e = do
    guard (not (is_open e.transaction.state)) (bare settle_before_changing_uplink)
    save (bare storage_failed) (remove id es)
    pure unhandled

  unfoldable pub operate_wireless : Entries → String → Operation → Step H Answer
  operate_wireless es id o = do
    guard env.managed (bare gateway_helper_unavailable)
    peer ← paired id
    e ← prepare env (job_of id peer es) o.key o.plan o.gateway_plan
    pure (shown e)

  abbrev pub operate_for : Option Entry → Entries → String → Operation → Step H Answer
  operate_for none es id o = pure unhandled
  operate_for (some e) es id o =
      if str_eq o.action "prepare" then forget es id e else operate_known es id e o

  unfoldable pub operate_locked : String → Operation → Step H Answer
  operate_locked id o = do
    es ← load env
    if is_wireless_prepare o then operate_wireless es id o else operate_for (find id es) es id o

  -- `operateCoverage`. The entry beside an error is `Failure.shown`.
  unfoldable pub operate : String → Operation → Step H Answer
  operate id o w = let r = operate_locked id o w in (r.0, output_of r.1)

  -- `planCoverage`
  unfoldable pub plan_coverage : String → Plan → Option GatewayPlan → Step H (Plan × GatewayPlan)
  plan_coverage id p g = do
    peer ← fresh env bare id
    plans ← validate_coverage env bare peer p g
    pure (redact_plan plans.0, plans.1)

  unfoldable pub recover_entry : Job → Entry → Step H Entry
  recover_entry job e =
      if is_phase e.transaction.state confirming then confirm env job e else rollback env job e

  -- What the loop returns at: a step that was promised, or a window that has run out.
  unfoldable pub is_due : ℕ → Entry → Bool
  is_due now e =
      (is_phase e.transaction.state confirming || is_phase e.transaction.state rolling_back)
      || ((is_phase e.transaction.state applying || is_phase e.transaction.state applied)
          && leb e.transaction.deadline now)

  unfoldable pub recover_open : Entries → String → Entry → Step H (Unit {0}) → Step H (Unit {0})
  recover_open es id e later = do
    peer ← paired id
    now ← look env.clock
    if is_due now e then recover_entry (job_of id peer es) e >> pure tt else later

  -- One round of the loop; `later` are the rounds after it.
  abbrev pub recover_round : Option Entry → Entries → String → Step H (Unit {0}) → Step H (Unit {0})
  recover_round none es id later = later
  recover_round (some e) es id later =
      if is_open e.transaction.state then recover_open es id e later else later

  -- The loop over the entries of the journal, by their keys.
  unfoldable pub recover_loop : Entries → Entries → Step H (Unit {0})
  recover_loop es [] = pure tt
  recover_loop es ((id, e) ∷ rest) = recover_round (find id es) es id (recover_loop es rest)

  -- `recoverCoverage`
  unfoldable pub recover : Step H (Unit {0})
  recover = do es ← load env; recover_loop es es

  abbrev pub check_found : Option Entry → Step H (Unit {0})
  check_found none = pure tt
  check_found (some e) = guard (not (is_open e.transaction.state)) (bare settle_before_unpairing)

  -- `checkCoverageUnpair`
  unfoldable pub check_unpair : String → Step H (Unit {0})
  check_unpair id = do es ← load env; check_found (find id es)
