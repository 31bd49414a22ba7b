-- ===== src/Coordinator.antt =====
-- internal/node/coverage_coordinator.go: the gateway service runs one change of the backhaul on two
-- machines, the gateway and a coverage node. This file has its data and the checks of its journal.
pub mod World
pub mod Undo
pub mod Prepare
pub mod Commit
pub mod Service
pub mod History
pub mod Runs
pub mod Outcomes
pub mod Commitments
pub mod Site
mod Examples
use text.Mathlib.Text.{◌==◌ as str_eq}
use route_harbor.Prelude.{
  ℕ, Bool, true, false, not, ◌&&◌, ◌||◌, List, [], ◌∷◌, Option, none, some, String, leb, ◌==◌,
  if◌then◌else◌, length,
}
use route_harbor.Prelude.Text.{codes, byte_length}
use route_harbor.Coverage.{State, WiFi, is_transaction_id, is_request_key}
use route_harbor.Coverage.{Plan as GatewayPlan, Operation as GatewayOperation}
use route_harbor.Node.{Plan, Capabilities, redact_plan}

-- The states of a coordinated transaction; `unknown` is any other text.
pub data Phase : Type 0 where
  preparing prepared applying applied confirming confirmed rolling_back rolled_back unknown : Phase

-- `coverageParticipant`. The zero value has no id and an unknown state.
pub record Participant : Type 0 where
  pub id : String
  pub state : State
  pub deadline : ℕ

abbrev pub no_participant : Participant
no_participant = record { id = ""; state = State.unknown; deadline = 0 }

-- `coverageTransaction`
pub record Transaction : Type 0 where
  pub id : String
  pub node_id : String
  pub state : Phase
  pub created_at : ℕ
  pub deadline : ℕ
  pub plan : Plan
  pub gateway_plan : GatewayPlan
  pub error_code : String

-- `coverageEntry`
pub record Entry : Type 0 where
  pub transaction : Transaction
  pub key : String
  pub hash : String
  pub node : Participant
  pub gateway : Participant

-- `coverageJournal`, the entries by the node they are about. An entry that is null, a version
-- other than 1 and a text that is no journal are files that cannot be read.
abbrev pub Entries : Type 0
Entries = List (String × Entry)

-- `Record`. The time is in nanoseconds.
pub record Record : Type 0 where
  pub id : String
  pub name : String
  pub address : String
  pub fingerprint : String
  pub capabilities : Capabilities
  pub paired_at : ℕ

-- The operations that the coordinator sends, each with the fields that it sets. `P` is the plan of
-- the participant.
pub data Request (P : Type 0) : Type 0 where
  inspect status : Request P
  validate_plan : P → Request P
  validate_id : String → Request P
  prepare : String → P → Request P
  apply : String → ℕ → Request P
  confirm : String → Request P
  rollback : String → Request P
  finalize : String → Request P

-- The operation of the gateway's helper that a request is.
abbrev pub gateway_operation : Request GatewayPlan → GatewayOperation
gateway_operation inspect = record {
  action = "inspect";
  key = "";
  id = "";
  plan = none;
  timeout_seconds = 0;
}
gateway_operation status = record {
  action = "status";
  key = "";
  id = "";
  plan = none;
  timeout_seconds = 0;
}
gateway_operation (validate_plan p) = record {
  action = "validate";
  key = "";
  id = "";
  plan = some p;
  timeout_seconds = 0;
}
gateway_operation (validate_id i) = record {
  action = "validate";
  key = "";
  id = i;
  plan = none;
  timeout_seconds = 0;
}
gateway_operation (prepare k p) = record {
  action = "prepare";
  key = k;
  id = "";
  plan = some p;
  timeout_seconds = 0;
}
gateway_operation (apply i n) = record {
  action = "apply";
  key = "";
  id = i;
  plan = none;
  timeout_seconds = n;
}
gateway_operation (confirm i) = record {
  action = "confirm";
  key = "";
  id = i;
  plan = none;
  timeout_seconds = 0;
}
gateway_operation (rollback i) = record {
  action = "rollback";
  key = "";
  id = i;
  plan = none;
  timeout_seconds = 0;
}
gateway_operation (finalize i) = record {
  action = "finalize";
  key = "";
  id = i;
  plan = none;
  timeout_seconds = 0;
}

-- An answer of a participant: what `encoding/json` reads from the fields "transaction" and
-- "node_wifi" of the result, if it can.
pub record Reply : Type 0 where
  pub transaction : Option Participant
  pub node_wifi : Option WiFi

pub data Error : Type 0 where
  storage_failed journal_unreadable invalid_coverage_journal settle_before_changing_uplink : Error
  pair_transaction_id_required gateway_helper_unavailable node_not_found no_random : Error
  node_unreachable plan_and_key_required idempotency_conflict busy history_limit : Error
  gateway_plan_required plan_mismatch receipt_mismatch gateway_preflight_failed : Error
  wifi_material_unavailable plan_refused gateway_prepare_incomplete : Error
  invalid_gateway_prepare node_prepare_incomplete invalid_node_prepare : Error
  window_invalid invalid_state prepared_settings_changed apply_failed_rollback_pending : Error
  apply_failed_and_rolled_back confirmation_expired gateway_confirmation_rolled_back : Error
  gateway_confirmation_pending node_confirmation_pending node_confirmation_rolled_back : Error
  gateway_finalization_pending identity_mismatch state_mismatch rollback_pending : Error
  already_confirmed must_reconcile_before_rollback validation_failed unsupported : Error
  settle_before_unpairing : Error

-- `coverageActive`
abbrev pub is_open : Phase → Bool
is_open confirmed = false
is_open rolled_back = false
is_open _ = true

abbrev pub is_phase : Phase → Phase → Bool
is_phase preparing preparing = true
is_phase prepared prepared = true
is_phase applying applying = true
is_phase applied applied = true
is_phase confirming confirming = true
is_phase confirmed confirmed = true
is_phase rolling_back rolling_back = true
is_phase rolled_back rolled_back = true
is_phase _ _ = false

abbrev is_known : Phase → Bool
is_known unknown = false
is_known _ = true

-- `j.Entries[id]`, writing to it, and `delete`.
abbrev pub find : String → Entries → Option Entry
find id [] = none
find id ((k, e) ∷ es) = if str_eq k id then some e else find id es

abbrev pub put : String → Entry → Entries → Entries
put id e [] = (id, e) ∷ []
put id e ((k, d) ∷ es) = if str_eq k id then (k, e) ∷ es else (k, d) ∷ put id e es

abbrev pub remove : String → Entries → Entries
remove id [] = []
remove id ((k, e) ∷ es) = if str_eq k id then es else (k, e) ∷ remove id es

abbrev pub any_open : Entries → Bool
any_open [] = false
any_open ((k, e) ∷ es) = is_open e.transaction.state || any_open es

abbrev is_id_or_empty : String → Bool
is_id_or_empty s = str_eq s "" || is_transaction_id s

unfoldable pub valid_entry : String → Entry → Bool
valid_entry node_id e =
    is_transaction_id node_id
    && (str_eq e.transaction.node_id node_id
        && (is_transaction_id e.transaction.id
            && (is_request_key e.key
                && (byte_length (codes e.hash) == 64
                    && (is_id_or_empty e.node.id
                        && (is_id_or_empty e.gateway.id && is_known e.transaction.state))))))

unfoldable pub valid_entries : Entries → Bool
valid_entries [] = true
valid_entries ((k, e) ∷ es) = valid_entry k e && valid_entries es

-- The checks of `loadCoverage`.
unfoldable pub valid_journal : Entries → Bool
valid_journal es = leb (length es) 64 && valid_entries es

-- `coverageOutput`, the entry as it is shown.
abbrev pub redacted : Entry → Entry
redacted e = record e {
  transaction = record e.transaction { plan = redact_plan e.transaction.plan };
}

-- Changes of an entry.
abbrev pub with_phase : Phase → Entry → Entry
with_phase s e = record e { transaction = record e.transaction { state = s } }

abbrev pub with_error : String → Entry → Entry
with_error c e = record e { transaction = record e.transaction { error_code = c } }

abbrev pub with_node : Participant → Entry → Entry
with_node p e = record e { node = p }

abbrev pub with_gateway : Participant → Entry → Entry
with_gateway p e = record e { gateway = p }

-- `t.Deadline = time.Time{}; t.Plan.Passphrase = ""`
abbrev pub closed : Phase → Entry → Entry
closed s e = record e {
  transaction = record e.transaction {
    state = s;
    deadline = 0;
    plan = record e.transaction.plan { passphrase = "" };
  };
}
