-- ===== src/Coordinator/World.antt =====
-- What coverage_coordinator.go acts on: the participants, the paired nodes and the clock; and what its
-- functions are made of: calls, answers, early returns.
use Prim.Native.String.{◌++◌ as ◌+++◌}
use text.Mathlib.Text.{◌==◌ as str_eq}
use route_harbor.Prelude.{
  ℕ, ◌+◌, ◌-◌, ◌/◌, Bool, true, false, not, ◌&&◌, ◌||◌, List, [], ◌∷◌, Option, none, some, String,
  ltb, if◌then◌else◌,
}
use route_harbor.Prelude.Text.{codes, byte_length}
use route_harbor.Effects.{
  ok, err, Action, disk, pure, or_raise, call, look, ◌>>=◌, ◌>>◌, guard, save, try_save,
}
use route_harbor.Coverage.{State, is_transaction_id}
use route_harbor.Coverage.{Plan as GatewayPlan, Operation as GatewayOperation}
use route_harbor.Coverage.Calls.{is_state, second}
use route_harbor.Node.{Plan, Capabilities, validate_plan}
use route_harbor.Node as Node
use route_harbor.Coordinator.{
  Participant, no_participant, Entry, Entries, Record, Request, Reply, Error, gateway_operation,
  storage_failed, journal_unreadable, invalid_coverage_journal, node_not_found, node_unreachable,
  gateway_plan_required, plan_mismatch, receipt_mismatch, gateway_preflight_failed,
  wifi_material_unavailable, plan_refused, identity_mismatch, state_mismatch, put, valid_journal,
  validate_plan as ask_validate,
}

-- A call of a participant, with the time of the call. `visited` reads a node's capabilities.
pub data Command : Type 0 where
  gateway : ℕ → Request GatewayPlan → Command
  node : ℕ → Record → Request Plan → Command
  visited : Record → Command

-- The interface `GatewayOperator`, the pinned HTTPS requests of service.go, the registry of paired
-- nodes, the clock, the random source and the digest. `none` is an error.
pub record Env (H : Type 0) : Type 0 where
  pub managed : Bool
  pub gateway : H → GatewayOperation → H × Option Reply
  pub node : H → Record → Request Plan → H × Option Reply
  pub visit : H → Record → H × Option Capabilities
  pub capabilities : H → Capabilities
  pub records : H → String → Option Record
  pub clock : H → ℕ
  pub draw : H → H × Option String
  pub digest : Plan → Option GatewayPlan → String
  pub fingerprint : String

-- An error, with the entry that is shown beside it, if any is.
pub record Failure : Type 0 where
  pub error : Error
  pub shown : Option Entry

abbrev pub bare : Error → Failure
bare x = record { error = x; shown = none }

abbrev pub beside : Entry → Error → Failure
beside e x = record { error = x; shown = some e }

abbrev pub Step : Type 0 → Type 0 → Type 0
Step H A = Action Entries Command H Failure A

abbrev is_participant_state : State → Bool
is_participant_state State.unknown = false
is_participant_state _ = true

-- `decodeParticipant`
unfoldable pub decode_participant : Reply → Option Participant
decode_participant r = elim r.transaction [
  | none ↦ none
  | some p ↦ if is_transaction_id p.id && is_participant_state p.state then some p else none
]

abbrev pub among : State → List State → Bool
among s [] = false
among s (t ∷ ts) = is_state s t || among s ts

-- A participant, and whether there was an error.
abbrev pub Settled : Type 0
Settled = Participant × Option Error

abbrev pub only_id : String → Participant
only_id id = record no_participant { id = id }

-- `matchingParticipant`
unfoldable pub matching : Reply → String → List State → Settled
matching r id states = elim (decode_participant r) [
  | none ↦ (only_id id, some identity_mismatch)
  | some p ↦
      if not (str_eq p.id id)
      then (only_id id, some identity_mismatch)
      else if among p.state states
      then (p, none)
      else (only_id id, some state_mismatch)
]

-- `if e == nil { entry.Node, e = matchingParticipant(result, entry.Node.ID, ...) }`
unfoldable pub settle : Participant → Option Reply → List State → Settled
settle old none states = (old, some node_unreachable)
settle old (some r) states = matching r old.id states

abbrev pub is_some {ℓ} : {A : Type ℓ} → Option A → Bool
is_some none = false
is_some (some a) = true

-- `injectNodeWiFi`
unfoldable pub inject_wifi : Plan → Reply → Option Plan
inject_wifi p r = elim r.node_wifi [
  | none ↦ none
  | some w ↦
      if str_eq w.ssid "" || (ltb (byte_length (codes w.passphrase)) 8 || ltb w.channel 1)
      then none
      else some (record p { ssid = w.ssid; passphrase = w.passphrase; channel = w.channel })
]

-- The key of a participant's part of a transaction.
abbrev pub node_key : Entry → String
node_key e = e.transaction.id +++ "-node"

abbrev pub gateway_key : Entry → String
gateway_key e = e.transaction.id +++ "-gateway"

-- What is left of the window, in whole seconds, rounded up.
unfoldable pub remaining : ℕ → ℕ → ℕ
remaining deadline now = if ltb now deadline then (deadline - now + second - 1) / second else 0

-- One operation: the node, its record and the journal as it was loaded.
pub record Job : Type 0 where
  pub id : String
  pub peer : Record
  pub entries : Entries

abbrev pub with_entry : Job → Entry → Entries
with_entry job e = put job.id e job.entries

module _ {H : Type 0} where
  -- `saveCoverage`
  unfoldable pub store : Job → Entry → Failure → Step H (Unit {0})
  store job e x = save x (with_entry job e)

  unfoldable pub try_store : Job → Entry → Step H Bool
  try_store job e = try_save (bare storage_failed) (with_entry job e)

  -- `if e != nil { return e }`
  unfoldable pub refuse : Entry → Option Error → Step H (Unit {0})
  refuse e none w = (w, ok tt)
  refuse e (some x) w = (w, err (beside e x))

module _ {H : Type 0} (env : Env H) where
  unfoldable pub ask_gateway : Request GatewayPlan → Step H (Option Reply)
  ask_gateway q w = call (gateway (env.clock w.hw) q) (λ h. env.gateway h (gateway_operation q)) w

  unfoldable pub ask_node : Record → Request Plan → Step H (Option Reply)
  ask_node peer q w = call (node (env.clock w.hw) peer q) (λ h. env.node h peer q) w

  -- `node`, the record with the capabilities that the node reports now.
  unfoldable pub fresh : (Error → Failure) → String → Step H Record
  fresh fail id = do
    known ← look (λ h. env.records h id)
    peer ← or_raise known (fail node_not_found)
    found ← call (visited peer) (λ h. env.visit h peer)
    caps ← or_raise found (fail node_unreachable)
    pure (record peer { capabilities = caps })

  -- The receipts of both sides name the other one, the mode and the radio.
  abbrev pub receipts_match : Record → Plan → Capabilities → Bool
  receipts_match peer p caps =
      str_eq caps.verified_peer_fingerprint peer.fingerprint
      && (str_eq peer.capabilities.verified_peer_fingerprint env.fingerprint
          && (str_eq caps.verified_mode p.mode
              && (str_eq peer.capabilities.verified_mode p.mode
                  && (not (str_eq caps.verified_radio "")
                      && str_eq peer.capabilities.verified_radio p.radio))))

  -- The error of a plan that `ValidatePlan` refuses.
  abbrev pub accept : Option Node.Error → Plan → Option Plan
  accept none p = some p
  accept (some e) p = none

  -- `validateCoverage`
  unfoldable pub validate_coverage :
      (Error → Failure) → Record → Plan → Option GatewayPlan → Step H (Plan × GatewayPlan)
  validate_coverage fail peer p gateway_plan = do
    guard (env.managed && not (str_eq p.mode "ethernet")) (fail gateway_plan_required)
    g ← or_raise gateway_plan (fail gateway_plan_required)
    guard (str_eq g.peer_fingerprint peer.fingerprint && str_eq g.mode p.mode) (fail plan_mismatch)
    caps ← look env.capabilities
    guard (receipts_match peer p caps) (fail receipt_mismatch)
    answer ← ask_gateway (ask_validate g)
    r ← or_raise answer (fail gateway_preflight_failed)
    injected ← or_raise (inject_wifi p r) (fail wifi_material_unavailable)
    accepted ←
        or_raise
          (accept
            (validate_plan injected (record caps { gateway_backhaul_ready = true })
              peer.capabilities)
            injected)
          (fail plan_refused)
    pure (accepted, g)

  -- `loadCoverage`, and the lock before it.
  unfoldable pub load : Step H Entries
  load w =
      if w.readable
      then elim (disk w.log) [
        | none ↦ (w, ok [])
        | some es ↦
            if valid_journal es then (w, ok es) else (w, err (bare invalid_coverage_journal))
      ]
      else (w, err (bare journal_unreadable))
