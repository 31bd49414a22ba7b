-- ===== src/Coverage.antt =====
-- internal/coverage: gateway transactions on the Wi-Fi backhaul. This file has the data of model.go
-- and its validators.
pub mod Journal
pub mod World
pub mod Calls
pub mod Manager
pub mod Dispatch
pub mod Runs
pub mod Outcomes
pub mod Undoing
pub mod Replays
pub mod History
mod Examples
use text.Mathlib.Text.{◌==◌ as str_eq}
use route_harbor.Prelude.{
  ℕ, Bool, true, false, not, ◌&&◌, ◌||◌, List, [], ◌∷◌, Option, none, some, String, ltb, leb,
  if◌then◌else◌, ◌==◌, length,
}
use route_harbor.Prelude.Text.{codes, all, between, is_alphanumeric, is_lower_hex}

pub record Plan : Type 0 where
  pub mode : String
  pub ap_section : String
  pub network : String
  pub peer_fingerprint : String
  pub adopt_existing_ap : Bool
  pub preserve_management_path : Bool

pub record WiFi : Type 0 where
  pub ssid : String
  pub passphrase : String
  pub channel : ℕ

pub record Operation : Type 0 where
  pub action : String
  pub key : String
  pub id : String
  pub plan : Option Plan
  pub timeout_seconds : ℕ

pub record AccessPoint : Type 0 where
  pub section : String
  pub network : String
  pub radio : String
  pub ssid : String
  pub channel : ℕ
  pub encryption : String
  pub candidate_modes : List String
  pub reason : String

pub record Setup : Type 0 where
  pub managed : Bool
  pub observed_at : ℕ
  pub aps : List AccessPoint
  pub reason : String

-- The states of a transaction; `unknown` is any other text.
pub data State : Type 0 where
  prepared applying applied confirmed finalized rolling_back rolled_back failed unknown : State

-- Times are nanoseconds, and 0 is the zero time.
pub record Transaction : Type 0 where
  pub id : String
  pub state : State
  pub created_at : ℕ
  pub deadline : ℕ
  pub plan : Plan
  pub error_code : String

pub data Error : Type 0 where
  unavailable invalid_journal invalid_identity invalid_state_text invalid_deadline : Error
  invalid_snapshot invalid_private_wifi mode_invalid scope_invalid peer_required : Error
  adoption_required key_required conflict busy backend_failed no_random storage_failed : Error
  not_found window_invalid invalid_state watchdog_required watchdog_unavailable : Error
  watchdog_unavailable_unsaved rolled_back_after_failure expired rollback_failed : Error
  rollback_failed_unsaved private_plan_missing settings_changed requires_resolution : Error
  fields_invalid identity_invalid unsupported : Error

abbrev pub is_fingerprint : String → Bool
is_fingerprint s = length (codes s) == 64 && all is_lower_hex (codes s)

abbrev pub is_transaction_id : String → Bool
is_transaction_id s = length (codes s) == 32 && all is_lower_hex (codes s)

abbrev is_key_char : ℕ → Bool
is_key_char c = is_alphanumeric c || (c == b'_' || (c == b'.' || c == b'-'))

abbrev pub is_request_key : String → Bool
is_request_key s = between 16 128 (length (codes s)) && all is_key_char (codes s)

abbrev starts_with_dash : List ℕ → Bool
starts_with_dash [] = false
starts_with_dash (c ∷ cs) = c == b'-'

-- internal/platform/detect.go. A valid name is ASCII, so its code points are its bytes.
unfoldable pub valid_interface_name : String → Bool
valid_interface_name s =
    between 1 15 (length (codes s))
    && not (str_eq s "." || (str_eq s ".." || starts_with_dash (codes s)))
    && all is_key_char (codes s)

unfoldable pub validate_plan : Plan → Option Error
unfolding valid_interface_name
validate_plan p =
    if not (str_eq p.mode "wds" || str_eq p.mode "mesh")
    then some mode_invalid
    else if not (valid_interface_name p.ap_section && valid_interface_name p.network)
        || (str_eq p.network "wan" || (str_eq p.network "wan6" || str_eq p.network "loopback"))
    then some scope_invalid
    else if not (is_fingerprint p.peer_fingerprint)
    then some peer_required
    else if not (p.adopt_existing_ap && p.preserve_management_path)
    then some adoption_required
    else none

abbrev has_plan : Option Plan → Bool
has_plan none = false
has_plan (some p) = true

abbrev plan_error : Option Plan → Option Error
unfolding validate_plan
plan_error none = some fields_invalid
plan_error (some p) = validate_plan p

validate_query : Operation → Option Error
validate_query o =
    if not (str_eq o.id "" && str_eq o.key "") || (has_plan o.plan || not (o.timeout_seconds == 0))
    then some fields_invalid
    else none

validate_planned : Operation → Option Error
validate_planned o =
    if not (has_plan o.plan) || (not (str_eq o.id "") || not (o.timeout_seconds == 0))
    then some fields_invalid
    else if str_eq o.action "prepare" && not (is_request_key o.key)
    then some key_required
    else if str_eq o.action "validate" && not (str_eq o.key "")
    then some fields_invalid
    else plan_error o.plan

validate_identified : Operation → Option Error
validate_identified o =
    if not (is_transaction_id o.id) || (not (str_eq o.key "") || has_plan o.plan)
    then some identity_invalid
    else if str_eq o.action "apply"
    then if between 30 180 o.timeout_seconds then none else some window_invalid
    else if str_eq o.action "validate"
        || (str_eq o.action "confirm" || (str_eq o.action "rollback" || str_eq o.action "finalize"))
    then if o.timeout_seconds == 0 then none else some fields_invalid
    else some unsupported

unfoldable pub validate_operation : Operation → Option Error
unfolding validate_query validate_planned validate_identified validate_plan valid_interface_name
validate_operation o =
    if str_eq o.action "inspect" || str_eq o.action "status"
    then validate_query o
    else if str_eq o.action "prepare" || (str_eq o.action "validate" && has_plan o.plan)
    then validate_planned o
    else validate_identified o
