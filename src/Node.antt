-- ===== src/Node.antt =====
-- internal/node: coverage nodes. This file has the data of model.go and its validator.
pub mod Addresses
pub mod Uplinks
pub mod Transactions
mod Examples
use text.Mathlib.Text.{◌==◌ as str_eq}
use route_harbor.Prelude.{
  ℕ, Bool, true, false, not, ◌&&◌, ◌||◌, List, [], ◌∷◌, Option, none, some, String, ◌==◌,
  if◌then◌else◌, length, ◌++◌,
}
use route_harbor.Prelude.Text.{codes, all, between, byte_length}
use route_harbor.Coverage.{valid_interface_name}
use route_harbor.Coverage.Journal.{is_control}
use route_harbor.Node.Addresses.{management_prefix, is_gateway_in}

pub record Capabilities : Type 0 where
  pub open_wrt : Bool
  pub ethernet : Bool
  pub ap : Bool
  pub wds : Bool
  pub mesh : Bool
  pub encrypted_backhaul : Bool
  pub concurrent_radio : Bool
  pub gateway_backhaul_ready : Bool
  pub gateway_backhaul_managed : Bool
  pub verified_peer_fingerprint : String
  pub verified_radio : String
  pub verified_mode : String
  pub reason : String

-- The channel is a natural number: the code refuses a negative one like 0.
pub record Plan : Type 0 where
  pub name : String
  pub mode : String
  pub management_interface : String
  pub bridge_section : String
  pub bridge_device : String
  pub lan_ports : List String
  pub uplink : String
  pub ethernet_uplink : String
  pub management_address : String
  pub gateway_address : String
  pub radio : String
  pub ssid : String
  pub passphrase : String
  pub channel : ℕ
  pub share_radio : Bool
  pub dhcp_server : Bool
  pub nat : Bool
  pub router_advertisements : Bool
  pub preserve_management_path : Bool

pub data Error : Type 0 where
  verification_mismatch unsupported_mode competing_gateway management_path_required : Error
  invalid_name invalid_interface invalid_lan_ports invalid_lan_port uplink_missing : Error
  uplink_loop ethernet_uplink_required uplink_conflict invalid_management_address : Error
  invalid_gateway_address shared_radio_required invalid_wireless_settings : Error
  invalid_wireless_channel concurrent_radio_unverified wireless_radio_required : Error

abbrev pub when : Bool → String → List String
when b mode = if b then mode ∷ [] else []

unfoldable pub wireless_modes : Capabilities → Capabilities → List String
wireless_modes gateway peer =
    if gateway.encrypted_backhaul
      && (peer.encrypted_backhaul && (gateway.ap && (peer.ap && gateway.gateway_backhaul_ready)))
    then when (gateway.wds && peer.wds) "wds" ++ when (gateway.mesh && peer.mesh) "mesh"
    else []

-- `CompatibleModes`
unfoldable pub compatible_modes : Capabilities → Capabilities → List String
compatible_modes gateway peer =
    if gateway.open_wrt && peer.open_wrt
    then wireless_modes gateway peer ++ when (gateway.ethernet && peer.ethernet) "ethernet"
    else []

abbrev pub is_member : String → List String → Bool
is_member s [] = false
is_member s (t ∷ ts) = str_eq s t || is_member s ts

-- The loop over the ports: each is a name of its own, and none is `lo`.
unfoldable pub valid_ports : List String → List String → Bool
valid_ports seen [] = true
valid_ports seen (p ∷ ps) =
    (valid_interface_name p && not (is_member p seen || str_eq p "lo")) && valid_ports (p ∷ seen) ps

unfoldable pub is_wired : Plan → Bool
is_wired p = str_eq p.mode "ethernet"

abbrev pub no_control : String → Bool
no_control s = all (λ c. not (is_control c)) (codes s)

-- The name, the interfaces and the ports.
unfoldable pub validate_names : Plan → Option Error
validate_names p =
    if not (between 1 128 (byte_length (codes p.name)) && no_control p.name)
    then some invalid_name
    else if not (
        valid_interface_name p.management_interface
        && (valid_interface_name p.bridge_section
            && (valid_interface_name p.bridge_device && valid_interface_name p.uplink)))
    then some invalid_interface
    else if not (between 1 64 (length p.lan_ports))
    then some invalid_lan_ports
    else if valid_ports [] p.lan_ports
    then none
    else some invalid_lan_port

unfoldable pub validate_uplink : Plan → Option Error
validate_uplink p =
    if is_wired p && not (is_member p.uplink p.lan_ports)
    then some uplink_missing
    else if not (is_wired p) && is_member p.uplink p.lan_ports
    then some uplink_loop
    else if not (is_wired p)
        && not (valid_interface_name p.ethernet_uplink && is_member p.ethernet_uplink p.lan_ports)
    then some ethernet_uplink_required
    else if is_wired p
        && (not (str_eq p.ethernet_uplink "") && not (str_eq p.ethernet_uplink p.uplink))
    then some uplink_conflict
    else none

unfoldable pub validate_addresses : Plan → Option Error
validate_addresses p = elim (management_prefix p.management_address) [
  | none ↦ some invalid_management_address
  | some m ↦ if is_gateway_in m p.gateway_address then none else some invalid_gateway_address
]

unfoldable pub validate_radio : Plan → Capabilities → Capabilities → Option Error
validate_radio p gateway peer =
    if not (is_wired p) && not p.share_radio
    then some shared_radio_required
    else if not (
        gateway.ap
        && (peer.ap
            && (valid_interface_name p.radio
                && (between 1 32 (byte_length (codes p.ssid))
                    && (between 8 63 (byte_length (codes p.passphrase))
                        && (no_control p.ssid && no_control p.passphrase))))))
    then some invalid_wireless_settings
    else if not (between 1 233 p.channel)
    then some invalid_wireless_channel
    else if p.share_radio && not (gateway.concurrent_radio && peer.concurrent_radio)
    then some concurrent_radio_unverified
    else none

unfoldable pub validate_wireless : Plan → Capabilities → Capabilities → Option Error
validate_wireless p gateway peer =
    if not (str_eq p.radio "") || not (is_wired p)
    then validate_radio p gateway peer
    else if not (str_eq p.ssid "" && str_eq p.passphrase "") || p.share_radio
    then some wireless_radio_required
    else none

unfoldable pub or_else : Option Error → Option Error → Option Error
or_else (some e) next = some e
or_else none next = next

unfoldable pub validate_mode : Plan → Capabilities → Capabilities → Option Error
validate_mode p gateway peer =
    if not (is_wired p)
      && (not (str_eq peer.verified_radio "")
          && not (str_eq p.radio peer.verified_radio && str_eq p.mode peer.verified_mode))
    then some verification_mismatch
    else if not (is_member p.mode (compatible_modes gateway peer))
    then some unsupported_mode
    else if p.dhcp_server || (p.nat || p.router_advertisements)
    then some competing_gateway
    else if p.preserve_management_path
    then none
    else some management_path_required

-- `ValidatePlan`
unfoldable pub validate_plan : Plan → Capabilities → Capabilities → Option Error
validate_plan p gateway peer = or_else (validate_mode p gateway peer) (
    or_else (validate_names p) (
      or_else (validate_uplink p)
        (or_else (validate_addresses p) (validate_wireless p gateway peer))))

-- `RedactPlan`
abbrev pub redact_plan : Plan → Plan
redact_plan p = record p { passphrase = "" }
