-- ===== src/Node/Examples.antt =====
-- A plan for a node at the end of a cable.
use route_harbor.Prelude.{◌≡◌, refl, true, false, [], ◌∷◌, none}
use route_harbor.Coverage.{valid_interface_name}
use route_harbor.Node.{
  Plan, Capabilities, validate_plan, validate_mode, validate_names, validate_uplink,
  validate_addresses, validate_wireless, or_else, is_wired, valid_ports, compatible_modes,
  wireless_modes,
}
use route_harbor.Node.Addresses.{
  management_prefix, is_gateway_in, parse_prefix, parse_addr, octets, small_number, decimal,
  split_on,
}
use route_harbor.Node.Uplinks.{IsSafe, validate_plan-IsSafe}

abbrev wired_caps : Capabilities
wired_caps = record {
  open_wrt = true;
  ethernet = true;
  ap = false;
  wds = false;
  mesh = false;
  encrypted_backhaul = false;
  concurrent_radio = false;
  gateway_backhaul_ready = false;
  gateway_backhaul_managed = false;
  verified_peer_fingerprint = "";
  verified_radio = "";
  verified_mode = "";
  reason = "";
}

abbrev wired_plan : Plan
wired_plan = record {
  name = "garage";
  mode = "ethernet";
  management_interface = "lan";
  bridge_section = "bridge";
  bridge_device = "br-lan";
  lan_ports = "lan1" ∷ "lan2" ∷ [];
  uplink = "lan1";
  ethernet_uplink = "";
  management_address = "10.0.0.7/24";
  gateway_address = "10.0.0.1";
  radio = "";
  ssid = "";
  passphrase = "";
  channel = 0;
  share_radio = false;
  dhcp_server = false;
  nat = false;
  router_advertisements = false;
  preserve_management_path = true;
}

wired_accepted : validate_plan wired_plan wired_caps wired_caps ≡ none
unfolding validate_plan validate_mode validate_names validate_uplink validate_addresses
    validate_wireless or_else is_wired valid_ports compatible_modes wireless_modes management_prefix
    is_gateway_in parse_prefix parse_addr octets small_number decimal split_on valid_interface_name
wired_accepted = refl

validate_plan-IsSafe_example : IsSafe wired_plan wired_caps wired_caps
validate_plan-IsSafe_example = validate_plan-IsSafe wired_plan wired_caps wired_caps wired_accepted
