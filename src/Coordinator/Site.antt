-- ===== src/Coordinator/Site.antt =====
-- Concrete participants of a change of the backhaul (coverage_coordinator.go).
use text.Mathlib.Text.{◌==◌ as str_eq}
use route_harbor.Prelude.{ℕ, ◌+◌, ◌*◌, true, false, [], ◌∷◌, none, some, String, if◌then◌else◌}
use route_harbor.Effects.{World}
use route_harbor.Coverage.{State}
use route_harbor.Coverage.{Plan as GatewayPlan}
use route_harbor.Coverage.Calls.{second}
use route_harbor.Node.{Plan, Capabilities}
use route_harbor.Coordinator.{Phase, Participant, Entry, Entries, Record, Request, Reply}
use route_harbor.Coordinator.World.{Env, Command}
use route_harbor.Coordinator.Service.{Operation}

-- The states of the two participants, and the clock, which one call of the gateway advances.
pub record Site : Type 0 where
  pub gateway_state : State
  pub node_state : State
  pub time : ℕ

abbrev pub home_id : String
home_id = "0123456789abcdef0123456789abcdef"

abbrev pub peer_id : String
peer_id = "00000000000000000000000000000001"

abbrev pub node_print : String
node_print = "aaaaaaaaaaaaaaaaaaaaaaaaaaaaaaaaaaaaaaaaaaaaaaaaaaaaaaaaaaaaaaaa"

abbrev pub home_print : String
home_print = "bbbbbbbbbbbbbbbbbbbbbbbbbbbbbbbbbbbbbbbbbbbbbbbbbbbbbbbbbbbbbbbb"

abbrev pub caps_of : String → Capabilities
caps_of peer = record {
  open_wrt = true;
  ethernet = true;
  ap = true;
  wds = true;
  mesh = false;
  encrypted_backhaul = true;
  concurrent_radio = true;
  gateway_backhaul_ready = false;
  gateway_backhaul_managed = true;
  verified_peer_fingerprint = peer;
  verified_radio = "radio0";
  verified_mode = "wds";
  reason = "";
}

abbrev pub paired_node : Record
paired_node = record {
  id = peer_id;
  name = "attic";
  address = "https://192.168.1.2";
  fingerprint = node_print;
  capabilities = caps_of home_print;
  paired_at = second;
}

abbrev pub node_plan : Plan
node_plan = record {
  name = "attic";
  mode = "wds";
  management_interface = "lan";
  bridge_section = "bridge";
  bridge_device = "br-lan";
  lan_ports = "lan1" ∷ "lan2" ∷ [];
  uplink = "wlan0";
  ethernet_uplink = "lan1";
  management_address = "192.168.1.2/24";
  gateway_address = "192.168.1.1";
  radio = "radio0";
  ssid = "";
  passphrase = "";
  channel = 0;
  share_radio = true;
  dhcp_server = false;
  nat = false;
  router_advertisements = false;
  preserve_management_path = true;
}

abbrev pub home_plan : GatewayPlan
home_plan = record {
  mode = "wds";
  ap_section = "ap";
  network = "lan";
  peer_fingerprint = node_print;
  adopt_existing_ap = true;
  preserve_management_path = true;
}

abbrev pub next_state : String → State → State
next_state action s =
    if str_eq action "prepare"
    then State.prepared
    else if str_eq action "apply"
    then State.applied
    else if str_eq action "confirm"
    then State.confirmed
    else if str_eq action "finalize"
    then State.finalized
    else if str_eq action "rollback"
    then State.rolled_back
    else s

abbrev pub node_state_after : Request Plan → State → State
node_state_after (Request.prepare k p) s = State.prepared
node_state_after (Request.apply i n) s = State.applied
node_state_after (Request.confirm i) s = State.confirmed
node_state_after (Request.rollback i) s = State.rolled_back
node_state_after q s = s

abbrev pub answer : String → State → Reply
answer id s = record {
  transaction = some (record { id = id; state = s; deadline = 0 });
  node_wifi = some (record { ssid = "home"; passphrase = "correct horse"; channel = 6 });
}

abbrev pub site : Env Site
site = record {
  managed = true;
  gateway = λ h o.
      let s = next_state o.action h.gateway_state in
      (record h { gateway_state = s; time = h.time + second }, some (answer home_id s));
  node = λ h peer q.
      let s = node_state_after q h.node_state in
      (record h { node_state = s }, some (answer peer_id s));
  visit = λ h peer. (h, some (caps_of home_print));
  capabilities = λ h. caps_of node_print;
  records = λ h id. some paired_node;
  clock = λ h. h.time;
  draw = λ h. (h, some "fedcba9876543210fedcba9876543210");
  digest = λ p g. "cccccccccccccccccccccccccccccccccccccccccccccccccccccccccccccccc";
  fingerprint = home_print;
}

abbrev pub empty_site : World Entries Command Site
empty_site = record {
  log = [];
  hw = record { gateway_state = State.unknown; node_state = State.unknown; time = 5 * second };
  readable = true;
  writes = [];
}

abbrev pub asked : String → String → Operation
asked action id = record {
  action = action;
  id = id;
  key = "request-key-0001";
  plan = none;
  timeout_seconds = 60;
  gateway_plan = none;
}

abbrev pub prepare_asked : Operation
prepare_asked = record (asked "prepare" "") { plan = some node_plan; gateway_plan = some home_plan }

abbrev pub saga_id : String
saga_id = "fedcba9876543210fedcba9876543210"

abbrev pub part : String → State → Participant
part id s = record { id = id; state = s; deadline = 0 }

abbrev pub saga_entry : Phase → ℕ → String → State → State → Entry
saga_entry phase deadline secret g n = record {
  transaction = record {
    id = saga_id;
    node_id = peer_id;
    state = phase;
    created_at = 6 * second;
    deadline = deadline;
    plan = record node_plan { ssid = "home"; passphrase = secret; channel = 6 };
    gateway_plan = home_plan;
    error_code = "";
  };
  key = "request-key-0001";
  hash = "cccccccccccccccccccccccccccccccccccccccccccccccccccccccccccccccc";
  node = part peer_id n;
  gateway = part home_id g;
}
