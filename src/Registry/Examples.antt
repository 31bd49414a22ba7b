-- ===== src/Registry/Examples.antt =====
-- A node that is paired, and another that takes its name.
use text.Mathlib.Text.{◌==◌ as str_eq}
use route_harbor.Prelude.{
  ◌≡◌, refl, subst, true, false, List, [], ◌∷◌, none, some, String, if◌then◌else◌,
}
use route_harbor.Effects.{
  Event, wrote, did, World, ok, ◌>>=◌, or_raise, call, look, guard, try_save,
}
use route_harbor.Coverage.Calls.{second}
use route_harbor.Coordinator.Site.{
  Site, peer_id, node_print, home_print, paired_node, caps_of, site,
}
use route_harbor.Coverage.{State}
use route_harbor.Registry.{
  Records, Url, Pairing, Env, Machine, Command, sent, pair_with, valid_fingerprint,
  validate_address, valid_pairing,
}
use route_harbor.Registry.Service.{
  pair, pair_new, introduce, ask, reach_outside, enroll, recall, remember, save_or, new_service,
}
use route_harbor.Registry.Runs.{Reach, restart_ok}
use route_harbor.Registry.Pins.{Leaves, pair_keeps_pins}

abbrev attic_url : Url
attic_url = record {
  scheme = "https";
  hostname = "192.168.1.2";
  port = "";
  path = "";
  raw_query = "";
  fragment = "";
  opaque = "";
  has_user = false;
}

abbrev house : Env Site
house = record {
  parse_url = λ s. if str_eq s "https://192.168.1.2" then some attic_url else none;
  parse_ip = λ s. some (record { is_private = true; is_loopback = false; is_unspecified = false });
  send =
      λ h a p q. (h, some (record { id = some peer_id; capabilities = some (caps_of home_print) }));
  is_decoded = λ rs. true;
  coverage = site;
}

abbrev request : String → Pairing
request pin = record {
  address = "https://192.168.1.2";
  fingerprint = pin;
  code = "12345678";
  name = "attic";
}

abbrev house_with : List (Event Records Command) → Records → World Records Command (Machine Site)
house_with log rs = record {
  log = log;
  hw = record {
    records = rs;
    coverage = record {
      log = [];
      hw = record { gateway_state = State.prepared; node_state = State.prepared; time = second };
      readable = true;
      writes = [];
    };
  };
  readable = true;
  writes = [];
}

abbrev attic_registry : Records
attic_registry = (peer_id, paired_node) ∷ []

abbrev attic_log : List (Event Records Command)
attic_log =
    wrote attic_registry ∷ did (sent "https://192.168.1.2" node_print (pair_with "12345678")) ∷ []

pairs_attic :
    (pair house (request node_print) (house_with [] [])).0 ≡ house_with attic_log attic_registry
unfolding pair pair_new introduce ask reach_outside enroll recall remember save_or ◌>>=◌ or_raise
    call look guard try_save valid_pairing validate_address valid_fingerprint
pairs_attic = refl

attic_life : Reach house (house_with attic_log attic_registry)
attic_life =
    subst (λ w. Reach house w) pairs_attic
      (Reach.pairs (request node_print) (Reach.fresh _ refl refl))

restart_ok_example :
    ((new_service house (house_with attic_log [])).1 ≡ ok tt)
    × ((new_service house (house_with attic_log [])).0.hw.records ≡ attic_registry)
restart_ok_example =
    restart_ok house (house_with attic_log [])
      (Reach.killed (house_with attic_log []) [] refl refl attic_life) refl refl

pair_keeps_pins_example :
    Leaves peer_id node_print
      (pair house (request home_print) (house_with attic_log attic_registry))
pair_keeps_pins_example =
    pair_keeps_pins house peer_id node_print (request home_print)
      (house_with attic_log attic_registry)
      (record { entry = paired_node; found = refl; pinned = refl })
