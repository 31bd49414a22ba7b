-- ===== src/Coordinator/Examples.antt =====
-- One change of the backhaul, with concrete participants.
use route_harbor.Prelude.{ℕ, ◌≡◌, ◌≤◌, ◌<◌, ◌+◌, ◌*◌, refl, subst, true, List, [], ◌∷◌, take}
use route_harbor.Effects.{
  Event, wrote, did, World, disk, ok, ◌>>=◌, or_raise, call, look, guard, save, try_save,
}
use route_harbor.Coverage.{State, valid_interface_name}
use route_harbor.Coverage.Calls.{second}
use route_harbor.Node.{
  validate_plan, validate_mode, validate_names, validate_uplink, validate_addresses,
  validate_wireless, validate_radio, or_else, is_wired, valid_ports, compatible_modes,
  wireless_modes,
}
use route_harbor.Node.Addresses.{
  management_prefix, is_gateway_in, parse_prefix, parse_addr, octets, small_number, decimal,
  split_on,
}
use route_harbor.Coordinator.{
  Phase, Participant, no_participant, Entry, Entries, Request, preparing, applying, confirming,
  confirmed, rolled_back, valid_journal, valid_entries, valid_entry,
}
use route_harbor.Coordinator.World.{
  Command, gateway, node, visited, Job, ask_gateway, ask_node, store, try_store, refuse, fresh,
  validate_coverage, load, decode_participant, matching, settle, inject_wifi, remaining,
}
use route_harbor.Coordinator.Undo.{
  rollback, rollback_open, rollback_done, seek_node, seek_gateway, undo_node, undo_gateway,
  find_node, find_gateway, revert_node, revert_gateway, owes_rollback, found_again, reverted,
}
use route_harbor.Coordinator.Prepare.{
  prepare, prepare_new, prepare_parts, prepare_gateway, node_part, prepare_node, finish_prepare,
  draw, prepared_participant,
}
use route_harbor.Coordinator.Commit.{
  apply, apply_prepared, apply_gateway, gateway_applied, apply_node, apply_within, apply_done,
  confirm, confirm_open, confirm_applied, confirm_timely, confirm_gateway, gateway_confirmed,
  confirm_node, node_confirmed, finalize_gateway, confirm_done,
}
use route_harbor.Coordinator.Service.{
  operate, operate_locked, operate_wireless, operate_known, dispatch, paired, is_wireless_prepare,
}
use route_harbor.Coordinator.History.{IsHistory, Holds, HasGateway}
use route_harbor.Coordinator.Runs.{
  Reach, Reach-IsOrdered, node_applies_second, node_confirms_second, gateway_finalizes_last,
}
use route_harbor.Coordinator.Runs.Soundness.{IsSound, Reach-IsSound}
use route_harbor.Coordinator.Outcomes.{IsRolledBack, rollback_ok}
use route_harbor.Coordinator.Commitments.{IsCommitted, confirm_ok}
use route_harbor.Coordinator.Site.{
  Site, home_id, peer_id, paired_node, home_plan, site, empty_site, asked, prepare_asked, saga_id,
  part, saga_entry,
}

abbrev first_entry : Phase → Participant → Participant → Entry
first_entry phase g n = record (saga_entry phase 0 "correct horse" State.prepared State.prepared) {
  gateway = g;
  node = n;
}

abbrev journal : Entry → Event Entries Command
journal e = wrote ((peer_id, e) ∷ [])

abbrev open_journal : Phase → State → State → Event Entries Command
open_journal phase g n = journal (saga_entry phase (68 * second) "correct horse" g n)

abbrev prepared_entry : Entry
prepared_entry =
    first_entry Phase.prepared (part home_id State.prepared) (part peer_id State.prepared)

abbrev prepared_log : List (Event Entries Command)
prepared_log =
    journal prepared_entry
    ∷ did (
        node (7 * second) paired_node
          (Request.prepare "fedcba9876543210fedcba9876543210-node" prepared_entry.transaction.plan))
    ∷ journal (first_entry preparing (part home_id State.prepared) no_participant)
    ∷ did (
        gateway (6 * second) (Request.prepare "fedcba9876543210fedcba9876543210-gateway" home_plan))
    ∷ journal (first_entry preparing no_participant no_participant)
    ∷ did (gateway (5 * second) (Request.validate_plan home_plan))
    ∷ did (visited paired_node)
    ∷ []

abbrev site_at : State → State → ℕ → List (Event Entries Command) → World Entries Command Site
site_at g n t log = record {
  log = log;
  hw = record { gateway_state = g; node_state = n; time = t * second };
  readable = true;
  writes = [];
}

abbrev prepared_site : World Entries Command Site
prepared_site = site_at State.prepared State.prepared 7 prepared_log

prepared_site_lem : (operate site peer_id prepare_asked empty_site).0 ≡ prepared_site
unfolding operate operate_locked operate_wireless paired is_wireless_prepare prepare prepare_new
    prepare_parts prepare_gateway node_part prepare_node finish_prepare draw prepared_participant
    ask_gateway ask_node store fresh validate_coverage load decode_participant inject_wifi
    validate_plan validate_mode validate_names validate_uplink validate_addresses validate_wireless
    validate_radio or_else is_wired valid_ports compatible_modes wireless_modes management_prefix
    is_gateway_in parse_prefix parse_addr octets small_number decimal split_on valid_interface_name
    ◌>>=◌ or_raise call look guard save
prepared_site_lem = refl

-- The log when the node is told to apply.
abbrev applying_log : List (Event Entries Command)
applying_log =
    open_journal applying State.applied State.prepared
    ∷ did (gateway (8 * second) (Request.apply home_id 60))
    ∷ open_journal applying State.prepared State.prepared
    ∷ did (gateway (7 * second) (Request.validate_plan home_plan))
    ∷ did (visited paired_node)
    ∷ prepared_log

abbrev applied_log : List (Event Entries Command)
applied_log =
    open_journal Phase.applied State.applied State.applied
    ∷ did (node (9 * second) paired_node (Request.apply peer_id 59))
    ∷ applying_log

abbrev applied_site : World Entries Command Site
applied_site = site_at State.applied State.applied 9 applied_log

applied_site_lem : (operate site peer_id (asked "apply" saga_id) prepared_site).0 ≡ applied_site
unfolding operate operate_locked operate_known dispatch paired is_wireless_prepare apply
    apply_prepared apply_gateway gateway_applied apply_node apply_within apply_done ask_gateway
    ask_node store fresh validate_coverage load decode_participant matching settle inject_wifi
    remaining valid_journal valid_entries valid_entry validate_plan validate_mode validate_names
    validate_uplink validate_addresses validate_wireless validate_radio or_else is_wired valid_ports
    compatible_modes wireless_modes management_prefix is_gateway_in parse_prefix parse_addr octets
    small_number decimal split_on valid_interface_name ◌>>=◌ or_raise call look guard save try_save
    try_store
applied_site_lem = refl

-- The log when the node is told to confirm, and when the gateway is told to finalize.
abbrev confirming_log : List (Event Entries Command)
confirming_log =
    open_journal confirming State.confirmed State.applied
    ∷ did (gateway (10 * second) (Request.confirm home_id))
    ∷ open_journal confirming State.applied State.applied
    ∷ did (gateway (9 * second) (Request.validate_plan home_plan))
    ∷ did (visited paired_node)
    ∷ applied_log

abbrev finalizing_log : List (Event Entries Command)
finalizing_log =
    open_journal confirming State.confirmed State.confirmed
    ∷ did (node (11 * second) paired_node (Request.confirm peer_id))
    ∷ confirming_log

abbrev done_entry : Entry
done_entry = saga_entry confirmed 0 "" State.finalized State.confirmed

abbrev confirmed_log : List (Event Entries Command)
confirmed_log =
    journal done_entry ∷ did (gateway (11 * second) (Request.finalize home_id)) ∷ finalizing_log

abbrev confirmed_site : World Entries Command Site
confirmed_site = site_at State.finalized State.confirmed 12 confirmed_log

confirmed_site_lem :
    (operate site peer_id (asked "confirm" saga_id) applied_site).0 ≡ confirmed_site
unfolding operate operate_locked operate_known dispatch paired is_wireless_prepare confirm
    confirm_open confirm_applied confirm_timely confirm_gateway gateway_confirmed confirm_node
    node_confirmed finalize_gateway confirm_done refuse ask_gateway ask_node store fresh
    validate_coverage load decode_participant matching settle inject_wifi remaining valid_journal
    valid_entries valid_entry validate_plan validate_mode validate_names validate_uplink
    validate_addresses validate_wireless validate_radio or_else is_wired valid_ports
    compatible_modes wireless_modes management_prefix is_gateway_in parse_prefix parse_addr octets
    small_number decimal split_on valid_interface_name ◌>>=◌ or_raise call look guard save try_save
confirmed_site_lem = refl

confirmed_reach : Reach site confirmed_site
confirmed_reach =
    let prepared =
      subst (Reach site) prepared_site_lem
        (Reach.operates peer_id prepare_asked (Reach.fresh empty_site refl)) in
    let applied =
      subst (Reach site) applied_site_lem
        (Reach.operates peer_id (asked "apply" saga_id) prepared) in
    subst (Reach site) confirmed_site_lem (Reach.operates peer_id (asked "confirm" saga_id) applied)

Reach-IsOrdered_example : IsHistory confirmed_log
Reach-IsOrdered_example = Reach-IsOrdered site confirmed_site confirmed_reach

node_applies_second_example : Holds (disk applying_log) (λ e.
    (e.transaction.state ≡ applying)
    × (e.gateway.state ≡ State.applied)
    × (e.node.id ≡ peer_id)
    × (30 ≤ 59)
    × (9 * second + 59 * second < e.transaction.deadline + second))
node_applies_second_example =
    node_applies_second site confirmed_site (take 10 confirmed_log) applying_log (9 * second) 59
      paired_node peer_id confirmed_reach refl

node_confirms_second_example :
    Holds
      (disk confirming_log)
      (λ e. (e.transaction.state ≡ confirming) × HasGateway e × (e.node.id ≡ peer_id))
node_confirms_second_example =
    node_confirms_second site confirmed_site (take 3 confirmed_log) confirming_log (11 * second)
      paired_node peer_id confirmed_reach refl

gateway_finalizes_last_example : Holds (disk finalizing_log) (λ e.
    (e.transaction.state ≡ confirming)
    × (e.gateway.id ≡ home_id)
    × (e.node.state ≡ State.confirmed))
gateway_finalizes_last_example =
    gateway_finalizes_last site confirmed_site (take 1 confirmed_log) finalizing_log (11 * second)
      home_id confirmed_reach refl

Reach-IsSound_example : IsSound ((peer_id, done_entry) ∷ [])
Reach-IsSound_example =
    Reach-IsSound site confirmed_site ((peer_id, done_entry) ∷ []) confirmed_reach refl

abbrev open_entry : Entry
open_entry = saga_entry confirming (68 * second) "correct horse" State.applied State.applied

abbrev open_job : Job
open_job = record { id = peer_id; peer = paired_node; entries = (peer_id, open_entry) ∷ [] }

abbrev open_site : World Entries Command Site
open_site = record {
  log = wrote ((peer_id, open_entry) ∷ []) ∷ [];
  hw = record { gateway_state = State.applied; node_state = State.applied; time = 20 * second };
  readable = true;
  writes = [];
}

abbrev undone_entry : Entry
undone_entry = saga_entry rolled_back 0 "" State.rolled_back State.rolled_back

rollback_run : (rollback site open_job open_entry open_site).1 ≡ ok undone_entry
unfolding rollback rollback_open rollback_done seek_node seek_gateway undo_node undo_gateway
    find_node find_gateway revert_node revert_gateway owes_rollback found_again reverted ask_gateway
    ask_node store decode_participant matching settle ◌>>=◌ call save
rollback_run = refl

rollback_ok_example :
    IsRolledBack site open_job undone_entry (rollback site open_job open_entry open_site).0
rollback_ok_example = rollback_ok site open_job open_entry undone_entry open_site refl rollback_run

confirm_run : (confirm site open_job open_entry open_site).1 ≡ ok done_entry
unfolding confirm confirm_open confirm_gateway gateway_confirmed confirm_node node_confirmed
    finalize_gateway confirm_done ask_gateway ask_node store refuse decode_participant matching
    settle ◌>>=◌ or_raise call look guard save
confirm_run = refl

confirm_ok_example :
    IsCommitted site open_job done_entry (confirm site open_job open_entry open_site).0
confirm_ok_example = confirm_ok site open_job open_entry done_entry open_site refl confirm_run
