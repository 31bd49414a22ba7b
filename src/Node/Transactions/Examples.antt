-- ===== src/Node/Transactions/Examples.antt =====
-- A transaction of one node, with a concrete backend.
use route_harbor.Prelude.{ℕ, ◌*◌, ◌≡◌, refl, true, false, List, [], ◌∷◌, some, String, inl, subst}
use route_harbor.Effects.{
  Event, wrote, did, disk, World, ◌>>=◌, or_raise, call, call_noted, look, guard, save,
}
use route_harbor.Coverage.{State, prepared, applying, applied, confirmed}
use route_harbor.Coverage.Calls.{second}
use route_harbor.Coverage.Journal.{Snapshot}
use route_harbor.Node.{Plan}
use route_harbor.Node.Transactions.{
  Transaction, Journal, Command, Env, armed, applied_plan, load, check_journal, check_transaction,
  valid_snapshot,
}
use route_harbor.Node.Transactions.Manager.{
  prepare, begin, apply, apply_prepared, apply_armed, apply_success, confirm, confirm_applied,
  confirm_timely, check, draw, store,
}
use route_harbor.Node.Transactions.History.{Holds}
use route_harbor.Node.Transactions.Runs.{
  Reach, settings_wait_for_watchdog, settled_keeps_no_secrets,
}

abbrev attic_plan : Plan
attic_plan = record {
  name = "attic";
  mode = "wds";
  management_interface = "lan";
  bridge_section = "bridge";
  bridge_device = "br-lan";
  lan_ports = "lan1" ∷ [];
  uplink = "wlan0";
  ethernet_uplink = "lan1";
  management_address = "192.168.1.2/24";
  gateway_address = "192.168.1.1";
  radio = "radio0";
  ssid = "home";
  passphrase = "correct horse";
  channel = 6;
  share_radio = true;
  dhcp_server = false;
  nat = false;
  router_advertisements = false;
  preserve_management_path = true;
}

abbrev settings : Snapshot
settings = ("dhcp", 1 ∷ []) ∷ ("firewall", 2 ∷ []) ∷ ("network", 3 ∷ []) ∷ ("wireless", 4 ∷ []) ∷ []

abbrev attic_id : String
attic_id = "0123456789abcdef0123456789abcdef"

-- The number is the plan on the node, 0 for none.
abbrev attic : Env ℕ
attic = record {
  check = λ h p. true;
  snapshot = λ h. some settings;
  apply = λ h p. (1, false);
  restore = λ h s p. (0, false);
  arm = some (λ h i. (h, false));
  clock = λ h. 5 * second;
  draw = λ h. (h, some attic_id);
  digest = λ p. "cc";
}

abbrev attic_transaction : State → ℕ → Plan → Transaction
attic_transaction state deadline p = record {
  id = attic_id;
  state = state;
  created_at = 5 * second;
  deadline = deadline;
  plan = p;
  error_code = "";
}

abbrev attic_journal : State → ℕ → Plan → Snapshot → Journal
attic_journal state deadline p s = record {
  transaction = some (attic_transaction state deadline p);
  snapshot = s;
  request_key = "request-key-0001";
  request_hash = "cc";
}

abbrev open_journal : State → ℕ → Event Journal Command
open_journal state deadline = wrote (attic_journal state deadline attic_plan settings)

abbrev attic_world : ℕ → List (Event Journal Command) → World Journal Command ℕ
attic_world h log = record { log = log; hw = h; readable = true; writes = [] }

abbrev armed_log : List (Event Journal Command)
armed_log =
    did (armed attic_id) ∷ open_journal applying (65 * second) ∷ open_journal prepared 0 ∷ []

abbrev applied_log : List (Event Journal Command)
applied_log = open_journal applied (65 * second) ∷ did (applied_plan attic_plan) ∷ armed_log

abbrev done_journal : Journal
done_journal = attic_journal confirmed 0 (record attic_plan { passphrase = "" }) []

abbrev done_world : World Journal Command ℕ
done_world = attic_world 1 (wrote done_journal ∷ applied_log)

prepared_lem :
    (prepare attic "request-key-0001" attic_plan (attic_world 0 [])).0
    ≡ attic_world 0 (open_journal prepared 0 ∷ [])
unfolding prepare begin check draw store load check_journal valid_snapshot ◌>>=◌ or_raise look guard
    save
prepared_lem = refl

applied_lem :
    (apply attic attic_id (60 * second) (attic_world 0 (open_journal prepared 0 ∷ []))).0
    ≡ attic_world 1 applied_log
unfolding apply apply_prepared apply_armed apply_success check store load check_journal
    check_transaction valid_snapshot ◌>>=◌ or_raise call call_noted look guard save
applied_lem = refl

confirmed_lem : (confirm attic attic_id (attic_world 1 applied_log)).0 ≡ done_world
unfolding confirm confirm_applied confirm_timely check store load check_journal check_transaction
    valid_snapshot ◌>>=◌ or_raise look guard save
confirmed_lem = refl

done_reach : Reach attic done_world
done_reach =
    let first =
      subst (Reach attic) prepared_lem
        (Reach.prepares "request-key-0001" attic_plan (Reach.fresh (attic_world 0 []) refl)) in
    let second_one = subst (Reach attic) applied_lem (Reach.applies attic_id (60 * second) first) in
    subst (Reach attic) confirmed_lem (Reach.confirms attic_id second_one)

settings_wait_for_watchdog_example : Holds (disk armed_log) (λ j t.
    (t.state ≡ applying)
    × (t.plan ≡ attic_plan)
    × ((before : List (Event Journal Command)) × (armed_log ≡ did (armed t.id) ∷ before)))
settings_wait_for_watchdog_example =
    settings_wait_for_watchdog attic done_world
      (wrote done_journal ∷ open_journal applied (65 * second) ∷ []) armed_log attic_plan done_reach
      refl

abbrev done_transaction : Transaction
done_transaction = attic_transaction confirmed 0 (record attic_plan { passphrase = "" })

settled_keeps_no_secrets_example :
    (done_transaction.plan.passphrase ≡ "") × (done_journal.snapshot ≡ [])
settled_keeps_no_secrets_example =
    settled_keeps_no_secrets attic done_world done_journal done_transaction done_reach refl refl
      (inl refl)
