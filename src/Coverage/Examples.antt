-- ===== src/Coverage/Examples.antt =====
-- Requests to a gateway with a concrete radio.
use text.Mathlib.Text.{◌==◌ as str_eq}
use text.Mathlib.TextEquality.{eq_iff}
use route_harbor.Prelude.{
  ℕ, ◌≡◌, refl, true, false, List, [], ◌∷◌, none, some, String, arith, inr, ◌≢◌, ◌⊎◌,
}
use route_harbor.Coverage.{
  Plan, WiFi, Operation, Transaction, State, prepared, applying, applied, rolling_back, rolled_back,
  Error, conflict, validate_plan, valid_interface_name, validate_operation, validate_query,
  validate_planned, validate_identified,
}
use route_harbor.Coverage.Journal.{
  Snapshot, WirelessSnapshot, Journal, validate_prepared, check_transaction, check_journal, reject,
}
use route_harbor.Coverage.World.{
  Event, wrote, armed, applied_plan, restored, World, Env, Write, lost_after, ok, err, ◌>>=◌, guard,
  refuse, or_raise, clock, save, load,
}
use route_harbor.Coverage.Manager.{
  rollback_named, rollback_open, rollback_success, prepare, begin, apply, apply_prepared,
  apply_armed, apply_success, material, recover, recover_found, recover_transaction, recover_due,
  recover_late, confirm, rollback,
}
use route_harbor.Coverage.Calls.{
  check_current, do_apply, do_restore, do_arm, do_draw, do_check, do_snapshot,
}
use route_harbor.Coverage.Dispatch.{operate, dispatch, do_prepare, do_move}
use route_harbor.Coverage.History.{IsHistory, IsUndoing}
use route_harbor.Coverage.Runs.{Reach, Reach-IsHistory, Reach-IsUndoing}
use route_harbor.Coverage.Undoing.{IsLoaded, IsOwed, IsUndone}
use route_harbor.Coverage.Outcomes.{
  Tries, recover_overdue, recover_ends, confirm_overdue, prepare_busy,
}
use route_harbor.Coverage.Replays.{prepare_again, prepare_conflict}

abbrev bridge_plan : Plan
bridge_plan = record {
  mode = "wds";
  ap_section = "ap";
  network = "lan";
  peer_fingerprint = "aaaaaaaaaaaaaaaaaaaaaaaaaaaaaaaaaaaaaaaaaaaaaaaaaaaaaaaaaaaaaaaa";
  adopt_existing_ap = true;
  preserve_management_path = true;
}

abbrev guest_plan : Plan
guest_plan = record bridge_plan { network = "guest" }

abbrev home_wifi : WiFi
home_wifi = record { ssid = "home"; passphrase = "correct horse"; channel = 6 }

abbrev first_id : String
first_id = "0123456789abcdef0123456789abcdef"

abbrev first_key : String
first_key = "request-key-0001"

abbrev wireless : WirelessSnapshot
wireless = record { ap_section = "ap"; wds = none; wds_owner = none; mesh = none }

-- The digest of a plan tells the two plans apart.
abbrev digest_of : Plan → String
digest_of p = elim (str_eq p.network "lan") [
  | true ↦ "bbbbbbbbbbbbbbbbbbbbbbbbbbbbbbbbbbbbbbbbbbbbbbbbbbbbbbbbbbbbbbbb"
  | false ↦ "cccccccccccccccccccccccccccccccccccccccccccccccccccccccccccccccc"
]

-- The radio is the number 0, or 1 when a plan is on it.
abbrev radio : Env ℕ
radio = record {
  inspect = λ h. none;
  check = λ h p. some home_wifi;
  snapshot = λ h p. some (("wireless", 7 ∷ []) ∷ []);
  apply = λ h p. (1, false);
  restore = λ h s. (0, false);
  arm = some (λ h i. (h, false));
  draw = λ h. (h, some first_id);
  decode = λ b. some wireless;
  digest = digest_of;
}

abbrev idle_world : World ℕ
idle_world = record { log = []; hw = 0; now = 1000; readable = true; writes = [] }

abbrev prepare_request : Operation
prepare_request = record {
  action = "prepare";
  key = first_key;
  id = "";
  plan = some bridge_plan;
  timeout_seconds = 0;
}

abbrev apply_request : Operation
apply_request = record {
  action = "apply";
  key = "";
  id = first_id;
  plan = none;
  timeout_seconds = 60;
}

abbrev rollback_request : Operation
rollback_request = record {
  action = "rollback";
  key = "";
  id = first_id;
  plan = none;
  timeout_seconds = 0;
}

abbrev prepared_world : World ℕ
prepared_world = (operate radio prepare_request idle_world).0

abbrev applied_world : World ℕ
applied_world = (operate radio apply_request prepared_world).0

abbrev undone_world : World ℕ
undone_world = (operate radio rollback_request applied_world).0

undone_reach : Reach radio undone_world
undone_reach =
    Reach.operates rollback_request
      (Reach.operates apply_request (Reach.operates prepare_request (Reach.fresh idle_world refl)))

Reach-IsHistory_example : IsHistory undone_world.log
Reach-IsHistory_example = Reach-IsHistory radio undone_world undone_reach

abbrev transaction_in : State → ℕ → Transaction
transaction_in state deadline = record {
  id = first_id;
  state = state;
  created_at = 1000;
  deadline = deadline;
  plan = bridge_plan;
  error_code = "";
}

abbrev journal_in : State → ℕ → Journal
journal_in state deadline = record {
  private_wifi = some home_wifi;
  transaction = some (transaction_in state deadline);
  snapshot = ("wireless", 7 ∷ []) ∷ [];
  request_key = first_key;
  request_hash = "bbbbbbbbbbbbbbbbbbbbbbbbbbbbbbbbbbbbbbbbbbbbbbbbbbbbbbbbbbbbbbbb";
}

abbrev world_in : State → ℕ → ℕ → World ℕ
world_in state deadline now = record {
  log = wrote (journal_in state deadline) ∷ [];
  hw = 1;
  now = now;
  readable = true;
  writes = [];
}

abbrev armed_log : List Event
armed_log =
    armed first_id ∷ wrote (journal_in applying 60000001000) ∷ wrote (journal_in prepared 0) ∷ []

abbrev applied_log : List Event
applied_log = wrote (journal_in applied 60000001000) ∷ applied_plan bridge_plan ∷ armed_log

applied_world_lem : applied_world.log ≡ applied_log
unfolding operate dispatch do_prepare do_move prepare begin apply apply_prepared apply_armed
    apply_success do_check do_snapshot do_draw do_arm do_apply check_current material ◌>>=◌ guard
    refuse or_raise clock save load validate_operation valid_interface_name validate_plan
    validate_query validate_planned validate_identified check_journal check_transaction reject
    validate_prepared
applied_world_lem = refl

applied_reach : Reach radio applied_world
applied_reach =
    Reach.operates apply_request (Reach.operates prepare_request (Reach.fresh idle_world refl))

abbrev undoing_log : List Event
undoing_log = wrote (journal_in rolling_back 60000001000) ∷ applied_log

abbrev undone_journal : Journal
undone_journal = record (journal_in rolled_back 0) { private_wifi = none; snapshot = [] }

undone_world_lem :
    undone_world.log ≡ wrote undone_journal ∷ restored (("wireless", 7 ∷ []) ∷ []) ∷ undoing_log
unfolding operate dispatch do_prepare do_move prepare begin apply apply_prepared apply_armed
    apply_success rollback_named rollback_open rollback rollback_success do_check do_snapshot
    do_draw do_arm do_apply do_restore check_current material ◌>>=◌ guard refuse or_raise clock save
    load validate_operation valid_interface_name validate_plan validate_query validate_planned
    validate_identified check_journal check_transaction reject validate_prepared
undone_world_lem = refl

Reach-IsUndoing_example : IsUndoing (("wireless", 7 ∷ []) ∷ []) undoing_log
Reach-IsUndoing_example =
    Reach-IsUndoing radio undone_world (wrote undone_journal ∷ []) undoing_log
      (("wireless", 7 ∷ []) ∷ []) undone_reach undone_world_lem

applied-IsLoaded :
    (now : ℕ) → IsLoaded radio (world_in applied 61000 now) (journal_in applied 61000)
unfolding check_journal check_transaction reject validate_prepared validate_plan
    valid_interface_name
applied-IsLoaded now = record { readable = refl; on_disk = refl; accepted = refl }

abbrev backup : Snapshot
backup = ("wireless", 7 ∷ []) ∷ []

-- The deadline is reached, and the first write is lost.
abbrev overdue_world : List Write → World ℕ
overdue_world writes = record (world_in applied 61000 62000) { writes = writes }

overdue-IsOwed : (writes : List Write) → IsOwed radio (overdue_world writes) first_id backup
overdue-IsOwed writes = record {
  journal = journal_in applied 61000;
  transaction = transaction_in applied 61000;
  loaded =
      let l = applied-IsLoaded 62000 in
      record { readable = refl; on_disk = refl; accepted = l.accepted };
  is = refl;
  named = refl;
  snapshot = refl;
  due = inr (inr refl, omega arith);
}

abbrev failing_world : World ℕ
failing_world = overdue_world (lost_after ∷ [])

recover_overdue_example :
    let r = recover radio failing_world in
    ((r.1 ≡ ok true) × IsUndone radio r.0 first_id)
    ⊎ (((x : Error) × (r.1 ≡ err x))
        × (IsUndone radio r.0 first_id ⊎ IsOwed radio r.0 first_id backup))
recover_overdue_example =
    recover_overdue radio failing_world first_id backup (overdue-IsOwed (lost_after ∷ []))

-- One run fails, a minute passes, and the next run works.
abbrev later_world : World ℕ
later_world = record (recover radio failing_world).0 { now = 60000062000; writes = []; hw = 1 }

failing_now : (recover radio failing_world).0.now ≡ 62000
unfolding recover recover_found recover_transaction recover_due recover_late rollback ◌>>=◌ clock
    save load check_journal check_transaction reject validate_prepared validate_plan
    valid_interface_name
failing_now = refl

recover_ends_example :
    let r = recover radio later_world in
    IsUndone radio r.0 first_id
    × (IsUndone radio later_world first_id
        ⊎ ((r.1 ≡ ok true) × (r.0.hw ≡ (radio.restore later_world.hw backup).0)))
recover_ends_example =
    recover_ends radio failing_world later_world first_id backup (overdue-IsOwed (lost_after ∷ []))
      (Tries.outside later_world refl refl (rw failing_now (omega arith))
        (Tries.run (Tries.start failing_world)))
      (record { writes = refl; restores = refl })

confirm_overdue_example :
    let r = confirm radio first_id (world_in applied 61000 62000) in
    (IsUndone radio r.0 first_id ⊎ IsOwed radio r.0 first_id backup) × ((x : Error) × (r.1 ≡ err x))
confirm_overdue_example =
    confirm_overdue radio (world_in applied 61000 62000) (journal_in applied 61000)
      (transaction_in applied 61000) (applied-IsLoaded 62000) refl refl (omega arith)

texts_differ : (a b : String) → str_eq a b ≡ false → a ≢ b
texts_differ a b h e = ground (arith, h, (eq_iff a b).1 e)

guest_valid : validate_plan guest_plan ≡ none
unfolding validate_plan valid_interface_name
guest_valid = refl

prepare_busy_example :
    let r = prepare radio "another-key-0002" guest_plan (world_in applied 61000 2000) in
    (r.0 ≡ world_in applied 61000 2000)
    × (((x : Error) × (r.1 ≡ err x))
        ⊎ ((t : Transaction) × (r.1 ≡ ok t)
            × ((journal_in applied 61000).transaction ≡ some t)
            × (first_key ≡ "another-key-0002")
            × ((journal_in applied 61000).request_hash ≡ digest_of guest_plan)))
prepare_busy_example =
    prepare_busy radio "another-key-0002" guest_plan (world_in applied 61000 2000)
      (journal_in applied 61000) refl refl

prepared-IsLoaded : IsLoaded radio (world_in prepared 0 5000) (journal_in prepared 0)
unfolding check_journal check_transaction reject validate_prepared validate_plan
    valid_interface_name
prepared-IsLoaded = record { readable = refl; on_disk = refl; accepted = refl }

prepare_first : prepare radio first_key bridge_plan idle_world ≡ (
  record idle_world { log = wrote (journal_in prepared 0) ∷ [] },
  ok (transaction_in prepared 0),
)
unfolding prepare begin do_check do_snapshot do_draw ◌>>=◌ guard refuse or_raise clock save load
    validate_plan valid_interface_name check_journal check_transaction reject validate_prepared
prepare_first = refl

prepare_again_example :
    prepare radio first_key bridge_plan (world_in prepared 0 5000)
    ≡ (world_in prepared 0 5000, ok (transaction_in prepared 0))
prepare_again_example =
    prepare_again radio first_key bridge_plan idle_world
      (record idle_world { log = wrote (journal_in prepared 0) ∷ [] }) (world_in prepared 0 5000)
      (transaction_in prepared 0) (journal_in prepared 0) prepare_first refl prepared-IsLoaded

prepare_conflict_example :
    prepare radio first_key guest_plan (world_in prepared 0 5000)
    ≡ (world_in prepared 0 5000, err conflict)
prepare_conflict_example =
    prepare_conflict radio first_key bridge_plan guest_plan idle_world
      (record idle_world { log = wrote (journal_in prepared 0) ∷ [] }) (world_in prepared 0 5000)
      (transaction_in prepared 0) (journal_in prepared 0) prepare_first refl prepared-IsLoaded
      guest_valid (texts_differ (digest_of guest_plan) (digest_of bridge_plan) refl)
