-- ===== src/Node/Transactions.antt =====
-- internal/node/transaction.go: the transaction of a coverage node. This file has its journal with the
-- checks of `locked`, and what a manager acts on.
pub mod Manager
pub mod History
pub mod Quiet
pub mod Kept
pub mod Moved
pub mod Lives
pub mod Runs
mod Examples
use text.Mathlib.Text.{◌==◌ as str_eq}
use route_harbor.Prelude.{
  ℕ, ◌+◌, ◌*◌, Bool, true, false, not, ◌&&◌, ◌||◌, List, [], ◌∷◌, Option, none, some, String, ◌==◌,
  if◌then◌else◌, length,
}
use route_harbor.Prelude.Text.{between}
use route_harbor.Effects.{
  World, Result, ok, err, Action, disk, did, raise, pure, or_raise, call, ◌>>=◌, guard, save, look,
}
use route_harbor.Coverage.{
  State, prepared, applying, applied, confirmed, rolling_back, rolled_back, failed, finalized,
  unknown, is_transaction_id,
}
use route_harbor.Coverage.Journal.{Snapshot, active_state, needs_deadline}
use route_harbor.Coverage.Calls.{is_state}
use route_harbor.Node.{Plan, redact_plan}

-- `Transaction`. Times are nanoseconds, and 0 is the zero time.
pub record Transaction : Type 0 where
  pub id : String
  pub state : State
  pub created_at : ℕ
  pub deadline : ℕ
  pub plan : Plan
  pub error_code : String

-- `journal`. A version other than 1 is a file that cannot be read.
pub record Journal : Type 0 where
  pub transaction : Option Transaction
  pub snapshot : Snapshot
  pub request_key : String
  pub request_hash : String

abbrev pub no_journal : Journal
no_journal = record { transaction = none; snapshot = []; request_key = ""; request_hash = "" }

pub data Error : Type 0 where
  unreadable storage_failed invalid_identity invalid_state_text invalid_deadline : Error
  invalid_snapshot key_required conflict invalid_journal busy check_failed : Error
  snapshot_failed no_random not_found window_invalid invalid_state watchdog_required : Error
  watchdog_unavailable watchdog_unavailable_unsaved apply_failed_and_rolled_back : Error
  confirmation_expired rollback_failed rollback_failed_unsaved plan_required unsupported : Error

-- `s.Snapshot[name]`: a missing package has no bytes.
abbrev pub package_size : String → Snapshot → ℕ
package_size name [] = 0
package_size name ((k, b) ∷ s) = if str_eq k name then length b else package_size name s

-- `packages`, each with 1 byte to 256 KiB.
unfoldable pub valid_snapshot : Snapshot → Bool
valid_snapshot s =
    length s == 4
    && (between 1 (256 * 1024) (package_size "network" s)
        && (between 1 (256 * 1024) (package_size "wireless" s)
            && (between 1 (256 * 1024) (package_size "dhcp" s)
                && between 1 (256 * 1024) (package_size "firewall" s))))

-- The states of a node's transaction; a node has no state finalized.
abbrev is_known : State → Bool
is_known finalized = false
is_known unknown = false
is_known _ = true

abbrev pub is_active : Option Transaction → Bool
is_active none = false
is_active (some t) = active_state t.state

unfoldable pub check_transaction : Journal → Transaction → Option Error
check_transaction j t =
    if not (is_transaction_id t.id)
    then some invalid_identity
    else if not (is_known t.state)
    then some invalid_state_text
    else if needs_deadline t.state && t.deadline == 0
    then some invalid_deadline
    else if active_state t.state && not (valid_snapshot j.snapshot)
    then some invalid_snapshot
    else none

unfoldable pub check_journal : Journal → Option Error
check_journal j = elim j.transaction [ none ↦ none | some t ↦ check_transaction j t ]

-- The calls that change something: the watchdog, armed with success or not, the settings of the node, and their restoration.
pub data Command : Type 0 where
  armed arm_refused : String → Command
  applied_plan : Plan → Command
  restored : Snapshot → Plan → Command

-- The interfaces `Backend` and `Watchdog`, the clock, the random source and the digest of a plan. A
-- `Bool` says whether the call failed.
pub record Env (H : Type 0) : Type 0 where
  pub check : H → Plan → Bool
  pub snapshot : H → Option Snapshot
  pub apply : H → Plan → H × Bool
  pub restore : H → Snapshot → Plan → H × Bool
  pub arm : Option (H → String → H × Bool)
  pub clock : H → ℕ
  pub draw : H → H × Option String
  pub digest : Plan → String

-- An error, with the transaction that is returned beside it, if any is.
pub record Failure : Type 0 where
  pub error : Error
  pub shown : Option Transaction

abbrev pub bare : Error → Failure
bare x = record { error = x; shown = none }

abbrev pub Step : Type 0 → Type 0 → Type 0
Step H A = Action Journal Command H Failure A

abbrev pub file_of : Option Journal → Journal
file_of none = no_journal
file_of (some j) = j

module _ {H : Type 0} where
  abbrev pub checked : Journal → Option Error → Step H Journal
  checked j none w = (w, ok j)
  checked j (some x) w = (w, err (bare x))

  -- `locked`, up to the call of its function.
  unfoldable pub load : Step H Journal
  load w =
      if w.readable
      then checked (file_of (disk w.log)) (check_journal (file_of (disk w.log))) w
      else (w, err (bare unreadable))
