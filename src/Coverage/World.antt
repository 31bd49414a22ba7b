-- ===== src/Coverage/World.antt =====
-- What a gateway transaction acts on: the journal file, the radio, the watchdog and the clock. The
-- methods of transaction.go are actions that return a new world beside a result or an error.
use route_harbor.Prelude.{
  ℕ, Bool, true, false, List, [], ◌∷◌, Option, none, some, String, if◌then◌else◌,
}
use route_harbor.Coverage.{Plan, WiFi, Setup, Error, unavailable, storage_failed}
use route_harbor.Coverage.Journal.{Snapshot, WirelessSnapshot, Journal, no_journal, check_journal}

-- What has happened, the newest first. `armed` is a call of `Arm` that reported success.
pub data Event : Type 0 where
  wrote : Journal → Event
  armed arm_refused : String → Event
  applied_plan : Plan → Event
  restored : Snapshot → Event

-- How `writePrivate` ends. It may fail after the rename, when the directory cannot be synced.
pub data Write : Type 0 where
  done lost_before lost_after : Write

-- `H` is the state of everything outside the process.
pub record World (H : Type 0) : Type 0 where
  pub log : List Event
  pub hw : H
  pub now : ℕ
  pub readable : Bool
  pub writes : List Write

-- The interfaces `Backend` and `Watchdog`, the decoder of snapshots, the random source and the
-- digest of a plan. A `Bool` says whether the call failed.
pub record Env (H : Type 0) : Type 0 where
  pub inspect : H → Option Setup
  pub check : H → Plan → Option WiFi
  pub snapshot : H → Plan → Option Snapshot
  pub apply : H → Plan → H × Bool
  pub restore : H → Snapshot → H × Bool
  pub arm : Option (H → String → H × Bool)
  pub draw : H → H × Option String
  pub decode : List ℕ → Option WirelessSnapshot
  pub digest : Plan → String

pub data Result {ℓ} (A : Type ℓ) : Type ℓ where
  ok : A → Result A
  err : Error → Result A

abbrev pub Action : Type 0 → Type 0 → Type 0
Action H A = World H → World H × Result A

-- The journal file: the last one written, if any was.
abbrev pub disk : List Event → Option Journal
disk [] = none
disk (wrote j ∷ log) = some j
disk (armed i ∷ log) = disk log
disk (arm_refused i ∷ log) = disk log
disk (applied_plan p ∷ log) = disk log
disk (restored s ∷ log) = disk log

module _ {H A : Type 0} where
  abbrev pub pure : A → Action H A
  pure a w = (w, ok a)

  unfoldable pub or_raise : Option A → Error → Action H A
  or_raise none e w = (w, err e)
  or_raise (some a) e w = (w, ok a)

  abbrev pub raise : Error → Action H A
  raise e w = (w, err e)

module _ {H A B : Type 0} where
  abbrev pub continue : Result A → (A → Action H B) → Action H B
  continue (ok a) f w = f a w
  continue (err e) f w = (w, err e)

  infixl 5 ◌>>=◌ ◌>>◌
  unfoldable pub ◌>>=◌ : Action H A → (A → Action H B) → Action H B
  ◌>>=◌ m f w = let r = m w in continue r.1 f r.0

  abbrev pub ◌>>◌ : Action H A → Action H B → Action H B
  m >> n = m >>= λ _. n

module _ {H : Type 0} where
  -- An early return.
  unfoldable pub guard : Bool → Error → Action H (Unit {0})
  guard true e w = (w, ok tt)
  guard false e w = (w, err e)

  unfoldable pub refuse : Option Error → Action H (Unit {0})
  refuse none w = (w, ok tt)
  refuse (some e) w = (w, err e)

  unfoldable pub clock : Action H ℕ
  clock w = (w, ok w.now)

  -- `writePrivate`, with the way it ends at the head of the list.
  abbrev pub write_file : List Write → Journal → Action H (Unit {0})
  write_file [] j w = (record w { log = wrote j ∷ w.log }, ok tt)
  write_file (done ∷ rest) j w = (record w { log = wrote j ∷ w.log; writes = rest }, ok tt)
  write_file (lost_before ∷ rest) j w = (record w { writes = rest }, err storage_failed)
  write_file (lost_after ∷ rest) j w =
      (record w { log = wrote j ∷ w.log; writes = rest }, err storage_failed)

  -- `save`
  unfoldable pub save : Journal → Action H (Unit {0})
  save j w = write_file w.writes j w

abbrev pub read_file : Option Journal → Journal
read_file none = no_journal
read_file (some j) = j

module _ {H : Type 0} (env : Env H) where
  -- `locked`, up to the call of its function.
  unfoldable pub load : Action H Journal
  load w =
      if w.readable
      then elim (check_journal env.decode (read_file (disk w.log))) [
        | none ↦ (w, ok (read_file (disk w.log)))
        | some e ↦ (w, err e)
      ]
      else (w, err unavailable)
