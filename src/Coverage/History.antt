-- ===== src/Coverage/History.antt =====
-- What the log of a gateway transaction can look like: transaction.go against its state diagram.
use route_harbor.Prelude.{◌≡◌, ◌⊎◌, false, List, [], ◌∷◌, Option, some}
use route_harbor.Coverage.{
  Plan, Transaction, State, prepared, applying, applied, confirmed, finalized, rolling_back,
  rolled_back, failed,
}
use route_harbor.Coverage.Journal.{Snapshot, Journal, occupied}
use route_harbor.Coverage.World.{Event, wrote, armed, arm_refused, applied_plan, restored, disk}

-- The moves of a transaction.
pub data Edge : State → State → Type 0 where
  begin : Edge prepared applying
  cancel : Edge prepared rolled_back
  unarmed : Edge applying failed
  done : Edge applying applied
  confirm : Edge applied confirmed
  finalize : Edge confirmed finalized
  undo_applying : Edge applying rolling_back
  undo_applied : Edge applied rolling_back
  undo_confirmed : Edge confirmed rolling_back
  retry : Edge rolling_back rolling_back
  undone : Edge rolling_back rolled_back

-- One transaction moves along the diagram; who asked for it and what for stay as they are.
pub record Moves (old new : Journal) : Type 0 where
  pub before : Transaction
  pub after : Transaction
  pub was : old.transaction ≡ some before
  pub is : new.transaction ≡ some after
  pub edge : Edge before.state after.state
  pub same_id : after.id ≡ before.id
  pub same_plan : after.plan ≡ before.plan
  pub same_key : new.request_key ≡ old.request_key
  pub same_hash : new.request_hash ≡ old.request_hash

-- A new transaction, where none is open.
pub record Begins (old : Option Journal) (new : Journal) : Type 0 where
  pub opened : Transaction
  pub is : new.transaction ≡ some opened
  pub fresh : opened.state ≡ prepared
  pub free : (j : Journal) → old ≡ some j → occupied j.transaction ≡ false

-- The radio is changed only behind a watchdog that was armed with success and a journal that says what is being done.
pub record IsReady (p : Plan) (log : List Event) : Type 0 where
  pub journal : Journal
  pub transaction : Transaction
  pub earlier : List Event
  pub shape : log ≡ armed transaction.id ∷ wrote journal ∷ earlier
  pub is : journal.transaction ≡ some transaction
  pub state : transaction.state ≡ applying
  pub plan : transaction.plan ≡ p

-- The radio is restored only from the snapshot in a journal that says so.
pub record IsUndoing (s : Snapshot) (log : List Event) : Type 0 where
  pub journal : Journal
  pub transaction : Transaction
  pub earlier : List Event
  pub shape : log ≡ wrote journal ∷ earlier
  pub is : journal.transaction ≡ some transaction
  pub state : transaction.state ≡ rolling_back
  pub snapshot : journal.snapshot ≡ s

abbrev pub Follows : Option Journal → Journal → Type 0
Follows old new = Begins old new ⊎ ((o : Journal) × (old ≡ some o) × Moves o new)

-- Every event of the log is in order.
abbrev pub IsHistory : List Event → Type 0
IsHistory [] = Unit {0}
IsHistory (wrote j ∷ log) = Follows (disk log) j × IsHistory log
IsHistory (armed i ∷ log) = IsHistory log
IsHistory (arm_refused i ∷ log) = IsHistory log
IsHistory (applied_plan p ∷ log) = IsReady p log × IsHistory log
IsHistory (restored s ∷ log) = IsUndoing s log × IsHistory log
