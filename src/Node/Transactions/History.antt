-- ===== src/Node/Transactions/History.antt =====
-- What the log of a node's transaction can look like: internal/node/transaction.go against its state
-- diagram.
use route_harbor.Prelude.{◌≡◌, ◌⊎◌, false, List, [], ◌∷◌, Option, some}
use route_harbor.Effects.{Event, wrote, did, disk}
use route_harbor.Effects.Rules.{IsOrdered}
use route_harbor.Coverage.{
  State, prepared, applying, applied, confirmed, rolling_back, rolled_back, failed,
}
use route_harbor.Node.Transactions.{
  Transaction, Journal, Command, armed, arm_refused, applied_plan, restored, is_active, file_of,
}

-- The moves of a transaction.
pub data Edge : State → State → Type 0 where
  begin : Edge prepared applying
  cancel : Edge prepared rolled_back
  unarmed : Edge applying failed
  done : Edge applying applied
  confirm : Edge applied confirmed
  undo_applying : Edge applying rolling_back
  undo_applied : Edge applied rolling_back
  retry : Edge rolling_back rolling_back
  undone : Edge rolling_back rolled_back

-- Neither the passphrase nor the snapshot, which holds secrets too, outlives a transaction that was
-- confirmed or rolled back.
abbrev pub IsClean : Journal → Transaction → Type 0
IsClean j t =
    (t.state ≡ confirmed) ⊎ (t.state ≡ rolled_back) → (t.plan.passphrase ≡ "") × (j.snapshot ≡ [])

-- What may be written over the journal on disk.
pub data Change (old : Option Journal) (new : Journal) : Type 0 where
  begins :
      (t : Transaction)
      → is_active (file_of old).transaction ≡ false
      → new.transaction ≡ some t
      → t.state ≡ prepared
      → Change old new
  moves :
      (file : Journal) (d t : Transaction)
      → old ≡ some file
      → file.transaction ≡ some d
      → new.transaction ≡ some t
      → Edge d.state t.state
      → t.id ≡ d.id
      → (new.request_key ≡ file.request_key) × (new.request_hash ≡ file.request_hash)
      → IsClean new t
      → Change old new

-- The transaction of the journal on disk, with a property of both.
pub record Holds (o : Option Journal) (P : Journal → Transaction → Type 0) : Type 0 where
  pub file : Journal
  pub transaction : Transaction
  pub on_disk : o ≡ some file
  pub is : file.transaction ≡ some transaction
  pub holds : P file transaction

-- The settings are changed only right after `Arm` reported success for a transaction that is applying,
-- and restored only from the snapshot of a transaction that is rolling back.
abbrev pub Allowed : Command → List (Event Journal Command) → Type 0
Allowed (armed id) log = Holds (disk log) (λ j t. (t.state ≡ applying) × (t.id ≡ id))
Allowed (arm_refused id) log = Holds (disk log) (λ j t. (t.state ≡ applying) × (t.id ≡ id))
Allowed (applied_plan p) log = Holds (disk log) (λ j t.
    (t.state ≡ applying)
    × (t.plan ≡ p)
    × ((earlier : List (Event Journal Command)) × (log ≡ did (armed t.id) ∷ earlier)))
Allowed (restored s p) log =
    Holds (disk log) (λ j t. (t.state ≡ rolling_back) × (j.snapshot ≡ s) × (t.plan ≡ p))

abbrev pub IsDue : Event Journal Command → List (Event Journal Command) → Type 0
IsDue (wrote j) log = Change (disk log) j
IsDue (did c) log = Allowed c log

-- Every event of the log is in order.
abbrev pub IsHistory : List (Event Journal Command) → Type 0
IsHistory log = IsOrdered IsDue log
