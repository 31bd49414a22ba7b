-- ===== src/Coordinator/History.antt =====
-- What the log of the gateway service can look like: coverage_coordinator.go against its state diagram
-- and its order of calls.
pub mod Rules
pub mod Quiet
pub mod Undone
pub mod Prepared
pub mod Started
pub mod Committed
pub mod Lives
use route_harbor.Prelude.{
  ℕ, ◌+◌, ◌*◌, ◌≤◌, ◌<◌, ◌≡◌, ◌⊎◌, true, false, List, [], ◌∷◌, Option, none, some, String,
}
use route_harbor.Effects.{Event, wrote, did, disk}
use route_harbor.Effects.Rules.{IsOrdered}
use route_harbor.Coverage.{State}
use route_harbor.Coverage.{Plan as GatewayPlan}
use route_harbor.Coverage.Calls.{second}
use route_harbor.Node.{Plan}
use route_harbor.Coordinator.{
  Phase, preparing, prepared, applying, applied, confirming, confirmed, rolling_back, rolled_back,
  Entry, Entries, Record, Request, is_open, any_open, find, put, remove,
}
use route_harbor.Coordinator.World.{Command, gateway, node, visited, node_key, gateway_key, Job}

-- The moves of a coordinated transaction. What is open can be kept or undone.
pub data Edge : Phase → Phase → Type 0 where
  keep : (s : Phase) → is_open s ≡ true → Edge s s
  ready : Edge preparing prepared
  start : Edge prepared applying
  done : Edge applying applied
  commit : Edge applied confirming
  settle : Edge confirming confirmed
  undo : (s : Phase) → is_open s ≡ true → Edge s rolling_back
  undone : Edge rolling_back rolled_back

-- The same transaction, asked for in the same way, with the same plan for the gateway.
abbrev pub Kin : Entry → Entry → Type 0
Kin d e =
    (e.transaction.id ≡ d.transaction.id)
    × (e.key ≡ d.key)
    × (e.hash ≡ d.hash)
    × (e.transaction.gateway_plan ≡ d.transaction.gateway_plan)

-- A settled transaction holds no passphrase.
abbrev pub IsClean : Entry → Type 0
IsClean e = is_open e.transaction.state ≡ false → e.transaction.plan.passphrase ≡ ""

abbrev pub entries_of : Option Entries → Entries
entries_of none = []
entries_of (some es) = es

-- What may be written over the journal on disk.
pub data Change (old : Option Entries) (new : Entries) : Type 0 where
  begins :
      (id : String) (e : Entry)
      → any_open (entries_of old) ≡ false
      → e.transaction.state ≡ preparing
      → new ≡ put id e (entries_of old)
      → Change old new
  moves :
      (id : String) (es : Entries) (d e : Entry)
      → old ≡ some es
      → find id es ≡ some d
      → Edge d.transaction.state e.transaction.state
      → Kin d e
      → IsClean e
      → new ≡ put id e es
      → Change old new
  forgets :
      (id : String) (es : Entries) (d : Entry)
      → old ≡ some es
      → find id es ≡ some d
      → is_open d.transaction.state ≡ false
      → new ≡ remove id es
      → Change old new

-- An entry of the journal on disk that has a property.
pub record Holds (o : Option Entries) (P : Entry → Type 0) : Type 0 where
  pub id : String
  pub entries : Entries
  pub entry : Entry
  pub on_disk : o ≡ some entries
  pub is : find id entries ≡ some entry
  pub holds : P entry

abbrev pub IsAsking : Entry → Type 0
IsAsking e = (e.transaction.state ≡ preparing) ⊎ (e.transaction.state ≡ rolling_back)

abbrev pub HasGateway : Entry → Type 0
HasGateway e = (e.gateway.state ≡ State.confirmed) ⊎ (e.gateway.state ≡ State.finalized)

-- The id on record, or one that was found again where none is.
abbrev pub Traced : String → String → Type 0
Traced recorded i = (i ≡ recorded) ⊎ (recorded ≡ "")

-- What the gateway may be told, at a time.
abbrev pub GatewayMay : ℕ → Request GatewayPlan → Entry → Type 0
GatewayMay t (Request.prepare k p) e = IsAsking e × (k ≡ gateway_key e)
GatewayMay t (Request.apply i n) e =
    (e.transaction.state ≡ applying) × (e.gateway.id ≡ i) × (30 ≤ n) × (n ≤ 180)
GatewayMay t (Request.confirm i) e = (e.transaction.state ≡ confirming) × (e.gateway.id ≡ i)
GatewayMay t (Request.finalize i) e =
    (e.transaction.state ≡ confirming) × (e.gateway.id ≡ i) × (e.node.state ≡ State.confirmed)
GatewayMay t (Request.rollback i) e = (e.transaction.state ≡ rolling_back) × Traced e.gateway.id i
GatewayMay t _ e = Unit {0}

-- What the node may be told, at a time.
abbrev pub NodeMay : ℕ → Request Plan → Entry → Type 0
NodeMay t (Request.prepare k p) e = IsAsking e × (k ≡ node_key e)
NodeMay t (Request.apply i n) e =
    (e.transaction.state ≡ applying)
    × (e.gateway.state ≡ State.applied)
    × (e.node.id ≡ i)
    × (30 ≤ n)
    × (t + n * second < e.transaction.deadline + second)
NodeMay t (Request.confirm i) e =
    (e.transaction.state ≡ confirming) × HasGateway e × (e.node.id ≡ i)
NodeMay t (Request.rollback i) e = (e.transaction.state ≡ rolling_back) × Traced e.node.id i
NodeMay t _ e = Unit {0}

-- A request that changes nothing needs no journal.
abbrev pub Sends : {P : Type 0} → Request P → Type 0 → Type 0
Sends (Request.inspect) T = Unit {0}
Sends (Request.status) T = Unit {0}
Sends (Request.validate_plan p) T = Unit {0}
Sends (Request.validate_id i) T = Unit {0}
Sends _ T = T

abbrev pub Allowed : Command → Option Entries → Type 0
Allowed (gateway t q) o = Sends q (Holds o (GatewayMay t q))
Allowed (node t peer q) o = Sends q (Holds o (NodeMay t q))
Allowed (visited peer) o = Unit {0}

abbrev pub IsDue : Event Entries Command → List (Event Entries Command) → Type 0
IsDue (wrote es) log = Change (disk log) es
IsDue (did c) log = Allowed c (disk log)

-- Every event of the log is in order.
abbrev pub IsHistory : List (Event Entries Command) → Type 0
IsHistory log = IsOrdered IsDue log
