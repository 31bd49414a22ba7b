-- ===== src/Continuity/Datagrams.antt =====
-- Received datagrams of one flow in internal/continuity/peer.go: the case frameUDP of `handle`.
pub mod Delivery
use route_harbor.Prelude.{
  ℕ, ◌+◌, Bool, true, false, not, ◌||◌, List, [], ◌∷◌, ◌++◌, Option, none, some, ltb, if◌then◌else◌,
  length,
}
use route_harbor.Continuity.Window.{DatagramWindow, contains, add}
use route_harbor.Continuity.Wire.{max_payload}
use route_harbor.Continuity.Receiver.{Segment, cost}

pub record Datagrams : Type 0 where
  pub opened : Bool
  pub seen : DatagramWindow
  pub ready : List Segment
  pub recv_bytes : ℕ
  pub dropped : ℕ

unfoldable pub accept : Segment → Datagrams → Datagrams
unfolding add
accept s f = record f {
  seen = add f.seen s.offset;
  ready = f.ready ++ (s ∷ []);
  recv_bytes = f.recv_bytes + cost s;
}

-- `room` is whether `reserve` finds room in the shared budget; `none` is to close the flow.
unfoldable pub receive_datagram : Bool → Segment → Datagrams → Option Datagrams
unfolding contains accept
receive_datagram room s f =
    if not f.opened || ltb max_payload (length s.payload)
    then none
    else if contains f.seen s.offset
    then some f
    else if room
    then some (accept s f)
    else some (record f { dropped = f.dropped + 1 })

-- The head of `ready`, once it was written to the endpoint.
abbrev pub hand_on : Datagrams → Segment → List Segment → Datagrams
hand_on f s rest = record f { ready = rest; recv_bytes = Prim.Native.Nat.◌-◌ f.recv_bytes (cost s) }
