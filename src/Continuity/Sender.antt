-- ===== src/Continuity/Sender.antt =====
-- The sending side of one stream in internal/continuity/peer.go: `readEndpoint`, the case frameACK of
-- `handle`, the cases frameOpened and frameFINACK, and what `tick` may send.
pub mod Retention
pub mod Runs
use route_harbor.Prelude.{
  ℕ, ◌+◌, ◌-◌, Bool, true, false, not, ◌&&◌, ◌||◌, List, [], ◌∷◌, ◌++◌, Option, none, some, ltb,
  leb, ◌==◌, if◌then◌else◌, length,
}
use route_harbor.Continuity.Receiver.{Segment, cost, chunk_size, segment_overhead}

-- The budget of sent streams is shared; whether `reserve` finds room in it is an argument.
pub record Sender : Type 0 where
  pub opened : Bool
  pub next : ℕ
  pub acked : ℕ
  pub window : ℕ
  pub pending : List Segment
  pub send_bytes : ℕ
  pub read_eof : Bool
  pub fin_ack : Bool

-- The size of a full segment, for the limit of a flow.
abbrev pub full_size : ℕ → ℕ
full_size flow_bytes =
    if ltb flow_bytes (chunk_size + segment_overhead)
    then flow_bytes - segment_overhead
    else chunk_size

-- The size of the next read; `none` is to wait.
unfoldable pub read_size : ℕ → Sender → Option ℕ
read_size flow_bytes f =
    if not f.opened
      || (leb f.window f.next
          || ltb flow_bytes (f.send_bytes + full_size flow_bytes + segment_overhead))
    then none
    else if ltb (f.window - f.next) (full_size flow_bytes)
    then some (f.window - f.next)
    else some (full_size flow_bytes)

-- After a read of some bytes: they become a segment.
abbrev pub read_some : List ℕ → Sender → Sender
read_some bytes f = record f {
  next = f.next + length bytes;
  pending = f.pending ++ (record { offset = f.next; payload = bytes } ∷ []);
  send_bytes = f.send_bytes + (length bytes + segment_overhead);
}

unfoldable pub read_endpoint : List ℕ → Sender → Sender
read_endpoint bytes f = if length bytes == 0 then f else read_some bytes f

-- The segments that end behind an offset, and the cost of the others.
unfoldable pub keep_after : ℕ → List Segment → List Segment
keep_after n [] = []
keep_after n (s ∷ ss) =
    let rest = keep_after n ss in if leb (s.offset + length s.payload) n then rest else s ∷ rest

unfoldable pub cost_until : ℕ → List Segment → ℕ
cost_until n [] = 0
cost_until n (s ∷ ss) =
    let rest = cost_until n ss in
    if leb (s.offset + length s.payload) n then cost s + rest else rest

-- The case frameACK; `none` is an invalid acknowledgement, for which the flow is closed.
unfoldable pub receive_ack : ℕ → ℕ → ℕ → Sender → Option Sender
unfolding keep_after cost_until
receive_ack flow_bytes offset value f =
    if ltb f.next offset || (ltb value offset || ltb flow_bytes (value - offset))
    then none
    else if ltb f.acked offset
    then some (record f {
      window = value;
      acked = offset;
      pending = keep_after offset f.pending;
      send_bytes = f.send_bytes - cost_until offset f.pending;
    })
    else some (record f { window = value })

-- The case frameOpened, which only the side that is not the server takes.
abbrev pub receive_opened : ℕ → Sender → Sender
receive_opened value f = if f.opened then f else record f { opened = true; window = value }

-- The case frameFINACK.
abbrev pub receive_fin_ack : ℕ → Sender → Sender
receive_fin_ack offset f = if f.read_eof && offset == f.next then record f { fin_ack = true } else f

-- The segments that `tick` may put on a carrier: those within the window.
unfoldable pub sendable : ℕ → List Segment → List Segment
sendable window [] = []
sendable window (s ∷ ss) =
    let rest = sendable window ss in
    if ltb window (s.offset + length s.payload) then rest else s ∷ rest

abbrev pub new_sender : Sender
new_sender = record {
  opened = false;
  next = 0;
  acked = 0;
  window = 0;
  pending = [];
  send_bytes = 0;
  read_eof = false;
  fin_ack = false;
}
