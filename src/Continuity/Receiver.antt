-- ===== src/Continuity/Receiver.antt =====
-- The receiving side of one stream in internal/continuity/peer.go: the cases frameData and frameFIN of
-- `handle`, `receiveWindow`, and the part of `writeEndpoint` that hands bytes on.
pub mod Segments
pub mod Steps
pub mod Delivery
pub mod Credit
use route_harbor.Prelude.{
  ℕ, zero, suc, ◌+◌, ◌-◌, ◌^◌, min, Bool, true, false, not, ◌&&◌, ◌||◌, List, [], ◌∷◌, ◌++◌, Option,
  none, some, ltb, leb, ◌==◌, if◌then◌else◌, length, drop,
}

abbrev pub chunk_size : ℕ
chunk_size = 16384

abbrev pub segment_overhead : ℕ
segment_overhead = 192

-- A segment that was received. Its cost is the length of its data and the overhead.
pub record Segment : Type 0 where
  pub offset : ℕ
  pub payload : List ℕ

abbrev pub cost : Segment → ℕ
cost s = length s.payload + segment_overhead

-- `recv` is a map by offset. `used` is the share of the budget that all streams use, `p.used[0][0]`.
pub record Receiver : Type 0 where
  pub udp : Bool
  pub opened : Bool
  pub recv : List Segment
  pub ready : List Segment
  pub recv_next : ℕ
  pub consumed : ℕ
  pub recv_bytes : ℕ
  pub recv_fin : Bool
  pub fin_offset : ℕ
  pub used : ℕ

-- `limits.FlowBytes`, and the budget of received streams, `(BufferBytes - UDPReserveBytes) / 2`.
pub record Bounds : Type 0 where
  pub flow_bytes : ℕ
  pub budget : ℕ

pub data FlowError : Type 0 where
  invalid_stream_frame data_beyond_finish overlapping_frame invalid_finish : FlowError

-- The stream goes on, or `closeFlow` is called.
pub data Received : Type 0 where
  goes_on : Receiver → Received
  ends : FlowError → Received

abbrev pub find_at : ℕ → List Segment → Option Segment
find_at n [] = none
find_at n (s ∷ ss) = if s.offset == n then some s else find_at n ss

abbrev pub remove_at : ℕ → List Segment → List Segment
remove_at n [] = []
remove_at n (s ∷ ss) = let rest = remove_at n ss in if s.offset == n then ss else s ∷ rest

abbrev pub move_next : Receiver → Segment → Receiver
move_next f s = record f {
  recv = remove_at f.recv_next f.recv;
  recv_next = f.recv_next + length s.payload;
  ready = f.ready ++ (s ∷ []);
}

-- The loop that moves segments from `recv` to `ready`, on fuel: each round takes one out of `recv`.
unfoldable pub collect : ℕ → Receiver → Receiver
collect zero f = f
collect (suc fuel) f = elim (find_at f.recv_next f.recv) [
  | none ↦ f
  | some s ↦ collect fuel (move_next f s)
]

abbrev pub same_place : Segment → Segment → Bool
same_place s old = s.offset == old.offset && length s.payload == length old.payload

abbrev pub overlaps : Segment → Segment → Bool
overlaps s old =
    ltb s.offset (old.offset + length old.payload) && ltb old.offset (s.offset + length s.payload)

pub data Clash : Type 0 where
  no_clash repeated overlapping : Clash

unfoldable pub clash : Segment → List Segment → Clash
clash s [] = no_clash
clash s (old ∷ olds) =
    let rest = clash s olds in
    if same_place s old then repeated else if overlaps s old then overlapping else rest

abbrev pub insert : Receiver → Segment → Receiver
insert f s = record f {
  recv = s ∷ f.recv;
  recv_bytes = f.recv_bytes + cost s;
  used = f.used + cost s;
}

unfoldable pub store : Bounds → Receiver → Segment → Received
unfolding collect
store b f s =
    if ltb b.flow_bytes (f.recv_bytes + cost s) || ltb b.budget (f.used + cost s)
    then goes_on f
    else goes_on (collect (suc (length f.recv)) (insert f s))

-- After the bytes that were received before are cut off.
unfoldable pub receive_new : Bounds → Receiver → Segment → Received
unfolding store clash
receive_new b f s =
    if ltb (f.consumed + b.flow_bytes) (s.offset + length s.payload)
    then goes_on f
    else elim (clash s f.recv) [
      | no_clash ↦ store b f s
      | repeated ↦ goes_on f
      | overlapping ↦ ends overlapping_frame
    ]

abbrev pub cut : ℕ → Segment → Segment
cut n s =
    if ltb s.offset n then record { offset = n; payload = drop (n - s.offset) s.payload } else s

abbrev pub malformed : Receiver → Segment → Bool
malformed f s =
    f.udp
    || (not f.opened
        || (length s.payload == 0
            || (ltb chunk_size (length s.payload) || ltb (2 ^ 64 - 1 - length s.payload) s.offset)))

-- The case frameData.
unfoldable pub receive_data : Bounds → Receiver → Segment → Received
unfolding receive_new
receive_data b f s =
    if malformed f s
    then ends invalid_stream_frame
    else if f.recv_fin && ltb f.fin_offset (s.offset + length s.payload)
    then ends data_beyond_finish
    else if leb (s.offset + length s.payload) f.recv_next
    then goes_on f
    else receive_new b f (cut f.recv_next s)

-- The case frameFIN.
unfoldable pub receive_fin : Receiver → ℕ → Received
receive_fin f offset =
    if f.udp || (ltb offset f.recv_next || (f.recv_fin && not (f.fin_offset == offset)))
    then ends invalid_finish
    else goes_on (record f { recv_fin = true; fin_offset = offset })

-- The head of `ready`, once it was written to the endpoint.
abbrev pub consume : Receiver → Segment → List Segment → Receiver
consume f s rest = record f {
  ready = rest;
  recv_bytes = f.recv_bytes - cost s;
  consumed = f.consumed + length s.payload;
  used = f.used - cost s;
}

-- `receiveWindow`; a difference below zero is no credit.
unfoldable pub receive_window : Bounds → Receiver → ℕ
receive_window b f =
    f.recv_next + (min (b.flow_bytes - f.recv_bytes) (b.budget - f.used) - segment_overhead)

abbrev pub new_receiver : ℕ → Receiver
new_receiver used = record {
  udp = false;
  opened = true;
  recv = [];
  ready = [];
  recv_next = 0;
  consumed = 0;
  recv_bytes = 0;
  recv_fin = false;
  fin_offset = 0;
  used = used;
}
