-- ===== src/Continuity/Streams.antt =====
-- A concrete stream that is sent in two segments and arrives with the later one first, datagrams of
-- which one arrives twice, and two paths of which the active one is lost.
use route_harbor.Prelude.{
  true, false, bit, put_bit, drop, All, some, ℕ, ◌+◌, ◌≤◌, ◌≡◌, refl, subst, List, [], ◌∷◌, ◌++◌,
  none, arith, length, take,
}
use route_harbor.Continuity.Receiver.{
  Segment, Receiver, Bounds, goes_on, collect, clash, store, receive_new, receive_data,
  receive_window, find_at, new_receiver, consume,
}
use route_harbor.Continuity.Window.{contains, add, slide, clear_cells, put_cell, cell}
use route_harbor.Continuity.Window.History.{Distinct}
use route_harbor.Continuity.Datagrams.{Datagrams, receive_datagram, accept}
use route_harbor.Continuity.Datagrams.Delivery.{
  Run as DatagramRun, no_datagrams, offsets, Run-at_most_once,
}
use route_harbor.Continuity.Paths.{Paths, select_path}
use route_harbor.Continuity.Paths.Readiness.{IsSettled, select_path-IsSettled}
use route_harbor.Continuity.Sender.{
  Sender, read_endpoint, receive_ack, receive_opened, keep_after, cost_until, sendable, new_sender,
}
use route_harbor.Continuity.Sender.Runs.{Run as SendRun, Run-retains, Run-sends}
use route_harbor.Continuity.Receiver.Segments.{IsFrom, costs, bytes_of}
use route_harbor.Continuity.Receiver.Delivery.{Run, Run-delivers, Run-accounts}
use route_harbor.Continuity.Receiver.Credit.{receive_data-in_credit}

abbrev five_bytes : List ℕ
five_bytes = 1 ∷ 2 ∷ 3 ∷ 4 ∷ 5 ∷ []

abbrev bounds : Bounds
bounds = record { flow_bytes = 16384; budget = 40000 }

abbrev front : Segment
front = record { offset = 0; payload = 1 ∷ 2 ∷ 3 ∷ [] }

abbrev back : Segment
back = record { offset = 3; payload = 4 ∷ 5 ∷ [] }

front-IsFrom : IsFrom five_bytes front
front-IsFrom = record { before = []; after = 4 ∷ 5 ∷ []; joined = refl; place = refl }

back-IsFrom : IsFrom five_bytes back
back-IsFrom = record { before = 1 ∷ 2 ∷ 3 ∷ []; after = []; joined = refl; place = refl }

abbrev gap : Receiver
gap = record (new_receiver 100) { recv = back ∷ []; recv_bytes = 194; used = 294 }

abbrev whole : Receiver
whole = record (new_receiver 100) {
  ready = front ∷ back ∷ [];
  recv_next = 5;
  recv_bytes = 389;
  used = 489;
}

gap_lem : receive_data bounds (new_receiver 100) back ≡ goes_on gap
unfolding receive_data receive_new store clash collect
gap_lem = refl

whole_lem : receive_data bounds gap front ≡ goes_on whole
unfolding receive_data receive_new store clash collect
whole_lem = refl

whole_run : Run five_bytes bounds whole []
whole_run =
    Run.data_frame front whole
      (Run.data_frame back gap (Run.starts 100 (omega arith)) back-IsFrom gap_lem) front-IsFrom
      whole_lem

abbrev half : Receiver
half = consume whole front (back ∷ [])

half_run : Run five_bytes bounds half (1 ∷ 2 ∷ 3 ∷ [])
half_run = Run.hands_on front (back ∷ []) whole_run refl

Run-delivers_example :
    (front.payload ++ bytes_of half.ready ≡ take half.recv_next five_bytes)
    × (half.consumed ≡ length front.payload)
Run-delivers_example = Run-delivers five_bytes bounds half (1 ∷ 2 ∷ 3 ∷ []) half_run

Run-accounts_example :
    (gap.recv_bytes ≡ costs gap.recv + costs gap.ready)
    × (gap.recv_bytes ≤ bounds.flow_bytes)
    × (gap.recv_bytes ≤ gap.used)
    × (gap.used ≤ bounds.budget)
    × (find_at gap.recv_next gap.recv ≡ none)
Run-accounts_example =
    Run-accounts five_bytes bounds gap []
      (Run.data_frame back gap (Run.starts 100 (omega arith)) back-IsFrom gap_lem)

front_credit : 3 ≤ receive_window bounds (new_receiver 100)
unfolding receive_window
front_credit = omega arith

receive_data-in_credit_example :
    (g : Receiver) × (receive_data bounds (new_receiver 100) front ≡ goes_on g)
    × (g.ready ≡ front ∷ [])
    × (g.recv_next ≡ 3)
receive_data-in_credit_example =
    receive_data-in_credit five_bytes bounds (new_receiver 100) [] front
      (Run.starts 100 (omega arith)) refl refl refl refl refl (omega arith) (omega arith)
      (omega arith) front_credit

-- Both segments are read, and the first one is acknowledged.
abbrev both_read : Sender
both_read = record new_sender {
  opened = true;
  next = 5;
  window = 1000;
  pending = front ∷ back ∷ [];
  send_bytes = 389;
}

abbrev one_acked : Sender
one_acked = record both_read { acked = 3; window = 800; pending = back ∷ []; send_bytes = 194 }

both_read_lem :
    read_endpoint back.payload (read_endpoint front.payload (receive_opened 1000 new_sender))
    ≡ both_read
unfolding read_endpoint
both_read_lem = refl

one_acked_lem : receive_ack 16384 3 800 both_read ≡ some one_acked
unfolding receive_ack keep_after cost_until
one_acked_lem = refl

one_acked_run : SendRun 16384 one_acked five_bytes
one_acked_run =
    SendRun.acks 3 800 one_acked
      (subst (λ f. SendRun 16384 f five_bytes) both_read_lem
        (SendRun.reads back.payload
          (SendRun.reads front.payload (SendRun.opens 1000 SendRun.starts))))
      one_acked_lem

Run-retains_example :
    (lo : ℕ) × (lo ≤ one_acked.acked)
    × (one_acked.acked ≤ length five_bytes)
    × (bytes_of one_acked.pending ≡ drop lo five_bytes)
    × (one_acked.send_bytes ≡ costs one_acked.pending)
Run-retains_example = Run-retains 16384 one_acked five_bytes one_acked_run

Run-sends_example :
    All
      (λ s. IsFrom five_bytes s × (s.offset + length s.payload ≤ one_acked.window))
      (sendable one_acked.window one_acked.pending)
Run-sends_example = Run-sends 16384 one_acked five_bytes one_acked_run

abbrev datagram : ℕ → Segment
datagram n = record { offset = n; payload = 9 ∷ [] }

-- The fields after a datagram that is taken, and after one that is not.
abbrev one_datagram : Datagrams
one_datagram = accept (datagram 5) no_datagrams

one_datagram_lem : receive_datagram true (datagram 5) no_datagrams ≡ some one_datagram
unfolding receive_datagram contains cell
one_datagram_lem = refl

again_lem : receive_datagram true (datagram 5) one_datagram ≡ some one_datagram
unfolding receive_datagram contains cell accept add slide clear_cells put_cell bit put_bit
again_lem = refl

Run-at_most_once_example : Distinct (offsets ([] ++ one_datagram.ready))
Run-at_most_once_example = Run-at_most_once one_datagram [] (
    DatagramRun.gets true (datagram 5) one_datagram
      (DatagramRun.gets true (datagram 5) one_datagram DatagramRun.starts one_datagram_lem)
      again_lem)

abbrev two_paths : Paths
two_paths = record {
  paths =
      ("fiber", some (record { closed = true }) ∷ [])
      ∷ ("radio", some (record { closed = false }) ∷ [])
      ∷ [];
  preferred = "fiber";
  active = "fiber";
  switches = 0;
  last_ready = 0;
  switched_at = 0;
}

select_path-IsSettled_example : IsSettled two_paths (select_path 50 two_paths)
select_path-IsSettled_example = select_path-IsSettled 50 two_paths
