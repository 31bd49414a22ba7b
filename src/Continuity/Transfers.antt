-- ===== src/Continuity/Transfers.antt =====
-- A concrete transfer: three bytes are read, sent and received.
use route_harbor.Prelude.{ℕ, ◌≤◌, ◌≡◌, refl, List, [], ◌∷◌, ◌++◌, take, drop, arith}
use route_harbor.Continuity.Receiver.{
  Segment, Receiver, Bounds, goes_on, collect, clash, store, receive_new, receive_data,
  new_receiver,
}
use route_harbor.Continuity.Receiver.Segments.{bytes_of}
use route_harbor.Continuity.Sender.{read_endpoint, receive_opened, sendable, new_sender}
use route_harbor.Continuity.Link.{Link, Reach, opens, reads, sends, arrives, starts, steps}
use route_harbor.Continuity.Link.Reliability.{Reach-reliable}

abbrev bounds : Bounds
bounds = record { flow_bytes = 16384; budget = 40000 }

abbrev three_bytes : List ℕ
three_bytes = 1 ∷ 2 ∷ 3 ∷ []

abbrev start : Link
start = record {
  sender = new_sender;
  bytes = [];
  sent = [];
  acks = [];
  receiver = new_receiver 2048;
  out = [];
}

abbrev opened_link : Link
opened_link = record start { sender = receive_opened 1000 new_sender }

abbrev read_link : Link
read_link = record opened_link {
  sender = read_endpoint three_bytes opened_link.sender;
  bytes = three_bytes;
}

abbrev sent_link : Link
sent_link = record read_link {
  sent = sendable read_link.sender.window read_link.sender.pending ++ [];
}

abbrev the_segment : Segment
the_segment = record { offset = 0; payload = three_bytes }

abbrev received : Receiver
received = record (new_receiver 2048) {
  ready = the_segment ∷ [];
  recv_next = 3;
  recv_bytes = 195;
  used = 2243;
}

sent_lem : sent_link.sent ≡ the_segment ∷ []
unfolding sendable read_endpoint
sent_lem = refl

received_lem : receive_data bounds (new_receiver 2048) the_segment ≡ goes_on received
unfolding receive_data receive_new store clash collect
received_lem = refl

abbrev arrived_link : Link
arrived_link = record sent_link { receiver = received }

arrived_reach : Reach 16384 bounds arrived_link
arrived_reach =
    steps arrived_link
      (steps sent_link
        (steps read_link (steps opened_link (starts 2048 (omega arith)) (opens 1000))
          (reads three_bytes))
        sends)
      (arrives [] [] the_segment received sent_lem received_lem)

Reach-reliable_example :
    (arrived_link.out ++ bytes_of arrived_link.receiver.ready
      ≡ take arrived_link.receiver.recv_next arrived_link.bytes)
    × ((lo : ℕ) × (lo ≤ arrived_link.receiver.recv_next)
        × (bytes_of arrived_link.sender.pending ≡ drop lo arrived_link.bytes))
Reach-reliable_example = Reach-reliable 16384 bounds arrived_link arrived_reach
