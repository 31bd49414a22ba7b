-- ===== src/Continuity/Link/Reliability.antt =====
-- Both sides of a stream over carriers that lose, repeat, delay and reorder.
use route_harbor.Prelude.{ℕ, ◌≤◌, ◌≡◌, subst, ◌++◌, arith, take, drop, All}
use route_harbor.Continuity.Receiver.{Bounds}
use route_harbor.Continuity.Receiver.Segments.{IsFrom, bytes_of}
use route_harbor.Continuity.Receiver.Delivery.{Run, Run-delivers}
use route_harbor.Continuity.Sender.{sendable}
use route_harbor.Continuity.Sender.Runs.{Run as SendRun, Run-retains, Run-sends}
use route_harbor.Continuity.Link.{
  Link, Step, Reach, opens, reads, sends, arrives, answers, acknowledges, hands_on, ends_reading,
  finishes, finish_acknowledged, shares, starts, steps,
}
use route_harbor.Continuity.Link.Growth.{
  All-IsPart-append, Run-append, Grown, receive_data_grows, All-append, All-middle, All-IsFrom,
  Reached, All-Reached-le, receive_fin_next, read_endpoint_acked, receive_ack_acked,
}

module _ (flow_bytes : ℕ) (b : Bounds) where
  record Sound (l : Link) : Type 0 where
    sending : SendRun flow_bytes l.sender l.bytes
    receiving : Run l.bytes b l.receiver l.out
    genuine : All (IsFrom l.bytes) l.sent
    honest : All (Reached l.receiver.recv_next) l.acks
    behind : l.sender.acked ≤ l.receiver.recv_next

  Step-Sound : (l m : Link) → Sound l → Step flow_bytes b l m → Sound m
  unfolding Reached Grown
  Step-Sound l _ h (opens value) = record {
    sending = SendRun.opens value h.sending;
    receiving = h.receiving;
    genuine = h.genuine;
    honest = h.honest;
    behind = ground (arith, h.behind);
  }
  Step-Sound l _ h (reads more) = record {
    sending = SendRun.reads more h.sending;
    receiving = Run-append l.bytes more b l.receiver l.out h.receiving;
    genuine = All-IsPart-append l.bytes more l.sent h.genuine;
    honest = h.honest;
    behind = omega (arith, h.behind, read_endpoint_acked more l.sender);
  }
  Step-Sound l _ h sends = record {
    sending = h.sending;
    receiving = h.receiving;
    genuine =
        All-append (IsFrom l.bytes) (sendable l.sender.window l.sender.pending) l.sent
          (All-IsFrom l.bytes l.sender.window (sendable l.sender.window l.sender.pending)
            (Run-sends flow_bytes l.sender l.bytes h.sending))
          h.genuine;
    honest = h.honest;
    behind = h.behind;
  }
  Step-Sound l _ h (arrives xs ys s g e k) =
      let part : IsFrom l.bytes s =
        All-middle (IsFrom l.bytes) xs ys s (subst (All (IsFrom l.bytes)) e h.genuine) in
      let grows : l.receiver.recv_next ≤ g.recv_next =
        subst (Grown l.receiver.recv_next) k (receive_data_grows b l.receiver s) in
      record {
        sending = h.sending;
        receiving = Run.data_frame s g h.receiving part k;
        genuine = h.genuine;
        honest = All-Reached-le l.receiver.recv_next g.recv_next l.acks grows h.honest;
        behind = omega (arith, h.behind, grows);
      }
  Step-Sound l _ h answers = record {
    sending = h.sending;
    receiving = h.receiving;
    genuine = h.genuine;
    honest = (omega arith, h.honest);
    behind = h.behind;
  }
  Step-Sound l _ h (acknowledges xs ys offset value f e k) =
      let told : offset ≤ l.receiver.recv_next =
        All-middle (Reached l.receiver.recv_next) xs ys (offset, value)
          (subst (All (Reached l.receiver.recv_next)) e h.honest) in
      record {
        sending = SendRun.acks offset value f h.sending k;
        receiving = h.receiving;
        genuine = h.genuine;
        honest = h.honest;
        behind =
            receive_ack_acked flow_bytes offset value l.receiver.recv_next l.sender f k told
              h.behind;
      }
  Step-Sound l _ h (hands_on s rest e) = record {
    sending = h.sending;
    receiving = Run.hands_on s rest h.receiving e;
    genuine = h.genuine;
    honest = h.honest;
    behind = h.behind;
  }
  Step-Sound l _ h ends_reading = record {
    sending = SendRun.ended h.sending;
    receiving = h.receiving;
    genuine = h.genuine;
    honest = h.honest;
    behind = h.behind;
  }
  Step-Sound l _ h (finishes offset g k) =
      let same : g.recv_next ≡ l.receiver.recv_next = receive_fin_next l.receiver g offset k in
      record {
        sending = h.sending;
        receiving = Run.fin_frame offset g h.receiving k;
        genuine = h.genuine;
        honest =
            All-Reached-le l.receiver.recv_next g.recv_next l.acks (omega (arith, same)) h.honest;
        behind = omega (arith, h.behind, same);
      }
  Step-Sound l _ h (finish_acknowledged offset) = record {
    sending = SendRun.fin_acks offset h.sending;
    receiving = h.receiving;
    genuine = h.genuine;
    honest = h.honest;
    behind = ground (arith, h.behind);
  }
  Step-Sound l _ h (shares used low high) = record {
    sending = h.sending;
    receiving = Run.others used h.receiving low high;
    genuine = h.genuine;
    honest = h.honest;
    behind = h.behind;
  }

  Reach-Sound : (l : Link) → Reach flow_bytes b l → Sound l
  Reach-Sound _ (starts used h) = record {
    sending = SendRun.starts;
    receiving = Run.starts used h;
    genuine = tt;
    honest = tt;
    behind = omega arith;
  }
  Reach-Sound _ (steps {l = l} m r s) = Step-Sound l m (Reach-Sound l r) s

  -- Over carriers that lose, repeat, delay and reorder frames and acknowledgements: what the endpoint
  -- of the receiver was given, with what is ready for it, are the first bytes that were read from the
  -- endpoint of the sender, and every byte after them is still held by the sender: its pending
  -- segments are all that was read from some offset on that is at most the number received.
  pub Reach-reliable :
      (l : Link)
      → Reach flow_bytes b l
      → (l.out ++ bytes_of l.receiver.ready ≡ take l.receiver.recv_next l.bytes)
        × ((lo : ℕ) × (lo ≤ l.receiver.recv_next) × (bytes_of l.sender.pending ≡ drop lo l.bytes))
  Reach-reliable l r =
      let h = Reach-Sound l r in
      let kept = Run-retains flow_bytes l.sender l.bytes h.sending in
      (
        (Run-delivers l.bytes b l.receiver l.out h.receiving).0,
        (kept.0, omega (arith, kept.1, h.behind), kept.3),
      )
