-- ===== src/Continuity/Link.antt =====
-- Both sides of one stream of internal/continuity/peer.go, and what is on the carriers between them.
pub mod Growth
pub mod Reliability
use mathlib.Core.List.{append_assoc}
use route_harbor.Prelude.{
  ℕ, zero, suc, ◌+◌, ◌≤◌, ◌≡◌, refl, sym, ap, subst, ◌∙◌, Bool, true, false, ◌&&◌, ◌||◌, List, [],
  ◌∷◌, ◌++◌, Option, none, some, arith, ltb, leb, length, take, drop, All, Bool-cases, Option-cases,
  inl, inr, if◌then◌else◌,
}
use route_harbor.Continuity.Receiver.{
  Segment, cost, Receiver, Bounds, Received, goes_on, ends, find_at, move_next, collect, insert,
  Clash, no_clash, repeated, overlapping, overlapping_frame, clash, store, receive_new, cut,
  malformed, receive_data, receive_fin, receive_window, consume, new_receiver,
}
use route_harbor.Continuity.Receiver.Segments.{IsPart, IsFrom, bytes_of}
use route_harbor.Continuity.Receiver.Delivery.{Run, Run-delivers}
use route_harbor.Continuity.Sender.{
  Sender, read_endpoint, receive_ack, receive_opened, receive_fin_ack, sendable, new_sender,
}
use route_harbor.Continuity.Sender.Runs.{Run as SendRun, Run-retains, Run-sends}

-- A carrier may lose, repeat and delay what was put on it: `sent` and `acks` hold what was ever sent,
-- and any of it may arrive at any time, or never.
pub record Link : Type 0 where
  pub sender : Sender
  pub bytes : List ℕ
  pub sent : List Segment
  pub acks : List (ℕ × ℕ)
  pub receiver : Receiver
  pub out : List ℕ

pub data Step (flow_bytes : ℕ) (b : Bounds) : Link → Link → Type 0 where
  opens :
      {l : Link} (value : ℕ)
      → Step flow_bytes b l (record l { sender = receive_opened value l.sender })
  reads :
      {l : Link} (more : List ℕ)
      → Step flow_bytes b l
          (record l { sender = read_endpoint more l.sender; bytes = l.bytes ++ more })
  sends :
      {l : Link}
      → Step flow_bytes b l
          (record l { sent = sendable l.sender.window l.sender.pending ++ l.sent })
  arrives :
      {l : Link} (xs ys : List Segment) (s : Segment) (g : Receiver)
      → l.sent ≡ xs ++ (s ∷ ys)
      → receive_data b l.receiver s ≡ goes_on g
      → Step flow_bytes b l (record l { receiver = g })
  answers :
      {l : Link}
      → Step flow_bytes b l
          (record l { acks = (l.receiver.recv_next, receive_window b l.receiver) ∷ l.acks })
  acknowledges :
      {l : Link} (xs ys : List (ℕ × ℕ)) (offset value : ℕ) (f : Sender)
      → l.acks ≡ xs ++ ((offset, value) ∷ ys)
      → receive_ack flow_bytes offset value l.sender ≡ some f
      → Step flow_bytes b l (record l { sender = f })
  hands_on :
      {l : Link} (s : Segment) (rest : List Segment)
      → l.receiver.ready ≡ s ∷ rest
      → Step flow_bytes b l
          (record l { receiver = consume l.receiver s rest; out = l.out ++ s.payload })
  ends_reading :
      {l : Link} → Step flow_bytes b l (record l { sender = record (l.sender) { read_eof = true } })
  finishes :
      {l : Link} (offset : ℕ) (g : Receiver)
      → receive_fin l.receiver offset ≡ goes_on g
      → Step flow_bytes b l (record l { receiver = g })
  finish_acknowledged :
      {l : Link} (offset : ℕ)
      → Step flow_bytes b l (record l { sender = receive_fin_ack offset l.sender })
  shares :
      {l : Link} (used : ℕ)
      → l.receiver.recv_bytes ≤ used
      → used ≤ b.budget
      → Step flow_bytes b l (record l { receiver = record (l.receiver) { used = used } })

pub data Reach (flow_bytes : ℕ) (b : Bounds) : Link → Type 0 where
  starts :
      (used : ℕ)
      → used ≤ b.budget
      → Reach flow_bytes b (record {
        sender = new_sender;
        bytes = [];
        sent = [];
        acks = [];
        receiver = new_receiver used;
        out = [];
      })
  steps :
      {l : Link} (m : Link) → Reach flow_bytes b l → Step flow_bytes b l m → Reach flow_bytes b m
