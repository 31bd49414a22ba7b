-- ===== src/Continuity/Sender/Runs.antt =====
-- Runs of the sending side of a stream.
use route_harbor.Prelude.{
  ℕ, ◌+◌, ◌≤◌, ◌≡◌, refl, sym, ap, ◌∙◌, true, ◌&&◌, List, [], ◌∷◌, ◌++◌, some, arith, ltb, ◌==◌,
  length, drop, All, drop-length-append, Bool-cases, inl, inr,
}
use route_harbor.Continuity.Receiver.{Segment}
use route_harbor.Continuity.Receiver.Segments.{IsFrom, costs, bytes_of}
use route_harbor.Continuity.Sender.{
  Sender, read_endpoint, receive_ack, receive_opened, receive_fin_ack, sendable, new_sender,
}
use route_harbor.Continuity.Sender.Retention.{
  Held-IsFrom, Tidy, read_endpoint-Tidy, marked-Tidy, receive_ack-Tidy,
}

-- A sending side after some steps, with the bytes that were read from its endpoint.
pub data Run (flow_bytes : ℕ) : Sender → List ℕ → Type 0 where
  starts : Run flow_bytes new_sender []
  opens :
      {f : Sender} {bytes : List ℕ} (value : ℕ)
      → Run flow_bytes f bytes
      → Run flow_bytes (receive_opened value f) bytes
  reads :
      {f : Sender} {bytes : List ℕ} (more : List ℕ)
      → Run flow_bytes f bytes
      → Run flow_bytes (read_endpoint more f) (bytes ++ more)
  acks :
      {f : Sender} {bytes : List ℕ} (offset value : ℕ) (g : Sender)
      → Run flow_bytes f bytes
      → receive_ack flow_bytes offset value f ≡ some g
      → Run flow_bytes g bytes
  ended :
      {f : Sender} {bytes : List ℕ}
      → Run flow_bytes f bytes
      → Run flow_bytes (record f { read_eof = true }) bytes
  fin_acks :
      {f : Sender} {bytes : List ℕ} (offset : ℕ)
      → Run flow_bytes f bytes
      → Run flow_bytes (receive_fin_ack offset f) bytes

receive_opened-Tidy :
    (f : Sender) (bytes : List ℕ) (value : ℕ) → Tidy f bytes → Tidy (receive_opened value f) bytes
receive_opened-Tidy f bytes value t = elim (Bool-cases f.opened) [
  | inl old ↦ rw old (marked-Tidy f bytes true f.read_eof f.fin_ack f.window t)
  | inr new ↦ rw new (marked-Tidy f bytes true f.read_eof f.fin_ack value t)
]

receive_fin_ack-Tidy :
    (f : Sender) (bytes : List ℕ) (offset : ℕ)
    → Tidy f bytes
    → Tidy (receive_fin_ack offset f) bytes
receive_fin_ack-Tidy f bytes offset t = elim (Bool-cases (f.read_eof && offset == f.next)) [
  | inl last ↦ rw last (marked-Tidy f bytes f.opened f.read_eof true f.window t)
  | inr other ↦ rw other t
]

module _ (flow_bytes : ℕ) where
  Run-Tidy : (f : Sender) (bytes : List ℕ) → Run flow_bytes f bytes → Tidy f bytes
  Run-Tidy _ _ starts = record {
    from = 0;
    held = record { before = []; joined = refl; place = refl; tiled = tt };
    open_end = omega arith;
    counted = refl;
    placed = refl;
    acked_read = omega arith;
  }
  Run-Tidy _ bytes (opens {f = f} value r) = receive_opened-Tidy f bytes value (Run-Tidy f bytes r)
  Run-Tidy _ _ (reads {f = f} {bytes = bytes} more r) =
      read_endpoint-Tidy f bytes more (Run-Tidy f bytes r)
  Run-Tidy _ bytes (acks {f = f} offset value g r e) =
      receive_ack-Tidy flow_bytes f g bytes offset value (Run-Tidy f bytes r) e
  Run-Tidy _ bytes (ended {f = f} r) =
      marked-Tidy f bytes f.opened true f.fin_ack f.window (Run-Tidy f bytes r)
  Run-Tidy _ bytes (fin_acks {f = f} offset r) =
      receive_fin_ack-Tidy f bytes offset (Run-Tidy f bytes r)

  -- After any reads and acknowledgements, the pending segments together are the end of what was read
  -- from the endpoint, from an offset on that is acknowledged: every byte that is not acknowledged is
  -- still there to be sent again. `send_bytes` is what the pending segments cost.
  pub Run-retains :
      (f : Sender) (bytes : List ℕ)
      → Run flow_bytes f bytes
      → (lo : ℕ) × (lo ≤ f.acked)
        × (f.acked ≤ length bytes)
        × (bytes_of f.pending ≡ drop lo bytes)
        × (f.send_bytes ≡ costs f.pending)
  Run-retains f bytes r =
      let t = Run-Tidy f bytes r in
      let h = t.held in
      (
        t.from,
        t.open_end,
        omega (arith, t.acked_read, t.placed),
        sym (
            ap (drop t.from) h.joined
            ∙ ap (λ n. drop n (h.before ++ bytes_of f.pending)) (sym h.place)
            ∙ drop-length-append h.before (bytes_of f.pending)),
        t.counted,
      )

  sendable-IsFrom :
      (bytes : List ℕ) (window : ℕ) (ss : List Segment)
      → All (IsFrom bytes) ss
      → All (λ s. IsFrom bytes s × (s.offset + length s.payload ≤ window)) (sendable window ss)
  unfolding sendable
  sendable-IsFrom bytes window [] h = tt
  sendable-IsFrom bytes window (s ∷ ss) h =
      elim (Bool-cases (ltb window (s.offset + length s.payload))) [
        | inl beyond ↦ rw beyond (sendable-IsFrom bytes window ss h.1)
        | inr within ↦
            rw within ((h.0, ground (arith, within)), sendable-IsFrom bytes window ss h.1)
      ]

  -- After any reads and acknowledgements, every segment that may be sent, or sent again, holds bytes
  -- that were read from the endpoint, at their place, and ends within the window of the receiver.
  pub Run-sends :
      (f : Sender) (bytes : List ℕ)
      → Run flow_bytes f bytes
      → All
          (λ s. IsFrom bytes s × (s.offset + length s.payload ≤ f.window))
          (sendable f.window f.pending)
  Run-sends f bytes r =
      let t = Run-Tidy f bytes r in
      sendable-IsFrom bytes f.window f.pending (Held-IsFrom bytes t.from f.pending t.held)
