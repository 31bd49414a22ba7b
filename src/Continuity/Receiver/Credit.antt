-- ===== src/Continuity/Receiver/Credit.antt =====
-- What the credit of `receiveWindow` in peer.go promises to the sender.
use route_harbor.Prelude.{
  ℕ, suc, ◌+◌, ◌^◌, ◌≤◌, ◌<◌, ◌≡◌, refl, true, false, List, [], ◌∷◌, ◌++◌, arith, length,
  length-append,
}
use route_harbor.Continuity.Receiver.{
  Segment, cost, chunk_size, Receiver, Bounds, goes_on, move_next, collect, clash, insert, store,
  receive_new, receive_data, receive_window,
}
use route_harbor.Continuity.Receiver.Segments.{costs, bytes_of}
use route_harbor.Continuity.Receiver.Delivery.{Run, Run-delivers, Run-accounts, Run-placed}

length-bytes_of : (ss : List Segment) → length (bytes_of ss) ≤ costs ss
length-bytes_of [] = omega arith
length-bytes_of (s ∷ ss) = omega (arith, length-bytes_of ss, length-append s.payload (bytes_of ss))

module _ (stream : List ℕ) (b : Bounds) where
  -- What a segment at the head of the stream finds, when it is within the credit.
  in_credit :
      (f : Receiver) (out : List ℕ) (s : Segment)
      → Run stream b f out
      → s.offset ≡ f.recv_next
      → 1 ≤ length s.payload
      → s.offset + length s.payload ≤ receive_window b f
      → (f.recv_bytes + cost s ≤ b.flow_bytes)
        × (f.used + cost s ≤ b.budget)
        × (s.offset + length s.payload ≤ f.consumed + b.flow_bytes)
  unfolding receive_window
  in_credit f out s r at some_bytes credit =
      let p = Run-placed stream b f out r in
      let a = Run-accounts stream b f out r in
      let d = (Run-delivers stream b f out r).1 in
      let ready : length (bytes_of f.ready) ≤ costs f.ready = length-bytes_of f.ready in
      (
        ground (arith, credit, at, some_bytes),
        ground (arith, credit, at, some_bytes),
        ground (arith, credit, at, some_bytes, p, a, d, ready),
      )

  collect_one :
      (f : Receiver) (s : Segment)
      → f.recv ≡ []
      → s.offset ≡ f.recv_next
      → collect (suc (length f.recv)) (insert f s) ≡ move_next (insert f s) s
  unfolding collect
  collect_one f s e at = rw e (ground (arith, at))

  -- A data frame of 1 to 16384 bytes that goes on where an open stream stands, with nothing stored and no
  -- finish known, and that ends within the credit of that moment, is taken: its segment is the next
  -- one ready, and the stream stands behind it.
  pub receive_data-in_credit :
      (f : Receiver) (out : List ℕ) (s : Segment)
      → Run stream b f out
      → f.udp ≡ false
      → f.opened ≡ true
      → f.recv_fin ≡ false
      → f.recv ≡ []
      → s.offset ≡ f.recv_next
      → 1 ≤ length s.payload
      → length s.payload ≤ chunk_size
      → s.offset + length s.payload < 2 ^ 64
      → s.offset + length s.payload ≤ receive_window b f
      → (g : Receiver) × (receive_data b f s ≡ goes_on g)
        × (g.ready ≡ f.ready ++ (s ∷ []))
        × (g.recv_next ≡ s.offset + length s.payload)
  unfolding receive_data receive_new store clash
  receive_data-in_credit f out s r tcp open_ unfinished empty at some_bytes small fits credit =
      let c = in_credit f out s r at some_bytes credit in
      (
        move_next (insert f s) s,
        ground (
          arith,
          c,
          tcp,
          open_,
          unfinished,
          empty,
          at,
          some_bytes,
          small,
          fits,
          collect_one f s empty at,
        ),
        refl,
        omega (arith, at),
      )
