-- ===== src/Continuity/Receiver/Delivery.antt =====
-- Runs of the receiving side of a stream: frames in any order, with losses, repetitions and overlaps.
use route_harbor.Prelude.{ℕ, ◌+◌, ◌≤◌, ◌≡◌, refl, List, [], ◌∷◌, ◌++◌, none, arith, length, take}
use route_harbor.Continuity.Receiver.{
  Segment, Receiver, Bounds, goes_on, find_at, receive_data, receive_fin, consume, new_receiver,
}
use route_harbor.Continuity.Receiver.Segments.{IsFrom, costs, bytes_of}
use route_harbor.Continuity.Receiver.Steps.{
  Closed, Fine, receive_data-Fine, consume-Fine, receive_fin-Fine,
}

-- The state of the stream after some steps, with the bytes that its endpoint was given. Every data
-- frame holds bytes of the sender's stream at their place; `others` is what the other streams do.
pub data Run (stream : List ℕ) (b : Bounds) : Receiver → List ℕ → Type 0 where
  starts : (used : ℕ) → used ≤ b.budget → Run stream b (new_receiver used) []
  data_frame :
      {f : Receiver} {out : List ℕ} (s : Segment) (g : Receiver)
      → Run stream b f out
      → IsFrom stream s
      → receive_data b f s ≡ goes_on g
      → Run stream b g out
  fin_frame :
      {f : Receiver} {out : List ℕ} (offset : ℕ) (g : Receiver)
      → Run stream b f out
      → receive_fin f offset ≡ goes_on g
      → Run stream b g out
  hands_on :
      {f : Receiver} {out : List ℕ} (s : Segment) (rest : List Segment)
      → Run stream b f out
      → f.ready ≡ s ∷ rest
      → Run stream b (consume f s rest) (out ++ s.payload)
  others :
      {f : Receiver} {out : List ℕ} (used : ℕ)
      → Run stream b f out
      → f.recv_bytes ≤ used
      → used ≤ b.budget
      → Run stream b (record f { used = used }) out

module _ (stream : List ℕ) (b : Bounds) where
  Run-Fine : (f : Receiver) (out : List ℕ) → Run stream b f out → Fine stream b f out
  unfolding Fine Closed
  Run-Fine _ _ (starts used h) = (
    record {
      stored = tt;
      delivered = refl;
      taken = refl;
      placed = refl;
      counted = refl;
      bounded = omega arith;
      shared = omega arith;
      within = h;
    },
    refl,
  )
  Run-Fine _ out (data_frame {f = f} s g r p e) =
      receive_data-Fine stream b f g out s (Run-Fine f out r) p e
  Run-Fine _ out (fin_frame {f = f} n g r e) =
      receive_fin-Fine stream b f g out n (Run-Fine f out r) e
  Run-Fine _ _ (hands_on {f = f} {out = out} s rest r e) =
      consume-Fine stream b f out s rest (Run-Fine f out r) e
  Run-Fine _ out (others {f = f} used r low high) =
      let (t, c) = Run-Fine f out r in
      (
        record {
          stored = t.stored;
          delivered = t.delivered;
          taken = t.taken;
          placed = t.placed;
          counted = t.counted;
          bounded = t.bounded;
          shared = low;
          within = high;
        },
        c,
      )

  -- However the data frames of a stream arrive (lost, repeated, out of order, cut in other places),
  -- the bytes handed to its endpoint, with those that are ready, are the first `recv_next` bytes of
  -- the sender's stream, in order and each once, and `consumed` counts the ones handed on.
  pub Run-delivers :
      (f : Receiver) (out : List ℕ)
      → Run stream b f out
      → (out ++ bytes_of f.ready ≡ take f.recv_next stream) × (f.consumed ≡ length out)
  unfolding Fine
  Run-delivers f out r = let (t, c) = Run-Fine f out r in (t.delivered, t.taken)

  pub Run-placed :
      (f : Receiver) (out : List ℕ)
      → Run stream b f out
      → f.recv_next ≡ length out + length (bytes_of f.ready)
  unfolding Fine
  Run-placed f out r = let (t, c) = Run-Fine f out r in t.placed

  -- After any data and finish frames of a stream and any hand-overs, while the other streams stay
  -- within the budget, the bytes held for the stream are exactly what its stored segments cost, within
  -- the limit of a flow and, with the other streams, within the budget; and no stored segment is left
  -- that could be handed on: the rounds of the collecting loop are enough.
  pub Run-accounts :
      (f : Receiver) (out : List ℕ)
      → Run stream b f out
      → (f.recv_bytes ≡ costs f.recv + costs f.ready)
        × (f.recv_bytes ≤ b.flow_bytes)
        × (f.recv_bytes ≤ f.used)
        × (f.used ≤ b.budget)
        × (find_at f.recv_next f.recv ≡ none)
  unfolding Fine Closed
  Run-accounts f out r =
      let (t, c) = Run-Fine f out r in (t.counted, t.bounded, t.shared, t.within, c)
