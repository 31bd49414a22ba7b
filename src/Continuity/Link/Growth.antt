-- ===== src/Continuity/Link/Growth.antt =====
-- What the steps of both sides of a stream keep: parts of the stream, offsets received, offsets acknowledged.
use mathlib.Core.List.{append_assoc}
use route_harbor.Prelude.{
  ℕ, zero, suc, ◌+◌, ◌≤◌, ◌≡◌, ap, ◌∙◌, Bool, true, false, ◌&&◌, ◌||◌, List, [], ◌∷◌, ◌++◌, some,
  arith, ltb, leb, length, All, Option-cases, inl, inr, if◌then◌else◌,
}
use route_harbor.Continuity.Receiver.{
  Segment, cost, Receiver, Bounds, Received, goes_on, ends, find_at, move_next, collect, insert,
  Clash, no_clash, repeated, overlapping, overlapping_frame, clash, store, receive_new, cut,
  malformed, receive_data, receive_fin,
}
use route_harbor.Continuity.Receiver.Segments.{IsPart, IsFrom}
use route_harbor.Continuity.Receiver.Delivery.{Run}
use route_harbor.Continuity.Sender.{Sender, read_endpoint, receive_ack}

IsPart-append :
    (bytes more : List ℕ) (n : ℕ) (part : List ℕ)
    → IsPart bytes n part
    → IsPart (bytes ++ more) n part
IsPart-append bytes more n part p = record {
  before = p.before;
  after = p.after ++ more;
  joined =
      ap (λ x. x ++ more) p.joined
      ∙ append_assoc p.before (part ++ p.after) more
      ∙ ap (λ x. p.before ++ x) (append_assoc part p.after more);
  place = p.place;
}

pub All-IsPart-append :
    (bytes more : List ℕ) (ss : List Segment)
    → All (IsFrom bytes) ss
    → All (IsFrom (bytes ++ more)) ss
All-IsPart-append bytes more [] h = tt
All-IsPart-append bytes more (s ∷ ss) h =
    (IsPart-append bytes more s.offset s.payload h.0, All-IsPart-append bytes more ss h.1)

-- A longer stream explains the same run.
pub Run-append :
    (bytes more : List ℕ) (b : Bounds) (f : Receiver) (out : List ℕ)
    → Run bytes b f out
    → Run (bytes ++ more) b f out
Run-append bytes more b _ _ (Run.starts used h) = Run.starts used h
Run-append bytes more b _ out (Run.data_frame {f = f} s g r p e) =
    Run.data_frame s g (Run-append bytes more b f out r)
      (IsPart-append bytes more s.offset s.payload p) e
Run-append bytes more b _ out (Run.fin_frame {f = f} n g r e) =
    Run.fin_frame n g (Run-append bytes more b f out r) e
Run-append bytes more b _ _ (Run.hands_on {f = f} {out = out} s rest r e) =
    Run.hands_on s rest (Run-append bytes more b f out r) e
Run-append bytes more b _ out (Run.others {f = f} used r low high) =
    Run.others used (Run-append bytes more b f out r) low high

collect_grows : (fuel : ℕ) (f : Receiver) → f.recv_next ≤ (collect fuel f).recv_next
unfolding collect
collect_grows zero f = omega arith
collect_grows (suc fuel) f = elim (Option-cases (find_at f.recv_next f.recv)) [
  | inl e ↦ rw (e, collect) (omega arith)
  | inr (s, e) ↦ rw (e, collect) (omega (arith, collect_grows fuel (move_next f s)))
]

unfoldable pub Grown : ℕ → Received → Type 0
Grown n (goes_on g) = n ≤ g.recv_next
Grown n (ends e) = Unit {0}

Grown-if :
    (n : ℕ) (c : Bool) (x y : Received) → Grown n x → Grown n y → Grown n (if c then x else y)
Grown-if n true x y h k = h
Grown-if n false x y h k = k

store_grows : (b : Bounds) (f : Receiver) (s : Segment) → Grown f.recv_next (store b f s)
unfolding store Grown
store_grows b f s =
    Grown-if f.recv_next
      (ltb b.flow_bytes (f.recv_bytes + cost s) || ltb b.budget (f.used + cost s)) (goes_on f)
      (goes_on (collect (suc (length f.recv)) (insert f s))) (omega arith)
      (collect_grows (suc (length f.recv)) (insert f s))

clash_grows :
    (b : Bounds) (f : Receiver) (s : Segment) (c : Clash)
    → Grown f.recv_next (elim c [
      | no_clash ↦ store b f s
      | repeated ↦ goes_on f
      | overlapping ↦ ends overlapping_frame
    ])
unfolding Grown
clash_grows b f s no_clash = store_grows b f s
clash_grows b f s repeated = omega arith
clash_grows b f s overlapping = tt

pub receive_data_grows :
    (b : Bounds) (f : Receiver) (s : Segment) → Grown f.recv_next (receive_data b f s)
unfolding receive_data receive_new Grown
receive_data_grows b f s = Grown-if f.recv_next (malformed f s) _ _ tt (
    Grown-if f.recv_next (f.recv_fin && ltb f.fin_offset (s.offset + length s.payload)) _ _ tt (
      Grown-if f.recv_next (leb (s.offset + length s.payload) f.recv_next) _ _ (omega arith) (
        Grown-if f.recv_next
          (ltb (f.consumed + b.flow_bytes)
            ((cut f.recv_next s).offset + length (cut f.recv_next s).payload))
          _ _ (omega arith)
          (clash_grows b f (cut f.recv_next s) (clash (cut f.recv_next s) f.recv)))))

module _ {A : Type 0} (P : A → Type 0) where
  pub All-append : (xs ys : List A) → All P xs → All P ys → All P (xs ++ ys)
  All-append [] ys h k = k
  All-append (x ∷ xs) ys h k = (h.0, All-append xs ys h.1 k)

  pub All-middle : (xs ys : List A) (y : A) → All P (xs ++ (y ∷ ys)) → P y
  All-middle [] ys y h = h.0
  All-middle (x ∷ xs) ys y h = All-middle xs ys y h.1

pub All-IsFrom :
    (bytes : List ℕ) (window : ℕ) (ss : List Segment)
    → All (λ s. IsFrom bytes s × (s.offset + length s.payload ≤ window)) ss
    → All (IsFrom bytes) ss
All-IsFrom bytes window [] h = tt
All-IsFrom bytes window (s ∷ ss) h = (h.0.0, All-IsFrom bytes window ss h.1)

unfoldable pub Reached : ℕ → ℕ × ℕ → Type 0
Reached n a = a.0 ≤ n

pub All-Reached-le :
    (n m : ℕ) (acks : List (ℕ × ℕ)) → n ≤ m → All (Reached n) acks → All (Reached m) acks
unfolding Reached
All-Reached-le n m [] le h = tt
All-Reached-le n m (a ∷ acks) le h = (omega (arith, h.0), All-Reached-le n m acks le h.1)

pub receive_fin_next :
    (f g : Receiver) (n : ℕ) → receive_fin f n ≡ goes_on g → g.recv_next ≡ f.recv_next
unfolding receive_fin
receive_fin_next f g n e = ground (arith, e)

pub read_endpoint_acked : (more : List ℕ) (f : Sender) → (read_endpoint more f).acked ≡ f.acked
unfolding read_endpoint
read_endpoint_acked more f = ground arith

pub receive_ack_acked :
    (flow_bytes offset value n : ℕ) (f g : Sender)
    → receive_ack flow_bytes offset value f ≡ some g
    → offset ≤ n
    → f.acked ≤ n
    → g.acked ≤ n
unfolding receive_ack
receive_ack_acked flow_bytes offset value n f g e h k = ground (arith, e)
