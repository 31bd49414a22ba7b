-- ===== src/Continuity/Sender/Retention.antt =====
-- What the sending side keeps until it is acknowledged.
use mathlib.Core.List.{append_assoc, append-nil}
use route_harbor.Prelude.{
  ℕ, ◌+◌, ◌-◌, ◌≤◌, ◌<◌, ◌≡◌, refl, sym, ap, subst, ◌∙◌, Bool, true, ◌||◌, List, [], ◌∷◌, ◌++◌,
  some, arith, ltb, leb, ◌==◌, length, All, length-append, Bool-cases, inl, inr,
}
use route_harbor.Continuity.Receiver.{Segment}
use route_harbor.Continuity.Receiver.Segments.{
  IsFrom, costs, bytes_of, bytes_of-append, costs-append,
}
use route_harbor.Continuity.Sender.{
  Sender, read_some, read_endpoint, keep_after, cost_until, receive_ack,
}

-- The segments follow one another without a gap.
abbrev pub Tiled : ℕ → List Segment → Type 0
Tiled lo [] = Unit {0}
Tiled lo (s ∷ ss) = (s.offset ≡ lo) × Tiled (lo + length s.payload) ss

-- The segments are the end of the bytes, from an offset on.
pub record Held (bytes : List ℕ) (lo : ℕ) (ss : List Segment) : Type 0 where
  pub before : List ℕ
  pub joined : bytes ≡ before ++ bytes_of ss
  pub place : length before ≡ lo
  pub tiled : Tiled lo ss

Held-tail :
    (bytes : List ℕ) (lo : ℕ) (s : Segment) (ss : List Segment)
    → Held bytes lo (s ∷ ss)
    → Held bytes (lo + length s.payload) ss
Held-tail bytes lo s ss h = record {
  before = h.before ++ s.payload;
  joined = h.joined ∙ sym (append_assoc h.before s.payload (bytes_of ss));
  place = omega (arith, h.place, length-append h.before s.payload);
  tiled = h.tiled.1;
}

pub Held-IsFrom :
    (bytes : List ℕ) (lo : ℕ) (ss : List Segment) → Held bytes lo ss → All (IsFrom bytes) ss
Held-IsFrom bytes lo [] h = tt
Held-IsFrom bytes lo (s ∷ ss) h = (
  record {
    before = h.before;
    after = bytes_of ss;
    joined = h.joined;
    place = omega (arith, h.place, h.tiled.0);
  },
  Held-IsFrom bytes (lo + length s.payload) ss (Held-tail bytes lo s ss h),
)

Tiled-append :
    (lo : ℕ) (ss : List Segment) (s : Segment)
    → Tiled lo ss
    → s.offset ≡ lo + length (bytes_of ss)
    → Tiled lo (ss ++ (s ∷ []))
Tiled-append lo [] s h e = (omega (arith, e), tt)
Tiled-append lo (x ∷ ss) s h e = (
  h.0,
  Tiled-append (lo + length x.payload) ss s h.1
      (omega (arith, e, length-append x.payload (bytes_of ss))),
)

-- Segments behind an offset are all kept.
keep_after_all : (n lo : ℕ) (ss : List Segment) → Tiled lo ss → n < lo → keep_after n ss ≡ ss
unfolding keep_after
keep_after_all n lo [] h k = refl
keep_after_all n lo (s ∷ ss) h k =
    let rest : keep_after n ss ≡ ss =
      keep_after_all n (lo + length s.payload) ss h.1 (omega (arith, k)) in
    ground (arith, h.0, k, rest)

cost_until_keep : (n : ℕ) (ss : List Segment) → costs ss ≡ cost_until n ss + costs (keep_after n ss)
unfolding cost_until keep_after
cost_until_keep n [] = refl
cost_until_keep n (s ∷ ss) = ground (arith, cost_until_keep n ss)

-- What is kept after an acknowledgement starts no later than the acknowledged offset.
keep_after-Held :
    (bytes : List ℕ) (n lo : ℕ) (ss : List Segment)
    → Held bytes lo ss
    → lo ≤ n
    → (m : ℕ) × (m ≤ n) × Held bytes m (keep_after n ss)
unfolding keep_after
keep_after-Held bytes n lo [] h k = (lo, k, h)
keep_after-Held bytes n lo (s ∷ ss) h k = elim (Bool-cases (leb (s.offset + length s.payload) n)) [
  | inl old ↦ rw old (
      keep_after-Held bytes n (lo + length s.payload) ss (Held-tail bytes lo s ss h)
        (ground (arith, old, h.tiled.0)))
  | inr new ↦
      let rest : keep_after n ss ≡ ss =
        keep_after_all n (lo + length s.payload) ss h.tiled.1 (ground (arith, new, h.tiled.0)) in
      rw (new, rest) (lo, k, h)
]

pub record Tidy (f : Sender) (bytes : List ℕ) : Type 0 where
  pub from : ℕ
  pub held : Held bytes from f.pending
  pub open_end : from ≤ f.acked
  pub counted : f.send_bytes ≡ costs f.pending
  pub placed : f.next ≡ length bytes
  pub acked_read : f.acked ≤ f.next

read_some-Tidy :
    (f : Sender) (bytes more : List ℕ) → Tidy f bytes → Tidy (read_some more f) (bytes ++ more)
read_some-Tidy f bytes more t = record {
  from = t.from;
  held = record {
    before = t.held.before;
    joined =
        ap (λ b. b ++ more) t.held.joined
        ∙ append_assoc t.held.before (bytes_of f.pending) more
        ∙ ap (λ b. t.held.before ++ b)
            (sym (bytes_of-append f.pending (record { offset = f.next; payload = more })));
    place = t.held.place;
    tiled =
        Tiled-append t.from f.pending (record { offset = f.next; payload = more }) t.held.tiled
          (omega (
            arith,
            t.placed,
            t.held.place,
            ap length t.held.joined,
            length-append t.held.before (bytes_of f.pending),
          ));
  };
  open_end = t.open_end;
  counted =
      omega (arith, t.counted, costs-append f.pending (record { offset = f.next; payload = more }));
  placed = omega (arith, t.placed, length-append bytes more);
  acked_read = omega (arith, t.acked_read);
}

no_bytes : (bytes : List ℕ) → (length bytes == 0) ≡ true → bytes ≡ []
no_bytes [] h = refl
no_bytes (x ∷ bytes) h = absurd (ground (arith, h))

pub read_endpoint-Tidy :
    (f : Sender) (bytes more : List ℕ) → Tidy f bytes → Tidy (read_endpoint more f) (bytes ++ more)
unfolding read_endpoint
read_endpoint-Tidy f bytes more t = elim (Bool-cases (length more == 0)) [
  | inl none_read ↦ rw (none_read, no_bytes more none_read, append-nil bytes) t
  | inr some_read ↦ rw some_read (read_some-Tidy f bytes more t)
]

-- The stream after an acknowledgement of new bytes.
abbrev acknowledged : Sender → ℕ → ℕ → Sender
acknowledged f offset value = record f {
  window = value;
  acked = offset;
  pending = keep_after offset f.pending;
  send_bytes = f.send_bytes - cost_until offset f.pending;
}

acknowledged-Tidy :
    (f : Sender) (bytes : List ℕ) (offset value : ℕ)
    → Tidy f bytes
    → f.acked ≤ offset
    → offset ≤ f.next
    → Tidy (acknowledged f offset value) bytes
acknowledged-Tidy f bytes offset value t new read =
    let (m, low, held) =
      keep_after-Held bytes offset t.from f.pending t.held (omega (arith, new, t.open_end)) in
    record {
      from = m;
      held = held;
      open_end = low;
      counted = omega (arith, t.counted, cost_until_keep offset f.pending);
      placed = t.placed;
      acked_read = read;
    }

-- The other fields do not matter.
pub marked-Tidy :
    (f : Sender) (bytes : List ℕ) (opened read_eof fin_ack : Bool) (window : ℕ)
    → Tidy f bytes
    → Tidy
        (record f { opened = opened; read_eof = read_eof; fin_ack = fin_ack; window = window })
        bytes
marked-Tidy f bytes opened read_eof fin_ack window t = record {
  from = t.from;
  held = t.held;
  open_end = t.open_end;
  counted = t.counted;
  placed = t.placed;
  acked_read = t.acked_read;
}

some-injective : (f g : Sender) → some f ≡ some g → f ≡ g
some-injective f g e = cc

pub receive_ack-Tidy :
    (flow_bytes : ℕ) (f g : Sender) (bytes : List ℕ) (offset value : ℕ)
    → Tidy f bytes
    → receive_ack flow_bytes offset value f ≡ some g
    → Tidy g bytes
unfolding receive_ack
receive_ack-Tidy flow_bytes f g bytes offset value t e =
    elim (Bool-cases (ltb f.next offset || (ltb value offset || ltb flow_bytes (value - offset)))) [
      | inl bad ↦ absurd (ground (arith, e, bad))
      | inr good ↦ elim (Bool-cases (ltb f.acked offset)) [
        | inl new ↦
            subst (λ x. Tidy x bytes)
              (some-injective (acknowledged f offset value) g (ground (arith, e, good, new)))
              (acknowledged-Tidy f bytes offset value t (ground (arith, new))
                (ground (arith, good)))
        | inr old ↦
            subst (λ x. Tidy x bytes)
              (some-injective (record f { window = value }) g (ground (arith, e, good, old)))
              (marked-Tidy f bytes f.opened f.read_eof f.fin_ack value t)
      ]
    ]
