-- ===== src/Continuity/Receiver/Steps.antt =====
-- The steps of the receiving side of a stream, one by one.
use mathlib.Core.List.{append_assoc}
use route_harbor.Prelude.{
  ℕ, zero, suc, ◌+◌, ◌≤◌, ◌≡◌, refl, sym, ap, subst, ◌∙◌, true, not, ◌&&◌, ◌||◌, List, [], ◌∷◌,
  ◌++◌, none, arith, ltb, leb, ◌==◌, length, take, All, length-append, Bool-cases, Option-cases,
  inl, inr,
}
use route_harbor.Continuity.Receiver.{
  Segment, cost, Receiver, Bounds, goes_on, find_at, move_next, collect, insert, store, receive_new,
  cut, receive_data, receive_fin, consume,
}
use route_harbor.Continuity.Receiver.Segments.{
  IsPart, IsFrom, costs, bytes_of, take-IsPart, cut-IsFrom, Found, find_at-Found, bytes_of-append,
  costs-append,
}

goes_on-injective : (f g : Receiver) → goes_on f ≡ goes_on g → f ≡ g
goes_on-injective f g e = cc

find_at_empty : (n : ℕ) (ss : List Segment) → length ss ≤ 0 → find_at n ss ≡ none
find_at_empty n [] h = refl
find_at_empty n (s ∷ ss) h = absurd (omega arith)

module _ (stream : List ℕ) (b : Bounds) where
  -- What holds between the loops, and inside of them.
  pub record Tidy (f : Receiver) (out : List ℕ) : Type 0 where
    pub stored : All (IsFrom stream) f.recv
    pub delivered : out ++ bytes_of f.ready ≡ take f.recv_next stream
    pub taken : f.consumed ≡ length out
    pub placed : f.recv_next ≡ length out + length (bytes_of f.ready)
    pub counted : f.recv_bytes ≡ costs f.recv + costs f.ready
    pub bounded : f.recv_bytes ≤ b.flow_bytes
    pub shared : f.recv_bytes ≤ f.used
    pub within : f.used ≤ b.budget

  unfoldable pub Closed : Receiver → Type 0
  Closed f = find_at f.recv_next f.recv ≡ none

  move_next-Tidy :
      (f : Receiver) (out : List ℕ) (s : Segment)
      → Tidy f out
      → Found stream f.recv_next f.recv s
      → Tidy (move_next f s) out
  move_next-Tidy f out s t found = record {
    stored = found.rest;
    delivered =
        ap (λ r. out ++ r) (bytes_of-append f.ready s)
        ∙ sym (append_assoc out (bytes_of f.ready) s.payload)
        ∙ ap (λ r. r ++ s.payload) t.delivered
        ∙ take-IsPart stream f.recv_next s.payload
            (subst (λ n. IsPart stream n s.payload) found.at found.part);
    taken = t.taken;
    placed = omega (
      arith,
      t.placed,
      ap length (bytes_of-append f.ready s),
      length-append (bytes_of f.ready) s.payload,
    );
    counted = omega (arith, t.counted, found.total, costs-append f.ready s);
    bounded = t.bounded;
    shared = t.shared;
    within = t.within;
  }

  collect-Tidy :
      (fuel : ℕ) (f : Receiver) (out : List ℕ)
      → Tidy f out
      → length f.recv ≤ fuel
      → Tidy (collect fuel f) out × Closed (collect fuel f)
  unfolding collect Closed
  collect-Tidy zero f out t h = (t, find_at_empty f.recv_next f.recv h)
  collect-Tidy (suc fuel) f out t h = elim (Option-cases (find_at f.recv_next f.recv)) [
    | inl e ↦ rw (e, collect) (t, e)
    | inr (s, e) ↦
        let found : Found stream f.recv_next f.recv s =
          find_at-Found stream f.recv_next f.recv s t.stored e in
        rw (e, collect)
          (collect-Tidy fuel (move_next f s) out (move_next-Tidy f out s t found)
            (omega (arith, found.fewer)))
  ]

  -- Both, since the loop ends with no segment left to move.
  unfoldable pub Fine : Receiver → List ℕ → Type 0
  Fine f out = Tidy f out × Closed f

  moved : (f g : Receiver) (out : List ℕ) → Fine f out → goes_on f ≡ goes_on g → Fine g out
  moved f g out h e = subst (λ x. Fine x out) (goes_on-injective f g e) h

  insert-Tidy :
      (f : Receiver) (out : List ℕ) (s : Segment)
      → Tidy f out
      → IsFrom stream s
      → f.recv_bytes + cost s ≤ b.flow_bytes
      → f.used + cost s ≤ b.budget
      → Tidy (insert f s) out
  insert-Tidy f out s t p room share = record {
    stored = (p, t.stored);
    delivered = t.delivered;
    taken = t.taken;
    placed = t.placed;
    counted = omega (arith, t.counted);
    bounded = room;
    shared = omega (arith, t.shared);
    within = share;
  }

  store-Fine :
      (f g : Receiver) (out : List ℕ) (s : Segment)
      → Fine f out
      → IsFrom stream s
      → store b f s ≡ goes_on g
      → Fine g out
  unfolding store Fine
  store-Fine f g out s h p e =
      elim (Bool-cases
        (ltb b.flow_bytes (f.recv_bytes + cost s) || ltb b.budget (f.used + cost s))) [
          | inl full ↦ moved f g out h (ground (arith, e, full))
          | inr room ↦
              moved (collect (suc (length f.recv)) (insert f s)) g out
                (collect-Tidy (suc (length f.recv)) (insert f s) out
                  (insert-Tidy f out s h.0 p (ground (arith, room)) (ground (arith, room)))
                  (omega arith))
                (ground (arith, e, room))
        ]

  receive_new-Fine :
      (f g : Receiver) (out : List ℕ) (s : Segment)
      → Fine f out
      → IsFrom stream s
      → receive_new b f s ≡ goes_on g
      → Fine g out
  unfolding receive_new
  receive_new-Fine f g out s h p e =
      elim (Bool-cases (ltb (f.consumed + b.flow_bytes) (s.offset + length s.payload))) [
        | inl beyond ↦ moved f g out h (ground (arith, e, beyond))
        | inr fits ↦ ground (arith, e, fits, moved f g out h, store-Fine f g out s h p)
      ]

  pub receive_data-Fine :
      (f g : Receiver) (out : List ℕ) (s : Segment)
      → Fine f out
      → IsFrom stream s
      → receive_data b f s ≡ goes_on g
      → Fine g out
  unfolding receive_data
  receive_data-Fine f g out s h p e =
      elim (Bool-cases (leb (s.offset + length s.payload) f.recv_next)) [
        | inl old ↦ moved f g out h (ground (arith, e, old))
        | inr new ↦
            receive_new-Fine f g out (cut f.recv_next s) h
              (cut-IsFrom stream f.recv_next s (ground (arith, new)) p) (ground (arith, e, new))
      ]

  pub consume-Fine :
      (f : Receiver) (out : List ℕ) (s : Segment) (rest : List Segment)
      → Fine f out
      → f.ready ≡ s ∷ rest
      → Fine (consume f s rest) (out ++ s.payload)
  unfolding Fine Closed
  consume-Fine f out s rest (t, c) e = (
    record {
      stored = t.stored;
      delivered =
          append_assoc out s.payload (bytes_of rest)
          ∙ ap (λ r. out ++ bytes_of r) (sym e)
          ∙ t.delivered;
      taken = omega (arith, t.taken, length-append out s.payload);
      placed = omega (
        arith,
        t.placed,
        length-append out s.payload,
        ap (λ r. length (bytes_of r)) e,
        length-append s.payload (bytes_of rest),
      );
      counted = omega (arith, t.counted, ap costs e);
      bounded = omega (arith, t.bounded);
      shared = omega (arith, t.shared, t.counted, ap costs e);
      within = omega (arith, t.within);
    },
    c,
  )

  pub receive_fin-Fine :
      (f g : Receiver) (out : List ℕ) (n : ℕ)
      → Fine f out
      → receive_fin f n ≡ goes_on g
      → Fine g out
  unfolding receive_fin Fine Closed
  receive_fin-Fine f g out n (t, c) e =
      elim (Bool-cases (f.udp || (ltb n f.recv_next || (f.recv_fin && not (f.fin_offset == n))))) [
        | inl bad ↦ absurd (ground (arith, e, bad))
        | inr good ↦
            moved (record f { recv_fin = true; fin_offset = n }) g out
              (
                record {
                  stored = t.stored;
                  delivered = t.delivered;
                  taken = t.taken;
                  placed = t.placed;
                  counted = t.counted;
                  bounded = t.bounded;
                  shared = t.shared;
                  within = t.within;
                },
                c,
              )
              (ground (arith, e, good))
      ]
