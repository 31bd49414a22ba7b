-- ===== src/Continuity/Datagrams/Delivery.antt =====
-- Runs of the received datagrams of a flow.
use mathlib.Core.List.{append_assoc}
use route_harbor.Prelude.{
  ℕ, ◌+◌, ◌≡◌, refl, sym, ap, subst, ◌∙◌, inl, inr, Bool, true, false, not, ◌||◌, List, [], ◌∷◌,
  ◌++◌, some, arith, ltb, ◌==◌, length, Bool-cases,
}
use route_harbor.Continuity.Window.{DatagramWindow, empty, contains, add}
use route_harbor.Continuity.Window.History.{
  member, Holds, empty-Holds, add-Holds, contains_iff, Distinct,
}
use route_harbor.Continuity.Wire.{max_payload}
use route_harbor.Continuity.Receiver.{Segment}
use route_harbor.Continuity.Datagrams.{Datagrams, accept, receive_datagram, hand_on}

abbrev pub offsets : List Segment → List ℕ
offsets [] = []
offsets (s ∷ ss) = s.offset ∷ offsets ss

abbrev pub no_datagrams : Datagrams
no_datagrams = record { opened = true; seen = empty; ready = []; recv_bytes = 0; dropped = 0 }

-- The state after some datagrams, with those that were handed on, the first one first.
pub data Run : Datagrams → List Segment → Type 0 where
  starts : Run no_datagrams []
  gets :
      {f : Datagrams} {out : List Segment} (room : Bool) (s : Segment) (g : Datagrams)
      → Run f out
      → receive_datagram room s f ≡ some g
      → Run g out
  hands_on :
      {f : Datagrams} {out : List Segment} (s : Segment) (rest : List Segment)
      → Run f out
      → f.ready ≡ s ∷ rest
      → Run (hand_on f s rest) (out ++ (s ∷ []))

member-append :
    (n : ℕ) (ss : List Segment) (s : Segment)
    → member n (offsets (ss ++ (s ∷ []))) ≡ (n == s.offset || member n (offsets ss))
member-append n [] s = refl
member-append n (x ∷ ss) s = ground (arith, member-append n ss s)

Distinct-append :
    (ss : List Segment) (s : Segment)
    → Distinct (offsets ss)
    → member s.offset (offsets ss) ≡ false
    → Distinct (offsets (ss ++ (s ∷ [])))
Distinct-append [] s d h = (refl, tt)
Distinct-append (x ∷ ss) s d h = (
  ground (arith, member-append x.offset ss s, d.0, h),
  Distinct-append ss s d.1 (ground (arith, h)),
)

Holds-append :
    (w : DatagramWindow) (ss : List Segment) (s : Segment)
    → Holds w (s.offset ∷ offsets ss)
    → Holds w (offsets (ss ++ (s ∷ [])))
Holds-append w ss s h = record {
  words = h.words;
  newest = λ n e. h.newest n (sym (member-append n ss s) ∙ e);
  exact = λ n p q. h.exact n p q ∙ sym (member-append n ss s);
}

record Tidy (f : Datagrams) (out : List Segment) : Type 0 where
  holds : Holds f.seen (offsets (out ++ f.ready))
  distinct : Distinct (offsets (out ++ f.ready))

accept-Tidy :
    (f : Datagrams) (out : List Segment) (s : Segment)
    → contains f.seen s.offset ≡ false
    → Tidy f out
    → Tidy (accept s f) out
unfolding accept
accept-Tidy f out s new t = record {
  holds =
      subst (λ l. Holds (add f.seen s.offset) (offsets l)) joined
        (Holds-append (add f.seen s.offset) (out ++ f.ready) s
          (add-Holds f.seen (offsets (out ++ f.ready)) s.offset new t.holds));
  distinct =
      subst (λ l. Distinct (offsets l)) joined
        (Distinct-append (out ++ f.ready) s t.distinct unheard);
}
  where
    joined : (out ++ f.ready) ++ (s ∷ []) ≡ out ++ (f.ready ++ (s ∷ []))
    joined = append_assoc out f.ready (s ∷ [])

    unheard : member s.offset (offsets (out ++ f.ready)) ≡ false
    unheard = ground (arith, new, contains_iff f.seen (offsets (out ++ f.ready)) s.offset t.holds)

some-injective : (f g : Datagrams) → some f ≡ some g → f ≡ g
some-injective f g e = cc

receive_datagram-Tidy :
    (f g : Datagrams) (out : List Segment) (room : Bool) (s : Segment)
    → Tidy f out
    → receive_datagram room s f ≡ some g
    → Tidy g out
unfolding receive_datagram
receive_datagram-Tidy f g out room s t e =
    elim (Bool-cases (not f.opened || ltb max_payload (length s.payload))) [
      | inl bad ↦ absurd (ground (arith, e, bad))
      | inr good ↦ elim (Bool-cases (contains f.seen s.offset)) [
        | inl old ↦ subst (λ x. Tidy x out) (some-injective f g (ground (arith, e, good, old))) t
        | inr new ↦ elim (Bool-cases room) [
          | inl fits ↦
              subst (λ x. Tidy x out)
                (some-injective (accept s f) g (ground (arith, e, good, new, fits)))
                (accept-Tidy f out s new t)
          | inr full ↦
              subst (λ x. Tidy x out)
                (some-injective (record f { dropped = f.dropped + 1 }) g
                  (ground (arith, e, good, new, full)))
                (record { holds = t.holds; distinct = t.distinct })
        ]
      ]
    ]

Run-Tidy : (f : Datagrams) (out : List Segment) → Run f out → Tidy f out
Run-Tidy _ _ starts = record { holds = empty-Holds; distinct = tt }
Run-Tidy _ out (gets {f = f} room s g r e) =
    receive_datagram-Tidy f g out room s (Run-Tidy f out r) e
Run-Tidy _ _ (hands_on {f = f} {out = out} s rest r e) =
    let t = Run-Tidy f out r in
    let same : out ++ f.ready ≡ (out ++ (s ∷ [])) ++ rest =
      ap (λ l. out ++ l) e ∙ sym (append_assoc out (s ∷ []) rest) in
    record {
      holds = subst (λ l. Holds f.seen (offsets l)) same t.holds;
      distinct = subst (λ l. Distinct (offsets l)) same t.distinct;
    }

-- Over any datagrams that a flow receives, with any of them dropped for want of room, no sequence
-- number is handed on or made ready twice.
pub Run-at_most_once :
    (f : Datagrams) (out : List Segment) → Run f out → Distinct (offsets (out ++ f.ready))
Run-at_most_once f out r = (Run-Tidy f out r).distinct
