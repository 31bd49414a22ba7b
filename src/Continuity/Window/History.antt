-- ===== src/Continuity/Window/History.antt =====
-- The bitmap of peer.go against the set of the numbers that were added to it.
use route_harbor.Prelude.{
  ℕ, ◌+◌, ◌-◌, ◌≤◌, ◌<◌, ◌≡◌, ◌↔◌, ◌⊎◌, inl, inr, refl, Bool, true, false, ◌||◌, List, [], ◌∷◌,
  arith, ◌==◌, if◌then◌else◌, length, Bool-cases,
}
use route_harbor.Continuity.Window.{DatagramWindow, empty, cell, put_cell, contains, slide, add}
use route_harbor.Continuity.Window.Cells.{
  cell-put_cell, length-put_cell, cell-no_bits, length-clear_cells, cell-clear_cells_below,
  cell-clear_cells,
}

-- A member of the list.
abbrev pub member : ℕ → List ℕ → Bool
member n [] = false
member n (x ∷ xs) = n == x || member n xs

-- The window holds what was added, as far as it reaches back.
pub record Holds (w : DatagramWindow) (seen : List ℕ) : Type 0 where
  pub words : length w.bits ≡ 64
  pub newest : (n : ℕ) → member n seen ≡ true → n ≤ w.high
  pub exact : (n : ℕ) → n ≤ w.high → w.high < n + 4096 → cell w.bits n ≡ member n seen

pub empty-Holds : Holds empty []
empty-Holds = record { words = refl; newest = λ n h. cc; exact = λ n p q. cell-no_bits n }

slide-Holds : (w : DatagramWindow) (seen : List ℕ) (n : ℕ) → Holds w seen → Holds (slide w n) seen
unfolding slide
slide-Holds w seen n h = record {
  words = ground (arith, h.words, length-clear_cells w.bits (w.high + 1) (n - w.high));
  newest = λ m p. ground (arith, h.newest m p);
  exact = λ m p q. ground (
    arith,
    h.words,
    h.newest m,
    h.exact m,
    cell-no_bits m,
    cell-clear_cells w.bits (w.high + 1) (n - w.high) m,
    cell-clear_cells_below w.bits (w.high + 1) (n - w.high) m,
  );
}

slide-high : (w : DatagramWindow) (n : ℕ) → n ≤ (slide w n).high
unfolding slide
slide-high w n = ground arith

slide-near : (w : DatagramWindow) (n : ℕ) → contains w n ≡ false → (slide w n).high < n + 4096
unfolding slide contains
slide-near w n new = ground arith

put-Holds :
    (w : DatagramWindow) (seen : List ℕ) (n : ℕ)
    → n ≤ w.high
    → w.high < n + 4096
    → Holds w seen
    → Holds (record w { bits = put_cell w.bits n true }) (n ∷ seen)
put-Holds w seen n le near h = record {
  words = ground (arith, h.words, length-put_cell w.bits n true);
  newest = λ m p. ground (arith, h.newest m);
  exact = λ m p q. ground (arith, h.words, h.exact m, cell-put_cell w.bits n m true);
}

-- What is not contained may be added.
pub add-Holds :
    (w : DatagramWindow) (seen : List ℕ) (n : ℕ)
    → contains w n ≡ false
    → Holds w seen
    → Holds (add w n) (n ∷ seen)
unfolding add
add-Holds w seen n new h =
    put-Holds (slide w n) seen n (slide-high w n) (slide-near w n new) (slide-Holds w seen n h)

-- `contains` answers: the sequence number 0, one that has left the window, or one that was added.
pub contains_iff :
    (w : DatagramWindow) (seen : List ℕ) (n : ℕ)
    → Holds w seen
    → (contains w n ≡ true) ↔ ((n ≡ 0) ⊎ (n + 4096 ≤ w.high) ⊎ (member n seen ≡ true))
unfolding contains
contains_iff w seen n h =
    (λ p. ground (arith, h.newest n, h.exact n), λ p. ground (arith, h.newest n, h.exact n))

-- The receiver's use of the window: a number that it contains is dropped, another is taken.
pub offer : DatagramWindow → ℕ → DatagramWindow × Bool
offer w n = if contains w n then (w, false) else (add w n, true)

-- The numbers taken out of a run of offers, the newest first.
pub offers : DatagramWindow → List ℕ → List ℕ → DatagramWindow × List ℕ
offers w [] taken = (w, taken)
offers w (n ∷ ns) taken = offers (offer w n).0 ns (if (offer w n).1 then n ∷ taken else taken)

abbrev pub Distinct : List ℕ → Type 0
Distinct [] = Unit {0}
Distinct (n ∷ ns) = (member n ns ≡ false) × Distinct ns

fresh_member :
    (w : DatagramWindow) (taken : List ℕ) (n : ℕ)
    → contains w n ≡ false
    → Holds w taken
    → member n taken ≡ false
fresh_member w taken n new h = elim (Bool-cases (member n taken)) [
  | inl old ↦ cc (new, (contains_iff w taken n h).1 (inr (inr old)))
  | inr gone ↦ gone
]

offers-Holds :
    (w : DatagramWindow) (ns taken : List ℕ)
    → Holds w taken
    → Distinct taken
    → Holds (offers w ns taken).0 (offers w ns taken).1 × Distinct (offers w ns taken).1
unfolding offers offer
offers-Holds w [] taken h d = (h, d)
offers-Holds w (n ∷ ns) taken h d = elim (Bool-cases (contains w n)) [
  | inl old ↦ rw (old, offers, offer) (offers-Holds w ns taken h d)
  | inr new ↦
      rw (new, offers, offer)
        (offers-Holds (add w n) ns (n ∷ taken) (add-Holds w taken n new h)
          (fresh_member w taken n new h, d))
]

-- From the empty window, over any run of offered sequence numbers: no number is taken twice, and
-- the window then answers for a number exactly if it is 0, has left the window, or was taken.
pub offers-at_most_once :
    (ns : List ℕ)
    → let r = offers empty ns [] in
      Distinct r.1
      × ((n : ℕ)
          → (contains r.0 n ≡ true) ↔ ((n ≡ 0) ⊎ (n + 4096 ≤ r.0.high) ⊎ (member n r.1 ≡ true)))
offers-at_most_once ns =
    let (h, d) = offers-Holds empty ns [] empty-Holds tt in
    (d, λ n. contains_iff (offers empty ns []).0 (offers empty ns []).1 n h)
