-- ===== src/Continuity/Window/Cells.antt =====
-- One bit of the bitmap in peer.go, read after writes to others.
use native.Mathlib.Decide.{ℕ_discrete}
use route_harbor.Prelude.{
  ℕ, zero, suc, ◌+◌, ◌/◌, ◌%◌, ◌≤◌, ◌<◌, ◌≡◌, ◌∙◌, refl, Bool, false, List, arith, ◌==◌,
  if◌then◌else◌, length, get_or, length-set, get_or-set_self, get_or-set_ne, get_or-replicate,
  put_bit, bit-put_bit, bit-zero,
}
use route_harbor.Continuity.Window.{cell, put_cell, clear_cells, no_bits}

same_cell : (n m : ℕ) → n % 4096 / 64 ≡ m % 4096 / 64 → n % 64 ≡ m % 64 → n % 4096 ≡ m % 4096
same_cell n m p q = omega arith

place_of : (n m : ℕ) → n % 4096 ≡ m % 4096 → (n % 4096 / 64 ≡ m % 4096 / 64) × (n % 64 ≡ m % 64)
place_of n m p = omega arith

pub cell-put_cell :
    (bits : List ℕ) (n m : ℕ) (b : Bool)
    → length bits ≡ 64
    → cell (put_cell bits n b) m ≡ (if n % 4096 == m % 4096 then b else cell bits m)
unfolding cell put_cell
cell-put_cell bits n m b h = elim (ℕ_discrete (n % 4096 / 64) (m % 4096 / 64)) [
  | yes e ↦
      rw
        (
          ← e,
          get_or-set_self bits (n % 4096 / 64) (put_bit (get_or bits (n % 4096 / 64) 0) (n % 64) b)
              0 (omega arith),
          bit-put_bit (get_or bits (n % 4096 / 64) 0) (n % 64) (m % 64) b,
        )
        (ground (arith, same_cell n m, place_of n m))
  | no ne ↦
      rw
        (get_or-set_ne bits (n % 4096 / 64) (m % 4096 / 64)
          (put_bit (get_or bits (n % 4096 / 64) 0) (n % 64) b) 0 ne)
        (ground (arith, place_of n m))
]

pub length-put_cell : (bits : List ℕ) (n : ℕ) (b : Bool) → length (put_cell bits n b) ≡ length bits
unfolding put_cell
length-put_cell bits n b = length-set bits _ _

pub cell-no_bits : (n : ℕ) → cell no_bits n ≡ false
unfolding cell
cell-no_bits n = rw (get_or-replicate {A = ℕ} 64 (n % 4096 / 64) 0) (bit-zero (n % 64))

pub length-clear_cells :
    (bits : List ℕ) (k rounds : ℕ) → length (clear_cells bits k rounds) ≡ length bits
unfolding clear_cells
length-clear_cells bits k zero = refl
length-clear_cells bits k (suc rounds) =
    length-clear_cells (put_cell bits k false) (k + 1) rounds ∙ length-put_cell bits k false

-- Numbers less than a window away keep their bits.
pub cell-clear_cells_below :
    (bits : List ℕ) (k rounds m : ℕ)
    → length bits ≡ 64
    → m < k
    → k + rounds ≤ m + 4096
    → cell (clear_cells bits k rounds) m ≡ cell bits m
unfolding clear_cells
cell-clear_cells_below bits k zero m h lo hi = refl
cell-clear_cells_below bits k (suc rounds) m h lo hi = ground (
  arith,
  length-put_cell bits k false,
  cell-put_cell bits k m false,
  cell-clear_cells_below (put_cell bits k false) (k + 1) rounds m,
)

-- The cleared numbers read false.
pub cell-clear_cells :
    (bits : List ℕ) (k rounds m : ℕ)
    → length bits ≡ 64
    → k ≤ m
    → m < k + rounds
    → rounds < 4096
    → cell (clear_cells bits k rounds) m ≡ false
unfolding clear_cells
cell-clear_cells bits k zero m h lo hi r = absurd (omega arith)
cell-clear_cells bits k (suc rounds) m h lo hi r = ground (
  arith,
  length-put_cell bits k false,
  cell-put_cell bits k m false,
  cell-clear_cells (put_cell bits k false) (k + 1) rounds m,
  cell-clear_cells_below (put_cell bits k false) (k + 1) rounds m,
)
