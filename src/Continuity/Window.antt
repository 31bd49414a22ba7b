-- ===== src/Continuity/Window.antt =====
-- The sliding bitmap `datagramWindow` of internal/continuity/peer.go.
pub mod Cells
pub mod History
use route_harbor.Prelude.{
  ℕ, zero, suc, ◌+◌, ◌-◌, ◌*◌, ◌/◌, ◌%◌, ◌≤◌, ◌<◌, ◌≡◌, refl, Bool, true, false, ◌&&◌, ◌||◌, List,
  [], ◌∷◌, arith, leb, ltb, ◌==◌, if◌then◌else◌, get_or, set, replicate, bit, put_bit,
}

-- `bits` is `[64]uint64`: 64 words of 64 bits.
pub record DatagramWindow : Type 0 where
  pub high : ℕ
  pub bits : List ℕ

abbrev pub no_bits : List ℕ
no_bits = replicate 64 0

abbrev pub empty : DatagramWindow
empty = record { high = 0; bits = no_bits }

-- `w.bits[(n%4096)/64] & (uint64(1) << (n%64)) != 0`
unfoldable pub cell : List ℕ → ℕ → Bool
cell bits n = bit (get_or bits (n % 4096 / 64) 0) (n % 64)

-- `|=` for `true` and `&^=` for `false`, at the same place.
unfoldable pub put_cell : List ℕ → ℕ → Bool → List ℕ
put_cell bits n b = set bits (n % 4096 / 64) (put_bit (get_or bits (n % 4096 / 64) 0) (n % 64) b)

unfoldable pub contains : DatagramWindow → ℕ → Bool
unfolding cell
contains w n =
    if n == 0
    then true
    else if leb n w.high && leb 4096 (w.high - n)
    then true
    else leb n w.high && cell w.bits n

-- `for k := w.high + 1; ; k++ { clear k; if k == n { break } }`, with the rounds counted.
unfoldable pub clear_cells : List ℕ → ℕ → ℕ → List ℕ
clear_cells bits k zero = bits
clear_cells bits k (suc rounds) = clear_cells (put_cell bits k false) (k + 1) rounds

unfoldable pub slide : DatagramWindow → ℕ → DatagramWindow
slide w n =
    if ltb w.high n
    then record {
      high = n;
      bits =
          if leb 4096 (n - w.high) then no_bits else clear_cells w.bits (w.high + 1) (n - w.high);
    }
    else w

unfoldable pub add : DatagramWindow → ℕ → DatagramWindow
unfolding slide clear_cells put_cell
add w n = let s = slide w n in record { high = s.high; bits = put_cell s.bits n true }
