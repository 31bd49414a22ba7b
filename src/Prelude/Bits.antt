-- ===== src/Prelude/Bits.antt =====
-- Single bits of a machine word, by recursion on the bit's place.
use Prim.Native.Nat.{ℕ, zero, suc, ◌+◌, ◌*◌, ◌/◌, ◌%◌}
use mathlib.Core.Path.{◌≡◌, refl}
use mathlib.Core.Bool.{Bool, true, false}
use native.Mathlib.Omega.{arith}
use route_harbor.Prelude.Tests.{◌==◌, if◌then◌else◌}

-- `w & (1 << k) != 0`.
unfoldable pub bit : ℕ → ℕ → Bool
bit w zero = w % 2 == 1
bit w (suc k) = bit (w / 2) k

-- `w | (1 << k)` for `true`, and `w &^ (1 << k)` for `false`.
unfoldable pub put_bit : ℕ → ℕ → Bool → ℕ
put_bit w zero b = w / 2 * 2 + (if b then 1 else 0)
put_bit w (suc k) b = put_bit (w / 2) k b * 2 + w % 2

half-put_bit_zero : (w : ℕ) (b : Bool) → (w / 2 * 2 + (if b then 1 else 0)) / 2 ≡ w / 2
half-put_bit_zero w true = omega arith
half-put_bit_zero w false = omega arith

half-put_bit_suc : (v w : ℕ) → (v * 2 + w % 2) / 2 ≡ v
half-put_bit_suc v w = omega arith

pub bit-put_bit : (w k j : ℕ) (b : Bool) → bit (put_bit w k b) j ≡ (if k == j then b else bit w j)
unfolding bit put_bit
bit-put_bit w zero zero b = ground arith
bit-put_bit w zero (suc j) b = rw half-put_bit_zero (ground arith)
bit-put_bit w (suc k) zero b = ground arith
bit-put_bit w (suc k) (suc j) b = rw half-put_bit_suc (ground (arith, bit-put_bit (w / 2) k j b))

pub bit-zero : (k : ℕ) → bit 0 k ≡ false
unfolding bit
bit-zero zero = refl
bit-zero (suc k) = bit-zero k
