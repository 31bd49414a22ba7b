-- ===== src/Continuity/Wire/Numbers.antt =====
-- Big-endian numbers of wire.go.
use route_harbor.Prelude.{
  ℕ, refl, ◌+◌, ◌*◌, ◌/◌, ◌%◌, ◌<◌, ◌≡◌, refl, List, [], ◌∷◌, ◌++◌, arith, length, All,
  length-append, take-length-append, drop-length-append, take-append-drop, length-take,
  take-append-drop, length-take,
}
use route_harbor.Continuity.Wire.{ok, put_u32, u32_at, put_u64, read_full}

-- A number of 32 bits is read back.
pub u32_at-put_u32 : (v : ℕ) → v < 4294967296 → u32_at (put_u32 v) 0 ≡ v
unfolding put_u32 u32_at
u32_at-put_u32 v h = omega arith

pub length-put_u32 : (v : ℕ) → length (put_u32 v) ≡ 4
unfolding put_u32
length-put_u32 v = refl

pub read_full-append :
    (xs ys : List ℕ) (n : ℕ) → length xs ≡ n → read_full n (xs ++ ys) ≡ ok (xs, ys)
unfolding read_full
read_full-append xs ys n h =
    ground (arith, length-append xs ys, take-length-append xs ys, drop-length-append xs ys)

-- What was read stood in front.
pub read_full-eq-ok :
    (n : ℕ) (r xs ys : List ℕ) → read_full n r ≡ ok (xs, ys) → (xs ++ ys ≡ r) × (length xs ≡ n)
unfolding read_full
read_full-eq-ok n r xs ys h = ground (arith, take-append-drop n r, length-take n r)

u32_digits :
    (v : ℕ)
    → v < 4294967296
    → v / 16777216 % 256 * 16777216 + v / 65536 % 256 * 65536 + v / 256 % 256 * 256 + v % 256 ≡ v
u32_digits v h = omega arith

u64_halves : (v : ℕ) → v / 4294967296 * 4294967296 + v % 4294967296 ≡ v
u64_halves v = omega arith

-- The eight digits of a 64-bit number add up to it.
pub u64_digits :
    (v : ℕ)
    → v < 18446744073709551616
    → let hi = v / 4294967296 in
      let lo = v % 4294967296 in
      (hi / 16777216 % 256 * 16777216 + hi / 65536 % 256 * 65536 + hi / 256 % 256 * 256 + hi % 256)
          * 4294967296
        + (lo / 16777216 % 256 * 16777216
            + lo / 65536 % 256 * 65536
            + lo / 256 % 256 * 256
            + lo % 256)
      ≡ v
u64_digits v h =
    rw (u32_digits (v / 4294967296) (omega arith), u32_digits (v % 4294967296) (omega arith))
      (u64_halves v)

abbrev pub IsByte : ℕ → Type 0
IsByte b = b < 256

u32_bytes :
    (a b c d : ℕ)
    → All IsByte (a ∷ b ∷ c ∷ d ∷ [])
    → put_u32 (a * 16777216 + b * 65536 + c * 256 + d) ≡ a ∷ b ∷ c ∷ d ∷ []
unfolding put_u32
u32_bytes a b c d h = ground arith

pub put_u32-u32_at : (xs : List ℕ) → length xs ≡ 4 → All IsByte xs → put_u32 (u32_at xs 0) ≡ xs
unfolding u32_at
put_u32-u32_at (a ∷ b ∷ c ∷ d ∷ []) e h = u32_bytes a b c d h
put_u32-u32_at _ e h = absurd (omega arith)

pub u32_at-lt : (xs : List ℕ) → length xs ≡ 4 → All IsByte xs → u32_at xs 0 < 4294967296
unfolding u32_at
u32_at-lt (a ∷ b ∷ c ∷ d ∷ []) e h = omega arith
u32_at-lt _ e h = absurd (omega arith)

join_halves :
    (a b : ℕ)
    → b < 4294967296
    → ((a * 4294967296 + b) / 4294967296 ≡ a) × ((a * 4294967296 + b) % 4294967296 ≡ b)
join_halves a b h = omega arith

pub put_u64-bytes :
    (a b c d e f g h : ℕ)
    → All IsByte (a ∷ b ∷ c ∷ d ∷ e ∷ f ∷ g ∷ h ∷ [])
    → put_u64 (
        (a * 16777216 + b * 65536 + c * 256 + d) * 4294967296
        + (e * 16777216 + f * 65536 + g * 256 + h))
      ≡ a ∷ b ∷ c ∷ d ∷ e ∷ f ∷ g ∷ h ∷ []
unfolding put_u64
put_u64-bytes a b c d e f g h p =
    let hi : ℕ = a * 16777216 + b * 65536 + c * 256 + d in
    let lo : ℕ = e * 16777216 + f * 65536 + g * 256 + h in
    let (quotient, remainder) = join_halves hi lo (omega arith) in
    rw (quotient, remainder, u32_bytes a b c d (omega arith), u32_bytes e f g h (omega arith))
