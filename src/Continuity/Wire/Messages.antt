-- ===== src/Continuity/Wire/Messages.antt =====
-- The length-prefixed handshake messages of wire.go, over any JSON encoder.
use route_harbor.Prelude.{
  ℕ, ◌%◌, ◌≤◌, ◌<◌, ◌≡◌, ◌≢◌, refl, List, [], ◌∷◌, ◌++◌, Option, some, arith, length,
}
use mathlib.Core.List.{append_assoc}
use route_harbor.Continuity.Wire.{ok, put_u32, write_json, read_json}
use route_harbor.Continuity.Wire.Numbers.{u32_at-put_u32, length-put_u32, read_full-append}

length-pos : (b : List ℕ) → b ≢ [] → 0 < length b
length-pos [] h = absurd (h refl)
length-pos (x ∷ b) h = omega arith

module _ {V : Type 0} (marshal : V → Option (List ℕ)) (unmarshal : List ℕ → Option V) where
  -- A message that the encoder gives 1 to 4096 bytes for, and that the decoder reads back from
  -- those bytes, is read back behind its length, and the reader is left at what follows.
  pub read_json-write_json :
      (v : V) (b rest : List ℕ)
      → marshal v ≡ some b
      → unmarshal b ≡ some v
      → b ≢ []
      → length b ≤ 4096
      → (w : List ℕ) × (write_json marshal v ≡ ok w)
        × (read_json unmarshal (w ++ rest) ≡ ok (v, rest))
  unfolding write_json read_json
  read_json-write_json v b rest e d some_bytes small = (
    put_u32 (length b % 4294967296) ++ b,
    rw (e, write_json) (ground arith),
    rw
        (
          append_assoc (put_u32 (length b % 4294967296)) b rest,
          read_full-append (put_u32 (length b % 4294967296)) (b ++ rest) 4 (length-put_u32 _),
          u32_at-put_u32 (length b % 4294967296) (omega arith),
          read_full-append b rest (length b % 4294967296) (omega arith),
          d,
        )
        (ground (arith, length-pos b some_bytes)),
  )
