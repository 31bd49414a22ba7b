-- ===== src/Continuity/Examples.antt =====
-- Concrete frames, messages, windows and limits.
use mathlib.Core.List.{append-nil}
use route_harbor.Prelude.{
  sym, ℕ, ◌+◌, ◌≤◌, ◌≡◌, ◌↔◌, ◌⊎◌, refl, Bool, true, false, List, [], ◌∷◌, ◌++◌, Option, none, some,
  arith, length, take,
}
use route_harbor.Prelude.Int.{pos}
use route_harbor.Continuity.Window.{empty, contains}
use route_harbor.Continuity.Window.History.{member, Distinct, offers, offers-at_most_once}
use route_harbor.Continuity.Wire.{
  Frame, ok, u32_at, u64_at, read_full, parse_header, write_frame, read_payload, read_header,
  read_frame, write_json, read_json,
}
use route_harbor.Continuity.Wire.Frames.{IsFrame, read_frame-write_frame, write_frame-read_frame}
use route_harbor.Continuity.Wire.Messages.{read_json-write_json}
use route_harbor.Continuity.Wire.Writer.{IsWriter, Sends, write_all, write_all-Sends}
use route_harbor.Continuity.Limits.{Limits}

abbrev data_frame : Frame
data_frame = record { kind = 4; flow = 7; offset = 300; value = 0; payload = 1 ∷ 2 ∷ 3 ∷ [] }

data_frame-IsFrame : IsFrame data_frame
data_frame-IsFrame = record {
  first_kind = omega arith;
  last_kind = omega arith;
  flow_fits = omega arith;
  offset_fits = omega arith;
  value_fits = omega arith;
}

read_frame-write_frame_example :
    (w : List ℕ) × (write_frame data_frame ≡ ok w)
    × (read_frame (w ++ (9 ∷ [])) ≡ ok (data_frame, 9 ∷ []))
read_frame-write_frame_example =
    read_frame-write_frame data_frame (9 ∷ []) data_frame-IsFrame (omega arith)

abbrev data_bytes : List ℕ
data_bytes =
    0 ∷ 0 ∷ 0 ∷ 28 ∷ 4 ∷ 0 ∷ 0 ∷ 0 ∷ 0 ∷ 0 ∷ 0 ∷ 0 ∷ 7 ∷ 0 ∷ 0 ∷ 0 ∷ 0 ∷ 0 ∷ 0 ∷ 1 ∷ 44 ∷ 0 ∷ 0 ∷ 0
    ∷ 0 ∷ 0 ∷ 0 ∷ 0 ∷ 0 ∷ 1 ∷ 2 ∷ 3 ∷ 9 ∷ []

data_bytes_lem : read_frame data_bytes ≡ ok (data_frame, 9 ∷ [])
unfolding read_frame read_full u32_at read_header read_payload parse_header u64_at
data_bytes_lem = refl

write_frame-read_frame_example :
    (w : List ℕ) × (write_frame data_frame ≡ ok w) × (w ++ (9 ∷ []) ≡ data_bytes)
write_frame-read_frame_example =
    write_frame-read_frame data_bytes data_frame (9 ∷ []) (ground arith) data_bytes_lem

-- A message is a number, one byte on the wire.
abbrev encode_byte : ℕ → Option (List ℕ)
encode_byte v = some (v ∷ [])

abbrev decode_byte : List ℕ → Option ℕ
decode_byte (v ∷ []) = some v
decode_byte _ = none

read_json-write_json_example :
    (w : List ℕ) × (write_json encode_byte 5 ≡ ok w)
    × (read_json decode_byte (w ++ (9 ∷ [])) ≡ ok (5, 9 ∷ []))
read_json-write_json_example =
    read_json-write_json encode_byte decode_byte 5 (5 ∷ []) (9 ∷ []) refl refl (λ e. cc)
      (omega arith)

-- A writer that takes two bytes at most in a call.
abbrev two_bytes : List ℕ → List ℕ → List ℕ × ℕ × Bool
two_bytes s [] = (s, 0, false)
two_bytes s (x ∷ []) = (s ++ (x ∷ []), 1, false)
two_bytes s (x ∷ y ∷ b) = (s ++ (x ∷ y ∷ []), 2, false)

two_bytes-bounded : (s b : List ℕ) → (two_bytes s b).1 ≤ length b
two_bytes-bounded s [] = omega arith
two_bytes-bounded s (x ∷ []) = omega arith
two_bytes-bounded s (x ∷ y ∷ b) = omega arith

two_bytes-appends : (s b : List ℕ) → (two_bytes s b).0 ≡ s ++ take (two_bytes s b).1 b
two_bytes-appends s [] = sym (append-nil s)
two_bytes-appends s (x ∷ []) = refl
two_bytes-appends s (x ∷ y ∷ b) = refl

two_bytes-IsWriter : IsWriter two_bytes (λ s. s)
two_bytes-IsWriter = record { bounded = two_bytes-bounded; appends = two_bytes-appends }

write_all-Sends_example :
    Sends two_bytes (λ s. s) [] (1 ∷ 2 ∷ 3 ∷ []) (write_all two_bytes [] (1 ∷ 2 ∷ 3 ∷ []))
write_all-Sends_example = write_all-Sends two_bytes (λ s. s) two_bytes-IsWriter [] (1 ∷ 2 ∷ 3 ∷ [])

offers-at_most_once_example :
    let r = offers empty (5 ∷ 4200 ∷ 5 ∷ 4200 ∷ []) [] in
    Distinct r.1
    × ((n : ℕ)
        → (contains r.0 n ≡ true) ↔ ((n ≡ 0) ⊎ (n + 4096 ≤ r.0.high) ⊎ (member n r.1 ≡ true)))
offers-at_most_once_example = offers-at_most_once (5 ∷ 4200 ∷ 5 ∷ 4200 ∷ [])

abbrev small_limits : Limits
small_limits = record {
  buffer_bytes = pos 1048576;
  udp_reserve_bytes = pos 262144;
  flow_bytes = pos 0;
  control_bytes = pos 0;
  max_tcp = pos 8;
  max_udp = pos 8;
  disconnected_grace = pos 0;
  udp_idle = pos 0;
  udp_replay = pos 0;
}

abbrev small_profile : Limits
small_profile = record {
  buffer_bytes = pos 1048576;
  udp_reserve_bytes = pos 262144;
  flow_bytes = pos 2097152;
  control_bytes = pos 262144;
  max_tcp = pos 8;
  max_udp = pos 8;
  disconnected_grace = pos 30000000000;
  udp_idle = pos 120000000000;
  udp_replay = pos 100000000;
}
