-- ===== src/Continuity/Wire.antt =====
-- internal/continuity/wire.go: frames and handshake messages on a byte stream. A byte slice is a
-- list of numbers below 256; a reader is the list of the bytes that are still to come.
pub mod Numbers
pub mod Writer
pub mod Frames
pub mod Messages
use route_harbor.Prelude.{
  ℕ, ◌+◌, ◌-◌, ◌*◌, ◌/◌, ◌%◌, ◌≡◌, refl, Bool, true, false, ◌||◌, List, [], ◌∷◌, ◌++◌, Option, none,
  some, ltb, leb, ◌==◌, if◌then◌else◌, length, take, drop, get_or,
}

-- The errors of this file, and those of `io.ReadFull`.
pub data WireError : Type 0 where
  eof unexpected_eof oversized_frame invalid_frame_size invalid_frame_type : WireError
  handshake_too_large invalid_handshake_size bad_json : WireError

pub data Result {ℓ} (A : Type ℓ) : Type ℓ where
  ok : A → Result A
  err : WireError → Result A

-- `if err != nil { return err }` between two steps.
infixl 5 ◌>>=◌
abbrev pub ◌>>=◌ {ℓ κ} : {V : Type ℓ} {W : Type κ} → Result V → (V → Result W) → Result W
err failure >>= next = err failure
ok value >>= next = next value

-- Both steps of a reader that returned no error returned none.
pub >>=-eq-ok {ℓ κ} :
    {V : Type ℓ} {W : Type κ} (first : Result V) (next : V → Result W) {w : W}
    → (first >>= next) ≡ ok w
    → (v : V) × (first ≡ ok v) × (next v ≡ ok w)
>>=-eq-ok (err failure) next e = cc
>>=-eq-ok (ok value) next e = (value, refl, e)

pub unless-eq-ok {ℓ} :
    {A : Type ℓ} (b : Bool) (e : WireError) (m : Result A) {a : A}
    → (if b then err e else m) ≡ ok a
    → (b ≡ false) × (m ≡ ok a)
unless-eq-ok true e m h = cc
unless-eq-ok false e m h = (refl, h)

pub record Frame : Type 0 where
  pub kind : ℕ
  pub flow : ℕ
  pub offset : ℕ
  pub value : ℕ
  pub payload : List ℕ

abbrev pub frame_open : ℕ
frame_open = 1

abbrev pub frame_closed : ℕ
frame_closed = 13

abbrev pub max_payload : ℕ
max_payload = 65507

abbrev pub header_size : ℕ
header_size = 25

-- `binary.BigEndian.PutUint32` and `Uint32`.
unfoldable pub put_u32 : ℕ → List ℕ
put_u32 v = v / 16777216 % 256 ∷ v / 65536 % 256 ∷ v / 256 % 256 ∷ v % 256 ∷ []

unfoldable pub u32_at : List ℕ → ℕ → ℕ
u32_at b i =
    get_or b i 0 * 16777216
    + get_or b (i + 1) 0 * 65536
    + get_or b (i + 2) 0 * 256
    + get_or b (i + 3) 0

-- `binary.BigEndian.PutUint64` and `Uint64`.
unfoldable pub put_u64 : ℕ → List ℕ
put_u64 v = put_u32 (v / 4294967296) ++ put_u32 (v % 4294967296)

unfoldable pub u64_at : List ℕ → ℕ → ℕ
unfolding u32_at
u64_at b i = u32_at b i * 4294967296 + u32_at b (i + 4)

-- `io.ReadFull(r, b)` with `len(b)` equal to n: the bytes read and those that remain.
unfoldable pub read_full : ℕ → List ℕ → Result (List ℕ × List ℕ)
read_full n r =
    if leb n (length r)
    then ok (take n r, drop n r)
    else if length r == 0
    then err eof
    else err unexpected_eof

unfoldable pub header : Frame → List ℕ
header f = f.kind ∷ (put_u64 f.flow ++ (put_u64 f.offset ++ put_u64 f.value))

-- The fields of the 25 bytes of a header.
unfoldable pub parse_header : List ℕ → Frame
unfolding u64_at
parse_header b = record {
  kind = get_or b 0 0;
  flow = u64_at b 1;
  offset = u64_at b 9;
  value = u64_at b 17;
  payload = [];
}

abbrev pub with_payload : Frame → List ℕ → Frame
with_payload f payload = record f { payload = payload }

-- The bytes that `writeFrame` hands to `writeAll`.
unfoldable pub write_frame : Frame → Result (List ℕ)
write_frame f =
    if ltb max_payload (length f.payload)
    then err oversized_frame
    else ok (put_u32 ((header_size + length f.payload) % 4294967296) ++ (header f ++ f.payload))

-- `readFrame` after the header, before it, and from the start. `n` is the announced size.
unfoldable pub read_payload : ℕ → Frame → List ℕ → Result (Frame × List ℕ)
read_payload n f tail =
    if ltb f.kind frame_open || ltb frame_closed f.kind
    then err invalid_frame_type
    else do (payload, rest) ← read_full (n - header_size) tail; ok (with_payload f payload, rest)

unfoldable pub read_header : ℕ → List ℕ → Result (Frame × List ℕ)
read_header n body =
    if ltb n header_size || ltb (header_size + max_payload) n
    then err invalid_frame_size
    else do (b, tail) ← read_full header_size body; read_payload n (parse_header b) tail

unfoldable pub read_frame : List ℕ → Result (Frame × List ℕ)
read_frame r = do (size, body) ← read_full 4 r; read_header (u32_at size 0) body

-- `writeJSON` and `readJSON`, with `encoding/json` as a function on the message type.
module _ {V : Type 0} where
  unfoldable pub write_json : (V → Option (List ℕ)) → V → Result (List ℕ)
  write_json marshal v = elim (marshal v) [
    | none ↦ err bad_json
    | some b ↦
        if ltb 4096 (length b)
        then err handshake_too_large
        else ok (put_u32 (length b % 4294967296) ++ b)
  ]

  unfoldable pub read_json : (List ℕ → Option V) → List ℕ → Result (V × List ℕ)
  read_json unmarshal r = do
    (h, body) ← read_full 4 r
    let n = u32_at h 0
    if n == 0 || ltb 4096 n then err invalid_handshake_size else do
      (b, rest) ← read_full n body
      elim (unmarshal b) [ none ↦ err bad_json | some v ↦ ok (v, rest) ]
