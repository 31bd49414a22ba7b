-- ===== src/Continuity/Wire/Frames.antt =====
-- Reading and writing the frames of wire.go.
use route_harbor.Prelude.{
  ℕ, ◌+◌, ◌-◌, ◌%◌, ◌≤◌, ◌<◌, ◌≡◌, refl, sym, ap, subst, ◌∙◌, List, [], ◌∷◌, ◌++◌, arith, length,
  All, ltb, ◌||◌,
}
use mathlib.Core.List.{append_assoc}
use route_harbor.Continuity.Wire.{
  Frame, ok, put_u32, u32_at, put_u64, read_full, header, parse_header, with_payload, >>=-eq-ok,
  unless-eq-ok, write_frame, read_payload, read_header, read_frame, invalid_frame_type,
  invalid_frame_size, frame_open, frame_closed, max_payload, header_size,
}
use route_harbor.Continuity.Wire.Numbers.{
  IsByte, u32_at-put_u32, read_full-append, read_full-eq-ok, u64_digits, put_u32-u32_at,
  put_u64-bytes,
}

-- The fields fit their Go types, and the kind is one of the thirteen.
pub record IsFrame (f : Frame) : Type 0 where
  pub first_kind : frame_open ≤ f.kind
  pub last_kind : f.kind ≤ frame_closed
  pub flow_fits : f.flow < 18446744073709551616
  pub offset_fits : f.offset < 18446744073709551616
  pub value_fits : f.value < 18446744073709551616

length-header : (f : Frame) → length (header f) ≡ 25
unfolding header put_u64 put_u32
length-header f = refl

parse_header-header : (f : Frame) → IsFrame f → parse_header (header f) ≡ with_payload f []
unfolding parse_header header put_u64 put_u32
parse_header-header f v = rw (
  u64_digits f.flow v.flow_fits,
  u64_digits f.offset v.offset_fits,
  u64_digits f.value v.value_fits,
)

-- The parts of a frame on the wire.
abbrev wire_size : Frame → ℕ
wire_size f = header_size + length f.payload

abbrev wire_bytes : Frame → List ℕ
wire_bytes f = put_u32 (wire_size f % 4294967296) ++ (header f ++ f.payload)

read_full-wire_bytes :
    (f : Frame) (rest : List ℕ)
    → read_full 4 (wire_bytes f ++ rest)
      ≡ ok (put_u32 (wire_size f % 4294967296), header f ++ (f.payload ++ rest))
unfolding put_u32
read_full-wire_bytes f rest =
    rw (append_assoc (header f) f.payload rest) (read_full-append _ _ 4 refl)

-- A frame of a known kind, with fields of 64 bits and a payload of at most 65507 bytes, is read back from the bytes written for it, and
-- the reader is left at the bytes that follow.
pub read_frame-write_frame :
    (f : Frame) (rest : List ℕ)
    → IsFrame f
    → length f.payload ≤ max_payload
    → (w : List ℕ) × (write_frame f ≡ ok w) × (read_frame (w ++ rest) ≡ ok (f, rest))
unfolding write_frame read_frame read_header read_payload
read_frame-write_frame f rest v h = (
  wire_bytes f,
  ground arith,
  rw
      (
        read_full-wire_bytes f rest,
        u32_at-put_u32 (wire_size f % 4294967296) (omega arith),
        read_full-append (header f) (f.payload ++ rest) header_size (length-header f),
        parse_header-header f v,
        read_full-append f.payload rest (wire_size f % 4294967296 - header_size) (omega arith),
      )
      (ground arith),
)

-- What each part of the reader accepted.
read_payload-eq-ok :
    (n : ℕ) (h : Frame) (tail : List ℕ) (f : Frame) (rest : List ℕ)
    → read_payload n h tail ≡ ok (f, rest)
    → (f ≡ with_payload h f.payload)
      × (f.payload ++ rest ≡ tail)
      × (length f.payload ≡ n - header_size)
      × (frame_open ≤ f.kind)
      × (f.kind ≤ frame_closed)
unfolding read_payload
read_payload-eq-ok n h tail f rest e =
    let (known, e1) =
      unless-eq-ok (ltb h.kind frame_open || ltb frame_closed h.kind) invalid_frame_type _ e in
    let (a, e2, e3) =
      >>=-eq-ok (read_full (n - header_size) tail) (λ x. ok (with_payload h x.0, x.1)) e1 in
    ground (arith, read_full-eq-ok (n - header_size) tail a.0 a.1 e2)

read_header-eq-ok :
    (n : ℕ) (body : List ℕ) (f : Frame) (rest : List ℕ)
    → read_header n body ≡ ok (f, rest)
    → (b : List ℕ × List ℕ) × (b.0 ++ b.1 ≡ body)
      × (length b.0 ≡ header_size)
      × (header_size ≤ n)
      × (n ≤ header_size + max_payload)
      × (read_payload n (parse_header b.0) b.1 ≡ ok (f, rest))
unfolding read_header
read_header-eq-ok n body f rest e =
    let (sized, e1) =
      unless-eq-ok (ltb n header_size || ltb (header_size + max_payload) n) invalid_frame_size _
        e in
    let (b, e2, e3) =
      >>=-eq-ok (read_full header_size body) (λ b. read_payload n (parse_header b.0) b.1) e1 in
    let (joined, len) = read_full-eq-ok header_size body b.0 b.1 e2 in
    (b, joined, len, ground arith, ground arith, e3)

header-parse_header : (b : List ℕ) → length b ≡ 25 → All IsByte b → header (parse_header b) ≡ b
unfolding header parse_header
header-parse_header
      (k ∷ a ∷ b ∷ c ∷ d ∷ e ∷ f ∷ g ∷ h ∷ i ∷ j ∷ l ∷ m ∷ n ∷ o ∷ p ∷ q ∷ r ∷ s ∷ t ∷ u ∷ v ∷ w ∷ x
        ∷ y ∷ [])
      len bytes =
    rw (
      put_u64-bytes a b c d e f g h (omega arith),
      put_u64-bytes i j l m n o p q (omega arith),
      put_u64-bytes r s t u v w x y (omega arith),
    )
header-parse_header _ len bytes = absurd (omega arith)

IsByte-append : (xs ys : List ℕ) → All IsByte (xs ++ ys) → All IsByte xs × All IsByte ys
IsByte-append [] ys h = (tt, h)
IsByte-append (x ∷ xs) ys h = let (l, r) = IsByte-append xs ys h.1 in ((h.0, l), r)

header-with_payload : (h : Frame) (payload : List ℕ) → header (with_payload h payload) ≡ header h
unfolding header
header-with_payload h payload = refl

-- When `readFrame` accepts a frame at the head of a stream of bytes, writing that frame gives exactly
-- the bytes that it took: a frame has one encoding, and what is left over is the rest of the stream.
pub write_frame-read_frame :
    (r : List ℕ) (f : Frame) (rest : List ℕ)
    → All IsByte r
    → read_frame r ≡ ok (f, rest)
    → (w : List ℕ) × (write_frame f ≡ ok w) × (w ++ rest ≡ r)
unfolding read_frame write_frame
write_frame-read_frame r f rest bytes e =
    let (a, e1, e2) = >>=-eq-ok (read_full 4 r) (λ a. read_header (u32_at a.0 0) a.1) e in
    let (joined, len) = read_full-eq-ok 4 r a.0 a.1 e1 in
    let (b, joined', len', low, high, e3) = read_header-eq-ok (u32_at a.0 0) a.1 f rest e2 in
    let (parsed, joined'', len'', first, last) =
      read_payload-eq-ok (u32_at a.0 0) (parse_header b.0) b.1 f rest e3 in
    let (size_bytes, body_bytes) = IsByte-append a.0 a.1 (subst (All IsByte) (sym joined) bytes) in
    let (head_bytes, tail_bytes) =
      IsByte-append b.0 b.1 (subst (All IsByte) (sym joined') body_bytes) in
    let size : put_u32 (wire_size f % 4294967296) ≡ a.0 =
      ap put_u32 {x = wire_size f % 4294967296} {y = u32_at a.0 0} (omega arith)
      ∙ put_u32-u32_at a.0 len size_bytes in
    let head : header f ≡ b.0 =
      ap header parsed
      ∙ header-with_payload (parse_header b.0) f.payload
      ∙ header-parse_header b.0 len' head_bytes in
    (
      wire_bytes f,
      ground arith,
      rw (size, head, append_assoc, append_assoc, joined'', joined') joined,
    )
