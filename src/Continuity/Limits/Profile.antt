-- ===== src/Continuity/Limits/Profile.antt =====
-- A resource profile of types.go that is normalised twice.
use route_harbor.Prelude.{ℕ, ◌*◌, ◌≡◌, true}
use route_harbor.Prelude.Int.{ℤ, pos, ◌≤ℤ◌, ltb_ℤ}
use route_harbor.Continuity.Limits.{Limits, kib, mib, second, millisecond}

abbrev Within : ℕ → ℕ → ℤ → Type 0
Within lo hi v = (pos lo ≤ℤ v) × (v ≤ℤ pos hi)

-- The range of each size and duration.
record IsProfile (l : Limits) : Type 0 where
  buffer : Within (512 * kib) (1024 * mib) l.buffer_bytes
  reserve : pos (256 * kib) ≤ℤ l.udp_reserve_bytes
  shared : ltb_ℤ l.udp_reserve_bytes l.buffer_bytes ≡ true
  flow : Within (16 * kib) (16 * mib) l.flow_bytes
  control : Within (64 * kib) (4 * mib) l.control_bytes
  tcp : Within 1 4096 l.max_tcp
  udp : Within 1 4096 l.max_udp
  grace : Within second (300 * second) l.disconnected_grace
  idle : Within second (3600 * second) l.udp_idle
  replay : Within millisecond second l.udp_replay
