-- ===== src/Continuity/Limits.antt =====
-- `Limits` of internal/continuity/types.go. Sizes are `int64`, durations are nanoseconds.
pub mod Profile
use route_harbor.Prelude.{
  ℕ, ◌*◌, Bool, true, false, ◌||◌, if◌then◌else◌, ◌≡◌, refl, Option, none, some,
}
use route_harbor.Prelude.Int.{ℤ, pos, negsuc, ltb_ℤ, eqb_ℤ}

pub record Limits : Type 0 where
  pub buffer_bytes : ℤ
  pub udp_reserve_bytes : ℤ
  pub flow_bytes : ℤ
  pub control_bytes : ℤ
  pub max_tcp : ℤ
  pub max_udp : ℤ
  pub disconnected_grace : ℤ
  pub udp_idle : ℤ
  pub udp_replay : ℤ

abbrev pub millisecond : ℕ
millisecond = 1000000

abbrev pub second : ℕ
second = 1000000000

abbrev pub kib : ℕ
kib = 1024

abbrev pub mib : ℕ
mib = 1048576

unfoldable pub default_limits : Limits
default_limits = record {
  buffer_bytes = pos (32 * mib);
  udp_reserve_bytes = pos (4 * mib);
  flow_bytes = pos (2 * mib);
  control_bytes = pos (256 * kib);
  max_tcp = pos 512;
  max_udp = pos 256;
  disconnected_grace = pos (30 * second);
  udp_idle = pos (120 * second);
  udp_replay = pos (100 * millisecond);
}

-- `if l.F == 0 { l.F = d.F }`
abbrev or_default : ℤ → ℤ → ℤ
or_default v d = if eqb_ℤ v (pos 0) then d else v

unfoldable pub with_defaults : Limits → Limits
unfolding default_limits
with_defaults l = record {
  buffer_bytes = or_default l.buffer_bytes d.buffer_bytes;
  udp_reserve_bytes = or_default l.udp_reserve_bytes d.udp_reserve_bytes;
  flow_bytes = or_default l.flow_bytes d.flow_bytes;
  control_bytes = or_default l.control_bytes d.control_bytes;
  max_tcp = or_default l.max_tcp d.max_tcp;
  max_udp = or_default l.max_udp d.max_udp;
  disconnected_grace = or_default l.disconnected_grace d.disconnected_grace;
  udp_idle = or_default l.udp_idle d.udp_idle;
  udp_replay = or_default l.udp_replay d.udp_replay;
}
  where
    d : Limits
    d = default_limits

-- `v < lo || v > hi`
unfoldable pub outside : ℕ → ℕ → ℤ → Bool
outside lo hi v = ltb_ℤ v (pos lo) || ltb_ℤ (pos hi) v

-- `a >= b`
unfoldable pub at_least : ℤ → ℤ → Bool
at_least a b = if ltb_ℤ a b then false else true

-- The condition under which `normalized` returns its error.
unfoldable pub out_of_range : Limits → Bool
out_of_range l =
    outside (512 * kib) (1024 * mib) l.buffer_bytes
    || (ltb_ℤ l.udp_reserve_bytes (pos (256 * kib))
        || (at_least l.udp_reserve_bytes l.buffer_bytes
            || (outside (16 * kib) (16 * mib) l.flow_bytes
                || (outside (64 * kib) (4 * mib) l.control_bytes
                    || (outside 1 4096 l.max_tcp
                        || (outside 1 4096 l.max_udp
                            || (outside second (300 * second) l.disconnected_grace
                                || (outside second (3600 * second) l.udp_idle
                                    || outside millisecond second l.udp_replay))))))))

-- `Normalize`; `none` stands for the error.
unfoldable pub normalized : Limits → Option Limits
normalized l = let m = with_defaults l in if out_of_range m then none else some m
