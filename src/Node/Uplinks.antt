-- ===== src/Node/Uplinks.antt =====
-- What `ValidatePlan` of internal/node/model.go makes sure of: the node is no second gateway, no loop is
-- built, and the node stays reachable.
use text.Mathlib.Text.{◌==◌ as str_eq}
use text.Mathlib.TextEquality.{eq_iff}
use route_harbor.Prelude.{
  ℕ, ◌≤◌, ◌≡◌, ◌≢◌, refl, ap, sym, subst, ◌∙◌, ◌==◌, ==_iff, Bool, true, false, not, List, [], ◌∷◌,
  Option, none, some, String, arith, Bool-cases, Option-cases, inl, inr,
}
use route_harbor.Node.{
  Plan, Capabilities, Error, validate_plan, validate_mode, validate_names, validate_uplink,
  validate_addresses, or_else, is_wired, is_member, valid_ports, compatible_modes,
}
use route_harbor.Node.Addresses.{
  Prefix, management_prefix, is_gateway_in, parse_addr, parse_prefix, holds, masked,
}
use route_harbor.Prelude.Text.{codes, between}

-- No port stands twice.
abbrev pub IsDistinct : List String → Type 0
IsDistinct [] = Unit {0}
IsDistinct (p ∷ ps) = (is_member p ps ≡ false) × IsDistinct ps

-- One uplink: a wired one is a port of the bridge; a wireless one is none, and the cable that it
-- replaces is.
abbrev pub HasUplink : Plan → Bool → Type 0
HasUplink p true = is_member p.uplink p.lan_ports ≡ true
HasUplink p false =
    (is_member p.uplink p.lan_ports ≡ false) × (is_member p.ethernet_uplink p.lan_ports ≡ true)

-- The gateway is another host of the management network, and not the network itself.
pub record HasGateway (p : Plan) : Type 0 where
  pub prefix : Prefix
  pub gateway : ℕ
  pub parsed : parse_prefix (codes p.management_address) ≡ some prefix
  pub gateway_parsed : parse_addr (codes p.gateway_address) ≡ some gateway
  pub bits : (8 ≤ prefix.bits) × (prefix.bits ≤ 30)
  pub inside : holds prefix gateway ≡ true
  pub other : (gateway ≢ prefix.addr) × (gateway ≢ masked prefix)

pub record IsSafe (p : Plan) (gateway peer : Capabilities) : Type 0 where
  pub mode : is_member p.mode (compatible_modes gateway peer) ≡ true
  pub servers : (p.dhcp_server ≡ false) × (p.nat ≡ false) × (p.router_advertisements ≡ false)
  pub management : p.preserve_management_path ≡ true
  pub ports : IsDistinct p.lan_ports
  pub uplink : HasUplink p (is_wired p)
  pub addresses : HasGateway p

or_else-none : (a b : Option Error) → or_else a b ≡ none → (a ≡ none) × (b ≡ none)
unfolding or_else
or_else-none none b h = (refl, h)
or_else-none (some e) b h = cc

-- What was seen is not met again.
not_again :
    (seen ps : List String) (s : String)
    → valid_ports seen ps ≡ true
    → is_member s seen ≡ true
    → is_member s ps ≡ false
unfolding valid_ports
not_again seen [] s h m = refl
not_again seen (p ∷ ps) s h m = elim (Bool-cases (str_eq s p)) [
  | inl q ↦
      let e : s ≡ p = (eq_iff s p).0 q in
      absurd (ground (arith, h, subst (λ x. is_member x seen ≡ true) e m))
  | inr q ↦ rw q (not_again (p ∷ seen) ps s (ground (arith, h)) (rw q m))
]

valid_ports-IsDistinct : (seen ps : List String) → valid_ports seen ps ≡ true → IsDistinct ps
unfolding valid_ports
valid_ports-IsDistinct seen [] h = tt
valid_ports-IsDistinct seen (p ∷ ps) h = (
  not_again (p ∷ seen) ps p (ground (arith, h)) (rw ((eq_iff p p).1 refl) refl),
  valid_ports-IsDistinct (p ∷ seen) ps (ground (arith, h)),
)

uplink_lem : (p : Plan) → validate_uplink p ≡ none → HasUplink p (is_wired p)
unfolding validate_uplink
uplink_lem p h = elim (Bool-cases (is_wired p)) [
  | inl q ↦ rw q (ground (arith, q, h))
  | inr q ↦ rw q (ground (arith, q, h), ground (arith, q, h))
]

prefix_lem :
    (s : String) (m : Prefix)
    → management_prefix s ≡ some m
    → (parse_prefix (codes s) ≡ some m) × (8 ≤ m.bits) × (m.bits ≤ 30)
unfolding management_prefix
prefix_lem s m h = elim (Option-cases (parse_prefix (codes s))) [
  | inl q ↦ absurd (ground (arith, q, h))
  | inr (x, q) ↦
      let e : x ≡ m = ground (arith, q, h) in
      let b : between 8 30 x.bits ≡ true = ground (arith, q, h) in
      (q ∙ ap some e, rw (sym e) (ground (arith, b)), rw (sym e) (ground (arith, b)))
]

gateway_lem :
    (m : Prefix) (s : String)
    → is_gateway_in m s ≡ true
    → (g : ℕ) × (parse_addr (codes s) ≡ some g) × (holds m g ≡ true) × (g ≢ m.addr) × (g ≢ masked m)
unfolding is_gateway_in
gateway_lem m s h = elim (Option-cases (parse_addr (codes s))) [
  | inl q ↦ absurd (ground (arith, q, h))
  | inr (g, q) ↦
      let differs : not (g == m.addr) ≡ true = ground (arith, q, h) in
      let inside : holds m g ≡ true = ground (arith, q, h) in
      let host : not (g == masked m) ≡ true = ground (arith, q, h) in
      (
        g,
        q,
        inside,
        λ e. absurd (ground (arith, differs, (==_iff g m.addr).1 e)),
        λ e. absurd (ground (arith, host, (==_iff g (masked m)).1 e)),
      )
]

addresses_lem : (p : Plan) → validate_addresses p ≡ none → HasGateway p
unfolding validate_addresses
addresses_lem p h = elim (Option-cases (management_prefix p.management_address)) [
  | inl q ↦ absurd (ground (arith, q, h))
  | inr (m, q) ↦
      let k = prefix_lem p.management_address m q in
      let g = gateway_lem m p.gateway_address (ground (arith, q, h)) in
      record {
        prefix = m;
        gateway = g.0;
        parsed = k.0;
        gateway_parsed = g.1;
        bits = (k.1, k.2);
        inside = g.2;
        other = (g.3, g.4);
      }
]

-- A plan that `ValidatePlan` accepts uses a mode that both devices support, offers no DHCP, no NAT and
-- no router advertisements, keeps the management path, lists no port twice, and builds no loop: a
-- wired uplink is a port of the bridge, a wireless one is not and the cable that it replaces is. The
-- management address is an IPv4 prefix of 8 to 30 bits, and the gateway is another host inside it.
pub validate_plan-IsSafe :
    (p : Plan) (gateway peer : Capabilities)
    → validate_plan p gateway peer ≡ none
    → IsSafe p gateway peer
unfolding validate_plan validate_mode validate_names
validate_plan-IsSafe p gateway peer h =
    let a = or_else-none (validate_mode p gateway peer) _ h in
    let b = or_else-none (validate_names p) _ a.1 in
    let c = or_else-none (validate_uplink p) _ b.1 in
    let d = or_else-none (validate_addresses p) _ c.1 in
    record {
      mode = ground (arith, a.0);
      servers = (ground (arith, a.0), ground (arith, a.0), ground (arith, a.0));
      management = ground (arith, a.0);
      ports = valid_ports-IsDistinct [] p.lan_ports (ground (arith, b.0));
      uplink = uplink_lem p c.0;
      addresses = addresses_lem p d.0;
    }
