-- ===== src/Node/Addresses.antt =====
-- The IPv4 part of net/netip that `ValidatePlan` of internal/node/model.go uses: ParseAddr, ParsePrefix
-- and the tests on an address. A text that netip reads as another kind of address is none here: the
-- code refuses it with the same error.
use route_harbor.Prelude.{
  ℕ, ◌+◌, ◌-◌, ◌*◌, ◌^◌, ◌/◌, Bool, false, not, ◌&&◌, ◌||◌, List, [], ◌∷◌, Option, none, some, leb,
  ◌==◌, if◌then◌else◌, length, String,
}
use route_harbor.Prelude.Text.{codes, between}

abbrev pub is_digit : ℕ → Bool
is_digit c = between b'0' b'9' c

-- The texts between the separators, from the last to the first letter.
abbrev pub put_code : ℕ → List (List ℕ) → List (List ℕ)
put_code c [] = (c ∷ []) ∷ []
put_code c (p ∷ ps) = (c ∷ p) ∷ ps

unfoldable pub split_on : ℕ → List ℕ → List (List ℕ)
split_on sep [] = [] ∷ []
split_on sep (c ∷ cs) =
    let rest = split_on sep cs in if c == sep then [] ∷ rest else put_code c rest

-- A decimal number without a leading zero, of at most three digits.
unfoldable pub decimal : List ℕ → ℕ → Option ℕ
decimal [] n = some n
decimal (c ∷ cs) n =
    let rest = decimal cs (10 * n + (c - b'0')) in if is_digit c then rest else none

abbrev pub leads_with_zero : List ℕ → Bool
leads_with_zero (c ∷ d ∷ cs) = c == b'0'
leads_with_zero _ = false

unfoldable pub small_number : ℕ → List ℕ → Option ℕ
small_number most cs =
    if not (between 1 3 (length cs)) || leads_with_zero cs
    then none
    else elim (decimal cs 0) [ none ↦ none | some n ↦ if leb n most then some n else none ]

-- The four octets, the first one the highest.
unfoldable pub octets : List (List ℕ) → ℕ → Option ℕ
octets [] n = some n
octets (p ∷ ps) n = elim (small_number 255 p) [ none ↦ none | some o ↦ octets ps (256 * n + o) ]

-- `netip.ParseAddr(s)`, and `Is4`.
unfoldable pub parse_addr : List ℕ → Option ℕ
parse_addr cs = let parts = split_on b'.' cs in if length parts == 4 then octets parts 0 else none

pub record Prefix : Type 0 where
  pub addr : ℕ
  pub bits : ℕ

abbrev pub prefix_parts : List (List ℕ) → Option Prefix
unfolding parse_addr small_number
prefix_parts (a ∷ b ∷ []) = elim (parse_addr a) [
  | none ↦ none
  | some n ↦ elim (small_number 32 b) [
    | none ↦ none
    | some k ↦ some (record { addr = n; bits = k })
  ]
]
prefix_parts _ = none

-- `netip.ParsePrefix(s)`, and `Addr().Is4()`.
unfoldable pub parse_prefix : List ℕ → Option Prefix
parse_prefix cs = prefix_parts (split_on b'/' cs)

abbrev pub network_of : ℕ → ℕ → ℕ
network_of bits n = n / 2 ^ (32 - bits)

-- `Masked().Addr()`
abbrev pub masked : Prefix → ℕ
masked p = network_of p.bits p.addr * 2 ^ (32 - p.bits)

-- `Contains`
abbrev pub holds : Prefix → ℕ → Bool
holds p n = network_of p.bits n == network_of p.bits p.addr

-- `IsUnspecified`, `IsLoopback` and `IsMulticast`
abbrev pub is_reserved : ℕ → Bool
is_reserved n = n == 0 || (n / 2 ^ 24 == 127 || n / 2 ^ 28 == 14)

unfoldable pub management_prefix : String → Option Prefix
management_prefix s = elim (parse_prefix (codes s)) [
  | none ↦ none
  | some p ↦ if between 8 30 p.bits && not (is_reserved p.addr) then some p else none
]

unfoldable pub is_gateway_in : Prefix → String → Bool
is_gateway_in p s = elim (parse_addr (codes s)) [
  | none ↦ false
  | some g ↦ not (g == p.addr) && (holds p g && not (g == masked p))
]
