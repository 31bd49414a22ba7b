-- ===== src/Registry.antt =====
-- internal/node/service.go: the registry of paired nodes. This file has its data, the checks of
-- NewService and Pair, and what the service acts on.
pub mod Service
pub mod Entries
pub mod Runs
pub mod Pins
mod Examples
use text.Mathlib.Text.{◌==◌ as str_eq}
use route_harbor.Prelude.{
  ℕ, Bool, true, false, not, ◌&&◌, ◌||◌, List, [], ◌∷◌, Option, none, some, String, leb, ◌==◌,
  if◌then◌else◌, length,
}
use route_harbor.Prelude.Text.{codes, all, between, byte_length, is_lower_hex}
use route_harbor.Effects.{World, Action}
use route_harbor.Coverage.{is_transaction_id}
use route_harbor.Node.{Capabilities}
use route_harbor.Coordinator.{Record}
use route_harbor.Coordinator as Saga
use route_harbor.Coordinator.World as Site

-- `s.records` and nodes.json. A text that is no registry is a file that cannot be read.
abbrev pub Records : Type 0
Records = List (String × Record)

abbrev pub lookup : String → Records → Option Record
lookup id [] = none
lookup id ((k, r) ∷ rs) = if str_eq k id then some r else lookup id rs

abbrev pub erase : String → Records → Records
erase id [] = []
erase id ((k, r) ∷ rs) = if str_eq k id then erase id rs else (k, r) ∷ erase id rs

abbrev pub insert : String → Record → Records → Records
insert id r rs = (id, r) ∷ erase id rs

-- A parsed URL, and an IP address by what is asked of it.
pub record Url : Type 0 where
  pub scheme : String
  pub hostname : String
  pub port : String
  pub path : String
  pub raw_query : String
  pub fragment : String
  pub opaque : String
  pub has_user : Bool

pub record Ip : Type 0 where
  pub is_private : Bool
  pub is_loopback : Bool
  pub is_unspecified : Bool

-- The body of a pairing request that decodes.
pub record Pairing : Type 0 where
  pub address : String
  pub fingerprint : String
  pub code : String
  pub name : String

pub data Request : Type 0 where
  pair_with : String → Request
  get_capabilities unpair_from : Request

-- The fields `id` and `capabilities` of an answer, where they are a text and well formed.
pub record Reply : Type 0 where
  pub id : Option String
  pub capabilities : Option Capabilities

pub data Error : Type 0 where
  invalid_pairing not_an_origin not_a_lan_address invalid_port fingerprint_required : Error
  request_failed invalid_identity invalid_capabilities identity_conflict : Error
  storage_failed node_not_found unreadable invalid_registry invalid_entry : Error
  coverage_refused : Site.Failure → Error

-- `net/url`, `net/netip`, the pinned HTTPS requests, the limits of `StrictDecode` on the text of a
-- registry, and what the coordinator acts on. `none` is an error.
pub record Env (H : Type 0) : Type 0 where
  pub parse_url : String → Option Url
  pub parse_ip : String → Option Ip
  pub send : H → String → String → Request → H × Option Reply
  pub is_decoded : Records → Bool
  pub coverage : Site.Env H

-- The memory of the service, and the coordinator's world, whose outside is shared.
pub record Machine (H : Type 0) : Type 0 where
  pub records : Records
  pub coverage : World Saga.Entries Site.Command H

-- A request as it is sent: the address, the fingerprint and the rest.
pub data Command : Type 0 where
  sent : String → String → Request → Command

abbrev pub Step : Type 0 → Type 0 → Type 0
Step H A = Action Records Command (Machine H) Error A

-- `validFingerprint`: `hex.DecodeString` also takes capital letters.
abbrev is_hex : ℕ → Bool
is_hex c = is_lower_hex c || between b'A' b'F' c

unfoldable pub valid_fingerprint : String → Bool
valid_fingerprint s = length (codes s) == 64 && all is_hex (codes s)

abbrev is_origin : Url → Bool
is_origin u =
    str_eq u.scheme "https"
    && (not (str_eq u.hostname "")
        && (not u.has_user
            && (str_eq u.raw_query ""
                && (str_eq u.fragment ""
                    && (str_eq u.opaque "" && (str_eq u.path "" || str_eq u.path "/"))))))

abbrev is_lan : Option Ip → Bool
is_lan none = false
is_lan (some i) = (i.is_private || i.is_loopback) && not i.is_unspecified

module _ {H : Type 0} (env : Env H) where
  -- `validateAddress`
  unfoldable pub validate_address : String → Option Error
  validate_address address = elim (env.parse_url address) [
    | none ↦ some not_an_origin
    | some u ↦
        if not (is_origin u)
        then some not_an_origin
        else if not (is_lan (env.parse_ip u.hostname))
        then some not_a_lan_address
        else if str_eq u.port "0"
        then some invalid_port
        else none
  ]

  abbrev pub no_error : Option Error → Bool
  no_error none = true
  no_error (some x) = false

  -- The check of `NewService` on an entry.
  unfoldable pub valid_entry : String → Record → Bool
  valid_entry id r =
      is_transaction_id id
      && (str_eq r.id id
          && (valid_fingerprint r.fingerprint && no_error (validate_address r.address)))

  unfoldable pub valid_registry : Records → Bool
  valid_registry [] = true
  valid_registry ((id, r) ∷ rs) = valid_entry id r && valid_registry rs

-- No `\x00`, `\r` or `\n`.
abbrev is_line : String → Bool
is_line s = all (λ c. not (c == 0 || (c == b'\r' || c == b'\n'))) (codes s)

unfoldable pub valid_pairing : Pairing → Bool
valid_pairing q = leb (byte_length (codes q.name)) 128 && is_line q.name
