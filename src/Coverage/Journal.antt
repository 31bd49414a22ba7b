-- ===== src/Coverage/Journal.antt =====
-- The durable journal of internal/coverage/transaction.go and its validation, with the snapshot
-- checks of snapshot.go.
use text.Mathlib.Text.{◌==◌ as str_eq}
use route_harbor.Prelude.{
  ℕ, ◌*◌, Bool, true, false, not, ◌&&◌, ◌||◌, List, [], ◌∷◌, Option, none, some, String, ltb,
  if◌then◌else◌, ◌==◌, length,
}
use route_harbor.Prelude.Text.{codes, all, between, byte_length}
use route_harbor.Coverage.{
  Plan, WiFi, Transaction, State, prepared, applying, applied, confirmed, rolling_back, unknown,
  Error, invalid_journal, invalid_identity, invalid_state_text, invalid_deadline, invalid_snapshot,
  invalid_private_wifi, is_fingerprint, is_transaction_id, is_request_key, valid_interface_name,
  validate_plan,
}

-- `map[string][]byte`, in the order of its keys.
abbrev pub Snapshot : Type 0
Snapshot = List (String × List ℕ)

pub record WirelessSnapshot : Type 0 where
  pub ap_section : String
  pub wds : Option String
  pub wds_owner : Option String
  pub mesh : Option (List (String × String))

pub record Journal : Type 0 where
  pub private_wifi : Option WiFi
  pub transaction : Option Transaction
  pub snapshot : Snapshot
  pub request_key : String
  pub request_hash : String

-- The journal of a state directory that holds no file yet.
abbrev pub no_journal : Journal
no_journal = record {
  private_wifi = none;
  transaction = none;
  snapshot = [];
  request_key = "";
  request_hash = "";
}

-- `m[key]`: a missing key reads as the empty text.
pub field : String → List (String × String) → String
field key [] = ""
field key ((k, v) ∷ m) = if str_eq k key then v else field key m

-- `unicode.IsControl`: below 32, and from 127 to 159.
abbrev pub is_control : ℕ → Bool
is_control c = ltb c 32 || between 127 159 c

clean_text : String → ℕ → ℕ → Bool
clean_text s lo hi =
    between lo hi (byte_length (codes s)) && all (λ c. not (is_control c)) (codes s)

abbrev is_flag : String → Bool
is_flag v = str_eq v "0" || str_eq v "1"

abbrev optional_flag : Option String → Bool
optional_flag none = true
optional_flag (some v) = is_flag v

valid_mesh : Option (List (String × String)) → Bool
valid_mesh none = true
valid_mesh (some m) =
    length m == 8
    && (str_eq (field "routeharbor_owner" m) "1"
        && (valid_interface_name (field "device" m)
            && (valid_interface_name (field "network" m)
                && (str_eq (field "mode" m) "mesh"
                    && (str_eq (field "encryption" m) "sae"
                        && (clean_text (field "mesh_id" m) 1 32
                            && (clean_text (field "key" m) 8 63
                                && is_flag (field "disabled" m))))))))

-- `validateSnapshot(s) == nil`
valid_snapshot : WirelessSnapshot → Bool
valid_snapshot s =
    valid_interface_name s.ap_section
    && (optional_flag s.wds && (optional_flag s.wds_owner && valid_mesh s.mesh))

-- `adapter.StrictDecode` into a `wirelessSnapshot` is `decode`.
wireless_for : (List ℕ → Option WirelessSnapshot) → Plan → List ℕ → Bool
wireless_for decode p b = elim (decode b) [
  | none ↦ false
  | some s ↦ valid_snapshot s && str_eq s.ap_section p.ap_section
]

snapshot_for : (List ℕ → Option WirelessSnapshot) → Plan → Snapshot → Bool
snapshot_for decode p ((name, b) ∷ []) =
    str_eq name "wireless" && (between 1 (256 * 1024) (length b) && wireless_for decode p b)
snapshot_for decode p _ = false

usable_wifi : Option WiFi → Bool
usable_wifi none = false
usable_wifi (some w) =
    clean_text w.ssid 1 32 && (clean_text w.passphrase 8 63 && between 1 233 w.channel)

unfoldable pub validate_prepared :
    (List ℕ → Option WirelessSnapshot) → Snapshot → Plan → Option WiFi → Option Error
unfolding snapshot_for wireless_for usable_wifi clean_text valid_snapshot valid_mesh field
    valid_interface_name
validate_prepared decode s p w =
    if not (snapshot_for decode p s)
    then some invalid_snapshot
    else if not (usable_wifi w)
    then some invalid_private_wifi
    else none

abbrev pub active_state : State → Bool
active_state prepared = true
active_state applying = true
active_state applied = true
active_state rolling_back = true
active_state _ = false

abbrev is_confirmed : State → Bool
is_confirmed confirmed = true
is_confirmed _ = false

-- `active(t) || t.State == "confirmed"`
abbrev pub holds_material : State → Bool
holds_material s = active_state s || is_confirmed s

abbrev pub occupied : Option Transaction → Bool
occupied none = false
occupied (some t) = holds_material t.state

abbrev pub is_unknown : State → Bool
is_unknown unknown = true
is_unknown _ = false

abbrev is_none : Option Error → Bool
is_none none = true
is_none (some e) = false

abbrev pub needs_deadline : State → Bool
needs_deadline applying = true
needs_deadline applied = true
needs_deadline _ = false

-- `if b { return e }`
unfoldable pub reject : Bool → Error → Option Error → Option Error
reject b e rest = if b then some e else rest

-- The material that an open or confirmed transaction needs.
abbrev pub check_material :
    (List ℕ → Option WirelessSnapshot) → Journal → Transaction → Option Error
check_material decode j t =
    if holds_material t.state
    then validate_prepared decode j.snapshot t.plan j.private_wifi
    else none

unfoldable pub check_transaction :
    (List ℕ → Option WirelessSnapshot) → Journal → Transaction → Option Error
check_transaction decode j t = reject (not (is_transaction_id t.id)) invalid_identity (
    reject
      (not (is_none (validate_plan t.plan))
        || (t.created_at == 0
            || not (is_request_key j.request_key && is_fingerprint j.request_hash)))
      invalid_journal
      (reject (is_unknown t.state) invalid_state_text (
        reject (needs_deadline t.state && t.deadline == 0) invalid_deadline
          (check_material decode j t))))

-- The checks of `locked` on what it read; `none` means that the journal is accepted.
unfoldable pub check_journal : (List ℕ → Option WirelessSnapshot) → Journal → Option Error
check_journal decode j = elim j.transaction [ none ↦ none | some t ↦ check_transaction decode j t ]
