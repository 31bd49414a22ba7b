-- ===== src/Continuity/Paths.antt =====
-- The choice of the active path among those that are ready: `selectPath` and the case frameSelect of
-- `handle` in internal/continuity/peer.go.
pub mod Readiness
use text.Mathlib.Text.{◌==◌ as str_eq}
use route_harbor.Prelude.{
  ℕ, ◌+◌, Bool, true, false, not, ◌&&◌, ◌||◌, List, [], ◌∷◌, Option, none, some, String,
  if◌then◌else◌,
}

pub record Carrier : Type 0 where
  pub closed : Bool

-- The carriers of a path, `none` for one that was never there.
abbrev pub open_carrier : Option Carrier → Bool
open_carrier none = false
open_carrier (some c) = not c.closed

abbrev pub all_open : List (Option Carrier) → Bool
all_open [] = true
all_open (c ∷ cs) = open_carrier c && all_open cs

-- `paths` is a map by name, here in the order of its names.
pub record Paths : Type 0 where
  pub paths : List (String × List (Option Carrier))
  pub preferred : String
  pub active : String
  pub switches : ℕ
  pub last_ready : ℕ
  pub switched_at : ℕ

abbrev pub ready_in : String → List (String × List (Option Carrier)) → Bool
ready_in name [] = false
ready_in name (kv ∷ kvs) =
    let rest = ready_in name kvs in if str_eq kv.0 name then all_open kv.1 else rest

-- `ready`
abbrev pub is_ready : Paths → String → Bool
is_ready p name = ready_in name p.paths

-- The first name that is ready.
unfoldable pub first_ready : Paths → List (String × List (Option Carrier)) → String
first_ready p [] = ""
first_ready p (kv ∷ kvs) = let rest = first_ready p kvs in if is_ready p kv.0 then kv.0 else rest

unfoldable pub chosen_path : Paths → String
unfolding first_ready
chosen_path p =
    if is_ready p p.active
    then p.active
    else if is_ready p p.preferred
    then p.preferred
    else first_ready p p.paths

abbrev pub note_ready : ℕ → String → Paths → Paths
note_ready now chosen p = if str_eq chosen "" then p else record p { last_ready = now }

abbrev pub note_switch : ℕ → String → Paths → Paths
note_switch now chosen p =
    if str_eq p.active "" || str_eq chosen ""
    then p
    else record p { switches = p.switches + 1; switched_at = now }

abbrev pub activate : ℕ → String → Paths → Paths
activate now chosen p =
    if str_eq chosen p.active then p else record (note_switch now chosen p) { active = chosen }

-- `selectPath`
unfoldable pub select_path : ℕ → Paths → Paths
unfolding chosen_path
select_path now p = activate now (chosen_path p) (note_ready now (chosen_path p) p)

-- The case frameSelect, once the frame was found valid.
unfoldable pub select_named : ℕ → String → Paths → Paths
select_named now name p =
    if is_ready p name && not (str_eq p.active name)
    then record p { preferred = name; active = name; switches = p.switches + 1; switched_at = now }
    else p
