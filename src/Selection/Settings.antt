-- ===== src/Selection/Settings.antt =====
-- `Configure`, `SetTargets` and `SetHistoryLimit` of selector.go.
use text.Mathlib.Text.{◌==◌ as str_eq}
use route_harbor.Prelude.{ℕ, ◌-◌, List, [], ◌∷◌, String, ltb, if◌then◌else◌, length, drop}
use route_harbor.Prelude.Int.{ℤ, pos, negsuc}
use route_harbor.Selection.{
  Floats, Policy, Target, Measurement, Observation, Selector, safe_policy, clear_candidate,
}
use route_harbor.Selection.Tables.{map_values, mem}

abbrev pub clamp_limit : ℤ → ℕ
clamp_limit (pos n) = if ltb n 1 then 1 else if ltb 256 n then 256 else n
clamp_limit (negsuc n) = 1

abbrev pub add_name : String → List String → List String
add_name id ids = if mem id ids then ids else id ∷ ids

abbrev pub required_ids : List Target → List String
required_ids [] = []
required_ids (t ∷ ts) =
    let rest = required_ids ts in if t.required then add_name t.id rest else rest

module _ {F : Type 0} where
  -- The last `limit` items.
  abbrev pub trim : ℕ → List (Measurement F) → List (Measurement F)
  trim limit ms = if ltb limit (length ms) then drop (length ms - limit) ms else ms

  abbrev pub trim_history : ℕ → Observation F → Observation F
  trim_history limit o = record o { history = trim limit o.history }

  -- `SetHistoryLimit`
  unfoldable pub set_history_limit : ℤ → Selector F → Selector F
  set_history_limit limit s = record s {
    history_limit = clamp_limit limit;
    sources = map_values (trim_history (clamp_limit limit)) s.sources;
  }

  abbrev pub forget : Selector F → Selector F
  forget s = clear_candidate (record s { sources = [] })

  -- `SetTargets`. `marshal` is `json.Marshal` on a list of targets, which does not fail.
  unfoldable pub set_targets : (List Target → String) → List Target → Selector F → Selector F
  set_targets marshal ts s =
      record (if str_eq (marshal ts) s.target_signature then s else forget s) {
        target_signature = marshal ts;
        required = required_ids ts;
      }

module _ {F : Type 0} (fl : Floats F) where
  -- `Configure`
  unfoldable pub configure : Policy F → Selector F → Selector F
  unfolding safe_policy
  configure p s = clear_candidate (record s { policy = safe_policy fl p })
