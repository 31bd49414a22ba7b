-- ===== src/Registry/Service.antt =====
-- The operations of internal/node/service.go that change the registry.
use text.Mathlib.Text.{◌==◌ as str_eq}
use route_harbor.Prelude.{
  Bool, true, ◌&&◌, List, [], ◌∷◌, Option, none, some, String, if◌then◌else◌,
}
use route_harbor.Effects.{
  World, Result, ok, err, disk, pure, raise, or_raise, call, look, ◌>>=◌, ◌>>◌, guard, try_save,
}
use route_harbor.Coverage.{is_transaction_id}
use route_harbor.Node.{Capabilities, compatible_modes}
use route_harbor.Coordinator.{Record}
use route_harbor.Coordinator.World as Site
use route_harbor.Coordinator.Service.{check_unpair}
use route_harbor.Registry.{
  Records, lookup, erase, insert, Pairing, Request, pair_with, get_capabilities, unpair_from, Reply,
  Error, Env, Machine, Command, sent, Step, valid_fingerprint, validate_address, no_error,
  valid_registry, valid_pairing, invalid_pairing, fingerprint_required, request_failed,
  invalid_identity, invalid_capabilities, identity_conflict, storage_failed, node_not_found,
  unreadable, invalid_registry, invalid_entry, coverage_refused,
}

-- What `Pair` returns: the record, and the modes unless it was paired before.
pub record Paired : Type 0 where
  pub node : Record
  pub compatible : Option (List String)

abbrev pub find_paired : Pairing → Records → Option Record
find_paired q [] = none
find_paired q ((k, r) ∷ rs) =
    if str_eq r.fingerprint q.fingerprint && str_eq r.address q.address
    then some r
    else find_paired q rs

-- No record, or one with this fingerprint.
abbrev pub has_pin : String → Option Record → Bool
has_pin pin none = true
has_pin pin (some r) = str_eq r.fingerprint pin

abbrev pub name_or : String → String
name_or s = if str_eq s "" then "Coverage node" else s

abbrev pub kept_file : Option Records → Records
kept_file none = []
kept_file (some rs) = rs

abbrev pub refusal : {A : Type 0} → Result Site.Failure A → Result Error A
refusal (ok a) = ok a
refusal (err f) = err (coverage_refused f)

module _ {H : Type 0} where
  abbrev pub refuse : Option Error → Step H (Unit {0})
  refuse none w = (w, ok tt)
  refuse (some x) w = (w, err x)

  -- `s.records = rs`
  unfoldable pub remember : Records → Step H (Unit {0})
  remember rs w = (record w { hw = record w.hw { records = rs } }, ok tt)

  unfoldable pub recall : Step H Records
  recall w = (w, ok w.hw.records)

  -- A save, and what is remembered when it fails.
  unfoldable pub save_or : Records → Records → Step H (Unit {0})
  save_or rs undone = do
    remember rs
    saved ← try_save storage_failed rs
    if saved then pure tt else (remember undone >> raise storage_failed)

module _ {H : Type 0} (env : Env H) where
  unfoldable pub reach_outside : String → String → Request → Machine H → Machine H × Option Reply
  reach_outside address pin q m =
      let r = env.send m.coverage.hw address pin q in
      (record m { coverage = record m.coverage { hw = r.0 } }, r.1)

  -- `request`, with an answer or none.
  unfoldable pub ask : String → String → Request → Step H (Option Reply)
  ask address pin q =
      if no_error env (validate_address env address) && valid_fingerprint pin
      then call (sent address pin q) (reach_outside address pin q)
      else pure none

  abbrev pub ask_again : Pairing → Option Reply → Step H (Option Reply)
  ask_again q none = ask q.address q.fingerprint get_capabilities
  ask_again q (some r) = pure (some r)

  -- The pairing call, or else the question that a node that knows this gateway answers.
  unfoldable pub introduce : Pairing → Step H Reply
  introduce q = do
    first ← ask q.address q.fingerprint (pair_with q.code)
    second ← ask_again q first
    or_raise second request_failed

  abbrev pub new_record :
      Pairing → String → Capabilities → World Records Command (Machine H) → Record
  new_record q id caps w = record {
    id = id;
    name = name_or q.name;
    address = q.address;
    fingerprint = q.fingerprint;
    capabilities = caps;
    paired_at = env.coverage.clock w.hw.coverage.hw;
  }

  -- The record is put in, and taken out when the save fails.
  unfoldable pub enroll : Pairing → String → Capabilities → Step H Paired
  enroll q id caps w =
      let r = new_record q id caps w in
      (do
        save_or (insert id r w.hw.records) (erase id w.hw.records)
        m ← look (λ m. m)
        pure (record {
          node = r;
          compatible = some (compatible_modes (env.coverage.capabilities m.coverage.hw) caps);
        }))
        w

  unfoldable pub pair_new : Pairing → Step H Paired
  pair_new q = do
    reply ← introduce q
    id ← or_raise reply.id invalid_identity
    guard (is_transaction_id id) invalid_identity
    caps ← or_raise reply.capabilities invalid_capabilities
    rs ← recall
    guard (has_pin q.fingerprint (lookup id rs)) identity_conflict
    enroll q id caps

  abbrev pub pair_known : Pairing → Option Record → Step H Paired
  pair_known q (some r) = pure (record { node = r; compatible = none })
  pair_known q none = pair_new q

  -- `Pair`
  unfoldable pub pair : Pairing → Step H Paired
  pair q = do
    guard (valid_pairing q) invalid_pairing
    refuse (validate_address env q.address)
    guard (valid_fingerprint q.fingerprint) fingerprint_required
    rs ← recall
    pair_known q (find_paired q rs)

  -- `checkCoverageUnpair`, in the world of the coordinator.
  unfoldable pub ask_coverage : String → Step H (Unit {0})
  ask_coverage id w =
      let r = check_unpair env.coverage id w.hw.coverage in
      (record w { hw = record w.hw { coverage = r.0 } }, refusal r.1)

  -- `Unpair`
  unfoldable pub unpair : String → Step H (Unit {0})
  unpair id = do
    ask_coverage id
    rs ← recall
    r ← or_raise (lookup id rs) node_not_found
    reply ← ask r.address r.fingerprint unpair_from
    or_raise reply request_failed
    rs' ← recall
    save_or (erase id rs') (insert id r rs')

  -- `NewService`, where a registry that was never written is an empty one.
  unfoldable pub new_service : Step H (Unit {0})
  new_service w =
      let rs = kept_file (disk w.log) in
      (do
        guard w.readable unreadable
        guard (env.is_decoded rs) invalid_registry
        guard (valid_registry env rs) invalid_entry
        remember rs)
        w
