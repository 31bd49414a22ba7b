-- ===== src/Coverage/Dispatch.antt =====
-- `Do` of internal/coverage/transaction.go: one request of the helper's client.
pub mod Histories
use text.Mathlib.Text.{◌==◌ as str_eq}
use route_harbor.Prelude.{
  ℕ, ◌*◌, Bool, true, false, ◌&&◌, Option, none, some, String, if◌then◌else◌,
}
use route_harbor.Coverage.{
  Plan, WiFi, Setup, Operation, Transaction, Error, backend_failed, fields_invalid, unsupported,
  validate_operation,
}
use route_harbor.Coverage.World.{Env, Action, pure, raise, ◌>>=◌, ◌>>◌, refuse, or_raise, continue}
use route_harbor.Coverage.Manager.{
  prepare, validate, apply, confirm, rollback_named, finalize, status, material,
}
use route_harbor.Coverage.Calls.{second, do_check}

pub data Reply : Type 0 where
  setup : Setup → Reply
  current : Option Transaction → Reply
  planned : Plan → WiFi → Reply
  begun : Transaction → WiFi → Reply
  moved : Transaction → Reply

module _ {H : Type 0} (env : Env H) where
  unfoldable pub do_survey : Action H Setup
  do_survey w = or_raise (env.inspect w.hw) backend_failed w

  unfoldable pub do_inspect : Action H Reply
  do_inspect = do s ← do_survey; pure (setup s)

  unfoldable pub do_status : Action H Reply
  do_status = do t ← status env; pure (current t)

  unfoldable pub do_prepare : String → Option Plan → Action H Reply
  do_prepare key plan = do
    p ← or_raise plan fields_invalid
    t ← prepare env key p
    w ← material env t.id
    pure (begun t w)

  unfoldable pub do_validate_plan : Plan → Action H Reply
  do_validate_plan p = do w ← do_check env p; pure (planned p w)

  unfoldable pub do_move : Action H Transaction → Action H Reply
  do_move m = do t ← m; pure (moved t)

  unfoldable pub validate_for : String → Option Plan → Action H Reply
  validate_for id none = do_move (validate env id)
  validate_for id (some p) = do_validate_plan p

  unfoldable pub do_validate : Operation → Action H Reply
  do_validate o = validate_for o.id o.plan

  unfoldable pub dispatch : Operation → Action H Reply
  dispatch o =
      if str_eq o.action "inspect"
      then do_inspect
      else if str_eq o.action "status"
      then do_status
      else if str_eq o.action "prepare"
      then do_prepare o.key o.plan
      else if str_eq o.action "validate"
      then do_validate o
      else if str_eq o.action "apply"
      then do_move (apply env o.id (o.timeout_seconds * second))
      else if str_eq o.action "confirm"
      then do_move (confirm env o.id)
      else if str_eq o.action "rollback"
      then do_move (rollback_named env o.id)
      else if str_eq o.action "finalize"
      then do_move (finalize env o.id)
      else raise unsupported

  -- `Do`
  unfoldable pub operate : Operation → Action H Reply
  operate o = do refuse (validate_operation o); dispatch o
