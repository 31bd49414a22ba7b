-- ===== src/Coverage/Dispatch/Histories.antt =====
-- A request of the helper's client keeps the log in order (`Do` of transaction.go).
use text.Mathlib.Text.{◌==◌ as str_eq}
use route_harbor.Prelude.{◌*◌, ◌≡◌, refl, Option, none, some, String}
use route_harbor.Coverage.{Plan, Operation, Transaction}
use route_harbor.Coverage.World.{World, Env, Action}
use route_harbor.Coverage.History.{IsHistory}
use route_harbor.Coverage.Calls.{second}
use route_harbor.Coverage.Manager.Rules.{Safe, ends, quiet, follow, either-Safe}
use route_harbor.Coverage.Manager.Methods.{log-or_raise, log-refuse}
use route_harbor.Coverage.Manager.Entries.{
  apply-Safe, confirm-Safe, rollback_named-Safe, finalize-Safe,
}
use route_harbor.Coverage.Manager.Requests.{
  log-do_check, prepare-Safe, validate-Safe, status-Safe, material-Safe,
}
use route_harbor.Coverage.Manager.{prepare, validate, status, material}
use route_harbor.Coverage.Dispatch.{
  do_inspect, do_status, do_prepare, do_validate_plan, do_move, do_survey, validate_for,
  do_validate, dispatch, operate,
}

module _ {H : Type 0} (env : Env H) where
  log-do_survey : (w : World H) → (do_survey env w).0.log ≡ w.log
  unfolding do_survey
  log-do_survey w = log-or_raise (env.inspect w.hw) _ w

  do_move-Safe : (m : Action H Transaction) (w : World H) → Safe (m w) → Safe (do_move env m w)
  unfolding do_move
  do_move-Safe m w s = follow m _ w s (λ t w' h. h)

  do_prepare-Safe :
      (key : String) (plan : Option Plan) (w : World H)
      → IsHistory w.log
      → Safe (do_prepare env key plan w)
  unfolding do_prepare
  do_prepare-Safe key plan w h = quiet w.log _ _ w h refl (log-or_raise plan _ w) λ p w₁ l₁ r.
      follow (prepare env key p) _ w₁ (prepare-Safe env key p w₁ (ends w.log w₁ h l₁))
        λ t w₂ h₂. follow (material env t.id) _ w₂ (material-Safe env t.id w₂ h₂) λ m w₃ h₃. h₃

  validate_for-Safe :
      (id : String) (plan : Option Plan) (w : World H)
      → IsHistory w.log
      → Safe (validate_for env id plan w)
  unfolding validate_for do_validate_plan
  validate_for-Safe id none w h = do_move-Safe (validate env id) w (validate-Safe env id w h)
  validate_for-Safe id (some p) w h =
      quiet w.log _ _ w h refl (log-do_check env p w) λ m w₁ l₁ r. ends w.log w₁ h l₁

  do_inspect-Safe : (w : World H) → IsHistory w.log → Safe (do_inspect env w)
  unfolding do_inspect
  do_inspect-Safe w h = quiet w.log _ _ w h refl (log-do_survey w) λ s w₁ l₁ r. ends w.log w₁ h l₁

  do_status-Safe : (w : World H) → IsHistory w.log → Safe (do_status env w)
  unfolding do_status
  do_status-Safe w h = follow (status env) _ w (status-Safe env w h) (λ t w' h'. h')

  dispatch-Safe : (o : Operation) (w : World H) → IsHistory w.log → Safe (dispatch env o w)
  unfolding dispatch do_validate
  dispatch-Safe o w h =
      either-Safe (str_eq o.action "inspect") _ _ w (λ e. do_inspect-Safe w h)
        λ e.
          either-Safe (str_eq o.action "status") _ _ w (λ e. do_status-Safe w h)
            λ e.
              either-Safe (str_eq o.action "prepare") _ _ w (λ e. do_prepare-Safe o.key o.plan w h)
                λ e.
                  either-Safe (str_eq o.action "validate") _ _ w
                    (λ e. validate_for-Safe o.id o.plan w h)
                    λ e.
                      either-Safe (str_eq o.action "apply") _ _ w
                        (λ e.
                          do_move-Safe _ w (apply-Safe env o.id (o.timeout_seconds * second) w h))
                        λ e.
                          either-Safe (str_eq o.action "confirm") _ _ w
                            (λ e. do_move-Safe _ w (confirm-Safe env o.id w h))
                            λ e.
                              either-Safe (str_eq o.action "rollback") _ _ w
                                (λ e. do_move-Safe _ w (rollback_named-Safe env o.id w h))
                                λ e.
                                  either-Safe (str_eq o.action "finalize") _ _ w
                                    (λ e. do_move-Safe _ w (finalize-Safe env o.id w h)) λ e. h

  pub operate-Safe : (o : Operation) (w : World H) → IsHistory w.log → Safe (operate env o w)
  unfolding operate
  operate-Safe o w h =
      quiet w.log _ _ w h refl (log-refuse _ w) λ u w₁ l₁ r. dispatch-Safe o w₁ (ends w.log w₁ h l₁)
