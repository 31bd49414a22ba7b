-- ===== src/Coordinator/History/Lives.antt =====
-- The entry points of coverage_coordinator.go keep the log in order, over whole lives of the service.
use text.Mathlib.Text.{◌==◌ as str_eq}
use route_harbor.Prelude.{
  ◌≡◌, refl, ap, ◌∙◌, true, false, not, ◌∷◌, [], Option, none, some, String, arith, Bool-cases, inl,
  inr,
}
use route_harbor.Effects.{disk, World, ok, ◌>>=◌, ◌>>◌, pure, look, guard}
use route_harbor.Effects.Rules.{either-Safe, follow, guards, quiet, saves}
use route_harbor.Coordinator.{
  Entry, Entries, confirming, confirmed, rolled_back, is_open, is_phase, find, remove, inspect,
  status, validate_id,
}
use route_harbor.Node.{Plan}
use route_harbor.Coverage.{Plan as GatewayPlan}
use route_harbor.Coordinator.World.{fresh, validate_coverage, bare, Env, Command, Step, Job, load}
use route_harbor.Coordinator.Undo.{rollback, rollback_open}
use route_harbor.Coordinator.Prepare.{prepare}
use route_harbor.Coordinator.Commit.{apply, confirm}
use route_harbor.Coordinator.Service.{
  Operation, show_status, rollback_asked, validate, dispatch, paired, job_of, operate_known, forget,
  operate_wireless, operate_for, operate, operate_locked, plan_coverage, is_wireless_prepare,
  recover_entry, is_due, recover_open, recover_round, check_found, recover_loop, recover,
  check_unpair,
}
use route_harbor.Coordinator.History.{IsHistory, IsDue, Change, entries_of}
use route_harbor.Coordinator.History.Rules.{Ready, Safe, asks_gateway, asks_node}
use route_harbor.Coordinator.History.Quiet.{
  Quietly, still, goes_on, guard-Quietly, fresh-Quietly, validate_coverage-Quietly,
  or_raise-Quietly, bind-Quietly,
}
use route_harbor.Coordinator.History.Undone.{rollback-Safe, rollback_open-Safe}
use route_harbor.Coordinator.History.Prepared.{IsLoaded, Ready-found, passes_on, prepare-Safe}
use route_harbor.Coordinator.History.Started.{apply-Safe}
use route_harbor.Coordinator.History.Committed.{confirm-Safe}

on_disk :
    (o : Option Entries) (es : Entries) (id : String) (e : Entry)
    → entries_of o ≡ es
    → find id es ≡ some e
    → o ≡ some es
on_disk none es id e s f = absurd (ground (arith, s, f))
on_disk (some fs) es id e s f = ap some s

module _ {H : Type 0} (env : Env H) where
  show_status-Safe :
      (w : World Entries Command H) (job : Job) (e : Entry)
      → Ready w job e
      → Safe (show_status env job e w)
  unfolding show_status
  show_status-Safe w job e r = asks_gateway env w job e inspect _ r tt λ setup w₁ r₁.
      asks_gateway env w₁ job e status _ r₁ tt
        λ g w₂ r₂. asks_node env w₂ job e status _ r₂ tt λ n w₃ r₃. r₃.ordered

  validate-Safe :
      (w : World Entries Command H) (job : Job) (e : Entry)
      → Ready w job e
      → Safe (validate env job e w)
  unfolding validate
  validate-Safe w job e r = asks_gateway env w job e (validate_id e.gateway.id) _ r tt λ g w₁ r₁.
      goes_on _ _ w₁ job e (or_raise-Quietly g _ w₁) r₁ λ x w₂ r₂ q₂.
        asks_node env w₂ job e (validate_id e.node.id) _ r₂ tt
          λ n w₃ r₃. goes_on _ _ w₃ job e (or_raise-Quietly n _ w₃) r₃ λ y w₄ r₄ q₄. r₄.ordered

  -- A rollback of an entry that is not confirmed.
  undo-Safe :
      (w : World Entries Command H) (job : Job) (e : Entry)
      → Ready w job e
      → is_phase e.transaction.state confirmed ≡ false
      → Safe (rollback env job e w)
  unfolding rollback
  undo-Safe w job e r q =
      either-Safe IsDue (is_phase e.transaction.state rolled_back) (pure e)
        (rollback_open env job e) w (λ p. r.ordered)
        (λ p. rollback_open-Safe env w job e e r (ground (arith, p, q)) (refl, refl, refl, refl))

  rollback_asked-Safe :
      (w : World Entries Command H) (job : Job) (e : Entry)
      → Ready w job e
      → Safe (rollback_asked env job e w)
  unfolding rollback_asked
  rollback_asked-Safe w job e r =
      either-Safe IsDue (is_phase e.transaction.state confirmed) _ _ w (λ q. r.ordered)
        (λ q.
          either-Safe IsDue (is_phase e.transaction.state confirming) _ (rollback env job e) w
            (λ p. r.ordered) (λ p. undo-Safe w job e r q))

  dispatch-Safe :
      (w : World Entries Command H) (job : Job) (e : Entry) (o : Operation)
      → Ready w job e
      → Safe (dispatch env job e o w)
  unfolding dispatch
  dispatch-Safe w job e o r =
      either-Safe IsDue (str_eq o.action "status") (show_status env job e) _ w
        (λ q. show_status-Safe w job e r)
        λ q.
          either-Safe IsDue (str_eq o.action "apply") (apply env job e o.timeout_seconds) _ w
            (λ q. apply-Safe env w job e o.timeout_seconds r)
            λ q.
              either-Safe IsDue (str_eq o.action "confirm") (confirm env job e) _ w
                (λ q. confirm-Safe env w job e r)
                λ q.
                  either-Safe IsDue (str_eq o.action "rollback") (rollback_asked env job e) _ w
                    (λ q. rollback_asked-Safe w job e r)
                    λ q.
                      either-Safe IsDue (str_eq o.action "validate") (validate env job e) _ w
                        (λ q. validate-Safe w job e r) (λ q. r.ordered)

  paired-Quietly : (id : String) (w : World Entries Command H) → Quietly w (paired env id w).0
  unfolding paired look
  paired-Quietly id w = bind-Quietly _ _ w (still w) λ known w₁. or_raise-Quietly known _ w₁

  operate_known-Safe :
      (w : World Entries Command H) (es : Entries) (id : String) (e : Entry) (o : Operation)
      → IsLoaded w es
      → find id es ≡ some e
      → Safe (operate_known env es id e o w)
  unfolding operate_known
  operate_known-Safe w es id e o l f = passes_on _ _ w es (guard-Quietly _ _ w) l λ u w₁ l₁ q₁.
      passes_on _ _ w₁ es (guard-Quietly _ _ w₁) l₁ λ u' w₂ l₂ q₂.
        passes_on _ _ w₂ es (paired-Quietly id w₂) l₂ λ peer w₃ l₃ q₃.
          let job = job_of env id peer es in
          follow IsDue (dispatch env job e o) _ w₃
            (dispatch-Safe w₃ job e o (Ready-found w₃ job e l₃ f)) (λ a w' h. h)

  forget-Safe :
      (w : World Entries Command H) (es : Entries) (id : String) (e : Entry)
      → IsLoaded w es
      → find id es ≡ some e
      → Safe (forget env es id e w)
  unfolding forget
  forget-Safe w es id e l f =
      guards IsDue w.log (not (is_open e.transaction.state)) _ _ w l.ordered refl λ closed w₁ l₁.
        let change : Change (disk w.log) (remove id es) =
          Change.forgets id es e (on_disk (disk w.log) es id e l.same f) f (ground (arith, closed))
            refl in
        saves IsDue w.log _ (remove id es) _ w₁ l.ordered change l₁
          (λ w₂ l₂. rw l₂ (change, l.ordered))

  operate_wireless-Safe :
      (w : World Entries Command H) (es : Entries) (id : String) (o : Operation)
      → IsLoaded w es
      → Safe (operate_wireless env es id o w)
  unfolding operate_wireless
  operate_wireless-Safe w es id o l = passes_on _ _ w es (guard-Quietly _ _ w) l λ u w₁ l₁ q₁.
      passes_on _ _ w₁ es (paired-Quietly id w₁) l₁ λ peer w₂ l₂ q₂.
        let job = job_of env id peer es in
        follow IsDue (prepare env job o.key o.plan o.gateway_plan) _ w₂
          (prepare-Safe env w₂ job o.key o.plan o.gateway_plan l₂) (λ a w' h. h)

  operate_for-Safe :
      (found : Option Entry) (w : World Entries Command H) (es : Entries) (id : String)
      → (o : Operation) → IsLoaded w es
      → find id es ≡ found
      → Safe (operate_for env found es id o w)
  operate_for-Safe none w es id o l f = l.ordered
  operate_for-Safe (some e) w es id o l f =
      either-Safe IsDue (str_eq o.action "prepare") (forget env es id e)
        (operate_known env es id e o) w (λ q. forget-Safe w es id e l f)
        (λ q. operate_known-Safe w es id e o l f)

  load-ok :
      (w : World Entries Command H) (es : Entries)
      → (load env w).1 ≡ ok es
      → entries_of (disk w.log) ≡ es
  unfolding load
  load-ok w es h = ground (arith, h)

  load_world : (w : World Entries Command H) → (load env w).0 ≡ w
  unfolding load
  load_world w = ground arith

module _ {H A : Type 0} (env : Env H) where
  loads :
      (w : World Entries Command H) (f : Entries → Step H A)
      → IsHistory w.log
      → ((es : Entries) (w' : World Entries Command H) → IsLoaded w' es → Safe (f es w'))
      → Safe ((load env >>= f) w)
  loads w f h k =
      quiet IsDue w.log (load env) f w h refl (ap (λ v. v.log) (load_world env w)) λ es w' l q.
        k es w' (record {
          ordered = rw l h;
          same = ap (λ log. entries_of (disk log)) l ∙ load-ok env w es q;
        })

module _ {H : Type 0} (env : Env H) where
  pub operate-Safe :
      (w : World Entries Command H) (id : String) (o : Operation)
      → IsHistory w.log
      → Safe (operate env id o w)
  unfolding operate operate_locked
  operate-Safe w id o h = loads env w _ h λ es w₁ l₁.
      either-Safe IsDue (is_wireless_prepare o) (operate_wireless env es id o)
        (operate_for env (find id es) es id o) w₁ (λ q. operate_wireless-Safe env w₁ es id o l₁)
        (λ q. operate_for-Safe env (find id es) w₁ es id o l₁ refl)

  recover_entry-Safe :
      (w : World Entries Command H) (job : Job) (e : Entry)
      → Ready w job e
      → is_open e.transaction.state ≡ true
      → Safe (recover_entry env job e w)
  unfolding recover_entry
  recover_entry-Safe w job e r o =
      either-Safe IsDue (is_phase e.transaction.state confirming) (confirm env job e)
        (rollback env job e) w (λ q. confirm-Safe env w job e r)
        (λ q. rollback-Safe env w job e e r o (refl, refl, refl, refl))

  recover_open-Safe :
      (w : World Entries Command H) (es : Entries) (id : String) (e : Entry)
      → (later : Step H (Unit {0})) → IsLoaded w es
      → find id es ≡ some e
      → is_open e.transaction.state ≡ true
      → ((w' : World Entries Command H) → IsLoaded w' es → Safe (later w'))
      → Safe (recover_open env es id e later w)
  unfolding recover_open look
  recover_open-Safe w es id e later l f o k =
      passes_on _ _ w es (paired-Quietly env id w) l λ peer w₁ l₁ q₁.
        passes_on _ _ w₁ es (still w₁) l₁ λ now w₂ l₂ q₂.
          let job = job_of env id peer es in
          either-Safe IsDue (is_due env now e) (recover_entry env job e >> pure tt) later w₂
            (λ d.
              follow IsDue (recover_entry env job e) _ w₂
                (recover_entry-Safe w₂ job e (Ready-found w₂ job e l₂ f) o) (λ a w' h. h))
            (λ d. k w₂ l₂)

  recover_round-Safe :
      (found : Option Entry) (w : World Entries Command H) (es : Entries) (id : String)
      → (later : Step H (Unit {0})) → IsLoaded w es
      → find id es ≡ found
      → ((w' : World Entries Command H) → IsLoaded w' es → Safe (later w'))
      → Safe (recover_round env found es id later w)
  recover_round-Safe none w es id later l f k = k w l
  recover_round-Safe (some e) w es id later l f k =
      either-Safe IsDue (is_open e.transaction.state) (recover_open env es id e later) later w
        (λ o. recover_open-Safe w es id e later l f o k) (λ o. k w l)

  recover_loop-Safe :
      (rest : Entries) (w : World Entries Command H) (es : Entries)
      → IsLoaded w es
      → Safe (recover_loop env es rest w)
  unfolding recover_loop
  recover_loop-Safe [] w es l = l.ordered
  recover_loop-Safe ((id, e) ∷ rest) w es l =
      recover_round-Safe (find id es) w es id (recover_loop env es rest) l refl
        (λ w' l'. recover_loop-Safe rest w' es l')

  pub recover-Safe : (w : World Entries Command H) → IsHistory w.log → Safe (recover env w)
  unfolding recover
  recover-Safe w h = loads env w _ h λ es w₁ l₁. recover_loop-Safe es w₁ es l₁

  check_found-Safe :
      (found : Option Entry) (w : World Entries Command H) (es : Entries)
      → IsLoaded w es
      → Safe (check_found env found w)
  unfolding guard
  check_found-Safe none w es l = l.ordered
  check_found-Safe (some e) w es l = elim (Bool-cases (is_open e.transaction.state)) [
    | inl q ↦ rw q l.ordered
    | inr q ↦ rw q l.ordered
  ]

  pub check_unpair-Safe :
      (w : World Entries Command H) (id : String) → IsHistory w.log → Safe (check_unpair env id w)
  unfolding check_unpair
  check_unpair-Safe w id h = loads env w _ h λ es w₁ l₁. check_found-Safe (find id es) w₁ es l₁

  pub plan_coverage-Safe :
      (w : World Entries Command H) (id : String) (p : Plan) (g : Option GatewayPlan)
      → IsHistory w.log
      → Safe (plan_coverage env id p g w)
  unfolding plan_coverage
  plan_coverage-Safe w id p g h =
      let q = bind-Quietly (fresh env bare id) _ w (fresh-Quietly env bare id w) λ peer w₁.
        bind-Quietly (validate_coverage env bare peer p g) _ w₁
          (validate_coverage-Quietly env bare peer p g w₁) λ plans w₂. still w₂ in
      q.ordered h
