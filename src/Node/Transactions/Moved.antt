-- ===== src/Node/Transactions/Moved.antt =====
-- The methods of internal/node/transaction.go keep the log in order, from the found transaction on.
use route_harbor.Prelude.{
  ℕ, ◌+◌, ◌≡◌, ◌≢◌, refl, subst, Bool, true, false, not, ◌||◌, List, ◌∷◌, arith, inl, inr, leb,
}
use route_harbor.Effects.{Event, did, World, disk, look}
use route_harbor.Effects.Rules.{either-Safe, follow}
use route_harbor.Coverage.{
  State, prepared, applying, applied, confirmed, rolling_back, rolled_back, failed,
}
use route_harbor.Coverage.Calls.{is_state}
use route_harbor.Node.Transactions.{
  Transaction, Journal, Command, Env, armed, applied_plan, restored,
}
use route_harbor.Node.Transactions.Manager.{
  rollback, rollback_success, rollback_failure, with_transaction, settled, closed, apply_failure,
  apply_success, arm_failure, apply_armed, apply_prepared, arming, confirm_late, confirm_timely,
  confirm_applied, cancel, undo, rollback_open,
}
use route_harbor.Node.Transactions.History.{Edge, IsDue, Allowed, Holds}
use route_harbor.Node.Transactions.Kept.{
  Ready, Fits, Safe, stores, moves_on, does, does_noted, saves_last,
}
use route_harbor.Node.Transactions.Quiet.{goes_on, log-guard, guard-ok, log-or_raise, log-check}

pub is_state-eq : (s t : State) → is_state s t ≡ true → s ≡ t
is_state-eq s t h = ground arith

-- A move to a state that is neither confirmed nor rolled back.
open_move :
    (j : Journal) (d t : Transaction)
    → Edge d.state t.state
    → t.id ≡ d.id
    → t.state ≢ confirmed
    → t.state ≢ rolled_back
    → Fits j d (with_transaction j t) t
open_move j d t e i c r = record {
  is = refl;
  edge = e;
  same_id = i;
  same_request = (refl, refl);
  clean = λ s. elim s [ inl q ↦ absurd (c q) | inr q ↦ absurd (r q) ];
}

settled_move :
    (j : Journal) (d t : Transaction)
    → Edge d.state t.state
    → t.id ≡ d.id
    → t.plan.passphrase ≡ ""
    → Fits j d (settled j t) t
settled_move j d t e i p = record {
  is = refl;
  edge = e;
  same_id = i;
  same_request = (refl, refl);
  clean = λ s. (p, refl);
}

module _ {H : Type 0} (env : Env H) where
  rollback_success-Safe :
      (w : World Journal Command H) (j : Journal) (t : Transaction)
      → Ready w j t
      → t.state ≡ rolling_back
      → Safe (rollback_success env j t w)
  unfolding rollback_success
  rollback_success-Safe w j t r s =
      stores w j t (settled j (closed rolled_back t)) (closed rolled_back t) _ r
        (settled_move j t (closed rolled_back t) (rw s Edge.undone) refl refl) (λ w' h l. h)

  rollback_failure-Safe :
      (w : World Journal Command H) (j : Journal) (t : Transaction)
      → Ready w j t
      → t.state ≡ rolling_back
      → Safe (rollback_failure env j t w)
  unfolding rollback_failure
  rollback_failure-Safe w j t r s =
      let t' = record t { error_code = "rollback_failed" } in
      saves_last w j t (with_transaction j t') t' _ _ r (
        open_move j t t' (rw s Edge.retry) refl (λ q. absurd (ground (arith, s, q)))
          (λ q. absurd (ground (arith, s, q))))

  -- `d` is the transaction on disk, `t` the one in memory.
  pub rollback-Safe :
      (w : World Journal Command H) (j : Journal) (d t : Transaction)
      → Ready w j d
      → Edge d.state rolling_back
      → t.id ≡ d.id
      → Safe (rollback env j t w)
  unfolding rollback
  rollback-Safe w j d t r e i =
      let t' = record t { state = rolling_back } in
      moves_on w j d t' _ r
        (open_move j d t' e i (λ q. absurd (ground (arith, q))) (λ q. absurd (ground (arith, q))))
        λ w₁ r₁ l₁.
          does w₁ j t' (restored j.snapshot t'.plan) _ _ r₁
            (record {
              file = with_transaction j t';
              transaction = t';
              on_disk = r₁.on_disk;
              is = refl;
              holds = (refl, refl, refl);
            })
            λ broken w₂ r₂ l₂.
              either-Safe IsDue broken (rollback_failure env j t') (rollback_success env j t') w₂
                (λ q. rollback_failure-Safe w₂ j t' r₂ refl)
                (λ q. rollback_success-Safe w₂ j t' r₂ refl)

  apply_failure-Safe :
      (w : World Journal Command H) (j : Journal) (t : Transaction)
      → Ready w j t
      → t.state ≡ applying
      → Safe (apply_failure env j t w)
  unfolding apply_failure
  apply_failure-Safe w j t r s =
      rollback-Safe w j t (record t { error_code = "apply_failed" }) r (rw s Edge.undo_applying)
        refl

  apply_success-Safe :
      (w : World Journal Command H) (j : Journal) (t : Transaction)
      → Ready w j t
      → t.state ≡ applying
      → Safe (apply_success env j t w)
  unfolding apply_success
  apply_success-Safe w j t r s =
      let t' = record t { state = applied } in
      moves_on w j t t' _ r
        (open_move j t t' (rw s Edge.done) refl (λ q. absurd (ground (arith, q)))
          (λ q. absurd (ground (arith, q))))
        (λ w' r' l. r'.ordered)

  arm_failure-Safe :
      (w : World Journal Command H) (j : Journal) (t : Transaction)
      → Ready w j t
      → t.state ≡ applying
      → Safe (arm_failure env j t w)
  unfolding arm_failure
  arm_failure-Safe w j t r s =
      let t' = record t { state = failed; error_code = "watchdog_unavailable" } in
      saves_last w j t (with_transaction j t') t' _ _ r (
        open_move j t t' (rw s Edge.unarmed) refl (λ q. absurd (ground (arith, q)))
          (λ q. absurd (ground (arith, q))))

  apply_armed-Safe :
      (w : World Journal Command H) (j : Journal) (t : Transaction)
      → (earlier : List (Event Journal Command)) → Ready w j t
      → t.state ≡ applying
      → w.log ≡ did (armed t.id) ∷ earlier
      → Safe (apply_armed env j t w)
  unfolding apply_armed
  apply_armed-Safe w j t earlier r s l =
      does w j t (applied_plan t.plan) _ _ r
        (record {
          file = with_transaction j t;
          transaction = t;
          on_disk = r.on_disk;
          is = refl;
          holds = (s, refl, (earlier, l));
        })
        λ broken w₁ r₁ l₁.
          either-Safe IsDue broken (apply_failure env j t) (apply_success env j t) w₁
            (λ q. apply_failure-Safe w₁ j t r₁ s) (λ q. apply_success-Safe w₁ j t r₁ s)

  arming-Allowed :
      (w : World Journal Command H) (j : Journal) (t : Transaction)
      → Ready w j t
      → t.state ≡ applying
      → (unarmed : Bool) → Allowed (arming t.id unarmed) w.log
  arming-Allowed w j t r s unarmed = elim unarmed as (λ b. Allowed (arming t.id b) w.log) [
    | true ↦ it
    | false ↦ it
  ]
    where
      it : Holds (disk w.log) (λ k u. (u.state ≡ applying) × (u.id ≡ t.id))
      it = record {
        file = with_transaction j t;
        transaction = t;
        on_disk = r.on_disk;
        is = refl;
        holds = (s, refl);
      }

  pub apply_prepared-Safe :
      (w : World Journal Command H) (j : Journal) (t : Transaction) (timeout : ℕ)
      → Ready w j t
      → Safe (apply_prepared env j t timeout w)
  unfolding apply_prepared look
  apply_prepared-Safe w j t timeout r = goes_on _ _ w j t r (log-guard _ _ w) λ u w₁ r₁ l₁ q₁.
      goes_on _ _ w₁ j t r₁ (log-check env t.plan w₁) λ u' w₂ r₂ l₂ q₂.
        goes_on _ _ w₂ j t r₂ (log-or_raise env.arm _ w₂) λ arm w₃ r₃ l₃ q₃.
          goes_on _ _ w₃ j t r₃ refl λ now w₄ r₄ l₄ q₄.
            let t' = record t { state = applying; deadline = now + timeout } in
            let s : t.state ≡ prepared = is_state-eq t.state prepared (guard-ok _ _ u w q₁) in
            moves_on w₄ j t t' _ r₄
              (open_move j t t' (rw s Edge.begin) refl (λ q. absurd (ground (arith, q)))
                (λ q. absurd (ground (arith, q))))
              λ w₅ r₅ l₅.
                does_noted w₅ j t' (arming t'.id) _ _ r₅ (arming-Allowed w₅ j t' r₅ refl)
                  λ unarmed w₆ r₆ l₆.
                    either-Safe IsDue unarmed (arm_failure env j t') (apply_armed env j t') w₆
                      (λ q. arm_failure-Safe w₆ j t' r₆ refl)
                      (λ q.
                        apply_armed-Safe w₆ j t' w₅.log r₆ refl
                          (subst (λ b. w₆.log ≡ did (arming t'.id b) ∷ w₅.log) q l₆))

  confirm_timely-Safe :
      (w : World Journal Command H) (j : Journal) (t : Transaction)
      → Ready w j t
      → t.state ≡ applied
      → Safe (confirm_timely env j t w)
  unfolding confirm_timely
  confirm_timely-Safe w j t r s = goes_on _ _ w j t r (log-check env t.plan w) λ u w₁ r₁ l₁ q₁.
      let t' = closed confirmed t in
      stores w₁ j t (settled j t') t' _ r₁ (settled_move j t t' (rw s Edge.confirm) refl refl)
        (λ w' h l. h)

  pub confirm_applied-Safe :
      (w : World Journal Command H) (j : Journal) (t : Transaction)
      → Ready w j t
      → Safe (confirm_applied env j t w)
  unfolding confirm_applied confirm_late look
  confirm_applied-Safe w j t r = goes_on _ _ w j t r (log-guard _ _ w) λ u w₁ r₁ l₁ q₁.
      goes_on _ _ w₁ j t r₁ refl λ now w₂ r₂ l₂ q₂.
        let s : t.state ≡ applied = is_state-eq t.state applied (guard-ok _ _ u w q₁) in
        either-Safe IsDue (leb t.deadline now) (confirm_late env j t) (confirm_timely env j t) w₂
          (λ q. rollback-Safe w₂ j t t r₂ (rw s Edge.undo_applied) refl)
          (λ q. confirm_timely-Safe w₂ j t r₂ s)

  cancel-Safe :
      (w : World Journal Command H) (j : Journal) (t : Transaction)
      → Ready w j t
      → t.state ≡ prepared
      → Safe (cancel env j t w)
  unfolding cancel
  cancel-Safe w j t r s =
      let t' = record t { state = rolled_back; plan = record t.plan { passphrase = "" } } in
      stores w j t (settled j t') t' _ r (settled_move j t t' (rw s Edge.cancel) refl refl)
        (λ w' h l. h)

  -- An open transaction that is not prepared may roll back.
  pub undo-Safe :
      (w : World Journal Command H) (j : Journal) (t : Transaction)
      → Ready w j t
      → Edge t.state rolling_back
      → Safe (undo env j t w)
  unfolding undo
  undo-Safe w j t r e =
      follow IsDue (rollback env j t) _ w (rollback-Safe w j t t r e refl) (λ a w' h. h)

  pub rollback_open-Safe :
      (w : World Journal Command H) (j : Journal) (t : Transaction)
      → Ready w j t
      → (is_state t.state prepared ≡ false
          → not (is_state t.state confirmed || is_state t.state failed) ≡ true
          → Edge t.state rolling_back)
      → Safe (rollback_open env j t w)
  unfolding rollback_open
  rollback_open-Safe w j t r e = goes_on _ _ w j t r (log-guard _ _ w) λ u w₁ r₁ l₁ q₁.
      either-Safe IsDue (is_state t.state prepared) (cancel env j t) (undo env j t) w₁
        (λ q. cancel-Safe w₁ j t r₁ (is_state-eq t.state prepared q))
        (λ q. undo-Safe w₁ j t r₁ (e q (guard-ok _ _ u w q₁)))
