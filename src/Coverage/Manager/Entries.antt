-- ===== src/Coverage/Manager/Entries.antt =====
-- The entry points of transaction.go keep the log in order.
use route_harbor.Prelude.{
  ℕ, ◌≡◌, ◌≢◌, refl, Bool, true, false, not, ◌||◌, ◌&&◌, List, Option, none, some, String, arith,
  if◌then◌else◌, leb, ◌==◌, ◌∷◌, Option-cases, inl, inr,
}
use route_harbor.Coverage.{
  Transaction, State, prepared, applying, applied, confirmed, finalized, rolling_back, rolled_back,
  failed, unknown, invalid_state,
}
use route_harbor.Coverage.Journal.{Journal, active_state}
use route_harbor.Coverage.World.{
  World, Env, Event, Action, ◌>>=◌, or_raise, guard, pure, disk, read_file,
}
use route_harbor.Coverage.History.{Edge, IsHistory}
use route_harbor.Coverage.Manager.Rules.{Safe, either-Safe, ends, quiet, follow, At, saves}
use route_harbor.Coverage.Manager.Histories.{rollback-Safe}
use route_harbor.Coverage.Manager.Methods.{
  is_state-eq, guards, known_state, At-read_file, log-clock, log-check_current, loads, finds,
  apply_prepared-Safe,
}
use route_harbor.Coverage.Manager.{
  rollback, apply, confirm_late, confirm_timely, confirm_applied, confirm, cancel, rollback_open,
  rollback_named, recover_late, recover_due, recover_transaction, recover_found, recover,
  resume_found, finalize_confirmed, finalize, arm_again, resume,
}
use route_harbor.Coverage.Calls.{is_state, at_rest, do_arm, arming}

module _ {H : Type 0} (env : Env H) where
  -- A branch that returns what is on record, and one that is safe.
  or_pure-Safe :
      (log : List Event) (b : Bool) (t : Transaction) (m : Action H Transaction) (w : World H)
      → IsHistory log
      → w.log ≡ log
      → Safe (m w)
      → Safe ((if b then pure t else m) w)
  or_pure-Safe log true t m w h l s = rw l h
  or_pure-Safe log false t m w h l s = s

  pub apply-Safe :
      (id : String) (timeout : ℕ) (w : World H) → IsHistory w.log → Safe (apply env id timeout w)
  unfolding apply
  apply-Safe id timeout w h = guards w.log _ _ _ w h refl λ first w₁ l₁.
      loads env w.log _ w₁ h l₁ λ j w₂ l₂ e c. finds env w.log id j _ w₂ h l₂ e λ t w₃ l₃ a q.
        or_pure-Safe w.log (is_state t.state applied || is_state t.state confirmed) t _ w₃ h l₃
          (apply_prepared-Safe env w.log j t timeout w₃ h a l₃)

  confirm_late-Safe :
      (log : List Event) (j : Journal) (t : Transaction) (w : World H)
      → IsHistory log
      → At log j t
      → t.state ≡ applied
      → w.log ≡ log
      → Safe (confirm_late env j t w)
  unfolding confirm_late
  confirm_late-Safe log j t w h a e l =
      follow (rollback env j t) _ w
        (rollback-Safe env log j t t w h a (rw e Edge.undo_applied) refl refl l) (λ b w' h'. h')

  confirm_timely-Safe :
      (log : List Event) (j : Journal) (t : Transaction) (w : World H)
      → IsHistory log
      → At log j t
      → t.state ≡ applied
      → w.log ≡ log
      → Safe (confirm_timely env j t w)
  unfolding confirm_timely
  confirm_timely-Safe log j t w h a e l =
      quiet log _ _ w h l (log-check_current env j t w) λ u w₁ l₁ r₁.
        saves log j t _ (record t { state = confirmed; deadline = 0 }) _ w₁ h a
          (record {
            is = refl;
            same_key = refl;
            same_hash = refl;
            edge = rw e Edge.confirm;
            same_id = refl;
            same_plan = refl;
          })
          l₁ (λ w' l' h' a'. ends _ w' h' l')

  due-Safe :
      (log : List Event) (j : Journal) (t : Transaction) (w : World H) (late : Bool)
      → IsHistory log
      → At log j t
      → t.state ≡ applied
      → w.log ≡ log
      → Safe ((if late then confirm_late env j t else confirm_timely env j t) w)
  due-Safe log j t w true h a e l = confirm_late-Safe log j t w h a e l
  due-Safe log j t w false h a e l = confirm_timely-Safe log j t w h a e l

  confirm_applied-Safe :
      (log : List Event) (j : Journal) (t : Transaction) (w : World H)
      → IsHistory log
      → At log j t
      → w.log ≡ log
      → Safe (confirm_applied env j t w)
  unfolding confirm_applied
  confirm_applied-Safe log j t w h a l =
      guards log (is_state t.state applied) invalid_state _ w h l λ first w₁ l₁.
        quiet log _ _ w₁ h l₁ (log-clock w₁) λ now w₂ l₂ r₂.
          due-Safe log j t w₂ (leb t.deadline now) h a (is_state-eq t.state applied first) l₂

  pub confirm-Safe : (id : String) (w : World H) → IsHistory w.log → Safe (confirm env id w)
  unfolding confirm
  confirm-Safe id w h = loads env w.log _ w h refl λ j w₁ l₁ e c.
      finds env w.log id j _ w₁ h l₁ e λ t w₂ l₂ a q.
        or_pure-Safe w.log (is_state t.state confirmed || is_state t.state finalized) t _ w₂ h l₂
          (confirm_applied-Safe w.log j t w₂ h a l₂)

  cancel-Safe :
      (log : List Event) (j : Journal) (t : Transaction) (w : World H)
      → IsHistory log
      → At log j t
      → t.state ≡ prepared
      → w.log ≡ log
      → Safe (cancel env j t w)
  unfolding cancel
  cancel-Safe log j t w h a e l =
      saves log j t _ (record t { state = rolled_back }) _ w h a
        (record {
          is = refl;
          same_key = refl;
          same_hash = refl;
          edge = rw e Edge.cancel;
          same_id = refl;
          same_plan = refl;
        })
        l (λ w' l' h' a'. ends _ w' h' l')

  -- The states in which a rollback is not refused.
  undoable :
      (s : State)
      → is_state s prepared ≡ false
      → not (is_state s finalized || is_state s failed) ≡ true
      → is_state s rolled_back ≡ false
      → s ≢ unknown
      → Edge s rolling_back
  undoable applying p q r u = Edge.undo_applying
  undoable applied p q r u = Edge.undo_applied
  undoable confirmed p q r u = Edge.undo_confirmed
  undoable rolling_back p q r u = Edge.retry
  undoable prepared p q r u = cc
  undoable finalized p q r u = cc
  undoable failed p q r u = cc
  undoable rolled_back p q r u = cc
  undoable unknown p q r u = absurd (u refl)

  rollback_open-Safe :
      (log : List Event) (j : Journal) (t : Transaction) (w : World H)
      → IsHistory log
      → At log j t
      → t.state ≢ unknown
      → is_state t.state rolled_back ≡ false
      → w.log ≡ log
      → Safe (rollback_open env j t w)
  unfolding rollback_open
  rollback_open-Safe log j t w h a u r l = guards log _ _ _ w h l λ q w₁ l₁.
      either-Safe (is_state t.state prepared) (cancel env j t) (rollback env j t) w₁
        (λ p. cancel-Safe log j t w₁ h a (is_state-eq t.state prepared p) l₁)
        (λ p. rollback-Safe env log j t t w₁ h a (undoable t.state p q r u) refl refl l₁)

  pub rollback_named-Safe :
      (id : String) (w : World H) → IsHistory w.log → Safe (rollback_named env id w)
  unfolding rollback_named
  rollback_named-Safe id w h = loads env w.log _ w h refl λ j w₁ l₁ e c.
      finds env w.log id j _ w₁ h l₁ e λ t w₂ l₂ a q.
        either-Safe (is_state t.state rolled_back) (pure t) (rollback_open env j t) w₂
          (λ p. ends w.log w₂ h l₂)
          (λ p. rollback_open-Safe w.log j t w₂ h a (known_state env.decode j t c q) p l₂)

  resting : (t : Transaction) → at_rest t ≡ false → Edge t.state rolling_back
  resting t p = by_state t.state p
    where
      by_state :
          (s : State) → (not (active_state s) || is_state s prepared) ≡ false → Edge s rolling_back
      by_state applying p = Edge.undo_applying
      by_state applied p = Edge.undo_applied
      by_state rolling_back p = Edge.retry
      by_state prepared p = cc
      by_state confirmed p = cc
      by_state finalized p = cc
      by_state failed p = cc
      by_state rolled_back p = cc
      by_state unknown p = cc

  recover_late-Safe :
      (log : List Event) (j : Journal) (t : Transaction) (w : World H)
      → IsHistory log
      → At log j t
      → Edge t.state rolling_back
      → w.log ≡ log
      → Safe (recover_late env j t w)
  unfolding recover_late
  recover_late-Safe log j t w h a e l =
      follow (rollback env j t) _ w (rollback-Safe env log j t t w h a e refl refl l)
        (λ b w' h'. h')

  recover_transaction-Safe :
      (log : List Event) (j : Journal) (t : Transaction) (w : World H)
      → IsHistory log
      → At log j t
      → w.log ≡ log
      → Safe (recover_transaction env j t w)
  unfolding recover_transaction recover_due
  recover_transaction-Safe log j t w h a l = quiet log _ _ w h l (log-clock w) λ now w₁ l₁ r₁.
      either-Safe (at_rest t) (pure true) (recover_due env j t now) w₁ (λ p. ends log w₁ h l₁)
        (λ p.
          either-Safe
            (is_state t.state rolling_back || (not (t.deadline == 0) && leb t.deadline now))
            (recover_late env j t) (pure false) w₁
            (λ q. recover_late-Safe log j t w₁ h a (resting t p) l₁) (λ q. ends log w₁ h l₁))

  recover_found-Safe :
      (o : Option Transaction) (j : Journal) (log : List Event) (w : World H)
      → IsHistory log
      → w.log ≡ log
      → read_file (disk log) ≡ j
      → j.transaction ≡ o
      → Safe (recover_found env j o w)
  unfolding recover_found
  recover_found-Safe none j log w h l e q = rw l h
  recover_found-Safe (some t) j log w h l e q =
      recover_transaction-Safe log j t w h (At-read_file log (disk log) j t refl e q) l

  pub recover-Safe : (w : World H) → IsHistory w.log → Safe (recover env w)
  unfolding recover
  recover-Safe w h =
      loads env w.log _ w h refl
        λ j w₁ l₁ e c. recover_found-Safe j.transaction j w.log w₁ h l₁ e refl

  arming-IsHistory :
      (unarmed : Bool) (id : String) (log : List Event)
      → IsHistory log
      → IsHistory (arming unarmed id ∷ log)
  arming-IsHistory true id log h = h
  arming-IsHistory false id log h = h

  arm_again-Safe :
      (t : Transaction) (log : List Event) (w : World H)
      → IsHistory log
      → w.log ≡ log
      → Safe (arm_again env t w)
  unfolding arm_again do_arm ◌>>=◌ or_raise guard
  arm_again-Safe t log w h l = elim (Option-cases env.arm) [
    | inl q ↦ rw (q, l) h
    | inr (arm, q) ↦ ground (arith, q, arming-IsHistory (arm w.hw t.id).1 t.id w.log (rw l h))
  ]

  resume_found-Safe :
      (o : Option Transaction) (log : List Event) (w : World H)
      → IsHistory log
      → w.log ≡ log
      → Safe (resume_found env o w)
  unfolding resume_found
  resume_found-Safe none log w h l = rw l h
  resume_found-Safe (some t) log w h l =
      either-Safe (at_rest t) (pure tt) (arm_again env t) w (λ p. ends log w h l)
        (λ p. arm_again-Safe t log w h l)

  pub resume-Safe : (w : World H) → IsHistory w.log → Safe (resume env w)
  unfolding resume
  resume-Safe w h =
      loads env w.log _ w h refl λ j w₁ l₁ e c. resume_found-Safe j.transaction w.log w₁ h l₁

  finalize_confirmed-Safe :
      (log : List Event) (j : Journal) (t : Transaction) (w : World H)
      → IsHistory log
      → At log j t
      → w.log ≡ log
      → Safe (finalize_confirmed env j t w)
  unfolding finalize_confirmed
  finalize_confirmed-Safe log j t w h a l =
      guards log (is_state t.state confirmed) invalid_state _ w h l λ p w₁ l₁.
        let e : t.state ≡ confirmed = is_state-eq t.state confirmed p in
        saves log j t _ (record t { state = finalized }) _ w₁ h a
          (record {
            is = refl;
            same_key = refl;
            same_hash = refl;
            edge = rw e Edge.finalize;
            same_id = refl;
            same_plan = refl;
          })
          l₁ (λ w' l' h' a'. ends _ w' h' l')

  pub finalize-Safe : (id : String) (w : World H) → IsHistory w.log → Safe (finalize env id w)
  unfolding finalize
  finalize-Safe id w h = loads env w.log _ w h refl λ j w₁ l₁ e c.
      finds env w.log id j _ w₁ h l₁ e λ t w₂ l₂ a q.
        or_pure-Safe w.log (is_state t.state finalized) t _ w₂ h l₂
          (finalize_confirmed-Safe w.log j t w₂ h a l₂)
