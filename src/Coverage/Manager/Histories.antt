-- ===== src/Coverage/Manager/Histories.antt =====
-- Every method of transaction.go keeps the log in order.
use route_harbor.Prelude.{◌≡◌, refl, ap, Bool, true, false, List, ◌∷◌, if◌then◌else◌}
use route_harbor.Coverage.{Transaction, applying, applied, rolling_back, rolled_back, failed}
use route_harbor.Coverage.Journal.{Journal}
use route_harbor.Coverage.World.{World, Env, Event, wrote, restored, ◌>>=◌}
use route_harbor.Coverage.History.{Edge, IsHistory, IsUndoing}
use route_harbor.Coverage.Manager.Rules.{Safe, ends, follow, At, At-event, saves, saves_last}
use route_harbor.Coverage.Manager.{
  rollback, rollback_failure, rollback_success, apply_success, apply_failure, arm_failure,
}
use route_harbor.Coverage.Calls.{with_transaction, do_restore}

module _ {H : Type 0} (env : Env H) where
  rollback_success-Safe :
      (log : List Event) (j : Journal) (t : Transaction) (w : World H)
      → IsHistory log
      → At log j t
      → t.state ≡ rolling_back
      → w.log ≡ log
      → Safe (rollback_success env j t w)
  unfolding rollback_success
  rollback_success-Safe log j t w h a e l =
      saves log j t _ (record t { state = rolled_back; deadline = 0 }) _ w h a
        (record {
          is = refl;
          same_key = refl;
          same_hash = refl;
          edge = rw e Edge.undone;
          same_id = refl;
          same_plan = refl;
        })
        l (λ w' l' h' a'. ends _ w' h' l')

  rollback_failure-Safe :
      (log : List Event) (j : Journal) (t : Transaction) (w : World H)
      → IsHistory log
      → At log j t
      → t.state ≡ rolling_back
      → w.log ≡ log
      → Safe (rollback_failure env j t w)
  unfolding rollback_failure
  rollback_failure-Safe log j t w h a e l =
      saves_last log j t _ (record t { error_code = "rollback_failed" }) w h a
        (record {
          is = refl;
          same_key = refl;
          same_hash = refl;
          edge = rw e Edge.retry;
          same_id = refl;
          same_plan = refl;
        })
        l

  restored-Safe :
      (log : List Event) (j : Journal) (t : Transaction) (w : World H) (broken : Bool)
      → IsHistory log
      → At log j t
      → t.state ≡ rolling_back
      → w.log ≡ log
      → Safe ((if broken then rollback_failure env j t else rollback_success env j t) w)
  restored-Safe log j t w true h a e l = rollback_failure-Safe log j t w h a e l
  restored-Safe log j t w false h a e l = rollback_success-Safe log j t w h a e l

  undoing :
      (log : List Event) (j : Journal) (t : Transaction)
      → t.state ≡ rolling_back
      → IsUndoing j.snapshot (wrote (with_transaction j t) ∷ log)
  undoing log j t e = record {
    journal = with_transaction j t;
    transaction = t;
    earlier = log;
    shape = refl;
    is = refl;
    state = e;
    snapshot = refl;
  }

  restoring-Safe :
      (log : List Event) (j : Journal) (t : Transaction) (w : World H)
      → IsHistory (wrote (with_transaction j t) ∷ log)
      → At (wrote (with_transaction j t) ∷ log) j t
      → t.state ≡ rolling_back
      → w.log ≡ wrote (with_transaction j t) ∷ log
      → Safe (
          (do_restore env j.snapshot >>= λ broken.
          if broken then rollback_failure env j t else rollback_success env j t)
            w)
  unfolding do_restore ◌>>=◌
  restoring-Safe log j t w h a e l =
      restored-Safe (restored j.snapshot ∷ wrote (with_transaction j t) ∷ log) j t _
        (env.restore w.hw j.snapshot).1 (undoing log j t e, h) (At-event refl a) e
        (ap (λ x. restored j.snapshot ∷ x) l)

  -- `t` is the transaction in memory, `s` the one in the file.
  pub rollback-Safe :
      (log : List Event) (j : Journal) (s t : Transaction) (w : World H)
      → IsHistory log
      → At log j s
      → Edge s.state rolling_back
      → t.id ≡ s.id
      → t.plan ≡ s.plan
      → w.log ≡ log
      → Safe (rollback env j t w)
  unfolding rollback
  rollback-Safe log j s t w h a e i p l =
      saves log j s (with_transaction j t') t' _ w h a
        (record {
          is = refl;
          same_key = refl;
          same_hash = refl;
          edge = e;
          same_id = i;
          same_plan = p;
        })
        l (λ w' l' h' a'. restoring-Safe log j t' w' h' a' refl l')
    where
      t' : Transaction
      t' = record t { state = rolling_back }

  apply_success-Safe :
      (log : List Event) (j : Journal) (t : Transaction) (w : World H)
      → IsHistory log
      → At log j t
      → t.state ≡ applying
      → w.log ≡ log
      → Safe (apply_success env j t w)
  unfolding apply_success
  apply_success-Safe log j t w h a e l =
      saves log j t _ (record t { state = applied }) _ w h a
        (record {
          is = refl;
          same_key = refl;
          same_hash = refl;
          edge = rw e Edge.done;
          same_id = refl;
          same_plan = refl;
        })
        l (λ w' l' h' a'. ends _ w' h' l')

  apply_failure-Safe :
      (log : List Event) (j : Journal) (t : Transaction) (w : World H)
      → IsHistory log
      → At log j t
      → t.state ≡ applying
      → w.log ≡ log
      → Safe (apply_failure env j t w)
  unfolding apply_failure
  apply_failure-Safe log j t w h a e l =
      follow (rollback env j (record t { error_code = "apply_failed" })) _ w
        (rollback-Safe log j t (record t { error_code = "apply_failed" }) w h a
          (rw e Edge.undo_applying) refl refl l)
        (λ b w' h'. h')

  pub arm_failure-Safe :
      (log : List Event) (j : Journal) (t : Transaction) (w : World H)
      → IsHistory log
      → At log j t
      → t.state ≡ applying
      → w.log ≡ log
      → Safe (arm_failure env j t w)
  unfolding arm_failure
  arm_failure-Safe log j t w h a e l =
      saves_last log j t _ (record t { state = failed; error_code = "watchdog_unavailable" }) w h a
        (record {
          is = refl;
          same_key = refl;
          same_hash = refl;
          edge = rw e Edge.unarmed;
          same_id = refl;
          same_plan = refl;
        })
        l

  pub changed-Safe :
      (log : List Event) (j : Journal) (t : Transaction) (w : World H) (broken : Bool)
      → IsHistory log
      → At log j t
      → t.state ≡ applying
      → w.log ≡ log
      → Safe ((if broken then apply_failure env j t else apply_success env j t) w)
  changed-Safe log j t w true h a e l = apply_failure-Safe log j t w h a e l
  changed-Safe log j t w false h a e l = apply_success-Safe log j t w h a e l
