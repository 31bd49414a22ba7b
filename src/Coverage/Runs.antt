-- ===== src/Coverage/Runs.antt =====
-- Whole lives of a gateway transaction (transaction.go): requests, watchdog runs, restarts, faults.
use route_harbor.Prelude.{◌≡◌, subst, List, [], ◌∷◌, ◌++◌}
use route_harbor.Coverage.{Operation}
use route_harbor.Coverage.Journal.{Snapshot}
use route_harbor.Coverage.World.{
  World, Env, Event, applied_plan, restored, wrote, armed, arm_refused,
}
use route_harbor.Coverage.History.{IsHistory, IsUndoing}
use route_harbor.Coverage.Manager.{recover, resume, can_remove}
use route_harbor.Coverage.Manager.Entries.{recover-Safe, resume-Safe}
use route_harbor.Coverage.Manager.Requests.{can_remove-Safe}
use route_harbor.Coverage.Dispatch.{operate}
use route_harbor.Coverage.Dispatch.Histories.{operate-Safe}

-- Between two calls the world may change in every way, but for what has happened. A process that
-- is killed leaves the log at any event, so a world whose log is a tail may also come next.
pub data Reach {H : Type 0} (env : Env H) : World H → Type 0 where
  fresh : (w : World H) → w.log ≡ [] → Reach env w
  operates : {w : World H} (o : Operation) → Reach env w → Reach env (operate env o w).0
  recovers : {w : World H} → Reach env w → Reach env (recover env w).0
  resumes : {w : World H} → Reach env w → Reach env (resume env w).0
  checks : {w : World H} → Reach env w → Reach env (can_remove env w).0
  outside : {w : World H} (w' : World H) → w'.log ≡ w.log → Reach env w → Reach env w'
  killed :
      {w : World H} (w' : World H) (lost : List Event)
      → w.log ≡ lost ++ w'.log
      → Reach env w
      → Reach env w'

IsHistory-tail : (lost log : List Event) → IsHistory (lost ++ log) → IsHistory log
IsHistory-tail [] log h = h
IsHistory-tail (wrote j ∷ lost) log h = IsHistory-tail lost log h.1
IsHistory-tail (armed i ∷ lost) log h = IsHistory-tail lost log h
IsHistory-tail (arm_refused i ∷ lost) log h = IsHistory-tail lost log h
IsHistory-tail (applied_plan p ∷ lost) log h = IsHistory-tail lost log h.1
IsHistory-tail (restored s ∷ lost) log h = IsHistory-tail lost log h.1

module _ {H : Type 0} (env : Env H) where
  -- In every life that starts with no journal, over every backend, watchdog and order of calls, with
  -- failed writes and a kill after any event, the log is in order: each journal written moves the
  -- recorded transaction along the state diagram, or begins a new one where none is open; the radio
  -- is changed only right after `Arm` reported success for a transaction that the journal on disk
  -- holds as applying, and restored only right after the journal on disk says rolling back.
  pub Reach-IsHistory : (w : World H) → Reach env w → IsHistory w.log
  Reach-IsHistory _ (fresh w e) = rw e tt
  Reach-IsHistory _ (operates {w = v} o r) = operate-Safe env o v (Reach-IsHistory v r)
  Reach-IsHistory _ (recovers {w = v} r) = recover-Safe env v (Reach-IsHistory v r)
  Reach-IsHistory _ (resumes {w = v} r) = resume-Safe env v (Reach-IsHistory v r)
  Reach-IsHistory _ (checks {w = v} r) = can_remove-Safe env v (Reach-IsHistory v r)
  Reach-IsHistory _ (outside {w = v} w e r) = rw e (Reach-IsHistory v r)
  Reach-IsHistory _ (killed {w = v} w lost e r) =
      IsHistory-tail lost w.log (subst IsHistory e (Reach-IsHistory v r))

  -- Wherever the radio was restored in a life that starts with no journal, with failed writes, a kill
  -- after any event and every order of calls, the event before was a journal that holds its
  -- transaction as rolling back, and the snapshot restored is the one in that journal.
  pub Reach-IsUndoing :
      (w : World H) (later earlier : List Event) (s : Snapshot)
      → Reach env w
      → w.log ≡ later ++ restored s ∷ earlier
      → IsUndoing s earlier
  Reach-IsUndoing w later earlier s r e =
      (IsHistory-tail later (restored s ∷ earlier) (subst IsHistory e (Reach-IsHistory w r))).0
