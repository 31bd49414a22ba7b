-- ===== src/Node/Transactions/Runs.antt =====
-- What holds in every life of a node's transaction (internal/node/transaction.go).
use text.Mathlib.Text.{◌==◌ as str_eq}
use route_harbor.Prelude.{
  ℕ, ◌≡◌, ◌⊎◌, refl, ap, subst, true, not, List, [], ◌∷◌, ◌++◌, Option, some, String, arith, inl,
  inr,
}
use route_harbor.Effects.{Event, wrote, did, disk, World, look}
use route_harbor.Effects.Rules.{either-Safe, quiet, saves, IsOrdered-tail}
use route_harbor.Coverage.{applying, confirmed, rolled_back}
use route_harbor.Node.{Plan}
use route_harbor.Node.Transactions.{
  Transaction, Journal, Command, Env, armed, applied_plan, file_of, is_active,
}
use route_harbor.Node.Transactions.Manager.{
  prepare, begin, replay, validate, apply, confirm, rollback_named, recover, status, draw, store,
  new_transaction,
}
use route_harbor.Node.Transactions.History.{Change, Holds, IsClean, IsDue, IsHistory}
use route_harbor.Node.Transactions.Kept.{Safe}
use route_harbor.Node.Transactions.Quiet.{log-guard, guard-ok, log-or_raise, log-check}
use route_harbor.Node.Transactions.Lives.{
  loads, apply-Safe, validate-Safe, confirm-Safe, rollback_named-Safe, recover-Safe,
}

module _ {H : Type 0} (env : Env H) where
  replay-Safe :
      (j : Journal) (p : Plan) (w : World Journal Command H)
      → IsHistory w.log
      → Safe (replay env j p w)
  unfolding replay
  replay-Safe j p w h = quiet IsDue w.log _ _ w h refl (log-guard _ _ w) λ u w₁ l₁ q₁.
      quiet IsDue w.log _ _ w₁ h l₁ (log-or_raise j.transaction _ w₁) λ t w₂ l₂ q₂. rw l₂ h

  begin-Safe :
      (j : Journal) (key : String) (p : Plan) (w v : World Journal Command H)
      → IsHistory v.log
      → w.log ≡ v.log
      → file_of (disk v.log) ≡ j
      → Safe (begin env j key p w)
  unfolding begin look draw store
  begin-Safe j key p w v h l e =
      let log = v.log in
      quiet IsDue log _ _ w h l (log-guard _ _ w) λ u w₁ l₁ q₁.
        quiet IsDue log _ _ w₁ h l₁ (log-check env p w₁) λ u' w₂ l₂ q₂.
          quiet IsDue log _ _ w₂ h l₂ refl λ found w₃ l₃ q₃.
            quiet IsDue log _ _ w₃ h l₃ (log-or_raise found _ w₃) λ snapshot w₄ l₄ q₄.
              quiet IsDue log _ _ w₄ h l₄ (log-guard _ _ w₄) λ u'' w₅ l₅ q₅.
                quiet IsDue log (draw env) _ w₅ h l₅ refl λ drawn w₆ l₆ q₆.
                  quiet IsDue log _ _ w₆ h l₆ (log-or_raise drawn _ w₆) λ id w₇ l₇ q₇.
                    quiet IsDue log _ _ w₇ h l₇ refl λ now w₈ l₈ q₈.
                      let free : not (is_active j.transaction) ≡ true = guard-ok _ _ u w q₁ in
                      let c =
                        Change.begins (new_transaction id now p) (rw e (ground (arith, free))) refl
                          refl in
                      saves IsDue log _ _ _ w₈ h c l₈ (λ w₉ l₉. rw l₉ (c, h))

  prepare-Safe :
      (key : String) (p : Plan) (w : World Journal Command H)
      → IsHistory w.log
      → Safe (prepare env key p w)
  unfolding prepare
  prepare-Safe key p w h = quiet IsDue w.log _ _ w h refl (log-guard _ _ w) λ u w₁ l₁ q₁.
      loads w₁ _ (rw l₁ h) λ j w₂ l₂ e c.
        either-Safe IsDue (str_eq j.request_key key) (replay env j p) (begin env j key p) w₂
          (λ q. replay-Safe j p w₂ (rw (l₂, l₁) h)) (λ q. begin-Safe j key p w₂ w₁ (rw l₁ h) l₂ e)

  status-Safe : (w : World Journal Command H) → IsHistory w.log → Safe (status env w)
  unfolding status
  status-Safe w h = loads w _ h λ j w₁ l₁ e c. rw l₁ h

-- Between two calls the world may change in every way, but for what has happened. A process that
-- is killed leaves the log at any event, so a world whose log is a tail may also come next.
pub data Reach {H : Type 0} (env : Env H) : World Journal Command H → Type 0 where
  fresh : (w : World Journal Command H) → w.log ≡ [] → Reach env w
  prepares :
      {w : World Journal Command H} (key : String) (p : Plan)
      → Reach env w
      → Reach env (prepare env key p w).0
  validates :
      {w : World Journal Command H} (id : String) → Reach env w → Reach env (validate env id w).0
  applies :
      {w : World Journal Command H} (id : String) (timeout : ℕ)
      → Reach env w
      → Reach env (apply env id timeout w).0
  confirms :
      {w : World Journal Command H} (id : String) → Reach env w → Reach env (confirm env id w).0
  rolls_back :
      {w : World Journal Command H} (id : String)
      → Reach env w
      → Reach env (rollback_named env id w).0
  recovers : {w : World Journal Command H} → Reach env w → Reach env (recover env w).0
  reports : {w : World Journal Command H} → Reach env w → Reach env (status env w).0
  outside :
      {w : World Journal Command H} (w' : World Journal Command H)
      → w'.log ≡ w.log
      → Reach env w
      → Reach env w'
  killed :
      {w : World Journal Command H} (w' : World Journal Command H)
      → (lost : List (Event Journal Command)) → w.log ≡ lost ++ w'.log
      → Reach env w
      → Reach env w'

-- Only a clean journal is written for a transaction that is settled.
Change-IsClean :
    (o : Option Journal) (new : Journal) (t : Transaction)
    → Change o new
    → new.transaction ≡ some t
    → IsClean new t
Change-IsClean o new t (Change.begins t' free is s) e =
    let q : t' ≡ t = ground (arith, is, e) in
    λ c. elim c [
      | inl x ↦ absurd (ground (arith, ap (λ y. y.state) q, s, x))
      | inr x ↦ absurd (ground (arith, ap (λ y. y.state) q, s, x))
    ]
Change-IsClean o new t (Change.moves file d t' disk was is edge same_id request clean) e =
    let q : t' ≡ t = ground (arith, is, e) in subst (IsClean new) q clean

IsHistory-IsClean :
    (log : List (Event Journal Command)) (j : Journal) (t : Transaction)
    → IsHistory log
    → disk log ≡ some j
    → j.transaction ≡ some t
    → IsClean j t
IsHistory-IsClean [] j t h d e = absurd (ground (arith, d))
IsHistory-IsClean (wrote new ∷ log) j t h d e =
    let q : new ≡ j = ground (arith, d) in
    subst (λ x. x.transaction ≡ some t → IsClean x t) q (Change-IsClean (disk log) new t h.0) e
IsHistory-IsClean (did c ∷ log) j t h d e = IsHistory-IsClean log j t h.1 d e

module _ {H : Type 0} (env : Env H) where
  Reach-IsHistory : (w : World Journal Command H) → Reach env w → IsHistory w.log
  Reach-IsHistory _ (fresh w e) = rw e tt
  Reach-IsHistory _ (prepares {w = v} key p r) = prepare-Safe env key p v (Reach-IsHistory v r)
  Reach-IsHistory _ (validates {w = v} id r) = validate-Safe env id v (Reach-IsHistory v r)
  Reach-IsHistory _ (applies {w = v} id n r) = apply-Safe env id n v (Reach-IsHistory v r)
  Reach-IsHistory _ (confirms {w = v} id r) = confirm-Safe env id v (Reach-IsHistory v r)
  Reach-IsHistory _ (rolls_back {w = v} id r) = rollback_named-Safe env id v (Reach-IsHistory v r)
  Reach-IsHistory _ (recovers {w = v} r) = recover-Safe env v (Reach-IsHistory v r)
  Reach-IsHistory _ (reports {w = v} r) = status-Safe env v (Reach-IsHistory v r)
  Reach-IsHistory _ (outside {w = v} w e r) = rw e (Reach-IsHistory v r)
  Reach-IsHistory _ (killed {w = v} w lost e r) =
      IsOrdered-tail IsDue lost w.log (subst IsHistory e (Reach-IsHistory v r))

  -- Wherever the settings of a node were changed, in a life that starts with no journal, over every
  -- backend, watchdog and order of calls, with failed writes and a kill after any event, the journal
  -- on disk held a transaction that is applying, with this plan, and the event before was a call of
  -- `Arm` for it that reported success.
  pub settings_wait_for_watchdog :
      (w : World Journal Command H) (later earlier : List (Event Journal Command)) (p : Plan)
      → Reach env w
      → w.log ≡ later ++ did (applied_plan p) ∷ earlier
      → Holds (disk earlier) (λ j t.
        (t.state ≡ applying)
        × (t.plan ≡ p)
        × ((before : List (Event Journal Command)) × (earlier ≡ did (armed t.id) ∷ before)))
  settings_wait_for_watchdog w later earlier p r e =
      (IsOrdered-tail IsDue later (did (applied_plan p) ∷ earlier)
        (subst IsHistory e (Reach-IsHistory w r))).0

  -- In every life that starts with no journal, over every backend, watchdog and order of calls, with
  -- failed writes and a kill after any event, the journal on disk of a transaction that is confirmed
  -- or rolled back holds neither the passphrase nor the snapshot of the settings.
  pub settled_keeps_no_secrets :
      (w : World Journal Command H) (j : Journal) (t : Transaction)
      → Reach env w
      → disk w.log ≡ some j
      → j.transaction ≡ some t
      → (t.state ≡ confirmed) ⊎ (t.state ≡ rolled_back)
      → (t.plan.passphrase ≡ "") × (j.snapshot ≡ [])
  settled_keeps_no_secrets w j t r d e s = IsHistory-IsClean w.log j t (Reach-IsHistory w r) d e s
