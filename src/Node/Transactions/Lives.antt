-- ===== src/Node/Transactions/Lives.antt =====
-- Whole lives of a node's transaction (internal/node/transaction.go): requests, watchdog runs, faults.
use route_harbor.Prelude.{
  ℕ, ◌≡◌, refl, ap, subst, ◌∙◌, true, false, not, ◌||◌, Option, none, some, String, arith, inl, inr,
  Bool-cases, Option-cases,
}
use route_harbor.Effects.{disk, World, ok, ◌>>=◌, ◌>>◌, pure, look, or_raise}
use route_harbor.Effects.Rules.{either-Safe, follow, quiet}
use route_harbor.Coverage.{
  State, prepared, applying, applied, confirmed, rolling_back, rolled_back, failed, unknown,
  finalized,
}
use route_harbor.Coverage.Journal.{active_state}
use route_harbor.Coverage.Calls.{is_state}
use route_harbor.Node.Transactions.{
  Transaction, Journal, Command, Env, Failure, Step, load, check_journal, check_transaction,
  file_of,
}
use route_harbor.Node.Transactions.Manager.{
  validate, apply, apply_prepared, confirm, confirm_applied, rollback_named, rollback_open,
  rollback, recover, recover_found, recover_open, named, public, with_transaction, is_overdue,
}
use route_harbor.Node.Transactions.History.{Edge, IsDue, IsHistory}
use route_harbor.Node.Transactions.Kept.{Ready, Safe}
use route_harbor.Node.Transactions.Quiet.{goes_on, log-guard, log-or_raise, or_raise-ok, log-check}
use route_harbor.Node.Transactions.Moved.{
  rollback-Safe, apply_prepared-Safe, confirm_applied-Safe, rollback_open-Safe,
}

named-some :
    (id : String) (o : Option Transaction) (t : Transaction) → named id o ≡ some t → o ≡ some t
named-some id none t h = cc
named-some id (some x) t h = ground (arith, h)

-- A transaction stands only in a journal that was written.
found_on_disk :
    (o : Option Journal) (j : Journal) (t : Transaction)
    → file_of o ≡ j
    → j.transaction ≡ some t
    → o ≡ some (with_transaction j t)
found_on_disk none j t e f = absurd (ground (arith, e, f))
found_on_disk (some x) j t e f = ap some (e ∙ same)
  where
    same : j ≡ with_transaction j t
    same = ap (λ o. record j { transaction = o }) f

module _ {H : Type 0} where
  load-ok :
      (w : World Journal Command H) (j : Journal)
      → (load w).1 ≡ ok j
      → (file_of (disk w.log) ≡ j) × (check_journal j ≡ none)
  unfolding load
  load-ok w j h = elim (Bool-cases w.readable) [
    | inl q ↦ elim (Option-cases (check_journal (file_of (disk w.log)))) [
      | inl p ↦
          let e : file_of (disk w.log) ≡ j = ground (arith, q, p, h) in
          (e, subst (λ x. check_journal x ≡ none) e p)
      | inr (x, p) ↦ absurd (ground (arith, q, p, h))
    ]
    | inr q ↦ absurd (ground (arith, q, h))
  ]

  log-load : (w : World Journal Command H) → (load w).0.log ≡ w.log
  unfolding load
  log-load w = ground arith

  -- A journal whose transaction was found is the one on disk.
  Ready-found :
      (w w' : World Journal Command H) (j : Journal) (t : Transaction)
      → IsHistory w.log
      → w'.log ≡ w.log
      → file_of (disk w.log) ≡ j
      → j.transaction ≡ some t
      → Ready w' j t
  Ready-found w w' j t h l e f = record {
    ordered = rw l h;
    on_disk = rw l (found_on_disk (disk w.log) j t e f);
  }

module _ {H A : Type 0} where
  pub loads :
      (w : World Journal Command H) (f : Journal → Step H A)
      → IsHistory w.log
      → ((j : Journal) (w' : World Journal Command H)
          → w'.log ≡ w.log
          → file_of (disk w.log) ≡ j
          → check_journal j ≡ none
          → Safe (f j w'))
      → Safe ((load >>= f) w)
  loads w f h k =
      quiet IsDue w.log load f w h refl (log-load w)
        λ j w' l q. k j w' l (load-ok w j q).0 (load-ok w j q).1

  -- The methods that are about a transaction by its name.
  finds :
      (w : World Journal Command H) (id : String) (x : Failure)
      (f : Journal → Transaction → Step H A)
      → IsHistory w.log
      → ((j : Journal) (t : Transaction) (w' : World Journal Command H)
          → Ready w' j t
          → check_transaction j t ≡ none
          → Safe (f j t w'))
      → Safe ((load >>= λ j. or_raise (named id j.transaction) x >>= f j) w)
  unfolding check_journal
  finds w id x f h k = loads w _ h λ j w₁ l₁ e c.
      quiet IsDue w.log (or_raise (named id j.transaction) x) (f j) w₁ h l₁
        (log-or_raise (named id j.transaction) x w₁)
        λ t w₂ l₂ q.
          let is : j.transaction ≡ some t =
            named-some id j.transaction t (or_raise-ok _ x t w₁ q) in
          k j t w₂ (Ready-found w w₂ j t h l₂ e is) (ground (arith, is, c))

-- A transaction that is under way.
under_way-Edge :
    (j : Journal) (t : Transaction)
    → check_transaction j t ≡ none
    → is_state t.state prepared ≡ false
    → is_state t.state rolled_back ≡ false
    → is_state t.state confirmed ≡ false
    → is_state t.state failed ≡ false
    → Edge t.state rolling_back
unfolding check_transaction
under_way-Edge j t c p r q f = by_state t.state refl
  where
    by_state : (s : State) → t.state ≡ s → Edge s rolling_back
    by_state applying e = Edge.undo_applying
    by_state applied e = Edge.undo_applied
    by_state rolling_back e = Edge.retry
    by_state prepared e = absurd (ground (arith, e, p))
    by_state rolled_back e = absurd (ground (arith, e, r))
    by_state confirmed e = absurd (ground (arith, e, q))
    by_state failed e = absurd (ground (arith, e, f))
    by_state finalized e = absurd (ground (arith, e, c))
    by_state unknown e = absurd (ground (arith, e, c))

module _ {H : Type 0} (env : Env H) where
  pub apply-Safe :
      (id : String) (timeout : ℕ) (w : World Journal Command H)
      → IsHistory w.log
      → Safe (apply env id timeout w)
  unfolding apply
  apply-Safe id timeout w h = quiet IsDue w.log _ _ w h refl (log-guard _ _ w) λ u w₁ l₁ q₁.
      finds w₁ id _ _ (rw l₁ h) λ j t w₂ r c.
        either-Safe IsDue (is_state t.state applied || is_state t.state confirmed) (pure (public t))
          (apply_prepared env j t timeout) w₂ (λ q. r.ordered)
          (λ q. apply_prepared-Safe env w₂ j t timeout r)

  pub validate-Safe :
      (id : String) (w : World Journal Command H) → IsHistory w.log → Safe (validate env id w)
  unfolding validate
  validate-Safe id w h =
      finds w id _ _ h
        λ j t w₁ r c. goes_on _ _ w₁ j t r (log-check env t.plan w₁) λ u w₂ r₂ l₂ q₂. r₂.ordered

  pub confirm-Safe :
      (id : String) (w : World Journal Command H) → IsHistory w.log → Safe (confirm env id w)
  unfolding confirm
  confirm-Safe id w h = finds w id _ _ h λ j t w₁ r c.
      either-Safe IsDue (is_state t.state confirmed) (pure (public t)) (confirm_applied env j t) w₁
        (λ q. r.ordered) (λ q. confirm_applied-Safe env w₁ j t r)

  pub rollback_named-Safe :
      (id : String) (w : World Journal Command H) → IsHistory w.log → Safe (rollback_named env id w)
  unfolding rollback_named
  rollback_named-Safe id w h = finds w id _ _ h λ j t w₁ r c.
      either-Safe IsDue (is_state t.state rolled_back) (pure (public t)) (rollback_open env j t) w₁
        (λ q. r.ordered)
        (λ q.
          rollback_open-Safe env w₁ j t r
            (λ p n. under_way-Edge j t c p q (ground (arith, n)) (ground (arith, n))))

  recover_found-Safe :
      (o : Option Transaction) (j : Journal) (w w' : World Journal Command H)
      → IsHistory w.log
      → w'.log ≡ w.log
      → file_of (disk w.log) ≡ j
      → check_journal j ≡ none
      → j.transaction ≡ o
      → Safe (recover_found env j o w')
  unfolding recover_open look check_journal
  recover_found-Safe none j w w' h l e c f = rw l h
  recover_found-Safe (some t) j w w' h l e c f =
      let r = Ready-found w w' j t h l e f in
      let idle = not (active_state t.state) || is_state t.state prepared in
      either-Safe IsDue idle (pure true) (recover_open env j t) w' (λ q. r.ordered)
        λ q. goes_on _ _ w' j t r refl λ now w₁ r₁ l₁ q₁.
          either-Safe IsDue (is_overdue env now t) (rollback env j t >> pure true) (pure false) w₁
            (λ p.
              follow IsDue (rollback env j t) _ w₁
                (rollback-Safe env w₁ j t t r₁
                  (under_way-Edge j t (ground (arith, f, c)) (ground (arith, q)) (ground (arith, q))
                    (ground (arith, q)) (ground (arith, q)))
                  refl)
                (λ a w₂ h₂. h₂))
            (λ p. r₁.ordered)

  pub recover-Safe : (w : World Journal Command H) → IsHistory w.log → Safe (recover env w)
  unfolding recover
  recover-Safe w h =
      loads w _ h λ j w₁ l₁ e c. recover_found-Safe j.transaction j w w₁ h l₁ e c refl
