-- ===== src/Coverage/Outcomes.antt =====
-- What the methods of transaction.go return, and what they leave behind.
use text.Mathlib.Text.{◌==◌ as str_eq}
use text.Mathlib.TextEquality.{eq_iff}
use route_harbor.Prelude.{
  ◌≤◌, ◌≡◌, ◌⊎◌, refl, subst, sym, ap, ◌∙◌, true, false, List, [], Option, none, some, String, ℕ,
  arith, inl, inr, ◌==◌, Bool-cases, Option-cases,
}
use route_harbor.Coverage.{
  Plan, Transaction, applying, applied, rolled_back, expired, Error, unavailable, key_required,
  busy, conflict, invalid_journal, validate_plan, is_request_key,
}
use route_harbor.Coverage.Journal.{
  Journal, Snapshot, WirelessSnapshot, check_journal, check_transaction, reject, holds_material,
  occupied,
}
use route_harbor.Coverage.World.{
  World, Env, Result, ok, err, continue, pure, raise, ◌>>=◌, or_raise, guard, refuse, save, disk,
  load, clock,
}
use route_harbor.Coverage.Manager.{
  recover, recover_found, recover_transaction, recover_due, recover_late, rollback,
  rollback_success, prepare, begin, replay, confirm, confirm_applied, confirm_late,
}
use route_harbor.Coverage.Calls.{do_restore}
use route_harbor.Coverage.Undoing.{
  accepted_of, IsLoaded, load-IsLoaded, IsOwed, IsUndone, Outcome, rollback-Outcome,
}

deadline-set :
    (decode : List ℕ → Option WirelessSnapshot) (j : Journal) (t : Transaction)
    → check_transaction decode j t ≡ none
    → (t.state ≡ applying) ⊎ (t.state ≡ applied)
    → (t.deadline == 0) ≡ false
unfolding check_transaction reject
deadline-set decode j t h s = ground (arith, h, s)

module _ {H : Type 0} (env : Env H) where
  -- A rollback, and an answer that adds nothing to it.
  then_pure :
      (r : World H × Result Transaction) (id : String) (s : Snapshot)
      → Outcome env r id s
      → Outcome env (continue r.1 (λ t. pure true) r.0) id s
  then_pure (v, ok t) id s o = (o.0, λ a e. o.1 t refl)
  then_pure (v, err x) id s o = (o.0, λ a e. cc)

  refused :
      (r : World H × Result Transaction) (id : String) (s : Snapshot)
      → Outcome env r id s
      → let q = continue r.1 (λ t. raise {A = Transaction} expired) r.0 in
        (IsUndone env q.0 id ⊎ IsOwed env q.0 id s) × ((x : Error) × (q.1 ≡ err x))
  refused (v, ok t) id s o = (o.0, (expired, refl))
  refused (v, err x) id s o = (o.0, (x, refl))

  owed-material :
      (w : World H) (id : String) (s : Snapshot) (o : IsOwed env w id s)
      → holds_material o.transaction.state ≡ true
  owed-material w id s o = ground (arith, o.due)

  owed-Outcome :
      (w : World H) (id : String) (s : Snapshot) (o : IsOwed env w id s)
      → Outcome env (rollback env o.journal o.transaction w) id s
  owed-Outcome w id s o =
      let here : IsOwed env w o.transaction.id o.journal.snapshot =
        subst (λ i. IsOwed env w i o.journal.snapshot) (sym o.named)
          (subst (λ x. IsOwed env w id x) (sym o.snapshot) o) in
      let a = accepted_of env.decode o.journal o.transaction o.loaded.accepted o.is in
      let it =
        rollback-Outcome env w o.journal o.transaction here o.loaded.readable a
          (owed-material w id s o) in
      subst (λ i. Outcome env (rollback env o.journal o.transaction w) i s) o.named
        (subst (λ x. Outcome env (rollback env o.journal o.transaction w) o.transaction.id x)
          o.snapshot it)

  recover_lem :
      (w : World H) (id : String) (s : Snapshot) (o : IsOwed env w id s)
      → recover env w ≡ recover_late env o.journal o.transaction w
  unfolding recover recover_found recover_transaction recover_due ◌>>=◌ clock
  recover_lem w id s o =
      let a = accepted_of env.decode o.journal o.transaction o.loaded.accepted o.is in
      elim o.due [
        | inl r ↦ ground (arith, load-IsLoaded env w o.journal o.loaded, o.is, r)
        | inr r ↦ ground (
          arith,
          load-IsLoaded env w o.journal o.loaded,
          o.is,
          r.0,
          r.1,
          deadline-set env.decode o.journal o.transaction a r.0,
        )
      ]

  -- Storage that works and a radio that can be restored.
  pub record IsWorking (w : World H) (s : Snapshot) : Type 0 where
    pub writes : w.writes ≡ []
    pub restores : (env.restore w.hw s).1 ≡ false

  rollback-working :
      (w : World H) (j : Journal) (t : Transaction)
      → IsWorking w j.snapshot
      → let r = rollback env j t w in
        ((a : Transaction) × (r.1 ≡ ok a)) × (r.0.hw ≡ (env.restore w.hw j.snapshot).0)
  unfolding rollback ◌>>=◌ save do_restore rollback_success
  rollback-working w j t k = (
    (record t { state = rolled_back; deadline = 0 }, ground (arith, k.writes, k.restores)),
    ground (arith, k.writes, k.restores),
  )

  recovered :
      (r : World H × Result Transaction) (id : String) (s : Snapshot)
      → Outcome env r id s
      → let q = continue r.1 (λ t. pure true) r.0 in
        ((q.1 ≡ ok true) × IsUndone env q.0 id)
        ⊎ (((x : Error) × (q.1 ≡ err x)) × (IsUndone env q.0 id ⊎ IsOwed env q.0 id s))
  recovered (v, ok t) id s o = inl (refl, o.1 t refl)
  recovered (v, err x) id s o = inr ((x, refl), o.0)

  -- `Recover`, when a rollback is owed: the transaction is rolling back, or its deadline is reached
  -- while it is applying or applied. However storage and the radio answer, either it reports success
  -- and the journal on disk holds the transaction as rolled back, with no deadline, no private Wi-Fi
  -- and no snapshot; or it reports an error, and the journal holds that or still owes the rollback
  -- with the same snapshot.
  pub recover_overdue :
      (w : World H) (id : String) (s : Snapshot)
      → IsOwed env w id s
      → let r = recover env w in
        ((r.1 ≡ ok true) × IsUndone env r.0 id)
        ⊎ (((x : Error) × (r.1 ≡ err x)) × (IsUndone env r.0 id ⊎ IsOwed env r.0 id s))
  unfolding recover_late ◌>>=◌
  recover_overdue w id s o =
      rw (recover_lem w id s o)
        (recovered (rollback env o.journal o.transaction w) id s (owed-Outcome w id s o))

  -- Watchdog runs, and between them any change outside while time goes on.
  pub data Tries : World H → World H → Type 0 where
    start : (w : World H) → Tries w w
    run : {w v : World H} → Tries w v → Tries w (recover env v).0
    outside :
        {w v : World H} (u : World H)
        → u.log ≡ v.log
        → u.readable ≡ v.readable
        → v.now ≤ u.now
        → Tries w v
        → Tries w u

  undone-recover : (w : World H) (id : String) → IsUndone env w id → (recover env w).0 ≡ w
  unfolding recover recover_found recover_transaction recover_due ◌>>=◌ clock load
  undone-recover w id u = ground (arith, u.on_disk, u.is, u.state)

  IsUndone-same :
      (w v : World H) (id : String) → IsUndone env w id → v.log ≡ w.log → IsUndone env v id
  IsUndone-same w v id u e = record {
    journal = u.journal;
    transaction = u.transaction;
    on_disk = ap disk e ∙ u.on_disk;
    is = u.is;
    named = u.named;
    state = u.state;
    no_deadline = u.no_deadline;
    no_wifi = u.no_wifi;
    no_snapshot = u.no_snapshot;
  }

  IsOwed-later :
      (w v : World H) (id : String) (s : Snapshot)
      → IsOwed env w id s
      → v.log ≡ w.log
      → v.readable ≡ w.readable
      → w.now ≤ v.now
      → IsOwed env v id s
  IsOwed-later w v id s o l q n = record {
    journal = o.journal;
    transaction = o.transaction;
    loaded = record {
      readable = q ∙ o.loaded.readable;
      on_disk = ap disk l ∙ o.loaded.on_disk;
      accepted = o.loaded.accepted;
    };
    is = o.is;
    named = o.named;
    snapshot = o.snapshot;
    due = elim o.due [ inl r ↦ inl r | inr r ↦ inr (r.0, omega (arith, r.1, n)) ];
  }

  Tries-kept :
      (w v : World H) (id : String) (s : Snapshot)
      → IsOwed env w id s
      → Tries w v
      → IsUndone env v id ⊎ IsOwed env v id s
  Tries-kept w _ id s o (start _) = inr o
  Tries-kept w _ id s o (run {v = v} t) = elim (Tries-kept w v id s o t) [
    | inl u ↦ inl (rw (undone-recover v id u) u)
    | inr d ↦ elim (recover_overdue v id s d) [ inl r ↦ inl r.1 | inr r ↦ r.1 ]
  ]
  Tries-kept w _ id s o (outside {v = v} u l q n t) = elim (Tries-kept w v id s o t) [
    | inl x ↦ inl (IsUndone-same v u id x l)
    | inr d ↦ inr (IsOwed-later v u id s d l q n)
  ]

  restored_by :
      (r : World H × Result Transaction) (h : H) (id : String) (s : Snapshot)
      → Outcome env r id s
      → ((a : Transaction) × (r.1 ≡ ok a)) × (r.0.hw ≡ h)
      → let q = continue r.1 (λ t. pure true) r.0 in
        (q.1 ≡ ok true) × IsUndone env q.0 id × (q.0.hw ≡ h)
  restored_by (v, ok t) h id s o k = (refl, o.1 t refl, k.1)
  restored_by (v, err x) h id s o k = cc

  working-recover :
      (w : World H) (id : String) (s : Snapshot)
      → IsOwed env w id s
      → IsWorking w s
      → let r = recover env w in
        (r.1 ≡ ok true) × IsUndone env r.0 id × (r.0.hw ≡ (env.restore w.hw s).0)
  unfolding recover_late ◌>>=◌
  working-recover w id s o k =
      let here : IsWorking w o.journal.snapshot = subst (λ x. IsWorking w x) (sym o.snapshot) k in
      let it = rollback-working w o.journal o.transaction here in
      let hw = it.1 ∙ ap (λ x. (env.restore w.hw x).0) o.snapshot in
      rw (recover_lem w id s o) (
        restored_by (rollback env o.journal o.transaction w) (env.restore w.hw s).0 id s
          (owed-Outcome w id s o) (it.0, hw))

  -- Once a rollback is owed, watchdog runs lead to it: after any runs, whatever failed in them and
  -- whatever changed outside meanwhile, with the journal left alone and readable, a run that meets
  -- working storage and a radio that can be restored leaves the transaction rolled back on disk,
  -- with no deadline, no private Wi-Fi and no snapshot; and if it was still owed then, that run
  -- succeeds and the radio is the one that restoring the recorded snapshot gives.
  pub recover_ends :
      (w v : World H) (id : String) (s : Snapshot)
      → IsOwed env w id s
      → Tries w v
      → IsWorking v s
      → let r = recover env v in
        IsUndone env r.0 id
        × (IsUndone env v id ⊎ ((r.1 ≡ ok true) × (r.0.hw ≡ (env.restore v.hw s).0)))
  recover_ends w v id s o t k = elim (Tries-kept w v id s o t) [
    | inl u ↦ (rw (undone-recover v id u) u, inl u)
    | inr d ↦ let c = working-recover v id s d k in (c.1, inr (c.0, c.2))
  ]

  confirm_lem :
      (w : World H) (j : Journal) (t : Transaction)
      → IsLoaded env w j
      → j.transaction ≡ some t
      → t.state ≡ applied
      → t.deadline ≤ w.now
      → confirm env t.id w ≡ confirm_late env j t w
  unfolding confirm confirm_applied ◌>>=◌ clock or_raise guard
  confirm_lem w j t h p s late = ground (arith, load-IsLoaded env w j h, (eq_iff t.id t.id).1 refl)

  -- `Confirm` of an applied transaction at or after its deadline is refused, however storage and the
  -- radio answer, and never confirms: the journal on disk then holds the transaction as rolled back,
  -- with no deadline, no private Wi-Fi and no snapshot, or still owes the rollback with its snapshot.
  pub confirm_overdue :
      (w : World H) (j : Journal) (t : Transaction)
      → IsLoaded env w j
      → j.transaction ≡ some t
      → t.state ≡ applied
      → t.deadline ≤ w.now
      → let r = confirm env t.id w in
        (IsUndone env r.0 t.id ⊎ IsOwed env r.0 t.id j.snapshot) × ((x : Error) × (r.1 ≡ err x))
  unfolding confirm_late ◌>>=◌
  confirm_overdue w j t h p s late =
      let o : IsOwed env w t.id j.snapshot = record {
        journal = j;
        transaction = t;
        loaded = h;
        is = p;
        named = refl;
        snapshot = refl;
        due = inr (inr s, late);
      } in
      rw (confirm_lem w j t h p s late)
        (refused (rollback env j t w) t.id j.snapshot (owed-Outcome w t.id j.snapshot o))

  loads_same :
      (w : World H) (j : Journal)
      → disk w.log ≡ some j
      → (load env w ≡ (w, ok j)) ⊎ ((x : Error) × (load env w ≡ (w, err x)))
  unfolding load
  loads_same w j d = elim (Bool-cases w.readable) [
    | inl q ↦ elim (Option-cases (check_journal env.decode j)) [
      | inl c ↦ inl (ground (arith, d, q, c))
      | inr (x, c) ↦ inr (x, ground (arith, d, q, c))
    ]
    | inr q ↦ inr (unavailable, ground (arith, d, q))
  ]

  -- While the journal on disk holds a transaction that is open or confirmed, no request to prepare
  -- changes anything, whatever its key and plan and whether or not the journal can be read: it is
  -- refused, or it is answered with that transaction, when it has its key and the digest of its plan.
  pub prepare_busy :
      (key : String) (p : Plan) (w : World H) (j : Journal)
      → disk w.log ≡ some j
      → occupied j.transaction ≡ true
      → let r = prepare env key p w in
        (r.0 ≡ w)
        × (((x : Error) × (r.1 ≡ err x))
            ⊎ ((t : Transaction) × (r.1 ≡ ok t)
                × (j.transaction ≡ some t)
                × (j.request_key ≡ key)
                × (j.request_hash ≡ env.digest p)))
  unfolding prepare begin replay ◌>>=◌ refuse guard or_raise
  prepare_busy key p w j d o = elim (Option-cases (validate_plan p)) [
    | inr (x, v) ↦ rw v (refl, inl (x, refl))
    | inl v ↦ elim (Bool-cases (is_request_key key)) [
      | inr k ↦ rw (v, k) (refl, inl (key_required, refl))
      | inl k ↦ elim (loads_same w j d) [
        | inr (x, l) ↦ rw (v, k, l) (refl, inl (x, refl))
        | inl l ↦ elim (Bool-cases (str_eq j.request_key key)) [
          | inr n ↦ rw (v, k, l, n, o) (refl, inl (busy, refl))
          | inl n ↦ elim (Bool-cases (str_eq j.request_hash (env.digest p))) [
            | inr m ↦ rw (v, k, l, n, m) (refl, inl (conflict, refl))
            | inl m ↦ elim (Option-cases j.transaction) [
              | inl q ↦ rw (v, k, l, n, m, q) (refl, inl (invalid_journal, refl))
              | inr (t, q) ↦
                  rw (v, k, l, n, m, q)
                    (
                      refl,
                      inr (
                        t,
                        refl,
                        refl,
                        (eq_iff j.request_key key).0 n,
                        (eq_iff j.request_hash (env.digest p)).0 m,
                      ),
                    )
            ]
          ]
        ]
      ]
    ]
  ]
