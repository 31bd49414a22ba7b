-- ===== src/Coverage/Undoing.antt =====
-- What `rollback` of transaction.go leaves behind, however storage and the radio answer.
use route_harbor.Prelude.{
  ℕ, ◌≤◌, ◌≡◌, ◌≢◌, ◌⊎◌, refl, ap, subst, ◌∙◌, true, false, List, [], ◌∷◌, Option, none, some,
  String, arith, Bool, inl, inr, if◌then◌else◌,
}
use route_harbor.Coverage.{
  Transaction, applying, applied, rolling_back, rolled_back, Error, storage_failed,
}
use route_harbor.Coverage.Journal.{
  Snapshot, Journal, WirelessSnapshot, check_journal, check_transaction, reject, holds_material,
}
use route_harbor.Coverage.World.{
  World, Env, Write, done, lost_before, lost_after, Result, ok, err, ◌>>=◌, save, write_file, disk,
  load,
}
use route_harbor.Coverage.Manager.{rollback, rollback_success, rollback_failure}
use route_harbor.Coverage.Calls.{with_transaction, without_material, answer_of, do_restore}

pub accepted_of :
    (decode : List ℕ → Option WirelessSnapshot) (j : Journal) (t : Transaction)
    → check_journal decode j ≡ none
    → j.transaction ≡ some t
    → check_transaction decode j t ≡ none
unfolding check_journal
accepted_of decode j t h e = ground (arith, h, e)

-- The material of an open transaction serves its rollback too.
rolling-accepted :
    (decode : List ℕ → Option WirelessSnapshot) (j : Journal) (t : Transaction) (code : String)
    → check_transaction decode j t ≡ none
    → holds_material t.state ≡ true
    → check_transaction decode j (record t { state = rolling_back; error_code = code }) ≡ none
unfolding check_transaction reject
rolling-accepted decode j t code h m = ground (arith, h, m)

module _ {H : Type 0} (env : Env H) where
  -- A journal that can be read and passes the checks.
  pub record IsLoaded (w : World H) (j : Journal) : Type 0 where
    pub readable : w.readable ≡ true
    pub on_disk : disk w.log ≡ some j
    pub accepted : check_journal env.decode j ≡ none

  pub load-IsLoaded : (w : World H) (j : Journal) → IsLoaded w j → load env w ≡ (w, ok j)
  unfolding load
  load-IsLoaded w j h = ground arith

  -- The journal on disk holds a transaction that has to be undone with this snapshot: it is rolling
  -- back, or applying or applied with its deadline reached.
  pub record IsOwed (w : World H) (id : String) (s : Snapshot) : Type 0 where
    pub journal : Journal
    pub transaction : Transaction
    pub loaded : IsLoaded w journal
    pub is : journal.transaction ≡ some transaction
    pub named : transaction.id ≡ id
    pub snapshot : journal.snapshot ≡ s
    pub due :
        (transaction.state ≡ rolling_back)
        ⊎ (((transaction.state ≡ applying) ⊎ (transaction.state ≡ applied))
            × (transaction.deadline ≤ w.now))

  -- The journal on disk holds the transaction as rolled back, with no deadline and no secrets.
  pub record IsUndone (w : World H) (id : String) : Type 0 where
    pub journal : Journal
    pub transaction : Transaction
    pub on_disk : disk w.log ≡ some journal
    pub is : journal.transaction ≡ some transaction
    pub named : transaction.id ≡ id
    pub state : transaction.state ≡ rolled_back
    pub no_deadline : transaction.deadline ≡ 0
    pub no_wifi : journal.private_wifi ≡ none
    pub no_snapshot : journal.snapshot ≡ []

  -- A transaction in memory that is rolling back, with a journal that would be accepted.
  record IsRolling (j : Journal) (t : Transaction) : Type 0 where
    state : t.state ≡ rolling_back
    accepted : check_transaction env.decode j t ≡ none

  owed :
      (w : World H) (j : Journal) (t : Transaction)
      → IsRolling j t
      → w.readable ≡ true
      → disk w.log ≡ some (with_transaction j t)
      → IsOwed w t.id j.snapshot
  unfolding check_journal check_transaction
  owed w j t r q d = record {
    journal = with_transaction j t;
    transaction = t;
    loaded = record { readable = q; on_disk = d; accepted = r.accepted };
    is = refl;
    named = refl;
    snapshot = refl;
    due = inl r.state;
  }

  -- A save that failed before or after the file was replaced, or succeeded.
  record IsSaved (j : Journal) (w : World H) (r : World H × Result (Unit {0})) : Type 0 where
    readable : r.0.readable ≡ w.readable
    now : r.0.now ≡ w.now
    hw : r.0.hw ≡ w.hw
    ends :
        ((r.1 ≡ ok tt) × (disk r.0.log ≡ some j))
        ⊎ ((r.1 ≡ err storage_failed) × ((disk r.0.log ≡ some j) ⊎ (r.0.log ≡ w.log)))

  written-IsSaved : (ws : List Write) (j : Journal) (w : World H) → IsSaved j w (write_file ws j w)
  written-IsSaved [] j w = record {
    readable = refl;
    now = refl;
    hw = refl;
    ends = inl (refl, refl);
  }
  written-IsSaved (done ∷ ws) j w = record {
    readable = refl;
    now = refl;
    hw = refl;
    ends = inl (refl, refl);
  }
  written-IsSaved (lost_before ∷ ws) j w = record {
    readable = refl;
    now = refl;
    hw = refl;
    ends = inr (refl, inr refl);
  }
  written-IsSaved (lost_after ∷ ws) j w = record {
    readable = refl;
    now = refl;
    hw = refl;
    ends = inr (refl, inl refl);
  }

  save-IsSaved : (j : Journal) (w : World H) → IsSaved j w (save j w)
  unfolding save
  save-IsSaved j w = written-IsSaved w.writes j w

  module _ {A : Type 0} where
    -- The rollback is on record or still owed, and on record if there was no error.
    abbrev pub Outcome : World H × Result A → String → Snapshot → Type 0
    Outcome r id s = (IsUndone r.0 id ⊎ IsOwed r.0 id s) × ((a : A) → r.1 ≡ ok a → IsUndone r.0 id)

  IsSaved-IsOwed :
      (w : World H) (r : World H × Result (Unit {0})) (j k : Journal) (t u : Transaction)
      → IsRolling j t
      → k ≡ with_transaction j u
      → IsRolling j u
      → u.id ≡ t.id
      → w.readable ≡ true
      → disk w.log ≡ some (with_transaction j t)
      → IsSaved k w r
      → IsOwed r.0 t.id j.snapshot
  IsSaved-IsOwed w r j k t u p e q i readable d s =
      let ok_now : r.0.readable ≡ true = s.readable ∙ readable in
      let new : (disk r.0.log ≡ some k) → IsOwed r.0 t.id j.snapshot =
        λ f. subst (λ n. IsOwed r.0 n j.snapshot) i (owed r.0 j u q ok_now (f ∙ ap some e)) in
      elim s.ends [
        | inl c ↦ new c.1
        | inr c ↦ elim c.1 [ inl f ↦ new f | inr l ↦ owed r.0 j t p ok_now (ap disk l ∙ d) ]
      ]

  -- Nothing was written, and the rest is as it was.
  IsOwed-same :
      (w v : World H) (id : String) (s : Snapshot)
      → IsOwed w id s
      → v.log ≡ w.log
      → v.readable ≡ w.readable
      → v.now ≡ w.now
      → IsOwed v id s
  IsOwed-same w v id s o l q n = record {
    journal = o.journal;
    transaction = o.transaction;
    loaded = record {
      readable = q ∙ o.loaded.readable;
      on_disk = ap disk l ∙ o.loaded.on_disk;
      accepted = o.loaded.accepted;
    };
    is = o.is;
    named = o.named;
    snapshot = o.snapshot;
    due = rw n o.due;
  }

  answer-not-ok : (r : Result (Unit {0})) (e f : Error) (t : Transaction) → answer_of r e f ≢ ok t
  answer-not-ok (ok u) e f t h = cc
  answer-not-ok (err x) e f t h = cc

  rollback_failure-Outcome :
      (w : World H) (j : Journal) (t : Transaction)
      → IsRolling j t
      → w.readable ≡ true
      → disk w.log ≡ some (with_transaction j t)
      → Outcome (rollback_failure env j t w) t.id j.snapshot
  unfolding rollback_failure check_transaction
  rollback_failure-Outcome w j t p q d =
      let u = record t { error_code = "rollback_failed" } in
      let k = with_transaction j u in
      (
        inr (
            IsSaved-IsOwed w (save k w) j k t u p refl
              (record { state = p.state; accepted = p.accepted }) refl q d (save-IsSaved k w)),
        λ a e. absurd (answer-not-ok _ _ _ a e),
      )

  finished :
      (w : World H) (j k : Journal) (t : Transaction)
      → k.transaction ≡ some (record t { state = rolled_back; deadline = 0 })
      → k.private_wifi ≡ none
      → k.snapshot ≡ []
      → disk w.log ≡ some k
      → IsUndone w t.id
  finished w j k t e n m d = record {
    journal = k;
    transaction = record t { state = rolled_back; deadline = 0 };
    on_disk = d;
    is = e;
    named = refl;
    state = refl;
    no_deadline = refl;
    no_wifi = n;
    no_snapshot = m;
  }

  rollback_success-Outcome :
      (w : World H) (j : Journal) (t : Transaction)
      → IsRolling j t
      → w.readable ≡ true
      → disk w.log ≡ some (with_transaction j t)
      → Outcome (rollback_success env j t w) t.id j.snapshot
  unfolding rollback_success ◌>>=◌
  rollback_success-Outcome w j t p q d =
      let k =
        without_material (with_transaction j (record t { state = rolled_back; deadline = 0 })) in
      let s = save-IsSaved k w in
      elim s.ends [
        | inl c ↦ let u = finished (save k w).0 j k t refl refl refl c.1 in rw c.0 (inl u, λ a e. u)
        | inr c ↦ rw c.0 (
          elim c.1 [
            | inl f ↦ inl (finished (save k w).0 j k t refl refl refl f)
            | inr l ↦ inr (owed (save k w).0 j t p (s.readable ∙ q) (ap disk l ∙ d))
          ],
          λ a e. cc,
        )
      ]

  restored-Outcome :
      (broken : Bool) (w : World H) (j : Journal) (t : Transaction)
      → IsRolling j t
      → w.readable ≡ true
      → disk w.log ≡ some (with_transaction j t)
      → Outcome
          ((if broken then rollback_failure env j t else rollback_success env j t) w)
          t.id
          j.snapshot
  restored-Outcome true w j t p q d = rollback_failure-Outcome w j t p q d
  restored-Outcome false w j t p q d = rollback_success-Outcome w j t p q d

  undoing-IsRolling :
      (j : Journal) (t : Transaction)
      → check_transaction env.decode j t ≡ none
      → holds_material t.state ≡ true
      → IsRolling j (record t { state = rolling_back })
  undoing-IsRolling j t c m = record {
    state = refl;
    accepted = rolling-accepted env.decode j t t.error_code c m;
  }

  -- A rollback that is owed is on record afterwards or still owed, however storage and the radio
  -- answer; an answer without an error means that it is on record.
  pub rollback-Outcome :
      (w : World H) (j : Journal) (t : Transaction)
      → IsOwed w t.id j.snapshot
      → w.readable ≡ true
      → check_transaction env.decode j t ≡ none
      → holds_material t.state ≡ true
      → Outcome (rollback env j t w) t.id j.snapshot
  unfolding rollback do_restore ◌>>=◌
  rollback-Outcome w j t o q a m =
      let t' = record t { state = rolling_back } in
      let k = with_transaction j t' in
      let p = undoing-IsRolling j t a m in
      let s = save-IsSaved k w in
      elim s.ends [
        | inl c ↦ rw c.0 (
            restored-Outcome (env.restore (save k w).0.hw j.snapshot).1 _ j t' p (s.readable ∙ q)
              c.1)
        | inr c ↦ rw c.0 (
          elim c.1 [
            | inl f ↦ inr (owed (save k w).0 j t' p (s.readable ∙ q) f)
            | inr l ↦ inr (IsOwed-same w (save k w).0 t.id j.snapshot o l s.readable s.now)
          ],
          λ a e. cc,
        )
      ]
