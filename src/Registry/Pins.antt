-- ===== src/Registry/Pins.antt =====
-- `Pair` of internal/node/service.go and the fingerprints that are on record.
use text.Mathlib.Text.{◌==◌ as str_eq}
use text.Mathlib.TextEquality.{eq_iff}
use route_harbor.Prelude.{
  ◌≡◌, ◌⊎◌, refl, sym, subst, ◌∙◌, Bool, true, false, ◌&&◌, List, [], ◌∷◌, Option, none, some,
  String, arith, Bool-cases, inl, inr,
}
use route_harbor.Effects.{
  Write, done, lost_before, lost_after, World, Result, ok, err, continue, or_raise, call, look,
  ◌>>=◌, guard, try_save,
}
use route_harbor.Coverage.{is_transaction_id}
use route_harbor.Node.{Capabilities}
use route_harbor.Coordinator.{Record}
use route_harbor.Registry.{
  Records, lookup, erase, insert, Pairing, Request, get_capabilities, Reply, Env, Machine, Command,
  Error, Step, storage_failed, validate_address, no_error, valid_fingerprint, valid_pairing,
}
use route_harbor.Registry.Entries.{lookup-erase_other}
use route_harbor.Registry.Service.{
  pair, pair_known, pair_new, introduce, ask, ask_again, reach_outside, new_record, enroll, recall,
  remember, refuse, save_or, has_pin, find_paired,
}
use route_harbor.Registry.Runs.Steps.{guard-true}

-- The record of the node is there, with this fingerprint.
pub record IsPinned (id pin : String) (rs : Records) : Type 0 where
  pub entry : Record
  pub found : lookup id rs ≡ some entry
  pub pinned : entry.fingerprint ≡ pin

module _ {H A : Type 0} where
  abbrev pub Leaves : String → String → World Records Command (Machine H) × Result Error A → Type 0
  Leaves id pin r = IsPinned id pin r.0.hw.records ⊎ (r.1 ≡ err storage_failed)

  abbrev IsSame : Step H A → Type 0
  IsSame m = (w : World Records Command (Machine H)) → (m w).0.hw.records ≡ w.hw.records

  or_raise-IsSame : (o : Option A) (x : Error) → IsSame (or_raise o x)
  unfolding or_raise
  or_raise-IsSame none x w = refl
  or_raise-IsSame (some a) x w = refl

module _ {H : Type 0} where
  guard-IsSame : (b : Bool) (x : Error) → IsSame {H = H} (guard b x)
  unfolding guard
  guard-IsSame true x w = refl
  guard-IsSame false x w = refl

  refuse-IsSame : (o : Option Error) → IsSame {H = H} (refuse o)
  refuse-IsSame none w = refl
  refuse-IsSame (some x) w = refl

  recall-IsSame : IsSame {H = H} recall
  unfolding recall
  recall-IsSame w = refl

  recalled :
      (rs : Records) (w : World Records Command (Machine H))
      → (recall w).1 ≡ ok rs
      → w.hw.records ≡ rs
  unfolding recall
  recalled rs w e = ground (arith, e)

module _ {H A B : Type 0} where
  chain-IsSame :
      (m : Step H A) (f : A → Step H B) → IsSame m → ((a : A) → IsSame (f a)) → IsSame (m >>= f)
  unfolding ◌>>=◌
  chain-IsSame m f s t w = of_result (m w).1 (m w).0 (s w)
    where
      of_result :
          (r : Result Error A) (v : World Records Command (Machine H))
          → v.hw.records ≡ w.hw.records
          → (continue r f v).0.hw.records ≡ w.hw.records
      of_result (ok a) v e = t a v ∙ e
      of_result (err x) v e = e

  -- A step that leaves the memory alone, and the rest.
  after_same :
      (id pin : String) (rs : Records) (m : Step H A) (f : A → Step H B)
      → (w : World Records Command (Machine H)) → IsPinned id pin rs
      → w.hw.records ≡ rs
      → IsSame m
      → ((a : A) (v : World Records Command (Machine H))
          → v.hw.records ≡ rs
          → (m w).1 ≡ ok a
          → Leaves id pin (f a v))
      → Leaves id pin ((m >>= f) w)
  unfolding ◌>>=◌
  after_same id pin rs m f w p e s k = of_result (m w).1 refl (m w).0 (s w ∙ e)
    where
      of_result :
          (r : Result Error A)
          → (m w).1 ≡ r
          → (v : World Records Command (Machine H)) → v.hw.records ≡ rs
          → Leaves id pin (continue r f v)
      of_result (ok a) q v e = k a v e q
      of_result (err x) q v e = inl (subst (λ t. IsPinned id pin t) (sym e) p)

module _ {H : Type 0} (env : Env H) where
  ask-IsSame : (address pin : String) (q : Request) → IsSame (ask env address pin q)
  unfolding ask call reach_outside
  ask-IsSame address pin q w =
      elim (Bool-cases (no_error env (validate_address env address) && valid_fingerprint pin)) [
        | inl t ↦ rw t refl
        | inr f ↦ rw f refl
      ]

  ask_again-IsSame : (q : Pairing) (o : Option Reply) → IsSame (ask_again env q o)
  ask_again-IsSame q none = ask-IsSame q.address q.fingerprint get_capabilities
  ask_again-IsSame q (some r) = λ w. refl

  introduce-IsSame : (q : Pairing) → IsSame (introduce env q)
  unfolding introduce
  introduce-IsSame q =
      chain-IsSame _ _ (ask-IsSame _ _ _)
        (λ o. chain-IsSame _ _ (ask_again-IsSame q o) (λ p. or_raise-IsSame p _))

module _ {H : Type 0} where
  save_or-cases :
      (ws : List Write) (rs undone : Records) (w : World Records Command (Machine H))
      → (((save_or rs undone (record w { writes = ws })).0.hw.records ≡ rs)
          × ((save_or rs undone (record w { writes = ws })).1 ≡ ok tt))
        ⊎ ((save_or rs undone (record w { writes = ws })).1 ≡ err storage_failed)
  unfolding save_or ◌>>=◌ remember try_save
  save_or-cases [] rs undone w = inl (refl, refl)
  save_or-cases (done ∷ ws) rs undone w = inl (refl, refl)
  save_or-cases (lost_before ∷ ws) rs undone w = inr refl
  save_or-cases (lost_after ∷ ws) rs undone w = inr refl

insert-IsPinned :
    (id pin key : String) (r : Record) (rs : Records)
    → IsPinned id pin rs
    → has_pin r.fingerprint (lookup key rs) ≡ true
    → IsPinned id pin (insert key r rs)
insert-IsPinned id pin key r rs p h = elim (Bool-cases (str_eq key id)) [
  | inl q ↦
      let there : lookup key rs ≡ some p.entry =
        subst (λ t. lookup t rs ≡ some p.entry) (sym ((eq_iff key id).0 q)) p.found in
      let same : str_eq p.entry.fingerprint r.fingerprint ≡ true =
        subst (λ o. has_pin r.fingerprint o ≡ true) there h in
      record {
        entry = r;
        found = rw q refl;
        pinned = sym ((eq_iff p.entry.fingerprint r.fingerprint).0 same) ∙ p.pinned;
      }
  | inr q ↦ record {
    entry = p.entry;
    found = rw q (lookup-erase_other key id rs q ∙ p.found);
    pinned = p.pinned;
  }
]

module _ {H : Type 0} (env : Env H) where
  enroll-Leaves :
      (id pin key : String) (q : Pairing) (caps : Capabilities)
      → (w : World Records Command (Machine H)) → IsPinned id pin w.hw.records
      → has_pin q.fingerprint (lookup key w.hw.records) ≡ true
      → Leaves id pin (enroll env q key caps w)
  unfolding enroll ◌>>=◌ look
  enroll-Leaves id pin key q caps w p h =
      let r = new_record env q key caps w in
      elim (save_or-cases w.writes (insert key r w.hw.records) (erase key w.hw.records) w) [
        | inl c ↦ rw c.1 (
            inl (
              subst (λ rs. IsPinned id pin rs) (sym c.0)
                (insert-IsPinned id pin key r w.hw.records p h)))
        | inr e ↦ rw e (inr refl)
      ]

  pair_new-Leaves :
      (id pin : String) (rs : Records) (q : Pairing) (w : World Records Command (Machine H))
      → IsPinned id pin rs
      → w.hw.records ≡ rs
      → Leaves id pin (pair_new env q w)
  unfolding pair_new
  pair_new-Leaves id pin rs q w p e =
      after_same id pin rs _ _ w p e (introduce-IsSame env q) (λ reply v1 e1 r1.
        after_same id pin rs _ _ v1 p e1 (or_raise-IsSame reply.id _) (λ key v2 e2 r2.
          after_same id pin rs _ _ v2 p e2 (guard-IsSame (is_transaction_id key) _) (λ u v3 e3 r3.
            after_same id pin rs _ _ v3 p e3 (or_raise-IsSame reply.capabilities _)
              (λ caps v4 e4 r4. after_same id pin rs _ _ v4 p e4 recall-IsSame (λ now v5 e5 r5.
                after_same id pin rs _ _ v5 p e5 (guard-IsSame _ _) (λ t v6 e6 r6.
                  let same : now ≡ v6.hw.records = sym (recalled now v4 r5) ∙ e4 ∙ sym e6 in
                  enroll-Leaves id pin key q caps v6 (subst (λ m. IsPinned id pin m) (sym e6) p) (
                    subst (λ m. has_pin q.fingerprint (lookup key m) ≡ true) same
                      (guard-true _ _ t v5 r6))))))))

  pair_known-Leaves :
      (id pin : String) (rs : Records) (q : Pairing) (o : Option Record)
      → (w : World Records Command (Machine H)) → IsPinned id pin rs
      → w.hw.records ≡ rs
      → Leaves id pin (pair_known env q o w)
  pair_known-Leaves id pin rs q (some r) w p e = inl (subst (λ m. IsPinned id pin m) (sym e) p)
  pair_known-Leaves id pin rs q none w p e = pair_new-Leaves id pin rs q w p e

  -- Whatever is asked of `Pair` and whatever the nodes answer, a node that is paired keeps a record
  -- with the same fingerprint, unless `Pair` returns the error of a save that failed.
  pub pair_keeps_pins :
      (id pin : String) (q : Pairing) (w : World Records Command (Machine H))
      → IsPinned id pin w.hw.records
      → Leaves id pin (pair env q w)
  unfolding pair
  pair_keeps_pins id pin q w p =
      after_same id pin w.hw.records _ _ w p refl (guard-IsSame (valid_pairing q) _) (λ u v1 e1 r1.
        after_same id pin w.hw.records _ _ v1 p e1 (refuse-IsSame _) (λ t v2 e2 r2.
          after_same id pin w.hw.records _ _ v2 p e2 (guard-IsSame _ _) (λ s v3 e3 r3.
            after_same id pin w.hw.records _ _ v3 p e3 recall-IsSame (λ now v4 e4 r4.
              pair_known-Leaves id pin w.hw.records q (find_paired q now) v4 p e4))))
