-- ===== src/Registry/Runs/Kept.antt =====
-- Every operation of internal/node/service.go keeps the registry one that NewService takes.
use text.Mathlib.TextEquality.{eq_iff}
use route_harbor.Prelude.{◌≡◌, refl, true, Option, none, some, String, arith}
use route_harbor.Effects.{World, ok, look}
use route_harbor.Coverage.{is_transaction_id}
use route_harbor.Node.{Capabilities}
use route_harbor.Coordinator.{Record}
use route_harbor.Registry.{
  Records, Pairing, get_capabilities, Reply, Env, Machine, Command, valid_fingerprint,
  validate_address, no_error, valid_entry, valid_registry, valid_pairing,
}
use route_harbor.Registry.Entries.{erase-valid, insert-valid, lookup-valid}
use route_harbor.Registry.Service.{
  pair, pair_known, pair_new, introduce, ask_again, new_record, enroll, recall, unpair, new_service,
  find_paired,
}
use route_harbor.Registry.Runs.Steps.{
  Keeps, kept_file-valid, then-Keeps, or_raise-Keeps, or_raise-some, guard-true, guard-Keeps,
  refuse-Keeps, refuse-none, recall-Keeps, remember-Keeps, save_or-Keeps, ask-Keeps,
  ask_coverage-Keeps,
}

module _ {H : Type 0} (env : Env H) where
  -- What `Pair` has checked of a request before it goes on.
  abbrev IsChecked : Pairing → Type 0
  IsChecked q =
      (no_error env (validate_address env q.address) ≡ true)
      × (valid_fingerprint q.fingerprint ≡ true)

  new_record-valid :
      (q : Pairing) (id : String) (caps : Capabilities) (w : World Records Command (Machine H))
      → IsChecked q
      → is_transaction_id id ≡ true
      → valid_entry env id (new_record env q id caps w) ≡ true
  unfolding valid_entry
  new_record-valid q id caps w c i = rw (i, (eq_iff id id).1 refl, c.1, c.0) refl

  enroll-Keeps :
      (q : Pairing) (id : String) (caps : Capabilities)
      → IsChecked q
      → is_transaction_id id ≡ true
      → Keeps env (enroll env q id caps)
  unfolding enroll look
  enroll-Keeps q id caps c i w h =
      let e = new_record-valid q id caps w c i in
      then-Keeps env _ _
        (save_or-Keeps env _ _ (insert-valid env id _ w.hw.records e h.1)
          (erase-valid env id w.hw.records h.1))
        (λ u w' h' r. then-Keeps env _ _ (λ v k. k) (λ m v k s x y. y)) w h

  ask_again-Keeps : (q : Pairing) (o : Option Reply) → Keeps env (ask_again env q o)
  ask_again-Keeps q none = ask-Keeps env q.address q.fingerprint get_capabilities
  ask_again-Keeps q (some r) = λ w h. h

  introduce-Keeps : (q : Pairing) → Keeps env (introduce env q)
  unfolding introduce
  introduce-Keeps q =
      then-Keeps env _ _ (ask-Keeps env _ _ _)
        (λ o w h e. then-Keeps env _ _ (ask_again-Keeps q o) (λ p w' h' e'. or_raise-Keeps env p _))

  pair_new-Keeps : (q : Pairing) → IsChecked q → Keeps env (pair_new env q)
  unfolding pair_new
  pair_new-Keeps q c = then-Keeps env _ _ (introduce-Keeps q) (λ reply w1 h1 e1.
      then-Keeps env _ _ (or_raise-Keeps env reply.id _) (λ id w2 h2 e2.
        then-Keeps env _ _ (guard-Keeps env (is_transaction_id id) _) (λ u w3 h3 e3.
          then-Keeps env _ _ (or_raise-Keeps env reply.capabilities _) (λ caps w4 h4 e4.
            then-Keeps env _ _ (recall-Keeps env) (λ rs w5 h5 e5.
              then-Keeps env _ _ (guard-Keeps env _ _)
                (λ v w6 h6 e6. enroll-Keeps q id caps c (guard-true _ _ u w3 e3)))))))

  pair_known-Keeps :
      (q : Pairing) (o : Option Record) → IsChecked q → Keeps env (pair_known env q o)
  pair_known-Keeps q (some r) c = λ w h. h
  pair_known-Keeps q none c = pair_new-Keeps q c

  pub pair-IsKept : (q : Pairing) → Keeps env (pair env q)
  unfolding pair
  pair-IsKept q = then-Keeps env _ _ (guard-Keeps env (valid_pairing q) _) (λ u w1 h1 e1.
      then-Keeps env _ _ (refuse-Keeps env _) (λ v w2 h2 e2.
        then-Keeps env _ _ (guard-Keeps env _ _) (λ x w3 h3 e3.
          then-Keeps env _ _ (recall-Keeps env) (λ rs w4 h4 e4.
            pair_known-Keeps q (find_paired q rs)
              (refuse-none env _ v w2 e2, guard-true _ _ x w3 e3)))))

  recalled-valid :
      (rs : Records) (w : World Records Command (Machine H))
      → valid_registry env w.hw.records ≡ true
      → (recall w).1 ≡ ok rs
      → valid_registry env rs ≡ true
  unfolding recall
  recalled-valid rs w h e = ground (arith, h, e)

  pub unpair-IsKept : (id : String) → Keeps env (unpair env id)
  unfolding unpair
  unpair-IsKept id = then-Keeps env _ _ (ask_coverage-Keeps env id) (λ u w1 h1 e1.
      then-Keeps env _ _ (recall-Keeps env) (λ rs w2 h2 e2.
        then-Keeps env _ _ (or_raise-Keeps env _ _) (λ r w3 h3 e3.
          then-Keeps env _ _ (ask-Keeps env _ _ _) (λ o w4 h4 e4.
            then-Keeps env _ _ (or_raise-Keeps env o _) (λ p w5 h5 e5.
              then-Keeps env _ _ (recall-Keeps env) (λ rs' w6 h6 e6.
                let now = recalled-valid rs' w6 h6.1 e6 in
                let it =
                  lookup-valid env id rs r (recalled-valid rs w2 h2.1 e2)
                    (or_raise-some _ _ r w3 e3) in
                save_or-Keeps env _ _ (erase-valid env id rs' now)
                  (insert-valid env id r rs' it now)))))))

  pub new_service-IsKept : Keeps env (new_service env)
  unfolding new_service
  new_service-IsKept w h =
      let f = kept_file-valid env w.log h.0 in
      then-Keeps env _ _ (guard-Keeps env w.readable _)
        (λ u w1 h1 e1. then-Keeps env _ _ (guard-Keeps env _ _) (λ v w2 h2 e2.
          then-Keeps env _ _ (guard-Keeps env _ _) (λ x w3 h3 e3. remember-Keeps env _ f)))
        w h
