-- ===== src/Registry/Runs/Steps.antt =====
-- The steps that the operations of internal/node/service.go are made of: each registry that is written,
-- and the one in memory, stays one that NewService takes.
use route_harbor.Prelude.{
  ◌≡◌, refl, Bool, true, false, ◌&&◌, List, [], ◌∷◌, Option, none, some, String, arith,
  if◌then◌else◌, Bool-cases, inl, inr,
}
use route_harbor.Effects.{
  Event, wrote, did, Write, done, lost_before, lost_after, World, Result, ok, err, disk, continue,
  pure, raise, or_raise, call, ◌>>=◌, ◌>>◌, guard, write_file, tried, try_save,
}
use route_harbor.Effects.Rules.{IsOrdered}
use route_harbor.Registry.{
  Records, Request, sent, Env, Machine, Command, Error, Step, storage_failed, valid_fingerprint,
  validate_address, no_error, valid_registry,
}
use route_harbor.Registry.Service.{
  ask, ask_coverage, reach_outside, remember, recall, refuse, save_or, kept_file,
}

module _ {H : Type 0} (env : Env H) where
  -- A registry that is written passes the checks, and a request goes to a checked address with a pin.
  abbrev pub IsDue : Event Records Command → List (Event Records Command) → Type 0
  IsDue (wrote rs) log = valid_registry env rs ≡ true
  IsDue (did (sent address pin q)) log =
      (no_error env (validate_address env address) ≡ true) × (valid_fingerprint pin ≡ true)

  abbrev pub IsHistory : List (Event Records Command) → Type 0
  IsHistory log = IsOrdered IsDue log

  abbrev pub IsKept : World Records Command (Machine H) → Type 0
  IsKept w = IsHistory w.log × (valid_registry env w.hw.records ≡ true)

  abbrev pub Keeps : {A : Type 0} → Step H A → Type 0
  Keeps m = (w : World Records Command (Machine H)) → IsKept w → IsKept (m w).0

  pub kept_file-valid :
      (log : List (Event Records Command))
      → IsHistory log
      → valid_registry env (kept_file (disk log)) ≡ true
  unfolding valid_registry
  kept_file-valid [] h = refl
  kept_file-valid (wrote rs ∷ log) h = h.0
  kept_file-valid (did c ∷ log) h = kept_file-valid log h.1

module _ {H A B : Type 0} (env : Env H) where
  continue-Keeps :
      (r : Result Error A) (f : A → Step H B) (w : World Records Command (Machine H))
      → IsKept env w
      → ((a : A) → r ≡ ok a → IsKept env (f a w).0)
      → IsKept env (continue r f w).0
  continue-Keeps (ok a) f w h k = k a refl
  continue-Keeps (err e) f w h k = h

  -- A step, and the rest after what the step returned.
  pub then-Keeps :
      (m : Step H A) (f : A → Step H B)
      → Keeps env m
      → ((a : A) (w : World Records Command (Machine H))
          → IsKept env w
          → (m w).1 ≡ ok a
          → Keeps env (f a))
      → Keeps env (m >>= f)
  unfolding ◌>>=◌
  then-Keeps m f p k w h =
      continue-Keeps (m w).1 f (m w).0 (p w h) (λ a e. k a w h e (m w).0 (p w h))

module _ {H A : Type 0} (env : Env H) where
  pub or_raise-Keeps : (o : Option A) (x : Error) → Keeps env (or_raise o x)
  unfolding or_raise
  or_raise-Keeps none x w h = h
  or_raise-Keeps (some a) x w h = h

module _ {H A : Type 0} where
  pub or_raise-some :
      (o : Option A) (x : Error) (a : A) (w : World Records Command (Machine H))
      → (or_raise o x w).1 ≡ ok a
      → o ≡ some a
  unfolding or_raise
  or_raise-some none x a w h = cc
  or_raise-some (some b) x a w h = ground (arith, h)

module _ {H : Type 0} where
  pub guard-true :
      (b : Bool) (x : Error) (u : Unit {0}) (w : World Records Command (Machine H))
      → (guard b x w).1 ≡ ok u
      → b ≡ true
  unfolding guard
  guard-true true x u w h = refl
  guard-true false x u w h = cc

module _ {H : Type 0} (env : Env H) where
  pub guard-Keeps : (b : Bool) (x : Error) → Keeps env (guard b x)
  unfolding guard
  guard-Keeps true x w h = h
  guard-Keeps false x w h = h

  pub refuse-Keeps : (o : Option Error) → Keeps env (refuse o)
  refuse-Keeps none w h = h
  refuse-Keeps (some x) w h = h

  pub refuse-none :
      (o : Option Error) (u : Unit {0}) (w : World Records Command (Machine H))
      → (refuse o w).1 ≡ ok u
      → no_error env o ≡ true
  refuse-none none u w h = refl
  refuse-none (some x) u w h = cc

  pub recall-Keeps : Keeps env recall
  unfolding recall
  recall-Keeps w h = h

  pub remember-Keeps : (rs : Records) → valid_registry env rs ≡ true → Keeps env (remember rs)
  unfolding remember
  remember-Keeps rs v w h = (h.0, v)

  undo-Keeps :
      (b : Bool) (rs : Records)
      → valid_registry env rs ≡ true
      → Keeps env (if b then pure tt else (remember rs >> raise storage_failed))
  unfolding ◌>>=◌ remember
  undo-Keeps true rs v w h = h
  undo-Keeps false rs v w h = (h.0, v)

  saved-Keeps :
      (ws : List Write) (x : Error) (rs : Records) (w : World Records Command (Machine H))
      → valid_registry env rs ≡ true
      → IsKept env w
      → IsKept env (write_file x ws rs w).0
  saved-Keeps [] x rs w v h = ((v, h.0), h.1)
  saved-Keeps (done ∷ ws) x rs w v h = ((v, h.0), h.1)
  saved-Keeps (lost_before ∷ ws) x rs w v h = h
  saved-Keeps (lost_after ∷ ws) x rs w v h = ((v, h.0), h.1)

  tried-Keeps :
      (r : World Records Command (Machine H) × Result Error (Unit {0}))
      → IsKept env r.0
      → IsKept env (tried r).0
  tried-Keeps (v, ok u) k = k
  tried-Keeps (v, err e) k = k

  try_save-Keeps :
      (rs : Records) (x : Error) → valid_registry env rs ≡ true → Keeps env (try_save x rs)
  unfolding try_save
  try_save-Keeps rs x v w h =
      tried-Keeps (write_file x w.writes rs w) (saved-Keeps w.writes x rs w v h)

  pub save_or-Keeps :
      (rs undone : Records)
      → valid_registry env rs ≡ true
      → valid_registry env undone ≡ true
      → Keeps env (save_or rs undone)
  unfolding save_or
  save_or-Keeps rs undone v u = then-Keeps env _ _ (remember-Keeps rs v) (λ a w h e.
      then-Keeps env _ _ (try_save-Keeps rs storage_failed v)
        (λ saved w' h' e'. undo-Keeps saved undone u))

  pub ask-Keeps : (address pin : String) (q : Request) → Keeps env (ask env address pin q)
  unfolding ask call reach_outside
  ask-Keeps address pin q w h =
      elim (Bool-cases (no_error env (validate_address env address) && valid_fingerprint pin)) [
        | inl t ↦ rw t ((((ground (arith, t)), ground (arith, t)), h.0), h.1)
        | inr f ↦ rw f h
      ]

  pub ask_coverage-Keeps : (id : String) → Keeps env (ask_coverage env id)
  unfolding ask_coverage
  ask_coverage-Keeps id w h = h
