-- ===== src/Node/Transactions/Quiet.antt =====
-- The steps of internal/node/transaction.go that leave the log alone.
use route_harbor.Prelude.{◌≡◌, refl, Bool, true, false, Option, none, some, arith}
use route_harbor.Effects.{World, ok, ◌>>=◌, guard, or_raise, look}
use route_harbor.Effects.Rules.{quiet}
use route_harbor.Node.{Plan}
use route_harbor.Node.Transactions.{Transaction, Journal, Command, Env, Failure, Step}
use route_harbor.Node.Transactions.Manager.{check}
use route_harbor.Node.Transactions.History.{IsDue}
use route_harbor.Node.Transactions.Kept.{Ready, Safe, Ready-same}

module _ {H A B : Type 0} where
  -- A quiet step in the middle of a job.
  pub goes_on :
      (m : Step H A) (f : A → Step H B) (w : World Journal Command H) (j : Journal)
      → (d : Transaction) → Ready w j d
      → (m w).0.log ≡ w.log
      → ((a : A) (w' : World Journal Command H)
          → Ready w' j d
          → w'.log ≡ w.log
          → (m w).1 ≡ ok a
          → Safe (f a w'))
      → Safe ((m >>= f) w)
  goes_on m f w j d r l k =
      quiet IsDue w.log m f w r.ordered refl l (λ a w' l' q. k a w' (Ready-same w w' j d r l') l' q)

module _ {H : Type 0} where
  pub log-guard :
      (b : Bool) (x : Failure) (w : World Journal Command H) → (guard b x w).0.log ≡ w.log
  unfolding guard
  log-guard true x w = refl
  log-guard false x w = refl

  pub guard-ok :
      (b : Bool) (x : Failure) (u : Unit {0}) (w : World Journal Command H)
      → (guard b x w).1 ≡ ok u
      → b ≡ true
  unfolding guard
  guard-ok true x u w h = refl
  guard-ok false x u w h = cc

module _ {H A : Type 0} where
  pub log-or_raise :
      (o : Option A) (x : Failure) (w : World Journal Command H) → (or_raise o x w).0.log ≡ w.log
  unfolding or_raise
  log-or_raise none x w = refl
  log-or_raise (some a) x w = refl

  pub or_raise-ok :
      (o : Option A) (x : Failure) (a : A) (w : World Journal Command H)
      → (or_raise o x w).1 ≡ ok a
      → o ≡ some a
  unfolding or_raise
  or_raise-ok none x a w h = cc
  or_raise-ok (some b) x a w h = ground (arith, h)

module _ {H : Type 0} (env : Env H) where
  pub log-check : (p : Plan) (w : World Journal Command H) → (check env p w).0.log ≡ w.log
  unfolding check look ◌>>=◌
  log-check p w = log-guard (env.check w.hw p) _ w
