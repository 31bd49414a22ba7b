-- ===== src/Coordinator/History/Quiet.antt =====
-- The steps of coverage_coordinator.go that leave the journal alone: early returns, looks and queries.
use route_harbor.Prelude.{◌≡◌, refl, ◌∙◌, Bool, true, false, Option, none, some, String, arith}
use route_harbor.Effects.{
  disk, World, Result, ok, err, ◌>>=◌, continue, guard, or_raise, look, call,
}
use route_harbor.Coverage.{Plan as GatewayPlan}
use route_harbor.Node.{Plan}
use route_harbor.Coordinator.{Entry, Entries, Record, Error}
use route_harbor.Coordinator.World.{
  Env, Command, Step, Job, Failure, ask_gateway, refuse, fresh, validate_coverage,
}
use route_harbor.Coordinator.History.{IsHistory}
use route_harbor.Coordinator.History.Rules.{Ready, Safe, follows}

-- The file stays, and so does the order of the log.
pub record Quietly {H : Type 0} (w w' : World Entries Command H) : Type 0 where
  pub same : disk w'.log ≡ disk w.log
  pub ordered : IsHistory w.log → IsHistory w'.log

module _ {H : Type 0} where
  pub still : (w : World Entries Command H) → Quietly w w
  still w = record { same = refl; ordered = λ h. h }

  pub Quietly-Ready :
      (w w' : World Entries Command H) (job : Job) (d : Entry)
      → Quietly w w'
      → Ready w job d
      → Ready w' job d
  Quietly-Ready w w' job d q r = record { ordered = q.ordered r.ordered; at = rw q.same r.at }

  pub guard-Quietly :
      (b : Bool) (x : Failure) (w : World Entries Command H) → Quietly w (guard b x w).0
  unfolding guard
  guard-Quietly true x w = still w
  guard-Quietly false x w = still w

  pub guard-ok :
      (b : Bool) (x : Failure) (u : Unit {0}) (w : World Entries Command H)
      → (guard b x w).1 ≡ ok u
      → b ≡ true
  unfolding guard
  guard-ok true x u w h = refl
  guard-ok false x u w h = cc

  pub refuse-Quietly :
      (e : Entry) (o : Option Error) (w : World Entries Command H) → Quietly w (refuse e o w).0
  unfolding refuse
  refuse-Quietly e none w = still w
  refuse-Quietly e (some x) w = still w

  pub refuse-ok :
      (e : Entry) (o : Option Error) (u : Unit {0}) (w : World Entries Command H)
      → (refuse e o w).1 ≡ ok u
      → o ≡ none
  unfolding refuse
  refuse-ok e none u w h = refl
  refuse-ok e (some x) u w h = cc

module _ {H A : Type 0} where
  pub or_raise-Quietly :
      (o : Option A) (x : Failure) (w : World Entries Command H) → Quietly w (or_raise o x w).0
  unfolding or_raise
  or_raise-Quietly none x w = still w
  or_raise-Quietly (some a) x w = still w

  pub or_raise-ok :
      (o : Option A) (x : Failure) (a : A) (w : World Entries Command H)
      → (or_raise o x w).1 ≡ ok a
      → o ≡ some a
  unfolding or_raise
  or_raise-ok none x a w h = cc
  or_raise-ok (some b) x a w h = ground (arith, h)

module _ {H A B : Type 0} where
  result-Quietly :
      (r : Result Failure A) (f : A → Step H B) (w : World Entries Command H)
      → ((a : A) (w' : World Entries Command H) → Quietly w' (f a w').0)
      → Quietly w (continue r f w).0
  result-Quietly (ok a) f w k = k a w
  result-Quietly (err e) f w k = still w

  pub bind-Quietly :
      (m : Step H A) (f : A → Step H B) (w : World Entries Command H)
      → Quietly w (m w).0
      → ((a : A) (w' : World Entries Command H) → Quietly w' (f a w').0)
      → Quietly w ((m >>= f) w).0
  unfolding ◌>>=◌
  bind-Quietly m f w q k =
      let t = result-Quietly (m w).1 f (m w).0 k in
      record { same = t.same ∙ q.same; ordered = λ h. t.ordered (q.ordered h) }

  -- A quiet step in the middle of a job.
  pub goes_on :
      (m : Step H A) (f : A → Step H B) (w : World Entries Command H) (job : Job) (d : Entry)
      → Quietly w (m w).0
      → Ready w job d
      → ((a : A) (w' : World Entries Command H) → Ready w' job d → (m w).1 ≡ ok a → Safe (f a w'))
      → Safe ((m >>= f) w)
  goes_on m f w job d q r k = follows m f w job d (Quietly-Ready w (m w).0 job d q r) k

module _ {H : Type 0} (env : Env H) where
  pub fresh-Quietly :
      (fail : Error → Failure) (id : String) (w : World Entries Command H)
      → Quietly w (fresh env fail id w).0
  unfolding fresh look call
  fresh-Quietly fail id w = bind-Quietly _ _ w (still w) λ known w₁.
      bind-Quietly _ _ w₁ (or_raise-Quietly known _ w₁) λ peer w₂.
        bind-Quietly _ _ w₂ (record { same = refl; ordered = λ h. (tt, h) })
          λ found w₃. bind-Quietly _ _ w₃ (or_raise-Quietly found _ w₃) λ caps w₄. still w₄

  pub validate_coverage-Quietly :
      (fail : Error → Failure) (peer : Record) (p : Plan) (g : Option GatewayPlan)
      → (w : World Entries Command H) → Quietly w (validate_coverage env fail peer p g w).0
  unfolding validate_coverage look ask_gateway call
  validate_coverage-Quietly fail peer p g w = bind-Quietly _ _ w (guard-Quietly _ _ w) λ u₁ w₁.
      bind-Quietly _ _ w₁ (or_raise-Quietly _ _ w₁) λ plan w₂.
        bind-Quietly _ _ w₂ (guard-Quietly _ _ w₂) λ u₃ w₃.
          bind-Quietly _ _ w₃ (still w₃) λ caps w₄.
            bind-Quietly _ _ w₄ (guard-Quietly _ _ w₄) λ u₅ w₅.
              bind-Quietly _ _ w₅ (record { same = refl; ordered = λ h. (tt, h) })
                λ answer w₆. bind-Quietly _ _ w₆ (or_raise-Quietly _ _ w₆) λ r w₇.
                  bind-Quietly _ _ w₇ (or_raise-Quietly _ _ w₇) λ injected w₈.
                    bind-Quietly _ _ w₈ (or_raise-Quietly _ _ w₈) λ accepted w₉. still w₉
