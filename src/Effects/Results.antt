-- ===== src/Effects/Results.antt =====
-- What is known of an action that returned a result.
use route_harbor.Prelude.{
  ◌≡◌, ◌≢◌, refl, Bool, true, false, List, [], ◌∷◌, some, arith, if◌then◌else◌,
}
use route_harbor.Effects.{
  Write, done, lost_before, lost_after, disk, World, Result, ok, err, Action, ◌>>=◌, write_file,
  save,
}

-- The two steps of a chain that returned a result, `k` being the rest.
pub record Steps {J C H X A B : Type 0} (m : Action J C H X A) (f : A → Action J C H X B)
    (w : World J C H) (b : B) : Type 0 where
  pub first : A
  pub first_is : (m w).1 ≡ ok first
  pub then_is : (f first (m w).0).1 ≡ ok b
  pub world : ((m >>= f) w).0 ≡ (f first (m w).0).0

module _ {J C H X A B : Type 0} where
  pub chained :
      (m : Action J C H X A) (f : A → Action J C H X B) (w : World J C H) (b : B)
      → ((m >>= f) w).1 ≡ ok b
      → Steps m f w b
  unfolding ◌>>=◌
  chained m f w b h = of_result (m w).1 refl
    where
      of_result : (r : Result X A) → (m w).1 ≡ r → Steps m f w b
      of_result (ok a) e = record {
        first = a;
        first_is = e;
        then_is = ground (arith, e, h);
        world = rw e refl;
      }
      of_result (err x) e = absurd (ground (arith, e, h))

module _ {J C H X : Type 0} where
  written-ok :
      (x : X) (ws : List Write) (j : J) (u : Unit {0}) (w : World J C H)
      → (write_file x ws j w).1 ≡ ok u
      → disk (write_file x ws j w).0.log ≡ some j
  written-ok x [] j u w h = refl
  written-ok x (done ∷ ws) j u w h = refl
  written-ok x (lost_before ∷ ws) j u w h = cc
  written-ok x (lost_after ∷ ws) j u w h = cc

  -- After a save that succeeded the file holds the journal.
  pub save-ok :
      (x : X) (j : J) (u : Unit {0}) (w : World J C H)
      → (save x j w).1 ≡ ok u
      → disk (save x j w).0.log ≡ some j
  unfolding save
  save-ok x j u w h = written-ok x w.writes j u w h

module _ {X B : Type 0} where
  abbrev pub value_or : B → Result X B → B
  value_or d (ok a) = a
  value_or d (err x) = d

  pub value_or-ok : (r : Result X B) (a b : B) → r ≡ ok b → value_or a r ≡ b
  value_or-ok r a b e = rw e refl

  pub err-not-ok : (x : X) (b : B) → err x ≢ ok b
  err-not-ok x b h = cc

module _ {J C H X A : Type 0} where
  pub taken :
      (b : Bool) (m n : Action J C H X A) (w : World J C H) (a : A)
      → b ≡ true
      → ((if b then m else n) w).1 ≡ ok a
      → (m w).1 ≡ ok a
  taken true m n w a q h = h
  taken false m n w a q h = cc

  pub skipped :
      (b : Bool) (m n : Action J C H X A) (w : World J C H) (a : A)
      → b ≡ false
      → ((if b then m else n) w).1 ≡ ok a
      → (n w).1 ≡ ok a
  skipped true m n w a q h = cc
  skipped false m n w a q h = h

  pub same_world :
      (b : Bool) (m n : Action J C H X A) (w : World J C H)
      → b ≡ false
      → (if b then m else n) w ≡ n w
  same_world true m n w q = cc
  same_world false m n w q = refl
