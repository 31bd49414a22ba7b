-- ===== src/Effects.antt =====
-- A process that keeps one journal file and calls other parts: its world, its early returns and the
-- log of what has happened. internal/node keeps its files this way (readPrivate and writePrivate).
pub mod Rules
pub mod Results
use route_harbor.Prelude.{Bool, true, false, List, [], ◌∷◌, Option, none, some}

-- `J` is what the file holds and `C` a call of another part.
pub data Event (J C : Type 0) : Type 0 where
  wrote : J → Event J C
  did : C → Event J C

-- How `writePrivate` ends. It may fail after the rename, when the directory cannot be synced.
pub data Write : Type 0 where
  done lost_before lost_after : Write

-- `H` is the state of everything outside the process, the clock included; the log is the newest
-- event first.
pub record World (J C H : Type 0) : Type 0 where
  pub log : List (Event J C)
  pub hw : H
  pub readable : Bool
  pub writes : List Write

pub data Result (X A : Type 0) : Type 0 where
  ok : A → Result X A
  err : X → Result X A

abbrev pub Action : Type 0 → Type 0 → Type 0 → Type 0 → Type 0 → Type 0
Action J C H X A = World J C H → World J C H × Result X A

-- The journal file: the last one written, if any was.
abbrev pub disk : {J C : Type 0} → List (Event J C) → Option J
disk [] = none
disk (wrote j ∷ log) = some j
disk (did c ∷ log) = disk log

module _ {J C H X A : Type 0} where
  abbrev pub pure : A → Action J C H X A
  pure a w = (w, ok a)

  abbrev pub raise : X → Action J C H X A
  raise e w = (w, err e)

  unfoldable pub or_raise : Option A → X → Action J C H X A
  or_raise none e w = (w, err e)
  or_raise (some a) e w = (w, ok a)

  -- A call of another part, an event of the log.
  unfoldable pub call : C → (H → H × A) → Action J C H X A
  call c f w = let r = f w.hw in (record w { hw = r.0; log = did c ∷ w.log }, ok r.1)

  -- A call whose event says how it ended.
  unfoldable pub call_noted : (A → C) → (H → H × A) → Action J C H X A
  call_noted c f w = let r = f w.hw in (record w { hw = r.0; log = did (c r.1) ∷ w.log }, ok r.1)

  unfoldable pub look : (H → A) → Action J C H X A
  look f w = (w, ok (f w.hw))

module _ {J C H X A B : Type 0} where
  abbrev pub continue : Result X A → (A → Action J C H X B) → Action J C H X B
  continue (ok a) f w = f a w
  continue (err e) f w = (w, err e)

  infixl 5 ◌>>=◌ ◌>>◌
  unfoldable pub ◌>>=◌ : Action J C H X A → (A → Action J C H X B) → Action J C H X B
  ◌>>=◌ m f w = let r = m w in continue r.1 f r.0

  abbrev pub ◌>>◌ : Action J C H X A → Action J C H X B → Action J C H X B
  m >> n = m >>= λ _. n

module _ {J C H X : Type 0} where
  -- An early return.
  unfoldable pub guard : Bool → X → Action J C H X (Unit {0})
  guard true e w = (w, ok tt)
  guard false e w = (w, err e)

  -- `writePrivate`, with the way it ends at the head of the list.
  abbrev pub write_file : X → List Write → J → Action J C H X (Unit {0})
  write_file e [] j w = (record w { log = wrote j ∷ w.log }, ok tt)
  write_file e (done ∷ rest) j w = (record w { log = wrote j ∷ w.log; writes = rest }, ok tt)
  write_file e (lost_before ∷ rest) j w = (record w { writes = rest }, err e)
  write_file e (lost_after ∷ rest) j w = (record w { log = wrote j ∷ w.log; writes = rest }, err e)

  unfoldable pub save : X → J → Action J C H X (Unit {0})
  save e j w = write_file e w.writes j w

module _ {J C H X : Type 0} where
  abbrev pub tried : World J C H × Result X (Unit {0}) → World J C H × Result X Bool
  tried (w, ok u) = (w, ok true)
  tried (w, err e) = (w, ok false)

  -- A save whose failure is looked at later.
  unfoldable pub try_save : X → J → Action J C H X Bool
  try_save e j w = tried (write_file e w.writes j w)
