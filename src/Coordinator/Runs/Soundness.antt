-- ===== src/Coordinator/Runs/Soundness.antt =====
-- The journals that coverage_coordinator.go writes: one open transaction, and no secrets of settled ones.
use text.Mathlib.Text.{◌==◌ as str_eq}
use route_harbor.Prelude.{
  ℕ, ◌+◌, ◌≤◌, ◌≡◌, refl, subst, Bool, true, false, List, [], ◌∷◌, Option, some, String, arith,
  Bool-cases, inl, inr,
}
use route_harbor.Effects.{Event, wrote, did, disk, World}
use route_harbor.Coordinator.{Phase, Entry, Entries, is_open, any_open, find, put, remove}
use route_harbor.Coordinator.World.{Env, Command}
use route_harbor.Coordinator.History.{
  Edge, keep, ready, start, done, commit, settle, undo, undone, Change, begins, moves, forgets,
  IsClean, IsHistory, entries_of,
}
use route_harbor.Coordinator.Runs.{Reach, Reach-IsOrdered}

abbrev one : Bool → ℕ
one true = 1
one false = 0

abbrev pub count_open : Entries → ℕ
count_open [] = 0
count_open ((k, e) ∷ es) = one (is_open e.transaction.state) + count_open es

abbrev pub AllClean : Entries → Type 0
AllClean [] = Unit {0}
AllClean ((k, e) ∷ es) = IsClean e × AllClean es

pub record IsSound (es : Entries) : Type 0 where
  pub one_open : count_open es ≤ 1
  pub clean : AllClean es

count_none : (es : Entries) → any_open es ≡ false → count_open es ≡ 0
count_none [] h = refl
count_none ((k, e) ∷ es) h = elim (Bool-cases (is_open e.transaction.state)) [
  | inl q ↦ absurd (ground (arith, q, h))
  | inr q ↦ ground (arith, q, h, count_none es (ground (arith, q, h)))
]

count-put : (id : String) (e : Entry) (es : Entries) → count_open (put id e es) ≤ 1 + count_open es
count-put id e [] = ground arith
count-put id e ((k, d) ∷ es) = ground (arith, count-put id e es)

count-put_found :
    (id : String) (d e : Entry) (es : Entries)
    → find id es ≡ some d
    → is_open d.transaction.state ≡ true
    → count_open (put id e es) ≤ count_open es
count-put_found id d e [] f o = cc
count-put_found id d e ((k, x) ∷ es) f o = elim (Bool-cases (str_eq k id)) [
  | inl q ↦ ground (arith, q, f, o)
  | inr q ↦ ground (arith, q, f, count-put_found id d e es (ground (arith, q, f)) o)
]

count-remove : (id : String) (es : Entries) → count_open (remove id es) ≤ count_open es
count-remove id [] = omega arith
count-remove id ((k, d) ∷ es) = ground (arith, count-remove id es)

clean-put :
    (id : String) (e : Entry) (es : Entries) → AllClean es → IsClean e → AllClean (put id e es)
clean-put id e [] a c = (c, tt)
clean-put id e ((k, d) ∷ es) a c = elim (Bool-cases (str_eq k id)) [
  | inl q ↦ rw q (c, a.1)
  | inr q ↦ rw q (a.0, clean-put id e es a.1 c)
]

clean-remove : (id : String) (es : Entries) → AllClean es → AllClean (remove id es)
clean-remove id [] a = tt
clean-remove id ((k, d) ∷ es) a = elim (Bool-cases (str_eq k id)) [
  | inl q ↦ rw q a.1
  | inr q ↦ rw q (a.0, clean-remove id es a.1)
]

-- Only an open transaction moves.
moves-open : (s t : Phase) → Edge s t → is_open s ≡ true
moves-open _ _ (keep s o) = o
moves-open _ _ ready = refl
moves-open _ _ start = refl
moves-open _ _ done = refl
moves-open _ _ commit = refl
moves-open _ _ settle = refl
moves-open _ _ (undo s o) = o
moves-open _ _ undone = refl

Change-IsSound :
    (o : Option Entries) (new : Entries) → Change o new → IsSound (entries_of o) → IsSound new
Change-IsSound o new (begins id e free s q) h = rw q (record {
  one_open =
      omega (arith, count-put id e (entries_of o), count_none (entries_of o) free, h.one_open);
  clean = clean-put id e (entries_of o) h.clean (λ c. absurd (ground (arith, c, s)));
})
Change-IsSound o new (moves id es d e disk f edge kin clean q) h =
    let h' : IsSound es = subst (λ x. IsSound (entries_of x)) disk h in
    rw q (record {
      one_open = omega (arith, count-put_found id d e es f (moves-open _ _ edge), h'.one_open);
      clean = clean-put id e es h'.clean clean;
    })
Change-IsSound o new (forgets id es d disk f settled q) h =
    let h' : IsSound es = subst (λ x. IsSound (entries_of x)) disk h in
    rw q (record {
      one_open = omega (arith, count-remove id es, h'.one_open);
      clean = clean-remove id es h'.clean;
    })

IsHistory-IsSound :
    (log : List (Event Entries Command)) → IsHistory log → IsSound (entries_of (disk log))
IsHistory-IsSound [] h = record { one_open = omega arith; clean = tt }
IsHistory-IsSound (wrote es ∷ log) h = Change-IsSound (disk log) es h.0 (IsHistory-IsSound log h.1)
IsHistory-IsSound (did c ∷ log) h = IsHistory-IsSound log h.1

module _ {H : Type 0} (env : Env H) where
  -- In every life of the service that starts with no journal, over all requests, answers, recovery
  -- runs, failed writes and kills, the journal on disk has at most one open transaction, and each
  -- settled one in it has an empty passphrase.
  pub Reach-IsSound :
      (w : World Entries Command H) (es : Entries) → Reach env w → disk w.log ≡ some es → IsSound es
  Reach-IsSound w es r e =
      subst (λ o. IsSound (entries_of o)) e (IsHistory-IsSound w.log (Reach-IsOrdered env w r))
