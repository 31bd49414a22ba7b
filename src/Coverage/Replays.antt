-- ===== src/Coverage/Replays.antt =====
-- `Prepare` of transaction.go under a request key that was used before.
use text.Mathlib.Text.{◌==◌ as str_eq}
use text.Mathlib.TextEquality.{eq_iff}
use route_harbor.Prelude.{
  ◌≡◌, ◌≢◌, refl, sym, ap, subst, ◌∙◌, Bool, true, false, List, [], ◌∷◌, Option, none, some, String,
  arith, if◌then◌else◌,
}
use route_harbor.Coverage.{Plan, Transaction, Error, conflict, validate_plan, is_request_key}
use route_harbor.Coverage.Journal.{Journal}
use route_harbor.Coverage.World.{
  World, Env, Event, Write, done, lost_before, lost_after, Action, Result, ok, err, ◌>>=◌, continue,
  or_raise, guard, refuse, save, write_file, disk, read_file, load,
}
use route_harbor.Coverage.Manager.{prepare, begin, replay}
use route_harbor.Coverage.Undoing.{IsLoaded, load-IsLoaded}

-- Inversion of a bind that returns.
record Returns {H A B : Type 0} (m : Action H A) (f : A → Action H B) (w w' : World H) (b : B)
    : Type 0 where
  value : A
  between : World H
  first : m w ≡ (between, ok value)
  second : f value between ≡ (w', ok b)

module _ {H A B : Type 0} where
  >>=-eq-ok :
      (m : Action H A) (f : A → Action H B) (w w' : World H) (b : B)
      → (m >>= f) w ≡ (w', ok b)
      → Returns m f w w' b
  unfolding ◌>>=◌
  >>=-eq-ok m f w w' b h = go (m w).1 refl h
    where
      go : (r : Result A) → (m w).1 ≡ r → continue r f (m w).0 ≡ (w', ok b) → Returns m f w w' b
      go (ok a) e h = record {
        value = a;
        between = (m w).0;
        first = λ i. ((m w).0, e i);
        second = h;
      }
      go (err x) e h = cc

module _ {H : Type 0} where
  guard-eq-ok :
      (b : Bool) (e : Error) (w v : World H) (u : Unit {0})
      → guard b e w ≡ (v, ok u)
      → (b ≡ true) × (v ≡ w)
  unfolding guard
  guard-eq-ok true e w v u h = (refl, cc)
  guard-eq-ok false e w v u h = cc

  refuse-eq-ok :
      (o : Option Error) (w v : World H) (u : Unit {0})
      → refuse o w ≡ (v, ok u)
      → (o ≡ none) × (v ≡ w)
  unfolding refuse
  refuse-eq-ok none w v u h = (refl, cc)
  refuse-eq-ok (some e) w v u h = cc

  or_raise-eq-ok :
      {A : Type 0} (o : Option A) (e : Error) (w v : World H) (a : A)
      → or_raise o e w ≡ (v, ok a)
      → (o ≡ some a) × (v ≡ w)
  unfolding or_raise
  or_raise-eq-ok none e w v a h = cc
  or_raise-eq-ok (some x) e w v a h = (cc, cc)

  written-eq-ok :
      (ws : List Write) (j : Journal) (w v : World H) (u : Unit {0})
      → write_file ws j w ≡ (v, ok u)
      → disk v.log ≡ some j
  written-eq-ok [] j w v u h = cc
  written-eq-ok (done ∷ ws) j w v u h = cc
  written-eq-ok (lost_before ∷ ws) j w v u h = cc
  written-eq-ok (lost_after ∷ ws) j w v u h = cc

-- The journal holds transaction `t` for this key and plan digest.
record Records (log : List Event) (key hash : String) (t : Transaction) : Type 0 where
  file : Journal
  on_disk : disk log ≡ some file
  same_key : file.request_key ≡ key
  same_hash : file.request_hash ≡ hash
  is : file.transaction ≡ some t

module _ {H : Type 0} (env : Env H) where
  saved-Records :
      (j : Journal) (t : Transaction) (w w' : World H) (v : Unit {0})
      → save j w ≡ (w', ok v)
      → j.transaction ≡ some t
      → Records w'.log j.request_key j.request_hash t
  unfolding save
  saved-Records j t w w' v h q = record {
    file = j;
    on_disk = written-eq-ok w.writes j w w' v h;
    same_key = refl;
    same_hash = refl;
    is = q;
  }

  -- An action that ends by returning `t`.
  returned :
      (v w' : World H) (t t' : Transaction) (key hash : String)
      → ◌≡◌ {A = World H × Result Transaction} (v, ok t') (w', ok t)
      → Records v.log key hash t'
      → Records w'.log key hash t
  returned v w' t t' key hash e r =
      let same_world : v ≡ w' = ap (λ (x : World H × Result Transaction). x.0) e in
      let same_result : t' ≡ t = cc in
      subst (λ (x : World H). Records x.log key hash t) same_world
        (subst (λ (x : Transaction). Records v.log key hash x) same_result r)

  begin-Records :
      (j : Journal) (key : String) (p : Plan) (w w' : World H) (t : Transaction)
      → begin env j key p w ≡ (w', ok t)
      → Records w'.log key (env.digest p) t
  unfolding begin
  begin-Records j key p w w' t h =
      let a = >>=-eq-ok _ _ w w' t h in
      let b = >>=-eq-ok _ _ a.between w' t a.second in
      let c = >>=-eq-ok _ _ b.between w' t b.second in
      let d = >>=-eq-ok _ _ c.between w' t c.second in
      let e = >>=-eq-ok _ _ d.between w' t d.second in
      let f = >>=-eq-ok _ _ e.between w' t e.second in
      let g = >>=-eq-ok _ _ f.between w' t f.second in
      returned g.between w' t _ key (env.digest p) g.second
        (saved-Records _ _ f.between g.between g.value g.first refl)

  loaded :
      (w v : World H) (j : Journal)
      → load env w ≡ (v, ok j)
      → (v ≡ w) × (read_file (disk w.log) ≡ j)
  unfolding load
  loaded w v j h = ground arith

  file_of :
      (old : Option Journal) (j : Journal) (t : Transaction)
      → read_file old ≡ j
      → j.transaction ≡ some t
      → old ≡ some j
  file_of none j t e q = cc (e, q)
  file_of (some o) j t e q = ap some e

  replay-Records :
      (j : Journal) (key : String) (p : Plan) (w w' : World H) (t : Transaction)
      → read_file (disk w.log) ≡ j
      → j.request_key ≡ key
      → replay env j p w ≡ (w', ok t)
      → Records w'.log key (env.digest p) t
  unfolding replay
  replay-Records j key p w w' t e k h =
      let a = >>=-eq-ok _ _ w w' t h in
      let (same, stays) = guard-eq-ok _ _ w a.between a.value a.first in
      let (found, ends) = or_raise-eq-ok j.transaction _ a.between w' t a.second in
      record {
        file = j;
        on_disk =
            subst (λ (x : World H). disk x.log ≡ some j) (sym stays ∙ sym ends)
              (file_of (disk w.log) j t e found);
        same_key = k;
        same_hash = (eq_iff j.request_hash (env.digest p)).0 same;
        is = found;
      }

  if-eq-ok :
      (b : Bool) (m n : Action H Transaction) (w w' : World H) (t : Transaction)
      → (log_key hash : String) → (b ≡ true → m w ≡ (w', ok t) → Records w'.log log_key hash t)
      → (b ≡ false → n w ≡ (w', ok t) → Records w'.log log_key hash t)
      → (if b then m else n) w ≡ (w', ok t)
      → Records w'.log log_key hash t
  if-eq-ok true m n w w' t k x p q h = p refl h
  if-eq-ok false m n w w' t k x p q h = q refl h

  record Prepared (key : String) (p : Plan) (w' : World H) (t : Transaction) : Type 0 where
    planned : validate_plan p ≡ none
    keyed : is_request_key key ≡ true
    records : Records w'.log key (env.digest p) t

  prepare-Prepared :
      (key : String) (p : Plan) (w w' : World H) (t : Transaction)
      → prepare env key p w ≡ (w', ok t)
      → Prepared key p w' t
  unfolding prepare
  prepare-Prepared key p w w' t h =
      let a = >>=-eq-ok _ _ w w' t h in
      let b = >>=-eq-ok _ _ a.between w' t a.second in
      let c = >>=-eq-ok _ _ b.between w' t b.second in
      let (planned, e₁) = refuse-eq-ok _ w a.between a.value a.first in
      let (keyed, e₂) = guard-eq-ok _ _ a.between b.between b.value b.first in
      let (e₃, read) = loaded b.between c.between c.value c.first in
      record {
        planned = planned;
        keyed = keyed;
        records =
            if-eq-ok (str_eq c.value.request_key key) (replay env c.value p)
              (begin env c.value key p) c.between w' t key (env.digest p)
              (λ q.
                replay-Records c.value key p c.between w' t
                  (subst (λ (x : World H). read_file (disk x.log) ≡ c.value) (sym e₃) read)
                  ((eq_iff c.value.request_key key).0 q))
              (λ q. begin-Records c.value key p c.between w' t) c.second;
      }

  -- After a `Prepare` that returned a transaction, the same key and plan give that transaction again,
  -- from any later world whose journal is the one left behind and can be read, and change nothing.
  pub prepare_again :
      (key : String) (p : Plan) (w w' v : World H) (t : Transaction) (j : Journal)
      → prepare env key p w ≡ (w', ok t)
      → disk v.log ≡ disk w'.log
      → IsLoaded env v j
      → prepare env key p v ≡ (v, ok t)
  unfolding prepare replay ◌>>=◌ refuse guard or_raise
  prepare_again key p w w' v t j h same l =
      let r = prepare-Prepared key p w w' t h in
      ground (
        arith,
        load-IsLoaded env v j l,
        r.planned,
        r.keyed,
        r.records.on_disk,
        r.records.same_key,
        r.records.same_hash,
        r.records.is,
        eq_iff j.request_key key,
        eq_iff j.request_hash (env.digest p),
      )

  -- After a `Prepare` that returned a transaction, the same key with a valid plan of another digest is
  -- refused as a conflict, from any later world whose journal is the one left behind and can be read,
  -- and changes nothing.
  pub prepare_conflict :
      (key : String) (p q : Plan) (w w' v : World H) (t : Transaction) (j : Journal)
      → prepare env key p w ≡ (w', ok t)
      → disk v.log ≡ disk w'.log
      → IsLoaded env v j
      → validate_plan q ≡ none
      → env.digest q ≢ env.digest p
      → prepare env key q v ≡ (v, err conflict)
  unfolding prepare replay ◌>>=◌ refuse guard or_raise
  prepare_conflict key p q w w' v t j h same l valid other =
      let r = prepare-Prepared key p w w' t h in
      ground (
        arith,
        load-IsLoaded env v j l,
        r.planned,
        r.keyed,
        r.records.on_disk,
        r.records.same_key,
        r.records.same_hash,
        r.records.is,
        eq_iff j.request_key key,
        eq_iff j.request_hash (env.digest q),
      )
