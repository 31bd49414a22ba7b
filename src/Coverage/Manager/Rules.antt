-- ===== src/Coverage/Manager/Rules.antt =====
-- Rules for the methods of transaction.go: how each kind of step extends a log that is in order.
use route_harbor.Prelude.{
  ◌≡◌, refl, sym, ap, ◌∙◌, inl, inr, Bool, true, false, List, [], ◌∷◌, some, if◌then◌else◌,
}
use route_harbor.Coverage.{Transaction}
use route_harbor.Coverage.Journal.{Journal}
use route_harbor.Coverage.World.{
  World, Write, done, lost_before, lost_after, Event, wrote, Action, Result, ok, err, continue,
  ◌>>=◌, save, write_file, disk,
}
use route_harbor.Coverage.History.{Edge, Begins, IsHistory}

pub either-Safe :
    {H A : Type 0} (b : Bool) (m n : Action H A) (w : World H)
    → (b ≡ true → IsHistory (m w).0.log)
    → (b ≡ false → IsHistory (n w).0.log)
    → IsHistory ((if b then m else n) w).0.log
either-Safe true m n w p q = p refl
either-Safe false m n w p q = q refl

module _ {H A : Type 0} where
  -- The log is in order, whatever the result.
  abbrev pub Safe : World H × Result A → Type 0
  Safe r = IsHistory r.0.log

module _ {H : Type 0} where
  pub ends : (log : List Event) (w : World H) → IsHistory log → w.log ≡ log → IsHistory w.log
  ends log w h e = rw e h

module _ {H A B : Type 0} where
  continue-Safe :
      (r : Result A) (f : A → Action H B) (w : World H)
      → IsHistory w.log
      → ((a : A) → r ≡ ok a → Safe (f a w))
      → Safe (continue r f w)
  continue-Safe (ok a) f w h k = k a refl
  continue-Safe (err e) f w h k = h

  -- A step that adds nothing to the log.
  pub quiet :
      (log : List Event) (m : Action H A) (f : A → Action H B) (w : World H)
      → IsHistory log
      → w.log ≡ log
      → (m w).0.log ≡ w.log
      → ((a : A) (w' : World H) → w'.log ≡ log → (m w).1 ≡ ok a → Safe (f a w'))
      → Safe ((m >>= f) w)
  unfolding ◌>>=◌
  quiet log m f w h e same k =
      continue-Safe (m w).1 f (m w).0 (rw (same, e) h) (λ a r. k a (m w).0 (same ∙ e) r)

  -- A step that is safe by itself, before one that is safe after any.
  pub follow :
      (m : Action H A) (f : A → Action H B) (w : World H)
      → Safe (m w)
      → ((a : A) (w' : World H) → IsHistory w'.log → Safe (f a w'))
      → Safe ((m >>= f) w)
  unfolding ◌>>=◌
  follow m f w h k = continue-Safe (m w).1 f (m w).0 h (λ a r. k a (m w).0 h)

-- The journal file holds transaction `t`, requested as in `j`.
pub record At (log : List Event) (j : Journal) (t : Transaction) : Type 0 where
  pub file : Journal
  pub on_disk : disk log ≡ some file
  pub is : file.transaction ≡ some t
  pub same_key : file.request_key ≡ j.request_key
  pub same_hash : file.request_hash ≡ j.request_hash

-- The file is as it was after any event that is no write.
pub At-event :
    {log log' : List Event} {j : Journal} {t : Transaction}
    → disk log' ≡ disk log
    → At log j t
    → At log' j t
At-event e a = record {
  file = a.file;
  on_disk = e ∙ a.on_disk;
  is = a.is;
  same_key = a.same_key;
  same_hash = a.same_hash;
}

-- `new` may be written over `t`: it is a move to `t'`.
pub record Fits (j : Journal) (t : Transaction) (new : Journal) (t' : Transaction) : Type 0 where
  pub is : new.transaction ≡ some t'
  pub same_key : new.request_key ≡ j.request_key
  pub same_hash : new.request_hash ≡ j.request_hash
  pub edge : Edge t.state t'.state
  pub same_id : t'.id ≡ t.id
  pub same_plan : t'.plan ≡ t.plan

pub Fits-IsHistory :
    (log : List Event) (j : Journal) (t : Transaction) (new : Journal) (t' : Transaction)
    → IsHistory log
    → At log j t
    → Fits j t new t'
    → IsHistory (wrote new ∷ log)
Fits-IsHistory log j t new t' h a f = (
  inr (
    a.file,
    a.on_disk,
    record {
      before = t;
      after = t';
      was = a.is;
      is = f.is;
      edge = f.edge;
      same_id = f.same_id;
      same_plan = f.same_plan;
      same_key = f.same_key ∙ sym a.same_key;
      same_hash = f.same_hash ∙ sym a.same_hash;
    },
  ),
  h,
)

pub Fits-At :
    (log : List Event) (j : Journal) (t : Transaction) (new : Journal) (t' : Transaction)
    → Fits j t new t'
    → At (wrote new ∷ log) j t'
Fits-At log j t new t' f = record {
  file = new;
  on_disk = refl;
  is = f.is;
  same_key = f.same_key;
  same_hash = f.same_hash;
}

module _ {H : Type 0} where
  written_last :
      (log : List Event) (j : Journal) (w : World H) (ws : List Write)
      → IsHistory log
      → w.log ≡ log
      → IsHistory (wrote j ∷ log)
      → Safe (write_file ws j w)
  written_last log j w [] h l next = rw l next
  written_last log j w (done ∷ ws) h l next = rw l next
  written_last log j w (lost_before ∷ ws) h l next = rw l h
  written_last log j w (lost_after ∷ ws) h l next = rw l next

  -- A save that is not followed by another step.
  pub saves_last :
      (log : List Event) (j : Journal) (t : Transaction) (new : Journal) (t' : Transaction)
      → (w : World H) → IsHistory log
      → At log j t
      → Fits j t new t'
      → w.log ≡ log
      → Safe (save new w)
  unfolding save
  saves_last log j t new t' w h a fits l =
      written_last log new w w.writes h l (Fits-IsHistory log j t new t' h a fits)

module _ {H B : Type 0} where
  written-Safe :
      (log : List Event) (j : Journal) (f : Unit {0} → Action H B) (w : World H) (ws : List Write)
      → IsHistory log
      → w.log ≡ log
      → IsHistory (wrote j ∷ log)
      → ((w' : World H) → w'.log ≡ wrote j ∷ log → Safe (f tt w'))
      → Safe ((write_file ws j >>= f) w)
  unfolding ◌>>=◌
  written-Safe log j f w [] h l next k = k _ (ap (λ t. wrote j ∷ t) l)
  written-Safe log j f w (done ∷ ws) h l next k = k _ (ap (λ t. wrote j ∷ t) l)
  written-Safe log j f w (lost_before ∷ ws) h l next k = rw l h
  written-Safe log j f w (lost_after ∷ ws) h l next k = rw l next

  -- The journal is saved as it moves, or the action ends with the file as it was or as it shall be.
  pub saves :
      (log : List Event) (j : Journal) (t : Transaction) (new : Journal) (t' : Transaction)
      → (f : Unit {0} → Action H B) (w : World H) → IsHistory log
      → At log j t
      → Fits j t new t'
      → w.log ≡ log
      → ((w' : World H)
          → w'.log ≡ wrote new ∷ log
          → IsHistory (wrote new ∷ log)
          → At (wrote new ∷ log) j t'
          → Safe (f tt w'))
      → Safe ((save new >>= f) w)
  unfolding save ◌>>=◌
  saves log j t new t' f w h a fits l k =
      let next = Fits-IsHistory log j t new t' h a fits in
      written-Safe log new f w w.writes h l next
        (λ w' l'. k w' l' next (Fits-At log j t new t' fits))

  -- A new transaction is saved.
  pub begins :
      (log : List Event) (new : Journal) (f : Unit {0} → Action H B) (w : World H)
      → IsHistory log
      → Begins (disk log) new
      → w.log ≡ log
      → ((w' : World H) → w'.log ≡ wrote new ∷ log → IsHistory (wrote new ∷ log) → Safe (f tt w'))
      → Safe ((save new >>= f) w)
  unfolding save ◌>>=◌
  begins log new f w h b l k =
      written-Safe log new f w w.writes h l (inl b, h) (λ w' l'. k w' l' (inl b, h))
