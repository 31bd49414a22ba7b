-- ===== src/Node/Transactions/Kept.antt =====
-- Rules for the methods of internal/node/transaction.go: how a step extends a log that is in order.
use route_harbor.Prelude.{◌≡◌, refl, Bool, List, [], ◌∷◌, some}
use route_harbor.Effects.{
  wrote, did, disk, World, Write, done, lost_before, lost_after, Result, call, call_noted, ◌>>=◌,
  save, write_file,
}
use route_harbor.Effects.Rules.{saves, calls, calls_noted}
use route_harbor.Node.Transactions.{
  Transaction, Journal, Command, Failure, Step, Error, storage_failed, bare,
}
use route_harbor.Node.Transactions.Manager.{store, with_transaction, save_then}
use route_harbor.Node.Transactions.History.{Edge, IsClean, Change, Allowed, IsDue, IsHistory}

-- The journal on disk is `j` with the transaction `d`.
pub record Ready {H : Type 0} (w : World Journal Command H) (j : Journal) (d : Transaction)
    : Type 0 where
  pub ordered : IsHistory w.log
  pub on_disk : disk w.log ≡ some (with_transaction j d)

-- `new` may be written over `d`: it is a move to `t`.
pub record Fits (j : Journal) (d : Transaction) (new : Journal) (t : Transaction) : Type 0 where
  pub is : new.transaction ≡ some t
  pub edge : Edge d.state t.state
  pub same_id : t.id ≡ d.id
  pub same_request : (new.request_key ≡ j.request_key) × (new.request_hash ≡ j.request_hash)
  pub clean : IsClean new t

module _ {H : Type 0} where
  Fits-Change :
      (w : World Journal Command H) (j : Journal) (d : Transaction) (new : Journal)
      (t : Transaction)
      → Ready w j d
      → Fits j d new t
      → Change (disk w.log) new
  Fits-Change w j d new t r f =
      Change.moves (with_transaction j d) d t r.on_disk refl f.is f.edge f.same_id f.same_request
        f.clean

  pub Ready-same :
      (w w' : World Journal Command H) (j : Journal) (d : Transaction)
      → Ready w j d
      → w'.log ≡ w.log
      → Ready w' j d
  Ready-same w w' j d r l = record { ordered = rw l r.ordered; on_disk = rw l r.on_disk }

module _ {H : Type 0} where
  saved_last :
      (x : Failure) (ws : List Write) (new : Journal) (w : World Journal Command H)
      → IsHistory w.log
      → Change (disk w.log) new
      → IsHistory (write_file x ws new w).0.log
  saved_last x [] new w h c = (c, h)
  saved_last x (done ∷ ws) new w h c = (c, h)
  saved_last x (lost_before ∷ ws) new w h c = h
  saved_last x (lost_after ∷ ws) new w h c = (c, h)

module _ {H A : Type 0} where
  abbrev pub Safe : World Journal Command H × Result Failure A → Type 0
  Safe r = IsHistory r.0.log

  -- The journal moves from `d` to `t`, or the step ends with the file as it was or as it shall be.
  pub stores :
      (w : World Journal Command H) (j : Journal) (d : Transaction) (new : Journal)
      → (t : Transaction) (f : Unit {0} → Step H A) → Ready w j d
      → Fits j d new t
      → ((w' : World Journal Command H)
          → IsHistory w'.log
          → w'.log ≡ wrote new ∷ w.log
          → Safe (f tt w'))
      → Safe ((store new >>= f) w)
  unfolding store
  stores w j d new t f r fits k =
      let c = Fits-Change w j d new t r fits in
      saves IsDue w.log _ new f w r.ordered c refl (λ w' l. k w' (rw l (c, r.ordered)) l)

  -- A move that leaves the rest of the journal as it is.
  pub moves_on :
      (w : World Journal Command H) (j : Journal) (d t : Transaction) (f : Unit {0} → Step H A)
      → Ready w j d
      → Fits j d (with_transaction j t) t
      → ((w' : World Journal Command H)
          → Ready w' j t
          → w'.log ≡ wrote (with_transaction j t) ∷ w.log
          → Safe (f tt w'))
      → Safe ((store (with_transaction j t) >>= f) w)
  moves_on w j d t f r fits k =
      stores w j d (with_transaction j t) t f r fits
        (λ w' h l. k w' (record { ordered = h; on_disk = rw l refl }) l)

  -- A call that is in order; the file stays.
  pub does :
      (w : World Journal Command H) (j : Journal) (d : Transaction) (c : Command)
      → (g : H → H × Bool) (f : Bool → Step H A) → Ready w j d
      → Allowed c w.log
      → ((b : Bool) (w' : World Journal Command H)
          → Ready w' j d
          → w'.log ≡ did c ∷ w.log
          → Safe (f b w'))
      → Safe ((call c g >>= f) w)
  does w j d c g f r a k =
      calls IsDue w.log c g f w r.ordered a refl
        (λ b w' l. k b w' (record { ordered = rw l (a, r.ordered); on_disk = rw l r.on_disk }) l)

  -- A call that is in order however it ends; the file stays.
  pub does_noted :
      (w : World Journal Command H) (j : Journal) (d : Transaction) (c : Bool → Command)
      → (g : H → H × Bool) (f : Bool → Step H A) → Ready w j d
      → ((b : Bool) → Allowed (c b) w.log)
      → ((b : Bool) (w' : World Journal Command H)
          → Ready w' j d
          → w'.log ≡ did (c b) ∷ w.log
          → Safe (f b w'))
      → Safe ((call_noted c g >>= f) w)
  does_noted w j d c g f r a k =
      calls_noted IsDue w.log c g f w r.ordered a refl
        (λ b w' l. k b w' (record { ordered = rw l (a b, r.ordered); on_disk = rw l r.on_disk }) l)

module _ {H : Type 0} where
  -- A save on an error path.
  pub saves_last :
      (w : World Journal Command H) (j : Journal) (d : Transaction) (new : Journal)
      → (t : Transaction) (x y : Error) → Ready w j d
      → Fits j d new t
      → Safe (save_then new x y w)
  unfolding save_then save
  saves_last w j d new t x y r fits =
      saved_last (bare storage_failed) w.writes new w r.ordered (Fits-Change w j d new t r fits)
