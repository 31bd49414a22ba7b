-- ===== src/Effects/Rules.antt =====
-- Logs in which every event is in order, given what came before it, and how actions keep them so.
use route_harbor.Prelude.{◌≡◌, refl, ap, ◌∙◌, Bool, true, false, List, [], ◌∷◌, ◌++◌, if◌then◌else◌}
use route_harbor.Effects.{
  Event, wrote, did, Write, done, lost_before, lost_after, World, Result, ok, err, Action, call,
  call_noted, continue, ◌>>=◌, guard, write_file, save, tried, try_save,
}

module _ {J C : Type 0} (IsDue : Event J C → List (Event J C) → Type 0) where
  abbrev pub IsOrdered : List (Event J C) → Type 0
  IsOrdered [] = Unit {0}
  IsOrdered (e ∷ log) = IsDue e log × IsOrdered log

  pub IsOrdered-tail : (lost log : List (Event J C)) → IsOrdered (lost ++ log) → IsOrdered log
  IsOrdered-tail [] log h = h
  IsOrdered-tail (e ∷ lost) log h = IsOrdered-tail lost log h.1

  module _ {H : Type 0} where
    pub ends :
        (log : List (Event J C)) (w : World J C H) → IsOrdered log → w.log ≡ log → IsOrdered w.log
    ends log w h e = rw e h

  module _ {H X A : Type 0} where
    -- The log is in order, whatever the result.
    abbrev pub Safe : World J C H × Result X A → Type 0
    Safe r = IsOrdered r.0.log

    pub either-Safe :
        (b : Bool) (m n : Action J C H X A) (w : World J C H)
        → (b ≡ true → Safe (m w))
        → (b ≡ false → Safe (n w))
        → Safe ((if b then m else n) w)
    either-Safe true m n w p q = p refl
    either-Safe false m n w p q = q refl

  module _ {H X A B : Type 0} where
    continue-Safe :
        (r : Result X A) (f : A → Action J C H X B) (w : World J C H)
        → IsOrdered w.log
        → ((a : A) → r ≡ ok a → Safe (f a w))
        → Safe (continue r f w)
    continue-Safe (ok a) f w h k = k a refl
    continue-Safe (err e) f w h k = h

    -- A step that adds nothing to the log.
    pub quiet :
        (log : List (Event J C)) (m : Action J C H X A) (f : A → Action J C H X B) (w : World J C H)
        → IsOrdered log
        → w.log ≡ log
        → (m w).0.log ≡ w.log
        → ((a : A) (w' : World J C H) → w'.log ≡ log → (m w).1 ≡ ok a → Safe (f a w'))
        → Safe ((m >>= f) w)
    unfolding ◌>>=◌
    quiet log m f w h e same k =
        continue-Safe (m w).1 f (m w).0 (rw (same, e) h) (λ a r. k a (m w).0 (same ∙ e) r)

    -- A step that is safe by itself, before one that is safe after any.
    pub follow :
        (m : Action J C H X A) (f : A → Action J C H X B) (w : World J C H)
        → Safe (m w)
        → ((a : A) (w' : World J C H) → IsOrdered w'.log → Safe (f a w'))
        → Safe ((m >>= f) w)
    unfolding ◌>>=◌
    follow m f w h k = continue-Safe (m w).1 f (m w).0 h (λ a r. k a (m w).0 h)

    -- A call that is in order.
    pub calls :
        (log : List (Event J C)) (c : C) (g : H → H × A) (f : A → Action J C H X B)
        → (w : World J C H) → IsOrdered log
        → IsDue (did c) log
        → w.log ≡ log
        → ((a : A) (w' : World J C H) → w'.log ≡ did c ∷ log → Safe (f a w'))
        → Safe ((call c g >>= f) w)
    unfolding ◌>>=◌ call
    calls log c g f w h d l k = k _ _ (ap (λ t. did c ∷ t) l)

    -- A call that is in order however it ends.
    pub calls_noted :
        (log : List (Event J C)) (c : A → C) (g : H → H × A) (f : A → Action J C H X B)
        → (w : World J C H) → IsOrdered log
        → ((a : A) → IsDue (did (c a)) log)
        → w.log ≡ log
        → ((a : A) (w' : World J C H) → w'.log ≡ did (c a) ∷ log → Safe (f a w'))
        → Safe ((call_noted c g >>= f) w)
    unfolding ◌>>=◌ call_noted
    calls_noted log c g f w h d l k = k (g w.hw).1 _ (ap (λ t. did (c (g w.hw).1) ∷ t) l)

  module _ {H X B : Type 0} where
    pub guards :
        (log : List (Event J C)) (b : Bool) (e : X) (f : Unit {0} → Action J C H X B)
        → (w : World J C H) → IsOrdered log
        → w.log ≡ log
        → (b ≡ true → (w' : World J C H) → w'.log ≡ log → Safe (f tt w'))
        → Safe ((guard b e >>= f) w)
    unfolding ◌>>=◌ guard
    guards log true e f w h l k = k refl w l
    guards log false e f w h l k = rw l h

    written-Safe :
        (log : List (Event J C)) (e : X) (ws : List Write) (j : J)
        → (f : Unit {0} → Action J C H X B) (w : World J C H) → IsOrdered log
        → IsDue (wrote j) log
        → w.log ≡ log
        → ((w' : World J C H) → w'.log ≡ wrote j ∷ log → Safe (f tt w'))
        → Safe ((write_file e ws j >>= f) w)
    unfolding ◌>>=◌
    written-Safe log e [] j f w h d l k = k _ (ap (λ t. wrote j ∷ t) l)
    written-Safe log e (done ∷ ws) j f w h d l k = k _ (ap (λ t. wrote j ∷ t) l)
    written-Safe log e (lost_before ∷ ws) j f w h d l k = rw l h
    written-Safe log e (lost_after ∷ ws) j f w h d l k = rw l (d, h)

    -- The journal is saved, or the action ends with the file as it was or as it shall be.
    pub saves :
        (log : List (Event J C)) (e : X) (j : J) (f : Unit {0} → Action J C H X B)
        → (w : World J C H) → IsOrdered log
        → IsDue (wrote j) log
        → w.log ≡ log
        → ((w' : World J C H) → w'.log ≡ wrote j ∷ log → Safe (f tt w'))
        → Safe ((save e j >>= f) w)
    unfolding ◌>>=◌ save
    saves log e j f w h d l k = written-Safe log e w.writes j f w h d l k

    tried-Safe :
        (log : List (Event J C)) (e : X) (ws : List Write) (j : J)
        → (f : Bool → Action J C H X B) (w : World J C H) → IsOrdered log
        → IsDue (wrote j) log
        → w.log ≡ log
        → ((w' : World J C H) → w'.log ≡ wrote j ∷ log → Safe (f true w'))
        → ((w' : World J C H) → w'.log ≡ log → Safe (f false w'))
        → ((w' : World J C H) → w'.log ≡ wrote j ∷ log → Safe (f false w'))
        → Safe (((λ v. tried (write_file e ws j v)) >>= f) w)
    unfolding ◌>>=◌
    tried-Safe log e [] j f w h d l k lost half = k _ (ap (λ t. wrote j ∷ t) l)
    tried-Safe log e (done ∷ ws) j f w h d l k lost half = k _ (ap (λ t. wrote j ∷ t) l)
    tried-Safe log e (lost_before ∷ ws) j f w h d l k lost half = lost _ l
    tried-Safe log e (lost_after ∷ ws) j f w h d l k lost half = half _ (ap (λ t. wrote j ∷ t) l)

    pub tries :
        (log : List (Event J C)) (e : X) (j : J) (f : Bool → Action J C H X B)
        → (w : World J C H) → IsOrdered log
        → IsDue (wrote j) log
        → w.log ≡ log
        → ((w' : World J C H) → w'.log ≡ wrote j ∷ log → Safe (f true w'))
        → ((w' : World J C H) → w'.log ≡ log → Safe (f false w'))
        → ((w' : World J C H) → w'.log ≡ wrote j ∷ log → Safe (f false w'))
        → Safe ((try_save e j >>= f) w)
    unfolding ◌>>=◌ try_save
    tries log e j f w h d l k lost half = tried-Safe log e w.writes j f w h d l k lost half
