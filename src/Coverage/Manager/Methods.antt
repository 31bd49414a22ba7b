-- ===== src/Coverage/Manager/Methods.antt =====
-- Every method of transaction.go keeps the log in order, from its first check on.
use route_harbor.Prelude.{
  ℕ, ◌≡◌, ◌≢◌, refl, ap, subst, ◌∙◌, Bool, true, false, List, ◌∷◌, Option, none, some, String,
  arith, if◌then◌else◌,
}
use route_harbor.Coverage.{
  Transaction, State, prepared, applying, unknown, not_found, Error, invalid_state,
}
use route_harbor.Coverage.Journal.{
  Journal, WirelessSnapshot, check_journal, check_transaction, reject, is_unknown,
}
use route_harbor.Coverage.World.{
  World, Env, Event, wrote, armed, applied_plan, Action, ok, ◌>>=◌, or_raise, guard, refuse, clock,
  disk, read_file, load,
}
use route_harbor.Coverage.History.{Edge, IsHistory, IsReady}
use route_harbor.Coverage.Manager.Rules.{Safe, quiet, At, At-event, saves}
use route_harbor.Coverage.Manager.Histories.{changed-Safe, arm_failure-Safe}
use route_harbor.Coverage.Manager.{apply_armed, apply_prepared, arm_failure}
use route_harbor.Coverage.Calls.{
  with_transaction, named, is_state, check_current, do_check, do_arm, do_apply, applying_at, arming,
}

pub is_state-eq : (s t : State) → is_state s t ≡ true → s ≡ t
is_state-eq s t h = ground arith

named-eq-some :
    (id : String) (o : Option Transaction) (t : Transaction) → named id o ≡ some t → o ≡ some t
named-eq-some id none t h = cc
named-eq-some id (some x) t h = ground arith

-- An early return.
pub guards :
    {H A : Type 0} (log : List Event) (b : Bool) (e : Error) (f : Unit {0} → Action H A)
    → (w : World H) → IsHistory log
    → w.log ≡ log
    → (b ≡ true → (w' : World H) → w'.log ≡ log → Safe (f tt w'))
    → Safe ((guard b e >>= f) w)
unfolding guard ◌>>=◌
guards log true e f w h l k = k refl w l
guards log false e f w h l k = rw l h

pub log-guard : {H : Type 0} (b : Bool) (e : Error) (w : World H) → (guard b e w).0.log ≡ w.log
unfolding guard
log-guard true e w = refl
log-guard false e w = refl

pub log-or_raise :
    {H A : Type 0} (o : Option A) (e : Error) (w : World H) → (or_raise o e w).0.log ≡ w.log
unfolding or_raise
log-or_raise none e w = refl
log-or_raise (some a) e w = refl

pub log-clock : {H : Type 0} (w : World H) → (clock w).0.log ≡ w.log
unfolding clock
log-clock w = refl

pub log-refuse : {H : Type 0} (o : Option Error) (w : World H) → (refuse o w).0.log ≡ w.log
unfolding refuse
log-refuse none w = refl
log-refuse (some e) w = refl

pub reject-none :
    (b : Bool) (e : Error) (m : Option Error) → reject b e m ≡ none → (b ≡ false) × (m ≡ none)
unfolding reject
reject-none true e m h = cc
reject-none false e m h = (refl, h)

known_text :
    (decode : List ℕ → Option WirelessSnapshot) (j : Journal) (t : Transaction)
    → check_transaction decode j t ≡ none
    → t.state ≢ unknown
unfolding check_transaction
known_text decode j t c u =
    let (named_well, c₁) = reject-none _ _ _ c in
    let (planned_well, c₂) = reject-none _ _ _ c₁ in
    let (known, c₃) = reject-none _ _ _ c₂ in cc (ap is_unknown u, known)

-- `locked` refuses a transaction whose state is another text.
pub known_state :
    (decode : List ℕ → Option WirelessSnapshot) (j : Journal) (t : Transaction)
    → check_journal decode j ≡ none
    → j.transaction ≡ some t
    → t.state ≢ unknown
unfolding check_journal
known_state decode j t c e u = known_text decode j t (rw (e, check_journal) at c) u

pub At-read_file :
    (log : List Event) (old : Option Journal) (j : Journal) (t : Transaction)
    → disk log ≡ old
    → read_file old ≡ j
    → j.transaction ≡ some t
    → At log j t
At-read_file log none j t d e p = cc (e, p)
At-read_file log (some o) j t d e p = record {
  file = o;
  on_disk = d;
  is = ap (λ (x : Journal). x.transaction) e ∙ p;
  same_key = ap (λ (x : Journal). x.request_key) e;
  same_hash = ap (λ (x : Journal). x.request_hash) e;
}

module _ {H : Type 0} (env : Env H) where
  pub log-load : (w : World H) → (load env w).0.log ≡ w.log
  unfolding load
  log-load w = ground arith

  load-eq-ok :
      (w : World H) (j : Journal)
      → (load env w).1 ≡ ok j
      → (read_file (disk w.log) ≡ j) × (check_journal env.decode j ≡ none)
  unfolding load
  load-eq-ok w j h = ground arith

  pub log-check_current :
      (j : Journal) (t : Transaction) (w : World H) → (check_current env j t w).0.log ≡ w.log
  unfolding check_current do_check ◌>>=◌ or_raise guard
  log-check_current j t w = ground arith

  module _ {A : Type 0} where
    -- The journal that was read, and the transaction that it holds.
    pub loads :
        (log : List Event) (f : Journal → Action H A) (w : World H)
        → IsHistory log
        → w.log ≡ log
        → ((j : Journal) (w' : World H)
            → w'.log ≡ log
            → read_file (disk log) ≡ j
            → check_journal env.decode j ≡ none
            → Safe (f j w'))
        → Safe ((load env >>= f) w)
    loads log f w h l k = quiet log (load env) f w h l (log-load w) (λ j w' l' r.
        let (e, c) = load-eq-ok w j r in k j w' l' (subst (λ x. read_file (disk x) ≡ j) l e) c)

    pub finds :
        (log : List Event) (id : String) (j : Journal) (f : Transaction → Action H A) (w : World H)
        → IsHistory log
        → w.log ≡ log
        → read_file (disk log) ≡ j
        → ((t : Transaction) (w' : World H)
            → w'.log ≡ log
            → At log j t
            → j.transaction ≡ some t
            → Safe (f t w'))
        → Safe ((or_raise (named id j.transaction) not_found >>= f) w)
    unfolding ◌>>=◌ or_raise
    finds log id j f w h l e k = go (named id j.transaction) (named-eq-some id j.transaction)
      where
        go :
            (o : Option Transaction)
            → ((t : Transaction) → o ≡ some t → j.transaction ≡ some t)
            → Safe ((or_raise o not_found >>= f) w)
        go none q = rw l h
        go (some t) q = k t w l (At-read_file log (disk log) j t refl e (q t refl)) (q t refl)

  armed-IsReady :
      (log : List Event) (j : Journal) (t : Transaction)
      → t.state ≡ applying
      → IsReady t.plan (armed t.id ∷ wrote (with_transaction j t) ∷ log)
  armed-IsReady log j t e = record {
    journal = with_transaction j t;
    transaction = t;
    earlier = log;
    shape = refl;
    is = refl;
    state = e;
    plan = refl;
  }

  armed-Safe :
      (log : List Event) (j : Journal) (t : Transaction) (w : World H) (unarmed : Bool)
      → IsHistory (wrote (with_transaction j t) ∷ log)
      → At (wrote (with_transaction j t) ∷ log) j t
      → t.state ≡ applying
      → w.log ≡ arming unarmed t.id ∷ wrote (with_transaction j t) ∷ log
      → Safe ((if unarmed then arm_failure env j t else apply_armed env j t) w)
  unfolding apply_armed do_apply ◌>>=◌
  armed-Safe log j t w true h a e l = arm_failure-Safe env _ j t w h (At-event refl a) e l
  armed-Safe log j t w false h a e l =
      changed-Safe env (applied_plan t.plan ∷ armed t.id ∷ wrote (with_transaction j t) ∷ log) j t _
        (env.apply w.hw t.plan).1 (armed-IsReady log j t e, h) (At-event refl a) e
        (ap (λ x. applied_plan t.plan ∷ x) l)

  arming-Safe :
      (log : List Event) (j : Journal) (t : Transaction) (arm : H → String → H × Bool) (w : World H)
      → IsHistory (wrote (with_transaction j t) ∷ log)
      → At (wrote (with_transaction j t) ∷ log) j t
      → t.state ≡ applying
      → w.log ≡ wrote (with_transaction j t) ∷ log
      → Safe (
          (do_arm env arm t.id >>= λ unarmed.
          if unarmed then arm_failure env j t else apply_armed env j t)
            w)
  unfolding do_arm ◌>>=◌
  arming-Safe log j t arm w h a e l =
      armed-Safe log j t _ (arm w.hw t.id).1 h a e (ap (λ x. arming (arm w.hw t.id).1 t.id ∷ x) l)

  pub apply_prepared-Safe :
      (log : List Event) (j : Journal) (t : Transaction) (timeout : ℕ) (w : World H)
      → IsHistory log
      → At log j t
      → w.log ≡ log
      → Safe (apply_prepared env j t timeout w)
  unfolding apply_prepared
  apply_prepared-Safe log j t timeout w h a l =
      guards log (is_state t.state prepared) invalid_state _ w h l λ first w₁ l₁.
        let e : t.state ≡ prepared = is_state-eq t.state prepared first in
        quiet log _ _ w₁ h l₁ (log-check_current j t w₁) λ u₂ w₂ l₂ r₂.
          quiet log _ _ w₂ h l₂ (log-or_raise env.arm _ w₂) λ arm w₃ l₃ r₃.
            quiet log _ _ w₃ h l₃ (log-clock w₃) λ now w₄ l₄ r₄.
              saves log j t _ (applying_at t now timeout) _ w₄ h a
                (record {
                  is = refl;
                  same_key = refl;
                  same_hash = refl;
                  edge = rw e Edge.begin;
                  same_id = refl;
                  same_plan = refl;
                })
                l₄ λ w₅ l₅ h₅ a₅. arming-Safe log j (applying_at t now timeout) arm w₅ h₅ a₅ refl l₅
