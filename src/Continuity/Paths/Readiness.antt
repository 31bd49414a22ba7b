-- ===== src/Continuity/Paths/Readiness.antt =====
-- The active path after `selectPath`.
use text.Mathlib.Text.{◌==◌ as str_eq}
use text.Mathlib.TextEquality.{eq_iff}
use route_harbor.Prelude.{
  ℕ, ◌+◌, ◌≡◌, refl, ap, ◌∙◌, ◌⊎◌, inl, inr, true, ◌||◌, List, [], ◌∷◌, Option, String, arith,
  if◌then◌else◌, Bool-cases,
}
use route_harbor.Continuity.Paths.{
  Carrier, Paths, ready_in, is_ready, first_ready, chosen_path, select_path,
}

pub record IsSettled (p q : Paths) : Type 0 where
  pub paths : q.paths ≡ p.paths
  pub kept : is_ready p p.active ≡ true → q.active ≡ p.active
  pub found : (name : String) → is_ready p name ≡ true → is_ready p q.active ≡ true
  pub idle : (q.active ≡ "") ⊎ (is_ready p q.active ≡ true)
  pub counted : q.switches ≡ (
      if str_eq q.active p.active || (str_eq p.active "" || str_eq q.active "")
      then p.switches
      else p.switches + 1)

first_ready-found :
    (p : Paths) (name : String) (kvs : List (String × List (Option Carrier)))
    → is_ready p name ≡ true
    → ready_in name kvs ≡ true
    → is_ready p (first_ready p kvs) ≡ true
unfolding first_ready
first_ready-found p name [] h k = ground (arith, k)
first_ready-found p name (kv ∷ kvs) h k = elim (Bool-cases (is_ready p kv.0)) [
  | inl up ↦ rw up up
  | inr down ↦ rw down (
      first_ready-found p name kvs h
        (ground (arith, k, h, down, eq_iff kv.0 name, ap (is_ready p) {x = kv.0} {y = name})))
]

first_ready-idle :
    (p : Paths) (kvs : List (String × List (Option Carrier)))
    → (first_ready p kvs ≡ "") ⊎ (is_ready p (first_ready p kvs) ≡ true)
unfolding first_ready
first_ready-idle p [] = inl refl
first_ready-idle p (kv ∷ kvs) = elim (Bool-cases (is_ready p kv.0)) [
  | inl up ↦ rw up (inr up)
  | inr down ↦ rw down (first_ready-idle p kvs)
]

chosen_path-found :
    (p : Paths) (name : String) → is_ready p name ≡ true → is_ready p (chosen_path p) ≡ true
unfolding chosen_path
chosen_path-found p name h = elim (Bool-cases (is_ready p p.active)) [
  | inl up ↦ rw up up
  | inr down ↦ elim (Bool-cases (is_ready p p.preferred)) [
    | inl up ↦ rw (down, up) up
    | inr also_down ↦ rw (down, also_down) (first_ready-found p name p.paths h h)
  ]
]

chosen_path-idle : (p : Paths) → (chosen_path p ≡ "") ⊎ (is_ready p (chosen_path p) ≡ true)
unfolding chosen_path
chosen_path-idle p = elim (Bool-cases (is_ready p p.active)) [
  | inl up ↦ rw up (inr up)
  | inr down ↦ elim (Bool-cases (is_ready p p.preferred)) [
    | inl up ↦ rw (down, up) (inr up)
    | inr also_down ↦ rw (down, also_down) (first_ready-idle p p.paths)
  ]
]

chosen_path-kept : (p : Paths) → is_ready p p.active ≡ true → chosen_path p ≡ p.active
unfolding chosen_path
chosen_path-kept p h = rw h refl

select_path_active : (now : ℕ) (p : Paths) → (select_path now p).active ≡ chosen_path p
unfolding select_path
select_path_active now p = ground (arith, eq_iff (chosen_path p) p.active)

select_path_switches :
    (now : ℕ) (p : Paths)
    → (select_path now p).switches ≡ (
        if str_eq (chosen_path p) p.active || (str_eq p.active "" || str_eq (chosen_path p) "")
        then p.switches
        else p.switches + 1)
unfolding select_path
select_path_switches now p = ground arith

select_path_paths : (now : ℕ) (p : Paths) → (select_path now p).paths ≡ p.paths
unfolding select_path
select_path_paths now p = ground arith

-- `selectPath` keeps an active path that is ready; it finds a ready path whenever there is one, and
-- otherwise the active path is none or a ready one; it counts a switch exactly when it goes from one
-- path to another.
pub select_path-IsSettled : (now : ℕ) (p : Paths) → IsSettled p (select_path now p)
select_path-IsSettled now p = record {
  paths = select_path_paths now p;
  kept = λ h. e ∙ chosen_path-kept p h;
  found = λ name h. ap (is_ready p) e ∙ chosen_path-found p name h;
  idle = rw e (chosen_path-idle p);
  counted = rw e (select_path_switches now p);
}
  where
    e : (select_path now p).active ≡ chosen_path p
    e = select_path_active now p
