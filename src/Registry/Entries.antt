-- ===== src/Registry/Entries.antt =====
-- The registry of internal/node/service.go as a map: what an insertion and a deletion leave.
use text.Mathlib.Text.{◌==◌ as str_eq}
use text.Mathlib.TextEquality.{eq_iff}
use route_harbor.Prelude.{
  ◌≡◌, refl, sym, subst, true, false, [], ◌∷◌, none, some, String, arith, Bool-cases, inl, inr,
}
use route_harbor.Coordinator.{Record}
use route_harbor.Registry.{Records, lookup, erase, Env, valid_entry, valid_registry}

pub lookup-erase : (id : String) (rs : Records) → lookup id (erase id rs) ≡ none
lookup-erase id [] = refl
lookup-erase id ((k, r) ∷ rs) = elim (Bool-cases (str_eq k id)) [
  | inl q ↦ rw q (lookup-erase id rs)
  | inr q ↦ rw (q, q) (lookup-erase id rs)
]

-- Other entries stay as they are.
pub lookup-erase_other :
    (id other : String) (rs : Records)
    → str_eq id other ≡ false
    → lookup other (erase id rs) ≡ lookup other rs
lookup-erase_other id other [] ne = refl
lookup-erase_other id other ((k, r) ∷ rs) ne = elim (Bool-cases (str_eq k id)) [
  | inl q ↦
      let differ : str_eq k other ≡ false =
        subst (λ t. str_eq t other ≡ false) (sym ((eq_iff k id).0 q)) ne in
      rw (q, differ) (lookup-erase_other id other rs ne)
  | inr q ↦ elim (Bool-cases (str_eq k other)) [
    | inl p ↦ rw (q, p) refl
    | inr p ↦ rw (q, p) (lookup-erase_other id other rs ne)
  ]
]

module _ {H : Type 0} (env : Env H) where
  pub erase-valid :
      (id : String) (rs : Records)
      → valid_registry env rs ≡ true
      → valid_registry env (erase id rs) ≡ true
  unfolding valid_registry
  erase-valid id [] h = refl
  erase-valid id ((k, r) ∷ rs) h = elim (Bool-cases (str_eq k id)) [
    | inl q ↦ rw q (erase-valid id rs (ground (arith, h)))
    | inr q ↦
        let first : valid_entry env k r ≡ true = ground (arith, h) in
        rw (q, first) (erase-valid id rs (ground (arith, h)))
  ]

  pub insert-valid :
      (id : String) (r : Record) (rs : Records)
      → valid_entry env id r ≡ true
      → valid_registry env rs ≡ true
      → valid_registry env ((id, r) ∷ erase id rs) ≡ true
  unfolding valid_registry
  insert-valid id r rs e h = rw e (erase-valid id rs h)

  pub lookup-valid :
      (id : String) (rs : Records) (r : Record)
      → valid_registry env rs ≡ true
      → lookup id rs ≡ some r
      → valid_entry env id r ≡ true
  unfolding valid_registry
  lookup-valid id [] r h e = cc
  lookup-valid id ((k, s) ∷ rs) r h e = elim (Bool-cases (str_eq k id)) [
    | inl q ↦
        let first : valid_entry env k s ≡ true = ground (arith, h) in
        let same : s ≡ r = ground (arith, e, q) in
        subst (λ t. valid_entry env t r ≡ true) ((eq_iff k id).0 q)
          (subst (λ t. valid_entry env k t ≡ true) same first)
    | inr q ↦ lookup-valid id rs r (ground (arith, h)) (ground (arith, e, q))
  ]
