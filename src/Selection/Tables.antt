-- ===== src/Selection/Tables.antt =====
-- The maps of the selector as association lists, and sorted lists of names.
use text.Mathlib.Text.{◌==◌ as str_eq}
use text.Mathlib.TextEquality.{eq_iff}
use route_harbor.Prelude.{
  ◌≡◌, refl, arith, Bool, true, false, ◌||◌, List, [], ◌∷◌, Option, none, some, String,
  if◌then◌else◌, All,
}
use route_harbor.Prelude.Text.{codes, before}

module _ {A : Type 0} where
  abbrev pub lookup : String → List (String × A) → Option A
  lookup id [] = none
  lookup id (kv ∷ kvs) = if str_eq kv.0 id then some kv.1 else lookup id kvs

  abbrev pub put : String → A → List (String × A) → List (String × A)
  put id a [] = (id, a) ∷ []
  put id a (kv ∷ kvs) =
      let rest = put id a kvs in if str_eq kv.0 id then (id, a) ∷ kvs else kv ∷ rest

  abbrev pub has : String → List (String × A) → Bool
  has id [] = false
  has id (kv ∷ kvs) = str_eq kv.0 id || has id kvs

  abbrev pub keep : (String → Bool) → List (String × A) → List (String × A)
  keep p [] = []
  keep p (kv ∷ kvs) = let rest = keep p kvs in if p kv.0 then kv ∷ rest else rest

  -- The names of the entries that pass a test.
  abbrev pub names : (String → A → Bool) → List (String × A) → List String
  names p [] = []
  names p (kv ∷ kvs) = let rest = names p kvs in if p kv.0 kv.1 then kv.0 ∷ rest else rest

abbrev pub map_values : {A B : Type 0} → (A → B) → List (String × A) → List (String × B)
map_values f [] = []
map_values f (kv ∷ kvs) = (kv.0, f kv.1) ∷ map_values f kvs

abbrev pub map_option : {A B : Type 0} → (A → B) → Option A → Option B
map_option f none = none
map_option f (some a) = some (f a)

abbrev pub mem : String → List String → Bool
mem id [] = false
mem id (x ∷ xs) = str_eq x id || mem id xs

-- `sort.Strings`
abbrev insert_name : String → List String → List String
insert_name x [] = x ∷ []
insert_name x (y ∷ ys) =
    let rest = insert_name x ys in if before (codes y) (codes x) then y ∷ rest else x ∷ y ∷ ys

abbrev pub sort_names : List String → List String
sort_names [] = []
sort_names (x ∷ xs) = insert_name x (sort_names xs)

pub lookup-map_values :
    {A B : Type 0}
    → (f : A → B) (id : String) (kvs : List (String × A))
    → lookup id (map_values f kvs) ≡ map_option f (lookup id kvs)
lookup-map_values f id [] = refl
lookup-map_values f id (kv ∷ kvs) = ground (arith, lookup-map_values f id kvs)

pub lookup-keep :
    {A : Type 0}
    → (p : String → Bool) (id : String) (kvs : List (String × A)) → p id ≡ true
    → lookup id (keep p kvs) ≡ lookup id kvs
lookup-keep p id [] h = refl
lookup-keep p id (kv ∷ kvs) h = ground (arith, lookup-keep p id kvs h, eq_iff kv.0 id)

All-insert_name :
    (p : String → Bool) (x : String) (ys : List String)
    → p x ≡ true
    → All (λ y. p y ≡ true) ys
    → All (λ y. p y ≡ true) (insert_name x ys)
All-insert_name p x [] h hs = (h, tt)
All-insert_name p x (y ∷ ys) h hs = ground (arith, All-insert_name p x ys h hs.1)

pub All-sort_names :
    (p : String → Bool) (xs : List String)
    → All (λ y. p y ≡ true) xs
    → All (λ y. p y ≡ true) (sort_names xs)
All-sort_names p [] hs = tt
All-sort_names p (x ∷ xs) hs = All-insert_name p x (sort_names xs) hs.0 (All-sort_names p xs hs.1)

pub All-names :
    {A : Type 0}
    → (p : String → A → Bool) (q : String → Bool) (kvs : List (String × A))
    → ((id : String) (a : A) → p id a ≡ true → q id ≡ true)
    → All (λ y. q y ≡ true) (names p kvs)
All-names p q [] h = tt
All-names p q (kv ∷ kvs) h = ground (arith, All-names p q kvs h, h kv.0 kv.1)
