-- ===== src/GoMap.antt =====
-- Go's built-in `map`: an association list, with the reads and writes that the program uses.
-- Iteration order is that of the list; Go leaves it open, so no statement depends on it.
use mathlib.Core.Path.{subst}
use glusterd.Prelude.{
  sym, inl, inr, ==-cases, suc, ◌≡◌, refl, ap, Bool, true, false, Option, none, some, List, [], ◌∷◌,
  arith, Eq, ◌==◌, length, String, string_eq, eq_iff, contains, IsUnique, if◌then◌else◌,
}

abbrev pub GoMap {ℓ κ} : Type ℓ → Type κ → Type (ℓ ⊔ κ)
GoMap K V = List (K × V)

module _ {ℓ κ} {K : Type ℓ} {V : Type κ} ⦃e : Eq K⦄ where
  -- v, ok := m[key]
  unfoldable pub lookup : K → GoMap K V → Option V
  lookup key [] = none
  lookup key ((k, value) ∷ rest) = if k == key then some value else lookup key rest

  -- m[key] = value, in the place that the key has
  unfoldable pub insert : K → V → GoMap K V → GoMap K V
  insert key value [] = (key, value) ∷ []
  insert key value ((k, old) ∷ rest) =
      let rest' = insert key value rest in
      if k == key then (key, value) ∷ rest else (k, old) ∷ rest'

  -- delete(m, k)
  unfoldable pub delete : K → GoMap K V → GoMap K V
  delete k [] = []
  delete k ((j, w) ∷ m) = let rest = delete k m in if j == k then rest else (j, w) ∷ rest

  -- _, ok := m[k]
  unfoldable pub has : K → GoMap K V → Bool
  unfolding lookup
  has k m = elim (lookup k m) [ none ↦ false | some _ ↦ true ]

  -- A key that is read gives the value just stored, if it is that key, and else what it gave.
  pub lookup-insert :
      (key asked : K) (value : V) (m : GoMap K V)
      → lookup asked (insert key value m) ≡ (if key == asked then some value else lookup asked m)
  unfolding insert lookup
  lookup-insert key asked value [] = refl
  lookup-insert key asked value ((k, old) ∷ rest) =
      let later = lookup-insert key asked value rest in
      ground (arith, later, e.same_iff k key, e.same_iff k asked, e.same_iff key asked)

  pub lookup-delete :
      (k j : K) (m : GoMap K V) → lookup j (delete k m) ≡ (if k == j then none else lookup j m)
  unfolding lookup delete
  lookup-delete k j [] = ground arith
  lookup-delete k j ((i, w) ∷ m) =
      ground (arith, e.same_iff k j, e.same_iff i k, e.same_iff i j, lookup-delete k j m)

  pub length-insert :
      (k : K) (v : V) (m : GoMap K V)
      → length (insert k v m) ≡ (if has k m then length m else suc (length m))
  unfolding insert has
  length-insert k v [] = refl
  length-insert k v ((i, w) ∷ m) = ground (arith, length-insert k v m)

  pub has-insert :
      (k j : K) (v : V) (m : GoMap K V) → has j (insert k v m) ≡ (if k == j then true else has j m)
  unfolding has
  has-insert k j v m = ground (arith, lookup-insert k j v m)

  pub has-delete :
      (k j : K) (m : GoMap K V) → has j (delete k m) ≡ (if k == j then false else has j m)
  unfolding has
  has-delete k j m = ground (arith, lookup-delete k j m)

  pub has_of_lookup : (k : K) (v : V) (m : GoMap K V) → lookup k m ≡ some v → has k m ≡ true
  unfolding has
  has_of_lookup k v m h = ground arith

  pub lookup_of_not_has : (k : K) (m : GoMap K V) → has k m ≡ false → lookup k m ≡ none
  unfolding has
  lookup_of_not_has k m h = ground arith

pub ruleset map_laws = (lookup-insert, lookup-delete, has-insert, has-delete)

module _ {ℓ κ} {K : Type ℓ} {V : Type κ} ⦃e : Eq K⦄ where
  pub lookup-nil : (k : K) → lookup {V = V} k [] ≡ none
  unfolding lookup
  lookup-nil k = refl

  pub has-cons :
      (k j : K) (v : V) (m : GoMap K V) → has k ((j, v) ∷ m) ≡ (if j == k then true else has k m)
  unfolding has lookup
  has-cons k j v m = ground arith

module _ {ℓ κ} {K : Type ℓ} {V : Type κ} where
  abbrev pub keys : GoMap K V → List K
  keys [] = []
  keys ((k, v) ∷ m) = k ∷ keys m

-- What the first gives, and else the second.
abbrev pub or_else {ℓ} : {A : Type ℓ} → Option A → Option A → Option A
or_else a b = elim a [ some v ↦ some v | none ↦ b ]

-- for key, value := range new { options[key] = value }
unfoldable pub insert_all : GoMap String String → GoMap String String → GoMap String String
insert_all [] options = options
insert_all ((k, v) ∷ new) options = insert_all new (insert k v options)

lookup_of_no_key :
    (k : String) (m : GoMap String String) → contains k (keys m) ≡ false → lookup k m ≡ none
unfolding lookup
lookup_of_no_key k [] h = refl
lookup_of_no_key k ((j, v) ∷ m) h = ground (arith, h, lookup_of_no_key k m)

pub lookup-insert_all :
    (new options : GoMap String String) (k : String)
    → IsUnique (keys new)
    → lookup k (insert_all new options) ≡ or_else (lookup k new) (lookup k options)
unfolding insert_all lookup
lookup-insert_all [] options k unique = refl
lookup-insert_all ((j, v) ∷ new) options k (fresh, unique) =
    let later = lookup-insert_all new (insert j v options) k unique in
    let gone = lookup_of_no_key j new fresh in
    let same : j ≡ k → lookup j new ≡ lookup k new = λ e. ap (λ (x : String). lookup x new) e in
    ground (arith, later, gone, same, lookup-insert j k v options, eq_iff j k)

module _ {ℓ κ} {K : Type ℓ} {V : Type κ} ⦃e : Eq K⦄ where
  contains-keys-insert :
      (j k : K) (v : V) (m : GoMap K V)
      → contains j (keys (insert k v m)) ≡ (if k == j then true else contains j (keys m))
  unfolding insert
  contains-keys-insert j k v [] = ground arith
  contains-keys-insert j k v ((i, w) ∷ m) =
      ground (arith, contains-keys-insert j k v m, e.same_iff i k, e.same_iff i j, e.same_iff k j)

  pub keys-insert-IsUnique :
      (k : K) (v : V) (m : GoMap K V) → IsUnique (keys m) → IsUnique (keys (insert k v m))
  unfolding insert
  keys-insert-IsUnique k v [] unique = (refl, tt)
  keys-insert-IsUnique k v ((i, w) ∷ m) (fresh, unique) =
      let later = keys-insert-IsUnique k v m unique in
      let there = contains-keys-insert i k v m in
      elim (==-cases i k) [
        | inl (same, p) ↦
            subst (λ (b : Bool). IsUnique (keys (if b then (k, v) ∷ m else (i, w) ∷ insert k v m)))
              (sym same) (subst (λ (x : K). contains x (keys m) ≡ false) p fresh, unique)
        | inr (other, p) ↦
            subst (λ (b : Bool). IsUnique (keys (if b then (k, v) ∷ m else (i, w) ∷ insert k v m)))
              (sym other)
              (ground (arith, there, fresh, e.same_iff k i, e.same_iff i k, other), later)
      ]
