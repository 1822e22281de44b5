-- ===== src/Prelude/Keys.antt =====
-- Equality of map keys as an interface: Go's `==` on comparable types, and `uuid.Equal`.
use Prim.Native.Nat.{ℕ}
use Prim.Native.String.{String}
use mathlib.Core.Path.{◌≡◌, refl, ap}
use mathlib.Core.Logic.{◌↔◌, ◌⊎◌, inl, inr}
use mathlib.Core.Bool.{Bool, true, false}
use mathlib.Core.Option.{Option, none, some}
use text.Mathlib.Text.{◌==◌ as str_eq}
use text.Mathlib.TextEquality.{eq_iff}
use mathlib.Core.List.{List, [], ◌∷◌}
use glusterd.Prelude.Tests.{nat_beq, nat_beq_iff, if◌then◌else◌}

-- The test of a type of keys, and that it is equality.
pub record Eq {ℓ} (K : Type ℓ) : Type ℓ where
  pub same : K → K → Bool
  pub same_iff : (j k : K) → (same j k ≡ true) ↔ (j ≡ k)

instance abbrev pub string_eq : Eq String
string_eq = record { same = str_eq; same_iff = eq_iff }

infix 50 ◌==◌
abbrev pub ◌==◌ {ℓ} : {K : Type ℓ} ⦃eq : Eq K⦄ → K → K → Bool
◌==◌ ⦃eq⦄ = eq.same

-- A pointer or an interface value: `nil` is `none`.
abbrev pub option_beq {ℓ} : {A : Type ℓ} → (A → A → Bool) → Option A → Option A → Bool
option_beq eq none none = true
option_beq eq none (some b) = false
option_beq eq (some a) none = false
option_beq eq (some a) (some b) = eq a b

pub option_beq_iff {ℓ} :
    {A : Type ℓ} (eq : A → A → Bool) (eq_law : (a b : A) → (eq a b ≡ true) ↔ (a ≡ b))
    (a b : Option A)
    → (option_beq eq a b ≡ true) ↔ (a ≡ b)
option_beq_iff eq l none none = (λ _. refl, λ _. refl)
option_beq_iff eq l none (some b) = (λ h. cc, λ h. cc)
option_beq_iff eq l (some a) none = (λ h. cc, λ h. cc)
option_beq_iff eq l (some a) (some b) = (λ h. ap some ((l a b).0 h), λ h. (l a b).1 (cc))

instance abbrev pub nat_eq : Eq ℕ
nat_eq = record { same = nat_beq; same_iff = nat_beq_iff }

instance abbrev pub option_nat_eq : Eq (Option ℕ)
option_nat_eq = record { same = option_beq nat_beq; same_iff = option_beq_iff nat_beq nat_beq_iff }

module _ {ℓ} {A : Type ℓ} ⦃e : Eq A⦄ where
  pub ==-refl : (a : A) → (a == a) ≡ true
  ==-refl a = (e.same_iff a a).1 refl

  pub eq_of_== : (a b : A) → (a == b) ≡ true → a ≡ b
  eq_of_== a b h = (e.same_iff a b).0 h

  -- A split on the test of two keys.
  pub ==-cases : (a b : A) → ((a == b) ≡ true) × (a ≡ b) ⊎ ((a == b) ≡ false) × ¬ (a ≡ b)
  ==-cases a b = go (a == b) refl
    where
      go : (t : Bool) → (a == b) ≡ t → ((a == b) ≡ true) × (a ≡ b) ⊎ ((a == b) ≡ false) × ¬ (a ≡ b)
      go true h = inl (h, eq_of_== a b h)
      go false h = inr (h, λ p. cc (h, (e.same_iff a b).1 p))

module _ {ℓ} {A : Type ℓ} ⦃e : Eq A⦄ where
  -- A loop that looks for a value in a slice.
  abbrev pub contains : A → List A → Bool
  contains a [] = false
  contains a (x ∷ xs) = if x == a then true else contains a xs

  abbrev pub IsUnique : List A → Type ℓ
  IsUnique [] = Unit
  IsUnique (x ∷ xs) = (contains x xs ≡ false) × IsUnique xs
