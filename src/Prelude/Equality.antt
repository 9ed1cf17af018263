-- ===== src/Prelude/Equality.antt =====
-- Decidable equality as an interface, with its instances for the keys that the program uses.
use Prim.Native.Nat.{ℕ}
use Prim.Native.String.{String}
use mathlib.Core.Path.{◌≡◌}
use mathlib.Core.Logic.{◌↔◌, inl, inr}
use mathlib.Core.Bool.{Bool, true, false, ◌&&◌, ◌||◌}
use mathlib.Core.List.{List, [], ◌∷◌}
use native.Mathlib.Omega.{arith}
use text.Mathlib.Text.{◌==◌ as str_eq}
use text.Mathlib.TextEquality.{eq_iff}
use swh_loader_core.Prelude.Tests.{nat_beq, nat_beq_iff}
use swh_loader_core.Prelude.Lists.{Within}

-- A type of keys, with the test for equality and what the test decides.
pub record Eq {ℓ} (K : Type ℓ) : Type ℓ where
  pub beq : (j k : K) → Bool
  pub beq_iff : (j k : K) → (beq j k ≡ true) ↔ (j ≡ k)

-- Texts and numbers compare natively.
instance abbrev pub string_eq : Eq String
string_eq = record { beq_iff = eq_iff; beq = str_eq }

instance abbrev pub nat_eq : Eq ℕ
nat_eq = record { beq_iff = nat_beq_iff; beq = nat_beq }

-- `j == k`
infix 50 ◌==◌
abbrev pub ◌==◌ {ℓ} : {K : Type ℓ} ⦃keys : Eq K⦄ (j k : K) → Bool
◌==◌ ⦃keys⦄ j k = keys.beq j k

module _ {A B : Type 0} ⦃a : Eq A⦄ ⦃b : Eq B⦄ where
  abbrev pub pair_beq : A × B → A × B → Bool
  pair_beq x y = a.beq x.0 y.0 && b.beq x.1 y.1

  pub pair_beq_iff : (x y : A × B) → (pair_beq x y ≡ true) ↔ (x ≡ y)
  pair_beq_iff x y = ground (arith, a.beq_iff x.0 y.0, b.beq_iff x.1 y.1)

  instance abbrev pub pair_eq : Eq (A × B)
  pair_eq = record { beq = pair_beq; beq_iff = pair_beq_iff }

-- `x in xs`
module _ {A : Type 0} ⦃e : Eq A⦄ where
  abbrev pub contains : List A → A → Bool
  contains [] a = false
  contains (x ∷ xs) a = a == x || contains xs a

  pub contains→Within : (xs : List A) (a : A) → contains xs a ≡ true → Within a xs
  contains→Within [] a h = ground arith
  contains→Within (x ∷ xs) a h = ground (arith, e.beq_iff a x, contains→Within xs a)

  pub Within→contains : (xs : List A) (a : A) → Within a xs → contains xs a ≡ true
  Within→contains [] a h = elim h [ ]
  Within→contains (x ∷ xs) a h = ground (arith, e.beq_iff a x, Within→contains xs a)

  -- No element stands twice.
  abbrev pub Different : List A → Type 0
  Different [] = Unit
  Different (x ∷ xs) = (contains xs x ≡ false) × Different xs

  -- `s.add(a)` on a set, which is a list without repetition.
  abbrev pub add : A → List A → List A
  add a xs = elim (contains xs a) [ true ↦ xs | false ↦ a ∷ xs ]

  pub Within-add : (a b : A) (xs : List A) → Within a xs → Within a (add b xs)
  Within-add a b xs w = ground arith

  pub Within-add_self : (a : A) (xs : List A) → Within a (add a xs)
  Within-add_self a xs = ground (arith, contains→Within xs a)

  -- `set(xs)`
  abbrev pub to_set : List A → List A
  to_set [] = []
  to_set (x ∷ xs) = add x (to_set xs)

  pub Within-to_set : (a : A) (xs : List A) → Within a xs → Within a (to_set xs)
  Within-to_set a [] h = elim h [ ]
  Within-to_set a (x ∷ xs) (inl e) = rw e (Within-add_self x (to_set xs))
  Within-to_set a (x ∷ xs) (inr w) = Within-add a x (to_set xs) (Within-to_set a xs w)
