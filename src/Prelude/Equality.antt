-- ===== src/Prelude/Equality.antt =====
-- Rust's `==` for the types the daemon compares: numbers, byte strings and paths.
use Prim.Native.Nat.{ℕ}
use mathlib.Core.Path.{◌≡◌, refl}
use mathlib.Core.Logic.{◌↔◌, ◌≢◌}
use mathlib.Core.Bool.{Bool, true, false, ◌&&◌}
use mathlib.Core.List.{List, [], ◌∷◌}
use native.Mathlib.Omega.{arith}
use omafile.Prelude.Tests.{nat_beq, nat_beq_iff}

pub record Comparable {ℓ} (A : Type ℓ) : Type ℓ where
  pub equal : A → A → Bool
  pub equal_iff : (a b : A) → (equal a b ≡ true) ↔ (a ≡ b)

infix 50 ◌==◌
abbrev pub ◌==◌ {ℓ} : {A : Type ℓ} ⦃c : Comparable A⦄ → A → A → Bool
◌==◌ ⦃c⦄ = c.equal

pub ==_iff {ℓ} : {A : Type ℓ} ⦃c : Comparable A⦄ (a b : A) → ((a == b) ≡ true) ↔ (a ≡ b)
==_iff ⦃c⦄ a b = c.equal_iff a b

pub ==_refl {ℓ} : {A : Type ℓ} ⦃c : Comparable A⦄ (a : A) → (a == a) ≡ true
==_refl ⦃c⦄ a = (c.equal_iff a a).1 refl

pub ==_ne {ℓ} : {A : Type ℓ} ⦃c : Comparable A⦄ (a b : A) → a ≢ b → (a == b) ≡ false
==_ne ⦃c⦄ a b h = ground (arith, c.equal_iff a b)

instance abbrev pub nat_eq : Comparable ℕ
nat_eq = record { equal = nat_beq; equal_iff = nat_beq_iff }

module _ {ℓ} {A : Type ℓ} ⦃c : Comparable A⦄ where
  unfoldable pub list_beq : List A → List A → Bool
  list_beq [] [] = true
  list_beq [] (y ∷ ys) = false
  list_beq (x ∷ xs) [] = false
  list_beq (x ∷ xs) (y ∷ ys) = x == y && list_beq xs ys

  pub list_beq_iff : (xs ys : List A) → (list_beq xs ys ≡ true) ↔ (xs ≡ ys)
  unfolding list_beq
  list_beq_iff [] [] = ground arith
  list_beq_iff [] (y ∷ ys) = ground arith
  list_beq_iff (x ∷ xs) [] = ground arith
  list_beq_iff (x ∷ xs) (y ∷ ys) = ground (arith, c.equal_iff x y, list_beq_iff xs ys)

  instance abbrev pub list_eq : Comparable (List A)
  list_eq = record { equal = list_beq; equal_iff = list_beq_iff }
