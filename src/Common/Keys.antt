-- ===== src/Common/Keys.antt =====
-- Signed integers, and types with a Boolean equality, which are the keys of Go's maps.
use Prim.Native.Nat.{ℕ}
use Prim.Native.String.{String}
use mathlib.Core.Bool.{Bool, true, false}
use mathlib.Core.Logic.{◌↔◌, ◌≢◌, inl, inr}
use mathlib.Core.Path.{◌≡◌, refl}
use native.Mathlib.Omega.{arith}
use text.Mathlib.Text.{◌==◌ as str_eq}
use text.Mathlib.TextEquality.{eq_iff}
use hcloud_cloud_controller.Common.Tests.{Bool-cases, leb, nat_eq, nat_eq_iff}

-- `negsuc n` is -(n + 1).
pub data ℤ : Type 0 where
  pos : ℕ → ℤ
  negsuc : ℕ → ℤ

abbrev pub int_eq : ℤ → ℤ → Bool
int_eq (pos a) (pos b) = nat_eq a b
int_eq (negsuc a) (negsuc b) = nat_eq a b
int_eq _ _ = false

abbrev pub int_le : ℤ → ℤ → Bool
int_le (pos a) (pos b) = leb a b
int_le (pos a) (negsuc b) = false
int_le (negsuc a) (pos b) = true
int_le (negsuc a) (negsuc b) = leb b a

pub int_eq_iff : (a b : ℤ) → (int_eq a b ≡ true) ↔ (a ≡ b)
int_eq_iff (pos a) (pos b) = (λ h. ground arith, λ h. ground arith)
int_eq_iff (negsuc a) (negsuc b) = (λ h. ground arith, λ h. ground arith)
int_eq_iff (pos a) (negsuc b) = (λ h. ground arith, λ h. ground arith)
int_eq_iff (negsuc a) (pos b) = (λ h. ground arith, λ h. ground arith)

pub record Eq {ℓ} (A : Type ℓ) : Type ℓ where
  pub test : A → A → Bool
  pub test_iff : (x y : A) → (test x y ≡ true) ↔ (x ≡ y)

infix 50 ◌==◌
abbrev pub ◌==◌ {ℓ} : {K : Type ℓ} ⦃keys : Eq K⦄ → K → K → Bool
◌==◌ ⦃keys⦄ = keys.test

instance abbrev pub Eq-nat : Eq ℕ
Eq-nat = record { test = nat_eq; test_iff = nat_eq_iff }

instance abbrev pub Eq-string : Eq String
Eq-string = record { test = str_eq; test_iff = eq_iff }

instance abbrev pub Eq-int : Eq ℤ
Eq-int = record { test = int_eq; test_iff = int_eq_iff }

pub text_iff : (s t : String) → ((s == t) ≡ true) ↔ (s ≡ t)
text_iff s t = Eq-string.test_iff s t

pub text_ne : (s t : String) → ((s == t) ≡ false) ↔ (s ≢ t)
text_ne s t = (
  λ h e. absurd (let k = (text_iff s t).1 e in cc),
  λ h. elim (Bool-cases (s == t)) [
    | inl same ↦ absurd (h ((text_iff s t).0 same))
    | inr other ↦ other
  ],
)

pub ==-refl {ℓ} : {A : Type ℓ} ⦃e : Eq A⦄ (a : A) → (a == a) ≡ true
==-refl ⦃e⦄ a = (e.test_iff a a).1 refl
