-- ===== src/Common/Maps.antt =====
-- A Go map as an association list; `insert` is `m[k] = v`.
use mathlib.Core.Bool.{Bool, true, false, ◌||◌}
use mathlib.Core.List.{List, [], ◌∷◌, ◌++◌}
use mathlib.Core.Option.{Option, none, some}
use mathlib.Core.Logic.{◌⊎◌, inl, inr}
use mathlib.Core.Path.{◌≡◌, refl, subst}
use native.Mathlib.Omega.{arith}
use hcloud_cloud_controller.Common.Tests.{if◌then◌else◌, Bool-cases}
use hcloud_cloud_controller.Common.Lists.{All}
use hcloud_cloud_controller.Common.Keys.{Eq, ◌==◌}

module _ {ℓ} {K V : Type ℓ} ⦃e : Eq K⦄ where
  unfoldable pub lookup : K → List (K × V) → Option V
  lookup key [] = none
  lookup key ((first, x) ∷ rest) = if first == key then some x else lookup key rest

  unfoldable pub insert : K → V → List (K × V) → List (K × V)
  insert key x [] = (key, x) ∷ []
  insert key x ((first, y) ∷ rest) =
      if first == key then (key, x) ∷ rest else (first, y) ∷ insert key x rest

  pub lookup-insert :
      (key other : K) (x : V) (m : List (K × V))
      → lookup other (insert key x m) ≡ (if key == other then some x else lookup other m)
  unfolding lookup insert
  lookup-insert key other x [] = refl
  lookup-insert key other x ((first, y) ∷ rest) = ground (
    arith,
    lookup-insert key other x rest,
    e.test_iff key other,
    e.test_iff first key,
    e.test_iff first other,
  )

  pub All-insert :
      (P : K × V → Type ℓ) (k : K) (v : V) (m : List (K × V))
      → P (k, v)
      → All P m
      → All P (insert k v m)
  unfolding insert
  All-insert P k v [] p h = (p, tt)
  All-insert P k v ((j, w) ∷ m) p (q, h) = elim (Bool-cases (j == k)) [
    | inl same ↦ rw same (p, h)
    | inr other ↦ rw other (q, All-insert P k v m p h)
  ]

  pub All-lookup :
      (P : K × V → Type ℓ) (k : K) (m : List (K × V)) (v : V)
      → All P m
      → lookup k m ≡ some v
      → P (k, v)
  unfolding lookup
  All-lookup P k [] v h found = absurd (cc)
  All-lookup P k ((j, w) ∷ m) v (q, h) found = elim (Bool-cases (j == k)) [
    | inl same ↦ subst (λ (e : K × V). P e) (ground (arith, (e.test_iff j k).0 same)) q
    | inr other ↦ All-lookup P k m v h (rw other at found)
  ]

-- A set as a list of its members: a Go map to `true`.
module _ {ℓ} {K : Type ℓ} ⦃e : Eq K⦄ where
  unfoldable pub mem : K → List K → Bool
  mem k [] = false
  mem k (j ∷ s) = j == k || mem k s

  unfoldable pub include : K → List K → List K
  unfolding mem
  include k s = if mem k s then s else s ++ k ∷ []

  pub mem-cons_self : (k : K) (s : List K) → mem k (k ∷ s) ≡ true
  unfolding mem
  mem-cons_self k s = rw ((e.test_iff k k).1 refl)

  pub mem-cons_of_mem : (j k : K) (s : List K) → mem j s ≡ true → mem j (k ∷ s) ≡ true
  unfolding mem
  mem-cons_of_mem j k s h = ground arith

  mem-snoc : (j k : K) (s : List K) → mem j (s ++ k ∷ []) ≡ true → (k ≡ j) ⊎ (mem j s ≡ true)
  unfolding mem
  mem-snoc j k [] h = inl ((e.test_iff k j).0 (ground arith))
  mem-snoc j k (i ∷ s) h = elim (Bool-cases (i == j)) [
    | inl here ↦ inr (rw here refl)
    | inr other ↦ elim (mem-snoc j k s (ground arith)) [
      | inl same ↦ inl same
      | inr later ↦ inr (rw (other, later) refl)
    ]
  ]

  pub mem-include : (j k : K) (s : List K) → mem j (include k s) ≡ true → (k ≡ j) ⊎ (mem j s ≡ true)
  unfolding include
  mem-include j k s h = elim (Bool-cases (mem k s)) [
    | inl old ↦ inr (rw old at h)
    | inr new ↦ mem-snoc j k s (rw new at h)
  ]
