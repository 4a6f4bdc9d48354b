-- ===== src/Common/Programs.antt =====
-- Programs that read and change the state `W` of the outside world and may fail with an error of
-- type `E`. What was done before a failure stays done.

use mathlib.Core.Logic.{◌⊎◌, inl, inr}
use mathlib.Core.Path.{◌≡◌, refl}

pub data Result {ℓ} (E A : Type ℓ) : Type ℓ where
  ok : A → Result E A
  err : E → Result E A

abbrev pub Exec {ℓ} : Type ℓ → Type ℓ → Type ℓ → Type ℓ
Exec W E A = W → Result E A × W

module _ {ℓ} {W E A B : Type ℓ} where
  abbrev pub continue : Result E A → (A → Exec W E B) → Exec W E B
  continue (ok a) f w = f a w
  continue (err c) f w = (err c, w)

  infixl 5 ◌>>=◌ ◌>>◌
  abbrev pub ◌>>=◌ : Exec W E A → (A → Exec W E B) → Exec W E B
  ◌>>=◌ m f w = let (r, w') = m w in continue r f w'

  abbrev pub ◌>>◌ : Exec W E A → Exec W E B → Exec W E B
  m >> n = m >>= λ _. n

module _ {ℓ} {W E A : Type ℓ} where
  abbrev pub pure : A → Exec W E A
  pure a w = (ok a, w)

  abbrev pub fail : E → Exec W E A
  fail c w = (err c, w)

-- `m` keeps `P`, whether it returns or fails.
abbrev pub Keeps {ℓ} : {W E A : Type ℓ} → (W → Type ℓ) → Exec W E A → Type ℓ
Keeps P m = (w : _) → P w → P (m w).1

module _ {ℓ} {W E A B : Type ℓ} (P : W → Type ℓ) where
  Keeps-continue :
      (r : Result E A) (f : A → Exec W E B) → ((a : A) → Keeps P (f a)) → Keeps P (continue r f)
  Keeps-continue (ok a) f kf = kf a
  Keeps-continue (err c) f kf = λ w h. h

  pub Keeps-bind :
      (m : Exec W E A) (f : A → Exec W E B)
      → Keeps P m
      → ((a : A) → Keeps P (f a))
      → Keeps P (m >>= f)
  Keeps-bind m f km kf w h = Keeps-continue (m w).0 f kf (m w).1 (km w h)

-- What holds of the rest of the program for each value, and of a failure, holds of the whole.
pub continue_elim {ℓ} :
    {W E A B : Type ℓ} (Q : Result E B × W → Type ℓ) (r : Result E A) (f : A → Exec W E B) (w : W)
    → ((a : A) → r ≡ ok a → Q (f a w))
    → ((c : E) → r ≡ err c → Q (err c, w))
    → Q (continue r f w)
continue_elim Q (ok a) f w good bad = good a refl
continue_elim Q (err c) f w good bad = bad c refl

pub Result-cases {ℓ} :
    {E A : Type ℓ} (r : Result E A) → ((a : A) × (r ≡ ok a)) ⊎ ((e : E) × (r ≡ err e))
Result-cases (ok a) = inl (a, refl)
Result-cases (err e) = inr (e, refl)

-- A result with a value has `Q`.
abbrev pub Returns {ℓ} : {W E A : Type ℓ} → (A → W → Type ℓ) → Result E A × W → Type ℓ
Returns Q (ok a, w) = Q a w
Returns Q (err c, w) = Unit

module _ {ℓ} {W E A B : Type ℓ} (Q : A → W → Type ℓ) (R : B → W → Type ℓ) where
  Returns-continue :
      (x : Result E A × W) (f : A → Exec W E B)
      → Returns Q x
      → ((a : A) (w : W) → Q a w → Returns R (f a w))
      → Returns R (continue x.0 f x.1)
  Returns-continue (ok a, w) f h k = k a w h
  Returns-continue (err c, w) f h k = tt

  pub Returns-bind :
      (m : Exec W E A) (f : A → Exec W E B) (w : W)
      → Returns Q (m w)
      → ((a : A) (w' : W) → Q a w' → Returns R (f a w'))
      → Returns R ((m >>= f) w)
  Returns-bind m f w = Returns-continue (m w) f

pub Returns-pair {ℓ} :
    {W E A : Type ℓ} (Q : A → Type ℓ) (P : W → Type ℓ) (x : Result E A × W)
    → Returns (λ a _. Q a) x
    → P x.1
    → Returns (λ a w. Q a × P w) x
Returns-pair Q P (ok a, w) q p = (q, p)
Returns-pair Q P (err c, w) q p = tt

pub Returns-weaken {ℓ} :
    {W E A : Type ℓ} (Q R : A → W → Type ℓ) (x : Result E A × W)
    → Returns Q x
    → ((a : A) (w : W) → Q a w → R a w)
    → Returns R x
Returns-weaken Q R (ok a, w) h f = f a w h
Returns-weaken Q R (err c, w) h f = tt

pub Returns-after {ℓ} :
    {W E A : Type ℓ} (P : W → Type ℓ) (x : Result E A × W) → P x.1 → Returns (λ _ w. P w) x
Returns-after P (ok a, w) h = h
Returns-after P (err c, w) h = tt

-- The program has not failed.
abbrev pub IsOk {ℓ} : {W E A : Type ℓ} → Result E A × W → Type 0
IsOk (ok a, w) = Unit
IsOk (err c, w) = ⊥

module _ {ℓ} {W E A B : Type ℓ} where
  IsOk-continue :
      (x : Result E A × W) (f : A → Exec W E B)
      → IsOk x
      → ((a : A) (w : W) → IsOk (f a w))
      → IsOk (continue x.0 f x.1)
  IsOk-continue (ok a, w) f h k = k a w
  IsOk-continue (err c, w) f h k = absurd h

  pub IsOk-bind :
      (m : Exec W E A) (f : A → Exec W E B) (w : W)
      → IsOk (m w)
      → ((a : A) (v : W) → IsOk (f a v))
      → IsOk ((m >>= f) w)
  IsOk-bind m f w = IsOk-continue (m w) f

pub IsOk-result {ℓ} :
    {W E A : Type ℓ} (x : Result E A × W) → IsOk x → (a : A) × (w : W) × (x ≡ (ok a, w))
IsOk-result (ok a, w) h = (a, w, refl)
IsOk-result (err c, w) h = absurd h
