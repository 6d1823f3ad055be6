-- ===== src/Base/Chains.antt =====
-- What a call gives when it comes to a value, from what its parts give.
use mathlib.Core.Path.{◌≡◌, refl, subst}
use mathlib.Core.Bool.{Bool, true, false}
use mathlib.Core.Option.{Option, none, some}
use asap_clap.Base.Tests.{if◌then◌else◌}
use asap_clap.Base.Faults.{Outcome, done, fault, ◌>>=◌, ◌>>◌, require, deref}

-- Every value of the call has the property.
abbrev pub Yields {ℓ κ} : {A : Type ℓ} → (A → Type κ) → Outcome A → Type κ
Yields P (done a) = P a
Yields P (fault x) = Unit

-- An element that is there has the property.
abbrev pub IfSome {ℓ κ} : {A : Type ℓ} → (A → Type κ) → Option A → Type κ
IfSome P none = Unit
IfSome P (some a) = P a

pub Yields-done {ℓ κ} :
    {A : Type ℓ} (P : A → Type κ) (r : Outcome A) {a : A} → Yields P r → r ≡ done a → P a
Yields-done P r h e = subst (Yields P) e h

pub Yields-weaken {ℓ κ μ} :
    {A : Type ℓ} (P : A → Type κ) (Q : A → Type μ) (r : Outcome A)
    → ((a : A) → P a → Q a)
    → Yields P r
    → Yields Q r
Yields-weaken P Q (done a) f h = f a h
Yields-weaken P Q (fault x) f h = tt

pub IfSome-some {ℓ κ} :
    {A : Type ℓ} (P : A → Type κ) (o : Option A) {a : A} → IfSome P o → o ≡ some a → P a
IfSome-some P o h e = subst (IfSome P) e h

module _ {ℓ κ μ} {A : Type ℓ} {B : Type κ} (Q : B → Type μ) where
  pub >>=-Yields {ν} :
      (P : A → Type ν) (r : Outcome A) (f : A → Outcome B)
      → Yields P r
      → ((a : A) → P a → Yields Q (f a))
      → Yields Q (r >>= f)
  >>=-Yields P (done a) f h k = k a h
  >>=-Yields P (fault x) f h k = tt

  pub done-Yields :
      (r : Outcome A) (f : A → Outcome B)
      → ((a : A) → r ≡ done a → Yields Q (f a))
      → Yields Q (r >>= f)
  done-Yields (done a) f k = k a refl
  done-Yields (fault x) f k = tt

  pub deref-Yields :
      (o : Option A) (f : A → Outcome B)
      → ((a : A) → o ≡ some a → Yields Q (f a))
      → Yields Q (deref o >>= f)
  deref-Yields none f k = tt
  deref-Yields (some a) f k = k a refl

module _ {κ μ} {B : Type κ} (Q : B → Type μ) where
  pub require-Yields :
      (b : Bool) (r : Outcome B) → (b ≡ true → Yields Q r) → Yields Q (require b >> r)
  require-Yields true r k = k refl
  require-Yields false r k = tt

  pub if-Yields :
      (b : Bool) (x y : Outcome B)
      → (b ≡ true → Yields Q x)
      → (b ≡ false → Yields Q y)
      → Yields Q (if b then x else y)
  if-Yields true x y p q = p refl
  if-Yields false x y p q = q refl

pub if-holds {ℓ κ} :
    {A : Type ℓ} (P : A → Type κ) (b : Bool) (x y : A) → P x → P y → P (if b then x else y)
if-holds P true x y p q = p
if-holds P false x y p q = q

pub result-Yields {ℓ κ} :
    {A : Type ℓ} (P : A → Type κ) (r : Outcome A) → ((a : A) → r ≡ done a → P a) → Yields P r
result-Yields P (done a) k = k a refl
result-Yields P (fault x) k = tt
