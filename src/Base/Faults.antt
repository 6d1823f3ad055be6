-- ===== src/Base/Faults.antt =====
-- What a call of the program comes to: a value, or a point from where the source says nothing more.
use mathlib.Core.Path.{◌≡◌, refl}
use mathlib.Core.Bool.{Bool, true, false}
use mathlib.Core.Option.{Option, none, some}
use asap_clap.Base.Bytes.{Text}

-- `contract_violation` is a failed ASAP_EXPECT, ASAP_ASSERT or ASAP_ENSURE; `undefined_behaviour` is
-- a use of a null pointer or of an element of an empty vector; `exception` leaves the call with a
-- text.
pub data Fault : Type 0 where
  contract_violation undefined_behaviour : Fault
  exception : Text → Fault

pub data Outcome {ℓ} (A : Type ℓ) : Type ℓ where
  done : A → Outcome A
  fault : Fault → Outcome A

infixl 5 ◌>>=◌ ◌>>◌
abbrev pub ◌>>=◌ {ℓ κ} : {A : Type ℓ} {B : Type κ} → Outcome A → (A → Outcome B) → Outcome B
done a >>= f = f a
fault x >>= f = fault x

abbrev pub ◌>>◌ {ℓ} : {B : Type ℓ} → Outcome (Unit {0}) → Outcome B → Outcome B
m >> k = m >>= λ _. k

-- ASAP_EXPECT, ASAP_ASSERT, ASAP_ENSURE
abbrev pub require : Bool → Outcome (Unit {0})
require true = done tt
require false = fault contract_violation

-- The use of a pointer, or of an element, that may not be there.
abbrev pub deref {ℓ} : {A : Type ℓ} → Option A → Outcome A
deref none = fault undefined_behaviour
deref (some a) = done a

pub >>=-eq-done {ℓ κ} :
    {A : Type ℓ} {B : Type κ} (m : Outcome A) (f : A → Outcome B) {b : B}
    → (m >>= f) ≡ done b
    → (a : A) × (m ≡ done a) × (f a ≡ done b)
>>=-eq-done (done a) f h = (a, refl, h)
>>=-eq-done (fault x) f h = cc

-- To use that a chain of calls comes to a value, use that both of its parts do.
pub >>=-elim {ℓ κ μ} :
    {A : Type ℓ} {B : Type κ} {C : Type μ} (m : Outcome A) (f : A → Outcome B) {b : B}
    → (m >>= f) ≡ done b
    → ((a : A) → m ≡ done a → f a ≡ done b → C)
    → C
>>=-elim (done a) f h k = k a refl h
>>=-elim (fault x) f h k = absurd cc
