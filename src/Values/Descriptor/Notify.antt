-- ===== src/Values/Descriptor/Notify.antt =====
-- clap/include/clap/detail/value_descriptor.h: the types of the values of a descriptor, and `Notify` on them.
use asap_clap.Base.{
  ℕ, List, [], ◌∷◌, ◌++◌, done, true, Option, none, some, Text, ◌≡◌, refl, arith, IfSome,
}
use asap_clap.Values.ParseValue.{ValueType}
use asap_clap.Values.{Any}
use asap_clap.Values.Typed.{parse_value-holds, holds, any_cast-holds}
use asap_clap.Values.Descriptor.{
  ValueDescriptor, parse, with_text, apply_default, apply_implicit, Effect, assigns, calls,
  with_pointee, notify,
}

-- The default and the implicit value have the type of the descriptor. `DefaultValue` and
-- `ImplicitValue` take a `const T &`, so that a descriptor has no others.
pub record IsTyped (t : ValueType) (d : ValueDescriptor) : Type 0 where
  pub same_type : d.value_type ≡ t
  pub default_typed : IfSome (λ v. holds t v ≡ true) d.default_value
  pub implicit_typed : IfSome (λ v. holds t v ≡ true) d.implicit_value

with_text-some :
    (t : ValueType) (o : Option Any) (s s' : Text) (v : Any)
    → IfSome (λ v. holds t v ≡ true) o
    → with_text s o ≡ some (v, s')
    → holds t v ≡ true
with_text-some t none s s' v h e = absurd cc
with_text-some t (some w) s s' v h e = let same : w ≡ v = ground arith in rw (← same) h

pub apply_default-holds :
    (t : ValueType) (d : ValueDescriptor) (s : Text) (v : Any)
    → IsTyped t d
    → apply_default d ≡ some (v, s)
    → holds t v ≡ true
unfolding apply_default
apply_default-holds t d s v h e =
    with_text-some t d.default_value d.default_value_as_text s v h.default_typed e

pub apply_implicit-holds :
    (t : ValueType) (d : ValueDescriptor) (s : Text) (v : Any)
    → IsTyped t d
    → apply_implicit d ≡ some (v, s)
    → holds t v ≡ true
unfolding apply_implicit
apply_implicit-holds t d s v h e =
    with_text-some t d.implicit_value d.implicit_value_as_text s v h.implicit_typed e

pub parse-holds :
    (t : ValueType) (d : ValueDescriptor) (s : Text) (v : Any)
    → IsTyped t d
    → parse d s ≡ some v
    → holds t v ≡ true
unfolding parse
parse-holds t d s v h e = rw (← h.same_type) (parse_value-holds d.value_type s v e)

-- The effects that the settings of the descriptor ask for.
abbrev effect_of : (ℕ → Any → Effect) → Any → Option ℕ → List Effect
effect_of effect v none = []
effect_of effect v (some n) = effect n v ∷ []

abbrev pub effects_of : ValueDescriptor → Any → List Effect
effects_of d v = effect_of assigns v d.store_to ++ effect_of calls v d.notifier

with_pointee-some :
    (effect : ℕ → Any → Effect) (v : Any) (target : Option ℕ)
    → with_pointee effect target (some v) ≡ done (effect_of effect v target)
unfolding with_pointee
with_pointee-some effect v none = refl
with_pointee-some effect v (some n) = refl

pub notify-holds :
    (d : ValueDescriptor) (v : Any)
    → holds d.value_type v ≡ true
    → notify d v ≡ done (effects_of d v)
unfolding notify
notify-holds d v h =
    rw (any_cast-holds d.value_type v h, with_pointee-some, with_pointee-some calls) refl
