-- ===== src/Values/Descriptor.antt =====
-- clap/include/clap/value_semantics.h and detail/value_descriptor.h. ValueSemantics is the interface;
-- ValueDescriptor<T> is its only implementation, and a descriptor carries its `T`.
pub mod Notify
use asap_clap.Base.{
  ℕ, List, [], ◌∷◌, ◌++◌, Outcome, done, fault, undefined_behaviour, ◌>>=◌, Bool, true, false, not,
  Option, none, some, Text, codes, ◌≡◌, refl, arith, IfSome,
}
use asap_clap.Values.ParseValue.{ValueType, flag, parse_value}
use asap_clap.Values.{Any}
use asap_clap.Values.Typed.{parse_value-holds, holds, any_cast, any_cast-holds}

-- `store_to_` is the variable that it points to, by a number, and `notifier_` the function, by a
-- number too; `none` is a null pointer and an empty function.
pub record ValueDescriptor : Type 0 where
  pub value_type : ValueType
  pub user_friendly_name : Text
  pub default_value : Option Any
  pub default_value_as_text : Text
  pub implicit_value : Option Any
  pub implicit_value_as_text : Text
  pub repeatable : Bool
  pub store_to : Option ℕ
  pub notifier : Option ℕ

-- The constructor
abbrev pub new_descriptor : ValueType → ValueDescriptor
new_descriptor t = record {
  value_type = t;
  user_friendly_name = codes "value";
  default_value = none;
  default_value_as_text = codes "";
  implicit_value = none;
  implicit_value_as_text = codes "";
  repeatable = false;
  store_to = none;
  notifier = none;
}

abbrev is_bool : ValueType → Bool
is_bool flag = true
is_bool _ = false

abbrev pub is_flag : ValueDescriptor → Bool
is_flag d = is_bool d.value_type

abbrev pub is_some {ℓ} : {A : Type ℓ} → Option A → Bool
is_some none = false
is_some (some _) = true

-- ValueDescriptor::IsRequired: an explicit value is required unless there is an implicit one.
abbrev pub is_value_required : ValueDescriptor → Bool
is_value_required d = not (is_some d.implicit_value)

abbrev pub has_default_value : ValueDescriptor → Bool
has_default_value d = is_some d.default_value

-- DefaultValue(value, textual), ImplicitValue(value, textual) and Repeatable()
abbrev pub set_default_value : Any → Text → ValueDescriptor → ValueDescriptor
set_default_value v textual d = record d { default_value = some v; default_value_as_text = textual }

abbrev pub set_implicit_value : Any → Text → ValueDescriptor → ValueDescriptor
set_implicit_value v textual d = record d {
  implicit_value = some v;
  implicit_value_as_text = textual;
}

-- DefaultValue(value) and ImplicitValue(value): the text is what `operator<<` of the type writes, a
-- parameter.
abbrev pub stream_default_value : (Any → Text) → Any → ValueDescriptor → ValueDescriptor
stream_default_value streamed v = set_default_value v (streamed v)

abbrev pub stream_implicit_value : (Any → Text) → Any → ValueDescriptor → ValueDescriptor
stream_implicit_value streamed v = set_implicit_value v (streamed v)

abbrev pub set_repeatable : ValueDescriptor → ValueDescriptor
set_repeatable d = record d { repeatable = true }

abbrev pub set_store_to : Option ℕ → ValueDescriptor → ValueDescriptor
set_store_to variable d = record d { store_to = variable }

abbrev pub set_notifier : Option ℕ → ValueDescriptor → ValueDescriptor
set_notifier callback d = record d { notifier = callback }

abbrev pub set_value_user_friendly_name : Text → ValueDescriptor → ValueDescriptor
set_value_user_friendly_name name d = record d { user_friendly_name = name }

-- ValueDescriptor::Parse, `none` if it returns false.
unfoldable pub parse : ValueDescriptor → Text → Option Any
parse d token = parse_value d.value_type token

abbrev pub with_text : Text → Option Any → Option (Any × Text)
with_text s none = none
with_text s (some v) = some (v, s)

-- ApplyDefault and ApplyImplicit: the value and its text, `none` if they return false.
unfoldable pub apply_default : ValueDescriptor → Option (Any × Text)
apply_default d = with_text d.default_value_as_text d.default_value

unfoldable pub apply_implicit : ValueDescriptor → Option (Any × Text)
apply_implicit d = with_text d.implicit_value_as_text d.implicit_value

-- What `Notify` does: it assigns a value to a variable, and calls a function with one.
pub data Effect : Type 0 where
  assigns : ℕ → Any → Effect
  calls : ℕ → Any → Effect

-- The value that a pointer points to, used if there is something to use it for.
unfoldable with_pointee : (ℕ → Any → Effect) → Option ℕ → Option Any → Outcome (List Effect)
with_pointee effect none value = done []
with_pointee effect (some n) none = fault undefined_behaviour
with_pointee effect (some n) (some v) = done (effect n v ∷ [])

-- ValueDescriptor::Notify: the effects in order. A value of another type has a null pointer.
unfoldable pub notify : ValueDescriptor → Any → Outcome (List Effect)
unfolding with_pointee
notify d value_store = do
  let value = any_cast d.value_type value_store
  stored ← with_pointee assigns d.store_to value
  called ← with_pointee calls d.notifier value
  done (stored ++ called)
