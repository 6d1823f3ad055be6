-- ===== src/Builders.antt =====
-- clap/include/clap/fluent and clap/src/fluent: the fluent builders of options and commands. A
-- builder owns its object until that is moved out of it; every call asserts that it is there.
pub mod Wellformed
use asap_clap.Base.{
  ℕ, Bool, true, false, List, [], ◌∷◌, Option, none, some, Text, codes, Outcome, done, fault,
  contract_violation, undefined_behaviour, ◌>>=◌, ◌>>◌, require,
}
use asap_clap.Values.{Any, bool_value, text_value}
use asap_clap.Values.ParseValue.{ValueType, flag, text}
use asap_clap.Values.Descriptor.{
  ValueDescriptor, new_descriptor, set_default_value, set_implicit_value, stream_default_value,
  stream_implicit_value, set_repeatable, set_store_to, set_value_user_friendly_name,
}
use asap_clap.Commands.{
  ClapOption, new_option, key_rest, Options, Command, new_command, with_option, with_options,
  with_positional_arguments,
}

-- The object that a unique_ptr holds, or null.
abbrev pub Owned : Type 0 → Type 0
Owned A = Option A

-- `ASAP_ASSERT(ptr && "builder used after Build() was called")`, and the change to the object.
abbrev pub change : {A : Type 0} → (A → A) → Owned A → Outcome (Owned A)
change f none = fault contract_violation
change f (some a) = done (some (f a))

-- OptionBuilder
abbrev pub OptionBuilder : Type 0
OptionBuilder = Owned ClapOption

-- Option::WithKey, Option::Positional and Option::Rest
abbrev pub with_key : Text → OptionBuilder
with_key key = some (new_option key)

abbrev pub positional : Text → OptionBuilder
positional key = some (new_option key)

-- `Build` of OptionBuilder, which moves the option out and leaves null.
unfoldable pub take_option : OptionBuilder → Option ClapOption × OptionBuilder
take_option b = (b, none)

abbrev pub rest_option : OptionBuilder
rest_option = some (new_option key_rest)

unfoldable pub set_short : Text → OptionBuilder → Outcome OptionBuilder
set_short name = change (λ o. record o { short_name = name })

unfoldable pub set_long : Text → OptionBuilder → Outcome OptionBuilder
set_long name = change (λ o. record o { long_name = name })

unfoldable pub set_about : Text → OptionBuilder → Outcome OptionBuilder
set_about about = change (λ o. record o { about = about })

unfoldable pub set_required : OptionBuilder → Outcome OptionBuilder
set_required = change (λ o. record o { required = true })

unfoldable pub set_user_friendly_name : Text → OptionBuilder → Outcome OptionBuilder
set_user_friendly_name name = change (λ o. record o { user_friendly_name = name })

-- OptionValueBuilder<T>: the option, and the descriptor that its `value_semantic_` points to.
pub record OptionValueBuilder : Type 0 where
  pub option : Owned ClapOption
  pub value_descriptor : ValueDescriptor

-- The text of an implicit `true`.
abbrev true_text : Text
true_text = codes "true"

abbrev described : ValueType → ValueDescriptor
described flag = set_implicit_value (bool_value true) true_text (new_descriptor flag)
described t = new_descriptor t

-- OptionBuilder::WithValue<T>, which moves the option; for `bool` the implicit value is `true`.
unfoldable pub with_value : ValueType → OptionBuilder → Outcome OptionValueBuilder
with_value t none = fault undefined_behaviour
with_value t (some o) = done (record { option = some o; value_descriptor = described t })

abbrev pub change_value :
    (ValueDescriptor → ValueDescriptor) → OptionValueBuilder → OptionValueBuilder
change_value f b = record b { value_descriptor = f b.value_descriptor }

-- StoreTo, UserFriendlyName, DefaultValue, ImplicitValue and Repeatable of OptionValueBuilder. Their
-- assertion holds: nothing makes `value_descriptor_` null.
unfoldable pub value_store_to : Option ℕ → OptionValueBuilder → OptionValueBuilder
value_store_to variable = change_value (set_store_to variable)

unfoldable pub set_value_name : Text → OptionValueBuilder → OptionValueBuilder
set_value_name name = change_value (set_value_user_friendly_name name)

unfoldable pub default_value : Any → Text → OptionValueBuilder → OptionValueBuilder
default_value v textual = change_value (set_default_value v textual)

unfoldable pub implicit_value : Any → Text → OptionValueBuilder → OptionValueBuilder
implicit_value v textual = change_value (set_implicit_value v textual)

unfoldable pub streamed_default_value : (Any → Text) → Any → OptionValueBuilder → OptionValueBuilder
streamed_default_value streamed v = change_value (stream_default_value streamed v)

unfoldable pub streamed_implicit_value :
    (Any → Text) → Any → OptionValueBuilder → OptionValueBuilder
streamed_implicit_value streamed v = change_value (stream_implicit_value streamed v)

unfoldable pub repeatable : OptionValueBuilder → OptionValueBuilder
repeatable = change_value set_repeatable

-- `Build`, which moves the option out. Calls on the descriptor behind that are not modelled.
unfoldable pub build_option : OptionValueBuilder → Option ClapOption
build_option b = elim b.option [
  | none ↦ none
  | some o ↦ some (record o { value_semantic = some b.value_descriptor })
]

-- Positional<OptionBuilder>: the calls are those of the OptionBuilder that it derives from. Its two
-- `WithValue` from a builder name a type that is not there, and cannot be used.
abbrev pub PositionalOptionBuilder : Type 0
PositionalOptionBuilder = OptionBuilder

unfoldable pub positional_about : Text → PositionalOptionBuilder → Outcome PositionalOptionBuilder
unfolding set_about
positional_about about = set_about about

unfoldable pub positional_user_friendly_name :
    Text → PositionalOptionBuilder → Outcome PositionalOptionBuilder
unfolding set_user_friendly_name
positional_user_friendly_name name = set_user_friendly_name name

unfoldable pub positional_required : PositionalOptionBuilder → Outcome PositionalOptionBuilder
unfolding set_required
positional_required = set_required

-- CommandBuilder
abbrev pub CommandBuilder : Type 0
CommandBuilder = Owned Command

unfoldable pub command_builder : List Text → Outcome CommandBuilder
command_builder path = new_command path >>= λ c. done (some c)

unfoldable pub command_about : Text → CommandBuilder → Outcome CommandBuilder
command_about about = change (λ c. record c { about = about })

unfoldable pub command_with_option : ClapOption → CommandBuilder → Outcome CommandBuilder
command_with_option o = change (with_option o)

unfoldable pub command_with_options : Options → Bool → CommandBuilder → Outcome CommandBuilder
command_with_options group hidden = change (with_options group hidden)

-- This one has no assertion.
unfoldable pub command_with_positional_arguments :
    List ClapOption → CommandBuilder → Outcome CommandBuilder
command_with_positional_arguments options none = fault undefined_behaviour
command_with_positional_arguments options (some c) =
    done (some (with_positional_arguments options c))
