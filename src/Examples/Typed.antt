-- ===== src/Examples/Typed.antt =====
-- The values that the parser leaves, for a command like those of clap/test.
use asap_clap.Base.{
  true, false, refl, subst, arith, List, [], ◌∷◌, All, ◌≡◌, some, Text, codes, done, pos, text_eq,
}
use asap_clap.Fsm.Reference.{reference-IsEngine}
use asap_clap.Format.{plain_fmt}
use asap_clap.Values.{OptionValue, int_value}
use asap_clap.Values.ParseValue.{signed}
use asap_clap.Values.Typed.{holds, get_as}
use asap_clap.Values.ValuesMap.{find}
use asap_clap.Values.Descriptor.{
  ValueDescriptor, new_descriptor, set_default_value, set_store_to, notify,
}
use asap_clap.Values.Descriptor.Notify.{IsTyped, effects_of}
use asap_clap.Commands.{Command}
use asap_clap.Parser.Loop.Origins.{IsSupplied, parse-IsSupplied}
use asap_clap.Parser.Loop.Typed.{TakesTyped, parse-get_as}
use asap_clap.Examples.{level_option, default_command, base, run, left}

abbrev commands : List Command
commands = default_command ∷ []

abbrev level_given : List Text
level_given = codes "-l" ∷ codes "7" ∷ codes "--name=x" ∷ []

abbrev level_values : List OptionValue
level_values =
    record {
      value = int_value (codes "int") (pos 7);
      original_token = codes "7";
      defaulted = false;
    }
    ∷ []

parse-IsSupplied_example : All (IsSupplied commands (codes "level")) level_values
unfolding run find
parse-IsSupplied_example =
    parse-IsSupplied reference-IsEngine plain_fmt 20 base level_given commands true
      (left (run level_given commands)) (codes "level") level_values refl refl refl refl

-- A descriptor of `int` with a variable to store to.
abbrev stored_int : ValueDescriptor
stored_int = set_store_to (some 4) (new_descriptor (signed (codes "int") 32))

level_typed : TakesTyped (codes "level") stored_int.value_type level_option
unfolding holds text_eq
level_typed same d e =
    let described : set_default_value (int_value (codes "int") (pos 3)) (codes "3")
          (new_descriptor (signed (codes "int") 32))
        ≡ d =
      ground arith in
    subst (IsTyped stored_int.value_type) described
      (record { same_type = refl; default_typed = refl; implicit_typed = tt })

parse-get_as_example :
    All
      (λ x.
        (get_as stored_int.value_type x ≡ done x.value)
        × (notify stored_int x.value ≡ done (effects_of stored_int x.value)))
      level_values
unfolding run find holds
parse-get_as_example =
    parse-get_as plain_fmt (codes "level") stored_int reference-IsEngine 20 base level_given
      commands true (left (run level_given commands)) level_values
      (((λ same d e. absurd cc, (level_typed, tt)), tt), tt) tt (λ j. tt) refl refl
