-- ===== src/Parser/Errors.antt =====
-- clap/src/detail/errors.h and errors.cpp: the texts of the parser's errors. An absent message is
-- `nullptr`.
use asap_clap.Base.{
  List, [], ◌∷◌, ◌++◌, map, Option, none, some, Text, codes, is_empty, length, ltb, if◌then◌else◌,
  Outcome, done, fault, undefined_behaviour, ◌>>=◌, ◌>>◌, require, deref, ◌==◌,
}
use asap_clap.Format.{Fmt}
use asap_clap.Values.Descriptor.{is_some}
use asap_clap.Values.ValuesMap.{occurrences_of, values_of}
use asap_clap.Commands.{ClapOption, Command, is_default, is_positional, friendly_name}
use asap_clap.Parser.Context.{ParserContext}

append_optional_message : Text → Option Text → Text
append_optional_message description none = description ++ codes "."
append_optional_message description (some message) =
    if is_empty message
    then description ++ codes "."
    else description ++ codes " - " ++ message ++ codes "."

-- The first element of a vector; of an empty one it is undefined behaviour.
abbrev pub first {ℓ} : {A : Type ℓ} → List A → Outcome A
first [] = fault undefined_behaviour
first (a ∷ _) = done a

module _ (fmt : Fmt) where
  open fmt use {format, join}

  -- Command::PathAsString
  unfoldable pub path_as_string : Command → Text
  path_as_string c = format (codes "{}") (join c.path (codes " ") ∷ [])

  -- The diagnostic of a command that is there; a null one has none.
  command_text : Command → Text
  unfolding path_as_string
  command_text c =
      if is_default c
      then codes ""
      else format (codes "while parsing command '{}',") (path_as_string c ∷ [])

  unfoldable pub command_diagnostic : Option Command → Text
  unfolding command_text
  command_diagnostic none = codes ""
  command_diagnostic (some c) = command_text c

  unfoldable pub unrecognized_command : List Text → Option Text → Text
  unfolding append_optional_message
  unrecognized_command path_segments message =
      append_optional_message
        (format (codes "Unrecognized command with path '{}'") (join path_segments (codes " ") ∷ []))
        message

  unfoldable pub missing_command : ParserContext → Option Text → Text
  unfolding append_optional_message path_as_string
  missing_command context message =
      let supported_commands =
        map (λ c. codes "'" ++ path_as_string c ++ codes "'") context.commands in
      append_optional_message
        (format (codes "You must specify a command. Supported commands are: {}")
          (join supported_commands (codes ", ") ∷ []))
        message

  unfoldable pub unrecognized_option : ParserContext → Text → Option Text → Text
  unfolding append_optional_message command_diagnostic
  unrecognized_option context token message =
      let option_name = if length token == 1 then codes "-" ++ token else codes "--" ++ token in
      append_optional_message
        (format (codes "{} '{}' is not a recognized option")
          (command_diagnostic context.active_command ∷ option_name ∷ []))
        message

  unfoldable pub illegal_multiple_occurrence : ParserContext → Option Text → Outcome Text
  unfolding append_optional_message command_diagnostic
  illegal_multiple_occurrence context message = do
    require (is_some context.active_option)
    option ← deref context.active_option
    require (ltb 0 (occurrences_of option.key context.ovm))
    values ← values_of option.key context.ovm
    before ← first values
    done (
        append_optional_message
          (format
            (codes
              "{} new occurrence for option '{}' as '{}' is illegal; it can only be used one time and it appeared before with value '{}'")
            (command_diagnostic context.active_command
              ∷ option.key
              ∷ context.active_option_flag
              ∷ before.original_token
              ∷ []))
          message)

  unfoldable pub option_syntax_error : ParserContext → Option Text → Outcome Text
  unfolding append_optional_message command_diagnostic
  option_syntax_error context message = do
    option ← deref context.active_option
    done (
        append_optional_message
          (format (codes "{} option '{}' is using an invalid syntax")
            (command_diagnostic context.active_command ∷ option.key ∷ []))
          message)

  unfoldable pub missing_value_for_option : ParserContext → Option Text → Outcome Text
  unfolding append_optional_message command_diagnostic
  missing_value_for_option context message = do
    option ← deref context.active_option
    done (
        append_optional_message
          (format
            (codes
              "{} option '{}' seen as '{}' has no value on the command line and no implicit one")
            (command_diagnostic context.active_command
              ∷ option.key
              ∷ context.active_option_flag
              ∷ []))
          message)

  -- Declared and defined, and called from nowhere.
  unfoldable pub invalid_value_for_option : ParserContext → Text → Option Text → Outcome Text
  unfolding append_optional_message command_diagnostic
  invalid_value_for_option context token message = do
    option ← deref context.active_option
    done (
        append_optional_message
          (format
            (codes
              "{} option '{}' seen as '{}', got value token '{}' which failed to parse to type {}, and the option has no implicit value")
            (command_diagnostic context.active_command
              ∷ option.key
              ∷ context.active_option_flag
              ∷ token
              ∷ codes "<TODO: TYPE NAME>"
              ∷ []))
          message)

  unfoldable pub missing_required_option : Option Command → ClapOption → Option Text → Text
  unfolding append_optional_message command_diagnostic
  missing_required_option command option message =
      append_optional_message
        (format
          (codes "{} no {} '{}' was specified. It is required and does not have a default value")
          (command_diagnostic command
            ∷ (if is_positional option then codes "positional argument" else codes "option")
            ∷ friendly_name option
            ∷ []))
        message

  unfoldable pub unexpected_positional_arguments : ParserContext → Option Text → Text
  unfolding append_optional_message command_diagnostic
  unexpected_positional_arguments context message =
      let many = ltb 1 (length context.positional_tokens) in
      append_optional_message
        (format (codes "{} argument{} '{}' {} not expected by any option") (
          command_diagnostic context.active_command
          ∷ (if many then codes "s" else codes "")
          ∷ join context.positional_tokens (codes ", ")
          ∷ (if many then codes "are" else codes "is")
          ∷ []))
        message
