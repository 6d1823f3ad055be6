-- ===== src/Parser/States/Initial.antt =====
-- clap/src/parser/states.h, InitialState: before any token, with the default command active if there is one.
use asap_clap.Base.{
  Bool, true, false, List, [], ◌∷◌, Option, none, some, Text, text_eq, any_of, find_if,
  if◌then◌else◌,
}
use asap_clap.Format.{Fmt}
use asap_clap.Tokenizer.{TokenType, dash_dash, value, end_of_input}
use asap_clap.Values.Descriptor.{is_some}
use asap_clap.Commands.{Command, is_default}
use asap_clap.Parser.Context.{ParserContext, set_active_command}
use asap_clap.Parser.Errors.{unrecognized_command, missing_command}
use asap_clap.Parser.Machine.{
  Memory, Handled, go_to, refuse, identify_command_state, parse_options_state, dash_dash_state,
  final_state,
}

activate : Option Command → ParserContext → ParserContext
activate none context = context
activate (some c) context = set_active_command c context

-- The constructor
unfoldable pub initial_context : ParserContext → ParserContext
unfolding activate
initial_context context = activate (find_if is_default context.commands) context

abbrev pub starts_path : Text → List Text → Bool
starts_path token [] = false
starts_path token (segment ∷ _) = text_eq segment token

-- MaybeCommand
unfoldable pub maybe_command : List Command → Text → Bool
maybe_command commands token = any_of (λ c. starts_path token c.path) commands

module _ (fmt : Fmt) where
  -- The three overloads of `Handle`
  unfoldable pub handle_initial : TokenType → Text → Memory → Handled
  unfolding maybe_command
  handle_initial value token m =
      if maybe_command m.context.commands token
      then go_to identify_command_state true m
      else if is_some m.context.active_command
      then go_to parse_options_state true m
      else refuse (unrecognized_command fmt (token ∷ []) none) m
  handle_initial end_of_input _ m =
      if is_some m.context.active_command
      then go_to final_state true m
      else refuse (missing_command fmt m.context none) m
  handle_initial dash_dash _ m =
      if is_some m.context.active_command
      then go_to dash_dash_state true m
      else refuse (missing_command fmt m.context none) m
  handle_initial _ _ m =
      if is_some m.context.active_command
      then go_to parse_options_state true m
      else refuse (missing_command fmt m.context none) m
