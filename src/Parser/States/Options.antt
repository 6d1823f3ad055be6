-- ===== src/Parser/States/Options.antt =====
-- ParseOptionsState, and the two helpers that the states of single options share.
use asap_clap.Base.{
  Bool, true, false, [], ◌∷◌, ◌++◌, Option, none, some, Text, ltb, if◌then◌else◌, Outcome, done,
  fault, contract_violation, ◌>>=◌, ◌>>◌, require, deref,
}
use asap_clap.Fsm.{reissue_event}
use asap_clap.Format.{Fmt}
use asap_clap.Tokenizer.{
  TokenType, short_option, long_option, lone_dash, dash_dash, value, equal_sign, end_of_input,
}
use asap_clap.Values.Descriptor.{is_some, apply_implicit}
use asap_clap.Values.ValuesMap.{occurrences_of}
use asap_clap.Values.{Any}
use asap_clap.Parser.Context.{ParserContext, store}
use asap_clap.Parser.Errors.{option_syntax_error}
use asap_clap.Parser.Machine.{
  Memory, Handled, Entered, go_to, stay, refuse, parse_short_option_state, parse_long_option_state,
  dash_dash_state, final_state,
}

-- OnEnter with data, and without: the event that led here is handled once more.
enter_with_data : TokenType → Memory → Entered
enter_with_data end_of_input m = fault contract_violation
enter_with_data _ m = do
  require (is_some m.context.active_command)
  done (reissue_event, record m { options_has_context = true })

unfoldable pub enter_options : TokenType → Bool → Memory → Entered
unfolding enter_with_data
enter_options t true m = enter_with_data t m
enter_options t false m = do require m.options_has_context; done (reissue_event, m)

module _ (fmt : Fmt) where
  unfoldable pub handle_options : TokenType → Text → Memory → Handled
  handle_options value token m =
      let context = m.context in
      stay (record m {
        context = record context { positional_tokens = context.positional_tokens ++ token ∷ [] };
      })
  handle_options end_of_input _ m = go_to final_state true m
  handle_options dash_dash _ m = go_to dash_dash_state true m
  handle_options long_option _ m = go_to parse_long_option_state true m
  handle_options equal_sign _ m = do why ← option_syntax_error fmt m.context none; refuse why m
  handle_options short_option _ m = go_to parse_short_option_state true m
  handle_options lone_dash _ m = go_to parse_short_option_state true m

-- The implicit value stored, if there is one.
unfoldable pub store_implicit : Text → Option (Any × Text) → ParserContext → Bool × ParserContext
store_implicit key none context = (false, context)
store_implicit key (some (v, s)) context =
    (true, store key (record { value = v; original_token = s; defaulted = false }) context)

-- TryImplicitValue
unfoldable pub try_implicit_value : ParserContext → Outcome (Bool × ParserContext)
unfolding store_implicit
try_implicit_value context = do
  option ← deref context.active_option
  semantics ← deref option.value_semantic
  done (store_implicit option.key (apply_implicit semantics) context)

-- CheckMultipleOccurrence
unfoldable pub check_multiple_occurrence : ParserContext → Outcome Bool
check_multiple_occurrence context = do
  option ← deref context.active_option
  if ltb (occurrences_of option.key context.ovm) 1
      then done true
      else deref option.value_semantic >>= λ semantics. done semantics.repeatable
