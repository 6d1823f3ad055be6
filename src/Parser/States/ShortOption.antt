-- ===== src/Parser/States/ShortOption.antt =====
-- clap/src/parser/states.h, ParseShortOptionState: an option given by its short name, or a lone dash.
use asap_clap.Base.{
  false, ◌++◌, Option, none, some, Text, codes, if◌then◌else◌, fault, contract_violation, ◌>>=◌,
  ◌>>◌, require, deref,
}
use asap_clap.Format.{Fmt}
use asap_clap.Tokenizer.{TokenType, short_option, lone_dash, value}
use asap_clap.Values.Descriptor.{is_some, is_value_required, parse}
use asap_clap.Values.{Any}
use asap_clap.Commands.{ClapOption, find_short_option}
use asap_clap.Parser.Context.{ParserContext, store}
use asap_clap.Parser.Errors.{
  unrecognized_option, illegal_multiple_occurrence, missing_value_for_option,
}
use asap_clap.Parser.States.Options.{try_implicit_value, check_multiple_occurrence}
use asap_clap.Parser.Machine.{
  Memory, Handled, Entered, go_to, stay, fail, refuse_with, fail_with, proceed, parse_options_state,
}

-- The context with an option being parsed, and the flag that named it.
abbrev pub with_flag : Text → ParserContext → ParserContext
with_flag flag context = record context { active_option_flag = flag }

abbrev pub with_option_active : ClapOption → ParserContext → ParserContext
with_option_active option context = record context { active_option = some option }

abbrev pub with_context : ParserContext → Memory → Memory
with_context context m = record m { context = context }

-- What the parser stores for a value token.
abbrev pub store_token : ClapOption → Any → Text → ParserContext → ParserContext
store_token option v token context =
    store option.key (record { value = v; original_token = token; defaulted = false }) context

module _ (fmt : Fmt) where
  -- The second half of `OnEnter`, shared with ParseLongOptionState: the option looked up is made the
  -- active one, if it may occur once more.
  unfoldable pub enter_found : Text → Option ClapOption → Memory → Entered
  enter_found token none m = fail (unrecognized_option fmt m.context token none) m
  enter_found token (some option) m = do
    let active = with_context (with_option_active option m.context) m
    fits ← check_multiple_occurrence active.context
    if fits
        then proceed active
        else fail_with (illegal_multiple_occurrence fmt active.context none) active

  enter_short_named : Text → Memory → Entered
  unfolding enter_found
  enter_short_named token m = do
    command ← deref m.context.active_command
    enter_found token (find_short_option token command)
        (with_context (with_flag (codes "-" ++ token) m.context) m)

  -- OnEnter. A static_assert keeps every other token out.
  unfoldable pub enter_short : TokenType → Text → Memory → Entered
  unfolding enter_short_named
  enter_short short_option token m =
      require (is_some m.context.active_command) >> enter_short_named token m
  enter_short lone_dash token m =
      require (is_some m.context.active_command) >> enter_short_named token m
  enter_short _ _ m = fault contract_violation

  -- With no value at all: an error if the option requires one.
  unfoldable pub leave_without_value : (Memory → Memory) → Memory → Entered
  leave_without_value reset m = do
    option ← deref m.context.active_option
    semantics ← deref option.value_semantic
    if is_value_required semantics
        then fail_with (missing_value_for_option fmt m.context none) m
        else proceed (reset m)

  -- `OnLeave`, for both states: with no value yet, the implicit one is stored. The second argument is
  -- what `Reset` makes of the memory.
  unfoldable pub leave_option : Option Text → (Memory → Memory) → Memory → Entered
  unfolding leave_without_value
  leave_option (some _) reset m = proceed (reset m)
  leave_option none reset m = do
    (stored, context) ← try_implicit_value m.context
    if stored
        then proceed (reset (with_context context m))
        else leave_without_value reset (with_context context m)

  abbrev pub reset_short : Memory → Memory
  reset_short m = record m { short_value = none }

  unfoldable pub leave_short : Memory → Entered
  unfolding leave_option
  leave_short m = leave_option m.short_value reset_short m

  -- A value that does not parse: the implicit value, or an error.
  unfoldable pub short_not_parsed : Memory → Handled
  short_not_parsed m = do
    (stored, context) ← try_implicit_value m.context
    if stored
        then go_to parse_options_state false
            (record (with_context context m) { short_value = some (codes "_implicit_") })
        else refuse_with (missing_value_for_option fmt context none) (with_context context m)

  unfoldable pub take_short_value : Text → ClapOption → Option Any → Memory → Handled
  unfolding short_not_parsed
  take_short_value token option none m = short_not_parsed m
  take_short_value token option (some v) m =
      stay (record (with_context (store_token option v token m.context) m) {
        short_value = some token;
      })

  unfoldable pub handle_short_value : Option Text → Text → Memory → Handled
  unfolding take_short_value
  handle_short_value (some _) token m = go_to parse_options_state false m
  handle_short_value none token m = do
    option ← deref m.context.active_option
    semantics ← deref option.value_semantic
    take_short_value token option (parse semantics token) m

  -- `Handle` of a value, with its two assertions, and of any other token.
  unfoldable pub handle_short : TokenType → Text → Memory → Handled
  unfolding handle_short_value
  handle_short value token m = do
    require (is_some m.context.active_option)
    option ← deref m.context.active_option
    require (is_some option.value_semantic)
    handle_short_value m.short_value token m
  handle_short _ _ m = go_to parse_options_state false m
