-- ===== src/Parser/States/LongOption.antt =====
-- clap/src/parser/states.h, ParseLongOptionState: an option given by its long name.
use asap_clap.Base.{
  true, false, not, ◌&&◌, ◌++◌, Option, none, some, Text, codes, if◌then◌else◌, fault,
  contract_violation, ◌>>=◌, ◌>>◌, require, deref,
}
use asap_clap.Format.{Fmt}
use asap_clap.Tokenizer.{TokenType, long_option, value, equal_sign}
use asap_clap.Values.Descriptor.{is_some, parse}
use asap_clap.Values.{Any}
use asap_clap.Commands.{ClapOption, find_long_option}
use asap_clap.Parser.Errors.{option_syntax_error, missing_value_for_option}
use asap_clap.Parser.States.Options.{try_implicit_value}
use asap_clap.Parser.States.ShortOption.{
  with_flag, with_context, store_token, enter_found, leave_option,
}
use asap_clap.Parser.Machine.{
  Memory, Handled, Entered, go_to, stay, refuse_with, parse_options_state,
}

abbrev needs_equal_message : Text
needs_equal_message =
    codes
      "option name must be followed by '=' sign because this option takes a value and does not have an implicit one"

module _ (fmt : Fmt) where
  -- OnEnter. A static_assert keeps every other token out.
  unfoldable pub enter_long : TokenType → Text → Memory → Entered
  unfolding enter_found
  enter_long long_option token m = do
    require (is_some m.context.active_command)
    command ← deref m.context.active_command
    enter_found fmt token (find_long_option token command)
        (with_context (with_flag (codes "--" ++ token) m.context) m)
  enter_long _ _ m = fault contract_violation

  -- OnLeave
  abbrev pub reset_long : Memory → Memory
  reset_long m = record m { after_equal_sign = false; long_value = none }

  unfoldable pub leave_long : Memory → Entered
  unfolding leave_option
  leave_long m = leave_option fmt m.long_value reset_long m

  -- A value that does not parse: behind an equal sign an error, otherwise as for a short option.
  unfoldable pub long_implicit : Memory → Handled
  long_implicit m = do
    (stored, context) ← try_implicit_value m.context
    if stored
        then go_to parse_options_state false
            (record (with_context context m) { long_value = some (codes "_implicit_") })
        else refuse_with (missing_value_for_option fmt context none) (with_context context m)

  unfoldable pub long_not_parsed : Memory → Handled
  unfolding long_implicit
  long_not_parsed m =
      if not m.after_equal_sign
      then long_implicit m
      else refuse_with (missing_value_for_option fmt m.context none) m

  unfoldable pub take_long_value : Text → ClapOption → Option Any → Memory → Handled
  unfolding long_not_parsed
  take_long_value token option none m = long_not_parsed m
  take_long_value token option (some v) m =
      stay
        (record (with_context (store_token option v token m.context) m) { long_value = some token })

  unfoldable pub read_long_value : Text → Memory → Handled
  unfolding take_long_value
  read_long_value token m = do
    option ← deref m.context.active_option
    semantics ← deref option.value_semantic
    take_long_value token option (parse semantics token) m

  unfoldable pub handle_long_value : Option Text → Text → Memory → Handled
  unfolding read_long_value
  handle_long_value (some _) token m = go_to parse_options_state false m
  handle_long_value none token m =
      if not m.after_equal_sign && not m.context.allow_long_option_value_with_no_equal
      then refuse_with (option_syntax_error fmt m.context (some needs_equal_message)) m
      else read_long_value token m

  -- `Handle` of an equal sign and of a value, with their two assertions, and of any other token.
  unfoldable pub handle_long : TokenType → Text → Memory → Handled
  unfolding handle_long_value
  handle_long equal_sign _ m = do
    require (is_some m.context.active_option)
    option ← deref m.context.active_option
    require (is_some option.value_semantic)
    stay (record m { after_equal_sign = true })
  handle_long value token m = do
    require (is_some m.context.active_option)
    option ← deref m.context.active_option
    require (is_some option.value_semantic)
    handle_long_value m.long_value token m
  handle_long _ _ m = go_to parse_options_state false m
