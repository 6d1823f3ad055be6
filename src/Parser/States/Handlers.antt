-- ===== src/Parser/States/Handlers.antt =====
-- The members of all states, as the state machine calls them.
use asap_clap.Base.{Bool}
use asap_clap.Fsm.{Handlers}
use asap_clap.Format.{Fmt}
use asap_clap.Tokenizer.{Token}
use asap_clap.Parser.States.Initial.{handle_initial}
use asap_clap.Parser.States.Identify.{enter_identify, leave_identify, handle_identify}
use asap_clap.Parser.States.Options.{enter_options, handle_options}
use asap_clap.Parser.States.ShortOption.{enter_short, leave_short, handle_short}
use asap_clap.Parser.States.LongOption.{enter_long, leave_long, handle_long}
use asap_clap.Parser.States.Final.{enter_final}
use asap_clap.Parser.Machine.{
  State, initial_state, identify_command_state, parse_options_state, parse_short_option_state,
  parse_long_option_state, dash_dash_state, final_state, Memory, Handled, Entered, stay, proceed,
}

module _ (fmt : Fmt) where
  -- DashDashState and FinalState have the default `DoNothing`.
  unfoldable pub handle : State → Token → Memory → Handled
  handle initial_state t m = handle_initial fmt t.token_type t.text m
  handle identify_command_state t m = handle_identify fmt t.token_type t.text m
  handle parse_options_state t m = handle_options fmt t.token_type t.text m
  handle parse_short_option_state t m = handle_short fmt t.token_type t.text m
  handle parse_long_option_state t m = handle_long fmt t.token_type t.text m
  handle dash_dash_state t m = stay m
  handle final_state t m = stay m

  unfoldable pub on_leave : State → Token → Memory → Entered
  on_leave identify_command_state t m = leave_identify m
  on_leave parse_short_option_state t m = leave_short fmt m
  on_leave parse_long_option_state t m = leave_long fmt m
  on_leave _ t m = proceed m

  unfoldable pub on_enter : State → Token → Bool → Memory → Entered
  on_enter identify_command_state t _ m = enter_identify t.text m
  on_enter parse_options_state t with_data m = enter_options t.token_type with_data m
  on_enter parse_short_option_state t _ m = enter_short fmt t.token_type t.text m
  on_enter parse_long_option_state t _ m = enter_long fmt t.token_type t.text m
  on_enter final_state t _ m = enter_final fmt m
  on_enter _ t _ m = proceed m

  unfoldable pub machine : Handlers State Token Memory
  unfolding handle on_leave on_enter
  machine = record { handle = handle; on_leave = on_leave; on_enter = on_enter }
