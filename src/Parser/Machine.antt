-- ===== src/Parser/Machine.antt =====
-- The states of clap/src/parser/states.h, their event, and what the state objects hold.
use asap_clap.Base.{Bool, false, List, [], Option, none, Text, Outcome, done, ◌>>=◌}
use asap_clap.Fsm.{
  Status, continue, terminate_with_error, Action, do_nothing, report_error, transition_to,
}
use asap_clap.Commands.{Command}
use asap_clap.Parser.Context.{ParserContext}

pub data State : Type 0 where
  initial_state identify_command_state parse_options_state parse_short_option_state : State
  parse_long_option_state dash_dash_state final_state : State

-- The objects share one context. Then come the fields of IdentifyCommandState; whether `context_` of
-- ParseOptionsState is set, the only one that may be asked for while null; `value_` of
-- ParseShortOptionState; and `value_` and `after_equal_sign` of ParseLongOptionState.
pub record Memory : Type 0 where
  pub context : ParserContext
  pub filtered_commands : List Command
  pub last_matched_command : Option Command
  pub default_command : Option Command
  pub path_segments : List Text
  pub options_has_context : Bool
  pub short_value : Option Text
  pub long_value : Option Text
  pub after_equal_sign : Bool

abbrev pub new_memory : ParserContext → Memory
new_memory context = record {
  context = context;
  filtered_commands = [];
  last_matched_command = none;
  default_command = none;
  path_segments = [];
  options_has_context = false;
  short_value = none;
  long_value = none;
  after_equal_sign = false;
}

abbrev pub Handled : Type 0
Handled = Outcome (Action State × Memory)

abbrev pub Entered : Type 0
Entered = Outcome (Status × Memory)

-- TransitionTo<S>(context_) and TransitionTo<S>{}
abbrev pub go_to : State → Bool → Memory → Handled
go_to s with_data m = done (transition_to s with_data, m)

abbrev pub stay : Memory → Handled
stay m = done (do_nothing, m)

abbrev pub refuse : Text → Memory → Handled
refuse why m = done (report_error why, m)

abbrev pub fail : Text → Memory → Entered
fail why m = done (terminate_with_error why, m)

abbrev pub proceed : Memory → Entered
proceed m = done (continue, m)

-- With a text that has to be made first.
abbrev pub refuse_with : Outcome Text → Memory → Handled
refuse_with why m = why >>= λ w. refuse w m

abbrev pub fail_with : Outcome Text → Memory → Entered
fail_with why m = why >>= λ w. fail w m
