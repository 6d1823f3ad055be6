-- ===== src/Parser/States/Kept/Commands.antt =====
-- clap/src/parser/states.h, InitialState and ParseOptionsState: they store no value.
use asap_clap.Base.{
  Bool, true, false, List, none, Text, Yields, done-Yields, require-Yields, if-Yields,
}
use asap_clap.Fsm.{Status, Action}
use asap_clap.Format.{Fmt}
use asap_clap.Tokenizer.{TokenType, value, equal_sign, end_of_input}
use asap_clap.Values.Descriptor.{is_some}
use asap_clap.Parser.Context.{ParserContext}
use asap_clap.Parser.States.Initial.{handle_initial, maybe_command}
use asap_clap.Parser.Errors.{option_syntax_error}
use asap_clap.Parser.States.Options.{enter_options, handle_options}
use asap_clap.Parser.States.Kept.{Discipline, KeptIn, IsKept}
use asap_clap.Parser.States.Kept.Enter.{with_context-IsKept, same_IsKept}
use asap_clap.Parser.Machine.{State, Memory}

module _ (k : Discipline) where
  -- The invariant, for what a handler and a member that enters or leaves a state give.
  abbrev pub Handles : Action State × Memory → Type 0
  Handles r = IsKept k r.1

  abbrev pub Enters : Status × Memory → Type 0
  Enters r = IsKept k r.1

  pub handle_initial-IsKept :
      (fmt : Fmt) (ty : TokenType) (token : Text) (m : Memory)
      → IsKept k m
      → Yields Handles (handle_initial fmt ty token m)
  unfolding handle_initial
  handle_initial-IsKept fmt value token m h =
      if-Yields Handles (maybe_command m.context.commands token) _ _ (λ _. h)
        (λ _. if-Yields Handles (is_some m.context.active_command) _ _ (λ _. h) (λ _. h))
  handle_initial-IsKept fmt ty token m h =
      if-Yields Handles (is_some m.context.active_command) _ _ (λ _. h) (λ _. h)

  pub tokens-KeptIn :
      (tokens : List Text) (c : ParserContext)
      → KeptIn k c
      → KeptIn k (record c { positional_tokens = tokens })
  tokens-KeptIn tokens c h = record {
    all_allow = h.all_allow;
    active_allows = h.active_allows;
    good = h.good;
  }

  pub handle_options-IsKept :
      (fmt : Fmt) (ty : TokenType) (token : Text) (m : Memory)
      → IsKept k m
      → Yields Handles (handle_options fmt ty token m)
  unfolding handle_options
  handle_options-IsKept fmt value token m h =
      with_context-IsKept k _ m (tokens-KeptIn _ m.context h.in_context) h
  handle_options-IsKept fmt equal_sign token m h =
      done-Yields Handles (option_syntax_error fmt m.context none) _ (λ why _. h)
  handle_options-IsKept fmt _ token m h = h

  pub enter_options-IsKept :
      (ty : TokenType) (given : Bool) (m : Memory)
      → IsKept k m
      → Yields Enters (enter_options ty given m)
  unfolding enter_options
  enter_options-IsKept ty false m h = require-Yields Enters m.options_has_context _ (λ _. h)
  enter_options-IsKept end_of_input true m h = tt
  enter_options-IsKept _ true m h =
      require-Yields Enters (is_some m.context.active_command) _ (λ _. same_IsKept k m h)
