-- ===== src/Parser/Loop/Reissue.antt =====
-- clap/src/parser/parser.cpp and states.h: the events that are reissued.
use asap_clap.Base.{
  Bool, true, ◌≡◌, ◌≢◌, refl, arith, Option, none, some, Text, Outcome, done, fault, ◌>>=◌,
}
use asap_clap.Fsm.{
  Status, continue, terminate, reissue_event, terminate_with_error, do_nothing, report_error,
  transition_to,
}
use asap_clap.Fsm.Reference.{execute, after_leave}
use asap_clap.Format.{Fmt}
use asap_clap.Tokenizer.{
  Token, token, TokenType, short_option, long_option, lone_dash, dash_dash, value, equal_sign,
  end_of_input,
}
use asap_clap.Commands.{ClapOption, Command}
use asap_clap.Parser.Context.{ParserContext}
use asap_clap.Parser.States.Handlers.{machine, on_enter, on_leave, handle}
use asap_clap.Parser.States.Options.{handle_options}
use asap_clap.Parser.States.Identify.{enter_identify, leave_identify}
use asap_clap.Parser.States.ShortOption.{enter_found, enter_short, leave_option, leave_short}
use asap_clap.Parser.States.LongOption.{enter_long, leave_long}
use asap_clap.Parser.States.Final.{enter_final, finish}
use asap_clap.Parser.Machine.{
  State, identify_command_state, parse_options_state, parse_short_option_state,
  parse_long_option_state, dash_dash_state, final_state, Memory, Entered, Handled,
}
use asap_clap.Parser.Loop.Tokens.{step}

-- An entered or left state does not ask for its event again.
abbrev pub NotReissue : Entered → Type 0
NotReissue r = (m : Memory) → r ≢ done (reissue_event, m)

module _ (fmt : Fmt) where
  enter_found-NotReissue :
      (token : Text) (o : Option ClapOption) (m : Memory) → NotReissue (enter_found fmt token o m)
  unfolding enter_found
  enter_found-NotReissue token none m m' = ground arith
  enter_found-NotReissue token (some option) m m' = ground arith

  enter_short-NotReissue :
      (t : TokenType) (token : Text) (m : Memory) → NotReissue (enter_short fmt t token m)
  unfolding enter_short
  enter_short-NotReissue t token m m' = ground arith

  enter_long-NotReissue :
      (t : TokenType) (token : Text) (m : Memory) → NotReissue (enter_long fmt t token m)
  unfolding enter_long
  enter_long-NotReissue t token m m' = ground arith

  finish-NotReissue :
      (command : Command) (o : Option ClapOption) (m : Memory) (context : ParserContext)
      → NotReissue (finish fmt command o m context)
  unfolding finish
  finish-NotReissue command o m context m' = ground arith

  enter_final-NotReissue : (m : Memory) → NotReissue (enter_final fmt m)
  unfolding enter_final
  enter_final-NotReissue m m' = ground arith

  pub enter_identify-NotReissue : (token : Text) (m : Memory) → NotReissue (enter_identify token m)
  unfolding enter_identify
  enter_identify-NotReissue token m m' = ground arith

  leave_option-NotReissue :
      (o : Option Text) (reset : Memory → Memory) (m : Memory)
      → NotReissue (leave_option fmt o reset m)
  unfolding leave_option
  leave_option-NotReissue o reset m m' = ground arith

  pub on_leave-NotReissue : (s : State) (t : Token) (m : Memory) → NotReissue (on_leave fmt s t m)
  unfolding on_leave leave_identify leave_short leave_long
  on_leave-NotReissue parse_short_option_state t m m' = leave_option-NotReissue m.short_value _ m m'
  on_leave-NotReissue parse_long_option_state t m m' = leave_option-NotReissue m.long_value _ m m'
  on_leave-NotReissue _ t m m' = ground arith

  on_enter-NotReissue :
      (s : State) (t : Token) (b : Bool) (m : Memory)
      → s ≢ parse_options_state
      → NotReissue (on_enter fmt s t b m)
  unfolding on_enter
  on_enter-NotReissue identify_command_state t b m n = enter_identify-NotReissue t.text m
  on_enter-NotReissue parse_options_state t b m n = absurd (n refl)
  on_enter-NotReissue parse_short_option_state t b m n =
      enter_short-NotReissue t.token_type t.text m
  on_enter-NotReissue parse_long_option_state t b m n = enter_long-NotReissue t.token_type t.text m
  on_enter-NotReissue final_state t b m n = enter_final-NotReissue m
  on_enter-NotReissue _ t b m n = λ m' e. cc

  -- From here on the handlers stay shut. The result of an engine that has entered a state:
  abbrev entered : State → Entered → Outcome (Status × State × Memory)
  entered target r = r >>= λ (x : Status × Memory). done (x.0, target, x.1)

  entered-NotReissue :
      (target s' : State) (m' : Memory) (r : Entered)
      → NotReissue r
      → entered target r ≢ done (reissue_event, s', m')
  entered-NotReissue target s' m' (done (status, m)) n e = n m (ground arith)
  entered-NotReissue target s' m' (fault x) n e = cc

  entered-target :
      (target s' : State) (m' : Memory) (r : Entered)
      → entered target r ≡ done (reissue_event, s', m')
      → s' ≡ target
  entered-target target s' m' (done (status, m)) e = ground arith
  entered-target target s' m' (fault x) e = cc

  entered-options :
      (t : Token) (b : Bool) (target s' : State) (m m' : Memory)
      → entered target (on_enter fmt target t b m) ≡ done (reissue_event, s', m')
      → s' ≡ parse_options_state
  entered-options t b parse_options_state s' m m' e =
      entered-target parse_options_state s' m' (on_enter fmt parse_options_state t b m) e
  entered-options t b target s' m m' e =
      absurd (entered-NotReissue _ s' m' _ (on_enter-NotReissue _ t b m (λ p. cc)) e)

  left-options :
      (t : Token) (b : Bool) (s target s' : State) (m m' : Memory) (r : Entered)
      → NotReissue r
      → (r >>= after_leave (machine fmt) t s target b) ≡ done (reissue_event, s', m')
      → s' ≡ parse_options_state
  unfolding machine
  left-options t b s target s' m m' (fault x) n e = cc
  left-options t b s target s' m m' (done (continue, m1)) n e =
      entered-options t b target s' m1 m' e
  left-options t b s target s' m m' (done (terminate, m1)) n e = ground arith
  left-options t b s target s' m m' (done (terminate_with_error w, m1)) n e = ground arith
  left-options t b s target s' m m' (done (reissue_event, m1)) n e = absurd (n m1 refl)

  handled-options :
      (t : Token) (s s' : State) (m m' : Memory) (r : Handled)
      → (r >>= execute (machine fmt) t s) ≡ done (reissue_event, s', m')
      → s' ≡ parse_options_state
  unfolding machine
  handled-options t s s' m m' (fault x) e = cc
  handled-options t s s' m m' (done (do_nothing, m1)) e = ground arith
  handled-options t s s' m m' (done (report_error w, m1)) e = ground arith
  handled-options t s s' m m' (done (transition_to target b, m1)) e =
      left-options t b s target s' m1 m' (on_leave fmt s t m1) (on_leave-NotReissue s t m1) e

  -- An event is asked for again only on entering ParseOptionsState.
  pub step_reissue :
      (t : Token) (s s' : State) (m m' : Memory)
      → step fmt t s m ≡ done (reissue_event, s', m')
      → s' ≡ parse_options_state
  unfolding step
  step_reissue t s s' m m' e = handled-options t s s' m m' ((machine fmt).handle s t m) e

  step-options_at :
      (ty : TokenType) (text : Text) (m m' : Memory) (s' : State)
      → step fmt (token ty text) parse_options_state m ≢ done (reissue_event, s', m')
  unfolding step machine handle handle_options on_leave
  step-options_at short_option text m m' s' =
      entered-NotReissue _ s' m' _
        (on_enter-NotReissue parse_short_option_state (token short_option text) true m (λ p. cc))
  step-options_at lone_dash text m m' s' =
      entered-NotReissue _ s' m' _
        (on_enter-NotReissue parse_short_option_state (token lone_dash text) true m (λ p. cc))
  step-options_at long_option text m m' s' =
      entered-NotReissue _ s' m' _
        (on_enter-NotReissue parse_long_option_state (token long_option text) true m (λ p. cc))
  step-options_at dash_dash text m m' s' =
      entered-NotReissue _ s' m' _
        (on_enter-NotReissue dash_dash_state (token dash_dash text) true m (λ p. cc))
  step-options_at end_of_input text m m' s' =
      entered-NotReissue _ s' m' _
        (on_enter-NotReissue final_state (token end_of_input text) true m (λ p. cc))
  step-options_at value text m m' s' = λ e. cc
  step-options_at equal_sign text m m' s' = ground arith

  -- And never by that state itself.
  pub step-options :
      (t : Token) (m m' : Memory) (s' : State)
      → step fmt t parse_options_state m ≢ done (reissue_event, s', m')
  step-options t = step-options_at t.token_type t.text
