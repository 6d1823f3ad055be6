-- ===== src/Parser/Loop/Ending.antt =====
-- clap/src/parser/parser.cpp: the event that ends a parse without an error.
use asap_clap.Base.{
  Bool, true, false, ◌≡◌, ◌≢◌, refl, ◌∙◌, arith, Option, none, some, Text, Outcome, done, fault,
  ◌>>=◌, >>=-elim,
}
use asap_clap.Fsm.{
  Status, continue, terminate, reissue_event, terminate_with_error, do_nothing, report_error,
  transition_to,
}
use asap_clap.Fsm.Reference.{execute, after_leave}
use asap_clap.Format.{Fmt}
use asap_clap.Tokenizer.{Token, TokenType}
use asap_clap.Commands.{ClapOption}
use asap_clap.Parser.States.Handlers.{machine, on_enter, on_leave}
use asap_clap.Parser.States.Identify.{enter_identify, leave_identify}
use asap_clap.Parser.States.Options.{enter_options}
use asap_clap.Parser.States.ShortOption.{enter_found, enter_short, leave_option, leave_short}
use asap_clap.Parser.States.LongOption.{enter_long, leave_long}
use asap_clap.Parser.States.Final.{enter_final}
use asap_clap.Parser.Machine.{
  State, initial_state, identify_command_state, parse_options_state, parse_short_option_state,
  parse_long_option_state, dash_dash_state, final_state, Memory, Entered, Handled,
}
use asap_clap.Parser.Loop.Tokens.{step}

-- An entered or left state does not end the parse with success.
abbrev NotTerminate : Entered → Type 0
NotTerminate r = (m : Memory) → r ≢ done (terminate, m)

module _ (fmt : Fmt) where
  enter_found-NotTerminate :
      (token : Text) (o : Option ClapOption) (m : Memory) → NotTerminate (enter_found fmt token o m)
  unfolding enter_found
  enter_found-NotTerminate token none m m' = ground arith
  enter_found-NotTerminate token (some option) m m' = ground arith

  enter_short-NotTerminate :
      (t : TokenType) (token : Text) (m : Memory) → NotTerminate (enter_short fmt t token m)
  unfolding enter_short
  enter_short-NotTerminate t token m m' = ground arith

  enter_long-NotTerminate :
      (t : TokenType) (token : Text) (m : Memory) → NotTerminate (enter_long fmt t token m)
  unfolding enter_long
  enter_long-NotTerminate t token m m' = ground arith

  enter_options-NotTerminate :
      (t : TokenType) (b : Bool) (m : Memory) → NotTerminate (enter_options t b m)
  unfolding enter_options
  enter_options-NotTerminate t true m m' = ground arith
  enter_options-NotTerminate t false m m' = ground arith

  enter_identify-NotTerminate : (token : Text) (m : Memory) → NotTerminate (enter_identify token m)
  unfolding enter_identify
  enter_identify-NotTerminate token m m' = ground arith

  leave_option-NotTerminate :
      (o : Option Text) (reset : Memory → Memory) (m : Memory)
      → NotTerminate (leave_option fmt o reset m)
  unfolding leave_option
  leave_option-NotTerminate o reset m m' = ground arith

  on_leave-NotTerminate : (s : State) (t : Token) (m : Memory) → NotTerminate (on_leave fmt s t m)
  unfolding on_leave leave_identify leave_short leave_long
  on_leave-NotTerminate parse_short_option_state t m m' =
      leave_option-NotTerminate m.short_value _ m m'
  on_leave-NotTerminate parse_long_option_state t m m' =
      leave_option-NotTerminate m.long_value _ m m'
  on_leave-NotTerminate _ t m m' = ground arith

  on_enter_final :
      (s : State) (t : Token) (b : Bool) (m m' : Memory)
      → on_enter fmt s t b m ≡ done (terminate, m')
      → (s ≡ final_state) × (enter_final fmt m ≡ done (terminate, m'))
  unfolding on_enter
  on_enter_final initial_state t b m m' e = absurd (ground arith)
  on_enter_final dash_dash_state t b m m' e = absurd (ground arith)
  on_enter_final identify_command_state t b m m' e =
      absurd (enter_identify-NotTerminate t.text m m' e)
  on_enter_final parse_options_state t b m m' e =
      absurd (enter_options-NotTerminate t.token_type b m m' e)
  on_enter_final parse_short_option_state t b m m' e =
      absurd (enter_short-NotTerminate t.token_type t.text m m' e)
  on_enter_final parse_long_option_state t b m m' e =
      absurd (enter_long-NotTerminate t.token_type t.text m m' e)
  on_enter_final final_state t b m m' e = (refl, e)

  -- How an event ends the parse: it is handled by going to FinalState, which is entered in some
  -- memory with that status.
  pub record EndsBy (t : Token) (s : State) (m m' : Memory) : Type 0 where
    pub data_given : Bool
    pub handled : Memory
    pub to_final : (machine fmt).handle s t m ≡ done (transition_to final_state data_given, handled)
    pub before : Memory
    pub entered_final : enter_final fmt before ≡ done (terminate, m')

  abbrev entered : State → Entered → Outcome (Status × State × Memory)
  entered target r = r >>= λ (x : Status × Memory). done (x.0, target, x.1)

  entered-EndsBy :
      (t : Token) (b : Bool) (s target s' : State) (m m1 m2 m' : Memory)
      → (machine fmt).handle s t m ≡ done (transition_to target b, m1)
      → entered target (on_enter fmt target t b m2) ≡ done (terminate, s', m')
      → EndsBy t s m m'
  entered-EndsBy t b s target s' m m1 m2 m' h e =
      >>=-elim (on_enter fmt target t b m2) _ e (λ r here now.
        let ends : r.0 ≡ terminate = ground arith in
        let same : r.1 ≡ m' = ground arith in
        let (final, enters) = on_enter_final target t b m2 m' (here ∙ rw (ends, same) refl) in
        record {
          data_given = b;
          handled = m1;
          to_final = h ∙ rw final refl;
          before = m2;
          entered_final = enters;
        })

  left-EndsBy :
      (t : Token) (b : Bool) (s target s' : State) (m m1 m' : Memory) (r : Entered)
      → (machine fmt).handle s t m ≡ done (transition_to target b, m1)
      → NotTerminate r
      → (r >>= after_leave (machine fmt) t s target b) ≡ done (terminate, s', m')
      → EndsBy t s m m'
  unfolding machine
  left-EndsBy t b s target s' m m1 m' (fault x) h n e = absurd cc
  left-EndsBy t b s target s' m m1 m' (done (continue, m2)) h n e =
      entered-EndsBy t b s target s' m m1 m2 m' h e
  left-EndsBy t b s target s' m m1 m' (done (terminate, m2)) h n e = absurd (n m2 refl)
  left-EndsBy t b s target s' m m1 m' (done (terminate_with_error w, m2)) h n e =
      absurd (ground arith)
  left-EndsBy t b s target s' m m1 m' (done (reissue_event, m2)) h n e = absurd (ground arith)

  handled-EndsBy :
      (t : Token) (s s' : State) (m m' : Memory) (r : Handled)
      → (machine fmt).handle s t m ≡ r
      → (r >>= execute (machine fmt) t s) ≡ done (terminate, s', m')
      → EndsBy t s m m'
  unfolding machine
  handled-EndsBy t s s' m m' (fault x) h e = absurd cc
  handled-EndsBy t s s' m m' (done (do_nothing, m1)) h e = absurd (ground arith)
  handled-EndsBy t s s' m m' (done (report_error w, m1)) h e = absurd (ground arith)
  handled-EndsBy t s s' m m' (done (transition_to target b, m1)) h e =
      left-EndsBy t b s target s' m m1 m' (on_leave fmt s t m1) h (on_leave-NotTerminate s t m1) e

  pub step-EndsBy :
      (t : Token) (s s' : State) (m m' : Memory)
      → step fmt t s m ≡ done (terminate, s', m')
      → EndsBy t s m m'
  unfolding step
  step-EndsBy t s s' m m' e = handled-EndsBy t s s' m m' ((machine fmt).handle s t m) refl e
