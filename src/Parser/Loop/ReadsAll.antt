-- ===== src/Parser/Loop/ReadsAll.antt =====
-- clap/src/parser/parser.cpp: the tokens, of the arguments in front of the first empty one, that are left where
-- `Parse` ends without an error.
use asap_clap.Base.{
  ℕ, Bool, true, false, List, [], ◌∷◌, ◌≡◌, ◌≢◌, refl, sym, subst, ◌∙◌, arith, some, Text, done,
  inl, inr, Bool-cases, All, All-append,
}
use asap_clap.Fsm.{terminate, transition_to, Engine, IsEngine}
use asap_clap.Format.{Fmt}
use asap_clap.Tokenizer.{Token, TokenType, dash_dash, value, equal_sign, end_of_input, tokenizer_of}
use asap_clap.Tokenizer.Stream.{arg_tokens, front, WellShaped, HasShape, tokens_of-WellShaped}
use asap_clap.Commands.{Command}
use asap_clap.Parser.Context.{CommandLineContext, ParserContext}
use asap_clap.Parser.States.Handlers.{machine, handle}
use asap_clap.Parser.States.Initial.{handle_initial}
use asap_clap.Parser.States.Identify.{handle_identify}
use asap_clap.Parser.States.Options.{handle_options}
use asap_clap.Parser.States.ShortOption.{handle_short}
use asap_clap.Parser.States.LongOption.{handle_long}
use asap_clap.Parser.Machine.{
  State, initial_state, identify_command_state, parse_options_state, parse_short_option_state,
  parse_long_option_state, dash_dash_state, final_state, Memory, Handled,
}
use asap_clap.Parser.Loop.{is_end, parse}
use asap_clap.Parser.Loop.Ending.{step-EndsBy}
use asap_clap.Parser.Loop.Tokens.{step, start, parse-run_tokens}
use asap_clap.Parser.Loop.Reached.{here, EndsAt, run_tokens-EndsSomewhere, Reached-All}

module _ (fmt : Fmt) where
  -- FinalState is gone to only at the end of the input.
  abbrev NotFinal : Handled → Type 0
  NotFinal r = (b : Bool) (m : Memory) → r ≢ done (transition_to final_state b, m)

  initial-NotFinal :
      (ty : TokenType) (text : Text) (m : Memory)
      → is_end ty ≡ false
      → NotFinal (handle_initial fmt ty text m)
  unfolding handle_initial
  initial-NotFinal end_of_input text m h b m' = absurd cc
  initial-NotFinal value text m h b m' = ground arith
  initial-NotFinal dash_dash text m h b m' = ground arith
  initial-NotFinal _ text m h b m' = ground arith

  identify-NotFinal :
      (ty : TokenType) (text : Text) (m : Memory)
      → is_end ty ≡ false
      → NotFinal (handle_identify fmt ty text m)
  unfolding handle_identify
  identify-NotFinal end_of_input text m h b m' = absurd cc
  identify-NotFinal value text m h b m' = ground arith
  identify-NotFinal dash_dash text m h b m' = ground arith
  identify-NotFinal _ text m h b m' = ground arith

  options-NotFinal :
      (ty : TokenType) (text : Text) (m : Memory)
      → is_end ty ≡ false
      → NotFinal (handle_options fmt ty text m)
  unfolding handle_options
  options-NotFinal end_of_input text m h b m' = absurd cc
  options-NotFinal _ text m h b m' = ground arith

  short-NotFinal :
      (ty : TokenType) (text : Text) (m : Memory) → NotFinal (handle_short fmt ty text m)
  unfolding handle_short
  short-NotFinal value text m b m' = ground arith
  short-NotFinal _ text m b m' = ground arith

  long-NotFinal : (ty : TokenType) (text : Text) (m : Memory) → NotFinal (handle_long fmt ty text m)
  unfolding handle_long
  long-NotFinal value text m b m' = ground arith
  long-NotFinal equal_sign text m b m' = ground arith
  long-NotFinal _ text m b m' = ground arith

  handle-NotFinal :
      (s : State) (t : Token) (m : Memory)
      → is_end t.token_type ≡ false
      → NotFinal ((machine fmt).handle s t m)
  unfolding machine handle
  handle-NotFinal initial_state t m h = initial-NotFinal t.token_type t.text m h
  handle-NotFinal identify_command_state t m h = identify-NotFinal t.token_type t.text m h
  handle-NotFinal parse_options_state t m h = options-NotFinal t.token_type t.text m h
  handle-NotFinal parse_short_option_state t m h = short-NotFinal t.token_type t.text m
  handle-NotFinal parse_long_option_state t m h = long-NotFinal t.token_type t.text m
  handle-NotFinal dash_dash_state t m h = λ b m' e. ground arith
  handle-NotFinal final_state t m h = λ b m' e. ground arith

  ends_at_end :
      (t : Token) (s s' : State) (m m' : Memory)
      → step fmt t s m ≡ done (terminate, s', m')
      → is_end t.token_type ≡ true
  ends_at_end t s s' m m' e = elim (Bool-cases (is_end t.token_type)) [
    | inl end ↦ end
    | inr more ↦
        let by = step-EndsBy fmt t s s' m m' e in
        absurd (handle-NotFinal s t m more by.data_given by.handled by.to_final)
  ]

  not_end : (ty : TokenType) (text : Text) → HasShape ty text → is_end ty ≢ true
  not_end end_of_input text h = absurd h
  not_end _ text h = λ e. cc

  WellShaped-end :
      (ts : List Token) → All WellShaped ts → is_end (front ts).token_type ≡ true → ts ≡ []
  WellShaped-end [] h e = refl
  WellShaped-end (t ∷ ts) h e = absurd (not_end t.token_type t.text h.0 e)

  arg_tokens-WellShaped : (args : List Text) → All WellShaped (arg_tokens args)
  arg_tokens-WellShaped [] = tt
  arg_tokens-WellShaped ([] ∷ args) = tt
  arg_tokens-WellShaped ((c ∷ cs) ∷ args) =
      All-append WellShaped _ _ (tokens_of-WellShaped (c ∷ cs)) (arg_tokens-WellShaped args)

  EndsAt-end :
      (all ts : List Token) (from : State) (begun : Memory) (c : ParserContext)
      → All WellShaped all
      → EndsAt fmt all from begun ts c
      → EndsAt fmt all from begun [] c
  EndsAt-end all ts from begun c h a =
      let e =
        WellShaped-end ts (Reached-All fmt all from begun WellShaped a.reached h)
          (ends_at_end (front ts) a.last_state a.end_state a.last_memory a.end_memory a.ends) in
      subst (λ us. EndsAt fmt all from begun us c) e a

  -- When `Parse` returns true, no token of the arguments in front of the first empty one is left, which
  -- are all arguments if none is empty: from its start, the steps of the state machine lead through all
  -- these tokens, and the machine ends at EndOfInput, in the context that `Parse` leaves.
  pub parse_reads_all :
      {engine : Engine} (law : IsEngine engine) (fuel : ℕ) (base : CommandLineContext)
      (args : List Text) (commands : List Command) (c : ParserContext)
      → parse engine fmt fuel base (tokenizer_of args) commands ≡ some (done (true, c))
      → EndsAt fmt (arg_tokens args) initial_state (start fmt base commands) [] c
  parse_reads_all law fuel base args commands c e =
      let all = arg_tokens args in
      let begun = start fmt base commands in
      let (ts, a) =
        run_tokens-EndsSomewhere fmt all initial_state begun fuel all initial_state begun c here
          (sym (parse-run_tokens fmt law fuel base args commands) ∙ e) in
      EndsAt-end all ts initial_state begun c (arg_tokens-WellShaped args) a
