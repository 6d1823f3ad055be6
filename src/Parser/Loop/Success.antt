-- ===== src/Parser/Loop/Success.antt =====
-- clap/src/parser/parser.cpp: what holds when `Parse` returns true.
use asap_clap.Base.{
  ℕ, zero, suc, true, List, ◌≡◌, refl, sym, ◌∙◌, arith, Option, some, Text, Outcome, done, fault,
  inl, inr, Bool-cases,
}
use asap_clap.Fsm.{
  Status, continue, terminate, reissue_event, terminate_with_error, Engine, IsEngine,
}
use asap_clap.Format.{Fmt}
use asap_clap.Tokenizer.{Token, tokenizer_of}
use asap_clap.Tokenizer.Stream.{arg_tokens, front, rest}
use asap_clap.Commands.{Command}
use asap_clap.Parser.Context.{CommandLineContext, ParserContext}
use asap_clap.Parser.States.Complete.{Complete, enter_final-Complete}
use asap_clap.Parser.Machine.{State, initial_state, Memory}
use asap_clap.Parser.Loop.Ending.{step-EndsBy}
use asap_clap.Parser.Loop.{Parsed, is_end, react, parse}
use asap_clap.Parser.Loop.Tokens.{step, run_tokens, start, parse-run_tokens}

module _ (fmt : Fmt) where
  -- A context in which the parse of some command is complete.
  abbrev pub IsComplete : ParserContext → Type 0
  IsComplete c = (command : Command) × Complete fmt command c

  step-IsComplete :
      (t : Token) (s s' : State) (m m' : Memory)
      → step fmt t s m ≡ done (terminate, s', m')
      → IsComplete m'.context
  step-IsComplete t s s' m m' e =
      let ends = step-EndsBy fmt t s s' m m' e in
      enter_final-Complete fmt ends.before m' ends.entered_final

  abbrev IfTrue : Option Parsed → Type 0
  IfTrue o = (c : ParserContext) → o ≡ some (done (true, c)) → IsComplete c

  react-IsComplete :
      (again next : State → Memory → Option Parsed) (t : Token)
      (r : Outcome (Status × State × Memory))
      → ((s' : State) (m' : Memory) → r ≡ done (terminate, s', m') → IsComplete m'.context)
      → ((s : State) (m : Memory) → IfTrue (again s m))
      → ((s : State) (m : Memory) → IfTrue (next s m))
      → IfTrue (react fmt again next t r)
  unfolding react
  react-IsComplete again next t (fault x) h p q c e = absurd (ground arith)
  react-IsComplete again next t (done (terminate, s, m)) h p q c e =
      let same : m.context ≡ c = ground arith in rw (← same) (h s m refl)
  react-IsComplete again next t (done (terminate_with_error why, s, m)) h p q c e =
      absurd (ground arith)
  react-IsComplete again next t (done (reissue_event, s, m)) h p q c e = p s m c e
  react-IsComplete again next t (done (continue, s, m)) h p q c e =
      elim (Bool-cases (is_end t.token_type)) [
        | inl end ↦ absurd (let e' = rw (end, react) at e in ground arith)
        | inr more ↦ q s m c (rw (more, react) at e)
      ]

  run_tokens-IsComplete :
      (fuel : ℕ) (ts : List Token) (s : State) (m : Memory) → IfTrue (run_tokens fmt fuel ts s m)
  unfolding run_tokens
  run_tokens-IsComplete zero ts s m = λ c e. absurd (ground arith)
  run_tokens-IsComplete (suc fuel) ts s m =
      react-IsComplete _ _ (front ts) _ (λ s' m'. step-IsComplete (front ts) s s' m m')
        (run_tokens-IsComplete fuel ts) (run_tokens-IsComplete fuel (rest ts))

  -- When `Parse` returns true, a command was identified, no positional token is left, and every
  -- option of the command, positional ones included, has a value if it is required or if it has a
  -- default value.
  pub parse_success :
      {engine : Engine} (law : IsEngine engine) (fuel : ℕ) (base : CommandLineContext)
      (args : List Text) (commands : List Command) (c : ParserContext)
      → parse engine fmt fuel base (tokenizer_of args) commands ≡ some (done (true, c))
      → IsComplete c
  parse_success law fuel base args commands c e =
      run_tokens-IsComplete fuel (arg_tokens args) initial_state (start fmt base commands) c
        (sym (parse-run_tokens fmt law fuel base args commands) ∙ e)
