-- ===== src/Parser/Loop/Failure.antt =====
-- clap/src/parser/parser.cpp: what `Parse` has written when it returns false.
use asap_clap.Base.{
  ℕ, zero, suc, false, List, [], ◌∷◌, ◌++◌, codes, arith, ◌≡◌, refl, sym, ◌∙◌, Option, some, Text,
  Outcome, done, fault, inl, inr, Bool-cases,
}
use asap_clap.Fsm.{
  Status, continue, terminate, reissue_event, terminate_with_error, IsEngine, Engine,
}
use asap_clap.Format.{Fmt}
use asap_clap.Tokenizer.{Token, tokenizer_of}
use asap_clap.Tokenizer.Stream.{arg_tokens, front, rest}
use asap_clap.Commands.{Command}
use asap_clap.Parser.Context.{CommandLineContext, ParserContext}
use asap_clap.Parser.Machine.{State, initial_state, Memory}
use asap_clap.Parser.Loop.{Parsed, is_end, react, parse, report}
use asap_clap.Parser.Loop.Tokens.{run_tokens, start, parse-run_tokens}

module _ (fmt : Fmt) where
  -- A context whose last piece of error output is an error line.
  abbrev pub IsReported : ParserContext → Type 0
  IsReported c =
      (before : List Text) × (why : Text) × (c.err
        ≡ before ++ (fmt.format (codes "{}: {}") (c.program_name ∷ why ∷ []) ++ codes "\n") ∷ [])

  abbrev IfFalse : Option Parsed → Type 0
  IfFalse o = (c : ParserContext) → o ≡ some (done (false, c)) → IsReported c

  react-IsReported :
      (again next : State → Memory → Option Parsed) (t : Token)
      (r : Outcome (Status × State × Memory))
      → ((s : State) (m : Memory) → IfFalse (again s m))
      → ((s : State) (m : Memory) → IfFalse (next s m))
      → IfFalse (react fmt again next t r)
  unfolding react
  react-IsReported again next t (fault x) p q c e = absurd (ground arith)
  react-IsReported again next t (done (terminate, s, m)) p q c e = absurd (ground arith)
  react-IsReported again next t (done (terminate_with_error why, s, m)) p q c e =
      let same : report fmt why m.context ≡ c = ground arith in
      rw (← same) (m.context.err, why, refl)
  react-IsReported again next t (done (reissue_event, s, m)) p q c e = p s m c e
  react-IsReported again next t (done (continue, s, m)) p q c e =
      elim (Bool-cases (is_end t.token_type)) [
        | inl end ↦ absurd (let e' = rw (end, react) at e in ground arith)
        | inr more ↦ q s m c (rw (more, react) at e)
      ]

  run_tokens-IsReported :
      (fuel : ℕ) (ts : List Token) (s : State) (m : Memory) → IfFalse (run_tokens fmt fuel ts s m)
  unfolding run_tokens
  run_tokens-IsReported zero ts s m = λ c e. absurd (ground arith)
  run_tokens-IsReported (suc fuel) ts s m =
      react-IsReported _ _ (front ts) _ (run_tokens-IsReported fuel ts)
        (run_tokens-IsReported fuel (rest ts))

  -- When `Parse` returns false, the last thing that it did was to write an error line to the error
  -- stream: the program name and a message.
  pub parse_failure :
      {engine : Engine} (law : IsEngine engine) (fuel : ℕ) (base : CommandLineContext)
      (args : List Text) (commands : List Command) (c : ParserContext)
      → parse engine fmt fuel base (tokenizer_of args) commands ≡ some (done (false, c))
      → IsReported c
  parse_failure law fuel base args commands c e =
      run_tokens-IsReported fuel (arg_tokens args) initial_state (start fmt base commands) c
        (sym (parse-run_tokens fmt law fuel base args commands) ∙ e)
