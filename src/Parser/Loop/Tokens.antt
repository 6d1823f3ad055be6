-- ===== src/Parser/Loop/Tokens.antt =====
-- clap/src/parser/parser.cpp: the loop of `Parse` over a list of tokens, with no tokenizer.
use asap_clap.Base.{
  ℕ, zero, suc, false, List, [], ◌∷◌, ◌≡◌, ◌≢◌, refl, Option, none, Text, Outcome, done, fault,
  Bool-cases, inl, inr,
}
use asap_clap.Fsm.{
  Status, continue, terminate, reissue_event, terminate_with_error, Engine, IsEngine,
}
use asap_clap.Fsm.Reference.{reference, engine-reference, reference-IsEngine}
use asap_clap.Format.{Fmt}
use asap_clap.Tokenizer.{Token, Tokenizer, tokenizer_of, next_token}
use asap_clap.Tokenizer.Stream.{arg_tokens, pending, front, rest, next_token-HandsOut}
use asap_clap.Commands.{Command}
use asap_clap.Parser.Context.{CommandLineContext, new_parser_context}
use asap_clap.Parser.States.Initial.{initial_context}
use asap_clap.Parser.States.Handlers.{machine}
use asap_clap.Parser.Machine.{State, initial_state, Memory, new_memory}
use asap_clap.Parser.Loop.{Parsed, is_end, react, with_token, loop, parse}

module _ (fmt : Fmt) where
  -- One event on the reference engine.
  unfoldable pub step : Token → State → Memory → Outcome (Status × State × Memory)
  step token s m = reference State Token Memory (machine fmt) token s m

  -- The loop over a list of tokens, with EndOfInput behind them.
  unfoldable pub run_tokens : ℕ → List Token → State → Memory → Option Parsed
  unfolding react
  run_tokens zero ts s m = none
  run_tokens (suc fuel) ts s m =
      react fmt (run_tokens fuel ts) (run_tokens fuel (rest ts)) (front ts) (step (front ts) s m)

  -- Rounds that agree make the loop agree.
  react_ext :
      {again again' next next' : State → Memory → Option Parsed} (token : Token)
      (r : Outcome (Status × State × Memory))
      → ((s : State) (m : Memory) → again s m ≡ again' s m)
      → (is_end token.token_type ≡ false → (s : State) (m : Memory) → next s m ≡ next' s m)
      → react fmt again next token r ≡ react fmt again' next' token r
  unfolding react
  react_ext token (fault x) p q = refl
  react_ext token (done (terminate, s, m)) p q = refl
  react_ext token (done (terminate_with_error why, s, m)) p q = refl
  react_ext token (done (reissue_event, s, m)) p q = p s m
  react_ext token (done (continue, s, m)) p q = elim (Bool-cases (is_end token.token_type)) [
    | inl end ↦ rw (end, react)
    | inr more ↦ rw (more, react) (q more s m)
  ]

  -- The round with the next token, from the agreement on the tokens that are left.
  next_round :
      (fuel : ℕ) (ts : List Token) (tokenizer : Tokenizer)
      → (ts ≢ [] → pending tokenizer ≡ rest ts)
      → ((s : State) (m : Memory) (tokenizer' : Tokenizer)
          → (rest ts ≢ [] → pending tokenizer' ≡ rest (rest ts))
          → loop reference fmt fuel (front (rest ts)) s m tokenizer'
            ≡ run_tokens fuel (rest ts) s m)
      → is_end (front ts).token_type ≡ false
      → (s : State) (m : Memory)
      → with_token
          (λ token' tokenizer'. loop reference fmt fuel token' s m tokenizer')
          (next_token reference tokenizer)
        ≡ run_tokens fuel (rest ts) s m
  unfolding with_token
  next_round fuel [] tokenizer h ih more s m = cc
  next_round fuel (t ∷ ts) tokenizer h ih more s m =
      let left : pending tokenizer ≡ ts = h (λ e. cc) in
      let (tokenizer', e, p) = next_token-HandsOut reference-IsEngine tokenizer in
      rw (e, left) (ih s m tokenizer' (λ n. rw left at (p (rw left n))))

  loop-run_tokens :
      (fuel : ℕ) (ts : List Token) (s : State) (m : Memory) (tokenizer : Tokenizer)
      → (ts ≢ [] → pending tokenizer ≡ rest ts)
      → loop reference fmt fuel (front ts) s m tokenizer ≡ run_tokens fuel ts s m
  unfolding loop run_tokens step
  loop-run_tokens zero ts s m tokenizer h = refl
  loop-run_tokens (suc fuel) ts s m tokenizer h =
      react_ext (front ts) _ (λ s' m'. loop-run_tokens fuel ts s' m' tokenizer h)
        (next_round fuel ts tokenizer h (loop-run_tokens fuel (rest ts)))

  abbrev pub start : CommandLineContext → List Command → Memory
  start base commands = new_memory (initial_context (new_parser_context base commands))

  parse-reference :
      (fuel : ℕ) (base : CommandLineContext) (args : List Text) (commands : List Command)
      → parse reference fmt fuel base (tokenizer_of args) commands
        ≡ run_tokens fuel (arg_tokens args) initial_state (start base commands)
  unfolding parse
  parse-reference fuel base args commands =
      let (tokenizer', e, p) = next_token-HandsOut reference-IsEngine (tokenizer_of args) in
      rw e (loop-run_tokens fuel (arg_tokens args) initial_state (start base commands) tokenizer' p)

  -- On every engine, `Parse` does with the arguments what the loop over their token stream does: it
  -- depends on nothing else of them.
  pub parse-run_tokens :
      {engine : Engine} (law : IsEngine engine) (fuel : ℕ) (base : CommandLineContext)
      (args : List Text) (commands : List Command)
      → parse engine fmt fuel base (tokenizer_of args) commands
        ≡ run_tokens fuel (arg_tokens args) initial_state (start base commands)
  parse-run_tokens law fuel base args commands =
      rw (engine-reference law) (parse-reference fuel base args commands)
