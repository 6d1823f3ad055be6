-- ===== src/Parser/Loop/Total.antt =====
-- clap/src/parser/parser.cpp: the rounds that the loop of `Parse` takes.
use asap_clap.Base.{
  ℕ, zero, suc, ◌+◌, ◌*◌, ◌≤◌, false, List, [], ◌∷◌, ◌≡◌, refl, ◌∙◌, arith, Option, some, Text,
  Outcome, done, fault, length, inl, inr, Bool-cases,
}
use asap_clap.Fsm.{
  Status, continue, terminate, reissue_event, terminate_with_error, Engine, IsEngine,
}
use asap_clap.Format.{Fmt}
use asap_clap.Tokenizer.{Token, tokenizer_of}
use asap_clap.Tokenizer.Stream.{arg_tokens, front, rest}
use asap_clap.Commands.{Command}
use asap_clap.Parser.Context.{CommandLineContext}
use asap_clap.Parser.Machine.{State, initial_state, parse_options_state, Memory}
use asap_clap.Parser.Loop.{Parsed, is_end, react, parse}
use asap_clap.Parser.Loop.Tokens.{run_tokens, start, parse-run_tokens}
use asap_clap.Parser.Loop.Reissue.{step_reissue, step-options}

-- Rounds that are enough for the tokens, each of which may be handled twice, and EndOfInput.
abbrev pub enough : List Token → ℕ
enough ts = 2 * length ts + 2

abbrev pub Ends : Option Parsed → Type 0
Ends o = (r : Parsed) × (o ≡ some r)

module _ (fmt : Fmt) where
  react-Ends :
      (again next : State → Memory → Option Parsed) (t : Token)
      (r : Outcome (Status × State × Memory))
      → ((s : State) (m : Memory) → r ≡ done (reissue_event, s, m) → Ends (again s m))
      → (is_end t.token_type ≡ false → (s : State) (m : Memory) → Ends (next s m))
      → Ends (react fmt again next t r)
  unfolding react
  react-Ends again next t (fault x) p q = (_, refl)
  react-Ends again next t (done (terminate, s, m)) p q = (_, refl)
  react-Ends again next t (done (terminate_with_error why, s, m)) p q = (_, refl)
  react-Ends again next t (done (reissue_event, s, m)) p q = p s m refl
  react-Ends again next t (done (continue, s, m)) p q = elim (Bool-cases (is_end t.token_type)) [
    | inl end ↦ rw (end, react) (_, refl)
    | inr more ↦ rw (more, react) (q more s m)
  ]

  abbrev NextEnds : ℕ → List Token → Type 0
  NextEnds fuel ts =
      is_end (front ts).token_type ≡ false
      → (s : State) (m : Memory) → Ends (run_tokens fmt fuel (rest ts) s m)

  options-Ends :
      (fuel : ℕ) (ts : List Token) (m : Memory)
      → NextEnds fuel ts
      → Ends (run_tokens fmt (suc fuel) ts parse_options_state m)
  unfolding run_tokens
  options-Ends fuel ts m next =
      react-Ends _ _ (front ts) _ (λ s' m' e. absurd (step-options fmt (front ts) m m' s' e)) next

  round-Ends :
      (fuel : ℕ) (ts : List Token) (s : State) (m : Memory)
      → NextEnds fuel ts
      → NextEnds (suc fuel) ts
      → Ends (run_tokens fmt (suc (suc fuel)) ts s m)
  unfolding run_tokens
  round-Ends fuel ts s m now later =
      react-Ends _ _ (front ts) _
        (λ s' m' e. rw (step_reissue fmt (front ts) s s' m m' e) (options-Ends fuel ts m' now))
        later

  -- With two rounds for each token and two more, the loop over a list of tokens ends, from every
  -- state.
  pub run_tokens-Ends :
      (ts : List Token) (fuel : ℕ) (s : State) (m : Memory)
      → enough ts ≤ fuel
      → Ends (run_tokens fmt fuel ts s m)
  run_tokens-Ends ts zero s m h = absurd (omega arith)
  run_tokens-Ends ts (suc zero) s m h = absurd (omega arith)
  run_tokens-Ends [] (suc (suc fuel)) s m h = round-Ends fuel [] s m (λ e. cc) (λ e. cc)
  run_tokens-Ends (t ∷ ts) (suc (suc fuel)) s m h =
      round-Ends fuel (t ∷ ts) s m (λ _ s' m'. run_tokens-Ends ts fuel s' m' (omega arith))
        (λ _ s' m'. run_tokens-Ends ts (suc fuel) s' m' (omega arith))

  -- `Parse` ends on every command line, on every engine: with two rounds for each token and two
  -- more, the fuel does not run out.
  pub parse_total :
      {engine : Engine} (law : IsEngine engine) (base : CommandLineContext) (args : List Text)
      (commands : List Command) (fuel : ℕ)
      → enough (arg_tokens args) ≤ fuel
      → (r : Parsed) × (parse engine fmt fuel base (tokenizer_of args) commands ≡ some r)
  parse_total law base args commands fuel h =
      let (r, e) =
        run_tokens-Ends (arg_tokens args) fuel initial_state (start fmt base commands) h in
      (r, parse-run_tokens fmt law fuel base args commands ∙ e)
