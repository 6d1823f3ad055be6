-- ===== src/Parser/Loop/Fuel.antt =====
-- clap/src/parser/parser.cpp: the rounds that the loop of `Parse` is given, once they are enough.
use asap_clap.Base.{
  ℕ, zero, suc, ◌≤◌, List, ◌≡◌, arith, Option, some, Outcome, done, fault, Bool-cases, inl, inr,
}
use asap_clap.Fsm.{Status, continue, terminate, reissue_event, terminate_with_error}
use asap_clap.Format.{Fmt}
use asap_clap.Tokenizer.{Token}
use asap_clap.Tokenizer.Stream.{front, rest}
use asap_clap.Parser.Machine.{State, Memory}
use asap_clap.Parser.Loop.{Parsed, is_end, react}
use asap_clap.Parser.Loop.Tokens.{run_tokens}

module _ (fmt : Fmt) where
  react_keeps :
      {again again' next next' : State → Memory → Option Parsed} (t : Token)
      (r : Outcome (Status × State × Memory)) (result : Parsed)
      → ((s : State) (m : Memory) → again s m ≡ some result → again' s m ≡ some result)
      → ((s : State) (m : Memory) → next s m ≡ some result → next' s m ≡ some result)
      → react fmt again next t r ≡ some result
      → react fmt again' next' t r ≡ some result
  unfolding react
  react_keeps t (fault x) result p q e = e
  react_keeps t (done (terminate, s, m)) result p q e = e
  react_keeps t (done (terminate_with_error why, s, m)) result p q e = e
  react_keeps t (done (reissue_event, s, m)) result p q e = p s m e
  react_keeps t (done (continue, s, m)) result p q e = elim (Bool-cases (is_end t.token_type)) [
    | inl end ↦ rw (end, react) (rw (end, react) at e)
    | inr more ↦ rw (more, react) (q s m (rw (more, react) at e))
  ]

  pub run_tokens_fuel :
      (f g : ℕ) (ts : List Token) (s : State) (m : Memory) (result : Parsed)
      → f ≤ g
      → run_tokens fmt f ts s m ≡ some result
      → run_tokens fmt g ts s m ≡ some result
  unfolding run_tokens
  run_tokens_fuel zero g ts s m result h e = absurd (ground arith)
  run_tokens_fuel (suc f) zero ts s m result h e = absurd (omega arith)
  run_tokens_fuel (suc f) (suc g) ts s m result h e =
      react_keeps (front ts) _ result (λ s' m'. run_tokens_fuel f g ts s' m' result (omega arith))
        (λ s' m'. run_tokens_fuel f g (rest ts) s' m' result (omega arith)) e
