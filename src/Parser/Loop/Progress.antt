-- ===== src/Parser/Loop/Progress.antt =====
-- clap/src/parser/parser.cpp: every round of `Parse` is followed by a last one.
use asap_clap.Base.{
  ℕ, zero, suc, ◌+◌, ◌≤◌, false, List, ◌≡◌, refl, sym, ap, ◌∙◌, arith, Option, some, Text, Outcome,
  done, fault, inl, inr, Bool-cases,
}
use asap_clap.Fsm.{
  Status, continue, terminate, reissue_event, terminate_with_error, Engine, IsEngine,
}
use asap_clap.Format.{Fmt}
use asap_clap.Tokenizer.{Token, tokenizer_of}
use asap_clap.Tokenizer.Stream.{arg_tokens, front, rest}
use asap_clap.Commands.{Command}
use asap_clap.Parser.Context.{CommandLineContext}
use asap_clap.Parser.Machine.{State, initial_state, Memory}
use asap_clap.Parser.Loop.{Parsed, is_end, react, parse}
use asap_clap.Parser.Loop.Tokens.{step, run_tokens, start, parse-run_tokens}
use asap_clap.Parser.Loop.Total.{enough, run_tokens-Ends, parse_total}
use asap_clap.Parser.Loop.Fuel.{run_tokens_fuel}
use asap_clap.Parser.Loop.Reached.{Reached, here, same_token, next_token}

module _ (fmt : Fmt) where
  -- The round gives the result whatever the rounds behind it would give: it is the last one.
  abbrev pub IsLast : List Token → State → Memory → Parsed → Type 0
  IsLast ts s m r =
      (again next : State → Memory → Option Parsed)
      → react fmt again next (front ts) (step fmt (front ts) s m) ≡ some r

  -- A last round that is reached from a round.
  pub record LastRound (ts : List Token) (s : State) (m : Memory) (r : Parsed) : Type 0 where
    pub tokens : List Token
    pub state : State
    pub memory : Memory
    pub reached : Reached fmt ts s m tokens state memory
    pub is_last : IsLast tokens state memory r

  module _ (all : List Token) (from : State) (begun : Memory) (r : Parsed) where
    react-LastRound :
        (again next : State → Memory → Option Parsed) (ts : List Token) (s : State) (m : Memory)
        (o : Outcome (Status × State × Memory))
        → step fmt (front ts) s m ≡ o
        → Reached fmt all from begun ts s m
        → ((s' : State) (m' : Memory)
            → Reached fmt all from begun ts s' m'
            → again s' m' ≡ some r
            → LastRound all from begun r)
        → ((s' : State) (m' : Memory)
            → Reached fmt all from begun (rest ts) s' m'
            → next s' m' ≡ some r
            → LastRound all from begun r)
        → react fmt again next (front ts) o ≡ some r
        → LastRound all from begun r
    unfolding react
    react-LastRound again next ts s m (done (reissue_event, s', m')) h a p q e =
        p s' m' (same_token a h) e
    react-LastRound again next ts s m (done (continue, s', m')) h a p q e =
        elim (Bool-cases (is_end (front ts).token_type)) [
          | inl end ↦ record {
            tokens = ts;
            state = s;
            memory = m;
            reached = a;
            is_last = λ again' next'. rw h (rw (end, react) (rw (end, react) at e));
          }
          | inr more ↦ q s' m' (next_token a more h) (rw (more, react) at e)
        ]
    react-LastRound again next ts s m (fault x) h a p q e = record {
      tokens = ts;
      state = s;
      memory = m;
      reached = a;
      is_last = λ again' next'. rw h e;
    }
    react-LastRound again next ts s m (done (terminate, s', m')) h a p q e = record {
      tokens = ts;
      state = s;
      memory = m;
      reached = a;
      is_last = λ again' next'. rw h e;
    }
    react-LastRound again next ts s m (done (terminate_with_error why, s', m')) h a p q e = record {
      tokens = ts;
      state = s;
      memory = m;
      reached = a;
      is_last = λ again' next'. rw h e;
    }

    run_tokens-LastRound :
        (fuel : ℕ) (ts : List Token) (s : State) (m : Memory)
        → Reached fmt all from begun ts s m
        → run_tokens fmt fuel ts s m ≡ some r
        → LastRound all from begun r
    unfolding run_tokens
    run_tokens-LastRound zero ts s m a e = absurd (ground arith)
    run_tokens-LastRound (suc fuel) ts s m a e =
        react-LastRound _ _ ts s m _ refl a
          (λ s' m' a' e'. run_tokens-LastRound fuel ts s' m' a' e')
          (λ s' m' a' e'. run_tokens-LastRound fuel (rest ts) s' m' a' e') e

  run-same_token :
      (f : ℕ) (ts : List Token) (s s' : State) (m m' : Memory)
      → step fmt (front ts) s m ≡ done (reissue_event, s', m')
      → run_tokens fmt (suc f) ts s m ≡ run_tokens fmt f ts s' m'
  unfolding run_tokens react
  run-same_token f ts s s' m m' e = rw e refl

  run-next_token :
      (f : ℕ) (ts : List Token) (s s' : State) (m m' : Memory)
      → is_end (front ts).token_type ≡ false
      → step fmt (front ts) s m ≡ done (continue, s', m')
      → run_tokens fmt (suc f) ts s m ≡ run_tokens fmt f (rest ts) s' m'
  unfolding run_tokens
  run-next_token f ts s s' m m' h e = rw e (rw (h, react) refl)

  -- What the loop comes to from a round is what it comes to from the beginning.
  Reached-run :
      {all : List Token} {from : State} {begun : Memory} {ts : List Token} {s : State} {m : Memory}
      (f : ℕ) (r : Parsed)
      → Reached fmt all from begun ts s m
      → run_tokens fmt f ts s m ≡ some r
      → (n : ℕ) × (run_tokens fmt n all from begun ≡ some r)
  Reached-run f r here e = (f, e)
  Reached-run f r (same_token {ts} {s} {s'} {m} {m'} a h) e =
      Reached-run (suc f) r a (run-same_token f ts s s' m m' h ∙ e)
  Reached-run f r (next_token {ts} {s} {s'} {m} {m'} a n h) e =
      Reached-run (suc f) r a (run-next_token f ts s s' m m' n h ∙ e)

  one_result :
      (n fuel : ℕ) (ts : List Token) (s : State) (m : Memory) (r r' : Parsed)
      → run_tokens fmt n ts s m ≡ some r
      → run_tokens fmt fuel ts s m ≡ some r'
      → r' ≡ r
  one_result n fuel ts s m r r' e e' =
      let both =
        sym (run_tokens_fuel fmt fuel (n + fuel) ts s m r' (omega arith) e')
        ∙ run_tokens_fuel fmt n (n + fuel) ts s m r (omega arith) e in
      ground arith

  -- Progress. On every engine, whatever the command line and the commands, every round that the parser comes to is followed
  -- by a last one: from the tokens ahead, the state and the memory of the round, a round is reached that ends the loop, and
  -- what it ends with is what `Parse` returns, with two rounds of fuel for each token and two more.
  pub parse-LastRound :
      {engine : Engine} (law : IsEngine engine) (base : CommandLineContext) (args : List Text)
      (commands : List Command) (fuel : ℕ) (ts : List Token) (s : State) (m : Memory)
      → enough (arg_tokens args) ≤ fuel
      → Reached fmt (arg_tokens args) initial_state (start fmt base commands) ts s m
      → (r : Parsed) × (parse engine fmt fuel base (tokenizer_of args) commands ≡ some r)
        × LastRound ts s m r
  parse-LastRound law base args commands fuel ts s m h a =
      let (r, e) = run_tokens-Ends fmt ts (enough ts) s m (omega arith) in
      let (n, e') = Reached-run (enough ts) r a e in
      let (r', e'') = parse_total fmt law base args commands fuel h in
      let same =
        one_result n fuel (arg_tokens args) initial_state (start fmt base commands) r r' e'
          (sym (parse-run_tokens fmt law fuel base args commands) ∙ e'') in
      (r, e'' ∙ ap (λ x. some x) same, run_tokens-LastRound ts s m r (enough ts) ts s m here e)
