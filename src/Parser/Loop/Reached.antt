-- ===== src/Parser/Loop/Reached.antt =====
-- clap/src/parser/parser.cpp: the rounds of `Parse` as steps, and where it ends without an error.
use asap_clap.Base.{
  ℕ, zero, suc, true, false, List, [], ◌∷◌, ◌≡◌, refl, arith, Option, some, Outcome, done, fault,
  inl, inr, Bool-cases, All,
}
use asap_clap.Fsm.{Status, continue, terminate, reissue_event, terminate_with_error}
use asap_clap.Format.{Fmt}
use asap_clap.Tokenizer.{Token}
use asap_clap.Tokenizer.Stream.{front, rest}
use asap_clap.Parser.Context.{ParserContext}
use asap_clap.Parser.Machine.{State, Memory}
use asap_clap.Parser.Loop.{Parsed, is_end, react}
use asap_clap.Parser.Loop.Tokens.{step, run_tokens}

All-rest : (P : Token → Type 0) (ts : List Token) → All P ts → All P (rest ts)
All-rest P [] h = tt
All-rest P (t ∷ ts) h = h.1

module _ (fmt : Fmt) where
  -- What the loop comes to from a state with tokens ahead: a round with the same token, or with the
  -- next one.
  pub data Reached (all : List Token) (from : State) (begun : Memory)
      : List Token → State → Memory → Type 0 where
    here : Reached all from begun all from begun
    same_token :
        {ts : List Token} {s s' : State} {m m' : Memory}
        → Reached all from begun ts s m
        → step fmt (front ts) s m ≡ done (reissue_event, s', m')
        → Reached all from begun ts s' m'
    next_token :
        {ts : List Token} {s s' : State} {m m' : Memory}
        → Reached all from begun ts s m
        → is_end (front ts).token_type ≡ false
        → step fmt (front ts) s m ≡ done (continue, s', m')
        → Reached all from begun (rest ts) s' m'

  -- A context in which the loop ends without an error.
  pub record EndsAt (all : List Token) (from : State) (begun : Memory) (ts : List Token)
      (c : ParserContext) : Type 0 where
    pub last_state : State
    pub last_memory : Memory
    pub reached : Reached all from begun ts last_state last_memory
    pub end_state : State
    pub end_memory : Memory
    pub ends : step fmt (front ts) last_state last_memory ≡ done (terminate, end_state, end_memory)
    pub leaves : end_memory.context ≡ c

  module _ (all : List Token) (from : State) (begun : Memory) where
    abbrev EndsSomewhere : ParserContext → Type 0
    EndsSomewhere c = (ts : List Token) × EndsAt all from begun ts c

    react-EndsSomewhere :
        (again next : State → Memory → Option Parsed) (ts : List Token) (s : State) (m : Memory)
        (c : ParserContext) (r : Outcome (Status × State × Memory))
        → step fmt (front ts) s m ≡ r
        → Reached all from begun ts s m
        → ((s' : State) (m' : Memory)
            → Reached all from begun ts s' m'
            → again s' m' ≡ some (done (true, c))
            → EndsSomewhere c)
        → ((s' : State) (m' : Memory)
            → Reached all from begun (rest ts) s' m'
            → next s' m' ≡ some (done (true, c))
            → EndsSomewhere c)
        → react fmt again next (front ts) r ≡ some (done (true, c))
        → EndsSomewhere c
    unfolding react
    react-EndsSomewhere again next ts s m c (fault x) h a p q e = absurd (ground arith)
    react-EndsSomewhere again next ts s m c (done (terminate, s', m')) h a p q e = (
      ts,
      record {
        last_state = s;
        last_memory = m;
        reached = a;
        end_state = s';
        end_memory = m';
        ends = h;
        leaves = ground arith;
      },
    )
    react-EndsSomewhere again next ts s m c (done (terminate_with_error why, s', m')) h a p q e =
        absurd (ground arith)
    react-EndsSomewhere again next ts s m c (done (reissue_event, s', m')) h a p q e =
        p s' m' (same_token a h) e
    react-EndsSomewhere again next ts s m c (done (continue, s', m')) h a p q e =
        elim (Bool-cases (is_end (front ts).token_type)) [
          | inl end ↦ absurd (let e' = rw (end, react) at e in ground arith)
          | inr more ↦ q s' m' (next_token a more h) (rw (more, react) at e)
        ]

    pub run_tokens-EndsSomewhere :
        (fuel : ℕ) (ts : List Token) (s : State) (m : Memory) (c : ParserContext)
        → Reached all from begun ts s m
        → run_tokens fmt fuel ts s m ≡ some (done (true, c))
        → EndsSomewhere c
    unfolding run_tokens
    run_tokens-EndsSomewhere zero ts s m c a e = absurd (ground arith)
    run_tokens-EndsSomewhere (suc fuel) ts s m c a e =
        react-EndsSomewhere _ _ ts s m c _ refl a
          (λ s' m' a' e'. run_tokens-EndsSomewhere fuel ts s' m' c a' e')
          (λ s' m' a' e'. run_tokens-EndsSomewhere fuel (rest ts) s' m' c a' e') e

    -- Tokens ahead are tokens that the loop began with.
    pub Reached-All :
        (P : Token → Type 0) {ts : List Token} {s : State} {m : Memory}
        → Reached all from begun ts s m
        → All P all
        → All P ts
    Reached-All P here h = h
    Reached-All P (same_token a e) h = Reached-All P a h
    Reached-All P (next_token {ts} a n e) h = All-rest P ts (Reached-All P a h)
