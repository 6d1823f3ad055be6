-- ===== src/Tokenizer.antt =====
-- clap/src/parser/tokenizer.h and tokenizer.cpp: command line arguments become a stream of typed
-- tokens. Each argument runs through a state machine of its own.
pub mod Grammar
pub mod Stream
use asap_clap.Base.{
  ℕ, Bool, true, false, ◌||◌, not, List, [], ◌∷◌, ◌++◌, Text, codes, is_empty, ◌==◌, if◌then◌else◌,
  Outcome, done, ◌>>=◌,
}
use asap_clap.Fsm.{Status, continue, Action, do_nothing, transition_to, Handlers, Engine}

pub data TokenType : Type 0 where
  short_option long_option lone_dash dash_dash value equal_sign end_of_input : TokenType

pub record Token : Type 0 where
  pub token_type : TokenType
  pub text : Text

abbrev pub token : TokenType → Text → Token
token t s = record { token_type = t; text = s }

-- `InputChar` and `InputEnd`
pub data Input : Type 0 where
  input_char : ℕ → Input
  input_end : Input

pub data State : Type 0 where
  initial_state value_state option_state short_option_state : State
  long_option_state dash_dash_state final_state : State

-- What the state objects hold: `token_` of ValueState and of LongOptionState, `after_equal_sign`,
-- and the deque of the tokenizer, to which `consume_token_` adds.
pub record Memory : Type 0 where
  pub value_token : Text
  pub long_token : Text
  pub after_equal_sign : Bool
  pub tokens : List Token

abbrev pub consume_token : TokenType → Text → Memory → Memory
consume_token t s m = record m { tokens = m.tokens ++ token t s ∷ [] }

abbrev go_to : State → Memory → Outcome (Action State × Memory)
go_to s m = done (transition_to s false, m)

abbrev stay : Memory → Outcome (Action State × Memory)
stay m = done (do_nothing, m)

-- LongOptionState::Handle(InputChar)
handle_long : ℕ → Memory → Outcome (Action State × Memory)
handle_long c m =
    if c == b'='
    then stay
        (record (consume_token equal_sign (codes "=") (consume_token long_option m.long_token m)) {
          after_equal_sign = true;
        })
    else if m.after_equal_sign
    then go_to value_state m
    else stay (record m { long_token = m.long_token ++ c ∷ [] })

handle : State → Input → Memory → Outcome (Action State × Memory)
unfolding handle_long
handle initial_state (input_char c) m = go_to (if c == b'-' then option_state else value_state) m
handle initial_state input_end m = go_to final_state m
handle value_state (input_char c) m = stay (record m { value_token = m.value_token ++ c ∷ [] })
handle value_state input_end m = go_to final_state m
handle option_state (input_char c) m =
    go_to (if c == b'-' then dash_dash_state else short_option_state) m
handle option_state input_end m = go_to final_state (consume_token lone_dash (codes "-") m)
handle short_option_state (input_char c) m = stay (consume_token short_option (c ∷ []) m)
handle short_option_state input_end m = go_to final_state m
handle long_option_state (input_char c) m = handle_long c m
handle long_option_state input_end m = go_to final_state m
handle dash_dash_state (input_char c) m = go_to long_option_state m
handle dash_dash_state input_end m = go_to final_state (consume_token dash_dash (codes "--") m)
handle final_state _ m = stay m

-- A state with no `OnLeave` or `OnEnter` for an event has nothing to do there.
on_leave : State → Input → Memory → Outcome (Status × Memory)
on_leave value_state input_end m = done (continue, consume_token value m.value_token m)
on_leave long_option_state input_end m = done (continue, consume_token long_option m.long_token m)
on_leave long_option_state (input_char c) m = done (continue, record m { after_equal_sign = false })
on_leave _ _ m = done (continue, m)

on_enter : State → Input → Bool → Memory → Outcome (Status × Memory)
on_enter value_state (input_char c) _ m =
    done (continue, record m { value_token = m.value_token ++ c ∷ [] })
on_enter short_option_state (input_char c) _ m =
    done (continue, consume_token short_option (c ∷ []) m)
on_enter long_option_state (input_char c) _ m =
    done (continue, record m { long_token = m.long_token ++ c ∷ [] })
on_enter _ _ _ m = done (continue, m)

unfoldable pub machine : Handlers State Input Memory
unfolding handle on_leave on_enter
machine = record { handle = handle; on_leave = on_leave; on_enter = on_enter }

-- The `while` loop of `Tokenize` from any state of the machine, and the `InputEnd` behind it. The
-- statuses are not looked at. The result is the deque.
unfoldable pub feed : Engine → State → Memory → Text → Outcome (List Token)
feed engine s m [] = engine State Input Memory machine input_end s m >>= λ r. done r.2.tokens
feed engine s m (c ∷ cs) =
    engine State Input Memory machine (input_char c) s m >>= λ r. feed engine r.1 r.2 cs

abbrev pub fresh : List Token → Memory
fresh tokens = record {
  value_token = [];
  long_token = [];
  after_equal_sign = false;
  tokens = tokens;
}

-- Tokenizer::Tokenize, which adds the tokens of one argument to the deque `tokens_`.
unfoldable pub tokenize : Engine → List Token → Text → Outcome (List Token)
unfolding feed machine
tokenize engine tokens arg = feed engine initial_state (fresh tokens) arg

-- The arguments from `cursor_` on, and `tokens_`.
pub record Tokenizer : Type 0 where
  pub args : List Text
  pub tokens : List Token

abbrev pub tokenizer_of : List Text → Tokenizer
tokenizer_of args = record { args = args; tokens = [] }

abbrev pub end_token : Token
end_token = token end_of_input []

-- The front of the deque, popped, or the end of the input.
abbrev pub pop_front : List Text → List Token → Token × Tokenizer
pop_front args [] = (end_token, record { args = args; tokens = [] })
pop_front args (t ∷ tokens) = (t, record { args = args; tokens = tokens })

-- With an empty deque: at most one more argument is tokenized.
refill : Engine → List Text → Outcome (Token × Tokenizer)
refill engine [] = done (pop_front [] [])
refill engine (arg ∷ args) = tokenize engine [] arg >>= λ tokens. done (pop_front args tokens)

next_in : Engine → List Text → List Token → Outcome (Token × Tokenizer)
unfolding refill
next_in engine args [] = refill engine args
next_in engine args (t ∷ tokens) = done (pop_front args (t ∷ tokens))

unfoldable pub next_token : Engine → Tokenizer → Outcome (Token × Tokenizer)
unfolding next_in
next_token engine t = next_in engine t.args t.tokens

unfoldable pub has_more_tokens : Tokenizer → Bool
has_more_tokens t = not (is_empty t.tokens) || not (is_empty t.args)
