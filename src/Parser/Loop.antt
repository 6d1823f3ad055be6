-- ===== src/Parser/Loop.antt =====
-- clap/src/parser/parser.h and parser.cpp: `CmdLineParser::Parse` feeds the tokens to the state
-- machine until it ends.
pub mod Tokens
pub mod Reissue
pub mod Total
pub mod Ending
pub mod Success
pub mod Reached
pub mod ReadsAll
pub mod Progress
pub mod Kept
pub mod Once
pub mod Origins
pub mod Typed
pub mod Identified
pub mod Fuel
pub mod Assignments
pub mod DashDash
pub mod Failure
pub mod EmptyArgument
use asap_clap.Base.{
  ℕ, zero, suc, Bool, true, false, List, [], ◌∷◌, ◌++◌, Option, none, some, Text, codes, Outcome,
  done, fault, contract_violation,
}
use asap_clap.Fsm.{Status, continue, terminate, reissue_event, terminate_with_error, Engine}
use asap_clap.Format.{Fmt}
use asap_clap.Tokenizer.{Token, TokenType, end_of_input, Tokenizer, next_token}
use asap_clap.Commands.{Command}
use asap_clap.Parser.Context.{CommandLineContext, ParserContext, new_parser_context, print_err}
use asap_clap.Parser.States.Initial.{initial_context}
use asap_clap.Parser.States.Handlers.{machine}
use asap_clap.Parser.Machine.{State, initial_state, Memory, new_memory}

-- What `Parse` returns, with the context that it leaves.
abbrev pub Parsed : Type 0
Parsed = Outcome (Bool × ParserContext)

abbrev pub is_end : TokenType → Bool
is_end end_of_input = true
is_end _ = false

module _ (fmt : Fmt) where
  -- The error line that `Parse` writes.
  abbrev pub report : Text → ParserContext → ParserContext
  report why context =
      print_err (fmt.format (codes "{}: {}") (context.program_name ∷ why ∷ []) ++ codes "\n")
        context

  -- What the loop does with the status of an event: `again` is the next round with the same token,
  -- and `next` the one with the next token. An end of the input that the machine goes on from fails
  -- an assertion.
  unfoldable pub react :
      (again next : State → Memory → Option Parsed)
      → Token
      → Outcome (Status × State × Memory)
      → Option Parsed
  react again next token (fault x) = some (fault x)
  react again next token (done (terminate, s, m)) = some (done (true, m.context))
  react again next token (done (terminate_with_error why, s, m)) =
      some (done (false, report why m.context))
  react again next token (done (reissue_event, s, m)) = again s m
  react again next token (done (continue, s, m)) = elim (is_end token.token_type) [
    | true ↦ some (fault contract_violation)
    | false ↦ next s m
  ]

-- `tokenizer_.NextToken()`, and a round with the token that it returns.
unfoldable pub with_token :
    (Token → Tokenizer → Option Parsed) → Outcome (Token × Tokenizer) → Option Parsed
with_token k (fault x) = some (fault x)
with_token k (done (token, tokenizer)) = k token tokenizer

module _ (engine : Engine) (fmt : Fmt) where
  -- The `do` loop, with fuel; `none` means that it ran out.
  unfoldable pub loop : ℕ → Token → State → Memory → Tokenizer → Option Parsed
  unfolding react with_token
  loop zero token s m tokenizer = none
  loop (suc fuel) token s m tokenizer =
      react fmt (λ s' m'. loop fuel token s' m' tokenizer)
        (λ s' m'.
          with_token (λ token' tokenizer'. loop fuel token' s' m' tokenizer')
            (next_token engine tokenizer))
        token (engine State Token Memory (machine fmt) token s m)

  -- CmdLineParser::Parse, for the context that the constructor makes.
  unfoldable pub parse : ℕ → CommandLineContext → Tokenizer → List Command → Option Parsed
  unfolding loop with_token
  parse fuel base tokenizer commands =
      let context = new_parser_context base commands in
      with_token
        (λ token tokenizer'.
          loop fuel token initial_state (new_memory (initial_context context)) tokenizer')
        (next_token engine tokenizer)
