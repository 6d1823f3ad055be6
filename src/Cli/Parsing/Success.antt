-- ===== src/Cli/Parsing/Success.antt =====
-- clap/src/cli.cpp: what `Cli::Parse` leaves in the Cli when it returns.
use asap_clap.Base.{
  ℕ, List, ◌≡◌, refl, ap, arith, Option, none, some, Text, All, Outcome, done, fault, >>=-elim,
  true, false,
}
use asap_clap.Fsm.{Engine, IsEngine}
use asap_clap.Format.{Fmt}
use asap_clap.Commands.{Command}
use asap_clap.Commands.Printing.{Wrap, filled}
use asap_clap.Parser.Context.{CommandLineContext, ParserContext, new_command_line_context}
use asap_clap.Parser.States.Complete.{IsSatisfied}
use asap_clap.Parser.Loop.{Parsed}
use asap_clap.Parser.Loop.Success.{IsComplete, parse_success}
use asap_clap.Cli.{Cli, arguments, program_name_or_empty}
use asap_clap.Cli.Parsing.{
  unified_args, name_from, parse_arguments, parse_cli, after_parser, after_success, after_failure,
  updated, returned,
}

-- The Cli has a command, with a value for each of its options that needs one.
abbrev pub IsReady : Cli → Type 0
IsReady cli =
    (command : Command) × (cli.active_command ≡ some command)
    × All (IsSatisfied cli.ovm) command.options
    × All (IsSatisfied cli.ovm) command.positional_args

module _ {engine : Engine} (law : IsEngine engine) (fmt : Fmt) (wrap : Wrap) where
  after_parser-IsReady :
      (cli cli' : Cli) (r : Parsed) (context : CommandLineContext)
      → ((c : ParserContext) → r ≡ done (true, c) → IsComplete fmt c)
      → after_parser engine fmt wrap cli r ≡ done (returned context cli')
      → IsReady cli'
  unfolding after_parser after_failure
  after_parser-IsReady cli cli' (fault x) context h e = absurd cc
  after_parser-IsReady cli cli' (done (true, c)) context h e =
      >>=-elim (after_success engine fmt wrap (updated engine fmt wrap c.base cli) c.base) _ e
        (λ result here now.
          let same : updated engine fmt wrap c.base cli ≡ cli' = ground arith in
          let (command, (p, q, a, b)) = h c refl in rw (← same) (command, p, a, b))
  after_parser-IsReady cli cli' (done (false, c)) context h e =
      >>=-elim (filled cli.program_name) _ e (λ name here now. absurd (ground arith))

  -- The two ways in which the parser is not reached, or not done.
  from_parser :
      (cli cli' : Cli) (o : Option Parsed) (context : CommandLineContext)
      → ((c : ParserContext) → o ≡ some (done (true, c)) → IsComplete fmt c)
      → (elim o [ none ↦ none | some r ↦ some (after_parser engine fmt wrap cli r) ])
        ≡ some (done (returned context cli'))
      → IsReady cli'
  from_parser cli cli' none context h e = absurd cc
  from_parser cli cli' (some r) context h e =
      after_parser-IsReady cli cli' r context (λ c p. h c (ap (λ x. some x) p)) (ground arith)

  from_arguments :
      (fuel : ℕ) (cli cli' : Cli) (a : Outcome (Text × List Text)) (context : CommandLineContext)
      → (elim a [
        | fault x ↦ some (fault x)
        | done (name, args) ↦ parse_arguments engine fmt wrap fuel cli name args
      ])
        ≡ some (done (returned context cli'))
      → IsReady cli'
  unfolding parse_arguments
  from_arguments fuel cli cli' (fault x) context e = absurd (ground arith)
  from_arguments fuel cli cli' (done (name, args)) context e =
      let known = record cli { program_name = name_from name cli.program_name } in
      let base =
        new_command_line_context (program_name_or_empty known) cli.active_command cli.ovm in
      from_parser known cli' _ context
        (parse_success fmt law fuel base (unified_args known args) cli.commands) e

  -- When `Cli::Parse` returns, and does not throw, the Cli holds an active command, and in its map a
  -- value for every option of that command, positional ones included, that is required or that has
  -- a default value.
  pub parse_cli_success :
      (fuel : ℕ) (cli cli' : Cli) (argv : List Text) (context : CommandLineContext)
      → parse_cli engine fmt wrap fuel cli argv ≡ some (done (returned context cli'))
      → IsReady cli'
  unfolding parse_cli
  parse_cli_success fuel cli cli' argv context e =
      from_arguments fuel cli cli' (arguments argv) context e
