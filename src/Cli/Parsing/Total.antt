-- ===== src/Cli/Parsing/Total.antt =====
-- clap/src/cli.cpp: the rounds that `Cli::Parse` takes.
use asap_clap.Base.{
  ℕ, ◌≤◌, List, ◌∷◌, ◌≡◌, refl, some, Text, fault, contract_violation, is_empty, Bool-cases, inl,
  inr,
}
use asap_clap.Fsm.{Engine, IsEngine}
use asap_clap.Format.{Fmt}
use asap_clap.Tokenizer.Stream.{arg_tokens}
use asap_clap.Commands.Printing.{Wrap}
use asap_clap.Parser.Loop.Total.{enough, parse_total}
use asap_clap.Parser.Context.{new_command_line_context}
use asap_clap.Cli.{Cli, program_name_or_empty, arguments}
use asap_clap.Cli.Parsing.{
  CliParsed, unified_args, name_from, after_parser, parse_arguments, parse_cli,
}

-- `Cli::Parse` ends for every `argv` that has a first string: with two rounds for each token of the
-- arguments behind it and two more, the fuel does not run out.
pub parse_cli_total :
    {engine : Engine} (law : IsEngine engine) (fmt : Fmt) (wrap : Wrap) (cli : Cli) (name : Text)
    (args : List Text) (fuel : ℕ)
    → enough (arg_tokens (unified_args cli args)) ≤ fuel
    → (r : CliParsed) × (parse_cli engine fmt wrap fuel cli (name ∷ args) ≡ some r)
unfolding parse_cli arguments parse_arguments unified_args
parse_cli_total {engine = engine} law fmt wrap cli name args fuel h =
    elim (Bool-cases (is_empty name)) [
      | inl empty ↦ (fault contract_violation, rw (parse_cli, arguments, empty) refl)
      | inr named ↦
          let known = record cli { program_name = name_from name cli.program_name } in
          let base =
            new_command_line_context (program_name_or_empty known) cli.active_command cli.ovm in
          let (r, e) = parse_total fmt law base (unified_args cli args) cli.commands fuel h in
          (
            after_parser engine fmt wrap known r,
            rw (parse_cli, arguments, named, parse_arguments, e) refl,
          )
    ]
