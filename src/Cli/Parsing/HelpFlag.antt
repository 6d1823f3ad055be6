-- ===== src/Cli/Parsing/HelpFlag.antt =====
-- clap/src/cli.cpp: `Cli::Parse` with a help flag first.
use asap_clap.Base.{
  ℕ, List, ◌∷◌, ◌≡◌, refl, true, Text, sym, ◌∙◌, text_eq, Bool-cases, inl, inr, is_empty,
}
use asap_clap.Fsm.{Engine}
use asap_clap.Format.{Fmt}
use asap_clap.Commands.{help_name, help_long, help_short}
use asap_clap.Commands.Printing.{Wrap}
use asap_clap.Cli.{Cli, arguments}
use asap_clap.Cli.Parsing.{name_from, unified_first, unified_args, parse_arguments, parse_cli}

-- What the first argument is replaced by.
pub help_unified :
    (cli : Cli)
    → cli.has_help_command ≡ true
    → (unified_first cli help_long ≡ help_name)
      × (unified_first cli help_short ≡ help_name)
      × (unified_first cli help_name ≡ help_name)
unfolding unified_first text_eq
help_unified cli h = elim (Bool-cases cli.has_version_command) [
  | inl both ↦ (rw (h, both) refl, rw (h, both) refl, rw (h, both) refl)
  | inr one ↦ (rw (h, one) refl, rw (h, one) refl, rw (h, one) refl)
]

module _ (engine : Engine) (fmt : Fmt) (wrap : Wrap) (fuel : ℕ) (cli : Cli) (name : Text) where
  abbrev known : Cli
  known = record cli { program_name = name_from name cli.program_name }

  -- Arguments that are unified alike are parsed alike.
  parse_arguments_unified :
      (f g : Text) (args : List Text)
      → unified_first known f ≡ unified_first known g
      → parse_arguments engine fmt wrap fuel cli name (f ∷ args)
        ≡ parse_arguments engine fmt wrap fuel cli name (g ∷ args)
  unfolding parse_arguments unified_args
  parse_arguments_unified f g args e = rw (parse_arguments, unified_args, e) refl

  parse_cli_unified :
      (f g : Text) (args : List Text)
      → unified_first known f ≡ unified_first known g
      → parse_cli engine fmt wrap fuel cli (name ∷ f ∷ args)
        ≡ parse_cli engine fmt wrap fuel cli (name ∷ g ∷ args)
  unfolding parse_cli arguments
  parse_cli_unified f g args e = elim (Bool-cases (is_empty name)) [
    | inl empty ↦ rw (parse_cli, arguments, empty) refl
    | inr named ↦ rw (parse_cli, arguments, named) (parse_arguments_unified f g args e)
  ]

  -- While the help command is enabled, the program with `--help` or `-h` as its first argument does
  -- what it does with `help` there, whatever comes behind.
  pub parse_cli-help :
      (args : List Text)
      → cli.has_help_command ≡ true
      → (parse_cli engine fmt wrap fuel cli (name ∷ help_long ∷ args)
          ≡ parse_cli engine fmt wrap fuel cli (name ∷ help_name ∷ args))
        × (parse_cli engine fmt wrap fuel cli (name ∷ help_short ∷ args)
            ≡ parse_cli engine fmt wrap fuel cli (name ∷ help_name ∷ args))
  parse_cli-help args h =
      let (long, short, same) = help_unified known h in
      (
        parse_cli_unified help_long help_name args (long ∙ sym same),
        parse_cli_unified help_short help_name args (short ∙ sym same),
      )
