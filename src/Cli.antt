-- ===== src/Cli.antt =====
-- clap/include/clap/cli.h, clap/src/cli.cpp and clap/src/detail/args.cpp: the command line interface
-- as a whole, from the arguments of `main` to the context with the values.
pub mod Builder
pub mod Help
pub mod Parsing
use asap_clap.Base.{
  ℕ, Bool, true, false, not, ◌&&◌, ◌||◌, List, [], ◌∷◌, ◌++◌, Option, none, some, Text, codes,
  text_eq, is_empty, if◌then◌else◌, Outcome, done, fault, contract_violation, ◌>>=◌, ◌>>◌, require,
}
use asap_clap.Values.ValuesMap.{OptionValuesMap}
use asap_clap.Commands.{Command, is_default}

pub record Cli : Type 0 where
  pub version : Text
  pub about : Text
  pub program_name : Option Text
  pub commands : List Command
  pub active_command : Option Command
  pub ovm : OptionValuesMap
  pub has_version_command : Bool
  pub has_help_command : Bool

abbrev pub new_cli : Cli
new_cli = record {
  version = codes "";
  about = codes "";
  program_name = none;
  commands = [];
  active_command = none;
  ovm = [];
  has_version_command = false;
  has_help_command = false;
}

-- `program_name_.value_or("")`, Cli::ProgramName
abbrev pub program_name_or_empty : Cli → Text
program_name_or_empty cli = elim cli.program_name [ none ↦ codes "" | some name ↦ name ]

-- Cli::WithCommand. The default command comes first.
unfoldable pub with_command : Command → Cli → Cli
with_command c cli =
    if is_default c
    then record cli { commands = c ∷ cli.commands }
    else record cli { commands = cli.commands ++ c ∷ [] }

-- Arguments(argc, argv): the program name and the arguments, for an argv with `argc` strings.
unfoldable pub arguments : List Text → Outcome (Text × List Text)
arguments [] = fault contract_violation
arguments (name ∷ args) = require (not (is_empty name)) >> done (name, args)
