-- ===== src/Cli/Builder.antt =====
-- clap/src/fluent/cli_builder.cpp, and the two `Enable` members of Cli that it calls.
pub mod Outcomes
use asap_clap.Base.{
  Bool, true, false, not, ◌||◌, List, [], ◌∷◌, ◌++◌, any_of, Option, none, some, Text, codes,
  if◌then◌else◌, Outcome, done, fault, contract_violation, undefined_behaviour, ◌>>=◌, ◌&&◌, map,
}
use asap_clap.Format.{Fmt}
use asap_clap.Values.ParseValue.{ValueType, flag, text}
use asap_clap.Commands.{
  ClapOption, Command, version_name, help_name, default_name, is_default, with_option,
}
use asap_clap.Builders.{
  Owned, change, OptionBuilder, with_key, rest_option, set_short, set_long, set_about,
  set_user_friendly_name, with_value, build_option, CommandBuilder, command_builder, command_about,
  command_with_positional_arguments,
}
use asap_clap.Cli.{Cli, new_cli, program_name_or_empty, with_command}

-- The object that a builder hands over; a null one is dereferenced.
abbrev pub handed : {A : Type 0} → Owned A → Outcome A
handed none = fault undefined_behaviour
handed (some a) = done a

module _ (fmt : Fmt) where
  open fmt use {format}

  -- The option `-h, --help` of AddHelpOptionToCommand
  unfoldable pub help_option : Cli → Outcome ClapOption
  unfolding set_about set_short set_long with_value build_option
  help_option cli = do
    let name = program_name_or_empty cli
    about ←
        set_about
          (format
            (codes
              "Display detailed help information.\nNote that `{} --help` is identical to `{} help` because the former is internally converted into the latter.")
            (name ∷ name ∷ name ∷ name ∷ []))
          (with_key (codes "help"))
    short ← set_short (codes "h") about
    long ← set_long (codes "help") short
    b ← with_value flag long
    handed (build_option b)

  -- The option `-v, --version` of AddVersionOptionToCommand
  unfoldable pub version_option : Cli → Outcome ClapOption
  unfolding set_about set_short set_long with_value build_option
  version_option cli = do
    let name = program_name_or_empty cli
    about ←
        set_about
          (format
            (codes
              "Display version information.\nNote that `{} --version` is identical to `{} version` because the former is internally converted into the latter.")
            (name ∷ name ∷ []))
          (with_key (codes "version"))
    short ← set_short (codes "v") about
    long ← set_long (codes "version") short
    b ← with_value flag long
    handed (build_option b)

  unfoldable pub add_help_option : Cli → Command → Outcome Command
  add_help_option cli c = help_option cli >>= λ o. done (with_option o c)

  unfoldable pub add_version_option : Cli → Command → Outcome Command
  add_version_option cli c = version_option cli >>= λ o. done (with_option o c)

  -- Cli::EnableVersionCommand
  unfoldable pub enable_version_command : Cli → Outcome Cli
  unfolding command_builder command_about
  enable_version_command cli = do
    let name = program_name_or_empty cli
    b ← command_builder (version_name ∷ [])
    b' ← command_about (format (codes "Display version information.") (name ∷ name ∷ [])) b
    c ← handed b'
    done (record cli { commands = cli.commands ++ c ∷ []; has_version_command = true })

  -- The positional arguments of the help command
  help_segments : Outcome ClapOption
  unfolding set_user_friendly_name set_about with_value build_option
  help_segments = do
    named ← set_user_friendly_name (codes "SEGMENTS") rest_option
    about ←
        set_about
          (codes
            "The path segments (in the correct order) of the sub-command for which help information should be displayed.")
          named
    b ← with_value text about
    handed (build_option b)

  -- Cli::EnableHelpCommand
  unfoldable pub enable_help_command : Cli → Outcome Cli
  unfolding command_builder command_about command_with_positional_arguments help_segments
  enable_help_command cli = do
    let name = program_name_or_empty cli
    b ← command_builder (help_name ∷ [])
    b' ←
        command_about
          (format
            (codes
              "Display detailed help information. `{} help` lists available sub-commands and a summary of what they do. See `{} help <command>` to get detailed help for a specific sub-command.")
            (name ∷ name ∷ []))
          b
    segments ← help_segments
    b'' ← command_with_positional_arguments (segments ∷ []) b'
    c ← handed b''
    done (record cli { commands = cli.commands ++ c ∷ []; has_help_command = true })

  -- CliBuilder
  abbrev pub CliBuilder : Type 0
  CliBuilder = Owned Cli

  unfoldable pub cli_version : Text → CliBuilder → Outcome CliBuilder
  cli_version version = change (λ cli. record cli { version = version })

  unfoldable pub cli_program_name : Text → CliBuilder → Outcome CliBuilder
  cli_program_name name = change (λ cli. record cli { program_name = some name })

  unfoldable pub cli_about : Text → CliBuilder → Outcome CliBuilder
  cli_about about = change (λ cli. record cli { about = about })

  unfoldable pub cli_with_command : Command → CliBuilder → Outcome CliBuilder
  unfolding with_command
  cli_with_command c = change (with_command c)

  unfoldable pub cli_with_version_command : CliBuilder → Outcome CliBuilder
  unfolding enable_version_command
  cli_with_version_command none = fault contract_violation
  cli_with_version_command (some cli) = enable_version_command cli >>= λ cli'. done (some cli')

  unfoldable pub cli_with_help_command : CliBuilder → Outcome CliBuilder
  unfolding enable_help_command
  cli_with_help_command none = fault contract_violation
  cli_with_help_command (some cli) = enable_help_command cli >>= λ cli'. done (some cli')

  unfoldable pub when : Bool → (Command → Outcome Command) → Command → Outcome Command
  when true f c = f c
  when false f c = done c

  -- One round of the loop of `Build`.
  unfoldable pub upgrade_command : Cli → Command → Outcome Command
  unfolding when
  upgrade_command cli c =
      when cli.has_help_command (add_help_option cli) c
      >>= when (is_default c && cli.has_version_command) (add_version_option cli)

  unfoldable pub upgrade_commands : Cli → List Command → Outcome (List Command)
  unfolding upgrade_command
  upgrade_commands cli [] = done []
  upgrade_commands cli (c ∷ cs) = do
    c' ← upgrade_command cli c
    cs' ← upgrade_commands cli cs
    done (c' ∷ cs')

  -- The default command that `Build` makes: its path is the program name and the empty segment.
  unfoldable pub create_default_command : Cli → Outcome Command
  unfolding command_builder when
  create_default_command cli = do
    b ← command_builder (program_name_or_empty cli ∷ default_name ∷ [])
    c ← handed b
    c' ← when cli.has_help_command (add_help_option cli) c
    when cli.has_version_command (add_version_option cli) c'

  -- `Build` when the help or the version command is enabled.
  unfoldable pub set_up : Cli → Outcome Cli
  unfolding upgrade_commands create_default_command with_command
  set_up cli = do
    commands ← upgrade_commands cli cli.commands
    let upgraded = record cli { commands = commands }
    if any_of is_default cli.commands
        then done upgraded
        else create_default_command cli >>= λ c. done (with_command c upgraded)

  -- `command->parent_cli_ = cli_.get()`
  abbrev pub adopt : Command → Command
  adopt c = record c { has_parent_cli = true }

  abbrev adopted : Cli → Cli
  adopted cli = record cli { commands = map adopt cli.commands }

  -- CliBuilder::Build
  unfoldable pub build : CliBuilder → Outcome Cli
  unfolding set_up
  build none = fault undefined_behaviour
  build (some cli) =
      if cli.has_help_command || cli.has_version_command
      then (set_up cli >>= λ cli'. done (adopted cli'))
      else done (adopted cli)
