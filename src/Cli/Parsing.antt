-- ===== src/Cli/Parsing.antt =====
-- clap/src/cli.cpp: `Cli::Parse`.
pub mod Total
pub mod Success
pub mod HelpFlag
pub mod Failure
pub mod Handled
pub mod HelpPath
use asap_clap.Base.{
  ℕ, Bool, true, false, ◌&&◌, ◌||◌, List, [], ◌∷◌, ◌++◌, Option, none, some, Text, codes, text_eq,
  if◌then◌else◌, Outcome, done, fault, exception, ◌>>=◌, deref,
}
use asap_clap.Fsm.{Engine}
use asap_clap.Format.{Fmt}
use asap_clap.Tokenizer.{tokenizer_of}
use asap_clap.Values.ValuesMap.{has_option}
use asap_clap.Commands.{
  Command, version_name, version_long, version_short, help_name, help_long, help_short,
}
use asap_clap.Commands.Printing.{Wrap, filled}
use asap_clap.Parser.Context.{CommandLineContext, new_command_line_context, ParserContext}
use asap_clap.Parser.Errors.{path_as_string}
use asap_clap.Parser.Loop.{Parsed, parse}
use asap_clap.Cli.{Cli, program_name_or_empty, arguments}
use asap_clap.Cli.Help.{handle_help_command, handle_version_command, write_out, try_help}

-- The first argument, if it is a form of the version or help command that is enabled, is replaced
-- by the name of that command.
unfoldable pub unified_first : Cli → Text → Text
unified_first cli first =
    if cli.has_version_command && (text_eq first version_short || text_eq first version_long)
    then version_name
    else if cli.has_help_command && (text_eq first help_short || text_eq first help_long)
    then help_name
    else first

unfoldable pub unified_args : Cli → List Text → List Text
unfolding unified_first
unified_args cli [] = []
unified_args cli (first ∷ args) = unified_first cli first ∷ args

-- The program name given, or the one in `argv`.
abbrev pub name_from : Text → Option Text → Option Text
name_from name none = some name
name_from name (some given) = some given

-- What `Parse` comes to: it returns the context, or throws CmdLineArgumentsError with a text, which
-- leaves what was written to the streams of the context behind. In both cases the Cli is changed.
pub data CliEnd : Type 0 where
  returned : CommandLineContext → Cli → CliEnd
  refused : Text → CommandLineContext → Cli → CliEnd

abbrev pub CliParsed : Type 0
CliParsed = Outcome CliEnd

-- What a caller gets: the context, or the exception.
abbrev pub or_throw : CliEnd → Outcome CommandLineContext
or_throw (returned context _) = done context
or_throw (refused why _ _) = fault (exception why)

module _ (engine : Engine) (fmt : Fmt) (wrap : Wrap) where
  -- From a parser that returned true: the help or version command is carried out.
  unfoldable pub after_success : Cli → CommandLineContext → Outcome CommandLineContext
  after_success cli context = do
    c ← deref context.active_command
    if text_eq (path_as_string fmt c) help_name || has_option help_name context.ovm
        then handle_help_command fmt wrap cli context
        else if text_eq (path_as_string fmt c) version_name
        then handle_version_command fmt wrap cli context
        else done context

  -- From one that returned false: CmdLineArgumentsError, with a hint on the output stream before it
  -- if the help command is enabled.
  unfoldable pub after_failure : Cli → CommandLineContext → CliParsed
  unfolding try_help
  after_failure cli context = do
    name ← filled cli.program_name
    let hinted =
        if cli.has_help_command then write_out (try_help fmt wrap name) context else context
    let why =
        fmt.format
          (codes "command line arguments parsing failed, try '{} --help' for more information.")
          (name ∷ [])
    done (refused why hinted cli)

  -- The Cli's `active_command_` and `ovm_` are those of the parser's context.
  abbrev pub updated : CommandLineContext → Cli → Cli
  updated context cli = record cli { active_command = context.active_command; ovm = context.ovm }

  unfoldable pub after_parser : Cli → Parsed → CliParsed
  unfolding after_success after_failure
  after_parser cli (fault x) = fault x
  after_parser cli (done (true, context)) =
      after_success (updated context.base cli) context.base >>= λ result.
      done (returned result (updated context.base cli))
  after_parser cli (done (false, context)) = after_failure (updated context.base cli) context.base

  unfoldable pub parse_arguments : ℕ → Cli → Text → List Text → Option CliParsed
  unfolding after_parser
  parse_arguments fuel cli name args =
      let named = record cli { program_name = name_from name cli.program_name } in
      let base =
        new_command_line_context (program_name_or_empty named) cli.active_command cli.ovm in
      elim (parse engine fmt fuel base (tokenizer_of (unified_args named args)) cli.commands) [
        | none ↦ none
        | some r ↦ some (after_parser named r)
      ]

  -- Cli::Parse(argc, argv); `none` means that the parser ran out of fuel.
  unfoldable pub parse_cli : ℕ → Cli → List Text → Option CliParsed
  unfolding parse_arguments
  parse_cli fuel cli argv = elim (arguments argv) [
    | fault x ↦ some (fault x)
    | done (name, args) ↦ parse_arguments fuel cli name args
  ]
