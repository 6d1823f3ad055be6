-- ===== src/Cli/Help.antt =====
-- clap/src/cli.cpp: the printed help of the whole Cli, and the handlers of the help and version
-- commands.
use asap_clap.Base.{
  ℕ, false, not, List, [], ◌∷◌, ◌++◌, Option, none, some, Text, codes, text_eq, texts_eq, is_empty,
  find_if, if◌then◌else◌, Outcome, done, fault, exception, ◌>>=◌, ◌>>◌, require, deref,
}
use asap_clap.Format.{Fmt}
use asap_clap.Values.{Any, text_value, OptionValue}
use asap_clap.Values.ValuesMap.{has_option, values_of}
use asap_clap.Commands.{Command, is_default, key_rest, help_name}
use asap_clap.Commands.Printing.{Wrap, Parent, print_command, filled}
use asap_clap.Parser.Context.{CommandLineContext}
use asap_clap.Parser.Errors.{path_as_string}
use asap_clap.Cli.{Cli, program_name_or_empty}

-- `value.GetAs<std::string>()`, which throws std::bad_any_cast on another type.
abbrev pub as_text : Any → Outcome Text
as_text (text_value s) = done s
as_text _ = fault (exception (codes "bad any_cast"))

unfoldable pub texts_of : List OptionValue → Outcome (List Text)
texts_of [] = done []
texts_of (v ∷ vs) = do s ← as_text v.value; more ← texts_of vs; done (s ∷ more)

-- `context.out_ << text` and `context.err_ << text`
abbrev pub write_out : Text → CommandLineContext → CommandLineContext
write_out s context = record context { out = context.out ++ s ∷ [] }

abbrev pub write_err : Text → CommandLineContext → CommandLineContext
write_err s context = record context { err = context.err ++ s ∷ [] }

module _ (fmt : Fmt) (wrap : Wrap) where
  open fmt use {format, join}

  -- What the commands see of their parent.
  abbrev pub parent_of : Cli → Parent
  parent_of cli = record { program_name = program_name_or_empty cli; about = cli.about }

  print_found : Cli → Option Command → ℕ → Outcome Text
  print_found cli none width = done []
  print_found cli (some c) width = print_command fmt wrap (parent_of cli) c width

  -- Cli::PrintDefaultCommand
  unfoldable pub print_default_command : Cli → ℕ → Outcome Text
  unfolding print_found
  print_default_command cli width = print_found cli (find_if is_default cli.commands) width

  print_each : List Command → ℕ → Outcome Text
  print_each [] width = done []
  print_each (c ∷ cs) width = do
    more ← print_each cs width
    if is_default c
        then done more
        else filled (wrap width false (codes "     ") c.about) >>= λ about. done (
            codes "   "
            ++ (path_as_string fmt c ++ (codes "\n" ++ (about ++ (codes "\n\n" ++ more)))))

  -- Cli::PrintCommands
  unfoldable pub print_commands : Cli → ℕ → Outcome Text
  unfolding print_each
  print_commands cli width = do
    text ← print_each cli.commands width
    done (codes "SUB-COMMANDS\n\n" ++ text)

  -- Cli::Print
  unfoldable pub print_cli : Cli → ℕ → Outcome Text
  unfolding print_default_command print_commands
  print_cli cli width = do
    default ← print_default_command cli width
    commands ← print_commands cli width
    done (default ++ commands)

  unfoldable pub try_help : Text → Text
  try_help name = format (codes "Try '{} --help' for more information.") (name ∷ []) ++ codes "\n"

  -- Cli::HandleVersionCommand; `program_name_.value()` throws std::bad_optional_access.
  unfoldable pub handle_version_command : Cli → CommandLineContext → Outcome CommandLineContext
  handle_version_command cli context = do
    name ← filled cli.program_name
    done (
        write_out (format (codes "{} version {}\n") (name ∷ cli.version ∷ []) ++ codes "\n")
          context)

  unfoldable pub help_of_path :
      Cli → List Text → Option Command → CommandLineContext → Outcome CommandLineContext
  unfolding try_help
  help_of_path cli path (some c) context = do
    text ← print_command fmt wrap (parent_of cli) c 80
    done (write_out text context)
  help_of_path cli path none context = do
    name ← filled cli.program_name
    let unknown =
        format (codes "The path `{}` does not correspond to a known command.\n")
          (join path (codes " ") ∷ [])
    done (write_out (try_help name) (write_err unknown context))

  -- The help command, with path segments or without.
  unfoldable pub help_command : Cli → CommandLineContext → Outcome CommandLineContext
  unfolding help_of_path
  help_command cli context =
      if has_option key_rest context.ovm
      then (do
        values ← values_of key_rest context.ovm
        require (not (is_empty values))
        path ← texts_of values
        help_of_path cli path (find_if (λ c. texts_eq c.path path) cli.commands) context)
      else (do
        default ← print_default_command cli 80
        commands ← print_commands cli 80
        done (write_out commands (write_out default context)))

  -- Cli::HandleHelpCommand
  unfoldable pub handle_help_command : Cli → CommandLineContext → Outcome CommandLineContext
  unfolding help_command
  handle_help_command cli context = do
    c ← deref context.active_command
    if has_option help_name context.ovm
        then (do text ← print_command fmt wrap (parent_of cli) c 80; done (write_out text context))
        else if text_eq (path_as_string fmt c) help_name
        then help_command cli context
        else done context
