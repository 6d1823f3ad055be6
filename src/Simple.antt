-- ===== src/Simple.antt =====
-- clap/examples/simple/simple_example.cpp: a program that uses the library, from the description of
-- its command line to what its `main` writes and returns.
pub mod Built
use asap_clap.Base.{
  ℕ, zero, suc, Bool, true, false, not, ◌||◌, List, [], ◌∷◌, ◌++◌, Option, none, some, Text, codes,
  text_eq, if◌then◌else◌, ℤ, pos, negsuc, Outcome, done, fault, exception, undefined_behaviour,
  ◌>>=◌, deref,
}
use asap_clap.Fsm.{Engine}
use asap_clap.Format.{Fmt}
use asap_clap.Values.{Any, int_value, OptionValue}
use asap_clap.Values.ParseValue.{ValueType, flag, signed}
use asap_clap.Values.Typed.{get_as}
use asap_clap.Values.ValuesMap.{OptionValuesMap, has_option, values_of}
use asap_clap.Commands.{ClapOption, Command, version_name, help_name, default_name}
use asap_clap.Commands.Printing.{Wrap}
use asap_clap.Builders.{
  with_key, set_about, set_short, set_long, with_value, value_store_to, streamed_default_value,
  set_value_name, build_option, command_builder, command_with_option,
}
use asap_clap.Parser.Context.{CommandLineContext}
use asap_clap.Parser.Errors.{path_as_string}
use asap_clap.Cli.{Cli, new_cli}
use asap_clap.Cli.Builder.{
  handed, CliBuilder, cli_program_name, cli_version, cli_about, cli_with_version_command,
  cli_with_help_command, cli_with_command, build,
}
use asap_clap.Cli.Parsing.{CliParsed, or_throw, parse_cli}

-- The address of the variable `quiet`.
abbrev quiet_variable : ℕ
quiet_variable = 0

-- `-q, --quiet`. Its `StoreTo(&quiet)` has no effect: nothing calls `Notify`.
unfoldable pub quiet_option : Outcome ClapOption
unfolding set_about set_short set_long with_value value_store_to build_option
quiet_option = do
  about ←
      set_about (codes "Don't print anything to the standard output.") (with_key (codes "quiet"))
  short ← set_short (codes "q") about
  long ← set_long (codes "quiet") short
  b ← with_value flag long
  handed (build_option (value_store_to (some quiet_variable) b))

-- `int`
abbrev pub int_type : ValueType
int_type = signed (codes "int") 32

-- `-n, --lines <num>`, an int, by default 10. What `operator<<` writes for a value is a parameter.
unfoldable pub lines_option : (Any → Text) → Outcome ClapOption
unfolding set_about set_short set_long with_value streamed_default_value set_value_name build_option
lines_option streamed = do
  about ←
      set_about
        (codes
          "Print the first <num> lines instead of the first 10 (by default); with the leading '-', print all but the last <num> lines of each file.")
        (with_key (codes "lines"))
  short ← set_short (codes "n") about
  long ← set_long (codes "lines") short
  b ← with_value int_type long
  handed (
      build_option (
        set_value_name (codes "num")
          (streamed_default_value streamed (int_value (codes "int") (pos 10)) b)))

module _ (fmt : Fmt) (streamed : Any → Text) where
  unfoldable pub simple_command : Outcome Command
  unfolding quiet_option lines_option command_builder command_with_option
  simple_command = do
    b ← command_builder (default_name ∷ [])
    quiet ← quiet_option
    b' ← command_with_option quiet b
    lines ← lines_option streamed
    b'' ← command_with_option lines b'
    handed b''

  -- The `Cli` of `main`
  unfoldable pub simple_cli : Outcome Cli
  unfolding simple_command cli_program_name cli_version cli_about cli_with_version_command
      cli_with_help_command cli_with_command build
  simple_cli = do
    command ← simple_command
    named ← cli_program_name fmt (codes "simple-cli") (some new_cli)
    versioned ← cli_version fmt (codes "1.0.0") named
    about ←
        cli_about fmt
          (codes
            "This is a simple command line example to demonstrate the commonly used features of `asap-clap`. It uses the standard `version` and `help` commands and only implements a default command with several options.")
          versioned
    with_version ← cli_with_version_command fmt about
    with_help ← cli_with_help_command fmt with_version
    with_command ← cli_with_command fmt command with_help
    build fmt with_command

-- What `main` comes to: 0 with the pieces written to the standard output, or -1, where what was
-- written before the exception is left out.
pub data Exit : Type 0 where
  succeeded : List Text → Exit
  failed : Exit

-- `at(0)` of a vector.
abbrev first_at : List OptionValue → Outcome OptionValue
first_at [] = fault (exception (codes "out_of_range"))
first_at (v ∷ vs) = done v

-- `catch (...)`
abbrev caught : Outcome Exit → Outcome Exit
caught (done e) = done e
caught (fault (exception why)) = done failed
caught (fault x) = fault x

-- The variable `quiet`: it is set to false, and nothing writes to it, since nothing calls `Notify`.
abbrev quiet : Bool
quiet = false

module _ (engine : Engine) (fmt : Fmt) (wrap : Wrap) (streamed : Any → Text) where
  abbrev shown_line : Any → Text
  shown_line v =
      codes "-- Simple command line invoked, value of `lines` is: " ++ (streamed v ++ codes "\n")

  abbrev pub lines_line : ℤ → Text
  lines_line n = shown_line (int_value (codes "int") n)

  print_lines : CommandLineContext → Outcome Exit
  print_lines context = do
    values ← values_of (codes "lines") context.ovm
    v ← first_at values
    n ← get_as int_type v
    done (succeeded (context.out ++ shown_line n ∷ []))

  -- From the context that `Parse` returns.
  unfoldable pub after_parse : CommandLineContext → Outcome Exit
  unfolding print_lines
  after_parse context = do
    command ← deref context.active_command
    let path = path_as_string fmt command
    if text_eq path version_name || text_eq path help_name || has_option help_name context.ovm
        then done (succeeded context.out)
        else if not quiet
        then print_lines context
        else done (succeeded context.out)

  abbrev parsed : Option CliParsed → Option (Outcome Exit)
  parsed none = none
  parsed (some r) = some (caught (r >>= or_throw >>= after_parse))

  -- `main`; `none` means that the parser ran out of fuel.
  unfoldable pub simple_main : ℕ → List Text → Option (Outcome Exit)
  unfolding after_parse
  simple_main fuel argv = elim (simple_cli fmt streamed) [
    | fault x ↦ some (caught (fault x))
    | done cli ↦ parsed (parse_cli engine fmt wrap fuel cli argv)
  ]
