-- ===== src/Examples.antt =====
-- A program like those of clap/test and clap/examples: the data of the tests and of the witnesses.
mod Runs
mod Witnesses
mod States
mod Assigned
mod Typed
mod Named
mod Progress
mod Identified
mod HelpPath
mod Refused
use asap_clap.Base.{
  true, false, List, [], ◌∷◌, ◌++◌, Option, none, some, Text, codes, ℤ, pos, Outcome, done, fault,
}
use asap_clap.Values.{Any, int_value}
use asap_clap.Values.ParseValue.{ValueType, signed, text}
use asap_clap.Values.Descriptor.{ValueDescriptor, new_descriptor, set_default_value}
use asap_clap.Commands.{ClapOption, Command, Options, new_option, with_option}
use asap_clap.Commands.Printing.{Wrap}
use asap_clap.Parser.Context.{CommandLineContext, new_command_line_context}
use asap_clap.Fsm.Reference.{reference}
use asap_clap.Format.{plain_fmt}
use asap_clap.Tokenizer.{tokenizer_of}
use asap_clap.Parser.Context.{ParserContext, new_parser_context}
use asap_clap.Parser.Loop.{Parsed, parse}
use asap_clap.Cli.Parsing.{CliParsed, returned, parse_cli}
use asap_clap.Cli.{Cli, new_cli}

-- `-n, --name`, required.
abbrev pub name_option : ClapOption
name_option = record (new_option (codes "name")) {
  short_name = codes "n";
  long_name = codes "name";
  required = true;
  value_semantic = some (new_descriptor text);
}

-- `-l, --level`, an int with a default value.
abbrev pub level_option : ClapOption
level_option = record (new_option (codes "level")) {
  short_name = codes "l";
  long_name = codes "level";
  value_semantic = some (
      set_default_value (int_value (codes "int") (pos 3)) (codes "3")
        (new_descriptor (signed (codes "int") 32)));
}

abbrev pub file_option : ClapOption
file_option = record (new_option (codes "file")) { value_semantic = some (new_descriptor text) }

-- A command with these options and positional arguments, and a path of one segment.
abbrev pub command_named : Text → List ClapOption → Command
command_named segment positional = record {
  about = codes "A command.";
  path = segment ∷ [];
  options = name_option ∷ level_option ∷ [];
  options_in_groups = false ∷ false ∷ [];
  groups = [];
  positional_args = positional;
  has_parent_cli = true;
}

abbrev pub default_command : Command
default_command = command_named [] []

abbrev pub file_command : Command
file_command = command_named [] (file_option ∷ [])

abbrev pub base : CommandLineContext
base = new_command_line_context (codes "prog") none []

abbrev pub cli : Cli
cli = record new_cli { commands = default_command ∷ []; has_help_command = true }

-- A wrapping that keeps the text as it is.
abbrev pub no_wrap : Wrap
no_wrap width collapse indent s = some s

-- A run of the parser, on the engine that computes.
unfoldable pub run : List Text → List Command → Option Parsed
unfolding asap_clap.Tokenizer.next_token asap_clap.Tokenizer.tokenize asap_clap.Base.text_eq
    asap_clap.Commands.find_short_option asap_clap.Commands.find_long_option
    asap_clap.Values.ValuesMap.store_value asap_clap.Values.ValuesMap.has_option
    asap_clap.Values.ValuesMap.occurrences_of asap_clap.Values.ValuesMap.values_of
    asap_clap.Values.Descriptor.parse asap_clap.Values.Descriptor.apply_default
    asap_clap.Values.Descriptor.apply_implicit asap_clap.Values.ParseValue.parse_value
    asap_clap.Values.ParseValue.number_conversion asap_clap.Values.ParseValue.signed_cast
    asap_clap.Values.Numbers.stoll asap_clap.Base.int_eq asap_clap.Parser.Context.new_parser_context
    asap_clap.Parser.Context.new_command_line_context
    asap_clap.Parser.Errors.missing_required_option
    asap_clap.Parser.Errors.illegal_multiple_occurrence
    asap_clap.Parser.States.Initial.initial_context asap_clap.Parser.States.Initial.handle_initial
    asap_clap.Parser.States.Options.enter_options asap_clap.Parser.States.Options.handle_options
    asap_clap.Parser.States.Options.check_multiple_occurrence
    asap_clap.Parser.States.ShortOption.enter_short asap_clap.Parser.States.ShortOption.leave_short
    asap_clap.Parser.States.ShortOption.handle_short asap_clap.Parser.States.LongOption.enter_long
    asap_clap.Parser.States.LongOption.leave_long asap_clap.Parser.States.LongOption.handle_long
    asap_clap.Parser.States.Final.enter_final asap_clap.Parser.States.Final.place
    asap_clap.Parser.States.Final.pick asap_clap.Parser.States.Final.store_positional
    asap_clap.Parser.States.Final.validate asap_clap.Parser.States.Final.check_option
    asap_clap.Parser.States.Handlers.machine asap_clap.Parser.Loop.parse
run args commands = parse reference plain_fmt 20 base (tokenizer_of args) commands

-- The context that a run left.
abbrev pub left : Option Parsed → ParserContext
left (some (done (b, c))) = c
left _ = new_parser_context base []

-- A run of the whole program.
unfoldable pub run_cli : List Text → Option CliParsed
unfolding asap_clap.Tokenizer.next_token asap_clap.Tokenizer.tokenize asap_clap.Base.text_eq
    asap_clap.Commands.find_short_option asap_clap.Commands.find_long_option
    asap_clap.Values.ValuesMap.store_value asap_clap.Values.ValuesMap.has_option
    asap_clap.Values.ValuesMap.occurrences_of asap_clap.Values.ValuesMap.values_of
    asap_clap.Values.Descriptor.parse asap_clap.Values.Descriptor.apply_default
    asap_clap.Values.Descriptor.apply_implicit asap_clap.Values.ParseValue.parse_value
    asap_clap.Values.ParseValue.number_conversion asap_clap.Values.ParseValue.signed_cast
    asap_clap.Values.Numbers.stoll asap_clap.Base.int_eq asap_clap.Parser.Context.new_parser_context
    asap_clap.Parser.Context.new_command_line_context
    asap_clap.Parser.Errors.missing_required_option
    asap_clap.Parser.Errors.illegal_multiple_occurrence
    asap_clap.Parser.States.Initial.initial_context asap_clap.Parser.States.Initial.handle_initial
    asap_clap.Parser.States.Options.enter_options asap_clap.Parser.States.Options.handle_options
    asap_clap.Parser.States.Options.check_multiple_occurrence
    asap_clap.Parser.States.ShortOption.enter_short asap_clap.Parser.States.ShortOption.leave_short
    asap_clap.Parser.States.ShortOption.handle_short asap_clap.Parser.States.LongOption.enter_long
    asap_clap.Parser.States.LongOption.leave_long asap_clap.Parser.States.LongOption.handle_long
    asap_clap.Parser.States.Final.enter_final asap_clap.Parser.States.Final.place
    asap_clap.Parser.States.Final.pick asap_clap.Parser.States.Final.store_positional
    asap_clap.Parser.States.Final.validate asap_clap.Parser.States.Final.check_option
    asap_clap.Parser.States.Handlers.machine asap_clap.Parser.Loop.parse asap_clap.Cli.arguments
    asap_clap.Cli.Parsing.parse_cli asap_clap.Cli.Parsing.unified_args
    asap_clap.Parser.Errors.path_as_string asap_clap.Cli.Parsing.after_success
run_cli argv = parse_cli reference plain_fmt no_wrap 20 cli argv

abbrev pub left_cli : Option CliParsed → Cli
left_cli (some (done (returned context c))) = c
left_cli _ = cli

abbrev pub context_left : Option CliParsed → CommandLineContext
context_left (some (done (returned context c))) = context
context_left _ = base
