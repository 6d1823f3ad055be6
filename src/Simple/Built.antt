-- ===== src/Simple/Built.antt =====
-- clap/examples/simple/simple_example.cpp: the Cli that it builds, and its option `--lines`.
pub mod Lines
use asap_clap.Base.{
  ℕ, suc, ◌+◌, ◌≤◌, Bool, true, false, List, [], ◌∷◌, ◌++◌, ◌≡◌, ◌≢◌, refl, sym, append-nil, ap,
  ◌∙◌, arith, Option, none, some, Text, codes, text_eq, ℤ, pos, Outcome, done, fault, deref, All,
  find_if, length, is_empty,
}
use asap_clap.Fsm.{Engine, IsEngine}
use asap_clap.Format.{Fmt, IsFmt}
use asap_clap.Tokenizer.{tokenizer_of}
use asap_clap.Values.{Any, int_value, OptionValue}
use asap_clap.Values.ParseValue.{signed, number_conversion, parse_value}
use asap_clap.Values.Descriptor.{ValueDescriptor, new_descriptor, set_default_value}
use asap_clap.Values.ValuesMap.{OptionValuesMap, occurrences_of, store_value, has_option, values_of}
use asap_clap.Commands.{
  ClapOption, Command, help_name, is_default, find_long_option, find_short_option,
}
use asap_clap.Commands.Printing.{Wrap}
use asap_clap.Parser.Context.{ParserContext, CommandLineContext, new_command_line_context}
use asap_clap.Parser.Loop.{Parsed, parse}
use asap_clap.Parser.Loop.Assignments.{
  Form, with_equal, with_space, short_form, Assignment, Means, found_by,
}
use asap_clap.Parser.Loop.Assignments.Run.{all_assigned, MayOccur}
use asap_clap.Parser.Loop.Assignments.Written.{written_by, writable}
use asap_clap.Parser.Loop.Assignments.RoundTrip.{parse-written}
use asap_clap.Parser.States.Defaults.{AllServed, with_defaults}
use asap_clap.Parser.Errors.{path_as_string}
use asap_clap.Cli.{Cli, new_cli, arguments, program_name_or_empty}
use asap_clap.Cli.Parsing.{
  after_success, name_from, unified_args, parse_arguments, parse_cli, after_parser, updated,
}
use asap_clap.Simple.{
  lines_option, simple_cli, simple_main, Exit, succeeded, lines_line, simple_main, after_parse,
}

abbrev cli_in : Outcome Cli → Cli
cli_in (done cli) = cli
cli_in (fault x) = new_cli

abbrev command_in : Option Command → Command
command_in (some c) = c
command_in none = record {
  about = [];
  path = [];
  options = [];
  options_in_groups = [];
  groups = [];
  positional_args = [];
  has_parent_cli = false;
}

abbrev option_in : Outcome ClapOption → ClapOption
option_in (done o) = o
option_in (fault x) = record {
  key = [];
  short_name = [];
  long_name = [];
  about = [];
  user_friendly_name = [];
  required = false;
  value_semantic = none;
}

module _ (fmt : Fmt) (streamed : Any → Text) where
  abbrev pub built : Cli
  unfolding simple_cli asap_clap.Cli.Builder.build asap_clap.Commands.new_command
      asap_clap.Commands.with_option asap_clap.Cli.Builder.set_up
      asap_clap.Commands.find_long_option asap_clap.Base.text_eq
      asap_clap.Cli.Builder.add_help_option asap_clap.Cli.Builder.help_option
      asap_clap.Cli.Builder.add_version_option asap_clap.Cli.Builder.version_option
      asap_clap.Commands.with_positional_arguments
  built = cli_in (simple_cli fmt streamed)

  abbrev pub built_command : Command
  built_command = command_in (find_if is_default built.commands)

  abbrev pub lines : ClapOption
  unfolding lines_option
  lines = option_in (lines_option streamed)

  pub simple_cli-built : simple_cli fmt streamed ≡ done built
  unfolding simple_cli asap_clap.Cli.Builder.build asap_clap.Commands.new_command
      asap_clap.Commands.with_option asap_clap.Cli.Builder.set_up
      asap_clap.Commands.find_long_option asap_clap.Base.text_eq
      asap_clap.Cli.Builder.add_help_option asap_clap.Cli.Builder.help_option
      asap_clap.Cli.Builder.add_version_option asap_clap.Cli.Builder.version_option
      asap_clap.Commands.with_positional_arguments
  simple_cli-built = refl

  pub built_command-found : find_if is_default built.commands ≡ some built_command
  unfolding built
  built_command-found = refl

  abbrev pub lines_semantics : ValueDescriptor
  lines_semantics =
      record (set_default_value (int_value (codes "int") (pos 10))
        (streamed (int_value (codes "int") (pos 10))) (new_descriptor (signed (codes "int") 32))) {
          user_friendly_name = codes "num";
        }

  abbrev pub name_by : Form → Text
  name_by short_form = codes "n"
  name_by _ = codes "lines"

  abbrev pub given : Form → Text → ℤ → Assignment
  given form text v = record {
    form = form;
    name = name_by form;
    text = text;
    option = lines;
    semantics = lines_semantics;
    value = int_value (codes "int") v;
  }

  pub lines_found : (form : Form) → found_by form (name_by form) built_command ≡ some lines
  unfolding built lines find_long_option find_short_option text_eq
  lines_found with_equal = refl
  lines_found with_space = refl
  lines_found short_form = refl

  pub lines_described : lines.value_semantic ≡ some lines_semantics
  unfolding lines
  lines_described = refl

  pub lines_read :
      (text : Text) (v : ℤ)
      → number_conversion 32 text ≡ some v
      → asap_clap.Values.Descriptor.parse lines_semantics text ≡ some (int_value (codes "int") v)
  unfolding asap_clap.Values.Descriptor.parse parse_value
  lines_read text v h =
      ap (λ o. elim o [ none ↦ none | some v ↦ some (int_value (codes "int") v) ]) h

  pub given-MayOccur : (form : Form) (text : Text) (v : ℤ) → MayOccur (given form text v ∷ []) []
  unfolding occurrences_of
  given-MayOccur form text v = (refl, tt)

  pub given-AllServed :
      (form : Form) (text : Text) (v : ℤ)
      → AllServed (all_assigned (given form text v ∷ []) []) built_command.options
  unfolding built lines store_value has_option text_eq
  given-AllServed form text v = (refl, (refl, (refl, (refl, tt))))
