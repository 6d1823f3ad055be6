-- ===== src/Examples/Assigned.antt =====
-- The parser on command lines of options with their values, for commands like those of clap/test.
use asap_clap.Base.{
  int_eq, ◌++◌, ◌≡◌, refl, true, List, [], ◌∷◌, some, none, Text, codes, done, pos, length, arith,
  false, text_eq, ◌≤◌,
}
use asap_clap.Fsm.Reference.{reference, reference-IsEngine}
use asap_clap.Simple.{simple_main, succeeded, lines_line}
use asap_clap.Simple.Built.Lines.{simple_main-lines}
use asap_clap.Values.Numbers.{stoll}
use asap_clap.Format.{plain_fmt, plain_fmt-IsFmt}
use asap_clap.Tokenizer.{tokenizer_of}
use asap_clap.Values.{OptionValue, Any, text_value, int_value}
use asap_clap.Values.ParseValue.{signed, text, number_conversion, signed_cast}
use asap_clap.Values.Descriptor.{ValueDescriptor, new_descriptor, set_default_value}
use asap_clap.Values.ValuesMap.{store_value, has_option, occurrences_of}
use asap_clap.Commands.{Command}
use asap_clap.Parser.Context.{ParserContext, new_parser_context, store, new_command_line_context}
use asap_clap.Parser.Loop.{parse}
use asap_clap.Parser.Loop.Assignments.{with_equal, with_space, short_form, Assignment}
use asap_clap.Parser.Loop.Assignments.Run.{all_assigned}
use asap_clap.Parser.Loop.Assignments.RoundTrip.{parse-written}
use asap_clap.Parser.Loop.Assignments.Unknown.{parse-unknown_option}
use asap_clap.Parser.Loop.Assignments.Repeated.{parse-repeated_option, illegal_again}
use asap_clap.Parser.Errors.{unrecognized_option}
use asap_clap.Parser.Loop.Reached.{EndsAt}
use asap_clap.Parser.Loop.ReadsAll.{parse_reads_all}
use asap_clap.Parser.Loop.Once.{parse-at_most_one}
use asap_clap.Parser.Loop.Tokens.{start}
use asap_clap.Parser.States.Once.{Allows}
use asap_clap.Parser.States.Final.{check_required_options}
use asap_clap.Parser.Machine.{initial_state}
use asap_clap.Tokenizer.Stream.{arg_tokens}
use asap_clap.Parser.States.Defaults.{
  with_defaults, with_values, check_required_options-with_defaults,
}
use asap_clap.Examples.{name_option, level_option, default_command, base, no_wrap, run, left}

-- `-l 7 --name=x`
abbrev pub level_assignment : Assignment
level_assignment = record {
  form = short_form;
  name = codes "l";
  text = codes "7";
  option = level_option;
  semantics =
      set_default_value (int_value (codes "int") (pos 3)) (codes "3")
        (new_descriptor (signed (codes "int") 32));
  value = int_value (codes "int") (pos 7);
}

abbrev pub name_assignment : Assignment
name_assignment = record {
  form = with_equal;
  name = codes "name";
  text = codes "x";
  option = name_option;
  semantics = new_descriptor text;
  value = text_value (codes "x");
}

abbrev commands : List Command
commands = default_command ∷ []

abbrev pub assignments : List Assignment
assignments = level_assignment ∷ name_assignment ∷ []

parse-written_example :
    (c : ParserContext) × (parse reference plain_fmt 10 base
        (tokenizer_of (codes "-l" ∷ codes "7" ∷ codes "--name=x" ∷ []))
        commands
      ≡ some (done (true, c)))
    × (c.active_command ≡ some default_command)
    × (c.ovm ≡ with_defaults default_command.options (all_assigned assignments []))
    × (c.err ≡ [])
    × (c.out ≡ [])
unfolding asap_clap.Values.Descriptor.parse asap_clap.Values.ParseValue.parse_value
    asap_clap.Base.text_eq asap_clap.Values.ParseValue.number_conversion
    asap_clap.Values.ParseValue.signed_cast asap_clap.Values.Numbers.stoll asap_clap.Base.int_eq
    asap_clap.Commands.find_short_option asap_clap.Commands.find_long_option
    asap_clap.Values.ValuesMap.store_value asap_clap.Values.ValuesMap.has_option
    asap_clap.Values.ValuesMap.occurrences_of
parse-written_example =
    parse-written reference-IsEngine plain_fmt default_command commands (codes "prog") none []
      level_assignment (name_assignment ∷ []) 10 refl refl
      (
        record { found = refl; described = refl; read = refl },
        (record { found = refl; described = refl; read = refl }, tt),
      )
      (refl, (refl, tt)) (refl, (refl, tt)) (refl, (refl, tt)) (omega arith)

-- `-l 7 --name=x --nam --level=8`
parse-unknown_option_example :
    (c : ParserContext) × (parse reference plain_fmt 10 base
        (tokenizer_of
          (codes "-l" ∷ codes "7" ∷ codes "--name=x" ∷ codes "--nam" ∷ codes "--level=8" ∷ []))
        commands
      ≡ some (done (false, c)))
    × (c.active_command ≡ some default_command)
    × (c.ovm ≡ all_assigned assignments [])
    × (c.err
        ≡ (plain_fmt.format
              (codes "{}: {}")
              (codes "prog" ∷ unrecognized_option plain_fmt c (codes "nam") none ∷ [])
            ++ codes "\n")
          ∷ [])
    × (c.out ≡ [])
unfolding asap_clap.Values.Descriptor.parse asap_clap.Values.ParseValue.parse_value
    asap_clap.Base.text_eq asap_clap.Values.ParseValue.number_conversion
    asap_clap.Values.ParseValue.signed_cast asap_clap.Values.Numbers.stoll asap_clap.Base.int_eq
    asap_clap.Commands.find_short_option asap_clap.Commands.find_long_option
    asap_clap.Values.ValuesMap.store_value asap_clap.Values.ValuesMap.has_option
    asap_clap.Values.ValuesMap.occurrences_of
parse-unknown_option_example =
    parse-unknown_option reference-IsEngine plain_fmt default_command commands (codes "prog") none
      [] assignments (codes "nam") (codes "--level=8" ∷ []) 10 refl
      (
        record { found = refl; described = refl; read = refl },
        (record { found = refl; described = refl; read = refl }, tt),
      )
      (refl, (refl, tt)) (refl, (refl, tt)) refl refl (omega arith)

abbrev name_value : OptionValue
name_value = record {
  value = text_value (codes "x");
  original_token = codes "x";
  defaulted = false;
}

-- `-l 7 --name=x --name --level=8`
parse-repeated_option_example :
    (c : ParserContext) × (parse reference plain_fmt 10 base
        (tokenizer_of
          (codes "-l" ∷ codes "7" ∷ codes "--name=x" ∷ codes "--name" ∷ codes "--level=8" ∷ []))
        commands
      ≡ some (done (false, c)))
    × (c.active_command ≡ some default_command)
    × (c.active_option ≡ some name_option)
    × (c.ovm ≡ all_assigned assignments [])
    × (c.err
        ≡ (plain_fmt.format (codes "{}: {}") (
              codes "prog"
              ∷ illegal_again plain_fmt default_command (codes "name") name_option name_value
              ∷ [])
            ++ codes "\n")
          ∷ [])
    × (c.out ≡ [])
unfolding asap_clap.Values.Descriptor.parse asap_clap.Values.ParseValue.parse_value
    asap_clap.Base.text_eq asap_clap.Values.ParseValue.number_conversion
    asap_clap.Values.ParseValue.signed_cast asap_clap.Values.Numbers.stoll asap_clap.Base.int_eq
    asap_clap.Commands.find_short_option asap_clap.Commands.find_long_option
    asap_clap.Values.ValuesMap.store_value asap_clap.Values.ValuesMap.has_option
    asap_clap.Values.ValuesMap.occurrences_of asap_clap.Values.ValuesMap.find
parse-repeated_option_example =
    parse-repeated_option reference-IsEngine plain_fmt default_command commands (codes "prog") none
      [] assignments (codes "name") name_option (new_descriptor text) name_value []
      (codes "--level=8" ∷ []) 10 refl
      (
        record { found = refl; described = refl; read = refl },
        (record { found = refl; described = refl; read = refl }, tt),
      )
      (refl, (refl, tt)) (refl, (refl, tt)) refl refl refl refl refl (omega arith)

abbrev named : List Text
named = codes "--name=x" ∷ []

parse_reads_all_example :
    EndsAt plain_fmt
      (arg_tokens named)
      initial_state
      (start plain_fmt base commands)
      []
      (left (run named commands))
unfolding run
parse_reads_all_example =
    parse_reads_all plain_fmt reference-IsEngine 20 base named commands (left (run named commands))
      refl

name_once : (d : ValueDescriptor) → name_option.value_semantic ≡ some d → d.repeatable ≡ false
name_once d e = ground arith

default_command-Allows : Allows (codes "name") default_command
default_command-Allows = record {
  options_once = (λ _. name_once, (λ same. absurd cc, tt));
  not_positional = tt;
}

abbrev given_twice : List Text
given_twice = codes "-n" ∷ codes "x" ∷ codes "--name=y" ∷ []

-- The second value is refused.
parse-at_most_one_example : occurrences_of (codes "name") (left (run given_twice commands)).ovm ≤ 1
unfolding run
parse-at_most_one_example =
    parse-at_most_one (codes "name") plain_fmt reference-IsEngine 20 base given_twice commands false
      (left (run given_twice commands)) (default_command-Allows, tt) tt (omega arith) refl

abbrev one_value : ParserContext
one_value =
    store (codes "name")
      (record { value = text_value (codes "x"); original_token = codes "x"; defaulted = false })
      (new_parser_context base commands)

check_required_options-with_defaults_example :
    check_required_options plain_fmt default_command.options one_value
    ≡ done (none, with_values (with_defaults default_command.options one_value.ovm) one_value)
unfolding store_value has_option text_eq new_parser_context new_command_line_context
check_required_options-with_defaults_example =
    check_required_options-with_defaults plain_fmt default_command.options one_value
      (refl, (refl, tt))

-- What `operator<<` writes, for texts.
abbrev shown : Any → Text
shown (text_value s) = s
shown _ = codes "a number"

simple_main-lines_example :
    simple_main reference plain_fmt no_wrap shown 6
      (codes "prog" ∷ codes "--lines" ∷ codes "12" ∷ [])
    ≡ some (done (succeeded (lines_line reference plain_fmt no_wrap shown (pos 12) ∷ [])))
unfolding number_conversion signed_cast stoll int_eq
simple_main-lines_example =
    simple_main-lines plain_fmt shown reference-IsEngine no_wrap plain_fmt-IsFmt with_space
      (codes "prog") (codes "12") (pos 12) 6 refl refl refl (omega arith)
