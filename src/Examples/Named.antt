-- ===== src/Examples/Named.antt =====
-- The parser on a command line that names a command, for commands like those of clap/test.
use asap_clap.Base.{true, ◌≡◌, refl, arith, List, [], ◌∷◌, some, none, Text, codes, done, Memᴰ}
use asap_clap.Fsm.Reference.{reference, reference-IsEngine}
use asap_clap.Format.{plain_fmt}
use asap_clap.Tokenizer.{tokenizer_of}
use asap_clap.Commands.{Command}
use asap_clap.Parser.Context.{ParserContext}
use asap_clap.Parser.States.Defaults.{with_defaults}
use asap_clap.Parser.Loop.{parse}
use asap_clap.Parser.Loop.Assignments.Run.{all_assigned}
use asap_clap.Parser.Loop.Assignments.Named.{parse-named}
use asap_clap.Values.{text_value}
use asap_clap.Values.ParseValue.{text}
use asap_clap.Values.Descriptor.{new_descriptor}
use asap_clap.Parser.Loop.Assignments.Placed.{Placement, all_placed}
use asap_clap.Examples.{file_option, default_command, command_named, base}
use asap_clap.Examples.Assigned.{level_assignment, name_assignment, assignments}

-- `show`, and `show all`
abbrev show_command : Command
show_command = command_named (codes "show") (file_option ∷ [])

abbrev show_all_command : Command
show_all_command = record show_command { path = codes "show" ∷ codes "all" ∷ [] }

abbrev commands : List Command
commands = default_command ∷ show_all_command ∷ show_command ∷ []

abbrev file_placement : Placement
file_placement = record {
  option = file_option;
  semantics = new_descriptor text;
  text = codes "notes";
  value = text_value (codes "notes");
}

-- `show -l 7 --name=x notes`
parse-named_example :
    (c : ParserContext) × (parse reference plain_fmt 12 base
        (tokenizer_of
          (codes "show" ∷ codes "-l" ∷ codes "7" ∷ codes "--name=x" ∷ codes "notes" ∷ []))
        commands
      ≡ some (done (true, c)))
    × (c.active_command ≡ some show_command)
    × (c.ovm
        ≡ with_defaults show_command.positional_args (
            with_defaults show_command.options
              (all_placed (file_placement ∷ []) (all_assigned assignments []))))
    × (c.err ≡ [])
    × (c.out ≡ [])
unfolding asap_clap.Values.Descriptor.parse asap_clap.Values.ParseValue.parse_value
    asap_clap.Base.text_eq asap_clap.Values.ParseValue.number_conversion
    asap_clap.Values.ParseValue.signed_cast asap_clap.Values.Numbers.stoll asap_clap.Base.int_eq
    asap_clap.Commands.find_short_option asap_clap.Commands.find_long_option
    asap_clap.Values.ValuesMap.store_value asap_clap.Values.ValuesMap.has_option
    asap_clap.Values.ValuesMap.occurrences_of
parse-named_example =
    parse-named reference-IsEngine plain_fmt show_command commands (codes "prog") none []
      (codes "show") [] level_assignment (name_assignment ∷ []) (file_placement ∷ []) 12 refl
      (Memᴰ.tail (Memᴰ.tail (Memᴰ.head refl))) (λ e. absurd cc, (λ e. absurd cc, (λ e. refl, tt)))
      (refl, tt) refl
      (
        record { found = refl; described = refl; read = refl },
        (record { found = refl; described = refl; read = refl }, tt),
      )
      (refl, (refl, tt)) (refl, (refl, tt))
      (
        record {
          plain = record {
            positional = refl;
            not_rest = refl;
            described = (new_descriptor text, refl);
          };
          described = refl;
          read = refl;
        },
        tt,
      )
      (refl, tt) (refl, (refl, tt)) (refl, tt) (omega arith)
