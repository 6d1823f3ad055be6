-- ===== src/Examples/HelpPath.antt =====
-- The whole program with `help` and a path behind it, for commands like those of clap/test.
use asap_clap.Base.{
  true, ◌≡◌, refl, arith, List, [], ◌∷◌, some, none, Text, codes, Outcome, done, fault, All, Memᴰ,
  text_eq,
}
use asap_clap.Fsm.Reference.{reference, reference-IsEngine}
use asap_clap.Format.{plain_fmt, plain_fmt-IsFmt}
use asap_clap.Values.ParseValue.{flag, text}
use asap_clap.Values.Descriptor.{new_descriptor}
use asap_clap.Commands.{ClapOption, new_option, Command, help_name, key_rest}
use asap_clap.Commands.Printing.{print_command}
use asap_clap.Parser.Context.{CommandLineContext}
use asap_clap.Parser.Loop.Assignments.Behind.{IsLast}
use asap_clap.Parser.Loop.Assignments.Rest.{IsSegments}
use asap_clap.Cli.{Cli, new_cli}
use asap_clap.Cli.Help.{parent_of}
use asap_clap.Cli.Parsing.{parse_cli, returned}
use asap_clap.Cli.Parsing.Handled.{named}
use asap_clap.Cli.Parsing.HelpPath.{IsHelp, parse_cli-help_path, parse_cli-unknown_help_path}
use asap_clap.Examples.{file_option, default_command, command_named, no_wrap}

abbrev segments_option : ClapOption
segments_option = record (new_option key_rest) { value_semantic = some (new_descriptor text) }

abbrev help_flag : ClapOption
help_flag = record (new_option (codes "help")) {
  short_name = codes "h";
  long_name = codes "help";
  value_semantic = some (new_descriptor flag);
}

abbrev help_of_program : Command
help_of_program = record (command_named help_name (segments_option ∷ [])) {
  options = help_flag ∷ [];
  options_in_groups = true ∷ [];
}

-- `show all`
abbrev show_command : Command
show_command = record (command_named (codes "show") (file_option ∷ [])) {
  path = codes "show" ∷ codes "all" ∷ [];
}

abbrev program : Cli
program = record new_cli {
  commands = default_command ∷ show_command ∷ help_of_program ∷ [];
  has_help_command = true;
}

segments_option-IsSegments : IsSegments segments_option
unfolding text_eq asap_clap.Values.Descriptor.parse asap_clap.Values.ParseValue.parse_value
segments_option-IsSegments = record {
  rest = record { positional = refl; rest = refl };
  semantics = new_descriptor text;
  described = refl;
  read = λ t. refl;
}

program-IsHelp : IsHelp program help_of_program segments_option
program-IsHelp = record {
  enabled = refl;
  path = refl;
  there = Memᴰ.tail (Memᴰ.tail (Memᴰ.head refl));
  only = (λ e. absurd cc, (λ e. absurd cc, (λ e. refl, tt)));
  segments = segments_option-IsSegments;
  args = refl;
  free = (
    record {
      semantics = new_descriptor flag;
      described = refl;
      no_default = refl;
      optional = refl;
    },
    tt,
  );
}

program-IsLast : IsLast (help_name ∷ []) (codes "show") program.commands
unfolding text_eq
program-IsLast = (refl, (refl, (refl, tt)))

abbrev printed : Outcome Text → Text
printed (done s) = s
printed (fault x) = []

-- The help of `show all`.
abbrev show_text : Text
show_text = printed (
    print_command plain_fmt no_wrap (parent_of plain_fmt no_wrap (named (codes "prog") program))
      show_command 80)

-- `prog help show all`
parse_cli-help_path_example :
    (context : CommandLineContext) × (after : Cli) × (parse_cli reference plain_fmt no_wrap 5
        program
        (codes "prog" ∷ help_name ∷ codes "show" ∷ codes "all" ∷ [])
      ≡ some (done (returned context after)))
    × (context.active_command ≡ some help_of_program)
    × (context.out ≡ show_text ∷ [])
    × (context.err ≡ [])
unfolding print_command text_eq asap_clap.Base.texts_eq
parse_cli-help_path_example =
    parse_cli-help_path reference-IsEngine plain_fmt-IsFmt no_wrap 5 program (codes "prog")
      help_of_program segments_option (codes "show") (codes "all" ∷ []) program-IsHelp refl refl
      program-IsLast (refl, (refl, tt)) (omega arith) show_command show_text refl refl

-- `prog help show`
parse_cli-unknown_help_path_example :
    (context : CommandLineContext) × (after : Cli) × (parse_cli reference plain_fmt no_wrap 4
        program
        (codes "prog" ∷ help_name ∷ codes "show" ∷ [])
      ≡ some (done (returned context after)))
    × (context.active_command ≡ some help_of_program)
    × (context.out ≡ codes "Try 'prog --help' for more information.\n" ∷ [])
    × (context.err ≡ codes "The path `show` does not correspond to a known command.\n" ∷ [])
unfolding text_eq asap_clap.Cli.Help.try_help asap_clap.Base.texts_eq
parse_cli-unknown_help_path_example =
    parse_cli-unknown_help_path reference-IsEngine plain_fmt-IsFmt no_wrap 4 program (codes "prog")
      help_of_program segments_option (codes "show") [] program-IsHelp refl refl program-IsLast
      (refl, tt) (omega arith) refl
