-- ===== src/Cli/Parsing/Handled.antt =====
-- clap/src/cli.cpp: what `Cli::Parse` does behind a parser that returned true, and HandleHelpCommand with a path.
use asap_clap.Base.{
  ℕ, true, false, List, [], ◌∷◌, map, ◌≡◌, refl, ap, ◌∙◌, Option, none, some, Text, text_eq,
  texts_eq, codes, is_empty, find_if, done,
}
use asap_clap.Fsm.{Engine}
use asap_clap.Format.{Fmt, IsFmt}
use asap_clap.Values.ValuesMap.{has_option, values_of, find}
use asap_clap.Commands.{Command, help_name}
use asap_clap.Commands.Printing.{Wrap, filled}
use asap_clap.Parser.Context.{CommandLineContext, ParserContext, new_command_line_context}
use asap_clap.Tokenizer.{tokenizer_of}
use asap_clap.Parser.Loop.{parse}
use asap_clap.Parser.Errors.{path_as_string}
use asap_clap.Parser.Loop.Assignments.Rest.{entry, only_rest}
use asap_clap.Cli.{Cli, program_name_or_empty, arguments}
use asap_clap.Cli.Help.{texts_of, help_of_path, help_command, handle_help_command}
use asap_clap.Cli.Parsing.{
  name_from, unified_args, updated, after_success, after_parser, parse_arguments, parse_cli,
  returned,
}

texts_of-entry : (ts : List Text) → texts_of (map entry ts) ≡ done ts
unfolding texts_of
texts_of-entry [] = refl
texts_of-entry (t ∷ ts) = rw (texts_of-entry ts) refl

pub path_as_string-one :
    (fmt : Fmt) (c : Command) (s : Text) → IsFmt fmt → c.path ≡ s ∷ [] → path_as_string fmt c ≡ s
unfolding path_as_string
path_as_string-one fmt c s law p =
    ap (λ path. fmt.format (codes "{}") (fmt.join path (codes " ") ∷ [])) p
    ∙ ap (λ x. fmt.format (codes "{}") (x ∷ [])) (law.join_one s (codes " "))
    ∙ law.format_hole s

-- The Cli while it parses: it has the name given, or the one in `argv`.
abbrev pub named : Text → Cli → Cli
named name cli = record cli { program_name = name_from name cli.program_name }

-- The help command with a path, whether a command has it or not.
pub after_success-path :
    (engine : Engine) (fmt : Fmt) (wrap : Wrap) (help : Command) (t : Text) (ts : List Text)
    (found : Option Command) (cli : Cli) (context : CommandLineContext)
    → path_as_string fmt help ≡ help_name
    → context.active_command ≡ some help
    → context.ovm ≡ only_rest (t ∷ ts)
    → find_if (λ c. texts_eq c.path (t ∷ ts)) cli.commands ≡ found
    → after_success engine fmt wrap cli context ≡ help_of_path fmt wrap cli (t ∷ ts) found context
unfolding after_success handle_help_command help_command has_option values_of find text_eq
after_success-path engine fmt wrap help t ts found cli context called active stored is_there =
    rw (active, called, stored) (rw (texts_of-entry (t ∷ ts), is_there) refl)

-- A parser that returns true, and what is done behind it.
pub parse_cli-done :
    (engine : Engine) (fmt : Fmt) (wrap : Wrap) (fuel : ℕ) (cli : Cli) (name : Text)
    (args : List Text) (c : ParserContext) (context : CommandLineContext)
    → is_empty name ≡ false
    → parse engine fmt fuel
        (new_command_line_context
          (program_name_or_empty (named name cli))
          cli.active_command
          cli.ovm)
        (tokenizer_of (unified_args (named name cli) args))
        cli.commands
      ≡ some (done (true, c))
    → after_success engine fmt wrap (updated engine fmt wrap c.base (named name cli)) c.base
      ≡ done context
    → parse_cli engine fmt wrap fuel cli (name ∷ args)
      ≡ some (done (returned context (updated engine fmt wrap c.base (named name cli))))
unfolding parse_cli arguments parse_arguments after_parser
parse_cli-done engine fmt wrap fuel cli name args c context given parsed handled =
    rw (parse_cli, arguments, given) (rw (parse_arguments, parsed) (rw handled refl))

-- The Cli has a name.
pub filled-named :
    (name : Text) (cli : Cli) (own : Option Text)
    → cli.program_name ≡ own
    → filled (named name cli).program_name ≡ done (program_name_or_empty (named name cli))
filled-named name cli none e = rw e refl
filled-named name cli (some own) e = rw e refl
