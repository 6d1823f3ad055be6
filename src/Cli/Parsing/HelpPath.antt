-- ===== src/Cli/Parsing/HelpPath.antt =====
-- clap/src/cli.cpp: `Cli::Parse` with `help` and the path of a command, and HandleHelpCommand behind it.
use asap_clap.Base.{
  ℕ, ◌+◌, ◌≤◌, true, false, List, [], ◌∷◌, ◌++◌, ◌≡◌, refl, sym, ap, ◌∙◌, subst, arith, All, Memᴰ,
  length, Option, none, some, Text, texts_eq, codes, is_empty, find_if, done,
}
use asap_clap.Fsm.{Engine, IsEngine}
use asap_clap.Format.{Fmt, IsFmt}
use asap_clap.Values.ValuesMap.{OptionValuesMap}
use asap_clap.Commands.{ClapOption, Command, help_name}
use asap_clap.Commands.Printing.{Wrap, print_command}
use asap_clap.Parser.Context.{CommandLineContext, ParserContext, new_command_line_context}
use asap_clap.Tokenizer.{tokenizer_of}
use asap_clap.Parser.Loop.{Parsed, parse}
use asap_clap.Parser.States.Path.{IsOnly}
use asap_clap.Parser.Loop.Assignments.Written.{is_value}
use asap_clap.Parser.Loop.Assignments.Behind.{IsLast}
use asap_clap.Parser.Loop.Assignments.Rest.{IsSegments, IsFree, only_rest}
use asap_clap.Parser.Loop.Assignments.Segments.{parse-segments}
use asap_clap.Cli.{Cli, program_name_or_empty}
use asap_clap.Cli.Help.{parent_of, write_out, write_err, try_help, help_of_path}
use asap_clap.Cli.Parsing.{unified_args, updated, parse_cli, returned}
use asap_clap.Cli.Parsing.HelpFlag.{help_unified}
use asap_clap.Cli.Parsing.Handled.{
  named, path_as_string-one, after_success-path, parse_cli-done, filled-named,
}

-- The help command of a Cli, with its rest option.
pub record IsHelp (cli : Cli) (help : Command) (rest : ClapOption) : Type 0 where
  pub enabled : cli.has_help_command ≡ true
  pub path : help.path ≡ help_name ∷ []
  pub there : Memᴰ help cli.commands
  pub only : All (IsOnly help) cli.commands
  pub segments : IsSegments rest
  pub args : help.positional_args ≡ rest ∷ []
  pub free : All IsFree help.options

module _ {engine : Engine} (law : IsEngine engine) {fmt : Fmt} (formats : IsFmt fmt) (wrap : Wrap)
    (fuel : ℕ) (cli : Cli) (name : Text) (help : Command) (rest : ClapOption) (t : Text)
    (ts : List Text) (is : IsHelp cli help rest) (empty : cli.ovm ≡ [])
    (given : is_empty name ≡ false) (ends : IsLast (help_name ∷ []) t cli.commands)
    (words : All (λ s. is_value b'-' s ≡ true) (t ∷ ts)) (enough : length (t ∷ ts) + 3 ≤ fuel) where
  abbrev pub known : Cli
  known = named name cli

  parsed_help :
      (c : ParserContext) × (parse engine fmt fuel
          (new_command_line_context (program_name_or_empty known) cli.active_command cli.ovm)
          (tokenizer_of (help_name ∷ t ∷ ts))
          cli.commands
        ≡ some (done (true, c)))
      × (c.active_command ≡ some help)
      × (c.ovm ≡ only_rest (t ∷ ts))
      × (c.err ≡ [])
      × (c.out ≡ [])
  parsed_help =
      let (c, e, active, stored, err, out) =
        parse-segments law fmt help cli.commands (program_name_or_empty known) cli.active_command
          help_name [] rest t ts fuel is.path is.there is.only
          (subst (λ p. IsLast p t cli.commands) (sym is.path) ends) is.segments is.args is.free
          (subst (All (λ s. is_value b'-' s ≡ true)) (sym is.path) (refl, tt)) words
          (subst (λ p. length p + length (t ∷ ts) + 2 ≤ fuel) (sym is.path) (omega arith)) in
      let run : Text → OptionValuesMap → List Text → Option Parsed = λ s o p.
        parse engine fmt fuel (new_command_line_context s cli.active_command o)
          (tokenizer_of (p ++ t ∷ ts)) cli.commands in
      (
        c,
        ap (λ o. run (program_name_or_empty known) o (help_name ∷ [])) empty
            ∙ ap (run (program_name_or_empty known) []) (sym is.path)
            ∙ e,
        active,
        stored,
        err,
        out,
      )

  -- What the help command leaves is what `Cli::Parse` returns.
  help_run :
      (found : Option Command) (write : CommandLineContext → CommandLineContext)
      → find_if (λ c. texts_eq c.path (t ∷ ts)) cli.commands ≡ found
      → ((c : CommandLineContext)
          → help_of_path fmt wrap (updated engine fmt wrap c known) (t ∷ ts) found c
            ≡ done (write c))
      → (c : CommandLineContext) × (parse_cli engine fmt wrap fuel cli (name ∷ help_name ∷ t ∷ ts)
          ≡ some (done (returned (write c) (updated engine fmt wrap c known))))
        × (c.active_command ≡ some help)
        × (c.err ≡ [])
        × (c.out ≡ [])
  unfolding unified_args
  help_run found write is_there writes =
      let (c, e, active, stored, err, out) = parsed_help in
      let after = updated engine fmt wrap c.base known in
      let same = (help_unified known is.enabled).2 in
      (
        c.base,
        parse_cli-done engine fmt wrap fuel cli name (help_name ∷ t ∷ ts) c (write c.base) given
            (rw same e)
            (after_success-path engine fmt wrap help t ts found after c.base
                (path_as_string-one fmt help help_name formats is.path) active stored is_there
              ∙ writes c.base),
        active,
        err,
        out,
      )

  help_of_path-known :
      (found : Command) (text : Text) (c : CommandLineContext)
      → print_command fmt wrap (parent_of fmt wrap known) found 80 ≡ done text
      → help_of_path fmt wrap (updated engine fmt wrap c known) (t ∷ ts) (some found) c
        ≡ done (write_out text c)
  unfolding help_of_path
  help_of_path-known found text c printed = rw printed refl

  -- The help of a command. On every engine, while the help command is one of the commands, the program
  -- with `help` and a path behind it, which has a segment, prints the help of the first command that has
  -- this path, and nothing else, on the output stream; the help command is then the active one. The
  -- conditions: the help command is the only one with its path, its one positional argument is the rest
  -- option for texts, and each of its options may be left out and has no default value; no path of a command begins with `help`
  -- and the first segment; a segment is not empty and begins with no dash; no value is in the Cli's map; and the
  -- help of the command is printed without an exception. Three rounds more than the segments are enough.
  pub parse_cli-help_path :
      (found : Command) (text : Text)
      → find_if (λ c. texts_eq c.path (t ∷ ts)) cli.commands ≡ some found
      → print_command fmt wrap (parent_of fmt wrap known) found 80 ≡ done text
      → (context : CommandLineContext) × (after : Cli) × (parse_cli engine fmt wrap fuel cli
            (name ∷ help_name ∷ t ∷ ts)
          ≡ some (done (returned context after)))
        × (context.active_command ≡ some help)
        × (context.out ≡ text ∷ [])
        × (context.err ≡ [])
  parse_cli-help_path found text is_there printed =
      let (c, e, active, err, out) =
        help_run (some found) (write_out text) is_there
          (λ c. help_of_path-known found text c printed) in
      (
        write_out text c,
        updated engine fmt wrap c known,
        e,
        active,
        ap (λ o. o ++ text ∷ []) out,
        err,
      )

  -- What is printed for a path that no command has.
  abbrev pub unknown_path : Text
  unknown_path =
      fmt.format (codes "The path `{}` does not correspond to a known command.\n")
        (fmt.join (t ∷ ts) (codes " ") ∷ [])

  abbrev pub hint : Text
  hint = try_help fmt wrap (program_name_or_empty known)

  abbrev write_unknown : CommandLineContext → CommandLineContext
  write_unknown c = write_out hint (write_err unknown_path c)

  help_of_path-unknown :
      (c : CommandLineContext)
      → help_of_path fmt wrap (updated engine fmt wrap c known) (t ∷ ts) none c
        ≡ done (write_unknown c)
  unfolding help_of_path
  help_of_path-unknown c = rw (filled-named name cli cli.program_name refl) refl

  -- The help of a path that no command has. On every engine, while the help command is one of the
  -- commands, the program with `help` and such a path behind it writes to the error stream that the path
  -- is unknown, and to the output stream the hint to `--help`, and nothing else; it does not throw.
  -- The conditions: the help command is the only one with its path, its one positional argument is the rest
  -- option for texts, and each of its options may be left out and has no default value; no path of a command begins with `help`
  -- and the first segment; a segment is not empty and begins with no dash; and no value is in the Cli's map.
  -- Three rounds more than the segments are enough.
  pub parse_cli-unknown_help_path :
      find_if (λ c. texts_eq c.path (t ∷ ts)) cli.commands ≡ none
      → (context : CommandLineContext) × (after : Cli) × (parse_cli engine fmt wrap fuel cli
            (name ∷ help_name ∷ t ∷ ts)
          ≡ some (done (returned context after)))
        × (context.active_command ≡ some help)
        × (context.out ≡ hint ∷ [])
        × (context.err ≡ unknown_path ∷ [])
  parse_cli-unknown_help_path is_there =
      let (c, e, active, err, out) = help_run none write_unknown is_there help_of_path-unknown in
      (
        write_unknown c,
        updated engine fmt wrap c known,
        e,
        active,
        ap (λ o. o ++ hint ∷ []) out,
        ap (λ o. o ++ unknown_path ∷ []) err,
      )
