-- ===== src/Simple/Built/Lines.antt =====
-- clap/examples/simple/simple_example.cpp: the program on `--lines` with a number.
use asap_clap.Base.{
  ℕ, ◌≤◌, true, false, List, [], ◌∷◌, ◌≡◌, refl, sym, append-nil, ap, ◌∙◌, none, some, Text, codes,
  text_eq, ℤ, done, deref, is_empty,
}
use asap_clap.Fsm.{Engine, IsEngine}
use asap_clap.Format.{Fmt, IsFmt}
use asap_clap.Tokenizer.{tokenizer_of}
use asap_clap.Values.Typed.{get_as}
use asap_clap.Values.{Any, int_value, OptionValue}
use asap_clap.Values.ParseValue.{number_conversion}
use asap_clap.Values.ValuesMap.{store_value, has_option, values_of}
use asap_clap.Commands.{help_name}
use asap_clap.Commands.Printing.{Wrap}
use asap_clap.Parser.Context.{CommandLineContext, new_command_line_context}
use asap_clap.Parser.Loop.{Parsed, parse}
use asap_clap.Parser.Loop.Assignments.{Form, with_equal, with_space, short_form}
use asap_clap.Parser.Loop.Assignments.Run.{all_assigned}
use asap_clap.Parser.Loop.Assignments.Written.{written_by, writable}
use asap_clap.Parser.Loop.Assignments.RoundTrip.{parse-written}
use asap_clap.Parser.States.Defaults.{with_defaults}
use asap_clap.Parser.Errors.{path_as_string}
use asap_clap.Cli.{Cli, arguments, program_name_or_empty}
use asap_clap.Cli.Parsing.{
  after_success, name_from, unified_args, parse_arguments, parse_cli, after_parser, updated,
  returned,
}
use asap_clap.Simple.{simple_main, succeeded, lines_line, simple_main, after_parse}
use asap_clap.Simple.Built.{
  built, built_command, lines, name_by, given, simple_cli-built, built_command-found, lines_found,
  lines_described, lines_read, given-MayOccur, given-AllServed,
}

module _ (fmt : Fmt) (streamed : Any → Text) where
  -- The values that are left: those of `lines`.
  abbrev lines_values : Text → ℤ → List OptionValue
  lines_values text v =
      record { value = int_value (codes "int") v; original_token = text; defaulted = false } ∷ []

  given_left :
      (form : Form) (text : Text) (v : ℤ)
      → with_defaults
          (built_command fmt streamed).options
          (all_assigned (given fmt streamed form text v ∷ []) [])
        ≡ (codes "lines", lines_values text v) ∷ []
  unfolding built lines store_value has_option text_eq
  given_left form text v = refl

  path_of_default : IsFmt fmt → path_as_string fmt (built_command fmt streamed) ≡ codes ""
  unfolding built path_as_string
  path_of_default ok = ok.format_hole _ ∙ ok.join_one _ _

  module _ (engine : Engine) (wrap : Wrap) (ok : IsFmt fmt) (text : Text) (v : ℤ)
      (c : CommandLineContext) (active : c.active_command ≡ some (built_command fmt streamed))
      (left : c.ovm ≡ (codes "lines", lines_values text v) ∷ []) where
    active_found : deref c.active_command ≡ done (built_command fmt streamed)
    active_found = rw active refl

    no_help : has_option help_name c.ovm ≡ false
    unfolding has_option text_eq
    no_help = rw left refl

    lines_left : values_of (codes "lines") c.ovm ≡ done (lines_values text v)
    unfolding values_of text_eq
    lines_left = rw left refl

    after_success-lines : (cli : Cli) → after_success engine fmt wrap cli c ≡ done c
    unfolding after_success text_eq
    after_success-lines cli = rw (active_found, path_of_default ok, no_help) refl

    after_parse-lines :
        c.out ≡ []
        → after_parse engine fmt wrap streamed c
          ≡ done (succeeded (lines_line engine fmt wrap streamed v ∷ []))
    unfolding after_parse text_eq get_as
    after_parse-lines out = rw (active_found, path_of_default ok, no_help, lines_left, out) refl

  abbrev line_of : Form → Text → List Text
  line_of form text = written_by form ((name_by fmt streamed) form) text

  -- The Cli of `main` with a program name is as it was: it has one.
  abbrev known : Text → Cli
  known program = record (built fmt streamed) {
    program_name = name_from program (built fmt streamed).program_name;
  }

  unified-line_of :
      (form : Form) (program text : Text)
      → unified_args (known program) (line_of form text) ≡ line_of form text
  unfolding built unified_args text_eq
  unified-line_of with_equal program text = refl
  unified-line_of with_space program text = refl
  unified-line_of short_form program text = refl

  abbrev begun : CommandLineContext
  begun = new_command_line_context (codes "simple-cli") none []

  begun-known :
      (program : Text)
      → new_command_line_context
          (program_name_or_empty (known program))
          (built fmt streamed).active_command
          (built fmt streamed).ovm
        ≡ begun
  unfolding built
  begun-known program = refl

  no_positional_args : (built_command fmt streamed).positional_args ≡ []
  unfolding built
  no_positional_args = refl

  module _ {engine : Engine} (law : IsEngine engine) (wrap : Wrap) (ok : IsFmt fmt) where
    parse_cli-known :
        (program : Text) (args : List Text) (fuel : ℕ) (r : Parsed)
        → is_empty program ≡ false
        → unified_args (known program) args ≡ args
        → parse engine fmt fuel begun (tokenizer_of args) (built fmt streamed).commands ≡ some r
        → parse_cli engine fmt wrap fuel (built fmt streamed) (program ∷ args)
          ≡ some (after_parser engine fmt wrap (known program) r)
    unfolding parse_cli arguments parse_arguments
    parse_cli-known program args fuel r named same parses =
        rw (parse_cli, arguments, named)
          (rw (parse_arguments, same, begun-known program, parses) refl)

    -- The context that `Cli::Parse` leaves.
    abbrev Leaves : Text → ℤ → CommandLineContext → Type 0
    Leaves text v c =
        (c.active_command ≡ some (built_command fmt streamed))
        × (c.ovm ≡ (codes "lines", lines_values text v) ∷ [])
        × (c.out ≡ [])

    parse_cli-lines :
        (form : Form) (program text : Text) (v : ℤ) (fuel : ℕ)
        → is_empty program ≡ false
        → number_conversion 32 text ≡ some v
        → writable form ((name_by fmt streamed) form) text ≡ true
        → 6 ≤ fuel
        → (c : CommandLineContext) × (cli : Cli) × (parse_cli engine fmt wrap fuel
              (built fmt streamed)
              (program ∷ line_of form text)
            ≡ some (done (returned c cli)))
          × Leaves text v c
    unfolding after_parser
    parse_cli-lines form program text v fuel named reads can_write enough =
        let (c, parses, active, left, err, out) =
          parse-written law fmt (built_command fmt streamed) (built fmt streamed).commands
            (codes "simple-cli") none [] (given fmt streamed form text v) [] fuel
            (built_command-found fmt streamed) no_positional_args
            (
              record {
                found = (lines_found fmt streamed) form;
                described = (lines_described fmt streamed);
                read = (lines_read fmt streamed) text v reads;
              },
              tt,
            )
            (can_write, tt) ((given-MayOccur fmt streamed) form text v)
            ((given-AllServed fmt streamed) form text v) enough in
        let left' = left ∙ given_left form text v in
        let parses' : parse engine fmt fuel begun (tokenizer_of (line_of form text))
              (built fmt streamed).commands
            ≡ some (done (true, c)) =
          ap (λ args. parse engine fmt fuel begun (tokenizer_of args) (built fmt streamed).commands)
            (sym (append-nil (line_of form text)))
          ∙ parses in
        let cli = updated engine fmt wrap c.base (known program) in
        (
          c.base,
          cli,
          parse_cli-known program (line_of form text) fuel (done (true, c)) named
                (unified-line_of form program text) parses'
              ∙ rw (after_success-lines engine wrap ok text v c.base active left' cli) refl,
          (active, left', out),
        )

    -- The example program, under a name that is not empty, with `--lines=text`, `--lines text` or `-n text`, for a text that is read as
    -- an int of 32 bits and can be written that way: `main` returns 0, and it writes one line, with
    -- the number. The engine and fmt are any with the documented behaviour, and six rounds of the
    -- parser are enough.
    pub simple_main-lines :
        (form : Form) (program text : Text) (v : ℤ) (fuel : ℕ)
        → is_empty program ≡ false
        → number_conversion 32 text ≡ some v
        → writable form ((name_by fmt streamed) form) text ≡ true
        → 6 ≤ fuel
        → simple_main engine fmt wrap streamed fuel (program ∷ line_of form text)
          ≡ some (done (succeeded (lines_line engine fmt wrap streamed v ∷ [])))
    unfolding simple_main
    simple_main-lines form program text v fuel named reads can_write enough =
        let (c, cli, parses, leaves) =
          parse_cli-lines form program text v fuel named reads can_write enough in
        rw
          (
            simple_main,
            (simple_cli-built fmt streamed),
            parses,
            after_parse-lines engine wrap ok text v c leaves.0 leaves.1 leaves.2,
          )
          refl
