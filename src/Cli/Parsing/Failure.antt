-- ===== src/Cli/Parsing/Failure.antt =====
-- clap/src/cli.cpp: what `Cli::Parse` has written when it throws CmdLineArgumentsError.
use asap_clap.Base.{
  ℕ, Bool, List, [], ◌∷◌, ◌++◌, ◌≡◌, refl, ap, arith, Option, none, some, Text, codes, Outcome,
  done, fault, Fault, subst, ◌>>=◌, true, false, if◌then◌else◌,
}
use asap_clap.Fsm.{Engine, IsEngine}
use asap_clap.Format.{Fmt}
use asap_clap.Commands.Printing.{Wrap}
use asap_clap.Parser.Context.{CommandLineContext, ParserContext, new_command_line_context}
use asap_clap.Parser.Loop.{Parsed}
use asap_clap.Parser.Loop.Failure.{IsReported, parse_failure}
use asap_clap.Cli.{Cli, arguments, program_name_or_empty}
use asap_clap.Cli.Help.{write_out, try_help}
use asap_clap.Cli.Parsing.{
  CliParsed, unified_args, name_from, parse_arguments, parse_cli, after_parser, after_success,
  after_failure, updated, returned, refused,
}

hinted_by :
    (b : Bool) (hint : Text) (context : CommandLineContext)
    → (before : List Text) × ((if b then write_out hint context else context).out
        ≡ (if b then before ++ hint ∷ [] else before))
hinted_by true hint context = (context.out, refl)
hinted_by false hint context = (context.out, refl)

kept_by :
    (b : Bool) (hint : Text) (context : CommandLineContext)
    → ((if b then write_out hint context else context).err ≡ context.err)
      × ((if b then write_out hint context else context).program_name ≡ context.program_name)
kept_by true hint context = (refl, refl)
kept_by false hint context = (refl, refl)

module _ (fmt : Fmt) (wrap : Wrap) where
  -- The text of the exception, the error line and the hint, for the name of the program.
  pub record IsExplained (why : Text) (context : CommandLineContext) (cli : Cli) : Type 0 where
    pub name : Text
    pub has_name : cli.program_name ≡ some name
    pub text_of :
        why
        ≡ fmt.format
            (codes "command line arguments parsing failed, try '{} --help' for more information.")
            (name ∷ [])
    pub reported :
        (before : List Text) × (line : Text) × (context.err
          ≡ before
            ++ (fmt.format (codes "{}: {}") (context.program_name ∷ line ∷ []) ++ codes "\n") ∷ [])
    pub hinted :
        (before : List Text) × (context.out
          ≡ (if cli.has_help_command then before ++ try_help fmt wrap name ∷ [] else before))

module _ {engine : Engine} (law : IsEngine engine) (fmt : Fmt) (wrap : Wrap) where
  Explains : CliParsed → Type 0
  Explains (done (refused why context cli)) = IsExplained fmt wrap why context cli
  Explains _ = Unit

  after_failure-Explains :
      (cli : Cli) (c : ParserContext) (own : Option Text)
      → cli.program_name ≡ own
      → IsReported fmt c
      → Explains (after_failure engine fmt wrap cli c.base)
  unfolding after_failure Explains
  after_failure-Explains cli c none p h = rw p tt
  after_failure-Explains cli c (some name) p (before, line, h) =
      let hint = try_help fmt wrap name in
      let (same, named) = kept_by cli.has_help_command hint c.base in
      rw p (record {
        name = name;
        has_name = refl;
        text_of = refl;
        reported = (before, line, rw (named, same) h);
        hinted = hinted_by cli.has_help_command hint c.base;
      })

  returned-Explains :
      (o : Outcome CommandLineContext) (cli : Cli)
      → Explains (o >>= λ result. done (returned result cli))
  unfolding Explains
  returned-Explains (done result) cli = tt
  returned-Explains (fault x) cli = tt

  after_parser-Explains :
      (cli : Cli) (r : Parsed)
      → ((c : ParserContext) → r ≡ done (false, c) → IsReported fmt c)
      → Explains (after_parser engine fmt wrap cli r)
  unfolding after_parser Explains
  after_parser-Explains cli (fault x) h = tt
  after_parser-Explains cli (done (true, c)) h =
      returned-Explains (after_success engine fmt wrap (updated engine fmt wrap c.base cli) c.base)
        (updated engine fmt wrap c.base cli)
  after_parser-Explains cli (done (false, c)) h =
      after_failure-Explains (updated engine fmt wrap c.base cli) c cli.program_name refl (h c refl)

  -- A parser that runs out of fuel comes to nothing.
  run-Explains :
      (cli : Cli) (o : Option Parsed) (e : CliParsed)
      → ((c : ParserContext) → o ≡ some (done (false, c)) → IsReported fmt c)
      → (elim o [ none ↦ none | some r ↦ some (after_parser engine fmt wrap cli r) ]) ≡ some e
      → Explains e
  run-Explains cli none e h s = absurd cc
  run-Explains cli (some r) e h s =
      subst Explains (ground arith) (after_parser-Explains cli r (λ c p. h c (ap (λ x. some x) p)))

  fault-Explains : (x : Fault) → Explains (fault x)
  unfolding Explains
  fault-Explains x = tt

  arguments-Explains :
      (fuel : ℕ) (cli : Cli) (a : Outcome (Text × List Text)) (e : CliParsed)
      → (elim a [
        | fault x ↦ some (fault x)
        | done (name, args) ↦ parse_arguments engine fmt wrap fuel cli name args
      ])
        ≡ some e
      → Explains e
  unfolding parse_arguments
  arguments-Explains fuel cli (fault x) e s =
      let same : fault x ≡ e = ground arith in subst Explains same (fault-Explains x)
  arguments-Explains fuel cli (done (name, args)) e s =
      let known = record cli { program_name = name_from name cli.program_name } in
      let base =
        new_command_line_context (program_name_or_empty known) cli.active_command cli.ovm in
      run-Explains known _ e
        (parse_failure fmt law fuel base (unified_args known args) cli.commands) s

  -- When `Cli::Parse` throws CmdLineArgumentsError, the Cli has a program name, and the text of the exception
  -- has it in it; the last piece written to the error stream is an error line, and the last one written to the output
  -- stream is the hint to `--help`, if the help command is enabled.
  pub parse_cli_failure :
      (fuel : ℕ) (cli cli' : Cli) (argv : List Text) (why : Text) (context : CommandLineContext)
      → parse_cli engine fmt wrap fuel cli argv ≡ some (done (refused why context cli'))
      → IsExplained fmt wrap why context cli'
  unfolding parse_cli Explains
  parse_cli_failure fuel cli cli' argv why context e =
      arguments-Explains fuel cli (arguments argv) (done (refused why context cli')) e
