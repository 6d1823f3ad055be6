-- ===== src/Parser/Loop/Assignments/Unknown.antt =====
-- clap/src/parser/states.h, ParseLongOptionState: a long option that the command does not have.
use asap_clap.Base.{
  ℕ, ◌+◌, ◌*◌, ◌≤◌, true, false, List, [], ◌∷◌, ◌++◌, ◌≡◌, refl, All, length, Option, none, some,
  Text, codes, done, find_if,
}
use asap_clap.Fsm.{Engine, IsEngine}
use asap_clap.Format.{Fmt}
use asap_clap.Tokenizer.{Token, token, long_option, tokenizer_of}
use asap_clap.Tokenizer.Stream.{arg_tokens}
use asap_clap.Values.ValuesMap.{OptionValuesMap}
use asap_clap.Commands.{Command, is_default, find_long_option}
use asap_clap.Parser.Context.{ParserContext, new_command_line_context, new_parser_context}
use asap_clap.Parser.Errors.{unrecognized_option}
use asap_clap.Parser.States.Handlers.{machine, handle, on_leave, on_enter}
use asap_clap.Parser.States.Options.{handle_options}
use asap_clap.Parser.States.ShortOption.{enter_found, with_flag}
use asap_clap.Parser.States.LongOption.{enter_long}
use asap_clap.Parser.Machine.{parse_options_state, Memory}
use asap_clap.Parser.Loop.{react, parse, report}
use asap_clap.Parser.Loop.Tokens.{step, run_tokens}
use asap_clap.Parser.Loop.Assignments.{Assignment, Means, ready, settled}
use asap_clap.Parser.Loop.Assignments.Run.{all_after, all_assigned, MayOccur}
use asap_clap.Parser.Loop.Assignments.Followed.{
  all_after-program_name, first_context, first_memory, parse-followed,
}
use asap_clap.Parser.Loop.Assignments.RoundTrip.{all_after-assigned}
use asap_clap.Parser.Loop.Assignments.Written.{written, AllWritable, is_name}

module _ (fmt : Fmt) (command : Command) where
  -- The context in which the option is looked for, and the one that is left.
  abbrev looking : Text → ParserContext → ParserContext
  looking word c = with_flag (codes "--" ++ word) (ready command c)

  abbrev refused : Text → ParserContext → ParserContext
  refused word c = report fmt (unrecognized_option fmt (looking word c) word none) (looking word c)

  run-unknown :
      (c : ParserContext) (m : Memory) (word : Text) (ts : List Token)
      → find_long_option word command ≡ none
      → run_tokens fmt 1 (token long_option word ∷ ts) parse_options_state (settled command c m)
        ≡ some (done (false, refused word c))
  unfolding run_tokens react step machine handle on_leave on_enter handle_options enter_long
      enter_found
  run-unknown c m word ts f = rw f refl

-- On every engine, a command line that gives options of the default command their values, each as
-- `--name=text`, `--name text` or `-n text`, and then a long option that the command does not have
-- is refused, whatever follows it: one line is written to the error stream, the one that says that the
-- option is not recognized, and nothing to the output stream; the command is the active one, and the
-- values map holds what it held and, behind it, the values of the options before the unknown one. The
-- conditions: a name stands for its option and can be written, as can the text, and the descriptor
-- of the option reads the text as the value; an option that is not repeatable is given once at most; the
-- unknown name is not empty and has no equal sign in it. Four rounds for each option, and two more,
-- are enough.
pub parse-unknown_option :
    {engine : Engine} (law : IsEngine engine) (fmt : Fmt) (command : Command)
    (commands : List Command) (name : Text) (active : Option Command) (ovm : OptionValuesMap)
    (all : List Assignment) (word : Text) (args : List Text) (fuel : ℕ)
    → find_if is_default commands ≡ some command
    → All (Means command) all
    → AllWritable all
    → MayOccur all ovm
    → is_name word ≡ true
    → find_long_option word command ≡ none
    → 4 * length all + 2 ≤ fuel
    → (c : ParserContext) × (parse engine fmt fuel
          (new_command_line_context name active ovm)
          (tokenizer_of (written all ++ (codes "--" ++ word) ∷ args))
          commands
        ≡ some (done (false, c)))
      × (c.active_command ≡ some command)
      × (c.ovm ≡ all_assigned all ovm)
      × (c.err
          ≡ (fmt.format (codes "{}: {}") (name ∷ unrecognized_option fmt c word none ∷ [])
              ++ codes "\n")
            ∷ [])
      × (c.out ≡ [])
unfolding new_command_line_context new_parser_context unrecognized_option
parse-unknown_option law fmt command commands name active ovm all word args fuel default means
      writable may named unknown enough =
    let c = first_context fmt command name active ovm commands default in
    let kept = all_after-assigned all c in
    (
      refused fmt command word (all_after all c),
      parse-followed fmt command name active ovm commands default law all word args fuel _ means
          writable may named
          (run-unknown fmt command (all_after all c)
            (first_memory fmt command name active ovm commands default) word (arg_tokens args)
            unknown)
          enough,
      refl,
      kept.0,
      rw (kept.2, all_after-program_name all c) refl,
      kept.3,
    )
