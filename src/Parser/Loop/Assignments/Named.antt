-- ===== src/Parser/Loop/Assignments/Named.antt =====
-- clap/src/parser/parser.cpp: `Parse` on a command line that names a command, and gives its options values.
use asap_clap.Base.{
  ℕ, suc, ◌+◌, ◌*◌, ◌≤◌, true, List, [], ◌∷◌, ◌++◌, append-nil, append_assoc, ◌≡◌, refl, sym, ap,
  ◌∙◌, subst, arith, All, Memᴰ, length, Option, none, some, Text, done, find_if,
}
use asap_clap.Fsm.{Engine, IsEngine}
use asap_clap.Format.{Fmt}
use asap_clap.Tokenizer.{Token, tokenizer_of}
use asap_clap.Tokenizer.Stream.{arg_tokens}
use asap_clap.Values.ValuesMap.{OptionValuesMap}
use asap_clap.Commands.{Command, is_default}
use asap_clap.Parser.Context.{
  CommandLineContext, new_command_line_context, ParserContext, new_parser_context,
}
use asap_clap.Parser.States.Initial.{initial_context}
use asap_clap.Parser.States.Path.{IsOnly}
use asap_clap.Parser.States.Defaults.{AllServed, with_defaults}
use asap_clap.Parser.Machine.{initial_state, parse_options_state, new_memory}
use asap_clap.Parser.Loop.{parse}
use asap_clap.Parser.Loop.Tokens.{run_tokens, start, parse-run_tokens}
use asap_clap.Parser.Loop.Fuel.{run_tokens_fuel}
use asap_clap.Parser.Loop.Assignments.{Assignment, Means, settled}
use asap_clap.Parser.Loop.Assignments.Run.{
  tokens_by, tokens_for, rounds_for, rounds_for-bound, all_after, all_assigned, MayOccur,
  run-tokens_for,
}
use asap_clap.Parser.Loop.Assignments.RoundTrip.{all_after-assigned}
use asap_clap.Parser.Loop.Assignments.Written.{is_value, written, AllWritable, arg_tokens-written}
use asap_clap.Parser.States.Final.{with_tokens}
use asap_clap.Parser.Loop.Assignments.Placed.{
  Placement, Takes, options_of, texts_of, all_placed, opens-texts, finished, finished-all_placed,
  run-placed,
}
use asap_clap.Parser.Loop.Assignments.Path.{
  path_tokens, path_rounds, path_rounds-length, arg_tokens-path, run-to_option,
}

-- What InitialState leaves alone, with a default command or without one.
pub record IsBegun (base : CommandLineContext) (commands : List Command) (c : ParserContext)
    : Type 0 where
  pub same_commands : c.commands ≡ commands
  pub same_ovm : c.ovm ≡ base.ovm
  pub no_tokens : c.positional_tokens ≡ []
  pub same_err : c.err ≡ base.err
  pub same_out : c.out ≡ base.out
  pub same_allow :
      c.allow_long_option_value_with_no_equal ≡ base.allow_long_option_value_with_no_equal

begun_by :
    (base : CommandLineContext) (commands : List Command) (o : Option Command)
    → find_if is_default commands ≡ o
    → IsBegun base commands (initial_context (new_parser_context base commands))
unfolding initial_context new_parser_context
begun_by base commands none e = rw e (record {
  same_commands = refl;
  same_ovm = refl;
  no_tokens = refl;
  same_err = refl;
  same_out = refl;
  same_allow = refl;
})
begun_by base commands (some c) e = rw e (record {
  same_commands = refl;
  same_ovm = refl;
  no_tokens = refl;
  same_err = refl;
  same_out = refl;
  same_allow = refl;
})

pub arg_tokens-texts :
    (ts : List Text) → All (λ s. is_value b'-' s ≡ true) ts → arg_tokens ts ≡ path_tokens ts []
arg_tokens-texts ts h = ap arg_tokens (sym (append-nil ts)) ∙ arg_tokens-path ts [] h

module _ (fmt : Fmt) (command : Command) (base : CommandLineContext) (commands : List Command) where
  abbrev pub first_context : ParserContext
  first_context = initial_context (new_parser_context base commands)

  pub begun : IsBegun base commands first_context
  begun = begun_by base commands (find_if is_default commands) refl

  -- The context in which the positional arguments are, and the one that `Parse` leaves.
  abbrev last_context : List Assignment → List Placement → ParserContext
  last_context all ps = with_tokens (texts_of ps) (all_after all first_context)

  abbrev parsed_context : List Assignment → List Placement → ParserContext
  parsed_context all ps = finished fmt command (new_memory first_context) ps (last_context all ps)

  module _ (a : Assignment) (more : List Assignment) (ps : List Placement) where
    abbrev all : List Assignment
    all = a ∷ more

    -- The tokens of the positional arguments.
    abbrev placed_tokens : List Token
    placed_tokens = path_tokens (texts_of ps) []

    assigned_first : (all_after all first_context).ovm ≡ all_assigned all base.ovm
    assigned_first = (all_after-assigned all first_context).0 ∙ ap (all_assigned all) begun.same_ovm

    run-named :
        (segment : Text) (path : List Text)
        → command.path ≡ segment ∷ path
        → Memᴰ command commands
        → All (IsOnly command) commands
        → command.positional_args ≡ options_of ps
        → base.allow_long_option_value_with_no_equal ≡ true
        → All (Means command) all
        → MayOccur all base.ovm
        → All Takes ps
        → AllServed (all_placed ps (all_assigned all base.ovm)) command.options
        → AllServed
            (with_defaults command.options (all_placed ps (all_assigned all base.ovm)))
            command.positional_args
        → run_tokens fmt
            (path_rounds command.path (suc (rounds_for all (path_rounds (texts_of ps) 1))))
            (path_tokens command.path (tokens_for all ++ placed_tokens))
            initial_state
            (start fmt base commands)
          ≡ some (done (true, parsed_context all ps))
    run-named segment path p there only q allow means may takes served served' =
        let m = new_memory first_context in
        let rounds = path_rounds (texts_of ps) 1 in
        ap
          (λ ts.
            run_tokens fmt (path_rounds command.path (suc (rounds_for all rounds)))
              (path_tokens command.path ts) initial_state (start fmt base commands))
          (append_assoc (tokens_by a.form a.name a.text) (tokens_for more) placed_tokens)
        ∙ run-to_option fmt command first_context
            (subst (Memᴰ command) (sym begun.same_commands) there)
            (subst (All (IsOnly command)) (sym begun.same_commands) only) segment path p a.form
            a.name a.text (tokens_for more ++ placed_tokens) (rounds_for all rounds)
            (begun.same_allow ∙ allow)
        ∙ ap
            (λ ts.
              run_tokens fmt (rounds_for all rounds) ts parse_options_state
                (settled command first_context m))
            (sym (append_assoc (tokens_by a.form a.name a.text) (tokens_for more) placed_tokens))
        ∙ run-tokens_for fmt command m all placed_tokens rounds first_context means
            (subst (MayOccur all) (sym begun.same_ovm) may) (opens-texts (texts_of ps))
        ∙ run-placed fmt command m ps (all_after all first_context) q
            ((all_after-assigned all first_context).1 ∙ begun.no_tokens) takes
            (subst (λ o. AllServed (all_placed ps o) command.options) (sym assigned_first) served)
            (subst
              (λ o.
                AllServed (with_defaults command.options (all_placed ps o)) command.positional_args)
              (sym assigned_first) served')

-- Round trip of a named command. On every engine, a command line with the path of a command and, behind it,
-- options of this command with their values, each as `--name=text`, `--name text` or `-n text`, and then a value for each of its
-- positional options, is parsed without an error:
-- the command becomes the active one, whatever other commands there are and whether there is a default one, and the values map
-- then holds what it held, with behind it the value that each text stands for, in the order of the command line, and with the default value of each
-- option that has no value; nothing is written to a stream. The conditions: the command is one of the commands, its path has a segment, and no other command has
-- the path; a segment is not empty and begins with no dash, and so is the text of a positional option; a name stands for its option and can be written, as can the text, and the
-- descriptor of the option reads the text as the value, as that of a positional option reads its text; an option that is not repeatable is given once at most; no
-- positional option is the one for the rest; and every option that has no value then has a descriptor, with a default value if the option is
-- required. One round for each segment and each positional option, four for each option, and two more, are enough.
pub parse-named :
    {engine : Engine} (law : IsEngine engine) (fmt : Fmt) (command : Command)
    (commands : List Command) (name : Text) (active : Option Command) (ovm : OptionValuesMap)
    (segment : Text) (path : List Text) (a : Assignment) (more : List Assignment)
    (ps : List Placement) (fuel : ℕ)
    → command.path ≡ segment ∷ path
    → Memᴰ command commands
    → All (IsOnly command) commands
    → All (λ s. is_value b'-' s ≡ true) command.path
    → command.positional_args ≡ options_of ps
    → All (Means command) (a ∷ more)
    → AllWritable (a ∷ more)
    → MayOccur (a ∷ more) ovm
    → All Takes ps
    → All (λ s. is_value b'-' s ≡ true) (texts_of ps)
    → AllServed (all_placed ps (all_assigned (a ∷ more) ovm)) command.options
    → AllServed
        (with_defaults command.options (all_placed ps (all_assigned (a ∷ more) ovm)))
        command.positional_args
    → length command.path + 4 * length (a ∷ more) + length (texts_of ps) + 2 ≤ fuel
    → (c : ParserContext) × (parse engine fmt fuel
          (new_command_line_context name active ovm)
          (tokenizer_of (command.path ++ (written (a ∷ more) ++ texts_of ps)))
          commands
        ≡ some (done (true, c)))
      × (c.active_command ≡ some command)
      × (c.ovm
          ≡ with_defaults command.positional_args
              (with_defaults command.options (all_placed ps (all_assigned (a ∷ more) ovm))))
      × (c.err ≡ [])
      × (c.out ≡ [])
unfolding new_command_line_context
parse-named law fmt command commands name active ovm segment path a more ps fuel p there only words
      q means writable may takes texts served served' enough =
    let all = a ∷ more in
    let base = new_command_line_context name active ovm in
    let first = first_context fmt command base commands in
    let b = begun fmt command base commands in
    let kept = all_after-assigned all first in
    let placed = path_rounds (texts_of ps) 1 in
    let done' =
      finished-all_placed fmt command (new_memory first) ps
        (last_context fmt command base commands all ps) in
    let count = path_rounds-length command.path (suc (rounds_for all placed)) in
    let count' = path_rounds-length (texts_of ps) 1 in
    (
      parsed_context fmt command base commands all ps,
      parse-run_tokens fmt law fuel base (command.path ++ (written all ++ texts_of ps)) commands
          ∙ ap (λ ts. run_tokens fmt fuel ts initial_state (start fmt base commands))
              (arg_tokens-path command.path (written all ++ texts_of ps) words
                ∙ ap (path_tokens command.path) (
                    arg_tokens-written all (texts_of ps) writable
                    ∙ ap (λ ts. tokens_for all ++ ts) (arg_tokens-texts (texts_of ps) texts)))
          ∙ run_tokens_fuel fmt (path_rounds command.path (suc (rounds_for all placed))) fuel
              (path_tokens command.path (tokens_for all ++ path_tokens (texts_of ps) []))
              initial_state (start fmt base commands) _
              (omega (arith, rounds_for-bound all placed, count, count', enough))
              (run-named fmt command base commands a more ps segment path p there only q refl means
                may takes served served'),
      done'.0,
      done'.1
          ∙ ap
              (λ o.
                with_defaults command.positional_args
                  (with_defaults command.options (all_placed ps o)))
              (assigned_first fmt command base commands a more ps),
      done'.2 ∙ kept.2 ∙ b.same_err,
      done'.3 ∙ kept.3 ∙ b.same_out,
    )
