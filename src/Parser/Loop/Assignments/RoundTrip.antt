-- ===== src/Parser/Loop/Assignments/RoundTrip.antt =====
-- clap/src/parser/parser.cpp: `Parse` on a command line that gives options of the default command their values.
use asap_clap.Base.{
  ℕ, suc, ◌+◌, ◌*◌, ◌≤◌, true, List, [], ◌∷◌, ◌++◌, append-nil, ◌≡◌, refl, sym, ap, ◌∙◌, arith, All,
  length, Option, none, some, Text, is_empty, done, find_if,
}
use asap_clap.Fsm.{Engine, IsEngine, terminate, reissue_event}
use asap_clap.Format.{Fmt}
use asap_clap.Tokenizer.{Token, tokenizer_of}
use asap_clap.Tokenizer.Stream.{front}
use asap_clap.Values.ValuesMap.{OptionValuesMap}
use asap_clap.Commands.{Command, is_default}
use asap_clap.Parser.Context.{new_command_line_context, ParserContext, new_parser_context}
use asap_clap.Parser.States.Initial.{initial_context, handle_initial}
use asap_clap.Parser.States.Handlers.{machine, handle, on_leave, on_enter}
use asap_clap.Parser.States.Options.{enter_options, handle_options}
use asap_clap.Parser.States.Final.{
  enter_final, place, finish, validate, validated, check_required_options,
}
use asap_clap.Parser.States.Defaults.{
  AllServed, with_defaults, with_values, check_required_options-with_defaults,
}
use asap_clap.Parser.Machine.{initial_state, parse_options_state, Memory}
use asap_clap.Parser.Loop.{react, parse}
use asap_clap.Parser.Loop.Tokens.{step, run_tokens, start, parse-run_tokens}
use asap_clap.Parser.Loop.Fuel.{run_tokens_fuel}
use asap_clap.Parser.Loop.Assignments.{
  Form, with_equal, with_space, short_form, Assignment, Means, after, ready, settled,
}
use asap_clap.Parser.Loop.Assignments.Run.{
  tokens_by, tokens_for, rounds_for, rounds_for-bound, all_after, all_assigned, MayOccur,
  run-tokens_for, run_reissue,
}
use asap_clap.Parser.Loop.Assignments.Written.{written, AllWritable, arg_tokens-all_written}

pub all_after-assigned :
    (all : List Assignment) (c : ParserContext)
    → ((all_after all c).ovm ≡ all_assigned all c.ovm)
      × ((all_after all c).positional_tokens ≡ c.positional_tokens)
      × ((all_after all c).err ≡ c.err)
      × ((all_after all c).out ≡ c.out)
all_after-assigned [] c = (refl, refl, refl, refl)
all_after-assigned (a ∷ more) c = all_after-assigned more (after a c)

module _ (fmt : Fmt) (command : Command) where
  place-none :
      (c : ParserContext)
      → command.positional_args ≡ []
      → place command.positional_args true none c ≡ done (none, c)
  unfolding place
  place-none c p = rw p refl

  check_required_options-none :
      (c : ParserContext)
      → command.positional_args ≡ []
      → check_required_options fmt command.positional_args c ≡ done (none, c)
  unfolding check_required_options
  check_required_options-none c p = rw p refl

  -- FinalState, for a command without positional options.
  enter_final-with_defaults :
      (c : ParserContext) (m : Memory)
      → command.positional_args ≡ []
      → c.positional_tokens ≡ []
      → AllServed c.ovm command.options
      → enter_final fmt (settled command c m)
        ≡ done (terminate, settled command (with_values (with_defaults command.options c.ovm) c) m)
  unfolding enter_final place finish validate validated check_required_options
  enter_final-with_defaults c m p t s =
      rw
        (
          place-none (ready command c) p,
          ap is_empty t,
          check_required_options-with_defaults fmt command.options (ready command c) s,
          check_required_options-none
              (with_values (with_defaults command.options c.ovm) (ready command c)) p,
        )
        refl

  -- The end of the input behind the options.
  run-end :
      (c : ParserContext) (m : Memory)
      → command.positional_args ≡ []
      → c.positional_tokens ≡ []
      → AllServed c.ovm command.options
      → run_tokens fmt 1 [] parse_options_state (settled command c m)
        ≡ some (done (true, ready command (with_values (with_defaults command.options c.ovm) c)))
  unfolding run_tokens react step machine handle on_leave on_enter handle_options
  run-end c m p t s = rw (enter_final-with_defaults c m p t s) refl

  module _ (name : Text) (active : Option Command) (ovm : OptionValuesMap) (commands : List Command)
      (default : find_if is_default commands ≡ some command) where
    abbrev pub begun : ParserContext
    begun = new_parser_context (new_command_line_context name active ovm) commands

    abbrev pub waiting : Memory
    waiting = start fmt (new_command_line_context name active ovm) commands

    abbrev pub entered : Memory
    entered = record waiting { options_has_context = true }

    -- The first option: the initial state hands it to ParseOptionsState.
    pub step-initial_state :
        (form : Form) (word text : Text) (ts : List Token)
        → step fmt (front (tokens_by form word text ++ ts)) initial_state waiting
          ≡ done (reissue_event, parse_options_state, settled command begun entered)
    unfolding step machine handle on_leave on_enter handle_initial enter_options initial_context
        new_command_line_context new_parser_context
    step-initial_state with_equal word text ts = rw default refl
    step-initial_state with_space word text ts = rw default refl
    step-initial_state short_form word text ts = rw default refl

    -- The context that `Parse` leaves.
    abbrev parsed_context : List Assignment → ParserContext
    parsed_context all =
        let c = all_after all begun in
        ready command (with_values (with_defaults command.options c.ovm) c)

    served_after :
        (all : List Assignment)
        → AllServed (all_assigned all ovm) command.options
        → AllServed (all_after all begun).ovm command.options
    unfolding new_command_line_context new_parser_context
    served_after all h = rw (all_after-assigned all begun).0 h

    no_positional_tokens : (all : List Assignment) → (all_after all begun).positional_tokens ≡ []
    unfolding new_command_line_context new_parser_context
    no_positional_tokens all = (all_after-assigned all begun).1

    run-written :
        (a : Assignment) (more : List Assignment)
        → command.positional_args ≡ []
        → All (Means command) (a ∷ more)
        → MayOccur (a ∷ more) begun.ovm
        → AllServed (all_assigned (a ∷ more) ovm) command.options
        → run_tokens fmt
            (suc (rounds_for (a ∷ more) 1))
            (tokens_for (a ∷ more))
            initial_state
            waiting
          ≡ some (done (true, parsed_context (a ∷ more)))
    run-written a more p means may served =
        run_reissue fmt (tokens_for (a ∷ more)) _ _ _ _ _
          (step-initial_state a.form a.name a.text (tokens_for more))
        ∙ ap
            (λ ts.
              run_tokens fmt (rounds_for (a ∷ more) 1) ts parse_options_state
                (settled command begun entered))
            (sym (append-nil (tokens_for (a ∷ more))))
        ∙ run-tokens_for fmt command entered (a ∷ more) [] 1 begun means may refl
        ∙ run-end (all_after (a ∷ more) begun) entered p (no_positional_tokens (a ∷ more))
            (served_after (a ∷ more) served)

-- Round trip of options with their values. On every engine, a command line that gives options of the
-- default command their values, each as `--name=text`, `--name text` or `-n text`, is parsed without
-- an error: the command becomes the active one, and the values map then holds what it held, with
-- behind it the value that each text stands for, in the order of the command line, and with the
-- default value of each option that has no value; nothing is written to a stream. The conditions: a name stands for its option and
-- can be written, as can the text, and the descriptor of the option reads the text as the value; an
-- option that is not repeatable is given once at most; the command has no positional options, and every option
-- that has no value then has a descriptor, with a default value if the option is required. Four rounds for each option, and
-- two more, are enough.
pub parse-written :
    {engine : Engine} (law : IsEngine engine) (fmt : Fmt) (command : Command)
    (commands : List Command) (name : Text) (active : Option Command) (ovm : OptionValuesMap)
    (a : Assignment) (more : List Assignment) (fuel : ℕ)
    → find_if is_default commands ≡ some command
    → command.positional_args ≡ []
    → All (Means command) (a ∷ more)
    → AllWritable (a ∷ more)
    → MayOccur (a ∷ more) ovm
    → AllServed (all_assigned (a ∷ more) ovm) command.options
    → 4 * length (a ∷ more) + 2 ≤ fuel
    → (c : ParserContext) × (parse engine fmt fuel
          (new_command_line_context name active ovm)
          (tokenizer_of (written (a ∷ more)))
          commands
        ≡ some (done (true, c)))
      × (c.active_command ≡ some command)
      × (c.ovm ≡ with_defaults command.options (all_assigned (a ∷ more) ovm))
      × (c.err ≡ [])
      × (c.out ≡ [])
unfolding new_command_line_context new_parser_context
parse-written law fmt command commands name active ovm a more fuel default plain means writable may
      served enough =
    let all = a ∷ more in
    let base = new_command_line_context name active ovm in
    (
      parsed_context fmt command name active ovm commands default all,
      parse-run_tokens fmt law fuel base (written all) commands
          ∙ ap (λ ts. run_tokens fmt fuel ts initial_state (start fmt base commands))
              (arg_tokens-all_written all writable)
          ∙ run_tokens_fuel fmt (suc (rounds_for all 1)) fuel (tokens_for all) initial_state
              (start fmt base commands) _ (omega (arith, rounds_for-bound all 1, enough))
              (run-written fmt command name active ovm commands default a more plain means may
                served),
      refl,
      ap (λ o. with_defaults command.options o)
          (all_after-assigned all (new_parser_context base commands)).0,
      (all_after-assigned all (new_parser_context base commands)).2,
      (all_after-assigned all (new_parser_context base commands)).3,
    )
