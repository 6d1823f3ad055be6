-- ===== src/Parser/Loop/Assignments/Repeated.antt =====
-- clap/src/parser/states.h, ParseLongOptionState: an option that is given once more.
use asap_clap.Base.{
  ℕ, suc, ◌+◌, ◌*◌, ◌≤◌, true, false, List, [], ◌∷◌, ◌++◌, ◌≡◌, refl, arith, All, length, Option,
  none, some, Text, codes, done, find_if, ltb,
}
use asap_clap.Fsm.{Engine, IsEngine}
use asap_clap.Format.{Fmt}
use asap_clap.Tokenizer.{Token, token, long_option, tokenizer_of}
use asap_clap.Tokenizer.Stream.{arg_tokens}
use asap_clap.Values.{OptionValue}
use asap_clap.Values.Descriptor.{ValueDescriptor}
use asap_clap.Values.ValuesMap.{OptionValuesMap, find, occurrences_of, values_of}
use asap_clap.Commands.{ClapOption, Command, is_default, find_long_option}
use asap_clap.Parser.Context.{ParserContext, new_command_line_context, new_parser_context}
use asap_clap.Parser.Errors.{illegal_multiple_occurrence, command_diagnostic}
use asap_clap.Parser.States.Handlers.{machine, handle, on_leave, on_enter}
use asap_clap.Parser.States.Options.{handle_options, check_multiple_occurrence}
use asap_clap.Parser.States.ShortOption.{enter_found, with_flag, with_option_active}
use asap_clap.Parser.States.LongOption.{enter_long}
use asap_clap.Parser.Machine.{parse_options_state, Memory}
use asap_clap.Parser.Loop.{react, parse, report}
use asap_clap.Parser.Loop.Tokens.{step, run_tokens}
use asap_clap.Parser.Loop.Assignments.{Assignment, Means, ready, settled}
use asap_clap.Parser.Loop.Assignments.Run.{all_after, all_assigned, MayOccur}
use asap_clap.Parser.Loop.Assignments.Followed.{
  all_after-program_name, first_context, first_memory, parse-followed,
}
use asap_clap.Parser.Loop.Assignments.RoundTrip.{all_after-assigned}
use asap_clap.Parser.Loop.Assignments.Written.{written, AllWritable, is_name}

-- The context in which the second occurrence is found.
abbrev naming_again : Command → Text → ClapOption → ParserContext → ParserContext
naming_again command word option c =
    with_option_active option (with_flag (codes "--" ++ word) (ready command c))

ltb-suc : (n : ℕ) → ltb (suc n) 1 ≡ false
ltb-suc n = ground arith

ltb-zero : (n : ℕ) → ltb 0 (suc n) ≡ true
ltb-zero n = ground arith

check_multiple_occurrence-again :
    (c : ParserContext) (option : ClapOption) (semantics : ValueDescriptor) (before : OptionValue)
    (others : List OptionValue)
    → c.active_option ≡ some option
    → option.value_semantic ≡ some semantics
    → semantics.repeatable ≡ false
    → find option.key c.ovm ≡ some (before ∷ others)
    → check_multiple_occurrence c ≡ done false
unfolding check_multiple_occurrence occurrences_of
check_multiple_occurrence-again c option semantics before others a d once found =
    rw (a, found, ltb-suc (length others), d, once) refl

module _ (fmt : Fmt) where
  -- The text on an option that is given once more, in the words of the error.
  abbrev pub illegal_again : Command → Text → ClapOption → OptionValue → Text
  illegal_again command word option before =
      fmt.format
        (codes
          "{} new occurrence for option '{}' as '{}' is illegal; it can only be used one time and it appeared before with value '{}'")
        (command_diagnostic fmt (some command)
          ∷ option.key
          ∷ (codes "--" ++ word)
          ∷ before.original_token
          ∷ [])
      ++ codes "."

  illegal_multiple_occurrence-again :
      (command : Command) (word : Text) (c : ParserContext) (option : ClapOption)
      (before : OptionValue) (others : List OptionValue)
      → find option.key c.ovm ≡ some (before ∷ others)
      → illegal_multiple_occurrence fmt (naming_again command word option c) none
        ≡ done (illegal_again command word option before)
  unfolding illegal_multiple_occurrence occurrences_of values_of
  illegal_multiple_occurrence-again command word c option before others found =
      rw (found, ltb-zero (length others)) refl

  run-again :
      (command : Command) (c : ParserContext) (m : Memory) (word why : Text) (ts : List Token)
      (option : ClapOption)
      → find_long_option word command ≡ some option
      → check_multiple_occurrence (naming_again command word option c) ≡ done false
      → illegal_multiple_occurrence fmt (naming_again command word option c) none ≡ done why
      → run_tokens fmt 1 (token long_option word ∷ ts) parse_options_state (settled command c m)
        ≡ some (done (false, report fmt why (naming_again command word option c)))
  unfolding run_tokens react step machine handle on_leave on_enter handle_options enter_long
      enter_found
  run-again command c m word why ts option f again e = rw (f, again, e) refl

-- On every engine, a command line that gives options of the default command their values, each as
-- `--name=text`, `--name text` or `-n text`, and then by its long name an option that has a value
-- already and is not repeatable is refused, whatever follows it: one line is written to the error
-- stream, the one that names the option as it was given and the token of its first value, and nothing to the output
-- stream; the option is the active one, and the values map holds what it held and, behind it, the
-- values of the options before. The conditions: a name stands for its option and can be written,
-- as can the text, and the descriptor of the option reads the text as the value; an option that is
-- not repeatable is given once at most before; the name of the option is not empty and has no equal sign
-- in it. Four rounds for each option, and two more, are enough.
pub parse-repeated_option :
    {engine : Engine} (law : IsEngine engine) (fmt : Fmt) (command : Command)
    (commands : List Command) (name : Text) (active : Option Command) (ovm : OptionValuesMap)
    (all : List Assignment) (word : Text) (option : ClapOption) (semantics : ValueDescriptor)
    (before : OptionValue) (others : List OptionValue) (args : List Text) (fuel : ℕ)
    → find_if is_default commands ≡ some command
    → All (Means command) all
    → AllWritable all
    → MayOccur all ovm
    → is_name word ≡ true
    → find_long_option word command ≡ some option
    → option.value_semantic ≡ some semantics
    → semantics.repeatable ≡ false
    → find option.key (all_assigned all ovm) ≡ some (before ∷ others)
    → 4 * length all + 2 ≤ fuel
    → (c : ParserContext) × (parse engine fmt fuel
          (new_command_line_context name active ovm)
          (tokenizer_of (written all ++ (codes "--" ++ word) ∷ args))
          commands
        ≡ some (done (false, c)))
      × (c.active_command ≡ some command)
      × (c.active_option ≡ some option)
      × (c.ovm ≡ all_assigned all ovm)
      × (c.err
          ≡ (fmt.format (codes "{}: {}") (name ∷ illegal_again fmt command word option before ∷ [])
              ++ codes "\n")
            ∷ [])
      × (c.out ≡ [])
unfolding new_command_line_context new_parser_context
parse-repeated_option law fmt command commands name active ovm all word option semantics before
      others args fuel default means writable may named known described once found enough =
    let c = first_context fmt command name active ovm commands default in
    let kept = all_after-assigned all c in
    let left = naming_again command word option (all_after all c) in
    let found' : find option.key left.ovm ≡ some (before ∷ others) = rw kept.0 found in
    let e =
      illegal_multiple_occurrence-again fmt command word (all_after all c) option before others
        found' in
    let why = illegal_again fmt command word option before in
    let again =
      check_multiple_occurrence-again left option semantics before others refl described once
        found' in
    (
      report fmt why left,
      parse-followed fmt command name active ovm commands default law all word args fuel _ means
          writable may named
          (run-again fmt command (all_after all c)
            (first_memory fmt command name active ovm commands default) word why (arg_tokens args)
            option known again e)
          enough,
      refl,
      refl,
      kept.0,
      rw (kept.2, all_after-program_name all c) refl,
      kept.3,
    )
