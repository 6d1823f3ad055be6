-- ===== src/Parser/Loop/Assignments/Followed.antt =====
-- clap/src/parser/parser.cpp: `Parse` on options with their values, and then a long option.
use asap_clap.Base.{
  ℕ, suc, ◌+◌, ◌*◌, ◌≤◌, true, List, [], ◌∷◌, ◌++◌, append_assoc, ◌≡◌, refl, ap, ◌∙◌, arith, All,
  length, Option, some, Text, codes, done, find_if,
}
use asap_clap.Fsm.{Engine, IsEngine, reissue_event}
use asap_clap.Format.{Fmt}
use asap_clap.Tokenizer.{Token, token, long_option, tokenizer_of}
use asap_clap.Tokenizer.Stream.{front, arg_tokens}
use asap_clap.Values.ValuesMap.{OptionValuesMap}
use asap_clap.Commands.{Command, is_default}
use asap_clap.Parser.Context.{ParserContext, new_command_line_context}
use asap_clap.Parser.Machine.{initial_state, parse_options_state, Memory}
use asap_clap.Parser.Loop.{Parsed, parse}
use asap_clap.Parser.Loop.Tokens.{step, run_tokens, start, parse-run_tokens}
use asap_clap.Parser.Loop.Fuel.{run_tokens_fuel}
use asap_clap.Parser.Loop.Assignments.{with_space, Assignment, Means, after, settled}
use asap_clap.Parser.Loop.Assignments.Run.{
  tokens_for, rounds_for, rounds_for-bound, all_after, MayOccur, run-tokens_for, run_reissue,
}
use asap_clap.Parser.Loop.Assignments.RoundTrip.{begun, waiting, entered, step-initial_state}
use asap_clap.Parser.Loop.Assignments.Written.{
  written, AllWritable, arg_tokens-written, is_name, arg_tokens-long_option,
}

pub all_after-program_name :
    (all : List Assignment) (c : ParserContext) → (all_after all c).program_name ≡ c.program_name
all_after-program_name [] c = refl
all_after-program_name (a ∷ more) c = all_after-program_name more (after a c)

module _ (fmt : Fmt) (command : Command) where
  module _ (name : Text) (active : Option Command) (ovm : OptionValuesMap) (commands : List Command)
      (default : find_if is_default commands ≡ some command) where
    abbrev pub first_context : ParserContext
    first_context = begun fmt command name active ovm commands default

    abbrev pub first_memory : Memory
    first_memory = entered fmt command name active ovm commands default

    abbrev behind_options : List Assignment → Text → List Token → List Token
    behind_options all word ts = tokens_for all ++ token long_option word ∷ ts

    step-first :
        (all : List Assignment) (word : Text) (ts : List Token)
        → step fmt
            (front (behind_options all word ts))
            initial_state
            (waiting fmt command name active ovm commands default)
          ≡ done (
            reissue_event,
            parse_options_state,
            settled command first_context (entered fmt command name active ovm commands default),
          )
    step-first [] word ts =
        step-initial_state fmt command name active ovm commands default with_space word [] ts
    step-first (a ∷ more) word ts = rw append_assoc (
        step-initial_state fmt command name active ovm commands default a.form a.name a.text
          (tokens_for more ++ token long_option word ∷ ts))

    run-followed :
        (all : List Assignment) (word : Text) (ts : List Token) (end : Parsed)
        → All (Means command) all
        → MayOccur all first_context.ovm
        → run_tokens fmt 1
            (token long_option word ∷ ts)
            parse_options_state
            (settled command (all_after all first_context) first_memory)
          ≡ some end
        → run_tokens fmt
            (suc (rounds_for all 1))
            (behind_options all word ts)
            initial_state
            (waiting fmt command name active ovm commands default)
          ≡ some end
    run-followed all word ts end means may e =
        run_reissue fmt (behind_options all word ts) _ _ _ _ _ (step-first all word ts)
        ∙ run-tokens_for fmt command first_memory all (token long_option word ∷ ts) 1 first_context
            means may refl
        ∙ e

    -- Where the parser ends at the long option, it ends so on the whole command line.
    pub parse-followed :
        {engine : Engine} (law : IsEngine engine) (all : List Assignment) (word : Text)
        (args : List Text) (fuel : ℕ) (end : Parsed)
        → All (Means command) all
        → AllWritable all
        → MayOccur all first_context.ovm
        → is_name word ≡ true
        → run_tokens fmt 1
            (token long_option word ∷ arg_tokens args)
            parse_options_state
            (settled command (all_after all first_context) first_memory)
          ≡ some end
        → 4 * length all + 2 ≤ fuel
        → parse engine fmt fuel
            (new_command_line_context name active ovm)
            (tokenizer_of (written all ++ (codes "--" ++ word) ∷ args))
            commands
          ≡ some end
    parse-followed law all word args fuel end means writable may named e enough =
        let base = new_command_line_context name active ovm in
        parse-run_tokens fmt law fuel base (written all ++ (codes "--" ++ word) ∷ args) commands
        ∙ ap (λ ts. run_tokens fmt fuel ts initial_state (start fmt base commands))
            (arg_tokens-written all ((codes "--" ++ word) ∷ args) writable
              ∙ ap (λ ts. tokens_for all ++ ts) (arg_tokens-long_option word args named))
        ∙ run_tokens_fuel fmt (suc (rounds_for all 1)) fuel
            (tokens_for all ++ token long_option word ∷ arg_tokens args) initial_state
            (start fmt base commands) end (omega (arith, rounds_for-bound all 1, enough))
            (run-followed all word (arg_tokens args) end means may e)
