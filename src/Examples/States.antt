-- ===== src/Examples/States.antt =====
-- The states of the parser at concrete memories.
use asap_clap.Base.{
  ◌≡◌, refl, true, List, [], ◌∷◌, some, none, Text, codes, done, fault, undefined_behaviour, arith,
  text_eq,
}
use asap_clap.Fsm.Reference.{reference-IsEngine}
use asap_clap.Format.{plain_fmt}
use asap_clap.Values.ParseValue.{text}
use asap_clap.Commands.{ClapOption, new_option, key_rest, Command}
use asap_clap.Parser.Loop.Failure.{IsReported, parse_failure}
use asap_clap.Parser.Context.{new_parser_context, set_active_command}
use asap_clap.Parser.States.Final.{enter_final, place, with_tokens}
use asap_clap.Parser.States.Missing.{IsPlain, enter_final-missing}
use asap_clap.Parser.States.Positionals.{IsRest, given_all, place-rest}
use asap_clap.Values.Descriptor.{new_descriptor}
use asap_clap.Parser.Machine.{Memory, new_memory}
use asap_clap.Examples.{default_command, file_command, base, run, left, file_option}

abbrev commands : List Command
commands = default_command ∷ []

-- The active command has one positional argument, and no token is there for it.
abbrev no_token : Memory
no_token = new_memory (set_active_command file_command (new_parser_context base commands))

file_option-IsPlain : IsPlain file_option
unfolding text_eq
file_option-IsPlain = record { positional = refl; not_rest = refl; described = (_, refl) }

enter_final-missing_example : enter_final plain_fmt no_token ≡ fault undefined_behaviour
unfolding new_parser_context
enter_final-missing_example =
    enter_final-missing plain_fmt no_token file_command refl (file_option-IsPlain, tt) (omega arith)

-- `FILE REST... LAST`
abbrev rest_option : ClapOption
rest_option = record (new_option key_rest) { value_semantic = some (new_descriptor text) }

abbrev last_option : ClapOption
last_option = record (new_option (codes "last")) { value_semantic = some (new_descriptor text) }

last_option-IsPlain : IsPlain last_option
unfolding text_eq
last_option-IsPlain = record { positional = refl; not_rest = refl; described = (_, refl) }

rest_option-IsRest : IsRest rest_option
unfolding text_eq
rest_option-IsRest = record { positional = refl; rest = refl }

place-rest_example :
    place
      (file_option ∷ rest_option ∷ last_option ∷ [])
      true
      none
      (with_tokens (codes "a" ∷ codes "b" ∷ codes "c" ∷ codes "d" ∷ []) no_token.context)
    ≡ done (
      some rest_option,
      with_tokens (codes "b" ∷ codes "c" ∷ []) (
          given_all
            (last_option ∷ [])
            (codes "d" ∷ [])
            (given_all (file_option ∷ []) (codes "a" ∷ []) no_token.context)),
    )
place-rest_example =
    place-rest (file_option ∷ []) (last_option ∷ []) rest_option (codes "a" ∷ [])
      (codes "b" ∷ codes "c" ∷ []) (codes "d" ∷ []) no_token.context (file_option-IsPlain, tt)
      rest_option-IsRest (last_option-IsPlain, tt) refl refl

abbrev level_only : List Text
level_only = codes "-l" ∷ codes "3" ∷ []

parse_failure_example : IsReported plain_fmt (left (run level_only commands))
unfolding run
parse_failure_example =
    parse_failure plain_fmt reference-IsEngine 20 base level_only commands
      (left (run level_only commands)) refl
