-- ===== src/Examples/Witnesses.antt =====
-- Each theorem at concrete data: the arguments, commands and texts below meet its hypotheses.
use asap_clap.Base.{
  ◌≡◌, ◌↔◌, ◌⊎◌, ◌<◌, ◌^◌, refl, true, false, List, [], ◌∷◌, ◌++◌, some, Text, codes, done, fault,
  exception, All, contract_violation, negsuc, arith, length, if◌then◌else◌, text_eq,
}
use asap_clap.Fsm.Reference.{reference, reference-IsEngine}
use asap_clap.Format.{plain_fmt}
use asap_clap.Tokenizer.{
  Token, token, dash_dash, value, Tokenizer, tokenizer_of, tokenize, next_token,
}
use asap_clap.Tokenizer.Grammar.{tokens_of, tokenize-tokens_of}
use asap_clap.Tokenizer.Stream.{
  arg_tokens, pending, front, rest, WellShaped, next_token-pending, tokenize-WellShaped,
}
use asap_clap.Values.{OptionValue, text_value}
use asap_clap.Values.Numbers.{number, stoll, stoull}
use asap_clap.Values.ParseValue.{
  number_conversion, unsigned_number_conversion, starts_with_minus, parse_flag, to_lower,
}
use asap_clap.Values.ParseValue.Range.{
  InRange, number_conversion_iff, unsigned_number_conversion_iff,
}
use asap_clap.Values.ParseValue.Flags.{parse_flag-to_lower}
use asap_clap.Values.ValuesMap.{find, store_value, added, find-store_value}
use asap_clap.Commands.{Command, new_command, help_long, help_short, help_name}
use asap_clap.Commands.Printing.{print_ungrouped, print_all}
use asap_clap.Parser.Loop.{Parsed, parse}
use asap_clap.Parser.Loop.Tokens.{run_tokens, start, parse-run_tokens}
use asap_clap.Parser.Loop.Total.{parse_total}
use asap_clap.Parser.Loop.Success.{IsComplete, parse_success}
use asap_clap.Parser.Loop.DashDash.{run_tokens-dash_dash}
use asap_clap.Parser.Loop.EmptyArgument.{parse-empty_arg}
use asap_clap.Parser.Machine.{initial_state, parse_options_state}
use asap_clap.Builders.Wellformed.{
  Call, option_call, about_call, calls, lone_options, calls-print_ungrouped,
}
use asap_clap.Cli.{Cli, new_cli}
use asap_clap.Cli.Builder.{build}
use asap_clap.Cli.Builder.Outcomes.{AllUpgraded, build_upgrades, build_throws}
use asap_clap.Cli.Parsing.{CliParsed, unified_args, parse_cli}
use asap_clap.Cli.Parsing.Total.{parse_cli_total}
use asap_clap.Cli.Parsing.Success.{IsReady, parse_cli_success}
use asap_clap.Cli.Parsing.HelpFlag.{parse_cli-help}
use asap_clap.Examples.{
  name_option, level_option, default_command, base, cli, no_wrap, run, run_cli, left, left_cli,
  context_left,
}

abbrev args : List Text
args = codes "--name=x" ∷ []

abbrev commands : List Command
commands = default_command ∷ []

parse_success_example : IsComplete plain_fmt (left (run args commands))
unfolding run
parse_success_example =
    parse_success plain_fmt reference-IsEngine 20 base args commands (left (run args commands)) refl

abbrev argv : List Text
argv = codes "prog" ∷ args

parse_total_example :
    (r : Parsed) × (parse reference plain_fmt 20 base (tokenizer_of args) commands ≡ some r)
parse_total_example = parse_total plain_fmt reference-IsEngine base args commands 20 (omega arith)

parse_cli_total_example :
    (r : CliParsed) × (parse_cli reference plain_fmt no_wrap 20 cli argv ≡ some r)
unfolding unified_args text_eq
parse_cli_total_example =
    parse_cli_total reference-IsEngine plain_fmt no_wrap cli (codes "prog") args 20 (omega arith)

tokenize-tokens_of_example :
    tokenize reference [] (codes "--name=x") ≡ done ([] ++ tokens_of (codes "--name=x"))
tokenize-tokens_of_example = tokenize-tokens_of reference-IsEngine [] (codes "--name=x")

parse-run_tokens_example :
    parse reference plain_fmt 20 base (tokenizer_of args) commands
    ≡ run_tokens plain_fmt 20 (arg_tokens args) initial_state (start plain_fmt base commands)
parse-run_tokens_example = parse-run_tokens plain_fmt reference-IsEngine 20 base args commands

next_token-pending_example :
    (t' : Tokenizer) × (next_token reference (tokenizer_of args)
      ≡ done (front (pending (tokenizer_of args)), t'))
    × ((pending (tokenizer_of args) ≡ []) ⊎ (pending t' ≡ rest (pending (tokenizer_of args))))
next_token-pending_example = next_token-pending reference-IsEngine (tokenizer_of args)

tokenize-WellShaped_example :
    (added : List Token) × (tokenize reference [] (codes "-xvf") ≡ done ([] ++ added))
    × All WellShaped added
tokenize-WellShaped_example = tokenize-WellShaped reference-IsEngine [] (codes "-xvf")

abbrev stored : OptionValue
stored = record { value = text_value (codes "x"); original_token = codes "x"; defaulted = false }

find-store_value_example : find (codes "name") (store_value (codes "name") stored []) ≡ (
    if text_eq (codes "name") (codes "name")
    then some (added stored (find (codes "name") []))
    else find (codes "name") [])
find-store_value_example = find-store_value (codes "name") (codes "name") stored []

number_conversion_iff_example : (number_conversion 8 (codes "-128") ≡ some (negsuc 127)) ↔ (
    (stoll (codes "-128") ≡ number (negsuc 127) (length (codes "-128"))) × InRange 8 (negsuc 127))
number_conversion_iff_example = number_conversion_iff 8 (omega arith) (codes "-128") (negsuc 127)

unsigned_number_conversion_iff_example : (unsigned_number_conversion 8 (codes "255") ≡ some 255) ↔ (
    (starts_with_minus (codes "255") ≡ false)
    × (stoull (codes "255") ≡ number 255 (length (codes "255")))
    × (255 < 2 ^ 8))
unsigned_number_conversion_iff_example =
    unsigned_number_conversion_iff 8 (omega arith) (codes "255") 255

parse_flag-to_lower_example : parse_flag (to_lower (codes "YES")) ≡ parse_flag (codes "YES")
parse_flag-to_lower_example = parse_flag-to_lower (codes "YES")

abbrev fresh_command : Command
fresh_command = record {
  about = codes "";
  path = codes "run" ∷ [];
  options = [];
  options_in_groups = [];
  groups = [];
  positional_args = [];
  has_parent_cli = false;
}

abbrev some_calls : List Call
some_calls = about_call (codes "Run.") ∷ option_call name_option ∷ option_call level_option ∷ []

run_path_accepted : new_command (codes "run" ∷ []) ≡ done fresh_command
unfolding new_command text_eq
run_path_accepted = refl

calls-print_ungrouped_example :
    (c : Command) × (calls some_calls (some fresh_command) ≡ done (some c))
    × (length c.options_in_groups ≡ length c.options)
    × (print_ungrouped no_wrap c.options c.options_in_groups 80
        ≡ print_all no_wrap (lone_options some_calls []) 80 (codes "\n\n"))
calls-print_ungrouped_example =
    calls-print_ungrouped (codes "run" ∷ []) fresh_command some_calls no_wrap 80 run_path_accepted

build_upgrades_example :
    (cli' : Cli) × (build plain_fmt (some cli) ≡ done cli')
    × AllUpgraded plain_fmt cli (default_command ∷ []) cli'.commands
build_upgrades_example = build_upgrades plain_fmt cli refl refl

-- A Cli with a help command and no default command.
abbrev helpful : Cli
helpful = record new_cli { has_help_command = true }

build_throws_example :
    build plain_fmt (some helpful)
    ≡ fault (exception (codes "default command can only have one path segment (an empty string)"))
build_throws_example = build_throws plain_fmt helpful refl refl

parse_cli-help_example :
    (parse_cli reference plain_fmt no_wrap 20 cli (codes "prog" ∷ help_long ∷ args)
      ≡ parse_cli reference plain_fmt no_wrap 20 cli (codes "prog" ∷ help_name ∷ args))
    × (parse_cli reference plain_fmt no_wrap 20 cli (codes "prog" ∷ help_short ∷ args)
        ≡ parse_cli reference plain_fmt no_wrap 20 cli (codes "prog" ∷ help_name ∷ args))
parse_cli-help_example = parse_cli-help reference plain_fmt no_wrap 20 cli (codes "prog") args refl

parse-empty_arg_example :
    parse reference plain_fmt 20 base (tokenizer_of (args ++ [] ∷ codes "lost" ∷ [])) commands
    ≡ parse reference plain_fmt 20 base (tokenizer_of args) commands
parse-empty_arg_example =
    parse-empty_arg reference-IsEngine plain_fmt 20 base args (codes "lost" ∷ []) commands

run_tokens-dash_dash_example :
    run_tokens plain_fmt 3
      (token dash_dash (codes "--") ∷ token value (codes "x") ∷ [])
      parse_options_state
      (start plain_fmt base commands)
    ≡ some (fault contract_violation)
run_tokens-dash_dash_example =
    run_tokens-dash_dash plain_fmt (codes "--") (token value (codes "x") ∷ []) 3
      (start plain_fmt base commands) (omega arith)

parse_cli_success_example : IsReady (left_cli (run_cli argv))
unfolding run_cli
parse_cli_success_example =
    parse_cli_success reference-IsEngine plain_fmt no_wrap 20 cli (left_cli (run_cli argv)) argv
      (context_left (run_cli argv)) refl
