-- ===== src/Examples/Refused.antt =====
-- The whole program on a command line that is refused: a required option is missing.
use asap_clap.Base.{refl, List, [], ◌∷◌, Option, some, Text, codes, done}
use asap_clap.Fsm.Reference.{reference-IsEngine}
use asap_clap.Format.{plain_fmt}
use asap_clap.Parser.Context.{CommandLineContext}
use asap_clap.Cli.{Cli}
use asap_clap.Cli.Parsing.{CliParsed, refused}
use asap_clap.Cli.Parsing.Failure.{IsExplained, parse_cli_failure}
use asap_clap.Examples.{base, cli, no_wrap, run_cli}

abbrev argv : List Text
argv = codes "prog" ∷ []

-- What the exception leaves behind.
abbrev why_of : Option CliParsed → Text
why_of (some (done (refused why context c))) = why
why_of _ = []

abbrev written : Option CliParsed → CommandLineContext
written (some (done (refused why context c))) = context
written _ = base

abbrev left_by : Option CliParsed → Cli
left_by (some (done (refused why context c))) = c
left_by _ = cli

parse_cli_failure_example :
    IsExplained plain_fmt no_wrap
      (why_of (run_cli argv))
      (written (run_cli argv))
      (left_by (run_cli argv))
unfolding run_cli
parse_cli_failure_example =
    parse_cli_failure reference-IsEngine plain_fmt no_wrap 20 cli (left_by (run_cli argv)) argv
      (why_of (run_cli argv)) (written (run_cli argv)) refl
