-- ===== src/Examples/Progress.antt =====
-- The last round of the parser, for a command like those of clap/test.
use asap_clap.Base.{◌≡◌, refl, arith, List, [], ◌∷◌, some, none, Text, codes}
use asap_clap.Fsm.Reference.{reference, reference-IsEngine}
use asap_clap.Format.{plain_fmt}
use asap_clap.Tokenizer.{tokenizer_of}
use asap_clap.Tokenizer.Stream.{arg_tokens}
use asap_clap.Commands.{Command}
use asap_clap.Parser.Machine.{parse_options_state, Memory}
use asap_clap.Parser.Loop.{Parsed, parse}
use asap_clap.Parser.Loop.Reached.{here, same_token}
use asap_clap.Parser.Loop.Progress.{LastRound, parse-LastRound}
use asap_clap.Parser.Loop.Assignments.{with_equal, settled}
use asap_clap.Parser.Loop.Assignments.RoundTrip.{begun, entered, step-initial_state}
use asap_clap.Examples.{default_command, base, run}

abbrev commands : List Command
commands = default_command ∷ []

abbrev name_given : List Text
name_given = codes "--name=x" ∷ []

-- The memory behind the first round.
abbrev second_round : Memory
second_round =
    settled default_command (begun plain_fmt default_command (codes "prog") none [] commands refl)
      (entered plain_fmt default_command (codes "prog") none [] commands refl)

parse-LastRound_example :
    (r : Parsed) × (parse reference plain_fmt 20 base (tokenizer_of name_given) commands ≡ some r)
    × LastRound plain_fmt (arg_tokens name_given) parse_options_state second_round r
unfolding run
parse-LastRound_example =
    parse-LastRound plain_fmt reference-IsEngine base name_given commands 20 (arg_tokens name_given)
      parse_options_state second_round (omega arith)
      (same_token here (
        step-initial_state plain_fmt default_command (codes "prog") none [] commands refl with_equal
          (codes "name") (codes "x") []))
