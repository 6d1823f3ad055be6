-- ===== src/Parser/Loop/EmptyArgument.antt =====
-- clap/src/parser/tokenizer.h and parser.cpp: what an empty argument does to `Parse`.
use asap_clap.Base.{ℕ, List, [], ◌∷◌, ◌++◌, ◌≡◌, ◌∙◌, sym, ap, Text}
use asap_clap.Fsm.{Engine, IsEngine}
use asap_clap.Format.{Fmt}
use asap_clap.Tokenizer.{tokenizer_of}
use asap_clap.Tokenizer.Stream.{arg_tokens-empty_arg}
use asap_clap.Commands.{Command}
use asap_clap.Parser.Context.{CommandLineContext}
use asap_clap.Parser.Machine.{initial_state}
use asap_clap.Parser.Loop.{parse}
use asap_clap.Parser.Loop.Tokens.{run_tokens, start, parse-run_tokens}

-- `Parse` never sees the arguments behind an empty one: its result and the context that it leaves are
-- those of the arguments before it, on every engine.
pub parse-empty_arg :
    {engine : Engine} (law : IsEngine engine) (fmt : Fmt) (fuel : ℕ) (base : CommandLineContext)
    (before after : List Text) (commands : List Command)
    → parse engine fmt fuel base (tokenizer_of (before ++ [] ∷ after)) commands
      ≡ parse engine fmt fuel base (tokenizer_of before) commands
parse-empty_arg law fmt fuel base before after commands =
    parse-run_tokens fmt law fuel base (before ++ [] ∷ after) commands
    ∙ ap (λ ts. run_tokens fmt fuel ts initial_state (start fmt base commands))
        (arg_tokens-empty_arg before after)
    ∙ sym (parse-run_tokens fmt law fuel base before commands)
