-- ===== src/Parser/Loop/Once.antt =====
-- clap/src/parser/parser.cpp: the values of an option that is not repeatable, as `Parse` leaves them.
use asap_clap.Base.{
  ℕ, ◌≤◌, Bool, List, All, All-weaken, ◌≡◌, Option, none, some, Text, done, IfSome,
}
use asap_clap.Fsm.{Engine, IsEngine}
use asap_clap.Format.{Fmt}
use asap_clap.Tokenizer.{tokenizer_of}
use asap_clap.Values.ValuesMap.{occurrences_of}
use asap_clap.Commands.{Command}
use asap_clap.Parser.Context.{CommandLineContext, ParserContext}
use asap_clap.Parser.States.Kept
use asap_clap.Parser.States.Once.{Allows, once}
use asap_clap.Parser.Loop.{parse}
use asap_clap.Parser.Loop.Kept.{parse-Good}

module _ (key : Text) (fmt : Fmt) where
  Allows-once : (c : Command) → Allows key c → Kept.Allows (once key) c
  Allows-once c h = record { all_named = h.options_once; all_placed = h.not_positional }

  IfSome-Allows-once :
      (o : Option Command) → IfSome (Allows key) o → IfSome (Kept.Allows (once key)) o
  IfSome-Allows-once none h = tt
  IfSome-Allows-once (some c) h = Allows-once c h

  -- An option that is not repeatable has one value at most, whatever `Parse` returns: if in no command, and not in
  -- the one that is active before, the key is that of a repeatable option or of a positional one, and the values map has one value at
  -- most for it before, then it has one at most in the context that `Parse` leaves.
  pub parse-at_most_one :
      {engine : Engine} (law : IsEngine engine) (fuel : ℕ) (base : CommandLineContext)
      (args : List Text) (commands : List Command) (b : Bool) (c : ParserContext)
      → All (Allows key) commands
      → IfSome (Allows key) base.active_command
      → occurrences_of key base.ovm ≤ 1
      → parse engine fmt fuel base (tokenizer_of args) commands ≡ some (done (b, c))
      → occurrences_of key c.ovm ≤ 1
  parse-at_most_one law fuel base args commands b c all active few e =
      parse-Good (once key) fmt law fuel base args commands b c
        (All-weaken _ _ Allows-once commands all) (IfSome-Allows-once base.active_command active)
        few e
