-- ===== src/Parser/Loop/Origins.antt =====
-- clap/src/parser/parser.cpp: where the values come from that `Parse` leaves.
use asap_clap.Base.{
  ℕ, Bool, List, [], All, All-weaken, All-members, Memᴰ, ◌≡◌, refl, ◌⊎◌, inl, inr, Option, none,
  some, Text, done, IfSome, IfSome-some,
}
use asap_clap.Fsm.{Engine, IsEngine}
use asap_clap.Format.{Fmt}
use asap_clap.Tokenizer.{tokenizer_of}
use asap_clap.Values.{OptionValue}
use asap_clap.Values.ValuesMap.{find}
use asap_clap.Commands.{ClapOption, Command}
use asap_clap.Parser.Context.{CommandLineContext, ParserContext}
use asap_clap.Parser.States.Kept.{Allows, ComesFrom}
use asap_clap.Parser.States.Origins.{AllFit, fitting, SuppliesAll}
use asap_clap.Parser.Loop.{parse}
use asap_clap.Parser.Loop.Kept.{parse-Good}

module _ (Fits : Text → OptionValue → Type 0) (fmt : Fmt) where
  Allows-fitting : (c : Command) → SuppliesAll Fits c → Allows (fitting Fits) c
  Allows-fitting c h = record { all_named = h.0; all_placed = h.1 }

  IfSome-Allows-fitting :
      (o : Option Command) → IfSome (SuppliesAll Fits) o → IfSome (Allows (fitting Fits)) o
  IfSome-Allows-fitting none h = tt
  IfSome-Allows-fitting (some c) h = Allows-fitting c h

  pub parse-AllFit :
      {engine : Engine} (law : IsEngine engine) (fuel : ℕ) (base : CommandLineContext)
      (args : List Text) (commands : List Command) (b : Bool) (c : ParserContext)
      → All (SuppliesAll Fits) commands
      → IfSome (SuppliesAll Fits) base.active_command
      → AllFit Fits base.ovm
      → parse engine fmt fuel base (tokenizer_of args) commands ≡ some (done (b, c))
      → AllFit Fits c.ovm
  parse-AllFit law fuel base args commands b c all active before e =
      parse-Good (fitting Fits) fmt law fuel base args commands b c
        (All-weaken _ _ Allows-fitting commands all)
        (IfSome-Allows-fitting base.active_command active) before e

-- An option of one of the commands, or a positional one, has the key and supplies the value.
pub record IsSupplied (commands : List Command) (key : Text) (x : OptionValue) : Type 0 where
  pub command : Command
  pub option : ClapOption
  pub is_command : Memᴰ command commands
  pub is_option : Memᴰ option command.options ⊎ Memᴰ option command.positional_args
  pub has_key : option.key ≡ key
  pub origin : ComesFrom option x

All-IsSupplied : (commands : List Command) → All (SuppliesAll (IsSupplied commands)) commands
All-IsSupplied commands = All-members _ commands (λ command m. (
  All-members _ command.options (λ o n x from. record {
    command = command;
    option = o;
    is_command = m;
    is_option = inl n;
    has_key = refl;
    origin = from;
  }),
  All-members _ command.positional_args (λ o n x from. record {
    command = command;
    option = o;
    is_command = m;
    is_option = inr n;
    has_key = refl;
    origin = from;
  }),
))

no_values : (Fits : Text → OptionValue → Type 0) → AllFit Fits []
unfolding find
no_values Fits key = tt

-- Where values come from. When no command is active and no value is there before, then each value that `Parse` leaves for
-- a key, whatever it returns, comes from an option of one of the commands, or a positional one, that has this key: the
-- option reads the token of the value as the value, or it is the implicit or the default value of the option with its text.
pub parse-IsSupplied :
    {engine : Engine} (law : IsEngine engine) (fmt : Fmt) (fuel : ℕ) (base : CommandLineContext)
    (args : List Text) (commands : List Command) (b : Bool) (c : ParserContext) (key : Text)
    (values : List OptionValue)
    → base.active_command ≡ none
    → base.ovm ≡ []
    → parse engine fmt fuel base (tokenizer_of args) commands ≡ some (done (b, c))
    → find key c.ovm ≡ some values
    → All (IsSupplied commands key) values
parse-IsSupplied law fmt fuel base args commands b c key values inactive empty e found =
    IfSome-some _ (find key c.ovm)
      (parse-AllFit (IsSupplied commands) fmt law fuel base args commands b c
        (All-IsSupplied commands) (rw inactive tt) (rw empty (no_values (IsSupplied commands))) e
        key)
      found
