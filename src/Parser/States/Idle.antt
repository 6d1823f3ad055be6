-- ===== src/Parser/States/Idle.antt =====
-- clap/src/parser/states.h: what IdentifyCommandState holds, outside of that state.
use asap_clap.Base.{Bool, true, false, ◌≡◌, arith, Text, done}
use asap_clap.Fsm.{Status, Action}
use asap_clap.Format.{Fmt}
use asap_clap.Tokenizer.{TokenType, value, equal_sign}
use asap_clap.Parser.States.Initial.{handle_initial}
use asap_clap.Parser.States.Options.{enter_options, handle_options}
use asap_clap.Parser.States.ShortOption.{
  enter_found, enter_short, leave_option, leave_short, handle_short,
}
use asap_clap.Parser.States.LongOption.{enter_long, leave_long, handle_long}
use asap_clap.Parser.States.Final.{enter_final}
use asap_clap.Parser.Machine.{State, Memory}

abbrev pub SameFields : Memory → Memory → Type 0
SameFields m m' =
    (m'.filtered_commands ≡ m.filtered_commands)
    × (m'.path_segments ≡ m.path_segments)
    × (m'.last_matched_command ≡ m.last_matched_command)

module _ (fmt : Fmt) where
  pub handle_short-SameFields :
      (ty : TokenType) (token : Text) (m m' : Memory) (a : Action State)
      → handle_short fmt ty token m ≡ done (a, m')
      → SameFields m m'
  unfolding handle_short
  handle_short-SameFields value token m m' a e = (ground arith, ground arith, ground arith)
  handle_short-SameFields _ token m m' a e = (ground arith, ground arith, ground arith)

  pub handle_long-SameFields :
      (ty : TokenType) (token : Text) (m m' : Memory) (a : Action State)
      → handle_long fmt ty token m ≡ done (a, m')
      → SameFields m m'
  unfolding handle_long
  handle_long-SameFields value token m m' a e = (ground arith, ground arith, ground arith)
  handle_long-SameFields equal_sign token m m' a e = (ground arith, ground arith, ground arith)
  handle_long-SameFields _ token m m' a e = (ground arith, ground arith, ground arith)

  pub handle_options-SameFields :
      (ty : TokenType) (token : Text) (m m' : Memory) (a : Action State)
      → handle_options fmt ty token m ≡ done (a, m')
      → SameFields m m'
  unfolding handle_options
  handle_options-SameFields value token m m' a e = (ground arith, ground arith, ground arith)
  handle_options-SameFields _ token m m' a e = (ground arith, ground arith, ground arith)

  pub handle_initial-SameFields :
      (ty : TokenType) (token : Text) (m m' : Memory) (a : Action State)
      → handle_initial fmt ty token m ≡ done (a, m')
      → SameFields m m'
  unfolding handle_initial
  handle_initial-SameFields value token m m' a e = (ground arith, ground arith, ground arith)
  handle_initial-SameFields _ token m m' a e = (ground arith, ground arith, ground arith)

  pub leave_short-SameFields :
      (m m' : Memory) (st : Status) → leave_short fmt m ≡ done (st, m') → SameFields m m'
  unfolding leave_short leave_option
  leave_short-SameFields m m' st e = (ground arith, ground arith, ground arith)

  pub leave_long-SameFields :
      (m m' : Memory) (st : Status) → leave_long fmt m ≡ done (st, m') → SameFields m m'
  unfolding leave_long leave_option
  leave_long-SameFields m m' st e = (ground arith, ground arith, ground arith)

  pub enter_short-SameFields :
      (ty : TokenType) (token : Text) (m m' : Memory) (st : Status)
      → enter_short fmt ty token m ≡ done (st, m')
      → SameFields m m'
  unfolding enter_short enter_found
  enter_short-SameFields ty token m m' st e = (ground arith, ground arith, ground arith)

  pub enter_long-SameFields :
      (ty : TokenType) (token : Text) (m m' : Memory) (st : Status)
      → enter_long fmt ty token m ≡ done (st, m')
      → SameFields m m'
  unfolding enter_long enter_found
  enter_long-SameFields ty token m m' st e = (ground arith, ground arith, ground arith)

  pub enter_options-SameFields :
      (ty : TokenType) (b : Bool) (m m' : Memory) (st : Status)
      → enter_options ty b m ≡ done (st, m')
      → SameFields m m'
  unfolding enter_options
  enter_options-SameFields ty true m m' st e = (ground arith, ground arith, ground arith)
  enter_options-SameFields ty false m m' st e = (ground arith, ground arith, ground arith)

  pub enter_final-SameFields :
      (m m' : Memory) (st : Status) → enter_final fmt m ≡ done (st, m') → SameFields m m'
  unfolding enter_final
  enter_final-SameFields m m' st e = (ground arith, ground arith, ground arith)
