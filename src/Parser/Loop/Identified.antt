-- ===== src/Parser/Loop/Identified.antt =====
-- clap/src/parser/parser.cpp: IdentifyCommandState, in the loop of `Parse`.
pub mod Always
use asap_clap.Base.{
  ℕ, Bool, true, false, not, List, [], ◌∷◌, ◌≡◌, ◌≢◌, refl, sym, ◌∙◌, arith, Option, none, some,
  Text, Outcome, done, fault, ◌>>=◌, >>=-elim, Yields, Yields-done, >>=-Yields, result-Yields,
  require, is_empty,
}
use asap_clap.Fsm.{
  Status, continue, terminate, reissue_event, terminate_with_error, Action, do_nothing,
  report_error, transition_to,
}
use asap_clap.Fsm.Reference.{execute, after_leave}
use asap_clap.Format.{Fmt}
use asap_clap.Tokenizer.{Token, TokenType, value}
use asap_clap.Tokenizer.Stream.{front, rest}
use asap_clap.Commands.{Command}
use asap_clap.Parser.Context.{CommandLineContext}
use asap_clap.Parser.States.Handlers.{machine, handle, on_leave, on_enter}
use asap_clap.Parser.States.Identify.{
  enter_identify, leave_identify, handle_identify, handle_identify_other, end_of_path,
}
use asap_clap.Parser.States.Narrowing.{
  IsNarrowed, enter_identify-IsNarrowed, handle_identify-IsNarrowed,
}
use asap_clap.Parser.States.Matching.{IsMatch, handle_identify-IsMatch}
use asap_clap.Parser.States.Longest.{IsLongest, handle_identify-IsLongest}
use asap_clap.Parser.States.Longest.First.{enter_identify-IsLongest, enter_identify-IsMatch}
use asap_clap.Parser.States.Longest.Active.{Activates, handle_identify-Activates}
use asap_clap.Parser.States.Idle.{
  SameFields, handle_initial-SameFields, handle_options-SameFields, handle_short-SameFields,
  handle_long-SameFields, leave_short-SameFields, leave_long-SameFields, enter_short-SameFields,
  enter_long-SameFields, enter_options-SameFields, enter_final-SameFields,
}
use asap_clap.Parser.Machine.{
  State, initial_state, identify_command_state, parse_options_state, parse_short_option_state,
  parse_long_option_state, dash_dash_state, final_state, Memory, Entered, Handled,
}
use asap_clap.Parser.Loop.Reissue.{enter_identify-NotReissue}
use asap_clap.Parser.Loop.Reached.{Reached, here, same_token, next_token}
use asap_clap.Parser.Loop.Tokens.{step, start}

-- The fields of IdentifyCommandState outside of it.
abbrev IsIdle : Memory → Type 0
IsIdle m = (m.filtered_commands ≡ []) × (m.path_segments ≡ []) × (m.last_matched_command ≡ none)

-- And in it: the commands in play are those whose path begins with the segments seen, and the last
-- match is one of the longest commands whose whole path was given.
abbrev pub IsIdentified : Memory → Type 0
IsIdentified m = IsNarrowed m × IsMatch m × IsLongest m

abbrev IsTracked : State → Memory → Type 0
IsTracked identify_command_state m = IsIdentified m
IsTracked _ m = IsIdle m

-- What holds behind a call of a handler, and of a member that enters a state.
abbrev MayLeave : State → Memory → Type 0
MayLeave identify_command_state m = Unit
MayLeave _ m = IsIdle m

abbrev Acts : State → Action State × Memory → Type 0
Acts s (do_nothing, m) = IsTracked s m
Acts s (report_error why, m) = Unit
Acts s (transition_to target b, m) = MayLeave s m

abbrev GoesOn : State → Status × Memory → Type 0
GoesOn s (continue, m) = IsTracked s m
GoesOn s (reissue_event, m) = IsTracked s m
GoesOn s _ = Unit

SameFields-IsIdle : (m m' : Memory) → SameFields m m' → IsIdle m → IsIdle m'
SameFields-IsIdle m m' same h = (same.0 ∙ h.0, same.1 ∙ h.1, same.2 ∙ h.2)

module _ (fmt : Fmt) where
  identify_do_nothing :
      (ty : TokenType) (token : Text) (m m' : Memory)
      → IsIdentified m
      → handle_identify fmt ty token m ≡ done (do_nothing, m')
      → IsIdentified m'
  unfolding handle_identify handle_identify_other end_of_path
  identify_do_nothing value token m m' h e = (
    handle_identify-IsNarrowed fmt token m m' h.0 e,
    handle_identify-IsMatch fmt token m m' h.0 h.1 e,
    handle_identify-IsLongest fmt token m m' h.0 h.1 h.2 e,
  )
  identify_do_nothing _ token m m' h e = absurd (ground arith)

  handle_identify-Acts :
      (ty : TokenType) (token : Text) (m : Memory) (a : Action State × Memory)
      → IsIdentified m
      → handle_identify fmt ty token m ≡ done a
      → Acts identify_command_state a
  handle_identify-Acts ty token m (do_nothing, m') h e = identify_do_nothing ty token m m' h e
  handle_identify-Acts ty token m (report_error why, m') h e = tt
  handle_identify-Acts ty token m (transition_to s b, m') h e = tt

  idle-IsTracked : (s : State) (m : Memory) → s ≢ identify_command_state → IsIdle m → IsTracked s m
  idle-IsTracked identify_command_state m n h = absurd (n refl)
  idle-IsTracked _ m n h = h

  idle-MayLeave : (s : State) (m : Memory) → IsIdle m → MayLeave s m
  idle-MayLeave identify_command_state m h = tt
  idle-MayLeave _ m h = h

  idle-Acts :
      (s : State) (a : Action State × Memory) → s ≢ identify_command_state → IsIdle a.1 → Acts s a
  idle-Acts s (do_nothing, m) n h = idle-IsTracked s m n h
  idle-Acts s (report_error why, m) n h = tt
  idle-Acts s (transition_to target b, m) n h = idle-MayLeave s m h

  idle-GoesOn :
      (s : State) (r : Status × Memory) → s ≢ identify_command_state → IsIdle r.1 → GoesOn s r
  idle-GoesOn s (continue, m) n h = idle-IsTracked s m n h
  idle-GoesOn s (reissue_event, m) n h = idle-IsTracked s m n h
  idle-GoesOn s (terminate, m) n h = tt
  idle-GoesOn s (terminate_with_error why, m) n h = tt

  same-Acts :
      (s : State) (m : Memory) (r : Handled)
      → s ≢ identify_command_state
      → IsIdle m
      → ((m' : Memory) (a : Action State) → r ≡ done (a, m') → SameFields m m')
      → Yields (Acts s) r
  same-Acts s m r n h same =
      result-Yields (Acts s) r (λ a e. idle-Acts s a n (SameFields-IsIdle m a.1 (same a.1 a.0 e) h))

  same-GoesOn :
      (s : State) (m : Memory) (r : Entered)
      → s ≢ identify_command_state
      → IsIdle m
      → ((m' : Memory) (st : Status) → r ≡ done (st, m') → SameFields m m')
      → Yields (GoesOn s) r
  same-GoesOn s m r n h same =
      result-Yields (GoesOn s) r
        (λ a e. idle-GoesOn s a n (SameFields-IsIdle m a.1 (same a.1 a.0 e) h))

  abbrev Left : Status × Memory → Type 0
  Left r = IsIdle r.1

  same-Left :
      (m : Memory) (r : Entered)
      → IsIdle m
      → ((m' : Memory) (st : Status) → r ≡ done (st, m') → SameFields m m')
      → Yields Left r
  same-Left m r h same = result-Yields Left r (λ a e. SameFields-IsIdle m a.1 (same a.1 a.0 e) h)

  handle-Acts :
      (s : State) (t : Token) (m : Memory)
      → IsTracked s m
      → Yields (Acts s) ((machine fmt).handle s t m)
  unfolding machine handle
  handle-Acts initial_state t m h =
      same-Acts initial_state m _ (λ e. cc) h
        (λ m' a. handle_initial-SameFields fmt t.token_type t.text m m' a)
  handle-Acts identify_command_state t m h =
      result-Yields (Acts identify_command_state) _
        (λ a e. handle_identify-Acts t.token_type t.text m a h e)
  handle-Acts parse_options_state t m h =
      same-Acts parse_options_state m _ (λ e. cc) h
        (λ m' a. handle_options-SameFields fmt t.token_type t.text m m' a)
  handle-Acts parse_short_option_state t m h =
      same-Acts parse_short_option_state m _ (λ e. cc) h
        (λ m' a. handle_short-SameFields fmt t.token_type t.text m m' a)
  handle-Acts parse_long_option_state t m h =
      same-Acts parse_long_option_state m _ (λ e. cc) h
        (λ m' a. handle_long-SameFields fmt t.token_type t.text m m' a)
  handle-Acts dash_dash_state t m h = h
  handle-Acts final_state t m h = h

  on_leave-Left :
      (s : State) (t : Token) (m : Memory) → MayLeave s m → Yields Left (on_leave fmt s t m)
  unfolding on_leave leave_identify
  on_leave-Left identify_command_state t m h = (refl, refl, refl)
  on_leave-Left parse_short_option_state t m h =
      same-Left m _ h (λ m' st. leave_short-SameFields fmt m m' st)
  on_leave-Left parse_long_option_state t m h =
      same-Left m _ h (λ m' st. leave_long-SameFields fmt m m' st)
  on_leave-Left _ t m h = h

  enter_identify-GoesOn :
      (token : Text) (m : Memory) (r : Status × Memory)
      → IsIdle m
      → enter_identify token m ≡ done r
      → GoesOn identify_command_state r
  enter_identify-GoesOn token m (continue, m') h e = (
    enter_identify-IsNarrowed token m m' h.1 h.0 e,
    enter_identify-IsMatch token m m' h.1 h.2 e,
    enter_identify-IsLongest token m m' h.1 h.2 e,
  )
  enter_identify-GoesOn token m (reissue_event, m') h e =
      absurd (enter_identify-NotReissue fmt token m m' e)
  enter_identify-GoesOn token m (terminate, m') h e = tt
  enter_identify-GoesOn token m (terminate_with_error why, m') h e = tt

  on_enter-GoesOn :
      (s : State) (t : Token) (b : Bool) (m : Memory)
      → IsIdle m
      → Yields (GoesOn s) (on_enter fmt s t b m)
  unfolding on_enter
  on_enter-GoesOn identify_command_state t b m h =
      result-Yields (GoesOn identify_command_state) _ (λ r e. enter_identify-GoesOn t.text m r h e)
  on_enter-GoesOn parse_options_state t b m h =
      same-GoesOn parse_options_state m _ (λ e. cc) h
        (λ m' st. enter_options-SameFields fmt t.token_type b m m' st)
  on_enter-GoesOn parse_short_option_state t b m h =
      same-GoesOn parse_short_option_state m _ (λ e. cc) h
        (λ m' st. enter_short-SameFields fmt t.token_type t.text m m' st)
  on_enter-GoesOn parse_long_option_state t b m h =
      same-GoesOn parse_long_option_state m _ (λ e. cc) h
        (λ m' st. enter_long-SameFields fmt t.token_type t.text m m' st)
  on_enter-GoesOn final_state t b m h =
      same-GoesOn final_state m _ (λ e. cc) h (λ m' st. enter_final-SameFields fmt m m' st)
  on_enter-GoesOn _ t b m h = h
