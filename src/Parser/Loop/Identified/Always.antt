-- ===== src/Parser/Loop/Identified/Always.antt =====
-- clap/src/parser/parser.cpp: what IdentifyCommandState holds in every round of the loop of `Parse`.
use asap_clap.Base.{
  Bool, List, ◌≡◌, refl, some, Text, done, fault, ◌>>=◌, Yields, Yields-done, >>=-Yields,
}
use asap_clap.Fsm.{
  Status, continue, terminate, reissue_event, terminate_with_error, Action, do_nothing,
  report_error, transition_to,
}
use asap_clap.Fsm.Reference.{execute, after_leave}
use asap_clap.Format.{Fmt}
use asap_clap.Tokenizer.{Token, TokenType}
use asap_clap.Commands.{Command}
use asap_clap.Parser.Context.{CommandLineContext}
use asap_clap.Parser.States.Handlers.{machine, on_leave, on_enter}
use asap_clap.Parser.States.Identify.{handle_identify}
use asap_clap.Parser.States.Narrowing.{IsNarrowed}
use asap_clap.Parser.States.Matching.{IsMatch}
use asap_clap.Parser.States.Longest.{IsLongest}
use asap_clap.Parser.States.Longest.Active.{Activates, handle_identify-Activates}
use asap_clap.Parser.Machine.{State, initial_state, identify_command_state, Memory, Entered}
use asap_clap.Parser.Loop.Reissue.{NotReissue, on_leave-NotReissue}
use asap_clap.Parser.Loop.Reached.{Reached, here, same_token, next_token}
use asap_clap.Parser.Loop.Identified.{
  IsTracked, Acts, GoesOn, Left, handle-Acts, on_leave-Left, on_enter-GoesOn,
}
use asap_clap.Parser.Loop.Tokens.{step, start}

module _ (fmt : Fmt) where
  abbrev Steps : Status × State × Memory → Type 0
  Steps r = GoesOn r.1 (r.0, r.2)

  after_leave-Steps :
      (t : Token) (b : Bool) (s target : State) (r : Entered)
      → NotReissue r
      → Yields (Left fmt) r
      → Yields Steps (r >>= after_leave (machine fmt) t s target b)
  unfolding machine
  after_leave-Steps t b s target (fault x) n h = tt
  after_leave-Steps t b s target (done (continue, m)) n h =
      >>=-Yields Steps (GoesOn target) (on_enter fmt target t b m) _
        (on_enter-GoesOn fmt target t b m h) (λ r e. e)
  after_leave-Steps t b s target (done (terminate, m)) n h = tt
  after_leave-Steps t b s target (done (terminate_with_error w, m)) n h = tt
  after_leave-Steps t b s target (done (reissue_event, m)) n h = absurd (n m refl)

  execute-Steps :
      (t : Token) (s : State) (a : Action State × Memory)
      → Acts s a
      → Yields Steps (execute (machine fmt) t s a)
  unfolding machine
  execute-Steps t s (do_nothing, m) h = h
  execute-Steps t s (report_error why, m) h = tt
  execute-Steps t s (transition_to target b, m) h =
      after_leave-Steps t b s target (on_leave fmt s t m) (on_leave-NotReissue fmt s t m)
        (on_leave-Left fmt s t m h)

  step-Steps : (t : Token) (s : State) (m : Memory) → IsTracked s m → Yields Steps (step fmt t s m)
  unfolding step
  step-Steps t s m h =
      >>=-Yields Steps (Acts s) ((machine fmt).handle s t m) _ (handle-Acts fmt s t m h)
        (λ a e. execute-Steps t s a e)

  module _ (base : CommandLineContext) (commands : List Command) where
    Reached-IsTracked :
        {all ts : List Token} {s : State} {m : Memory}
        → Reached fmt all initial_state (start fmt base commands) ts s m
        → IsTracked s m
    Reached-IsTracked here = (refl, refl, refl)
    Reached-IsTracked (same_token {s = s} {m = m} a e) =
        Yields-done Steps (step fmt _ s m) (step-Steps _ s m (Reached-IsTracked a)) e
    Reached-IsTracked (next_token {s = s} {m = m} a n e) =
        Yields-done Steps (step fmt _ s m) (step-Steps _ s m (Reached-IsTracked a)) e

    -- In every round of `Parse` in which IdentifyCommandState is the current state, whatever the command
    -- line and the commands, the commands in play are exactly those whose path begins with the segments
    -- seen, in order; the whole path of the last match, if there is one, was given; and no command
    -- whose whole path was given is longer.
    pub Reached-IsIdentified :
        {all ts : List Token} {m : Memory}
        → Reached fmt all initial_state (start fmt base commands) ts identify_command_state m
        → IsNarrowed m × IsMatch m × IsLongest m
    Reached-IsIdentified a = Reached-IsTracked a

    -- In every round of `Parse` in which IdentifyCommandState is the current state: if it goes on to
    -- another state with a last match, then that command is
    -- the active one, and no command whose whole path was given is longer.
    pub Reached-Activates :
        {all ts : List Token} {m m' : Memory} (ty : TokenType) (text : Text) (s : State) (b : Bool)
        (c : Command)
        → Reached fmt all initial_state (start fmt base commands) ts identify_command_state m
        → handle_identify fmt ty text m ≡ done (transition_to s b, m')
        → m'.last_matched_command ≡ some c
        → Activates c m'
    Reached-Activates {m} {m'} ty text s b c a e l =
        let (narrowed, match, longest) = Reached-IsIdentified a in
        handle_identify-Activates fmt ty text m m' s b c narrowed match longest e l
