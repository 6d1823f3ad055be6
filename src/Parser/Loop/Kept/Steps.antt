-- ===== src/Parser/Loop/Kept/Steps.antt =====
-- clap/src/parser/parser.cpp: what one event keeps of the values map.
use asap_clap.Base.{Bool, refl, done, fault, ◌>>=◌, Yields, Yields-weaken, >>=-Yields}
use asap_clap.Fsm.{
  Status, continue, terminate, reissue_event, terminate_with_error, Action, do_nothing,
  report_error, transition_to,
}
use asap_clap.Fsm.Reference.{execute, after_leave}
use asap_clap.Format.{Fmt}
use asap_clap.Tokenizer.{Token}
use asap_clap.Parser.States.Handlers.{machine, handle, on_leave, on_enter}
use asap_clap.Parser.States.Kept.{Discipline, IsKept, HasRoom}
use asap_clap.Parser.States.Kept.Enter.{
  Going, EntersKept, enter_short-EntersKept, enter_long-EntersKept,
}
use asap_clap.Parser.States.Kept.Leave.{leave_short-IsKept, leave_long-IsKept}
use asap_clap.Parser.States.Kept.Values.{
  Acting, HandlesKept, handle_short-HandlesKept, handle_long-HandlesKept,
}
use asap_clap.Parser.States.Kept.Commands.{
  Handles, Enters, handle_initial-IsKept, handle_options-IsKept, enter_options-IsKept,
}
use asap_clap.Parser.States.Kept.Identify.{
  enter_identify-IsKept, leave_identify-IsKept, handle_identify-IsKept,
}
use asap_clap.Parser.States.Kept.Final.{enter_final-IsKept}
use asap_clap.Parser.Machine.{
  State, initial_state, identify_command_state, parse_options_state, parse_short_option_state,
  parse_long_option_state, dash_dash_state, final_state, Memory, Entered, Handled,
}
use asap_clap.Parser.Loop.Reissue.{NotReissue, on_leave-NotReissue}
use asap_clap.Parser.Loop.Tokens.{step}

module _ (k : Discipline) (fmt : Fmt) where
  acting : (a : Action State) {R : Type 0} → R → Acting k fmt a R
  acting (report_error why) r = tt
  acting do_nothing r = r
  acting (transition_to s b) r = r

  going : (status : Status) {R : Type 0} → R → Going k status R
  going continue r = r
  going reissue_event r = r
  going terminate r = tt
  going (terminate_with_error why) r = tt

  handles :
      (r : Handled)
      → Yields (Handles k) r
      → Yields (λ (r : Action State × Memory). IsKept k r.1 × Acting k fmt r.0 (Unit {0})) r
  handles r h = Yields-weaken (Handles k) _ r (λ a once. (once, acting a.0 tt)) h

  enters :
      (r : Entered)
      → Yields (Enters k) r
      → Yields (λ (r : Status × Memory). IsKept k r.1 × Going k r.0 (Unit {0})) r
  enters r h = Yields-weaken (Enters k) _ r (λ a once. (once, going a.0 tt)) h

  handle-HandlesKept :
      (s : State) (t : Token) (m : Memory)
      → IsKept k m
      → HasRoom k s m
      → Yields (HandlesKept k fmt s) ((machine fmt).handle s t m)
  unfolding machine handle
  handle-HandlesKept initial_state t m h room =
      handles _ (handle_initial-IsKept k fmt t.token_type t.text m h)
  handle-HandlesKept identify_command_state t m h room =
      handles _ (handle_identify-IsKept k fmt t.token_type t.text m h)
  handle-HandlesKept parse_options_state t m h room =
      handles _ (handle_options-IsKept k fmt t.token_type t.text m h)
  handle-HandlesKept parse_short_option_state t m h room =
      handle_short-HandlesKept k fmt t.token_type t.text m h room
  handle-HandlesKept parse_long_option_state t m h room =
      handle_long-HandlesKept k fmt t.token_type t.text m h room
  handle-HandlesKept dash_dash_state t m h room = (h, tt)
  handle-HandlesKept final_state t m h room = (h, tt)

  on_leave-IsKept :
      (s : State) (t : Token) (m : Memory)
      → IsKept k m
      → HasRoom k s m
      → Yields (Enters k) (on_leave fmt s t m)
  unfolding on_leave
  on_leave-IsKept identify_command_state t m h room = leave_identify-IsKept k m h
  on_leave-IsKept parse_short_option_state t m h room = leave_short-IsKept k fmt m h room
  on_leave-IsKept parse_long_option_state t m h room = leave_long-IsKept k fmt m h room
  on_leave-IsKept _ t m h room = h

  on_enter-EntersKept :
      (s : State) (t : Token) (b : Bool) (m : Memory)
      → IsKept k m
      → Yields (EntersKept k s) (on_enter fmt s t b m)
  unfolding on_enter
  on_enter-EntersKept identify_command_state t b m h = enters _ (enter_identify-IsKept k t.text m h)
  on_enter-EntersKept parse_options_state t b m h =
      enters _ (enter_options-IsKept k t.token_type b m h)
  on_enter-EntersKept parse_short_option_state t b m h =
      enter_short-EntersKept k fmt t.token_type t.text m h
  on_enter-EntersKept parse_long_option_state t b m h =
      enter_long-EntersKept k fmt t.token_type t.text m h
  on_enter-EntersKept final_state t b m h = enters _ (enter_final-IsKept k fmt m h)
  on_enter-EntersKept _ t b m h = (h, tt)

  -- An event keeps the invariant.
  abbrev pub StepsKept : Status × State × Memory → Type 0
  StepsKept r = IsKept k r.2 × Going k r.0 (HasRoom k r.1 r.2)

  after_leave-StepsKept :
      (t : Token) (b : Bool) (s target : State) (r : Entered)
      → NotReissue r
      → Yields (Enters k) r
      → Yields StepsKept (r >>= after_leave (machine fmt) t s target b)
  unfolding machine
  after_leave-StepsKept t b s target (fault x) n h = tt
  after_leave-StepsKept t b s target (done (continue, m)) n h =
      >>=-Yields StepsKept (EntersKept k target) (on_enter fmt target t b m) _
        (on_enter-EntersKept target t b m h) (λ r e. e)
  after_leave-StepsKept t b s target (done (terminate, m)) n h = (h, tt)
  after_leave-StepsKept t b s target (done (terminate_with_error w, m)) n h = (h, tt)
  after_leave-StepsKept t b s target (done (reissue_event, m)) n h = absurd (n m refl)

  execute-StepsKept :
      (t : Token) (s : State) (r : Action State × Memory)
      → HandlesKept k fmt s r
      → Yields StepsKept (execute (machine fmt) t s r)
  unfolding machine
  execute-StepsKept t s (do_nothing, m) h = h
  execute-StepsKept t s (report_error why, m) h = h
  execute-StepsKept t s (transition_to target b, m) h =
      after_leave-StepsKept t b s target (on_leave fmt s t m) (on_leave-NotReissue fmt s t m)
        (on_leave-IsKept s t m h.0 h.1)

  pub step-StepsKept :
      (t : Token) (s : State) (m : Memory)
      → IsKept k m
      → HasRoom k s m
      → Yields StepsKept (step fmt t s m)
  unfolding step
  step-StepsKept t s m h room =
      >>=-Yields StepsKept (HandlesKept k fmt s) ((machine fmt).handle s t m) _
        (handle-HandlesKept s t m h room) (λ r e. execute-StepsKept t s r e)
