-- ===== src/Parser/Loop/Kept.antt =====
-- clap/src/parser/parser.cpp: what `Parse` keeps of the values map.
pub mod Steps
use asap_clap.Base.{
  ℕ, zero, suc, ◌≤◌, Bool, List, All, ◌≡◌, refl, sym, ◌∙◌, arith, Option, none, some, Text, Outcome,
  done, fault, ◌>>=◌, Yields, Yields-weaken, IfSome, >>=-Yields, find_if, Bool-cases, inl, inr,
}
use asap_clap.Fsm.{
  Status, continue, terminate, reissue_event, terminate_with_error, Action, do_nothing,
  report_error, transition_to, Engine, IsEngine,
}
use asap_clap.Fsm.Reference.{execute, after_leave}
use asap_clap.Format.{Fmt}
use asap_clap.Tokenizer.{Token, tokenizer_of}
use asap_clap.Tokenizer.Stream.{arg_tokens, front, rest}
use asap_clap.Values.ValuesMap.{OptionValuesMap}
use asap_clap.Commands.{Command, is_default}
use asap_clap.Parser.Context.{CommandLineContext, ParserContext, new_parser_context}
use asap_clap.Parser.States.Handlers.{machine, handle, on_leave, on_enter}
use asap_clap.Parser.States.Initial.{initial_context}
use asap_clap.Parser.States.Kept.{Discipline, Allows, KeptIn, IsKept, HasRoom}
use asap_clap.Parser.States.Kept.Enter.{
  Going, EntersKept, All-find_if, enter_short-EntersKept, enter_long-EntersKept,
}
use asap_clap.Parser.States.Kept.Leave.{leave_short-IsKept, leave_long-IsKept}
use asap_clap.Parser.States.Kept.Values.{
  Acting, HandlesKept, handle_short-HandlesKept, handle_long-HandlesKept,
}
use asap_clap.Parser.States.Kept.Commands.{
  Handles, Enters, handle_initial-IsKept, handle_options-IsKept, enter_options-IsKept,
}
use asap_clap.Parser.States.Kept.Identify.{
  enter_identify-IsKept, leave_identify-IsKept, handle_identify-IsKept,
}
use asap_clap.Parser.States.Kept.Final.{enter_final-IsKept}
use asap_clap.Parser.Machine.{
  State, initial_state, identify_command_state, parse_options_state, parse_short_option_state,
  parse_long_option_state, dash_dash_state, final_state, Memory, Entered, Handled,
}
use asap_clap.Parser.Loop.Reissue.{NotReissue, on_leave-NotReissue}
use asap_clap.Parser.Loop.Kept.Steps.{StepsKept, step-StepsKept}
use asap_clap.Parser.Loop.{Parsed, is_end, report, react, parse}
use asap_clap.Parser.Loop.Tokens.{step, run_tokens, start, parse-run_tokens}

module _ (k : Discipline) (fmt : Fmt) where
  -- What the loop comes to.
  abbrev LeavesKept : Option Parsed → Type 0
  LeavesKept o = (b : Bool) (c : ParserContext) → o ≡ some (done (b, c)) → KeptIn k c

  report-KeptIn : (why : Text) (c : ParserContext) → KeptIn k c → KeptIn k (report fmt why c)
  report-KeptIn why c h = record {
    all_allow = h.all_allow;
    active_allows = h.active_allows;
    good = h.good;
  }

  react-LeavesKept :
      (again next : State → Memory → Option Parsed) (t : Token)
      (r : Outcome (Status × State × Memory))
      → Yields (StepsKept k fmt) r
      → ((s : State) (m : Memory) → IsKept k m → HasRoom k s m → LeavesKept (again s m))
      → ((s : State) (m : Memory) → IsKept k m → HasRoom k s m → LeavesKept (next s m))
      → LeavesKept (react fmt again next t r)
  unfolding react
  react-LeavesKept again next t (fault x) h p q b c e = absurd (ground arith)
  react-LeavesKept again next t (done (terminate, s, m)) h p q b c e =
      let same : m.context ≡ c = ground arith in rw (← same) h.0.in_context
  react-LeavesKept again next t (done (terminate_with_error why, s, m)) h p q b c e =
      let same : report fmt why m.context ≡ c = ground arith in
      rw (← same) (report-KeptIn why m.context h.0.in_context)
  react-LeavesKept again next t (done (reissue_event, s, m)) h p q b c e = p s m h.0 h.1 b c e
  react-LeavesKept again next t (done (continue, s, m)) h p q b c e =
      elim (Bool-cases (is_end t.token_type)) [
        | inl end ↦ absurd (let e' = rw (end, react) at e in ground arith)
        | inr more ↦ q s m h.0 h.1 b c (rw (more, react) at e)
      ]

  run_tokens-LeavesKept :
      (fuel : ℕ) (ts : List Token) (s : State) (m : Memory)
      → IsKept k m
      → HasRoom k s m
      → LeavesKept (run_tokens fmt fuel ts s m)
  unfolding run_tokens
  run_tokens-LeavesKept zero ts s m h room = λ b c e. absurd (ground arith)
  run_tokens-LeavesKept (suc fuel) ts s m h room =
      react-LeavesKept _ _ (front ts) _ (step-StepsKept k fmt (front ts) s m h room)
        (run_tokens-LeavesKept fuel ts) (run_tokens-LeavesKept fuel (rest ts))

  initial-KeptIn :
      (base : CommandLineContext) (commands : List Command) (o : Option Command)
      → find_if is_default commands ≡ o
      → IfSome (Allows k) o
      → KeptIn k (new_parser_context base commands)
      → KeptIn k (initial_context (new_parser_context base commands))
  unfolding initial_context new_parser_context
  initial-KeptIn base commands none e a h = rw e h
  initial-KeptIn base commands (some c) e a h =
      rw e (record { all_allow = h.all_allow; active_allows = a; good = h.good })

  start-IsKept :
      (base : CommandLineContext) (commands : List Command)
      → All (Allows k) commands
      → IfSome (Allows k) base.active_command
      → k.Good base.ovm
      → IsKept k (start fmt base commands)
  unfolding new_parser_context
  start-IsKept base commands all active few = record {
    in_context =
        initial-KeptIn base commands (find_if is_default commands) refl
          (All-find_if (Allows k) is_default commands all)
          (record { all_allow = all; active_allows = active; good = few });
    filtered_allow = tt;
    matched_allows = tt;
    default_allows = tt;
  }

  -- A property of the values map that the states keep holds of the one that `Parse` leaves.
  pub parse-Good :
      {engine : Engine} (law : IsEngine engine) (fuel : ℕ) (base : CommandLineContext)
      (args : List Text) (commands : List Command) (b : Bool) (c : ParserContext)
      → All (Allows k) commands
      → IfSome (Allows k) base.active_command
      → k.Good base.ovm
      → parse engine fmt fuel base (tokenizer_of args) commands ≡ some (done (b, c))
      → k.Good c.ovm
  parse-Good law fuel base args commands b c all active good e =
      (run_tokens-LeavesKept fuel (arg_tokens args) initial_state (start fmt base commands)
        (start-IsKept base commands all active good) tt b c
        (sym (parse-run_tokens fmt law fuel base args commands) ∙ e)).good
