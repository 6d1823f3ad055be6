-- ===== src/Parser/Loop/Assignments/Behind.antt =====
-- clap/src/parser/parser.cpp: `Parse` on the path of a command and a value behind it that goes on with no path.
use asap_clap.Base.{
  ℕ, suc, true, false, List, [], ◌∷◌, ◌++◌, ◌≡◌, refl, sym, ap, ◌∙◌, subst, All, Memᴰ, length,
  select, Option, Text, done, Bool, Bool-cases, inl, inr,
}
use asap_clap.Fsm.{reissue_event}
use asap_clap.Format.{Fmt}
use asap_clap.Tokenizer.{Token, token, value}
use asap_clap.Commands.{Command}
use asap_clap.Parser.Context.{ParserContext}
use asap_clap.Parser.States.Handlers.{machine, handle, on_leave, on_enter}
use asap_clap.Parser.States.Identify.{
  keeps, narrow, no_command_left, handle_identify, handle_identify_value, leave_identify,
}
use asap_clap.Parser.States.Narrowing.{in_play, narrowed-select}
use asap_clap.Parser.States.Options.{enter_options}
use asap_clap.Parser.States.Path.{IsOnly, Follows}
use asap_clap.Parser.Machine.{initial_state, identify_command_state, parse_options_state, Memory}
use asap_clap.Parser.Loop.Tokens.{step, run_tokens}
use asap_clap.Parser.Loop.Assignments.{settled}
use asap_clap.Parser.Loop.Assignments.Run.{run_continue, run_reissue}
use asap_clap.Parser.Loop.Assignments.Path.{
  path_tokens, path_rounds, begun, run-path, step-first_segment, at_end,
}

-- Where no command is kept, the last match stays.
narrow-none :
    (n : ℕ) (word : Text) (cs : List Command) (matched : Option Command)
    → (narrow n word cs matched).0 ≡ []
    → (narrow n word cs matched).1 ≡ matched
unfolding narrow
narrow-none n word [] matched h = refl
narrow-none n word (c ∷ cs) matched h = elim (Bool-cases (keeps n word c)) [
  | inl yes' ↦ absurd (let h' = rw yes' at h in cc)
  | inr no' ↦ rw no' (narrow-none n word cs matched (rw no' at h))
]

select-none :
    (p : Command → Bool) (cs : List Command) → All (λ d. p d ≡ false) cs → select p cs ≡ []
select-none p [] h = refl
select-none p (c ∷ cs) h = rw (h.0) (select-none p cs h.1)

-- No command goes on with the value behind the path.
abbrev pub IsLast : List Text → Text → List Command → Type 0
IsLast path s cs = All (λ d. in_play (path ++ s ∷ []) d ≡ false) cs

module _ (fmt : Fmt) (command : Command) (c : ParserContext) (there : Memᴰ command c.commands)
    (only : All (IsOnly command) c.commands) (segment : Text) (path : List Text)
    (p : command.path ≡ segment ∷ path) (s : Text) (ends : IsLast command.path s c.commands)
    (allow : c.allow_long_option_value_with_no_equal ≡ true) where
  -- The value is handled once more, in ParseOptionsState, with the command active.
  step-behind :
      (m : Memory)
      → Follows command (begun fmt command c there only) m command.path
      → m.context ≡ c
      → step fmt (token value s) identify_command_state m
        ≡ done
            (reissue_event, parse_options_state, settled command c (begun fmt command c there only))
  unfolding step machine handle on_leave on_enter handle_identify handle_identify_value
      no_command_left leave_identify enter_options
  step-behind m h context =
      let (seen, last, e) = at_end fmt command c there only segment path p m allow h in
      let segments = m.path_segments ++ s ∷ [] in
      let kept : (narrow (length segments) s m.filtered_commands m.last_matched_command).0 ≡ [] =
        narrowed-select s m h.narrowed
        ∙ select-none (in_play segments) m.context.commands (
            subst (λ x. IsLast x s m.context.commands) (sym h.segments)
              (subst (λ x. IsLast command.path s x.commands) (sym context) ends)) in
      let matched =
        narrow-none (length segments) s m.filtered_commands m.last_matched_command kept in
      rw (kept, matched, last) (rw seen e)

  -- From the start to the value.
  pub run-to_value :
      (ts : List Token) (f : ℕ)
      → run_tokens fmt
          (path_rounds command.path (suc f))
          (path_tokens command.path (token value s ∷ ts))
          initial_state
          (begun fmt command c there only)
        ≡ run_tokens fmt f
            (token value s ∷ ts)
            parse_options_state
            (settled command c (begun fmt command c there only))
  run-to_value ts f =
      let (m, e, h) = step-first_segment fmt command c there only segment path p in
      let (m', e', h') =
        run-path fmt command c there only path (segment ∷ []) (token value s ∷ ts) (suc f) m h refl
          (sym p) in
      ap
        (λ xs.
          run_tokens fmt (path_rounds xs (suc f)) (path_tokens xs (token value s ∷ ts))
            initial_state (begun fmt command c there only))
        p
      ∙ run_continue fmt _ _ _ _ _ _ _ refl e
      ∙ e'
      ∙ run_reissue fmt _ _ _ _ _ _ (step-behind m' h' (ap (λ (x : Memory). x.context) h'.erased))
