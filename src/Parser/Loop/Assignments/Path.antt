-- ===== src/Parser/Loop/Assignments/Path.antt =====
-- clap/src/parser/parser.cpp: `Parse` on the path of a command, up to the first option behind it.
use asap_clap.Base.{
  ℕ, suc, ◌+◌, true, false, List, [], ◌∷◌, ◌++◌, append_assoc, append-nil, ◌≡◌, refl, sym, ap, ◌∙◌,
  subst, arith, All, Memᴰ, length, some, Text, text_eq_refl, is_empty, done, Outcome, Bool-cases,
  inl, inr,
}
use asap_clap.Fsm.{Status, continue, reissue_event}
use asap_clap.Format.{Fmt}
use asap_clap.Tokenizer.{Token, token, value}
use asap_clap.Tokenizer.Stream.{front, arg_tokens}
use asap_clap.Commands.{Command}
use asap_clap.Parser.Context.{ParserContext, set_active_command}
use asap_clap.Parser.States.Handlers.{machine, handle, on_leave, on_enter}
use asap_clap.Parser.States.Initial.{starts_path, maybe_command, handle_initial}
use asap_clap.Parser.States.Identify.{
  handle_identify, handle_identify_other, end_of_path, leave_identify,
}
use asap_clap.Parser.States.Narrowing.{is_prefix, in_play}
use asap_clap.Parser.States.Options.{enter_options}
use asap_clap.Parser.States.Path.{
  IsOnly, Follows, erase, prefix-append, handle_identify-Follows, enter_identify-Follows,
  Follows-last_match,
}
use asap_clap.Parser.Machine.{
  State, initial_state, identify_command_state, parse_options_state, Memory, new_memory,
}
use asap_clap.Parser.Loop.Tokens.{step, run_tokens}
use asap_clap.Parser.Loop.Assignments.{Form, with_equal, with_space, short_form, settled}
use asap_clap.Parser.Loop.Assignments.Run.{tokens_by, run_continue, run_reissue}
use asap_clap.Parser.Loop.Assignments.Written.{is_value, arg_tokens-value}

abbrev pub path_tokens : List Text → List Token → List Token
path_tokens [] ts = ts
path_tokens (s ∷ path) ts = token value s ∷ path_tokens path ts

-- One round for each segment.
abbrev pub path_rounds : List Text → ℕ → ℕ
path_rounds [] f = f
path_rounds (s ∷ path) f = suc (path_rounds path f)

pub path_rounds-length : (path : List Text) (f : ℕ) → path_rounds path f ≡ length path + f
path_rounds-length [] f = omega arith
path_rounds-length (s ∷ path) f = omega (arith, path_rounds-length path f)

pub arg_tokens-path :
    (path args : List Text)
    → All (λ s. is_value b'-' s ≡ true) path
    → arg_tokens (path ++ args) ≡ path_tokens path (arg_tokens args)
arg_tokens-path [] args h = refl
arg_tokens-path (s ∷ path) args h =
    arg_tokens-value s (path ++ args) h.0
    ∙ ap (λ ts. token value s ∷ ts) (arg_tokens-path path args h.1)

maybe_command-there :
    (command : Command) (cs : List Command) (segment : Text)
    → starts_path segment command.path ≡ true
    → Memᴰ command cs
    → maybe_command cs segment ≡ true
unfolding maybe_command
maybe_command-there command [] segment h m = elim m [ ]
maybe_command-there command (c ∷ cs) segment h (Memᴰ.head e) =
    let first : starts_path segment c.path ≡ true = rw (← e) h in rw first refl
maybe_command-there command (c ∷ cs) segment h (Memᴰ.tail m) =
    let later = maybe_command-there command cs segment h m in
    elim (Bool-cases (starts_path segment c.path)) [
      | inl yes' ↦ rw yes' refl
      | inr no' ↦ rw no' later
    ]

not_empty : (xs : List Text) (x : Text) → is_empty (xs ++ x ∷ []) ≡ false
not_empty [] x = refl
not_empty (y ∷ xs) x = refl

-- The parser begins in the context, with no other command of the path.
module _ (fmt : Fmt) (command : Command) (c : ParserContext) (there : Memᴰ command c.commands)
    (only : All (IsOnly command) c.commands) where
  abbrev pub begun : Memory
  begun = new_memory c

  step-segment :
      (s : Text) (m : Memory) (seen : List Text)
      → Follows command begun m seen
      → is_empty seen ≡ false
      → in_play (seen ++ s ∷ []) command ≡ true
      → (m' : Memory) × (step fmt (token value s) identify_command_state m
          ≡ done (continue, identify_command_state, m'))
        × Follows command begun m' (seen ++ s ∷ [])
  unfolding step machine handle
  step-segment s m seen h left p =
      let (m', e, h') = handle_identify-Follows command begun there only fmt s m seen h left p in
      (m', rw e refl, h')

  pub run-path :
      (path seen : List Text) (ts : List Token) (f : ℕ) (m : Memory)
      → Follows command begun m seen
      → is_empty seen ≡ false
      → seen ++ path ≡ command.path
      → (m' : Memory) × (run_tokens fmt
            (path_rounds path f)
            (path_tokens path ts)
            identify_command_state
            m
          ≡ run_tokens fmt f ts identify_command_state m')
        × Follows command begun m' command.path
  run-path [] seen ts f m h left p =
      (m, refl, subst (Follows command begun m) (sym (append-nil seen) ∙ p) h)
  run-path (s ∷ path) seen ts f m h left p =
      let whole : (seen ++ s ∷ []) ++ path ≡ command.path = append_assoc seen (s ∷ []) path ∙ p in
      let begins : in_play (seen ++ s ∷ []) command ≡ true =
        ap (is_prefix (seen ++ s ∷ [])) (sym whole) ∙ prefix-append (seen ++ s ∷ []) path in
      let (m', e, h') = step-segment s m seen h left begins in
      let (m'', e', h'') = run-path path (seen ++ s ∷ []) ts f m' h' (not_empty seen s) whole in
      (m'', run_continue fmt _ _ _ _ _ _ _ refl e ∙ e', h'')

  module _ (segment : Text) (path : List Text) (p : command.path ≡ segment ∷ path) where
    pub step-first_segment :
        (m' : Memory) × (step fmt (token value segment) initial_state begun
          ≡ done (continue, identify_command_state, m'))
        × Follows command begun m' (segment ∷ [])
    unfolding step machine handle on_leave on_enter handle_initial
    step-first_segment =
        let begins : in_play (segment ∷ []) command ≡ true = rw (p, text_eq_refl segment) refl in
        let starts : starts_path segment command.path ≡ true = rw (p, text_eq_refl segment) refl in
        let (m', e, h) =
          enter_identify-Follows command begun there only segment refl refl refl begins in
        (m', rw (maybe_command-there command c.commands segment starts there, e) refl, h)

    -- The memory that IdentifyCommandState leaves, with the command active.
    abbrev pub activated : Memory → Memory
    activated m = record m {
      context = set_active_command command m.context;
      options_has_context = true;
    }

    activated-settled :
        (m : Memory)
        → c.allow_long_option_value_with_no_equal ≡ true
        → erase m ≡ erase begun
        → activated (erase m) ≡ settled command c begun
    activated-settled m allow e =
        ap activated e
        ∙ ap
            (λ b. record (activated begun) {
              context = record c {
                base = record c.base {
                  active_command = some command;
                  allow_long_option_value_with_no_equal = b;
                };
              };
            })
            allow

    -- The option is handled once more, in ParseOptionsState.
    abbrev pub goes_on : Memory → Outcome (Status × State × Memory)
    goes_on m = done (reissue_event, parse_options_state, m)

    -- What the end of the path takes from the memory, and what it makes of it.
    pub at_end :
        (m : Memory)
        → c.allow_long_option_value_with_no_equal ≡ true
        → Follows command begun m command.path
        → (m.path_segments ≡ segment ∷ path)
          × (m.last_matched_command ≡ some command)
          × (goes_on (activated (erase m)) ≡ goes_on (settled command c begun))
    at_end m allow h = (
      h.segments ∙ p,
      Follows-last_match command begun there only m segment path p h,
      ap goes_on (activated-settled m allow h.erased),
    )

    -- The first option behind the path: the command is the active one.
    step-option :
        (form : Form) (word text : Text) (ts : List Token) (m : Memory)
        → c.allow_long_option_value_with_no_equal ≡ true
        → Follows command begun m command.path
        → step fmt (front (tokens_by form word text ++ ts)) identify_command_state m
          ≡ done (reissue_event, parse_options_state, settled command c begun)
    unfolding step machine handle on_leave on_enter handle_identify handle_identify_other
        end_of_path leave_identify enter_options
    step-option with_equal word text ts m allow h =
        let (seen, last, e) = at_end m allow h in rw (seen, last) e
    step-option with_space word text ts m allow h =
        let (seen, last, e) = at_end m allow h in rw (seen, last) e
    step-option short_form word text ts m allow h =
        let (seen, last, e) = at_end m allow h in rw (seen, last) e

    -- From the start to the first option.
    pub run-to_option :
        (form : Form) (word text : Text) (ts : List Token) (f : ℕ)
        → c.allow_long_option_value_with_no_equal ≡ true
        → run_tokens fmt
            (path_rounds command.path (suc f))
            (path_tokens command.path (tokens_by form word text ++ ts))
            initial_state
            begun
          ≡ run_tokens fmt f
              (tokens_by form word text ++ ts)
              parse_options_state
              (settled command c begun)
    run-to_option form word text ts f allow =
        let (m, e, h) = step-first_segment in
        let (m', e', h') =
          run-path path (segment ∷ []) (tokens_by form word text ++ ts) (suc f) m h refl (sym p) in
        ap
          (λ xs.
            run_tokens fmt (path_rounds xs (suc f))
              (path_tokens xs (tokens_by form word text ++ ts)) initial_state begun)
          p
        ∙ run_continue fmt _ _ _ _ _ _ _ refl e
        ∙ e'
        ∙ run_reissue fmt _ _ _ _ _ _ (step-option form word text ts m' allow h')
