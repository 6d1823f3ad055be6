-- ===== src/Parser/Loop/Assignments/Placed.antt =====
-- clap/src/parser/parser.cpp and states.h: `Parse` on positional arguments, up to the end of the input.
use asap_clap.Base.{
  ℕ, suc, true, List, [], ◌∷◌, ◌++◌, append-nil, append_assoc, ◌≡◌, refl, sym, ap, ◌∙◌, subst, All,
  length, none, some, Text, done,
}
use asap_clap.Fsm.{continue, terminate}
use asap_clap.Format.{Fmt}
use asap_clap.Tokenizer.{token, value}
use asap_clap.Tokenizer.Stream.{front}
use asap_clap.Values.{Any}
use asap_clap.Values.Descriptor.{ValueDescriptor, parse}
use asap_clap.Values.ValuesMap.{OptionValuesMap, store_value}
use asap_clap.Commands.{ClapOption, Command}
use asap_clap.Parser.Context.{ParserContext, store}
use asap_clap.Parser.States.Handlers.{machine, handle, on_leave, on_enter}
use asap_clap.Parser.States.Options.{handle_options}
use asap_clap.Parser.States.ShortOption.{with_context}
use asap_clap.Parser.States.Final.{
  enter_final, place, finish, validate, validated, store_parsed, with_tokens,
  check_required_options,
}
use asap_clap.Parser.States.Missing.{IsPlain}
use asap_clap.Parser.States.Positionals.{given, given_all, place-fronts}
use asap_clap.Parser.States.Defaults.{
  AllServed, with_defaults, with_values, check_required_options-with_defaults,
}
use asap_clap.Parser.Machine.{parse_options_state, Memory}
use asap_clap.Parser.Loop.{react}
use asap_clap.Parser.Loop.Tokens.{step, run_tokens}
use asap_clap.Parser.Loop.Assignments.{ready, settled, opens}
use asap_clap.Parser.Loop.Assignments.Run.{run_continue}
use asap_clap.Parser.Loop.Assignments.Path.{path_tokens, path_rounds}

-- A positional option, and the text of its value.
pub record Placement : Type 0 where
  pub option : ClapOption
  pub semantics : ValueDescriptor
  pub text : Text
  pub value : Any

-- The option is a positional one, not for the rest, and its descriptor reads the text as the value.
pub record Takes (p : Placement) : Type 0 where
  pub plain : IsPlain p.option
  pub described : p.option.value_semantic ≡ some p.semantics
  pub read : parse p.semantics p.text ≡ some p.value

abbrev pub options_of : List Placement → List ClapOption
options_of [] = []
options_of (p ∷ ps) = p.option ∷ options_of ps

abbrev pub texts_of : List Placement → List Text
texts_of [] = []
texts_of (p ∷ ps) = p.text ∷ texts_of ps

-- The map with the values behind those of the options; the flag of a value is true.
abbrev pub all_placed : List Placement → OptionValuesMap → OptionValuesMap
all_placed [] ovm = ovm
all_placed (p ∷ ps) ovm = all_placed ps (
    store_value p.option.key (record { value = p.value; original_token = p.text; defaulted = true })
      ovm)

abbrev all_stored : List Placement → ParserContext → ParserContext
all_stored [] c = c
all_stored (p ∷ ps) c =
    all_stored ps
      (store p.option.key (record { value = p.value; original_token = p.text; defaulted = true }) c)

length-texts_of : (ps : List Placement) → length (texts_of ps) ≡ length (options_of ps)
length-texts_of [] = refl
length-texts_of (p ∷ ps) = ap suc (length-texts_of ps)

All-IsPlain : (ps : List Placement) → All Takes ps → All IsPlain (options_of ps)
All-IsPlain [] h = tt
All-IsPlain (p ∷ ps) h = (h.0.plain, All-IsPlain ps h.1)

given_all-all_stored :
    (ps : List Placement) (c : ParserContext)
    → All Takes ps
    → given_all (options_of ps) (texts_of ps) c ≡ all_stored ps c
unfolding given_all given store_parsed
given_all-all_stored [] c h = refl
given_all-all_stored (p ∷ ps) c h = rw (h.0.described, h.0.read) (given_all-all_stored ps _ h.1)

all_stored-all_placed :
    (ps : List Placement) (c : ParserContext)
    → ((all_stored ps c).ovm ≡ all_placed ps c.ovm)
      × ((all_stored ps c).active_command ≡ c.active_command)
      × ((all_stored ps c).err ≡ c.err)
      × ((all_stored ps c).out ≡ c.out)
all_stored-all_placed [] c = (refl, refl, refl, refl)
all_stored-all_placed (p ∷ ps) c = all_stored-all_placed ps _

place-all_stored :
    (ps : List Placement) (c : ParserContext)
    → All Takes ps
    → place (options_of ps) true none (with_tokens (texts_of ps) c)
      ≡ done (none, with_tokens [] (all_stored ps c))
unfolding place
place-all_stored ps c h =
    ap (λ os. place os true none (with_tokens (texts_of ps) c)) (sym (append-nil (options_of ps)))
    ∙ ap (λ ts. place (options_of ps ++ []) true none (with_tokens ts c))
        (sym (append-nil (texts_of ps)))
    ∙ place-fronts (options_of ps) [] (texts_of ps) [] c (All-IsPlain ps h) (length-texts_of ps)
    ∙ ap (λ x. done (none, with_tokens [] x)) (given_all-all_stored ps c h)

pub opens-texts : (ts : List Text) → opens (front (path_tokens ts [])).token_type ≡ true
opens-texts [] = refl
opens-texts (t ∷ ts) = refl

module _ (fmt : Fmt) (command : Command) (m : Memory) where
  step-value :
      (s : Text) (c : ParserContext)
      → step fmt (token value s) parse_options_state (settled command c m)
        ≡ done (
          continue,
          parse_options_state,
          settled command (with_tokens (c.positional_tokens ++ s ∷ []) c) m,
        )
  unfolding step machine handle handle_options
  step-value s c = refl

  -- Values behind the options are kept for FinalState.
  pub run-texts :
      (ts : List Text) (f : ℕ) (c : ParserContext)
      → run_tokens fmt
          (path_rounds ts f)
          (path_tokens ts [])
          parse_options_state
          (settled command c m)
        ≡ run_tokens fmt f [] parse_options_state
            (settled command (with_tokens (c.positional_tokens ++ ts) c) m)
  run-texts [] f c =
      ap (λ ts. run_tokens fmt f [] parse_options_state (settled command (with_tokens ts c) m))
        (sym (append-nil c.positional_tokens))
  run-texts (s ∷ ts) f c =
      run_continue fmt _ _ _ _ _ _ _ refl (step-value s c)
      ∙ run-texts ts f (with_tokens (c.positional_tokens ++ s ∷ []) c)
      ∙ ap (λ ts. run_tokens fmt f [] parse_options_state (settled command (with_tokens ts c) m))
          (append_assoc c.positional_tokens (s ∷ []) ts)

  module _ (ps : List Placement) (c : ParserContext) where
    abbrev stored : ParserContext
    stored = with_tokens [] (all_stored ps (ready command c))

    -- The context that FinalState leaves.
    abbrev pub finished : ParserContext
    finished =
        with_values
          (with_defaults command.positional_args (with_defaults command.options stored.ovm)) stored

    stored-all_placed : stored.ovm ≡ all_placed ps c.ovm
    stored-all_placed = (all_stored-all_placed ps (ready command c)).0

    pub finished-all_placed :
        (finished.active_command ≡ some command)
        × (finished.ovm
            ≡ with_defaults command.positional_args
                (with_defaults command.options (all_placed ps c.ovm)))
        × (finished.err ≡ c.err)
        × (finished.out ≡ c.out)
    finished-all_placed =
        let kept = all_stored-all_placed ps (ready command c) in
        (
          kept.1,
          ap (λ o. with_defaults command.positional_args (with_defaults command.options o)) kept.0,
          kept.2,
          kept.3,
        )

    enter_final-finished :
        command.positional_args ≡ options_of ps
        → c.positional_tokens ≡ texts_of ps
        → All Takes ps
        → AllServed (all_placed ps c.ovm) command.options
        → AllServed (with_defaults command.options (all_placed ps c.ovm)) command.positional_args
        → enter_final fmt (settled command c m)
          ≡ done (terminate, with_context finished (settled command c m))
    unfolding enter_final finish validate validated check_required_options
    enter_final-finished q t takes served served' =
        let placed : place command.positional_args true none (ready command c)
            ≡ done (none, stored) =
          ap (λ os. place os true none (ready command c)) q
          ∙ ap (λ ts. place (options_of ps) true none (with_tokens ts (ready command c))) t
          ∙ place-all_stored ps (ready command c) takes in
        let options =
          check_required_options-with_defaults fmt command.options stored
            (subst (λ o. AllServed o command.options) (sym stored-all_placed) served) in
        let positional =
          check_required_options-with_defaults fmt command.positional_args
            (with_values (with_defaults command.options stored.ovm) stored)
            (subst (λ o. AllServed (with_defaults command.options o) command.positional_args)
              (sym stored-all_placed) served') in
        rw (placed, options, positional) refl

    -- The end of the input.
    run-finished :
        command.positional_args ≡ options_of ps
        → c.positional_tokens ≡ texts_of ps
        → All Takes ps
        → AllServed (all_placed ps c.ovm) command.options
        → AllServed (with_defaults command.options (all_placed ps c.ovm)) command.positional_args
        → run_tokens fmt 1 [] parse_options_state (settled command c m)
          ≡ some (done (true, finished))
    unfolding run_tokens react step machine handle on_leave on_enter handle_options
    run-finished q t takes served served' = rw (enter_final-finished q t takes served served') refl

  -- Positional arguments up to the end of the input.
  pub run-placed :
      (ps : List Placement) (c : ParserContext)
      → command.positional_args ≡ options_of ps
      → c.positional_tokens ≡ []
      → All Takes ps
      → AllServed (all_placed ps c.ovm) command.options
      → AllServed (with_defaults command.options (all_placed ps c.ovm)) command.positional_args
      → run_tokens fmt
          (path_rounds (texts_of ps) 1)
          (path_tokens (texts_of ps) [])
          parse_options_state
          (settled command c m)
        ≡ some (done (true, finished ps (with_tokens (texts_of ps) c)))
  run-placed ps c q t takes served served' =
      run-texts (texts_of ps) 1 c
      ∙ ap
          (λ ts.
            run_tokens fmt 1 [] parse_options_state
              (settled command (with_tokens (ts ++ texts_of ps) c) m))
          t
      ∙ run-finished ps (with_tokens (texts_of ps) c) q refl takes served served'
