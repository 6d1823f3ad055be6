-- ===== src/Parser/Loop/Assignments/Rest.antt =====
-- FinalState::OnEnter (clap/src/parser/states.h) for a command with the rest option as its only positional argument.
use asap_clap.Base.{
  true, false, List, [], ◌∷◌, ◌++◌, append_assoc, append-nil, map, ◌≡◌, refl, ap, ◌∙◌, sym, All,
  none, some, Text, text_eq, text_eq_refl, text_eq_iff, done, Bool-cases, inl, inr,
}
use asap_clap.Fsm.{terminate}
use asap_clap.Format.{Fmt}
use asap_clap.Values.{OptionValue, text_value}
use asap_clap.Values.Descriptor.{ValueDescriptor, parse}
use asap_clap.Values.ValuesMap.{
  OptionValuesMap, has_option, store_value, has_option-stored, has_option-store_value,
}
use asap_clap.Commands.{ClapOption, Command, key_rest}
use asap_clap.Parser.Context.{ParserContext}
use asap_clap.Parser.States.ShortOption.{with_context}
use asap_clap.Parser.States.Final.{
  store_parsed, store_positional, store_rest, place, finish, validate, validated, enter_final,
  check_required_options, with_tokens,
}
use asap_clap.Parser.States.Positionals.{IsRest}
use asap_clap.Parser.States.Defaults.{
  AllServed, with_defaults, with_values, check_required_options-with_defaults,
}
use asap_clap.Parser.Machine.{parse_options_state, Memory}
use asap_clap.Parser.States.Handlers.{machine, handle, on_leave, on_enter}
use asap_clap.Parser.States.Options.{handle_options}
use asap_clap.Parser.Loop.{react}
use asap_clap.Parser.Loop.Tokens.{step, run_tokens}
use asap_clap.Parser.Loop.Assignments.Path.{path_tokens, path_rounds}
use asap_clap.Parser.Loop.Assignments.Placed.{run-texts}
use asap_clap.Parser.Loop.Assignments.{ready, settled}

-- The value stored for a token.
abbrev pub entry : Text → OptionValue
entry t = record { value = text_value t; original_token = t; defaulted = true }

-- The rest option, for texts.
pub record IsSegments (o : ClapOption) : Type 0 where
  pub rest : IsRest o
  pub semantics : ValueDescriptor
  pub described : o.value_semantic ≡ some semantics
  pub read : (t : Text) → parse semantics t ≡ some (text_value t)

-- An option that may be left out and has no default value.
pub record IsFree (o : ClapOption) : Type 0 where
  pub semantics : ValueDescriptor
  pub described : o.value_semantic ≡ some semantics
  pub no_default : semantics.default_value ≡ none
  pub optional : o.required ≡ false

abbrev rest_in : Text → List Text → OptionValuesMap → OptionValuesMap
rest_in k [] ovm = ovm
rest_in k (t ∷ ts) ovm = rest_in k ts (store_value k (entry t) ovm)

store_rest-texts :
    (o : ClapOption) (ts : List Text) (c : ParserContext)
    → IsSegments o
    → store_rest o ts c ≡ done (with_values (rest_in o.key ts c.ovm) c)
unfolding store_rest store_positional store_parsed
store_rest-texts o [] c h = refl
store_rest-texts o (t ∷ ts) c h = rw (h.described, h.read) (store_rest-texts o ts _ h)

-- In an empty map, the rest option has its texts in order.
rest_in-pair :
    (k : Text) (vs : List OptionValue) (ts : List Text)
    → rest_in k ts ((k, vs) ∷ []) ≡ (k, vs ++ map entry ts) ∷ []
unfolding store_value
rest_in-pair k vs [] = ap (λ x. (k, x) ∷ []) (sym (append-nil vs))
rest_in-pair k vs (t ∷ ts) = rw (text_eq_refl k) (
    rest_in-pair k (vs ++ entry t ∷ []) ts
    ∙ ap (λ x. (k, x) ∷ []) (append_assoc vs (entry t ∷ []) (map entry ts)))

rest_in-nil : (k t : Text) (ts : List Text) → rest_in k (t ∷ ts) [] ≡ (k, map entry (t ∷ ts)) ∷ []
unfolding store_value
rest_in-nil k t ts = rest_in-pair k (entry t ∷ []) ts

with_defaults-free :
    (os : List ClapOption) (ovm : OptionValuesMap) → All IsFree os → with_defaults os ovm ≡ ovm
with_defaults-free [] ovm h = refl
with_defaults-free (o ∷ os) ovm (f, h) = elim (Bool-cases (has_option o.key ovm)) [
  | inl has ↦ rw has (with_defaults-free os ovm h)
  | inr lacks ↦ rw (lacks, f.described, f.no_default) (with_defaults-free os ovm h)
]

AllServed-free : (os : List ClapOption) (ovm : OptionValuesMap) → All IsFree os → AllServed ovm os
AllServed-free [] ovm h = tt
AllServed-free (o ∷ os) ovm (f, h) = (
  elim (Bool-cases (has_option o.key ovm)) [
    | inl has ↦ rw has refl
    | inr lacks ↦ rw (lacks, f.described, f.optional) refl
  ],
  AllServed-free os ovm h,
)

with_default-there :
    (o : ClapOption) (ovm : OptionValuesMap)
    → has_option o.key ovm ≡ true
    → with_defaults (o ∷ []) ovm ≡ ovm
with_default-there o ovm h = rw h refl

-- The map with the texts of the rest option, and no other value.
abbrev pub only_rest : List Text → OptionValuesMap
only_rest ts = (key_rest, map entry ts) ∷ []

module _ (fmt : Fmt) (command : Command) (o : ClapOption) (segments : IsSegments o)
    (args : command.positional_args ≡ o ∷ []) (free : All IsFree command.options) (t : Text)
    (ts : List Text) (m : Memory) (c : ParserContext) where
  -- The context that FinalState leaves.
  abbrev pub rest_stored : ParserContext
  rest_stored = with_values (only_rest (t ∷ ts)) (with_tokens [] (ready command c))

  place-segments :
      place command.positional_args true none (with_tokens (t ∷ ts) (ready command c))
      ≡ done (some o, with_tokens (t ∷ ts) (ready command c))
  unfolding place
  place-segments = rw args (rw (segments.rest.positional, segments.rest.rest) refl)

  validate-rest_stored : validate fmt command rest_stored ≡ done (none, rest_stored)
  unfolding validate has_option asap_clap.Values.ValuesMap.find text_eq
  validate-rest_stored =
      let key : o.key ≡ key_rest = (text_eq_iff o.key key_rest).0 segments.rest.rest in
      let options =
        check_required_options-with_defaults fmt command.options rest_stored
          (AllServed-free command.options rest_stored.ovm free)
        ∙ ap (λ x. done (none, with_values x rest_stored))
            (with_defaults-free command.options rest_stored.ovm free) in
      let has : has_option o.key rest_stored.ovm ≡ true = rw key refl in
      let positional : check_required_options fmt command.positional_args rest_stored
          ≡ done (none, rest_stored) =
        ap (λ os. check_required_options fmt os rest_stored) args
        ∙ check_required_options-with_defaults fmt (o ∷ []) rest_stored (rw has refl, tt)
        ∙ ap (λ x. done (none, with_values x rest_stored))
            (with_default-there o rest_stored.ovm has) in
      rw (options, positional) refl

  pub enter_final-segments :
      c.ovm ≡ []
      → enter_final fmt (settled command (with_tokens (t ∷ ts) c) m)
        ≡ done (terminate, with_context rest_stored (settled command (with_tokens (t ∷ ts) c) m))
  unfolding enter_final finish validated
  enter_final-segments empty =
      let key : o.key ≡ key_rest = (text_eq_iff o.key key_rest).0 segments.rest.rest in
      let map_is : rest_in o.key (t ∷ ts) c.ovm ≡ only_rest (t ∷ ts) =
        ap (rest_in o.key (t ∷ ts)) empty
        ∙ rest_in-nil o.key t ts
        ∙ ap (λ k. (k, map entry (t ∷ ts)) ∷ []) key in
      let stored : store_rest o (t ∷ ts) (with_tokens (t ∷ ts) (ready command c))
          ≡ done (with_values (only_rest (t ∷ ts)) (with_tokens (t ∷ ts) (ready command c))) =
        store_rest-texts o (t ∷ ts) (with_tokens (t ∷ ts) (ready command c)) segments
        ∙ ap (λ x. done (with_values x (with_tokens (t ∷ ts) (ready command c)))) map_is in
      rw (place-segments, stored, validate-rest_stored) refl

  -- The end of the input.
  run-segments_end :
      c.ovm ≡ []
      → run_tokens fmt 1 [] parse_options_state (settled command (with_tokens (t ∷ ts) c) m)
        ≡ some (done (true, rest_stored))
  unfolding run_tokens react step machine handle on_leave on_enter handle_options
  run-segments_end empty = rw (enter_final-segments empty) refl

  -- The values behind the path, up to the end of the input.
  pub run-segments :
      c.ovm ≡ []
      → c.positional_tokens ≡ []
      → run_tokens fmt
          (path_rounds (t ∷ ts) 1)
          (path_tokens (t ∷ ts) [])
          parse_options_state
          (settled command c m)
        ≡ some (done (true, rest_stored))
  run-segments empty none_yet =
      run-texts fmt command m (t ∷ ts) 1 c
      ∙ ap
          (λ xs.
            run_tokens fmt 1 [] parse_options_state
              (settled command (with_tokens (xs ++ (t ∷ ts)) c) m))
          none_yet
      ∙ run-segments_end empty
