-- ===== src/Parser/States/Final.antt =====
-- clap/src/parser/states.h, FinalState: hands the positional arguments out, and fills in and checks what was not given.
use asap_clap.Base.{
  Bool, true, false, List, [], ◌∷◌, Option, none, some, Text, is_empty, if◌then◌else◌, Outcome,
  done, fault, undefined_behaviour, ◌>>=◌, ◌>>◌, require, deref,
}
use asap_clap.Fsm.{terminate}
use asap_clap.Format.{Fmt}
use asap_clap.Values.Descriptor.{is_some, parse, apply_default}
use asap_clap.Values.{Any}
use asap_clap.Values.ValuesMap.{has_option}
use asap_clap.Commands.{ClapOption, Command, is_positional, is_positional_rest}
use asap_clap.Parser.Context.{ParserContext, store}
use asap_clap.Parser.Errors.{unexpected_positional_arguments, missing_required_option, first}
use asap_clap.Parser.States.Identify.{pop_back}
use asap_clap.Parser.States.ShortOption.{with_context}
use asap_clap.Parser.Machine.{Memory, Entered, fail}

-- A positional value that was parsed, or was not: then it is dropped.
unfoldable pub store_parsed : ClapOption → Text → Option Any → ParserContext → ParserContext
store_parsed option token none context = context
store_parsed option token (some v) context =
    store option.key (record { value = v; original_token = token; defaulted = true }) context

-- StorePositional
unfoldable pub store_positional : ClapOption → Text → ParserContext → Outcome ParserContext
unfolding store_parsed
store_positional option token context = do
  require (is_some option.value_semantic)
  semantics ← deref option.value_semantic
  done (store_parsed option token (parse semantics token) context)

-- The last element of a vector; of an empty one it is undefined behaviour.
abbrev pub last {ℓ} : {A : Type ℓ} → List A → Outcome A
last [] = fault undefined_behaviour
last (x ∷ []) = done x
last (x ∷ y ∷ xs) = last (y ∷ xs)

abbrev pub drop_first {ℓ} : {A : Type ℓ} → List A → List A
drop_first [] = []
drop_first (_ ∷ xs) = xs

abbrev pub with_tokens : List Text → ParserContext → ParserContext
with_tokens tokens context = record context { positional_tokens = tokens }

-- The token taken for a positional option, and those that are left: from the front while no rest
-- option was met, and from the back after it.
unfoldable pub pick : Bool → List Text → Outcome (Text × List Text)
pick true tokens = first tokens >>= λ token. done (token, drop_first tokens)
pick false tokens = last tokens >>= λ token. done (token, pop_back tokens)

-- The loop over `PositionalArguments()`, with its variables `before_rest` and `rest_option`.
unfoldable pub place :
    List ClapOption
    → Bool
    → Option ClapOption
    → ParserContext
    → Outcome (Option ClapOption × ParserContext)
unfolding pick
place [] before_rest rest_option context = done (rest_option, context)
place (option ∷ options) before_rest rest_option context =
    require (is_positional option) >> elim (is_positional_rest option) [
      | true ↦ place options false (some option) context
      | false ↦ pick before_rest context.positional_tokens >>= λ r.
          store_positional option r.0 context >>= λ stored.
          place options before_rest rest_option (with_tokens r.1 stored)
    ]

-- The loop that puts the rest in `rest_option`.
unfoldable pub store_rest : ClapOption → List Text → ParserContext → Outcome ParserContext
store_rest option [] context = done context
store_rest option (token ∷ tokens) context =
    store_positional option token context >>= λ stored. store_rest option tokens stored

-- One round of CheckRequiredOptions: the text of the exception that it throws, if it does, and the
-- context.
module _ (fmt : Fmt) where
  unfoldable pub apply_or_miss :
      ClapOption → Option (Any × Text) → ParserContext → Option Text × ParserContext
  apply_or_miss option none context = (
    if option.required
        then some (missing_required_option fmt context.active_command option none)
        else none,
    context,
  )
  apply_or_miss option (some (v, s)) context =
      (none, store option.key (record { value = v; original_token = s; defaulted = false }) context)

  unfoldable pub check_option : ClapOption → ParserContext → Outcome (Option Text × ParserContext)
  unfolding apply_or_miss
  check_option option context =
      if has_option option.key context.ovm
      then done (none, context)
      else deref option.value_semantic >>= λ semantics.
          done (apply_or_miss option (apply_default semantics) context)

  -- CheckRequiredOptions
  unfoldable pub check_required_options :
      List ClapOption → ParserContext → Outcome (Option Text × ParserContext)
  check_required_options [] context = done (none, context)
  check_required_options (option ∷ options) context = check_option option context >>= λ r.
      elim r.0 [ none ↦ check_required_options options r.1 | some why ↦ done (some why, r.1) ]

  -- The two calls under `try`, the second one made if the first throws nothing.
  unfoldable pub validate : Command → ParserContext → Outcome (Option Text × ParserContext)
  unfolding check_required_options
  validate command context = check_required_options command.options context >>= λ r. elim r.0 [
    | none ↦ check_required_options command.positional_args r.1
    | some why ↦ done (some why, r.1)
  ]

  unfoldable pub validated : Memory → Option Text × ParserContext → Entered
  validated m (none, context) = done (terminate, with_context context m)
  validated m (some why, context) = fail why (with_context context m)

  -- From where the positional options have their values: the tokens left, and the checks.
  unfoldable pub finish : Command → Option ClapOption → Memory → ParserContext → Entered
  unfolding validated
  finish command rest_option m context =
      if is_empty context.positional_tokens
      then validate command context >>= validated m
      else elim rest_option [
        | none ↦ fail (unexpected_positional_arguments fmt context none) (with_context context m)
        | some option ↦ store_rest option context.positional_tokens context >>= λ stored.
            validate command (with_tokens [] stored) >>= validated m
      ]

  -- OnEnter
  unfoldable pub enter_final : Memory → Entered
  unfolding finish
  enter_final m = do
    command ← deref m.context.active_command
    (rest_option, context) ← place command.positional_args true none m.context
    finish command rest_option m context
