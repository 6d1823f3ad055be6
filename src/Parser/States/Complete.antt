-- ===== src/Parser/States/Complete.antt =====
-- FinalState::OnEnter (clap/src/parser/states.h): what holds of the values map when it lets the parser succeed.
use asap_clap.Base.{
  Bool, true, false, not, ◌||◌, Option-cases, List, [], ◌∷◌, ◌≡◌, refl, ◌∙◌, arith, All, Option,
  none, some, Text, is_empty, inl, inr, Bool-cases, done, ◌>>=◌, >>=-elim, deref, require,
}
use asap_clap.Fsm.{terminate}
use asap_clap.Format.{Fmt}
use asap_clap.Values.Descriptor.{ValueDescriptor, is_some}
use asap_clap.Values.ValuesMap.{OptionValuesMap, has_option}
use asap_clap.Commands.{ClapOption, Command, is_positional, is_positional_rest}
use asap_clap.Parser.Context.{ParserContext}
use asap_clap.Parser.States.Final.{
  store_parsed, store_positional, place, store_rest, pick, with_tokens, validate, validated, finish,
  enter_final,
}
use asap_clap.Parser.Errors.{unexpected_positional_arguments}
use asap_clap.Parser.States.ShortOption.{with_context}
use asap_clap.Parser.Machine.{Memory, fail}
use asap_clap.Parser.States.Required.{IsFilled, validate_filled}

-- An option that is required, or that has a default value.
abbrev has_default : Option ValueDescriptor → Bool
has_default none = false
has_default (some d) = is_some d.default_value

abbrev pub needs_value : ClapOption → Bool
needs_value o = o.required || has_default o.value_semantic

-- An option that has a value in the map, or needs none.
abbrev pub is_satisfied : OptionValuesMap → ClapOption → Bool
is_satisfied ovm o = has_option o.key ovm || not (needs_value o)

abbrev pub IsSatisfied : OptionValuesMap → ClapOption → Type 0
IsSatisfied ovm o = is_satisfied ovm o ≡ true

module _ (fmt : Fmt) where
  -- With no value, the option is not required and has no default value.
  no_default :
      (ovm : OptionValuesMap) (o : ClapOption) (s : Option ValueDescriptor)
      → o.value_semantic ≡ s
      → IsFilled ovm o
      → has_option o.key ovm ≡ false
      → has_default s ≡ false
  no_default ovm o none e f lacks = refl
  no_default ovm o (some d) e f lacks = elim (Option-cases d.default_value) [
    | inl absent ↦ rw absent refl
    | inr (v, given) ↦ absurd (let has = f.if_defaulted d v e given in cc)
  ]

  lacking_satisfied :
      (ovm : OptionValuesMap) (o : ClapOption) (s : Option ValueDescriptor)
      → o.value_semantic ≡ s
      → IsFilled ovm o
      → has_option o.key ovm ≡ false
      → not (o.required || has_default s) ≡ true
  lacking_satisfied ovm o s e f lacks = elim (Bool-cases o.required) [
    | inl needed ↦ absurd (let has = f.if_required needed in cc)
    | inr free ↦ rw (free, no_default ovm o s e f lacks) refl
  ]

  filled_satisfied :
      (ovm : OptionValuesMap) (o : ClapOption) (s : Option ValueDescriptor)
      → o.value_semantic ≡ s
      → IsFilled ovm o
      → (has_option o.key ovm || not (o.required || has_default s)) ≡ true
  filled_satisfied ovm o s e f = elim (Bool-cases (has_option o.key ovm)) [
    | inl has ↦ rw has refl
    | inr lacks ↦ rw lacks (lacking_satisfied ovm o s e f lacks)
  ]

  All-IsSatisfied :
      (ovm : OptionValuesMap) (os : List ClapOption)
      → All (IsFilled ovm) os
      → All (IsSatisfied ovm) os
  All-IsSatisfied ovm [] a = tt
  All-IsSatisfied ovm (o ∷ os) (f, a) =
      (filled_satisfied ovm o o.value_semantic refl f, All-IsSatisfied ovm os a)

  -- What FinalState leaves when it ends the parse with success.
  abbrev pub Complete : Command → ParserContext → Type 0
  Complete command c =
      (c.active_command ≡ some command)
      × (c.positional_tokens ≡ [])
      × All (IsSatisfied c.ovm) command.options
      × All (IsSatisfied c.ovm) command.positional_args

  validated-terminate :
      (m m' : Memory) (why : Option Text) (c : ParserContext)
      → validated fmt m (why, c) ≡ done (terminate, m')
      → (why ≡ none) × (c ≡ m'.context)
  unfolding validated
  validated-terminate m m' none c e = (refl, ground arith)
  validated-terminate m m' (some w) c e = absurd (ground arith)

  validated-Complete :
      (command : Command) (m m' : Memory) (c : ParserContext)
      → c.active_command ≡ some command
      → c.positional_tokens ≡ []
      → (validate fmt command c >>= validated fmt m) ≡ done (terminate, m')
      → Complete command m'.context
  validated-Complete command m m' c p q e = >>=-elim (validate fmt command c) _ e (λ r here now.
      let (passes, same) = validated-terminate m m' r.0 r.1 now in
      let (g, a) = validate_filled fmt command c r.1 (rw (← passes) here) in
      rw (← same) (
        g.same_command ∙ p,
        g.same_tokens ∙ q,
        All-IsSatisfied r.1.ovm command.options a.0,
        All-IsSatisfied r.1.ovm command.positional_args a.1,
      ))

  -- Values are stored, and the command stays.
  store_positional-command :
      (o : ClapOption) (token : Text) (c c' : ParserContext)
      → store_positional o token c ≡ done c'
      → c'.active_command ≡ c.active_command
  unfolding store_positional store_parsed
  store_positional-command o token c c' e = ground arith

  store_rest-command :
      (o : ClapOption) (tokens : List Text) (c c' : ParserContext)
      → store_rest o tokens c ≡ done c'
      → c'.active_command ≡ c.active_command
  unfolding store_rest
  store_rest-command o [] c c' e = ground arith
  store_rest-command o (token ∷ tokens) c c' e =
      >>=-elim (store_positional o token c) _ e (λ c1 here now.
        store_rest-command o tokens c1 c' now ∙ store_positional-command o token c c1 here)

  place-command :
      (os : List ClapOption) (before_rest : Bool) (r r' : Option ClapOption) (c c' : ParserContext)
      → place os before_rest r c ≡ done (r', c')
      → c'.active_command ≡ c.active_command
  unfolding place
  place-command [] before_rest r r' c c' e = ground arith
  place-command (o ∷ os) before_rest r r' c c' e =
      >>=-elim (require (is_positional o)) _ e (λ _ _ e'. elim (Bool-cases (is_positional_rest o)) [
        | inl rest ↦ place-command os false (some o) r' c c' (rw rest at e')
        | inr plain ↦ >>=-elim (pick before_rest c.positional_tokens) _ (rw plain at e') (λ t _ e''.
            >>=-elim (store_positional o t.0 c) _ e'' (λ c1 here now.
              place-command os before_rest r r' (with_tokens t.1 c1) c' now
              ∙ store_positional-command o t.0 c c1 here))
      ])

  is_empty-nil : (ts : List Text) → is_empty ts ≡ true → ts ≡ []
  is_empty-nil [] e = refl
  is_empty-nil (t ∷ ts) e = cc

  finish_rest :
      (command : Command) (r : Option ClapOption) (m m' : Memory) (c : ParserContext)
      → c.active_command ≡ some command
      → (elim r [
        | none ↦ fail (unexpected_positional_arguments fmt c none) (with_context c m)
        | some o ↦ store_rest o c.positional_tokens c >>= λ stored.
            validate fmt command (with_tokens [] stored) >>= validated fmt m
      ])
        ≡ done (terminate, m')
      → Complete command m'.context
  finish_rest command none m m' c p e = absurd (ground arith)
  finish_rest command (some o) m m' c p e =
      >>=-elim (store_rest o c.positional_tokens c) _ e (λ stored here now.
        validated-Complete command m m' (with_tokens [] stored)
          (store_rest-command o c.positional_tokens c stored here ∙ p) refl now)

  finish-Complete :
      (command : Command) (r : Option ClapOption) (m m' : Memory) (c : ParserContext)
      → c.active_command ≡ some command
      → finish fmt command r m c ≡ done (terminate, m')
      → Complete command m'.context
  unfolding finish
  finish-Complete command r m m' c p e = elim (Bool-cases (is_empty c.positional_tokens)) [
    | inl none_left ↦
        validated-Complete command m m' c p (is_empty-nil c.positional_tokens none_left)
          (rw none_left at e)
    | inr left ↦ finish_rest command r m m' c p (rw left at e)
  ]

  deref-some : (o : Option Command) (c : Command) → deref o ≡ done c → o ≡ some c
  deref-some none c e = absurd cc
  deref-some (some d) c e = ground arith

  -- FinalState lets the parser succeed only with no positional token left, and with a value for
  -- every option of the active command that is required or has a default value.
  pub enter_final-Complete :
      (m m' : Memory)
      → enter_final fmt m ≡ done (terminate, m')
      → (command : Command) × Complete command m'.context
  unfolding enter_final
  enter_final-Complete m m' e =
      >>=-elim (deref m.context.active_command) _ e (λ command here placing.
        >>=-elim (place command.positional_args true none m.context) _ placing
          (λ r placed finishing. (
            command,
            finish-Complete command r.0 m m' r.1
                (place-command command.positional_args true none r.0 m.context r.1 placed
                  ∙ deref-some m.context.active_command command here)
                finishing,
          )))
