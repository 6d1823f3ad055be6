-- ===== src/Parser/States/Defaults.antt =====
-- The checks of FinalState in clap/src/parser/states.h: when they pass, and the values that they store.
use asap_clap.Base.{
  Bool, true, false, not, ◌||◌, List, [], ◌∷◌, ◌≡◌, refl, ap, arith, All, Option, none, some, Text,
  inl, inr, Bool-cases, done, ◌>>=◌, deref, if◌then◌else◌,
}
use asap_clap.Format.{Fmt}
use asap_clap.Values.{Any}
use asap_clap.Values.Descriptor.{ValueDescriptor, apply_default, with_text, is_some}
use asap_clap.Values.ValuesMap.{OptionValuesMap, has_option, store_value, has_option-stored}
use asap_clap.Commands.{ClapOption}
use asap_clap.Parser.Context.{ParserContext}
use asap_clap.Parser.States.Final.{apply_or_miss, check_option, check_required_options}

-- The values with the default value of each option that has no value, in the order of the options.
abbrev defaulted : Text → Option Any → Text → OptionValuesMap → OptionValuesMap
defaulted key none s ovm = ovm
defaulted key (some v) s ovm =
    store_value key (record { value = v; original_token = s; defaulted = false }) ovm

abbrev with_default_of : Text → Option ValueDescriptor → OptionValuesMap → OptionValuesMap
with_default_of key none ovm = ovm
with_default_of key (some d) ovm = defaulted key d.default_value d.default_value_as_text ovm

abbrev with_default : ClapOption → OptionValuesMap → OptionValuesMap
with_default o ovm =
    if has_option o.key ovm then ovm else with_default_of o.key o.value_semantic ovm

abbrev pub with_defaults : List ClapOption → OptionValuesMap → OptionValuesMap
with_defaults [] ovm = ovm
with_defaults (o ∷ os) ovm = with_defaults os (with_default o ovm)

-- An option that has a value, or whose descriptor has a default value if the option is required.
abbrev described_well : Bool → Option ValueDescriptor → Bool
described_well required none = false
described_well required (some d) = not required || is_some d.default_value

abbrev pub served : OptionValuesMap → ClapOption → Bool
served ovm o = has_option o.key ovm || described_well o.required o.value_semantic

abbrev pub AllServed : OptionValuesMap → List ClapOption → Type 0
AllServed ovm os = All (λ o. served ovm o ≡ true) os

abbrev pub with_values : OptionValuesMap → ParserContext → ParserContext
with_values ovm c = record c { base = record c.base { ovm = ovm } }

has_option-defaulted :
    (k key : Text) (default : Option Any) (s : Text) (ovm : OptionValuesMap)
    → has_option k ovm ≡ true
    → has_option k (defaulted key default s ovm) ≡ true
has_option-defaulted k key none s ovm h = h
has_option-defaulted k key (some v) s ovm h = has_option-stored k key _ ovm h

has_option-with_default_of :
    (k key : Text) (d : Option ValueDescriptor) (ovm : OptionValuesMap)
    → has_option k ovm ≡ true
    → has_option k (with_default_of key d ovm) ≡ true
has_option-with_default_of k key none ovm h = h
has_option-with_default_of k key (some d) ovm h =
    has_option-defaulted k key d.default_value d.default_value_as_text ovm h

has_option-with_default :
    (k : Text) (o : ClapOption) (ovm : OptionValuesMap)
    → has_option k ovm ≡ true
    → has_option k (with_default o ovm) ≡ true
has_option-with_default k o ovm h = elim (Bool-cases (has_option o.key ovm)) [
  | inl has ↦ rw has h
  | inr lacks ↦ rw lacks (has_option-with_default_of k o.key o.value_semantic ovm h)
]

served-with_default :
    (o p : ClapOption) (ovm : OptionValuesMap)
    → served ovm p ≡ true
    → served (with_default o ovm) p ≡ true
served-with_default o p ovm h = elim (Bool-cases (has_option p.key ovm)) [
  | inl has ↦ rw (has_option-with_default p.key o ovm has) refl
  | inr lacks ↦
      let well : described_well p.required p.value_semantic ≡ true = rw lacks at h in
      ground (arith, well)
]

AllServed-with_default :
    (o : ClapOption) (os : List ClapOption) (ovm : OptionValuesMap)
    → AllServed ovm os
    → AllServed (with_default o ovm) os
AllServed-with_default o [] ovm h = tt
AllServed-with_default o (p ∷ os) ovm h =
    (served-with_default o p ovm h.0, AllServed-with_default o os ovm h.1)

module _ (fmt : Fmt) where
  apply_or_miss-defaulted :
      (o : ClapOption) (default : Option Any) (s : Text) (c : ParserContext)
      → (not o.required || is_some default) ≡ true
      → apply_or_miss fmt o (with_text s default) c
        ≡ (none, with_values (defaulted o.key default s c.ovm) c)
  unfolding apply_or_miss
  apply_or_miss-defaulted o none s c h =
      let free : o.required ≡ false = ground arith in rw free refl
  apply_or_miss-defaulted o (some v) s c h = refl

  check_described :
      (o : ClapOption) (semantic : Option ValueDescriptor) (c : ParserContext)
      → described_well o.required semantic ≡ true
      → (deref semantic >>= λ d. done (apply_or_miss fmt o (apply_default d) c))
        ≡ done (none, with_values (with_default_of o.key semantic c.ovm) c)
  unfolding apply_default
  check_described o none c h = absurd cc
  check_described o (some d) c h =
      ap (λ r. done r) (apply_or_miss-defaulted o d.default_value d.default_value_as_text c h)

  check_option-with_default :
      (o : ClapOption) (c : ParserContext)
      → served c.ovm o ≡ true
      → check_option fmt o c ≡ done (none, with_values (with_default o c.ovm) c)
  unfolding check_option
  check_option-with_default o c h = elim (Bool-cases (has_option o.key c.ovm)) [
    | inl has ↦ rw has refl
    | inr lacks ↦ rw lacks (check_described o o.value_semantic c (rw lacks at h))
  ]

  -- If each option has a value, or a descriptor with a default value where the option is required,
  -- then CheckRequiredOptions throws nothing, and it stores exactly the default values of the
  -- options that have no value.
  pub check_required_options-with_defaults :
      (os : List ClapOption) (c : ParserContext)
      → AllServed c.ovm os
      → check_required_options fmt os c ≡ done (none, with_values (with_defaults os c.ovm) c)
  unfolding check_required_options
  check_required_options-with_defaults [] c h = refl
  check_required_options-with_defaults (o ∷ os) c h = rw (check_option-with_default o c h.0) (
      check_required_options-with_defaults os (with_values (with_default o c.ovm) c)
        (AllServed-with_default o os c.ovm h.1))
