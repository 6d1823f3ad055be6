-- ===== src/Parser/States/Required.antt =====
-- The checks of FinalState in clap/src/parser/states.h: what CheckRequiredOptions ensures when it throws
-- nothing.
use asap_clap.Base.{
  true, false, List, [], ◌∷◌, ◌≡◌, refl, ◌∙◌, arith, All, Option, none, some, Text, inl, inr,
  Bool-cases, Outcome, done, ◌>>=◌, >>=-eq-done, deref, text_eq_refl,
}
use asap_clap.Format.{Fmt}
use asap_clap.Values.{Any, OptionValue}
use asap_clap.Values.Descriptor.{ValueDescriptor, apply_default, with_text}
use asap_clap.Values.ValuesMap.{
  OptionValuesMap, has_option, store_value, has_option-store_value, has_option-stored,
}
use asap_clap.Commands.{ClapOption, Command}
use asap_clap.Parser.Context.{ParserContext, store}
use asap_clap.Parser.States.Final.{apply_or_miss, check_option, check_required_options, validate}

-- A required option has a value, and so has every option with a default value.
pub record IsFilled (ovm : OptionValuesMap) (o : ClapOption) : Type 0 where
  pub if_required : o.required ≡ true → has_option o.key ovm ≡ true
  pub if_defaulted :
      (d : ValueDescriptor) (v : Any)
      → o.value_semantic ≡ some d
      → d.default_value ≡ some v
      → has_option o.key ovm ≡ true

-- The same command and tokens, and no option lost.
pub record Grows (c c' : ParserContext) : Type 0 where
  pub same_command : c'.active_command ≡ c.active_command
  pub same_tokens : c'.positional_tokens ≡ c.positional_tokens
  pub keeps : (k : Text) → has_option k c.ovm ≡ true → has_option k c'.ovm ≡ true

Grows-refl : (c : ParserContext) → Grows c c
Grows-refl c = record { same_command = refl; same_tokens = refl; keeps = λ k h. h }

Grows-trans : {c d e : ParserContext} → Grows c d → Grows d e → Grows c e
Grows-trans g h = record {
  same_command = h.same_command ∙ g.same_command;
  same_tokens = h.same_tokens ∙ g.same_tokens;
  keeps = λ k p. h.keeps k (g.keeps k p);
}

store-Grows : (key : Text) (v : OptionValue) (c : ParserContext) → Grows c (store key v c)
store-Grows key v c = record {
  same_command = refl;
  same_tokens = refl;
  keeps = λ k h. has_option-stored k key v c.ovm h;
}

IsFilled-keeps :
    (o : ClapOption) {c d : ParserContext} → Grows c d → IsFilled c.ovm o → IsFilled d.ovm o
IsFilled-keeps o g s = record {
  if_required = λ h. g.keeps o.key (s.if_required h);
  if_defaulted = λ d v p q. g.keeps o.key (s.if_defaulted d v p q);
}

All-keeps :
    (os : List ClapOption) {c d : ParserContext}
    → Grows c d
    → All (IsFilled c.ovm) os
    → All (IsFilled d.ovm) os
All-keeps [] g a = tt
All-keeps (o ∷ os) g a = (IsFilled-keeps o g a.0, All-keeps os g a.1)

module _ (fmt : Fmt) where
  -- A check that passes.
  abbrev Passes : Outcome (Option Text × ParserContext) → ParserContext → Type 0
  Passes r c = r ≡ done (none, c)

  -- An option that has a value already, that has a default value, or that needs none.
  old_value :
      (o : ClapOption) (c : ParserContext)
      → has_option o.key c.ovm ≡ true
      → Grows c c × IsFilled c.ovm o
  old_value o c h = (Grows-refl c, record { if_required = λ _. h; if_defaulted = λ d v p q. h })

  defaulted :
      (o : ClapOption) (v : OptionValue) (c : ParserContext)
      → Grows c (store o.key v c) × IsFilled (store o.key v c).ovm o
  defaulted o v c =
      let h : has_option o.key (store_value o.key v c.ovm) ≡ true =
        has_option-store_value o.key o.key v c.ovm ∙ rw (text_eq_refl o.key) in
      (store-Grows o.key v c, record { if_required = λ _. h; if_defaulted = λ d w p q. h })

  not_needed :
      (o : ClapOption) (d : ValueDescriptor) (c : ParserContext)
      → o.value_semantic ≡ some d
      → d.default_value ≡ none
      → o.required ≡ false
      → Grows c c × IsFilled c.ovm o
  not_needed o d c p q r =
      (Grows-refl c, record { if_required = λ h. cc; if_defaulted = λ d' v p' q'. ground arith })

  check_defaulted :
      (o : ClapOption) (d : ValueDescriptor) (v : Option Any) (c c' : ParserContext)
      → o.value_semantic ≡ some d
      → d.default_value ≡ v
      → Passes (done (apply_or_miss fmt o (with_text d.default_value_as_text v) c)) c'
      → Grows c c' × IsFilled c'.ovm o
  unfolding apply_or_miss
  check_defaulted o d none c c' p q e = elim (Bool-cases o.required) [
    | inl needed ↦ absurd (ground arith)
    | inr free ↦ let same : c ≡ c' = ground arith in rw (← same) (not_needed o d c p q free)
  ]
  check_defaulted o d (some v) c c' p q e =
      let stored : OptionValue = record {
        value = v;
        original_token = d.default_value_as_text;
        defaulted = false;
      } in
      let same : store o.key stored c ≡ c' = ground arith in rw (← same) (defaulted o stored c)

  check_described :
      (o : ClapOption) (s : Option ValueDescriptor) (c c' : ParserContext)
      → o.value_semantic ≡ s
      → Passes (deref s >>= λ d. done (apply_or_miss fmt o (apply_default d) c)) c'
      → Grows c c' × IsFilled c'.ovm o
  unfolding apply_default
  check_described o none c c' p e = absurd (ground arith)
  check_described o (some d) c c' p e = check_defaulted o d d.default_value c c' p refl e

  check_option-IsFilled :
      (o : ClapOption) (c c' : ParserContext)
      → Passes (check_option fmt o c) c'
      → Grows c c' × IsFilled c'.ovm o
  unfolding check_option
  check_option-IsFilled o c c' e = elim (Bool-cases (has_option o.key c.ovm)) [
    | inl has ↦ let same : c ≡ c' = ground arith in rw (← same) (old_value o c has)
    | inr lacks ↦ check_described o o.value_semantic c c' refl (rw lacks at e)
  ]

  -- One round, from what holds of the rounds after it.
  round-IsFilled :
      (o : ClapOption) (os : List ClapOption) (c c1 c' : ParserContext) (why : Option Text)
      → (Passes (check_required_options fmt os c1) c' → Grows c1 c' × All (IsFilled c'.ovm) os)
      → check_option fmt o c ≡ done (why, c1)
      → (elim why [ none ↦ check_required_options fmt os c1 | some w ↦ done (some w, c1) ])
        ≡ done (none, c')
      → Grows c c' × All (IsFilled c'.ovm) (o ∷ os)
  round-IsFilled o os c c1 c' (some w) later here e = absurd (ground arith)
  round-IsFilled o os c c1 c' none later here e =
      let (g, s) = check_option-IsFilled o c c1 here in
      let (h, a) = later e in (Grows-trans g h, (IsFilled-keeps o h s, a))

  check_required_options-IsFilled :
      (os : List ClapOption) (c c' : ParserContext)
      → Passes (check_required_options fmt os c) c'
      → Grows c c' × All (IsFilled c'.ovm) os
  unfolding check_required_options
  check_required_options-IsFilled [] c c' e =
      let same : c ≡ c' = ground arith in rw (← same) (Grows-refl c, tt)
  check_required_options-IsFilled (o ∷ os) c c' e =
      let ((why, c1), here, now) = >>=-eq-done (check_option fmt o c) _ e in
      round-IsFilled o os c c1 c' why (check_required_options-IsFilled os c1 c') here now

  -- Both lists of options.
  abbrev pub AllFilled : Command → ParserContext → Type 0
  AllFilled command c =
      All (IsFilled c.ovm) command.options × All (IsFilled c.ovm) command.positional_args

  both_filled :
      (command : Command) (c c1 c' : ParserContext) (why : Option Text)
      → check_required_options fmt command.options c ≡ done (why, c1)
      → (elim why [
        | none ↦ check_required_options fmt command.positional_args c1
        | some w ↦ done (some w, c1)
      ])
        ≡ done (none, c')
      → Grows c c' × AllFilled command c'
  both_filled command c c1 c' (some w) here e = absurd (ground arith)
  both_filled command c c1 c' none here e =
      let (g, a) = check_required_options-IsFilled command.options c c1 here in
      let (h, b) = check_required_options-IsFilled command.positional_args c1 c' e in
      (Grows-trans g h, (All-keeps command.options h a, b))

  pub validate_filled :
      (command : Command) (c c' : ParserContext)
      → Passes (validate fmt command c) c'
      → Grows c c' × AllFilled command c'
  unfolding validate
  validate_filled command c c' e =
      let ((why, c1), here, now) = >>=-eq-done (check_required_options fmt command.options c) _ e in
      both_filled command c c1 c' why here now
