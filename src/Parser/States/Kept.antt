-- ===== src/Parser/States/Kept.antt =====
-- clap/src/parser/states.h: what is kept of the values map, whatever the states store in it.
pub mod Enter
pub mod Leave
pub mod Values
pub mod Commands
pub mod Identify
pub mod Final
use asap_clap.Base.{
  Bool, true, false, List, All, ◌≡◌, refl, sym, ◌∙◌, Option, none, some, Text, ltb, Outcome, done,
  fault, ◌>>=◌, deref, Yields, IfSome-some, IfSome, deref-Yields, if◌then◌else◌, Bool-cases, inl,
  inr, arith,
}
use asap_clap.Values.{Any, OptionValue}
use asap_clap.Values.Descriptor.{ValueDescriptor, parse, apply_default, apply_implicit}
use asap_clap.Values.ValuesMap.{
  OptionValuesMap, occurrences_of, has_option, store_value, occurrences_of-none,
}
use asap_clap.Commands.{ClapOption, Command}
use asap_clap.Parser.Context.{ParserContext, store}
use asap_clap.Parser.States.Options.{store_implicit, try_implicit_value, check_multiple_occurrence}
use asap_clap.Parser.Machine.{State, parse_short_option_state, parse_long_option_state, Memory}

-- The value is one that the option reads, or its implicit value, or its default value.
pub data ComesFrom (o : ClapOption) (x : OptionValue) : Type 0 where
  is_read :
      (d : ValueDescriptor)
      → o.value_semantic ≡ some d
      → parse d x.original_token ≡ some x.value
      → ComesFrom o x
  is_implicit :
      (d : ValueDescriptor)
      → o.value_semantic ≡ some d
      → apply_implicit d ≡ some (x.value, x.original_token)
      → ComesFrom o x
  is_default :
      (d : ValueDescriptor)
      → o.value_semantic ≡ some d
      → apply_default d ≡ some (x.value, x.original_token)
      → ComesFrom o x

-- A property of the values map, with what it asks of the options of a command and of the positional
-- ones, and when an option is free to take one more value.
pub record Discipline : Type 1 where
  pub Good : OptionValuesMap → Type 0
  pub Named : ClapOption → Type 0
  pub Placed : ClapOption → Type 0
  pub Free : ClapOption → OptionValuesMap → Type 0
  pub free_never :
      (o : ClapOption) (ovm : OptionValuesMap)
      → Named o
      → ltb (occurrences_of o.key ovm) 1 ≡ true
      → Free o ovm
  pub free_repeatable :
      (o : ClapOption) (d : ValueDescriptor) (ovm : OptionValuesMap)
      → Named o
      → o.value_semantic ≡ some d
      → d.repeatable ≡ true
      → Free o ovm
  pub store_named :
      (o : ClapOption) (x : OptionValue) (ovm : OptionValuesMap)
      → Named o
      → ComesFrom o x
      → Free o ovm
      → Good ovm
      → Good (store_value o.key x ovm)
  pub store_placed :
      (o : ClapOption) (x : OptionValue) (ovm : OptionValuesMap)
      → Placed o
      → ComesFrom o x
      → Good ovm
      → Good (store_value o.key x ovm)

module _ (k : Discipline) where
  -- What the property asks of the options of a command.
  pub record Allows (command : Command) : Type 0 where
    pub all_named : All k.Named command.options
    pub all_placed : All k.Placed command.positional_args

  pub record KeptIn (c : ParserContext) : Type 0 where
    pub all_allow : All Allows c.commands
    pub active_allows : IfSome Allows c.active_command
    pub good : k.Good c.ovm

  pub record IsKept (m : Memory) : Type 0 where
    pub in_context : KeptIn m.context
    pub filtered_allow : All Allows m.filtered_commands
    pub matched_allows : IfSome Allows m.last_matched_command
    pub default_allows : IfSome Allows m.default_command

  -- The option being parsed may take a value.
  abbrev pub IsFree : ParserContext → Type 0
  IsFree c = IfSome (λ o. k.Named o × k.Free o c.ovm) c.active_option

  abbrev pub HasRoom : State → Memory → Type 0
  HasRoom parse_short_option_state m = m.short_value ≡ none → IsFree m.context
  HasRoom parse_long_option_state m = m.long_value ≡ none → IsFree m.context
  HasRoom _ m = Unit

  pub with_store :
      (o : ClapOption) (x : OptionValue) (c : ParserContext)
      → KeptIn c
      → k.Good (store_value o.key x c.ovm)
      → KeptIn (store o.key x c)
  with_store o x c h good = record {
    all_allow = h.all_allow;
    active_allows = h.active_allows;
    good = good;
  }

  pub store-KeptIn :
      (o : ClapOption) (x : OptionValue) (c : ParserContext)
      → KeptIn c
      → k.Named o × k.Free o c.ovm
      → ComesFrom o x
      → KeptIn (store o.key x c)
  store-KeptIn o x c h free from =
      with_store o x c h (k.store_named o x c.ovm free.0 from free.1 h.good)

  -- An option without a value may get one.
  abbrev pub StoresFirst : ClapOption → Type 0
  StoresFirst o =
      (x : OptionValue) (ovm : OptionValuesMap)
      → has_option o.key ovm ≡ false
      → ComesFrom o x
      → k.Good ovm
      → k.Good (store_value o.key x ovm)

  pub Named-StoresFirst : (o : ClapOption) → k.Named o → StoresFirst o
  Named-StoresFirst o n x ovm lacks from good =
      let never = k.free_never o ovm n (rw (occurrences_of-none o.key ovm lacks) (ground arith)) in
      k.store_named o x ovm n from never good

  pub Placed-StoresFirst : (o : ClapOption) → k.Placed o → StoresFirst o
  Placed-StoresFirst o p x ovm lacks from good = k.store_placed o x ovm p from good

  -- TryImplicitValue: what it leaves, and that it leaves the context as it was if it stores nothing.
  abbrev pub Tried : ParserContext → Bool × ParserContext → Type 0
  Tried c r = KeptIn r.1 × (r.0 ≡ false → r.1 ≡ c)

  store_implicit-Tried :
      (o : ClapOption) (d : ValueDescriptor) (i : Option (Any × Text)) (c : ParserContext)
      → o.value_semantic ≡ some d
      → apply_implicit d ≡ i
      → KeptIn c
      → k.Named o × k.Free o c.ovm
      → Tried c (store_implicit o.key i c)
  unfolding store_implicit
  store_implicit-Tried o d none c p e h free = (h, λ _. refl)
  store_implicit-Tried o d (some (v, s)) c p e h free =
      (store-KeptIn o _ c h free (is_implicit d p e), λ no. cc)

  pub try_implicit_value-Tried :
      (c : ParserContext) → KeptIn c → IsFree c → Yields (Tried c) (try_implicit_value c)
  unfolding try_implicit_value
  try_implicit_value-Tried c h free = deref-Yields (Tried c) c.active_option _ (λ option p.
      deref-Yields (Tried c) option.value_semantic _ (λ d q.
        store_implicit-Tried option d (apply_implicit d) c q refl h
          (IfSome-some _ c.active_option free p)))

  -- CheckMultipleOccurrence: an option that may occur is free.
  again-Free :
      (o : ClapOption) (semantic : Option ValueDescriptor) (ovm : OptionValuesMap)
      → o.value_semantic ≡ semantic
      → k.Named o
      → (deref semantic >>= λ d. done d.repeatable) ≡ done true
      → k.Free o ovm
  again-Free o none ovm p n e = absurd cc
  again-Free o (some d) ovm p n e = k.free_repeatable o d ovm n p (ground arith)

  pub check-IsFree :
      (option : ClapOption) (c : ParserContext)
      → c.active_option ≡ some option
      → k.Named option
      → check_multiple_occurrence c ≡ done true
      → IsFree c
  unfolding check_multiple_occurrence
  check-IsFree option c p n e = rw p (elim (Bool-cases (ltb (occurrences_of option.key c.ovm) 1)) [
    | inl never ↦ (n, k.free_never option c.ovm n never)
    | inr before ↦ (n, again-Free option option.value_semantic c.ovm refl n (rw (p, before) at e))
  ])
