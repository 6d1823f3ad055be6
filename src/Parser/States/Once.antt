-- ===== src/Parser/States/Once.antt =====
-- clap/src/parser/states.h: the values of an option that is not repeatable, as the states store them.
use asap_clap.Base.{
  ℕ, ◌≤◌, true, false, All, ◌≡◌, ◌≢◌, arith, some, Text, text_eq, text_eq_iff, ltb, Bool-cases, inl,
  inr,
}
use asap_clap.Values.{OptionValue}
use asap_clap.Values.Descriptor.{ValueDescriptor}
use asap_clap.Values.ValuesMap.{
  OptionValuesMap, occurrences_of, store_value, occurrences_of-store_value,
}
use asap_clap.Commands.{ClapOption, Command}
use asap_clap.Parser.States.Kept.{Discipline}

abbrev pub IsNotRepeatable : ClapOption → Type 0
IsNotRepeatable o = (d : ValueDescriptor) → o.value_semantic ≡ some d → d.repeatable ≡ false

module _ (key : Text) where
  -- In the command, the key is that of options that are not repeatable, and of no positional one.
  pub record Allows (command : Command) : Type 0 where
    pub options_once : All (λ o. o.key ≡ key → IsNotRepeatable o) command.options
    pub not_positional : All (λ o. o.key ≢ key) command.positional_args

  abbrev count : OptionValuesMap → ℕ
  count ovm = occurrences_of key ovm

  pub never_stored :
      (o : ClapOption) (ovm : OptionValuesMap)
      → ltb (occurrences_of o.key ovm) 1 ≡ true
      → o.key ≡ key
      → count ovm ≡ 0
  never_stored o ovm never same = let never' = rw same at never in ground arith

  pub count-store_value :
      (j : Text) (x : OptionValue) (ovm : OptionValuesMap)
      → (j ≡ key → count ovm ≡ 0)
      → count ovm ≤ 1
      → count (store_value j x ovm) ≤ 1
  count-store_value j x ovm free h = elim (Bool-cases (text_eq j key)) [
    | inl same ↦
        let zero_before = free ((text_eq_iff j key).0 same) in
        rw (occurrences_of-store_value, same) (omega arith)
    | inr other ↦ rw (occurrences_of-store_value, other) h
  ]

  pub repeatable_never :
      (o : ClapOption) (d : ValueDescriptor) (n : ℕ)
      → IsNotRepeatable o
      → o.value_semantic ≡ some d
      → d.repeatable ≡ true
      → n ≡ 0
  repeatable_never o d n once p again = let never = once d p in absurd cc

  -- The key has one value at most.
  abbrev pub once : Discipline
  once = record {
    Good = λ ovm. count ovm ≤ 1;
    Named = λ o. o.key ≡ key → IsNotRepeatable o;
    Placed = λ o. o.key ≢ key;
    Free = λ o ovm. o.key ≡ key → count ovm ≡ 0;
    free_never = λ o ovm n never. never_stored o ovm never;
    free_repeatable = λ o d ovm n p again same. repeatable_never o d (count ovm) (n same) p again;
    store_named = λ o x ovm n from free good. count-store_value o.key x ovm free good;
    store_placed =
        λ o x ovm other from good. count-store_value o.key x ovm (λ same. absurd (other same)) good;
  }
