-- ===== src/Parser/States/Origins.antt =====
-- clap/src/parser/states.h: where the values come from that the states store.
use asap_clap.Base.{
  List, [], ◌∷◌, All, All-append, ◌≡◌, subst, Option, none, some, Text, text_eq, text_eq_iff,
  Bool-cases, inl, inr, IfSome,
}
use asap_clap.Values.{OptionValue}
use asap_clap.Values.ValuesMap.{OptionValuesMap, find, store_value, added, find-store_value}
use asap_clap.Commands.{ClapOption, Command}
use asap_clap.Parser.States.Kept.{Discipline, ComesFrom}

-- A property of a value and the key that it is stored for.
module _ (Fits : Text → OptionValue → Type 0) where
  -- Every value that comes from the option has it.
  abbrev pub Supplies : ClapOption → Type 0
  Supplies o = (x : OptionValue) → ComesFrom o x → Fits o.key x

  -- Every value of the map has it.
  abbrev pub AllFit : OptionValuesMap → Type 0
  AllFit ovm = (key : Text) → IfSome (All (Fits key)) (find key ovm)

  All-added :
      (key : Text) (x : OptionValue) (before : Option (List OptionValue))
      → Fits key x
      → IfSome (All (Fits key)) before
      → All (Fits key) (added x before)
  All-added key x none f h = (f, tt)
  All-added key x (some xs) f h = All-append (Fits key) xs (x ∷ []) h (f, tt)

  pub AllFit-store_value :
      (j : Text) (x : OptionValue) (ovm : OptionValuesMap)
      → Fits j x
      → AllFit ovm
      → AllFit (store_value j x ovm)
  AllFit-store_value j x ovm f h key = elim (Bool-cases (text_eq j key)) [
    | inl same ↦
        let e : j ≡ key = (text_eq_iff j key).0 same in
        rw (find-store_value, same)
          (subst (λ i. All (Fits i) (added x (find j ovm))) e (All-added j x (find j ovm) f (h j)))
    | inr other ↦ rw (find-store_value, other) (h key)
  ]

  abbrev pub fitting : Discipline
  fitting = record {
    Good = AllFit;
    Named = Supplies;
    Placed = Supplies;
    Free = λ o ovm. Unit;
    free_never = λ o ovm n never. tt;
    free_repeatable = λ o d ovm n p again. tt;
    store_named = λ o x ovm n from free good. AllFit-store_value o.key x ovm (n x from) good;
    store_placed = λ o x ovm n from good. AllFit-store_value o.key x ovm (n x from) good;
  }

  abbrev pub SuppliesAll : Command → Type 0
  SuppliesAll c = All Supplies c.options × All Supplies c.positional_args
