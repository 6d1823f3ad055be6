-- ===== src/Parser/Loop/Typed.antt =====
-- clap/include/clap/option_value.h and detail/value_descriptor.h: the types of the values that `Parse` leaves.
use asap_clap.Base.{
  ℕ, Bool, true, List, All, All-weaken, ◌≡◌, refl, Option, none, some, Text, done, IfSome,
  IfSome-some,
}
use asap_clap.Fsm.{Engine, IsEngine}
use asap_clap.Format.{Fmt}
use asap_clap.Tokenizer.{tokenizer_of}
use asap_clap.Values.{OptionValue}
use asap_clap.Values.ParseValue.{ValueType}
use asap_clap.Values.Typed.{holds, get_as, get_as-holds}
use asap_clap.Values.Descriptor.{ValueDescriptor, notify}
use asap_clap.Values.Descriptor.Notify.{
  IsTyped, parse-holds, apply_default-holds, apply_implicit-holds, effects_of, notify-holds,
}
use asap_clap.Values.ValuesMap.{find}
use asap_clap.Commands.{ClapOption, Command}
use asap_clap.Parser.Context.{CommandLineContext, ParserContext}
use asap_clap.Parser.States.Kept.{is_read, is_implicit, is_default}
use asap_clap.Parser.States.Origins.{Supplies, AllFit, SuppliesAll}
use asap_clap.Parser.Loop.{parse}
use asap_clap.Parser.Loop.Origins.{parse-AllFit}

module _ (key : Text) (t : ValueType) where
  -- With this key, the option takes values of the type.
  abbrev pub TakesTyped : ClapOption → Type 0
  TakesTyped o = o.key ≡ key → (d : ValueDescriptor) → o.value_semantic ≡ some d → IsTyped t d

  abbrev pub TakeTyped : Command → Type 0
  TakeTyped c = All TakesTyped c.options × All TakesTyped c.positional_args

  abbrev pub FitsType : Text → OptionValue → Type 0
  FitsType j x = j ≡ key → holds t x.value ≡ true

  Supplies-FitsType : (o : ClapOption) → TakesTyped o → Supplies FitsType o
  Supplies-FitsType o h x (is_read d p e) same = parse-holds t d _ x.value (h same d p) e
  Supplies-FitsType o h x (is_implicit d p e) same =
      apply_implicit-holds t d _ x.value (h same d p) e
  Supplies-FitsType o h x (is_default d p e) same = apply_default-holds t d _ x.value (h same d p) e

  SuppliesAll-FitsType : (c : Command) → TakeTyped c → SuppliesAll FitsType c
  SuppliesAll-FitsType c h = (
    All-weaken _ _ Supplies-FitsType c.options h.0,
    All-weaken _ _ Supplies-FitsType c.positional_args h.1,
  )

  IfSome-SuppliesAll : (o : Option Command) → IfSome TakeTyped o → IfSome (SuppliesAll FitsType) o
  IfSome-SuppliesAll none h = tt
  IfSome-SuppliesAll (some c) h = SuppliesAll-FitsType c h

module _ (fmt : Fmt) (key : Text) (d : ValueDescriptor) where
  usable :
      (x : OptionValue)
      → FitsType key d.value_type key x
      → (get_as d.value_type x ≡ done x.value) × (notify d x.value ≡ done (effects_of d x.value))
  usable x h = (get_as-holds d.value_type x (h refl), notify-holds d x.value (h refl))

  -- Values by their type. If each option with the key, in the commands and in the one that is active before, takes values of
  -- the type of the descriptor, with default and implicit values of it too, and the values map has only values of it for
  -- the key before, then for each value that `Parse` leaves for the key, whatever it returns, `GetAs` of the type gives the
  -- value and throws nothing, and `Notify` of the descriptor has exactly the effects that it is set up for: the value is assigned to
  -- the variable, and then the function is called with it.
  pub parse-get_as :
      {engine : Engine} (law : IsEngine engine) (fuel : ℕ) (base : CommandLineContext)
      (args : List Text) (commands : List Command) (b : Bool) (c : ParserContext)
      (values : List OptionValue)
      → All (TakeTyped key d.value_type) commands
      → IfSome (TakeTyped key d.value_type) base.active_command
      → AllFit (FitsType key d.value_type) base.ovm
      → parse engine fmt fuel base (tokenizer_of args) commands ≡ some (done (b, c))
      → find key c.ovm ≡ some values
      → All
          (λ x.
            (get_as d.value_type x ≡ done x.value)
            × (notify d x.value ≡ done (effects_of d x.value)))
          values
  parse-get_as law fuel base args commands b c values all active before e found =
      let t = d.value_type in
      All-weaken _ _ usable values (
        IfSome-some _ (find key c.ovm)
          (parse-AllFit (FitsType key t) fmt law fuel base args commands b c
            (All-weaken _ _ (SuppliesAll-FitsType key t) commands all)
            (IfSome-SuppliesAll key t base.active_command active) before e key)
          found)
