-- ===== src/Parser/States/Kept/Final.antt =====
-- clap/src/parser/states.h, FinalState: the values that it stores are those of positional options and defaults.
use asap_clap.Base.{
  Bool, true, false, List, [], ◌∷◌, All, All-weaken, ◌≡◌, refl, Option, none, some, Text, Outcome,
  done, ◌>>=◌, Yields, IfSome, IfSome-some, >>=-Yields, done-Yields, deref-Yields, require-Yields,
  if-Yields, is_empty, Bool-cases, inl, inr,
}
use asap_clap.Format.{Fmt}
use asap_clap.Values.{Any}
use asap_clap.Values.Descriptor.{ValueDescriptor, is_some, parse, apply_default}
use asap_clap.Values.ValuesMap.{has_option}
use asap_clap.Commands.{ClapOption, Command, is_positional, is_positional_rest}
use asap_clap.Parser.Context.{ParserContext}
use asap_clap.Parser.States.Final.{
  store_parsed, store_positional, pick, place, store_rest, with_tokens, apply_or_miss, check_option,
  check_required_options, validate, validated, finish, enter_final,
}
use asap_clap.Parser.States.Kept.{
  Discipline, is_read, is_default, Allows, KeptIn, with_store, StoresFirst, Named-StoresFirst,
  Placed-StoresFirst, IsKept,
}
use asap_clap.Parser.States.Kept.Enter.{with_context-IsKept}
use asap_clap.Parser.States.Kept.Commands.{tokens-KeptIn, Enters}
use asap_clap.Parser.Machine.{Memory}

module _ (k : Discipline) where
  store_parsed-KeptIn :
      (o : ClapOption) (d : ValueDescriptor) (token : Text) (v : Option Any) (c : ParserContext)
      → k.Placed o
      → o.value_semantic ≡ some d
      → parse d token ≡ v
      → KeptIn k c
      → KeptIn k (store_parsed o token v c)
  unfolding store_parsed
  store_parsed-KeptIn o d token none c n q r h = h
  store_parsed-KeptIn o d token (some v) c n q r h =
      with_store k o _ c h (k.store_placed o _ c.ovm n (is_read d q r) h.good)

  store_positional-KeptIn :
      (o : ClapOption) (token : Text) (c : ParserContext)
      → k.Placed o
      → KeptIn k c
      → Yields (KeptIn k) (store_positional o token c)
  unfolding store_positional
  store_positional-KeptIn o token c n h =
      require-Yields (KeptIn k) (is_some o.value_semantic) _ (λ _.
        deref-Yields (KeptIn k) o.value_semantic _
          (λ d q. store_parsed-KeptIn o d token (parse d token) c n q refl h))

  abbrev Placed : Option ClapOption × ParserContext → Type 0
  Placed r = IfSome k.Placed r.0 × KeptIn k r.1

  place-KeptIn :
      (os : List ClapOption) (before_rest : Bool) (rest_option : Option ClapOption)
      (c : ParserContext)
      → All k.Placed os
      → IfSome k.Placed rest_option
      → KeptIn k c
      → Yields Placed (place os before_rest rest_option c)
  unfolding place
  place-KeptIn [] before_rest rest_option c a r h = (r, h)
  place-KeptIn (o ∷ os) before_rest rest_option c a r h =
      require-Yields Placed (is_positional o) _ (λ _. elim (Bool-cases (is_positional_rest o)) [
        | inl is_rest ↦ rw is_rest (place-KeptIn os false (some o) c a.1 a.0 h)
        | inr is_fixed ↦ rw is_fixed (
            done-Yields Placed (pick before_rest c.positional_tokens) _ (λ p _.
              >>=-Yields Placed (KeptIn k) (store_positional o p.0 c) _
                (store_positional-KeptIn o p.0 c a.0 h)
                (λ stored now.
                  place-KeptIn os before_rest rest_option (with_tokens p.1 stored) a.1 r
                    (tokens-KeptIn k p.1 stored now))))
      ])

  store_rest-KeptIn :
      (o : ClapOption) (tokens : List Text) (c : ParserContext)
      → k.Placed o
      → KeptIn k c
      → Yields (KeptIn k) (store_rest o tokens c)
  unfolding store_rest
  store_rest-KeptIn o [] c n h = h
  store_rest-KeptIn o (token ∷ tokens) c n h =
      >>=-Yields (KeptIn k) (KeptIn k) (store_positional o token c) _
        (store_positional-KeptIn o token c n h)
        (λ stored now. store_rest-KeptIn o tokens stored n now)

  module _ (fmt : Fmt) where
    abbrev Checked : Option Text × ParserContext → Type 0
    Checked r = KeptIn k r.1

    apply_or_miss-KeptIn :
        (o : ClapOption) (d : ValueDescriptor) (v : Option (Any × Text)) (c : ParserContext)
        → StoresFirst k o
        → has_option o.key c.ovm ≡ false
        → o.value_semantic ≡ some d
        → apply_default d ≡ v
        → KeptIn k c
        → Checked (apply_or_miss fmt o v c)
    unfolding apply_or_miss
    apply_or_miss-KeptIn o d none c n lacks q r h = h
    apply_or_miss-KeptIn o d (some (v, s)) c n lacks q r h =
        with_store k o _ c h (n _ c.ovm lacks (is_default d q r) h.good)

    -- The rest of the checks, behind one that throws or does not.
    and_then-KeptIn :
        (why : Option Text) (c : ParserContext) (next : Outcome (Option Text × ParserContext))
        → KeptIn k c
        → Yields Checked next
        → Yields Checked (elim why [ none ↦ next | some w ↦ done (some w, c) ])
    and_then-KeptIn none c next h k = k
    and_then-KeptIn (some w) c next h k = h

    check_option-KeptIn :
        (o : ClapOption) (c : ParserContext)
        → StoresFirst k o
        → KeptIn k c
        → Yields Checked (check_option fmt o c)
    unfolding check_option
    check_option-KeptIn o c n h =
        if-Yields Checked (has_option o.key c.ovm) _ _ (λ _. h)
          (λ lacks.
            deref-Yields Checked o.value_semantic _
              (λ d q. apply_or_miss-KeptIn o d (apply_default d) c n lacks q refl h))

    check_required_options-KeptIn :
        (os : List ClapOption) (c : ParserContext)
        → All (StoresFirst k) os
        → KeptIn k c
        → Yields Checked (check_required_options fmt os c)
    unfolding check_required_options
    check_required_options-KeptIn [] c a h = h
    check_required_options-KeptIn (o ∷ os) c a h =
        >>=-Yields Checked Checked (check_option fmt o c) _ (check_option-KeptIn o c a.0 h)
          (λ r now. and_then-KeptIn r.0 r.1 _ now (check_required_options-KeptIn os r.1 a.1 now))

    validate-KeptIn :
        (command : Command) (c : ParserContext)
        → Allows k command
        → KeptIn k c
        → Yields Checked (validate fmt command c)
    unfolding validate
    validate-KeptIn command c a h =
        >>=-Yields Checked Checked (check_required_options fmt command.options c) _
          (check_required_options-KeptIn command.options c
            (All-weaken _ _ (Named-StoresFirst k) _ a.all_named) h)
          (λ r now. and_then-KeptIn r.0 r.1 _ now (
            check_required_options-KeptIn command.positional_args r.1
              (All-weaken _ _ (Placed-StoresFirst k) _ a.all_placed) now))

    validated-IsKept :
        (m : Memory) (r : Option Text × ParserContext)
        → IsKept k m
        → Checked r
        → Yields (Enters k) (validated fmt m r)
    unfolding validated
    validated-IsKept m (none, c) h now = with_context-IsKept k c m now h
    validated-IsKept m (some why, c) h now = with_context-IsKept k c m now h

    checks-IsKept :
        (command : Command) (m : Memory) (c : ParserContext)
        → Allows k command
        → IsKept k m
        → KeptIn k c
        → Yields (Enters k) (validate fmt command c >>= validated fmt m)
    checks-IsKept command m c a h now =
        >>=-Yields (Enters k) Checked (validate fmt command c) _ (validate-KeptIn command c a now)
          (λ r checked. validated-IsKept m r h checked)

    finish-IsKept :
        (command : Command) (rest_option : Option ClapOption) (m : Memory) (c : ParserContext)
        → Allows k command
        → IfSome k.Placed rest_option
        → IsKept k m
        → KeptIn k c
        → Yields (Enters k) (finish fmt command rest_option m c)
    unfolding finish
    finish-IsKept command none m c a r h now =
        if-Yields (Enters k) (is_empty c.positional_tokens) _ _
          (λ _. checks-IsKept command m c a h now) (λ _. with_context-IsKept k c m now h)
    finish-IsKept command (some o) m c a r h now =
        if-Yields (Enters k) (is_empty c.positional_tokens) _ _
          (λ _. checks-IsKept command m c a h now)
          (λ _.
            >>=-Yields (Enters k) (KeptIn k) (store_rest o c.positional_tokens c) _
              (store_rest-KeptIn o c.positional_tokens c r now)
              (λ stored kept. checks-IsKept command m _ a h (tokens-KeptIn k [] stored kept)))

    -- OnEnter
    pub enter_final-IsKept : (m : Memory) → IsKept k m → Yields (Enters k) (enter_final fmt m)
    unfolding enter_final
    enter_final-IsKept m h = deref-Yields (Enters k) m.context.active_command _ (λ command p.
        let allows = IfSome-some (Allows k) m.context.active_command h.in_context.active_allows p in
        >>=-Yields (Enters k) Placed (place command.positional_args true none m.context) _
          (place-KeptIn command.positional_args true none m.context allows.all_placed tt
            h.in_context)
          (λ r placed. finish-IsKept command r.0 m r.1 allows placed.0 h placed.1))
