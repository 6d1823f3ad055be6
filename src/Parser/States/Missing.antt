-- ===== src/Parser/States/Missing.antt =====
-- FinalState::OnEnter (clap/src/parser/states.h) with fewer positional tokens than the active command
-- has positional arguments.
use asap_clap.Base.{
  ◌<◌, true, false, List, [], ◌∷◌, ◌≡◌, refl, arith, All, length, none, some, Text, text_eq, done,
  fault, undefined_behaviour, deref,
}
use asap_clap.Format.{Fmt}
use asap_clap.Values.Descriptor.{ValueDescriptor, parse}
use asap_clap.Commands.{ClapOption, Command, is_positional, key_rest}
use asap_clap.Parser.Context.{ParserContext}
use asap_clap.Parser.States.Final.{
  store_positional, store_parsed, pick, place, enter_final, with_tokens,
}
use asap_clap.Parser.Machine.{Memory}

-- A positional option with a value that is not the rest option.
pub record IsPlain (o : ClapOption) : Type 0 where
  pub positional : is_positional o ≡ true
  pub not_rest : text_eq o.key key_rest ≡ false
  pub described : (d : ValueDescriptor) × (o.value_semantic ≡ some d)

-- A token is stored, or dropped where it does not parse, without a fault.
store_positional_done :
    (o : ClapOption) (token : Text) (c : ParserContext)
    → IsPlain o
    → (c' : ParserContext) × (store_positional o token c ≡ done c')
unfolding store_positional
store_positional_done o token c p =
    let (d, e) = p.described in (store_parsed o token (parse d token) c, rw e refl)

place-missing :
    (os : List ClapOption) (ts : List Text) (c : ParserContext)
    → All IsPlain os
    → c.positional_tokens ≡ ts
    → length ts < length os
    → place os true none c ≡ fault undefined_behaviour
unfolding place pick
place-missing [] ts c a e h = absurd (omega arith)
place-missing (o ∷ os) [] c (p, a) e h = rw (p.positional, p.not_rest, e) refl
place-missing (o ∷ os) (t ∷ ts) c (p, a) e h =
    let (c', stored) = store_positional_done o t c p in
    let picked : pick true c.positional_tokens ≡ done (t, ts) = rw e refl in
    rw (p.positional, p.not_rest, picked, stored)
      (place-missing os ts (with_tokens ts c') a refl (omega arith))

-- With fewer positional tokens than the active command has positional arguments, each of them a positional
-- option with a value descriptor and none the rest option, FinalState reads an element of an empty
-- vector, whether the arguments are required or not.
pub enter_final-missing :
    (fmt : Fmt) (m : Memory) (command : Command)
    → m.context.active_command ≡ some command
    → All IsPlain command.positional_args
    → length m.context.positional_tokens < length command.positional_args
    → enter_final fmt m ≡ fault undefined_behaviour
unfolding enter_final
enter_final-missing fmt m command e a h =
    let active : deref m.context.active_command ≡ done command = rw e refl in
    rw
      (active, place-missing command.positional_args m.context.positional_tokens m.context a refl h)
      refl
