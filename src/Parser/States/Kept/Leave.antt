-- ===== src/Parser/States/Kept/Leave.antt =====
-- clap/src/parser/states.h, ParseShortOptionState and ParseLongOptionState: the values that they store.
use asap_clap.Base.{
  ◌≡◌, refl, Option, none, some, Text, Yields, >>=-Yields, deref-Yields, if-Yields,
}
use asap_clap.Fsm.{Status}
use asap_clap.Format.{Fmt}
use asap_clap.Values.Descriptor.{is_value_required}
use asap_clap.Parser.States.Options.{try_implicit_value}
use asap_clap.Parser.States.ShortOption.{
  leave_without_value, leave_option, reset_short, leave_short,
}
use asap_clap.Parser.States.LongOption.{reset_long, leave_long}
use asap_clap.Parser.States.Kept.{
  Discipline, IsKept, IsFree, HasRoom, Tried, try_implicit_value-Tried,
}
use asap_clap.Parser.States.Kept.Enter.{with_context-IsKept, same_IsKept, fail_with-Yields}
use asap_clap.Parser.Machine.{parse_short_option_state, parse_long_option_state, Memory}

module _ (k : Discipline) (fmt : Fmt) where
  -- OnLeave of both states: an option without a value takes the implicit one.
  abbrev Keeps : Status × Memory → Type 0
  Keeps r = IsKept k r.1

  leave_without_value-IsKept :
      (reset : Memory → Memory) (m : Memory)
      → ((m : Memory) → IsKept k m → IsKept k (reset m))
      → IsKept k m
      → Yields Keeps (leave_without_value fmt reset m)
  unfolding leave_without_value
  leave_without_value-IsKept reset m keeps h =
      deref-Yields Keeps m.context.active_option _ (λ option p.
        deref-Yields Keeps option.value_semantic _ (λ semantics q.
          if-Yields Keeps (is_value_required semantics) _ _
            (λ _. fail_with-Yields Keeps _ m (λ w. h)) (λ _. keeps m h)))

  leave_option-IsKept :
      (o : Option Text) (reset : Memory → Memory) (m : Memory)
      → ((m : Memory) → IsKept k m → IsKept k (reset m))
      → IsKept k m
      → (o ≡ none → IsFree k m.context)
      → Yields Keeps (leave_option fmt o reset m)
  unfolding leave_option leave_without_value
  leave_option-IsKept (some _) reset m keeps h free = keeps m h
  leave_option-IsKept none reset m keeps h free =
      >>=-Yields Keeps (Tried k m.context) (try_implicit_value m.context) _
        (try_implicit_value-Tried k m.context h.in_context (free refl))
        (λ r tried.
          let now = with_context-IsKept k r.1 m tried.0 h in
          if-Yields Keeps r.0 _ _ (λ _. keeps _ now)
            (λ _. leave_without_value-IsKept reset _ keeps now))

  pub leave_short-IsKept :
      (m : Memory)
      → IsKept k m
      → HasRoom k parse_short_option_state m
      → Yields Keeps (leave_short fmt m)
  unfolding leave_short
  leave_short-IsKept m h room =
      leave_option-IsKept m.short_value (reset_short fmt) m (λ m' h'. same_IsKept k m' h') h room

  pub leave_long-IsKept :
      (m : Memory)
      → IsKept k m
      → HasRoom k parse_long_option_state m
      → Yields Keeps (leave_long fmt m)
  unfolding leave_long
  leave_long-IsKept m h room =
      leave_option-IsKept m.long_value (reset_long fmt) m (λ m' h'. same_IsKept k m' h') h room
