-- ===== src/Parser/States/Kept/Values.antt =====
-- clap/src/parser/states.h, ParseShortOptionState and ParseLongOptionState: the value of an option.
use asap_clap.Base.{
  not, ◌&&◌, ◌≡◌, refl, Option, none, some, Text, Outcome, Yields, IfSome-some, >>=-Yields,
  done-Yields, deref-Yields, require-Yields, if-Yields,
}
use asap_clap.Fsm.{Action, report_error}
use asap_clap.Format.{Fmt}
use asap_clap.Tokenizer.{TokenType, value, equal_sign}
use asap_clap.Values.{Any}
use asap_clap.Values.Descriptor.{ValueDescriptor, is_some, parse}
use asap_clap.Commands.{ClapOption}
use asap_clap.Parser.States.Options.{try_implicit_value}
use asap_clap.Parser.States.ShortOption.{
  short_not_parsed, take_short_value, handle_short_value, handle_short, with_context, store_token,
}
use asap_clap.Parser.States.LongOption.{
  long_implicit, long_not_parsed, take_long_value, read_long_value, handle_long_value, handle_long,
}
use asap_clap.Parser.States.Kept.{
  Discipline, is_read, store-KeptIn, IsKept, IsFree, HasRoom, Tried, try_implicit_value-Tried,
}
use asap_clap.Parser.Machine.{
  State, parse_short_option_state, parse_long_option_state, Memory, refuse_with,
}
use asap_clap.Parser.States.Kept.Enter.{with_context-IsKept, same_IsKept}

refuse_with-Yields :
    (Q : Action State × Memory → Type 0) (why : Outcome Text) (m : Memory)
    → ((w : Text) → Q (report_error w, m))
    → Yields Q (refuse_with why m)
refuse_with-Yields Q why m k = done-Yields Q why _ (λ w _. k w)

module _ (k : Discipline) (fmt : Fmt) where
  -- Handle of both states: a value is stored where there is room.
  abbrev pub Acting : Action State → Type 0 → Type 0
  Acting (report_error why) R = Unit
  Acting _ R = R

  abbrev pub HandlesKept : State → Action State × Memory → Type 0
  HandlesKept s r = IsKept k r.1 × Acting r.0 (HasRoom k s r.1)

  stored-IsKept :
      (o : ClapOption) (d : ValueDescriptor) (v : Any) (token : Text) (m : Memory)
      → IsKept k m
      → m.context.active_option ≡ some o
      → o.value_semantic ≡ some d
      → parse d token ≡ some v
      → IsFree k m.context
      → IsKept k (with_context (store_token o v token m.context) m)
  stored-IsKept o d v token m h p q r free =
      with_context-IsKept k _ m
        (store-KeptIn k o _ m.context h.in_context (IfSome-some _ m.context.active_option free p)
          (is_read d q r))
        h

  short_not_parsed-HandlesKept :
      (m : Memory)
      → IsKept k m
      → IsFree k m.context
      → Yields (HandlesKept parse_short_option_state) (short_not_parsed fmt m)
  unfolding short_not_parsed
  short_not_parsed-HandlesKept m h free =
      >>=-Yields _ (Tried k m.context) (try_implicit_value m.context) _
        (try_implicit_value-Tried k m.context h.in_context free)
        (λ r tried.
          let now = with_context-IsKept k r.1 m tried.0 h in
          if-Yields _ r.0 _ _ (λ _. (same_IsKept k _ now, λ e. absurd cc))
            (λ _. refuse_with-Yields (HandlesKept parse_short_option_state) _ _ (λ w. (now, tt))))

  take_short_value-HandlesKept :
      (token : Text) (o : ClapOption) (d : ValueDescriptor) (v : Option Any) (m : Memory)
      → IsKept k m
      → m.context.active_option ≡ some o
      → o.value_semantic ≡ some d
      → parse d token ≡ v
      → IsFree k m.context
      → Yields (HandlesKept parse_short_option_state) (take_short_value fmt token o v m)
  unfolding take_short_value
  take_short_value-HandlesKept token o d none m h p q r free = short_not_parsed-HandlesKept m h free
  take_short_value-HandlesKept token o d (some v) m h p q r free =
      (same_IsKept k _ (stored-IsKept o d v token m h p q r free), λ e. absurd cc)

  handle_short_value-HandlesKept :
      (given : Option Text) (token : Text) (m : Memory)
      → m.short_value ≡ given
      → IsKept k m
      → HasRoom k parse_short_option_state m
      → Yields (HandlesKept parse_short_option_state) (handle_short_value fmt given token m)
  unfolding handle_short_value
  handle_short_value-HandlesKept (some s) token m p h room = (h, room)
  handle_short_value-HandlesKept none token m p h room =
      deref-Yields _ m.context.active_option _ (λ o q.
        deref-Yields _ o.value_semantic _
          (λ d q2. take_short_value-HandlesKept token o d (parse d token) m h q q2 refl (room p)))

  pub handle_short-HandlesKept :
      (ty : TokenType) (token : Text) (m : Memory)
      → IsKept k m
      → HasRoom k parse_short_option_state m
      → Yields (HandlesKept parse_short_option_state) (handle_short fmt ty token m)
  unfolding handle_short
  handle_short-HandlesKept value token m h room =
      require-Yields _ (is_some m.context.active_option) _ (λ _.
        deref-Yields _ m.context.active_option _ (λ o _.
          require-Yields _ (is_some o.value_semantic) _
            (λ _. handle_short_value-HandlesKept m.short_value token m refl h room)))
  handle_short-HandlesKept _ token m h room = (h, room)

  long_implicit-HandlesKept :
      (m : Memory)
      → IsKept k m
      → IsFree k m.context
      → Yields (HandlesKept parse_long_option_state) (long_implicit fmt m)
  unfolding long_implicit
  long_implicit-HandlesKept m h free =
      >>=-Yields _ (Tried k m.context) (try_implicit_value m.context) _
        (try_implicit_value-Tried k m.context h.in_context free)
        (λ r tried.
          let now = with_context-IsKept k r.1 m tried.0 h in
          if-Yields _ r.0 _ _ (λ _. (same_IsKept k _ now, λ e. absurd cc))
            (λ _. refuse_with-Yields (HandlesKept parse_long_option_state) _ _ (λ w. (now, tt))))

  take_long_value-HandlesKept :
      (token : Text) (o : ClapOption) (d : ValueDescriptor) (v : Option Any) (m : Memory)
      → IsKept k m
      → m.context.active_option ≡ some o
      → o.value_semantic ≡ some d
      → parse d token ≡ v
      → IsFree k m.context
      → Yields (HandlesKept parse_long_option_state) (take_long_value fmt token o v m)
  unfolding take_long_value long_not_parsed
  take_long_value-HandlesKept token o d none m h p q r free =
      if-Yields _ (not m.after_equal_sign) _ _ (λ _. long_implicit-HandlesKept m h free)
        (λ _. refuse_with-Yields (HandlesKept parse_long_option_state) _ m (λ w. (h, tt)))
  take_long_value-HandlesKept token o d (some v) m h p q r free =
      (same_IsKept k _ (stored-IsKept o d v token m h p q r free), λ e. absurd cc)

  handle_long_value-HandlesKept :
      (given : Option Text) (token : Text) (m : Memory)
      → m.long_value ≡ given
      → IsKept k m
      → HasRoom k parse_long_option_state m
      → Yields (HandlesKept parse_long_option_state) (handle_long_value fmt given token m)
  unfolding handle_long_value read_long_value
  handle_long_value-HandlesKept (some s) token m p h room = (h, room)
  handle_long_value-HandlesKept none token m p h room =
      if-Yields _ (not m.after_equal_sign && not m.context.allow_long_option_value_with_no_equal) _
        _ (λ _. refuse_with-Yields (HandlesKept parse_long_option_state) _ m (λ w. (h, tt)))
        (λ _. deref-Yields _ m.context.active_option _ (λ o q.
          deref-Yields _ o.value_semantic _
            (λ d q2. take_long_value-HandlesKept token o d (parse d token) m h q q2 refl (room p))))

  pub handle_long-HandlesKept :
      (ty : TokenType) (token : Text) (m : Memory)
      → IsKept k m
      → HasRoom k parse_long_option_state m
      → Yields (HandlesKept parse_long_option_state) (handle_long fmt ty token m)
  unfolding handle_long
  handle_long-HandlesKept equal_sign token m h room =
      require-Yields _ (is_some m.context.active_option) _ (λ _.
        deref-Yields _ m.context.active_option _
          (λ o _. require-Yields _ (is_some o.value_semantic) _ (λ _. (same_IsKept k m h, room))))
  handle_long-HandlesKept value token m h room =
      require-Yields _ (is_some m.context.active_option) _ (λ _.
        deref-Yields _ m.context.active_option _ (λ o _.
          require-Yields _ (is_some o.value_semantic) _
            (λ _. handle_long_value-HandlesKept m.long_value token m refl h room)))
  handle_long-HandlesKept _ token m h room = (h, room)
