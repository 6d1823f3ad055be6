-- ===== src/Parser/States/Kept/Enter.antt =====
-- clap/src/parser/states.h, ParseShortOptionState and ParseLongOptionState: the values that they store.
use asap_clap.Base.{
  Bool, List, [], ◌∷◌, ◌++◌, All, refl, ◌∙◌, Option, none, some, Text, codes, find_if, Outcome,
  ◌>>=◌, deref, Yields, Yields-weaken, IfSome, IfSome-some, done-Yields, deref-Yields,
  require-Yields, if-Yields, Bool-cases, inl, inr,
}
use asap_clap.Fsm.{Status, continue, terminate, reissue_event, terminate_with_error}
use asap_clap.Format.{Fmt}
use asap_clap.Tokenizer.{TokenType, short_option, long_option, lone_dash}
use asap_clap.Values.Descriptor.{is_some}
use asap_clap.Commands.{ClapOption, Command, find_short_option, find_long_option}
use asap_clap.Parser.Context.{ParserContext}
use asap_clap.Parser.States.Options.{check_multiple_occurrence}
use asap_clap.Parser.States.ShortOption.{
  enter_found, enter_short, with_context, with_flag, with_option_active,
}
use asap_clap.Parser.States.LongOption.{enter_long}
use asap_clap.Parser.States.Kept.{Discipline, Allows, KeptIn, IsKept, IsFree, HasRoom, check-IsFree}
use asap_clap.Parser.Machine.{
  State, parse_short_option_state, parse_long_option_state, Memory, fail_with,
}

pub All-find_if :
    {A : Type 0} (P : A → Type 0) (p : A → Bool) (xs : List A) → All P xs → IfSome P (find_if p xs)
All-find_if P p [] h = tt
All-find_if P p (x ∷ xs) h = elim (Bool-cases (p x)) [
  | inl yes' ↦ rw yes' h.0
  | inr no' ↦ rw no' (All-find_if P p xs h.1)
]

pub fail_with-Yields :
    (Q : Status × Memory → Type 0) (why : Outcome Text) (m : Memory)
    → ((w : Text) → Q (terminate_with_error w, m))
    → Yields Q (fail_with why m)
fail_with-Yields Q why m k = done-Yields Q why _ (λ w _. k w)

module _ (k : Discipline) where
  -- What holds behind an event: there is room for a value while the machine goes on.
  abbrev pub Going : Status → Type 0 → Type 0
  Going continue R = R
  Going reissue_event R = R
  Going _ R = Unit

  abbrev pub EntersKept : State → Status × Memory → Type 0
  EntersKept s r = IsKept k r.1 × Going r.0 (HasRoom k s r.1)

  -- The memory with another context.
  pub with_context-IsKept :
      (c : ParserContext) (m : Memory) → KeptIn k c → IsKept k m → IsKept k (with_context c m)
  with_context-IsKept c m h once = record {
    in_context = h;
    filtered_allow = once.filtered_allow;
    matched_allows = once.matched_allows;
    default_allows = once.default_allows;
  }

  -- The values of the option states do not matter.
  pub same_IsKept :
      {short long : Option Text} {has_context behind : Bool} (m : Memory)
      → IsKept k m
      → IsKept k (record m {
        short_value = short;
        long_value = long;
        after_equal_sign = behind;
        options_has_context = has_context;
      })
  same_IsKept m h = record {
    in_context = h.in_context;
    filtered_allow = h.filtered_allow;
    matched_allows = h.matched_allows;
    default_allows = h.default_allows;
  }

  module _ (fmt : Fmt) where
    -- The option that was looked up has room in both states.
    abbrev FoundKept : Status × Memory → Type 0
    FoundKept r = IsKept k r.1 × Going r.0 (IsFree k r.1.context)

    enter_found-FoundKept :
        (token : Text) (o : Option ClapOption) (m : Memory)
        → IfSome k.Named o
        → IsKept k m
        → Yields FoundKept (enter_found fmt token o m)
    unfolding enter_found
    enter_found-FoundKept token none m p h = (h, tt)
    enter_found-FoundKept token (some option) m p h =
        let active = with_option_active option m.context in
        let once : IsKept k (with_context active m) =
          with_context-IsKept active m
            (record {
              all_allow = h.in_context.all_allow;
              active_allows = h.in_context.active_allows;
              good = h.in_context.good;
            })
            h in
        done-Yields FoundKept (check_multiple_occurrence active) _ (λ fits checked.
          if-Yields FoundKept fits _ _
            (λ yes'. (once, check-IsFree k option active refl p (checked ∙ rw yes' refl)))
            (λ no'. fail_with-Yields FoundKept _ _ (λ w. (once, tt))))

    -- OnEnter of both states
    with_flag-IsKept :
        (flag : Text) (m : Memory)
        → IsKept k m
        → IsKept k (with_context (with_flag flag m.context) m)
    with_flag-IsKept flag m h =
        with_context-IsKept (with_flag flag m.context) m
          (record {
            all_allow = h.in_context.all_allow;
            active_allows = h.in_context.active_allows;
            good = h.in_context.good;
          })
          h

    has_room :
        (r : Status × Memory)
        → FoundKept r
        → EntersKept parse_short_option_state r × EntersKept parse_long_option_state r
    has_room (continue, m) h = ((h.0, λ _. h.1), (h.0, λ _. h.1))
    has_room (reissue_event, m) h = ((h.0, λ _. h.1), (h.0, λ _. h.1))
    has_room (terminate, m) h = (h, h)
    has_room (terminate_with_error why, m) h = (h, h)

    named-FoundKept :
        (look_up : Command → Option ClapOption) (flag token : Text) (m : Memory)
        → ((c : Command) → Allows k c → IfSome k.Named (look_up c))
        → IsKept k m
        → Yields FoundKept (
            deref m.context.active_command >>= λ command.
            enter_found fmt token (look_up command) (with_context (with_flag flag m.context) m))
    named-FoundKept look_up flag token m ok h =
        deref-Yields FoundKept m.context.active_command _ (λ command p.
          enter_found-FoundKept token (look_up command) _
            (ok command (IfSome-some (Allows k) _ h.in_context.active_allows p))
            (with_flag-IsKept flag m h))

    enter_short_named-EntersKept :
        (token : Text) (m : Memory)
        → IsKept k m
        → Yields (EntersKept parse_short_option_state) (
            deref m.context.active_command >>= λ command.
            enter_found fmt token
              (find_short_option token command)
              (with_context (with_flag (codes "-" ++ token) m.context) m))
    unfolding find_short_option
    enter_short_named-EntersKept token m h =
        Yields-weaken FoundKept _ _ (λ r found. (has_room r found).0)
          (named-FoundKept (find_short_option token) _ token m
            (λ c ok. All-find_if _ _ c.options ok.all_named) h)

    pub enter_short-EntersKept :
        (ty : TokenType) (token : Text) (m : Memory)
        → IsKept k m
        → Yields (EntersKept parse_short_option_state) (enter_short fmt ty token m)
    unfolding enter_short
    enter_short-EntersKept short_option token m h =
        require-Yields _ (is_some m.context.active_command) _
          (λ _. enter_short_named-EntersKept token m h)
    enter_short-EntersKept lone_dash token m h =
        require-Yields _ (is_some m.context.active_command) _
          (λ _. enter_short_named-EntersKept token m h)
    enter_short-EntersKept _ token m h = tt

    pub enter_long-EntersKept :
        (ty : TokenType) (token : Text) (m : Memory)
        → IsKept k m
        → Yields (EntersKept parse_long_option_state) (enter_long fmt ty token m)
    unfolding enter_long find_long_option
    enter_long-EntersKept long_option token m h =
        require-Yields _ (is_some m.context.active_command) _ (λ _.
          Yields-weaken FoundKept _ _ (λ r found. (has_room r found).1)
            (named-FoundKept (find_long_option token) _ token m
              (λ c ok. All-find_if _ _ c.options ok.all_named) h))
    enter_long-EntersKept _ token m h = tt
