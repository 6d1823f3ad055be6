-- ===== src/Parser/Loop/Assignments.antt =====
-- clap/src/parser/parser.cpp and states.h: an option with its value, as the parser reads it between two
-- options of a command.
pub mod Run
pub mod Written
pub mod RoundTrip
pub mod Followed
pub mod Unknown
pub mod Repeated
pub mod Path
pub mod Placed
pub mod Named
pub mod Behind
pub mod Rest
pub mod Segments
use asap_clap.Base.{
  ℕ, zero, suc, ◌+◌, ◌*◌, Bool, true, false, not, ◌||◌, List, [], ◌∷◌, ◌++◌, ◌≡◌, refl, sym, ap,
  ◌∙◌, arith, Option, none, some, Text, codes, ltb, Outcome, done, fault, ◌>>=◌, Bool-cases, inl,
  inr,
}
use asap_clap.Fsm.{Status, continue, reissue_event}
use asap_clap.Format.{Fmt}
use asap_clap.Tokenizer.{
  Token, token, TokenType, long_option, short_option, lone_dash, dash_dash, value, equal_sign,
  end_of_input,
}
use asap_clap.Tokenizer.Stream.{front, rest}
use asap_clap.Values.{Any}
use asap_clap.Values.Descriptor.{ValueDescriptor, parse}
use asap_clap.Values.ValuesMap.{OptionValuesMap, occurrences_of, store_value}
use asap_clap.Commands.{ClapOption, Command, find_short_option, find_long_option}
use asap_clap.Parser.Context.{ParserContext, set_active_command}
use asap_clap.Parser.States.Handlers.{machine, handle, on_leave, on_enter}
use asap_clap.Parser.States.Options.{enter_options, handle_options, check_multiple_occurrence}
use asap_clap.Parser.States.ShortOption.{
  enter_found, with_flag, with_option_active, store_token, leave_option, enter_short, leave_short,
  handle_short, handle_short_value,
}
use asap_clap.Parser.States.LongOption.{enter_long, leave_long, handle_long, handle_long_value}
use asap_clap.Parser.Machine.{
  State, parse_options_state, parse_short_option_state, parse_long_option_state, Memory,
}
use asap_clap.Parser.Loop.{Parsed, react}
use asap_clap.Parser.Loop.Tokens.{step, run_tokens}

-- `--name=text`, `--name text` and `-name text`
pub data Form : Type 0 where
  with_equal with_space short_form : Form

-- An option given by its name in one of the forms, and the text of its value.
pub record Assignment : Type 0 where
  pub form : Form
  pub name : Text
  pub text : Text
  pub option : ClapOption
  pub semantics : ValueDescriptor
  pub value : Any

abbrev pub found_by : Form → Text → Command → Option ClapOption
found_by short_form name command = find_short_option name command
found_by _ name command = find_long_option name command

abbrev pub flag_by : Form → Text → Text
flag_by short_form name = codes "-" ++ name
flag_by _ name = codes "--" ++ name

-- The option that the name stands for takes values that the descriptor reads, and the text is read
-- as the value.
pub record Means (command : Command) (a : Assignment) : Type 0 where
  pub found : found_by a.form a.name command ≡ some a.option
  pub described : a.option.value_semantic ≡ some a.semantics
  pub read : parse a.semantics a.text ≡ some a.value

-- The option may still be given: it was not, or it is repeatable.
abbrev pub may_occur : Assignment → OptionValuesMap → Bool
may_occur a ovm = ltb (occurrences_of a.option.key ovm) 1 || a.semantics.repeatable

-- The map with the value behind those of the option.
abbrev pub assigned : Assignment → OptionValuesMap → OptionValuesMap
assigned a ovm =
    store_value a.option.key
      (record { value = a.value; original_token = a.text; defaulted = false }) ovm

-- The context with the option the active one, and then with the value stored.
abbrev pub naming : Assignment → ParserContext → ParserContext
naming a c = with_option_active a.option (with_flag (flag_by a.form a.name) c)

abbrev pub after : Assignment → ParserContext → ParserContext
after a c = store_token a.option a.value a.text (naming a c)

abbrev pub ready : Command → ParserContext → ParserContext
ready command c = record c {
  base = record c.base {
    active_command = some command;
    allow_long_option_value_with_no_equal = true;
  };
}

-- The memory between two options of a command, and that while an option is parsed, with the value
-- that it was given.
abbrev pub settled : Command → ParserContext → Memory → Memory
settled command c m = record m {
  context = ready command c;
  options_has_context = true;
  short_value = none;
  long_value = none;
  after_equal_sign = false;
}

abbrev pub in_long : Option Text → Bool → Memory → Memory
in_long given behind m = record m { long_value = given; after_equal_sign = behind }

abbrev pub in_short : Option Text → Memory → Memory
in_short given m = record m { short_value = given }

-- The tokens that may stand behind an option with its value.
abbrev pub opens : TokenType → Bool
opens equal_sign = false
opens _ = true

occurs-check :
    (command : Command) (a : Assignment) (c : ParserContext)
    → a.option.value_semantic ≡ some a.semantics
    → may_occur a c.ovm ≡ true
    → check_multiple_occurrence (ready command (naming a c)) ≡ done true
unfolding check_multiple_occurrence
occurs-check command a c d h = elim (Bool-cases (ltb (occurrences_of a.option.key c.ovm) 1)) [
  | inl never ↦ rw never refl
  | inr before ↦ rw (before, d) (ap (λ b. done b) (rw before at h))
]

module _ (fmt : Fmt) (command : Command) (m : Memory) where
  -- Steps in ParseLongOptionState.
  module _ (a : Assignment) (c : ParserContext) where
    abbrev pub long_memory : Memory
    long_memory = settled command (naming a c) m

    pub step-equal_sign :
        (s : Text)
        → a.option.value_semantic ≡ some a.semantics
        → step fmt (token equal_sign s) parse_long_option_state long_memory
          ≡ done (continue, parse_long_option_state, in_long none true long_memory)
    unfolding step machine handle handle_long
    step-equal_sign s d = rw d refl

    pub step-long_value :
        (behind : Bool)
        → a.option.value_semantic ≡ some a.semantics
        → parse a.semantics a.text ≡ some a.value
        → step fmt (token value a.text) parse_long_option_state (in_long none behind long_memory)
          ≡ done (
            continue,
            parse_long_option_state,
            in_long (some a.text) behind (settled command (after a c) m),
          )
    unfolding step machine handle handle_long
    step-long_value true d r = rw (d, r) refl
    step-long_value false d r = rw (d, r) refl

    pub step-short_value :
        a.option.value_semantic ≡ some a.semantics
        → parse a.semantics a.text ≡ some a.value
        → step fmt (token value a.text) parse_short_option_state long_memory
          ≡ done (
            continue,
            parse_short_option_state,
            in_short (some a.text) (settled command (after a c) m),
          )
    unfolding step machine handle handle_short
    step-short_value d r = rw (d, r) refl

    pub step-long_option :
        (name : Text)
        → find_long_option name command ≡ some a.option
        → flag_by a.form a.name ≡ codes "--" ++ name
        → a.option.value_semantic ≡ some a.semantics
        → may_occur a c.ovm ≡ true
        → step fmt (token long_option name) parse_options_state (settled command c m)
          ≡ done (continue, parse_long_option_state, long_memory)
    unfolding step machine handle on_leave on_enter handle_options enter_long enter_found
    step-long_option name f g d h = rw (← g, f, occurs-check command a c d h) refl

    pub step-short_option :
        (name : Text)
        → find_short_option name command ≡ some a.option
        → flag_by a.form a.name ≡ codes "-" ++ name
        → a.option.value_semantic ≡ some a.semantics
        → may_occur a c.ovm ≡ true
        → step fmt (token short_option name) parse_options_state (settled command c m)
          ≡ done (continue, parse_short_option_state, long_memory)
    unfolding step machine handle on_leave on_enter handle_options enter_short enter_found
    step-short_option name f g d h = rw (← g, f, occurs-check command a c d h) refl

  -- An option that has its value: the next token is handled as one of the command.
  module _ (c : ParserContext) (given : Text) (option : ClapOption) (semantics : ValueDescriptor)
      (active : c.active_option ≡ some option)
      (takes : option.value_semantic ≡ some semantics) where
    pub step-out_of_long :
        (behind : Bool) (ty : TokenType) (s : Text)
        → opens ty ≡ true
        → step fmt
            (token ty s)
            parse_long_option_state
            (in_long (some given) behind (settled command c m))
          ≡ done (reissue_event, parse_options_state, settled command c m)
    unfolding step machine handle handle_long handle_long_value on_leave on_enter leave_long
        leave_option enter_options
    step-out_of_long behind value s h = rw (active, takes) refl
    step-out_of_long behind equal_sign s h = absurd cc
    step-out_of_long behind _ s h = refl

    pub step-out_of_short :
        (ty : TokenType) (s : Text)
        → opens ty ≡ true
        → step fmt
            (token ty s)
            parse_short_option_state
            (in_short (some given) (settled command c m))
          ≡ done (reissue_event, parse_options_state, settled command c m)
    unfolding step machine handle handle_short handle_short_value on_leave on_enter leave_short
        leave_option enter_options
    step-out_of_short value s h = rw (active, takes) refl
    step-out_of_short equal_sign s h = absurd cc
    step-out_of_short _ s h = refl
