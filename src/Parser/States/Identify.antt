-- ===== src/Parser/States/Identify.antt =====
-- clap/src/parser/states.h, IdentifyCommandState: narrows the commands down by the path segments on the command line.
use asap_clap.Base.{
  ℕ, zero, suc, ◌-◌, Bool, true, false, not, ◌&&◌, List, [], ◌∷◌, ◌++◌, Option, none, some, Text,
  text_eq, is_empty, length, leb, ◌==◌, if◌then◌else◌, ◌>>◌, require,
}
use asap_clap.Format.{Fmt}
use asap_clap.Tokenizer.{TokenType, dash_dash, value, end_of_input}
use asap_clap.Commands.{Command, is_default}
use asap_clap.Parser.Context.{ParserContext, set_active_command}
use asap_clap.Parser.Errors.{unrecognized_command}
use asap_clap.Parser.States.Initial.{starts_path}
use asap_clap.Parser.Machine.{
  Memory, Handled, Entered, go_to, stay, refuse, proceed, parse_options_state, dash_dash_state,
  final_state,
}

-- `command_path[i] == token`
abbrev pub segment_is : List Text → ℕ → Text → Bool
segment_is [] i token = false
segment_is (s ∷ path) zero token = text_eq s token
segment_is (s ∷ path) (suc i) token = segment_is path i token

-- The lambda of `std::copy_if`, on one command.
unfoldable pub enter_one : Text → Command → Memory → Memory
enter_one token c m =
    let seen = if is_default c then record m { default_command = some c } else m in
    if starts_path token c.path
    then record seen {
      filtered_commands = m.filtered_commands ++ c ∷ [];
      last_matched_command = if length c.path == 1 then some c else m.last_matched_command;
    }
    else seen

unfoldable pub enter_scan : Text → List Command → Memory → Memory
unfolding enter_one
enter_scan token [] m = m
enter_scan token (c ∷ cs) m = enter_scan token cs (enter_one token c m)

-- OnEnter
unfoldable pub enter_identify : Text → Memory → Entered
unfolding enter_scan
enter_identify token m = do
  require (not (is_empty m.context.commands))
  let found =
      enter_scan token m.context.commands
        (record m { path_segments = m.path_segments ++ token ∷ [] })
  require (not (is_empty found.filtered_commands))
  proceed found

-- OnLeave, which calls Reset
unfoldable pub leave_identify : Memory → Entered
leave_identify m = proceed (record m {
  filtered_commands = [];
  last_matched_command = none;
  default_command = none;
  path_segments = [];
})

-- The predicate of `std::remove_if`, negated, and its side effect.
abbrev pub keeps : ℕ → Text → Command → Bool
keeps count token c = leb count (length c.path) && segment_is c.path (count - 1) token

-- The commands kept, and the last match.
unfoldable pub narrow : ℕ → Text → List Command → Option Command → List Command × Option Command
narrow count token [] matched = ([], matched)
narrow count token (c ∷ cs) matched =
    let matched' = if keeps count token c && length c.path == count then some c else matched in
    let (kept, last) = narrow count token cs matched' in
    (if keeps count token c then c ∷ kept else kept, last)

-- `path_segments_.pop_back()`
abbrev pub pop_back {ℓ} : {A : Type ℓ} → List A → List A
pop_back [] = []
pop_back (x ∷ []) = []
pop_back (x ∷ y ∷ xs) = x ∷ pop_back (y ∷ xs)

-- The context with an active command and with segments taken for positional arguments.
abbrev pub fall_back : Command → List Text → ParserContext → ParserContext
fall_back c segments context =
    let active = set_active_command c context in
    record active { positional_tokens = context.positional_tokens ++ segments }

-- Where the machine goes on with the deepest match: the `switch` on the token type.
abbrev pub after_match : TokenType → Memory → Handled
after_match dash_dash m = go_to dash_dash_state true m
after_match end_of_input m = go_to final_state true m
after_match _ m = go_to parse_options_state true m

module _ (fmt : Fmt) where
  -- With no command left: the last match, the default command, or an error.
  unfoldable pub no_command_left : Option Command → Option Command → Memory → Handled
  no_command_left (some c) _ m =
      go_to parse_options_state true (record m { context = set_active_command c m.context })
  no_command_left none none m = refuse (unrecognized_command fmt m.path_segments none) m
  no_command_left none (some c) m = do
    require (is_empty m.context.positional_tokens)
    let segments = pop_back m.path_segments
    go_to parse_options_state true
        (record m { path_segments = segments; context = fall_back c segments m.context })

  -- `Handle` of a value
  unfoldable pub handle_identify_value : Text → Memory → Handled
  unfolding narrow no_command_left
  handle_identify_value token m = do
    require (not (is_empty m.path_segments))
    let segments = m.path_segments ++ token ∷ []
    let (kept, last) = narrow (length segments) token m.filtered_commands m.last_matched_command
    let narrowed = record m {
      path_segments = segments;
      filtered_commands = kept;
      last_matched_command = last;
    }
    if is_empty kept then no_command_left last m.default_command narrowed else stay narrowed

  -- `Handle` of any other token, by the last match and the default command.
  unfoldable pub end_of_path : TokenType → Option Command → Option Command → Memory → Handled
  end_of_path t (some c) _ m = after_match t (record m { context = set_active_command c m.context })
  end_of_path t none (some c) m = do
    require (is_empty m.context.positional_tokens)
    go_to parse_options_state true (record m { context = fall_back c m.path_segments m.context })
  end_of_path t none none m = refuse (unrecognized_command fmt m.path_segments none) m

  unfoldable pub handle_identify_other : TokenType → Memory → Handled
  unfolding end_of_path
  handle_identify_other t m = do
    require (not (is_empty m.path_segments))
    end_of_path t m.last_matched_command m.default_command m

  unfoldable pub handle_identify : TokenType → Text → Memory → Handled
  unfolding handle_identify_value handle_identify_other
  handle_identify value token m = handle_identify_value token m
  handle_identify t token m = handle_identify_other t m
