-- ===== src/Parser/States/Kept/Identify.antt =====
-- clap/src/parser/states.h, IdentifyCommandState: it stores no value.
use asap_clap.Base.{
  not, List, [], ◌∷◌, ◌++◌, All, All-append, Option, none, some, Text, Yields, IfSome,
  require-Yields, if-Yields, if-holds, length, is_empty, ◌==◌, if◌then◌else◌,
}
use asap_clap.Format.{Fmt}
use asap_clap.Tokenizer.{TokenType, dash_dash, value, end_of_input}
use asap_clap.Commands.{Command, is_default}
use asap_clap.Parser.Context.{set_active_command}
use asap_clap.Parser.States.Initial.{starts_path}
use asap_clap.Parser.States.Identify.{
  enter_one, enter_scan, enter_identify, leave_identify, narrow, no_command_left,
  handle_identify_value, after_match, end_of_path, handle_identify_other, handle_identify,
}
use asap_clap.Parser.States.Kept.{Discipline, Allows, IsKept}
use asap_clap.Parser.States.Among.{narrow-All}
use asap_clap.Parser.States.Kept.Commands.{Handles, Enters}
use asap_clap.Parser.Machine.{Memory}

module _ (k : Discipline) where
  enter_one-IsKept :
      (token : Text) (c : Command) (m : Memory)
      → Allows k c
      → IsKept k m
      → IsKept k (enter_one token c m)
  unfolding enter_one
  enter_one-IsKept token c m a h =
      let seen = if is_default c then record m { default_command = some c } else m in
      let once : IsKept k seen =
        if-holds (IsKept k) (is_default c) _ m
          (record {
            in_context = h.in_context;
            filtered_allow = h.filtered_allow;
            matched_allows = h.matched_allows;
            default_allows = a;
          })
          h in
      if-holds (IsKept k) (starts_path token c.path) _ seen
        (record {
          in_context = once.in_context;
          filtered_allow =
              All-append (Allows k) m.filtered_commands (c ∷ []) h.filtered_allow (a, tt);
          matched_allows =
              if-holds (IfSome (Allows k)) (length c.path == 1) (some c) m.last_matched_command a
                h.matched_allows;
          default_allows = once.default_allows;
        })
        once

  enter_scan-IsKept :
      (token : Text) (cs : List Command) (m : Memory)
      → All (Allows k) cs
      → IsKept k m
      → IsKept k (enter_scan token cs m)
  unfolding enter_scan
  enter_scan-IsKept token [] m a h = h
  enter_scan-IsKept token (c ∷ cs) m a h =
      enter_scan-IsKept token cs (enter_one token c m) a.1 (enter_one-IsKept token c m a.0 h)

  with_segments-IsKept :
      (segments : List Text) (m : Memory)
      → IsKept k m
      → IsKept k (record m { path_segments = segments })
  with_segments-IsKept segments m h = record {
    in_context = h.in_context;
    filtered_allow = h.filtered_allow;
    matched_allows = h.matched_allows;
    default_allows = h.default_allows;
  }

  pub enter_identify-IsKept :
      (token : Text) (m : Memory) → IsKept k m → Yields (Enters k) (enter_identify token m)
  unfolding enter_identify
  enter_identify-IsKept token m h =
      let found =
        enter_scan token m.context.commands
          (record m { path_segments = m.path_segments ++ token ∷ [] }) in
      require-Yields (Enters k) (not (is_empty m.context.commands)) _ (λ _.
        require-Yields (Enters k) (not (is_empty found.filtered_commands)) _ (λ _.
          enter_scan-IsKept token m.context.commands _ h.in_context.all_allow
            (with_segments-IsKept _ m h)))

  pub leave_identify-IsKept : (m : Memory) → IsKept k m → Yields (Enters k) (leave_identify m)
  unfolding leave_identify
  leave_identify-IsKept m h = record {
    in_context = h.in_context;
    filtered_allow = tt;
    matched_allows = tt;
    default_allows = tt;
  }

  -- The context with another active command.
  active-IsKept :
      (c : Command) (positional : List Text) (m : Memory)
      → Allows k c
      → IsKept k m
      → IsKept k (record m {
        context = record (set_active_command c m.context) { positional_tokens = positional };
      })
  active-IsKept c positional m a h = record {
    in_context = record {
      all_allow = h.in_context.all_allow;
      active_allows = a;
      good = h.in_context.good;
    };
    filtered_allow = h.filtered_allow;
    matched_allows = h.matched_allows;
    default_allows = h.default_allows;
  }

  after_match-IsKept :
      (ty : TokenType) (m : Memory) → IsKept k m → Yields (Handles k) (after_match ty m)
  after_match-IsKept dash_dash m h = h
  after_match-IsKept end_of_input m h = h
  after_match-IsKept _ m h = h

  no_command_left-IsKept :
      (fmt : Fmt) (matched default : Option Command) (m : Memory)
      → IfSome (Allows k) matched
      → IfSome (Allows k) default
      → IsKept k m
      → Yields (Handles k) (no_command_left fmt matched default m)
  unfolding no_command_left
  no_command_left-IsKept fmt (some c) default m a b h =
      active-IsKept c m.context.positional_tokens m a h
  no_command_left-IsKept fmt none none m a b h = h
  no_command_left-IsKept fmt none (some c) m a b h =
      require-Yields (Handles k) (is_empty m.context.positional_tokens) _
        (λ _. with_segments-IsKept _ _ (active-IsKept c _ m b h))

  handle_identify_value-IsKept :
      (fmt : Fmt) (token : Text) (m : Memory)
      → IsKept k m
      → Yields (Handles k) (handle_identify_value fmt token m)
  unfolding handle_identify_value
  handle_identify_value-IsKept fmt token m h =
      let segments = m.path_segments ++ token ∷ [] in
      let n = length segments in
      let r = narrow n token m.filtered_commands m.last_matched_command in
      let (kept, found) =
        narrow-All (Allows k) n token m.filtered_commands m.last_matched_command h.filtered_allow
          h.matched_allows in
      let narrowed : IsKept k (record m {
        path_segments = segments;
        filtered_commands = r.0;
        last_matched_command = r.1;
      }) =
        record {
          in_context = h.in_context;
          filtered_allow = kept;
          matched_allows = found;
          default_allows = h.default_allows;
        } in
      require-Yields (Handles k) (not (is_empty m.path_segments)) _ (λ _.
        if-Yields (Handles k) (is_empty r.0) _ _
          (λ _. no_command_left-IsKept fmt r.1 m.default_command _ found h.default_allows narrowed)
          (λ _. narrowed))

  end_of_path-IsKept :
      (fmt : Fmt) (ty : TokenType) (matched default : Option Command) (m : Memory)
      → IfSome (Allows k) matched
      → IfSome (Allows k) default
      → IsKept k m
      → Yields (Handles k) (end_of_path fmt ty matched default m)
  unfolding end_of_path
  end_of_path-IsKept fmt ty (some c) default m a b h =
      after_match-IsKept ty _ (active-IsKept c m.context.positional_tokens m a h)
  end_of_path-IsKept fmt ty none (some c) m a b h =
      require-Yields (Handles k) (is_empty m.context.positional_tokens) _
        (λ _. active-IsKept c _ m b h)
  end_of_path-IsKept fmt ty none none m a b h = h

  pub handle_identify-IsKept :
      (fmt : Fmt) (ty : TokenType) (token : Text) (m : Memory)
      → IsKept k m
      → Yields (Handles k) (handle_identify fmt ty token m)
  unfolding handle_identify handle_identify_other
  handle_identify-IsKept fmt value token m h = handle_identify_value-IsKept fmt token m h
  handle_identify-IsKept fmt ty token m h =
      require-Yields (Handles k) (not (is_empty m.path_segments)) _ (λ _.
        end_of_path-IsKept fmt ty m.last_matched_command m.default_command m h.matched_allows
          h.default_allows h)
