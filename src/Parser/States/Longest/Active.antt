-- ===== src/Parser/States/Longest/Active.antt =====
-- IdentifyCommandState (clap/src/parser/states.h): the command that becomes the active one.
use asap_clap.Base.{
  Bool, not, [], ◌∷◌, ◌++◌, ◌≡◌, refl, sym, ap, ◌∙◌, arith, length, Option, none, some, Text,
  is_empty, done, >>=-elim, Bool-cases, inl, inr, require,
}
use asap_clap.Fsm.{transition_to}
use asap_clap.Format.{Fmt}
use asap_clap.Tokenizer.{TokenType, value, dash_dash, end_of_input}
use asap_clap.Commands.{Command}
use asap_clap.Parser.Context.{set_active_command}
use asap_clap.Parser.States.Identify.{
  narrow, no_command_left, pop_back, fall_back, after_match, end_of_path, handle_identify_value,
  handle_identify_other, handle_identify,
}
use asap_clap.Parser.States.Narrowing.{IsNarrowed}
use asap_clap.Parser.States.Matching.{IsMatch}
use asap_clap.Parser.Machine.{State, Memory}
use asap_clap.Parser.States.Longest.{IsLongest, narrowed-LongestOf}

-- The command becomes the active one, and is one of the longest.
abbrev pub Activates : Command → Memory → Type 0
Activates c m = (m.context.active_command ≡ some c) × IsLongest m

no_command_left-Activates :
    (fmt : Fmt) (matched default : Option Command) (m m' : Memory) (s : State) (b : Bool)
    (c : Command)
    → m.last_matched_command ≡ matched
    → IsLongest m
    → no_command_left fmt matched default m ≡ done (transition_to s b, m')
    → m'.last_matched_command ≡ some c
    → Activates c m'
unfolding no_command_left
no_command_left-Activates fmt (some d) default m m' s b c p h e l =
    let same : record m { context = set_active_command d m.context } ≡ m' = ground arith in
    let eq = sym p ∙ ap (λ (x : Memory). x.last_matched_command) same ∙ l in
    let it : d ≡ c = ground arith in rw (← same) (ap (λ x. some x) it, h)
no_command_left-Activates fmt none none m m' s b c p h e l = absurd (ground arith)
no_command_left-Activates fmt none (some d) m m' s b c p h e l =
    >>=-elim (require (is_empty m.context.positional_tokens)) _ e (λ _ _ e'.
      let segments = pop_back m.path_segments in
      let same : record m { path_segments = segments; context = fall_back d segments m.context }
          ≡ m' =
        ground arith in
      let eq = sym p ∙ ap (λ (x : Memory). x.last_matched_command) same ∙ l in absurd cc)

after_match_same :
    (ty : TokenType) (m m' : Memory) (s : State) (b : Bool)
    → after_match ty m ≡ done (transition_to s b, m')
    → m ≡ m'
after_match_same dash_dash m m' s b e = ground arith
after_match_same end_of_input m m' s b e = ground arith
after_match_same _ m m' s b e = ground arith

after_match-Activates :
    (ty : TokenType) (m m' : Memory) (s : State) (b : Bool) (d c : Command)
    → m.last_matched_command ≡ some d
    → IsLongest m
    → after_match ty (record m { context = set_active_command d m.context })
      ≡ done (transition_to s b, m')
    → m'.last_matched_command ≡ some c
    → Activates c m'
after_match-Activates ty m m' s b d c p h e l =
    let same : record m { context = set_active_command d m.context } ≡ m' =
      after_match_same ty _ m' s b e in
    let eq = sym p ∙ ap (λ (x : Memory). x.last_matched_command) same ∙ l in
    let it : d ≡ c = ground arith in rw (← same) (ap (λ x. some x) it, h)

end_of_path-Activates :
    (fmt : Fmt) (ty : TokenType) (matched default : Option Command) (m m' : Memory) (s : State)
    (b : Bool) (c : Command)
    → m.last_matched_command ≡ matched
    → IsLongest m
    → end_of_path fmt ty matched default m ≡ done (transition_to s b, m')
    → m'.last_matched_command ≡ some c
    → Activates c m'
unfolding end_of_path
end_of_path-Activates fmt ty (some d) default m m' s b c p h e l =
    after_match-Activates ty m m' s b d c p h e l
end_of_path-Activates fmt ty none none m m' s b c p h e l = absurd (ground arith)
end_of_path-Activates fmt ty none (some d) m m' s b c p h e l =
    >>=-elim (require (is_empty m.context.positional_tokens)) _ e (λ _ _ e'.
      let same : record m { context = fall_back d m.path_segments m.context } ≡ m' = ground arith in
      let eq = sym p ∙ ap (λ (x : Memory). x.last_matched_command) same ∙ l in absurd cc)

value-Activates :
    (fmt : Fmt) (token : Text) (m m' : Memory) (s : State) (b : Bool) (c : Command)
    → IsNarrowed m
    → IsMatch m
    → IsLongest m
    → handle_identify_value fmt token m ≡ done (transition_to s b, m')
    → m'.last_matched_command ≡ some c
    → Activates c m'
unfolding handle_identify_value
value-Activates fmt token m m' s b c n match h e l =
    >>=-elim (require (not (is_empty m.path_segments))) _ e (λ _ _ e'.
      let segments = m.path_segments ++ token ∷ [] in
      let r = narrow (length segments) token m.filtered_commands m.last_matched_command in
      let narrowed : Memory = record m {
        path_segments = segments;
        filtered_commands = r.0;
        last_matched_command = r.1;
      } in
      elim (Bool-cases (is_empty r.0)) [
        | inl gone ↦
            no_command_left-Activates fmt r.1 m.default_command narrowed m' s b c refl
              (narrowed-LongestOf token m n match h) (rw gone at e') l
        | inr left ↦ absurd (let e'' = rw left at e' in ground arith)
      ])

-- Where the commands in play are those whose path begins with the segments seen, and the last match
-- is one of the longest commands whose whole path was given: if IdentifyCommandState goes on to
-- another state with a last match, then that command is the active one, and no command whose whole
-- path was given is longer.
pub handle_identify-Activates :
    (fmt : Fmt) (ty : TokenType) (token : Text) (m m' : Memory) (s : State) (b : Bool) (c : Command)
    → IsNarrowed m
    → IsMatch m
    → IsLongest m
    → handle_identify fmt ty token m ≡ done (transition_to s b, m')
    → m'.last_matched_command ≡ some c
    → Activates c m'
unfolding handle_identify handle_identify_other
handle_identify-Activates fmt value token m m' s b c n match h e l =
    value-Activates fmt token m m' s b c n match h e l
handle_identify-Activates fmt ty token m m' s b c n match h e l =
    >>=-elim (require (not (is_empty m.path_segments))) _ e (λ _ _ e'.
      end_of_path-Activates fmt ty m.last_matched_command m.default_command m m' s b c refl h e' l)
