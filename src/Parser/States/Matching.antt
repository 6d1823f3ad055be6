-- ===== src/Parser/States/Matching.antt =====
-- IdentifyCommandState (clap/src/parser/states.h): the last command that matched.
use asap_clap.Base.{
  Bool, true, not, ◌&&◌, List, [], ◌∷◌, ◌++◌, ◌≡◌, refl, sym, ◌∙◌, arith, length, All, select,
  Option, none, some, Text, text_eq_iff, is_empty, ◌==◌, done, >>=-elim, Bool-cases, inl, inr,
  require, if◌then◌else◌, subst,
}
use asap_clap.Fsm.{do_nothing}
use asap_clap.Format.{Fmt}
use asap_clap.Tokenizer.{value}
use asap_clap.Commands.{Command}
use asap_clap.Parser.States.Identify.{keeps, narrow, handle_identify_value, handle_identify}
use asap_clap.Parser.States.Narrowing.{
  is_prefix, in_play, IsNarrowed, prefix-keeps, no_command_left-do_nothing,
}
use asap_clap.Parser.Machine.{Memory}

-- The path of the command, if there is one, is a prefix of the segments seen.
abbrev pub matches : List Text → Option Command → Bool
matches segments none = true
matches segments (some c) = is_prefix c.path segments

abbrev pub IsMatch : Memory → Type 0
IsMatch m = matches m.path_segments m.last_matched_command ≡ true

prefix-longer :
    (path segments : List Text) (token : Text)
    → is_prefix path segments ≡ true
    → is_prefix path (segments ++ token ∷ []) ≡ true
prefix-longer [] segments token h = refl
prefix-longer (p ∷ path) [] token h = absurd cc
prefix-longer (p ∷ path) (s ∷ segments) token h = ground (arith, prefix-longer path segments token)

-- Two lists of one length, of which one is a prefix of the other.
pub prefix-flip :
    (segments path : List Text)
    → is_prefix segments path ≡ true
    → (length path == length segments) ≡ true
    → is_prefix path segments ≡ true
prefix-flip [] [] h e = refl
prefix-flip [] (p ∷ path) h e = absurd (ground arith)
prefix-flip (s ∷ segments) [] h e = refl
prefix-flip (s ∷ segments) (p ∷ path) h e =
    ground (arith, text_eq_iff p s, text_eq_iff s p, prefix-flip segments path)

matches-longer :
    (o : Option Command) (segments : List Text) (token : Text)
    → matches segments o ≡ true
    → matches (segments ++ token ∷ []) o ≡ true
matches-longer none segments token h = refl
matches-longer (some c) segments token h = prefix-longer c.path segments token h

All-select : (p : Command → Bool) (cs : List Command) → All (λ c. p c ≡ true) (select p cs)
All-select p [] = tt
All-select p (c ∷ cs) = elim (Bool-cases (p c)) [
  | inl holds ↦ rw holds (holds, All-select p cs)
  | inr fails ↦ rw fails (All-select p cs)
]

pub and-first : (a b : Bool) → (a && b) ≡ true → a ≡ true
and-first a b h = ground arith

pub and-second : (a b : Bool) → (a && b) ≡ true → b ≡ true
and-second a b h = ground arith

module _ (segments : List Text) (token : Text) where
  abbrev longer : List Text
  longer = segments ++ token ∷ []

  -- The match after one command.
  one-matches :
      (c : Command) (matched : Option Command)
      → in_play segments c ≡ true
      → matches longer matched ≡ true
      → matches longer (
          if keeps (length longer) token c && length c.path == length longer
          then some c
          else matched)
        ≡ true
  one-matches c matched p h =
      elim (Bool-cases (keeps (length longer) token c && length c.path == length longer)) [
        | inl both ↦
            let kept : keeps (length longer) token c ≡ true = and-first _ _ both in
            let all_of_it : (length c.path == length longer) ≡ true = and-second _ _ both in
            let here : in_play longer c ≡ true =
              prefix-keeps segments token c ∙ rw (p, kept) refl in
            rw both (prefix-flip longer c.path here all_of_it)
        | inr not_both ↦ rw not_both h
      ]

  narrow-matches :
      (cs : List Command) (matched : Option Command)
      → All (λ c. in_play segments c ≡ true) cs
      → matches longer matched ≡ true
      → matches longer (narrow (length longer) token cs matched).1 ≡ true
  unfolding narrow
  narrow-matches [] matched a h = h
  narrow-matches (c ∷ cs) matched (p, a) h = narrow-matches cs _ a (one-matches c matched p h)

-- Where the commands in play are those whose path begins with the segments seen, a value that keeps
-- IdentifyCommandState where it is keeps this: the path of the last match, if there is one, is a
-- prefix of the segments seen.
pub handle_identify-IsMatch :
    (fmt : Fmt) (token : Text) (m m' : Memory)
    → IsNarrowed m
    → IsMatch m
    → handle_identify fmt value token m ≡ done (do_nothing, m')
    → IsMatch m'
unfolding handle_identify handle_identify_value
handle_identify-IsMatch fmt token m m' n h e =
    >>=-elim (require (not (is_empty m.path_segments))) _ e (λ _ _ e'.
      let segments = m.path_segments ++ token ∷ [] in
      let r = narrow (length segments) token m.filtered_commands m.last_matched_command in
      let narrowed : Memory = record m {
        path_segments = segments;
        filtered_commands = r.0;
        last_matched_command = r.1;
      } in
      elim (Bool-cases (is_empty r.0)) [
        | inl gone ↦
            absurd
              (no_command_left-do_nothing fmt r.1 m.default_command narrowed m' (rw gone at e'))
        | inr left ↦
            let e'' = rw left at e' in
            let same : narrowed ≡ m' = ground arith in
            let in_play_all =
              subst (λ cs. All (λ c. in_play m.path_segments c ≡ true) cs) (sym n)
                (All-select (in_play m.path_segments) m.context.commands) in
            rw (← same) (
              narrow-matches m.path_segments token m.filtered_commands m.last_matched_command
                in_play_all (matches-longer m.last_matched_command m.path_segments token h))
      ])
