-- ===== src/Parser/States/Longest.antt =====
-- IdentifyCommandState (clap/src/parser/states.h): the last command that matched, among the commands whose path was given.
pub mod First
pub mod Active
use asap_clap.Base.{
  ℕ, zero, suc, ◌+◌, ◌≤◌, Bool, true, false, not, ◌&&◌, List, [], ◌∷◌, ◌++◌, ◌≡◌, ◌≢◌, ◌⊎◌, refl,
  sym, ap, ◌∙◌, arith, length, length-append, All, select, Option, none, some, Text, text_eq,
  text_eq_iff, is_empty, ◌==◌, done, >>=-elim, Bool-cases, inl, inr, require, if◌then◌else◌, subst,
}
use asap_clap.Fsm.{continue, do_nothing, transition_to}
use asap_clap.Format.{Fmt}
use asap_clap.Tokenizer.{TokenType, value, dash_dash, end_of_input}
use asap_clap.Commands.{Command, is_default}
use asap_clap.Parser.Context.{set_active_command}
use asap_clap.Parser.States.Initial.{starts_path}
use asap_clap.Parser.States.Identify.{
  keeps, narrow, enter_one, enter_scan, enter_identify, no_command_left, pop_back, fall_back,
  after_match, end_of_path, handle_identify_value, handle_identify_other, handle_identify,
}
use asap_clap.Parser.States.Narrowing.{
  is_prefix, in_play, IsNarrowed, prefix-keeps, no_command_left-do_nothing, enter_scan-IsScanned,
}
use asap_clap.Parser.States.Matching.{IsMatch, matches, prefix-flip, and-first, and-second}
use asap_clap.Parser.Machine.{State, Memory}

-- The number of segments of the last match.
abbrev pub depth : Option Command → ℕ
depth none = 0
depth (some c) = length c.path

-- No command whose whole path was given is longer.
abbrev pub LongestOf : List Text → List Command → Option Command → Type 0
LongestOf segments commands matched =
    All (λ c. is_prefix c.path segments ≡ true → length c.path ≤ depth matched) commands

abbrev pub IsLongest : Memory → Type 0
IsLongest m = LongestOf m.path_segments m.context.commands m.last_matched_command

pub prefix-length :
    (path segments : List Text) → is_prefix path segments ≡ true → length path ≤ length segments
prefix-length [] segments h = omega arith
prefix-length (p ∷ path) [] h = absurd cc
prefix-length (p ∷ path) (s ∷ segments) h = ground (arith, prefix-length path segments)

-- A prefix that is not all of a longer list is one of the shorter list.
prefix-shorter :
    (path segments : List Text) (token : Text)
    → is_prefix path (segments ++ token ∷ []) ≡ true
    → length path ≤ length segments
    → is_prefix path segments ≡ true
prefix-shorter [] segments token h l = refl
prefix-shorter (p ∷ path) [] token h l = absurd (omega arith)
prefix-shorter (p ∷ path) (s ∷ segments) token h l =
    ground (arith, prefix-shorter path segments token)

depth-matches :
    (segments : List Text) (o : Option Command)
    → matches segments o ≡ true
    → depth o ≤ length segments
depth-matches segments none h = omega arith
depth-matches segments (some c) h = prefix-length c.path segments h

module _ (count : ℕ) (token : Text) where
  abbrev hits : Command → Bool
  hits c = keeps count token c && length c.path == count

  abbrev next_match : Command → Option Command → Option Command
  next_match c matched = if hits c then some c else matched

  hit-length : (c : Command) → hits c ≡ true → length c.path ≡ count
  hit-length c hit = ground arith

  depth-next_match :
      (c : Command) (matched : Option Command)
      → depth matched ≤ count
      → (depth matched ≤ depth (next_match c matched)) × (depth (next_match c matched) ≤ count)
  depth-next_match c matched h = elim (Bool-cases (hits c)) [
    | inl hit ↦ let whole = hit-length c hit in rw hit (omega arith, omega arith)
    | inr miss ↦ rw miss (omega arith, h)
  ]

  -- A scan never makes the match shorter,
  narrow-deeper :
      (cs : List Command) (matched : Option Command)
      → depth matched ≤ count
      → depth matched ≤ depth (narrow count token cs matched).1
  unfolding narrow
  narrow-deeper [] matched h = omega arith
  narrow-deeper (c ∷ cs) matched h =
      let (up, bound) = depth-next_match c matched h in
      let later = narrow-deeper cs (next_match c matched) bound in omega arith

  -- and it is as long as the segments once one command hits.
  narrow-hits :
      (cs : List Command) (matched : Option Command)
      → depth matched ≤ count
      → All (λ c. hits c ≡ true → count ≤ depth (narrow count token cs matched).1) cs
  unfolding narrow
  narrow-hits [] matched h = tt
  narrow-hits (c ∷ cs) matched h =
      let (up, bound) = depth-next_match c matched h in
      let later = narrow-deeper cs (next_match c matched) bound in
      (
        λ hit.
            let whole = hit-length c hit in
            let new : depth (next_match c matched) ≡ length c.path = rw hit refl in omega arith,
        narrow-hits cs (next_match c matched) bound,
      )

All-select-back :
    (p : Command → Bool) (P : Command → Type 0) (cs : List Command)
    → All P (select p cs)
    → All (λ c. p c ≡ true → P c) cs
All-select-back p P [] h = tt
All-select-back p P (c ∷ cs) h = elim (Bool-cases (p c)) [
  | inl holds ↦ let h' = rw holds at h in (λ _. h'.0, All-select-back p P cs h'.1)
  | inr fails ↦ (λ e. absurd cc, All-select-back p P cs (rw fails at h))
]

module _ (segments : List Text) (token : Text) (old new : Option Command) where
  abbrev longer : List Text
  longer = segments ++ token ∷ []

  -- One command: it was as long as the match before, or it hits now.
  one-LongestOf :
      (c : Command)
      → depth old ≤ depth new
      → (is_prefix c.path segments ≡ true → length c.path ≤ depth old)
      → (in_play segments c ≡ true
          → hits (length longer) token c ≡ true
          → length longer ≤ depth new)
      → is_prefix c.path longer ≡ true
      → length c.path ≤ depth new
  one-LongestOf c up before hit p =
      let more : length longer ≡ length segments + 1 = length-append segments (token ∷ []) in
      let bound = prefix-length c.path longer p in
      elim (Bool-cases (length c.path == length longer)) [
        | inl whole ↦
            let all : length c.path ≡ length longer = ground arith in
            let back : (length longer == length c.path) ≡ true = ground arith in
            let both = sym (prefix-keeps segments token c) ∙ prefix-flip c.path longer p back in
            let kept : keeps (length longer) token c ≡ true =
              and-second (in_play segments c) (keeps (length longer) token c) both in
            let new_hit : hits (length longer) token c ≡ true = rw (kept, whole) refl in
            let deep : length longer ≤ depth new =
              hit (and-first (in_play segments c) (keeps (length longer) token c) both) new_hit in
            omega arith
        | inr part ↦
            let other : length c.path ≢ length longer = ground arith in
            let short : length c.path ≤ length segments = omega arith in
            let deep = before (prefix-shorter c.path segments token p short) in omega arith
      ]

  command_list-LongestOf :
      (cs : List Command)
      → depth old ≤ depth new
      → LongestOf segments cs old
      → All
          (λ c.
            in_play segments c ≡ true
            → hits (length longer) token c ≡ true
            → length longer ≤ depth new)
          cs
      → LongestOf longer cs new
  command_list-LongestOf [] up before hit = tt
  command_list-LongestOf (c ∷ cs) up before hit =
      (one-LongestOf c up before.0 hit.0, command_list-LongestOf cs up before.1 hit.1)

pub narrowed-LongestOf :
    (token : Text) (m : Memory)
    → IsNarrowed m
    → IsMatch m
    → IsLongest m
    → LongestOf
        (m.path_segments ++ token ∷ [])
        m.context.commands
        (narrow
          (length (m.path_segments ++ token ∷ []))
          token
          m.filtered_commands
          m.last_matched_command).1
narrowed-LongestOf token m n match h =
    let segments = m.path_segments ++ token ∷ [] in
    let r = narrow (length segments) token m.filtered_commands m.last_matched_command in
    let more = length-append m.path_segments (token ∷ []) in
    let old = depth-matches m.path_segments m.last_matched_command match in
    let bound : depth m.last_matched_command ≤ length segments = omega arith in
    let hit =
      subst (All (λ c. hits (length segments) token c ≡ true → length segments ≤ depth r.1)) n
        (narrow-hits (length segments) token m.filtered_commands m.last_matched_command bound) in
    command_list-LongestOf m.path_segments token m.last_matched_command r.1 m.context.commands
      (narrow-deeper (length segments) token m.filtered_commands m.last_matched_command bound) h
      (All-select-back (in_play m.path_segments) _ m.context.commands hit)

-- Where the commands in play are those whose path begins with the segments seen, and the last match
-- is one of the longest commands whose whole path was given, a value that keeps IdentifyCommandState
-- where it is keeps the latter: no command whose whole path was given is longer than the last match.
pub handle_identify-IsLongest :
    (fmt : Fmt) (token : Text) (m m' : Memory)
    → IsNarrowed m
    → IsMatch m
    → IsLongest m
    → handle_identify fmt value token m ≡ done (do_nothing, m')
    → IsLongest m'
unfolding handle_identify handle_identify_value
handle_identify-IsLongest fmt token m m' n match h e =
    >>=-elim (require (not (is_empty m.path_segments))) _ e (λ _ _ e'.
      let segments = m.path_segments ++ token ∷ [] in
      let r = narrow (length segments) token m.filtered_commands m.last_matched_command in
      let narrowed : Memory = record m {
        path_segments = segments;
        filtered_commands = r.0;
        last_matched_command = r.1;
      } in
      elim (Bool-cases (is_empty r.0)) [
        | inl gone ↦
            absurd
              (no_command_left-do_nothing fmt r.1 m.default_command narrowed m' (rw gone at e'))
        | inr left ↦
            let e'' = rw left at e' in
            let same : narrowed ≡ m' = ground arith in
            rw (← same) (narrowed-LongestOf token m n match h)
      ])
