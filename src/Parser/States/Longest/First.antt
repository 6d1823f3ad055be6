-- ===== src/Parser/States/Longest/First.antt =====
-- IdentifyCommandState (clap/src/parser/states.h): the last command that matched, at the first segment.
use asap_clap.Base.{
  ◌≤◌, Bool, true, not, ◌&&◌, List, [], ◌∷◌, ◌++◌, ◌≡◌, ◌⊎◌, refl, sym, ◌∙◌, arith, length, none,
  some, Text, text_eq_iff, is_empty, ◌==◌, done, >>=-elim, Bool-cases, inl, inr, require,
  if◌then◌else◌, subst,
}
use asap_clap.Fsm.{continue}
use asap_clap.Commands.{Command, is_default}
use asap_clap.Parser.States.Initial.{starts_path}
use asap_clap.Parser.States.Identify.{enter_one, enter_scan, enter_identify}
use asap_clap.Parser.States.Narrowing.{is_prefix, enter_scan-IsScanned}
use asap_clap.Parser.States.Matching.{IsMatch, matches}
use asap_clap.Parser.Machine.{Memory}
use asap_clap.Parser.States.Longest.{depth, LongestOf, IsLongest}

-- The first segment: what the scan of the commands leaves as the last match.
abbrev is_first : Text → Command → Bool
is_first token c = starts_path token c.path && length c.path == 1

enter_one_match :
    (token : Text) (c : Command) (m : Memory)
    → (enter_one token c m).last_matched_command
      ≡ (if is_first token c then some c else m.last_matched_command)
unfolding enter_one
enter_one_match token c m = elim (Bool-cases (starts_path token c.path)) [
  | inl starts ↦ rw starts refl
  | inr other ↦ rw other (elim (Bool-cases (is_default c)) [
    | inl default ↦ rw default refl
    | inr named ↦ rw named refl
  ])
]

prefix-is_first :
    (token : Text) (path : List Text)
    → is_prefix path (token ∷ []) ≡ true
    → (length path ≡ 0) ⊎ ((starts_path token path && length path == 1) ≡ true)
prefix-is_first token [] h = inl refl
prefix-is_first token (s ∷ []) h = ground (arith, text_eq_iff s token, text_eq_iff token s)
prefix-is_first token (s ∷ t ∷ path) h = ground arith

depth-first :
    (token : Text) (c : Command) (m : Memory)
    → depth m.last_matched_command ≤ 1
    → (depth m.last_matched_command ≤ depth (enter_one token c m).last_matched_command)
      × (depth (enter_one token c m).last_matched_command ≤ 1)
depth-first token c m h = elim (Bool-cases (is_first token c)) [
  | inl first ↦
      let one : length c.path ≡ 1 = ground arith in
      rw (enter_one_match, first) (omega arith, omega arith)
  | inr other ↦ rw (enter_one_match, other) (omega arith, h)
]

enter_scan-deeper :
    (token : Text) (cs : List Command) (m : Memory)
    → depth m.last_matched_command ≤ 1
    → depth m.last_matched_command ≤ depth (enter_scan token cs m).last_matched_command
unfolding enter_scan
enter_scan-deeper token [] m h = omega arith
enter_scan-deeper token (c ∷ cs) m h =
    let (up, bound) = depth-first token c m h in
    let later = enter_scan-deeper token cs (enter_one token c m) bound in omega arith

first-depth :
    (token : Text) (c : Command) (m : Memory)
    → is_prefix c.path (token ∷ []) ≡ true
    → length c.path ≤ depth (enter_one token c m).last_matched_command
first-depth token c m p = elim (prefix-is_first token c.path p) [
  | inl empty ↦ rw empty (omega arith)
  | inr first ↦ rw (enter_one_match, first) (omega arith)
]

enter_scan-LongestOf :
    (token : Text) (cs : List Command) (m : Memory)
    → depth m.last_matched_command ≤ 1
    → LongestOf (token ∷ []) cs (enter_scan token cs m).last_matched_command
unfolding enter_scan
enter_scan-LongestOf token [] m h = tt
enter_scan-LongestOf token (c ∷ cs) m h =
    let (up, bound) = depth-first token c m h in
    let later = enter_scan-deeper token cs (enter_one token c m) bound in
    (
      λ p. (let here = first-depth token c m p in omega arith),
      enter_scan-LongestOf token cs (enter_one token c m) bound,
    )

-- Entered with no state left over, IdentifyCommandState has as its last match one of the longest
-- commands whose whole path was given.
pub enter_identify-IsLongest :
    (token : Text) (m m' : Memory)
    → m.path_segments ≡ []
    → m.last_matched_command ≡ none
    → enter_identify token m ≡ done (continue, m')
    → IsLongest m'
unfolding enter_identify
enter_identify-IsLongest token m m' p l e =
    >>=-elim (require (not (is_empty m.context.commands))) _ e (λ _ _ e'.
      let begun : Memory = record m { path_segments = m.path_segments ++ token ∷ [] } in
      let found : Memory = enter_scan token m.context.commands begun in
      >>=-elim (require (not (is_empty found.filtered_commands))) _ e' (λ _ _ e''.
        let same : found ≡ m' = ground arith in
        let (g, q, y) = enter_scan-IsScanned token m.context.commands begun in
        let none_yet : depth begun.last_matched_command ≤ 1 = rw l (omega arith) in
        let longest = enter_scan-LongestOf token m.context.commands begun none_yet in
        let path : found.path_segments ≡ token ∷ [] = q ∙ rw p refl in
        let here =
          subst (λ segments. LongestOf segments m.context.commands found.last_matched_command)
            (sym path) longest in
        rw (← same) (
          subst (λ x. LongestOf found.path_segments x.commands found.last_matched_command) (sym y)
            here)))

is_first-prefix :
    (token : Text) (path : List Text)
    → (starts_path token path && length path == 1) ≡ true
    → is_prefix path (token ∷ []) ≡ true
is_first-prefix token [] h = refl
is_first-prefix token (s ∷ []) h = ground (arith, text_eq_iff s token, text_eq_iff token s)
is_first-prefix token (s ∷ t ∷ path) h = ground arith

enter_scan-matches :
    (token : Text) (cs : List Command) (m : Memory)
    → matches (token ∷ []) m.last_matched_command ≡ true
    → matches (token ∷ []) (enter_scan token cs m).last_matched_command ≡ true
unfolding enter_scan
enter_scan-matches token [] m h = h
enter_scan-matches token (c ∷ cs) m h =
    enter_scan-matches token cs (enter_one token c m) (elim (Bool-cases (is_first token c)) [
      | inl first ↦ rw (enter_one_match, first) (is_first-prefix token c.path first)
      | inr other ↦ rw (enter_one_match, other) h
    ])

-- The last match is then a command whose whole path was given.
pub enter_identify-IsMatch :
    (token : Text) (m m' : Memory)
    → m.path_segments ≡ []
    → m.last_matched_command ≡ none
    → enter_identify token m ≡ done (continue, m')
    → IsMatch m'
unfolding enter_identify
enter_identify-IsMatch token m m' p l e =
    >>=-elim (require (not (is_empty m.context.commands))) _ e (λ _ _ e'.
      let begun : Memory = record m { path_segments = m.path_segments ++ token ∷ [] } in
      let found : Memory = enter_scan token m.context.commands begun in
      >>=-elim (require (not (is_empty found.filtered_commands))) _ e' (λ _ _ e''.
        let same : found ≡ m' = ground arith in
        let (g, q, y) = enter_scan-IsScanned token m.context.commands begun in
        let path : found.path_segments ≡ token ∷ [] = q ∙ rw p refl in
        let begins : matches (token ∷ []) begun.last_matched_command ≡ true = rw l refl in
        let it = enter_scan-matches token m.context.commands begun begins in
        rw (← same)
          (subst (λ segments. matches segments found.last_matched_command ≡ true) (sym path) it)))
