-- ===== src/Parser/States/Narrowing.antt =====
-- IdentifyCommandState (clap/src/parser/states.h): which commands are still in play after each path
-- segment.
use asap_clap.Base.{
  ℕ, ◌+◌, ◌-◌, Bool, true, false, not, ◌&&◌, List, [], ◌∷◌, ◌++◌, append-nil, append_assoc, ◌≡◌,
  ◌≢◌, refl, sym, ap, ◌∙◌, arith, length, length-append, select, Option, none, some, Text, text_eq,
  is_empty, leb, ◌==◌, done, >>=-elim, Bool-cases, inl, inr, require, if◌then◌else◌,
}
use asap_clap.Fsm.{continue, do_nothing}
use asap_clap.Format.{Fmt}
use asap_clap.Tokenizer.{value}
use asap_clap.Commands.{Command}
use asap_clap.Parser.States.Initial.{starts_path}
use asap_clap.Parser.States.Identify.{
  segment_is, keeps, narrow, enter_one, enter_scan, enter_identify, handle_identify_value,
  handle_identify, no_command_left,
}
use asap_clap.Parser.Machine.{Memory}

-- The segments are a prefix of a path.
abbrev pub is_prefix : List Text → List Text → Bool
is_prefix [] path = true
is_prefix (s ∷ segments) [] = false
is_prefix (s ∷ segments) (p ∷ path) = text_eq p s && is_prefix segments path

abbrev pub in_play : List Text → Command → Bool
in_play segments c = is_prefix segments c.path

-- The commands in play are those whose path begins with the segments seen so far, in order.
abbrev pub IsNarrowed : Memory → Type 0
IsNarrowed m = m.filtered_commands ≡ select (in_play m.path_segments) m.context.commands

prefix-snoc :
    (segments path : List Text) (token : Text)
    → is_prefix (segments ++ token ∷ []) path ≡ (
        is_prefix segments path
        && (leb (length segments + 1) (length path) && segment_is path (length segments) token))
prefix-snoc [] [] token = ground arith
prefix-snoc [] (p ∷ path) token = ground arith
prefix-snoc (s ∷ segments) [] token = refl
prefix-snoc (s ∷ segments) (p ∷ path) token = ground (arith, prefix-snoc segments path token)

pub prefix-keeps :
    (segments : List Text) (token : Text) (c : Command)
    → in_play (segments ++ token ∷ []) c
      ≡ (in_play segments c && keeps (length (segments ++ token ∷ [])) token c)
prefix-keeps segments token c =
    let count : length (segments ++ token ∷ []) ≡ length segments + 1 =
      length-append segments (token ∷ []) in
    let before : length segments + 1 - 1 ≡ length segments = omega arith in
    prefix-snoc segments c.path token ∙ rw (count, before) refl

narrow-select :
    (count : ℕ) (token : Text) (cs : List Command) (matched : Option Command)
    → (narrow count token cs matched).0 ≡ select (keeps count token) cs
unfolding narrow
narrow-select count token [] matched = refl
narrow-select count token (c ∷ cs) matched =
    rw
      (narrow-select count token cs
        (if keeps count token c && length c.path == count then some c else matched))
      refl

select-select :
    (p q r : Command → Bool) (cs : List Command)
    → ((c : Command) → r c ≡ (p c && q c))
    → select q (select p cs) ≡ select r cs
select-select p q r [] h = refl
select-select p q r (c ∷ cs) h = ground (arith, h c, select-select p q r cs h)

starts_path-prefix :
    (token : Text) (path : List Text) → starts_path token path ≡ is_prefix (token ∷ []) path
starts_path-prefix token [] = refl
starts_path-prefix token (s ∷ path) = ground arith

-- What the scan of the commands leaves: those found behind the ones that were there.
abbrev pub IsScanned : Text → List Command → Memory → Memory → Type 0
IsScanned token cs m m' =
    (m'.filtered_commands ≡ m.filtered_commands ++ select (in_play (token ∷ [])) cs)
    × (m'.path_segments ≡ m.path_segments)
    × (m'.context ≡ m.context)

enter_one-IsScanned :
    (token : Text) (c : Command) (m : Memory) → IsScanned token (c ∷ []) m (enter_one token c m)
unfolding enter_one
enter_one-IsScanned token c m = elim (Bool-cases (starts_path token c.path)) [
  | inl starts ↦
      rw (starts, sym (starts_path-prefix token c.path) ∙ starts) (refl, ground arith, ground arith)
  | inr other ↦
      rw (other, sym (starts_path-prefix token c.path) ∙ other)
        (ground (arith, append-nil m.filtered_commands), ground arith, ground arith)
]

select-cons :
    (p : Command → Bool) (c : Command) (cs : List Command)
    → select p (c ∷ cs) ≡ select p (c ∷ []) ++ select p cs
select-cons p c cs = ground arith

pub enter_scan-IsScanned :
    (token : Text) (cs : List Command) (m : Memory) → IsScanned token cs m (enter_scan token cs m)
unfolding enter_scan
enter_scan-IsScanned token [] m = (rw append-nil refl, refl, refl)
enter_scan-IsScanned token (c ∷ cs) m =
    let (f, p, x) = enter_one-IsScanned token c m in
    let (g, q, y) = enter_scan-IsScanned token cs (enter_one token c m) in
    (
      g
          ∙ ap (λ xs. xs ++ select (in_play (token ∷ [])) cs) f
          ∙ append_assoc m.filtered_commands (select (in_play (token ∷ [])) (c ∷ []))
              (select (in_play (token ∷ [])) cs)
          ∙ ap (λ xs. m.filtered_commands ++ xs) (sym (select-cons (in_play (token ∷ [])) c cs)),
      q ∙ p,
      y ∙ x,
    )

IsScanned-IsNarrowed :
    (token : Text) (m m' : Memory)
    → m.path_segments ≡ token ∷ []
    → m.filtered_commands ≡ []
    → IsScanned token m.context.commands m m'
    → IsNarrowed m'
IsScanned-IsNarrowed token m m' p f (g, q, y) =
    g
    ∙ ap (λ xs. xs ++ select (in_play (token ∷ [])) m.context.commands) f
    ∙ ap (λ x. select (in_play (token ∷ [])) x.commands) (sym y)
    ∙ ap (λ segments. select (in_play segments) m'.context.commands) (sym (q ∙ p))

-- Entered with no state left over, IdentifyCommandState has in play the commands whose path begins
-- with the token.
pub enter_identify-IsNarrowed :
    (token : Text) (m m' : Memory)
    → m.path_segments ≡ []
    → m.filtered_commands ≡ []
    → enter_identify token m ≡ done (continue, m')
    → IsNarrowed m'
unfolding enter_identify
enter_identify-IsNarrowed token m m' p f e =
    >>=-elim (require (not (is_empty m.context.commands))) _ e (λ _ _ e'.
      let begun : Memory = record m { path_segments = m.path_segments ++ token ∷ [] } in
      let found : Memory = enter_scan token m.context.commands begun in
      >>=-elim (require (not (is_empty found.filtered_commands))) _ e' (λ _ _ e''.
        let same : found ≡ m' = ground arith in
        let (g, q, y) = enter_scan-IsScanned token m.context.commands begun in
        rw (← same) (IsScanned-IsNarrowed token begun found (rw p refl) f (g, q, y))))

pub no_command_left-do_nothing :
    (fmt : Fmt) (l d : Option Command) (m m' : Memory)
    → no_command_left fmt l d m ≢ done (do_nothing, m')
unfolding no_command_left
no_command_left-do_nothing fmt (some c) d m m' = ground arith
no_command_left-do_nothing fmt none none m m' = ground arith
no_command_left-do_nothing fmt none (some c) m m' = ground arith

-- The commands that one more segment leaves.
pub narrowed-select :
    (token : Text) (m : Memory)
    → IsNarrowed m
    → (narrow
        (length (m.path_segments ++ token ∷ []))
        token
        m.filtered_commands
        m.last_matched_command).0
      ≡ select (in_play (m.path_segments ++ token ∷ [])) m.context.commands
narrowed-select token m n =
    let segments = m.path_segments ++ token ∷ [] in
    narrow-select (length segments) token m.filtered_commands m.last_matched_command
    ∙ ap (λ cs. select (keeps (length segments) token) cs) n
    ∙ select-select (in_play m.path_segments) (keeps (length segments) token) (in_play segments)
        m.context.commands (prefix-keeps m.path_segments token)

-- A value that keeps the state where it is narrows the commands down to those whose path goes on
-- with it, so that those in play are again those whose path begins with the segments seen.
pub handle_identify-IsNarrowed :
    (fmt : Fmt) (token : Text) (m m' : Memory)
    → IsNarrowed m
    → handle_identify fmt value token m ≡ done (do_nothing, m')
    → IsNarrowed m'
unfolding handle_identify handle_identify_value
handle_identify-IsNarrowed fmt token m m' n e =
    >>=-elim (require (not (is_empty m.path_segments))) _ e (λ _ _ e'.
      let segments = m.path_segments ++ token ∷ [] in
      let r = narrow (length segments) token m.filtered_commands m.last_matched_command in
      let narrowed : Memory = record m {
        path_segments = segments;
        filtered_commands = r.0;
        last_matched_command = r.1;
      } in
      elim (Bool-cases (is_empty r.0)) [
        | inl gone ↦
            absurd
              (no_command_left-do_nothing fmt r.1 m.default_command narrowed m' (rw gone at e'))
        | inr left ↦
            let e'' = rw left at e' in
            let same : narrowed ≡ m' = ground arith in rw (← same) (narrowed-select token m n)
      ])
