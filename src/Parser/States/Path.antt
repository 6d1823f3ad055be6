-- ===== src/Parser/States/Path.antt =====
-- clap/src/parser/states.h, IdentifyCommandState: the segments of the path of a command, one after another.
use asap_clap.Base.{
  ◌≤◌, Bool, true, false, List, [], ◌∷◌, ◌++◌, ◌≡◌, refl, sym, ap, ◌∙◌, subst, arith, All, All-Memᴰ,
  select-Memᴰ, Memᴰ, length, select, Option, none, some, Text, text_eq_refl, text_eq_iff, is_empty,
  done, IfSome, if-holds, if◌then◌else◌,
}
use asap_clap.Fsm.{continue, do_nothing}
use asap_clap.Format.{Fmt}
use asap_clap.Tokenizer.{value}
use asap_clap.Commands.{Command, is_default}
use asap_clap.Parser.States.Initial.{starts_path}
use asap_clap.Parser.States.Identify.{
  narrow, enter_one, enter_scan, enter_identify, handle_identify, handle_identify_value,
}
use asap_clap.Parser.States.Narrowing.{
  is_prefix, in_play, IsNarrowed, narrowed-select, enter_scan-IsScanned, enter_identify-IsNarrowed,
  handle_identify-IsNarrowed,
}
use asap_clap.Parser.States.Matching.{IsMatch, matches, handle_identify-IsMatch}
use asap_clap.Parser.States.Longest.{depth, LongestOf, IsLongest, handle_identify-IsLongest}
use asap_clap.Parser.States.Longest.First.{enter_identify-IsLongest, enter_identify-IsMatch}
use asap_clap.Parser.Machine.{Memory}
use asap_clap.Parser.States.Among.{narrow-All, enter_scan-IfSome}

-- The memory without what IdentifyCommandState keeps in it.
abbrev pub erase : Memory → Memory
erase m = record m {
  filtered_commands = [];
  last_matched_command = none;
  default_command = none;
  path_segments = [];
}

enter_one-erase : (token : Text) (c : Command) (m : Memory) → erase (enter_one token c m) ≡ erase m
unfolding enter_one
enter_one-erase token c m =
    let seen = if is_default c then record m { default_command = some c } else m in
    let same : erase seen ≡ erase m =
      if-holds (λ (x : Memory). erase x ≡ erase m) (is_default c) _ m refl refl in
    if-holds (λ (x : Memory). erase x ≡ erase m) (starts_path token c.path) _ seen same same

enter_scan-erase :
    (token : Text) (cs : List Command) (m : Memory) → erase (enter_scan token cs m) ≡ erase m
unfolding enter_scan
enter_scan-erase token [] m = refl
enter_scan-erase token (c ∷ cs) m =
    enter_scan-erase token cs (enter_one token c m) ∙ enter_one-erase token c m

pub prefix-append : (xs ys : List Text) → is_prefix xs (xs ++ ys) ≡ true
prefix-append [] ys = refl
prefix-append (x ∷ xs) ys = rw (text_eq_refl x, prefix-append xs ys) refl

prefix_refl : (xs : List Text) → is_prefix xs xs ≡ true
prefix_refl [] = refl
prefix_refl (x ∷ xs) = rw (text_eq_refl x, prefix_refl xs) refl

-- A prefix that is not shorter is the whole path.
prefix-whole :
    (path segments : List Text)
    → is_prefix path segments ≡ true
    → length segments ≤ length path
    → path ≡ segments
prefix-whole [] [] h l = refl
prefix-whole [] (s ∷ segments) h l = absurd (omega arith)
prefix-whole (p ∷ path) [] h l = absurd cc
prefix-whole (p ∷ path) (s ∷ segments) h l =
    ground (arith, text_eq_iff s p, prefix-whole path segments)

-- No other command has the path.
abbrev pub IsOnly : Command → Command → Type 0
IsOnly command c = c.path ≡ command.path → c ≡ command

some_left : {c : Command} (cs : List Command) → Memᴰ c cs → is_empty cs ≡ false
some_left [] m = elim m [ ]
some_left (d ∷ cs) m = refl

-- What IdentifyCommandState holds when it has seen the segments of the path of a command.
pub record Follows (command : Command) (begun m : Memory) (seen : List Text) : Type 0 where
  pub erased : erase m ≡ erase begun
  pub segments : m.path_segments ≡ seen
  pub narrowed : IsNarrowed m
  pub match : IsMatch m
  pub longest : IsLongest m
  pub filtered_only : All (IsOnly command) m.filtered_commands
  pub matched_only : IfSome (IsOnly command) m.last_matched_command

All-select :
    (P : Command → Type 0) (p : Command → Bool) (cs : List Command) → All P cs → All P (select p cs)
All-select P p [] h = tt
All-select P p (c ∷ cs) h =
    if-holds (All P) (p c) _ _ (h.0, All-select P p cs h.1) (All-select P p cs h.1)

module _ (command : Command) (begun : Memory) (there : Memᴰ command begun.context.commands)
    (only : All (IsOnly command) begun.context.commands) where
  same_context : (m : Memory) → erase m ≡ erase begun → m.context ≡ begun.context
  same_context m e = ap (λ (x : Memory). x.context) e

  IsOnly-in_play :
      (m : Memory) (segments : List Text)
      → m.context ≡ begun.context
      → All (IsOnly command) (select (in_play segments) m.context.commands)
  IsOnly-in_play m segments e =
      All-select (IsOnly command) (in_play segments) m.context.commands
        (subst (λ x. All (IsOnly command) x.commands) (sym e) only)

  Memᴰ-in_play :
      (m : Memory) (segments : List Text)
      → m.context ≡ begun.context
      → in_play segments command ≡ true
      → Memᴰ command (select (in_play segments) m.context.commands)
  Memᴰ-in_play m segments e p =
      select-Memᴰ (in_play segments) m.context.commands
        (subst (λ x. Memᴰ command x.commands) (sym e) there) p

  -- One more segment.
  pub handle_identify-Follows :
      (fmt : Fmt) (token : Text) (m : Memory) (seen : List Text)
      → Follows command begun m seen
      → is_empty seen ≡ false
      → in_play (seen ++ token ∷ []) command ≡ true
      → (m' : Memory) × (handle_identify fmt value token m ≡ done (do_nothing, m'))
        × Follows command begun m' (seen ++ token ∷ [])
  unfolding handle_identify handle_identify_value
  handle_identify-Follows fmt token m seen h some_seen p =
      let segments = m.path_segments ++ token ∷ [] in
      let r = narrow (length segments) token m.filtered_commands m.last_matched_command in
      let m' : Memory = record m {
        path_segments = segments;
        filtered_commands = r.0;
        last_matched_command = r.1;
      } in
      let context = same_context m h.erased in
      let kept = narrowed-select token m h.narrowed in
      let in_play' : in_play segments command ≡ true = rw h.segments p in
      let left : is_empty r.0 ≡ false =
        some_left r.0
          (subst (Memᴰ command) (sym kept) (Memᴰ-in_play m segments context in_play')) in
      let e : handle_identify fmt value token m ≡ done (do_nothing, m') =
        rw (h.segments, some_seen) (rw (← h.segments, left) refl) in
      (
        m',
        e,
        record {
          erased = h.erased;
          segments = ap (λ xs. xs ++ token ∷ []) h.segments;
          narrowed = handle_identify-IsNarrowed fmt token m m' h.narrowed e;
          match = handle_identify-IsMatch fmt token m m' h.narrowed h.match e;
          longest = handle_identify-IsLongest fmt token m m' h.narrowed h.match h.longest e;
          filtered_only =
              (narrow-All (IsOnly command) (length segments) token m.filtered_commands
                m.last_matched_command h.filtered_only h.matched_only).0;
          matched_only =
              (narrow-All (IsOnly command) (length segments) token m.filtered_commands
                m.last_matched_command h.filtered_only h.matched_only).1;
        },
      )

  -- The first segment.
  pub enter_identify-Follows :
      (token : Text)
      → begun.path_segments ≡ []
      → begun.filtered_commands ≡ []
      → begun.last_matched_command ≡ none
      → in_play (token ∷ []) command ≡ true
      → (m' : Memory) × (enter_identify token begun ≡ done (continue, m'))
        × Follows command begun m' (token ∷ [])
  unfolding enter_identify
  enter_identify-Follows token p f l q =
      let scanned = record begun { path_segments = begun.path_segments ++ token ∷ [] } in
      let found = enter_scan token begun.context.commands scanned in
      let (g, segments, context) = enter_scan-IsScanned token begun.context.commands scanned in
      let all : found.filtered_commands ≡ select (in_play (token ∷ [])) begun.context.commands =
        g ∙ ap (λ cs. cs ++ select (in_play (token ∷ [])) begun.context.commands) f in
      let left : is_empty found.filtered_commands ≡ false = some_left found.filtered_commands (
        subst (Memᴰ command) (sym all)
          (select-Memᴰ (in_play (token ∷ [])) begun.context.commands there q)) in
      let e : enter_identify token begun ≡ done (continue, found) =
        rw (some_left begun.context.commands there, left) refl in
      (
        found,
        e,
        record {
          erased = enter_scan-erase token begun.context.commands scanned;
          segments = segments ∙ ap (λ xs. xs ++ token ∷ []) p;
          narrowed = enter_identify-IsNarrowed token begun found p f e;
          match = enter_identify-IsMatch token begun found p l e;
          longest = enter_identify-IsLongest token begun found p l e;
          filtered_only =
              subst (All (IsOnly command)) (sym all)
                (All-select (IsOnly command) (in_play (token ∷ [])) begun.context.commands only);
          matched_only =
              enter_scan-IfSome (IsOnly command) token begun.context.commands scanned only
                (subst (IfSome (IsOnly command)) (sym l) tt);
        },
      )

  matched_whole :
      (o : Option Command) (segment : Text) (path : List Text)
      → command.path ≡ segment ∷ path
      → matches command.path o ≡ true
      → length command.path ≤ depth o
      → IfSome (IsOnly command) o
      → o ≡ some command
  matched_whole none segment path p h l u = absurd (let l' = rw p at l in omega arith)
  matched_whole (some c) segment path p h l u =
      ap (λ x. some x) (u (prefix-whole c.path command.path h l))

  -- Behind the whole path, the last match is the command.
  pub Follows-last_match :
      (m : Memory) (segment : Text) (path : List Text)
      → command.path ≡ segment ∷ path
      → Follows command begun m command.path
      → m.last_matched_command ≡ some command
  Follows-last_match m segment path p h =
      let there' : Memᴰ command m.context.commands =
        subst (λ x. Memᴰ command x.commands) (sym (same_context m h.erased)) there in
      let deep : LongestOf command.path m.context.commands m.last_matched_command =
        subst (λ xs. LongestOf xs m.context.commands m.last_matched_command) h.segments h.longest in
      matched_whole m.last_matched_command segment path p
        (subst (λ xs. matches xs m.last_matched_command ≡ true) h.segments h.match)
        (All-Memᴰ _ m.context.commands deep there' (prefix_refl command.path)) h.matched_only
