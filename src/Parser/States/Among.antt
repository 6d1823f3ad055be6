-- ===== src/Parser/States/Among.antt =====
-- clap/src/parser/states.h, IdentifyCommandState: the commands in play and the last match are among those there were.
use asap_clap.Base.{
  ℕ, ◌&&◌, List, [], ◌∷◌, All, length, Option, some, Text, ◌==◌, IfSome, if-holds, if◌then◌else◌,
}
use asap_clap.Commands.{Command, is_default}
use asap_clap.Parser.States.Initial.{starts_path}
use asap_clap.Parser.States.Identify.{keeps, narrow, enter_one, enter_scan}
use asap_clap.Parser.Machine.{Memory}

module _ (P : Command → Type 0) where
  -- The commands kept and the last match are among those that were there.
  pub narrow-All :
      (n : ℕ) (token : Text) (cs : List Command) (matched : Option Command)
      → All P cs
      → IfSome P matched
      → All P (narrow n token cs matched).0 × IfSome P (narrow n token cs matched).1
  unfolding narrow
  narrow-All n token [] matched a h = (tt, h)
  narrow-All n token (c ∷ cs) matched a h =
      let last = if keeps n token c && length c.path == n then some c else matched in
      let (kept, found) =
        narrow-All n token cs last a.1
          (if-holds (IfSome P) (keeps n token c && length c.path == n) (some c) matched a.0 h) in
      (if-holds (All P) (keeps n token c) _ _ (a.0, kept) kept, found)

  enter_one-IfSome :
      (token : Text) (c : Command) (m : Memory)
      → P c
      → IfSome P m.last_matched_command
      → IfSome P (enter_one token c m).last_matched_command
  unfolding enter_one
  enter_one-IfSome token c m p h =
      let seen = if is_default c then record m { default_command = some c } else m in
      let before : IfSome P seen.last_matched_command =
        if-holds (λ (x : Memory). IfSome P x.last_matched_command) (is_default c) _ m h h in
      if-holds (λ (x : Memory). IfSome P x.last_matched_command) (starts_path token c.path) _ seen
        (if-holds (IfSome P) (length c.path == 1) (some c) m.last_matched_command p h) before

  pub enter_scan-IfSome :
      (token : Text) (cs : List Command) (m : Memory)
      → All P cs
      → IfSome P m.last_matched_command
      → IfSome P (enter_scan token cs m).last_matched_command
  unfolding enter_scan
  enter_scan-IfSome token [] m a h = h
  enter_scan-IfSome token (c ∷ cs) m a h =
      enter_scan-IfSome token cs (enter_one token c m) a.1 (enter_one-IfSome token c m a.0 h)
