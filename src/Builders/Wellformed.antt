-- ===== src/Builders/Wellformed.antt =====
-- clap/include/clap/command.h and fluent/command_builder.h: the vectors of a Command that belong
-- together.
use asap_clap.Base.{
  ℕ, suc, Bool, true, false, ◌||◌, List, [], ◌∷◌, ◌++◌, append-nil, ◌≡◌, refl, ap, ◌∙◌, arith, map,
  some, Text, codes, Outcome, done, ◌>>=◌, length, length-append, Bool-cases, inl, inr, text_eq,
  if◌then◌else◌,
}
use asap_clap.Commands.{
  ClapOption, Options, Command, help_name, version_name, new_command, with_options, with_option,
  with_positional_arguments,
}
use asap_clap.Commands.Printing.{Wrap, print_ungrouped, print_all}
use asap_clap.Builders.{
  CommandBuilder, command_about, command_with_option, command_with_options,
  command_with_positional_arguments,
}

-- A call of a CommandBuilder, and the calls one after the other.
pub data Call : Type 0 where
  about_call : Text → Call
  option_call : ClapOption → Call
  options_call : Options → Bool → Call
  positional_call : List ClapOption → Call

unfoldable pub call : Call → CommandBuilder → Outcome CommandBuilder
call (about_call text) = command_about text
call (option_call o) = command_with_option o
call (options_call group hidden) = command_with_options group hidden
call (positional_call os) = command_with_positional_arguments os

unfoldable pub calls : List Call → CommandBuilder → Outcome CommandBuilder
unfolding call
calls [] b = done b
calls (c ∷ cs) b = call c b >>= calls cs

-- The options given on their own, with help and version first.
abbrev lone_option : Call → List ClapOption → List ClapOption
lone_option (option_call o) os =
    if text_eq o.key help_name || text_eq o.key version_name then o ∷ os else os ++ o ∷ []
lone_option _ os = os

unfoldable pub lone_options : List Call → List ClapOption → List ClapOption
lone_options [] os = os
lone_options (c ∷ cs) os = lone_options cs (lone_option c os)

-- The options whose mark says that they are in no group.
unfoldable ungrouped : List ClapOption → List Bool → List ClapOption
ungrouped [] _ = []
ungrouped _ [] = []
ungrouped (o ∷ os) (true ∷ bs) = ungrouped os bs
ungrouped (o ∷ os) (false ∷ bs) = o ∷ ungrouped os bs

ungrouped-append :
    (os os' : List ClapOption) (bs bs' : List Bool)
    → length bs ≡ length os
    → ungrouped (os ++ os') (bs ++ bs') ≡ ungrouped os bs ++ ungrouped os' bs'
unfolding ungrouped
ungrouped-append [] os' [] bs' h = refl
ungrouped-append [] os' (b ∷ bs) bs' h = absurd (omega arith)
ungrouped-append (o ∷ os) os' [] bs' h = absurd (omega arith)
ungrouped-append (o ∷ os) os' (true ∷ bs) bs' h = ungrouped-append os os' bs bs' (omega arith)
ungrouped-append (o ∷ os) os' (false ∷ bs) bs' h =
    ap (λ xs. o ∷ xs) (ungrouped-append os os' bs bs' (omega arith))

ungrouped-grouped : (os : List ClapOption) → ungrouped os (map (λ _. true) os) ≡ []
unfolding ungrouped
ungrouped-grouped [] = refl
ungrouped-grouped (o ∷ os) = ungrouped-grouped os

length-marks : (os : List ClapOption) → length (map (λ _. true) os) ≡ length os
length-marks [] = refl
length-marks (o ∷ os) = ap suc (length-marks os)

-- A mark for each option, and the options of `os` are those in no group.
record IsAligned (c : Command) (os : List ClapOption) : Type 0 where
  lengths : length c.options_in_groups ≡ length c.options
  lone : ungrouped c.options c.options_in_groups ≡ os

new_command-IsAligned :
    (path : List Text) (c : Command) → new_command path ≡ done c → IsAligned c []
unfolding new_command ungrouped
new_command-IsAligned path c e = ground arith

with_options-IsAligned :
    (group : Options) (hidden : Bool) (c : Command) (os : List ClapOption)
    → IsAligned c os
    → IsAligned (with_options group hidden c) os
unfolding with_options
with_options-IsAligned group hidden c os a = record {
  lengths =
      length-append c.options_in_groups _
      ∙ (rw (length-append c.options group.options, length-marks, a.lengths) refl);
  lone =
      ungrouped-append c.options group.options c.options_in_groups _ a.lengths
      ∙ rw (ungrouped-grouped, append-nil) a.lone;
}

with_option-IsAligned :
    (o : ClapOption) (c : Command) (os : List ClapOption)
    → IsAligned c os
    → IsAligned (with_option o c) (lone_option (option_call o) os)
unfolding with_option ungrouped
with_option-IsAligned o c os a =
    elim (Bool-cases (text_eq o.key help_name || text_eq o.key version_name)) [
      | inl first ↦
          rw first (record { lengths = ap suc a.lengths; lone = ap (λ xs. o ∷ xs) a.lone })
      | inr last ↦ rw last (record {
        lengths =
            length-append c.options_in_groups (false ∷ [])
            ∙ rw (length-append c.options, a.lengths) refl;
        lone =
            ungrouped-append c.options (o ∷ []) c.options_in_groups (false ∷ []) a.lengths
            ∙ rw a.lone refl;
      })
    ]

call-IsAligned :
    (a : Call) (c : Command) (os : List ClapOption)
    → IsAligned c os
    → (c' : Command) × (call a (some c) ≡ done (some c')) × IsAligned c' (lone_option a os)
unfolding call command_about command_with_option command_with_options
    command_with_positional_arguments with_positional_arguments
call-IsAligned (about_call text) c os a = (_, refl, record { lengths = a.lengths; lone = a.lone })
call-IsAligned (option_call o) c os a = (_, refl, with_option-IsAligned o c os a)
call-IsAligned (options_call g hidden) c os a = (_, refl, with_options-IsAligned g hidden c os a)
call-IsAligned (positional_call ps) c os a =
    (_, refl, record { lengths = a.lengths; lone = a.lone })

calls-IsAligned :
    (xs : List Call) (c : Command) (os : List ClapOption)
    → IsAligned c os
    → (c' : Command) × (calls xs (some c) ≡ done (some c')) × IsAligned c' (lone_options xs os)
unfolding calls lone_options
calls-IsAligned [] c os a = (c, refl, a)
calls-IsAligned (x ∷ xs) c os a =
    let (c', e, b) = call-IsAligned x c os a in
    let (c'', e', b') = calls-IsAligned xs c' (lone_option x os) b in (c'', rw e e', b')

module _ (wrap : Wrap) (width : ℕ) where
  print_ungrouped-ungrouped :
      (os : List ClapOption) (bs : List Bool)
      → length bs ≡ length os
      → print_ungrouped wrap os bs width ≡ print_all wrap (ungrouped os bs) width (codes "\n\n")
  unfolding print_ungrouped print_all ungrouped
  print_ungrouped-ungrouped [] bs h = refl
  print_ungrouped-ungrouped (o ∷ os) [] h = absurd (omega arith)
  print_ungrouped-ungrouped (o ∷ os) (true ∷ bs) h = print_ungrouped-ungrouped os bs (omega arith)
  print_ungrouped-ungrouped (o ∷ os) (false ∷ bs) h =
      rw (print_ungrouped-ungrouped os bs (omega arith)) refl

-- For a path that the constructor of Command accepts, every sequence of calls of the CommandBuilder
-- succeeds, and the help of the command that it makes prints as ungrouped options exactly those that were added on their own, help
-- and version first; the index into `options_in_groups_` is never out of range.
pub calls-print_ungrouped :
    (path : List Text) (c : Command) (xs : List Call) (wrap : Wrap) (width : ℕ)
    → new_command path ≡ done c
    → (c' : Command) × (calls xs (some c) ≡ done (some c'))
      × (length c'.options_in_groups ≡ length c'.options)
      × (print_ungrouped wrap c'.options c'.options_in_groups width
          ≡ print_all wrap (lone_options xs []) width (codes "\n\n"))
calls-print_ungrouped path c xs wrap width h =
    let (c', e, a) = calls-IsAligned xs c [] (new_command-IsAligned path c h) in
    (
      c',
      e,
      a.lengths,
      print_ungrouped-ungrouped wrap width c'.options c'.options_in_groups a.lengths
          ∙ rw a.lone refl,
    )
