-- ===== src/Examples/Runs.antt =====
-- Runs of the model on command lines, checked by computation.
use asap_clap.Base.{
  ◌≡◌, refl, true, false, List, [], ◌∷◌, Option, none, some, Text, codes, done, fault,
  contract_violation, undefined_behaviour, pos, Bool, Fault,
}
use asap_clap.Values.{OptionValue, text_value, int_value}
use asap_clap.Values.ValuesMap.{OptionValuesMap}
use asap_clap.Parser.Loop.{Parsed}
use asap_clap.Examples.{run, default_command, file_command}

-- What a run came to: its verdict and the map that it left, or the fault.
data Verdict : Type 0 where
  no_fuel : Verdict
  faulted : Fault → Verdict
  ended : Bool → OptionValuesMap → Verdict

abbrev verdict : Option Parsed → Verdict
verdict none = no_fuel
verdict (some (fault x)) = faulted x
verdict (some (done (b, c))) = ended b c.ovm

abbrev text_entry : Text → Text → Text × List OptionValue
text_entry key s =
    (key, record { value = text_value s; original_token = s; defaulted = false } ∷ [])

abbrev level_entry : Text × List OptionValue
level_entry = (
  codes "level",
  record { value = int_value (codes "int") (pos 3); original_token = codes "3"; defaulted = false }
      ∷ [],
)

-- An option with its value, and one that gets its default value.
run_named :
    verdict (run (codes "--name=x" ∷ []) (default_command ∷ []))
    ≡ ended true (text_entry (codes "name") (codes "x") ∷ level_entry ∷ [])
unfolding run
run_named = refl

-- The value as its own argument.
run_spaced :
    verdict (run (codes "-n" ∷ codes "x" ∷ codes "-l" ∷ codes "3" ∷ []) (default_command ∷ []))
    ≡ ended true (text_entry (codes "name") (codes "x") ∷ level_entry ∷ [])
unfolding run
run_spaced = refl

-- The required option left out: an error.
run_missing :
    verdict (run (codes "-l" ∷ codes "3" ∷ []) (default_command ∷ []))
    ≡ ended false (level_entry ∷ [])
unfolding run
run_missing = refl

-- An option that may occur once, twice.
run_twice :
    verdict (run (codes "-n" ∷ codes "x" ∷ codes "--name" ∷ codes "y" ∷ []) (default_command ∷ []))
    ≡ ended false (text_entry (codes "name") (codes "x") ∷ [])
unfolding run
run_twice = refl

-- `--` as the first argument.
run_dash_dash :
    verdict (run (codes "--" ∷ codes "x" ∷ []) (default_command ∷ [])) ≡ faulted contract_violation
unfolding run
run_dash_dash = refl

-- Only options, where the command has a positional argument that is not required.
run_no_file :
    verdict (run (codes "-n" ∷ codes "x" ∷ codes "-l" ∷ codes "3" ∷ []) (file_command ∷ []))
    ≡ faulted undefined_behaviour
unfolding run
run_no_file = refl
