-- ===== src/Examples/Identified.antt =====
-- IdentifyCommandState on commands of which one begins with another.
use asap_clap.Base.{refl, true, List, [], ◌∷◌, codes, Outcome, done, fault, text_eq}
use asap_clap.Format.{plain_fmt}
use asap_clap.Tokenizer.{value, end_of_input}
use asap_clap.Commands.{Command}
use asap_clap.Parser.Context.{new_parser_context}
use asap_clap.Parser.States.Identify.{enter_identify, handle_identify}
use asap_clap.Parser.States.Longest.{IsLongest}
use asap_clap.Parser.States.Longest.Active.{Activates}
use asap_clap.Fsm.{Status}
use asap_clap.Tokenizer.{Token, token}
use asap_clap.Parser.States.Initial.{initial_context, handle_initial}
use asap_clap.Parser.States.Handlers.{machine}
use asap_clap.Parser.States.Narrowing.{IsNarrowed}
use asap_clap.Parser.States.Matching.{IsMatch}
use asap_clap.Parser.Loop.Tokens.{step, start}
use asap_clap.Parser.Loop.Reached.{Reached, here, next_token}
use asap_clap.Parser.Loop.Identified.Always.{Reached-IsIdentified, Reached-Activates}
use asap_clap.Parser.Machine.{
  State, initial_state, identify_command_state, Memory, new_memory, final_state,
}
use asap_clap.Examples.{default_command, base}

-- `remote`, `remote add` and `remote add tag`.
abbrev remote : Command
remote = record default_command { path = codes "remote" ∷ [] }

abbrev remote_add : Command
remote_add = record default_command { path = codes "remote" ∷ codes "add" ∷ [] }

abbrev remote_add_tag : Command
remote_add_tag = record default_command { path = codes "remote" ∷ codes "add" ∷ codes "tag" ∷ [] }

abbrev outside : Memory
unfolding new_parser_context
outside = new_memory (new_parser_context base (remote ∷ remote_add ∷ remote_add_tag ∷ []))

abbrev memory_of : {A : Type 0} → Outcome (A × Memory) → Memory
memory_of (done (_, m)) = m
memory_of (fault _) = outside

-- The loop on `remote`: after its token, IdentifyCommandState is the current state.
abbrev remote_commands : List Command
remote_commands = remote ∷ remote_add ∷ remote_add_tag ∷ []

abbrev remote_tokens : List Token
remote_tokens = token value (codes "remote") ∷ []

abbrev memory_left : Outcome (Status × State × Memory) → Memory
memory_left (done (_, _, m)) = m
memory_left (fault _) = outside

abbrev reached : Memory
unfolding step machine handle_initial enter_identify text_eq new_parser_context initial_context
    outside
reached = memory_left (
    step plain_fmt (token value (codes "remote")) initial_state
      (start plain_fmt base remote_commands))

reached-Reached :
    Reached plain_fmt remote_tokens initial_state
      (start plain_fmt base remote_commands)
      []
      identify_command_state
      reached
unfolding step machine handle_initial enter_identify text_eq new_parser_context initial_context
    outside reached
reached-Reached = next_token here refl refl

Reached-IsIdentified_example : IsNarrowed reached × IsMatch reached × IsLongest reached
Reached-IsIdentified_example = Reached-IsIdentified plain_fmt base remote_commands reached-Reached

abbrev ended : Memory
unfolding handle_identify text_eq reached
ended = memory_of (handle_identify plain_fmt end_of_input [] reached)

Reached-Activates_example : Activates remote ended
unfolding handle_identify text_eq reached ended step machine handle_initial enter_identify
    new_parser_context initial_context outside
Reached-Activates_example =
    Reached-Activates plain_fmt base remote_commands end_of_input [] final_state true remote
      reached-Reached refl refl
