-- ===== src/Parser/Loop/Assignments/Segments.antt =====
-- clap/src/parser/parser.cpp: `Parse` on the path of a command and values for its rest option.
use asap_clap.Base.{
  ℕ, suc, ◌+◌, ◌≤◌, true, List, [], ◌∷◌, ◌++◌, ◌≡◌, refl, sym, ap, ◌∙◌, subst, arith, All, Memᴰ,
  length, Option, some, Text, done,
}
use asap_clap.Fsm.{Engine, IsEngine}
use asap_clap.Format.{Fmt}
use asap_clap.Tokenizer.{tokenizer_of}
use asap_clap.Commands.{ClapOption, Command}
use asap_clap.Parser.Context.{new_command_line_context, ParserContext}
use asap_clap.Parser.States.Path.{IsOnly}
use asap_clap.Parser.Machine.{initial_state, new_memory}
use asap_clap.Parser.Loop.{parse}
use asap_clap.Parser.Loop.Tokens.{run_tokens, start, parse-run_tokens}
use asap_clap.Parser.Loop.Fuel.{run_tokens_fuel}
use asap_clap.Parser.Loop.Assignments.Written.{is_value}
use asap_clap.Parser.Loop.Assignments.Path.{
  path_tokens, path_rounds, path_rounds-length, arg_tokens-path,
}
use asap_clap.Parser.Loop.Assignments.Named.{first_context, begun, arg_tokens-texts}
use asap_clap.Parser.Loop.Assignments.Behind.{IsLast, run-to_value}
use asap_clap.Parser.Loop.Assignments.Rest.{
  IsSegments, IsFree, only_rest, rest_stored, run-segments,
}

-- Such a command line is parsed without an error: the command becomes the active one, and the values map has the
-- texts for the rest option, in their order, and nothing else.
pub parse-segments :
    {engine : Engine} (law : IsEngine engine) (fmt : Fmt) (command : Command)
    (commands : List Command) (name : Text) (active : Option Command) (segment : Text)
    (path : List Text) (o : ClapOption) (t : Text) (ts : List Text) (fuel : ℕ)
    → command.path ≡ segment ∷ path
    → Memᴰ command commands
    → All (IsOnly command) commands
    → IsLast command.path t commands
    → IsSegments o
    → command.positional_args ≡ o ∷ []
    → All IsFree command.options
    → All (λ s. is_value b'-' s ≡ true) command.path
    → All (λ s. is_value b'-' s ≡ true) (t ∷ ts)
    → length command.path + length (t ∷ ts) + 2 ≤ fuel
    → (c : ParserContext) × (parse engine fmt fuel
          (new_command_line_context name active [])
          (tokenizer_of (command.path ++ t ∷ ts))
          commands
        ≡ some (done (true, c)))
      × (c.active_command ≡ some command)
      × (c.ovm ≡ only_rest (t ∷ ts))
      × (c.err ≡ [])
      × (c.out ≡ [])
unfolding new_command_line_context
parse-segments law fmt command commands name active segment path o t ts fuel p there only ends rest
      args free words texts enough =
    let base = new_command_line_context name active [] in
    let first = first_context fmt command base commands in
    let b = begun fmt command base commands in
    let m = new_memory first in
    let there' : Memᴰ command first.commands = subst (Memᴰ command) (sym b.same_commands) there in
    let only' : All (IsOnly command) first.commands =
      subst (All (IsOnly command)) (sym b.same_commands) only in
    let count = path_rounds-length command.path (suc (path_rounds (t ∷ ts) 1)) in
    let count' = path_rounds-length (t ∷ ts) 1 in
    (
      rest_stored fmt command o rest args free t ts m first,
      parse-run_tokens fmt law fuel base (command.path ++ t ∷ ts) commands
          ∙ ap (λ xs. run_tokens fmt fuel xs initial_state (start fmt base commands))
              (arg_tokens-path command.path (t ∷ ts) words
                ∙ ap (path_tokens command.path) (arg_tokens-texts (t ∷ ts) texts))
          ∙ run_tokens_fuel fmt (path_rounds command.path (suc (path_rounds (t ∷ ts) 1))) fuel
              (path_tokens command.path (path_tokens (t ∷ ts) [])) initial_state
              (start fmt base commands) _ (omega (arith, count, count', enough))
              (run-to_value fmt command first there' only' segment path p t
                  (subst (IsLast command.path t) (sym b.same_commands) ends) b.same_allow
                  (path_tokens ts []) (path_rounds (t ∷ ts) 1)
                ∙ run-segments fmt command o rest args free t ts m first b.same_ovm b.no_tokens),
      refl,
      refl,
      b.same_err,
      b.same_out,
    )
