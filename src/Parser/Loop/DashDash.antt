-- ===== src/Parser/Loop/DashDash.antt =====
-- DashDashState of clap/src/parser/states.h: what `Parse` does with a command line after `--`.
use asap_clap.Base.{
  ℕ, zero, suc, ◌≤◌, List, [], ◌∷◌, ◌≡◌, refl, arith, Option, some, Text, fault, contract_violation,
  length, inl, inr, Bool-cases, ◌+◌,
}
use asap_clap.Format.{Fmt}
use asap_clap.Tokenizer.{Token, token, dash_dash}
use asap_clap.Parser.States.Handlers.{machine, handle, on_leave, on_enter}
use asap_clap.Parser.States.Options.{handle_options}
use asap_clap.Parser.Machine.{parse_options_state, dash_dash_state, Memory}
use asap_clap.Parser.Loop.{Parsed, is_end, react}
use asap_clap.Parser.Loop.Tokens.{step, run_tokens}

module _ (fmt : Fmt) where
  abbrev Stuck : Option Parsed → Type 0
  Stuck o = o ≡ some (fault contract_violation)

  -- The state stays where it is with every token, so EndOfInput finds it there.
  run_tokens-dash_dash_state :
      (ts : List Token) (fuel : ℕ) (m : Memory)
      → length ts + 1 ≤ fuel
      → Stuck (run_tokens fmt fuel ts dash_dash_state m)
  unfolding run_tokens step machine handle react
  run_tokens-dash_dash_state ts zero m h = absurd (omega arith)
  run_tokens-dash_dash_state [] (suc fuel) m h = refl
  run_tokens-dash_dash_state (t ∷ ts) (suc fuel) m h = elim (Bool-cases (is_end t.token_type)) [
    | inl end ↦ rw (end, react) refl
    | inr more ↦ rw (more, react) (run_tokens-dash_dash_state ts fuel m (omega arith))
  ]

  -- Once the options of a command are parsed, `--` makes the parser fail an assertion, whatever comes
  -- behind it.
  pub run_tokens-dash_dash :
      (text : Text) (ts : List Token) (fuel : ℕ) (m : Memory)
      → length ts + 2 ≤ fuel
      → Stuck (run_tokens fmt fuel (token dash_dash text ∷ ts) parse_options_state m)
  unfolding run_tokens step machine handle handle_options on_leave on_enter react
  run_tokens-dash_dash text ts zero m h = absurd (omega arith)
  run_tokens-dash_dash text ts (suc fuel) m h = run_tokens-dash_dash_state ts fuel m (omega arith)
