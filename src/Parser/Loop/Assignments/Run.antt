-- ===== src/Parser/Loop/Assignments/Run.antt =====
-- clap/src/parser/parser.cpp: the loop of `Parse` over the tokens of options with their values.
use asap_clap.Base.{
  ℕ, suc, ◌+◌, ◌*◌, ◌≤◌, true, false, List, [], ◌∷◌, ◌++◌, append_assoc, ◌≡◌, refl, ◌∙◌, arith, All,
  length, Text, codes, done,
}
use asap_clap.Fsm.{continue, reissue_event}
use asap_clap.Format.{Fmt}
use asap_clap.Tokenizer.{Token, token, long_option, short_option, value, equal_sign}
use asap_clap.Tokenizer.Stream.{front}
use asap_clap.Values.ValuesMap.{OptionValuesMap}
use asap_clap.Commands.{Command}
use asap_clap.Parser.Context.{ParserContext}
use asap_clap.Parser.Machine.{State, parse_options_state, Memory}
use asap_clap.Parser.Loop.{is_end, react}
use asap_clap.Parser.Loop.Tokens.{step, run_tokens}
use asap_clap.Parser.Loop.Assignments.{
  Form, with_equal, with_space, short_form, Assignment, Means, may_occur, assigned, after, settled,
  opens, step-equal_sign, step-long_value, step-short_value, step-long_option, step-short_option,
  step-out_of_long, step-out_of_short,
}

abbrev pub tokens_by : Form → Text → Text → List Token
tokens_by with_equal name text =
    token long_option name ∷ token equal_sign (codes "=") ∷ token value text ∷ []
tokens_by with_space name text = token long_option name ∷ token value text ∷ []
tokens_by short_form name text = token short_option name ∷ token value text ∷ []

abbrev pub tokens_for : List Assignment → List Token
tokens_for [] = []
tokens_for (a ∷ more) = tokens_by a.form a.name a.text ++ tokens_for more

-- The rounds for an assignment, and `f` more.
abbrev rounds_by : Form → ℕ → ℕ
rounds_by with_equal f = suc (suc (suc (suc f)))
rounds_by _ f = suc (suc (suc f))

abbrev pub rounds_for : List Assignment → ℕ → ℕ
rounds_for [] f = f
rounds_for (a ∷ more) f = rounds_by a.form (rounds_for more f)

abbrev pub all_after : List Assignment → ParserContext → ParserContext
all_after [] c = c
all_after (a ∷ more) c = all_after more (after a c)

abbrev pub all_assigned : List Assignment → OptionValuesMap → OptionValuesMap
all_assigned [] ovm = ovm
all_assigned (a ∷ more) ovm = all_assigned more (assigned a ovm)

-- Each option may be given when its turn comes.
abbrev pub MayOccur : List Assignment → OptionValuesMap → Type 0
MayOccur [] ovm = Unit
MayOccur (a ∷ more) ovm = (may_occur a ovm ≡ true) × MayOccur more (assigned a ovm)

module _ (fmt : Fmt) where
  pub run_continue :
      (t : Token) (ts : List Token) (f : ℕ) (s s' : State) (m m' : Memory)
      → is_end t.token_type ≡ false
      → step fmt t s m ≡ done (continue, s', m')
      → run_tokens fmt (suc f) (t ∷ ts) s m ≡ run_tokens fmt f ts s' m'
  unfolding run_tokens
  run_continue t ts f s s' m m' h e = rw e (rw (h, react) refl)

  pub run_reissue :
      (ts : List Token) (f : ℕ) (s s' : State) (m m' : Memory)
      → step fmt (front ts) s m ≡ done (reissue_event, s', m')
      → run_tokens fmt (suc f) ts s m ≡ run_tokens fmt f ts s' m'
  unfolding run_tokens react
  run_reissue ts f s s' m m' e = rw e refl

  module _ (command : Command) (m : Memory) where
    run-tokens_by :
        (form : Form) (a : Assignment) (ts : List Token) (f : ℕ) (c : ParserContext)
        → a.form ≡ form
        → Means command a
        → may_occur a c.ovm ≡ true
        → opens (front ts).token_type ≡ true
        → run_tokens fmt
            (rounds_by form f)
            (tokens_by form a.name a.text ++ ts)
            parse_options_state
            (settled command c m)
          ≡ run_tokens fmt f ts parse_options_state (settled command (after a c) m)
    run-tokens_by with_equal a ts f c e means h o =
        run_continue _ _ _ _ _ _ _ refl (
          step-long_option fmt command m a c a.name (rw e at means.found) (rw e refl)
            means.described h)
        ∙ run_continue _ _ _ _ _ _ _ refl
            (step-equal_sign fmt command m a c (codes "=") means.described)
        ∙ run_continue _ _ _ _ _ _ _ refl
            (step-long_value fmt command m a c true means.described means.read)
        ∙ run_reissue ts f _ _ _ _ (
            step-out_of_long fmt command m (after a c) a.text a.option a.semantics refl
              means.described true (front ts).token_type (front ts).text o)
    run-tokens_by with_space a ts f c e means h o =
        run_continue _ _ _ _ _ _ _ refl (
          step-long_option fmt command m a c a.name (rw e at means.found) (rw e refl)
            means.described h)
        ∙ run_continue _ _ _ _ _ _ _ refl
            (step-long_value fmt command m a c false means.described means.read)
        ∙ run_reissue ts f _ _ _ _ (
            step-out_of_long fmt command m (after a c) a.text a.option a.semantics refl
              means.described false (front ts).token_type (front ts).text o)
    run-tokens_by short_form a ts f c e means h o =
        run_continue _ _ _ _ _ _ _ refl (
          step-short_option fmt command m a c a.name (rw e at means.found) (rw e refl)
            means.described h)
        ∙ run_continue _ _ _ _ _ _ _ refl
            (step-short_value fmt command m a c means.described means.read)
        ∙ run_reissue ts f _ _ _ _ (
            step-out_of_short fmt command m (after a c) a.text a.option a.semantics refl
              means.described (front ts).token_type (front ts).text o)

    opens-tokens_by :
        (form : Form) (name text : Text) (ts : List Token)
        → opens (front (tokens_by form name text ++ ts)).token_type ≡ true
    opens-tokens_by with_equal name text ts = refl
    opens-tokens_by with_space name text ts = refl
    opens-tokens_by short_form name text ts = refl

    opens-tokens_for :
        (all : List Assignment) (ts : List Token)
        → opens (front ts).token_type ≡ true
        → opens (front (tokens_for all ++ ts)).token_type ≡ true
    opens-tokens_for [] ts o = o
    opens-tokens_for (a ∷ more) ts o =
        rw append_assoc (opens-tokens_by a.form a.name a.text (tokens_for more ++ ts))

    pub run-tokens_for :
        (all : List Assignment) (ts : List Token) (f : ℕ) (c : ParserContext)
        → All (Means command) all
        → MayOccur all c.ovm
        → opens (front ts).token_type ≡ true
        → run_tokens fmt
            (rounds_for all f)
            (tokens_for all ++ ts)
            parse_options_state
            (settled command c m)
          ≡ run_tokens fmt f ts parse_options_state (settled command (all_after all c) m)
    run-tokens_for [] ts f c means h o = refl
    run-tokens_for (a ∷ more) ts f c means h o = rw append_assoc (
        run-tokens_by a.form a (tokens_for more ++ ts) (rounds_for more f) c refl means.0 h.0
          (opens-tokens_for more ts o)
        ∙ run-tokens_for more ts f (after a c) means.1 h.1 o)

rounds_by-bound :
    (form : Form) (more : List Assignment) (f : ℕ)
    → rounds_for more f ≤ 4 * length more + f
    → rounds_by form (rounds_for more f) ≤ 4 * suc (length more) + f
rounds_by-bound with_equal more f h = omega arith
rounds_by-bound with_space more f h = omega arith
rounds_by-bound short_form more f h = omega arith

-- The rounds are four for each option at most.
pub rounds_for-bound : (all : List Assignment) (f : ℕ) → rounds_for all f ≤ 4 * length all + f
rounds_for-bound [] f = omega arith
rounds_for-bound (a ∷ more) f = rounds_by-bound a.form more f (rounds_for-bound more f)
