-- ===== src/Tokenizer/Grammar.antt =====
-- An independent description of the tokens of one argument, for the state machine of
-- clap/src/parser/tokenizer.cpp.
use asap_clap.Base.{
  ℕ, true, false, List, [], ◌∷◌, ◌++◌, map, ◌≡◌, refl, ◌∙◌, inl, inr, Bool-cases, Text, codes, ◌==◌,
  if◌then◌else◌, done, append-nil, append_assoc,
}
use asap_clap.Fsm.{Engine, IsEngine}
use asap_clap.Fsm.Reference.{reference, engine-reference}
use asap_clap.Tokenizer.{
  short_option, long_option, lone_dash, dash_dash, value, equal_sign, Token, token, consume_token,
  value_state, short_option_state, option_state, dash_dash_state, long_option_state, Memory,
  machine, feed, fresh, tokenize,
}

-- The part of a text in front of its first `=`, and the part from there on.
abbrev pub before_equal : Text → Text
before_equal [] = []
before_equal (c ∷ cs) = if c == b'=' then [] else c ∷ before_equal cs

abbrev pub from_equal : Text → Text
from_equal [] = []
from_equal (c ∷ cs) = if c == b'=' then c ∷ cs else from_equal cs

abbrev pub named : Text → List Token → List Token
named name rest = token long_option name ∷ token equal_sign (codes "=") ∷ rest

-- Behind the first `=`: every further `=` at once repeats the option; then comes the value, or, with
-- no value, the option once more.
abbrev pub after_equal : Text → Text → List Token
after_equal name [] = token long_option name ∷ []
after_equal name (c ∷ cs) =
    if c == b'=' then named name (after_equal name cs) else token value (c ∷ cs) ∷ []

abbrev pub long_tokens : Text → Text → List Token
long_tokens name [] = token long_option name ∷ []
long_tokens name (_ ∷ cs) = named name (after_equal name cs)

-- The tokens of an argument that begins with two dashes, behind those. The name is never empty: its
-- first character is taken whatever it is.
abbrev pub double_dashed : Text → List Token
double_dashed [] = token dash_dash (codes "--") ∷ []
double_dashed (c ∷ cs) = long_tokens (c ∷ before_equal cs) (from_equal cs)

abbrev pub dashed : Text → List Token
dashed [] = token lone_dash (codes "-") ∷ []
dashed (c ∷ cs) =
    if c == b'-' then double_dashed cs else map (λ d. token short_option (d ∷ [])) (c ∷ cs)

abbrev pub tokens_of : Text → List Token
tokens_of [] = []
tokens_of (c ∷ cs) = if c == b'-' then dashed cs else token value (c ∷ cs) ∷ []

feed-value_state :
    (cs : Text) (m : Memory)
    → feed reference value_state m cs ≡ done (m.tokens ++ token value (m.value_token ++ cs) ∷ [])
unfolding feed machine
feed-value_state [] m = rw append-nil
feed-value_state (c ∷ cs) m =
    feed-value_state cs (record m { value_token = m.value_token ++ c ∷ [] }) ∙ rw append_assoc

feed-short_option_state :
    (cs : Text) (m : Memory)
    → feed reference short_option_state m cs
      ≡ done (m.tokens ++ map (λ d. token short_option (d ∷ [])) cs)
unfolding feed machine
feed-short_option_state [] m = rw append-nil
feed-short_option_state (c ∷ cs) m =
    feed-short_option_state cs (record m { tokens = m.tokens ++ token short_option (c ∷ []) ∷ [] })
    ∙ rw append_assoc

-- The memory after one more `=`, and after the first character of a value.
abbrev repeated : Memory → Memory
repeated m = consume_token equal_sign (codes "=") (consume_token long_option m.long_token m)

abbrev valued : ℕ → Memory → Memory
valued c m = record m { after_equal_sign = false; value_token = m.value_token ++ c ∷ [] }

feed-after_equal :
    (cs : Text) (m : Memory)
    → m.after_equal_sign ≡ true
    → m.value_token ≡ []
    → feed reference long_option_state m cs ≡ done (m.tokens ++ after_equal m.long_token cs)
unfolding feed machine
feed-after_equal [] m h v = refl
feed-after_equal (c ∷ cs) m h v = elim (Bool-cases (c == b'=')) [
  | inl same ↦ rw same (
      feed-after_equal cs (record (repeated m) { after_equal_sign = true }) refl v
      ∙ rw (append_assoc, append_assoc))
  | inr other ↦ rw (other, h) (feed-value_state cs (valued c m) ∙ rw v)
]

feed-long_option_state :
    (cs : Text) (m : Memory)
    → m.after_equal_sign ≡ false
    → m.value_token ≡ []
    → feed reference long_option_state m cs
      ≡ done (m.tokens ++ long_tokens (m.long_token ++ before_equal cs) (from_equal cs))
unfolding feed machine
feed-long_option_state [] m h v = rw append-nil
feed-long_option_state (c ∷ cs) m h v = elim (Bool-cases (c == b'=')) [
  | inl same ↦ rw same (
      feed-after_equal cs (record (repeated m) { after_equal_sign = true }) refl v
      ∙ simp (append_assoc, append-nil))
  | inr other ↦
      rw (other, h)
        (feed-long_option_state cs
            (record m { long_token = m.long_token ++ c ∷ []; after_equal_sign = false }) refl v
          ∙ simp append_assoc)
]

feed-dash_dash_state :
    (cs : Text) (m : Memory)
    → m.after_equal_sign ≡ false
    → m.value_token ≡ []
    → m.long_token ≡ []
    → feed reference dash_dash_state m cs ≡ done (m.tokens ++ double_dashed cs)
unfolding feed machine
feed-dash_dash_state [] m h v l = refl
feed-dash_dash_state (c ∷ cs) m h v l =
    feed-long_option_state cs (record m { long_token = m.long_token ++ c ∷ [] }) h v ∙ rw l

feed-option_state :
    (cs : Text) (m : Memory)
    → m.after_equal_sign ≡ false
    → m.value_token ≡ []
    → m.long_token ≡ []
    → feed reference option_state m cs ≡ done (m.tokens ++ dashed cs)
unfolding feed machine
feed-option_state [] m h v l = refl
feed-option_state (c ∷ cs) m h v l = elim (Bool-cases (c == b'-')) [
  | inl dash ↦ rw dash (feed-dash_dash_state cs m h v l)
  | inr other ↦
      rw other
        (feed-short_option_state cs (consume_token short_option (c ∷ []) m) ∙ rw append_assoc)
]

tokenize-reference :
    (tokens : List Token) (arg : Text)
    → tokenize reference tokens arg ≡ done (tokens ++ tokens_of arg)
unfolding tokenize
tokenize-reference tokens [] = rw append-nil
tokenize-reference tokens (c ∷ cs) = elim (Bool-cases (c == b'-')) [
  | inl dash ↦ rw dash (feed-option_state cs (fresh tokens) refl refl refl)
  | inr other ↦ rw other (feed-value_state cs (record (fresh tokens) { value_token = c ∷ [] }))
]

-- On every engine, `Tokenize` adds to the deque exactly the tokens that the grammar gives the
-- argument, in order, and keeps those that were there.
pub tokenize-tokens_of :
    {engine : Engine} (law : IsEngine engine) (tokens : List Token) (arg : Text)
    → tokenize engine tokens arg ≡ done (tokens ++ tokens_of arg)
tokenize-tokens_of law tokens arg = rw (engine-reference law) (tokenize-reference tokens arg)
