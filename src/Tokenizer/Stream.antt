-- ===== src/Tokenizer/Stream.antt =====
-- clap/src/parser/tokenizer.h: what `NextToken` hands out over the arguments of a command line: the token stream.
use asap_clap.Base.{
  ℕ, List, [], ◌∷◌, ◌++◌, ◌≡◌, ◌≢◌, refl, ap, inl, inr, Bool-cases, Text, codes, ◌==◌, done, ◌⊎◌,
  All, map,
}
use asap_clap.Fsm.{Engine, IsEngine}
use asap_clap.Tokenizer.Grammar.{tokens_of, dashed, long_tokens, after_equal, tokenize-tokens_of}
use asap_clap.Tokenizer.{
  tokenize, Token, token, Tokenizer, tokenizer_of, TokenType, end_token, next_token, short_option,
  long_option, lone_dash, dash_dash, value, equal_sign, end_of_input,
}

-- The tokens of the arguments up to the first empty one.
abbrev pub arg_tokens : List Text → List Token
arg_tokens [] = []
arg_tokens ([] ∷ args) = []
arg_tokens ((c ∷ cs) ∷ args) = tokens_of (c ∷ cs) ++ arg_tokens args

-- What a tokenizer still hands out before its next EndOfInput.
abbrev pub pending : Tokenizer → List Token
pending t = t.tokens ++ arg_tokens t.args

abbrev pub front : List Token → Token
front [] = end_token
front (t ∷ _) = t

abbrev pub rest : List Token → List Token
rest [] = []
rest (_ ∷ ts) = ts

long_tokens-cons : (n s : Text) → (t : Token) × (ts : List Token) × (long_tokens n s ≡ t ∷ ts)
long_tokens-cons n [] = (_, _, refl)
long_tokens-cons n (_ ∷ _) = (_, _, refl)

dashed-cons : (s : Text) → (t : Token) × (ts : List Token) × (dashed s ≡ t ∷ ts)
dashed-cons [] = (_, _, refl)
dashed-cons (c ∷ []) = elim (Bool-cases (c == b'-')) [
  | inl dash ↦ rw dash (_, _, refl)
  | inr other ↦ rw other (_, _, refl)
]
dashed-cons (c ∷ d ∷ cs) = elim (Bool-cases (c == b'-')) [
  | inl dash ↦ rw dash (long_tokens-cons _ _)
  | inr other ↦ rw other (_, _, refl)
]

tokens_of-cons :
    (c : ℕ) (cs : Text) → (t : Token) × (ts : List Token) × (tokens_of (c ∷ cs) ≡ t ∷ ts)
tokens_of-cons c cs = elim (Bool-cases (c == b'-')) [
  | inl dash ↦ rw dash (dashed-cons cs)
  | inr other ↦ rw other (_, _, refl)
]

-- `t` hands out the front of `ts` next, or EndOfInput, and then has the rest pending.
abbrev pub HandsOut : Engine → Tokenizer → List Token → Type 0
HandsOut engine t ts =
    (t' : Tokenizer) × (next_token engine t ≡ done (front ts, t'))
    × (ts ≢ [] → pending t' ≡ rest ts)

module _ {engine : Engine} (law : IsEngine engine) where
  refill-HandsOut : (args : List Text) → HandsOut engine (tokenizer_of args) (arg_tokens args)
  unfolding next_token
  refill-HandsOut [] = (_, refl, λ h. absurd (h refl))
  refill-HandsOut ([] ∷ args) =
      (tokenizer_of args, rw (tokenize-tokens_of law), λ h. absurd (h refl))
  refill-HandsOut ((c ∷ cs) ∷ args) =
      let (t, ts, e) = tokens_of-cons c cs in
      (record { args = args; tokens = ts }, rw (tokenize-tokens_of law) (rw e), λ _. rw e)

  next_in-HandsOut :
      (args : List Text) (tokens : List Token)
      → HandsOut engine (record { args = args; tokens = tokens }) (tokens ++ arg_tokens args)
  unfolding next_token
  next_in-HandsOut args [] = refill-HandsOut args
  next_in-HandsOut args (x ∷ tokens) = (_, refl, λ _. refl)

  pub next_token-HandsOut : (t : Tokenizer) → HandsOut engine t (pending t)
  next_token-HandsOut t = next_in-HandsOut t.args t.tokens

  unless_empty : {P : Type 0} (ts : List Token) → (ts ≢ [] → P) → (ts ≡ []) ⊎ P
  unless_empty [] h = inl refl
  unless_empty (t ∷ ts) h = inr (h (λ e. cc))

  -- One call of `NextToken` on every engine succeeds: it returns the front of what is pending, or
  -- EndOfInput where nothing is pending, and it leaves the rest pending where something was.
  pub next_token-pending :
      (t : Tokenizer)
      → (t' : Tokenizer) × (next_token engine t ≡ done (front (pending t), t'))
        × ((pending t ≡ []) ⊎ (pending t' ≡ rest (pending t)))
  next_token-pending t =
      let (t', e, p) = next_token-HandsOut t in (t', e, unless_empty (pending t) p)

-- An empty argument hides every argument behind it: the stream that precedes EndOfInput is that of
-- the arguments in front of it.
pub arg_tokens-empty_arg :
    (before after : List Text) → arg_tokens (before ++ [] ∷ after) ≡ arg_tokens before
arg_tokens-empty_arg [] after = refl
arg_tokens-empty_arg ([] ∷ before) after = refl
arg_tokens-empty_arg ((c ∷ cs) ∷ before) after =
    ap (λ ts. tokens_of (c ∷ cs) ++ ts) (arg_tokens-empty_arg before after)

-- What is handed out has the shape that its type promises: a short option is one character, a long
-- option or a value is never empty.
abbrev pub HasShape : TokenType → Text → Type 0
HasShape short_option s = (c : ℕ) × (s ≡ c ∷ [])
HasShape long_option s = s ≢ []
HasShape value s = s ≢ []
HasShape lone_dash s = s ≡ codes "-"
HasShape dash_dash s = s ≡ codes "--"
HasShape equal_sign s = s ≡ codes "="
HasShape end_of_input s = ⊥

abbrev pub WellShaped : Token → Type 0
WellShaped t = HasShape t.token_type t.text

after_equal-WellShaped : (c : ℕ) (name cs : Text) → All WellShaped (after_equal (c ∷ name) cs)
after_equal-WellShaped c name [] = (λ e. cc, tt)
after_equal-WellShaped c name (d ∷ cs) = elim (Bool-cases (d == b'=')) [
  | inl same ↦ rw same (λ e. cc, (refl, after_equal-WellShaped c name cs))
  | inr other ↦ rw other (λ e. cc, tt)
]

long_tokens-WellShaped : (c : ℕ) (name cs : Text) → All WellShaped (long_tokens (c ∷ name) cs)
long_tokens-WellShaped c name [] = (λ e. cc, tt)
long_tokens-WellShaped c name (_ ∷ cs) = (λ e. cc, (refl, after_equal-WellShaped c name cs))

shorts-WellShaped : (cs : Text) → All WellShaped (map (λ d. token short_option (d ∷ [])) cs)
shorts-WellShaped [] = tt
shorts-WellShaped (c ∷ cs) = ((c, refl), shorts-WellShaped cs)

dashed-WellShaped : (s : Text) → All WellShaped (dashed s)
dashed-WellShaped [] = (refl, tt)
dashed-WellShaped (c ∷ []) = elim (Bool-cases (c == b'-')) [
  | inl dash ↦ rw dash (refl, tt)
  | inr other ↦ rw other ((c, refl), tt)
]
dashed-WellShaped (c ∷ d ∷ cs) = elim (Bool-cases (c == b'-')) [
  | inl dash ↦ rw dash (long_tokens-WellShaped d _ _)
  | inr other ↦ rw other ((c, refl), shorts-WellShaped (d ∷ cs))
]

pub tokens_of-WellShaped : (s : Text) → All WellShaped (tokens_of s)
tokens_of-WellShaped [] = tt
tokens_of-WellShaped (c ∷ cs) = elim (Bool-cases (c == b'-')) [
  | inl dash ↦ rw dash (dashed-WellShaped cs)
  | inr other ↦ rw other (λ e. cc, tt)
]

-- On every engine, `Tokenize` succeeds, and each token that it adds has the shape that its type
-- promises: a short option is one character, a long option and a value are never empty, the dashes
-- and the equal sign are those texts, and EndOfInput is not among the tokens.
pub tokenize-WellShaped :
    {engine : Engine} (law : IsEngine engine) (tokens : List Token) (arg : Text)
    → (added : List Token) × (tokenize engine tokens arg ≡ done (tokens ++ added))
      × All WellShaped added
tokenize-WellShaped law tokens arg =
    (tokens_of arg, tokenize-tokens_of law tokens arg, tokens_of-WellShaped arg)
