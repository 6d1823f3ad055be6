-- ===== src/Parser/States/Positionals.antt =====
-- FinalState::OnEnter (clap/src/parser/states.h): which positional token goes to which positional
-- argument when a rest option stands among them.
use asap_clap.Base.{
  true, false, List, [], ◌∷◌, ◌++◌, append_assoc, append-nil, ◌≡◌, refl, ap, ◌∙◌, arith, All,
  length, Option, none, some, Text, text_eq, done,
}
use asap_clap.Values.{Any}
use asap_clap.Values.Descriptor.{ValueDescriptor, parse}
use asap_clap.Commands.{ClapOption, is_positional, key_rest}
use asap_clap.Parser.Context.{ParserContext}
use asap_clap.Parser.States.Identify.{pop_back}
use asap_clap.Parser.States.Final.{store_positional, store_parsed, last, pick, place, with_tokens}
use asap_clap.Parser.States.Missing.{IsPlain}

-- The context after a token is given to an option: the value is stored if it parses.
unfoldable pub given : ClapOption → Text → ParserContext → ParserContext
unfolding store_parsed
given o token c = elim o.value_semantic [
  | none ↦ c
  | some d ↦ store_parsed o token (parse d token) c
]

-- Each option is given the token in its place.
unfoldable pub given_all : List ClapOption → List Text → ParserContext → ParserContext
unfolding given
given_all (o ∷ os) (t ∷ ts) c = given_all os ts (given o t c)
given_all _ _ c = c

abbrev pub reversed : List Text → List Text
reversed [] = []
reversed (t ∷ ts) = reversed ts ++ t ∷ []

-- The rest option.
pub record IsRest (o : ClapOption) : Type 0 where
  pub positional : is_positional o ≡ true
  pub rest : text_eq o.key key_rest ≡ true

store_parsed-with_tokens :
    (o : ClapOption) (t : Text) (v : Option Any) (ts : List Text) (c : ParserContext)
    → store_parsed o t v (with_tokens ts c) ≡ with_tokens ts (store_parsed o t v c)
unfolding store_parsed
store_parsed-with_tokens o t none ts c = refl
store_parsed-with_tokens o t (some v) ts c = refl

given-with_tokens :
    (o : ClapOption) (s : Option ValueDescriptor) (t : Text) (ts : List Text) (c : ParserContext)
    → o.value_semantic ≡ s
    → given o t (with_tokens ts c) ≡ with_tokens ts (given o t c)
unfolding given
given-with_tokens o none t ts c e = rw e refl
given-with_tokens o (some d) t ts c e = rw e (store_parsed-with_tokens o t (parse d t) ts c)

store_positional-given :
    (o : ClapOption) (t : Text) (ts : List Text) (c : ParserContext)
    → IsPlain o
    → store_positional o t (with_tokens ts c) ≡ done (with_tokens ts (given o t c))
unfolding store_positional given
store_positional-given o t ts c p =
    let (d, e) = p.described in
    rw e (ap (λ x. done x) (store_parsed-with_tokens o t (parse d t) ts c))

last-snoc : (ts : List Text) (t : Text) → last (ts ++ t ∷ []) ≡ done t
last-snoc [] t = refl
last-snoc (s ∷ []) t = refl
last-snoc (s ∷ r ∷ ts) t = last-snoc (r ∷ ts) t

pop_back-snoc : (ts : List Text) (t : Text) → pop_back (ts ++ t ∷ []) ≡ ts
pop_back-snoc [] t = refl
pop_back-snoc (s ∷ []) t = refl
pop_back-snoc (s ∷ r ∷ ts) t = ap (λ xs. s ∷ xs) (pop_back-snoc (r ∷ ts) t)

pick-snoc : (ts : List Text) (t : Text) → pick false (ts ++ t ∷ []) ≡ done (t, ts)
unfolding pick
pick-snoc ts t = rw (last-snoc, pop_back-snoc) refl

pick-behind :
    (xs ys : List Text) (t : Text) → pick false (xs ++ (ys ++ t ∷ [])) ≡ done (t, xs ++ ys)
pick-behind xs ys t = rw (← append_assoc) (pick-snoc (xs ++ ys) t)

pub place-fronts :
    (os later : List ClapOption) (ts more : List Text) (c : ParserContext)
    → All IsPlain os
    → length ts ≡ length os
    → place (os ++ later) true none (with_tokens (ts ++ more) c)
      ≡ place later true none (with_tokens more (given_all os ts c))
unfolding place pick given_all
place-fronts [] later [] more c a h = refl
place-fronts [] later (t ∷ ts) more c a h = absurd (omega arith)
place-fronts (o ∷ os) later [] more c a h = absurd (omega arith)
place-fronts (o ∷ os) later (t ∷ ts) more c (p, a) h =
    rw (p.positional, p.not_rest, store_positional-given o t (t ∷ ts ++ more) c p)
      (place-fronts os later ts more (given o t c) a (omega arith))

place-backs :
    (os : List ClapOption) (rest : ClapOption) (ts middle : List Text) (c : ParserContext)
    → All IsPlain os
    → length ts ≡ length os
    → place os false (some rest) (with_tokens (middle ++ reversed ts) c)
      ≡ done (some rest, with_tokens middle (given_all os ts c))
unfolding place given_all
place-backs [] rest [] middle c a h = rw append-nil refl
place-backs [] rest (t ∷ ts) middle c a h = absurd (omega arith)
place-backs (o ∷ os) rest [] middle c a h = absurd (omega arith)
place-backs (o ∷ os) rest (t ∷ ts) middle c (p, a) h =
    let picked : pick false (middle ++ reversed (t ∷ ts)) ≡ done (t, middle ++ reversed ts) =
      pick-behind middle (reversed ts) t in
    rw
      (
        p.positional,
        p.not_rest,
        picked,
        store_positional-given o t (middle ++ reversed (t ∷ ts)) c p,
      )
      (place-backs os rest ts middle (given o t c) a (omega arith))

-- With the rest option once among the positional arguments, all of them positional options, a value
-- descriptor for each of the others, and a token at least for each of these, those in front of the rest
-- option are given the first tokens in order, and those behind it the last tokens in reverse order: the
-- first argument behind the rest option gets the last token. The tokens between are left for the rest
-- option.
pub place-rest :
    (fronts backs : List ClapOption) (rest : ClapOption) (firsts middle lasts : List Text)
    (c : ParserContext)
    → All IsPlain fronts
    → IsRest rest
    → All IsPlain backs
    → length firsts ≡ length fronts
    → length lasts ≡ length backs
    → place
        (fronts ++ rest ∷ backs)
        true
        none
        (with_tokens (firsts ++ (middle ++ reversed lasts)) c)
      ≡ done (some rest, with_tokens middle (given_all backs lasts (given_all fronts firsts c)))
unfolding place
place-rest fronts backs rest firsts middle lasts c f r b h k =
    place-fronts fronts (rest ∷ backs) firsts (middle ++ reversed lasts) c f h
    ∙ rw (r.positional, r.rest)
        (place-backs backs rest lasts middle (given_all fronts firsts c) b k)
