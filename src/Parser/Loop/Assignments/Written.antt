-- ===== src/Parser/Loop/Assignments/Written.antt =====
-- clap/src/parser/tokenizer.cpp: options with their values, as they are written on a command line.
use asap_clap.Base.{
  ℕ, Bool, true, false, not, ◌&&◌, List, [], ◌∷◌, ◌++◌, append_assoc, append-nil, ◌≡◌, refl, sym,
  ap, ◌∙◌, arith, All, Text, codes, is_empty, ◌==◌,
}
use asap_clap.Tokenizer.{token, value, long_option}
use asap_clap.Tokenizer.Grammar.{tokens_of, before_equal, from_equal, after_equal}
use asap_clap.Tokenizer.Stream.{arg_tokens}
use asap_clap.Parser.Loop.Assignments.{Form, with_equal, with_space, short_form, Assignment}
use asap_clap.Parser.Loop.Assignments.Run.{tokens_by, tokens_for}

-- `--name=text`, `--name text` and `-n text`
abbrev pub written_by : Form → Text → Text → List Text
written_by with_equal name text = (codes "--" ++ (name ++ b'=' ∷ text)) ∷ []
written_by with_space name text = (codes "--" ++ name) ∷ text ∷ []
written_by short_form name text = (codes "-" ++ name) ∷ text ∷ []

abbrev pub written : List Assignment → List Text
written [] = []
written (a ∷ more) = written_by a.form a.name a.text ++ written more

abbrev pub starts_with : ℕ → Text → Bool
starts_with d [] = false
starts_with d (c ∷ cs) = c == d

abbrev free_of : ℕ → Text → Bool
free_of d [] = true
free_of d (c ∷ cs) = not (c == d) && free_of d cs

-- A value is not empty, and begins with no dash, or behind an equal sign with no equal sign. A long
-- name is not empty and has no equal sign in it. A short name is one character, and no dash.
abbrev pub is_value : ℕ → Text → Bool
is_value d text = not (is_empty text) && not (starts_with d text)

abbrev pub writable : Form → Text → Text → Bool
writable with_equal name text = not (is_empty name) && (free_of b'=' name && is_value b'=' text)
writable with_space name text = not (is_empty name) && (free_of b'=' name && is_value b'-' text)
writable short_form [] text = false
writable short_form (c ∷ []) text = not (c == b'-') && is_value b'-' text
writable short_form (c ∷ d ∷ cs) text = false

before_equal-free : (name : Text) → free_of b'=' name ≡ true → before_equal name ≡ name
before_equal-free [] h = refl
before_equal-free (c ∷ cs) h = ground (arith, before_equal-free cs)

from_equal-free : (name : Text) → free_of b'=' name ≡ true → from_equal name ≡ []
from_equal-free [] h = refl
from_equal-free (c ∷ cs) h = ground (arith, from_equal-free cs)

before_equal-given :
    (name text : Text) → free_of b'=' name ≡ true → before_equal (name ++ b'=' ∷ text) ≡ name
before_equal-given [] text h = refl
before_equal-given (c ∷ cs) text h = ground (arith, before_equal-given cs text)

from_equal-given :
    (name text : Text) → free_of b'=' name ≡ true → from_equal (name ++ b'=' ∷ text) ≡ b'=' ∷ text
from_equal-given [] text h = refl
from_equal-given (c ∷ cs) text h = ground (arith, from_equal-given cs text)

tokens_of-value : (text : Text) → is_value b'-' text ≡ true → tokens_of text ≡ token value text ∷ []
tokens_of-value [] h = absurd cc
tokens_of-value (c ∷ cs) h = ground arith

after_equal-value :
    (name text : Text) → is_value b'=' text ≡ true → after_equal name text ≡ token value text ∷ []
after_equal-value name [] h = absurd cc
after_equal-value name (c ∷ cs) h = ground arith

pub arg_tokens-value :
    (text : Text) (args : List Text)
    → is_value b'-' text ≡ true
    → arg_tokens (text ∷ args) ≡ token value text ∷ arg_tokens args
arg_tokens-value [] args h = absurd cc
arg_tokens-value (c ∷ cs) args h = rw (tokens_of-value (c ∷ cs) h) refl

arg_tokens-written_by :
    (form : Form) (name text : Text) (args : List Text)
    → writable form name text ≡ true
    → arg_tokens (written_by form name text ++ args) ≡ tokens_by form name text ++ arg_tokens args
arg_tokens-written_by with_equal [] text args h = absurd cc
arg_tokens-written_by with_equal (c ∷ cs) text args h =
    let f : free_of b'=' cs ≡ true = ground arith in
    let v : is_value b'=' text ≡ true = ground arith in
    rw (before_equal-given cs text f, from_equal-given cs text f, after_equal-value (c ∷ cs) text v)
      refl
arg_tokens-written_by with_space [] text args h = absurd cc
arg_tokens-written_by with_space (c ∷ cs) text args h =
    let f : free_of b'=' cs ≡ true = ground arith in
    let v : is_value b'-' text ≡ true = ground arith in
    rw (before_equal-free cs f, from_equal-free cs f, arg_tokens-value text args v) refl
arg_tokens-written_by short_form [] text args h = absurd cc
arg_tokens-written_by short_form (c ∷ []) text args h =
    let d : (c == b'-') ≡ false = ground arith in
    let v : is_value b'-' text ≡ true = ground arith in rw (d, arg_tokens-value text args v) refl
arg_tokens-written_by short_form (c ∷ d ∷ cs) text args h = absurd cc

abbrev pub AllWritable : List Assignment → Type 0
AllWritable all = All (λ a. writable a.form a.name a.text ≡ true) all

pub arg_tokens-written :
    (all : List Assignment) (args : List Text)
    → AllWritable all
    → arg_tokens (written all ++ args) ≡ tokens_for all ++ arg_tokens args
arg_tokens-written [] args h = refl
arg_tokens-written (a ∷ more) args h =
    let t = tokens_by a.form a.name a.text in
    ap arg_tokens (append_assoc (written_by a.form a.name a.text) (written more) args)
    ∙ arg_tokens-written_by a.form a.name a.text (written more ++ args) h.0
    ∙ ap (λ ts. t ++ ts) (arg_tokens-written more args h.1)
    ∙ sym (append_assoc t (tokens_for more) (arg_tokens args))

pub arg_tokens-all_written :
    (all : List Assignment) → AllWritable all → arg_tokens (written all) ≡ tokens_for all
arg_tokens-all_written all h =
    ap arg_tokens (sym (append-nil (written all)))
    ∙ arg_tokens-written all [] h
    ∙ append-nil (tokens_for all)

-- A long option on its own.
abbrev pub is_name : Text → Bool
is_name name = not (is_empty name) && free_of b'=' name

pub arg_tokens-long_option :
    (name : Text) (args : List Text)
    → is_name name ≡ true
    → arg_tokens ((codes "--" ++ name) ∷ args) ≡ token long_option name ∷ arg_tokens args
arg_tokens-long_option [] args h = absurd cc
arg_tokens-long_option (c ∷ cs) args h =
    let f : free_of b'=' cs ≡ true = ground arith in
    rw (before_equal-free cs f, from_equal-free cs f) refl
