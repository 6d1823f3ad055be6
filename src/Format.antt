-- ===== src/Format.antt =====
-- The formatting library fmt, which is not in this repository: `fmt::format` on a template and its
-- arguments, and `fmt::join` of texts with a separator.
use asap_clap.Base.{List, [], ◌∷◌, Text, codes, ◌≡◌, ◌++◌, refl, append-nil, ◌==◌, if◌then◌else◌}

pub record Fmt : Type 0 where
  pub format : Text → List Text → Text
  pub join : List Text → Text → Text

-- What the program relies on where it compares a formatted text: `{}` stands for its argument, and
-- a join puts the separator between the texts.
pub record IsFmt (fmt : Fmt) : Type 0 where
  pub format_hole : (s : Text) → fmt.format (codes "{}") (s ∷ []) ≡ s
  pub join_nil : (separator : Text) → fmt.join [] separator ≡ []
  pub join_one : (s separator : Text) → fmt.join (s ∷ []) separator ≡ s
  pub join_more :
      (s t : Text) (more : List Text) (separator : Text)
      → fmt.join (s ∷ t ∷ more) separator ≡ s ++ (separator ++ fmt.join (t ∷ more) separator)

-- A concrete instance: `{}` is replaced by the arguments in turn.
abbrev pub join_texts : List Text → Text → Text
join_texts [] separator = []
join_texts (s ∷ []) separator = s
join_texts (s ∷ t ∷ more) separator = s ++ (separator ++ join_texts (t ∷ more) separator)

abbrev pub fill : Text → List Text → Text
fill [] args = []
fill (c ∷ []) args = c ∷ []
fill (c ∷ d ∷ cs) [] = c ∷ fill (d ∷ cs) []
fill (c ∷ d ∷ cs) (a ∷ args) = if c == b'{' then a ++ fill cs args else c ∷ fill (d ∷ cs) (a ∷ args)

abbrev pub plain_fmt : Fmt
plain_fmt = record { format = fill; join = join_texts }

pub plain_fmt-IsFmt : IsFmt plain_fmt
plain_fmt-IsFmt = record {
  format_hole = λ s. append-nil s;
  join_nil = λ _. refl;
  join_one = λ _ _. refl;
  join_more = λ _ _ _ _. refl;
}
