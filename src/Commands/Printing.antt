-- ===== src/Commands/Printing.antt =====
-- clap/src/option.cpp and command.cpp: the printed help of options and commands, as the text that
-- goes to the stream.
use asap_clap.Base.{
  ℕ, Bool, true, false, not, ◌&&◌, List, [], ◌∷◌, ◌++◌, Option, none, some, Text, codes, text_eq,
  is_empty, if◌then◌else◌, Outcome, done, fault, undefined_behaviour, exception, ◌>>=◌, deref,
}
use asap_clap.Format.{Fmt}
use asap_clap.Values.Descriptor.{ValueDescriptor, is_flag, is_value_required}
use asap_clap.Commands.{
  ClapOption, Options, Command, friendly_name, is_positional, is_positional_rest, default_name,
}

-- The wrapping library (asap-textwrap, not in this repository): `Fill` of a text at a width, with or
-- without CollapseWhiteSpace, and with an indentation of every line.
abbrev pub Wrap : Type 0
Wrap = ℕ → Bool → Text → Text → Option Text

-- The two texts of the parent Cli that a command prints.
pub record Parent : Type 0 where
  pub program_name : Text
  pub about : Text

abbrev optional_text : Bool → Text → Text
optional_text true s = s
optional_text false s = []

abbrev three_spaces : Text
three_spaces = codes "   "

value_description : ValueDescriptor → Text → Text
value_description d separator =
    separator
    ++ (optional_text (not (is_value_required d)) (codes "[")
        ++ (codes "<"
            ++ (d.user_friendly_name
                ++ (codes ">"
                    ++ (optional_text d.repeatable (codes "...")
                        ++ optional_text (not (is_value_required d)) (codes "["))))))

-- Option::PrintValueDescription
unfoldable pub print_value_description : Option ValueDescriptor → Text → Text
unfolding value_description
print_value_description none separator = codes "\n"
print_value_description (some d) separator =
    optional_text (not (is_flag d)) (value_description d separator) ++ codes "\n"

print_names : ClapOption → Text
unfolding print_value_description
print_names o =
    optional_text (not (is_empty o.short_name))
      (codes "   -" ++ (o.short_name ++ print_value_description o.value_semantic (codes " ")))
    ++ optional_text (not (is_empty o.long_name))
        (codes "   --" ++ (o.long_name ++ print_value_description o.value_semantic (codes "=")))

print_positional : ClapOption → Text
print_positional o =
    three_spaces
    ++ (optional_text (not o.required) (codes "[")
        ++ (codes "<"
            ++ (friendly_name o
                ++ (codes ">" ++ (optional_text (not o.required) (codes "]") ++ codes "\n")))))

-- `wrap.Fill(text).value()`, which throws std::bad_optional_access on an empty result.
abbrev pub filled : Option Text → Outcome Text
filled none = fault (exception (codes "bad optional access"))
filled (some s) = done s

module _ (wrap : Wrap) where
  -- Option::Print
  unfoldable pub print_option : ClapOption → ℕ → Outcome Text
  unfolding print_names print_positional
  print_option o width = do
    about ← filled (wrap width true three_spaces o.about)
    done ((if is_positional o then print_positional o else print_names o) ++ about)

  unfoldable pub print_all : List ClapOption → ℕ → Text → Outcome Text
  unfolding print_option
  print_all [] width after = done []
  print_all (o ∷ os) width after = do
    text ← print_option o width
    more ← print_all os width after
    done (text ++ (after ++ more))

  -- Options::Print
  unfoldable pub print_group : Options → ℕ → Outcome Text
  unfolding print_all
  print_group g width = do
    text ← print_all g.options width []
    done (optional_text (not (is_empty g.label)) (g.label ++ codes "\n") ++ text)

  print_groups : List (Options × Bool) → ℕ → Outcome Text
  unfolding print_group
  print_groups [] width = done []
  print_groups ((g, true) ∷ gs) width = print_groups gs width
  print_groups ((g, false) ∷ gs) width = do
    text ← print_group g width
    more ← print_groups gs width
    done (text ++ (codes "\n\n" ++ more))

  -- The first loop of PrintOptions: `options_in_groups_[option_index]` goes along.
  unfoldable pub print_ungrouped : List ClapOption → List Bool → ℕ → Outcome Text
  unfolding print_option
  print_ungrouped [] in_groups width = done []
  print_ungrouped (o ∷ os) [] width = fault undefined_behaviour
  print_ungrouped (o ∷ os) (true ∷ in_groups) width = print_ungrouped os in_groups width
  print_ungrouped (o ∷ os) (false ∷ in_groups) width = do
    text ← print_option o width
    more ← print_ungrouped os in_groups width
    done (text ++ (codes "\n\n" ++ more))

  -- Command::PrintOptions
  unfoldable pub print_options : Command → ℕ → Outcome Text
  unfolding print_ungrouped print_groups print_all
  print_options c width = do
    ungrouped ← print_ungrouped c.options c.options_in_groups width
    grouped ← print_groups c.groups width
    positional ← print_all c.positional_args width (codes "\n\n")
    done (ungrouped ++ (grouped ++ positional))

synopsis_option : ClapOption → Outcome Text
synopsis_option o = do
  semantics ← deref o.value_semantic
  let required = is_value_required semantics
  let both = not (is_empty o.short_name) && not (is_empty o.long_name)
  done (
      optional_text (not required) (codes "[")
      ++ (optional_text (not (is_empty o.short_name)) (codes "-" ++ o.short_name)
          ++ (optional_text both (codes ",")
              ++ (optional_text (not (is_empty o.long_name)) (codes "--" ++ o.long_name)
                  ++ (if required then codes " " else codes "] ")))))

synopsis_value : ClapOption → Outcome Text
synopsis_value o = do
  semantics ← deref o.value_semantic
  let optional = not (is_value_required semantics)
  done (
      codes " "
      ++ (optional_text optional (codes "[") ++ (o.key ++ optional_text optional (codes "]"))))

synopsis_positional : ClapOption → Outcome Text
unfolding synopsis_value
synopsis_positional o =
    if is_positional_rest o
    then done (
        optional_text (not o.required) (codes "[")
        ++ (codes "<"
            ++ (friendly_name o ++ (codes ">" ++ optional_text (not o.required) (codes "]")))))
    else synopsis_value o

synopsis_all : (ClapOption → Outcome Text) → List ClapOption → Outcome Text
synopsis_all print [] = done []
synopsis_all print (o ∷ os) = do text ← print o; more ← synopsis_all print os; done (text ++ more)

-- Command::ProgramName, for the parent that `parent_cli_` leads to if it is set.
abbrev program_name_of : Bool → Parent → Text
program_name_of true parent = parent.program_name
program_name_of false parent = codes "<program>"

module _ (fmt : Fmt) where
  abbrev pub path_text : Command → Text
  path_text c = fmt.format (codes "{}") (fmt.join c.path (codes " ") ∷ [])

  -- Command::PrintSynopsis
  unfoldable pub print_synopsis : Parent → Command → Outcome Text
  unfolding synopsis_all synopsis_option synopsis_positional
  print_synopsis parent c = do
    options ← synopsis_all synopsis_option c.options
    positional ← synopsis_all synopsis_positional c.positional_args
    done (
        program_name_of c.has_parent_cli parent
        ++ (codes " " ++ (path_text c ++ (codes " " ++ (options ++ positional)))))

  -- The text of the description. A null `parent_cli_` is dereferenced for the default command.
  description : Parent → Command → Outcome Text
  description parent c =
      if text_eq (path_text c) default_name
      then (if c.has_parent_cli then done parent.about else fault undefined_behaviour)
      else done c.about

  -- Command::Print
  unfoldable pub print_command : Wrap → Parent → Command → ℕ → Outcome Text
  unfolding print_synopsis description print_options
  print_command wrap parent c width = do
    synopsis ← print_synopsis parent c
    wrapped ← filled (wrap width true three_spaces synopsis)
    about ← description parent c
    described ← filled (wrap width true three_spaces about)
    options ← print_options wrap c width
    done (
        codes "SYNOPSIS\n"
        ++ (wrapped
            ++ (codes "\n\nDESCRIPTION\n" ++ (described ++ (codes "\n\nOPTIONS\n" ++ options)))))
