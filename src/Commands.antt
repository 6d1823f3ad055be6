-- ===== src/Commands.antt =====
-- clap/include/clap/option.h and command.h: options, groups of options, and commands.
pub mod Printing
use asap_clap.Base.{
  ℕ, Bool, true, false, not, ◌&&◌, ◌||◌, List, [], ◌∷◌, ◌++◌, map, Option, none, some, Text, codes,
  text_eq, texts_eq, is_empty, find_if, any_of, if◌then◌else◌, Outcome, done, fault, exception,
}
use asap_clap.Values.Descriptor.{ValueDescriptor}

-- The class `Option`. `value_semantic_` is null until a value is described.
pub record ClapOption : Type 0 where
  pub key : Text
  pub short_name : Text
  pub long_name : Text
  pub about : Text
  pub user_friendly_name : Text
  pub required : Bool
  pub value_semantic : Option ValueDescriptor

abbrev pub new_option : Text → ClapOption
new_option key = record {
  key = key;
  short_name = codes "";
  long_name = codes "";
  about = codes "";
  user_friendly_name = codes "";
  required = false;
  value_semantic = none;
}

abbrev pub key_rest : Text
key_rest = codes "_REST_"

-- Option::UserFriendlyName
abbrev pub friendly_name : ClapOption → Text
friendly_name o = if not (is_empty o.user_friendly_name) then o.user_friendly_name else o.key

abbrev pub is_positional : ClapOption → Bool
is_positional o = is_empty o.long_name && is_empty o.short_name

abbrev pub is_positional_rest : ClapOption → Bool
is_positional_rest o = is_positional o && text_eq o.key key_rest

-- The struct `Options`, a labelled group, and its `Add`.
pub record Options : Type 0 where
  pub label : Text
  pub options : List ClapOption

abbrev pub add_option : ClapOption → Options → Options
add_option o g = record g { options = g.options ++ o ∷ [] }

-- The class `Command`. `has_parent_cli` says that `parent_cli_` is set: there is one Cli.
pub record Command : Type 0 where
  pub about : Text
  pub path : List Text
  pub options : List ClapOption
  pub options_in_groups : List Bool
  pub groups : List (Options × Bool)
  pub positional_args : List ClapOption
  pub has_parent_cli : Bool

abbrev pub version_name : Text
version_name = codes "version"

abbrev pub version_long : Text
version_long = codes "--version"

abbrev pub version_short : Text
version_short = codes "-v"

abbrev pub help_name : Text
help_name = codes "help"

abbrev pub help_long : Text
help_long = codes "--help"

abbrev pub help_short : Text
help_short = codes "-h"

-- Command::DEFAULT
abbrev pub default_name : Text
default_name = codes ""

abbrev is_default_path : List Text → Bool
is_default_path (segment ∷ []) = is_empty segment
is_default_path _ = false

abbrev pub is_default : Command → Bool
is_default c = is_default_path c.path

abbrev is_single : List Text → Bool
is_single (_ ∷ []) = true
is_single _ = false

-- The constructor. A path with several segments, one of them empty, throws std::domain_error.
unfoldable pub new_command : List Text → Outcome Command
new_command path =
    if any_of (λ segment. text_eq segment default_name) path && not (is_single path)
    then fault
        (exception (codes "default command can only have one path segment (an empty string)"))
    else done (record {
      about = codes "";
      path = path;
      options = [];
      options_in_groups = [];
      groups = [];
      positional_args = [];
      has_parent_cli = false;
    })

-- FindShortOption and FindLongOption
unfoldable pub find_short_option : Text → Command → Option ClapOption
find_short_option name c = find_if (λ o. text_eq o.short_name name) c.options

unfoldable pub find_long_option : Text → Command → Option ClapOption
find_long_option name c = find_if (λ o. text_eq o.long_name name) c.options

-- WithOptions
unfoldable pub with_options : Options → Bool → Command → Command
with_options group hidden c = record c {
  options = c.options ++ group.options;
  options_in_groups = c.options_in_groups ++ map (λ _. true) group.options;
  groups = c.groups ++ (group, hidden) ∷ [];
}

-- WithOption. The help and version options come first.
unfoldable pub with_option : ClapOption → Command → Command
with_option o c =
    if text_eq o.key help_name || text_eq o.key version_name
    then record c { options = o ∷ c.options; options_in_groups = false ∷ c.options_in_groups }
    else record c {
      options = c.options ++ o ∷ [];
      options_in_groups = c.options_in_groups ++ false ∷ [];
    }

-- WithPositionalArguments
unfoldable pub with_positional_arguments : List ClapOption → Command → Command
with_positional_arguments options c = record c { positional_args = c.positional_args ++ options }
