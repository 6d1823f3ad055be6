-- ===== src/Values.antt =====
-- The values of options: what `std::any` may hold here, `OptionValue`
-- (clap/include/clap/option_value.h), and how a token is read as a value.
pub mod Numbers
pub mod ParseValue
pub mod Typed
pub mod Descriptor
pub mod ValuesMap
use asap_clap.Base.{ℕ, Bool, Text, ℤ}

-- The contents of a `std::any` that a value parser of parse_value.h can leave there. Those of
-- an integer, an enumeration and a floating point number come with the name of their type, which
-- `std::any` keeps too. A floating point number is the number that its bits form.
pub data Any : Type 0 where
  bool_value : Bool → Any
  int_value : Text → ℤ → Any
  unsigned_value : Text → ℕ → Any
  char_value : ℕ → Any
  text_value : Text → Any
  enum_value : Text → ℕ → Any
  float_value : Text → ℕ → Any

pub record OptionValue : Type 0 where
  pub value : Any
  pub original_token : Text
  pub defaulted : Bool
