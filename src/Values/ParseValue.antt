-- ===== src/Values/ParseValue.antt =====
-- clap/include/clap/detail/parse_value.h and string_utils.h: the value parsers by type.
pub mod Range
pub mod Flags
use asap_clap.Base.{
  ℕ, ◌+◌, ◌-◌, ◌%◌, ◌^◌, Bool, true, false, not, ◌&&◌, ◌||◌, List, [], ◌∷◌, map, Option, none, some,
  Text, codes, text_eq, length, ◌==◌, ltb, leb, if◌then◌else◌, ℤ, pos, negsuc, int_eq, is_positive,
}
use asap_clap.Values.Numbers.{Conversion, number, invalid_argument, out_of_range, stoll, stoull}
use asap_clap.Values.{
  Any, bool_value, int_value, unsigned_value, char_value, text_value, enum_value, float_value,
}

-- The types `T` of a ValueDescriptor<T>. Integers come with the name of their type and
-- its width in bits, as the other families come with a name. An enumeration
-- comes with the two `magic_enum::enum_cast` functions of a library that is not in this repository,
-- from a name and from a number, and with the width of its underlying type. A floating point type
-- comes with `std::stold` and with the `static_cast` of its result to the type, on the bits of the
-- numbers: the model has no floating point arithmetic.
pub data ValueType : Type 0 where
  flag character text : ValueType
  signed unsigned : Text → ℕ → ValueType
  enumeration : Text → (Text → Option ℕ) → (ℤ → Option ℕ) → ℕ → ValueType
  floating : Text → (Text → Conversion ℕ) → (ℕ → ℕ) → ValueType

-- `v` modulo 2 ^ w, as a number.
abbrev pub bits_of : ℕ → ℤ → ℕ
bits_of w (pos n) = n % 2 ^ w
bits_of w (negsuc n) = 2 ^ w - 1 - n % 2 ^ w

-- static_cast to a signed type of `w` bits.
unfoldable pub signed_cast : ℕ → ℤ → ℤ
signed_cast w v =
    let n = bits_of w v in if ltb n (2 ^ (w - 1)) then pos n else negsuc (2 ^ w - 1 - n)

-- What both conversions return: the value, if all of the input was consumed and the value survives
-- the cast to `AssignTo`.
signed_result : ℕ → ℕ → Conversion ℤ → Option ℤ
signed_result w size (number v consumed) =
    if consumed == size && int_eq (signed_cast w v) v then some (signed_cast w v) else none
signed_result w size invalid_argument = none
signed_result w size out_of_range = none

-- NumberConversion
unfoldable pub number_conversion : ℕ → Text → Option ℤ
unfolding signed_result
number_conversion w input = signed_result w (length input) (stoll input)

unsigned_result : ℕ → ℕ → Conversion ℕ → Option ℕ
unsigned_result w size (number v consumed) =
    if consumed == size && v % 2 ^ w == v then some (v % 2 ^ w) else none
unsigned_result w size invalid_argument = none
unsigned_result w size out_of_range = none

abbrev pub starts_with_minus : Text → Bool
starts_with_minus [] = false
starts_with_minus (c ∷ _) = c == b'-'

-- UnsignedNumberConversion. `input[0]` of an empty string is its terminator.
unfoldable pub unsigned_number_conversion : ℕ → Text → Option ℕ
unfolding unsigned_result
unsigned_number_conversion w input =
    if starts_with_minus input then none else unsigned_result w (length input) (stoull input)

-- `std::tolower` in the classic locale, and ToLower.
unfoldable pub lower_char : ℕ → ℕ
lower_char c = if leb b'A' c && leb c b'Z' then c + 32 else c

unfoldable pub to_lower : Text → Text
unfolding lower_char
to_lower = map lower_char

-- The conversion of a one-character flag.
flag_char : ℕ → Conversion ℤ
flag_char c =
    if leb b'1' c && leb c b'9'
    then number (pos (c - b'0')) 1
    else if c == b'0' || c == b'f' || c == b'n' || c == b'-'
    then number (negsuc 0) 1
    else if c == b't' || c == b'y' || c == b'+'
    then number (pos 1) 1
    else invalid_argument

flag_word : Text → Conversion ℤ
flag_word val =
    if text_eq val (codes "true")
      || text_eq val (codes "on")
      || text_eq val (codes "yes")
      || text_eq val (codes "enable")
    then number (pos 1) 0
    else if text_eq val (codes "false")
        || text_eq val (codes "off")
        || text_eq val (codes "no")
        || text_eq val (codes "disable")
    then number (negsuc 0) 0
    else stoll val

flag_lowered : Text → Conversion ℤ
unfolding flag_char flag_word
flag_lowered (c ∷ []) = flag_char c
flag_lowered val = flag_word val

-- StringToFlagValue. The count that `Conversion` carries is not used.
unfoldable pub string_to_flag_value : Text → Conversion ℤ
unfolding flag_lowered to_lower
string_to_flag_value val = flag_lowered (to_lower val)

flag_result : Text → Conversion ℤ → Option Bool
flag_result input (number v _) = some (is_positive v)
flag_result input invalid_argument = none
flag_result input out_of_range = some (not (starts_with_minus input))

-- ParseValue for bool
unfoldable pub parse_flag : Text → Option Bool
unfolding flag_result
parse_flag input = flag_result input (string_to_flag_value input)

-- ParseValue for char: one byte as it is, or a number of eight bits.
unfoldable pub parse_char : Text → Option ℕ
parse_char (c ∷ []) = some c
parse_char input = elim (number_conversion 8 input) [ none ↦ none | some v ↦ some (bits_of 8 v) ]

-- ParseValue for an enumeration
unfoldable pub parse_enum : (Text → Option ℕ) → (ℤ → Option ℕ) → ℕ → Text → Option ℕ
parse_enum by_name by_value w input = elim (by_name (to_lower input)) [
  | some e ↦ some e
  | none ↦ elim (number_conversion w input) [ none ↦ none | some v ↦ by_value v ]
]

float_result : (ℕ → ℕ) → ℕ → Conversion ℕ → Option ℕ
float_result cast size (number bits consumed) = if consumed == size then some (cast bits) else none
float_result cast size invalid_argument = none
float_result cast size out_of_range = none

-- ParseValue for a floating point type
unfoldable pub parse_float : (Text → Conversion ℕ) → (ℕ → ℕ) → Text → Option ℕ
unfolding float_result
parse_float stold cast input = float_result cast (length input) (stold input)

-- `detail::ParseValue(token, parsed)` for each type, `none` if it returns false.
unfoldable pub parse_value : ValueType → Text → Option Any
parse_value flag s = elim (parse_flag s) [ none ↦ none | some b ↦ some (bool_value b) ]
parse_value character s = elim (parse_char s) [ none ↦ none | some c ↦ some (char_value c) ]
parse_value text s = some (text_value s)
parse_value (signed t w) s = elim (number_conversion w s) [
  | none ↦ none
  | some v ↦ some (int_value t v)
]
parse_value (unsigned t w) s = elim (unsigned_number_conversion w s) [
  | none ↦ none
  | some v ↦ some (unsigned_value t v)
]
parse_value (enumeration t by_name by_value w) s = elim (parse_enum by_name by_value w s) [
  | none ↦ none
  | some e ↦ some (enum_value t e)
]
parse_value (floating t stold cast) s = elim (parse_float stold cast s) [
  | none ↦ none
  | some bits ↦ some (float_value t bits)
]
