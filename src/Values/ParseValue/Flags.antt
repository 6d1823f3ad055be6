-- ===== src/Values/ParseValue/Flags.antt =====
-- clap/include/clap/detail/parse_value.h: Boolean values.
use asap_clap.Base.{ℕ, [], ◌∷◌, ◌≡◌, refl, arith, Text, ℤ}
use asap_clap.Values.Numbers.{Conversion, number, invalid_argument, out_of_range}
use asap_clap.Values.ParseValue.{
  lower_char, to_lower, flag_result, string_to_flag_value, parse_flag, starts_with_minus,
}

lower_char_idem : (c : ℕ) → lower_char (lower_char c) ≡ lower_char c
unfolding lower_char
lower_char_idem c = ground arith

to_lower_idem : (s : Text) → to_lower (to_lower s) ≡ to_lower s
unfolding to_lower
to_lower_idem [] = refl
to_lower_idem (c ∷ s) = cc (lower_char_idem c, to_lower_idem s)

starts_with_minus-to_lower : (s : Text) → starts_with_minus (to_lower s) ≡ starts_with_minus s
unfolding to_lower
starts_with_minus-to_lower [] = refl
starts_with_minus-to_lower (c ∷ s) = ground arith

string_to_flag_value-to_lower :
    (s : Text) → string_to_flag_value (to_lower s) ≡ string_to_flag_value s
unfolding string_to_flag_value
string_to_flag_value-to_lower s = rw to_lower_idem

flag_result-to_lower : (s : Text) (c : Conversion ℤ) → flag_result (to_lower s) c ≡ flag_result s c
unfolding flag_result
flag_result-to_lower s (number v n) = refl
flag_result-to_lower s invalid_argument = refl
flag_result-to_lower s out_of_range = rw starts_with_minus-to_lower

-- A Boolean value is read in the same way whatever the case of its letters.
pub parse_flag-to_lower : (s : Text) → parse_flag (to_lower s) ≡ parse_flag s
unfolding parse_flag
parse_flag-to_lower s = rw string_to_flag_value-to_lower (flag_result-to_lower s _)
