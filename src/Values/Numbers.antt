-- ===== src/Values/Numbers.antt =====
-- `std::stoll` and `std::stoull` in base 10, as the C standard has them: leading white space, an
-- optional sign, then the longest run of digits.
use asap_clap.Base.{
  ℕ, ◌+◌, ◌-◌, ◌*◌, ◌%◌, Bool, true, false, ◌&&◌, ◌||◌, [], ◌∷◌, Text, ◌==◌, ltb, leb,
  if◌then◌else◌, ℤ, pos, neg_ℕ,
}

-- The value and the number of characters consumed, or the exception thrown.
pub data Conversion (A : Type 0) : Type 0 where
  number : A → ℕ → Conversion A
  invalid_argument out_of_range : Conversion A

abbrev pub is_space : ℕ → Bool
is_space c = c == b' ' || leb 9 c && leb c 13

abbrev pub is_digit : ℕ → Bool
is_digit c = leb b'0' c && leb c b'9'

-- Digits from the left: the value, and how many characters were read so far.
unfoldable pub digits : ℕ → ℕ → Text → ℕ × ℕ
digits value count [] = (value, count)
digits value count (c ∷ cs) =
    if is_digit c then digits (value * 10 + (c - b'0')) (count + 1) cs else (value, count)

-- A sign flag, the magnitude and the count, from the first character that must be a digit.
unsigned_part : Bool → ℕ → Text → Conversion (Bool × ℕ)
unsigned_part negative count [] = invalid_argument
unsigned_part negative count (c ∷ cs) =
    let (value, total) = digits 0 count (c ∷ cs) in
    if is_digit c then number (negative, value) total else invalid_argument

signed_part : ℕ → Text → Conversion (Bool × ℕ)
unfolding unsigned_part
signed_part count [] = invalid_argument
signed_part count (c ∷ cs) =
    if c == b'-'
    then unsigned_part true (count + 1) cs
    else if c == b'+'
    then unsigned_part false (count + 1) cs
    else unsigned_part false count (c ∷ cs)

unfoldable pub scan : ℕ → Text → Conversion (Bool × ℕ)
unfolding signed_part digits
scan count [] = invalid_argument
scan count (c ∷ cs) =
    let rest = scan (count + 1) cs in if is_space c then rest else signed_part count (c ∷ cs)

-- 2 ^ 63 and 2 ^ 64
abbrev pub two_63 : ℕ
two_63 = 0x8000000000000000

abbrev pub two_64 : ℕ
two_64 = 0x10000000000000000

unfoldable pub to_ll : Conversion (Bool × ℕ) → Conversion ℤ
to_ll (number (true, n) count) = if leb n two_63 then number (neg_ℕ n) count else out_of_range
to_ll (number (false, n) count) = if ltb n two_63 then number (pos n) count else out_of_range
to_ll invalid_argument = invalid_argument
to_ll out_of_range = out_of_range

-- `std::stoll(input, &consumed)`
unfoldable pub stoll : Text → Conversion ℤ
unfolding scan to_ll
stoll input = to_ll (scan 0 input)

-- A minus sign negates modulo 2 ^ 64.
unfoldable pub to_ull : Conversion (Bool × ℕ) → Conversion ℕ
to_ull (number (negative, n) count) =
    if ltb n two_64
    then number (if negative then (two_64 - n) % two_64 else n) count
    else out_of_range
to_ull invalid_argument = invalid_argument
to_ull out_of_range = out_of_range

-- `std::stoull(input, &consumed)`
unfoldable pub stoull : Text → Conversion ℕ
unfolding scan to_ull
stoull input = to_ull (scan 0 input)
