-- ===== src/Values/Typed.antt =====
-- clap/include/clap/option_value.h: `std::any_cast`, and the access to a value by its type.
use asap_clap.Base.{
  Bool, true, false, Option, none, some, arith, ◌≡◌, refl, Text, text_eq, text_eq_refl, codes,
  Outcome, done, fault, exception, if◌then◌else◌,
}
use asap_clap.Values.{
  Any, bool_value, int_value, unsigned_value, char_value, text_value, enum_value, float_value,
  OptionValue,
}
use asap_clap.Values.ParseValue.{
  ValueType, flag, character, text, signed, unsigned, enumeration, floating, parse_value,
  parse_flag, parse_char, number_conversion, unsigned_number_conversion, parse_enum, parse_float,
}

-- The type of what a `std::any` holds is `T`.
unfoldable pub holds : ValueType → Any → Bool
holds flag (bool_value b) = true
holds character (char_value c) = true
holds text (text_value s) = true
holds (signed t w) (int_value u v) = text_eq t u
holds (unsigned t w) (unsigned_value u v) = text_eq t u
holds (enumeration t by_name by_value w) (enum_value u e) = text_eq t u
holds (floating t stold cast) (float_value u bits) = text_eq t u
holds _ _ = false

-- `std::any_cast<T>` of a pointer: `none` is the null pointer.
unfoldable pub any_cast : ValueType → Any → Option Any
unfolding holds
any_cast t v = if holds t v then some v else none

-- OptionValue::GetAs<T>
abbrev cast_to : Option Any → Outcome Any
cast_to none = fault (exception (codes "bad any_cast"))
cast_to (some v) = done v

unfoldable pub get_as : ValueType → OptionValue → Outcome Any
unfolding any_cast
get_as t v = cast_to (any_cast t v.value)

-- A value that the parser of a type reads has that type.
read-holds :
    {A : Type 0} (t : ValueType) (f : A → Any) (o : Option A) (v : Any)
    → ((a : A) → holds t (f a) ≡ true)
    → elim o [ none ↦ none | some a ↦ some (f a) ] ≡ some v
    → holds t v ≡ true
read-holds t f none v h e = absurd cc
read-holds t f (some a) v h e = let same : f a ≡ v = ground arith in rw (← same) (h a)

pub parse_value-holds :
    (t : ValueType) (s : Text) (v : Any) → parse_value t s ≡ some v → holds t v ≡ true
unfolding parse_value holds
parse_value-holds flag s v e = read-holds flag bool_value (parse_flag s) v (λ a. refl) e
parse_value-holds character s v e = read-holds character char_value (parse_char s) v (λ a. refl) e
parse_value-holds text s v e = let same : text_value s ≡ v = ground arith in rw (← same) refl
parse_value-holds (signed t w) s v e =
    read-holds (signed t w) (int_value t) (number_conversion w s) v (λ a. text_eq_refl t) e
parse_value-holds (unsigned t w) s v e =
    read-holds (unsigned t w) (unsigned_value t) (unsigned_number_conversion w s) v
      (λ a. text_eq_refl t) e
parse_value-holds (enumeration t by_name by_value w) s v e =
    read-holds (enumeration t by_name by_value w) (enum_value t) (parse_enum by_name by_value w s) v
      (λ a. text_eq_refl t) e
parse_value-holds (floating t stold cast) s v e =
    read-holds (floating t stold cast) (float_value t) (parse_float stold cast s) v
      (λ a. text_eq_refl t) e

pub any_cast-holds : (t : ValueType) (v : Any) → holds t v ≡ true → any_cast t v ≡ some v
unfolding any_cast
any_cast-holds t v h = rw h refl

pub get_as-holds :
    (t : ValueType) (v : OptionValue) → holds t v.value ≡ true → get_as t v ≡ done v.value
unfolding get_as
get_as-holds t v h = rw (any_cast-holds t v.value h) refl
