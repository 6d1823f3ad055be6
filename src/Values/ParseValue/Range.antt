-- ===== src/Values/ParseValue/Range.antt =====
-- clap/include/clap/detail/parse_value.h: the range of the integer parsers.
use asap_clap.Base.{
  ℕ, zero, suc, ◌+◌, ◌-◌, ◌^◌, ◌<◌, false, some, ◌≡◌, ◌↔◌, refl, sym, ◌∙◌, subst, arith, Text,
  length, ==_iff, ℤ, pos, negsuc, int_eq_iff, Bool-cases, inl, inr,
}
use native.Mathlib.Nat.{two-pow-succ, one-le-pow, mod-lt, mod-eq_of_lt}
use native.Mathlib.Numerals.{sub-one}
use asap_clap.Values.Numbers.{Conversion, number, invalid_argument, out_of_range, stoll, stoull}
use asap_clap.Values.ParseValue.{
  signed_result, unsigned_result, signed_cast, number_conversion, unsigned_number_conversion,
  starts_with_minus,
}

-- The range of a signed integer of `w` bits.
abbrev pub InRange : ℕ → ℤ → Type 0
InRange w (pos n) = n < 2 ^ (w - 1)
InRange w (negsuc n) = n < 2 ^ (w - 1)

pow_double : (w : ℕ) → 0 < w → 2 ^ w ≡ 2 ^ (w - 1) + 2 ^ (w - 1)
pow_double zero h = elim h [ ]
pow_double (suc w) h = rw sub-one (two-pow-succ w)

number-eq :
    {A : Type 0} (a b : A) (n m : ℕ)
    → ◌≡◌ {A = Conversion A} (number a n) (number b m)
    → (a ≡ b) × (n ≡ m)
number-eq a b n m e = ground arith

module _ (w : ℕ) (h : 0 < w) where
  pow_pos : 0 < 2 ^ w
  pow_pos = one-le-pow w 2 (omega arith)

  -- The cast to `w` bits keeps a value exactly when it is in range.
  signed_cast_iff : (v : ℤ) → (signed_cast w v ≡ v) ↔ InRange w v
  unfolding signed_cast
  signed_cast_iff (pos n) = (
    λ e. ground (arith, pow_double w h, pow_pos, mod-lt n pow_pos),
    λ l. ground (
      arith,
      pow_double w h,
      pow_pos,
      mod-eq_of_lt {n = n} {m = 2 ^ w} (omega (arith, pow_double w h)),
    ),
  )
  signed_cast_iff (negsuc n) = (
    λ e. ground (arith, pow_double w h, pow_pos, mod-lt n pow_pos),
    λ l. ground (
      arith,
      pow_double w h,
      pow_pos,
      mod-eq_of_lt {n = n} {m = 2 ^ w} (omega (arith, pow_double w h)),
    ),
  )

  accepted :
      (size : ℕ) (u : ℤ) (n : ℕ) (v : ℤ)
      → signed_result w size (number u n) ≡ some v
      → (◌≡◌ {A = Conversion ℤ} (number u n) (number v size))
        × (signed_cast w u ≡ u)
        × (signed_cast w u ≡ v)
  unfolding signed_result
  accepted size u n v e = ground (arith, int_eq_iff (signed_cast w u) u)

  signed_result_iff :
      (size : ℕ) (c : Conversion ℤ) (v : ℤ)
      → (signed_result w size c ≡ some v) ↔ ((c ≡ number v size) × InRange w v)
  unfolding signed_result
  signed_result_iff size (number u n) v = (
    λ e.
        let parts = accepted size u n v e in
        (parts.0, subst (InRange w) (sym parts.1 ∙ parts.2) ((signed_cast_iff u).0 parts.1)),
    λ r.
        let same = number-eq u v n size r.0 in
        let kept = (signed_cast_iff v).1 r.1 in
        rw (same.0, same.1, kept, (==_iff size size).1 refl, (int_eq_iff v v).1 refl),
  )
  signed_result_iff size invalid_argument v = ground arith
  signed_result_iff size out_of_range v = ground arith

  -- For a positive width, NumberConversion accepts an input exactly when `std::stoll` consumes all of
  -- it and the value is
  -- in the range of the target type, and it yields that value.
  pub number_conversion_iff :
      (input : Text) (v : ℤ)
      → (number_conversion w input ≡ some v)
        ↔ ((stoll input ≡ number v (length input)) × InRange w v)
  unfolding number_conversion
  number_conversion_iff input v = signed_result_iff (length input) (stoll input) v

  unsigned_result_iff :
      (size : ℕ) (c : Conversion ℕ) (v : ℕ)
      → (unsigned_result w size c ≡ some v) ↔ ((c ≡ number v size) × (v < 2 ^ w))
  unfolding unsigned_result
  unsigned_result_iff size (number u n) v = (
    λ e. ground (arith, pow_pos, mod-lt u pow_pos),
    λ r.
        let same = number-eq u v n size r.0 in
        rw (same.0, same.1, mod-eq_of_lt r.1, (==_iff size size).1 refl, (==_iff v v).1 refl),
  )
  unsigned_result_iff size invalid_argument v = ground arith
  unsigned_result_iff size out_of_range v = ground arith

  -- For a positive width w, UnsignedNumberConversion accepts an input exactly when it does not begin with a minus sign,
  -- `std::stoull` consumes all of it and the value is below 2 ^ w, and it yields that value.
  pub unsigned_number_conversion_iff :
      (input : Text) (v : ℕ)
      → (unsigned_number_conversion w input ≡ some v) ↔ (
          (starts_with_minus input ≡ false)
          × (stoull input ≡ number v (length input))
          × (v < 2 ^ w))
  unfolding unsigned_number_conversion
  unsigned_number_conversion_iff input v = elim (Bool-cases (starts_with_minus input)) [
    | inl minus ↦ rw minus (ground arith)
    | inr other ↦ rw other (
        let half = unsigned_result_iff (length input) (stoull input) v in
        (λ e. (refl, (half.0 e).0, (half.0 e).1), λ r. half.1 (r.1, r.2)))
  ]
