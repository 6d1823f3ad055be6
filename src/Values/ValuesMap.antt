-- ===== src/Values/ValuesMap.antt =====
-- clap/include/clap/option_values_map.h: the values stored for each option, by its key. The
-- unordered map is an association list; the program never walks it.
use asap_clap.Base.{
  ℕ, ◌+◌, Bool, true, false, List, [], ◌∷◌, ◌++◌, Option, none, some, ◌≡◌, refl, ap, ◌∙◌,
  Bool-cases, inl, inr, arith, Text, text_eq, text_eq_iff, if◌then◌else◌, length, length-append,
  Outcome, done, fault, exception, codes,
}
use asap_clap.Values.{OptionValue}

abbrev pub OptionValuesMap : Type 0
OptionValuesMap = List (Text × List OptionValue)

-- `ovm_.find(option_name)`
unfoldable pub find : Text → OptionValuesMap → Option (List OptionValue)
find k [] = none
find k ((j, vs) ∷ m) = if text_eq j k then some vs else find k m

unfoldable pub store_value : Text → OptionValue → OptionValuesMap → OptionValuesMap
store_value k v [] = (k, v ∷ []) ∷ []
store_value k v ((j, vs) ∷ m) =
    if text_eq j k then (j, vs ++ v ∷ []) ∷ m else (j, vs) ∷ store_value k v m

-- `at` throws std::out_of_range on a missing key.
abbrev values_found : Option (List OptionValue) → Outcome (List OptionValue)
values_found none = fault (exception (codes "out_of_range"))
values_found (some vs) = done vs

unfoldable pub values_of : Text → OptionValuesMap → Outcome (List OptionValue)
unfolding find
values_of k m = values_found (find k m)

abbrev is_found : Option (List OptionValue) → Bool
is_found none = false
is_found (some _) = true

unfoldable pub has_option : Text → OptionValuesMap → Bool
unfolding find
has_option k m = is_found (find k m)

abbrev count_found : Option (List OptionValue) → ℕ
count_found none = 0
count_found (some vs) = length vs

unfoldable pub occurrences_of : Text → OptionValuesMap → ℕ
unfolding find
occurrences_of k m = count_found (find k m)

-- The values of a key with a new one behind them.
abbrev pub added : OptionValue → Option (List OptionValue) → List OptionValue
added v none = v ∷ []
added v (some vs) = vs ++ v ∷ []

-- A stored value comes behind the values of its key, and no other key is touched.
pub find-store_value :
    (j k : Text) (v : OptionValue) (m : OptionValuesMap)
    → find j (store_value k v m) ≡ (if text_eq k j then some (added v (find k m)) else find j m)
unfolding find store_value
find-store_value j k v [] = refl
find-store_value j k v ((i, vs) ∷ m) =
    ground (arith, text_eq_iff i k, text_eq_iff i j, text_eq_iff k j, find-store_value j k v m)

count-added :
    (v : OptionValue) (o : Option (List OptionValue)) → length (added v o) ≡ count_found o + 1
count-added v none = omega arith
count-added v (some vs) = length-append vs (v ∷ [])

pub occurrences_of-store_value :
    (j k : Text) (v : OptionValue) (m : OptionValuesMap)
    → occurrences_of j (store_value k v m)
      ≡ (if text_eq k j then occurrences_of j m + 1 else occurrences_of j m)
unfolding occurrences_of
occurrences_of-store_value j k v m = elim (Bool-cases (text_eq k j)) [
  | inl same ↦
      rw (find-store_value, same)
        (count-added v (find k m) ∙ ap (λ i. occurrences_of i m + 1) ((text_eq_iff k j).0 same))
  | inr other ↦ rw (find-store_value, other)
]

pub has_option-store_value :
    (j k : Text) (v : OptionValue) (m : OptionValuesMap)
    → has_option j (store_value k v m) ≡ (if text_eq k j then true else has_option j m)
unfolding has_option
has_option-store_value j k v m = elim (Bool-cases (text_eq k j)) [
  | inl same ↦ rw (find-store_value, same)
  | inr other ↦ rw (find-store_value, other)
]

-- A value that is stored loses no option.
pub has_option-stored :
    (j k : Text) (v : OptionValue) (m : OptionValuesMap)
    → has_option j m ≡ true
    → has_option j (store_value k v m) ≡ true
has_option-stored j k v m h = ground (arith, has_option-store_value j k v m)

count_not_found :
    (found : Option (List OptionValue)) → is_found found ≡ false → count_found found ≡ 0
count_not_found none h = refl
count_not_found (some vs) h = absurd cc

-- An option that is not there has no value.
pub occurrences_of-none :
    (k : Text) (m : OptionValuesMap) → has_option k m ≡ false → occurrences_of k m ≡ 0
unfolding has_option occurrences_of
occurrences_of-none k m h = count_not_found (find k m) h
