-- ===== src/Wire/Utf8/Truncate.antt =====
-- `truncateUtf8` keeps the longest prefix that fits and splits no surrogate pair.
use sapi_game.Base.{
  sym, ◌∙◌, ℕ, zero, suc, ◌+◌, ◌≤◌, ◌<◌, ◌≡◌, refl, arith, List, [], ◌∷◌, length, take, Bool, true,
  false, Bool-cases, inl, inr, sym, ◌∙◌, ◌/◌,
}
use sapi_game.Base.Bits.{bit_and_mask, bit_and_shift}
use native.Mathlib.Decide.{dec_lt}
use sapi_game.Base.{lt→ltb, le→ltb}
use sapi_game.Wire.Utf8.{is_pair, unit_width, utf8_byte_length, kept_units, truncate_utf8}

-- Whether the cut behind `k` code units separates a pair.
unfoldable pub splits : ℕ → List ℕ → Bool
splits zero value = false
splits (suc k) [] = false
splits (suc zero) (code ∷ []) = false
splits (suc zero) (code ∷ next ∷ value) = is_pair code next
splits (suc (suc k)) (code ∷ value) = splits (suc k) value

-- A low surrogate is no high one.
no_overlap : (code next other : ℕ) → is_pair code next ≡ true → is_pair next other ≡ false
unfolding is_pair
no_overlap code next other h =
    ground (arith, bit_and_shift 10 next 63, bit_and_mask 6 (next / 1024))

width_pos : (code : ℕ) → 0 < unit_width code
unfolding unit_width
width_pos code = ground arith

-- The length of a prefix whose first unit stands alone.
length_unit :
    (n code next : ℕ) (value : List ℕ)
    → is_pair code next ≡ false
    → utf8_byte_length (code ∷ take n (next ∷ value))
      ≡ unit_width code + utf8_byte_length (take n (next ∷ value))
unfolding utf8_byte_length
length_unit zero code next value h = omega arith
length_unit (suc n) code next value h = rw h

length_pair :
    (n code next : ℕ) (value : List ℕ)
    → is_pair code next ≡ true
    → utf8_byte_length (code ∷ next ∷ take n value) ≡ 4 + utf8_byte_length (take n value)
unfolding utf8_byte_length
length_pair n code next value h = rw h

-- The four ways of one round, at least one unit from the end.
data Round (max bytes code next : ℕ) (value : List ℕ) (kept : ℕ) : Type 0 where
  pair_stops :
      is_pair code next ≡ true → max < bytes + 4 → kept ≡ 0 → Round max bytes code next value kept
  pair_fits :
      is_pair code next ≡ true
      → bytes + 4 ≤ max
      → kept ≡ suc (suc (kept_units max (bytes + 4) value))
      → Round max bytes code next value kept
  unit_stops :
      is_pair code next ≡ false
      → max < bytes + unit_width code
      → kept ≡ 0
      → Round max bytes code next value kept
  unit_fits :
      is_pair code next ≡ false
      → bytes + unit_width code ≤ max
      → kept ≡ suc (kept_units max (bytes + unit_width code) (next ∷ value))
      → Round max bytes code next value kept

round :
    (max bytes code next : ℕ) (value : List ℕ)
    → Round max bytes code next value (kept_units max bytes (code ∷ next ∷ value))
unfolding kept_units
round max bytes code next value = elim (Bool-cases (is_pair code next)) [
  | inl p ↦ elim (dec_lt max (bytes + 4)) [
    | yes h ↦ pair_stops p h (ground arith)
    | no h ↦ pair_fits p (omega arith) (ground arith)
  ]
  | inr p ↦ elim (dec_lt max (bytes + unit_width code)) [
    | yes h ↦ unit_stops p h (ground arith)
    | no h ↦ unit_fits p (omega arith) (ground arith)
  ]
]

kept_fits :
    (max bytes : ℕ) (value : List ℕ)
    → bytes ≤ max
    → bytes + utf8_byte_length (take (kept_units max bytes value) value) ≤ max
kept_fits max bytes [] h = unfold utf8_byte_length kept_units in omega arith
kept_fits max bytes (code ∷ []) h =
    unfold kept_units in
    elim (dec_lt max (bytes + unit_width code)) [
      | yes h' ↦
          rw (lt→ltb max (bytes + unit_width code) h') (unfold utf8_byte_length in omega arith)
      | no h' ↦
          rw (le→ltb max (bytes + unit_width code) (omega arith))
            (unfold utf8_byte_length in omega arith)
    ]
kept_fits max bytes (code ∷ next ∷ value) h = elim (round max bytes code next value) [
  | pair_stops p stop e ↦ rw e (unfold utf8_byte_length in omega arith)
  | pair_fits p fit e ↦ rw e (
      omega (
        arith,
        length_pair (kept_units max (bytes + 4) value) code next value p,
        kept_fits max (bytes + 4) value fit,
      ))
  | unit_stops p stop e ↦ rw e (unfold utf8_byte_length in omega arith)
  | unit_fits p fit e ↦ rw e (
      omega (
        arith,
        length_unit (kept_units max (bytes + unit_width code) (next ∷ value)) code next value p,
        kept_fits max (bytes + unit_width code) (next ∷ value) fit,
      ))
]

splits-pair :
    (n code next : ℕ) (value : List ℕ)
    → is_pair code next ≡ true
    → splits (suc (suc n)) (code ∷ next ∷ value) ≡ splits n value
unfolding splits
splits-pair zero code next [] p = refl
splits-pair zero code next (other ∷ value) p = no_overlap code next other p
splits-pair (suc n) code next value p = refl

splits-unit :
    (n code next : ℕ) (value : List ℕ)
    → is_pair code next ≡ false
    → splits (suc n) (code ∷ next ∷ value) ≡ splits n (next ∷ value)
unfolding splits
splits-unit zero code next value p = p
splits-unit (suc n) code next value p = refl

kept-splits : (max bytes : ℕ) (value : List ℕ) → splits (kept_units max bytes value) value ≡ false
kept-splits max bytes [] = unfold splits kept_units in refl
kept-splits max bytes (code ∷ []) = unfold splits kept_units in ground arith
kept-splits max bytes (code ∷ next ∷ value) = elim (round max bytes code next value) [
  | pair_stops p stop e ↦ rw e (unfold splits in refl)
  | pair_fits p fit e ↦ rw (e, splits-pair _ code next value p) (kept-splits max (bytes + 4) value)
  | unit_stops p stop e ↦ rw e (unfold splits in refl)
  | unit_fits p fit e ↦
      rw (e, splits-unit _ code next value p)
        (kept-splits max (bytes + unit_width code) (next ∷ value))
]

unit-le-length : (code : ℕ) (value : List ℕ) → unit_width code ≤ utf8_byte_length (code ∷ value)
unfolding utf8_byte_length unit_width
unit-le-length code [] = omega arith
unit-le-length code (next ∷ value) = ground arith

-- Every longer cut that splits no pair is too long.
kept_longest :
    (max bytes : ℕ) (value : List ℕ) (k : ℕ)
    → kept_units max bytes value < k
    → k ≤ length value
    → splits k value ≡ false
    → max < bytes + utf8_byte_length (take k value)
kept_longest max bytes value zero more within whole = absurd (omega arith)
kept_longest max bytes [] (suc k) more within whole = absurd (omega arith)
kept_longest max bytes (code ∷ []) (suc zero) more within whole =
    unfold kept_units utf8_byte_length in ground arith
kept_longest max bytes (code ∷ []) (suc (suc k)) more within whole = absurd (omega arith)
kept_longest max bytes (code ∷ next ∷ value) (suc zero) more within whole =
    elim (round max bytes code next value) [
      | pair_stops p stop e ↦ unfold splits in cc
      | pair_fits p fit e ↦ unfold splits in cc
      | unit_stops p stop e ↦ omega (arith, unit-le-length code [])
      | unit_fits p fit e ↦ absurd (omega arith)
    ]
kept_longest max bytes (code ∷ next ∷ value) (suc (suc k)) more within whole =
    elim (round max bytes code next value) [
      | pair_stops p stop e ↦ omega (arith, length_pair k code next value p)
      | pair_fits p fit e ↦
          let whole' : splits k value ≡ false = sym (splits-pair k code next value p) ∙ whole in
          omega (
            arith,
            length_pair k code next value p,
            kept_longest max (bytes + 4) value k (omega arith) (omega arith) whole',
          )
      | unit_stops p stop e ↦ omega (arith, unit-le-length code (take (suc k) (next ∷ value)))
      | unit_fits p fit e ↦
          let whole' : splits (suc k) (next ∷ value) ≡ false =
            sym (splits-unit (suc k) code next value p) ∙ whole in
          omega (
            arith,
            length_unit (suc k) code next value p,
            kept_longest max (bytes + unit_width code) (next ∷ value) (suc k) (omega arith)
                (omega arith) whole',
          )
    ]

-- What a cut at `max` bytes promises: it fits, separates no pair, and no longer one does both.
pub record IsLongestCut (max : ℕ) (value : List ℕ) (n : ℕ) : Type 0 where
  pub fits : utf8_byte_length (take n value) ≤ max
  pub whole : splits n value ≡ false
  pub longest :
      (k : ℕ)
      → n < k
      → k ≤ length value
      → splits k value ≡ false
      → max < utf8_byte_length (take k value)

kept_units-zero : (value : List ℕ) → kept_units 0 0 value ≡ 0
unfolding kept_units
kept_units-zero [] = refl
kept_units-zero (code ∷ []) = ground (arith, width_pos code)
kept_units-zero (code ∷ next ∷ value) = ground (arith, width_pos code)

pub truncate_utf8-take :
    (value : List ℕ) (max : ℕ) → truncate_utf8 value max ≡ take (kept_units max 0 value) value
unfolding truncate_utf8
truncate_utf8-take value zero = rw kept_units-zero
truncate_utf8-take value (suc max) = ground arith

kept-IsLongestCut : (value : List ℕ) (max : ℕ) → IsLongestCut max value (kept_units max 0 value)
kept-IsLongestCut value max = record {
  fits = omega (arith, kept_fits max 0 value (omega arith));
  whole = kept-splits max 0 value;
  longest = λ k more within whole. omega (arith, kept_longest max 0 value k more within whole);
}

-- truncate_utf8 returns a prefix of the string, and the longest one with two properties: its encoding
-- has at most max bytes, and it does not end between the halves of a surrogate pair.
pub truncate_utf8_longest :
    (value : List ℕ) (max : ℕ)
    → (n : ℕ) × (truncate_utf8 value max ≡ take n value) × IsLongestCut max value n
truncate_utf8_longest value max =
    (kept_units max 0 value, truncate_utf8-take value max, kept-IsLongestCut value max)
