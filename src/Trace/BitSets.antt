-- ===== src/Trace/BitSets.antt =====
-- The bits of the optional fields in packages/trace/src/runtime/session.ts and wire/decoder.ts.
use sapi_game.Base.{
  ℕ, zero, suc, ◌+◌, ◌-◌, ◌*◌, ◌/◌, ◌%◌, ◌^◌, ◌<◌, bit_and, bit_or, ◌≡◌, refl, sym, ap, ◌∙◌, ◌≢◌,
  ◌⊎◌, inl, inr, true, false, not, List, [], ◌∷◌, arith, ltb, ◌==◌, ==_iff, Bool-cases, length,
  replicate,
}
use sapi_game.Base.Bits.{bit_and_step, bit_or_step, bit_or-zero, bit_and-zero}
use sapi_game.Trace.Decoder.{bit_set}
use sapi_game.Trace.Session.{set_bit}
use native.Mathlib.Nat.{pow-suc}

twice : (k : ℕ) → 2 ^ suc k ≡ 2 * 2 ^ k
twice k = omega (arith, pow-suc 2 k)

and_first : (c : ℕ) → bit_and c (2 ^ 0) ≡ c % 2
and_first c =
    let step = bit_and_step c 1 in
    let none_left = bit_and-zero (c / 2) in omega (arith, step, none_left)

and_next : (c j : ℕ) → bit_and c (2 ^ suc j) ≡ 2 * bit_and (c / 2) (2 ^ j)
and_next c j =
    let half : (2 * 2 ^ j) / 2 ≡ 2 ^ j = omega arith in
    let even : (2 * 2 ^ j) % 2 ≡ 0 = omega arith in
    rw (twice j, bit_and_step c (2 * 2 ^ j), half, even) (omega arith)

or_first : (b : ℕ) → bit_or b (2 ^ 0) ≡ 1 + 2 * (b / 2)
or_first b =
    let step = bit_or_step b 1 in let same = bit_or-zero (b / 2) in omega (arith, step, same)

or_next : (b i : ℕ) → bit_or b (2 ^ suc i) ≡ b % 2 + 2 * bit_or (b / 2) (2 ^ i)
or_next b i =
    let half : (2 * 2 ^ i) / 2 ≡ 2 ^ i = omega arith in
    let even : (2 * 2 ^ i) % 2 ≡ 0 = omega arith in
    rw (twice i, bit_or_step b (2 * 2 ^ i), half, even) (omega arith)

and-or_same : (i b : ℕ) → bit_and (bit_or b (2 ^ i)) (2 ^ i) ≡ 2 ^ i
and-or_same zero b = omega (arith, and_first (bit_or b (2 ^ 0)), or_first b)
and-or_same (suc i) b =
    let half : (b % 2 + 2 * bit_or (b / 2) (2 ^ i)) / 2 ≡ bit_or (b / 2) (2 ^ i) = omega arith in
    rw (and_next, or_next, half, and-or_same i (b / 2)) (sym (twice i))

and-or_other : (i j b : ℕ) → i ≢ j → bit_and (bit_or b (2 ^ i)) (2 ^ j) ≡ bit_and b (2 ^ j)
and-or_other zero zero b differ = absurd (differ refl)
and-or_other zero (suc j) b differ =
    let half : (1 + 2 * (b / 2)) / 2 ≡ b / 2 = omega arith in
    rw (or_first, and_next, half, and_next) refl
and-or_other (suc i) zero b differ =
    omega (arith, and_first (bit_or b (2 ^ suc i)), and_first b, or_next b i)
and-or_other (suc i) (suc j) b differ =
    let half : (b % 2 + 2 * bit_or (b / 2) (2 ^ i)) / 2 ≡ bit_or (b / 2) (2 ^ i) = omega arith in
    rw (or_next, and_next, half, and-or_other i j (b / 2) (λ e. differ (ap suc e)), and_next) refl

pow_pos : (k : ℕ) → 0 < 2 ^ k
pow_pos zero = omega arith
pow_pos (suc k) = omega (arith, twice k, pow_pos k)

-- A bit of the bytes after the first.
later_bit : (b k : ℕ) (bytes : List ℕ) → bit_set (b ∷ bytes) (8 + k) ≡ bit_set bytes k
unfolding bit_set
later_bit b k bytes =
    let high : (8 + k) / 8 ≡ suc (k / 8) = omega arith in
    let low : (8 + k) % 8 ≡ k % 8 = omega arith in rw (high, low) refl

first_bit :
    (b k : ℕ) (bytes : List ℕ) → k < 8 → bit_set (b ∷ bytes) k ≡ not (bit_and b (2 ^ k) == 0)
unfolding bit_set
first_bit b k bytes small =
    let high : k / 8 ≡ 0 = omega arith in let low : k % 8 ≡ k = omega arith in rw (high, low) refl

and_nothing : (k : ℕ) → bit_and 0 (2 ^ k) ≡ 0
and_nothing zero = and_first 0
and_nothing (suc k) = rw (and_next 0 k, and_nothing k) refl

-- A number is below 8 or 8 and more.
from_8 : (j : ℕ) → (ltb j 8 ≡ true × j < 8) ⊎ (ltb j 8 ≡ false × (j ≡ 8 + (j - 8)))
from_8 j = elim (Bool-cases (ltb j 8)) [
  | inl low ↦ inl (low, ground (arith, low))
  | inr high ↦ inr (high, ground (arith, high))
]

pub bit_set-none : (n j : ℕ) → bit_set (replicate n 0) j ≡ false
bit_set-none zero j = unfold bit_set in rw (and_nothing (j % 8)) refl
bit_set-none (suc n) j = elim (from_8 j) [
  | inl (low, small) ↦ rw (first_bit 0 j (replicate n 0) small, and_nothing j) refl
  | inr (high, split) ↦
      ap (bit_set (0 ∷ replicate n 0)) split
      ∙ (later_bit 0 (j - 8) (replicate n 0) ∙ bit_set-none n (j - 8))
]

set_low :
    (i b : ℕ) (bytes : List ℕ) → ltb i 8 ≡ true → set_bit i (b ∷ bytes) ≡ bit_or b (2 ^ i) ∷ bytes
set_low i b bytes low = rw low refl

set_high :
    (i b : ℕ) (bytes : List ℕ) → ltb i 8 ≡ false → set_bit i (b ∷ bytes) ≡ b ∷ set_bit (i - 8) bytes
set_high i b bytes high = rw high refl

pub set_bit-same :
    (i : ℕ) (bytes : List ℕ) → i < 8 * length bytes → bit_set (set_bit i bytes) i ≡ true
set_bit-same i [] h = absurd (omega arith)
set_bit-same i (b ∷ bytes) h = elim (from_8 i) [
  | inl (low, small) ↦
      let some_bit : (2 ^ i == 0) ≡ false = ground (arith, pow_pos i, ==_iff (2 ^ i) 0) in
      ap (λ z. bit_set z i) (set_low i b bytes low)
      ∙ (first_bit (bit_or b (2 ^ i)) i bytes small ∙ rw (and-or_same i b, some_bit) refl)
  | inr (high, split) ↦
      ap (λ z. bit_set z i) (set_high i b bytes high)
      ∙ (ap (bit_set (b ∷ set_bit (i - 8) bytes)) split
          ∙ (later_bit b (i - 8) (set_bit (i - 8) bytes)
              ∙ set_bit-same (i - 8) bytes (omega (arith, split))))
]

pub set_bit-other :
    (i j : ℕ) (bytes : List ℕ) → i ≢ j → bit_set (set_bit i bytes) j ≡ bit_set bytes j
set_bit-other i j [] differ = refl
set_bit-other i j (b ∷ bytes) differ = elim (from_8 i) [
  | inl (low, small) ↦ ap (λ z. bit_set z j) (set_low i b bytes low) ∙ elim (from_8 j) [
    | inl (low', small') ↦
        first_bit (bit_or b (2 ^ i)) j bytes small'
        ∙ (ap (λ z. not (z == 0)) (and-or_other i j b differ) ∙ sym (first_bit b j bytes small'))
    | inr (high', split') ↦
        ap (bit_set (bit_or b (2 ^ i) ∷ bytes)) split'
        ∙ (later_bit (bit_or b (2 ^ i)) (j - 8) bytes
            ∙ (sym (later_bit b (j - 8) bytes) ∙ ap (bit_set (b ∷ bytes)) (sym split')))
  ]
  | inr (high, split) ↦ ap (λ z. bit_set z j) (set_high i b bytes high) ∙ elim (from_8 j) [
    | inl (low', small') ↦
        first_bit b j (set_bit (i - 8) bytes) small' ∙ sym (first_bit b j bytes small')
    | inr (high', split') ↦
        ap (bit_set (b ∷ set_bit (i - 8) bytes)) split'
        ∙ (later_bit b (j - 8) (set_bit (i - 8) bytes)
            ∙ (set_bit-other (i - 8) (j - 8) bytes (λ e. differ (omega (arith, split, split', e)))
                ∙ (sym (later_bit b (j - 8) bytes) ∙ ap (bit_set (b ∷ bytes)) (sym split'))))
  ]
]
