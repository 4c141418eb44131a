-- ===== src/Base/Bits.antt =====
-- `&` and `|` at variables: masks are remainders, shifted masks are shifted remainders, and an
-- `|` of parts that share no bit is a sum.
use Prim.Native.Nat.{
  ℕ, zero, suc, ◌+◌, ◌-◌, ◌*◌, ◌/◌, ◌%◌, ◌^◌, ◌≤◌, ◌<◌, min, max, bit_and, bit_or, digits,
  bit_and-bitwise, bit_or-bitwise,
}
use mathlib.Core.Path.{◌≡◌, refl, sym, ap, ◌∙◌}
use native.Mathlib.Omega.{arith}
use native.Mathlib.Nat.{pow-suc, div-add-mod, div-div-eq-div-mul}

-- To prove of every number what follows from its half.
up_to : (P : ℕ → Type 0) → P 0 → ((x : ℕ) → P (suc x / 2) → P (suc x)) → (top x : ℕ) → x ≤ top → P x
up_to P base next top zero within = base
up_to P base next zero (suc x) within = absurd (omega arith)
up_to P base next (suc top) (suc x) within =
    next x (up_to P base next top (suc x / 2) (omega arith))

by_half : (P : ℕ → Type 0) → P 0 → ((x : ℕ) → P (suc x / 2) → P (suc x)) → (x : ℕ) → P x
by_half P base next x = up_to P base next x x (omega arith)

-- An operation on binary digits needs no more rounds than its first operand.
module _ (rest : ℕ → ℕ) (digit : ℕ → ℕ → ℕ) where
  abbrev AnyRounds : ℕ → Type 0
  AnyRounds x =
      (y some_rounds rounds : ℕ)
      → x ≤ some_rounds
      → x ≤ rounds
      → digits rest digit some_rounds x y ≡ digits rest digit rounds x y

  no_round : (y rounds : ℕ) → digits rest digit rounds 0 y ≡ rest y
  no_round y zero = refl
  no_round y (suc rounds) = refl

  one_round : (x : ℕ) → AnyRounds (suc x / 2) → AnyRounds (suc x)
  one_round x half y (suc r) (suc s) p q =
      let halves = half (y / 2) r s (omega arith) (omega arith) in omega (arith, halves)
  one_round x half y zero s p q = absurd (omega arith)
  one_round x half y (suc r) zero p q = absurd (omega arith)

  enough_rounds : (x : ℕ) → AnyRounds x
  enough_rounds = by_half AnyRounds (λ y r s p q. no_round y r ∙ sym (no_round y s)) one_round

bit_and_nothing : (y : ℕ) → bit_and 0 y ≡ 0
bit_and_nothing y = bit_and-bitwise 0 y

bit_or_nothing : (y : ℕ) → bit_or 0 y ≡ y
bit_or_nothing y = bit_or-bitwise 0 y

-- The lowest digits apart.
pub bit_and_step : (x y : ℕ) → bit_and x y ≡ min (x % 2) (y % 2) + 2 * bit_and (x / 2) (y / 2)
bit_and_step zero y = omega (arith, bit_and_nothing y, bit_and_nothing (y / 2))
bit_and_step (suc x) y =
    let half = suc x / 2 in
    let rounds = enough_rounds (λ b. zero) min half (y / 2) x half (omega arith) (omega arith) in
    omega (arith, rounds, bit_and-bitwise half (y / 2), bit_and-bitwise (suc x) y)

pub bit_or_step : (x y : ℕ) → bit_or x y ≡ max (x % 2) (y % 2) + 2 * bit_or (x / 2) (y / 2)
bit_or_step zero y = omega (arith, bit_or_nothing y, bit_or_nothing (y / 2))
bit_or_step (suc x) y =
    let half = suc x / 2 in
    let rounds = enough_rounds (λ b. b) max half (y / 2) x half (omega arith) (omega arith) in
    omega (arith, rounds, bit_or-bitwise half (y / 2), bit_or-bitwise (suc x) y)

pub bit_or-zero : (x : ℕ) → bit_or x 0 ≡ x
bit_or-zero =
    by_half (λ x. bit_or x 0 ≡ x) refl (λ x half. omega (arith, half, bit_or_step (suc x) 0))

pub bit_and-zero : (x : ℕ) → bit_and x 0 ≡ 0
bit_and-zero =
    by_half (λ x. bit_and x 0 ≡ 0) refl (λ x half. omega (arith, half, bit_and_step (suc x) 0))

-- 2 ^ (k + 1) as the sum that `omega` reads.
double : (k : ℕ) → 2 ^ suc k ≡ 2 * 2 ^ k
double k = omega (arith, pow-suc 2 k)

or_even : (p x y : ℕ) → bit_or (x * (2 * p)) y ≡ bit_or (x * p) (y / 2) * 2 + y % 2
or_even p x y =
    let e : x * (2 * p) / 2 ≡ x * p = omega arith in
    bit_or_step (x * (2 * p)) y ∙ rw e (omega arith)

-- `(x << k) | y` is a sum, for `y` of `k` bits.
pub bit_or_shift : (k x y : ℕ) → y < 2 ^ k → bit_or (x * 2 ^ k) y ≡ x * 2 ^ k + y
bit_or_shift zero x y h = let e : y ≡ 0 = omega arith in rw (e, bit_or-zero) (omega arith)
bit_or_shift (suc k) x y h =
    let g : y / 2 < 2 ^ k = omega (arith, double k) in
    rw (double k) (rw (or_even (2 ^ k) x y, bit_or_shift k x (y / 2) g) (omega arith))

and_ones : (p a : ℕ) → bit_and a (2 * suc p - 1) ≡ bit_and (a / 2) (suc p - 1) * 2 + a % 2
and_ones p a =
    let e : (2 * suc p - 1) / 2 ≡ suc p - 1 = omega arith in
    bit_and_step a (2 * suc p - 1) ∙ rw e (omega arith)

pow_pos : (k : ℕ) → (p : ℕ) × (2 ^ k ≡ suc p)
pow_pos zero = (0, refl)
pow_pos (suc k) = let (p, e) = pow_pos k in (p + suc p, omega (arith, double k, e))

mod_double : (p a : ℕ) → a / 2 % suc p * 2 + a % 2 ≡ a % (2 * suc p)
mod_double p a =
    let q : a / (2 * suc p) ≡ a / 2 / suc p = sym (div-div-eq-div-mul a 2 (suc p)) in
    omega (
      arith,
      div-add-mod a (2 * suc p),
      div-add-mod (a / 2) (suc p),
      ap (λ (t : ℕ). 2 * suc p * t) q,
    )

-- `a & (2 ^ k - 1)` is a remainder.
pub bit_and_mask : (k a : ℕ) → bit_and a (2 ^ k - 1) ≡ a % 2 ^ k
bit_and_mask zero a = omega (arith, bit_and-zero a)
bit_and_mask (suc k) a =
    let (p, e) = pow_pos k in
    let ih : bit_and (a / 2) (suc p - 1) ≡ a / 2 % suc p = rw e at (bit_and_mask k (a / 2)) in
    rw (double k, e) (and_ones p a ∙ rw ih (mod_double p a))

and_even : (p a m : ℕ) → bit_and a (m * (2 * p)) ≡ bit_and (a / 2) (m * p) * 2
and_even p a m =
    let e : m * (2 * p) / 2 ≡ m * p = omega arith in
    bit_and_step a (m * (2 * p)) ∙ rw e (omega arith)

-- `a & (m << k)` masks the bits from `k` on.
pub bit_and_shift : (k a m : ℕ) → bit_and a (m * 2 ^ k) ≡ bit_and (a / 2 ^ k) m * 2 ^ k
bit_and_shift zero a m = let e : a / 2 ^ 0 ≡ a = omega arith in rw (e, one) (omega arith)
  where
    one : m * 2 ^ 0 ≡ m
    one = omega arith
bit_and_shift (suc k) a m =
    let d : a / (2 * 2 ^ k) ≡ a / 2 / 2 ^ k = sym (div-div-eq-div-mul a 2 (2 ^ k)) in
    rw (double k) (rw (d, and_even (2 ^ k) a m, bit_and_shift k (a / 2) m) (omega arith))

pub bit_or_comm : (x y : ℕ) → bit_or x y ≡ bit_or y x
bit_or_comm =
    by_half (λ x. (y : ℕ) → bit_or x y ≡ bit_or y x)
      (λ y. omega (arith, bit_or_nothing y, bit_or-zero y))
      (λ x half y. omega (arith, half (y / 2), bit_or_step (suc x) y, bit_or_step y (suc x)))
