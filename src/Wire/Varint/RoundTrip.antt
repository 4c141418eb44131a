-- ===== src/Wire/Varint/RoundTrip.antt =====
-- Reading what was written, and what any successful reading returns.
use sapi_game.Base.{
  ℕ, zero, suc, ◌+◌, ◌*◌, ◌/◌, ◌%◌, ◌^◌, ◌≤◌, ◌<◌, ◌≡◌, arith, bit_and, List, [], ◌∷◌, ◌++◌, length,
  ap, ◌↔◌,
}
use sapi_game.Base.Int.{ℤ, pos, negsuc}
use sapi_game.Wire.Result.{ok, err, not_safe_uint}
use sapi_game.Wire.Varint.{
  max_safe, write_var_uint, read_var_uint, read_byte, read_groups, write_var_int, read_var_int,
  magnitude, zigzag, unzigzag,
}
use sapi_game.Wire.Varint.Shape.{groups, write_var_uint-groups, low_mask, top_mask}
use native.Mathlib.Nat.{div-add-mod}

-- The lowest group of `w` and the others, counted in units of `m`.
split_group : (w m : ℕ) → w % 128 * m + w / 128 * (m * 128) ≡ w * m
split_group w m = omega (arith, ap (λ (t : ℕ). t * m) (div-add-mod w 128))

read_groups-groups :
    (k w acc m : ℕ) (rest : List ℕ)
    → w < 128 ^ suc k
    → acc + w * m ≤ max_safe
    → read_groups (suc k) acc m (groups k w ++ rest) ≡ ok (acc + w * m, rest)
unfolding groups read_groups read_byte
read_groups-groups zero w acc m rest h fits = ground (arith, low_mask w, top_mask w)
read_groups-groups (suc k) w acc m rest h fits = ground (
  arith,
  low_mask w,
  top_mask w,
  low_mask (w % 128 + 128),
  top_mask (w % 128 + 128),
  split_group w m,
  read_groups-groups k (w / 128) (acc + w % 128 * m) (m * 128) rest (omega arith),
)

-- write_var_uint writes every safe integer, and read_var_uint returns it from the bytes written,
-- whatever follows them, and leaves what follows.
pub read-write_var_uint :
    (v : ℕ) (rest : List ℕ)
    → v ≤ max_safe
    → (bytes : List ℕ) × (write_var_uint v ≡ ok bytes)
      × (read_var_uint (bytes ++ rest) ≡ ok (v, rest))
unfolding read_var_uint
read-write_var_uint v rest h =
    (groups 7 v, write_var_uint-groups v h, ground (arith, read_groups-groups 7 v 0 1 rest))

read_groups_bound :
    (rounds acc m : ℕ) (reader : List ℕ) (v : ℕ) (rest : List ℕ)
    → read_groups rounds acc m reader ≡ ok (v, rest)
    → (v ≤ max_safe) × (length rest < length reader) × (length reader ≤ length rest + rounds)
unfolding read_groups read_byte
read_groups_bound zero acc m reader v rest h = cc
read_groups_bound (suc rounds) acc m [] v rest h = cc
read_groups_bound (suc rounds) acc m (b ∷ bs) v rest h =
    ground (arith, read_groups_bound rounds (acc + bit_and b 0x7f * m) (m * 0x80) bs v rest)

-- A value that read_var_uint returns, from any bytes, is a safe integer, and one to eight bytes were
-- taken for it.
pub read_var_uint_takes :
    (reader : List ℕ) (v : ℕ) (rest : List ℕ)
    → read_var_uint reader ≡ ok (v, rest)
    → (v ≤ max_safe) × (length rest < length reader) × (length reader ≤ length rest + 8)
unfolding read_var_uint
read_var_uint_takes reader v rest h = read_groups_bound 8 0 1 reader v rest h

unzigzag-zigzag : (z : ℤ) → unzigzag (zigzag z) ≡ z
unzigzag-zigzag (pos n) = ground arith
unzigzag-zigzag (negsuc n) = ground arith

magnitude-le-zigzag : (z : ℤ) → magnitude z ≤ zigzag z
magnitude-le-zigzag (pos n) = omega arith
magnitude-le-zigzag (negsuc n) = omega arith

-- write_var_int writes every integer whose zig-zag code is a safe integer, and read_var_int returns
-- it from the bytes written, whatever follows them, and leaves what follows.
pub read-write_var_int :
    (z : ℤ) (rest : List ℕ)
    → zigzag z ≤ max_safe
    → (bytes : List ℕ) × (write_var_int z ≡ ok bytes)
      × (read_var_int (bytes ++ rest) ≡ ok (z, rest))
unfolding write_var_int read_var_int
read-write_var_int z rest h =
    let (bytes, wrote, reads) = read-write_var_uint (zigzag z) rest h in
    (
      bytes,
      ground (arith, wrote, magnitude-le-zigzag z),
      rw reads (ap (λ x. ok (x, rest)) (unzigzag-zigzag z)),
    )

-- A safe integer whose zig-zag code is no safe integer.
pub write_var_int_refuses :
    (z : ℤ) → magnitude z ≤ max_safe → max_safe < zigzag z → write_var_int z ≡ err not_safe_uint
unfolding write_var_int write_var_uint
write_var_int_refuses z h k = ground arith

-- An integer of 53 bits in two's complement.
abbrev pub IsInt53 : ℤ → Type 0
IsInt53 (pos n) = n < 2 ^ 52
IsInt53 (negsuc n) = n < 2 ^ 52

zigzag-IsInt53 : (z : ℤ) → zigzag z ≤ max_safe ↔ IsInt53 z
zigzag-IsInt53 (pos n) = (λ h. omega (arith, h), λ h. omega (arith, h))
zigzag-IsInt53 (negsuc n) = (λ h. omega (arith, h), λ h. omega (arith, h))

-- write_var_int returns bytes exactly for the integers of 53 bits in two's complement, and throws on
-- every other, safe or not.
pub write_var_int_takes : (z : ℤ) → ((bytes : List ℕ) × (write_var_int z ≡ ok bytes)) ↔ IsInt53 z
unfolding write_var_int write_var_uint
write_var_int_takes z = (onward, back)
  where
    onward : (bytes : List ℕ) × (write_var_int z ≡ ok bytes) → IsInt53 z
    onward (bytes, h) = (zigzag-IsInt53 z).0 (ground (arith, h))

    back : IsInt53 z → (bytes : List ℕ) × (write_var_int z ≡ ok bytes)
    back small =
        let (bytes, wrote, _) = read-write_var_int z [] ((zigzag-IsInt53 z).1 small) in
        (bytes, wrote)
