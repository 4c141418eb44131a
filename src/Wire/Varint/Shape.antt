-- ===== src/Wire/Varint/Shape.antt =====
-- What `write_var_uint` writes, in plain arithmetic.
use sapi_game.Base.{
  ℕ, zero, suc, ◌+◌, ◌*◌, ◌/◌, ◌%◌, ◌^◌, ◌≤◌, ◌<◌, ◌≡◌, arith, bit_and, bit_or, List, [], ◌∷◌, ltb,
  if◌then◌else◌, length, All,
}
use sapi_game.Base.Bits.{bit_and_mask, bit_and_shift, bit_or_shift, bit_or_comm}
use sapi_game.Wire.Result.{ok}
use sapi_game.Wire.Varint.{max_safe, IsByte, write_byte, write_var_uint}
use sapi_game.Wire.Varint

-- The groups of seven bits, lowest first; every group but the last has its top bit set.
unfoldable pub groups : ℕ → ℕ → List ℕ
groups zero v = v ∷ []
groups (suc k) v =
    let rest = groups k (v / 128) in if ltb v 128 then v ∷ [] else (v % 128 + 128) ∷ rest

pub byte_mask : (v : ℕ) → bit_and v 0xff ≡ v % 256
byte_mask v = bit_and_mask 8 v

pub low_mask : (v : ℕ) → bit_and v 0x7f ≡ v % 128
low_mask v = bit_and_mask 7 v

-- The continuation bit of a byte.
pub top_mask : (v : ℕ) → bit_and v 0x80 ≡ v / 128 % 2 * 128
top_mask v = omega (arith, bit_and_shift 7 v 1, bit_and_mask 1 (v / 128))

pub set_top : (v : ℕ) → v < 128 → bit_or v 0x80 ≡ v + 128
set_top v h = omega (arith, bit_or_comm v 0x80, bit_or_shift 7 1 v h)

-- A writing loop with enough rounds writes the groups.
write_groups-groups : (k v : ℕ) → v < 128 ^ suc k → Varint.write_groups (suc k) v ≡ ok (groups k v)
unfolding Varint.write_groups groups write_byte
write_groups-groups zero v h = ground (arith, byte_mask v)
write_groups-groups (suc k) v h = ground (
  arith,
  byte_mask v,
  set_top (v % 128) (omega arith),
  byte_mask (bit_or (v % 128) 0x80),
  write_groups-groups k (v / 128) (omega arith),
)

pub write_var_uint-groups : (v : ℕ) → v ≤ max_safe → write_var_uint v ≡ ok (groups 7 v)
unfolding write_var_uint
write_var_uint-groups v h = ground (arith, write_groups-groups 7 v (omega arith))

pub groups-IsByte : (k v : ℕ) → v < 128 ^ suc k → All IsByte (groups k v)
unfolding groups
groups-IsByte zero v h = omega arith
groups-IsByte (suc k) v h = ground (arith, groups-IsByte k (v / 128) (omega arith))

pub length-groups : (k v : ℕ) → (1 ≤ length (groups k v)) × (length (groups k v) ≤ k + 1)
unfolding groups
length-groups zero v = omega arith
length-groups (suc k) v = ground (arith, length-groups k (v / 128))
