-- ===== src/Wire/Varint.antt =====
-- The integers of `BinaryWriter` and `BinaryReader` (packages/trace/src/wire/binary.ts).
-- A reader is the list of the bytes that it has not read yet. A `number` that the code checks by
-- `Number.isSafeInteger` is an integer here; sums above 2 ^ 53 - 1 lose bits in the source but
-- stay above it, and only the comparison reads them.
pub mod RoundTrip
pub mod Shape
use sapi_game.Base.{
  ℕ, zero, suc, ◌+◌, ◌-◌, ◌*◌, ◌/◌, ◌%◌, ◌^◌, ◌≤◌, ◌<◌, bit_and, bit_or, List, [], ◌∷◌, ◌++◌, ltb,
  leb, ◌==◌, if◌then◌else◌, length, take, drop,
}
use sapi_game.Base.Int.{ℤ, pos, negsuc}
use sapi_game.Wire.Result.{
  Result, ok, err, ◌>>=◌, not_safe_uint, not_safe_int, unexpected_end, varuint_overflow,
  varuint_too_long, stuck,
}

-- Number.MAX_SAFE_INTEGER
abbrev pub max_safe : ℕ
max_safe = 9_007_199_254_740_991

abbrev pub IsByte : ℕ → Type 0
IsByte b = b < 256

unfoldable pub write_byte : ℕ → Result (List ℕ)
write_byte value = ok (bit_and value 0xff ∷ [])

-- The loop of `writeVarUint`; eight rounds are enough for a safe integer.
unfoldable pub write_groups : ℕ → ℕ → Result (List ℕ)
write_groups zero remaining = err stuck
write_groups (suc fuel) remaining =
    let rest = write_groups fuel (remaining / 0x80) in
    if leb 0x80 remaining
    then (do
      group ← write_byte (bit_or (remaining % 0x80) 0x80)
      groups ← rest
      ok (group ++ groups))
    else write_byte remaining

unfoldable pub write_var_uint : ℕ → Result (List ℕ)
write_var_uint value = if ltb max_safe value then err not_safe_uint else write_groups 8 value

abbrev pub magnitude : ℤ → ℕ
magnitude (pos n) = n
magnitude (negsuc n) = suc n

-- `value >= 0 ? value * 2 : -value * 2 - 1`
abbrev pub zigzag : ℤ → ℕ
zigzag (pos n) = n * 2
zigzag (negsuc n) = suc n * 2 - 1

unfoldable pub write_var_int : ℤ → Result (List ℕ)
write_var_int value =
    if ltb max_safe (magnitude value) then err not_safe_int else write_var_uint (zigzag value)

unfoldable pub read_byte : List ℕ → Result (ℕ × List ℕ)
read_byte [] = err unexpected_end
read_byte (byte ∷ rest) = ok (byte, rest)

unfoldable pub read_bytes : ℕ → List ℕ → Result (List ℕ × List ℕ)
read_bytes n reader =
    if ltb (length reader) n then err unexpected_end else ok (take n reader, drop n reader)

-- The loop of `readVarUint`, with the rounds that are left.
unfoldable pub read_groups : ℕ → ℕ → ℕ → List ℕ → Result (ℕ × List ℕ)
read_groups zero result multiplier reader = err varuint_too_long
read_groups (suc rounds) result multiplier reader = do
  (byte, reader) ← read_byte reader
  let sum = result + bit_and byte 0x7f * multiplier
  let more = read_groups rounds sum (multiplier * 0x80) reader
  if bit_and byte 0x80 == 0
      then (if ltb max_safe sum then err varuint_overflow else ok (sum, reader))
      else more

unfoldable pub read_var_uint : List ℕ → Result (ℕ × List ℕ)
read_var_uint reader = read_groups 8 0 1 reader

-- `encoded % 2 === 0 ? encoded / 2 : -(encoded + 1) / 2`
abbrev pub unzigzag : ℕ → ℤ
unzigzag encoded = if encoded % 2 == 0 then pos (encoded / 2) else negsuc ((encoded + 1) / 2 - 1)

unfoldable pub read_var_int : List ℕ → Result (ℤ × List ℕ)
read_var_int reader = do (encoded, reader) ← read_var_uint reader; ok (unzigzag encoded, reader)
