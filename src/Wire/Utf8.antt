-- ===== src/Wire/Utf8.antt =====
-- UTF-8 in packages/trace/src/wire/binary.ts: `encodeUtf8`, `utf8ByteLength`, `truncateUtf8` and
-- `decodeUtf8`. A string is the list of its UTF-16 code units.
pub mod RoundTrip
pub mod Truncate
use sapi_game.Base.{
  ℕ, zero, suc, ◌+◌, ◌-◌, ◌*◌, ◌/◌, ◌%◌, ◌^◌, ◌≤◌, ◌<◌, bit_and, bit_or, List, [], ◌∷◌, ◌++◌, ltb,
  leb, ◌==◌, if◌then◌else◌, length, take, Bool, ◌&&◌,
}
use sapi_game.Wire.Result.{
  Result, ok, err, ◌>>=◌, string_end, bad_continuation, bad_code_point, bad_leading_byte, stuck,
}

abbrev pub IsUnit : ℕ → Type 0
IsUnit code = code < 0x1_0000

-- A high surrogate with a low one behind it.
unfoldable pub is_pair : ℕ → ℕ → Bool
is_pair code next = leb 0xd800 code && leb code 0xdbff && bit_and next 0xfc00 == 0xdc00

-- A code unit that is not the first of a pair.
unfoldable pub encode_unit : ℕ → List ℕ
encode_unit code =
    if ltb code 0x80
    then code ∷ []
    else if ltb code 0x800
    then bit_or 0xc0 (code / 2 ^ 6) ∷ bit_or 0x80 (bit_and code 0x3f) ∷ []
    else bit_or 0xe0 (code / 2 ^ 12)
      ∷ bit_or 0x80 (bit_and (code / 2 ^ 6) 0x3f)
      ∷ bit_or 0x80 (bit_and code 0x3f)
      ∷ []

unfoldable pub encode_point : ℕ → List ℕ
encode_point code =
    bit_or 0xf0 (code / 2 ^ 18)
    ∷ bit_or 0x80 (bit_and (code / 2 ^ 12) 0x3f)
    ∷ bit_or 0x80 (bit_and (code / 2 ^ 6) 0x3f)
    ∷ bit_or 0x80 (bit_and code 0x3f)
    ∷ []

-- The code point of a pair.
unfoldable pub pair_point : ℕ → ℕ → ℕ
pair_point code next = 0x1_0000 + bit_and code 0x3ff * 2 ^ 10 + bit_and next 0x3ff

unfoldable pub encode_utf8 : List ℕ → List ℕ
encode_utf8 [] = []
encode_utf8 (code ∷ []) = encode_unit code
encode_utf8 (code ∷ next ∷ value) =
    let after_pair = encode_utf8 value in
    let after_unit = encode_utf8 (next ∷ value) in
    if is_pair code next
    then encode_point (pair_point code next) ++ after_pair
    else encode_unit code ++ after_unit

-- The bytes of a code unit that is not the first of a pair.
unfoldable pub unit_width : ℕ → ℕ
unit_width code = if ltb code 0x80 then 1 else if ltb code 0x800 then 2 else 3

unfoldable pub utf8_byte_length : List ℕ → ℕ
utf8_byte_length [] = 0
utf8_byte_length (code ∷ []) = unit_width code
utf8_byte_length (code ∷ next ∷ value) =
    let after_pair = utf8_byte_length value in
    let after_unit = utf8_byte_length (next ∷ value) in
    if is_pair code next then 4 + after_pair else unit_width code + after_unit

-- The loop of `truncateUtf8`: the number of code units that it keeps, from `index` on.
unfoldable pub kept_units : ℕ → ℕ → List ℕ → ℕ
kept_units max_bytes bytes [] = 0
kept_units max_bytes bytes (code ∷ []) = if ltb max_bytes (bytes + unit_width code) then 0 else 1
kept_units max_bytes bytes (code ∷ next ∷ value) =
    let after_pair = kept_units max_bytes (bytes + 4) value in
    let after_unit = kept_units max_bytes (bytes + unit_width code) (next ∷ value) in
    if is_pair code next
    then (if ltb max_bytes (bytes + 4) then 0 else 2 + after_pair)
    else if ltb max_bytes (bytes + unit_width code)
    then 0
    else 1 + after_unit

-- A negative `maxBytes` behaves as 0.
unfoldable pub truncate_utf8 : List ℕ → ℕ → List ℕ
truncate_utf8 value max_bytes =
    if leb max_bytes 0 then [] else take (kept_units max_bytes 0 value) value

unfoldable pub continuation : List ℕ → Result (ℕ × List ℕ)
continuation [] = err string_end
continuation (byte ∷ bytes) =
    if bit_and byte 0xc0 == 0x80 then ok (bit_and byte 0x3f, bytes) else err bad_continuation

-- The code units of a four-byte form. `surrogate` is negative where `code` is below 0x10000; its
-- sixteen low bits are those of the unsigned difference.
unfoldable pub surrogates : ℕ → List ℕ
surrogates code =
    let surrogate = code + 2 ^ 32 - 0x1_0000 in
    let shifted =
      if ltb code 0x1_0000 then 2 ^ 32 - 64 + code / 2 ^ 10 else (code - 0x1_0000) / 2 ^ 10 in
    bit_or 0xd800 shifted % 0x1_0000 ∷ bit_or 0xdc00 (bit_and surrogate 0x3ff) ∷ []

-- One round of the loop of `decodeUtf8`: the code units pushed, and the bytes left.
unfoldable pub decode_round : ℕ → List ℕ → Result (List ℕ × List ℕ)
decode_round first bytes =
    if ltb first 0x80
    then ok (first ∷ [], bytes)
    else if bit_and first 0xe0 == 0xc0
    then (do
      (a, bytes) ← continuation bytes
      ok (bit_or (bit_and first 0x1f * 2 ^ 6) a ∷ [], bytes))
    else if bit_and first 0xf0 == 0xe0
    then (do
      (a, bytes) ← continuation bytes
      (b, bytes) ← continuation bytes
      ok (bit_or (bit_or (bit_and first 0x0f * 2 ^ 12) (a * 2 ^ 6)) b ∷ [], bytes))
    else if bit_and first 0xf8 == 0xf0
    then (do
      (a, bytes) ← continuation bytes
      (b, bytes) ← continuation bytes
      (c, bytes) ← continuation bytes
      let high = bit_or (bit_and first 0x07 * 2 ^ 18) (a * 2 ^ 12)
      let code = bit_or (bit_or high (b * 2 ^ 6)) c
      if ltb 0x10_ffff code then err bad_code_point else ok (surrogates code, bytes))
    else err bad_leading_byte

-- Every round takes a byte at least.
unfoldable pub decode_rounds : ℕ → List ℕ → Result (List ℕ)
decode_rounds fuel [] = ok []
decode_rounds zero (first ∷ bytes) = err stuck
decode_rounds (suc fuel) (first ∷ bytes) = do
  (units, left) ← decode_round first bytes
  value ← decode_rounds fuel left
  ok (units ++ value)

unfoldable pub decode_utf8 : List ℕ → Result (List ℕ)
decode_utf8 bytes = decode_rounds (length bytes) bytes
