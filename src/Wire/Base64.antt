-- ===== src/Wire/Base64.antt =====
-- packages/trace/src/wire/base64.ts. A string is the list of its UTF-16 code units.
pub mod RoundTrip
pub mod Strict
use sapi_game.Base.{
  ℕ, zero, suc, ◌+◌, ◌-◌, ◌*◌, ◌/◌, ◌%◌, ◌^◌, ◌≤◌, ◌<◌, bit_and, bit_or, List, [], ◌∷◌, ◌++◌, ltb,
  leb, ◌==◌, if◌then◌else◌, length, take, Bool, true, false, not, ◌&&◌, ◌||◌, Option, none, some,
  get_elem?,
}
use sapi_game.Wire.Result.{Result, ok, err, ◌>>=◌, base64_length, base64_padding, base64_character}

-- "=".
abbrev pub pad : ℕ
pad = 61

-- `BASE64_ALPHABET[sextet]`: A to Z, a to z, 0 to 9, +, /.
unfoldable pub alphabet : ℕ → ℕ
alphabet sextet =
    if ltb sextet 26
    then 65 + sextet
    else if ltb sextet 52
    then 71 + sextet
    else if ltb sextet 62
    then sextet - 4
    else if sextet == 62
    then 43
    else 47

-- `decodeTable[code]`, with `none` for -1.
unfoldable pub decode_table : ℕ → Option ℕ
decode_table code =
    if leb 65 code && leb code 90
    then some (code - 65)
    else if leb 97 code && leb code 122
    then some (code - 71)
    else if leb 48 code && leb code 57
    then some (code + 4)
    else if code == 43
    then some 62
    else if code == 47
    then some 63
    else none

-- The four characters of a round of `encodeBase64`; `has_b` and `has_c` say which bytes are there.
unfoldable pub encode_round : ℕ → ℕ → ℕ → Bool → Bool → List ℕ
encode_round a b c has_b has_c =
    let value = bit_or (bit_or (a * 2 ^ 16) (b * 2 ^ 8)) c in
    alphabet (bit_and (value / 2 ^ 18) 63)
    ∷ alphabet (bit_and (value / 2 ^ 12) 63)
    ∷ (if has_b then alphabet (bit_and (value / 2 ^ 6) 63) else pad)
    ∷ (if has_c then alphabet (bit_and value 63) else pad)
    ∷ []

unfoldable pub encode_base64 : List ℕ → List ℕ
encode_base64 [] = []
encode_base64 (a ∷ []) = encode_round a 0 0 false false
encode_base64 (a ∷ b ∷ []) = encode_round a b 0 true false
encode_base64 (a ∷ b ∷ c ∷ bytes) = encode_round a b c true true ++ encode_base64 bytes

unfoldable pub decode_char : ℕ → Result ℕ
decode_char code = elim (decode_table code) [ none ↦ err base64_character | some n ↦ ok n ]

-- `text[i] === BASE64_PAD ? 0 : decodeChar(text, i)`
unfoldable pub decode_or_pad : ℕ → Result ℕ
decode_or_pad code = if code == pad then ok 0 else decode_char code

-- A round of `decodeBase64`: the three bytes of four characters, before `output` cuts them.
unfoldable pub decode_quad : Bool → ℕ → ℕ → ℕ → ℕ → Result (List ℕ)
decode_quad is_last t0 t1 t2 t3 = do
  c0 ← decode_char t0
  c1 ← decode_char t1
  c2 ← decode_or_pad t2
  c3 ← decode_or_pad t3
  let bits = bit_or (bit_or (bit_or (c0 * 2 ^ 18) (c1 * 2 ^ 12)) (c2 * 2 ^ 6)) c3
  if not is_last && (t2 == pad || t3 == pad)
      then err base64_padding
      else if t2 == pad && not (t3 == pad)
      then err base64_padding
      else ok (bit_and (bits / 2 ^ 16) 0xff ∷ bit_and (bits / 2 ^ 8) 0xff ∷ bit_and bits 0xff ∷ [])

abbrev is_empty : List ℕ → Bool
is_empty [] = true
is_empty (_ ∷ _) = false

-- The loop of `decodeBase64`. The length is a multiple of four, so fewer than four characters
-- are none.
unfoldable pub decode_quads : List ℕ → Result (List ℕ)
decode_quads (t0 ∷ t1 ∷ t2 ∷ t3 ∷ text) = do
  bytes ← decode_quad (is_empty text) t0 t1 t2 t3
  more ← decode_quads text
  ok (bytes ++ more)
decode_quads text = ok []

-- `text.endsWith("==")` and `text.endsWith("=")`.
unfoldable pub padding : List ℕ → ℕ
padding [] = 0
padding (t ∷ []) = if t == pad then 1 else 0
padding (t ∷ u ∷ []) = if t == pad && u == pad then 2 else if u == pad then 1 else 0
padding (t ∷ u ∷ v ∷ text) = padding (u ∷ v ∷ text)

-- The white space of `\s` in a regular expression of ECMAScript.
unfoldable pub is_space : ℕ → Bool
is_space c =
    (leb 9 c && leb c 13)
    || c == 32
    || c == 0xa0
    || c == 0x1680
    || (leb 0x2000 c && leb c 0x200a)
    || c == 0x2028
    || c == 0x2029
    || c == 0x202f
    || c == 0x205f
    || c == 0x3000
    || c == 0xfeff

-- `value.replace(/\s+/g, "")`
unfoldable pub strip : List ℕ → List ℕ
strip [] = []
strip (c ∷ value) = let rest = strip value in if is_space c then rest else c ∷ rest

-- The `output` array keeps the first `text.length / 4 * 3 - padding` bytes.
unfoldable pub decode_base64 : List ℕ → Result (List ℕ)
decode_base64 value =
    let text = strip value in
    if length text == 0
    then ok []
    else if not (length text % 4 == 0)
    then err base64_length
    else (do bytes ← decode_quads text; ok (take (length text / 4 * 3 - padding text) bytes))
