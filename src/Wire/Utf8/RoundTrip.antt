-- ===== src/Wire/Utf8/RoundTrip.antt =====
-- `decodeUtf8` reads back what `encodeUtf8` wrote, and the lengths agree.
use sapi_game.Base.{
  ℕ, zero, suc, ◌+◌, ◌-◌, ◌*◌, ◌/◌, ◌%◌, ◌^◌, ◌≤◌, ◌<◌, ◌≡◌, refl, arith, bit_and, List, [], ◌∷◌,
  ◌++◌, length, length-append, All, true, Bool-cases, inl, inr, ◌∙◌, append-nil,
}
use native.Mathlib.Decide.{dec_lt}
use sapi_game.Base.Bits.{bit_and_mask, bit_and_shift, bit_or_shift}
use sapi_game.Wire.Result.{Result, ok, ◌>>=◌}
use sapi_game.Wire.Utf8.{
  IsUnit, is_pair, encode_unit, encode_point, pair_point, encode_utf8, unit_width, utf8_byte_length,
  continuation, surrogates, decode_round, decode_rounds, decode_utf8,
}

mask_3f : (c : ℕ) → bit_and c 0x3f ≡ c % 64
mask_3f c = bit_and_mask 6 c

top_two : (c : ℕ) → bit_and c 0xc0 ≡ c / 64 % 4 * 64
top_two c = omega (arith, bit_and_shift 6 c 3, bit_and_mask 2 (c / 64))

top_three : (c : ℕ) → bit_and c 0xe0 ≡ c / 32 % 8 * 32
top_three c = omega (arith, bit_and_shift 5 c 7, bit_and_mask 3 (c / 32))

top_four : (c : ℕ) → bit_and c 0xf0 ≡ c / 16 % 16 * 16
top_four c = omega (arith, bit_and_shift 4 c 15, bit_and_mask 4 (c / 16))

top_five : (c : ℕ) → bit_and c 0xf8 ≡ c / 8 % 32 * 8
top_five c = omega (arith, bit_and_shift 3 c 31, bit_and_mask 5 (c / 8))

top_six : (c : ℕ) → bit_and c 0xfc00 ≡ c / 1024 % 64 * 1024
top_six c = omega (arith, bit_and_shift 10 c 63, bit_and_mask 6 (c / 1024))

continuation_byte :
    (x : ℕ) (bytes : List ℕ) → x < 64 → continuation ((0x80 + x) ∷ bytes) ≡ ok (x, bytes)
unfolding continuation
continuation_byte x bytes h = ground (arith, top_two (0x80 + x), mask_3f (0x80 + x))

decode_round_two :
    (a b : ℕ) (bytes : List ℕ)
    → a < 32
    → b < 64
    → decode_round (0xc0 + a) ((0x80 + b) ∷ bytes) ≡ ok ((a * 64 + b) ∷ [], bytes)
unfolding decode_round
decode_round_two a b bytes ha hb = ground (
  arith,
  top_three (0xc0 + a),
  bit_and_mask 5 (0xc0 + a),
  bit_or_shift 6 a b,
  continuation_byte b bytes,
)

decode_round_three :
    (a b c : ℕ) (bytes : List ℕ)
    → a < 16
    → b < 64
    → c < 64
    → decode_round (0xe0 + a) ((0x80 + b) ∷ (0x80 + c) ∷ bytes)
      ≡ ok ((a * 4096 + b * 64 + c) ∷ [], bytes)
unfolding decode_round
decode_round_three a b c bytes ha hb hc = ground (
  arith,
  top_three (0xe0 + a),
  top_four (0xe0 + a),
  bit_and_mask 4 (0xe0 + a),
  bit_or_shift 12 a (b * 64),
  bit_or_shift 6 (a * 64 + b) c,
  continuation_byte b ((0x80 + c) ∷ bytes),
  continuation_byte c bytes,
)

decode_round_four :
    (a b c d : ℕ) (bytes : List ℕ)
    → a < 8
    → b < 64
    → c < 64
    → d < 64
    → a * 262144 + b * 4096 + c * 64 + d ≤ 0x10_ffff
    → decode_round (0xf0 + a) ((0x80 + b) ∷ (0x80 + c) ∷ (0x80 + d) ∷ bytes)
      ≡ ok (surrogates (a * 262144 + b * 4096 + c * 64 + d), bytes)
unfolding decode_round
decode_round_four a b c d bytes ha hb hc hd small = ground (
  arith,
  top_three (0xf0 + a),
  top_four (0xf0 + a),
  top_five (0xf0 + a),
  bit_and_mask 3 (0xf0 + a),
  bit_or_shift 18 a (b * 4096),
  bit_or_shift 12 (a * 64 + b) (c * 64),
  bit_or_shift 6 (a * 4096 + b * 64 + c) d,
  continuation_byte b ((0x80 + c) ∷ (0x80 + d) ∷ bytes),
  continuation_byte c ((0x80 + d) ∷ bytes),
  continuation_byte d bytes,
)

-- What the loop does with the units of one round.
abbrev prepend : List ℕ → Result (List ℕ) → Result (List ℕ)
prepend units r = r >>= λ value. ok (units ++ value)

decode_rounds_step :
    (fuel first : ℕ) (bytes units left : List ℕ)
    → decode_round first bytes ≡ ok (units, left)
    → decode_rounds (suc fuel) (first ∷ bytes) ≡ prepend units (decode_rounds fuel left)
unfolding decode_rounds
decode_rounds_step fuel first bytes units left h = rw h

encode_unit_one : (code : ℕ) → code < 0x80 → encode_unit code ≡ code ∷ []
unfolding encode_unit
encode_unit_one code h = ground arith

encode_unit_two :
    (code : ℕ)
    → 0x80 ≤ code
    → code < 0x800
    → encode_unit code ≡ (0xc0 + code / 64) ∷ (0x80 + code % 64) ∷ []
unfolding encode_unit
encode_unit_two code h k =
    ground (arith, bit_or_shift 6 3 (code / 64), bit_or_shift 6 2 (code % 64), mask_3f code)

encode_unit_three :
    (code : ℕ)
    → 0x800 ≤ code
    → IsUnit code
    → encode_unit code ≡ (0xe0 + code / 4096) ∷ (0x80 + code / 64 % 64) ∷ (0x80 + code % 64) ∷ []
unfolding encode_unit
encode_unit_three code h k = ground (
  arith,
  bit_or_shift 5 7 (code / 4096),
  bit_or_shift 6 2 (code / 64 % 64),
  bit_or_shift 6 2 (code % 64),
  mask_3f code,
  mask_3f (code / 64),
)

decode_rounds_one :
    (fuel code : ℕ) (rest : List ℕ)
    → code < 0x80
    → decode_rounds (suc fuel) (encode_unit code ++ rest)
      ≡ prepend (code ∷ []) (decode_rounds fuel rest)
decode_rounds_one fuel code rest h =
    rw (encode_unit_one code h)
      (decode_rounds_step fuel code rest (code ∷ []) rest (unfold decode_round in ground arith))

decode_rounds_two :
    (fuel code : ℕ) (rest : List ℕ)
    → 0x80 ≤ code
    → code < 0x800
    → decode_rounds (suc fuel) (encode_unit code ++ rest)
      ≡ prepend (code ∷ []) (decode_rounds fuel rest)
decode_rounds_two fuel code rest h k =
    let sum : code / 64 * 64 + code % 64 ≡ code = omega arith in
    let round = decode_round_two (code / 64) (code % 64) rest (omega arith) (omega arith) in
    rw (encode_unit_two code h k) (decode_rounds_step fuel _ _ _ rest (rw sum at round))

decode_rounds_three :
    (fuel code : ℕ) (rest : List ℕ)
    → 0x800 ≤ code
    → IsUnit code
    → decode_rounds (suc fuel) (encode_unit code ++ rest)
      ≡ prepend (code ∷ []) (decode_rounds fuel rest)
decode_rounds_three fuel code rest h k =
    let sum : code / 4096 * 4096 + code / 64 % 64 * 64 + code % 64 ≡ code = omega arith in
    let round =
      decode_round_three (code / 4096) (code / 64 % 64) (code % 64) rest (omega arith) (omega arith)
        (omega arith) in
    rw (encode_unit_three code h k) (decode_rounds_step fuel _ _ _ rest (rw sum at round))

decode_rounds-encode_unit :
    (fuel code : ℕ) (rest : List ℕ)
    → IsUnit code
    → decode_rounds (suc fuel) (encode_unit code ++ rest)
      ≡ prepend (code ∷ []) (decode_rounds fuel rest)
decode_rounds-encode_unit fuel code rest h = elim (dec_lt code 0x80) [
  | yes one ↦ decode_rounds_one fuel code rest one
  | no more ↦ elim (dec_lt code 0x800) [
    | yes two ↦ decode_rounds_two fuel code rest (omega arith) two
    | no three ↦ decode_rounds_three fuel code rest (omega arith) h
  ]
]

-- A surrogate pair, in plain arithmetic.
pair_range :
    (code next : ℕ)
    → IsUnit next
    → is_pair code next ≡ true
    → (0xd800 ≤ code) × (code < 0xdc00) × (0xdc00 ≤ next) × (next < 0xe000)
unfolding is_pair
pair_range code next h p = ground (arith, top_six next)

pair_point_eq :
    (code next : ℕ)
    → IsUnit next
    → is_pair code next ≡ true
    → pair_point code next + 0xd800 * 1024 + 0xdc00 ≡ 0x1_0000 + code * 1024 + next
unfolding pair_point
pair_point_eq code next h p =
    omega (arith, pair_range code next h p, bit_and_mask 10 code, bit_and_mask 10 next)

surrogates-pair_point :
    (code next : ℕ)
    → IsUnit next
    → is_pair code next ≡ true
    → surrogates (pair_point code next) ≡ code ∷ next ∷ []
unfolding surrogates
surrogates-pair_point code next h p =
    let point = pair_point code next in
    ground (
      arith,
      pair_range code next h p,
      pair_point_eq code next h p,
      bit_or_shift 11 27 ((point - 0x1_0000) / 2 ^ 10),
      bit_or_shift 10 55 (next - 0xdc00),
      bit_and_mask 10 (point + 2 ^ 32 - 0x1_0000),
    )

point_bounds :
    (code next : ℕ)
    → IsUnit next
    → is_pair code next ≡ true
    → (0x1_0000 ≤ pair_point code next) × (pair_point code next ≤ 0x10_ffff)
point_bounds code next h p = omega (arith, pair_range code next h p, pair_point_eq code next h p)

encode_point_four :
    (point : ℕ)
    → point ≤ 0x10_ffff
    → encode_point point
      ≡ (0xf0 + point / 262144)
        ∷ (0x80 + point / 4096 % 64)
        ∷ (0x80 + point / 64 % 64)
        ∷ (0x80 + point % 64)
        ∷ []
unfolding encode_point
encode_point_four point h = ground (
  arith,
  bit_or_shift 4 15 (point / 262144),
  bit_or_shift 6 2 (point / 4096 % 64),
  bit_or_shift 6 2 (point / 64 % 64),
  bit_or_shift 6 2 (point % 64),
  mask_3f (point / 4096),
  mask_3f (point / 64),
  mask_3f point,
)

decode_rounds-encode_point :
    (fuel point : ℕ) (rest : List ℕ)
    → point ≤ 0x10_ffff
    → decode_rounds (suc fuel) (encode_point point ++ rest)
      ≡ prepend (surrogates point) (decode_rounds fuel rest)
decode_rounds-encode_point fuel point rest h =
    let sum : point / 262144 * 262144 + point / 4096 % 64 * 4096 + point / 64 % 64 * 64 + point % 64
        ≡ point =
      omega arith in
    let round =
      decode_round_four (point / 262144) (point / 4096 % 64) (point / 64 % 64) (point % 64) rest
        (omega arith) (omega arith) (omega arith) (omega arith) (omega arith) in
    rw (encode_point_four point h) (decode_rounds_step fuel _ _ _ rest (rw sum at round))

decode_rounds_nil : (fuel : ℕ) → decode_rounds fuel [] ≡ ok []
unfolding decode_rounds
decode_rounds_nil zero = refl
decode_rounds_nil (suc fuel) = refl

decode_rounds-encode_utf8 :
    (fuel : ℕ) (value : List ℕ)
    → All IsUnit value
    → length value ≤ fuel
    → decode_rounds fuel (encode_utf8 value) ≡ ok value
unfolding encode_utf8
decode_rounds-encode_utf8 fuel [] h enough = decode_rounds_nil fuel
decode_rounds-encode_utf8 zero (code ∷ []) h enough = absurd (omega arith)
decode_rounds-encode_utf8 zero (code ∷ next ∷ value) h enough = absurd (omega arith)
decode_rounds-encode_utf8 (suc fuel) (code ∷ []) h enough =
    rw (← append-nil (encode_unit code))
      (decode_rounds-encode_unit fuel code [] h.0 ∙ rw (decode_rounds_nil fuel))
decode_rounds-encode_utf8 (suc fuel) (code ∷ next ∷ value) h enough =
    elim (Bool-cases (is_pair code next)) [
      | inl pair ↦ rw pair (
          decode_rounds-encode_point fuel (pair_point code next) _
            (point_bounds code next h.1.0 pair).1
          ∙ rw (
            surrogates-pair_point code next h.1.0 pair,
            decode_rounds-encode_utf8 fuel value h.1.1 (omega arith),
          ))
      | inr unit ↦ rw unit (
          decode_rounds-encode_unit fuel code _ h.0
          ∙ rw (decode_rounds-encode_utf8 fuel (next ∷ value) h.1 (omega arith)))
    ]

length-encode_unit : (code : ℕ) → length (encode_unit code) ≡ unit_width code
unfolding encode_unit unit_width
length-encode_unit code = ground arith

-- utf8_byte_length is the number of bytes that encode_utf8 writes, for every list of numbers.
pub utf8_byte_length-encode_utf8 :
    (value : List ℕ) → utf8_byte_length value ≡ length (encode_utf8 value)
unfolding utf8_byte_length encode_utf8 encode_point
utf8_byte_length-encode_utf8 [] = refl
utf8_byte_length-encode_utf8 (code ∷ []) = omega (arith, length-encode_unit code)
utf8_byte_length-encode_utf8 (code ∷ next ∷ value) = ground (
  arith,
  utf8_byte_length-encode_utf8 value,
  utf8_byte_length-encode_utf8 (next ∷ value),
  length-encode_unit code,
  length-append (encode_unit code) (encode_utf8 (next ∷ value)),
)

pub length-le-encode_utf8 : (value : List ℕ) → length value ≤ length (encode_utf8 value)
unfolding encode_utf8 encode_point unit_width
length-le-encode_utf8 [] = omega arith
length-le-encode_utf8 (code ∷ []) = ground (arith, length-encode_unit code)
length-le-encode_utf8 (code ∷ next ∷ value) = ground (
  arith,
  length-le-encode_utf8 value,
  length-le-encode_utf8 (next ∷ value),
  length-encode_unit code,
  length-append (encode_unit code) (encode_utf8 (next ∷ value)),
)

-- decode_utf8 returns a string from its encoding, surrogates with no partner included, for every
-- list of 16-bit code units.
pub decode-encode_utf8 :
    (value : List ℕ) → All IsUnit value → decode_utf8 (encode_utf8 value) ≡ ok value
unfolding decode_utf8
decode-encode_utf8 value h = decode_rounds-encode_utf8 _ value h (length-le-encode_utf8 value)
