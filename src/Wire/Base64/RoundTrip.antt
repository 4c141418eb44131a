-- ===== src/Wire/Base64/RoundTrip.antt =====
-- `decodeBase64` reads back what `encodeBase64` wrote.
use sapi_game.Base.{
  ℕ, suc, ◌+◌, ◌-◌, ◌*◌, ◌/◌, ◌%◌, ◌^◌, ◌<◌, bit_or, ◌≡◌, refl, Bool, true, false, List, [], ◌∷◌,
  ◌++◌, arith, ◌==◌, length, nil_of_length, take_all-append, All,
}
use sapi_game.Base.Bits.{bit_and_mask, bit_or_shift}
use sapi_game.Wire.Result.{ok}
use sapi_game.Wire.Varint.{IsByte}
use sapi_game.Wire.Base64.{
  pad, alphabet, decode_table, encode_round, decode_char, decode_or_pad, decode_quad, is_space,
}
use sapi_game.Wire.Base64.{decode_quads, padding, strip}
use sapi_game.Base.{length}
use sapi_game.Wire.Base64.{decode_base64, encode_base64, is_empty}

decode_char-alphabet : (s : ℕ) → s < 64 → decode_char (alphabet s) ≡ ok s
unfolding decode_char decode_table alphabet
decode_char-alphabet s h = ground arith

alphabet-ne-pad : (s : ℕ) → (alphabet s == pad) ≡ false
unfolding alphabet
alphabet-ne-pad s = ground arith

alphabet_not_space : (s : ℕ) → is_space (alphabet s) ≡ false
unfolding alphabet is_space
alphabet_not_space s = ground arith

decode_or_pad-alphabet : (s : ℕ) → s < 64 → decode_or_pad (alphabet s) ≡ ok s
unfolding decode_or_pad
decode_or_pad-alphabet s h = rw (alphabet-ne-pad s) (decode_char-alphabet s h)

-- The three bytes of 24 bits.
abbrev bytes_of : ℕ → List ℕ
bytes_of bits = bits / 65536 % 256 ∷ bits / 256 % 256 ∷ bits % 256 ∷ []

join_sextets :
    (p q r s : ℕ)
    → p < 64
    → q < 64
    → r < 64
    → s < 64
    → bit_or (bit_or (bit_or (p * 2 ^ 18) (q * 2 ^ 12)) (r * 2 ^ 6)) s
      ≡ p * 262144 + q * 4096 + r * 64 + s
join_sextets p q r s hp hq hr hs = ground (
  arith,
  bit_or_shift 18 p (q * 4096),
  bit_or_shift 12 (p * 64 + q) (r * 64),
  bit_or_shift 6 (p * 4096 + q * 64 + r) s,
)

decode_quad_full :
    (last : Bool) (p q r s : ℕ)
    → p < 64
    → q < 64
    → r < 64
    → s < 64
    → decode_quad last (alphabet p) (alphabet q) (alphabet r) (alphabet s)
      ≡ ok (bytes_of (p * 262144 + q * 4096 + r * 64 + s))
unfolding decode_quad
decode_quad_full last p q r s hp hq hr hs = ground (
  arith,
  decode_char-alphabet p hp,
  decode_char-alphabet q hq,
  decode_or_pad-alphabet r hr,
  decode_or_pad-alphabet s hs,
  alphabet-ne-pad r,
  alphabet-ne-pad s,
  join_sextets p q r s hp hq hr hs,
  bit_and_mask 8 ((p * 262144 + q * 4096 + r * 64 + s) / 65536),
  bit_and_mask 8 ((p * 262144 + q * 4096 + r * 64 + s) / 256),
  bit_and_mask 8 (p * 262144 + q * 4096 + r * 64 + s),
)

decode_quad_two :
    (p q r : ℕ)
    → p < 64
    → q < 64
    → r < 64
    → decode_quad true (alphabet p) (alphabet q) (alphabet r) pad
      ≡ ok (bytes_of (p * 262144 + q * 4096 + r * 64))
unfolding decode_quad decode_or_pad
decode_quad_two p q r hp hq hr = ground (
  arith,
  decode_char-alphabet p hp,
  decode_char-alphabet q hq,
  decode_char-alphabet r hr,
  alphabet-ne-pad r,
  join_sextets p q r 0 hp hq hr,
  bit_and_mask 8 ((p * 262144 + q * 4096 + r * 64) / 65536),
  bit_and_mask 8 ((p * 262144 + q * 4096 + r * 64) / 256),
  bit_and_mask 8 (p * 262144 + q * 4096 + r * 64),
)

decode_quad_one :
    (p q : ℕ)
    → p < 64
    → q < 64
    → decode_quad true (alphabet p) (alphabet q) pad pad ≡ ok (bytes_of (p * 262144 + q * 4096))
unfolding decode_quad decode_or_pad
decode_quad_one p q hp hq = ground (
  arith,
  decode_char-alphabet p hp,
  decode_char-alphabet q hq,
  join_sextets p q 0 0 hp hq,
  bit_and_mask 8 ((p * 262144 + q * 4096) / 65536),
  bit_and_mask 8 ((p * 262144 + q * 4096) / 256),
  bit_and_mask 8 (p * 262144 + q * 4096),
)

join_bytes :
    (a b c : ℕ)
    → IsByte a
    → IsByte b
    → IsByte c
    → bit_or (bit_or (a * 2 ^ 16) (b * 2 ^ 8)) c ≡ a * 65536 + b * 256 + c
join_bytes a b c ha hb hc =
    ground (arith, bit_or_shift 16 a (b * 256), bit_or_shift 8 (a * 256 + b) c)

-- The characters of a full round.
encode_round_full :
    (a b c : ℕ)
    → IsByte a
    → IsByte b
    → IsByte c
    → let v = a * 65536 + b * 256 + c in
      encode_round a b c true true
      ≡ alphabet (v / 262144)
        ∷ alphabet (v / 4096 % 64)
        ∷ alphabet (v / 64 % 64)
        ∷ alphabet (v % 64)
        ∷ []
unfolding encode_round
encode_round_full a b c ha hb hc =
    let v = a * 65536 + b * 256 + c in
    let top : v / 262144 % 64 ≡ v / 262144 = omega arith in
    rw (
      join_bytes a b c ha hb hc,
      bit_and_mask 6 (v / 262144),
      bit_and_mask 6 (v / 4096),
      bit_and_mask 6 (v / 64),
      bit_and_mask 6 v,
      top,
    )

encode_round_two :
    (a b : ℕ)
    → IsByte a
    → IsByte b
    → let v = a * 65536 + b * 256 in
      encode_round a b 0 true false
      ≡ alphabet (v / 262144) ∷ alphabet (v / 4096 % 64) ∷ alphabet (v / 64 % 64) ∷ pad ∷ []
unfolding encode_round
encode_round_two a b ha hb =
    let v = a * 65536 + b * 256 in
    let top : v / 262144 % 64 ≡ v / 262144 = omega arith in
    let join : bit_or (bit_or (a * 2 ^ 16) (b * 2 ^ 8)) 0 ≡ v =
      omega (arith, join_bytes a b 0 ha hb) in
    rw (join, bit_and_mask 6 (v / 262144), bit_and_mask 6 (v / 4096), bit_and_mask 6 (v / 64), top)

encode_round_one :
    (a : ℕ)
    → IsByte a
    → let v = a * 65536 in
      encode_round a 0 0 false false
      ≡ alphabet (v / 262144) ∷ alphabet (v / 4096 % 64) ∷ pad ∷ pad ∷ []
unfolding encode_round
encode_round_one a ha =
    let v = a * 65536 in
    let top : v / 262144 % 64 ≡ v / 262144 = omega arith in
    let join : bit_or (bit_or (a * 2 ^ 16) (0 * 2 ^ 8)) 0 ≡ v =
      omega (arith, join_bytes a 0 0 ha) in
    rw (join, bit_and_mask 6 (v / 262144), bit_and_mask 6 (v / 4096), top)

-- What decoding needs to know of a text that stands for `bytes`.
record Decodes (bytes text : List ℕ) : Type 0 where
  stripped : strip text ≡ text
  quads : ℕ
  size : length text ≡ 4 * quads
  pads : List ℕ
  decoded : decode_quads text ≡ ok (bytes ++ pads)
  padded : length bytes + padding text ≡ 3 * quads

Decodes-nil : Decodes [] []
unfolding strip decode_quads padding
Decodes-nil = record {
  stripped = refl;
  quads = 0;
  size = omega arith;
  pads = [];
  decoded = refl;
  padded = omega arith;
}

strip-pad : strip (pad ∷ []) ≡ pad ∷ []
unfolding strip is_space
strip-pad = refl

strip-pads : strip (pad ∷ pad ∷ []) ≡ pad ∷ pad ∷ []
unfolding strip is_space
strip-pads = refl

strip-alphabet : (s : ℕ) (text : List ℕ) → strip (alphabet s ∷ text) ≡ alphabet s ∷ strip text
unfolding strip
strip-alphabet s text = rw (alphabet_not_space s)

Decodes-one : (a : ℕ) → IsByte a → Decodes (a ∷ []) (encode_round a 0 0 false false)
Decodes-one a ha =
    let v = a * 65536 in
    let byte : v / 262144 * 262144 + v / 4096 % 64 * 4096 ≡ v = omega arith in
    let back : v / 65536 % 256 ≡ a = omega arith in
    let quad = decode_quad_one (v / 262144) (v / 4096 % 64) (omega arith) (omega arith) in
    rw (encode_round_one a ha) (record {
      stripped = rw (strip-alphabet, strip-alphabet, strip-pads);
      quads = 1;
      size = omega arith;
      pads = v / 256 % 256 ∷ v % 256 ∷ [];
      decoded = unfold decode_quads in rw (quad, byte, back);
      padded = unfold padding in ground arith;
    })

Decodes-two : (a b : ℕ) → IsByte a → IsByte b → Decodes (a ∷ b ∷ []) (encode_round a b 0 true false)
Decodes-two a b ha hb =
    let v = a * 65536 + b * 256 in
    let byte : v / 262144 * 262144 + v / 4096 % 64 * 4096 + v / 64 % 64 * 64 ≡ v = omega arith in
    let back : v / 65536 % 256 ≡ a = omega arith in
    let back' : v / 256 % 256 ≡ b = omega arith in
    let quad =
      decode_quad_two (v / 262144) (v / 4096 % 64) (v / 64 % 64) (omega arith) (omega arith)
        (omega arith) in
    rw (encode_round_two a b ha hb) (record {
      stripped = rw (strip-alphabet, strip-alphabet, strip-alphabet, strip-pad);
      quads = 1;
      size = omega arith;
      pads = v % 256 ∷ [];
      decoded = unfold decode_quads in rw (quad, byte, back, back');
      padded = unfold padding in ground (arith, alphabet-ne-pad (v / 64 % 64));
    })

padding_full :
    (p q r s : ℕ) (text : List ℕ)
    → padding (alphabet p ∷ alphabet q ∷ alphabet r ∷ alphabet s ∷ text) ≡ padding text
unfolding padding
padding_full p q r s [] = ground (arith, alphabet-ne-pad r, alphabet-ne-pad s)
padding_full p q r s (t ∷ []) = ground (arith, alphabet-ne-pad s)
padding_full p q r s (t ∷ u ∷ text) = refl

Decodes-three :
    (a b c : ℕ) (bytes text : List ℕ)
    → IsByte a
    → IsByte b
    → IsByte c
    → Decodes bytes text
    → Decodes (a ∷ b ∷ c ∷ bytes) (encode_round a b c true true ++ text)
Decodes-three a b c bytes text ha hb hc d =
    let v = a * 65536 + b * 256 + c in
    let byte : v / 262144 * 262144 + v / 4096 % 64 * 4096 + v / 64 % 64 * 64 + v % 64 ≡ v =
      omega arith in
    let back : v / 65536 % 256 ≡ a = omega arith in
    let back' : v / 256 % 256 ≡ b = omega arith in
    let back'' : v % 256 ≡ c = omega arith in
    let quad =
      decode_quad_full (is_empty text) (v / 262144) (v / 4096 % 64) (v / 64 % 64) (v % 64)
        (omega arith) (omega arith) (omega arith) (omega arith) in
    rw (encode_round_full a b c ha hb hc) (record {
      stripped = rw (strip-alphabet, strip-alphabet, strip-alphabet, strip-alphabet, d.stripped);
      quads = suc d.quads;
      size = omega (arith, d.size);
      pads = d.pads;
      decoded = unfold decode_quads in rw (quad, byte, back, back', back'', d.decoded);
      padded =
          omega (
            arith,
            d.padded,
            padding_full (v / 262144) (v / 4096 % 64) (v / 64 % 64) (v % 64) text,
          );
    })

encode-Decodes : (bytes : List ℕ) → All IsByte bytes → Decodes bytes (encode_base64 bytes)
unfolding encode_base64
encode-Decodes [] h = Decodes-nil
encode-Decodes (a ∷ []) h = Decodes-one a h.0
encode-Decodes (a ∷ b ∷ []) h = Decodes-two a b h.0 h.1.0
encode-Decodes (a ∷ b ∷ c ∷ bytes) h =
    Decodes-three a b c bytes (encode_base64 bytes) h.0 h.1.0 h.1.1.0 (encode-Decodes bytes h.1.1.1)

decode_of-Decodes : (bytes text : List ℕ) → Decodes bytes text → decode_base64 text ≡ ok bytes
unfolding decode_base64
decode_of-Decodes bytes text d =
    let size : length text / 4 * 3 - padding text ≡ length bytes =
      omega (arith, d.size, d.padded) in
    let short : length text ≡ 0 → bytes ≡ [] =
      λ e. nil_of_length bytes (omega (arith, d.size, d.padded)) in
    rw (d.stripped, size, d.decoded, take_all-append) (ground (arith, d.size, short))

-- decode_base64 returns the bytes from their encoding, for every list of bytes.
pub decode-encode_base64 :
    (bytes : List ℕ) → All IsByte bytes → decode_base64 (encode_base64 bytes) ≡ ok bytes
decode-encode_base64 bytes h = decode_of-Decodes bytes _ (encode-Decodes bytes h)
