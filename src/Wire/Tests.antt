-- ===== src/Wire/Tests.antt =====
-- The theorems on packages/trace/src/wire, each applied to a concrete input.
use sapi_game.Base.{
  ℕ, ◌+◌, ◌*◌, ◌/◌, ◌^◌, ◌≤◌, ◌<◌, ◌≡◌, refl, ◌↔◌, Bool, true, false, Option, none, some, List, [],
  ◌∷◌, ◌++◌, map, arith, length, take, replicate, All,
}
use sapi_game.Base.Int.{ℤ, pos, negsuc}
use sapi_game.Wire.Result.{Result, ok, err}
use sapi_game.Wire.Varint.{
  max_safe, write_var_uint, read_var_uint, write_var_int, read_var_int, IsByte,
}
use sapi_game.Wire.Varint.RoundTrip.{
  read-write_var_uint, read_var_uint_takes, read-write_var_int, IsInt53, write_var_int_takes,
}
use sapi_game.Wire.Utf8.{encode_utf8, decode_utf8, utf8_byte_length, truncate_utf8}
use sapi_game.Wire.Utf8.RoundTrip.{decode-encode_utf8, utf8_byte_length-encode_utf8}
use sapi_game.Wire.Utf8.Truncate.{truncate_utf8_longest, IsLongestCut}
use sapi_game.Wire.Base64.{alphabet, encode_base64, decode_base64, strip, padding}
use sapi_game.Wire.Base64.RoundTrip.{decode-encode_base64}
use sapi_game.Wire.Base64.Strict.{decode_base64_takes, characters, decode_base64_bytes, IsBase64}
use sapi_game.Wire.Raw.{
  Double, Value, null, bool, num, str, arr, obj, nil, cons, end, field, str_eq, write_raw_value,
  read_raw_value,
}
use sapi_game.Wire.Raw.Canonical.{canonical_value, IsProper}
use sapi_game.Wire.Raw.RoundTrip.{read-write_raw_value}
use sapi_game.Wire.Raw.Total.{Sound, read_raw_value-Sound}
use sapi_game.Wire.Container.{
  TraceSessionHeader, completed, TraceSessionEnd, encode_beg_trace, decode_beg_trace_container,
}
use sapi_game.Wire.Container.RoundTrip.{decode-encode_beg_trace, IsProperHeader, canonical_header}
use sapi_game.Wire.Varint.{magnitude}
use sapi_game.Wire.Varint.{write_byte, write_groups, read_groups, read_byte}
use sapi_game.Wire.Utf8.{encode_unit, is_pair}
use sapi_game.Wire.Base64.{
  is_space, decode_quads, decode_quad, decode_char, decode_table, decode_or_pad,
}
use sapi_game.Wire.Raw.{write_string, write_number}
use sapi_game.Wire.Container.{write_magic, encode_header, write_chunks, encode_end}

-- Two numbers, zero and one half, with the bytes they have.
abbrev half_bytes : List ℕ
half_bytes = 0 ∷ 0 ∷ 0 ∷ 0 ∷ 0 ∷ 0 ∷ 0xe0 ∷ 0x3f ∷ []

abbrev to_bytes_of : Bool → List ℕ
to_bytes_of false = replicate 8 0
to_bytes_of true = half_bytes

abbrev safe_int_of : Bool → Option ℤ
safe_int_of false = some (pos 0)
safe_int_of true = none

abbrev pub halves : Double
halves = record {
  Number = Bool;
  safe_int = safe_int_of;
  of_int = λ z. false;
  to_bytes = to_bytes_of;
  of_bytes = λ bytes. str_eq bytes half_bytes;
  safe_int_range = range;
  length-to_bytes = eight;
  of-to_bytes = back;
}
  where
    range : (f : Bool) (z : ℤ) → safe_int_of f ≡ some z → magnitude z ≤ max_safe
    range false z e = ground arith
    range true z e = ground arith

    eight : (f : Bool) → length (to_bytes_of f) ≡ 8
    eight false = refl
    eight true = refl

    back : (f : Bool) → str_eq (to_bytes_of f) half_bytes ≡ f
    back false = refl
    back true = refl

abbrev pub written : Result (List ℕ) → List ℕ
written (ok bytes) = bytes
written (err e) = []

-- The alphabet is the literal of the source.
alphabet_test :
    map alphabet (0 ∷ 25 ∷ 26 ∷ 51 ∷ 52 ∷ 61 ∷ 62 ∷ 63 ∷ [])
    ≡ 65 ∷ 90 ∷ 97 ∷ 122 ∷ 48 ∷ 57 ∷ 43 ∷ 47 ∷ []
unfolding alphabet
alphabet_test = refl

read-write_var_uint_example :
    (bytes : List ℕ) × (write_var_uint 300 ≡ ok bytes)
    × (read_var_uint (bytes ++ (7 ∷ [])) ≡ ok (300, 7 ∷ []))
read-write_var_uint_example = read-write_var_uint 300 (7 ∷ []) (omega arith)

read_var_uint_takes_example : (300 ≤ max_safe) × (1 < 3) × (3 ≤ 1 + 8)
unfolding read_var_uint read_groups read_byte
read_var_uint_takes_example = read_var_uint_takes (172 ∷ 2 ∷ 7 ∷ []) 300 (7 ∷ []) refl

read-write_var_int_example :
    (bytes : List ℕ) × (write_var_int (negsuc 149) ≡ ok bytes)
    × (read_var_int (bytes ++ []) ≡ ok (negsuc 149, []))
read-write_var_int_example = read-write_var_int (negsuc 149) [] (omega arith)

write_var_int_takes_example :
    ((bytes : List ℕ) × (write_var_int (negsuc (2 ^ 52)) ≡ ok bytes)) ↔ IsInt53 (negsuc (2 ^ 52))
write_var_int_takes_example = write_var_int_takes (negsuc (2 ^ 52))

-- A letter, a letter of two bytes, one of three, a pair, and half a pair.
abbrev sample : List ℕ
sample = 0x41 ∷ 0xe9 ∷ 0x4e2d ∷ 0xd83d ∷ 0xde00 ∷ 0xd83d ∷ []

decode-encode_utf8_example : decode_utf8 (encode_utf8 sample) ≡ ok sample
decode-encode_utf8_example = decode-encode_utf8 sample (ground arith)

utf8_byte_length-encode_utf8_example : utf8_byte_length sample ≡ length (encode_utf8 sample)
utf8_byte_length-encode_utf8_example = utf8_byte_length-encode_utf8 sample

truncate_utf8_longest_example :
    (n : ℕ) × (truncate_utf8 sample 9 ≡ take n sample) × IsLongestCut 9 sample n
truncate_utf8_longest_example = truncate_utf8_longest sample 9

decode-encode_base64_example :
    decode_base64 (encode_base64 (77 ∷ 97 ∷ 255 ∷ 0 ∷ [])) ≡ ok (77 ∷ 97 ∷ 255 ∷ 0 ∷ [])
decode-encode_base64_example = decode-encode_base64 (77 ∷ 97 ∷ 255 ∷ 0 ∷ []) (ground arith)

decode_base64_takes_example :
    ((bytes : List ℕ) × (decode_base64 (84 ∷ 81 ∷ 61 ∷ 61 ∷ []) ≡ ok bytes))
    ↔ IsBase64 (strip (84 ∷ 81 ∷ 61 ∷ 61 ∷ []))
decode_base64_takes_example = decode_base64_takes (84 ∷ 81 ∷ 61 ∷ 61 ∷ [])

-- "TWE="
decode_base64_bytes_example :
    All IsByte (77 ∷ 97 ∷ []) × (2 ≡ characters (strip (84 ∷ 87 ∷ 69 ∷ 61 ∷ [])) * 6 / 8)
unfolding decode_base64 strip is_space decode_quads decode_quad decode_char decode_table
    decode_or_pad padding
decode_base64_bytes_example = decode_base64_bytes (84 ∷ 87 ∷ 69 ∷ 61 ∷ []) (77 ∷ 97 ∷ []) refl

-- { "k": [null, true, 0.5, 0, "A"] }
abbrev sample_value : Value Bool
sample_value = obj (
    field (107 ∷ [])
      (arr (
        cons null
          (cons (bool true) (cons (num true) (cons (num false) (cons (str (65 ∷ [])) nil))))))
      end)

read-write_raw_value_example :
    read_raw_value halves (written (write_raw_value halves sample_value) ++ (9 ∷ []))
    ≡ ok (canonical_value halves sample_value, 9 ∷ [])
unfolding write_raw_value write_byte write_var_uint write_groups write_string encode_utf8
    encode_unit write_number
read-write_raw_value_example =
    read-write_raw_value halves sample_value (written (write_raw_value halves sample_value))
      (9 ∷ []) (unfold IsProper in ground arith) refl

read_raw_value-Sound_example : Sound 3 (read_raw_value halves (8 ∷ 2 ∷ 255 ∷ []))
read_raw_value-Sound_example = read_raw_value-Sound halves (8 ∷ 2 ∷ 255 ∷ [])

abbrev pub sample_header : TraceSessionHeader Bool
sample_header = record {
  session_id = 115 ∷ [];
  format_version = 1;
  game_type = 103 ∷ [];
  game_key = 107 ∷ 49 ∷ [];
  game_instance_id = [];
  begame_version = some (49 ∷ []);
  pack_version = none;
  start_tick = 1000;
  start_wall_time = 1700000000000;
  initial_config = some sample_value;
}

abbrev sample_end : TraceSessionEnd
sample_end = record {
  session_id = 115 ∷ [];
  status = completed;
  end_tick = 2000;
  end_wall_time = 1700000050000;
  end_reason = some (111 ∷ 107 ∷ []);
  event_count = 3;
  chunk_count = 2;
}

abbrev sample_chunks : List (List ℕ)
sample_chunks = (1 ∷ 2 ∷ 3 ∷ []) ∷ [] ∷ []

pub sample_header-IsProper : IsProperHeader halves sample_header
sample_header-IsProper = record {
  version = refl;
  session = ground arith;
  type = ground arith;
  key = ground arith;
  instance_id = ground arith;
  begame = ground arith;
  pack = ground arith;
  config = unfold IsProper in ground arith;
}

decode-encode_beg_trace_example :
    decode_beg_trace_container halves
      (written (encode_beg_trace halves sample_header sample_chunks sample_end))
    ≡ ok (record {
      header = canonical_header halves sample_header;
      chunks = sample_chunks;
      ending = sample_end;
    })
unfolding encode_beg_trace write_magic write_byte encode_header write_string write_var_uint
    encode_utf8 encode_unit write_groups is_pair write_raw_value write_number write_chunks
    encode_end
decode-encode_beg_trace_example =
    decode-encode_beg_trace halves sample_header sample_chunks sample_end
      (written (encode_beg_trace halves sample_header sample_chunks sample_end))
      sample_header-IsProper (ground arith) refl refl
