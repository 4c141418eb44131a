-- ===== src/Wire/Raw.antt =====
-- Strings and values in packages/trace/src/wire/binary.ts: `writeString`, `readString`,
-- `writeRawValue` and `readRawValue`. A writing operation is the bytes that it pushes.
pub mod Strings
pub mod Keys
pub mod Canonical
pub mod Steps
pub mod RoundTrip
pub mod Total
use sapi_game.Base.{
  ℕ, zero, suc, ◌+◌, ◌-◌, ◌*◌, ◌/◌, ◌%◌, ◌^◌, ◌≤◌, ◌<◌, min, max, bit_and, bit_or, ◌≡◌, refl, sym,
  ap, ◌∙◌, subst, ◌≢◌, ◌↔◌, ◌⊎◌, inl, inr, Bool, true, false, not, ◌&&◌, ◌||◌, Option, none, some,
  List, [], ◌∷◌, ◌++◌, map, reverse, append-nil, append_assoc, arith, ltb, leb, ◌==◌, if◌then◌else◌,
  lt→ltb, le→ltb, ==_iff, ==_refl, Bool-cases, Option-cases, length, get_elem?, take, drop,
  replicate, length-append, nil_of_length, length-take, All-take, take_all-append, drop_all-append,
  All, All-append,
}
use sapi_game.Base.Int.{ℤ, pos, negsuc}
use sapi_game.Wire.Result.{Result, ok, err, ◌>>=◌, ◌then_write◌, unknown_tag, stuck}
use sapi_game.Wire.Varint.{
  max_safe, magnitude, write_byte, write_var_uint, write_var_int, read_byte, read_bytes,
  read_var_uint, read_var_int,
}
use sapi_game.Wire.Utf8.{encode_utf8, decode_utf8}

-- The numbers of the language, and what the code asks of them. `safe_int` is
-- `Number.isSafeInteger` with the integer that the number then is (0 for -0); `to_bytes` and
-- `of_bytes` are `setFloat64` and `getFloat64` of a `DataView`, little-endian.
pub record Double : Type 1 where
  pub Number : Type 0
  pub safe_int : Number → Option ℤ
  pub of_int : ℤ → Number
  pub to_bytes : Number → List ℕ
  pub of_bytes : List ℕ → Number
  pub safe_int_range : (f : Number) (z : ℤ) → safe_int f ≡ some z → magnitude z ≤ max_safe
  pub length-to_bytes : (f : Number) → length (to_bytes f) ≡ 8
  pub of-to_bytes : (f : Number) → of_bytes (to_bytes f) ≡ f

-- `TraceValue`. An object is its list of entries, in the order of `Object.entries`.
mutual
  pub data Value (F : Type 0) : Type 0 where
    null : Value F
    bool : Bool → Value F
    num : F → Value F
    str : List ℕ → Value F
    arr : Items F → Value F
    obj : Fields F → Value F

  pub data Items (F : Type 0) : Type 0 where
    nil : Items F
    cons : Value F → Items F → Items F

  pub data Fields (F : Type 0) : Type 0 where
    end : Fields F
    field : List ℕ → Value F → Fields F → Fields F

abbrev pub count_items : {F : Type 0} → Items F → ℕ
count_items nil = 0
count_items (cons v vs) = suc (count_items vs)

abbrev pub count_fields : {F : Type 0} → Fields F → ℕ
count_fields end = 0
count_fields (field k v fs) = suc (count_fields fs)

abbrev pub str_eq : List ℕ → List ℕ → Bool
str_eq [] [] = true
str_eq [] (b ∷ bs) = false
str_eq (a ∷ as') [] = false
str_eq (a ∷ as') (b ∷ bs) = a == b && str_eq as' bs

-- "__proto__"
abbrev pub proto_key : List ℕ
proto_key = 95 ∷ 95 ∷ 112 ∷ 114 ∷ 111 ∷ 116 ∷ 111 ∷ 95 ∷ 95 ∷ []

-- `result[key] = value`, from an empty object on. A value set at "__proto__" is the prototype, or
-- dropped; it is no entry of the object. The entries are in the order in which they were first set;
-- the language lists keys that are array indices before the others.
unfoldable pub set_field : {F : Type 0} → List ℕ → Value F → Fields F → Fields F
set_field key value end = if str_eq key proto_key then end else field key value end
set_field key value (field k v fs) =
    let rest = set_field key value fs in if str_eq k key then field k value fs else field k v rest

unfoldable pub write_string : List ℕ → Result (List ℕ)
write_string value =
    let bytes = encode_utf8 value in write_var_uint (length bytes) then_write ok bytes

unfoldable pub read_string : List ℕ → Result (List ℕ × List ℕ)
read_string reader = do
  (n, reader) ← read_var_uint reader
  (bytes, reader) ← read_bytes n reader
  value ← decode_utf8 bytes
  ok (value, reader)

module _ (d : Double) where
  open d use {Number, safe_int, of_int, to_bytes, of_bytes}

  unfoldable pub write_number : Number → Result (List ℕ)
  write_number value = elim (safe_int value) [
    | none ↦ write_byte 5 then_write ok (to_bytes value)
    | some (pos n) ↦ write_byte 3 then_write write_var_uint n
    | some (negsuc n) ↦ write_byte 4 then_write write_var_int (negsuc n)
  ]

  unfoldable mutual
    pub write_raw_value : Value Number → Result (List ℕ)
    write_raw_value null = write_byte 0
    write_raw_value (bool false) = write_byte 1
    write_raw_value (bool true) = write_byte 2
    write_raw_value (num value) = write_number value
    write_raw_value (str value) = write_byte 6 then_write write_string value
    write_raw_value (arr items) =
        write_byte 7 then_write write_var_uint (count_items items) then_write write_items items
    write_raw_value (obj entries) =
        write_byte 8
        then_write write_var_uint (count_fields entries)
        then_write write_fields entries

    pub write_items : Items Number → Result (List ℕ)
    write_items nil = ok []
    write_items (cons entry items) = write_raw_value entry then_write write_items items

    pub write_fields : Fields Number → Result (List ℕ)
    write_fields end = ok []
    write_fields (field key entry entries) =
        write_string key then_write write_raw_value entry then_write write_fields entries

  -- The loops over the entries, given the reader of one value.
  unfoldable pub read_items :
      (List ℕ → Result (Value Number × List ℕ)) → ℕ → List ℕ → Result (Items Number × List ℕ)
  read_items read zero reader = ok (nil, reader)
  read_items read (suc n) reader = do
    (value, reader) ← read reader
    (items, reader) ← read_items read n reader
    ok (cons value items, reader)

  unfoldable pub read_fields :
      (List ℕ → Result (Value Number × List ℕ))
      → ℕ
      → Fields Number
      → List ℕ
      → Result (Fields Number × List ℕ)
  read_fields read zero result reader = ok (result, reader)
  read_fields read (suc n) result reader = do
    (key, reader) ← read_string reader
    (value, reader) ← read reader
    read_fields read n (set_field key value result) reader

  unfoldable pub read_float64 : List ℕ → Result (Value Number × List ℕ)
  read_float64 reader = do (bytes, reader) ← read_bytes 8 reader; ok (num (of_bytes bytes), reader)

  -- The `switch` over the tag, with the reader of the values inside.
  unfoldable pub read_tagged :
      (List ℕ → Result (Value Number × List ℕ)) → ℕ → List ℕ → Result (Value Number × List ℕ)
  read_tagged read tag reader =
      if tag == 0
      then ok (null, reader)
      else if tag == 1
      then ok (bool false, reader)
      else if tag == 2
      then ok (bool true, reader)
      else if tag == 3
      then (do (n, reader) ← read_var_uint reader; ok (num (of_int (pos n)), reader))
      else if tag == 4
      then (do (z, reader) ← read_var_int reader; ok (num (of_int z), reader))
      else if tag == 5
      then read_float64 reader
      else if tag == 6
      then (do (value, reader) ← read_string reader; ok (str value, reader))
      else if tag == 7
      then (do
        (n, reader) ← read_var_uint reader
        (items, reader) ← read_items read n reader
        ok (arr items, reader))
      else if tag == 8
      then (do
        (n, reader) ← read_var_uint reader
        (fields, reader) ← read_fields read n end reader
        ok (obj fields, reader))
      else err unknown_tag

  -- Each value takes a byte at least, so the bytes left are fuel enough.
  unfoldable pub read_value : ℕ → List ℕ → Result (Value Number × List ℕ)
  read_value zero reader = err stuck
  read_value (suc fuel) reader = do
    (tag, reader) ← read_byte reader
    read_tagged (read_value fuel) tag reader

  unfoldable pub read_raw_value : List ℕ → Result (Value Number × List ℕ)
  read_raw_value reader = read_value (suc (length reader)) reader
