-- ===== src/Wire/Raw/Steps.antt =====
-- One reading step for each form of a value.
use sapi_game.Base.{
  ℕ, suc, ◌<◌, bit_and, ◌≡◌, refl, ◌∙◌, true, false, Option, none, some, List, [], ◌∷◌, ◌++◌, arith,
  length, All,
}
use sapi_game.Base.Int.{ℤ, pos, negsuc}
use sapi_game.Wire.Result.{Result, ok, ◌then_write◌, then_write-eq_ok}
use sapi_game.Wire.Varint.{write_byte, write_var_uint, write_var_int, read_byte}
use sapi_game.Wire.Utf8.{IsUnit}
use sapi_game.Wire.Raw.{
  Double, Value, Items, Fields, null, bool, num, str, arr, obj, cons, end, set_field, write_string,
  write_number, write_raw_value, read_items, read_fields, read_float64, read_tagged, read_value,
}
use sapi_game.Wire.Raw.Strings.{
  read_of_write_var_uint, read_of_write_var_int, read_bytes-append, read_of_write_string, tagged,
}
use sapi_game.Wire.Raw.Canonical.{canonical}

module _ (d : Double) where
  open d use {Number, safe_int, of_int, to_bytes, of_bytes}

  pub canonical-none : (value : Number) → safe_int value ≡ none → canonical d value ≡ value
  unfolding canonical
  canonical-none value e = rw (e, canonical)

  pub canonical-some :
      (value : Number) (z : ℤ) → safe_int value ≡ some z → canonical d value ≡ of_int z
  unfolding canonical
  canonical-some value z e = rw (e, canonical)

  -- A value that begins with `tag`.
  pub read_tag :
      (fuel tag : ℕ) (body rest : List ℕ)
      → read_value d (suc fuel) ((tag ∷ body) ++ rest)
        ≡ read_tagged d (read_value d fuel) tag (body ++ rest)
  unfolding read_value read_byte
  read_tag fuel tag body rest = refl

  pub read_float :
      (value : Number) (rest : List ℕ)
      → read_float64 d (to_bytes value ++ rest) ≡ ok (num value, rest)
  unfolding read_float64
  read_float value rest =
      let eight : length (to_bytes value) ≡ 8 = d.length-to_bytes value in
      rw (← eight, read_bytes-append, d.of-to_bytes)

  pub read_number :
      (value : Number) (fuel : ℕ) (bytes rest : List ℕ)
      → write_number d value ≡ ok bytes
      → read_value d (suc fuel) (bytes ++ rest) ≡ ok (num (canonical d value), rest)
  unfolding write_number
  read_number value fuel bytes rest h = ground_number (safe_int value) refl
    where
      ground_number :
          (o : Option ℤ)
          → safe_int value ≡ o
          → read_value d (suc fuel) (bytes ++ rest) ≡ ok (num (canonical d value), rest)
      ground_number none e =
          let (body, wrote, same) =
            tagged 5 (ok (to_bytes value)) bytes refl (rw (e, write_number) at h) in
          let same' : bytes ≡ 5 ∷ to_bytes value = cc in
          rw (same', canonical-none value e, read_tag) (unfold read_tagged in read_float value rest)
      ground_number (some (pos n)) e =
          let (body, wrote, same) =
            tagged 3 (write_var_uint n) bytes refl (rw (e, write_number) at h) in
          rw (same, canonical-some value _ e, read_tag)
            (unfold read_tagged in rw (read_of_write_var_uint n body rest wrote))
      ground_number (some (negsuc n)) e =
          let (body, wrote, same) =
            tagged 4 (write_var_int (negsuc n)) bytes refl (rw (e, write_number) at h) in
          let safe = d.safe_int_range value (negsuc n) e in
          rw (same, canonical-some value _ e, read_tag)
            (unfold read_tagged in rw (read_of_write_var_int (negsuc n) body rest safe wrote))

  pub length-tagged :
      (tag : ℕ) (p : Result (List ℕ)) {bytes : List ℕ}
      → (write_byte tag then_write p) ≡ ok bytes
      → 0 < length bytes
  unfolding write_byte
  length-tagged tag p h = ground (arith, then_write-eq_ok (ok (bit_and tag 0xff ∷ [])) p h)

  pub taken :
      (bytes : List ℕ) {value : Value Number}
      → read_value d 1 (bytes ++ []) ≡ ok (value, [])
      → 0 < length bytes
  unfolding read_value read_byte
  taken [] h = cc
  taken (b ∷ bs) h = omega arith

  -- Every value takes a byte.
  pub write_raw_value_pos :
      (value : Value Number) {bytes : List ℕ}
      → write_raw_value d value ≡ ok bytes
      → 0 < length bytes
  unfolding write_raw_value
  write_raw_value_pos null h = unfold write_byte in ground arith
  write_raw_value_pos (bool false) h = unfold write_byte in ground arith
  write_raw_value_pos (bool true) h = unfold write_byte in ground arith
  write_raw_value_pos (num value) {bytes = bytes} h = taken bytes (read_number value 0 bytes [] h)
  write_raw_value_pos (str value) h = length-tagged 6 _ h
  write_raw_value_pos (arr items) h = length-tagged 7 _ h
  write_raw_value_pos (obj entries) h = length-tagged 8 _ h

  -- The readings of a bare tag, and of a count with what follows it.
  pub read_bare :
      (value : Value Number) (tag fuel : ℕ) (bytes rest : List ℕ)
      → bit_and tag 0xff ≡ tag
      → read_tagged d (read_value d fuel) tag rest ≡ ok (value, rest)
      → write_byte tag ≡ ok bytes
      → read_value d (suc fuel) (bytes ++ rest) ≡ ok (value, rest)
  unfolding write_byte
  read_bare value tag fuel bytes rest small reads h =
      let same : tag ∷ [] ≡ bytes = cc in rw (← same) (read_tag fuel tag [] rest ∙ reads)

  pub read_arr :
      (fuel : ℕ) (size more rest : List ℕ) (n : ℕ) (items : Items Number)
      → write_var_uint n ≡ ok size
      → read_items d (read_value d fuel) n (more ++ rest) ≡ ok (items, rest)
      → read_tagged d (read_value d fuel) 7 (size ++ (more ++ rest)) ≡ ok (arr items, rest)
  unfolding read_tagged
  read_arr fuel size more rest n items wrote reads =
      rw (read_of_write_var_uint n size (more ++ rest) wrote, reads)

  pub read_obj :
      (fuel : ℕ) (size more rest : List ℕ) (n : ℕ) (fields : Fields Number)
      → write_var_uint n ≡ ok size
      → read_fields d (read_value d fuel) n end (more ++ rest) ≡ ok (fields, rest)
      → read_tagged d (read_value d fuel) 8 (size ++ (more ++ rest)) ≡ ok (obj fields, rest)
  unfolding read_tagged
  read_obj fuel size more rest n fields wrote reads =
      rw (read_of_write_var_uint n size (more ++ rest) wrote, reads)

  pub read_cons :
      (fuel : ℕ) (front more rest : List ℕ) (n : ℕ) (value : Value Number) (items : Items Number)
      → read_value d fuel (front ++ (more ++ rest)) ≡ ok (value, more ++ rest)
      → read_items d (read_value d fuel) n (more ++ rest) ≡ ok (items, rest)
      → read_items d (read_value d fuel) (suc n) (front ++ (more ++ rest))
        ≡ ok (cons value items, rest)
  unfolding read_items
  read_cons fuel front more rest n value items first others = rw (first, others)

  pub read_field :
      (fuel : ℕ) (name front more rest key : List ℕ) (n : ℕ) (value : Value Number)
      (result fields : Fields Number)
      → All IsUnit key
      → write_string key ≡ ok name
      → read_value d fuel (front ++ (more ++ rest)) ≡ ok (value, more ++ rest)
      → read_fields d (read_value d fuel) n (set_field key value result) (more ++ rest)
        ≡ ok (fields, rest)
      → read_fields d (read_value d fuel) (suc n) result (name ++ (front ++ (more ++ rest)))
        ≡ ok (fields, rest)
  unfolding read_fields
  read_field fuel name front more rest key n value result fields units wrote first others =
      rw (read_of_write_string key name (front ++ (more ++ rest)) units wrote, first, others)
