-- ===== src/Wire/Raw/Strings.antt =====
-- Integers and strings of a value, read back as they were written.
use sapi_game.Base.{
  ℕ, ◌+◌, ◌≤◌, bit_and, ◌≡◌, sym, ◌∙◌, inl, inr, true, List, [], ◌∷◌, ◌++◌, append_assoc, arith,
  ltb, le→ltb, Bool-cases, length, length-append, take_all-append, drop_all-append, All,
}
use sapi_game.Base.Int.{ℤ}
use sapi_game.Wire.Result.{Result, ok, ◌then_write◌, then_write-eq_ok}
use sapi_game.Wire.Varint.{
  max_safe, magnitude, zigzag, write_byte, write_var_uint, write_var_int, read_bytes, read_var_uint,
  read_var_int,
}
use sapi_game.Wire.Varint.RoundTrip.{read-write_var_uint, read-write_var_int, write_var_int_refuses}
use sapi_game.Wire.Utf8.{IsUnit, encode_utf8}
use sapi_game.Wire.Utf8.RoundTrip.{decode-encode_utf8}
use sapi_game.Wire.Raw.{write_string, read_string}

pub read_of_write_var_uint :
    (v : ℕ) (bytes rest : List ℕ)
    → write_var_uint v ≡ ok bytes
    → read_var_uint (bytes ++ rest) ≡ ok (v, rest)
read_of_write_var_uint v bytes rest h = elim (Bool-cases (ltb max_safe v)) [
  | inl e ↦ absurd (refused e)
  | inr e ↦
      let (bytes', wrote, reads) = read-write_var_uint v rest (ground arith) in
      let same : bytes' ≡ bytes = cc in rw (← same) reads
]
  where
    refused : ltb max_safe v ≡ true → ⊥
    refused e = unfold write_var_uint in cc (rw e at h)

-- A negative safe integer is written if it is -(2 ^ 52) or more.
pub read_of_write_var_int :
    (z : ℤ) (bytes rest : List ℕ)
    → magnitude z ≤ max_safe
    → write_var_int z ≡ ok bytes
    → read_var_int (bytes ++ rest) ≡ ok (z, rest)
read_of_write_var_int z bytes rest safe h = elim (Bool-cases (ltb max_safe (zigzag z))) [
  | inl e ↦ cc (write_var_int_refuses z safe (ground arith))
  | inr e ↦
      let (bytes', wrote, reads) = read-write_var_int z rest (ground arith) in
      let same : bytes' ≡ bytes = cc in rw (← same) reads
]

pub read_bytes-append :
    (bytes rest : List ℕ) → read_bytes (length bytes) (bytes ++ rest) ≡ ok (bytes, rest)
unfolding read_bytes
read_bytes-append bytes rest = rw (
  length-append bytes rest,
  le→ltb (length bytes + length rest) (length bytes) (omega arith),
  take_all-append bytes rest,
  drop_all-append bytes rest,
)

pub read_of_write_string :
    (value bytes rest : List ℕ)
    → All IsUnit value
    → write_string value ≡ ok bytes
    → read_string (bytes ++ rest) ≡ ok (value, rest)
unfolding write_string read_string
read_of_write_string value bytes rest units h =
    let (size, text, e, e', same) =
      then_write-eq_ok (write_var_uint (length (encode_utf8 value))) _ h in
    let text' : encode_utf8 value ≡ text = cc in
    rw (
      ← same,
      ← text',
      append_assoc,
      read_of_write_var_uint _ size (encode_utf8 value ++ rest) e,
      read_bytes-append,
      decode-encode_utf8 value units,
    )

-- A byte in front of what another operation writes.
pub tagged :
    (tag : ℕ) (p : Result (List ℕ)) (bytes : List ℕ)
    → bit_and tag 0xff ≡ tag
    → (write_byte tag then_write p) ≡ ok bytes
    → (body : List ℕ) × (p ≡ ok body) × (bytes ≡ tag ∷ body)
unfolding write_byte
tagged tag p bytes small h =
    let (front, body, e, e', same) = then_write-eq_ok (ok (bit_and tag 0xff ∷ [])) p h in
    let one : front ≡ tag ∷ [] = cc in (body, e', sym same ∙ rw one)
