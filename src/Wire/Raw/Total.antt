-- ===== src/Wire/Raw/Total.antt =====
-- Reading a value ends on every input: the fuel of the model never runs out.
use sapi_game.Base.{
  ℕ, zero, suc, ◌+◌, ◌*◌, ◌≤◌, ◌<◌, bit_and, ◌≢◌, Bool, true, false, List, [], ◌∷◌, ◌++◌, arith,
  ltb, ◌==◌, if◌then◌else◌, length, drop,
}
use sapi_game.Wire.Result.{Result, Error, ok, err, ◌>>=◌, stuck}
use sapi_game.Wire.Varint.{read_byte, read_bytes, read_groups, read_var_uint, read_var_int}
use sapi_game.Wire.Utf8.{continuation, decode_round, decode_rounds, decode_utf8}
use sapi_game.Wire.Raw.{
  Double, Value, Fields, read_string, read_items, read_fields, read_float64, read_tagged,
  read_value, read_raw_value,
}

-- A reading that leaves at most `n` bytes, or throws an error of the source.
pub data Sound {A : Type 0} (n : ℕ) : Result (A × List ℕ) → Type 0 where
  leaves : {a : A} {reader : List ℕ} → length reader ≤ n → Sound n (ok (a, reader))
  throws : {e : Error} → e ≢ stuck → Sound n (err e)

Sound-bind :
    {A B : Type 0} (n m : ℕ) {r : Result (A × List ℕ)} (f : A × List ℕ → Result (B × List ℕ))
    → Sound n r
    → ((a : A) (reader : List ℕ) → length reader ≤ n → Sound m (f (a, reader)))
    → Sound m (r >>= f)
Sound-bind n m f (leaves {a = a} {reader = reader} h) k = k a reader h
Sound-bind n m f (throws h) k = throws h

Sound-if :
    {A : Type 0} {n : ℕ} (b : Bool) {x y : Result (A × List ℕ)}
    → Sound n x
    → Sound n y
    → Sound n (if b then x else y)
Sound-if true sx sy = sx
Sound-if false sx sy = sy

Sound-mono : {A : Type 0} {n m : ℕ} {r : Result (A × List ℕ)} → n ≤ m → Sound n r → Sound m r
Sound-mono h (leaves k) = leaves (omega arith)
Sound-mono h (throws k) = throws k

read_groups-Sound :
    (rounds acc m : ℕ) (reader : List ℕ) → Sound (length reader) (read_groups rounds acc m reader)
unfolding read_groups read_byte
read_groups-Sound zero acc m reader = throws (λ e. cc)
read_groups-Sound (suc rounds) acc m [] = throws (λ e. cc)
read_groups-Sound (suc rounds) acc m (b ∷ bs) =
    Sound-if (bit_and b 0x80 == 0)
      (Sound-if (ltb _ (acc + bit_and b 0x7f * m)) (throws (λ e. cc)) (leaves (omega arith)))
      (Sound-mono (omega arith) (read_groups-Sound rounds _ _ bs))

read_var_uint-Sound : (n : ℕ) (reader : List ℕ) → length reader ≤ n → Sound n (read_var_uint reader)
unfolding read_var_uint
read_var_uint-Sound n reader h = Sound-mono h (read_groups-Sound 8 0 1 reader)

read_var_int-Sound : (n : ℕ) (reader : List ℕ) → length reader ≤ n → Sound n (read_var_int reader)
unfolding read_var_int
read_var_int-Sound n reader h =
    Sound-bind n n _ (read_var_uint-Sound n reader h) (λ k left h. leaves h)

length-drop-le {ℓ} : {A : Type ℓ} (n : ℕ) (xs : List A) → length (drop n xs) ≤ length xs
length-drop-le zero xs = omega arith
length-drop-le (suc n) [] = omega arith
length-drop-le (suc n) (x ∷ xs) = omega (arith, length-drop-le n xs)

read_bytes-Sound : (n k : ℕ) (reader : List ℕ) → length reader ≤ n → Sound n (read_bytes k reader)
unfolding read_bytes
read_bytes-Sound n k reader h =
    Sound-if (ltb (length reader) k) (throws (λ e. cc))
      (leaves (omega (arith, length-drop-le k reader)))

continuation-Sound : (n : ℕ) (bytes : List ℕ) → length bytes ≤ n → Sound n (continuation bytes)
unfolding continuation
continuation-Sound n [] h = throws (λ e. cc)
continuation-Sound n (b ∷ bs) h =
    Sound-if (bit_and b 0xc0 == 0x80) (leaves (omega arith)) (throws (λ e. cc))

decode_round-Sound : (first : ℕ) (bytes : List ℕ) → Sound (length bytes) (decode_round first bytes)
unfolding decode_round
decode_round-Sound first bytes =
    let n = length bytes in
    Sound-if (ltb first 0x80) (leaves (omega arith)) (
      Sound-if (bit_and first 0xe0 == 0xc0)
        (Sound-bind n n _ (continuation-Sound n bytes (omega arith)) (λ a left h. leaves h))
        (Sound-if (bit_and first 0xf0 == 0xe0)
          (Sound-bind n n _ (continuation-Sound n bytes (omega arith))
            (λ a left h. Sound-bind n n _ (continuation-Sound n left h) (λ b left h. leaves h)))
          (Sound-if (bit_and first 0xf8 == 0xf0)
            (Sound-bind n n _ (continuation-Sound n bytes (omega arith)) (λ a left h.
              Sound-bind n n _ (continuation-Sound n left h) (λ b left h.
                Sound-bind n n _ (continuation-Sound n left h)
                  (λ c left h. Sound-if (ltb 0x10_ffff _) (throws (λ e. cc)) (leaves h)))))
            (throws (λ e. cc)))))

-- A string is decoded, or refused with an error of the source.
data Decodes : Result (List ℕ) → Type 0 where
  decoded : {value : List ℕ} → Decodes (ok value)
  refused : {e : Error} → e ≢ stuck → Decodes (err e)

Decodes-prepend :
    (units : List ℕ) {r : Result (List ℕ)}
    → Decodes r
    → Decodes (r >>= λ value. ok (units ++ value))
Decodes-prepend units decoded = decoded
Decodes-prepend units (refused h) = refused h

Decodes-bind :
    {A : Type 0} {n : ℕ} {r : Result (A × List ℕ)} (f : A × List ℕ → Result (List ℕ))
    → Sound n r
    → ((a : A) (left : List ℕ) → length left ≤ n → Decodes (f (a, left)))
    → Decodes (r >>= f)
Decodes-bind f (leaves {a = a} {reader = left} h) k = k a left h
Decodes-bind f (throws h) k = refused h

decode_rounds-Decodes :
    (fuel : ℕ) (bytes : List ℕ) → length bytes ≤ fuel → Decodes (decode_rounds fuel bytes)
unfolding decode_rounds
decode_rounds-Decodes zero [] h = decoded
decode_rounds-Decodes (suc fuel) [] h = decoded
decode_rounds-Decodes zero (b ∷ bs) h = absurd (omega arith)
decode_rounds-Decodes (suc fuel) (b ∷ bs) h =
    Decodes-bind _ (decode_round-Sound b bs)
      (λ units left k. Decodes-prepend units (decode_rounds-Decodes fuel left (omega arith)))

decode_utf8-Decodes : (bytes : List ℕ) → Decodes (decode_utf8 bytes)
unfolding decode_utf8
decode_utf8-Decodes bytes = decode_rounds-Decodes _ bytes (omega arith)

Sound-decode :
    {n : ℕ} (left : List ℕ) {r : Result (List ℕ)}
    → length left ≤ n
    → Decodes r
    → Sound n (r >>= λ value. ok (value, left))
Sound-decode left h decoded = leaves h
Sound-decode left h (refused k) = throws k

read_string-Sound : (n : ℕ) (reader : List ℕ) → length reader ≤ n → Sound n (read_string reader)
unfolding read_string
read_string-Sound n reader h = Sound-bind n n _ (read_var_uint-Sound n reader h) (λ k left h.
    Sound-bind n n _ (read_bytes-Sound n k left h)
      (λ bytes left h. Sound-decode left h (decode_utf8-Decodes bytes)))

module _ (d : Double) where
  open d use {Number}

  -- A reader of values that is sound on at most `n` bytes.
  abbrev Reads : ℕ → (List ℕ → Result (Value Number × List ℕ)) → Type 0
  Reads n read = (reader : List ℕ) → length reader ≤ n → Sound n (read reader)

  read_items-Sound :
      (n : ℕ) (read : List ℕ → Result (Value Number × List ℕ))
      → Reads n read
      → (k : ℕ) (reader : List ℕ) → length reader ≤ n
      → Sound n (read_items d read k reader)
  unfolding read_items
  read_items-Sound n read s zero reader h = leaves h
  read_items-Sound n read s (suc k) reader h = Sound-bind n n _ (s reader h) (λ value left h.
      Sound-bind n n _ (read_items-Sound n read s k left h) (λ items left h. leaves h))

  read_fields-Sound :
      (n : ℕ) (read : List ℕ → Result (Value Number × List ℕ))
      → Reads n read
      → (k : ℕ) (result : Fields Number) (reader : List ℕ) → length reader ≤ n
      → Sound n (read_fields d read k result reader)
  unfolding read_fields
  read_fields-Sound n read s zero result reader h = leaves h
  read_fields-Sound n read s (suc k) result reader h =
      Sound-bind n n _ (read_string-Sound n reader h) (λ key left h.
        Sound-bind n n _ (s left h) (λ value left h. read_fields-Sound n read s k _ left h))

  read_tagged-Sound :
      (n : ℕ) (read : List ℕ → Result (Value Number × List ℕ))
      → Reads n read
      → (tag : ℕ) (reader : List ℕ) → length reader ≤ n
      → Sound n (read_tagged d read tag reader)
  unfolding read_tagged read_float64
  read_tagged-Sound n read s tag reader h = Sound-if (tag == 0) (leaves h) (
      Sound-if (tag == 1) (leaves h) (
        Sound-if (tag == 2) (leaves h) (
          Sound-if (tag == 3)
            (Sound-bind n n _ (read_var_uint-Sound n reader h) (λ k left h. leaves h))
            (Sound-if (tag == 4)
              (Sound-bind n n _ (read_var_int-Sound n reader h) (λ z left h. leaves h))
              (Sound-if (tag == 5)
                (Sound-bind n n _ (read_bytes-Sound n 8 reader h) (λ bytes left h. leaves h))
                (Sound-if (tag == 6)
                  (Sound-bind n n _ (read_string-Sound n reader h) (λ value left h. leaves h))
                  (Sound-if (tag == 7)
                    (Sound-bind n n _ (read_var_uint-Sound n reader h) (λ k left h.
                      Sound-bind n n _ (read_items-Sound n read s k left h)
                        (λ items left h. leaves h)))
                    (Sound-if (tag == 8)
                      (Sound-bind n n _ (read_var_uint-Sound n reader h) (λ k left h.
                        Sound-bind n n _ (read_fields-Sound n read s k _ left h)
                          (λ fields left h. leaves h)))
                      (throws (λ e. cc))))))))))

  read_value-Sound :
      (fuel : ℕ) (reader : List ℕ)
      → length reader < fuel
      → Sound (length reader) (read_value d fuel reader)
  unfolding read_value read_byte
  read_value-Sound zero reader h = absurd (omega arith)
  read_value-Sound (suc fuel) [] h = throws (λ e. cc)
  read_value-Sound (suc fuel) (tag ∷ reader) h = Sound-mono (omega arith) (
      read_tagged-Sound (length reader) (read_value d fuel)
        (λ inner k. Sound-mono k (read_value-Sound fuel inner (omega arith))) tag reader
        (omega arith))

  -- On any bytes at all, read_raw_value either returns a value and leaves no more bytes than it had, or
  -- throws one of the errors of the source: its fuel does not run out.
  pub read_raw_value-Sound : (reader : List ℕ) → Sound (length reader) (read_raw_value d reader)
  unfolding read_raw_value
  read_raw_value-Sound reader = read_value-Sound (suc (length reader)) reader (omega arith)
