-- ===== src/Wire/Base64/Strict.antt =====
-- Which texts `decodeBase64` takes, and the size of what it returns.
use sapi_game.Base.{
  ℕ, ◌-◌, ◌+◌, ◌*◌, ◌/◌, ◌%◌, ◌≤◌, ◌<◌, bit_and, ◌==◌, ==_iff, if◌then◌else◌, ◌≡◌, refl, ◌≢◌, ◌↔◌,
  ◌⊎◌, inl, inr, Bool, true, false, none, some, List, [], ◌∷◌, ◌++◌, append-nil, arith, length,
  take, length-append, nil_of_length, length-take, All-take, All, All-append,
}
use sapi_game.Base.Bits.{bit_and_mask}
use sapi_game.Wire.Result.{ok, err}
use sapi_game.Wire.Varint.{IsByte}
use sapi_game.Wire.Base64.{
  pad, decode_table, decode_char, decode_or_pad, decode_quad, decode_quads, padding, strip,
  decode_base64,
}
use sapi_game.Wire.Result.{Error}
use sapi_game.Wire.Result.{>>=-eq_ok}
use sapi_game.Wire.Result.{Result-cases}

-- A character of the alphabet.
abbrev pub IsChar : ℕ → Type 0
IsChar t = (n : ℕ) × (decode_table t ≡ some n)

-- Quads of the alphabet; only the last may end in one or two padding characters.
abbrev pub IsBase64 : List ℕ → Type 0
IsBase64 [] = Unit {0}
IsBase64 (t0 ∷ []) = ⊥
IsBase64 (t0 ∷ t1 ∷ []) = ⊥
IsBase64 (t0 ∷ t1 ∷ t2 ∷ []) = ⊥
IsBase64 (t0 ∷ t1 ∷ t2 ∷ t3 ∷ []) =
    IsChar t0
    × IsChar t1
    × (IsChar t2 × IsChar t3 ⊎ IsChar t2 × (t3 ≡ pad) ⊎ (t2 ≡ pad) × (t3 ≡ pad))
IsBase64 (t0 ∷ t1 ∷ t2 ∷ t3 ∷ t4 ∷ text) =
    IsChar t0 × IsChar t1 × IsChar t2 × IsChar t3 × IsBase64 (t4 ∷ text)

-- A quad that is taken: its bytes are three, and its characters are as they should be.
abbrev Quad : Bool → ℕ → ℕ → ℕ → ℕ → Type 0
Quad true t0 t1 t2 t3 =
    IsChar t0
    × IsChar t1
    × (IsChar t2 × IsChar t3 ⊎ IsChar t2 × (t3 ≡ pad) ⊎ (t2 ≡ pad) × (t3 ≡ pad))
Quad false t0 t1 t2 t3 = IsChar t0 × IsChar t1 × IsChar t2 × IsChar t3

pad-not_char : decode_table pad ≡ none
unfolding decode_table
pad-not_char = refl

decode_quad_takes :
    (last : Bool) (t0 t1 t2 t3 : ℕ) (e : Error)
    → Quad last t0 t1 t2 t3
    → decode_quad last t0 t1 t2 t3 ≢ err e
unfolding decode_quad decode_char decode_or_pad
decode_quad_takes true t0 t1 t2 t3 e q = ground (arith, pad-not_char)
decode_quad_takes false t0 t1 t2 t3 e q = ground (arith, pad-not_char)

decode_quad-Quad :
    (last : Bool) (t0 t1 t2 t3 : ℕ) {bytes : List ℕ}
    → decode_quad last t0 t1 t2 t3 ≡ ok bytes
    → Quad last t0 t1 t2 t3
unfolding decode_quad decode_char decode_or_pad
decode_quad-Quad true t0 t1 t2 t3 h = ground arith
decode_quad-Quad false t0 t1 t2 t3 h = ground arith

byte_small : (x : ℕ) → bit_and x 0xff < 256
byte_small x = omega (arith, bit_and_mask 8 x)

decode_quad_bytes :
    (last : Bool) (t0 t1 t2 t3 : ℕ) (bytes : List ℕ)
    → decode_quad last t0 t1 t2 t3 ≡ ok bytes
    → (length bytes ≡ 3) × All IsByte bytes
unfolding decode_quad
decode_quad_bytes last t0 t1 t2 t3 bytes h = grind (arith, byte_small)

-- What a decoded text of whole quads is like.
abbrev Decoded : List ℕ → List ℕ → Type 0
Decoded text bytes = IsBase64 text × (length bytes * 4 ≡ length text * 3) × All IsByte bytes

decode_quads-Decoded :
    (text bytes : List ℕ) → length text % 4 ≡ 0 → decode_quads text ≡ ok bytes → Decoded text bytes
unfolding decode_quads
decode_quads-Decoded [] bytes whole h = ground arith
decode_quads-Decoded (t0 ∷ []) bytes whole h = absurd (omega arith)
decode_quads-Decoded (t0 ∷ t1 ∷ []) bytes whole h = absurd (omega arith)
decode_quads-Decoded (t0 ∷ t1 ∷ t2 ∷ []) bytes whole h = absurd (omega arith)
decode_quads-Decoded (t0 ∷ t1 ∷ t2 ∷ t3 ∷ []) bytes whole h =
    let (quad, e, h') = >>=-eq_ok (decode_quad true t0 t1 t2 t3) _ h in
    let (size, small) = decode_quad_bytes true t0 t1 t2 t3 quad e in
    let same : (quad ++ []) ≡ bytes = cc in
    rw (← same, append-nil) (decode_quad-Quad true t0 t1 t2 t3 e, omega arith, small)
decode_quads-Decoded (t0 ∷ t1 ∷ t2 ∷ t3 ∷ t4 ∷ text) bytes whole h =
    let (quad, e, h') = >>=-eq_ok (decode_quad false t0 t1 t2 t3) _ h in
    let (more, e', h'') = >>=-eq_ok (decode_quads (t4 ∷ text)) _ h' in
    let (size, small) = decode_quad_bytes false t0 t1 t2 t3 quad e in
    let (chars, size', small') = decode_quads-Decoded (t4 ∷ text) more (omega arith) e' in
    let (i0, i1, i2, i3) = decode_quad-Quad false t0 t1 t2 t3 e in
    let same : (quad ++ more) ≡ bytes = cc in
    rw (← same) (
      (i0, i1, i2, i3, chars),
      omega (arith, length-append quad more),
      All-append IsByte quad more small small',
    )

decode_quads_takes : (text : List ℕ) (e : Error) → IsBase64 text → decode_quads text ≢ err e
unfolding decode_quads
decode_quads_takes [] e t = λ h. cc
decode_quads_takes (t0 ∷ []) e t = absurd t
decode_quads_takes (t0 ∷ t1 ∷ []) e t = absurd t
decode_quads_takes (t0 ∷ t1 ∷ t2 ∷ []) e t = absurd t
decode_quads_takes (t0 ∷ t1 ∷ t2 ∷ t3 ∷ []) e t =
    ground (arith, decode_quad_takes true t0 t1 t2 t3 e t)
decode_quads_takes (t0 ∷ t1 ∷ t2 ∷ t3 ∷ t4 ∷ text) e t = ground (
  arith,
  decode_quad_takes false t0 t1 t2 t3 e (t.0, t.1, t.2, t.3),
  decode_quads_takes (t4 ∷ text) e t.4,
)

IsBase64-length : (text : List ℕ) → IsBase64 text → length text % 4 ≡ 0
IsBase64-length [] t = refl
IsBase64-length (t0 ∷ []) t = absurd t
IsBase64-length (t0 ∷ t1 ∷ []) t = absurd t
IsBase64-length (t0 ∷ t1 ∷ t2 ∷ []) t = absurd t
IsBase64-length (t0 ∷ t1 ∷ t2 ∷ t3 ∷ []) t = omega arith
IsBase64-length (t0 ∷ t1 ∷ t2 ∷ t3 ∷ t4 ∷ text) t = omega (arith, IsBase64-length (t4 ∷ text) t.4)

-- How a decoding went that returned `bytes`.
abbrev Ways : List ℕ → List ℕ → Type 0
Ways text bytes =
    (text ≡ []) × (bytes ≡ [])
    ⊎ ((all : List ℕ) × (length text % 4 ≡ 0)
        × (decode_quads text ≡ ok all)
        × (bytes ≡ take (length text / 4 * 3 - padding text) all))

decode_base64-Ways :
    (value bytes : List ℕ) → decode_base64 value ≡ ok bytes → Ways (strip value) bytes
unfolding decode_base64
decode_base64-Ways value bytes h = ground (arith, nil_of_length (strip value))

decode_base64_refuses :
    (value : List ℕ) (e : Error) → IsBase64 (strip value) → decode_base64 value ≢ err e
unfolding decode_base64
decode_base64_refuses value e t =
    ground (arith, decode_quads_takes (strip value) e t, IsBase64-length (strip value) t)

-- decode_base64 returns a result exactly for the texts that are well-formed once white space is
-- removed: groups of four characters of the alphabet, with one or two pads at the end of the last.
pub decode_base64_takes :
    (value : List ℕ)
    → ((bytes : List ℕ) × (decode_base64 value ≡ ok bytes)) ↔ IsBase64 (strip value)
decode_base64_takes value = (onward, back)
  where
    onward : (bytes : List ℕ) × (decode_base64 value ≡ ok bytes) → IsBase64 (strip value)
    onward (bytes, h) = elim (decode_base64-Ways value bytes h) [
      | inl (e, _) ↦ rw e tt
      | inr (all, whole, e, _) ↦ (decode_quads-Decoded (strip value) all whole e).0
    ]

    back : IsBase64 (strip value) → (bytes : List ℕ) × (decode_base64 value ≡ ok bytes)
    back t = elim (Result-cases (decode_base64 value)) [
      | inl found ↦ found
      | inr (e, h) ↦ absurd (decode_base64_refuses value e t h)
    ]

-- How many characters of a text are not the pad.
pub characters : List ℕ → ℕ
characters [] = 0
characters (t ∷ text) = (if t == pad then 0 else 1) + characters text

char-not_pad : (t : ℕ) → IsChar t → (t == pad) ≡ false
char-not_pad t c = ground (arith, pad-not_char, c.1, ==_iff t pad)

-- After a group there is another whole group, or none.
padding-step :
    (t3 t4 : ℕ) (text : List ℕ)
    → IsBase64 (t4 ∷ text)
    → padding (t3 ∷ t4 ∷ text) ≡ padding (t4 ∷ text)
unfolding padding
padding-step t3 t4 [] more = absurd more
padding-step t3 t4 (t5 ∷ text) more = refl

padding-le : (text : List ℕ) → padding text ≤ 2
unfolding padding
padding-le [] = omega arith
padding-le (t ∷ []) = ground arith
padding-le (t ∷ u ∷ []) = ground arith
padding-le (t ∷ u ∷ v ∷ text) = padding-le (u ∷ v ∷ text)

-- In whole groups the pads make up what the characters leave.
padding-characters :
    (text : List ℕ) → IsBase64 text → length text / 4 * 3 - padding text ≡ characters text * 3 / 4
unfolding padding characters
padding-characters [] t = refl
padding-characters (t0 ∷ []) t = absurd t
padding-characters (t0 ∷ t1 ∷ []) t = absurd t
padding-characters (t0 ∷ t1 ∷ t2 ∷ []) t = absurd t
padding-characters (t0 ∷ t1 ∷ t2 ∷ t3 ∷ []) (i0, i1, ends) =
    rw (char-not_pad t0 i0, char-not_pad t1 i1)
      (ground (arith, char-not_pad t2, char-not_pad t3, ends))
padding-characters (t0 ∷ t1 ∷ t2 ∷ t3 ∷ t4 ∷ text) (i0, i1, i2, i3, more) =
    rw
      (
        char-not_pad t0 i0,
        char-not_pad t1 i1,
        char-not_pad t2 i2,
        char-not_pad t3 i3,
        padding-step t3 t4 text more,
      )
      (omega (
        arith,
        padding-characters (t4 ∷ text) more,
        padding-le (t4 ∷ text),
        IsBase64-length (t4 ∷ text) more,
      ))

-- What decode_base64 returns is bytes, as many as the characters of the text, white space and pads
-- apart, fill whole: each character stands for six bits, each byte for eight.
pub decode_base64_bytes :
    (value bytes : List ℕ)
    → decode_base64 value ≡ ok bytes
    → All IsByte bytes × (length bytes ≡ characters (strip value) * 6 / 8)
decode_base64_bytes value bytes h = elim (decode_base64-Ways value bytes h) [
  | inl (e, e') ↦ rw (e, e') (tt, unfold characters in refl)
  | inr (all, whole, e, cut) ↦
      let (chars, size, small) = decode_quads-Decoded (strip value) all whole e in
      let n = length (strip value) / 4 * 3 - padding (strip value) in
      rw cut (
        All-take IsByte n all small,
        omega (arith, length-take n all, padding-characters (strip value) chars),
      )
]
