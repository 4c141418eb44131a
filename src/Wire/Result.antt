-- ===== src/Wire/Result.antt =====
-- What an operation of packages/trace/src/wire or runtime returns or throws. The classes of the errors
-- (RangeError, TypeError) and their texts are one constructor for each `throw`.
use sapi_game.Base.{ℕ, append_assoc, ap, sym, ◌∙◌, ◌≡◌, refl, List, ◌++◌, ◌⊎◌, inl, inr}

pub data Error : Type 0 where
  not_safe_uint not_safe_int : Error
  unexpected_end varuint_overflow varuint_too_long : Error
  string_end bad_continuation bad_code_point bad_leading_byte : Error
  unknown_tag : Error
  base64_length base64_padding base64_character : Error
  not_a_trace unsupported_format unknown_status trailing_bytes : Error
  unknown_string_ref unknown_player_ref unknown_source_kind unknown_value_tag : Error
  unknown_field_type unknown_record not_a_chunk unsupported_chunk : Error
  chunk_count_mismatch event_count_mismatch : Error
  missing_field wrong_field schema_collision component_before_state : Error
  -- No error of the source: a loop of the model ran out of fuel.
  stuck : Error

pub data Result {ℓ} (A : Type ℓ) : Type ℓ where
  ok : A → Result A
  err : Error → Result A

-- What comes after an operation that returned; an error is passed on.
infixl 5 ◌>>=◌
abbrev pub ◌>>=◌ {ℓ ℓ'} :
    {Before : Type ℓ} {After : Type ℓ'} → Result Before → (Before → Result After) → Result After
err thrown >>= next = err thrown
ok found >>= next = next found

-- An operation of `BinaryWriter` is the bytes that it pushes, or the error that it throws. The
-- writer is dropped with the error. One operation after another appends.
infixr 40 ◌then_write◌
abbrev pub ◌then_write◌ {ℓ} : {A : Type ℓ} → Result (List A) → Result (List A) → Result (List A)
ok xs then_write ok ys = ok (xs ++ ys)
ok xs then_write err e = err e
err e then_write r = err e

pub then_write-eq_ok {ℓ} :
    {A : Type ℓ} (p q : Result (List A)) {zs : List A}
    → (p then_write q) ≡ ok zs
    → (xs : List A) × (ys : List A) × (p ≡ ok xs) × (q ≡ ok ys) × ((xs ++ ys) ≡ zs)
then_write-eq_ok (ok xs) (ok ys) h = (xs, ys, refl, refl, cc)
then_write-eq_ok (ok xs) (err e) h = cc
then_write-eq_ok (err e) q h = cc

pub Result-cases {ℓ} :
    {A : Type ℓ} (r : Result A) → ((a : A) × (r ≡ ok a)) ⊎ ((e : Error) × (r ≡ err e))
Result-cases (ok a) = inl (a, refl)
Result-cases (err e) = inr (e, refl)

-- A sequence that returned: its first part did, and the second on what that returned.
pub >>=-eq_ok {ℓ ℓ'} :
    {Before : Type ℓ} {After : Type ℓ'} (first : Result Before) (next : Before → Result After)
    {value : After}
    → (first >>= next) ≡ ok value
    → (found : Before) × (first ≡ ok found) × (next found ≡ ok value)
>>=-eq_ok (err thrown) next h = cc
>>=-eq_ok (ok found) next h = (found, refl, h)

pub then_write_assoc :
    (p q r : Result (List ℕ)) → ((p then_write q) then_write r) ≡ (p then_write q then_write r)
then_write_assoc (ok xs) (ok ys) (ok zs) = ap ok (append_assoc xs ys zs)
then_write_assoc (ok xs) (ok ys) (err e) = refl
then_write_assoc (ok xs) (err e) r = refl
then_write_assoc (err e) q r = refl

-- What is written after three parts.
pub then_write-ok3 :
    (a b c r : Result (List ℕ)) (xs ys : List ℕ)
    → (a then_write b then_write c) ≡ ok xs
    → r ≡ ok ys
    → (a then_write b then_write c then_write r) ≡ ok (xs ++ ys)
then_write-ok3 a b c r xs ys e e' =
    ap (λ z. a then_write z) (sym (then_write_assoc b c r))
    ∙ (sym (then_write_assoc a (b then_write c) r) ∙ rw (e, e') refl)

pub then_write-ok4 :
    (a b c e r : Result (List ℕ)) (xs ys : List ℕ)
    → (a then_write b then_write c then_write e) ≡ ok xs
    → r ≡ ok ys
    → (a then_write b then_write c then_write e then_write r) ≡ ok (xs ++ ys)
then_write-ok4 a b c e r xs ys h h' =
    ap (λ z. a then_write b then_write z) (sym (then_write_assoc c e r))
    ∙ then_write-ok3 a b (c then_write e) r xs ys h h'
