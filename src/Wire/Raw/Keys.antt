-- ===== src/Wire/Raw/Keys.antt =====
-- The keys of an object, and assignment to a new key.
use sapi_game.Base.{ℕ, ◌≡◌, refl, Bool, false, ◌||◌, List, [], ◌∷◌, arith}
use sapi_game.Wire.Raw.{Value, Fields, end, field, str_eq, set_field}
use sapi_game.Wire.Raw.{proto_key}

-- Keys of an object.
-- A key that is no new entry of an object: one of its keys, or "__proto__".
abbrev pub is_taken : {F : Type 0} → List ℕ → Fields F → Bool
is_taken key end = str_eq key proto_key
is_taken key (field k v fs) = str_eq k key || is_taken key fs

abbrev pub append_fields : {F : Type 0} → Fields F → Fields F → Fields F
append_fields end gs = gs
append_fields (field k v fs) gs = field k v (append_fields fs gs)

-- Every key of the second object is new to the first.
abbrev pub AllNew : {F : Type 0} → Fields F → Fields F → Type 0
AllNew result end = Unit {0}
AllNew result (field k v fs) = (is_taken k result ≡ false) × AllNew result fs

abbrev pub DistinctKeys : {F : Type 0} → Fields F → Type 0
DistinctKeys end = Unit {0}
DistinctKeys (field k v fs) = (is_taken k fs ≡ false) × DistinctKeys fs

pub str_eq_sym : (a b : List ℕ) → str_eq a b ≡ str_eq b a
str_eq_sym [] [] = refl
str_eq_sym [] (y ∷ ys) = refl
str_eq_sym (x ∷ xs) [] = refl
str_eq_sym (x ∷ xs) (y ∷ ys) = ground (arith, str_eq_sym xs ys)

pub set_field_new :
    {F : Type 0} (key : List ℕ) (value : Value F) (result : Fields F)
    → is_taken key result ≡ false
    → set_field key value result ≡ append_fields result (field key value end)
unfolding set_field
set_field_new key value end h = ground (arith, h)
set_field_new key value (field k v fs) h = ground (arith, set_field_new key value fs)

pub append_fields_assoc :
    {F : Type 0} (fs gs hs : Fields F)
    → append_fields (append_fields fs gs) hs ≡ append_fields fs (append_fields gs hs)
append_fields_assoc end gs hs = refl
append_fields_assoc (field k v fs) gs hs = rw (append_fields_assoc fs gs hs)

pub append_fields-end : {F : Type 0} (fs : Fields F) → append_fields fs end ≡ fs
append_fields-end end = refl
append_fields-end (field k v fs) = rw (append_fields-end fs)

pub is_taken-append :
    {F : Type 0} (j key : List ℕ) (value : Value F) (fs : Fields F)
    → is_taken j fs ≡ false
    → str_eq key j ≡ false
    → is_taken j (append_fields fs (field key value end)) ≡ false
is_taken-append j key value end h k = ground arith
is_taken-append j key value (field i v fs) h k = ground (arith, is_taken-append j key value fs)

pub AllNew-append :
    {F : Type 0} (key : List ℕ) (value : Value F) (result : Fields F) (fs : Fields F)
    → is_taken key fs ≡ false
    → AllNew result fs
    → AllNew (append_fields result (field key value end)) fs
AllNew-append key value result end h n = tt
AllNew-append key value result (field k v fs) h n = (
  is_taken-append k key value result n.0 (ground (arith, str_eq_sym key k)),
  AllNew-append key value result fs (ground arith) n.1,
)

pub set_then_append :
    {F : Type 0} (key : List ℕ) (value : Value F) (result fs : Fields F)
    → is_taken key result ≡ false
    → append_fields (set_field key value result) fs ≡ append_fields result (field key value fs)
set_then_append key value result fs h =
    rw (set_field_new key value result h) (append_fields_assoc result (field key value end) fs)

not_proto :
    {F : Type 0} (key : List ℕ) (fs : Fields F)
    → is_taken key fs ≡ false
    → str_eq key proto_key ≡ false
not_proto key end h = h
not_proto key (field k v fs) h = ground (arith, not_proto key fs)

pub AllNew-end : {F : Type 0} (fs : Fields F) → DistinctKeys fs → AllNew end fs
AllNew-end end h = tt
AllNew-end (field k v fs) (new, h) = (not_proto k fs new, AllNew-end fs h)
