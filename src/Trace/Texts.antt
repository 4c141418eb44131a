-- ===== src/Trace/Texts.antt =====
-- `Map` of the language with string keys.
use sapi_game.Base.{
  ◌≡◌, refl, inl, inr, true, Option, none, some, List, [], ◌∷◌, arith, if◌then◌else◌, Bool-cases,
}
use sapi_game.Wire.Raw.{str_eq}
use sapi_game.Wire.Container.{Text}

abbrev pub text_get {ℓ} : {A : Type ℓ} → Text → List (Text × A) → Option A
text_get k [] = none
text_get k ((a, v) ∷ m) = if str_eq k a then some v else text_get k m

abbrev pub text_set {ℓ} : {A : Type ℓ} → Text → A → List (Text × A) → List (Text × A)
text_set k v [] = (k, v) ∷ []
text_set k v ((a, old) ∷ m) = if str_eq k a then (a, v) ∷ m else (a, old) ∷ text_set k v m

pub str_eq_refl : (a : Text) → str_eq a a ≡ true
str_eq_refl [] = refl
str_eq_refl (x ∷ a) = ground (arith, str_eq_refl a)

pub str_eq→eq : (a b : Text) → str_eq a b ≡ true → a ≡ b
str_eq→eq [] [] h = refl
str_eq→eq [] (y ∷ b) h = cc
str_eq→eq (x ∷ a) [] h = cc
str_eq→eq (x ∷ a) (y ∷ b) h = ground (arith, h, str_eq→eq a b)

pub text_get-text_set {ℓ} :
    {A : Type ℓ} (k a : Text) (v : A) (m : List (Text × A))
    → text_get k (text_set a v m) ≡ (if str_eq k a then some v else text_get k m)
text_get-text_set k a v [] = refl
text_get-text_set k a v ((b, old) ∷ m) = elim (Bool-cases (str_eq a b)) [
  | inl e ↦ let same : a ≡ b = str_eq→eq a b e in rw (← same, str_eq_refl a) (ground arith)
  | inr e ↦
      ground (arith, e, text_get-text_set k a v m, str_eq→eq k b, str_eq→eq k a, str_eq_refl k)
]
