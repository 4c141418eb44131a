-- ===== src/Trace/Act.antt =====
-- Operations on a state that may throw. What was changed before a throw stays changed.
use sapi_game.Base.{◌≡◌, refl}
use sapi_game.Wire.Result.{Result, Error, ok, err}

abbrev pub Act : Type 0 → Type 0 → Type 0
Act S A = S → S × Result A

abbrev pub then_act : {S A B : Type 0} → S × Result A → (A → Act S B) → S × Result B
then_act (s, ok a) next = next a s
then_act (s, err e) next = (s, err e)

infixl 5 ◌>>=◌
unfoldable pub ◌>>=◌ : {S A B : Type 0} → Act S A → (A → Act S B) → Act S B
◌>>=◌ m next s = then_act (m s) next

unfoldable pub pure : {S A : Type 0} → A → Act S A
pure a s = (s, ok a)

unfoldable pub throw : {S A : Type 0} → Error → Act S A
throw e s = (s, err e)

-- A result that needs no state.
unfoldable pub lift : {S A : Type 0} → Result A → Act S A
lift r s = (s, r)

unfoldable pub modify : {S : Type 0} → (S → S) → Act S (Unit {0})
modify change s = (change s, ok tt)

unfoldable pub gets : {S A : Type 0} → (S → A) → Act S A
gets read s = (s, ok (read s))

-- A sequence that returned: both of its parts did.
pub >>=-returned :
    {S A B : Type 0} (m : Act S A) (next : A → Act S B) (s u : S) (b : B)
    → (m >>= next) s ≡ (u, ok b)
    → (t : S) × (a : A) × (m s ≡ (t, ok a)) × (next a t ≡ (u, ok b))
unfolding ◌>>=◌
>>=-returned {S = S} {A = A} {B = B} m next s u b h = split (m s) refl h
  where
    split :
        (x : S × Result A)
        → m s ≡ x
        → then_act x next ≡ (u, ok b)
        → (t : S) × (a : A) × (m s ≡ (t, ok a)) × (next a t ≡ (u, ok b))
    split (t, ok a) e h = (t, a, e, h)
    split (t, err e') e h = cc

-- A value that was computed beforehand.
pub lift-returned :
    {S A B : Type 0} (r : Result A) (next : A → Act S B) (s u : S) (b : B)
    → (lift r >>= next) s ≡ (u, ok b)
    → (a : A) × (r ≡ ok a) × (next a s ≡ (u, ok b))
unfolding ◌>>=◌ lift
lift-returned (ok a) next s u b h = (a, refl, h)
lift-returned (err e) next s u b h = cc

pub pure-returned : {S A : Type 0} (s u : S) (a b : A) → pure a s ≡ (u, ok b) → (s ≡ u) × (a ≡ b)
unfolding pure
pure-returned s u a b h = (cc, cc)
