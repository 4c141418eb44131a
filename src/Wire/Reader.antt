-- ===== src/Wire/Reader.antt =====
-- Sequences of readings of `BinaryReader`, and what it means that one undoes a writing.
use sapi_game.Base.{ℕ, ◌≡◌, List, [], ◌++◌, append_assoc}
use sapi_game.Wire.Result.{Result, Error, ok, err, ◌then_write◌, then_write-eq_ok}
use sapi_game.Wire.Result

-- A reading takes the bytes that are left and leaves fewer.
abbrev pub Reader : Type 0 → Type 0
Reader A = List ℕ → Result (A × List ℕ)

infixl 5 ◌>>=◌
unfoldable pub ◌>>=◌ : {A B : Type 0} → Reader A → (A → Reader B) → Reader B
◌>>=◌ m k reader = Result.◌>>=◌ (m reader) λ x. k x.0 x.1

unfoldable pub pure : {A : Type 0} → A → Reader A
pure a reader = ok (a, reader)

unfoldable pub fail : {A : Type 0} → Error → Reader A
fail e reader = err e

-- `read` takes what `p` wrote, returns `a` and leaves what follows.
abbrev pub Undoes : {A : Type 0} → Reader A → Result (List ℕ) → A → Type 0
Undoes read p a = (bytes rest : List ℕ) → p ≡ ok bytes → read (bytes ++ rest) ≡ ok (a, rest)

pub Undoes-pure : {A : Type 0} (a : A) → Undoes (pure a) (ok []) a
unfolding pure
Undoes-pure a bytes rest h = let e : bytes ≡ [] = cc in rw e

pub Undoes-bind :
    {A B : Type 0} (m : Reader A) (k : A → Reader B) (p q : Result (List ℕ)) (a : A) (b : B)
    → Undoes m p a
    → Undoes (k a) q b
    → Undoes (m >>= k) (p then_write q) b
unfolding ◌>>=◌
Undoes-bind m k p q a b u v bytes rest h =
    let (front, back, e, e', same) = then_write-eq_ok p q h in
    rw (← same, append_assoc, u front (back ++ rest) e, v back rest e')

-- The last operation of a sequence, with a result made of what was read.
pub Undoes-last :
    {A B : Type 0} (m : Reader A) (f : A → B) (p : Result (List ℕ)) (a : A)
    → Undoes m p a
    → Undoes (m >>= λ x. pure (f x)) p (f a)
unfolding ◌>>=◌ pure
Undoes-last m f p a u bytes rest h = rw (u bytes rest h)

-- A reading that takes no byte.
pub Undoes-skip :
    {A B : Type 0} (m : Reader A) (k : A → Reader B) (q : Result (List ℕ)) (a : A) (b : B)
    → ((reader : List ℕ) → m reader ≡ ok (a, reader))
    → Undoes (k a) q b
    → Undoes (m >>= k) q b
unfolding ◌>>=◌
Undoes-skip m k q a b e u bytes rest h = rw (e (bytes ++ rest)) (u bytes rest h)

-- The last reading, after which nothing takes a byte.
pub Undoes-then_skip :
    {A B : Type 0} (m : Reader A) (k : A → Reader B) (p : Result (List ℕ)) (a : A) (b : B)
    → Undoes m p a
    → ((reader : List ℕ) → k a reader ≡ ok (b, reader))
    → Undoes (m >>= k) p b
unfolding ◌>>=◌
Undoes-then_skip m k p a b u e bytes rest h = rw (u bytes rest h) (e rest)
