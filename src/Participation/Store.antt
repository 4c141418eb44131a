-- ===== src/Participation/Store.antt =====
-- `Map<string, Set<string>>` as the code uses it: both keep the order of insertion. Player ids and
-- game keys are numbers here, since the code does nothing with them but compare them.
use sapi_game.Base.{
  ℕ, ◌≡◌, refl, Bool, false, not, ◌&&◌, ◌||◌, Option, none, some, List, [], ◌∷◌, ◌++◌, arith, ◌==◌,
  if◌then◌else◌,
}

abbrev pub Ids : Type 0
Ids = List ℕ

abbrev pub Store : Type 0
Store = List (ℕ × Ids)

abbrev pub elem : ℕ → Ids → Bool
elem x [] = false
elem x (y ∷ ys) = x == y || elem x ys

-- `set.add(x)`
abbrev pub set_add : ℕ → Ids → Ids
set_add x xs = if elem x xs then xs else xs ++ (x ∷ [])

-- `set.delete(x)`, less the Boolean
abbrev pub set_delete : ℕ → Ids → Ids
set_delete x [] = []
set_delete x (y ∷ ys) = if x == y then set_delete x ys else y ∷ set_delete x ys

-- `new Set(xs)`, spread again: the first occurrences, in their order
abbrev pub unique_from : Ids → Ids → Ids
unique_from seen [] = seen
unique_from seen (x ∷ xs) = unique_from (set_add x seen) xs

abbrev pub unique : Ids → Ids
unique xs = unique_from [] xs

abbrev pub store_get : ℕ → Store → Option Ids
store_get k [] = none
store_get k ((a, ids) ∷ s) = if k == a then some ids else store_get k s

-- `map.set(k, ids)`
abbrev pub store_set : ℕ → Ids → Store → Store
store_set k ids [] = (k, ids) ∷ []
store_set k ids ((a, old) ∷ s) = if k == a then (a, ids) ∷ s else (a, old) ∷ store_set k ids s

-- `map.delete(k)`
abbrev pub store_delete : ℕ → Store → Store
store_delete k [] = []
store_delete k ((a, ids) ∷ s) = if k == a then store_delete k s else (a, ids) ∷ store_delete k s

-- `map.get(k) ?? []`
abbrev pub or_empty : Option Ids → Ids
or_empty none = []
or_empty (some ids) = ids

unfoldable pub row : ℕ → Store → Ids
row k s = or_empty (store_get k s)

-- The set that is left under a key: with nothing in it, the key is deleted.
unfoldable pub store_keep : ℕ → Ids → Store → Store
store_keep k [] s = store_delete k s
store_keep k (x ∷ xs) s = store_set k (x ∷ xs) s

-- Each element once.
abbrev pub AllDistinct : Ids → Type 0
AllDistinct [] = Unit {0}
AllDistinct (x ∷ xs) = (elem x xs ≡ false) × AllDistinct xs

pub elem-append : (x : ℕ) (xs ys : Ids) → elem x (xs ++ ys) ≡ (elem x xs || elem x ys)
elem-append x [] ys = refl
elem-append x (y ∷ xs) ys = ground (arith, elem-append x xs ys)

pub elem-set_add : (x y : ℕ) (xs : Ids) → elem x (set_add y xs) ≡ (x == y || elem x xs)
elem-set_add x y xs = ground (arith, elem-append x xs (y ∷ []))

pub elem-set_delete : (x y : ℕ) (xs : Ids) → elem x (set_delete y xs) ≡ (not (x == y) && elem x xs)
elem-set_delete x y [] = ground arith
elem-set_delete x y (z ∷ xs) = ground (arith, elem-set_delete x y xs)

pub AllDistinct-snoc :
    (x : ℕ) (xs : Ids) → elem x xs ≡ false → AllDistinct xs → AllDistinct (xs ++ (x ∷ []))
AllDistinct-snoc x [] h k = (refl, tt)
AllDistinct-snoc x (y ∷ xs) h k = ground (arith, AllDistinct-snoc x xs, elem-append y xs (x ∷ []))

pub AllDistinct-set_add : (x : ℕ) (xs : Ids) → AllDistinct xs → AllDistinct (set_add x xs)
AllDistinct-set_add x xs h = ground (arith, AllDistinct-snoc x xs)

pub AllDistinct-set_delete : (x : ℕ) (xs : Ids) → AllDistinct xs → AllDistinct (set_delete x xs)
AllDistinct-set_delete x [] h = tt
AllDistinct-set_delete x (y ∷ xs) (h, k) =
    ground (arith, AllDistinct-set_delete x xs k, elem-set_delete y x xs)

pub row-store_set :
    (k a : ℕ) (ids : Ids) (s : Store)
    → row k (store_set a ids s) ≡ (if k == a then ids else row k s)
unfolding row
row-store_set k a ids [] = ground arith
row-store_set k a ids ((b, old) ∷ s) = ground (arith, row-store_set k a ids s)

pub row-store_delete :
    (k a : ℕ) (s : Store) → row k (store_delete a s) ≡ (if k == a then [] else row k s)
unfolding row
row-store_delete k a [] = ground arith
row-store_delete k a ((b, old) ∷ s) = ground (arith, row-store_delete k a s)

pub row-store_keep :
    (k a : ℕ) (ids : Ids) (s : Store)
    → row k (store_keep a ids s) ≡ (if k == a then ids else row k s)
unfolding store_keep
row-store_keep k a [] s = row-store_delete k a s
row-store_keep k a (x ∷ xs) s = row-store_set k a (x ∷ xs) s

unique_from-AllDistinct : (seen xs : Ids) → AllDistinct seen → AllDistinct (unique_from seen xs)
unique_from-AllDistinct seen [] h = h
unique_from-AllDistinct seen (x ∷ xs) h =
    unique_from-AllDistinct (set_add x seen) xs (AllDistinct-set_add x seen h)

pub unique-AllDistinct : (xs : Ids) → AllDistinct (unique xs)
unique-AllDistinct xs = unique_from-AllDistinct [] xs tt

elem-unique_from :
    (y : ℕ) (seen xs : Ids) → elem y (unique_from seen xs) ≡ (elem y seen || elem y xs)
elem-unique_from y seen [] = ground arith
elem-unique_from y seen (x ∷ xs) =
    ground (arith, elem-unique_from y (set_add x seen) xs, elem-set_add y x seen)

pub elem-unique : (y : ℕ) (xs : Ids) → elem y (unique xs) ≡ elem y xs
elem-unique y xs = elem-unique_from y [] xs
