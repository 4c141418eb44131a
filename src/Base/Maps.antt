-- ===== src/Base/Maps.antt =====
-- `Map` of the language with number keys: entries in the order of insertion.
use Prim.Native.Nat.{ℕ}
use mathlib.Core.Path.{◌≡◌}
use mathlib.Core.Option.{Option, none, some}
use mathlib.Core.List.{List, [], ◌∷◌}
use native.Mathlib.Omega.{arith}
use sapi_game.Base.Tests.{◌==◌, if◌then◌else◌}

abbrev pub map_get {ℓ} : {A : Type ℓ} → ℕ → List (ℕ × A) → Option A
map_get k [] = none
map_get k ((a, v) ∷ m) = if k == a then some v else map_get k m

-- `map.set(k, v)`: in place, or at the end.
abbrev pub map_set {ℓ} : {A : Type ℓ} → ℕ → A → List (ℕ × A) → List (ℕ × A)
map_set k v [] = (k, v) ∷ []
map_set k v ((a, old) ∷ m) = if k == a then (a, v) ∷ m else (a, old) ∷ map_set k v m

abbrev pub map_delete {ℓ} : {A : Type ℓ} → ℕ → List (ℕ × A) → List (ℕ × A)
map_delete k [] = []
map_delete k ((a, v) ∷ m) = if k == a then map_delete k m else (a, v) ∷ map_delete k m

pub map_get-map_set {ℓ} :
    {A : Type ℓ} (k a : ℕ) (v : A) (m : List (ℕ × A))
    → map_get k (map_set a v m) ≡ (if k == a then some v else map_get k m)
map_get-map_set k a v [] = ground arith
map_get-map_set k a v ((b, old) ∷ m) = ground (arith, map_get-map_set k a v m)

pub map_get-map_delete {ℓ} :
    {A : Type ℓ} (k a : ℕ) (m : List (ℕ × A))
    → map_get k (map_delete a m) ≡ (if k == a then none else map_get k m)
map_get-map_delete k a [] = ground arith
map_get-map_delete k a ((b, v) ∷ m) = ground (arith, map_get-map_delete k a m)
