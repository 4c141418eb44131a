-- ===== src/GroupSet.antt =====
-- packages/core/src/gamePlayer/groupSet.ts: a collection of groups. A group object is a reference
-- with its state; players are as in PlayerGroup. Re-publishing of the groups' changes is left out.
pub mod Members
mod Tests
use sapi_game.Base.{
  ℕ, zero, suc, ◌+◌, ◌-◌, ◌*◌, ◌/◌, ◌%◌, ◌^◌, ◌≤◌, ◌<◌, min, max, bit_and, bit_or, ◌≡◌, refl, sym,
  ap, ◌∙◌, subst, ◌≢◌, ◌↔◌, ◌⊎◌, inl, inr, Bool, true, false, not, ◌&&◌, ◌||◌, Option, none, some,
  List, [], ◌∷◌, ◌++◌, map, reverse, append-nil, append_assoc, arith, ltb, leb, ◌==◌, if◌then◌else◌,
  lt→ltb, le→ltb, ==_iff, ==_refl, Bool-cases, Option-cases, length, get_elem?, take, drop,
  replicate, length-append, nil_of_length, length-take, All-take, take_all-append, drop_all-append,
  All, All-append,
}
use sapi_game.Base.Maps.{map_get, map_set}
use sapi_game.Participation.Store.{Ids, elem, set_add}
use sapi_game.PlayerGroup.{PlayerGroup, ChangeReason, get_by_id, has_id, delete, clear_invalid}

-- The groups, by reference, in the order they were added.
abbrev pub Groups : Type 0
Groups = List (ℕ × PlayerGroup)

abbrev pub includes : ℕ → Groups → Bool
includes ref [] = false
includes ref ((r, g) ∷ gs) = ref == r || includes ref gs

-- What `addGroup`, `removeGroup` and `clear` publish; none where they publish nothing.
pub data ScopeReason : Type 0 where
  group_added group_removed groups_cleared : ScopeReason

unfoldable pub add_group : ℕ → PlayerGroup → Groups → Groups × Option ScopeReason
add_group ref g gs =
    if includes ref gs then (gs, none) else (gs ++ ((ref, g) ∷ []), some group_added)

-- `indexOf` and `splice`: the first one goes.
abbrev splice : ℕ → Groups → Groups
splice ref [] = []
splice ref ((r, g) ∷ gs) = let rest = splice ref gs in if ref == r then gs else (r, g) ∷ rest

unfoldable pub remove_group : ℕ → Groups → Groups × Option ScopeReason
remove_group ref gs = if includes ref gs then (splice ref gs, some group_removed) else (gs, none)

unfoldable pub clear_groups : Groups → Groups × Option ScopeReason
clear_groups [] = ([], none)
clear_groups (g ∷ gs) = ([], some groups_cleared)

abbrev pub values : List (ℕ × ℕ) → List ℕ
values [] = []
values ((k, v) ∷ m) = v ∷ values m

abbrev pub has_key : ℕ → List (ℕ × ℕ) → Bool
has_key k m = elim (map_get k m) [ none ↦ false | some v ↦ true ]

module _ (id : ℕ → ℕ) where
  -- The loops of `getAllPlayers` over a group's players and over the groups.
  unfoldable pub collect_group : List ℕ → List (ℕ × ℕ) → List (ℕ × ℕ)
  collect_group [] players = players
  collect_group (p ∷ ps) players =
      if has_key (id p) players
      then collect_group ps players
      else collect_group ps (map_set (id p) p players)

  unfoldable pub collect : Groups → List (ℕ × ℕ) → List (ℕ × ℕ)
  collect [] players = players
  collect ((r, g) ∷ gs) players = collect gs (collect_group g.players players)

  unfoldable pub get_all_players : Groups → List ℕ
  get_all_players gs = values (collect gs [])

  -- `some` in one group: none where it returns true, else the ids seen.
  unfoldable pub some_in_group : (ℕ → Bool) → List ℕ → Ids → Option Ids
  some_in_group test [] seen = some seen
  some_in_group test (p ∷ ps) seen =
      if elem (id p) seen
      then some_in_group test ps seen
      else if test p
      then none
      else some_in_group test ps (set_add (id p) seen)

  unfoldable pub some_in : (ℕ → Bool) → Groups → Ids → Bool
  some_in test [] seen = false
  some_in test ((r, g) ∷ gs) seen = elim (some_in_group test g.players seen) [
    | none ↦ true
    | some seen' ↦ some_in test gs seen'
  ]

  unfoldable pub some_player : (ℕ → Bool) → Groups → Bool
  some_player test gs = some_in test gs []

  -- `validSize`, with the count and the ids seen.
  unfoldable pub count_in_group : (ℕ → Bool) → List ℕ → ℕ → Ids → ℕ × Ids
  count_in_group is_valid [] count seen = (count, seen)
  count_in_group is_valid (p ∷ ps) count seen =
      if elem (id p) seen
      then count_in_group is_valid ps count seen
      else count_in_group is_valid ps (if is_valid p then suc count else count)
          (set_add (id p) seen)

  unfoldable pub count_in : (ℕ → Bool) → Groups → ℕ → Ids → ℕ
  count_in is_valid [] count seen = count
  count_in is_valid ((r, g) ∷ gs) count seen =
      let (count', seen') = count_in_group is_valid g.players count seen in
      count_in is_valid gs count' seen'

  unfoldable pub valid_size : (ℕ → Bool) → Groups → ℕ
  valid_size is_valid gs = count_in is_valid gs 0 []

  -- The number of groups changed, and the groups.
  unfoldable pub remove_player : ℕ → ChangeReason → Groups → ℕ × Groups
  remove_player key reason [] = (0, [])
  remove_player key reason ((r, g) ∷ gs) =
      let (removed, rest) = remove_player key reason gs in
      if has_id id key g
      then (suc removed, (r, (delete id key reason g).0) ∷ rest)
      else (removed, (r, g) ∷ rest)

  unfoldable pub clear_invalid_all : (ℕ → Bool) → Groups → Groups
  clear_invalid_all is_valid [] = []
  clear_invalid_all is_valid ((r, g) ∷ gs) =
      (r, (clear_invalid id is_valid g).0) ∷ clear_invalid_all is_valid gs

  unfoldable pub find_group_by_id : ℕ → Groups → Option (ℕ × PlayerGroup)
  find_group_by_id key [] = none
  find_group_by_id key ((r, g) ∷ gs) =
      let rest = find_group_by_id key gs in if has_id id key g then some (r, g) else rest

  unfoldable pub find_by_id : ℕ → Groups → Option (ℕ × ℕ × PlayerGroup)
  find_by_id key gs = elim (find_group_by_id key gs) [
    | none ↦ none
    | some (r, g) ↦ elim (get_by_id id key g) [ none ↦ none | some p ↦ some (p, r, g) ]
  ]

  unfoldable pub are_in_same_group : ℕ → ℕ → Groups → Bool
  are_in_same_group first second gs = elim (find_group_by_id first gs) [
    | none ↦ false
    | some (r, g) ↦ elim (find_group_by_id second gs) [ none ↦ false | some (s, h) ↦ s == r ]
  ]

  unfoldable pub has : ℕ → Groups → Bool
  has key gs = elim (find_group_by_id key gs) [ none ↦ false | some found ↦ true ]
