-- ===== src/PlayerGroup.antt =====
-- packages/core/src/gamePlayer/playerGroup.ts. A player is a reference to a GamePlayer object; what
-- the group asks of the object is a parameter: its id, whether it is valid, whether it is of the
-- group's class, and the native player it has.
pub mod Index
pub mod Members
mod Tests
use sapi_game.Base.{
  ℕ, zero, suc, ◌+◌, ◌-◌, ◌*◌, ◌/◌, ◌%◌, ◌^◌, ◌≤◌, ◌<◌, min, max, bit_and, bit_or, ◌≡◌, refl, sym,
  ap, ◌∙◌, subst, ◌≢◌, ◌↔◌, ◌⊎◌, inl, inr, Bool, true, false, not, ◌&&◌, ◌||◌, Option, none, some,
  List, [], ◌∷◌, ◌++◌, map, reverse, append-nil, append_assoc, arith, ltb, leb, ◌==◌, if◌then◌else◌,
  lt→ltb, le→ltb, ==_iff, ==_refl, Bool-cases, Option-cases, length, get_elem?, take, drop,
  replicate, length-append, nil_of_length, length-take, All-take, take_all-append, drop_all-append,
  All, All-append,
}
use sapi_game.Base.Maps.{map_get, map_set, map_delete}

pub data MembershipType : Type 0 where
  added removed : MembershipType

pub data ChangeReason : Type 0 where
  manual predicate group_clear invalid_purge : ChangeReason
  given : ℕ → ChangeReason

-- What `changed.publish` sends out.
pub record GroupMembershipChange : Type 0 where
  pub type : MembershipType
  pub player : ℕ
  pub reason : ChangeReason

pub record PlayerGroup : Type 0 where
  pub players : List ℕ
  pub players_by_id : List (ℕ × ℕ)

abbrev pub Changes : Type 0
Changes = List GroupMembershipChange

abbrev pub removed_event : ChangeReason → ℕ → GroupMembershipChange
removed_event reason player = record { type = removed; player = player; reason = reason }

-- `array.indexOf(x)` and `splice(index, 1)` in one: none for -1.
abbrev pub remove_first : ℕ → List ℕ → Option (List ℕ)
remove_first x [] = none
remove_first x (y ∷ ys) =
    let rest = remove_first x ys in
    if x == y then some ys else elim rest [ none ↦ none | some zs ↦ some (y ∷ zs) ]

abbrev pub find : (ℕ → Bool) → List ℕ → Option ℕ
find test [] = none
find test (x ∷ xs) = let rest = find test xs in if test x then some x else rest

abbrev pub find_index : (ℕ → Bool) → List ℕ → Option ℕ
find_index test [] = none
find_index test (x ∷ xs) =
    let rest = find_index test xs in
    if test x then some 0 else elim rest [ none ↦ none | some n ↦ some (suc n) ]

abbrev pub filter : (ℕ → Bool) → List ℕ → List ℕ
filter test [] = []
filter test (x ∷ xs) = let rest = filter test xs in if test x then x ∷ rest else rest

-- The loop of `removeWhere`, with the two lists it pushes on.
abbrev pub split_by : (ℕ → Bool) → List ℕ → List ℕ → List ℕ → List ℕ × List ℕ
split_by test [] out kept = (out, kept)
split_by test (x ∷ xs) out kept =
    if test x
    then split_by test xs (out ++ (x ∷ [])) kept
    else split_by test xs out (kept ++ (x ∷ []))

module _ (id : ℕ → ℕ) where
  -- The loop of `rebuildIndex`.
  unfoldable pub index_all : List ℕ → List (ℕ × ℕ) → List (ℕ × ℕ)
  index_all [] index = index
  index_all (player ∷ players) index = elim (map_get (id player) index) [
    | some known ↦ index_all players index
    | none ↦ index_all players (map_set (id player) player index)
  ]

  unfoldable pub rebuild_index : PlayerGroup → PlayerGroup
  rebuild_index g = record g { players_by_id = index_all g.players [] }

  -- The constructor; none where it throws.
  unfoldable pub new_group : (ℕ → Bool) → List ℕ → Option PlayerGroup
  new_group instance_of players = elim (find (λ player. not (instance_of player)) players) [
    | some stranger ↦ none
    | none ↦ some (rebuild_index (record { players = players; players_by_id = [] }))
  ]

  unfoldable pub size : PlayerGroup → ℕ
  size g = length g.players

  unfoldable pub get_by_id : ℕ → PlayerGroup → Option ℕ
  get_by_id key g = map_get key g.players_by_id

  unfoldable pub has_id : ℕ → PlayerGroup → Bool
  has_id key g = elim (map_get key g.players_by_id) [ none ↦ false | some player ↦ true ]

  -- none where `add` throws
  unfoldable pub add : (ℕ → Bool) → ℕ → PlayerGroup → Option (PlayerGroup × Changes)
  add instance_of player g =
      if not (instance_of player)
      then none
      else if has_id (id player) g
      then some (g, [])
      else some (
        record {
          players = g.players ++ (player ∷ []);
          players_by_id = map_set (id player) player g.players_by_id;
        },
        record { type = added; player = player; reason = manual } ∷ [],
      )

  -- The index after a player was taken out: the next one of that id takes its place.
  unfoldable pub restore_id : ℕ → List ℕ → List (ℕ × ℕ) → List (ℕ × ℕ)
  restore_id key players index = elim (find (λ player. id player == key) players) [
    | none ↦ index
    | some duplicate ↦ map_set (id duplicate) duplicate index
  ]

  -- `delete`, of which only the id of its argument matters
  unfoldable pub delete : ℕ → ChangeReason → PlayerGroup → PlayerGroup × Changes
  delete key reason g = elim (map_get key g.players_by_id) [
    | none ↦ (g, [])
    | some indexed ↦ elim (remove_first indexed g.players) [
      | none ↦ (rebuild_index g, [])
      | some players ↦ (
        record {
          players = players;
          players_by_id = restore_id (id indexed) players (map_delete (id indexed) g.players_by_id);
        },
        removed_event reason indexed ∷ [],
      )
    ]
  ]

  unfoldable pub remove_where :
      (ℕ → Bool) → ChangeReason → PlayerGroup → List ℕ × PlayerGroup × Changes
  remove_where test reason g =
      let (out, retained) = split_by test g.players [] [] in
      if length out == 0
      then (out, g, [])
      else (out, rebuild_index (record g { players = retained }), map (removed_event reason) out)

  unfoldable pub clear : PlayerGroup → PlayerGroup × Changes
  clear g =
      if length g.players == 0
      then (g, [])
      else (record { players = []; players_by_id = [] }, map (removed_event group_clear) g.players)

  unfoldable pub clear_invalid : (ℕ → Bool) → PlayerGroup → PlayerGroup × Changes
  clear_invalid is_valid g =
      let (out, purged, changes) = remove_where (λ player. not (is_valid player)) invalid_purge g in
      (purged, changes)

  unfoldable pub clone : (ℕ → Bool) → PlayerGroup → Option PlayerGroup
  clone instance_of g = new_group instance_of g.players

unfoldable pub valid_size : (ℕ → Bool) → List ℕ → ℕ
valid_size is_valid [] = 0
valid_size is_valid (player ∷ players) =
    let count = valid_size is_valid players in if is_valid player then suc count else count

-- `player` of a GamePlayer is the native player while it is online.
unfoldable pub get_all_players : (ℕ → Option ℕ) → List ℕ → List ℕ
get_all_players native [] = []
get_all_players native (player ∷ players) =
    let rest = get_all_players native players in
    elim (native player) [ none ↦ rest | some online ↦ online ∷ rest ]
