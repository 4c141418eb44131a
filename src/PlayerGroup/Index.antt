-- ===== src/PlayerGroup/Index.antt =====
-- The index by id of a PlayerGroup: it names the first player of each id, after every operation.
use sapi_game.Base.{
  ℕ, ◌≡◌, refl, subst, ◌⊎◌, inl, inr, Bool, true, false, not, Option, none, some, List, [], ◌∷◌,
  ◌++◌, arith, ◌==◌, if◌then◌else◌, Bool-cases, Option-cases, length,
}
use sapi_game.Base.Maps.{map_get, map_set, map_delete, map_get-map_set, map_get-map_delete}
use sapi_game.PlayerGroup.{
  PlayerGroup, Changes, ChangeReason, removed_event, remove_first, find, split_by, index_all,
  rebuild_index, new_group, get_by_id, has_id, add, restore_id, delete, remove_where, clear,
  clear_invalid,
}
use sapi_game.PlayerGroup.{added}
use sapi_game.PlayerGroup.{manual}

module _ (id : ℕ → ℕ) where
  abbrev pub first_of : ℕ → List ℕ → Option ℕ
  first_of key players = find (λ player. id player == key) players

  -- The index gives the first player of each id.
  abbrev pub WellIndexed : PlayerGroup → Type 0
  WellIndexed g = (key : ℕ) → get_by_id id key g ≡ first_of key g.players

  abbrev or_else : Option ℕ → Option ℕ → Option ℕ
  or_else none b = b
  or_else (some a) b = some a

  map_get-index_all :
      (key : ℕ) (players : List ℕ) (index : List (ℕ × ℕ))
      → map_get key (index_all id players index)
        ≡ or_else (map_get key index) (first_of key players)
  unfolding index_all
  map_get-index_all key [] index = ground arith
  map_get-index_all key (p ∷ players) index = elim (Option-cases (map_get (id p) index)) [
    | inl absent ↦ ground (
      arith,
      absent,
      map_get-index_all key players (map_set (id p) p index),
      map_get-map_set key (id p) p index,
    )
    | inr (known, e) ↦ ground (arith, e, map_get-index_all key players index)
  ]

  pub rebuild_index-WellIndexed : (g : PlayerGroup) → WellIndexed (rebuild_index id g)
  unfolding rebuild_index get_by_id
  rebuild_index-WellIndexed g key = map_get-index_all key g.players []

  find_append :
      (key : ℕ) (xs ys : List ℕ)
      → first_of key (xs ++ ys) ≡ or_else (first_of key xs) (first_of key ys)
  find_append key [] ys = refl
  find_append key (x ∷ xs) ys = ground (arith, find_append key xs ys)

  -- What taking the first copy of a player out leaves for an id.
  first_of-remove_first :
      (key p : ℕ) (xs ys : List ℕ)
      → remove_first p xs ≡ some ys
      → (id p == key) ≡ false
      → first_of key ys ≡ first_of key xs
  first_of-remove_first key p [] ys e out = ground arith
  first_of-remove_first key p (x ∷ xs) ys e out = elim (Option-cases (remove_first p xs)) [
    | inl gone ↦ ground (arith, gone)
    | inr (zs, f) ↦ ground (arith, f, first_of-remove_first key p xs zs f out)
  ]

  pub first_of_id : (key : ℕ) (xs : List ℕ) (p : ℕ) → first_of key xs ≡ some p → id p ≡ key
  first_of_id key [] p e = ground arith
  first_of_id key (x ∷ xs) p e = ground (arith, first_of_id key xs p)

  pub first_of-removes :
      (key : ℕ) (xs : List ℕ) (p : ℕ)
      → first_of key xs ≡ some p
      → (ys : List ℕ) × (remove_first p xs ≡ some ys)
  first_of-removes key [] p e = absurd (ground (arith, e))
  first_of-removes key (x ∷ xs) p e = elim (Bool-cases (p == x)) [
    | inl same ↦ (xs, ground (arith, same))
    | inr other ↦
        let (ys, f) = first_of-removes key xs p (ground (arith, other)) in
        (x ∷ ys, ground (arith, other, f))
  ]

  restore_id-get :
      (key a : ℕ) (players : List ℕ) (index : List (ℕ × ℕ))
      → map_get key (restore_id id a players (map_delete a index))
        ≡ (if key == a then first_of a players else map_get key index)
  unfolding restore_id
  restore_id-get key a players index = elim (Option-cases (first_of a players)) [
    | inl gone ↦ ground (arith, gone, map_get-map_delete key a index)
    | inr (d, found) ↦ ground (
      arith,
      found,
      first_of_id a players d found,
      map_get-map_set key (id d) d (map_delete a index),
      map_get-map_delete key a index,
    )
  ]

  pub new_group-WellIndexed :
      (instance_of : ℕ → Bool) (players : List ℕ) (g : PlayerGroup)
      → new_group id instance_of players ≡ some g
      → WellIndexed g
  unfolding new_group
  new_group-WellIndexed instance_of players g e key =
      elim (Option-cases (find (λ player. not (instance_of player)) players)) [
        | inr (stranger, found) ↦ absurd (ground (arith, found))
        | inl clear_of ↦
            let same : rebuild_index id (record { players = players; players_by_id = [] }) ≡ g =
              ground (arith, clear_of) in
            subst (λ h. get_by_id id key h ≡ first_of key h.players) same
              (rebuild_index-WellIndexed (record { players = players; players_by_id = [] }) key)
      ]

  pub add-parts :
      (instance_of : ℕ → Bool) (p : ℕ) (g : PlayerGroup)
      → instance_of p ≡ true
      → (has_id id (id p) g ≡ true) × (add id instance_of p g ≡ some (g, []))
        ⊎ (has_id id (id p) g ≡ false)
          × (add id instance_of p g
              ≡ some (
                record {
                  players = g.players ++ (p ∷ []);
                  players_by_id = map_set (id p) p g.players_by_id;
                },
                record { type = added; player = p; reason = manual } ∷ [],
              ))
  unfolding add
  add-parts instance_of p g fine = elim (Bool-cases (has_id id (id p) g)) [
    | inl known ↦ inl (known, rw (fine, known, add) refl)
    | inr new ↦ inr (new, rw (fine, new, add) refl)
  ]

  pub extended-WellIndexed :
      (p : ℕ) (g : PlayerGroup)
      → WellIndexed g
      → has_id id (id p) g ≡ false
      → WellIndexed (record {
        players = g.players ++ (p ∷ []);
        players_by_id = map_set (id p) p g.players_by_id;
      })
  unfolding get_by_id has_id
  extended-WellIndexed p g w new key = ground (
    arith,
    w key,
    w (id p),
    new,
    map_get-map_set key (id p) p g.players_by_id,
    find_append key g.players (p ∷ []),
  )

  pub delete-parts :
      (key : ℕ) (reason : ChangeReason) (g : PlayerGroup)
      → WellIndexed g
      → ((first_of key g.players ≡ none) × (delete id key reason g ≡ (g, [])))
        ⊎ ((p : ℕ) × (ys : List ℕ) × (first_of key g.players ≡ some p)
            × (remove_first p g.players ≡ some ys)
            × (delete id key reason g ≡ (
              record {
                players = ys;
                players_by_id = restore_id id (id p) ys (map_delete (id p) g.players_by_id);
              },
              removed_event reason p ∷ [],
            )))
  unfolding delete get_by_id
  delete-parts key reason g w = elim (Option-cases (map_get key g.players_by_id)) [
    | inl absent ↦ inl (ground (arith, absent, w key), rw (absent, delete) refl)
    | inr (p, found) ↦
        let first : first_of key g.players ≡ some p = ground (arith, found, w key) in
        let (ys, gone) = first_of-removes key g.players p first in
        inr (p, ys, first, gone, rw (found, delete, gone) refl)
  ]

  pub delete-WellIndexed :
      (key : ℕ) (reason : ChangeReason) (g : PlayerGroup)
      → WellIndexed g
      → WellIndexed (delete id key reason g).0
  unfolding get_by_id
  delete-WellIndexed key reason g w k = elim (delete-parts key reason g w) [
    | inl (absent, same) ↦ rw same (w k)
    | inr (p, ys, first, gone, same) ↦ rw same (
        ground (
          arith,
          restore_id-get k (id p) ys g.players_by_id,
          first_of-remove_first k p g.players ys gone,
          w k,
        ))
  ]

  pub remove_where-WellIndexed :
      (test : ℕ → Bool) (reason : ChangeReason) (g : PlayerGroup)
      → WellIndexed g
      → WellIndexed (remove_where id test reason g).1
  unfolding remove_where
  remove_where-WellIndexed test reason g w key =
      elim (Bool-cases (length (split_by test g.players [] []).0 == 0)) [
        | inl nothing ↦ rw (nothing, remove_where) (w key)
        | inr something ↦
            rw (something, remove_where)
              (rebuild_index-WellIndexed (record g { players = (split_by test g.players [] []).1 })
                key)
      ]

  pub clear-WellIndexed : (g : PlayerGroup) → WellIndexed g → WellIndexed (clear id g).0
  unfolding clear get_by_id
  clear-WellIndexed g w key = ground (arith, w key)

  -- One call that changes a group. An add of a player that is not of the group's class throws.
  pub data Step (instance_of is_valid : ℕ → Bool) (g : PlayerGroup) : PlayerGroup → Type 0 where
    by_add :
        (p : ℕ) (h : PlayerGroup) (changes : Changes)
        → add id instance_of p g ≡ some (h, changes)
        → Step instance_of is_valid g h
    by_delete :
        (key : ℕ) (reason : ChangeReason) → Step instance_of is_valid g (delete id key reason g).0
    by_remove_where :
        (test : ℕ → Bool) (reason : ChangeReason)
        → Step instance_of is_valid g (remove_where id test reason g).1
    by_clear : Step instance_of is_valid g (clear id g).0
    by_clear_invalid : Step instance_of is_valid g (clear_invalid id is_valid g).0

  -- The groups that such calls make of a new group.
  pub data Reached (instance_of is_valid : ℕ → Bool) : PlayerGroup → Type 0 where
    by_new :
        (players : List ℕ) (g : PlayerGroup)
        → new_group id instance_of players ≡ some g
        → Reached instance_of is_valid g
    then_step :
        {g h : PlayerGroup}
        → Reached instance_of is_valid g
        → Step instance_of is_valid g h
        → Reached instance_of is_valid h
