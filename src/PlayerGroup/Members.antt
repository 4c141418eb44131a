-- ===== src/PlayerGroup/Members.antt =====
-- Who is in a PlayerGroup after each operation, and what it publishes.
use sapi_game.Base.{
  ℕ, ◌≡◌, refl, sym, subst, inl, inr, Bool, false, not, none, some, List, [], ◌∷◌, ◌++◌, map,
  append-nil, append_assoc, arith, ◌==◌, if◌then◌else◌, Bool-cases, Option-cases, length,
  nil_of_length,
}
use sapi_game.Base.Maps.{map_set}
use sapi_game.PlayerGroup.{
  PlayerGroup, Changes, ChangeReason, removed_event, remove_first, filter, split_by, rebuild_index,
  add, delete, remove_where, clear_invalid,
}
use sapi_game.PlayerGroup.Index.{
  first_of_id, first_of, WellIndexed, Step, by_add, by_delete, by_remove_where, by_clear,
  by_clear_invalid, Reached, by_new, then_step, new_group-WellIndexed, add-parts,
  extended-WellIndexed, delete-WellIndexed, remove_where-WellIndexed, clear-WellIndexed,
  delete-parts,
}

-- The list less its first player of an id.
abbrev pub drop_first : (ℕ → ℕ) → ℕ → List ℕ → List ℕ
drop_first id key [] = []
drop_first id key (x ∷ xs) = let rest = drop_first id key xs in if id x == key then xs else x ∷ rest

split_by-filter :
    (test : ℕ → Bool) (xs out kept : List ℕ)
    → split_by test xs out kept ≡ (out ++ filter test xs, kept ++ filter (λ x. not (test x)) xs)
split_by-filter test [] out kept = ground (arith, append-nil out, append-nil kept)
split_by-filter test (x ∷ xs) out kept = ground (
  arith,
  split_by-filter test xs (out ++ (x ∷ [])) kept,
  split_by-filter test xs out (kept ++ (x ∷ [])),
  append_assoc out (x ∷ []) (filter test xs),
  append_assoc kept (x ∷ []) (filter (λ x. not (test x)) xs),
)

filter_none :
    (test : ℕ → Bool) (xs : List ℕ)
    → length (filter test xs) ≡ 0
    → filter (λ x. not (test x)) xs ≡ xs
filter_none test [] h = refl
filter_none test (x ∷ xs) h = ground (arith, filter_none test xs)

module _ (id : ℕ → ℕ) where
  add-WellIndexed :
      (instance_of : ℕ → Bool) (p : ℕ) (g h : PlayerGroup) (changes : Changes)
      → WellIndexed id g
      → add id instance_of p g ≡ some (h, changes)
      → WellIndexed id h
  unfolding add
  add-WellIndexed instance_of p g h changes w e = elim (Bool-cases (instance_of p)) [
    | inr stranger ↦ absurd (add-stranger stranger)
    | inl fine ↦ elim (add-parts id instance_of p g fine) [
      | inl (known, e') ↦ let same : g ≡ h = ground (arith, e', e) in subst (WellIndexed id) same w
      | inr (new, e') ↦
          let more : PlayerGroup = record {
            players = g.players ++ (p ∷ []);
            players_by_id = map_set (id p) p g.players_by_id;
          } in
          let same : more ≡ h = ground (arith, e', e) in
          subst (WellIndexed id) same (extended-WellIndexed id p g w new)
    ]
  ]
    where
      add-stranger : instance_of p ≡ false → ⊥
      add-stranger stranger = ground (arith, e, stranger)

  Step-WellIndexed :
      (instance_of is_valid : ℕ → Bool) (g h : PlayerGroup)
      → WellIndexed id g
      → Step id instance_of is_valid g h
      → WellIndexed id h
  unfolding clear_invalid
  Step-WellIndexed instance_of is_valid g _ w (by_add p h changes e) =
      add-WellIndexed instance_of p g h changes w e
  Step-WellIndexed instance_of is_valid g _ w (by_delete key reason) =
      delete-WellIndexed id key reason g w
  Step-WellIndexed instance_of is_valid g _ w (by_remove_where test reason) =
      remove_where-WellIndexed id test reason g w
  Step-WellIndexed instance_of is_valid g _ w by_clear = clear-WellIndexed id g w
  Step-WellIndexed instance_of is_valid g _ w by_clear_invalid = remove_where-WellIndexed id _ _ g w

  -- In every group that add, delete, removeWhere, clear and clearInvalid make of a new one, the
  -- index gives for every id the first player of that id in the list, or nothing.
  pub Reached-WellIndexed :
      (instance_of is_valid : ℕ → Bool) (g : PlayerGroup)
      → Reached id instance_of is_valid g
      → WellIndexed id g
  Reached-WellIndexed instance_of is_valid g (by_new players _ e) =
      new_group-WellIndexed id instance_of players g e
  Reached-WellIndexed instance_of is_valid g (then_step r s) =
      Step-WellIndexed instance_of is_valid _ g (Reached-WellIndexed instance_of is_valid _ r) s

  remove_first-drop_first :
      (key p : ℕ) (xs ys : List ℕ)
      → first_of id key xs ≡ some p
      → remove_first p xs ≡ some ys
      → ys ≡ drop_first id key xs
  remove_first-drop_first key p [] ys first gone = ground arith
  remove_first-drop_first key p (x ∷ xs) ys first gone = elim (Option-cases (remove_first p xs)) [
    | inl absent ↦ ground (arith, absent, first_of_id id key xs p)
    | inr (zs, f) ↦ ground (arith, f, remove_first-drop_first key p xs zs, first_of_id id key xs p)
  ]

  drop_first-absent :
      (key : ℕ) (xs : List ℕ) → first_of id key xs ≡ none → drop_first id key xs ≡ xs
  drop_first-absent key [] h = refl
  drop_first-absent key (x ∷ xs) h = ground (arith, drop_first-absent key xs)

  -- In a group whose index is right, delete takes the first player of the id out of the list and
  -- publishes that it was removed; with no such player it changes and publishes nothing.
  pub delete_first :
      (key : ℕ) (reason : ChangeReason) (g : PlayerGroup)
      → WellIndexed id g
      → ((delete id key reason g).0.players ≡ drop_first id key g.players)
        × ((delete id key reason g).1
            ≡ elim (first_of id key g.players) [ none ↦ [] | some p ↦ removed_event reason p ∷ [] ])
  delete_first key reason g w = elim (delete-parts id key reason g w) [
    | inl (absent, same) ↦ rw (same, absent) (sym (drop_first-absent key g.players absent), refl)
    | inr (p, ys, first, gone, same) ↦
        rw (same, first) (remove_first-drop_first key p g.players ys first gone, refl)
  ]

  -- remove_where returns the players that pass the test, in their order, leaves the others in
  -- theirs, and publishes one removal for each that it returns.
  pub remove_where_partition :
      (test : ℕ → Bool) (reason : ChangeReason) (g : PlayerGroup)
      → ((remove_where id test reason g).0 ≡ filter test g.players)
        × ((remove_where id test reason g).1.players ≡ filter (λ x. not (test x)) g.players)
        × ((remove_where id test reason g).2 ≡ map (removed_event reason) (filter test g.players))
  unfolding remove_where rebuild_index
  remove_where_partition test reason g =
      let split = split_by-filter test g.players [] [] in
      elim (Bool-cases (length (filter test g.players) == 0)) [
        | inl nothing ↦
            let whole = filter_none test g.players (ground (arith, nothing)) in
            let empty = nil_of_length (filter test g.players) (ground (arith, nothing)) in
            rw (split, nothing, remove_where) (refl, sym whole, rw empty refl)
        | inr something ↦ rw (split, something, remove_where) (refl, refl, refl)
      ]
