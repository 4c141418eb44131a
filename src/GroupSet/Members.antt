-- ===== src/GroupSet/Members.antt =====
-- The players of a PlayerGroupSet: each id once, by the first group that has it.
use sapi_game.Base.{
  ℕ, suc, ◌+◌, ◌≡◌, refl, sym, inl, inr, Bool, false, not, ◌&&◌, ◌||◌, none, some, List, [], ◌∷◌,
  ◌++◌, map, append-nil, append_assoc, arith, if◌then◌else◌, Bool-cases, length, length-append,
}
use sapi_game.Base.Maps.{map_set}
use sapi_game.Participation.Store.{Ids, elem, elem-append, AllDistinct}
use sapi_game.PlayerGroup.{filter}
use sapi_game.GroupSet.{
  Groups, values, has_key, collect_group, collect, get_all_players, some_in_group, some_in,
  some_player, count_in_group, count_in, valid_size,
}

-- All players of the groups, one group after the other.
abbrev pub flat : Groups → List ℕ
flat [] = []
flat ((r, g) ∷ gs) = g.players ++ flat gs

abbrev pub any : (ℕ → Bool) → List ℕ → Bool
any test [] = false
any test (x ∷ xs) = test x || any test xs

abbrev keys : List (ℕ × ℕ) → Ids
keys [] = []
keys ((k, v) ∷ m) = k ∷ keys m

has_key-elem : (k : ℕ) (m : List (ℕ × ℕ)) → has_key k m ≡ elem k (keys m)
has_key-elem k [] = refl
has_key-elem k ((a, v) ∷ m) = ground (arith, has_key-elem k m)

values-map_set :
    (k v : ℕ) (m : List (ℕ × ℕ))
    → elem k (keys m) ≡ false
    → values (map_set k v m) ≡ values m ++ (v ∷ [])
values-map_set k v [] h = refl
values-map_set k v ((a, w) ∷ m) h = ground (arith, values-map_set k v m)

keys-map_set :
    (k v : ℕ) (m : List (ℕ × ℕ))
    → elem k (keys m) ≡ false
    → keys (map_set k v m) ≡ keys m ++ (k ∷ [])
keys-map_set k v [] h = refl
keys-map_set k v ((a, w) ∷ m) h = ground (arith, keys-map_set k v m)

module _ (id : ℕ → ℕ) where
  -- The players whose id is not among those seen, nor that of an earlier player.
  fresh : Ids → List ℕ → List ℕ
  fresh seen [] = []
  fresh seen (p ∷ ps) =
      if elem (id p) seen then fresh seen ps else p ∷ fresh (seen ++ (id p ∷ [])) ps

  -- The ids seen after the players.
  saw : Ids → List ℕ → Ids
  saw seen [] = seen
  saw seen (p ∷ ps) = if elem (id p) seen then saw seen ps else saw (seen ++ (id p ∷ [])) ps

  fresh-append :
      (seen : Ids) (ps qs : List ℕ)
      → fresh seen (ps ++ qs) ≡ fresh seen ps ++ fresh (saw seen ps) qs
  unfolding fresh saw
  fresh-append seen [] qs = refl
  fresh-append seen (p ∷ ps) qs =
      ground (arith, fresh-append seen ps qs, fresh-append (seen ++ (id p ∷ [])) ps qs)

  collect_group-fresh :
      (ps : List ℕ) (m : List (ℕ × ℕ))
      → (values (collect_group id ps m) ≡ values m ++ fresh (keys m) ps)
        × (keys (collect_group id ps m) ≡ saw (keys m) ps)
  unfolding fresh saw collect_group
  collect_group-fresh [] m = (sym (append-nil (values m)), refl)
  collect_group-fresh (p ∷ ps) m = elim (Bool-cases (elem (id p) (keys m))) [
    | inl known ↦ ground (arith, known, has_key-elem (id p) m, collect_group-fresh ps m)
    | inr new ↦ ground (
      arith,
      new,
      has_key-elem (id p) m,
      collect_group-fresh ps (map_set (id p) p m),
      values-map_set (id p) p m new,
      keys-map_set (id p) p m new,
      append_assoc (values m) (p ∷ []) (fresh (keys m ++ (id p ∷ [])) ps),
    )
  ]

  collect-fresh :
      (gs : Groups) (m : List (ℕ × ℕ))
      → values (collect id gs m) ≡ values m ++ fresh (keys m) (flat gs)
  unfolding collect fresh
  collect-fresh [] m = sym (append-nil (values m))
  collect-fresh ((r, g) ∷ gs) m =
      let (vals, ks) = collect_group-fresh g.players m in
      rw (collect-fresh gs (collect_group id g.players m), vals, ks, fresh-append, append_assoc)
        refl

  some_in_group-fresh :
      (test : ℕ → Bool) (ps : List ℕ) (seen : Ids)
      → some_in_group id test ps seen
        ≡ (if any test (fresh seen ps) then none else some (saw seen ps))
  unfolding some_in_group fresh saw
  some_in_group-fresh test [] seen = refl
  some_in_group-fresh test (p ∷ ps) seen =
      ground
        (arith, some_in_group-fresh test ps seen, some_in_group-fresh test ps (seen ++ (id p ∷ [])))

  any-append :
      (test : ℕ → Bool) (xs ys : List ℕ) → any test (xs ++ ys) ≡ (any test xs || any test ys)
  any-append test [] ys = refl
  any-append test (x ∷ xs) ys = ground (arith, any-append test xs ys)

  some_in-fresh :
      (test : ℕ → Bool) (gs : Groups) (seen : Ids)
      → some_in id test gs seen ≡ any test (fresh seen (flat gs))
  unfolding some_in fresh
  some_in-fresh test [] seen = refl
  some_in-fresh test ((r, g) ∷ gs) seen = ground (
    arith,
    some_in_group-fresh test g.players seen,
    some_in-fresh test gs (saw seen g.players),
    fresh-append seen g.players (flat gs),
    any-append test (fresh seen g.players) (fresh (saw seen g.players) (flat gs)),
  )

  count_in_group-fresh :
      (is_valid : ℕ → Bool) (ps : List ℕ) (count : ℕ) (seen : Ids)
      → count_in_group id is_valid ps count seen
        ≡ (count + length (filter is_valid (fresh seen ps)), saw seen ps)
  unfolding count_in_group fresh saw
  count_in_group-fresh is_valid [] count seen = ground arith
  count_in_group-fresh is_valid (p ∷ ps) count seen = ground (
    arith,
    count_in_group-fresh is_valid ps count seen,
    count_in_group-fresh is_valid ps count (seen ++ (id p ∷ [])),
    count_in_group-fresh is_valid ps (suc count) (seen ++ (id p ∷ [])),
  )

  filter-append :
      (test : ℕ → Bool) (xs ys : List ℕ) → filter test (xs ++ ys) ≡ filter test xs ++ filter test ys
  filter-append test [] ys = refl
  filter-append test (x ∷ xs) ys = ground (arith, filter-append test xs ys)

  count_in-fresh :
      (is_valid : ℕ → Bool) (gs : Groups) (count : ℕ) (seen : Ids)
      → count_in id is_valid gs count seen ≡ count + length (filter is_valid (fresh seen (flat gs)))
  unfolding count_in fresh
  count_in-fresh is_valid [] count seen = ground arith
  count_in-fresh is_valid ((r, g) ∷ gs) count seen = ground (
    arith,
    count_in_group-fresh is_valid g.players count seen,
    count_in-fresh is_valid gs (count + length (filter is_valid (fresh seen g.players)))
        (saw seen g.players),
    fresh-append seen g.players (flat gs),
    filter-append is_valid (fresh seen g.players) (fresh (saw seen g.players) (flat gs)),
    length-append (filter is_valid (fresh seen g.players))
        (filter is_valid (fresh (saw seen g.players) (flat gs))),
  )

  get_all_players-fresh : (gs : Groups) → get_all_players id gs ≡ fresh [] (flat gs)
  unfolding get_all_players
  get_all_players-fresh gs = collect-fresh gs []

  -- some finds a player that passes the test exactly when one of get_all_players does, though it
  -- stops early and builds no list.
  pub some-get_all_players :
      (test : ℕ → Bool) (gs : Groups) → some_player id test gs ≡ any test (get_all_players id gs)
  unfolding some_player
  some-get_all_players test gs = rw (get_all_players-fresh gs) (some_in-fresh test gs [])

  -- valid_size is the number of the valid among get_all_players.
  pub valid_size-get_all_players :
      (is_valid : ℕ → Bool) (gs : Groups)
      → valid_size id is_valid gs ≡ length (filter is_valid (get_all_players id gs))
  unfolding valid_size
  valid_size-get_all_players is_valid gs =
      rw (get_all_players-fresh gs) (omega (arith, count_in-fresh is_valid gs 0 []))

  fresh-AllDistinct :
      (seen : Ids) (ps : List ℕ)
      → AllDistinct (map id (fresh seen ps))
        × ((x : ℕ) → elem x (map id (fresh seen ps)) ≡ (not (elem x seen) && elem x (map id ps)))
  unfolding fresh
  fresh-AllDistinct seen [] = (tt, λ x. ground arith)
  fresh-AllDistinct seen (p ∷ ps) = elim (Bool-cases (elem (id p) seen)) [
    | inl known ↦
        let (once, same) = fresh-AllDistinct seen ps in
        rw known (once, λ x. ground (arith, same x, known))
    | inr new ↦
        let (once, same) = fresh-AllDistinct (seen ++ (id p ∷ [])) ps in
        rw new (
          (ground (arith, same (id p), elem-append (id p) seen (id p ∷ [])), once),
          λ x. ground (arith, same x, elem-append x seen (id p ∷ []), new),
        )
  ]

  -- get_all_players has each id once, and has exactly the ids of the players of the groups.
  pub get_all_players_ids :
      (gs : Groups)
      → AllDistinct (map id (get_all_players id gs))
        × ((x : ℕ) → elem x (map id (get_all_players id gs)) ≡ elem x (map id (flat gs)))
  get_all_players_ids gs = rw (get_all_players-fresh gs) (fresh-AllDistinct [] (flat gs))
