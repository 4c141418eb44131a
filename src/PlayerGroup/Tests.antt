-- ===== src/PlayerGroup/Tests.antt =====
-- The theorems on packages/core/src/gamePlayer/playerGroup.ts, each applied to a concrete group. The
-- id of player n is n / 2: 2 and 3 are two wrappers of one player. Odd ones are not valid.
use sapi_game.Base.{ℕ, ◌/◌, ◌%◌, ◌≡◌, refl, Bool, true, not, none, some, [], ◌∷◌, map, ◌==◌}
use sapi_game.PlayerGroup.{
  PlayerGroup, manual, removed_event, filter, new_group, rebuild_index, delete, remove_where,
  clear_invalid,
}
use sapi_game.PlayerGroup.Index.{
  first_of, WellIndexed, by_new, then_step, by_delete, by_clear_invalid, rebuild_index-WellIndexed,
}
use sapi_game.PlayerGroup.Members.{
  Reached-WellIndexed, delete_first, remove_where_partition, drop_first,
}

abbrev half : ℕ → ℕ
half n = n / 2

abbrev even : ℕ → Bool
even n = n % 2 == 0

abbrev any_player : ℕ → Bool
any_player n = true

abbrev four : PlayerGroup
four = rebuild_index half (record { players = 2 ∷ 3 ∷ 4 ∷ 9 ∷ []; players_by_id = [] })

four_new : new_group half any_player (2 ∷ 3 ∷ 4 ∷ 9 ∷ []) ≡ some four
unfolding new_group
four_new = refl

Reached-WellIndexed_example :
    WellIndexed half (clear_invalid half even (delete half 1 manual four).0).0
Reached-WellIndexed_example =
    Reached-WellIndexed half any_player even
      (clear_invalid half even (delete half 1 manual four).0).0
      (then_step (then_step (by_new (2 ∷ 3 ∷ 4 ∷ 9 ∷ []) four four_new) (by_delete 1 manual))
        by_clear_invalid)

delete_first_example :
    ((delete half 1 manual four).0.players ≡ drop_first half 1 four.players)
    × ((delete half 1 manual four).1
        ≡ elim (first_of half 1 four.players) [ none ↦ [] | some p ↦ removed_event manual p ∷ [] ])
delete_first_example =
    delete_first half 1 manual four
      (rebuild_index-WellIndexed half (record { players = 2 ∷ 3 ∷ 4 ∷ 9 ∷ []; players_by_id = [] }))

remove_where_partition_example :
    ((remove_where half even manual four).0 ≡ filter even four.players)
    × ((remove_where half even manual four).1.players ≡ filter (λ x. not (even x)) four.players)
    × ((remove_where half even manual four).2
        ≡ map (removed_event manual) (filter even four.players))
remove_where_partition_example = remove_where_partition half even manual four
