-- ===== src/GroupSet/Tests.antt =====
-- The theorems on packages/core/src/gamePlayer/groupSet.ts, each applied to two groups that share a
-- player. The id of player n is n / 2.
use sapi_game.Base.{ℕ, ◌/◌, ◌%◌, ◌≡◌, Bool, List, [], ◌∷◌, map, ◌==◌, length}
use sapi_game.Participation.Store.{elem, AllDistinct}
use sapi_game.PlayerGroup.{PlayerGroup, filter, rebuild_index}
use sapi_game.GroupSet.{Groups, get_all_players, some_player, valid_size}
use sapi_game.GroupSet.Members.{
  flat, any, some-get_all_players, valid_size-get_all_players, get_all_players_ids,
}

abbrev half : ℕ → ℕ
half n = n / 2

abbrev even : ℕ → Bool
even n = n % 2 == 0

abbrev group_of : List ℕ → PlayerGroup
group_of players = rebuild_index half (record { players = players; players_by_id = [] })

abbrev teams : Groups
teams = (1, group_of (2 ∷ 4 ∷ [])) ∷ (2, group_of (3 ∷ 7 ∷ [])) ∷ []

some-get_all_players_example : some_player half even teams ≡ any even (get_all_players half teams)
some-get_all_players_example = some-get_all_players half even teams

valid_size-get_all_players_example :
    valid_size half even teams ≡ length (filter even (get_all_players half teams))
valid_size-get_all_players_example = valid_size-get_all_players half even teams

get_all_players_ids_example :
    AllDistinct (map half (get_all_players half teams))
    × ((x : ℕ) → elem x (map half (get_all_players half teams)) ≡ elem x (map half (flat teams)))
get_all_players_ids_example = get_all_players_ids half teams
