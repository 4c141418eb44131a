-- ===== src/Participation/Tests.antt =====
-- The theorems on packages/core/src/participation, each applied to a concrete manager: player 1 is
-- in game 10, player 2 in game 20, and games 10 and 20 have an observer each.
use sapi_game.Base.{
  ℕ, ◌≡◌, refl, ◌⊎◌, true, false, not, ◌&&◌, ◌||◌, Option, none, some, [], ◌∷◌, arith, ◌==◌,
}
use sapi_game.Participation.Store.{elem, row}
use sapi_game.Participation.Policy.{Reason, participating_in, allowed, denied}
use sapi_game.Participation.Manager.{
  ParticipationChange, ParticipationManager, leave_reason, new_manager, has, get_games, get_players,
  evaluate_join, add_membership, join, join_all, leave, leave_all, release_game,
}
use sapi_game.Participation.Manager.{check_all, kept_reason}
use sapi_game.Participation.Policy.{exclusive_policy}
use sapi_game.Participation.Index.{Agrees, new_manager-Agrees, add_membership-Agrees}
use sapi_game.Participation.Reach.{
  Exclusive, Reached, here, then_step, by_join, by_join_all, by_leave, Reached-Agrees,
  Reached-Exclusive,
}
use sapi_game.Participation.Joining.{join_all_atomic, join_outcome, join_all_joins}
use sapi_game.Participation.Leaving.{leave_outcome, leave_all_outcome, release_game_outcome}
use sapi_game.Participation.View.{
  GameParticipation, view_has, view_get_all, view_size, view_clear_for_dispose,
  view_clear_for_dispose_empties,
}

abbrev idle : ℕ → ParticipationChange → ParticipationManager → ParticipationManager
idle callback event m = m

abbrev two_games : ParticipationManager
two_games = add_membership 2 20 (add_membership 1 10 new_manager)

two_games-Agrees : Agrees two_games
two_games-Agrees = add_membership-Agrees 2 20 _ (add_membership-Agrees 1 10 _ new_manager-Agrees)

-- After a join, a batch that is refused and a leave.
abbrev later : ParticipationManager
later =
    (leave idle 1 10 leave_reason
      (join_all idle (3 ∷ 1 ∷ []) 20 (join idle 1 10 new_manager).1).1).1

later-Reached : Reached idle new_manager later
later-Reached =
    then_step (then_step (then_step here (by_join 1 10)) (by_join_all (3 ∷ 1 ∷ []) 20))
      (by_leave 1 10 leave_reason)

Reached-Agrees_example : Agrees later
Reached-Agrees_example =
    Reached-Agrees idle new_manager later (λ c e n a. a) new_manager-Agrees later-Reached

new_manager-Exclusive : Exclusive new_manager
unfolding new_manager row
new_manager-Exclusive = (refl, λ p. omega arith)

Reached-Exclusive_example : Exclusive later
Reached-Exclusive_example =
    Reached-Exclusive idle new_manager later (λ c e n a. a) new_manager-Exclusive later-Reached

join_all_atomic_example :
    ((join_all idle (3 ∷ 1 ∷ []) 20 two_games).1 ≡ two_games)
    × (elem 1 (3 ∷ 1 ∷ []) ≡ true)
    × (has 1 20 two_games ≡ false)
    × ((why : Option Reason) × (evaluate_join 1 20 two_games ≡ denied why))
unfolding join_all check_all has row add_membership new_manager evaluate_join exclusive_policy
    kept_reason
join_all_atomic_example =
    join_all_atomic idle (3 ∷ 1 ∷ []) 20 two_games 1 (some (participating_in (10 ∷ []))) refl

join_outcome_example :
    (has 1 30 two_games ≡ true ⊎ evaluate_join 1 30 two_games ≡ allowed)
      × ((join idle 1 30 two_games).0 ≡ allowed)
      × ((q h : ℕ)
          → has q h (join idle 1 30 two_games).1 ≡ (q == 1 && h == 30 || has q h two_games))
      × (join idle 1 30 (join idle 1 30 two_games).1 ≡ (allowed, (join idle 1 30 two_games).1))
    ⊎ (has 1 30 two_games ≡ false)
      × ((reason : Option Reason) × (evaluate_join 1 30 two_games ≡ denied reason)
          × (join idle 1 30 two_games ≡ (denied reason, two_games)))
join_outcome_example = join_outcome idle (λ c e m. refl) 1 30 two_games

join_all_joins_example :
    has 4 20 (join_all idle (4 ∷ 2 ∷ 4 ∷ []) 20 two_games).1
    ≡ (elem 4 (4 ∷ 2 ∷ 4 ∷ []) && 20 == 20 || has 4 20 two_games)
unfolding join_all check_all has row add_membership new_manager evaluate_join exclusive_policy
join_all_joins_example = join_all_joins idle (λ c e m. refl) (4 ∷ 2 ∷ 4 ∷ []) 20 4 20 two_games refl

leave_outcome_example :
    ((leave idle 1 10 leave_reason two_games).0 ≡ has 1 10 two_games)
    × ((q h : ℕ)
        → has q h (leave idle 1 10 leave_reason two_games).1
          ≡ (not (q == 1 && h == 10) && has q h two_games))
leave_outcome_example = leave_outcome idle (λ c e m. refl) 1 10 leave_reason two_games

leave_all_outcome_example :
    ((leave_all idle 1 two_games).0 ≡ get_games 1 two_games)
    × ((q h : ℕ) → has q h (leave_all idle 1 two_games).1 ≡ (not (q == 1) && has q h two_games))
leave_all_outcome_example = leave_all_outcome idle (λ c e m. refl) 1 two_games

release_game_outcome_example :
    ((release_game idle 20 false none two_games).0 ≡ get_players 20 two_games)
    × ((q h : ℕ)
        → has q h (release_game idle 20 false none two_games).1
          ≡ (not (h == 20) && has q h two_games))
release_game_outcome_example =
    release_game_outcome idle (λ c e m. refl) 20 false none two_games two_games-Agrees

abbrev view_of_20 : GameParticipation
view_of_20 = record { game_key = 20; tracked = true }

view_clear_for_dispose_empties_example :
    (view_get_all view_of_20 (view_clear_for_dispose idle view_of_20 two_games).1 ≡ [])
    × (view_size view_of_20 (view_clear_for_dispose idle view_of_20 two_games).1 ≡ 0)
    × ((id : ℕ)
        → view_has view_of_20 id (view_clear_for_dispose idle view_of_20 two_games).1 ≡ false)
view_clear_for_dispose_empties_example =
    view_clear_for_dispose_empties idle view_of_20 two_games two_games-Agrees
