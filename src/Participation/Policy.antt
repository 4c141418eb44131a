-- ===== src/Participation/Policy.antt =====
-- participation/policy.ts: who may join a game.
use sapi_game.Base.{ℕ, Option, some, List, ◌==◌, if◌then◌else◌, length}
use sapi_game.Participation.Store.{Ids, elem}

-- A reason is the built-in message with the keys it names, or some other text.
pub data Reason : Type 0 where
  participating_in : Ids → Reason
  text : List ℕ → Reason

pub data ParticipationDecision : Type 0 where
  allowed : ParticipationDecision
  denied : Option Reason → ParticipationDecision

pub record ParticipationContext : Type 0 where
  pub player_id : ℕ
  pub target_game_key : ℕ
  pub current_game_keys : Ids

abbrev pub ParticipationPolicy : Type 0
ParticipationPolicy = ParticipationContext → ParticipationDecision

unfoldable pub exclusive_policy : ParticipationPolicy
exclusive_policy context =
    if length context.current_game_keys == 0
    then allowed
    else if elem context.target_game_key context.current_game_keys
    then allowed
    else denied (some (participating_in context.current_game_keys))

unfoldable pub shared_policy : ParticipationPolicy
shared_policy context = allowed
