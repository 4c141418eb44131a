-- ===== src/Participation/Manager.antt =====
-- participation/participationManager.ts. The observers are not part of it: `run` is what one
-- of them does with a change, and it may call the manager again. A callback that throws is caught
-- by the code, so `run` is the state that it leaves.
use sapi_game.Base.{
  ℕ, ◌+◌, Bool, true, false, Option, none, some, List, [], ◌∷◌, map, ltb, if◌then◌else◌, length,
}
use sapi_game.Participation.Store.{
  Ids, Store, elem, set_add, set_delete, unique, store_set, store_keep, row, store_get,
}
use sapi_game.Participation.Policy.{
  Reason, text, ParticipationDecision, allowed, denied, ParticipationPolicy, exclusive_policy,
}

pub data ChangeType : Type 0 where
  joined left : ChangeType

-- The reasons the manager itself gives, or the caller's.
pub data LeaveReason : Type 0 where
  leave_reason leave_all_reason game_clear_reason : LeaveReason
  given : ℕ → LeaveReason

pub record ParticipationChange : Type 0 where
  pub game_key : ℕ
  pub player_id : ℕ
  pub type : ChangeType
  pub reason : Option LeaveReason

pub data ParticipationBatchDecision : Type 0 where
  batch_allowed : ParticipationBatchDecision
  batch_denied : ℕ → Option Reason → ParticipationBatchDecision

-- `change_subscribers` holds the callbacks of a game, as numbers.
pub record ParticipationManager : Type 0 where
  pub memberships : Store
  pub game_members : Store
  pub change_subscribers : Store
  pub policy : ParticipationPolicy

unfoldable pub new_manager : ParticipationManager
new_manager = record {
  memberships = [];
  game_members = [];
  change_subscribers = [];
  policy = exclusive_policy;
}

unfoldable pub set_policy : ParticipationPolicy → ParticipationManager → ParticipationManager
set_policy policy m = record m { policy = policy }

unfoldable pub has : ℕ → ℕ → ParticipationManager → Bool
has player_id game_key m = elem game_key (row player_id m.memberships)

-- `has` with no game key
unfoldable pub has_any : ℕ → ParticipationManager → Bool
has_any player_id m = ltb 0 (length (row player_id m.memberships))

unfoldable pub get_games : ℕ → ParticipationManager → Ids
get_games player_id m = row player_id m.memberships

unfoldable pub get_players : ℕ → ParticipationManager → Ids
get_players game_key m = row game_key m.game_members

unfoldable pub has_players : ℕ → ParticipationManager → Bool
has_players game_key m = ltb 0 (length (row game_key m.game_members))

unfoldable pub get_player_count : ℕ → ParticipationManager → ℕ
get_player_count game_key m = length (row game_key m.game_members)

unfoldable pub player_count : ParticipationManager → ℕ
player_count m = length m.memberships

abbrev total_size : Store → ℕ
total_size [] = 0
total_size ((k, ids) ∷ s) = length ids + total_size s

unfoldable pub membership_count : ParticipationManager → ℕ
membership_count m = total_size m.memberships

unfoldable pub evaluate_join : ℕ → ℕ → ParticipationManager → ParticipationDecision
evaluate_join player_id game_key m = m.policy (record {
  player_id = player_id;
  target_game_key = game_key;
  current_game_keys = row player_id m.memberships;
})

unfoldable pub add_membership : ℕ → ℕ → ParticipationManager → ParticipationManager
add_membership player_id game_key m = record m {
  memberships = store_set player_id (set_add game_key (row player_id m.memberships)) m.memberships;
  game_members =
      store_set game_key (set_add player_id (row game_key m.game_members)) m.game_members;
}

unfoldable pub remove_membership : ℕ → ℕ → ParticipationManager → Bool × ParticipationManager
remove_membership player_id game_key m =
    if elem game_key (row player_id m.memberships)
    then (
      true,
      record m {
        memberships =
            store_keep player_id (set_delete game_key (row player_id m.memberships)) m.memberships;
        game_members = elim (store_get game_key m.game_members) [
          | none ↦ m.game_members
          | some players ↦ store_keep game_key (set_delete player_id players) m.game_members
        ];
      },
    )
    else (false, m)

-- `for (const id of ids) this.addMembership(id, gameKey)`
unfoldable pub add_members : Ids → ℕ → ParticipationManager → ParticipationManager
add_members [] game_key m = m
add_members (id ∷ ids) game_key m = add_members ids game_key (add_membership id game_key m)

unfoldable pub remove_members : Ids → ℕ → ParticipationManager → ParticipationManager
remove_members [] game_key m = m
remove_members (id ∷ ids) game_key m =
    remove_members ids game_key (remove_membership id game_key m).1

unfoldable pub remove_games : ℕ → Ids → ParticipationManager → ParticipationManager
remove_games player_id [] m = m
remove_games player_id (key ∷ keys) m =
    remove_games player_id keys (remove_membership player_id key m).1

-- The first loop of `joinAll`. A reason that is an empty text is left out.
unfoldable pub kept_reason : Option Reason → Option Reason
kept_reason none = none
kept_reason (some (text [])) = none
kept_reason (some (text (c ∷ cs))) = some (text (c ∷ cs))
kept_reason (some (Reason.participating_in ids)) = some (Reason.participating_in ids)

unfoldable pub check_all : Ids → ℕ → ParticipationManager → ParticipationBatchDecision
check_all [] game_key m = batch_allowed
check_all (id ∷ ids) game_key m =
    let rest = check_all ids game_key m in
    if has id game_key m then rest else elim (evaluate_join id game_key m) [
      | allowed ↦ rest
      | denied reason ↦ batch_denied id (kept_reason reason)
    ]

unfoldable pub not_members : Ids → ℕ → ParticipationManager → Ids
not_members [] game_key m = []
not_members (id ∷ ids) game_key m =
    let rest = not_members ids game_key m in if has id game_key m then rest else id ∷ rest

-- `options.reason ?? "game-clear"`
abbrev or_clear : Option LeaveReason → LeaveReason
or_clear none = game_clear_reason
or_clear (some reason) = reason

module _ (run : ℕ → ParticipationChange → ParticipationManager → ParticipationManager) where
  unfoldable pub call_all : Ids → ParticipationChange → ParticipationManager → ParticipationManager
  call_all [] event m = m
  call_all (callback ∷ callbacks) event m = call_all callbacks event (run callback event m)

  unfoldable pub emit_change : ParticipationChange → ParticipationManager → ParticipationManager
  emit_change event m = call_all (row event.game_key m.change_subscribers) event m

  unfoldable pub emit_all : List ParticipationChange → ParticipationManager → ParticipationManager
  emit_all [] m = m
  emit_all (event ∷ events) m = emit_all events (emit_change event m)

  unfoldable pub join : ℕ → ℕ → ParticipationManager → ParticipationDecision × ParticipationManager
  join player_id game_key m =
      if has player_id game_key m then (allowed, m) else elim (evaluate_join player_id game_key m) [
        | denied reason ↦ (denied reason, m)
        | allowed ↦ (
          allowed,
          emit_change
              (record { game_key = game_key; player_id = player_id; type = joined; reason = none })
              (add_membership player_id game_key m),
        )
      ]

  abbrev joined_events : ℕ → Ids → List ParticipationChange
  joined_events game_key =
      map (λ id. record { game_key = game_key; player_id = id; type = joined; reason = none })

  unfoldable pub join_all :
      Ids → ℕ → ParticipationManager → ParticipationBatchDecision × ParticipationManager
  join_all player_ids game_key m =
      let new_ids = not_members (unique player_ids) game_key m in
      elim (check_all (unique player_ids) game_key m) [
        | batch_denied id reason ↦ (batch_denied id reason, m)
        | batch_allowed ↦ (
          batch_allowed,
          emit_all (joined_events game_key new_ids) (add_members new_ids game_key m),
        )
      ]

  unfoldable pub leave : ℕ → ℕ → LeaveReason → ParticipationManager → Bool × ParticipationManager
  leave player_id game_key reason m =
      let (removed, after) = remove_membership player_id game_key m in
      if removed
      then (
        true,
        emit_change
            (record {
              game_key = game_key;
              player_id = player_id;
              type = left;
              reason = some reason;
            })
            after,
      )
      else (false, after)

  unfoldable pub leave_all : ℕ → ParticipationManager → Ids × ParticipationManager
  leave_all player_id m =
      let game_keys = row player_id m.memberships in
      (
        game_keys,
        emit_all
            (map
              (λ key. (record {
                game_key = key;
                player_id = player_id;
                type = left;
                reason = some leave_all_reason;
              }))
              game_keys)
            (remove_games player_id game_keys m),
      )

  unfoldable pub release_game :
      ℕ → Bool → Option LeaveReason → ParticipationManager → Ids × ParticipationManager
  release_game game_key silent reason m =
      let released = row game_key m.game_members in
      let after = remove_members released game_key m in
      let why = or_clear reason in
      (
        released,
        if silent
            then after
            else emit_all
                (map
                  (λ id. (record {
                    game_key = game_key;
                    player_id = id;
                    type = left;
                    reason = some why;
                  }))
                  released)
                after,
      )
