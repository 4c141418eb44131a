-- ===== src/Participation/Leaving.antt =====
-- What `leave`, `leaveAll` and `releaseGame` do to who is in which game.
use sapi_game.Base.{
  ℕ, ◌≡◌, refl, inl, inr, Bool, true, false, not, ◌&&◌, Option, [], ◌∷◌, arith, ◌==◌, Bool-cases,
}
use sapi_game.Participation.Store.{Ids, elem, row}
use sapi_game.Participation.Manager.{
  LeaveReason, ParticipationChange, ParticipationManager, has, get_games, get_players,
  remove_membership, remove_members, remove_games, leave, leave_all, release_game,
}
use sapi_game.Participation.Index.{Agrees}
use sapi_game.Participation.Index.{has-remove_membership}
use sapi_game.Participation.Joining.{emit_change-quiet, emit_all-quiet}

has-remove_games :
    (p : ℕ) (gs : Ids) (q h : ℕ) (m : ParticipationManager)
    → has q h (remove_games p gs m) ≡ (not (q == p && elem h gs) && has q h m)
unfolding remove_games
has-remove_games p [] q h m = ground arith
has-remove_games p (g ∷ gs) q h m =
    ground (
      arith,
      has-remove_games p gs q h (remove_membership p g m).1,
      has-remove_membership p g q h m,
    )

has-remove_members :
    (ps : Ids) (g q h : ℕ) (m : ParticipationManager)
    → has q h (remove_members ps g m) ≡ (not (elem q ps && h == g) && has q h m)
unfolding remove_members
has-remove_members [] g q h m = ground arith
has-remove_members (p ∷ ps) g q h m = ground (
  arith,
  has-remove_members ps g q h (remove_membership p g m).1,
  has-remove_membership p g q h m,
)

remove_membership-removed :
    (p g : ℕ) (m : ParticipationManager) → (remove_membership p g m).0 ≡ has p g m
unfolding remove_membership has
remove_membership-removed p g m = ground arith

module _ (run : ℕ → ParticipationChange → ParticipationManager → ParticipationManager)
    (quiet : (callback : ℕ) (event : ParticipationChange) (m : ParticipationManager)
      → run callback event m ≡ m) where
  -- With observers that leave the manager as it is, leave says whether the player was in the game,
  -- takes that membership away and keeps every other.
  pub leave_outcome :
      (p g : ℕ) (reason : LeaveReason) (m : ParticipationManager)
      → ((leave run p g reason m).0 ≡ has p g m)
        × ((q h : ℕ) → has q h (leave run p g reason m).1 ≡ (not (q == p && h == g) && has q h m))
  unfolding leave
  leave_outcome p g reason m = elim (Bool-cases (remove_membership p g m).0) [
    | inl e ↦ (
      ground (arith, e, remove_membership-removed p g m),
      λ q h. rw (e, leave, emit_change-quiet run quiet) (has-remove_membership p g q h m),
    )
    | inr e ↦ (
      ground (arith, e, remove_membership-removed p g m),
      λ q h. rw (e, leave) (has-remove_membership p g q h m),
    )
  ]

  -- With observers that leave the manager as it is, leave_all returns the player's games, takes the
  -- player out of all of them and keeps the memberships of the others.
  pub leave_all_outcome :
      (p : ℕ) (m : ParticipationManager)
      → ((leave_all run p m).0 ≡ get_games p m)
        × ((q h : ℕ) → has q h (leave_all run p m).1 ≡ (not (q == p) && has q h m))
  unfolding leave_all get_games has
  leave_all_outcome p m = (refl, λ q h. rw (emit_all-quiet run quiet) (left_all q h))
    where
      left_all :
          (q h : ℕ) → has q h (remove_games p (row p m.memberships) m) ≡ (not (q == p) && has q h m)
      left_all q h = ground (arith, has-remove_games p (row p m.memberships) q h m)

  -- With observers that leave the manager as it is, and indexes that agree, release_game returns the
  -- players of the game, silent or not, takes all of them out and keeps the other memberships.
  pub release_game_outcome :
      (g : ℕ) (silent : Bool) (reason : Option LeaveReason) (m : ParticipationManager)
      → Agrees m
      → ((release_game run g silent reason m).0 ≡ get_players g m)
        × ((q h : ℕ) → has q h (release_game run g silent reason m).1 ≡ (not (h == g) && has q h m))
  unfolding release_game get_players has
  release_game_outcome g silent reason m a = (refl, λ q h. released silent q h)
    where
      freed :
          (q h : ℕ)
          → has q h (remove_members (row g m.game_members) g m) ≡ (not (h == g) && has q h m)
      freed q h =
          ground
            (arith, has-remove_members (row g m.game_members) g q h m, a.index q h, a.index q g)

      released :
          (silent : Bool) (q h : ℕ)
          → has q h (release_game run g silent reason m).1 ≡ (not (h == g) && has q h m)
      released true q h = freed q h
      released false q h = rw (emit_all-quiet run quiet) (freed q h)
