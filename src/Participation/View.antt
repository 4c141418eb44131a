-- ===== src/Participation/View.antt =====
-- participation/gameParticipation.ts: the view that one game has of the manager.
use sapi_game.Base.{
  ℕ, ◌≡◌, refl, inl, inr, Bool, true, false, Option, none, [], ◌∷◌, arith, if◌then◌else◌,
  Bool-cases,
}
use sapi_game.Participation.Store.{Ids}
use sapi_game.Participation.Policy.{ParticipationDecision, allowed}
use sapi_game.Participation.Manager.{
  LeaveReason, ParticipationChange, ParticipationBatchDecision, batch_allowed, ParticipationManager,
}
use sapi_game.Participation.Manager as Manager
use sapi_game.Participation.Index.{Agrees}
use sapi_game.Participation.Reach.{Reached-Agrees, here, then_step, by_release_game}
use sapi_game.Participation.Store.{elem, row}
use sapi_game.Participation.Leaving.{release_game_outcome}
use sapi_game.Participation.Store.{elem, row}

pub record GameParticipation : Type 0 where
  pub game_key : ℕ
  pub tracked : Bool

unfoldable pub view_has : GameParticipation → ℕ → ParticipationManager → Bool
view_has view id m = if view.tracked then Manager.has id view.game_key m else false

unfoldable pub view_get_all : GameParticipation → ParticipationManager → Ids
view_get_all view m = if view.tracked then Manager.get_players view.game_key m else []

unfoldable pub view_size : GameParticipation → ParticipationManager → ℕ
view_size view m = if view.tracked then Manager.get_player_count view.game_key m else 0

unfoldable pub view_has_any : GameParticipation → ParticipationManager → Bool
view_has_any view m = if view.tracked then Manager.has_players view.game_key m else false

none_left : (xs : Ids) → ((x : ℕ) → elem x xs ≡ false) → xs ≡ []
none_left [] h = refl
none_left (x ∷ xs) h = absurd (ground (arith, h x))

-- An observer that calls nothing: a silent release notifies none, so it is as good as any.
abbrev idle : ℕ → ParticipationChange → ParticipationManager → ParticipationManager
idle callback event m = m

silent_release :
    (run : ℕ → ParticipationChange → ParticipationManager → ParticipationManager) (g : ℕ)
    (m : ParticipationManager)
    → Manager.release_game run g true none m ≡ Manager.release_game idle g true none m
unfolding Manager.release_game
silent_release run g m = refl

idle_release :
    (g : ℕ) (m : ParticipationManager)
    → Agrees m
    → (row g (Manager.release_game idle g true none m).1.game_members ≡ [])
      × ((p : ℕ) → Manager.has p g (Manager.release_game idle g true none m).1 ≡ false)
idle_release g m a =
    let after = (Manager.release_game idle g true none m).1 in
    let agrees : Agrees after =
      Reached-Agrees idle m after (λ c e n b. b) a (then_step here (by_release_game g true none)) in
    let (_, frees) = release_game_outcome idle (λ c e n. refl) g true none m a in
    let none_has : (p : ℕ) → Manager.has p g after ≡ false = λ p. ground (arith, frees p g) in
    (
      none_left _ (λ p. unfold Manager.has in ground (arith, agrees.index p g, none_has p)),
      none_has,
    )

module _ (run : ℕ → ParticipationChange → ParticipationManager → ParticipationManager) where
  unfoldable pub view_join :
      GameParticipation → ℕ → ParticipationManager → ParticipationDecision × ParticipationManager
  view_join view id m =
      let joined = Manager.join run id view.game_key m in
      if view.tracked then joined else (allowed, m)

  unfoldable pub view_join_all :
      GameParticipation
      → Ids
      → ParticipationManager
      → ParticipationBatchDecision × ParticipationManager
  view_join_all view ids m =
      let joined = Manager.join_all run ids view.game_key m in
      if view.tracked then joined else (batch_allowed, m)

  unfoldable pub view_leave :
      GameParticipation → ℕ → LeaveReason → ParticipationManager → Bool × ParticipationManager
  view_leave view id reason m =
      let left = Manager.leave run id view.game_key reason m in
      if view.tracked then left else (false, m)

  unfoldable pub view_clear :
      GameParticipation → Option LeaveReason → ParticipationManager → Ids × ParticipationManager
  view_clear view reason m =
      let released = Manager.release_game run view.game_key false reason m in
      if view.tracked then released else ([], m)

  unfoldable pub view_clear_for_dispose :
      GameParticipation → ParticipationManager → Ids × ParticipationManager
  view_clear_for_dispose view m =
      let released = Manager.release_game run view.game_key true none m in
      if view.tracked then released else ([], m)

  -- After a teardown of its game, whatever the observers do, a view has no player, tracked or not,
  -- when the indexes agreed before: its list is empty, its size 0, and it has no id.
  pub view_clear_for_dispose_empties :
      (view : GameParticipation) (m : ParticipationManager)
      → Agrees m
      → (view_get_all view (view_clear_for_dispose view m).1 ≡ [])
        × (view_size view (view_clear_for_dispose view m).1 ≡ 0)
        × ((id : ℕ) → view_has view id (view_clear_for_dispose view m).1 ≡ false)
  unfolding view_clear_for_dispose view_get_all view_size view_has Manager.get_players
      Manager.get_player_count
  view_clear_for_dispose_empties view m a =
      let (none_there, none_has) = idle_release view.game_key m a in
      elim (Bool-cases view.tracked) [
        | inl e ↦
            rw (e, silent_release run view.game_key m) (none_there, rw none_there refl, none_has)
        | inr e ↦ rw e (refl, refl, λ id. refl)
      ]
