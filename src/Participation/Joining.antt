-- ===== src/Participation/Joining.antt =====
-- What `join` and `joinAll` do to who is in which game, with observers that call nothing.
use sapi_game.Base.{
  ℕ, ◌≡◌, refl, ◌⊎◌, inl, inr, true, false, ◌&&◌, ◌||◌, Option, List, [], ◌∷◌, arith, ◌==◌,
  Bool-cases,
}
use sapi_game.Participation.Store.{Ids, elem, unique, row}
use sapi_game.Participation.Policy.{Reason, allowed, denied}
use sapi_game.Participation.Manager.{
  ParticipationChange, batch_allowed, batch_denied, ParticipationManager, has, evaluate_join,
  add_membership, add_members, check_all, not_members, call_all, emit_change, emit_all, join,
  join_all,
}
use sapi_game.Participation.Index.{has-add_membership}
use sapi_game.Participation.Reach.{Batch-cases, elem-not_members}
use sapi_game.Participation.Store.{elem-unique}
use sapi_game.Participation.Reach.{Decision-cases}

has-add_members :
    (ps : Ids) (g q h : ℕ) (m : ParticipationManager)
    → has q h (add_members ps g m) ≡ (elem q ps && h == g || has q h m)
unfolding add_members
has-add_members [] g q h m = refl
has-add_members (p ∷ ps) g q h m =
    ground (arith, has-add_members ps g q h (add_membership p g m), has-add_membership p g q h m)

-- A batch that is denied: who is, and by what.
check_all-denied :
    (ps : Ids) (g : ℕ) (m : ParticipationManager) (p : ℕ) (reason : Option Reason)
    → check_all ps g m ≡ batch_denied p reason
    → (elem p ps ≡ true)
      × (has p g m ≡ false)
      × ((why : Option Reason) × (evaluate_join p g m ≡ denied why))
unfolding check_all
check_all-denied [] g m p reason e = ground arith
check_all-denied (q ∷ ps) g m p reason e = elim (Bool-cases (has q g m)) [
  | inl inside ↦ ground (arith, check_all-denied ps g m p reason, inside)
  | inr outside ↦ elim (Decision-cases (evaluate_join q g m)) [
    | inl fine ↦ ground (arith, check_all-denied ps g m p reason, outside, fine)
    | inr (why, refused) ↦
        let same : q ≡ p = ground (arith, outside, refused) in
        rw (← same) (ground arith, outside, (why, refused))
  ]
]

-- When join_all denies a batch, whatever the observers would do, the manager is unchanged, and the
-- player it names is one of the batch, not in the game, and refused by the policy.
pub join_all_atomic :
    (run : ℕ → ParticipationChange → ParticipationManager → ParticipationManager) (ps : Ids) (g : ℕ)
    (m : ParticipationManager) (p : ℕ) (reason : Option Reason)
    → (join_all run ps g m).0 ≡ batch_denied p reason
    → ((join_all run ps g m).1 ≡ m)
      × (elem p ps ≡ true)
      × (has p g m ≡ false)
      × ((why : Option Reason) × (evaluate_join p g m ≡ denied why))
unfolding join_all
join_all_atomic run ps g m p reason e = elim (Batch-cases (check_all (unique ps) g m)) [
  | inl fine ↦ absurd (ground (arith, fine))
  | inr (q, r, refused) ↦
      let same : q ≡ p = ground (arith, refused) in
      let (member, outside, (why, denies)) = check_all-denied (unique ps) g m q r refused in
      (
        rw (refused, join_all) refl,
        ground (arith, same, member, elem-unique q ps),
        rw (← same) outside,
        (why, rw (← same) denies),
      )
]

module _ (run : ℕ → ParticipationChange → ParticipationManager → ParticipationManager)
    (quiet : (callback : ℕ) (event : ParticipationChange) (m : ParticipationManager)
      → run callback event m ≡ m) where
  call_all-quiet :
      (cs : Ids) (event : ParticipationChange) (m : ParticipationManager)
      → call_all run cs event m ≡ m
  unfolding call_all
  call_all-quiet [] event m = refl
  call_all-quiet (c ∷ cs) event m = rw (quiet c event m) (call_all-quiet cs event m)

  pub emit_change-quiet :
      (event : ParticipationChange) (m : ParticipationManager) → emit_change run event m ≡ m
  unfolding emit_change
  emit_change-quiet event m = call_all-quiet (row event.game_key m.change_subscribers) event m

  pub emit_all-quiet :
      (es : List ParticipationChange) (m : ParticipationManager) → emit_all run es m ≡ m
  unfolding emit_all
  emit_all-quiet [] m = refl
  emit_all-quiet (e ∷ es) m = rw (emit_change-quiet e m) (emit_all-quiet es m)

  join-inside :
      (p g : ℕ) (m : ParticipationManager) → has p g m ≡ true → join run p g m ≡ (allowed, m)
  unfolding join
  join-inside p g m inside = rw inside refl

  join-allowed :
      (p g : ℕ) (m : ParticipationManager)
      → has p g m ≡ false
      → evaluate_join p g m ≡ allowed
      → join run p g m ≡ (allowed, add_membership p g m)
  unfolding join
  join-allowed p g m outside fine = rw (outside, fine, join, emit_change-quiet) refl

  join-denied :
      (p g : ℕ) (m : ParticipationManager) (why : Option Reason)
      → has p g m ≡ false
      → evaluate_join p g m ≡ denied why
      → join run p g m ≡ (denied why, m)
  unfolding join
  join-denied p g m why outside refused = rw (outside, refused, join) refl

  -- With observers that leave the manager as it is, one of two holds. The player is in the game or
  -- the policy allows the join: then it is allowed, adds that membership and no other, and joining
  -- once more is allowed and changes nothing. Or the player is not in the game and the policy denies
  -- the join: then it is denied with the reason of the policy, and changes nothing.
  pub join_outcome :
      (p g : ℕ) (m : ParticipationManager)
      → (has p g m ≡ true ⊎ evaluate_join p g m ≡ allowed)
          × ((join run p g m).0 ≡ allowed)
          × ((q h : ℕ) → has q h (join run p g m).1 ≡ (q == p && h == g || has q h m))
          × (join run p g (join run p g m).1 ≡ (allowed, (join run p g m).1))
        ⊎ (has p g m ≡ false)
          × ((reason : Option Reason) × (evaluate_join p g m ≡ denied reason)
              × (join run p g m ≡ (denied reason, m)))
  join_outcome p g m = elim (Bool-cases (has p g m)) [
    | inl inside ↦
        rw (join-inside p g m inside)
          (inl (inl inside, refl, λ q h. ground (arith, inside), join-inside p g m inside))
    | inr outside ↦ elim (Decision-cases (evaluate_join p g m)) [
      | inl fine ↦ rw (join-allowed p g m outside fine) (
          inl (
            inr fine,
            refl,
            λ q h. has-add_membership p g q h m,
            join-inside p g (add_membership p g m) (ground (arith, has-add_membership p g p g m)),
          ))
      | inr (why, refused) ↦ inr (outside, (why, refused, join-denied p g m why outside refused))
    ]
  ]

  -- With observers that leave the manager as it is, a batch that is allowed makes every player of it
  -- a member of the game, and changes no other membership.
  pub join_all_joins :
      (ps : Ids) (g q h : ℕ) (m : ParticipationManager)
      → (join_all run ps g m).0 ≡ batch_allowed
      → has q h (join_all run ps g m).1 ≡ (elem q ps && h == g || has q h m)
  unfolding join_all
  join_all_joins ps g q h m e = elim (Batch-cases (check_all (unique ps) g m)) [
    | inl fine ↦
        let new = not_members (unique ps) g m in
        rw (fine, join_all, emit_all-quiet)
          (ground (
            arith,
            has-add_members new g q h m,
            elem-not_members q g (unique ps) m,
            elem-unique q ps,
          ))
    | inr (p, r, refused) ↦ absurd (ground (arith, refused))
  ]
