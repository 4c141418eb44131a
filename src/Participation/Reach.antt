-- ===== src/Participation/Reach.antt =====
-- The states that calls of `ParticipationManager` reach, and how a property of them is kept.
use sapi_game.Base.{
  ℕ, ◌≤◌, ◌≡◌, refl, ◌≢◌, ◌⊎◌, inl, inr, Bool, true, false, not, ◌&&◌, Option, List, [], ◌∷◌, arith,
  Bool-cases, length, nil_of_length,
}
use sapi_game.Participation.Store.{Ids, elem, set_delete, unique, row, AllDistinct}
use sapi_game.Participation.Policy.{
  Reason, ParticipationDecision, allowed, denied, ParticipationContext, exclusive_policy,
}
use sapi_game.Participation.Manager.{
  LeaveReason, ParticipationChange, ParticipationBatchDecision, batch_allowed, batch_denied,
  ParticipationManager, has, evaluate_join, add_membership, remove_membership, add_members,
  remove_members, remove_games, check_all, not_members, call_all, emit_change, emit_all, join,
  join_all, leave, leave_all, release_game,
}
use sapi_game.Participation.Index.{
  Agrees, add_membership-Agrees, remove_membership-Agrees, has-add_membership, games-add_membership,
  games-remove_membership, remove_membership-absent,
}
use sapi_game.Participation.Store.{unique-AllDistinct}

module _ (run : ℕ → ParticipationChange → ParticipationManager → ParticipationManager) where
  -- One call from outside, with what the observers do in it.
  pub data Step (m : ParticipationManager) : ParticipationManager → Type 0 where
    by_join : (p g : ℕ) → Step m (join run p g m).1
    by_join_all : (ps : Ids) (g : ℕ) → Step m (join_all run ps g m).1
    by_leave : (p g : ℕ) (reason : LeaveReason) → Step m (leave run p g reason m).1
    by_leave_all : (p : ℕ) → Step m (leave_all run p m).1
    by_release_game :
        (g : ℕ) (silent : Bool) (reason : Option LeaveReason)
        → Step m (release_game run g silent reason m).1

  -- The states that such calls reach from `start`.
  pub data Reached (start : ParticipationManager) : ParticipationManager → Type 0 where
    here : Reached start start
    then_step : {m n : ParticipationManager} → Reached start m → Step m n → Reached start n

-- A property that the two index operations and the observers keep. A membership is added only
-- when the player is not in the game and the policy has allowed it.
pub record Kept (run : ℕ → ParticipationChange → ParticipationManager → ParticipationManager)
    (P : ParticipationManager → Type 0) : Type 0 where
  pub on_add :
      (p g : ℕ) (m : ParticipationManager)
      → P m
      → has p g m ≡ false
      → evaluate_join p g m ≡ allowed
      → P (add_membership p g m)
  pub on_remove : (p g : ℕ) (m : ParticipationManager) → P m → P (remove_membership p g m).1
  pub on_run :
      (callback : ℕ) (event : ParticipationChange) (m : ParticipationManager)
      → P m
      → P (run callback event m)

pub Decision-cases :
    (decision : ParticipationDecision)
    → (decision ≡ allowed) ⊎ ((reason : Option Reason) × (decision ≡ denied reason))
Decision-cases allowed = inl refl
Decision-cases (denied reason) = inr (reason, refl)

pub Batch-cases :
    (decision : ParticipationBatchDecision)
    → (decision ≡ batch_allowed)
      ⊎ ((p : ℕ) × (reason : Option Reason) × (decision ≡ batch_denied p reason))
Batch-cases batch_allowed = inl refl
Batch-cases (batch_denied p reason) = inr (p, reason, refl)

-- Adding one player changes no other's membership, so it changes no decision on them.
has-other :
    (p g q : ℕ) (m : ParticipationManager) → q ≢ p → has q g (add_membership p g m) ≡ has q g m
has-other p g q m apart = ground (arith, has-add_membership p g q g m)

evaluate_join-other :
    (p g q : ℕ) (m : ParticipationManager)
    → q ≢ p
    → evaluate_join q g (add_membership p g m) ≡ evaluate_join q g m
unfolding evaluate_join add_membership
evaluate_join-other p g q m apart =
    let same : row q (add_membership p g m).memberships ≡ row q m.memberships =
      ground (arith, games-add_membership p g q m) in
    rw same

-- What is asked of each player of a batch.
abbrev Admitted : Ids → ℕ → ParticipationManager → Type 0
Admitted [] g m = Unit {0}
Admitted (p ∷ ps) g m = (has p g m ≡ false) × (evaluate_join p g m ≡ allowed) × Admitted ps g m

Admitted-add :
    (p g : ℕ) (ps : Ids) (m : ParticipationManager)
    → elem p ps ≡ false
    → Admitted ps g m
    → Admitted ps g (add_membership p g m)
Admitted-add p g [] m new h = tt
Admitted-add p g (q ∷ ps) m new (a, b, h) =
    let apart : q ≢ p = ground arith in
    (
      rw (has-other p g q m apart) a,
      rw (evaluate_join-other p g q m apart) b,
      Admitted-add p g ps m (ground arith) h,
    )

pub elem-not_members :
    (x g : ℕ) (ps : Ids) (m : ParticipationManager)
    → elem x (not_members ps g m) ≡ (elem x ps && not (has x g m))
unfolding not_members
elem-not_members x g [] m = refl
elem-not_members x g (p ∷ ps) m = ground (arith, elem-not_members x g ps m)

not_members-AllDistinct :
    (g : ℕ) (ps : Ids) (m : ParticipationManager)
    → AllDistinct ps
    → AllDistinct (not_members ps g m)
unfolding not_members
not_members-AllDistinct g [] m h = tt
not_members-AllDistinct g (p ∷ ps) m (a, h) =
    ground (arith, not_members-AllDistinct g ps m h, elem-not_members p g ps m)

check_all-parts :
    (p : ℕ) (ps : Ids) (g : ℕ) (m : ParticipationManager)
    → check_all (p ∷ ps) g m ≡ batch_allowed
    → (check_all ps g m ≡ batch_allowed)
      × ((has p g m ≡ true) ⊎ (has p g m ≡ false) × (evaluate_join p g m ≡ allowed))
unfolding check_all
check_all-parts p ps g m h = ground arith

check_all-Admitted :
    (ps : Ids) (g : ℕ) (m : ParticipationManager)
    → check_all ps g m ≡ batch_allowed
    → Admitted (not_members ps g m) g m
unfolding check_all not_members
check_all-Admitted [] g m h = tt
check_all-Admitted (p ∷ ps) g m h =
    let (rest, way) = check_all-parts p ps g m h in
    elim way [
      | inl e ↦ rw e (check_all-Admitted ps g m rest)
      | inr (e, e') ↦ rw e (e, e', check_all-Admitted ps g m rest)
    ]

module _ (run : ℕ → ParticipationChange → ParticipationManager → ParticipationManager)
    (P : ParticipationManager → Type 0) (kept : Kept run P) where
  call_all-kept :
      (cs : Ids) (event : ParticipationChange) (m : ParticipationManager)
      → P m
      → P (call_all run cs event m)
  unfolding call_all
  call_all-kept [] event m h = h
  call_all-kept (c ∷ cs) event m h =
      call_all-kept cs event (run c event m) (kept.on_run c event m h)

  emit_change-kept :
      (event : ParticipationChange) (m : ParticipationManager) → P m → P (emit_change run event m)
  unfolding emit_change
  emit_change-kept event m h = call_all-kept (row event.game_key m.change_subscribers) event m h

  emit_all-kept :
      (es : List ParticipationChange) (m : ParticipationManager) → P m → P (emit_all run es m)
  unfolding emit_all
  emit_all-kept [] m h = h
  emit_all-kept (e ∷ es) m h = emit_all-kept es (emit_change run e m) (emit_change-kept e m h)

  add_members-kept :
      (ps : Ids) (g : ℕ) (m : ParticipationManager)
      → P m
      → AllDistinct ps
      → Admitted ps g m
      → P (add_members ps g m)
  unfolding add_members
  add_members-kept [] g m h d a = h
  add_members-kept (p ∷ ps) g m h (new, d) (out, fine, a) =
      add_members-kept ps g (add_membership p g m) (kept.on_add p g m h out fine) d
        (Admitted-add p g ps m new a)

  remove_members-kept :
      (ps : Ids) (g : ℕ) (m : ParticipationManager) → P m → P (remove_members ps g m)
  unfolding remove_members
  remove_members-kept [] g m h = h
  remove_members-kept (p ∷ ps) g m h = remove_members-kept ps g _ (kept.on_remove p g m h)

  remove_games-kept : (p : ℕ) (gs : Ids) (m : ParticipationManager) → P m → P (remove_games p gs m)
  unfolding remove_games
  remove_games-kept p [] m h = h
  remove_games-kept p (g ∷ gs) m h = remove_games-kept p gs _ (kept.on_remove p g m h)

  join-kept : (p g : ℕ) (m : ParticipationManager) → P m → P (join run p g m).1
  unfolding join
  join-kept p g m h = elim (Bool-cases (has p g m)) [
    | inl e ↦ rw e h
    | inr e ↦ elim (Decision-cases (evaluate_join p g m)) [
      | inl fine ↦ rw (e, fine) (emit_change-kept _ _ (kept.on_add p g m h e fine))
      | inr (reason, out) ↦ rw (e, out) h
    ]
  ]

  join_all-kept : (ps : Ids) (g : ℕ) (m : ParticipationManager) → P m → P (join_all run ps g m).1
  unfolding join_all
  join_all-kept ps g m h = elim (Batch-cases (check_all (unique ps) g m)) [
    | inl fine ↦
        rw (fine, join_all)
          (emit_all-kept _ _ (
            add_members-kept _ g m h
              (not_members-AllDistinct g (unique ps) m (unique-AllDistinct ps))
              (check_all-Admitted (unique ps) g m fine)))
    | inr (p, reason, out) ↦ rw (out, join_all) h
  ]

  leave-kept :
      (p g : ℕ) (reason : LeaveReason) (m : ParticipationManager)
      → P m
      → P (leave run p g reason m).1
  unfolding leave
  leave-kept p g reason m h = elim (Bool-cases (remove_membership p g m).0) [
    | inl e ↦ rw e (emit_change-kept _ _ (kept.on_remove p g m h))
    | inr e ↦ rw e (kept.on_remove p g m h)
  ]

  leave_all-kept : (p : ℕ) (m : ParticipationManager) → P m → P (leave_all run p m).1
  unfolding leave_all
  leave_all-kept p m h = emit_all-kept _ _ (remove_games-kept p _ m h)

  release_game-kept :
      (g : ℕ) (silent : Bool) (reason : Option LeaveReason) (m : ParticipationManager)
      → P m
      → P (release_game run g silent reason m).1
  unfolding release_game
  release_game-kept g true reason m h = remove_members-kept _ g m h
  release_game-kept g false reason m h = emit_all-kept _ _ (remove_members-kept _ g m h)

  Step-kept : (m n : ParticipationManager) → P m → Step run m n → P n
  Step-kept m _ h (by_join p g) = join-kept p g m h
  Step-kept m _ h (by_join_all ps g) = join_all-kept ps g m h
  Step-kept m _ h (by_leave p g reason) = leave-kept p g reason m h
  Step-kept m _ h (by_leave_all p) = leave_all-kept p m h
  Step-kept m _ h (by_release_game g silent reason) = release_game-kept g silent reason m h

  pub Reached-kept : (m n : ParticipationManager) → P m → Reached run m n → P n
  Reached-kept m _ h here = h
  Reached-kept m n h (then_step r s) = Step-kept _ n (Reached-kept m _ h r) s

-- In every state that calls of join, joinAll, leave, leaveAll and releaseGame reach from a manager
-- whose indexes agree, whatever the observers do in them as long as they keep the agreement, the
-- two indexes agree: a game is among a player's games exactly when the player is among the game's,
-- and neither list names anything twice.
pub Reached-Agrees :
    (run : ℕ → ParticipationChange → ParticipationManager → ParticipationManager)
    (start m : ParticipationManager)
    → ((callback : ℕ) (event : ParticipationChange) (n : ParticipationManager)
        → Agrees n
        → Agrees (run callback event n))
    → Agrees start
    → Reached run start m
    → Agrees m
Reached-Agrees run start m keeps a r =
    Reached-kept run Agrees
      (record {
        on_add = λ p g n b out fine. add_membership-Agrees p g n b;
        on_remove = λ p g n b. remove_membership-Agrees p g n b;
        on_run = keeps;
      })
      start m a r

-- The policy is the exclusive one, and each player is in one game at most.
abbrev pub Exclusive : ParticipationManager → Type 0
Exclusive m = (m.policy ≡ exclusive_policy) × ((p : ℕ) → length (row p m.memberships) ≤ 1)

length-set_delete : (x : ℕ) (xs : Ids) → length (set_delete x xs) ≤ length xs
length-set_delete x [] = omega arith
length-set_delete x (y ∷ xs) = ground (arith, length-set_delete x xs)

exclusive_policy-empty :
    (context : ParticipationContext)
    → elem context.target_game_key context.current_game_keys ≡ false
    → exclusive_policy context ≡ allowed
    → length context.current_game_keys ≡ 0
unfolding exclusive_policy
exclusive_policy-empty context out e = ground arith

exclusive_join :
    (p g : ℕ) (m : ParticipationManager)
    → m.policy ≡ exclusive_policy
    → has p g m ≡ false
    → evaluate_join p g m ≡ allowed
    → row p m.memberships ≡ []
unfolding evaluate_join has
exclusive_join p g m e out fine =
    let allowed_by : exclusive_policy
          (record { player_id = p; target_game_key = g; current_game_keys = row p m.memberships })
        ≡ allowed =
      rw (← e) fine in
    nil_of_length _ (exclusive_policy-empty _ out allowed_by)

Exclusive-add :
    (p g : ℕ) (m : ParticipationManager)
    → Exclusive m
    → has p g m ≡ false
    → evaluate_join p g m ≡ allowed
    → Exclusive (add_membership p g m)
Exclusive-add p g m (e, h) out fine = (
  unfold add_membership in e,
  λ q. ground (arith, h q, games-add_membership p g q m, exclusive_join p g m e out fine),
)

Exclusive-remove :
    (p g : ℕ) (m : ParticipationManager) → Exclusive m → Exclusive (remove_membership p g m).1
Exclusive-remove p g m (e, h) = elim (Bool-cases (has p g m)) [
  | inr out ↦ rw (remove_membership-absent p g m out) (e, h)
  | inl inside ↦ (
    unfold remove_membership has in ground (arith, e, inside),
    λ q. ground (
      arith,
      h q,
      h p,
      games-remove_membership p g q m inside,
      length-set_delete g (row p m.memberships),
    ),
  )
]

-- Under the exclusive policy, every state reached as above from one in which each player is in one
-- game at most is again such a state, provided the observers keep that.
pub Reached-Exclusive :
    (run : ℕ → ParticipationChange → ParticipationManager → ParticipationManager)
    (start m : ParticipationManager)
    → ((callback : ℕ) (event : ParticipationChange) (n : ParticipationManager)
        → Exclusive n
        → Exclusive (run callback event n))
    → Exclusive start
    → Reached run start m
    → Exclusive m
Reached-Exclusive run start m keeps a r =
    Reached-kept run Exclusive
      (record { on_add = Exclusive-add; on_remove = Exclusive-remove; on_run = keeps }) start m a r
