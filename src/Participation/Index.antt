-- ===== src/Participation/Index.antt =====
-- The two indexes of `ParticipationManager` say the same, in every state that is reached.
use sapi_game.Base.{
  ℕ, ◌≡◌, refl, inl, inr, true, false, not, ◌&&◌, ◌||◌, arith, ◌==◌, if◌then◌else◌, Bool-cases,
  Option-cases,
}
use sapi_game.Participation.Store.{
  elem, set_add, set_delete, row, store_get, AllDistinct, elem-set_add, elem-set_delete,
  AllDistinct-set_add, AllDistinct-set_delete, row-store_set, row-store_keep,
}
use sapi_game.Participation.Manager.{
  ParticipationManager, new_manager, has, add_membership, remove_membership,
}

-- The games of a player and the players of a game agree, and neither names anything twice.
pub record Agrees (m : ParticipationManager) : Type 0 where
  pub index : (p g : ℕ) → elem g (row p m.memberships) ≡ elem p (row g m.game_members)
  pub games_distinct : (p : ℕ) → AllDistinct (row p m.memberships)
  pub players_distinct : (g : ℕ) → AllDistinct (row g m.game_members)

pub new_manager-Agrees : Agrees new_manager
unfolding new_manager row
new_manager-Agrees = record {
  index = λ p g. refl;
  games_distinct = λ p. tt;
  players_distinct = λ g. tt;
}

pub games-add_membership :
    (p g q : ℕ) (m : ParticipationManager)
    → row q (add_membership p g m).memberships
      ≡ (if q == p then set_add g (row p m.memberships) else row q m.memberships)
unfolding add_membership
games-add_membership p g q m = row-store_set q p _ m.memberships

pub players-add_membership :
    (p g h : ℕ) (m : ParticipationManager)
    → row h (add_membership p g m).game_members
      ≡ (if h == g then set_add p (row g m.game_members) else row h m.game_members)
unfolding add_membership
players-add_membership p g h m = row-store_set h g _ m.game_members

pub has-add_membership :
    (p g q h : ℕ) (m : ParticipationManager)
    → has q h (add_membership p g m) ≡ (q == p && h == g || has q h m)
unfolding has
has-add_membership p g q h m =
    ground (arith, games-add_membership p g q m, elem-set_add h g (row p m.memberships))

pub add_membership-Agrees :
    (p g : ℕ) (m : ParticipationManager) → Agrees m → Agrees (add_membership p g m)
add_membership-Agrees p g m a = record {
  index = λ q h. ground (
    arith,
    a.index q h,
    games-add_membership p g q m,
    players-add_membership p g h m,
    elem-set_add h g (row p m.memberships),
    elem-set_add q p (row g m.game_members),
  );
  games_distinct = λ q. ground (
    arith,
    games-add_membership p g q m,
    a.games_distinct q,
    AllDistinct-set_add g (row p m.memberships) (a.games_distinct p),
  );
  players_distinct = λ h. ground (
    arith,
    players-add_membership p g h m,
    a.players_distinct h,
    AllDistinct-set_add p (row g m.game_members) (a.players_distinct g),
  );
}

pub games-remove_membership :
    (p g q : ℕ) (m : ParticipationManager)
    → has p g m ≡ true
    → row q (remove_membership p g m).1.memberships
      ≡ (if q == p then set_delete g (row p m.memberships) else row q m.memberships)
unfolding remove_membership has
games-remove_membership p g q m h = rw h (row-store_keep q p _ m.memberships)

pub players-remove_membership :
    (p g h : ℕ) (m : ParticipationManager)
    → has p g m ≡ true
    → row h (remove_membership p g m).1.game_members
      ≡ (if h == g then set_delete p (row g m.game_members) else row h m.game_members)
unfolding remove_membership has row
players-remove_membership p g h m e = rw e (elim (Option-cases (store_get g m.game_members)) [
  | inl none_here ↦ ground (arith, none_here)
  | inr (players, found) ↦ rw found (row-store_keep h g (set_delete p players) m.game_members)
])

pub remove_membership-absent :
    (p g : ℕ) (m : ParticipationManager) → has p g m ≡ false → remove_membership p g m ≡ (false, m)
unfolding remove_membership has
remove_membership-absent p g m h = rw h

pub has-remove_membership :
    (p g q h : ℕ) (m : ParticipationManager)
    → has q h (remove_membership p g m).1 ≡ (not (q == p && h == g) && has q h m)
has-remove_membership p g q h m = elim (Bool-cases (has p g m)) [
  | inl e ↦
      unfold has in
      ground (arith, games-remove_membership p g q m e, elem-set_delete h g (row p m.memberships))
  | inr e ↦ rw (remove_membership-absent p g m e) (ground (arith, e))
]

pub remove_membership-Agrees :
    (p g : ℕ) (m : ParticipationManager) → Agrees m → Agrees (remove_membership p g m).1
remove_membership-Agrees p g m a = elim (Bool-cases (has p g m)) [
  | inr e ↦ rw (remove_membership-absent p g m e) a
  | inl e ↦ record {
    index = λ q h. ground (
      arith,
      a.index q h,
      games-remove_membership p g q m e,
      players-remove_membership p g h m e,
      elem-set_delete h g (row p m.memberships),
      elem-set_delete q p (row g m.game_members),
    );
    games_distinct = λ q. ground (
      arith,
      games-remove_membership p g q m e,
      a.games_distinct q,
      AllDistinct-set_delete g (row p m.memberships) (a.games_distinct p),
    );
    players_distinct = λ h. ground (
      arith,
      players-remove_membership p g h m e,
      a.players_distinct h,
      AllDistinct-set_delete p (row g m.game_members) (a.players_distinct g),
    );
  }
]
