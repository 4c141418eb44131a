-- ===== src/Trace/PlayerTable.antt =====
-- The numbers and names of the players of a session, and the table that the decoder has of them.
use sapi_game.Base.{
  ℕ, suc, ◌<◌, ◌≡◌, refl, sym, ap, ◌∙◌, ◌≢◌, ◌⊎◌, inl, inr, Option, none, some, true, false,
  if◌then◌else◌, List, arith, ◌==◌, ==_iff, ==_refl, Bool-cases,
}
use sapi_game.Base.Maps.{map_get, map_set, map_get-map_set}
use sapi_game.Wire.Raw.{str_eq}
use sapi_game.Wire.Container.{Text}
use sapi_game.Trace.Texts.{text_get, text_set, text_get-text_set, str_eq→eq, str_eq_refl}
use sapi_game.Trace.Dictionary.{Dictionary}
use sapi_game.Trace.Decoder.{PlayerDefinition, DecodeTables}
use sapi_game.Trace.Sync.{SyncedStrings, Synced}
use sapi_game.Trace.Dictionary.{or_known, known_name, is_known_name}

-- The numbers of players around a definition of `ref`: each is counted, and one that is not `ref`
-- was there before, of another player.
abbrev pub KeepsPlayers : DecodeTables → Dictionary → ℕ → Text → List (Text × ℕ) → ℕ → Type 0
KeepsPlayers t s ref id ids next =
    (v : Text) (j : ℕ)
    → text_get v ids ≡ some j
    → (j < next)
      × (((j ≡ ref) × (v ≡ id))
          ⊎ ((j ≢ ref) × (str_eq v id ≡ false) × (text_get v s.player_ids ≡ some j)))

-- The table of players with one more definition.
pub with_player :
    (t : DecodeTables) (s x : Dictionary) (strings : List (ℕ × Text)) (ref : ℕ) (id : Text)
    (name : Option Text) (ids : List (Text × ℕ)) (next : ℕ)
    → Synced t s
    → SyncedStrings (record t { strings = strings }) x
    → KeepsPlayers t s ref id ids next
    → x.player_ids ≡ ids
    → x.next_player_id ≡ next
    → x.player_names ≡ text_set id name s.player_names
    → x.schema_ids ≡ s.schema_ids
    → x.next_custom_type_id ≡ s.next_custom_type_id
    → Synced
        (record t {
          strings = strings;
          players = map_set ref (record { id = id; name = name }) t.players;
        })
        x
with_player t s x strings ref id name ids next g numbers keeps p n names sc ty = record {
  strings = numbers;
  players = λ v j e. found v j (keeps v j (rw p at e));
  schemas = λ v schema e. g.schemas v schema (rw sc at e);
  schema_range = λ j schema e. rw ty (g.schema_range j schema e);
  schema_numbers = λ v schema e. rw ty (g.schema_numbers v schema (rw sc at e));
  schema_names = λ v schema e. g.schema_names v schema (rw sc at e);
  custom_from = rw ty g.custom_from;
}
  where
    name_of :
        (v : Text)
        → text_get v x.player_names ≡ (if str_eq v id then some name else text_get v s.player_names)
    name_of v = ap (text_get v) names ∙ text_get-text_set v id name s.player_names

    found :
        (v : Text) (j : ℕ)
        → (j < next)
          × (((j ≡ ref) × (v ≡ id))
              ⊎ ((j ≢ ref) × (str_eq v id ≡ false) × (text_get v s.player_ids ≡ some j)))
        → (j < x.next_player_id)
          × ((q : PlayerDefinition) × (map_get j
                  (map_set ref (record { id = id; name = name }) t.players)
                ≡ some q)
              × (q.id ≡ v)
              × (q.name ≡ known_name v x))
    found v j (below, inl (number, same)) = (
      rw n below,
      (
        record { id = id; name = name },
        rw map_get-map_set (rw (number, ==_refl) refl),
        sym same,
        rw (name_of v, same, str_eq_refl) refl,
      ),
    )
    found v j (below, inr (other, differ, there)) =
        let (q, e, same, named) = (g.players v j there).1 in
        (
          rw n below,
          (
            q,
            ground (
              arith,
              e,
              other,
              map_get-map_set j ref (record { id = id; name = name }) t.players,
            ),
            same,
            rw (name_of v, differ) named,
          ),
        )

-- Two players do not have one number.
pub old_keeps :
    (id : Text) (existing : ℕ) (s : Dictionary)
    → text_get id s.player_ids ≡ some existing
    → (t : DecodeTables) → Synced t s
    → KeepsPlayers t s existing id s.player_ids s.next_player_id
old_keeps id existing s found t synced v j e = (
  (synced.players v j e).0,
  elim (Bool-cases (j == existing)) [
    | inl match ↦
        let number : j ≡ existing = ground (arith, match, ==_iff j existing) in
        let (p, at, same, _) = (synced.players v j e).1 in
        let (q, at', same', _) = (synced.players id existing found).1 in
        let at'' : map_get existing t.players ≡ some p = rw number at at in
        inl (number, (let one : p ≡ q = cc in sym same ∙ rw one same'))
    | inr differ ↦ inr (
      ground (arith, differ, ==_iff j existing),
      ground (arith, str_eq→eq v id, e, found, differ, ==_refl existing),
      e,
    )
  ],
)

pub new_keeps :
    (id : Text) (s : Dictionary) (t : DecodeTables)
    → Synced t s
    → KeepsPlayers t s s.next_player_id id
        (text_set id s.next_player_id s.player_ids)
        (suc s.next_player_id)
new_keeps id s t synced v j e = elim (Bool-cases (str_eq v id)) [
  | inl match ↦
      let e' : some s.next_player_id ≡ some j =
        rw (text_get-text_set v id s.next_player_id s.player_ids, match) at e in
      let number : s.next_player_id ≡ j = cc in
      (omega arith, inl (sym number, str_eq→eq v id match))
  | inr differ ↦
      let e' : text_get v s.player_ids ≡ some j =
        rw (text_get-text_set v id s.next_player_id s.player_ids, differ) at e in
      let below = (synced.players v j e').0 in (omega arith, inr (omega arith, differ, e'))
]

-- The name that the dictionary has when no definition is due.
pub known_name_stays :
    (name known : Option Text) → is_known_name name known ≡ true → known ≡ or_known name known
known_name_stays none known e = refl
known_name_stays (some name) none e = cc
known_name_stays (some name) (some known) e = ap some (sym (str_eq→eq name known e))

-- The name that a definition leaves in the dictionary.
pub name_given :
    (id : Text) (name : Option Text) (s u : Dictionary)
    → u.player_names ≡ text_set id name s.player_names
    → known_name id u ≡ name
name_given id name s u same =
    rw (ap (text_get id) same, text_get-text_set id id name s.player_names, str_eq_refl id) refl
