-- ===== src/Trace/Defines.antt =====
-- The definitions of players, and what the decoder makes of them.
use sapi_game.Base.{
  ℕ, suc, ◌≡◌, refl, sym, ap, ◌∙◌, subst, inl, inr, Option, none, some, List, ◌++◌, append_assoc,
  arith, Bool-cases, Option-cases, All,
}
use sapi_game.Base.Maps.{map_set}
use sapi_game.Wire.Result.{ok, ◌then_write◌}
use sapi_game.Wire.Varint.{write_byte, write_var_uint, read_var_uint}
use sapi_game.Wire.Utf8.{IsUnit}
use sapi_game.Wire.Raw.{Double, str_eq}
use sapi_game.Wire.Reader.{
  Reader, Undoes, Undoes-pure, Undoes-bind, Undoes-last, Undoes-skip, Undoes-then_skip,
}
use sapi_game.Wire.Reader as Reader
use sapi_game.Wire.Container.{Text}
use sapi_game.Trace.Texts.{text_get, text_set, text_get-text_set, str_eq→eq, str_eq_refl}
use sapi_game.Trace.Act.{◌>>=◌, pure, modify, >>=-returned, lift-returned}
use sapi_game.Trace.Dictionary.{
  Dictionary, put, ensure_string, ensure_optional, define_player, ensure_player, new_player,
  name_player,
}
use sapi_game.Trace.Decoder.{
  DecodeTables, DecodeState, with_tables, get_string, read_player_definition, read_record,
}
use sapi_game.Trace.Sync.{
  SyncedStrings, AreUnits, KnownNames, with_strings, StringsGrow, StringsGrow-trans, Synced,
  Runs-append, Grows, Grows-refl,
}
use sapi_game.Trace.Strings.{
  undo_uint, write_out-returned, Runs-tagged, ensure_string-StringsGrow, Numbered,
  ensure_optional-StringsGrow, get_string_of, get_optional_of,
}
use sapi_game.Trace.Decoder.{read_player_definition}
use sapi_game.Trace.PlayerTable.{
  KeepsPlayers, with_player, old_keeps, new_keeps, known_name_stays, name_given,
}
use sapi_game.Trace.Dictionary.{
  or_known, known_in, known_name, is_known_name, define_player, ensure_player, new_player,
  name_player,
}
use sapi_game.Wire.Result.{then_write-ok3}

module _ (d : Double) where
  undo_player_definition :
      (st : DecodeState d) (s : Dictionary) (ref id_ref name_ref : ℕ) (id : Text)
      (name : Option Text)
      → SyncedStrings st.tables s
      → text_get id s.string_ids ≡ some id_ref
      → Numbered d name name_ref s
      → Undoes
          (read_player_definition d st)
          (write_var_uint ref then_write write_var_uint id_ref then_write write_var_uint name_ref)
          (with_tables d st (record st.tables {
            players = map_set ref (record { id = id; name = name }) st.tables.players;
          }))
  unfolding read_player_definition Reader.◌>>=◌ Reader.pure
  undo_player_definition st s ref id_ref name_ref id name g there named =
      Undoes-bind read_var_uint _ (write_var_uint ref) _ ref _ (undo_uint ref) (
        Undoes-bind read_var_uint _ (write_var_uint id_ref) _ id_ref _ (undo_uint id_ref) (
          Undoes-skip (get_string st.tables id_ref) _ _ id _
            (get_string_of d st.tables s id id_ref g there)
            (Undoes-then_skip read_var_uint _ (write_var_uint name_ref) name_ref _
              (undo_uint name_ref)
              (λ reader. (rw (get_optional_of d st.tables s name name_ref g named reader) refl)))))

define_player-returned :
    (ref : ℕ) (id : Text) (name : Option Text) (s u : Dictionary) (i : ℕ)
    → define_player ref id name s ≡ (u, ok i)
    → (w x : Dictionary) × (id_ref name_ref : ℕ) × (bytes : List ℕ) × (ensure_string id
          (name_player id name s)
        ≡ (w, ok id_ref))
      × (ensure_optional name w ≡ (x, ok name_ref))
      × ((write_byte 2
            then_write write_var_uint ref
            then_write write_var_uint id_ref
            then_write write_var_uint name_ref)
          ≡ ok bytes)
      × (u ≡ put bytes x)
      × (i ≡ ref)
unfolding define_player ◌>>=◌ modify
define_player-returned ref id name s u i h =
    let (w, id_ref, found, h₁) = >>=-returned (ensure_string id) _ (name_player id name s) u i h in
    let (head, wrote_head, h₂) =
      lift-returned (write_byte 2 then_write write_var_uint ref then_write write_var_uint id_ref) _
        w u i h₁ in
    let (x, name_ref, named, h₃) = >>=-returned (ensure_optional name) _ w u i h₂ in
    let (tail, wrote_tail, same, number) =
      write_out-returned (write_var_uint name_ref) (λ tail. head ++ tail) ref i x u h₃ in
    (
      w,
      x,
      id_ref,
      name_ref,
      head ++ tail,
      found,
      named,
      then_write-ok3 (write_byte 2) (write_var_uint ref) (write_var_uint id_ref)
          (write_var_uint name_ref) head tail wrote_head wrote_tail,
      same,
      number,
    )

or_known-AreUnits : (a b : Option Text) → AreUnits a → AreUnits b → AreUnits (or_known a b)
or_known-AreUnits none b units units' = units'
or_known-AreUnits (some a) b units units' = units

named_units :
    (id : Text) (name : Option Text) (s x : Dictionary)
    → AreUnits name
    → KnownNames s
    → x.player_names ≡ text_set id name s.player_names
    → KnownNames x
named_units id name s x units known same v =
    let e = ap (text_get v) same ∙ text_get-text_set v id name s.player_names in
    elim (Bool-cases (str_eq v id)) [
      | inl match ↦
          let e' : text_get v x.player_names ≡ some name = rw match at e in
          subst (λ o. AreUnits (known_in o)) (sym e') units
      | inr differ ↦
          let e' : text_get v x.player_names ≡ text_get v s.player_names = rw differ at e in
          subst (λ o. AreUnits (known_in o)) (sym e') (known v)
    ]

module _ (d : Double) where
  player_record-Grows :
      (ref : ℕ) (id : Text) (name : Option Text) (ids : List (Text × ℕ)) (next : ℕ)
      (s x : Dictionary) (id_ref name_ref : ℕ) (bytes : List ℕ)
      → StringsGrow d (name_player id name (record s { player_ids = ids; next_player_id = next })) x
      → text_get id x.string_ids ≡ some id_ref
      → Numbered d name name_ref x
      → (write_byte 2
          then_write write_var_uint ref
          then_write write_var_uint id_ref
          then_write write_var_uint name_ref)
        ≡ ok bytes
      → ((v : Text) (j : ℕ) → text_get v s.player_ids ≡ some j → text_get v ids ≡ some j)
      → ((t : DecodeTables) → Synced t s → KeepsPlayers t s ref id ids next)
      → AreUnits name
      → Grows d s (put bytes x)
  unfolding read_record
  player_record-Grows ref id name ids next s x id_ref name_ref bytes g id_there named wrote extend
        keeps units =
      record {
        bytes = g.bytes ++ bytes;
        written = rw g.written (append_assoc s.payload g.bytes bytes);
        extends = record {
          strings = g.extends;
          players = λ v j e. rw g.same_players (extend v j e);
          schemas = λ n schema e. rw g.same_schemas e;
        };
        names = λ known. named_units id name s x units known g.same_names;
        decodes = λ first st synced.
            (let (strings, runs, numbers) = g.decodes first st synced.strings in
              let end = record st.tables {
                strings = strings;
                players = map_set ref (record { id = id; name = name }) st.tables.players;
              } in
              (
                end,
                Runs-append d first st (with_strings d st strings) (with_tables d st end) g.bytes
                    bytes runs
                    (Runs-tagged d first (with_strings d st strings) (with_tables d st end) 2 _
                      bytes refl
                      (undo_player_definition d (with_strings d st strings) x ref id_ref name_ref id
                        name numbers id_there named)
                      wrote),
                with_player st.tables s (put bytes x) strings ref id name ids next synced numbers
                    (keeps st.tables synced) g.same_players g.same_next_player g.same_names
                    g.same_schemas g.same_next_type,
              ));
      }

  define_player-Grows :
      (ref : ℕ) (id : Text) (name : Option Text) (ids : List (Text × ℕ)) (next : ℕ)
      (s u : Dictionary) (i : ℕ)
      → All IsUnit id
      → AreUnits name
      → ((v : Text) (j : ℕ) → text_get v s.player_ids ≡ some j → text_get v ids ≡ some j)
      → ((t : DecodeTables) → Synced t s → KeepsPlayers t s ref id ids next)
      → define_player ref id name (record s { player_ids = ids; next_player_id = next }) ≡ (u, ok i)
      → Grows d s u
        × (u.player_ids ≡ ids)
        × (i ≡ ref)
        × (u.player_names ≡ text_set id name s.player_names)
  define_player-Grows ref id name ids next s u i units name_units extend keeps h =
      let (w, x, id_ref, name_ref, bytes, found, named, wrote, same, number) =
        define_player-returned ref id name _ u i h in
      let (g, id_there) = ensure_string-StringsGrow d id _ w id_ref units found in
      let (g', name_there) = ensure_optional-StringsGrow d name w x name_ref name_units named in
      let g'' = StringsGrow-trans d _ w x g g' in
      subst
        (λ z.
          Grows d s z
          × (z.player_ids ≡ ids)
          × (i ≡ ref)
          × (z.player_names ≡ text_set id name s.player_names))
        (sym same)
        (
          player_record-Grows ref id name ids next s x id_ref name_ref bytes g''
              (g'.extends id id_ref id_there) name_there wrote extend keeps name_units,
          g''.same_players,
          number,
          g''.same_names,
        )

  -- Where ensure_player returns, from strings of code units and known names that are, the player has
  -- that number in the dictionary, with the given name, or with the name known before when none is
  -- given; the bytes it added to the payload take any decoder whose tables have the id and the name
  -- of every player of the dictionary before, and its strings and schemas, to one whose tables have
  -- those of the dictionary after; and no number that was given before has changed.
  pub ensure_player-Grows :
      (id : Text) (name : Option Text) (s u : Dictionary) (i : ℕ)
      → All IsUnit id
      → AreUnits name
      → KnownNames s
      → ensure_player id name s ≡ (u, ok i)
      → Grows d s u
        × (text_get id u.player_ids ≡ some i)
        × (known_name id u ≡ or_known name (known_name id s))
  unfolding ensure_player pure
  ensure_player-Grows id name s u i units name_units known h =
      let now = or_known name (known_name id s) in
      let now_units : AreUnits now = or_known-AreUnits name _ name_units (known id) in
      elim (Option-cases (text_get id s.player_ids)) [
        | inr (existing, found) ↦ elim (Bool-cases (is_known_name name (known_name id s))) [
          | inl same_name ↦
              let h' : pure existing s ≡ (u, ok i) = rw (found, same_name, ensure_player) at h in
              let same : s ≡ u = cc in
              let number : existing ≡ i = cc in
              subst
                (λ w. Grows d s w × (text_get id w.player_ids ≡ some i) × (known_name id w ≡ now))
                same
                (
                  Grows-refl d s,
                  rw (← number) found,
                  known_name_stays name (known_name id s) same_name,
                )
          | inr new_name ↦
              let h' : define_player existing id now s ≡ (u, ok i) =
                rw (found, new_name, ensure_player) at h in
              let (g, same, number, names) =
                define_player-Grows existing id now s.player_ids s.next_player_id s u i units
                  now_units (λ v j e. e) (old_keeps id existing s found) h' in
              (g, rw (same, number) found, name_given id now s u names)
        ]
        | inl new ↦
            let h' : define_player s.next_player_id id now (new_player id s) ≡ (u, ok i) =
              rw (new, ensure_player) at h in
            let (g, same, number, names) =
              define_player-Grows s.next_player_id id now
                (text_set id s.next_player_id s.player_ids) (suc s.next_player_id) s u i units
                now_units
                (λ v j e. ground (
                  arith,
                  e,
                  new,
                  text_get-text_set v id s.next_player_id s.player_ids,
                  str_eq→eq v id,
                ))
                (new_keeps id s) h' in
            (g, rw (same, number, text_get-text_set, str_eq_refl) refl, name_given id now s u names)
      ]
