-- ===== src/Trace/Scopes.antt =====
-- The definitions of states and components, and what the decoder makes of them.
use sapi_game.Base.{
  ℕ, suc, bit_and, ◌≡◌, refl, sym, subst, inl, inr, Option, some, List, [], ◌++◌, append-nil,
  Option-cases, All,
}
use sapi_game.Base.Maps.{map_get, map_set}
use sapi_game.Wire.Result.{Result, ok, ◌then_write◌}
use sapi_game.Wire.Varint.{write_byte, write_var_uint, read_var_uint}
use sapi_game.Wire.Utf8.{IsUnit}
use sapi_game.Wire.Raw.{Double}
use sapi_game.Wire.Reader.{
  Reader, Undoes, Undoes-pure, Undoes-bind, Undoes-last, Undoes-skip, Undoes-then_skip,
}
use sapi_game.Wire.Reader as Reader
use sapi_game.Wire.Container.{Text}
use sapi_game.Trace.Texts.{text_get}
use sapi_game.Trace.Act.{◌>>=◌, pure, throw, >>=-returned, lift-returned}
use sapi_game.Trace.Dictionary.{Dictionary, put, ensure_string, ensure_optional}
use sapi_game.Trace.Decoder.{DecodeTables, DecodeState, with_tables, get_string, read_record}
use sapi_game.Trace.Sync.{
  AreUnits, SyncedStrings, StringsGrow-trans, StringsGrow-Grows, Synced, Runs-nil, Grows,
  Grows-refl, Grows-trans,
}
use sapi_game.Trace.Strings.{
  undo_uint, write_out-returned, Runs-tagged, ensure_string-StringsGrow, Numbered,
  ensure_optional-StringsGrow, get_string_of, get_optional_of,
}
use sapi_game.Wire.Result.{then_write-ok4, component_before_state}
use sapi_game.Trace.Dictionary.{
  ensure_state, define_state, new_state, ensure_component, define_component, new_component,
}
use sapi_game.Trace.Decoder.{read_state_definition, read_component_definition}

-- The tables that the numbers of strings, players and schemas are looked up in.
pub record SameLookups (t t' : DecodeTables) : Type 0 where
  pub same_strings : t'.strings ≡ t.strings
  pub same_players : t'.players ≡ t.players
  pub same_schemas : t'.schemas ≡ t.schemas

-- A dictionary with other numbers for states and components, which the tables do not follow.
abbrev pub with_scopes : List (ℕ × ℕ) → ℕ → List (ℕ × ℕ) → ℕ → Dictionary → Dictionary
with_scopes states next_state components next_component s = record s {
  state_ids = states;
  next_state_id = next_state;
  component_ids = components;
  next_component_id = next_component;
}

Synced-scopes :
    (a : List (ℕ × ℕ)) (m : ℕ) (c : List (ℕ × ℕ)) (n : ℕ) (bytes : List ℕ) (t t' : DecodeTables)
    (s : Dictionary)
    → SameLookups t t'
    → Synced t s
    → Synced t' (put bytes (with_scopes a m c n s))
Synced-scopes a m c n bytes t t' s same g = record {
  strings = λ v i e. rw same.same_strings (g.strings v i e);
  players = λ v i e. rw same.same_players (g.players v i e);
  schemas = λ v schema e. rw same.same_schemas (g.schemas v schema e);
  schema_range = λ i schema e. g.schema_range i schema (rw same.same_schemas at e);
  schema_numbers = g.schema_numbers;
  schema_names = g.schema_names;
  custom_from = g.custom_from;
}

module _ (d : Double) where
  -- Other numbers for states and components, and no bytes.
  with_scopes-Grows :
      (a : List (ℕ × ℕ)) (m : ℕ) (c : List (ℕ × ℕ)) (n : ℕ) (s : Dictionary)
      → Grows d s (with_scopes a m c n s)
  with_scopes-Grows a m c n s = record {
    bytes = [];
    written = sym (append-nil s.payload);
    extends = record { strings = λ v i e. e; players = λ v i e. e; schemas = λ v schema e. e };
    names = λ known. known;
    decodes = λ first st g. (
      st.tables,
      Runs-nil d first st,
      record {
        strings = g.strings;
        players = g.players;
        schemas = g.schemas;
        schema_range = g.schema_range;
        schema_numbers = g.schema_numbers;
        schema_names = g.schema_names;
        custom_from = g.custom_from;
      },
    );
  }

  -- A record that changes neither strings nor players nor schemas.
  record-Grows :
      (tag : ℕ) (p : Result (List ℕ)) (bytes : List ℕ) (change : DecodeTables → DecodeTables)
      (s : Dictionary)
      → bit_and tag 0xff ≡ tag
      → ((t : DecodeTables) → SameLookups t (change t))
      → ((first : ℕ) (st : DecodeState d)
          → SyncedStrings st.tables s
          → Undoes (read_record d first st tag) p (with_tables d st (change st.tables)))
      → (write_byte tag then_write p) ≡ ok bytes
      → Grows d s (put bytes s)
  record-Grows tag p bytes change s small same undo wrote = record {
    bytes = bytes;
    written = refl;
    extends = record { strings = λ v i e. e; players = λ v i e. e; schemas = λ v schema e. e };
    names = λ known. known;
    decodes = λ first st g. (
      change st.tables,
      Runs-tagged d first st (with_tables d st (change st.tables)) tag p bytes small
          (undo first st g.strings) wrote,
      Synced-scopes s.state_ids s.next_state_id s.component_ids s.next_component_id bytes st.tables
          (change st.tables) s (same st.tables) g,
    );
  }

  undo_state :
      (st : DecodeState d) (s : Dictionary) (ref name_ref : ℕ) (name : Text)
      → SyncedStrings st.tables s
      → text_get name s.string_ids ≡ some name_ref
      → Undoes
          (read_state_definition d st)
          (write_var_uint ref then_write write_var_uint name_ref)
          (with_tables d st (record st.tables { states = map_set ref name st.tables.states }))
  unfolding read_state_definition Reader.◌>>=◌ Reader.pure
  undo_state st s ref name_ref name g there =
      Undoes-bind read_var_uint _ (write_var_uint ref) _ ref _ (undo_uint ref) (
        Undoes-then_skip read_var_uint _ (write_var_uint name_ref) name_ref _ (undo_uint name_ref)
          (λ reader. (rw (get_string_of d st.tables s name name_ref g there reader) refl)))

  pub ensure_state-Grows :
      (state : ℕ) (name : Text) (s u : Dictionary) (i : ℕ)
      → All IsUnit name
      → ensure_state state name s ≡ (u, ok i)
      → Grows d s u
  unfolding ensure_state define_state pure ◌>>=◌ read_record
  ensure_state-Grows state name s u i units h = elim (Option-cases (map_get state s.state_ids)) [
    | inr (existing, found) ↦
        let h' : pure existing s ≡ (u, ok i) = rw (found, ensure_state) at h in
        let same : s ≡ u = cc in subst (Grows d s) same (Grows-refl d s)
    | inl new ↦
        let ref = s.next_state_id in
        let h' : define_state name ref (new_state state s) ≡ (u, ok i) =
          rw (new, ensure_state) at h in
        let (w, name_ref, found, h₁) =
          >>=-returned (ensure_string name) _ (new_state state s) u i h' in
        let (bytes, wrote, same, number) =
          write_out-returned
            (write_byte 3 then_write write_var_uint ref then_write write_var_uint name_ref) (λ b. b)
            ref i w u h₁ in
        let (g, there) =
          ensure_string-StringsGrow d name (new_state state s) w name_ref units found in
        subst (Grows d s) (sym same) (
          Grows-trans d s (new_state state s) (put bytes w)
            (with_scopes-Grows (map_set state ref s.state_ids) (suc ref) s.component_ids
              s.next_component_id s)
            (Grows-trans d (new_state state s) w (put bytes w)
              (StringsGrow-Grows d (new_state state s) w g)
              (record-Grows 3 (write_var_uint ref then_write write_var_uint name_ref) bytes
                (λ t. record t { states = map_set ref name t.states }) w refl
                (λ t. record { same_strings = refl; same_players = refl; same_schemas = refl })
                (λ first st synced. undo_state st w ref name_ref name synced there) wrote)))
  ]

  undo_component :
      (st : DecodeState d) (s : Dictionary) (ref state_ref name_ref tag_ref : ℕ) (name : Text)
      (tag : Option Text)
      → SyncedStrings st.tables s
      → text_get name s.string_ids ≡ some name_ref
      → Numbered d tag tag_ref s
      → Undoes
          (read_component_definition d st)
          (write_var_uint ref
            then_write write_var_uint state_ref
            then_write write_var_uint name_ref
            then_write write_var_uint tag_ref)
          (with_tables d st (record st.tables {
            components =
                map_set ref
                  (record { state_ref = state_ref; name = name; tag = tag })
                  st.tables.components;
          }))
  unfolding read_component_definition Reader.◌>>=◌ Reader.pure
  undo_component st s ref state_ref name_ref tag_ref name tag g there named =
      Undoes-bind read_var_uint _ (write_var_uint ref) _ ref _ (undo_uint ref) (
        Undoes-bind read_var_uint _ (write_var_uint state_ref) _ state_ref _ (undo_uint state_ref) (
          Undoes-bind read_var_uint _ (write_var_uint name_ref) _ name_ref _ (undo_uint name_ref) (
            Undoes-skip (get_string st.tables name_ref) _ _ name _
              (get_string_of d st.tables s name name_ref g there)
              (Undoes-then_skip read_var_uint _ (write_var_uint tag_ref) tag_ref _
                (undo_uint tag_ref)
                (λ reader. (rw (get_optional_of d st.tables s tag tag_ref g named reader) refl))))))

  -- The definition of a component, in a dictionary that has counted it.
  define_component-Grows :
      (name : Text) (tag : Option Text) (state_ref ref : ℕ) (s u : Dictionary) (i : ℕ)
      → All IsUnit name
      → AreUnits tag
      → define_component name tag state_ref ref s ≡ (u, ok i)
      → Grows d s u
  unfolding define_component pure ◌>>=◌ read_record
  define_component-Grows name tag state_ref ref s u i units tag_units h =
      let (w, name_ref, found, h₁) = >>=-returned (ensure_string name) _ s u i h in
      let (head, wrote_head, h₂) =
        lift-returned
          (write_byte 4
            then_write write_var_uint ref
            then_write write_var_uint state_ref
            then_write write_var_uint name_ref)
          _ w u i h₁ in
      let (x, tag_ref, tagged', h₃) = >>=-returned (ensure_optional tag) _ w u i h₂ in
      let (tail, wrote_tail, same, number) =
        write_out-returned (write_var_uint tag_ref) (λ tail. head ++ tail) ref i x u h₃ in
      let (g, there) = ensure_string-StringsGrow d name s w name_ref units found in
      let (g', tag_there) = ensure_optional-StringsGrow d tag w x tag_ref tag_units tagged' in
      let wrote =
        then_write-ok4 (write_byte 4) (write_var_uint ref) (write_var_uint state_ref)
          (write_var_uint name_ref) (write_var_uint tag_ref) head tail wrote_head wrote_tail in
      subst (Grows d s) (sym same) (
        Grows-trans d s x (put (head ++ tail) x)
          (StringsGrow-Grows d s x (StringsGrow-trans d s w x g g'))
          (record-Grows 4 _ (head ++ tail)
            (λ t. record t {
              components =
                  map_set ref (record { state_ref = state_ref; name = name; tag = tag })
                    t.components;
            })
            x refl (λ t. record { same_strings = refl; same_players = refl; same_schemas = refl })
            (λ first st synced.
              undo_component st x ref state_ref name_ref tag_ref name tag synced
                (g'.extends name name_ref there) tag_there)
            wrote))

  pub ensure_component-Grows :
      (component state : ℕ) (name : Text) (tag : Option Text) (s u : Dictionary) (i : ℕ)
      → All IsUnit name
      → AreUnits tag
      → ensure_component component state name tag s ≡ (u, ok i)
      → Grows d s u
  unfolding ensure_component pure throw
  ensure_component-Grows component state name tag s u i units tag_units h =
      elim (Option-cases (map_get component s.component_ids)) [
        | inr (existing, found) ↦
            let h' : pure existing s ≡ (u, ok i) = rw (found, ensure_component) at h in
            let same : s ≡ u = cc in subst (Grows d s) same (Grows-refl d s)
        | inl new ↦ elim (Option-cases (map_get state s.state_ids)) [
          | inl absent ↦
              let h' : throw {A = ℕ} component_before_state s ≡ (u, ok i) =
                rw (new, absent, ensure_component) at h in
              absurd cc
          | inr (state_ref, found) ↦
              let ref = s.next_component_id in
              let h' : define_component name tag state_ref ref (new_component component s)
                  ≡ (u, ok i) =
                rw (new, found, ensure_component) at h in
              Grows-trans d s (new_component component s) u
                (with_scopes-Grows s.state_ids s.next_state_id
                  (map_set component ref s.component_ids) (suc ref) s)
                (define_component-Grows name tag state_ref ref (new_component component s) u i units
                  tag_units h')
        ]
      ]
