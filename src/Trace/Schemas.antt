-- ===== src/Trace/Schemas.antt =====
-- The definitions of schemas, and what the decoder makes of them.
use sapi_game.Base.{
  ℕ, suc, ◌≤◌, ◌<◌, ◌≡◌, refl, sym, subst, inl, inr, Bool, true, false, not, none, some, List, [],
  ◌∷◌, ◌++◌, append_assoc, arith, ◌==◌, if◌then◌else◌, ==_iff, ==_refl, Bool-cases, Option-cases,
  length, All,
}
use sapi_game.Base.Maps.{map_get, map_set, map_get-map_set}
use sapi_game.Wire.Result.{ok, ◌then_write◌, then_write-eq_ok}
use sapi_game.Wire.Varint.{write_byte, write_var_uint, read_var_uint}
use sapi_game.Wire.Utf8.{IsUnit}
use sapi_game.Wire.Raw.{Double, str_eq}
use sapi_game.Wire.Reader.{Reader, Undoes, Undoes-pure, Undoes-bind, Undoes-last, Undoes-skip}
use sapi_game.Wire.Reader as Reader
use sapi_game.Wire.Container.{Text}
use sapi_game.Wire.Result.{then_write-ok4, schema_collision}
use sapi_game.Trace.Dictionary.{known_in}
use sapi_game.Trace.Texts.{text_get, text_set, text_get-text_set, str_eq→eq, str_eq_refl}
use sapi_game.Trace.Act.{◌>>=◌, pure, throw, modify, >>=-returned, lift-returned, pure-returned}
use sapi_game.Trace.Dictionary.{Dictionary, FieldRecord, CustomSchemaRecord, put, ensure_string}
use sapi_game.Trace.Decoder.{
  SchemaDefinition, DecodeTables, DecodeState, with_tables, get_string, read_record,
}
use sapi_game.Trace.Sync.{
  AreUnits, SyncedStrings, with_strings, StringsGrow, StringsGrow-refl, StringsGrow-trans, Synced,
  Runs-append, Grows, Grows-refl, decoded_schema,
}
use sapi_game.Trace.Strings.{undo_uint, Runs-tagged, ensure_string-StringsGrow, get_string_of}
use sapi_game.Trace.Types.{
  TraceFieldType, field_type_code, boolean_field, uint_field, int_field, number_field, string_field,
  player_field,
}
use sapi_game.Trace.Dictionary.{
  TraceEventSchema, normalize_fields, schema_signature, ensure_names, write_schema_fields,
  new_schema, define_schema, ensure_schema,
}
use sapi_game.Trace.Decoder.{read_schema_fields, read_schema_definition}
use sapi_game.Trace.Sync.{decoded_field, decoded_fields}
use sapi_game.Wire.Container.RoundTrip.{undo_byte}
use sapi_game.Trace.Reads.{Reads}
use sapi_game.Trace.ValueBack.{joined}

-- The names of the fields are strings of code units.
abbrev pub AreNames : List FieldRecord → Type 0
AreNames [] = Unit {0}
AreNames (f ∷ fields) = All IsUnit f.name × AreNames fields

code_small : (type : TraceFieldType) → field_type_code type < 256
unfolding field_type_code
code_small boolean_field = omega arith
code_small uint_field = omega arith
code_small int_field = omega arith
code_small number_field = omega arith
code_small string_field = omega arith
code_small player_field = omega arith

flag_small : (b : Bool) → (if b then 1 else 0) < 256
flag_small true = omega arith
flag_small false = omega arith

flag_back : (b : Bool) → not ((if b then 1 else 0) == 0) ≡ b
flag_back true = refl
flag_back false = refl

module _ (d : Double) where
  -- The fields of a schema, written and read back.
  record FieldsWritten (s u : Dictionary) (fields : List FieldRecord) (bytes : List ℕ)
      : Type 0 where
    grows : StringsGrow d s u
    reads :
        (t : DecodeTables) (w : Dictionary)
        → SyncedStrings t w
        → ((v : Text) (i : ℕ) → text_get v u.string_ids ≡ some i → text_get v w.string_ids ≡ some i)
        → Reads (read_schema_fields t (length fields)) bytes (decoded_fields fields)

  read_one_field :
      (t : DecodeTables) (w : Dictionary) (f : FieldRecord) (ref : ℕ) (fields : List FieldRecord)
      (head tail : List ℕ)
      → SyncedStrings t w
      → text_get f.name w.string_ids ≡ some ref
      → (write_var_uint ref
          then_write write_byte (field_type_code f.type)
          then_write write_byte (if f.optional then 1 else 0))
        ≡ ok head
      → Reads (read_schema_fields t (length fields)) tail (decoded_fields fields)
      → Reads
          (read_schema_fields t (suc (length fields)))
          (head ++ tail)
          (decoded_field f ∷ decoded_fields fields)
  unfolding read_schema_fields Reader.◌>>=◌ Reader.pure
  read_one_field t w f ref fields head tail g there wrote reads rest =
      let (rb, more, e, e', same) =
        then_write-eq_ok (write_var_uint ref)
          (write_byte (field_type_code f.type) then_write write_byte (if f.optional then 1 else 0))
          wrote in
      let (tb, ob, e₁, e₂, same') =
        then_write-eq_ok (write_byte (field_type_code f.type))
          (write_byte (if f.optional then 1 else 0)) e' in
      rw
        (
          ← same,
          ← same',
          append_assoc,
          append_assoc,
          append_assoc,
          undo_uint ref rb (tb ++ (ob ++ (tail ++ rest))) e,
          get_string_of d t w f.name ref g there (tb ++ (ob ++ (tail ++ rest))),
          undo_byte (field_type_code f.type) (code_small f.type) tb (ob ++ (tail ++ rest)) e₁,
          undo_byte (if f.optional then 1 else 0) (flag_small f.optional) ob (tail ++ rest) e₂,
          reads rest,
          flag_back,
        )
        refl

  write_schema_fields-Written :
      (fields : List FieldRecord) (s u : Dictionary) (bytes : List ℕ)
      → AreNames fields
      → write_schema_fields fields s ≡ (u, ok bytes)
      → FieldsWritten s u fields bytes
  unfolding write_schema_fields read_schema_fields pure Reader.pure
  write_schema_fields-Written [] s u bytes units h =
      let same : s ≡ u = cc in
      let none_left : bytes ≡ [] = cc in
      record {
        grows = subst (StringsGrow d s) same (StringsGrow-refl d s);
        reads = λ t w g later rest. rw none_left refl;
      }
  write_schema_fields-Written (f ∷ fields) s u bytes units h =
      let (v, ref, found, h₁) = >>=-returned (ensure_string f.name) _ s u bytes h in
      let (head, wrote, h₂) =
        lift-returned
          (write_var_uint ref
            then_write write_byte (field_type_code f.type)
            then_write write_byte (if f.optional then 1 else 0))
          _ v u bytes h₁ in
      let (tail, e, same) =
        joined (write_schema_fields fields) (λ tail. head ++ tail) v u bytes h₂ in
      let (g, there) = ensure_string-StringsGrow d f.name s v ref units.0 found in
      let others = write_schema_fields-Written fields v u tail units.1 e in
      record {
        grows = StringsGrow-trans d s v u g others.grows;
        reads = λ t w synced later.
            subst
              (λ b.
                Reads (read_schema_fields t (suc (length fields))) b
                  (decoded_field f ∷ decoded_fields fields))
              same
              (read_one_field t w f ref fields head tail synced
                (later f.name ref (others.grows.extends f.name ref there)) wrote
                (others.reads t w synced later));
      }

  ensure_names-StringsGrow :
      (fields : List FieldRecord) (s u : Dictionary)
      → AreNames fields
      → ensure_names fields s ≡ (u, ok tt)
      → StringsGrow d s u
  unfolding ensure_names pure
  ensure_names-StringsGrow [] s u units h =
      let same : s ≡ u = cc in subst (StringsGrow d s) same (StringsGrow-refl d s)
  ensure_names-StringsGrow (f ∷ fields) s u units h =
      let (v, ref, found, h₁) = >>=-returned (ensure_string f.name) _ s u tt h in
      StringsGrow-trans d s v u (ensure_string-StringsGrow d f.name s v ref units.0 found).0
        (ensure_names-StringsGrow fields v u units.1 h₁)

  undo_schema :
      (st : DecodeState d) (s : Dictionary) (schema : CustomSchemaRecord) (name_ref : ℕ)
      (tail : List ℕ)
      → SyncedStrings st.tables s
      → text_get schema.name s.string_ids ≡ some name_ref
      → Reads
          (read_schema_fields st.tables (length schema.fields))
          tail
          (decoded_fields schema.fields)
      → Undoes
          (read_schema_definition d st)
          (write_var_uint schema.type_id
            then_write write_var_uint name_ref
            then_write write_var_uint (length schema.fields)
            then_write ok tail)
          (with_tables d st (record st.tables {
            schemas = map_set schema.type_id (decoded_schema schema) st.tables.schemas;
          }))
  unfolding read_schema_definition
  undo_schema st s schema name_ref tail g there reads =
      Undoes-bind read_var_uint _ (write_var_uint schema.type_id) _ schema.type_id _
        (undo_uint schema.type_id)
        (Undoes-bind read_var_uint _ (write_var_uint name_ref) _ name_ref _ (undo_uint name_ref) (
          Undoes-skip (get_string st.tables name_ref) _ _ schema.name _
            (get_string_of d st.tables s schema.name name_ref g there)
            (Undoes-bind read_var_uint _ (write_var_uint (length schema.fields)) _
              (length schema.fields) _ (undo_uint (length schema.fields))
              (Undoes-last (read_schema_fields st.tables (length schema.fields)) _ (ok tail)
                (decoded_fields schema.fields)
                (λ bytes rest h. (let same : tail ≡ bytes = cc in rw (← same) (reads rest)))))))

  -- The tables with one more schema.
  with_schema :
      (t : DecodeTables) (s x : Dictionary) (strings : List (ℕ × Text))
      (schema : CustomSchemaRecord)
      → Synced t s
      → SyncedStrings (record t { strings = strings }) x
      → schema.type_id ≡ s.next_custom_type_id
      → x.player_ids ≡ s.player_ids
      → x.next_player_id ≡ s.next_player_id
      → x.player_names ≡ s.player_names
      → x.schema_ids ≡ text_set schema.name schema s.schema_ids
      → x.next_custom_type_id ≡ suc s.next_custom_type_id
      → Synced
          (record t {
            strings = strings;
            schemas = map_set schema.type_id (decoded_schema schema) t.schemas;
          })
          x
  with_schema t s x strings schema g numbers number p n names sc ty = record {
    strings = numbers;
    players = λ v i e. rw (n, names) (g.players v i (rw p at e));
    schemas = λ v other e. (found v other (rw sc at e)).0;
    schema_range = λ i other e. rw ty (in_range i other e);
    schema_numbers = λ v other e. rw ty ((found v other (rw sc at e)).1);
    schema_names = λ v other e. (found v other (rw sc at e)).2;
    custom_from = let from = g.custom_from in rw ty (omega arith);
  }
    where
      found :
          (v : Text) (other : CustomSchemaRecord)
          → text_get v (text_set schema.name schema s.schema_ids) ≡ some other
          → (map_get other.type_id (map_set schema.type_id (decoded_schema schema) t.schemas)
              ≡ some (decoded_schema other))
            × (other.type_id < suc s.next_custom_type_id)
            × (other.name ≡ v)
      found v other e = elim (Bool-cases (str_eq v schema.name)) [
        | inl match ↦
            let e' : some schema ≡ some other =
              rw (text_get-text_set v schema.name schema s.schema_ids, match) at e in
            let same : schema ≡ other = cc in
            subst
              (λ o.
                (map_get o.type_id (map_set schema.type_id (decoded_schema schema) t.schemas)
                  ≡ some (decoded_schema o))
                × (o.type_id < suc s.next_custom_type_id)
                × (o.name ≡ v))
              same
              (
                rw
                    (
                      map_get-map_set schema.type_id schema.type_id (decoded_schema schema)
                          t.schemas,
                      ==_refl,
                    )
                    refl,
                omega (arith, number),
                sym (str_eq→eq v schema.name match),
              )
        | inr differ ↦
            let e' : text_get v s.schema_ids ≡ some other =
              rw (text_get-text_set v schema.name schema s.schema_ids, differ) at e in
            let below = g.schema_numbers v other e' in
            let apart : (other.type_id == schema.type_id) ≡ false =
              ground (arith, below, number, ==_iff other.type_id schema.type_id) in
            (
              rw
                  (
                    map_get-map_set other.type_id schema.type_id (decoded_schema schema) t.schemas,
                    apart,
                  )
                  (g.schemas v other e'),
              omega arith,
              g.schema_names v other e',
            )
      ]

      in_range :
          (i : ℕ) (other : SchemaDefinition)
          → map_get i (map_set schema.type_id (decoded_schema schema) t.schemas) ≡ some other
          → (128 ≤ i) × (i < suc s.next_custom_type_id)
      in_range i other e = elim (Bool-cases (i == schema.type_id)) [
        | inl match ↦
            let same : i ≡ schema.type_id = ground (arith, match, ==_iff i schema.type_id) in
            let from = g.custom_from in (omega (arith, number), omega (arith, number))
        | inr differ ↦
            let e' : map_get i t.schemas ≡ some other =
              rw (map_get-map_set i schema.type_id (decoded_schema schema) t.schemas, differ) at
                e in
            let (from, below) = g.schema_range i other e' in (from, omega arith)
      ]

  schema_record-Grows :
      (schema : CustomSchemaRecord) (s x : Dictionary) (name_ref : ℕ) (head tail : List ℕ)
      → schema.type_id ≡ s.next_custom_type_id
      → text_get schema.name s.schema_ids ≡ none
      → StringsGrow d (new_schema schema s) x
      → text_get schema.name x.string_ids ≡ some name_ref
      → ((t : DecodeTables)
          → SyncedStrings t x
          → Reads (read_schema_fields t (length schema.fields)) tail (decoded_fields schema.fields))
      → (write_byte 5
          then_write write_var_uint schema.type_id
          then_write write_var_uint name_ref
          then_write write_var_uint (length schema.fields))
        ≡ ok head
      → Grows d s (put (head ++ tail) x)
  unfolding read_record
  schema_record-Grows schema s x name_ref head tail number new g there reads wrote =
      let all =
        then_write-ok4 (write_byte 5) (write_var_uint schema.type_id) (write_var_uint name_ref)
          (write_var_uint (length schema.fields)) (ok tail) head tail wrote refl in
      record {
        bytes = g.bytes ++ (head ++ tail);
        written = rw g.written (append_assoc s.payload g.bytes (head ++ tail));
        extends = record {
          strings = g.extends;
          players = λ v j e. rw g.same_players e;
          schemas = λ v other e. rw g.same_schemas (kept v other e);
        };
        names = λ known v.
            subst (λ names. AreUnits (known_in (text_get v names))) (sym g.same_names) (known v);
        decodes = λ first st synced.
            (let (strings, runs, numbers) = g.decodes first st synced.strings in
              let st₁ = with_strings d st strings in
              let stop = record st.tables {
                strings = strings;
                schemas = map_set schema.type_id (decoded_schema schema) st.tables.schemas;
              } in
              (
                stop,
                Runs-append d first st st₁ (with_tables d st stop) g.bytes (head ++ tail) runs (
                    Runs-tagged d first st₁ (with_tables d st stop) 5 _ (head ++ tail) refl
                      (undo_schema st₁ x schema name_ref tail numbers there
                        (reads st₁.tables numbers))
                      all),
                with_schema st.tables s (put (head ++ tail) x) strings schema synced numbers number
                    g.same_players g.same_next_player g.same_names g.same_schemas g.same_next_type,
              ));
      }
    where
      kept :
          (v : Text) (other : CustomSchemaRecord)
          → text_get v s.schema_ids ≡ some other
          → text_get v (text_set schema.name schema s.schema_ids) ≡ some other
      kept v other e = ground (
        arith,
        e,
        new,
        text_get-text_set v schema.name schema s.schema_ids,
        str_eq→eq v schema.name,
      )

  define_schema-Grows :
      (schema r : CustomSchemaRecord) (s u : Dictionary)
      → schema.type_id ≡ s.next_custom_type_id
      → text_get schema.name s.schema_ids ≡ none
      → All IsUnit schema.name
      → AreNames schema.fields
      → define_schema schema s ≡ (u, ok r)
      → Grows d s u × (text_get schema.name u.schema_ids ≡ some r) × (schema ≡ r)
  unfolding define_schema ◌>>=◌ modify pure
  define_schema-Grows schema r s u number new units names h =
      let start = new_schema schema s in
      let (v, name_ref, found, h₁) = >>=-returned (ensure_string schema.name) _ start u r h in
      let (w, x₁, e, h₂) = >>=-returned (ensure_names schema.fields) _ v u r h₁ in
      let (head, wrote, h₃) =
        lift-returned
          (write_byte 5
            then_write write_var_uint schema.type_id
            then_write write_var_uint name_ref
            then_write write_var_uint (length schema.fields))
          _ w u r h₂ in
      let (x, tail, e', h₄) = >>=-returned (write_schema_fields schema.fields) _ w u r h₃ in
      let (same, result) = pure-returned (put (head ++ tail) x) u schema r h₄ in
      let (g, there) = ensure_string-StringsGrow d schema.name start v name_ref units found in
      let g' = ensure_names-StringsGrow schema.fields v w names e in
      let fields = write_schema_fields-Written schema.fields w x tail names e' in
      let g'' = StringsGrow-trans d start v x g (StringsGrow-trans d v w x g' fields.grows) in
      let there' =
        fields.grows.extends schema.name name_ref (g'.extends schema.name name_ref there) in
      subst (λ z. Grows d s z × (text_get schema.name z.schema_ids ≡ some r) × (schema ≡ r)) same
        (
          schema_record-Grows schema s x name_ref head tail number new g'' there'
              (λ t synced. fields.reads t x synced (λ v i e. e)) wrote,
          rw g''.same_schemas (rw (← result, text_get-text_set, str_eq_refl) refl),
          result,
        )

  -- Where ensure_schema returns a schema, from names of code units, the schema is in the dictionary
  -- under the name and has the signature of the fields given; the bytes added to the payload take any
  -- decoder whose tables are in step with the dictionary before to one in step with it after; and no
  -- number that was given before has changed.
  pub ensure_schema-Grows :
      (schema : TraceEventSchema) (r : CustomSchemaRecord) (s u : Dictionary)
      → All IsUnit schema.name
      → AreNames (normalize_fields schema.fields)
      → ensure_schema schema s ≡ (u, ok r)
      → Grows d s u
        × (text_get schema.name u.schema_ids ≡ some r)
        × (str_eq (schema_signature r.fields) (schema_signature (normalize_fields schema.fields))
            ≡ true)
  unfolding ensure_schema pure throw
  ensure_schema-Grows schema r s u units names h =
      let fields = normalize_fields schema.fields in
      elim (Option-cases (text_get schema.name s.schema_ids)) [
        | inl new ↦
            let defined : CustomSchemaRecord = record {
              type_id = s.next_custom_type_id;
              name = schema.name;
              fields = fields;
            } in
            let h' : define_schema defined s ≡ (u, ok r) = rw (new, ensure_schema) at h in
            let (g, there, result) = define_schema-Grows defined r s u refl new units names h' in
            (g, there, rw (← result) (str_eq_refl (schema_signature fields)))
        | inr (existing, found) ↦
            elim (Bool-cases
              (str_eq (schema_signature existing.fields) (schema_signature fields))) [
                | inl match ↦
                    let h' : pure existing s ≡ (u, ok r) = rw (found, match, ensure_schema) at h in
                    let (same, result) = pure-returned s u existing r h' in
                    (
                      subst (Grows d s) same (Grows-refl d s),
                      subst (λ z. text_get schema.name z.schema_ids ≡ some r) same
                          (rw (← result) found),
                      rw (← result) match,
                    )
                | inr differ ↦
                    let h' : throw {A = CustomSchemaRecord} schema_collision s ≡ (u, ok r) =
                      rw (found, differ, ensure_schema) at h in
                    absurd cc
              ]
      ]
