-- ===== src/Trace/Sync.antt =====
-- How the tables of the decoder follow the dictionary of the session.
use sapi_game.Base.{
  ℕ, zero, suc, ◌≤◌, ◌<◌, ◌≡◌, refl, sym, ap, ◌∙◌, subst, Option, none, some, List, [], ◌∷◌, ◌++◌,
  append-nil, append_assoc, arith, length, length-append, All,
}
use sapi_game.Base.Maps.{map_get}
use sapi_game.Wire.Result.{ok}
use sapi_game.Wire.Raw.{Double}
use sapi_game.Wire.Utf8.{IsUnit}
use sapi_game.Wire.Container.{Text}
use sapi_game.Trace.Types.{field_type_code}
use sapi_game.Trace.Texts.{text_get}
use sapi_game.Trace.Dictionary.{Dictionary, FieldRecord, CustomSchemaRecord, known_in, known_name}
use sapi_game.Trace.Decoder.{
  PlayerDefinition, SchemaField, SchemaDefinition, DecodeTables, DecodeState, with_tables,
  read_record, decode_records,
}

-- What the decoder has for a schema of the session.
abbrev pub decoded_field : FieldRecord → SchemaField
decoded_field f = record { name = f.name; type = field_type_code f.type; optional = f.optional }

abbrev pub decoded_fields : List FieldRecord → List SchemaField
decoded_fields [] = []
decoded_fields (f ∷ fields) = decoded_field f ∷ decoded_fields fields

abbrev pub decoded_schema : CustomSchemaRecord → SchemaDefinition
decoded_schema schema = record { name = schema.name; fields = decoded_fields schema.fields }

-- Every number that the session has given is one that it has counted, and the tables have under it
-- what it stands for. The schemas of the tables are numbered from 128 on.
abbrev pub SyncedStrings : DecodeTables → Dictionary → Type 0
SyncedStrings t s =
    (value : Text) (i : ℕ)
    → text_get value s.string_ids ≡ some i
    → (i < s.next_string_id) × (map_get i t.strings ≡ some value)

pub record Synced (t : DecodeTables) (s : Dictionary) : Type 0 where
  pub strings : SyncedStrings t s
  pub players :
      (id : Text) (i : ℕ)
      → text_get id s.player_ids ≡ some i
      → (i < s.next_player_id)
        × ((p : PlayerDefinition) × (map_get i t.players ≡ some p)
            × (p.id ≡ id)
            × (p.name ≡ known_name id s))
  pub schemas :
      (name : Text) (schema : CustomSchemaRecord)
      → text_get name s.schema_ids ≡ some schema
      → map_get schema.type_id t.schemas ≡ some (decoded_schema schema)
  pub schema_range :
      (i : ℕ) (schema : SchemaDefinition)
      → map_get i t.schemas ≡ some schema
      → (128 ≤ i) × (i < s.next_custom_type_id)
  pub schema_numbers :
      (name : Text) (schema : CustomSchemaRecord)
      → text_get name s.schema_ids ≡ some schema
      → schema.type_id < s.next_custom_type_id
  pub schema_names :
      (name : Text) (schema : CustomSchemaRecord)
      → text_get name s.schema_ids ≡ some schema
      → schema.name ≡ name
  pub custom_from : 128 ≤ s.next_custom_type_id

-- What was numbered stays numbered.
pub record Extends (s u : Dictionary) : Type 0 where
  pub strings :
      (value : Text) (i : ℕ)
      → text_get value s.string_ids ≡ some i
      → text_get value u.string_ids ≡ some i
  pub players :
      (id : Text) (i : ℕ) → text_get id s.player_ids ≡ some i → text_get id u.player_ids ≡ some i
  pub schemas :
      (name : Text) (schema : CustomSchemaRecord)
      → text_get name s.schema_ids ≡ some schema
      → text_get name u.schema_ids ≡ some schema

pub Extends-refl : (s : Dictionary) → Extends s s
Extends-refl s = record { strings = λ v i h. h; players = λ v i h. h; schemas = λ n schema h. h }

pub Extends-trans : (s u w : Dictionary) → Extends s u → Extends u w → Extends s w
Extends-trans s u w e f = record {
  strings = λ v i h. f.strings v i (e.strings v i h);
  players = λ v i h. f.players v i (e.players v i h);
  schemas = λ n schema h. f.schemas n schema (e.schemas n schema h);
}

abbrev pub AreUnits : Option Text → Type 0
AreUnits none = Unit {0}
AreUnits (some value) = All IsUnit value

-- The names that the session knows are strings.
abbrev pub KnownNames : Dictionary → Type 0
KnownNames s = (id : Text) → AreUnits (known_name id s)

module _ (d : Double) where
  -- From `st`, the records in `bytes` take the decoder to `end`, whatever follows.
  abbrev pub Runs : ℕ → DecodeState d → List ℕ → DecodeState d → Type 0
  Runs first st bytes end =
      (fuel : ℕ) (rest : List ℕ)
      → length (bytes ++ rest) ≤ fuel
      → (left : ℕ) × (length rest ≤ left)
        × (decode_records d first fuel st (bytes ++ rest) ≡ decode_records d first left end rest)

  pub Runs-nil : (first : ℕ) (st : DecodeState d) → Runs first st [] st
  Runs-nil first st fuel rest h = (fuel, h, refl)

  pub Runs-append :
      (first : ℕ) (st mid end : DecodeState d) (xs ys : List ℕ)
      → Runs first st xs mid
      → Runs first mid ys end
      → Runs first st (xs ++ ys) end
  Runs-append first st mid end xs ys r q fuel rest h =
      let (left, enough, same) =
        r fuel (ys ++ rest) (omega (arith, ap length (append_assoc xs ys rest))) in
      let (left', enough', same') = q left rest enough in
      (left', enough', rw append_assoc (same ∙ same'))

  pub Runs-record :
      (first : ℕ) (st end : DecodeState d) (tag : ℕ) (body : List ℕ)
      → ((rest : List ℕ) → read_record d first st tag (body ++ rest) ≡ ok (end, rest))
      → Runs first st (tag ∷ body) end
  unfolding decode_records
  Runs-record first st end tag body reads zero rest h = absurd (omega arith)
  Runs-record first st end tag body reads (suc fuel) rest h =
      (fuel, omega (arith, length-append body rest), rw (reads rest) refl)

  -- An operation of the session adds bytes to the payload; they extend the tables as it extends the
  -- dictionary.
  pub record Grows (s u : Dictionary) : Type 0 where
    pub bytes : List ℕ
    pub written : u.payload ≡ s.payload ++ bytes
    pub extends : Extends s u
    pub names : KnownNames s → KnownNames u
    pub decodes :
        (first : ℕ) (st : DecodeState d)
        → Synced st.tables s
        → (t : DecodeTables) × Runs first st bytes (with_tables d st t) × Synced t u

  pub Grows-refl : (s : Dictionary) → Grows s s
  Grows-refl s = record {
    bytes = [];
    written = sym (append-nil s.payload);
    extends = Extends-refl s;
    names = λ known. known;
    decodes = λ first st g. (st.tables, Runs-nil first st, g);
  }

  pub Grows-trans : (s u w : Dictionary) → Grows s u → Grows u w → Grows s w
  Grows-trans s u w g h = record {
    bytes = g.bytes ++ h.bytes;
    written = rw (h.written, g.written) (append_assoc s.payload g.bytes h.bytes);
    extends = Extends-trans s u w g.extends h.extends;
    names = λ known. h.names (g.names known);
    decodes = λ first st synced.
        (let (t, runs, synced') = g.decodes first st synced in
          let (t', runs', synced'') = h.decodes first (with_tables d st t) synced' in
          (
            t',
            Runs-append first st (with_tables d st t) (with_tables d st t') g.bytes h.bytes runs
                runs',
            synced'',
          ));
  }

  abbrev pub with_strings : DecodeState d → List (ℕ × Text) → DecodeState d
  with_strings st strings = with_tables d st (record st.tables { strings = strings })

  -- An operation that numbers strings and nothing else.
  pub record StringsGrow (s u : Dictionary) : Type 0 where
    pub bytes : List ℕ
    pub written : u.payload ≡ s.payload ++ bytes
    pub extends :
        (value : Text) (i : ℕ)
        → text_get value s.string_ids ≡ some i
        → text_get value u.string_ids ≡ some i
    pub same_players : u.player_ids ≡ s.player_ids
    pub same_names : u.player_names ≡ s.player_names
    pub same_next_player : u.next_player_id ≡ s.next_player_id
    pub same_schemas : u.schema_ids ≡ s.schema_ids
    pub same_next_type : u.next_custom_type_id ≡ s.next_custom_type_id
    pub decodes :
        (first : ℕ) (st : DecodeState d)
        → SyncedStrings st.tables s
        → (strings : List (ℕ × Text)) × Runs first st bytes (with_strings st strings)
          × SyncedStrings (record st.tables { strings = strings }) u

  pub StringsGrow-refl : (s : Dictionary) → StringsGrow s s
  StringsGrow-refl s = record {
    bytes = [];
    written = sym (append-nil s.payload);
    extends = λ v i h. h;
    same_players = refl;
    same_names = refl;
    same_next_player = refl;
    same_schemas = refl;
    same_next_type = refl;
    decodes = λ first st g. (st.tables.strings, Runs-nil first st, g);
  }

  pub StringsGrow-trans : (s u w : Dictionary) → StringsGrow s u → StringsGrow u w → StringsGrow s w
  StringsGrow-trans s u w g h = record {
    bytes = g.bytes ++ h.bytes;
    written = rw (h.written, g.written) (append_assoc s.payload g.bytes h.bytes);
    extends = λ v i e. h.extends v i (g.extends v i e);
    same_players = h.same_players ∙ g.same_players;
    same_names = h.same_names ∙ g.same_names;
    same_next_player = h.same_next_player ∙ g.same_next_player;
    same_schemas = h.same_schemas ∙ g.same_schemas;
    same_next_type = h.same_next_type ∙ g.same_next_type;
    decodes = λ first st synced.
        (let (strings, runs, synced') = g.decodes first st synced in
          let (strings', runs', synced'') = h.decodes first (with_strings st strings) synced' in
          (
            strings',
            Runs-append first st (with_strings st strings) (with_strings st strings') g.bytes
                h.bytes runs runs',
            synced'',
          ));
  }

  pub StringsGrow-Grows : (s u : Dictionary) → StringsGrow s u → Grows s u
  StringsGrow-Grows s u g = record {
    bytes = g.bytes;
    written = g.written;
    extends = record {
      strings = g.extends;
      players = λ v i e. rw g.same_players e;
      schemas = λ v schema e. rw g.same_schemas e;
    };
    names = λ known v.
        subst (λ names. AreUnits (known_in (text_get v names))) (sym g.same_names) (known v);
    decodes = λ first st synced.
        (let (strings, runs, numbers) = g.decodes first st synced.strings in
          (
            record st.tables { strings = strings },
            runs,
            record {
              strings = numbers;
              players = λ v i e.
                  rw (g.same_next_player, g.same_names)
                    (synced.players v i (rw g.same_players at e));
              schemas = λ v schema e. synced.schemas v schema (rw g.same_schemas at e);
              schema_range = λ i schema e. rw g.same_next_type (synced.schema_range i schema e);
              schema_numbers = λ v schema e.
                  rw g.same_next_type (synced.schema_numbers v schema (rw g.same_schemas at e));
              schema_names = λ v schema e. synced.schema_names v schema (rw g.same_schemas at e);
              custom_from = rw g.same_next_type synced.custom_from;
            },
          ));
  }
