-- ===== src/Trace/Dictionary.antt =====
-- packages/trace/src/runtime/session.ts: the numbers that a session gives to strings, players,
-- states, components and schemas, and the definitions it writes for them into the payload of the
-- active chunk. The objects of a WeakMap are references.
use sapi_game.Base.{
  ℕ, suc, Bool, true, false, Option, none, some, List, [], ◌∷◌, ◌++◌, if◌then◌else◌, length,
}
use sapi_game.Base.Maps.{map_get, map_set}
use sapi_game.Wire.Result.{◌then_write◌, schema_collision, component_before_state}
use sapi_game.Wire.Varint.{write_byte, write_var_uint}
use sapi_game.Wire.Raw.{str_eq, write_string}
use sapi_game.Wire.Container.{Text}
use sapi_game.Trace.Types.{
  TraceFieldType, boolean_field, uint_field, int_field, number_field, string_field, player_field,
  field_type_code,
}
use sapi_game.Trace.Texts.{text_get, text_set}
use sapi_game.Trace.Act.{Act, ◌>>=◌, pure, throw, lift, modify, gets}

pub record FieldRecord : Type 0 where
  pub name : Text
  pub type : TraceFieldType
  pub optional : Bool

pub record CustomSchemaRecord : Type 0 where
  pub type_id : ℕ
  pub name : Text
  pub fields : List FieldRecord

-- A field of a schema as it is given: a type, or a type and maybe whether it is optional.
pub data FieldInput : Type 0 where
  plain : TraceFieldType → FieldInput
  definition : TraceFieldType → Option Bool → FieldInput

pub record TraceEventSchema : Type 0 where
  pub name : Text
  pub fields : List (Text × FieldInput)

unfoldable pub normalize_trace_field : Text → FieldInput → FieldRecord
normalize_trace_field name (plain type) = record { name = name; type = type; optional = false }
normalize_trace_field name (definition type none) = record {
  name = name;
  type = type;
  optional = false;
}
normalize_trace_field name (definition type (some optional)) = record {
  name = name;
  type = type;
  optional = optional;
}

pub record Dictionary : Type 0 where
  pub string_ids : List (Text × ℕ)
  pub player_ids : List (Text × ℕ)
  pub player_names : List (Text × Option Text)
  pub state_ids : List (ℕ × ℕ)
  pub component_ids : List (ℕ × ℕ)
  pub schema_ids : List (Text × CustomSchemaRecord)
  pub next_string_id : ℕ
  pub next_player_id : ℕ
  pub next_state_id : ℕ
  pub next_component_id : ℕ
  pub next_custom_type_id : ℕ
  pub payload : List ℕ

abbrev pub new_dictionary : Dictionary
new_dictionary = record {
  string_ids = [];
  player_ids = [];
  player_names = [];
  state_ids = [];
  component_ids = [];
  schema_ids = [];
  next_string_id = 0;
  next_player_id = 0;
  next_state_id = 0;
  next_component_id = 0;
  next_custom_type_id = 128;
  payload = [];
}

-- `this.active.payload.writeBytes(bytes)`
abbrev pub put : List ℕ → Dictionary → Dictionary
put bytes s = record s { payload = s.payload ++ bytes }

abbrev pub new_string : Text → Dictionary → Dictionary
new_string value s = record s {
  string_ids = text_set value s.next_string_id s.string_ids;
  next_string_id = suc s.next_string_id;
}

unfoldable pub define_string : Text → Act Dictionary ℕ
define_string value = do
  id ← gets (λ s. s.next_string_id)
  _ ← modify (new_string value)
  bytes ← lift (write_byte 1 then_write write_var_uint id then_write write_string value)
  _ ← modify (put bytes)
  pure id

unfoldable pub ensure_string : Text → Act Dictionary ℕ
ensure_string value s = elim (text_get value s.string_ids) [
  | some existing ↦ pure existing s
  | none ↦ define_string value s
]

-- `value === undefined ? 0 : this.ensureString(value) + 1`
unfoldable pub ensure_optional : Option Text → Act Dictionary ℕ
ensure_optional none = pure 0
ensure_optional (some value) = do id ← ensure_string value; pure (suc id)

-- `a ?? b`
abbrev pub or_known : {A : Type 0} → Option A → Option A → Option A
or_known none b = b
or_known (some a) b = some a

abbrev pub known_in : Option (Option Text) → Option Text
known_in none = none
known_in (some name) = name

abbrev pub known_name : Text → Dictionary → Option Text
known_name id s = known_in (text_get id s.player_names)

-- `name === undefined || name === knownName`
abbrev pub is_known_name : Option Text → Option Text → Bool
is_known_name none known = true
is_known_name (some name) none = false
is_known_name (some name) (some known) = str_eq name known

abbrev pub new_player : Text → Dictionary → Dictionary
new_player id s = record s {
  player_ids = text_set id s.next_player_id s.player_ids;
  next_player_id = suc s.next_player_id;
}

abbrev pub name_player : Text → Option Text → Dictionary → Dictionary
name_player id name s = record s { player_names = text_set id name s.player_names }

-- The definition of a player, of the number `ref`.
unfoldable pub define_player : ℕ → Text → Option Text → Act Dictionary ℕ
define_player ref id name = do
  _ ← modify (name_player id name)
  id_ref ← ensure_string id
  head ← lift (write_byte 2 then_write write_var_uint ref then_write write_var_uint id_ref)
  name_ref ← ensure_optional name
  tail ← lift (write_var_uint name_ref)
  _ ← modify (put (head ++ tail))
  pure ref

unfoldable pub ensure_player : Text → Option Text → Act Dictionary ℕ
ensure_player id name s = elim (text_get id s.player_ids) [
  | some existing ↦
      if is_known_name name (known_name id s)
      then pure existing s
      else define_player existing id (or_known name (known_name id s)) s
  | none ↦ define_player s.next_player_id id (or_known name (known_name id s)) (new_player id s)
]

abbrev pub new_state : ℕ → Dictionary → Dictionary
new_state state s = record s {
  state_ids = map_set state s.next_state_id s.state_ids;
  next_state_id = suc s.next_state_id;
}

unfoldable pub define_state : Text → ℕ → Act Dictionary ℕ
define_state name ref = do
  name_ref ← ensure_string name
  bytes ← lift (write_byte 3 then_write write_var_uint ref then_write write_var_uint name_ref)
  _ ← modify (put bytes)
  pure ref

unfoldable pub ensure_state : ℕ → Text → Act Dictionary ℕ
ensure_state state name s = elim (map_get state s.state_ids) [
  | some existing ↦ pure existing s
  | none ↦ define_state name s.next_state_id (new_state state s)
]

abbrev pub new_component : ℕ → Dictionary → Dictionary
new_component component s = record s {
  component_ids = map_set component s.next_component_id s.component_ids;
  next_component_id = suc s.next_component_id;
}

unfoldable pub define_component : Text → Option Text → ℕ → ℕ → Act Dictionary ℕ
define_component name tag state_ref ref = do
  name_ref ← ensure_string name
  head ← lift (
      write_byte 4
      then_write write_var_uint ref
      then_write write_var_uint state_ref
      then_write write_var_uint name_ref)
  tag_ref ← ensure_optional tag
  tail ← lift (write_var_uint tag_ref)
  _ ← modify (put (head ++ tail))
  pure ref

unfoldable pub ensure_component : ℕ → ℕ → Text → Option Text → Act Dictionary ℕ
ensure_component component state name tag s = elim (map_get component s.component_ids) [
  | some existing ↦ pure existing s
  | none ↦ elim (map_get state s.state_ids) [
    | none ↦ throw component_before_state s
    | some state_ref ↦
        define_component name tag state_ref s.next_component_id (new_component component s)
  ]
]

-- The names of the field types.
unfoldable pub field_type_name : TraceFieldType → Text
field_type_name boolean_field = 98 ∷ 111 ∷ 111 ∷ 108 ∷ 101 ∷ 97 ∷ 110 ∷ []
field_type_name uint_field = 117 ∷ 105 ∷ 110 ∷ 116 ∷ []
field_type_name int_field = 105 ∷ 110 ∷ 116 ∷ []
field_type_name number_field = 110 ∷ 117 ∷ 109 ∷ 98 ∷ 101 ∷ 114 ∷ []
field_type_name string_field = 115 ∷ 116 ∷ 114 ∷ 105 ∷ 110 ∷ 103 ∷ []
field_type_name player_field = 112 ∷ 108 ∷ 97 ∷ 121 ∷ 101 ∷ 114 ∷ []

-- `${name}:${type}:${0 or 1}`, joined by `|`
unfoldable pub field_signature : FieldRecord → Text
field_signature f =
    f.name ++ 58 ∷ field_type_name f.type ++ 58 ∷ (if f.optional then 49 else 48) ∷ []

unfoldable pub schema_signature : List FieldRecord → Text
schema_signature [] = []
schema_signature (f ∷ []) = field_signature f
schema_signature (f ∷ g ∷ fields) = field_signature f ++ 124 ∷ schema_signature (g ∷ fields)

unfoldable pub normalize_fields : List (Text × FieldInput) → List FieldRecord
normalize_fields [] = []
normalize_fields ((name, field) ∷ fields) =
    normalize_trace_field name field ∷ normalize_fields fields

unfoldable pub ensure_names : List FieldRecord → Act Dictionary (Unit {0})
ensure_names [] = pure tt
ensure_names (f ∷ fields) = do _ ← ensure_string f.name; ensure_names fields

-- The loop that writes the fields of a schema.
unfoldable pub write_schema_fields : List FieldRecord → Act Dictionary (List ℕ)
write_schema_fields [] = pure []
write_schema_fields (f ∷ fields) = do
  ref ← ensure_string f.name
  head ← lift (
      write_var_uint ref
      then_write write_byte (field_type_code f.type)
      then_write write_byte (if f.optional then 1 else 0))
  tail ← write_schema_fields fields
  pure (head ++ tail)

abbrev pub new_schema : CustomSchemaRecord → Dictionary → Dictionary
new_schema schema s = record s {
  schema_ids = text_set schema.name schema s.schema_ids;
  next_custom_type_id = suc s.next_custom_type_id;
}

unfoldable pub define_schema : CustomSchemaRecord → Act Dictionary CustomSchemaRecord
define_schema schema = do
  _ ← modify (new_schema schema)
  name_ref ← ensure_string schema.name
  _ ← ensure_names schema.fields
  head ← lift (
      write_byte 5
      then_write write_var_uint schema.type_id
      then_write write_var_uint name_ref
      then_write write_var_uint (length schema.fields))
  tail ← write_schema_fields schema.fields
  _ ← modify (put (head ++ tail))
  pure schema

unfoldable pub ensure_schema : TraceEventSchema → Act Dictionary CustomSchemaRecord
ensure_schema schema s =
    let fields = normalize_fields schema.fields in
    elim (text_get schema.name s.schema_ids) [
      | some existing ↦
          if str_eq (schema_signature existing.fields) (schema_signature fields)
          then pure existing s
          else throw schema_collision s
      | none ↦
          define_schema
            (record { type_id = s.next_custom_type_id; name = schema.name; fields = fields }) s
    ]
