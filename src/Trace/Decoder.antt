-- ===== src/Trace/Decoder.antt =====
-- packages/trace/src/wire/decoder.ts: the records of a chunk and the tables they build.
use sapi_game.Base.{
  ℕ, zero, suc, ◌+◌, ◌/◌, ◌%◌, ◌^◌, bit_and, Bool, true, false, not, ◌&&◌, Option, none, some, List,
  [], ◌∷◌, ◌++◌, ◌==◌, if◌then◌else◌, length, get_elem?,
}
use sapi_game.Base.Maps.{map_get, map_set}
use sapi_game.Base.Int.{pos}
use sapi_game.Wire.Result.{
  Result, Error, ok, err, stuck, unknown_string_ref, unknown_player_ref, unknown_value_tag,
  unknown_field_type, unknown_record, not_a_chunk, unsupported_chunk, chunk_count_mismatch,
  event_count_mismatch,
}
use sapi_game.Wire.Result as Result
use sapi_game.Wire.Varint.{read_byte, read_bytes, read_var_uint, read_var_int}
use sapi_game.Wire.Raw.{
  Double, Value, Fields, null, bool, num, str, arr, obj, end, str_eq, set_field, read_string,
  read_items, read_float64,
}
use sapi_game.Wire.Reader.{Reader, ◌>>=◌, pure, fail}
use sapi_game.Wire.Container.{
  Text, trace_format_version, TraceSessionHeader, TraceSessionEnd, decode_beg_trace_container,
}
use sapi_game.Trace.Types.{
  TraceSource, source_kind, EventName, custom, DecodedTraceEvent, builtin_name,
}

-- The code units of TRACE_CHUNK_MAGIC, "BGTC".
abbrev pub chunk_magic : Text
chunk_magic = 66 ∷ 71 ∷ 84 ∷ 67 ∷ []

pub record PlayerDefinition : Type 0 where
  pub id : Text
  pub name : Option Text

pub record ComponentDefinition : Type 0 where
  pub state_ref : ℕ
  pub name : Text
  pub tag : Option Text

-- `type` is the byte that was read, whatever it is.
pub record SchemaField : Type 0 where
  pub name : Text
  pub type : ℕ
  pub optional : Bool

pub record SchemaDefinition : Type 0 where
  pub name : Text
  pub fields : List SchemaField

pub record DecodeTables : Type 0 where
  pub strings : List (ℕ × Text)
  pub players : List (ℕ × PlayerDefinition)
  pub states : List (ℕ × Text)
  pub components : List (ℕ × ComponentDefinition)
  pub schemas : List (ℕ × SchemaDefinition)

abbrev pub no_tables : DecodeTables
no_tables = record { strings = []; players = []; states = []; components = []; schemas = [] }

abbrev pub or_fail : {A : Type 0} → Error → Option A → Reader A
or_fail e none = fail e
or_fail e (some a) = pure a

unfoldable pub get_string : DecodeTables → ℕ → Reader Text
get_string tables ref = or_fail unknown_string_ref (map_get ref tables.strings)

unfoldable pub get_player : DecodeTables → ℕ → Reader PlayerDefinition
get_player tables ref = or_fail unknown_player_ref (map_get ref tables.players)

-- `n === 0 ? absent : getString(tables, n - 1)`
unfoldable pub get_optional : DecodeTables → ℕ → Reader (Option Text)
get_optional tables zero = pure none
get_optional tables (suc ref) = do value ← get_string tables ref; pure (some value)

-- `n === 0 ? absent : n - 1`
abbrev pub minus_one : ℕ → Option ℕ
minus_one zero = none
minus_one (suc n) = some n

unfoldable pub read_source : DecodeTables → Reader TraceSource
read_source tables = do
  code ← read_byte
  kind ← source_kind code
  ref_plus_one ← read_var_uint
  name_plus_one ← read_var_uint
  name ← get_optional tables name_plus_one
  pure (record { kind = kind; ref = minus_one ref_plus_one; name = name })

-- The loop over the fields of a schema.
unfoldable pub read_schema_fields : DecodeTables → ℕ → Reader (List SchemaField)
read_schema_fields tables zero = pure []
read_schema_fields tables (suc n) = do
  ref ← read_var_uint
  name ← get_string tables ref
  type ← read_byte
  optional ← read_byte
  fields ← read_schema_fields tables n
  pure (record { name = name; type = type; optional = not (optional == 0) } ∷ fields)

-- `bitset[i]`, which is undefined, and so counts as 0, beyond the end.
abbrev pub byte_at : List ℕ → ℕ → ℕ
byte_at bytes i = elim (get_elem? bytes i) [ none ↦ 0 | some b ↦ b ]

unfoldable pub bit_set : List ℕ → ℕ → Bool
bit_set bitset index = not (bit_and (byte_at bitset (index / 8)) (2 ^ (index % 8)) == 0)

module _ (d : Double) where
  open d use {Number, of_int}

  unfoldable pub read_ref_fields :
      DecodeTables → Reader (Value Number) → ℕ → Fields Number → Reader (Fields Number)
  read_ref_fields tables read zero result = pure result
  read_ref_fields tables read (suc n) result = do
    ref ← read_var_uint
    key ← get_string tables ref
    value ← read
    read_ref_fields tables read n (set_field key value result)

  unfoldable pub read_ref_tagged : DecodeTables → Reader (Value Number) → ℕ → Reader (Value Number)
  read_ref_tagged tables read tag =
      if tag == 0
      then pure null
      else if tag == 1
      then pure (bool false)
      else if tag == 2
      then pure (bool true)
      else if tag == 3
      then (do n ← read_var_uint; pure (num (of_int (pos n))))
      else if tag == 4
      then (do z ← read_var_int; pure (num (of_int z)))
      else if tag == 5
      then read_float64 d
      else if tag == 6
      then (do ref ← read_var_uint; value ← get_string tables ref; pure (str value))
      else if tag == 9
      then (do ref ← read_var_uint; player ← get_player tables ref; pure (str player.id))
      else if tag == 7
      then (do n ← read_var_uint; items ← read_items d read n; pure (arr items))
      else if tag == 8
      then (do n ← read_var_uint; fields ← read_ref_fields tables read n end; pure (obj fields))
      else fail unknown_value_tag

  -- Each value takes a byte at least, so the bytes left are fuel enough.
  unfoldable pub read_ref_value : DecodeTables → ℕ → Reader (Value Number)
  read_ref_value tables zero = fail stuck
  read_ref_value tables (suc fuel) = do
    tag ← read_byte
    read_ref_tagged tables (read_ref_value tables fuel) tag

  unfoldable pub read_table_value : DecodeTables → Reader (Value Number)
  read_table_value tables reader = read_ref_value tables (suc (length reader)) reader

  unfoldable pub read_custom_field : DecodeTables → ℕ → Reader (Value Number)
  read_custom_field tables type =
      if type == 0
      then (do b ← read_byte; pure (bool (not (b == 0))))
      else if type == 1
      then (do n ← read_var_uint; pure (num (of_int (pos n))))
      else if type == 2
      then (do z ← read_var_int; pure (num (of_int z)))
      else if type == 3
      then read_float64 d
      else if type == 4
      then (do ref ← read_var_uint; value ← get_string tables ref; pure (str value))
      else if type == 5
      then (do ref ← read_var_uint; player ← get_player tables ref; pure (str player.id))
      else fail unknown_field_type

  -- The loop over the fields, from the optional field `index` on.
  unfoldable pub read_custom_fields :
      DecodeTables → List ℕ → List SchemaField → ℕ → Fields Number → Reader (Fields Number)
  read_custom_fields tables bitset [] index result = pure result
  read_custom_fields tables bitset (f ∷ fields) index result =
      let next = if f.optional then suc index else index in
      if f.optional && not (bit_set bitset index)
      then read_custom_fields tables bitset fields next result
      else (do
        value ← read_custom_field tables f.type
        read_custom_fields tables bitset fields next (set_field f.name value result))

  unfoldable pub read_custom_payload : DecodeTables → SchemaDefinition → Reader (Value Number)
  read_custom_payload tables schema = do
    n ← read_var_uint
    bitset ← read_bytes n
    fields ← read_custom_fields tables bitset schema.fields 0 end
    pure (obj fields)

  -- What the loop of decodeChunk changes.
  pub record DecodeState : Type 0 where
    pub tables : DecodeTables
    pub output : List (DecodedTraceEvent Number)
    pub event_index : ℕ
    pub previous_tick : ℕ

  abbrev pub with_tables : DecodeState → DecodeTables → DecodeState
  with_tables st tables = record st { tables = tables }

  -- The payload and the name of an event, by the schema of its type where there is one.
  unfoldable pub read_payload : DecodeTables → ℕ → Reader (Value Number)
  read_payload tables type_id = elim (map_get type_id tables.schemas) [
    | none ↦ read_table_value tables
    | some schema ↦ read_custom_payload tables schema
  ]

  unfoldable pub event_name : DecodeTables → ℕ → EventName
  event_name tables type_id = elim (map_get type_id tables.schemas) [
    | none ↦ builtin_name type_id
    | some schema ↦ custom schema.name
  ]

  unfoldable pub read_string_definition : DecodeState → Reader DecodeState
  read_string_definition st = do
    ref ← read_var_uint
    value ← read_string
    pure (with_tables st (record st.tables { strings = map_set ref value st.tables.strings }))

  unfoldable pub read_player_definition : DecodeState → Reader DecodeState
  read_player_definition st = do
    ref ← read_var_uint
    id_ref ← read_var_uint
    id ← get_string st.tables id_ref
    name_ref ← read_var_uint
    name ← get_optional st.tables name_ref
    pure (
        with_tables st (record st.tables {
          players = map_set ref (record { id = id; name = name }) st.tables.players;
        }))

  unfoldable pub read_state_definition : DecodeState → Reader DecodeState
  read_state_definition st = do
    ref ← read_var_uint
    name_ref ← read_var_uint
    name ← get_string st.tables name_ref
    pure (with_tables st (record st.tables { states = map_set ref name st.tables.states }))

  unfoldable pub read_component_definition : DecodeState → Reader DecodeState
  read_component_definition st = do
    ref ← read_var_uint
    state_ref ← read_var_uint
    name_ref ← read_var_uint
    name ← get_string st.tables name_ref
    tag_ref ← read_var_uint
    tag ← get_optional st.tables tag_ref
    pure (
        with_tables st (record st.tables {
          components =
              map_set ref (record { state_ref = state_ref; name = name; tag = tag })
                st.tables.components;
        }))

  unfoldable pub read_schema_definition : DecodeState → Reader DecodeState
  read_schema_definition st = do
    type_id ← read_var_uint
    name_ref ← read_var_uint
    name ← get_string st.tables name_ref
    count ← read_var_uint
    fields ← read_schema_fields st.tables count
    pure (
        with_tables st (record st.tables {
          schemas = map_set type_id (record { name = name; fields = fields }) st.tables.schemas;
        }))

  unfoldable pub read_event : ℕ → DecodeState → Reader DecodeState
  read_event first_sequence st = do
    delta ← read_var_uint
    type_id ← read_var_uint
    source ← read_source st.tables
    payload ← read_payload st.tables type_id
    pure (record st {
      previous_tick = st.previous_tick + delta;
      output =
          st.output
          ++ (record {
            sequence = first_sequence + st.event_index;
            tick = st.previous_tick + delta;
            type_id = type_id;
            type = event_name st.tables type_id;
            source = source;
            payload = payload;
          }
              ∷ []);
      event_index = suc st.event_index;
    })

  -- One round of the loop of decodeChunk.
  unfoldable pub read_record : ℕ → DecodeState → ℕ → Reader DecodeState
  read_record first_sequence st tag =
      if tag == 1
      then read_string_definition st
      else if tag == 2
      then read_player_definition st
      else if tag == 3
      then read_state_definition st
      else if tag == 4
      then read_component_definition st
      else if tag == 5
      then read_schema_definition st
      else if tag == 16
      then read_event first_sequence st
      else fail unknown_record

  -- The loop, which takes a byte at least in each round.
  unfoldable pub decode_records : ℕ → ℕ → DecodeState → List ℕ → Result DecodeState
  decode_records first_sequence fuel st [] = ok st
  decode_records first_sequence zero st (tag ∷ reader) = err stuck
  decode_records first_sequence (suc fuel) st (tag ∷ reader) =
      Result.◌>>=◌ (read_record first_sequence st tag reader)
        (λ x. decode_records first_sequence fuel x.0 x.1)

  unfoldable pub read_chunk_magic : Reader (Unit {0})
  read_chunk_magic = do
    magic ← read_bytes (length chunk_magic)
    if str_eq magic chunk_magic then pure tt else fail not_a_chunk

  unfoldable pub read_chunk_version : Reader (Unit {0})
  read_chunk_version = do
    version ← read_byte
    if version == trace_format_version then pure tt else fail unsupported_chunk

  -- The index, the first sequence number, the base tick and the number of events of a chunk.
  unfoldable pub read_chunk_header : Reader (ℕ × ℕ × ℕ × ℕ)
  read_chunk_header = do
    _ ← read_chunk_magic
    _ ← read_chunk_version
    index ← read_var_uint
    first_sequence ← read_var_uint
    base_tick ← read_var_uint
    count ← read_var_uint
    pure (index, first_sequence, base_tick, count)

  unfoldable pub decode_chunk :
      List ℕ
      → DecodeTables
      → List (DecodedTraceEvent Number)
      → Result (DecodeTables × List (DecodedTraceEvent Number))
  decode_chunk bytes tables output = Result.◌>>=◌ (read_chunk_header bytes) (λ h.
      (let start : DecodeState = record {
        tables = tables;
        output = output;
        event_index = 0;
        previous_tick = h.0.2;
      } in
        Result.◌>>=◌ (decode_records h.0.1 (length h.1) start h.1) (λ st.
          (if st.event_index == h.0.3
            then ok (st.tables, st.output)
            else err chunk_count_mismatch))))

  unfoldable pub decode_chunks :
      List (List ℕ)
      → DecodeTables
      → List (DecodedTraceEvent Number)
      → Result (DecodeTables × List (DecodedTraceEvent Number))
  decode_chunks [] tables output = ok (tables, output)
  decode_chunks (chunk ∷ chunks) tables output =
      Result.◌>>=◌ (decode_chunk chunk tables output) (λ x. decode_chunks chunks x.0 x.1)

  pub record DecodedTraceSession : Type 0 where
    pub header : TraceSessionHeader Number
    pub ending : TraceSessionEnd
    pub events : List (DecodedTraceEvent Number)

  unfoldable pub decode_beg_trace : List ℕ → Result DecodedTraceSession
  decode_beg_trace bytes = Result.◌>>=◌ (decode_beg_trace_container d bytes) (λ c.
      (Result.◌>>=◌ (decode_chunks c.chunks no_tables []) (λ x.
        (if length x.1 == c.ending.event_count
          then ok (record { header = c.header; ending = c.ending; events = x.1 })
          else err event_count_mismatch))))
