-- ===== src/Trace/Session.antt =====
-- packages/trace/src/runtime/session.ts: the events of a session and
-- the chunks it gives to its sink. A sink that throws is caught by the code, and what it does is not
-- part of the session, so the sink is the list of chunks it was given.
use sapi_game.Base.{
  ℕ, suc, ◌+◌, ◌-◌, ◌/◌, ◌^◌, bit_or, Bool, true, false, ◌&&◌, Option, none, some, List, [], ◌∷◌,
  ◌++◌, ltb, leb, ◌==◌, if◌then◌else◌, length, replicate,
}
use sapi_game.Wire.Result.{Result, ok, err, ◌then_write◌, missing_field, wrong_field, not_safe_uint}
use sapi_game.Wire.Varint.{write_byte, write_var_uint}
use sapi_game.Wire.Raw.{Double}
use sapi_game.Wire.Container.{Text, trace_format_version, TraceSessionStatus, TraceSessionEnd}
use sapi_game.Trace.Types.{TraceSource}
use sapi_game.Trace.Texts.{text_get}
use sapi_game.Trace.Act.{Act, ◌>>=◌, pure, throw, lift, modify, gets}
use sapi_game.Trace.Dictionary.{
  Dictionary, new_dictionary, FieldRecord, TraceEventSchema, ensure_schema, ensure_player,
  ensure_state, ensure_component,
}
use sapi_game.Trace.Values.{
  obj, InputFields, prepare_source, write_source, prepare_value, write_value, CustomValue,
  prepare_custom_field, write_custom_field,
}

pub record TraceChunk : Type 0 where
  pub session_id : Text
  pub index : ℕ
  pub first_sequence : ℕ
  pub last_sequence : ℕ
  pub start_tick : ℕ
  pub end_tick : ℕ
  pub event_count : ℕ
  pub bytes : List ℕ

-- The session, with the active chunk's fields in it; the payload is in the dictionary.
pub record Session : Type 0 where
  pub session_id : Text
  pub max_chunk_bytes : ℕ
  pub max_chunk_tick_span : ℕ
  pub dict : Dictionary
  pub index : ℕ
  pub event_count : ℕ
  pub first_sequence : ℕ
  pub last_sequence : ℕ
  pub start_tick : ℕ
  pub end_tick : ℕ
  pub previous_tick : ℕ
  pub sequence : ℕ
  pub chunk_count : ℕ
  pub ended : Bool
  pub sink : List TraceChunk

-- `options.maxChunkBytes ?? DEFAULT_MAX_CHUNK_BYTES`
abbrev or_default : Option ℕ → ℕ → ℕ
or_default none n = n
or_default (some n) default = n

unfoldable pub new_session : Text → Option ℕ → Option ℕ → Session
new_session session_id max_chunk_bytes max_chunk_tick_span = record {
  session_id = session_id;
  max_chunk_bytes = or_default max_chunk_bytes 20480;
  max_chunk_tick_span = or_default max_chunk_tick_span 1200;
  dict = new_dictionary;
  index = 0;
  event_count = 0;
  first_sequence = 0;
  last_sequence = 0;
  start_tick = 0;
  end_tick = 0;
  previous_tick = 0;
  sequence = 0;
  chunk_count = 0;
  ended = false;
  sink = [];
}

-- An operation on the dictionary, in the session.
abbrev pub in_session {ℓ} : {A : Type ℓ} → Session → Dictionary × A → Session × A
in_session s (dict, a) = (record s { dict = dict }, a)

unfoldable pub zoom : {A : Type 0} → Act Dictionary A → Act Session A
zoom op s = in_session s (op s.dict)

unfoldable pub chunk_header : Session → Result (List ℕ)
chunk_header s =
    write_byte 66
    then_write write_byte 71
    then_write write_byte 84
    then_write write_byte 67
    then_write write_byte trace_format_version
    then_write write_var_uint s.index
    then_write write_var_uint s.first_sequence
    then_write write_var_uint s.start_tick
    then_write write_var_uint s.event_count

abbrev pub sealed_chunk : Session → List ℕ → TraceChunk
sealed_chunk s header = record {
  session_id = s.session_id;
  index = s.index;
  first_sequence = s.first_sequence;
  last_sequence = s.last_sequence;
  start_tick = s.start_tick;
  end_tick = s.end_tick;
  event_count = s.event_count;
  bytes = header ++ s.dict.payload;
}

-- `chunkCount++`, the chunk to the sink, and `newChunk()`.
abbrev pub next_chunk : List ℕ → Session → Session
next_chunk header s = record s {
  sink = s.sink ++ (sealed_chunk s header ∷ []);
  chunk_count = suc s.chunk_count;
  index = suc s.chunk_count;
  dict = record s.dict { payload = [] };
  event_count = 0;
  first_sequence = 0;
  last_sequence = 0;
  start_tick = 0;
  end_tick = 0;
  previous_tick = 0;
}

unfoldable pub seal_chunk : Act Session (Unit {0})
seal_chunk s =
    if s.event_count == 0
    then (s, ok tt)
    else elim (chunk_header s) [ err e ↦ (s, err e) | ok header ↦ (next_chunk header s, ok tt) ]

unfoldable pub flush : Act Session (Unit {0})
flush s = if s.ended then (s, ok tt) else seal_chunk s

unfoldable pub rotate_by_tick : ℕ → Act Session (Unit {0})
rotate_by_tick tick s =
    if ltb 0 s.event_count && leb (s.start_tick + s.max_chunk_tick_span) tick
    then seal_chunk s
    else (s, ok tt)

-- The tick that is given is none where it is no safe integer from 0 on.
unfoldable pub current_tick : Option ℕ → ℕ
current_tick none = 0
current_tick (some tick) = tick

abbrev pub begin_chunk : ℕ → Session → Session
begin_chunk tick s =
    if s.event_count == 0
    then record s { first_sequence = suc s.sequence; start_tick = tick; previous_tick = tick }
    else s

-- `writer.writeVarUint(tick - previousTick)`, which throws where the tick went back.
abbrev pub write_delta : ℕ → ℕ → Result (List ℕ)
write_delta tick previous =
    if ltb tick previous then err not_safe_uint else write_var_uint (tick - previous)

abbrev pub add_event : ℕ → List ℕ → Session → Session
add_event tick bytes s = record s {
  dict = record s.dict { payload = s.dict.payload ++ bytes };
  sequence = suc s.sequence;
  event_count = suc s.event_count;
  last_sequence = suc s.sequence;
  end_tick = tick;
  previous_tick = tick;
}

unfoldable pub seal_full : Act Session (Unit {0})
seal_full s = if leb s.max_chunk_bytes (length s.dict.payload) then seal_chunk s else (s, ok tt)

unfoldable pub append_event : ℕ → ℕ → TraceSource → Act Dictionary (List ℕ) → Act Session (Unit {0})
append_event type_id tick source write_payload = do
  _ ← modify (begin_chunk tick)
  previous ← gets (λ s. s.previous_tick)
  head ← lift (write_byte 16 then_write write_delta tick previous then_write write_var_uint type_id)
  source_bytes ← zoom (write_source source)
  payload ← zoom write_payload
  _ ← modify (add_event tick (head ++ (source_bytes ++ payload)))
  seal_full

-- `bitset[index / 8] |= 1 << (index % 8)`, for an index within the bytes
abbrev pub set_bit : ℕ → List ℕ → List ℕ
set_bit index [] = []
set_bit index (b ∷ bytes) =
    let rest = set_bit (index - 8) bytes in
    if ltb index 8 then bit_or b (2 ^ index) ∷ bytes else b ∷ rest

-- `endReason ? { endReason } : {}`
abbrev given_reason : Option Text → Option Text
given_reason none = none
given_reason (some []) = none
given_reason (some (c ∷ cs)) = some (c ∷ cs)

module _ (d : Double) where
  open d use {Number}

  unfoldable pub emit_builtin_unsafe :
      ℕ → InputFields Number → TraceSource → ℕ → Act Session (Unit {0})
  emit_builtin_unsafe type payload source tick = do
    _ ← rotate_by_tick tick
    _ ← zoom (prepare_source source)
    _ ← zoom (prepare_value d (obj payload))
    append_event type tick source (write_value d (obj payload))

  unfoldable pub emit_builtin :
      ℕ → InputFields Number → TraceSource → Option ℕ → Act Session (Unit {0})
  emit_builtin type payload source tick s =
      if s.ended then (s, ok tt) else emit_builtin_unsafe type payload source (current_tick tick) s

  -- A payload, as the properties that the object has of its own; a field that is named as a property
  -- of Object.prototype, which the source would see too, is outside it.
  abbrev pub Payload : Type 0
  Payload = List (Text × CustomValue d)

  unfoldable pub prepare_custom_fields : List FieldRecord → Payload → Act Dictionary (Unit {0})
  prepare_custom_fields [] values = pure tt
  prepare_custom_fields (f ∷ fields) values = elim (text_get f.name values) [
    | some value ↦ (do _ ← prepare_custom_field d f.type value; prepare_custom_fields fields values)
    | none ↦ if f.optional then prepare_custom_fields fields values else throw missing_field
  ]

  abbrev pub is_given : Payload → FieldRecord → Bool
  is_given values f = elim (text_get f.name values) [ none ↦ false | some value ↦ true ]

  -- The number of optional fields, and the bits of those given, from `index` on.
  abbrev pub count_optional : List FieldRecord → ℕ
  count_optional [] = 0
  count_optional (f ∷ fields) = let n = count_optional fields in if f.optional then suc n else n

  abbrev pub fill_bits : List FieldRecord → Payload → ℕ → List ℕ → List ℕ
  fill_bits [] values index bitset = bitset
  fill_bits (f ∷ fields) values index bitset =
      if f.optional
      then fill_bits fields values (suc index)
          (if is_given values f then set_bit index bitset else bitset)
      else fill_bits fields values index bitset

  unfoldable pub bitset_of : List FieldRecord → Payload → List ℕ
  bitset_of fields values =
      fill_bits fields values 0 (replicate ((count_optional fields + 7) / 8) 0)

  unfoldable pub write_custom_fields : List FieldRecord → Payload → Act Dictionary (List ℕ)
  write_custom_fields [] values = pure []
  write_custom_fields (f ∷ fields) values = elim (text_get f.name values) [
    | some value ↦ (do
      head ← write_custom_field d f.type value
      tail ← write_custom_fields fields values
      pure (head ++ tail))
    | none ↦ if f.optional then write_custom_fields fields values else throw wrong_field
  ]

  unfoldable pub write_custom_payload : List FieldRecord → Payload → Act Dictionary (List ℕ)
  write_custom_payload fields values = do
    head ← lift (write_var_uint (length (bitset_of fields values)))
    tail ← write_custom_fields fields values
    pure (head ++ (bitset_of fields values ++ tail))

  unfoldable pub emit_custom_unsafe :
      TraceEventSchema → Payload → TraceSource → ℕ → Act Session (Unit {0})
  emit_custom_unsafe schema payload source tick = do
    _ ← rotate_by_tick tick
    _ ← zoom (prepare_source source)
    schema' ← zoom (ensure_schema schema)
    _ ← zoom (prepare_custom_fields schema'.fields payload)
    append_event schema'.type_id tick source (write_custom_payload schema'.fields payload)

  unfoldable pub emit_custom :
      TraceEventSchema → Payload → TraceSource → Option ℕ → Act Session (Unit {0})
  emit_custom schema payload source tick s =
      if s.ended then (s, ok tt) else emit_custom_unsafe schema payload source (current_tick tick) s

unfoldable pub register_player : Text → Option Text → Act Session ℕ
register_player id name = zoom (ensure_player id name)

-- `safe`, which reports an error and goes on without a result.
abbrev pub safely : {A : Type 0} → Session × Result A → Session × Option A
safely (s, ok a) = (s, some a)
safely (s, err e) = (s, none)

-- The number of the scope, and none for NOOP_TRACE_SCOPE.
unfoldable pub create_state_scope : ℕ → Text → Session → Session × Option ℕ
create_state_scope state name s =
    if s.ended then (s, none) else safely (zoom (ensure_state state name) s)

unfoldable pub create_component_scope : ℕ → ℕ → Text → Option Text → Session → Session × Option ℕ
create_component_scope component state name tag s =
    if s.ended then (s, none) else safely (zoom (ensure_component component state name tag) s)

abbrev pub session_end : TraceSessionStatus → Option Text → ℕ → ℕ → Session → TraceSessionEnd
session_end status reason tick now s = record {
  session_id = s.session_id;
  status = status;
  end_tick = tick;
  end_wall_time = now;
  end_reason = given_reason reason;
  event_count = s.sequence;
  chunk_count = s.chunk_count;
}

unfoldable pub end_session : TraceSessionStatus → Option Text → ℕ → ℕ → Act Session TraceSessionEnd
end_session status reason tick now s =
    if s.ended
    then (s, ok (session_end status reason tick now s))
    else ((do
      _ ← modify (λ s. record s { ended = true })
      _ ← seal_chunk
      gets (session_end status reason tick now))
        s)
