-- ===== src/Trace/Tests.antt =====
-- The theorems on packages/trace/src/runtime, each applied to a concrete session.
use sapi_game.Base.{
  ℕ, ◌≡◌, refl, inl, inr, Bool, true, false, none, some, List, [], ◌∷◌, ◌++◌, arith, Bool-cases,
}
use sapi_game.Wire.Result.{ok}
use sapi_game.Wire.Varint.{write_byte, write_var_uint}
use sapi_game.Wire.Raw.{num, str, arr, nil, cons, end, field, write_number, str_eq, write_string}
use sapi_game.Trace.Types.{TraceSource, source_kind_code}
use sapi_game.Trace.Texts.{text_get}
use sapi_game.Trace.Act.{◌>>=◌, pure, lift, modify, gets}
use sapi_game.Trace.Dictionary.{
  Dictionary, CustomSchemaRecord, define_string, ensure_string, ensure_optional, define_player,
  ensure_player,
}
use sapi_game.Trace.Sync.{Grows}
use sapi_game.Trace.Defines.{ensure_player-Grows}
use sapi_game.Trace.Values.{
  Input, InputFields, num, str, player, arr, nil, cons, end, field, prepare_source, write_source,
  prepare_value, write_value,
}
use sapi_game.Trace.Decoder.{decode_beg_trace}
use sapi_game.Trace.Types.{DecodedTraceEvent}
use sapi_game.Trace.Session.{
  TraceChunk, Session, new_session, zoom, chunk_header, seal_chunk, rotate_by_tick, current_tick,
  seal_full, append_event, emit_builtin_unsafe, emit_builtin, register_player,
}
use sapi_game.Wire.Container.{
  TraceSessionEnd, completed, encode_beg_trace, write_magic, encode_header, write_chunks,
  encode_end,
}
use sapi_game.Wire.Container.RoundTrip.{canonical_header}
use sapi_game.Wire.Varint.{write_groups}
use sapi_game.Wire.Utf8.{encode_utf8, encode_unit, is_pair}
use sapi_game.Wire.Raw.{write_raw_value}
use sapi_game.Wire.Tests.{halves, written, sample_header, sample_header-IsProper}
use sapi_game.Trace.Session.{end_session, session_end}
use sapi_game.Trace.Types.{game}
use sapi_game.Trace.Recorded.{bytes_of}
use sapi_game.Trace.Emits.{builtin_event}
use sapi_game.Trace.Sessions.{
  SessionRun, begun, called, Step, emitted, registered, decode_beg_trace-session,
}
use sapi_game.Trace.Types.{uint_field, player_field, field_type_code}
use sapi_game.Trace.Dictionary.{
  Dictionary, CustomSchemaRecord, TraceEventSchema, plain, definition, known_name, or_known,
  new_dictionary, ensure_schema, define_schema, ensure_names, write_schema_fields, normalize_fields,
  normalize_trace_field, schema_signature,
}
use sapi_game.Trace.Sync.{KnownNames}
use sapi_game.Trace.Defines.{ensure_player-Grows}
use sapi_game.Trace.Schemas.{ensure_schema-Grows}
use sapi_game.Trace.ValueBack.{Written, ValueBack, write_value-Written}
use sapi_game.Trace.Values.{Input, arr, cons, nil, str, player}
use sapi_game.Trace.Texts.{text_get}
use sapi_game.Wire.Raw.{str_eq}
use sapi_game.Base.{Bool-cases, true, false, inl, inr}
use sapi_game.Trace.Values.{a_number, a_string, prepare_custom_field, write_custom_field}
use sapi_game.Trace.Session.{
  Payload, emit_custom, emit_custom_unsafe, prepare_custom_fields, bitset_of, write_custom_fields,
  write_custom_payload,
}
use sapi_game.Trace.Sessions.{custom_emitted}
use sapi_game.Trace.CustomEvents.{schema_of, custom_event}
use sapi_game.Trace.CustomBack.{AreTexts, custom_fields, custom-PayloadBack}
use sapi_game.Trace.Emits.{PayloadBack}
use sapi_game.Trace.Types.{custom}
use sapi_game.Wire.Raw.{obj}
use sapi_game.Trace.CustomField.{IsText}
use sapi_game.Base.{subst}

abbrev sample_source : TraceSource
sample_source = record { kind = game; ref = some 3; name = some (103 ∷ []) }

-- A player, a number and a string that is written twice.
abbrev sample_payload : InputFields Bool
sample_payload =
    field (119 ∷ []) (player (112 ∷ []) none)
      (field (110 ∷ []) (arr (cons (num true) (cons (str (103 ∷ [])) nil))) end)

-- A custom event with a field that is needed and one that may be left out.
abbrev sample_schema : TraceEventSchema
sample_schema = record {
  name = 119 ∷ [];
  fields = (110 ∷ [], plain uint_field) ∷ (112 ∷ [], definition player_field (some true)) ∷ [];
}

abbrev sample_record : CustomSchemaRecord
sample_record = record {
  type_id = 128;
  name = 119 ∷ [];
  fields =
      record { name = 110 ∷ []; type = uint_field; optional = false }
      ∷ record { name = 112 ∷ []; type = player_field; optional = true }
      ∷ [];
}

abbrev sample_values : Payload halves
sample_values = (110 ∷ [], a_number false true) ∷ (112 ∷ [], a_string (112 ∷ [])) ∷ []

-- A chunk is sealed at 40 bytes, so the two events are in two chunks.
abbrev first_chunk : TraceChunk
first_chunk = record {
  session_id = 115 ∷ [];
  index = 0;
  first_sequence = 1;
  last_sequence = 1;
  start_tick = 5;
  end_tick = 5;
  event_count = 1;
  bytes =
      66 ∷ 71 ∷ 84 ∷ 67 ∷ 1 ∷ 0 ∷ 1 ∷ 5 ∷ 1 ∷ 1 ∷ 0 ∷ 1 ∷ 112 ∷ 1 ∷ 1 ∷ 2 ∷ 65 ∷ 108 ∷ 2 ∷ 0 ∷ 0 ∷ 2
      ∷ 1 ∷ 2 ∷ 1 ∷ 103 ∷ 1 ∷ 3 ∷ 1 ∷ 119 ∷ 1 ∷ 4 ∷ 1 ∷ 110 ∷ 16 ∷ 0 ∷ 16 ∷ 0 ∷ 4 ∷ 3 ∷ 8 ∷ 2 ∷ 3
      ∷ 9 ∷ 0 ∷ 4 ∷ 7 ∷ 2 ∷ 5 ∷ 0 ∷ 0 ∷ 0 ∷ 0 ∷ 0 ∷ 0 ∷ 224 ∷ 63 ∷ 6 ∷ 2 ∷ [];
}

abbrev second_chunk : TraceChunk
second_chunk = record {
  session_id = 115 ∷ [];
  index = 1;
  first_sequence = 2;
  last_sequence = 3;
  start_tick = 9;
  end_tick = 12;
  event_count = 2;
  bytes =
      66 ∷ 71 ∷ 84 ∷ 67 ∷ 1 ∷ 1 ∷ 2 ∷ 9 ∷ 2 ∷ 16 ∷ 0 ∷ 17 ∷ 0 ∷ 4 ∷ 3 ∷ 8 ∷ 0 ∷ 5 ∷ 128 ∷ 1 ∷ 3 ∷ 2
      ∷ 4 ∷ 1 ∷ 0 ∷ 0 ∷ 5 ∷ 1 ∷ 16 ∷ 3 ∷ 128 ∷ 1 ∷ 0 ∷ 4 ∷ 3 ∷ 1 ∷ 1 ∷ 0 ∷ 0 ∷ [];
}

abbrev run₀ : Session
run₀ = new_session sample_header.session_id (some 40) none

abbrev run₁ : Session
run₁ = record {
  session_id = 115 ∷ [];
  max_chunk_bytes = 40;
  max_chunk_tick_span = 1200;
  dict = record {
    string_ids = (112 ∷ [], 0) ∷ (65 ∷ 108 ∷ [], 1) ∷ [];
    player_ids = (112 ∷ [], 0) ∷ [];
    player_names = (112 ∷ [], some (65 ∷ 108 ∷ [])) ∷ [];
    state_ids = [];
    component_ids = [];
    schema_ids = [];
    next_string_id = 2;
    next_player_id = 1;
    next_state_id = 0;
    next_component_id = 0;
    next_custom_type_id = 128;
    payload = 1 ∷ 0 ∷ 1 ∷ 112 ∷ 1 ∷ 1 ∷ 2 ∷ 65 ∷ 108 ∷ 2 ∷ 0 ∷ 0 ∷ 2 ∷ [];
  };
  index = 0;
  event_count = 0;
  first_sequence = 0;
  last_sequence = 0;
  start_tick = 0;
  end_tick = 0;
  previous_tick = 0;
  sequence = 0;
  chunk_count = 0;
  ended = false;
  sink = [];
}

abbrev run₂ : Session
run₂ = record {
  session_id = 115 ∷ [];
  max_chunk_bytes = 40;
  max_chunk_tick_span = 1200;
  dict = record {
    string_ids =
        (112 ∷ [], 0) ∷ (65 ∷ 108 ∷ [], 1) ∷ (103 ∷ [], 2) ∷ (119 ∷ [], 3) ∷ (110 ∷ [], 4) ∷ [];
    player_ids = (112 ∷ [], 0) ∷ [];
    player_names = (112 ∷ [], some (65 ∷ 108 ∷ [])) ∷ [];
    state_ids = [];
    component_ids = [];
    schema_ids = [];
    next_string_id = 5;
    next_player_id = 1;
    next_state_id = 0;
    next_component_id = 0;
    next_custom_type_id = 128;
    payload = [];
  };
  index = 1;
  event_count = 0;
  first_sequence = 0;
  last_sequence = 0;
  start_tick = 0;
  end_tick = 0;
  previous_tick = 0;
  sequence = 1;
  chunk_count = 1;
  ended = false;
  sink = first_chunk ∷ [];
}

abbrev run₃ : Session
run₃ = record {
  session_id = 115 ∷ [];
  max_chunk_bytes = 40;
  max_chunk_tick_span = 1200;
  dict = record {
    string_ids =
        (112 ∷ [], 0) ∷ (65 ∷ 108 ∷ [], 1) ∷ (103 ∷ [], 2) ∷ (119 ∷ [], 3) ∷ (110 ∷ [], 4) ∷ [];
    player_ids = (112 ∷ [], 0) ∷ [];
    player_names = (112 ∷ [], some (65 ∷ 108 ∷ [])) ∷ [];
    state_ids = [];
    component_ids = [];
    schema_ids = [];
    next_string_id = 5;
    next_player_id = 1;
    next_state_id = 0;
    next_component_id = 0;
    next_custom_type_id = 128;
    payload = 16 ∷ 0 ∷ 17 ∷ 0 ∷ 4 ∷ 3 ∷ 8 ∷ 0 ∷ [];
  };
  index = 1;
  event_count = 1;
  first_sequence = 2;
  last_sequence = 2;
  start_tick = 9;
  end_tick = 9;
  previous_tick = 9;
  sequence = 2;
  chunk_count = 1;
  ended = false;
  sink = first_chunk ∷ [];
}

abbrev run₄ : Session
run₄ = record {
  session_id = 115 ∷ [];
  max_chunk_bytes = 40;
  max_chunk_tick_span = 1200;
  dict = record {
    string_ids =
        (112 ∷ [], 0) ∷ (65 ∷ 108 ∷ [], 1) ∷ (103 ∷ [], 2) ∷ (119 ∷ [], 3) ∷ (110 ∷ [], 4) ∷ [];
    player_ids = (112 ∷ [], 0) ∷ [];
    player_names = (112 ∷ [], some (65 ∷ 108 ∷ [])) ∷ [];
    state_ids = [];
    component_ids = [];
    schema_ids = (119 ∷ [], sample_record) ∷ [];
    next_string_id = 5;
    next_player_id = 1;
    next_state_id = 0;
    next_component_id = 0;
    next_custom_type_id = 129;
    payload =
        16 ∷ 0 ∷ 17 ∷ 0 ∷ 4 ∷ 3 ∷ 8 ∷ 0 ∷ 5 ∷ 128 ∷ 1 ∷ 3 ∷ 2 ∷ 4 ∷ 1 ∷ 0 ∷ 0 ∷ 5 ∷ 1 ∷ 16 ∷ 3 ∷ 128
        ∷ 1 ∷ 0 ∷ 4 ∷ 3 ∷ 1 ∷ 1 ∷ 0 ∷ 0 ∷ [];
  };
  index = 1;
  event_count = 2;
  first_sequence = 2;
  last_sequence = 3;
  start_tick = 9;
  end_tick = 12;
  previous_tick = 12;
  sequence = 3;
  chunk_count = 1;
  ended = false;
  sink = first_chunk ∷ [];
}

abbrev run₅ : Session
run₅ = record {
  session_id = 115 ∷ [];
  max_chunk_bytes = 40;
  max_chunk_tick_span = 1200;
  dict = record {
    string_ids =
        (112 ∷ [], 0) ∷ (65 ∷ 108 ∷ [], 1) ∷ (103 ∷ [], 2) ∷ (119 ∷ [], 3) ∷ (110 ∷ [], 4) ∷ [];
    player_ids = (112 ∷ [], 0) ∷ [];
    player_names = (112 ∷ [], some (65 ∷ 108 ∷ [])) ∷ [];
    state_ids = [];
    component_ids = [];
    schema_ids = (119 ∷ [], sample_record) ∷ [];
    next_string_id = 5;
    next_player_id = 1;
    next_state_id = 0;
    next_component_id = 0;
    next_custom_type_id = 129;
    payload = [];
  };
  index = 2;
  event_count = 0;
  first_sequence = 0;
  last_sequence = 0;
  start_tick = 0;
  end_tick = 0;
  previous_tick = 0;
  sequence = 3;
  chunk_count = 2;
  ended = true;
  sink = first_chunk ∷ second_chunk ∷ [];
}

abbrev events₂ : List (DecodedTraceEvent Bool)
events₂ = builtin_event halves [] 16 sample_payload sample_source (current_tick (some 5)) ∷ []

abbrev events₃ : List (DecodedTraceEvent Bool)
events₃ =
    events₂ ++ (builtin_event halves events₂ 17 end sample_source (current_tick (some 9)) ∷ [])

abbrev events₄ : List (DecodedTraceEvent Bool)
events₄ =
    events₃
    ++ (custom_event halves events₃ (119 ∷ []) (schema_of sample_schema run₃.dict) sample_values
          sample_source (current_tick (some 12))
        ∷ [])

first-Step : Step halves run₀ [] run₁ []
unfolding emit_builtin emit_builtin_unsafe zoom rotate_by_tick prepare_source prepare_value
    ensure_string define_string ensure_player define_player ensure_optional append_event
    write_source write_value seal_full seal_chunk chunk_header ◌>>=◌ pure lift modify gets
    write_byte write_var_uint write_groups write_string encode_utf8 encode_unit is_pair write_number
    source_kind_code register_player current_tick new_session
first-Step = registered run₁ (112 ∷ []) (some (65 ∷ 108 ∷ [])) 0 (ground arith) (ground arith) refl

second-Step : Step halves run₁ [] run₂ events₂
unfolding emit_builtin emit_builtin_unsafe zoom rotate_by_tick prepare_source prepare_value
    ensure_string define_string ensure_player define_player ensure_optional append_event
    write_source write_value seal_full seal_chunk chunk_header ◌>>=◌ pure lift modify gets
    write_byte write_var_uint write_groups write_string encode_utf8 encode_unit is_pair write_number
    source_kind_code register_player current_tick new_session
second-Step =
    emitted run₂ 16 sample_payload sample_source (some 5) (omega arith) (ground arith)
      (ground arith) refl

third-Step : Step halves run₂ events₂ run₃ events₃
unfolding emit_builtin emit_builtin_unsafe zoom rotate_by_tick prepare_source prepare_value
    ensure_string define_string ensure_player define_player ensure_optional append_event
    write_source write_value seal_full seal_chunk chunk_header ◌>>=◌ pure lift modify gets
    write_byte write_var_uint write_groups write_string encode_utf8 encode_unit is_pair write_number
    source_kind_code register_player current_tick new_session
third-Step =
    emitted run₃ 17 end sample_source (some 9) (omega arith) (ground arith) (ground arith) refl

sample_values-AreTexts : AreTexts halves sample_values
sample_values-AreTexts name value h = elim (Bool-cases (str_eq name (110 ∷ []))) [
  | inl e ↦
      let h' : some (a_number false true) ≡ some value = rw e at h in
      let same : a_number false true ≡ value = cc in subst (IsText halves) same tt
  | inr e ↦ elim (Bool-cases (str_eq name (112 ∷ []))) [
    | inl e' ↦
        let h' : some (a_string (112 ∷ [])) ≡ some value = rw (e, e') at h in
        let same : a_string (112 ∷ []) ≡ value = cc in subst (IsText halves) same (ground arith)
    | inr e' ↦ let h' : none ≡ some value = rw (e, e') at h in absurd cc
  ]
]

fourth-Step : Step halves run₃ events₃ run₄ events₄
unfolding emit_custom emit_custom_unsafe zoom rotate_by_tick prepare_source ensure_schema
    define_schema ensure_names write_schema_fields normalize_fields normalize_trace_field
    prepare_custom_fields prepare_custom_field write_custom_payload bitset_of write_custom_fields
    write_custom_field ensure_string define_string ensure_player ensure_optional append_event
    write_source seal_full ◌>>=◌ pure lift modify gets field_type_code write_byte write_var_uint
    write_groups write_string encode_utf8 encode_unit is_pair source_kind_code current_tick
fourth-Step =
    custom_emitted run₄ sample_schema sample_values sample_source (some 12) (ground arith)
      (ground arith) sample_values-AreTexts (ground arith) (ground arith) refl

sample_run : SessionRun halves run₀ [] run₄ events₄
sample_run = called (called (called (called begun first-Step) second-Step) third-Step) fourth-Step

abbrev sample_ending : TraceSessionEnd
sample_ending = session_end completed none 12 1700000050000 run₅

abbrev sample_file : List ℕ
sample_file = written (encode_beg_trace halves sample_header (bytes_of run₅.sink) sample_ending)

last_step : end_session completed none 12 1700000050000 run₄ ≡ (run₅, ok sample_ending)
unfolding end_session seal_chunk chunk_header ◌>>=◌ pure modify gets write_byte write_var_uint
    write_groups
last_step = refl

sample_file_written :
    encode_beg_trace halves sample_header (bytes_of run₅.sink) sample_ending ≡ ok sample_file
unfolding encode_beg_trace write_magic write_byte encode_header write_string write_var_uint
    encode_utf8 encode_unit write_groups is_pair write_raw_value write_number write_chunks
    encode_end
sample_file_written = refl

decode_beg_trace-session_example :
    decode_beg_trace halves sample_file
    ≡ ok (record {
      header = canonical_header halves sample_header;
      ending = sample_ending;
      events = events₄;
    })
decode_beg_trace-session_example =
    decode_beg_trace-session halves sample_header.session_id (some 40) none run₄ run₅ events₄
      completed none 12 1700000050000 sample_header sample_ending sample_file sample_run last_step
      sample_header-IsProper (ground arith) refl sample_file_written

run₁-KnownNames : KnownNames run₁.dict
unfolding ensure_player define_player ensure_string define_string ensure_optional ◌>>=◌ pure lift
    modify gets write_byte write_var_uint write_groups write_string encode_utf8 encode_unit is_pair
    new_session
run₁-KnownNames v = elim (Bool-cases (str_eq v (112 ∷ []))) [
  | inl e ↦ rw e (ground arith)
  | inr e ↦ rw e tt
]

-- The player is "Al" before.
abbrev renamed : Dictionary
renamed = (ensure_player (112 ∷ []) (some (66 ∷ [])) run₁.dict).0

ensure_player-Grows_example :
    Grows halves run₁.dict renamed
    × (text_get (112 ∷ []) renamed.player_ids ≡ some 0)
    × (known_name (112 ∷ []) renamed ≡ or_known (some (66 ∷ [])) (known_name (112 ∷ []) run₁.dict))
unfolding ensure_player define_player ensure_string define_string ensure_optional ◌>>=◌ pure lift
    modify gets write_byte write_var_uint write_groups write_string encode_utf8 encode_unit is_pair
    new_session
ensure_player-Grows_example =
    ensure_player-Grows halves (112 ∷ []) (some (66 ∷ [])) run₁.dict renamed 0 (ground arith)
      (ground arith) run₁-KnownNames refl

abbrev with_sample : Dictionary
with_sample = (ensure_schema sample_schema new_dictionary).0

ensure_schema-Grows_example :
    Grows halves new_dictionary with_sample
    × (text_get (119 ∷ []) with_sample.schema_ids ≡ some sample_record)
    × (str_eq
          (schema_signature sample_record.fields)
          (schema_signature (normalize_fields sample_schema.fields))
        ≡ true)
unfolding ensure_schema define_schema ensure_names write_schema_fields normalize_fields
    normalize_trace_field ensure_string define_string ◌>>=◌ pure lift modify gets field_type_code
    write_byte write_var_uint write_groups write_string encode_utf8 encode_unit is_pair
ensure_schema-Grows_example =
    ensure_schema-Grows halves sample_schema sample_record new_dictionary with_sample (ground arith)
      (ground arith) refl

abbrev sample_value : Input Bool
sample_value = arr (cons (player (112 ∷ []) none) (cons (str (112 ∷ [])) nil))

abbrev sample_bytes : List ℕ
sample_bytes = 7 ∷ 2 ∷ 9 ∷ 0 ∷ 6 ∷ 0 ∷ []

write_value-Written_example :
    Written halves run₁.dict run₁.dict sample_bytes 3 (ValueBack halves sample_value sample_bytes)
unfolding write_value ensure_player ensure_string ◌>>=◌ pure lift write_byte write_var_uint
    write_groups
write_value-Written_example =
    write_value-Written halves sample_value run₁.dict run₁.dict sample_bytes (ground arith)
      run₁-KnownNames refl

custom-PayloadBack_example :
    PayloadBack halves run₄.dict 128
      (write_custom_payload halves sample_record.fields sample_values)
      (obj (custom_fields halves sample_record.fields sample_values))
      (custom (119 ∷ []))
custom-PayloadBack_example =
    custom-PayloadBack halves run₄.dict (119 ∷ []) sample_record sample_values refl
      sample_values-AreTexts (ground arith)
