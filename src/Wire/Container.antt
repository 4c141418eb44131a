-- ===== src/Wire/Container.antt =====
-- packages/trace/src/wire/container.ts: the file that holds one trace session.
pub mod RoundTrip
use sapi_game.Base.{
  ℕ, zero, suc, ◌+◌, ◌-◌, ◌*◌, ◌/◌, ◌%◌, ◌^◌, ◌≤◌, ◌<◌, min, max, bit_and, bit_or, ◌≡◌, refl, sym,
  ap, ◌∙◌, subst, ◌≢◌, ◌↔◌, ◌⊎◌, inl, inr, Bool, true, false, not, ◌&&◌, ◌||◌, Option, none, some,
  List, [], ◌∷◌, ◌++◌, map, reverse, append-nil, append_assoc, arith, ltb, leb, ◌==◌, if◌then◌else◌,
  lt→ltb, le→ltb, ==_iff, ==_refl, Bool-cases, Option-cases, length, get_elem?, take, drop,
  replicate, length-append, nil_of_length, length-take, All-take, take_all-append, drop_all-append,
  All, All-append,
}
use sapi_game.Wire.Result.{
  Result, Error, ok, err, ◌then_write◌, not_a_trace, unsupported_format, unknown_status,
  trailing_bytes,
}
use sapi_game.Wire.Varint.{write_byte, write_var_uint, read_byte, read_bytes, read_var_uint}
use sapi_game.Wire.Raw.{
  Double, Value, str_eq, write_string, read_string, write_raw_value, read_raw_value,
}
use sapi_game.Wire.Reader.{Reader, ◌>>=◌, pure, fail}

abbrev pub Text : Type 0
Text = List ℕ

-- TRACE_FORMAT_VERSION and the code units of TRACE_MAGIC, "BEGT".
abbrev pub trace_format_version : ℕ
trace_format_version = 1

abbrev pub trace_magic : Text
trace_magic = 66 ∷ 69 ∷ 71 ∷ 84 ∷ []

pub record TraceSessionHeader (F : Type 0) : Type 0 where
  pub session_id : Text
  pub format_version : ℕ
  pub game_type : Text
  pub game_key : Text
  pub game_instance_id : Text
  pub begame_version : Option Text
  pub pack_version : Option Text
  pub start_tick : ℕ
  pub start_wall_time : ℕ
  pub initial_config : Option (Value F)

-- A session that ended is not running.
pub data TraceSessionStatus : Type 0 where
  completed aborted crashed interrupted reloaded : TraceSessionStatus

pub record TraceSessionEnd : Type 0 where
  pub session_id : Text
  pub status : TraceSessionStatus
  pub end_tick : ℕ
  pub end_wall_time : ℕ
  pub end_reason : Option Text
  pub event_count : ℕ
  pub chunk_count : ℕ

pub record BegTraceContainer (F : Type 0) : Type 0 where
  pub header : TraceSessionHeader F
  pub chunks : List (List ℕ)
  pub ending : TraceSessionEnd

unfoldable pub status_codes : TraceSessionStatus → ℕ
status_codes completed = 0
status_codes aborted = 1
status_codes crashed = 2
status_codes interrupted = 3
status_codes reloaded = 4

-- `statusNames[code]`, and the error where there is none.
unfoldable pub status_names : ℕ → Reader TraceSessionStatus
status_names code =
    if code == 0
    then pure completed
    else if code == 1
    then pure aborted
    else if code == 2
    then pure crashed
    else if code == 3
    then pure interrupted
    else if code == 4
    then pure reloaded
    else fail unknown_status

-- `if (field !== undefined) flags |= bit`
abbrev pub flag_if {ℓ} : {A : Type ℓ} → Option A → ℕ → ℕ → ℕ
flag_if none bit flags = flags
flag_if (some a) bit flags = bit_or flags bit

abbrev pub write_if {ℓ} : {A : Type ℓ} → (A → Result (List ℕ)) → Option A → Result (List ℕ)
write_if write none = ok []
write_if write (some a) = write a

-- `flags & bit ? read : undefined`
abbrev pub read_if : {A : Type 0} → Bool → Reader A → Reader (Option A)
read_if false read = pure none
read_if true read = read >>= λ a. pure (some a)

abbrev pub write_bytes : List ℕ → Result (List ℕ)
write_bytes bytes = ok bytes

unfoldable pub write_chunks : List (List ℕ) → Result (List ℕ)
write_chunks [] = ok []
write_chunks (chunk ∷ chunks) =
    write_var_uint (length chunk) then_write write_bytes chunk then_write write_chunks chunks

unfoldable pub read_chunk : Reader (List ℕ)
read_chunk = do n ← read_var_uint; read_bytes n

unfoldable pub read_chunks : ℕ → Reader (List (List ℕ))
read_chunks zero = pure []
read_chunks (suc n) = do chunk ← read_chunk; chunks ← read_chunks n; pure (chunk ∷ chunks)

unfoldable pub write_magic : Result (List ℕ)
write_magic =
    write_byte 66 then_write write_byte 69 then_write write_byte 71 then_write write_byte 84

unfoldable pub encode_end : TraceSessionEnd → Result (List ℕ)
encode_end e =
    write_byte (status_codes e.status)
    then_write write_var_uint e.end_tick
    then_write write_var_uint e.end_wall_time
    then_write write_byte (flag_if e.end_reason 1 0)
    then_write write_if write_string e.end_reason
    then_write write_var_uint e.event_count
    then_write write_var_uint e.chunk_count

unfoldable pub read_magic : Reader (Unit {0})
read_magic = do
  magic ← read_bytes (length trace_magic)
  if str_eq magic trace_magic then pure tt else fail not_a_trace

unfoldable pub read_version : Reader ℕ
read_version = do
  version ← read_byte
  if version == trace_format_version then pure version else fail unsupported_format

unfoldable pub decode_end : Text → Reader TraceSessionEnd
decode_end session_id = do
  code ← read_byte
  status ← status_names code
  end_tick ← read_var_uint
  end_wall_time ← read_var_uint
  has_reason ← read_byte
  end_reason ← read_if (not (has_reason == 0)) read_string
  event_count ← read_var_uint
  chunk_count ← read_var_uint
  pure (record {
    session_id = session_id;
    status = status;
    end_tick = end_tick;
    end_wall_time = end_wall_time;
    end_reason = end_reason;
    event_count = event_count;
    chunk_count = chunk_count;
  })

module _ (d : Double) where
  open d use {Number}

  unfoldable pub header_flags : TraceSessionHeader Number → ℕ
  header_flags h =
      flag_if h.initial_config 4 (flag_if h.pack_version 2 (flag_if h.begame_version 1 0))

  unfoldable pub encode_header : TraceSessionHeader Number → Result (List ℕ)
  encode_header h =
      write_string h.session_id
      then_write write_string h.game_type
      then_write write_string h.game_key
      then_write write_string h.game_instance_id
      then_write write_byte (header_flags h)
      then_write write_if write_string h.begame_version
      then_write write_if write_string h.pack_version
      then_write write_var_uint h.start_tick
      then_write write_var_uint h.start_wall_time
      then_write write_if (write_raw_value d) h.initial_config

  unfoldable pub encode_beg_trace :
      TraceSessionHeader Number → List (List ℕ) → TraceSessionEnd → Result (List ℕ)
  encode_beg_trace h chunks e =
      write_magic
      then_write write_byte trace_format_version
      then_write encode_header h
      then_write write_var_uint (length chunks)
      then_write write_chunks chunks
      then_write encode_end e

  unfoldable pub decode_header : ℕ → Reader (TraceSessionHeader Number)
  decode_header version = do
    session_id ← read_string
    game_type ← read_string
    game_key ← read_string
    game_instance_id ← read_string
    flags ← read_byte
    begame_version ← read_if (not (bit_and flags 1 == 0)) read_string
    pack_version ← read_if (not (bit_and flags 2 == 0)) read_string
    start_tick ← read_var_uint
    start_wall_time ← read_var_uint
    initial_config ← read_if (not (bit_and flags 4 == 0)) (read_raw_value d)
    pure (record {
      session_id = session_id;
      format_version = version;
      game_type = game_type;
      game_key = game_key;
      game_instance_id = game_instance_id;
      begame_version = begame_version;
      pack_version = pack_version;
      start_tick = start_tick;
      start_wall_time = start_wall_time;
      initial_config = initial_config;
    })

  unfoldable pub read_container : Reader (BegTraceContainer Number)
  read_container = do
    _ ← read_magic
    version ← read_version
    header ← decode_header version
    count ← read_var_uint
    chunks ← read_chunks count
    ending ← decode_end header.session_id
    pure (record { header = header; chunks = chunks; ending = ending })

  unfoldable pub decode_beg_trace_container : List ℕ → Result (BegTraceContainer Number)
  decode_beg_trace_container bytes = elim (read_container bytes) [
    | err e ↦ err e
    | ok (container, reader) ↦ if length reader == 0 then ok container else err trailing_bytes
  ]
