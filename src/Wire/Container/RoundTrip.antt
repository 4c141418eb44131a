-- ===== src/Wire/Container/RoundTrip.antt =====
-- `decodeBegTraceContainer` reads back what `encodeBegTrace` wrote.
use sapi_game.Base.{
  ℕ, ◌%◌, ◌<◌, bit_and, ◌≡◌, refl, sym, subst, Bool, true, false, not, Option, none, some, List, [],
  ◌∷◌, append-nil, arith, ◌==◌, length, All,
}
use sapi_game.Wire.Result.{then_write_assoc, Result, ok, ◌then_write◌}
use sapi_game.Wire.Varint.{write_byte, write_var_uint, read_byte, read_bytes, read_var_uint}
use sapi_game.Wire.Varint.Shape.{byte_mask}
use sapi_game.Wire.Utf8.{IsUnit}
use sapi_game.Wire.Raw.{Double, Value, write_string, read_string, write_raw_value, read_raw_value}
use sapi_game.Wire.Raw.Strings.{read_of_write_var_uint, read_of_write_string, read_bytes-append}
use sapi_game.Wire.Raw.Canonical.{canonical_value, IsProper}
use sapi_game.Wire.Raw.RoundTrip.{read-write_raw_value}
use sapi_game.Wire.Reader.{
  Reader, ◌>>=◌, pure, Undoes, Undoes-pure, Undoes-bind, Undoes-last, Undoes-skip,
}
use sapi_game.Wire.Container.{
  Text, trace_format_version, trace_magic, TraceSessionHeader, TraceSessionStatus, completed,
  aborted, crashed, interrupted, reloaded, TraceSessionEnd, BegTraceContainer, status_codes,
  status_names, flag_if, write_if, read_if, write_bytes, write_chunks, read_chunk, read_chunks,
  write_magic, header_flags, encode_header, encode_end, encode_beg_trace, read_magic, read_version,
  decode_header, decode_end, read_container, decode_beg_trace_container,
}

abbrev is_some {ℓ} : {A : Type ℓ} → Option A → Bool
is_some none = false
is_some (some a) = true

abbrev map_option : {A B : Type 0} → (A → B) → Option A → Option B
map_option f none = none
map_option f (some a) = some (f a)

abbrev pub AllOf : {A : Type 0} → (A → Type 0) → Option A → Type 0
AllOf P none = Unit {0}
AllOf P (some a) = P a

pub undo_byte : (v : ℕ) → v < 256 → Undoes read_byte (write_byte v) v
unfolding write_byte read_byte
undo_byte v small bytes rest h =
    let e : bytes ≡ bit_and v 0xff ∷ [] = cc in
    let e' : v % 256 ≡ v = omega arith in rw (e, byte_mask v, e')

pub undo_uint : (v : ℕ) → Undoes read_var_uint (write_var_uint v) v
undo_uint v bytes rest h = read_of_write_var_uint v bytes rest h

pub undo_string : (value : Text) → All IsUnit value → Undoes read_string (write_string value) value
undo_string value units bytes rest h = read_of_write_string value bytes rest units h

pub undo_bytes : (value : List ℕ) → Undoes (read_bytes (length value)) (write_bytes value) value
undo_bytes value bytes rest h = let e : bytes ≡ value = cc in rw e (read_bytes-append value rest)

undo_if :
    {A : Type 0} (read : Reader A) (write : A → Result (List ℕ)) (f : A → A) (o : Option A)
    (b : Bool)
    → b ≡ is_some o
    → ((a : A) → o ≡ some a → Undoes read (write a) (f a))
    → Undoes (read_if b read) (write_if write o) (map_option f o)
undo_if read write f none b e u =
    subst (λ t. Undoes (read_if t read) (ok []) none) (sym e) (Undoes-pure none)
undo_if read write f (some a) b e u =
    subst (λ t. Undoes (read_if t read) (write a) (some (f a))) (sym e)
      (Undoes-last read some (write a) (f a) (u a refl))

undo_string_if :
    (o : Option Text) (b : Bool)
    → b ≡ is_some o
    → AllOf (All IsUnit) o
    → Undoes (read_if b read_string) (write_if write_string o) o
undo_string_if none b e units =
    subst (λ t. Undoes (read_if t read_string) (ok []) none) (sym e) (Undoes-pure none)
undo_string_if (some value) b e units =
    subst (λ t. Undoes (read_if t read_string) (write_string value) (some value)) (sym e)
      (Undoes-last read_string some (write_string value) value (undo_string value units))

undo_chunk :
    (chunk : List ℕ)
    → Undoes read_chunk (write_var_uint (length chunk) then_write write_bytes chunk) chunk
unfolding read_chunk
undo_chunk chunk =
    Undoes-bind read_var_uint read_bytes (write_var_uint (length chunk)) (write_bytes chunk)
      (length chunk) chunk (undo_uint (length chunk)) (undo_bytes chunk)

undo_chunks :
    (chunks : List (List ℕ)) → Undoes (read_chunks (length chunks)) (write_chunks chunks) chunks
unfolding read_chunks write_chunks
undo_chunks [] = Undoes-pure []
undo_chunks (chunk ∷ chunks) =
    rw
      (← then_write_assoc (write_var_uint (length chunk)) (write_bytes chunk) (write_chunks chunks))
      (Undoes-bind read_chunk _ _ (write_chunks chunks) chunk (chunk ∷ chunks) (undo_chunk chunk) (
        Undoes-last (read_chunks (length chunks)) (◌∷◌ chunk) (write_chunks chunks) chunks
          (undo_chunks chunks)))

status_small : (s : TraceSessionStatus) → status_codes s < 256
unfolding status_codes
status_small completed = omega arith
status_small aborted = omega arith
status_small crashed = omega arith
status_small interrupted = omega arith
status_small reloaded = omega arith

status_back :
    (s : TraceSessionStatus) (reader : List ℕ)
    → status_names (status_codes s) reader ≡ ok (s, reader)
unfolding status_codes status_names pure
status_back completed reader = refl
status_back aborted reader = refl
status_back crashed reader = refl
status_back interrupted reader = refl
status_back reloaded reader = refl

write_magic_lem : write_magic ≡ ok trace_magic
unfolding write_magic write_byte
write_magic_lem = refl

undo_magic : Undoes read_magic write_magic tt
unfolding read_magic
undo_magic =
    subst (λ p. Undoes read_magic p tt) (sym write_magic_lem)
      (λ bytes rest h.
        (let e : bytes ≡ trace_magic = cc in
          rw e (unfold ◌>>=◌ pure in rw (read_bytes-append trace_magic rest))))

reason_small :
    {A : Type 0} (o : Option A) → (flag_if o 1 0 < 256) × (not (flag_if o 1 0 == 0) ≡ is_some o)
reason_small none = (omega arith, refl)
reason_small (some a) = (omega arith, refl)

-- What the eight values of the flags say.
abbrev FlagsSay : {A B C : Type 0} → Option A → Option B → Option C → ℕ → Type 0
FlagsSay a b c f =
    (f < 256)
    × (not (bit_and f 1 == 0) ≡ is_some a)
    × (not (bit_and f 2 == 0) ≡ is_some b)
    × (not (bit_and f 4 == 0) ≡ is_some c)

flags_say :
    {A B C : Type 0} (a : Option A) (b : Option B) (c : Option C)
    → FlagsSay a b c (flag_if c 4 (flag_if b 2 (flag_if a 1 0)))
flags_say none none none = (omega arith, refl, refl, refl)
flags_say none none (some c) = (omega arith, refl, refl, refl)
flags_say none (some b) none = (omega arith, refl, refl, refl)
flags_say none (some b) (some c) = (omega arith, refl, refl, refl)
flags_say (some a) none none = (omega arith, refl, refl, refl)
flags_say (some a) none (some c) = (omega arith, refl, refl, refl)
flags_say (some a) (some b) none = (omega arith, refl, refl, refl)
flags_say (some a) (some b) (some c) = (omega arith, refl, refl, refl)

undo_version : Undoes read_version (write_byte trace_format_version) trace_format_version
unfolding read_version
undo_version bytes rest h =
    unfold ◌>>=◌ pure in rw (undo_byte trace_format_version (omega arith) bytes rest h)

-- The strings of a footer are code units.
abbrev pub IsProperEnd : TraceSessionEnd → Type 0
IsProperEnd e = AllOf (All IsUnit) e.end_reason

undo_end : (e : TraceSessionEnd) → IsProperEnd e → Undoes (decode_end e.session_id) (encode_end e) e
unfolding decode_end encode_end
undo_end e proper =
    Undoes-bind read_byte _ (write_byte (status_codes e.status)) _ (status_codes e.status) e
      (undo_byte (status_codes e.status) (status_small e.status))
      (Undoes-skip (status_names (status_codes e.status)) _ _ e.status e (status_back e.status) (
        Undoes-bind read_var_uint _ (write_var_uint e.end_tick) _ e.end_tick e
          (undo_uint e.end_tick)
          (Undoes-bind read_var_uint _ (write_var_uint e.end_wall_time) _ e.end_wall_time e
            (undo_uint e.end_wall_time)
            (Undoes-bind read_byte _ (write_byte (flag_if e.end_reason 1 0)) _
              (flag_if e.end_reason 1 0) e (undo_byte _ (reason_small e.end_reason).0)
              (Undoes-bind (read_if (not (flag_if e.end_reason 1 0 == 0)) read_string) _
                (write_if write_string e.end_reason) _ e.end_reason e
                (undo_string_if e.end_reason _ (reason_small e.end_reason).1 proper)
                (Undoes-bind read_var_uint _ (write_var_uint e.event_count) _ e.event_count e
                  (undo_uint e.event_count)
                  (Undoes-last read_var_uint _ (write_var_uint e.chunk_count) e.chunk_count
                    (undo_uint e.chunk_count))))))))

module _ (d : Double) where
  open d use {Number}

  -- The strings of a header are code units, and its configuration is a proper value.
  pub record IsProperHeader (h : TraceSessionHeader Number) : Type 0 where
    pub version : h.format_version ≡ trace_format_version
    pub session : All IsUnit h.session_id
    pub type : All IsUnit h.game_type
    pub key : All IsUnit h.game_key
    pub instance_id : All IsUnit h.game_instance_id
    pub begame : AllOf (All IsUnit) h.begame_version
    pub pack : AllOf (All IsUnit) h.pack_version
    pub config : AllOf (IsProper d) h.initial_config

  unfoldable pub canonical_header : TraceSessionHeader Number → TraceSessionHeader Number
  canonical_header h = record h { initial_config = map_option (canonical_value d) h.initial_config }

  undo_config :
      (o : Option (Value Number)) (b : Bool)
      → b ≡ is_some o
      → AllOf (IsProper d) o
      → Undoes
          (read_if b (read_raw_value d))
          (write_if (write_raw_value d) o)
          (map_option (canonical_value d) o)
  undo_config o b e proper =
      undo_if (read_raw_value d) (write_raw_value d) (canonical_value d) o b e
        (λ value found bytes rest.
          read-write_raw_value d value bytes rest (subst (AllOf (IsProper d)) found proper))

  undo_header :
      (h : TraceSessionHeader Number)
      → IsProperHeader h
      → Undoes (decode_header d h.format_version) (encode_header d h) (canonical_header h)
  unfolding decode_header encode_header canonical_header header_flags
  undo_header h proper =
      let c = record h { initial_config = map_option (canonical_value d) h.initial_config } in
      let (small, says1, says2, says4) =
        flags_say h.begame_version h.pack_version h.initial_config in
      let flags =
        flag_if h.initial_config 4 (flag_if h.pack_version 2 (flag_if h.begame_version 1 0)) in
      Undoes-bind read_string _ (write_string h.session_id) _ h.session_id c
        (undo_string h.session_id proper.session)
        (Undoes-bind read_string _ (write_string h.game_type) _ h.game_type c
          (undo_string h.game_type proper.type)
          (Undoes-bind read_string _ (write_string h.game_key) _ h.game_key c
            (undo_string h.game_key proper.key)
            (Undoes-bind read_string _ (write_string h.game_instance_id) _ h.game_instance_id c
              (undo_string h.game_instance_id proper.instance_id)
              (Undoes-bind read_byte _ (write_byte flags) _ flags c (undo_byte flags small) (
                Undoes-bind (read_if (not (bit_and flags 1 == 0)) read_string) _
                  (write_if write_string h.begame_version) _ h.begame_version c
                  (undo_string_if h.begame_version _ says1 proper.begame)
                  (Undoes-bind (read_if (not (bit_and flags 2 == 0)) read_string) _
                    (write_if write_string h.pack_version) _ h.pack_version c
                    (undo_string_if h.pack_version _ says2 proper.pack)
                    (Undoes-bind read_var_uint _ (write_var_uint h.start_tick) _ h.start_tick c
                      (undo_uint h.start_tick)
                      (Undoes-bind read_var_uint _ (write_var_uint h.start_wall_time) _
                        h.start_wall_time c (undo_uint h.start_wall_time)
                        (Undoes-last (read_if (not (bit_and flags 4 == 0)) (read_raw_value d)) _
                          (write_if (write_raw_value d) h.initial_config)
                          (map_option (canonical_value d) h.initial_config)
                          (undo_config h.initial_config _ says4 proper.config))))))))))

  undo_read_header :
      (h : TraceSessionHeader Number)
      → IsProperHeader h
      → Undoes (decode_header d trace_format_version) (encode_header d h) (canonical_header h)
  undo_read_header h proper =
      subst (λ v. Undoes (decode_header d v) (encode_header d h) (canonical_header h))
        proper.version (undo_header h proper)

  undo_read_end :
      (h : TraceSessionHeader Number) (e : TraceSessionEnd)
      → IsProperEnd e
      → e.session_id ≡ h.session_id
      → Undoes (decode_end (canonical_header h).session_id) (encode_end e) e
  unfolding canonical_header
  undo_read_end h e proper same =
      subst (λ id. Undoes (decode_end id) (encode_end e) e) same (undo_end e proper)

  undo_container :
      (h : TraceSessionHeader Number) (chunks : List (List ℕ)) (e : TraceSessionEnd)
      → IsProperHeader h
      → IsProperEnd e
      → e.session_id ≡ h.session_id
      → Undoes
          (read_container d)
          (encode_beg_trace d h chunks e)
          (record { header = canonical_header h; chunks = chunks; ending = e })
  unfolding read_container encode_beg_trace
  undo_container h chunks e proper proper' same =
      let c : BegTraceContainer Number = record {
        header = canonical_header h;
        chunks = chunks;
        ending = e;
      } in
      Undoes-bind read_magic _ write_magic _ tt c undo_magic (
        Undoes-bind read_version _ (write_byte trace_format_version) _ trace_format_version c
          undo_version
          (Undoes-bind (decode_header d trace_format_version) _ (encode_header d h) _
            (canonical_header h) c (undo_read_header h proper)
            (Undoes-bind read_var_uint _ (write_var_uint (length chunks)) _ (length chunks) c
              (undo_uint (length chunks))
              (Undoes-bind (read_chunks (length chunks)) _ (write_chunks chunks) _ chunks c
                (undo_chunks chunks)
                (Undoes-last (decode_end (canonical_header h).session_id) _ (encode_end e) e
                  (undo_read_end h e proper' same))))))

  -- A session written by encode_beg_trace from a header whose strings are code units, whose
  -- configuration is a proper value and whose version is the format's, any chunks and a footer of
  -- the same session is read back by decode_beg_trace_container: the same chunks and footer, and
  -- the header with its configuration in the form a value has when it is read.
  pub decode-encode_beg_trace :
      (h : TraceSessionHeader Number) (chunks : List (List ℕ)) (e : TraceSessionEnd)
      (bytes : List ℕ)
      → IsProperHeader h
      → IsProperEnd e
      → e.session_id ≡ h.session_id
      → encode_beg_trace d h chunks e ≡ ok bytes
      → decode_beg_trace_container d bytes
        ≡ ok (record { header = canonical_header h; chunks = chunks; ending = e })
  unfolding decode_beg_trace_container
  decode-encode_beg_trace h chunks e bytes proper proper' same wrote =
      let c : BegTraceContainer Number = record {
        header = canonical_header h;
        chunks = chunks;
        ending = e;
      } in
      let reads : read_container d bytes ≡ ok (c, []) =
        rw append-nil at (undo_container h chunks e proper proper' same bytes [] wrote) in
      rw (reads, decode_beg_trace_container) refl
