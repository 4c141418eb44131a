-- ===== src/Trace/ChunkBack.antt =====
-- A chunk of packages/trace/src/runtime/session.ts: what decodeChunk reads of its header and payload.
use sapi_game.Base.{
  ℕ, zero, suc, ◌≡◌, refl, sym, ap, ◌∙◌, subst, List, [], ◌∷◌, ◌++◌, append-nil, arith, ==_refl,
  length,
}
use sapi_game.Wire.Result.{Result, ok, err, ◌then_write◌, >>=-eq_ok}
use sapi_game.Wire.Varint.{write_byte, write_var_uint, read_var_uint, read_byte, read_bytes}
use sapi_game.Wire.Raw.{Double}
use sapi_game.Wire.Reader.{
  Reader, Undoes, Undoes-pure, Undoes-bind, Undoes-last, Undoes-skip, Undoes-then_skip,
}
use sapi_game.Wire.Reader as Reader
use sapi_game.Trace.Decoder.{DecodeTables, DecodeState, decode_records}
use sapi_game.Trace.Sync.{Runs}
use sapi_game.Trace.Strings.{undo_uint}
use sapi_game.Trace.Decoder.{
  read_chunk_magic, read_chunk_version, read_chunk_header, decode_chunk, decode_chunks, chunk_magic,
}
use sapi_game.Trace.Types.{DecodedTraceEvent}
use sapi_game.Wire.Container.{trace_format_version}
use sapi_game.Trace.Session.{Session, chunk_header}
use sapi_game.Wire.Container.RoundTrip.{undo_byte, undo_bytes}

magic_then :
    (r : Result (List ℕ))
    → (write_byte 66
        then_write write_byte 71
        then_write write_byte 84
        then_write write_byte 67
        then_write r)
      ≡ (ok chunk_magic then_write r)
unfolding write_byte
magic_then (ok bytes) = refl
magic_then (err e) = refl

module _ (d : Double) where
  open d use {Number}

  undo_magic : Undoes (read_chunk_magic d) (ok chunk_magic) tt
  unfolding read_chunk_magic Reader.pure
  undo_magic =
      Undoes-then_skip (read_bytes (length chunk_magic)) _ (ok chunk_magic) chunk_magic tt
        (undo_bytes chunk_magic) (λ reader. refl)

  undo_version : Undoes (read_chunk_version d) (write_byte trace_format_version) tt
  unfolding read_chunk_version Reader.pure
  undo_version =
      Undoes-then_skip read_byte _ (write_byte trace_format_version) trace_format_version tt
        (undo_byte trace_format_version (omega arith)) (λ reader. refl)

  -- The header of a chunk is read back.
  undo_chunk_header :
      (s : Session)
      → Undoes
          (read_chunk_header d)
          (chunk_header s)
          (s.index, s.first_sequence, s.start_tick, s.event_count)
  unfolding read_chunk_header chunk_header
  undo_chunk_header s =
      subst
        (λ p.
          Undoes (read_chunk_header d) p (s.index, s.first_sequence, s.start_tick, s.event_count))
        (sym (magic_then _))
        (Undoes-bind (read_chunk_magic d) _ (ok chunk_magic) _ tt _ undo_magic (
          Undoes-bind (read_chunk_version d) _ (write_byte trace_format_version) _ tt _ undo_version
            (Undoes-bind read_var_uint _ (write_var_uint s.index) _ s.index _ (undo_uint s.index) (
              Undoes-bind read_var_uint _ (write_var_uint s.first_sequence) _ s.first_sequence _
                (undo_uint s.first_sequence)
                (Undoes-bind read_var_uint _ (write_var_uint s.start_tick) _ s.start_tick _
                  (undo_uint s.start_tick)
                  (Undoes-last read_var_uint
                    (λ count. (s.index, s.first_sequence, s.start_tick, count))
                    (write_var_uint s.event_count) s.event_count (undo_uint s.event_count)))))))

  -- The state at the start of a chunk.
  abbrev pub start_of : DecodeTables → List (DecodedTraceEvent Number) → ℕ → DecodeState d
  start_of tables output base = record {
    tables = tables;
    output = output;
    event_index = 0;
    previous_tick = base;
  }

  no_records : (first fuel : ℕ) (st : DecodeState d) → decode_records d first fuel st [] ≡ ok st
  unfolding decode_records
  no_records first zero st = refl
  no_records first (suc fuel) st = refl

  -- A chunk whose payload runs to a state with as many events as its header says.
  pub decode_chunk-Runs :
      (s : Session) (header payload : List ℕ) (t : DecodeTables)
      (output : List (DecodedTraceEvent Number)) (stop : DecodeState d)
      → chunk_header s ≡ ok header
      → Runs d s.first_sequence (start_of t output s.start_tick) payload stop
      → stop.event_index ≡ s.event_count
      → decode_chunk d (header ++ payload) t output ≡ ok (stop.tables, stop.output)
  unfolding decode_chunk
  decode_chunk-Runs s header payload t output stop wrote runs count =
      let run = runs (length payload) [] (omega (arith, ap length (append-nil payload))) in
      let records : decode_records d s.first_sequence (length payload)
            (start_of t output s.start_tick) payload
          ≡ ok stop =
        rw append-nil at run.2 ∙ no_records s.first_sequence run.0 stop in
      rw (undo_chunk_header s header payload wrote, records, count, ==_refl) refl

  pub decode_chunks-append :
      (xs ys : List (List ℕ)) (t : DecodeTables) (output : List (DecodedTraceEvent Number))
      (t' : DecodeTables) (output' : List (DecodedTraceEvent Number))
      → decode_chunks d xs t output ≡ ok (t', output')
      → decode_chunks d (xs ++ ys) t output ≡ decode_chunks d ys t' output'
  unfolding decode_chunks
  decode_chunks-append [] ys t output t' output' h =
      let same : t ≡ t' = cc in let same' : output ≡ output' = cc in rw (same, same') refl
  decode_chunks-append (x ∷ xs) ys t output t' output' h =
      let (found, e, e') = >>=-eq_ok (decode_chunk d x t output) _ h in
      rw e (decode_chunks-append xs ys found.0 found.1 t' output' e')
