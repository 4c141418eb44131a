-- ===== src/Trace/EventBack.antt =====
-- An event record of packages/trace/src/runtime/session.ts and what the decoder reads of it.
use sapi_game.Base.{
  ℕ, suc, ◌+◌, ◌-◌, ◌≤◌, ◌<◌, ◌≡◌, refl, sym, ap, ◌∙◌, subst, inl, inr, none, List, [], ◌∷◌, ◌++◌,
  append_assoc, arith, ltb, Bool-cases, Option-cases, length,
}
use sapi_game.Base.Maps.{map_get}
use sapi_game.Wire.Result.{ok, ◌then_write◌, then_write-eq_ok}
use sapi_game.Wire.Varint.{write_byte, write_var_uint}
use sapi_game.Wire.Raw.{Double, Value}
use sapi_game.Wire.Raw.Canonical.{canonical_value}
use sapi_game.Wire.Raw.Strings.{read_of_write_var_uint, tagged}
use sapi_game.Wire.Reader.{Reader, Undoes, Undoes-pure, Undoes-bind, Undoes-last, Undoes-skip}
use sapi_game.Wire.Reader as Reader
use sapi_game.Trace.Types.{TraceSource}
use sapi_game.Trace.Dictionary.{Dictionary}
use sapi_game.Trace.Decoder.{
  DecodeTables, DecodeState, read_source, read_ref_value, read_table_value, read_record,
}
use sapi_game.Trace.Sync.{Synced, Runs, Runs-record}
use sapi_game.Trace.Values.{Input}
use sapi_game.Trace.Decoder.{read_payload, event_name, read_event}
use sapi_game.Trace.Types.{DecodedTraceEvent, builtin_name, EventName}
use sapi_game.Trace.Session.{write_delta}
use sapi_game.Trace.Reads.{Reads}
use sapi_game.Trace.ValueBack.{plain_value}

-- A tick that is written is not before the previous one.
pub write_delta-ok :
    (tick previous : ℕ) (bytes : List ℕ)
    → write_delta tick previous ≡ ok bytes
    → (previous ≤ tick) × (write_var_uint (tick - previous) ≡ ok bytes)
write_delta-ok tick previous bytes h = elim (Bool-cases (ltb tick previous)) [
  | inl before ↦ absurd (cc (rw before at h))
  | inr after ↦ (ground (arith, after), rw after at h)
]

-- A type below 128 has no schema, for a session numbers them from there on.
pub no_schema :
    (t : DecodeTables) (u : Dictionary) (type : ℕ)
    → Synced t u
    → type < 128
    → map_get type t.schemas ≡ none
no_schema t u type g small = elim (Option-cases (map_get type t.schemas)) [
  | inl e ↦ e
  | inr (schema, e) ↦ let from = (g.schema_range type schema e).0 in absurd (omega arith)
]

module _ (d : Double) where
  open d use {Number}

  -- The state of the decoder after an event.
  abbrev pub with_event : DecodeState d → DecodedTraceEvent Number → DecodeState d
  with_event st e = record st {
    previous_tick = e.tick;
    output = st.output ++ (e ∷ []);
    event_index = suc st.event_index;
  }

  read_event_parts :
      (first : ℕ) (st : DecodeState d) (delta type : ℕ) (source : TraceSource)
      (value : Value Number) (name : EventName) (db tb sb pb rest : List ℕ)
      → write_var_uint delta ≡ ok db
      → write_var_uint type ≡ ok tb
      → Reads (read_source st.tables) sb source
      → read_payload d st.tables type (pb ++ rest) ≡ ok (value, rest)
      → event_name d st.tables type ≡ name
      → read_event d first st (db ++ (tb ++ (sb ++ (pb ++ rest))))
        ≡ ok (
          with_event st (record {
            sequence = first + st.event_index;
            tick = st.previous_tick + delta;
            type_id = type;
            type = name;
            source = source;
            payload = value;
          }),
          rest,
        )
  unfolding read_event Reader.◌>>=◌ Reader.pure
  read_event_parts first st delta type source value name db tb sb pb rest e e' reads reads' named =
      rw
        (
          read_of_write_var_uint delta db (tb ++ (sb ++ (pb ++ rest))) e,
          read_of_write_var_uint type tb (sb ++ (pb ++ rest)) e',
          reads (pb ++ rest),
          reads',
          named,
        )
        refl

  pub builtin_payload :
      (t : DecodeTables) (type : ℕ) (v : Input Number) (bytes rest : List ℕ)
      → map_get type t.schemas ≡ none
      → Reads
          (read_ref_value d t (suc (length (bytes ++ rest))))
          bytes
          (canonical_value d (plain_value v))
      → read_payload d t type (bytes ++ rest) ≡ ok (canonical_value d (plain_value v), rest)
  unfolding read_payload read_table_value
  builtin_payload t type v bytes rest none_there reads = rw (none_there, read_payload) (reads rest)

  pub builtin_event_name :
      (t : DecodeTables) (type : ℕ)
      → map_get type t.schemas ≡ none
      → event_name d t type ≡ builtin_name type
  unfolding event_name
  builtin_event_name t type none_there = rw (none_there, event_name) refl

  -- An event that was written takes the decoder to a state with that event.
  pub event-Runs :
      (first : ℕ) (st : DecodeState d) (tick type : ℕ) (source : TraceSource) (value : Value Number)
      (name : EventName) (head sb pb : List ℕ)
      → (write_byte 16 then_write write_delta tick st.previous_tick then_write write_var_uint type)
        ≡ ok head
      → Reads (read_source st.tables) sb source
      → Reads (read_payload d st.tables type) pb value
      → event_name d st.tables type ≡ name
      → Runs d first st (head ++ (sb ++ pb)) (
          with_event st (record {
            sequence = first + st.event_index;
            tick = tick;
            type_id = type;
            type = name;
            source = source;
            payload = value;
          }))
  unfolding read_record
  event-Runs first st tick type source value name head sb pb wrote reads reads' named =
      let (body, wrote_body, same) =
        tagged 16 (write_delta tick st.previous_tick then_write write_var_uint type) head refl
          wrote in
      let (db, tb, e, e', same') =
        then_write-eq_ok (write_delta tick st.previous_tick) (write_var_uint type) wrote_body in
      let (after, e'') = write_delta-ok tick st.previous_tick db e in
      let shape : 16 ∷ (db ++ (tb ++ (sb ++ pb))) ≡ head ++ (sb ++ pb) =
        rw (same, ← same') (ap (λ z. 16 ∷ z) (sym (append_assoc db tb (sb ++ pb)))) in
      subst (λ z. Runs d first st z (with_event st (event tick))) shape
        (Runs-record d first st (with_event st (event tick)) 16 (db ++ (tb ++ (sb ++ pb))) (λ rest.
          (rw
            (
              append_assoc db (tb ++ (sb ++ pb)) rest,
              append_assoc tb (sb ++ pb) rest,
              append_assoc sb pb rest,
            )
            (read_event_parts first st (tick - st.previous_tick) type source value name db tb sb pb
                rest e'' e' reads (reads' rest) named
              ∙ ap (λ n. ok (with_event st (event n), rest)) (forward after)))))
    where
      event : ℕ → DecodedTraceEvent Number
      event n = record {
        sequence = first + st.event_index;
        tick = n;
        type_id = type;
        type = name;
        source = source;
        payload = value;
      }

      forward : st.previous_tick ≤ tick → st.previous_tick + (tick - st.previous_tick) ≡ tick
      forward h = omega arith
