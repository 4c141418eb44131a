-- ===== src/Trace/Sessions.antt =====
-- A whole session of packages/trace/src/runtime/session.ts, and what decoder.ts makes of it.
use sapi_game.Base.{
  ℕ, ◌<◌, ◌≡◌, refl, sym, ap, ◌∙◌, subst, inl, true, false, Option, some, List, [], ◌∷◌, ◌++◌,
  arith, ==_refl, length, All,
}
use sapi_game.Wire.Result.{Result, ok, err}
use sapi_game.Wire.Utf8.{IsUnit}
use sapi_game.Wire.Raw.{Double, obj}
use sapi_game.Wire.Container.{Text}
use sapi_game.Trace.Types.{TraceSource}
use sapi_game.Trace.Act.{◌>>=◌, pure, modify, gets, >>=-returned, pure-returned}
use sapi_game.Trace.Dictionary.{ensure_state, ensure_component}
use sapi_game.Trace.Decoder.{DecodeTables}
use sapi_game.Trace.Sync.{AreUnits, Synced, Runs-nil}
use sapi_game.Trace.Values.{InputFields, obj}
use sapi_game.Trace.Decoder.{decode_chunks, no_tables, decode_beg_trace}
use sapi_game.Trace.Types.{DecodedTraceEvent}
use sapi_game.Trace.Session.{
  Session, new_session, zoom, seal_chunk, flush, current_tick, emit_builtin, register_player,
}
use sapi_game.Wire.Container.{
  TraceSessionHeader, TraceSessionEnd, TraceSessionStatus, encode_beg_trace,
}
use sapi_game.Wire.Container.RoundTrip.{
  decode-encode_beg_trace, IsProperHeader, IsProperEnd, canonical_header,
}
use sapi_game.Trace.Session.{
  create_state_scope, create_component_scope, safely, end_session, session_end,
}
use sapi_game.Trace.ValueBack.{IsGiven}
use sapi_game.Trace.Scopes.{ensure_state-Grows, ensure_component-Grows}
use sapi_game.Trace.Recorded.{bytes_of, Recorded, seal_chunk-Recorded, Recorded-ends, sealed_all}
use sapi_game.Trace.Emits.{
  else_branch, zoom-Recorded, builtin_event, emit_builtin-Recorded, register_player-Recorded,
  flush-Recorded,
}
use sapi_game.Wire.Raw.Keys.{DistinctKeys}
use sapi_game.Trace.Dictionary.{TraceEventSchema, normalize_fields}
use sapi_game.Trace.Session.{Payload, emit_custom}
use sapi_game.Trace.Schemas.{AreNames}
use sapi_game.Trace.CustomBack.{AreTexts, custom_fields}
use sapi_game.Trace.CustomEvents.{schema_of, custom_event, emit_custom-Recorded}

module _ (d : Double) where
  open d use {Number}

  -- One call that returned, and what it adds to the events.
  pub data Step (s : Session) (events : List (DecodedTraceEvent Number))
      : Session → List (DecodedTraceEvent Number) → Type 0 where
    emitted :
        (u : Session) (type : ℕ) (payload : InputFields Number) (source : TraceSource)
        (tick : Option ℕ)
        → type < 128
        → IsGiven (obj payload)
        → AreUnits source.name
        → emit_builtin d type payload source tick s ≡ (u, ok tt)
        → Step s events u
            (events ++ (builtin_event d events type payload source (current_tick tick) ∷ []))
    custom_emitted :
        (u : Session) (schema : TraceEventSchema) (payload : Payload d) (source : TraceSource)
        (tick : Option ℕ)
        → All IsUnit schema.name
        → AreNames (normalize_fields schema.fields)
        → AreTexts d payload
        → DistinctKeys (custom_fields d (schema_of schema s.dict).fields payload)
        → AreUnits source.name
        → emit_custom d schema payload source tick s ≡ (u, ok tt)
        → Step s events u (
            events
            ++ (custom_event d events schema.name
                  (schema_of schema s.dict)
                  payload
                  source
                  (current_tick tick)
                ∷ []))
    registered :
        (u : Session) (id : Text) (name : Option Text) (i : ℕ)
        → All IsUnit id
        → AreUnits name
        → register_player id name s ≡ (u, ok i)
        → Step s events u events
    state_scope :
        (u : Session) (state : ℕ) (name : Text) (i : ℕ)
        → All IsUnit name
        → create_state_scope state name s ≡ (u, some i)
        → Step s events u events
    component_scope :
        (u : Session) (component state : ℕ) (name : Text) (tag : Option Text) (i : ℕ)
        → All IsUnit name
        → AreUnits tag
        → create_component_scope component state name tag s ≡ (u, some i)
        → Step s events u events
    flushed : (u : Session) → flush s ≡ (u, ok tt) → Step s events u events

  -- Calls one after another.
  pub data SessionRun (s : Session) (events : List (DecodedTraceEvent Number))
      : Session → List (DecodedTraceEvent Number) → Type 0 where
    begun : SessionRun s events s events
    called :
        {u w : Session} {more most : List (DecodedTraceEvent Number)}
        → SessionRun s events u more
        → Step u more w most
        → SessionRun s events w most

  safely-some :
      {A : Type 0} (x : Session × Result A) (u : Session) (a : A)
      → safely x ≡ (u, some a)
      → x ≡ (u, ok a)
  safely-some (s, ok b) u a h = cc
  safely-some (s, err e) u a h = cc

  Step-Recorded :
      (s u : Session) (events more : List (DecodedTraceEvent Number))
      → Step s events u more
      → Recorded d false s events
      → Recorded d false u more
  unfolding create_state_scope create_component_scope
  Step-Recorded s _ events _ (emitted u type payload source tick small given units h) r =
      emit_builtin-Recorded d type payload source tick s u events r small given units h
  Step-Recorded s _ events _
        (custom_emitted u schema payload source tick units names texts distinct source_units h) r =
      emit_custom-Recorded d schema payload source tick s u events r units names texts distinct
        source_units h
  Step-Recorded s _ events _ (registered u id name i units name_units h) r =
      register_player-Recorded d id name i s u events r units name_units h
  Step-Recorded s _ events _ (state_scope u state name i units h) r =
      let running = r.running in
      zoom-Recorded d (ensure_state state name) i s u events r
        (λ w e. ensure_state-Grows d state name s.dict w i units e)
        (safely-some (zoom (ensure_state state name) s) u i
          (sym (else_branch _ _ s.ended running) ∙ h))
  Step-Recorded s _ events _ (component_scope u component state name tag i units tag_units h) r =
      let running = r.running in
      zoom-Recorded d (ensure_component component state name tag) i s u events r
        (λ w e. ensure_component-Grows d component state name tag s.dict w i units tag_units e)
        (safely-some (zoom (ensure_component component state name tag) s) u i
          (sym (else_branch _ _ s.ended running) ∙ h))
  Step-Recorded s _ events _ (flushed u h) r = flush-Recorded d s u events r h

  SessionRun-Recorded :
      (s : Session) (events : List (DecodedTraceEvent Number)) (u : Session)
      (more : List (DecodedTraceEvent Number))
      → SessionRun s events u more
      → Recorded d false s events
      → Recorded d false u more
  SessionRun-Recorded s events _ _ begun r = r
  SessionRun-Recorded s events _ _ (called {u = u} {w = w} {more = more} {most = most} run one) r =
      Step-Recorded u w more most one (SessionRun-Recorded s events u more run r)

  new_session-Recorded :
      (id : Text) (bytes span : Option ℕ) → Recorded d false (new_session id bytes span) []
  unfolding new_session decode_chunks
  new_session-Recorded id bytes span = record {
    running = refl;
    sealed = record { tables = no_tables; events = []; decodes = refl };
    known = λ v. tt;
    counted = refl;
    active = inl (
      refl,
      refl,
      (λ first base. (
        no_tables,
        Runs-nil d first
            (record { tables = no_tables; output = []; event_index = 0; previous_tick = base }),
        nothing_synced,
      )),
    );
  }
    where
      nothing_synced : Synced no_tables (new_session id bytes span).dict
      nothing_synced = record {
        strings = λ v i h. cc;
        players = λ v i h. cc;
        schemas = λ v schema h. cc;
        schema_range = λ i schema h. cc;
        schema_numbers = λ v schema h. cc;
        schema_names = λ v schema h. cc;
        custom_from = omega arith;
      }

  -- The end of a session seals what is left.
  end_session-sealed :
      (status : TraceSessionStatus) (reason : Option Text) (tick now : ℕ) (s u : Session)
      (e : TraceSessionEnd) (events : List (DecodedTraceEvent Number))
      → Recorded d false s events
      → end_session status reason tick now s ≡ (u, ok e)
      → ((t : DecodeTables) × (decode_chunks d (bytes_of u.sink) no_tables [] ≡ ok (t, events)))
        × (length events ≡ e.event_count)
  unfolding end_session modify gets ◌>>=◌ pure
  end_session-sealed status reason tick now s u e events r h =
      let running = r.running in
      let ending = record s { ended = true } in
      let (w, x, sealed, last) =
        >>=-returned seal_chunk (λ x. gets (session_end status reason tick now)) ending u e
          (sym (else_branch _ _ s.ended running) ∙ h) in
      let (r', none_left) =
        seal_chunk-Recorded d true ending w events (Recorded-ends d s events r) sealed in
      let (same, made) = pure-returned w u (session_end status reason tick now w) e last in
      (
        subst
            (λ z.
              (t : DecodeTables) × (decode_chunks d (bytes_of z.sink) no_tables []
                ≡ ok (t, events)))
            same (sealed_all d true w events r' none_left),
        r'.counted ∙ ap (λ z. z.event_count) made,
      )

  -- A session that began with new_session, took any sequence of calls that returned (built-in events
  -- of a type below 128 with proper values, custom events with fields of distinct names, players, scopes of states and components, flushes) and
  -- ended, put into a file by encode_beg_trace with a proper header of the same session, is decoded
  -- by decode_beg_trace to exactly the events of the calls, in order and numbered from 1, each with
  -- its tick, source and name and its payload in the form a value has when it is read. A custom event
  -- has the fields that were given and that the schema of the session under its name has.
  pub decode_beg_trace-session :
      (id : Text) (max_bytes max_span : Option ℕ) (s u : Session)
      (events : List (DecodedTraceEvent Number)) (status : TraceSessionStatus)
      (reason : Option Text) (tick now : ℕ) (header : TraceSessionHeader Number)
      (e : TraceSessionEnd) (bytes : List ℕ)
      → SessionRun (new_session id max_bytes max_span) [] s events
      → end_session status reason tick now s ≡ (u, ok e)
      → IsProperHeader d header
      → IsProperEnd e
      → e.session_id ≡ header.session_id
      → encode_beg_trace d header (bytes_of u.sink) e ≡ ok bytes
      → decode_beg_trace d bytes
        ≡ ok (record { header = canonical_header d header; ending = e; events = events })
  unfolding decode_beg_trace
  decode_beg_trace-session id max_bytes max_span s u events status reason tick now header e bytes
        run ended proper proper' same wrote =
      let r =
        SessionRun-Recorded (new_session id max_bytes max_span) [] s events run
          (new_session-Recorded id max_bytes max_span) in
      let ((t, decoded), count) = end_session-sealed status reason tick now s u e events r ended in
      rw
        (
          decode-encode_beg_trace d header (bytes_of u.sink) e bytes proper proper' same wrote,
          decoded,
          count,
          ==_refl,
        )
        refl
