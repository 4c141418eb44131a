-- ===== src/Trace/Emits.antt =====
-- The events of a session of packages/trace/src/runtime/session.ts come back from its chunks.
use sapi_game.Base.{
  ℕ, suc, ◌+◌, ◌<◌, ◌≡◌, refl, sym, ap, ◌∙◌, subst, inl, inr, Bool, true, false, ◌&&◌, Option, List,
  [], ◌∷◌, ◌++◌, arith, ltb, leb, ◌==◌, if◌then◌else◌, Bool-cases, length, length-append, All,
}
use sapi_game.Wire.Result.{Result, ok, err, ◌then_write◌}
use sapi_game.Wire.Varint.{write_byte, write_var_uint}
use sapi_game.Wire.Utf8.{IsUnit}
use sapi_game.Wire.Raw.{Double, Value, obj}
use sapi_game.Wire.Raw.Canonical.{canonical_value}
use sapi_game.Wire.Container.{Text}
use sapi_game.Trace.Types.{TraceSource}
use sapi_game.Trace.Act.{Act, ◌>>=◌, modify, gets, >>=-returned, lift-returned}
use sapi_game.Trace.Dictionary.{Dictionary, ensure_player}
use sapi_game.Trace.Decoder.{DecodeTables}
use sapi_game.Trace.Sync.{AreUnits, KnownNames, Synced, Extends, Extends-refl, Grows, Grows-trans}
use sapi_game.Trace.Defines.{ensure_player-Grows}
use sapi_game.Trace.Values.{
  Input, InputFields, obj, prepare_source, write_source, prepare_value, write_value,
}
use sapi_game.Trace.Decoder.{read_payload, event_name}
use sapi_game.Trace.Types.{DecodedTraceEvent, builtin_name, EventName}
use sapi_game.Trace.Session.{
  Session, in_session, zoom, flush, rotate_by_tick, current_tick, begin_chunk, write_delta,
  add_event, seal_full, append_event, emit_builtin_unsafe, emit_builtin, register_player,
}
use sapi_game.Trace.Reads.{Reads}
use sapi_game.Trace.ValueBack.{IsGiven, ValueBack, plain_value, write_value-Written}
use sapi_game.Trace.Prepare.{prepare_value-Grows, prepare_source-Grows, write_source-Written}
use sapi_game.Trace.EventBack.{no_schema, builtin_payload, builtin_event_name}
use sapi_game.Trace.Recorded.{
  done, Recorded, Opened, Opened-Grows, Recorded-Grows, Opened-Recorded, begin_chunk-Opened,
  add_event-Opened, seal_chunk-Recorded, event_of,
}

pub else_branch : {A : Type 0} (x y : A) (b : Bool) → b ≡ false → (if b then x else y) ≡ y
else_branch x y true h = cc
else_branch x y false h = refl

-- An operation on the dictionary, in the session.
pub zoom-returned :
    {A : Type 0} (op : Act Dictionary A) (s u : Session) (a : A)
    → zoom op s ≡ (u, ok a)
    → (w : Dictionary) × (op s.dict ≡ (w, ok a)) × (u ≡ record s { dict = w })
unfolding zoom
zoom-returned {A = A} op s u a h = split (op s.dict) refl h
  where
    split :
        (x : Dictionary × Result A)
        → op s.dict ≡ x
        → in_session s x ≡ (u, ok a)
        → (w : Dictionary) × (op s.dict ≡ (w, ok a)) × (u ≡ record s { dict = w })
    split (w, ok b) e h =
        let same : ok b ≡ ok a = cc in
        let other : record s { dict = w } ≡ u = cc in
        (w, rw (← (let one : b ≡ a = cc in one)) e, sym other)
    split (w, err b) e h = cc

module _ (d : Double) where
  open d use {Number}

  -- The writing of a payload, in a dictionary that has what `base` has: its bytes are read as `value`
  -- and the event is called `name`.
  pub record PayloadBack (base : Dictionary) (type : ℕ) (op : Act Dictionary (List ℕ))
      (value : Value Number) (name : EventName) : Type 0 where
    pub back :
        (s u : Dictionary) (bytes : List ℕ)
        → Extends base s
        → KnownNames s
        → op s ≡ (u, ok bytes)
        → Grows d s u
          × ((t : DecodeTables)
              → Synced t u
              → Reads (read_payload d t type) bytes value × (event_name d t type ≡ name))

  pub builtin-PayloadBack :
      (base : Dictionary) (type : ℕ) (v : Input Number)
      → type < 128
      → IsGiven v
      → PayloadBack base type
          (write_value d v)
          (canonical_value d (plain_value v))
          (builtin_name type)
  unfolding ValueBack
  builtin-PayloadBack base type v small given = record {
    back = λ s u bytes ext known h.
        (let w = write_value-Written d v s u bytes given known h in
          (
            w.grows,
            λ t synced.
                (let absent = no_schema t u type synced small in
                  (
                    λ rest.
                        (builtin_payload d t type v bytes rest absent (
                          w.reads t u (suc (length (bytes ++ rest))) synced (Extends-refl u)
                            (let short = w.short in omega (arith, length-append bytes rest)))),
                    builtin_event_name d t type absent,
                  )),
          ));
  }

  seal_full-Recorded :
      (s u : Session) (events : List (DecodedTraceEvent Number))
      → Recorded d false s events
      → seal_full s ≡ (u, ok tt)
      → Recorded d false u events
  unfolding seal_full
  seal_full-Recorded s u events r h =
      elim (Bool-cases (leb s.max_chunk_bytes (length s.dict.payload))) [
        | inl full ↦ (seal_chunk-Recorded d false s u events r (rw (full, seal_full) at h)).0
        | inr room ↦
            let e : done s ≡ done u = rw (room, seal_full) at h in
            let same : s ≡ u = cc in subst (λ z. Recorded d false z events) same r
      ]

  pub rotate_by_tick-Recorded :
      (tick : ℕ) (s u : Session) (events : List (DecodedTraceEvent Number))
      → Recorded d false s events
      → rotate_by_tick tick s ≡ (u, ok tt)
      → Recorded d false u events
  unfolding rotate_by_tick
  rotate_by_tick-Recorded tick s u events r h =
      elim (Bool-cases (ltb 0 s.event_count && leb (s.start_tick + s.max_chunk_tick_span) tick)) [
        | inl late ↦ (seal_chunk-Recorded d false s u events r (rw (late, rotate_by_tick) at h)).0
        | inr early ↦
            let e : done s ≡ done u = rw (early, rotate_by_tick) at h in
            let same : s ≡ u = cc in subst (λ z. Recorded d false z events) same r
      ]

  -- An event, its source and its payload, in a session that has begun a chunk.
  appended :
      (type tick : ℕ) (source : TraceSource) (op : Act Dictionary (List ℕ)) (value : Value Number)
      (name : EventName) (s : Session) (w x : Dictionary) (head sb pb : List ℕ)
      (events : List (DecodedTraceEvent Number))
      → Opened d false s events
      → AreUnits source.name
      → PayloadBack s.dict type op value name
      → (write_byte 16 then_write write_delta tick s.previous_tick then_write write_var_uint type)
        ≡ ok head
      → write_source source s.dict ≡ (w, ok sb)
      → op w ≡ (x, ok pb)
      → Opened d false
          (add_event tick (head ++ (sb ++ pb)) (record s { dict = x }))
          (events ++ (event_of d (suc s.sequence) tick type source name value ∷ []))
  appended type tick source op value name s w x head sb pb events o units p wrote e e' =
      let a = write_source-Written d source s.dict w sb units e in
      let (g, reads) = p.back w x pb a.grows.extends (a.grows.names o.known) e' in
      add_event-Opened d false (record s { dict = x }) events tick type source value name head sb pb
        (Opened-Grows d false s events x o (Grows-trans d s.dict w x a.grows g)) wrote
        (λ t synced. (a.reads t x 0 synced g.extends (omega arith))) reads

  append_rest :
      (type tick : ℕ) (source : TraceSource) (op : Act Dictionary (List ℕ)) (value : Value Number)
      (name : EventName) (s s₁ s₂ u : Session) (head sb pb : List ℕ)
      (events : List (DecodedTraceEvent Number))
      → Opened d false s events
      → AreUnits source.name
      → PayloadBack s.dict type op value name
      → (write_byte 16 then_write write_delta tick s.previous_tick then_write write_var_uint type)
        ≡ ok head
      → zoom (write_source source) s ≡ (s₁, ok sb)
      → zoom op s₁ ≡ (s₂, ok pb)
      → seal_full (add_event tick (head ++ (sb ++ pb)) s₂) ≡ (u, ok tt)
      → Recorded d false u
          (events ++ (event_of d (suc s.sequence) tick type source name value ∷ []))
  append_rest type tick source op value name s s₁ s₂ u head sb pb events o units p wrote e₁ e₂ h =
      let (w, e, same₁) = zoom-returned (write_source source) s s₁ sb e₁ in
      let (x, e', same₂) = zoom-returned op s₁ s₂ pb e₂ in
      let e'' = subst (λ z. op z.dict ≡ (x, ok pb)) same₁ e' in
      let same = same₂ ∙ ap {A = Session} (λ z. record z { dict = x }) same₁ in
      let after = events ++ (event_of d (suc s.sequence) tick type source name value ∷ []) in
      let last =
        appended type tick source op value name s w x head sb pb events o units p wrote e e'' in
      seal_full-Recorded (add_event tick (head ++ (sb ++ pb)) s₂) u after
        (Opened-Recorded d false (add_event tick (head ++ (sb ++ pb)) s₂) after (omega arith) (
          subst (λ z. Opened d false (add_event tick (head ++ (sb ++ pb)) z) after) (sym same)
            last))
        h

  begin_chunk-same :
      (tick : ℕ) (s : Session)
      → ((begin_chunk tick s).sequence ≡ s.sequence) × ((begin_chunk tick s).dict ≡ s.dict)
  begin_chunk-same tick s = elim (Bool-cases (s.event_count == 0)) [
    | inl empty ↦ (rw empty refl, rw empty refl)
    | inr filled ↦ (rw filled refl, rw filled refl)
  ]

  -- An event that is appended is recorded.
  pub append_event-Recorded :
      (type tick : ℕ) (source : TraceSource) (op : Act Dictionary (List ℕ)) (value : Value Number)
      (name : EventName) (s u : Session) (events : List (DecodedTraceEvent Number))
      → Recorded d false s events
      → AreUnits source.name
      → PayloadBack s.dict type op value name
      → append_event type tick source op s ≡ (u, ok tt)
      → Recorded d false u
          (events ++ (event_of d (suc s.sequence) tick type source name value ∷ []))
  unfolding append_event modify gets ◌>>=◌
  append_event-Recorded type tick source op value name s u events r units p h =
      let b = begin_chunk tick s in
      let o = begin_chunk-Opened d false s events tick r in
      let (same_sequence, same_dict) = begin_chunk-same tick s in
      let p' = subst (λ z. PayloadBack z type op value name) (sym same_dict) p in
      let (head, wrote, h₁) =
        lift-returned
          (write_byte 16 then_write write_delta tick b.previous_tick then_write write_var_uint type)
          _ b u tt h in
      let (s₁, sb, e₁, h₂) = >>=-returned (zoom (write_source source)) _ b u tt h₁ in
      let (s₂, pb, e₂, h₃) = >>=-returned (zoom op) _ s₁ u tt h₂ in
      subst
        (λ n. Recorded d false u (events ++ (event_of d (suc n) tick type source name value ∷ [])))
        same_sequence
        (append_rest type tick source op value name b s₁ s₂ u head sb pb events o units p' wrote e₁
          e₂ h₃)

  -- An operation of the dictionary that grows it.
  pub zoom-Recorded :
      {A : Type 0} (op : Act Dictionary A) (a : A) (s u : Session)
      (events : List (DecodedTraceEvent Number))
      → Recorded d false s events
      → ((w : Dictionary) → op s.dict ≡ (w, ok a) → Grows d s.dict w)
      → zoom op s ≡ (u, ok a)
      → Recorded d false u events
  zoom-Recorded op a s u events r grows h =
      let (w, e, same) = zoom-returned op s u a h in
      subst (λ z. Recorded d false z events) (sym same)
        (Recorded-Grows d false s events w r (grows w e))

  -- The record of a built-in event after `events`.
  abbrev pub builtin_event :
      List (DecodedTraceEvent Number)
      → ℕ
      → InputFields Number
      → TraceSource
      → ℕ
      → DecodedTraceEvent Number
  builtin_event events type payload source tick =
      event_of d (suc (length events)) tick type source (builtin_name type)
        (canonical_value d (plain_value (obj payload)))

  emit_builtin_unsafe-Recorded :
      (type : ℕ) (payload : InputFields Number) (source : TraceSource) (tick : ℕ) (s u : Session)
      (events : List (DecodedTraceEvent Number))
      → Recorded d false s events
      → type < 128
      → IsGiven (obj payload)
      → AreUnits source.name
      → emit_builtin_unsafe d type payload source tick s ≡ (u, ok tt)
      → Recorded d false u (events ++ (builtin_event events type payload source tick ∷ []))
  unfolding emit_builtin_unsafe
  emit_builtin_unsafe-Recorded type payload source tick s u events r small given units h =
      let (s₁, x₁, e₁, h₁) = >>=-returned (rotate_by_tick tick) _ s u tt h in
      let r₁ = rotate_by_tick-Recorded tick s s₁ events r e₁ in
      let (s₂, x₂, e₂, h₂) = >>=-returned (zoom (prepare_source source)) _ s₁ u tt h₁ in
      let r₂ =
        zoom-Recorded (prepare_source source) tt s₁ s₂ events r₁
          (λ w. prepare_source-Grows d source s₁.dict w units) e₂ in
      let (s₃, x₃, e₃, h₃) = >>=-returned (zoom (prepare_value d (obj payload))) _ s₂ u tt h₂ in
      let r₃ =
        zoom-Recorded (prepare_value d (obj payload)) tt s₂ s₃ events r₂
          (λ w. prepare_value-Grows d (obj payload) s₂.dict w given r₂.known) e₃ in
      subst
        (λ n. Recorded d false u (
          events
          ++ (event_of d (suc n) tick type source (builtin_name type)
                (canonical_value d (plain_value (obj payload)))
              ∷ [])))
        (sym r₃.counted)
        (append_event-Recorded type tick source (write_value d (obj payload))
          (canonical_value d (plain_value (obj payload))) (builtin_name type) s₃ u events r₃ units
          (builtin-PayloadBack s₃.dict type (obj payload) small given) h₃)

  pub emit_builtin-Recorded :
      (type : ℕ) (payload : InputFields Number) (source : TraceSource) (tick : Option ℕ)
      (s u : Session) (events : List (DecodedTraceEvent Number))
      → Recorded d false s events
      → type < 128
      → IsGiven (obj payload)
      → AreUnits source.name
      → emit_builtin d type payload source tick s ≡ (u, ok tt)
      → Recorded d false u
          (events ++ (builtin_event events type payload source (current_tick tick) ∷ []))
  unfolding emit_builtin
  emit_builtin-Recorded type payload source tick s u events r small given units h =
      let running = r.running in
      emit_builtin_unsafe-Recorded type payload source (current_tick tick) s u events r small given
        units (sym (else_branch _ _ s.ended running) ∙ h)

  pub register_player-Recorded :
      (id : Text) (name : Option Text) (i : ℕ) (s u : Session)
      (events : List (DecodedTraceEvent Number))
      → Recorded d false s events
      → All IsUnit id
      → AreUnits name
      → register_player id name s ≡ (u, ok i)
      → Recorded d false u events
  unfolding register_player
  register_player-Recorded id name i s u events r units name_units h =
      zoom-Recorded (ensure_player id name) i s u events r
        (λ w e. (ensure_player-Grows d id name s.dict w i units name_units r.known e).0) h

  pub flush-Recorded :
      (s u : Session) (events : List (DecodedTraceEvent Number))
      → Recorded d false s events
      → flush s ≡ (u, ok tt)
      → Recorded d false u events
  unfolding flush
  flush-Recorded s u events r h =
      let running = r.running in
      (seal_chunk-Recorded d false s u events r (sym (else_branch _ _ s.ended running) ∙ h)).0
