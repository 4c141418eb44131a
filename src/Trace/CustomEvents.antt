-- ===== src/Trace/CustomEvents.antt =====
-- A custom event of packages/trace/src/runtime/session.ts.
use sapi_game.Base.{
  ℕ, suc, ◌+◌, ◌≡◌, refl, sym, ap, ◌∙◌, subst, inl, inr, false, ◌&&◌, Option, none, some, List, [],
  ◌∷◌, ◌++◌, ltb, leb, ◌==◌, Bool-cases, Option-cases, length, All,
}
use sapi_game.Wire.Result.{ok, schema_collision, ◌then_write◌, Result-cases}
use sapi_game.Wire.Varint.{write_byte, write_var_uint}
use sapi_game.Wire.Utf8.{IsUnit}
use sapi_game.Wire.Raw.{Double, obj, str_eq}
use sapi_game.Wire.Raw.Keys.{DistinctKeys}
use sapi_game.Wire.Container.{Text}
use sapi_game.Trace.Types.{TraceSource}
use sapi_game.Trace.Texts.{text_get}
use sapi_game.Trace.Act.{◌>>=◌, pure, throw, modify, >>=-returned, lift-returned, pure-returned}
use sapi_game.Trace.Dictionary.{Dictionary, CustomSchemaRecord, put, ensure_string, ensure_optional}
use sapi_game.Trace.Sync.{AreUnits, Grows}
use sapi_game.Trace.Strings.{ensure_optional-StringsGrow}
use sapi_game.Trace.Types.{DecodedTraceEvent}
use sapi_game.Trace.Session.{
  Session, zoom, chunk_header, next_chunk, seal_chunk, rotate_by_tick, current_tick, append_event,
}
use sapi_game.Trace.Types.{custom}
use sapi_game.Trace.Dictionary.{
  TraceEventSchema, normalize_fields, ensure_schema, define_schema, new_schema, ensure_names,
  write_schema_fields, schema_signature,
}
use sapi_game.Trace.Values.{prepare_source}
use sapi_game.Trace.Session.{
  Payload, prepare_custom_fields, write_custom_payload, emit_custom_unsafe, emit_custom,
}
use sapi_game.Trace.ValueBack.{joined}
use sapi_game.Trace.Prepare.{prepare_source-Grows}
use sapi_game.Trace.Schemas.{AreNames, ensure_schema-Grows}
use sapi_game.Trace.Recorded.{Recorded, event_of, done, failed}
use sapi_game.Trace.Emits.{
  else_branch, append_event-Recorded, rotate_by_tick-Recorded, zoom-returned, zoom-Recorded,
}
use sapi_game.Trace.CustomBack.{
  AreTexts, custom_fields, prepare_custom_fields-Grows, custom-PayloadBack,
}

-- The schema that a session uses for one that is given: the one it has under the name, or a new one.
abbrev pub schema_or_new :
    TraceEventSchema → Dictionary → Option CustomSchemaRecord → CustomSchemaRecord
schema_or_new schema s none = record {
  type_id = s.next_custom_type_id;
  name = schema.name;
  fields = normalize_fields schema.fields;
}
schema_or_new schema s (some existing) = existing

abbrev pub schema_of : TraceEventSchema → Dictionary → CustomSchemaRecord
schema_of schema s = schema_or_new schema s (text_get schema.name s.schema_ids)

-- What the choice of a schema depends on.
abbrev SameSchemas : Dictionary → Dictionary → Type 0
SameSchemas s u = (u.schema_ids ≡ s.schema_ids) × (u.next_custom_type_id ≡ s.next_custom_type_id)

schema_of-same :
    (schema : TraceEventSchema) (s u : Dictionary)
    → SameSchemas s u
    → schema_of schema u ≡ schema_of schema s
schema_of-same schema s u (ids, next) =
    ap (λ z. schema_or_new schema u (text_get schema.name z)) ids
    ∙ by_choice (text_get schema.name s.schema_ids)
  where
    by_choice :
        (o : Option CustomSchemaRecord) → schema_or_new schema u o ≡ schema_or_new schema s o
    by_choice none = rw next refl
    by_choice (some existing) = refl

define_schema-returned :
    (schema r : CustomSchemaRecord) (s u : Dictionary)
    → define_schema schema s ≡ (u, ok r)
    → schema ≡ r
unfolding define_schema ◌>>=◌ modify
define_schema-returned schema r s u h =
    let start = new_schema schema s in
    let (v, name_ref, found, h₁) = >>=-returned (ensure_string schema.name) _ start u r h in
    let (w, x₁, e, h₂) = >>=-returned (ensure_names schema.fields) _ v u r h₁ in
    let (head, wrote, h₃) =
      lift-returned
        (write_byte 5
          then_write write_var_uint schema.type_id
          then_write write_var_uint name_ref
          then_write write_var_uint (length schema.fields))
        _ w u r h₂ in
    let (x, tail, e', h₄) = >>=-returned (write_schema_fields schema.fields) _ w u r h₃ in
    (pure-returned (put (head ++ tail) x) u schema r h₄).1

ensure_schema-returned :
    (schema : TraceEventSchema) (r : CustomSchemaRecord) (s u : Dictionary)
    → ensure_schema schema s ≡ (u, ok r)
    → r ≡ schema_of schema s
unfolding ensure_schema throw
ensure_schema-returned schema r s u h = elim (Option-cases (text_get schema.name s.schema_ids)) [
  | inl new ↦
      let fresh = schema_or_new schema s none in
      let h' : define_schema fresh s ≡ (u, ok r) = rw (new, ensure_schema) at h in
      sym (define_schema-returned fresh r s u h') ∙ sym (ap (schema_or_new schema s) new)
  | inr (existing, found) ↦
      let fields = normalize_fields schema.fields in
      elim (Bool-cases (str_eq (schema_signature existing.fields) (schema_signature fields))) [
        | inl match ↦
            let h' : pure existing s ≡ (u, ok r) = rw (found, match, ensure_schema) at h in
            sym ((pure-returned s u existing r h').1) ∙ sym (ap (schema_or_new schema s) found)
        | inr differ ↦
            let h' : throw {A = CustomSchemaRecord} schema_collision s ≡ (u, ok r) =
              rw (found, differ, ensure_schema) at h in
            absurd cc
      ]
]

seal_chunk-same : (s u : Session) → seal_chunk s ≡ done u → SameSchemas s.dict u.dict
unfolding seal_chunk
seal_chunk-same s u h = elim (Bool-cases (s.event_count == 0)) [
  | inl empty ↦
      let e : done s ≡ done u = rw (empty, seal_chunk) at h in
      let same : s ≡ u = cc in subst (λ z. SameSchemas s.dict z.dict) same (refl, refl)
  | inr filled ↦ elim (Result-cases (chunk_header s)) [
    | inl (header, wrote) ↦
        let e : done (next_chunk header s) ≡ done u = rw (filled, wrote, seal_chunk) at h in
        let same : next_chunk header s ≡ u = cc in
        subst (λ z. SameSchemas s.dict z.dict) same (refl, refl)
    | inr (failure, threw) ↦
        let e : failed failure s ≡ done u = rw (filled, threw, seal_chunk) at h in absurd cc
  ]
]

rotate_by_tick-same :
    (tick : ℕ) (s u : Session) → rotate_by_tick tick s ≡ done u → SameSchemas s.dict u.dict
unfolding rotate_by_tick
rotate_by_tick-same tick s u h =
    elim (Bool-cases (ltb 0 s.event_count && leb (s.start_tick + s.max_chunk_tick_span) tick)) [
      | inl late ↦ seal_chunk-same s u (rw (late, rotate_by_tick) at h)
      | inr early ↦
          let e : done s ≡ done u = rw (early, rotate_by_tick) at h in
          let same : s ≡ u = cc in subst (λ z. SameSchemas s.dict z.dict) same (refl, refl)
    ]

module _ (d : Double) where
  open d use {Number}

  prepare_source-same :
      (source : TraceSource) (s u : Dictionary)
      → AreUnits source.name
      → prepare_source source s ≡ (u, ok tt)
      → SameSchemas s u
  unfolding prepare_source
  prepare_source-same source s u units h =
      let (n, e, same) = joined {B = Unit {0}} (ensure_optional source.name) (λ n. tt) s u tt h in
      let g = (ensure_optional-StringsGrow d source.name s u n units e).0 in
      (g.same_schemas, g.same_next_type)

  -- The record of a custom event after `events`, for the schema that the session uses.
  abbrev pub custom_event :
      List (DecodedTraceEvent Number)
      → Text
      → CustomSchemaRecord
      → Payload d
      → TraceSource
      → ℕ
      → DecodedTraceEvent Number
  custom_event events name r payload source tick =
      event_of d (suc (length events)) tick r.type_id source (custom name)
        (obj (custom_fields d r.fields payload))

  -- What is appended, once the schema is there and the fields are prepared.
  custom_rest :
      (name : Text) (r : CustomSchemaRecord) (payload : Payload d) (source : TraceSource) (tick : ℕ)
      (s w u : Session) (events : List (DecodedTraceEvent Number))
      → Recorded d false s events
      → text_get name s.dict.schema_ids ≡ some r
      → AreTexts d payload
      → DistinctKeys (custom_fields d r.fields payload)
      → AreUnits source.name
      → zoom (prepare_custom_fields d r.fields payload) s ≡ (w, ok tt)
      → append_event r.type_id tick source (write_custom_payload d r.fields payload) w ≡ (u, ok tt)
      → Recorded d false u (events ++ (custom_event events name r payload source tick ∷ []))
  custom_rest name r payload source tick s w u events rec there texts distinct units prepared h =
      let op = prepare_custom_fields d r.fields payload in
      let grows : (x : Dictionary) → op s.dict ≡ (x, ok tt) → Grows d s.dict x =
        λ x. prepare_custom_fields-Grows d r.fields payload s.dict x texts rec.known in
      let rec' = zoom-Recorded d op tt s w events rec grows prepared in
      let (x, e, same) = zoom-returned op s w tt prepared in
      let there' : text_get name w.dict.schema_ids ≡ some r =
        subst (λ z. text_get name z.dict.schema_ids ≡ some r) (sym same)
          ((grows x e).extends.schemas name r there) in
      subst
        (λ n. Recorded d false u (
          events
          ++ (event_of d (suc n) tick r.type_id source (custom name)
                (obj (custom_fields d r.fields payload))
              ∷ [])))
        (sym rec'.counted)
        (append_event-Recorded d r.type_id tick source (write_custom_payload d r.fields payload)
          (obj (custom_fields d r.fields payload)) (custom name) w u events rec' units
          (custom-PayloadBack d w.dict name r payload there' texts distinct) h)

  emit_custom_unsafe-Recorded :
      (schema : TraceEventSchema) (payload : Payload d) (source : TraceSource) (tick : ℕ)
      (s u : Session) (events : List (DecodedTraceEvent Number))
      → Recorded d false s events
      → All IsUnit schema.name
      → AreNames (normalize_fields schema.fields)
      → AreTexts d payload
      → DistinctKeys (custom_fields d (schema_of schema s.dict).fields payload)
      → AreUnits source.name
      → emit_custom_unsafe d schema payload source tick s ≡ (u, ok tt)
      → Recorded d false u (
          events
          ++ (custom_event events schema.name (schema_of schema s.dict) payload source tick ∷ []))
  unfolding emit_custom_unsafe
  emit_custom_unsafe-Recorded schema payload source tick s u events rec name_units names texts
        distinct units h =
      let (s₁, x₁, e₁, h₁) = >>=-returned (rotate_by_tick tick) _ s u tt h in
      let rec₁ = rotate_by_tick-Recorded d tick s s₁ events rec e₁ in
      let (s₂, x₂, e₂, h₂) = >>=-returned (zoom (prepare_source source)) _ s₁ u tt h₁ in
      let rec₂ =
        zoom-Recorded d (prepare_source source) tt s₁ s₂ events rec₁
          (λ w. prepare_source-Grows d source s₁.dict w units) e₂ in
      let (s₃, r, e₃, h₃) = >>=-returned (zoom (ensure_schema schema)) _ s₂ u tt h₂ in
      let rec₃ =
        zoom-Recorded d (ensure_schema schema) r s₂ s₃ events rec₂
          (λ w e. (ensure_schema-Grows d schema r s₂.dict w name_units names e).0) e₃ in
      let (s₄, x₄, e₄, h₄) =
        >>=-returned (zoom (prepare_custom_fields d r.fields payload)) _ s₃ u tt h₃ in
      let (w, found, same₂) = zoom-returned (prepare_source source) s₁ s₂ tt e₂ in
      let (x, made, same₃) = zoom-returned (ensure_schema schema) s₂ s₃ r e₃ in
      let there : text_get schema.name s₃.dict.schema_ids ≡ some r =
        subst (λ z. text_get schema.name z.dict.schema_ids ≡ some r) (sym same₃)
          ((ensure_schema-Grows d schema r s₂.dict x name_units names made).1) in
      let chosen : r ≡ schema_of schema s.dict =
        ensure_schema-returned schema r s₂.dict x made
        ∙ (ap (λ z. schema_of schema z.dict) same₂
            ∙ (schema_of-same schema s₁.dict w (prepare_source-same source s₁.dict w units found)
                ∙ schema_of-same schema s.dict s₁.dict (rotate_by_tick-same tick s s₁ e₁))) in
      subst
        (λ z.
          Recorded d false u
            (events ++ (custom_event events schema.name z payload source tick ∷ [])))
        chosen
        (custom_rest schema.name r payload source tick s₃ s₄ u events rec₃ there texts
          (subst (λ z. DistinctKeys (custom_fields d z.fields payload)) (sym chosen) distinct) units
          e₄ h₄)

  pub emit_custom-Recorded :
      (schema : TraceEventSchema) (payload : Payload d) (source : TraceSource) (tick : Option ℕ)
      (s u : Session) (events : List (DecodedTraceEvent Number))
      → Recorded d false s events
      → All IsUnit schema.name
      → AreNames (normalize_fields schema.fields)
      → AreTexts d payload
      → DistinctKeys (custom_fields d (schema_of schema s.dict).fields payload)
      → AreUnits source.name
      → emit_custom d schema payload source tick s ≡ (u, ok tt)
      → Recorded d false u (
          events
          ++ (custom_event events schema.name
                (schema_of schema s.dict)
                payload
                source
                (current_tick tick)
              ∷ []))
  unfolding emit_custom
  emit_custom-Recorded schema payload source tick s u events rec name_units names texts distinct
        units h =
      let running = rec.running in
      emit_custom_unsafe-Recorded schema payload source (current_tick tick) s u events rec
        name_units names texts distinct units (sym (else_branch _ _ s.ended running) ∙ h)
