-- ===== src/Trace/CustomBack.antt =====
-- The payload of a custom event, written and read back: the bits of its optional fields and the fields
-- that are given.
use sapi_game.Base.{
  ℕ, zero, suc, ◌+◌, ◌/◌, ◌≡◌, refl, sym, ap, ◌∙◌, subst, inl, inr, Bool, true, false, not, ◌&&◌,
  none, some, List, [], ◌∷◌, ◌++◌, append_assoc, arith, if◌then◌else◌, Bool-cases, Option-cases,
  length, replicate,
}
use sapi_game.Base.Maps.{map_get}
use sapi_game.Wire.Result.{ok, missing_field, wrong_field}
use sapi_game.Wire.Varint.{write_var_uint}
use sapi_game.Wire.Raw.{Double, Value, Fields, obj, end, field, set_field}
use sapi_game.Wire.Raw.Keys.{
  AllNew-end, is_taken, append_fields_assoc, append_fields, AllNew, DistinctKeys, set_field_new,
  append_fields-end, AllNew-append,
}
use sapi_game.Wire.Reader.{Reader, Undoes, Undoes-pure, Undoes-bind, Undoes-last, Undoes-skip}
use sapi_game.Wire.Reader as Reader
use sapi_game.Wire.Container.{Text}
use sapi_game.Trace.Texts.{text_get}
use sapi_game.Trace.Act.{◌>>=◌, pure, throw, >>=-returned, lift-returned, pure-returned}
use sapi_game.Trace.Dictionary.{Dictionary, FieldRecord, CustomSchemaRecord}
use sapi_game.Trace.Decoder.{SchemaField, DecodeTables}
use sapi_game.Trace.Sync.{
  KnownNames, Extends-refl, Extends-trans, Grows, Grows-refl, Grows-trans, decoded_schema,
}
use sapi_game.Trace.Strings.{undo_uint}
use sapi_game.Trace.Decoder.{read_payload, event_name}
use sapi_game.Wire.Container.RoundTrip.{undo_bytes}
use sapi_game.Trace.Types.{field_type_code}
use sapi_game.Trace.Values.{CustomValue, prepare_custom_field, write_custom_field}
use sapi_game.Trace.Decoder.{bit_set, read_custom_field, read_custom_fields, read_custom_payload}
use sapi_game.Trace.Session.{
  set_bit, Payload, prepare_custom_fields, count_optional, fill_bits, bitset_of,
  write_custom_fields, write_custom_payload,
}
use sapi_game.Trace.Sync.{decoded_field, decoded_fields}
use sapi_game.Trace.Reads.{Reads}
use sapi_game.Trace.ValueBack.{Written, joined}
use sapi_game.Trace.Emits.{else_branch, PayloadBack}
use sapi_game.Trace.Types.{custom}
use sapi_game.Trace.BitSets.{bit_set-none, set_bit-same}
use sapi_game.Wire.Container.RoundTrip.{undo_bytes}
use sapi_game.Trace.CustomField.{
  custom_value, IsText, FieldBack, prepare_custom_field-Grows, write_custom_field-Written,
}
use sapi_game.Trace.CustomBits.{
  then_branch, fill_given, fill_absent, fill_required, fill_bits-before, HasRoom, given-HasRoom,
  required-HasRoom,
}

module _ (d : Double) where
  open d use {Number}

  -- The texts of a payload are strings of code units.
  abbrev pub AreTexts : Payload d → Type 0
  AreTexts values =
      (name : Text) (value : CustomValue d) → text_get name values ≡ some value → IsText d value

  -- The fields that come back: those of the schema that are given.
  abbrev pub custom_fields : List FieldRecord → Payload d → Fields Number
  custom_fields [] values = end
  custom_fields (f ∷ fields) values =
      let rest = custom_fields fields values in
      elim (text_get f.name values) [
        | none ↦ rest
        | some value ↦ field f.name (custom_value d f.type value) rest
      ]

  pub prepare_custom_fields-Grows :
      (fields : List FieldRecord) (values : Payload d) (s u : Dictionary)
      → AreTexts values
      → KnownNames s
      → prepare_custom_fields d fields values s ≡ (u, ok tt)
      → Grows d s u
  unfolding prepare_custom_fields pure throw
  prepare_custom_fields-Grows [] values s u texts known h =
      subst (Grows d s) (pure-returned s u tt tt h).0 (Grows-refl d s)
  prepare_custom_fields-Grows (f ∷ fields) values s u texts known h =
      elim (Option-cases (text_get f.name values)) [
        | inr (value, found) ↦
            let h' : (prepare_custom_field d f.type value >>= λ x.
            prepare_custom_fields d fields values)
                  s
                ≡ (u, ok tt) =
              rw (found, prepare_custom_fields) at h in
            let (w, x, e, last) = >>=-returned (prepare_custom_field d f.type value) _ s u tt h' in
            let g =
              prepare_custom_field-Grows d f.type value s w (texts f.name value found) known e in
            Grows-trans d s w u g
              (prepare_custom_fields-Grows fields values w u texts (g.names known) last)
        | inl absent ↦ elim (Bool-cases f.optional) [
          | inl optional ↦
              prepare_custom_fields-Grows fields values s u texts known
                (rw (absent, optional, prepare_custom_fields) at h)
          | inr required ↦
              let h' : throw {A = Unit {0}} missing_field s ≡ (u, ok tt) =
                rw (absent, required, prepare_custom_fields) at h in
              absurd cc
        ]
      ]

  -- One field, by the bit that it has.
  read_given :
      (t : DecodeTables) (f : SchemaField) (fields : List SchemaField) (bits : List ℕ) (i : ℕ)
      (result out : Fields Number) (front more : List ℕ) (v : Value Number)
      → (f.optional && not (bit_set bits i)) ≡ false
      → Reads (read_custom_field d t f.type) front v
      → Reads
          (read_custom_fields d t bits fields
            (if f.optional then suc i else i)
            (set_field f.name v result))
          more
          out
      → Reads (read_custom_fields d t bits (f ∷ fields) i result) (front ++ more) out
  unfolding read_custom_fields Reader.◌>>=◌
  read_given t f fields bits i result out front more v here reads others rest =
      rw (here, append_assoc, reads (more ++ rest)) (others rest)

  read_absent :
      (t : DecodeTables) (f : SchemaField) (fields : List SchemaField) (bits : List ℕ) (i : ℕ)
      (result out : Fields Number) (more : List ℕ)
      → (f.optional && not (bit_set bits i)) ≡ true
      → Reads (read_custom_fields d t bits fields (if f.optional then suc i else i) result) more out
      → Reads (read_custom_fields d t bits (f ∷ fields) i result) more out
  unfolding read_custom_fields
  read_absent t f fields bits i result out more here others rest = rw here (others rest)

  unfoldable pub FieldsBack : List FieldRecord → Payload d → List ℕ → DecodeTables → ℕ → Type 0
  FieldsBack fields values bytes t fuel =
      (i : ℕ) (bs : List ℕ) (result : Fields Number)
      → HasRoom d fields i bs
      → AllNew result (custom_fields fields values)
      → DistinctKeys (custom_fields fields values)
      → Reads
          (read_custom_fields d t (fill_bits d fields values i bs) (decoded_fields fields) i result)
          bytes (append_fields result (custom_fields fields values))

  one_given :
      (t : DecodeTables) (f : FieldRecord) (fields : List FieldRecord) (bits : List ℕ) (i next : ℕ)
      (result rest : Fields Number) (front more : List ℕ) (v : Value Number)
      → is_taken f.name result ≡ false
      → (f.optional && not (bit_set bits i)) ≡ false
      → (if f.optional then suc i else i) ≡ next
      → Reads (read_custom_field d t (field_type_code f.type)) front v
      → Reads
          (read_custom_fields d t bits
            (decoded_fields fields)
            next
            (append_fields result (field f.name v end)))
          more
          (append_fields (append_fields result (field f.name v end)) rest)
      → Reads
          (read_custom_fields d t bits (decoded_fields (f ∷ fields)) i result)
          (front ++ more)
          (append_fields result (field f.name v rest))
  one_given t f fields bits i next result rest front more v new here index reads others =
      let set = sym (set_field_new f.name v result new) in
      let others' =
        subst
          (λ n.
            Reads
              (read_custom_fields d t bits (decoded_fields fields) n (set_field f.name v result))
              more (append_fields (append_fields result (field f.name v end)) rest))
          (sym index)
          (subst
            (λ z.
              Reads (read_custom_fields d t bits (decoded_fields fields) next z) more
                (append_fields (append_fields result (field f.name v end)) rest))
            set others) in
      subst
        (λ z.
          Reads (read_custom_fields d t bits (decoded_fields (f ∷ fields)) i result) (front ++ more)
            z)
        (append_fields_assoc result (field f.name v end) rest)
        (read_given t (decoded_field f) (decoded_fields fields) bits i result _ front more v here
          reads others')

  -- A field that is given, in front of what the others are read as.
  given-FieldsBack :
      (t : DecodeTables) (f : FieldRecord) (fields : List FieldRecord) (values : Payload d)
      (value : CustomValue d) (front more : List ℕ) (fuel : ℕ)
      → text_get f.name values ≡ some value
      → Reads (read_custom_field d t (field_type_code f.type)) front (custom_value d f.type value)
      → FieldsBack fields values more t fuel
      → FieldsBack (f ∷ fields) values (front ++ more) t fuel
  unfolding FieldsBack
  given-FieldsBack t f fields values value front more fuel found reads others i bs result room new
        distinct =
      let v = custom_value d f.type value in
      let rest = custom_fields fields values in
      let shape : custom_fields (f ∷ fields) values ≡ field f.name v rest =
        rw (found, custom_fields) refl in
      let (new_key, news) = subst (AllNew result) shape new in
      let (fresh, distincts) = subst DistinctKeys shape distinct in
      let result' = append_fields result (field f.name v end) in
      let news' = AllNew-append f.name v result rest fresh news in
      subst
        (λ z.
          Reads
            (read_custom_fields d t (fill_bits d (f ∷ fields) values i bs)
              (decoded_fields (f ∷ fields)) i result)
            (front ++ more) (append_fields result z))
        (sym shape)
        (elim (Bool-cases f.optional) [
          | inl optional ↦
              let (room', room'', inside) = given-HasRoom d f fields i bs optional room in
              let here : bit_set (fill_bits d fields values (suc i) (set_bit i bs)) i ≡ true =
                fill_bits-before d fields values (suc i) i (set_bit i bs) (omega arith)
                ∙ set_bit-same i bs inside in
              subst
                (λ z.
                  Reads (read_custom_fields d t z (decoded_fields (f ∷ fields)) i result)
                    (front ++ more) (append_fields result (field f.name v rest)))
                (sym (fill_given d f fields values value i bs found optional))
                (one_given t f fields (fill_bits d fields values (suc i) (set_bit i bs)) i (suc i)
                  result rest front more v new_key
                  (ap (λ b. f.optional && not b) here ∙ and_false f.optional)
                  (then_branch (suc i) i f.optional optional) reads
                  (others (suc i) (set_bit i bs) result' room' news' distincts))
          | inr required ↦
              subst
                (λ z.
                  Reads (read_custom_fields d t z (decoded_fields (f ∷ fields)) i result)
                    (front ++ more) (append_fields result (field f.name v rest)))
                (sym (fill_required d f fields values i bs required))
                (one_given t f fields (fill_bits d fields values i bs) i i result rest front more v
                  new_key (ap (λ b. b && not (bit_set (fill_bits d fields values i bs) i)) required)
                  (else_branch (suc i) i f.optional required) reads
                  (others i bs result' (required-HasRoom d f fields i bs required room) news'
                    distincts))
        ])
    where
      and_false : (b : Bool) → (b && false) ≡ false
      and_false true = refl
      and_false false = refl

  absent-FieldsBack :
      (t : DecodeTables) (f : FieldRecord) (fields : List FieldRecord) (values : Payload d)
      (more : List ℕ) (fuel : ℕ)
      → text_get f.name values ≡ none
      → f.optional ≡ true
      → FieldsBack fields values more t fuel
      → FieldsBack (f ∷ fields) values more t fuel
  unfolding FieldsBack
  absent-FieldsBack t f fields values more fuel absent optional others i bs result room new
        distinct =
      let rest = custom_fields fields values in
      let shape : custom_fields (f ∷ fields) values ≡ rest = rw (absent, custom_fields) refl in
      let (room', room'', inside) = given-HasRoom d f fields i bs optional room in
      let clear : bit_set (fill_bits d fields values (suc i) bs) i ≡ false =
        fill_bits-before d fields values (suc i) i bs (omega arith) ∙ room.0 i (omega arith) in
      subst
        (λ z.
          Reads (read_custom_fields d t z (decoded_fields (f ∷ fields)) i result) more
            (append_fields result (custom_fields (f ∷ fields) values)))
        (sym (fill_absent d f fields values i bs absent optional))
        (subst
          (λ z.
            Reads
              (read_custom_fields d t (fill_bits d fields values (suc i) bs)
                (decoded_fields (f ∷ fields)) i result)
              more (append_fields result z))
          (sym shape)
          (read_absent t (decoded_field f) (decoded_fields fields)
            (fill_bits d fields values (suc i) bs) i result _ more
            (ap (λ b. f.optional && not b) clear ∙ ap (λ b. b && true) optional)
            (subst
              (λ n.
                Reads
                  (read_custom_fields d t (fill_bits d fields values (suc i) bs)
                    (decoded_fields fields) n result)
                  more (append_fields result rest))
              (sym (then_branch (suc i) i f.optional optional))
              (others (suc i) bs result room'' (subst (AllNew result) shape new)
                (subst DistinctKeys shape distinct)))))

  write_custom_fields-Written :
      (fields : List FieldRecord) (values : Payload d) (s u : Dictionary) (bytes : List ℕ)
      → AreTexts values
      → KnownNames s
      → write_custom_fields d fields values s ≡ (u, ok bytes)
      → Written d s u bytes 0 (FieldsBack fields values bytes)
  unfolding write_custom_fields FieldsBack FieldBack read_custom_fields pure throw Reader.pure
  write_custom_fields-Written [] values s u bytes texts known h =
      let (same, empty) = pure-returned s u [] bytes h in
      record {
        grows = subst (Grows d s) same (Grows-refl d s);
        short = omega arith;
        reads = λ t w fuel synced ext enough i bs result room new distinct rest.
            rw (← empty, append_fields-end) refl;
      }
  write_custom_fields-Written (f ∷ fields) values s u bytes texts known h =
      elim (Option-cases (text_get f.name values)) [
        | inr (value, found) ↦
            let h' : (write_custom_field d f.type value >>= λ head.
            (write_custom_fields d fields values >>= λ tail. pure (head ++ tail)))
                  s
                ≡ (u, ok bytes) =
              rw (found, write_custom_fields) at h in
            let (v, front, e, h₁) =
              >>=-returned (write_custom_field d f.type value) _ s u bytes h' in
            let (more, e', same) =
              joined (write_custom_fields d fields values) (λ tail. front ++ tail) v u bytes h₁ in
            let a =
              write_custom_field-Written d f.type value s v front (texts f.name value found) known
                e in
            let b =
              write_custom_fields-Written fields values v u more texts (a.grows.names known) e' in
            subst (λ z. Written d s u z 0 (FieldsBack (f ∷ fields) values z)) same
              (record {
                grows = Grows-trans d s v u a.grows b.grows;
                short = omega arith;
                reads = λ t w fuel synced ext enough.
                    given-FieldsBack t f fields values value front more fuel found
                      (a.reads t w fuel synced (Extends-trans v u w b.grows.extends ext)
                        (omega arith))
                      (b.reads t w fuel synced ext (omega arith));
              })
        | inl absent ↦ elim (Bool-cases f.optional) [
          | inl optional ↦
              let b =
                write_custom_fields-Written fields values s u bytes texts known
                  (rw (absent, optional, write_custom_fields) at h) in
              record {
                grows = b.grows;
                short = omega arith;
                reads = λ t w fuel synced ext enough.
                    absent-FieldsBack t f fields values bytes fuel absent optional
                      (b.reads t w fuel synced ext (omega arith));
              }
          | inr required ↦
              let h' : throw {A = List ℕ} wrong_field s ≡ (u, ok bytes) =
                rw (absent, required, write_custom_fields) at h in
              absurd cc
        ]
      ]

  length-replicate : (n : ℕ) → length {A = ℕ} (replicate n 0) ≡ n
  length-replicate zero = refl
  length-replicate (suc n) = omega (arith, length-replicate n)

  read_payload_parts :
      (t : DecodeTables) (r : CustomSchemaRecord) (values : Payload d) (head tail : List ℕ)
      → map_get r.type_id t.schemas ≡ some (decoded_schema r)
      → write_var_uint (length (bitset_of d r.fields values)) ≡ ok head
      → Reads
          (read_custom_fields d t (bitset_of d r.fields values) (decoded_fields r.fields) 0 end)
          tail
          (custom_fields r.fields values)
      → Reads
          (read_payload d t r.type_id)
          (head ++ (bitset_of d r.fields values ++ tail))
          (obj (custom_fields r.fields values))
  unfolding read_payload read_custom_payload Reader.◌>>=◌ Reader.pure
  read_payload_parts t r values head tail found wrote reads rest =
      let bits = bitset_of d r.fields values in
      rw
        (
          found,
          read_payload,
          append_assoc head (bits ++ tail) rest,
          append_assoc bits tail rest,
          undo_uint (length bits) head (bits ++ (tail ++ rest)) wrote,
          undo_bytes bits bits (tail ++ rest) refl,
          reads rest,
        )
        refl

  custom_name :
      (t : DecodeTables) (r : CustomSchemaRecord) (name : Text)
      → map_get r.type_id t.schemas ≡ some (decoded_schema r)
      → r.name ≡ name
      → event_name d t r.type_id ≡ custom name
  unfolding event_name
  custom_name t r name found same = rw (found, event_name, same) refl

  -- The payload of a custom event, of a schema that the dictionary has under the name, with texts of
  -- code units and fields of distinct names: where write_custom_payload returns bytes, any decoder
  -- whose tables are in step reads them as an object of just the fields that are given, an optional
  -- one left out by its bit, and finds the name of the schema; and the dictionary grew in step.
  pub custom-PayloadBack :
      (base : Dictionary) (name : Text) (r : CustomSchemaRecord) (values : Payload d)
      → text_get name base.schema_ids ≡ some r
      → AreTexts values
      → DistinctKeys (custom_fields r.fields values)
      → PayloadBack d base r.type_id
          (write_custom_payload d r.fields values)
          (obj (custom_fields r.fields values))
          (custom name)
  unfolding write_custom_payload bitset_of FieldsBack
  custom-PayloadBack base name r values there texts distinct = record {
    back = λ s u bytes ext known h.
        (let bits = bitset_of d r.fields values in
          let (head, wrote, h₁) = lift-returned (write_var_uint (length bits)) _ s u bytes h in
          let (tail, e, same) =
            joined (write_custom_fields d r.fields values) (λ tail. head ++ (bits ++ tail)) s u
              bytes h₁ in
          let w = write_custom_fields-Written r.fields values s u tail texts known e in
          let there' = (Extends-trans base s u ext w.grows.extends).schemas name r there in
          let n = (count_optional d r.fields + 7) / 8 in
          let room : HasRoom d r.fields 0 (replicate n 0) =
            ((λ j after. bit_set-none n j), omega (arith, length-replicate n)) in
          (
            w.grows,
            λ t synced.
                (let found = synced.schemas name r there' in
                  (
                    subst
                        (λ z.
                          Reads (read_payload d t r.type_id) z
                            (obj (custom_fields r.fields values)))
                        same
                        (read_payload_parts t r values head tail found wrote (
                          w.reads t u 0 synced (Extends-refl u) (omega arith) 0 (replicate n 0) end
                            room (AllNew-end (custom_fields r.fields values) distinct) distinct)),
                    custom_name t r name found (synced.schema_names name r there'),
                  )),
          ));
  }
