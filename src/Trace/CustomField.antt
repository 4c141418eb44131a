-- ===== src/Trace/CustomField.antt =====
-- The fields of a custom event, written and read back.
use sapi_game.Base.{ℕ, ◌≡◌, refl, subst, Bool, true, false, Option, none, some, List, arith, All}
use sapi_game.Base.Int.{ℤ, pos, negsuc}
use sapi_game.Wire.Result.{Result, Error, ok, wrong_field, not_safe_uint, not_safe_int}
use sapi_game.Wire.Varint.{write_byte, write_var_uint, write_var_int}
use sapi_game.Wire.Utf8.{IsUnit}
use sapi_game.Wire.Raw.{Double, Value, null, bool, num, str}
use sapi_game.Wire.Raw.Canonical.{canonical}
use sapi_game.Wire.Raw.Steps.{canonical-some, read_float}
use sapi_game.Wire.Raw.Strings.{read_of_write_var_int}
use sapi_game.Wire.Reader.{Reader, Undoes, Undoes-pure, Undoes-bind, Undoes-last, Undoes-skip}
use sapi_game.Wire.Reader as Reader
use sapi_game.Wire.Container.{Text}
use sapi_game.Trace.Texts.{text_get}
use sapi_game.Trace.Act.{pure, throw, lift, >>=-returned, pure-returned}
use sapi_game.Trace.Dictionary.{Dictionary, ensure_string, ensure_player}
use sapi_game.Trace.Decoder.{DecodeTables}
use sapi_game.Trace.Sync.{KnownNames, StringsGrow, StringsGrow-Grows, Grows, Grows-refl}
use sapi_game.Trace.Strings.{undo_uint, ensure_string-StringsGrow, get_string_of}
use sapi_game.Trace.Defines.{ensure_player-Grows}
use sapi_game.Trace.Values.{null, bool, num, str}
use sapi_game.Wire.Container.RoundTrip.{undo_byte}
use sapi_game.Trace.Types.{
  TraceFieldType, field_type_code, boolean_field, uint_field, int_field, number_field, string_field,
  player_field,
}
use sapi_game.Trace.Values.{
  CustomValue, a_string, a_boolean, a_number, another, prepare_custom_field, write_custom_field,
}
use sapi_game.Trace.Decoder.{read_custom_field}
use sapi_game.Trace.Reads.{Reads, get_player_of}
use sapi_game.Trace.ValueBack.{Written, lifted, joined}
use sapi_game.Wire.Container.RoundTrip.{undo_byte}

module _ (d : Double) where
  open d use {Number, safe_int, of_int, to_bytes}

  -- A field as it comes back.
  abbrev pub custom_value : TraceFieldType → CustomValue d → Value Number
  custom_value boolean_field (a_boolean b) = bool b
  custom_value uint_field (a_number n finite) = num (canonical d n)
  custom_value int_field (a_number n finite) = num (canonical d n)
  custom_value number_field (a_number n finite) = num n
  custom_value string_field (a_string value) = str value
  custom_value player_field (a_string value) = str value
  custom_value type value = null

  -- A text of code units, or no text.
  abbrev pub IsText : CustomValue d → Type 0
  IsText (a_string value) = All IsUnit value
  IsText (a_boolean b) = Unit {0}
  IsText (a_number n finite) = Unit {0}
  IsText another = Unit {0}

  player_known :
      (s : Dictionary) (value : Text) (u : Dictionary) (ref : ℕ)
      → All IsUnit value
      → KnownNames s
      → ensure_player value none s ≡ (u, ok ref)
      → Grows d s u × (text_get value u.player_ids ≡ some ref)
  player_known s value u ref units known h =
      let (g, there, _) = ensure_player-Grows d value none s u ref units tt known h in (g, there)

  refused :
      {A : Type 0} (e : Error) (s u : Dictionary) (a : A) {P : Type 0} → throw e s ≡ (u, ok a) → P
  unfolding throw
  refused e s u a h = absurd cc

  unchanged : (s u : Dictionary) → pure tt s ≡ (u, ok (tt {0})) → Grows d s u
  unchanged s u h = subst (Grows d s) (pure-returned s u tt tt h).0 (Grows-refl d s)

  pub prepare_custom_field-Grows :
      (type : TraceFieldType) (value : CustomValue d) (s u : Dictionary)
      → IsText value
      → KnownNames s
      → prepare_custom_field d type value s ≡ (u, ok tt)
      → Grows d s u
  unfolding prepare_custom_field
  prepare_custom_field-Grows boolean_field (a_string x) s u text known h =
      refused wrong_field s u tt h
  prepare_custom_field-Grows boolean_field (a_boolean x) s u text known h = unchanged s u h
  prepare_custom_field-Grows boolean_field (a_number n finite) s u text known h =
      refused wrong_field s u tt h
  prepare_custom_field-Grows boolean_field another s u text known h = refused wrong_field s u tt h
  prepare_custom_field-Grows uint_field (a_string x) s u text known h = refused wrong_field s u tt h
  prepare_custom_field-Grows uint_field (a_boolean x) s u text known h =
      refused wrong_field s u tt h
  prepare_custom_field-Grows uint_field (a_number n finite) s u text known h =
      by_uint (safe_int n) refl
    where
      by_uint : (o : Option ℤ) → safe_int n ≡ o → Grows d s u
      by_uint none e = refused wrong_field s u tt (rw (e, prepare_custom_field) at h)
      by_uint (some (pos k)) e = unchanged s u (rw (e, prepare_custom_field) at h)
      by_uint (some (negsuc k)) e = refused wrong_field s u tt (rw (e, prepare_custom_field) at h)
  prepare_custom_field-Grows uint_field another s u text known h = refused wrong_field s u tt h
  prepare_custom_field-Grows int_field (a_string x) s u text known h = refused wrong_field s u tt h
  prepare_custom_field-Grows int_field (a_boolean x) s u text known h = refused wrong_field s u tt h
  prepare_custom_field-Grows int_field (a_number n finite) s u text known h =
      by_int (safe_int n) refl
    where
      by_int : (o : Option ℤ) → safe_int n ≡ o → Grows d s u
      by_int none e = refused wrong_field s u tt (rw (e, prepare_custom_field) at h)
      by_int (some z) e = unchanged s u (rw (e, prepare_custom_field) at h)
  prepare_custom_field-Grows int_field another s u text known h = refused wrong_field s u tt h
  prepare_custom_field-Grows number_field (a_string x) s u text known h =
      refused wrong_field s u tt h
  prepare_custom_field-Grows number_field (a_boolean x) s u text known h =
      refused wrong_field s u tt h
  prepare_custom_field-Grows number_field (a_number n finite) s u text known h =
      by_finite finite refl
    where
      by_finite : (b : Bool) → finite ≡ b → Grows d s u
      by_finite true e = unchanged s u (rw (e, prepare_custom_field) at h)
      by_finite false e = refused wrong_field s u tt (rw (e, prepare_custom_field) at h)
  prepare_custom_field-Grows number_field another s u text known h = refused wrong_field s u tt h
  prepare_custom_field-Grows string_field (a_string x) s u text known h =
      let (i, e, same) = joined {B = Unit {0}} (ensure_string x) (λ i. tt) s u tt h in
      StringsGrow-Grows d s u (ensure_string-StringsGrow d x s u i text e).0
  prepare_custom_field-Grows string_field (a_boolean x) s u text known h =
      refused wrong_field s u tt h
  prepare_custom_field-Grows string_field (a_number n finite) s u text known h =
      refused wrong_field s u tt h
  prepare_custom_field-Grows string_field another s u text known h = refused wrong_field s u tt h
  prepare_custom_field-Grows player_field (a_string x) s u text known h =
      let (i, e, same) = joined {B = Unit {0}} (ensure_player x none) (λ i. tt) s u tt h in
      (player_known s x u i text known e).0
  prepare_custom_field-Grows player_field (a_boolean x) s u text known h =
      refused wrong_field s u tt h
  prepare_custom_field-Grows player_field (a_number n finite) s u text known h =
      refused wrong_field s u tt h
  prepare_custom_field-Grows player_field another s u text known h = refused wrong_field s u tt h

  unfoldable pub FieldBack : TraceFieldType → CustomValue d → List ℕ → DecodeTables → ℕ → Type 0
  FieldBack type value bytes t fuel =
      Reads (read_custom_field d t (field_type_code type)) bytes (custom_value type value)

  -- A field that needs no number of the dictionary.
  plain-Written :
      (type : TraceFieldType) (value : CustomValue d) (r : Result (List ℕ)) (s u : Dictionary)
      (bytes : List ℕ)
      → lift r s ≡ (u, ok bytes)
      → (r ≡ ok bytes → (t : DecodeTables) → FieldBack type value bytes t 0)
      → Written d s u bytes 0 (FieldBack type value bytes)
  unfolding FieldBack
  plain-Written type value r s u bytes h reads =
      let (wrote, same) = lifted r s u bytes h in
      record {
        grows = subst (Grows d s) same (Grows-refl d s);
        short = omega arith;
        reads = λ t w fuel synced ext enough. reads wrote t;
      }

  pub write_custom_field-Written :
      (type : TraceFieldType) (value : CustomValue d) (s u : Dictionary) (bytes : List ℕ)
      → IsText value
      → KnownNames s
      → write_custom_field d type value s ≡ (u, ok bytes)
      → Written d s u bytes 0 (FieldBack type value bytes)
  unfolding write_custom_field FieldBack read_custom_field field_type_code Reader.◌>>=◌ Reader.pure
  write_custom_field-Written boolean_field (a_string x) s u bytes text known h =
      refused wrong_field s u bytes h
  write_custom_field-Written boolean_field (a_boolean x) s u bytes text known h = by_flag x refl
    where
      by_flag :
          (b : Bool) → x ≡ b → Written d s u bytes 0 (FieldBack boolean_field (a_boolean x) bytes)
      by_flag true e =
          plain-Written boolean_field (a_boolean x) (write_byte 1) s u bytes
            (rw (e, write_custom_field) at h)
            (λ wrote t rest. (rw (e, undo_byte 1 (omega arith) bytes rest wrote) refl))
      by_flag false e =
          plain-Written boolean_field (a_boolean x) (write_byte 0) s u bytes
            (rw (e, write_custom_field) at h)
            (λ wrote t rest. (rw (e, undo_byte 0 (omega arith) bytes rest wrote) refl))
  write_custom_field-Written boolean_field (a_number n finite) s u bytes text known h =
      refused wrong_field s u bytes h
  write_custom_field-Written boolean_field another s u bytes text known h =
      refused wrong_field s u bytes h
  write_custom_field-Written uint_field (a_string x) s u bytes text known h =
      refused wrong_field s u bytes h
  write_custom_field-Written uint_field (a_boolean x) s u bytes text known h =
      refused wrong_field s u bytes h
  write_custom_field-Written uint_field (a_number n finite) s u bytes text known h =
      by_uint (safe_int n) refl
    where
      by_uint :
          (o : Option ℤ)
          → safe_int n ≡ o
          → Written d s u bytes 0 (FieldBack uint_field (a_number n finite) bytes)
      by_uint none e = refused not_safe_uint s u bytes (rw (e, write_custom_field) at h)
      by_uint (some (negsuc k)) e =
          refused not_safe_uint s u bytes (rw (e, write_custom_field) at h)
      by_uint (some (pos k)) e =
          plain-Written uint_field (a_number n finite) (write_var_uint k) s u bytes
            (rw (e, write_custom_field) at h)
            (λ wrote t rest. (rw (undo_uint k bytes rest wrote, canonical-some d n (pos k) e) refl))
  write_custom_field-Written uint_field another s u bytes text known h =
      refused wrong_field s u bytes h
  write_custom_field-Written int_field (a_string x) s u bytes text known h =
      refused wrong_field s u bytes h
  write_custom_field-Written int_field (a_boolean x) s u bytes text known h =
      refused wrong_field s u bytes h
  write_custom_field-Written int_field (a_number n finite) s u bytes text known h =
      by_int (safe_int n) refl
    where
      by_int :
          (o : Option ℤ)
          → safe_int n ≡ o
          → Written d s u bytes 0 (FieldBack int_field (a_number n finite) bytes)
      by_int none e = refused not_safe_int s u bytes (rw (e, write_custom_field) at h)
      by_int (some z) e =
          plain-Written int_field (a_number n finite) (write_var_int z) s u bytes
            (rw (e, write_custom_field) at h)
            (λ wrote t rest.
              (rw
                (
                  read_of_write_var_int z bytes rest (d.safe_int_range n z e) wrote,
                  canonical-some d n z e,
                )
                refl))
  write_custom_field-Written int_field another s u bytes text known h =
      refused wrong_field s u bytes h
  write_custom_field-Written number_field (a_string x) s u bytes text known h =
      refused wrong_field s u bytes h
  write_custom_field-Written number_field (a_boolean x) s u bytes text known h =
      refused wrong_field s u bytes h
  write_custom_field-Written number_field (a_number n finite) s u bytes text known h =
      plain-Written number_field (a_number n finite) (ok (to_bytes n)) s u bytes h
        (λ wrote t rest. (let same : to_bytes n ≡ bytes = cc in rw (← same) (read_float d n rest)))
  write_custom_field-Written number_field another s u bytes text known h =
      refused wrong_field s u bytes h
  write_custom_field-Written string_field (a_string x) s u bytes text known h =
      let (w, ref, e, last) = >>=-returned (ensure_string x) _ s u bytes h in
      let (wrote, same) = lifted (write_var_uint ref) w u bytes last in
      let (g, there) =
        subst (λ z. StringsGrow d s z × (text_get x z.string_ids ≡ some ref)) same
          (ensure_string-StringsGrow d x s w ref text e) in
      record {
        grows = StringsGrow-Grows d s u g;
        short = omega arith;
        reads = λ t w fuel synced ext enough rest.
            rw
              (
                undo_uint ref bytes rest wrote,
                get_string_of d t w x ref synced.strings (ext.strings x ref there) rest,
              )
              refl;
      }
  write_custom_field-Written string_field (a_boolean x) s u bytes text known h =
      refused wrong_field s u bytes h
  write_custom_field-Written string_field (a_number n finite) s u bytes text known h =
      refused wrong_field s u bytes h
  write_custom_field-Written string_field another s u bytes text known h =
      refused wrong_field s u bytes h
  write_custom_field-Written player_field (a_string x) s u bytes text known h =
      let (w, ref, e, last) = >>=-returned (ensure_player x none) _ s u bytes h in
      let (wrote, same) = lifted (write_var_uint ref) w u bytes last in
      let (g, there) =
        subst (λ z. Grows d s z × (text_get x z.player_ids ≡ some ref)) same
          (player_known s x w ref text known e) in
      record {
        grows = g;
        short = omega arith;
        reads = λ t w fuel synced ext enough rest.
            (let (p, found, same_id) = get_player_of t w x ref synced (ext.players x ref there) in
              rw (undo_uint ref bytes rest wrote, found rest, same_id) refl);
      }
  write_custom_field-Written player_field (a_boolean x) s u bytes text known h =
      refused wrong_field s u bytes h
  write_custom_field-Written player_field (a_number n finite) s u bytes text known h =
      refused wrong_field s u bytes h
  write_custom_field-Written player_field another s u bytes text known h =
      refused wrong_field s u bytes h
