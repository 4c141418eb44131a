-- ===== src/Trace/Strings.antt =====
-- The definitions of strings, and what the decoder makes of them.
use sapi_game.Base.{
  ℕ, suc, bit_and, ◌≡◌, refl, sym, subst, inl, inr, Option, none, some, List, arith, Option-cases,
  All,
}
use sapi_game.Base.Maps.{map_set, map_get-map_set}
use sapi_game.Wire.Result.{Result, ok, err, ◌then_write◌}
use sapi_game.Wire.Varint.{write_byte, write_var_uint, read_var_uint}
use sapi_game.Wire.Utf8.{IsUnit}
use sapi_game.Wire.Raw.{Double, write_string, read_string}
use sapi_game.Wire.Raw.Strings.{tagged}
use sapi_game.Wire.Reader.{Reader, Undoes, Undoes-pure, Undoes-bind, Undoes-last, Undoes-skip}
use sapi_game.Wire.Reader as Reader
use sapi_game.Wire.Container.{Text}
pub use sapi_game.Wire.Container.RoundTrip.{undo_uint, undo_string}
use sapi_game.Trace.Texts.{text_get, text_get-text_set, str_eq→eq, str_eq_refl}
use sapi_game.Trace.Act.{◌>>=◌, pure, lift, modify, gets, >>=-returned}
use sapi_game.Trace.Dictionary.{
  Dictionary, put, new_string, define_string, ensure_string, ensure_optional,
}
use sapi_game.Trace.Decoder.{
  DecodeTables, DecodeState, with_tables, get_string, get_optional, read_string_definition,
  read_record,
}
use sapi_game.Trace.Sync.{
  AreUnits, SyncedStrings, with_strings, StringsGrow, StringsGrow-refl, Runs, Runs-record,
}

-- The end of every definition: bytes are made, put into the payload, and a result returned.
pub write_out-returned :
    {A : Type 0} (r : Result (List ℕ)) (change : List ℕ → List ℕ) (a b : A) (s u : Dictionary)
    → (lift r >>= λ bytes. (modify (put (change bytes)) >>= λ _. pure a)) s ≡ (u, ok b)
    → (bytes : List ℕ) × (r ≡ ok bytes) × (u ≡ put (change bytes) s) × (b ≡ a)
unfolding ◌>>=◌ lift modify pure
write_out-returned (ok bytes) change a b s u h = (bytes, refl, cc, cc)
write_out-returned (err e) change a b s u h = cc

-- What a definition of a string comes to.
define_string-returned :
    (value : Text) (s u : Dictionary) (i : ℕ)
    → define_string value s ≡ (u, ok i)
    → (bytes : List ℕ) × ((write_byte 1
          then_write write_var_uint s.next_string_id
          then_write write_string value)
        ≡ ok bytes)
      × (u ≡ put bytes (new_string value s))
      × (i ≡ s.next_string_id)
unfolding define_string ◌>>=◌ gets modify
define_string-returned value s u i h =
    write_out-returned
      (write_byte 1 then_write write_var_uint s.next_string_id then_write write_string value)
      (λ bytes. bytes) s.next_string_id i (new_string value s) u h

module _ (d : Double) where
  undo_string_definition :
      (st : DecodeState d) (i : ℕ) (value : Text)
      → All IsUnit value
      → Undoes
          (read_string_definition d st)
          (write_var_uint i then_write write_string value)
          (with_tables d st (record st.tables { strings = map_set i value st.tables.strings }))
  unfolding read_string_definition
  undo_string_definition st i value units =
      Undoes-bind read_var_uint _ (write_var_uint i) _ i _ (undo_uint i)
        (Undoes-last read_string _ (write_string value) value (undo_string value units))

  -- A record, from the reading that its tag stands for.
  pub Runs-tagged :
      (first : ℕ) (st end : DecodeState d) (tag : ℕ) (p : Result (List ℕ)) (bytes : List ℕ)
      → bit_and tag 0xff ≡ tag
      → Undoes (read_record d first st tag) p end
      → (write_byte tag then_write p) ≡ ok bytes
      → Runs d first st bytes end
  Runs-tagged first st end tag p bytes small u h =
      let (body, wrote, same) = tagged tag p bytes small h in
      rw same (Runs-record d first st end tag body (λ rest. u body rest wrote))

  new_string-StringsGrow :
      (value : Text) (s : Dictionary) (bytes : List ℕ)
      → All IsUnit value
      → text_get value s.string_ids ≡ none
      → (write_byte 1 then_write write_var_uint s.next_string_id then_write write_string value)
        ≡ ok bytes
      → StringsGrow d s (put bytes (new_string value s))
  unfolding read_record
  new_string-StringsGrow value s bytes units new wrote = record {
    bytes = bytes;
    written = refl;
    extends = λ v i h.
        ground (
          arith,
          h,
          new,
          text_get-text_set v value s.next_string_id s.string_ids,
          str_eq→eq v value,
        );
    same_players = refl;
    same_names = refl;
    same_next_player = refl;
    same_schemas = refl;
    same_next_type = refl;
    decodes = λ first st g.
        (let strings = map_set s.next_string_id value st.tables.strings in
          (
            strings,
            Runs-tagged first st (with_strings d st strings) 1
                (write_var_uint s.next_string_id then_write write_string value) bytes refl
                (undo_string_definition st s.next_string_id value units) wrote,
            λ v i h. ground (
              arith,
              h,
              g v i,
              text_get-text_set v value s.next_string_id s.string_ids,
              map_get-map_set i s.next_string_id value st.tables.strings,
              str_eq→eq v value,
            ),
          ));
  }

  -- A string that the session numbers: the number is in the dictionary, and the definition, if one
  -- was written, decodes.
  pub ensure_string-StringsGrow :
      (value : Text) (s u : Dictionary) (i : ℕ)
      → All IsUnit value
      → ensure_string value s ≡ (u, ok i)
      → StringsGrow d s u × (text_get value u.string_ids ≡ some i)
  unfolding ensure_string pure
  ensure_string-StringsGrow value s u i units h =
      elim (Option-cases (text_get value s.string_ids)) [
        | inr (existing, found) ↦
            let h' : pure existing s ≡ (u, ok i) = rw (found, ensure_string) at h in
            let same : s ≡ u = cc in
            let number : existing ≡ i = cc in
            subst (λ w. StringsGrow d s w × (text_get value w.string_ids ≡ some i)) same
              (StringsGrow-refl d s, rw (← number) found)
        | inl new ↦
            let h' : define_string value s ≡ (u, ok i) = rw (new, ensure_string) at h in
            let (bytes, wrote, same, number) = define_string-returned value s u i h' in
            rw (same, number)
              (
                new_string-StringsGrow value s bytes units new wrote,
                rw text_get-text_set (rw str_eq_refl refl),
              )
      ]

  -- The number of an optional string, one more than its own, is 0 where there is none.
  abbrev pub Numbered : Option Text → ℕ → Dictionary → Type 0
  Numbered none n u = n ≡ 0
  Numbered (some value) n u = (k : ℕ) × (n ≡ suc k) × (text_get value u.string_ids ≡ some k)

  pub ensure_optional-StringsGrow :
      (o : Option Text) (s u : Dictionary) (n : ℕ)
      → AreUnits o
      → ensure_optional o s ≡ (u, ok n)
      → StringsGrow d s u × Numbered o n u
  unfolding ensure_optional pure
  ensure_optional-StringsGrow none s u n units h =
      let same : s ≡ u = cc in
      let zero_there : n ≡ 0 = cc in
      subst (λ w. StringsGrow d s w × (n ≡ 0)) same (StringsGrow-refl d s, zero_there)
  ensure_optional-StringsGrow (some value) s u n units h =
      let (w, k, found, last) = >>=-returned (ensure_string value) (λ id. pure (suc id)) s u n h in
      let same : w ≡ u = cc in
      let number : suc k ≡ n = cc in
      let (grows, there) = ensure_string-StringsGrow value s w k units found in
      subst (λ x. StringsGrow d s x × Numbered (some value) n x) same
        (grows, (k, sym number, there))

  pub Numbered-StringsGrow :
      (o : Option Text) (n : ℕ) (s u : Dictionary)
      → StringsGrow d s u
      → Numbered o n s
      → Numbered o n u
  Numbered-StringsGrow none n s u g h = h
  Numbered-StringsGrow (some value) n s u g (k, e, there) = (k, e, g.extends value k there)

  -- What the decoder finds under a number.
  pub get_string_of :
      (t : DecodeTables) (s : Dictionary) (value : Text) (i : ℕ)
      → SyncedStrings t s
      → text_get value s.string_ids ≡ some i
      → (reader : List ℕ) → get_string t i reader ≡ ok (value, reader)
  unfolding get_string Reader.pure
  get_string_of t s value i g there reader = rw ((g value i there).1) refl

  pub get_optional_of :
      (t : DecodeTables) (s : Dictionary) (o : Option Text) (n : ℕ)
      → SyncedStrings t s
      → Numbered o n s
      → (reader : List ℕ) → get_optional t n reader ≡ ok (o, reader)
  unfolding get_optional Reader.pure Reader.◌>>=◌
  get_optional_of t s none n g h reader = rw h refl
  get_optional_of t s (some value) n g (k, e, there) reader =
      rw (e, get_string_of t s value k g there) refl
