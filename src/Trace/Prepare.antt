-- ===== src/Trace/Prepare.antt =====
-- What a session numbers before it writes an event, and the source of an event.
use sapi_game.Base.{ℕ, ◌<◌, ◌≡◌, refl, sym, ap, ◌∙◌, subst, Option, none, some, List, ◌++◌, arith}
use sapi_game.Wire.Result.{ok, ◌then_write◌, then_write_assoc}
use sapi_game.Wire.Varint.{write_byte, write_var_uint, read_var_uint, read_byte}
use sapi_game.Wire.Raw.{Double, null, bool, num, str, arr, obj, nil, cons, end, field}
use sapi_game.Wire.Reader.{
  Reader, Undoes, Undoes-pure, Undoes-bind, Undoes-last, Undoes-skip, Undoes-then_skip,
}
use sapi_game.Wire.Reader as Reader
use sapi_game.Wire.Container.{Text}
use sapi_game.Trace.Types.{
  TraceSource, TraceSourceKind, source_kind_code, source_kind, game, state, component, runner,
  timer, participation, connection, system,
}
use sapi_game.Trace.Act.{Act, ◌>>=◌, pure, lift, >>=-returned, lift-returned}
use sapi_game.Trace.Dictionary.{Dictionary, ensure_string, ensure_optional, ensure_player}
use sapi_game.Trace.Decoder.{DecodeTables, minus_one, read_source}
use sapi_game.Trace.Sync.{
  AreUnits, KnownNames, SyncedStrings, StringsGrow, StringsGrow-Grows, Extends, Grows, Grows-refl,
  Grows-trans,
}
use sapi_game.Trace.Strings.{
  undo_uint, ensure_string-StringsGrow, Numbered, ensure_optional-StringsGrow, get_optional_of,
}
use sapi_game.Trace.Defines.{ensure_player-Grows}
use sapi_game.Trace.Values.{
  Input, InputItems, InputFields, null, bool, num, str, player, arr, obj, nil, cons, end, field,
  prepare_source, plus_one, write_source, prepare_value, prepare_items, prepare_fields,
}
use sapi_game.Wire.Container.RoundTrip.{undo_byte}
use sapi_game.Trace.Reads.{Reads}
use sapi_game.Trace.ValueBack.{IsGiven, AreGiven, AreGivenFields, Written, lifted, joined}

module _ (d : Double) where
  open d use {Number}

  -- An operation whose result is dropped.
  dropped :
      {A : Type 0} (op : Act Dictionary A) (s u : Dictionary)
      → (op >>= λ a. pure {A = Unit {0}} tt) s ≡ (u, ok tt)
      → (a : A) × (op s ≡ (u, ok a))
  dropped op s u h = let (a, e, same) = joined {B = Unit {0}} op (λ a. tt) s u tt h in (a, e)

  mutual
    unfolding prepare_value pure

    pub prepare_value-Grows :
        (v : Input Number) (s u : Dictionary)
        → IsGiven v
        → KnownNames s
        → prepare_value d v s ≡ (u, ok tt)
        → Grows d s u
    prepare_value-Grows null s u given known h =
        let same : s ≡ u = cc in subst (Grows d s) same (Grows-refl d s)
    prepare_value-Grows (bool b) s u given known h =
        let same : s ≡ u = cc in subst (Grows d s) same (Grows-refl d s)
    prepare_value-Grows (num n) s u given known h =
        let same : s ≡ u = cc in subst (Grows d s) same (Grows-refl d s)
    prepare_value-Grows (str value) s u given known h =
        let (i, e) = dropped (ensure_string value) s u h in
        StringsGrow-Grows d s u (ensure_string-StringsGrow d value s u i given e).0
    prepare_value-Grows (player id name) s u given known h =
        let (i, e) = dropped (ensure_player id name) s u h in
        (ensure_player-Grows d id name s u i given.0 given.1 known e).0
    prepare_value-Grows (arr items) s u given known h = prepare_items-Grows items s u given known h
    prepare_value-Grows (obj entries) s u given known h =
        prepare_fields-Grows entries s u given.1 known h

    prepare_items-Grows :
        (items : InputItems Number) (s u : Dictionary)
        → AreGiven items
        → KnownNames s
        → prepare_items d items s ≡ (u, ok tt)
        → Grows d s u
    prepare_items-Grows nil s u given known h =
        let same : s ≡ u = cc in subst (Grows d s) same (Grows-refl d s)
    prepare_items-Grows (cons entry items) s u given known h =
        let (w, x, e, h') = >>=-returned (prepare_value d entry) _ s u tt h in
        let a = prepare_value-Grows entry s w given.0 known e in
        Grows-trans d s w u a (prepare_items-Grows items w u given.1 (a.names known) h')

    prepare_fields-Grows :
        (entries : InputFields Number) (s u : Dictionary)
        → AreGivenFields entries
        → KnownNames s
        → prepare_fields d entries s ≡ (u, ok tt)
        → Grows d s u
    prepare_fields-Grows end s u given known h =
        let same : s ≡ u = cc in subst (Grows d s) same (Grows-refl d s)
    prepare_fields-Grows (field key entry entries) s u given known h =
        let (v, i, found, h₁) = >>=-returned (ensure_string key) _ s u tt h in
        let (w, x, e, h₂) = >>=-returned (prepare_value d entry) _ v u tt h₁ in
        let g = StringsGrow-Grows d s v (ensure_string-StringsGrow d key s v i given.0 found).0 in
        let a = prepare_value-Grows entry v w given.1 (g.names known) e in
        Grows-trans d s v u g (
          Grows-trans d v w u a
            (prepare_fields-Grows entries w u given.2 (a.names (g.names known)) h₂))

  pub prepare_source-Grows :
      (source : TraceSource) (s u : Dictionary)
      → AreUnits source.name
      → prepare_source source s ≡ (u, ok tt)
      → Grows d s u
  unfolding prepare_source
  prepare_source-Grows source s u units h =
      let (n, e) = dropped (ensure_optional source.name) s u h in
      StringsGrow-Grows d s u (ensure_optional-StringsGrow d source.name s u n units e).0

  minus-plus_one : (o : Option ℕ) → minus_one (plus_one o) ≡ o
  minus-plus_one none = refl
  minus-plus_one (some n) = refl

  kind_back :
      (k : TraceSourceKind) (reader : List ℕ)
      → source_kind (source_kind_code k) reader ≡ ok (k, reader)
  unfolding source_kind source_kind_code Reader.pure
  kind_back game reader = refl
  kind_back state reader = refl
  kind_back component reader = refl
  kind_back runner reader = refl
  kind_back timer reader = refl
  kind_back participation reader = refl
  kind_back connection reader = refl
  kind_back system reader = refl

  kind_small : (k : TraceSourceKind) → source_kind_code k < 256
  unfolding source_kind_code
  kind_small game = omega arith
  kind_small state = omega arith
  kind_small component = omega arith
  kind_small runner = omega arith
  kind_small timer = omega arith
  kind_small participation = omega arith
  kind_small connection = omega arith
  kind_small system = omega arith

  undo_source :
      (t : DecodeTables) (w : Dictionary) (source : TraceSource) (name_ref : ℕ)
      → SyncedStrings t w
      → Numbered d source.name name_ref w
      → Undoes
          (read_source t)
          (write_byte (source_kind_code source.kind)
            then_write write_var_uint (plus_one source.ref)
            then_write write_var_uint name_ref)
          source
  unfolding read_source Reader.◌>>=◌ Reader.pure
  undo_source t w source name_ref g named =
      let code = source_kind_code source.kind in
      Undoes-bind read_byte _ (write_byte code) _ code _ (undo_byte code (kind_small source.kind)) (
        Undoes-skip (source_kind code) _ _ source.kind _ (kind_back source.kind) (
          Undoes-bind read_var_uint _ (write_var_uint (plus_one source.ref)) _ (plus_one source.ref)
            _ (undo_uint (plus_one source.ref))
            (Undoes-then_skip read_var_uint _ (write_var_uint name_ref) name_ref _
              (undo_uint name_ref)
              (λ reader.
                (rw (get_optional_of d t w source.name name_ref g named reader, minus-plus_one)
                  refl)))))

  -- A source that was written is read back, whatever is numbered later.
  pub write_source-Written :
      (source : TraceSource) (s u : Dictionary) (bytes : List ℕ)
      → AreUnits source.name
      → write_source source s ≡ (u, ok bytes)
      → Written d s u bytes 0 (λ t fuel. Reads (read_source t) bytes source)
  unfolding write_source
  write_source-Written source s u bytes units h =
      let code = write_byte (source_kind_code source.kind) in
      let ref = write_var_uint (plus_one source.ref) in
      let (head, wrote_head, h₁) = lift-returned (code then_write ref) _ s u bytes h in
      let (w, name_ref, e, h₂) = >>=-returned (ensure_optional source.name) _ s u bytes h₁ in
      let (tail, wrote, same) =
        joined (lift (write_var_uint name_ref)) (λ tail. head ++ tail) w u bytes h₂ in
      let (wrote_tail, same') = lifted (write_var_uint name_ref) w u tail wrote in
      let (g, named) =
        subst (λ z. StringsGrow d s z × Numbered d source.name name_ref z) same'
          (ensure_optional-StringsGrow d source.name s w name_ref units e) in
      let all : ((code then_write ref) then_write write_var_uint name_ref) ≡ ok (head ++ tail) =
        rw (wrote_head, wrote_tail) refl in
      let all' = sym (then_write_assoc code ref (write_var_uint name_ref)) ∙ (all ∙ ap ok same) in
      record {
        grows = StringsGrow-Grows d s u g;
        short = omega arith;
        reads = λ t x fuel synced ext enough rest.
            undo_source t x source name_ref synced.strings (later ext source.name name_ref named)
              bytes rest all';
      }
    where
      later :
          {x : Dictionary}
          → Extends u x
          → (o : Option Text) (n : ℕ) → Numbered d o n u
          → Numbered d o n x
      later ext none n e = e
      later ext (some value) n (k, e, there) = (k, e, ext.strings value k there)
