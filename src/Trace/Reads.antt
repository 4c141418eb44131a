-- ===== src/Trace/Reads.antt =====
-- The readings of `readRefValue` in packages/trace/src/runtime/decoder.ts, one for each tag.
use sapi_game.Base.{
  ℕ, zero, suc, ◌≤◌, ◌≡◌, refl, Option, none, some, List, ◌∷◌, ◌++◌, append_assoc, arith,
}
use sapi_game.Base.Int.{ℤ, pos, negsuc}
use sapi_game.Wire.Result.{ok, ◌then_write◌}
use sapi_game.Wire.Varint.{write_byte, write_var_uint, write_var_int, read_byte}
use sapi_game.Wire.Raw.{
  Double, Value, Items, Fields, num, str, arr, obj, cons, end, set_field, read_items, write_number,
}
use sapi_game.Wire.Raw.Canonical.{canonical}
use sapi_game.Wire.Raw.Steps.{canonical-none, canonical-some, read_float}
use sapi_game.Wire.Raw.Strings.{read_of_write_var_uint, read_of_write_var_int, tagged}
use sapi_game.Wire.Reader.{Reader, Undoes, Undoes-pure, Undoes-bind, Undoes-last, Undoes-skip}
use sapi_game.Wire.Reader as Reader
use sapi_game.Wire.Container.{Text}
use sapi_game.Trace.Texts.{text_get}
use sapi_game.Trace.Dictionary.{Dictionary}
use sapi_game.Trace.Decoder.{
  PlayerDefinition, DecodeTables, get_player, read_ref_fields, read_ref_tagged, read_ref_value,
}
use sapi_game.Trace.Sync.{SyncedStrings, Synced}
use sapi_game.Trace.Strings.{get_string_of}

-- `m` takes `bytes`, returns `a` and leaves what follows.
abbrev pub Reads : {A : Type 0} → Reader A → List ℕ → A → Type 0
Reads m bytes a = (rest : List ℕ) → m (bytes ++ rest) ≡ ok (a, rest)

pub get_player_of :
    (t : DecodeTables) (w : Dictionary) (id : Text) (i : ℕ)
    → Synced t w
    → text_get id w.player_ids ≡ some i
    → (p : PlayerDefinition) × ((reader : List ℕ) → get_player t i reader ≡ ok (p, reader))
      × (p.id ≡ id)
unfolding get_player Reader.pure
get_player_of t w id i g there =
    let (p, e, same, _) = (g.players id i there).1 in (p, (λ reader. rw e refl), same)

module _ (d : Double) where
  open d use {Number, safe_int, of_int, to_bytes}

  -- A value that begins with `tag`, whose body needs `size` of fuel.
  pub Reads-tag :
      (t : DecodeTables) (fuel size tag : ℕ) (body : List ℕ) (a : Value Number)
      → suc size ≤ fuel
      → ((fuel' : ℕ)
          → size ≤ fuel'
          → Reads (read_ref_tagged d t (read_ref_value d t fuel') tag) body a)
      → Reads (read_ref_value d t fuel) (tag ∷ body) a
  unfolding read_ref_value read_byte Reader.◌>>=◌
  Reads-tag t zero size tag body a enough reads rest = absurd (omega arith)
  Reads-tag t (suc fuel) size tag body a enough reads rest = reads fuel (omega arith) rest

  pub Reads-number :
      (t : DecodeTables) (value : Number) (fuel : ℕ) (bytes : List ℕ)
      → write_number d value ≡ ok bytes
      → 1 ≤ fuel
      → Reads (read_ref_value d t fuel) bytes (num (canonical d value))
  unfolding read_ref_tagged Reader.◌>>=◌ Reader.pure write_number
  Reads-number t value fuel bytes h enough = by_kind (safe_int value) refl
    where
      by_kind :
          (o : Option ℤ)
          → safe_int value ≡ o
          → Reads (read_ref_value d t fuel) bytes (num (canonical d value))
      by_kind none e rest =
          let (body, wrote, same) =
            tagged 5 (ok (to_bytes value)) bytes refl (rw (e, write_number) at h) in
          let same' : bytes ≡ 5 ∷ to_bytes value = cc in
          rw (same', canonical-none d value e)
            (Reads-tag t fuel 0 5 (to_bytes value) (num value) enough
              (λ f enough' rest. (read_float d value rest)) rest)
      by_kind (some (pos n)) e rest =
          let (body, wrote, same) =
            tagged 3 (write_var_uint n) bytes refl (rw (e, write_number) at h) in
          rw (same, canonical-some d value _ e)
            (Reads-tag t fuel 0 3 body (num (of_int (pos n))) enough
              (λ f enough' rest. (rw (read_of_write_var_uint n body rest wrote) refl)) rest)
      by_kind (some (negsuc n)) e rest =
          let (body, wrote, same) =
            tagged 4 (write_var_int (negsuc n)) bytes refl (rw (e, write_number) at h) in
          let safe = d.safe_int_range value (negsuc n) e in
          rw (same, canonical-some d value _ e)
            (Reads-tag t fuel 0 4 body (num (of_int (negsuc n))) enough
              (λ f enough' rest. (rw (read_of_write_var_int (negsuc n) body rest safe wrote) refl))
              rest)

  pub Reads-string :
      (t : DecodeTables) (w : Dictionary) (value : Text) (ref fuel : ℕ) (bytes : List ℕ)
      → SyncedStrings t w
      → text_get value w.string_ids ≡ some ref
      → (write_byte 6 then_write write_var_uint ref) ≡ ok bytes
      → 1 ≤ fuel
      → Reads (read_ref_value d t fuel) bytes (str value)
  unfolding read_ref_tagged Reader.◌>>=◌ Reader.pure
  Reads-string t w value ref fuel bytes g there h enough rest =
      let (body, wrote, same) = tagged 6 (write_var_uint ref) bytes refl h in
      rw same (
        Reads-tag t fuel 0 6 body (str value) enough
          (λ f enough' rest.
            (rw
              (
                read_of_write_var_uint ref body rest wrote,
                get_string_of d t w value ref g there rest,
              )
              refl))
          rest)

  pub Reads-player :
      (t : DecodeTables) (w : Dictionary) (id : Text) (ref fuel : ℕ) (bytes : List ℕ)
      → Synced t w
      → text_get id w.player_ids ≡ some ref
      → (write_byte 9 then_write write_var_uint ref) ≡ ok bytes
      → 1 ≤ fuel
      → Reads (read_ref_value d t fuel) bytes (str id)
  unfolding read_ref_tagged Reader.◌>>=◌ Reader.pure
  Reads-player t w id ref fuel bytes g there h enough rest =
      let (body, wrote, same) = tagged 9 (write_var_uint ref) bytes refl h in
      let (p, found, same') = get_player_of t w id ref g there in
      rw same (
        Reads-tag t fuel 0 9 body (str id) enough
          (λ f enough' rest.
            (rw (read_of_write_var_uint ref body rest wrote, found rest, same') refl))
          rest)

  pub Reads-arr :
      (t : DecodeTables) (fuel size n : ℕ) (front more : List ℕ) (items : Items Number)
      → (write_byte 7 then_write write_var_uint n) ≡ ok front
      → suc size ≤ fuel
      → ((fuel' : ℕ) → size ≤ fuel' → Reads (read_items d (read_ref_value d t fuel') n) more items)
      → Reads (read_ref_value d t fuel) (front ++ more) (arr items)
  unfolding read_ref_tagged Reader.◌>>=◌ Reader.pure
  Reads-arr t fuel size n front more items h enough reads rest =
      let (body, wrote, same) = tagged 7 (write_var_uint n) front refl h in
      rw same (
        Reads-tag t fuel size 7 (body ++ more) (arr items) enough
          (λ f enough' rest.
            (rw
              (
                append_assoc,
                read_of_write_var_uint n body (more ++ rest) wrote,
                reads f enough' rest,
              )
              refl))
          rest)

  pub Reads-obj :
      (t : DecodeTables) (fuel size n : ℕ) (front more : List ℕ) (fields : Fields Number)
      → (write_byte 8 then_write write_var_uint n) ≡ ok front
      → suc size ≤ fuel
      → ((fuel' : ℕ)
          → size ≤ fuel'
          → Reads (read_ref_fields d t (read_ref_value d t fuel') n end) more fields)
      → Reads (read_ref_value d t fuel) (front ++ more) (obj fields)
  unfolding read_ref_tagged Reader.◌>>=◌ Reader.pure
  Reads-obj t fuel size n front more fields h enough reads rest =
      let (body, wrote, same) = tagged 8 (write_var_uint n) front refl h in
      rw same (
        Reads-tag t fuel size 8 (body ++ more) (obj fields) enough
          (λ f enough' rest.
            (rw
              (
                append_assoc,
                read_of_write_var_uint n body (more ++ rest) wrote,
                reads f enough' rest,
              )
              refl))
          rest)

  pub Reads-cons :
      (read : Reader (Value Number)) (n : ℕ) (front more : List ℕ) (value : Value Number)
      (items : Items Number)
      → Reads read front value
      → Reads (read_items d read n) more items
      → Reads (read_items d read (suc n)) (front ++ more) (cons value items)
  unfolding read_items
  Reads-cons read n front more value items first others rest =
      rw (append_assoc, first (more ++ rest), others rest) refl

  pub Reads-field :
      (t : DecodeTables) (w : Dictionary) (read : Reader (Value Number)) (n ref : ℕ) (key : Text)
      (name front more : List ℕ) (value : Value Number) (result fields : Fields Number)
      → SyncedStrings t w
      → text_get key w.string_ids ≡ some ref
      → write_var_uint ref ≡ ok name
      → Reads read front value
      → Reads (read_ref_fields d t read n (set_field key value result)) more fields
      → Reads (read_ref_fields d t read (suc n) result) (name ++ (front ++ more)) fields
  unfolding read_ref_fields Reader.◌>>=◌ Reader.pure
  Reads-field t w read n ref key name front more value result fields g there wrote first others
        rest =
      rw
        (
          append_assoc,
          append_assoc,
          read_of_write_var_uint ref name (front ++ (more ++ rest)) wrote,
          get_string_of d t w key ref g there (front ++ (more ++ rest)),
          first (more ++ rest),
          others rest,
        )
        refl
