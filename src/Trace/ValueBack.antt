-- ===== src/Trace/ValueBack.antt =====
-- The values that a session writes and what `readRefValue` reads of them.
use sapi_game.Base.{
  ℕ, suc, ◌+◌, ◌≤◌, ◌<◌, bit_and, ◌≡◌, refl, ap, ◌∙◌, subst, true, false, Option, some, List, [],
  ◌∷◌, ◌++◌, arith, length, length-append, All,
}
use sapi_game.Wire.Result.{Result, ok, err, ◌then_write◌}
use sapi_game.Wire.Varint.{write_byte, write_var_uint}
use sapi_game.Wire.Utf8.{IsUnit}
use sapi_game.Wire.Raw.{
  Double, Value, Items, Fields, null, bool, num, str, arr, obj, nil, cons, end, field, read_items,
  write_number, write_raw_value,
}
use sapi_game.Wire.Raw.Canonical.{canonical_value, canonical_items, canonical_fields}
use sapi_game.Wire.Raw.Keys.{
  AllNew-end, append_fields, AllNew, DistinctKeys, set_field_new, append_fields-end, AllNew-append,
  set_then_append,
}
use sapi_game.Wire.Raw.Steps.{length-tagged, write_raw_value_pos}
use sapi_game.Wire.Reader.{Reader, Undoes, Undoes-pure, Undoes-bind, Undoes-last, Undoes-skip}
use sapi_game.Wire.Reader as Reader
use sapi_game.Wire.Container.{Text}
use sapi_game.Trace.Texts.{text_get}
use sapi_game.Trace.Act.{Act, ◌>>=◌, pure, lift, >>=-returned, lift-returned}
use sapi_game.Trace.Dictionary.{Dictionary, ensure_string, ensure_player}
use sapi_game.Trace.Decoder.{DecodeTables, read_ref_fields, read_ref_tagged, read_ref_value}
use sapi_game.Trace.Sync.{
  AreUnits, KnownNames, StringsGrow, StringsGrow-Grows, Synced, Extends, Extends-trans, Grows,
  Grows-refl, Grows-trans,
}
use sapi_game.Trace.Strings.{ensure_string-StringsGrow}
use sapi_game.Trace.Defines.{ensure_player-Grows}
use sapi_game.Trace.Values.{
  Input, InputItems, InputFields, null, bool, num, str, player, arr, obj, nil, cons, end, field,
  count_input_items, count_input_fields, write_value, write_value_items, write_value_fields,
}
use sapi_game.Trace.Reads.{
  Reads, Reads-number, Reads-tag, Reads-string, Reads-player, Reads-arr, Reads-obj, Reads-cons,
  Reads-field,
}

module _ {F : Type 0} where
  -- A value as it comes back: a player is its id.
  abbrev mutual
    pub plain_value : Input F → Value F
    plain_value null = null
    plain_value (bool b) = bool b
    plain_value (num n) = num n
    plain_value (str value) = str value
    plain_value (player id name) = str id
    plain_value (arr items) = arr (plain_items items)
    plain_value (obj entries) = obj (plain_fields entries)

    pub plain_items : InputItems F → Items F
    plain_items nil = nil
    plain_items (cons entry items) = cons (plain_value entry) (plain_items items)

    pub plain_fields : InputFields F → Fields F
    plain_fields end = end
    plain_fields (field key entry entries) = field key (plain_value entry) (plain_fields entries)

  -- Strings of code units, and objects with no key twice and none called "__proto__".
  abbrev mutual
    pub IsGiven : Input F → Type 0
    IsGiven null = Unit {0}
    IsGiven (bool b) = Unit {0}
    IsGiven (num n) = Unit {0}
    IsGiven (str value) = All IsUnit value
    IsGiven (player id name) = All IsUnit id × AreUnits name
    IsGiven (arr items) = AreGiven items
    IsGiven (obj entries) = DistinctKeys (plain_fields entries) × AreGivenFields entries

    pub AreGiven : InputItems F → Type 0
    AreGiven nil = Unit {0}
    AreGiven (cons entry items) = IsGiven entry × AreGiven items

    pub AreGivenFields : InputFields F → Type 0
    AreGivenFields end = Unit {0}
    AreGivenFields (field key entry entries) =
        All IsUnit key × IsGiven entry × AreGivenFields entries

  -- How many values there are in a value; its reading takes no more fuel.
  abbrev mutual
    pub nodes : Input F → ℕ
    nodes null = 1
    nodes (bool b) = 1
    nodes (num n) = 1
    nodes (str value) = 1
    nodes (player id name) = 1
    nodes (arr items) = suc (nodes_items items)
    nodes (obj entries) = suc (nodes_fields entries)

    pub nodes_items : InputItems F → ℕ
    nodes_items nil = 0
    nodes_items (cons entry items) = nodes entry + nodes_items items

    pub nodes_fields : InputFields F → ℕ
    nodes_fields end = 0
    nodes_fields (field key entry entries) = nodes entry + nodes_fields entries

-- The two ends of a writing: `lift`, and `pure` of what the last operation wrote.
pub lifted :
    {A : Type 0} (r : Result A) (s u : Dictionary) (a : A)
    → lift r s ≡ (u, ok a)
    → (r ≡ ok a) × (s ≡ u)
unfolding lift
lifted (ok b) s u a h = (cc, cc)
lifted (err e) s u a h = cc

pub joined :
    {A B : Type 0} (op : Act Dictionary A) (f : A → B) (s u : Dictionary) (b : B)
    → (op >>= λ a. pure (f a)) s ≡ (u, ok b)
    → (a : A) × (op s ≡ (u, ok a)) × (f a ≡ b)
unfolding pure
joined op f s u b h =
    let (w, a, e, last) = >>=-returned op (λ a. pure (f a)) s u b h in
    let same : w ≡ u = cc in (a, rw (← same) e, cc)

module _ (d : Double) where
  open d use {Number}

  -- A writing that takes `s` to `u` and makes `bytes`, which are read as `P` says with `size` of fuel,
  -- whatever is numbered later.
  pub record Written (s u : Dictionary) (bytes : List ℕ) (size : ℕ) (P : DecodeTables → ℕ → Type 0)
      : Type 0 where
    pub grows : Grows d s u
    pub short : size ≤ length bytes
    pub reads :
        (t : DecodeTables) (w : Dictionary) (fuel : ℕ)
        → Synced t w
        → Extends u w
        → size ≤ fuel
        → P t fuel

  lifted-Written :
      (r : Result (List ℕ)) (s u : Dictionary) (bytes : List ℕ) (P : DecodeTables → ℕ → Type 0)
      → lift r s ≡ (u, ok bytes)
      → 0 < length bytes
      → (r ≡ ok bytes → (t : DecodeTables) (fuel : ℕ) → 1 ≤ fuel → P t fuel)
      → Written s u bytes 1 P
  lifted-Written r s u bytes P h long reads =
      let (wrote, same) = lifted r s u bytes h in
      record {
        grows = subst (Grows d s) same (Grows-refl d s);
        short = long;
        reads = λ t w fuel synced ext enough. reads wrote t fuel enough;
      }

  unfoldable pub ValueBack : Input Number → List ℕ → DecodeTables → ℕ → Type 0
  ValueBack v bytes t fuel =
      Reads (read_ref_value d t fuel) bytes (canonical_value d (plain_value v))

  bare-Written :
      (v : Input Number) (tag : ℕ) (s u : Dictionary) (bytes : List ℕ)
      → bit_and tag 0xff ≡ tag
      → ((t : DecodeTables) (f : ℕ) (rest : List ℕ)
          → read_ref_tagged d t (read_ref_value d t f) tag rest
            ≡ ok (canonical_value d (plain_value v), rest))
      → lift (write_byte tag) s ≡ (u, ok bytes)
      → Written s u bytes 1 (ValueBack v bytes)
  unfolding ValueBack write_byte
  bare-Written v tag s u bytes small reads h =
      let (wrote, same) = lifted (write_byte tag) s u bytes h in
      let one : bytes ≡ tag ∷ [] = cc in
      lifted-Written (write_byte tag) s u bytes (ValueBack v bytes) h (rw one (omega arith))
        (λ wrote t fuel enough. rw one (
          Reads-tag d t fuel 0 tag [] (canonical_value d (plain_value v)) enough
            (λ f enough' rest. reads t f rest)))

  string-Written :
      (value : Text) (s u : Dictionary) (bytes : List ℕ)
      → All IsUnit value
      → write_value d (str value) s ≡ (u, ok bytes)
      → Written s u bytes 1 (ValueBack (str value) bytes)
  unfolding ValueBack write_value canonical_value
  string-Written value s u bytes units h =
      let (w, ref, found, last) = >>=-returned (ensure_string value) _ s u bytes h in
      let (wrote, same) = lifted (write_byte 6 then_write write_var_uint ref) w u bytes last in
      let (g, there) =
        subst (λ z. StringsGrow d s z × (text_get value z.string_ids ≡ some ref)) same
          (ensure_string-StringsGrow d value s w ref units found) in
      record {
        grows = StringsGrow-Grows d s u g;
        short = length-tagged d 6 (write_var_uint ref) wrote;
        reads = λ t x fuel synced ext enough.
            Reads-string d t x value ref fuel bytes synced.strings (ext.strings value ref there)
              wrote enough;
      }

  player-Written :
      (id : Text) (name : Option Text) (s u : Dictionary) (bytes : List ℕ)
      → All IsUnit id
      → AreUnits name
      → KnownNames s
      → write_value d (player id name) s ≡ (u, ok bytes)
      → Written s u bytes 1 (ValueBack (player id name) bytes)
  unfolding ValueBack write_value canonical_value
  player-Written id name s u bytes units name_units known h =
      let (w, ref, found, last) = >>=-returned (ensure_player id name) _ s u bytes h in
      let (wrote, same) = lifted (write_byte 9 then_write write_var_uint ref) w u bytes last in
      let (g, there) =
        (let (g, there, _) = ensure_player-Grows d id name s w ref units name_units known found in
          subst (λ z. Grows d s z × (text_get id z.player_ids ≡ some ref)) same (g, there)) in
      record {
        grows = g;
        short = length-tagged d 9 (write_var_uint ref) wrote;
        reads = λ t x fuel synced ext enough.
            Reads-player d t x id ref fuel bytes synced (ext.players id ref there) wrote enough;
      }

  -- A count in front of the entries of an array or an object.
  counted :
      (tag n : ℕ) (op : Act Dictionary (List ℕ)) (s u : Dictionary) (bytes : List ℕ)
      → (lift (write_byte tag then_write write_var_uint n) >>= λ head.
            (op >>= λ tail. pure (head ++ tail)))
          s
        ≡ (u, ok bytes)
      → (head tail : List ℕ) × ((write_byte tag then_write write_var_uint n) ≡ ok head)
        × (op s ≡ (u, ok tail))
        × ((head ++ tail) ≡ bytes)
  counted tag n op s u bytes h =
      let (head, wrote, h') =
        lift-returned (write_byte tag then_write write_var_uint n) _ s u bytes h in
      let (tail, e, same) = joined op (λ tail. head ++ tail) s u bytes h' in
      (head, tail, wrote, e, same)

  unfoldable ItemsBack : InputItems Number → List ℕ → DecodeTables → ℕ → Type 0
  ItemsBack items bytes t fuel =
      Reads (read_items d (read_ref_value d t fuel) (count_input_items items)) bytes
        (canonical_items d (plain_items items))

  unfoldable FieldsBack : InputFields Number → List ℕ → DecodeTables → ℕ → Type 0
  FieldsBack entries bytes t fuel =
      (result : Fields Number)
      → AllNew result (plain_fields entries)
      → DistinctKeys (plain_fields entries)
      → Reads (read_ref_fields d t (read_ref_value d t fuel) (count_input_fields entries) result)
          bytes (append_fields result (canonical_fields d (plain_fields entries)))

  arr-Written :
      (items : InputItems Number) (s u : Dictionary) (head tail : List ℕ)
      → (write_byte 7 then_write write_var_uint (count_input_items items)) ≡ ok head
      → Written s u tail (nodes_items items) (ItemsBack items tail)
      → Written s u (head ++ tail) (nodes (arr items)) (ValueBack (arr items) (head ++ tail))
  unfolding ValueBack ItemsBack canonical_value
  arr-Written items s u head tail wrote w = record {
    grows = w.grows;
    short =
        let long = length-tagged d 7 (write_var_uint (count_input_items items)) wrote in
        let below = w.short in omega (arith, length-append head tail);
    reads = λ t x fuel synced ext enough.
        Reads-arr d t fuel (nodes_items items) (count_input_items items) head tail
          (canonical_items d (plain_items items)) wrote enough
          (λ fuel' enough'. w.reads t x fuel' synced ext enough');
  }

  obj-Written :
      (entries : InputFields Number) (s u : Dictionary) (head tail : List ℕ)
      → DistinctKeys (plain_fields entries)
      → (write_byte 8 then_write write_var_uint (count_input_fields entries)) ≡ ok head
      → Written s u tail (nodes_fields entries) (FieldsBack entries tail)
      → Written s u (head ++ tail) (nodes (obj entries)) (ValueBack (obj entries) (head ++ tail))
  unfolding ValueBack FieldsBack canonical_value
  obj-Written entries s u head tail distinct wrote w = record {
    grows = w.grows;
    short =
        let long = length-tagged d 8 (write_var_uint (count_input_fields entries)) wrote in
        let below = w.short in omega (arith, length-append head tail);
    reads = λ t x fuel synced ext enough.
        Reads-obj d t fuel (nodes_fields entries) (count_input_fields entries) head tail
          (canonical_fields d (plain_fields entries)) wrote enough
          (λ fuel' enough'.
            w.reads t x fuel' synced ext enough' end (AllNew-end (plain_fields entries) distinct)
              distinct);
  }

  cons-Written :
      (entry : Input Number) (items : InputItems Number) (s w u : Dictionary) (front more : List ℕ)
      → Written s w front (nodes entry) (ValueBack entry front)
      → Written w u more (nodes_items items) (ItemsBack items more)
      → Written s u
          (front ++ more)
          (nodes_items (cons entry items))
          (ItemsBack (cons entry items) (front ++ more))
  unfolding ValueBack ItemsBack canonical_value
  cons-Written entry items s w u front more a b = record {
    grows = Grows-trans d s w u a.grows b.grows;
    short = let below = a.short in let below' = b.short in omega (arith, length-append front more);
    reads = λ t x fuel synced ext enough.
        Reads-cons d (read_ref_value d t fuel) (count_input_items items) front more
          (canonical_value d (plain_value entry)) (canonical_items d (plain_items items))
          (a.reads t x fuel synced (Extends-trans w u x b.grows.extends ext) (omega arith))
          (b.reads t x fuel synced ext (omega arith));
  }

  field-Written :
      (key : Text) (entry : Input Number) (entries : InputFields Number) (s v w u : Dictionary)
      (ref : ℕ) (name front more : List ℕ)
      → StringsGrow d s v
      → text_get key v.string_ids ≡ some ref
      → write_var_uint ref ≡ ok name
      → Written v w front (nodes entry) (ValueBack entry front)
      → Written w u more (nodes_fields entries) (FieldsBack entries more)
      → Written s u
          (name ++ (front ++ more))
          (nodes_fields (field key entry entries))
          (FieldsBack (field key entry entries) (name ++ (front ++ more)))
  unfolding ValueBack FieldsBack canonical_value
  field-Written key entry entries s v w u ref name front more g there wrote a b = record {
    grows = Grows-trans d s w u (Grows-trans d s v w (StringsGrow-Grows d s v g) a.grows) b.grows;
    short =
        let below = a.short in
        let below' = b.short in
        omega (arith, length-append front more, length-append name (front ++ more));
    reads = λ t x fuel synced ext enough result new distinct rest.
        (let value = canonical_value d (plain_value entry) in
          let later = Extends-trans w u x b.grows.extends ext in
          let there' = (Extends-trans v w x a.grows.extends later).strings key ref there in
          let others =
            b.reads t x fuel synced ext (omega arith) (append_fields result (field key value end))
              (AllNew-append key value result (plain_fields entries) distinct.0 new.1) distinct.1 in
          let others' = rw (← set_field_new key value result new.0) at others in
          Reads-field d t x (read_ref_value d t fuel) (count_input_fields entries) ref key name
            front more value result _ synced.strings there' wrote
            (a.reads t x fuel synced later (omega arith)) others' rest
          ∙ ap (λ fs. ok (fs, rest))
              (set_then_append key value result (canonical_fields d (plain_fields entries)) new.0));
  }

  mutual
    unfolding write_raw_value write_value ValueBack ItemsBack FieldsBack canonical_value
        read_ref_tagged read_items read_ref_fields Reader.pure pure

    value-Written :
        (v : Input Number) (s u : Dictionary) (bytes : List ℕ)
        → IsGiven v
        → KnownNames s
        → write_value d v s ≡ (u, ok bytes)
        → Written s u bytes (nodes v) (ValueBack v bytes)
    value-Written null s u bytes given known h =
        bare-Written null 0 s u bytes refl (λ t f rest. refl) h
    value-Written (bool false) s u bytes given known h =
        bare-Written (bool false) 1 s u bytes refl (λ t f rest. refl) h
    value-Written (bool true) s u bytes given known h =
        bare-Written (bool true) 2 s u bytes refl (λ t f rest. refl) h
    value-Written (num n) s u bytes given known h =
        let (wrote, same) = lifted (write_number d n) s u bytes h in
        lifted-Written (write_number d n) s u bytes (ValueBack (num n) bytes) h
          (write_raw_value_pos d (num n) wrote)
          (λ wrote t fuel enough. Reads-number d t n fuel bytes wrote enough)
    value-Written (str value) s u bytes given known h = string-Written value s u bytes given h
    value-Written (player id name) s u bytes given known h =
        player-Written id name s u bytes given.0 given.1 known h
    value-Written (arr items) s u bytes given known h =
        let (head, tail, wrote, e, same) =
          counted 7 (count_input_items items) (write_value_items d items) s u bytes h in
        subst (λ b. Written s u b (nodes (arr items)) (ValueBack (arr items) b)) same
          (arr-Written items s u head tail wrote (write_items-Written items s u tail given known e))
    value-Written (obj entries) s u bytes given known h =
        let (head, tail, wrote, e, same) =
          counted 8 (count_input_fields entries) (write_value_fields d entries) s u bytes h in
        subst (λ b. Written s u b (nodes (obj entries)) (ValueBack (obj entries) b)) same
          (obj-Written entries s u head tail given.0 wrote
            (write_fields-Written entries s u tail given.1 known e))

    write_items-Written :
        (items : InputItems Number) (s u : Dictionary) (bytes : List ℕ)
        → AreGiven items
        → KnownNames s
        → write_value_items d items s ≡ (u, ok bytes)
        → Written s u bytes (nodes_items items) (ItemsBack items bytes)
    write_items-Written nil s u bytes given known h =
        let same : s ≡ u = cc in
        let none_left : bytes ≡ [] = cc in
        record {
          grows = subst (Grows d s) same (Grows-refl d s);
          short = omega arith;
          reads = λ t x fuel synced ext enough rest. rw none_left refl;
        }
    write_items-Written (cons entry items) s u bytes given known h =
        let (w, front, e, h') = >>=-returned (write_value d entry) _ s u bytes h in
        let (more, e', same) =
          joined (write_value_items d items) (λ tail. front ++ tail) w u bytes h' in
        let a = value-Written entry s w front given.0 known e in
        let b = write_items-Written items w u more given.1 (a.grows.names known) e' in
        subst (λ b. Written s u b (nodes_items (cons entry items)) (ItemsBack (cons entry items) b))
          same (cons-Written entry items s w u front more a b)

    write_fields-Written :
        (entries : InputFields Number) (s u : Dictionary) (bytes : List ℕ)
        → AreGivenFields entries
        → KnownNames s
        → write_value_fields d entries s ≡ (u, ok bytes)
        → Written s u bytes (nodes_fields entries) (FieldsBack entries bytes)
    write_fields-Written end s u bytes given known h =
        let same : s ≡ u = cc in
        let none_left : bytes ≡ [] = cc in
        record {
          grows = subst (Grows d s) same (Grows-refl d s);
          short = omega arith;
          reads = λ t x fuel synced ext enough result new distinct rest.
              rw (none_left, append_fields-end) refl;
        }
    write_fields-Written (field key entry entries) s u bytes given known h =
        let (v, ref, found, h₁) = >>=-returned (ensure_string key) _ s u bytes h in
        let (name, wrote, h₂) = lift-returned (write_var_uint ref) _ v u bytes h₁ in
        let (w, front, e, h₃) = >>=-returned (write_value d entry) _ v u bytes h₂ in
        let (more, e', same) =
          joined (write_value_fields d entries) (λ tail. name ++ (front ++ tail)) w u bytes h₃ in
        let (g, there) = ensure_string-StringsGrow d key s v ref given.0 found in
        let known' = (StringsGrow-Grows d s v g).names known in
        let a = value-Written entry v w front given.1 known' e in
        let b = write_fields-Written entries w u more given.2 (a.grows.names known') e' in
        subst
          (λ b.
            Written s u b (nodes_fields (field key entry entries))
              (FieldsBack (field key entry entries) b))
          same (field-Written key entry entries s v w u ref name front more g there wrote a b)

  -- Where write_value returns bytes for a value with strings of code units and objects with no key
  -- twice and none called "__proto__", any decoder whose tables are in step with the dictionary, then
  -- or after later definitions, reads them as the value in its canonical form, a player as its id,
  -- with fuel for its nodes, which are no more than the bytes.
  pub write_value-Written :
      (v : Input Number) (s u : Dictionary) (bytes : List ℕ)
      → IsGiven v
      → KnownNames s
      → write_value d v s ≡ (u, ok bytes)
      → Written s u bytes (nodes v) (ValueBack v bytes)
  write_value-Written v s u bytes given known h = value-Written v s u bytes given known h
