-- ===== src/Trace/Values.antt =====
-- packages/trace/src/runtime/session.ts: the values and the sources of events, written by reference
-- to the strings and players that the session has defined.
use sapi_game.Base.{ℕ, suc, Bool, true, false, Option, none, some, List, [], ◌++◌, if◌then◌else◌}
use sapi_game.Base.Int.{pos, negsuc}
use sapi_game.Wire.Result.{ok, ◌then_write◌, wrong_field, not_safe_uint, not_safe_int}
use sapi_game.Wire.Varint.{write_byte, write_var_uint, write_var_int}
use sapi_game.Wire.Raw.{Double, write_number}
use sapi_game.Wire.Container.{Text}
use sapi_game.Trace.Types.{
  TraceSource, TraceFieldType, boolean_field, uint_field, int_field, number_field, string_field,
  player_field, source_kind_code,
}
use sapi_game.Trace.Act.{Act, ◌>>=◌, pure, throw, lift}
use sapi_game.Trace.Dictionary.{Dictionary, ensure_string, ensure_player, ensure_optional}

-- `TraceInputValue`: a value, or a player where one may stand.
mutual
  pub data Input (F : Type 0) : Type 0 where
    null : Input F
    bool : Bool → Input F
    num : F → Input F
    str : Text → Input F
    player : Text → Option Text → Input F
    arr : InputItems F → Input F
    obj : InputFields F → Input F

  pub data InputItems (F : Type 0) : Type 0 where
    nil : InputItems F
    cons : Input F → InputItems F → InputItems F

  pub data InputFields (F : Type 0) : Type 0 where
    end : InputFields F
    field : Text → Input F → InputFields F → InputFields F

abbrev pub count_input_items : {F : Type 0} → InputItems F → ℕ
count_input_items nil = 0
count_input_items (cons v vs) = suc (count_input_items vs)

abbrev pub count_input_fields : {F : Type 0} → InputFields F → ℕ
count_input_fields end = 0
count_input_fields (field k v fs) = suc (count_input_fields fs)

unfoldable pub prepare_source : TraceSource → Act Dictionary (Unit {0})
prepare_source source = do _ ← ensure_optional source.name; pure tt

-- `ref === undefined ? 0 : ref + 1`
abbrev pub plus_one : Option ℕ → ℕ
plus_one none = 0
plus_one (some n) = suc n

unfoldable pub write_source : TraceSource → Act Dictionary (List ℕ)
write_source source = do
  head ←
      lift
        (write_byte (source_kind_code source.kind) then_write write_var_uint (plus_one source.ref))
  name_ref ← ensure_optional source.name
  tail ← lift (write_var_uint name_ref)
  pure (head ++ tail)

module _ (d : Double) where
  open d use {Number, safe_int, to_bytes}

  unfoldable mutual
    pub prepare_value : Input Number → Act Dictionary (Unit {0})
    prepare_value null = pure tt
    prepare_value (bool b) = pure tt
    prepare_value (num n) = pure tt
    prepare_value (str value) = do _ ← ensure_string value; pure tt
    prepare_value (player id name) = do _ ← ensure_player id name; pure tt
    prepare_value (arr items) = prepare_items items
    prepare_value (obj entries) = prepare_fields entries

    pub prepare_items : InputItems Number → Act Dictionary (Unit {0})
    prepare_items nil = pure tt
    prepare_items (cons entry items) = do _ ← prepare_value entry; prepare_items items

    pub prepare_fields : InputFields Number → Act Dictionary (Unit {0})
    prepare_fields end = pure tt
    prepare_fields (field key entry entries) = do
      _ ← ensure_string key
      _ ← prepare_value entry
      prepare_fields entries

  unfoldable mutual
    pub write_value : Input Number → Act Dictionary (List ℕ)
    write_value null = lift (write_byte 0)
    write_value (bool false) = lift (write_byte 1)
    write_value (bool true) = lift (write_byte 2)
    write_value (num value) = lift (write_number d value)
    write_value (str value) = do
      ref ← ensure_string value
      lift (write_byte 6 then_write write_var_uint ref)
    write_value (player id name) = do
      ref ← ensure_player id name
      lift (write_byte 9 then_write write_var_uint ref)
    write_value (arr items) = do
      head ← lift (write_byte 7 then_write write_var_uint (count_input_items items))
      tail ← write_value_items items
      pure (head ++ tail)
    write_value (obj entries) = do
      head ← lift (write_byte 8 then_write write_var_uint (count_input_fields entries))
      tail ← write_value_fields entries
      pure (head ++ tail)

    pub write_value_items : InputItems Number → Act Dictionary (List ℕ)
    write_value_items nil = pure []
    write_value_items (cons entry items) = do
      head ← write_value entry
      tail ← write_value_items items
      pure (head ++ tail)

    pub write_value_fields : InputFields Number → Act Dictionary (List ℕ)
    write_value_fields end = pure []
    write_value_fields (field key entry entries) = do
      ref ← ensure_string key
      name ← lift (write_var_uint ref)
      head ← write_value entry
      tail ← write_value_fields entries
      pure (name ++ (head ++ tail))

  -- A value of a custom field, by what `typeof` says of it; a number with whether it is finite.
  pub data CustomValue : Type 0 where
    a_string : Text → CustomValue
    a_boolean : Bool → CustomValue
    a_number : Number → Bool → CustomValue
    another : CustomValue

  unfoldable pub prepare_custom_field : TraceFieldType → CustomValue → Act Dictionary (Unit {0})
  prepare_custom_field string_field (a_string value) = do _ ← ensure_string value; pure tt
  prepare_custom_field player_field (a_string value) = do _ ← ensure_player value none; pure tt
  prepare_custom_field boolean_field (a_boolean b) = pure tt
  prepare_custom_field uint_field (a_number n finite) = elim (safe_int n) [
    | some (pos k) ↦ pure tt
    | some (negsuc k) ↦ throw wrong_field
    | none ↦ throw wrong_field
  ]
  prepare_custom_field int_field (a_number n finite) = elim (safe_int n) [
    | some z ↦ pure tt
    | none ↦ throw wrong_field
  ]
  prepare_custom_field number_field (a_number n finite) =
      if finite then pure tt else throw wrong_field
  prepare_custom_field type value = throw wrong_field

  -- The source writes the value without a test, by casts; it calls this on a value that has passed
  -- prepare_custom_field, which the casts keep as it is. A value that has not passed is an error
  -- here, where the source would write what its cast makes of it.
  unfoldable pub write_custom_field : TraceFieldType → CustomValue → Act Dictionary (List ℕ)
  write_custom_field boolean_field (a_boolean b) = lift (write_byte (if b then 1 else 0))
  write_custom_field uint_field (a_number n finite) = elim (safe_int n) [
    | some (pos k) ↦ lift (write_var_uint k)
    | some (negsuc k) ↦ throw not_safe_uint
    | none ↦ throw not_safe_uint
  ]
  write_custom_field int_field (a_number n finite) = elim (safe_int n) [
    | some z ↦ lift (write_var_int z)
    | none ↦ throw not_safe_int
  ]
  write_custom_field number_field (a_number n finite) = lift (ok (to_bytes n))
  write_custom_field string_field (a_string value) = do
    ref ← ensure_string value
    lift (write_var_uint ref)
  write_custom_field player_field (a_string value) = do
    ref ← ensure_player value none
    lift (write_var_uint ref)
  write_custom_field type value = throw wrong_field
