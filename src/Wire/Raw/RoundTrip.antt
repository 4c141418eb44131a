-- ===== src/Wire/Raw/RoundTrip.antt =====
-- `readRawValue` reads back what `writeRawValue` wrote.
use sapi_game.Base.{
  ℕ, suc, ◌-◌, ◌≤◌, ◌≡◌, refl, ap, ◌∙◌, true, false, List, [], ◌++◌, append_assoc, arith, length,
  length-append,
}
use sapi_game.Wire.Result.{ok, ◌then_write◌, then_write-eq_ok}
use sapi_game.Wire.Varint.{write_var_uint}
use sapi_game.Wire.Raw.{
  Double, Value, Items, Fields, null, bool, num, str, arr, obj, nil, cons, end, field, count_items,
  count_fields, write_string, write_raw_value, write_items, write_fields, read_items, read_fields,
  read_tagged, read_value, read_raw_value,
}
use sapi_game.Wire.Raw.Keys.{
  AllNew-end, append_fields, AllNew, DistinctKeys, set_field_new, append_fields-end, AllNew-append,
  set_then_append,
}
use sapi_game.Wire.Raw.Strings.{read_of_write_string, tagged}
use sapi_game.Wire.Raw.Canonical.{
  canonical_value, canonical_items, canonical_fields, IsProper, AreProper, AreProperFields,
}
use sapi_game.Wire.Raw.Steps.{
  read_tag, read_number, write_raw_value_pos, read_bare, read_arr, read_obj, read_cons, read_field,
}

module _ (d : Double) where
  open d use {Number, safe_int, of_int, to_bytes, of_bytes}

  mutual
    unfolding write_raw_value canonical_value IsProper read_tagged read_items read_fields

    read_of_write :
        (value : Value Number) (fuel : ℕ) (bytes rest : List ℕ)
        → IsProper d value
        → write_raw_value d value ≡ ok bytes
        → length bytes ≤ suc fuel
        → read_value d (suc fuel) (bytes ++ rest) ≡ ok (canonical_value d value, rest)
    read_of_write null fuel bytes rest p h enough = read_bare d null 0 fuel bytes rest refl (refl) h
    read_of_write (bool false) fuel bytes rest p h enough =
        read_bare d (bool false) 1 fuel bytes rest refl (refl) h
    read_of_write (bool true) fuel bytes rest p h enough =
        read_bare d (bool true) 2 fuel bytes rest refl (refl) h
    read_of_write (num value) fuel bytes rest p h enough = read_number d value fuel bytes rest h
    read_of_write (str value) fuel bytes rest p h enough =
        let (body, wrote, same) = tagged 6 (write_string value) bytes refl h in
        rw (same, read_tag d) (rw (read_of_write_string value body rest p wrote))
    read_of_write (arr items) fuel bytes rest p h enough =
        let (body, wrote, same) =
          tagged 7 (write_var_uint (count_items items) then_write write_items d items) bytes refl
            h in
        let (size, more, wrote_size, wrote_more, same') =
          then_write-eq_ok (write_var_uint (count_items items)) (write_items d items) wrote in
        let fits : length more ≤ fuel =
          omega (arith, ap length same, ap length same', length-append size more) in
        rw (same, read_tag d, ← same', append_assoc)
          (read_arr d fuel size more rest (count_items items) (canonical_items d items) wrote_size
            (read_items_of_write items fuel more rest p wrote_more fits))
    read_of_write (obj entries) fuel bytes rest p h enough =
        let (body, wrote, same) =
          tagged 8 (write_var_uint (count_fields entries) then_write write_fields d entries) bytes
            refl h in
        let (size, more, wrote_size, wrote_more, same') =
          then_write-eq_ok (write_var_uint (count_fields entries)) (write_fields d entries) wrote in
        let fits : length more ≤ fuel =
          omega (arith, ap length same, ap length same', length-append size more) in
        rw (same, read_tag d, ← same', append_assoc)
          (read_obj d fuel size more rest (count_fields entries) (canonical_fields d entries)
            wrote_size
            (read_fields_of_write entries end fuel more rest (AllNew-end entries p.0) p.0 p.1
              wrote_more fits))

    read_items_of_write :
        (items : Items Number) (fuel : ℕ) (bytes rest : List ℕ)
        → AreProper d items
        → write_items d items ≡ ok bytes
        → length bytes ≤ fuel
        → read_items d (read_value d fuel) (count_items items) (bytes ++ rest)
          ≡ ok (canonical_items d items, rest)
    read_items_of_write nil fuel bytes rest p h enough =
        let none_left : bytes ≡ [] = cc in rw none_left (refl)
    read_items_of_write (cons entry items) fuel bytes rest p h enough =
        let (front, more, e, e', same) =
          then_write-eq_ok (write_raw_value d entry) (write_items d items) h in
        let split = length-append front more in
        let shape : fuel ≡ suc (fuel - 1) =
          omega (arith, write_raw_value_pos d entry e, ap length same, split) in
        let first =
          read_of_write entry (fuel - 1) front (more ++ rest) p.0 e
            (omega (arith, ap length same, split)) in
        let others =
          read_items_of_write items fuel more rest p.1 e' (omega (arith, ap length same, split)) in
        rw (← same, append_assoc)
          (read_cons d fuel front more rest (count_items items) (canonical_value d entry)
            (canonical_items d items) (rw (← shape) at first) others)

    read_fields_of_write :
        (entries : Fields Number) (result : Fields Number) (fuel : ℕ) (bytes rest : List ℕ)
        → AllNew result entries
        → DistinctKeys entries
        → AreProperFields d entries
        → write_fields d entries ≡ ok bytes
        → length bytes ≤ fuel
        → read_fields d (read_value d fuel) (count_fields entries) result (bytes ++ rest)
          ≡ ok (append_fields result (canonical_fields d entries), rest)
    read_fields_of_write end result fuel bytes rest new distinct p h enough =
        let none_left : bytes ≡ [] = cc in rw (none_left, append_fields-end) (refl)
    read_fields_of_write (field key entry entries) result fuel bytes rest new distinct p h enough =
        let (name, tail, e, e', same) =
          then_write-eq_ok (write_string key)
            (write_raw_value d entry then_write write_fields d entries) h in
        let (front, more, e1, e2, same') =
          then_write-eq_ok (write_raw_value d entry) (write_fields d entries) e' in
        let split = length-append front more in
        let split' = length-append name tail in
        let shape : fuel ≡ suc (fuel - 1) =
          omega (
            arith,
            write_raw_value_pos d entry e1,
            ap length same,
            ap length same',
            split,
            split',
          ) in
        let first =
          read_of_write entry (fuel - 1) front (more ++ rest) p.1 e1
            (omega (arith, ap length same, ap length same', split, split')) in
        let result' = append_fields result (field key (canonical_value d entry) end) in
        let others =
          read_fields_of_write entries result' fuel more rest
            (AllNew-append key (canonical_value d entry) result entries distinct.0 new.1) distinct.1
            p.2 e2 (omega (arith, ap length same, ap length same', split, split')) in
        let found = rw (← set_field_new key (canonical_value d entry) result new.0) at others in
        rw (← same, ← same', append_assoc, append_assoc)
          (read_field d fuel name front more rest key (count_fields entries)
              (canonical_value d entry) result _ p.0 e (rw (← shape) at first) found
            ∙ ap (λ fs. ok (fs, rest))
                (set_then_append key (canonical_value d entry) result (canonical_fields d entries)
                  new.0))

  -- A value that write_raw_value wrote, with strings of code units and objects with no key twice and
  -- none called "__proto__", is
  -- read back by read_raw_value in its canonical form, whatever follows, which it leaves.
  pub read-write_raw_value :
      (value : Value Number) (bytes rest : List ℕ)
      → IsProper d value
      → write_raw_value d value ≡ ok bytes
      → read_raw_value d (bytes ++ rest) ≡ ok (canonical_value d value, rest)
  unfolding read_raw_value
  read-write_raw_value value bytes rest p h =
      read_of_write value (length (bytes ++ rest)) bytes rest p h
        (omega (arith, length-append bytes rest))
