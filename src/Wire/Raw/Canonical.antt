-- ===== src/Wire/Raw/Canonical.antt =====
-- What a value is after it was written and read: numbers lose the sign of a zero.
use sapi_game.Base.{none, some, All}
use sapi_game.Wire.Utf8.{IsUnit}
use sapi_game.Wire.Raw.{
  Double, Value, Items, Fields, null, bool, num, str, arr, obj, nil, cons, end, field,
}
use sapi_game.Wire.Raw.Keys.{DistinctKeys}

module _ (d : Double) where
  open d use {Number, safe_int, of_int, to_bytes, of_bytes}

  -- The number that is read for a number written: -0 comes back as 0.
  unfoldable pub canonical : Number → Number
  canonical value = elim (safe_int value) [ none ↦ value | some z ↦ of_int z ]

  unfoldable mutual
    pub canonical_value : Value Number → Value Number
    canonical_value null = null
    canonical_value (bool b) = bool b
    canonical_value (num value) = num (canonical value)
    canonical_value (str value) = str value
    canonical_value (arr items) = arr (canonical_items items)
    canonical_value (obj entries) = obj (canonical_fields entries)

    pub canonical_items : Items Number → Items Number
    canonical_items nil = nil
    canonical_items (cons entry items) = cons (canonical_value entry) (canonical_items items)

    pub canonical_fields : Fields Number → Fields Number
    canonical_fields end = end
    canonical_fields (field key entry entries) =
        field key (canonical_value entry) (canonical_fields entries)

  -- Strings of code units, and objects with no key twice and none called "__proto__".
  unfoldable mutual
    pub IsProper : Value Number → Type 0
    IsProper null = Unit {0}
    IsProper (bool b) = Unit {0}
    IsProper (num value) = Unit {0}
    IsProper (str value) = All IsUnit value
    IsProper (arr items) = AreProper items
    IsProper (obj entries) = DistinctKeys entries × AreProperFields entries

    pub AreProper : Items Number → Type 0
    AreProper nil = Unit {0}
    AreProper (cons entry items) = IsProper entry × AreProper items

    pub AreProperFields : Fields Number → Type 0
    AreProperFields end = Unit {0}
    AreProperFields (field key entry entries) =
        All IsUnit key × IsProper entry × AreProperFields entries
