-- ===== src/Trace/Types.antt =====
-- What a trace says: the types of packages/trace-spec/src/types.ts and the codes of
-- packages/trace/src/wire/format.ts that both the session writer and the decoder use.
use sapi_game.Base.{ℕ, Bool, false, ◌||◌, Option, List, [], ◌∷◌, ◌==◌, if◌then◌else◌}
use sapi_game.Wire.Result.{unknown_source_kind}
use sapi_game.Wire.Reader.{Reader, pure, fail}
use sapi_game.Wire.Raw.{Value}
use sapi_game.Wire.Container.{Text}

pub data TraceSourceKind : Type 0 where
  game state component runner timer participation connection system : TraceSourceKind

pub record TraceSource : Type 0 where
  pub kind : TraceSourceKind
  pub ref : Option ℕ
  pub name : Option Text

unfoldable pub source_kind_code : TraceSourceKind → ℕ
source_kind_code game = 0
source_kind_code state = 1
source_kind_code component = 2
source_kind_code runner = 3
source_kind_code timer = 4
source_kind_code participation = 5
source_kind_code connection = 6
source_kind_code system = 7

unfoldable pub source_kind : ℕ → Reader TraceSourceKind
source_kind code =
    if code == 0
    then pure game
    else if code == 1
    then pure state
    else if code == 2
    then pure component
    else if code == 3
    then pure runner
    else if code == 4
    then pure timer
    else if code == 5
    then pure participation
    else if code == 6
    then pure connection
    else if code == 7
    then pure system
    else fail unknown_source_kind

-- The kinds of a field of a custom event.
pub data TraceFieldType : Type 0 where
  boolean_field uint_field int_field number_field string_field player_field : TraceFieldType

unfoldable pub field_type_code : TraceFieldType → ℕ
field_type_code boolean_field = 0
field_type_code uint_field = 1
field_type_code int_field = 2
field_type_code number_field = 3
field_type_code string_field = 4
field_type_code player_field = 5

-- The name of an event: of its schema, of the built-in table, or `unknown.` and the number.
pub data EventName : Type 0 where
  custom : Text → EventName
  builtin unknown : ℕ → EventName

pub record DecodedTraceEvent (F : Type 0) : Type 0 where
  pub sequence : ℕ
  pub tick : ℕ
  pub type_id : ℕ
  pub type : EventName
  pub source : TraceSource
  pub payload : Value F

-- The keys of BUILTIN_TRACE_EVENT_NAMES.
abbrev pub builtin_types : List ℕ
builtin_types =
    1 ∷ 2 ∷ 3 ∷ 4 ∷ 5 ∷ 6 ∷ 7 ∷ 16 ∷ 17 ∷ 18 ∷ 19 ∷ 20 ∷ 21 ∷ 22 ∷ 32 ∷ 33 ∷ 34 ∷ 35 ∷ 36 ∷ 40 ∷ 48
    ∷ 49 ∷ 50 ∷ 51 ∷ 64 ∷ 65 ∷ 66 ∷ 80 ∷ 81 ∷ 82 ∷ 96 ∷ 97 ∷ 112 ∷ 113 ∷ 114 ∷ 127 ∷ []

abbrev is_in : ℕ → List ℕ → Bool
is_in x [] = false
is_in x (y ∷ ys) = x == y || is_in x ys

unfoldable pub builtin_name : ℕ → EventName
builtin_name type_id = if is_in type_id builtin_types then builtin type_id else unknown type_id
