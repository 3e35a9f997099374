-- ===== src/Json.antt =====
-- JSON values as the program holds them after `JSON.parse` (packages/runtime-core/src), and the
-- reads of a field with the `typeof` tests that guard them. An integral number is an `int`; any
-- other number is a `frac`, kept as the text that `JSON.stringify` prints for it. An absent field
-- (`undefined`) is `none`.
pub mod Print
use matrix_flare.Prelude.{
  String, Bool, true, false, Option, none, some, str_eq, if◌then◌else◌, Result, ok, throws,
  type_error, range_error, trim, is_empty,
}
use matrix_flare.Prelude.Int.{ℤ, leb_ℤ}

mutual
  pub data Json : Type 0 where
    null : Json
    bool : Bool → Json
    int : ℤ → Json
    frac : String → Json
    str : String → Json
    arr : Items → Json
    obj : Fields → Json

  pub data Items : Type 0 where
    nil : Items
    cons : Json → Items → Items

  pub data Fields : Type 0 where
    end : Fields
    field : String → Json → Fields → Fields

-- `object[key]` of an own field
unfoldable pub get : String → Fields → Option Json
get k end = none
get k (field j v fs) = let rest = get k fs in if str_eq j k then some v else rest

-- `typeof value === 'string' ? value : null`
abbrev pub as_string : Option Json → Option String
as_string (some (str s)) = some s
as_string _ = none

-- `Number.isInteger(value) ? value : null`
abbrev pub as_int : Option Json → Option ℤ
as_int (some (int n)) = some n
as_int _ = none

-- `isObjectRecord(value) ? value : null`
abbrev pub as_object : Option Json → Option Fields
as_object (some (obj fs)) = some fs
as_object _ = none

-- `Array.isArray(value) ? value : null`
abbrev pub as_array : Option Json → Option Items
as_array (some (arr xs)) = some xs
as_array _ = none

-- `value == null`
abbrev pub is_nullish : Option Json → Bool
is_nullish none = true
is_nullish (some null) = true
is_nullish _ = false

-- `value === text`
abbrev pub is_text : Option Json → String → Bool
is_text (some (str s)) t = str_eq s t
is_text _ t = false

-- `value === true`
abbrev pub is_true : Option Json → Bool
is_true (some (bool b)) = b
is_true _ = false

-- `value === false`
abbrev pub is_false : Option Json → Bool
is_false (some (bool true)) = false
is_false (some (bool false)) = true
is_false _ = false

-- `normalizeString` of persistence-common.mjs, on a text and on any value
unfoldable pub normalize_text : String → Result String
normalize_text s = if is_empty (trim s) then throws type_error else ok (trim s)

unfoldable pub normalize_string : Option Json → Result String
unfolding normalize_text
normalize_string (some (str s)) = normalize_text s
normalize_string _ = throws type_error

-- `normalizeInteger` of persistence-common.mjs; `allowNull` is not set by the callers modelled here
unfoldable pub normalize_integer : Option Json → ℤ → Result ℤ
normalize_integer none least = throws type_error
normalize_integer (some null) least = throws type_error
normalize_integer (some (int n)) least = if leb_ℤ least n then ok n else throws range_error
normalize_integer (some _) least = throws range_error
