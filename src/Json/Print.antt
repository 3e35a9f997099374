-- ===== src/Json/Print.antt =====
-- `JSON.stringify`, as the program uses it to measure what it stores.
use Prim.Native.Nat.{ℕ, ◌+◌, ◌/◌, ◌%◌}
use Prim.Native.Char.{Char, code}
use Prim.Native.String.{String, ◌++◌, char_at}
use matrix_flare.Prelude.{◌==◌, ltb, if◌then◌else◌}
use matrix_flare.Prelude.Int.{ℤ, pos, negsuc}
use matrix_flare.Prelude.Decimal.{show}
use matrix_flare.Json.{
  Json, null, bool, int, frac, str, arr, obj, Items, nil, cons, Fields, end, field,
}

abbrev one_char : Char → String
one_char c = String.◌∷◌ c String.[]

-- A control character that has no short escape.
abbrev unicode_escape : ℕ → String
unicode_escape n =
    "\\u00"
    ++ (one_char (char_at "0123456789abcdef" (n / 16))
        ++ one_char (char_at "0123456789abcdef" (n % 16)))

abbrev escape : Char → String
escape c =
    if code c == 34
    then "\\\""
    else if code c == 92
    then "\\\\"
    else if code c == 8
    then "\\b"
    else if code c == 9
    then "\\t"
    else if code c == 10
    then "\\n"
    else if code c == 12
    then "\\f"
    else if code c == 13
    then "\\r"
    else if ltb (code c) 32
    then unicode_escape (code c)
    else one_char c

unfoldable pub escape_all : String → String
escape_all String.[] = ""
escape_all (String.◌∷◌ c s) = escape c ++ escape_all s

abbrev pub quote : String → String
quote s = "\"" ++ (escape_all s ++ "\"")

abbrev pub show_int : ℤ → String
show_int (pos n) = show n
show_int (negsuc n) = "-" ++ show (n + 1)

unfoldable mutual
  pub stringify : Json → String
  stringify null = "null"
  stringify (bool b) = if b then "true" else "false"
  stringify (int n) = show_int n
  stringify (frac s) = s
  stringify (str s) = quote s
  stringify (arr xs) = "[" ++ (stringify_items xs ++ "]")
  stringify (obj fs) = "{" ++ (stringify_fields fs ++ "}")

  pub stringify_items : Items → String
  stringify_items nil = ""
  stringify_items (cons v nil) = stringify v
  stringify_items (cons v (cons w ws)) = stringify v ++ ("," ++ stringify_items (cons w ws))

  pub stringify_fields : Fields → String
  stringify_fields end = ""
  stringify_fields (field k v end) = quote k ++ (":" ++ stringify v)
  stringify_fields (field k v (field j w fs)) =
      quote k ++ (":" ++ (stringify v ++ ("," ++ stringify_fields (field j w fs))))
