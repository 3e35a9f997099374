-- ===== src/Room/Cursor.antt =====
-- Room-domain.mjs: the cursors of a room's events.
use Prim.Native.String.{◌++◌ as append}
use Prim.Native.Char.{code}
use text.Mathlib.Text.{starts_with}
use text.Mathlib.TextLemmas.{cons-append, nil-append}
use text.Mathlib.TextPositions.{starts_with-append}
use matrix_flare.Prelude.{
  ℕ, zero, suc, ltb, ◌/◌, ◌*◌, ◌+◌, ◌-◌, String, Bool, true, false, not, ◌&&◌, Option, none, some,
  if◌then◌else◌, is_empty, is_space, trim, trim_end, drop_first, ◌≡◌, refl, ap, ◌∙◌, subst, inl,
  inr, arith, Bool-cases, Result, ok, throws, ◌>>=◌, type_error, leb,
}
use matrix_flare.Prelude.Int.{ℤ, pos}
use matrix_flare.Prelude.Decimal.{show, print_digits, is_digit, read_digits, read_digits-show}
use matrix_flare.Json.Print.{show_int}
use matrix_flare.Json.{Json, null, int, str, normalize_integer, normalize_text}

-- `rp:${position}`
abbrev with_prefix : ℤ → String
with_prefix n = String.◌∷◌ "r" (String.◌∷◌ "p" (String.◌∷◌ ":" (show_int n)))

unfoldable pub encode_room_cursor : Option Json → Result String
encode_room_cursor room_pos = do n ← normalize_integer room_pos (pos 0); ok (with_prefix n)

-- The digits of `/^rp:(\d+)$/`, with the number that they make
abbrev position_in : String → Option ℕ
position_in text =
    if starts_with text "rp:" && not (is_empty (drop_first (drop_first (drop_first text))))
    then read_digits 0 (drop_first (drop_first (drop_first text)))
    else none

abbrev found_position : Option ℕ → Result (Option ℕ)
found_position none = throws type_error
found_position (some n) = ok (some n)

-- `decodeRoomCursor`, by whether `null` is allowed
unfoldable pub decode_room_cursor : Bool → Option Json → Result (Option ℕ)
decode_room_cursor allow_null none = if allow_null then ok none else throws type_error
decode_room_cursor allow_null (some null) = if allow_null then ok none else throws type_error
decode_room_cursor allow_null (some (str text)) =
    if is_empty text
    then (if allow_null then ok none else throws type_error)
    else (normalize_text text >>= (λ normalized. found_position (position_in normalized)))
decode_room_cursor allow_null (some value) = throws type_error

-- A text that reads as a number has no white space at its end, and is not empty.
trim_end-digits : (n : ℕ) (s : String) (k : ℕ) → read_digits n s ≡ some k → trim_end s ≡ s
unfolding read_digits
trim_end-digits n String.[] k h = refl
trim_end-digits n (String.◌∷◌ c s) k h = elim (Bool-cases (is_digit c)) [
  | inl t ↦
      let rest : read_digits (n * 10 + (code c - b'0')) s ≡ some k = rw (read_digits, t) at h in
      let ih = trim_end-digits (n * 10 + (code c - b'0')) s k rest in
      let solid : is_space (code c) ≡ false = ground arith in rw solid (ap (String.◌∷◌ c) ih)
  | inr f ↦ let bad : ◌≡◌ {A = Option ℕ} none (some k) = rw (read_digits, f) at h in cc
]

nonempty-print_digits : (fuel n : ℕ) (text : String) → is_empty (print_digits fuel n text) ≡ false
unfolding print_digits
nonempty-print_digits zero n text = refl
nonempty-print_digits (suc fuel) n text = elim (Bool-cases (ltb n 10)) [
  | inl e ↦ rw e refl
  | inr e ↦ rw e (nonempty-print_digits fuel (n / 10) _)
]

show-nonempty : (n : ℕ) → is_empty (show n) ≡ false
unfolding show
show-nonempty n = nonempty-print_digits n n ""

prefixed :
    (s : String) → starts_with (String.◌∷◌ "r" (String.◌∷◌ "p" (String.◌∷◌ ":" s))) "rp:" ≡ true
prefixed s =
    let shape : append "rp:" s ≡ String.◌∷◌ "r" (String.◌∷◌ "p" (String.◌∷◌ ":" s)) =
      cons-append "r" "p:" s
      ∙ ap (String.◌∷◌ "r") (
          cons-append "p" ":" s
          ∙ ap (String.◌∷◌ "p") (cons-append ":" "" s ∙ ap (String.◌∷◌ ":") (nil-append s))) in
    subst (λ text. starts_with text "rp:" ≡ true) shape (starts_with-append "rp:" s)

-- The cursor of a position is read as that position.
pub decode_room_cursor-encode_room_cursor :
    (n : ℕ) (allow_null : Bool)
    → (encode_room_cursor (some (int (pos n)))
        >>= (λ cursor. decode_room_cursor allow_null (some (str cursor))))
      ≡ ok (some n)
unfolding encode_room_cursor decode_room_cursor normalize_integer normalize_text trim
decode_room_cursor-encode_room_cursor n allow_null =
    let digits = trim_end-digits 0 (show n) n (read_digits-show n) in
    let natural : leb 0 (n + 0) ≡ true = ground arith in
    rw (natural, digits, prefixed (show n), show-nonempty n, read_digits-show n) refl
