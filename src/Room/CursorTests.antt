-- ===== src/Room/CursorTests.antt =====
-- A cursor, printed and read.
use matrix_flare.Prelude.{true, some, ◌≡◌, refl, ok, ◌>>=◌, throws, type_error, trim}
use matrix_flare.Prelude.Int.{pos}
use matrix_flare.Prelude.Decimal.{show, print_digits, digit, read_digits}
use matrix_flare.Json.{str, int, normalize_text, normalize_integer}
use matrix_flare.Room.Cursor.{
  encode_room_cursor, decode_room_cursor, decode_room_cursor-encode_room_cursor,
}

cursor_code : Unit {0}
unfolding trim show print_digits digit read_digits normalize_text normalize_integer
    encode_room_cursor decode_room_cursor
cursor_code = tt

encode_17 : encode_room_cursor (some (int (pos 17))) ≡ ok "rp:17"
unfolding cursor_code
encode_17 = refl

no_digits : decode_room_cursor true (some (str "rp:")) ≡ throws type_error
unfolding cursor_code
no_digits = refl

decode_room_cursor-encode_room_cursor_example :
    (encode_room_cursor (some (int (pos 17)))
      >>= (λ cursor. decode_room_cursor true (some (str cursor))))
    ≡ ok (some 17)
decode_room_cursor-encode_room_cursor_example = decode_room_cursor-encode_room_cursor 17 true
