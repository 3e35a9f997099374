-- ===== src/Prelude/Decimal.antt =====
-- Decimal numerals, as JavaScript prints and reads numbers that are integers.
use Prim.Native.Nat.{ℕ, zero, suc, ◌+◌, ◌-◌, ◌*◌, ◌/◌, ◌%◌, ◌≤◌}
use Prim.Native.Char.{Char, code}
use Prim.Native.String.{String, char_at}
use mathlib.Core.Path.{◌≡◌, refl, ◌∙◌, ap}
use mathlib.Core.Logic.{inl, inr}
use mathlib.Core.Bool.{Bool, ◌&&◌}
use mathlib.Core.Option.{Option, none, some}
use native.Mathlib.Omega.{arith}
use matrix_flare.Prelude.Tests.{ltb, leb, if◌then◌else◌, Bool-cases}

unfoldable pub digit : ℕ → Char
digit n = char_at "0123456789" n

-- The numeral of a number in front of a text; the fuel bounds the number of digits.
unfoldable pub print_digits : ℕ → ℕ → String → String
unfolding digit
print_digits zero n text = String.◌∷◌ (digit (n % 10)) text
print_digits (suc fuel) n text =
    let rest = print_digits fuel (n / 10) (String.◌∷◌ (digit (n % 10)) text) in
    if ltb n 10 then String.◌∷◌ (digit (n % 10)) text else rest

-- `String(n)`: a number has fewer digits than its value, or one
unfoldable pub show : ℕ → String
show n = print_digits n n ""

abbrev pub is_digit : Char → Bool
is_digit c = leb b'0' (code c) && leb (code c) b'9'

-- The value of a text of digits, behind digits that have been read.
unfoldable pub read_digits : ℕ → String → Option ℕ
read_digits n String.[] = some n
read_digits n (String.◌∷◌ c s) =
    let rest = read_digits (n * 10 + (code c - b'0')) s in if is_digit c then rest else none

code-digit : (n : ℕ) → n ≤ 9 → code (digit n) ≡ n + 48
unfolding digit
code-digit zero h = refl
code-digit (suc zero) h = refl
code-digit (suc (suc zero)) h = refl
code-digit (suc (suc (suc zero))) h = refl
code-digit (suc (suc (suc (suc zero)))) h = refl
code-digit (suc (suc (suc (suc (suc zero))))) h = refl
code-digit (suc (suc (suc (suc (suc (suc zero)))))) h = refl
code-digit (suc (suc (suc (suc (suc (suc (suc zero))))))) h = refl
code-digit (suc (suc (suc (suc (suc (suc (suc (suc zero)))))))) h = refl
code-digit (suc (suc (suc (suc (suc (suc (suc (suc (suc zero))))))))) h = refl
code-digit (suc (suc (suc (suc (suc (suc (suc (suc (suc (suc n)))))))))) h = omega arith

read_digits-digit :
    (m n : ℕ) (text : String)
    → n ≤ 9
    → read_digits m (String.◌∷◌ (digit n) text) ≡ read_digits (m * 10 + n) text
unfolding read_digits
read_digits-digit m n text h = let e = code-digit n h in ground arith

-- Reading what was printed gives the number, for as much fuel as the number is large.
pub read_digits-print_digits :
    (fuel n : ℕ) (text : String)
    → n ≤ fuel
    → read_digits 0 (print_digits fuel n text) ≡ read_digits n text
unfolding print_digits
read_digits-print_digits zero n text h =
    read_digits-digit 0 (n % 10) text (omega arith) ∙ ap (λ m. read_digits m text) (omega arith)
read_digits-print_digits (suc fuel) n text h =
    let step = read_digits-digit (n / 10) (n % 10) text (omega arith) in
    let more =
      read_digits-print_digits fuel (n / 10) (String.◌∷◌ (digit (n % 10)) text) (omega arith) in
    let whole : n / 10 * 10 + n % 10 ≡ n = omega arith in
    elim (Bool-cases (ltb n 10)) [
      | inl e ↦
          let small : 0 * 10 + n % 10 ≡ n = ground arith in
          rw e
            (read_digits-digit 0 (n % 10) text (omega arith) ∙ ap (λ m. read_digits m text) small)
      | inr e ↦ rw e (more ∙ step ∙ ap (λ m. read_digits m text) whole)
    ]

-- `parseInt` gives back the number that `String` printed.
pub read_digits-show : (n : ℕ) → read_digits 0 (show n) ≡ some n
unfolding show read_digits
read_digits-show n = read_digits-print_digits n n "" (omega arith)
