-- ===== src/Prelude/Results.antt =====
-- What the program throws, and the results of functions that may throw.
use Prim.Native.String.{String}
use mathlib.Core.Path.{◌≡◌, refl}
use mathlib.Core.Logic.{◌⊎◌, inl, inr}
use mathlib.Core.Bool.{Bool, true, false}
use mathlib.Core.Option.{Option, none, some}

-- A thrown value: an internal error envelope by its code, or one of JavaScript's own errors. The
-- messages are left out.
pub data Error : Type 0 where
  internal : String → Error
  type_error range_error syntax_error : Error

-- What a function of the program comes to.
pub data Result {ℓ} (Value : Type ℓ) : Type ℓ where
  throws : (thrown : Error) → Result Value
  ok : (value : Value) → Result Value

-- One statement after another: what the first throws, the whole throws.
infixl 5 ◌>>=◌
abbrev pub ◌>>=◌ {ℓ κ} : {V : Type ℓ} {W : Type κ} → Result V → (V → Result W) → Result W
throws thrown >>= next = throws thrown
ok value >>= next = next value

-- The same, for a first statement that has no value.
infixl 5 ◌>>◌
abbrev pub ◌>>◌ {κ} : {W : Type κ} → Result (Unit {0}) → Result W → Result W
throws thrown >> next = throws thrown
ok done >> next = next

-- `if (test) throw error;`
abbrev pub throw_if : Bool → Error → Result (Unit {0})
throw_if true e = throws e
throw_if false e = ok tt

-- `?? throw`
abbrev pub get_or_throw {ℓ} : {A : Type ℓ} → Option A → Error → Result A
get_or_throw none e = throws e
get_or_throw (some a) e = ok a

abbrev pub is_ok {ℓ} : {A : Type ℓ} → Result A → Bool
is_ok (ok a) = true
is_ok (throws e) = false

pub >>=-eq-ok {ℓ κ} :
    {V : Type ℓ} {W : Type κ} (first : Result V) (next : V → Result W) {last : W}
    → (first >>= next) ≡ ok last
    → (value : V) × (first ≡ ok value) × (next value ≡ ok last)
>>=-eq-ok (throws thrown) next e = cc
>>=-eq-ok (ok value) next e = (value, refl, e)

pub throw_if-eq-ok : (b : Bool) (e : Error) {u : Unit {0}} → throw_if b e ≡ ok u → b ≡ false
throw_if-eq-ok true e h = cc
throw_if-eq-ok false e h = refl

pub Result-cases {ℓ} :
    {A : Type ℓ} (m : Result A) → ((e : Error) × (m ≡ throws e)) ⊎ ((a : A) × (m ≡ ok a))
Result-cases (ok a) = inr (a, refl)
Result-cases (throws e) = inl (e, refl)

pub >>-eq-ok {κ} :
    {W : Type κ} (first : Result (Unit {0})) (next : Result W) {last : W}
    → (first >> next) ≡ ok last
    → (first ≡ ok tt) × (next ≡ ok last)
>>-eq-ok (throws thrown) next e = cc
>>-eq-ok (ok done) next e = (refl, e)

pub ok_inj {ℓ} : {A : Type ℓ} {a b : A} → ok a ≡ ok b → a ≡ b
ok_inj e = cc
