-- ===== src/ControlPlane/Trims.antt =====
-- A text that has been trimmed stays as it is, also behind other text.
use Prim.Native.String.{◌++◌ as append}
use Prim.Native.Char.{Char, code}
use text.Mathlib.TextLemmas.{cons-append, nil-append, tail-eq_of_cons-eq}
use matrix_flare.Prelude.{
  String, Bool, false, ◌&&◌, is_empty, is_space, trim, trim_start, trim_end, ◌≡◌, refl, sym, ap,
  ◌∙◌, subst, inl, inr, arith, Bool-cases,
}

and_false : (b : Bool) → (b && false) ≡ false
and_false b = ground arith

pub trim_end_again : (s : String) → trim_end (trim_end s) ≡ trim_end s
trim_end_again String.[] = refl
trim_end_again (String.◌∷◌ c s) = elim (Bool-cases (is_space (code c) && is_empty (trim_end s))) [
  | inl t ↦ rw t refl
  | inr f ↦
      let ih = trim_end_again s in
      let f' : (is_space (code c) && is_empty (trim_end (trim_end s))) ≡ false = rw ih f in
      rw (f, f') (ap (String.◌∷◌ c) ih)
]

-- Without white space at its end a text has none there when its start is trimmed, either.
trim_end-cons :
    (c : Char) (s : String) → trim_end (String.◌∷◌ c s) ≡ String.◌∷◌ c s → trim_end s ≡ s
trim_end-cons c s h = elim (Bool-cases (is_space (code c) && is_empty (trim_end s))) [
  | inl t ↦ let bad = rw (trim_end, t) at h in cc
  | inr f ↦ tail-eq_of_cons-eq (rw (trim_end, f) at h)
]

trim_end-trim_start : (s : String) → trim_end s ≡ s → trim_end (trim_start s) ≡ trim_start s
trim_end-trim_start String.[] h = refl
trim_end-trim_start (String.◌∷◌ c s) h = elim (Bool-cases (is_space (code c))) [
  | inl t ↦ rw t (trim_end-trim_start s (trim_end-cons c s h))
  | inr f ↦ rw f h
]

pub trim_end-trim : (s : String) → trim_end (trim s) ≡ trim s
unfolding trim
trim_end-trim s = trim_end-trim_start (trim_end s) (trim_end_again s)

-- A kind in front of a colon and a text without white space at its end is left as it is.
trim_end_solid :
    (c : Char) (s : String)
    → trim_end s ≡ s
    → is_empty s ≡ false
    → trim_end (String.◌∷◌ c s) ≡ String.◌∷◌ c s
trim_end_solid c s h ne =
    let more : is_empty (trim_end s) ≡ false = ap is_empty h ∙ ne in
    let flag : (is_space (code c) && is_empty (trim_end s)) ≡ false =
      rw more (and_false (is_space (code c))) in
    rw flag (ap (String.◌∷◌ c) h)

pub is_empty-append : (k id : String) → is_empty id ≡ false → is_empty (append k id) ≡ false
is_empty-append String.[] id ne = ap is_empty (nil-append id) ∙ ne
is_empty-append (String.◌∷◌ c k) id ne = ap is_empty (cons-append c k id)

pub trim_end-append :
    (k id : String) → trim_end id ≡ id → is_empty id ≡ false → trim_end (append k id) ≡ append k id
trim_end-append String.[] id h ne = ap trim_end (nil-append id) ∙ h ∙ sym (nil-append id)
trim_end-append (String.◌∷◌ c k) id h ne =
    subst (λ t. trim_end t ≡ t) (sym (cons-append c k id))
      (trim_end_solid c (append k id) (trim_end-append k id h ne) (is_empty-append k id ne))

trim_start_again : (s : String) → trim_start (trim_start s) ≡ trim_start s
trim_start_again String.[] = refl
trim_start_again (String.◌∷◌ c s) = elim (Bool-cases (is_space (code c))) [
  | inl t ↦ rw t (trim_start_again s)
  | inr f ↦ rw (f, f) refl
]

pub trim_again : (s : String) → trim (trim s) ≡ trim s
unfolding trim
trim_again s = ap trim_start (trim_end-trim s) ∙ trim_start_again (trim_end s)
