-- ===== src/Hex/Laws.antt =====
-- Lengths and round trips of the hexadecimal helpers.
use perpetual_custom.Base.{
  ℕ, zero, suc, ◌≡◌, refl, ap, ◌∙◌, false, List, [], ◌∷◌, ◌++◌, arith, length, take, drop,
  length-append, ◌==◌, All,
}
use perpetual_custom.Base.Text.{Text, codes}
use perpetual_custom.Hex.{last_units, without_last_units, strip_hex_prefix}

-- A text with no `x`, as the digits behind a prefix are.
abbrev pub NoX : Text → Type 0
NoX = All (λ c. (c == b'x') ≡ false)

pub strip_hex_prefix-prefixed : (s : Text) → strip_hex_prefix (codes "0x" ++ s) ≡ s
unfolding strip_hex_prefix
strip_hex_prefix-prefixed s = refl

pub strip_hex_prefix-NoX : (s : Text) → NoX s → strip_hex_prefix s ≡ s
unfolding strip_hex_prefix
strip_hex_prefix-NoX [] h = refl
strip_hex_prefix-NoX (a ∷ []) h = ground arith
strip_hex_prefix-NoX (a ∷ b ∷ s) h = ground arith

pub drop-append_length {ℓ} : {A : Type ℓ} (xs ys : List A) → drop (length xs) (xs ++ ys) ≡ ys
drop-append_length [] ys = refl
drop-append_length (x ∷ xs) ys = drop-append_length xs ys

pub take-append_length {ℓ} : {A : Type ℓ} (xs ys : List A) → take (length xs) (xs ++ ys) ≡ xs
take-append_length [] ys = refl
take-append_length (x ∷ xs) ys = ap (◌∷◌ x) (take-append_length xs ys)

-- The two halves of a text split before its last units.
pub last_units-append : (s t : Text) → last_units (length t) (s ++ t) ≡ t
unfolding last_units
last_units-append s t =
    ap (λ n. drop n (s ++ t)) (omega (arith, length-append s t)) ∙ drop-append_length s t

pub without_last_units-append : (s t : Text) → without_last_units (length t) (s ++ t) ≡ s
unfolding without_last_units
without_last_units-append s t =
    ap (λ n. take n (s ++ t)) (omega (arith, length-append s t)) ∙ take-append_length s t

pub NoX-take : (n : ℕ) (s : Text) → NoX s → NoX (take n s)
NoX-take zero s h = tt
NoX-take (suc n) [] h = tt
NoX-take (suc n) (c ∷ s) h = (h.0, NoX-take n s h.1)

pub NoX-drop : (n : ℕ) (s : Text) → NoX s → NoX (drop n s)
NoX-drop zero s h = h
NoX-drop (suc n) [] h = tt
NoX-drop (suc n) (c ∷ s) h = NoX-drop n s h.1
