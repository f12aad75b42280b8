-- ===== src/BigNumber/Whole.antt =====
-- An instance of the interface: whole numbers, with unary numerals as their texts. It shows that
-- the laws can hold, and it is what the tests and the witnesses compute with.
use perpetual_custom.Base.{
  ℕ, zero, suc, ◌+◌, ◌-◌, ◌/◌, ◌*◌, ◌^◌, ◌≤◌, ◌<◌, ◌≡◌, refl, ap, ◌↔◌, Bool, true, false, [], ◌∷◌,
  arith, length, replicate, length-replicate, if◌then◌else◌, ◌==◌,
}
use native.Mathlib.Nat.{mul-div_cancel, one-le-pow}
use perpetual_custom.Base.Int.{
  ℤ, pos, negsuc, ◌+ℤ◌, ◌-ℤ◌, ◌*ℤ◌, ◌≤ℤ◌, leb_ℤ, pos_part, neg_part, +ℤ_parts, int_laws, *ℤ_parts,
}
use perpetual_custom.Base.Text.{Text}
use perpetual_custom.BigNumber.{BigNumber}

abbrev pub eq_ℤ : ℤ → ℤ → Bool
eq_ℤ (pos a) (pos b) = a == b
eq_ℤ (negsuc a) (negsuc b) = a == b
eq_ℤ _ _ = false

pub eq_ℤ_iff : (a b : ℤ) → (eq_ℤ a b ≡ true) ↔ (a ≡ b)
eq_ℤ_iff (pos a) (pos b) = ground arith
eq_ℤ_iff (pos a) (negsuc b) = ground arith
eq_ℤ_iff (negsuc a) (pos b) = ground arith
eq_ℤ_iff (negsuc a) (negsuc b) = ground arith

abbrev pub to_unary : ℤ → Text
to_unary (pos n) = replicate n b'1'
to_unary (negsuc n) = b'-' ∷ replicate n b'1'

abbrev pub of_unary : Text → ℤ
of_unary [] = pos 0
of_unary (c ∷ s) = if c == b'-' then negsuc (length s) else pos (suc (length s))

pub of_unary-to_unary : (a : ℤ) → of_unary (to_unary a) ≡ a
of_unary-to_unary (pos zero) = refl
of_unary-to_unary (pos (suc n)) = ap (λ k. pos (suc k)) (length-replicate n b'1')
of_unary-to_unary (negsuc n) = ap negsuc (length-replicate n b'1')

abbrev pub is_negative_ℤ : ℤ → Bool
is_negative_ℤ (pos n) = false
is_negative_ℤ (negsuc n) = true

abbrev pub abs_ℤ : ℤ → ℤ
abs_ℤ (pos n) = pos n
abs_ℤ (negsuc n) = pos (suc n)

-- rounded towards zero
abbrev pub scale_down : ℤ → ℕ → ℤ
scale_down (pos n) d = pos (n / d)
scale_down (negsuc n) d = pos 0 -ℤ pos (suc n / d)

abbrev pub div_ℤ : ℤ → ℤ → ℤ
div_ℤ a (pos b) = scale_down a b
div_ℤ a (negsuc b) = pos 0 -ℤ scale_down a (suc b)

abbrev pub shift_ℤ : ℤ → ℤ → ℤ
shift_ℤ (pos k) a = a *ℤ pos (10 ^ k)
shift_ℤ (negsuc k) a = scale_down a (10 ^ suc k)

abbrev pub power_ℤ : ℤ → ℕ → ℤ
power_ℤ a zero = pos 1
power_ℤ a (suc n) = power_ℤ a n *ℤ a

pub lte_total_ℤ : (a b : ℤ) → leb_ℤ a b ≡ false → leb_ℤ b a ≡ true
lte_total_ℤ a b h = ground arith

pub lte_trans_ℤ : (a b c : ℤ) → leb_ℤ a b ≡ true → leb_ℤ b c ≡ true → leb_ℤ a c ≡ true
lte_trans_ℤ a b c h k = ground arith

pub lte_antisymm_ℤ : (a b : ℤ) → leb_ℤ a b ≡ true → leb_ℤ b a ≡ true → a ≡ b
lte_antisymm_ℤ a b h k = ground arith

pub plus_comm_ℤ : (a b : ℤ) → a +ℤ b ≡ b +ℤ a
plus_comm_ℤ a b = omega int_laws

pub plus_assoc_ℤ : (a b c : ℤ) → a +ℤ b +ℤ c ≡ a +ℤ (b +ℤ c)
plus_assoc_ℤ a b c = omega int_laws

pub plus_zero_ℤ : (a : ℤ) → a +ℤ pos 0 ≡ a
plus_zero_ℤ a = omega int_laws

pub plus-minus_ℤ : (a b : ℤ) → a -ℤ b +ℤ b ≡ a
plus-minus_ℤ a b = omega int_laws

pub plus_mono_ℤ : (a b c : ℤ) → leb_ℤ a b ≡ true → leb_ℤ (a +ℤ c) (b +ℤ c) ≡ true
unfolding ◌+ℤ◌
plus_mono_ℤ a b c h = ground arith

pub times-plus_ℤ : (a b c : ℤ) → (a +ℤ b) *ℤ c ≡ a *ℤ c +ℤ b *ℤ c
times-plus_ℤ a b c = omega (
  int_laws,
  *ℤ_parts (a +ℤ b) c,
  *ℤ_parts a c,
  *ℤ_parts b c,
  ap (λ (t : ℕ). t * pos_part c) (+ℤ_parts a b),
  ap (λ (t : ℕ). t * neg_part c) (+ℤ_parts a b),
)

pub times-zero_ℤ : (c : ℤ) → pos 0 *ℤ c ≡ pos 0
unfolding ◌*ℤ◌
times-zero_ℤ c = ground arith

mul_mono : (n x y : ℕ) → x ≤ y → n * x ≤ n * y
mul_mono n x y h = grind arith

≤ℤ→leb_ℤ : (a b : ℤ) → a ≤ℤ b → leb_ℤ a b ≡ true
≤ℤ→leb_ℤ a b h = ground arith

leb_ℤ→≤ℤ : (a b : ℤ) → leb_ℤ a b ≡ true → a ≤ℤ b
leb_ℤ→≤ℤ a b h = ground arith

pub times_mono_ℤ :
    (a p q : ℤ) → leb_ℤ (pos 0) a ≡ true → leb_ℤ p q ≡ true → leb_ℤ (a *ℤ p) (a *ℤ q) ≡ true
times_mono_ℤ (pos n) p q h k = ≤ℤ→leb_ℤ (pos n *ℤ p) (pos n *ℤ q) (
    omega (
      arith,
      *ℤ_parts (pos n) p,
      *ℤ_parts (pos n) q,
      mul_mono n (pos_part p + neg_part q) (pos_part q + neg_part p) (leb_ℤ→≤ℤ p q k),
    ))
times_mono_ℤ (negsuc n) p q h k = ground arith

pub minimum_left_ℤ : (a b : ℤ) → leb_ℤ a b ≡ true → (if leb_ℤ a b then a else b) ≡ a
minimum_left_ℤ a b h = rw h

pub minimum_right_ℤ : (a b : ℤ) → leb_ℤ b a ≡ true → (if leb_ℤ a b then a else b) ≡ b
minimum_right_ℤ a b h = ground arith

pub maximum_left_ℤ : (a b : ℤ) → leb_ℤ b a ≡ true → (if leb_ℤ b a then a else b) ≡ a
maximum_left_ℤ a b h = rw h

pub maximum_right_ℤ : (a b : ℤ) → leb_ℤ a b ≡ true → (if leb_ℤ b a then a else b) ≡ b
maximum_right_ℤ a b h = ground arith

times_pos : (n d : ℕ) → pos n *ℤ pos d ≡ pos (n * d)
unfolding ◌*ℤ◌
times_pos n d = ground arith

times_negsuc : (n d : ℕ) → 0 < d → negsuc n *ℤ pos d ≡ negsuc (suc n * d - 1)
unfolding ◌*ℤ◌
times_negsuc n d h = ground (arith, mul_mono (suc n) 1 d h)

scale_back : (d : ℕ) (a : ℤ) → 0 < d → scale_down (a *ℤ pos d) d ≡ a
unfolding ◌-ℤ◌
scale_back d (pos n) h = rw (times_pos n d) (ap pos (mul-div_cancel n h))
scale_back d (negsuc n) h =
    let same : suc (suc n * d - 1) ≡ suc n * d = omega (arith, mul_mono (suc n) 1 d h) in
    rw (times_negsuc n d h, same, mul-div_cancel (suc n) h) (ground arith)

pub shifted_back_ℤ : (k : ℕ) (a : ℤ) → shift_ℤ (negsuc k) (shift_ℤ (pos (suc k)) a) ≡ a
shifted_back_ℤ k a = scale_back (10 ^ suc k) a (one-le-pow (suc k) 10 (ground arith))

pub abs_of_nonneg_ℤ : (a : ℤ) → is_negative_ℤ a ≡ false → abs_ℤ a ≡ a
abs_of_nonneg_ℤ (pos n) h = refl
abs_of_nonneg_ℤ (negsuc n) h = absurd (cc h)

pub negated-abs_ℤ : (a : ℤ) → is_negative_ℤ a ≡ true → pos 0 -ℤ abs_ℤ a ≡ a
unfolding ◌-ℤ◌
negated-abs_ℤ (pos n) h = absurd (cc h)
negated-abs_ℤ (negsuc n) h = ground arith

instance abbrev pub whole : BigNumber ℤ
whole = record {
  of_ℕ = pos;
  literal = λ c e. scale_down c (10 ^ e);
  of_text = of_unary;
  to_text = to_unary;
  to_fixed = λ _ a. to_unary a;
  to_hex = to_unary;
  is_integer = λ _. true;
  is_negative = is_negative_ℤ;
  plus = ◌+ℤ◌;
  minus = ◌-ℤ◌;
  times = ◌*ℤ◌;
  div = div_ℤ;
  negated = λ a. pos 0 -ℤ a;
  abs = abs_ℤ;
  shifted_by = shift_ℤ;
  rounded_down = λ _ a. a;
  integer_value = λ a. a;
  pow = power_ℤ;
  minimum = λ a b. if leb_ℤ a b then a else b;
  maximum = λ a b. if leb_ℤ b a then a else b;
  lte = leb_ℤ;
  eq = eq_ℤ;
  eq_iff = eq_ℤ_iff;
  lte_total = lte_total_ℤ;
  lte_trans = lte_trans_ℤ;
  lte_antisymm = lte_antisymm_ℤ;
  plus_comm = plus_comm_ℤ;
  plus_assoc = plus_assoc_ℤ;
  plus_zero = plus_zero_ℤ;
  plus-minus = plus-minus_ℤ;
  plus_mono = plus_mono_ℤ;
  times-plus = times-plus_ℤ;
  times-zero = times-zero_ℤ;
  times_mono = times_mono_ℤ;
  minimum_left = minimum_left_ℤ;
  minimum_right = minimum_right_ℤ;
  maximum_left = maximum_left_ℤ;
  maximum_right = maximum_right_ℤ;
  of_text-to_text = of_unary-to_unary;
  of_text-to_fixed = λ a _. of_unary-to_unary a;
  is_integer-integer_value = λ _. refl;
  shifted_back = shifted_back_ℤ;
  abs_of_nonneg = abs_of_nonneg_ℤ;
  negated-abs = negated-abs_ℤ;
}
