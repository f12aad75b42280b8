-- ===== src/BigNumber.antt =====
-- What the program uses of the package bignumber.js, as an interface. A value `V` is a finite
-- BigNumber; NaN, the infinities and the sign of zero are left out. The methods are named as in
-- the package, and each law is behaviour that its documentation states for finite values: exact
-- `plus`, `minus` and `times`, a total order, texts that read back as the value they print, and shifts of the
-- decimal point that undo each other.
pub mod Laws
pub mod Whole
use perpetual_custom.Base.{ℕ, suc, ◌≡◌, ◌↔◌, Bool, true, false, not, if◌then◌else◌}
use perpetual_custom.Base.Int.{ℤ, pos, negsuc}
use perpetual_custom.Base.Text.{Text}

pub record BigNumber (V : Type 0) : Type 0 where
  -- `new BigNumber(n)`, a literal `c * 10 ^ -e`, `new BigNumber(text)`
  pub of_ℕ : ℕ → V
  pub literal : ℤ → ℕ → V
  pub of_text : Text → V
  -- `toString()`, `toFixed(places)`, `toString(16)`
  pub to_text : V → Text
  pub to_fixed : ℕ → V → Text
  pub to_hex : V → Text
  pub is_integer : V → Bool
  pub is_negative : V → Bool
  pub plus : V → V → V
  pub minus : V → V → V
  pub times : V → V → V
  pub div : V → V → V
  pub negated : V → V
  pub abs : V → V
  -- `shiftedBy(n)` and `decimalPlaces(dp, ROUND_DOWN)`
  pub shifted_by : ℤ → V → V
  pub rounded_down : ℕ → V → V
  -- `integerValue()` and `pow(n)`
  pub integer_value : V → V
  pub pow : V → ℕ → V
  pub minimum : V → V → V
  pub maximum : V → V → V
  pub lte : V → V → Bool
  pub eq : V → V → Bool
  pub eq_iff : (a b : V) → (eq a b ≡ true) ↔ (a ≡ b)
  pub lte_total : (a b : V) → lte a b ≡ false → lte b a ≡ true
  pub lte_trans : (a b c : V) → lte a b ≡ true → lte b c ≡ true → lte a c ≡ true
  pub lte_antisymm : (a b : V) → lte a b ≡ true → lte b a ≡ true → a ≡ b
  pub plus_comm : (a b : V) → plus a b ≡ plus b a
  pub plus_assoc : (a b c : V) → plus (plus a b) c ≡ plus a (plus b c)
  pub plus_zero : (a : V) → plus a (of_ℕ 0) ≡ a
  pub plus-minus : (a b : V) → plus (minus a b) b ≡ a
  pub plus_mono : (a b c : V) → lte a b ≡ true → lte (plus a c) (plus b c) ≡ true
  pub times-plus : (a b c : V) → times (plus a b) c ≡ plus (times a c) (times b c)
  pub times-zero : (c : V) → times (of_ℕ 0) c ≡ of_ℕ 0
  pub times_mono :
      (a p q : V) → lte (of_ℕ 0) a ≡ true → lte p q ≡ true → lte (times a p) (times a q) ≡ true
  pub minimum_left : (a b : V) → lte a b ≡ true → minimum a b ≡ a
  pub minimum_right : (a b : V) → lte b a ≡ true → minimum a b ≡ b
  pub maximum_left : (a b : V) → lte b a ≡ true → maximum a b ≡ a
  pub maximum_right : (a b : V) → lte a b ≡ true → maximum a b ≡ b
  pub of_text-to_text : (a : V) → of_text (to_text a) ≡ a
  pub of_text-to_fixed : (a : V) → is_integer a ≡ true → of_text (to_fixed 0 a) ≡ a
  pub is_integer-integer_value : (a : V) → is_integer (integer_value a) ≡ true
  pub shifted_back : (k : ℕ) (a : V) → shifted_by (negsuc k) (shifted_by (pos (suc k)) a) ≡ a
  pub abs_of_nonneg : (a : V) → is_negative a ≡ false → abs a ≡ a
  pub negated-abs : (a : V) → is_negative a ≡ true → negated (abs a) ≡ a

module _ {V : Type 0} ⦃N : BigNumber V⦄ where
  abbrev pub zero_value : V
  zero_value = N.of_ℕ 0

  -- `isLessThan`, `isGreaterThan`, `isGreaterThanOrEqualTo`
  abbrev pub lt : V → V → Bool
  lt a b = not (N.lte b a)

  abbrev pub gt : V → V → Bool
  gt a b = not (N.lte a b)

  abbrev pub gte : V → V → Bool
  gte a b = N.lte b a

  -- `comparedTo`: 0, -1 or 1
  abbrev pub compared_to : V → V → ℤ
  compared_to a b = if N.eq a b then pos 0 else if N.lte a b then negsuc 0 else pos 1
