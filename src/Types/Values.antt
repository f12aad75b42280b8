-- ===== src/Types/Values.antt =====
-- The methods of `BaseValue`, its subclasses and `Balance` in src/types.ts: the exchange of signed
-- decimal values with the contracts, which take a magnitude and a sign.
use perpetual_custom.Base.{ℕ, Bool, not, if◌then◌else◌}
use perpetual_custom.Base.Int.{pos, negsuc}
use perpetual_custom.Base.Text.{Text}
use perpetual_custom.BigNumber.{BigNumber}
use perpetual_custom.Types.{BaseValue, FundingRate, Fee}

abbrev pub base_decimals : ℕ
base_decimals = 18

pub record SignedIntStruct : Type 0 where
  pub value : Text
  pub is_positive : Bool

pub record BalanceStruct : Type 0 where
  pub margin_is_positive : Bool
  pub position_is_positive : Bool
  pub margin : Text
  pub position : Text

pub record Balance (V : Type 0) : Type 0 where
  pub margin : V
  pub position : V

module _ {V : Type 0} ⦃N : BigNumber V⦄ where
  -- `toSolidity`
  unfoldable pub to_solidity : BaseValue V → Text
  to_solidity b = N.to_fixed 0 (N.shifted_by (pos 18) (N.abs b.value))

  unfoldable pub from_solidity : Text → Bool → BaseValue V
  from_solidity solidity_value is_positive =
      let value = N.shifted_by (negsuc 17) (N.of_text solidity_value) in
      record { value = if not is_positive then N.negated value else value }

  unfoldable pub is_positive : BaseValue V → Bool
  is_positive b = not (N.is_negative b.value)

  unfoldable pub is_negative : BaseValue V → Bool
  is_negative b = N.is_negative b.value

  unfoldable pub to_solidity_signed_int : BaseValue V → SignedIntStruct
  unfolding to_solidity is_positive
  to_solidity_signed_int b = record { value = to_solidity b; is_positive = is_positive b }

  unfoldable pub rounded_down : BaseValue V → BaseValue V
  rounded_down b = record { value = N.rounded_down base_decimals b.value }

  unfoldable pub times : BaseValue V → V → BaseValue V
  times b v = record { value = N.times b.value v }

  unfoldable pub div : BaseValue V → V → BaseValue V
  div b v = record { value = N.div b.value v }

  unfoldable pub plus : BaseValue V → V → BaseValue V
  plus b v = record { value = N.plus b.value v }

  unfoldable pub minus : BaseValue V → V → BaseValue V
  minus b v = record { value = N.minus b.value v }

  unfoldable pub abs : BaseValue V → BaseValue V
  abs b = record { value = N.abs b.value }

  unfoldable pub negated : BaseValue V → BaseValue V
  negated b = record { value = N.negated b.value }

  -- `Fee.fromBips`
  unfoldable pub from_bips : V → Fee V
  from_bips v = record { value = N.times (N.literal (pos 1) 4) v }

  -- `FundingRate.fromEightHourRate`
  unfoldable pub from_eight_hour_rate : V → FundingRate V
  from_eight_hour_rate rate = record { value = N.div rate (N.of_ℕ 28800) }

  -- `Balance.fromSolidity`
  unfoldable pub balance_from_solidity : BalanceStruct → Balance V
  balance_from_solidity s =
      let margin = N.of_text s.margin in
      let position = N.of_text s.position in
      record {
        margin = if s.margin_is_positive then margin else N.negated margin;
        position = if s.position_is_positive then position else N.negated position;
      }
