-- ===== src/Readings/Laws.antt =====
-- About the funding oracle's simulation of a new rate.
use perpetual_custom.Base.{◌≡◌, ap, ok}
use perpetual_custom.BigNumber.{BigNumber}
use perpetual_custom.Types.{Address, FundingRate}
use perpetual_custom.Types.Values.{to_solidity_signed_int}
use perpetual_custom.Types.Solidity.{IsRepresentable, from_solidity-to_solidity_signed_int}
use perpetual_custom.Readings.{Perpetual, get_bounded_funding_rate}

module _ {V : Type 0} ⦃N : BigNumber V⦄ where
  -- If the contract accepts a funding rate of at most 18 decimals as it is, then the simulation of
  -- setting it returns that rate: it survives the way to the contract, as a magnitude and a sign, and
  -- back.
  pub get_bounded_funding_rate-accepted :
      (P : Perpetual) (rate : FundingRate V) (provider : Address)
      → IsRepresentable rate
      → P.call_set_funding_rate provider (to_solidity_signed_int rate)
        ≡ ok (to_solidity_signed_int rate)
      → get_bounded_funding_rate P rate provider ≡ ok rate
  unfolding get_bounded_funding_rate
  get_bounded_funding_rate-accepted P rate provider h accepted =
      rw accepted (ap ok (from_solidity-to_solidity_signed_int rate h))
