-- ===== src/Constants.antt =====
-- src/constants.ts: the intervals, prices, fees and limits of the funding rate.
use perpetual_custom.Base.{ℕ, ◌*◌}
use perpetual_custom.Base.Int.{pos}
use perpetual_custom.BigNumber.{BigNumber}
use perpetual_custom.Types.{Price, Fee, FundingRate}
use perpetual_custom.Types.Values.{from_eight_hour_rate, rounded_down, times, div}
use perpetual_custom.OrderUtils.{one_second_ms}

abbrev pub one_minute_ms : ℕ
one_minute_ms = one_second_ms * 60

abbrev pub ten_minutes_ms : ℕ
ten_minutes_ms = one_minute_ms * 10

module _ {V : Type 0} ⦃N : BigNumber V⦄ where
  abbrev pub one_minute_in_seconds : V
  one_minute_in_seconds = N.of_ℕ 60

  abbrev pub one_hour_in_seconds : V
  one_hour_in_seconds = N.times one_minute_in_seconds (N.of_ℕ 60)

  abbrev pub one_day_in_seconds : V
  one_day_in_seconds = N.times one_hour_in_seconds (N.of_ℕ 24)

  abbrev pub one_year_in_seconds : V
  one_year_in_seconds = N.times one_day_in_seconds (N.of_ℕ 365)

  abbrev pub no_price : Price V
  no_price = record { value = N.of_ℕ 0 }

  abbrev pub price_one : Price V
  price_one = record { value = N.of_ℕ 1 }

  abbrev pub fee_zero : Fee V
  fee_zero = record { value = N.of_ℕ 0 }

  abbrev pub fee_one_bip : Fee V
  fee_one_bip = record { value = N.literal (pos 1) 4 }

  abbrev pub fee_one_percent : Fee V
  fee_one_percent = record { value = N.literal (pos 1) 2 }

  -- 45 minutes
  abbrev pub funding_limit_period : V
  funding_limit_period = N.times one_minute_in_seconds (N.of_ℕ 45)

  unfoldable pub funding_rate_max_abs_value : FundingRate V
  funding_rate_max_abs_value = rounded_down (from_eight_hour_rate (N.literal (pos 75) 4))

  unfoldable pub funding_rate_max_abs_diff_per_second : FundingRate V
  funding_rate_max_abs_diff_per_second =
      rounded_down (div (times funding_rate_max_abs_value (N.of_ℕ 2)) funding_limit_period)
