-- ===== src/Types.antt =====
-- src/types.ts, src/errors.ts and src/entities: the data that the other parts exchange. A value of
-- type `V` is a BigNumber; the subclasses `Price`, `Fee` and `FundingRate` add no field.
pub mod Values
pub mod Solidity
use perpetual_custom.Base.{ℕ, Bool, Option, List}
use perpetual_custom.Base.Int.{ℤ}
use perpetual_custom.Base.Text.{Text}

-- `address`, which is a string
abbrev pub Address : Type 0
Address = Text

pub record BaseValue (V : Type 0) : Type 0 where
  pub value : V

abbrev pub Price : Type 0 → Type 0
Price = BaseValue

abbrev pub Fee : Type 0 → Type 0
Fee = BaseValue

abbrev pub FundingRate : Type 0 → Type 0
FundingRate = BaseValue

pub data OrderStatus : Type 0 where
  null approved canceled : OrderStatus

pub record Order (V : Type 0) : Type 0 where
  pub is_buy : Bool
  pub is_decrease_only : Bool
  pub amount : V
  pub limit_price : Price V
  pub trigger_price : Price V
  pub limit_fee : Fee V
  pub maker : Address
  pub taker : Address
  pub expiration : V
  pub salt : V

pub record SignedOrder (V : Type 0) : Type 0 where
  pub order : Order V
  pub open order use *
  pub typed_signature : Text

-- `createdAt` is optional in the type, and given by all code.
pub record SraOrderMetaData (V : Type 0) : Type 0 where
  pub order_hash : Text
  pub filled_amount : V
  pub created_at : Text
  pub state : OrderStatus

pub record SraOrder (V : Type 0) : Type 0 where
  pub order : SignedOrder V
  pub meta_data : SraOrderMetaData V

pub record OrderState (V : Type 0) : Type 0 where
  pub status : OrderStatus
  pub filled_amount : V

pub record Index (V : Type 0) : Type 0 where
  pub timestamp : V
  pub base_value : BaseValue V

pub record FundingRateBounds (V : Type 0) : Type 0 where
  pub max_abs_value : FundingRate V
  pub max_abs_diff_per_second : FundingRate V

-- What the route of the markets tells of one.
pub record ApiMarketMessage : Type 0 where
  pub created_at : Text
  pub updated_at : Text
  pub market : Text
  pub oracle_price : Text
  pub funding_rate : Text
  pub global_index_value : Text
  pub global_index_time_stamp : Text

pub record PaginatedCollection (A : Type 0) : Type 0 where
  pub total : ℕ
  pub page : ℤ
  pub per_page : ℤ
  pub records : List A

pub record OrderbookResponse (V : Type 0) : Type 0 where
  pub bids : PaginatedCollection (SraOrder V)
  pub asks : PaginatedCollection (SraOrder V)

-- A row of `signed_orders`; the numbers are stored as texts.
pub record SignedOrderEntity : Type 0 where
  pub hash : Text
  pub limit_fee : Text
  pub limit_price : Text
  pub trigger_price : Text
  pub expiration : Text
  pub amount : Text
  pub is_buy : Bool
  pub is_decrease_only : Bool
  pub salt : Text
  pub typed_signature : Text
  pub maker : Address
  pub created_at : Text
  pub filled_amount : Text
  pub order_state : OrderStatus
  pub taker : Address

-- A row of `trade_history`, less its generated key.
pub record TradeHistoryEntity : Type 0 where
  pub hash : Text
  pub taker : Address
  pub maker : Address
  pub amount : Text
  pub price : Text
  pub timestamp : Text
  pub is_buy : Bool
  pub block_number : ℕ

pub record TradeHistory (V : Type 0) : Type 0 where
  pub hash : Text
  pub taker : Address
  pub maker : Address
  pub price : Price V
  pub amount : V
  pub timestamp : V
  pub block_number : ℕ

pub record TradeArg : Type 0 where
  pub maker_index : ℤ
  pub taker_index : ℤ
  pub trader : Address
  pub payload : Text

pub record ApiBalance : Type 0 where
  pub margin : Text
  pub position : Text
  pub index_value : Text
  pub index_timestamp : Text

-- `balances` holds one entry, under the name of the market.
pub record ApiAccount : Type 0 where
  pub owner : Text
  pub market : Text
  pub balance : ApiBalance

-- What the server's code throws, by its message, and what the packages that it calls throw.
pub data Error : Type 0 where
  not_found : Error
  already_committed : Error
  no_trades : Error
  not_an_integer : Error
  invalid_signature_type : ℕ → Error
  invalid_raw_signature : Text → Error
  invalid_v : Text → Error
  invalid_signing_method : Error
  per_page_too_large : Error
  ask_prices_mismatch bid_prices_mismatch index_prices_mismatch : Error
  non_array_data : Error
  account_undefined password_undefined : Error
  -- the errors of `assertEnvVarType`, by the name of the variable or the key
  port_out_of_range not_a_valid_integer not_a_valid_amount not_supplied : Text → Error
  not_a_uuid unrecognised_type : Text → Error
  -- "market: ... is invalid" and "side: ... is invalid"
  invalid_market invalid_side : Text → Error
  -- "Cannot find ..."
  no_address : Text → Error
  type_error not_implemented malformed_json : Error
  external : Text → Error
