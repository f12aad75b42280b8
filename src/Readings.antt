-- ===== src/Readings.antt =====
-- What the server reads from the contracts and sends to them: src/funding_oracle.ts, src/getters.ts,
-- src/price_oracle.ts, the calls of src/orders.ts and src/liquidation.ts, getAccountBalance of
-- src/perpetual.ts, src/services/account_service.ts with its handler, and getMarkets of
-- src/services/orderbook_service.ts. The contracts' answers are parameters.
pub mod Laws
use perpetual_custom.Base.{
  ℕ, Bool, true, not, List, [], ◌∷◌, map, if◌then◌else◌, Result, ok, err, ◌>>=◌,
}
use perpetual_custom.Base.Text.{Text, codes}
use perpetual_custom.BigNumber.{BigNumber}
use perpetual_custom.Types.{
  Address, BaseValue, Price, FundingRate, FundingRateBounds, Index, Order, OrderState, OrderStatus,
  ApiMarketMessage, Error, account_undefined,
}
use perpetual_custom.Types.Values.{
  SignedIntStruct, BalanceStruct, Balance, from_solidity, to_solidity, is_negative,
  to_solidity_signed_int, balance_from_solidity,
}
use perpetual_custom.Ethers.{Ethers, Contracts}
use perpetual_custom.Hex.{bn_to_bytes32}
use perpetual_custom.Orders.{SolidityOrder, get_order_hash, order_to_solidity}
use perpetual_custom.TradeOperation.{make_liquidate_trade_data}
use perpetual_custom.Market.{get_index_price}
use perpetual_custom.Handlers.{SolidityIndex, signed_value}
use perpetual_custom.Api.{BigNumberable, number, to_big_number}

-- The methods of the contracts, with what they answer or throw. A method that sends a transaction
-- names the account that signs it, and answers with the transaction.
pub record Perpetual : Type 0 where
  pub get_funding_of : Text → Result Error (Bool × Text)
  pub call_set_funding_rate : Address → SignedIntStruct → Result Error SignedIntStruct
  pub send_set_funding_rate : Address → SignedIntStruct → Result Error Text
  pub max_abs_value : Result Error Text
  pub max_abs_diff_per_second : Result Error Text
  pub index_of_account : Address → Result Error SolidityIndex
  pub global_index : Result Error SolidityIndex
  pub price_for : Address → Result Error Text
  pub orders_status : List Text → Result Error (List (OrderStatus × Text))
  pub send_approve_order : Address → SolidityOrder → Result Error Text
  pub send_cancel_order : Address → SolidityOrder → Result Error Text
  pub liquidate_with :
      Address → Address → Address → Address → Text → Text → Text → Result Error Text
  pub balance_of : Address → Result Error BalanceStruct
  pub send_mint : Address → Address → Text → Result Error Text

-- `PriceOracle.getPrice`, asked for by the proxy
abbrev pub get_price : Perpetual → Contracts → Result Error Text
get_price P c = P.price_for c.perpetual_proxy

module _ {V : Type 0} ⦃N : BigNumber V⦄ where
  -- `BaseValue.fromSolidity(value.toString(), isPositive)`
  unfoldable pub solidity_index_to_index : SolidityIndex → Index V
  solidity_index_to_index s = record {
    timestamp = N.of_text s.timestamp;
    base_value = from_solidity s.value s.is_positive;
  }

  unfoldable pub stated : OrderStatus × Text → OrderState V
  stated (status, filled_amount) = record {
    status = status;
    filled_amount = N.of_text filled_amount;
  }

  unfoldable pub order_hashes : Ethers → Contracts → List (Order V) → Result Error (List Text)
  order_hashes E c [] = ok []
  order_hashes E c (o ∷ os) = do
    hash ← get_order_hash E c o
    hashes ← order_hashes E c os
    ok (hash ∷ hashes)

module _ {V : Type 0} ⦃N : BigNumber V⦄ (P : Perpetual) where
  unfoldable pub get_funding : BigNumberable V → Result Error (BaseValue V)
  get_funding time_delta_seconds = do
    (positive, funding) ← P.get_funding_of (N.to_fixed 0 (to_big_number time_delta_seconds))
    ok (from_solidity funding positive)

  -- `FundingOracle.getFundingRate`, over one second
  unfoldable pub current_funding_rate : Result Error (FundingRate V)
  current_funding_rate = get_funding (number (N.of_ℕ 1))

  unfoldable pub set_funding : BaseValue V → Address → Result Error Text
  set_funding new_funding funding_rate_provider =
      P.send_set_funding_rate funding_rate_provider
        (record { is_positive = not (is_negative new_funding); value = to_solidity new_funding })

  unfoldable pub get_bounds : Result Error (FundingRateBounds V)
  get_bounds = do
    max_abs_value ← P.max_abs_value
    max_abs_diff_per_second ← P.max_abs_diff_per_second
    ok (record {
      max_abs_value = from_solidity max_abs_value true;
      max_abs_diff_per_second = from_solidity max_abs_diff_per_second true;
    })

  unfoldable pub get_bounded_funding_rate : FundingRate V → Address → Result Error (FundingRate V)
  get_bounded_funding_rate funding_rate funding_rate_provider = do
    result ← P.call_set_funding_rate funding_rate_provider (to_solidity_signed_int funding_rate)
    ok (from_solidity result.value result.is_positive)

  unfoldable pub get_account_index : Address → Result Error (Index V)
  get_account_index account = do
    result ← P.index_of_account account
    ok (solidity_index_to_index result)

  unfoldable pub get_global_index : Result Error (Index V)
  get_global_index = do result ← P.global_index; ok (solidity_index_to_index result)

  unfoldable pub get_account_balance : Address → Result Error (Balance V)
  get_account_balance account = do
    balance ← P.balance_of account
    ok (balance_from_solidity balance)

  unfoldable pub get_orders_status :
      Ethers → Contracts → List (Order V) → Result Error (List (OrderState V))
  get_orders_status E c orders = do
    hashes ← order_hashes E c orders
    states ← P.orders_status hashes
    ok (map stated states)

  unfoldable pub approve_order : Order V → Address → Result Error Text
  approve_order o signer = do
    stringified_order ← order_to_solidity o
    P.send_approve_order signer stringified_order

  -- `Orders.cancelOrder`
  unfoldable pub cancel_order_on_chain : Order V → Address → Result Error Text
  cancel_order_on_chain o signer = do
    stringified_order ← order_to_solidity o
    P.send_cancel_order signer stringified_order

  -- `Liquidation.trade`
  unfoldable pub liquidation_trade :
      Address → Address → Address → Price V → V → Bool → Bool → V → Result Error Text
  liquidation_trade sender maker taker price amount is_buy all_or_nothing trader_flags = do
    data_of_trade ← make_liquidate_trade_data amount is_buy all_or_nothing
    flags ← bn_to_bytes32 trader_flags
    P.liquidate_with sender sender maker taker (to_solidity price) data_of_trade flags

  -- `AccountService.drop`
  unfoldable pub drop : Address → Address → V → Result Error Text
  drop deployer account amount = P.send_mint deployer account (N.to_fixed 0 amount)

-- `AccountHandler.drop`, which wants an account that is not empty
unfoldable pub drop_handler :
    (V : Type 0) ⦃N : BigNumber V⦄ → Perpetual → Address → Text → Text → Result Error ℕ
drop_handler V P deployer [] amount = err account_undefined
drop_handler V ⦃N⦄ P deployer (c ∷ account) amount = do
  transaction ← drop P deployer (c ∷ account) (N.of_text amount)
  ok 200

-- `OrderBookService.getMarkets`
unfoldable pub get_markets :
    (V : Type 0) ⦃N : BigNumber V⦄ → Perpetual → Contracts → Result Error (List ApiMarketMessage)
get_markets V ⦃N⦄ P c = do
  price ← get_price P c
  let index_price : V = get_index_price price
  funding_rate ← current_funding_rate P
  global ← P.global_index
  ok (
      record {
        created_at = codes "0";
        updated_at = codes "0";
        market = c.market;
        oracle_price = N.to_text index_price;
        funding_rate = N.to_text funding_rate.value;
        global_index_value = N.to_text (signed_value {V = V} global.is_positive global.value);
        global_index_time_stamp = global.timestamp;
      }
      ∷ [])
