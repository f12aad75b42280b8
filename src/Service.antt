-- ===== src/Service.antt =====
-- `OrderBookService` of src/services/orderbook_service.ts and the events of src/events.ts: the calls
-- that change the table of orders, the trade history or the event stream. Saves to the database
-- and the listeners of events do not throw in the model, so nothing fails once a transaction is
-- confirmed, and a call runs without another one in between.
pub mod Fulfil
pub mod Effects
pub mod Writes
pub mod Total
pub mod Progress
use perpetual_custom.Base.{
  ℕ, ◌+◌, ◌≡◌, Bool, true, false, not, ◌&&◌, List, [], ◌∷◌, ◌++◌, map, Option, none, some,
  if◌then◌else◌, Result, ok, err, ◌>>=◌,
}
use perpetual_custom.Base.Text.{Text, codes}
use perpetual_custom.BigNumber.{BigNumber, gt}
use perpetual_custom.Types.{
  Address, BaseValue, Price, SignedOrder, SraOrder, SraOrderMetaData, SignedOrderEntity,
  TradeHistoryEntity, TradeHistory, ApiAccount, OrderStatus, Error, type_error, external,
}
use perpetual_custom.Ethers.{Ethers, Contracts, Wallet, TxReceipt}
use perpetual_custom.OrderUtils.{serialize_order, deserialize_order_to_sra_order, now_seconds}
use perpetual_custom.Store.{OrderStore}
use perpetual_custom.Orders.{get_order_hash}
use perpetual_custom.TradeOperation.{TradeOperation, commit}
use perpetual_custom.Matching.{
  MatchState, HistoryArg, null_address, matching_orders, best_first, match_loop, match_start,
}

-- What the service is built with: the packages, the configuration and the operator's account.
pub record Env : Type 0 where
  pub ethers : Ethers
  pub contracts : Contracts
  pub wallet : Wallet
  pub operator : Address
  pub expiration_buffer : ℕ

pub data Event (V : Type 0) : Type 0 where
  order_event : SraOrder V → Event V
  trade_record : TradeHistory V → Event V
  account_state : ApiAccount → Event V

-- What the calls of the service share: the two tables and the events emitted so far.
pub record World (V Db : Type 0) : Type 0 where
  pub orders : Db
  pub history : List TradeHistoryEntity
  pub events : List (Event V)

pub record Fulfilment (V : Type 0) : Type 0 where
  pub filled_amount : V
  pub is_fullfilled : Bool

-- How the driver reports that no row has the hash.
pub data Found : Type 0 where
  undefined_row null_row : Found
  found : SignedOrderEntity → Found

-- A new row of the trade history, for one element of `tradesHistoryArgs`.
abbrev pub history_entity : TxReceipt → Text → HistoryArg → TradeHistoryEntity
history_entity receipt timestamp arg = record {
  hash = receipt.transaction_hash;
  taker = arg.taker;
  maker = arg.maker;
  amount = arg.amount;
  price = arg.price;
  timestamp = timestamp;
  is_buy = arg.is_buy;
  block_number = receipt.block_number;
}

-- What the driver answers to a deletion by an empty list.
abbrev pub empty_criteria : Error
empty_criteria = external (codes "Empty criteria(s) are not allowed for the delete method.")

module _ {Db : Type 0} ⦃S : OrderStore Db⦄ where
  -- `updatedOrders.map(o => manager.save(o))`
  unfoldable pub save_all : List SignedOrderEntity → Db → Db
  save_all [] db = db
  save_all (e ∷ es) db = save_all es (S.save e db)

-- `commit` and `wait`
unfoldable pub transact : Env → TradeOperation → Result Error TxReceipt
transact env op = do tx ← (commit env.contracts env.wallet env.operator op).1; env.wallet.wait tx

module _ {V : Type 0} ⦃N : BigNumber V⦄ where
  -- The row of the incoming order, which is the taker of the whole volume.
  abbrev pub taker_entity : TxReceipt → Text → SignedOrder V → V → V → TradeHistoryEntity
  taker_entity receipt timestamp signed_order total_volume total_traded_amount = record {
    hash = receipt.transaction_hash;
    taker = signed_order.maker;
    maker = null_address;
    amount = N.to_fixed 0 total_traded_amount;
    price = N.to_fixed 2 (N.div total_volume total_traded_amount);
    timestamp = timestamp;
    is_buy = signed_order.is_buy;
    block_number = receipt.block_number;
  }

  abbrev pub trade_history : TradeHistoryEntity → TradeHistory V
  trade_history e = record {
    hash = e.hash;
    taker = e.taker;
    maker = e.maker;
    price = record { value = N.of_text e.price };
    amount = N.of_text e.amount;
    timestamp = N.of_text e.timestamp;
    block_number = e.block_number;
  }

  -- `tradesHistory`
  unfoldable pub history_rows :
      TxReceipt → ℕ → SignedOrder V → MatchState V → List TradeHistoryEntity
  history_rows receipt now_ms signed_order s =
      let timestamp = N.to_fixed 0 (N.of_ℕ (now_seconds now_ms)) in
      map (history_entity receipt timestamp) s.trades_history_args
      ++ taker_entity receipt timestamp signed_order s.total_volume
          (N.minus signed_order.amount s.remaining_amount)
        ∷ []

  unfoldable pub fulfillment : SignedOrder V → Result Error V → Result Error (Fulfilment V)
  fulfillment signed_order r = do
    remaining_amount ← r
    ok (record {
      filled_amount = N.minus signed_order.amount remaining_amount;
      is_fullfilled = N.eq remaining_amount (N.of_ℕ 0);
    })

  module _ {Db : Type 0} ⦃S : OrderStore Db⦄ where
    -- What follows the confirmed transaction.
    unfoldable pub settle : TxReceipt → ℕ → SignedOrder V → MatchState V → World V Db → World V Db
    settle receipt now_ms signed_order s w =
        let rows = history_rows receipt now_ms signed_order s in
        record {
          orders = save_all s.updated_orders w.orders;
          history = w.history ++ rows;
          events =
              (w.events ++ map order_event s.emitted_orders)
              ++ map (λ e. trade_record (trade_history e)) rows;
        }

    unfoldable pub fulfil_with :
        Env → ℕ → SignedOrder V → List (SraOrder V) → World V Db → World V Db × Result Error V
    fulfil_with env now_ms signed_order api_orders w =
        elim (match_loop env.ethers env.contracts env.operator signed_order api_orders
          (match_start signed_order)) [
            | err e ↦ (w, err e)
            | ok s ↦ elim (transact env s.operation) [
              | err e ↦ (w, err e)
              | ok receipt ↦ (settle receipt now_ms signed_order s w, ok s.remaining_amount)
            ]
          ]

    -- The test of the first `if`, and what it guards.
    unfoldable pub remaining_after :
        Env → ℕ → SignedOrder V → List (SraOrder V) → World V Db → World V Db × Result Error V
    remaining_after env now_ms signed_order [] w = (w, ok signed_order.amount)
    remaining_after env now_ms signed_order (a ∷ all_orders) w =
        if gt signed_order.amount (N.of_ℕ 0)
        then fulfil_with env now_ms signed_order (best_first signed_order (a ∷ all_orders)) w
        else (w, ok signed_order.amount)

    unfoldable pub fulfill_order :
        Env → ℕ → SignedOrder V → World V Db → World V Db × Result Error (Fulfilment V)
    fulfill_order env now_ms signed_order w =
        let (w', r) =
          remaining_after env now_ms signed_order
            (matching_orders now_ms env.expiration_buffer signed_order w.orders) w in
        (w', fulfillment signed_order r)

    -- `addOrderAsync`
    unfoldable pub add_order :
        Env → ℕ → SignedOrder V → V → World V Db → World V Db × Result Error (SraOrder V)
    add_order env now_ms signed_order filled_amount w =
        elim (get_order_hash env.ethers env.contracts signed_order.order) [
          | err e ↦ (w, err e)
          | ok order_hash ↦
              let api_order : SraOrder V = record {
                order = signed_order;
                meta_data = record {
                  order_hash = order_hash;
                  filled_amount = filled_amount;
                  created_at = N.to_text (N.of_ℕ (now_seconds now_ms));
                  state = OrderStatus.null;
                };
              } in
              (record w { orders = S.save (serialize_order api_order) w.orders }, ok api_order)
        ]

    -- `cancelOrdersAsyncByHash`: the package refuses to delete by an empty list.
    unfoldable pub cancel_orders_by_hash : List Text → World V Db → Result Error (World V Db)
    cancel_orders_by_hash [] w = err empty_criteria
    cancel_orders_by_hash (h ∷ hashes) w = ok (record w { orders = S.delete (h ∷ hashes) w.orders })

  -- `getOrderByHashIfExistsAsync`: a `null` from the driver passes the test and is read.
  unfoldable pub get_order_by_hash_if_exists : Found → Result Error (Option (SraOrder V))
  get_order_by_hash_if_exists undefined_row = ok none
  get_order_by_hash_if_exists null_row = err type_error
  get_order_by_hash_if_exists (found e) = ok (some (deserialize_order_to_sra_order e))
