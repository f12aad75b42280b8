-- ===== src/Market.antt =====
-- The readings of the market that `OrderBookService` of src/services/orderbook_service.ts answers,
-- and `calculateFundingrate` of src/utils.ts. The index price is what the contract's price oracle
-- returns, an argument of the functions that read it.
pub mod Laws
pub mod Funding
use perpetual_custom.Base.{
  ℕ, ◌≡◌, Bool, true, false, not, List, [], ◌∷◌, map, filter, length, ◌==◌, if◌then◌else◌, Result,
  ok, err, ◌>>=◌,
}
use perpetual_custom.Base.Int.{ℤ, pos}
use perpetual_custom.Base.Text.{Text}
use perpetual_custom.BigNumber.{BigNumber}
use perpetual_custom.Types.{
  SraOrder, SignedOrderEntity, OrderbookResponse, TradeHistory, TradeHistoryEntity,
  PaginatedCollection, Error, ask_prices_mismatch, bid_prices_mismatch, index_prices_mismatch,
}
use perpetual_custom.OrderUtils.{
  deserialize_order_to_sra_order, is_fresh_order, compare_ask_order, compare_bid_order, sort_by,
}
use perpetual_custom.Pagination.{paginate, paginate_serialize, paginate_db_filters, DbFilters}
use perpetual_custom.Store.{OrderStore, find_by_side}
use perpetual_custom.Matching.{fresh_fillable, available}
use perpetual_custom.Service.{trade_history}

pub record Quote (V : Type 0) : Type 0 where
  pub price : V
  pub filled_amount : V
  pub fulfilled : Bool

module _ {V : Type 0} ⦃N : BigNumber V⦄ where
  -- `(totalVolume, remainingAmount)` behind the loop of `quoteAsync`
  unfoldable pub quote_loop : List (SraOrder V) → V → V → V × V
  quote_loop [] total_volume remaining_amount = (total_volume, remaining_amount)
  quote_loop (a ∷ rest) total_volume remaining_amount =
      let traded = N.minimum remaining_amount (available a) in
      let later =
        quote_loop rest (N.plus total_volume (N.times traded (a.order.limit_price).value))
          (N.minus remaining_amount traded) in
      if N.lte remaining_amount (N.of_ℕ 0) then (total_volume, remaining_amount) else later

  -- Both branches of the source sort with the same comparison.
  unfoldable pub quote_orders :
      {Db : Type 0} ⦃S : OrderStore Db⦄ → ℕ → ℕ → Bool → Db → List (SraOrder V)
  quote_orders now_ms buffer is_buy db =
      let all_orders = fresh_fillable now_ms buffer (find_by_side is_buy db) in
      if is_buy then sort_by compare_bid_order all_orders else sort_by compare_bid_order all_orders

  unfoldable pub quote : {Db : Type 0} ⦃S : OrderStore Db⦄ → ℕ → ℕ → V → Bool → Db → Quote V
  quote now_ms buffer amount is_buy db =
      let (total_volume, remaining_amount) =
        quote_loop (quote_orders now_ms buffer is_buy db) (N.of_ℕ 0) amount in
      let total_traded_amount = N.minus amount remaining_amount in
      record {
        price =
            if N.eq total_traded_amount (N.of_ℕ 0)
            then N.of_ℕ 0
            else N.div total_volume total_traded_amount;
        filled_amount = total_traded_amount;
        fulfilled = N.eq remaining_amount (N.of_ℕ 0);
      }

  unfoldable pub book_side :
      {Db : Type 0} ⦃S : OrderStore Db⦄ → ℕ → ℕ → Bool → Db → List (SraOrder V)
  book_side now_ms buffer is_buy db =
      filter (is_fresh_order now_ms buffer)
        (map deserialize_order_to_sra_order (find_by_side is_buy db))

  unfoldable pub get_order_book :
      {Db : Type 0} ⦃S : OrderStore Db⦄ → ℕ → ℕ → ℤ → ℤ → Db → OrderbookResponse V
  get_order_book now_ms buffer page per_page db = record {
    bids = paginate (sort_by compare_bid_order (book_side now_ms buffer true db)) page per_page;
    asks = paginate (sort_by compare_ask_order (book_side now_ms buffer false db)) page per_page;
  }

  -- `count` and `find` of the history are the table's, under the window that the call asks for.
  unfoldable pub get_trades_history :
      (DbFilters → List TradeHistoryEntity) → ℕ → ℤ → ℤ → PaginatedCollection (TradeHistory V)
  get_trades_history find_history total page per_page =
      paginate_serialize (map trade_history (find_history (paginate_db_filters page per_page)))
        total page per_page

  -- `getIndexPriceAsync`, from the number that the oracle answers
  unfoldable pub get_index_price : Text → V
  get_index_price oracle_price = N.div (N.of_text oracle_price) (N.of_ℕ 1000000000000000000)

  -- One element of the list that `premiumLastHour` adds up.
  unfoldable pub premium : V → V → V → V
  premium ask bid index =
      N.minus (N.maximum (N.of_ℕ 0) (N.minus ask index)) (N.maximum (N.of_ℕ 0) (N.minus index bid))

  unfoldable pub premiums : List V → List V → List V → List V
  premiums (ask ∷ asks) (bid ∷ bids) (index ∷ indices) =
      premium ask bid index ∷ premiums asks bids indices
  premiums _ _ _ = []

  unfoldable pub sum_from : V → List V → V
  sum_from res [] = res
  sum_from res (cur ∷ rest) = sum_from (N.plus res cur) rest

  unfoldable pub rate_per_second : V → V
  rate_per_second premium_last_hour =
      N.div (N.plus (N.div premium_last_hour (N.of_ℕ 8)) (N.literal (pos 125) 7)) (N.of_ℕ 3600)

  unfoldable pub calculate_funding_rate : List V → List V → List V → Result Error V
  calculate_funding_rate asks bids indices =
      if not (length bids == length asks)
      then err bid_prices_mismatch
      else if not (length indices == length asks)
      then err index_prices_mismatch
      else ok (
          rate_per_second
            (N.div (sum_from (N.of_ℕ 0) (premiums asks bids indices)) (N.of_ℕ (length asks))))

  -- `getFundingRate`, less its time stamp
  unfoldable pub get_funding_rate :
      {Db : Type 0} ⦃S : OrderStore Db⦄ → ℕ → ℕ → V → Db → Result Error V
  get_funding_rate now_ms buffer index_price db =
      let amount = N.div (N.of_ℕ 50000) index_price in
      calculate_funding_rate ((quote now_ms buffer amount false db).price ∷ [])
        ((quote now_ms buffer amount true db).price ∷ []) (index_price ∷ [])
