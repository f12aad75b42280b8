-- ===== src/Matching.antt =====
-- `OrderBookService.fulfillOrderAsync` of src/services/orderbook_service.ts, up to the commit: which
-- resting orders are matched, in which order, and the loop that trades with them.
pub mod Fills
pub mod Loop
pub mod Candidates
pub mod Legs
use perpetual_custom.Base.{
  ℕ, ◌+◌, ◌≡◌, Bool, true, false, not, ◌&&◌, List, [], ◌∷◌, ◌++◌, map, filter, if◌then◌else◌,
  Result, ok, err, ◌>>=◌,
}
use perpetual_custom.Base.Int.{ℤ}
use perpetual_custom.Base.Text.{Text, codes}
use perpetual_custom.BigNumber.{BigNumber, lt, gte}
use perpetual_custom.Types.{Address, SignedOrder, SraOrder, SignedOrderEntity, Error}
use perpetual_custom.Ethers.{Ethers, Contracts}
use perpetual_custom.OrderUtils.{
  serialize_order, deserialize_order_to_sra_order, is_fresh_order, compare_ask_order,
  compare_bid_order, sort_by,
}
use perpetual_custom.Store.{OrderStore, find_by_side}
use perpetual_custom.TradeOperation.{TradeOperation, initiate, fill_signed_order}

abbrev pub null_address : Address
null_address = codes "0x0000000000000000000000000000000000000000"

-- One element of `tradesHistoryArgs`.
pub record HistoryArg : Type 0 where
  pub taker : Address
  pub maker : Address
  pub is_buy : Bool
  pub price : Text
  pub amount : Text

-- The variables that the loop changes.
pub record MatchState (V : Type 0) : Type 0 where
  pub remaining_amount : V
  pub total_volume : V
  pub operation : TradeOperation
  pub updated_orders : List SignedOrderEntity
  pub emitted_orders : List (SraOrder V)
  pub trades_history_args : List HistoryArg

module _ {V : Type 0} ⦃N : BigNumber V⦄ where
  -- `.filter(order => order.metaData.filledAmount.lt(order.order.amount))`
  unfoldable pub is_fillable : SraOrder V → Bool
  is_fillable a = lt a.meta_data.filled_amount a.order.amount

  -- The filter by price.
  unfoldable pub is_price_matched : SignedOrder V → SraOrder V → Bool
  is_price_matched signed_order a =
      if signed_order.is_buy
      then N.lte (a.order.limit_price).value (signed_order.limit_price).value
      else gte (a.order.limit_price).value (signed_order.limit_price).value

  unfoldable pub fresh_fillable : ℕ → ℕ → List SignedOrderEntity → List (SraOrder V)
  fresh_fillable now_ms buffer es =
      filter is_fillable
        (filter (is_fresh_order now_ms buffer) (map deserialize_order_to_sra_order es))

  -- `allOrders`
  unfoldable pub matching_orders :
      {Db : Type 0} ⦃S : OrderStore Db⦄ → ℕ → ℕ → SignedOrder V → Db → List (SraOrder V)
  unfolding fresh_fillable
  matching_orders now_ms buffer signed_order db =
      filter (is_price_matched signed_order)
        (fresh_fillable now_ms buffer (find_by_side (not signed_order.is_buy) db))

  -- `apiOrders`
  unfoldable pub best_first : SignedOrder V → List (SraOrder V) → List (SraOrder V)
  best_first signed_order all_orders =
      if not signed_order.is_buy
      then sort_by compare_bid_order all_orders
      else sort_by compare_ask_order all_orders

  -- `apiOrders[i]` with `filledAmount` raised
  abbrev pub add_filled : V → SraOrder V → SraOrder V
  add_filled traded a = record a {
    meta_data = record (a.meta_data) { filled_amount = N.plus a.meta_data.filled_amount traded };
  }

  abbrev pub available : SraOrder V → V
  available a = N.minus a.order.amount a.meta_data.filled_amount

  abbrev pub history_arg : SraOrder V → V → HistoryArg
  history_arg a traded = record {
    taker = null_address;
    maker = a.order.maker;
    is_buy = a.order.is_buy;
    price = N.to_fixed 2 (a.order.limit_price).value;
    amount = N.to_fixed 0 traded;
  }

  -- What the body of the loop writes once the operation holds both fills.
  abbrev pub after_match : SraOrder V → MatchState V → TradeOperation → MatchState V
  after_match a s op =
      let traded = N.minimum s.remaining_amount (available a) in
      record {
        remaining_amount = N.minus s.remaining_amount traded;
        total_volume = N.plus s.total_volume (N.times traded (a.order.limit_price).value);
        operation = op;
        updated_orders = s.updated_orders ++ serialize_order (add_filled traded a) ∷ [];
        emitted_orders = s.emitted_orders ++ add_filled traded a ∷ [];
        trades_history_args = s.trades_history_args ++ history_arg a traded ∷ [];
      }

  module _ (E : Ethers) (c : Contracts) (operator : Address) (signed_order : SignedOrder V) where
    -- The two fills of one match, maker first.
    unfoldable pub fill_both : SraOrder V → V → TradeOperation → Result Error TradeOperation
    fill_both a traded op = do
      with_maker ←
          fill_signed_order c E operator a.order traded a.order.limit_price a.order.limit_fee op
      fill_signed_order c E operator signed_order traded a.order.limit_price a.order.limit_fee
          with_maker

    -- The body of the loop, behind its `break`.
    unfoldable pub match_one : SraOrder V → MatchState V → Result Error (MatchState V)
    match_one a s = do
      op ← fill_both a (N.minimum s.remaining_amount (available a)) s.operation
      ok (after_match a s op)

    unfoldable pub match_loop : List (SraOrder V) → MatchState V → Result Error (MatchState V)
    match_loop [] s = ok s
    match_loop (a ∷ rest) s =
        if N.lte s.remaining_amount (N.of_ℕ 0)
        then ok s
        else match_one a s >>= λ s'. match_loop rest s'

  unfoldable pub match_start : SignedOrder V → MatchState V
  match_start signed_order = record {
    remaining_amount = signed_order.amount;
    total_volume = N.of_ℕ 0;
    operation = initiate;
    updated_orders = [];
    emitted_orders = [];
    trades_history_args = [];
  }
