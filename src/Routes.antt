-- ===== src/Routes.antt =====
-- The routes that read: src/routers, the handlers of src/handlers that pass a service's answer on, and
-- the normaliser of addresses in src/utils.ts and src/middleware/address_normalizer.ts. A handler
-- answers with a body and the status 200, or throws.
use perpetual_custom.Base.{
  ℕ, Bool, true, false, Option, none, some, List, [], ◌∷◌, Result, ok, ◌>>=◌, if◌then◌else◌,
}
use perpetual_custom.Base.Int.{ℤ}
use perpetual_custom.Base.Text.{Text, codes, to_lower_case}
use perpetual_custom.BigNumber.{BigNumber}
use perpetual_custom.Types.{
  Address, SraOrder, OrderbookResponse, PaginatedCollection, TradeHistory, TradeHistoryEntity,
  ApiMarketMessage, ApiAccount, Error,
}
use perpetual_custom.Ethers.{Contracts}
use perpetual_custom.Store.{OrderStore}
use perpetual_custom.OrderUtils.{now_seconds}
use perpetual_custom.Pagination.{DbFilters, parse_pagination_config}
use perpetual_custom.Service.{null_row}
use perpetual_custom.Market.{
  Quote, quote, get_order_book, get_trades_history, get_index_price, get_funding_rate,
}
use perpetual_custom.Handlers.{
  find_one, get_order_by_hash, get_account, SolidityBalance, SolidityIndex,
}
use perpetual_custom.Listing.{Fields, OrderQuery, orders_async}
use perpetual_custom.Readings.{Perpetual, get_price, get_markets}

-- Whether a field of the query counts as true: any text does that is not empty, `false` too.
abbrev pub is_given : Option Text → Bool
is_given none = false
is_given (some []) = false
is_given (some (c ∷ t)) = true

-- A `GET` request: the path with its parameters, and what its handler reads of the query, a page and
-- its size as numbers.
pub data Query : Type 0 where
  root : Query
  orderbook : Option ℤ → Option ℤ → Query
  orders : Fields → Option ℤ → Option ℤ → Query
  order : Text → Query
  quote_price : Text → Option Text → Query
  markets : Query
  funding_rate : Query
  trades_history : Option ℤ → Option ℤ → Query
  account : Address → Query

pub data Body (V : Type 0) : Type 0 where
  message : Text → Body V
  book_page : OrderbookResponse V → Body V
  order_page : PaginatedCollection (SraOrder V) → Body V
  one_order : SraOrder V → Body V
  one_quote : Quote V → Body V
  market_list : List ApiMarketMessage → Body V
  rate : V → ℕ → Body V
  trade_page : PaginatedCollection (TradeHistory V) → Body V
  one_account : ApiAccount → Body V

-- What the handlers read from: the table of orders, its queries, the history with its size, and the
-- contracts, of which `getAccountBalance` and `getAccountIndex` answer for an account.
pub record Sources (Db : Type 0) : Type 0 where
  pub orders : Db
  pub listing : OrderQuery
  pub history : DbFilters → List TradeHistoryEntity
  pub history_size : ℕ
  pub perpetual : Perpetual
  pub contracts : Contracts
  pub balance_of : Address → Result Error SolidityBalance
  pub index_of : Address → Result Error SolidityIndex
  pub buffer : ℕ

module _ {V : Type 0} ⦃N : BigNumber V⦄ {Db : Type 0} ⦃S : OrderStore Db⦄ (now_ms : ℕ)
    (s : Sources Db) where
  unfoldable pub orderbook_async : Option ℤ → Option ℤ → Result Error (OrderbookResponse V)
  orderbook_async page per_page = do
    config ← parse_pagination_config page per_page
    ok (get_order_book now_ms s.buffer config.page config.per_page s.orders)

  unfoldable pub trades_history_async :
      Option ℤ → Option ℤ → Result Error (PaginatedCollection (TradeHistory V))
  trades_history_async page per_page = do
    config ← parse_pagination_config page per_page
    ok (get_trades_history s.history s.history_size config.page config.per_page)

  unfoldable pub get_index_price_async : Result Error V
  get_index_price_async = do price ← get_price s.perpetual s.contracts; ok (get_index_price price)

  -- with the time stamp in seconds
  unfoldable pub get_funding_rate_async : Result Error (Body V)
  get_funding_rate_async = do
    index_price ← get_index_price_async
    per_second ← get_funding_rate now_ms s.buffer index_price s.orders
    ok (rate per_second (now_seconds now_ms))

  unfoldable pub get_account_async : Address → Result Error (Body V)
  get_account_async address = do
    balance ← s.balance_of address
    index ← s.index_of address
    ok (one_account (get_account V s.contracts.market address balance index))

  unfoldable pub read : Query → Result Error (Body V)
  read root = ok (
      message
        (codes "This is the root of the 0x API. Visit https://0x.org/docs/api for documentation."))
  read (orderbook page per_page) = do answer ← orderbook_async page per_page; ok (book_page answer)
  read (orders query page per_page) = do
    answer ← orders_async s.listing now_ms s.buffer query page per_page
    ok (order_page answer)
  read (order hash) = do
    answer ← get_order_by_hash (find_one null_row hash s.orders)
    ok (one_order answer)
  read (quote_price amount is_buy) =
      ok (one_quote (quote now_ms s.buffer (N.of_text amount) (is_given is_buy) s.orders))
  read markets = do answer ← get_markets V s.perpetual s.contracts; ok (market_list answer)
  read funding_rate = get_funding_rate_async
  read (trades_history page per_page) = do
    answer ← trades_history_async page per_page
    ok (trade_page answer)
  read (account address) = get_account_async address

-- `objectETHAddressNormalizer`: the values that are addresses become lower case. `isAddress` of the
-- package ethers is a parameter.
module _ (is_address : Text → Bool) where
  abbrev pub normalized_value : Text → Text
  normalized_value value = if is_address value then to_lower_case value else value

  unfoldable pub object_eth_address_normalizer : Fields → Fields
  object_eth_address_normalizer fields h = elim (fields h) [
    | none ↦ none
    | some value ↦ some (normalized_value value)
  ]

  -- `addressNormalizer`, of the query and a body that is an object
  unfoldable pub address_normalizer : Fields × Option Fields → Fields × Option Fields
  address_normalizer (query, none) = (object_eth_address_normalizer query, none)
  address_normalizer (query, some body) =
      (object_eth_address_normalizer query, some (object_eth_address_normalizer body))
