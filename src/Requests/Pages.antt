-- ===== src/Requests/Pages.antt =====
-- About orderbookAsync: the pages of the order book that a client asks for, one after the other.
use perpetual_custom.Base.{ℕ, Bool, true, false, List}
use perpetual_custom.BigNumber.{BigNumber}
use perpetual_custom.Types.{SraOrder, OrderbookResponse, PaginatedCollection}
use perpetual_custom.Store.{OrderStore}
use perpetual_custom.OrderUtils.{sort_by, compare_ask_order, compare_bid_order}
use perpetual_custom.OrderUtils.Book.{IsFalling, IsRising}
use perpetual_custom.Market.{book_side}
use perpetual_custom.Routes.{Sources}

abbrev pub side_page : {V : Type 0} → Bool → OrderbookResponse V → PaginatedCollection (SraOrder V)
side_page true p = p.bids
side_page false p = p.asks

module _ {V : Type 0} ⦃N : BigNumber V⦄ where
  -- Bids by falling, asks by rising price.
  abbrev pub IsOrdered : Bool → List (SraOrder V) → Type 0
  IsOrdered true as' = IsFalling as'
  IsOrdered false as' = IsRising as'

  unfoldable pub ordered : Bool → List (SraOrder V) → List (SraOrder V)
  ordered true as' = sort_by compare_bid_order as'
  ordered false as' = sort_by compare_ask_order as'

module _ (V : Type 0) ⦃N : BigNumber V⦄ {Db : Type 0} ⦃S : OrderStore Db⦄ (now_ms : ℕ)
    (s : Sources Db) where
  -- The orders of a side that a client can see, in their order.
  abbrev pub visible : Bool → List (SraOrder V)
  visible is_buy = ordered is_buy (book_side now_ms s.buffer is_buy s.orders)
