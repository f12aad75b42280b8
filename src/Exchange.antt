-- ===== src/Exchange.antt =====
-- The requests that change the server's state, as the routes of src/routers/orderbook_router.ts hand
-- them to the handlers, one after the other, and the book of orders that a client sees behind them.
-- The driver reports `null` for a hash without a row.
pub mod Books
pub mod Moves
pub mod Sound
pub mod Refines
use perpetual_custom.Base.{
  ℕ, ◌≡◌, Bool, true, false, Option, none, some, List, [], ◌∷◌, any, if◌then◌else◌, Result,
}
use perpetual_custom.Base.Text.{Text, text_eq}
use perpetual_custom.BigNumber.{BigNumber}
use perpetual_custom.Types.{SignedOrder, SraOrder, Error}
use perpetual_custom.OrderUtils.{deserialize_order_to_sra_order}
use perpetual_custom.Store.{OrderStore}
use perpetual_custom.Matching.{add_filled}
use perpetual_custom.Matching.Fills.{Fill}
use perpetual_custom.Service.{Env, World, null_row}
use perpetual_custom.Handlers.{orders_hash, cancel_order, post_order}

-- `POST /order`, at a time, and `POST /cancelOrder`.
pub data Request (V : Type 0) : Type 0 where
  post : ℕ → SignedOrder V → Request V
  cancel : List Text → Request V

-- The orders by their hashes.
abbrev pub Book : Type 0 → Type 0
Book V = Text → Option (SraOrder V)

abbrev pub put : {V : Type 0} → SraOrder V → Book V → Book V
put a b h = if text_eq h a.meta_data.order_hash then some a else b h

abbrev pub remove : {V : Type 0} → List Text → Book V → Book V
remove hashes b h = if any (text_eq h) hashes then none else b h

module _ {V : Type 0} ⦃N : BigNumber V⦄ where
  -- Each filled order is put back with its fill.
  unfoldable pub put_fills : List (Fill V) → Book V → Book V
  put_fills [] b = b
  put_fills ((a, t) ∷ fs) b = put_fills fs (put (add_filled t a) b)

  module _ {Db : Type 0} ⦃S : OrderStore Db⦄ where
    unfoldable pub handle : Env → Request V → World V Db → World V Db × Result Error ℕ
    handle env (post now_ms o) w = post_order env now_ms o w
    handle env (cancel hashes) w = cancel_order null_row (orders_hash hashes) w

    unfoldable pub serve : Env → List (Request V) → World V Db → World V Db
    serve env [] w = w
    serve env (r ∷ rs) w = serve env rs (handle env r w).0

-- The book that a table stands for.
abbrev pub book : (V : Type 0) ⦃N : BigNumber V⦄ {Db : Type 0} ⦃S : OrderStore Db⦄ → Db → Book V
book V ⦃N⦄ ⦃S⦄ db h = elim (S.row h db) [
  | none ↦ none
  | some e ↦ some (deserialize_order_to_sra_order e)
]
