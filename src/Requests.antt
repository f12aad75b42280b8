-- ===== src/Requests.antt =====
-- getAppAsync of src/app.ts: a request passes the normaliser of addresses and then its route. Koa, its
-- parsers of bodies and its matching of paths, and the node's server are the framework's, as is the
-- database that answers the queries.
pub mod Laws
pub mod Addresses
pub mod Pages
use perpetual_custom.Base.{ℕ, ◌≡◌, Bool, Option, none, some, List, [], ◌∷◌, Result, ok, err, ◌>>=◌}
use perpetual_custom.Base.Text.{Text}
use perpetual_custom.BigNumber.{BigNumber}
use perpetual_custom.Types.{Address, SignedOrder, Error}
use perpetual_custom.OrderUtils.{JsonOrder}
use perpetual_custom.Store.{OrderStore}
use perpetual_custom.Service.{Env, World, null_row}
use perpetual_custom.Handlers.{CancelBody, unmarshall_order, cancel_order, post_order}
use perpetual_custom.Routes.{
  Query, orders, quote_price, Body, Sources, read, normalized_value, object_eth_address_normalizer,
}

-- A request to the server: one that reads, an order that is posted, with its taker if the body names
-- one, or a cancellation.
pub data Incoming : Type 0 where
  get : Query → Incoming
  post_body : Option Address → JsonOrder → Incoming
  cancel_body : CancelBody → Incoming

-- What is sent back: the body of a read, or a status alone.
pub data Response (V : Type 0) : Type 0 where
  body : Body V → Response V
  status : ℕ → Response V

pub body-injective : {V : Type 0} {a b : Body V} → ◌≡◌ {A = Response V} (body a) (body b) → a ≡ b
body-injective h = cc h

abbrev pub with_status :
    {V Db : Type 0} → World V Db × Result Error ℕ → World V Db × Result Error (Response V)
with_status (w, ok code) = (w, ok (status code))
with_status (w, err e) = (w, err e)

module _ (is_address : Text → Bool) where
  -- The fields of the query are normalised, and a part of the path is not.
  unfoldable pub normalize_query : Query → Query
  normalize_query (orders query page per_page) =
      orders (object_eth_address_normalizer is_address query) page per_page
  normalize_query (quote_price amount none) = quote_price (normalized_value is_address amount) none
  normalize_query (quote_price amount (some is_buy)) =
      quote_price (normalized_value is_address amount) (some (normalized_value is_address is_buy))
  normalize_query query = query

  -- The texts of a body with an order.
  unfoldable pub normalize_order : JsonOrder → JsonOrder
  normalize_order raw = record {
    is_buy = raw.is_buy;
    is_decrease_only = raw.is_decrease_only;
    amount = normalized_value is_address raw.amount;
    limit_price = normalized_value is_address raw.limit_price;
    trigger_price = normalized_value is_address raw.trigger_price;
    limit_fee = normalized_value is_address raw.limit_fee;
    maker = normalized_value is_address raw.maker;
    taker = normalized_value is_address raw.taker;
    expiration = normalized_value is_address raw.expiration;
    typed_signature = normalized_value is_address raw.typed_signature;
    salt = normalized_value is_address raw.salt;
  }

  abbrev pub normalize_taker : Option Address → Option Address
  normalize_taker none = none
  normalize_taker (some taker) = some (normalized_value is_address taker)

  module _ {V : Type 0} ⦃N : BigNumber V⦄ where
    -- The order that a body posts.
    abbrev pub posted_order : Option Address → JsonOrder → SignedOrder V
    posted_order taker raw = unmarshall_order (normalize_taker taker) (normalize_order raw)

    module _ {Db : Type 0} ⦃S : OrderStore Db⦄ (env : Env) (sources : World V Db → Sources Db) where
      unfoldable pub respond : ℕ → Incoming → World V Db → World V Db × Result Error (Response V)
      respond now_ms (get query) w =
          (w, do answer ← read now_ms (sources w) (normalize_query query); ok (body answer))
      respond now_ms (post_body taker raw) w =
          with_status (post_order env now_ms (posted_order taker raw) w)
      respond now_ms (cancel_body raw) w = with_status (cancel_order null_row raw w)

      -- Requests with their times, one after the other.
      unfoldable pub respond_all : List (ℕ × Incoming) → World V Db → World V Db
      respond_all [] w = w
      respond_all ((now_ms, r) ∷ rs) w = respond_all rs (respond now_ms r w).0
