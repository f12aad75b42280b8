-- ===== src/Tests/Requests.antt =====
-- The server at the inputs of Data.antt: an order is posted and one is read, and the seller's orders
-- are listed for his address in upper case.
use perpetual_custom.Base.{
  ◌++◌, ℕ, ◌≡◌, refl, ◌⊎◌, Bool, true, none, some, List, [], ◌∷◌, All, ok, err, if◌then◌else◌,
}
use perpetual_custom.Base.Int.{ℤ, pos}
use perpetual_custom.Base.Text.{Text, codes, text_eq, to_lower_case, to_lower_case_idem}
use perpetual_custom.BigNumber.Whole.{whole}
use perpetual_custom.Store.Rows.{rows}
use perpetual_custom.Types.{SraOrder, SignedOrderEntity, type_error}
use perpetual_custom.Service.{World}
use perpetual_custom.Handlers.{orders_hash}
use perpetual_custom.Listing.{Fields, with_field}
use perpetual_custom.OrderUtils.{deserialize_order_to_sra_order}
use perpetual_custom.Routes.{Sources, order, orders, one_order, order_page}
use perpetual_custom.Requests.{Incoming, get, cancel_body, body, respond, respond_all}
use perpetual_custom.Requests.Laws.{ShowsSound, respond-ShowsSound}
use perpetual_custom.Requests.Addresses.{respond-orders}
use perpetual_custom.Tests.Data.{contracts, env, seller, world, dear}
use perpetual_custom.Tests.Creation.{unbounded}
use perpetual_custom.Tests.Listed.{selection, page}
use perpetual_custom.Tests.Exchange.{table-IsSoundBook}

abbrev is_seller : Text → Bool
is_seller t = text_eq (to_lower_case t) seller

is_seller-to_lower_case : (t : Text) → is_seller t ≡ true → is_seller (to_lower_case t) ≡ true
is_seller-to_lower_case t h = rw (to_lower_case_idem t) h

abbrev sources : World ℤ (List SignedOrderEntity) → Sources (List SignedOrderEntity)
sources w = record {
  orders = w.orders;
  listing = selection;
  history = λ window. [];
  history_size = 0;
  perpetual = unbounded;
  contracts = contracts;
  balance_of = λ a. err type_error;
  index_of = λ a. err type_error;
  buffer = 0;
}

abbrev shown : SraOrder ℤ
shown = deserialize_order_to_sra_order dear

abbrev requests : List (ℕ × Incoming)
requests = (0, cancel_body (orders_hash (codes "0x01" ∷ []))) ∷ []

respond-ShowsSound_example : ShowsSound (one_order shown)
unfolding respond perpetual_custom.Routes.read perpetual_custom.Requests.normalize_query
    perpetual_custom.Handlers.get_order_by_hash perpetual_custom.Service.get_order_by_hash_if_exists
    perpetual_custom.Handlers.find_one respond_all perpetual_custom.Handlers.cancel_order
    perpetual_custom.Handlers.find_each perpetual_custom.Handlers.emit_each
    perpetual_custom.Service.cancel_orders_by_hash
respond-ShowsSound_example =
    respond-ShowsSound is_seller env sources (λ w. refl) requests world 0 (order (codes "0x02"))
      (one_order shown) (tt, tt) table-IsSoundBook refl

abbrev query : Fields
query name = if text_eq name (codes "trader") then some (codes "0xA1") else none

page_listed :
    respond is_seller env sources 0 (get (orders query none (some (pos 5)))) world
    ≡ (world, ok (body (order_page page)))
unfolding respond perpetual_custom.Routes.read perpetual_custom.Requests.normalize_query
    perpetual_custom.Listing.orders_async perpetual_custom.Pagination.parse_pagination_config
    perpetual_custom.Listing.get_orders perpetual_custom.Pagination.paginate_serialize
    perpetual_custom.Listing.with_expiration_check perpetual_custom.Listing.order_filters
    perpetual_custom.Routes.object_eth_address_normalizer to_lower_case
page_listed = refl

respond-orders_example :
    All (λ (a : SraOrder ℤ). (a.order.maker ≡ seller) ⊎ (a.order.taker ≡ seller)) page.records
    × (respond is_seller env sources 0
          (get (orders (with_field (codes "trader") seller query) none (some (pos 5))))
          world
        ≡ (world, ok (body (order_page page))))
unfolding to_lower_case
respond-orders_example =
    respond-orders is_seller (λ t. is_seller-to_lower_case (codes "0x" ++ t)) env sources 0 world
      query none (some (pos 5)) (codes "A1") page refl refl page_listed
