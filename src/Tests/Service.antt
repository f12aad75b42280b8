-- ===== src/Tests/Service.antt =====
-- Handlers, the market's readings, the table and the book at the inputs of Data.antt.
use perpetual_custom.Base.{
  suc, ℕ, arith, ◌≡◌, refl, sym, ap, ◌⊎◌, Bool, Option, none, some, List, [], ◌∷◌, ◌++◌, map, any,
  All, length, ◌≤◌, if◌then◌else◌, Result, ok, err,
}
use mathlib.Core.List.{Perm}
use perpetual_custom.Base.Int.{ℤ, pos, ◌+ℤ◌, ◌-ℤ◌, ◌≤ℤ◌}
use perpetual_custom.Base.Text.{codes}
use perpetual_custom.BigNumber.Whole.{whole}
use perpetual_custom.Store.Rows.{rows}
use perpetual_custom.Types.{SignedOrderEntity, SraOrder, OrderStatus}
use perpetual_custom.OrderUtils.{
  serialize_order, deserialize_order_to_sra_order, compare_ask_order, compare_bid_order, sort_by,
}
use perpetual_custom.OrderUtils.RoundTrip.{deserialize-serialize}
use perpetual_custom.OrderUtils.Book.{IsFalling, IsRising, sort_by-sorted}
use perpetual_custom.Orders.{get_order_hash}
use perpetual_custom.Service.{
  World, Event, order_event, Fulfilment, null_row, fulfill_order, add_order,
}
use perpetual_custom.Handlers.{
  orders_hash, cancelled_event, find_one, get_order_by_hash, post_order, cancel_order,
}
use perpetual_custom.Handlers.Laws.{get_order_by_hash-add_order, post_order-ok}
use perpetual_custom.Service.{empty_criteria}
use perpetual_custom.Handlers.Cancel.{IsCancelled, cancel_order-whole}
use perpetual_custom.Market.{calculate_funding_rate}
use perpetual_custom.Market.{sum_from, rate_per_second}
use perpetual_custom.Market.Funding.{points, point_premium, calculate_funding_rate-eq}
use perpetual_custom.Matching.{fresh_fillable}
use perpetual_custom.Pagination.{paginate}
use perpetual_custom.Pagination.Laws.{first_pages, first_pages-whole}
use perpetual_custom.Tests.Data.{env, ethers, contracts, buying, world, cheap, dear}

abbrev selling_cheap : SraOrder ℤ
unfolding deserialize_order_to_sra_order
selling_cheap = deserialize_order_to_sra_order cheap

abbrev selling_dear : SraOrder ℤ
unfolding deserialize_order_to_sra_order
selling_dear = deserialize_order_to_sra_order dear

abbrev added : SraOrder ℤ
added = record {
  order = buying;
  meta_data = record {
    order_hash = codes "0x77";
    filled_amount = pos 3;
    created_at = [];
    state = OrderStatus.null;
  };
}

abbrev after_add : World ℤ (List SignedOrderEntity)
after_add = (add_order env 0 buying (pos 3) world).0

add_returns : (add_order env 0 buying (pos 3) world).1 ≡ ok added
unfolding add_order get_order_hash perpetual_custom.Orders.get_order_flags
    perpetual_custom.Hex.bn_to_bytes32 perpetual_custom.Signature.get_eip712_hash
    perpetual_custom.OrderUtils.now_seconds
add_returns = refl

get_order_by_hash-add_order_example :
    get_order_by_hash (find_one null_row (codes "0x77") after_add.orders) ≡ ok added
get_order_by_hash-add_order_example =
    get_order_by_hash-add_order env 0 buying (pos 3) world after_add added null_row
      (record { amount = refl; expiration = refl; salt = refl })
      (ap (λ r. (after_add, r)) add_returns)

abbrev pub posted : World ℤ (List SignedOrderEntity)
posted = (post_order env 0 buying world).0

pub post_returns : (post_order env 0 buying world).1 ≡ ok 200
unfolding post_order fulfill_order perpetual_custom.Service.fulfillment
    perpetual_custom.Service.remaining_after perpetual_custom.Service.fulfil_with
    perpetual_custom.Matching.matching_orders fresh_fillable perpetual_custom.Matching.is_fillable
    perpetual_custom.Matching.is_price_matched perpetual_custom.Matching.best_first
    perpetual_custom.Matching.match_start perpetual_custom.Matching.match_loop
    perpetual_custom.Matching.match_one perpetual_custom.Matching.fill_both
    deserialize_order_to_sra_order perpetual_custom.OrderUtils.is_fresh_order sort_by
    compare_ask_order perpetual_custom.Service.transact perpetual_custom.Service.settle
    perpetual_custom.Base.Int.◌*ℤ◌ perpetual_custom.TradeOperation.fill_signed_order
    perpetual_custom.Orders.fill_to_trade_data perpetual_custom.Orders.order_to_bytes
    perpetual_custom.Orders.order_to_solidity perpetual_custom.Orders.get_order_flags
    perpetual_custom.Hex.bn_to_bytes32 perpetual_custom.TradeOperation.add_trade_arg
    perpetual_custom.Base.Int.◌-ℤ◌ perpetual_custom.TradeOperation.commit
    perpetual_custom.Handlers.post_fulfilled add_order get_order_hash
    perpetual_custom.Signature.get_eip712_hash
post_returns = refl

post_order-ok_example :
    (f : Fulfilment ℤ) × (a : SraOrder ℤ) × ((fulfill_order env 0 buying world).1 ≡ ok f)
    × (get_order_hash ethers contracts buying.order ≡ ok a.meta_data.order_hash)
    × (a.order ≡ buying)
    × (a.meta_data.filled_amount ≡ f.filled_amount)
    × (rows.row a.meta_data.order_hash posted.orders ≡ some (serialize_order a))
    × (posted.events
        ≡ (fulfill_order env 0 buying world).0.events
          ++ (if f.is_fullfilled then [] else order_event a ∷ []))
post_order-ok_example =
    post_order-ok env 0 buying world posted 200 (ap (λ r. (posted, r)) post_returns)

cancel_order-whole_example :
    (codes "0x01" ∷ [] ≡ [])
      × (cancel_order null_row (orders_hash (codes "0x01" ∷ [])) world
          ≡ (world, err empty_criteria))
    ⊎ IsCancelled (codes "0x01" ∷ []) world
cancel_order-whole_example = cancel_order-whole (codes "0x01" ∷ []) world

deserialize-serialize_example :
    deserialize_order_to_sra_order (serialize_order selling_cheap) ≡ selling_cheap
deserialize-serialize_example =
    deserialize-serialize selling_cheap (record { amount = refl; expiration = refl; salt = refl })

sort_by-sorted_example :
    let orders = selling_dear ∷ selling_cheap ∷ [] in
    IsRising (sort_by compare_ask_order orders)
    × Perm (sort_by compare_ask_order orders) orders
    × IsFalling (sort_by compare_bid_order orders)
    × Perm (sort_by compare_bid_order orders) orders
sort_by-sorted_example = sort_by-sorted (selling_dear ∷ selling_cheap ∷ [])

calculate_funding_rate-eq_example :
    calculate_funding_rate (pos 5 ∷ []) (pos 4 ∷ []) (pos 4 ∷ [])
    ≡ ok (
        rate_per_second (
          whole.div
            (sum_from (pos 0) (map point_premium (points (pos 5 ∷ []) (pos 4 ∷ []) (pos 4 ∷ []))))
            (pos 1)))
unfolding points
calculate_funding_rate-eq_example =
    calculate_funding_rate-eq (pos 5 ∷ []) (pos 4 ∷ []) (pos 4 ∷ []) (refl, tt)

abbrev numbers : List ℕ
numbers = 7 ∷ 8 ∷ 9 ∷ []

first_pages-whole_example :
    (first_pages numbers 2 2 ≡ numbers)
    × ((k : ℕ)
        → let p = paginate numbers (pos (suc k)) (pos 2) in (length p.records ≤ 2) × (p.total ≡ 3))
first_pages-whole_example = first_pages-whole numbers 2 2 (omega arith)
