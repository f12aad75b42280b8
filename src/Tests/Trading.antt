-- ===== src/Tests/Trading.antt =====
-- Matching and settling at the inputs of Data.antt.
use perpetual_custom.Base.{
  ℕ, ◌≡◌, refl, ap, ◌↔◌, ◌⊎◌, Bool, true, false, List, [], ◌∷◌, if◌then◌else◌, Result, ok, err,
}
use perpetual_custom.Base.Int.{ℤ, pos, leb_ℤ, ◌*ℤ◌}
use perpetual_custom.BigNumber.Whole.{whole}
use perpetual_custom.Store.Rows.{rows}
use perpetual_custom.Types.{SignedOrderEntity, external}
use perpetual_custom.Service.{World, Fulfilment, fulfill_order}
use perpetual_custom.Service.Fulfil.{fills_of}
use perpetual_custom.Service.Effects.{fulfill_order-balance, volume-limit}
use perpetual_custom.Service.Writes.{Written, fulfill_order-Written}
use perpetual_custom.Service.Total.{Encodes, fulfill_order-total}
use perpetual_custom.Matching.Fills.{traded_sum, volume}
use perpetual_custom.Tests.Data.{env, refusing, buying, world, table}

abbrev bought : Fulfilment ℤ
bought = record { filled_amount = pos 3; is_fullfilled = true }

abbrev settled : World ℤ (List SignedOrderEntity)
settled = (fulfill_order env 0 buying world).0

buying_returns : (fulfill_order env 0 buying world).1 ≡ ok bought
unfolding fulfill_order perpetual_custom.Service.fulfillment
    perpetual_custom.Service.remaining_after perpetual_custom.Service.fulfil_with
    perpetual_custom.Matching.matching_orders perpetual_custom.Matching.fresh_fillable
    perpetual_custom.Matching.is_fillable perpetual_custom.Matching.is_price_matched
    perpetual_custom.Matching.best_first perpetual_custom.Matching.match_start
    perpetual_custom.Matching.match_loop perpetual_custom.Matching.match_one
    perpetual_custom.Matching.fill_both perpetual_custom.OrderUtils.deserialize_order_to_sra_order
    perpetual_custom.OrderUtils.is_fresh_order perpetual_custom.OrderUtils.sort_by
    perpetual_custom.OrderUtils.compare_ask_order perpetual_custom.Service.transact
    perpetual_custom.Service.settle perpetual_custom.Base.Int.◌*ℤ◌
    perpetual_custom.TradeOperation.fill_signed_order perpetual_custom.Orders.fill_to_trade_data
    perpetual_custom.Orders.order_to_bytes perpetual_custom.Orders.order_to_solidity
    perpetual_custom.Orders.get_order_flags perpetual_custom.Hex.bn_to_bytes32
    perpetual_custom.TradeOperation.add_trade_arg perpetual_custom.Base.Int.◌-ℤ◌
    perpetual_custom.TradeOperation.commit
buying_returns = refl

buying_settles : fulfill_order env 0 buying world ≡ (settled, ok bought)
buying_settles = ap (λ r. (settled, r)) buying_returns

refused : (fulfill_order refusing 0 buying world).1 ≡ err (external [])
unfolding fulfill_order perpetual_custom.Service.fulfillment
    perpetual_custom.Service.remaining_after perpetual_custom.Service.fulfil_with
    perpetual_custom.Matching.matching_orders perpetual_custom.Matching.fresh_fillable
    perpetual_custom.Matching.is_fillable perpetual_custom.Matching.is_price_matched
    perpetual_custom.Matching.best_first perpetual_custom.Matching.match_start
    perpetual_custom.Matching.match_loop perpetual_custom.Matching.match_one
    perpetual_custom.Matching.fill_both perpetual_custom.OrderUtils.deserialize_order_to_sra_order
    perpetual_custom.OrderUtils.is_fresh_order perpetual_custom.OrderUtils.sort_by
    perpetual_custom.OrderUtils.compare_ask_order perpetual_custom.Service.transact
    perpetual_custom.Service.settle perpetual_custom.Base.Int.◌*ℤ◌
    perpetual_custom.TradeOperation.fill_signed_order perpetual_custom.Orders.fill_to_trade_data
    perpetual_custom.Orders.order_to_bytes perpetual_custom.Orders.order_to_solidity
    perpetual_custom.Orders.get_order_flags perpetual_custom.Hex.bn_to_bytes32
    perpetual_custom.TradeOperation.add_trade_arg perpetual_custom.Base.Int.◌-ℤ◌
    perpetual_custom.TradeOperation.commit
refused = refl

fulfill_order-balance_example :
    (pos 3 ≡ traded_sum (fills_of env 0 buying table))
    × (leb_ℤ (pos 0) (pos 3) ≡ true)
    × (leb_ℤ (pos 3) (pos 3) ≡ true)
    × ((true ≡ true) ↔ (pos 3 ≡ pos 3))
fulfill_order-balance_example =
    fulfill_order-balance env 0 buying world settled bought refl buying_settles

volume-limit_example :
    leb_ℤ
      (volume (pos 0) (fills_of env 0 buying table))
      (traded_sum (fills_of env 0 buying table) *ℤ pos 5)
    ≡ true
volume-limit_example = volume-limit env 0 buying table

fulfill_order-Written_example :
    ((fills_of env 0 buying table ≡ []) × (settled ≡ world))
    ⊎ Written env 0 buying world settled (fills_of env 0 buying table)
fulfill_order-Written_example =
    fulfill_order-Written env 0 buying world settled bought buying_settles

-- Both fills are encoded, and their transaction.
pub buying-Encodes : Encodes env buying (fills_of env 0 buying table)
unfolding perpetual_custom.Matching.Fills.fills perpetual_custom.Matching.best_first
    perpetual_custom.OrderUtils.sort_by perpetual_custom.Matching.matching_orders
    perpetual_custom.OrderUtils.is_fresh_order ◌*ℤ◌
    perpetual_custom.OrderUtils.deserialize_order_to_sra_order perpetual_custom.Matching.is_fillable
    perpetual_custom.Matching.is_price_matched perpetual_custom.OrderUtils.compare_ask_order
    perpetual_custom.Matching.fresh_fillable perpetual_custom.Base.Int.◌-ℤ◌
    perpetual_custom.Base.Int.◌+ℤ◌
buying-Encodes = record {
  each_fill = (
    (((λ _ _. (_, refl)), (_, refl)), ((λ _ _. (_, refl)), (_, refl))),
    ((((λ _ _. (_, refl)), (_, refl)), ((λ _ _. (_, refl)), (_, refl))), tt),
  );
  trade = λ _ _. (_, refl);
}

fulfill_order-total_example : (f : Fulfilment ℤ) × ((fulfill_order env 0 buying world).1 ≡ ok f)
unfolding perpetual_custom.Matching.matching_orders perpetual_custom.Matching.fresh_fillable
    perpetual_custom.Matching.is_fillable perpetual_custom.Matching.is_price_matched
    perpetual_custom.OrderUtils.deserialize_order_to_sra_order
    perpetual_custom.OrderUtils.is_fresh_order ◌*ℤ◌
fulfill_order-total_example =
    fulfill_order-total env 0 buying
      (record { sends = λ _ _ _. (_, refl); confirms = λ _. (_, refl) }) refl world
      (refl, (refl, tt)) buying-Encodes
