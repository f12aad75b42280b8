-- ===== src/Handlers/Json.antt =====
-- About unmarshallOrder and jsonifyPerpetualOrder: an order on its way to the server.
use perpetual_custom.Base.{◌≡◌, refl, true, some}
use perpetual_custom.BigNumber.{BigNumber}
use perpetual_custom.Types.{SignedOrder}
use perpetual_custom.OrderUtils.{jsonify_perpetual_order}
use perpetual_custom.Handlers.{unmarshall_order}

module _ {V : Type 0} ⦃N : BigNumber V⦄ where
  -- If amount, expiration and salt of a signed order are whole numbers, then what `unmarshallOrder`
  -- reads from the JSON form that `jsonifyPerpetualOrder` makes of it is that very order. The taker is
  -- given beside it.
  pub unmarshall_order-jsonify_perpetual_order :
      (o : SignedOrder V)
      → N.is_integer o.amount ≡ true
      → N.is_integer o.expiration ≡ true
      → N.is_integer o.salt ≡ true
      → unmarshall_order (some o.taker) (jsonify_perpetual_order o) ≡ o
  unfolding unmarshall_order jsonify_perpetual_order
  unmarshall_order-jsonify_perpetual_order o amount expiration salt =
      rw
        (
          N.of_text-to_fixed o.amount amount,
          N.of_text-to_fixed o.expiration expiration,
          N.of_text-to_fixed o.salt salt,
          N.of_text-to_text (o.limit_price).value,
          N.of_text-to_text (o.trigger_price).value,
          N.of_text-to_text (o.limit_fee).value,
        )
        refl
