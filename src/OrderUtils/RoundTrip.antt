-- ===== src/OrderUtils/RoundTrip.antt =====
-- An order that is written to the table reads back as it was.
use perpetual_custom.Base.{◌≡◌, true}
use perpetual_custom.BigNumber.{BigNumber}
use perpetual_custom.Types.{SraOrder}
use perpetual_custom.OrderUtils.{serialize_order, deserialize_order_to_sra_order}

module _ {V : Type 0} ⦃N : BigNumber V⦄ where
  -- What the order's text loses is a fraction of its amount, expiration or salt.
  pub record IsIntegral (a : SraOrder V) : Type 0 where
    pub amount : N.is_integer a.order.amount ≡ true
    pub expiration : N.is_integer a.order.expiration ≡ true
    pub salt : N.is_integer a.order.salt ≡ true

  -- An order whose amount, expiration and salt are whole numbers survives the table.
  pub deserialize-serialize :
      (a : SraOrder V) → IsIntegral a → deserialize_order_to_sra_order (serialize_order a) ≡ a
  unfolding deserialize_order_to_sra_order serialize_order
  deserialize-serialize a h = rw (
    N.of_text-to_fixed a.order.amount h.amount,
    N.of_text-to_fixed a.order.expiration h.expiration,
    N.of_text-to_fixed a.order.salt h.salt,
    N.of_text-to_text (a.order.limit_price).value,
    N.of_text-to_text (a.order.limit_fee).value,
    N.of_text-to_text (a.order.trigger_price).value,
    N.of_text-to_text a.meta_data.filled_amount,
  )
