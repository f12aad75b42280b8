-- ===== src/OrderUtils.antt =====
-- `orderUtils`, `jsonifyPerpetualOrder` and `getRealExpiration` of src/utils.ts. The clock is an
-- argument: `Date.now()` in milliseconds.
pub mod RoundTrip
pub mod Book
use perpetual_custom.Base.{ℕ, ◌+◌, ◌*◌, ◌/◌, ◌≡◌, Bool, not, if◌then◌else◌, List}
use perpetual_custom.Base.Int.{ℤ, pos, negsuc, ltb_ℤ}
use perpetual_custom.Base.Text.{Text}
use perpetual_custom.Base.Sort.{sort}
use perpetual_custom.BigNumber.{BigNumber, compared_to, gt}
use perpetual_custom.Types.{
  Address, Order, SignedOrder, SraOrder, SraOrderMetaData, SignedOrderEntity,
}

abbrev pub one_second_ms : ℕ
one_second_ms = 1000

pub record JsonOrder : Type 0 where
  pub is_buy : Bool
  pub is_decrease_only : Bool
  pub amount : Text
  pub limit_price : Text
  pub trigger_price : Text
  pub limit_fee : Text
  pub maker : Address
  pub taker : Address
  pub expiration : Text
  pub typed_signature : Text
  pub salt : Text

-- `Math.round(new Date().getTime() / 1000)`
unfoldable pub now_seconds : ℕ → ℕ
now_seconds now_ms = (now_ms + 500) / one_second_ms

module _ {V : Type 0} ⦃N : BigNumber V⦄ where
  unfoldable pub jsonify_perpetual_order : SignedOrder V → JsonOrder
  jsonify_perpetual_order o = record {
    is_buy = o.is_buy;
    is_decrease_only = o.is_decrease_only;
    amount = N.to_fixed 0 o.amount;
    limit_price = N.to_text (o.limit_price).value;
    trigger_price = N.to_text (o.trigger_price).value;
    limit_fee = N.to_text (o.limit_fee).value;
    maker = o.maker;
    taker = o.taker;
    expiration = N.to_fixed 0 o.expiration;
    typed_signature = o.typed_signature;
    salt = N.to_fixed 0 o.salt;
  }

  unfoldable pub serialize_order : SraOrder V → SignedOrderEntity
  unfolding jsonify_perpetual_order
  serialize_order a =
      let j = jsonify_perpetual_order a.order in
      record {
        hash = a.meta_data.order_hash;
        limit_fee = j.limit_fee;
        limit_price = j.limit_price;
        trigger_price = j.trigger_price;
        expiration = j.expiration;
        amount = j.amount;
        is_buy = j.is_buy;
        is_decrease_only = j.is_decrease_only;
        salt = j.salt;
        typed_signature = j.typed_signature;
        maker = j.maker;
        created_at = a.meta_data.created_at;
        filled_amount = N.to_text a.meta_data.filled_amount;
        order_state = a.meta_data.state;
        taker = j.taker;
      }

  unfoldable pub deserialize_order : SignedOrderEntity → SignedOrder V
  deserialize_order e = record {
    order = record {
      is_buy = e.is_buy;
      is_decrease_only = e.is_decrease_only;
      amount = N.of_text e.amount;
      limit_price = record { value = N.of_text e.limit_price };
      trigger_price = record { value = N.of_text e.trigger_price };
      limit_fee = record { value = N.of_text e.limit_fee };
      maker = e.maker;
      taker = e.taker;
      expiration = N.of_text e.expiration;
      salt = N.of_text e.salt;
    };
    typed_signature = e.typed_signature;
  }

  unfoldable pub deserialize_order_to_sra_order : SignedOrderEntity → SraOrder V
  unfolding deserialize_order
  deserialize_order_to_sra_order e = record {
    order = deserialize_order e;
    meta_data = record {
      order_hash = e.hash;
      filled_amount = N.of_text e.filled_amount;
      created_at = e.created_at;
      state = e.order_state;
    };
  }

  -- Both sides of the test in milliseconds, so that no quotient is needed.
  unfoldable pub is_fresh_order : ℕ → ℕ → SraOrder V → Bool
  is_fresh_order now_ms expiration_buffer_seconds a =
      gt (N.times a.order.expiration (N.of_ℕ one_second_ms))
        (N.of_ℕ (now_ms + expiration_buffer_seconds * one_second_ms))

  unfoldable pub compare_ask_order : SignedOrder V → SignedOrder V → ℤ
  compare_ask_order order_a order_b =
      if not (N.eq (order_a.limit_price).value (order_b.limit_price).value)
      then compared_to (order_a.limit_price).value (order_b.limit_price).value
      else pos 1

  unfoldable pub compare_bid_order : SignedOrder V → SignedOrder V → ℤ
  compare_bid_order order_a order_b =
      if not (N.eq (order_a.limit_price).value (order_b.limit_price).value)
      then compared_to (order_b.limit_price).value (order_a.limit_price).value
      else pos 1

  unfoldable pub get_real_expiration : ℕ → V → V
  get_real_expiration now_ms expiration =
      if N.eq expiration (N.of_ℕ 0)
      then N.of_ℕ 0
      else N.plus (N.of_ℕ (now_seconds now_ms)) expiration

  -- `orders.sort((a, b) => compare(a.order, b.order))`
  unfoldable pub sort_by :
      (SignedOrder V → SignedOrder V → ℤ) → List (SraOrder V) → List (SraOrder V)
  sort_by compare = sort (λ later earlier. ltb_ℤ (compare later.order earlier.order) (pos 0))
