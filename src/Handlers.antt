-- ===== src/Handlers.antt =====
-- `OrderBookHandlers` of src/handlers/orderbook_handlers.ts, and the account reading of
-- src/perpetual.ts. A handler answers with a body or throws; the framework sends either.
pub mod Laws
pub mod Cancel
pub mod Json
use perpetual_custom.Base.{
  ℕ, ◌≡◌, Bool, true, false, Option, none, some, List, [], ◌∷◌, ◌++◌, map, if◌then◌else◌, Result,
  ok, err, ◌>>=◌,
}
use perpetual_custom.Base.Text.{Text}
use perpetual_custom.BigNumber.{BigNumber}
use perpetual_custom.Types.{
  Address, Order, SignedOrder, SraOrder, SraOrderMetaData, SignedOrderEntity, ApiAccount,
  ApiBalance, Error, type_error, not_found, non_array_data, account_undefined,
}
use perpetual_custom.OrderUtils.{JsonOrder}
use perpetual_custom.Store.{OrderStore}
use perpetual_custom.Matching.{null_address}
use perpetual_custom.Service.{
  Env, World, Event, order_event, Fulfilment, Found, undefined_row, null_row, found, fulfill_order,
  add_order, cancel_orders_by_hash, get_order_by_hash_if_exists,
}

-- `findOneBy(SignedOrderEntity, { hash })`, where `absent` is what the driver reports for no row.
unfoldable pub find_one : {Db : Type 0} ⦃S : OrderStore Db⦄ → Found → Text → Db → Found
find_one ⦃S⦄ absent hash db = elim (S.row hash db) [ none ↦ absent | some e ↦ found e ]

-- The body of a request to `cancelOrder`: `ordersHash` is an array of strings, or something else.
pub data CancelBody : Type 0 where
  orders_hash : List Text → CancelBody
  other_data : CancelBody

-- What a signed margin or position of the contract is: a magnitude and a sign.
pub record SolidityBalance : Type 0 where
  pub margin : Text
  pub position : Text
  pub margin_is_positive : Bool
  pub position_is_positive : Bool

pub record SolidityIndex : Type 0 where
  pub value : Text
  pub timestamp : Text
  pub is_positive : Bool

module _ {V : Type 0} ⦃N : BigNumber V⦄ where
  unfoldable pub get_order_by_hash : Found → Result Error (SraOrder V)
  get_order_by_hash row = do
    order_if_exists ← get_order_by_hash_if_exists row
    elim order_if_exists [ none ↦ err not_found | some order ↦ ok order ]

  -- The order of a body; `taker` is the null address where the body has none.
  unfoldable pub unmarshall_order : Option Address → JsonOrder → SignedOrder V
  unmarshall_order taker raw = record {
    order = record {
      is_buy = raw.is_buy;
      is_decrease_only = raw.is_decrease_only;
      amount = N.of_text raw.amount;
      limit_price = record { value = N.of_text raw.limit_price };
      trigger_price = record { value = N.of_text raw.trigger_price };
      limit_fee = record { value = N.of_text raw.limit_fee };
      maker = raw.maker;
      taker = elim taker [ none ↦ null_address | some t ↦ t ];
      expiration = N.of_text raw.expiration;
      salt = N.of_text raw.salt;
    };
    typed_signature = raw.typed_signature;
  }

  -- A margin or a position with its sign.
  unfoldable pub signed_value : Bool → Text → V
  signed_value is_positive magnitude =
      if is_positive then N.of_text magnitude else N.negated (N.of_text magnitude)

  -- The event of a cancelled order: it counts as filled.
  unfoldable pub cancelled_event : SraOrder V → Event V
  cancelled_event a =
      order_event (record a { meta_data = record (a.meta_data) { filled_amount = a.order.amount } })

  -- The events that are emitted before an order that is `undefined` is read, and whether one is.
  unfoldable pub emit_each : List (Option (SraOrder V)) → List (Event V) × Result Error ℕ
  emit_each [] = ([], ok 200)
  emit_each (none ∷ orders) = ([], err type_error)
  emit_each (some a ∷ orders) = let (later, r) = emit_each orders in (cancelled_event a ∷ later, r)

  module _ {Db : Type 0} ⦃S : OrderStore Db⦄ where
    -- The lookups, in the order of the hashes.
    unfoldable pub find_each : Found → List Text → Db → Result Error (List (Option (SraOrder V)))
    find_each absent [] db = ok []
    find_each absent (h ∷ hs) db = do
      order ← get_order_by_hash_if_exists (find_one absent h db)
      orders ← find_each absent hs db
      ok (order ∷ orders)

    -- What follows `cancelOrdersAsyncByHash` in `cancelOrderAsync`.
    abbrev pub after_delete :
        List (Option (SraOrder V))
        → World V Db
        → Result Error (World V Db)
        → World V Db × Result Error ℕ
    after_delete orders w (err e) = (w, err e)
    after_delete orders w (ok deleted) =
        let (emitted, r) = emit_each orders in
        (record deleted { events = deleted.events ++ emitted }, r)

    unfoldable pub cancel_order : Found → CancelBody → World V Db → World V Db × Result Error ℕ
    cancel_order absent other_data w = (w, err non_array_data)
    cancel_order absent (orders_hash hashes) w = elim (find_each absent hashes w.orders) [
      | err e ↦ (w, err e)
      | ok orders ↦ after_delete orders w (cancel_orders_by_hash hashes w)
    ]

    -- What follows `fulfillOrderAsync` in `postOrderAsync`.
    unfoldable pub post_fulfilled :
        Env → ℕ → SignedOrder V → Fulfilment V → World V Db → World V Db × Result Error ℕ
    post_fulfilled env now_ms signed_order f w =
        let (added, r) = add_order env now_ms signed_order f.filled_amount w in
        elim r [
          | err e ↦ (added, err e)
          | ok sra_order ↦ (
            if f.is_fullfilled
                then added
                else record added { events = added.events ++ order_event sra_order ∷ [] },
            ok 200,
          )
        ]

    -- The status is 200 on return, whether or not the query asks to skip the confirmation.
    unfoldable pub post_order : Env → ℕ → SignedOrder V → World V Db → World V Db × Result Error ℕ
    post_order env now_ms signed_order w =
        let (fulfilled, r) = fulfill_order env now_ms signed_order w in
        elim r [
          | err e ↦ (fulfilled, err e)
          | ok f ↦ post_fulfilled env now_ms signed_order f fulfilled
        ]

-- `Perpetual.getAccount`, from what the contract answers
unfoldable pub get_account :
    (V : Type 0) ⦃N : BigNumber V⦄ → Text → Address → SolidityBalance → SolidityIndex → ApiAccount
get_account V ⦃N⦄ market account balance index = record {
  owner = account;
  market = market;
  balance = record {
    margin = N.to_text (signed_value {V = V} balance.margin_is_positive balance.margin);
    position = N.to_text (signed_value {V = V} balance.position_is_positive balance.position);
    index_value = N.to_text (signed_value {V = V} index.is_positive index.value);
    index_timestamp = index.timestamp;
  };
}
