-- ===== src/Tests/Creation.antt =====
-- An order to buy, created for the signer of Data.antt, and a price read back from its contract form.
use perpetual_custom.Base.{◌≡◌, refl, none, some, [], ok, err}
use perpetual_custom.Base.Int.{ℤ, pos, negsuc}
use perpetual_custom.Base.Text.{codes}
use perpetual_custom.BigNumber.Whole.{whole}
use perpetual_custom.Types.{SignedOrder, FundingRate, external}
use perpetual_custom.Readings.{Perpetual, get_bounded_funding_rate}
use perpetual_custom.Readings.Laws.{get_bounded_funding_rate-accepted}
use perpetual_custom.OrderUtils.{jsonify_perpetual_order}
use perpetual_custom.Handlers.{unmarshall_order}
use perpetual_custom.Api.{OrderRequest, number, text, perpetual_order}
use perpetual_custom.Handlers.Json.{unmarshall_order-jsonify_perpetual_order}
use perpetual_custom.Tests.Data.{buyer, seller}
use perpetual_custom.Tests.Signing.{typed}

abbrev asked : OrderRequest ℤ
asked = record {
  market = codes "PBTC-USDC";
  side = codes "BUY";
  amount = number (pos 3);
  price = number (pos 5);
  maker = buyer;
  taker = seller;
  expiration = none;
  post_only = none;
  limit_fee = some (number (pos 0));
  salt = some (text (codes "111"));
}

abbrev created : SignedOrder ℤ
created = record { order = perpetual_order 0 (pos 0) asked; typed_signature = typed }

unmarshall_order-jsonify_perpetual_order_example :
    unmarshall_order (some created.taker) (jsonify_perpetual_order created) ≡ created
unmarshall_order-jsonify_perpetual_order_example =
    unmarshall_order-jsonify_perpetual_order created refl refl refl

-- A contract that takes any funding rate as it is.
abbrev pub unbounded : Perpetual
unbounded = record {
  get_funding_of = λ _. err (external []);
  call_set_funding_rate = λ _ rate. ok rate;
  send_set_funding_rate = λ _ _. err (external []);
  max_abs_value = err (external []);
  max_abs_diff_per_second = err (external []);
  index_of_account = λ _. err (external []);
  global_index = err (external []);
  price_for = λ _. err (external []);
  orders_status = λ _. err (external []);
  send_approve_order = λ _ _. err (external []);
  send_cancel_order = λ _ _. err (external []);
  liquidate_with = λ _ _ _ _ _ _ _. err (external []);
  balance_of = λ _. err (external []);
  send_mint = λ _ _ _. err (external []);
}

abbrev rate : FundingRate ℤ
rate = record { value = negsuc 2 }

get_bounded_funding_rate-accepted_example : get_bounded_funding_rate unbounded rate seller ≡ ok rate
get_bounded_funding_rate-accepted_example =
    get_bounded_funding_rate-accepted unbounded rate seller refl refl
