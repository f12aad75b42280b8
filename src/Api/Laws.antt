-- ===== src/Api/Laws.antt =====
-- About createPerpetualOrder of src/api.ts: an order on its way from the client to the server.
use perpetual_custom.Base.{ℕ, ◌≡◌, ◌↔◌, true, false, some, if◌then◌else◌}
use perpetual_custom.Base.Text.{Text, codes}
use perpetual_custom.BigNumber.{BigNumber}
use perpetual_custom.Types.{Order}
use perpetual_custom.Ethers.{Ethers}
use perpetual_custom.OrderUtils.{now_seconds}
use perpetual_custom.Api.{OrderRequest, BigNumberable, to_big_number, is_truthy}

module _ {V : Type 0} ⦃N : BigNumber V⦄ (now_ms : ℕ) where
  -- The order has what the request asks for; what the request leaves out is not constrained.
  pub record IsAsked (r : OrderRequest V) (o : Order V) : Type 0 where
    pub maker : o.maker ≡ r.maker
    pub taker : o.taker ≡ r.taker
    pub buys : (o.is_buy ≡ true) ↔ (r.side ≡ codes "BUY")
    pub sells : (o.is_buy ≡ false) ↔ (r.side ≡ codes "SELL")
    pub decreases : o.is_decrease_only ≡ false
    pub amount : o.amount ≡ to_big_number r.amount
    pub price : (o.limit_price).value ≡ to_big_number r.price
    pub expiration :
        (v : BigNumberable V)
        → r.expiration ≡ some v
        → o.expiration ≡ (
            if N.eq (to_big_number v) (N.of_ℕ 0)
            then N.of_ℕ 0
            else N.plus (N.of_ℕ (now_seconds now_ms)) (to_big_number v))
    pub fee :
        (v : BigNumberable V)
        → r.limit_fee ≡ some v
        → is_truthy v ≡ true
        → (o.limit_fee).value ≡ to_big_number v
    pub salt :
        (v : BigNumberable V) → r.salt ≡ some v → is_truthy v ≡ true → o.salt ≡ to_big_number v
