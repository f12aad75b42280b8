-- ===== src/Api.antt =====
-- src/api.ts: the creation of a signed order from what a client asks for, and the pseudo-random salt
-- of src/utils.ts. `BigNumber.random(78)` is a parameter.
pub mod Laws
use perpetual_custom.Base.{
  ℕ, ◌*◌, Bool, true, false, not, ◌||◌, Option, none, some, List, [], ◌∷◌, any, if◌then◌else◌,
  Result, ok, err, ◌>>=◌,
}
use perpetual_custom.Base.Text.{Text, codes, text_eq}
use perpetual_custom.BigNumber.{BigNumber}
use perpetual_custom.Types.{Address, Fee, Order, SignedOrder, Error, invalid_market, invalid_side}
use perpetual_custom.Ethers.{Ethers, Contracts}
use perpetual_custom.OrderUtils.{get_real_expiration}
use perpetual_custom.Orders.{get_fee_for_order, sign_order, signing_hash}

-- `BigNumberable`
pub data BigNumberable (V : Type 0) : Type 0 where
  big_number : V → BigNumberable V
  number : V → BigNumberable V
  text : Text → BigNumberable V

-- The values of `ApiMarketName` and `ApiSide`.
abbrev pub api_market_names : List Text
api_market_names = codes "PBTC-USDC" ∷ codes "WETH-PUSD" ∷ codes "PLINK-USDC" ∷ []

abbrev pub buy : Text
buy = codes "BUY"

abbrev pub api_sides : List Text
api_sides = buy ∷ codes "SELL" ∷ []

abbrev pub includes : List Text → Text → Bool
includes names name = any (text_eq name) names

-- The argument of `createPerpetualOrder`.
pub record OrderRequest (V : Type 0) : Type 0 where
  pub market : Text
  pub side : Text
  pub amount : BigNumberable V
  pub price : BigNumberable V
  pub maker : Address
  pub taker : Address
  pub expiration : Option (BigNumberable V)
  pub post_only : Option Bool
  pub limit_fee : Option (BigNumberable V)
  pub salt : Option (BigNumberable V)

abbrev pub four_weeks_in_seconds : ℕ
four_weeks_in_seconds = 60 * 60 * 24 * 28

-- Whether an optional flag counts as true.
abbrev pub is_set : Option Bool → Bool
is_set none = false
is_set (some b) = b

module _ {V : Type 0} ⦃N : BigNumber V⦄ where
  -- `new BigNumber(value)`
  unfoldable pub to_big_number : BigNumberable V → V
  to_big_number (big_number v) = v
  to_big_number (number v) = v
  to_big_number (text t) = N.of_text t

  -- Whether a value counts as true: not the number 0, and not the empty string.
  unfoldable pub is_truthy : BigNumberable V → Bool
  is_truthy (big_number v) = true
  is_truthy (number v) = not (N.eq v (N.of_ℕ 0))
  is_truthy (text []) = false
  is_truthy (text (c ∷ t)) = true

  -- `value ? new BigNumber(value) : fallback`
  unfoldable pub chosen_or : Option (BigNumberable V) → V → V
  chosen_or none fallback = fallback
  chosen_or (some v) fallback = if is_truthy v then to_big_number v else fallback

  unfoldable pub generate_pseudo_random_256_bit_number : V → V
  generate_pseudo_random_256_bit_number random =
      N.integer_value (N.times random (N.pow (N.of_ℕ 10) 77))

  -- The expiration that is asked for, four weeks if none is.
  unfoldable pub asked_expiration : Option (BigNumberable V) → V
  asked_expiration none = N.of_ℕ four_weeks_in_seconds
  asked_expiration (some v) = to_big_number v

  -- The order before its signature.
  unfoldable pub perpetual_order : ℕ → V → OrderRequest V → Order V
  perpetual_order now_ms random r =
      let amount_number = to_big_number r.amount in
      record {
        maker = r.maker;
        taker = r.taker;
        limit_fee = record {
          value =
              chosen_or r.limit_fee
                (get_fee_for_order amount_number (not (is_set r.post_only))).value;
        };
        is_buy = text_eq r.side buy;
        is_decrease_only = false;
        amount = amount_number;
        limit_price = record { value = to_big_number r.price };
        trigger_price = record { value = N.of_text (codes "0") };
        expiration = get_real_expiration now_ms (asked_expiration r.expiration);
        salt = chosen_or r.salt (generate_pseudo_random_256_bit_number random);
      }

  unfoldable pub create_perpetual_order :
      Ethers → Contracts → ℕ → V → OrderRequest V → Result Error (SignedOrder V)
  create_perpetual_order E c now_ms random r =
      if not (includes api_market_names r.market)
      then err (invalid_market r.market)
      else if not (includes api_sides r.side)
      then err (invalid_side r.side)
      else (do
        let o = perpetual_order now_ms random r
        typed_signature ← sign_order E c o signing_hash
        ok (record { order = o; typed_signature = typed_signature }))
