-- ===== src/Deploy/Promise.antt =====
-- What a deployment promises of the contracts that a client takes from its book.
use perpetual_custom.Base.{ℕ, ◌==◌, ◌≡◌, true, false, Option, some, [], ◌∷◌, All}
use mathlib.Core.List.{Memᴰ}
use perpetual_custom.Base.Text.{Text, codes}
use perpetual_custom.Script.{Chain, Call, create, invoke, text, number, optional, flag, Log}
use perpetual_custom.Networks.{
  dev, get_min_collateralization, get_insurance_fee, get_oracle_adjustment,
}
use perpetual_custom.Deploy.Load.{LoadedContracts}

-- The chain has carried out a call with this answer.
abbrev pub Answered : Log → Call → Text → Type 0
Answered log call t = Memᴰ (call, t) log

abbrev pub Extends : Log → Log → Type 0
Extends log log' = (call : Call) (t : Text) → Answered log call t → Answered log' call t

-- The contract at an address has been told that another one may settle on it.
abbrev pub IsOperator : Log → Option Text → Text → Type 0
IsOperator log perpetual a =
    (t : Text) × Answered log
      (invoke perpetual (codes "setGlobalOperator") (text a ∷ flag true ∷ [])) t

-- The traders that the book of a client leaves out are created too.
abbrev pub OtherTraders : Log → Option Text → ℕ → Text → Text → Text → Type 0
OtherTraders log perpetual network inverse converter weth =
    Answered log (create (codes "P1InverseOrders") (optional perpetual ∷ number network ∷ []))
      inverse
    × Answered log (create (codes "P1CurrencyConverterProxy") []) converter
    × (weth9 : Option Text) × Answered log (create (codes "P1WethProxy") (optional weth9 ∷ [])) weth

-- Each contract is the one that the deployment has created, with the others where its constructor
-- wants them; the perpetual is initialised with the margin token, the price oracle and the funding
-- oracle, which on the development network is the test funder; and all seven traders and proxies are
-- its operators.
pub record IsDeployed (K : Chain) (log : Log) (c : LoadedContracts) : Type 0 where
  pub implementation : Answered log (create (codes "PerpetualV1") []) c.perpetual_v1
  pub proxy :
      (deployer : Text) × Answered log
        (create
          (codes "PerpetualProxy")
          (text c.perpetual_v1 ∷ text deployer ∷ text (codes "0x") ∷ []))
        c.perpetual_proxy
  pub funding_oracle :
      Answered log
        (create (codes "P1FundingOracle") (text K.deployer_account ∷ []))
        c.funding_oracle
  pub price_oracle :
      (aggregator : Text) × Answered log (create (codes "Test_ChainlinkAggregator") []) aggregator
      × Answered log
          (create (codes "P1ChainlinkOracle") (
            text aggregator
            ∷ text c.perpetual_proxy
            ∷ number (get_oracle_adjustment K.chain_id)
            ∷ []))
          c.price_oracle
  pub margin_token :
      Answered log
        (create
          (codes "MockToken")
          (text (codes "USD Center") ∷ text (codes "USDC") ∷ number 6 ∷ []))
        c.margin_token
  pub p1_orders :
      Answered log
        (create (codes "P1Orders") (text c.perpetual_proxy ∷ number K.chain_id ∷ []))
        c.p1_orders
  pub p1_deleveraging :
      Answered log
        (create
          (codes "P1Deleveraging")
          (text c.perpetual_proxy ∷ text K.deleveraging_account ∷ []))
        c.p1_deleveraging
  pub p1_liquidation :
      Answered log (create (codes "P1Liquidation") (text c.perpetual_proxy ∷ [])) c.p1_liquidation
  pub liquidator_proxy :
      Answered log
        (create (codes "P1LiquidatorProxy") (
          text c.perpetual_proxy
          ∷ text c.p1_liquidation
          ∷ text K.deployer_account
          ∷ text (get_insurance_fee K.chain_id)
          ∷ []))
        c.liquidator_proxy
  pub initialised :
      (funding t : Text) × Answered log
        (invoke (some c.perpetual_proxy) (codes "initializeV1") (
          text c.margin_token
          ∷ text c.price_oracle
          ∷ text funding
          ∷ text (get_min_collateralization K.chain_id)
          ∷ []))
        t
      × ((K.chain_id == dev) ≡ true → Answered log (create (codes "Test_P1Funder") []) funding)
      × ((K.chain_id == dev) ≡ false → funding ≡ c.funding_oracle)
  pub operators :
      (inverse converter weth : Text) × OtherTraders log
        (some c.perpetual_proxy)
        K.chain_id
        inverse
        converter
        weth
      × All (IsOperator log (some c.perpetual_proxy)) (
          c.p1_orders ∷ inverse ∷ c.p1_deleveraging ∷ c.p1_liquidation ∷ converter
          ∷ c.liquidator_proxy ∷ weth ∷ [])
