-- ===== src/Deploy/Initial.antt =====
-- The log of a deployment whose oracles are set up, and what it promises with the traders.
use perpetual_custom.Base.{◌==◌, ◌≡◌, refl, [], ◌∷◌, false, true, some, All}
use mathlib.Core.List.{Memᴰ}
use perpetual_custom.Base.Text.{Text, codes}
use perpetual_custom.Script.{Chain, create, contract_at, text, number, Log, invoke}
use perpetual_custom.Networks.{
  get_oracle_adjustment, get_insurance_fee, dev, get_min_collateralization,
}
use perpetual_custom.Deploy.Load.{LoadedContracts}
use perpetual_custom.Deploy.Promise.{IsDeployed, Extends, IsOperator, Answered, OtherTraders}

-- The log after the last of the oracles is set up, with the contracts that it has created.
unfoldable pub initial_log : Chain → LoadedContracts → Text → Text → Text → Text → Text → Log → Log
initial_log K c deployer aggregator funding a t log =
    (
      invoke (some c.perpetual_proxy) (codes "initializeV1") (
          text c.margin_token
          ∷ text c.price_oracle
          ∷ text funding
          ∷ text (get_min_collateralization K.chain_id)
          ∷ []),
      t,
    )
    ∷ (contract_at (codes "PerpetualV1") (some c.perpetual_proxy), a)
    ∷ (
      create (codes "MockToken") (text (codes "USD Center") ∷ text (codes "USDC") ∷ number 6 ∷ []),
      c.margin_token,
    )
    ∷ (
      create (codes "P1ChainlinkOracle") (
          text aggregator
          ∷ text c.perpetual_proxy
          ∷ number (get_oracle_adjustment K.chain_id)
          ∷ []),
      c.price_oracle,
    )
    ∷ (create (codes "P1FundingOracle") (text K.deployer_account ∷ []), c.funding_oracle)
    ∷ (
      create (codes "PerpetualProxy")
          (text c.perpetual_v1 ∷ text deployer ∷ text (codes "0x") ∷ []),
      c.perpetual_proxy,
    )
    ∷ (create (codes "PerpetualV1") [], c.perpetual_v1)
    ∷ log

-- With the traders and their rights, that makes the deployment what it promises.
pub initial_log-IsDeployed :
    (K : Chain) (c : LoadedContracts) (deployer aggregator funding a t : Text) (log log' : Log)
    (inverse converter weth : Text)
    → Answered log (create (codes "Test_ChainlinkAggregator") []) aggregator
    → ((K.chain_id == dev) ≡ true → Answered log (create (codes "Test_P1Funder") []) funding)
    → ((K.chain_id == dev) ≡ false → funding ≡ c.funding_oracle)
    → Extends (initial_log K c deployer aggregator funding a t log) log'
    → Answered log'
        (create (codes "P1Orders") (text c.perpetual_proxy ∷ number K.chain_id ∷ []))
        c.p1_orders
    → Answered log'
        (create
          (codes "P1Deleveraging")
          (text c.perpetual_proxy ∷ text K.deleveraging_account ∷ []))
        c.p1_deleveraging
    → Answered log' (create (codes "P1Liquidation") (text c.perpetual_proxy ∷ [])) c.p1_liquidation
    → Answered log'
        (create (codes "P1LiquidatorProxy") (
          text c.perpetual_proxy
          ∷ text c.p1_liquidation
          ∷ text K.deployer_account
          ∷ text (get_insurance_fee K.chain_id)
          ∷ []))
        c.liquidator_proxy
    → OtherTraders log' (some c.perpetual_proxy) K.chain_id inverse converter weth
    → All (IsOperator log' (some c.perpetual_proxy)) (
        c.p1_orders ∷ inverse ∷ c.p1_deleveraging ∷ c.p1_liquidation ∷ converter
        ∷ c.liquidator_proxy ∷ weth ∷ [])
    → IsDeployed K log' c
unfolding initial_log
initial_log-IsDeployed K c d aggregator funding a t log log' inverse converter weth created
      is_funder is_oracle ext h1 h2 h3 h4 others ops =
    record {
      implementation =
          ext _ _ (
            Memᴰ.tail (Memᴰ.tail (Memᴰ.tail (Memᴰ.tail (Memᴰ.tail (Memᴰ.tail (Memᴰ.head refl)))))));
      proxy =
          (d, ext _ _ (Memᴰ.tail (Memᴰ.tail (Memᴰ.tail (Memᴰ.tail (Memᴰ.tail (Memᴰ.head refl)))))));
      funding_oracle = ext _ _ (Memᴰ.tail (Memᴰ.tail (Memᴰ.tail (Memᴰ.tail (Memᴰ.head refl)))));
      price_oracle = (
        aggregator,
        ext _ _ (
            Memᴰ.tail
              (Memᴰ.tail (Memᴰ.tail (Memᴰ.tail (Memᴰ.tail (Memᴰ.tail (Memᴰ.tail created))))))),
        ext _ _ (Memᴰ.tail (Memᴰ.tail (Memᴰ.tail (Memᴰ.head refl)))),
      );
      margin_token = ext _ _ (Memᴰ.tail (Memᴰ.tail (Memᴰ.head refl)));
      p1_orders = h1;
      p1_deleveraging = h2;
      p1_liquidation = h3;
      liquidator_proxy = h4;
      initialised = (
        funding,
        t,
        ext _ _ (Memᴰ.head refl),
        (λ d. ext _ _ (
            Memᴰ.tail (
              Memᴰ.tail
                (Memᴰ.tail (Memᴰ.tail (Memᴰ.tail (Memᴰ.tail (Memᴰ.tail (is_funder d))))))))),
        is_oracle,
      );
      operators = (inverse, converter, weth, others, ops);
    }
