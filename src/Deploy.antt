-- ===== src/Deploy.antt =====
-- scripts/helpers.ts: the deployment of the contracts, and src/addresses.ts, which saves their
-- addresses.
pub mod Load
pub mod Promise
pub mod Parts
pub mod Traders
pub mod Initial
pub mod Complete
use perpetual_custom.Base.{
  ℕ, ◌==◌, ◌≡◌, Bool, true, false, Option, none, some, List, [], ◌∷◌, if◌then◌else◌, Result, ok,
  err,
}
use perpetual_custom.Base.Text.{Text, codes, text_eq}
use perpetual_custom.Types.{Address, Error, type_error, no_address}
use perpetual_custom.Networks.{
  ethereum, okc, kovan, goerli, dev, get_weth_address, get_token_address,
  get_maker_price_oracle_address, get_min_collateralization, get_insurance_fee,
  get_oracle_adjustment,
}
use perpetual_custom.Script.{
  Arg, text, number, flag, undefined, optional, Call, create, contract_at, invoke, Log, Chain,
  AddressBook, book_set, Deployment, Script, return, proceed, ◌>>=◌, ◌>>◌, set_address, address_of,
  first_signer, request,
}

-- `saveDeploymentsAddress`, with the book of this network only
unfoldable pub save_deployments_address : Bool → ℕ → Script AddressBook
save_deployments_address save network s = (
  record s { saved = if save then some (network, s.address_book) else s.saved },
  ok s.address_book,
)

module _ (K : Chain) where
  abbrev pub get_deployer_address : ℕ → Address
  get_deployer_address network = K.deployer_account

  abbrev pub get_deleveraging_operator_address : ℕ → Address
  get_deleveraging_operator_address network = K.deleveraging_account

  abbrev pub get_funding_rate_provider_address : ℕ → Address
  get_funding_rate_provider_address network = K.deployer_account

  abbrev pub get_insurance_fund_address : ℕ → Address
  get_insurance_fund_address network = K.deployer_account

  abbrev deploy_contract : Text → List Arg → Script Address
  deploy_contract contract_name constructor_args = request K (create contract_name constructor_args)

  unfoldable pub deploy_protocol : ℕ → Script Unit
  deploy_protocol network = do
    perpetual_v1 ← deploy_contract (codes "PerpetualV1") []
    deployer ← first_signer K.signers
    perpetual_proxy ←
        deploy_contract (codes "PerpetualProxy")
          (text perpetual_v1 ∷ text deployer ∷ text (codes "0x") ∷ [])
    set_address (codes "PerpetualV1") perpetual_v1
    set_address (codes "PerpetualProxy") perpetual_proxy

  unfoldable pub deploy_test_funder : ℕ → Script Unit
  deploy_test_funder network =
      if network == dev
      then (do
        funder ← deploy_contract (codes "Test_P1Funder") []
        set_address (codes "Test_P1Funder") funder)
      else return tt

  unfoldable pub deploy_test_contracts : ℕ → Script Unit
  deploy_test_contracts network = do
    deploy_test_funder network
    weth9 ← deploy_contract (codes "WETH9") []
    set_address (codes "WETH9") weth9
    chainlink_oracle ← deploy_contract (codes "Test_ChainlinkAggregator") []
    request K (
        invoke (some chainlink_oracle) (codes "setAnswer")
          (text (K.parse_units (codes "18200") 18) ∷ []))
    set_address (codes "Test_ChainlinkAggregator") chainlink_oracle

  unfoldable pub deploy_oracles : Option Text → ℕ → Script Unit
  deploy_oracles perpetual_proxy network = do
    funding_oracle ←
        deploy_contract (codes "P1FundingOracle")
          (text (get_funding_rate_provider_address network) ∷ [])
    aggregator ← address_of (codes "Test_ChainlinkAggregator")
    p1_chainlink_oracle ← deploy_contract (codes "P1ChainlinkOracle") (
        optional aggregator
        ∷ optional perpetual_proxy
        ∷ number (get_oracle_adjustment network)
        ∷ [])
    set_address (codes "P1FundingOracle") funding_oracle
    set_address (codes "P1ChainlinkOracle") p1_chainlink_oracle

  -- the loop over `globalOperators`
  unfoldable pub set_global_operators : Option Text → List Address → Script Unit
  set_global_operators perpetual [] = return tt
  set_global_operators perpetual (a ∷ as') = do
    request K (invoke perpetual (codes "setGlobalOperator") (text a ∷ flag true ∷ []))
    set_global_operators perpetual as'

  unfoldable pub deploy_traders : Option Text → ℕ → Script Unit
  deploy_traders perpetual_proxy network = do
    p1_orders ← deploy_contract (codes "P1Orders") (optional perpetual_proxy ∷ number network ∷ [])
    p1_inverse_orders ←
        deploy_contract (codes "P1InverseOrders") (optional perpetual_proxy ∷ number network ∷ [])
    p1_deleveraging ←
        deploy_contract (codes "P1Deleveraging")
          (optional perpetual_proxy ∷ text (get_deleveraging_operator_address network) ∷ [])
    p1_liquidation ← deploy_contract (codes "P1Liquidation") (optional perpetual_proxy ∷ [])
    p1_currency_converter_proxy ← deploy_contract (codes "P1CurrencyConverterProxy") []
    p1_liquidator_proxy ← deploy_contract (codes "P1LiquidatorProxy") (
        optional perpetual_proxy
        ∷ text p1_liquidation
        ∷ text (get_insurance_fund_address network)
        ∷ text (get_insurance_fee network)
        ∷ [])
    weth9 ← address_of (codes "WETH9")
    p1_weth_proxy ← deploy_contract (codes "P1WethProxy") (optional weth9 ∷ [])
    request K (
        invoke (some p1_currency_converter_proxy) (codes "approveMaximumOnPerpetual")
          (optional perpetual_proxy ∷ []))
    request K (invoke (some p1_liquidator_proxy) (codes "approveMaximumOnPerpetual") [])
    request K (
        invoke (some p1_weth_proxy) (codes "approveMaximumOnPerpetual")
          (optional perpetual_proxy ∷ []))
    request K (contract_at (codes "PerpetualV1") perpetual_proxy)
    set_global_operators perpetual_proxy (
        p1_orders ∷ p1_inverse_orders ∷ p1_deleveraging ∷ p1_liquidation
        ∷ p1_currency_converter_proxy ∷ p1_liquidator_proxy ∷ p1_weth_proxy ∷ [])
    set_address (codes "P1Orders") p1_orders
    set_address (codes "P1Liquidation") p1_liquidation
    set_address (codes "P1Deleveraging") p1_deleveraging
    set_address (codes "P1CurrencyConverterProxy") p1_currency_converter_proxy
    set_address (codes "P1WethProxy") p1_weth_proxy
    set_address (codes "P1LiquidatorProxy") p1_liquidator_proxy

  unfoldable pub initialize_perpetual :
      Option Text → Option Text → Option Text → Text → ℕ → Script Unit
  initialize_perpetual perpetual_proxy price_oracle funding_oracle margin_token network = do
    request K (contract_at (codes "PerpetualV1") perpetual_proxy)
    request K (
        invoke perpetual_proxy (codes "initializeV1") (
          text margin_token
          ∷ optional price_oracle
          ∷ optional funding_oracle
          ∷ text (get_min_collateralization network)
          ∷ []))
    return tt

  unfoldable pub deploy_contracts : Bool → Script AddressBook
  deploy_contracts save = do
    let network = K.chain_id
    deploy_test_contracts network
    deploy_protocol network
    perpetual_proxy ← address_of (codes "PerpetualProxy")
    deploy_oracles perpetual_proxy network
    funding_oracle ←
        address_of (if network == dev then codes "Test_P1Funder" else codes "P1FundingOracle")
    price_oracle ← address_of (codes "P1ChainlinkOracle")
    token_contract ←
        deploy_contract (codes "MockToken")
          (text (codes "USD Center") ∷ text (codes "USDC") ∷ number 6 ∷ [])
    set_address (codes "MarginToken") token_contract
    initialize_perpetual perpetual_proxy price_oracle funding_oracle token_contract network
    deploy_traders perpetual_proxy network
    save_deployments_address save network

  -- `deploy`, which starts with an empty book
  unfoldable pub deploy :
      Bool → Log → Option (ℕ × AddressBook) → Deployment × Result Error AddressBook
  deploy save log saved =
      deploy_contracts save (record { log = log; address_book = λ _. none; saved = saved })
