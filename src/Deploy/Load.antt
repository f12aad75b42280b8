-- ===== src/Deploy/Load.antt =====
-- src/contracts.ts: the contracts that a client takes from an address book. `connect` of the
-- generated factories is a parameter: by the name of its factory, at an address or at `undefined`.
use perpetual_custom.Base.{ℕ, Option, none, some, Result, ok, err, ◌>>=◌}
use perpetual_custom.Base.Text.{Text, codes}
use perpetual_custom.Types.{Address, Error, type_error}
use perpetual_custom.Script.{AddressBook}

-- `Contracts`, each contract by its address
pub record LoadedContracts : Type 0 where
  pub p1_orders : Address
  pub p1_liquidation : Address
  pub p1_deleveraging : Address
  pub perpetual_v1 : Address
  pub perpetual_proxy : Address
  pub margin_token : Address
  pub price_oracle : Address
  pub funding_oracle : Address
  pub liquidator_proxy : Address
  pub market : Text
  pub network_id : ℕ

module _ (connect : Text → Option Text → Result Error Address) (market : Text)
    (network_id : ℕ) where
  unfoldable pub load_contract_from_address_book : AddressBook → Result Error LoadedContracts
  load_contract_from_address_book address_book = do
    p1_orders ← connect (codes "P1Orders") (address_book (codes "P1Orders"))
    p1_liquidation ← connect (codes "P1Liquidation") (address_book (codes "P1Liquidation"))
    p1_deleveraging ← connect (codes "P1Deleveraging") (address_book (codes "P1Deleveraging"))
    perpetual_v1 ← connect (codes "PerpetualV1") (address_book (codes "PerpetualV1"))
    perpetual_proxy ← connect (codes "PerpetualV1") (address_book (codes "PerpetualProxy"))
    margin_token ← connect (codes "MockToken") (address_book (codes "MarginToken"))
    price_oracle ← connect (codes "P1ChainlinkOracle") (address_book (codes "P1ChainlinkOracle"))
    funding_oracle ← connect (codes "P1FundingOracle") (address_book (codes "P1FundingOracle"))
    liquidator_proxy ←
        connect (codes "P1LiquidatorProxy") (address_book (codes "P1LiquidatorProxy"))
    ok (record {
      p1_orders = p1_orders;
      p1_liquidation = p1_liquidation;
      p1_deleveraging = p1_deleveraging;
      perpetual_v1 = perpetual_v1;
      perpetual_proxy = perpetual_proxy;
      margin_token = margin_token;
      price_oracle = price_oracle;
      funding_oracle = funding_oracle;
      liquidator_proxy = liquidator_proxy;
      market = market;
      network_id = network_id;
    })

  -- The constructor: the book that is given, or the one of the network in deployments.json.
  unfoldable pub new_contracts :
      (ℕ → Option AddressBook) → Option AddressBook → Result Error LoadedContracts
  new_contracts deployments (some address_book) = load_contract_from_address_book address_book
  new_contracts deployments none = elim (deployments network_id) [
    | none ↦ err type_error
    | some address_book ↦ load_contract_from_address_book address_book
  ]
