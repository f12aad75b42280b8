-- ===== src/Deploy/Complete.antt =====
-- About deploy: the book of addresses of scripts/helpers.ts and the client of src/contracts.ts.
use perpetual_custom.Base.{
  ℕ, ◌==◌, ◌≡◌, refl, ap, inl, inr, Bool, true, false, Option, some, Bool-cases, if◌then◌else◌,
  Result, ok, [],
}
use perpetual_custom.Base.Text.{Text, codes}
use perpetual_custom.Types.{Address, Error}
use perpetual_custom.Script.{Chain, Log, create, Deployment, AddressBook, book_set}
use perpetual_custom.Networks.{dev}
use perpetual_custom.Deploy.{save_deployments_address, deploy_contracts, deploy}
use perpetual_custom.Deploy.Load.{LoadedContracts, load_contract_from_address_book}
use perpetual_custom.Deploy.Promise.{IsDeployed, Answered}
use perpetual_custom.Script.Steps.{
  After, Outcome, After-Outcome, After-request, After-proceed, After-set_address, After-address_of,
}
use perpetual_custom.Deploy.Parts.{
  After-deploy_protocol, After-deploy_oracles, After-deploy_test_contracts,
  After-initialize_perpetual,
}
use perpetual_custom.Deploy.Initial.{initial_log, initial_log-IsDeployed}
use perpetual_custom.Deploy.Traders.{After-deploy_traders}

-- The funding oracle that the perpetual is initialised with.
funding_name :
    (network : ℕ) (book : AddressBook) (oracle : Text) (log : Log)
    → ((network == dev) ≡ true
        → (t : Text) × Answered log (create (codes "Test_P1Funder") []) t
          × (book (codes "Test_P1Funder") ≡ some t))
    → book (codes "P1FundingOracle") ≡ some oracle
    → (funding : Text) × (book
          (if network == dev then codes "Test_P1Funder" else codes "P1FundingOracle")
        ≡ some funding)
      × ((network == dev) ≡ true → Answered log (create (codes "Test_P1Funder") []) funding)
      × ((network == dev) ≡ false → funding ≡ oracle)
funding_name network book oracle log funder set = elim (Bool-cases (network == dev)) [
  | inl e ↦ let (t, made, found) = funder e in (t, rw e found, (λ _. made), λ d. absurd (cc (e, d)))
  | inr e ↦ (oracle, rw e set, (λ d. absurd (cc (e, d))), λ _. refl)
]

-- A book that has the nine names loads.
load-ok :
    (connect : Text → Option Text → Result Error Address) (market : Text) (network : ℕ)
    → ((factory a : Text) → connect factory (some a) ≡ ok a)
    → (book : AddressBook) (c : LoadedContracts) → book (codes "P1Orders") ≡ some c.p1_orders
    → book (codes "P1Liquidation") ≡ some c.p1_liquidation
    → book (codes "P1Deleveraging") ≡ some c.p1_deleveraging
    → book (codes "PerpetualV1") ≡ some c.perpetual_v1
    → book (codes "PerpetualProxy") ≡ some c.perpetual_proxy
    → book (codes "MarginToken") ≡ some c.margin_token
    → book (codes "P1ChainlinkOracle") ≡ some c.price_oracle
    → book (codes "P1FundingOracle") ≡ some c.funding_oracle
    → book (codes "P1LiquidatorProxy") ≡ some c.liquidator_proxy
    → load_contract_from_address_book connect market network book
      ≡ ok (record c { market = market; network_id = network })
unfolding load_contract_from_address_book
load-ok connect market network connects book c e1 e2 e3 e4 e5 e6 e7 e8 e9 =
    rw (e1, connects (codes "P1Orders"))
      (rw (e2, connects (codes "P1Liquidation"))
        (rw (e3, connects (codes "P1Deleveraging"))
          (rw (e4, connects (codes "PerpetualV1"))
            (rw (e5, connects (codes "PerpetualV1"))
              (rw (e6, connects (codes "MockToken"))
                (rw (e7, connects (codes "P1ChainlinkOracle"))
                  (rw (e8, connects (codes "P1FundingOracle"))
                    (rw (e9, connects (codes "P1LiquidatorProxy")) refl))))))))

module _ (K : Chain) (connect : Text → Option Text → Result Error Address) (market : Text)
    (connects : (factory a : Text) → connect factory (some a) ≡ ok a) (save : Bool) where
  -- The book loads, to contracts that are deployed as they should be.
  abbrev pub Loads : Option (ℕ × AddressBook) → AddressBook → Deployment → Type 0
  Loads saved book s =
      (c : LoadedContracts) × (load_contract_from_address_book connect market K.chain_id book
        ≡ ok c)
      × IsDeployed K s.log c
      × (s.saved ≡ (if save then some (K.chain_id, book) else saved))

  save-Loads :
      (saved : Option (ℕ × AddressBook)) (c : LoadedContracts) (s : Deployment)
      → load_contract_from_address_book connect market K.chain_id s.address_book ≡ ok c
      → IsDeployed K s.log c
      → s.saved ≡ saved
      → After K (Loads saved) (save_deployments_address save K.chain_id s)
  unfolding save_deployments_address After
  save-Loads saved c s loaded deployed e =
      (c, loaded, deployed, ap (λ x. if save then some (K.chain_id, s.address_book) else x) e)

  deploy_contracts-Loads : (s : Deployment) → After K (Loads s.saved) (deploy_contracts K save s)
  unfolding deploy_contracts initial_log
  deploy_contracts-Loads s = After-proceed K _ _ _ (
      After-deploy_test_contracts K _ K.chain_id s λ log0 book0 aggregator created listed funder.
        After-proceed K _ _ _ (
          After-deploy_protocol K _ K.chain_id _ λ v d p. After-address_of K _ _ _ _ (
            After-proceed K _ _ _ (
              After-deploy_oracles K _ _ K.chain_id _ λ f o. After-address_of K _ _ _ _ (
                After-address_of K _ _ _ _ (
                  After-request K _ _ _ _ λ m. After-set_address K _ _ _ _ _ (
                    After-proceed K _ _ _ (
                      After-initialize_perpetual K _ _ _ _ m K.chain_id _ λ a t.
                        After-proceed K _ _ _ (
                          After-deploy_traders K _ _ K.chain_id _
                            λ log orders inverse deleveraging liquidation converter liquidator weth
                                ext h1 h2 h3 h4 others ops.
                              let book = book_set (codes "P1ChainlinkOracle") o (
                                book_set (codes "P1FundingOracle") f (
                                  book_set (codes "PerpetualProxy") p
                                    (book_set (codes "PerpetualV1") v book0))) in
                              let (funding, found, is_funder, is_oracle) =
                                funding_name K.chain_id book f log0 funder refl in
                              let c : LoadedContracts = record {
                                p1_orders = orders;
                                p1_liquidation = liquidation;
                                p1_deleveraging = deleveraging;
                                perpetual_v1 = v;
                                perpetual_proxy = p;
                                margin_token = m;
                                price_oracle = o;
                                funding_oracle = f;
                                liquidator_proxy = liquidator;
                                market = market;
                                network_id = K.chain_id;
                              } in
                              save-Loads _ c _
                                (load-ok connect market K.chain_id connects _ c refl refl refl refl
                                  refl refl refl refl refl)
                                (initial_log-IsDeployed K c d aggregator funding a t log0 log
                                  inverse converter weth created is_funder is_oracle
                                  (rw (listed, found) at ext) h1 h2 h3 h4 others ops)
                                refl)))))))))

  -- A deployment returns a book or it is stopped, by a request that the chain rejects after the
  -- requests so far or by the lack of a signer. If it returns, a client loads all its contracts from
  -- the book; each is the one that the deployment has created, on the perpetual's proxy, which has
  -- been initialised with the margin token, the price oracle and the funding oracle, or on the
  -- development network the test funder; the traders and proxies, also those that the client does
  -- not load, are created and are all operators of it; and the book is saved under its network
  -- exactly if that was asked for. A factory is assumed to connect at any address it is given.
  pub deploy-Loads :
      (log : Log) (saved : Option (ℕ × AddressBook))
      → Outcome K (Loads saved) (deploy K save log saved)
  unfolding deploy
  deploy-Loads log saved = After-Outcome K (Loads saved) _ (deploy_contracts-Loads _)
