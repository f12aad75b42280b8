-- ===== src/Deploy/Parts.antt =====
-- The parts of a deployment: what holds after each one that returns.
use perpetual_custom.Base.{
  ℕ, ◌==◌, ◌≡◌, refl, inl, inr, List, [], ◌∷◌, Option, some, true, All, All-imp, Bool-cases,
}
use mathlib.Core.List.{Memᴰ}
use perpetual_custom.Base.Text.{Text, codes}
use perpetual_custom.Types.{Address}
use perpetual_custom.Script.{
  Chain, create, contract_at, invoke, text, number, optional, Log, Deployment, AddressBook,
  book_set,
}
use perpetual_custom.Deploy.{
  deploy_protocol, deploy_oracles, initialize_perpetual, deploy_test_funder, deploy_test_contracts,
  set_global_operators,
}
use perpetual_custom.Networks.{dev, get_oracle_adjustment, get_min_collateralization}
use perpetual_custom.Script.Steps.{
  After, After-request, After-proceed, After-set_address, After-address_of, After-first_signer,
  After-set_last, After-return,
}
use perpetual_custom.Deploy.Promise.{Extends, IsOperator, Answered}

IsOperator-Extends :
    (log log' : Log) (perpetual : Option Text) (as' : List Text)
    → Extends log log'
    → All (IsOperator log perpetual) as'
    → All (IsOperator log' perpetual) as'
IsOperator-Extends log log' perpetual as' ext h = All-imp _ _ as' (λ a k. (k.0, ext _ _ k.1)) h

module _ (K : Chain) (P : Unit → Deployment → Type 0) where
  pub After-deploy_protocol :
      (network : ℕ) (s : Deployment)
      → ((v d p : Text)
          → P tt (record s {
            log =
                (create (codes "PerpetualProxy") (text v ∷ text d ∷ text (codes "0x") ∷ []), p)
                ∷ (create (codes "PerpetualV1") [], v)
                ∷ s.log;
            address_book =
                book_set
                  (codes "PerpetualProxy")
                  p
                  (book_set (codes "PerpetualV1") v s.address_book);
          }))
      → After K P (deploy_protocol K network s)
  unfolding deploy_protocol
  After-deploy_protocol network s h = After-request K P _ _ _ λ v. After-first_signer K P _ _ λ d.
      After-request K P _ _ _
        λ p. After-set_address K P _ _ _ _ (After-set_last K P _ _ _ (h v d p))

  pub After-deploy_test_funder :
      (network : ℕ) (s : Deployment)
      → ((log : Log) (book : AddressBook)
          → ((network == dev) ≡ true
              → (t : Text) × Answered log (create (codes "Test_P1Funder") []) t
                × (book (codes "Test_P1Funder") ≡ some t))
          → P tt (record s { log = log; address_book = book }))
      → After K P (deploy_test_funder K network s)
  unfolding deploy_test_funder
  After-deploy_test_funder network s h = elim (Bool-cases (network == dev)) [
    | inl e ↦ rw e (
        After-request K P _ _ _
          λ t. After-set_last K P _ _ _ (h _ _ (λ _. (t, Memᴰ.head refl, refl))))
    | inr e ↦ rw e (After-return K P s (h s.log s.address_book λ d. absurd (cc (e, d))))
  ]

  pub After-deploy_oracles :
      (perpetual_proxy : Option Text) (network : ℕ) (s : Deployment)
      → ((f o : Text)
          → P tt (record s {
            log =
                (
                  create (codes "P1ChainlinkOracle") (
                      optional (s.address_book (codes "Test_ChainlinkAggregator"))
                      ∷ optional perpetual_proxy
                      ∷ number (get_oracle_adjustment network)
                      ∷ []),
                  o,
                )
                ∷ (create (codes "P1FundingOracle") (text K.deployer_account ∷ []), f)
                ∷ s.log;
            address_book =
                book_set
                  (codes "P1ChainlinkOracle")
                  o
                  (book_set (codes "P1FundingOracle") f s.address_book);
          }))
      → After K P (deploy_oracles K perpetual_proxy network s)
  unfolding deploy_oracles
  After-deploy_oracles perpetual_proxy network s h = After-request K P _ _ _ λ f.
      After-address_of K P _ _ _ (
        After-request K P _ _ _
          λ o. After-set_address K P _ _ _ _ (After-set_last K P _ _ _ (h f o)))

  pub After-initialize_perpetual :
      (perpetual_proxy price_oracle funding_oracle : Option Text) (margin_token : Text)
      (network : ℕ) (s : Deployment)
      → ((a t : Text)
          → P tt (record s {
            log =
                (
                  invoke perpetual_proxy (codes "initializeV1") (
                      text margin_token
                      ∷ optional price_oracle
                      ∷ optional funding_oracle
                      ∷ text (get_min_collateralization network)
                      ∷ []),
                  t,
                )
                ∷ (contract_at (codes "PerpetualV1") perpetual_proxy, a)
                ∷ s.log;
          }))
      → After K P (
          initialize_perpetual K perpetual_proxy price_oracle funding_oracle margin_token network s)
  unfolding initialize_perpetual
  After-initialize_perpetual perpetual_proxy price_oracle funding_oracle margin_token network s h =
      After-request K P _ _ _ λ a. After-request K P _ _ _ λ t. After-return K P _ (h a t)

  pub After-set_global_operators :
      (perpetual : Option Text) (as' : List Address) (s : Deployment)
      → ((log : Log)
          → Extends s.log log
          → All (IsOperator log perpetual) as'
          → P tt (record s { log = log }))
      → After K P (set_global_operators K perpetual as' s)
  unfolding set_global_operators
  After-set_global_operators perpetual [] s h = After-return K P s (h s.log (λ call t m. m) tt)
  After-set_global_operators perpetual (a ∷ as') s h = After-request K P _ _ _ λ t.
      After-set_global_operators perpetual as' _ λ log ext all.
        h log (λ call u m. ext call u (Memᴰ.tail m)) ((t, ext _ t (Memᴰ.head refl)), all)

-- The test contracts, of which a book without the funder's name has the aggregator and WETH9.
pub After-deploy_test_contracts :
    (K : Chain) (P : Unit → Deployment → Type 0) (network : ℕ) (s : Deployment)
    → ((log : Log) (book : AddressBook) (aggregator : Text)
        → Answered log (create (codes "Test_ChainlinkAggregator") []) aggregator
        → book (codes "Test_ChainlinkAggregator") ≡ some aggregator
        → ((network == dev) ≡ true
            → (t : Text) × Answered log (create (codes "Test_P1Funder") []) t
              × (book (codes "Test_P1Funder") ≡ some t))
        → P tt (record s { log = log; address_book = book }))
    → After K P (deploy_test_contracts K network s)
unfolding deploy_test_contracts
After-deploy_test_contracts K P network s h = After-proceed K P _ _ (
    After-deploy_test_funder K _ network s λ log book funder. After-request K P _ _ _ λ w.
      After-set_address K P _ _ _ _ (
        After-request K P _ _ _ λ aggregator. After-request K P _ _ _ λ t.
          After-set_last K P _ _ _ (
            h _ _ aggregator (Memᴰ.tail (Memᴰ.head refl)) refl (λ d.
              let (f, made, listed) = funder d in
              (f, Memᴰ.tail (Memᴰ.tail (Memᴰ.tail made)), listed)))))
