-- ===== src/App/Laws.antt =====
-- About start_up: the settings, the signers and the contracts of a server that starts.
use perpetual_custom.Base.{
  ℕ, ◌≡◌, refl, sym, ap, ◌∙◌, subst, inl, inr, Option, none, some, [], ◌∷◌, Option-cases, Result,
  ok, err, Result-cases, ok-injective,
}
use perpetual_custom.Base.Text.{Text, codes}
use perpetual_custom.BigNumber.{BigNumber}
use perpetual_custom.Types.{Address, Error}
use perpetual_custom.Environment.{Packages}
use perpetual_custom.Config.{Config, key_of, load_config}
use perpetual_custom.Config.Laws.{IsChecked, load_config-IsChecked}
use perpetual_custom.Wallets.{WalletByAddress, no_wallets, unlock_all}
use perpetual_custom.Wallets.Laws.{SignsFor, unlock_all-SignsFor}
use perpetual_custom.Script.{AddressBook}
use perpetual_custom.Deploy.Load.{LoadedContracts, new_contracts, load_contract_from_address_book}
use perpetual_custom.App.{App, network_of, contracts_of, get_default_app_dependencies, start_up}

module _ (V J : Type 0) ⦃N : BigNumber V⦄ (P : Packages V J) (env : Text → Option Text)
    (new_wallet : Text → Result Error Address) (connect : Text → Option Text → Result Error Address)
    (deployments : ℕ → Option AddressBook) where
  -- The settings are checked, the server signs for each account with a key of it, and the contracts
  -- are those of the book of a network.
  pub record IsReady (app : App V J) : Type 0 where
    pub checked : IsChecked V J P env app.config
    pub operator : SignsFor new_wallet app.wallets app.config.operator_account
    pub deleveraging : SignsFor new_wallet app.wallets app.config.deleveraging_account
    pub deployer : SignsFor new_wallet app.wallets app.config.deployer_account
    pub contracts :
        (network : ℕ) × (book : AddressBook) × (network_of app.config.chain_id ≡ some network)
        × (deployments network ≡ some book)
        × (load_contract_from_address_book connect (codes "PBTC-USDC") network book
            ≡ ok app.contracts)

  SignsFor-key :
      (wallets : WalletByAddress) (p : Option Text) (a : Address)
      → ((k : Text) (x y : Address)
          → new_wallet k ≡ ok x
          → P.compute_address (some k) ≡ ok y
          → x ≡ y)
      → P.compute_address p ≡ ok a
      → (key account : Text) × (p ≡ some key)
        × (new_wallet key ≡ ok account)
        × SignsFor new_wallet wallets account
      → SignsFor new_wallet wallets a
  SignsFor-key wallets p a agree computed (key, account, given, made, signs) =
      subst (SignsFor new_wallet wallets)
        (agree key account a made (ap P.compute_address (sym given) ∙ computed)) signs

  contracts_of_parts :
      (o : Option ℕ) (c : LoadedContracts)
      → contracts_of connect deployments (codes "PBTC-USDC") o ≡ ok c
      → (network : ℕ) × (book : AddressBook) × (o ≡ some network)
        × (deployments network ≡ some book)
        × (load_contract_from_address_book connect (codes "PBTC-USDC") network book ≡ ok c)
  unfolding new_contracts
  contracts_of_parts none c h = absurd (cc h)
  contracts_of_parts (some network) c h = elim (Option-cases (deployments network)) [
    | inl e ↦ absurd (cc (rw (e, new_contracts) at h))
    | inr (book, e) ↦ (network, book, refl, e, rw (e, new_contracts) at h)
  ]

  abbrev opening : Config V J → Result Error WalletByAddress
  opening config =
      unlock_all new_wallet
        (key_of config.deployer_private_key
          ∷ key_of config.deleveraging_private_key
          ∷ key_of config.operator_private_key
          ∷ [])
        no_wallets

  abbrev Started : App V J → Type 0
  Started app =
      (load_config V J P env ≡ ok app.config)
      × (opening app.config ≡ ok app.wallets)
      × (contracts_of connect deployments (codes "PBTC-USDC") (network_of app.config.chain_id)
          ≡ ok app.contracts)

  -- The parts of a start that succeeds.
  start_up_parts :
      (app : App V J) → start_up V J P env new_wallet connect deployments ≡ ok app → Started app
  unfolding start_up get_default_app_dependencies
  start_up_parts app h = elim (Result-cases (load_config V J P env)) [
    | inl (e, bad) ↦ absurd (cc (rw bad at h))
    | inr (config, loaded) ↦
        let h1 = rw loaded at h in
        elim (Result-cases (opening config)) [
          | inl (e, bad) ↦ absurd (cc (rw bad at h1))
          | inr (wallets, opened) ↦
              let h2 = rw opened at h1 in
              elim (Result-cases (
                contracts_of connect deployments (codes "PBTC-USDC")
                  (network_of config.chain_id))) [
                    | inl (e, bad) ↦ absurd (cc (rw bad at h2))
                    | inr (contracts, known) ↦
                        let same = ok-injective (rw known at h2) in
                        subst Started same (loaded, opened, known)
                  ]
        ]
  ]

  -- A server that starts has ports from 0 to 65535 and three keys that are set and not empty; it has
  -- a wallet of its own for each of their accounts, with a key of that account; and its contracts are
  -- loaded from the book of its network among the deployments. The address of a missing key is
  -- assumed to throw, and a wallet to have the address that is computed from its key, if the key
  -- gives a wallet and an address is computed from it.
  pub start_up-IsReady :
      (e : Error)
      → P.compute_address none ≡ err e
      → ((k : Text) (x y : Address)
          → new_wallet k ≡ ok x
          → P.compute_address (some k) ≡ ok y
          → x ≡ y)
      → (app : App V J) → start_up V J P env new_wallet connect deployments ≡ ok app
      → IsReady app
  start_up-IsReady e missing agree app h =
      let (loaded, opened, known) = start_up_parts app h in
      let checked = load_config-IsChecked V J P env e missing app.config loaded in
      let (k1, (k2, (k3, _))) = unlock_all-SignsFor new_wallet _ app.wallets opened in
      record {
        checked = checked;
        operator = SignsFor-key app.wallets _ _ agree checked.operator_key k3;
        deleveraging = SignsFor-key app.wallets _ _ agree checked.deleveraging_key k2;
        deployer = SignsFor-key app.wallets _ _ agree checked.deployer_key k1;
        contracts = contracts_of_parts _ app.contracts known;
      }
