-- ===== src/App.antt =====
-- src/app.ts, getDefaultAppDependenciesAsync: what the server has when it starts, with the settings of
-- src/config.ts, the unlocked wallets and the contracts of its market. The database, the node and the
-- socket are the framework's.
pub mod Laws
use perpetual_custom.Base.{ℕ, ◌≡◌, Option, none, some, List, [], ◌∷◌, Result, ok, err, ◌>>=◌}
use perpetual_custom.Base.Int.{pos, negsuc}
use perpetual_custom.Base.Text.{Text, codes}
use perpetual_custom.BigNumber.{BigNumber}
use perpetual_custom.Types.{Address, Error, type_error}
use perpetual_custom.Environment.{Packages, EnvValue, number}
use perpetual_custom.Config.{Config, key_of, load_config}
use perpetual_custom.Wallets.{WalletByAddress, no_wallets, unlock_all}
use perpetual_custom.Script.{AddressBook}
use perpetual_custom.Deploy.Load.{LoadedContracts, new_contracts}

pub record App (V J : Type 0) : Type 0 where
  pub config : Config V J
  pub wallets : WalletByAddress
  pub contracts : LoadedContracts
  pub websocket_path : EnvValue V J

-- A chain id as the key of the deployments; one that is no number of a network finds none.
abbrev pub network_of : {V J : Type 0} → EnvValue V J → Option ℕ
network_of (number (pos n)) = some n
network_of _ = none

abbrev pub contracts_of :
    (Text → Option Text → Result Error Address)
    → (ℕ → Option AddressBook)
    → Text
    → Option ℕ
    → Result Error LoadedContracts
contracts_of connect deployments market none = err type_error
contracts_of connect deployments market (some network) =
    new_contracts connect market network deployments none

unfoldable pub get_default_app_dependencies :
    {V J : Type 0}
    → (Text → Result Error Address)
    → (Text → Option Text → Result Error Address)
    → (ℕ → Option AddressBook)
    → Config V J
    → Result Error (App V J)
get_default_app_dependencies new_wallet connect deployments config = do
  wallets ←
      unlock_all new_wallet
        (key_of config.deployer_private_key
          ∷ key_of config.deleveraging_private_key
          ∷ key_of config.operator_private_key
          ∷ [])
        no_wallets
  contracts ← contracts_of connect deployments (codes "PBTC-USDC") (network_of config.chain_id)
  ok (record {
    config = config;
    wallets = wallets;
    contracts = contracts;
    websocket_path = config.websocket_order_updates_path;
  })

-- `main` of src/index.ts, up to the server that listens.
unfoldable pub start_up :
    (V J : Type 0) ⦃N : BigNumber V⦄
    → Packages V J
    → (Text → Option Text)
    → (Text → Result Error Address)
    → (Text → Option Text → Result Error Address)
    → (ℕ → Option AddressBook)
    → Result Error (App V J)
start_up V J P env new_wallet connect deployments = do
  config ← load_config V J P env
  get_default_app_dependencies new_wallet connect deployments config
