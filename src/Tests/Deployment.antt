-- ===== src/Tests/Deployment.antt =====
-- A deployment to the development network, on a chain that answers each creation with a text of its
-- own.
use perpetual_custom.Base.{◌≡◌, refl, false, Option, none, some, [], ◌∷◌, Result, ok, err, ◌++◌}
use perpetual_custom.Base.Text.{Text, codes}
use perpetual_custom.Types.{Address, Error, type_error}
use perpetual_custom.Script.{Chain, Call, create, contract_at, invoke, Deployment, AddressBook}
use perpetual_custom.Deploy.{deploy}
use perpetual_custom.Script.Steps.{Outcome}
use perpetual_custom.Deploy.Complete.{Loads, deploy-Loads}
use perpetual_custom.Tests.Data.{buyer, seller}

abbrev answer : Call → Text
answer (create name args) = codes "0x" ++ name
answer (contract_at name address) = []
answer (invoke address method args) = codes "tx"

abbrev chain : Chain
chain = record {
  respond = λ log call. ok (answer call);
  chain_id = 31337;
  signers = seller ∷ [];
  parse_units = λ units decimals. units;
  deployer_account = seller;
  deleveraging_account = buyer;
}

abbrev connect : Text → Option Text → Result Error Address
connect factory none = err type_error
connect factory (some a) = ok a

abbrev deployed : Deployment
deployed = (deploy chain false [] none).0

chain_deploys : deploy chain false [] none ≡ (deployed, ok deployed.address_book)
unfolding deploy perpetual_custom.Deploy.deploy_contracts perpetual_custom.Script.proceed
    perpetual_custom.Deploy.deploy_test_contracts perpetual_custom.Deploy.deploy_test_funder
    perpetual_custom.Script.request perpetual_custom.Script.set_address
    perpetual_custom.Deploy.deploy_protocol perpetual_custom.Script.first_signer
    perpetual_custom.Script.address_of perpetual_custom.Deploy.deploy_oracles
    perpetual_custom.Deploy.initialize_perpetual perpetual_custom.Script.return
    perpetual_custom.Deploy.deploy_traders perpetual_custom.Deploy.set_global_operators
    perpetual_custom.Deploy.save_deployments_address
chain_deploys = refl

deploy-Loads_example :
    Outcome chain
      (Loads chain connect (codes "PBTC-USDC") (λ _ _. refl) false none)
      (deploy chain false [] none)
deploy-Loads_example = deploy-Loads chain connect (codes "PBTC-USDC") (λ _ _. refl) false [] none
