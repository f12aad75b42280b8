-- ===== src/Ethers.antt =====
-- What the program calls of the packages ethers and the contracts' generated bindings. None of it is
-- under the repository, so it enters as functions of their arguments.
use perpetual_custom.Base.{ℕ, Bool, List, Result}
use perpetual_custom.Base.Text.{Text}
use perpetual_custom.Types.{Address, Error, TradeArg}

pub data AbiValue : Type 0 where
  text : Text → AbiValue
  flag : Bool → AbiValue

pub record Ethers : Type 0 where
  -- `utils.solidityKeccak256(types, values)` and `utils.defaultAbiCoder.encode(types, values)`
  pub solidity_keccak256 : List Text → List Text → Text
  -- the latter throws on a value that is not of its type
  pub abi_encode : List Text → List AbiValue → Result Error Text
  -- `utils.recoverAddress(digest, signature)`, which throws on a malformed signature
  pub recover_address : Text → Text → Result Error Address
  -- `provider.getSigner(account).signMessage(utils.arrayify(hash))`
  pub sign_message : Address → Text → Result Error Text

-- The addresses and the network of src/contracts.ts.
pub record Contracts : Type 0 where
  pub p1_orders : Address
  pub perpetual_proxy : Address
  pub p1_liquidation : Address
  pub p1_deleveraging : Address
  pub market : Text
  pub network_id : Text

pub record TxReceipt : Type 0 where
  pub transaction_hash : Text
  pub block_number : ℕ

pub record Wallet : Type 0 where
  -- `perpetualV1.interface.encodeFunctionData('trade', [accounts, tradeArgs])`, which throws
  -- on a value that is not of its type
  pub encode_trade : List Address → List TradeArg → Result Error Text
  -- `getSigner(from).sendTransaction({to, data})`, which names the sent transaction or throws
  pub send_transaction : Address → Address → Text → Result Error Text
  -- `txRes.wait()`, which throws if the transaction is reverted
  pub wait : Text → Result Error TxReceipt
