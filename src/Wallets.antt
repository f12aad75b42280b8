-- ===== src/Wallets.antt =====
-- src/wallet_provider.ts: the wallets that the server has unlocked, by their addresses in lower case.
-- An address is none of the names that every object inherits.
pub mod Laws
use perpetual_custom.Base.{
  ◌≡◌, Bool, true, false, Option, none, some, List, [], ◌∷◌, if◌then◌else◌, Result, ok, err, ◌>>=◌,
}
use perpetual_custom.Base.Text.{Text, text_eq, to_lower_case}
use perpetual_custom.Types.{Address, Error, password_undefined}

-- A wallet of the package ethers: its private key and its address.
pub record KeyWallet : Type 0 where
  pub key : Text
  pub address : Address

-- `walletByAddress`
abbrev pub WalletByAddress : Type 0
WalletByAddress = Text → Option KeyWallet

abbrev pub no_wallets : WalletByAddress
no_wallets h = none

-- A signer is a wallet of the server, or an account of the node.
pub data Signer : Type 0 where
  unlocked : KeyWallet → Signer
  remote : Address → Signer

abbrev pub is_present : Option KeyWallet → Bool
is_present none = false
is_present (some w) = true

unfoldable pub has : Address → WalletByAddress → Bool
has account wallets = is_present (wallets (to_lower_case account))

abbrev pub put_wallet : KeyWallet → WalletByAddress → WalletByAddress
put_wallet w wallets h = if text_eq h (to_lower_case w.address) then some w else wallets h

-- A wallet whose account is unlocked already changes nothing.
unfoldable pub add_wallet : KeyWallet → WalletByAddress → WalletByAddress
add_wallet w wallets = if has w.address wallets then wallets else put_wallet w wallets

unfoldable pub get_signer : Address → WalletByAddress → Signer
get_signer account wallets = elim (wallets (to_lower_case account)) [
  | none ↦ remote account
  | some w ↦ unlocked w
]

-- `new Wallet(passwd)` is a parameter: the address of a key, or an error.
module _ (new_wallet : Text → Result Error Address) where
  unfoldable pub unlock : Option Text → WalletByAddress → Result Error WalletByAddress
  unlock none wallets = err password_undefined
  unlock (some passwd) wallets = do
    account_address ← new_wallet passwd
    ok (add_wallet (record { key = passwd; address = account_address }) wallets)

  unfoldable pub unlock_all : List (Option Text) → WalletByAddress → Result Error WalletByAddress
  unlock_all [] wallets = ok wallets
  unlock_all (passwd ∷ passwds) wallets = do more ← unlock passwd wallets; unlock_all passwds more
