-- ===== src/Script.antt =====
-- A script of scripts/helpers.ts: it runs against the chain, which answers each request as it does
-- after the requests so far, and fills an address book. The chain and the package hardhat are
-- parameters.
pub mod Steps
use perpetual_custom.Base.{
  ℕ, ◌==◌, ◌≡◌, Bool, true, false, Option, none, some, List, [], ◌∷◌, if◌then◌else◌, Result, ok,
  err,
}
use perpetual_custom.Base.Text.{Text, codes, text_eq}
use perpetual_custom.Types.{Address, Error, type_error, no_address}

-- An argument of a constructor or of a method.
pub data Arg : Type 0 where
  text : Text → Arg
  number : ℕ → Arg
  flag : Bool → Arg
  undefined : Arg

-- A value that may be `undefined`.
abbrev pub optional : Option Text → Arg
optional none = undefined
optional (some t) = text t

pub data Call : Type 0 where
  -- `getContractFactory(name)`, `deploy(...args)` and `deployed()`
  create : Text → List Arg → Call
  -- `getContractAt(name, address)`
  contract_at : Text → Option Text → Call
  -- a method of the contract at an address
  invoke : Option Text → Text → List Arg → Call

-- The calls that the chain has carried out, the latest first, with what it answered: for `create`
-- the address of the new contract.
abbrev pub Log : Type 0
Log = List (Call × Text)

pub record Chain : Type 0 where
  pub respond : Log → Call → Result Error Text
  pub chain_id : ℕ
  -- the addresses of `getSigners()`
  pub signers : List Address
  pub parse_units : Text → ℕ → Text
  -- `DEPLOYER_ACCOUNT` and `DELEVERAGING_ACCOUNT` of src/config.ts
  pub deployer_account : Address
  pub deleveraging_account : Address

-- `Record<string, string>`
abbrev pub AddressBook : Type 0
AddressBook = Text → Option Text

abbrev pub book_set : Text → Text → AddressBook → AddressBook
book_set name address book h = if text_eq h name then some address else book h

pub record Deployment : Type 0 where
  pub log : Log
  pub address_book : AddressBook
  -- the file deployments.json, which `saveDeploymentsAddress` writes as a whole
  pub saved : Option (ℕ × AddressBook)

abbrev pub Script : Type 0 → Type 0
Script A = Deployment → Deployment × Result Error A

unfoldable pub return : {A : Type 0} → A → Script A
return a s = (s, ok a)

unfoldable pub proceed :
    {A B : Type 0} → (A → Script B) → Deployment × Result Error A → Deployment × Result Error B
proceed f (s, ok a) = f a s
proceed f (s, err e) = (s, err e)

infixl 5 ◌>>=◌ ◌>>◌
abbrev pub ◌>>=◌ : {A B : Type 0} → Script A → (A → Script B) → Script B
◌>>=◌ m f s = proceed f (m s)

abbrev pub ◌>>◌ : {A B : Type 0} → Script A → Script B → Script B
m >> k = m >>= λ _. k

-- A script stops at the first request that the chain rejects.
abbrev pub answered : Call → Deployment → Result Error Text → Deployment × Result Error Text
answered call s (ok t) = (record s { log = (call, t) ∷ s.log }, ok t)
answered call s (err e) = (s, err e)

unfoldable pub set_address : Text → Text → Script Unit
set_address name address s =
    (record s { address_book = book_set name address s.address_book }, ok tt)

unfoldable pub address_of : Text → Script (Option Text)
address_of name s = (s, ok (s.address_book name))

unfoldable pub first_signer : List Address → Script Address
first_signer [] s = (s, err type_error)
first_signer (a ∷ as') s = (s, ok a)

module _ (K : Chain) where
  unfoldable pub request : Call → Script Text
  request call s = answered call s (K.respond s.log call)
