-- ===== src/Orders.antt =====
-- src/orders.ts: the flags, hash and bytes of an order, its signature, and the fee that it pays.
pub mod Laws
use perpetual_custom.Base.{
  ℕ, ◌+◌, ◌≡◌, Bool, true, false, not, List, [], ◌∷◌, ◌++◌, map, ◌==◌, if◌then◌else◌, Result, ok,
  err, ◌>>=◌, replicate,
}
use perpetual_custom.Base.Int.{ℤ, pos, negsuc}
use perpetual_custom.Base.Text.{Text, codes}
use perpetual_custom.BigNumber.{BigNumber, lt}
use perpetual_custom.Types.{
  Address, BaseValue, Price, Fee, Order, SignedOrder, Error, invalid_signing_method,
}
use perpetual_custom.Types.Values.{to_solidity, is_negative, from_bips}
use perpetual_custom.Hex.{address_to_bytes32, bn_to_bytes32, combine_hex_strings, last_units}
use perpetual_custom.Ethers.{Ethers, Contracts, AbiValue, text, flag}
use perpetual_custom.Signature.{
  hash_string, get_eip712_hash, create_typed_signature, hash_has_valid_signature, decimal,
  no_prepend,
}

pub data SigningMethod : Type 0 where
  compatibility unsafe_hash signing_hash : SigningMethod
  typed_data meta_mask meta_mask_latest coinbase_wallet : SigningMethod

abbrev pub eip712_order_struct_string : Text
eip712_order_struct_string =
    codes "Order(bytes32 flags,uint256 amount,uint256 limitPrice,uint256 triggerPrice,"
    ++ codes "uint256 limitFee,address maker,address taker,uint256 expiration)"

abbrev pub eip712_domain_string : Text
eip712_domain_string =
    codes "EIP712Domain(string name,string version,uint256 chainId,address verifyingContract)"

-- The types of `EIP712_ORDER_STRUCT`, in its order.
abbrev pub eip712_order_types : List Text
eip712_order_types =
    codes "bytes32"
    ∷ codes "uint256"
    ∷ codes "uint256"
    ∷ codes "uint256"
    ∷ codes "uint256"
    ∷ codes "address"
    ∷ codes "address"
    ∷ codes "uint256"
    ∷ []

abbrev pub repeat_zero : ℕ → Text
repeat_zero n = replicate n b'0'

-- `orderToSolidity`
pub record SolidityOrder : Type 0 where
  pub flags : Text
  pub amount : Text
  pub limit_price : Text
  pub trigger_price : Text
  pub limit_fee : Text
  pub maker : Address
  pub taker : Address
  pub expiration : Text

module _ (E : Ethers) (c : Contracts) where
  unfoldable pub get_domain_hash : Text
  get_domain_hash =
      E.solidity_keccak256
        (codes "bytes32"
          ∷ codes "bytes32"
          ∷ codes "bytes32"
          ∷ codes "uint256"
          ∷ codes "bytes32"
          ∷ [])
        (hash_string E eip712_domain_string
          ∷ hash_string E (codes "P1Orders")
          ∷ hash_string E (codes "1.0")
          ∷ c.network_id
          ∷ address_to_bytes32 c.p1_orders
          ∷ [])

module _ (E : Ethers) where
  -- The methods that also make the signature of the hash as it is.
  unfoldable pub choose_unsafe : SigningMethod → Text → Text → Text → Address → Result Error Text
  choose_unsafe unsafe_hash order_hash hash_sig unsafe_hash_sig maker = ok unsafe_hash_sig
  choose_unsafe _ order_hash hash_sig unsafe_hash_sig maker = do
    valid ← hash_has_valid_signature E order_hash unsafe_hash_sig maker
    ok (if valid then unsafe_hash_sig else hash_sig)

  unfoldable pub choose_signature : SigningMethod → Text → Text → Text → Address → Result Error Text
  unfolding choose_unsafe
  choose_signature signing_hash order_hash hash_sig raw_signature maker = ok hash_sig
  choose_signature method order_hash hash_sig raw_signature maker = do
    unsafe_hash_sig ← create_typed_signature raw_signature no_prepend
    choose_unsafe method order_hash hash_sig unsafe_hash_sig maker

-- The values that `orderToBytes` and `fillToTradeData` encode.
abbrev pub order_values : SolidityOrder → List AbiValue
order_values s =
    text s.flags
    ∷ text s.amount
    ∷ text s.limit_price
    ∷ text s.trigger_price
    ∷ text s.limit_fee
    ∷ text s.maker
    ∷ text s.taker
    ∷ text s.expiration
    ∷ []

abbrev pub fill_types : List Text
fill_types = codes "uint256" ∷ codes "uint256" ∷ codes "uint256" ∷ codes "bool" ∷ []

module _ {V : Type 0} ⦃N : BigNumber V⦄ where
  unfoldable pub get_fee_for_order : V → Bool → Fee V
  get_fee_for_order amount is_taker =
      if not is_taker
      then from_bips (N.literal (negsuc 24) 1)
      else if lt amount (N.of_ℕ 50000000)
      then from_bips (N.of_ℕ 50)
      else from_bips (N.of_ℕ 15)

  -- `booleanFlag`, from the bits of `ORDER_FLAGS`
  unfoldable pub boolean_flag : Order V → ℕ
  boolean_flag o =
      0
      + (if is_negative o.limit_fee then 4 else 0)
      + (if o.is_decrease_only then 2 else 0)
      + (if o.is_buy then 1 else 0)

  unfoldable pub get_order_flags : Order V → Result Error Text
  unfolding boolean_flag
  get_order_flags o = do
    salt_bytes ← bn_to_bytes32 o.salt
    ok (codes "0x" ++ last_units 63 salt_bytes ++ (b'0' + boolean_flag o) ∷ [])

  unfoldable pub order_to_solidity : Order V → Result Error SolidityOrder
  order_to_solidity o = do
    order_flags ← get_order_flags o
    ok (record {
      flags = order_flags;
      amount = N.to_fixed 0 o.amount;
      limit_price = to_solidity o.limit_price;
      trigger_price = to_solidity o.trigger_price;
      limit_fee = to_solidity o.limit_fee;
      maker = o.maker;
      taker = o.taker;
      expiration = N.to_fixed 0 o.expiration;
    })

  abbrev pub fill_values : V → Price V → Fee V → List AbiValue
  fill_values amount price fee =
      text (N.to_fixed 0 amount)
      ∷ text (to_solidity price)
      ∷ text (to_solidity fee)
      ∷ flag (is_negative fee)
      ∷ []

  module _ (E : Ethers) (c : Contracts) where
    unfoldable pub get_order_hash : Order V → Result Error Text
    get_order_hash o = do
      order_flags ← get_order_flags o
      let struct_hash =
          E.solidity_keccak256
            (codes "bytes32"
              ∷ codes "bytes32"
              ∷ codes "uint256"
              ∷ codes "uint256"
              ∷ codes "uint256"
              ∷ codes "uint256"
              ∷ codes "bytes32"
              ∷ codes "bytes32"
              ∷ codes "uint256"
              ∷ [])
            (hash_string E eip712_order_struct_string
              ∷ order_flags
              ∷ N.to_fixed 0 o.amount
              ∷ to_solidity o.limit_price
              ∷ to_solidity o.trigger_price
              ∷ to_solidity o.limit_fee
              ∷ address_to_bytes32 o.maker
              ∷ address_to_bytes32 o.taker
              ∷ N.to_fixed 0 o.expiration
              ∷ [])
      ok (get_eip712_hash E (get_domain_hash E c) struct_hash)

    -- The body of the `case`s of `signOrder` that sign the hash.
    unfoldable pub sign_hash : Order V → SigningMethod → Result Error Text
    sign_hash o method = do
      order_hash ← get_order_hash o
      raw_signature ← E.sign_message o.maker order_hash
      hash_sig ← create_typed_signature raw_signature decimal
      choose_signature E method order_hash hash_sig raw_signature o.maker

    unfoldable pub sign_order : Order V → SigningMethod → Result Error Text
    sign_order o compatibility = sign_hash o compatibility
    sign_order o unsafe_hash = sign_hash o unsafe_hash
    sign_order o signing_hash = sign_hash o signing_hash
    sign_order o _ = err invalid_signing_method

    unfoldable pub get_signed_order : Order V → SigningMethod → Result Error (SignedOrder V)
    get_signed_order o method = do
      typed_signature ← sign_order o method
      ok (record { order = o; typed_signature = typed_signature })

    unfoldable pub order_to_bytes : Order V → Result Error Text
    order_to_bytes o = do s ← order_to_solidity o; E.abi_encode eip712_order_types (order_values s)

    unfoldable pub fill_to_trade_data : SignedOrder V → V → Price V → Fee V → Result Error Text
    fill_to_trade_data o amount price fee = do
      order_data ← order_to_bytes o.order
      let signature_data = o.typed_signature ++ repeat_zero 60
      fill_data ← E.abi_encode fill_types (fill_values amount price fee)
      ok (combine_hex_strings (order_data ∷ fill_data ∷ signature_data ∷ []))

    unfoldable pub order_has_valid_signature : SignedOrder V → Result Error Bool
    order_has_valid_signature o = do
      order_hash ← get_order_hash o.order
      hash_has_valid_signature E order_hash o.typed_signature o.maker
