-- ===== src/Tests/Data.antt =====
-- The inputs of the tests: a table with two orders of the sell side, an incoming order of the buy
-- side, and a wallet and a signer that accept.
use perpetual_custom.Base.{true, false, List, [], ◌∷◌, ◌++◌, replicate, if◌then◌else◌, ok, err}
use perpetual_custom.Base.Int.{ℤ, pos}
use perpetual_custom.Base.Text.{Text, codes, text_eq}
use perpetual_custom.BigNumber.Whole.{whole}
use perpetual_custom.Types.{Address, Order, SignedOrder, SignedOrderEntity, OrderStatus, external}
use perpetual_custom.Ethers.{Ethers, Contracts, Wallet}
use perpetual_custom.Service.{Env, World}

abbrev pub buyer : Address
buyer = codes "0xb1"

abbrev pub seller : Address
seller = codes "0xa1"

abbrev pub raw_signature : Text
raw_signature = codes "0x" ++ (replicate 128 b'a' ++ codes "1b")

abbrev pub ethers : Ethers
ethers = record {
  solidity_keccak256 = λ types values. codes "0x77";
  abi_encode = λ types values. ok (codes "0xab");
  recover_address = λ digest signature. ok buyer;
  sign_message = λ account hash.
      if text_eq account buyer then ok raw_signature else err (external (codes "no signer"));
}

abbrev pub contracts : Contracts
contracts = record {
  p1_orders = codes "0xc1";
  perpetual_proxy = codes "0xc2";
  p1_liquidation = codes "0xc3";
  p1_deleveraging = codes "0xc4";
  market = codes "BTC-USDC";
  network_id = codes "0001";
}

abbrev pub wallet : Wallet
wallet = record {
  encode_trade = λ accounts args. ok (codes "0xda");
  send_transaction = λ sender to payload. ok (codes "0xf1");
  wait = λ tx. ok (record { transaction_hash = tx; block_number = 7 });
}

abbrev pub env : Env
env = record {
  ethers = ethers;
  contracts = contracts;
  wallet = wallet;
  operator = codes "0x99";
  expiration_buffer = 0;
}

-- The same, with a wallet that sends nothing.
abbrev pub refusing : Env
refusing = record env {
  wallet = record wallet { send_transaction = λ sender to payload. err (external []) };
}

-- An order to sell, with its texts.
abbrev pub selling : Text → Text → Text → SignedOrderEntity
selling hash amount price = record {
  hash = hash;
  limit_fee = [];
  limit_price = price;
  trigger_price = [];
  expiration = codes "111";
  amount = amount;
  is_buy = false;
  is_decrease_only = false;
  salt = codes "1";
  typed_signature = codes "0x01";
  maker = seller;
  created_at = [];
  filled_amount = [];
  order_state = OrderStatus.null;
  taker = codes "0x00";
}

abbrev pub cheap : SignedOrderEntity
cheap = selling (codes "0x01") (codes "11") (codes "1111")

abbrev pub dear : SignedOrderEntity
dear = selling (codes "0x02") (codes "11") (codes "11111")

abbrev pub table : List SignedOrderEntity
table = dear ∷ cheap ∷ []

abbrev pub buying_order : Order ℤ
buying_order = record {
  is_buy = true;
  is_decrease_only = false;
  amount = pos 3;
  limit_price = record { value = pos 5 };
  trigger_price = record { value = pos 0 };
  limit_fee = record { value = pos 0 };
  maker = buyer;
  taker = codes "0x00";
  expiration = pos 3;
  salt = pos 1;
}

abbrev pub buying : SignedOrder ℤ
buying = record { order = buying_order; typed_signature = codes "0x01" }

abbrev pub world : World ℤ (List SignedOrderEntity)
world = record { orders = table; history = []; events = [] }
