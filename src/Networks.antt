-- ===== src/Networks.antt =====
-- scripts/helpers.ts: the networks, and what is deployed or expected on each.
use perpetual_custom.Base.{ℕ, ◌==◌, [], if◌then◌else◌, Result, ok, err}
use perpetual_custom.Base.Text.{Text, codes}
use perpetual_custom.Types.{Address, Error, no_address}

-- `Network`, by its chain ids
abbrev pub ethereum : ℕ
ethereum = 1

abbrev pub okc : ℕ
okc = 66

abbrev pub kovan : ℕ
kovan = 42

abbrev pub goerli : ℕ
goerli = 420

abbrev pub dev : ℕ
dev = 31337

unfoldable pub get_weth_address : ℕ → Result Error Address
get_weth_address network =
    if network == ethereum
    then ok (codes "0xc02aaa39b223fe8d0a0e5c4f27ead9083c756cc2")
    else if network == goerli
    then ok (codes "0xB4FBF271143F4FBf7B91A5ded31805e42b2208d6")
    else if network == okc
    then ok []
    else err (no_address (codes "Cannot find WETH address"))

unfoldable pub get_token_address : ℕ → Result Error Address
get_token_address network =
    if network == ethereum
    then ok (codes "0xa0b86991c6218b36c1d19d4a2e9eb0ce3606eb48")
    else err (no_address (codes "Cannot find token address"))

unfoldable pub get_maker_price_oracle_address : ℕ → Result Error Address
get_maker_price_oracle_address network =
    if network == ethereum
    then ok (codes "0x064409168198A7E9108036D072eF59F923dEDC9A")
    else if network == kovan
    then ok (codes "0xf8A9Faa25186B14EbF02e7Cd16e39152b85aEEcd")
    else err (no_address (codes "Cannot find Maker price oracle"))

abbrev pub get_min_collateralization : ℕ → Text
get_min_collateralization network = codes "1075000000000000000"

abbrev pub get_insurance_fee : ℕ → Text
get_insurance_fee network = codes "200000000000000000"

abbrev pub get_oracle_adjustment : ℕ → ℕ
get_oracle_adjustment network = 18
