-- ===== src/TradeOperation.antt =====
-- src/tradeOperation.ts, with the trade data of src/liquidation.ts and src/deleverage.ts. A method
-- returns the operation as it leaves it and its result; a throw leaves what was written.
pub mod Accounts
pub mod Laws
use perpetual_custom.Base.{
  ℕ, suc, ◌≡◌, Bool, true, false, not, ◌||◌, List, [], ◌∷◌, ◌++◌, map, if◌then◌else◌, Result, ok,
  err, ◌>>=◌, any,
}
use perpetual_custom.Base.Int.{ℤ, pos, negsuc}
use perpetual_custom.Base.Text.{Text, text_eq, text_le, to_lower_case}
use perpetual_custom.Base.Sort.{sort}
use perpetual_custom.BigNumber.{BigNumber}
use perpetual_custom.Types.{
  Address, Price, Fee, SignedOrder, TradeArg, Error, already_committed, no_trades,
}
use perpetual_custom.Hex.{bn_to_bytes32, bool_to_bytes32, combine_hex_strings}
use perpetual_custom.Ethers.{Ethers, Contracts, Wallet}
use perpetual_custom.Orders.{fill_to_trade_data}

pub record TempTradeArg : Type 0 where
  pub maker : Address
  pub taker : Address
  pub trader : Address
  pub payload : Text

pub record TradeOperation : Type 0 where
  pub trades : List TempTradeArg
  pub committed : Bool

-- the constructor, and `Trade.initiate`
abbrev pub initiate : TradeOperation
initiate = record { trades = []; committed = false }

unfoldable pub add_trade_arg : TempTradeArg → TradeOperation → Result Error TradeOperation
add_trade_arg arg op =
    if op.committed
    then err already_committed
    else ok (record op {
      trades =
          op.trades
          ++ record arg { maker = to_lower_case arg.maker; taker = to_lower_case arg.taker } ∷ [];
    })

-- `makeLiquidateTradeData` and `makeDeleverageTradeData`, which are alike
unfoldable pub make_liquidate_trade_data :
    {V : Type 0} ⦃N : BigNumber V⦄ → V → Bool → Bool → Result Error Text
make_liquidate_trade_data amount is_buy all_or_nothing = do
  amount_data ← bn_to_bytes32 amount
  ok (
      combine_hex_strings
        (amount_data ∷ bool_to_bytes32 is_buy ∷ bool_to_bytes32 all_or_nothing ∷ []))

unfoldable pub make_deleverage_trade_data :
    {V : Type 0} ⦃N : BigNumber V⦄ → V → Bool → Bool → Result Error Text
make_deleverage_trade_data amount is_buy all_or_nothing = do
  amount_data ← bn_to_bytes32 amount
  ok (
      combine_hex_strings
        (amount_data ∷ bool_to_bytes32 is_buy ∷ bool_to_bytes32 all_or_nothing ∷ []))

module _ {V : Type 0} ⦃N : BigNumber V⦄ (c : Contracts) where
  unfoldable pub liquidate :
      Address → Address → V → Bool → Bool → TradeOperation → Result Error TradeOperation
  liquidate maker taker amount is_buy all_or_nothing op = do
    payload ← make_liquidate_trade_data amount is_buy all_or_nothing
    add_trade_arg
        (record { maker = maker; taker = taker; trader = c.p1_liquidation; payload = payload }) op

  unfoldable pub deleverage :
      Address → Address → V → Bool → Bool → TradeOperation → Result Error TradeOperation
  deleverage maker taker amount is_buy all_or_nothing op = do
    payload ← make_deleverage_trade_data amount is_buy all_or_nothing
    add_trade_arg
        (record { maker = maker; taker = taker; trader = c.p1_deleveraging; payload = payload }) op

  unfoldable pub fill_signed_order :
      Ethers
      → Address
      → SignedOrder V
      → V
      → Price V
      → Fee V
      → TradeOperation
      → Result Error TradeOperation
  fill_signed_order E taker order amount price fee op = do
    payload ← fill_to_trade_data E c order amount price fee
    add_trade_arg
        (record { maker = order.maker; taker = taker; trader = c.p1_orders; payload = payload }) op

-- `Set.add`: a set keeps the order of insertion.
abbrev pub set_add : Address → List Address → List Address
set_add a s = if any (text_eq a) s then s else s ++ a ∷ []

-- the `forEach` that fills `accountSet`
abbrev pub account_set : List TempTradeArg → List Address → List Address
account_set [] s = s
account_set (t ∷ ts) s = account_set ts (set_add t.taker (set_add t.maker s))

-- `Array.from(accountSet).sort()`
unfoldable pub sorted_accounts : List TempTradeArg → List Address
sorted_accounts ts = sort (λ later earlier. not (text_le earlier later)) (account_set ts [])

-- `indexOf`: -1 if there is no such element
abbrev pub index_from : ℕ → Address → List Address → ℤ
index_from i a [] = negsuc 0
index_from i a (b ∷ bs) = if text_eq b a then pos i else index_from (suc i) a bs

abbrev pub index_of : Address → List Address → ℤ
index_of a bs = index_from 0 a bs

abbrev pub to_trade_arg : List Address → TempTradeArg → TradeArg
to_trade_arg accounts t = record {
  maker_index = index_of t.maker accounts;
  taker_index = index_of t.taker accounts;
  trader = t.trader;
  payload = t.payload;
}

abbrev pub trade_args : List TempTradeArg → List TradeArg
trade_args ts = map (to_trade_arg (sorted_accounts ts)) ts

-- The `try` block: what is sent, and the name of the transaction.
abbrev pub send_trade : Contracts → Wallet → Address → List TempTradeArg → Result Error Text
send_trade c w from ts = do
  payload ← w.encode_trade (sorted_accounts ts) (trade_args ts)
  w.send_transaction from c.perpetual_proxy payload

-- The `catch` block: a failed transaction can be sent again.
abbrev pub after_send : TradeOperation → Result Error Text → TradeOperation × Result Error Text
after_send op (ok tx) = (record op { committed = true }, ok tx)
after_send op (err e) = (record op { committed = false }, err e)

unfoldable pub commit :
    Contracts → Wallet → Address → TradeOperation → TradeOperation × Result Error Text
commit c w from op = if op.committed then (op, err already_committed) else elim op.trades [
  | [] ↦ (op, err no_trades)
  | t ∷ ts ↦ after_send op (send_trade c w from (t ∷ ts))
]
