-- ===== src/Service/Total.antt =====
-- `fulfillOrderAsync` returns, if the wallet's calls do, the salts are whole numbers
-- and the ABI coder takes the values.
use perpetual_custom.Base.{
  ℕ, ◌≡◌, refl, ◌∙◌, inl, inr, Bool, true, false, List, [], ◌∷◌, arith, All, Bool-cases, ok, subst,
}
use perpetual_custom.Base.Text.{Text}
use perpetual_custom.Base.Sort.{insert, sort}
use perpetual_custom.Base.Int.{ℤ, pos, ltb_ℤ}
use perpetual_custom.BigNumber.{BigNumber}
use perpetual_custom.Types.{Address, SignedOrder, SraOrder}
use perpetual_custom.Ethers.{Contracts, Wallet, TxReceipt}
use perpetual_custom.OrderUtils.{sort_by, compare_ask_order, compare_bid_order}
use perpetual_custom.Store.{OrderStore}
use perpetual_custom.TradeOperation.{
  TempTradeArg, TradeOperation, commit, initiate, sorted_accounts, trade_args,
}
use perpetual_custom.Matching.{matching_orders, best_first, match_start}
use perpetual_custom.Matching.Fills.{Fill, fills}
use perpetual_custom.Matching.Loop.{match_loop-Ran}
use perpetual_custom.Matching.Legs.{LegsOf, fill_each-LegsOf, match_loop-total, IsWritable}
use perpetual_custom.Service.Fulfil.{fills_of}
use perpetual_custom.Matching.Candidates.{best_first-All}
use perpetual_custom.Service.{
  Env, World, Fulfilment, transact, fulfil_with, remaining_after, fulfillment, fulfill_order,
}

-- The wallet sends every transaction, and each of them is confirmed.
pub record Accepts (w : Wallet) : Type 0 where
  pub sends :
      (sender to : Address) (payload : Text)
      → (tx : Text) × (w.send_transaction sender to payload ≡ ok tx)
  pub confirms : (tx : Text) → (receipt : TxReceipt) × (w.wait tx ≡ ok receipt)

insert-ne-nil {ℓ} :
    {A : Type ℓ} (before : A → A → Bool) (x : A) (ys : List A) → ¬ (insert before x ys ≡ [])
insert-ne-nil before x [] h = cc
insert-ne-nil before x (y ∷ ys) h = ground arith

commit-total :
    (c : Contracts) (w : Wallet) (sender : Address) (op : TradeOperation) (ts : List TempTradeArg)
    (t : TempTradeArg)
    → Accepts w
    → (payload : Text)
    → w.encode_trade (sorted_accounts (t ∷ ts)) (trade_args (t ∷ ts)) ≡ ok payload
    → op.trades ≡ t ∷ ts
    → op.committed ≡ false
    → (tx : Text) × ((commit c w sender op).1 ≡ ok tx)
unfolding commit
commit-total c w sender op ts t accepts payload encoded e fresh =
    let (tx, sent) = accepts.sends sender c.perpetual_proxy payload in
    rw (fresh, e, encoded, sent) (tx, refl)

module _ {V : Type 0} ⦃N : BigNumber V⦄ where
  sort_by-ne-nil :
      (compare : SignedOrder V → SignedOrder V → ℤ) (a : SraOrder V) (as' : List (SraOrder V))
      → ¬ (sort_by compare (a ∷ as') ≡ [])
  unfolding sort_by
  sort_by-ne-nil compare a as' =
      insert-ne-nil (λ later earlier. ltb_ℤ (compare later.order earlier.order) (pos 0)) a
        (sort (λ later earlier. ltb_ℤ (compare later.order earlier.order) (pos 0)) as')

  best_first-ne-nil :
      (o : SignedOrder V) (a : SraOrder V) (as' : List (SraOrder V))
      → ¬ (best_first o (a ∷ as') ≡ [])
  unfolding best_first
  best_first-ne-nil o a as' e = elim (Bool-cases o.is_buy) [
    | inl buys ↦ sort_by-ne-nil compare_ask_order a as' (rw buys at e)
    | inr sells ↦ sort_by-ne-nil compare_bid_order a as' (rw sells at e)
  ]

  -- The first order is always filled.
  fills-cons :
      (r : V) (as' : List (SraOrder V))
      → N.lte r (N.of_ℕ 0) ≡ false
      → ¬ (as' ≡ [])
      → ¬ (fills r as' ≡ [])
  unfolding fills
  fills-cons r [] more some_order = absurd (some_order refl)
  fills-cons r (a ∷ rest) more some_order = rw more (λ e. cc)

  trades-cons :
      (env : Env) (o : SignedOrder V) (fs : List (Fill V)) (ts : List TempTradeArg)
      → LegsOf env.ethers env.contracts env.operator o fs ts
      → ¬ (fs ≡ [])
      → (t : TempTradeArg) × (rest : List TempTradeArg) × (ts ≡ t ∷ rest)
  trades-cons env o [] ts legs some_fill = absurd (some_fill refl)
  trades-cons env o ((a, t) ∷ fs) [] legs some_fill = absurd legs
  trades-cons env o ((a, t) ∷ fs) (m ∷ ts) legs some_fill = (m, ts, refl)

module _ {V : Type 0} ⦃N : BigNumber V⦄ (env : Env) (signed_order : SignedOrder V) where
  open env use {ethers, contracts, wallet, operator}

  -- The ABI coder takes the values of each fill, and the accounts and arguments of the transaction
  -- whose trades are the legs of the fills.
  pub record Encodes (fs : List (Fill V)) : Type 0 where
    pub each_fill : All (IsWritable ethers contracts operator signed_order) fs
    pub trade :
        (ts : List TempTradeArg)
        → LegsOf ethers contracts operator signed_order fs ts
        → (payload : Text) × (wallet.encode_trade (sorted_accounts ts) (trade_args ts) ≡ ok payload)

module _ {V : Type 0} ⦃N : BigNumber V⦄ {Db : Type 0} ⦃S : OrderStore Db⦄ (env : Env) (now_ms : ℕ)
    (signed_order : SignedOrder V) (accepts : Accepts env.wallet)
    (whole : N.is_integer signed_order.salt ≡ true) where
  open env use {ethers, contracts, wallet, operator}

  fulfil_with-total :
      (as' : List (SraOrder V)) (w : World V Db)
      → All (λ a. N.is_integer a.order.salt ≡ true) as'
      → Encodes env signed_order (fills signed_order.amount as')
      → N.lte signed_order.amount (N.of_ℕ 0) ≡ false
      → ¬ (as' ≡ [])
      → (r : V) × ((fulfil_with env now_ms signed_order as' w).1 ≡ ok r)
  unfolding fulfil_with transact match_start
  fulfil_with-total as' w salts encodes more some_order =
      let start = match_start signed_order in
      let (s, good) =
        match_loop-total ethers contracts operator signed_order whole as' start salts
          encodes.each_fill refl in
      let run = match_loop-Ran ethers contracts operator signed_order as' start s good in
      let (trades, legs, all_trades, fresh) =
        fill_each-LegsOf ethers contracts operator signed_order _ initiate s.operation
          (run.operation) in
      let (t, rest, shape) =
        trades-cons env signed_order _ trades legs
          (fills-cons signed_order.amount as' more some_order) in
      let (payload, encoded) =
        subst (λ ts. (p : Text) × (wallet.encode_trade (sorted_accounts ts) (trade_args ts) ≡ ok p))
          shape (encodes.trade trades legs) in
      let (tx, sent) =
        commit-total contracts wallet operator s.operation rest t accepts payload encoded
          (all_trades ∙ shape) fresh in
      let (receipt, confirmed) = accepts.confirms tx in
      rw (good, fulfil_with) (rw (sent, confirmed) (s.remaining_amount, refl))

  remaining_after-total :
      (as' : List (SraOrder V)) (w : World V Db)
      → All (λ a. N.is_integer a.order.salt ≡ true) as'
      → Encodes env signed_order (fills signed_order.amount (best_first signed_order as'))
      → (r : V) × ((remaining_after env now_ms signed_order as' w).1 ≡ ok r)
  unfolding remaining_after
  remaining_after-total [] w salts encodes = (signed_order.amount, refl)
  remaining_after-total (a ∷ as') w salts encodes =
      elim (Bool-cases (N.lte signed_order.amount (N.of_ℕ 0))) [
        | inl none_asked ↦ rw none_asked (signed_order.amount, refl)
        | inr more ↦ rw more (
            fulfil_with-total (best_first signed_order (a ∷ as')) w
              (best_first-All _ signed_order (a ∷ as') salts) encodes more
              (best_first-ne-nil signed_order a as'))
      ]

  -- If the wallet sends and confirms every transaction, the salts of the incoming order and of the
  -- orders that it matches are whole numbers, and the ABI coder takes the values of each fill and the
  -- arguments of the transaction that has the two legs of every fill, then the call returns.
  pub fulfill_order-total :
      (w : World V Db)
      → All
          (λ a. N.is_integer a.order.salt ≡ true)
          (matching_orders now_ms env.expiration_buffer signed_order w.orders)
      → Encodes env signed_order (fills_of env now_ms signed_order w.orders)
      → (f : Fulfilment V) × ((fulfill_order env now_ms signed_order w).1 ≡ ok f)
  unfolding fulfill_order fulfillment
  fulfill_order-total w salts encodes =
      let (r, done) =
        remaining_after-total (matching_orders now_ms env.expiration_buffer signed_order w.orders) w
          salts encodes in
      rw done (_, refl)
