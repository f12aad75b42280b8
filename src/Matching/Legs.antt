-- ===== src/Matching/Legs.antt =====
-- The trades that the loop writes to the operation: two for each fill, against the operator.
use perpetual_custom.Base.{
  ◌≡◌, refl, sym, ap, ◌∙◌, inl, inr, true, false, List, [], ◌∷◌, ◌++◌, append_assoc, append-nil,
  All, Bool-cases, ok, ok-injective, >>=-eq-ok,
}
use perpetual_custom.Base.Text.{Text, to_lower_case}
use perpetual_custom.BigNumber.{BigNumber}
use perpetual_custom.Types.{Address, Order, SignedOrder, SraOrder, Price, Fee}
use perpetual_custom.Ethers.{Ethers, Contracts, AbiValue}
use perpetual_custom.Hex.{bn_to_bytes32}
use perpetual_custom.Orders.{
  fill_to_trade_data, order_to_bytes, order_to_solidity, get_order_flags, SolidityOrder,
  eip712_order_types, order_values, fill_types, fill_values,
}
use perpetual_custom.TradeOperation.{TempTradeArg, TradeOperation, add_trade_arg, fill_signed_order}
use perpetual_custom.TradeOperation.Laws.{add_trade_arg-ok}
use perpetual_custom.Matching.{MatchState, fill_both, match_one, match_loop, available, after_match}
use perpetual_custom.Matching.Fills.{Fill, fills}
use perpetual_custom.Matching.Loop.{fill_each}

-- `defaultAbiCoder.encode` takes the values.
abbrev pub Encoded : Ethers → List Text → List AbiValue → Type 0
Encoded E types values = (bytes : Text) × (E.abi_encode types values ≡ ok bytes)

module _ {V : Type 0} ⦃N : BigNumber V⦄ (E : Ethers) (c : Contracts) (operator : Address) where
  -- A trade of the given order against the operator, at the given amount, price and fee.
  pub record IsLeg (o : SignedOrder V) (t : V) (price : Price V) (fee : Fee V) (arg : TempTradeArg)
      : Type 0 where
    pub maker : arg.maker ≡ to_lower_case o.maker
    pub taker : arg.taker ≡ to_lower_case operator
    pub trader : arg.trader ≡ c.p1_orders
    pub payload : fill_to_trade_data E c o t price fee ≡ ok arg.payload

  fill_signed_order-ok :
      (o : SignedOrder V) (t : V) (price : Price V) (fee : Fee V) (op op' : TradeOperation)
      → fill_signed_order c E operator o t price fee op ≡ ok op'
      → (arg : TempTradeArg) × IsLeg o t price fee arg
        × (op'.trades ≡ op.trades ++ arg ∷ [])
        × (op'.committed ≡ op.committed)
  unfolding fill_signed_order
  fill_signed_order-ok o t price fee op op' h =
      let (payload, made, added) = >>=-eq-ok _ _ h in
      let (_, trades, committed) = add_trade_arg-ok _ op op' added in
      (_, record { maker = refl; taker = refl; trader = refl; payload = made }, trades, committed)

  module _ (signed_order : SignedOrder V) where
    -- Two trades for each fill, in order: the resting order's and the incoming order's, both
    -- against the operator, with one amount, price and fee.
    abbrev pub LegsOf : List (Fill V) → List TempTradeArg → Type 0
    LegsOf [] [] = Unit
    LegsOf ((a, t) ∷ fs) (m ∷ k ∷ ts) =
        IsLeg a.order t a.order.limit_price a.order.limit_fee m
        × IsLeg signed_order t a.order.limit_price a.order.limit_fee k
        × LegsOf fs ts
    LegsOf _ _ = ⊥

    pub fill_each-LegsOf :
        (fs : List (Fill V)) (op op' : TradeOperation)
        → fill_each E c operator signed_order fs op ≡ ok op'
        → (ts : List TempTradeArg) × LegsOf fs ts
          × (op'.trades ≡ op.trades ++ ts)
          × (op'.committed ≡ op.committed)
    unfolding fill_each fill_both
    fill_each-LegsOf [] op op' h = (
      [],
      tt,
      ap (λ x. x.trades) (sym (ok-injective h)) ∙ sym (append-nil op.trades),
      ap (λ x. x.committed) (sym (ok-injective h)),
    )
    fill_each-LegsOf ((a, t) ∷ fs) op op' h =
        let (mid, both, later) = >>=-eq-ok _ _ h in
        let (half, first, second) = >>=-eq-ok _ _ both in
        let (m, leg_m, trades_m, comm_m) = fill_signed_order-ok _ _ _ _ op half first in
        let (k, leg_k, trades_k, comm_k) = fill_signed_order-ok _ _ _ _ half mid second in
        let (ts, legs, trades_ts, comm_ts) = fill_each-LegsOf fs mid op' later in
        (
          m ∷ k ∷ ts,
          (leg_m, leg_k, legs),
          trades_ts
              ∙ ap (λ x. x ++ ts) (trades_k ∙ ap (λ x. x ++ k ∷ []) trades_m)
              ∙ ap (λ x. x ++ ts) (append_assoc op.trades (m ∷ []) (k ∷ []))
              ∙ append_assoc op.trades (m ∷ k ∷ []) ts,
          comm_ts ∙ comm_k ∙ comm_m,
        )

  -- It takes the values of an order, and of a fill of it.
  abbrev pub IsEncoded : SignedOrder V → V → Price V → Fee V → Type 0
  IsEncoded o t price fee =
      ((s : SolidityOrder)
        → order_to_solidity o.order ≡ ok s
        → Encoded E eip712_order_types (order_values s))
      × Encoded E fill_types (fill_values t price fee)

  order_to_solidity-total :
      (o : Order V)
      → N.is_integer o.salt ≡ true
      → (s : SolidityOrder) × (order_to_solidity o ≡ ok s)
  unfolding order_to_solidity get_order_flags bn_to_bytes32
  order_to_solidity-total o h = rw h (_, refl)

  -- A fill can be written whenever the order's salt is a whole number and its values are encoded.
  fill_to_trade_data-total :
      (o : SignedOrder V) (t : V) (price : Price V) (fee : Fee V)
      → N.is_integer o.salt ≡ true
      → IsEncoded o t price fee
      → (payload : Text) × (fill_to_trade_data E c o t price fee ≡ ok payload)
  unfolding fill_to_trade_data order_to_bytes
  fill_to_trade_data-total o t price fee h (of_order, (fill_data, filled)) =
      let (s, solid) = order_to_solidity-total o.order h in
      let (order_data, ordered) = of_order s solid in rw (solid, ordered, filled) (_, refl)

  fill_signed_order-total :
      (o : SignedOrder V) (t : V) (price : Price V) (fee : Fee V) (op : TradeOperation)
      → N.is_integer o.salt ≡ true
      → IsEncoded o t price fee
      → op.committed ≡ false
      → (op' : TradeOperation) × (fill_signed_order c E operator o t price fee op ≡ ok op')
  unfolding fill_signed_order add_trade_arg
  fill_signed_order-total o t price fee op whole encoded fresh =
      let (payload, made) = fill_to_trade_data-total o t price fee whole encoded in
      rw (made, fresh) (_, refl)

  module _ (signed_order : SignedOrder V) where
    -- Both orders of a fill have values that are encoded.
    abbrev pub IsWritable : Fill V → Type 0
    IsWritable (a, t) =
        IsEncoded a.order t a.order.limit_price a.order.limit_fee
        × IsEncoded signed_order t a.order.limit_price a.order.limit_fee

  module _ (signed_order : SignedOrder V) (whole : N.is_integer signed_order.salt ≡ true) where
    fill_both-total :
        (a : SraOrder V) (t : V) (op : TradeOperation)
        → N.is_integer a.order.salt ≡ true
        → IsWritable signed_order (a, t)
        → op.committed ≡ false
        → (op' : TradeOperation) × (fill_both E c operator signed_order a t op ≡ ok op')
          × (op'.committed ≡ false)
    unfolding fill_both
    fill_both-total a t op whole_a (written_a, written) fresh =
        let (half, first) =
          fill_signed_order-total a.order t a.order.limit_price a.order.limit_fee op whole_a
            written_a fresh in
        let (_, _, _, comm_half) = fill_signed_order-ok _ _ _ _ op half first in
        let (full, second) =
          fill_signed_order-total signed_order t a.order.limit_price a.order.limit_fee half whole
            written (comm_half ∙ fresh) in
        let (_, _, _, comm_full) = fill_signed_order-ok _ _ _ _ half full second in
        (full, rw first second, comm_full ∙ comm_half ∙ fresh)

    -- The loop returns, if the salts are whole numbers, the values of its fills are encoded, and the
    -- operation is not committed.
    pub match_loop-total :
        (as' : List (SraOrder V)) (s : MatchState V)
        → All (λ a. N.is_integer a.order.salt ≡ true) as'
        → All (IsWritable signed_order) (fills s.remaining_amount as')
        → s.operation.committed ≡ false
        → (s' : MatchState V) × (match_loop E c operator signed_order as' s ≡ ok s')
    unfolding match_loop match_one fills
    match_loop-total [] s h written fresh = (s, refl)
    match_loop-total (a ∷ rest) s h written fresh =
        elim (Bool-cases (N.lte s.remaining_amount (N.of_ℕ 0))) [
          | inl done ↦ rw done (s, refl)
          | inr more ↦
              let (now, later) = rw more at written in
              let (op, both, open_op) =
                fill_both-total a (N.minimum s.remaining_amount (available a)) s.operation h.0 now
                  fresh in
              rw (more, both) (match_loop-total rest (after_match a s op) h.1 later open_op)
        ]
