-- ===== src/Service/Fulfil.antt =====
-- What a call of `fulfillOrderAsync` did, from what it returned.
use perpetual_custom.Base.{
  ℕ, ◌≡◌, refl, sym, ap, ap₂, ◌∙◌, subst, ◌⊎◌, inl, inr, true, List, [], ◌∷◌, arith, Bool-cases, ok,
  Result-cases, ok-injective, >>=-eq-ok,
}
use perpetual_custom.Base.Text.{Text}
use perpetual_custom.BigNumber.{BigNumber}
use perpetual_custom.BigNumber.Laws.{minus-plus}
use perpetual_custom.Types.{SignedOrder, SraOrder}
use perpetual_custom.Ethers.{TxReceipt}
use perpetual_custom.OrderUtils.{sort_by}
use perpetual_custom.Store.{OrderStore}
use perpetual_custom.TradeOperation.{TempTradeArg, TradeOperation, commit, initiate}
use perpetual_custom.TradeOperation.Laws.{Sent, commit-ok}
use perpetual_custom.Matching.{MatchState, matching_orders, best_first, match_loop, match_start}
use perpetual_custom.Matching.Fills.{Fill, fills, left, traded_sum, left-traded_sum}
use perpetual_custom.Matching.Loop.{Ran, match_loop-Ran}
use perpetual_custom.Matching.Legs.{LegsOf, fill_each-LegsOf}
use perpetual_custom.Service.{
  Env, World, Fulfilment, transact, settle, fulfil_with, remaining_after, fulfillment,
  fulfill_order,
}

transact-Sent :
    (env : Env) (op : TradeOperation) (receipt : TxReceipt)
    → transact env op ≡ ok receipt
    → (tx : Text) × Sent env.contracts env.wallet env.operator op.trades tx
      × (env.wallet.wait tx ≡ ok receipt)
unfolding transact
transact-Sent env op receipt h =
    let pair = commit env.contracts env.wallet env.operator op in
    let (tx, committed, confirmed) = >>=-eq-ok pair.1 env.wallet.wait h in
    let whole : commit env.contracts env.wallet env.operator op ≡ (pair.0, ok tx) =
      ap (λ x. (pair.0, x)) committed in
    (tx, (commit-ok env.contracts env.wallet env.operator op pair.0 tx whole).1, confirmed)

module _ {V : Type 0} ⦃N : BigNumber V⦄ where
  fills_nonpos : (r : V) (as' : List (SraOrder V)) → N.lte r (N.of_ℕ 0) ≡ true → fills r as' ≡ []
  unfolding fills
  fills_nonpos r [] h = refl
  fills_nonpos r (a ∷ rest) h = rw h

  best_first_none : (signed_order : SignedOrder V) → best_first signed_order [] ≡ []
  unfolding best_first sort_by
  best_first_none signed_order = ground arith

  pub traded-eq : (r : V) (fs : List (Fill V)) → N.minus r (left r fs) ≡ traded_sum fs
  traded-eq r fs =
      ap (λ x. N.minus x (left r fs))
        (sym (left-traded_sum r fs) ∙ N.plus_comm (left r fs) (traded_sum fs))
      ∙ minus-plus (traded_sum fs) (left r fs)

module _ {V : Type 0} ⦃N : BigNumber V⦄ {Db : Type 0} ⦃S : OrderStore Db⦄ (env : Env) (now_ms : ℕ)
    (signed_order : SignedOrder V) where
  open env use {ethers, contracts, wallet, operator, expiration_buffer}

  -- The orders that a call goes through, best first, and its fills.
  abbrev pub candidates : Db → List (SraOrder V)
  candidates db = best_first signed_order (matching_orders now_ms expiration_buffer signed_order db)

  abbrev pub fills_of : Db → List (Fill V)
  fills_of db = fills signed_order.amount (candidates db)

  -- A transaction with the two legs of every fill was sent and confirmed, and the loop's variables
  -- were settled.
  pub record Settled (w w' : World V Db) (fs : List (Fill V)) : Type 0 where
    pub state : MatchState V
    pub receipt : TxReceipt
    pub trades : List TempTradeArg
    pub tx : Text
    pub ran : Ran ethers contracts operator signed_order (match_start signed_order) fs state
    pub legs : LegsOf ethers contracts operator signed_order fs trades
    pub sent : Sent contracts wallet operator trades tx
    pub confirmed : wallet.wait tx ≡ ok receipt
    pub world : w' ≡ settle receipt now_ms signed_order state w

  -- Either nothing was traded and the world is as it was, or the fills were settled.
  abbrev pub Outcome : World V Db → World V Db → List (Fill V) → Type 0
  Outcome w w' fs = ((fs ≡ []) × (w' ≡ w)) ⊎ Settled w w' fs

  pub fulfil_with-parts :
      (as' : List (SraOrder V)) (w w' : World V Db) (r : V)
      → fulfil_with env now_ms signed_order as' w ≡ (w', ok r)
      → (s : MatchState V) × (receipt : TxReceipt) × (match_loop ethers contracts operator
            signed_order as'
            (match_start signed_order)
          ≡ ok s)
        × (transact env s.operation ≡ ok receipt)
        × (w' ≡ settle receipt now_ms signed_order s w)
        × (r ≡ s.remaining_amount)
  unfolding fulfil_with
  fulfil_with-parts as' w w' r h =
      elim (Result-cases
        (match_loop ethers contracts operator signed_order as' (match_start signed_order))) [
          | inl (e, bad) ↦ absurd (ground arith)
          | inr (s, good) ↦ elim (Result-cases (transact env s.operation)) [
            | inl (e, bad) ↦ absurd (ground arith)
            | inr (receipt, done) ↦ (s, receipt, good, done, ground arith, ground arith)
          ]
        ]

  fulfil_with-ok :
      (as' : List (SraOrder V)) (w w' : World V Db) (r : V)
      → fulfil_with env now_ms signed_order as' w ≡ (w', ok r)
      → let fs = fills signed_order.amount as' in
        Settled w w' fs × (r ≡ left signed_order.amount fs)
  unfolding match_start
  fulfil_with-ok as' w w' r h =
      let (s, receipt, good, done, world, rest) = fulfil_with-parts as' w w' r h in
      let run =
        match_loop-Ran ethers contracts operator signed_order as' (match_start signed_order) s
          good in
      let (trades, legs, all_trades, fresh) =
        fill_each-LegsOf ethers contracts operator signed_order _ initiate s.operation
          (run.operation) in
      let (tx, sent, confirmed) = transact-Sent env s.operation receipt done in
      (
        record {
          state = s;
          receipt = receipt;
          trades = trades;
          tx = tx;
          ran = run;
          legs = legs;
          sent = subst (λ ts. Sent contracts wallet operator ts tx) all_trades sent;
          confirmed = confirmed;
          world = world;
        },
        rest ∙ run.remaining,
      )

  remaining_after-ok :
      (all_orders : List (SraOrder V)) (w w' : World V Db) (r : V)
      → remaining_after env now_ms signed_order all_orders w ≡ (w', ok r)
      → let fs = fills signed_order.amount (best_first signed_order all_orders) in
        Outcome w w' fs × (r ≡ left signed_order.amount fs)
  unfolding remaining_after
  remaining_after-ok [] w w' r h =
      rw (best_first_none signed_order)
        (unfold fills left in (inl (refl, ground arith), ground arith))
  remaining_after-ok (a ∷ all_orders) w w' r h =
      elim (Bool-cases (N.lte signed_order.amount (N.of_ℕ 0))) [
        | inr some_amount ↦
            let (settled, rest) =
              fulfil_with-ok (best_first signed_order (a ∷ all_orders)) w w' r
                (rw some_amount at h) in
            (inr settled, rest)
        | inl no_amount ↦
            let none_filled =
              fills_nonpos signed_order.amount (best_first signed_order (a ∷ all_orders))
                no_amount in
            rw none_filled (unfold left in (inl (refl, ground arith), ground arith))
      ]

  -- The parts of a call that returned.
  pub fulfill_order-parts :
      (w w' : World V Db) (f : Fulfilment V)
      → fulfill_order env now_ms signed_order w ≡ (w', ok f)
      → let fs = fills_of w.orders in
        Outcome w w' fs
        × (f.filled_amount ≡ traded_sum fs)
        × (f.is_fullfilled ≡ N.eq (left signed_order.amount fs) (N.of_ℕ 0))
  unfolding fulfill_order fulfillment
  fulfill_order-parts w w' f h =
      let pair =
        remaining_after env now_ms signed_order
          (matching_orders now_ms expiration_buffer signed_order w.orders) w in
      let (r, done, e) = >>=-eq-ok pair.1 _ (ap (λ p. p.1) h) in
      let (outcome, rest) =
        remaining_after-ok (matching_orders now_ms expiration_buffer signed_order w.orders) w w' r
          (ap₂ (λ a b. (a, b)) (ap (λ p. p.0) h) done) in
      (
        outcome,
        ap (λ x. x.filled_amount) (sym (ok-injective e))
            ∙ ap (N.minus signed_order.amount) rest
            ∙ traded-eq signed_order.amount (fills_of w.orders),
        ap (λ x. x.is_fullfilled) (sym (ok-injective e)) ∙ ap (λ x. N.eq x (N.of_ℕ 0)) rest,
      )
