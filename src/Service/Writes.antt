-- ===== src/Service/Writes.antt =====
-- What `fulfillOrderAsync` sends and writes, that a throw changes nothing, and that it returns.
use mathlib.Core.List.{map-map}
use perpetual_custom.Base.{
  ℕ, ◌≡◌, refl, sym, ap, ap₂, ◌∙◌, ◌⊎◌, inl, inr, List, [], ◌∷◌, ◌++◌, arith, map, Result, ok, err,
}
use perpetual_custom.Base.Text.{Text}
use perpetual_custom.BigNumber.{BigNumber}
use perpetual_custom.Types.{SignedOrder, SraOrder, TradeHistoryEntity}
use perpetual_custom.Types.{Error}
use perpetual_custom.Ethers.{TxReceipt}
use perpetual_custom.OrderUtils.{serialize_order, now_seconds}
use perpetual_custom.Store.{OrderStore}
use perpetual_custom.TradeOperation.{TempTradeArg}
use perpetual_custom.TradeOperation.Laws.{Sent}
use perpetual_custom.Matching.{
  MatchState, add_filled, history_arg, matching_orders, best_first, match_start,
}
use perpetual_custom.Matching.Fills.{Fill, traded_sum, volume}
use perpetual_custom.Matching.Loop.{Ran}
use perpetual_custom.Matching.Legs.{LegsOf}
use perpetual_custom.Service.{
  Env, order_event, trade_record, World, Fulfilment, history_entity, taker_entity, trade_history,
  history_rows, save_all, settle, fulfil_with, remaining_after, fulfillment, fulfill_order,
}
use perpetual_custom.Service.Fulfil.{fills_of, Settled, fulfill_order-parts, traded-eq}

module _ {V : Type 0} ⦃N : BigNumber V⦄ where
  rows-eq :
      (env : Env) (now_ms : ℕ) (signed_order : SignedOrder V) (receipt : TxReceipt)
      (s : MatchState V) (fs : List (Fill V))
      → Ran env.ethers env.contracts env.operator signed_order (match_start signed_order) fs s
      → let timestamp = N.to_fixed 0 (N.of_ℕ (now_seconds now_ms)) in
        history_rows receipt now_ms signed_order s
        ≡ map (λ f. history_entity receipt timestamp (history_arg f.0 f.1)) fs
          ++ taker_entity receipt timestamp signed_order (volume (N.of_ℕ 0) fs) (traded_sum fs) ∷ []
  unfolding history_rows match_start
  rows-eq env now_ms signed_order receipt s fs r =
      let timestamp = N.to_fixed 0 (N.of_ℕ (now_seconds now_ms)) in
      ap₂ ◌++◌
        (ap (map (history_entity receipt timestamp)) (r.history)
          ∙ map-map (history_entity receipt timestamp) (λ f. history_arg f.0 f.1) fs)
        (ap₂ (λ v t. taker_entity receipt timestamp signed_order v t ∷ []) (r.total)
          (ap (N.minus signed_order.amount) (r.remaining) ∙ traded-eq signed_order.amount fs))

  fulfillment-err :
      (signed_order : SignedOrder V) (r : Result Error V) (e : Error)
      → fulfillment signed_order r ≡ err e
      → r ≡ err e
  unfolding fulfillment
  fulfillment-err o (ok a) e h = absurd (cc)
  fulfillment-err o (err b) e h = cc

module _ {V : Type 0} ⦃N : BigNumber V⦄ {Db : Type 0} ⦃S : OrderStore Db⦄ (env : Env) (now_ms : ℕ)
    (signed_order : SignedOrder V) where
  open N use {of_ℕ}

  -- What the call has written, when it traded.
  pub record Written (w w' : World V Db) (fs : List (Fill V)) : Type 0 where
    pub receipt : TxReceipt
    pub rows : List TradeHistoryEntity
    pub rows_eq :
        let timestamp = N.to_fixed 0 (of_ℕ (now_seconds now_ms)) in
        rows
        ≡ map (λ f. history_entity receipt timestamp (history_arg f.0 f.1)) fs
          ++ taker_entity receipt timestamp signed_order (volume (of_ℕ 0) fs) (traded_sum fs) ∷ []
    pub orders : w'.orders ≡ save_all (map (λ f. serialize_order (add_filled f.1 f.0)) fs) w.orders
    pub history : w'.history ≡ w.history ++ rows
    pub events :
        w'.events
        ≡ (w.events ++ map (λ f. order_event (add_filled f.1 f.0)) fs)
          ++ map (λ e. trade_record (trade_history e)) rows
    pub trades : List TempTradeArg
    pub tx : Text
    pub legs : LegsOf env.ethers env.contracts env.operator signed_order fs trades
    pub sent : Sent env.contracts env.wallet env.operator trades tx
    pub confirmed : env.wallet.wait tx ≡ ok receipt

  Settled-Written :
      (w w' : World V Db) (fs : List (Fill V))
      → Settled env now_ms signed_order w w' fs
      → Written w w' fs
  unfolding settle match_start
  Settled-Written w w' fs h =
      let rows = history_rows h.receipt now_ms signed_order h.state in
      record {
        receipt = h.receipt;
        rows = rows;
        rows_eq = rows-eq env now_ms signed_order h.receipt h.state fs h.ran;
        orders = ap (λ x. x.orders) h.world ∙ ap (λ x. save_all x w.orders) (h.ran.updated);
        history = ap (λ x. x.history) h.world;
        events =
            ap (λ x. x.events) h.world
            ∙ ap
                (λ x.
                  (w.events ++ map order_event x) ++ map (λ e. trade_record (trade_history e)) rows)
                (h.ran.emitted)
            ∙ ap (λ x. (w.events ++ x) ++ map (λ e. trade_record (trade_history e)) rows)
                (map-map order_event (λ f. add_filled f.1 f.0) fs);
        trades = h.trades;
        tx = h.tx;
        legs = h.legs;
        sent = h.sent;
        confirmed = h.confirmed;
      }

  -- A call that returns has either traded nothing and changed nothing; or a transaction with the
  -- two legs of every fill, against the operator, was sent and confirmed, and then every filled
  -- order was saved with its new filled amount, the trades were appended to the history, one row
  -- for each fill and one for the incoming order, and the events of both were emitted, in order.
  pub fulfill_order-Written :
      (w w' : World V Db) (f : Fulfilment V)
      → fulfill_order env now_ms signed_order w ≡ (w', ok f)
      → let fs = fills_of env now_ms signed_order w.orders in
        ((fs ≡ []) × (w' ≡ w)) ⊎ Written w w' fs
  fulfill_order-Written w w' f h =
      let (outcome, _, _) = fulfill_order-parts env now_ms signed_order w w' f h in
      elim outcome [ inl same ↦ inl same | inr settled ↦ inr (Settled-Written w w' _ settled) ]

  fulfil_with-err :
      (as' : List (SraOrder V)) (w : World V Db) (e : Error)
      → (fulfil_with env now_ms signed_order as' w).1 ≡ err e
      → (fulfil_with env now_ms signed_order as' w).0 ≡ w
  unfolding fulfil_with
  fulfil_with-err as' w e h = ground arith

  remaining_after-err :
      (as' : List (SraOrder V)) (w : World V Db) (e : Error)
      → (remaining_after env now_ms signed_order as' w).1 ≡ err e
      → (remaining_after env now_ms signed_order as' w).0 ≡ w
  unfolding remaining_after
  remaining_after-err [] w e h = refl
  remaining_after-err (a ∷ as') w e h =
      ground (arith, fulfil_with-err (best_first signed_order (a ∷ as')) w e)

  -- A call that throws leaves the orders, the history and the events as they were.
  pub fulfill_order-err :
      (w w' : World V Db) (e : Error)
      → fulfill_order env now_ms signed_order w ≡ (w', err e)
      → w' ≡ w
  unfolding fulfill_order
  fulfill_order-err w w' e h =
      sym (ap (λ p. p.0) h)
      ∙ remaining_after-err (matching_orders now_ms env.expiration_buffer signed_order w.orders) w e
          (fulfillment-err signed_order _ e (ap (λ p. p.1) h))
