-- ===== src/Broadcast/Post.antt =====
-- About postOrderAsync, from the request to the sockets.
use perpetual_custom.Base.{
  ℕ, ◌≡◌, refl, sym, ap, ◌∙◌, inl, inr, some, List, [], ◌∷◌, ◌++◌, append-nil, append_assoc, map,
  false, All, All-split, map-All, Bool-cases, Result-cases, if◌then◌else◌, ok,
}
use perpetual_custom.Base.Text.{Text}
use perpetual_custom.BigNumber.{BigNumber}
use perpetual_custom.Types.{SignedOrder, SraOrder, TradeHistoryEntity}
use perpetual_custom.Orders.{get_order_hash}
use perpetual_custom.Store.{OrderStore}
use perpetual_custom.Maps.{map_get}
use perpetual_custom.Matching.{add_filled}
use perpetual_custom.Service.{
  Env, World, Event, order_event, trade_record, trade_history, Fulfilment, fulfill_order, add_order,
}
use perpetual_custom.Service.Fulfil.{fills_of}
use perpetual_custom.Service.Writes.{fulfill_order-Written}
use perpetual_custom.Handlers.{post_order, post_fulfilled}
use perpetual_custom.Handlers.Laws.{post_order-ok}
use perpetual_custom.Channels.{SubscriptionOpts, is_inherited}
use perpetual_custom.Websocket.{ServerState}
use perpetual_custom.Websocket.Subscriptions.{Reachable}
use perpetual_custom.Broadcast.{broadcast, event_message, IsSent}
use perpetual_custom.Broadcast.Reaches.{broadcast-reaches}

module _ {V : Type 0} ⦃N : BigNumber V⦄ {Db : Type 0} ⦃S : OrderStore Db⦄ (env : Env) (now_ms : ℕ)
    (signed_order : SignedOrder V) where
  add_order-history :
      (x : V) (w : World V Db) → (add_order env now_ms signed_order x w).0.history ≡ w.history
  unfolding add_order
  add_order-history x w =
      elim (Result-cases (get_order_hash env.ethers env.contracts signed_order.order)) [
        | inl (e, h) ↦ rw (h, add_order) refl
        | inr (hash, h) ↦ rw (h, add_order) refl
      ]

  post_fulfilled-history :
      (f : Fulfilment V) (w : World V Db)
      → (post_fulfilled env now_ms signed_order f w).0.history ≡ w.history
  unfolding post_fulfilled
  post_fulfilled-history f w =
      let same = add_order-history f.filled_amount w in
      elim (Result-cases (add_order env now_ms signed_order f.filled_amount w).1) [
        | inl (e, h) ↦ rw (h, post_fulfilled) same
        | inr (a, h) ↦ elim (Bool-cases f.is_fullfilled) [
          | inl full ↦ rw (h, post_fulfilled) (rw full same)
          | inr part ↦ rw (h, post_fulfilled) (rw part same)
        ]
      ]

  post_order-history :
      (w : World V Db)
      → (post_order env now_ms signed_order w).0.history
        ≡ (fulfill_order env now_ms signed_order w).0.history
  unfolding post_order
  post_order-history w = elim (Result-cases (fulfill_order env now_ms signed_order w).1) [
    | inl (e, h) ↦ rw (h, post_order) refl
    | inr (f, h) ↦ rw (h, post_order) (post_fulfilled-history f _)
  ]

  -- The events of the fills and of the rows of the history.
  abbrev pub match_events : World V Db → List TradeHistoryEntity → List (Event V)
  match_events w rows =
      map (λ p. order_event (add_filled p.1 p.0)) (fills_of env now_ms signed_order w.orders)
      ++ map (λ e. trade_record (trade_history e)) rows

  matched_events :
      (w w' : World V Db) (f : Fulfilment V)
      → fulfill_order env now_ms signed_order w ≡ (w', ok f)
      → (rows : List TradeHistoryEntity) × (w'.history ≡ w.history ++ rows)
        × (w'.events ≡ w.events ++ match_events w rows)
  matched_events w w' f h = elim (fulfill_order-Written env now_ms signed_order w w' f h) [
    | inl (no_fills, same) ↦
        rw (no_fills, same) ([], sym (append-nil w.history), sym (append-nil w.events))
    | inr written ↦ (written.rows, written.history, written.events ∙ append_assoc w.events _ _)
  ]

  -- If a posted order is answered, then in a state that the sockets reach, in which no request has a
  -- name that every object inherits, no listener throws, and a subscription is sent, as far as its
  -- options let it pass: each order that was filled, with its new filled amount; each
  -- trade that was added to the history; and the posted order, with what was filled of it, unless it
  -- was filled whole.
  pub post_order-informs :
      (w w' : World V Db) (status : ℕ) (s : ServerState) (r : Text) (o : SubscriptionOpts)
      → post_order env now_ms signed_order w ≡ (w', ok status)
      → Reachable V s
      → All (λ e. is_inherited e.0 ≡ false) s.request_id_to_subscription_opts
      → map_get r s.request_id_to_subscription_opts ≡ some o
      → (f : Fulfilment V) × (rows : List TradeHistoryEntity) × (es : List (Event V)) × (ws : ℕ)
        × ((fulfill_order env now_ms signed_order w).1 ≡ ok f)
        × (w'.history ≡ w.history ++ rows)
        × (w'.events ≡ w.events ++ es)
        × (map_get r s.request_id_to_socket ≡ some ws)
        × ((broadcast es s).1 ≡ ok tt)
        × All
            (λ p.
              IsSent ws (broadcast es s).0 (event_message r o (order_event (add_filled p.1 p.0))))
            (fills_of env now_ms signed_order w.orders)
        × All
            (λ e. IsSent ws (broadcast es s).0 (event_message r o (trade_record (trade_history e))))
            rows
        × (if f.is_fullfilled
            then Unit
            else (a : SraOrder V) × (a.order ≡ signed_order)
              × (a.meta_data.filled_amount ≡ f.filled_amount)
              × IsSent ws (broadcast es s).0 (event_message r o (order_event a)))
  post_order-informs w w' status s r o h reached own subscribed =
      let (f, a, matched, _, same, filled, _, events) =
        post_order-ok env now_ms signed_order w w' status h in
      let w1 = (fulfill_order env now_ms signed_order w).0 in
      let (rows, history, announced) = matched_events w w1 f (ap (λ x. (w1, x)) matched) in
      let last = if f.is_fullfilled then [] else order_event a ∷ [] in
      let es = match_events w rows ++ last in
      let (ws, socket, returned, all_sent, _) = broadcast-reaches s r o reached own subscribed es in
      let promise : Event V → Type 0 = λ e. IsSent ws (broadcast es s).0 (event_message r o e) in
      let (of_match, of_own) = All-split promise (match_events w rows) last all_sent in
      let (of_fills, of_rows) =
        All-split promise
          (map (λ p. order_event (add_filled p.1 p.0)) (fills_of env now_ms signed_order w.orders))
          (map (λ e. trade_record (trade_history e)) rows) of_match in
      (
        f,
        rows,
        es,
        ws,
        matched,
        ap (λ x. x.0.history) (sym h) ∙ post_order-history w ∙ history,
        events ∙ ap (λ x. x ++ last) announced ∙ append_assoc w.events (match_events w rows) last,
        socket,
        returned,
        map-All promise (λ p. order_event (add_filled p.1 p.0)) _ of_fills,
        map-All promise (λ e. trade_record (trade_history e)) rows of_rows,
        elim (Bool-cases f.is_fullfilled) [
          | inl full ↦ rw full tt
          | inr part ↦ rw part (a, same, filled, (rw part at of_own).0)
        ],
      )
