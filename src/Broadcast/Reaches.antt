-- ===== src/Broadcast/Reaches.antt =====
-- Subscriptions and the events that are broadcast.
use perpetual_custom.Base.{
  ℕ, ◌≡◌, refl, inl, inr, true, Option, none, some, List, [], ◌∷◌, All, All-imp, ap, sym, subst,
  false, ok, err, ◌++◌, Bool-cases,
}
use mathlib.Core.List.{Mem, mem-append_left, mem-append_right}
use mathlib.Core.List.Perm
use mathlib.Core.Logic.{∥∥₁_map}
use perpetual_custom.Base.Text.{Text}
use perpetual_custom.BigNumber.{BigNumber}
use perpetual_custom.Maps.{map_get, entries, entries-perm}
use perpetual_custom.Service.{Event, order_event, trade_record, account_state}
use perpetual_custom.Channels.{
  SubscriptionOpts, WrappedWebSocket, Action, send, ServerMessage, trade_message, account_message,
  matches_orders, matches_trades, matches_account_state, matching_requests, trade_texts,
  account_state_update, is_inherited, Sends, and_then,
}
use perpetual_custom.Channels.Laws.{
  matching_requests-Mem, send_each-Mem, order_update-subscriber, order_update-own,
  trade_record_update-own,
}
use perpetual_custom.Websocket.{ServerState, on_event}
use perpetual_custom.Websocket.Keys.{keys-map_get}
use perpetual_custom.Websocket.Clients.{has_asked}
use perpetual_custom.Websocket.Subscriptions.{Reachable, Reachable-IsOwned}
use perpetual_custom.Websocket.Delivery.{
  IsAddressed, map_get-All, on_event-IsAddressed, and_then-All,
}
use perpetual_custom.Broadcast.{broadcast, event_message, IsSent}

-- A client that has asked is one of the clients.
someone :
    (clients : List WrappedWebSocket) (ws : ℕ) (r : Text)
    → has_asked clients ws r ≡ true
    → (c : WrappedWebSocket) × (rest : List WrappedWebSocket) × (clients ≡ c ∷ rest)
someone [] ws r h = absurd (cc h)
someone (c ∷ rest) ws r h = (c, rest, refl)

and_then-ok :
    {V : Type 0} (first later : Sends V)
    → first.1 ≡ ok tt
    → and_then first later ≡ (first.0 ++ later.0, later.1)
and_then-ok (sent, err e) later h = absurd (cc h)
and_then-ok (sent, ok tt) (more, r) h = refl

IsSent-imp :
    {V : Type 0} (ws : ℕ) (xs ys : List (Action V)) (m : Option (ServerMessage V))
    → ((a : Action V) → Mem a xs → Mem a ys)
    → IsSent ws xs m
    → IsSent ws ys m
IsSent-imp ws xs ys none f h = tt
IsSent-imp ws xs ys (some m) f h = f (send ws m) h

module _ {V : Type 0} ⦃N : BigNumber V⦄ (s : ServerState) (r : Text) (o : SubscriptionOpts) (ws : ℕ)
    (subscribed : map_get r s.request_id_to_subscription_opts ≡ some o)
    (socket : map_get r s.request_id_to_socket ≡ some ws)
    (own : All (λ e. is_inherited e.0 ≡ false) s.request_id_to_subscription_opts) where
  on_event-IsSent :
      (c : WrappedWebSocket) (rest : List WrappedWebSocket)
      → s.clients ≡ c ∷ rest
      → (e : Event V) → IsSent ws (on_event e s).0 (event_message r o e)
  unfolding on_event account_state_update
  on_event-IsSent c rest h (order_event a) = elim (Bool-cases (matches_orders a.order o)) [
    | inl pass ↦
        rw (pass, h) (order_update-subscriber c rest a r o ws _ _ own subscribed pass socket)
    | inr blocked ↦ rw blocked tt
  ]
  on_event-IsSent c rest h (trade_record t) = elim (Bool-cases (matches_trades t o)) [
    | inl pass ↦
        let requests = matching_requests (matches_trades t) s.request_id_to_subscription_opts in
        let found = matching_requests-Mem r o (matches_trades t) _ subscribed pass in
        let asked : Mem r requests = ∣ found ∣₁ in
        rw
          (
            pass,
            trade_record_update-own t s.request_id_to_subscription_opts s.request_id_to_socket own,
          )
          (mem-append_left [] (
            ∥∥₁_map ((Perm.mem_iff (entries-perm requests)).1 asked) (λ m.
              send_each-Mem r ws (λ q. trade_message q (trade_texts t ∷ [])) s.request_id_to_socket
                (entries requests) socket m)))
    | inr blocked ↦ rw blocked tt
  ]
  on_event-IsSent c rest h (account_state account) =
      elim (Bool-cases (matches_account_state account o)) [
        | inl pass ↦
            let found =
              send_each-Mem r ws (λ q. account_message q account) s.request_id_to_socket _ socket
                (matching_requests-Mem r o (matches_account_state account) _ subscribed pass) in
            rw (pass, h) (∣ found ∣₁)
        | inr blocked ↦ rw blocked tt
      ]

  -- No listener throws.
  on_event-returns :
      (c : WrappedWebSocket) (rest : List WrappedWebSocket)
      → s.clients ≡ c ∷ rest
      → (e : Event V) → (on_event e s).1 ≡ ok tt
  unfolding on_event account_state_update
  on_event-returns c rest h (order_event a) =
      rw h (ap (λ x. x.1) (order_update-own c rest a _ _ own))
  on_event-returns c rest h (trade_record t) = ap (λ x. x.1) (trade_record_update-own t _ _ own)
  on_event-returns c rest h (account_state account) = rw h refl

  broadcast-returns :
      (c : WrappedWebSocket) (rest : List WrappedWebSocket)
      → s.clients ≡ c ∷ rest
      → (es : List (Event V)) → (broadcast es s).1 ≡ ok tt
  unfolding broadcast
  broadcast-returns c rest h [] = refl
  broadcast-returns c rest h (e ∷ es) =
      rw (and_then-ok (on_event e s) (broadcast es s) (on_event-returns c rest h e))
        (broadcast-returns c rest h es)

  broadcast-All :
      (c : WrappedWebSocket) (rest : List WrappedWebSocket)
      → s.clients ≡ c ∷ rest
      → (es : List (Event V)) → All (λ e. IsSent ws (broadcast es s).0 (event_message r o e)) es
  unfolding broadcast
  broadcast-All c rest h [] = tt
  broadcast-All c rest h (e ∷ es) =
      subst (λ x. All (λ d. IsSent ws x (event_message r o d)) (e ∷ es))
        (ap (λ x. x.0)
          (sym (and_then-ok (on_event e s) (broadcast es s) (on_event-returns c rest h e))))
        (
          IsSent-imp ws _ _ (event_message r o e) (λ a m. mem-append_left (broadcast es s).0 m)
              (on_event-IsSent c rest h e),
          All-imp _ _ es
              (λ d k.
                IsSent-imp ws _ _ (event_message r o d) (λ a m. mem-append_right (on_event e s).0 m)
                  k)
              (broadcast-All c rest h es),
        )

module _ {V : Type 0} ⦃N : BigNumber V⦄ where
  broadcast-IsAddressed :
      (es : List (Event V)) (s : ServerState)
      → Reachable V s
      → All (IsAddressed s.clients) (broadcast es s).0
  unfolding broadcast
  broadcast-IsAddressed [] s run = tt
  broadcast-IsAddressed (e ∷ es) s run =
      and_then-All (IsAddressed s.clients) (on_event e s) (broadcast es s)
        (on_event-IsAddressed e s run) (broadcast-IsAddressed es s run)

  -- In a state that the server reaches, whose requests have no name that every object inherits, a
  -- request that has options has a socket, and its socket is sent a message for each of the events
  -- whose order, trade or account passes the options; no listener throws. Every message that the
  -- events send is for a request of the connected client that it goes to.
  pub broadcast-reaches :
      (s : ServerState) (r : Text) (o : SubscriptionOpts)
      → Reachable V s
      → All (λ e. is_inherited e.0 ≡ false) s.request_id_to_subscription_opts
      → map_get r s.request_id_to_subscription_opts ≡ some o
      → (es : List (Event V))
      → (ws : ℕ) × (map_get r s.request_id_to_socket ≡ some ws)
        × ((broadcast es s).1 ≡ ok tt)
        × All (λ e. IsSent ws (broadcast es s).0 (event_message r o e)) es
        × All (IsAddressed s.clients) (broadcast es s).0
  broadcast-reaches s r o run own subscribed es =
      let owned = Reachable-IsOwned V s run in
      let (ws, socket) = keys-map_get r o _ s.request_id_to_socket owned.same_keys subscribed in
      let asked =
        map_get-All (λ q w. has_asked s.clients w q ≡ true) r ws s.request_id_to_socket owned.owned
          socket in
      let (c, rest, h) = someone s.clients ws r asked in
      (
        ws,
        socket,
        broadcast-returns s r o ws subscribed socket own c rest h es,
        broadcast-All s r o ws subscribed socket own c rest h es,
        broadcast-IsAddressed es s run,
      )
