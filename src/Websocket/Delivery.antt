-- ===== src/Websocket/Delivery.antt =====
-- Where the messages for an event go.
use perpetual_custom.Base.{
  ℕ, ◌≡◌, subst, true, some, List, [], ◌∷◌, All, All-append, Bool-cases, Option-cases, inl, inr, ok,
  err, Result-cases,
}
use perpetual_custom.Base.Text.{Text, text_eq, text_eq_iff}
use perpetual_custom.BigNumber.{BigNumber}
use perpetual_custom.Types.{SraOrder, TradeHistory, ApiAccount}
use perpetual_custom.Maps.{Map, map_get}
use perpetual_custom.Channels.{
  SubscriptionOpts, WrappedWebSocket, Action, send, ServerMessage, order_message, trade_message,
  account_message, send_each, order_update_one, order_updates, order_update, account_state_update,
  trade_record_update, Sends, and_then, group_requests, matching_requests, matches_orders,
  matches_trades, trade_record_update_one,
}
use perpetual_custom.Service.{Event, order_event, trade_record, account_state}
use perpetual_custom.Websocket.{ServerState, on_event}
use perpetual_custom.Websocket.Clients.{has_asked}
use perpetual_custom.Websocket.Subscriptions.{Reachable, Reachable-IsOwned}

-- The action is a message for a request, to a connected client that made the request.
abbrev pub IsAddressed : {V : Type 0} → List WrappedWebSocket → Action V → Type 0
IsAddressed clients (send ws (order_message r _)) = has_asked clients ws r ≡ true
IsAddressed clients (send ws (trade_message r _)) = has_asked clients ws r ≡ true
IsAddressed clients (send ws (account_message r _)) = has_asked clients ws r ≡ true
IsAddressed clients _ = ⊥

pub map_get-All {ℓ} :
    {A : Type ℓ} (P : Text → A → Type 0) (r : Text) (a : A) (m : Map A)
    → All (λ e. P e.0 e.1) m
    → map_get r m ≡ some a
    → P r a
unfolding map_get
map_get-All P r a [] h e = absurd (cc e)
map_get-All P r a ((k, b) ∷ m) h e = elim (Bool-cases (text_eq r k)) [
  | inl d ↦
      let same : b ≡ a = cc (rw (d, map_get) at e) in
      rw ((text_eq_iff r k).0 d) (subst (P k) same h.0)
  | inr d ↦ map_get-All P r a m h.1 (rw (d, map_get) at e)
]

send_each-All :
    {V : Type 0} (P : Action V → Type 0) (message : Text → ServerMessage V) (sockets : Map ℕ)
    (rs : List Text)
    → All (λ e. P (send e.1 (message e.0))) sockets
    → All P (send_each message sockets rs)
unfolding send_each
send_each-All P message sockets [] h = tt
send_each-All P message sockets (r ∷ rs) h = elim (Option-cases (map_get r sockets)) [
  | inl e ↦ rw (e, send_each) (send_each-All P message sockets rs h)
  | inr (ws, e) ↦
      rw (e, send_each)
        (
          map_get-All (λ q w. P (send w (message q))) r ws sockets h e,
          send_each-All P message sockets rs h,
        )
]

pub and_then-All :
    {V : Type 0} (P : Action V → Type 0) (first later : Sends V)
    → All P first.0
    → All P later.0
    → All P (and_then first later).0
and_then-All P (sent, err e) later h k = h
and_then-All P (sent, ok _) (more, r) h k = All-append P sent more h k

module _ (V : Type 0) (owners : List WrappedWebSocket) (opts : Map SubscriptionOpts)
    (sockets : Map ℕ) (owned : All (λ e. has_asked owners e.1 e.0 ≡ true) sockets) where
  order_update-IsAddressed :
      (clients : List WrappedWebSocket) (as' : List (SraOrder V))
      → All (IsAddressed {V = V} owners) (order_update clients as' opts sockets).0
  unfolding order_update order_updates order_update_one
  order_update-IsAddressed [] as' = tt
  order_update-IsAddressed (c ∷ clients) [] = tt
  order_update-IsAddressed (c ∷ clients) (a ∷ as') =
      and_then-All (IsAddressed owners) (order_update_one a opts sockets) _
        (elim (Result-cases (group_requests (matching_requests (matches_orders a.order) opts))) [
          | inl (e, q) ↦ rw (q, order_update_one) tt
          | inr (requests, q) ↦
              rw (q, order_update_one) (send_each-All (IsAddressed owners) _ sockets requests owned)
        ])
        (order_update-IsAddressed (c ∷ clients) as')

  trade_record_update-IsAddressed :
      ⦃N : BigNumber V⦄ (ts : List (TradeHistory V))
      → All (IsAddressed {V = V} owners) (trade_record_update ts opts sockets).0
  unfolding trade_record_update trade_record_update_one
  trade_record_update-IsAddressed [] = tt
  trade_record_update-IsAddressed (t ∷ ts) =
      and_then-All (IsAddressed owners) (trade_record_update_one t opts sockets) _
        (elim (Result-cases (group_requests (matching_requests (matches_trades t) opts))) [
          | inl (e, q) ↦ rw (q, trade_record_update_one) tt
          | inr (requests, q) ↦
              rw (q, trade_record_update_one)
                (send_each-All (IsAddressed owners) _ sockets requests owned)
        ])
        (trade_record_update-IsAddressed ts)

  account_state_update-IsAddressed :
      (clients : List WrappedWebSocket) (account : ApiAccount)
      → All (IsAddressed {V = V} owners) (account_state_update clients account opts sockets).0
  unfolding account_state_update
  account_state_update-IsAddressed [] account = tt
  account_state_update-IsAddressed (c ∷ clients) account =
      send_each-All (IsAddressed owners) _ sockets _ owned

-- In a state that the server reaches, every message that an event sends is for a request of the
-- client that it goes to, and the client is connected.
pub on_event-IsAddressed :
    {V : Type 0} ⦃N : BigNumber V⦄ (e : Event V) (s : ServerState)
    → Reachable V s
    → All (IsAddressed s.clients) (on_event e s).0
unfolding on_event
on_event-IsAddressed {V} (order_event a) s run =
    order_update-IsAddressed V s.clients _ _ (Reachable-IsOwned V s run).owned s.clients (a ∷ [])
on_event-IsAddressed {V} (trade_record t) s run =
    trade_record_update-IsAddressed V s.clients _ _ (Reachable-IsOwned V s run).owned (t ∷ [])
on_event-IsAddressed {V} (account_state account) s run =
    account_state_update-IsAddressed V s.clients _ _ (Reachable-IsOwned V s run).owned s.clients
      account
