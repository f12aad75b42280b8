-- ===== src/Channels/Laws.antt =====
-- Who receives what is sent for an order, a trade or an account.
use perpetual_custom.Base.{
  ◌≡◌, refl, inl, inr, Bool, true, false, any, All, ok, some, List, [], ◌∷◌, ◌++◌, Bool-cases,
  Option-cases, ℕ,
}
use mathlib.Core.List.{Mem, Memᴰ}
use mathlib.Core.List.Memᴰ
use mathlib.Core.List.Perm
use mathlib.Core.Logic.{∥∥₁_map}
use perpetual_custom.Base.Text.{Text, text_eq, text_eq_iff}
use perpetual_custom.BigNumber.{BigNumber}
use perpetual_custom.Types.{SraOrder, TradeHistory}
use perpetual_custom.Maps.{Map, map_get, entries, entries-perm}
use perpetual_custom.Channels.{
  SubscriptionOpts, WrappedWebSocket, send, ServerMessage, order_message, matches_orders,
  matching_requests, send_each, order_update_one, order_updates, order_update, is_inherited,
  group_requests, trade_message, trade_texts, matches_trades, trade_record_update,
  trade_record_update_one,
}

pub matching_requests-Mem :
    (r : Text) (o : SubscriptionOpts) (test : SubscriptionOpts → Bool) (opts : Map SubscriptionOpts)
    → map_get r opts ≡ some o
    → test o ≡ true
    → Memᴰ r (matching_requests test opts)
unfolding matching_requests map_get
matching_requests-Mem r o test [] h pass = absurd (cc h)
matching_requests-Mem r o test ((k, p) ∷ opts) h pass = elim (Bool-cases (text_eq r k)) [
  | inl e ↦
      let same : p ≡ o = cc (rw (e, map_get) at h) in
      rw same (rw pass (Memᴰ.head ((text_eq_iff r k).0 e)))
  | inr e ↦
      let later = matching_requests-Mem r o test opts (rw (e, map_get) at h) pass in
      elim (Bool-cases (test p)) [ inl d ↦ rw d (Memᴰ.tail later) | inr d ↦ rw d later ]
]

matching_requests-own :
    (test : SubscriptionOpts → Bool) (opts : Map SubscriptionOpts)
    → All (λ e. is_inherited e.0 ≡ false) opts
    → any is_inherited (matching_requests test opts) ≡ false
unfolding matching_requests
matching_requests-own test [] h = refl
matching_requests-own test ((k, p) ∷ opts) h = elim (Bool-cases (test p)) [
  | inl e ↦ rw e (rw (h.0) (matching_requests-own test opts h.1))
  | inr e ↦ rw e (matching_requests-own test opts h.1)
]

-- Requests whose names are their own are collected.
pub group_requests-own :
    (test : SubscriptionOpts → Bool) (opts : Map SubscriptionOpts)
    → All (λ e. is_inherited e.0 ≡ false) opts
    → group_requests (matching_requests test opts) ≡ ok (entries (matching_requests test opts))
unfolding group_requests
group_requests-own test opts h = rw (matching_requests-own test opts h) refl

module _ {V : Type 0} where
  pub send_each-Mem :
      (r : Text) (ws : ℕ) (message : Text → ServerMessage V) (sockets : Map ℕ) (rs : List Text)
      → map_get r sockets ≡ some ws
      → Memᴰ r rs
      → Memᴰ (send ws (message r)) (send_each message sockets rs)
  unfolding send_each
  send_each-Mem r ws message sockets [] h m = absurd (Memᴰ.not-nil m)
  send_each-Mem r ws message sockets (x ∷ rs) h (Memᴰ.head e) =
      let found : map_get x sockets ≡ some ws = rw e at h in
      rw (found, send_each) (rw e (Memᴰ.head refl))
  send_each-Mem r ws message sockets (x ∷ rs) h (Memᴰ.tail m) =
      let later = send_each-Mem r ws message sockets rs h m in
      elim (Option-cases (map_get x sockets)) [
        | inl e ↦ rw (e, send_each) later
        | inr (other, e) ↦ rw (e, send_each) (Memᴰ.tail later)
      ]

  -- While there are clients and no request has an inherited name, the update of an order returns.
  pub order_update-own :
      (c : WrappedWebSocket) (clients : List WrappedWebSocket) (a : SraOrder V)
      (opts : Map SubscriptionOpts) (sockets : Map ℕ)
      → All (λ e. is_inherited e.0 ≡ false) opts
      → order_update (c ∷ clients) (a ∷ []) opts sockets ≡ (
        send_each
              (λ r. order_message r (a ∷ []))
              sockets
              (entries (matching_requests (matches_orders a.order) opts))
            ++ [],
        ok tt,
      )
  unfolding order_update order_updates order_update_one
  order_update-own c clients a opts sockets own =
      rw (group_requests-own (matches_orders a.order) opts own, order_update_one) refl

  -- A request with a socket, whose options the order passes, is sent the order.
  pub order_update-subscriber :
      (c : WrappedWebSocket) (clients : List WrappedWebSocket) (a : SraOrder V) (r : Text)
      (o : SubscriptionOpts) (ws : ℕ) (opts : Map SubscriptionOpts) (sockets : Map ℕ)
      → All (λ e. is_inherited e.0 ≡ false) opts
      → map_get r opts ≡ some o
      → matches_orders a.order o ≡ true
      → map_get r sockets ≡ some ws
      → Mem
          (send ws (order_message r (a ∷ [])))
          (order_update (c ∷ clients) (a ∷ []) opts sockets).0
  order_update-subscriber c clients a r o ws opts sockets own subscribed pass socket =
      let requests = matching_requests (matches_orders a.order) opts in
      let asked : Mem r requests =
        ∣ matching_requests-Mem r o (matches_orders a.order) opts subscribed pass ∣₁ in
      rw (order_update-own c clients a opts sockets own) (
        ∥∥₁_map ((Perm.mem_iff (entries-perm requests)).1 asked) (λ m.
          Memᴰ.append_left [] (
            send_each-Mem r ws (λ q. order_message q (a ∷ [])) sockets (entries requests) socket
              m)))

module _ {V : Type 0} ⦃N : BigNumber V⦄ where
  -- While no request has an inherited name, the update of a trade returns.
  pub trade_record_update-own :
      (t : TradeHistory V) (opts : Map SubscriptionOpts) (sockets : Map ℕ)
      → All (λ e. is_inherited e.0 ≡ false) opts
      → trade_record_update (t ∷ []) opts sockets ≡ (
        send_each
              (λ r. trade_message r (trade_texts t ∷ []))
              sockets
              (entries (matching_requests (matches_trades t) opts))
            ++ [],
        ok tt,
      )
  unfolding trade_record_update trade_record_update_one
  trade_record_update-own t opts sockets own =
      rw (group_requests-own (matches_trades t) opts own, trade_record_update_one) refl
