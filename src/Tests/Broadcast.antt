-- ===== src/Tests/Broadcast.antt =====
-- The request of Service.antt, seen by the subscription of Sockets.antt.
use perpetual_custom.Base.{ℕ, ◌≡◌, refl, ap, some, List, [], ◌∷◌, All, if◌then◌else◌, ok}
use perpetual_custom.Base.Int.{ℤ}
use perpetual_custom.Base.Text.{codes}
use perpetual_custom.BigNumber.Whole.{whole}
use perpetual_custom.Store.Rows.{rows}
use perpetual_custom.Types.{SraOrder, TradeHistoryEntity}
use perpetual_custom.Maps.{map_get}
use perpetual_custom.Matching.{add_filled}
use perpetual_custom.Service.{
  Event, order_event, trade_record, trade_history, Fulfilment, fulfill_order,
}
use perpetual_custom.Service.Fulfil.{fills_of}
use perpetual_custom.Websocket.Delivery.{IsAddressed}
use perpetual_custom.Broadcast.{broadcast, event_message, IsSent}
use perpetual_custom.Broadcast.Reaches.{broadcast-reaches}
use perpetual_custom.Broadcast.Post.{post_order-informs}
use perpetual_custom.Tests.Data.{env, buying, world, table}
use perpetual_custom.Tests.Service.{posted, post_returns}
use perpetual_custom.Tests.Sockets.{all_orders, bid, subscribed, subscribed-Reachable}

broadcast-reaches_example :
    (ws : ℕ) × (map_get (codes "q") ((codes "q", 4) ∷ []) ≡ some ws)
    × ((broadcast (order_event bid ∷ []) subscribed).1 ≡ ok tt)
    × All
        (λ e.
          IsSent ws
            (broadcast (order_event bid ∷ []) subscribed).0
            (event_message (codes "q") all_orders e))
        (order_event bid ∷ [])
    × All (IsAddressed subscribed.clients) (broadcast (order_event bid ∷ []) subscribed).0
unfolding map_get perpetual_custom.Channels.is_inherited
broadcast-reaches_example =
    broadcast-reaches subscribed (codes "q") all_orders subscribed-Reachable (refl, tt) refl
      (order_event bid ∷ [])

post_order-informs_example :
    (f : Fulfilment ℤ) × (rows : List TradeHistoryEntity) × (es : List (Event ℤ)) × (ws : ℕ)
    × ((fulfill_order env 0 buying world).1 ≡ ok f)
    × (posted.history ≡ rows)
    × (posted.events ≡ es)
    × (map_get (codes "q") ((codes "q", 4) ∷ []) ≡ some ws)
    × ((broadcast es subscribed).1 ≡ ok tt)
    × All
        (λ p.
          IsSent ws
            (broadcast es subscribed).0
            (event_message (codes "q") all_orders (order_event (add_filled p.1 p.0))))
        (fills_of env 0 buying table)
    × All
        (λ e.
          IsSent ws
            (broadcast es subscribed).0
            (event_message (codes "q") all_orders (trade_record (trade_history e))))
        rows
    × (if f.is_fullfilled
        then Unit
        else (a : SraOrder ℤ) × (a.order ≡ buying)
          × (a.meta_data.filled_amount ≡ f.filled_amount)
          × IsSent ws
              (broadcast es subscribed).0
              (event_message (codes "q") all_orders (order_event a)))
unfolding map_get perpetual_custom.Channels.is_inherited
post_order-informs_example =
    post_order-informs env 0 buying world posted 200 subscribed (codes "q") all_orders
      (ap (λ r. (posted, r)) post_returns) subscribed-Reachable (refl, tt) refl
