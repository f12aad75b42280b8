-- ===== src/Tests/Sockets.antt =====
-- The operation, the signatures and the subscriptions at concrete inputs.
use perpetual_custom.Base.{
  ◌≡◌, refl, true, false, none, some, List, [], ◌∷◌, any, if◌then◌else◌, err,
}
use perpetual_custom.Base.Int.{ℤ, pos}
use perpetual_custom.Base.Text.{codes, text_eq}
use perpetual_custom.BigNumber.Whole.{whole}
use perpetual_custom.Types.{Address, SraOrder, OrderStatus, already_committed}
use perpetual_custom.TradeOperation.{TempTradeArg, TradeOperation, add_trade_arg, commit}
use perpetual_custom.TradeOperation.Laws.{Sent, commit-whole}
use perpetual_custom.Channels.{SubscriptionOpts, orders, WrappedWebSocket, Action, ping}
use perpetual_custom.Maps.{map_get}
use perpetual_custom.Websocket.{
  ServerState, request, process_connection, process_message, cleanup_connections, requests_of,
  close_handler,
}
use perpetual_custom.Websocket.Liveness.{pongs, cleanup-pongs}
use perpetual_custom.Websocket.Subscriptions.{
  connects, asks, start, continue, initial, IsOwned, Reachable-IsOwned, close_handler-drops,
}
use perpetual_custom.Websocket.Subscriptions.{Reachable}
use perpetual_custom.Websocket.{on_event}
use perpetual_custom.Tests.Data.{wallet, contracts, buyer, buying}

abbrev one_trade : TradeOperation
one_trade = record {
  trades =
      record { maker = codes "0xa1"; taker = codes "0xb1"; trader = codes "0xc1"; payload = [] }
      ∷ [];
  committed = false;
}

abbrev sent_trade : TradeOperation
sent_trade = record one_trade { committed = true }

commit-whole_example :
    (false ≡ false)
    × Sent contracts wallet buyer one_trade.trades (codes "0xf1")
    × ((arg : TempTradeArg) → add_trade_arg arg sent_trade ≡ err already_committed)
    × ((other : Address)
        → commit contracts wallet other sent_trade ≡ (sent_trade, err already_committed))
unfolding commit
commit-whole_example = commit-whole contracts wallet buyer one_trade

abbrev pub all_orders : SubscriptionOpts
all_orders = record { channel = orders; taker = none; maker = some buyer; trader = none }

abbrev pub connected : ServerState
unfolding process_connection
connected = process_connection 4 initial

abbrev pub client : WrappedWebSocket
client = record { id = 4; is_alive = true; request_ids = codes "q" ∷ [] }

abbrev pub subscribed : ServerState
subscribed = record {
  clients = client ∷ [];
  request_id_to_socket = (codes "q", 4) ∷ [];
  request_id_to_subscription_opts = (codes "q", all_orders) ∷ [];
}

abbrev pub bid : SraOrder ℤ
bid = record {
  order = buying;
  meta_data = record {
    order_hash = [];
    filled_amount = pos 0;
    created_at = [];
    state = OrderStatus.null;
  };
}

pub subscribed-Reachable : Reachable ℤ subscribed
unfolding process_connection process_message perpetual_custom.Websocket.with_client
    perpetual_custom.Maps.map_set
subscribed-Reachable =
    continue
      (asks 4 (request (codes "subscribe") (codes "q") all_orders) connected subscribed refl refl)
      (continue (connects 4 initial) start)

Reachable-IsOwned_example : IsOwned subscribed
Reachable-IsOwned_example = Reachable-IsOwned ℤ subscribed subscribed-Reachable

close_handler-drops_example :
    let after = close_handler 4 subscribed in
    let used = any (text_eq (codes "q")) (requests_of 4 subscribed.clients) in
    (map_get (codes "q") after.request_id_to_socket
      ≡ (if used then none else map_get (codes "q") ((codes "q", 4) ∷ [])))
    × (map_get (codes "q") after.request_id_to_subscription_opts
        ≡ (if used then none else map_get (codes "q") ((codes "q", all_orders) ∷ [])))
close_handler-drops_example = close_handler-drops 4 subscribed (codes "q")

cleanup-pongs_example :
    ◌≡◌ {A = List (Action ℤ)}
      (cleanup_connections (pongs (4 ∷ []) (cleanup_connections {V = ℤ} subscribed).0)).1
      (ping 4 ∷ [])
cleanup-pongs_example = cleanup-pongs ℤ (4 ∷ []) subscribed
