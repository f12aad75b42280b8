-- ===== src/Websocket.antt =====
-- `WebsocketService` of src/services/websocket_service.ts: its clients and its subscriptions. The
-- packages http and ws deliver the events: a connection, a message, a pong, the tick of the interval,
-- a close. A terminated socket stays among the clients until its close event.
pub mod Liveness
pub mod Keys
pub mod Clients
pub mod Subscriptions
pub mod Delivery
use perpetual_custom.Base.{
  ℕ, ◌≡◌, Bool, true, false, not, List, [], ◌∷◌, ◌++◌, map, filter, any, ◌==◌, if◌then◌else◌,
  Result, ok, err,
}
use perpetual_custom.Base.Text.{Text, codes, text_eq}
use perpetual_custom.BigNumber.{BigNumber}
use perpetual_custom.Types.{Error, malformed_json, not_implemented}
use perpetual_custom.Service.{Event, order_event, trade_record, account_state}
use perpetual_custom.Maps.{Map, map_set, map_delete}
use perpetual_custom.Channels.{
  SubscriptionOpts, WrappedWebSocket, Action, send, ping, terminate, error_message, order_update,
  trade_record_update, account_state_update, Sends,
}

-- What the text of a message parses to. The type and the number of a request are strings; a text
-- whose value is no object is left out.
pub data ClientMessage : Type 0 where
  no_json : ClientMessage
  request : Text → Text → SubscriptionOpts → ClientMessage

pub record ServerState : Type 0 where
  pub clients : List WrappedWebSocket
  pub request_id_to_socket : Map ℕ
  pub request_id_to_subscription_opts : Map SubscriptionOpts

-- The listeners that `start` registers.
unfoldable pub on_event : {V : Type 0} ⦃N : BigNumber V⦄ → Event V → ServerState → Sends V
on_event (order_event a) s =
    order_update s.clients (a ∷ []) s.request_id_to_subscription_opts s.request_id_to_socket
on_event (trade_record t) s =
    trade_record_update (t ∷ []) s.request_id_to_subscription_opts s.request_id_to_socket
on_event (account_state account) s =
    account_state_update s.clients account s.request_id_to_subscription_opts s.request_id_to_socket

-- `isAlive` and `requestIds` of the client with the number, where there is one.
unfoldable pub with_client :
    ℕ → (WrappedWebSocket → WrappedWebSocket) → List WrappedWebSocket → List WrappedWebSocket
with_client ws f [] = []
with_client ws f (c ∷ clients) = (if c.id == ws then f c else c) ∷ with_client ws f clients

abbrev pub request_id_add : Text → WrappedWebSocket → WrappedWebSocket
request_id_add r c = record c {
  request_ids = if any (text_eq r) c.request_ids then c.request_ids else c.request_ids ++ r ∷ [];
}

unfoldable pub process_connection : ℕ → ServerState → ServerState
process_connection ws s = record s {
  clients = s.clients ++ record { id = ws; is_alive = true; request_ids = [] } ∷ [];
}

-- `_processMessage`, less the initial response.
unfoldable pub process_message : ℕ → ClientMessage → ServerState → Result Error ServerState
process_message ws no_json s = err malformed_json
process_message ws (request type request_id opts) s =
    if text_eq type (codes "subscribe")
    then ok (record {
      clients = with_client ws (request_id_add request_id) s.clients;
      request_id_to_socket = map_set request_id ws s.request_id_to_socket;
      request_id_to_subscription_opts = map_set request_id opts s.request_id_to_subscription_opts;
    })
    else err not_implemented

-- `_messageHandler`: an error is sent to the socket, which is then terminated.
unfoldable pub message_handler :
    {V : Type 0} → ℕ → ClientMessage → ServerState → ServerState × List (Action V)
message_handler ws message s = elim (process_message ws message s) [
  | err e ↦ (s, send ws (error_message e) ∷ terminate ws ∷ [])
  | ok s' ↦ (s', [])
]

abbrev pub alive_as : Bool → WrappedWebSocket → WrappedWebSocket
alive_as b c = record c { is_alive = b }

unfoldable pub pong_handler : ℕ → ServerState → ServerState
pong_handler ws s = record s { clients = with_client ws (alive_as true) s.clients }

unfoldable pub cleanup_connections : {V : Type 0} → ServerState → ServerState × List (Action V)
cleanup_connections s = (
  record s { clients = map (alive_as false) s.clients },
  map (λ c. if not c.is_alive then terminate c.id else ping c.id) s.clients,
)

unfoldable pub delete_each {ℓ} : {A : Type ℓ} → List Text → Map A → Map A
delete_each [] m = m
delete_each (r ∷ requests) m = delete_each requests (map_delete r m)

unfoldable pub requests_of : ℕ → List WrappedWebSocket → List Text
requests_of ws [] = []
requests_of ws (c ∷ clients) = (if c.id == ws then c.request_ids else []) ++ requests_of ws clients

-- `_closeHandler`, and the socket's leaving the clients.
unfoldable pub close_handler : ℕ → ServerState → ServerState
close_handler ws s = record {
  clients = filter (λ c. not (c.id == ws)) s.clients;
  request_id_to_socket = delete_each (requests_of ws s.clients) s.request_id_to_socket;
  request_id_to_subscription_opts =
      delete_each (requests_of ws s.clients) s.request_id_to_subscription_opts;
}

unfoldable pub destroy : {V : Type 0} → ServerState → ServerState × List (Action V)
destroy s = (
  record s { request_id_to_socket = []; request_id_to_subscription_opts = [] },
  map (λ c. terminate c.id) s.clients,
)
