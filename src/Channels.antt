-- ===== src/Channels.antt =====
-- The subscriptions of src/services/websocket_service.ts: which requests an order, a trade or an
-- account belongs to, and the messages that are sent for it. A socket is a number; what the server
-- does to sockets is a list of actions.
pub mod Laws
use perpetual_custom.Base.{
  ℕ, ◌≡◌, Bool, true, false, not, ◌&&◌, ◌||◌, Option, none, some, List, [], ◌∷◌, ◌++◌, map, filter,
  any, ◌==◌, if◌then◌else◌, Result, ok, err,
}
use perpetual_custom.Base.Text.{Text, codes, text_eq, to_lower_case}
use perpetual_custom.BigNumber.{BigNumber}
use perpetual_custom.Types.{
  Address, SignedOrder, SraOrder, TradeHistory, ApiAccount, Error, type_error,
}
use perpetual_custom.Matching.{is_fillable}
use perpetual_custom.Maps.{Map, map_get, entries}

pub data MessageChannels : Type 0 where
  orders trades account_states other_channel : MessageChannels

pub record SubscriptionOpts : Type 0 where
  pub channel : MessageChannels
  pub taker : Option Address
  pub maker : Option Address
  pub trader : Option Address

pub record WrappedWebSocket : Type 0 where
  pub id : ℕ
  pub is_alive : Bool
  pub request_ids : List Text

-- The trade that is sent: the fields of a `TradeHistory`, its numbers as texts.
pub record TradeMessage : Type 0 where
  pub hash : Text
  pub taker : Address
  pub maker : Address
  pub price : Text
  pub amount : Text
  pub timestamp : Text
  pub block_number : ℕ

pub data ServerMessage (V : Type 0) : Type 0 where
  order_message : Text → List (SraOrder V) → ServerMessage V
  trade_message : Text → List TradeMessage → ServerMessage V
  account_message : Text → ApiAccount → ServerMessage V
  error_message : Error → ServerMessage V

pub data Action (V : Type 0) : Type 0 where
  send : ℕ → ServerMessage V → Action V
  ping : ℕ → Action V
  terminate : ℕ → Action V

-- `a.toLowerCase() === b.toLowerCase()`
abbrev pub same_address : Address → Address → Bool
same_address a b = text_eq (to_lower_case a) (to_lower_case b)

-- An option that is missing or empty restricts nothing; any other one must pass the test.
unfoldable pub passes : Option Address → (Address → Bool) → Bool
passes none test = true
passes (some []) test = true
passes (some (u ∷ us)) test = test (u ∷ us)

abbrev pub is_orders : MessageChannels → Bool
is_orders orders = true
is_orders _ = false

abbrev pub is_trades : MessageChannels → Bool
is_trades trades = true
is_trades _ = false

abbrev pub is_account_states : MessageChannels → Bool
is_account_states account_states = true
is_account_states _ = false

-- The tests on taker, maker and trader that orders and trades share.
unfoldable pub matches_parties : Address → Address → SubscriptionOpts → Bool
matches_parties maker taker opts =
    passes opts.taker (λ a. same_address a taker)
    && passes opts.maker (λ a. same_address a maker)
    && passes opts.trader (λ a. same_address maker a || same_address taker a)

unfoldable pub matches_account_state : ApiAccount → SubscriptionOpts → Bool
matches_account_state account opts =
    is_account_states opts.channel && passes opts.trader (λ a. same_address account.owner a)

-- The requests whose options pass a test.
unfoldable pub matching_requests : (SubscriptionOpts → Bool) → Map SubscriptionOpts → List Text
matching_requests test opts = map (λ e. e.0) (filter (λ e. test e.1) opts)

-- The properties that every object of JavaScript has.
abbrev pub inherited_names : List Text
inherited_names =
    codes "constructor"
    ∷ codes "__defineGetter__"
    ∷ codes "__defineSetter__"
    ∷ codes "hasOwnProperty"
    ∷ codes "__lookupGetter__"
    ∷ codes "__lookupSetter__"
    ∷ codes "isPrototypeOf"
    ∷ codes "propertyIsEnumerable"
    ∷ codes "toString"
    ∷ codes "valueOf"
    ∷ codes "__proto__"
    ∷ codes "toLocaleString"
    ∷ []

unfoldable pub is_inherited : Text → Bool
is_inherited r = any (text_eq r) inherited_names

-- The object that collects what each request is sent, by its keys: under an inherited name a value is
-- found that has no `add`.
unfoldable pub group_requests : List Text → Result Error (List Text)
group_requests requests =
    if any is_inherited requests then err type_error else ok (entries requests)

-- What a listener sends until it returns or throws.
abbrev pub Sends : Type 0 → Type 0
Sends V = List (Action V) × Result Error Unit

-- One loop pass after the other, until one throws.
abbrev pub and_then : {V : Type 0} → Sends V → Sends V → Sends V
and_then (sent, err e) later = (sent, err e)
and_then (sent, ok _) (more, r) = (sent ++ more, r)

module _ {V : Type 0} where
  unfoldable pub matches_orders : SignedOrder V → SubscriptionOpts → Bool
  matches_orders order opts = is_orders opts.channel && matches_parties order.maker order.taker opts

  unfoldable pub matches_trades : TradeHistory V → SubscriptionOpts → Bool
  matches_trades trade opts = is_trades opts.channel && matches_parties trade.maker trade.taker opts

  -- One message for each request that has a socket.
  unfoldable pub send_each : (Text → ServerMessage V) → Map ℕ → List Text → List (Action V)
  send_each message sockets [] = []
  send_each message sockets (r ∷ requests) = elim (map_get r sockets) [
    | none ↦ send_each message sockets requests
    | some ws ↦ send ws (message r) ∷ send_each message sockets requests
  ]

  -- A request stands once in the map, so the set of orders that it is sent holds this order alone.
  unfoldable pub order_update_one : SraOrder V → Map SubscriptionOpts → Map ℕ → Sends V
  order_update_one a opts sockets =
      elim (group_requests (matching_requests (matches_orders a.order) opts)) [
        | err e ↦ ([], err e)
        | ok requests ↦ (send_each (λ r. order_message r (a ∷ [])) sockets requests, ok tt)
      ]

  -- The loop of `orderUpdate`, behind its test for clients.
  unfoldable pub order_updates : List (SraOrder V) → Map SubscriptionOpts → Map ℕ → Sends V
  order_updates [] opts sockets = ([], ok tt)
  order_updates (a ∷ as') opts sockets =
      and_then (order_update_one a opts sockets) (order_updates as' opts sockets)

  unfoldable pub order_update :
      List WrappedWebSocket → List (SraOrder V) → Map SubscriptionOpts → Map ℕ → Sends V
  order_update [] api_orders opts sockets = ([], ok tt)
  order_update (c ∷ clients) api_orders opts sockets = order_updates api_orders opts sockets

  unfoldable pub account_state_update :
      List WrappedWebSocket → ApiAccount → Map SubscriptionOpts → Map ℕ → Sends V
  account_state_update [] account opts sockets = ([], ok tt)
  account_state_update (c ∷ clients) account opts sockets = (
    send_each (λ r. account_message r account) sockets
        (matching_requests (matches_account_state account) opts),
    ok tt,
  )

module _ {V : Type 0} ⦃N : BigNumber V⦄ where
  unfoldable pub trade_texts : TradeHistory V → TradeMessage
  trade_texts t = record {
    hash = t.hash;
    taker = t.taker;
    maker = t.maker;
    price = N.to_text (t.price).value;
    amount = N.to_fixed 0 t.amount;
    timestamp = N.to_fixed 0 t.timestamp;
    block_number = t.block_number;
  }

  unfoldable pub trade_record_update_one : TradeHistory V → Map SubscriptionOpts → Map ℕ → Sends V
  trade_record_update_one t opts sockets =
      elim (group_requests (matching_requests (matches_trades t) opts)) [
        | err e ↦ ([], err e)
        | ok requests ↦
            (send_each (λ r. trade_message r (trade_texts t ∷ [])) sockets requests, ok tt)
      ]

  unfoldable pub trade_record_update :
      List (TradeHistory V) → Map SubscriptionOpts → Map ℕ → Sends V
  trade_record_update [] opts sockets = ([], ok tt)
  trade_record_update (t ∷ ts) opts sockets =
      and_then (trade_record_update_one t opts sockets) (trade_record_update ts opts sockets)

  unfoldable pub each_order :
      List WrappedWebSocket → List (SraOrder V) → Map SubscriptionOpts → Map ℕ → Sends V
  each_order clients [] opts sockets = ([], ok tt)
  each_order clients (a ∷ as') opts sockets =
      and_then (order_update clients (a ∷ []) opts sockets) (each_order clients as' opts sockets)

  -- `makeInitialResponse`, once the service has answered with the first orders and trades.
  unfoldable pub make_initial_response :
      List WrappedWebSocket
      → List (SraOrder V)
      → List (TradeHistory V)
      → Text
      → SubscriptionOpts
      → ℕ
      → Sends V
  make_initial_response clients first_orders first_trades request_id opts ws =
      and_then
        (if is_orders opts.channel
          then each_order clients (filter is_fillable first_orders) ((request_id, opts) ∷ [])
              ((request_id, ws) ∷ [])
          else ([], ok tt))
        (if is_trades opts.channel
          then trade_record_update first_trades ((request_id, opts) ∷ []) ((request_id, ws) ∷ [])
          else ([], ok tt))
