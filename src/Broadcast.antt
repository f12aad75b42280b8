-- ===== src/Broadcast.antt =====
-- What the sockets are sent for the events of a request: src/events.ts calls the listeners that
-- `start` of src/services/websocket_service.ts has registered, at once and in order, and a throw of
-- one of them ends it.
pub mod Reaches
pub mod Post
use perpetual_custom.Base.{ℕ, Option, none, some, List, [], ◌∷◌, ok, if◌then◌else◌}
use mathlib.Core.List.{Mem}
use perpetual_custom.Base.Text.{Text}
use perpetual_custom.BigNumber.{BigNumber}
use perpetual_custom.Service.{Event, order_event, trade_record, account_state}
use perpetual_custom.Channels.{
  SubscriptionOpts, Action, send, ServerMessage, order_message, trade_message, account_message,
  matches_orders, matches_trades, matches_account_state, trade_texts, Sends, and_then,
}
use perpetual_custom.Websocket.{ServerState, on_event}

module _ {V : Type 0} ⦃N : BigNumber V⦄ where
  unfoldable pub broadcast : List (Event V) → ServerState → Sends V
  broadcast [] s = ([], ok tt)
  broadcast (e ∷ es) s = and_then (on_event e s) (broadcast es s)

  -- What a subscription is promised for an event: a message, or nothing.
  abbrev pub event_message : Text → SubscriptionOpts → Event V → Option (ServerMessage V)
  event_message r o (order_event a) =
      if matches_orders a.order o then some (order_message r (a ∷ [])) else none
  event_message r o (trade_record t) =
      if matches_trades t o then some (trade_message r (trade_texts t ∷ [])) else none
  event_message r o (account_state account) =
      if matches_account_state account o then some (account_message r account) else none

-- The message goes to the socket, where there is one to send.
abbrev pub IsSent : {V : Type 0} → ℕ → List (Action V) → Option (ServerMessage V) → Type 0
IsSent ws actions none = Unit
IsSent ws actions (some m) = Mem (send ws m) actions
