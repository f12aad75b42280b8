-- ===== src/Websocket/Subscriptions.antt =====
-- The subscriptions over any run of the server: to whom they belong, and who loses them.
use perpetual_custom.Base.{
  ℕ, ◌≡◌, refl, ◌∙◌, subst, inl, inr, true, false, not, none, List, [], ◌∷◌, map, filter, any,
  arith, All, All-imp, Bool-cases, ◌==◌, if◌then◌else◌, ok, ok-injective,
}
use perpetual_custom.Base.Text.{Text, codes, text_eq}
use perpetual_custom.Maps.{Map, map_get, map_delete, map_get-map_delete}
use perpetual_custom.Websocket.{
  ServerState, ClientMessage, no_json, request, with_client, request_id_add, alive_as,
  process_connection, process_message, pong_handler, cleanup_connections, delete_each, requests_of,
  close_handler, destroy,
}
use perpetual_custom.Websocket.Keys.{keys-map_set, keys-delete_each, All-map_set, All-delete_each}
use perpetual_custom.Websocket.Clients.{
  has_asked, is_connected, has_asked-closed, has_asked-with_client, request_id_add-keeps,
  has_asked-asking, has_asked-append, has_asked-alive,
}

-- The events that change the state. A socket sends messages while it is connected.
pub data Step (V : Type 0) : ServerState → ServerState → Type 0 where
  connects : (ws : ℕ) (s : ServerState) → Step V s (process_connection ws s)
  asks :
      (ws : ℕ) (message : ClientMessage) (s s' : ServerState)
      → is_connected ws s.clients ≡ true
      → process_message ws message s ≡ ok s'
      → Step V s s'
  answers : (ws : ℕ) (s : ServerState) → Step V s (pong_handler ws s)
  ticks : (s : ServerState) → Step V s (cleanup_connections {V = V} s).0
  closes : (ws : ℕ) (s : ServerState) → Step V s (close_handler ws s)
  destroyed : (s : ServerState) → Step V s (destroy {V = V} s).0

abbrev pub initial : ServerState
initial = record { clients = []; request_id_to_socket = []; request_id_to_subscription_opts = [] }

pub data Reachable (V : Type 0) : ServerState → Type 0 where
  start : Reachable V initial
  continue :
      {before after : ServerState} → Step V before after → Reachable V before → Reachable V after

-- Every request in the maps has a socket and options, and its socket is a connected client that
-- made it.
pub record IsOwned (s : ServerState) : Type 0 where
  pub same_keys :
      map (λ e. e.0) s.request_id_to_socket ≡ map (λ e. e.0) s.request_id_to_subscription_opts
  pub owned : All (λ e. has_asked s.clients e.1 e.0 ≡ true) s.request_id_to_socket

process_message-IsOwned :
    (ws : ℕ) (message : ClientMessage) (s s' : ServerState)
    → IsOwned s
    → is_connected ws s.clients ≡ true
    → process_message ws message s ≡ ok s'
    → IsOwned s'
unfolding process_message
process_message-IsOwned ws no_json s s' h connected e = absurd (cc e)
process_message-IsOwned ws (request type r opts) s s' h connected e =
    elim (Bool-cases (text_eq type (codes "subscribe"))) [
      | inr d ↦ absurd (cc (rw (d, process_message) at e))
      | inl d ↦ subst IsOwned (ok-injective (rw (d, process_message) at e)) (record {
        same_keys = keys-map_set r ws opts _ _ h.same_keys;
        owned =
            All-map_set
              (λ k. has_asked (with_client ws (request_id_add r) s.clients) k.1 k.0 ≡ true) r ws
              s.request_id_to_socket (has_asked-asking ws r s.clients connected)
              (All-imp (λ k. has_asked s.clients k.1 k.0 ≡ true) _ s.request_id_to_socket
                (λ k.
                  has_asked-with_client ws k.1 k.0 (request_id_add r) s.clients (λ c. refl)
                    (request_id_add-keeps k.0 r))
                h.owned);
      })
    ]

close_handler-IsOwned : (ws : ℕ) (s : ServerState) → IsOwned s → IsOwned (close_handler ws s)
unfolding close_handler
close_handler-IsOwned ws s h = record {
  same_keys = keys-delete_each (requests_of ws s.clients) _ _ h.same_keys;
  owned =
      All-imp
        (λ k.
          (has_asked s.clients k.1 k.0 ≡ true)
          × (any (text_eq k.0) (requests_of ws s.clients) ≡ false))
        (λ k. has_asked (filter (λ c. not (c.id == ws)) s.clients) k.1 k.0 ≡ true) _
        (λ k p. has_asked-closed ws k.1 k.0 s.clients p.0 p.1)
        (All-delete_each (λ k. has_asked s.clients k.1 k.0 ≡ true) (requests_of ws s.clients)
          s.request_id_to_socket h.owned);
}

-- Each event keeps the subscriptions owned.
Step-IsOwned : (V : Type 0) (s s' : ServerState) → Step V s s' → IsOwned s → IsOwned s'
unfolding process_connection pong_handler cleanup_connections destroy
Step-IsOwned V _ _ (connects ws s) h = record {
  same_keys = h.same_keys;
  owned =
      All-imp (λ k. has_asked s.clients k.1 k.0 ≡ true) _ s.request_id_to_socket
        (λ k. has_asked-append k.1 k.0 s.clients _) h.owned;
}
Step-IsOwned V _ _ (asks ws message s s' connected e) h =
    process_message-IsOwned ws message s s' h connected e
Step-IsOwned V _ _ (answers ws s) h = record {
  same_keys = h.same_keys;
  owned =
      All-imp (λ k. has_asked s.clients k.1 k.0 ≡ true) _ s.request_id_to_socket
        (λ k. has_asked-with_client ws k.1 k.0 (alive_as true) s.clients (λ c. refl) (λ c p. p))
        h.owned;
}
Step-IsOwned V _ _ (ticks s) h = record {
  same_keys = h.same_keys;
  owned =
      All-imp (λ k. has_asked s.clients k.1 k.0 ≡ true) _ s.request_id_to_socket
        (λ k p. has_asked-alive false k.1 k.0 s.clients ∙ p) h.owned;
}
Step-IsOwned V _ _ (closes ws s) h = close_handler-IsOwned ws s h
Step-IsOwned V _ _ (destroyed s) h = record { same_keys = refl; owned = tt }

-- In every state that the server reaches, the two maps have the same requests, in the same order,
-- and the socket of each request is that of a connected client that made it.
pub Reachable-IsOwned : (V : Type 0) (s : ServerState) → Reachable V s → IsOwned s
Reachable-IsOwned V _ start = record { same_keys = refl; owned = tt }
Reachable-IsOwned V _ (continue {before} {after} step run) =
    Step-IsOwned V before after step (Reachable-IsOwned V before run)

map_get-delete_each {ℓ} :
    {A : Type ℓ} (r : Text) (rs : List Text) (m : Map A)
    → map_get r (delete_each rs m) ≡ (if any (text_eq r) rs then none else map_get r m)
unfolding delete_each
map_get-delete_each r [] m = refl
map_get-delete_each r (x ∷ rs) m =
    map_get-delete_each r rs (map_delete x m) ∙ ground (arith, map_get-map_delete r x m)

-- When a socket closes, every request number that it used is dropped, whichever socket the request
-- is registered for now, and every other request is kept.
pub close_handler-drops :
    (ws : ℕ) (s : ServerState) (r : Text)
    → let after = close_handler ws s in
      let used = any (text_eq r) (requests_of ws s.clients) in
      (map_get r after.request_id_to_socket
        ≡ (if used then none else map_get r s.request_id_to_socket))
      × (map_get r after.request_id_to_subscription_opts
          ≡ (if used then none else map_get r s.request_id_to_subscription_opts))
unfolding close_handler
close_handler-drops ws s r = (
  map_get-delete_each r (requests_of ws s.clients) s.request_id_to_socket,
  map_get-delete_each r (requests_of ws s.clients) s.request_id_to_subscription_opts,
)
