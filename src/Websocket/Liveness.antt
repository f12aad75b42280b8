-- ===== src/Websocket/Liveness.antt =====
-- The interval of the server: who is pinged and who is terminated.
use perpetual_custom.Base.{
  ℕ, ◌≡◌, refl, sym, ap, ap₂, ◌∙◌, inl, inr, true, false, not, List, [], ◌∷◌, map, any, Bool-cases,
  ◌==◌, if◌then◌else◌,
}
use perpetual_custom.Channels.{WrappedWebSocket, Action, ping, terminate}
use perpetual_custom.Websocket.{
  ServerState, with_client, alive_as, pong_handler, cleanup_connections,
}

-- The pongs of the given sockets, one after the other.
unfoldable pub pongs : List ℕ → ServerState → ServerState
pongs [] s = s
pongs (ws ∷ rest) s = pongs rest (pong_handler ws s)

-- A client after the pongs of the given sockets.
unfoldable pub answered : List ℕ → WrappedWebSocket → WrappedWebSocket
answered ids c = if any (λ ws. c.id == ws) ids then alive_as true c else c

answered-cons :
    (ws : ℕ) (ids : List ℕ) (c : WrappedWebSocket)
    → answered ids (if c.id == ws then alive_as true c else c) ≡ answered (ws ∷ ids) c
unfolding answered
answered-cons ws ids c = elim (Bool-cases (c.id == ws)) [
  | inr e ↦ rw e refl
  | inl e ↦
      rw e (elim (Bool-cases (any (λ i. c.id == i) ids)) [ inl d ↦ rw d refl | inr d ↦ rw d refl ])
]

map-with_client :
    (ws : ℕ) (ids : List ℕ) (cs : List WrappedWebSocket)
    → map (answered ids) (with_client ws (alive_as true) cs) ≡ map (answered (ws ∷ ids)) cs
unfolding with_client
map-with_client ws ids [] = refl
map-with_client ws ids (c ∷ cs) = ap₂ ◌∷◌ (answered-cons ws ids c) (map-with_client ws ids cs)

map-answered_none : (cs : List WrappedWebSocket) → map (answered []) cs ≡ cs
unfolding answered
map-answered_none [] = refl
map-answered_none (c ∷ cs) = ap (◌∷◌ c) (map-answered_none cs)

pongs-clients :
    (ids : List ℕ) (s : ServerState) → (pongs ids s).clients ≡ map (answered ids) s.clients
unfolding pongs pong_handler
pongs-clients [] s = sym (map-answered_none s.clients)
pongs-clients (ws ∷ ids) s =
    pongs-clients ids (pong_handler ws s) ∙ map-with_client ws ids s.clients

tick_action :
    (V : Type 0) (ids : List ℕ) (c : WrappedWebSocket)
    → let d = answered ids (alive_as false c) in
      ◌≡◌ {A = Action V}
        (if not d.is_alive then terminate d.id else ping d.id)
        (if any (λ ws. c.id == ws) ids then ping c.id else terminate c.id)
unfolding answered
tick_action V ids c = elim (Bool-cases (any (λ ws. c.id == ws) ids)) [
  | inl e ↦ rw e refl
  | inr e ↦ rw e refl
]

map-tick_action :
    (V : Type 0) (ids : List ℕ) (cs : List WrappedWebSocket)
    → ◌≡◌ {A = List (Action V)}
        (map
          (λ c. if not c.is_alive then terminate c.id else ping c.id)
          (map (answered ids) (map (alive_as false) cs)))
        (map (λ c. if any (λ ws. c.id == ws) ids then ping c.id else terminate c.id) cs)
map-tick_action V ids [] = refl
map-tick_action V ids (c ∷ cs) = ap₂ ◌∷◌ (tick_action V ids c) (map-tick_action V ids cs)

-- Between two ticks of the interval some sockets answer: the second tick pings exactly the clients
-- among them, and terminates every other client.
pub cleanup-pongs :
    (V : Type 0) (ids : List ℕ) (s : ServerState)
    → ◌≡◌ {A = List (Action V)}
        (cleanup_connections (pongs ids (cleanup_connections {V = V} s).0)).1
        (map (λ c. if any (λ ws. c.id == ws) ids then ping c.id else terminate c.id) s.clients)
unfolding cleanup_connections
cleanup-pongs V ids s =
    ap (map (λ c. if not c.is_alive then terminate c.id else ping c.id))
      (pongs-clients ids (cleanup_connections {V = V} s).0)
    ∙ map-tick_action V ids s.clients
