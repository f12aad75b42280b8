-- ===== src/Websocket/Clients.antt =====
-- Which client has made which request.
use perpetual_custom.Base.{
  ℕ, ◌≡◌, refl, sym, ap, ◌∙◌, inl, inr, Bool, true, false, not, ◌&&◌, ◌||◌, List, [], ◌∷◌, ◌++◌,
  map, filter, any, arith, Bool-cases, ◌==◌,
}
use perpetual_custom.Base.Text.{Text, text_eq, text_eq_refl}
use perpetual_custom.Channels.{WrappedWebSocket}
use perpetual_custom.Websocket.{with_client, request_id_add, alive_as, requests_of}

-- A connected client with the number has made the request.
abbrev pub has_asked : List WrappedWebSocket → ℕ → Text → Bool
has_asked clients ws r = any (λ c. (c.id == ws) && any (text_eq r) c.request_ids) clients

abbrev pub is_connected : ℕ → List WrappedWebSocket → Bool
is_connected ws clients = any (λ c. c.id == ws) clients

pub any-append :
    (r : Text) (xs ys : List Text)
    → any (text_eq r) (xs ++ ys) ≡ (any (text_eq r) xs || any (text_eq r) ys)
any-append r [] ys = refl
any-append r (x ∷ xs) ys = ground (arith, any-append r xs ys)

pub has_asked-closed :
    (v ws : ℕ) (r : Text) (cs : List WrappedWebSocket)
    → has_asked cs ws r ≡ true
    → any (text_eq r) (requests_of v cs) ≡ false
    → has_asked (filter (λ c. not (c.id == v)) cs) ws r ≡ true
unfolding requests_of
has_asked-closed v ws r [] h k = absurd (cc h)
has_asked-closed v ws r (c ∷ cs) h k = elim (Bool-cases (c.id == v)) [
  | inl e ↦
      let none_asked =
        sym (any-append r c.request_ids (requests_of v cs)) ∙ rw (e, requests_of) at k in
      rw e (has_asked-closed v ws r cs (ground (arith, none_asked, h)) (ground (arith, none_asked)))
  | inr e ↦
      let rest : any (text_eq r) (requests_of v cs) ≡ false = rw (e, requests_of) at k in
      rw e (ground (arith, h, has_asked-closed v ws r cs, rest))
]

pub has_asked-with_client :
    (v ws : ℕ) (r : Text) (f : WrappedWebSocket → WrappedWebSocket) (cs : List WrappedWebSocket)
    → ((c : WrappedWebSocket) → (f c).id ≡ c.id)
    → ((c : WrappedWebSocket)
        → any (text_eq r) c.request_ids ≡ true
        → any (text_eq r) (f c).request_ids ≡ true)
    → has_asked cs ws r ≡ true
    → has_asked (with_client v f cs) ws r ≡ true
unfolding with_client
has_asked-with_client v ws r f [] same keeps h = h
has_asked-with_client v ws r f (c ∷ cs) same keeps h = elim (Bool-cases (c.id == v)) [
  | inl e ↦
      rw e (rw (same c) (ground (arith, h, keeps c, has_asked-with_client v ws r f cs same keeps)))
  | inr e ↦ rw e (ground (arith, h, has_asked-with_client v ws r f cs same keeps))
]

pub any_self : (r : Text) (rs : List Text) → any (text_eq r) (rs ++ r ∷ []) ≡ true
any_self r rs = rw (any-append r rs (r ∷ []), text_eq_refl r) (ground arith)

pub request_id_add-keeps :
    (q r : Text) (c : WrappedWebSocket)
    → any (text_eq q) c.request_ids ≡ true
    → any (text_eq q) (request_id_add r c).request_ids ≡ true
request_id_add-keeps q r c h = elim (Bool-cases (any (text_eq r) c.request_ids)) [
  | inl e ↦ rw e h
  | inr e ↦ rw e (rw (any-append q c.request_ids (r ∷ []), h) refl)
]

pub request_id_add-adds :
    (r : Text) (c : WrappedWebSocket) → any (text_eq r) (request_id_add r c).request_ids ≡ true
request_id_add-adds r c = elim (Bool-cases (any (text_eq r) c.request_ids)) [
  | inl e ↦ rw e e
  | inr e ↦ rw e (any_self r c.request_ids)
]

pub has_asked-asking :
    (ws : ℕ) (r : Text) (cs : List WrappedWebSocket)
    → is_connected ws cs ≡ true
    → has_asked (with_client ws (request_id_add r) cs) ws r ≡ true
unfolding with_client
has_asked-asking ws r [] h = absurd (cc h)
has_asked-asking ws r (c ∷ cs) h = elim (Bool-cases (c.id == ws)) [
  | inl e ↦ rw e (rw (e, request_id_add-adds r c) refl)
  | inr e ↦ rw e (rw e (has_asked-asking ws r cs (rw e at h)))
]

pub has_asked-append :
    (ws : ℕ) (r : Text) (cs ds : List WrappedWebSocket)
    → has_asked cs ws r ≡ true
    → has_asked (cs ++ ds) ws r ≡ true
has_asked-append ws r [] ds h = absurd (cc h)
has_asked-append ws r (c ∷ cs) ds h = ground (arith, h, has_asked-append ws r cs ds)

pub has_asked-alive :
    (b : Bool) (ws : ℕ) (r : Text) (cs : List WrappedWebSocket)
    → has_asked (map (alive_as b) cs) ws r ≡ has_asked cs ws r
has_asked-alive b ws r [] = refl
has_asked-alive b ws r (c ∷ cs) =
    ap (λ x. ((c.id == ws) && any (text_eq r) c.request_ids) || x) (has_asked-alive b ws r cs)
