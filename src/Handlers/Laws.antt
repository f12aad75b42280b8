-- ===== src/Handlers/Laws.antt =====
-- What the handlers of Handlers.antt leave in the table of orders and in the event stream.
use perpetual_custom.Base.{
  ℕ, ◌≡◌, refl, sym, ap, ◌∙◌, inl, inr, some, [], ◌∷◌, ◌++◌, arith, append-nil, Bool-cases,
  Result-cases, ok-injective, if◌then◌else◌, ok,
}
use perpetual_custom.Base.Text.{Text, text_eq_refl}
use perpetual_custom.BigNumber.{BigNumber}
use perpetual_custom.Types.{SignedOrder, SraOrder, OrderStatus}
use perpetual_custom.OrderUtils.{serialize_order, now_seconds}
use perpetual_custom.OrderUtils.RoundTrip.{IsIntegral, deserialize-serialize}
use perpetual_custom.Orders.{get_order_hash}
use perpetual_custom.Store.{OrderStore}
use perpetual_custom.Service.{
  Env, World, order_event, Fulfilment, Found, fulfill_order, add_order, get_order_by_hash_if_exists,
}
use perpetual_custom.Handlers.{find_one, post_order, post_fulfilled, get_order_by_hash}

module _ {V : Type 0} ⦃N : BigNumber V⦄ where
  -- The order that `addOrderAsync` makes of a signed order.
  unfoldable pub api_order : ℕ → SignedOrder V → Text → V → SraOrder V
  api_order now_ms signed_order hash filled_amount = record {
    order = signed_order;
    meta_data = record {
      order_hash = hash;
      filled_amount = filled_amount;
      created_at = N.to_text (N.of_ℕ (now_seconds now_ms));
      state = OrderStatus.null;
    };
  }

  module _ {Db : Type 0} ⦃S : OrderStore Db⦄ where
    pub add_order-ok :
        (env : Env) (now_ms : ℕ) (signed_order : SignedOrder V) (filled_amount : V)
        (w w' : World V Db) (a : SraOrder V)
        → add_order env now_ms signed_order filled_amount w ≡ (w', ok a)
        → (hash : Text) × (get_order_hash env.ethers env.contracts signed_order.order ≡ ok hash)
          × (a ≡ api_order now_ms signed_order hash filled_amount)
          × (w' ≡ record w { orders = S.save (serialize_order a) w.orders })
    unfolding add_order api_order
    add_order-ok env now_ms signed_order filled_amount w w' a h =
        elim (Result-cases (get_order_hash env.ethers env.contracts signed_order.order)) [
          | inl (x, e) ↦ absurd (ground (arith, e, h))
          | inr (hash, e) ↦
              let k = rw (e, add_order) at h in
              let same = ok-injective (ap (λ p. p.1) k) in
              (
                hash,
                e,
                sym same,
                sym (ap (λ p. p.0) k)
                    ∙ ap (λ b. record w { orders = S.save (serialize_order b) w.orders }) same,
              )
        ]

    pub row-saved :
        (a : SraOrder V) (db : Db)
        → S.row a.meta_data.order_hash (S.save (serialize_order a) db) ≡ some (serialize_order a)
    unfolding serialize_order
    row-saved a db =
        S.row-save a.meta_data.order_hash (serialize_order a) db
        ∙ rw (text_eq_refl a.meta_data.order_hash) refl

    -- An order that was added, with whole amount, expiration and salt, is answered by its hash as it
    -- was.
    pub get_order_by_hash-add_order :
        (env : Env) (now_ms : ℕ) (signed_order : SignedOrder V) (filled_amount : V)
        (w w' : World V Db) (a : SraOrder V) (absent : Found)
        → IsIntegral a
        → add_order env now_ms signed_order filled_amount w ≡ (w', ok a)
        → get_order_by_hash (find_one absent a.meta_data.order_hash w'.orders) ≡ ok a
    unfolding get_order_by_hash find_one get_order_by_hash_if_exists
    get_order_by_hash-add_order env now_ms signed_order filled_amount w w' a absent integral h =
        let (hash, _, _, after) = add_order-ok env now_ms signed_order filled_amount w w' a h in
        let stored : S.row a.meta_data.order_hash w'.orders ≡ some (serialize_order a) =
          ap (λ v. S.row a.meta_data.order_hash v.orders) after ∙ row-saved a w.orders in
        rw (stored, find_one) (ap ok (deserialize-serialize a integral))

    pub post_fulfilled-ok :
        (env : Env) (now_ms : ℕ) (signed_order : SignedOrder V) (f : Fulfilment V)
        (w w' : World V Db) (status : ℕ)
        → post_fulfilled env now_ms signed_order f w ≡ (w', ok status)
        → (a : SraOrder V) × (mid : World V Db) × (add_order env now_ms signed_order f.filled_amount
              w
            ≡ (mid, ok a))
          × (w'.orders ≡ mid.orders)
          × (w'.events ≡ mid.events ++ (if f.is_fullfilled then [] else order_event a ∷ []))
    unfolding post_fulfilled
    post_fulfilled-ok env now_ms signed_order f w w' status h =
        let r = add_order env now_ms signed_order f.filled_amount w in
        elim (Result-cases r.1) [
          | inl (x, e) ↦ absurd (ground (arith, e, h))
          | inr (a, e) ↦
              let k = ap (λ p. p.0) (rw (e, post_fulfilled) at h) in
              elim (Bool-cases f.is_fullfilled) [
                | inl full ↦ rw full (
                  a,
                  r.0,
                  ap (λ x. (r.0, x)) e,
                  ap (λ v. v.orders) (sym (rw full at k)),
                  ap (λ v. v.events) (sym (rw full at k)) ∙ sym (append-nil r.0.events),
                )
                | inr partly ↦ rw partly (
                  a,
                  r.0,
                  ap (λ x. (r.0, x)) e,
                  ap (λ v. v.orders) (sym (rw partly at k)),
                  ap (λ v. v.events) (sym (rw partly at k)),
                )
              ]
        ]

    pub post_order-parts :
        (env : Env) (now_ms : ℕ) (signed_order : SignedOrder V) (w w' : World V Db) (status : ℕ)
        → post_order env now_ms signed_order w ≡ (w', ok status)
        → (f : Fulfilment V) × ((fulfill_order env now_ms signed_order w).1 ≡ ok f)
          × (post_fulfilled env now_ms signed_order f (fulfill_order env now_ms signed_order w).0
              ≡ (w', ok status))
    unfolding post_order
    post_order-parts env now_ms signed_order w w' status h =
        elim (Result-cases (fulfill_order env now_ms signed_order w).1) [
          | inl (x, e) ↦ absurd (cc (ap (λ p. p.1) (rw (e, post_order) at h)))
          | inr (f, e) ↦ (f, e, rw (e, post_order) at h)
        ]

    -- A posted order that is answered was first matched; it is then stored under its hash, with the
    -- matched amount as its filled amount, and it is announced, behind the events of the match,
    -- unless the match filled it.
    pub post_order-ok :
        (env : Env) (now_ms : ℕ) (signed_order : SignedOrder V) (w w' : World V Db) (status : ℕ)
        → post_order env now_ms signed_order w ≡ (w', ok status)
        → let matched = fulfill_order env now_ms signed_order w in
          (f : Fulfilment V) × (a : SraOrder V) × (matched.1 ≡ ok f)
          × (get_order_hash env.ethers env.contracts signed_order.order ≡ ok a.meta_data.order_hash)
          × (a.order ≡ signed_order)
          × (a.meta_data.filled_amount ≡ f.filled_amount)
          × (S.row a.meta_data.order_hash w'.orders ≡ some (serialize_order a))
          × (w'.events ≡ matched.0.events ++ (if f.is_fullfilled then [] else order_event a ∷ []))
    unfolding api_order
    post_order-ok env now_ms signed_order w w' status h =
        let (f, matched, done) = post_order-parts env now_ms signed_order w w' status h in
        let (a, mid, added, orders, events) =
          post_fulfilled-ok env now_ms signed_order f _ w' status done in
        let (hash, hashed, same, after) =
          add_order-ok env now_ms signed_order f.filled_amount _ mid a added in
        (
          f,
          a,
          matched,
          hashed ∙ ap (λ b. ok b.meta_data.order_hash) (sym same),
          ap (λ b. b.order) same,
          ap (λ b. b.meta_data.filled_amount) same,
          ap (S.row a.meta_data.order_hash) (orders ∙ ap (λ v. v.orders) after) ∙ row-saved a _,
          events ∙ ap (λ v. v.events ++ (if f.is_fullfilled then [] else order_event a ∷ [])) after,
        )
