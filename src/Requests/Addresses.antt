-- ===== src/Requests/Addresses.antt =====
-- About the addresses of a query: the normaliser, then ordersAsync.
use perpetual_custom.Base.{
  ℕ, ◌≡◌, refl, sym, ap, ◌∙◌, ◌⊎◌, inl, inr, Bool, true, Option, none, some, All, Bool-cases, ◌++◌,
  ok, ◌>>=◌, ok-injective, >>=-eq-ok,
}
use mathlib.Core.Path.{fun_ext}
use perpetual_custom.Base.Int.{ℤ}
use perpetual_custom.Base.Text.{
  Text, codes, text_eq, text_eq_iff, to_lower_case, to_lower_case_idem,
}
use perpetual_custom.BigNumber.{BigNumber}
use perpetual_custom.Types.{SraOrder, PaginatedCollection}
use perpetual_custom.Store.{OrderStore}
use perpetual_custom.Service.{Env, World}
use perpetual_custom.Listing.{Fields, with_field, orders_async}
use perpetual_custom.Listing.Laws.{orders_async-IsPartyTo}
use perpetual_custom.Routes.{
  orders, Body, order_page, Sources, read, normalized_value, object_eth_address_normalizer,
}
use perpetual_custom.Requests.{get, body, body-injective, normalize_query, respond}

order_page-injective :
    {V : Type 0} {p q : PaginatedCollection (SraOrder V)}
    → ◌≡◌ {A = Body V} (order_page p) (order_page q)
    → p ≡ q
order_page-injective h = cc h

module _ (is_address : Text → Bool) where
  normalized_field :
      (query : Fields) (h t : Text)
      → query h ≡ some t
      → is_address t ≡ true
      → object_eth_address_normalizer is_address query h ≡ some (to_lower_case t)
  unfolding object_eth_address_normalizer
  normalized_field query h t found address =
      rw (found, object_eth_address_normalizer) (rw address refl)

  normalized_same :
      (f g : Fields) (h : Text)
      → f h ≡ g h
      → object_eth_address_normalizer is_address f h ≡ object_eth_address_normalizer is_address g h
  unfolding object_eth_address_normalizer
  normalized_same f g h e =
      ap
        (λ (o : Option Text). elim o as (λ _. Option Text) [
          | none ↦ none
          | some value ↦ some (normalized_value is_address value)
        ])
        e

  module _
      (lower : (t : Text)
        → is_address (codes "0x" ++ t) ≡ true
        → is_address (to_lower_case (codes "0x" ++ t)) ≡ true) where
    normalized_lower :
        (query : Fields) (name t : Text)
        → query name ≡ some t
        → is_address t ≡ true
        → is_address (to_lower_case t) ≡ true
        → object_eth_address_normalizer is_address (with_field name (to_lower_case t) query)
          ≡ object_eth_address_normalizer is_address query
    normalized_lower query name t found address lowered_address = fun_ext λ h.
        elim (Bool-cases (text_eq h name)) [
          | inl e ↦
              let same = (text_eq_iff h name).0 e in
              let lowered = with_field name (to_lower_case t) query in
              let set : lowered h ≡ some (to_lower_case t) = rw e refl in
              normalized_field lowered h (to_lower_case t) set lowered_address
              ∙ ap some (to_lower_case_idem t)
              ∙ sym (normalized_field query h t (ap query same ∙ found) address)
          | inr e ↦ normalized_same (with_field name (to_lower_case t) query) query h (rw e refl)
        ]

    module _ {V : Type 0} ⦃N : BigNumber V⦄ {Db : Type 0} ⦃S : OrderStore Db⦄ (env : Env)
        (sources : World V Db → Sources Db) where
      -- If the server answers a listing for a trader whose text starts with `0x` and is an address,
      -- then every order of the page has the address in lower case as its maker or its taker, and the
      -- answer is the same for the address in lower case. An address that starts with `0x` is assumed
      -- to be one in lower case too.
      pub respond-orders :
          (now_ms : ℕ) (w : World V Db) (query : Fields) (page per_page : Option ℤ) (s : Text)
          (p : PaginatedCollection (SraOrder V))
          → query (codes "trader") ≡ some (codes "0x" ++ s)
          → is_address (codes "0x" ++ s) ≡ true
          → respond is_address env sources now_ms (get (orders query page per_page)) w
            ≡ (w, ok (body (order_page p)))
          → let trader = to_lower_case (codes "0x" ++ s) in
            All (λ (a : SraOrder V). (a.order.maker ≡ trader) ⊎ (a.order.taker ≡ trader)) p.records
            × (respond is_address env sources now_ms
                  (get (orders (with_field (codes "trader") trader query) page per_page))
                  w
                ≡ (w, ok (body (order_page p))))
      unfolding respond normalize_query read to_lower_case
      respond-orders now_ms w query page per_page s p asked address h =
          let normal = object_eth_address_normalizer is_address query in
          let source = sources w in
          let listed =
            orders_async {V = V} source.listing now_ms source.buffer normal page per_page in
          let (answer, answered, same) = >>=-eq-ok _ _ (ap (λ x. x.1) h) in
          let (q, found, page_is) = >>=-eq-ok listed _ answered in
          let is_p : q ≡ p =
            order_page-injective (ok-injective page_is ∙ body-injective (ok-injective same)) in
          let party =
            orders_async-IsPartyTo source.listing now_ms source.buffer normal page per_page _ _ p
              (normalized_field query (codes "trader") (codes "0x" ++ s) asked address)
              (found ∙ ap ok is_p) in
          (
            party.0,
            ap (λ f. (w, read {V = V} now_ms source (orders f page per_page) >>= λ a. ok (body a)))
                  (normalized_lower query (codes "trader") (codes "0x" ++ s) asked address
                    (lower s address))
                ∙ h,
          )
