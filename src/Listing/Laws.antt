-- ===== src/Listing/Laws.antt =====
-- About ordersAsync: the listing for a trader.
use perpetual_custom.Base.{
  ℕ, ◌+◌, ◌/◌, ◌≡◌, refl, inl, inr, ◌⊎◌, true, Option, some, ◌∷◌, any, All, All-imp, All-map, subst,
  arith, Bool-cases, ok, Result-cases, ok-injective,
}
use perpetual_custom.Base.Int.{ℤ, pos, ◌≤ℤ◌}
use perpetual_custom.Base.Text.{Text, codes}
use perpetual_custom.BigNumber.{BigNumber}
use perpetual_custom.Types.{SraOrder, SignedOrderEntity, PaginatedCollection}
use perpetual_custom.OrderUtils.{one_second_ms, deserialize_order_to_sra_order}
use perpetual_custom.Pagination.{parse_pagination_config, paginate_db_filters, paginate_serialize}
use perpetual_custom.Pagination.Laws.{parse_pagination_config-ok}
use perpetual_custom.Listing.{
  OrderQuery, Clause, Fields, with_field, without_field, order_filters, with_expiration_check,
  get_orders, orders_async, pick_columns,
}

-- The maker or the taker is the trader.
abbrev IsPartyTo : Text → SignedOrderEntity → Type 0
IsPartyTo trader e = (e.maker ≡ trader) ⊎ (e.taker ≡ trader)

passes-IsPartyTo :
    (Q : OrderQuery) (now_ms buffer c : ℕ) (s : Text) (f : Fields) (e : SignedOrderEntity)
    → any (λ k. Q.passes k e) (with_expiration_check now_ms buffer (order_filters f (some (c ∷ s))))
      ≡ true
    → IsPartyTo (c ∷ s) e
unfolding with_expiration_check order_filters
passes-IsPartyTo Q now_ms buffer c s f e h =
    let clause : Fields → Clause = λ fields. record {
      fields = without_field (codes "expiration") fields;
      min_expiration = now_ms / one_second_ms + buffer;
    } in
    elim (Bool-cases (Q.passes (clause (with_field (codes "maker") (c ∷ s) f)) e)) [
      | inl maker ↦ inl (Q.passes-maker _ e (c ∷ s) maker refl)
      | inr other ↦ elim (Bool-cases (Q.passes (clause (with_field (codes "taker") (c ∷ s) f)) e)) [
        | inl taker ↦ inr (Q.passes-taker _ e (c ∷ s) taker refl)
        | inr neither ↦ absurd (ground (arith, other, neither, h))
      ]
    ]

module _ {V : Type 0} ⦃N : BigNumber V⦄ (Q : OrderQuery) (now_ms buffer : ℕ) where
  -- If the handler answers a query for a trader that is not empty, then every order of the page has
  -- the trader as its maker or its taker, the page size is at most 1000, and the total is the count
  -- under the same conditions.
  pub orders_async-IsPartyTo :
      (query : Fields) (page per_page : Option ℤ) (c : ℕ) (s : Text)
      (p : PaginatedCollection (SraOrder V))
      → query (codes "trader") ≡ some (c ∷ s)
      → orders_async Q now_ms buffer query page per_page ≡ ok p
      → All (λ (a : SraOrder V). (a.order.maker ≡ c ∷ s) ⊎ (a.order.taker ≡ c ∷ s)) p.records
        × (p.per_page ≤ℤ pos 1000)
        × (p.total
            ≡ Q.count (
                with_expiration_check now_ms buffer
                  (order_filters (pick_columns query) (some (c ∷ s)))))
  unfolding orders_async get_orders paginate_serialize deserialize_order_to_sra_order
  orders_async-IsPartyTo query page per_page c s p trader h =
      elim (Result-cases (parse_pagination_config page per_page)) [
        | inl (e, bad) ↦ absurd (cc (rw bad at h))
        | inr (config, good) ↦
            let same = ok-injective (rw (good, trader) at h) in
            let (bound, _, _) = parse_pagination_config-ok page per_page config good in
            let clauses =
              with_expiration_check now_ms buffer
                (order_filters (pick_columns query) (some (c ∷ s))) in
            let window = paginate_db_filters config.page config.per_page in
            subst
              (λ p.
                All (λ (a : SraOrder V). (a.order.maker ≡ c ∷ s) ⊎ (a.order.taker ≡ c ∷ s))
                  p.records
                × (p.per_page ≤ℤ pos 1000)
                × (p.total ≡ Q.count clauses))
              same
              (
                All-map _ deserialize_order_to_sra_order (Q.find clauses window) (
                    All-imp _ (IsPartyTo (c ∷ s)) (Q.find clauses window)
                      (λ e. passes-IsPartyTo Q now_ms buffer c s (pick_columns query) e)
                      (Q.find-passes clauses window)),
                bound,
                refl,
              )
      ]
