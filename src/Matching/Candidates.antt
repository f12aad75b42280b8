-- ===== src/Matching/Candidates.antt =====
-- Which resting orders an incoming order meets, and in which order.
use perpetual_custom.Base.{
  ℕ, ◌≡◌, inl, inr, Bool, true, not, List, arith, map, All, All-filter, filter-All, All-map,
  All-imp, All-both, Bool-cases, if◌then◌else◌,
}
use perpetual_custom.BigNumber.{BigNumber}
use perpetual_custom.Types.{SignedOrder, SraOrder, SignedOrderEntity}
use perpetual_custom.OrderUtils.{
  deserialize_order_to_sra_order, is_fresh_order, compare_ask_order, compare_bid_order,
}
use perpetual_custom.OrderUtils.Book.{IsFalling, IsRising, sort_by-ask, sort_by-bid, All-sort_by}
use perpetual_custom.Store.{OrderStore, find_by_side}
use perpetual_custom.Matching.{
  is_fillable, is_price_matched, fresh_fillable, matching_orders, best_first,
}

fresh_fillable-All :
    (V : Type 0) ⦃N : BigNumber V⦄ (now_ms buffer : ℕ) (es : List SignedOrderEntity)
    → All
        (λ (a : SraOrder V). (is_fresh_order now_ms buffer a ≡ true) × (is_fillable a ≡ true))
        (fresh_fillable now_ms buffer es)
unfolding fresh_fillable
fresh_fillable-All V now_ms buffer es =
    let all : List (SraOrder V) = map deserialize_order_to_sra_order es in
    All-both (λ a. is_fresh_order now_ms buffer a ≡ true) (λ a. is_fillable a ≡ true) _
      (All-filter (λ a. is_fresh_order now_ms buffer a ≡ true) is_fillable _
        (filter-All (is_fresh_order now_ms buffer) all))
      (filter-All is_fillable _)

side-All :
    {Db : Type 0} ⦃S : OrderStore Db⦄ (is_buy : Bool) (db : Db)
    → All (λ e. e.is_buy ≡ is_buy) (find_by_side is_buy db)
side-All ⦃S⦄ is_buy db =
    All-imp _ (λ e. e.is_buy ≡ is_buy) (find_by_side is_buy db) (λ e h. ground arith)
      (filter-All _ (S.find db))

module _ {V : Type 0} ⦃N : BigNumber V⦄ where
  -- The limit price of a resting order is at least as good as the incoming order's, for the latter.
  abbrev pub IsAcceptable : SignedOrder V → SraOrder V → Type 0
  IsAcceptable o a =
      if o.is_buy
      then N.lte (a.order.limit_price).value (o.limit_price).value ≡ true
      else N.lte (o.limit_price).value (a.order.limit_price).value ≡ true

  pub record IsMatch (now_ms buffer : ℕ) (o : SignedOrder V) (a : SraOrder V) : Type 0 where
    pub opposite : a.order.is_buy ≡ not o.is_buy
    pub fresh : is_fresh_order now_ms buffer a ≡ true
    pub fillable : is_fillable a ≡ true
    pub acceptable : IsAcceptable o a

  is_price_matched-IsAcceptable :
      (o : SignedOrder V) (a : SraOrder V) → is_price_matched o a ≡ true → IsAcceptable o a
  unfolding is_price_matched
  is_price_matched-IsAcceptable o a h = elim (Bool-cases o.is_buy) [
    | inl e ↦ rw e (rw e at h)
    | inr e ↦ rw e (rw e at h)
  ]

  pub All-fresh_fillable {κ} :
      (P : SraOrder V → Type κ) (now_ms buffer : ℕ) (es : List SignedOrderEntity)
      → All P (map deserialize_order_to_sra_order es)
      → All P (fresh_fillable now_ms buffer es)
  unfolding fresh_fillable
  All-fresh_fillable P now_ms buffer es h =
      All-filter P is_fillable _ (All-filter P (is_fresh_order now_ms buffer) _ h)

  module _ {Db : Type 0} ⦃S : OrderStore Db⦄ where
    -- Every order that is matched is of the other side, fresh, not yet filled up, and acceptable.
    pub matching_orders-IsMatch :
        (now_ms buffer : ℕ) (o : SignedOrder V) (db : Db)
        → All (IsMatch now_ms buffer o) (matching_orders now_ms buffer o db)
    unfolding matching_orders deserialize_order_to_sra_order
    matching_orders-IsMatch now_ms buffer o db =
        let rows = find_by_side (not o.is_buy) db in
        let found = fresh_fillable now_ms buffer rows in
        let P : SraOrder V → Type 0 = λ a.
          (a.order.is_buy ≡ not o.is_buy)
          × ((is_fresh_order now_ms buffer a ≡ true) × (is_fillable a ≡ true)) in
        let base : All P found =
          All-both _ _ found
            (All-fresh_fillable (λ a. a.order.is_buy ≡ not o.is_buy) now_ms buffer rows
              (All-map _ deserialize_order_to_sra_order rows (side-All (not o.is_buy) db)))
            (fresh_fillable-All V now_ms buffer rows) in
        All-imp _ (IsMatch now_ms buffer o) _
          (λ a h. record {
            opposite = h.0.0;
            fresh = h.0.1.0;
            fillable = h.0.1.1;
            acceptable = is_price_matched-IsAcceptable o a h.1;
          })
          (All-both P (λ a. is_price_matched o a ≡ true) _
            (All-filter P (is_price_matched o) found base) (filter-All (is_price_matched o) found))

  pub best_first-All {κ} :
      (P : SraOrder V → Type κ) (o : SignedOrder V) (as' : List (SraOrder V))
      → All P as'
      → All P (best_first o as')
  unfolding best_first
  best_first-All P o as' h = elim (Bool-cases o.is_buy) [
    | inl e ↦ rw e (All-sort_by P compare_ask_order as' h)
    | inr e ↦ rw e (All-sort_by P compare_bid_order as' h)
  ]

  -- A buyer meets rising prices and a seller falling ones.
  abbrev pub IsBestFirst : SignedOrder V → List (SraOrder V) → Type 0
  IsBestFirst o as' = if o.is_buy then IsRising as' else IsFalling as'

  pub best_first-IsBestFirst :
      (o : SignedOrder V) (as' : List (SraOrder V)) → IsBestFirst o (best_first o as')
  unfolding best_first
  best_first-IsBestFirst o as' = elim (Bool-cases o.is_buy) [
    | inl e ↦ rw e ((sort_by-ask as').0)
    | inr e ↦ rw e ((sort_by-bid as').0)
  ]
