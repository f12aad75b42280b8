-- ===== src/Market/Laws.antt =====
-- The quotes and the book of Market.antt.
use perpetual_custom.Base.{
  ℕ, ◌≡◌, refl, ◌↔◌, inl, inr, true, false, List, arith, length, Bool-cases, ◌==◌, ==_iff, ok,
}
use mathlib.Core.List.{Perm}
use perpetual_custom.Base.Int.{ℤ}
use perpetual_custom.BigNumber.{BigNumber}
use perpetual_custom.OrderUtils.{compare_ask_order, compare_bid_order, sort_by}
use perpetual_custom.OrderUtils.Book.{IsFalling, IsRising, sort_by-bid, sort_by-ask}
use perpetual_custom.Pagination.{paginate}
use perpetual_custom.Store.{OrderStore}
use perpetual_custom.Market.{book_side, get_order_book, calculate_funding_rate}

module _ {V : Type 0} ⦃N : BigNumber V⦄ where
  module _ {Db : Type 0} ⦃S : OrderStore Db⦄ (now_ms buffer : ℕ) where
    -- The book shows the fresh orders of each side: bids by falling, asks by rising price, cut to
    -- the page.
    pub get_order_book-sorted :
        (page per_page : ℤ) (db : Db)
        → let bids = sort_by {V = V} compare_bid_order (book_side now_ms buffer true db) in
          let asks = sort_by {V = V} compare_ask_order (book_side now_ms buffer false db) in
          let book = get_order_book {V = V} now_ms buffer page per_page db in
          (book.bids ≡ paginate bids page per_page)
          × IsFalling bids
          × Perm bids (book_side now_ms buffer true db)
          × (book.asks ≡ paginate asks page per_page)
          × IsRising asks
          × Perm asks (book_side now_ms buffer false db)
    unfolding get_order_book
    get_order_book-sorted page per_page db =
        let bids = sort_by-bid (book_side now_ms buffer true db) in
        let asks = sort_by-ask (book_side now_ms buffer false db) in
        (refl, bids.0, bids.1, refl, asks.0, asks.1)

  -- The funding rate is computed exactly if there are as many bid prices and index prices as ask
  -- prices.
  pub calculate_funding_rate-ok :
      (asks bids indices : List V)
      → ((rate : V) × (calculate_funding_rate asks bids indices ≡ ok rate))
        ↔ ((length bids ≡ length asks) × (length indices ≡ length asks))
  unfolding calculate_funding_rate
  calculate_funding_rate-ok asks bids indices = elim (Bool-cases (length bids == length asks)) [
    | inr e ↦ rw e (
      (λ (rate, h). ground arith),
      λ (same, _). ground (arith, ==_iff (length bids) (length asks)),
    )
    | inl e ↦ elim (Bool-cases (length indices == length asks)) [
      | inr d ↦
          rw (e, d)
            (
              (λ (rate, h). ground arith),
              λ (_, same). ground (arith, ==_iff (length indices) (length asks)),
            )
      | inl d ↦
          rw (e, d)
            (
              (λ _. (
                (==_iff (length bids) (length asks)).0 e,
                (==_iff (length indices) (length asks)).0 d,
              )),
              λ _. (_, refl),
            )
    ]
  ]
