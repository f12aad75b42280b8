-- ===== src/Requests/Laws.antt =====
-- What a client sees of the table after any requests, and how the addresses of a query are read.
use perpetual_custom.Base.{
  ℕ, ◌≡◌, refl, sym, ap, subst, ◌∙◌, inl, inr, Bool, true, false, List, [], ◌∷◌, All, All-imp,
  All-map, All-filter, All-take, All-drop, Option-cases, ok, err, Result, ◌>>=◌, ok-injective,
  >>=-eq-ok,
}
use perpetual_custom.Base.Int.{ℤ}
use perpetual_custom.Base.Text.{Text}
use perpetual_custom.BigNumber.{BigNumber}
use perpetual_custom.Types.{Error, SraOrder}
use perpetual_custom.Store.{OrderStore, find_by_side}
use perpetual_custom.OrderUtils.{
  now_seconds, is_fresh_order, deserialize_order_to_sra_order, compare_ask_order, compare_bid_order,
}
use perpetual_custom.OrderUtils.Book.{All-sort_by}
use perpetual_custom.Pagination.{paginate, slice, paginate_serialize, parse_pagination_config}
use perpetual_custom.Service.{Env, World, null_row, get_order_by_hash_if_exists}
use perpetual_custom.Handlers.{
  get_account, orders_hash, other_data, cancel_order, post_order, get_order_by_hash, find_one,
}
use perpetual_custom.Market.{book_side, get_order_book, get_funding_rate}
use perpetual_custom.Exchange.{post, cancel, book, handle, serve}
use perpetual_custom.Exchange.Books.{side-book, book_row}
use perpetual_custom.Exchange.Moves.{IsWhole}
use perpetual_custom.Exchange.Sound.{IsSoundOrder, IsSoundBook, IsSoundOrder-found}
use perpetual_custom.Exchange.Refines.{serve-IsSoundBook}
use perpetual_custom.Routes.{
  Query, order, orderbook, root, orders, quote_price, markets, funding_rate, trades_history,
  account, order_page, market_list, rate, trade_page, one_account, get_index_price_async,
  get_funding_rate_async, get_account_async, Body, one_order, book_page, Sources, read,
  orderbook_async,
}
use perpetual_custom.Requests.{
  with_status, normalize_query, body-injective, Incoming, get, post_body, cancel_body, body,
  posted_order, respond, respond_all,
}

paginate-All :
    {A : Type 0} (P : A → Type 0) (xs : List A) (page per_page : ℤ)
    → All P xs
    → All P (paginate xs page per_page).records
unfolding paginate slice paginate_serialize
paginate-All P xs page per_page h = All-take P _ _ (All-drop P _ xs h)

module _ {V : Type 0} ⦃N : BigNumber V⦄ where
  -- The orders that an answer shows, of the table: one, or two pages of the order book.
  abbrev pub ShowsSound : Body V → Type 0
  ShowsSound (one_order a) = IsSoundOrder a
  ShowsSound (book_page p) = All IsSoundOrder (p.bids).records × All IsSoundOrder (p.asks).records
  ShowsSound _ = Unit

side-IsSoundOrder :
    (V : Type 0) ⦃N : BigNumber V⦄ {Db : Type 0} ⦃S : OrderStore Db⦄ (now_ms buffer : ℕ)
    (is_buy : Bool) (db : Db)
    → IsSoundBook (book V db)
    → All IsSoundOrder (book_side {V = V} now_ms buffer is_buy db)
unfolding book_side
side-IsSoundOrder V now_ms buffer is_buy db sound =
    All-filter IsSoundOrder (is_fresh_order now_ms buffer) _ (
      All-map IsSoundOrder deserialize_order_to_sra_order (find_by_side is_buy db) (
        All-imp _ _ (find_by_side is_buy db)
          (λ e found. IsSoundOrder-found (book V db) e.hash _ sound found) (side-book V is_buy db)))

get_order_book-ShowsSound :
    (V : Type 0) ⦃N : BigNumber V⦄ {Db : Type 0} ⦃S : OrderStore Db⦄ (now_ms buffer : ℕ)
    (page per_page : ℤ) (db : Db)
    → IsSoundBook (book V db)
    → ShowsSound {V = V} (book_page (get_order_book now_ms buffer page per_page db))
unfolding get_order_book
get_order_book-ShowsSound V now_ms buffer page per_page db sound = (
  paginate-All IsSoundOrder _ page per_page (
      All-sort_by IsSoundOrder compare_bid_order _
        (side-IsSoundOrder V now_ms buffer true db sound)),
  paginate-All IsSoundOrder _ page per_page (
      All-sort_by IsSoundOrder compare_ask_order _
        (side-IsSoundOrder V now_ms buffer false db sound)),
)

answered-ShowsSound :
    {V A : Type 0} ⦃N : BigNumber V⦄ (r : Result Error A) (f : A → Body V) (answer : Body V)
    → ((a : A) → r ≡ ok a → ShowsSound (f a))
    → (r >>= λ a. ok (f a)) ≡ ok answer
    → ShowsSound answer
answered-ShowsSound {V} r f answer h e =
    let (a, found, same) = >>=-eq-ok _ _ e in
    subst (ShowsSound {V = V}) (ok-injective same) (h a found)

module _ {V : Type 0} ⦃N : BigNumber V⦄ {Db : Type 0} ⦃S : OrderStore Db⦄ where
  get_order_by_hash-IsSoundOrder :
      (hash : Text) (db : Db) (a : SraOrder V)
      → IsSoundBook (book V db)
      → get_order_by_hash (find_one null_row hash db) ≡ ok a
      → IsSoundOrder a
  unfolding get_order_by_hash find_one get_order_by_hash_if_exists
  get_order_by_hash-IsSoundOrder hash db a sound h = elim (Option-cases (S.row hash db)) [
    | inl e ↦ absurd (cc (rw (e, find_one) at h))
    | inr (row, e) ↦
        subst IsSoundOrder (ok-injective (rw (e, find_one) at h))
          (IsSoundOrder-found (book V db) hash _ sound (book_row V hash db row e))
  ]

  read-ShowsSound :
      (now_ms : ℕ) (source : Sources Db) (query : Query) (answer : Body V)
      → IsSoundBook (book V source.orders)
      → read now_ms source query ≡ ok answer
      → ShowsSound answer
  unfolding read orderbook_async get_funding_rate_async get_account_async
  read-ShowsSound now_ms source (order hash) answer sound h =
      answered-ShowsSound _ one_order answer
        (λ a. get_order_by_hash-IsSoundOrder hash source.orders a sound) h
  read-ShowsSound now_ms source (orderbook page per_page) answer sound h =
      answered-ShowsSound _ book_page answer
        (λ p read_page.
          let (config, _, whole) = >>=-eq-ok (parse_pagination_config page per_page) _ read_page in
          subst (λ x. ShowsSound {V = V} (book_page x)) (ok-injective whole)
            (get_order_book-ShowsSound V now_ms source.buffer config.page config.per_page
              source.orders sound))
        h
  read-ShowsSound now_ms source root answer sound h = subst (ShowsSound {V = V}) (ok-injective h) tt
  read-ShowsSound now_ms source (orders query page per_page) answer sound h =
      answered-ShowsSound _ order_page answer (λ a _. tt) h
  read-ShowsSound now_ms source (quote_price amount is_buy) answer sound h =
      subst (ShowsSound {V = V}) (ok-injective h) tt
  read-ShowsSound now_ms source markets answer sound h =
      answered-ShowsSound _ market_list answer (λ a _. tt) h
  read-ShowsSound now_ms source funding_rate answer sound h =
      let (price, _, later) = >>=-eq-ok (get_index_price_async {V = V} now_ms source) _ h in
      answered-ShowsSound (get_funding_rate {V = V} now_ms source.buffer price source.orders)
        (λ r. rate r (now_seconds now_ms)) answer (λ a _. tt) later
  read-ShowsSound now_ms source (trades_history page per_page) answer sound h =
      answered-ShowsSound _ trade_page answer (λ a _. tt) h
  read-ShowsSound now_ms source (account address) answer sound h =
      let (balance, _, later) = >>=-eq-ok (source.balance_of address) _ h in
      answered-ShowsSound (source.index_of address)
        (λ i. one_account (get_account V (source.contracts).market address balance i)) answer
        (λ a _. tt) later

  with_status_world : (p : World V Db × Result Error ℕ) → (with_status p).0 ≡ p.0
  with_status_world (w, ok code) = refl
  with_status_world (w, err e) = refl

  module _ (is_address : Text → Bool) (env : Env) (sources : World V Db → Sources Db)
      (same_table : (w : World V Db) → (sources w).orders ≡ w.orders) where
    -- An order in a body has a whole amount, expiration and salt, and its amount is not negative.
    abbrev pub IsWholeRequest : Incoming → Type 0
    IsWholeRequest (post_body taker raw) = IsWhole {V = V} (posted_order is_address taker raw)
    IsWholeRequest _ = Unit

    respond-IsSoundBook :
        (now_ms : ℕ) (r : Incoming) (w : World V Db)
        → IsWholeRequest r
        → IsSoundBook (book V w.orders)
        → IsSoundBook (book V (respond is_address env sources now_ms r w).0.orders)
    unfolding respond serve handle cancel_order
    respond-IsSoundBook now_ms (get query) w whole sound = sound
    respond-IsSoundBook now_ms (post_body taker raw) w whole sound =
        let o = posted_order is_address taker raw in
        subst (λ x. IsSoundBook (book V x.orders))
          (sym (with_status_world (post_order env now_ms o w)))
          (serve-IsSoundBook env (post now_ms o ∷ []) w (whole, tt) sound)
    respond-IsSoundBook now_ms (cancel_body (orders_hash hashes)) w whole sound =
        subst (λ x. IsSoundBook (book V x.orders))
          (sym (with_status_world (cancel_order null_row (orders_hash hashes) w)))
          (serve-IsSoundBook env (cancel hashes ∷ []) w (tt, tt) sound)
    respond-IsSoundBook now_ms (cancel_body other_data) w whole sound = sound

    respond_all-IsSoundBook :
        (rs : List (ℕ × Incoming)) (w : World V Db)
        → All (λ r. IsWholeRequest r.1) rs
        → IsSoundBook (book V w.orders)
        → IsSoundBook (book V (respond_all is_address env sources rs w).orders)
    unfolding respond_all
    respond_all-IsSoundBook [] w wholes sound = sound
    respond_all-IsSoundBook ((now_ms, r) ∷ rs) w (whole, wholes) sound =
        respond_all-IsSoundBook rs _ wholes (respond-IsSoundBook now_ms r w whole sound)

    -- After any requests, of which those that post an order post one with a whole amount, expiration
    -- and salt and an amount that is not negative, a client that reads one order or a page of the
    -- order book sees sound orders alone, whose filled amounts lie between 0 and their amounts, if
    -- the orders were sound before. The queries are answered from the table.
    pub respond-ShowsSound :
        (rs : List (ℕ × Incoming)) (w : World V Db) (now_ms : ℕ) (query : Query) (answer : Body V)
        → All (λ r. IsWholeRequest r.1) rs
        → IsSoundBook (book V w.orders)
        → let later = respond_all is_address env sources rs w in
          respond is_address env sources now_ms (get query) later ≡ (later, ok (body answer))
          → ShowsSound answer
    unfolding respond
    respond-ShowsSound rs w now_ms query answer wholes sound h =
        let later = respond_all is_address env sources rs w in
        let (a, answered, same) = >>=-eq-ok _ _ (ap (λ p. p.1) h) in
        read-ShowsSound now_ms (sources later) (normalize_query is_address query) answer
          (subst (λ db. IsSoundBook (book V db)) (sym (same_table later))
            (respond_all-IsSoundBook rs w wholes sound))
          (answered ∙ ap ok (body-injective (ok-injective same)))
