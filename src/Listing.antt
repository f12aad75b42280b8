-- ===== src/Listing.antt =====
-- getOrdersAsync of src/services/orderbook_service.ts and the handler ordersAsync of
-- src/handlers/orderbook_handlers.ts: the orders of the table by the fields of a query.
pub mod Laws
use perpetual_custom.Base.{
  ℕ, ◌+◌, ◌/◌, ◌≡◌, Bool, true, false, Option, none, some, List, [], ◌∷◌, any, map, All,
  if◌then◌else◌, Result, ok, err, ◌>>=◌,
}
use perpetual_custom.Base.Int.{ℤ}
use perpetual_custom.Base.Text.{Text, codes, text_eq}
use perpetual_custom.BigNumber.{BigNumber}
use perpetual_custom.Types.{Address, SraOrder, SignedOrderEntity, PaginatedCollection, Error}
use perpetual_custom.OrderUtils.{deserialize_order_to_sra_order, one_second_ms}
use perpetual_custom.Pagination.{
  DbFilters, PageConfig, paginate_db_filters, paginate_serialize, parse_pagination_config,
}

-- The fields of an object, by their names.
abbrev pub Fields : Type 0
Fields = Text → Option Text

-- `{ ...fields, [name]: value }`
abbrev pub with_field : Text → Text → Fields → Fields
with_field name value fields h = if text_eq h name then some value else fields h

abbrev pub without_field : Text → Fields → Fields
without_field name fields h = if text_eq h name then none else fields h

-- The properties of `SignedOrderEntity`.
abbrev pub column_names : List Text
column_names =
    codes "hash"
    ∷ codes "limitFee"
    ∷ codes "limitPrice"
    ∷ codes "triggerPrice"
    ∷ codes "expiration"
    ∷ codes "amount"
    ∷ codes "isBuy"
    ∷ codes "isDecreaseOnly"
    ∷ codes "salt"
    ∷ codes "typedSignature"
    ∷ codes "maker"
    ∷ codes "createdAt"
    ∷ codes "filledAmount"
    ∷ codes "orderState"
    ∷ codes "taker"
    ∷ []

-- One clause of a `where`: the fields that a row must have, and `MoreThanOrEqual` of its expiration,
-- which replaces a condition on the expiration among the fields.
pub record Clause : Type 0 where
  pub fields : Fields
  pub min_expiration : ℕ

-- `count` and `find` over the table, by the clauses of which a row has to pass one, in the order of
-- the hashes. A row that passes a clause has the maker and the taker that the clause names.
pub record OrderQuery : Type 0 where
  pub count : List Clause → ℕ
  pub find : List Clause → DbFilters → List SignedOrderEntity
  pub passes : Clause → SignedOrderEntity → Bool
  pub find-passes :
      (clauses : List Clause) (window : DbFilters)
      → All (λ e. any (λ c. passes c e) clauses ≡ true) (find clauses window)
  pub passes-maker :
      (c : Clause) (e : SignedOrderEntity) (a : Address)
      → passes c e ≡ true
      → c.fields (codes "maker") ≡ some a
      → e.maker ≡ a
  pub passes-taker :
      (c : Clause) (e : SignedOrderEntity) (a : Address)
      → passes c e ≡ true
      → c.fields (codes "taker") ≡ some a
      → e.taker ≡ a

-- `_.pickBy(fields, (v, k) => columnNames.includes(k))`
unfoldable pub pick_columns : Fields → Fields
pick_columns fields h = if any (text_eq h) column_names then fields h else none

pub record AdditionalFilters : Type 0 where
  pub trader : Option Text
  pub is_unfillable : Bool

-- The subclauses: with a trader one for the makers and one for the takers.
unfoldable pub order_filters : Fields → Option Text → List Fields
order_filters order_filter none = order_filter ∷ []
order_filters order_filter (some []) = order_filter ∷ []
order_filters order_filter (some (c ∷ s)) =
    with_field (codes "maker") (c ∷ s) order_filter
    ∷ with_field (codes "taker") (c ∷ s) order_filter
    ∷ []

unfoldable pub with_expiration_check : ℕ → ℕ → List Fields → List Clause
with_expiration_check now_ms buffer filters =
    map
      (λ f. record {
        fields = without_field (codes "expiration") f;
        min_expiration = now_ms / one_second_ms + buffer;
      })
      filters

module _ {V : Type 0} ⦃N : BigNumber V⦄ (Q : OrderQuery) (now_ms buffer : ℕ) where
  unfoldable pub get_orders : ℤ → ℤ → Fields → AdditionalFilters → PaginatedCollection (SraOrder V)
  unfolding pick_columns
  get_orders page per_page order_field_filters additional =
      let filters =
        with_expiration_check now_ms buffer
          (order_filters (pick_columns order_field_filters) additional.trader) in
      paginate_serialize
        (map deserialize_order_to_sra_order (Q.find filters (paginate_db_filters page per_page)))
        (Q.count filters) page per_page

  -- `ordersAsync`, of the query's fields and the numbers of its page
  unfoldable pub orders_async :
      Fields → Option ℤ → Option ℤ → Result Error (PaginatedCollection (SraOrder V))
  orders_async query page per_page = do
    config ← parse_pagination_config page per_page
    ok (
        get_orders config.page config.per_page query (record {
          trader = query (codes "trader");
          is_unfillable = elim (query (codes "unfillable")) [
            | none ↦ false
            | some t ↦ text_eq t (codes "true")
          ];
        }))
