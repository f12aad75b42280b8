-- ===== src/Store.antt =====
-- The repository of `SignedOrderEntity`, which the package typeorm implements over the table
-- `signed_orders`. `hash` is the primary key: `save` inserts a row or replaces the row of its hash,
-- `delete` removes the rows of the given hashes, and `findBy` returns the rows that pass a test.
pub mod Rows
use perpetual_custom.Base.{
  ◌≡◌, Bool, true, false, Option, some, none, List, any, All, filter, if◌then◌else◌,
}
use perpetual_custom.Base.Text.{Text, text_eq}
use perpetual_custom.Types.{SignedOrderEntity}

pub record OrderStore (Db : Type 0) : Type 0 where
  -- `find(SignedOrderEntity)`, and the row of a hash
  pub find : Db → List SignedOrderEntity
  pub row : Text → Db → Option SignedOrderEntity
  pub save : SignedOrderEntity → Db → Db
  pub delete : List Text → Db → Db
  pub row-save :
      (h : Text) (e : SignedOrderEntity) (db : Db)
      → row h (save e db) ≡ (if text_eq h e.hash then some e else row h db)
  pub row-delete :
      (h : Text) (hs : List Text) (db : Db)
      → row h (delete hs db) ≡ (if any (text_eq h) hs then none else row h db)
  pub find-row : (db : Db) → All (λ e. row e.hash db ≡ some e) (find db)

-- `findBy(SignedOrderEntity, { isBuy })`
abbrev pub find_by_side : {Db : Type 0} ⦃S : OrderStore Db⦄ → Bool → Db → List SignedOrderEntity
find_by_side ⦃S⦄ is_buy db =
    filter (λ e. if e.is_buy then is_buy else (if is_buy then false else true)) (S.find db)
