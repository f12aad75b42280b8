-- ===== src/Exchange/Books.antt =====
-- The table's operations, seen on its book.
use perpetual_custom.Base.{
  ℕ, ◌≡◌, refl, ap, ◌∙◌, inl, inr, Bool, not, some, List, [], ◌∷◌, map, any, All, All-imp, All-map,
  All-filter, Bool-cases,
}
use mathlib.Core.Path.{fun_ext}
use perpetual_custom.Base.Text.{Text, text_eq}
use perpetual_custom.BigNumber.{BigNumber}
use perpetual_custom.Types.{SignedOrder, SraOrder, SignedOrderEntity}
use perpetual_custom.OrderUtils.{serialize_order, deserialize_order_to_sra_order}
use perpetual_custom.OrderUtils.RoundTrip.{IsIntegral, deserialize-serialize}
use perpetual_custom.Store.{OrderStore, find_by_side}
use perpetual_custom.Matching.{add_filled, matching_orders, is_price_matched}
use perpetual_custom.Matching.Fills.{Fill, All-fills}
use perpetual_custom.Matching.Candidates.{best_first-All, All-fresh_fillable}
use perpetual_custom.Service.{Env, save_all}
use perpetual_custom.Service.Fulfil.{fills_of}
use perpetual_custom.Exchange.{book, put, remove, put_fills}

pub book_row :
    (V : Type 0) ⦃N : BigNumber V⦄ {Db : Type 0} ⦃S : OrderStore Db⦄ (h : Text) (db : Db)
    (e : SignedOrderEntity)
    → S.row h db ≡ some e
    → book V db h ≡ some (deserialize_order_to_sra_order e)
book_row V h db e found = rw (found, book) refl

pub book-delete :
    (V : Type 0) ⦃N : BigNumber V⦄ {Db : Type 0} ⦃S : OrderStore Db⦄ (hashes : List Text) (db : Db)
    → book V (S.delete hashes db) ≡ remove hashes (book V db)
book-delete V ⦃S⦄ hashes db = fun_ext λ h. elim (Bool-cases (any (text_eq h) hashes)) [
  | inl e ↦ rw (S.row-delete h hashes db, book) (rw e refl)
  | inr e ↦ rw (S.row-delete h hashes db, book) (rw e refl)
]

pub side-book :
    (V : Type 0) ⦃N : BigNumber V⦄ {Db : Type 0} ⦃S : OrderStore Db⦄ (is_buy : Bool) (db : Db)
    → All (λ e. book V db e.hash ≡ some (deserialize_order_to_sra_order e)) (find_by_side is_buy db)
side-book V ⦃S⦄ is_buy db = All-filter _ _ (S.find db) (
    All-imp (λ e. S.row e.hash db ≡ some e) _ (S.find db) (λ e. book_row V e.hash db e)
      (S.find-row db))

module _ {V : Type 0} ⦃N : BigNumber V⦄ {Db : Type 0} ⦃S : OrderStore Db⦄ where
  pub book-save :
      (a : SraOrder V) (db : Db)
      → IsIntegral a
      → book V (S.save (serialize_order a) db) ≡ put a (book V db)
  unfolding serialize_order
  book-save a db integral = fun_ext λ h. elim (Bool-cases (text_eq h a.meta_data.order_hash)) [
    | inl e ↦
        rw (S.row-save h (serialize_order a) db, book)
          (rw e (ap some (deserialize-serialize a integral)))
    | inr e ↦ rw (S.row-save h (serialize_order a) db, book) (rw e refl)
  ]

  pub book-save_all :
      (fs : List (Fill V)) (db : Db)
      → All (λ f. IsIntegral f.0) fs
      → book V (save_all (map (λ f. serialize_order (add_filled f.1 f.0)) fs) db)
        ≡ put_fills fs (book V db)
  unfolding save_all put_fills
  book-save_all [] db integral = refl
  book-save_all ((a, t) ∷ fs) db (h, integral) =
      book-save_all fs (S.save (serialize_order (add_filled t a)) db) integral
      ∙ ap (put_fills fs) (
          book-save (add_filled t a) db
            (record { amount = h.amount; expiration = h.expiration; salt = h.salt }))

  -- Every order that is filled stands in the book as it is.
  pub fills_of-book :
      (env : Env) (now_ms : ℕ) (o : SignedOrder V) (db : Db)
      → All (λ f. book V db f.0.meta_data.order_hash ≡ some f.0) (fills_of env now_ms o db)
  unfolding matching_orders deserialize_order_to_sra_order
  fills_of-book env now_ms o db =
      let P : SraOrder V → Type 0 = λ a. book V db a.meta_data.order_hash ≡ some a in
      All-fills P o.amount _ (
        best_first-All P o _ (
          All-filter P (is_price_matched o) _ (
            All-fresh_fillable P now_ms env.expiration_buffer _
              (All-map P deserialize_order_to_sra_order _ (side-book V (not o.is_buy) db)))))
