-- ===== src/Tests/Listed.antt =====
-- The orders of the seller in the table of Data.antt, which a query selects by the maker and the taker.
use perpetual_custom.Base.{
  ◌≡◌, Bool, true, ◌&&◌, Option, none, some, [], ◌∷◌, any, filter, filter-All, length, arith,
}
use perpetual_custom.Base.Int.{ℤ, pos}
use perpetual_custom.Base.Text.{Text, codes, text_eq, text_eq_iff}
use perpetual_custom.BigNumber.Whole.{whole}
use perpetual_custom.Types.{SraOrder, SignedOrderEntity, PaginatedCollection}
use perpetual_custom.OrderUtils.{deserialize_order_to_sra_order}
use perpetual_custom.Listing.{OrderQuery, Clause}
use perpetual_custom.Tests.Data.{table, dear, cheap}

abbrev pub has_field : Option Text → Text → Bool
has_field none value = true
has_field (some t) value = text_eq value t

abbrev pub row_passes : Clause → SignedOrderEntity → Bool
row_passes c e =
    has_field (c.fields (codes "maker")) e.maker && has_field (c.fields (codes "taker")) e.taker

pub has_field_eq :
    (value a : Text) (f : Option Text) → has_field f value ≡ true → f ≡ some a → value ≡ a
has_field_eq value a none h e = absurd (cc e)
has_field_eq value a (some t) h e = cc ((text_eq_iff value t).0 h, e)

pub left_passes : (x y : Bool) → (x && y) ≡ true → x ≡ true
left_passes x y h = ground arith

pub right_passes : (x y : Bool) → (x && y) ≡ true → y ≡ true
right_passes x y h = ground arith

abbrev pub selection : OrderQuery
selection = record {
  count = λ clauses. length (filter (λ e. any (λ c. row_passes c e) clauses) table);
  find = λ clauses window. filter (λ e. any (λ c. row_passes c e) clauses) table;
  passes = row_passes;
  find-passes = λ clauses window. filter-All (λ e. any (λ c. row_passes c e) clauses) table;
  passes-maker =
      λ c e a h k. has_field_eq e.maker a (c.fields (codes "maker")) (left_passes _ _ h) k;
  passes-taker = λ c e a h k.
      has_field_eq e.taker a (c.fields (codes "taker"))
        (right_passes (has_field (c.fields (codes "maker")) e.maker) _ h) k;
}

abbrev pub page : PaginatedCollection (SraOrder ℤ)
page = record {
  total = 2;
  page = pos 1;
  per_page = pos 5;
  records = deserialize_order_to_sra_order dear ∷ deserialize_order_to_sra_order cheap ∷ [];
}
