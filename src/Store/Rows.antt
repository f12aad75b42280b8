-- ===== src/Store/Rows.antt =====
-- A table of orders as a list of rows, the latest first. It shows that the laws of the repository can
-- hold.
use perpetual_custom.Base.{
  ◌≡◌, refl, ◌∙◌, inl, inr, true, not, Option, none, some, List, [], ◌∷◌, any, filter, arith, All,
  All-imp, All-both, All-filter, filter-All, Bool-cases, if◌then◌else◌,
}
use perpetual_custom.Base.Text.{Text, text_eq, text_eq_iff, text_eq_refl}
use perpetual_custom.Types.{SignedOrderEntity}
use perpetual_custom.Store.{OrderStore}

abbrev pub Rows : Type 0
Rows = List SignedOrderEntity

abbrev pub row_of : Text → Rows → Option SignedOrderEntity
row_of h [] = none
row_of h (e ∷ db) = if text_eq h e.hash then some e else row_of h db

abbrev pub without : List Text → Rows → Rows
without hs db = filter (λ e. not (any (text_eq e.hash) hs)) db

abbrev pub find_all : Rows → List SignedOrderEntity
find_all [] = []
find_all (e ∷ db) = e ∷ filter (λ x. not (text_eq x.hash e.hash)) (find_all db)

pub row-without :
    (h : Text) (hs : List Text) (db : Rows)
    → row_of h (without hs db) ≡ (if any (text_eq h) hs then none else row_of h db)
row-without h hs [] = ground arith
row-without h hs (e ∷ db) = elim (Bool-cases (text_eq h e.hash)) [
  | inr d ↦ elim (Bool-cases (any (text_eq e.hash) hs)) [
    | inl gone ↦ rw (d, gone) (row-without h hs db)
    | inr kept ↦ rw (d, kept) (rw d (row-without h hs db))
  ]
  | inl d ↦
      let same = (text_eq_iff h e.hash).0 d in
      elim (Bool-cases (any (text_eq e.hash) hs)) [
        | inl gone ↦ rw (d, gone, same) (rw gone (row-without e.hash hs db ∙ rw gone refl))
        | inr kept ↦ rw (d, kept, same) (rw (text_eq_refl e.hash, kept) refl)
      ]
]

pub find_all-row : (db : Rows) → All (λ e. row_of e.hash db ≡ some e) (find_all db)
find_all-row [] = tt
find_all-row (e ∷ db) = (
  rw (text_eq_refl e.hash) refl,
  All-imp (λ x. (not (text_eq x.hash e.hash) ≡ true) × (row_of x.hash db ≡ some x))
      (λ x. row_of x.hash (e ∷ db) ≡ some x) _ (λ x p. ground (arith, p.0, p.1))
      (All-both (λ x. not (text_eq x.hash e.hash) ≡ true) (λ x. row_of x.hash db ≡ some x) _
        (filter-All (λ x. not (text_eq x.hash e.hash)) (find_all db))
        (All-filter (λ x. row_of x.hash db ≡ some x) (λ x. not (text_eq x.hash e.hash)) _
          (find_all-row db))),
)

instance abbrev pub rows : OrderStore (List SignedOrderEntity)
rows = record {
  find = find_all;
  row = row_of;
  save = ◌∷◌;
  delete = without;
  row-save = λ h e db. refl;
  row-delete = row-without;
  find-row = find_all-row;
}
