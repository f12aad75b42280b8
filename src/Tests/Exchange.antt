-- ===== src/Tests/Exchange.antt =====
-- The exchange at the inputs of Data.antt: an order is posted, and another one cancelled.
use perpetual_custom.Base.{
  ℕ, ◌≡◌, refl, inl, inr, Bool, false, none, some, List, [], ◌∷◌, Bool-cases, if◌then◌else◌,
}
use perpetual_custom.Base.Int.{ℤ}
use perpetual_custom.Base.Text.{Text, codes, text_eq, text_eq_iff}
use perpetual_custom.BigNumber.Whole.{whole}
use perpetual_custom.Store.Rows.{rows, row_of}
use perpetual_custom.Exchange.{Request, post, cancel, book, serve}
use perpetual_custom.Exchange.Sound.{IsSoundBook}
use perpetual_custom.Exchange.Refines.{serve-IsSoundBook}
use perpetual_custom.Tests.Data.{env, buying, world, table}

abbrev pub requests : List (Request ℤ)
requests = post 0 buying ∷ cancel (codes "0x01" ∷ []) ∷ []

no_row :
    (h : Text)
    → text_eq h (codes "0x02") ≡ false
    → text_eq h (codes "0x01") ≡ false
    → row_of h table ≡ none
no_row h e d = rw (e, row_of) (rw (d, row_of) refl)

pub table-IsSoundBook : IsSoundBook (book ℤ table)
unfolding perpetual_custom.OrderUtils.deserialize_order_to_sra_order
table-IsSoundBook h = elim (Bool-cases (text_eq h (codes "0x02"))) [
  | inl e ↦ rw ((text_eq_iff h (codes "0x02")).0 e) (record {
    integral = record { amount = refl; expiration = refl; salt = refl };
    nonneg = refl;
    within = refl;
  })
  | inr e ↦ elim (Bool-cases (text_eq h (codes "0x01"))) [
    | inl d ↦ rw ((text_eq_iff h (codes "0x01")).0 d) (record {
      integral = record { amount = refl; expiration = refl; salt = refl };
      nonneg = refl;
      within = refl;
    })
    | inr d ↦ rw (no_row h e d, book) tt
  ]
]

serve-IsSoundBook_example : IsSoundBook (book ℤ (serve env requests world).orders)
serve-IsSoundBook_example =
    serve-IsSoundBook env requests world ((refl, refl, refl, refl), (tt, tt)) table-IsSoundBook
