-- ===== src/OrderUtils/Book.antt =====
-- The order of the book: bids by falling price, asks by rising price.
use perpetual_custom.Base.{◌≡◌, Bool, true, false, List, [], ◌∷◌, arith, All, All-imp}
use perpetual_custom.Base.Int.{ℤ, pos, ltb_ℤ}
use perpetual_custom.Base.Sort.{IsSorted, sort-IsSorted, sort-perm, All-sort}
use mathlib.Core.List.{Perm}
use perpetual_custom.BigNumber.{BigNumber}
use perpetual_custom.BigNumber.Laws.{lte_refl}
use perpetual_custom.Types.{SignedOrder, SraOrder}
use perpetual_custom.OrderUtils.{compare_ask_order, compare_bid_order, sort_by}

module _ {V : Type 0} ⦃N : BigNumber V⦄ where
  abbrev pub price_of : SraOrder V → V
  price_of a = (a.order.limit_price).value

  -- Every later price is at most, or at least, every earlier one.
  abbrev pub IsFalling : List (SraOrder V) → Type 0
  IsFalling [] = Unit
  IsFalling (a ∷ as') = All (λ b. N.lte (price_of b) (price_of a) ≡ true) as' × IsFalling as'

  abbrev pub IsRising : List (SraOrder V) → Type 0
  IsRising [] = Unit
  IsRising (a ∷ as') = All (λ b. N.lte (price_of a) (price_of b) ≡ true) as' × IsRising as'

  abbrev before : (SignedOrder V → SignedOrder V → ℤ) → SraOrder V → SraOrder V → Bool
  before compare later earlier = ltb_ℤ (compare later.order earlier.order) (pos 0)

  -- The comparison is negative exactly when the prices are in the strict order.
  ask_before :
      (a b : SraOrder V)
      → (before compare_ask_order a b ≡ false → N.lte (price_of b) (price_of a) ≡ true)
        × (N.lte (price_of b) (price_of a) ≡ true → before compare_ask_order a b ≡ false)
  unfolding compare_ask_order
  ask_before a b = (
    λ h. ground (
      arith,
      N.lte_total (price_of a) (price_of b),
      N.eq_iff (price_of a) (price_of b),
      lte_refl (price_of b),
    ),
    λ h.
        ground
          (arith, N.eq_iff (price_of a) (price_of b), N.lte_antisymm (price_of a) (price_of b)),
  )

  bid_before :
      (a b : SraOrder V)
      → (before compare_bid_order a b ≡ false → N.lte (price_of a) (price_of b) ≡ true)
        × (N.lte (price_of a) (price_of b) ≡ true → before compare_bid_order a b ≡ false)
  unfolding compare_bid_order
  bid_before a b = (
    λ h. ground (
      arith,
      N.lte_total (price_of b) (price_of a),
      N.eq_iff (price_of b) (price_of a),
      N.eq_iff (price_of a) (price_of b),
      lte_refl (price_of b),
    ),
    λ h. ground (
      arith,
      N.eq_iff (price_of b) (price_of a),
      N.eq_iff (price_of a) (price_of b),
      N.lte_antisymm (price_of b) (price_of a),
    ),
  )

  ask_asymm :
      (a b : SraOrder V)
      → before compare_ask_order a b ≡ true
      → before compare_ask_order b a ≡ false
  unfolding compare_ask_order
  ask_asymm a b h = (ask_before b a).1 (
      ground (
        arith,
        N.lte_total (price_of b) (price_of a),
        N.eq_iff (price_of b) (price_of a),
        N.eq_iff (price_of a) (price_of b),
      ))

  bid_asymm :
      (a b : SraOrder V)
      → before compare_bid_order a b ≡ true
      → before compare_bid_order b a ≡ false
  unfolding compare_bid_order
  bid_asymm a b h = (bid_before b a).1 (
      ground (
        arith,
        N.lte_total (price_of a) (price_of b),
        N.eq_iff (price_of b) (price_of a),
        N.eq_iff (price_of a) (price_of b),
      ))

  ask_trans :
      (a b c : SraOrder V)
      → before compare_ask_order b a ≡ false
      → before compare_ask_order c b ≡ false
      → before compare_ask_order c a ≡ false
  ask_trans a b c h k = (ask_before c a).1 (
      N.lte_trans (price_of a) (price_of b) (price_of c) ((ask_before b a).0 h)
        ((ask_before c b).0 k))

  bid_trans :
      (a b c : SraOrder V)
      → before compare_bid_order b a ≡ false
      → before compare_bid_order c b ≡ false
      → before compare_bid_order c a ≡ false
  bid_trans a b c h k = (bid_before c a).1 (
      N.lte_trans (price_of c) (price_of b) (price_of a) ((bid_before c b).0 k)
        ((bid_before b a).0 h))

  IsRising-of_sorted :
      (as' : List (SraOrder V)) → IsSorted (before compare_ask_order) as' → IsRising as'
  IsRising-of_sorted [] h = tt
  IsRising-of_sorted (a ∷ as') h = (
    All-imp (λ b. before compare_ask_order b a ≡ false)
        (λ b. N.lte (price_of a) (price_of b) ≡ true) as' (λ b. (ask_before b a).0) h.0,
    IsRising-of_sorted as' h.1,
  )

  IsFalling-of_sorted :
      (as' : List (SraOrder V)) → IsSorted (before compare_bid_order) as' → IsFalling as'
  IsFalling-of_sorted [] h = tt
  IsFalling-of_sorted (a ∷ as') h = (
    All-imp (λ b. before compare_bid_order b a ≡ false)
        (λ b. N.lte (price_of b) (price_of a) ≡ true) as' (λ b. (bid_before b a).0) h.0,
    IsFalling-of_sorted as' h.1,
  )

  pub sort_by-ask :
      (as' : List (SraOrder V))
      → IsRising (sort_by compare_ask_order as') × Perm (sort_by compare_ask_order as') as'
  unfolding sort_by
  sort_by-ask as' = (
    IsRising-of_sorted _ (sort-IsSorted (before compare_ask_order) ask_asymm ask_trans as'),
    sort-perm (before compare_ask_order) as',
  )

  pub sort_by-bid :
      (as' : List (SraOrder V))
      → IsFalling (sort_by compare_bid_order as') × Perm (sort_by compare_bid_order as') as'
  unfolding sort_by
  sort_by-bid as' = (
    IsFalling-of_sorted _ (sort-IsSorted (before compare_bid_order) bid_asymm bid_trans as'),
    sort-perm (before compare_bid_order) as',
  )

  -- Sorted as asks, the same orders stand by rising price, though the comparison never says that
  -- two orders are equal; sorted as bids, they stand by falling price.
  pub sort_by-sorted :
      (as' : List (SraOrder V))
      → IsRising (sort_by compare_ask_order as')
        × Perm (sort_by compare_ask_order as') as'
        × IsFalling (sort_by compare_bid_order as')
        × Perm (sort_by compare_bid_order as') as'
  sort_by-sorted as' =
      let (rising, asks) = sort_by-ask as' in
      let (falling, bids) = sort_by-bid as' in (rising, asks, falling, bids)

  pub All-sort_by {κ} :
      (P : SraOrder V → Type κ) (compare : SignedOrder V → SignedOrder V → ℤ)
      (as' : List (SraOrder V))
      → All P as'
      → All P (sort_by compare as')
  unfolding sort_by
  All-sort_by P compare as' h = All-sort (before compare) P as' h
