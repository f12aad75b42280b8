-- ===== src/Service/Progress.antt =====
-- About fulfillOrderAsync where the book has enough to fill the order.
use perpetual_custom.Base.{List, [], ◌∷◌}
use perpetual_custom.BigNumber.{BigNumber}
use perpetual_custom.Types.{SraOrder}
use perpetual_custom.Matching.{available}

module _ {V : Type 0} ⦃N : BigNumber V⦄ where
  open N use {of_ℕ, lte, plus, minus}

  -- What is left of all the orders together.
  unfoldable pub available_sum : List (SraOrder V) → V
  available_sum [] = of_ℕ 0
  available_sum (a ∷ as') = plus (available a) (available_sum as')
