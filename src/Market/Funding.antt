-- ===== src/Market/Funding.antt =====
-- About calculateFundingrate: the premium of a data point.
use perpetual_custom.Base.{
  ◌≡◌, refl, sym, ap, ap₂, ◌∙◌, subst, inl, inr, true, not, List, [], ◌∷◌, map, length, ◌==◌, All,
  Bool-cases, if◌then◌else◌, ok, err,
}
use perpetual_custom.BigNumber.{BigNumber}
use perpetual_custom.BigNumber.Laws.{
  minus_eq, minus_self, minus_zero, minus_nonneg, minus_mono, plus_inverse, plus_right_cancel,
}
use perpetual_custom.Types.{bid_prices_mismatch, index_prices_mismatch}
use perpetual_custom.Market.{premium, premiums, sum_from, rate_per_second, calculate_funding_rate}

-- An ask price, a bid price and an index price.
abbrev pub Point : Type 0 → Type 0
Point V = V × V × V

module _ {V : Type 0} ⦃N : BigNumber V⦄ where
  open N use {of_ℕ, lte, plus, minus}

  unfoldable pub points : List V → List V → List V → List (Point V)
  points (ask ∷ asks) (bid ∷ bids) (index ∷ indices) = (ask, bid, index) ∷ points asks bids indices
  points _ _ _ = []

  -- Below both prices the ask counts, above both the bid, and between them the distances to both.
  abbrev pub point_premium : Point V → V
  point_premium (ask, bid, index) =
      if lte index bid
      then minus ask index
      else if lte ask index
      then minus bid index
      else minus (minus ask index) (minus index bid)

  minus_nonpos : (a b : V) → lte a b ≡ true → lte (minus a b) (of_ℕ 0) ≡ true
  minus_nonpos a b h = subst (λ x. lte (minus a b) x ≡ true) (minus_self b) (minus_mono a b b h)

  minus_flip : (a b : V) → minus (of_ℕ 0) (minus a b) ≡ minus b a
  minus_flip a b = plus_right_cancel (minus (of_ℕ 0) (minus a b)) (minus b a) (minus a b) (
      N.plus-minus (of_ℕ 0) (minus a b)
      ∙ sym (
          ap (plus (minus b a)) (minus_eq a b)
          ∙ sym (N.plus_assoc (minus b a) a (minus (of_ℕ 0) b))
          ∙ ap (λ x. plus x (minus (of_ℕ 0) b)) (N.plus-minus b a)
          ∙ plus_inverse b))

  premium-eq :
      (ask bid index : V)
      → lte bid ask ≡ true
      → premium ask bid index ≡ point_premium (ask, bid, index)
  unfolding premium
  premium-eq ask bid index spread = elim (Bool-cases (lte index bid)) [
    | inl below ↦ rw below (
        ap₂ minus
          (N.maximum_right (of_ℕ 0) (minus ask index)
            (minus_nonneg ask index (N.lte_trans index bid ask below spread)))
          (N.maximum_left (of_ℕ 0) (minus index bid) (minus_nonpos index bid below))
        ∙ minus_zero (minus ask index))
    | inr over ↦
        let upper =
          N.maximum_right (of_ℕ 0) (minus index bid)
            (minus_nonneg index bid (N.lte_total index bid over)) in
        elim (Bool-cases (lte ask index)) [
          | inl above ↦
              rw (over, above)
                (ap₂ minus
                    (N.maximum_left (of_ℕ 0) (minus ask index) (minus_nonpos ask index above)) upper
                  ∙ minus_flip index bid)
          | inr under ↦
              rw (over, under)
                (ap₂ minus
                  (N.maximum_right (of_ℕ 0) (minus ask index)
                    (minus_nonneg ask index (N.lte_total ask index under)))
                  upper)
        ]
  ]

  premiums-eq :
      (asks bids indices : List V)
      → All (λ p. lte p.1 p.0 ≡ true) (points asks bids indices)
      → premiums asks bids indices ≡ map point_premium (points asks bids indices)
  unfolding premiums points
  premiums-eq [] bids indices h = refl
  premiums-eq (ask ∷ asks) [] indices h = refl
  premiums-eq (ask ∷ asks) (bid ∷ bids) [] h = refl
  premiums-eq (ask ∷ asks) (bid ∷ bids) (index ∷ indices) (spread, h) =
      ap₂ ◌∷◌ (premium-eq ask bid index spread) (premiums-eq asks bids indices h)

  -- If no bid price is above its ask price, the funding rate is that of the mean premium, where a
  -- point counts the distance of the ask from the index if the index is not above the bid, that of
  -- the bid, as a negative number, if it is not below the ask, and the difference of both between
  -- them. It is refused if the bid prices or the index prices are not as many as the ask prices.
  pub calculate_funding_rate-eq :
      (asks bids indices : List V)
      → All (λ p. lte p.1 p.0 ≡ true) (points asks bids indices)
      → calculate_funding_rate asks bids indices ≡ (
          if not (length bids == length asks)
          then err bid_prices_mismatch
          else if not (length indices == length asks)
          then err index_prices_mismatch
          else ok (
              rate_per_second (
                N.div
                  (sum_from (of_ℕ 0) (map point_premium (points asks bids indices)))
                  (of_ℕ (length asks)))))
  unfolding calculate_funding_rate
  calculate_funding_rate-eq asks bids indices h =
      ap
        (λ ps.
          if not (length bids == length asks)
          then err bid_prices_mismatch
          else if not (length indices == length asks)
          then err index_prices_mismatch
          else ok (rate_per_second (N.div (sum_from (of_ℕ 0) ps) (of_ℕ (length asks)))))
        (premiums-eq asks bids indices h)
