-- ===== src/Matching/Fills.antt =====
-- What the matching loop does, without its bookkeeping: the list of fills, each a resting order and
-- the amount traded with it, and the laws of such a list.
use perpetual_custom.Base.{
  ◌≡◌, refl, sym, ap, ◌∙◌, inl, inr, true, false, List, [], ◌∷◌, arith, All, Bool-cases,
  if◌then◌else◌,
}
use perpetual_custom.BigNumber.{BigNumber}
use perpetual_custom.BigNumber.Laws.{
  lte_refl, minus_nonneg, minimum_cases, minimum_lte_left, minimum_lte_right, lte_plus-of_minus,
  minus_self,
}
use perpetual_custom.Types.{SraOrder}
use perpetual_custom.Matching.{is_fillable, available}

abbrev pub Fill : Type 0 → Type 0
Fill V = SraOrder V × V

module _ {V : Type 0} ⦃N : BigNumber V⦄ where
  open N use {of_ℕ, lte, plus, minus, times, minimum}

  -- One order after the other, until nothing remains.
  unfoldable pub fills : V → List (SraOrder V) → List (Fill V)
  fills r [] = []
  fills r (a ∷ rest) =
      let traded = minimum r (available a) in
      let later = fills (minus r traded) rest in if lte r (of_ℕ 0) then [] else (a, traded) ∷ later

  unfoldable pub traded_sum : List (Fill V) → V
  traded_sum [] = of_ℕ 0
  traded_sum ((a, t) ∷ fs) = plus t (traded_sum fs)

  -- What the loop leaves of an amount.
  unfoldable pub left : V → List (Fill V) → V
  left r [] = r
  left r ((a, t) ∷ fs) = left (minus r t) fs

  -- The loop's sum of amounts times prices.
  unfoldable pub volume : V → List (Fill V) → V
  volume v [] = v
  volume v ((a, t) ∷ fs) = volume (plus v (times t (a.order.limit_price).value)) fs

  -- Nothing is lost: what remains and what was traded make up the amount.
  pub left-traded_sum : (r : V) (fs : List (Fill V)) → plus (left r fs) (traded_sum fs) ≡ r
  unfolding left traded_sum
  left-traded_sum r [] = N.plus_zero r
  left-traded_sum r ((a, t) ∷ fs) =
      ap (plus (left (minus r t) fs)) (N.plus_comm t (traded_sum fs))
      ∙ sym (N.plus_assoc (left (minus r t) fs) (traded_sum fs) t)
      ∙ ap (λ x. plus x t) (left-traded_sum (minus r t) fs)
      ∙ N.plus-minus r t

  pub left-nonneg :
      (r : V) (as' : List (SraOrder V))
      → lte (of_ℕ 0) r ≡ true
      → lte (of_ℕ 0) (left r (fills r as')) ≡ true
  unfolding left fills
  left-nonneg r [] h = h
  left-nonneg r (a ∷ rest) h = elim (Bool-cases (lte r (of_ℕ 0))) [
    | inl done ↦ rw done h
    | inr more ↦ rw more (
        left-nonneg (minus r (minimum r (available a))) rest
          (minus_nonneg r (minimum r (available a)) (minimum_lte_left r (available a))))
  ]

  -- What one fill respects: it is positive, and the order is not filled beyond its amount.
  pub record IsSound (f : Fill V) : Type 0 where
    pub positive : lte f.1 (of_ℕ 0) ≡ false
    pub within : lte (plus f.0.meta_data.filled_amount f.1) f.0.order.amount ≡ true

  fillable-available : (a : SraOrder V) → is_fillable a ≡ true → lte (available a) (of_ℕ 0) ≡ false
  unfolding is_fillable
  fillable-available a h = elim (Bool-cases (lte (available a) (of_ℕ 0))) [
    | inr e ↦ e
    | inl e ↦
        let over : lte a.order.amount a.meta_data.filled_amount ≡ true =
          rw
            (
              N.plus-minus a.order.amount a.meta_data.filled_amount,
              N.plus_comm (of_ℕ 0) a.meta_data.filled_amount,
              N.plus_zero a.meta_data.filled_amount,
            )
            at (N.plus_mono (available a) (of_ℕ 0) a.meta_data.filled_amount e) in
        absurd (ground arith)
  ]

  fill-IsSound :
      (r : V) (a : SraOrder V)
      → lte r (of_ℕ 0) ≡ false
      → is_fillable a ≡ true
      → IsSound (a, minimum r (available a))
  fill-IsSound r a more h = record {
    positive = elim (minimum_cases r (available a)) [
      | inl (_, e) ↦ rw e more
      | inr (_, _, e) ↦ rw e (fillable-available a h)
    ];
    within = rw (N.plus_comm a.meta_data.filled_amount (minimum r (available a))) (
        lte_plus-of_minus (minimum r (available a)) a.meta_data.filled_amount a.order.amount
          (minimum_lte_right r (available a)));
  }

  pub fills-IsSound :
      (r : V) (as' : List (SraOrder V))
      → All (λ a. is_fillable a ≡ true) as'
      → All IsSound (fills r as')
  unfolding fills
  fills-IsSound r [] h = tt
  fills-IsSound r (a ∷ rest) h = elim (Bool-cases (lte r (of_ℕ 0))) [
    | inl done ↦ rw done tt
    | inr more ↦
        rw more
          (fill-IsSound r a more h.0, fills-IsSound (minus r (minimum r (available a))) rest h.1)
  ]

  -- What holds of every order of the list holds of the filled ones.
  pub All-fills {κ} :
      (P : SraOrder V → Type κ) (r : V) (as' : List (SraOrder V))
      → All P as'
      → All (λ f. P f.0) (fills r as')
  unfolding fills
  All-fills P r [] h = tt
  All-fills P r (a ∷ rest) h = elim (Bool-cases (lte r (of_ℕ 0))) [
    | inl done ↦ rw done tt
    | inr more ↦ rw more (h.0, All-fills P (minus r (minimum r (available a))) rest h.1)
  ]

  -- An order takes part only if those before it are used up: they were filled with all that they
  -- had, and where the loop ends early, nothing remains.
  pub data InPriority : List (SraOrder V) → List (Fill V) → V → Type 0 where
    all_used : {r : V} → InPriority [] [] r
    stopped :
        {a : SraOrder V} {rest : List (SraOrder V)} {r : V}
        → lte r (of_ℕ 0) ≡ true
        → InPriority (a ∷ rest) [] r
    last :
        {a : SraOrder V} {rest : List (SraOrder V)} {t r : V}
        → r ≡ of_ℕ 0
        → InPriority (a ∷ rest) ((a, t) ∷ []) r
    whole :
        {a : SraOrder V} {rest : List (SraOrder V)} {t r : V} {fs : List (Fill V)}
        → t ≡ available a
        → InPriority rest fs r
        → InPriority (a ∷ rest) ((a, t) ∷ fs) r

  pub fills_none : (as' : List (SraOrder V)) → fills (of_ℕ 0) as' ≡ []
  unfolding fills
  fills_none [] = refl
  fills_none (a ∷ rest) = rw (lte_refl (of_ℕ 0))

  pub fills-InPriority :
      (r : V) (as' : List (SraOrder V)) → InPriority as' (fills r as') (left r (fills r as'))
  unfolding fills left
  fills-InPriority r [] = all_used
  fills-InPriority r (a ∷ rest) = elim (Bool-cases (lte r (of_ℕ 0))) [
    | inl done ↦ rw done (stopped done)
    | inr more ↦ rw more (elim (minimum_cases r (available a)) [
      | inl (_, e) ↦ rw (e, minus_self r, fills_none rest) (last refl)
      | inr (_, _, e) ↦ whole e (fills-InPriority (minus r (minimum r (available a))) rest)
    ])
  ]
