-- ===== src/Service/Effects.antt =====
-- The contract of `fulfillOrderAsync`: the balance of amounts, the orders and prices that it trades
-- with, what it writes, and when it throws or returns.
use perpetual_custom.Base.{
  ℕ, ◌≡◌, ◌↔◌, sym, ap, ◌∙◌, subst, Bool, true, false, List, [], ◌∷◌, All, All-imp, All-both,
  if◌then◌else◌, ok,
}
use perpetual_custom.BigNumber.{BigNumber}
use perpetual_custom.BigNumber.Laws.{
  plus_mono_right, plus_mono_both, lte_refl, lte_of_eq, plus_right_cancel,
}
use perpetual_custom.Types.{SignedOrder}
use perpetual_custom.Store.{OrderStore}
use perpetual_custom.Matching.{is_fillable}
use perpetual_custom.Matching.Fills.{
  Fill, left, traded_sum, volume, left-traded_sum, left-nonneg, IsSound, fills-IsSound, All-fills,
}
use perpetual_custom.Matching.Candidates.{
  IsAcceptable, IsMatch, matching_orders-IsMatch, best_first-All,
}
use perpetual_custom.Service.{Env, World, Fulfilment, fulfill_order}
use perpetual_custom.Service.Fulfil.{candidates, fills_of, fulfill_order-parts}

module _ {V : Type 0} ⦃N : BigNumber V⦄ where
  open N use {of_ℕ, lte, plus, times}

  pub traded_sum-nonneg :
      (fs : List (Fill V)) → All IsSound fs → lte (of_ℕ 0) (traded_sum fs) ≡ true
  unfolding traded_sum
  traded_sum-nonneg [] h = lte_refl (of_ℕ 0)
  traded_sum-nonneg ((a, t) ∷ fs) h = rw (N.plus_zero (of_ℕ 0)) at (
      plus_mono_both (of_ℕ 0) t (of_ℕ 0) (traded_sum fs) (N.lte_total t (of_ℕ 0) (h.0.positive))
        (traded_sum-nonneg fs h.1))

  zero_plus : (x : V) → plus (of_ℕ 0) x ≡ x
  zero_plus x = N.plus_comm (of_ℕ 0) x ∙ N.plus_zero x

  -- What is not left was filled.
  pub traded_sum-within :
      (r : V) (fs : List (Fill V)) → lte (of_ℕ 0) (left r fs) ≡ true → lte (traded_sum fs) r ≡ true
  traded_sum-within r fs h =
      subst (λ x. lte x r ≡ true) (zero_plus (traded_sum fs))
        (subst (λ x. lte (plus (of_ℕ 0) (traded_sum fs)) x ≡ true) (left-traded_sum r fs)
          (N.plus_mono (of_ℕ 0) (left r fs) (traded_sum fs) h))

  -- Every fill is at most, or at least, at the limit: so is the sum.
  volume_upper :
      (limit v : V) (fs : List (Fill V))
      → All IsSound fs
      → All (λ f. lte (f.0.order.limit_price).value limit ≡ true) fs
      → lte (volume v fs) (plus v (times (traded_sum fs) limit)) ≡ true
  unfolding volume traded_sum
  volume_upper limit v [] h k = lte_of_eq (sym (ap (plus v) (N.times-zero limit) ∙ N.plus_zero v))
  volume_upper limit v ((a, t) ∷ fs) h k =
      let price = (a.order.limit_price).value in
      N.lte_trans _ _ _ (volume_upper limit (plus v (times t price)) fs h.1 k.1) (
        rw
          (
            N.times-plus t (traded_sum fs) limit,
            sym (N.plus_assoc v (times t limit) (times (traded_sum fs) limit)),
          )
          (N.plus_mono _ _ (times (traded_sum fs) limit) (
            plus_mono_right (times t price) (times t limit) v
              (N.times_mono t price limit (N.lte_total t (of_ℕ 0) (h.0.positive)) k.0))))

  volume_lower :
      (limit v : V) (fs : List (Fill V))
      → All IsSound fs
      → All (λ f. lte limit (f.0.order.limit_price).value ≡ true) fs
      → lte (plus v (times (traded_sum fs) limit)) (volume v fs) ≡ true
  unfolding volume traded_sum
  volume_lower limit v [] h k = lte_of_eq (ap (plus v) (N.times-zero limit) ∙ N.plus_zero v)
  volume_lower limit v ((a, t) ∷ fs) h k =
      let price = (a.order.limit_price).value in
      N.lte_trans _ _ _
        (rw
          (
            N.times-plus t (traded_sum fs) limit,
            sym (N.plus_assoc v (times t limit) (times (traded_sum fs) limit)),
          )
          (N.plus_mono _ _ (times (traded_sum fs) limit) (
            plus_mono_right (times t limit) (times t price) v
              (N.times_mono t limit price (N.lte_total t (of_ℕ 0) (h.0.positive)) k.0))))
        (volume_lower limit (plus v (times t price)) fs h.1 k.1)

  zero-plus_times : (x : V) → plus (of_ℕ 0) x ≡ x
  zero-plus_times x = N.plus_comm (of_ℕ 0) x ∙ N.plus_zero x

  volume_of_side :
      (is_buy : Bool) (limit : V) (fs : List (Fill V))
      → All IsSound fs
      → All
          (λ f.
            if is_buy
            then lte (f.0.order.limit_price).value limit ≡ true
            else lte limit (f.0.order.limit_price).value ≡ true)
          fs
      → if is_buy
        then lte (volume (of_ℕ 0) fs) (times (traded_sum fs) limit) ≡ true
        else lte (times (traded_sum fs) limit) (volume (of_ℕ 0) fs) ≡ true
  volume_of_side true limit fs h k =
      subst (λ x. lte (volume (of_ℕ 0) fs) x ≡ true) (zero-plus_times _)
        (volume_upper limit (of_ℕ 0) fs h k)
  volume_of_side false limit fs h k =
      subst (λ x. lte x (volume (of_ℕ 0) fs) ≡ true) (zero-plus_times _)
        (volume_lower limit (of_ℕ 0) fs h k)

module _ {V : Type 0} ⦃N : BigNumber V⦄ {Db : Type 0} ⦃S : OrderStore Db⦄ (env : Env) (now_ms : ℕ)
    (signed_order : SignedOrder V) where
  open N use {of_ℕ, lte, plus, times}

  pub fills_of-IsMatch :
      (db : Db)
      → All
          (λ f. IsSound f × IsMatch now_ms env.expiration_buffer signed_order f.0)
          (fills_of env now_ms signed_order db)
  fills_of-IsMatch db =
      let matches =
        best_first-All _ signed_order _
          (matching_orders-IsMatch now_ms env.expiration_buffer signed_order db) in
      All-both IsSound (λ f. IsMatch now_ms env.expiration_buffer signed_order f.0) _
        (fills-IsSound signed_order.amount (candidates env now_ms signed_order db) (
          All-imp (IsMatch now_ms env.expiration_buffer signed_order) (λ a. is_fillable a ≡ true) _
            (λ a m. m.fillable) matches))
        (All-fills (IsMatch now_ms env.expiration_buffer signed_order) signed_order.amount _
          matches)

  fills_of-IsSound : (db : Db) → All IsSound (fills_of env now_ms signed_order db)
  fills_of-IsSound db = All-imp _ IsSound _ (λ f h. h.0) (fills_of-IsMatch db)

  -- If the order's amount is not negative, a call that returns reports as filled the sum of its
  -- fills, which is neither negative nor more than the order's amount, and reports the order as fulfilled exactly when it was filled whole.
  pub fulfill_order-balance :
      (w w' : World V Db) (f : Fulfilment V)
      → lte (of_ℕ 0) signed_order.amount ≡ true
      → fulfill_order env now_ms signed_order w ≡ (w', ok f)
      → (f.filled_amount ≡ traded_sum (fills_of env now_ms signed_order w.orders))
        × (lte (of_ℕ 0) f.filled_amount ≡ true)
        × (lte f.filled_amount signed_order.amount ≡ true)
        × ((f.is_fullfilled ≡ true) ↔ (f.filled_amount ≡ signed_order.amount))
  fulfill_order-balance w w' f nonneg h =
      let fs = fills_of env now_ms signed_order w.orders in
      let rest = left signed_order.amount fs in
      let (_, filled, full) = fulfill_order-parts env now_ms signed_order w w' f h in
      let sum : plus rest (traded_sum fs) ≡ signed_order.amount =
        left-traded_sum signed_order.amount fs in
      let zero_sum : plus (of_ℕ 0) (traded_sum fs) ≡ traded_sum fs = zero_plus (traded_sum fs) in
      (
        filled,
        rw filled (traded_sum-nonneg fs (fills_of-IsSound w.orders)),
        rw filled
            (traded_sum-within signed_order.amount fs (left-nonneg signed_order.amount _ nonneg)),
        (
          (λ e.
              let none_left : rest ≡ of_ℕ 0 = (N.eq_iff rest (of_ℕ 0)).0 (sym full ∙ e) in
              filled ∙ sym zero_sum ∙ ap (λ x. plus x (traded_sum fs)) (sym none_left) ∙ sum),
          (λ e.
              full
              ∙ (N.eq_iff rest (of_ℕ 0)).1 (
                  plus_right_cancel rest (of_ℕ 0) (traded_sum fs)
                    (sum ∙ sym e ∙ filled ∙ sym zero_sum))),
        ),
      )

  -- A buyer pays for the fills at most their sum at his limit price, and a seller gets at least it.
  pub volume-limit :
      (db : Db)
      → let fs = fills_of env now_ms signed_order db in
        let at_limit = times (traded_sum fs) (signed_order.limit_price).value in
        if signed_order.is_buy
        then lte (volume (of_ℕ 0) fs) at_limit ≡ true
        else lte at_limit (volume (of_ℕ 0) fs) ≡ true
  volume-limit db =
      let fs = fills_of env now_ms signed_order db in
      volume_of_side signed_order.is_buy (signed_order.limit_price).value fs (fills_of-IsSound db) (
        All-imp _ (λ f. IsAcceptable signed_order f.0) fs (λ f h. h.1.acceptable)
          (fills_of-IsMatch db))
