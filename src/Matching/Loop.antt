-- ===== src/Matching/Loop.antt =====
-- The loop of `fulfillOrderAsync` carries out the fills of Fills.antt, and it returns.
use perpetual_custom.Base.{
  ◌≡◌, refl, sym, ◌∙◌, inl, inr, List, [], ◌∷◌, ◌++◌, append_assoc, append-nil, map, Bool-cases,
  subst, ok-injective, >>=-eq-ok, Result, ok, ◌>>=◌,
}
use perpetual_custom.BigNumber.{BigNumber}
use perpetual_custom.Types.{Address, SignedOrder, SraOrder, Error}
use perpetual_custom.Ethers.{Ethers, Contracts}
use perpetual_custom.OrderUtils.{serialize_order}
use perpetual_custom.TradeOperation.{TradeOperation}
use perpetual_custom.Matching.{
  MatchState, add_filled, available, history_arg, fill_both, match_one, match_loop, after_match,
}
use perpetual_custom.Matching.Fills.{Fill, fills, left, volume}

module _ {V : Type 0} ⦃N : BigNumber V⦄ (E : Ethers) (c : Contracts) (operator : Address)
    (signed_order : SignedOrder V) where
  -- The fills of a list, written to the operation one after the other.
  unfoldable pub fill_each : List (Fill V) → TradeOperation → Result Error TradeOperation
  fill_each [] op = ok op
  fill_each ((a, t) ∷ fs) op =
      fill_both E c operator signed_order a t op >>= λ op'. fill_each fs op'

  -- The variables behind a run of the loop that made the given fills.
  pub record Ran (s : MatchState V) (fs : List (Fill V)) (s' : MatchState V) : Type 0 where
    pub remaining : s'.remaining_amount ≡ left s.remaining_amount fs
    pub total : s'.total_volume ≡ volume s.total_volume fs
    pub operation : fill_each fs s.operation ≡ ok s'.operation
    pub updated :
        s'.updated_orders ≡ s.updated_orders ++ map (λ f. serialize_order (add_filled f.1 f.0)) fs
    pub emitted : s'.emitted_orders ≡ s.emitted_orders ++ map (λ f. add_filled f.1 f.0) fs
    pub history :
        s'.trades_history_args ≡ s.trades_history_args ++ map (λ f. history_arg f.0 f.1) fs

  Ran-none : (s : MatchState V) → Ran s [] s
  unfolding left volume fill_each
  Ran-none s = record {
    remaining = refl;
    total = refl;
    operation = refl;
    updated = sym (append-nil s.updated_orders);
    emitted = sym (append-nil s.emitted_orders);
    history = sym (append-nil s.trades_history_args);
  }

  Ran-step :
      (a : SraOrder V) (s : MatchState V) (op : TradeOperation) (fs : List (Fill V))
      (s' : MatchState V)
      → let traded = N.minimum s.remaining_amount (available a) in
        fill_both E c operator signed_order a traded s.operation ≡ ok op
        → Ran (after_match a s op) fs s'
        → Ran s ((a, N.minimum s.remaining_amount (available a)) ∷ fs) s'
  unfolding left volume fill_each
  Ran-step a s op fs s' e h = record {
    remaining = h.remaining;
    total = h.total;
    operation = rw e (h.operation);
    updated = h.updated ∙ append_assoc s.updated_orders (_ ∷ []) _;
    emitted = h.emitted ∙ append_assoc s.emitted_orders (_ ∷ []) _;
    history = h.history ∙ append_assoc s.trades_history_args (_ ∷ []) _;
  }

  -- A run of the loop that returns has made exactly the fills of its list.
  pub match_loop-Ran :
      (as' : List (SraOrder V)) (s s' : MatchState V)
      → match_loop E c operator signed_order as' s ≡ ok s'
      → Ran s (fills s.remaining_amount as') s'
  unfolding match_loop match_one fills
  match_loop-Ran [] s s' h = subst (Ran s []) (ok-injective h) (Ran-none s)
  match_loop-Ran (a ∷ rest) s s' h = elim (Bool-cases (N.lte s.remaining_amount (N.of_ℕ 0))) [
    | inl done ↦ rw done (subst (Ran s []) (ok-injective (rw done at h)) (Ran-none s))
    | inr more ↦
        let (mid, step, later) = >>=-eq-ok _ _ (rw more at h) in
        let (op, both, e) = >>=-eq-ok _ _ step in
        let run : Ran mid (fills mid.remaining_amount rest) s' = match_loop-Ran rest mid s' later in
        rw more (
          Ran-step a s op _ s' both
            (subst (λ m. Ran m (fills m.remaining_amount rest) s') (sym (ok-injective e)) run))
  ]
