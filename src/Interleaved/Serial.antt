-- ===== src/Interleaved/Serial.antt =====
-- Requests that are served one after the other, as the moves of requests that could overlap.
use perpetual_custom.Base.Text.{Text}
use perpetual_custom.Base.{
  ℕ, ◌==◌, ◌≡◌, refl, sym, false, ap, ◌∙◌, subst, ◌⊎◌, inl, inr, none, some, List, [], ◌∷◌, arith,
  All, Bool-cases, Result-cases, ok, ok-injective,
}
use perpetual_custom.BigNumber.{BigNumber, gt}
use perpetual_custom.Types.{SignedOrder, SraOrder}
use perpetual_custom.Ethers.{TxReceipt}
use perpetual_custom.Store.{OrderStore}
use perpetual_custom.Matching.{MatchState, matching_orders, best_first}
use perpetual_custom.Service.{
  Env, World, null_row, settle, transact, fulfillment, remaining_after, fulfill_order,
}
use perpetual_custom.Service.Fulfil.{fulfil_with-parts}
use perpetual_custom.Handlers.{orders_hash, find_each, post_order, post_fulfilled, cancel_order}
use perpetual_custom.Handlers.Laws.{post_order-parts}
use perpetual_custom.Exchange.{Request, post, cancel, handle, serve}
use perpetual_custom.Exchange.Moves.{IsWhole, IsWellFormed}
use perpetual_custom.Exchange.Refines.{post_order-err}
use perpetual_custom.Interleaved.{
  Pc, idle, adding, System, matched, delete_and_emit, begin, pass, add, look_up, delete, Steps,
}
use perpetual_custom.Interleaved.Alone.{
  Solo, done, then, Solo-trans, settle-Solo, Alone, Alone-Solo, start_at,
}

same_everywhere :
    {V : Type 0} (i j : ℕ) (pc pc' : ℕ → Pc V)
    → pc' i ≡ pc i
    → ((j == i) ≡ false → pc' j ≡ pc j)
    → pc' j ≡ pc j
same_everywhere i j pc pc' e h = elim (Bool-cases (j == i)) [
  | inl same ↦ ground (arith, same, e)
  | inr other ↦ h other
]

module _ {V : Type 0} ⦃N : BigNumber V⦄ {Db : Type 0} ⦃S : OrderStore Db⦄ (env : Env) where
  -- What `fulfillOrderAsync` did, as the moves do it.
  matched_run :
      (now_ms : ℕ) (o : SignedOrder V) (as' : List (SraOrder V)) (w w' : World V Db) (r : V)
      → remaining_after env now_ms o as' w ≡ (w', ok r)
      → ((matched env now_ms o as' ≡ ok none) × (w' ≡ w) × (r ≡ o.amount))
        ⊎ ((s : MatchState V) × (receipt : TxReceipt) × (matched env now_ms o as' ≡ ok (some s))
            × (transact env s.operation ≡ ok receipt)
            × (w' ≡ settle receipt now_ms o s w)
            × (r ≡ s.remaining_amount))
  unfolding matched remaining_after
  matched_run now_ms o [] w w' r h = inl (refl, ground (arith, h), ground (arith, h))
  matched_run now_ms o (a ∷ rest) w w' r h = elim (Bool-cases (gt o.amount (N.of_ℕ 0))) [
    | inl e ↦
        let (s, receipt, run, sent, after, left) =
          fulfil_with-parts env now_ms o (best_first o (a ∷ rest)) w w' r (rw e at h) in
        rw e (inr (s, receipt, rw run refl, sent, after, left))
    | inr e ↦
        let k = rw e at h in
        rw e (inl (refl, sym (ap (λ x. x.0) k), sym (ok-injective (ap (λ x. x.1) k))))
  ]

  remaining_after-Solo :
      (now_ms : ℕ) (o : SignedOrder V) (w w' : World V Db) (r : V)
      → IsWhole o
      → remaining_after env now_ms o (matching_orders now_ms env.expiration_buffer o w.orders) w
        ≡ (w', ok r)
      → Solo env w idle w' (adding o r)
  remaining_after-Solo now_ms o w w' r whole h = elim (matched_run now_ms o _ w w' r h) [
    | inl (none_matched, same, rest) ↦
        subst (λ x. Solo env w idle x (adding o r)) (sym same)
          (subst (λ x. Solo env w idle w (adding o x)) (sym rest)
            (then (pass now_ms whole none_matched) done))
    | inr (s, receipt, some_matched, sent, after, rest) ↦
        subst (λ x. Solo env w idle x (adding o r)) (sym after)
          (subst (λ x. Solo env w idle (settle receipt now_ms o s w) (adding o x)) (sym rest)
            (then (begin whole some_matched) (settle-Solo env now_ms o s receipt w sent)))
  ]

  post_order-Solo :
      (now_ms : ℕ) (o : SignedOrder V) (w w' : World V Db) (status : ℕ)
      → IsWhole o
      → post_order env now_ms o w ≡ (w', ok status)
      → Solo env w idle w' idle
  unfolding fulfill_order fulfillment
  post_order-Solo now_ms o w w' status whole h =
      let (f, filled, finished) = post_order-parts env now_ms o w w' status h in
      let p =
        remaining_after env now_ms o (matching_orders now_ms env.expiration_buffer o w.orders) w in
      elim (Result-cases p.1) [
        | inl (e, q) ↦ absurd (cc (rw q at filled))
        | inr (r, q) ↦
            let same = ok-injective (rw q at filled) in
            subst (λ x. Solo env w idle x idle)
              (ap (λ g. (post_fulfilled env now_ms o g p.0).0) same ∙ ap (λ x. x.0) finished)
              (Solo-trans env (remaining_after-Solo now_ms o w p.0 r whole (ap (λ x. (p.0, x)) q))
                (then (add now_ms) done))
      ]

  cancel_order-Solo :
      (hashes : List Text) (w : World V Db)
      → Solo env w idle (cancel_order null_row (orders_hash hashes) w).0 idle
  unfolding cancel_order delete_and_emit
  cancel_order-Solo hashes w = elim (Result-cases (find_each {V = V} null_row hashes w.orders)) [
    | inl (e, q) ↦ rw (q, cancel_order) done
    | inr (orders, q) ↦ rw (q, cancel_order) (then (look_up q) (then delete done))
  ]

  handle-Solo :
      (r : Request V) (w : World V Db) → IsWellFormed r → Solo env w idle (handle env r w).0 idle
  unfolding handle
  handle-Solo (cancel hashes) w well = cancel_order-Solo hashes w
  handle-Solo (post now_ms o) w well = elim (Result-cases (post_order env now_ms o w).1) [
    | inl (e, fails) ↦
        subst (λ x. Solo env w idle x idle) (sym (post_order-err env now_ms o w e well.2 fails))
          done
    | inr (status, returns) ↦
        post_order-Solo now_ms o w _ status well
          (ap (λ r. ((post_order env now_ms o w).0, r)) returns)
  ]

  serve-Solo :
      (rs : List (Request V)) (w : World V Db)
      → All IsWellFormed rs
      → Solo env w idle (serve env rs w) idle
  unfolding serve
  serve-Solo [] w well = done
  serve-Solo (r ∷ rs) w (well, wells) =
      Solo-trans env (handle-Solo r w well) (serve-Solo rs (handle env r w).0 wells)

  -- To serve a sequence of well-formed requests one after the other is one way in which the system
  -- may go, whatever requests are in flight besides, and these stay where they stand.
  pub Steps-serve :
      (i : ℕ) (rs : List (Request V)) (s : System V Db)
      → All IsWellFormed rs
      → s.pc i ≡ idle
      → (t : System V Db) × Steps env s t
        × (t.world ≡ serve env rs s.world)
        × ((j : ℕ) → t.pc j ≡ s.pc j)
  Steps-serve i rs s wells e =
      let run =
        Alone-Solo env i s (subst (Alone env i s s.world) e (start_at env i s))
          (serve-Solo rs s.world wells) in
      (
        run.last,
        run.steps,
        run.world,
        λ j. same_everywhere i j s.pc run.last.pc (run.stands ∙ sym e) (run.others j),
      )
