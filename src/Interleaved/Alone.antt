-- ===== src/Interleaved/Alone.antt =====
-- A request that no other one interrupts, and the end of one that was interrupted.
use perpetual_custom.Base.{
  append-nil, append_assoc, map, ◌++◌, ℕ, ◌==◌, ◌≡◌, refl, sym, false, subst, List, [], ◌∷◌, arith,
  ok,
}
use perpetual_custom.BigNumber.{BigNumber}
use perpetual_custom.Types.{TradeHistoryEntity, SignedOrder, SignedOrderEntity}
use perpetual_custom.Ethers.{TxReceipt}
use perpetual_custom.Store.{OrderStore}
use perpetual_custom.Matching.{MatchState}
use perpetual_custom.Service.{
  Env, World, save_all, settle, order_event, trade_record, trade_history, history_rows, transact,
}
use perpetual_custom.Interleaved.{
  Pc, trading, writing, adding, System, update, emit, Move, confirm, save, announce, keep, report,
  recording, pick, Steps, here, later,
}

update-same : {V : Type 0} (pc : ℕ → Pc V) (i : ℕ) (p : Pc V) → update pc i p i ≡ p
update-same pc i p = ground arith

module _ {V : Type 0} ⦃N : BigNumber V⦄ {Db : Type 0} where
  -- The world when the last event of a request is emitted, from that of its rows.
  abbrev reported : ℕ → SignedOrder V → MatchState V → TxReceipt → World V Db → World V Db
  reported now_ms o s receipt w =
      emit (map (λ e. trade_record (trade_history e)) (history_rows receipt now_ms o s)) w

  abbrev written :
      ⦃S : OrderStore Db⦄
      → ℕ
      → SignedOrder V
      → MatchState V
      → TxReceipt
      → List SignedOrderEntity
      → World V Db
      → World V Db
  written now_ms o s receipt rows w =
      let saved = record w { orders = save_all rows w.orders } in
      let announced = emit (map order_event s.emitted_orders) saved in
      reported now_ms o s receipt
        (record announced { history = announced.history ++ history_rows receipt now_ms o s })

module _ {V : Type 0} ⦃N : BigNumber V⦄ {Db : Type 0} ⦃S : OrderStore Db⦄ (env : Env) where
  -- The moves of one request while the others wait.
  pub data Solo : World V Db → Pc V → World V Db → Pc V → Type 0 where
    done : {w : World V Db} {p : Pc V} → Solo w p w p
    then :
        {w w' w'' : World V Db} {p p' p'' : Pc V}
        → Move env w p w' p'
        → Solo w' p' w'' p''
        → Solo w p w'' p''

  pub Solo-trans :
      {w w' w'' : World V Db} {p p' p'' : Pc V}
      → Solo w p w' p'
      → Solo w' p' w'' p''
      → Solo w p w'' p''
  Solo-trans done rest = rest
  Solo-trans (then m run) rest = then m (Solo-trans run rest)

  recording-Solo :
      (now_ms : ℕ) (o : SignedOrder V) (s : MatchState V) (receipt : TxReceipt)
      (rows : List TradeHistoryEntity) (w : World V Db)
      → Solo w
          (recording now_ms o s receipt rows)
          (reported now_ms o s receipt (record w { history = w.history ++ rows }))
          (adding o s.remaining_amount)
  recording-Solo now_ms o s receipt [] w =
      subst
        (λ h.
          Solo w (recording now_ms o s receipt [])
            (reported now_ms o s receipt (record w { history = h })) (adding o s.remaining_amount))
        (sym (append-nil w.history)) (then report done)
  recording-Solo now_ms o s receipt (e ∷ rows) w = then (keep [] e rows) (
      subst
        (λ h.
          Solo (record w { history = w.history ++ e ∷ [] }) (recording now_ms o s receipt rows)
            (reported now_ms o s receipt (record w { history = h })) (adding o s.remaining_amount))
        (append_assoc w.history (e ∷ []) rows)
        (recording-Solo now_ms o s receipt rows (record w { history = w.history ++ e ∷ [] })))

  -- All rows are saved, in their order.
  writing-Solo :
      (now_ms : ℕ) (o : SignedOrder V) (s : MatchState V) (receipt : TxReceipt)
      (rows : List SignedOrderEntity) (w : World V Db)
      → Solo w
          (writing now_ms o s receipt rows)
          (written now_ms o s receipt rows w)
          (adding o s.remaining_amount)
  unfolding save_all
  writing-Solo now_ms o s receipt [] w = then announce (
      recording-Solo now_ms o s receipt (history_rows receipt now_ms o s)
        (emit (map order_event s.emitted_orders) w))
  writing-Solo now_ms o s receipt (e ∷ rows) w =
      then (save [] e rows)
        (writing-Solo now_ms o s receipt rows (record w { orders = S.save e w.orders }))

  pub settle-Solo :
      (now_ms : ℕ) (o : SignedOrder V) (s : MatchState V) (receipt : TxReceipt) (w : World V Db)
      → transact env s.operation ≡ ok receipt
      → Solo w (trading now_ms o s) (settle receipt now_ms o s w) (adding o s.remaining_amount)
  unfolding settle
  settle-Solo now_ms o s receipt w h =
      then (confirm h) (writing-Solo now_ms o s receipt s.updated_orders w)

  -- The system has gone on by moves of one request alone.
  pub record Alone (i : ℕ) (s : System V Db) (w : World V Db) (p : Pc V) : Type 0 where
    pub last : System V Db
    pub steps : Steps env s last
    pub world : last.world ≡ w
    pub stands : last.pc i ≡ p
    pub others : (j : ℕ) → (j == i) ≡ false → last.pc j ≡ s.pc j

  -- The moves of one request are steps of the system.
  pub Alone-Solo :
      (i : ℕ) {w w' : World V Db} {p p' : Pc V} (s : System V Db)
      → Alone i s w p
      → Solo w p w' p'
      → Alone i s w' p'
  Alone-Solo i s at' done = at'
  Alone-Solo i {w} {p} s at' (then {w' = mid} {p' = q} m run) =
      let t = at'.last in
      Alone-Solo i s
        (record {
          last = record { world = mid; pc = update t.pc i q };
          steps = later at'.steps (
              pick i (
                subst (λ x. Move env t.world x mid q) (sym at'.stands)
                  (subst (λ x. Move env x p mid q) (sym at'.world) m)));
          world = refl;
          stands = update-same t.pc i q;
          others = λ j e. rw e (at'.others j e);
        })
        run

  pub start_at : (i : ℕ) (s : System V Db) → Alone i s s.world (s.pc i)
  start_at i s = record {
    last = s;
    steps = here;
    world = refl;
    stands = refl;
    others = λ j e. refl;
  }
